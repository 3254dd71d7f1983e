-- ===== src/Prover/Counters/Roots.antt =====
-- The files of roots of util/utils.go, and the commits that `GetCommits` of pois/prove.go reads.
use native.Mathlib.Nat.{zero-add, suc-add}
use cess_pos_demo.Common.{
  ℕ, zero, suc, ◌+◌, ◌-◌, ◌*◌, drop, take-append-drop, min, ◌≤◌, ◌<◌, Bool, true, false, List, [],
  ◌∷◌, ◌++◌, length, take, All, length-append, take-length_append, get_elem?-append_one,
  length-append_one, drop-length_append, get_elem?, some, ltb, leb, ◌==◌, if◌then◌else◌, ◌≡◌, refl,
  sym, ap, ◌∙◌, arith, inl, inr, Bool-cases, ok,
}
use cess_pos_demo.BigInt.{Bytes}
use cess_pos_demo.BigInt.Bytes.{equal_refl}
use cess_pos_demo.Crypto.{Crypto, hash_sum}
use cess_pos_demo.Encoding.{hash_size}
use cess_pos_demo.Encoding.Laws.{concat}
use cess_pos_demo.Expander.Idle.Layers.{roots_of}
use cess_pos_demo.Verify.{Commit, commit_valid, concat_roots}
use cess_pos_demo.Prover.Counters.{
  Prover, save_proof_file, reader_size, refilled, read_labels, read_proof_file, read_commits,
  get_commits,
}

take-past : (xs more : Bytes) (n : ℕ) → take (length xs + n) (xs ++ more) ≡ xs ++ take n more
take-past [] more n = rw zero-add
take-past (x ∷ xs) more n = rw suc-add (ap (λ t. x ∷ t) (take-past xs more n))

drop-past : (xs more : Bytes) (n : ℕ) → drop (length xs + n) (xs ++ more) ≡ drop n more
drop-past [] more n = rw zero-add
drop-past (x ∷ xs) more n = rw suc-add (drop-past xs more n)

take-empty : (n : ℕ) → (take {A = ℕ} n [] ≡ []) × (drop {A = ℕ} n [] ≡ [])
take-empty zero = (refl, refl)
take-empty (suc n) = (refl, refl)

abbrev OfLength : ℕ → List Bytes → Type 0
OfLength len roots = All (λ r. length r ≡ len) roots

-- The first labels of a file.
take-concat :
    (len k : ℕ) (roots : List Bytes)
    → OfLength len roots
    → (take (k * len) (concat roots) ≡ concat (take k roots))
      × (drop (k * len) (concat roots) ≡ concat (drop k roots))
take-concat len zero roots sizes = let e : 0 * len ≡ 0 = omega arith in rw e (refl, refl)
take-concat len (suc k) [] sizes = take-empty (suc k * len)
take-concat len (suc k) (r ∷ roots) sizes =
    let size = sizes.0 in
    let e : suc k * len ≡ length r + k * len =
      let m : suc k * len ≡ len + k * len = grind arith in omega arith in
    let (first, rest) = take-concat len k roots sizes.1 in
    rw (e, take-past r (concat roots) (k * len), drop-past r (concat roots) (k * len))
      (ap (λ t. r ++ t) first, rest)

OfLength-split :
    (len k : ℕ) (roots : List Bytes)
    → OfLength len roots
    → OfLength len (take k roots) × OfLength len (drop k roots)
OfLength-split len zero roots sizes = (tt, sizes)
OfLength-split len (suc k) [] sizes = (tt, tt)
OfLength-split len (suc k) (r ∷ roots) sizes =
    let (a, b) = OfLength-split len k roots sizes.1 in ((sizes.0, a), b)

-- One label, which is in the buffer after at most one read of the file.
read_labels-suc :
    (num len : ℕ) (buffered content r more content' : Bytes) (out : List Bytes)
    → refilled len buffered content ≡ (r ++ more, content')
    → length r ≡ len
    → read_labels num len more content' ≡ ok out
    → read_labels (suc num) len buffered content ≡ ok (r ∷ out)
unfolding read_labels
read_labels-suc num len buffered content r more content' out e size rest =
    let both = length-append r more in
    let enough : ltb (length (r ++ more)) len ≡ false = ground arith in
    rw (e, enough, sym size, take-length_append r more, drop-length_append r more, size, rest)

refilled-some :
    (len : ℕ) (buffered content : Bytes)
    → 0 < length buffered
    → refilled len buffered content ≡ (buffered, content)
unfolding refilled
refilled-some len [] content h = absurd (omega arith)
refilled-some len (b ∷ buffered) content h = refl

refilled-none :
    (len k : ℕ) (content : Bytes)
    → suc k * len ≡ reader_size
    → refilled len [] content ≡ (take (suc k * len) content, drop (suc k * len) content)
unfolding refilled
refilled-none len k content whole =
    let e : suc k * len ≡ len + k * len = grind arith in
    elim (Bool-cases (leb reader_size len)) [
      | inl q ↦
          let same : len ≡ suc k * len = ground arith in
          rw q (ap (λ t. (take t content, drop t content)) same)
      | inr q ↦ rw (q, whole)
    ]

some_byte : (len k : ℕ) → suc k * len ≡ reader_size → 0 < len
some_byte zero k whole = let none : suc k * 0 ≡ 0 = omega arith in absurd (omega arith)
some_byte (suc len) k whole = omega arith

-- Labels of which some are buffered and the others are still in the file, when the buffer holds
-- `k + 1` labels.
read_labels-buffered :
    (len k num : ℕ) (buffered roots : List Bytes)
    → suc k * len ≡ reader_size
    → OfLength len buffered
    → OfLength len roots
    → length buffered + length roots ≡ num
    → read_labels num len (concat buffered) (concat roots) ≡ ok (buffered ++ roots)
read_labels-buffered len k zero [] [] whole sizes sizes' e = unfold read_labels in refl
read_labels-buffered len k zero [] (r ∷ roots) whole sizes sizes' e = absurd (omega arith)
read_labels-buffered len k zero (r ∷ buffered) roots whole sizes sizes' e = absurd (omega arith)
read_labels-buffered len k (suc num) [] [] whole sizes sizes' e = absurd (omega arith)
read_labels-buffered len k (suc num) [] (r ∷ roots) whole sizes sizes' e =
    let (first, rest) = take-concat len (suc k) (r ∷ roots) sizes' in
    let (a, b) = OfLength-split len k roots sizes'.1 in
    let parts = length-append (take k roots) (drop k roots) in
    let all = ap (length {A = Bytes}) (take-append-drop k roots) in
    let read : refilled len [] (concat (r ∷ roots))
        ≡ (r ++ concat (take k roots), concat (drop k roots)) =
      refilled-none len k (concat (r ∷ roots)) whole ∙ rw (first, rest) in
    read_labels-suc num len [] (concat (r ∷ roots)) r (concat (take k roots))
      (concat (drop k roots)) roots read sizes'.0
      (read_labels-buffered len k num (take k roots) (drop k roots) whole a b (omega arith)
        ∙ ap ok (take-append-drop k roots))
read_labels-buffered len k (suc num) (r ∷ buffered) roots whole sizes sizes' e =
    let size = sizes.0 in
    let product : suc k * len ≡ len + k * len = grind arith in
    let some_bytes : 0 < len = some_byte len k whole in
    let both = length-append r (concat buffered) in
    read_labels-suc num len (concat (r ∷ buffered)) (concat roots) r (concat buffered)
      (concat roots) (buffered ++ roots)
      (refilled-some len (concat (r ∷ buffered)) (concat roots) (omega arith)) size
      (read_labels-buffered len k num buffered roots whole sizes.1 sizes' (omega arith))

-- What `SaveProofFile` writes, `ReadProofFile` reads back, for at least one label and labels of one
-- length of which a whole number fill the reader's buffer.
pub read_proof_file-save_proof_file :
    (len k : ℕ) (roots : List Bytes)
    → k * len ≡ reader_size
    → 0 < length roots
    → All (λ r. length r ≡ len) roots
    → read_proof_file (some (save_proof_file roots)) (length roots) len ≡ ok roots
unfolding read_proof_file save_proof_file
read_proof_file-save_proof_file len zero roots whole pos sizes = absurd (omega arith)
read_proof_file-save_proof_file len (suc k) roots whole pos sizes =
    let some_labels : (length roots == 0) ≡ false = ground arith in
    rw some_labels (read_labels-buffered len k (length roots) [] roots whole tt sizes (omega arith))

abbrev pub commits_from : (ℕ → List Bytes) → ℕ → ℕ → List Commit
commits_from roots_at zero i = []
commits_from roots_at (suc num) i =
    record { file_index = i; roots = roots_at i } ∷ commits_from roots_at num (i + 1)

-- The roots of file `i` are saved on the prover's disk.
pub record IsSaved (p : Prover) (roots_at : ℕ → List Bytes) (i : ℕ) : Type 0 where
  pub there : p.disk.roots i ≡ some (save_proof_file (roots_at i))
  pub number : length (roots_at i) ≡ p.expanders.k + 2
  pub sizes : All (λ r. length r ≡ hash_size) (roots_at i)

read_commits-IsSaved :
    (num : ℕ) (p : Prover) (roots_at : ℕ → List Bytes) (i : ℕ)
    → ((j : ℕ) → i ≤ j → j < i + num → IsSaved p roots_at j)
    → read_commits num p i ≡ ok (commits_from roots_at num i)
unfolding read_commits
read_commits-IsSaved zero p roots_at i h = refl
read_commits-IsSaved (suc num) p roots_at i h =
    let own = h i (omega arith) (omega arith) in
    let number = own.number in
    let read =
      read_proof_file-save_proof_file hash_size 64 (roots_at i) refl (omega arith) own.sizes in
    let rest =
      read_commits-IsSaved num p roots_at (i + 1) (λ j l u. h j (omega arith) (omega arith)) in
    rw (own.there, sym number, read, rest)

if_false : {A : Type 0} (b : Bool) (x y : A) → b ≡ false → (if b then x else y) ≡ y
if_false true x y h = cc
if_false false x y h = refl

-- How many commits `GetCommits` returns, for `num` asked for.
abbrev pub ready : Prover → ℕ → ℕ
ready p num = min num (p.generated - p.commited)

-- `GetCommits`, while no deletion runs and files are generated that are not committed, whose roots are
-- saved: it returns the next commits in order, as many as asked for or, if these are fewer, as are
-- generated, with the roots that were saved, and moves the counter behind them.
pub get_commits-IsSaved :
    (p : Prover) (num : ℕ) (roots_at : ℕ → List Bytes)
    → p.delete ≡ false
    → p.commited < p.generated
    → ((j : ℕ) → p.commited < j → j ≤ p.generated → IsSaved p roots_at j)
    → get_commits p num
      ≡ ok (
        record p { commited = p.commited + ready p num },
        commits_from roots_at (ready p num) (p.commited + 1),
      )
unfolding get_commits
get_commits-IsSaved p num roots_at idle more h =
    let open_files : leb p.generated p.commited ≡ false = ground arith in
    let same : (if ltb (p.generated - p.commited) num then p.generated - p.commited else num)
        ≡ ready p num =
      ground arith in
    let within : ready p num ≤ p.generated - p.commited = omega arith in
    let read =
      read_commits-IsSaved (ready p num) p roots_at (p.commited + 1)
        (λ j l u. h j (omega arith) (omega arith)) in
    if_false p.delete _ _ idle ∙ rw (open_files, same, read)

concat_roots-concat : (roots : List Bytes) → concat_roots roots ≡ concat roots
concat_roots-concat [] = refl
concat_roots-concat (r ∷ roots) = ap (λ t. r ++ t) (concat_roots-concat roots)

module _ ⦃c : Crypto⦄ where
  length-roots_of :
      (slices : ℕ → Bytes) (i : ℕ) (layers : List Bytes)
      → length (roots_of slices i layers) ≡ length layers
  length-roots_of slices i [] = refl
  length-roots_of slices i (l ∷ layers) = ap suc (length-roots_of slices (i + 1) layers)

  last-append :
      (xs : List Bytes) (x : Bytes) (n : ℕ) → length xs ≡ n → get_elem? (xs ++ x ∷ []) n ≡ some x
  last-append xs x n h = rw (sym h) (get_elem?-append_one xs x)

  -- The roots of an idle file, the digest of all roots behind them, pass the tests of `ReceiveCommits`.
  pub commit_valid-roots :
      (k file : ℕ) (roots : List Bytes)
      → length roots ≡ k + 1
      → commit_valid k
          (record { file_index = file; roots = roots ++ hash_sum hash_size (concat roots) ∷ [] })
        ≡ ok true
  unfolding commit_valid
  commit_valid-roots k file roots h =
      let d : Bytes = hash_sum hash_size (concat roots) in
      let longer = length-append_one roots d in
      let number : (length (roots ++ d ∷ []) == k + 2) ≡ true = ground arith in
      let front : take (length (roots ++ d ∷ []) - 1) (roots ++ d ∷ []) ≡ roots =
        let less : length (roots ++ d ∷ []) - 1 ≡ length roots = omega arith in
        rw less (take-length_append roots (d ∷ [])) in
      rw (number, last-append roots d (k + 1) h, front, concat_roots-concat roots)
        (ap ok (equal_refl d))
