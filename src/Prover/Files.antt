-- ===== src/Prover/Files.antt =====
-- From `GenerateIdleFile` of expanders/generate_idle_file.go to `ProveCommit` of pois/prove.go and
-- `VerifyCommitProofs` of pois/verify.go.
use cess_pos_demo.Common.{
  ℕ, zero, suc, ◌+◌, ◌-◌, ◌*◌, ◌/◌, ◌%◌, ◌^◌, ◌≤◌, ◌<◌, Bool, false, List, [], ◌∷◌, ◌++◌, length,
  All, get_elem?, get_or, some, ◌≡◌, refl, sym, ap, ◌∙◌, arith, ok, Returns, returned,
}
use cess_pos_demo.BigInt.{Bytes}
use cess_pos_demo.Crypto.{Crypto, hash_sum}
use cess_pos_demo.Encoding.{hash_size}
use cess_pos_demo.Encoding.Laws.{concat}
use cess_pos_demo.Expander.{Expanders}
use cess_pos_demo.Expander.Idle.{IdleFile, generate_idle_file}
use cess_pos_demo.Expander.Idle.Labels.{IsLabelled}
use cess_pos_demo.Expander.Idle.Layers.{
  layer_root_of, roots_of, AllLabelled, generate_idle_file-AllLabelled,
}
use cess_pos_demo.Verify.Commits.{front_size, check_commit}
use cess_pos_demo.Prover.{Disk, prove_one}
use cess_pos_demo.Prover.Nodes.{IsStored}
use cess_pos_demo.Prover.Chains.{prove_one-accepted}

get_or-some : (xs : List Bytes) (i : ℕ) → i < length xs → get_elem? xs i ≡ some (get_or xs i [])
get_or-some [] i h = absurd (omega arith)
get_or-some (x ∷ xs) zero h = refl
get_or-some (x ∷ xs) (suc i) h = get_or-some xs i (omega arith)

module _ ⦃c : Crypto⦄ where
  layer_size :
      (graph : Expanders) (id : Bytes) (count i : ℕ) (above : Bytes) (layers : List Bytes) (k : ℕ)
      → AllLabelled graph id count i above layers
      → k < length layers
      → length (get_or layers k []) ≡ graph.n * hash_size
  layer_size graph id count i above [] k all h = absurd (omega arith)
  layer_size graph id count i above (x ∷ layers) zero all h = all.0
  layer_size graph id count i above (x ∷ layers) (suc k) all h =
      layer_size graph id count (i + 1) x layers k all.2 (omega arith)

  layer_labels :
      (graph : Expanders) (id : Bytes) (count i : ℕ) (above : Bytes) (layers : List Bytes) (k j : ℕ)
      → AllLabelled graph id count i above layers
      → k < length layers
      → 0 < i + k
      → j < graph.n
      → IsLabelled graph id count (i + k) (get_or (above ∷ layers) k []) (get_or layers k []) j
  layer_labels graph id count i above [] k j all h pos inside = absurd (omega arith)
  layer_labels graph id count i above (x ∷ layers) zero j all h pos inside =
      let same : i + 0 ≡ i = omega arith in rw same (all.1 j inside (omega arith))
  layer_labels graph id count i above (x ∷ layers) (suc k) j all h pos inside =
      let same : i + suc k ≡ i + 1 + k = omega arith in
      rw same
        (layer_labels graph id count (i + 1) x layers k j all.2 (omega arith) (omega arith) inside)

  root_at :
      (slices : ℕ → Bytes) (i : ℕ) (layers more : List Bytes) (k : ℕ)
      → k < length layers
      → get_elem? (roots_of slices i layers ++ more) k
        ≡ some (layer_root_of slices (i + k) (get_or layers k []))
  root_at slices i [] more k h = absurd (omega arith)
  root_at slices i (x ∷ layers) more zero h = let same : i + 0 ≡ i = omega arith in rw same
  root_at slices i (x ∷ layers) more (suc k) h =
      let same : i + suc k ≡ i + 1 + k = omega arith in
      rw same (root_at slices (i + 1) layers more k (omega arith))

  before :
      (above : Bytes) (layers : List Bytes) (i : ℕ)
      → 0 < i
      → get_or (above ∷ layers) i [] ≡ get_or layers (i - 1) []
  before above layers zero h = absurd (omega arith)
  before above layers (suc i) h = let e : suc i - 1 ≡ i = omega arith in rw e

  -- The disk holds the layers of the file.
  abbrev pub Holds : Disk → ℕ → IdleFile → Type 0
  Holds disk count file = (i : ℕ) → disk.layer count i ≡ get_elem? file.layers i

  module _ (graph : Expanders) (pos : 0 < graph.n) (less : graph.d < graph.n)
      (even : graph.d % 16 ≡ 0) (id : Bytes) (count : ℕ) (slices : ℕ → Bytes) (fails : ℕ → Bool)
      (saved : (i : ℕ) → fails i ≡ false) (fit : (i : ℕ) → length (slices i) ≡ graph.n * hash_size)
      (above labels : Bytes) (a : length above ≡ graph.n * hash_size)
      (l : length labels ≡ graph.n * hash_size) (file : IdleFile)
      (generated : generate_idle_file graph id count slices fails above labels ≡ ok file)
      (disk : Disk) (holds : Holds disk count file) where
    generated-IsStored :
        IsStored graph id count disk file.roots slices (λ i. get_or file.layers i [])
    generated-IsStored =
        let (number, all, roots) =
          returned (generate_idle_file graph id count slices fails above labels)
            (λ made.
              (length made.layers ≡ graph.k + 1)
              × AllLabelled graph id count 0 above made.layers
              × (made.roots
                  ≡ roots_of slices 0 made.layers
                    ++ hash_sum hash_size (concat (roots_of slices 0 made.layers)) ∷ []))
            file
            (generate_idle_file-AllLabelled graph pos less even id count slices fails saved above
              labels a l)
            generated in
        record {
          size = λ i h. layer_size graph id count 0 above file.layers i all (omega arith);
          there = λ i h. holds i ∙ get_or-some file.layers i (omega arith);
          built = λ i h.
              fit i ∙ sym (layer_size graph id count 0 above file.layers i all (omega arith));
          rooted = λ i h. rw roots (
              root_at slices 0 file.layers _ i (omega arith)
              ∙ let first : 0 + i ≡ i = omega arith in
                ap (λ t. some (layer_root_of slices t (get_or file.layers i []))) first);
          labelled = λ i j deep h inside.
              let first : 0 + i ≡ i = omega arith in
              rw (sym (before above file.layers i deep)) (
                rw first at (
                  layer_labels graph id count 0 above file.layers i j all (omega arith)
                    (omega arith) inside));
        }

    -- The whole way of a commit: for an idle file that `GenerateIdleFile` made and that is on the disk,
    -- and a challenge of a node of the last layer and `K` numbers of parents up to `D`, `proveCommit`
    -- ends without an error, and its proofs pass the tests of `VerifyCommitProofs` against the roots
    -- of the file, whatever the verifier's buffer held before.
    pub prove_one-generated :
        (e : ℕ)
        → graph.n ≡ 2 ^ e
        → 0 < e
        → (slice above_slice : Bytes) → length slice ≡ graph.n * hash_size
        → length above_slice ≡ graph.n * hash_size
        → (first : ℕ) (chal : List ℕ) → first / graph.n ≡ graph.k
        → length chal ≡ graph.k
        → All (λ w. w ≤ graph.d) chal
        → (label : Bytes) → length label ≡ front_size id + (graph.d + 1) * hash_size
        → Returns (prove_one graph id disk slice above_slice (count ∷ first ∷ chal)) (λ proofs.
          Returns
            (check_commit graph.n id
              (some (record { file_index = count; roots = file.roots }))
              (count ∷ first ∷ chal)
              proofs
              label)
            (λ label'. length label' ≡ length label))
    prove_one-generated e power some_levels slice above_slice s1 s2 first chal last number ws label
          size =
        let (proofs, made, good) =
          prove_one-accepted graph e power some_levels pos id
            (record { file_index = count; roots = file.roots }) disk slices
            (λ i. get_or file.layers i []) generated-IsStored slice above_slice s1 s2 first chal
            last number ws in
        let (label', checked, kept) = good label size in
        (proofs, made, (label', checked, kept ∙ sym size))
