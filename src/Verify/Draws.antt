-- ===== src/Verify/Draws.antt =====
-- The bounds of the challenges that `CommitChallenges` and `SpaceChallenges` of pois/verify.go draw.
use native.Mathlib.Nat.{add-mul-div_left, div-eq_of_lt}
use cess_pos_demo.Common.{
  ℕ, zero, suc, ◌+◌, ◌-◌, ◌*◌, ◌/◌, ◌≤◌, ◌<◌, ◌||◌, List, [], ◌∷◌, length, All, get_elem?, some,
  ltb, leb, ◌==◌, if◌then◌else◌, ◌≡◌, refl, ap, ◌∙◌, arith, inl, inr, Bool-cases, ok,
  index_out_of_range, or_panic, fail_if, Whenever, Whenever-bind, Whenever-then, or_panic-some,
}
use cess_pos_demo.BigInt.{Bytes}
use cess_pos_demo.Expander.{Expanders}
use cess_pos_demo.Verify.{Commit, ProverNode, Verifier, PoisError, bad_file_number, find_node}
use cess_pos_demo.Verify.Challenges.{
  rand_int, parent_draws, commit_challenge, commit_draws, found_commit_challenges,
  commit_challenges, space_draws, found_space_challenges, space_challenges,
}

-- A challenge of a commit: its file, a node of the last layer, and `K` numbers of parents up to `D`.
pub record IsChallenge (graph : Expanders) (commit : Commit) (chal : List ℕ) : Type 0 where
  pub first : ℕ
  pub which : List ℕ
  pub made : chal ≡ commit.file_index ∷ first ∷ which
  pub last_layer : first / graph.n ≡ graph.k
  pub number : length which ≡ graph.k
  pub parents : All (λ w. w ≤ graph.d) which

-- Challenges of the commits from `i` on.
abbrev pub AreChallenges : Expanders → List Commit → ℕ → List (List ℕ) → Type 0
AreChallenges graph commits i [] = Unit {0}
AreChallenges graph commits i (chal ∷ chals) =
    ((commit : Commit) × (get_elem? commits i ≡ some commit) × IsChallenge graph commit chal)
    × AreChallenges graph commits (i + 1) chals

rand_int-lt : (max : ℕ) (draws : List ℕ) → Whenever (rand_int max draws) (λ (r, rest). r < max)
unfolding rand_int
rand_int-lt max [] = elim (Bool-cases (max == 0)) [ inl q ↦ rw q tt | inr q ↦ rw q tt ]
rand_int-lt max (r ∷ rest) = elim (Bool-cases (max == 0)) [
  | inl q ↦ rw q tt
  | inr q ↦ let pos : 0 < max = ground arith in rw q (omega arith)
]

parent_draws-bounds :
    (rounds d : ℕ) (draws : List ℕ)
    → Whenever
        (parent_draws rounds d draws)
        (λ (rs, rest). (length rs ≡ rounds) × All (λ w. w ≤ d) rs)
unfolding parent_draws
parent_draws-bounds zero d draws = (refl, tt)
parent_draws-bounds (suc rounds) d draws =
    let Q : List ℕ × List ℕ → Type 0 =
      λ (rs, rest). (length rs ≡ suc rounds) × All (λ w. w ≤ d) rs in
    Whenever-bind (rand_int (d + 1) draws) _ (λ (r, rest). r < d + 1) Q (rand_int-lt (d + 1) draws)
      (λ (r, draws') low.
        Whenever-bind (parent_draws rounds d draws') _
          (λ (rs, rest). (length rs ≡ rounds) × All (λ w. w ≤ d) rs) Q
          (parent_draws-bounds rounds d draws')
          (λ (rs, rest) (number, all). (ap suc number, (omega arith, all))))

-- A node of the last layer.
last_layer_lem : (n k r : ℕ) → r < n → (r + n * k) / n ≡ k
last_layer_lem n k r h =
    add-mul-div_left r k (omega arith) ∙ ap (λ t. t + k) (div-eq_of_lt h) ∙ omega arith

commit_challenge-IsChallenge :
    (graph : Expanders) (commit : Commit) (draws : List ℕ)
    → Whenever (commit_challenge graph commit draws) (λ (chal, rest). IsChallenge graph commit chal)
unfolding commit_challenge
commit_challenge-IsChallenge graph commit draws =
    let Q : List ℕ × List ℕ → Type 0 = λ (chal, rest). IsChallenge graph commit chal in
    Whenever-bind (rand_int graph.n draws) _ (λ (r, rest). r < graph.n) Q
      (rand_int-lt graph.n draws)
      (λ (r, draws') low.
        Whenever-bind (parent_draws graph.k graph.d draws') _
          (λ (rs, rest). (length rs ≡ graph.k) × All (λ w. w ≤ graph.d) rs) Q
          (parent_draws-bounds graph.k graph.d draws')
          (λ (rs, rest) (number, all). record {
            first = r + graph.n * graph.k;
            which = rs;
            made = refl;
            last_layer = last_layer_lem graph.n graph.k r low;
            number = number;
            parents = all;
          }))

-- What holds of the challenges from commit `i` on.
abbrev Drawn : Expanders → List Commit → ℕ → ℕ → List (List ℕ) × List ℕ → Type 0
Drawn graph commits i rounds (chals, rest) =
    (length chals ≡ rounds) × AreChallenges graph commits i chals

commit_draws-Drawn :
    (rounds : ℕ) (graph : Expanders) (commits : List Commit) (i : ℕ) (draws : List ℕ)
    → Whenever (commit_draws rounds graph commits i draws) (Drawn graph commits i rounds)
unfolding commit_draws
commit_draws-Drawn zero graph commits i draws = (refl, tt)
commit_draws-Drawn (suc rounds) graph commits i draws =
    let Q = Drawn graph commits i (suc rounds) in
    Whenever-bind (or_panic (get_elem? commits i) index_out_of_range) _
      (λ commit. get_elem? commits i ≡ some commit) Q
      (or_panic-some PoisError (get_elem? commits i) index_out_of_range)
      (λ commit there.
        Whenever-bind (commit_challenge graph commit draws) _
          (λ (chal, rest). IsChallenge graph commit chal) Q
          (commit_challenge-IsChallenge graph commit draws)
          (λ (chal, draws') own.
            Whenever-bind (commit_draws rounds graph commits (i + 1) draws') _
              (Drawn graph commits (i + 1) rounds) Q
              (commit_draws-Drawn rounds graph commits (i + 1) draws')
              (λ (chals, rest) (number, all). (ap suc number, ((commit, there, own), all)))))

found_commit_challenges-Drawn :
    (v : Verifier) (left right : ℕ) (draws : List ℕ) (prover : ProverNode)
    → Whenever
        (found_commit_challenges v left right draws (some prover))
        (Drawn v.expanders prover.commits_buf left (right - left))
unfolding found_commit_challenges
found_commit_challenges-Drawn v left right draws prover =
    Whenever-then (fail_if (leb right left || ltb prover.buf_size right) bad_file_number) _
      (Drawn v.expanders prover.commits_buf left (right - left))
      (λ u. commit_draws-Drawn (right - left) v.expanders prover.commits_buf left draws)

-- The challenges of `CommitChallenges` for the commits from `left` to `right` of a registered prover:
-- one for each, in order, which names the commit's file, a node of the last layer, and `K` numbers of
-- parents from 0 to `D`, whatever numbers the source of randomness gives.
pub commit_challenges-bounds :
    (v : Verifier) (id : Bytes) (left right : ℕ) (draws : List ℕ) (prover : ProverNode)
    (chals : List (List ℕ)) (rest : List ℕ)
    → find_node id v.nodes ≡ some prover
    → commit_challenges v id left right draws ≡ ok (chals, rest)
    → (length chals ≡ right - left) × AreChallenges v.expanders prover.commits_buf left chals
unfolding commit_challenges
commit_challenges-bounds v id left right draws prover chals rest h made =
    let e : found_commit_challenges v left right draws (some prover) ≡ ok (chals, rest) =
      rw h at made in
    rw e at (found_commit_challenges-Drawn v left right draws prover)

-- A challenge of the space: a file from 1 to the count, and a node of the last layer.
abbrev pub IsSpaceChallenge : Expanders → ℕ → List ℕ → Type 0
IsSpaceChallenge graph count chal =
    (file : ℕ) × (leaf : ℕ) × (chal ≡ file ∷ leaf ∷ [])
    × (0 < file)
    × (file ≤ count)
    × (leaf / graph.n ≡ graph.k)

abbrev SpaceDrawn : Expanders → ℕ → ℕ → List (List ℕ) × List ℕ → Type 0
SpaceDrawn graph count rounds (chals, rest) =
    (length chals ≡ rounds) × All (IsSpaceChallenge graph count) chals

space_draws-SpaceDrawn :
    (rounds : ℕ) (graph : Expanders) (count : ℕ) (draws : List ℕ)
    → Whenever (space_draws rounds graph count draws) (SpaceDrawn graph count rounds)
unfolding space_draws
space_draws-SpaceDrawn zero graph count draws = (refl, tt)
space_draws-SpaceDrawn (suc rounds) graph count draws =
    let Q = SpaceDrawn graph count (suc rounds) in
    Whenever-bind (rand_int count draws) _ (λ (r, rest). r < count) Q (rand_int-lt count draws)
      (λ (r1, draws') low.
        Whenever-bind (rand_int graph.n draws') _ (λ (r, rest). r < graph.n) Q
          (rand_int-lt graph.n draws')
          (λ (r2, draws'') low'.
            Whenever-bind (space_draws rounds graph count draws'') _ (SpaceDrawn graph count rounds)
              Q (space_draws-SpaceDrawn rounds graph count draws'')
              (λ (chals, rest) (number, all). (
                ap suc number,
                (
                  (
                    r1 + 1,
                    r2 + graph.n * graph.k,
                    refl,
                    omega arith,
                    omega arith,
                    last_layer_lem graph.n graph.k r2 low',
                  ),
                  all,
                ),
              ))))

-- The challenges of `SpaceChallenges` for a registered prover: as many as asked for, at most its
-- count, each for a file from 1 to the count and a node of the last layer.
pub space_challenges-bounds :
    (v : Verifier) (id : Bytes) (param : ℕ) (draws : List ℕ) (prover : ProverNode)
    (chals : List (List ℕ)) (rest : List ℕ)
    → find_node id v.nodes ≡ some prover
    → space_challenges v id param draws ≡ ok (chals, rest)
    → (length chals ≡ (if ltb prover.count param then prover.count else param))
      × All (IsSpaceChallenge v.expanders prover.count) chals
unfolding space_challenges found_space_challenges
space_challenges-bounds v id param draws prover chals rest h made =
    let num = if ltb prover.count param then prover.count else param in
    let e : space_draws num v.expanders prover.count draws ≡ ok (chals, rest) = rw h at made in
    rw e at (space_draws-SpaceDrawn num v.expanders prover.count draws)
