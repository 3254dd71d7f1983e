-- ===== src/Verify/Beginning.antt =====
-- Where `VerifyAcc` and `VerifyCommitProofs` of pois/verify.go begin in the buffer of commits.
use cess_pos_demo.Common.{
  ℕ, zero, suc, ◌+◌, ◌<◌, List, [], ◌∷◌, get_elem?, some, ◌==◌, ==_iff, ◌≡◌, ◌≢◌, refl, arith, ◌⊎◌,
  inl, inr, Whenever, Whenever-map, Whenever-if,
}
use mathlib.Core.Path.{subst}
use cess_pos_demo.Crypto.{Crypto}
use cess_pos_demo.Verify.{Commit, ProverNode, position, commit_index}
use cess_pos_demo.Verify.Guards.{at_index}

-- None of the first `n` commits is for the wanted file.
abbrev pub NoneIn : ℕ → ℕ → List Commit → Type 0
NoneIn wanted n commits =
    (j : ℕ) (commit : Commit)
    → j < n
    → get_elem? commits j ≡ some commit
    → wanted ≢ commit.file_index

-- The commit at `j` is the first for the wanted file.
abbrev pub FirstAt : ℕ → List Commit → ℕ → Type 0
FirstAt wanted commits j =
    ((commit : Commit) × (get_elem? commits j ≡ some commit) × (wanted ≡ commit.file_index))
    × NoneIn wanted j commits

-- At the first of the used commits that is for the file of the first challenge, and at 0 when there is
-- none.
abbrev pub BeginsAt : ProverNode → List (List ℕ) → ℕ → Type 0
BeginsAt prover chals index =
    ((prover.buf_size ≡ 0) × (index ≡ 0))
    ⊎ ((chal : List ℕ) × (wanted : ℕ) × (get_elem? chals 0 ≡ some chal)
        × (get_elem? chal 0 ≡ some wanted)
        × (((index < prover.buf_size) × FirstAt wanted prover.commits_buf index)
            ⊎ ((index ≡ 0) × NoneIn wanted prover.buf_size prover.commits_buf)))

NoneIn-cons :
    (wanted n : ℕ) (commit : Commit) (commits : List Commit)
    → wanted ≢ commit.file_index
    → NoneIn wanted n commits
    → NoneIn wanted (suc n) (commit ∷ commits)
NoneIn-cons wanted n commit commits other none zero c' h e =
    let same : commit ≡ c' = cc in subst (λ t. wanted ≢ t.file_index) same other
NoneIn-cons wanted n commit commits other none (suc j) c' h e = none j c' (omega arith) e

-- What the search from `i` on finds.
abbrev Found : ℕ → ℕ → ℕ → List Commit → ℕ → Type 0
Found wanted i n commits index =
    ((j : ℕ) × (index ≡ i + j) × (j < n) × FirstAt wanted commits j)
    ⊎ ((index ≡ 0) × NoneIn wanted n commits)

Found-cons :
    (wanted i n : ℕ) (commit : Commit) (commits : List Commit) (index : ℕ)
    → wanted ≢ commit.file_index
    → Found wanted (suc i) n commits index
    → Found wanted i (suc n) (commit ∷ commits) index
Found-cons wanted i n commit commits index other (inl (j, at, inside, (here, before))) =
    inl (suc j, omega arith, omega arith, (here, NoneIn-cons wanted j commit commits other before))
Found-cons wanted i n commit commits index other (inr (at, none)) =
    inr (at, NoneIn-cons wanted n commit commits other none)

Found-BeginsAt :
    (prover : ProverNode) (chals : List (List ℕ)) (chal : List ℕ) (wanted index : ℕ)
    → get_elem? chals 0 ≡ some chal
    → get_elem? chal 0 ≡ some wanted
    → Found wanted 0 prover.buf_size prover.commits_buf index
    → BeginsAt prover chals index
Found-BeginsAt prover chals chal wanted index a b (inl (j, at, inside, first)) =
    let same : j ≡ index = omega arith in
    inr (
      chal,
      wanted,
      a,
      b,
      inl (omega arith, subst (λ t. FirstAt wanted prover.commits_buf t) same first),
    )
Found-BeginsAt prover chals chal wanted index a b (inr none) = inr (chal, wanted, a, b, inr none)

module _ ⦃c : Crypto⦄ where
  position-Found :
      (wanted i n : ℕ) (commits : List Commit)
      → Whenever (position wanted i n commits) (Found wanted i n commits)
  unfolding position
  position-Found wanted i zero commits = inr (refl, λ j commit h e. absurd (omega arith))
  position-Found wanted i (suc n) [] = tt
  position-Found wanted i (suc n) (commit ∷ commits) =
      Whenever-if (wanted == commit.file_index) _ _ (Found wanted i (suc n) (commit ∷ commits))
        (λ q. inl (
          0,
          omega arith,
          omega arith,
          ((commit, refl, (==_iff wanted commit.file_index).0 q), λ j c' h e. absurd (omega arith)),
        ))
        (λ q.
          Whenever-map (position wanted (suc i) n commits) (Found wanted (suc i) n commits) _
            (position-Found wanted (suc i) n commits)
            (λ index. Found-cons wanted i n commit commits index (λ same. absurd (ground arith))))

  pub commit_index-BeginsAt :
      (prover : ProverNode) (chals : List (List ℕ))
      → Whenever (commit_index prover chals) (BeginsAt prover chals)
  unfolding commit_index
  commit_index-BeginsAt prover chals =
      Whenever-if (prover.buf_size == 0) _ _ (BeginsAt prover chals)
        (λ q. inl ((==_iff prover.buf_size 0).0 q, refl))
        (λ q. at_index (get_elem? chals 0) _ (BeginsAt prover chals) (λ chal chal_at.
          at_index (get_elem? chal 0) _ (BeginsAt prover chals) (λ wanted wanted_at.
            Whenever-map (position wanted 0 prover.buf_size prover.commits_buf) _
              (BeginsAt prover chals) (position-Found wanted 0 prover.buf_size prover.commits_buf)
              (λ index. Found-BeginsAt prover chals chal wanted index chal_at wanted_at))))
