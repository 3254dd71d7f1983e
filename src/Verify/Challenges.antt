-- ===== src/Verify/Challenges.antt =====
-- `CommitChallenges` and `SpaceChallenges` of pois/verify.go. The numbers from the system's source of
-- randomness are an argument.
use cess_pos_demo.Common.{
  ℕ, zero, suc, ◌+◌, ◌-◌, ◌*◌, ◌%◌, ◌||◌, List, [], ◌∷◌, get_elem?, replicate, Option, none, some,
  ltb, leb, ◌==◌, if◌then◌else◌, Run, ok, err, panic, index_out_of_range, divide_by_zero, ◌>>=◌,
  ◌>>◌, or_panic, fail_if,
}
use cess_pos_demo.BigInt.{Bytes}
use cess_pos_demo.Expander.{Expanders}
use cess_pos_demo.Verify.{
  Commit, ProverNode, Verifier, PoisError, node_not_found, bad_file_number, no_randomness,
  find_node,
}

-- `rand.Int(rand.Reader, max)`, which panics unless `max` is positive: the next number, brought into
-- the range, and those behind it. With no number left the source fails.
unfoldable pub rand_int : ℕ → List ℕ → Run PoisError (ℕ × List ℕ)
rand_int max draws =
    if max == 0
    then panic divide_by_zero
    else (elim draws [ [] ↦ err no_randomness | r ∷ rest ↦ ok (r % max, rest) ])

-- The loop of `CommitChallenges` over `j`: numbers of parents.
unfoldable pub parent_draws : ℕ → ℕ → List ℕ → Run PoisError (List ℕ × List ℕ)
unfolding rand_int
parent_draws zero d draws = ok ([], draws)
parent_draws (suc rounds) d draws = do
  (r, draws') ← rand_int (d + 1) draws
  (rs, draws'') ← parent_draws rounds d draws'
  ok (r ∷ rs, draws'')

-- One challenge: the file, a node of the last layer, and `K` numbers of parents.
unfoldable pub commit_challenge : Expanders → Commit → List ℕ → Run PoisError (List ℕ × List ℕ)
unfolding parent_draws
commit_challenge graph commit draws = do
  (r, draws') ← rand_int graph.n draws
  (rs, draws'') ← parent_draws graph.k graph.d draws'
  ok (commit.file_index ∷ (r + graph.n * graph.k) ∷ rs, draws'')

-- The loop of `CommitChallenges` over `i`.
unfoldable pub commit_draws :
    ℕ → Expanders → List Commit → ℕ → List ℕ → Run PoisError (List (List ℕ) × List ℕ)
unfolding commit_challenge
commit_draws zero graph commits i draws = ok ([], draws)
commit_draws (suc rounds) graph commits i draws = do
  commit ← or_panic (get_elem? commits i) index_out_of_range
  (chal, draws') ← commit_challenge graph commit draws
  (chals, draws'') ← commit_draws rounds graph commits (i + 1) draws'
  ok (chal ∷ chals, draws'')

unfoldable pub found_commit_challenges :
    Verifier → ℕ → ℕ → List ℕ → Option ProverNode → Run PoisError (List (List ℕ) × List ℕ)
unfolding commit_draws
found_commit_challenges v left right draws none = err node_not_found
found_commit_challenges v left right draws (some prover) = do
  fail_if (leb right left || ltb prover.buf_size right) bad_file_number
  commit_draws (right - left) v.expanders prover.commits_buf left draws

-- `CommitChallenges`, for `left` not below 0.
unfoldable pub commit_challenges :
    Verifier → Bytes → ℕ → ℕ → List ℕ → Run PoisError (List (List ℕ) × List ℕ)
unfolding found_commit_challenges
commit_challenges v id left right draws =
    found_commit_challenges v left right draws (find_node id v.nodes)

-- `SpaceChals`
abbrev pub space_chals : ℕ
space_chals = 1

-- The loop of `SpaceChallenges`. The code never writes to its map of the files that were drawn, so
-- the test on it never repeats a draw.
unfoldable pub space_draws : ℕ → Expanders → ℕ → List ℕ → Run PoisError (List (List ℕ) × List ℕ)
unfolding rand_int
space_draws zero graph count draws = ok ([], draws)
space_draws (suc rounds) graph count draws = do
  (r1, draws') ← rand_int count draws
  (r2, draws'') ← rand_int graph.n draws'
  (chals, rest) ← space_draws rounds graph count draws''
  ok (((r1 + 1) ∷ (r2 + graph.n * graph.k) ∷ replicate (space_chals - 1) 0) ∷ chals, rest)

unfoldable pub found_space_challenges :
    Verifier → ℕ → List ℕ → Option ProverNode → Run PoisError (List (List ℕ) × List ℕ)
unfolding space_draws
found_space_challenges v param draws none = err node_not_found
found_space_challenges v param draws (some prover) =
    space_draws (if ltb prover.count param then prover.count else param) v.expanders prover.count
      draws

-- `SpaceChallenges`, for `param` not below 0.
unfoldable pub space_challenges :
    Verifier → Bytes → ℕ → List ℕ → Run PoisError (List (List ℕ) × List ℕ)
unfolding found_space_challenges
space_challenges v id param draws = found_space_challenges v param draws (find_node id v.nodes)
