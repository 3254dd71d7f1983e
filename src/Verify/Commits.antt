-- ===== src/Verify/Commits.antt =====
-- `VerifyCommitProofs` and `VerifyNodeDependencies` of pois/verify.go, which change nothing.
use cess_pos_demo.Common.{
  ℕ, zero, suc, ◌+◌, ◌-◌, ◌*◌, ◌/◌, Bool, true, false, not, ◌||◌, List, [], ◌∷◌, length, take, drop,
  replicate, get_elem?, Option, none, some, ltb, leb, ◌==◌, if◌then◌else◌, Run, ok, err, panic,
  index_out_of_range, divide_by_zero, ◌>>=◌, ◌>>◌, or_panic, fail_if, widen,
}
use cess_pos_demo.BigInt.{Bytes, equal}
use cess_pos_demo.Crypto.{Crypto}
use cess_pos_demo.Encoding.{hash_size, get_bytes, get_hash, write_at, copy_data}
use cess_pos_demo.Expander.{Expanders}
use cess_pos_demo.Expander.Draw.{calc_parents}
use cess_pos_demo.Expander.Idle.{node_type_size, new_node}
use cess_pos_demo.Mht.{verify_path_proof}
use cess_pos_demo.Verify.{
  Commit, ProverNode, Verifier, PoisError, node_not_found, bad_proof_data, bad_node_index,
  label_mismatch, path_mismatch, dependency_mismatch, find_node, commit_index,
}
use cess_pos_demo.Verify.Checks.{MhtProof}
use cess_pos_demo.Verify.Challenges.{rand_int}

pub record CommitProof : Type 0 where
  pub node : MhtProof
  pub parents : List MhtProof

-- `Pick`
abbrev pub pick_default : ℕ
pick_default = 1

-- `frontSize`
abbrev pub front_size : Bytes → ℕ
front_size id = node_type_size + length id + 8

module _ ⦃c : Crypto⦄ where
  unfoldable pub shows : Bytes → MhtProof → Bool
  shows root mht = verify_path_proof root mht.label (record { locs = mht.locs; path = mht.paths })

  -- The loop over the parents: each is shown below the root of its layer, and its label goes into the
  -- buffer at `size`.
  unfoldable pub check_parents :
      ℕ → List Bytes → ℕ → Bytes → ℕ → List MhtProof → Run PoisError Bytes
  unfolding shows
  check_parents n roots layer label size [] = ok label
  check_parents n roots layer label size (p ∷ parents) = do
    root ←
        or_panic (get_elem? roots (if leb (layer * n) p.index then layer else layer - 1))
          index_out_of_range
    fail_if (not (shows root p)) path_mismatch
    if ltb (length label) (size + hash_size)
        then panic index_out_of_range
        else check_parents n roots layer (write_at size (take hash_size p.label) label)
            (size + hash_size) parents

  -- The label of a node with parents is made of those of its parents.
  unfoldable pub check_label :
      ℕ → Bytes → ℕ → List Bytes → ℕ → ℕ → CommitProof → Bytes → Run PoisError Bytes
  unfolding check_parents
  check_label n id file roots layer idx proof label =
      if leb (length proof.parents) 0 then ok label else do
        filled ←
            check_parents n roots layer
              (copy_data label (id ∷ get_bytes 8 file ∷ get_bytes node_type_size idx ∷ []))
              (front_size id) proof.parents
        fail_if (not (equal (get_hash filled) proof.node.label)) label_mismatch
        ok filled

  -- The roots of the commit and the root of the layer of the node `idx`.
  unfoldable pub layer_root : ℕ → Option Commit → ℕ → Run PoisError (List Bytes × Bytes)
  layer_root n commit idx = if n == 0 then panic divide_by_zero else do
    found ← or_panic commit index_out_of_range
    root ← or_panic (get_elem? found.roots (idx / n)) index_out_of_range
    ok (found.roots, root)

  -- One round of the loop over `j`, for the node `idx` that the challenge asks for.
  unfoldable pub check_node :
      ℕ → Bytes → ℕ → List Bytes × Bytes → ℕ → CommitProof → Bytes → Run PoisError Bytes
  unfolding check_label
  check_node n id file (roots, root) idx proof label = do
    fail_if (not (shows root proof.node)) path_mismatch
    check_label n id file roots (idx / n) idx proof label

  -- The rounds behind the first: each challenges a parent of the node before, whose proof is `proof`.
  unfoldable pub check_chain :
      ℕ
      → Bytes
      → ℕ
      → Option Commit
      → List ℕ
      → CommitProof
      → List CommitProof
      → Bytes
      → Run PoisError Bytes
  unfolding layer_root check_node
  check_chain n id file commit [] proof proofs label = ok label
  check_chain n id file commit (which ∷ chal) proof proofs label = do
    parent ← or_panic (get_elem? proof.parents which) index_out_of_range
    root ← layer_root n commit parent.index
    next ← or_panic (get_elem? proofs 0) index_out_of_range
    label' ← check_node n id file root parent.index next label
    check_chain n id file commit chal next (drop 1 proofs) label'

  -- The proofs of one commit.
  unfoldable pub check_commit :
      ℕ → Bytes → Option Commit → List ℕ → List CommitProof → Bytes → Run PoisError Bytes
  unfolding check_chain
  check_commit n id commit chal proofs label = do
    first ← or_panic (get_elem? chal 1) index_out_of_range
    proof ← or_panic (get_elem? proofs 0) index_out_of_range
    fail_if (not (first == proof.node.index)) bad_node_index
    file ← or_panic (get_elem? chal 0) index_out_of_range
    root ← layer_root n commit first
    label' ← check_node n id file root first proof label
    check_chain n id file commit (drop 2 chal) proof (drop 1 proofs) label'

  -- The loop of `VerifyCommitProofs` over `i`, from commit `at` on. One buffer serves for all labels.
  unfoldable pub check_commits :
      ℕ
      → Bytes
      → List Commit
      → ℕ
      → List (List ℕ)
      → List (List CommitProof)
      → Bytes
      → Run PoisError (Unit {0})
  unfolding check_commit
  check_commits n id commits at chals [] label = ok tt
  check_commits n id commits at [] (proofs ∷ more) label = panic index_out_of_range
  check_commits n id commits at (chal ∷ chals) (proofs ∷ more) label = do
    label' ← check_commit n id (get_elem? commits at) chal proofs label
    check_commits n id commits (at + 1) chals more label'

  -- The comparison of the parents that `CalcParents` draws with those of the proof.
  unfoldable pub same_parents : List ℕ → List MhtProof → Run PoisError (Unit {0})
  same_parents [] proofs = ok tt
  same_parents (q ∷ drawn) [] = panic index_out_of_range
  same_parents (q ∷ drawn) (p ∷ proofs) = do
    fail_if (not (q == p.index)) dependency_mismatch
    same_parents drawn proofs

  -- A round of `VerifyNodeDependencies`; the Boolean is false when `CalcParents` does not end.
  unfoldable pub check_dependency :
      Expanders
      → Bytes
      → List (List ℕ)
      → List (List CommitProof)
      → List ℕ
      → Run PoisError (List ℕ × Bool)
  unfolding same_parents rand_int
  check_dependency graph id chals proofs draws = do
    (r1, draws') ← rand_int (length proofs) draws
    row ← or_panic (get_elem? proofs r1) index_out_of_range
    (r2, draws'') ← rand_int (length row - 1) draws'
    proof ← or_panic (get_elem? row r2) index_out_of_range
    chal ← or_panic (get_elem? chals r1) index_out_of_range
    file ← or_panic (get_elem? chal 0) index_out_of_range
    (drawn, ended) ← widen (calc_parents graph (new_node graph proof.node.index) id file)
    same ← (if ended then same_parents drawn.parents proof.parents else ok tt)
    ok (draws'', ended)

  unfoldable pub check_dependencies :
      ℕ → Expanders → Bytes → List (List ℕ) → List (List CommitProof) → List ℕ → Run PoisError Bool
  unfolding check_dependency
  check_dependencies zero graph id chals proofs draws = ok true
  check_dependencies (suc rounds) graph id chals proofs draws = do
    (draws', ended) ← check_dependency graph id chals proofs draws
    if ended then check_dependencies rounds graph id chals proofs draws' else ok false

  -- `VerifyNodeDependencies`. The Boolean is false for a call that does not end.
  unfoldable pub verify_node_dependencies :
      Verifier → Bytes → List (List ℕ) → List (List CommitProof) → ℕ → List ℕ → Run PoisError Bool
  unfolding check_dependencies
  verify_node_dependencies v id chals proofs pick draws =
      check_dependencies (if ltb (length proofs) pick then length proofs else pick) v.expanders id
        chals proofs draws

  unfoldable pub found_commit_proofs :
      Verifier
      → Bytes
      → List (List ℕ)
      → List (List CommitProof)
      → List ℕ
      → Option ProverNode
      → Run PoisError Bool
  unfolding verify_node_dependencies check_commits
  found_commit_proofs v id chals proofs draws none = err node_not_found
  found_commit_proofs v id chals proofs draws (some prover) = do
    fail_if (not (length chals == length proofs) || ltb prover.buf_size (length chals))
        bad_proof_data
    ended ← verify_node_dependencies v id chals proofs pick_default draws
    if not ended then ok false else (do
      index ← commit_index prover chals
      checked ←
          check_commits v.expanders.n id prover.commits_buf index chals proofs
            (replicate (front_size id + (v.expanders.d + 1) * hash_size) 0)
      ok true)

  -- `VerifyCommitProofs`. The Boolean is false for a call that does not end.
  unfoldable pub verify_commit_proofs :
      Verifier → Bytes → List (List ℕ) → List (List CommitProof) → List ℕ → Run PoisError Bool
  unfolding found_commit_proofs
  verify_commit_proofs v id chals proofs draws =
      found_commit_proofs v id chals proofs draws (find_node id v.nodes)
