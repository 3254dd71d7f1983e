-- ===== src/Prover.antt =====
-- The prover of pois/prove.go: the proofs of the commits of idle files, from the files on its disk.
pub mod Commits
pub mod Nodes
pub mod Chains
pub mod Files
pub mod Counters
pub mod Insertion
use cess_pos_demo.Common.{
  ℕ, zero, suc, ◌+◌, ◌-◌, ◌*◌, ◌/◌, ◌%◌, Bool, true, false, not, ◌||◌, List, [], ◌∷◌, ◌++◌, length,
  take, drop, replicate, get_elem?, Option, none, some, ltb, leb, ◌==◌, if◌then◌else◌, Run, ok, err,
  panic, index_out_of_range, divide_by_zero, ◌>>=◌, ◌>>◌, or_panic, fail_if, widen,
}
use cess_pos_demo.BigInt.{Bytes}
use cess_pos_demo.Crypto.{Crypto}
use cess_pos_demo.Encoding.{hash_size, get_bytes, get_hash}
use cess_pos_demo.Expander.{Expanders}
use cess_pos_demo.Expander.Parents.{Node}
use cess_pos_demo.Expander.Idle.{new_node}
use cess_pos_demo.Expander.Draw.{calc_parents}
use cess_pos_demo.Mht.{PathProof}
use cess_pos_demo.Mht.Light.{TreeError, calc_light_mht_with_bytes, get_path_proof}
use cess_pos_demo.Mht.Slots.{slot}
use cess_pos_demo.Verify.Checks.{MhtProof}
use cess_pos_demo.Verify.Commits.{CommitProof}

-- The files below `FilePath`: of each idle file its layers and its roots, when they are there.
pub record Disk : Type 0 where
  pub layer : ℕ → ℕ → Option Bytes
  pub roots : ℕ → Option Bytes

-- `endless` stands for a call that does not end.
pub data ProveError : Type 0 where
  bad_index read_failed tree_failed endless : ProveError

-- `ReadFileToBuf` of util/utils.go into a buffer of `size` bytes.
unfoldable pub read_file_to_buf : Option Bytes → ℕ → Run ProveError Bytes
read_file_to_buf file size = if size == 0 then ok [] else (elim file [
  | none ↦ err read_failed
  | some content ↦ if ltb (length content) size then err read_failed else ok (take size content)
])

-- An error of the tree is passed on.
abbrev pub tree_result : {A : Type 0} → Run TreeError A → Run ProveError A
tree_result (ok a) = ok a
tree_result (err e) = err tree_failed
tree_result (panic p) = panic p

module _ ⦃c : Crypto⦄ where
  -- The proof for one node of a layer with the labels `labels`, over a tree built in `slice`.
  unfoldable pub node_proof : Bytes → Bytes → ℕ → ℕ → Run ProveError MhtProof
  node_proof slice labels index place = do
    proof ←
        tree_result
          (get_path_proof (calc_light_mht_with_bytes labels hash_size slice) labels place hash_size)
    ok (record {
      index = index;
      label = slot hash_size labels place;
      paths = proof.path;
      locs = proof.locs;
    })

  -- The proofs of the parents, each from its own layer.
  unfoldable pub parent_proofs :
      ℕ → ℕ → Bytes → Bytes → Bytes → Bytes → List ℕ → Run ProveError (List MhtProof)
  unfolding node_proof
  parent_proofs n layer slice above_slice labels above [] = ok []
  parent_proofs n layer slice above_slice labels above (p ∷ parents) = do
    proof ←
        (if leb (layer * n) p
          then node_proof slice labels p (p % n)
          else node_proof above_slice above p (p % n))
    rest ← parent_proofs n layer slice above_slice labels above parents
    ok (proof ∷ rest)

  -- Behind the first layer the proof has the node's parents.
  unfoldable pub with_parents :
      Expanders
      → Bytes
      → Disk
      → ℕ
      → ℕ
      → Bytes
      → Bytes
      → Bytes
      → MhtProof
      → Run ProveError CommitProof
  unfolding parent_proofs read_file_to_buf
  with_parents graph id disk count index slice above_slice labels proof = do
    (node, ended) ← widen (calc_parents graph (new_node graph index) id count)
    drawn ← fail_if (not ended) endless
    above ← read_file_to_buf (disk.layer count (index / graph.n - 1)) (graph.n * hash_size)
    parents ← parent_proofs graph.n (index / graph.n) slice above_slice labels above node.parents
    ok (record { node = proof; parents = parents })

  -- `generateCommitProof`. `slice` and `above_slice` are the slices that the two trees are built in.
  -- The proof of the node alone, in front of the test of its layer, is without parents.
  unfoldable pub generate_commit_proof :
      Expanders → Bytes → Disk → Bytes → Bytes → ℕ → ℕ → Run ProveError CommitProof
  unfolding with_parents
  generate_commit_proof graph id disk slice above_slice count index =
      if graph.n == 0
      then panic divide_by_zero
      else if ltb graph.k (index / graph.n)
      then err bad_index
      else (do
        labels ← read_file_to_buf (disk.layer count (index / graph.n)) (graph.n * hash_size)
        proof ← node_proof slice labels index (index % graph.n)
        if index / graph.n == 0
            then ok (record { node = proof; parents = [] })
            else with_parents graph id disk count index slice above_slice labels proof)

  -- The loop of `proveCommit` over the challenged parents.
  unfoldable pub prove_chain :
      Expanders
      → Bytes
      → Disk
      → Bytes
      → Bytes
      → ℕ
      → CommitProof
      → List ℕ
      → Run ProveError (List CommitProof)
  unfolding generate_commit_proof
  prove_chain graph id disk slice above_slice count proof [] = ok []
  prove_chain graph id disk slice above_slice count proof (which ∷ chal) = do
    parent ← or_panic (get_elem? proof.parents which) index_out_of_range
    next ← generate_commit_proof graph id disk slice above_slice count parent.index
    rest ← prove_chain graph id disk slice above_slice count next chal
    ok (next ∷ rest)

  -- `proveCommit`
  unfoldable pub prove_one :
      Expanders → Bytes → Disk → Bytes → Bytes → List ℕ → Run ProveError (List CommitProof)
  unfolding prove_chain
  prove_one graph id disk slice above_slice chal = do
    file ← or_panic (get_elem? chal 0) index_out_of_range
    first ← or_panic (get_elem? chal 1) index_out_of_range
    proof ← generate_commit_proof graph id disk slice above_slice file first
    rest ← prove_chain graph id disk slice above_slice file proof (drop 2 chal)
    ok (proof ∷ rest)

  unfoldable pub prove_each :
      Expanders
      → Bytes
      → Disk
      → Bytes
      → Bytes
      → List (List ℕ)
      → Run ProveError (List (List CommitProof))
  unfolding prove_one
  prove_each graph id disk slice above_slice [] = ok []
  prove_each graph id disk slice above_slice (chal ∷ chals) = do
    proofs ← prove_one graph id disk slice above_slice chal
    rest ← prove_each graph id disk slice above_slice chals
    ok (proofs ∷ rest)

  -- `ProveCommit` with `MaxCommitProofThread` threads, which have variables of their own and are
  -- joined. A challenge beyond them gets no proofs.
  unfoldable pub prove_commit :
      ℕ
      → Expanders
      → Bytes
      → Disk
      → Bytes
      → Bytes
      → List (List ℕ)
      → Run ProveError (List (List CommitProof))
  unfolding prove_each
  prove_commit threads graph id disk slice above_slice chals = do
    proofs ← prove_each graph id disk slice above_slice (take threads chals)
    ok (proofs ++ replicate (length chals - threads) [])
