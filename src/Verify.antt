-- ===== src/Verify.antt =====
-- The verifier of pois/verify.go: its record of each prover, `RegisterProverNode`, `ReceiveCommits`
-- and `VerifyAcc`. A call that changes a prover's record does so through a pointer in a map.
pub mod Checks
pub mod Nodes
pub mod Capacity
pub mod Labels
pub mod Steps
pub mod Space
pub mod Guards
pub mod Places
pub mod Beginning
pub mod Insertion
pub mod Challenges
pub mod Draws
pub mod Commits
pub mod Nodewise
pub mod Soundness
use cess_pos_demo.Common.{
  ℕ, zero, suc, ◌+◌, ◌-◌, ◌*◌, Bool, true, false, not, ◌||◌, List, [], ◌∷◌, ◌++◌, length, take,
  drop, set, replicate, get_elem?, Option, none, some, ltb, ◌==◌, if◌then◌else◌, Run, ok, err,
  panic, index_out_of_range, ◌>>=◌, ◌>>◌, or_panic, fail_if,
}
use cess_pos_demo.BigInt.{Bytes, to_bytes, equal}
use cess_pos_demo.Crypto.{Crypto, hash_sum}
use cess_pos_demo.Encoding.{hash_size, get_bytes, get_hash, copy_data}
use cess_pos_demo.Expander.{Expanders, new_expanders}
use cess_pos_demo.Acc.Accumulator.{RsaKey}
use cess_pos_demo.Acc.Chain.{WitnessNode, verify_insert_update}

abbrev pub max_buf_size : ℕ
max_buf_size = 4 * 16

pub record Commit : Type 0 where
  pub file_index : ℕ
  pub roots : List Bytes

pub record ProverNode : Type 0 where
  pub id : Bytes
  pub commits_buf : List Commit
  pub buf_size : ℕ
  pub acc : Bytes
  pub count : ℕ

-- The map is keyed by the hexadecimal form of an ID, which is the ID again.
pub record Verifier : Type 0 where
  pub key : RsaKey
  pub expanders : Expanders
  pub nodes : List (Bytes × ProverNode)

pub record AccProof : Type 0 where
  pub indexs : List ℕ
  pub labels : List Bytes
  pub wit_chains : WitnessNode
  pub acc_path : List Bytes

pub data PoisError : Type 0 where
  node_exists node_not_found bad_proof_data bad_file_index bad_node_index label_mismatch : PoisError
  acc_mismatch path_mismatch commit_not_finished file_number_out_of_range : PoisError
  bad_file_number no_randomness dependency_mismatch : PoisError

unfoldable pub new_verifier : RsaKey → ℕ → ℕ → ℕ → Verifier
unfolding new_expanders
new_verifier key k n d = record { key = key; expanders = new_expanders k n d; nodes = [] }

unfoldable pub find_node : Bytes → List (Bytes × ProverNode) → Option ProverNode
find_node id [] = none
find_node id ((id', node) ∷ nodes) = if equal id id' then some node else find_node id nodes

-- The record of a prover is written in place.
unfoldable pub put_node : Bytes → ProverNode → List (Bytes × ProverNode) → List (Bytes × ProverNode)
put_node id node [] = []
put_node id node ((id', old) ∷ nodes) =
    let rest = put_node id node nodes in
    if equal id id' then (id', node) ∷ nodes else (id', old) ∷ rest

unfoldable pub with_node : Verifier → Bytes → ProverNode → Verifier
with_node v id node = record v { nodes = put_node id node v.nodes }

unfoldable pub new_prover_node : RsaKey → Bytes → ProverNode
new_prover_node key id = record {
  id = id;
  commits_buf = replicate max_buf_size (record { file_index = 0; roots = [] });
  buf_size = 0;
  acc = to_bytes key.g;
  count = 0;
}

-- `RegisterProverNode`, behind the lookup; so are the other functions named `found`.
unfoldable pub register_found : Verifier → Bytes → Option ProverNode → Run PoisError Verifier
register_found v id (some node) = err node_exists
register_found v id none = ok (record v { nodes = (id, new_prover_node v.key id) ∷ v.nodes })

unfoldable pub register_prover_node : Verifier → Bytes → Run PoisError Verifier
unfolding register_found
register_prover_node v id = register_found v id (find_node id v.nodes)

abbrev pub concat_roots : List Bytes → Bytes
concat_roots [] = []
concat_roots (r ∷ rs) = r ++ concat_roots rs

module _ ⦃c : Crypto⦄ where
  -- The two tests of `ReceiveCommits` on one commit: the number of its roots, and the last root.
  unfoldable pub commit_valid : ℕ → Commit → Run ⊥ Bool
  commit_valid k commit = if not (length commit.roots == k + 2) then ok false else do
    last ← or_panic (get_elem? commit.roots (k + 1)) index_out_of_range
    let front = take (length commit.roots - 1) commit.roots
    ok (equal last (hash_sum hash_size (concat_roots front)))

  -- `pNode.CommitsBuf[pNode.BufSize] = commits[i]; pNode.BufSize += 1`
  unfoldable pub store_commit : ProverNode → Commit → Run ⊥ ProverNode
  store_commit node commit =
      if ltb node.buf_size (length node.commits_buf)
      then ok (record node {
        commits_buf = set node.commits_buf node.buf_size commit;
        buf_size = node.buf_size + 1;
      })
      else panic index_out_of_range

  -- The loop of `ReceiveCommits`; the commits in front of a bad one stay stored.
  unfoldable pub receive_each : ℕ → ProverNode → List Commit → Run ⊥ (ProverNode × Bool)
  receive_each k node [] = ok (node, true)
  receive_each k node (commit ∷ commits) = do
    valid ← commit_valid k commit
    if not valid
        then ok (node, false)
        else do stored ← store_commit node commit; receive_each k stored commits

  -- A slice bound below 0 panics in the code; `BufSize` is never above the maximum.
  unfoldable pub receive_found :
      Verifier → Bytes → List Commit → Option ProverNode → Run ⊥ (Verifier × Bool)
  receive_found v id commits none = ok (v, false)
  receive_found v id commits (some node) = if not (equal node.id id) then ok (v, false) else do
    let room = max_buf_size - node.buf_size
    (node', good) ←
        receive_each v.expanders.k node
          (if ltb room (length commits) then take room commits else commits)
    ok (with_node v id node', good)

  -- `ReceiveCommits`
  unfoldable pub receive_commits : Verifier → Bytes → List Commit → Run ⊥ (Verifier × Bool)
  unfolding receive_found
  receive_commits v id commits = receive_found v id commits (find_node id v.nodes)

  -- The position among the first `n` commits of the one with the challenged file index, else 0.
  unfoldable pub position : ℕ → ℕ → ℕ → List Commit → Run PoisError ℕ
  position wanted i zero commits = ok 0
  position wanted i (suc n) [] = panic index_out_of_range
  position wanted i (suc n) (commit ∷ commits) =
      let rest = position wanted (suc i) n commits in
      if wanted == commit.file_index then ok i else rest

  unfoldable pub commit_index : ProverNode → List (List ℕ) → Run PoisError ℕ
  unfolding position
  commit_index node chals = if node.buf_size == 0 then ok 0 else do
    chal ← or_panic (get_elem? chals 0) index_out_of_range
    wanted ← or_panic (get_elem? chal 0) index_out_of_range
    position wanted 0 node.buf_size node.commits_buf

  -- The loop of `VerifyAcc` from `i` on. One buffer serves for all labels.
  unfoldable pub check_labels :
      ℕ → ProverNode → Bytes → ℕ → AccProof → ℕ → Bytes → List (List ℕ) → Run PoisError (Unit {0})
  check_labels k node id index proof i label [] = ok tt
  check_labels k node id index proof i label (chal ∷ chals) = do
    file ← or_panic (get_elem? chal 0) index_out_of_range
    claimed ← or_panic (get_elem? proof.indexs i) index_out_of_range
    fail_if (not (file == claimed)) bad_file_index
    commit ← or_panic (get_elem? node.commits_buf (i + index)) index_out_of_range
    root ← or_panic (get_elem? commit.roots k) index_out_of_range
    let filled = copy_data label (id ∷ get_bytes 8 file ∷ root ∷ [])
    expected ← or_panic (get_elem? proof.labels i) index_out_of_range
    fail_if (not (equal (get_hash filled) expected)) label_mismatch
    check_labels k node id index proof (suc i) filled chals

  -- The end of `VerifyAcc`, from the answer of `VerifyInsertUpdate`.
  unfoldable pub accept_acc :
      Verifier → Bytes → ProverNode → ℕ → ℕ → AccProof → Run ⊥ Bool → Run PoisError Verifier
  accept_acc v id node index num proof (panic p) = panic p
  accept_acc v id node index num proof (err e) = elim e [ ]
  accept_acc v id node index num proof (ok good) = do
    fail_if (not good) acc_mismatch
    acc ← or_panic (get_elem? proof.acc_path (length proof.acc_path - 1)) index_out_of_range
    ok (
        with_node v id (record node {
          acc = acc;
          commits_buf = take index node.commits_buf ++ drop (index + num) node.commits_buf;
          buf_size = node.buf_size - num;
          count = node.count + num;
        }))

  unfoldable pub found_acc :
      Verifier → Bytes → List (List ℕ) → AccProof → Option ProverNode → Run PoisError Verifier
  unfolding commit_index check_labels accept_acc
  found_acc v id chals proof none = err node_not_found
  found_acc v id chals proof (some node) = do
    fail_if (not (length chals == length proof.indexs) || ltb node.buf_size (length chals))
        bad_proof_data
    index ← commit_index node chals
    check_labels v.expanders.k node id index proof 0 (replicate (length id + 8 + hash_size) 0) chals
    accept_acc v id node index (length chals) proof
        (verify_insert_update v.key proof.wit_chains proof.labels proof.acc_path node.acc)

  -- `VerifyAcc`
  unfoldable pub verify_acc : Verifier → Bytes → List (List ℕ) → AccProof → Run PoisError Verifier
  unfolding found_acc
  verify_acc v id chals proof = found_acc v id chals proof (find_node id v.nodes)
