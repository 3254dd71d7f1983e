-- ===== src/Verify/Steps.antt =====
-- The calls of pois/verify.go that change the verifier, one after the other, in any order and with
-- any arguments. The other calls of a `Verifier` change nothing.
use cess_pos_demo.Common.{
  ℕ, zero, suc, ◌+◌, ◌-◌, ◌≤◌, ◌<◌, Bool, true, false, List, ◌∷◌, length, take, some, ltb,
  if◌then◌else◌, ok, panic, index_out_of_range, ◌≡◌, arith, Bool-cases, inl, inr,
}
use cess_pos_demo.BigInt.{Bytes, equal}
use cess_pos_demo.Crypto.{Crypto}
use cess_pos_demo.Acc.Accumulator.{RsaKey}
use cess_pos_demo.Verify.{
  max_buf_size, Commit, ProverNode, Verifier, AccProof, new_verifier, find_node,
  register_prover_node, commit_valid, store_commit, receive_each, receive_found, receive_commits,
  verify_acc,
}
use cess_pos_demo.Verify.Nodes.{EachNode, find_node-EachNode}
use cess_pos_demo.Verify.Capacity.{
  HasCapacity, register_prover_node-HasCapacity, receive_commits-HasCapacity,
  verify_acc-HasCapacity,
}

head_stays :
    (room : ℕ) (commit : Commit) (commits : List Commit)
    → 0 < room
    → (rest : List Commit) × ((if ltb room (length (commit ∷ commits))
          then take room (commit ∷ commits)
          else commit ∷ commits)
        ≡ commit ∷ rest)
head_stays zero commit commits h = absurd (omega arith)
head_stays (suc room) commit commits h = elim (Bool-cases (ltb (suc room) (suc (length commits)))) [
  | inl q ↦ (take room commits, rw q)
  | inr q ↦ (commits, rw q)
]

module _ ⦃c : Crypto⦄ where
  -- The states that a new verifier comes to.
  pub data Reachable : Verifier → Type 0 where
    begin : (key : RsaKey) (k n d : ℕ) → Reachable (new_verifier key k n d)
    register :
        (v v' : Verifier) (id : Bytes)
        → Reachable v
        → register_prover_node v id ≡ ok v'
        → Reachable v'
    receive :
        (v v' : Verifier) (id : Bytes) (commits : List Commit) (good : Bool)
        → Reachable v
        → receive_commits v id commits ≡ ok (v', good)
        → Reachable v'
    insert :
        (v v' : Verifier) (id : Bytes) (chals : List (List ℕ)) (proof : AccProof)
        → Reachable v
        → verify_acc v id chals proof ≡ ok v'
        → Reachable v'

  Reachable-HasCapacity : (v : Verifier) → Reachable v → EachNode HasCapacity v.nodes
  unfolding new_verifier
  Reachable-HasCapacity _ (begin key k n d) = tt
  Reachable-HasCapacity _ (register v v' id r e) =
      rw e at (register_prover_node-HasCapacity v id (Reachable-HasCapacity v r))
  Reachable-HasCapacity _ (receive v v' id commits good r e) =
      rw e at (receive_commits-HasCapacity v id commits (Reachable-HasCapacity v r))
  Reachable-HasCapacity _ (insert v v' id chals proof r e) =
      rw e at (verify_acc-HasCapacity v id chals proof (Reachable-HasCapacity v r))

  -- In every state that a new verifier comes to, a prover's buffer of commits and its count of
  -- accepted files make up 64 together, and the used part of the buffer is within it.
  pub Reachable-capacity :
      (v : Verifier) (id : Bytes) (node : ProverNode)
      → Reachable v
      → find_node id v.nodes ≡ some node
      → (length node.commits_buf + node.count ≡ max_buf_size)
        × (node.buf_size ≤ length node.commits_buf)
  Reachable-capacity v id node r h =
      find_node-EachNode HasCapacity id v.nodes node (Reachable-HasCapacity v r) h

  receive_each-full :
      (k : ℕ) (node : ProverNode) (commit : Commit) (commits : List Commit)
      → length node.commits_buf ≤ node.buf_size
      → commit_valid k commit ≡ ok true
      → receive_each k node (commit ∷ commits) ≡ panic index_out_of_range
  unfolding receive_each store_commit
  receive_each-full k node commit commits h valid =
      let out : ltb node.buf_size (length node.commits_buf) ≡ false = ground arith in
      rw (valid, out)

  -- In such a state, when a prover's accepted files and its buffered commits are 64 together and some
  -- file is accepted, `ReceiveCommits` panics on every further commit that passes its tests.
  pub receive_commits-exhausted :
      (v : Verifier) (id : Bytes) (node : ProverNode) (commit : Commit) (commits : List Commit)
      → Reachable v
      → find_node id v.nodes ≡ some node
      → equal node.id id ≡ true
      → 0 < node.count
      → node.buf_size + node.count ≡ max_buf_size
      → commit_valid v.expanders.k commit ≡ ok true
      → receive_commits v id (commit ∷ commits) ≡ panic index_out_of_range
  unfolding receive_commits receive_found
  receive_commits-exhausted v id node commit commits r h same some_file full valid =
      let (whole, used) = Reachable-capacity v id node r h in
      let room : 0 < max_buf_size - node.buf_size = omega arith in
      let (rest, taken) = head_stays (max_buf_size - node.buf_size) commit commits room in
      let stuck = receive_each-full v.expanders.k node commit rest (omega arith) valid in
      rw (h, same, taken, stuck)
