-- ===== src/Verify/Capacity.antt =====
-- The capacity of a prover's buffer of commits in pois/verify.go: `VerifyAcc` takes the accepted
-- commits out of the slice `CommitsBuf`, which nothing lengthens again.
use cess_pos_demo.Common.{
  ℕ, suc, ◌+◌, ◌-◌, ◌≤◌, ◌<◌, Bool, false, not, ◌||◌, List, [], ◌∷◌, ◌++◌, length, take, drop,
  length-set, length-take, length-drop, length-append, replicate, get_elem?, lt-get_elem?, Option,
  none, some, ltb, ◌==◌, if◌then◌else◌, Run, ok, err, panic, index_out_of_range, or_panic, fail_if,
  Whenever, Whenever-bind, Whenever-then, Whenever-if, Whenever-map, fail_if-false, or_panic-some,
  ◌≡◌, refl, ap, arith, ◌⊎◌, inl, inr, Bool-cases,
}
use cess_pos_demo.BigInt.{Bytes, equal}
use cess_pos_demo.Crypto.{Crypto}
use cess_pos_demo.Encoding.{hash_size}
use cess_pos_demo.Acc.Accumulator.{RsaKey}
use cess_pos_demo.Acc.Chain.{verify_insert_update}
use cess_pos_demo.Verify.{
  max_buf_size, Commit, ProverNode, Verifier, AccProof, PoisError, bad_file_index, label_mismatch,
  bad_proof_data, acc_mismatch, find_node, with_node, new_prover_node, register_prover_node,
  commit_valid, store_commit, receive_each, receive_commits, commit_index, check_labels, accept_acc,
  found_acc, receive_found, register_found, verify_acc,
}
use cess_pos_demo.Verify.Nodes.{EachNode, find_node-EachNode, put_node-EachNode}

-- The buffer has one slot less for each accepted file, and its used slots are slots of it.
abbrev pub HasCapacity : ProverNode → Type 0
HasCapacity node =
    (length node.commits_buf + node.count ≡ max_buf_size)
    × (node.buf_size ≤ length node.commits_buf)

new_prover_node-HasCapacity : (key : RsaKey) (id : Bytes) → HasCapacity (new_prover_node key id)
unfolding new_prover_node
new_prover_node-HasCapacity key id = (refl, omega arith)

within_cons :
    (i index size : ℕ) (chal : List ℕ) (chals : List (List ℕ))
    → i + index < size
    → (chals ≡ []) ⊎ (suc i + length chals + index ≤ size)
    → i + suc (length chals) + index ≤ size
within_cons i index size chal chals h (inl p) = rw p (omega arith)
within_cons i index size chal chals h (inr l) = omega arith

no_chals_or_within :
    (index size : ℕ) (chals : List (List ℕ))
    → (chals ≡ []) ⊎ (0 + length chals + index ≤ size)
    → (length chals ≡ 0) ⊎ (index + length chals ≤ size)
no_chals_or_within index size chals (inl p) = inl (ap length p)
no_chals_or_within index size chals (inr l) = inr (omega arith)

module _ ⦃c : Crypto⦄ where
  store_commit-HasCapacity :
      (node : ProverNode) (commit : Commit)
      → HasCapacity node
      → Whenever (store_commit node commit) HasCapacity
  unfolding store_commit
  store_commit-HasCapacity node commit (h, k) =
      let same = length-set node.commits_buf node.buf_size commit in
      elim (Bool-cases (ltb node.buf_size (length node.commits_buf))) [
        | inl q ↦ rw q (rw same h, rw same (ground arith))
        | inr q ↦ rw q tt
      ]

  receive_each-HasCapacity :
      (k : ℕ) (node : ProverNode) (commits : List Commit)
      → HasCapacity node
      → Whenever (receive_each k node commits) (λ r. HasCapacity r.0)
  unfolding receive_each
  receive_each-HasCapacity k node [] h = h
  receive_each-HasCapacity k node (commit ∷ commits) h =
      Whenever-then (commit_valid k commit) _ (λ r. HasCapacity r.0)
        (λ valid.
          Whenever-if (not valid) _ _ (λ r. HasCapacity r.0) (λ bad. h)
            (λ good.
              Whenever-bind (store_commit node commit) _ HasCapacity (λ r. HasCapacity r.0)
                (store_commit-HasCapacity node commit h)
                (λ stored s. receive_each-HasCapacity k stored commits s)))

  -- An accepted batch of challenges stands within the buffer.
  check_labels-within :
      (k : ℕ) (node : ProverNode) (id : Bytes) (index : ℕ) (proof : AccProof) (i : ℕ)
      (label : Bytes) (chals : List (List ℕ))
      → Whenever
          (check_labels k node id index proof i label chals)
          (λ u. (chals ≡ []) ⊎ (i + length chals + index ≤ length node.commits_buf))
  unfolding check_labels
  check_labels-within k node id index proof i label [] = inl refl
  check_labels-within k node id index proof i label (chal ∷ chals) =
      let Q : Unit {0} → Type 0 =
        λ u. (chal ∷ chals ≡ []) ⊎ (i + suc (length chals) + index ≤ length node.commits_buf) in
      Whenever-then (or_panic (get_elem? chal 0) index_out_of_range) _ Q (λ file.
        Whenever-then (or_panic (get_elem? proof.indexs i) index_out_of_range) _ Q (λ claimed.
          Whenever-then (fail_if (not (file == claimed)) bad_file_index) _ Q (λ u.
            Whenever-bind (or_panic (get_elem? node.commits_buf (i + index)) index_out_of_range) _
              (λ commit. get_elem? node.commits_buf (i + index) ≡ some commit) Q
              (or_panic-some PoisError _ index_out_of_range)
              (λ commit at.
                Whenever-then (or_panic (get_elem? commit.roots k) index_out_of_range) _ Q (λ root.
                  Whenever-then (or_panic (get_elem? proof.labels i) index_out_of_range) _ Q
                    (λ expected. Whenever-then (fail_if _ label_mismatch) _ Q (λ u'.
                      Whenever-map (check_labels k node id index proof (suc i) _ chals) _ Q
                        (check_labels-within k node id index proof (suc i) _ chals)
                        (λ u'' rest. inr (
                          within_cons i index (length node.commits_buf) chal chals
                            (lt-get_elem? node.commits_buf (i + index) at) rest)))))))))

  -- The commits of an accepted batch leave the buffer.
  length-cut :
      (index num : ℕ) (commits : List Commit)
      → (num ≡ 0) ⊎ (index + num ≤ length commits)
      → length (take index commits ++ drop (index + num) commits) ≡ length commits - num
  length-cut index num commits (inl p) = omega (
    arith,
    length-append (take index commits) (drop (index + num) commits),
    length-take index commits,
    length-drop (index + num) commits,
  )
  length-cut index num commits (inr l) = omega (
    arith,
    length-append (take index commits) (drop (index + num) commits),
    length-take index commits,
    length-drop (index + num) commits,
  )

  accept_acc-HasCapacity :
      (v : Verifier) (id : Bytes) (node : ProverNode) (index num : ℕ) (proof : AccProof)
      (r : Run ⊥ Bool)
      → EachNode HasCapacity v.nodes
      → HasCapacity node
      → num ≤ node.buf_size
      → (num ≡ 0) ⊎ (index + num ≤ length node.commits_buf)
      → Whenever (accept_acc v id node index num proof r) (λ v'. EachNode HasCapacity v'.nodes)
  unfolding accept_acc with_node
  accept_acc-HasCapacity v id node index num proof (panic p) hs h l within = tt
  accept_acc-HasCapacity v id node index num proof (err e) hs h l within = elim e [ ]
  accept_acc-HasCapacity v id node index num proof (ok good) hs (h, k) l within =
      let Q : Verifier → Type 0 = λ v'. EachNode HasCapacity v'.nodes in
      let cut = length-cut index num node.commits_buf within in
      Whenever-then (fail_if (not good) acc_mismatch) _ Q (λ u.
        Whenever-then
          (or_panic (get_elem? proof.acc_path (length proof.acc_path - 1)) index_out_of_range) _ Q
          (λ acc.
            let node' = record node {
              acc = acc;
              commits_buf = take index node.commits_buf ++ drop (index + num) node.commits_buf;
              buf_size = node.buf_size - num;
              count = node.count + num;
            } in
            let kept : HasCapacity node' = (omega arith, omega arith) in
            put_node-EachNode HasCapacity id node' v.nodes kept hs))

  found_acc-HasCapacity :
      (v : Verifier) (id : Bytes) (chals : List (List ℕ)) (proof : AccProof)
      (found : Option ProverNode)
      → EachNode HasCapacity v.nodes
      → ((node : ProverNode) → found ≡ some node → HasCapacity node)
      → Whenever (found_acc v id chals proof found) (λ v'. EachNode HasCapacity v'.nodes)
  unfolding found_acc
  found_acc-HasCapacity v id chals proof none hs h = tt
  found_acc-HasCapacity v id chals proof (some node) hs h =
      let Q : Verifier → Type 0 = λ v'. EachNode HasCapacity v'.nodes in
      let unfit = not (length chals == length proof.indexs) || ltb node.buf_size (length chals) in
      let label : Bytes = replicate (length id + 8 + hash_size) 0 in
      let answer =
        verify_insert_update v.key proof.wit_chains proof.labels proof.acc_path node.acc in
      Whenever-bind (fail_if unfit bad_proof_data) _ (λ u. unfit ≡ false) Q
        (fail_if-false unfit bad_proof_data)
        (λ u fits. Whenever-then (commit_index node chals) _ Q (λ index.
          Whenever-bind (check_labels v.expanders.k node id index proof 0 label chals) _
            (λ u'. (chals ≡ []) ⊎ (0 + length chals + index ≤ length node.commits_buf)) Q
            (check_labels-within v.expanders.k node id index proof 0 label chals)
            (λ u' within.
              accept_acc-HasCapacity v id node index (length chals) proof answer hs (h node refl)
                (ground arith) (no_chals_or_within index _ chals within))))

  receive_found-HasCapacity :
      (v : Verifier) (id : Bytes) (commits : List Commit) (found : Option ProverNode)
      → EachNode HasCapacity v.nodes
      → ((node : ProverNode) → found ≡ some node → HasCapacity node)
      → Whenever (receive_found v id commits found) (λ r. EachNode HasCapacity r.0.nodes)
  unfolding receive_found with_node
  receive_found-HasCapacity v id commits none hs h = hs
  receive_found-HasCapacity v id commits (some node) hs h =
      let Q : Verifier × Bool → Type 0 = λ r. EachNode HasCapacity r.0.nodes in
      let room = max_buf_size - node.buf_size in
      let taken : List Commit = if ltb room (length commits) then take room commits else commits in
      Whenever-if (not (equal node.id id)) _ _ Q (λ other. hs)
        (λ same.
          Whenever-bind (receive_each v.expanders.k node taken) _ (λ r. HasCapacity r.0) Q
            (receive_each-HasCapacity v.expanders.k node taken (h node refl))
            (λ r kept. put_node-EachNode HasCapacity id r.0 v.nodes kept hs))

  pub verify_acc-HasCapacity :
      (v : Verifier) (id : Bytes) (chals : List (List ℕ)) (proof : AccProof)
      → EachNode HasCapacity v.nodes
      → Whenever (verify_acc v id chals proof) (λ v'. EachNode HasCapacity v'.nodes)
  unfolding verify_acc
  verify_acc-HasCapacity v id chals proof hs =
      found_acc-HasCapacity v id chals proof (find_node id v.nodes) hs
        (λ node h. find_node-EachNode HasCapacity id v.nodes node hs h)

  pub receive_commits-HasCapacity :
      (v : Verifier) (id : Bytes) (commits : List Commit)
      → EachNode HasCapacity v.nodes
      → Whenever (receive_commits v id commits) (λ r. EachNode HasCapacity r.0.nodes)
  unfolding receive_commits
  receive_commits-HasCapacity v id commits hs =
      receive_found-HasCapacity v id commits (find_node id v.nodes) hs
        (λ node h. find_node-EachNode HasCapacity id v.nodes node hs h)

register_found-HasCapacity :
    (v : Verifier) (id : Bytes) (found : Option ProverNode)
    → EachNode HasCapacity v.nodes
    → Whenever (register_found v id found) (λ v'. EachNode HasCapacity v'.nodes)
unfolding register_found
register_found-HasCapacity v id none hs = (new_prover_node-HasCapacity v.key id, hs)
register_found-HasCapacity v id (some node) hs = tt

pub register_prover_node-HasCapacity :
    (v : Verifier) (id : Bytes)
    → EachNode HasCapacity v.nodes
    → Whenever (register_prover_node v id) (λ v'. EachNode HasCapacity v'.nodes)
unfolding register_prover_node
register_prover_node-HasCapacity v id hs = register_found-HasCapacity v id (find_node id v.nodes) hs
