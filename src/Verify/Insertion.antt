-- ===== src/Verify/Insertion.antt =====
-- What an accepted insertion of pois/verify.go says of each challenge and of the prover's record.
use cess_pos_demo.Common.{
  ℕ, suc, ◌+◌, ◌-◌, Bool, true, not, ◌||◌, List, [], ◌∷◌, ◌++◌, length, take, drop, replicate,
  length-replicate, get_elem?, Each, some, ltb, ◌==◌, ==_iff, Run, ok, err, panic, fail_if,
  Whenever, Whenever-bind, Whenever-then, Whenever-map, ◌≡◌, refl, sym, ap, ◌∙◌,
}
use cess_pos_demo.BigInt.{Bytes, equal}
use cess_pos_demo.BigInt.Bytes.{eq_of_equal}
use cess_pos_demo.Crypto.{Crypto}
use cess_pos_demo.Encoding.{hash_size, get_bytes, get_hash, copy_data}
use cess_pos_demo.Acc.Chain.{verify_insert_update}
use cess_pos_demo.Verify.{
  Commit, ProverNode, Verifier, AccProof, bad_proof_data, bad_file_index, label_mismatch,
  acc_mismatch, find_node, with_node, commit_index, check_labels, accept_acc, found_acc, verify_acc,
}
use cess_pos_demo.Verify.Beginning.{BeginsAt, commit_index-BeginsAt}
use cess_pos_demo.Verify.Nodes.{find_node-put_node}
use cess_pos_demo.Verify.Guards.{at_index, past}
use cess_pos_demo.Verify.Space.{file_label, filled_label, length-file_label}

module _ ⦃c : Crypto⦄ where
  -- Challenge `i` is for the file that the proof names, and the proof's label of it is the label made
  -- of root `k` of the buffered commit at `i + index`, whose own file number is not looked at.
  pub record Committed (k : ℕ) (prover : ProverNode) (id : Bytes) (index : ℕ) (proof : AccProof)
      (i file : ℕ) : Type 0 where
    pub commit : Commit
    pub root : Bytes
    pub named : get_elem? proof.indexs i ≡ some file
    pub commit_at : get_elem? prover.commits_buf (i + index) ≡ some commit
    pub root_at : get_elem? commit.roots k ≡ some root
    pub label_at : get_elem? proof.labels i ≡ some (file_label id file root)

  abbrev pub AllCommitted : ℕ → ProverNode → Bytes → ℕ → AccProof → ℕ → List (List ℕ) → Type 0
  AllCommitted k prover id index proof i [] = Unit {0}
  AllCommitted k prover id index proof i (chal ∷ chals) =
      ((file : ℕ) × (get_elem? chal 0 ≡ some file) × Committed k prover id index proof i file)
      × AllCommitted k prover id index proof (suc i) chals

  -- The roots of all buffered commits have the size of a digest.
  abbrev pub RootsSized : ProverNode → Type 0
  RootsSized prover =
      Each (λ commit. Each (λ root. length root ≡ hash_size) commit.roots) prover.commits_buf

  check_labels-AllCommitted :
      (k : ℕ) (prover : ProverNode) (id : Bytes) (index : ℕ) (proof : AccProof) (i : ℕ)
      (label : Bytes) (chals : List (List ℕ))
      → RootsSized prover
      → length label ≡ length id + 8 + hash_size
      → Whenever
          (check_labels k prover id index proof i label chals)
          (λ u. AllCommitted k prover id index proof i chals)
  unfolding check_labels
  check_labels-AllCommitted k prover id index proof i label [] sizes l = tt
  check_labels-AllCommitted k prover id index proof i label (chal ∷ chals) sizes l =
      let Q : Unit {0} → Type 0 = λ u. AllCommitted k prover id index proof i (chal ∷ chals) in
      at_index (get_elem? chal 0) _ Q (λ file file_at.
        at_index (get_elem? proof.indexs i) _ Q (λ claimed claimed_at.
          past (file == claimed) bad_file_index _ Q (λ same_file.
            at_index (get_elem? prover.commits_buf (i + index)) _ Q (λ commit commit_at.
              at_index (get_elem? commit.roots k) _ Q (λ root root_at.
                at_index (get_elem? proof.labels i) _ Q (λ expected expected_at.
                  past
                    (equal (get_hash (copy_data label (id ∷ get_bytes 8 file ∷ root ∷ [])))
                      expected)
                    label_mismatch _ Q
                    (λ same_label.
                      let size = sizes (i + index) commit commit_at k root root_at in
                      let filled = filled_label label id root file l size in
                      let longer : length (copy_data label (id ∷ get_bytes 8 file ∷ root ∷ []))
                          ≡ length id + 8 + hash_size =
                        ap (length {A = ℕ}) filled ∙ length-file_label id root file size in
                      let labelled : file_label id file root ≡ expected =
                        ap get_hash (sym filled) ∙ eq_of_equal _ expected same_label in
                      let committed : Committed k prover id index proof i file = record {
                        commit = commit;
                        root = root;
                        named = claimed_at ∙ ap some (sym ((==_iff file claimed).0 same_file));
                        commit_at = commit_at;
                        root_at = root_at;
                        label_at = expected_at ∙ ap some (sym labelled);
                      } in
                      Whenever-map (check_labels k prover id index proof (suc i) _ chals)
                        (λ u. AllCommitted k prover id index proof (suc i) chals) Q
                        (check_labels-AllCommitted k prover id index proof (suc i) _ chals sizes
                          longer)
                        (λ u rest. ((file, file_at, committed), rest)))))))))

  -- What an accepted insertion is and does: from `index` on, where the search for the first challenged
  -- file ends, the challenges are committed in the order of the buffer, `VerifyInsertUpdate` accepts
  -- against the prover's accumulator, and the prover's record takes the last new accumulator and
  -- counts the challenges.
  pub record Inserted (v : Verifier) (id : Bytes) (prover : ProverNode) (chals : List (List ℕ))
      (proof : AccProof) (v' : Verifier) : Type 0 where
    pub index : ℕ
    pub begins : BeginsAt prover chals index
    pub committed : AllCommitted v.expanders.k prover id index proof 0 chals
    pub verified :
        verify_insert_update v.key proof.wit_chains proof.labels proof.acc_path prover.acc ≡ ok true
    pub prover' : ProverNode
    pub found' : find_node id v'.nodes ≡ some prover'
    pub counted : prover'.count ≡ prover.count + length chals
    pub moved_on : get_elem? proof.acc_path (length proof.acc_path - 1) ≡ some prover'.acc

  accept_acc-Inserted :
      (v : Verifier) (id : Bytes) (prover : ProverNode) (index : ℕ) (chals : List (List ℕ))
      (proof : AccProof) (answer : Run ⊥ Bool)
      → find_node id v.nodes ≡ some prover
      → BeginsAt prover chals index
      → AllCommitted v.expanders.k prover id index proof 0 chals
      → verify_insert_update v.key proof.wit_chains proof.labels proof.acc_path prover.acc ≡ answer
      → Whenever
          (accept_acc v id prover index (length chals) proof answer)
          (Inserted v id prover chals proof)
  unfolding accept_acc with_node
  accept_acc-Inserted v id prover index chals proof (panic p) found begins all e = tt
  accept_acc-Inserted v id prover index chals proof (err x) found begins all e = elim x [ ]
  accept_acc-Inserted v id prover index chals proof (ok good) found begins all e =
      past good acc_mismatch _ (Inserted v id prover chals proof) (λ accepted.
        at_index (get_elem? proof.acc_path (length proof.acc_path - 1)) _
          (Inserted v id prover chals proof)
          (λ last last_at. record {
            index = index;
            begins = begins;
            committed = all;
            verified = e ∙ ap ok accepted;
            prover' = record prover {
              acc = last;
              commits_buf =
                  take index prover.commits_buf ++ drop (index + length chals) prover.commits_buf;
              buf_size = prover.buf_size - length chals;
              count = prover.count + length chals;
            };
            found' = find_node-put_node id _ v.nodes found;
            counted = refl;
            moved_on = last_at;
          }))

  found_acc-Inserted :
      (v : Verifier) (id : Bytes) (prover : ProverNode) (chals : List (List ℕ)) (proof : AccProof)
      → find_node id v.nodes ≡ some prover
      → RootsSized prover
      → Whenever (found_acc v id chals proof (some prover)) (Inserted v id prover chals proof)
  unfolding found_acc
  found_acc-Inserted v id prover chals proof found sizes =
      let Q = Inserted v id prover chals proof in
      let label : Bytes = replicate (length id + 8 + hash_size) 0 in
      let unfit = not (length chals == length proof.indexs) || ltb prover.buf_size (length chals) in
      Whenever-then (fail_if unfit bad_proof_data) _ Q (λ u.
        Whenever-bind (commit_index prover chals) _ (BeginsAt prover chals) Q
          (commit_index-BeginsAt prover chals)
          (λ index begins.
            Whenever-bind (check_labels v.expanders.k prover id index proof 0 label chals) _
              (λ u'. AllCommitted v.expanders.k prover id index proof 0 chals) Q
              (check_labels-AllCommitted v.expanders.k prover id index proof 0 label chals sizes
                (length-replicate {A = ℕ} (length id + 8 + hash_size) 0))
              (λ u' all.
                accept_acc-Inserted v id prover index chals proof _ found begins all refl)))

  -- When `VerifyAcc` accepts the insertion of a registered prover whose buffered commits have roots of
  -- the size of a digest, the insertion is `Inserted`: challenge `i` is for the file that the proof names
  -- at `i`, and the proof's label of it is made of the prover's ID, that file's number and root K of the
  -- commit `i` behind the first buffered one for the first challenged file, or `i` behind the first of
  -- all when there is none for it; `VerifyInsertUpdate` accepts; and the prover's record takes the last
  -- new accumulator and counts the challenges.
  pub verify_acc-Inserted :
      (v : Verifier) (id : Bytes) (prover : ProverNode) (chals : List (List ℕ)) (proof : AccProof)
      (v' : Verifier)
      → find_node id v.nodes ≡ some prover
      → RootsSized prover
      → verify_acc v id chals proof ≡ ok v'
      → Inserted v id prover chals proof v'
  unfolding verify_acc
  verify_acc-Inserted v id prover chals proof v' found sizes accepted =
      let e : found_acc v id chals proof (some prover) ≡ ok v' = rw found at accepted in
      rw e at (found_acc-Inserted v id prover chals proof found sizes)
