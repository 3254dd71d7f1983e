-- ===== src/Verify/Space.antt =====
-- What an accepted space proof of pois/verify.go says of each challenge.
use cess_pos_demo.Common.{
  ℕ, suc, ◌+◌, true, List, [], ◌∷◌, ◌++◌, length, length-append, length-replicate, get_elem?, Each,
  some, ◌==◌, ==_iff, ok, Whenever, Whenever-map, ◌≡◌, sym, ap, ◌∙◌, arith,
}
use cess_pos_demo.BigInt.{Bytes, equal}
use cess_pos_demo.BigInt.Bytes.{eq_of_equal}
use cess_pos_demo.Crypto.{Crypto}
use cess_pos_demo.Encoding.{hash_size, get_bytes, get_hash, copy_data}
use cess_pos_demo.Encoding.Laws.{length-get_bytes, copy_data-fits, append_nil}
use cess_pos_demo.Mht.{verify_path_proof}
use cess_pos_demo.Acc.Accumulator.{RsaKey}
use cess_pos_demo.Acc.Chain.{WitnessNode, verify_mutilevel_acc}
use cess_pos_demo.Acc.Chain.Links.{LeadsTo, verify_mutilevel_acc_iff}
use cess_pos_demo.Verify.{
  ProverNode, Verifier, bad_proof_data, bad_file_index, label_mismatch, acc_mismatch, path_mismatch,
  find_node,
}
use cess_pos_demo.Verify.Guards.{at_index, not_nil, past}
use cess_pos_demo.Verify.Checks.{
  MhtProof, SpaceProof, elem_of, empty_label, check_space, found_space, verify_space,
}

module _ ⦃c : Crypto⦄ where
  -- The label of a file: the digest of the prover's ID, the file's number and a root.
  abbrev pub file_label : Bytes → ℕ → Bytes → Bytes
  file_label id file root = get_hash (id ++ (get_bytes 8 file ++ root))

  -- Challenge `i` is met: the proof says that its label has the challenged index, the label is shown
  -- below a root by a path of the proof's choice, and the label of the file made of that root is the
  -- lowest element of a chain that leads to the accumulator. The path is not tied to the index.
  pub record Met (key : RsaKey) (acc id : Bytes) (proof : SpaceProof) (i file leaf : ℕ)
      : Type 0 where
    pub mht : MhtProof
    pub root : Bytes
    pub chain : WitnessNode
    pub mht_at : get_elem? proof.proofs i ≡ some mht
    pub root_at : get_elem? proof.roots i ≡ some root
    pub chain_at : get_elem? proof.wit_chains i ≡ some chain
    pub index_named : mht.index ≡ leaf
    pub label_shown :
        verify_path_proof root mht.label (record { locs = mht.locs; path = mht.paths }) ≡ true
    pub label_in_chain : elem_of chain ≡ some (file_label id file root)
    pub chain_leads : LeadsTo key acc chain

  pub filled_label :
      (label id root : Bytes) (file : ℕ)
      → length label ≡ length id + 8 + hash_size
      → length root ≡ hash_size
      → copy_data label (id ∷ get_bytes 8 file ∷ root ∷ []) ≡ id ++ (get_bytes 8 file ++ root)
  filled_label label id root file l r =
      let a = length-append id (get_bytes 8 file ++ (root ++ [])) in
      let b = length-append (get_bytes 8 file) (root ++ []) in
      let w = length-get_bytes 8 file in
      let same = append_nil root in
      let size = ap (length {A = ℕ}) same in
      copy_data-fits label (id ∷ get_bytes 8 file ∷ root ∷ []) (omega arith)
      ∙ ap (λ t. id ++ (get_bytes 8 file ++ t)) same

  pub length-file_label :
      (id root : Bytes) (file : ℕ)
      → length root ≡ hash_size
      → length (id ++ (get_bytes 8 file ++ root)) ≡ length id + 8 + hash_size
  length-file_label id root file r = omega (
    arith,
    length-append id (get_bytes 8 file ++ root),
    length-append (get_bytes 8 file) root,
    length-get_bytes 8 file,
  )

  -- All challenges from `i` on are met, each of which begins with a file and a leaf.
  abbrev pub AllMet : RsaKey → Bytes → Bytes → SpaceProof → ℕ → List (List ℕ) → Type 0
  AllMet key acc id proof i [] = Unit {0}
  AllMet key acc id proof i (chal ∷ chals) =
      ((file leaf : ℕ) × (get_elem? chal 0 ≡ some file)
        × (get_elem? chal 1 ≡ some leaf)
        × Met key acc id proof i file leaf)
      × AllMet key acc id proof (suc i) chals

  check_space-AllMet :
      (key : RsaKey) (acc id : Bytes) (proof : SpaceProof) (i : ℕ) (label : Bytes)
      (chals : List (List ℕ))
      → Each (λ root. length root ≡ hash_size) proof.roots
      → length label ≡ length id + 8 + hash_size
      → Whenever (check_space key acc id proof i label chals) (λ u. AllMet key acc id proof i chals)
  unfolding check_space
  check_space-AllMet key acc id proof i label [] sizes l = tt
  check_space-AllMet key acc id proof i label (chal ∷ chals) sizes l =
      let Q : Unit {0} → Type 0 = λ u. AllMet key acc id proof i (chal ∷ chals) in
      at_index (get_elem? chal 1) _ Q (λ leaf leaf_at.
        at_index (get_elem? proof.proofs i) _ Q (λ mht mht_at.
          past (leaf == mht.index) bad_file_index _ Q (λ right_leaf.
            at_index (get_elem? proof.roots i) _ Q (λ root root_at.
              past (verify_path_proof root mht.label (record { locs = mht.locs; path = mht.paths }))
                path_mismatch _ Q
                (λ shown. at_index (get_elem? chal 0) _ Q (λ file file_at.
                  at_index (get_elem? proof.wit_chains i) _ Q (λ chain chain_at.
                    not_nil (elem_of chain) _ Q (λ elem elem_at.
                      past
                        (equal (get_hash (copy_data label (id ∷ get_bytes 8 file ∷ root ∷ [])))
                          elem)
                        label_mismatch _ Q
                        (λ same_label.
                          past (verify_mutilevel_acc key chain acc) acc_mismatch _ Q (λ leads.
                            let size = sizes i root root_at in
                            let filled = filled_label label id root file l size in
                            let longer : length
                                  (copy_data label (id ∷ get_bytes 8 file ∷ root ∷ []))
                                ≡ length id + 8 + hash_size =
                              ap (length {A = ℕ}) filled ∙ length-file_label id root file size in
                            let labelled : file_label id file root ≡ elem =
                              ap get_hash (sym filled) ∙ eq_of_equal _ elem same_label in
                            let met : Met key acc id proof i file leaf = record {
                              mht = mht;
                              root = root;
                              chain = chain;
                              mht_at = mht_at;
                              root_at = root_at;
                              chain_at = chain_at;
                              index_named = sym ((==_iff leaf mht.index).0 right_leaf);
                              label_shown = shown;
                              label_in_chain = elem_at ∙ ap some (sym labelled);
                              chain_leads = (verify_mutilevel_acc_iff key chain acc).0 leads;
                            } in
                            Whenever-map (check_space key acc id proof (suc i) _ chals)
                              (λ u. AllMet key acc id proof (suc i) chals) Q
                              (check_space-AllMet key acc id proof (suc i) _ chals sizes longer)
                              (λ u rest. ((file, leaf, file_at, leaf_at, met), rest))))))))))))

  found_space-AllMet :
      (v : Verifier) (id : Bytes) (chals : List (List ℕ)) (proof : SpaceProof) (prover : ProverNode)
      → Each (λ root. length root ≡ hash_size) proof.roots
      → Whenever
          (found_space v id chals proof (some prover))
          (λ u. AllMet v.key prover.acc id proof 0 chals)
  unfolding found_space
  found_space-AllMet v id chals proof prover sizes =
      past (length chals == length proof.roots) bad_proof_data _
        (λ u. AllMet v.key prover.acc id proof 0 chals)
        (λ h.
          check_space-AllMet v.key prover.acc id proof 0 (empty_label id) chals sizes
            (length-replicate {A = ℕ} (length id + 8 + hash_size) 0))

  -- When `VerifySpace` accepts the proof of a registered prover, with roots of the size of a digest,
  -- every challenge is met, in the sense of `Met`: the proof names the challenged index, and shows its
  -- label by a path that is not tied to that index.
  pub verify_space-AllMet :
      (v : Verifier) (id : Bytes) (chals : List (List ℕ)) (proof : SpaceProof) (prover : ProverNode)
      → find_node id v.nodes ≡ some prover
      → Each (λ root. length root ≡ hash_size) proof.roots
      → verify_space v id chals proof ≡ ok tt
      → AllMet v.key prover.acc id proof 0 chals
  unfolding verify_space
  verify_space-AllMet v id chals proof prover h sizes accepted =
      let e : found_space v id chals proof (some prover) ≡ ok tt = rw h at accepted in
      rw e at (found_space-AllMet v id chals proof prover sizes)
