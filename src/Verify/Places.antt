-- ===== src/Verify/Places.antt =====
-- `VerifySpace` of pois/verify.go in both directions, and what it does not look at.
use cess_pos_demo.Common.{
  ℕ, zero, suc, ◌+◌, Bool, not, true, false, List, [], ◌∷◌, length, length-replicate, get_elem?,
  Each, some, ◌==◌, ==_iff, ok, ◌≡◌, ◌↔◌, refl, sym, ap, ◌∙◌, arith, fail_if,
}
use cess_pos_demo.BigInt.{Bytes, equal}
use cess_pos_demo.BigInt.Bytes.{equal_refl}
use cess_pos_demo.Crypto.{Crypto}
use cess_pos_demo.Encoding.{hash_size, get_bytes, get_hash, copy_data}
use cess_pos_demo.Acc.Accumulator.{RsaKey}
use cess_pos_demo.Acc.Chain.Links.{verify_mutilevel_acc_iff}
use cess_pos_demo.Verify.{ProverNode, Verifier, PoisError, bad_proof_data, find_node}
use cess_pos_demo.Verify.Checks.{
  MhtProof, SpaceProof, empty_label, check_space, found_space, verify_space,
}
use cess_pos_demo.Verify.Labels.{value_of}
use cess_pos_demo.Verify.Space.{
  file_label, Met, filled_label, length-file_label, AllMet, verify_space-AllMet,
}

-- The roots of a proof have the size of a digest.
abbrev pub RootsFit : SpaceProof → Type 0
RootsFit proof = Each (λ root. length root ≡ hash_size) proof.roots

passed : (b : Bool) (e : PoisError) → fail_if (not b) e ≡ ok tt → b ≡ true
passed true e h = refl
passed false e h = cc

module _ ⦃c : Crypto⦄ where
  check_space-accepts :
      (key : RsaKey) (acc id : Bytes) (proof : SpaceProof) (i : ℕ) (label : Bytes)
      (chals : List (List ℕ))
      → RootsFit proof
      → length label ≡ length id + 8 + hash_size
      → AllMet key acc id proof i chals
      → check_space key acc id proof i label chals ≡ ok tt
  unfolding check_space
  check_space-accepts key acc id proof i label [] sizes l met = refl
  check_space-accepts key acc id proof i label (chal ∷ chals) sizes l
        ((file, leaf, file_at, leaf_at, met), rest) =
      let size = sizes i met.root met.root_at in
      let filled = filled_label label id met.root file l size in
      let named : (leaf == met.mht.index) ≡ true =
        (==_iff leaf met.mht.index).1 (sym met.index_named) in
      let longer : length (copy_data label (id ∷ get_bytes 8 file ∷ met.root ∷ []))
          ≡ length id + 8 + hash_size =
        ap (length {A = ℕ}) filled ∙ length-file_label id met.root file size in
      let same : equal (get_hash (copy_data label (id ∷ get_bytes 8 file ∷ met.root ∷ [])))
            (file_label id file met.root)
          ≡ true =
        rw filled (equal_refl (file_label id file met.root)) in
      let leads = (verify_mutilevel_acc_iff key met.chain acc).1 met.chain_leads in
      rw
        (
          leaf_at, met.mht_at, named, met.root_at, met.label_shown, file_at, met.chain_at,
          met.label_in_chain, same, leads,
        )
        (check_space-accepts key acc id proof (suc i) _ chals sizes longer rest)

  -- `VerifySpace` accepts the proof of a registered prover, with roots of the size of a digest, exactly
  -- if there are as many roots as challenges and every challenge is met: the index that the proof names
  -- is the challenged node, the label is shown below its root by the path that the proof gives, which is
  -- not tied to that index, and the file's label made of that root is the lowest element of a chain that
  -- leads to the prover's accumulator.
  pub verify_space_iff :
      (v : Verifier) (id : Bytes) (chals : List (List ℕ)) (proof : SpaceProof) (prover : ProverNode)
      → find_node id v.nodes ≡ some prover
      → RootsFit proof
      → (verify_space v id chals proof ≡ ok tt)
        ↔ ((length chals ≡ length proof.roots) × AllMet v.key prover.acc id proof 0 chals)
  unfolding verify_space found_space
  verify_space_iff v id chals proof prover found sizes = (
    (λ accepted.
        let e : found_space v id chals proof (some prover) ≡ ok tt = rw found at accepted in
        let (u, many, e') =
          value_of (fail_if (not (length chals == length proof.roots)) bad_proof_data) _ e in
        (
          (==_iff (length chals) (length proof.roots)).0
              (passed (length chals == length proof.roots) bad_proof_data many),
          verify_space-AllMet v id chals proof prover found sizes accepted,
        )),
    (λ (many, met).
        rw (found, (==_iff (length chals) (length proof.roots)).1 many)
          (check_space-accepts v.key prover.acc id proof 0 (empty_label id) chals sizes
            (length-replicate {A = ℕ} (length id + 8 + hash_size) 0) met)),
  )

-- The proofs from place `i` on, with the index `f i` at place `i`.
abbrev pub renamed : (ℕ → ℕ) → ℕ → List MhtProof → List MhtProof
renamed f i [] = []
renamed f i (mht ∷ proofs) = record mht { index = f i } ∷ renamed f (suc i) proofs

-- A challenge with another leaf of the same file.
abbrev pub at_leaf : ℕ → List ℕ → List ℕ
at_leaf leaf' [] = []
at_leaf leaf' (file ∷ []) = file ∷ []
at_leaf leaf' (file ∷ leaf ∷ rest) = file ∷ leaf' ∷ rest

-- The challenges from place `i` on, with the leaf `f i` at place `i`.
abbrev pub moved : (ℕ → ℕ) → ℕ → List (List ℕ) → List (List ℕ)
moved f i [] = []
moved f i (chal ∷ chals) = at_leaf (f i) chal ∷ moved f (suc i) chals

abbrev pub with_indices : (ℕ → ℕ) → SpaceProof → SpaceProof
with_indices f proof = record proof { proofs = renamed f 0 proof.proofs }

length-moved : (f : ℕ → ℕ) (i : ℕ) (chals : List (List ℕ)) → length (moved f i chals) ≡ length chals
length-moved f i [] = refl
length-moved f i (chal ∷ chals) = ap suc (length-moved f (suc i) chals)

renamed_at :
    (f : ℕ → ℕ) (i j : ℕ) (proofs : List MhtProof) (mht : MhtProof)
    → get_elem? proofs j ≡ some mht
    → get_elem? (renamed f i proofs) j ≡ some (record mht { index = f (i + j) })
renamed_at f i j [] mht h = cc
renamed_at f i zero (m ∷ proofs) mht h =
    let same : i + 0 ≡ i = omega arith in let e : m ≡ mht = cc in rw (same, e) refl
renamed_at f i (suc j) (m ∷ proofs) mht h =
    let same : suc i + j ≡ i + suc j = omega arith in
    rw same at (renamed_at f (suc i) j proofs mht h)

leaf_moved :
    (chal : List ℕ) (file leaf leaf' : ℕ)
    → get_elem? chal 0 ≡ some file
    → get_elem? chal 1 ≡ some leaf
    → (get_elem? (at_leaf leaf' chal) 0 ≡ some file)
      × (get_elem? (at_leaf leaf' chal) 1 ≡ some leaf')
leaf_moved [] file leaf leaf' h k = cc
leaf_moved (x ∷ []) file leaf leaf' h k = cc
leaf_moved (x ∷ y ∷ rest) file leaf leaf' h k = (h, refl)

module _ ⦃c : Crypto⦄ where
  moved-AllMet :
      (f : ℕ → ℕ) (key : RsaKey) (acc id : Bytes) (proof : SpaceProof) (i : ℕ)
      (chals : List (List ℕ))
      → AllMet key acc id proof i chals
      → AllMet key acc id (with_indices f proof) i (moved f i chals)
  moved-AllMet f key acc id proof i [] met = tt
  moved-AllMet f key acc id proof i (chal ∷ chals) ((file, leaf, file_at, leaf_at, met), rest) =
      let (file_at', leaf_at') = leaf_moved chal file leaf (f i) file_at leaf_at in
      let first : 0 + i ≡ i = omega arith in
      let met' : Met key acc id (with_indices f proof) i file (f i) = record {
        mht = record met.mht { index = f i };
        root = met.root;
        chain = met.chain;
        mht_at = rw first at (renamed_at f 0 i proof.proofs met.mht met.mht_at);
        root_at = met.root_at;
        chain_at = met.chain_at;
        index_named = refl;
        label_shown = met.label_shown;
        label_in_chain = met.label_in_chain;
        chain_leads = met.chain_leads;
      } in
      ((file, f i, file_at', leaf_at', met'), moved-AllMet f key acc id proof (suc i) chals rest)

  -- A space proof that `VerifySpace` accepts, with roots of the size of a digest, is also accepted for
  -- any other leaves `f i` of the same files, when only its own index fields are set to these: the
  -- labels and the paths stay those of the first leaves.
  pub verify_space-moved :
      (v : Verifier) (id : Bytes) (chals : List (List ℕ)) (proof : SpaceProof) (prover : ProverNode)
      (f : ℕ → ℕ)
      → find_node id v.nodes ≡ some prover
      → RootsFit proof
      → verify_space v id chals proof ≡ ok tt
      → verify_space v id (moved f 0 chals) (with_indices f proof) ≡ ok tt
  verify_space-moved v id chals proof prover f found sizes accepted =
      let (many, met) = (verify_space_iff v id chals proof prover found sizes).0 accepted in
      (verify_space_iff v id (moved f 0 chals) (with_indices f proof) prover found sizes).1
        (length-moved f 0 chals ∙ many, moved-AllMet f v.key prover.acc id proof 0 chals met)
