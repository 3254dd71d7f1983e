-- ===== src/Prover/Commits.antt =====
-- The proof of one node by `generateCommitProof` of pois/prove.go passes the tests that
-- `VerifyCommitProofs` of pois/verify.go makes of it.
use cess_pos_demo.Common.{
  ℕ, ◌+◌, ◌-◌, ◌*◌, ◌%◌, ◌^◌, ◌≤◌, ◌<◌, true, false, List, [], ◌∷◌, length, take, get_elem?, some,
  ltb, leb, if◌then◌else◌, ◌≡◌, refl, sym, ◌∙◌, arith, inl, inr, Bool-cases, ok, Returns,
}
use cess_pos_demo.BigInt.{Bytes}
use cess_pos_demo.Crypto.{Crypto}
use cess_pos_demo.Encoding.{hash_size, write_at}
use cess_pos_demo.Mht.Light.{calc_light_mht_with_bytes, get_root}
use cess_pos_demo.Mht.Slots.{slot, length-write_at}
use cess_pos_demo.Mht.Levels.{take-length}
use cess_pos_demo.Mht.Acceptance.{get_root_lem, get_path_proof-accepted}
use cess_pos_demo.Expander.Idle.{put_labels}
use cess_pos_demo.Expander.Idle.Contents.{length-parent}
use cess_pos_demo.Verify.Checks.{MhtProof}
use cess_pos_demo.Verify.Commits.{shows, check_parents}
use cess_pos_demo.Prover.{node_proof, parent_proofs}

abbrev pub indices : List MhtProof → List ℕ
indices [] = []
indices (m ∷ proofs) = m.index ∷ indices proofs

module _ ⦃c : Crypto⦄ where
  -- The root of the tree over the labels of a layer.
  abbrev pub root_in : Bytes → Bytes → Bytes
  root_in slice labels = get_root (calc_light_mht_with_bytes labels hash_size slice) hash_size

  -- One step of the verifier's loop over the parents.
  check_parents-suc :
      (n : ℕ) (roots : List Bytes) (i : ℕ) (label : Bytes) (at : ℕ) (m : MhtProof)
      (proofs : List MhtProof) (root d out : Bytes)
      → get_elem? roots (if leb (i * n) m.index then i else i - 1) ≡ some root
      → shows root m ≡ true
      → take hash_size m.label ≡ d
      → at + hash_size ≤ length label
      → check_parents n roots i (write_at at d label) (at + hash_size) proofs ≡ ok out
      → check_parents n roots i label at (m ∷ proofs) ≡ ok out
  unfolding check_parents
  check_parents-suc n roots i label at m proofs root d out found good whole room rest =
      let fits : ltb (length label) (at + hash_size) ≡ false = ground arith in
      rw (found, good, fits, whole) rest

  indices-cons :
      (m : MhtProof) (p : ℕ) (proofs : List MhtProof) (parents : List ℕ)
      → m.index ≡ p
      → indices proofs ≡ parents
      → indices (m ∷ proofs) ≡ p ∷ parents
  indices-cons m p proofs parents h same = rw (h, same)

  module _ (n e : ℕ) (power : n ≡ 2 ^ e) (some_levels : 0 < e) where
    -- The root does not depend on what the slice of the tree held before.
    pub root_in-any :
        (labels slice slice' : Bytes)
        → length labels ≡ n * hash_size
        → length slice ≡ length labels
        → length slice' ≡ length labels
        → root_in slice labels ≡ root_in slice' labels
    root_in-any labels slice slice' l s s' =
        let whole : length labels ≡ 2 ^ e * hash_size = rw power at l in
        get_root_lem hash_size refl e labels slice whole s some_levels
        ∙ sym (get_root_lem hash_size refl e labels slice' whole s' some_levels)

    -- A proof of one node: its index, its label, and a path that is accepted below the layer's root.
    pub node_proof-shown :
        (labels slice slice' : Bytes) (index place : ℕ)
        → length labels ≡ n * hash_size
        → length slice ≡ length labels
        → length slice' ≡ length labels
        → place < n
        → Returns (node_proof slice labels index place) (λ m.
          (m.index ≡ index)
          × (m.label ≡ slot hash_size labels place)
          × (shows (root_in slice' labels) m ≡ true))
    unfolding node_proof shows
    node_proof-shown labels slice slice' index place l s s' h =
        let whole : length labels ≡ 2 ^ e * hash_size = rw power at l in
        let inside : place < 2 ^ e = rw power at h in
        let (proof, made, good) =
          get_path_proof-accepted hash_size refl e labels slice place some_levels whole s inside in
        rw made (_, refl, (refl, refl, rw (root_in-any labels slice' slice l s' s) good))

    module _ (roots : List Bytes) (i : ℕ)
        (labels above slice above_slice slice' above_slice' : Bytes)
        (l : length labels ≡ n * hash_size) (a : length above ≡ n * hash_size)
        (s1 : length slice ≡ length labels) (s2 : length above_slice ≡ length above)
        (s3 : length slice' ≡ length labels) (s4 : length above_slice' ≡ length above)
        (here : get_elem? roots i ≡ some (root_in slice' labels))
        (before : get_elem? roots (i - 1) ≡ some (root_in above_slice' above)) (pos : 0 < n) where
      -- The layer that the prover takes a parent from is the one whose root the verifier takes.
      parent_shown :
          (p : ℕ)
          → Returns
              (if leb (i * n) p
                then node_proof slice labels p (p % n)
                else node_proof above_slice above p (p % n))
              (λ m.
                (m.index ≡ p)
                × (m.label ≡ slot hash_size (if ltb p (i * n) then above else labels) (p % n))
                × ((root : Bytes) × (get_elem? roots (if leb (i * n) p then i else i - 1)
                      ≡ some root)
                    × (shows root m ≡ true)))
      parent_shown p = elim (Bool-cases (leb (i * n) p)) [
        | inl q ↦
            let not_above : ltb p (i * n) ≡ false = ground arith in
            let (m, made, (index, own, good)) =
              node_proof-shown labels slice slice' p (p % n) l s1 s3 (omega arith) in
            rw (q, not_above) (m, made, (index, own, (root_in slice' labels, here, good)))
        | inr q ↦
            let is_above : ltb p (i * n) ≡ true = ground arith in
            let (m, made, (index, own, good)) =
              node_proof-shown above above_slice above_slice' p (p % n) a s2 s4 (omega arith) in
            rw (q, is_above) (m, made, (index, own, (root_in above_slice' above, before, good)))
      ]

      -- The proofs of the parents: the verifier finds each below the root of its layer, and puts their
      -- labels into its buffer as the generator of the file did.
      pub parents_accepted :
          (parents : List ℕ)
          → Returns (parent_proofs n i slice above_slice labels above parents) (λ proofs.
            (indices proofs ≡ parents)
            × ((at : ℕ) (label : Bytes)
                → at + length parents * hash_size ≤ length label
                → check_parents n roots i label at proofs
                  ≡ ok (put_labels n i above labels parents at label)))
      unfolding parent_proofs check_parents put_labels
      parents_accepted [] = (_, refl, (refl, λ at label room. refl))
      parents_accepted (p ∷ parents) =
          let (m, made, (index, own, (root, found, good))) = parent_shown p in
          let d : Bytes = slot hash_size (if ltb p (i * n) then above else labels) (p % n) in
          let size : length d ≡ hash_size =
            length-parent n (p % n) (ltb p (i * n)) above labels (omega arith) a l in
          let (proofs, rest, (same, checked)) = parents_accepted parents in
          let whole : take hash_size m.label ≡ d = rw own (take-length d hash_size size) in
          let shown : get_elem? roots (if leb (i * n) m.index then i else i - 1) ≡ some root =
            rw index found in
          rw (made, rest)
            (
              m ∷ proofs,
              refl,
              (
                indices-cons m p proofs parents index same,
                λ at label room.
                    let kept = length-write_at at d label (omega arith) in
                    check_parents-suc n roots i label at m proofs root d
                      (put_labels n i above labels parents (at + hash_size) (write_at at d label))
                      shown good whole (omega arith)
                      (checked (at + hash_size) (write_at at d label) (omega arith)),
              ),
            )
