-- ===== src/Verify/Nodewise.antt =====
-- What the tests of `VerifyCommitProofs` of pois/verify.go show of one node.
use cess_pos_demo.Common.{
  ℕ, ◌+◌, ◌-◌, ◌*◌, ◌/◌, true, false, List, [], ◌∷◌, ◌++◌, length, drop, All, length-append,
  length-drop, get_elem?, some, ltb, leb, if◌then◌else◌, ◌≡◌, refl, sym, ap, ◌∙◌, arith, ◌⊎◌, inl,
  inr, Whenever, Whenever-map, Whenever-bind,
}
use mathlib.Core.List.{append_assoc}
use cess_pos_demo.BigInt.{Bytes, equal}
use cess_pos_demo.BigInt.Bytes.{eq_of_equal}
use cess_pos_demo.Crypto.{Crypto}
use cess_pos_demo.Encoding.{hash_size, get_bytes, get_hash}
use cess_pos_demo.Encoding.Laws.{concat, write_at-append, copy_data-front}
use cess_pos_demo.Mht.Levels.{take-length}
use cess_pos_demo.Expander.Idle.{node_type_size}
use cess_pos_demo.Expander.Idle.Contents.{front_of, length-front_of}
use cess_pos_demo.Verify.{label_mismatch, path_mismatch}
use cess_pos_demo.Verify.Guards.{at_index, past}
use cess_pos_demo.Verify.Checks.{MhtProof}
use cess_pos_demo.Verify.Commits.{
  CommitProof, front_size, shows, check_parents, check_label, check_node,
}

abbrev pub labels_in : List MhtProof → List Bytes
labels_in [] = []
labels_in (m ∷ proofs) = m.label ∷ labels_in proofs

none_left : (rest : Bytes) → length rest ≡ 0 → rest ≡ []
none_left [] h = refl
none_left (x ∷ xs) h = absurd (omega arith)

module _ ⦃c : Crypto⦄ where
  -- Each parent is shown below the root of its layer.
  abbrev pub ParentsShown : ℕ → List Bytes → ℕ → List MhtProof → Type 0
  ParentsShown n roots layer [] = Unit {0}
  ParentsShown n roots layer (p ∷ parents) =
      ((root : Bytes) × (get_elem? roots (if leb (layer * n) p.index then layer else layer - 1)
          ≡ some root)
        × (shows root p ≡ true))
      × ParentsShown n roots layer parents

  check_parents-ParentsShown :
      (n : ℕ) (roots : List Bytes) (layer : ℕ) (parents : List MhtProof) (front rest : Bytes)
      → All (λ p. length p.label ≡ hash_size) parents
      → length rest ≡ length parents * hash_size
      → Whenever
          (check_parents n roots layer (front ++ rest) (length front) parents)
          (λ out. (out ≡ front ++ concat (labels_in parents)) × ParentsShown n roots layer parents)
  unfolding check_parents
  check_parents-ParentsShown n roots layer [] front rest sizes h =
      (ap (λ t. front ++ t) (none_left rest h), tt)
  check_parents-ParentsShown n roots layer (p ∷ parents) front rest sizes h =
      let Q : Bytes → Type 0 = λ out.
        (out ≡ front ++ concat (labels_in (p ∷ parents)))
        × ParentsShown n roots layer (p ∷ parents) in
      let size = sizes.0 in
      let both = length-append front rest in
      let left = length-drop (length p.label) rest in
      let fits : ltb (length (front ++ rest)) (length front + hash_size) ≡ false = ground arith in
      let next : length front + hash_size ≡ length (front ++ p.label) =
        omega (arith, length-append front p.label) in
      at_index (get_elem? roots (if leb (layer * n) p.index then layer else layer - 1)) _ Q
        (λ root found. past (shows root p) path_mismatch _ Q (λ shown.
          rw (fits, take-length p.label hash_size size, write_at-append front p.label rest, next)
            (Whenever-map _ _ Q
              (check_parents-ParentsShown n roots layer parents (front ++ p.label)
                (drop (length p.label) rest) sizes.1 (omega arith))
              (λ out (same, all). (
                same ∙ append_assoc front p.label (concat (labels_in parents)),
                ((root, found, shown), all),
              )))))

  length-labels_in :
      (parents : List MhtProof)
      → All (λ p. length p.label ≡ hash_size) parents
      → length (concat (labels_in parents)) ≡ length parents * hash_size
  length-labels_in [] sizes = refl
  length-labels_in (p ∷ parents) sizes =
      let size = sizes.0 in
      omega (
        arith,
        length-append p.label (concat (labels_in parents)),
        length-labels_in parents sizes.1,
      )

  -- The proof of a node has no parents, or `D + 1` of them with labels of the size of a digest.
  abbrev pub IsFull : ℕ → CommitProof → Type 0
  IsFull d proof =
      (proof.parents ≡ [])
      ⊎ ((length proof.parents ≡ d + 1) × All (λ p. length p.label ≡ hash_size) proof.parents)

  -- The node `idx` of the file: its label is shown below the root, its parents' labels below those of
  -- their layers, and its label is the digest of the ID, the file, `idx` and its parents' labels.
  pub record NodeShown (n : ℕ) (id : Bytes) (file : ℕ) (roots : List Bytes) (root : Bytes) (idx : ℕ)
      (proof : CommitProof) : Type 0 where
    pub node_shown : shows root proof.node ≡ true
    pub parents_shown : ParentsShown n roots (idx / n) proof.parents
    pub label :
        (proof.parents ≡ [])
        ⊎ (proof.node.label ≡ get_hash (front_of id file idx ++ concat (labels_in proof.parents)))

  label_shown :
      (n d : ℕ) (id : Bytes) (file : ℕ) (roots : List Bytes) (root : Bytes) (idx : ℕ)
      (proof : CommitProof) (label : Bytes)
      → IsFull d proof
      → length label ≡ front_size id + (d + 1) * hash_size
      → shows root proof.node ≡ true
      → Whenever
          (check_label n id file roots (idx / n) idx proof label)
          (λ label'. (length label' ≡ length label) × NodeShown n id file roots root idx proof)
  unfolding check_label
  label_shown n d id file roots root idx proof label (inl none_there) size shown =
      let skipped : leb (length proof.parents) 0 ≡ true = rw none_there refl in
      rw skipped (
        refl,
        record { node_shown = shown; parents_shown = rw none_there tt; label = inl none_there },
      )
  label_shown n d id file roots root idx proof label (inr (number, sizes)) size shown =
      let Q : Bytes → Type 0 =
        λ label'. (length label' ≡ length label) × NodeShown n id file roots root idx proof in
      let looked_at : leb (length proof.parents) 0 ≡ false = ground arith in
      let front : Bytes = front_of id file idx in
      let front_length = length-front_of id file idx in
      let rest : Bytes = drop (length front) label in
      let rest_length = length-drop (length front) label in
      let order : front_size id ≡ length front = omega arith in
      let filled =
        copy_data-front label (id ∷ get_bytes 8 file ∷ get_bytes node_type_size idx ∷ [])
          (omega arith) in
      let whole = length-labels_in proof.parents sizes in
      rw (looked_at, filled, order)
        (Whenever-bind _ _
          (λ out.
            (out ≡ front ++ concat (labels_in proof.parents))
            × ParentsShown n roots (idx / n) proof.parents)
          Q
          (check_parents-ParentsShown n roots (idx / n) proof.parents front rest sizes
            (omega arith))
          (λ out (same, all).
            past (equal (get_hash out) proof.node.label) label_mismatch _ Q (λ equal_labels. (
              ap (length {A = ℕ}) same
                  ∙ omega (arith, length-append front (concat (labels_in proof.parents))),
              record {
                node_shown = shown;
                parents_shown = all;
                label = inr (sym (eq_of_equal _ proof.node.label equal_labels) ∙ ap get_hash same);
              },
            ))))

  pub check_node-NodeShown :
      (n d : ℕ) (id : Bytes) (file : ℕ) (roots : List Bytes) (root : Bytes) (idx : ℕ)
      (proof : CommitProof) (label : Bytes)
      → IsFull d proof
      → length label ≡ front_size id + (d + 1) * hash_size
      → Whenever
          (check_node n id file (roots, root) idx proof label)
          (λ label'. (length label' ≡ length label) × NodeShown n id file roots root idx proof)
  unfolding check_node
  check_node-NodeShown n d id file roots root idx proof label full size =
      past (shows root proof.node) path_mismatch _
        (λ label'. (length label' ≡ length label) × NodeShown n id file roots root idx proof)
        (label_shown n d id file roots root idx proof label full size)
