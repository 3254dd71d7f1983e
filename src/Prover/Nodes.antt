-- ===== src/Prover/Nodes.antt =====
-- The proof of one node of a stored idle file by `generateCommitProof` of pois/prove.go, and what
-- `VerifyCommitProofs` of pois/verify.go makes of it.
use native.Mathlib.Nat.{mod-add-div}
use mathlib.Core.Path.{subst}
use cess_pos_demo.Common.{
  ℕ, suc, ◌+◌, ◌-◌, ◌*◌, ◌/◌, ◌%◌, ◌^◌, ◌≤◌, ◌<◌, true, false, List, [], ◌∷◌, ◌++◌, length, All,
  length-append, get_elem?, some, ltb, leb, ◌==◌, ◌≡◌, refl, sym, ap, ◌∙◌, arith, ok, Returns,
}
use cess_pos_demo.BigInt.{Bytes, equal}
use cess_pos_demo.BigInt.Bytes.{equal_refl}
use cess_pos_demo.Crypto.{Crypto, hash_sum}
use cess_pos_demo.Encoding.{hash_size, get_bytes, get_hash, copy_data}
use cess_pos_demo.Encoding.Laws.{concat}
use cess_pos_demo.Mht.Levels.{take-length}
use cess_pos_demo.Expander.{Expanders}
use cess_pos_demo.Expander.Parents.{Node}
use cess_pos_demo.Expander.Draw.{calc_parents}
use cess_pos_demo.Expander.Idle.{node_type_size, label_left_size, put_labels, new_node}
use cess_pos_demo.Expander.Idle.Contents.{
  labels_of, front_of, put_labels-full, length-copied, length-front_of, length-labels_of,
}
use cess_pos_demo.Expander.Idle.Labels.{IsLabelled}
use cess_pos_demo.Verify.Checks.{MhtProof}
use cess_pos_demo.Verify.Commits.{CommitProof, front_size, check_parents, check_label, check_node}
use cess_pos_demo.Prover.{Disk, read_file_to_buf, with_parents, generate_commit_proof}
use cess_pos_demo.Prover.Commits.{indices, root_in, node_proof-shown, parents_accepted}

pub read_file_to_buf-whole :
    (content : Bytes) (size : ℕ)
    → length content ≡ size
    → 0 < size
    → read_file_to_buf (some content) size ≡ ok content
unfolding read_file_to_buf
read_file_to_buf-whole content size e pos =
    let some_bytes : (size == 0) ≡ false = ground arith in
    let enough : ltb (length content) size ≡ false = ground arith in
    rw (some_bytes, enough, take-length content size e)

module _ ⦃c : Crypto⦄ where
  -- An idle file on the prover's disk whose layers are labelled, and a commit with their roots.
  pub record IsStored (graph : Expanders) (id : Bytes) (count : ℕ) (disk : Disk)
      (roots : List Bytes) (slices layers : ℕ → Bytes) : Type 0 where
    pub size : (i : ℕ) → i ≤ graph.k → length (layers i) ≡ graph.n * hash_size
    pub there : (i : ℕ) → i ≤ graph.k → disk.layer count i ≡ some (layers i)
    pub built : (i : ℕ) → i ≤ graph.k → length (slices i) ≡ length (layers i)
    pub rooted : (i : ℕ) → i ≤ graph.k → get_elem? roots i ≡ some (root_in (slices i) (layers i))
    pub labelled :
        (i j : ℕ)
        → 0 < i
        → i ≤ graph.k
        → j < graph.n
        → IsLabelled graph id count i (layers (i - 1)) (layers i) j

  length-indices : (proofs : List MhtProof) → length (indices proofs) ≡ length proofs
  length-indices [] = refl
  length-indices (m ∷ proofs) = ap suc (length-indices proofs)

  -- The verifier's buffer with the label of a node behind the first layer.
  label_accepted :
      (n : ℕ) (id : Bytes) (count : ℕ) (roots : List Bytes) (i index : ℕ) (above labels : Bytes)
      (node : Node) (proof : CommitProof) (label : Bytes)
      → 0 < n
      → 0 < i
      → 0 < length node.parents
      → length above ≡ n * hash_size
      → length labels ≡ n * hash_size
      → length label ≡ front_size id + length node.parents * hash_size
      → indices proof.parents ≡ node.parents
      → ((at : ℕ) (buf : Bytes)
          → at + length node.parents * hash_size ≤ length buf
          → check_parents n roots i buf at proof.parents
            ≡ ok (put_labels n i above labels node.parents at buf))
      → proof.node.label
        ≡ hash_sum hash_size
            (front_of id count index ++ concat (labels_of n i above labels node.parents))
      → Returns
          (check_label n id count roots i index proof label)
          (λ label'. length label' ≡ length label)
  unfolding check_label
  label_accepted n id count roots i index above labels node proof label pos deep many a l b same
        checked own =
      let number : length node.parents ≡ length proof.parents =
        ap (length {A = ℕ}) (sym same) ∙ length-indices proof.parents in
      let some_parents : leb (length proof.parents) 0 ≡ false = ground arith in
      let kept = length-copied id count index label (omega arith) in
      let order : front_size id ≡ label_left_size id = omega arith in
      let full =
        put_labels-full n id count i index above labels node.parents label pos a l (omega arith) in
      let msg : Bytes =
        front_of id count index ++ concat (labels_of n i above labels node.parents) in
      let filled : check_parents n roots i
            (copy_data label (id ∷ get_bytes 8 count ∷ get_bytes node_type_size index ∷ []))
            (front_size id) proof.parents
          ≡ ok msg =
        checked (front_size id) _ (omega arith) ∙ ap ok (rw order full) in
      let equal_labels : equal (get_hash msg) proof.node.label ≡ true =
        rw own (unfold get_hash in equal_refl (hash_sum hash_size msg)) in
      let front = length-front_of id count index in
      let behind = length-labels_of n i above labels node.parents pos a l in
      rw (some_parents, filled, equal_labels)
        (
          msg,
          refl,
          omega (
            arith,
            length-append (front_of id count index)
                (concat (labels_of n i above labels node.parents)),
          ),
        )

  -- A proof of the node `index` that passes the verifier's tests of it, whatever the buffer held.
  pub record IsAccepted (graph : Expanders) (id : Bytes) (count : ℕ) (roots : List Bytes)
      (root : Bytes) (index : ℕ) (proof : CommitProof) : Type 0 where
    pub of_node : proof.node.index ≡ index
    pub degree : 0 < index / graph.n → length (indices proof.parents) ≡ graph.d + 1
    pub behind : All (λ p. index - graph.n ≤ p) (indices proof.parents)
    pub before : All (λ p. p < index) (indices proof.parents)
    pub checked :
        (label : Bytes)
        → length label ≡ front_size id + (graph.d + 1) * hash_size
        → Returns
            (check_node graph.n id count (roots, root) index proof label)
            (λ label'. length label' ≡ length label)

  module _ (graph : Expanders) (e : ℕ) (power : graph.n ≡ 2 ^ e) (some_levels : 0 < e)
      (pos : 0 < graph.n) (id : Bytes) (count : ℕ) (disk : Disk) (roots : List Bytes)
      (slices layers : ℕ → Bytes) (stored : IsStored graph id count disk roots slices layers)
      (slice above_slice : Bytes) (s1 : length slice ≡ graph.n * hash_size)
      (s2 : length above_slice ≡ graph.n * hash_size) where
    abbrev root_at : ℕ → Bytes
    root_at i = root_in (slices i) (layers i)

    -- A node of the first layer has no parents, and its label is not looked at.
    pub first_layer-IsAccepted :
        (index : ℕ)
        → index / graph.n ≡ 0
        → Returns
            (generate_commit_proof graph id disk slice above_slice count index)
            (IsAccepted graph id count roots (root_at 0) index)
    unfolding generate_commit_proof check_node check_label
    first_layer-IsAccepted index top =
        let l = stored.size 0 (omega arith) in
        let s = stored.built 0 (omega arith) in
        let some_nodes : (graph.n == 0) ≡ false = ground arith in
        let inside : ltb graph.k 0 ≡ false = ground arith in
        let read = read_file_to_buf-whole (layers 0) (graph.n * hash_size) l (omega arith) in
        let (m, made, (own, label, shown)) =
          node_proof-shown graph.n e power some_levels (layers 0) slice (slices 0) index
            (index % graph.n) l (omega arith) s (omega arith) in
        rw (some_nodes, top, inside, stored.there 0 (omega arith), read, made)
          (
            _,
            refl,
            record {
              of_node = own;
              degree = λ deep. absurd (omega arith);
              behind = tt;
              before = tt;
              checked = λ buf size. rw shown (buf, refl, refl);
            },
          )

    -- A node behind it has its parents, and its label is the digest of theirs.
    pub later_layer-IsAccepted :
        (index : ℕ)
        → 0 < index / graph.n
        → index / graph.n ≤ graph.k
        → Returns
            (generate_commit_proof graph id disk slice above_slice count index)
            (IsAccepted graph id count roots (root_at (index / graph.n)) index)
    unfolding generate_commit_proof with_parents check_node
    later_layer-IsAccepted index deep inside =
        let i : ℕ = index / graph.n in
        let place : ℕ = index % graph.n in
        let l = stored.size i inside in
        let a = stored.size (i - 1) (omega arith) in
        let s3 = stored.built i inside in
        let s4 = stored.built (i - 1) (omega arith) in
        let whole : place + graph.n * i ≡ index = mod-add-div index graph.n in
        let lab = stored.labelled i place deep inside (omega arith) in
        let drawn : calc_parents graph (new_node graph index) id count ≡ ok (lab.node, true) =
          rw whole at lab.drawn in
        let degree = lab.degree in
        let behind : All (λ p. index - graph.n ≤ p) lab.node.parents =
          subst (λ t. All (λ p. t - graph.n ≤ p) lab.node.parents) whole lab.behind in
        let before : All (λ p. p < index) lab.node.parents =
          subst (λ t. All (λ p. p < t) lab.node.parents) whole lab.before in
        let some_nodes : (graph.n == 0) ≡ false = ground arith in
        let below : ltb graph.k i ≡ false = ground arith in
        let later : (i == 0) ≡ false = ground arith in
        let read = read_file_to_buf-whole (layers i) (graph.n * hash_size) l (omega arith) in
        let read_above =
          read_file_to_buf-whole (layers (i - 1)) (graph.n * hash_size) a (omega arith) in
        let (m, made, (own, label, shown)) =
          node_proof-shown graph.n e power some_levels (layers i) slice (slices i) index place l
            (omega arith) s3 (omega arith) in
        let (proofs, made_parents, (same, checked)) =
          parents_accepted graph.n e power some_levels roots i (layers i) (layers (i - 1)) slice
            above_slice (slices i) (slices (i - 1)) l a (omega arith) (omega arith) s3 s4
            (stored.rooted i inside) (stored.rooted (i - 1) (omega arith)) pos lab.node.parents in
        let digest : m.label
            ≡ hash_sum hash_size (
                front_of id count index
                ++ concat (labels_of graph.n i (layers (i - 1)) (layers i) lab.node.parents)) =
          label ∙ (rw whole at lab.label) in
        rw
          (
            some_nodes,
            below,
            stored.there i inside,
            read,
            made,
            later,
            drawn,
            stored.there (i - 1) (omega arith),
            read_above,
            made_parents,
          )
          (
            _,
            refl,
            record {
              of_node = own;
              degree = λ h. rw same degree;
              behind = rw same behind;
              before = rw same before;
              checked = λ buf size.
                  let checked_label =
                    label_accepted graph.n id count roots i index (layers (i - 1)) (layers i)
                      lab.node (record { node = m; parents = proofs }) buf pos deep (omega arith) a
                      l (rw degree size) same checked digest in
                  rw shown checked_label;
            },
          )
