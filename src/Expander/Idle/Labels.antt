-- ===== src/Expander/Idle/Labels.antt =====
-- The labels of one layer that `GenerateIdleFile` of expanders/generate_idle_file.go makes.
use native.Mathlib.Nat.{mod-eq_of_lt, add-mul-mod_self_right, div-eq_of_lt}
use cess_pos_demo.Common.{
  ℕ, zero, suc, ◌+◌, ◌-◌, ◌*◌, ◌/◌, ◌%◌, ◌≤◌, ◌<◌, true, false, List, [], ◌∷◌, ◌++◌, length, take,
  All, length-append, ltb, ◌==◌, ◌≡◌, ◌≢◌, refl, ap, ◌∙◌, arith, inl, inr, Bool-cases, ok,
}
use cess_pos_demo.BigInt.{Bytes}
use cess_pos_demo.Crypto.{Crypto, hash_sum}
use cess_pos_demo.Encoding.{hash_size, write_at}
use cess_pos_demo.Encoding.Laws.{concat}
use cess_pos_demo.Mht.Slots.{slot, slot-write_at_same, slot-write_at_other, length-write_at}
use cess_pos_demo.Mht.Levels.{take-length, length-digest}
use cess_pos_demo.Expander.{Expanders}
use cess_pos_demo.Expander.Parents.{Node}
use cess_pos_demo.Expander.Draw.{calc_parents}
use cess_pos_demo.Expander.Draw.Free.{All-of_member}
use cess_pos_demo.Expander.Draw.Degree.{calc_parents-degree}
use cess_pos_demo.Expander.Idle.{new_node, label_left_size, node_content, label_nodes}
use cess_pos_demo.Expander.Idle.Contents.{
  labels_of, front_of, node_content-full, length-labels_of, length-node_content, length-front_of,
}

All-map : (P Q : ℕ → Type 0) (xs : List ℕ) → ((p : ℕ) → P p → Q p) → All P xs → All Q xs
All-map P Q [] h a = tt
All-map P Q (x ∷ xs) h a = (h x a.0, All-map P Q xs h a.1)

slot_fits :
    (n t : ℕ) (labels : Bytes)
    → t < n
    → length labels ≡ n * hash_size
    → (t + 1) * hash_size ≤ length labels
slot_fits n t labels h l = omega arith

-- The place of a value of layer `i` in its layer.
place : (n i p : ℕ) → i * n ≤ p → p < i * n + n → p % n ≡ p - i * n
place n i p low high =
    let e : p ≡ p - i * n + i * n = omega arith in
    ap (λ t. t % n) e ∙ add-mul-mod_self_right (p - i * n) i n ∙ mod-eq_of_lt (omega arith)

-- A write behind the labels that are read changes none of them.
labels_of-write :
    (n i : ℕ) (above labels : Bytes) (t : ℕ) (d : Bytes) (parents : List ℕ)
    → t < n
    → length d ≡ hash_size
    → length labels ≡ n * hash_size
    → All (λ p. p < t + n * i) parents
    → labels_of n i above (write_at (t * hash_size) d labels) parents
      ≡ labels_of n i above labels parents
labels_of-write n i above labels t d [] h e l a = refl
labels_of-write n i above labels t d (p ∷ parents) h e l a =
    let rest = labels_of-write n i above labels t d parents h e l a.1 in
    let below = a.0 in
    elim (Bool-cases (ltb p (i * n))) [
      | inl q ↦ rw (q, rest)
      | inr q ↦
          let swap : i * n ≡ n * i = grind arith in
          let at = place n i p (ground arith) (omega arith) in
          let other : p % n ≢ t = λ same. absurd (ground arith) in
          rw (
            q,
            rest,
            slot-write_at_other hash_size t (p % n) d labels e (slot_fits n t labels h l) other,
          )
    ]

module _ ⦃c : Crypto⦄ where
  -- The label of a node is the digest of the miner's ID, the file's number, its index, and the labels
  -- of its `D + 1` parents, which are among the `N` values in front of it.
  pub record IsLabelled (graph : Expanders) (id : Bytes) (count i : ℕ) (above labels : Bytes)
      (j : ℕ) : Type 0 where
    pub node : Node
    pub drawn : calc_parents graph (new_node graph (j + graph.n * i)) id count ≡ ok (node, true)
    pub degree : length node.parents ≡ graph.d + 1
    pub behind : All (λ p. j + graph.n * i - graph.n ≤ p) node.parents
    pub before : All (λ p. p < j + graph.n * i) node.parents
    pub label :
        slot hash_size labels j
        ≡ hash_sum hash_size (
            front_of id count (j + graph.n * i)
            ++ concat (labels_of graph.n i above labels node.parents))

  module _ (graph : Expanders) (pos : 0 < graph.n) (less : graph.d < graph.n)
      (even : graph.d % 16 ≡ 0) (id : Bytes) (count : ℕ) where
    -- What is known when the nodes of layer `i` in front of `j` have their labels.
    abbrev pub Filled : ℕ → Bytes → ℕ → Bytes → Bytes → Type 0
    Filled i above j label labels =
        (length labels ≡ graph.n * hash_size)
        × (length label ≡ label_left_size id + (graph.d + 1) * hash_size)
        × ((j' : ℕ) → j' < j → 0 < i → IsLabelled graph id count i above labels j')

    IsLabelled-write :
        (i : ℕ) (above labels : Bytes) (t j : ℕ) (d : Bytes)
        → j < t
        → t < graph.n
        → length d ≡ hash_size
        → length labels ≡ graph.n * hash_size
        → IsLabelled graph id count i above labels j
        → IsLabelled graph id count i above (write_at (t * hash_size) d labels) j
    IsLabelled-write i above labels t j d before inside e l h =
        let same = labels_of-write graph.n i above labels t d h.node.parents inside e l (
          All-map (λ p. p < j + graph.n * i) (λ p. p < t + graph.n * i) h.node.parents
            (λ p b. omega arith) h.before) in
        let other : j ≢ t = λ q. absurd (omega arith) in
        record {
          node = h.node;
          drawn = h.drawn;
          degree = h.degree;
          behind = h.behind;
          before = h.before;
          label =
              slot-write_at_other hash_size t j d labels e (slot_fits graph.n t labels inside l)
                other
              ∙ rw same h.label;
        }

    abbrev content : ℕ → Bytes → Bytes → Bytes → Node → Bytes
    content i above label labels node = node_content graph.n id count i above labels node label

    abbrev digest : ℕ → Bytes → Bytes → Bytes → Node → Bytes
    digest i above label labels node =
        take hash_size (hash_sum hash_size (content i above label labels node))

    length-taken : (msg : Bytes) → length (take hash_size (hash_sum hash_size msg)) ≡ hash_size
    length-taken msg =
        rw (take-length (hash_sum hash_size msg) hash_size (length-digest hash_size refl msg))
          (length-digest hash_size refl msg)

    -- One node more, from what is known of its own label.
    Filled-suc :
        (i : ℕ) (above : Bytes) (j : ℕ) (label labels label' d : Bytes)
        → j < graph.n
        → length d ≡ hash_size
        → length label' ≡ length label
        → (0 < i → IsLabelled graph id count i above (write_at (j * hash_size) d labels) j)
        → Filled i above j label labels
        → Filled i above (j + 1) label' (write_at (j * hash_size) d labels)
    Filled-suc i above j label labels label' d inside e same own (l, b, known) =
        let fits = slot_fits graph.n j labels inside l in
        let kept = length-write_at (j * hash_size) d labels (omega arith) in
        (
          omega arith,
          omega arith,
          λ j' h deep. elim (Bool-cases (ltb j' j)) [
            | inl q ↦
                IsLabelled-write i above labels j j' d (ground arith) inside e l
                  (known j' (ground arith) deep)
            | inr q ↦ let at : j' ≡ j = ground arith in rw at (own deep)
          ],
        )

    first_layer :
        (j : ℕ)
        → j < graph.n
        → calc_parents graph (new_node graph (j + graph.n * 0)) id count
          ≡ ok (new_node graph (j + graph.n * 0), true)
    unfolding calc_parents
    first_layer j h =
        let same : j + graph.n * 0 ≡ j = omega arith in
        let some_nodes : (graph.n == 0) ≡ false = ground arith in
        let top : j / graph.n ≡ 0 = div-eq_of_lt h in rw (same, some_nodes, top)

    node_step :
        (i : ℕ) (above : Bytes) (j : ℕ) (label labels : Bytes)
        → j < graph.n
        → length above ≡ graph.n * hash_size
        → Filled i above j label labels
        → (node : Node) × (calc_parents graph (new_node graph (j + graph.n * i)) id count
            ≡ ok (node, true))
          × Filled i above
              (j + 1)
              (content i above label labels node)
              (write_at (j * hash_size) (digest i above label labels node) labels)
    node_step zero above j label labels inside a f =
        let node = new_node graph (j + graph.n * 0) in
        let longer = f.1 in
        (
          node,
          first_layer j inside,
          Filled-suc 0 above j label labels _ (digest 0 above label labels node) inside
              (length-taken _)
              (length-node_content graph.n id count above labels node label (omega arith))
              (λ h. absurd (omega arith)) f,
        )
    node_step (suc i) above j label labels inside a f =
        let behind : graph.n ≤ j + graph.n * suc i =
          let e : graph.n * suc i ≡ graph.n * i + graph.n = grind arith in omega arith in
        let (node, drawn, at, degree, sorted, range, first) =
          calc_parents-degree graph (new_node graph (j + graph.n * suc i)) id count pos less even
            behind refl refl in
        let l = f.0 in
        let longer = f.1 in
        let full =
          node_content-full graph.n id count (suc i) above labels node label pos (omega arith)
            (omega arith) a l (rw degree longer) in
        let msg : Bytes =
          front_of id count node.index
          ++ concat (labels_of graph.n (suc i) above labels node.parents) in
        let size =
          ap (length {A = ℕ}) full
          ∙ length-append (front_of id count node.index)
              (concat (labels_of graph.n (suc i) above labels node.parents)) in
        let front = length-front_of id count node.index in
        let behind_front = length-labels_of graph.n (suc i) above labels node.parents pos a l in
        let before =
          All-of_member (λ p. p < j + graph.n * suc i) node.parents (λ p m. (range p m).1) in
        let d : Bytes = digest (suc i) above label labels node in
        let kept =
          labels_of-write graph.n (suc i) above labels j d node.parents inside (length-taken _) l
            before in
        let fits = slot_fits graph.n j labels inside l in
        (
          node,
          drawn,
          Filled-suc (suc i) above j label labels _ d inside (length-taken _) (omega arith)
              (λ deep. record {
                node = node;
                drawn = drawn;
                degree = degree;
                behind =
                    All-of_member (λ p. j + graph.n * suc i - graph.n ≤ p) node.parents
                      (λ p m. (range p m).0);
                before = before;
                label =
                    slot-write_at_same hash_size j d labels (length-taken _) fits
                    ∙ take-length (hash_sum hash_size _) hash_size (length-digest hash_size refl _)
                    ∙ ap (hash_sum hash_size) (full ∙ rw (at, kept));
              })
              f,
        )

    pub label_nodes-Filled :
        (rounds i : ℕ) (above : Bytes) (j : ℕ) (label labels : Bytes)
        → j + rounds ≡ graph.n
        → length above ≡ graph.n * hash_size
        → Filled i above j label labels
        → (label' : Bytes) × (labels' : Bytes) × (label_nodes rounds graph id count i above j label
              labels
            ≡ ok (label', labels'))
          × Filled i above graph.n label' labels'
    unfolding label_nodes
    label_nodes-Filled zero i above j label labels e a f =
        let done : j ≡ graph.n = omega arith in (label, labels, refl, rw done at f)
    label_nodes-Filled (suc rounds) i above j label labels e a f =
        let (node, drawn, f') = node_step i above j label labels (omega arith) a f in
        rw drawn (label_nodes-Filled rounds i above (j + 1) _ _ (omega arith) a f')
