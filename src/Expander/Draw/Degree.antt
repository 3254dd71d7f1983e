-- ===== src/Expander/Draw/Degree.antt =====
-- `CalcParents` of expanders/generate_expanders.go gives a graph node all the parents that it has
-- room for.
use native.Mathlib.Nat.{mod-add-div, le-div_iff_mul-le}
use cess_pos_demo.Common.{
  ℕ, zero, suc, ◌+◌, ◌-◌, ◌*◌, ◌/◌, ◌%◌, ◌≤◌, ◌<◌, true, false, not, [], ◌∷◌, length, leb, ◌==◌,
  ◌≡◌, refl, sym, ap, ◌∙◌, arith, ok,
}
use cess_pos_demo.BigInt.{Bytes}
use cess_pos_demo.Crypto.{Crypto}
use cess_pos_demo.Encoding.{get_hash}
use cess_pos_demo.Expander.{Expanders}
use cess_pos_demo.Expander.Parents.{Node, add_parent}
use cess_pos_demo.Expander.Parents.Sorted.{IsSorted, member}
use cess_pos_demo.Expander.Parents.Insertion.{IsNode, with_parent, add_parent-IsSorted}
use cess_pos_demo.Expander.Draw.{with_plate, fill_blocks, draw_parents, calc_parents}
use cess_pos_demo.Expander.Draw.Free.{IsDrawn}
use cess_pos_demo.Expander.Draw.Fill.{Grown, Grown-none, Grown-trans, fill-Grown}

layers_of :
    (n index k r : ℕ)
    → index ≡ r + n * k
    → r < n
    → 0 < k
    → (n ≤ index) × ((k - 1) * n ≤ index - n) × (index < (k - 1) * n + n + n)
layers_of n index zero r e h pos = absurd (omega arith)
layers_of n index (suc k) r e h pos =
    let more : n * suc k ≡ k * n + n = grind arith in
    let before : suc k - 1 ≡ k = omega arith in rw before (omega arith, omega arith, omega arith)

abbrev with_only : Node → ℕ → Node
with_only node p = record node { parents = p ∷ [] }

only_member : (q p : ℕ) → member q (p ∷ []) ≡ true → q ≡ p
unfolding member
only_member q p m = ground arith

only_member' : (p : ℕ) → member p (p ∷ []) ≡ true
unfolding member
only_member' p = ground arith

not_only : (q p : ℕ) → (q == p) ≡ false → member q (p ∷ []) ≡ false
unfolding member
not_only q p h = rw h

module _ ⦃c : Crypto⦄ where
  fill_blocks-Grown :
      (rounds n base b i : ℕ) (content : Bytes) (node : Node)
      → IsDrawn n base node
      → IsNode node
      → base ≡ b * n
      → node.cap ≤ n
      → length node.parents + rounds * 16 ≤ node.cap
      → (node' : Node) × (fill_blocks rounds n base i content node ≡ ok (node', true))
        × Grown n base node (rounds * 16) node'
  unfolding fill_blocks
  fill_blocks-Grown zero n base b i content node d v e wide room =
      (node, refl, Grown-none n base node d v)
  fill_blocks-Grown (suc rounds) n base b i content node d v e wide room =
      let (node', end, g) =
        fill-Grown (5 * 16 + 1) n base b (get_hash (with_plate content i)) node 0 0 0 d v e wide
          (omega arith) (omega arith) (omega arith) (omega arith) in
      let longer = g.longer in
      let same = g.cap in
      let (node'', end', h) =
        fill_blocks-Grown rounds n base b (i + 16) (with_plate content i) node' g.drawn g.valid e
          (omega arith) (omega arith) in
      rw (end, end')
        (
          node'',
          refl,
          Grown-trans n base node 16 (rounds * 16) (suc rounds * 16) node' node'' (omega arith) g h,
        )

  -- The layer of a node in front of the first, and where the values of the layer above it begin.
  pub layers :
      (n index : ℕ)
      → 0 < n
      → 0 < index / n
      → (n ≤ index) × ((index / n - 1) * n ≤ index - n) × (index < (index / n - 1) * n + n + n)
  layers n index pos deep =
      layers_of n index (index / n) (index % n) (sym (mod-add-div index n)) (omega arith) deep

  -- The node with its first parent.
  first_parent :
      (graph : Expanders) (node : Node)
      → 0 < graph.n
      → 0 < node.index / graph.n
      → node.cap ≡ graph.d + 1
      → node.parents ≡ []
      → (node' : Node) × (add_parent node (node.index - graph.n) ≡ ok (node', true))
        × Grown graph.n ((node.index / graph.n - 1) * graph.n) node 1 node'
  unfolding with_parent
  first_parent graph node pos deep space fresh =
      let (behind, low, high) = layers graph.n node.index pos deep in
      let p : ℕ = node.index - graph.n in
      let other : (node.index == p) ≡ false = ground arith in
      let room : leb node.cap 0 ≡ false = ground arith in
      let start : with_parent node p ≡ (with_only node p, true) = rw (fresh, other, room) in
      let sorted : IsSorted node.parents = rw fresh tt in
      (
        with_only node p,
        add_parent-IsSorted node p sorted ∙ ap ok start,
        record {
          drawn = record {
            sorted = (tt, tt);
            enough = behind;
            low = low;
            high = high;
            range = λ q m. let e = only_member q p m in (omega arith, omega arith);
            first = only_member' p;
          };
          valid = ((tt, tt), omega arith, let e = not_only node.index p other in e);
          index = refl;
          cap = refl;
          longer = rw fresh refl;
        },
      )

  -- `CalcParents`, for a node without parents behind the first layer whose list has room for `D + 1`,
  -- when `D` is a multiple of 16 less than `N`: the call ends without a panic, and the node has exactly
  -- `D + 1` parents, in increasing order and so all different, each one of the `N` values in front of
  -- the node, and the node at its place in the layer above among them.
  pub calc_parents-degree :
      (graph : Expanders) (node : Node) (id : Bytes) (count : ℕ)
      → 0 < graph.n
      → graph.d < graph.n
      → graph.d % 16 ≡ 0
      → graph.n ≤ node.index
      → node.cap ≡ graph.d + 1
      → node.parents ≡ []
      → (node' : Node) × (calc_parents graph node id count ≡ ok (node', true))
        × (node'.index ≡ node.index)
        × (length node'.parents ≡ graph.d + 1)
        × IsSorted node'.parents
        × ((q : ℕ) → member q node'.parents ≡ true → (node.index - graph.n ≤ q) × (q < node.index))
        × (member (node.index - graph.n) node'.parents ≡ true)
  unfolding calc_parents draw_parents
  calc_parents-degree graph node id count pos less even behind space fresh =
      let deep : 0 < node.index / graph.n = (le-div_iff_mul-le pos).1 (omega arith) in
      let (node', added, g) = first_parent graph node pos deep space fresh in
      let longer = g.longer in
      let same = g.cap in
      let empty : length node.parents ≡ 0 = rw fresh refl in
      let some_nodes : (graph.n == 0) ≡ false = ground arith in
      let layered : (node.index / graph.n == 0) ≡ false = ground arith in
      let room : not (node.cap == graph.d + 1) ≡ false = ground arith in
      let (node'', end, h) =
        fill_blocks-Grown ((graph.d + 15) / 16) graph.n ((node.index / graph.n - 1) * graph.n)
          (node.index / graph.n - 1) 0 _ node' g.drawn g.valid refl (omega arith) (omega arith) in
      let all = h.longer in
      let at : node''.index ≡ node.index = h.index ∙ g.index in
      rw (some_nodes, layered, room, added)
        (
          node'',
          end,
          at,
          omega arith,
          h.drawn.sorted,
          rw at at h.drawn.range,
          rw at at h.drawn.first,
        )
