-- ===== src/Expander/Draw/Fill.antt =====
-- The inner loop of `CalcParents` of expanders/generate_expanders.go adds sixteen parents.
use cess_pos_demo.Common.{
  ℕ, zero, suc, ◌+◌, ◌-◌, ◌*◌, ◌%◌, ◌≤◌, ◌<◌, true, false, ◌||◌, ◌&&◌, length, take, drop, some,
  ltb, leb, ◌==◌, ==_iff, ◌≡◌, refl, ap, ◌∙◌, arith, ◌⊎◌, inl, inr, Bool-cases, ok,
}
use cess_pos_demo.BigInt.{Bytes}
use cess_pos_demo.Expander.Parents.{Node, add_parent}
use cess_pos_demo.Expander.Parents.Sorted.{
  member, insert, insert-IsSorted, member-insert, length-insert,
}
use cess_pos_demo.Expander.Parents.Insertion.{with_parent, add_parent-IsSorted, IsNode}
use cess_pos_demo.Expander.Draw.{bytes_to_node_value, pick, shifted, fill}
use cess_pos_demo.Expander.Draw.Free.{IsDrawn, or_right, probe-finds}

-- `node'` is `node` with `k` parents more.
pub record Grown (n base : ℕ) (node : Node) (k : ℕ) (node' : Node) : Type 0 where
  pub drawn : IsDrawn n base node'
  pub valid : IsNode node'
  pub index : node'.index ≡ node.index
  pub cap : node'.cap ≡ node.cap
  pub longer : length node'.parents ≡ length node.parents + k

abbrev with_value : Node → ℕ → Node
with_value node q = record node { parents = insert q node.parents }

add_parent-member :
    (node : Node) (q : ℕ)
    → IsNode node
    → member q node.parents ≡ true
    → add_parent node q ≡ ok (node, false)
unfolding with_parent
add_parent-member node q v m =
    let refused : ((node.index == q)
          || (leb node.cap (length node.parents) || member q node.parents))
        ≡ true =
      ground arith in
    let e : with_parent node q ≡ (node, false) = rw refused in
    add_parent-IsSorted node q v.0 ∙ ap ok e

module _ (n base : ℕ) (node : Node) (drawn : IsDrawn n base node) (valid : IsNode node) where
  shifted_range :
      (q : ℕ)
      → base ≤ q
      → q < base + n
      → (node.index - n ≤ shifted n node q) × (shifted n node q < node.index)
  unfolding shifted
  shifted_range q l h =
      let low = drawn.low in
      let high = drawn.high in
      let e = drawn.enough in
      elim (Bool-cases (ltb q (node.index - n))) [
        | inl k ↦ rw k (ground arith, ground arith)
        | inr k ↦ rw k (ground arith, ground arith)
      ]

  add_parent-new :
      (q : ℕ)
      → (node.index - n ≤ q) × (q < node.index)
      → member q node.parents ≡ false
      → length node.parents < node.cap
      → add_parent node q ≡ ok (with_value node q, true)
  unfolding with_parent
  add_parent-new q r m room =
      let below = r.1 in
      let free : ((node.index == q)
            || (leb node.cap (length node.parents) || member q node.parents))
          ≡ false =
        ground arith in
      let e : with_parent node q ≡ (with_value node q, true) = rw free in
      add_parent-IsSorted node q valid.0 ∙ ap ok e

  in_range :
      (p q : ℕ)
      → (node.index - n ≤ q) × (q < node.index)
      → ((p == q) || member p node.parents) ≡ true
      → (node.index - n ≤ p) × (p < node.index)
  in_range p q r h = elim (Bool-cases (p == q)) [
    | inl same ↦ rw ((==_iff p q).0 same) r
    | inr other ↦ drawn.range p (rw other at h)
  ]

  with_value-Grown :
      (q : ℕ)
      → (node.index - n ≤ q) × (q < node.index)
      → member q node.parents ≡ false
      → length node.parents < node.cap
      → Grown n base node 1 (with_value node q)
  with_value-Grown q r m room =
      let longer = length-insert q node.parents in
      let itself : (node.index == q) ≡ false = let below = r.1 in ground arith in
      let sorted = insert-IsSorted q node.parents m valid.0 in
      record {
        drawn = record {
          sorted = sorted;
          enough = drawn.enough;
          low = drawn.low;
          high = drawn.high;
          range = λ p h. in_range p q r (rw (member-insert p q node.parents) at h);
          first =
              rw (member-insert (node.index - n) q node.parents, drawn.first)
                (or_right _ true refl);
        };
        valid = (sorted, omega arith, rw (member-insert node.index q node.parents, itself) valid.2);
        index = refl;
        cap = refl;
        longer = omega arith;
      }

  -- What one round picks: a value of the layer above, which is new when the digest is used up.
  picked :
      (b : ℕ) (digest : Bytes) (j s p : ℕ)
      → base ≡ b * n
      → 0 < n
      → length node.parents < n
      → s ≤ 4
      → (q : ℕ) × (t : ℕ) × (pick n base digest node j s p ≡ ok (some (q, t)))
        × (base ≤ q)
        × (q < base + n)
        × (((t ≡ s) × (s < 4)) ⊎ (member (shifted n node q) node.parents ≡ false))
  unfolding pick
  picked b digest j s p e pos room le = elim (Bool-cases (ltb s 4 && ltb j 15)) [
    | inl early ↦
        let q : ℕ = bytes_to_node_value (take 4 (drop (j * 4 + s) digest)) n % n + base in
        rw early (q, s, refl, omega arith, omega arith, inl (refl, ground arith))
    | inr late ↦
        let (q, found, low, high, free) = probe-finds n base node drawn b p e room in
        rw (late, found) (q, 0, refl, low, high, inr free)
  ]

pub Grown-none :
    (n base : ℕ) (node : Node) → IsDrawn n base node → IsNode node → Grown n base node 0 node
Grown-none n base node d v = record {
  drawn = d;
  valid = v;
  index = refl;
  cap = refl;
  longer = omega arith;
}

not_new :
    (n : ℕ) (node : Node) (q s t : ℕ)
    → ((t ≡ s) × (s < 4)) ⊎ (member (shifted n node q) node.parents ≡ false)
    → member (shifted n node q) node.parents ≡ true
    → (t ≡ s) × (s < 4)
not_new n node q s t (inl h) m = h
not_new n node q s t (inr free) m = cc

pub Grown-trans :
    (n base : ℕ) (node : Node) (k l m : ℕ) (node' node'' : Node)
    → k + l ≡ m
    → Grown n base node k node'
    → Grown n base node' l node''
    → Grown n base node m node''
Grown-trans n base node k l m node' node'' e g h =
    let longer = g.longer in
    let more = h.longer in
    record {
      drawn = h.drawn;
      valid = h.valid;
      index = h.index ∙ g.index;
      cap = h.cap ∙ g.cap;
      longer = omega arith;
    }

-- From `j` on, the inner loop ends and adds the `16 - j` parents that the capacity has room for.
pub fill-Grown :
    (fuel n base b : ℕ) (digest : Bytes) (node : Node) (j s p : ℕ)
    → IsDrawn n base node
    → IsNode node
    → base ≡ b * n
    → node.cap ≤ n
    → j ≤ 16
    → length node.parents + (16 - j) ≤ node.cap
    → s ≤ 4
    → 5 * (16 - j) - s < fuel
    → (node' : Node) × (fill fuel n base digest node j s p ≡ ok (node', true))
      × Grown n base node (16 - j) node'
unfolding fill
fill-Grown zero n base b digest node j s p d v e wide le room small enough = absurd (omega arith)
fill-Grown (suc fuel) n base b digest node j s p d v e wide le room small enough =
    let drawn_enough = d.enough in
    elim (Bool-cases (leb 16 j)) [
      | inl done ↦
          let none_left : 16 - j ≡ 0 = ground arith in
          rw (done, none_left) (node, refl, Grown-none n base node d v)
      | inr more ↦
          let early : j < 16 = ground arith in
          let (q, t, found, low, high, new) =
            picked n base node d v b digest j s p e (omega arith) (omega arith) small in
          let range = shifted_range n base node d v q low high in
          elim (Bool-cases (member (shifted n node q) node.parents)) [
            | inl old ↦
                let (same, less) = not_new n node q s t new old in
                let again =
                  fill-Grown fuel n base b digest node j (t + 1) (shifted n node q) d v e wide le
                    room (omega arith) (omega arith) in
                rw (more, found, add_parent-member node (shifted n node q) v old) again
            | inr free ↦
                let added =
                  add_parent-new n base node d v (shifted n node q) range free (omega arith) in
                let g =
                  with_value-Grown n base node d v (shifted n node q) range free (omega arith) in
                let longer = g.longer in
                let (node', end, h) =
                  fill-Grown fuel n base b digest (with_value node (shifted n node q)) (j + 1) 0
                    (shifted n node q) g.drawn g.valid e wide (omega arith) (omega arith)
                    (omega arith) (omega arith) in
                rw (more, found, added)
                  (
                    node',
                    end,
                    Grown-trans n base node 1 (16 - (j + 1)) (16 - j)
                        (with_value node (shifted n node q)) node' (omega arith) g h,
                  )
          ]
    ]
