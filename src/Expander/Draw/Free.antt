-- ===== src/Expander/Draw/Free.antt =====
-- A graph node with less than `N` parents has a free value left, and the search in `CalcParents` of
-- expanders/generate_expanders.go finds one.
use native.Mathlib.Nat.{mod-eq_of_lt, mod-add-mod, add-mod_right, add-mul-mod_self_right}
use cess_pos_demo.Common.{
  ℕ, zero, suc, ◌+◌, ◌-◌, ◌*◌, ◌%◌, ◌≤◌, ◌<◌, Bool, true, false, ◌||◌, List, [], ◌∷◌, length, All,
  some, ltb, leb, ◌==◌, ◌≡◌, refl, sym, ap, ◌∙◌, arith, inl, inr, Bool-cases, ok,
}
use cess_pos_demo.Expander.Parents.{Node, parent_in_list}
use cess_pos_demo.Expander.Parents.Sorted.{IsSorted, member}
use cess_pos_demo.Expander.Parents.Search.{parent_in_list-IsSorted}
use cess_pos_demo.Expander.Draw.{is_taken, probe, shifted}

All-weaken : (x y : ℕ) (xs : List ℕ) → y ≤ x → All (λ z. x < z) xs → All (λ z. y < z) xs
All-weaken x y [] h a = tt
All-weaken x y (z ∷ xs) h a = let m = a.0 in (omega arith, All-weaken x y xs h a.1)

not_member_below : (v : ℕ) (xs : List ℕ) → All (λ z. v < z) xs → member v xs ≡ false
unfolding member
not_member_below v [] a = refl
not_member_below v (z ∷ xs) a = let m = a.0 in let n = not_member_below v xs a.1 in ground arith

-- Among `k` values from `lo` on, one is missing in a sorted list of less than `k` values from there on.
pub missing_value :
    (xs : List ℕ) (lo k : ℕ)
    → IsSorted xs
    → All (λ z. lo ≤ z) xs
    → length xs < k
    → (v : ℕ) × (lo ≤ v) × (v < lo + k) × (member v xs ≡ false)
unfolding member
missing_value [] lo k s a h = (lo, omega arith, omega arith, refl)
missing_value (x ∷ xs) lo k s a h = elim (Bool-cases (x == lo)) [
  | inl q ↦
      let e : x ≡ lo = ground arith in
      let (v, low, high, out) = missing_value xs (suc lo) (k - 1) s.1 (rw e at s.0) (omega arith) in
      let other : (v == x) ≡ false = ground arith in (v, omega arith, omega arith, rw (other, out))
  | inr q ↦
      let m = a.0 in
      let less : lo < x = ground arith in
      let other : (lo == x) ≡ false = ground arith in
      (
        lo,
        omega arith,
        omega arith,
        rw other (not_member_below lo xs (All-weaken x lo xs (omega arith) s.0)),
      )
]

searched :
    (node : Node) (p : ℕ)
    → IsSorted node.parents
    → (i : ℕ) × (parent_in_list node p ≡ ok (i, member p node.parents))
searched node p s = elim (parent_in_list-IsSorted node p s) [
  | inl (m, e) ↦ (0, e ∙ ap (λ t. ok (0, t)) (sym m))
  | inr (i, m, e, l, b, a) ↦ (i, e ∙ ap (λ t. ok (i, t)) (sym m))
]

or_false : (a : Bool) → (a || false) ≡ a
or_false true = refl
or_false false = refl

pub or_right : (a b : Bool) → b ≡ true → (a || b) ≡ true
or_right true b h = refl
or_right false b h = h

pub All-of_member : (P : ℕ → Type 0) (xs : List ℕ) → ((q : ℕ) → member q xs ≡ true → P q) → All P xs
unfolding member
All-of_member P [] h = tt
All-of_member P (x ∷ xs) h =
    let here : (x == x) ≡ true = ground arith in
    (h x (rw here), All-of_member P xs (λ q m. h q (or_right (q == x) (member q xs) m)))

-- The node is of a layer behind the first, its values begin at `base`, and its parents are among the
-- `n` values in front of it, the first of them included.
pub record IsDrawn (n base : ℕ) (node : Node) : Type 0 where
  pub sorted : IsSorted node.parents
  pub enough : n ≤ node.index
  pub low : base ≤ node.index - n
  pub high : node.index < base + n + n
  pub range : (q : ℕ) → member q node.parents ≡ true → (node.index - n ≤ q) × (q < node.index)
  pub first : member (node.index - n) node.parents ≡ true

module _ (n base : ℕ) (node : Node) (drawn : IsDrawn n base node) where
  is_taken_lem :
      (p : ℕ)
      → base ≤ p
      → p < base + n
      → is_taken n node p ≡ ok (member (shifted n node p) node.parents)
  unfolding is_taken shifted
  is_taken_lem p l h =
      let (i, e) = searched node (p + n) drawn.sorted in
      let (i', e') = searched node p drawn.sorted in
      elim (Bool-cases (ltb p (node.index - n))) [
        | inl q ↦
            let a : leb p (node.index - n) ≡ true = ground arith in
            let b : (p == node.index - n) ≡ false = ground arith in
            rw (q, a, e, b) (ap ok (or_false (member (p + n) node.parents)))
        | inr q ↦ elim (Bool-cases (p == node.index - n)) [
          | inl same ↦
              let at : p ≡ node.index - n = ground arith in
              let a : leb p (node.index - n) ≡ true = ground arith in
              let there : member p node.parents ≡ true = rw at drawn.first in
              rw (q, a, e, same, there) (ap ok (or_right (member (p + n) node.parents) true refl))
          | inr other ↦ let a : leb p (node.index - n) ≡ false = ground arith in rw (q, a, e')
        ]
      ]

  -- A value that is not taken, when the node has less than `n` parents.
  free_value :
      length node.parents < n
      → (p : ℕ) × (base ≤ p) × (p < base + n) × (member (shifted n node p) node.parents ≡ false)
  unfolding shifted
  free_value h =
      let all = All-of_member (λ q. node.index - n ≤ q) node.parents (λ q m. (drawn.range q m).0) in
      let (v, low, high, out) = missing_value node.parents (node.index - n) n drawn.sorted all h in
      let l = drawn.low in
      let u = drawn.high in
      let e = drawn.enough in
      elim (Bool-cases (ltb v (base + n))) [
        | inl q ↦ (
          v,
          omega arith,
          ground arith,
          let k : ltb v (node.index - n) ≡ false = ground arith in rw k out,
        )
        | inr q ↦
            let b : base + n ≤ v = ground arith in
            let k : ltb (v - n) (node.index - n) ≡ true = ground arith in
            let w : v - n + n ≡ v = omega arith in (v - n, omega arith, omega arith, rw (k, w) out)
      ]

  distance : (p t : ℕ) → base ≤ t → t < base + n → (k : ℕ) × (k < n) × ((p + 1 + k) % n + base ≡ t)
  distance p t l h =
      let m : (p + 1) % n < n = omega arith in
      elim (Bool-cases (leb ((p + 1) % n) (t - base))) [
        | inl q ↦
            let k = t - base - (p + 1) % n in
            let sum : (p + 1) % n + k ≡ t - base = ground arith in
            let e : (p + 1 + k) % n ≡ t - base =
              sym (mod-add-mod (p + 1) n k) ∙ rw sum (mod-eq_of_lt (omega arith)) in
            (k, omega arith, omega arith)
        | inr q ↦
            let k = t - base + n - (p + 1) % n in
            let sum : (p + 1) % n + k ≡ t - base + n = ground arith in
            let e : (p + 1 + k) % n ≡ t - base =
              sym (mod-add-mod (p + 1) n k)
              ∙ rw sum (add-mod_right (t - base) n ∙ mod-eq_of_lt (omega arith)) in
            (k, ground arith, omega arith)
      ]

  reaches_later :
      (b k p t : ℕ)
      → (p + 1 + k) % n + base ≡ t
      → member (shifted n node t) node.parents ≡ false
      → member (shifted n node ((p + 1) % n + base)) node.parents ≡ true
      → 0 < k
  reaches_later b zero p t at free m =
      let same : p + 1 + 0 ≡ p + 1 = omega arith in
      let here : (p + 1) % n + base ≡ t = rw same at at in
      let other : member (shifted n node t) node.parents ≡ true = rw here at m in cc
  reaches_later b (suc k) p t at free m = omega arith

  reaches_next :
      (b k p t : ℕ)
      → base ≡ b * n
      → 0 < n
      → 0 < k
      → (p + 1 + k) % n + base ≡ t
      → ((p + 1) % n + base + 1 + (k - 1)) % n + base ≡ t
  reaches_next b k p t e pos more at =
      let regroup : (p + 1) % n + base + 1 + (k - 1) ≡ (p + 1) % n + k + b * n = omega arith in
      rw (regroup, add-mul-mod_self_right ((p + 1) % n + k) b n, mod-add-mod (p + 1) n k) at

  -- Within `k + 1` rounds the search meets a value that is not taken `k` values on, if no other before.
  probe-reaches :
      (b k p rounds t : ℕ)
      → base ≡ b * n
      → 0 < n
      → k < rounds
      → (p + 1 + k) % n + base ≡ t
      → member (shifted n node t) node.parents ≡ false
      → (q : ℕ) × (probe rounds n base node p ≡ ok (some q))
        × (base ≤ q)
        × (q < base + n)
        × (member (shifted n node q) node.parents ≡ false)
  unfolding probe
  probe-reaches b k p zero t e pos h at free = absurd (omega arith)
  probe-reaches b k p (suc rounds) t e pos h at free =
      let next : ℕ = (p + 1) % n + base in
      let bound : (p + 1) % n < n = omega arith in
      let taken = is_taken_lem next (omega arith) (omega arith) in
      elim (Bool-cases (member (shifted n node next) node.parents)) [
        | inl m ↦
            let more : 0 < k = reaches_later b k p t at free m in
            let on : (next + 1 + (k - 1)) % n + base ≡ t = reaches_next b k p t e pos more at in
            rw (taken, m) (probe-reaches b (k - 1) next rounds t e pos (omega arith) on free)
        | inr m ↦ rw (taken, m) (next, refl, omega arith, omega arith, m)
      ]

  -- The search of `CalcParents` finds a value that is not taken, when the node has less than `n` parents.
  pub probe-finds :
      (b p : ℕ)
      → base ≡ b * n
      → length node.parents < n
      → (q : ℕ) × (probe n n base node p ≡ ok (some q))
        × (base ≤ q)
        × (q < base + n)
        × (member (shifted n node q) node.parents ≡ false)
  probe-finds b p e h =
      let (t, low, high, free) = free_value h in
      let (k, less, at) = distance p t low high in
      probe-reaches b k p n t e (omega arith) less at free
