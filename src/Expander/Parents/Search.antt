-- ===== src/Expander/Parents/Search.antt =====
-- `ParentInList` of expanders/expander.go on a sorted list: it finds the members, and for another
-- value the index where it belongs.
use cess_pos_demo.Common.{
  ℕ, zero, suc, ◌+◌, ◌-◌, ◌/◌, ◌<◌, ◌≤◌, Bool, true, false, List, length, get_elem?, get_elem?-lt,
  lt-get_elem?, some, none, Option, ltb, leb, ◌==◌, ◌≡◌, refl, sym, arith, ◌⊎◌, inl, inr,
  Bool-cases, ==_iff, Run, ok, ◌>>=◌,
}
use cess_pos_demo.Expander.Parents.Sorted.{
  IsSorted, IsSorted-lt, Below, Above, member, member-at, at-member,
}
use cess_pos_demo.Expander.Parents.{
  Node, no_parents, next_bounds, bisect, insertion_point, parent_in_list,
}

-- What the search comes to: the parent is there, or the loop ends with both bounds at the place
-- between the smaller and the greater values.
data Found (xs : List ℕ) (p : ℕ) : Run ⊥ (Option (ℕ × ℕ)) → Type 0 where
  present : (i : ℕ) → get_elem? xs i ≡ some p → Found xs p (ok none)
  absent : (i : ℕ) → i ≤ length xs → Below xs i p → Above xs i p → Found xs p (ok (some (i, i)))

Above-at : (xs : List ℕ) (p m v : ℕ) → IsSorted xs → get_elem? xs m ≡ some v → p < v → Above xs m p
Above-at xs p m v s h l j w k g = elim (Bool-cases (j == m)) [
  | inl e ↦
      let q : get_elem? xs m ≡ some w = rw (sym ((==_iff j m).0 e)) g in
      let r : v ≡ w = cc in omega arith
  | inr e ↦
      let m<j : m < j = ground arith in let r = IsSorted-lt xs m j v w s m<j h g in omega arith
]

Below-after :
    (xs : List ℕ) (p m v : ℕ) → IsSorted xs → get_elem? xs m ≡ some v → v < p → Below xs (m + 1) p
Below-after xs p m v s h l j w k g = elim (Bool-cases (j == m)) [
  | inl e ↦
      let q : get_elem? xs m ≡ some w = rw (sym ((==_iff j m).0 e)) g in
      let r : v ≡ w = cc in omega arith
  | inr e ↦
      let j<m : j < m = ground arith in let r = IsSorted-lt xs j m w v s j<m g h in omega arith
]

-- What stays true of the bounds: the parent is not outside them.
abbrev Bounds : List ℕ → ℕ → ℕ × ℕ → Type 0
Bounds xs p (l, above) = (l ≤ above) × (above ≤ length xs) × Below xs l p × Above xs above p

abbrev gap : ℕ × ℕ → ℕ
gap (l, above) = above - l

next_bounds-Bounds :
    (xs : List ℕ) (p l above v : ℕ)
    → IsSorted xs
    → l < above
    → Bounds xs p (l, above)
    → get_elem? xs ((l + above - 1) / 2) ≡ some v
    → (v == p) ≡ false
    → Bounds xs p (next_bounds v p l ((l + above - 1) / 2) above)
      × (gap (next_bounds v p l ((l + above - 1) / 2) above) < above - l)
unfolding next_bounds
next_bounds-Bounds xs p l above v s h (h1, h2, b, a) g n = elim (Bool-cases (ltb p v)) [
  | inl q ↦ rw q (
    ((omega arith), (omega arith), b, Above-at xs p ((l + above - 1) / 2) v s g (ground arith)),
    omega arith,
  )
  | inr q ↦ rw q (
    ((omega arith), h2, Below-after xs p ((l + above - 1) / 2) v s g (ground arith), a),
    omega arith,
  )
]

bisect-Found :
    (fuel : ℕ) (xs : List ℕ) (p : ℕ) (bounds : ℕ × ℕ)
    → IsSorted xs
    → gap bounds ≤ fuel
    → Bounds xs p bounds
    → Found xs p (bisect fuel xs p bounds)
unfolding bisect
bisect-Found zero xs p (l, above) s g (h1, h2, b, a) =
    let e : above ≡ l = omega arith in rw e (absent l (omega arith) b (rw e at a))
bisect-Found (suc fuel) xs p (l, above) s g (h1, h2, b, a) = elim (Bool-cases (ltb l above)) [
  | inl q ↦
      let l<above : l < above = ground arith in
      let (v, at) = get_elem?-lt xs ((l + above - 1) / 2) (omega arith) in
      rw (q, at)
        (elim (Bool-cases (v == p)) [
          | inl e ↦ rw e (present ((l + above - 1) / 2) (rw (sym ((==_iff v p).0 e)) at))
          | inr e ↦
              let (kept, less) = next_bounds-Bounds xs p l above v s l<above (h1, h2, b, a) at e in
              rw e (bisect-Found fuel xs p _ s (omega arith) kept)
        ])
  | inr q ↦ let e : above ≡ l = ground arith in rw (q, e) (absent l (omega arith) b (rw e at a))
]

-- The answer of `ParentInList`: `(0, true)` for a member of the list, and for another value the
-- index in front of which the values are smaller and from which on they are greater.
abbrev pub Answer : List ℕ → ℕ → Run ⊥ (ℕ × Bool) → Type 0
Answer xs p r =
    ((member p xs ≡ true) × (r ≡ ok (0, true)))
    ⊎ ((i : ℕ) × (member p xs ≡ false)
        × (r ≡ ok (i, false))
        × (i ≤ length xs)
        × Below xs i p
        × Above xs i p)

not_member : (xs : List ℕ) (p i : ℕ) → Below xs i p → Above xs i p → member p xs ≡ false
not_member xs p i b a = elim (Bool-cases (member p xs)) [
  | inl h ↦
      let (j, e) = at-member p xs h in
      elim (Bool-cases (ltb j i)) [
        | inl q ↦ let r = b j p (ground arith) e in absurd (omega arith)
        | inr q ↦ let r = a j p (ground arith) e in absurd (omega arith)
      ]
  | inr h ↦ h
]

point-of :
    (xs : List ℕ) (p i : ℕ)
    → 0 < length xs
    → i ≤ length xs
    → Below xs i p
    → Above xs i p
    → insertion_point xs p (some (i, i)) ≡ ok (i, false)
unfolding insertion_point
point-of xs p zero l h b a =
    let (v, at) = get_elem?-lt xs 0 l in
    let q = a 0 v (omega arith) at in let r : ltb v p ≡ false = ground arith in rw (at, r)
point-of xs p (suc k) l h b a =
    let mid : (suc k + suc k - 1) / 2 ≡ k = omega arith in
    let (v, at) = get_elem?-lt xs k (omega arith) in
    let q = b k v (omega arith) at in
    let r : ltb v p ≡ true = ground arith in
    let e : k + 1 ≡ suc k = omega arith in rw (mid, at, r, e)

insertion_point-Answer :
    (xs : List ℕ) (p : ℕ) (r : Run ⊥ (Option (ℕ × ℕ)))
    → 0 < length xs
    → Found xs p r
    → Answer xs p (r >>= insertion_point xs p)
unfolding insertion_point
insertion_point-Answer xs p _ l (present i h) = inl (member-at p xs i h, refl)
insertion_point-Answer xs p _ l (absent i h b a) =
    inr (i, not_member xs p i b a, point-of xs p i l h b a, h, b, a)

-- `ParentInList` on a sorted list ends without a panic and in an `Answer`: `(0, true)` for a parent
-- that is in the list, and for another the index that separates the smaller from the greater.
pub parent_in_list-IsSorted :
    (node : Node) (p : ℕ) → IsSorted node.parents → Answer node.parents p (parent_in_list node p)
unfolding parent_in_list no_parents
parent_in_list-IsSorted node p s = elim (Bool-cases (leb (length node.parents) 0)) [
  | inl q ↦
      let none_there : (j v : ℕ) → get_elem? node.parents j ≡ some v → ⊥ =
        λ j v h. let m = lt-get_elem? node.parents j h in ground arith in
      let b : Below node.parents 0 p = λ j v l h. absurd (none_there j v h) in
      let a : Above node.parents 0 p = λ j v l h. absurd (none_there j v h) in
      rw q (inr (0, not_member node.parents p 0 b a, refl, omega arith, b, a))
  | inr q ↦
      let positive : 0 < length node.parents = ground arith in
      rw q (
        insertion_point-Answer node.parents p _ positive (
          bisect-Found (length node.parents) node.parents p (0, length node.parents) s (omega arith)
            (
              (omega arith),
              (omega arith),
              (λ j v l h. absurd (omega arith)),
              λ j v l h. let m = lt-get_elem? node.parents j h in absurd (omega arith),
            )))
]
