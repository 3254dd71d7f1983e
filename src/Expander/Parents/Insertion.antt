-- ===== src/Expander/Parents/Insertion.antt =====
-- `AddParent` of expanders/expander.go against the ordered insertion, and the invariant of a node.
use cess_pos_demo.Common.{
  ℕ, zero, suc, ◌+◌, ◌-◌, ◌<◌, ◌≤◌, Bool, true, false, ◌||◌, ◌&&◌, List, [], ◌∷◌, ◌++◌, length, set,
  take, drop, take-length_append, leb, ◌==◌, if◌then◌else◌, ltb, ◌≡◌, refl, ap, ◌∙◌, arith, inl,
  inr, Bool-cases, ok, Returns, length-append_one,
}
use cess_pos_demo.Expander.Parents.Sorted.{
  IsSorted, member, insert, insert-between, insert-IsSorted, member-insert, length-insert,
}
use cess_pos_demo.Expander.Parents.{Node, shift_up, put_parent, add_at, parent_in_list, add_parent}
use cess_pos_demo.Expander.Parents.Search.{Answer, parent_in_list-IsSorted}

-- The reference: a node refuses itself, a parent that it has and any parent when it is full.
unfoldable pub with_parent : Node → ℕ → Node × Bool
unfolding insert member
with_parent node p =
    if (node.index == p) || (leb node.cap (length node.parents) || member p node.parents)
    then (node, false)
    else (record node { parents = insert p node.parents }, true)

set-last : (xs : List ℕ) (p : ℕ) → set (xs ++ 0 ∷ []) (length xs) p ≡ xs ++ p ∷ []
set-last [] p = refl
set-last (x ∷ xs) p = ap (λ t. x ∷ t) (set-last xs p)

split-last : (xs : List ℕ) (p : ℕ) → take (length xs) xs ++ p ∷ drop (length xs) xs ≡ xs ++ p ∷ []
split-last [] p = refl
split-last (x ∷ xs) p = ap (λ t. x ∷ t) (split-last xs p)

set-shifted :
    (xs : List ℕ) (i p n : ℕ)
    → i < length xs
    → n + i ≡ length xs
    → set (take (suc i) (xs ++ 0 ∷ []) ++ take n (drop i (xs ++ 0 ∷ []))) i p
      ≡ take i xs ++ p ∷ drop i xs
set-shifted [] i p n h e = absurd (omega arith)
set-shifted (x ∷ xs) zero p n h e =
    let q : n ≡ suc (length xs) = omega arith in
    rw q (ap (λ t. p ∷ x ∷ t) (take-length_append xs (0 ∷ [])))
set-shifted (x ∷ xs) (suc i) p n h e =
    ap (λ t. x ∷ t) (set-shifted xs i p n (omega arith) (omega arith))

set-shift_up :
    (xs : List ℕ) (i p : ℕ)
    → i < length xs
    → set (shift_up i (xs ++ 0 ∷ [])) i p ≡ take i xs ++ p ∷ drop i xs
unfolding shift_up
set-shift_up xs i p h =
    let e : length (xs ++ 0 ∷ []) ≡ suc (length xs) = length-append_one xs 0 in
    let q : i + 1 ≡ suc i = omega arith in
    let n : suc (length xs) - 1 - i ≡ length xs - i = omega arith in
    rw (e, q, n) (set-shifted xs i p (length xs - i) h (omega arith))

-- The two ways in which `AddParent` puts the parent at its place come to the same.
put_parent_lem :
    (node : Node) (p i : ℕ)
    → i ≤ length node.parents
    → put_parent node p i (node.parents ++ 0 ∷ [])
      ≡ ok (record node { parents = take i node.parents ++ p ∷ drop i node.parents }, true)
unfolding put_parent
put_parent_lem node p i h =
    let xs = node.parents in
    let grown : length (xs ++ 0 ∷ []) ≡ suc (length xs) = length-append_one xs 0 in
    let inside : ltb i (suc (length xs)) ≡ true = ground arith in
    elim (Bool-cases ((suc (length xs) == 1) || (i == suc (length xs) - 1))) [
      | inl q ↦
          let last : i ≡ length xs = ground arith in
          rw (grown, inside, q, last, set-last xs p, split-last xs p)
      | inr q ↦
          let before : i < length xs = ground arith in
          rw (grown, inside, q, set-shift_up xs i p before)
    ]

add_at-Answer :
    (node : Node) (p : ℕ)
    → node.index == p ≡ false
    → leb node.cap (length node.parents) ≡ false
    → Answer node.parents p (parent_in_list node p)
    → add_parent node p ≡ ok (with_parent node p)
unfolding add_at add_parent with_parent
add_at-Answer node p h k (inl (m, r)) = rw (h, k, m, r)
add_at-Answer node p h k (inr (i, m, r, l, b, a)) =
    rw (h, k, m, r)
      (put_parent_lem node p i l
        ∙ ap (λ t. ok (record node { parents = t }, true)) (insert-between p node.parents i l b a))

-- On a sorted node `AddParent` does not panic and is the reference: it refuses the node itself, a
-- parent in the list and any parent when the list is full, and else inserts the parent in order.
pub add_parent-IsSorted :
    (node : Node) (p : ℕ) → IsSorted node.parents → add_parent node p ≡ ok (with_parent node p)
unfolding add_parent with_parent
add_parent-IsSorted node p s = elim (Bool-cases (node.index == p)) [
  | inl h ↦ rw h
  | inr h ↦ elim (Bool-cases (leb node.cap (length node.parents))) [
    | inl k ↦ rw (h, k)
    | inr k ↦ add_at-Answer node p h k (parent_in_list-IsSorted node p s)
  ]
]

-- A node's parents are sorted, within the capacity, and not the node itself.
abbrev pub IsNode : Node → Type 0
IsNode node =
    IsSorted node.parents
    × (length node.parents ≤ node.cap)
    × (member node.index node.parents ≡ false)

-- What one call of `AddParent` changes.
abbrev pub Added : Node → ℕ → Node × Bool → Type 0
Added node p (node', added) =
    IsNode node'
    × (node'.index ≡ node.index)
    × (node'.cap ≡ node.cap)
    × ((q : ℕ) → member q node'.parents ≡ ((added && (q == p)) || member q node.parents))

with_parent-Added : (node : Node) (p : ℕ) → IsNode node → Added node p (with_parent node p)
unfolding with_parent
with_parent-Added node p (s, l, m) =
    elim (Bool-cases
      ((node.index == p) || (leb node.cap (length node.parents) || member p node.parents))) [
        | inl h ↦ rw h ((s, l, m), refl, refl, λ q. refl)
        | inr h ↦
            let fresh : member p node.parents ≡ false = ground arith in
            let room : length node.parents < node.cap = ground arith in
            let other : (node.index == p) ≡ false = ground arith in
            let longer = length-insert p node.parents in
            rw h (
              (
                insert-IsSorted p node.parents fresh s,
                omega arith,
                rw (member-insert node.index p node.parents, other) m,
              ),
              refl,
              refl,
              λ q. member-insert q p node.parents,
            )
      ]

-- `AddParent` keeps the invariant of a node, does not panic, and adds its argument to the parents
-- exactly if it returns true; no other parent comes or goes.
pub add_parent-IsNode :
    (node : Node) (p : ℕ) → IsNode node → Returns (add_parent node p) (Added node p)
add_parent-IsNode node p h =
    (with_parent node p, add_parent-IsSorted node p h.0, with_parent-Added node p h)
