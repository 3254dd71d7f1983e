-- ===== src/Expander/Parents.antt =====
-- `Node` of expanders/expander.go: the sorted list of parents of a graph node. The values of
-- `NodeType` are indices of graph nodes, which are not negative.
pub mod Sorted
pub mod Search
pub mod Insertion
use cess_pos_demo.Common.{
  ℕ, zero, suc, ◌+◌, ◌-◌, ◌/◌, Bool, true, false, ◌||◌, List, [], ◌∷◌, ◌++◌, length, set, take,
  drop, get_elem?, Option, none, some, ltb, leb, ◌==◌, if◌then◌else◌, Run, ok, panic,
  index_out_of_range, ◌>>=◌, or_panic,
}

-- `cap` is the capacity of the slice `Parents`; the nil slice is the empty one of capacity 0.
pub record Node : Type 0 where
  pub index : ℕ
  pub parents : List ℕ
  pub cap : ℕ

unfoldable pub no_parents : Node → Bool
no_parents node = leb (length node.parents) 0

-- The bounds of the next round of the binary search. The upper bound is `r + 1`.
unfoldable pub next_bounds : ℕ → ℕ → ℕ → ℕ → ℕ → ℕ × ℕ
next_bounds v parent l mid above = if ltb parent v then (l, mid) else (mid + 1, above)

-- The loop of `ParentInList`: nothing when it finds the parent, else `l` and `r + 1` at its end.
unfoldable pub bisect : ℕ → List ℕ → ℕ → ℕ × ℕ → Run ⊥ (Option (ℕ × ℕ))
bisect zero parents parent (l, above) = ok (some (l, above))
bisect (suc fuel) parents parent (l, above) =
    if ltb l above
    then (do
      let mid = (l + above - 1) / 2
      v ← or_panic (get_elem? parents mid) index_out_of_range
      if v == parent
          then ok none
          else bisect fuel parents parent (next_bounds v parent l mid above))
    else ok (some (l, above))

-- The end of `ParentInList`. The code's `(l + r) / 2` rounds towards 0, also from -1.
unfoldable pub insertion_point : List ℕ → ℕ → Option (ℕ × ℕ) → Run ⊥ (ℕ × Bool)
insertion_point parents parent none = ok (0, true)
insertion_point parents parent (some (l, above)) = do
  let i = (l + above - 1) / 2
  v ← or_panic (get_elem? parents i) index_out_of_range
  ok (if ltb v parent then i + 1 else i, false)

-- `ParentInList`: the bounds come closer in each round, so `len(node.Parents)` rounds are enough.
unfoldable pub parent_in_list : Node → ℕ → Run ⊥ (ℕ × Bool)
unfolding bisect insertion_point
parent_in_list node parent = if no_parents node then ok (0, false) else (do
  end ← bisect (length node.parents) node.parents parent (0, length node.parents)
  insertion_point node.parents parent end)

-- `copy(s[i+1:], s[i:len(s)-1])`
unfoldable pub shift_up : ℕ → List ℕ → List ℕ
shift_up i s = take (i + 1) s ++ take (length s - 1 - i) (drop i s)

-- The end of `AddParent`, from the slice that `append(node.Parents, 0)` returns.
unfoldable pub put_parent : Node → ℕ → ℕ → List ℕ → Run ⊥ (Node × Bool)
put_parent node parent i s =
    if ltb i (length s)
    then (if (length s == 1) || (i == length s - 1)
        then ok (record node { parents = set s i parent }, true)
        else ok (record node { parents = set (shift_up i s) i parent }, true))
    else panic index_out_of_range

-- What `AddParent` makes of the answer of `ParentInList`.
unfoldable pub add_at : Node → ℕ → ℕ × Bool → Run ⊥ (Node × Bool)
unfolding put_parent
add_at node parent (i, true) = ok (node, false)
add_at node parent (i, false) = put_parent node parent i (node.parents ++ 0 ∷ [])

-- `AddParent`
unfoldable pub add_parent : Node → ℕ → Run ⊥ (Node × Bool)
unfolding parent_in_list add_at
add_parent node parent =
    if node.index == parent
    then ok (node, false)
    else if leb node.cap (length node.parents)
    then ok (node, false)
    else (do found ← parent_in_list node parent; add_at node parent found)
