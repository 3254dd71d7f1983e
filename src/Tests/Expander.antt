-- ===== src/Tests/Expander.antt =====
-- Runs of the expander graph.
use cess_pos_demo.Expander.{Expanders, new_expanders}
use cess_pos_demo.Common.{◌≡◌, ℕ, ◌≤◌, ◌<◌, length, refl, true, false, [], ◌∷◌, ok, Returns, arith}
use cess_pos_demo.Expander.Parents.{
  Node, parent_in_list, add_parent, no_parents, next_bounds, shift_up,
}
use cess_pos_demo.Expander.Draw.{calc_parents}
use cess_pos_demo.Expander.Draw.Degree.{calc_parents-degree}
use cess_pos_demo.Expander.Parents.Sorted.{IsSorted, member}
use cess_pos_demo.Tests.Toy.{toy}
use cess_pos_demo.Expander.Parents.Search.{Answer, parent_in_list-IsSorted}
use cess_pos_demo.Expander.Parents.Insertion.{
  with_parent, IsNode, Added, add_parent-IsSorted, add_parent-IsNode,
}

abbrev three_parents : Node
three_parents = record { index = 40; parents = 12 ∷ 25 ∷ 31 ∷ []; cap = 4 }

three_parents-IsNode : IsNode three_parents
unfolding with_parent
three_parents-IsNode =
    (((omega arith, (omega arith, tt)), ((omega arith, tt), (tt, tt))), omega arith, refl)

added_in_order :
    add_parent three_parents 20
    ≡ ok (record three_parents { parents = 12 ∷ 20 ∷ 25 ∷ 31 ∷ [] }, true)
unfolding add_parent no_parents next_bounds shift_up
added_in_order = refl

refused_twice : add_parent three_parents 25 ≡ ok (three_parents, false)
unfolding add_parent no_parents next_bounds shift_up
refused_twice = refl

parent_in_list-IsSorted_example : Answer three_parents.parents 26 (parent_in_list three_parents 26)
parent_in_list-IsSorted_example = parent_in_list-IsSorted three_parents 26 three_parents-IsNode.0

add_parent-IsSorted_example : add_parent three_parents 26 ≡ ok (with_parent three_parents 26)
add_parent-IsSorted_example = add_parent-IsSorted three_parents 26 three_parents-IsNode.0

add_parent-IsNode_example : Returns (add_parent three_parents 26) (Added three_parents 26)
add_parent-IsNode_example = add_parent-IsNode three_parents 26 three_parents-IsNode

abbrev small_graph : Expanders
small_graph = new_expanders 3 20 16

abbrev fresh_node : Node
fresh_node = record { index = 25; parents = []; cap = 17 }

calc_parents-degree_example :
    (node : Node) × (calc_parents small_graph fresh_node (7 ∷ []) 3 ≡ ok (node, true))
    × (node.index ≡ 25)
    × (length node.parents ≡ 17)
    × IsSorted node.parents
    × ((q : ℕ) → member q node.parents ≡ true → (5 ≤ q) × (q < 25))
    × (member 5 node.parents ≡ true)
unfolding new_expanders
calc_parents-degree_example =
    calc_parents-degree small_graph fresh_node (7 ∷ []) 3 (omega arith) (omega arith) refl
      (omega arith) refl refl

abbrev full_node : Node
full_node = record { index = 25; parents = 5 ∷ []; cap = 1 }
