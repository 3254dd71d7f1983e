-- ===== src/Acc/Tree.antt =====
-- The nodes of the multi-level accumulator of acc/muti_level_acc.go, and how a node is recomputed.
-- The code builds three levels: the root, its children, and theirs, which have no children.
pub mod Laws
pub mod Sums
pub mod Children
use cess_pos_demo.Common.{
  ℕ, zero, suc, ◌+◌, ◌-◌, ◌/◌, List, [], ◌∷◌, ◌++◌, length, take, drop, get_elem?, Option, none,
  some, Run, ok, ◌>>=◌, or_panic, index_out_of_range,
}
use cess_pos_demo.BigInt.{Bytes, to_bytes}
use cess_pos_demo.Crypto.{Crypto}
use cess_pos_demo.Acc.Accumulator.{RsaKey, raise, generate_acc}

-- `AccNode`, over the type of its children.
pub record AccNode (C : Type 0) : Type 0 where
  pub value : Bytes
  pub children : List C
  pub len : ℕ
  pub wit : Bytes

abbrev pub SubAcc : Type 0
SubAcc = AccNode ⊥

abbrev pub Parent : Type 0
Parent = AccNode SubAcc

abbrev pub Root : Type 0
Root = AccNode Parent

abbrev pub values : {C : Type 0} → List (AccNode C) → List Bytes
values [] = []
values (x ∷ xs) = x.value ∷ values xs

module _ ⦃c : Crypto⦄ where
  -- `genWitsForAccNodes` writes `Wit` where `generateWitness` returns a list.
  unfoldable pub gen_wits_below : {C : Type 0} → ℕ → ℕ → ℕ → List (AccNode C) → List (AccNode C)
  gen_wits_below zero n g elems = elems
  gen_wits_below (suc fuel) n g [] = []
  gen_wits_below (suc fuel) n g (x ∷ []) = record x { wit = to_bytes g } ∷ []
  gen_wits_below (suc fuel) n g (x ∷ y ∷ elems) =
      let half = length (x ∷ y ∷ elems) / 2 in
      let left = take half (x ∷ y ∷ elems) in
      let right = drop half (x ∷ y ∷ elems) in
      gen_wits_below fuel n (raise n g (values right)) left
      ++ gen_wits_below fuel n (raise n g (values left)) right

  unfoldable pub gen_wits_for_acc_nodes : {C : Type 0} → ℕ → ℕ → List (AccNode C) → List (AccNode C)
  unfolding gen_wits_below
  gen_wits_for_acc_nodes g n elems = gen_wits_below (length elems) n g elems

  -- The end of `updateAcc`: the value from the last child.
  unfoldable pub sum_up : {C : Type 0} → RsaKey → List (AccNode C) → Bytes
  sum_up key [] = to_bytes key.g
  sum_up key (x ∷ []) = generate_acc key x.wit (x.value ∷ [])
  sum_up key (x ∷ y ∷ xs) = sum_up key (y ∷ xs)

  -- `updateAcc` of a node that is not nil, behind `lens := len(node.Children)`.
  unfoldable pub update_from :
      {C : Type 0} → RsaKey → AccNode (AccNode C) → List (AccNode C) → AccNode (AccNode C)
  unfolding gen_wits_for_acc_nodes sum_up
  update_from key node [] = record node { children = []; len = 0; value = to_bytes key.g; wit = [] }
  update_from key node (x ∷ xs) =
      let children = gen_wits_for_acc_nodes key.g key.n (x ∷ xs) in
      record node { children = children; len = length (x ∷ xs); value = sum_up key children }

  unfoldable pub update_acc : {C : Type 0} → RsaKey → AccNode (AccNode C) → AccNode (AccNode C)
  unfolding update_from
  update_acc key node = update_from key node node.children
