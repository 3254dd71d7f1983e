-- ===== src/Acc/Manager/Proofs.antt =====
-- `AddElementsAndProof` of acc/muti_level_acc.go. The walk goes down the last nodes of the tree after
-- the update and of the snapshot before it, level by level: `DEFAULT_LEVEL` is 3.
use cess_pos_demo.Common.{
  ◌-◌, List, [], ◌∷◌, none, some, get_elem?, ltb, if◌then◌else◌, Run, ok, panic, index_out_of_range,
  ◌>>=◌, or_panic,
}
use cess_pos_demo.BigInt.{Bytes, to_bytes}
use cess_pos_demo.Crypto.{Crypto}
use cess_pos_demo.Acc.Accumulator.{RsaKey}
use cess_pos_demo.Acc.Chain.{WitnessNode, nil, node}
use cess_pos_demo.Acc.Tree.{AccNode, SubAcc, Parent, Root}
use cess_pos_demo.Acc.Manager.{MutiLevelAcc, AccError, get_snapshot, add_elements}

-- The error, or the witness chain and the new accumulators from the lowest to the root.
pub data Proof : Type 0 where
  refused : AccError → Proof
  proved : WitnessNode → List Bytes → Proof

-- `p.Children[p.Len-1]`
unfoldable pub last_child : {C : Type 0} → AccNode C → Run ⊥ C
last_child p =
    if ltb 0 p.len
    then or_panic (get_elem? p.children (p.len - 1)) index_out_of_range
    else panic index_out_of_range

-- One accumulator that is new: its chain node holds the generator, over its parent's value.
unfoldable pub new_node : RsaKey → WitnessNode → WitnessNode
new_node key nil = nil
new_node key (node elem wit up) = node (to_bytes key.g) elem (node elem wit up)

-- The second round of the walk, at the last parents.
unfoldable pub walk_parents : RsaKey → Parent → Parent → WitnessNode → Run ⊥ WitnessNode
unfolding new_node
walk_parents key p q exist =
    if ltb q.len p.len
    then ok (new_node key exist)
    else do _ ← last_child p; sub ← last_child q; ok (node sub.value sub.wit exist)

-- The first round, at the roots.
unfoldable pub walk_roots : RsaKey → Root → Root → WitnessNode → Run ⊥ WitnessNode
unfolding walk_parents
walk_roots key p q exist = if ltb q.len p.len then ok (new_node key (new_node key exist)) else do
  p' ← last_child p
  q' ← last_child q
  walk_parents key p' q' (node q'.value q'.wit exist)

-- The values on the way down to the last node, lowest first. A node without children stands for
-- what is below it.
unfoldable pub parent_path : List SubAcc → Parent → List Bytes → Run ⊥ (List Bytes)
parent_path [] p above = ok (p.value ∷ p.value ∷ above)
parent_path (x ∷ xs) p above = do sub ← last_child p; ok (sub.value ∷ p.value ∷ above)

unfoldable pub root_path : List Parent → Root → Run ⊥ (List Bytes)
unfolding parent_path
root_path [] r = ok (r.value ∷ r.value ∷ r.value ∷ [])
root_path (x ∷ xs) r = do p ← last_child r; parent_path p.children p (r.value ∷ [])

module _ ⦃c : Crypto⦄ where
  unfoldable pub add_elements_and_proof : MutiLevelAcc → List Bytes → Run ⊥ (MutiLevelAcc × Proof)
  add_elements_and_proof s elems = do
    let (s₀, snapshot) = get_snapshot s
    (s', e) ← add_elements s₀ elems
    elim e [
      | some x ↦ ok (s', refused x)
      | none ↦ do
        exist ← walk_roots s'.view.key s'.view.accs snapshot.accs (node snapshot.accs.value [] nil)
        accs ← root_path s'.view.accs.children s'.view.accs
        ok (s', proved exist accs)
    ]
