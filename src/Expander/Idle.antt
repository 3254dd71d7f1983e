-- ===== src/Expander/Idle.antt =====
-- `GenerateIdleFile` of expanders/generate_idle_file.go: the labels of an idle file, layer by layer, and
-- the roots that are committed. `RunRelationalMapServer` of expanders/generate_expanders.go hands over
-- the nodes in their order.
pub mod Contents
pub mod Labels
pub mod Layers
use cess_pos_demo.Common.{
  ℕ, zero, suc, ◌+◌, ◌-◌, ◌*◌, ◌%◌, Bool, true, false, not, ◌&&◌, List, [], ◌∷◌, ◌++◌, length, take,
  replicate, ltb, if◌then◌else◌, Run, ok, err, ◌>>=◌, widen, fail_if, ◌>>◌,
}
use cess_pos_demo.BigInt.{Bytes}
use cess_pos_demo.Crypto.{Crypto, hash_sum}
use cess_pos_demo.Encoding.{hash_size, get_bytes, write_at, copy_data}
use cess_pos_demo.Encoding.Laws.{concat}
use cess_pos_demo.Mht.Light.{calc_light_mht_with_bytes, get_root}
use cess_pos_demo.Mht.Slots.{slot}
use cess_pos_demo.Expander.{Expanders}
use cess_pos_demo.Expander.Parents.{Node, no_parents}
use cess_pos_demo.Expander.Draw.{calc_parents}

-- A file that cannot be saved; `endless` stands for a call that does not end, for want of a parent.
pub data IdleError : Type 0 where
  save_failed endless : IdleError

-- What is saved: the labels of each layer, and the roots.
pub record IdleFile : Type 0 where
  pub layers : List Bytes
  pub roots : List Bytes

-- `unsafe.Sizeof(NodeType(0))`
abbrev pub node_type_size : ℕ
node_type_size = 4

-- `labelLeftSize`
abbrev pub label_left_size : Bytes → ℕ
label_left_size id = length id + node_type_size + 8

-- `NewNode`, with room for its parents
abbrev pub new_node : Expanders → ℕ → Node
new_node graph index = record { index = index; parents = []; cap = graph.d + 1 }

-- The labels of the parents, from the layer above or from this one, written into the buffer. Its
-- size is that of `D + 1` labels behind the front.
unfoldable pub put_labels : ℕ → ℕ → Bytes → Bytes → List ℕ → ℕ → Bytes → Bytes
put_labels n i above labels [] at label = label
put_labels n i above labels (p ∷ parents) at label =
    put_labels n i above labels parents (at + hash_size)
      (write_at at (slot hash_size (if ltb p (i * n) then above else labels) (p % n)) label)

-- What is hashed for a node of layer `i`.
unfoldable pub node_content : ℕ → Bytes → ℕ → ℕ → Bytes → Bytes → Node → Bytes → Bytes
unfolding put_labels
node_content n id count i above labels node label =
    let front =
      copy_data label (id ∷ get_bytes 8 count ∷ get_bytes node_type_size node.index ∷ []) in
    if ltb 0 i && not (no_parents node)
    then put_labels n i above labels node.parents (label_left_size id) front
    else front

module _ ⦃c : Crypto⦄ where
  -- The loop over the nodes of layer `i` from `j` on: the buffer and the labels of the layer.
  unfoldable pub label_nodes :
      ℕ → Expanders → Bytes → ℕ → ℕ → Bytes → ℕ → Bytes → Bytes → Run IdleError (Bytes × Bytes)
  unfolding node_content
  label_nodes zero graph id count i above j label labels = ok (label, labels)
  label_nodes (suc rounds) graph id count i above j label labels = do
    (node, ended) ← widen (calc_parents graph (new_node graph (j + graph.n * i)) id count)
    drawn ← fail_if (not ended) endless
    let content = node_content graph.n id count i above labels node label
    label_nodes rounds graph id count i above (j + 1) content
        (write_at (j * hash_size) (take hash_size (hash_sum hash_size content)) labels)

  -- The loop over the layers from `i` on. The slices `above` and `labels` change places behind a
  -- layer; `slices` are those that the trees are built in, and `fails` says which layer is not saved.
  unfoldable pub label_layers :
      ℕ
      → Expanders
      → Bytes
      → ℕ
      → (ℕ → Bytes)
      → (ℕ → Bool)
      → ℕ
      → Bytes
      → Bytes
      → Bytes
      → Run IdleError IdleFile
  unfolding label_nodes
  label_layers zero graph id count slices fails i label above labels =
      ok (record { layers = []; roots = [] })
  label_layers (suc rounds) graph id count slices fails i label above labels = do
    (label', labels') ← label_nodes graph.n graph id count i above 0 label labels
    let root = get_root (calc_light_mht_with_bytes labels' hash_size (slices i)) hash_size
    saved ← fail_if (fails i) save_failed
    rest ← label_layers rounds graph id count slices fails (i + 1) label' labels' above
    ok (record { layers = labels' ∷ rest.layers; roots = root ∷ rest.roots })

  -- `GenerateIdleFile`. `fails (K + 1)` is about the file of the roots.
  unfoldable pub generate_idle_file :
      Expanders → Bytes → ℕ → (ℕ → Bytes) → (ℕ → Bool) → Bytes → Bytes → Run IdleError IdleFile
  unfolding label_layers
  generate_idle_file graph id count slices fails above labels = do
    file ←
        label_layers (graph.k + 1) graph id count slices fails 0
          (replicate (label_left_size id + (graph.d + 1) * hash_size) 0) above labels
    saved ← fail_if (fails (graph.k + 1)) save_failed
    ok (record file { roots = file.roots ++ hash_sum hash_size (concat file.roots) ∷ [] })
