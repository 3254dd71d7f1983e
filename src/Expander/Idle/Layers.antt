-- ===== src/Expander/Idle/Layers.antt =====
-- The layers and the roots of an idle file of expanders/generate_idle_file.go.
use cess_pos_demo.Common.{
  ℕ, zero, suc, ◌+◌, ◌*◌, ◌%◌, ◌<◌, Bool, false, List, [], ◌∷◌, ◌++◌, length, replicate,
  length-replicate, ◌≡◌, refl, ap, arith, Returns,
}
use cess_pos_demo.BigInt.{Bytes}
use cess_pos_demo.Crypto.{Crypto, hash_sum}
use cess_pos_demo.Encoding.{hash_size}
use cess_pos_demo.Encoding.Laws.{concat}
use cess_pos_demo.Mht.Light.{calc_light_mht_with_bytes, get_root}
use cess_pos_demo.Expander.{Expanders}
use cess_pos_demo.Expander.Idle.{label_left_size, label_layers, generate_idle_file}
use cess_pos_demo.Expander.Idle.Labels.{IsLabelled, label_nodes-Filled}

module _ ⦃c : Crypto⦄ where
  -- The root of the tree over the labels of a layer.
  abbrev pub layer_root_of : (ℕ → Bytes) → ℕ → Bytes → Bytes
  layer_root_of slices i labels =
      get_root (calc_light_mht_with_bytes labels hash_size (slices i)) hash_size

  abbrev pub roots_of : (ℕ → Bytes) → ℕ → List Bytes → List Bytes
  roots_of slices i [] = []
  roots_of slices i (labels ∷ layers) =
      layer_root_of slices i labels ∷ roots_of slices (i + 1) layers

  -- Layers from `i` on, behind the layer `above`, each of `N` labels: those behind the first layer are
  -- made of the labels of the parents.
  abbrev pub AllLabelled : Expanders → Bytes → ℕ → ℕ → Bytes → List Bytes → Type 0
  AllLabelled graph id count i above [] = Unit {0}
  AllLabelled graph id count i above (labels ∷ layers) =
      (length labels ≡ graph.n * hash_size)
      × ((j : ℕ) → j < graph.n → 0 < i → IsLabelled graph id count i above labels j)
      × AllLabelled graph id count (i + 1) labels layers

  module _ (graph : Expanders) (pos : 0 < graph.n) (less : graph.d < graph.n)
      (even : graph.d % 16 ≡ 0) (id : Bytes) (count : ℕ) (slices : ℕ → Bytes) (fails : ℕ → Bool)
      (saved : (i : ℕ) → fails i ≡ false) where
    label_layers-AllLabelled :
        (rounds i : ℕ) (label above labels : Bytes)
        → length label ≡ label_left_size id + (graph.d + 1) * hash_size
        → length above ≡ graph.n * hash_size
        → length labels ≡ graph.n * hash_size
        → Returns (label_layers rounds graph id count slices fails i label above labels) (λ file.
          (length file.layers ≡ rounds)
          × AllLabelled graph id count i above file.layers
          × (file.roots ≡ roots_of slices i file.layers))
    unfolding label_layers
    label_layers-AllLabelled zero i label above labels b a l = (_, refl, (refl, tt, refl))
    label_layers-AllLabelled (suc rounds) i label above labels b a l =
        let (label', labels', made, f) =
          label_nodes-Filled graph pos less even id count graph.n i above 0 label labels
            (omega arith) a (l, b, λ j h deep. absurd (omega arith)) in
        let (file, rest, (number, good, same)) =
          label_layers-AllLabelled rounds (i + 1) label' labels' above f.1 f.0 a in
        rw (made, saved i, rest)
          (
            _,
            refl,
            (ap suc number, (f.0, f.2, good), ap (λ t. layer_root_of slices i labels' ∷ t) same),
          )

    pub generate_idle_file-AllLabelled :
        (above labels : Bytes)
        → length above ≡ graph.n * hash_size
        → length labels ≡ graph.n * hash_size
        → Returns (generate_idle_file graph id count slices fails above labels) (λ file.
          (length file.layers ≡ graph.k + 1)
          × AllLabelled graph id count 0 above file.layers
          × (file.roots
              ≡ roots_of slices 0 file.layers
                ++ hash_sum hash_size (concat (roots_of slices 0 file.layers)) ∷ []))
    unfolding generate_idle_file
    generate_idle_file-AllLabelled above labels a l =
        let (file, made, (number, good, same)) =
          label_layers-AllLabelled (graph.k + 1) 0
            (replicate (label_left_size id + (graph.d + 1) * hash_size) 0) above labels
            (length-replicate {A = ℕ} (label_left_size id + (graph.d + 1) * hash_size) 0) a l in
        rw (made, saved (graph.k + 1)) (_, refl, (number, good, rw same))
