-- ===== src/Acc/Tree/Laws.antt =====
-- A recomputed node is the accumulator of its children, and each child's witness is that of
-- `generateWitness`.
use cess_pos_demo.Common.{
  ℕ, zero, suc, ◌-◌, ◌/◌, ◌≤◌, ◌≡◌, refl, sym, ap, ap₂, ◌∙◌, arith, List, [], ◌∷◌, ◌++◌, some,
  length, take, drop, get_elem?, length-take, length-drop, take-append-drop,
}
use mathlib.Core.Path.{◌≡⟨◌⟩◌, ◌∎}
use cess_pos_demo.BigInt.{Bytes}
use cess_pos_demo.Crypto.{Crypto}
use cess_pos_demo.Acc.Accumulator.{raise, generate_witness_below, generate_witness}
use cess_pos_demo.Acc.Accumulator.Witnesses.{length-generate_witness_below}
use cess_pos_demo.Acc.Tree.{AccNode, values, gen_wits_below, gen_wits_for_acc_nodes}

module _ {C : Type 0} where
  pub values-append : (xs ys : List (AccNode C)) → values (xs ++ ys) ≡ values xs ++ values ys
  values-append [] ys = refl
  values-append (x ∷ xs) ys = ap (λ t. x.value ∷ t) (values-append xs ys)

  pub length-values : (xs : List (AccNode C)) → length (values xs) ≡ length xs
  length-values [] = refl
  length-values (x ∷ xs) = ap suc (length-values xs)

  take-values : (k : ℕ) (xs : List (AccNode C)) → values (take k xs) ≡ take k (values xs)
  take-values zero xs = refl
  take-values (suc k) [] = refl
  take-values (suc k) (x ∷ xs) = ap (λ t. x.value ∷ t) (take-values k xs)

  drop-values : (k : ℕ) (xs : List (AccNode C)) → values (drop k xs) ≡ drop k (values xs)
  drop-values zero xs = refl
  drop-values (suc k) [] = refl
  drop-values (suc k) (x ∷ xs) = drop-values k xs

  -- Nodes with the witnesses of a list put in.
  abbrev pub with_wits : List (AccNode C) → List Bytes → List (AccNode C)
  with_wits [] ws = []
  with_wits (x ∷ xs) [] = x ∷ xs
  with_wits (x ∷ xs) (w ∷ ws) = record x { wit = w } ∷ with_wits xs ws

  with_wits-append :
      (xs ys : List (AccNode C)) (ws vs : List Bytes)
      → length ws ≡ length xs
      → with_wits (xs ++ ys) (ws ++ vs) ≡ with_wits xs ws ++ with_wits ys vs
  with_wits-append [] ys [] vs h = refl
  with_wits-append [] ys (w ∷ ws) vs h = absurd (omega arith)
  with_wits-append (x ∷ xs) ys [] vs h = absurd (omega arith)
  with_wits-append (x ∷ xs) ys (w ∷ ws) vs h =
      ap (λ t. record x { wit = w } ∷ t) (with_wits-append xs ys ws vs (omega arith))

  pub values-with_wits :
      (xs : List (AccNode C)) (ws : List Bytes) → values (with_wits xs ws) ≡ values xs
  values-with_wits [] ws = refl
  values-with_wits (x ∷ xs) [] = refl
  values-with_wits (x ∷ xs) (w ∷ ws) = ap (λ t. x.value ∷ t) (values-with_wits xs ws)

  pub get_elem?-with_wits :
      (xs : List (AccNode C)) (ws : List Bytes) (i : ℕ) {x : AccNode C} {w : Bytes}
      → get_elem? xs i ≡ some x
      → get_elem? ws i ≡ some w
      → get_elem? (with_wits xs ws) i ≡ some (record x { wit = w })
  get_elem?-with_wits [] ws i p q = cc
  get_elem?-with_wits (x ∷ xs) [] i p q = cc
  get_elem?-with_wits (x ∷ xs) (w ∷ ws) zero p q = ground arith
  get_elem?-with_wits (x ∷ xs) (w ∷ ws) (suc i) p q = get_elem?-with_wits xs ws i p q

module _ ⦃c : Crypto⦄ where
  -- the last line of `generateWitness`, over the two halves
  abbrev both_witnesses : ℕ → ℕ → ℕ → List Bytes → List Bytes → List Bytes
  both_witnesses fuel n g left right =
      generate_witness_below fuel n (raise n g right) left
      ++ generate_witness_below fuel n (raise n g left) right

module _ ⦃c : Crypto⦄ {C : Type 0} where
  gen_wits_below_lem :
      (fuel n g : ℕ) (xs : List (AccNode C))
      → length xs ≤ fuel
      → gen_wits_below fuel n g xs ≡ with_wits xs (generate_witness_below fuel n g (values xs))
  unfolding gen_wits_below generate_witness_below
  gen_wits_below_lem zero n g [] h = refl
  gen_wits_below_lem zero n g (x ∷ xs) h = absurd (omega arith)
  gen_wits_below_lem (suc fuel) n g [] h = refl
  gen_wits_below_lem (suc fuel) n g (x ∷ []) h = refl
  gen_wits_below_lem (suc fuel) n g (x ∷ y ∷ xs) h =
      let all = x ∷ y ∷ xs in
      let half = length all / 2 in
      let left = take half all in
      let right = drop half all in
      let l : length left ≡ half = omega (arith, length-take half all) in
      let r : length right ≡ length all - half = omega (arith, length-drop half all) in
      let same : half ≡ length (values all) / 2 = ap (λ t. t / 2) (sym (length-values all)) in
      gen_wits_below fuel n (raise n g (values right)) left
        ++ gen_wits_below fuel n (raise n g (values left)) right
      ≡⟨ ap₂ ◌++◌ (gen_wits_below_lem fuel n (raise n g (values right)) left (omega arith))
          (gen_wits_below_lem fuel n (raise n g (values left)) right (omega arith)) ⟩
        with_wits left (generate_witness_below fuel n (raise n g (values right)) (values left))
        ++ with_wits right (generate_witness_below fuel n (raise n g (values left)) (values right))
      ≡⟨ sym (
          with_wits-append left right _ _ (
            length-generate_witness_below fuel n _ (values left) (omega (arith, length-values left))
            ∙ length-values left)) ⟩
        with_wits (left ++ right) (both_witnesses fuel n g (values left) (values right))
      ≡⟨ ap₂ with_wits (take-append-drop half all) (
          ap₂ (both_witnesses fuel n g) (take-values half all ∙ ap (λ t. take t (values all)) same)
            (drop-values half all ∙ ap (λ t. drop t (values all)) same)) ⟩
        with_wits all (generate_witness_below (suc fuel) n g (values all)) ∎

  -- `genWitsForAccNodes` stores what `generateWitness` would return for the nodes' values.
  pub gen_wits_for_acc_nodes_lem :
      (g n : ℕ) (xs : List (AccNode C))
      → gen_wits_for_acc_nodes g n xs ≡ with_wits xs (generate_witness g n (values xs))
  unfolding gen_wits_for_acc_nodes generate_witness
  gen_wits_for_acc_nodes_lem g n xs =
      gen_wits_below_lem (length xs) n g xs (omega arith)
      ∙ ap (λ t. with_wits xs (generate_witness_below t n g (values xs))) (sym (length-values xs))
