-- ===== src/Acc/Tree/Sums.antt =====
-- `updateAcc` makes a node the accumulator of its children and gives each child its witness.
use cess_pos_demo.Common.{
  ℕ, zero, suc, ◌≡◌, refl, sym, ap, ◌∙◌, arith, List, [], ◌∷◌, some, length, get_elem?,
  get_elem?-lt, lt-get_elem?,
}
use mathlib.Core.Path.{subst}
use cess_pos_demo.BigInt.{Bytes, from_bytes, to_bytes}
use cess_pos_demo.Crypto.{Crypto}
use cess_pos_demo.Acc.Accumulator.{RsaKey, raise, generate_acc, generate_witness}
use cess_pos_demo.Acc.Accumulator.Exponents.{generate_acc-raise}
use cess_pos_demo.Acc.Accumulator.Witnesses.{witness_at, generate_witness-at, raise-witness_at}
use cess_pos_demo.Acc.Tree.{
  AccNode, values, gen_wits_for_acc_nodes, sum_up, update_from, update_acc,
}
use cess_pos_demo.Acc.Tree.Laws.{
  length-values, with_wits, values-with_wits, get_elem?-with_wits, gen_wits_for_acc_nodes_lem,
}

module _ ⦃c : Crypto⦄ where
  -- Each child has the accumulator of its siblings as its witness.
  abbrev pub HasWits : {C : Type 0} → RsaKey → List (AccNode C) → Type 0
  HasWits {C} key xs =
      (i : ℕ) (x : AccNode C)
      → get_elem? xs i ≡ some x
      → x.wit ≡ witness_at key.n key.g (values xs) i

  pub record IsSummed {C : Type 0} (key : RsaKey) (node : AccNode (AccNode C)) : Type 0 where
    pub counted : node.len ≡ length node.children
    pub summed : node.value ≡ to_bytes (raise key.n key.g (values node.children))
    pub proved : HasWits key node.children

module _ {C : Type 0} where
  pub get_elem?-values :
      (xs : List (AccNode C)) (i : ℕ) {x : AccNode C}
      → get_elem? xs i ≡ some x
      → get_elem? (values xs) i ≡ some x.value
  get_elem?-values [] i h = cc
  get_elem?-values (x ∷ xs) zero h = ground arith
  get_elem?-values (x ∷ xs) (suc i) h = get_elem?-values xs i h

  pub length-with_wits :
      (xs : List (AccNode C)) (ws : List Bytes) → length (with_wits xs ws) ≡ length xs
  length-with_wits [] ws = refl
  length-with_wits (x ∷ xs) [] = refl
  length-with_wits (x ∷ xs) (w ∷ ws) = ap suc (length-with_wits xs ws)

module _ ⦃c : Crypto⦄ {C : Type 0} (key : RsaKey) where
  -- The witnesses that `genWitsForAccNodes` writes.
  pub gen_wits-HasWits :
      (xs : List (AccNode C)) → HasWits key (gen_wits_for_acc_nodes key.g key.n xs)
  gen_wits-HasWits xs =
      let ws = generate_witness key.g key.n (values xs) in
      subst (HasWits key) (sym (gen_wits_for_acc_nodes_lem key.g key.n xs)) λ i x h.
        let (old, here) =
          get_elem?-lt xs i (omega (arith, lt-get_elem? _ i h, length-with_wits xs ws)) in
        let w =
          generate_witness-at key.g key.n (values xs) i
            (omega (arith, lt-get_elem? _ i here, length-values xs)) in
        let placed = get_elem?-with_wits xs ws i here w in
        let same : record old { wit = witness_at key.n key.g (values xs) i } ≡ x = cc in
        ap (λ (t : AccNode C). t.wit) (sym same)
        ∙ ap (λ t. witness_at key.n key.g t i) (sym (values-with_wits xs ws))

  -- The value that is read off the last child is the accumulator of all.
  sum_up_last :
      (x : AccNode C) (xs : List (AccNode C))
      → (i : ℕ) × (y : AccNode C) × (get_elem? (x ∷ xs) i ≡ some y)
        × (sum_up key (x ∷ xs) ≡ generate_acc key y.wit (y.value ∷ []))
  unfolding sum_up
  sum_up_last x [] = (0, x, refl, refl)
  sum_up_last x (y ∷ xs) = let (i, z, here, e) = sum_up_last y xs in (suc i, z, here, e)

  pub sum_up-HasWits :
      (xs : List (AccNode C))
      → HasWits key xs
      → sum_up key xs ≡ to_bytes (raise key.n key.g (values xs))
  sum_up-HasWits [] h = unfold sum_up raise in refl
  sum_up-HasWits (x ∷ xs) h =
      let (i, y, here, e) = sum_up_last x xs in
      e
      ∙ generate_acc-raise key y.wit (y.value ∷ [])
      ∙ ap (λ t. to_bytes (raise key.n (from_bytes t) (y.value ∷ []))) (h i y here)
      ∙ ap to_bytes
          (raise-witness_at key.n key.g (values (x ∷ xs)) i (get_elem?-values (x ∷ xs) i here))

  values-gen_wits :
      (xs : List (AccNode C)) → values (gen_wits_for_acc_nodes key.g key.n xs) ≡ values xs
  values-gen_wits xs = rw (gen_wits_for_acc_nodes_lem key.g key.n xs) (values-with_wits xs _)

  pub length-gen_wits :
      (xs : List (AccNode C)) → length (gen_wits_for_acc_nodes key.g key.n xs) ≡ length xs
  length-gen_wits xs = rw (gen_wits_for_acc_nodes_lem key.g key.n xs) (length-with_wits xs _)

  update_from-IsSummed :
      (node : AccNode (AccNode C)) (xs : List (AccNode C)) → IsSummed key (update_from key node xs)
  unfolding update_from
  update_from-IsSummed node [] = record {
    counted = refl;
    summed = unfold raise in refl;
    proved = λ i x h. cc;
  }
  update_from-IsSummed node (x ∷ xs) = record {
    counted = sym (length-gen_wits (x ∷ xs));
    summed = sum_up-HasWits _ (gen_wits-HasWits (x ∷ xs));
    proved = gen_wits-HasWits (x ∷ xs);
  }

  -- After `updateAcc` the node counts and sums up its children, and each child has its witness.
  pub update_acc-IsSummed : (node : AccNode (AccNode C)) → IsSummed key (update_acc key node)
  unfolding update_acc
  update_acc-IsSummed node = update_from-IsSummed node node.children

  values-update_from :
      (node : AccNode (AccNode C)) (xs : List (AccNode C))
      → values (update_from key node xs).children ≡ values xs
  unfolding update_from
  values-update_from node [] = refl
  values-update_from node (x ∷ xs) = values-gen_wits (x ∷ xs)

  -- The children keep their values.
  pub values-update_acc :
      (node : AccNode (AccNode C)) → values (update_acc key node).children ≡ values node.children
  unfolding update_acc
  values-update_acc node = values-update_from node node.children
