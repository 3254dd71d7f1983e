-- ===== src/Acc/Tree/Children.antt =====
-- A child of a node before and after `updateAcc`.
use cess_pos_demo.Common.{
  ℕ, zero, suc, ◌≡◌, refl, sym, ap, ◌∙◌, arith, true, List, [], ◌∷◌, ◌++◌, some, length, set,
  get_elem?, erase_idx, lt-get_elem?,
}
use cess_pos_demo.BigInt.{to_bytes, from_bytes}
use cess_pos_demo.Crypto.{Crypto}
use cess_pos_demo.Acc.Accumulator.{RsaKey, raise, generate_acc, generate_witness, verify_acc}
use cess_pos_demo.Acc.Accumulator.Exponents.{generate_acc-raise}
use cess_pos_demo.Acc.Accumulator.Witnesses.{
  witness_at, generate_witness-at, raise-witness_at, verify_acc-generate_acc,
}
use cess_pos_demo.Acc.Tree.{AccNode, values, update_from, update_acc}
use cess_pos_demo.Acc.Tree.Laws.{length-values, get_elem?-with_wits, gen_wits_for_acc_nodes_lem}
use cess_pos_demo.Acc.Tree.Sums.{IsSummed, get_elem?-values, length-gen_wits}

module _ {C : Type 0} where
  pub erase_idx-values-set :
      (xs : List (AccNode C)) (i : ℕ) (x : AccNode C)
      → erase_idx (values (set xs i x)) i ≡ erase_idx (values xs) i
  erase_idx-values-set [] i x = refl
  erase_idx-values-set (y ∷ xs) zero x = refl
  erase_idx-values-set (y ∷ xs) (suc i) x = ap (λ t. y.value ∷ t) (erase_idx-values-set xs i x)

  pub erase_idx-values-append :
      (xs : List (AccNode C)) (x : AccNode C)
      → erase_idx (values (xs ++ x ∷ [])) (length xs) ≡ values xs
  erase_idx-values-append [] x = refl
  erase_idx-values-append (y ∷ xs) x = ap (λ t. y.value ∷ t) (erase_idx-values-append xs x)

module _ ⦃c : Crypto⦄ {C : Type 0} (key : RsaKey) where
  update_from-child :
      (node : AccNode (AccNode C)) (xs : List (AccNode C)) (i : ℕ) {x : AccNode C}
      → get_elem? xs i ≡ some x
      → get_elem? (update_from key node xs).children i
        ≡ some (record x { wit = witness_at key.n key.g (values xs) i })
  unfolding update_from
  update_from-child node [] i h = cc
  update_from-child node (x ∷ xs) i h =
      ap (λ t. get_elem? t i) (gen_wits_for_acc_nodes_lem key.g key.n (x ∷ xs))
      ∙ get_elem?-with_wits (x ∷ xs) (generate_witness key.g key.n (values (x ∷ xs))) i h (
          generate_witness-at key.g key.n (values (x ∷ xs)) i
            (omega (arith, lt-get_elem? (x ∷ xs) i h, length-values (x ∷ xs))))

  -- `updateAcc` changes no child but for its witness.
  pub update_acc-child :
      (node : AccNode (AccNode C)) (i : ℕ) {x : AccNode C}
      → get_elem? node.children i ≡ some x
      → get_elem? (update_acc key node).children i
        ≡ some (record x { wit = witness_at key.n key.g (values node.children) i })
  unfolding update_acc
  update_acc-child node i h = update_from-child node node.children i h

  length-update_from :
      (node : AccNode (AccNode C)) (xs : List (AccNode C))
      → length (update_from key node xs).children ≡ length xs
  unfolding update_from
  length-update_from node [] = refl
  length-update_from node (x ∷ xs) = length-gen_wits key (x ∷ xs)

  pub length-update_acc :
      (node : AccNode (AccNode C)) → length (update_acc key node).children ≡ length node.children
  unfolding update_acc
  length-update_acc node = length-update_from node node.children

  module _ {node : AccNode (AccNode C)} (s : IsSummed key node) (i : ℕ) {x : AccNode C}
      (here : get_elem? node.children i ≡ some x) where
    -- The witness of a child, raised by its value, is the node's value.
    pub generate_acc-child : generate_acc key x.wit (x.value ∷ []) ≡ node.value
    generate_acc-child =
        generate_acc-raise key x.wit (x.value ∷ [])
        ∙ ap (λ t. to_bytes (raise key.n (from_bytes t) (x.value ∷ []))) (s.proved i x here)
        ∙ ap to_bytes (
            raise-witness_at key.n key.g (values node.children) i
              (get_elem?-values node.children i here))
        ∙ sym s.summed

    -- So the child is accepted as an element of the node.
    pub verify_acc-child : verify_acc key node.value x.value x.wit ≡ true
    verify_acc-child =
        ap (λ t. verify_acc key t x.value x.wit) (sym generate_acc-child)
        ∙ verify_acc-generate_acc key x.value x.wit
