-- ===== src/Acc/Manager/First.antt =====
-- The first insertion, and what `addElements` builds.
use cess_pos_demo.Common.{
  ◌+◌, ◌-◌, ◌<◌, ◌≡◌, refl, sym, ap, ◌∙◌, arith, List, [], ◌∷◌, ◌++◌, length, ok, ltb, true, ◌==◌,
  Each-cons, get_elem?-lt,
}
use cess_pos_demo.BigInt.{Bytes, to_bytes}
use cess_pos_demo.BigInt.Bytes.{from_bytes-to_bytes}
use cess_pos_demo.Crypto.{Crypto}
use cess_pos_demo.Acc.Accumulator.{RsaKey, raise, generate_acc, generate_witness}
use cess_pos_demo.Acc.Accumulator.Exponents.{generate_acc-raise, raise-append}
use cess_pos_demo.Acc.Accumulator.Witnesses.{witness_at, generate_witness-at, raise-witness_at}
use cess_pos_demo.Acc.Chain.Acceptance.{skip_new-parent}
use cess_pos_demo.Acc.Tree.{SubAcc, Parent}
use cess_pos_demo.Acc.Manager.{View, first_sub_acc, add_sub_acc, sub_acc_of}
use cess_pos_demo.Acc.Manager.Invariant.{IsValid, IsFilled, single-IsSummed}
use cess_pos_demo.Acc.Manager.Insertion.{Grown, Adds}
use cess_pos_demo.Acc.Manager.Proofs.{last_child, root_path, parent_path}
use cess_pos_demo.Acc.Manager.Walk

module _ ⦃c : Crypto⦄ where
  -- A sub-accumulator of a list of elements, by its meaning.
  abbrev pub sub_of : RsaKey → List Bytes → SubAcc
  sub_of key es = record {
    value = to_bytes (raise key.n key.g es);
    children = [];
    len = length es;
    wit = [];
  }

  pub sub_acc_of_lem :
      (key : RsaKey) (es : List Bytes)
      → 0 < length es
      → sub_acc_of key es (generate_witness key.g key.n es) ≡ ok (sub_of key es)
  unfolding sub_acc_of
  sub_acc_of_lem key es h =
      let i = length es - 1 in
      let (e, here) = get_elem?-lt es i (omega arith) in
      let w = witness_at key.n key.g es i in
      let value : generate_acc key w (e ∷ []) ≡ to_bytes (raise key.n key.g es) =
        generate_acc-raise key w (e ∷ []) ∙ ap to_bytes (raise-witness_at key.n key.g es i here) in
      rw (generate_witness-at key.g key.n es i (omega arith), here, value)

  -- Elements may be added to an accumulator by raising its value.
  pub generate_acc-extends :
      (key : RsaKey) (old es : List Bytes)
      → generate_acc key (to_bytes (raise key.n key.g old)) es
        ≡ to_bytes (raise key.n key.g (old ++ es))
  generate_acc-extends key old es =
      generate_acc-raise key _ es
      ∙ ap (λ t. to_bytes (raise key.n t es)) (from_bytes-to_bytes (raise key.n key.g old))
      ∙ ap to_bytes (sym (raise-append key.n key.g old es))

  module _ (v : View) (sub : SubAcc) (valid : IsValid v) (unused : v.curr_count ≡ 0)
      (pos : 0 < sub.len) where
    abbrev g : Bytes
    g = to_bytes v.key.g

    abbrev bottom : SubAcc
    bottom = record sub { wit = g }

    abbrev parent : Parent
    parent = record {
      value = generate_acc v.key g (sub.value ∷ []);
      wit = g;
      children = bottom ∷ [];
      len = 1;
    }

    no_children : v.accs.children ≡ []
    no_children = valid.empty unused

    no_len : v.accs.len ≡ 0
    no_len = valid.root.counted ∙ ap length no_children

    root_value : v.accs.value ≡ g
    root_value = valid.root.summed ∙ (unfold raise in rw no_children)

    first-IsValid : IsValid (first_sub_acc v sub)
    unfolding first_sub_acc
    first-IsValid = record {
      root = single-IsSummed v.key parent [];
      parents =
          Each-cons (IsFilled v.key) parent [] (single-IsSummed v.key sub g, omega arith)
            (λ i x h. cc);
      at_end = refl;
      empty = λ z. absurd (omega arith);
      some_parent = λ _. omega arith;
    }

    pub first-Grown : Grown v (first_sub_acc v sub) sub g
    unfolding first_sub_acc
    first-Grown = record {
      at = 0;
      j = 0;
      parent = parent;
      bottom = bottom;
      e₁ = g;
      w₀ = g;
      w₁ = v.accs.value;
      valid = first-IsValid;
      key_kept = refl;
      count = refl;
      parent_here = refl;
      parent_last = refl;
      bottom_here = refl;
      bottom_last = refl;
      bottom_value = refl;
      path = unfold root_path parent_path last_child in refl;
      walk = Walk.walk_roots_parent v.key _ v.accs v.accs.value (ap (λ t. ltb t 1) no_len);
      accepted = skip_new-parent v.key g v.accs.value [];
      parent_summed = refl;
      root_summed = ap (λ t. generate_acc v.key t (parent.value ∷ [])) root_value;
    }

    pub first-Adds : Adds v sub g (v.elem_nums + sub.len)
    first-Adds =
        let zero_count : (v.curr_count == 0) ≡ true = ground arith in
        (
          first_sub_acc v sub,
          (unfold add_sub_acc in simp zero_count),
          first-Grown,
          (unfold first_sub_acc in refl),
        )
