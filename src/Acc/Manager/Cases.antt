-- ===== src/Acc/Manager/Cases.antt =====
-- The four cases of `addSubAcc`.
use cess_pos_demo.Common.{
  ℕ, suc, ◌+◌, ◌-◌, ◌<◌, ◌≡◌, refl, sym, ap, ◌∙◌, arith, [], ◌∷◌, ◌++◌, some, length, get_elem?,
  set, last_index, ok, ltb, leb, ◌==◌, true, false, ◌&&◌, Each, Each-set, Each-append_one,
  modify-set, modify-append_one, get_elem?-set_self, get_elem?-append_one, length-append_one,
  length-set,
}
use cess_pos_demo.BigInt.{to_bytes}
use cess_pos_demo.Crypto.{Crypto}
use cess_pos_demo.Acc.Accumulator.{raise}
use cess_pos_demo.Acc.Chain.Acceptance.{
  skip_new-accepted, verify_mutilevel_acc_links, skip_new-parent, skip_new-sub,
}
use cess_pos_demo.Acc.Tree.{SubAcc, Parent, update_acc}
use cess_pos_demo.Acc.Tree.Sums.{IsSummed, update_acc-IsSummed}
use cess_pos_demo.Acc.Tree.Children.{
  erase_idx-values-set, erase_idx-values-append, length-update_acc, verify_acc-child,
}
use cess_pos_demo.Acc.Manager.{View, default_elems_num, place_sub_acc, refresh, add_sub_acc}
use cess_pos_demo.Acc.Manager.Invariant.{IsValid, IsFilled, last_child_lem}
use cess_pos_demo.Acc.Manager.Insertion.{
  Adds, regrown, regrown-Grown, next_root, next_parent, next_root_len, next_parent_len,
  last_child-next_root, last_child-next_parent,
}
use cess_pos_demo.Acc.Manager.Walk

module _ ⦃c : Crypto⦄ (v : View) (sub : SubAcc) (valid : IsValid v) (pos : 0 < sub.len) (at : ℕ)
    (p : Parent) (last : length v.accs.children ≡ suc at)
    (here : get_elem? v.accs.children at ≡ some p) (used : 0 < v.curr_count) where
  pointer : v.parent ≡ some at
  pointer = valid.at_end ∙ ap last_index last

  add_sub_acc-placed :
      (w : View) → place_sub_acc v at p sub ≡ ok w → add_sub_acc v sub ≡ ok (refresh w)
  unfolding add_sub_acc
  add_sub_acc-placed w e =
      let some_count : (v.curr_count == 0) ≡ false = ground arith in
      simp (some_count, pointer, here, e)

  abbrev begun : Parent
  begun = record { value = []; wit = to_bytes v.key.g; children = sub ∷ []; len = 0 }

  -- The current parent is full as well: a parent is begun.
  pub begin_parent :
      (ltb 0 v.curr_count && ltb v.curr_count default_elems_num) ≡ false
      → leb (length p.children + 1) default_elems_num ≡ false
      → Adds v sub (to_bytes v.key.g) (v.elem_nums + sub.len)
  begin_parent closed full =
      let cs = v.accs.children in
      let ds = cs ++ update_acc v.key begun ∷ [] in
      let total = v.elem_nums + sub.len in
      let filled : Each (IsFilled v.key) ds =
        Each-append_one (IsFilled v.key) cs (update_acc v.key begun) valid.parents
          (update_acc-IsSummed v.key begun, omega (arith, length-update_acc v.key begun)) in
      let there = get_elem?-append_one cs (update_acc v.key begun) in
      let more = length-append_one cs (update_acc v.key begun) in
      let len : ltb v.accs.len
            (next_root v ds total (length cs) 0 begun sub there more refl refl pos filled).len
          ≡ true =
        ground (
          arith,
          next_root_len v ds total (length cs) 0 begun sub there more refl refl pos filled,
          valid.root.counted,
        ) in
      (
        regrown v ds total (length cs) 0 sub.len,
        add_sub_acc-placed
              (record v {
                elem_nums = total;
                accs = record v.accs { children = cs ++ begun ∷ [] };
                parent = some (length cs);
                curr = some 0;
                curr_count = sub.len;
              })
              (unfold place_sub_acc in rw (closed, full))
            ∙ (unfold refresh in rw (modify-append_one (update_acc v.key) cs begun)),
        regrown-Grown v ds total (length cs) 0 begun sub there more refl refl pos filled
            (to_bytes v.key.g) (to_bytes v.key.g) (to_bytes v.key.g) v.accs.value
            (unfold raise in refl)
            (ap (λ t. to_bytes (raise v.key.n v.key.g t))
                (erase_idx-values-append cs (update_acc v.key begun))
              ∙ sym valid.root.summed)
            (Walk.walk_roots_parent v.key _ v.accs v.accs.value len)
            (skip_new-parent v.key (to_bytes v.key.g) v.accs.value []),
        refl,
      )

  filled : IsSummed v.key p
  filled = (valid.parents at p here).0

  -- A write to the current parent keeps the number of parents.
  no_new_parent : (n : ℕ) → n ≡ suc at → ltb v.accs.len n ≡ false
  no_new_parent n e = ground (arith, valid.root.counted)

  -- The current sub-accumulator is full and its parent is not: one is begun there.
  pub append_sub :
      (ltb 0 v.curr_count && ltb v.curr_count default_elems_num) ≡ false
      → leb (length p.children + 1) default_elems_num ≡ true
      → Adds v sub (to_bytes v.key.g) (v.elem_nums + sub.len)
  append_sub closed room =
      let cs = v.accs.children in
      let j = length p.children in
      let p' : Parent = record p { children = p.children ++ sub ∷ [] } in
      let ds = set cs at (update_acc v.key p') in
      let total = v.elem_nums + sub.len in
      let below = get_elem?-append_one p.children sub in
      let end = length-append_one p.children sub in
      let full : Each (IsFilled v.key) ds =
        Each-set (IsFilled v.key) cs at (update_acc v.key p') valid.parents
          (update_acc-IsSummed v.key p', omega (arith, length-update_acc v.key p', end)) in
      let there = get_elem?-set_self cs at (update_acc v.key p') (omega arith) in
      let size : length ds ≡ suc at = length-set cs at (update_acc v.key p') ∙ last in
      let len = next_parent_len v ds total at j p' sub there size below end pos full in
      let more : ltb p.len (next_parent v ds total at j p' sub there size below end pos full).len
          ≡ true =
        ground (arith, filled.counted, len) in
      (
        regrown v ds total at j sub.len,
        add_sub_acc-placed
              (record v {
                elem_nums = total;
                accs = record v.accs { children = set cs at p' };
                curr = some j;
                curr_count = sub.len;
              })
              (unfold place_sub_acc in rw (closed, room))
            ∙ (unfold refresh in rw (pointer, modify-set (update_acc v.key) cs at p')),
        regrown-Grown v ds total at j p' sub there size below end pos full (to_bytes v.key.g)
            p.value p.value p.wit
            (ap (λ t. to_bytes (raise v.key.n v.key.g t)) (erase_idx-values-append p.children sub)
              ∙ sym filled.summed)
            (ap (λ t. to_bytes (raise v.key.n v.key.g t))
                (erase_idx-values-set cs at (update_acc v.key p'))
              ∙ sym (valid.root.proved at p here))
            (Walk.walk_roots_append v.key _ v.accs v.accs.value
              (no_new_parent _ (next_root_len v ds total at j p' sub there size below end pos full))
              (last_child-next_root v ds total at j p' sub there size below end pos full)
              (last_child_lem v.key at valid.root last here) more)
            (skip_new-sub v.key (to_bytes v.key.g) p.value p.wit v.accs.value []
              (verify_acc-child v.key valid.root at here)),
        refl,
      )

  -- The current sub-accumulator has room: `sub` takes its place.
  pub replace_sub :
      (j : ℕ) (x : SubAcc)
      → length p.children ≡ suc j
      → get_elem? p.children j ≡ some x
      → (ltb 0 v.curr_count && ltb v.curr_count default_elems_num) ≡ true
      → Adds v sub x.value (v.elem_nums + sub.len - v.curr_count)
  replace_sub j x bottom there_x room =
      let cs = v.accs.children in
      let p' : Parent = record p { children = set p.children j sub } in
      let ds = set cs at (update_acc v.key p') in
      let total = v.elem_nums + sub.len - v.curr_count in
      let below = get_elem?-set_self p.children j sub (omega arith) in
      let end : length p'.children ≡ suc j = length-set p.children j sub ∙ bottom in
      let full : Each (IsFilled v.key) ds =
        Each-set (IsFilled v.key) cs at (update_acc v.key p') valid.parents
          (update_acc-IsSummed v.key p', omega (arith, length-update_acc v.key p', end)) in
      let there = get_elem?-set_self cs at (update_acc v.key p') (omega arith) in
      let size : length ds ≡ suc at = length-set cs at (update_acc v.key p') ∙ last in
      let len = next_parent_len v ds total at j p' sub there size below end pos full in
      let same : ltb p.len (next_parent v ds total at j p' sub there size below end pos full).len
          ≡ false =
        ground (arith, filled.counted, len) in
      let some_subs : (length p.children == 0) ≡ false = ground arith in
      let back : length p.children - 1 ≡ j = omega arith in
      (
        regrown v ds total at j sub.len,
        add_sub_acc-placed
              (record v {
                elem_nums = total;
                accs = record v.accs { children = set cs at p' };
                curr = some j;
                curr_count = sub.len;
              })
              (unfold place_sub_acc in rw (room, some_subs, back))
            ∙ (unfold refresh in rw (pointer, modify-set (update_acc v.key) cs at p')),
        regrown-Grown v ds total at j p' sub there size below end pos full x.value p.value x.wit
            p.wit
            (ap (λ t. to_bytes (raise v.key.n v.key.g t)) (erase_idx-values-set p.children j sub)
              ∙ sym (filled.proved j x there_x))
            (ap (λ t. to_bytes (raise v.key.n v.key.g t))
                (erase_idx-values-set cs at (update_acc v.key p'))
              ∙ sym (valid.root.proved at p here))
            (Walk.walk_roots_replace v.key _ v.accs v.accs.value
              (no_new_parent _ (next_root_len v ds total at j p' sub there size below end pos full))
              (last_child-next_root v ds total at j p' sub there size below end pos full)
              (last_child_lem v.key at valid.root last here) same
              (last_child-next_parent v ds total at j p' sub there size below end pos full)
              (last_child_lem v.key j filled bottom there_x))
            (skip_new-accepted v.key _ v.accs.value (
              verify_mutilevel_acc_links v.key x.value x.wit p.value p.wit v.accs.value []
                (verify_acc-child v.key filled j there_x)
                (verify_acc-child v.key valid.root at here))),
        refl,
      )
