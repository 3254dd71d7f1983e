-- ===== src/Acc/Manager/Insertion.antt =====
-- `addSubAcc` in each of its cases: the tree stays valid, and the chain that the walk gives is one
-- that `VerifyInsertUpdate` follows.
use cess_pos_demo.Common.{
  ℕ, suc, ◌<◌, ◌≡◌, refl, sym, ap, ◌∙◌, arith, List, [], ◌∷◌, some, length, get_elem?, last_index,
  ok, true, Each,
}
use cess_pos_demo.BigInt.{Bytes}
use cess_pos_demo.Crypto.{Crypto}
use cess_pos_demo.Acc.Accumulator.{generate_acc}
use cess_pos_demo.Acc.Accumulator.Witnesses.{witness_at}
use cess_pos_demo.Acc.Chain.{nil, node, verify_mutilevel_acc, skip_new}
use cess_pos_demo.Acc.Tree.{SubAcc, Parent, Root, values, update_acc}
use cess_pos_demo.Acc.Tree.Sums.{update_acc-IsSummed}
use cess_pos_demo.Acc.Tree.Children.{length-update_acc}
use cess_pos_demo.Acc.Manager.{View, add_sub_acc}
use cess_pos_demo.Acc.Manager.Invariant.{IsValid, IsFilled, update_acc-parents}
use cess_pos_demo.Acc.Manager.Proofs.{last_child, walk_roots, root_path}
use cess_pos_demo.Acc.Manager.Walk

module _ ⦃c : Crypto⦄ where
  -- What an insertion of `sub` into `v` leaves, seen along the path to the last node. `e₀` is the
  -- value of the accumulator that was extended, the generator where a new one was begun.
  pub record Grown (v v' : View) (sub : SubAcc) (e₀ : Bytes) : Type 0 where
    pub at : ℕ
    pub j : ℕ
    pub parent : Parent
    pub bottom : SubAcc
    pub e₁ : Bytes
    pub w₀ : Bytes
    pub w₁ : Bytes
    pub valid : IsValid v'
    pub key_kept : v'.key ≡ v.key
    pub count : v'.curr_count ≡ sub.len
    pub parent_here : get_elem? v'.accs.children at ≡ some parent
    pub parent_last : length v'.accs.children ≡ suc at
    pub bottom_here : get_elem? parent.children j ≡ some bottom
    pub bottom_last : length parent.children ≡ suc j
    pub bottom_value : bottom.value ≡ sub.value
    pub path :
        root_path v'.accs.children v'.accs ≡ ok (sub.value ∷ parent.value ∷ v'.accs.value ∷ [])
    pub walk :
        walk_roots v'.key v'.accs v.accs (node v.accs.value [] nil)
        ≡ ok (node e₀ w₀ (node e₁ w₁ (node v.accs.value [] nil)))
    pub accepted :
        verify_mutilevel_acc v.key
          (skip_new (node e₀ w₀ (node e₁ w₁ (node v.accs.value [] nil))))
          v.accs.value
        ≡ true
    pub parent_summed : generate_acc v.key w₀ (sub.value ∷ []) ≡ parent.value
    pub root_summed : generate_acc v.key w₁ (parent.value ∷ []) ≡ v'.accs.value

  -- The state with `ds` as the parents, recomputed.
  abbrev pub regrown : View → List Parent → ℕ → ℕ → ℕ → ℕ → View
  regrown v ds total at j count = record v {
    accs = update_acc v.key (record v.accs { children = ds });
    elem_nums = total;
    parent = some at;
    curr = some j;
    curr_count = count;
  }

  pub regrown-IsValid :
      (v : View) (ds : List Parent) (total at j count : ℕ)
      → length ds ≡ suc at
      → 0 < count
      → Each (IsFilled v.key) ds
      → IsValid (regrown v ds total at j count)
  regrown-IsValid v ds total at j count l pos ps =
      let n : length (update_acc v.key (record v.accs { children = ds })).children ≡ suc at =
        length-update_acc v.key (record v.accs { children = ds }) ∙ l in
      record {
        root = update_acc-IsSummed v.key (record v.accs { children = ds });
        parents = update_acc-parents v.key (record v.accs { children = ds }) ps;
        at_end = sym (ap last_index n);
        empty = λ z. absurd (omega arith);
        some_parent = λ _. omega arith;
      }

  module _ (v : View) (ds : List Parent) (total at j : ℕ) (p : Parent) (sub : SubAcc)
      (there : get_elem? ds at ≡ some (update_acc v.key p)) (last : length ds ≡ suc at)
      (below : get_elem? p.children j ≡ some sub) (end : length p.children ≡ suc j)
      (pos : 0 < sub.len) (filled : Each (IsFilled v.key) ds) where
    abbrev pub next_parent : Parent
    next_parent = Walk.new_parent v.key v.accs ds at p j sub there last below end

    abbrev pub next_root : Root
    next_root = Walk.new_root v.key v.accs ds at p j sub there last below end

    pub next_root_len : next_root.len ≡ suc at
    next_root_len =
        (update_acc-IsSummed v.key (record v.accs { children = ds })).counted
        ∙ Walk.new_parent_last v.key v.accs ds at p j sub there last below end

    pub next_parent_len : next_parent.len ≡ suc j
    next_parent_len =
        (update_acc-IsSummed v.key p).counted
        ∙ Walk.new_sub_last v.key v.accs ds at p j sub there last below end

    pub last_child-next_root : last_child next_root ≡ ok next_parent
    last_child-next_root = Walk.last_child-new_root v.key v.accs ds at p j sub there last below end

    pub last_child-next_parent :
        last_child next_parent ≡ ok (Walk.new_sub v.key v.accs ds at p j sub there last below end)
    last_child-next_parent =
        Walk.last_child-new_parent v.key v.accs ds at p j sub there last below end

    pub regrown-Grown :
        (e₀ e₁ w₀ w₁ : Bytes)
        → witness_at v.key.n v.key.g (values p.children) j ≡ w₀
        → witness_at v.key.n v.key.g (values ds) at ≡ w₁
        → walk_roots v.key next_root v.accs (node v.accs.value [] nil)
          ≡ ok (node e₀ w₀ (node e₁ w₁ (node v.accs.value [] nil)))
        → verify_mutilevel_acc v.key
            (skip_new (node e₀ w₀ (node e₁ w₁ (node v.accs.value [] nil))))
            v.accs.value
          ≡ true
        → Grown v (regrown v ds total at j sub.len) sub e₀
    regrown-Grown e₀ e₁ w₀ w₁ q₀ q₁ walk accepted = record {
      at = at;
      j = j;
      parent = next_parent;
      bottom = Walk.new_sub v.key v.accs ds at p j sub there last below end;
      e₁ = e₁;
      w₀ = w₀;
      w₁ = w₁;
      valid = regrown-IsValid v ds total at j sub.len last pos filled;
      key_kept = refl;
      count = refl;
      parent_here = Walk.new_parent_here v.key v.accs ds at p j sub there last below end;
      parent_last = Walk.new_parent_last v.key v.accs ds at p j sub there last below end;
      bottom_here = Walk.new_sub_here v.key v.accs ds at p j sub there last below end;
      bottom_last = Walk.new_sub_last v.key v.accs ds at p j sub there last below end;
      bottom_value = refl;
      path = Walk.root_path-new_root v.key v.accs ds at p j sub there last below end;
      walk = walk;
      accepted = accepted;
      parent_summed =
          ap (λ t. generate_acc v.key t (sub.value ∷ [])) (sym q₀)
          ∙ Walk.new_parent_summed v.key v.accs ds at p j sub there last below end;
      root_summed =
          ap (λ t. generate_acc v.key t (next_parent.value ∷ [])) (sym q₁)
          ∙ Walk.new_root_summed v.key v.accs ds at p j sub there last below end;
    }

  -- `addSubAcc` succeeds, leaves `total` elements, and extends an accumulator of value `e₀`.
  abbrev pub Adds : View → SubAcc → Bytes → ℕ → Type 0
  Adds v sub e₀ total =
      (v' : View) × (add_sub_acc v sub ≡ ok v') × Grown v v' sub e₀ × (v'.elem_nums ≡ total)
