-- ===== src/Acc/Manager/Invariant.antt =====
-- The invariant of the multi-level accumulator.
use cess_pos_demo.Common.{
  ℕ, zero, suc, ◌<◌, ◌≡◌, refl, ap, ◌∙◌, arith, [], ◌∷◌, some, none, length, get_elem?, last_index,
  Each, get_elem?-lt, lt-get_elem?, ok, ltb, ◌⊎◌, inl, true, false, ◌-◌, ◌/◌,
}
use mathlib.Core.Path.{subst}
use cess_pos_demo.BigInt.{Bytes, to_bytes}
use cess_pos_demo.BigInt.Bytes.{from_bytes-to_bytes}
use cess_pos_demo.Crypto.{Crypto}
use cess_pos_demo.Acc.Accumulator.{RsaKey, raise, generate_acc}
use cess_pos_demo.Acc.Accumulator.Exponents.{generate_acc-raise}
use cess_pos_demo.Acc.Accumulator.Witnesses.{witness_at}
use cess_pos_demo.Acc.Tree.{AccNode, SubAcc, Parent, Root, values, update_acc}
use cess_pos_demo.Acc.Tree.Sums.{IsSummed}
use cess_pos_demo.Acc.Tree.Children.{update_acc-child, length-update_acc}
use cess_pos_demo.Acc.Manager.{View, MutiLevelAcc, default_elems_num, copy, new_muti_level_acc}
use cess_pos_demo.Acc.Manager.Files.{AccData, Disk, read_acc_data}
use cess_pos_demo.Acc.Manager.Proofs.{last_child}

module _ ⦃c : Crypto⦄ where
  abbrev pub IsFilled : RsaKey → Parent → Type 0
  IsFilled key p = IsSummed key p × (0 < length p.children)

  -- Every node sums up its children, every parent has a child, `Parent` is the last one, and
  -- `CurrCount` is 0 exactly while there is none.
  pub record IsValid (v : View) : Type 0 where
    pub root : IsSummed v.key v.accs
    pub parents : Each (IsFilled v.key) v.accs.children
    pub at_end : v.parent ≡ last_index (length v.accs.children)
    pub empty : v.curr_count ≡ 0 → v.accs.children ≡ []
    pub some_parent : 0 < v.curr_count → 0 < length v.accs.children

  IsSummed-wit :
      {C : Type 0} (key : RsaKey) {node : AccNode (AccNode C)} (w : Bytes)
      → IsSummed key node
      → IsSummed key (record node { wit = w })
  IsSummed-wit key w s = record { counted = s.counted; summed = s.summed; proved = s.proved }

  pub update_acc-parents :
      (key : RsaKey) (root : Root)
      → Each (IsFilled key) root.children
      → Each (IsFilled key) (update_acc key root).children
  update_acc-parents key root ps i p h =
      let (x, here) =
        get_elem?-lt root.children i
          (omega (arith, lt-get_elem? _ i h, length-update_acc key root)) in
      let w = witness_at key.n key.g (values root.children) i in
      let same : record x { wit = w } ≡ p = cc (update_acc-child key root i here) in
      subst (IsFilled key) same (IsSummed-wit key w (ps i x here).0, (ps i x here).1)

  -- The node with one child that `addSubAcc` builds by hand for an empty accumulator.
  pub single-IsSummed :
      {C : Type 0} (key : RsaKey) (x : AccNode C) (w : Bytes)
      → IsSummed key (record {
        value = generate_acc key (to_bytes key.g) (x.value ∷ []);
        children = record x { wit = to_bytes key.g } ∷ [];
        len = 1;
        wit = w;
      })
  single-IsSummed key x w = record {
    counted = refl;
    summed =
        generate_acc-raise key (to_bytes key.g) (x.value ∷ [])
        ∙ ap (λ t. to_bytes (raise key.n t (x.value ∷ []))) (from_bytes-to_bytes key.g);
    proved = elim [ zero ↦ λ y h. (unfold raise in ground arith) | suc i ↦ λ y h. cc ];
  }

  -- `p.Children[p.Len-1]` is the last child.
  pub last_child_lem :
      {C : Type 0} (key : RsaKey) {p : AccNode (AccNode C)} (i : ℕ) {x : AccNode C}
      → IsSummed key p
      → length p.children ≡ suc i
      → get_elem? p.children i ≡ some x
      → last_child p ≡ ok x
  unfolding last_child
  last_child_lem key {p} i s l h =
      let total : p.len ≡ suc i = s.counted ∙ l in
      let at : p.len - 1 ≡ i = omega arith in
      let pos : ltb 0 p.len ≡ true = ground arith in rw (pos, at, h)

  -- The file of the current sub-accumulator holds the elements that it sums up.
  abbrev pub IsStored : MutiLevelAcc → Type 0
  IsStored s =
      0 < s.view.curr_count
      → s.view.curr_count < default_elems_num
      → (file : AccData) × (read_acc_data s.disk ((s.view.elem_nums - 1) / default_elems_num)
          ≡ some file)
        × (length file.values ≡ s.view.curr_count)
        × ((at j : ℕ) (p : Parent) (x : SubAcc)
            → get_elem? s.view.accs.children at ≡ some p
            → length s.view.accs.children ≡ suc at
            → get_elem? p.children j ≡ some x
            → length p.children ≡ suc j
            → x.value ≡ to_bytes (raise s.view.key.n s.view.key.g file.values))

  -- Between two calls: no update is on, and a snapshot that is there is of the present state.
  pub record IsReady (s : MutiLevelAcc) : Type 0 where
    pub valid : IsValid s.view
    pub stored : IsStored s
    pub idle : s.is_update ≡ false
    pub fresh : (s.snapshot ≡ none) ⊎ (s.snapshot ≡ some (copy s.view))

  -- A manager that was just made is ready.
  pub new_muti_level_acc-IsReady :
      (key : RsaKey) (disk : Disk) → IsReady (new_muti_level_acc key disk)
  unfolding new_muti_level_acc
  new_muti_level_acc-IsReady key disk = record {
    valid = record {
      root = record { counted = refl; summed = unfold raise in refl; proved = λ i x h. cc };
      parents = λ i x h. cc;
      at_end = refl;
      empty = λ _. refl;
      some_parent = λ h. absurd (omega arith);
    };
    stored = λ h _. absurd (omega arith);
    idle = refl;
    fresh = inl refl;
  }
