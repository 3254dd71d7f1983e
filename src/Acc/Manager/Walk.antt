-- ===== src/Acc/Manager/Walk.antt =====
-- The walk of `AddElementsAndProof` in its three cases, and the nodes that it meets.
use cess_pos_demo.Common.{
  ℕ, suc, ◌<◌, ◌≡◌, ◌∙◌, arith, List, [], ◌∷◌, some, length, get_elem?, ok, ltb, true, false, ◌>>=◌,
}
use cess_pos_demo.BigInt.{Bytes, to_bytes}
use cess_pos_demo.Crypto.{Crypto}
use cess_pos_demo.Acc.Accumulator.{RsaKey, generate_acc}
use cess_pos_demo.Acc.Accumulator.Witnesses.{witness_at}
use cess_pos_demo.Acc.Chain.{nil, node}
use cess_pos_demo.Acc.Tree.{SubAcc, Parent, Root, values, update_acc}
use cess_pos_demo.Acc.Tree.Sums.{update_acc-IsSummed}
use cess_pos_demo.Acc.Tree.Children.{update_acc-child, length-update_acc, generate_acc-child}
use cess_pos_demo.Acc.Manager.Invariant.{last_child_lem}
use cess_pos_demo.Acc.Manager.Proofs.{last_child, walk_roots, parent_path, root_path}

module _ (key : RsaKey) (p q : Root) (r : Bytes) where
  pub walk_roots_parent :
      ltb q.len p.len ≡ true
      → walk_roots key p q (node r [] nil)
        ≡ ok (node (to_bytes key.g) (to_bytes key.g) (node (to_bytes key.g) r (node r [] nil)))
  unfolding walk_roots
  walk_roots_parent e = rw e

  module _ {p' q' : Parent} (same : ltb q.len p.len ≡ false) (at_p : last_child p ≡ ok p')
      (at_q : last_child q ≡ ok q') where
    pub walk_roots_append :
        ltb q'.len p'.len ≡ true
        → walk_roots key p q (node r [] nil)
          ≡ ok (node (to_bytes key.g) q'.value (node q'.value q'.wit (node r [] nil)))
    unfolding walk_roots
    walk_roots_append e = rw (same, at_p, ◌>>=◌, at_q, e)

    pub walk_roots_replace :
        {p'' q'' : SubAcc}
        → ltb q'.len p'.len ≡ false
        → last_child p' ≡ ok p''
        → last_child q' ≡ ok q''
        → walk_roots key p q (node r [] nil)
          ≡ ok (node q''.value q''.wit (node q'.value q'.wit (node r [] nil)))
    unfolding walk_roots
    walk_roots_replace e b d = rw (same, at_p, ◌>>=◌, at_q, e, b, ◌>>=◌, d)

parent_path_lem :
    (xs : List SubAcc) (p : Parent) (above : List Bytes) {s : SubAcc}
    → 0 < length xs
    → last_child p ≡ ok s
    → parent_path xs p above ≡ ok (s.value ∷ p.value ∷ above)
unfolding parent_path
parent_path_lem [] p above h e = absurd (omega arith)
parent_path_lem (x ∷ xs) p above h e = rw e

root_path_lem :
    (xs : List Parent) (r : Root) {p : Parent} {s : SubAcc}
    → 0 < length xs
    → last_child r ≡ ok p
    → 0 < length p.children
    → last_child p ≡ ok s
    → root_path xs r ≡ ok (s.value ∷ p.value ∷ r.value ∷ [])
unfolding root_path
root_path_lem [] r h a k b = absurd (omega arith)
root_path_lem (x ∷ xs) r {p} h a k b = rw a (parent_path_lem p.children p (r.value ∷ []) k b)

-- A root that `refresh` leaves: `ds` are its children before their witnesses are set.
module _ ⦃c : Crypto⦄ (key : RsaKey) (accs : Root) (ds : List Parent) (at : ℕ) (p : Parent) (j : ℕ)
    (sub : SubAcc) (there : get_elem? ds at ≡ some (update_acc key p)) (last : length ds ≡ suc at)
    (below : get_elem? p.children j ≡ some sub) (end : length p.children ≡ suc j) where
  abbrev pub new_root : Root
  new_root = update_acc key (record accs { children = ds })

  abbrev pub new_parent : Parent
  new_parent = record (update_acc key p) { wit = witness_at key.n key.g (values ds) at }

  abbrev pub new_sub : SubAcc
  new_sub = record sub { wit = witness_at key.n key.g (values p.children) j }

  pub new_parent_here : get_elem? new_root.children at ≡ some new_parent
  new_parent_here = update_acc-child key (record accs { children = ds }) at there

  pub new_parent_last : length new_root.children ≡ suc at
  new_parent_last = length-update_acc key (record accs { children = ds }) ∙ last

  pub new_sub_here : get_elem? new_parent.children j ≡ some new_sub
  new_sub_here = update_acc-child key p j below

  pub new_sub_last : length new_parent.children ≡ suc j
  new_sub_last = length-update_acc key p ∙ end

  pub new_parent_summed : generate_acc key new_sub.wit (sub.value ∷ []) ≡ new_parent.value
  new_parent_summed = generate_acc-child key (update_acc-IsSummed key p) j new_sub_here

  pub new_root_summed : generate_acc key new_parent.wit (new_parent.value ∷ []) ≡ new_root.value
  new_root_summed =
      generate_acc-child key (update_acc-IsSummed key (record accs { children = ds })) at
        new_parent_here

  pub last_child-new_root : last_child new_root ≡ ok new_parent
  last_child-new_root =
      last_child_lem key at (update_acc-IsSummed key (record accs { children = ds }))
        new_parent_last new_parent_here

  pub last_child-new_parent : last_child new_parent ≡ ok new_sub
  unfolding last_child
  last_child-new_parent =
      last_child_lem key j (update_acc-IsSummed key p) (length-update_acc key p ∙ end) new_sub_here

  -- The path from the new root down to the new sub-accumulator.
  pub root_path-new_root :
      root_path new_root.children new_root ≡ ok (sub.value ∷ new_parent.value ∷ new_root.value ∷ [])
  root_path-new_root =
      root_path_lem new_root.children new_root (omega (arith, new_parent_last)) last_child-new_root
        (omega (arith, new_sub_last)) last_child-new_parent
