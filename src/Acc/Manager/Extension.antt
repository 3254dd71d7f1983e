-- ===== src/Acc/Manager/Extension.antt =====
-- What `AddElements` builds from a state that is ready: in each case, an extension of the last
-- accumulator or a new one.
use cess_pos_demo.Common.{
  ℕ, suc, ◌+◌, ◌-◌, ◌/◌, ◌≤◌, ◌<◌, ◌≡◌, inl, inr, arith, List, [], ◌++◌, some, length, get_elem?,
  ok, ltb, leb, true, false, ◌&&◌, get_elem?-lt, Bool-cases, length-append,
}
use mathlib.Core.Path.{subst}
use native.Mathlib.Decide.{ℕ_discrete}
use cess_pos_demo.BigInt.{Bytes, to_bytes}
use cess_pos_demo.Crypto.{Crypto}
use cess_pos_demo.Acc.Accumulator.{raise}
use cess_pos_demo.Acc.Tree.{Parent}
use cess_pos_demo.Acc.Manager.{MutiLevelAcc, default_elems_num, open_values}
use cess_pos_demo.Acc.Manager.Cases.{begin_parent, append_sub, replace_sub}
use cess_pos_demo.Acc.Manager.First.{sub_of, first-Adds}
use cess_pos_demo.Acc.Manager.Insertion.{Adds}
use cess_pos_demo.Acc.Manager.Invariant.{IsReady}

-- What `AddElements` asks of the number of elements, and that their file can be written.
pub record CanAdd (s : MutiLevelAcc) (elems : List Bytes) : Type 0 where
  pub some_elem : 0 < length elems
  pub fits :
      s.view.curr_count < default_elems_num → length elems + s.view.curr_count ≤ default_elems_num
  pub writable :
      s.disk.write_fails ((s.view.elem_nums + length elems - 1) / default_elems_num) ≡ false

module _ ⦃c : Crypto⦄ (s : MutiLevelAcc) (ready : IsReady s) (elems : List Bytes)
    (can : CanAdd s elems) where
  open s.view use {key as key}

  -- The values that stand before the new ones, and the tree with the new sub-accumulator.
  abbrev pub Extends : Type 0
  Extends =
      (old : List Bytes) × (open_values s ≡ ok old)
      × Adds s.view (sub_of key (old ++ elems)) (to_bytes (raise key.n key.g old))
          (s.view.elem_nums + length elems)

  pub long : (old : List Bytes) → 0 < length (old ++ elems)
  long old = omega (arith, length-append old elems, can.some_elem)

  open_values_closed :
      (ltb 0 s.view.curr_count && ltb s.view.curr_count default_elems_num) ≡ false
      → open_values s ≡ ok []
  unfolding open_values
  open_values_closed e = rw e

  extends_empty : s.view.curr_count ≡ 0 → Extends
  extends_empty z = (
    [],
    open_values_closed (ground arith),
    (unfold raise in first-Adds s.view (sub_of key elems) ready.valid z (long [])),
  )

  module _ (used : 0 < s.view.curr_count) (at : ℕ) (p : Parent)
      (last : length s.view.accs.children ≡ suc at)
      (here : get_elem? s.view.accs.children at ≡ some p) where
    extends_closed :
        (ltb 0 s.view.curr_count && ltb s.view.curr_count default_elems_num) ≡ false → Extends
    extends_closed closed =
        let sub = sub_of key elems in
        let adds : Adds s.view sub (to_bytes key.g) (s.view.elem_nums + length elems) =
          elim (Bool-cases (leb (length p.children + 1) default_elems_num)) [
            | inl room ↦ append_sub s.view sub ready.valid (long []) at p last here used closed room
            | inr full ↦
                begin_parent s.view sub ready.valid (long []) at p last here used closed full
          ] in
        ([], open_values_closed closed, (unfold raise in adds))

    extends_open :
        (ltb 0 s.view.curr_count && ltb s.view.curr_count default_elems_num) ≡ true → Extends
    extends_open room =
        let (file, stored, size, link) = ready.stored used (ground arith) in
        let old = file.values in
        let j = length p.children - 1 in
        let some_sub = (ready.valid.parents at p here).1 in
        let bottom : length p.children ≡ suc j = omega arith in
        let (x, there) = get_elem?-lt p.children j (omega arith) in
        let value = link at j p x here last there bottom in
        let total : s.view.elem_nums + length (old ++ elems) - s.view.curr_count
            ≡ s.view.elem_nums + length elems =
          omega (arith, length-append old elems) in
        (
          old,
          (unfold open_values in rw (room, stored)),
          subst (λ t. Adds s.view (sub_of key (old ++ elems)) t (s.view.elem_nums + length elems))
              value
              (subst (Adds s.view (sub_of key (old ++ elems)) x.value) total (
                replace_sub s.view (sub_of key (old ++ elems)) ready.valid (long old) at p last here
                  used j x bottom there room)),
        )

  extends_used : 0 < s.view.curr_count → Extends
  extends_used used =
      let at = length s.view.accs.children - 1 in
      let some_parent = ready.valid.some_parent used in
      let (p, here) = get_elem?-lt s.view.accs.children at (omega arith) in
      elim (Bool-cases (ltb 0 s.view.curr_count && ltb s.view.curr_count default_elems_num)) [
        | inl room ↦ extends_open used at p (omega arith) here room
        | inr closed ↦ extends_closed used at p (omega arith) here closed
      ]

  pub extends : Extends
  extends = elim (ℕ_discrete s.view.curr_count 0) [
    | yes z ↦ extends_empty z
    | no n ↦ extends_used (omega arith)
  ]
