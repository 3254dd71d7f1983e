-- ===== src/Acc/Chain/Links.antt =====
-- `VerifyMutilevelAcc` decides whether a chain leads from an element to the root, and what
-- `VerifyInsertUpdate` lets pass.
use cess_pos_demo.Common.{
  ◌<◌, ◌≡◌, ◌↔◌, arith, true, List, [], ◌∷◌, length, ok, Bool-cases, inl, inr,
}
use cess_pos_demo.BigInt.{Bytes, from_bytes}
use cess_pos_demo.BigInt.Bytes.{equal_refl, eq_of_equal, equal_iff}
use cess_pos_demo.Crypto.{Crypto}
use cess_pos_demo.Acc.Accumulator.{RsaKey, raise, generate_acc, verify_acc}
use cess_pos_demo.Acc.Accumulator.Witnesses.{verify_acc_iff}
use cess_pos_demo.Acc.Chain.{
  WitnessNode, nil, node, verify_mutilevel_acc, skip_new, insert_levels, insert_update,
  verify_insert_update,
}

module _ ⦃c : Crypto⦄ where
  -- The chain ends in the root's value, and at each link the witness raised by the prime of the
  -- lower value is the upper value.
  pub data LeadsTo (key : RsaKey) (root : Bytes) : WitnessNode → Type 0 where
    at_root : (elem wit : Bytes) → elem ≡ root → LeadsTo key root (node elem wit nil)
    link :
        (elem wit elem' wit' : Bytes) (up : WitnessNode)
        → raise key.n (from_bytes wit) (elem ∷ []) ≡ from_bytes elem'
        → LeadsTo key root (node elem' wit' up)
        → LeadsTo key root (node elem wit (node elem' wit' up))

  accepted-LeadsTo :
      (key : RsaKey) (ch : WitnessNode) (root : Bytes)
      → verify_mutilevel_acc key ch root ≡ true
      → LeadsTo key root ch
  unfolding verify_mutilevel_acc
  accepted-LeadsTo key nil root h = cc
  accepted-LeadsTo key (node e w nil) root h = at_root e w (eq_of_equal e root h)
  accepted-LeadsTo key (node e w (node e' w' up)) root h =
      elim (Bool-cases (verify_acc key e' e w)) [
        | inl p ↦
            link e w e' w' up ((verify_acc_iff key e' e w).0 p)
              (accepted-LeadsTo key (node e' w' up) root (rw p at h))
        | inr p ↦ cc (rw p at h)
      ]

  LeadsTo-accepted :
      (key : RsaKey) (root : Bytes) (ch : WitnessNode)
      → LeadsTo key root ch
      → verify_mutilevel_acc key ch root ≡ true
  unfolding verify_mutilevel_acc
  LeadsTo-accepted key root _ (at_root e w p) = (equal_iff e root).1 p
  LeadsTo-accepted key root _ (link e w e' w' up p l) =
      rw ((verify_acc_iff key e' e w).1 p) (LeadsTo-accepted key root (node e' w' up) l)

  -- `VerifyMutilevelAcc` accepts exactly the chains that lead to the given root.
  pub verify_mutilevel_acc_iff :
      (key : RsaKey) (ch : WitnessNode) (root : Bytes)
      → (verify_mutilevel_acc key ch root ≡ true) ↔ LeadsTo key root ch
  verify_mutilevel_acc_iff key ch root =
      (accepted-LeadsTo key ch root, LeadsTo-accepted key root ch)

  -- A chain of one node that holds the verifier's root is accepted with any root `forged` as the
  -- last of the new accumulators: the loop over the levels does not start.
  pub verify_insert_update_forged :
      (key : RsaKey) (root wit middle forged : Bytes) (elems : List Bytes)
      → 0 < length elems
      → verify_insert_update key
          (node root wit nil)
          elems
          (generate_acc key root elems ∷ middle ∷ forged ∷ [])
          root
        ≡ ok true
  unfolding verify_insert_update insert_update insert_levels verify_mutilevel_acc skip_new
  verify_insert_update_forged key root wit middle forged [] h = absurd (omega arith)
  verify_insert_update_forged key root wit middle forged (x ∷ xs) h =
      rw (equal_refl root, equal_refl (generate_acc key root (x ∷ xs))) (ground arith)
