-- ===== src/Acc/Chain/Acceptance.antt =====
-- When `VerifyInsertUpdate` accepts a chain of three levels.
use cess_pos_demo.Common.{◌<◌, ◌≡◌, arith, true, List, [], ◌∷◌, length, ok}
use cess_pos_demo.BigInt.{Bytes}
use cess_pos_demo.BigInt.Bytes.{equal_refl}
use cess_pos_demo.Crypto.{Crypto}
use cess_pos_demo.Acc.Accumulator.{RsaKey, generate_acc, verify_acc}
use cess_pos_demo.Acc.Chain.{
  WitnessNode, nil, node, verify_mutilevel_acc, skip_new, insert_levels, insert_update,
  verify_insert_update,
}

module _ ⦃c : Crypto⦄ (key : RsaKey) where
  -- A chain that is accepted stays accepted without the accumulators that count as new.
  pub skip_new-accepted :
      (ch : WitnessNode) (acc : Bytes)
      → verify_mutilevel_acc key ch acc ≡ true
      → verify_mutilevel_acc key (skip_new ch) acc ≡ true
  unfolding verify_mutilevel_acc skip_new
  skip_new-accepted nil acc h = h
  skip_new-accepted (node e w nil) acc h = h
  skip_new-accepted (node e w (node e' w' up)) acc h =
      ground (arith, skip_new-accepted (node e' w' up) acc)

  -- A chain whose root is the verifier's and whose links are all witnessed.
  pub verify_mutilevel_acc_links :
      (e₀ w₀ e₁ w₁ r w : Bytes)
      → verify_acc key e₁ e₀ w₀ ≡ true
      → verify_acc key r e₁ w₁ ≡ true
      → verify_mutilevel_acc key (node e₀ w₀ (node e₁ w₁ (node r w nil))) r ≡ true
  unfolding verify_mutilevel_acc
  verify_mutilevel_acc_links e₀ w₀ e₁ w₁ r w p q = rw (p, q) (equal_refl r)

  -- Where a parent was begun, two chain nodes count as new and the root is left.
  pub skip_new-parent :
      (g r w : Bytes)
      → verify_mutilevel_acc key (skip_new (node g g (node g r (node r w nil)))) r ≡ true
  unfolding verify_mutilevel_acc skip_new
  skip_new-parent g r w = rw (equal_refl g, equal_refl r) (equal_refl r)

  -- Where a sub-accumulator was begun, one does, and its parent's chain is left.
  pub skip_new-sub :
      (g p u r w : Bytes)
      → verify_acc key r p u ≡ true
      → verify_mutilevel_acc key (skip_new (node g p (node p u (node r w nil)))) r ≡ true
  skip_new-sub g p u r w h =
      let whole : verify_mutilevel_acc key (node p u (node r w nil)) r ≡ true =
        unfold verify_mutilevel_acc in rw h (equal_refl r) in
      unfold skip_new in rw (equal_refl p) (skip_new-accepted (node p u (node r w nil)) r whole)

  pub verify_insert_update-accepts :
      (e₀ w₀ e₁ w₁ r w a₀ a₁ a₂ : Bytes) (elems : List Bytes)
      → 0 < length elems
      → verify_mutilevel_acc key (skip_new (node e₀ w₀ (node e₁ w₁ (node r w nil)))) r ≡ true
      → generate_acc key e₀ elems ≡ a₀
      → generate_acc key w₀ (a₀ ∷ []) ≡ a₁
      → generate_acc key w₁ (a₁ ∷ []) ≡ a₂
      → verify_insert_update key
          (node e₀ w₀ (node e₁ w₁ (node r w nil)))
          elems
          (a₀ ∷ a₁ ∷ a₂ ∷ [])
          r
        ≡ ok true
  unfolding verify_insert_update insert_update insert_levels
  verify_insert_update-accepts e₀ w₀ e₁ w₁ r w a₀ a₁ a₂ [] h old p q s = absurd (omega arith)
  verify_insert_update-accepts e₀ w₀ e₁ w₁ r w a₀ a₁ a₂ (x ∷ xs) h old p q s =
      rw (old, p, equal_refl a₀, q, equal_refl a₁, s, equal_refl a₂) (ground arith)
