-- ===== src/Mht/Levels.antt =====
-- `calcLightMht` of tree/light_merkel_tree.go: for a power of two of elements, each slot of the
-- slice that it leaves is a node of the Merkle tree over the digests of the elements.
use cess_pos_demo.Common.{
  ℕ, zero, suc, ◌+◌, ◌-◌, ◌*◌, ◌≤◌, ◌<◌, [], ◌∷◌, ◌++◌, length, take, ◌==◌, if◌then◌else◌, ◌≡◌, ◌≢◌,
  ◌⊎◌, inl, inr, refl, ap, ap₂, ◌∙◌, arith, Bool-cases, ==_iff,
}
use cess_pos_demo.BigInt.{Bytes}
use cess_pos_demo.Crypto.{Crypto, hash_sum, length-hash_sum}
use cess_pos_demo.Encoding.{write_at}
use cess_pos_demo.Mht.Light.{fold_level}
use cess_pos_demo.Mht.Slots.{
  slot, slot-pair, slot-write_at_same, slot-write_at_other, length-write_at,
}

pub take-length : (xs : Bytes) (n : ℕ) → length xs ≡ n → take n xs ≡ xs
take-length [] zero h = refl
take-length [] (suc n) h = refl
take-length (x ∷ xs) zero h = absurd (omega arith)
take-length (x ∷ xs) (suc n) h = ap (λ t. x ∷ t) (take-length xs n (omega arith))

-- The sizes that `NewHash` has a digest of.
abbrev pub IsDigestSize : ℕ → Type 0
IsDigestSize size = (if size == 32 then 32 else 64) ≡ size

module _ ⦃c : Crypto⦄ (size : ℕ) (sized : IsDigestSize size) where
  abbrev pub above : Bytes → Bytes → Bytes
  above x y = hash_sum size (x ++ y)

  pub length-digest : (msg : Bytes) → length (hash_sum size msg) ≡ size
  length-digest msg = length-hash_sum size msg ∙ sized

  -- What one round writes.
  abbrev parent_of : ℕ → ℕ → Bytes → Bytes
  parent_of a j mht = above (slot size mht (a + 2 * j)) (slot size mht (a + 2 * j + 1))

  fold_level-step :
      (a b j : ℕ) (mht : Bytes)
      → fold_level size (a * size) (b * size) (suc j) (2 * suc j) mht
        ≡ fold_level size
            (a * size)
            (b * size)
            j
            (2 * j)
            (write_at ((b + j) * size) (parent_of a j mht) mht)
  unfolding fold_level
  fold_level-step a b j mht =
      let k : 2 * suc j - 2 ≡ 2 * j = omega arith in
      let from : a * size + 2 * j * size ≡ (a + 2 * j) * size = grind arith in
      let to : b * size + j * size ≡ (b + j) * size = grind arith in
      rw (
        k,
        from,
        to,
        slot-pair size (a + 2 * j) mht,
        take-length (parent_of a j mht) size (length-digest _),
      )

  abbrev written : ℕ → ℕ → ℕ → Bytes → Bytes
  written a b j mht = write_at ((b + j) * size) (parent_of a j mht) mht

  slot_fits :
      (b j : ℕ) (mht : Bytes) → (b + suc j) * size ≤ length mht → (b + j + 1) * size ≤ length mht
  slot_fits b j mht h = let e : b + suc j ≡ b + j + 1 = omega arith in rw e at h

  length-written :
      (a b j : ℕ) (mht : Bytes)
      → (b + suc j) * size ≤ length mht
      → length (written a b j mht) ≡ length mht
  length-written a b j mht h =
      let fits = slot_fits b j mht h in
      let e : (b + j + 1) * size ≡ (b + j) * size + size = grind arith in
      length-write_at ((b + j) * size) (parent_of a j mht) mht
        (omega (arith, length-digest (slot size mht (a + 2 * j) ++ slot size mht (a + 2 * j + 1))))

  room-step :
      (a b j : ℕ) (mht : Bytes)
      → (b + suc j) * size ≤ length mht
      → (b + j) * size ≤ length (written a b j mht)
  room-step a b j mht h =
      let e : (b + suc j) * size ≡ (b + j) * size + size = grind arith in
      omega (arith, length-written a b j mht h)

  pub length-fold_level :
      (a b j : ℕ) (mht : Bytes)
      → (b + j) * size ≤ length mht
      → length (fold_level size (a * size) (b * size) j (2 * j) mht) ≡ length mht
  length-fold_level a b zero mht h = unfold fold_level in refl
  length-fold_level a b (suc j) mht h = rw (fold_level-step a b j mht) (
      length-fold_level a b j (written a b j mht) (room-step a b j mht h)
      ∙ length-written a b j mht h)

  -- The slots outside the target stay.
  pub fold_level-outside :
      (a b j s : ℕ) (mht : Bytes)
      → (b + j) * size ≤ length mht
      → (s < b) ⊎ (b + j ≤ s)
      → slot size (fold_level size (a * size) (b * size) j (2 * j) mht) s ≡ slot size mht s
  fold_level-outside a b zero s mht h out = unfold fold_level in refl
  fold_level-outside a b (suc j) s mht h out =
      let other : s ≢ b + j = λ e. ground arith in
      rw (fold_level-step a b j mht) (
        fold_level-outside a b j s (written a b j mht) (room-step a b j mht h) (ground arith)
        ∙ slot-write_at_other size (b + j) s (parent_of a j mht) mht (length-digest _)
            (slot_fits b j mht h) other)

  -- A slot of the target gets the digest of its two children, as they were before. The target may
  -- stand behind the source or, as in the first level, take the place of its second half.
  pub fold_level-inside :
      (a b j s : ℕ) (mht : Bytes)
      → (b + j) * size ≤ length mht
      → (a + j ≤ b) ⊎ (b + j ≤ a)
      → s < j
      → slot size (fold_level size (a * size) (b * size) j (2 * j) mht) (b + s) ≡ parent_of a s mht
  fold_level-inside a b zero s mht h apart l = absurd (omega arith)
  fold_level-inside a b (suc j) s mht h apart l = elim (Bool-cases (s == j)) [
    | inl q ↦
        let e : s ≡ j = (==_iff s j).0 q in
        rw (fold_level-step a b j mht, e)
          (fold_level-outside a b j (b + j) (written a b j mht) (room-step a b j mht h)
              (inr (omega arith))
            ∙ slot-write_at_same size (b + j) (parent_of a j mht) mht (length-digest _)
                (slot_fits b j mht h))
    | inr q ↦
        let below : s < j = ground arith in
        let kept : (x : ℕ) → x ≢ b + j → slot size (written a b j mht) x ≡ slot size mht x = λ x n.
          slot-write_at_other size (b + j) x (parent_of a j mht) mht (length-digest _)
            (slot_fits b j mht h) n in
        rw (fold_level-step a b j mht) (
          fold_level-inside a b j s (written a b j mht) (room-step a b j mht h) (ground arith) below
          ∙ ap₂ above (kept (a + 2 * s) (λ e. ground arith))
              (kept (a + 2 * s + 1) (λ e. ground arith)))
  ]
