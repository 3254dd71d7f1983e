-- ===== src/Mht/Acceptance.antt =====
-- The tree in one slice of tree/light_merkel_tree.go from the data on: `CalcLightMhtWithBytes`,
-- `GetRoot` and `GetPathProof` together make what `VerifyPathProof` accepts.
use native.Mathlib.Nat.{
  one-le-pow, pow-le-pow_right, mul-div_cancel, mul-mod_left, mul-le-mul_right,
}
use cess_pos_demo.Common.{
  ℕ, zero, suc, ◌+◌, ◌-◌, ◌*◌, ◌/◌, ◌%◌, ◌^◌, ◌≤◌, ◌<◌, true, false, length, take, drop, ltb, ◌==◌,
  if◌then◌else◌, ◌≡◌, ◌≢◌, inl, inr, refl, sym, ap, ◌∙◌, arith, Bool-cases, Returns,
}
use cess_pos_demo.BigInt.{Bytes}
use cess_pos_demo.BigInt.Bytes.{equal_refl}
use cess_pos_demo.Crypto.{Crypto, hash_sum}
use cess_pos_demo.Encoding.{write_at}
use cess_pos_demo.Mht.{PathProof, climb, verify_path_proof}
use cess_pos_demo.Mht.Light.{
  hash_blocks, fold_levels, calc_light_mht, calc_light_mht_with_bytes, get_root, get_path_proof,
}
use cess_pos_demo.Mht.Slots.{slot, slot-write_at_same, slot-write_at_other, length-write_at}
use cess_pos_demo.Mht.Levels.{IsDigestSize, length-digest, take-length}
use cess_pos_demo.Mht.Built.{bit_length-pow, level, HasLevels, fold_levels-HasLevels, size_pos}
use cess_pos_demo.Mht.Paths.{Climbs, path_first-Climbs}

module _ ⦃c : Crypto⦄ (size : ℕ) (sized : IsDigestSize size) where
  -- The digest of one element of the data.
  abbrev pub digest_of : Bytes → ℕ → Bytes
  digest_of elems s = hash_sum size (slot size elems s)

  hash_blocks-suc :
      (rounds i : ℕ) (elems mht : Bytes)
      → hash_blocks (suc rounds) i size elems mht
        ≡ hash_blocks rounds (suc i) size elems (write_at (i * size) (digest_of elems i) mht)
  unfolding hash_blocks slot
  hash_blocks-suc rounds i elems mht = rw (
      take-length (hash_sum size (take size (drop (i * size) elems))) size
        (length-digest size sized _))

  length-hash_block :
      (i : ℕ) (elems mht : Bytes)
      → (i + 1) * size ≤ length mht
      → length (write_at (i * size) (digest_of elems i) mht) ≡ length mht
  length-hash_block i elems mht h =
      let e : (i + 1) * size ≡ i * size + size = grind arith in
      length-write_at (i * size) (digest_of elems i) mht
        (omega (arith, length-digest size sized (slot size elems i)))

  first_fits :
      (i rounds : ℕ) (mht : Bytes)
      → (i + suc rounds) * size ≤ length mht
      → (i + 1) * size ≤ length mht
  first_fits i rounds mht h =
      let e : (i + suc rounds) * size ≡ (i + 1) * size + rounds * size = grind arith in omega arith

  length-hash_blocks :
      (rounds i : ℕ) (elems mht : Bytes)
      → (i + rounds) * size ≤ length mht
      → length (hash_blocks rounds i size elems mht) ≡ length mht
  length-hash_blocks zero i elems mht h = unfold hash_blocks in refl
  length-hash_blocks (suc rounds) i elems mht h =
      let l = length-hash_block i elems mht (first_fits i rounds mht h) in
      let e : i + suc rounds ≡ suc i + rounds = omega arith in
      rw (hash_blocks-suc rounds i elems mht) (
        length-hash_blocks rounds (suc i) elems (write_at (i * size) (digest_of elems i) mht)
          (rw l (rw e at h))
        ∙ l)

  -- Every slot from `i` on gets the digest of its element; those in front stay.
  slot-hash_blocks :
      (rounds i s : ℕ) (elems mht : Bytes)
      → (i + rounds) * size ≤ length mht
      → s < i + rounds
      → slot size (hash_blocks rounds i size elems mht) s
        ≡ (if ltb s i then slot size mht s else digest_of elems s)
  slot-hash_blocks zero i s elems mht h l =
      let q : ltb s i ≡ true = ground arith in rw q (unfold hash_blocks in refl)
  slot-hash_blocks (suc rounds) i s elems mht h l =
      let fits = first_fits i rounds mht h in
      let e : i + suc rounds ≡ suc i + rounds = omega arith in
      let w = write_at (i * size) (digest_of elems i) mht in
      let room : (suc i + rounds) * size ≤ length w =
        rw (length-hash_block i elems mht fits) (rw e at h) in
      let sized' = length-digest size sized (slot size elems i) in
      rw (hash_blocks-suc rounds i elems mht) (
        slot-hash_blocks rounds (suc i) s elems w room (omega arith) ∙ elim (Bool-cases (s == i)) [
          | inl q ↦
              let same : s ≡ i = ground arith in
              let a : ltb i (suc i) ≡ true = ground arith in
              let b : ltb i i ≡ false = ground arith in
              rw (same, a, b) (slot-write_at_same size i (digest_of elems i) mht sized' fits)
          | inr q ↦
              let other : s ≢ i = λ p. ground arith in
              let k = slot-write_at_other size i s (digest_of elems i) mht sized' fits other in
              ground arith
        ])

  module _ (d : ℕ) (elems buf : Bytes) (whole : length elems ≡ 2 ^ d * size)
      (same : length buf ≡ length elems) where
    abbrev blocks : Bytes
    blocks = hash_blocks (2 ^ d) 0 size elems buf

    room : (0 + 2 ^ d) * size ≤ length buf
    room = let e : 0 + 2 ^ d ≡ 2 ^ d = omega arith in rw (e, same, whole) (omega arith)

    length-blocks : length blocks ≡ 2 ^ d * size
    length-blocks = length-hash_blocks (2 ^ d) 0 elems buf room ∙ same ∙ whole

    calc-blocks :
        calc_light_mht_with_bytes elems size buf
        ≡ fold_levels (suc d) 0 size (2 ^ d * size) (0 * size) (2 ^ d * size / 2) blocks
    unfolding calc_light_mht_with_bytes calc_light_mht
    calc-blocks =
        let whole_slots : (2 ^ d * size % size == 0) ≡ true = rw (mul-mod_left (2 ^ d) size) refl in
        let count : 2 ^ d * size / size ≡ 2 ^ d = mul-div_cancel (2 ^ d) (size_pos size sized) in
        let none : 0 * size ≡ 0 = omega arith in
        rw (whole, whole_slots, count, length-blocks, count, bit_length-pow d, none)

    leaf_slot :
        (s : ℕ) → s < 2 ^ d → slot size blocks (0 + s) ≡ level size sized (digest_of elems) 0 s
    unfolding level
    leaf_slot s h =
        let e : 0 + s ≡ s = omega arith in
        let q : ltb s 0 ≡ false = ground arith in
        let k = slot-hash_blocks (2 ^ d) 0 s elems buf room (omega arith) in rw e (k ∙ rw q)

    levels_built :
        HasLevels size sized (digest_of elems) d d (calc_light_mht_with_bytes elems size buf)
        × (length (calc_light_mht_with_bytes elems size buf) ≡ 2 ^ d * size)
    levels_built =
        let e : 0 + d ≡ d = omega arith in
        let one : 2 ^ d * size ≡ 2 ^ d * size * 2 ^ 0 = omega arith in
        rw calc-blocks (
          rw e at (
            fold_levels-HasLevels size sized (digest_of elems) d 0 0 (2 ^ d * size / 2)
              (2 ^ d * size) blocks refl one length-blocks (λ l m s pos none. absurd (omega arith))
              (inl (refl, refl), λ s h. leaf_slot s h)))

    -- The slot of the root.
    pub get_root_lem :
        0 < d
        → get_root (calc_light_mht_with_bytes elems size buf) size
          ≡ level size sized (digest_of elems) d 0
    unfolding get_root
    get_root_lem pos =
        let (built, total) = levels_built in
        let mht = calc_light_mht_with_bytes elems size buf in
        let two : 2 ^ 1 ≤ 2 ^ d = pow-le-pow_right {n = 2} (omega arith) {i = 1} {j = d} pos in
        let room' : 2 * size ≤ 2 ^ d * size = mul-le-mul_right size (omega arith) in
        let fits : ltb (length mht) (size * 2) ≡ false = ground arith in
        let at : slot size mht 1 ≡ level size sized (digest_of elems) d 0 =
          built d 0 0 pos (omega arith) (omega arith) (omega arith) in
        let one : 1 * size ≡ size = omega arith in
        let read : slot size mht 1 ≡ take size (drop size mht) = unfold slot in rw one in
        rw fits (sym read ∙ at)

  level-digest : (f : ℕ → Bytes) (d : ℕ) → 0 < d → length (level size sized f d 0) ≡ size
  unfolding level
  level-digest f zero h = absurd (omega arith)
  level-digest f (suc d) h = length-digest size sized _

  verify-Climbs :
      (f : ℕ → Bytes) (d index : ℕ) (elem : Bytes) (proof : PathProof)
      → 0 < d
      → f index ≡ hash_sum size elem
      → Climbs size sized f d 0 index proof
      → verify_path_proof (level size sized f d 0) elem proof ≡ true
  unfolding verify_path_proof
  verify-Climbs f d index elem proof pos leaf (l, e) =
      let root = level-digest f d pos in
      let digest = length-digest size sized elem in
      let a : (length proof.locs == length proof.path) ≡ true = ground arith in
      let b : (size == size) ≡ true = ground arith in
      let base : level size sized f 0 index ≡ f index = unfold level in refl in
      let e' : climb size proof.locs proof.path (hash_sum size elem) ≡ level size sized f d 0 =
        ap (climb size proof.locs proof.path) (sym leaf ∙ sym base) ∙ e in
      rw (a, root, digest, b, e') (equal_refl (level size sized f d 0))

  -- For 2 ^ d elements with d > 0, whatever stood in the slice before, `GetPathProof` of any element
  -- ends without error in a proof that `VerifyPathProof` accepts below `GetRoot` for that element.
  pub get_path_proof-accepted :
      (d : ℕ) (elems buf : Bytes) (index : ℕ)
      → 0 < d
      → length elems ≡ 2 ^ d * size
      → length buf ≡ length elems
      → index < 2 ^ d
      → Returns
          (get_path_proof (calc_light_mht_with_bytes elems size buf) elems index size)
          (λ proof.
            verify_path_proof
              (get_root (calc_light_mht_with_bytes elems size buf) size)
              (slot size elems index)
              proof
            ≡ true)
  unfolding get_path_proof
  get_path_proof-accepted d elems buf index pos whole same h =
      let mht = calc_light_mht_with_bytes elems size buf in
      let (built, total) = levels_built d elems buf whole same in
      let (proof, runs, climbs) =
        path_first-Climbs size sized (digest_of elems) d mht built total elems (d - 1) index
          (omega arith) (whole ∙ sym total) (λ s. refl) h in
      let equal_lengths : (length mht == length elems) ≡ true = ground arith in
      let count : length elems / size ≡ 2 ^ d =
        rw whole (mul-div_cancel (2 ^ d) (size_pos size sized)) in
      let some_elem : (2 ^ d == 0) ≡ false = let p = one-le-pow d 2 (omega arith) in ground arith in
      let rounds : suc d - 1 ≡ d = omega arith in
      (
        proof,
        rw (equal_lengths, count, some_elem, bit_length-pow d, rounds, runs),
        rw (get_root_lem d elems buf whole same pos)
            (verify-Climbs (digest_of elems) d index (slot size elems index) proof pos refl climbs),
      )
