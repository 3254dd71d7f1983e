-- ===== src/Mht/Built.antt =====
-- The whole of `calcLightMht` of tree/light_merkel_tree.go, level by level.
use native.Mathlib.Nat.{
  two-pow-succ, one-le-pow, pow-le-pow_right, mul-div_cancel, div-lt_iff_lt-mul, div-eq_of_lt,
  div-eq_of_eq-mul_left,
}
use cess_pos_demo.Common.{
  ℕ, zero, suc, ◌+◌, ◌*◌, ◌/◌, ◌^◌, ◌≤◌, ◌<◌, length, ◌≡◌, ◌⊎◌, inl, inr, refl, ap, ap₂, ◌∙◌, arith,
  ◌==◌, false, Bool-cases,
}
use cess_pos_demo.BigInt.{Bytes}
use cess_pos_demo.Crypto.{Crypto}
use cess_pos_demo.Mht.Light.{bit_length_below, bit_length, fold_level, fold_levels}
use cess_pos_demo.Mht.Slots.{slot}
use cess_pos_demo.Mht.Levels.{
  IsDigestSize, above, length-fold_level, fold_level-outside, fold_level-inside,
}

lt-pow : (d : ℕ) → d < 2 ^ d
lt-pow zero = omega arith
lt-pow (suc d) = omega (arith, lt-pow d, two-pow-succ d)

bit_length_below-pow : (fuel d : ℕ) → d < fuel → bit_length_below fuel (2 ^ d) ≡ suc d
unfolding bit_length_below
bit_length_below-pow zero d h = absurd (omega arith)
bit_length_below-pow (suc zero) d h = let e : d ≡ 0 = omega arith in rw e
bit_length_below-pow (suc (suc fuel)) zero h = refl
bit_length_below-pow (suc (suc fuel)) (suc d) h =
    let pos = one-le-pow d 2 (omega arith) in
    let double = two-pow-succ d in
    let some_left : (2 ^ suc d == 0) ≡ false = ground arith in
    let half : 2 ^ suc d / 2 ≡ 2 ^ d = omega arith in
    rw (some_left, half) (ap suc (bit_length_below-pow (suc fuel) d (omega arith)))

pub bit_length-pow : (d : ℕ) → bit_length (2 ^ d) ≡ suc d
unfolding bit_length
bit_length-pow d = bit_length_below-pow (2 ^ d) d (lt-pow d)

module _ ⦃c : Crypto⦄ (size : ℕ) (sized : IsDigestSize size) where
  -- Level `i` of the Merkle tree over the digests `f`.
  unfoldable pub level : (ℕ → Bytes) → ℕ → ℕ → Bytes
  level f zero s = f s
  level f (suc i) s = above size sized (level f i (2 * s)) (level f i (2 * s + 1))

  -- The levels up to `i` of a tree of depth `d` stand in the slice, level `l` from slot `2 ^ (d - l)`.
  abbrev pub HasLevels : (ℕ → Bytes) → ℕ → ℕ → Bytes → Type 0
  HasLevels f i d mht =
      (l m s : ℕ) → 0 < l → l ≤ i → l + m ≡ d → s < 2 ^ m → slot size mht (2 ^ m + s) ≡ level f l s

  -- Where the level stands that the next round reads.
  abbrev Source : (ℕ → Bytes) → ℕ → ℕ → ℕ → Bytes → Type 0
  Source f i r a mht =
      (((i ≡ 0) × (a ≡ 0)) ⊎ (a ≡ 2 ^ r))
      × ((s : ℕ) → s < 2 ^ r → slot size mht (a + s) ≡ level f i s)

  both_halves :
      (m : ℕ) (mht : Bytes) → 2 ^ suc m * size ≤ length mht → (2 ^ m + 2 ^ m) * size ≤ length mht
  both_halves m mht h = rw (two-pow-succ m) at h

  level_up :
      (f : ℕ → Bytes) (i m a : ℕ) (mht : Bytes)
      → 2 ^ suc m * size ≤ length mht
      → Source f i (suc m) a mht
      → (s : ℕ) → s < 2 ^ m
      → slot size (fold_level size (a * size) (2 ^ m * size) (2 ^ m) (2 * 2 ^ m) mht) (2 ^ m + s)
        ≡ level f (suc i) s
  unfolding level
  level_up f i m a mht h (at, source) s l =
      let double = two-pow-succ m in
      let apart : (a + 2 ^ m ≤ 2 ^ m) ⊎ (2 ^ m + 2 ^ m ≤ a) = ground arith in
      let next : a + 2 * s + 1 ≡ a + (2 * s + 1) = omega arith in
      fold_level-inside size sized a (2 ^ m) (2 ^ m) s mht (both_halves m mht h) apart l
      ∙ ap₂ (above size sized) (source (2 * s) (omega arith))
          (ap (slot size mht) next ∙ source (2 * s + 1) (omega arith))

  one_level :
      (f : ℕ → Bytes) (i m a : ℕ) (mht : Bytes)
      → 2 ^ suc m * size ≤ length mht
      → HasLevels f i (i + suc m) mht
      → Source f i (suc m) a mht
      → HasLevels f
          (suc i)
          (suc i + m)
          (fold_level size (a * size) (2 ^ m * size) (2 ^ m) (2 * 2 ^ m) mht)
        × Source f
            (suc i)
            m
            (2 ^ m)
            (fold_level size (a * size) (2 ^ m * size) (2 ^ m) (2 * 2 ^ m) mht)
  one_level f i m a mht h built (at, source) =
      let double = two-pow-succ m in
      let new = level_up f i m a mht h (at, source) in
      (
        λ l m' s pos l≤ sum small. elim (Bool-cases (l == suc i)) [
          | inl q ↦
              let e : l ≡ suc i = ground arith in
              let e' : m' ≡ m = omega arith in rw (e, e') (new s (rw e' at small))
          | inr q ↦
              let l≤i : l ≤ i = ground arith in
              let more : 2 ^ suc m ≤ 2 ^ m' = pow-le-pow_right (omega arith) (omega arith) in
              fold_level-outside size sized a (2 ^ m) (2 ^ m) (2 ^ m' + s) mht (both_halves m mht h)
                (inr (omega arith))
              ∙ built l m' s pos l≤i (omega arith) small
        ],
        (inr refl, new),
      )

  pub size_pos : 0 < size
  size_pos = ground (arith, sized)

  -- The last round writes nothing.
  last_round :
      (i a p lens k : ℕ) (mht : Bytes)
      → lens ≡ 2 ^ 0 * size * 2 ^ i
      → fold_level size a p (lens / 2 ^ (i + 1) / size) k mht ≡ mht
  unfolding fold_level
  last_round i a p lens k mht h =
      let pos = one-le-pow i 2 (omega arith) in
      let e : i + 1 ≡ suc i = omega arith in
      let double : 2 ^ suc i ≡ 2 * 2 ^ i = omega (arith, two-pow-succ i) in
      let room : lens < size * 2 ^ suc i = grind (arith, size_pos) in
      let small : lens / 2 ^ suc i < size = (div-lt_iff_lt-mul (omega arith)).1 room in
      let none : lens / 2 ^ suc i / size ≡ 0 = div-eq_of_lt small in rw (e, none)

  le-mul_pos : (x y : ℕ) → 1 ≤ y → x ≤ x * y
  le-mul_pos x y h = grind arith

  fold_levels-suc :
      (rounds i lens src p : ℕ) (mht : Bytes)
      → fold_levels (suc rounds) i size lens src p mht
        ≡ fold_levels rounds
            (i + 1)
            size
            lens
            p
            (p / 2)
            (fold_level size src p (lens / 2 ^ (i + 1) / size) (lens / 2 ^ (i + 1) * 2 / size) mht)
  unfolding fold_levels
  fold_levels-suc rounds i lens src p mht = refl

  fold_levels-zero : (i lens src p : ℕ) (mht : Bytes) → fold_levels zero i size lens src p mht ≡ mht
  unfolding fold_levels
  fold_levels-zero i lens src p mht = refl

  -- What the code's numbers are in a round that is not the last.
  record Numbers (r i lens : ℕ) : Type 0 where
    num : lens / 2 ^ (i + 1) ≡ 2 ^ r * size
    rounds : lens / 2 ^ (i + 1) / size ≡ 2 ^ r
    twice : lens / 2 ^ (i + 1) * 2 / size ≡ 2 * 2 ^ r
    rest : lens ≡ 2 ^ r * size * 2 ^ suc i

  numbers : (r i lens : ℕ) → lens ≡ 2 ^ suc r * size * 2 ^ i → Numbers r i lens
  numbers r i lens h =
      let pos = one-le-pow i 2 (omega arith) in
      let e : i + 1 ≡ suc i = omega arith in
      let double_r = two-pow-succ r in
      let double_i = two-pow-succ i in
      let rest : lens ≡ 2 ^ r * size * 2 ^ suc i = h ∙ rw (double_r, double_i) (grind arith) in
      let num : lens / 2 ^ (i + 1) ≡ 2 ^ r * size =
        rw e (div-eq_of_eq-mul_left (omega arith) rest) in
      record {
        num = num;
        rounds = rw num (mul-div_cancel (2 ^ r) size_pos);
        twice = rw num (div-eq_of_eq-mul_left size_pos (grind arith));
        rest = rest;
      }

  pub fold_levels-HasLevels :
      (f : ℕ → Bytes) (r i a p lens : ℕ) (mht : Bytes)
      → p ≡ 2 ^ r * size / 2
      → lens ≡ 2 ^ r * size * 2 ^ i
      → length mht ≡ lens
      → HasLevels f i (i + r) mht
      → Source f i r a mht
      → HasLevels f (i + r) (i + r) (fold_levels (suc r) i size lens (a * size) p mht)
        × (length (fold_levels (suc r) i size lens (a * size) p mht) ≡ lens)
  fold_levels-HasLevels f zero i a p lens mht hp hl hm built source =
      let e : i + 0 ≡ i = omega arith in
      let k = lens / 2 ^ (i + 1) * 2 / size in
      rw
        (
          fold_levels-suc 0 i lens (a * size) p mht,
          fold_levels-zero (i + 1) lens p (p / 2)
              (fold_level size (a * size) p (lens / 2 ^ (i + 1) / size) k mht),
          last_round i (a * size) p lens k mht hl,
          e,
        )
        (rw e at built, hm)
  fold_levels-HasLevels f (suc r) i a p lens mht hp hl hm built source =
      let ns = numbers r i lens hl in
      let e : i + 1 ≡ suc i = omega arith in
      let double : 2 ^ suc r * size ≡ 2 * (2 ^ r * size) = rw (two-pow-succ r) (grind arith) in
      let whole : p ≡ 2 ^ r * size = omega arith in
      let fits : 2 ^ suc r * size ≤ length mht =
        rw (hm, hl) (le-mul_pos (2 ^ suc r * size) (2 ^ i) (one-le-pow i 2 (omega arith))) in
      let (built', source') = one_level f i r a mht fits built source in
      let mht' = fold_level size (a * size) (2 ^ r * size) (2 ^ r) (2 * 2 ^ r) mht in
      let sum : i + suc r ≡ suc i + r = omega arith in
      rw (fold_levels-suc (suc r) i lens (a * size) p mht, ns.rounds, ns.twice, e, whole, sum)
        (fold_levels-HasLevels f r (suc i) (2 ^ r) (2 ^ r * size / 2) lens mht' refl ns.rest
          (length-fold_level size sized a (2 ^ r) (2 ^ r) mht (both_halves r mht fits) ∙ hm) built'
          source')
