-- ===== src/Mht/Paths.antt =====
-- `GetPathProof` of tree/light_merkel_tree.go: the proof that it reads off the tree in one slice is
-- one that `VerifyPathProof` accepts.
use native.Mathlib.Nat.{two-pow-succ, pow-le-pow_right, mul-le-mul_right}
use mathlib.Core.Path.{subst}
use cess_pos_demo.Common.{
  ℕ, zero, suc, ◌+◌, ◌-◌, ◌*◌, ◌/◌, ◌%◌, ◌^◌, ◌≤◌, ◌<◌, true, [], length, leb, ◌==◌, ◌≡◌, inl, inr,
  refl, sym, ap, ap₂, ◌∙◌, arith, Bool-cases, ok, Returns,
}
use cess_pos_demo.BigInt.{Bytes}
use cess_pos_demo.Crypto.{Crypto, hash_sum}
use cess_pos_demo.Mht.{PathProof, join, climb}
use cess_pos_demo.Mht.Light.{slot_of, sibling, side, with_step, path_rounds, path_first}
use cess_pos_demo.Mht.Slots.{slot}
use cess_pos_demo.Mht.Levels.{IsDigestSize, above}
use cess_pos_demo.Mht.Built.{level, HasLevels}

module _ ⦃c : Crypto⦄ (size : ℕ) (sized : IsDigestSize size) where
  -- A node and its sibling, in the order of their sides, are hashed to the node above.
  join-level :
      (f : ℕ → Bytes) (i index : ℕ)
      → hash_sum size
          (join (side index) (level size sized f i (sibling index)) (level size sized f i index))
        ≡ level size sized f (suc i) (index / 2)
  unfolding join side sibling level
  join-level f i index = elim (Bool-cases ((index + 1) % 2 == 0)) [
    | inl q ↦
        let l : index - 1 ≡ 2 * (index / 2) = ground arith in
        let r : index ≡ 2 * (index / 2) + 1 = ground arith in
        rw (q, l)
          (ap
            (λ t.
              above size sized (level size sized f i (2 * (index / 2))) (level size sized f i t))
            r)
    | inr q ↦
        let l : index ≡ 2 * (index / 2) = ground arith in
        rw q (
          ap₂ (λ s t. above size sized (level size sized f i s) (level size sized f i t)) l
            (ap (λ t. t + 1) l))
  ]

  sibling-lt : (r index : ℕ) → index < 2 ^ suc r → sibling index < 2 ^ suc r
  unfolding sibling
  sibling-lt r index h = let double = two-pow-succ r in ground arith

  slot_of_lem :
      (bytes : Bytes) (base from : ℕ)
      → (base + from + 1) * size ≤ length bytes
      → slot_of bytes (base * size) size from ≡ ok (slot size bytes (base + from))
  unfolding slot_of slot
  slot_of_lem bytes base from h =
      let e : base * size + (from + 1) * size ≡ (base + from + 1) * size = grind arith in
      let e' : base * size + from * size ≡ (base + from) * size = grind arith in
      let fits : leb ((base + from + 1) * size) (length bytes) ≡ true = ground arith in
      rw (e, fits, e')

  climb-nil : (digest : Bytes) → climb size [] [] digest ≡ digest
  unfolding climb
  climb-nil digest = refl

  -- From node `index` of level `i` the proof climbs to the root, level `d`.
  abbrev pub Climbs : (ℕ → Bytes) → ℕ → ℕ → ℕ → PathProof → Type 0
  Climbs f d i index proof =
      (length proof.locs ≡ length proof.path)
      × (climb size proof.locs proof.path (level size sized f i index) ≡ level size sized f d 0)

  Climbs-with_step :
      (f : ℕ → Bytes) (d i index : ℕ) (rest : PathProof)
      → Climbs f d (suc i) (index / 2) rest
      → Climbs f d i index (with_step (side index) (level size sized f i (sibling index)) rest)
  unfolding climb
  Climbs-with_step f d i index rest (l, e) =
      (ap suc l, ap (climb size rest.locs rest.path) (join-level f i index) ∙ e)

  -- The rounds behind the first, on the tree in the slice.
  module _ (f : ℕ → Bytes) (d : ℕ) (mht : Bytes) (built : HasLevels size sized f d d mht)
      (whole : length mht ≡ 2 ^ d * size) where
    sibling_read :
        (r i index : ℕ)
        → 0 < i
        → i + suc r ≡ d
        → index < 2 ^ suc r
        → slot_of mht (2 ^ suc r * size) size (sibling index)
          ≡ ok (level size sized f i (sibling index))
    sibling_read r i index pos sum h =
        let below = sibling-lt r index h in
        let double = two-pow-succ (suc r) in
        let upper : 2 ^ suc (suc r) ≤ 2 ^ d = pow-le-pow_right (omega arith) (omega arith) in
        let slots : 2 ^ suc r + sibling index + 1 ≤ 2 ^ d = omega arith in
        let fits : (2 ^ suc r + sibling index + 1) * size ≤ length mht =
          rw whole (mul-le-mul_right size slots) in
        slot_of_lem mht (2 ^ suc r) (sibling index) fits
        ∙ ap ok (built i (suc r) (sibling index) pos (omega arith) sum below)

    path_rounds-suc :
        (r : ℕ) (bytes : Bytes) (num p index : ℕ) (rest : PathProof) {digest : Bytes}
        → slot_of bytes p size (sibling index) ≡ ok digest
        → path_rounds r bytes size (num / 2) (p - num / 2) (index / 2) ≡ ok rest
        → path_rounds (suc r) bytes size num p index ≡ ok (with_step (side index) digest rest)
    unfolding path_rounds
    path_rounds-suc r bytes num p index rest h k = rw (h, k)

    path_rounds-Climbs :
        (r i num p index : ℕ)
        → 0 < i
        → i + r ≡ d
        → num ≡ 2 ^ r * size
        → p ≡ 2 ^ r * size
        → index < 2 ^ r
        → Returns (path_rounds r mht size num p index) (Climbs f d i index)
    unfolding path_rounds
    path_rounds-Climbs zero i num p index pos sum hn hp h =
        let e : i ≡ d = omega arith in
        let z : index ≡ 0 = omega arith in
        (record { locs = []; path = [] }, refl, (refl, rw (e, z) (climb-nil _)))
    path_rounds-Climbs (suc r) i num p index pos sum hn hp h =
        let double : 2 ^ suc r * size ≡ 2 * (2 ^ r * size) = rw (two-pow-succ r) (grind arith) in
        let double' = two-pow-succ r in
        let (rest, runs, climbs) =
          path_rounds-Climbs r (suc i) (num / 2) (p - num / 2) (index / 2) (omega arith)
            (omega arith) (omega arith) (omega arith) (omega arith) in
        (
          with_step (side index) (level size sized f i (sibling index)) rest,
          path_rounds-suc r mht num p index rest
              (ap (λ t. slot_of mht t size (sibling index)) hp ∙ sibling_read r i index pos sum h)
              runs,
          Climbs-with_step f d i index rest climbs,
        )

    path_first-suc :
        (r : ℕ) (elems : Bytes) (index : ℕ) (rest : PathProof) {digest : Bytes}
        → slot_of elems 0 size (sibling index) ≡ ok digest
        → path_rounds r mht size (length elems / 2) (length mht - length elems / 2) (index / 2)
          ≡ ok rest
        → path_first (suc r) mht elems size index
          ≡ ok (with_step (side index) (hash_sum size digest) rest)
    unfolding path_first
    path_first-suc r elems index rest h k = rw (h, k)

    pub path_first-Climbs :
        (elems : Bytes) (d' index : ℕ)
        → d ≡ suc d'
        → length elems ≡ length mht
        → ((s : ℕ) → f s ≡ hash_sum size (slot size elems s))
        → index < 2 ^ d
        → Returns (path_first d mht elems size index) (Climbs f d 0 index)
    path_first-Climbs elems d' index e same leaves h =
        let small : index < 2 ^ suc d' = rw e at h in
        let below = sibling-lt d' index small in
        let double' = two-pow-succ d' in
        let double : 2 ^ suc d' * size ≡ 2 * (2 ^ d' * size) = rw double' (grind arith) in
        let total : length elems ≡ 2 ^ suc d' * size = same ∙ whole ∙ ap (λ t. 2 ^ t * size) e in
        let fits : (0 + sibling index + 1) * size ≤ length elems =
          rw total (mul-le-mul_right size (omega arith)) in
        let none : 0 * size ≡ 0 = omega arith in
        let front : 0 + sibling index ≡ sibling index = omega arith in
        let read : slot_of elems 0 size (sibling index) ≡ ok (slot size elems (sibling index)) =
          ap (λ t. slot_of elems t size (sibling index)) (sym none)
          ∙ slot_of_lem elems 0 (sibling index) fits
          ∙ ap (λ t. ok (slot size elems t)) front in
        let leaf : level size sized f 0 (sibling index)
            ≡ hash_sum size (slot size elems (sibling index)) =
          unfold level in leaves (sibling index) in
        let (rest, runs, climbs) =
          path_rounds-Climbs d' 1 (length elems / 2) (length mht - length elems / 2) (index / 2)
            (omega arith) (omega arith) (omega arith) (omega arith) (omega arith) in
        (
          with_step (side index) (hash_sum size (slot size elems (sibling index))) rest,
          ap (λ t. path_first t mht elems size index) e
              ∙ path_first-suc d' elems index rest read runs,
          subst (λ t. Climbs f d 0 index (with_step (side index) t rest)) leaf
              (Climbs-with_step f d 0 index rest climbs),
        )
