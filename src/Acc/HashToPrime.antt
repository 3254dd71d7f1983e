-- ===== src/Acc/HashToPrime.antt =====
-- acc/hash2prime.go: the map from numbers to primes.
use cess_pos_demo.Common.{
  ℕ, zero, suc, ◌+◌, ◌*◌, ◌≤◌, ◌<◌, ◌≡◌, true, false, if◌then◌else◌, arith, ap, sym, ◌∙◌,
  Bool-cases, inl, inr,
}
use cess_pos_demo.BigInt.{from_bytes, to_bytes}
use cess_pos_demo.Crypto.{Crypto}
use native.Mathlib.Decide.{ℕ_discrete}

module _ ⦃c : Crypto⦄ where
  -- `Fu`: 2 * (u + 2) * log2(u + 1)^2
  unfoldable pub fu : ℕ → ℕ
  fu u = (u + 2) * 2 * c.log2_squared (u + 1)

  -- The `for` of `Hprime`: the candidates are `base + j` for growing `j`.
  unfoldable pub next_prime : ℕ → ℕ → ℕ → ℕ
  next_prime zero base j = base + j
  next_prime (suc fuel) base j =
      let more = next_prime fuel base (j + 1) in
      if c.probably_prime (base + j) then base + j else more

  -- `j` starts as a copy of `Huj`, so the first candidate is twice `fu`.
  unfoldable pub hprime : ℕ → ℕ
  unfolding next_prime fu
  hprime u =
      let huj = fu (from_bytes (c.sha512 (to_bytes u))) in
      next_prime (c.prime_gap (huj + huj)) huj huj

  -- The search stops at the first candidate that passes the test.
  next_prime_finds :
      (fuel base j k : ℕ)
      → k ≤ fuel
      → c.probably_prime (base + j + k) ≡ true
      → (c.probably_prime (next_prime fuel base j) ≡ true)
        × (base + j ≤ next_prime fuel base j)
        × ((m : ℕ) → base + j ≤ m → m < next_prime fuel base j → c.probably_prime m ≡ false)
  unfolding next_prime
  next_prime_finds zero base j k h p =
      let z : base + j + k ≡ base + j = omega arith in
      (ap c.probably_prime (sym z) ∙ p, omega arith, λ m lo hi. absurd (omega arith))
  next_prime_finds (suc fuel) base j zero h p =
      let z : base + j + 0 ≡ base + j = omega arith in
      let e : c.probably_prime (base + j) ≡ true = ap c.probably_prime (sym z) ∙ p in
      rw e (e, omega arith, λ m lo hi. absurd (omega arith))
  next_prime_finds (suc fuel) base j (suc k) h p = elim (Bool-cases (c.probably_prime (base + j))) [
    | inl e ↦ rw e (e, omega arith, λ m lo hi. absurd (omega arith))
    | inr e ↦
        let z : base + (j + 1) + k ≡ base + j + suc k = omega arith in
        let (prime, above, first) =
          next_prime_finds fuel base (j + 1) k (omega arith) (ap c.probably_prime z ∙ p) in
        rw e (
          prime,
          omega arith,
          λ m lo hi. elim (ℕ_discrete m (base + j)) [
            | yes q ↦ ap c.probably_prime q ∙ e
            | no q ↦ first m (omega arith) hi
          ],
        )
  ]

  pub hprime_lem :
      (u : ℕ)
      → (c.probably_prime (hprime u) ≡ true)
        × (2 * fu (from_bytes (c.sha512 (to_bytes u))) ≤ hprime u)
        × ((m : ℕ)
            → 2 * fu (from_bytes (c.sha512 (to_bytes u))) ≤ m
            → m < hprime u
            → c.probably_prime m ≡ false)
  unfolding hprime
  hprime_lem u =
      let huj = fu (from_bytes (c.sha512 (to_bytes u))) in
      let (k, near, prime) = c.prime_within (huj + huj) in
      let (found, above, first) = next_prime_finds (c.prime_gap (huj + huj)) huj huj k near prime in
      (found, omega arith, λ m lo hi. first m (omega arith) hi)

  -- what every accumulator operation relies on
  pub hprime_pos : (u : ℕ) → 0 < hprime u
  hprime_pos u = c.prime_pos (hprime u) (hprime_lem u).0
