-- ===== src/Acc/Accumulator.antt =====
-- The RSA accumulator of acc/muti_level_acc.go: `generateAcc`, `generateWitness`, `VerifyAcc`.
pub mod Exponents
pub mod Witnesses
use cess_pos_demo.Common.{ℕ, zero, suc, ◌/◌, Bool, List, [], ◌∷◌, ◌++◌, length, take, drop, ◌==◌}
use cess_pos_demo.BigInt.{Bytes, from_bytes, to_bytes, mod_exp}
use cess_pos_demo.Crypto.{Crypto}
use cess_pos_demo.Acc.HashToPrime.{hprime}

-- acc/acc.go: the modulus and the generator
pub record RsaKey : Type 0 where
  pub n : ℕ
  pub g : ℕ

module _ ⦃c : Crypto⦄ where
  unfoldable pub prime_of : Bytes → ℕ
  prime_of u = hprime (from_bytes u)

  -- The loop `for _, u := range us { g.Exp(&g, &Hprime(u), &N) }`.
  unfoldable pub raise : ℕ → ℕ → List Bytes → ℕ
  raise n g [] = g
  raise n g (u ∷ us) = raise n (mod_exp g (prime_of u) n) us

  -- A nil `acc` gives nil.
  unfoldable pub generate_acc : RsaKey → Bytes → List Bytes → Bytes
  generate_acc key [] elems = []
  generate_acc key (b ∷ bs) elems = to_bytes (raise key.n (from_bytes (b ∷ bs)) elems)

  -- Each half takes the other half's primes into its base. The two goroutines that compute the
  -- bases write different variables and are waited for, so their order does not matter.
  unfoldable pub generate_witness_below : ℕ → ℕ → ℕ → List Bytes → List Bytes
  generate_witness_below zero n g us = []
  generate_witness_below (suc fuel) n g [] = []
  generate_witness_below (suc fuel) n g (u ∷ []) = to_bytes g ∷ []
  generate_witness_below (suc fuel) n g (u ∷ v ∷ us) =
      let half = length (u ∷ v ∷ us) / 2 in
      let left = take half (u ∷ v ∷ us) in
      let right = drop half (u ∷ v ∷ us) in
      generate_witness_below fuel n (raise n g right) left
      ++ generate_witness_below fuel n (raise n g left) right

  -- Each call is on a shorter list, so as many rounds as there are elements are enough.
  unfoldable pub generate_witness : ℕ → ℕ → List Bytes → List Bytes
  unfolding generate_witness_below
  generate_witness g n us = generate_witness_below (length us) n g us

  unfoldable pub verify_acc : RsaKey → Bytes → Bytes → Bytes → Bool
  verify_acc key acc u wit = mod_exp (from_bytes wit) (prime_of u) key.n == from_bytes acc
