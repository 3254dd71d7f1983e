-- ===== src/Acc/Accumulator/Exponents.antt =====
-- Raising to a list of primes depends on the product of the primes alone.
use cess_pos_demo.Common.{
  ℕ, zero, suc, ◌*◌, ◌<◌, ◌≡◌, ◌≢◌, refl, sym, ap, ◌∙◌, arith, List, [], ◌∷◌, ◌++◌,
}
use mathlib.Core.List.{append-nil}
use native.Mathlib.Nat.{mul_comm, mul_assoc, mul-zero, pow-suc, zero-mod}
use cess_pos_demo.BigInt.{Bytes, from_bytes, to_bytes, mod_exp}
use cess_pos_demo.BigInt.Bytes.{to_bytes-zero}
use cess_pos_demo.BigInt.Power.{mod_exp-mod_exp}
use cess_pos_demo.Crypto.{Crypto}
use cess_pos_demo.Acc.HashToPrime.{hprime_pos}
use cess_pos_demo.Acc.Accumulator.{RsaKey, prime_of, raise, generate_acc}

module _ ⦃c : Crypto⦄ where
  pub product : List Bytes → ℕ
  product [] = 1
  product (u ∷ us) = prime_of u * product us

  pub product-append : (us vs : List Bytes) → product (us ++ vs) ≡ product us * product vs
  unfolding product
  product-append [] vs = omega arith
  product-append (u ∷ us) vs = simp (product-append us vs, mul_assoc)

  pub prime_of_pos : (u : Bytes) → 0 < prime_of u
  unfolding prime_of
  prime_of_pos u = hprime_pos (from_bytes u)

  pub raise-append :
      (n g : ℕ) (us vs : List Bytes) → raise n g (us ++ vs) ≡ raise n (raise n g us) vs
  unfolding raise
  raise-append n g [] vs = refl
  raise-append n g (u ∷ us) vs = raise-append n (mod_exp g (prime_of u) n) us vs

  raise_after :
      (n x k : ℕ) (us : List Bytes) → raise n (mod_exp x k n) us ≡ mod_exp x (k * product us) n
  unfolding raise product
  raise_after n x k [] = ap (λ t. mod_exp x t n) (omega arith)
  raise_after n x k (u ∷ us) =
      ap (λ t. raise n t us) (mod_exp-mod_exp x k (prime_of u) n)
      ∙ raise_after n x (k * prime_of u) us
      ∙ ap (λ t. mod_exp x t n) (mul_assoc k (prime_of u) (product us))

  -- With one element or more, the result is one modular power, by the product of the primes.
  pub raise_cons :
      (n g : ℕ) (u : Bytes) (us : List Bytes) → raise n g (u ∷ us) ≡ mod_exp g (product (u ∷ us)) n
  unfolding raise product
  raise_cons n g u us = raise_after n g (prime_of u) us

  -- So the order of the elements does not matter.
  pub raise_congr :
      (n g : ℕ) (us vs : List Bytes)
      → us ≢ []
      → vs ≢ []
      → product us ≡ product vs
      → raise n g us ≡ raise n g vs
  raise_congr n g [] vs hu hv e = absurd (hu refl)
  raise_congr n g (u ∷ us) [] hu hv e = absurd (hv refl)
  raise_congr n g (u ∷ us) (v ∷ vs) hu hv e =
      raise_cons n g u us ∙ ap (λ t. mod_exp g t n) e ∙ sym (raise_cons n g v vs)

  pub raise_comm : (n g : ℕ) (us vs : List Bytes) → raise n g (us ++ vs) ≡ raise n g (vs ++ us)
  raise_comm n g [] vs = ap (raise n g) (sym (append-nil vs))
  raise_comm n g (u ∷ us) [] = ap (raise n g) (append-nil (u ∷ us))
  raise_comm n g (u ∷ us) (v ∷ vs) =
      raise_congr n g (u ∷ us ++ v ∷ vs) (v ∷ vs ++ u ∷ us) (λ e. cc) (λ e. cc)
        (product-append (u ∷ us) (v ∷ vs)
          ∙ mul_comm (product (u ∷ us)) (product (v ∷ vs))
          ∙ sym (product-append (v ∷ vs) (u ∷ us)))

  mod_exp_zero : (k n : ℕ) → 0 < k → mod_exp 0 k n ≡ 0
  unfolding mod_exp
  mod_exp_zero zero n h = absurd (omega arith)
  mod_exp_zero (suc k) n h = rw (pow-suc, mul-zero, zero-mod)

  raise-zero : (n : ℕ) (us : List Bytes) → raise n 0 us ≡ 0
  unfolding raise
  raise-zero n [] = refl
  raise-zero n (u ∷ us) =
      ap (λ t. raise n t us) (mod_exp_zero (prime_of u) n (prime_of_pos u)) ∙ raise-zero n us

  -- The nil case agrees with the loop: nil is the bytes of 0, which stays 0.
  pub generate_acc-raise :
      (key : RsaKey) (acc : Bytes) (us : List Bytes)
      → generate_acc key acc us ≡ to_bytes (raise key.n (from_bytes acc) us)
  unfolding generate_acc from_bytes
  generate_acc-raise key [] us = sym (ap to_bytes (raise-zero key.n us) ∙ to_bytes-zero)
  generate_acc-raise key (b ∷ bs) us = refl
