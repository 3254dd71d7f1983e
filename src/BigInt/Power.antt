-- ===== src/BigInt/Power.antt =====
-- Powers and modular powers of natural numbers.
use cess_pos_demo.Common.{ℕ, zero, suc, ◌+◌, ◌*◌, ◌/◌, ◌%◌, ◌^◌, ◌≡◌, sym, ap, ◌∙◌, arith}
use mathlib.Core.Path.{◌≡⟨◌⟩◌, ◌∎}
use cess_pos_demo.BigInt.{mod_exp}
use native.Mathlib.Nat.{
  pow-suc, pow-zero, pow-succ', mul_comm, mul_assoc, add-mul-mod_self_left, div-add-mod, mul-zero,
  mul-suc, add-zero, add-suc,
}

pub pow-add : (a m n : ℕ) → a ^ (m + n) ≡ a ^ m * a ^ n
pow-add a m zero = rw (add-zero, pow-zero) (omega arith)
pow-add a m (suc n) = simp (add-suc, pow-suc, pow-add a m n, mul_assoc)

pub pow-mul : (a m n : ℕ) → a ^ (m * n) ≡ (a ^ m) ^ n
pow-mul a m zero = rw (mul-zero, pow-zero, pow-zero)
pow-mul a m (suc n) = simp (mul-suc, pow-suc, pow-add, pow-mul a m n)

-- A factor may be reduced first.
pub mod-mul-mod : (a b n : ℕ) → a % n * b % n ≡ a * b % n
mod-mul-mod a b n =
    sym (add-mul-mod_self_left (a % n * b) n (a / n * b))
    ∙ ap (λ t. t % n) (omega (arith, ap (λ (t : ℕ). t * b) (div-add-mod a n)))

pow-mod : (a k n : ℕ) → (a % n) ^ k % n ≡ a ^ k % n
pow-mod a zero n = rw (pow-zero, pow-zero)
pow-mod a (suc k) n =
    (a % n) ^ suc k % n
    ≡⟨ ap (λ t. t % n) (pow-succ' (a % n) k) ⟩ a % n * (a % n) ^ k % n
    ≡⟨ mod-mul-mod a ((a % n) ^ k) n ⟩ a * (a % n) ^ k % n
    ≡⟨ ap (λ t. t % n) (mul_comm a ((a % n) ^ k)) ⟩ (a % n) ^ k * a % n
    ≡⟨ sym (mod-mul-mod ((a % n) ^ k) a n) ⟩ (a % n) ^ k % n * a % n
    ≡⟨ ap (λ t. t * a % n) (pow-mod a k n) ⟩ a ^ k % n * a % n
    ≡⟨ mod-mul-mod (a ^ k) a n ⟩ a ^ k * a % n
    ≡⟨ ap (λ t. t % n) (sym (pow-suc a k)) ⟩ a ^ suc k % n ∎

-- The base may be reduced first.
pub mod_exp-mod : (a k n : ℕ) → mod_exp (a % n) k n ≡ mod_exp a k n
unfolding mod_exp
mod_exp-mod a k n = pow-mod a k n

-- Two modular powers in a row are one, by the product of the exponents.
pub mod_exp-mod_exp : (a j k n : ℕ) → mod_exp (mod_exp a j n) k n ≡ mod_exp a (j * k) n
unfolding mod_exp
mod_exp-mod_exp a j k n = pow-mod (a ^ j) k n ∙ ap (λ t. t % n) (sym (pow-mul a j k))
