-- ===== src/BigInt/Bytes.antt =====
-- Laws of the byte form of a number and of byte comparison.
use cess_pos_demo.Common.{
  ℕ, zero, suc, ◌+◌, ◌*◌, ◌/◌, ◌%◌, ◌≤◌, ◌≡◌, refl, sym, ap, ◌∙◌, [], ◌∷◌, ◌++◌, true, ◌↔◌, arith,
}
use cess_pos_demo.BigInt.{Bytes, from_bytes_after, from_bytes, to_bytes_below, to_bytes, equal}

from_bytes_after-append :
    (acc : ℕ) (bs : Bytes) (b : ℕ)
    → from_bytes_after acc (bs ++ b ∷ []) ≡ from_bytes_after acc bs * 256 + b
unfolding from_bytes_after
from_bytes_after-append acc [] b = refl
from_bytes_after-append acc (c ∷ bs) b = from_bytes_after-append (acc * 256 + c) bs b

from_bytes-to_bytes_below : (fuel n : ℕ) → n ≤ fuel → from_bytes (to_bytes_below fuel n) ≡ n
unfolding from_bytes to_bytes_below
from_bytes-to_bytes_below zero n h = omega arith
from_bytes-to_bytes_below (suc fuel) n h = ground (
  arith,
  from_bytes_after-append 0 (to_bytes_below fuel (n / 256)) (n % 256),
  from_bytes-to_bytes_below fuel (n / 256),
)

pub from_bytes-to_bytes : (n : ℕ) → from_bytes (to_bytes n) ≡ n
unfolding to_bytes
from_bytes-to_bytes n = from_bytes-to_bytes_below n n (omega arith)

pub to_bytes-injective : (m n : ℕ) → to_bytes m ≡ to_bytes n → m ≡ n
to_bytes-injective m n e = sym (from_bytes-to_bytes m) ∙ ap from_bytes e ∙ from_bytes-to_bytes n

pub equal_refl : (bs : Bytes) → equal bs bs ≡ true
unfolding equal
equal_refl [] = refl
equal_refl (b ∷ bs) = ground (arith, equal_refl bs)

pub eq_of_equal : (xs ys : Bytes) → equal xs ys ≡ true → xs ≡ ys
unfolding equal
eq_of_equal [] [] h = refl
eq_of_equal [] (b ∷ ys) h = cc
eq_of_equal (a ∷ xs) [] h = cc
eq_of_equal (a ∷ xs) (b ∷ ys) h = ground (arith, eq_of_equal xs ys)

pub equal_iff : (xs ys : Bytes) → (equal xs ys ≡ true) ↔ (xs ≡ ys)
equal_iff xs ys = (eq_of_equal xs ys, λ e. ap (equal xs) (sym e) ∙ equal_refl xs)

pub to_bytes-zero : to_bytes 0 ≡ []
unfolding to_bytes
to_bytes-zero = refl
