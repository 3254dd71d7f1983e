-- ===== src/BigInt.antt =====
-- What the sources use of Go's math/big and bytes packages. A `big.Int` is a natural number here:
-- every value that the sources build is one. A nil byte slice and an empty one are one value.
pub mod Bytes
pub mod Power
use cess_pos_demo.Common.{
  ℕ, zero, suc, ◌+◌, ◌*◌, ◌/◌, ◌%◌, ◌^◌, List, [], ◌∷◌, ◌++◌, Bool, true, false, ◌&&◌, ◌==◌,
  if◌then◌else◌,
}

abbrev pub Bytes : Type 0
Bytes = List ℕ

-- `SetBytes`: the big-endian value, read after the higher digits `acc`.
unfoldable pub from_bytes_after : ℕ → Bytes → ℕ
from_bytes_after acc [] = acc
from_bytes_after acc (b ∷ bs) = from_bytes_after (acc * 256 + b) bs

unfoldable pub from_bytes : Bytes → ℕ
unfolding from_bytes_after
from_bytes = from_bytes_after 0

unfoldable pub to_bytes_below : ℕ → ℕ → Bytes
to_bytes_below zero n = []
to_bytes_below (suc fuel) n =
    let high = to_bytes_below fuel (n / 256) in if n == 0 then [] else high ++ n % 256 ∷ []

-- `Bytes()`: the big-endian digits, with no leading zero; `n` rounds are enough for `n`.
unfoldable pub to_bytes : ℕ → Bytes
unfolding to_bytes_below
to_bytes n = to_bytes_below n n

-- `Exp(x, y, m)` for y > 0; with m = 0 it is the plain power, as is `%` by 0 here.
unfoldable pub mod_exp : ℕ → ℕ → ℕ → ℕ
mod_exp x y m = x ^ y % m

-- `bytes.Equal`
unfoldable pub equal : Bytes → Bytes → Bool
equal [] [] = true
equal [] (b ∷ ys) = false
equal (a ∷ xs) [] = false
equal (a ∷ xs) (b ∷ ys) = a == b && equal xs ys
