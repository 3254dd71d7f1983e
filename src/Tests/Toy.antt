-- ===== src/Tests/Toy.antt =====
-- Small stand-ins for the digests and the primality test, to run the definitions on.
use cess_pos_demo.Common.{
  ◌*◌, ℕ, ◌+◌, ◌%◌, ◌≤◌, ◌<◌, ◌≡◌, true, arith, [], ◌∷◌, ◌++◌, length, replicate, length-append,
  length-replicate, ◌==◌,
}
use cess_pos_demo.BigInt.{Bytes}
use cess_pos_demo.Crypto.{Crypto}

abbrev pub checksum : Bytes → ℕ
checksum [] = 7
checksum (b ∷ bs) = (b + 3 * checksum bs) % 251

abbrev pub toy_digest : ℕ → Bytes → Bytes
toy_digest zeros msg = replicate zeros 0 ++ checksum msg ∷ []

pub length-toy_digest : (zeros : ℕ) (msg : Bytes) → length (toy_digest zeros msg) ≡ zeros + 1
length-toy_digest zeros msg =
    omega (
      arith,
      length-append (replicate zeros 0) (checksum msg ∷ []),
      length-replicate {A = ℕ} zeros 0,
    )

-- An odd number passes.
pub toy_prime_pos : (n : ℕ) → (n % 2 == 1) ≡ true → 0 < n
toy_prime_pos n h = ground arith

pub toy_prime_within : (n : ℕ) → (k : ℕ) × (k ≤ 1) × ((n + k) % 2 == 1 ≡ true)
toy_prime_within n = ((n + 1) % 2, omega arith, ground arith)

instance abbrev pub toy : Crypto
toy = record {
  sha256 = toy_digest 31;
  sha512 = toy_digest 63;
  length-sha256 = length-toy_digest 31;
  length-sha512 = length-toy_digest 63;
  log2_squared = λ x. 1;
  probably_prime = λ n. n % 2 == 1;
  prime_pos = toy_prime_pos;
  prime_gap = λ n. 1;
  prime_within = toy_prime_within;
}
