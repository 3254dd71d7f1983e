-- ===== src/Crypto.antt =====
-- What the sources take from Go's cryptographic packages: the SHA-2 digests, the primality test of
-- math/big, and the floating-point part of `Fu`. They are parameters, with what the code relies on.
use cess_pos_demo.Common.{ℕ, ◌+◌, ◌≤◌, ◌<◌, ◌≡◌, Bool, true, if◌then◌else◌, ◌==◌, length, arith}
use cess_pos_demo.BigInt.{Bytes}

pub record Crypto : Type 0 where
  pub sha256 : Bytes → Bytes
  pub sha512 : Bytes → Bytes
  pub length-sha256 : (msg : Bytes) → length (sha256 msg) ≡ 32
  pub length-sha512 : (msg : Bytes) → length (sha512 msg) ≡ 64
  -- `int64(math.Pow(math.Log2(w) + float64(bit - 1), 2))` at `u + 1`
  pub log2_squared : ℕ → ℕ
  -- `ProbablyPrime(10)`: 0 is no prime, and from every number on it meets a number that passes,
  -- the next prime at the latest.
  pub probably_prime : ℕ → Bool
  pub prime_pos : (n : ℕ) → probably_prime n ≡ true → 0 < n
  pub prime_gap : ℕ → ℕ
  pub prime_within : (n : ℕ) → (k : ℕ) × (k ≤ prime_gap n) × (probably_prime (n + k) ≡ true)

module _ ⦃c : Crypto⦄ where
  -- `NewHash(size)` of tree/light_merkel_tree.go, written to once and summed: SHA-256 for 32,
  -- SHA-512 for 64 and in the default case. `expanders.NewHash` is the same switch on `HashSize`.
  unfoldable pub hash_sum : ℕ → Bytes → Bytes
  hash_sum size msg =
      if size == 32 then c.sha256 msg else if size == 64 then c.sha512 msg else c.sha512 msg

  pub length-hash_sum :
      (size : ℕ) (msg : Bytes) → length (hash_sum size msg) ≡ (if size == 32 then 32 else 64)
  unfolding hash_sum
  length-hash_sum size msg = ground (arith, c.length-sha256 msg, c.length-sha512 msg)
