-- ===== src/Encoding.antt =====
-- Byte strings that are hashed: `GetBytes` of expanders/expander.go, `CopyData` of util/utils.go and
-- `GetHash` of expanders/generate_idle_file.go.
pub mod Laws
use cess_pos_demo.Common.{
  ℕ, zero, suc, ◌+◌, ◌/◌, ◌%◌, ◌||◌, List, [], ◌∷◌, ◌++◌, length, take, drop, ltb, ◌==◌,
  if◌then◌else◌,
}
use cess_pos_demo.BigInt.{Bytes}
use cess_pos_demo.Crypto.{Crypto, hash_sum}

-- `HashSize`
abbrev pub hash_size : ℕ
hash_size = 64

-- `GetBytes` of a number that is not negative, of a type of the given number of bytes.
unfoldable pub get_bytes : ℕ → ℕ → Bytes
get_bytes zero v = []
get_bytes (suc width) v = get_bytes width (v / 256) ++ v % 256 ∷ []

-- `copy(target[at:at+len(d)], d)`
unfoldable pub write_at : ℕ → Bytes → Bytes → Bytes
write_at at d target = take at target ++ (d ++ drop (at + length d) target)

-- The loop of `CopyData`, which leaves out what is empty or does not fit.
unfoldable pub copy_data_from : ℕ → Bytes → List Bytes → Bytes
copy_data_from count target [] = target
copy_data_from count target (d ∷ src) =
    let skip = (length d == 0) || ltb (length target) (length d + count) in
    copy_data_from (if skip then count else count + length d)
      (if skip then target else write_at count d target) src

unfoldable pub copy_data : Bytes → List Bytes → Bytes
unfolding copy_data_from
copy_data target src = copy_data_from 0 target src

module _ ⦃c : Crypto⦄ where
  -- `GetHash` of a slice that is not nil.
  unfoldable pub get_hash : Bytes → Bytes
  get_hash msg = hash_sum hash_size msg
