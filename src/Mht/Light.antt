-- ===== src/Mht/Light.antt =====
-- `LightMHT` of tree/light_merkel_tree.go: a Merkle tree in one slice, built in place. The sizes 32
-- and 64 occur; with size 0 the code divides by 0.
use cess_pos_demo.Common.{
  ℕ, zero, suc, ◌+◌, ◌-◌, ◌*◌, ◌/◌, ◌%◌, ◌^◌, not, [], ◌∷◌, length, take, drop, ltb, leb, ◌==◌,
  if◌then◌else◌, Run, ok, err, panic, index_out_of_range, ◌>>=◌, widen,
}
use cess_pos_demo.BigInt.{Bytes}
use cess_pos_demo.Crypto.{Crypto, hash_sum}
use cess_pos_demo.Encoding.{write_at}
use cess_pos_demo.Mht.{PathProof}

pub data TreeError : Type 0 where
  error_data : TreeError

-- `int(math.Log2(float64(n))) + 1`, the number of binary digits; 0 for 0, where the code's sum is
-- negative and its loop makes no round. `n` rounds are enough for `n`.
unfoldable pub bit_length_below : ℕ → ℕ → ℕ
bit_length_below zero n = 0
bit_length_below (suc fuel) n =
    let rest = bit_length_below fuel (n / 2) in if n == 0 then 0 else suc rest

unfoldable pub bit_length : ℕ → ℕ
unfolding bit_length_below
bit_length n = bit_length_below n n

module _ ⦃c : Crypto⦄ where
  -- The loop of `CalcLightMhtWithBytes`, at `i` with `rounds` to go, over the slice `mht` that is
  -- new or comes from the pool.
  unfoldable pub hash_blocks : ℕ → ℕ → ℕ → Bytes → Bytes → Bytes
  hash_blocks zero i size elems mht = mht
  hash_blocks (suc rounds) i size elems mht =
      hash_blocks rounds (suc i) size elems
        (write_at (i * size) (take size (hash_sum size (take size (drop (i * size) elems)))) mht)

  -- The inner loop of `calcLightMht`: `j` and `k` are the code's plus 1 and plus 2, `src` and `p` are
  -- where the slices `src` and `target` begin in `mht`. The code's `k` is not below 0 while `j` is not.
  unfoldable pub fold_level : ℕ → ℕ → ℕ → ℕ → ℕ → Bytes → Bytes
  fold_level size src p zero k mht = mht
  fold_level size src p (suc j) k mht =
      let pair = take (2 * size) (drop (src + (k - 2) * size) mht) in
      fold_level size src p j (k - 2) (write_at (p + j * size) (take size (hash_sum size pair)) mht)

  -- The outer loop of `calcLightMht`, at `i`; the first level is read from the start of the slice.
  unfoldable pub fold_levels : ℕ → ℕ → ℕ → ℕ → ℕ → ℕ → Bytes → Bytes
  unfolding fold_level
  fold_levels zero i size lens src p mht = mht
  fold_levels (suc rounds) i size lens src p mht =
      let num = lens / 2 ^ (i + 1) in
      fold_levels rounds (i + 1) size lens p (p / 2)
        (fold_level size src p (num / size) (num * 2 / size) mht)

  unfoldable pub calc_light_mht : Bytes → ℕ → Bytes
  unfolding bit_length fold_levels
  calc_light_mht mht size =
      let lens = length mht in fold_levels (bit_length (lens / size)) 0 size lens 0 (lens / 2) mht

  -- `CalcLightMhtWithBytes`; `mht` is the slice that it takes from the pool or makes.
  unfoldable pub calc_light_mht_with_bytes : Bytes → ℕ → Bytes → Bytes
  unfolding hash_blocks calc_light_mht
  calc_light_mht_with_bytes elems size mht =
      if not (length elems % size == 0)
      then []
      else calc_light_mht (hash_blocks (length elems / size) 0 size elems mht) size

  -- `GetRoot`
  unfoldable pub get_root : Bytes → ℕ → Bytes
  get_root mht size = if ltb (length mht) (size * 2) then [] else take size (drop size mht)

  -- `d = data[from*size : (from+1)*size]`, where `data` begins at `p` in a slice that goes on to its
  -- end.
  unfoldable pub slot_of : Bytes → ℕ → ℕ → ℕ → Run ⊥ Bytes
  slot_of bytes p size from =
      if leb (p + (from + 1) * size) (length bytes)
      then ok (take size (drop (p + from * size) bytes))
      else panic index_out_of_range

  -- The sibling that a round of `GetPathProof` takes, and the side it is on.
  unfoldable pub sibling : ℕ → ℕ
  sibling index = if (index + 1) % 2 == 0 then index - 1 else index + 1

  unfoldable pub side : ℕ → ℕ
  side index = if (index + 1) % 2 == 0 then 0 else 1

  -- One step of the proof put in front of the others.
  abbrev pub with_step : ℕ → Bytes → PathProof → PathProof
  with_step loc digest proof = record { locs = loc ∷ proof.locs; path = digest ∷ proof.path }

  -- The loop of `GetPathProof` from its second round on: `data` begins at `p` in `mht`.
  unfoldable pub path_rounds : ℕ → Bytes → ℕ → ℕ → ℕ → ℕ → Run ⊥ PathProof
  path_rounds zero mht size num p index = ok (record { locs = []; path = [] })
  path_rounds (suc rounds) mht size num p index = do
    d ← slot_of mht p size (sibling index)
    rest ← path_rounds rounds mht size (num / 2) (p - num / 2) (index / 2)
    ok (with_step (side index) d rest)

  -- The first round hashes the sibling's data.
  unfoldable pub path_first : ℕ → Bytes → Bytes → ℕ → ℕ → Run ⊥ PathProof
  path_first zero mht elems size index = ok (record { locs = []; path = [] })
  path_first (suc rounds) mht elems size index = do
    d ← slot_of elems 0 size (sibling index)
    let num = length elems / 2
    rest ← path_rounds rounds mht size num (length mht - num) (index / 2)
    ok (with_step (side index) (hash_sum size d) rest)

  -- `GetPathProof`. With no element at all the code
  -- panics, for it makes slices of a negative length.
  unfoldable pub get_path_proof : Bytes → Bytes → ℕ → ℕ → Run TreeError PathProof
  get_path_proof mht elems index size =
      if not (length mht == length elems)
      then err error_data
      else if length elems / size == 0
      then panic index_out_of_range
      else widen (path_first (bit_length (length elems / size) - 1) mht elems size index)
