-- ===== src/Expander/Draw.antt =====
-- `CalcParents` of expanders/generate_expanders.go, which draws the parents of a graph node from
-- digests.
pub mod Free
pub mod Fill
pub mod Degree
pub mod Endless
use cess_pos_demo.Common.{
  ℕ, zero, suc, ◌+◌, ◌-◌, ◌*◌, ◌/◌, ◌%◌, Bool, true, false, not, ◌&&◌, ◌||◌, List, [], ◌∷◌, ◌++◌,
  length, take, drop, replicate, Option, none, some, ltb, leb, ◌==◌, if◌then◌else◌, Run, ok, panic,
  divide_by_zero, ◌>>=◌,
}
use cess_pos_demo.BigInt.{Bytes}
use cess_pos_demo.Crypto.{Crypto}
use cess_pos_demo.Encoding.{get_bytes, get_hash, copy_data}
use cess_pos_demo.Expander.{Expanders}
use cess_pos_demo.Expander.Parents.{Node, parent_in_list, add_parent}

-- `binary.Uvarint`, from the digit of weight `weight` on; 0 when the bytes end within the number.
unfoldable pub uvarint_from : ℕ → ℕ → Bytes → ℕ
uvarint_from acc weight [] = 0
uvarint_from acc weight (b ∷ bytes) =
    let rest = uvarint_from (acc + (b - 128) * weight) (weight * 128) bytes in
    if ltb b 128 then acc + b * weight else rest

-- `BytesToNodeValue`: `binary.Varint` reads an odd number as a negative one, whose sign goes. The
-- four bytes that `CalcParents` hands over are far from the bounds of an int64.
unfoldable pub bytes_to_node_value : Bytes → ℕ → ℕ
unfolding uvarint_from
bytes_to_node_value bytes max =
    let u = uvarint_from 0 1 bytes in (if u % 2 == 0 then u / 2 else u / 2 + 1) % max

-- `p` is no new parent: the parent that it stands for is in the list, or it is the node above.
unfoldable pub is_taken : ℕ → Node → ℕ → Run ⊥ Bool
is_taken n node p =
    if leb p (node.index - n)
    then (do (i, there) ← parent_in_list node (p + n); ok (there || (p == node.index - n)))
    else (do (i, there) ← parent_in_list node p; ok there)

-- The search for the next free value. All values come up in `n` rounds, so when these find none the
-- code's loop goes on for ever, which `none` stands for.
unfoldable pub probe : ℕ → ℕ → ℕ → Node → ℕ → Run ⊥ (Option ℕ)
probe zero n base node p = ok none
probe (suc rounds) n base node p = do
  let next = (p + 1) % n + base
  taken ← is_taken n node next
  let rest = probe rounds n base node next
  if taken then rest else ok (some next)

-- The value that a round of the inner loop tries, and `s` behind it.
unfoldable pub pick : ℕ → ℕ → Bytes → Node → ℕ → ℕ → ℕ → Run ⊥ (Option (ℕ × ℕ))
pick n base digest node j s p =
    if ltb s 4 && ltb j 15
    then ok (some (bytes_to_node_value (take 4 (drop (j * 4 + s) digest)) n % n + base, s))
    else (do found ← probe n n base node p; ok (elim found [ none ↦ none | some q ↦ some (q, 0) ]))

-- `if p < node.Index-NodeType(expanders.N) { p += NodeType(expanders.N) }`
unfoldable pub shifted : ℕ → Node → ℕ → ℕ
shifted n node p = if ltb p (node.index - n) then p + n else p

-- The loop `for j := 0; j < 16;` from `j`. The Boolean says that it ends: in at most five rounds
-- for each `j`, or never.
unfoldable pub fill : ℕ → ℕ → ℕ → Bytes → Node → ℕ → ℕ → ℕ → Run ⊥ (Node × Bool)
fill zero n base digest node j s p = ok (node, false)
fill (suc fuel) n base digest node j s p =
    let round = (do
      picked ← pick n base digest node j s p
      elim picked [
        | none ↦ ok (node, false)
        | some (q, s') ↦ do
          (node', added) ← add_parent node (shifted n node q)
          fill fuel n base digest node' (if added then j + 1 else j) (if added then 0 else s' + 1)
              (shifted n node q)
      ]) in
    if leb 16 j then ok (node, true) else round

-- The numbers that go into the digest of the block from `i` on.
unfoldable pub plate : ℕ → ℕ → List Bytes
plate zero i = []
plate (suc rounds) i = get_bytes 8 i ∷ plate rounds (i + 1)

-- `util.CopyData(content[lens-8*16:], plate...)`
unfoldable pub with_plate : Bytes → ℕ → Bytes
unfolding plate
with_plate content i =
    let front = length content - 8 * 16 in
    take front content ++ copy_data (drop front content) (plate 16 i)

module _ ⦃c : Crypto⦄ where
  -- The loop `for i := 0; i < expanders.D; i += 16`, with its rounds to go.
  unfoldable pub fill_blocks : ℕ → ℕ → ℕ → ℕ → Bytes → Node → Run ⊥ (Node × Bool)
  fill_blocks zero n base i content node = ok (node, true)
  fill_blocks (suc rounds) n base i content node = do
    let content' = with_plate content i
    (node', ended) ← fill (5 * 16 + 1) n base (get_hash content') node 0 0 0
    let rest = fill_blocks rounds n base (i + 16) content' node'
    if ended then rest else ok (node', false)

  -- Behind the tests of `CalcParents`.
  unfoldable pub draw_parents : Expanders → Node → Bytes → ℕ → ℕ → Run ⊥ (Node × Bool)
  unfolding fill_blocks with_plate
  draw_parents graph node id count layer = do
    let content =
        copy_data (replicate (length id + 8 * 18) 0)
          (id ∷ get_bytes 8 count ∷ get_bytes 8 layer ∷ [])
    (node', added) ← add_parent node (node.index - graph.n)
    fill_blocks ((graph.d + 15) / 16) graph.n ((layer - 1) * graph.n) 0 content node'

  -- `CalcParents`; its pointers are not nil. The Boolean is false for a call that does not end.
  unfoldable pub calc_parents : Expanders → Node → Bytes → ℕ → Run ⊥ (Node × Bool)
  unfolding draw_parents
  calc_parents graph node id count =
      if graph.n == 0
      then panic divide_by_zero
      else if (node.index / graph.n == 0) || not (node.cap == graph.d + 1)
      then ok (node, true)
      else draw_parents graph node id count (node.index / graph.n)
