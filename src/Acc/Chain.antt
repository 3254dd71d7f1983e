-- ===== src/Acc/Chain.antt =====
-- Witness chains and the verifier's side of acc/muti_level_acc.go.
pub mod Acceptance
pub mod Links
use cess_pos_demo.Common.{
  ℕ, zero, suc, ◌+◌, ◌-◌, Bool, true, false, not, ◌||◌, List, [], ◌∷◌, length, get_elem?, Option,
  none, some, ltb, ◌==◌, if◌then◌else◌, Run, ok, panic, index_out_of_range, ◌>>=◌, or_panic,
}
use cess_pos_demo.BigInt.{Bytes, to_bytes, equal}
use cess_pos_demo.Crypto.{Crypto}
use cess_pos_demo.Acc.Accumulator.{RsaKey, generate_acc, verify_acc}

abbrev pub default_level : ℕ
default_level = 3

-- A `*WitnessNode`: nil, or `Elem`, `Wit` and `Acc`.
pub data WitnessNode : Type 0 where
  nil : WitnessNode
  node : Bytes → Bytes → WitnessNode → WitnessNode

-- The verifiers return a Boolean or panic.
abbrev pub Verdict : Type 0
Verdict = Run ⊥ Bool

module _ ⦃c : Crypto⦄ where
  -- `VerifyMutilevelAcc`, from the lowest accumulator up to the root
  unfoldable pub verify_mutilevel_acc : RsaKey → WitnessNode → Bytes → Bool
  verify_mutilevel_acc key nil acc = false
  verify_mutilevel_acc key (node elem wit nil) acc = equal elem acc
  verify_mutilevel_acc key (node elem wit (node elem' wit' up)) acc =
      if not (verify_acc key elem' elem wit)
      then false
      else verify_mutilevel_acc key (node elem' wit' up) acc

  -- The first loop of `VerifyInsertUpdate`: past the accumulators that are new.
  unfoldable pub skip_new : WitnessNode → WitnessNode
  skip_new nil = nil
  skip_new (node elem wit nil) = node elem wit nil
  skip_new (node elem wit (node elem' wit' up)) =
      if equal elem' wit then skip_new (node elem' wit' up) else node elem wit (node elem' wit' up)

  -- The last loop of `VerifyInsertUpdate`, at `count`.
  unfoldable pub insert_levels : RsaKey → WitnessNode → List Bytes → ℕ → Verdict
  insert_levels key nil accs count = ok true
  insert_levels key (node elem wit nil) accs count = ok true
  insert_levels key (node elem wit (node elem' wit' up)) accs count = do
    below ← or_panic (get_elem? accs (count - 1)) index_out_of_range
    here ← or_panic (get_elem? accs count) index_out_of_range
    if not (equal (generate_acc key wit (below ∷ [])) here)
        then ok false
        else insert_levels key (node elem' wit' up) accs (count + 1)

  -- Behind the test on `exist == nil`.
  unfoldable pub insert_update :
      RsaKey → Bytes → WitnessNode → List Bytes → List Bytes → Bytes → Verdict
  unfolding skip_new verify_mutilevel_acc insert_levels
  insert_update key exist_elem exist elems accs acc =
      if not (verify_mutilevel_acc key (skip_new exist) acc) then ok false else do
        first ← or_panic (get_elem? accs 0) index_out_of_range
        if not (equal (generate_acc key exist_elem elems) first)
            then ok false
            else insert_levels key exist accs 1

  unfoldable pub verify_insert_update :
      RsaKey → WitnessNode → List Bytes → List Bytes → Bytes → Verdict
  unfolding insert_update
  verify_insert_update key nil elems accs acc = ok false
  verify_insert_update key (node elem wit up) elems accs acc =
      if length elems == 0 || ltb (length accs) default_level
      then ok false
      else insert_update key elem (node elem wit up) elems accs acc

  -- The last loop of `VerifyDeleteUpdate`, at `count`.
  unfoldable pub delete_levels : RsaKey → WitnessNode → List Bytes → ℕ → Verdict
  delete_levels key nil accs count = ok true
  delete_levels key (node elem wit nil) accs count = ok true
  delete_levels key (node elem wit (node elem' wit' up)) accs count = do
    below ← or_panic (get_elem? accs (count - 1)) index_out_of_range
    here ← or_panic (get_elem? accs count) index_out_of_range
    let sub_acc =
        if not (equal below (to_bytes key.g)) then generate_acc key wit (below ∷ []) else wit
    if not (equal sub_acc here)
        then ok false
        else delete_levels key (node elem' wit' up) accs (count + 1)

  unfoldable pub verify_delete_update :
      RsaKey → WitnessNode → List Bytes → List Bytes → Bytes → Verdict
  unfolding verify_mutilevel_acc delete_levels
  verify_delete_update key nil elems accs acc = ok false
  verify_delete_update key (node elem wit up) elems accs acc =
      if length elems == 0 || ltb (length accs) default_level
      then ok false
      else if not (verify_mutilevel_acc key (node elem wit up) acc)
      then ok false
      else do
        lowest ← or_panic (get_elem? accs 0) index_out_of_range
        if not (equal (generate_acc key lowest elems) elem)
            then ok false
            else delete_levels key (node elem wit up) accs 1
