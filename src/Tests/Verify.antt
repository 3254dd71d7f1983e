-- ===== src/Tests/Verify.antt =====
-- Runs of the verifier.
use cess_pos_demo.Common.{
  ℕ, Bool, Each-cons, ◌&&◌, ◌==◌, ==_iff, zero, suc, ap, ◌+◌, ◌≤◌, ◌<◌, ◌≡◌, ◌↔◌, refl, true, false,
  List, [], ◌∷◌, ◌++◌, length, replicate, none, some, ok, Option, Run, panic, err,
  index_out_of_range, arith, Each, Returns,
}
use cess_pos_demo.BigInt.{Bytes, from_bytes, to_bytes, mod_exp, equal}
use cess_pos_demo.Crypto.{hash_sum}
use cess_pos_demo.Encoding.{hash_size, get_bytes, get_hash, copy_data, write_at}
use cess_pos_demo.Encoding.Laws.{copy_data-fits}
use cess_pos_demo.Acc.HashToPrime.{hprime}
use cess_pos_demo.Acc.Accumulator.{
  RsaKey, prime_of, raise, generate_acc, verify_acc as verify_witness,
}
use cess_pos_demo.Acc.Chain.{nil, node, verify_mutilevel_acc, verify_insert_update}
use cess_pos_demo.Verify.{
  max_buf_size, Commit, ProverNode, Verifier, AccProof, new_verifier, find_node, put_node,
  with_node, new_prover_node, register_prover_node, commit_valid, store_commit, receive_each,
  receive_commits, verify_acc,
}
use cess_pos_demo.Verify.Steps.{
  Reachable, begin, register, receive, insert, Reachable-capacity, receive_commits-exhausted,
}
use cess_pos_demo.Verify.Labels.{longer, Counted, verify_acc-extra}
use cess_pos_demo.Mht.{verify_path_proof}
use cess_pos_demo.Verify.Insertion.{Inserted, verify_acc-Inserted}
use cess_pos_demo.Verify.Checks.{SpaceProof, verify_space}
use cess_pos_demo.Verify.Space.{AllMet}
use cess_pos_demo.Verify.Places.{with_indices, verify_space_iff, verify_space-moved}
use cess_pos_demo.Tests.Toy.{toy, toy_digest}

abbrev key : RsaKey
key = record { n = 3233; g = 144 }

abbrev id : Bytes
id = 9 ∷ []

abbrev root : Bytes
root = toy_digest 63 (3 ∷ [])

abbrev commit : Commit
commit = record { file_index = 1; roots = root ∷ toy_digest 63 (root ++ []) ∷ [] }

abbrev value_or : {E A : Type 0} → A → Run E A → A
value_or d (ok a) = a
value_or d (err e) = d
value_or d (panic p) = d

abbrev node_or : ProverNode → Option ProverNode → ProverNode
node_or d none = d
node_or d (some n) = n

abbrev fresh : Verifier
fresh = new_verifier key 0 4 2

abbrev registered : Verifier
registered = value_or fresh (register_prover_node fresh id)

-- Sixty-four commits are received.
abbrev filled : Verifier
filled = (value_or (registered, false) (receive_commits registered id (replicate 64 commit))).0

abbrev file_label : Bytes
file_label = toy_digest 63 (id ++ (0 ∷ 0 ∷ 0 ∷ 0 ∷ 0 ∷ 0 ∷ 0 ∷ 1 ∷ root))

-- The proof of a chain of one node.
abbrev insertion : AccProof
insertion = record {
  indexs = 1 ∷ [];
  labels = file_label ∷ [];
  wit_chains = node (to_bytes 144) [] nil;
  acc_path = generate_acc key (to_bytes 144) (file_label ∷ []) ∷ [] ∷ file_label ∷ [];
}

abbrev chals : List (List ℕ)
chals = (1 ∷ []) ∷ []

abbrev accepted : Verifier
accepted = value_or filled (verify_acc filled id chals insertion)

abbrev prover : ProverNode
prover = node_or (new_prover_node key id) (find_node id accepted.nodes)

program : Unit {0}
unfolding register_prover_node new_verifier find_node put_node with_node new_prover_node
    commit_valid store_commit receive_commits receive_each verify_acc hash_sum equal get_bytes
    get_hash copy_data write_at verify_insert_update verify_witness generate_acc raise prime_of
    hprime from_bytes to_bytes mod_exp
program = tt

is_registered : register_prover_node fresh id ≡ ok registered
unfolding program
is_registered = refl

is_filled : receive_commits registered id (replicate 64 commit) ≡ ok (filled, true)
unfolding program
is_filled = refl

is_accepted : verify_acc filled id chals insertion ≡ ok accepted
unfolding program
is_accepted = refl

counted : (prover.count ≡ 1) × (prover.buf_size ≡ 63)
unfolding program
counted = (refl, refl)

is_found : find_node id accepted.nodes ≡ some prover
unfolding program
is_found = refl

accepted-Reachable : Reachable accepted
accepted-Reachable =
    insert filled accepted id chals insertion
      (receive registered filled id (replicate 64 commit) true
        (register fresh registered id (begin key 0 4 2) is_registered) is_filled)
      is_accepted

Reachable-capacity_example :
    (length prover.commits_buf + prover.count ≡ max_buf_size)
    × (prover.buf_size ≤ length prover.commits_buf)
Reachable-capacity_example = Reachable-capacity accepted id prover accepted-Reachable is_found

same_id : equal prover.id id ≡ true
unfolding program
same_id = refl

some_file : 0 < prover.count
unfolding program
some_file = omega arith

full : prover.buf_size + prover.count ≡ max_buf_size
unfolding program
full = refl

is_valid : commit_valid accepted.expanders.k commit ≡ ok true
unfolding program
is_valid = refl

receive_commits-exhausted_example :
    receive_commits accepted id (commit ∷ []) ≡ panic index_out_of_range
receive_commits-exhausted_example =
    receive_commits-exhausted accepted id prover commit [] accepted-Reachable is_found same_id
      some_file full is_valid

abbrev filled_prover : ProverNode
filled_prover = node_or (new_prover_node key id) (find_node id filled.nodes)

abbrev space_chals : List (List ℕ)
space_chals = (1 ∷ 2 ∷ []) ∷ []

abbrev space_proof : SpaceProof
space_proof = record {
  proofs = record { index = 2; label = 3 ∷ []; paths = []; locs = [] } ∷ [];
  roots = root ∷ [];
  wit_chains = node file_label [] nil ∷ [];
}

space_accepted : verify_space accepted id space_chals space_proof ≡ ok tt
unfolding program verify_space verify_path_proof verify_mutilevel_acc
space_accepted = refl

roots_sized : Each (λ r. length r ≡ hash_size) (root ∷ [])
roots_sized zero r h = let e : r ≡ root = cc in ap (length {A = ℕ}) e
roots_sized (suc i) r h = cc

verify_space_iff_example : (verify_space accepted id space_chals space_proof ≡ ok tt) ↔ (
    (length space_chals ≡ length space_proof.roots)
    × AllMet accepted.key prover.acc id space_proof 0 space_chals)
verify_space_iff_example =
    verify_space_iff accepted id space_chals space_proof prover is_found roots_sized

-- The leaf 2 is challenged, and the proof is accepted for leaf 7 as well.
verify_space-moved_example :
    verify_space accepted id ((1 ∷ 7 ∷ []) ∷ []) (with_indices (λ i. 7) space_proof) ≡ ok tt
verify_space-moved_example =
    verify_space-moved accepted id space_chals space_proof prover (λ i. 7) is_found roots_sized
      space_accepted

copy_data-fits_example : copy_data (replicate 3 0) ((1 ∷ 2 ∷ []) ∷ (3 ∷ []) ∷ []) ≡ 1 ∷ 2 ∷ 3 ∷ []
copy_data-fits_example = copy_data-fits (replicate 3 0) ((1 ∷ 2 ∷ []) ∷ (3 ∷ []) ∷ []) refl

both : (a b : Bool) → (a && b) ≡ true → (a ≡ true) × (b ≡ true)
both true true h = (refl, refl)
both true false h = cc
both false b h = cc

abbrev roots_sized? : List Bytes → Bool
roots_sized? [] = true
roots_sized? (r ∷ rs) = (length r == hash_size) && roots_sized? rs

abbrev commits_sized? : List Commit → Bool
commits_sized? [] = true
commits_sized? (x ∷ xs) = roots_sized? x.roots && commits_sized? xs

roots_sized?_lem : (rs : List Bytes) → roots_sized? rs ≡ true → Each (λ r. length r ≡ hash_size) rs
roots_sized?_lem [] h = λ i r e. cc
roots_sized?_lem (r ∷ rs) h =
    let (a, b) = both (length r == hash_size) (roots_sized? rs) h in
    Each-cons (λ r. length r ≡ hash_size) r rs ((==_iff _ _).0 a) (roots_sized?_lem rs b)

commits_sized?_lem :
    (xs : List Commit)
    → commits_sized? xs ≡ true
    → Each (λ x. Each (λ r. length r ≡ hash_size) x.roots) xs
commits_sized?_lem [] h = λ i x e. cc
commits_sized?_lem (x ∷ xs) h =
    let (a, b) = both (roots_sized? x.roots) (commits_sized? xs) h in
    Each-cons (λ x. Each (λ r. length r ≡ hash_size) x.roots) x xs (roots_sized?_lem x.roots a)
      (commits_sized?_lem xs b)

filled_found : find_node id filled.nodes ≡ some filled_prover
unfolding program
filled_found = refl

-- A label of no file, behind that of the committed file.
abbrev both_labels : List Bytes
both_labels = file_label ∷ (8 ∷ []) ∷ []

abbrev forged_accs : List Bytes
forged_accs = generate_acc key (to_bytes 144) both_labels ∷ [] ∷ (77 ∷ []) ∷ []

forged_verified :
    verify_insert_update filled.key
      (node (to_bytes 144) [] nil)
      both_labels
      forged_accs
      filled_prover.acc
    ≡ ok true
unfolding program
forged_verified = refl

verify_acc-extra_example :
    Returns
      (verify_acc filled id chals
        (longer insertion ((8 ∷ []) ∷ []) (node (to_bytes 144) [] nil) forged_accs))
      (Counted id filled_prover 1 (77 ∷ []))
verify_acc-extra_example =
    verify_acc-extra filled accepted id chals insertion filled_prover ((8 ∷ []) ∷ [])
      (node (to_bytes 144) [] nil) forged_accs (77 ∷ []) filled_found is_accepted forged_verified
      refl

filled_sized : commits_sized? filled_prover.commits_buf ≡ true
unfolding program
filled_sized = refl

verify_acc-Inserted_example : Inserted filled id filled_prover chals insertion accepted
verify_acc-Inserted_example =
    verify_acc-Inserted filled id filled_prover chals insertion accepted filled_found
      (commits_sized?_lem filled_prover.commits_buf filled_sized) is_accepted
