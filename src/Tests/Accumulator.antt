-- ===== src/Tests/Accumulator.antt =====
-- Runs of the accumulator.
use cess_pos_demo.Common.{
  ℕ, ◌≡◌, refl, Bool, true, false, List, [], ◌∷◌, none, some, ok, ◌>>=◌, Run, ◌*◌, ◌≤◌, ◌<◌,
  get_elem?, arith, ◌↔◌,
}
use cess_pos_demo.BigInt.{Bytes, from_bytes, to_bytes, mod_exp, equal}
use cess_pos_demo.Acc.HashToPrime.{fu, hprime, hprime_lem}
use cess_pos_demo.Acc.Accumulator.{
  RsaKey, prime_of, raise, generate_acc, generate_witness, verify_acc,
}
use cess_pos_demo.Acc.Accumulator.Witnesses.{
  witness_at, generate_witness-at, verify_acc-generate_witness,
}
use cess_pos_demo.Acc.Chain.{nil, node, verify_mutilevel_acc, verify_insert_update}
use cess_pos_demo.Acc.Chain.Links.{LeadsTo, verify_mutilevel_acc_iff, verify_insert_update_forged}
use cess_pos_demo.Acc.Tree.{SubAcc, Parent, gen_wits_for_acc_nodes, update_acc}
use cess_pos_demo.Acc.Tree.Laws.{with_wits, gen_wits_for_acc_nodes_lem}
use cess_pos_demo.Acc.Tree.Sums.{IsSummed, update_acc-IsSummed}
use cess_pos_demo.Acc.Manager.{
  MutiLevelAcc, new_muti_level_acc, get_snapshot, create_snapshot, copy, set_update, open_values,
  sub_acc_of, build_sub_acc, first_sub_acc, place_sub_acc, refresh, add_sub_acc, add_granted,
  add_elements,
}
use cess_pos_demo.Acc.Manager.Files.{Disk, read_acc_data, save_acc_data}
use cess_pos_demo.Acc.Manager.Proofs.{
  last_child, walk_roots, root_path, add_elements_and_proof, refused, proved,
}
use cess_pos_demo.Tests.Toy.{toy}

abbrev key : RsaKey
key = record { n = 3233; g = 144 }

abbrev empty_disk : Disk
empty_disk = record { files = λ i. none; write_fails = λ i. false }

abbrev start : MutiLevelAcc
start = new_muti_level_acc key empty_disk

program : Unit {0}
unfolding new_muti_level_acc add_elements_and_proof add_elements add_granted build_sub_acc
    open_values sub_acc_of add_sub_acc first_sub_acc place_sub_acc refresh set_update walk_roots
    root_path last_child get_snapshot verify_insert_update generate_acc generate_witness verify_acc
    equal hprime from_bytes to_bytes mod_exp raise prime_of read_acc_data save_acc_data copy
    create_snapshot
program = tt

two_rounds : Run ⊥ Bool
two_rounds = do
  (s, first) ← add_elements_and_proof start ((1 ∷ []) ∷ (2 ∷ []) ∷ [])
  (s', second) ← add_elements_and_proof s ((3 ∷ []) ∷ [])
  elim second [
    | refused e ↦ ok false
    | proved exist accs ↦ verify_insert_update key exist ((3 ∷ []) ∷ []) accs s.view.accs.value
  ]

two_rounds_lem : two_rounds ≡ ok true
unfolding two_rounds program
two_rounds_lem = refl

abbrev three : List Bytes
three = (1 ∷ []) ∷ (2 ∷ []) ∷ (3 ∷ []) ∷ []

hprime_lem_example :
    (toy.probably_prime (hprime 5) ≡ true)
    × (2 * fu (from_bytes (toy.sha512 (to_bytes 5))) ≤ hprime 5)
    × ((m : ℕ)
        → 2 * fu (from_bytes (toy.sha512 (to_bytes 5))) ≤ m
        → m < hprime 5
        → toy.probably_prime m ≡ false)
hprime_lem_example = hprime_lem 5

generate_witness-at_example :
    get_elem? (generate_witness key.g key.n three) 1 ≡ some (witness_at key.n key.g three 1)
generate_witness-at_example = generate_witness-at key.g key.n three 1 (omega arith)

verify_acc-generate_witness_example :
    (w : Bytes) × (get_elem? (generate_witness key.g key.n three) 1 ≡ some w)
    × (verify_acc key (generate_acc key (to_bytes key.g) three) (2 ∷ []) w ≡ true)
verify_acc-generate_witness_example = verify_acc-generate_witness key three 1 refl

abbrev two_nodes : List SubAcc
two_nodes =
    record { value = 1 ∷ []; children = []; len = 1; wit = [] }
    ∷ record { value = 2 ∷ []; children = []; len = 1; wit = [] }
    ∷ []

abbrev parent_of_two : Parent
parent_of_two = record { value = []; children = two_nodes; len = 0; wit = [] }

update_acc-IsSummed_example : IsSummed key (update_acc key parent_of_two)
update_acc-IsSummed_example = update_acc-IsSummed key parent_of_two

gen_wits_for_acc_nodes_lem_example :
    gen_wits_for_acc_nodes key.g key.n two_nodes
    ≡ with_wits two_nodes (generate_witness key.g key.n ((1 ∷ []) ∷ (2 ∷ []) ∷ []))
gen_wits_for_acc_nodes_lem_example = gen_wits_for_acc_nodes_lem key.g key.n two_nodes

verify_mutilevel_acc_iff_example :
    (verify_mutilevel_acc key (node (9 ∷ []) [] nil) (9 ∷ []) ≡ true)
    ↔ LeadsTo key (9 ∷ []) (node (9 ∷ []) [] nil)
verify_mutilevel_acc_iff_example = verify_mutilevel_acc_iff key (node (9 ∷ []) [] nil) (9 ∷ [])

verify_insert_update_forged_example :
    verify_insert_update key
      (node (9 ∷ []) [] nil)
      three
      (generate_acc key (9 ∷ []) three ∷ [] ∷ (77 ∷ []) ∷ [])
      (9 ∷ [])
    ≡ ok true
verify_insert_update_forged_example =
    verify_insert_update_forged key (9 ∷ []) [] [] (77 ∷ []) three (omega arith)
