-- ===== src/Tests/Mht.antt =====
-- Runs of the Merkle path proofs.
use cess_pos_demo.Common.{◌≡◌, ◌⊎◌, refl, true, [], ◌∷◌, ◌++◌, length, replicate, Returns, arith}
use cess_pos_demo.BigInt.{Bytes}
use cess_pos_demo.Mht.{PathProof, verify_path_proof}
use cess_pos_demo.Mht.Reference.{Mht, leaf, branch, root_of, At, here, right, verify_path_proof-At}
use cess_pos_demo.Mht.Binding.{Collision, all_hashed, verify_path_proof-binding}
use cess_pos_demo.Mht.Light.{calc_light_mht_with_bytes, get_root, get_path_proof}
use cess_pos_demo.Mht.Slots.{slot}
use cess_pos_demo.Mht.Acceptance.{get_path_proof-accepted}
use cess_pos_demo.Tests.Toy.{toy}

abbrev second : Bytes
second = 2 ∷ []

abbrev tree : Mht
tree = branch (leaf (1 ∷ [])) (leaf (2 ∷ []))

abbrev second_proof : PathProof
second_proof = record { locs = 0 ∷ []; path = root_of 64 (leaf (1 ∷ [])) ∷ [] }

right_leaf : At 64 second tree (0 ∷ []) (root_of 64 (leaf (1 ∷ [])) ∷ [])
right_leaf = right (leaf (1 ∷ [])) (leaf (2 ∷ [])) [] [] here

verify_path_proof-At_example : verify_path_proof (root_of 64 tree) second second_proof ≡ true
verify_path_proof-At_example =
    verify_path_proof-At 64 second tree (0 ∷ []) (root_of 64 (leaf (1 ∷ [])) ∷ []) refl right_leaf

verify_path_proof-binding_example :
    (second ≡ second)
    ⊎ Collision
        (length (root_of 64 tree))
        (all_hashed (length (root_of 64 tree)) second second_proof)
        (all_hashed (length (root_of 64 tree)) second second_proof)
verify_path_proof-binding_example =
    verify_path_proof-binding (root_of 64 tree) second second second_proof second_proof refl
      verify_path_proof-At_example verify_path_proof-At_example

abbrev two_elements : Bytes
two_elements = replicate 64 1 ++ replicate 64 2

abbrev used_slice : Bytes
used_slice = replicate 128 9

get_path_proof-accepted_example :
    Returns
      (get_path_proof (calc_light_mht_with_bytes two_elements 64 used_slice) two_elements 1 64)
      (λ proof.
        verify_path_proof
          (get_root (calc_light_mht_with_bytes two_elements 64 used_slice) 64)
          (slot 64 two_elements 1)
          proof
        ≡ true)
get_path_proof-accepted_example =
    get_path_proof-accepted 64 refl 1 two_elements used_slice 1 (omega arith) refl refl
      (omega arith)
