-- ===== src/Tests/Commits.antt =====
-- Runs of the idle files, the challenges and the commit proofs.
use cess_pos_demo.Common.{
  ℕ, ◌≡◌, refl, false, List, [], ◌∷◌, ◌++◌, length, replicate, get_elem?, some, none, All, ok,
  Returns, arith,
}
use cess_pos_demo.BigInt.{Bytes, equal}
use cess_pos_demo.Crypto.{hash_sum}
use cess_pos_demo.Encoding.{get_hash}
use cess_pos_demo.Expander.{Expanders}
use cess_pos_demo.Expander.Idle.{IdleFile, generate_idle_file}
use cess_pos_demo.Expander.Idle.Layers.{generate_idle_file-AllLabelled}
use cess_pos_demo.Verify.{ProverNode, Verifier, find_node}
use cess_pos_demo.Verify.Challenges.{
  rand_int, parent_draws, commit_challenge, commit_challenges, space_challenges,
}
use cess_pos_demo.Verify.Draws.{
  AreChallenges, IsSpaceChallenge, commit_challenges-bounds, space_challenges-bounds,
}
use cess_pos_demo.Verify.Commits.{check_commit, CommitProof}
use cess_pos_demo.Verify.Checks.{MhtProof}
use cess_pos_demo.Expander.Idle.Contents.{front_of}
use cess_pos_demo.Prover.{Disk, prove_one}
use cess_pos_demo.Prover.Files.{prove_one-generated}
use cess_pos_demo.Tests.Toy.{toy}

abbrev id : Bytes
id = 9 ∷ []

-- Two layers of two nodes, one parent each.
abbrev graph : Expanders
graph = record { k = 1; n = 2; d = 0; size = 4 }

abbrev zeros : Bytes
zeros = replicate 128 0

made_file :
    Returns (generate_idle_file graph id 1 (λ i. zeros) (λ i. false) zeros zeros) (λ file. Unit {0})
made_file =
    let made =
      generate_idle_file-AllLabelled graph (omega arith) (omega arith) refl id 1 (λ i. zeros)
        (λ i. false) (λ i. refl) zeros zeros refl refl in
    (made.0, made.1, tt)

abbrev disk_of : IdleFile → Disk
disk_of file = record { layer = λ count i. get_elem? file.layers i; roots = λ count. none }

prove_one-generated_example :
    Returns (prove_one graph id (disk_of made_file.0) zeros zeros (1 ∷ 3 ∷ 0 ∷ [])) (λ proofs.
      Returns
        (check_commit 2 id
          (some (record { file_index = 1; roots = made_file.0.roots }))
          (1 ∷ 3 ∷ 0 ∷ [])
          proofs
          (replicate 77 0))
        (λ label. length label ≡ 77))
prove_one-generated_example =
    prove_one-generated graph (omega arith) (omega arith) refl id 1 (λ i. zeros) (λ i. false)
      (λ i. refl) (λ i. refl) zeros zeros refl refl made_file.0 made_file.1 (disk_of made_file.0)
      (λ i. refl) 1 refl (omega arith) zeros zeros refl refl 3 (0 ∷ []) refl refl (omega arith, tt)
      (replicate 77 0) refl

abbrev prover : ProverNode
prover = record {
  id = id;
  commits_buf = record { file_index = 1; roots = [] } ∷ [];
  buf_size = 1;
  acc = [];
  count = 3;
}

abbrev verifier : Verifier
verifier = record {
  key = record { n = 3233; g = 144 };
  expanders = graph;
  nodes = (id, prover) ∷ [];
}

abbrev commit_chals : List (List ℕ)
commit_chals = (1 ∷ 3 ∷ 0 ∷ []) ∷ []

abbrev space_chals_drawn : List (List ℕ)
space_chals_drawn = (3 ∷ 3 ∷ []) ∷ []

drawn_commits : commit_challenges verifier id 0 1 (5 ∷ 7 ∷ []) ≡ ok (commit_chals, [])
unfolding commit_challenges find_node equal commit_challenge parent_draws rand_int
drawn_commits = refl

is_found : find_node id verifier.nodes ≡ some prover
unfolding find_node equal
is_found = refl

commit_challenges-bounds_example :
    (length commit_chals ≡ 1) × AreChallenges graph prover.commits_buf 0 commit_chals
commit_challenges-bounds_example =
    commit_challenges-bounds verifier id 0 1 (5 ∷ 7 ∷ []) prover commit_chals [] is_found
      drawn_commits

drawn_space : space_challenges verifier id 1 (5 ∷ 7 ∷ []) ≡ ok (space_chals_drawn, [])
unfolding space_challenges find_node equal rand_int
drawn_space = refl

space_challenges-bounds_example :
    (length space_chals_drawn ≡ 1) × All (IsSpaceChallenge graph 3) space_chals_drawn
space_challenges-bounds_example =
    space_challenges-bounds verifier id 1 (5 ∷ 7 ∷ []) prover space_chals_drawn [] is_found
      drawn_space

-- Two layers of two labels, and the proofs for the last node and its parent.
abbrev above_labels : List Bytes
above_labels = (1 ∷ []) ∷ replicate 64 2 ∷ []

abbrev last_label : Bytes
last_label = get_hash (front_of id 1 3 ++ replicate 64 2)

abbrev leaf_hash : Bytes → Bytes
leaf_hash label = hash_sum 64 label

abbrev pair_root : Bytes → Bytes → Bytes
pair_root left right = hash_sum 64 (leaf_hash left ++ leaf_hash right)

abbrev parent_proof : MhtProof
parent_proof = record {
  index = 1;
  label = replicate 64 2;
  paths = leaf_hash (1 ∷ []) ∷ [];
  locs = 0 ∷ [];
}

abbrev last_proof : MhtProof
last_proof = record {
  index = 3;
  label = last_label;
  paths = leaf_hash (5 ∷ []) ∷ [];
  locs = 0 ∷ [];
}

abbrev commit_proofs : List (List CommitProof)
commit_proofs =
    (record { node = last_proof; parents = parent_proof ∷ [] }
      ∷ record { node = parent_proof; parents = [] }
      ∷ [])
    ∷ []

abbrev commit_prover : ProverNode
commit_prover = record prover {
  commits_buf =
      record {
        file_index = 1;
        roots = pair_root (1 ∷ []) (replicate 64 2) ∷ pair_root (5 ∷ []) last_label ∷ [];
      }
      ∷ [];
}

abbrev commit_verifier : Verifier
commit_verifier = record verifier { nodes = (id, commit_prover) ∷ [] }
