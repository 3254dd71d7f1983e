-- ===== src/Tests/Prover.antt =====
-- Runs of the prover's counters and of its insertions.
use cess_pos_demo.Common.{
  ℕ, ◌≡◌, refl, true, false, List, [], ◌∷◌, ◌++◌, replicate, some, none, ok, err, arith,
}
use cess_pos_demo.BigInt.{Bytes}
use cess_pos_demo.Crypto.{hash_sum}
use cess_pos_demo.Encoding.{hash_size}
use cess_pos_demo.Encoding.Laws.{concat}
use cess_pos_demo.Acc.Accumulator.{RsaKey}
use cess_pos_demo.Acc.Manager.{MutiLevelAcc, new_muti_level_acc}
use cess_pos_demo.Verify.{commit_valid}
use cess_pos_demo.Prover.Counters.{
  Prover, update_count, save_proof_file, read_proof_file, read_labels, refilled, no_file,
  get_commits,
}
use cess_pos_demo.Prover.Counters.Roots.{
  IsSaved, commits_from, read_proof_file-save_proof_file, get_commits-IsSaved, commit_valid-roots,
}
use cess_pos_demo.Prover.Counters.Steps.{Agree, update_count-Agree}
use cess_pos_demo.Prover.Counters.Service.{init_prover}
use cess_pos_demo.Tests.Toy.{toy}

abbrev key : RsaKey
key = record { n = 3233; g = 144 }

abbrev root : Bytes
root = replicate 64 1

abbrev saved_roots : List Bytes
saved_roots = root ∷ replicate 64 2 ∷ []

-- Four files are generated, one is committed and none is counted.
abbrev prover : Prover
prover = record {
  expanders = record { k = 0; n = 2; d = 0; size = 2 };
  id = 9 ∷ [];
  count = 0;
  commited = 1;
  added = 4;
  generated = 4;
  delete = false;
  workdone = true;
  space = 100;
  disk = record { layer = λ i j. some []; roots = λ i. some (save_proof_file saved_roots) };
}

read_proof_file-save_proof_file_example :
    read_proof_file (some (save_proof_file saved_roots)) 2 64 ≡ ok saved_roots
read_proof_file-save_proof_file_example =
    read_proof_file-save_proof_file 64 64 saved_roots refl (omega arith) (refl, (refl, tt))

-- The second label reaches over the edge of the reader's buffer.
abbrev long_labels : List Bytes
long_labels = replicate 3000 1 ∷ replicate 3000 2 ∷ []

over_the_edge : read_proof_file (some (save_proof_file long_labels)) 2 3000 ≡ err no_file
unfolding read_proof_file read_labels refilled save_proof_file
over_the_edge = refl

prover-IsSaved : (i : ℕ) → IsSaved prover (λ j. saved_roots) i
prover-IsSaved i = record { there = refl; number = refl; sizes = (refl, (refl, tt)) }

get_commits-IsSaved_example :
    get_commits prover 2 ≡ ok (record prover { commited = 3 }, commits_from (λ j. saved_roots) 2 2)
get_commits-IsSaved_example =
    get_commits-IsSaved prover 2 (λ j. saved_roots) refl (omega arith) (λ j l u. prover-IsSaved j)

commit_valid-roots_example :
    commit_valid 0 (record {
      file_index = 1;
      roots = (root ∷ []) ++ hash_sum hash_size (concat (root ∷ [])) ∷ [];
    })
    ≡ ok true
commit_valid-roots_example = commit_valid-roots 0 1 (root ∷ []) refl

-- Two files are sent, and the second is finished first: `GetCommits` gives a commit of the first.
abbrev began : Prover
began = init_prover prover.expanders prover.id 100 prover.disk

abbrev sent : Prover
sent = record began { added = 2; space = 98 }

abbrev one_done : Prover
one_done = record sent { generated = 1 }

update_count-Agree_example : Agree 1 prover.disk (update_count prover 1).disk
update_count-Agree_example = update_count-Agree prover 1

abbrev start : MutiLevelAcc
start = new_muti_level_acc key (record { files = λ i. none; write_fails = λ i. false })
