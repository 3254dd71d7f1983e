-- ===== src/Prover/Insertion.antt =====
-- `ReadAndCalcFileLabel` and `ProveAcc` of pois/prove.go: the labels of files go into the accumulator.
use cess_pos_demo.Common.{
  ℕ, ◌+◌, List, [], ◌∷◌, ◌++◌, All, get_elem?, some, ◌≡◌, Run, ok, index_out_of_range, ◌>>=◌,
  or_panic, widen,
}
use cess_pos_demo.BigInt.{Bytes}
use cess_pos_demo.Crypto.{Crypto}
use cess_pos_demo.Encoding.{hash_size, get_bytes, get_hash}
use cess_pos_demo.Acc.Manager.{MutiLevelAcc, AccError}
use cess_pos_demo.Acc.Manager.Proofs.{Proof, refused, proved, add_elements_and_proof}
use cess_pos_demo.Verify.{AccProof}
use cess_pos_demo.Verify.Space.{file_label}
use cess_pos_demo.Prover.Counters.{CountError, Prover, read_proof_file}
use cess_pos_demo.Prover.Counters.Roots.{IsSaved}

-- What `ProveAcc` returns: the error of the accumulator, or the proof.
pub data AccAnswer : Type 0 where
  failed : AccError → AccAnswer
  given : AccProof → AccAnswer

abbrev pub answer_of : List ℕ → List Bytes → Proof → AccAnswer
answer_of indexs labels (refused e) = failed e
answer_of indexs labels (proved exist accs) =
    given (record { indexs = indexs; labels = labels; wit_chains = exist; acc_path = accs })

module _ ⦃c : Crypto⦄ where
  -- `ReadAndCalcFileLabel`
  unfoldable pub read_and_calc_file_label : Prover → ℕ → Run CountError Bytes
  read_and_calc_file_label p count = do
    roots ← read_proof_file (p.disk.roots count) (p.expanders.k + 2) hash_size
    root ← or_panic (get_elem? roots p.expanders.k) index_out_of_range
    ok (get_hash ((p.id ++ get_bytes 8 count) ++ root))

  -- The loop of `ProveAcc`.
  unfoldable pub read_file_labels : Prover → List ℕ → Run CountError (List Bytes)
  unfolding read_and_calc_file_label
  read_file_labels p [] = ok []
  read_file_labels p (i ∷ indexs) = do
    label ← read_and_calc_file_label p i
    rest ← read_file_labels p indexs
    ok (label ∷ rest)

  -- `ProveAcc`, with the accumulator behind `AccManager`. An error of a file comes before any change.
  unfoldable pub prove_acc :
      Prover → MutiLevelAcc → List ℕ → Run CountError (MutiLevelAcc × AccAnswer)
  unfolding read_file_labels
  prove_acc p s indexs = do
    labels ← read_file_labels p indexs
    (s', proof) ← widen (add_elements_and_proof s labels)
    ok (s', answer_of indexs labels proof)

  -- The labels of files, from the roots that are saved.
  abbrev pub labels_from : Prover → (ℕ → List Bytes) → (ℕ → Bytes) → List ℕ → List Bytes
  labels_from p roots_at root_k [] = []
  labels_from p roots_at root_k (i ∷ indexs) =
      file_label p.id i (root_k i) ∷ labels_from p roots_at root_k indexs

  -- Each file's roots are saved, with `root_k` among them as root `K`.
  abbrev pub AreSaved : Prover → (ℕ → List Bytes) → (ℕ → Bytes) → List ℕ → Type 0
  AreSaved p roots_at root_k indexs =
      All (λ i. IsSaved p roots_at i × (get_elem? (roots_at i) p.expanders.k ≡ some (root_k i)))
        indexs
