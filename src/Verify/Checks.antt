-- ===== src/Verify/Checks.antt =====
-- `VerifySpace` and `VerifyDeletion` of pois/verify.go, which change nothing.
use cess_pos_demo.Common.{
  ℕ, suc, ◌+◌, ◌-◌, Bool, not, List, [], ◌∷◌, length, replicate, get_elem?, Option, none, some, ltb,
  ◌==◌, Run, ok, err, panic, nil_dereference, index_out_of_range, ◌>>=◌, ◌>>◌, or_panic, fail_if,
}
use cess_pos_demo.BigInt.{Bytes, equal}
use cess_pos_demo.Crypto.{Crypto}
use cess_pos_demo.Encoding.{hash_size, get_bytes, get_hash, copy_data}
use cess_pos_demo.Mht.{verify_path_proof}
use cess_pos_demo.Acc.Accumulator.{RsaKey}
use cess_pos_demo.Acc.Chain.{WitnessNode, nil, node, verify_mutilevel_acc, verify_delete_update}
use cess_pos_demo.Verify.{
  ProverNode, Verifier, PoisError, node_not_found, bad_proof_data, bad_file_index, label_mismatch,
  acc_mismatch, path_mismatch, commit_not_finished, file_number_out_of_range, find_node,
}

-- `MhtProof`. A received proof whose index is negative is not covered.
pub record MhtProof : Type 0 where
  pub index : ℕ
  pub label : Bytes
  pub paths : List Bytes
  pub locs : Bytes

pub record SpaceProof : Type 0 where
  pub proofs : List MhtProof
  pub roots : List Bytes
  pub wit_chains : List WitnessNode

pub record DeletionProof : Type 0 where
  pub roots : List Bytes
  pub wit_chain : WitnessNode
  pub acc_path : List Bytes

abbrev pub elem_of : WitnessNode → Option Bytes
elem_of nil = none
elem_of (node elem wit up) = some elem

abbrev pub empty_label : Bytes → Bytes
empty_label id = replicate (length id + 8 + hash_size) 0

module _ ⦃c : Crypto⦄ where
  -- The loop of `VerifySpace` from `i` on. One buffer serves for all labels.
  unfoldable pub check_space :
      RsaKey → Bytes → Bytes → SpaceProof → ℕ → Bytes → List (List ℕ) → Run PoisError (Unit {0})
  check_space key acc id proof i label [] = ok tt
  check_space key acc id proof i label (chal ∷ chals) = do
    leaf ← or_panic (get_elem? chal 1) index_out_of_range
    mht ← or_panic (get_elem? proof.proofs i) index_out_of_range
    fail_if (not (leaf == mht.index)) bad_file_index
    root ← or_panic (get_elem? proof.roots i) index_out_of_range
    fail_if (not (verify_path_proof root mht.label (record { locs = mht.locs; path = mht.paths })))
        path_mismatch
    file ← or_panic (get_elem? chal 0) index_out_of_range
    let filled = copy_data label (id ∷ get_bytes 8 file ∷ root ∷ [])
    chain ← or_panic (get_elem? proof.wit_chains i) index_out_of_range
    elem ← or_panic (elem_of chain) nil_dereference
    fail_if (not (equal (get_hash filled) elem)) label_mismatch
    fail_if (not (verify_mutilevel_acc key chain acc)) acc_mismatch
    check_space key acc id proof (suc i) filled chals

  unfoldable pub found_space :
      Verifier → Bytes → List (List ℕ) → SpaceProof → Option ProverNode → Run PoisError (Unit {0})
  unfolding check_space
  found_space v id chals proof none = err node_not_found
  found_space v id chals proof (some prover) = do
    fail_if (not (length chals == length proof.roots)) bad_proof_data
    check_space v.key prover.acc id proof 0 (empty_label id) chals

  -- `VerifySpace`
  unfoldable pub verify_space :
      Verifier → Bytes → List (List ℕ) → SpaceProof → Run PoisError (Unit {0})
  unfolding found_space
  verify_space v id chals proof = found_space v id chals proof (find_node id v.nodes)

  -- The labels of the last files, from the number `file` on.
  unfoldable pub deletion_labels : Bytes → ℕ → List Bytes → List Bytes
  deletion_labels id file [] = []
  deletion_labels id file (root ∷ roots) =
      get_hash (copy_data (empty_label id) (id ∷ get_bytes 8 file ∷ root ∷ []))
      ∷ deletion_labels id (suc file) roots

  unfoldable pub deletion_answer : Run ⊥ Bool → Run PoisError (Unit {0})
  deletion_answer (panic p) = panic p
  deletion_answer (err e) = elim e [ ]
  deletion_answer (ok good) = fail_if (not good) acc_mismatch

  unfoldable pub found_deletion :
      Verifier → Bytes → DeletionProof → Option ProverNode → Run PoisError (Unit {0})
  unfolding deletion_labels deletion_answer
  found_deletion v id proof none = err node_not_found
  found_deletion v id proof (some prover) = do
    fail_if (ltb 0 prover.buf_size) commit_not_finished
    fail_if (ltb prover.count (length proof.roots)) file_number_out_of_range
    deletion_answer (
        verify_delete_update v.key proof.wit_chain
          (deletion_labels id (prover.count - length proof.roots + 1) proof.roots) proof.acc_path
          prover.acc)

  -- `VerifyDeletion`. It leaves the accumulator and the count of the prover as they are.
  unfoldable pub verify_deletion : Verifier → Bytes → DeletionProof → Run PoisError (Unit {0})
  unfolding found_deletion
  verify_deletion v id proof = found_deletion v id proof (find_node id v.nodes)
