-- ===== src/Verify/Labels.antt =====
-- The labels of an insertion in `VerifyAcc` of pois/verify.go.
use cess_pos_demo.Common.{
  ℕ, suc, ◌+◌, ◌-◌, not, List, [], ◌∷◌, ◌++◌, get_elem?, get_elem?-append_left, lt-get_elem?,
  Option, none, some, ◌==◌, Run, ok, err, panic, index_out_of_range, or_panic, fail_if, ◌>>=◌, ◌≡◌,
  refl, ◌∙◌, length, ltb, replicate, ◌||◌, true, Returns,
}
use cess_pos_demo.BigInt.{Bytes, equal}
use cess_pos_demo.Crypto.{Crypto}
use cess_pos_demo.Encoding.{hash_size, get_bytes, get_hash, copy_data}
use cess_pos_demo.Acc.Chain.{WitnessNode, verify_insert_update}
use cess_pos_demo.Verify.{
  ProverNode, Verifier, AccProof, PoisError, bad_proof_data, bad_file_index, label_mismatch,
  find_node, with_node, commit_index, check_labels, accept_acc, found_acc, verify_acc,
}
use cess_pos_demo.Verify.Nodes.{find_node-put_node}

-- The same first call in two chains: the second ends as the first does if its rest does.
carry :
    {A B : Type 0} (r : Run PoisError A) (f f' : A → Run PoisError B) {b : B}
    → r >>= f ≡ ok b
    → ((a : A) → f a ≡ ok b → f' a ≡ ok b)
    → r >>= f' ≡ ok b
carry (ok a) f f' e h = h a e
carry (err x) f f' e h = cc
carry (panic p) f f' e h = cc

-- The same for two lookups, the second of which finds at least what the first does.
carry_found :
    {A B : Type 0} (o o' : Option A) (f f' : A → Run PoisError B) {b : B}
    → or_panic o index_out_of_range >>= f ≡ ok b
    → ((a : A) → o ≡ some a → o' ≡ some a)
    → ((a : A) → f a ≡ ok b → f' a ≡ ok b)
    → or_panic o' index_out_of_range >>= f' ≡ ok b
carry_found none o' f f' e found h = cc
carry_found (some a) o' f f' e found h = rw (found a refl) (h a e)

get_elem?-longer :
    (xs ys : List Bytes) (i : ℕ) (x : Bytes)
    → get_elem? xs i ≡ some x
    → get_elem? (xs ++ ys) i ≡ some x
get_elem?-longer xs ys i x h = get_elem?-append_left xs ys i (lt-get_elem? xs i h) ∙ h

-- The same for two chains that end differently: the second returns, in a value with the property `P`.
carry_returns :
    {A B C : Type 0} (r : Run PoisError A) (f : A → Run PoisError B) (f' : A → Run PoisError C)
    (P : C → Type 0) {b : B}
    → r >>= f ≡ ok b
    → ((a : A) → r ≡ ok a → f a ≡ ok b → Returns (f' a) P)
    → Returns (r >>= f') P
carry_returns (ok a) f f' P e h = h a refl e
carry_returns (err x) f f' P e h = cc
carry_returns (panic p) f f' P e h = cc

-- The value of the first call of a chain that returns.
pub value_of :
    {A B : Type 0} (r : Run PoisError A) (f : A → Run PoisError B) {b : B}
    → r >>= f ≡ ok b
    → (a : A) × (r ≡ ok a) × (f a ≡ ok b)
value_of (ok a) f e = (a, refl, e)
value_of (err x) f e = cc
value_of (panic p) f e = cc

-- The proof with further labels, and the chain and the accumulators of all of them.
abbrev pub longer : AccProof → List Bytes → WitnessNode → List Bytes → AccProof
longer proof extra exist accs = record proof {
  labels = proof.labels ++ extra;
  wit_chains = exist;
  acc_path = accs;
}

module _ ⦃c : Crypto⦄ where
  -- Labels that the loop of `VerifyAcc` finds right stay right with further labels behind them.
  check_labels-extra :
      (k : ℕ) (node : ProverNode) (id : Bytes) (index : ℕ) (proof : AccProof) (i : ℕ)
      (label : Bytes) (chals : List (List ℕ)) (extra : List Bytes) (exist : WitnessNode)
      (accs : List Bytes)
      → check_labels k node id index proof i label chals ≡ ok tt
      → check_labels k node id index (longer proof extra exist accs) i label chals ≡ ok tt
  unfolding check_labels
  check_labels-extra k node id index proof i label [] extra exist accs h = refl
  check_labels-extra k node id index proof i label (chal ∷ chals) extra exist accs h =
      carry (or_panic (get_elem? chal 0) index_out_of_range) _ _ h (λ file h1.
        carry (or_panic (get_elem? proof.indexs i) index_out_of_range) _ _ h1 (λ claimed h2.
          carry (fail_if (not (file == claimed)) bad_file_index) _ _ h2 (λ u h3.
            carry (or_panic (get_elem? node.commits_buf (i + index)) index_out_of_range) _ _ h3
              (λ commit h4.
                carry (or_panic (get_elem? commit.roots k) index_out_of_range) _ _ h4 (λ root h5.
                  carry_found (get_elem? proof.labels i) (get_elem? (proof.labels ++ extra) i) _ _
                    h5 (get_elem?-longer proof.labels extra i)
                    (λ expected h6.
                      carry
                        (fail_if
                          (not (
                            equal (get_hash (copy_data label (id ∷ get_bytes 8 file ∷ root ∷ [])))
                              expected))
                          label_mismatch)
                        _ _ h6
                        (λ u' h7.
                          check_labels-extra k node id index proof (suc i) _ chals extra exist accs
                            h7)))))))

  -- What `VerifyAcc` makes of an insertion that it accepts: the prover's record with the accumulator
  -- `last`, and as many files more as there are challenges.
  abbrev pub Counted : Bytes → ProverNode → ℕ → Bytes → Verifier → Type 0
  Counted id prover num last v' =
      (prover' : ProverNode) × (find_node id v'.nodes ≡ some prover')
      × (prover'.acc ≡ last)
      × (prover'.count ≡ prover.count + num)

  accept_acc-Counted :
      (v : Verifier) (id : Bytes) (prover : ProverNode) (index num : ℕ) (proof : AccProof)
      (last : Bytes)
      → find_node id v.nodes ≡ some prover
      → get_elem? proof.acc_path (length proof.acc_path - 1) ≡ some last
      → Returns (accept_acc v id prover index num proof (ok true)) (Counted id prover num last)
  unfolding accept_acc with_node
  accept_acc-Counted v id prover index num proof last found last_at =
      rw last_at (_, refl, (_, find_node-put_node id _ v.nodes found, refl, refl))

  -- Behind an insertion that `VerifyAcc` accepts, any further labels can be inserted with it: the proof
  -- with these labels at the end of its own, and with any chain and accumulators that
  -- `VerifyInsertUpdate` accepts for all of them, is accepted for the same challenges. The prover's
  -- record takes the last of those accumulators, and counts only the challenges.
  pub verify_acc-extra :
      (v v' : Verifier) (id : Bytes) (chals : List (List ℕ)) (proof : AccProof)
      (prover : ProverNode) (extra : List Bytes) (exist : WitnessNode) (accs : List Bytes)
      (last : Bytes)
      → find_node id v.nodes ≡ some prover
      → verify_acc v id chals proof ≡ ok v'
      → verify_insert_update v.key exist (proof.labels ++ extra) accs prover.acc ≡ ok true
      → get_elem? accs (length accs - 1) ≡ some last
      → Returns
          (verify_acc v id chals (longer proof extra exist accs))
          (Counted id prover (length chals) last)
  unfolding verify_acc found_acc
  verify_acc-extra v v' id chals proof prover extra exist accs last found accepted good last_at =
      let P = Counted id prover (length chals) last in
      let e : found_acc v id chals proof (some prover) ≡ ok v' = rw found at accepted in
      rw found (
        carry_returns
          (fail_if (not (length chals == length proof.indexs) || ltb prover.buf_size (length chals))
            bad_proof_data)
          _ _ P e
          (λ u fits e1. carry_returns (commit_index prover chals) _ _ P e1 (λ index begins e2.
            let (u', right, e3) =
              value_of
                (check_labels v.expanders.k prover id index proof 0
                  (replicate (length id + 8 + hash_size) 0) chals)
                _ e2 in
            rw
              (
                check_labels-extra v.expanders.k prover id index proof 0
                    (replicate (length id + 8 + hash_size) 0) chals extra exist accs right,
                good,
              )
              (accept_acc-Counted v id prover index (length chals) (longer proof extra exist accs)
                last found last_at))))
