-- ===== src/Acc/Accumulator/Witnesses.antt =====
-- `generateWitness` gives each element the accumulator of all the others.
use cess_pos_demo.Common.{
  ℕ, zero, suc, ◌+◌, ◌-◌, ◌/◌, ◌≤◌, ◌<◌, ◌≡◌, refl, sym, ap, ◌∙◌, arith, List, [], ◌∷◌, ◌++◌, some,
  length, take, drop, get_elem?, erase_idx, split_at, length-append, length-take, length-drop,
  take-append-drop, get_elem?-append_left, get_elem?-append_right, erase_idx-append_left,
  erase_idx-append_right, lt-get_elem?, true, ==_iff, ◌↔◌,
}
use mathlib.Core.Path.{subst, ◌≡⟨◌⟩◌, ◌∎}
use mathlib.Core.List.{append_assoc}
use native.Mathlib.Decide.{dec_lt}
use cess_pos_demo.BigInt.{Bytes, from_bytes, to_bytes}
use cess_pos_demo.BigInt.Bytes.{from_bytes-to_bytes}
use cess_pos_demo.Crypto.{Crypto}
use cess_pos_demo.Acc.Accumulator.{
  RsaKey, raise, generate_acc, generate_witness_below, generate_witness, verify_acc,
}
use cess_pos_demo.Acc.Accumulator.Exponents.{raise-append, raise_comm, generate_acc-raise}

module _ ⦃c : Crypto⦄ where
  -- the witness of the element at `i`, by its meaning
  abbrev pub witness_at : ℕ → ℕ → List Bytes → ℕ → Bytes
  witness_at n g us i = to_bytes (raise n g (erase_idx us i))

  pub length-generate_witness_below :
      (fuel n g : ℕ) (us : List Bytes)
      → length us ≤ fuel
      → length (generate_witness_below fuel n g us) ≡ length us
  unfolding generate_witness_below
  length-generate_witness_below zero n g [] h = refl
  length-generate_witness_below zero n g (u ∷ us) h = absurd (omega arith)
  length-generate_witness_below (suc fuel) n g [] h = refl
  length-generate_witness_below (suc fuel) n g (u ∷ []) h = refl
  length-generate_witness_below (suc fuel) n g (u ∷ v ∷ us) h =
      let half = length (u ∷ v ∷ us) / 2 in
      let left = take half (u ∷ v ∷ us) in
      let right = drop half (u ∷ v ∷ us) in
      let l : length left ≡ half = omega (arith, length-take half (u ∷ v ∷ us)) in
      let r : length right ≡ length (u ∷ v ∷ us) - half =
        omega (arith, length-drop half (u ∷ v ∷ us)) in
      omega (
        arith,
        length-append (generate_witness_below fuel n (raise n g right) left)
            (generate_witness_below fuel n (raise n g left) right),
        length-generate_witness_below fuel n (raise n g right) left (omega arith),
        length-generate_witness_below fuel n (raise n g left) right (omega arith),
      )

  -- An element of the left half: its witness over the base that took the right half in.
  left_half :
      (n g : ℕ) (ls rs ws vs : List Bytes) (i : ℕ)
      → i < length ls
      → length ws ≡ length ls
      → get_elem? ws i ≡ some (witness_at n (raise n g rs) ls i)
      → get_elem? (ws ++ vs) i ≡ some (witness_at n g (ls ++ rs) i)
  left_half n g ls rs ws vs i h e w =
      get_elem?-append_left ws vs i (omega arith)
      ∙ w
      ∙ ap (λ t. some (to_bytes t))
          (sym (raise-append n g rs (erase_idx ls i))
            ∙ raise_comm n g rs (erase_idx ls i)
            ∙ ap (raise n g) (sym (erase_idx-append_left ls rs i h)))

  right_half :
      (n g : ℕ) (ls rs ws vs : List Bytes) (i : ℕ)
      → length ws ≡ length ls
      → get_elem? vs i ≡ some (witness_at n (raise n g ls) rs i)
      → get_elem? (ws ++ vs) (length ls + i) ≡ some (witness_at n g (ls ++ rs) (length ls + i))
  right_half n g ls rs ws vs i e w =
      ap (λ t. get_elem? (ws ++ vs) (t + i)) (sym e)
      ∙ get_elem?-append_right ws vs i
      ∙ w
      ∙ ap (λ t. some (to_bytes t))
          (sym (raise-append n g ls (erase_idx rs i))
            ∙ ap (raise n g) (sym (erase_idx-append_right ls rs i)))

  both_halves :
      (n g : ℕ) (ls rs ws vs : List Bytes) (i : ℕ)
      → length ws ≡ length ls
      → ((j : ℕ) → j < length ls → get_elem? ws j ≡ some (witness_at n (raise n g rs) ls j))
      → ((j : ℕ) → j < length rs → get_elem? vs j ≡ some (witness_at n (raise n g ls) rs j))
      → i < length ls + length rs
      → get_elem? (ws ++ vs) i ≡ some (witness_at n g (ls ++ rs) i)
  both_halves n g ls rs ws vs i e atl atr h = elim (dec_lt i (length ls)) [
    | yes p ↦ left_half n g ls rs ws vs i p e (atl i p)
    | no p ↦
        let j : length ls + (i - length ls) ≡ i = omega arith in
        subst (λ k. get_elem? (ws ++ vs) k ≡ some (witness_at n g (ls ++ rs) k)) j
          (right_half n g ls rs ws vs (i - length ls) e (atr (i - length ls) (omega arith)))
  ]

  generate_witness_below-at :
      (fuel n g : ℕ) (us : List Bytes) (i : ℕ)
      → length us ≤ fuel
      → i < length us
      → get_elem? (generate_witness_below fuel n g us) i ≡ some (witness_at n g us i)
  unfolding generate_witness_below
  generate_witness_below-at zero n g us i h k = absurd (omega arith)
  generate_witness_below-at (suc fuel) n g [] i h k = absurd (omega arith)
  generate_witness_below-at (suc fuel) n g (u ∷ []) zero h k = unfold raise in refl
  generate_witness_below-at (suc fuel) n g (u ∷ []) (suc i) h k = absurd (omega arith)
  generate_witness_below-at (suc fuel) n g (u ∷ v ∷ us) i h k =
      let half = length (u ∷ v ∷ us) / 2 in
      let left = take half (u ∷ v ∷ us) in
      let right = drop half (u ∷ v ∷ us) in
      let l : length left ≡ half = omega (arith, length-take half (u ∷ v ∷ us)) in
      let r : length right ≡ length (u ∷ v ∷ us) - half =
        omega (arith, length-drop half (u ∷ v ∷ us)) in
      subst
        (λ t.
          get_elem? (generate_witness_below (suc fuel) n g (u ∷ v ∷ us)) i
          ≡ some (witness_at n g t i))
        (take-append-drop half (u ∷ v ∷ us))
        (both_halves n g left right _ _ i
          (length-generate_witness_below fuel n (raise n g right) left (omega arith))
          (λ j lt. generate_witness_below-at fuel n (raise n g right) left j (omega arith) lt)
          (λ j lt. generate_witness_below-at fuel n (raise n g left) right j (omega arith) lt)
          (omega arith))

  pub length-generate_witness :
      (g n : ℕ) (us : List Bytes) → length (generate_witness g n us) ≡ length us
  unfolding generate_witness
  length-generate_witness g n us = length-generate_witness_below (length us) n g us (omega arith)

  -- The witness of each element is the accumulator of all the other elements.
  pub generate_witness-at :
      (g n : ℕ) (us : List Bytes) (i : ℕ)
      → i < length us
      → get_elem? (generate_witness g n us) i ≡ some (witness_at n g us i)
  unfolding generate_witness
  generate_witness-at g n us i h = generate_witness_below-at (length us) n g us i (omega arith) h

  -- Raising a witness by its own element gives the accumulator of all of them.
  pub raise-witness_at :
      (n g : ℕ) (us : List Bytes) (i : ℕ) {u : Bytes}
      → get_elem? us i ≡ some u
      → raise n (from_bytes (witness_at n g us i)) (u ∷ []) ≡ raise n g us
  raise-witness_at n g us i {u} e =
      let (whole, rest) = split_at us i e in
      let before = take i us in
      let behind = drop (suc i) us in
      raise n (from_bytes (witness_at n g us i)) (u ∷ [])
      ≡⟨ ap (λ t. raise n t (u ∷ [])) (from_bytes-to_bytes (raise n g (erase_idx us i))) ⟩
        raise n (raise n g (erase_idx us i)) (u ∷ [])
      ≡⟨ sym (raise-append n g (erase_idx us i) (u ∷ [])) ⟩ raise n g (erase_idx us i ++ u ∷ [])
      ≡⟨ ap (λ t. raise n g (t ++ u ∷ [])) rest ⟩ raise n g ((before ++ behind) ++ u ∷ [])
      ≡⟨ ap (raise n g) (append_assoc before behind (u ∷ [])) ⟩
        raise n g (before ++ (behind ++ u ∷ []))
      ≡⟨ raise-append n g before (behind ++ u ∷ []) ⟩ raise n (raise n g before) (behind ++ u ∷ [])
      ≡⟨ raise_comm n (raise n g before) behind (u ∷ []) ⟩ raise n (raise n g before) (u ∷ behind)
      ≡⟨ sym (raise-append n g before (u ∷ behind)) ⟩ raise n g (before ++ u ∷ behind)
      ≡⟨ ap (raise n g) (sym whole) ⟩ raise n g us ∎

  -- What the check asks for: the witness raised by the element is the accumulator.
  pub verify_acc_iff :
      (key : RsaKey) (acc u wit : Bytes)
      → (verify_acc key acc u wit ≡ true) ↔ (raise key.n (from_bytes wit) (u ∷ []) ≡ from_bytes acc)
  unfolding verify_acc raise
  verify_acc_iff key acc u wit = ==_iff _ _

  pub verify_acc-generate_acc :
      (key : RsaKey) (u wit : Bytes) → verify_acc key (generate_acc key wit (u ∷ [])) u wit ≡ true
  verify_acc-generate_acc key u wit =
      (verify_acc_iff key _ u wit).1
        (sym (from_bytes-to_bytes _) ∙ ap from_bytes (sym (generate_acc-raise key wit (u ∷ []))))

  -- Every element of a list has a witness, and the witness is accepted against the accumulator
  -- that `generateAcc` builds from the generator.
  pub verify_acc-generate_witness :
      (key : RsaKey) (us : List Bytes) (i : ℕ) {u : Bytes}
      → get_elem? us i ≡ some u
      → (w : Bytes) × (get_elem? (generate_witness key.g key.n us) i ≡ some w)
        × (verify_acc key (generate_acc key (to_bytes key.g) us) u w ≡ true)
  verify_acc-generate_witness key us i {u} e = (
    witness_at key.n key.g us i,
    generate_witness-at key.g key.n us i (lt-get_elem? us i e),
    (verify_acc_iff key _ u _).1 (
        raise-witness_at key.n key.g us i e
        ∙ ap (λ t. raise key.n t us) (sym (from_bytes-to_bytes key.g))
        ∙ sym (from_bytes-to_bytes (raise key.n (from_bytes (to_bytes key.g)) us))
        ∙ ap from_bytes (sym (generate_acc-raise key (to_bytes key.g) us))),
  )
