-- ===== src/Mht/Binding.antt =====
-- A root binds the elements that a path proof of tree/light_merkel_tree.go can show below it.
use cess_pos_demo.Common.{
  ℕ, suc, true, List, [], ◌∷◌, ◌++◌, length, length-append, get_elem?, some, ◌==◌, ◌≡◌, refl, sym,
  ap, ◌∙◌, ◌≢◌, arith, Bool-cases, inl, inr, ◌⊎◌, ==_iff,
}
use cess_pos_demo.BigInt.{Bytes, equal}
use cess_pos_demo.BigInt.Bytes.{equal_iff, eq_of_equal}
use cess_pos_demo.Crypto.{Crypto, hash_sum, length-hash_sum}
use cess_pos_demo.Mht.{PathProof, join, climb, verify_path_proof}

append-cancel :
    (xs ys zs ws : Bytes) → length xs ≡ length ys → xs ++ zs ≡ ys ++ ws → (xs ≡ ys) × (zs ≡ ws)
append-cancel [] [] zs ws h e = (refl, e)
append-cancel [] (y ∷ ys) zs ws h e = absurd (omega arith)
append-cancel (x ∷ xs) [] zs ws h e = absurd (omega arith)
append-cancel (x ∷ xs) (y ∷ ys) zs ws h e =
    let (p, q) = append-cancel xs ys zs ws (omega arith) (cc) in (cc, q)

module _ ⦃c : Crypto⦄ where
  -- The messages that the rounds of `climb` hash.
  unfoldable pub hashed : ℕ → List ℕ → List Bytes → Bytes → List Bytes
  hashed size [] path digest = []
  hashed size (loc ∷ locs) [] digest = []
  hashed size (loc ∷ locs) (sibling ∷ path) digest =
      join loc sibling digest ∷ hashed size locs path (hash_sum size (join loc sibling digest))

  -- All the messages that `verify_path_proof` hashes.
  abbrev pub all_hashed : ℕ → Bytes → PathProof → List Bytes
  all_hashed size elem proof = elem ∷ hashed size proof.locs proof.path (hash_sum size elem)

  -- Two runs hash different messages to one digest in the same round.
  abbrev pub Collision : ℕ → List Bytes → List Bytes → Type 0
  Collision size ms ms' =
      (i : ℕ) × (m m' : Bytes) × (get_elem? ms i ≡ some m)
      × (get_elem? ms' i ≡ some m')
      × (m ≢ m')
      × (hash_sum size m ≡ hash_sum size m')

  hash_sum-injective :
      (size : ℕ) (m m' : Bytes) (ms ms' : List Bytes)
      → hash_sum size m ≡ hash_sum size m'
      → (m ≡ m') ⊎ Collision size (m ∷ ms) (m' ∷ ms')
  hash_sum-injective size m m' ms ms' e = elim (Bool-cases (equal m m')) [
    | inl h ↦ inl (eq_of_equal m m' h)
    | inr h ↦ inr (0, m, m', refl, refl, (λ p. cc (h, (equal_iff m m').1 p)), e)
  ]

  Collision-later :
      (size : ℕ) (m m' : Bytes) (ms ms' : List Bytes)
      → Collision size ms ms'
      → Collision size (m ∷ ms) (m' ∷ ms')
  Collision-later size m m' ms ms' (i, a, a', h, h', n, e) = (suc i, a, a', h, h', n, e)

  join-injective :
      (loc : ℕ) (s s' d d' : Bytes) → length d ≡ length d' → join loc s d ≡ join loc s' d' → d ≡ d'
  unfolding join
  join-injective loc s s' d d' h e = elim (Bool-cases (loc == 0)) [
    | inl q ↦
        let f : s ++ d ≡ s' ++ d' = rw q at e in
        let total = ap (length {A = ℕ}) f in
        let a = length-append s d in
        let b = length-append s' d' in (append-cancel s s' d d' (omega arith) f).1
    | inr q ↦ (append-cancel d d' s s' h (rw q at e)).0
  ]

  climb-injective :
      (size : ℕ) (locs : List ℕ) (path path' : List Bytes) (d d' : Bytes)
      → length locs ≡ length path
      → length locs ≡ length path'
      → length d ≡ length d'
      → climb size locs path d ≡ climb size locs path' d'
      → (d ≡ d') ⊎ Collision size (hashed size locs path d) (hashed size locs path' d')
  unfolding climb hashed
  climb-injective size [] [] [] d d' h h' l e = inl e
  climb-injective size (x ∷ locs) (p ∷ path) (p' ∷ path') d d' h h' l e =
      let l' = length-hash_sum size (join x p d) ∙ sym (length-hash_sum size (join x p' d')) in
      elim (climb-injective size locs path path' _ _ (omega arith) (omega arith) l' e) [
        | inl digests ↦ elim (hash_sum-injective size _ _ _ _ digests) [
          | inl joined ↦ inl (join-injective x p p' d d' l joined)
          | inr clash ↦ inr clash
        ]
        | inr clash ↦ inr (Collision-later size _ _ _ _ clash)
      ]
  climb-injective size _ _ _ d d' h h' l e = absurd (omega arith)

  -- What an accepted proof says.
  accepted-climb :
      (root elem : Bytes) (proof : PathProof)
      → verify_path_proof root elem proof ≡ true
      → (length proof.locs ≡ length proof.path)
        × (root ≡ climb (length root) proof.locs proof.path (hash_sum (length root) elem))
  unfolding verify_path_proof
  accepted-climb root elem proof h = elim (Bool-cases (length proof.locs == length proof.path)) [
    | inl l ↦ elim (Bool-cases (length (hash_sum (length root) elem) == length root)) [
      | inl d ↦ ((==_iff _ _).0 l, eq_of_equal root _ (rw (l, d) at h))
      | inr d ↦ cc (rw (l, d) at h)
    ]
    | inr l ↦ cc (rw l at h)
  ]

  -- Two elements that `VerifyPathProof` accepts below one root at one place, which is the same
  -- `Locs`, are one, or the two runs hash different messages to one digest in the same round.
  pub verify_path_proof-binding :
      (root elem elem' : Bytes) (proof proof' : PathProof)
      → proof.locs ≡ proof'.locs
      → verify_path_proof root elem proof ≡ true
      → verify_path_proof root elem' proof' ≡ true
      → (elem ≡ elem')
        ⊎ Collision
            (length root)
            (all_hashed (length root) elem proof)
            (all_hashed (length root) elem' proof')
  verify_path_proof-binding root elem elem' proof proof' same h h' =
      let (l, e) = accepted-climb root elem proof h in
      let (l', e') = accepted-climb root elem' proof' h' in
      let size = length root in
      let lengths = length-hash_sum size elem ∙ sym (length-hash_sum size elem') in
      let place : climb size proof.locs proof.path (hash_sum size elem)
          ≡ climb size proof.locs proof'.path (hash_sum size elem') =
        sym e ∙ e' ∙ ap (λ t. climb size t proof'.path (hash_sum size elem')) (sym same) in
      elim (climb-injective size proof.locs proof.path proof'.path _ _ l
        (ap (length {A = ℕ}) same ∙ l') lengths place) [
          | inl digests ↦ hash_sum-injective size elem elem' _ _ digests
          | inr clash ↦ inr (Collision-later size elem elem' _ _ (rw (sym same) clash))
        ]
