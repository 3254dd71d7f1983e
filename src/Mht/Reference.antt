-- ===== src/Mht/Reference.antt =====
-- The Merkle tree that the path proofs of tree/light_merkel_tree.go speak of, and its paths.
use cess_pos_demo.Common.{
  ℕ, true, List, [], ◌∷◌, ◌++◌, length, length-append_one, ◌==◌, if◌then◌else◌, ◌≡◌, refl, ◌∙◌,
  arith,
}
use cess_pos_demo.BigInt.{Bytes}
use cess_pos_demo.BigInt.Bytes.{equal_refl}
use cess_pos_demo.Crypto.{Crypto, hash_sum, length-hash_sum}
use cess_pos_demo.Mht.{join, climb, verify_path_proof}

pub data Mht : Type 0 where
  leaf : Bytes → Mht
  branch : Mht → Mht → Mht

module _ ⦃c : Crypto⦄ where
  unfoldable pub root_of : ℕ → Mht → Bytes
  root_of size (leaf elem) = hash_sum size elem
  root_of size (branch l r) = hash_sum size (root_of size l ++ root_of size r)

  -- `At tree elem locs path`: below the tree's root stands `elem`, and `locs` and `path` are the
  -- sides and the digests of the siblings on the way up from it, the lowest first.
  pub data At (size : ℕ) (elem : Bytes) : Mht → List ℕ → List Bytes → Type 0 where
    here : At size elem (leaf elem) [] []
    left :
        (l r : Mht) (locs : List ℕ) (path : List Bytes)
        → At size elem l locs path
        → At size elem (branch l r) (locs ++ 1 ∷ []) (path ++ root_of size r ∷ [])
    right :
        (l r : Mht) (locs : List ℕ) (path : List Bytes)
        → At size elem r locs path
        → At size elem (branch l r) (locs ++ 0 ∷ []) (path ++ root_of size l ∷ [])

  At-length :
      (size : ℕ) (elem : Bytes) (t : Mht) (locs : List ℕ) (path : List Bytes)
      → At size elem t locs path
      → length locs ≡ length path
  At-length size elem _ _ _ here = refl
  At-length size elem _ _ _ (left l r locs path a) =
      let tail = At-length size elem l locs path a in
      let a' = length-append_one locs 1 in
      let b' = length-append_one path (root_of size r) in omega arith
  At-length size elem _ _ _ (right l r locs path a) =
      let tail = At-length size elem r locs path a in
      let a' = length-append_one locs 0 in
      let b' = length-append_one path (root_of size l) in omega arith

  climb-append_one :
      (size : ℕ) (locs : List ℕ) (path : List Bytes) (loc : ℕ) (sibling digest : Bytes)
      → length locs ≡ length path
      → climb size (locs ++ loc ∷ []) (path ++ sibling ∷ []) digest
        ≡ hash_sum size (join loc sibling (climb size locs path digest))
  unfolding climb
  climb-append_one size [] [] loc sibling digest h = refl
  climb-append_one size [] (p ∷ path) loc sibling digest h = absurd (omega arith)
  climb-append_one size (x ∷ locs) [] loc sibling digest h = absurd (omega arith)
  climb-append_one size (x ∷ locs) (p ∷ path) loc sibling digest h =
      climb-append_one size locs path loc sibling _ (omega arith)

  climb-At :
      (size : ℕ) (elem : Bytes) (t : Mht) (locs : List ℕ) (path : List Bytes)
      → At size elem t locs path
      → climb size locs path (hash_sum size elem) ≡ root_of size t
  unfolding climb join root_of
  climb-At size elem _ _ _ here = refl
  climb-At size elem _ _ _ (left l r locs path a) =
      climb-append_one size locs path 1 (root_of size r) (hash_sum size elem)
        (At-length size elem l locs path a)
      ∙ rw (climb-At size elem l locs path a)
  climb-At size elem _ _ _ (right l r locs path a) =
      climb-append_one size locs path 0 (root_of size l) (hash_sum size elem)
        (At-length size elem r locs path a)
      ∙ rw (climb-At size elem r locs path a)

  length-root_of : (size : ℕ) (t : Mht) → length (root_of size t) ≡ (if size == 32 then 32 else 64)
  unfolding root_of
  length-root_of size (leaf elem) = length-hash_sum size elem
  length-root_of size (branch l r) = length-hash_sum size _

  -- `VerifyPathProof` accepts the path of an element of a Merkle tree whose digests are as long as
  -- the size that chooses them, 32 or 64.
  pub verify_path_proof-At :
      (size : ℕ) (elem : Bytes) (t : Mht) (locs : List ℕ) (path : List Bytes)
      → (if size == 32 then 32 else 64) ≡ size
      → At size elem t locs path
      → verify_path_proof (root_of size t) elem (record { locs = locs; path = path }) ≡ true
  unfolding verify_path_proof
  verify_path_proof-At size elem t locs path h a =
      let size_of : length (root_of size t) ≡ size = length-root_of size t ∙ h in
      let digest : length (hash_sum size elem) ≡ size = length-hash_sum size elem ∙ h in
      let same = At-length size elem t locs path a in
      let l : (length locs == length path) ≡ true = ground arith in
      let d : (size == size) ≡ true = ground arith in
      rw (l, size_of, digest, d, climb-At size elem t locs path a) (equal_refl (root_of size t))
