-- ===== src/Mht.antt =====
-- Merkle path proofs of tree/light_merkel_tree.go.
pub mod Binding
pub mod Reference
pub mod Light
pub mod Slots
pub mod Levels
pub mod Built
pub mod Paths
pub mod Acceptance
use cess_pos_demo.Common.{
  ℕ, Bool, true, false, not, List, [], ◌∷◌, ◌++◌, length, ◌==◌, if◌then◌else◌,
}
use cess_pos_demo.BigInt.{Bytes, equal}
use cess_pos_demo.Crypto.{Crypto, hash_sum}

pub record PathProof : Type 0 where
  pub locs : Bytes
  pub path : List Bytes

module _ ⦃c : Crypto⦄ where
  -- What one round of the loop of `VerifyPathProof` hashes; 0 puts the sibling on the left.
  unfoldable pub join : ℕ → Bytes → Bytes → Bytes
  join loc sibling digest = if loc == 0 then sibling ++ digest else digest ++ sibling

  -- The loop of `VerifyPathProof`, over the two lists that have one length.
  unfoldable pub climb : ℕ → List ℕ → List Bytes → Bytes → Bytes
  unfolding join
  climb size [] path digest = digest
  climb size (loc ∷ locs) [] digest = digest
  climb size (loc ∷ locs) (sibling ∷ path) digest =
      climb size locs path (hash_sum size (join loc sibling digest))

  unfoldable pub verify_path_proof : Bytes → Bytes → PathProof → Bool
  unfolding climb
  verify_path_proof root elem proof =
      let size = length root in
      let digest = hash_sum size elem in
      if not (length proof.locs == length proof.path)
      then false
      else if not (length digest == length root)
      then false
      else equal root (climb size proof.locs proof.path digest)
