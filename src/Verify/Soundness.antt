-- ===== src/Verify/Soundness.antt =====
-- What accepted commit proofs of pois/verify.go show of each commit.
use cess_pos_demo.Common.{
  ℕ, ◌+◌, ◌*◌, ◌/◌, Bool, true, false, List, [], ◌∷◌, length, drop, All, get_elem?, Option, some,
  ◌==◌, ==_iff, ◌≡◌, refl, ◌∙◌, Whenever, Whenever-map, Whenever-bind, Whenever-if,
}
use mathlib.Core.Path.{subst}
use cess_pos_demo.BigInt.{Bytes}
use cess_pos_demo.Crypto.{Crypto}
use cess_pos_demo.Encoding.{hash_size}
use cess_pos_demo.Verify.{Commit, ProverNode, Verifier, bad_node_index}
use cess_pos_demo.Verify.Beginning.{BeginsAt}
use cess_pos_demo.Verify.Guards.{at_index, past}
use cess_pos_demo.Verify.Checks.{MhtProof}
use cess_pos_demo.Verify.Commits.{
  CommitProof, front_size, layer_root, check_node, check_chain, check_commit, check_commits,
}
use cess_pos_demo.Verify.Nodewise.{IsFull, NodeShown, check_node-NodeShown}

first_of :
    {A : Type 0} (P : A → Type 0) (xs : List A) (x : A) → All P xs → get_elem? xs 0 ≡ some x → P x
first_of P (y ∷ xs) x a h = subst P (cc) a.0
first_of P [] x a h = cc

rest_of : {A : Type 0} (P : A → Type 0) (xs : List A) → All P xs → All P (drop 1 xs)
rest_of P [] a = tt
rest_of P (x ∷ xs) a = a.1

module _ ⦃c : Crypto⦄ (n d : ℕ) (id : Bytes) where
  -- The node `idx` of the file is shown below the root of its layer in the commit.
  abbrev pub Shown : ℕ → Option Commit → ℕ → CommitProof → Type 0
  Shown file commit idx proof =
      (found : Commit) × (root : Bytes) × (commit ≡ some found)
      × (get_elem? found.roots (idx / n) ≡ some root)
      × NodeShown n id file found.roots root idx proof

  -- Each further node is the parent that the challenge asks for of the node before.
  abbrev pub ChainShown : ℕ → Option Commit → List ℕ → CommitProof → List CommitProof → Type 0
  ChainShown file commit [] proof proofs = Unit {0}
  ChainShown file commit (w ∷ chal) proof proofs =
      (parent : MhtProof) × (next : CommitProof) × (get_elem? proof.parents w ≡ some parent)
      × (get_elem? proofs 0 ≡ some next)
      × Shown file commit parent.index next
      × ChainShown file commit chal next (drop 1 proofs)

  -- All that a challenge asks for is shown.
  pub record CommitShown (commit : Option Commit) (chal : List ℕ) (proofs : List CommitProof)
      : Type 0 where
    pub file : ℕ
    pub first : ℕ
    pub proof : CommitProof
    pub file_at : get_elem? chal 0 ≡ some file
    pub first_at : get_elem? chal 1 ≡ some first
    pub proof_at : get_elem? proofs 0 ≡ some proof
    pub of_first : first ≡ proof.node.index
    pub shown : Shown file commit first proof
    pub chain : ChainShown file commit (drop 2 chal) proof (drop 1 proofs)

  abbrev IsBuffer : Bytes → Type 0
  IsBuffer label = length label ≡ front_size id + (d + 1) * hash_size

  layer_root-found :
      (commit : Option Commit) (idx : ℕ)
      → Whenever (layer_root n commit idx) (λ (roots, root).
        (found : Commit) × (commit ≡ some found)
        × (roots ≡ found.roots)
        × (get_elem? found.roots (idx / n) ≡ some root))
  unfolding layer_root
  layer_root-found commit idx =
      let Q : List Bytes × Bytes → Type 0 = λ (roots, root).
        (found : Commit) × (commit ≡ some found)
        × (roots ≡ found.roots)
        × (get_elem? found.roots (idx / n) ≡ some root) in
      Whenever-if (n == 0) _ _ Q (λ h. tt)
        (λ h. at_index commit _ Q (λ found e.
          at_index (get_elem? found.roots (idx / n)) _ Q (λ root e'. (found, e, refl, e'))))

  -- A node looked up and tested.
  node_Shown :
      (file : ℕ) (commit : Option Commit) (idx : ℕ) (proof : CommitProof) (label : Bytes)
      (roots : List Bytes × Bytes)
      → IsFull d proof
      → IsBuffer label
      → ((found : Commit) × (commit ≡ some found)
          × (roots.0 ≡ found.roots)
          × (get_elem? found.roots (idx / n) ≡ some roots.1))
      → Whenever
          (check_node n id file roots idx proof label)
          (λ label'. IsBuffer label' × Shown file commit idx proof)
  node_Shown file commit idx proof label (roots, root) full size (found, e, same, e') =
      Whenever-map _ _ (λ label'. IsBuffer label' × Shown file commit idx proof)
        (check_node-NodeShown n d id file roots root idx proof label full size)
        (λ label' (kept, shown). (
          kept ∙ size,
          (found, root, e, e', subst (λ t. NodeShown n id file t root idx proof) same shown),
        ))

  check_chain-ChainShown :
      (file : ℕ) (commit : Option Commit) (chal : List ℕ) (proof : CommitProof)
      (proofs : List CommitProof) (label : Bytes)
      → All (IsFull d) proofs
      → IsBuffer label
      → Whenever
          (check_chain n id file commit chal proof proofs label)
          (λ label'. IsBuffer label' × ChainShown file commit chal proof proofs)
  unfolding check_chain
  check_chain-ChainShown file commit [] proof proofs label full size = (size, tt)
  check_chain-ChainShown file commit (w ∷ chal) proof proofs label full size =
      let Q : Bytes → Type 0 =
        λ label'. IsBuffer label' × ChainShown file commit (w ∷ chal) proof proofs in
      at_index (get_elem? proof.parents w) _ Q (λ parent parent_at.
        Whenever-bind (layer_root n commit parent.index) _ _ Q
          (layer_root-found commit parent.index)
          (λ root found. at_index (get_elem? proofs 0) _ Q (λ next next_at.
            Whenever-bind (check_node n id file root parent.index next label) _ _ Q
              (node_Shown file commit parent.index next label root
                (first_of (IsFull d) proofs next full next_at) size found)
              (λ label' (size', shown).
                Whenever-map _ _ Q
                  (check_chain-ChainShown file commit chal next (drop 1 proofs) label'
                    (rest_of (IsFull d) proofs full) size')
                  (λ label'' (size'', chain).
                    (size'', (parent, next, parent_at, next_at, shown, chain)))))))

  check_commit-CommitShown :
      (commit : Option Commit) (chal : List ℕ) (proofs : List CommitProof) (label : Bytes)
      → All (IsFull d) proofs
      → IsBuffer label
      → Whenever
          (check_commit n id commit chal proofs label)
          (λ label'. IsBuffer label' × CommitShown commit chal proofs)
  unfolding check_commit
  check_commit-CommitShown commit chal proofs label full size =
      let Q : Bytes → Type 0 = λ label'. IsBuffer label' × CommitShown commit chal proofs in
      at_index (get_elem? chal 1) _ Q (λ first first_at.
        at_index (get_elem? proofs 0) _ Q (λ proof proof_at.
          past (first == proof.node.index) bad_node_index _ Q (λ same.
            at_index (get_elem? chal 0) _ Q (λ file file_at.
              Whenever-bind (layer_root n commit first) _ _ Q (layer_root-found commit first)
                (λ root found.
                  Whenever-bind (check_node n id file root first proof label) _ _ Q
                    (node_Shown file commit first proof label root
                      (first_of (IsFull d) proofs proof full proof_at) size found)
                    (λ label' (size', shown).
                      Whenever-map _ _ Q
                        (check_chain-ChainShown file commit (drop 2 chal) proof (drop 1 proofs)
                          label' (rest_of (IsFull d) proofs full) size')
                        (λ label'' (size'', chain). (
                          size'',
                          record {
                            file = file;
                            first = first;
                            proof = proof;
                            file_at = file_at;
                            first_at = first_at;
                            proof_at = proof_at;
                            of_first = (==_iff first proof.node.index).0 same;
                            shown = shown;
                            chain = chain;
                          },
                        ))))))))

  -- The challenges are shown of the commits from `at` on.
  abbrev pub AllShown : List Commit → ℕ → List (List ℕ) → List (List CommitProof) → Type 0
  AllShown commits at chals [] = Unit {0}
  AllShown commits at [] (proofs ∷ more) = ⊥
  AllShown commits at (chal ∷ chals) (proofs ∷ more) =
      CommitShown (get_elem? commits at) chal proofs × AllShown commits (at + 1) chals more

  pub check_commits-AllShown :
      (commits : List Commit) (at : ℕ) (chals : List (List ℕ)) (proofs : List (List CommitProof))
      (label : Bytes)
      → All (All (IsFull d)) proofs
      → IsBuffer label
      → Whenever
          (check_commits n id commits at chals proofs label)
          (λ u. AllShown commits at chals proofs)
  unfolding check_commits
  check_commits-AllShown commits at chals [] label full size = tt
  check_commits-AllShown commits at [] (proofs ∷ more) label full size = tt
  check_commits-AllShown commits at (chal ∷ chals) (proofs ∷ more) label full size =
      let Q : Unit {0} → Type 0 = λ u. AllShown commits at (chal ∷ chals) (proofs ∷ more) in
      Whenever-bind (check_commit n id (get_elem? commits at) chal proofs label) _
        (λ label'. IsBuffer label' × CommitShown (get_elem? commits at) chal proofs) Q
        (check_commit-CommitShown (get_elem? commits at) chal proofs label full.0 size)
        (λ label' (size', shown).
          Whenever-map _ _ Q
            (check_commits-AllShown commits (at + 1) chals more label' full.1 size')
            (λ u rest. (shown, rest)))

module _ ⦃c : Crypto⦄ where
  -- What holds when a call ends: one that does not end answers nothing.
  abbrev Ended :
      Verifier → Bytes → ProverNode → List (List ℕ) → List (List CommitProof) → Bool → Type 0
  Ended v id prover chals proofs false = Unit {0}
  Ended v id prover chals proofs true =
      (index : ℕ) × BeginsAt prover chals index
      × AllShown v.expanders.n v.expanders.d id prover.commits_buf index chals proofs
