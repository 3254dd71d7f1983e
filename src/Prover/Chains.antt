-- ===== src/Prover/Chains.antt =====
-- The proofs that `ProveCommit` of pois/prove.go makes for one challenge, and what
-- `VerifyCommitProofs` of pois/verify.go makes of them.
use native.Mathlib.Nat.{le-div_iff_mul-le, div-lt_iff_lt-mul}
use cess_pos_demo.Common.{
  ℕ, zero, suc, ◌+◌, ◌-◌, ◌*◌, ◌/◌, ◌^◌, ◌≤◌, ◌<◌, true, false, List, [], ◌∷◌, length, All,
  get_elem?, some, ◌==◌, ==_iff, ◌≡◌, refl, ◌∙◌, arith, inl, inr, Bool-cases, ok, Returns,
}
use cess_pos_demo.BigInt.{Bytes}
use cess_pos_demo.Crypto.{Crypto}
use cess_pos_demo.Encoding.{hash_size}
use cess_pos_demo.Expander.{Expanders}
use cess_pos_demo.Expander.Draw.Degree.{layers}
use cess_pos_demo.Verify.{Commit}
use cess_pos_demo.Verify.Checks.{MhtProof}
use cess_pos_demo.Verify.Commits.{CommitProof, front_size, layer_root, check_chain, check_commit}
use cess_pos_demo.Prover.{Disk, generate_commit_proof, prove_chain, prove_one}
use cess_pos_demo.Prover.Commits.{indices, root_in}
use cess_pos_demo.Prover.Nodes.{
  IsStored, IsAccepted, first_layer-IsAccepted, later_layer-IsAccepted,
}

parent_at :
    (lo hi : ℕ) (parents : List MhtProof) (w : ℕ)
    → w < length (indices parents)
    → All (λ p. lo ≤ p) (indices parents)
    → All (λ p. p < hi) (indices parents)
    → (m : MhtProof) × (get_elem? parents w ≡ some m) × (lo ≤ m.index) × (m.index < hi)
parent_at lo hi [] w h a b = absurd (omega arith)
parent_at lo hi (m ∷ parents) zero h a b = (m, refl, a.0, b.0)
parent_at lo hi (m ∷ parents) (suc w) h a b = parent_at lo hi parents w (omega arith) a.1 b.1

two_more : (i n : ℕ) → 0 < i → (i + 1) * n ≡ (i - 1) * n + n + n
two_more zero n h = absurd (omega arith)
two_more (suc i) n h = let e : suc i - 1 ≡ i = omega arith in rw e (grind arith)

module _ ⦃c : Crypto⦄ (graph : Expanders) (e : ℕ) (power : graph.n ≡ 2 ^ e) (some_levels : 0 < e)
    (pos : 0 < graph.n) (id : Bytes) (commit : Commit) (disk : Disk)
    (slices layers_made : ℕ → Bytes)
    (stored : IsStored graph id commit.file_index disk commit.roots slices layers_made)
    (slice above_slice : Bytes) (s1 : length slice ≡ graph.n * hash_size)
    (s2 : length above_slice ≡ graph.n * hash_size) where
  abbrev root_at : ℕ → Bytes
  root_at i = root_in (slices i) (layers_made i)

  -- The size of the verifier's buffer.
  abbrev pub IsBuffer : Bytes → Type 0
  IsBuffer label = length label ≡ front_size id + (graph.d + 1) * hash_size

  abbrev NodeAccepted : ℕ → CommitProof → Type 0
  NodeAccepted index =
      IsAccepted graph id commit.file_index commit.roots (root_at (index / graph.n)) index

  node_accepted :
      (index : ℕ)
      → index / graph.n ≤ graph.k
      → Returns
          (generate_commit_proof graph id disk slice above_slice commit.file_index index)
          (NodeAccepted index)
  node_accepted index inside = elim (Bool-cases (index / graph.n == 0)) [
    | inl q ↦
        let top : index / graph.n ≡ 0 = (==_iff (index / graph.n) 0).0 q in
        rw top (
          first_layer-IsAccepted graph e power some_levels pos id commit.file_index disk
            commit.roots slices layers_made stored slice above_slice s1 s2 index top)
    | inr q ↦
        later_layer-IsAccepted graph e power some_levels pos id commit.file_index disk commit.roots
          slices layers_made stored slice above_slice s1 s2 index (ground arith) inside
  ]

  layer_root_lem :
      (index : ℕ)
      → index / graph.n ≤ graph.k
      → layer_root graph.n (some commit) index ≡ ok (commit.roots, root_at (index / graph.n))
  unfolding layer_root
  layer_root_lem index inside =
      let some_nodes : (graph.n == 0) ≡ false = ground arith in
      rw (some_nodes, stored.rooted (index / graph.n) inside)

  -- The layer of a parent is that of the node or the one above.
  parent_layer :
      (index p : ℕ)
      → 0 < index / graph.n
      → index - graph.n ≤ p
      → p < index
      → (index / graph.n - 1 ≤ p / graph.n) × (p / graph.n ≤ index / graph.n)
  parent_layer index p deep low high =
      let (behind, base, above) = layers graph.n index pos deep in
      let next : (index / graph.n + 1) * graph.n
          ≡ (index / graph.n - 1) * graph.n + graph.n + graph.n =
        two_more (index / graph.n) graph.n deep in
      let under : p / graph.n < index / graph.n + 1 =
        (div-lt_iff_lt-mul pos).1 (rw next (omega arith)) in
      ((le-div_iff_mul-le pos).1 (omega arith), omega (arith, under))

  -- The rounds behind the first: each parent that is asked for is there, and its proof is accepted.
  chain_accepted :
      (chal : List ℕ) (index : ℕ) (proof : CommitProof)
      → NodeAccepted index proof
      → length chal ≤ index / graph.n
      → index / graph.n ≤ graph.k
      → All (λ w. w ≤ graph.d) chal
      → Returns
          (prove_chain graph id disk slice above_slice commit.file_index proof chal)
          (λ proofs.
            (label : Bytes)
            → IsBuffer label
            → Returns
                (check_chain graph.n id commit.file_index (some commit) chal proof proofs label)
                IsBuffer)
  unfolding prove_chain check_chain
  chain_accepted [] index proof a deep inside ws = ([], refl, λ label size. (label, refl, size))
  chain_accepted (w ∷ chal) index proof a deep inside ws =
      let degree = a.degree (omega arith) in
      let which = ws.0 in
      let (m, found, low, high) =
        parent_at (index - graph.n) index proof.parents w (omega arith) a.behind a.before in
      let (not_high, not_low) = parent_layer index m.index (omega arith) low high in
      let (next, made, b) = node_accepted m.index (omega arith) in
      let (proofs, rest, good) =
        chain_accepted chal m.index next b (omega arith) (omega arith) ws.1 in
      let root = layer_root_lem m.index (omega arith) in
      rw (found, made, rest)
        (
          next ∷ proofs,
          refl,
          λ label size.
              let (label', checked, kept) = b.checked label size in
              rw (root, checked) (good label' (kept ∙ size)),
        )

  -- A challenge of `CommitChallenges` for an idle file that is stored: the file, a node of the last
  -- layer, and `K` numbers of parents from 0 to `D`. `proveCommit` ends without an error, and the
  -- verifier finds every label, path and parent of its proofs right, whatever its buffer held.
  pub prove_one-accepted :
      (first : ℕ) (chal : List ℕ)
      → first / graph.n ≡ graph.k
      → length chal ≡ graph.k
      → All (λ w. w ≤ graph.d) chal
      → Returns
          (prove_one graph id disk slice above_slice (commit.file_index ∷ first ∷ chal))
          (λ proofs.
            (label : Bytes)
            → IsBuffer label
            → Returns
                (check_commit graph.n id
                  (some commit)
                  (commit.file_index ∷ first ∷ chal)
                  proofs
                  label)
                IsBuffer)
  unfolding prove_one check_commit
  prove_one-accepted first chal last number ws =
      let (proof, made, a) = node_accepted first (omega arith) in
      let (proofs, rest, good) = chain_accepted chal first proof a (omega arith) (omega arith) ws in
      let own = a.of_node in
      let root = layer_root_lem first (omega arith) in
      let asked : (first == proof.node.index) ≡ true = ground arith in
      rw (made, rest)
        (
          proof ∷ proofs,
          refl,
          λ label size.
              let (label', checked, kept) = a.checked label size in
              rw (asked, root, checked) (good label' (kept ∙ size)),
        )
