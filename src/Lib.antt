-- ===== src/Lib.antt =====
-- Proof of idle space (CESS). A storage miner, the prover, fills its free space with idle files that
-- are labels of a stacked expander graph, commits to each file by Merkle roots, and keeps the files'
-- labels in a three-level RSA accumulator. A verifier keeps one record for each miner, checks the
-- commitments, the insertions into the accumulator, the space proofs and the deletions.
--
-- Which file is about which part:
-- + Common, BigInt: slices as lists with native indices; a call that ends in a value, an error or a
--   panic (Run); math/big on natural numbers and byte slices as lists of numbers.
-- + Crypto: the digests, the primality test and the floating-point part of Fu, which are parameters
--   with named hypotheses; the choice of the digest by NewHash (tree/light_merkel_tree.go).
-- + Acc.HashToPrime: Fu and Hprime of acc/hash2prime.go. Hprime runs on the fuel prime_gap, within
--   which the primality test is met by a hypothesis of Crypto.
-- + Acc.Accumulator: generateAcc (generate_acc), generateWitness (generate_witness) and VerifyAcc of
--   acc/muti_level_acc.go. generateWitness runs on as many rounds as there are elements, since each
--   call is on a shorter list.
-- + Acc.Chain: witness chains, VerifyMutilevelAcc, VerifyInsertUpdate and VerifyDeleteUpdate.
-- + Acc.Tree: AccNode, genWitsForAccNodes and updateAcc.
-- + Acc.Manager: MutiLevelAcc with its snapshot and its files; AddElements and AddElementsAndProof. A
--   pointer to a node of the tree is the index of the node among its siblings, and the disk is a
--   function from file numbers to contents with writes that may fail.
-- + Expander: ParentInList (parent_in_list) and AddParent (add_parent) of expanders/expander.go. The
--   binary search runs on as many rounds as there are parents, since its bounds come closer in each.
-- + Expander.Draw: CalcParents of expanders/generate_expanders.go and BytesToNodeValue. The inner loop
--   has 81 rounds, five for each new parent, and the search for a free value has N rounds, after which
--   it has seen all values; both are enough whenever the call ends.
-- + Expander.Idle: GenerateIdleFile of expanders/generate_idle_file.go, with the nodes in the order in
--   which RunRelationalMapServer sends them. What the slices of the pool held before is an argument.
-- + Encoding: GetBytes, GetHash and CopyData of expanders/expander.go,
--   expanders/generate_idle_file.go and util/utils.go.
-- + Mht: VerifyPathProof of tree/light_merkel_tree.go, with a Merkle tree as a data type as reference.
--   Mht.Light: the tree in one slice (calcLightMht, GetRoot, GetPathProof); the slice that the pool
--   hands out is an argument.
-- + Verify: Verifier and ProverNode of pois/verify.go; RegisterProverNode, ReceiveCommits, VerifyAcc
--   (Verify), VerifySpace and VerifyDeletion (Verify.Checks); the map of provers is an association list
--   from IDs, in place of their hexadecimal form. Verify.Steps has the states that calls in
--   any order lead to. The verifier calls Acc.Chain, Mht and Encoding.
--   Verify.Challenges and Verify.Commits: CommitChallenges, SpaceChallenges, VerifyCommitProofs and
--   VerifyNodeDependencies; the random numbers are an argument.
-- + Prover: ProveCommit, proveCommit and generateCommitProof of pois/prove.go over a disk that is a
--   function from files and layers to contents, and ReadFileToBuf of util/utils.go. Prover.Counters:
--   InitProver, GenerateFile, UpdateCount with organizeFiles, GetCommits and CommitRollback, and
--   SaveProofFile and ReadProofFile of util/utils.go; Prover.Counters.Service: the counters with the
--   files that IdleFileGenerationServer works on; Prover.Insertion: ReadAndCalcFileLabel and ProveAcc,
--   which calls Acc.Manager. A call is one step, since the calls lock or compare and swap.
-- + Tests: concrete runs with small stand-ins for the digests and the primality test.
--
-- Integers: lengths, counts and the graph indices that the code computes are not negative and are
-- natural numbers here. The index of a received MhtProof is a signed number in the code; received proofs
-- with a negative index are outside the model. The numbers are far below 2 ^ 63, graph indices
-- (NodeType) below 2 ^ 31, and the code has no test on overflow.
--
-- Not modelled: key generation (random), JSON and file I/O besides the accumulator's, the idle files'
-- and the roots' files, the pools of slices, logging. A read of a file by
-- the system gives as many bytes as asked for and there are; the buffer in front of it in ReadProofFile
-- is modelled. The goroutines of generateWitness, ProveCommit and generateCommitProof write different
-- variables and are joined, so their order does not matter. The rest of the prover (ProveSpace of
-- pois/prove.go, ProveDeletion but for its flag and the count, and pois/prove_service.go), the deletion
-- of elements and the witness chains of the accumulator have no model.
pub mod Common
pub mod BigInt
pub mod Crypto
pub mod Acc
mod Tests
pub mod Expander
pub mod Encoding
pub mod Mht
pub mod Prover
pub mod Verify
