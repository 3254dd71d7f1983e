-- ===== src/Prover/Counters/Service.antt =====
-- The counters of pois/prove.go while the generator of expanders/generate_idle_file.go works on the files
-- that are sent to it: the calls in any order, with no promise about the caller of `CommitRollback`.
use cess_pos_demo.Common.{
  ℕ, ◌+◌, ◌-◌, ◌≤◌, ◌<◌, Bool, true, false, List, [], ◌∷◌, ◌++◌, length, All, ltb, if◌then◌else◌,
  ◌≡◌, min, ok,
}
use cess_pos_demo.BigInt.{Bytes}
use cess_pos_demo.Expander.{Expanders}
use cess_pos_demo.Verify.{Commit}
use cess_pos_demo.Prover.{Disk}
use cess_pos_demo.Prover.Counters.{
  Prover, generate_file, file_generated, update_count, commit_rollback, get_commits,
}

-- `InitProver`, without the accumulator
unfoldable pub init_prover : Expanders → Bytes → ℕ → Disk → Prover
init_prover expanders id space disk = record {
  expanders = expanders;
  id = id;
  count = 0;
  commited = 0;
  added = 0;
  generated = 0;
  delete = false;
  workdone = true;
  space = space;
  disk = disk;
}

-- What `ProveDeletion` sets in the prover: the flag, and the count if it is large enough.
unfoldable pub set_delete : Prover → Bool → Prover
set_delete p flag = record p { delete = flag }

unfoldable pub lower_count : Prover → ℕ → Prover
lower_count p num = if ltb p.count num then p else record p { count = p.count - num }

-- The prover, and the files that were sent to the generator and are not reported yet.
abbrev pub Running : Type 0
Running = Prover × List ℕ

-- A call, or a report of the generator, whose workers finish the files in any order and write the disk.
pub data Step (file_size : ℕ) : Running → Running → Type 0 where
  generate :
      (p : Prover) (waiting : List ℕ) (num : ℕ)
      → Step file_size
          (p, waiting)
          ((generate_file file_size p num).0, waiting ++ (generate_file file_size p num).2)
  report :
      (p : Prover) (before after : List ℕ) (i : ℕ) (disk : Disk)
      → Step file_size
          (p, before ++ i ∷ after)
          (record (file_generated p) { disk = disk }, before ++ after)
  commit :
      (p p' : Prover) (waiting : List ℕ) (num : ℕ) (commits : List Commit)
      → get_commits p num ≡ ok (p', commits)
      → Step file_size (p, waiting) (p', waiting)
  count :
      (p : Prover) (waiting : List ℕ) (num : ℕ)
      → Step file_size (p, waiting) (update_count p num, waiting)
  rollback :
      (p : Prover) (waiting : List ℕ) (past : ℕ)
      → Step file_size (p, waiting) (commit_rollback p past, waiting)
  flag :
      (p : Prover) (waiting : List ℕ) (b : Bool)
      → Step file_size (p, waiting) (set_delete p b, waiting)
  lessen :
      (p : Prover) (waiting : List ℕ) (num : ℕ)
      → Step file_size (p, waiting) (lower_count p num, waiting)

-- The states that a new prover comes to.
pub data Reachable (file_size : ℕ) : Running → Type 0 where
  begin :
      (expanders : Expanders) (id : Bytes) (space : ℕ) (disk : Disk)
      → Reachable file_size (init_prover expanders id space disk, [])
  next : (r r' : Running) → Reachable file_size r → Step file_size r r' → Reachable file_size r'

-- Every file that was sent is reported or still waits.
abbrev pub IsAccounted : Running → Type 0
IsAccounted (p, waiting) =
    All (λ i. (0 < i) × (i ≤ p.added)) waiting × (length waiting + p.generated ≡ p.added)

-- The commits are for the files from `first` on, in order.
abbrev pub Numbered : ℕ → List Commit → Type 0
Numbered first [] = Unit {0}
Numbered first (c ∷ commits) = (c.file_index ≡ first) × Numbered (first + 1) commits

Sent : ℕ → List ℕ → Type 0
Sent top waiting = All (λ i. (0 < i) × (i ≤ top)) waiting

-- What `GetCommits` gives while no deletion runs, and where it leaves the counter.
abbrev pub Taken : Prover → ℕ → Prover → List Commit → Type 0
Taken p num p' commits =
    (p.commited < p.generated)
    × Numbered (p.commited + 1) commits
    × (length commits ≡ min num (p.generated - p.commited))
    × (p'.commited ≡ p.commited + length commits)

abbrev Counted : Prover → ℕ → Prover × List Commit → Type 0
Counted p num (p', commits) =
    (p'.generated ≡ p.generated)
    × (p'.added ≡ p.added)
    × (p.delete ≡ false → Taken p num p' commits)

abbrev InOrder : ℕ → ℕ → List Commit → Type 0
InOrder num first commits = Numbered first commits × (length commits ≡ num)
