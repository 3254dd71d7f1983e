-- ===== src/Prover/Counters.antt =====
-- The counters of the prover of pois/prove.go, the files that they are about, and the files of roots of
-- util/utils.go. Calls that lock or compare and swap are steps of their own.
pub mod Steps
pub mod Roots
pub mod Service
use cess_pos_demo.Common.{
  ℕ, zero, suc, ◌+◌, ◌-◌, ◌*◌, ◌≤◌, Bool, true, false, not, ◌||◌, ◌&&◌, List, [], ◌∷◌, ◌++◌, length,
  take, drop, Option, none, some, ltb, leb, ◌==◌, if◌then◌else◌, Run, ok, err, ◌>>=◌, ◌>>◌, fail_if,
}
use cess_pos_demo.BigInt.{Bytes}
use cess_pos_demo.Encoding.{hash_size}
use cess_pos_demo.Encoding.Laws.{concat}
use cess_pos_demo.Expander.{Expanders}
use cess_pos_demo.Verify.{Commit}
use cess_pos_demo.Prover.{Disk}

pub data CountError : Type 0 where
  no_file illegal_number nothing_generated : CountError

-- `Prover`, without the accumulator; `space` is the variable `AvailableSpace`.
pub record Prover : Type 0 where
  pub expanders : Expanders
  pub id : Bytes
  pub count : ℕ
  pub commited : ℕ
  pub added : ℕ
  pub generated : ℕ
  pub delete : Bool
  pub workdone : Bool
  pub space : ℕ
  pub disk : Disk

-- The numbers that are sent to the generator.
unfoldable pub commands : ℕ → ℕ → List ℕ
commands zero i = []
commands (suc num) i = i ∷ commands num (i + 1)

-- `GenerateFile`, for files of the size `file_size`: its answer and the numbers that it sends.
unfoldable pub generate_file : ℕ → Prover → ℕ → Prover × Bool × List ℕ
unfolding commands
generate_file file_size p num =
    if (num == 0) || ltb p.space (num * file_size * (p.expanders.k + 1))
    then (p, false, [])
    else if p.delete || not p.workdone
    then (p, false, [])
    else (
      record p { added = p.added + num; space = p.space - num * file_size },
      true,
      commands num (p.added + 1),
    )

-- `p.Generated.Add(1)`, for each file that the generator reports.
unfoldable pub file_generated : Prover → Prover
file_generated p = record p { generated = p.generated + 1 }

-- The disk without a file, if the file is there.
abbrev pub removed : Disk → Option Bytes → Option Disk
removed disk none = none
removed disk (some content) = some disk

-- `DeleteFile` on a layer of a file, or on its roots: nothing when it is not there.
unfoldable pub delete_layer : Disk → ℕ → ℕ → Option Disk
delete_layer disk i j =
    removed
      (record disk { layer = λ i' j'. if (i' == i) && (j' == j) then none else disk.layer i' j' })
      (disk.layer i j)

unfoldable pub delete_roots : Disk → ℕ → Option Disk
delete_roots disk i =
    removed (record disk { roots = λ i'. if i' == i then none else disk.roots i' }) (disk.roots i)

-- What follows a deletion, which an error ends.
abbrev pub and_then : Disk → Option Disk → (Disk → Disk × Bool) → Disk × Bool
and_then disk none f = (disk, false)
and_then disk (some disk') f = f disk'

-- The loop over the layers of file `i`, from layer `j` on: the disk, and whether all went well.
unfoldable pub delete_layers : ℕ → Disk → ℕ → ℕ → Disk × Bool
unfolding delete_layer
delete_layers zero disk i j = (disk, true)
delete_layers (suc rounds) disk i j =
    and_then disk (delete_layer disk i j) (λ disk'. delete_layers rounds disk' i (j + 1))

-- One file: its layers but the last, and its roots.
unfoldable pub organize_file : ℕ → Disk → ℕ → Disk × Bool
unfolding delete_layers delete_roots
organize_file k disk i =
    let (disk', good) = delete_layers k disk i 0 in
    if good
    then and_then disk' (delete_roots disk' i) (λ disk''. (disk'', true))
    else (disk', false)

-- The loop of `organizeFiles` from file `i` on, which an error ends.
unfoldable pub organize_files : ℕ → ℕ → Disk → ℕ → Disk
unfolding organize_file
organize_files zero k disk i = disk
organize_files (suc rounds) k disk i =
    let (disk', good) = organize_file k disk i in
    let rest = organize_files rounds k disk' (i + 1) in if good then rest else disk'

-- `UpdateCount`. The count is raised first, and `organizeFiles` works behind the raised count.
unfoldable pub update_count : Prover → ℕ → Prover
unfolding organize_files
update_count p num =
    let count = p.count + num in
    record p { count = count; disk = organize_files num p.expanders.k p.disk (count + 1) }

-- `CommitRollback`
unfoldable pub commit_rollback : Prover → ℕ → Prover
commit_rollback p past = record p { commited = past }

-- `SaveProofFile`
unfoldable pub save_proof_file : List Bytes → Bytes
save_proof_file data_written = concat data_written

-- The size of the buffer of `bufio.NewReader`
abbrev pub reader_size : ℕ
reader_size = 4096

-- What the next `Read` of `len` bytes takes from, and what is then left of the file: the bytes that are
-- buffered or, when there are none, those of one read of the file, which goes past the buffer if
-- `len` is not below its size.
unfoldable pub refilled : ℕ → Bytes → Bytes → Bytes × Bytes
refilled len [] content =
    let n = (if leb reader_size len then len else reader_size) in (take n content, drop n content)
refilled len (b ∷ buffered) content = (b ∷ buffered, content)

-- The loop of `ReadProofFile`, over the buffered bytes and the rest of the file. A `Read` that gives
-- fewer bytes than asked for is an error, also at the edge of the buffer.
unfoldable pub read_labels : ℕ → ℕ → Bytes → Bytes → Run CountError (List Bytes)
unfolding refilled
read_labels zero len buffered content = ok []
read_labels (suc num) len buffered content = do
  let (buffered', content') = refilled len buffered content
  enough ← fail_if (ltb (length buffered') len) no_file
  rest ← read_labels num len (drop len buffered') content'
  ok (take len buffered' ∷ rest)

-- `ReadProofFile`
unfoldable pub read_proof_file : Option Bytes → ℕ → ℕ → Run CountError (List Bytes)
unfolding read_labels
read_proof_file file num len =
    if num == 0
    then err illegal_number
    else (elim file [ none ↦ err no_file | some content ↦ read_labels num len [] content ])

-- The loop of `GetCommits`, for the files from `i` on.
unfoldable pub read_commits : ℕ → Prover → ℕ → Run CountError (List Commit)
unfolding read_proof_file
read_commits zero p i = ok []
read_commits (suc num) p i = do
  roots ← read_proof_file (p.disk.roots i) (p.expanders.k + 2) hash_size
  rest ← read_commits num p (i + 1)
  ok (record { file_index = i; roots = roots } ∷ rest)

-- `GetCommits`, which does not run concurrently, so that its counter is as it was.
unfoldable pub get_commits : Prover → ℕ → Run CountError (Prover × List Commit)
unfolding read_commits
get_commits p num =
    if p.delete
    then ok (p, [])
    else if leb p.generated p.commited
    then err nothing_generated
    else (do
      let left = p.generated - p.commited
      let num' = (if ltb left num then left else num)
      commits ← read_commits num' p (p.commited + 1)
      ok (record p { commited = p.commited + num' }, commits))
