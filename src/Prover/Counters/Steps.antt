-- ===== src/Prover/Counters/Steps.antt =====
-- What `UpdateCount` of pois/prove.go does to the disk.
use cess_pos_demo.Common.{
  ℕ, zero, suc, ◌+◌, ◌≤◌, ◌<◌, Bool, true, false, Option, none, some, ◌==◌, if◌then◌else◌, ◌≡◌,
  refl, ◌∙◌, arith,
}
use cess_pos_demo.BigInt.{Bytes}
use cess_pos_demo.Prover.{Disk}
use cess_pos_demo.Prover.Counters.{
  Prover, delete_layer, delete_roots, delete_layers, organize_file, organize_files, update_count,
  removed, and_then,
}

pub either : {A : Type 0} (P : A → Type 0) (b : Bool) (x y : A) → P x → P y → P (if b then x else y)
either P true x y h k = h
either P false x y h k = k

-- Two disks have the same contents up to file `top`.
abbrev pub Agree : ℕ → Disk → Disk → Type 0
Agree top disk disk' =
    (i : ℕ)
    → i ≤ top
    → ((j : ℕ) → disk'.layer i j ≡ disk.layer i j) × (disk'.roots i ≡ disk.roots i)

Agree-trans : (top : ℕ) (d d' d'' : Disk) → Agree top d d' → Agree top d' d'' → Agree top d d''
Agree-trans top d d' d'' g h i le = (λ j. (h i le).0 j ∙ (g i le).0 j, (h i le).1 ∙ (g i le).1)

Agree-refl : (top : ℕ) (disk : Disk) → Agree top disk disk
Agree-refl top disk i le = (λ j. refl, refl)

abbrev OptionAgree : ℕ → Disk → Option Disk → Type 0
OptionAgree top disk none = Unit {0}
OptionAgree top disk (some disk') = Agree top disk disk'

removed-Agree :
    (top : ℕ) (disk disk' : Disk) (content : Option Bytes)
    → Agree top disk disk'
    → OptionAgree top disk (removed disk' content)
removed-Agree top disk disk' none h = tt
removed-Agree top disk disk' (some content) h = h

and_then-Agree :
    (top : ℕ) (disk : Disk) (o : Option Disk) (f : Disk → Disk × Bool)
    → OptionAgree top disk o
    → ((d : Disk) → Agree top d (f d).0)
    → Agree top disk (and_then disk o f).0
and_then-Agree top disk none f h k = Agree-refl top disk
and_then-Agree top disk (some d) f h k = Agree-trans top disk d (f d).0 h (k d)

delete_layer-Agree :
    (top : ℕ) (disk : Disk) (i j : ℕ) → top < i → OptionAgree top disk (delete_layer disk i j)
unfolding delete_layer
delete_layer-Agree top disk i j h =
    removed-Agree top disk _ (disk.layer i j)
      (λ i' le. let other : (i' == i) ≡ false = ground arith in (λ j'. rw other, refl))

delete_roots-Agree :
    (top : ℕ) (disk : Disk) (i : ℕ) → top < i → OptionAgree top disk (delete_roots disk i)
unfolding delete_roots
delete_roots-Agree top disk i h =
    removed-Agree top disk _ (disk.roots i)
      (λ i' le. let other : (i' == i) ≡ false = ground arith in (λ j'. refl, rw other))

delete_layers-Agree :
    (rounds top : ℕ) (disk : Disk) (i j : ℕ)
    → top < i
    → Agree top disk (delete_layers rounds disk i j).0
unfolding delete_layers
delete_layers-Agree zero top disk i j h = Agree-refl top disk
delete_layers-Agree (suc rounds) top disk i j h =
    and_then-Agree top disk (delete_layer disk i j) _ (delete_layer-Agree top disk i j h)
      (λ d. delete_layers-Agree rounds top d i (j + 1) h)

organize_file-Agree :
    (k top : ℕ) (disk : Disk) (i : ℕ) → top < i → Agree top disk (organize_file k disk i).0
unfolding organize_file
organize_file-Agree k top disk i h =
    let (disk', good) = delete_layers k disk i 0 in
    let first : Agree top disk disk' = delete_layers-Agree k top disk i 0 h in
    either (λ (d, g). Agree top disk d) good _ _
      (Agree-trans top disk disk' _ first (
        and_then-Agree top disk' (delete_roots disk' i) _ (delete_roots-Agree top disk' i h)
          (λ d. Agree-refl top d)))
      first

organize_files-Agree :
    (rounds k top : ℕ) (disk : Disk) (i : ℕ)
    → top < i
    → Agree top disk (organize_files rounds k disk i)
unfolding organize_files
organize_files-Agree zero k top disk i h = Agree-refl top disk
organize_files-Agree (suc rounds) k top disk i h =
    let (disk', good) = organize_file k disk i in
    let first : Agree top disk disk' = organize_file-Agree k top disk i h in
    either (λ d. Agree top disk d) good _ _
      (Agree-trans top disk disk' _ first
        (organize_files-Agree rounds k top disk' (i + 1) (omega arith)))
      first

-- `UpdateCount` deletes nothing of the files that it counts, nor of those counted before: every file
-- up to the new count stays on the disk as it was.
pub update_count-Agree :
    (p : Prover) (num : ℕ) → Agree (p.count + num) p.disk (update_count p num).disk
unfolding update_count
update_count-Agree p num =
    organize_files-Agree num p.expanders.k (p.count + num) p.disk (p.count + num + 1) (omega arith)
