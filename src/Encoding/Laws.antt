-- ===== src/Encoding/Laws.antt =====
-- `CopyData` of util/utils.go, on parts that fill the target, puts them one behind the other.
use cess_pos_demo.Common.{
  ℕ, zero, suc, ◌+◌, ◌/◌, ◌%◌, ◌≤◌, false, ◌||◌, List, [], ◌∷◌, ◌++◌, length, drop, length-drop,
  length-append, take-length_append, drop-length_append, ltb, ◌==◌, ◌≡◌, refl, sym, ap, ◌∙◌, arith,
}
use native.Mathlib.Nat.{zero-add, suc-add}
use mathlib.Core.List.{append_assoc}
use cess_pos_demo.BigInt.{Bytes}
use cess_pos_demo.Encoding.{get_bytes, write_at, copy_data_from, copy_data}

pub length-get_bytes : (width v : ℕ) → length (get_bytes width v) ≡ width
unfolding get_bytes
length-get_bytes zero v = refl
length-get_bytes (suc width) v = omega (
  arith,
  length-append (get_bytes width (v / 256)) (v % 256 ∷ []),
  length-get_bytes width (v / 256),
)

abbrev pub concat : List Bytes → Bytes
concat [] = []
concat (d ∷ src) = d ++ concat src

drop-nil : (n : ℕ) → drop {A = ℕ} n [] ≡ []
drop-nil zero = refl
drop-nil (suc n) = refl

drop-length : (xs : Bytes) → drop (length xs) xs ≡ []
drop-length [] = refl
drop-length (x ∷ xs) = drop-length xs

pub append_nil : (xs : Bytes) → xs ++ [] ≡ xs
append_nil [] = refl
append_nil (x ∷ xs) = ap (λ t. x ∷ t) (append_nil xs)

pub drop-add : (a b : ℕ) (xs : Bytes) → drop (a + b) xs ≡ drop b (drop a xs)
drop-add zero b xs = rw zero-add
drop-add (suc a) b [] = rw suc-add (sym (drop-nil b))
drop-add (suc a) b (x ∷ xs) = rw suc-add (drop-add a b xs)

pub write_at-append :
    (done d rest : Bytes)
    → write_at (length done) d (done ++ rest) ≡ (done ++ d) ++ drop (length d) rest
unfolding write_at
write_at-append done d rest =
    rw
      (
        take-length_append done rest,
        drop-add (length done) (length d) (done ++ rest),
        drop-length_append done rest,
      )
      (sym (append_assoc done d (drop (length d) rest)))

rest_behind :
    (done d more rest : Bytes)
    → (done ++ d) ++ (more ++ drop (length more) (drop (length d) rest))
      ≡ done ++ ((d ++ more) ++ drop (length (d ++ more)) rest)
rest_behind done d more rest =
    rw (length-append d more, drop-add (length d) (length more) rest)
      (append_assoc done d _ ∙ ap (λ t. done ++ t) (sym (append_assoc d more _)))

-- What is written so far, `done`, stays in front of the rest of the target.
copy_data_from-fits :
    (src : List Bytes) (done rest : Bytes)
    → length (concat src) ≤ length rest
    → copy_data_from (length done) (done ++ rest) src
      ≡ done ++ (concat src ++ drop (length (concat src)) rest)
unfolding copy_data_from
copy_data_from-fits [] done rest h = refl
copy_data_from-fits ([] ∷ src) done rest h = copy_data_from-fits src done rest h
copy_data_from-fits ((b ∷ d) ∷ src) done rest h =
    let whole = length-append done rest in
    let parts = length-append d (concat src) in
    let room : ((suc (length d) == 0) || ltb (length (done ++ rest)) (suc (length d) + length done))
        ≡ false =
      ground arith in
    let next : length done + suc (length d) ≡ length (done ++ (b ∷ d)) =
      omega (arith, length-append done (b ∷ d)) in
    let left = length-drop (suc (length d)) rest in
    rw (room, write_at-append done (b ∷ d) rest, next)
      (copy_data_from-fits src (done ++ (b ∷ d)) (drop (suc (length d)) rest) (omega arith)
        ∙ rest_behind done (b ∷ d) (concat src) rest)

-- Parts whose lengths add up to the length of the target replace it, in their order.
pub copy_data-fits :
    (target : Bytes) (src : List Bytes)
    → length (concat src) ≡ length target
    → copy_data target src ≡ concat src
unfolding copy_data
copy_data-fits target src h =
    copy_data_from-fits src [] target (omega arith)
    ∙ rw (h, drop-length target) (append_nil (concat src))

-- Parts that fit stand in front of what is left of the target.
pub copy_data-front :
    (target : Bytes) (src : List Bytes)
    → length (concat src) ≤ length target
    → copy_data target src ≡ concat src ++ drop (length (concat src)) target
unfolding copy_data
copy_data-front target src h = copy_data_from-fits src [] target h
