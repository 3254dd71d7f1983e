-- ===== src/Mht/Slots.antt =====
-- A slice of tree/light_merkel_tree.go as a row of slots of one size: what a slot holds after a write.
use cess_pos_demo.Common.{
  ℕ, zero, suc, ◌+◌, ◌*◌, ◌≤◌, [], ◌∷◌, ◌++◌, length, take, drop, length-take, length-drop,
  length-append, ◌≢◌, ◌≡◌, refl, sym, ap, arith, take-length_append, drop-length_append,
}
use native.Mathlib.Nat.{zero-add, suc-add}
use mathlib.Core.List.{append_assoc}
use cess_pos_demo.BigInt.{Bytes}
use cess_pos_demo.Encoding.{write_at}
use cess_pos_demo.Encoding.Laws.{drop-add}

unfoldable pub slot : ℕ → Bytes → ℕ → Bytes
slot size bytes s = take size (drop (s * size) bytes)

take-nil : (n : ℕ) → take {A = ℕ} n [] ≡ []
take-nil zero = refl
take-nil (suc n) = refl

pub take-add : (a b : ℕ) (xs : Bytes) → take (a + b) xs ≡ take a xs ++ take b (drop a xs)
take-add zero b xs = rw zero-add
take-add (suc a) b [] = rw suc-add (sym (take-nil b))
take-add (suc a) b (x ∷ xs) = rw suc-add (ap (λ t. x ∷ t) (take-add a b xs))

-- Two slots side by side.
pub slot-pair :
    (size k : ℕ) (bytes : Bytes)
    → take (2 * size) (drop (k * size) bytes) ≡ slot size bytes k ++ slot size bytes (k + 1)
unfolding slot
slot-pair size k bytes =
    let two : 2 * size ≡ size + size = omega arith in
    let next : (k + 1) * size ≡ k * size + size = grind arith in
    rw (two, next, take-add size size (drop (k * size) bytes), drop-add (k * size) size bytes)

pub length-write_at :
    (at : ℕ) (d bytes : Bytes)
    → at + length d ≤ length bytes
    → length (write_at at d bytes) ≡ length bytes
unfolding write_at
length-write_at at d bytes h = omega (
  arith,
  length-append (take at bytes) (d ++ drop (at + length d) bytes),
  length-append d (drop (at + length d) bytes),
  length-take at bytes,
  length-drop (at + length d) bytes,
)

drop-take_append : (n : ℕ) (xs ys : Bytes) → n ≤ length xs → drop n (take n xs ++ ys) ≡ ys
drop-take_append zero xs ys h = refl
drop-take_append (suc n) [] ys h = absurd (omega arith)
drop-take_append (suc n) (x ∷ xs) ys h = drop-take_append n xs ys (omega arith)

take-take_append : (n : ℕ) (xs ys : Bytes) → n ≤ length xs → take n (take n xs ++ ys) ≡ take n xs
take-take_append zero xs ys h = refl
take-take_append (suc n) [] ys h = absurd (omega arith)
take-take_append (suc n) (x ∷ xs) ys h = ap (λ t. x ∷ t) (take-take_append n xs ys (omega arith))

-- A write behind the first `n` bytes.
write_at-add :
    (n at : ℕ) (d bytes : Bytes)
    → write_at (n + at) d bytes ≡ take n bytes ++ write_at at d (drop n bytes)
unfolding write_at
write_at-add n at d bytes =
    let sum : n + at + length d ≡ n + (at + length d) = omega arith in
    rw (take-add n at bytes, sum, drop-add n (at + length d) bytes)
      (append_assoc (take n bytes) (take at (drop n bytes))
        (d ++ drop (at + length d) (drop n bytes)))

pub slot-zero : (size : ℕ) (bytes : Bytes) → slot size bytes 0 ≡ take size bytes
unfolding slot
slot-zero size bytes = let e : 0 * size ≡ 0 = omega arith in rw e

pub slot-suc :
    (size s : ℕ) (bytes : Bytes) → slot size bytes (suc s) ≡ slot size (drop size bytes) s
unfolding slot
slot-suc size s bytes =
    let e : suc s * size ≡ size + s * size = grind arith in rw (e, drop-add size (s * size) bytes)

write_slot-zero :
    (size : ℕ) (d bytes : Bytes) → write_at (0 * size) d bytes ≡ d ++ drop (length d) bytes
unfolding write_at
write_slot-zero size d bytes =
    let e : 0 * size ≡ 0 = omega arith in let f : 0 + length d ≡ length d = omega arith in rw (e, f)

write_slot-suc :
    (size t : ℕ) (d bytes : Bytes)
    → write_at (suc t * size) d bytes ≡ take size bytes ++ write_at (t * size) d (drop size bytes)
write_slot-suc size t d bytes =
    let e : suc t * size ≡ size + t * size = grind arith in
    rw e (write_at-add size (t * size) d bytes)

room-drop :
    (size t : ℕ) (bytes : Bytes)
    → (suc t + 1) * size ≤ length bytes
    → (t + 1) * size ≤ length (drop size bytes)
room-drop size t bytes h =
    let e : (suc t + 1) * size ≡ size + (t + 1) * size = grind arith in
    omega (arith, length-drop size bytes)

first-fits : (size t : ℕ) (bytes : Bytes) → (t + 1) * size ≤ length bytes → size ≤ length bytes
first-fits size t bytes h = let e : (t + 1) * size ≡ size + t * size = grind arith in omega arith

-- A write of a whole slot changes that slot,
pub slot-write_at_same :
    (size t : ℕ) (d bytes : Bytes)
    → length d ≡ size
    → (t + 1) * size ≤ length bytes
    → slot size (write_at (t * size) d bytes) t ≡ d
slot-write_at_same size zero d bytes e h =
    rw (write_slot-zero size d bytes, slot-zero size (d ++ drop (length d) bytes), sym e)
      (take-length_append d _)
slot-write_at_same size (suc t) d bytes e h =
    let fits = first-fits size (suc t) bytes h in
    rw
      (
        write_slot-suc size t d bytes,
        slot-suc size t (take size bytes ++ write_at (t * size) d (drop size bytes)),
        drop-take_append size bytes (write_at (t * size) d (drop size bytes)) fits,
      )
      (slot-write_at_same size t d (drop size bytes) e (room-drop size t bytes h))

-- and no other.
pub slot-write_at_other :
    (size t s : ℕ) (d bytes : Bytes)
    → length d ≡ size
    → (t + 1) * size ≤ length bytes
    → s ≢ t
    → slot size (write_at (t * size) d bytes) s ≡ slot size bytes s
slot-write_at_other size zero zero d bytes e h n = absurd (n refl)
slot-write_at_other size zero (suc s) d bytes e h n = rw (
  write_slot-zero size d bytes,
  slot-suc size s (d ++ drop (length d) bytes),
  slot-suc size s bytes,
  sym e,
  drop-length_append d (drop (length d) bytes),
)
slot-write_at_other size (suc t) zero d bytes e h n =
    rw
      (
        write_slot-suc size t d bytes,
        slot-zero size (take size bytes ++ write_at (t * size) d (drop size bytes)),
        slot-zero size bytes,
      )
      (take-take_append size bytes _ (first-fits size (suc t) bytes h))
slot-write_at_other size (suc t) (suc s) d bytes e h n =
    let fits = first-fits size (suc t) bytes h in
    rw
      (
        write_slot-suc size t d bytes,
        slot-suc size s (take size bytes ++ write_at (t * size) d (drop size bytes)),
        slot-suc size s bytes,
        drop-take_append size bytes (write_at (t * size) d (drop size bytes)) fits,
      )
      (slot-write_at_other size t s d (drop size bytes) e (room-drop size t bytes h)
        (λ p. n (ap suc p)))
