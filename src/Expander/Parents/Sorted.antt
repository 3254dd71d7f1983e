-- ===== src/Expander/Parents/Sorted.antt =====
-- The reference for the parents of a node of expanders/expander.go: a strictly increasing list, its
-- members, and the ordered insertion.
use cess_pos_demo.Common.{
  ℕ, zero, suc, ◌<◌, ◌≤◌, Bool, true, false, ◌||◌, List, [], ◌∷◌, ◌++◌, length, take, drop, All,
  get_elem?, some, ltb, ◌==◌, if◌then◌else◌, ◌≡◌, refl, ap, arith, inl, inr, Bool-cases, ==_iff,
  sym,
}

abbrev pub IsSorted : List ℕ → Type 0
IsSorted [] = Unit {0}
IsSorted (x ∷ xs) = All (λ y. x < y) xs × IsSorted xs

unfoldable pub member : ℕ → List ℕ → Bool
member p [] = false
member p (x ∷ xs) = (p == x) || member p xs

unfoldable pub insert : ℕ → List ℕ → List ℕ
insert p [] = p ∷ []
insert p (x ∷ xs) = if ltb x p then x ∷ insert p xs else p ∷ x ∷ xs

-- The values in front of index `i`, or from it on, are on that side of `p`.
abbrev pub Below : List ℕ → ℕ → ℕ → Type 0
Below xs i p = (j v : ℕ) → j < i → get_elem? xs j ≡ some v → v < p

abbrev pub Above : List ℕ → ℕ → ℕ → Type 0
Above xs i p = (j v : ℕ) → i ≤ j → get_elem? xs j ≡ some v → p < v

All-get_elem? :
    (x : ℕ) (xs : List ℕ) (j v : ℕ) → All (λ y. x < y) xs → get_elem? xs j ≡ some v → x < v
All-get_elem? x [] j v a h = cc
All-get_elem? x (y ∷ ys) zero v a h = let p = a.0 in let q : y ≡ v = cc in omega arith
All-get_elem? x (y ∷ ys) (suc j) v a h = All-get_elem? x ys j v a.1 h

pub IsSorted-lt :
    (xs : List ℕ) (i j v w : ℕ)
    → IsSorted xs
    → i < j
    → get_elem? xs i ≡ some v
    → get_elem? xs j ≡ some w
    → v < w
IsSorted-lt [] i j v w s l h k = cc
IsSorted-lt (x ∷ xs) i zero v w s l h k = absurd (omega arith)
IsSorted-lt (x ∷ xs) zero (suc j) v w s l h k =
    let q : x ≡ v = cc in let m = All-get_elem? x xs j w s.0 k in omega arith
IsSorted-lt (x ∷ xs) (suc i) (suc j) v w s l h k = IsSorted-lt xs i j v w s.1 (omega arith) h k

-- An element put in at the index that separates the smaller from the greater ones is inserted in
-- order.
pub insert-between :
    (p : ℕ) (xs : List ℕ) (i : ℕ)
    → i ≤ length xs
    → Below xs i p
    → Above xs i p
    → take i xs ++ p ∷ drop i xs ≡ insert p xs
unfolding insert
insert-between p [] zero l b a = refl
insert-between p [] (suc i) l b a = absurd (omega arith)
insert-between p (x ∷ xs) zero l b a = let h = a 0 x (omega arith) refl in ground arith
insert-between p (x ∷ xs) (suc i) l b a =
    let h = b 0 x (omega arith) refl in
    let e =
      insert-between p xs i (omega arith) (λ j v m g. b (suc j) v (omega arith) g)
        (λ j v m g. a (suc j) v (omega arith) g) in
    let q : ltb x p ≡ true = ground arith in rw (q, e)

or_swap : (a b c : Bool) → (a || (b || c)) ≡ (b || (a || c))
or_swap true true c = refl
or_swap true false c = refl
or_swap false b c = refl

pub member-insert : (q p : ℕ) (xs : List ℕ) → member q (insert p xs) ≡ ((q == p) || member q xs)
unfolding insert member
member-insert q p [] = refl
member-insert q p (x ∷ xs) = elim (Bool-cases (ltb x p)) [
  | inl h ↦ rw (h, member-insert q p xs) (or_swap (q == x) (q == p) (member q xs))
  | inr h ↦ rw h
]

All-insert : (y p : ℕ) (xs : List ℕ) → y < p → All (λ z. y < z) xs → All (λ z. y < z) (insert p xs)
unfolding insert
All-insert y p [] l a = (l, tt)
All-insert y p (x ∷ xs) l a = elim (Bool-cases (ltb x p)) [
  | inl h ↦ rw h (a.0, All-insert y p xs l a.1)
  | inr h ↦ rw h (l, a)
]

All-lt : (p x : ℕ) (xs : List ℕ) → p < x → All (λ z. x < z) xs → All (λ z. p < z) xs
All-lt p x [] l a = tt
All-lt p x (y ∷ ys) l a = let m = a.0 in (omega arith, All-lt p x ys l a.1)

pub insert-IsSorted :
    (p : ℕ) (xs : List ℕ) → member p xs ≡ false → IsSorted xs → IsSorted (insert p xs)
unfolding insert member
insert-IsSorted p [] n s = (tt, tt)
insert-IsSorted p (x ∷ xs) n s = elim (Bool-cases (ltb x p)) [
  | inl h ↦ rw h (All-insert x p xs (ground arith) s.0, insert-IsSorted p xs (ground arith) s.1)
  | inr h ↦ let l : p < x = ground arith in rw h ((l, All-lt p x xs l s.0), s)
]

pub length-insert : (p : ℕ) (xs : List ℕ) → length (insert p xs) ≡ suc (length xs)
unfolding insert
length-insert p [] = refl
length-insert p (x ∷ xs) = ground (arith, length-insert p xs)

pub member-at : (p : ℕ) (xs : List ℕ) (i : ℕ) → get_elem? xs i ≡ some p → member p xs ≡ true
unfolding member
member-at p [] i h = cc
member-at p (x ∷ xs) zero h = let q : x ≡ p = cc in ground arith
member-at p (x ∷ xs) (suc i) h = let m = member-at p xs i h in ground arith

pub at-member : (p : ℕ) (xs : List ℕ) → member p xs ≡ true → (i : ℕ) × (get_elem? xs i ≡ some p)
unfolding member
at-member p [] h = cc
at-member p (x ∷ xs) h = elim (Bool-cases (p == x)) [
  | inl q ↦ (0, ap some (sym ((==_iff p x).0 q)))
  | inr q ↦ let (i, e) = at-member p xs (rw q at h) in (suc i, e)
]
