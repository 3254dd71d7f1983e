-- ===== src/Common/Elements.antt =====
-- Properties of each element of a list, by index.
use Prim.Native.Nat.{ℕ, zero, suc, ◌<◌}
use mathlib.Core.Path.{◌≡◌, refl, ap, subst}
use mathlib.Core.List.{List, [], ◌∷◌, ◌++◌}
use mathlib.Core.Option.{some}
use native.Mathlib.Omega.{arith}
use cess_pos_demo.Common.Lists.{length, get_elem?, set, modify}

module _ {ℓ} {A : Type ℓ} where
  abbrev pub Each {κ} : (A → Type κ) → List A → Type (ℓ ⊔ κ)
  Each P xs = (i : ℕ) (x : A) → get_elem? xs i ≡ some x → P x

module _ {ℓ κ} {A : Type ℓ} (P : A → Type κ) where
  pub Each-cons : (x : A) (xs : List A) → P x → Each P xs → Each P (x ∷ xs)
  Each-cons x xs p ps zero y h = subst P (cc) p
  Each-cons x xs p ps (suc i) y h = ps i y h

  pub Each-set : (xs : List A) (i : ℕ) (x : A) → Each P xs → P x → Each P (set xs i x)
  Each-set [] i x ps p = ps
  Each-set (y ∷ xs) zero x ps p = Each-cons x xs p (λ j z h. ps (suc j) z h)
  Each-set (y ∷ xs) (suc i) x ps p =
      Each-cons y (set xs i x) (ps 0 y refl) (Each-set xs i x (λ j z h. ps (suc j) z h) p)

  pub Each-append_one : (xs : List A) (x : A) → Each P xs → P x → Each P (xs ++ x ∷ [])
  Each-append_one [] x ps p = Each-cons x [] p ps
  Each-append_one (y ∷ xs) x ps p =
      Each-cons y (xs ++ x ∷ []) (ps 0 y refl) (Each-append_one xs x (λ j z h. ps (suc j) z h) p)

module _ {ℓ} {A : Type ℓ} where
  pub modify-set :
      (f : A → A) (xs : List A) (i : ℕ) (x : A) → modify f i (set xs i x) ≡ set xs i (f x)
  modify-set f [] i x = refl
  modify-set f (y ∷ xs) zero x = refl
  modify-set f (y ∷ xs) (suc i) x = ap (λ t. y ∷ t) (modify-set f xs i x)

  pub modify-append_one :
      (f : A → A) (xs : List A) (x : A) → modify f (length xs) (xs ++ x ∷ []) ≡ xs ++ f x ∷ []
  modify-append_one f [] x = refl
  modify-append_one f (y ∷ xs) x = ap (λ t. y ∷ t) (modify-append_one f xs x)

  pub get_elem?-set_self :
      (xs : List A) (i : ℕ) (x : A) → i < length xs → get_elem? (set xs i x) i ≡ some x
  get_elem?-set_self [] i x h = absurd (omega arith)
  get_elem?-set_self (y ∷ xs) zero x h = refl
  get_elem?-set_self (y ∷ xs) (suc i) x h = get_elem?-set_self xs i x (omega arith)

  pub get_elem?-append_one : (xs : List A) (x : A) → get_elem? (xs ++ x ∷ []) (length xs) ≡ some x
  get_elem?-append_one [] x = refl
  get_elem?-append_one (y ∷ xs) x = get_elem?-append_one xs x

  pub length-append_one : (xs : List A) (x : A) → length (xs ++ x ∷ []) ≡ suc (length xs)
  length-append_one [] x = refl
  length-append_one (y ∷ xs) x = ap suc (length-append_one xs x)
