-- ===== src/Common/Outcome.antt =====
-- What a call comes to: a value, an error that the code returns, or a panic of the Go runtime.
use mathlib.Core.Path.{◌≡◌, refl, subst}
use mathlib.Core.Bool.{Bool, true, false}
use cess_pos_demo.Common.Tests.{if◌then◌else◌}
use mathlib.Core.Option.{Option, none, some}

pub data Panic : Type 0 where
  nil_dereference index_out_of_range divide_by_zero : Panic

pub data Run {ℓ} (E : Type 0) (A : Type ℓ) : Type ℓ where
  ok : A → Run E A
  err : E → Run E A
  panic : Panic → Run E A

infixl 5 ◌>>=◌ ◌>>◌
abbrev pub ◌>>=◌ {ℓ κ} : {E : Type 0} {A : Type ℓ} {B : Type κ} → Run E A → (A → Run E B) → Run E B
ok a >>= f = f a
err e >>= f = err e
panic p >>= f = panic p

abbrev pub ◌>>◌ {ℓ} : {E : Type 0} {B : Type ℓ} → Run E (Unit {0}) → Run E B → Run E B
m >> k = m >>= λ _. k

-- `if b { return e }`
abbrev pub fail_if : {E : Type 0} → Bool → E → Run E (Unit {0})
fail_if true e = err e
fail_if false e = ok tt

-- The value behind a pointer or at an index, or the panic.
abbrev pub or_panic {ℓ} : {E : Type 0} {A : Type ℓ} → Option A → Panic → Run E A
or_panic none p = panic p
or_panic (some a) p = ok a

-- A call that returns no error, among calls that may.
abbrev pub widen {ℓ} : {E : Type 0} {A : Type ℓ} → Run ⊥ A → Run E A
widen (ok a) = ok a
widen (err e) = elim e [ ]
widen (panic p) = panic p

-- The call ends normally, in a value that satisfies `P`.
abbrev pub Returns {ℓ κ} : {E : Type 0} {A : Type ℓ} → Run E A → (A → Type κ) → Type (ℓ ⊔ κ)
Returns {A} r P = (a : A) × (r ≡ ok a) × P a

-- What holds of the value, if the call ends in one.
abbrev pub Whenever {ℓ κ} : {E : Type 0} {A : Type ℓ} → Run E A → (A → Type κ) → Type κ
Whenever (ok a) P = P a
Whenever (err e) P = Unit {κ}
Whenever (panic p) P = Unit {κ}

module _ {ℓ κ} {E : Type 0} {A : Type ℓ} {B : Type κ} where
  pub Whenever-bind {μ ν} :
      (r : Run E A) (f : A → Run E B) (P : A → Type μ) (Q : B → Type ν)
      → Whenever r P
      → ((a : A) → P a → Whenever (f a) Q)
      → Whenever (r >>= f) Q
  Whenever-bind (ok a) f P Q p h = h a p
  Whenever-bind (err e) f P Q p h = tt
  Whenever-bind (panic e) f P Q p h = tt

  pub Whenever-then {ν} :
      (r : Run E A) (f : A → Run E B) (Q : B → Type ν)
      → ((a : A) → Whenever (f a) Q)
      → Whenever (r >>= f) Q
  Whenever-then (ok a) f Q h = h a
  Whenever-then (err e) f Q h = tt
  Whenever-then (panic e) f Q h = tt

pub Whenever-map {ℓ μ ν} :
    {E : Type 0} {A : Type ℓ} (r : Run E A) (P : A → Type μ) (Q : A → Type ν)
    → Whenever r P
    → ((a : A) → P a → Q a)
    → Whenever r Q
Whenever-map (ok a) P Q p h = h a p
Whenever-map (err e) P Q p h = tt
Whenever-map (panic e) P Q p h = tt

pub Whenever-if {ℓ κ} :
    {E : Type 0} {A : Type ℓ} (b : Bool) (x y : Run E A) (Q : A → Type κ)
    → (b ≡ true → Whenever x Q)
    → (b ≡ false → Whenever y Q)
    → Whenever (if b then x else y) Q
Whenever-if true x y Q p q = p refl
Whenever-if false x y Q p q = q refl

pub fail_if-false : {E : Type 0} (b : Bool) (e : E) → Whenever (fail_if b e) (λ u. b ≡ false)
fail_if-false true e = tt
fail_if-false false e = refl

pub or_panic-some {ℓ} :
    {A : Type ℓ} (E : Type 0) (o : Option A) (p : Panic)
    → Whenever (or_panic {E = E} o p) (λ a. o ≡ some a)
or_panic-some E none p = tt
or_panic-some E (some a) p = refl

-- What holds of the value that a call returns, once the value is known.
pub returned {ℓ κ} :
    {E : Type 0} {A : Type ℓ} (r : Run E A) (P : A → Type κ) (a : A) → Returns r P → r ≡ ok a → P a
returned r P a (b, e, p) h = let same : b ≡ a = cc in subst P same p
