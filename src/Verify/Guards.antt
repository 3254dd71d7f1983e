-- ===== src/Verify/Guards.antt =====
-- The three kinds of tests that the checks of pois/verify.go are made of: an index within bounds, a
-- pointer that is not nil, and a condition that returns an error when it fails.
use cess_pos_demo.Common.{
  Bool, true, false, not, Option, none, some, Run, nil_dereference, index_out_of_range, or_panic,
  fail_if, ◌>>=◌, Whenever, ◌≡◌, refl,
}
use cess_pos_demo.Verify.{PoisError}

pub at_index :
    {A B : Type 0} (o : Option A) (f : A → Run PoisError B) (Q : B → Type 0)
    → ((a : A) → o ≡ some a → Whenever (f a) Q)
    → Whenever (or_panic o index_out_of_range >>= f) Q
at_index none f Q h = tt
at_index (some a) f Q h = h a refl

pub not_nil :
    {A B : Type 0} (o : Option A) (f : A → Run PoisError B) (Q : B → Type 0)
    → ((a : A) → o ≡ some a → Whenever (f a) Q)
    → Whenever (or_panic o nil_dereference >>= f) Q
not_nil none f Q h = tt
not_nil (some a) f Q h = h a refl

pub past :
    {B : Type 0} (good : Bool) (e : PoisError) (f : Unit {0} → Run PoisError B) (Q : B → Type 0)
    → (good ≡ true → Whenever (f tt) Q)
    → Whenever (fail_if (not good) e >>= f) Q
past true e f Q h = h refl
past false e f Q h = tt
