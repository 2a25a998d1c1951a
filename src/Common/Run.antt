-- ===== src/Common/Run.antt =====
-- Results of code that can stop: on a failed assertion, on a null or dangling pointer, or because a
-- comparison or a round of updates has used up its fuel.
use mathlib.Core.Path.{◌≡◌, refl}
use mathlib.Core.Logic.{◌≢◌}
use mathlib.Core.Bool.{Bool, true, false}
use mathlib.Core.Option.{Option, none, some}
use native.Mathlib.Omega.{arith}
use dragongo.Common.Tests.{if◌then◌else◌}

pub data Reason : Type 0 where
  assertion null_pointer too_deep out_of_rounds : Reason

pub data Run {ℓ} (A : Type ℓ) : Type ℓ where
  ok : A → Run A
  stop : Reason → Run A

-- The next step of a run that has not stopped.
abbrev pub ◌>>=◌ {ℓ κ} : {V : Type ℓ} {W : Type κ} → Run V → (V → Run W) → Run W
stop why >>= next = stop why
ok v >>= next = next v

abbrev pub ◌>>◌ {κ} : {W : Type κ} → Run (Unit {0}) → Run W → Run W
first >> next = first >>= λ done. next

infixl 5 ◌>>=◌ ◌>>◌
abbrev pub assert : Bool → Run (Unit {0})
assert true = ok tt
assert false = stop assertion

-- What stands behind a pointer.
abbrev pub deref {ℓ} : {A : Type ℓ} → Option A → Run A
deref (some a) = ok a
deref none = stop null_pointer

-- A chain of `Option` steps, where `none` is a failed assertion.
abbrev pub asserted {ℓ} : {A : Type ℓ} → Option A → Run A
asserted (some a) = ok a
asserted none = stop assertion

-- `a && b`, where `b` is evaluated only if `a` holds.
abbrev pub also : Run Bool → Run Bool → Run Bool
also a b = a >>= λ v. if v then b else ok false

abbrev pub value_or {ℓ} : {A : Type ℓ} → A → Run A → A
value_or d (ok a) = a
value_or d (stop r) = d

-- Both parts of a run that succeeded.
pub >>=-eq-ok {ℓ κ} :
    {V : Type ℓ} {W : Type κ} (first : Run V) (next : V → Run W) {w : W}
    → (first >>= next) ≡ ok w
    → (v : V) × (first ≡ ok v) × (next v ≡ ok w)
>>=-eq-ok (stop why) next e = ground arith
>>=-eq-ok (ok v) next e = (v, refl, e)

pub deref-ok {ℓ} : {A : Type ℓ} (o : Option A) {a : A} → deref o ≡ ok a → o ≡ some a
deref-ok (some b) h = ground arith
deref-ok none h = ground arith

pub assert-ok : (b : Bool) {u : Unit {0}} → assert b ≡ ok u → b ≡ true
assert-ok true h = refl
assert-ok false h = ground arith

-- A chain runs out of rounds only where one of its parts does.
pub >>=-rounds {ℓ κ} :
    {A : Type ℓ} {B : Type κ} (m : Run A) (f : A → Run B)
    → m ≢ stop out_of_rounds
    → ((a : A) → m ≡ ok a → f a ≢ stop out_of_rounds)
    → (m >>= f) ≢ stop out_of_rounds
>>=-rounds (ok a) f h k = k a refl
>>=-rounds (stop r) f h k = λ e. h (ground arith)

abbrev pub is_ok {ℓ} : {A : Type ℓ} → Run A → Bool
is_ok (ok a) = true
is_ok (stop r) = false

-- The value of a run that is known to succeed.
unfoldable pub value_of {ℓ} : {A : Type ℓ} (r : Run A) → is_ok r ≡ true → (a : A) × (r ≡ ok a)
value_of (ok a) h = (a, refl)
value_of (stop r) h = ground arith
