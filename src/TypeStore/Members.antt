-- ===== src/TypeStore/Members.antt =====
-- The members that two types of llvm-gofrontend/go-llvm-btype.cpp share when they compare as equal.
use dragongo.Common.{
  ℕ, Bool, true, false, ◌&&◌, Option, none, some, text_eq, text_eq_sound, text_eq_refl, ◌==◌, ◌≡◌,
  refl, arith, ap, ◌∙◌,
}
use dragongo.Common.Run.{Run, ok, stop, also}
use dragongo.TypeStore.{flavor, Btype}
use dragongo.TypeStore.Equal.{bool_eq, type_eq, same_members}

pub type_eq_sound : (a b : Option ℕ) → type_eq a b ≡ true → a ≡ b
type_eq_sound none none h = refl
type_eq_sound none (some b) h = ground arith
type_eq_sound (some a) none h = ground arith
type_eq_sound (some a) (some b) h = ap some (ground arith)

pub bool_eq_sound : (a b : Bool) → bool_eq a b ≡ true → a ≡ b
bool_eq_sound true true h = refl
bool_eq_sound true false h = ground arith
bool_eq_sound false true h = ground arith
bool_eq_sound false false h = refl

pub type_eq_refl : (a : Option ℕ) → type_eq a a ≡ true
type_eq_refl none = refl
type_eq_refl (some a) = ground arith

pub bool_eq_refl : (a : Bool) → bool_eq a a ≡ true
bool_eq_refl true = refl
bool_eq_refl false = refl

pub and_parts : (a b : Bool) → (a && b) ≡ true → (a ≡ true) × (b ≡ true)
and_parts true b h = (refl, h)
and_parts false b h = ground arith

-- What `same_members` says.
pub record SameMembers (x y : Btype) : Type 0 where
  pub flavors : flavor x.shape ≡ flavor y.shape
  pub names : x.name ≡ y.name
  pub placeholders : x.is_placeholder ≡ y.is_placeholder
  pub types : x.type ≡ y.type

pub same_members-SameMembers : (x y : Btype) → same_members x y ≡ true → SameMembers x y
unfolding same_members
same_members-SameMembers x y h =
    let (f, rest) = and_parts (flavor x.shape == flavor y.shape) _ h in
    let (n, rest₂) = and_parts (text_eq x.name y.name) _ rest in
    let (p, t) = and_parts (bool_eq x.is_placeholder y.is_placeholder) _ rest₂ in
    record {
      flavors = ground arith;
      names = text_eq_sound x.name y.name n;
      placeholders = bool_eq_sound x.is_placeholder y.is_placeholder p;
      types = type_eq_sound x.type y.type t;
    }

pub SameMembers-same_members : {x y : Btype} → SameMembers x y → same_members x y ≡ true
unfolding same_members
SameMembers-same_members {x} {y} s =
    rw (s.flavors, s.names, s.placeholders, s.types, text_eq_refl, bool_eq_refl, type_eq_refl)
      (ground arith)

pub also-true : (a b : Run Bool) → also a b ≡ ok true → (a ≡ ok true) × (b ≡ ok true)
also-true (ok true) b h = (refl, h)
also-true (ok false) b h = ground arith
also-true (stop r) b h = ground arith

pub both_true : {a b : Run Bool} → a ≡ ok true → b ≡ ok true → also a b ≡ ok true
both_true h k = rw (h, k)

pub SameMembers-refl : {x : Btype} → SameMembers x x
SameMembers-refl = record { flavors = refl; names = refl; placeholders = refl; types = refl }

pub SameMembers-trans : {x y z : Btype} → SameMembers x y → SameMembers y z → SameMembers x z
SameMembers-trans m n = record {
  flavors = m.flavors ∙ n.flavors;
  names = m.names ∙ n.names;
  placeholders = m.placeholders ∙ n.placeholders;
  types = m.types ∙ n.types;
}
