-- ===== src/TypeStore/Symmetry.antt =====
-- Comparing two types of llvm-gofrontend/go-llvm-btype.cpp in either order.
use dragongo.Common.{
  ℕ, zero, suc, Bool, true, false, ◌&&◌, Option, none, some, List, [], ◌∷◌, length, get_elem?, Text,
  text_eq, ◌==◌, if◌then◌else◌, ◌≡◌, refl, arith, ap, ap₂,
}
use dragongo.Common.Run.{Run, ok, ◌>>=◌, also, deref}
use dragongo.TypeStore.{
  BtypedIdentifier, Shape, array_t, float_t, function_t, integer_t, pointer_t, struct_t, aux_t,
  flavor, Btype, Store, at,
}
use dragongo.TypeStore.Equal.{
  bool_eq, type_eq, same_members, nel_size, equal_children, equal_receivers, equal_fields,
  equal_params, equal_elements, both_or_neither, equal_shapes, equal_at, equal,
}

pub ==_comm : (a b : ℕ) → (a == b) ≡ (b == a)
==_comm a b = ground arith

pub bool_eq_comm : (a b : Bool) → bool_eq a b ≡ bool_eq b a
bool_eq_comm true true = refl
bool_eq_comm true false = refl
bool_eq_comm false true = refl
bool_eq_comm false false = refl

type_eq_comm : (a b : Option ℕ) → type_eq a b ≡ type_eq b a
type_eq_comm none none = refl
type_eq_comm none (some b) = refl
type_eq_comm (some a) none = refl
type_eq_comm (some a) (some b) = ==_comm a b

text_eq_comm : (xs ys : Text) → text_eq xs ys ≡ text_eq ys xs
text_eq_comm [] [] = refl
text_eq_comm [] (y ∷ ys) = refl
text_eq_comm (x ∷ xs) [] = refl
text_eq_comm (x ∷ xs) (y ∷ ys) = ap₂ ◌&&◌ (==_comm x y) (text_eq_comm xs ys)

same_members_comm : (x y : Btype) → same_members x y ≡ same_members y x
unfolding same_members
same_members_comm x y = ap₂ ◌&&◌ (==_comm (flavor x.shape) (flavor y.shape)) (
    ap₂ ◌&&◌ (text_eq_comm x.name y.name)
      (ap₂ ◌&&◌ (bool_eq_comm x.is_placeholder y.is_placeholder) (type_eq_comm x.type y.type)))

both_or_neither_comm : (e f : Option ℕ) → both_or_neither e f ≡ both_or_neither f e
both_or_neither_comm none none = refl
both_or_neither_comm none (some f) = refl
both_or_neither_comm (some e) none = refl
both_or_neither_comm (some e) (some f) = refl

also_comm : {a b c d : Run Bool} → a ≡ b → c ≡ d → also a c ≡ also b d
also_comm h k = ap₂ also h k

module _ {rec : ℕ → ℕ → Run Bool} (h : (a b : ℕ) → rec a b ≡ rec b a) where
  equal_children_comm : (e f : Option ℕ) → equal_children rec e f ≡ equal_children rec f e
  equal_children_comm none none = refl
  equal_children_comm none (some f) = refl
  equal_children_comm (some e) none = refl
  equal_children_comm (some e) (some f) = h e f

  equal_receivers_comm : (e f : Option ℕ) → equal_receivers rec e f ≡ equal_receivers rec f e
  equal_receivers_comm none none = refl
  equal_receivers_comm none (some f) = refl
  equal_receivers_comm (some e) none = refl
  equal_receivers_comm (some e) (some f) = h e f

  equal_fields_comm :
      (xs ys : List BtypedIdentifier) → equal_fields rec xs ys ≡ equal_fields rec ys xs
  unfolding equal_fields
  equal_fields_comm [] [] = refl
  equal_fields_comm [] (y ∷ ys) = refl
  equal_fields_comm (x ∷ xs) [] = refl
  equal_fields_comm (x ∷ xs) (y ∷ ys) = ap₂ also (h x.btype y.btype) (
      ap₂ also (ap ok (text_eq_comm x.name y.name))
        (ap₂ also (ap ok (==_comm x.location y.location)) (equal_fields_comm xs ys)))

  equal_params_comm : (xs ys : List ℕ) → equal_params rec xs ys ≡ equal_params rec ys xs
  unfolding equal_params
  equal_params_comm [] [] = refl
  equal_params_comm [] (y ∷ ys) = refl
  equal_params_comm (x ∷ xs) [] = refl
  equal_params_comm (x ∷ xs) (y ∷ ys) = ap₂ also (h x y) (equal_params_comm xs ys)

  lengths_comm :
      (e f n m : Option ℕ)
      → (nel_size n >>= λ i. nel_size m >>= λ j. equal_elements rec e f i j)
        ≡ (nel_size m >>= λ j. nel_size n >>= λ i. equal_elements rec f e j i)
  lengths_comm e f none none = refl
  lengths_comm e f none (some m) = refl
  lengths_comm e f (some n) none = refl
  lengths_comm e f (some n) (some m) = ap₂ also (ap ok (==_comm n m)) (equal_children_comm e f)

  equal_shapes_comm : (x y : Shape) → equal_shapes rec x y ≡ equal_shapes rec y x
  unfolding equal_shapes
  equal_shapes_comm aux_t aux_t = refl
  equal_shapes_comm (float_t b) (float_t c) = refl
  equal_shapes_comm (integer_t b u) (integer_t c v) = ap ok (bool_eq_comm u v)
  equal_shapes_comm (pointer_t p) (pointer_t q) = equal_children_comm p q
  equal_shapes_comm (array_t e n) (array_t f m) =
      ap₂ also (ap ok (both_or_neither_comm e f)) (lengths_comm e f n m)
  equal_shapes_comm (struct_t fs) (struct_t gs) =
      ap₂ also (ap ok (==_comm (length fs) (length gs))) (equal_fields_comm fs gs)
  equal_shapes_comm (function_t g) (function_t k) =
      ap₂ also (equal_receivers_comm g.receiver_type k.receiver_type) (
        ap₂ also (h g.rtype k.rtype) (
          ap₂ also (ap ok (==_comm (length g.param_types) (length k.param_types))) (
            ap₂ also (equal_params_comm g.param_types k.param_types)
              (ap ok (bool_eq_comm g.follows_cabi k.follows_cabi)))))
  equal_shapes_comm x y = refl

swapped {ℓ} :
    {A : Type ℓ} (o p : Option A) (f g : A → A → Run Bool)
    → ((x y : A) → f x y ≡ g y x)
    → (deref o >>= λ x. deref p >>= λ y. f x y) ≡ (deref p >>= λ y. deref o >>= λ x. g y x)
swapped none none f g h = refl
swapped none (some y) f g h = refl
swapped (some x) none f g h = refl
swapped (some x) (some y) f g h = h x y

module _ (s : Store) where
  equal_at_comm :
      {rec : ℕ → ℕ → Run Bool} (h : (a b : ℕ) → rec a b ≡ rec b a) (a b : ℕ)
      → equal_at rec s a b ≡ equal_at rec s b a
  unfolding equal_at at
  equal_at_comm {rec} h a b =
      ap₂ (λ t k. if t then ok true else k) (==_comm a b)
        (swapped (get_elem? s a) (get_elem? s b)
          (λ x y. also (ok (same_members x y)) (equal_shapes rec x.shape y.shape))
          (λ y x. also (ok (same_members y x)) (equal_shapes rec y.shape x.shape))
          λ x y. ap₂ also (ap ok (same_members_comm x y)) (equal_shapes_comm h x.shape y.shape))

  -- Two types may be compared in either order, at any depth: the answer is the same, and where there
  -- is none the reason is the same.
  pub equal_comm : (n a b : ℕ) → equal n s a b ≡ equal n s b a
  unfolding equal
  equal_comm zero a b = refl
  equal_comm (suc n) a b = equal_at_comm (equal_comm n) a b
