-- ===== src/TypeStore/Equal.antt =====
-- `Btype::equal` and `Btype::hash` of llvm-gofrontend/go-llvm-btype.cpp.
use dragongo.Common.{
  ℕ, zero, suc, ◌+◌, ◌*◌, ◌%◌, ◌^◌, Bool, true, false, ◌&&◌, Option, none, some, List, ◌∷◌, length,
  Text, text_eq, ◌==◌, if◌then◌else◌,
}
use dragongo.Common.Run.{Run, ok, stop, null_pointer, too_deep, ◌>>=◌, deref, also}
use dragongo.TypeStore.{
  BtypedIdentifier, Shape, array_t, float_t, function_t, integer_t, pointer_t, struct_t, aux_t,
  flavor, Btype, Store, at,
}

-- `==` on truth values and on pointers to LLVM types
abbrev pub bool_eq : Bool → Bool → Bool
bool_eq true true = true
bool_eq false false = true
bool_eq _ _ = false

abbrev pub type_eq : Option ℕ → Option ℕ → Bool
type_eq none none = true
type_eq (some a) (some b) = a == b
type_eq _ _ = false

-- The comparisons of the flavour and of the members of `Btype`.
unfoldable pub same_members : Btype → Btype → Bool
same_members x y =
    (flavor x.shape == flavor y.shape)
    && (text_eq x.name y.name
        && (bool_eq x.is_placeholder y.is_placeholder && type_eq x.type y.type))

-- `BArrayType::nelSize`
abbrev pub nel_size : Option ℕ → Run ℕ
nel_size n = deref n

-- `(a != nullptr) == (b != nullptr)`
abbrev pub both_or_neither : Option ℕ → Option ℕ → Bool
both_or_neither (some p) none = false
both_or_neither none (some q) = false
both_or_neither _ _ = true

module _ (equal : ℕ → ℕ → Run Bool) where
  -- Two children that may be null; both null are dereferenced all the same.
  abbrev pub equal_children : Option ℕ → Option ℕ → Run Bool
  equal_children (some p) (some q) = equal p q
  equal_children none none = stop null_pointer
  equal_children _ _ = ok false

  -- The receivers, which are compared only where there are any.
  abbrev pub equal_receivers : Option ℕ → Option ℕ → Run Bool
  equal_receivers (some p) (some q) = equal p q
  equal_receivers none none = ok true
  equal_receivers _ _ = ok false

  -- The loop over the fields; the lengths agree.
  unfoldable pub equal_fields : List BtypedIdentifier → List BtypedIdentifier → Run Bool
  equal_fields (x ∷ xs) (y ∷ ys) = also (equal x.btype y.btype) (
      also (ok (text_eq x.name y.name)) (also (ok (x.location == y.location)) (equal_fields xs ys)))
  equal_fields _ _ = ok true

  -- The loop over the parameters; the lengths agree.
  unfoldable pub equal_params : List ℕ → List ℕ → Run Bool
  equal_params (x ∷ xs) (y ∷ ys) = also (equal x y) (equal_params xs ys)
  equal_params _ _ = ok true

  -- The array's children, once both lengths are known.
  abbrev pub equal_elements : Option ℕ → Option ℕ → ℕ → ℕ → Run Bool
  equal_elements e f n m = also (ok (n == m)) (equal_children e f)

  -- The `switch` on the flavour.
  unfoldable pub equal_shapes : Shape → Shape → Run Bool
  equal_shapes aux_t aux_t = ok true
  equal_shapes (float_t b) (float_t c) = ok true
  equal_shapes (integer_t b u) (integer_t c v) = ok (bool_eq u v)
  equal_shapes (pointer_t p) (pointer_t q) = equal_children p q
  equal_shapes (array_t e n) (array_t f m) =
      also (ok (both_or_neither e f))
        (nel_size n >>= λ i. nel_size m >>= λ j. equal_elements e f i j)
  equal_shapes (struct_t fs) (struct_t gs) = also (ok (length fs == length gs)) (equal_fields fs gs)
  equal_shapes (function_t g) (function_t h) =
      also (equal_receivers g.receiver_type h.receiver_type) (
        also (equal g.rtype h.rtype) (
          also (ok (length g.param_types == length h.param_types)) (
            also (equal_params g.param_types h.param_types)
              (ok (bool_eq g.follows_cabi h.follows_cabi)))))
  equal_shapes _ _ = ok false

  -- The body of `equal`.
  unfoldable pub equal_at : Store → ℕ → ℕ → Run Bool
  equal_at s a b =
      if a == b
      then ok true
      else at s a >>= λ x.
          at s b >>= λ y. also (ok (same_members x y)) (equal_shapes x.shape y.shape)

-- `Btype::equal`. The fuel bounds the depth of the comparison.
unfoldable pub equal : ℕ → Store → ℕ → ℕ → Run Bool
equal zero s a b = stop too_deep
equal (suc n) s a b = equal_at (equal n s) s a b

-- `std::hash` for names and for pointers to LLVM types.
pub record Hashes : Type 0 where
  pub of_name : Text → ℕ
  pub of_type : Option ℕ → ℕ

-- `Btype::hash`: the shift is one of 64 bits, the result is cut to 32.
unfoldable pub hash : Hashes → Btype → ℕ
hash h b = (((h.of_name b.name + h.of_type b.type) * 8) % 2 ^ 64 + flavor b.shape) % 2 ^ 32
