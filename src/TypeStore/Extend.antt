-- ===== src/TypeStore/Extend.antt =====
-- Comparing types of llvm-gofrontend/go-llvm-btype.cpp after more of them have been made.
use dragongo.Common.{
  ℕ, zero, suc, Bool, true, false, Option, none, some, List, [], ◌∷◌, ◌++◌, length, text_eq, ◌==◌,
  ◌≡◌, ◌≢◌, refl, arith, Bool-cases, inl, inr,
}
use dragongo.Common.Run.{Run, ok, stop, ◌>>=◌, >>=-eq-ok, also}
use dragongo.TypeStore.{
  BtypedIdentifier, Shape, array_t, function_t, pointer_t, struct_t, Btype, Store, at,
}
use dragongo.TypeStore.Equal.{
  bool_eq, same_members, nel_size, equal_children, equal_receivers, equal_fields, equal_params,
  equal_elements, both_or_neither, equal_shapes, equal_at, equal,
}
use dragongo.TypeStore.Clone.{at-append}

-- Where the first comparison answers, the second gives the same answer.
abbrev pub Refines : Run Bool → Run Bool → Type 0
Refines a b = (v : Bool) → a ≡ ok v → b ≡ ok v

also-Refines : {a b c d : Run Bool} → Refines a b → Refines c d → Refines (also a c) (also b d)
also-Refines {a = ok true} h k v e = rw (h true refl) (k v e)
also-Refines {a = ok false} h k v e = rw (h false refl) e
also-Refines {a = stop r} h k v e = ground arith

Refines-refl : {a : Run Bool} → Refines a a
Refines-refl v e = e

module _ {rec rec₂ : ℕ → ℕ → Run Bool} (finer : (a b : ℕ) → Refines (rec a b) (rec₂ a b)) where
  children-Refines : (e f : Option ℕ) → Refines (equal_children rec e f) (equal_children rec₂ e f)
  children-Refines (some e) (some f) = finer e f
  children-Refines none none = λ v k. k
  children-Refines none (some f) = λ v k. k
  children-Refines (some e) none = λ v k. k

  receivers-Refines :
      (e f : Option ℕ) → Refines (equal_receivers rec e f) (equal_receivers rec₂ e f)
  receivers-Refines (some e) (some f) = finer e f
  receivers-Refines none none = λ v k. k
  receivers-Refines none (some f) = λ v k. k
  receivers-Refines (some e) none = λ v k. k

  fields-Refines :
      (fs gs : List BtypedIdentifier) → Refines (equal_fields rec fs gs) (equal_fields rec₂ fs gs)
  unfolding equal_fields
  fields-Refines [] gs = λ v k. k
  fields-Refines (f ∷ fs) [] = λ v k. k
  fields-Refines (f ∷ fs) (g ∷ gs) = also-Refines (finer f.btype g.btype) (
      also-Refines {a = ok (text_eq f.name g.name)} Refines-refl
        (also-Refines {a = ok (f.location == g.location)} Refines-refl (fields-Refines fs gs)))

  params-Refines : (ps qs : List ℕ) → Refines (equal_params rec ps qs) (equal_params rec₂ ps qs)
  unfolding equal_params
  params-Refines [] qs = λ v k. k
  params-Refines (p ∷ ps) [] = λ v k. k
  params-Refines (p ∷ ps) (q ∷ qs) = also-Refines (finer p q) (params-Refines ps qs)

  lengths-Refines :
      (e f n m : Option ℕ)
      → Refines
          (nel_size n >>= λ i. nel_size m >>= λ j. equal_elements rec e f i j)
          (nel_size n >>= λ i. nel_size m >>= λ j. equal_elements rec₂ e f i j)
  lengths-Refines e f none m = λ v k. k
  lengths-Refines e f (some n) none = λ v k. k
  lengths-Refines e f (some n) (some m) =
      also-Refines {a = ok (n == m)} Refines-refl (children-Refines e f)

  shapes-Refines : (x y : Shape) → Refines (equal_shapes rec x y) (equal_shapes rec₂ x y)
  unfolding equal_shapes
  shapes-Refines (pointer_t p) (pointer_t q) = children-Refines p q
  shapes-Refines (array_t e n) (array_t f m) =
      also-Refines {a = ok (both_or_neither e f)} Refines-refl (lengths-Refines e f n m)
  shapes-Refines (struct_t fs) (struct_t gs) =
      also-Refines {a = ok (length fs == length gs)} Refines-refl (fields-Refines fs gs)
  shapes-Refines (function_t g) (function_t h) =
      also-Refines (receivers-Refines g.receiver_type h.receiver_type) (
        also-Refines (finer g.rtype h.rtype) (
          also-Refines {a = ok (length g.param_types == length h.param_types)} Refines-refl (
            also-Refines (params-Refines g.param_types h.param_types)
              (Refines-refl {a = ok (bool_eq g.follows_cabi h.follows_cabi)}))))
  shapes-Refines x y = λ v k. k

  equal_at-Refines :
      (s t : Store) (a b : ℕ) → Refines (equal_at rec s a b) (equal_at rec₂ (s ++ t) a b)
  unfolding equal_at
  equal_at-Refines s t a b v e = elim (Bool-cases (a == b)) [
    | inl k ↦ rw k (rw k at e)
    | inr k ↦
        let (x, at_a, e₁) = >>=-eq-ok (at s a) _ (rw k at e) in
        let (y, at_b, e₂) = >>=-eq-ok (at s b) _ e₁ in
        rw (k, at-append s t a at_a, at-append s t b at_b)
          (also-Refines {a = ok (same_members x y)} Refines-refl (shapes-Refines x.shape y.shape) v
            e₂)
  ]

-- An answer stays the same when more types are made.
pub equal-append : (n : ℕ) (s t : Store) (a b : ℕ) → Refines (equal n s a b) (equal n (s ++ t) a b)
unfolding equal
equal-append zero s t a b = λ v e. ground arith
equal-append (suc n) s t a b = equal_at-Refines (equal-append n s t) s t a b

-- Two objects with the same members compare alike with any third one.
pub equal-twin :
    (n : ℕ) (s : Store) (a b e : ℕ) (x : Btype)
    → at s a ≡ ok x
    → at s b ≡ ok x
    → a ≢ e
    → b ≢ e
    → equal n s a e ≡ equal n s b e
unfolding equal equal_at
equal-twin zero s a b e x at_a at_b u v = refl
equal-twin (suc n) s a b e x at_a at_b u v =
    let p : (a == e) ≡ false = ground arith in
    let q : (b == e) ≡ false = ground arith in rw (p, q, at_a, at_b) refl
