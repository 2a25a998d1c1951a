-- ===== src/TypeManager/Again.antt =====
-- Requests for anonymous types that the front end makes twice (go-llvm-typemanager.cpp).
use dragongo.Common.{ℕ, Bool, false, some, ◌≡◌, refl, sym, subst, arith, ◌==◌, Bool-cases, inl, inr}
use dragongo.Common.Run.{Run, ok, >>=-eq-ok, deref}
use dragongo.TypeStore.{
  array_t, pointer_t, Btype, at, is_unresolved_placeholder, new_pointer, new_array, new_btype,
}
use dragongo.TypeStore.Equal.{Hashes}
use dragongo.TypeStore.Clone.{at-new}
use dragongo.TypeManager.{Llvm, TypeManager}
use dragongo.TypeManager.Refs.{add_placeholder_refs}
use dragongo.TypeManager.Make.{
  no_location, integer_type, float_type, pointer_type, pointee, constant_array_type, array_type,
  constant,
}
use dragongo.TypeManager.Cached.{depth}
use dragongo.TypeManager.Canonical.{integer_type_again, float_type_again, found_marked}

-- A call that asks for an anonymous type.
pub data Request : Type 0 where
  integer : (is_unsigned : Bool) (bits : ℕ) → Request
  float : (bits : ℕ) → Request
  pointer : (to : ℕ) → Request
  array : (elem n : ℕ) → Request

-- `integerType`, `floatType`, `pointerType` and `arrayType`
abbrev pub make : Llvm → Hashes → ℕ → TypeManager → Request → Run (ℕ × TypeManager)
make lv hs fuel m (integer is_unsigned bits) = integer_type lv hs fuel m is_unsigned bits
make lv hs fuel m (float bits) = float_type lv hs fuel m bits
make lv hs fuel m (pointer to) = pointer_type lv hs fuel m to
make lv hs fuel m (array elem n) = array_type lv hs fuel m elem (constant n)

-- The type that a request refers to is no structure that is still a placeholder.
abbrev pub IsPlain : TypeManager → Request → Type 0
IsPlain m (integer is_unsigned bits) = Unit {0}
IsPlain m (float bits) = Unit {0}
IsPlain m (pointer to) =
    (b : Btype) → at m.types to ≡ ok b → is_unresolved_placeholder b ≡ b.is_placeholder
IsPlain m (array elem n) =
    (b : Btype) → at m.types elem ≡ ok b → is_unresolved_placeholder b ≡ b.is_placeholder

module _ (lv : Llvm) (hs : Hashes) (n : ℕ) where
  pointer_type_again :
      (m m₁ : TypeManager) (to p : ℕ)
      → IsPlain m (pointer to)
      → pointer_type lv hs (depth n) m to ≡ ok (p, m₁)
      → pointer_type lv hs (depth n) m₁ to ≡ ok (p, m₁)
  unfolding pointer_type new_pointer add_placeholder_refs
  pointer_type_again m m₁ to p plain e = elim (Bool-cases (to == m.error_type)) [
    | inl err ↦
        let k = rw err at e in
        let same : m ≡ m₁ = ground arith in
        subst (λ t. pointer_type lv hs (depth n) t to ≡ ok (p, m₁)) same e
    | inr ne ↦
        let (b, h, e₁) = >>=-eq-ok (at m.types to) _ (rw ne at e) in
        let (t, g, e₂) = >>=-eq-ok (deref b.type) _ e₁ in
        let cand : Btype =
          record (new_btype (pointer_t (some to)) (some (lv.pointer_to (pointee lv t)))
            no_location) { is_placeholder = b.is_placeholder } in
        let (found, kept, error) =
          found_marked lv hs n m m₁ cand p to b refl h (plain b h) (rw (at-new m.types cand) refl)
            (rw h at e₂) in
        let ne₁ = subst (λ d. (to == d) ≡ false) (sym error) ne in rw (ne₁, kept, g, found) refl
  ]

  array_type_again :
      (m m₁ : TypeManager) (elem k p : ℕ)
      → IsPlain m (array elem k)
      → array_type lv hs (depth n) m elem (constant k) ≡ ok (p, m₁)
      → array_type lv hs (depth n) m₁ elem (constant k) ≡ ok (p, m₁)
  unfolding array_type constant_array_type new_array add_placeholder_refs
  array_type_again m m₁ elem k p plain e = elim (Bool-cases (elem == m.error_type)) [
    | inl err ↦
        let j = rw err at e in
        let same : m ≡ m₁ = ground arith in
        subst (λ t. array_type lv hs (depth n) t elem (constant k) ≡ ok (p, m₁)) same e
    | inr ne ↦
        let (b, h, e₁) = >>=-eq-ok (at m.types elem) _ (rw ne at e) in
        let (t, g, e₂) = >>=-eq-ok (deref b.type) _ e₁ in
        let cand : Btype =
          record (new_btype (array_t (some elem) (some k)) (some (lv.array_of t k)) no_location) {
            is_placeholder = b.is_placeholder;
          } in
        let (found, kept, error) =
          found_marked lv hs n m m₁ cand p elem b refl h (plain b h) (rw (at-new m.types cand) refl)
            (rw h at e₂) in
        let ne₁ = subst (λ d. (elem == d) ≡ false) (sym error) ne in rw (ne₁, kept, g, found) refl
  ]

  -- Asking for the same integer, float, pointer or array type again gives the same type and changes
  -- nothing, where the type that is pointed to or repeated is no structure that is still a
  -- placeholder; the error type is given back for itself.
  pub make_again :
      (m m₁ : TypeManager) (r : Request) (p : ℕ)
      → IsPlain m r
      → make lv hs (depth n) m r ≡ ok (p, m₁)
      → make lv hs (depth n) m₁ r ≡ ok (p, m₁)
  make_again m m₁ (integer u bits) p plain e = integer_type_again lv hs n m m₁ u bits p e
  make_again m m₁ (float bits) p plain e = float_type_again lv hs n m m₁ bits p e
  make_again m m₁ (pointer to) p plain e = pointer_type_again m m₁ to p plain e
  make_again m m₁ (array elem k) p plain e = array_type_again m m₁ elem k p plain e
