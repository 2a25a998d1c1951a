-- ===== src/TypeStore/Clone.antt =====
-- What `Btype::clone` of llvm-gofrontend/go-llvm-btype.cpp makes.
use dragongo.Common.{
  ℕ, suc, Bool, true, false, Option, none, some, List, [], ◌∷◌, ◌++◌, length, get_elem?, text_eq,
  text_eq_refl, ◌==◌, ◌≡◌, refl, arith, get_elem?-append_left, get_elem?-append_length,
  get_elem?-lt, subst, sym,
}
use dragongo.Common.Run.{Run, ok, deref, deref-ok, >>=-eq-ok, assert}
use dragongo.TypeStore.{
  BtypedIdentifier, Signature, Shape, array_t, float_t, function_t, integer_t, pointer_t, struct_t,
  aux_t, Btype, Store, at, new_array, new_pointer, new_function, flavor, receiver_first,
}
use dragongo.TypeStore.Equal.{
  bool_eq, equal_receivers, equal_fields, equal_params, equal_shapes, equal_at, equal,
}
use dragongo.TypeStore.Setters.{clone_shape, clone}
use dragongo.TypeStore.Members.{bool_eq_refl, both_true, SameMembers}
use dragongo.TypeStore.Transitive.{equal_at_same}

-- The members that a comparison dereferences are set.
abbrev pub is_set : Shape → Bool
is_set (pointer_t none) = false
is_set (array_t none n) = false
is_set (array_t e none) = false
is_set _ = true

-- The flavour and the members, less the bits of a float type.
abbrev pub copied_shape : Shape → Shape
copied_shape (float_t bits) = float_t none
copied_shape sh = sh

copied_flavor : (sh : Shape) → flavor sh ≡ flavor (copied_shape sh)
copied_flavor (float_t b) = refl
copied_flavor sh = refl

module _ (rec : ℕ → ℕ → Run Bool) (self : (a : ℕ) → rec a a ≡ ok true) where
  fields_refl : (fs : List BtypedIdentifier) → equal_fields rec fs fs ≡ ok true
  unfolding equal_fields
  fields_refl [] = refl
  fields_refl (f ∷ fs) = both_true (self f.btype) (
      both_true {a = ok (text_eq f.name f.name)} (rw text_eq_refl refl)
        (both_true {a = ok (f.location == f.location)} (ground arith) (fields_refl fs)))

  params_refl : (ps : List ℕ) → equal_params rec ps ps ≡ ok true
  unfolding equal_params
  params_refl [] = refl
  params_refl (p ∷ ps) = both_true (self p) (params_refl ps)

  receivers_refl : (r : Option ℕ) → equal_receivers rec r r ≡ ok true
  receivers_refl none = refl
  receivers_refl (some r) = self r

  functions_refl : (g : Signature) → equal_shapes rec (function_t g) (function_t g) ≡ ok true
  unfolding equal_shapes
  functions_refl g = both_true (receivers_refl g.receiver_type) (
      both_true (self g.rtype) (
        both_true {a = ok (length g.param_types == length g.param_types)} (ground arith) (
          both_true {b = ok (bool_eq g.follows_cabi g.follows_cabi)} (params_refl g.param_types)
            (rw bool_eq_refl refl))))

  -- A shape compares as equal to its copy, where no null pointer is in the way.
  pub shapes_refl :
      (sh : Shape) → is_set sh ≡ true → equal_shapes rec sh (copied_shape sh) ≡ ok true
  unfolding equal_shapes
  shapes_refl aux_t h = refl
  shapes_refl (float_t b) h = refl
  shapes_refl (integer_t b u) h = rw bool_eq_refl refl
  shapes_refl (pointer_t (some p)) h = self p
  shapes_refl (pointer_t none) h = ground arith
  shapes_refl (array_t none n) h = ground arith
  shapes_refl (array_t (some e) none) h = ground arith
  shapes_refl (array_t (some e) (some n)) h = both_true {a = ok (n == n)} (ground arith) (self e)
  shapes_refl (struct_t fs) h =
      both_true {a = ok (length fs == length fs)} (ground arith) (fields_refl fs)
  shapes_refl (function_t g) h = functions_refl g

-- A shape compares as equal to itself.
pub shapes_self :
    (rec : ℕ → ℕ → Run Bool) (sh : Shape)
    → ((a : ℕ) → rec a a ≡ ok true)
    → is_set sh ≡ true
    → equal_shapes rec sh sh ≡ ok true
unfolding equal_shapes
shapes_self rec (float_t b) self h = refl
shapes_self rec sh self h = shapes_refl rec self sh h

pub equal_self : (n : ℕ) (s : Store) (a : ℕ) → equal (suc n) s a a ≡ ok true
unfolding equal equal_at
equal_self n s a = let e : (a == a) ≡ true = ground arith in rw e refl

-- A store that has grown still has its types.
pub at-append : (s t : Store) (a : ℕ) {b : Btype} → at s a ≡ ok b → at (s ++ t) a ≡ ok b
unfolding at
at-append s t a h =
    let e = deref-ok (get_elem? s a) h in
    rw (get_elem?-append_left s t a (get_elem?-lt s a e), e) refl

pub at-new : (s : Store) (b : Btype) → at (s ++ (b ∷ [])) (length s) ≡ ok b
unfolding at
at-new s b = rw (get_elem?-append_length s [] b) refl

clone_shape-copied :
    (s : Store) (sh : Shape) (t : Option ℕ) (loc : ℕ) {c : Btype}
    → clone_shape s sh t loc ≡ ok c
    → (c.shape ≡ copied_shape sh) × (c.location ≡ loc)
unfolding clone_shape new_pointer new_array new_function
clone_shape-copied s aux_t t loc e = (ground arith, ground arith)
clone_shape-copied s (float_t bits) t loc e = (ground arith, ground arith)
clone_shape-copied s (integer_t bits u) t loc e = (ground arith, ground arith)
clone_shape-copied s (struct_t fs) t loc e = (ground arith, ground arith)
clone_shape-copied s (pointer_t to) t loc e =
    let (addr, h, e₁) = >>=-eq-ok (deref to) _ e in
    let (x, k, e₂) = >>=-eq-ok (at s addr) _ e₁ in (ground arith, ground arith)
clone_shape-copied s (array_t elem n) t loc e =
    let (addr, h, e₁) = >>=-eq-ok (deref elem) _ e in
    let (x, k, e₂) = >>=-eq-ok (at s addr) _ e₁ in (ground arith, ground arith)
clone_shape-copied s (function_t g) t loc e =
    let (v, h, e₁) = >>=-eq-ok (receiver_first g.receiver_type g.param_types) _ e in
    let (u, k, e₂) = >>=-eq-ok (assert v) _ e₁ in (ground arith, ground arith)

copied-SameMembers :
    (b c : Btype)
    → c.shape ≡ copied_shape b.shape
    → SameMembers b (record c { type = b.type; is_placeholder = b.is_placeholder; name = b.name })
copied-SameMembers b c e = record {
  flavors = rw e (copied_flavor b.shape);
  names = refl;
  placeholders = refl;
  types = refl;
}

-- Whatever the fresh object takes over, it compares as equal to the original.
twin-equal :
    (n : ℕ) (s : Store) (a : ℕ) (b c : Btype)
    → at s a ≡ ok b
    → is_set b.shape ≡ true
    → c.shape ≡ copied_shape b.shape
    → SameMembers b c
    → equal (suc (suc n)) (s ++ (c ∷ [])) a (length s) ≡ ok true
unfolding equal
twin-equal n s a b c at_a set e m =
    let t = s ++ (c ∷ []) in
    equal_at_same t (equal (suc n) t) a (length s) b c (at-append s (c ∷ []) a at_a) (at-new s c) m
      (subst (λ k. equal_shapes (equal (suc n) t) b.shape k ≡ ok true) (sym e)
        (shapes_refl (equal (suc n) t) (equal_self n t) b.shape set))

-- A clone is a new object at the end of the store with the same children as the original, and no
-- other type changes. It compares as equal to the original, where the original's pointers that a
-- comparison follows are set.
pub clone-equal :
    (n : ℕ) (s : Store) (a : ℕ) (b : Btype) {c : ℕ} {t : Store}
    → at s a ≡ ok b
    → is_set b.shape ≡ true
    → clone s a ≡ ok (c, t)
    → (c ≡ length s) × ((x : Btype) × (t ≡ s ++ (x ∷ []))) × (equal (suc (suc n)) t a c ≡ ok true)
unfolding clone
clone-equal n s a b {c} {t} at_a set e =
    let (b₁, at₁, e₁) = >>=-eq-ok (at s a) _ e in
    let same : b₁ ≡ b = ground arith in
    let (o, made, e₂) = >>=-eq-ok (clone_shape s b₁.shape b₁.type b₁.location) _ e₁ in
    let (sh, loc) = clone_shape-copied s b₁.shape b₁.type b₁.location made in
    let o₁ : Btype = record o {
      type = b₁.type;
      is_placeholder = b₁.is_placeholder;
      name = b₁.name;
    } in
    let address : c ≡ length s = ground arith in
    let grown : t ≡ s ++ (o₁ ∷ []) = ground arith in
    let twin =
      twin-equal n s a b₁ o₁ at₁ (subst (λ (k : Btype). is_set k.shape ≡ true) (sym same) set) sh
        (copied-SameMembers b₁ o sh) in
    (
      address,
      (o₁, grown),
      subst (λ k. equal (suc (suc n)) k a c ≡ ok true) (sym grown)
          (subst (λ k. equal (suc (suc n)) (s ++ (o₁ ∷ [])) a k ≡ ok true) (sym address) twin),
    )
