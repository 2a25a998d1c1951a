-- ===== src/TypeStore/Transitive.antt =====
-- Chains of equal types of llvm-gofrontend/go-llvm-btype.cpp, and their hashes.
use dragongo.Common.{
  ℕ, zero, suc, Bool, true, Option, none, some, List, [], ◌∷◌, length, text_eq, text_eq_sound,
  text_eq_refl, ◌==◌, ◌≡◌, refl, arith, sym, ◌∙◌, Bool-cases, ◌⊎◌, inl, inr, subst,
}
use dragongo.Common.Run.{Run, ok, >>=-eq-ok}
use dragongo.TypeStore.{
  BtypedIdentifier, Signature, Shape, array_t, float_t, function_t, integer_t, pointer_t, struct_t,
  aux_t, Btype, Store, at,
}
use dragongo.TypeStore.Equal.{
  bool_eq, same_members, equal_children, equal_receivers, equal_fields, equal_params, equal_shapes,
  equal_at, equal, Hashes, hash,
}
use dragongo.TypeStore.Members.{
  bool_eq_sound, bool_eq_refl, SameMembers, same_members-SameMembers, SameMembers-same_members,
  also-true, both_true, SameMembers-trans,
}

module _ {rec : ℕ → ℕ → Run Bool}
    (tr : (a b c : ℕ) → rec a b ≡ ok true → rec b c ≡ ok true → rec a c ≡ ok true) where
  equal_children_trans :
      (e f g : Option ℕ)
      → equal_children rec e f ≡ ok true
      → equal_children rec f g ≡ ok true
      → equal_children rec e g ≡ ok true
  equal_children_trans (some e) (some f) (some g) h k = tr e f g h k
  equal_children_trans e f g h k = ground arith

  equal_receivers_trans :
      (e f g : Option ℕ)
      → equal_receivers rec e f ≡ ok true
      → equal_receivers rec f g ≡ ok true
      → equal_receivers rec e g ≡ ok true
  equal_receivers_trans none none none h k = refl
  equal_receivers_trans (some e) (some f) (some g) h k = tr e f g h k
  equal_receivers_trans e f g h k = ground arith

  equal_fields_trans :
      (xs ys zs : List BtypedIdentifier)
      → length xs ≡ length ys
      → length ys ≡ length zs
      → equal_fields rec xs ys ≡ ok true
      → equal_fields rec ys zs ≡ ok true
      → equal_fields rec xs zs ≡ ok true
  unfolding equal_fields
  equal_fields_trans [] [] [] l m h k = refl
  equal_fields_trans (x ∷ xs) (y ∷ ys) (z ∷ zs) l m h k =
      let (h₁, hr) = also-true (rec x.btype y.btype) _ h in
      let (h₂, hr₂) = also-true (ok (text_eq x.name y.name)) _ hr in
      let (h₃, h₄) = also-true (ok (x.location == y.location)) _ hr₂ in
      let (k₁, kr) = also-true (rec y.btype z.btype) _ k in
      let (k₂, kr₂) = also-true (ok (text_eq y.name z.name)) _ kr in
      let (k₃, k₄) = also-true (ok (y.location == z.location)) _ kr₂ in
      let same_name : x.name ≡ z.name =
        text_eq_sound x.name y.name (ground arith) ∙ text_eq_sound y.name z.name (ground arith) in
      both_true (tr x.btype y.btype z.btype h₁ k₁) (
        both_true {a = ok (text_eq x.name z.name)} (rw (same_name, text_eq_refl) refl) (
          both_true {a = ok (x.location == z.location)} (ground arith)
            (equal_fields_trans xs ys zs (omega arith) (omega arith) h₄ k₄)))
  equal_fields_trans xs ys zs l m h k = absurd (omega arith)

  equal_params_trans :
      (xs ys zs : List ℕ)
      → length xs ≡ length ys
      → length ys ≡ length zs
      → equal_params rec xs ys ≡ ok true
      → equal_params rec ys zs ≡ ok true
      → equal_params rec xs zs ≡ ok true
  unfolding equal_params
  equal_params_trans [] [] [] l m h k = refl
  equal_params_trans (x ∷ xs) (y ∷ ys) (z ∷ zs) l m h k =
      let (h₁, h₂) = also-true (rec x y) _ h in
      let (k₁, k₂) = also-true (rec y z) _ k in
      both_true (tr x y z h₁ k₁) (equal_params_trans xs ys zs (omega arith) (omega arith) h₂ k₂)
  equal_params_trans xs ys zs l m h k = absurd (omega arith)

  equal_arrays_trans :
      (e f g n m o : Option ℕ)
      → equal_shapes rec (array_t e n) (array_t f m) ≡ ok true
      → equal_shapes rec (array_t f m) (array_t g o) ≡ ok true
      → equal_shapes rec (array_t e n) (array_t g o) ≡ ok true
  unfolding equal_shapes
  equal_arrays_trans (some e) (some f) (some g) (some n) (some m) (some o) h k =
      let (h₁, h₂) = also-true (ok (n == m)) _ h in
      let (k₁, k₂) = also-true (ok (m == o)) _ k in
      both_true {a = ok (n == o)} (ground arith) (tr e f g h₂ k₂)
  equal_arrays_trans e f g n m o h k = ground arith

  equal_functions_trans :
      (f g i : Signature)
      → equal_shapes rec (function_t f) (function_t g) ≡ ok true
      → equal_shapes rec (function_t g) (function_t i) ≡ ok true
      → equal_shapes rec (function_t f) (function_t i) ≡ ok true
  unfolding equal_shapes
  equal_functions_trans f g i h k =
      let (h₁, hr) = also-true (equal_receivers rec f.receiver_type g.receiver_type) _ h in
      let (h₂, hr₂) = also-true (rec f.rtype g.rtype) _ hr in
      let (h₃, hr₃) = also-true (ok (length f.param_types == length g.param_types)) _ hr₂ in
      let (h₄, h₅) = also-true (equal_params rec f.param_types g.param_types) _ hr₃ in
      let (k₁, kr) = also-true (equal_receivers rec g.receiver_type i.receiver_type) _ k in
      let (k₂, kr₂) = also-true (rec g.rtype i.rtype) _ kr in
      let (k₃, kr₃) = also-true (ok (length g.param_types == length i.param_types)) _ kr₂ in
      let (k₄, k₅) = also-true (equal_params rec g.param_types i.param_types) _ kr₃ in
      let l : length f.param_types ≡ length g.param_types = ground arith in
      let m : length g.param_types ≡ length i.param_types = ground arith in
      let abi : f.follows_cabi ≡ i.follows_cabi =
        bool_eq_sound f.follows_cabi g.follows_cabi (ground arith)
        ∙ bool_eq_sound g.follows_cabi i.follows_cabi (ground arith) in
      both_true (equal_receivers_trans f.receiver_type g.receiver_type i.receiver_type h₁ k₁) (
        both_true (tr f.rtype g.rtype i.rtype h₂ k₂) (
          both_true {a = ok (length f.param_types == length i.param_types)} (ground arith) (
            both_true {b = ok (bool_eq f.follows_cabi i.follows_cabi)}
              (equal_params_trans f.param_types g.param_types i.param_types l m h₄ k₄)
              (rw (abi, bool_eq_refl) refl))))

  equal_shapes_trans :
      (x y z : Shape)
      → equal_shapes rec x y ≡ ok true
      → equal_shapes rec y z ≡ ok true
      → equal_shapes rec x z ≡ ok true
  unfolding equal_shapes
  equal_shapes_trans aux_t aux_t z h k = k
  equal_shapes_trans (float_t b) (float_t c) (float_t d) h k = refl
  equal_shapes_trans (integer_t b u) (integer_t c v) (integer_t d w) h k =
      let e : u ≡ w = bool_eq_sound u v (ground arith) ∙ bool_eq_sound v w (ground arith) in
      rw (e, bool_eq_refl) refl
  equal_shapes_trans (pointer_t p) (pointer_t q) (pointer_t r) h k = equal_children_trans p q r h k
  equal_shapes_trans (array_t e n) (array_t f m) (array_t g o) h k =
      equal_arrays_trans e f g n m o h k
  equal_shapes_trans (struct_t fs) (struct_t gs) (struct_t hs) h k =
      let (l, h₁) = also-true (ok (length fs == length gs)) _ h in
      let (m, k₁) = also-true (ok (length gs == length hs)) _ k in
      both_true {a = ok (length fs == length hs)} (ground arith)
        (equal_fields_trans fs gs hs (ground arith) (ground arith) h₁ k₁)
  equal_shapes_trans (function_t f) (function_t g) (function_t i) h k =
      equal_functions_trans f g i h k
  equal_shapes_trans x y z h k = ground arith

-- Two types at different addresses that compare as equal.
pub record Compared (rec : ℕ → ℕ → Run Bool) (s : Store) (a b : ℕ) : Type 0 where
  pub left : Btype
  pub right : Btype
  pub left_at : at s a ≡ ok left
  pub right_at : at s b ≡ ok right
  pub members : SameMembers left right
  pub shapes : equal_shapes rec left.shape right.shape ≡ ok true

module _ (s : Store) where
  pub equal_at-Compared :
      {rec : ℕ → ℕ → Run Bool} (a b : ℕ)
      → equal_at rec s a b ≡ ok true
      → (a ≡ b) ⊎ Compared rec s a b
  unfolding equal_at
  equal_at-Compared {rec} a b h = elim (Bool-cases (a == b)) [
    | inl e ↦ inl (ground arith)
    | inr e ↦
        let (x, at_a, h₁) = >>=-eq-ok (at s a) _ (rw e at h) in
        let (y, at_b, h₂) = >>=-eq-ok (at s b) _ h₁ in
        let (m, sh) = also-true (ok (same_members x y)) _ h₂ in
        inr (record {
          left = x;
          right = y;
          left_at = at_a;
          right_at = at_b;
          members = same_members-SameMembers x y (ground arith);
          shapes = sh;
        })
  ]

  pub equal_at_same :
      (rec : ℕ → ℕ → Run Bool) (a b : ℕ) (x y : Btype)
      → at s a ≡ ok x
      → at s b ≡ ok y
      → SameMembers x y
      → equal_shapes rec x.shape y.shape ≡ ok true
      → equal_at rec s a b ≡ ok true
  unfolding equal_at
  equal_at_same rec a b x y at_a at_b m sh = elim (Bool-cases (a == b)) [
    | inl e ↦ rw e refl
    | inr e ↦ rw (e, at_a, at_b, SameMembers-same_members m) sh
  ]

  -- Three types in a row, where the one in the middle was read twice.
  Compared-trans :
      {rec : ℕ → ℕ → Run Bool}
      (tr : (a b c : ℕ) → rec a b ≡ ok true → rec b c ≡ ok true → rec a c ≡ ok true) (a b c : ℕ)
      → Compared rec s a b
      → Compared rec s b c
      → equal_at rec s a c ≡ ok true
  Compared-trans {rec} tr a b c p q =
      let same : q.left ≡ p.right = ground arith in
      equal_at_same rec a c p.left q.right p.left_at q.right_at
        (SameMembers-trans p.members (subst (λ t. SameMembers t q.right) same q.members))
        (equal_shapes_trans tr p.left.shape p.right.shape q.right.shape p.shapes
          (subst (λ (t : Btype). equal_shapes rec t.shape q.right.shape ≡ ok true) same q.shapes))

  -- Types that are equal to the same type are equal, at any depth that suffices for the two
  -- comparisons with it.
  pub equal_trans :
      (n a b c : ℕ) → equal n s a b ≡ ok true → equal n s b c ≡ ok true → equal n s a c ≡ ok true
  unfolding equal
  equal_trans zero a b c h k = ground arith
  equal_trans (suc n) a b c h k = elim (equal_at-Compared a b h) [
    | inl e ↦ subst (λ t. equal_at (equal n s) s t c ≡ ok true) (sym e) k
    | inr p ↦ elim (equal_at-Compared b c k) [
      | inl e ↦ subst (λ t. equal_at (equal n s) s a t ≡ ok true) e h
      | inr q ↦ Compared-trans (equal_trans n) a b c p q
    ]
  ]

  -- Equal types have the same hash, as the set of anonymous types requires, whatever the hashes of
  -- names and of LLVM types are.
  pub hash-equal :
      (hs : Hashes) (n a b : ℕ) (x y : Btype)
      → at s a ≡ ok x
      → at s b ≡ ok y
      → equal n s a b ≡ ok true
      → hash hs x ≡ hash hs y
  unfolding equal hash
  hash-equal hs zero a b x y at_a at_b h = ground arith
  hash-equal hs (suc n) a b x y at_a at_b h = elim (equal_at-Compared a b h) [
    | inl e ↦ let same : x ≡ y = ground arith in rw same refl
    | inr p ↦
        let u : p.left ≡ x = ground arith in
        let v : p.right ≡ y = ground arith in
        let m : SameMembers x y = rw (u, v) at p.members in rw (m.names, m.types, m.flavors) refl
  ]
