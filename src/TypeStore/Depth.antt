-- ===== src/TypeStore/Depth.antt =====
-- How deep `Btype::equal` of llvm-gofrontend/go-llvm-btype.cpp goes.
use dragongo.Common.{
  ℕ, zero, suc, ◌<◌, Bool, true, false, Option, none, some, List, [], ◌∷◌, ◌++◌, length, All,
  get_elem?, text_eq, ◌==◌, ◌≡◌, ◌≢◌, refl, arith, Bool-cases, Option-cases, inl, inr,
}
use dragongo.Common.Run.{Reason, Run, ok, stop, too_deep, null_pointer, out_of_rounds, ◌>>=◌, also}
use dragongo.TypeStore.{
  BtypedIdentifier, Signature, Shape, array_t, function_t, pointer_t, struct_t, Btype, Store, at,
}
use dragongo.TypeStore.Equal.{
  same_members, equal_children, equal_receivers, equal_fields, equal_params, both_or_neither,
  equal_elements, nel_size, equal_shapes, equal_at, equal,
}

abbrev one_or_none : Option ℕ → List ℕ
one_or_none none = []
one_or_none (some a) = a ∷ []

abbrev field_types : List BtypedIdentifier → List ℕ
field_types [] = []
field_types (f ∷ fs) = f.btype ∷ field_types fs

-- The types that a type refers to, and that a comparison goes into.
abbrev pub children : Shape → List ℕ
children (array_t e n) = one_or_none e
children (function_t g) = g.rtype ∷ (one_or_none g.receiver_type ++ g.param_types)
children (pointer_t p) = one_or_none p
children (struct_t fs) = field_types fs
children _ = []

-- A store without cycles: each type ranks above those that it refers to.
abbrev pub IsRanked : (ℕ → ℕ) → Store → Type 0
IsRanked rank s =
    (a : ℕ) (x : Btype) → at s a ≡ ok x → All (λ c. rank c < rank a) (children x.shape)

All-split {ℓ κ} :
    {A : Type ℓ} (P : A → Type κ) (xs ys : List A) → All P (xs ++ ys) → All P xs × All P ys
All-split P [] ys h = (tt, h)
All-split P (x ∷ xs) ys h = let (k, l) = All-split P xs ys h.1 in ((h.0, k), l)

All-weaken {ℓ κ μ} :
    {A : Type ℓ} {P : A → Type κ} {Q : A → Type μ} (xs : List A)
    → ((x : A) → P x → Q x)
    → All P xs
    → All Q xs
All-weaken [] f h = tt
All-weaken (x ∷ xs) f h = (f x h.0, All-weaken xs f h.1)

-- `also` stops for a reason only where one of its sides does.
also_deep : {bad : Reason} (a b : Run Bool) → a ≢ stop bad → b ≢ stop bad → also a b ≢ stop bad
also_deep (ok true) b h k = k
also_deep (ok false) b h k = λ e. ground arith
also_deep (stop r) b h k = h

ok_deep : {bad : Reason} (v : Bool) → ok v ≢ stop bad
ok_deep v e = ground arith

-- `bad` is not the reason for a null pointer.
module _ (bad : Reason) (other : null_pointer ≢ bad) (rec : ℕ → ℕ → Run Bool) where
  abbrev at_null : Run Bool
  at_null = stop null_pointer

  harmless : at_null ≢ stop bad
  harmless e = other (ground arith)

  -- No comparison of `c` with another type stops for that reason.
  abbrev Shallow : ℕ → Type 0
  Shallow c = (d : ℕ) → rec c d ≢ stop bad

  children_deep : (e f : Option ℕ) → All Shallow (one_or_none e) → equal_children rec e f ≢ stop bad
  children_deep (some e) (some f) h = h.0 f
  children_deep none none h = harmless
  children_deep (some e) none h = λ e. ground arith
  children_deep none (some f) h = λ e. ground arith

  receivers_deep :
      (e f : Option ℕ) → All Shallow (one_or_none e) → equal_receivers rec e f ≢ stop bad
  receivers_deep (some e) (some f) h = h.0 f
  receivers_deep none none h = λ e. ground arith
  receivers_deep (some e) none h = λ e. ground arith
  receivers_deep none (some f) h = λ e. ground arith

  fields_deep :
      (fs gs : List BtypedIdentifier)
      → All Shallow (field_types fs)
      → equal_fields rec fs gs ≢ stop bad
  unfolding equal_fields
  fields_deep [] gs h = λ e. ground arith
  fields_deep (f ∷ fs) [] h = λ e. ground arith
  fields_deep (f ∷ fs) (g ∷ gs) h = also_deep (rec f.btype g.btype) _ (h.0 g.btype) (
      also_deep (ok (text_eq f.name g.name)) _ (ok_deep _)
        (also_deep (ok (f.location == g.location)) _ (ok_deep _) (fields_deep fs gs h.1)))

  params_deep : (ps qs : List ℕ) → All Shallow ps → equal_params rec ps qs ≢ stop bad
  unfolding equal_params
  params_deep [] qs h = λ e. ground arith
  params_deep (p ∷ ps) [] h = λ e. ground arith
  params_deep (p ∷ ps) (q ∷ qs) h = also_deep (rec p q) _ (h.0 q) (params_deep ps qs h.1)

  lengths_deep :
      (e f n m : Option ℕ)
      → All Shallow (one_or_none e)
      → (nel_size n >>= λ i. nel_size m >>= λ j. equal_elements rec e f i j) ≢ stop bad
  lengths_deep e f none m h = harmless
  lengths_deep e f (some n) none h = harmless
  lengths_deep e f (some n) (some m) h = also_deep (ok (n == m)) _ (ok_deep _) (children_deep e f h)

  functions_deep :
      (g k : Signature)
      → All Shallow (children (function_t g))
      → equal_shapes rec (function_t g) (function_t k) ≢ stop bad
  unfolding equal_shapes
  functions_deep g k h =
      let (r, ps) = All-split Shallow (one_or_none g.receiver_type) g.param_types h.1 in
      also_deep (equal_receivers rec g.receiver_type k.receiver_type) _
        (receivers_deep g.receiver_type k.receiver_type r)
        (also_deep (rec g.rtype k.rtype) _ (h.0 k.rtype) (
          also_deep (ok (length g.param_types == length k.param_types)) _ (ok_deep _) (
            also_deep (equal_params rec g.param_types k.param_types) _
              (params_deep g.param_types k.param_types ps) (ok_deep _))))

  pub shapes_deep : (x y : Shape) → All Shallow (children x) → equal_shapes rec x y ≢ stop bad
  unfolding equal_shapes
  shapes_deep (pointer_t p) (pointer_t q) h = children_deep p q h
  shapes_deep (array_t e n) (array_t f m) h =
      also_deep (ok (both_or_neither e f)) _ (ok_deep _) (lengths_deep e f n m h)
  shapes_deep (struct_t fs) (struct_t gs) h =
      also_deep (ok (length fs == length gs)) _ (ok_deep _) (fields_deep fs gs h)
  shapes_deep (function_t g) (function_t k) h = functions_deep g k h
  shapes_deep x y h = λ e. ground arith

module _ (bad : Reason) (other : null_pointer ≢ bad) (s : Store) where
  at_deep :
      (rec : ℕ → ℕ → Run Bool) (a b : ℕ)
      → ((x : Btype) → at s a ≡ ok x → All (Shallow bad other rec) (children x.shape))
      → equal_at rec s a b ≢ stop bad
  unfolding equal_at at
  at_deep rec a b below = elim (Bool-cases (a == b)) [
    | inl e ↦ rw e (ok_deep true)
    | inr e ↦ elim (Option-cases (get_elem? s a)) [
      | inl u ↦ rw (e, u) (harmless bad other rec)
      | inr (x, u) ↦ elim (Option-cases (get_elem? s b)) [
        | inl v ↦ rw (e, u, v) (harmless bad other rec)
        | inr (y, v) ↦
            rw (e, u, v)
              (also_deep (ok (same_members x y)) _ (ok_deep _)
                (shapes_deep bad other rec x.shape y.shape (below x (rw u refl))))
      ]
    ]
  ]

All-of {ℓ κ} : {A : Type ℓ} {P : A → Type κ} (xs : List A) → ((x : A) → P x) → All P xs
All-of [] f = tt
All-of (x ∷ xs) f = (f x, All-of xs f)

-- Rounds of completing types are nothing to a comparison.
pub equal-rounds : (n : ℕ) (s : Store) (a b : ℕ) → equal n s a b ≢ stop out_of_rounds
unfolding equal
equal-rounds zero s a b = λ e. ground arith
equal-rounds (suc n) s a b =
    at_deep out_of_rounds (λ e. ground arith) s (equal n s) a b
      λ x at_a. All-of (children x.shape) λ c d. equal-rounds n s c d

-- In a store without cycles every comparison ends: fuel above the rank of one of the two types is
-- enough, whatever the other one is.
pub equal-returns :
    (rank : ℕ → ℕ) (s : Store) (n a b : ℕ)
    → IsRanked rank s
    → rank a < n
    → equal n s a b ≢ stop too_deep
unfolding equal
equal-returns rank s zero a b ranked h = absurd (omega arith)
equal-returns rank s (suc n) a b ranked h =
    at_deep too_deep (λ e. ground arith) s (equal n s) a b
      λ x at_a.
        All-weaken (children x.shape) (λ c lower d. equal-returns rank s n c d ranked (omega arith))
          (ranked a x at_a)
