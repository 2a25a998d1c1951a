-- ===== src/Cabi/Typed.antt =====
-- The types and attributes of the regions that go-llvm-cabi-oracle.cpp classifies.
use dragongo.Common.{
  ℕ, zero, suc, ◌+◌, ◌*◌, ◌≡◌, refl, sym, ap, subst, ◌∙◌, ◌⊎◌, inl, inr, ◌++◌, Bool, true, false,
  some, List, [], ◌∷◌, arith, leb, if◌then◌else◌, >>=-eq-some, assert, length, All, All-append,
  Option-cases, of_some,
}
use dragongo.Cabi.Types.{
  LlvmType, Btype, Fields, aux_type, float_type, pointer_type, function_type, integer_type,
  array_type, struct_type, DataLayout, type, type_size, u32,
}
use dragongo.Cabi.Regions.{EightByteRegion, attr_none}
use dragongo.Cabi.Explode.{
  Leaf, one, extend_last, place_leaf, place_leaves, place_element, place_elements, scalar_region,
  incorporate_scalar, determine_abi_type, determine_abi_types, explode_struct, explode_array,
  explode, eight_byte_info, add_leaf_types,
}

abbrev pub Plain : List EightByteRegion → Type 0
Plain rs = All (λ (r : EightByteRegion). r.attr ≡ attr_none) rs

extend_last-Plain :
    (rs : List EightByteRegion) (t : LlvmType) (off : ℕ) → Plain rs → Plain (extend_last rs t off)
unfolding extend_last
extend_last-Plain [] t off h = tt
extend_last-Plain (r ∷ []) t off h = h
extend_last-Plain (r ∷ r' ∷ rs) t off h = (h.0, extend_last-Plain (r' ∷ rs) t off h.1)

grown-Plain :
    (b : Bool) (rs : List EightByteRegion) (t : LlvmType) (off : ℕ)
    → Plain rs
    → Plain (if b then rs ++ (one t off ∷ []) else extend_last rs t off)
grown-Plain true rs t off h = All-append _ rs (one t off ∷ []) h (refl, tt)
grown-Plain false rs t off h = extend_last-Plain rs t off h

place_leaves-Plain :
    (rs : List EightByteRegion) (ls : List Leaf) → Plain rs → Plain (place_leaves rs ls)
unfolding place_leaves place_leaf
place_leaves-Plain rs [] h = h
place_leaves-Plain rs ((t, off) ∷ ls) h =
    place_leaves-Plain (place_leaf rs t off) ls (grown-Plain _ rs t off h)

place_elements-Plain :
    (n idx e cur : ℕ) (t : LlvmType) (rs : List EightByteRegion)
    → Plain rs
    → Plain (place_elements n idx e cur t rs)
unfolding place_elements place_element
place_elements-Plain zero idx e cur t rs h = h
place_elements-Plain (suc n) idx e cur t rs h =
    place_elements-Plain n (idx + 1) e (u32 (cur + u32 (idx * e))) t
      (place_element cur rs t (u32 (idx * e))) (grown-Plain _ rs t (u32 (idx * e)) h)

-- Regions that can be passed: at most one carries an attribute, and then it is alone.
abbrev pub OneAttr : List EightByteRegion → Type 0
OneAttr rs = Plain rs ⊎ (length rs ≡ 1)

scalar_one :
    (dl : DataLayout) (bt : Btype) (rs : List EightByteRegion)
    → incorporate_scalar dl bt ≡ some rs
    → length rs ≡ 1
unfolding incorporate_scalar
scalar_one dl bt rs e =
    let (_, _, e₁) = >>=-eq-some (assert (leb (dl.alloc_size (type bt)) 8)) _ e in
    let (r, _, e₂) = >>=-eq-some (scalar_region dl bt) (λ r. some (r ∷ [])) e₁ in
    ap length (sym (of_some e₂))

pub struct-Plain :
    (dl : DataLayout) (fields : Fields) (t : LlvmType) (rs : List EightByteRegion)
    → explode_struct dl fields t ≡ some rs
    → Plain rs
unfolding explode_struct
struct-Plain dl fields t rs e =
    let (_, _, e₁) = >>=-eq-some (assert (leb (dl.alloc_size t) 16)) _ e in
    let (ls, _, e₂) =
      >>=-eq-some (add_leaf_types dl (struct_type fields t) 0) (λ ls. some (place_leaves [] ls))
        e₁ in
    subst Plain (of_some e₂) (place_leaves-Plain [] ls tt)

pub array-Plain :
    (dl : DataLayout) (elem : Btype) (n : ℕ) (t : LlvmType) (rs : List EightByteRegion)
    → explode_array dl elem n t ≡ some rs
    → Plain rs
unfolding explode_array
array-Plain dl elem n t rs e =
    let (_, _, e₁) = >>=-eq-some (assert (leb (dl.alloc_size t) 16)) _ e in
    let (size, _, e₂) = >>=-eq-some (type_size dl (type elem)) _ e₁ in
    subst Plain (of_some e₂) (place_elements-Plain n 0 (u32 size) 0 (type elem) [] tt)

explode-OneAttr :
    (dl : DataLayout) (bt : Btype) (rs : List EightByteRegion)
    → explode dl bt ≡ some rs
    → OneAttr rs
unfolding explode
explode-OneAttr dl (struct_type fields t) rs e = inl (struct-Plain dl fields t rs e)
explode-OneAttr dl (array_type elem n t) rs e = inl (array-Plain dl elem n t rs e)
explode-OneAttr dl (aux_type t) rs e = inr (scalar_one dl (aux_type t) rs e)
explode-OneAttr dl (float_type t) rs e = inr (scalar_one dl (float_type t) rs e)
explode-OneAttr dl (pointer_type t) rs e = inr (scalar_one dl (pointer_type t) rs e)
explode-OneAttr dl (function_type t) rs e = inr (scalar_one dl (function_type t) rs e)
explode-OneAttr dl (integer_type u t) rs e = inr (scalar_one dl (integer_type u t) rs e)

abbrev pub HasType : EightByteRegion → Type 0
HasType r = (t : LlvmType) × (r.abi_direct_type ≡ some t)

pub determine_one :
    (dl : DataLayout) (r r' : EightByteRegion)
    → determine_abi_type dl r ≡ some r'
    → (r'.attr ≡ r.attr) × HasType r'
unfolding determine_abi_type
determine_one dl r r' e = elim (Option-cases r'.abi_direct_type) [
  | inl gone ↦ absurd (ground arith)
  | inr (t, found) ↦ (ground arith, (t, found))
]

determine-All :
    (dl : DataLayout) (rs rs' : List EightByteRegion)
    → determine_abi_types dl rs ≡ some rs'
    → All HasType rs' × (length rs' ≡ length rs) × (Plain rs → Plain rs')
unfolding determine_abi_types
determine-All dl [] rs' e =
    subst (λ k. All HasType k × (length k ≡ 0) × (Unit {0} → Plain k)) (of_some e)
      (tt, refl, λ h. h)
determine-All dl (r ∷ rs) rs' e =
    let (r₁, f₁, e₁) = >>=-eq-some (determine_abi_type dl r) _ e in
    let (rs₁, f₂, e₂) = >>=-eq-some (determine_abi_types dl rs) (λ rs₁. some (r₁ ∷ rs₁)) e₁ in
    let (same, typed) = determine_one dl r r₁ f₁ in
    let (all_typed, many, plain) = determine-All dl rs rs₁ f₂ in
    subst (λ k. All HasType k × (length k ≡ suc (length rs)) × (Plain (r ∷ rs) → Plain k))
      (of_some e₂) ((typed, all_typed), ap suc many, λ h. (same ∙ h.0, plain h.1))

-- The regions of a type that is classified all have a type, and one attribute at most.
pub eight_byte_info_lem :
    (dl : DataLayout) (bt : Btype) (rs : List EightByteRegion)
    → eight_byte_info dl bt ≡ some rs
    → All HasType rs × OneAttr rs
unfolding eight_byte_info
eight_byte_info_lem dl bt rs e =
    let (ebrs, exploded, e₁) = >>=-eq-some (explode dl bt) _ e in
    let (_, _, e₂) =
      >>=-eq-some (assert (leb (length ebrs) 2)) (λ _. determine_abi_types dl ebrs) e₁ in
    let (typed, many, plain) = determine-All dl ebrs rs e₂ in
    (
      typed,
      elim (explode-OneAttr dl bt ebrs exploded) [
        | inl p ↦ inl (plain p)
        | inr one' ↦ inr (many ∙ one')
      ],
    )
