-- ===== src/Cabi/Extended.antt =====
-- Which entries of go-llvm-cabi-oracle.cpp for parameters carry an attribute.
use dragongo.Common.{
  ◌+◌, ◌*◌, ◌^◌, ◌≤◌, ◌<◌, ◌≡◌, refl, sym, ◌∙◌, subst, ◌⊎◌, inl, inr, some, List, [], ◌∷◌, arith,
  leb, >>=-eq-some, assert, length, length-append, All, Option-cases, of_some,
}
use dragongo.Cabi.Types.{
  Btype, aux_type, float_type, pointer_type, function_type, integer_type, array_type, struct_type,
  DataLayout, type,
}
use dragongo.Cabi.Regions.{CabiParamAttr, EightByteRegion, attr_none, sext, zext}
use dragongo.Cabi.Explode.{
  scalar_region, incorporate_scalar, determine_abi_type, determine_abi_types, explode,
  eight_byte_info,
}
use dragongo.Cabi.Typed.{Plain, struct-Plain, array-Plain, determine_one}
use dragongo.Cabi.State.{
  ParamOutcome, analyze_abi_param-ParamOutcome, classify_arg_type_cases, RegistersLeft,
  can_pass_directly_cases,
}
use dragongo.Cabi.{
  direct, ignore, indirect, CabiParamInfo, AbiState, Passed, several, pass_region, pass_regions,
  in_registers, aux_is_simple, pass_param, analyze_abi_param, analyze_abi_params, after_region,
}
use dragongo.Cabi.Places.{outcome-IsCounted, params_cons}

-- What the analysis of a parameter gives it besides its place.
abbrev pub IsPassable : CabiParamInfo → Type 0
IsPassable info =
    (info.disp ≡ ignore)
    ⊎ ((info.disp ≡ indirect) × (length info.abi_types ≡ 1))
    ⊎ ((info.disp ≡ direct) × (info.attr ≡ attr_none))
    ⊎ ((info.disp ≡ direct)
        × ((info.attr ≡ sext) ⊎ (info.attr ≡ zext))
        × (1 ≤ length info.abi_types))

abbrev Known : EightByteRegion → Type 0
Known r = (r.attr ≡ attr_none) ⊎ ((r.attr ≡ sext) ⊎ (r.attr ≡ zext))

Plain-Known : (rs : List EightByteRegion) → Plain rs → All Known rs
Plain-Known [] h = tt
Plain-Known (r ∷ rs) h = (inl h.0, Plain-Known rs h.1)

scalar_region-Known :
    (dl : DataLayout) (bt : Btype) (r : EightByteRegion) → scalar_region dl bt ≡ some r → Known r
unfolding scalar_region
scalar_region-Known dl (integer_type unsigned t) r e = ground arith
scalar_region-Known dl (struct_type fields t) r e = ground arith
scalar_region-Known dl (array_type elem n t) r e = ground arith
scalar_region-Known dl (aux_type t) r e = ground arith
scalar_region-Known dl (float_type t) r e = ground arith
scalar_region-Known dl (pointer_type t) r e = ground arith
scalar_region-Known dl (function_type t) r e = ground arith

scalar-Known :
    (dl : DataLayout) (bt : Btype) (rs : List EightByteRegion)
    → incorporate_scalar dl bt ≡ some rs
    → All Known rs
unfolding incorporate_scalar
scalar-Known dl bt rs e =
    let (_, _, e₁) = >>=-eq-some (assert (leb (dl.alloc_size (type bt)) 8)) _ e in
    let (r, f, e₂) = >>=-eq-some (scalar_region dl bt) (λ r. some (r ∷ [])) e₁ in
    subst (All Known) (of_some e₂) (scalar_region-Known dl bt r f, tt)

explode-Known :
    (dl : DataLayout) (bt : Btype) (rs : List EightByteRegion)
    → explode dl bt ≡ some rs
    → All Known rs
unfolding explode
explode-Known dl (struct_type fields t) rs e = Plain-Known rs (struct-Plain dl fields t rs e)
explode-Known dl (array_type elem n t) rs e = Plain-Known rs (array-Plain dl elem n t rs e)
explode-Known dl (aux_type t) rs e = scalar-Known dl (aux_type t) rs e
explode-Known dl (float_type t) rs e = scalar-Known dl (float_type t) rs e
explode-Known dl (pointer_type t) rs e = scalar-Known dl (pointer_type t) rs e
explode-Known dl (function_type t) rs e = scalar-Known dl (function_type t) rs e
explode-Known dl (integer_type u t) rs e = scalar-Known dl (integer_type u t) rs e

determine-Known :
    (dl : DataLayout) (rs rs' : List EightByteRegion)
    → determine_abi_types dl rs ≡ some rs'
    → All Known rs
    → All Known rs'
unfolding determine_abi_types
determine-Known dl [] rs' e known = subst (All Known) (of_some e) tt
determine-Known dl (r ∷ rs) rs' e known =
    let (r₁, f₁, e₁) = >>=-eq-some (determine_abi_type dl r) _ e in
    let (rs₁, f₂, e₂) = >>=-eq-some (determine_abi_types dl rs) (λ rs₁. some (r₁ ∷ rs₁)) e₁ in
    let same = (determine_one dl r r₁ f₁).0 in
    subst (All Known) (of_some e₂) (
      subst (λ (a : CabiParamAttr). (a ≡ attr_none) ⊎ ((a ≡ sext) ⊎ (a ≡ zext))) (sym same) known.0,
      determine-Known dl rs rs₁ f₂ known.1,
    )

eight_byte_info-Known :
    (dl : DataLayout) (bt : Btype) (rs : List EightByteRegion)
    → eight_byte_info dl bt ≡ some rs
    → All Known rs
unfolding eight_byte_info
eight_byte_info-Known dl bt rs e =
    let (ebrs, exploded, e₁) = >>=-eq-some (explode dl bt) _ e in
    let (_, _, e₂) =
      >>=-eq-some (assert (leb (length ebrs) 2)) (λ _. determine_abi_types dl ebrs) e₁ in
    determine-Known dl ebrs rs e₂ (explode-Known dl bt ebrs exploded)

-- An attribute is there only together with a type.
abbrev Extended : Passed → Type 0
Extended p = (p.attr ≡ attr_none) ⊎ (((p.attr ≡ sext) ⊎ (p.attr ≡ zext)) × (1 ≤ length p.types))

pass_region-Extended :
    (r : EightByteRegion) (p q : Passed)
    → pass_region r p ≡ some q
    → Known r
    → Extended p
    → Extended q
unfolding pass_region after_region
pass_region-Extended r p q e known h = elim (Option-cases r.abi_direct_type) [
  | inl gone ↦ absurd (ground arith)
  | inr (t, typed) ↦ let many = length-append p.types (t ∷ []) in ground arith
]

pass_regions-Extended :
    (rs : List EightByteRegion) (p q : Passed)
    → pass_regions rs p ≡ some q
    → All Known rs
    → Extended p
    → Extended q
unfolding pass_regions
pass_regions-Extended [] p q e known h = subst Extended (of_some e) h
pass_regions-Extended (r ∷ rs) p q e known h =
    let (p', first, rest) = >>=-eq-some (pass_region r p) (λ p'. pass_regions rs p') e in
    pass_regions-Extended rs p' q rest known.1 (pass_region-Extended r p p' first known.0 h)

in_registers-IsPassable :
    (rs : List EightByteRegion) (s : AbiState) {info : CabiParamInfo} {s' : AbiState}
    → in_registers rs s ≡ some (info, s')
    → All Known rs
    → IsPassable info
unfolding in_registers several
in_registers-IsPassable rs s e known =
    let start : Passed = record { types = []; attr = attr_none; state = s } in
    let (p, first, rest) = >>=-eq-some (pass_regions rs start) _ e in
    let extended = pass_regions-Extended rs start p first known (inl refl) in ground arith

pass_param-registers :
    (dl : DataLayout) (bt : Btype) (s : AbiState) (rs : List EightByteRegion)
    → (0 < dl.alloc_size (type bt)) × (dl.alloc_size (type bt) ≤ 16)
    → eight_byte_info dl bt ≡ some rs
    → (length rs ≡ 1) ⊎ RegistersLeft rs s
    → pass_param dl bt s ≡ in_registers rs s
unfolding pass_param
pass_param-registers dl bt s rs sized er c = elim (classify_arg_type_cases dl (type bt)) [
  | inl (z, k) ↦ absurd (omega arith)
  | inr (inl (z, k)) ↦ absurd (omega arith)
  | inr (inr (z, l, k)) ↦ elim (can_pass_directly_cases rs s) [
    | inl (b, _) ↦ rw (pass_param, k, er, b) refl
    | inr (b, many, short) ↦ absurd (ground (arith, many, short, c))
  ]
]

pub analyze_abi_param-IsPassable :
    (dl : DataLayout) (bt : Btype) (s : AbiState) {info : CabiParamInfo} {s' : AbiState}
    → analyze_abi_param dl bt s ≡ some (info, s')
    → s.arg_count + 2 < 2 ^ 31
    → IsPassable info
unfolding analyze_abi_param
analyze_abi_param-IsPassable dl bt s {info} {s'} e small =
    elim (analyze_abi_param-ParamOutcome dl bt s e small) [
      | ParamOutcome.ignored z i n ↦ inl (ground arith)
      | ParamOutcome.memory z i n ↦ inr (inl (ground arith))
      | ParamOutcome.registers rs er c sized i n ↦
          let (_, _, e₁) = >>=-eq-some (assert (aux_is_simple bt)) (λ _. pass_param dl bt s) e in
          in_registers-IsPassable rs s (sym (pass_param-registers dl bt s rs sized er c) ∙ e₁)
            (eight_byte_info-Known dl bt rs er)
    ]

pub analyze_abi_params-IsPassable :
    (dl : DataLayout) (bts : List Btype) (s : AbiState) {infos : List CabiParamInfo} {s' : AbiState}
    → analyze_abi_params dl bts s ≡ some (infos, s')
    → s.arg_count + 2 * length bts + 2 < 2 ^ 31
    → All IsPassable infos
unfolding analyze_abi_params
analyze_abi_params-IsPassable dl [] s {infos} e small =
    let none_left : [] ≡ infos = ground arith in subst (All IsPassable) none_left tt
analyze_abi_params-IsPassable dl (bt ∷ bts) s e small =
    let (info, s₁, infos₁, first, rest, same) = params_cons dl bt bts s e in
    let c =
      outcome-IsCounted dl bt s info s₁ (omega arith)
        (analyze_abi_param-ParamOutcome dl bt s first (omega arith)) in
    subst (All IsPassable) (sym same) (
      analyze_abi_param-IsPassable dl bt s first (omega arith),
      analyze_abi_params-IsPassable dl bts s₁ rest (omega (arith, c.counted, c.few)),
    )
