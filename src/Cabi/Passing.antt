-- ===== src/Cabi/Passing.antt =====
-- What passing the regions of a parameter of go-llvm-cabi-oracle.cpp does to the `AbiState`.
use dragongo.Common.{
  suc, ◌+◌, ◌-◌, ◌^◌, ◌<◌, ◌≡◌, sym, ap, ◌∙◌, ◌++◌, append-nil, append_assoc, inl, inr, some, List,
  [], ◌∷◌, arith, if◌then◌else◌, >>=-eq-some, length, length-append, Option-cases, of_some,
}
use dragongo.Cabi.Types.{LlvmType, u32}
use dragongo.Cabi.Disp.{is_sse}
use dragongo.Cabi.Regions.{EightByteRegion, region_disp, register_requirements}
use dragongo.Cabi.{
  after_region, Passed, add_direct_int_arg, add_direct_sse_arg, pass_region, pass_regions,
}

-- Passing a region adds one type and one argument, and takes a register of its class if one is left.
record AddedRegion (r : EightByteRegion) (p q : Passed) : Type 0 where
  grown : length q.types ≡ suc (length p.types)
  counted : q.state.arg_count ≡ u32 (p.state.arg_count + 1)
  ints :
      q.state.avail_int_regs
      ≡ (if is_sse (region_disp r) then p.state.avail_int_regs else p.state.avail_int_regs - 1)
  sses :
      q.state.avail_sse_regs
      ≡ (if is_sse (region_disp r) then p.state.avail_sse_regs - 1 else p.state.avail_sse_regs)

pass_region-AddedRegion :
    (r : EightByteRegion) (p q : Passed) → pass_region r p ≡ some q → AddedRegion r p q
unfolding pass_region add_direct_int_arg add_direct_sse_arg
pass_region-AddedRegion r p q e = record {
  grown = elim (Option-cases r.abi_direct_type) [
    | inl none' ↦ ground arith
    | inr (t, some') ↦ ground (arith, length-append p.types (t ∷ []))
  ];
  counted = ground arith;
  ints = ground arith;
  sses = ground arith;
}

-- The regions' own types, in their order.
abbrev pub TypedAs : List EightByteRegion → List LlvmType → Type 0
TypedAs [] [] = Unit
TypedAs (r ∷ rs) (t ∷ ts) = (r.abi_direct_type ≡ some t) × TypedAs rs ts
TypedAs _ _ = ⊥

pass_region-types :
    (r : EightByteRegion) (p q : Passed)
    → pass_region r p ≡ some q
    → (t : LlvmType) × (r.abi_direct_type ≡ some t) × (q.types ≡ p.types ++ (t ∷ []))
unfolding pass_region after_region
pass_region-types r p q e = elim (Option-cases r.abi_direct_type) [
  | inl gone ↦ absurd (ground arith)
  | inr (t, typed) ↦ (t, typed, ground arith)
]

pub pass_regions-types :
    (rs : List EightByteRegion) (p q : Passed)
    → pass_regions rs p ≡ some q
    → (ts : List LlvmType) × (q.types ≡ p.types ++ ts) × TypedAs rs ts
unfolding pass_regions
pass_regions-types [] p q e =
    let same : p ≡ q = of_some e in
    ([], ap (λ (k : Passed). k.types) (sym same) ∙ sym (append-nil p.types), tt)
pass_regions-types (r ∷ rs) p q e =
    let (p', first, rest) = >>=-eq-some (pass_region r p) (λ p'. pass_regions rs p') e in
    let (t, typed, grown) = pass_region-types r p p' first in
    let (ts, all, types) = pass_regions-types rs p' q rest in
    (t ∷ ts, all ∙ rw grown (append_assoc p.types (t ∷ []) ts), (typed, types))

-- Passing all regions adds as many types and arguments, and takes what they require.
pub pass_regions_lem :
    (rs : List EightByteRegion) (p q : Passed)
    → pass_regions rs p ≡ some q
    → p.state.arg_count + length rs < 2 ^ 31
    → let (ints, sses) = register_requirements rs in
      (length q.types ≡ length p.types + length rs)
      × (q.state.arg_count ≡ p.state.arg_count + length rs)
      × (q.state.avail_int_regs ≡ p.state.avail_int_regs - ints)
      × (q.state.avail_sse_regs ≡ p.state.avail_sse_regs - sses)
unfolding pass_regions register_requirements
pass_regions_lem [] p q e small = let same : p ≡ q = of_some e in rw (← same) (omega arith)
pass_regions_lem (r ∷ rs) p q e small =
    let (p', first, rest) = >>=-eq-some (pass_region r p) (λ p'. pass_regions rs p') e in
    let a = pass_region-AddedRegion r p p' first in
    let fits : p'.state.arg_count ≡ p.state.arg_count + 1 = omega (arith, a.counted) in
    let ih = pass_regions_lem rs p' q rest (omega arith) in
    ground (arith, a.grown, a.ints, a.sses, ih)
