-- ===== src/Cabi/State.antt =====
-- What classifying one parameter or the result of go-llvm-cabi-oracle.cpp does to the `AbiState`.
use dragongo.Common.{
  ◌+◌, ◌-◌, ◌^◌, ◌≤◌, ◌<◌, ◌≡◌, ◌≢◌, refl, sym, ap, ◌∙◌, subst, ◌⊎◌, inl, inr, true, false, some,
  List, [], ◌∷◌, arith, leb, ◌==◌, if◌then◌else◌, >>=-eq-some, assert, length, leb→le, assert-true,
  ==_iff, Bool-cases, of_some,
}
use dragongo.Cabi.Types.{LlvmType, void, pointer, Btype, DataLayout, type}
use dragongo.Cabi.Regions.{EightByteRegion, attr_none, by_val, register_requirements}
use dragongo.Cabi.Explode.{eight_byte_info, determine_abi_type, determine_abi_types, explode}
use dragongo.Cabi.{
  direct, ignore, indirect, CabiParamInfo, AbiState, Passed, no_offset, several, single,
  add_indirect_arg, pass_regions, in_memory, in_registers, classify_arg_type, can_pass_directly,
  analyze_abi_param, pass_param, aux_is_simple,
}
use dragongo.Cabi.Passing.{TypedAs, pass_regions_lem, pass_regions-types}

-- Registers of both classes are left for all regions.
abbrev pub RegistersLeft : List EightByteRegion → AbiState → Type 0
RegistersLeft regions s =
    let (ints, sses) = register_requirements regions in
    (ints ≤ s.avail_int_regs) × (sses ≤ s.avail_sse_regs)

-- The integer registers or the SSE registers that are left are too few.
abbrev pub RegistersShort : List EightByteRegion → AbiState → Type 0
RegistersShort regions s =
    let (ints, sses) = register_requirements regions in
    (s.avail_int_regs < ints) ⊎ (s.avail_sse_regs < sses)

-- The three ways in which a parameter travels, with what each records and what it does to the state.
pub data ParamOutcome (dl : DataLayout) (bt : Btype) (s : AbiState) (info : CabiParamInfo)
    (s' : AbiState) : Type 0 where
  -- An empty type adds nothing.
  ignored :
      dl.alloc_size (type bt) ≡ 0
      → info
        ≡ record { abi_types = void ∷ []; disp = ignore; attr = attr_none; sig_offset = no_offset }
      → s' ≡ s
      → ParamOutcome dl bt s info s'
  -- A type of more than 16 bytes, or one of several regions for which registers are short, goes to
  -- memory: one pointer.
  memory :
      (16 < dl.alloc_size (type bt))
        ⊎ ((regions : List EightByteRegion) × (eight_byte_info dl bt ≡ some regions)
            × (length regions ≢ 1)
            × RegistersShort regions s)
      → info ≡ record {
        abi_types = pointer (type bt) ∷ [];
        disp = indirect;
        attr = by_val;
        sig_offset = s.arg_count;
      }
      → s' ≡ add_indirect_arg s
      → ParamOutcome dl bt s info s'
  -- A type of one region goes to a register even when none is left; one of several regions goes to
  -- registers when enough are left. There is one argument for each region.
  registers :
      (regions : List EightByteRegion)
      → eight_byte_info dl bt ≡ some regions
      → (length regions ≡ 1) ⊎ RegistersLeft regions s
      → (0 < dl.alloc_size (type bt)) × (dl.alloc_size (type bt) ≤ 16)
      → (info.disp ≡ direct)
        × (info.sig_offset ≡ s.arg_count)
        × (length info.abi_types ≡ length regions)
        × TypedAs regions info.abi_types
      → (s'.arg_count ≡ s.arg_count + length regions)
        × (s'.avail_int_regs ≡ s.avail_int_regs - (register_requirements regions).0)
        × (s'.avail_sse_regs ≡ s.avail_sse_regs - (register_requirements regions).1)
      → ParamOutcome dl bt s info s'

-- Each region needs one register.
register_requirements-total :
    (rs : List EightByteRegion)
    → (register_requirements rs).0 + (register_requirements rs).1 ≡ length rs
unfolding register_requirements
register_requirements-total [] = refl
register_requirements-total (r ∷ rs) = ground (arith, register_requirements-total rs)

-- When registers take the regions.
pub can_pass_directly_cases :
    (rs : List EightByteRegion) (s : AbiState)
    → ((can_pass_directly (register_requirements rs).0 (register_requirements rs).1 s ≡ true)
        × ((length rs ≡ 1) ⊎ RegistersLeft rs s))
      ⊎ ((can_pass_directly (register_requirements rs).0 (register_requirements rs).1 s ≡ false)
          × (length rs ≢ 1)
          × RegistersShort rs s)
unfolding can_pass_directly
can_pass_directly_cases rs s = let total = register_requirements-total rs in ground (arith, total)

length-determine :
    (dl : DataLayout) (rs rs' : List EightByteRegion)
    → determine_abi_types dl rs ≡ some rs'
    → length rs' ≡ length rs
unfolding determine_abi_types
length-determine dl [] rs' e = ap length (sym (of_some e))
length-determine dl (r ∷ rs) rs' e =
    let (r₁, _, e₁) = >>=-eq-some (determine_abi_type dl r) _ e in
    let (rs₁, f₂, e₂) = >>=-eq-some (determine_abi_types dl rs) (λ rs₁. some (r₁ ∷ rs₁)) e₁ in
    omega (arith, ap length (of_some e₂), length-determine dl rs rs₁ f₂)

-- There are at most two regions.
pub length-eight_byte_info :
    (dl : DataLayout) (bt : Btype) (rs : List EightByteRegion)
    → eight_byte_info dl bt ≡ some rs
    → length rs ≤ 2
unfolding eight_byte_info
length-eight_byte_info dl bt rs e =
    let (ebrs, _, e₁) = >>=-eq-some (explode dl bt) _ e in
    let (_, fits, e₂) =
      >>=-eq-some (assert (leb (length ebrs) 2)) (λ _. determine_abi_types dl ebrs) e₁ in
    let few : length ebrs ≤ 2 = leb→le _ _ (assert-true _ fits) in
    omega (arith, length-determine dl ebrs rs e₂)

in_memory_lem :
    (bt : Btype) (s : AbiState) {info : CabiParamInfo} {s' : AbiState}
    → in_memory bt s ≡ some (info, s')
    → (info ≡ record {
      abi_types = pointer (type bt) ∷ [];
      disp = indirect;
      attr = by_val;
      sig_offset = s.arg_count;
    })
      × (s' ≡ add_indirect_arg s)
unfolding in_memory single
in_memory_lem bt s e = ground arith

in_registers_lem :
    (rs : List EightByteRegion) (s : AbiState) {info : CabiParamInfo} {s' : AbiState}
    → in_registers rs s ≡ some (info, s')
    → s.arg_count + length rs < 2 ^ 31
    → ((info.disp ≡ direct)
        × (info.sig_offset ≡ s.arg_count)
        × (length info.abi_types ≡ length rs)
        × TypedAs rs info.abi_types)
      × ((s'.arg_count ≡ s.arg_count + length rs)
          × (s'.avail_int_regs ≡ s.avail_int_regs - (register_requirements rs).0)
          × (s'.avail_sse_regs ≡ s.avail_sse_regs - (register_requirements rs).1))
unfolding in_registers several
in_registers_lem rs s {info} {s'} e small =
    let start : Passed = record { types = []; attr = attr_none; state = s } in
    let (p, first, rest) = >>=-eq-some (pass_regions rs start) _ e in
    let facts = pass_regions_lem rs start p first small in
    let (ts, all, typed) = pass_regions-types rs start p first in
    let types : p.types ≡ info.abi_types = ground (arith, rest) in
    let ((d, at, many), counts) : ((info.disp ≡ direct)
          × (info.sig_offset ≡ s.arg_count)
          × (length info.abi_types ≡ length rs))
        × ((s'.arg_count ≡ s.arg_count + length rs)
            × (s'.avail_int_regs ≡ s.avail_int_regs - (register_requirements rs).0)
            × (s'.avail_sse_regs ≡ s.avail_sse_regs - (register_requirements rs).1)) =
      ground (arith, facts) in
    ((d, at, many, subst (TypedAs rs) (sym all ∙ types) typed), counts)

-- `classifyArgType` goes by the padded size.
pub classify_arg_type_cases :
    (dl : DataLayout) (t : LlvmType)
    → ((dl.alloc_size t ≡ 0) × (classify_arg_type dl t ≡ ignore))
      ⊎ ((16 < dl.alloc_size t) × (classify_arg_type dl t ≡ indirect))
      ⊎ ((0 < dl.alloc_size t) × (dl.alloc_size t ≤ 16) × (classify_arg_type dl t ≡ direct))
unfolding classify_arg_type
classify_arg_type_cases dl t = elim (Bool-cases (dl.alloc_size t == 0)) [
  | inl z ↦ inl ((==_iff _ _).0 z, rw z)
  | inr z ↦ elim (Bool-cases (leb (dl.alloc_size t) 16)) [
    | inl l ↦ inr (inr (ground arith, leb→le _ _ l, rw (z, l)))
    | inr l ↦ inr (inl (ground arith, rw (z, l)))
  ]
]

direct_outcome :
    (dl : DataLayout) (bt : Btype) (s : AbiState) (rs : List EightByteRegion) {info : CabiParamInfo}
    {s' : AbiState}
    → eight_byte_info dl bt ≡ some rs
    → (0 < dl.alloc_size (type bt)) × (dl.alloc_size (type bt) ≤ 16)
    → (if can_pass_directly (register_requirements rs).0 (register_requirements rs).1 s
        then in_registers rs s
        else in_memory bt s)
      ≡ some (info, s')
    → s.arg_count + 2 < 2 ^ 31
    → ParamOutcome dl bt s info s'
direct_outcome dl bt s rs er sized e small =
    let few = length-eight_byte_info dl bt rs er in
    elim (can_pass_directly_cases rs s) [
      | inr (c, several', short) ↦
          let (i, n) = in_memory_lem bt s (rw c at e) in
          ParamOutcome.memory (inr (rs, er, several', short)) i n
      | inl (c, left) ↦
          let (i, n) = in_registers_lem rs s (rw c at e) (omega arith) in
          ParamOutcome.registers rs er left sized i n
    ]

pass_param-ParamOutcome :
    (dl : DataLayout) (bt : Btype) (s : AbiState) {info : CabiParamInfo} {s' : AbiState}
    → pass_param dl bt s ≡ some (info, s')
    → s.arg_count + 2 < 2 ^ 31
    → ParamOutcome dl bt s info s'
unfolding pass_param single
pass_param-ParamOutcome dl bt s e small = elim (classify_arg_type_cases dl (type bt)) [
  | inl (z, k) ↦ ParamOutcome.ignored z (ground arith) (ground arith)
  | inr (inl (z, k)) ↦
      let (i, n) = in_memory_lem bt s (rw (k, pass_param) at e) in ParamOutcome.memory (inl z) i n
  | inr (inr (z, l, k)) ↦
      let (rs, er, e₂) = >>=-eq-some (eight_byte_info dl bt) _ (rw (k, pass_param) at e) in
      direct_outcome dl bt s rs er (z, l) e₂ small
]

-- Every parameter that is classified travels in one of the three ways of `ParamOutcome`: an empty
-- type is ignored; a type of more than 16 bytes, or one of several regions that need more integer
-- registers or more SSE registers than are left, becomes a pointer to memory; one of a single region,
-- and one of several for which enough registers of both classes are left, is passed directly, takes
-- the registers that its regions need, as far as there are any, and one argument for each region, of
-- the region's type. The condition is that the argument count is far
-- from its 32-bit limit.
pub analyze_abi_param-ParamOutcome :
    (dl : DataLayout) (bt : Btype) (s : AbiState) {info : CabiParamInfo} {s' : AbiState}
    → analyze_abi_param dl bt s ≡ some (info, s')
    → s.arg_count + 2 < 2 ^ 31
    → ParamOutcome dl bt s info s'
unfolding analyze_abi_param
analyze_abi_param-ParamOutcome dl bt s e small =
    let (_, _, e₁) = >>=-eq-some (assert (aux_is_simple bt)) (λ _. pass_param dl bt s) e in
    pass_param-ParamOutcome dl bt s e₁ small
