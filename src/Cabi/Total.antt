-- ===== src/Cabi/Total.antt =====
-- When the analysis of go-llvm-cabi-oracle.cpp meets no failed assertion.
use dragongo.Common.{
  ◌+◌, ◌*◌, ◌^◌, ◌≤◌, ◌<◌, ◌≡◌, refl, ◌≢◌, ◌⊎◌, inl, inr, true, Option, some, List, [], ◌∷◌, arith,
  lt→ltb, if◌then◌else◌, length, All, Bool-cases, Option-cases,
}
use dragongo.Cabi.Types.{LlvmType, void, pointer, struct, cons, nil, Btype, DataLayout, type}
use dragongo.Cabi.State.{
  analyze_abi_param-ParamOutcome, classify_arg_type_cases, length-eight_byte_info,
}
use dragongo.Cabi.Places.{outcome-IsCounted}
use dragongo.Cabi.Results.{analyze_abi_return-ReturnOutcome, ReturnOutcome, return_disp_cases}
use dragongo.Cabi.Regions.{
  EightByteRegion, attr_none, by_val, struct_return, nest, register_requirements,
}
use dragongo.Cabi.Explode.{eight_byte_info}
use dragongo.Cabi.{
  direct, ignore, indirect, no_offset, CabiOracle, add_indirect_arg, in_memory, single, return_disp,
  direct_return, analyze_abi_param, pass_param, aux_is_simple, analyze_abi_params,
  analyze_abi_return, add_chain_arg, add_indirect_return, fresh, function_type_for, abi_type,
  llvm_ptr_type, can_pass_directly, analyze, AbiState, Passed, CabiParamInfo, after_region,
  pass_region, pass_regions, several, in_registers,
}
use dragongo.Cabi.Typed.{Plain, HasType, eight_byte_info_lem}

pass_region-some :
    (r : EightByteRegion) (p : Passed) (t : LlvmType)
    → r.abi_direct_type ≡ some t
    → (r.attr ≡ attr_none) ⊎ (p.attr ≡ attr_none)
    → pass_region r p ≡ some (after_region r t p)
unfolding pass_region
pass_region-some r p t typed clear = ground arith

pass-Plain :
    (rs : List EightByteRegion) (p : Passed)
    → All HasType rs
    → Plain rs
    → (q : Passed) × (pass_regions rs p ≡ some q)
unfolding pass_regions
pass-Plain [] p typed plain = (p, refl)
pass-Plain (r ∷ rs) p ((t, has_type), typed) (clear, plain) =
    let (q, e) = pass-Plain rs (after_region r t p) typed plain in
    (q, rw (pass_region-some r p t has_type (inl clear)) e)

pass_one :
    (rs : List EightByteRegion) (p : Passed)
    → All HasType rs
    → length rs ≡ 1
    → p.attr ≡ attr_none
    → (q : Passed) × (pass_regions rs p ≡ some q)
unfolding pass_regions
pass_one [] p typed single' clear = (p, refl)
pass_one (r ∷ []) p ((t, has_type), _) single' clear =
    (after_region r t p, rw (pass_region-some r p t has_type (inr clear)))
pass_one (r ∷ r' ∷ rs) p typed single' clear = absurd (omega arith)

-- Regions of a classified type can always be passed.
in_registers-some :
    (dl : DataLayout) (bt : Btype) (rs : List EightByteRegion) (s : AbiState)
    → eight_byte_info dl bt ≡ some rs
    → s.arg_count < 2 ^ 31
    → (out : CabiParamInfo × AbiState) × (in_registers rs s ≡ some out)
unfolding in_registers several
in_registers-some dl bt rs s e small =
    let start : Passed = record { types = []; attr = attr_none; state = s } in
    let (typed, one_attr) = eight_byte_info_lem dl bt rs e in
    let (q, passed) : (q : Passed) × (pass_regions rs start ≡ some q) = elim one_attr [
      | inl plain ↦ pass-Plain rs start typed plain
      | inr one' ↦ pass_one rs start typed one' refl
    ] in
    (
      (
        record { abi_types = q.types; disp = direct; attr = q.attr; sig_offset = s.arg_count },
        q.state,
      ),
      rw (passed, lt→ltb s.arg_count (2 ^ 31) small),
    )

abbrev Succeeds {ℓ} : {A : Type ℓ} → Option A → Type ℓ
Succeeds {A} o = (a : A) × (o ≡ some a)

in_memory-some : (bt : Btype) (s : AbiState) → s.arg_count < 2 ^ 31 → Succeeds (in_memory bt s)
unfolding in_memory single
in_memory-some bt s small = (
  (
    record {
      abi_types = pointer (type bt) ∷ [];
      disp = indirect;
      attr = by_val;
      sig_offset = s.arg_count;
    },
    add_indirect_arg s,
  ),
  rw (lt→ltb s.arg_count (2 ^ 31) small),
)

abbrev pub Fits : DataLayout → Btype → Type 0
Fits dl bt =
    (dl.alloc_size (type bt) ≡ 0)
    ⊎ (16 < dl.alloc_size (type bt))
    ⊎ ((rs : List EightByteRegion) × (eight_byte_info dl bt ≡ some rs))

-- A parameter that keeps the assertion on auxiliary types, and is empty, goes to memory by its size
-- or has its regions classified.
abbrev pub Ready : DataLayout → Btype → Type 0
Ready dl bt = (aux_is_simple bt ≡ true) × Fits dl bt

direct-some :
    (dl : DataLayout) (bt : Btype) (rs : List EightByteRegion) (s : AbiState)
    → eight_byte_info dl bt ≡ some rs
    → s.arg_count < 2 ^ 31
    → Succeeds (
        if can_pass_directly (register_requirements rs).0 (register_requirements rs).1 s
        then in_registers rs s
        else in_memory bt s)
direct-some dl bt rs s e small =
    elim (Bool-cases
      (can_pass_directly (register_requirements rs).0 (register_requirements rs).1 s)) [
        | inl b ↦ rw b (in_registers-some dl bt rs s e small)
        | inr b ↦ rw b (in_memory-some bt s small)
      ]

pass_param-some :
    (dl : DataLayout) (bt : Btype) (s : AbiState)
    → Fits dl bt
    → s.arg_count < 2 ^ 31
    → Succeeds (pass_param dl bt s)
unfolding pass_param single
pass_param-some dl bt s ready small = elim (classify_arg_type_cases dl (type bt)) [
  | inl (_, k) ↦ (
    (record { abi_types = void ∷ []; disp = ignore; attr = attr_none; sig_offset = no_offset }, s),
    rw (k, pass_param),
  )
  | inr (inl (_, k)) ↦ rw (k, pass_param) (in_memory-some bt s small)
  | inr (inr (pos, le, k)) ↦ elim ready [
    | inl z ↦ absurd (omega arith)
    | inr (inl big) ↦ absurd (omega arith)
    | inr (inr (rs, e)) ↦ rw (k, pass_param) (rw e (direct-some dl bt rs s e small))
  ]
]

param-some :
    (dl : DataLayout) (bt : Btype) (s : AbiState)
    → Ready dl bt
    → s.arg_count < 2 ^ 31
    → Succeeds (analyze_abi_param dl bt s)
unfolding analyze_abi_param
param-some dl bt s (simple, fits) small = rw simple (pass_param-some dl bt s fits small)

params-some :
    (dl : DataLayout) (bts : List Btype) (s : AbiState)
    → All (Ready dl) bts
    → s.arg_count + 2 * length bts + 2 < 2 ^ 31
    → Succeeds (analyze_abi_params dl bts s)
unfolding analyze_abi_params
params-some dl [] s ready small = (([], s), refl)
params-some dl (bt ∷ bts) s (ready, readies) small =
    let ((info, s₁), e) = param-some dl bt s ready (omega arith) in
    let c =
      outcome-IsCounted dl bt s info s₁ (omega arith)
        (analyze_abi_param-ParamOutcome dl bt s e (omega arith)) in
    let ((infos, s₂), e') = params-some dl bts s₁ readies (omega (arith, c.counted, c.few)) in
    ((info ∷ infos, s₂), rw (e, e'))

-- A result that is void, empty, goes to memory, or has one or two regions classified.
abbrev pub ReadyResult : DataLayout → Btype → Type 0
ReadyResult dl bt =
    (return_disp dl (type bt) ≢ direct)
    ⊎ ((r : EightByteRegion) × (rs : List EightByteRegion) × (eight_byte_info dl bt
          ≡ some (r ∷ rs)))

direct_return-some :
    (dl : DataLayout) (r : EightByteRegion) (rs : List EightByteRegion)
    → All HasType (r ∷ rs)
    → length (r ∷ rs) ≤ 2
    → (info : CabiParamInfo) × (direct_return dl (r ∷ rs) ≡ some info)
unfolding direct_return single
direct_return-some dl r [] ((t, e), _) few =
    (record { abi_types = t ∷ []; disp = direct; attr = r.attr; sig_offset = no_offset }, rw e)
direct_return-some dl r (r' ∷ []) ((t, e), ((t', e'), _)) few = (
  record {
    abi_types = struct (cons t (cons t' nil)) ∷ [];
    disp = direct;
    attr = attr_none;
    sig_offset = no_offset;
  },
  rw (e, e'),
)
direct_return-some dl r (r' ∷ r'' ∷ rs) typed few = absurd (omega arith)

return-some :
    (dl : DataLayout) (bt : Btype) (s : AbiState)
    → ReadyResult dl bt
    → Succeeds (analyze_abi_return dl bt s)
unfolding analyze_abi_return single
return-some dl bt s ready = elim (return_disp_cases dl (type bt)) [
  | inl (_, k) ↦ (
    (record { abi_types = void ∷ []; disp = ignore; attr = attr_none; sig_offset = no_offset }, s),
    rw (k, analyze_abi_return),
  )
  | inr (inl (_, _, k)) ↦ (
    (
      record {
        abi_types = pointer (type bt) ∷ [];
        disp = indirect;
        attr = struct_return;
        sig_offset = 0;
      },
      add_indirect_return s,
    ),
    rw (k, analyze_abi_return),
  )
  | inr (inr (_, k)) ↦ elim ready [
    | inl no' ↦ absurd (no' k)
    | inr (r, rs, e) ↦
        let (typed, _) = eight_byte_info_lem dl bt (r ∷ rs) e in
        let (info, made) =
          direct_return-some dl r rs typed (length-eight_byte_info dl bt (r ∷ rs) e) in
        ((info, s), rw (k, analyze_abi_return) (rw (e, made)))
  ]
]

one_type : (ts : List LlvmType) → length ts ≡ 1 → (t : LlvmType) × (ts ≡ t ∷ [])
one_type [] e = absurd (omega arith)
one_type (t ∷ []) e = (t, refl)
one_type (t ∷ t' ∷ ts) e = absurd (omega arith)

function_type_for-some :
    (ret : CabiParamInfo) (others : List CabiParamInfo)
    → length ret.abi_types ≡ 1
    → Succeeds (function_type_for ret others)
unfolding function_type_for abi_type
function_type_for-some ret others few =
    let (t, e) = one_type ret.abi_types few in
    elim (Option-cases (function_type_for ret others)) [
      | inl gone ↦ absurd (ground arith)
      | inr found ↦ found
    ]

return_small :
    (dl : DataLayout) (result : Btype) (s : AbiState) (info : CabiParamInfo)
    → ReturnOutcome dl result info s
    → (length info.abi_types ≡ 1) × (s.arg_count ≤ 1)
unfolding fresh add_indirect_return
return_small dl result s info (ReturnOutcome.ignored w i n) = ground arith
return_small dl result s info (ReturnOutcome.memory l i n) = ground arith
return_small dl result s info (ReturnOutcome.registers rs e w z i n) = ground arith

-- Where the calling convention is followed, the analysis meets no failed assertion: it succeeds if
-- each parameter is simple where it is an auxiliary type, and is empty, larger than 16 bytes or
-- classified, and the result is void, empty, larger than 16 bytes or classified into a region or
-- two. The last condition keeps the argument
-- count within an `int`.
pub analyze-some :
    (dl : DataLayout) (bts : List Btype) (result : Btype)
    → All (Ready dl) bts
    → ReadyResult dl result
    → 2 * length bts + 5 < 2 ^ 31
    → (o : CabiOracle) × (analyze dl bts result true ≡ some o)
unfolding analyze single add_chain_arg
analyze-some dl bts result ready ready_result small =
    let ((ret, s₁), r) = return-some dl result fresh ready_result in
    let (one_slot, few) =
      return_small dl result s₁ ret (analyze_abi_return-ReturnOutcome dl result s₁ r) in
    let ((others, s₂), p) = params-some dl bts (add_chain_arg s₁) ready (omega arith) in
    let chain : CabiParamInfo = record {
      abi_types = llvm_ptr_type ∷ [];
      disp = direct;
      attr = nest;
      sig_offset = s₁.arg_count;
    } in
    let (ft, f) = function_type_for-some ret (chain ∷ others) one_slot in
    (
      record { infov = ret ∷ chain ∷ others; fcn_type_for_abi = ft },
      rw (r, lt→ltb s₁.arg_count (2 ^ 31) (omega arith), p, f),
    )
