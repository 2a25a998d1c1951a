-- ===== src/Cabi/Places.antt =====
-- Where the parameters stand in the cooked function type of go-llvm-cabi-oracle.cpp.
use dragongo.Common.{
  ℕ, suc, ◌+◌, ◌*◌, ◌^◌, ◌≤◌, ◌<◌, ◌≡◌, refl, ap, ◌≢◌, ◌⊎◌, ◌++◌, append_assoc, some, List, [], ◌∷◌,
  arith, >>=-eq-some, length, length-append, take, drop, drop-append, take-append, All,
}
use dragongo.Cabi.Types.{LlvmType, Btype, DataLayout}
use dragongo.Cabi.{
  ignore, CabiParamInfo, AbiState, no_offset, add_indirect_arg, analyze_abi_param,
  analyze_abi_params, signature_types, all_signature_types,
}
use dragongo.Cabi.State.{ParamOutcome, analyze_abi_param-ParamOutcome, length-eight_byte_info}

-- An entry says where its types stand among the parameters: `numArgSlots` of them from `sigOffset`
-- on, or nowhere.
abbrev pub IsPlaced : List LlvmType → CabiParamInfo → Type 0
IsPlaced params info =
    ((info.disp ≡ ignore) × (info.sig_offset ≡ no_offset))
    ⊎ ((info.disp ≢ ignore)
        × (take (length info.abi_types) (drop info.sig_offset params) ≡ info.abi_types))

-- A parameter is counted as often as it has types in the signature.
pub record IsCounted (info : CabiParamInfo) (s s' : AbiState) : Type 0 where
  pub place :
      ((info.disp ≡ ignore) × (info.sig_offset ≡ no_offset))
      ⊎ ((info.disp ≢ ignore) × (info.sig_offset ≡ s.arg_count))
  pub counted : s'.arg_count ≡ s.arg_count + length (signature_types info)
  pub few : length (signature_types info) ≤ 2

pub outcome-IsCounted :
    (dl : DataLayout) (bt : Btype) (s : AbiState) (info : CabiParamInfo) (s' : AbiState)
    → s.arg_count + 2 < 2 ^ 31
    → ParamOutcome dl bt s info s'
    → IsCounted info s s'
unfolding signature_types add_indirect_arg
outcome-IsCounted dl bt s info s' small (ParamOutcome.ignored z i n) = record {
  place = ground arith;
  counted = ground arith;
  few = ground arith;
}
outcome-IsCounted dl bt s info s' small (ParamOutcome.memory z i n) = record {
  place = ground arith;
  counted = ground arith;
  few = ground arith;
}
outcome-IsCounted dl bt s info s' small (ParamOutcome.registers rs e c z i n) =
    let two = length-eight_byte_info dl bt rs e in
    record { place = ground arith; counted = ground arith; few = ground arith }

pub slice :
    (pre ts rest : List LlvmType) (off : ℕ)
    → off ≡ length pre
    → take (length ts) (drop off (pre ++ (ts ++ rest))) ≡ ts
slice pre ts rest off e = rw (e, drop-append) (take-append ts rest)

-- One entry of the signature, between what stands before it and what follows.
counted-IsPlaced :
    (info : CabiParamInfo) (s s' : AbiState) (pre rest : List LlvmType)
    → length pre ≡ s.arg_count
    → IsCounted info s s'
    → IsPlaced (pre ++ (signature_types info ++ rest)) info
unfolding signature_types
counted-IsPlaced info s s' pre rest e c =
    ground (arith, c.place, slice pre info.abi_types rest info.sig_offset)

module _ (dl : DataLayout) where
  pub params_cons :
      (bt : Btype) (bts : List Btype) (s : AbiState) {infos : List CabiParamInfo} {s' : AbiState}
      → analyze_abi_params dl (bt ∷ bts) s ≡ some (infos, s')
      → (info : CabiParamInfo) × (s₁ : AbiState) × (infos₁ : List CabiParamInfo)
        × (analyze_abi_param dl bt s ≡ some (info, s₁))
        × (analyze_abi_params dl bts s₁ ≡ some (infos₁, s'))
        × (infos ≡ info ∷ infos₁)
  unfolding analyze_abi_params
  params_cons bt bts s ok =
      let ((info, s₁), first, more) = >>=-eq-some (analyze_abi_param dl bt s) _ ok in
      let ((infos₁, s₂), rest, done) = >>=-eq-some (analyze_abi_params dl bts s₁) _ more in
      (info, s₁, infos₁, first, ground arith, ground arith)

  pub params-IsPlaced :
      (bts : List Btype) (s : AbiState) (pre : List LlvmType) {infos : List CabiParamInfo}
      {s' : AbiState}
      → length pre ≡ s.arg_count
      → s.arg_count + 2 * length bts + 2 < 2 ^ 31
      → analyze_abi_params dl bts s ≡ some (infos, s')
      → All (IsPlaced (pre ++ all_signature_types infos)) infos × (length infos ≡ length bts)
  unfolding analyze_abi_params all_signature_types
  params-IsPlaced [] s pre {infos} e small ok =
      let same : [] ≡ infos = ground arith in rw (← same) (tt, refl)
  params-IsPlaced (bt ∷ bts) s pre {infos} {s'} e small ok =
      let (info, s₁, infos₁, first, rest, same) = params_cons bt bts s ok in
      let c =
        outcome-IsCounted dl bt s info s₁ (omega arith)
          (analyze_abi_param-ParamOutcome dl bt s first (omega arith)) in
      let (placed, many) =
        params-IsPlaced bts s₁ (pre ++ signature_types info)
          (omega (arith, length-append pre (signature_types info), c.counted))
          (omega (arith, c.counted, c.few)) rest in
      rw same (
        (
          counted-IsPlaced info s s₁ pre (all_signature_types infos₁) e c,
          rw append_assoc at placed,
        ),
        ap suc many,
      )
