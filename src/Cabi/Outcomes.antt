-- ===== src/Cabi/Outcomes.antt =====
-- What the constructor of `CABIOracle` in go-llvm-cabi-oracle.cpp decides for the result and for each
-- parameter.
use dragongo.Common.{
  ◌+◌, ◌*◌, ◌^◌, ◌<◌, ◌≡◌, sym, subst, true, some, List, [], ◌∷◌, arith, length, ap,
}
use dragongo.Cabi.Types.{Btype, DataLayout}
use dragongo.Cabi.{
  CabiParamInfo, AbiState, CabiOracle, add_chain_arg, fresh, add_indirect_return,
  analyze_abi_params, analyze,
}
use dragongo.Cabi.State.{ParamOutcome, analyze_abi_param-ParamOutcome}
use dragongo.Cabi.Places.{outcome-IsCounted, params_cons}
use dragongo.Cabi.Results.{
  ReturnOutcome, ignored, memory, registers, analyze_abi_return-ReturnOutcome,
}
use dragongo.Cabi.Signature.{chain_at, analyze_parts}

-- The entries of the parameters in order, each with the registers that the ones before have left.
abbrev pub ParamOutcomes :
    DataLayout → List Btype → List CabiParamInfo → AbiState → AbiState → Type 0
ParamOutcomes dl [] [] s s' = s' ≡ s
ParamOutcomes dl (bt ∷ bts) (info ∷ infos) s s' =
    (s₁ : AbiState) × ParamOutcome dl bt s info s₁ × ParamOutcomes dl bts infos s₁ s'
ParamOutcomes dl _ _ s s' = ⊥

-- The result is decided first, then the static chain takes one argument, then come the parameters.
pub record IsAnalysed (dl : DataLayout) (bts : List Btype) (result : Btype) (o : CabiOracle)
    : Type 0 where
  pub ret : CabiParamInfo
  pub others : List CabiParamInfo
  pub state : AbiState
  pub last : AbiState
  pub entries : o.infov ≡ ret ∷ chain_at state.arg_count ∷ others
  pub returned : ReturnOutcome dl result ret state
  pub passed : ParamOutcomes dl bts others (add_chain_arg state) last

module _ (dl : DataLayout) where
  params-ParamOutcomes :
      (bts : List Btype) (s : AbiState) {infos : List CabiParamInfo} {s' : AbiState}
      → s.arg_count + 2 * length bts + 2 < 2 ^ 31
      → analyze_abi_params dl bts s ≡ some (infos, s')
      → ParamOutcomes dl bts infos s s'
  unfolding analyze_abi_params
  params-ParamOutcomes [] s {infos} {s'} small e =
      let none_left : [] ≡ infos = ground arith in
      subst (λ is. ParamOutcomes dl [] is s s') none_left (ground arith)
  params-ParamOutcomes (bt ∷ bts) s {infos} {s'} small e =
      let (info, s₁, infos₁, first, rest, same) = params_cons dl bt bts s e in
      let outcome = analyze_abi_param-ParamOutcome dl bt s first (omega arith) in
      let c = outcome-IsCounted dl bt s info s₁ (omega arith) outcome in
      subst (λ is. ParamOutcomes dl (bt ∷ bts) is s s') (sym same)
        (s₁, outcome, params-ParamOutcomes bts s₁ (omega (arith, c.counted, c.few)) rest)

  -- The result takes at most one argument.
  return_count :
      (result : Btype) (ret : CabiParamInfo) (s : AbiState)
      → ReturnOutcome dl result ret s
      → (add_chain_arg s).arg_count < 3
  unfolding fresh add_indirect_return add_chain_arg
  return_count result ret s (ignored w i n) = ground arith
  return_count result ret s (memory l i n) = ground arith
  return_count result ret s (registers rs f w z i n) = ground arith

  pub analyze-IsAnalysed :
      (bts : List Btype) (result : Btype) (o : CabiOracle)
      → 2 * length bts + 5 < 2 ^ 31
      → analyze dl bts result true ≡ some o
      → IsAnalysed dl bts result o
  analyze-IsAnalysed bts result o small e =
      let (ret, s₁, s₂, others, ft, r, p, f, same) = analyze_parts dl bts result e in
      let outcome = analyze_abi_return-ReturnOutcome dl result s₁ r in
      let few = return_count result ret s₁ outcome in
      record {
        ret = ret;
        others = others;
        state = s₁;
        last = s₂;
        entries = ap (λ (q : CabiOracle). q.infov) same;
        returned = outcome;
        passed = params-ParamOutcomes bts (add_chain_arg s₁) (omega (arith, few)) p;
      }
