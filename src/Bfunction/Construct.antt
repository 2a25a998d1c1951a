-- ===== src/Bfunction/Construct.antt =====
-- The constructor of `Bfunction` in go-llvm-bfunction.cpp, together with the oracle that it asks.
use dragongo.Common.{
  ℕ, ◌+◌, ◌*◌, ◌^◌, ◌%◌, ◌≤◌, ◌<◌, ◌≡◌, refl, sym, ap, ◌∙◌, subst, ◌≢◌, ◌⊎◌, inl, inr, ◌++◌, true,
  some, List, [], ◌∷◌, arith, length, drop, All,
}
use dragongo.Common.Run.{Run, ok}
use dragongo.NameGen.{NameGen}
use dragongo.Cabi.Types.{LlvmType, pointer, Btype, DataLayout, type}
use dragongo.Cabi.{
  indirect, CabiParamInfo, AbiState, CabiOracle, FunctionType, add_chain_arg, add_indirect_return,
  fresh, function_type_for, analyze_abi_params, analyze, signature_types, all_signature_types,
  return_info, chain_info,
}
use dragongo.Cabi.Results.{
  ReturnOutcome, ignored, memory, registers, analyze_abi_return-ReturnOutcome,
}
use dragongo.Cabi.Signature.{chain_at, analyze_parts, function_type_indirect, function_type_plain}
use dragongo.Cabi.Extended.{IsPassable, analyze_abi_params-IsPassable}
use dragongo.Bfunction.{
  Argument, Alloca, set_up_params, Bfunction, populate, abi_setup, new_function, make_function,
}
use dragongo.Bfunction.Setup.{StandFor, analyze_abi_params_count, set_up_params-HaveValues}
use dragongo.Bfunction.Start.{set_up_result-Keeps, set_up_chain-Keeps, abi_setup-ok}

-- The constructor succeeds and leaves a value for each parameter.
pub record IsReady (o : CabiOracle) (run : Run Bfunction) : Type 0 where
  pub after : Bfunction
  pub succeeds : run ≡ ok after
  pub stand : StandFor (drop 2 o.infov) after.param_values 0

module _ (dl : DataLayout) where
  -- From where the result has been analysed: the result takes `i` arguments.
  abi_setup-IsReady :
      (bts : List Btype) (ret : CabiParamInfo) (others : List CabiParamInfo) (ft : FunctionType)
      (tags : NameGen) (formals : List Argument) (s s' : AbiState) (i : ℕ)
      → ((ret.disp ≡ indirect) × (i ≡ 1)) ⊎ ((ret.disp ≢ indirect) × (i ≡ 0))
      → s.arg_count ≡ i + 1
      → analyze_abi_params dl bts s ≡ some (others, s')
      → All IsPassable others
      → length formals ≡ s'.arg_count
      → 2 * length bts + 5 < 2 ^ 31
      → let o : CabiOracle = record { infov = ret ∷ chain_at i ∷ others; fcn_type_for_abi = ft } in
        IsReady o (abi_setup formals (new_function o bts tags))
  unfolding abi_setup populate new_function return_info chain_info
  abi_setup-IsReady bts ret others ft tags formals s s' i r at p fit many small =
      let o : CabiOracle = record { infov = ret ∷ chain_at i ∷ others; fcn_type_for_abi = ft } in
      let (n, few) = analyze_abi_params_count dl bts s (omega arith) p in
      let f : Bfunction = populate formals (new_function o bts tags) in
      let (f₁, e₁, k₁) = set_up_result-Keeps ret.disp f i r (omega arith) in
      let (f₂, e₂, k₂) = set_up_chain-Keeps f₁ i (omega (arith, k₁.many)) (omega arith) in
      let oracle : f₂.oracle ≡ o = k₂.oracle ∙ k₁.oracle in
      let none_yet : f₂.allocas ≡ [] = k₂.allocas ∙ k₁.allocas in
      let all =
        set_up_params-HaveValues dl bts s s' others f₂ 0 p (rw oracle refl) fit
          (omega (arith, k₁.many, k₂.many)) (omega arith) (omega arith) in
      let values : all.after.param_values ≡ all.values =
        all.added ∙ ap (λ vs. vs ++ all.values) (k₂.param_values ∙ k₁.param_values) in
      record {
        after = all.after;
        succeeds =
            abi_setup-ok formals (new_function o bts tags) refl e₁ refl e₂
              (subst (λ j. set_up_params bts 0 f₂ j ≡ ok (all.after, s'.arg_count)) at all.run);
        stand = rw values (
            subst (λ (as' : List Alloca). StandFor others all.values (length as')) none_yet
              all.stand);
      }

  from_result-IsReady :
      (bts : List Btype) (ret : CabiParamInfo) (others : List CabiParamInfo) (ft : FunctionType)
      (tags : NameGen) (formals : List Argument) (s₁ s₂ : AbiState)
      → ((ret.disp ≡ indirect) × (s₁.arg_count ≡ 1)) ⊎ ((ret.disp ≢ indirect) × (s₁.arg_count ≡ 0))
      → length ft.params ≡ s₁.arg_count + 1 + length (all_signature_types others)
      → analyze_abi_params dl bts (add_chain_arg s₁) ≡ some (others, s₂)
      → All IsPassable others
      → length formals ≡ length ft.params
      → 2 * length bts + 5 < 2 ^ 31
      → let o : CabiOracle = record {
        infov = ret ∷ chain_at s₁.arg_count ∷ others;
        fcn_type_for_abi = ft;
      } in
        IsReady o (abi_setup formals (new_function o bts tags))
  unfolding add_chain_arg
  from_result-IsReady bts ret others ft tags formals s₁ s₂ r long p fit many small =
      let at : (s₁.arg_count + 1) % 2 ^ 32 ≡ s₁.arg_count + 1 = omega (arith, r) in
      let few : s₁.arg_count ≤ 1 = omega (arith, r) in
      let (n, few₁) =
        analyze_abi_params_count dl bts (add_chain_arg s₁) (omega (arith, at, few)) p in
      abi_setup-IsReady bts ret others ft tags formals (add_chain_arg s₁) s₂ s₁.arg_count r at p fit
        (omega (arith, n, at, long)) small

  length-memory :
      (ret : CabiParamInfo) (i : ℕ) (others : List CabiParamInfo) (t : LlvmType) {ft : FunctionType}
      → (ret.disp ≡ indirect) × (ret.abi_types ≡ t ∷ [])
      → function_type_for ret (chain_at i ∷ others) ≡ some ft
      → length ft.params ≡ 2 + length (all_signature_types others)
  unfolding all_signature_types signature_types
  length-memory ret i others t (d, a) g = omega (
    arith,
    ap (λ (q : FunctionType). length q.params)
        (function_type_indirect dl ret (chain_at i ∷ others) t d a g),
  )

  length-plain :
      (ret : CabiParamInfo) (i : ℕ) (others : List CabiParamInfo) {ft : FunctionType}
      → ret.disp ≢ indirect
      → function_type_for ret (chain_at i ∷ others) ≡ some ft
      → length ft.params ≡ 1 + length (all_signature_types others)
  unfolding all_signature_types signature_types
  length-plain ret i others d g = omega (
    arith,
    ap (λ (q : List LlvmType). length q) (function_type_plain dl ret (chain_at i ∷ others) d g).1,
  )

  passable :
      (bts : List Btype) (s₁ : AbiState) {others : List CabiParamInfo} {s₂ : AbiState}
      → analyze_abi_params dl bts (add_chain_arg s₁) ≡ some (others, s₂)
      → s₁.arg_count ≤ 1
      → 2 * length bts + 5 < 2 ^ 31
      → All IsPassable others
  unfolding add_chain_arg
  passable bts s₁ p few small =
      let at : (s₁.arg_count + 1) % 2 ^ 32 ≡ s₁.arg_count + 1 = omega arith in
      analyze_abi_params-IsPassable dl bts (add_chain_arg s₁) p (omega (arith, at))

  ready :
      (bts : List Btype) (result : Btype) (tags : NameGen) (formals : List Argument)
      (ret : CabiParamInfo) (s₁ s₂ : AbiState) (others : List CabiParamInfo) (ft : FunctionType)
      → ReturnOutcome dl result ret s₁
      → analyze_abi_params dl bts (add_chain_arg s₁) ≡ some (others, s₂)
      → function_type_for ret (chain_at s₁.arg_count ∷ others) ≡ some ft
      → length formals ≡ length ft.params
      → 2 * length bts + 5 < 2 ^ 31
      → let o : CabiOracle = record {
        infov = ret ∷ chain_at s₁.arg_count ∷ others;
        fcn_type_for_abi = ft;
      } in
        IsReady o (abi_setup formals (new_function o bts tags))
  unfolding fresh add_indirect_return
  ready bts result tags formals ret s₁ s₂ others ft (ignored w i n) p g many small =
      let none_yet : s₁.arg_count ≡ 0 = ground arith in
      let few : s₁.arg_count ≤ 1 = omega arith in
      let plain : ret.disp ≢ indirect = ground arith in
      from_result-IsReady bts ret others ft tags formals s₁ s₂ (inr (plain, none_yet))
        (omega (arith, none_yet, length-plain ret s₁.arg_count others plain g)) p
        (passable bts s₁ p few small) many small
  ready bts result tags formals ret s₁ s₂ others ft (registers rs f' w z i n) p g many small =
      let none_yet : s₁.arg_count ≡ 0 = ground arith in
      let few : s₁.arg_count ≤ 1 = omega arith in
      let plain : ret.disp ≢ indirect = ground arith in
      from_result-IsReady bts ret others ft tags formals s₁ s₂ (inr (plain, none_yet))
        (omega (arith, none_yet, length-plain ret s₁.arg_count others plain g)) p
        (passable bts s₁ p few small) many small
  ready bts result tags formals ret s₁ s₂ others ft (memory l i n) p g many small =
      let one : s₁.arg_count ≡ 1 = ground arith in
      let few : s₁.arg_count ≤ 1 = omega arith in
      let hidden : (ret.disp ≡ indirect) × (ret.abi_types ≡ pointer (type result) ∷ []) =
        ground arith in
      from_result-IsReady bts ret others ft tags formals s₁ s₂ (inl (hidden.0, one))
        (omega (arith, one, length-memory ret s₁.arg_count others (pointer (type result)) hidden g))
        p (passable bts s₁ p few small) many small

  -- In a function whose calling convention is followed, the constructor succeeds: no access to the
  -- arguments is out of range and no assertion fails. Afterwards there is one value for each
  -- parameter: the argument at the parameter's offset in the signature where the parameter is in
  -- memory, and an alloca of its own, in the order of the parameters, where it is not. The conditions
  -- are that the oracle has analysed the function's type, that the LLVM function has the arguments of
  -- the cooked type, and that the argument count stays within an `int`.
  pub make_function-IsReady :
      (bts : List Btype) (result : Btype) (o : CabiOracle) (tags : NameGen)
      (formals : List Argument)
      → 2 * length bts + 5 < 2 ^ 31
      → analyze dl bts result true ≡ some o
      → length formals ≡ length o.fcn_type_for_abi.params
      → IsReady o (make_function o bts tags true formals)
  unfolding make_function
  make_function-IsReady bts result o tags formals small e many =
      let (ret, s₁, s₂, others, ft, r, p, g, same) = analyze_parts dl bts result e in
      let formals_many : length formals ≡ length ft.params =
        many ∙ ap (λ (q : CabiOracle). length q.fcn_type_for_abi.params) same in
      subst (λ (q : CabiOracle). IsReady q (abi_setup formals (new_function q bts tags))) (sym same)
        (ready bts result tags formals ret s₁ s₂ others ft
          (analyze_abi_return-ReturnOutcome dl result s₁ r) p g formals_many small)
