-- ===== src/Cabi/Signature.antt =====
-- The cooked function type of go-llvm-cabi-oracle.cpp: where each parameter stands in it.
use dragongo.Common.{
  ℕ, ◌+◌, ◌*◌, ◌^◌, ◌≤◌, ◌<◌, ◌≡◌, refl, sym, subst, ◌≢◌, ◌⊎◌, inl, inr, ◌++◌, append_assoc, true,
  some, List, [], ◌∷◌, arith, >>=-eq-some, length, length-append, take, All, of_some,
}
use dragongo.Cabi.Types.{LlvmType, void, pointer, Btype, DataLayout, type}
use dragongo.Cabi.Regions.{struct_return, nest}
use dragongo.Cabi.{
  direct, indirect, CabiParamInfo, AbiState, single, add_chain_arg, add_indirect_return, fresh,
  analyze_abi_params, analyze_abi_return, FunctionType, CabiOracle, signature_types,
  all_signature_types, abi_type, function_type_for, llvm_ptr_type, analyze,
}
use dragongo.Cabi.Places.{IsPlaced, slice, params-IsPlaced}
use dragongo.Cabi.Results.{ignored, memory, registers, analyze_abi_return-ReturnOutcome}

-- The result goes through a hidden first parameter, or is the function's own result.
abbrev pub ResultPassed : CabiParamInfo → CabiParamInfo → FunctionType → Type 0
ResultPassed ret chain ft =
    ((ret.disp ≡ indirect)
      × (ret.attr ≡ struct_return)
      × (ft.result ≡ void)
      × (take 1 ft.params ≡ ret.abi_types)
      × (chain.sig_offset ≡ 1))
    ⊎ ((ret.disp ≢ indirect) × (ret.abi_types ≡ ft.result ∷ []) × (chain.sig_offset ≡ 0))

-- The entries of an analysis fit its function type.
pub record IsLaidOut (bts : List Btype) (o : CabiOracle) : Type 0 where
  pub ret : CabiParamInfo
  pub chain : CabiParamInfo
  pub others : List CabiParamInfo
  pub entries : o.infov ≡ ret ∷ chain ∷ others
  pub one_each : length others ≡ length bts
  pub chain_pointer :
      (chain.disp ≡ direct) × (chain.attr ≡ nest) × (chain.abi_types ≡ llvm_ptr_type ∷ [])
  pub placed : All (IsPlaced o.fcn_type_for_abi.params) (chain ∷ others)
  pub passed : ResultPassed ret chain o.fcn_type_for_abi

abbrev pub chain_at : ℕ → CabiParamInfo
chain_at off = record {
  abi_types = llvm_ptr_type ∷ [];
  disp = direct;
  attr = nest;
  sig_offset = off;
}

module _ (dl : DataLayout) where
  pub analyze_parts :
      (bts : List Btype) (result : Btype) {o : CabiOracle}
      → analyze dl bts result true ≡ some o
      → (ret : CabiParamInfo) × (s₁ s₂ : AbiState) × (others : List CabiParamInfo)
        × (ft : FunctionType) × (analyze_abi_return dl result fresh ≡ some (ret, s₁))
        × (analyze_abi_params dl bts (add_chain_arg s₁) ≡ some (others, s₂))
        × (function_type_for ret (chain_at s₁.arg_count ∷ others) ≡ some ft)
        × (o ≡ record { infov = ret ∷ chain_at s₁.arg_count ∷ others; fcn_type_for_abi = ft })
  unfolding analyze
  analyze_parts bts result {o} e =
      let ((ret, s₁), r, e₁) = >>=-eq-some (analyze_abi_return dl result fresh) _ e in
      let (chain, c, e₂) = >>=-eq-some (single llvm_ptr_type direct nest s₁.arg_count) _ e₁ in
      let ((others, s₂), p, e₃) = >>=-eq-some (analyze_abi_params dl bts (add_chain_arg s₁)) _ e₂ in
      let (ft, f, e₄) = >>=-eq-some (function_type_for ret (chain ∷ others)) _ e₃ in
      let same : chain ≡ chain_at s₁.arg_count = unfold single in ground arith in
      (
        ret,
        s₁,
        s₂,
        others,
        ft,
        r,
        p,
        subst (λ t. function_type_for ret (t ∷ others) ≡ some ft) same f,
        subst (λ t. o ≡ record { infov = ret ∷ t ∷ others; fcn_type_for_abi = ft }) same
            (sym (of_some e₄)),
      )

  -- The parameters of the function type behind `pre`, which the result added.
  rest-IsPlaced :
      (bts : List Btype) (s₁ : AbiState) (pre : List LlvmType) {others : List CabiParamInfo}
      {s₂ : AbiState}
      → s₁.arg_count ≡ length pre
      → length pre ≤ 1
      → 2 * length bts + 5 < 2 ^ 31
      → analyze_abi_params dl bts (add_chain_arg s₁) ≡ some (others, s₂)
      → All
          (IsPlaced (pre ++ (llvm_ptr_type ∷ all_signature_types others)))
          (chain_at s₁.arg_count ∷ others)
        × (length others ≡ length bts)
  unfolding add_chain_arg
  rest-IsPlaced bts s₁ pre {others} at few small ok =
      let (placed, many) =
        params-IsPlaced dl bts (add_chain_arg s₁) (pre ++ (llvm_ptr_type ∷ []))
          (omega (arith, length-append pre (llvm_ptr_type ∷ []))) (omega arith) ok in
      (
        (
          inr (ground arith, slice pre (llvm_ptr_type ∷ []) (all_signature_types others) _ at),
          rw append_assoc at placed,
        ),
        many,
      )

  pub function_type_indirect :
      (ret : CabiParamInfo) (others : List CabiParamInfo) (t : LlvmType) {ft : FunctionType}
      → ret.disp ≡ indirect
      → ret.abi_types ≡ t ∷ []
      → function_type_for ret others ≡ some ft
      → ft ≡ record { result = void; params = t ∷ all_signature_types others }
  unfolding function_type_for abi_type
  function_type_indirect ret others t d a e = ground arith

  pub function_type_plain :
      (ret : CabiParamInfo) (others : List CabiParamInfo) {ft : FunctionType}
      → ret.disp ≢ indirect
      → function_type_for ret others ≡ some ft
      → (ret.abi_types ≡ ft.result ∷ []) × (ft.params ≡ all_signature_types others)
  unfolding function_type_for abi_type
  function_type_plain ret others d e = ground arith

  plain-IsLaidOut :
      (bts : List Btype) (ret : CabiParamInfo) (s₁ s₂ : AbiState) (others : List CabiParamInfo)
      (ft : FunctionType)
      → 2 * length bts + 5 < 2 ^ 31
      → ret.disp ≢ indirect
      → s₁.arg_count ≡ 0
      → analyze_abi_params dl bts (add_chain_arg s₁) ≡ some (others, s₂)
      → function_type_for ret (chain_at s₁.arg_count ∷ others) ≡ some ft
      → IsLaidOut bts
          (record { infov = ret ∷ chain_at s₁.arg_count ∷ others; fcn_type_for_abi = ft })
  unfolding all_signature_types signature_types
  plain-IsLaidOut bts ret s₁ s₂ others ft small d at p f =
      let (abi, params) = function_type_plain ret (chain_at s₁.arg_count ∷ others) d f in
      let (placed, many) = rest-IsPlaced bts s₁ [] at (omega arith) small p in
      record {
        ret = ret;
        chain = chain_at s₁.arg_count;
        others = others;
        entries = refl;
        one_each = many;
        chain_pointer = (refl, refl, refl);
        placed =
            subst (λ ps. All (IsPlaced ps) (chain_at s₁.arg_count ∷ others)) (sym params) placed;
        passed = inr (d, abi, at);
      }

  indirect-IsLaidOut :
      (bts : List Btype) (ret : CabiParamInfo) (s₁ s₂ : AbiState) (others : List CabiParamInfo)
      (ft : FunctionType) (t : LlvmType)
      → 2 * length bts + 5 < 2 ^ 31
      → (ret.disp ≡ indirect) × (ret.attr ≡ struct_return) × (ret.abi_types ≡ t ∷ [])
      → s₁.arg_count ≡ 1
      → analyze_abi_params dl bts (add_chain_arg s₁) ≡ some (others, s₂)
      → function_type_for ret (chain_at s₁.arg_count ∷ others) ≡ some ft
      → IsLaidOut bts
          (record { infov = ret ∷ chain_at s₁.arg_count ∷ others; fcn_type_for_abi = ft })
  unfolding all_signature_types signature_types
  indirect-IsLaidOut bts ret s₁ s₂ others ft t small (d, a, abi) at p f =
      let whole = function_type_indirect ret (chain_at s₁.arg_count ∷ others) t d abi f in
      let (placed, many) = rest-IsPlaced bts s₁ (t ∷ []) at (omega arith) small p in
      record {
        ret = ret;
        chain = chain_at s₁.arg_count;
        others = others;
        entries = refl;
        one_each = many;
        chain_pointer = (refl, refl, refl);
        placed =
            subst (λ (k : FunctionType). All (IsPlaced k.params) (chain_at s₁.arg_count ∷ others))
              (sym whole) placed;
        passed = inl (d, a, rw whole, rw whole (sym abi), at);
      }

  -- Where the calling convention is followed, every analysis that succeeds is consistent: there is
  -- one entry for the result, one for the static chain and one for each parameter; each entry that
  -- is not ignored finds exactly its types in the cooked function type at its offset; a result in
  -- memory makes the function void and takes the first parameter, the chain the second, and any
  -- other result is the function's result, with the chain first. The condition keeps the argument
  -- count within an `int`.
  pub analyze-IsLaidOut :
      (bts : List Btype) (result : Btype) (o : CabiOracle)
      → 2 * length bts + 5 < 2 ^ 31
      → analyze dl bts result true ≡ some o
      → IsLaidOut bts o
  unfolding fresh add_indirect_return
  analyze-IsLaidOut bts result o small e =
      let (ret, s₁, s₂, others, ft, r, p, f, same) = analyze_parts bts result e in
      rw same (elim (analyze_abi_return-ReturnOutcome dl result s₁ r) [
        | ignored w i n ↦
            plain-IsLaidOut bts ret s₁ s₂ others ft small (ground arith) (ground arith) p f
        | registers rs f' w z i n ↦
            plain-IsLaidOut bts ret s₁ s₂ others ft small (ground arith) (ground arith) p f
        | memory l i n ↦
            indirect-IsLaidOut bts ret s₁ s₂ others ft (pointer (type result)) small (ground arith)
              (ground arith) p f
      ])
