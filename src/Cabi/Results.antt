-- ===== src/Cabi/Results.antt =====
-- How go-llvm-cabi-oracle.cpp returns the result of a function.
use dragongo.Common.{
  ◌≤◌, ◌<◌, ◌≡◌, ap, subst, ◌⊎◌, inl, inr, true, false, some, of_some, Option-cases, List, [], ◌∷◌,
  arith, >>=-eq-some, length, Bool-cases,
}
use dragongo.Cabi.Types.{
  LlvmType, void, pointer, struct, cons, nil, Btype, DataLayout, type, is_void,
}
use dragongo.Cabi.Regions.{EightByteRegion, attr_none, struct_return}
use dragongo.Cabi.{
  direct, ignore, indirect, CabiParamInfo, AbiState, no_offset, single, add_indirect_return, fresh,
  analyze_abi_return, direct_return, return_disp,
}
use dragongo.Cabi.State.{classify_arg_type_cases}
use dragongo.Cabi.Explode.{eight_byte_info}

-- The type that the regions of a result are returned as: that of the only one, or both in a
-- structure.
abbrev pub ReturnedAs : List EightByteRegion → List LlvmType → Type 0
ReturnedAs [] ts = ⊥
ReturnedAs (r ∷ []) ts = (t : LlvmType) × (r.abi_direct_type ≡ some t) × (ts ≡ t ∷ [])
ReturnedAs (r ∷ r' ∷ []) ts =
    (t : LlvmType) × (t' : LlvmType) × (r.abi_direct_type ≡ some t)
    × (r'.abi_direct_type ≡ some t')
    × (ts ≡ struct (cons t (cons t' nil)) ∷ [])
ReturnedAs (r ∷ r' ∷ _ ∷ _) ts = ⊥

module _ (dl : DataLayout) where
  -- The result of a function.
  pub data ReturnOutcome (bt : Btype) (info : CabiParamInfo) (s : AbiState) : Type 0 where
    ignored :
        (is_void (type bt) ≡ true) ⊎ (dl.alloc_size (type bt) ≡ 0)
        → info ≡ record {
          abi_types = void ∷ [];
          disp = ignore;
          attr = attr_none;
          sig_offset = no_offset;
        }
        → s ≡ fresh
        → ReturnOutcome bt info s
    memory :
        (is_void (type bt) ≡ false) × (16 < dl.alloc_size (type bt))
        → info ≡ record {
          abi_types = pointer (type bt) ∷ [];
          disp = indirect;
          attr = struct_return;
          sig_offset = 0;
        }
        → s ≡ add_indirect_return fresh
        → ReturnOutcome bt info s
    registers :
        (rs : List EightByteRegion)
        → eight_byte_info dl bt ≡ some rs
        → ReturnedAs rs info.abi_types
        → (is_void (type bt) ≡ false)
          × (0 < dl.alloc_size (type bt))
          × (dl.alloc_size (type bt) ≤ 16)
        → (info.disp ≡ direct) × (length info.abi_types ≡ 1) × (info.sig_offset ≡ no_offset)
        → s ≡ fresh
        → ReturnOutcome bt info s

  direct_return_lem :
      (rs : List EightByteRegion) {info : CabiParamInfo}
      → direct_return dl rs ≡ some info
      → ((info.disp ≡ direct) × (length info.abi_types ≡ 1) × (info.sig_offset ≡ no_offset))
        × ReturnedAs rs info.abi_types
  unfolding direct_return single
  direct_return_lem [] e = absurd (ground arith)
  direct_return_lem (r ∷ []) e = elim (Option-cases r.abi_direct_type) [
    | inl gone ↦ absurd (ground arith)
    | inr (t, typed) ↦ (ground arith, (t, typed, ground arith))
  ]
  direct_return_lem (r ∷ r' ∷ []) e = elim (Option-cases r.abi_direct_type) [
    | inl gone ↦ absurd (ground arith)
    | inr (t, typed) ↦ elim (Option-cases r'.abi_direct_type) [
      | inl gone ↦ absurd (ground arith)
      | inr (t', typed') ↦ (ground arith, (t, t', typed, typed', ground arith))
    ]
  ]
  direct_return_lem (r ∷ r' ∷ r'' ∷ rs) e = absurd (ground arith)

  pub return_disp_cases :
      (t : LlvmType)
      → (((is_void t ≡ true) ⊎ (dl.alloc_size t ≡ 0)) × (return_disp dl t ≡ ignore))
        ⊎ ((is_void t ≡ false) × (16 < dl.alloc_size t) × (return_disp dl t ≡ indirect))
        ⊎ (((is_void t ≡ false) × (0 < dl.alloc_size t) × (dl.alloc_size t ≤ 16))
            × (return_disp dl t ≡ direct))
  unfolding return_disp
  return_disp_cases t = elim (Bool-cases (is_void t)) [
    | inl v ↦ inl (inl v, rw v)
    | inr v ↦ elim (classify_arg_type_cases dl t) [
      | inl (z, k) ↦ inl (inr z, rw v k)
      | inr (inl (l, k)) ↦ inr (inl (v, l, rw v k))
      | inr (inr (z, l, k)) ↦ inr (inr ((v, z, l), rw v k))
    ]
  ]

  pub analyze_abi_return-ReturnOutcome :
      (bt : Btype) (s : AbiState) {info : CabiParamInfo}
      → analyze_abi_return dl bt fresh ≡ some (info, s)
      → ReturnOutcome bt info s
  unfolding analyze_abi_return single
  analyze_abi_return-ReturnOutcome bt s {info} e = elim (return_disp_cases (type bt)) [
    | inl (why, k) ↦
        let e' = rw (k, analyze_abi_return) at e in
        ReturnOutcome.ignored why (ground arith) (ground arith)
    | inr (inl (v, l, k)) ↦
        let e' = rw (k, analyze_abi_return) at e in
        ReturnOutcome.memory (v, l) (ground arith) (ground arith)
    | inr (inr (sized, k)) ↦
        let (rs, found, e₂) =
          >>=-eq-some (eight_byte_info dl bt) _ (rw (k, analyze_abi_return) at e) in
        let (i, made, done) = >>=-eq-some (direct_return dl rs) _ e₂ in
        let (facts, returned) = direct_return_lem rs made in
        let same : i ≡ info = ap (λ (r : CabiParamInfo × AbiState). r.0) (of_some done) in
        ReturnOutcome.registers rs found
          (subst (λ (j : CabiParamInfo). ReturnedAs rs j.abi_types) same returned) sized
          (ground arith) (ground arith)
  ]
