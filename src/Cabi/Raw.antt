-- ===== src/Cabi/Raw.antt =====
-- Functions that do not follow the calling convention, `analyzeRaw` of go-llvm-cabi-oracle.cpp.
use dragongo.Common.{
  ℕ, zero, suc, ◌+◌, ◌^◌, ◌<◌, ◌≡◌, refl, false, some, List, [], ◌∷◌, arith, lt→ltb, length,
  get_elem?, map,
}
use dragongo.Cabi.Types.{LlvmType, Btype, DataLayout, type}
use dragongo.Cabi.Regions.{attr_none, nest}
use dragongo.Cabi.{
  direct, ignore, no_offset, CabiParamInfo, CabiOracle, single, raw_params, analyze_raw, analyze,
  llvm_ptr_type, param_info, return_info, chain_info,
}

abbrev pub raw_info : LlvmType → ℕ → CabiParamInfo
raw_info t off = record { abi_types = t ∷ []; disp = direct; attr = attr_none; sig_offset = off }

abbrev raw_infos : List Btype → ℕ → List CabiParamInfo
raw_infos [] i = []
raw_infos (bt ∷ bts) i = raw_info (type bt) i ∷ raw_infos bts (i + 1)

raw_params_lem :
    (bts : List Btype) (idx : ℕ)
    → idx + length bts < 2 ^ 31
    → raw_params bts idx ≡ some (raw_infos bts idx)
unfolding raw_params single
raw_params_lem [] idx small = refl
raw_params_lem (bt ∷ bts) idx small =
    rw (lt→ltb idx (2 ^ 31) (omega arith), raw_params_lem bts (idx + 1) (omega arith))

raw_infos_at :
    (bts : List Btype) (bt : Btype) (i idx : ℕ)
    → get_elem? bts i ≡ some bt
    → get_elem? (raw_infos bts idx) i ≡ some (raw_info (type bt) (idx + i))
raw_infos_at [] bt i idx e = ground arith
raw_infos_at (b ∷ bts) bt zero idx e = ground arith
raw_infos_at (b ∷ bts) bt (suc i) idx e = ground (arith, raw_infos_at bts bt i (idx + 1))

-- A function that does not follow the calling convention, with fewer than 2 ^ 31 parameters, always
-- has an analysis: the function type has the types as they are, the entry of the parameter of index
-- `i` has its one type and the offset `i`, the result is direct and the chain is ignored.
pub analyze_raw_signature :
    (dl : DataLayout) (bts : List Btype) (result : Btype)
    → length bts < 2 ^ 31
    → (o : CabiOracle) × (analyze dl bts result false ≡ some o)
      × (o.fcn_type_for_abi ≡ record { result = type result; params = map type bts })
      × (return_info o ≡ some (raw_info (type result) no_offset))
      × (chain_info o
          ≡ some (record {
            abi_types = llvm_ptr_type ∷ [];
            disp = ignore;
            attr = nest;
            sig_offset = no_offset;
          }))
      × ((i : ℕ) (bt : Btype)
          → get_elem? bts i ≡ some bt
          → param_info o i ≡ some (raw_info (type bt) i))
unfolding analyze analyze_raw single return_info chain_info param_info
analyze_raw_signature dl bts result small = (
  record {
    infov =
        raw_info (type result) no_offset
        ∷ record {
          abi_types = llvm_ptr_type ∷ [];
          disp = ignore;
          attr = nest;
          sig_offset = no_offset;
        }
        ∷ raw_infos bts 0;
    fcn_type_for_abi = record { result = type result; params = map type bts };
  },
  rw (raw_params_lem bts 0 (omega arith)),
  refl,
  refl,
  refl,
  λ i bt e. ground (arith, raw_infos_at bts bt i 0 e),
)
