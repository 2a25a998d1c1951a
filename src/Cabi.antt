-- ===== src/Cabi.antt =====
-- llvm-gofrontend/go-llvm-cabi-oracle.cpp and .h: how each parameter and the result of a function
-- travel under the x86-64 SysV calling convention.
pub mod Types
pub mod Disp
pub mod Regions
pub mod Explode
pub mod Passing
pub mod State
pub mod Places
pub mod Results
pub mod Signature
pub mod Outcomes
pub mod Arrays
pub mod Structs
pub mod Composite
pub mod Typed
pub mod Extended
pub mod Raw
pub mod Total
mod Runs
use dragongo.Common.{
  ℕ, ◌+◌, ◌-◌, ◌%◌, ◌^◌, ◌++◌, Bool, true, false, not, ◌&&◌, ◌||◌, Option, none, some, List, [],
  ◌∷◌, ltb, leb, ◌==◌, if◌then◌else◌, ◌>>=◌, ◌>>◌, assert, length, get_elem?, map,
}
use Types.{
  LlvmType, LlvmTypes, void, pointer, struct, nil, cons, integer, array, vector, aux_type, Btype,
  DataLayout, type, is_void, u32,
}
use Disp.{TypDisp, sse, int, empty, is_sse}
use Regions.{
  CabiParamAttr, attr_none, struct_return, by_val, nest, attr_is_none, attr_eq, EightByteRegion,
  region_disp, register_requirements,
}
use Explode.{eight_byte_info}

pub data CabiParamDisp : Type 0 where
  direct ignore indirect : CabiParamDisp

-- The stored form of the offset -1.
abbrev pub no_offset : ℕ
no_offset = 0xffffffff

pub record CabiParamInfo : Type 0 where
  pub abi_types : List LlvmType
  pub disp : CabiParamDisp
  pub attr : CabiParamAttr
  pub sig_offset : ℕ

-- `ABIState`
pub record AbiState : Type 0 where
  pub avail_int_regs : ℕ
  pub avail_sse_regs : ℕ
  pub arg_count : ℕ

unfoldable pub fresh : AbiState
fresh = record { avail_int_regs = 6; avail_sse_regs = 8; arg_count = 0 }

pub add_direct_int_arg : AbiState → AbiState
add_direct_int_arg s = record s {
  avail_int_regs = s.avail_int_regs - 1;
  arg_count = u32 (s.arg_count + 1);
}

pub add_direct_sse_arg : AbiState → AbiState
add_direct_sse_arg s = record s {
  avail_sse_regs = s.avail_sse_regs - 1;
  arg_count = u32 (s.arg_count + 1);
}

pub add_indirect_arg : AbiState → AbiState
add_indirect_arg s = record s { arg_count = u32 (s.arg_count + 1) }

unfoldable pub add_indirect_return : AbiState → AbiState
add_indirect_return s = record s {
  avail_int_regs = s.avail_int_regs - 1;
  arg_count = u32 (s.arg_count + 1);
}

unfoldable pub add_chain_arg : AbiState → AbiState
add_chain_arg s = record s { arg_count = u32 (s.arg_count + 1) }

-- The constructors of `CABIParamInfo`; the offset is an `int`, so it is negative from 2 ^ 31 on.
abbrev is_int_nonneg : ℕ → Bool
is_int_nonneg off = ltb off (2 ^ 31)

pub several : List LlvmType → CabiParamAttr → ℕ → Option CabiParamInfo
several types attr off = do
  assert (is_int_nonneg off)
  some (record { abi_types = types; disp = direct; attr = attr; sig_offset = off })

pub single : LlvmType → CabiParamDisp → CabiParamAttr → ℕ → Option CabiParamInfo
single t disp attr off =
    if is_int_nonneg off || off == no_offset
    then some (record { abi_types = t ∷ []; disp = disp; attr = attr; sig_offset = off })
    else none

-- `CABIParamInfo::computeABIStructType`
pub compute_abi_struct_type : CabiParamInfo → Option LlvmType
compute_abi_struct_type info = elim info.abi_types [
  | [] ↦ none
  | t ∷ ts ↦ elim ts [
    | [] ↦ elim t [ struct fs ↦ some (struct fs) | _ ↦ none ]
    | t' ∷ rest ↦ elim rest [ [] ↦ some (struct (cons t (cons t' nil))) | _ ↦ none ]
  ]
]

-- The assertion of `analyzeABIParam`: an auxiliary type is no composite, vector or small integer.
unfoldable pub aux_is_simple : Btype → Bool
aux_is_simple (aux_type (struct ts)) = false
aux_is_simple (aux_type (array n t)) = false
aux_is_simple (aux_type (vector n t)) = false
aux_is_simple (aux_type (integer w)) = not (w == 8 || w == 16)
aux_is_simple _ = true

-- `CABIOracle::canPassDirectly`
pub can_pass_directly : ℕ → ℕ → AbiState → Bool
can_pass_directly ints sses s =
    ints + sses == 1 || (leb ints s.avail_int_regs && leb sses s.avail_sse_regs)

-- What passing the regions directly adds: the types, the attribute and the state.
pub record Passed : Type 0 where
  pub types : List LlvmType
  pub attr : CabiParamAttr
  pub state : AbiState

pub after_region : EightByteRegion → LlvmType → Passed → Passed
after_region r t p = record {
  types = p.types ++ (t ∷ []);
  attr = if attr_is_none r.attr then p.attr else r.attr;
  state = if is_sse (region_disp r) then add_direct_sse_arg p.state else add_direct_int_arg p.state;
}

-- One round of the loop of `analyzeABIParam`.
pub pass_region : EightByteRegion → Passed → Option Passed
unfolding after_region
pass_region r p = do
  t ← r.abi_direct_type
  assert (attr_is_none r.attr || (attr_is_none p.attr || attr_eq p.attr r.attr))
  some (after_region r t p)

pub pass_regions : List EightByteRegion → Passed → Option Passed
pass_regions [] p = some p
pass_regions (r ∷ rs) p = do p' ← pass_region r p; pass_regions rs p'

pub in_memory : Btype → AbiState → Option (CabiParamInfo × AbiState)
in_memory bt s = do
  info ← single (pointer (type bt)) indirect by_val s.arg_count
  some (info, add_indirect_arg s)

pub in_registers : List EightByteRegion → AbiState → Option (CabiParamInfo × AbiState)
in_registers regions s = do
  p ← pass_regions regions (record { types = []; attr = attr_none; state = s })
  info ← several p.types p.attr s.arg_count
  some (info, p.state)

module _ (dl : DataLayout) where
  open dl use {alloc_size}

  unfoldable pub classify_arg_type : LlvmType → CabiParamDisp
  classify_arg_type t =
      if alloc_size t == 0 then ignore else if leb (alloc_size t) 16 then direct else indirect

  pub direct_return : List EightByteRegion → Option CabiParamInfo
  direct_return [] = none
  direct_return (r ∷ []) = do t ← r.abi_direct_type; single t direct r.attr no_offset
  direct_return (r ∷ r' ∷ []) = do
    t ← r.abi_direct_type
    t' ← r'.abi_direct_type
    single (struct (cons t (cons t' nil))) direct attr_none no_offset
  direct_return (r ∷ r' ∷ _ ∷ _) = none

  -- How the result travels, `rdisp` of `analyzeABIReturn`.
  unfoldable pub return_disp : LlvmType → CabiParamDisp
  return_disp t = if is_void t then ignore else classify_arg_type t

  pub analyze_abi_return : Btype → AbiState → Option (CabiParamInfo × AbiState)
  analyze_abi_return bt s = elim (return_disp (type bt)) [
    | ignore ↦ (do info ← single void ignore attr_none no_offset; some (info, s))
    | indirect ↦ (do
      info ← single (pointer (type bt)) indirect struct_return 0
      some (info, add_indirect_return s))
    | direct ↦ (do regions ← eight_byte_info dl bt; info ← direct_return regions; some (info, s))
  ]

  -- `analyzeABIParam` from its classification on.
  pub pass_param : Btype → AbiState → Option (CabiParamInfo × AbiState)
  pass_param bt s = elim (classify_arg_type (type bt)) [
    | ignore ↦ (do info ← single void ignore attr_none no_offset; some (info, s))
    | indirect ↦ in_memory bt s
    | direct ↦ (do
      regions ← eight_byte_info dl bt
      let (ints, sses) = register_requirements regions
      if can_pass_directly ints sses s then in_registers regions s else in_memory bt s)
  ]

  pub analyze_abi_param : Btype → AbiState → Option (CabiParamInfo × AbiState)
  analyze_abi_param bt s = do assert (aux_is_simple bt); pass_param bt s

  -- The parameters in order, each in the state that the one before left.
  unfoldable pub analyze_abi_params : List Btype → AbiState → Option (List CabiParamInfo × AbiState)
  analyze_abi_params [] s = some ([], s)
  analyze_abi_params (bt ∷ bts) s = do
    (info, s₁) ← analyze_abi_param bt s
    (infos, s₂) ← analyze_abi_params bts s₁
    some (info ∷ infos, s₂)

-- `llvm::FunctionType`, without varargs.
pub record FunctionType : Type 0 where
  pub result : LlvmType
  pub params : List LlvmType

-- `CABIOracle` after its constructor; slot 0 is the result, slot 1 the static chain.
pub record CabiOracle : Type 0 where
  pub infov : List CabiParamInfo
  pub fcn_type_for_abi : FunctionType

-- The types that an entry adds to the signature.
unfoldable pub signature_types : CabiParamInfo → List LlvmType
signature_types info = elim info.disp [ ignore ↦ [] | _ ↦ info.abi_types ]

unfoldable pub all_signature_types : List CabiParamInfo → List LlvmType
all_signature_types [] = []
all_signature_types (info ∷ infos) = signature_types info ++ all_signature_types infos

-- `abiType()` asserts that there is one slot.
pub abi_type : CabiParamInfo → Option LlvmType
abi_type info = elim info.abi_types [ [] ↦ none | t ∷ ts ↦ elim ts [ [] ↦ some t | _ ↦ none ] ]

-- The cooked function type of the entries.
pub function_type_for : CabiParamInfo → List CabiParamInfo → Option FunctionType
function_type_for ret others = do
  t ← abi_type ret
  some (elim ret.disp [
    | indirect ↦ record { result = void; params = t ∷ all_signature_types others }
    | _ ↦ record { result = t; params = all_signature_types others }
  ])

-- `TypeManager::llvmPtrType`: a pointer to bytes.
abbrev pub llvm_ptr_type : LlvmType
llvm_ptr_type = pointer (integer 8)

-- The loop over the parameters of `analyzeRaw`.
pub raw_params : List Btype → ℕ → Option (List CabiParamInfo)
raw_params [] idx = some []
raw_params (bt ∷ bts) idx = do
  info ← single (type bt) direct attr_none idx
  infos ← raw_params bts (idx + 1)
  some (info ∷ infos)

pub analyze_raw : List Btype → Btype → Option CabiOracle
analyze_raw params result = do
  rinfo ← single (type result) direct attr_none no_offset
  cinfo ← single llvm_ptr_type ignore nest no_offset
  pinfos ← raw_params params 0
  some (record {
    infov = rinfo ∷ cinfo ∷ pinfos;
    fcn_type_for_abi = record { result = type result; params = map type params };
  })

-- The constructor of `CABIOracle`, with `analyze`.
pub analyze : DataLayout → List Btype → Btype → Bool → Option CabiOracle
analyze dl params result follows_cabi =
    if follows_cabi
    then (do
      (rinfo, s₁) ← analyze_abi_return dl result fresh
      cinfo ← single llvm_ptr_type direct nest s₁.arg_count
      (pinfos, s₂) ← analyze_abi_params dl params (add_chain_arg s₁)
      ftype ← function_type_for rinfo (cinfo ∷ pinfos)
      some (record { infov = rinfo ∷ cinfo ∷ pinfos; fcn_type_for_abi = ftype }))
    else analyze_raw params result

-- `CABIOracle::paramInfo`, `returnInfo` and `chainInfo`.
unfoldable pub param_info : CabiOracle → ℕ → Option CabiParamInfo
param_info o idx = get_elem? o.infov (idx + 2)

unfoldable pub return_info : CabiOracle → Option CabiParamInfo
return_info o = get_elem? o.infov 0

unfoldable pub chain_info : CabiOracle → Option CabiParamInfo
chain_info o = get_elem? o.infov 1
