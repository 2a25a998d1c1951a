-- ===== src/Cabi/Runs.antt =====
-- Signatures as go-llvm-cabi-oracle.cpp analyses them.
use dragongo.Common.{
  ℕ, ◌+◌, ◌*◌, ◌/◌, ◌≡◌, refl, inl, inr, true, false, none, some, List, [], ◌∷◌, arith, get_elem?,
}
use dragongo.Cabi.Types.{
  LlvmType, LlvmTypes, void, float, double, integer, pointer, vector, array, struct, other, nil,
  cons, Btype, float_type, integer_type, array_type, struct_type, end, field, DataLayout, type,
  type_size,
}
use dragongo.Cabi.Disp.{typ_disp, elements_disp, disp_meet}
use dragongo.Cabi.Regions.{
  attr_none, by_val, struct_return, nest, EightByteRegion, region_disp, types_disp,
  register_requirements,
}
use dragongo.Cabi.Explode.{
  add_leaf_types, eight_byte_info, collect, extend_last, place_leaf, place_leaves, place_element,
  place_elements, last_of, explode_struct, explode_array, scalar_region, incorporate_scalar,
  sse_type, int_type, determine_abi_type, determine_abi_types, explode,
}
use dragongo.Cabi.{
  pass_param, aux_is_simple, add_chain_arg, add_indirect_return, add_indirect_arg, in_memory,
  single, function_type_for, abi_type, all_signature_types, signature_types, analyze_abi_params,
  analyze_abi_return, direct, ignore, indirect, CabiParamInfo, AbiState, CabiOracle, no_offset,
  llvm_ptr_type, fresh, analyze, analyze_abi_param, classify_arg_type, return_disp, in_registers,
  pass_regions, pass_region, add_direct_int_arg, add_direct_sse_arg, several, can_pass_directly,
  after_region, return_info, chain_info, param_info,
}
use dragongo.Cabi.State.{ParamOutcome, analyze_abi_param-ParamOutcome}
use dragongo.Cabi.Composite.{composite_array_unclassified}
use dragongo.Cabi.Arrays.{has, array_classified}
use dragongo.Cabi.Structs.{TypedRegions, struct_classified}
use dragongo.Cabi.Signature.{IsLaidOut, analyze-IsLaidOut}
use dragongo.Cabi.Total.{analyze-some}
use dragongo.Cabi.Raw.{raw_info, analyze_raw_signature}

-- Pointers of eight bytes, fields in slots of eight bytes.
mutual
  bytes : LlvmType → ℕ
  bytes void = 0
  bytes float = 4
  bytes double = 8
  bytes (integer w) = w / 8
  bytes (pointer t) = 8
  bytes (vector n t) = n * bytes t
  bytes (array n t) = n * bytes t
  bytes (struct ts) = slots ts
  bytes (other n) = 8

  slots : LlvmTypes → ℕ
  slots nil = 0
  slots (cons t ts) = 8 + slots ts

abbrev layout : DataLayout
layout = record {
  size_in_bits = λ t. bytes t * 8;
  alloc_size = bytes;
  element_offset = λ t idx. idx * 8;
}

abbrev int32 : Btype
int32 = integer_type false (integer 32)

abbrev uint8 : Btype
uint8 = integer_type true (integer 8)

abbrev uint16 : Btype
uint16 = integer_type true (integer 16)

-- A float64 and a uint8.
abbrev pair : Btype
pair =
    struct_type (field (float_type double) (field uint8 end))
      (struct (cons double (cons (integer 8) nil)))

-- Five 64-bit words.
abbrev big : Btype
big = array_type (integer_type true (integer 64)) 5 (array 5 (integer 64))

abbrev six_shorts : Btype
six_shorts = array_type uint16 6 (array 6 (integer 16))

-- Eight bytes of SSE class, and one more byte of integer class.
pair_regions : (rs : List EightByteRegion) × (eight_byte_info layout pair ≡ some rs)
unfolding eight_byte_info explode explode_struct explode_array place_leaf place_leaves place_element
    place_elements add_leaf_types collect incorporate_scalar scalar_region extend_last
    determine_abi_types determine_abi_type typ_disp elements_disp disp_meet sse_type int_type
    last_of region_disp types_disp type_size bytes
pair_regions = (
  record { types = double ∷ []; offsets = 0 ∷ []; abi_direct_type = some double; attr = attr_none }
      ∷ record {
        types = integer 8 ∷ [];
        offsets = 8 ∷ [];
        abi_direct_type = some (integer 8);
        attr = attr_none;
      }
      ∷ [],
  refl,
)

int32_regions : (rs : List EightByteRegion) × (eight_byte_info layout int32 ≡ some rs)
unfolding eight_byte_info explode explode_struct explode_array place_leaf place_leaves place_element
    place_elements add_leaf_types collect incorporate_scalar scalar_region extend_last
    determine_abi_types determine_abi_type typ_disp elements_disp disp_meet sse_type int_type
    last_of region_disp types_disp type_size bytes
int32_regions = (
  record {
    types = integer 32 ∷ [];
    offsets = 0 ∷ [];
    abi_direct_type = some (integer 32);
    attr = attr_none;
  }
      ∷ [],
  refl,
)

-- The array that a comment of the source splits into two regions.
six_shorts_unclassified : eight_byte_info layout six_shorts ≡ none
unfolding eight_byte_info explode explode_struct explode_array place_leaf place_leaves place_element
    place_elements add_leaf_types collect incorporate_scalar scalar_region extend_last
    determine_abi_types determine_abi_type typ_disp elements_disp disp_meet sse_type int_type
    last_of region_disp types_disp type_size bytes
six_shorts_unclassified = refl

array_classified_example : has (eight_byte_info layout six_shorts) ≡ false
unfolding typ_disp type_size bytes
array_classified_example =
    array_classified layout uint16 (array 6 (integer 16)) 6 2 refl refl (omega arith) (omega arith)
      (omega arith) (omega arith)

struct_classified_example :
    (rs : List EightByteRegion) × (eight_byte_info layout pair ≡ some rs)
    × TypedRegions layout ((double, 0) ∷ []) ((integer 8, 8) ∷ []) rs
unfolding add_leaf_types type_size bytes typ_disp
struct_classified_example =
    struct_classified layout (field (float_type double) (field uint8 end)) (type pair) (double, 0)
      [] ((integer 8, 8) ∷ []) (omega arith) refl
      (8, refl, omega arith, inl (refl, omega arith), omega arith, omega arith, tt)
      (1, refl, omega arith, inr refl, omega arith, omega arith, tt)

abbrev params : List Btype
params = int32 ∷ pair ∷ big ∷ []

analyze-some_example : (o : CabiOracle) × (analyze layout params big true ≡ some o)
unfolding return_disp classify_arg_type bytes aux_is_simple
analyze-some_example =
    analyze-some layout params big
      (
        (refl, inr (inr int32_regions)),
        ((refl, inr (inr pair_regions)), ((refl, inr (inl (omega arith))), tt)),
      )
      (inl (λ e. ground arith)) (omega arith)

abbrev pair_info : CabiParamInfo
pair_info = record {
  abi_types = double ∷ integer 8 ∷ [];
  disp = direct;
  attr = attr_none;
  sig_offset = 0;
}

abbrev pair_state : AbiState
pair_state = record { avail_int_regs = 5; avail_sse_regs = 7; arg_count = 2 }

pair_passed : analyze_abi_param layout pair fresh ≡ some (pair_info, pair_state)
unfolding analyze_abi_param aux_is_simple pass_param classify_arg_type fresh in_registers
    pass_regions pass_region add_direct_int_arg add_direct_sse_arg several can_pass_directly
    register_requirements after_region eight_byte_info explode explode_struct explode_array
    place_leaf place_leaves place_element place_elements add_leaf_types collect incorporate_scalar
    scalar_region extend_last determine_abi_types determine_abi_type typ_disp elements_disp
    disp_meet sse_type int_type last_of region_disp types_disp type_size bytes
pair_passed = refl

analyze_abi_param-ParamOutcome_example : ParamOutcome layout pair fresh pair_info pair_state
unfolding fresh
analyze_abi_param-ParamOutcome_example =
    analyze_abi_param-ParamOutcome layout pair fresh pair_passed (omega arith)

analyze_raw_signature_example :
    (o : CabiOracle) × (analyze layout params big false ≡ some o)
    × (o.fcn_type_for_abi
        ≡ record { result = type big; params = type int32 ∷ type pair ∷ type big ∷ [] })
    × (return_info o ≡ some (raw_info (type big) no_offset))
    × (chain_info o
        ≡ some (record {
          abi_types = llvm_ptr_type ∷ [];
          disp = ignore;
          attr = nest;
          sig_offset = no_offset;
        }))
    × ((i : ℕ) (bt : Btype)
        → get_elem? params i ≡ some bt
        → param_info o i ≡ some (raw_info (type bt) i))
analyze_raw_signature_example = analyze_raw_signature layout params big (omega arith)

abbrev big_pointer : LlvmType
big_pointer = pointer (type big)

abbrev analysed : CabiOracle
analysed = record {
  infov =
      record { abi_types = big_pointer ∷ []; disp = indirect; attr = struct_return; sig_offset = 0 }
      ∷ record { abi_types = llvm_ptr_type ∷ []; disp = direct; attr = nest; sig_offset = 1 }
      ∷ record { abi_types = integer 32 ∷ []; disp = direct; attr = attr_none; sig_offset = 2 }
      ∷ record {
        abi_types = double ∷ integer 8 ∷ [];
        disp = direct;
        attr = attr_none;
        sig_offset = 3;
      }
      ∷ record { abi_types = big_pointer ∷ []; disp = indirect; attr = by_val; sig_offset = 5 }
      ∷ [];
  fcn_type_for_abi = record {
    result = void;
    params = big_pointer ∷ llvm_ptr_type ∷ integer 32 ∷ double ∷ integer 8 ∷ big_pointer ∷ [];
  };
}

is_analysed : analyze layout params big true ≡ some analysed
unfolding analyze analyze_abi_param aux_is_simple pass_param classify_arg_type fresh in_registers
    pass_regions pass_region add_direct_int_arg add_direct_sse_arg several can_pass_directly
    register_requirements after_region eight_byte_info explode explode_struct explode_array
    place_leaf place_leaves place_element place_elements add_leaf_types collect incorporate_scalar
    scalar_region extend_last determine_abi_types determine_abi_type typ_disp elements_disp
    disp_meet sse_type int_type last_of region_disp types_disp type_size bytes add_chain_arg
    add_indirect_return add_indirect_arg in_memory single function_type_for abi_type
    all_signature_types signature_types analyze_abi_params analyze_abi_return return_disp slots
is_analysed = refl

analyze-IsLaidOut_example : IsLaidOut params analysed
analyze-IsLaidOut_example = analyze-IsLaidOut layout params big analysed (omega arith) is_analysed

-- An array of one struct with a float64 in it.
abbrev boxed : Btype
boxed = struct_type (field (float_type double) end) (struct (cons double nil))

composite_array_unclassified_example :
    eight_byte_info layout (array_type boxed 1 (array 1 (type boxed))) ≡ none
unfolding typ_disp elements_disp disp_meet type_size bytes slots
composite_array_unclassified_example =
    composite_array_unclassified layout boxed (array 1 (type boxed)) 1 8 refl refl refl
      (omega arith) (omega arith) (omega arith) (omega arith)
