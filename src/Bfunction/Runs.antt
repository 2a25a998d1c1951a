-- ===== src/Bfunction/Runs.antt =====
-- Functions and their variables as go-llvm-bfunction.cpp makes them.
use dragongo.Common.{
  ℕ, ◌≡◌, refl, inl, inr, true, false, none, some, List, [], ◌∷◌, arith, map, length-map, codes,
}
use dragongo.Common.Run.{ok, stop, null_pointer, assertion, value_of, ◌>>=◌}
use dragongo.Bnode.{set_elem}
use dragongo.NameGen
use dragongo.Cabi.Types.{
  LlvmType, integer, void, Btype, integer_type, struct_type, end, DataLayout, type_size,
}
use dragongo.Cabi.Types
use dragongo.Cabi.Regions.{EightByteRegion, attr_none, nest, sext}
use dragongo.Cabi.Explode.{
  eight_byte_info, explode, incorporate_scalar, scalar_region, determine_abi_types,
  determine_abi_type,
}
use dragongo.Cabi.{
  CabiOracle, analyze, return_disp, classify_arg_type, aux_is_simple, direct, ignore, no_offset,
  llvm_ptr_type, param_info, return_info, chain_info,
}
use dragongo.Cabi.Total.{analyze-some}
use dragongo.Bfunction.{
  Argument, argument, alloca, local_var, Bfunction, set_initializer, new_variable, name_for,
  change_argument, add_alloca, create_temporary, set_up_result, set_up_chain, extend_argument,
  set_up_param, set_up_params, populate, abi_setup, new_function, make_function,
}
use dragongo.Bfunction.Variables.{
  find_variable, record_variable, name_value, name_chunks, name_param, parameter_variable,
  static_chain_variable, local_variable, get_bvar_for_value, get_nth_param_var, get_parameter_vars,
  new_label, register_label_def_statement,
}
use dragongo.Bfunction.Construct.{IsReady, make_function-IsReady}

-- Integers take eight bytes, any other type takes 32.
size : LlvmType → ℕ
size (integer w) = 8
size _ = 32

abbrev layout : DataLayout
layout = record { size_in_bits = λ t. 64; alloc_size = size; element_offset = λ t i. 0 }

abbrev whole : Btype
whole = integer_type false (integer 64)

abbrev big : Btype
big = struct_type end (Types.other 5)

abbrev params : List Btype
params = whole ∷ big ∷ []

abbrev region : EightByteRegion
region = record {
  types = integer 64 ∷ [];
  offsets = 0 ∷ [];
  abi_direct_type = some (integer 64);
  attr = attr_none;
}

analysed : (o : CabiOracle) × (analyze layout params big true ≡ some o)
unfolding size return_disp classify_arg_type aux_is_simple eight_byte_info explode
    incorporate_scalar scalar_region determine_abi_types determine_abi_type type_size
analysed =
    analyze-some layout params big
      ((refl, inr (inr (region ∷ [], refl))), ((refl, inr (inl (omega arith))), tt))
      (inl (λ e. ground arith)) (omega arith)

abbrev formals : List Argument
formals = map (λ t. record { name = []; attributes = [] }) analysed.0.fcn_type_for_abi.params

make_function-IsReady_example :
    IsReady analysed.0 (make_function analysed.0 params NameGen.empty true formals)
make_function-IsReady_example =
    make_function-IsReady layout params big analysed.0 NameGen.empty formals (omega arith)
      analysed.1 (length-map _ _)

-- One integer in a register behind the static chain.
abbrev oracle : CabiOracle
oracle = record {
  infov =
      record { abi_types = void ∷ []; disp = ignore; attr = attr_none; sig_offset = no_offset }
      ∷ record { abi_types = llvm_ptr_type ∷ []; disp = direct; attr = nest; sig_offset = 0 }
      ∷ record { abi_types = integer 8 ∷ []; disp = direct; attr = sext; sig_offset = 1 }
      ∷ [];
  fcn_type_for_abi = record { result = void; params = llvm_ptr_type ∷ integer 8 ∷ [] };
}

abbrev plain : Argument
plain = record { name = []; attributes = [] }

made :
    (f : Bfunction) × (make_function oracle (whole ∷ []) NameGen.empty true (plain ∷ plain ∷ [])
      ≡ ok f)
unfolding make_function abi_setup populate new_function set_up_result set_up_chain set_up_params
    set_up_param extend_argument change_argument add_alloca name_for set_elem value_of return_info
    chain_info param_info
made = value_of _ refl

made_values : made.0.param_values ≡ alloca 0 ∷ []
unfolding made make_function abi_setup populate new_function set_up_result set_up_chain
    set_up_params set_up_param extend_argument change_argument add_alloca name_for set_elem value_of
    return_info chain_info param_info
made_values = refl

-- The same state, written out.
abbrev ready : Bfunction
ready = record {
  oracle = oracle;
  param_types = whole ∷ [];
  arguments = plain ∷ plain ∷ [];
  allocas = record { allocated = integer 64; name = [] } ∷ [];
  variables = [];
  local_variables = [];
  value_var_map = [];
  rtn_value_mem = none;
  chain_val = some (argument 0);
  param_values = alloca 0 ∷ [];
  params_registered = 0;
  labelmap = [];
  labels = [];
  tags = NameGen.empty;
}

entered : (r : ℕ × Bfunction) × (parameter_variable (codes "x") whole true 9 ready ≡ ok r)
unfolding parameter_variable record_variable find_variable name_param name_chunks name_value
    change_argument new_variable set_elem value_of param_info
entered = value_of _ refl

-- The first parameter is there, a second is not.
entered_var :
    (get_nth_param_var entered.0.1 0 ≡ ok 0)
    × (get_parameter_vars entered.0.1 entered.0.1.param_values ≡ ok (0 ∷ []))
    × (parameter_variable (codes "y") whole true 9 entered.0.1 ≡ stop null_pointer)
unfolding get_nth_param_var get_bvar_for_value get_parameter_vars entered parameter_variable
    record_variable find_variable name_param name_chunks name_value change_argument new_variable
    set_elem value_of param_info
entered_var = (refl, refl, refl)

-- The static chain gets a slot only once.
chain_twice :
    (static_chain_variable (codes "c") whole 9 ready >>= λ r.
    static_chain_variable (codes "c") whole 9 r.1)
    ≡ stop assertion
unfolding static_chain_variable record_variable find_variable change_argument new_variable
    add_alloca set_elem chain_info
chain_twice = refl

local_kept :
    (local_variable (codes "l") whole false 9 ready >>= λ r. ok r.1.local_variables) ≡ ok (0 ∷ [])
unfolding local_variable record_variable find_variable new_variable add_alloca
local_kept = refl

temporary_made : (create_temporary whole (codes "t") ready).0 ≡ alloca 1
unfolding create_temporary add_alloca
temporary_made = refl

-- A label is defined once.
label_twice :
    (register_label_def_statement (λ st. true) 4 0 (new_label 9 ready).1 >>= λ f.
    register_label_def_statement (λ st. true) 4 0 f)
    ≡ stop assertion
unfolding register_label_def_statement new_label set_elem
label_twice = refl

-- An initializer is set once.
initializer_twice :
    (set_initializer
        (λ i. true)
        (some 3)
        (new_variable whole 9 (codes "x") local_var false (alloca 0))
      >>= λ v. set_initializer (λ i. true) (some 3) v)
    ≡ stop assertion
unfolding set_initializer new_variable
initializer_twice = refl
