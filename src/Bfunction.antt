-- ===== src/Bfunction.antt =====
-- llvm-gofrontend/go-llvm-bfunction.cpp and .h, go-llvm-bvariable.cpp and .h: the values that stand
-- for the parameters and the variables of a function, and its labels.
pub mod Variables
pub mod Params
pub mod Setup
pub mod Start
pub mod Construct
mod Runs
use dragongo.Common.{
  ℕ, ◌+◌, ◌<◌, ◌++◌, Bool, true, false, not, ◌||◌, Option, none, some, List, [], ◌∷◌, Text, codes,
  ◌==◌, ltb, if◌then◌else◌, length, get_elem?,
}
use dragongo.Common.Run.{Run, ok, stop, null_pointer, ◌>>=◌, ◌>>◌, assert, deref, asserted}
use dragongo.Bnode.{set_elem}
use dragongo.NameGen.{NameGen, namegen, choose_ver}
use dragongo.Cabi.Types.{LlvmType, Btype, type, u32}
use dragongo.Cabi.Regions.{
  CabiParamAttr, attr_is_none, attr_none, struct_return, by_val, nest, zext, sext,
}
use dragongo.Cabi.{
  direct, ignore, indirect, CabiParamDisp, CabiParamInfo, CabiOracle, param_info, return_info,
  chain_info,
}

-- An argument of the LLVM function or one of the function's allocas, by its position.
pub data Value : Type 0 where
  argument alloca : ℕ → Value

abbrev pub value_eq : Value → Value → Bool
value_eq (argument i) (argument j) = i == j
value_eq (alloca i) (alloca j) = i == j
value_eq _ _ = false

abbrev pub is_argument : Value → Bool
is_argument (argument i) = true
is_argument (alloca i) = false

-- `llvm::Argument` with the name that is asked for and the attributes that it has been given.
pub record Argument : Type 0 where
  pub name : Text
  pub attributes : List CabiParamAttr

pub record Alloca : Type 0 where
  pub allocated : LlvmType
  pub name : Text

pub data WhichVar : Type 0 where
  param_var global_var local_var block_var error_var : WhichVar

pub record Bvariable : Type 0 where
  pub name : Text
  pub value : Value
  pub initializer : Option ℕ
  pub btype : Btype
  pub location : ℕ
  pub which : WhichVar
  pub addrtaken : Bool
  pub temporary : Bool

-- The constructor of `Bvariable`.
pub new_variable : Btype → ℕ → Text → WhichVar → Bool → Value → Bvariable
new_variable btype location name which address_taken value = record {
  name = name;
  value = value;
  initializer = none;
  btype = btype;
  location = location;
  which = which;
  addrtaken = address_taken;
  temporary = false;
}

abbrev pub is_set {ℓ} : {A : Type ℓ} → Option A → Bool
is_set none = false
is_set (some a) = true

abbrev is_global : WhichVar → Bool
is_global global_var = true
is_global _ = false

-- `Bvariable::setInitializer`; `is_instruction` is LLVM's test of the value.
pub set_initializer : (ℕ → Bool) → Option ℕ → Bvariable → Run Bvariable
set_initializer is_instruction init v = do
  assert (not (is_set v.initializer))
  assert (is_set init)
  i ← deref init
  assert (is_global v.which || is_instruction i)
  ok (record v { initializer = some i })

-- The state of a `Bfunction`; `variables` holds every variable made for it in the order of making,
-- and the other lists refer to it by position. The function's own name, its blocks and its flags are
-- left out.
pub record Bfunction : Type 0 where
  pub oracle : CabiOracle
  pub param_types : List Btype
  pub arguments : List Argument
  pub allocas : List Alloca
  pub variables : List Bvariable
  pub local_variables : List ℕ
  pub value_var_map : List (Value × ℕ)
  pub rtn_value_mem : Option Value
  pub chain_val : Option Value
  pub param_values : List Value
  pub params_registered : ℕ
  pub labelmap : List (Option ℕ)
  pub labels : List ℕ
  pub tags : NameGen

-- `Bfunction::namegen`
pub name_for : Text → Bfunction → Text × Bfunction
name_for tag f =
    let (name, tags) = namegen f.tags tag choose_ver in (name, record f { tags = tags })

-- An access to `arguments_`; behind the end it stops.
pub change_argument : ℕ → (Argument → Argument) → Bfunction → Run Bfunction
change_argument i change f = do
  a ← deref (get_elem? f.arguments i)
  ok (record f { arguments = set_elem f.arguments i (change a) })

abbrev pub set_name : Text → Argument → Argument
set_name name a = record a { name = name }

abbrev pub add_attr : CabiParamAttr → Argument → Argument
add_attr attr a = record a { attributes = a.attributes ++ (attr ∷ []) }

-- `Bfunction::addAlloca`, where an empty name is none.
pub add_alloca : LlvmType → Text → Bfunction → Value × Bfunction
add_alloca t name f = (
  alloca (length f.allocas),
  record f { allocas = f.allocas ++ (record { allocated = t; name = name } ∷ []) },
)

-- `Bfunction::createTemporary`
pub create_temporary : Btype → Text → Bfunction → Value × Bfunction
create_temporary bt tag f = add_alloca (type bt) tag f

abbrev push_value : Value → Bfunction → Bfunction
push_value v f = record f { param_values = f.param_values ++ (v ∷ []) }

-- A result that goes to memory takes the first argument.
pub set_up_result : CabiParamDisp → Bfunction → Run (Bfunction × ℕ)
set_up_result indirect f =
    let (sretname, f₁) = name_for (codes "sret.formal") f in
    do
      f₂ ← change_argument 0 (set_name sretname) f₁
      f₃ ← change_argument 0 (add_attr struct_return) f₂
      ok (record f₃ { rtn_value_mem = some (argument 0) }, 1)
set_up_result direct f = ok (f, 0)
set_up_result ignore f = ok (f, 0)

abbrev pub is_direct : CabiParamDisp → Bool
is_direct direct = true
is_direct _ = false

-- The static chain takes the next one.
pub set_up_chain : CabiParamDisp → Bfunction → ℕ → Run (Bfunction × ℕ)
set_up_chain disp f arg_idx = do
  assert (is_direct disp)
  let (nestname, f₁) = name_for (codes "nest") f
  f₂ ← change_argument arg_idx (set_name nestname) f₁
  f₃ ← change_argument arg_idx (add_attr nest) f₂
  ok (record f₃ { chain_val = some (argument arg_idx) }, u32 (arg_idx + 1))

-- The attribute of a parameter in registers.
pub extend_argument : CabiParamAttr → ℕ → Bfunction → Run Bfunction
extend_argument sext i f = change_argument i (add_attr sext) f
extend_argument zext i f = change_argument i (add_attr zext) f
extend_argument attr i f = do assert (attr_is_none attr); ok f

-- The switch over one parameter.
pub set_up_param : CabiParamInfo → Btype → Bfunction → ℕ → Run (Bfunction × ℕ)
set_up_param info bt f arg_idx = elim info.disp [
  | ignore ↦ (let (inst, f₁) = add_alloca (type bt) [] f in ok (push_value inst f₁, arg_idx))
  | indirect ↦ (do
    held ← deref (get_elem? f.arguments arg_idx)
    assert (length info.abi_types == 1)
    f₁ ← change_argument arg_idx (add_attr by_val) (push_value (argument arg_idx) f)
    ok (f₁, u32 (arg_idx + 1)))
  | direct ↦
      (let (inst, f₁) = add_alloca (type bt) [] f in
        do
          f₂ ← extend_argument info.attr arg_idx (push_value inst f₁)
          ok (f₂, u32 (arg_idx + length info.abi_types)))
]

-- The loop over the parameters, from number `idx` on.
pub set_up_params : List Btype → ℕ → Bfunction → ℕ → Run (Bfunction × ℕ)
set_up_params [] idx f arg_idx = ok (f, arg_idx)
set_up_params (bt ∷ bts) idx f arg_idx = do
  info ← asserted (param_info f.oracle idx)
  (f₁, next_idx) ← set_up_param info bt f arg_idx
  set_up_params bts (u32 (idx + 1)) f₁ next_idx

-- The argument list, where it is still empty.
pub populate : List Argument → Bfunction → Bfunction
populate formals f = elim f.arguments [ [] ↦ record f { arguments = formals } | _ ∷ _ ↦ f ]

-- `Bfunction::abiSetup`, with the arguments of the LLVM function.
pub abi_setup : List Argument → Bfunction → Run Bfunction
abi_setup formals f = do
  let f₀ = populate formals f
  ret ← asserted (return_info f.oracle)
  (f₁, idx₁) ← set_up_result ret.disp f₀
  chain ← asserted (chain_info f.oracle)
  (f₂, idx₂) ← set_up_chain chain.disp f₁ idx₁
  (f₃, idx₃) ← set_up_params f.param_types 0 f₂ idx₂
  ok f₃

-- A function before its set-up.
pub new_function : CabiOracle → List Btype → NameGen → Bfunction
new_function o params tags = record {
  oracle = o;
  param_types = params;
  arguments = [];
  allocas = [];
  variables = [];
  local_variables = [];
  value_var_map = [];
  rtn_value_mem = none;
  chain_val = none;
  param_values = [];
  params_registered = 0;
  labelmap = [];
  labels = [];
  tags = tags;
}

-- The constructor of `Bfunction`.
pub make_function : CabiOracle → List Btype → NameGen → Bool → List Argument → Run Bfunction
make_function o params tags follows_cabi formals =
    if follows_cabi
    then abi_setup formals (new_function o params tags)
    else ok (new_function o params tags)
