-- ===== src/Bfunction/Variables.antt =====
-- The variables and the labels of a function, go-llvm-bfunction.cpp.
use dragongo.Common.{
  ℕ, ◌+◌, ◌++◌, Bool, false, not, Option, none, some, List, [], ◌∷◌, Text, codes, ◌==◌, ltb,
  if◌then◌else◌, length, get_elem?,
}
use dragongo.Common.Run.{Run, ok, ◌>>=◌, ◌>>◌, assert, deref, asserted}
use dragongo.Bnode.{set_elem}
use dragongo.Cabi.Types.{Btype, type, u32}
use dragongo.Cabi.{direct, ignore, indirect, CabiParamInfo, param_info, chain_info}
use dragongo.Bfunction.{
  Value, argument, alloca, value_eq, is_argument, Bvariable, param_var, local_var, new_variable,
  Bfunction, is_set, is_direct, set_name, change_argument, add_alloca,
}

-- `std::unordered_map::find` on `valueVarMap_`
unfoldable pub find_variable : Value → List (Value × ℕ) → Option ℕ
find_variable v [] = none
find_variable v ((w, var) ∷ m) = if value_eq w v then some var else find_variable v m

-- A new variable and its entry in `valueVarMap_`, where there is none yet.
unfoldable pub record_variable : Bvariable → Bfunction → Run (ℕ × Bfunction)
record_variable bv f = do
  assert (not (is_set (find_variable bv.value f.value_var_map)))
  ok (
    length f.variables,
    record f {
      variables = f.variables ++ (bv ∷ []);
      value_var_map = (bv.value, length f.variables) ∷ f.value_var_map;
    },
  )

-- The name of a value that is an alloca or an argument.
unfoldable pub name_value : Value → Text → Bfunction → Run Bfunction
name_value (argument i) name f = change_argument i (set_name name) f
name_value (alloca i) name f = do
  a ← deref (get_elem? f.allocas i)
  ok (record f { allocas = set_elem f.allocas i (record a { name = name }) })

-- The names of the arguments of a parameter in registers.
unfoldable pub name_chunks : CabiParamInfo → Text → Bfunction → Run Bfunction
name_chunks info name f =
    if length info.abi_types == 1 then change_argument info.sig_offset (set_name name) f else (do
      assert (length info.abi_types == 2)
      f₁ ← change_argument info.sig_offset (set_name (name ++ codes ".chunk0")) f
      change_argument (u32 (info.sig_offset + 1)) (set_name (name ++ codes ".chunk1")) f₁)

-- The switch that names the values of a parameter.
unfoldable pub name_param : CabiParamInfo → Value → Text → Bfunction → Run Bfunction
name_param info v name f = elim info.disp [
  | ignore ↦ name_value v name f
  | indirect ↦ change_argument info.sig_offset (set_name name) f
  | direct ↦ (do f₁ ← name_chunks info name f; name_value v (name ++ codes ".addr") f₁)
]

-- `Bfunction::parameterVariable`
unfoldable pub parameter_variable : Text → Btype → Bool → ℕ → Bfunction → Run (ℕ × Bfunction)
parameter_variable name btype is_address_taken location f =
    let arg_idx = f.params_registered in
    do
      v ← deref (get_elem? f.param_values arg_idx)
      (bv, f₁) ←
          record_variable (new_variable btype location name param_var is_address_taken v)
            (record f { params_registered = u32 (arg_idx + 1) })
      info ← asserted (param_info f.oracle arg_idx)
      f₂ ← name_param info v name f₁
      ok (bv, f₂)

-- `Bfunction::staticChainVariable`; the argument is the chain's only until then.
unfoldable pub static_chain_variable : Text → Btype → ℕ → Bfunction → Run (ℕ × Bfunction)
static_chain_variable name btype location f = do
  info ← asserted (chain_info f.oracle)
  assert (is_direct info.disp)
  f₁ ← change_argument info.sig_offset (set_name name) f
  let (inst, f₂) = add_alloca (type btype) (name ++ codes ".addr") f₁
  chain ← asserted f₂.chain_val
  assert (is_argument chain)
  record_variable (new_variable btype location name param_var false inst)
      (record f₂ { chain_val = some inst })

-- `Bfunction::localVariable`; the list of locals takes the variable before it is entered in the map.
unfoldable pub local_variable : Text → Btype → Bool → ℕ → Bfunction → Run (ℕ × Bfunction)
local_variable name btype is_address_taken location f =
    let (inst, f₁) = add_alloca (type btype) name f in
    record_variable (new_variable btype location name local_var is_address_taken inst)
      (record f₁ { local_variables = f₁.local_variables ++ (length f₁.variables ∷ []) })

-- `Bfunction::getBvarForValue`
unfoldable pub get_bvar_for_value : Bfunction → Value → Run ℕ
get_bvar_for_value f v = asserted (find_variable v f.value_var_map)

-- `Bfunction::getNthParamVar`
unfoldable pub get_nth_param_var : Bfunction → ℕ → Run ℕ
get_nth_param_var f arg_idx = do
  assert (ltb arg_idx (length f.param_values))
  v ← deref (get_elem? f.param_values arg_idx)
  get_bvar_for_value f v

-- `Bfunction::getParameterVars`
unfoldable pub get_parameter_vars : Bfunction → List Value → Run (List ℕ)
get_parameter_vars f [] = ok []
get_parameter_vars f (v ∷ vs) = do
  bv ← get_bvar_for_value f v
  rest ← get_parameter_vars f vs
  ok (bv ∷ rest)

-- `Bfunction::newLabel`, with the location of the label.
unfoldable pub new_label : ℕ → Bfunction → ℕ × Bfunction
new_label loc f = (
  length f.labels,
  record f { labelmap = f.labelmap ++ (none ∷ []); labels = f.labels ++ (loc ∷ []) },
)

-- `Bfunction::registerLabelDefStatement`, where `is_label_stmt` reads the flavour of the statement.
unfoldable pub register_label_def_statement : (ℕ → Bool) → ℕ → ℕ → Bfunction → Run Bfunction
register_label_def_statement is_label_stmt st label f = do
  assert (is_label_stmt st)
  def ← deref (get_elem? f.labelmap label)
  assert (not (is_set def))
  ok (record f { labelmap = set_elem f.labelmap label (some st) })
