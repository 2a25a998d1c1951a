-- ===== src/Builder/Make.antt =====
-- The functions of `BnodeBuilder` that make nodes, in llvm-gofrontend/go-llvm-bnode.cpp.
use dragongo.Common.{
  ℕ, ◌+◌, ◌++◌, Bool, true, false, ◌||◌, Option, none, some, List, [], ◌∷◌, ◌==◌, if◌then◌else◌,
  ◌>>=◌, ◌>>◌, assert, length,
}
use dragongo.Bnode.{
  NodeFlavor, n_error, n_const, n_var, n_fcn_address, n_conversion, n_deref, n_address, n_unary_op,
  n_struct_field, n_binary_op, n_compound, n_array_index, n_composite, n_call, n_label_stmt,
  n_goto_stmt, n_expr_stmt, n_return_stmt, n_defer_stmt, n_if_stmt, n_excep_stmt, n_block_stmt,
  n_switch_stmt, Value, instruction, constant, SwitchCaseDesc, of_var, of_func, of_label, of_op,
  of_field_index, of_swcases, Bnode, node_at, set_elem,
}
use dragongo.Integrity.{ValueExprmap}
use dragongo.Builder.{
  BnodeBuilder, new_expr, new_stmt, append_instruction, append_instructions, append_inst_if_needed,
  archive_expr, archive_stmt,
}

abbrev pub Made : Type 0
Made = Option (ℕ × BnodeBuilder)

-- `rval->setVarExprPending(src->varContext())` where it is pending.
unfoldable pub with_context : Bnode → Bnode → Bnode
with_context src rval = elim src.var_context [
  | none ↦ rval
  | some vc ↦ record rval { var_context = some vc }
]

-- `SwitchDescriptor::SwitchDescriptor`: the index of the first statement, and the cases.
unfoldable pub first_stmt : List (List ℕ) → ℕ → ℕ
first_stmt [] stidx = stidx
first_stmt (vvec ∷ vals) stidx = first_stmt vals (stidx + length vvec)

unfoldable pub case_descs : List (List ℕ) → (idx stidx : ℕ) → List SwitchCaseDesc
case_descs [] idx stidx = []
case_descs (vvec ∷ vals) idx stidx =
    record { st = idx; len = length vvec; stmt = stidx }
    ∷ case_descs vals (idx + length vvec) (stidx + 1)

unfoldable pub switch_descriptor : List (List ℕ) → List SwitchCaseDesc
switch_descriptor vals = case_descs vals 1 (first_stmt vals 1)

unfoldable pub flatten : List (List ℕ) → List ℕ
flatten [] = []
flatten (vvec ∷ vals) = vvec ++ flatten vals

-- The children of a switch.
unfoldable pub switch_kids : ℕ → List (List ℕ) → List ℕ → List ℕ
switch_kids swvalue vals stmts = swvalue ∷ (flatten vals ++ stmts)

module _ (is_alloca : ℕ → Bool) (scope : ValueExprmap) where
  unfoldable pub mk_error : ℕ → BnodeBuilder → Made
  mk_error errortype b = do n ← new_expr n_error [] none errortype 0; archive_expr scope n b

  unfoldable pub mk_const : ℕ → Value → BnodeBuilder → Made
  mk_const btype value b = do n ← new_expr n_const [] (some value) btype 0; archive_expr scope n b

  unfoldable pub mk_void_value : ℕ → BnodeBuilder → Made
  mk_void_value btype b = do n ← new_expr n_const [] none btype 0; archive_expr scope n b

  -- A variable with its value and type.
  unfoldable pub mk_var : ℕ → Option Value → ℕ → ℕ → BnodeBuilder → Made
  mk_var var value vt loc b = do
    n ← new_expr n_var [] value vt loc
    archive_expr scope (record n { payload = of_var var }) b

  unfoldable pub mk_binary_op : ℕ → ℕ → Option Value → (left right loc : ℕ) → BnodeBuilder → Made
  mk_binary_op op typ val left right loc b = do
    n ← new_expr n_binary_op (left ∷ right ∷ []) val typ loc
    n' ← elim val [ none ↦ some n | some v ↦ append_inst_if_needed is_alloca b.arena v n ]
    archive_expr scope (record n' { payload = of_op op }) b

  unfoldable pub mk_binary_op_with :
      ℕ → ℕ → Option Value → (left right : ℕ) → List ℕ → ℕ → BnodeBuilder → Made
  mk_binary_op_with op typ val left right instructions loc b = do
    n ← new_expr n_binary_op (left ∷ right ∷ []) val typ loc
    n' ← append_instructions is_alloca instructions n
    archive_expr scope (record n' { payload = of_op op }) b

  unfoldable pub mk_unary_op : ℕ → ℕ → Option Value → (src loc : ℕ) → BnodeBuilder → Made
  mk_unary_op op typ val src loc b = do
    n ← new_expr n_unary_op (src ∷ []) val typ loc
    v ← val
    n' ← append_inst_if_needed is_alloca b.arena v n
    s ← node_at b.arena src
    archive_expr scope (with_context s (record n' { payload = of_op op })) b

  unfoldable pub mk_conversion : ℕ → Option Value → (src loc : ℕ) → BnodeBuilder → Made
  mk_conversion typ val src loc b = do
    n ← new_expr n_conversion (src ∷ []) val typ loc
    v ← val
    n' ← append_inst_if_needed is_alloca b.arena v n
    s ← node_at b.arena src
    archive_expr scope (with_context s n') b

  unfoldable pub mk_address : ℕ → Option Value → (src loc : ℕ) → BnodeBuilder → Made
  mk_address typ val src loc b = do
    n ← new_expr n_address (src ∷ []) val typ loc
    archive_expr scope n b

  unfoldable pub mk_fcn_address : ℕ → Option Value → (func loc : ℕ) → BnodeBuilder → Made
  mk_fcn_address typ val func loc b = do
    n ← new_expr n_fcn_address [] val typ loc
    archive_expr scope (record n { payload = of_func func }) b

  unfoldable pub mk_deref : ℕ → Option Value → (src loc : ℕ) → BnodeBuilder → Made
  mk_deref typ val src loc b = do
    n ← new_expr n_deref (src ∷ []) val typ loc
    archive_expr scope n b

  unfoldable pub mk_composite : ℕ → Option Value → List ℕ → List ℕ → ℕ → BnodeBuilder → Made
  mk_composite btype value vals instructions loc b = do
    n ← new_expr n_composite vals value btype loc
    n' ← append_instructions is_alloca instructions n
    archive_expr scope n' b

  unfoldable pub mk_struct_field :
      ℕ → Option Value → (structval field_index loc : ℕ) → BnodeBuilder → Made
  mk_struct_field typ val structval field_index loc b = do
    n ← new_expr n_struct_field (structval ∷ []) val typ loc
    v ← val
    n' ← append_inst_if_needed is_alloca b.arena v n
    s ← node_at b.arena structval
    archive_expr scope (with_context s (record n' { payload = of_field_index field_index })) b

  unfoldable pub mk_array_index : ℕ → Option Value → (arval index loc : ℕ) → BnodeBuilder → Made
  mk_array_index typ val arval index loc b = do
    n ← new_expr n_array_index (arval ∷ index ∷ []) val typ loc
    v ← val
    n' ← append_inst_if_needed is_alloca b.arena v n
    s ← node_at b.arena arval
    archive_expr scope (with_context s n') b

  unfoldable pub mk_compound : (st expr loc : ℕ) → BnodeBuilder → Made
  mk_compound st expr loc b = do
    e ← node_at b.arena expr
    n ← new_expr n_compound (st ∷ expr ∷ []) e.value e.btype loc
    archive_expr scope (record (with_context e n) { tag = e.tag }) b

  abbrev pub contains : ℕ → List ℕ → Bool
  contains i [] = false
  contains i (j ∷ js) = j == i || contains i js

  -- The end of `mkCall`: its value stands among its instructions, unless it is an allocation.
  unfoldable pub append_call : Value → List ℕ → Bnode → Option Bnode
  append_call (constant c) instructions n = none
  append_call (instruction i) instructions n =
      if contains i instructions || is_alloca i then some n else append_instruction is_alloca i n

  unfoldable pub mk_call : ℕ → Value → List ℕ → List ℕ → ℕ → BnodeBuilder → Made
  mk_call btype val args instructions loc b = do
    n ← new_expr n_call args (some val) btype loc
    n₁ ← append_instructions is_alloca instructions n
    n₂ ← append_call val instructions n₁
    archive_expr scope n₂ b

  -- A statement that the builder owns apart from the archive.
  unfoldable pub mk_error_stmt : BnodeBuilder → Made
  mk_error_stmt b = elim b.error_statement [
    | some st ↦ none
    | none ↦ (do
      n ← new_stmt n_error [] 0
      some (
        length b.arena.nodes,
        record b {
          arena = record b.arena { nodes = b.arena.nodes ++ (n ∷ []) };
          error_statement = some (length b.arena.nodes);
        },
      ))
  ]

  unfoldable pub mk_expr_stmt : (expr loc : ℕ) → BnodeBuilder → Made
  mk_expr_stmt expr loc b = do n ← new_stmt n_expr_stmt (expr ∷ []) loc; archive_stmt scope n b

  unfoldable pub mk_return : (return_val loc : ℕ) → BnodeBuilder → Made
  mk_return return_val loc b = do
    n ← new_stmt n_return_stmt (return_val ∷ []) loc
    archive_stmt scope n b

  unfoldable pub mk_label_def_stmt : (label loc : ℕ) → BnodeBuilder → Made
  mk_label_def_stmt label loc b = do
    n ← new_stmt n_label_stmt [] loc
    archive_stmt scope (record n { payload = of_label label }) b

  unfoldable pub mk_goto_stmt : (label loc : ℕ) → BnodeBuilder → Made
  mk_goto_stmt label loc b = do
    n ← new_stmt n_goto_stmt [] loc
    archive_stmt scope (record n { payload = of_label label }) b

  -- A block that is made for a missing one, in no archive.
  unfoldable pub new_block : ℕ → BnodeBuilder → Made
  new_block loc b = do
    n ← new_stmt n_block_stmt [] loc
    some (
      length b.arena.nodes,
      record b { arena = record b.arena { nodes = b.arena.nodes ++ (n ∷ []) } },
    )

  unfoldable pub mk_if_stmt : (cond true_block : ℕ) → Option ℕ → ℕ → BnodeBuilder → Made
  mk_if_stmt cond true_block false_block loc b = do
    (fb, b₁) ← elim false_block [ some fb ↦ some (fb, b) | none ↦ new_block loc b ]
    n ← new_stmt n_if_stmt (cond ∷ true_block ∷ fb ∷ []) loc
    archive_stmt scope n b₁

  unfoldable pub mk_defer_stmt : (undefer defer loc : ℕ) → BnodeBuilder → Made
  mk_defer_stmt undefer defer loc b = do
    n ← new_stmt n_defer_stmt (undefer ∷ defer ∷ []) loc
    archive_stmt scope n b

  unfoldable pub mk_excep_stmt : (body onexception finally loc : ℕ) → BnodeBuilder → Made
  mk_excep_stmt body onexception finally loc b = do
    n ← new_stmt n_excep_stmt (body ∷ onexception ∷ finally ∷ []) loc
    archive_stmt scope n b

  unfoldable pub mk_switch_stmt : ℕ → List (List ℕ) → List ℕ → ℕ → BnodeBuilder → Made
  mk_switch_stmt swvalue vals stmts loc b = do
    n ← new_stmt n_switch_stmt (switch_kids swvalue vals stmts) loc
    archive_stmt scope (record n { payload = of_swcases (switch_descriptor vals) })
        (record b { swcases = b.swcases ++ (switch_descriptor vals ∷ []) })

  unfoldable pub mk_block : ℕ → BnodeBuilder → Made
  mk_block loc b = do n ← new_stmt n_block_stmt [] loc; archive_stmt scope n b

abbrev pub is_block : NodeFlavor → Bool
is_block n_block_stmt = true
is_block _ = false

-- `kids_.push_back(st)`, of a `Bblock`.
unfoldable pub add_statement_to_block : (block st : ℕ) → BnodeBuilder → Option BnodeBuilder
add_statement_to_block block st b = do
  n ← node_at b.arena block
  assert (is_block n.flavor)
  some (record b {
    arena = record b.arena {
      nodes = set_elem b.arena.nodes block (record n { kids = n.kids ++ (st ∷ []) });
    };
  })
