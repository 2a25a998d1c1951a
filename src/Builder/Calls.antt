-- ===== src/Builder/Calls.antt =====
-- Calls of `BnodeBuilder` of llvm-gofrontend/go-llvm-bnode.cpp one after the other.
use dragongo.Common.{
  ℕ, ◌≡◌, Bool, Option, none, some, List, [], ◌∷◌, ◌>>=◌, >>=-eq-some, of_some, subst, arith,
}
use dragongo.Bnode.{Value}
use dragongo.Integrity.{ValueExprmap, new_visitor}
use dragongo.Builder.{BnodeBuilder}
use dragongo.Builder.Make.{
  Made, add_statement_to_block, mk_error, mk_const, mk_void_value, mk_var, mk_binary_op,
  mk_binary_op_with, mk_unary_op, mk_conversion, mk_address, mk_fcn_address, mk_deref, mk_composite,
  mk_struct_field, mk_array_index, mk_compound, mk_call, mk_expr_stmt, mk_return, mk_label_def_stmt,
  mk_goto_stmt, mk_defer_stmt, mk_excep_stmt, mk_switch_stmt, mk_block, mk_error_stmt, mk_if_stmt,
}
use dragongo.Builder.Shape.{IsBuilt}
use dragongo.Builder.Free.{
  free_expr, free_stmts, extract_children_and_destroy, free_expr-IsBuilt, free_stmts-IsBuilt,
}
use dragongo.Builder.Clones.{clone_expr, clone_expr-IsBuilt}
use dragongo.Builder.Orphans.{extract_children-IsFreed}
use dragongo.Builder.Exprs.{
  Keeps, mk_compound-IsBuilt, mk_error-IsBuilt, mk_const-IsBuilt, mk_void_value-IsBuilt,
  mk_var-IsBuilt, mk_binary_op-IsBuilt, mk_binary_op_with-IsBuilt, mk_unary_op-IsBuilt,
  mk_conversion-IsBuilt, mk_address-IsBuilt, mk_fcn_address-IsBuilt, mk_deref-IsBuilt,
  mk_composite-IsBuilt, mk_struct_field-IsBuilt, mk_array_index-IsBuilt, mk_call-IsBuilt,
}
use dragongo.Builder.Stmts.{
  add_statement_to_block-IsBuilt, mk_expr_stmt-IsBuilt, mk_return-IsBuilt,
  mk_label_def_stmt-IsBuilt, mk_goto_stmt-IsBuilt, mk_defer_stmt-IsBuilt, mk_excep_stmt-IsBuilt,
  mk_switch_stmt-IsBuilt, mk_block-IsBuilt, mk_error_stmt-IsBuilt, mk_if_stmt-IsBuilt,
}

-- One call of the builder.
pub data Call : Type 0 where
  makes_error : ℕ → Call
  makes_const : ℕ → Value → Call
  makes_void_value : ℕ → Call
  makes_var : ℕ → Option Value → ℕ → ℕ → Call
  makes_binary_op : ℕ → ℕ → Option Value → ℕ → ℕ → ℕ → Call
  makes_binary_op_with : ℕ → ℕ → Option Value → ℕ → ℕ → List ℕ → ℕ → Call
  makes_unary_op : ℕ → ℕ → Option Value → ℕ → ℕ → Call
  makes_conversion : ℕ → Option Value → ℕ → ℕ → Call
  makes_address : ℕ → Option Value → ℕ → ℕ → Call
  makes_fcn_address : ℕ → Option Value → ℕ → ℕ → Call
  makes_deref : ℕ → Option Value → ℕ → ℕ → Call
  makes_composite : ℕ → Option Value → List ℕ → List ℕ → ℕ → Call
  makes_struct_field : ℕ → Option Value → ℕ → ℕ → ℕ → Call
  makes_array_index : ℕ → Option Value → ℕ → ℕ → ℕ → Call
  makes_compound : ℕ → ℕ → ℕ → Call
  makes_call : ℕ → Value → List ℕ → List ℕ → ℕ → Call
  makes_expr_stmt : ℕ → ℕ → Call
  makes_return : ℕ → ℕ → Call
  makes_label_def_stmt : ℕ → ℕ → Call
  makes_goto_stmt : ℕ → ℕ → Call
  makes_defer_stmt : ℕ → ℕ → ℕ → Call
  makes_excep_stmt : ℕ → ℕ → ℕ → ℕ → Call
  makes_switch_stmt : ℕ → List (List ℕ) → List ℕ → ℕ → Call
  makes_block : ℕ → Call
  makes_error_stmt : Call
  makes_if_stmt : ℕ → ℕ → Option ℕ → ℕ → Call

-- A call of any public method: one that makes a node, or one that adds a statement to a block, clones
-- an expression (with fuel), frees one, hands out its children, or frees all statements.
pub data Step : Type 0 where
  calls : Call → Step
  adds_statement : ℕ → ℕ → Step
  clones : ℕ → ℕ → Step
  frees_expr : ℕ → Step
  extracts_children : ℕ → Step
  frees_stmts : Step

-- The builder as it is constructed.
unfoldable pub new_builder : BnodeBuilder
new_builder = record {
  arena = record { nodes = []; earchive = []; insts = 0 };
  sarchive = [];
  swcases = [];
  error_statement = none;
  integrity = new_visitor;
}

module _ (is_alloca : ℕ → Bool) (scope : ValueExprmap) where
  -- The call, as the builder answers it.
  unfoldable pub make : Call → BnodeBuilder → Made
  make (makes_error errortype) b = mk_error is_alloca scope errortype b
  make (makes_const btype value) b = mk_const is_alloca scope btype value b
  make (makes_void_value btype) b = mk_void_value is_alloca scope btype b
  make (makes_var var value vt loc) b = mk_var is_alloca scope var value vt loc b
  make (makes_binary_op op typ val left right loc) b =
      mk_binary_op is_alloca scope op typ val left right loc b
  make (makes_binary_op_with op typ val left right instructions loc) b =
      mk_binary_op_with is_alloca scope op typ val left right instructions loc b
  make (makes_unary_op op typ val src loc) b = mk_unary_op is_alloca scope op typ val src loc b
  make (makes_conversion typ val src loc) b = mk_conversion is_alloca scope typ val src loc b
  make (makes_address typ val src loc) b = mk_address is_alloca scope typ val src loc b
  make (makes_fcn_address typ val func loc) b = mk_fcn_address is_alloca scope typ val func loc b
  make (makes_deref typ val src loc) b = mk_deref is_alloca scope typ val src loc b
  make (makes_composite btype value vals instructions loc) b =
      mk_composite is_alloca scope btype value vals instructions loc b
  make (makes_struct_field typ val structval field_index loc) b =
      mk_struct_field is_alloca scope typ val structval field_index loc b
  make (makes_array_index typ val arval index loc) b =
      mk_array_index is_alloca scope typ val arval index loc b
  make (makes_compound st expr loc) b = mk_compound is_alloca scope st expr loc b
  make (makes_call btype val args instructions loc) b =
      mk_call is_alloca scope btype val args instructions loc b
  make (makes_expr_stmt expr loc) b = mk_expr_stmt is_alloca scope expr loc b
  make (makes_return return_val loc) b = mk_return is_alloca scope return_val loc b
  make (makes_label_def_stmt label loc) b = mk_label_def_stmt is_alloca scope label loc b
  make (makes_goto_stmt label loc) b = mk_goto_stmt is_alloca scope label loc b
  make (makes_defer_stmt undefer defer loc) b = mk_defer_stmt is_alloca scope undefer defer loc b
  make (makes_excep_stmt body onexception finally loc) b =
      mk_excep_stmt is_alloca scope body onexception finally loc b
  make (makes_switch_stmt swvalue vals stmts loc) b =
      mk_switch_stmt is_alloca scope swvalue vals stmts loc b
  make (makes_block loc) b = mk_block is_alloca scope loc b
  make makes_error_stmt b = mk_error_stmt is_alloca scope b
  make (makes_if_stmt cond true_block false_block loc) b =
      mk_if_stmt is_alloca scope cond true_block false_block loc b

  unfoldable pub step : Step → BnodeBuilder → Option BnodeBuilder
  step (calls c) b = do (a, b') ← make c b; some b'
  step (adds_statement block st) b = add_statement_to_block block st b
  step (clones fuel expr) b = do (a, b') ← clone_expr fuel expr b; some b'
  step (frees_expr expr) b = free_expr expr b
  step (extracts_children expr) b = do
    (orphans, b') ← extract_children_and_destroy scope expr b
    some b'
  step frees_stmts b = some (free_stmts b)

  unfoldable pub run : List Step → BnodeBuilder → Option BnodeBuilder
  run [] b = some b
  run (c ∷ cs) b = do b' ← step c b; run cs b'

  make-IsBuilt : (c : Call) (b : BnodeBuilder) → IsBuilt b → Keeps (make c b)
  unfolding make
  make-IsBuilt (makes_error errortype) b = mk_error-IsBuilt is_alloca scope errortype b
  make-IsBuilt (makes_const btype value) b = mk_const-IsBuilt is_alloca scope btype value b
  make-IsBuilt (makes_void_value btype) b = mk_void_value-IsBuilt is_alloca scope btype b
  make-IsBuilt (makes_var var value vt loc) b = mk_var-IsBuilt is_alloca scope var value vt loc b
  make-IsBuilt (makes_binary_op op typ val left right loc) b =
      mk_binary_op-IsBuilt is_alloca scope op typ val left right loc b
  make-IsBuilt (makes_binary_op_with op typ val left right instructions loc) b =
      mk_binary_op_with-IsBuilt is_alloca scope op typ val left right instructions loc b
  make-IsBuilt (makes_unary_op op typ val src loc) b =
      mk_unary_op-IsBuilt is_alloca scope op typ val src loc b
  make-IsBuilt (makes_conversion typ val src loc) b =
      mk_conversion-IsBuilt is_alloca scope typ val src loc b
  make-IsBuilt (makes_address typ val src loc) b =
      mk_address-IsBuilt is_alloca scope typ val src loc b
  make-IsBuilt (makes_fcn_address typ val func loc) b =
      mk_fcn_address-IsBuilt is_alloca scope typ val func loc b
  make-IsBuilt (makes_deref typ val src loc) b = mk_deref-IsBuilt is_alloca scope typ val src loc b
  make-IsBuilt (makes_composite btype value vals instructions loc) b =
      mk_composite-IsBuilt is_alloca scope btype value vals instructions loc b
  make-IsBuilt (makes_struct_field typ val structval field_index loc) b =
      mk_struct_field-IsBuilt is_alloca scope typ val structval field_index loc b
  make-IsBuilt (makes_array_index typ val arval index loc) b =
      mk_array_index-IsBuilt is_alloca scope typ val arval index loc b
  make-IsBuilt (makes_compound st expr loc) b = mk_compound-IsBuilt is_alloca scope st expr loc b
  make-IsBuilt (makes_call btype val args instructions loc) b =
      mk_call-IsBuilt is_alloca scope btype val args instructions loc b
  make-IsBuilt (makes_expr_stmt expr loc) b = mk_expr_stmt-IsBuilt is_alloca scope expr loc b
  make-IsBuilt (makes_return return_val loc) b = mk_return-IsBuilt is_alloca scope return_val loc b
  make-IsBuilt (makes_label_def_stmt label loc) b =
      mk_label_def_stmt-IsBuilt is_alloca scope label loc b
  make-IsBuilt (makes_goto_stmt label loc) b = mk_goto_stmt-IsBuilt is_alloca scope label loc b
  make-IsBuilt (makes_defer_stmt undefer defer loc) b =
      mk_defer_stmt-IsBuilt is_alloca scope undefer defer loc b
  make-IsBuilt (makes_excep_stmt body onexception finally loc) b =
      mk_excep_stmt-IsBuilt is_alloca scope body onexception finally loc b
  make-IsBuilt (makes_switch_stmt swvalue vals stmts loc) b =
      mk_switch_stmt-IsBuilt is_alloca scope swvalue vals stmts loc b
  make-IsBuilt (makes_block loc) b = mk_block-IsBuilt is_alloca scope loc b
  make-IsBuilt makes_error_stmt b = mk_error_stmt-IsBuilt is_alloca scope b
  make-IsBuilt (makes_if_stmt cond true_block false_block loc) b =
      mk_if_stmt-IsBuilt is_alloca scope cond true_block false_block loc b

  step-IsBuilt : (s : Step) (b b' : BnodeBuilder) → IsBuilt b → step s b ≡ some b' → IsBuilt b'
  unfolding step
  step-IsBuilt (calls c) b b' built e =
      let ((a, b₁), made, done) = >>=-eq-some (make c b) _ e in
      subst IsBuilt (of_some done) (make-IsBuilt c b built a b₁ made)
  step-IsBuilt (adds_statement block st) b b' built e =
      add_statement_to_block-IsBuilt block st b b' built e
  step-IsBuilt (clones fuel expr) b b' built e =
      let ((a, b₁), made, done) = >>=-eq-some (clone_expr fuel expr b) _ e in
      subst IsBuilt (of_some done) (clone_expr-IsBuilt fuel expr b a b₁ built made)
  step-IsBuilt (frees_expr expr) b b' built e = free_expr-IsBuilt scope expr b b' built e
  step-IsBuilt (extracts_children expr) b b' built e =
      let ((orphans, b₁), made, done) =
        >>=-eq-some (extract_children_and_destroy scope expr b) _ e in
      subst IsBuilt (of_some done)
        (extract_children-IsFreed scope expr b orphans b₁ built made).built
  step-IsBuilt frees_stmts b b' built e = subst IsBuilt (of_some e) (free_stmts-IsBuilt b built)

  run-IsBuilt : (cs : List Step) (b b' : BnodeBuilder) → IsBuilt b → run cs b ≡ some b' → IsBuilt b'
  unfolding run
  run-IsBuilt [] b b' built e = subst IsBuilt (of_some e) built
  run-IsBuilt (c ∷ cs) b b' built e =
      let (b₁, first, rest) = >>=-eq-some (step c b) _ e in
      run-IsBuilt cs b₁ b' (step-IsBuilt c b b₁ built first) rest

  -- After any calls of the public methods of a new builder that succeed, those that make nodes as well
  -- as those that clone, free or take nodes apart, every node has as many children as its flavour
  -- says, and the archived expressions and statements stand at their addresses with their index in
  -- the archive as identifier.
  pub new_builder-IsBuilt :
      (cs : List Step) (b' : BnodeBuilder) → run cs new_builder ≡ some b' → IsBuilt b'
  unfolding new_builder
  new_builder-IsBuilt cs b' e =
      run-IsBuilt cs new_builder b'
        (record {
          shaped = tt;
          exprs = λ i addr h. absurd (ground arith);
          stmts = λ i addr h. absurd (ground arith);
        })
        e
