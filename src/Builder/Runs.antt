-- ===== src/Builder/Runs.antt =====
-- Nodes that `BnodeBuilder` of llvm-gofrontend/go-llvm-bnode.cpp makes.
use dragongo.Common.{
  ℕ, ◌≡◌, refl, Bool, true, false, Option, none, some, List, [], ◌∷◌, arith, get_elem?,
}
use dragongo.Bnode.{
  n_label_stmt, instruction, constant, SwitchCaseDesc, of_label, of_swcases, Bnode, node_at,
  num_children, set_elem,
}
use dragongo.Bnode.Runs.{leaf}
use dragongo.Integrity.{
  new_visitor, set_parent, unset_parent, erase, should_be_tracked, module_scope_value,
  var_expr_or_conv_var, set_tracked_parent, find,
}
use dragongo.Builder.{
  BnodeBuilder, has_children, new_expr, new_stmt, append_instruction, append_instructions,
  append_inst_if_needed, is_value_of_kid, check_tree_integ, archive_expr, archive_stmt,
}
use dragongo.Builder.Make.{
  case_descs, first_stmt, flatten, switch_descriptor, switch_kids, mk_const, mk_binary_op,
  mk_expr_stmt, mk_block, mk_switch_stmt, mk_composite, add_statement_to_block,
}
use dragongo.Bnode.{clone_subtree, clone_kids, clone_node, cloned, own_value, clone_instructions}
use dragongo.Builder.Shape.{IsBuilt}
use dragongo.Builder.Free.{
  drop_last, free_expr, unset_children, extract_children_and_destroy, free_stmts,
}
use dragongo.Builder.Clones.{clone_expr}
use dragongo.Builder.Orphans.{IsFreed, extract_children-IsFreed}
use dragongo.Builder.Calls.{
  makes_const, makes_binary_op, makes_expr_stmt, makes_block, makes_composite, Step, calls,
  adds_statement, clones, frees_expr, frees_stmts, new_builder, make, step, run,
  new_builder-IsBuilt,
}
use dragongo.Builder.Switch.{FindsCases, mk_switch_stmt-FindsCases}

abbrev no_alloca : ℕ → Bool
no_alloca i = false

abbrev has_value : {A : Type 0} → Option A → Bool
has_value none = false
has_value (some a) = true

value_of : {A : Type 0} (o : Option A) → has_value o ≡ true → (a : A) × (o ≡ some a)
value_of (some a) e = (a, refl)
value_of none e = absurd (ground arith)

abbrev label : ℕ → Bnode
label l = record (leaf l) { flavor = n_label_stmt; value = none; payload = of_label l }

-- Three constants and two labels.
abbrev base : BnodeBuilder
base = record {
  arena = record {
    nodes = leaf 0 ∷ leaf 1 ∷ leaf 2 ∷ label 0 ∷ label 1 ∷ [];
    earchive = some 0 ∷ some 1 ∷ some 2 ∷ [];
    insts = 0;
  };
  sarchive = 3 ∷ 4 ∷ [];
  swcases = [];
  error_statement = none;
  integrity = new_visitor;
}

-- `switch 0 { case 1, 2: goto-label 0; default: goto-label 1 }`
the_switch :
    (r : ℕ × BnodeBuilder) × (mk_switch_stmt no_alloca [] 0
        ((1 ∷ 2 ∷ []) ∷ [] ∷ [])
        (3 ∷ 4 ∷ [])
        0
        base
      ≡ some r)
unfolding mk_switch_stmt new_stmt new_expr has_children num_children switch_kids flatten
    switch_descriptor case_descs first_stmt archive_stmt check_tree_integ set_parent
    should_be_tracked module_scope_value var_expr_or_conv_var set_tracked_parent find new_visitor
the_switch = value_of _ refl

mk_switch_stmt-FindsCases_example :
    (n : Bnode) × (cases : List SwitchCaseDesc) × (node_at the_switch.0.1.arena the_switch.0.0
      ≡ some n)
    × (n.payload ≡ of_swcases cases)
    × (get_elem? n.kids 0 ≡ some 0)
    × FindsCases n.kids cases ((1 ∷ 2 ∷ []) ∷ [] ∷ []) (3 ∷ 4 ∷ [])
mk_switch_stmt-FindsCases_example =
    mk_switch_stmt-FindsCases no_alloca [] 0 ((1 ∷ 2 ∷ []) ∷ [] ∷ []) (3 ∷ 4 ∷ []) 0 base refl
      the_switch.1

-- The switch in the comment on the class: the third case has its value at 4, where the comment says
-- 5.
commented_cases :
    switch_descriptor ((2 ∷ 3 ∷ 4 ∷ []) ∷ [] ∷ (5 ∷ []) ∷ [])
    ≡ record { st = 1; len = 3; stmt = 5 }
      ∷ record { st = 4; len = 0; stmt = 6 }
      ∷ record { st = 4; len = 1; stmt = 7 }
      ∷ []
unfolding switch_descriptor case_descs first_stmt
commented_cases = refl

-- A block with one statement, the sum of two constants; the sum is cloned, the clone freed, and the
-- statements too.
abbrev steps : List Step
steps =
    calls (makes_const 0 (constant 1))
    ∷ calls (makes_const 0 (constant 2))
    ∷ calls (makes_binary_op 9 0 (some (instruction 0)) 0 1 0)
    ∷ calls (makes_expr_stmt 2 0)
    ∷ calls (makes_block 0)
    ∷ adds_statement 4 3
    ∷ clones 2 2
    ∷ frees_expr 7
    ∷ frees_stmts
    ∷ []

built : (b : BnodeBuilder) × (run no_alloca [] steps new_builder ≡ some b)
unfolding run step make new_builder mk_const mk_binary_op mk_expr_stmt mk_block
    add_statement_to_block append_inst_if_needed is_value_of_kid append_instruction new_stmt
    new_expr has_children num_children archive_expr archive_stmt set_elem check_tree_integ
    set_parent should_be_tracked module_scope_value var_expr_or_conv_var set_tracked_parent find
    new_visitor clone_expr clone_subtree clone_kids clone_node cloned own_value clone_instructions
    free_expr drop_last free_stmts
built = value_of _ refl

new_builder-IsBuilt_example : IsBuilt built.0
new_builder-IsBuilt_example = new_builder-IsBuilt no_alloca [] steps built.0 built.1

-- A composite whose value is delayed, with one element.
abbrev delayed : List Step
delayed = calls (makes_const 0 (constant 1)) ∷ calls (makes_composite 0 none (0 ∷ []) [] 0) ∷ []

delayed_built : (b : BnodeBuilder) × (run no_alloca [] delayed new_builder ≡ some b)
unfolding run step make new_builder mk_const mk_composite append_instructions new_expr has_children
    num_children archive_expr check_tree_integ set_parent should_be_tracked module_scope_value
    var_expr_or_conv_var set_tracked_parent find new_visitor
delayed_built = value_of _ refl

extracted :
    (r : List ℕ × BnodeBuilder) × (extract_children_and_destroy [] 1 delayed_built.0 ≡ some r)
unfolding delayed_built value_of extract_children_and_destroy unset_children free_expr unset_parent
    set_elem drop_last erase should_be_tracked module_scope_value var_expr_or_conv_var find run step
    make new_builder mk_const mk_composite append_instructions new_expr has_children num_children
    archive_expr check_tree_integ set_parent set_tracked_parent new_visitor
extracted = value_of _ refl

extract_children-IsFreed_example : IsFreed [] 1 delayed_built.0 extracted.0.0 extracted.0.1
extract_children-IsFreed_example =
    extract_children-IsFreed [] 1 delayed_built.0 extracted.0.0 extracted.0.1
      (new_builder-IsBuilt no_alloca [] delayed delayed_built.0 delayed_built.1) extracted.1
