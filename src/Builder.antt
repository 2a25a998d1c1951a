-- ===== src/Builder.antt =====
-- `BnodeBuilder` of llvm-gofrontend/go-llvm-bnode.h and .cpp: how the nodes are made and archived.
pub mod Make
pub mod Shape
pub mod Exprs
pub mod Stmts
pub mod Free
pub mod Clones
pub mod Forgets
pub mod Orphans
pub mod Calls
mod Runs
pub mod Switch
use dragongo.Common.{
  ℕ, zero, suc, ◌+◌, ◌++◌, Bool, true, false, not, ◌&&◌, ◌||◌, Option, none, some, List, [], ◌∷◌,
  ◌==◌, if◌then◌else◌, ◌>>=◌, ◌>>◌, assert, length, get_elem?, Text,
}
use dragongo.Bnode.{
  NodeFlavor, n_error, n_const, n_var, n_fcn_address, n_conversion, n_deref, n_address, n_unary_op,
  n_struct_field, n_binary_op, n_compound, n_array_index, n_composite, n_call, n_label_stmt,
  n_goto_stmt, n_expr_stmt, n_return_stmt, n_defer_stmt, n_if_stmt, n_excep_stmt, n_block_stmt,
  n_switch_stmt, num_children, Value, instruction, constant, SwitchCaseDesc, Payload, no_payload,
  of_var, of_func, of_label, of_op, of_field_index, of_swcases, VarContext, Bnode, is_stmt, Arena,
  node_at, set_elem,
}
use dragongo.Integrity.{
  TreeIntegCtl, IntegrityVisitor, ValueExprmap, set_parent, unset_parent, new_visitor,
}

pub record BnodeBuilder : Type 0 where
  pub arena : Arena
  pub sarchive : List ℕ
  pub swcases : List (List SwitchCaseDesc)
  pub error_statement : Option ℕ
  pub integrity : IntegrityVisitor

-- The identifier of a node that is not archived.
abbrev pub no_id : ℕ
no_id = 0xfeedface

-- The assertion of the constructor of `Bnode`.
unfoldable pub has_children : NodeFlavor → ℕ → Bool
has_children flavor n = elim (num_children flavor) [ none ↦ true | some k ↦ n == k ]

-- The constructors of `Bexpression` and of `Bstatement`.
unfoldable pub new_expr : NodeFlavor → List ℕ → Option Value → ℕ → ℕ → Option Bnode
new_expr flavor kids val typ loc = do
  assert (has_children flavor (length kids))
  some (record {
    flavor = flavor;
    kids = kids;
    id = no_id;
    value = val;
    btype = typ;
    instructions = [];
    payload = no_payload;
    var_context = none;
    tag = [];
    location = loc;
  })

unfoldable pub new_stmt : NodeFlavor → List ℕ → ℕ → Option Bnode
new_stmt flavor kids loc = new_expr flavor kids none 0 loc

-- The builder's own checks ignore shared variables and repair nothing.
abbrev pub builder_ctl : TreeIntegCtl
builder_ctl = record { ignore_var_exprs = true; repair_sharing = false }

-- What the builder asks of LLVM: which instructions are allocations.
module _ (is_alloca : ℕ → Bool) where
  -- `Binstructions::appendInstruction`
  unfoldable pub append_instruction : ℕ → Bnode → Option Bnode
  append_instruction inst n = do
    assert (not (is_alloca inst))
    some (record n { instructions = n.instructions ++ (inst ∷ []) })

  unfoldable pub append_instructions : List ℕ → Bnode → Option Bnode
  append_instructions [] n = some n
  append_instructions (i ∷ is) n = do n' ← append_instruction i n; append_instructions is n'

  abbrev value_is : Option Value → ℕ → Bool
  value_is (some (instruction j)) i = j == i
  value_is _ i = false

  -- Some child is an expression with this value.
  unfoldable pub is_value_of_kid : Arena → ℕ → List ℕ → Option Bool
  is_value_of_kid ar inst [] = some false
  is_value_of_kid ar inst (k ∷ ks) = do
    n ← node_at ar k
    rest ← is_value_of_kid ar inst ks
    some ((not (is_stmt n) && value_is n.value inst) || rest)

  unfoldable pub append_inst_if_needed : Arena → Value → Bnode → Option Bnode
  append_inst_if_needed ar (constant c) rval = some rval
  append_inst_if_needed ar (instruction i) rval = do
    found ← is_value_of_kid ar i rval.kids
    if found then some rval else append_instruction i rval

module _ (scope : ValueExprmap) where
  -- `checkTreeInteg`, from a child on.
  unfoldable pub check_tree_integ :
      Arena → ℕ → ℕ → List ℕ → IntegrityVisitor → Option IntegrityVisitor
  check_tree_integ ar node idx [] vis = some vis
  check_tree_integ ar node idx (k ∷ ks) vis = do
    vis₁ ← set_parent scope builder_ctl ar k node idx vis
    check_tree_integ ar node (idx + 1) ks vis₁

  -- `archive` of an expression, which is made here.
  unfoldable pub archive_expr : Bnode → BnodeBuilder → Option (ℕ × BnodeBuilder)
  archive_expr expr b = do
    let addr = length b.arena.nodes
    let ar : Arena = record b.arena {
      nodes = b.arena.nodes ++ (record expr { id = length b.arena.earchive } ∷ []);
      earchive = b.arena.earchive ++ (some addr ∷ []);
    }
    vis ← check_tree_integ ar addr 0 expr.kids b.integrity
    some (addr, record b { arena = ar; integrity = vis })

  -- `archive` of a statement.
  unfoldable pub archive_stmt : Bnode → BnodeBuilder → Option (ℕ × BnodeBuilder)
  archive_stmt stmt b = do
    let addr = length b.arena.nodes
    let ar : Arena = record b.arena {
      nodes = b.arena.nodes ++ (record stmt { id = length b.sarchive } ∷ []);
    }
    vis ← check_tree_integ ar addr 0 stmt.kids b.integrity
    some (addr, record b { arena = ar; sarchive = b.sarchive ++ (addr ∷ []); integrity = vis })
