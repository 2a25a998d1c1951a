-- ===== src/Bnode.antt =====
-- llvm-gofrontend/go-llvm-bnode.h and .cpp: the nodes of the expression and statement trees, the
-- arena they live in and the cloning of expressions.
pub mod Clone
pub mod Limits
pub mod Runs
use dragongo.Common.{
  ℕ, zero, suc, ◌+◌, Bool, true, false, Option, none, some, List, [], ◌∷◌, ◌++◌, length, get_elem?,
  ◌==◌, if◌then◌else◌, ◌>>=◌, ◌>>◌, assert, Text,
}

-- `NodeFlavor`
pub data NodeFlavor : Type 0 where
  n_error n_const n_var n_fcn_address n_conversion n_deref n_address n_unary_op n_struct_field :
      NodeFlavor
  n_binary_op n_compound n_array_index n_composite n_call : NodeFlavor
  n_empty_stmt n_label_stmt n_goto_stmt n_expr_stmt n_return_stmt n_defer_stmt : NodeFlavor
  n_if_stmt n_excep_stmt n_block_stmt n_switch_stmt : NodeFlavor

-- The column `numChildren` of `BnodeProperties`; `none` is `Variadic`.
unfoldable pub num_children : NodeFlavor → Option ℕ
num_children n_conversion = some 1
num_children n_deref = some 1
num_children n_address = some 1
num_children n_unary_op = some 1
num_children n_struct_field = some 1
num_children n_binary_op = some 2
num_children n_compound = some 2
num_children n_array_index = some 2
num_children n_composite = none
num_children n_call = none
num_children n_expr_stmt = some 1
num_children n_return_stmt = some 1
num_children n_defer_stmt = some 2
num_children n_if_stmt = some 3
num_children n_excep_stmt = some 3
num_children n_block_stmt = none
num_children n_switch_stmt = none
num_children _ = some 0

-- The flavours from `N_FirstStmt` to `N_LastStmt`.
abbrev pub flavor_is_stmt : NodeFlavor → Bool
flavor_is_stmt n_empty_stmt = true
flavor_is_stmt n_label_stmt = true
flavor_is_stmt n_goto_stmt = true
flavor_is_stmt n_expr_stmt = true
flavor_is_stmt n_return_stmt = true
flavor_is_stmt n_defer_stmt = true
flavor_is_stmt n_if_stmt = true
flavor_is_stmt n_excep_stmt = true
flavor_is_stmt n_block_stmt = true
flavor_is_stmt n_switch_stmt = true
flavor_is_stmt _ = false

-- An LLVM value that a node refers to: an instruction, or any other value.
pub data Value : Type 0 where
  instruction constant : ℕ → Value

-- `SwitchCaseDesc`: the child index of the first value, the number of values and the child index of
-- the statement.
pub record SwitchCaseDesc : Type 0 where
  pub st : ℕ
  pub len : ℕ
  pub stmt : ℕ

-- The union `u`.
pub data Payload : Type 0 where
  no_payload : Payload
  of_var of_func of_label of_op of_field_index : ℕ → Payload
  of_swcases : List SwitchCaseDesc → Payload

-- `VarContext`, where it is pending.
pub record VarContext : Type 0 where
  pub lvalue : Bool
  pub addr_level : ℕ

-- `Bnode` with the parts of `Bexpression`. Nodes refer to each other by their address, the index in
-- the arena; LLVM instructions and types are numbers too.
pub record Bnode : Type 0 where
  pub flavor : NodeFlavor
  pub kids : List ℕ
  pub id : ℕ
  pub value : Option Value
  pub btype : ℕ
  pub instructions : List ℕ
  pub payload : Payload
  pub var_context : Option VarContext
  pub tag : Text
  pub location : ℕ

abbrev pub is_stmt : Bnode → Bool
is_stmt n = flavor_is_stmt n.flavor

-- The nodes that exist, the archive of expressions of `BnodeBuilder`, and the number of LLVM
-- instructions that exist.
pub record Arena : Type 0 where
  pub nodes : List Bnode
  pub earchive : List (Option ℕ)
  pub insts : ℕ

-- `Bnode::children`
abbrev pub node_at : Arena → ℕ → Option Bnode
node_at ar addr = get_elem? ar.nodes addr

-- `kids_[idx] = newchild`, and the same for the nodes of the arena.
unfoldable pub set_elem {ℓ} : {A : Type ℓ} → List A → ℕ → A → List A
set_elem [] i y = []
set_elem (x ∷ xs) zero y = y ∷ xs
set_elem (x ∷ xs) (suc i) y = x ∷ set_elem xs i y

-- `Bnode::replaceChild`
unfoldable pub replace_child : Arena → ℕ → ℕ → ℕ → Option Arena
replace_child ar parent idx newchild = do
  n ← node_at ar parent
  old ← get_elem? n.kids idx
  some (record ar {
    nodes = set_elem ar.nodes parent (record n { kids = set_elem n.kids idx newchild });
  })

-- `inst->clone()` for each instruction: fresh ones, in the same order.
unfoldable pub clone_instructions : ℕ → List ℕ → List ℕ
clone_instructions next [] = []
clone_instructions next (i ∷ is) = next ∷ clone_instructions (next + 1) is

-- The instruction that is the expression's value, if it is one of its own; `assert(! newv)` fails on
-- a second one.
abbrev pub inst_is : Option Value → ℕ → Bool
inst_is (some (instruction j)) i = i == j
inst_is _ i = false

unfoldable pub own_value : Option Value → List ℕ → Option Value → Option (Option Value)
own_value iv [] newv = some newv
own_value iv (i ∷ is) newv =
    if inst_is iv i
    then elim newv [ some v ↦ none | none ↦ own_value iv is (some (instruction i)) ]
    else own_value iv is newv

-- The new expression of `cloneSub`: `vm` is empty there, so the operands stay, and a value among
-- the own instructions is set again to `newv`. The constructor takes neither tag nor context.
unfoldable pub cloned : Bnode → List ℕ → (id insts : ℕ) → Option Value → Bnode
cloned n kids id insts newv = record n {
  kids = kids;
  id = id;
  value = elim newv [ none ↦ n.value | some v ↦ some v ];
  instructions = clone_instructions insts n.instructions;
  var_context = none;
  tag = [];
}

-- The rest of `cloneSub` once the children are cloned; `archive` gives the identifier.
unfoldable pub clone_node : Bnode → List ℕ → Arena → Option (ℕ × Arena)
unfolding cloned
clone_node n kids ar = do
  newv ← own_value n.value n.instructions none
  some (
    length ar.nodes,
    record {
      nodes = ar.nodes ++ (cloned n kids (length ar.earchive) ar.insts newv ∷ []);
      earchive = ar.earchive ++ (some (length ar.nodes) ∷ []);
      insts = ar.insts + length n.instructions;
    },
  )

-- The loop over the children, with what clones one of them.
unfoldable pub clone_kids :
    (ℕ → Arena → Option (ℕ × Arena)) → List ℕ → Arena → Option (List ℕ × Arena)
clone_kids clone [] ar = some ([], ar)
clone_kids clone (k ∷ ks) ar = do
  (c, ar₁) ← clone k ar
  (cs, ar₂) ← clone_kids clone ks ar₁
  some (c ∷ cs, ar₂)

-- `BnodeBuilder::cloneSubtree` and `cloneSub`, on fuel; a statement fails the assertion.
unfoldable pub clone_subtree : ℕ → ℕ → Arena → Option (ℕ × Arena)
clone_subtree zero addr ar = none
clone_subtree (suc fuel) addr ar = do
  n ← node_at ar addr
  assert (if is_stmt n then false else true)
  (kids, ar₁) ← clone_kids (clone_subtree fuel) n.kids ar
  clone_node n kids ar₁
