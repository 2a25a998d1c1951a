-- ===== src/Integrity.antt =====
-- llvm-gofrontend/go-llvm-tree-integrity.h and .cpp: the check that no node or instruction of a tree
-- has two parents, and the repair that clones shared expressions.
pub mod Uses
pub mod Taken
pub mod Sharing
pub mod Examine
pub mod Walk
mod Runs
use dragongo.Common.{
  ℕ, zero, suc, ◌+◌, ◌%◌, ◌^◌, ◌++◌, Bool, true, false, not, ◌&&◌, ◌||◌, Option, none, some, List,
  [], ◌∷◌, ◌==◌, if◌then◌else◌, ◌>>=◌, ◌>>◌, assert, get_elem?,
}
use dragongo.Bnode.{
  NodeFlavor, n_const, n_var, n_conversion, n_deref, n_struct_field, Value, instruction, constant,
  Bnode, is_stmt, Arena, node_at, replace_child, clone_subtree,
}

-- `parslot`: a parent and a child index.
abbrev pub Parslot : Type 0
Parslot = ℕ × ℕ

-- `TreeIntegCtl` without the treatment of pointers in messages.
pub record TreeIntegCtl : Type 0 where
  pub ignore_var_exprs : Bool
  pub repair_sharing : Bool

-- `IntegrityVisitor`, without the text of its messages.
pub record IntegrityVisitor : Type 0 where
  pub nparent : List (ℕ × Parslot)
  pub iparent : List (ℕ × Parslot)
  pub sharing : List (ℕ × Parslot)
  pub inst_share_count : ℕ
  pub stmt_share_count : ℕ
  pub expr_share_count : ℕ

unfoldable pub new_visitor : IntegrityVisitor
new_visitor = record {
  nparent = [];
  iparent = [];
  sharing = [];
  inst_share_count = 0;
  stmt_share_count = 0;
  expr_share_count = 0;
}

-- `unordered_map::find`; an entry written later stands in front.
unfoldable pub find : List (ℕ × Parslot) → ℕ → Option Parslot
find [] k = none
find ((j, ps) ∷ m) k = if j == k then some ps else find m k

-- `unordered_map::erase`
unfoldable pub erase : List (ℕ × Parslot) → ℕ → List (ℕ × Parslot)
erase [] k = []
erase ((j, ps) ∷ m) k = if j == k then erase m k else (j, ps) ∷ erase m k

abbrev pub same_slot : Parslot → Parslot → Bool
same_slot (p, s) (q, t) = p == q && s == t

abbrev pub incremented : ℕ → ℕ
incremented n = (n + 1) % 2 ^ 32

-- `Llvm_backend::valueExprmap_`, the expressions of module scope by value and type.
abbrev pub ValueExprmap : Type 0
ValueExprmap = List ((Option Value × ℕ) × ℕ)

abbrev value_eq : Option Value → Option Value → Bool
value_eq none none = true
value_eq (some (instruction i)) (some (instruction j)) = i == j
value_eq (some (constant i)) (some (constant j)) = i == j
value_eq _ _ = false

-- `Llvm_backend::moduleScopeValue`
unfoldable pub module_scope_value : ValueExprmap → Option Value → ℕ → Bool
module_scope_value [] val btype = false
module_scope_value (((v, t), expr) ∷ m) val btype =
    (value_eq v val && t == btype) || module_scope_value m val btype

abbrev is_var : NodeFlavor → Bool
is_var n_var = true
is_var _ = false

-- `varExprOrConvVar`
unfoldable pub var_expr_or_conv_var : Arena → Bnode → Option Bool
var_expr_or_conv_var ar n = elim n.flavor [
  | n_var ↦ some true
  | n_conversion ↦ (do
    kid ← get_elem? n.kids 0
    c ← node_at ar kid
    assert (not (is_stmt c))
    some (is_var c.flavor))
  | _ ↦ some false
]

module _ (scope : ValueExprmap) (ctl : TreeIntegCtl) where
  unfoldable pub should_be_tracked : Arena → Bnode → Option Bool
  should_be_tracked ar n =
      if not (is_stmt n) && module_scope_value scope n.value n.btype
      then some false
      else if ctl.ignore_var_exprs
      then (do v ← var_expr_or_conv_var ar n; some (not v))
      else some true

  -- `setParent` of a node that is tracked.
  unfoldable pub set_tracked_parent :
      Bool → (child parent slot : ℕ) → IntegrityVisitor → IntegrityVisitor
  set_tracked_parent stmt child parent slot vis =
      let entered = record vis { nparent = (child, (parent, slot)) ∷ vis.nparent } in
      elim (find vis.nparent child) [
        | none ↦ entered
        | some pps ↦ if same_slot pps (parent, slot) then vis else record entered {
          sharing = vis.sharing ++ ((child, (parent, slot)) ∷ []);
          stmt_share_count =
              if stmt then incremented vis.stmt_share_count else vis.stmt_share_count;
          expr_share_count =
              if stmt then vis.expr_share_count else incremented vis.expr_share_count;
        }
      ]

  unfoldable pub set_parent :
      Arena → (child parent slot : ℕ) → IntegrityVisitor → Option IntegrityVisitor
  set_parent ar child parent slot vis = do
    n ← node_at ar child
    tracked ← should_be_tracked ar n
    some (if tracked then set_tracked_parent (is_stmt n) child parent slot vis else vis)

  unfoldable pub unset_parent :
      Arena → (child parent slot : ℕ) → IntegrityVisitor → Option IntegrityVisitor
  unset_parent ar child parent slot vis = do
    n ← node_at ar child
    tracked ← should_be_tracked ar n
    if tracked
        then (do
          pps ← find vis.nparent child
          assert (same_slot pps (parent, slot))
          some (record vis { nparent = erase vis.nparent child }))
        else some vis

  -- `setParent` of an instruction.
  unfoldable pub set_inst_parent : (inst parent slot : ℕ) → IntegrityVisitor → IntegrityVisitor
  set_inst_parent inst parent slot vis = elim (find vis.iparent inst) [
    | none ↦ record vis { iparent = (inst, (parent, slot)) ∷ vis.iparent }
    | some ps ↦
        if same_slot ps (parent, slot)
        then vis
        else record vis { inst_share_count = incremented vis.inst_share_count }
  ]

  pub set_inst_parents : ℕ → ℕ → List ℕ → IntegrityVisitor → IntegrityVisitor
  set_inst_parents parent idx [] vis = vis
  set_inst_parents parent idx (i ∷ is) vis =
      set_inst_parents parent (idx + 1) is (set_inst_parent i parent idx vis)

  -- The loop over the children, with what visits one of them.
  pub visit_kids :
      (ℕ → IntegrityVisitor → Option IntegrityVisitor)
      → Arena
      → ℕ
      → ℕ
      → List ℕ
      → IntegrityVisitor
      → Option IntegrityVisitor
  visit_kids visit_kid ar parent idx [] vis = some vis
  visit_kids visit_kid ar parent idx (k ∷ ks) vis = do
    vis₁ ← visit_kid k vis
    vis₂ ← set_parent ar k parent idx vis₁
    visit_kids visit_kid ar parent (idx + 1) ks vis₂

  -- `IntegrityVisitor::visit`, on fuel.
  pub visit : ℕ → Arena → ℕ → IntegrityVisitor → Option IntegrityVisitor
  visit zero ar addr vis = none
  visit (suc fuel) ar addr vis = do
    n ← node_at ar addr
    vis₁ ← visit_kids (visit fuel ar) ar addr 0 n.kids vis
    some (if is_stmt n then vis₁ else set_inst_parents addr 0 n.instructions vis₁)

-- The set `acceptable`.
abbrev pub acceptable : NodeFlavor → Bool
acceptable n_const = true
acceptable n_var = true
acceptable n_conversion = true
acceptable n_deref = true
acceptable n_struct_field = true
acceptable _ = false

pub member : ℕ → List ℕ → Bool
member k [] = false
member k (j ∷ js) = j == k || member k js

-- The list, with `k` in front if it was not visited.
pub add_new : ℕ → List ℕ → List ℕ → List ℕ
add_new k visited ks = if member k visited then ks else k ∷ ks

-- The children that were not visited go onto the work list, whose back is its front here.
pub push_children : Arena → List ℕ → List ℕ → List ℕ → Option (List ℕ × List ℕ)
push_children ar [] visited work = some (visited, work)
push_children ar (c ∷ cs) visited work = do
  n ← node_at ar c
  assert (not (is_stmt n))
  push_children ar cs (add_new c visited visited) (add_new c visited work)

-- The loop of `repairableSubTree`, on fuel.
pub repairable_loop : ℕ → Arena → List ℕ → List ℕ → Option Bool
repairable_loop zero ar visited work = none
repairable_loop (suc fuel) ar visited [] = some true
repairable_loop (suc fuel) ar visited (e ∷ work) = do
  n ← node_at ar e
  if acceptable n.flavor
      then (do
        (visited₁, work₁) ← push_children ar n.kids visited work
        repairable_loop fuel ar visited₁ work₁)
      else some false

pub repairable_sub_tree : ℕ → Arena → ℕ → Option Bool
repairable_sub_tree fuel ar root = repairable_loop fuel ar (root ∷ []) (root ∷ [])

-- `IntegrityVisitor::repair` from an entry of `sharing_` on.
pub repair : ℕ → List (ℕ × Parslot) → List ℕ → Arena → Option (Bool × Arena)
repair fuel [] visited ar = some (true, ar)
repair fuel ((child, (parent, slot)) ∷ rest) visited ar = do
  n ← node_at ar child
  assert (not (is_stmt n))
  repairable ← if member child visited then some true else repairable_sub_tree fuel ar child
  if repairable
      then (do
        (clone, ar₁) ← clone_subtree fuel child ar
        ar₂ ← replace_child ar₁ parent slot clone
        repair fuel rest (child ∷ visited) ar₂)
      else some (false, ar)

-- `IntegrityVisitor::examine`
pub examine : ValueExprmap → TreeIntegCtl → ℕ → Arena → ℕ → IntegrityVisitor → Option (Bool × Arena)
examine scope ctl fuel ar node start = do
  vis ← visit scope ctl fuel ar node start
  if not (vis.inst_share_count == 0) || not (vis.stmt_share_count == 0)
      then some (false, ar)
      else if vis.expr_share_count == 0
      then some (true, ar)
      else if ctl.repair_sharing
      then repair fuel vis.sharing [] ar
      else some (false, ar)
