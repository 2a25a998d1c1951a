-- ===== src/Walker.antt =====
-- The node walkers of llvm-gofrontend/go-llvm-bnode.h. A visitor is its hooks, over a state of its
-- own; the hooks of an updating walk may change the arena too.
pub mod Same
pub mod Visits
mod Runs
use dragongo.Common.{
  ℕ, zero, suc, ◌+◌, Bool, true, false, Option, none, some, List, [], ◌∷◌, ◌==◌, if◌then◌else◌,
  ◌>>=◌,
}
use dragongo.Bnode.{Bnode, Arena, node_at, replace_child}

pub data VisitDisp : Type 0 where
  continue_walk stop_walk : VisitDisp

pub record SimpleVisitor (S : Type 0) : Type 0 where
  pub visit_node_pre : ℕ → S → S
  pub visit_node_post : ℕ → S → S

-- What a hook gives: how to go on, the node in place of the one visited, and the states.
abbrev pub Visited : Type 0 → Type 0
Visited S = VisitDisp × ℕ × S × Arena

pub record UpdatingVisitor (S : Type 0) : Type 0 where
  pub visit_node_pre : ℕ → S → Arena → Option (Visited S)
  pub visit_child_pre : (parent child : ℕ) → S → Arena → Option (Visited S)
  pub visit_child_post : (parent child : ℕ) → S → Arena → Option (Visited S)
  pub visit_node_post : ℕ → S → Arena → Option (Visited S)

-- `if (replaced != child) node->replaceChild(idx, replaced)`
unfoldable pub replace_if : (node idx child replaced : ℕ) → Arena → Option Arena
replace_if node idx child replaced ar =
    if replaced == child then some ar else replace_child ar node idx replaced

module _ {S : Type 0} where
  unfoldable pub simple_kids : (ℕ → S → Option S) → List ℕ → S → Option S
  simple_kids walk_kid [] s = some s
  simple_kids walk_kid (k ∷ ks) s = do s₁ ← walk_kid k s; simple_kids walk_kid ks s₁

  -- `SimpleNodeWalker::walk`, on fuel.
  unfoldable pub simple_walk : SimpleVisitor S → Arena → ℕ → ℕ → S → Option S
  simple_walk v ar zero node s = none
  simple_walk v ar (suc fuel) node s = do
    n ← node_at ar node
    s₁ ← simple_kids (simple_walk v ar fuel) n.kids (v.visit_node_pre node s)
    some (v.visit_node_post node s₁)

  -- One child: the hook before it, its walk and the hook after it.
  unfoldable pub update_kid :
      UpdatingVisitor S
      → (ℕ → S → Arena → Option (Visited S))
      → (node idx child : ℕ) → S
      → Arena
      → Option (VisitDisp × S × Arena)
  update_kid v walk_kid node idx child s ar = do
    (d₁, c₁, s₁, ar₁) ← v.visit_child_pre node child s ar
    ar₂ ← replace_if node idx child c₁ ar₁
    elim d₁ [
      | stop_walk ↦ some (stop_walk, s₁, ar₂)
      | continue_walk ↦ (do
        (d₂, c₂, s₂, ar₃) ← walk_kid c₁ s₁ ar₂
        ar₄ ← replace_if node idx c₁ c₂ ar₃
        elim d₂ [
          | stop_walk ↦ some (stop_walk, s₂, ar₄)
          | continue_walk ↦ (do
            (d₃, c₃, s₃, ar₅) ← v.visit_child_post node c₂ s₂ ar₄
            ar₆ ← replace_if node idx c₂ c₃ ar₅
            some (d₃, s₃, ar₆))
        ])
    ]

  unfoldable pub update_kids :
      UpdatingVisitor S
      → (ℕ → S → Arena → Option (Visited S))
      → (node idx : ℕ) → List ℕ
      → S
      → Arena
      → Option (VisitDisp × S × Arena)
  update_kids v walk_kid node idx [] s ar = some (continue_walk, s, ar)
  update_kids v walk_kid node idx (k ∷ ks) s ar = do
    (d, s₁, ar₁) ← update_kid v walk_kid node idx k s ar
    elim d [
      | stop_walk ↦ some (stop_walk, s₁, ar₁)
      | continue_walk ↦ update_kids v walk_kid node (idx + 1) ks s₁ ar₁
    ]

  -- `UpdatingNodeWalker::walk`, on fuel; the children are those of the node that the first hook
  -- gave, as they are then.
  unfoldable pub update_walk : UpdatingVisitor S → ℕ → ℕ → S → Arena → Option (Visited S)
  update_walk v zero node s ar = none
  update_walk v (suc fuel) node s ar = do
    (d₁, node₁, s₁, ar₁) ← v.visit_node_pre node s ar
    elim d₁ [
      | stop_walk ↦ some (stop_walk, node₁, s₁, ar₁)
      | continue_walk ↦ (do
        n ← node_at ar₁ node₁
        (d₂, s₂, ar₂) ← update_kids v (update_walk v fuel) node₁ 0 n.kids s₁ ar₁
        elim d₂ [
          | stop_walk ↦ some (stop_walk, node₁, s₂, ar₂)
          | continue_walk ↦ v.visit_node_post node₁ s₂ ar₂
        ])
    ]

  -- `update_walk_nodes`
  unfoldable pub update_walk_nodes : UpdatingVisitor S → ℕ → ℕ → S → Arena → Option (ℕ × S × Arena)
  update_walk_nodes v fuel root s ar = do
    (d, node, s₁, ar₁) ← update_walk v fuel root s ar
    some (node, s₁, ar₁)
