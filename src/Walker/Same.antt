-- ===== src/Walker/Same.antt =====
-- The walkers of llvm-gofrontend/go-llvm-bnode.h with a visitor that replaces nothing.
use dragongo.Common.{
  ℕ, zero, suc, ◌+◌, ◌≡◌, refl, inl, inr, Option, none, some, List, [], ◌∷◌, ◌>>=◌, ==_iff,
  Option-cases,
}
use dragongo.Bnode.{Arena, node_at}
use dragongo.Walker.{
  VisitDisp, continue_walk, stop_walk, SimpleVisitor, UpdatingVisitor, Visited, simple_kids,
  simple_walk, replace_if, update_kid, update_kids, update_walk,
}

pub replace_if_same :
    (node idx child : ℕ) (ar : Arena) → replace_if node idx child child ar ≡ some ar
unfolding replace_if
replace_if_same node idx child ar = rw ((==_iff child child).1 refl) refl

module _ {S : Type 0} where
  -- A simple visitor as an updating one that keeps every node and goes on.
  unfoldable pub updating : SimpleVisitor S → UpdatingVisitor S
  updating v = record {
    visit_node_pre = λ node s ar. some (continue_walk, node, v.visit_node_pre node s, ar);
    visit_child_pre = λ parent child s ar. some (continue_walk, child, s, ar);
    visit_child_post = λ parent child s ar. some (continue_walk, child, s, ar);
    visit_node_post = λ node s ar. some (continue_walk, node, v.visit_node_post node s, ar);
  }

  abbrev goes_on : ℕ → Arena → Option S → Option (Visited S)
  goes_on node ar o = o >>= λ s. some (continue_walk, node, s, ar)

  abbrev kids_go_on : Arena → Option S → Option (VisitDisp × S × Arena)
  kids_go_on ar o = o >>= λ s. some (continue_walk, s, ar)

  kid_same :
      (v : SimpleVisitor S) (f : ℕ → S → Arena → Option (Visited S)) (g : ℕ → S → Option S)
      (node idx k : ℕ) (s : S) (ar : Arena)
      → f k s ar ≡ goes_on k ar (g k s)
      → update_kid (updating v) f node idx k s ar ≡ kids_go_on ar (g k s)
  unfolding update_kid updating
  kid_same v f g node idx k s ar e = elim (Option-cases (g k s)) [
    | inl none' ↦ rw (replace_if_same node idx k ar, e, none') refl
    | inr (s₁, some') ↦
        rw (replace_if_same node idx k ar, e, some')
          (rw (replace_if_same node idx k ar) (rw (replace_if_same node idx k ar) refl))
  ]

  kids_same :
      (v : SimpleVisitor S) (f : ℕ → S → Arena → Option (Visited S)) (g : ℕ → S → Option S)
      (node idx : ℕ) (ks : List ℕ) (s : S) (ar : Arena)
      → ((k : ℕ) (s₁ : S) → f k s₁ ar ≡ goes_on k ar (g k s₁))
      → update_kids (updating v) f node idx ks s ar ≡ kids_go_on ar (simple_kids g ks s)
  unfolding update_kids simple_kids
  kids_same v f g node idx [] s ar each = refl
  kids_same v f g node idx (k ∷ ks) s ar each = elim (Option-cases (g k s)) [
    | inl none' ↦ rw (kid_same v f g node idx k s ar (each k s), none') refl
    | inr (s₁, some') ↦
        rw (kid_same v f g node idx k s ar (each k s), some')
          (kids_same v f g node (idx + 1) ks s₁ ar each)
  ]

  after_kids :
      (v : SimpleVisitor S) (node : ℕ) (ar : Arena) (o : Option S)
      → (kids_go_on ar o >>= λ x. elim x.0 as (λ _. Option (Visited S)) [
        | continue_walk ↦ some (continue_walk, node, v.visit_node_post node x.1, x.2)
        | stop_walk ↦ some (stop_walk, node, x.1, x.2)
      ])
        ≡ goes_on node ar (o >>= λ s. some (v.visit_node_post node s))
  after_kids v node ar none = refl
  after_kids v node ar (some s) = refl

  pub walk_same :
      (v : SimpleVisitor S) (fuel node : ℕ) (s : S) (ar : Arena)
      → update_walk (updating v) fuel node s ar ≡ goes_on node ar (simple_walk v ar fuel node s)
  unfolding update_walk simple_walk updating
  walk_same v zero node s ar = refl
  walk_same v (suc fuel) node s ar = elim (Option-cases (node_at ar node)) [
    | inl none' ↦ rw none' refl
    | inr (n, some') ↦ rw some' (
        rw
          (kids_same v (update_walk (updating v) fuel) (simple_walk v ar fuel) node 0 n.kids
            (v.visit_node_pre node s) ar (λ k s₁. walk_same v fuel k s₁ ar))
          (after_kids v node ar
            (simple_kids (simple_walk v ar fuel) n.kids (v.visit_node_pre node s))))
  ]
