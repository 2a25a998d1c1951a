-- ===== src/Walker/Runs.antt =====
-- Walks over a small tree, as llvm-gofrontend/go-llvm-bnode.h makes them.
use dragongo.Common.{
  ℕ, suc, ◌+◌, Option, ◌≡◌, refl, some, List, [], ◌∷◌, ◌==◌, if◌then◌else◌, ◌>>=◌,
}
use dragongo.Bnode.{set_elem, replace_child}
use dragongo.Bnode.Runs.{leaf, sum, small_tree}
use dragongo.Walker.{
  continue_walk, SimpleVisitor, UpdatingVisitor, simple_kids, simple_walk, replace_if, update_kid,
  update_kids, update_walk, update_walk_nodes,
}
use dragongo.Walker.Visits.{
  Visit, enters, leaves, enters_child, leaves_child, kid_visits, visits, Keeps, played, on_nodes,
  walks_visits,
}

-- Notes every node before and behind its children.
abbrev noting : SimpleVisitor (List ℕ)
noting = record { visit_node_pre = λ node s. node ∷ s; visit_node_post = λ node s. node ∷ s }

noted : simple_walk noting small_tree 2 2 [] ≡ some (2 ∷ 1 ∷ 1 ∷ 0 ∷ 0 ∷ 2 ∷ [])
unfolding simple_walk simple_kids
noted = refl

-- Notes all visits: a node by its address, a child by 100 more before its walk and 200 more behind.
abbrev log : Visit → List ℕ → Option (List ℕ)
log (enters node) s = some (node ∷ s)
log (leaves node) s = some (node ∷ s)
log (enters_child parent child) s = some ((100 + child) ∷ s)
log (leaves_child parent child) s = some ((200 + child) ∷ s)

abbrev logging : UpdatingVisitor (List ℕ)
logging = record {
  visit_node_pre = λ node s ar. some (continue_walk, node, node ∷ s, ar);
  visit_child_pre = λ parent child s ar. some (continue_walk, child, (100 + child) ∷ s, ar);
  visit_child_post = λ parent child s ar. some (continue_walk, child, (200 + child) ∷ s, ar);
  visit_node_post = λ node s ar. some (continue_walk, node, node ∷ s, ar);
}

logging-Keeps : Keeps logging log small_tree
logging-Keeps = record {
  node_pre = λ node s. refl;
  child_pre = λ parent child s. refl;
  child_post = λ parent child s. refl;
  node_post = λ node s. refl;
}

walks_visits_example :
    (update_walk_nodes logging 2 2 [] small_tree
      ≡ (played log (visits small_tree 2 2) [] >>= λ s. some (2, s, small_tree)))
    × (simple_walk noting small_tree 2 2 [] ≡ played (on_nodes noting) (visits small_tree 2 2) [])
walks_visits_example = walks_visits logging log noting small_tree 2 2 [] logging-Keeps

listed : visits small_tree 1 0 ≡ some (enters 0 ∷ leaves 0 ∷ [])
unfolding visits kid_visits
listed = refl

-- Puts node 1 in place of node 0, once its walk is over, and counts.
abbrev replacing : UpdatingVisitor ℕ
replacing = record {
  visit_node_pre = λ node s ar. some (continue_walk, node, s, ar);
  visit_child_pre = λ parent child s ar. some (continue_walk, child, s, ar);
  visit_child_post = λ parent child s ar. some (continue_walk, child, s, ar);
  visit_node_post = λ node s ar. some (continue_walk, (if node == 0 then 1 else node), suc s, ar);
}

replaced :
    update_walk_nodes replacing 2 2 0 small_tree
    ≡ some (2, 3, record small_tree { nodes = leaf 0 ∷ leaf 1 ∷ sum 1 1 ∷ [] })
unfolding update_walk_nodes update_walk update_kids update_kid replace_if replace_child set_elem
replaced = refl
