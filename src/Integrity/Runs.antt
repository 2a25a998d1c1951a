-- ===== src/Integrity/Runs.antt =====
-- Trees that go-llvm-tree-integrity.cpp examines.
use dragongo.Common.{
  ℕ, zero, suc, ◌<◌, ◌≡◌, ◌↔◌, refl, subst, of_some, Bool, true, false, some, List, [], ◌∷◌, arith,
  All,
}
use dragongo.Bnode.{
  Bnode, Arena, replace_child, set_elem, own_value, clone_instructions, cloned, clone_node,
  clone_kids, clone_subtree,
}
use dragongo.Bnode.Runs.{leaf, sum, small_tree}
use dragongo.Integrity.{
  TreeIntegCtl, IntegrityVisitor, new_visitor, find, module_scope_value, should_be_tracked,
  set_tracked_parent, set_parent, set_inst_parent, set_inst_parents, visit_kids, visit, member,
  add_new, push_children, repairable_loop, repairable_sub_tree, repair, examine,
}
use dragongo.Integrity.Uses.{Use, node_use, inst_use, kid_uses, uses, inst_uses}
use dragongo.Integrity.Taken.{OneParent, same_key}
use dragongo.Integrity.Examine.{examine_unshared, examine_sharing}
use dragongo.Integrity.Walk.{IsRanked, IsNode, visit-some}

abbrev check_only : TreeIntegCtl
check_only = record { ignore_var_exprs = false; repair_sharing = false }

abbrev with_repair : TreeIntegCtl
with_repair = record { ignore_var_exprs = false; repair_sharing = true }

-- A constant added to itself.
abbrev doubled : Arena
doubled = record { nodes = leaf 0 ∷ sum 0 0 ∷ []; earchive = some 0 ∷ some 1 ∷ []; insts = 1 }

doubled_fails : examine [] check_only 2 doubled 1 new_visitor ≡ some (false, doubled)
unfolding examine visit visit_kids set_parent should_be_tracked module_scope_value
    set_tracked_parent set_inst_parents set_inst_parent find new_visitor
doubled_fails = refl

doubled_repaired :
    examine [] with_repair 2 doubled 1 new_visitor
    ≡ some (
      true,
      record {
        nodes = leaf 0 ∷ sum 0 2 ∷ record (leaf 0) { id = 2 } ∷ [];
        earchive = some 0 ∷ some 1 ∷ some 2 ∷ [];
        insts = 1;
      },
    )
unfolding examine visit visit_kids set_parent should_be_tracked module_scope_value
    set_tracked_parent set_inst_parents set_inst_parent find new_visitor repair repairable_sub_tree
    repairable_loop push_children add_new member clone_subtree clone_kids clone_node cloned
    clone_instructions own_value replace_child set_elem
doubled_repaired = refl

abbrev small_uses : List Use
small_uses = node_use false 0 (2, 0) ∷ node_use false 1 (2, 1) ∷ inst_use 0 (2, 0) ∷ []

small_tree_walked : uses [] with_repair 2 small_tree 2 ≡ some small_uses
unfolding uses kid_uses inst_uses should_be_tracked module_scope_value
small_tree_walked = refl

one_parent : OneParent small_uses
unfolding same_key
one_parent =
    (((λ e. ground arith), ((λ e. ground arith), tt)), (((λ e. ground arith), tt), (tt, tt)))

examine_unshared_example :
    examine [] with_repair 2 small_tree 2 new_visitor ≡ some (true, small_tree)
examine_unshared_example =
    examine_unshared [] with_repair 2 small_tree 2 small_uses small_tree_walked one_parent

abbrev doubled_uses : List Use
doubled_uses = node_use false 0 (1, 0) ∷ node_use false 0 (1, 1) ∷ inst_use 0 (1, 0) ∷ []

doubled_walked : uses [] check_only 2 doubled 1 ≡ some doubled_uses
unfolding uses kid_uses inst_uses should_be_tracked module_scope_value
doubled_walked = refl

examine_sharing_example :
    (b : Bool) × (examine [] check_only 2 doubled 1 new_visitor ≡ some (b, doubled))
    × ((b ≡ true) ↔ OneParent doubled_uses)
examine_sharing_example =
    examine_sharing [] check_only 2 doubled 1 doubled_uses refl doubled_walked (omega arith)

abbrev height : ℕ → ℕ
height zero = 0
height (suc zero) = 1
height _ = 0

is_leaf : IsNode doubled 0
is_leaf = (leaf 0, refl, λ e. absurd (ground arith))

below :
    (a : ℕ) (n n' : Bnode)
    → n ≡ n'
    → All (λ (k : ℕ). (height k < height a) × IsNode doubled k) n.kids
    → All (λ (k : ℕ). (height k < height a) × IsNode doubled k) n'.kids
below a n n' e h =
    subst (λ (m : Bnode). All (λ (k : ℕ). (height k < height a) × IsNode doubled k) m.kids) e h

doubled-IsRanked : IsRanked doubled height
doubled-IsRanked zero n e = below 0 (leaf 0) n (of_some e) tt
doubled-IsRanked (suc zero) n e =
    below 1 (sum 0 0) n (of_some e) ((omega arith, is_leaf), ((omega arith, is_leaf), tt))
doubled-IsRanked (suc (suc a)) n e = absurd (ground arith)

visit-some_example :
    (vis' : IntegrityVisitor) × (visit [] check_only 2 doubled 1 new_visitor ≡ some vis')
visit-some_example =
    visit-some [] check_only 2 doubled height 1 new_visitor doubled-IsRanked
      (sum 0 0, refl, λ e. absurd (ground arith)) (omega arith)
