-- ===== src/Bnode/Runs.antt =====
-- Trees of go-llvm-bnode.cpp, cloned.
use dragongo.Common.{ℕ, ◌≡◌, ◌≢◌, refl, none, some, [], ◌∷◌, arith, All, length}
use dragongo.Bnode.{
  n_const, n_binary_op, instruction, constant, no_payload, of_op, Bnode, Arena, node_at, own_value,
  clone_instructions, cloned, clone_node, clone_kids, clone_subtree,
}
use dragongo.Bnode.Clone.{Grows, IsCopy, clone_subtree-IsCopy}
use dragongo.Bnode.Limits.{clone_subtree-some, clone_value_not_own}

abbrev pub leaf : ℕ → Bnode
leaf i = record {
  flavor = n_const;
  kids = [];
  id = i;
  value = some (constant i);
  btype = 0;
  instructions = [];
  payload = no_payload;
  var_context = none;
  tag = [];
  location = 0;
}

abbrev pub sum : ℕ → ℕ → Bnode
sum l r = record {
  flavor = n_binary_op;
  kids = l ∷ r ∷ [];
  id = 2;
  value = some (instruction 0);
  btype = 0;
  instructions = 0 ∷ [];
  payload = of_op 9;
  var_context = none;
  tag = [];
  location = 0;
}

-- Two constants and their sum, an instruction.
abbrev pub small_tree : Arena
small_tree = record {
  nodes = leaf 0 ∷ leaf 1 ∷ sum 0 1 ∷ [];
  earchive = some 0 ∷ some 1 ∷ some 2 ∷ [];
  insts = 1;
}

abbrev grown : Arena
grown = record {
  nodes =
      leaf 0
      ∷ leaf 1
      ∷ sum 0 1
      ∷ record (leaf 0) { id = 3 }
      ∷ record (leaf 1) { id = 4 }
      ∷ record (sum 3 4) { id = 5; instructions = 1 ∷ [] }
      ∷ [];
  earchive = some 0 ∷ some 1 ∷ some 2 ∷ some 3 ∷ some 4 ∷ some 5 ∷ [];
  insts = 2;
}

cloned_sum : clone_subtree 2 2 small_tree ≡ some (5, grown)
unfolding clone_subtree clone_kids clone_node cloned clone_instructions own_value
cloned_sum = refl

clone_subtree-IsCopy_example :
    Grows small_tree grown × IsCopy 2 (length small_tree.nodes) grown.nodes 2 5
clone_subtree-IsCopy_example = clone_subtree-IsCopy 2 2 small_tree 5 grown cloned_sum

clone_subtree-some_example : (r : ℕ × Arena) × (clone_subtree 2 2 small_tree ≡ some r)
unfolding own_value
clone_subtree-some_example = clone_subtree-some 2 2 small_tree (
  sum 0 1,
  refl,
  refl,
  (some (instruction 0), refl),
  ((leaf 0, refl, refl, (none, refl), tt), ((leaf 1, refl, refl, (none, refl), tt), tt)),
)

clone_value_not_own_example :
    (n' : Bnode) × (node_at grown 5 ≡ some n')
    × (n'.value ≡ some (instruction 0))
    × All (λ (j : ℕ). j ≢ 0) n'.instructions
clone_value_not_own_example =
    clone_value_not_own 2 2 small_tree 5 grown (sum 0 1) 0 cloned_sum refl refl (omega arith)
