-- ===== src/Bnode/Limits.antt =====
-- When `cloneSubtree` of llvm-gofrontend/go-llvm-bnode.cpp succeeds, and the value that its result
-- keeps.
use dragongo.Common.{
  ℕ, zero, suc, ◌+◌, ◌≤◌, ◌<◌, ◌≡◌, ◌≢◌, refl, sym, ap, ◌∙◌, subst, ◌++◌, append-nil, true, false,
  Option, none, some, List, [], ◌∷◌, arith, if◌then◌else◌, assert, >>=-eq-some, of_some, All,
  length, get_elem?, get_elem?-append_length,
}
use dragongo.Bnode.{
  Value, instruction, Bnode, is_stmt, Arena, node_at, own_value, clone_instructions, cloned,
  clone_node, clone_kids, clone_subtree,
}
use dragongo.Bnode.Clone.{Grows, Grows-trans, found_grown, clone_node_lem, clone_subtree-IsCopy}

-- A tree of expressions of at most the given height in which no node has its value twice among its
-- instructions.
abbrev pub IsClonable : ℕ → List Bnode → ℕ → Type 0
IsClonable zero nodes a = ⊥
IsClonable (suc height) nodes a =
    (n : Bnode) × (get_elem? nodes a ≡ some n)
    × (is_stmt n ≡ false)
    × ((v : Option Value) × (own_value n.value n.instructions none ≡ some v))
    × All (IsClonable height nodes) n.kids

abbrev Cloned : (ℕ → Arena → Option (ℕ × Arena)) → ℕ → Arena → Type 0
Cloned clone a ar = (a' : ℕ) × (ar' : Arena) × (clone a ar ≡ some (a', ar')) × Grows ar ar'

clone_kids-some :
    (clone : ℕ → Arena → Option (ℕ × Arena)) (height : ℕ) (nodes : List Bnode) (ks : List ℕ)
    (ar : Arena) (more : List Bnode)
    → ((k : ℕ) (ar₁ : Arena) (more₁ : List Bnode)
        → ar₁.nodes ≡ nodes ++ more₁
        → IsClonable height nodes k
        → Cloned clone k ar₁)
    → ar.nodes ≡ nodes ++ more
    → All (IsClonable height nodes) ks
    → (ks' : List ℕ) × (ar' : Arena) × (clone_kids clone ks ar ≡ some (ks', ar')) × Grows ar ar'
unfolding clone_kids
clone_kids-some clone height nodes [] ar more each e ok =
    ([], ar, refl, ([], sym (append-nil ar.nodes)))
clone_kids-some clone height nodes (k ∷ ks) ar more each e (first, ok) =
    let (k', ar₁, e₁, (more₁, g₁)) = each k ar more e first in
    let (all_more, e') = Grows-trans (record ar { nodes = nodes }) ar ar₁ (more, e) (more₁, g₁) in
    let (ks', ar₂, e₂, g₂) = clone_kids-some clone height nodes ks ar₁ all_more each e' ok in
    (k' ∷ ks', ar₂, rw (e₁, e₂) refl, Grows-trans ar ar₁ ar₂ (more₁, g₁) g₂)

clone_subtree-grown :
    (height a : ℕ) (ar : Arena) (nodes more : List Bnode)
    → ar.nodes ≡ nodes ++ more
    → IsClonable height nodes a
    → Cloned (clone_subtree height) a ar
unfolding clone_subtree clone_node
clone_subtree-grown zero a ar nodes more e ok = absurd ok
clone_subtree-grown (suc height) a ar nodes more e (n, at, expr, (v, own), kids) =
    let (ks, ar₁, e₁, g₁) =
      clone_kids-some (clone_subtree height) height nodes n.kids ar more
        (λ k ar₂ more₂ h ok. clone_subtree-grown height k ar₂ nodes more₂ h ok) e kids in
    let here : node_at ar a ≡ some n =
      subst (λ l. get_elem? l a ≡ some n) (sym e) (found_grown nodes more a n at) in
    let made : clone_subtree (suc height) a ar
        ≡ some (
          length ar₁.nodes,
          record {
            nodes = ar₁.nodes ++ (cloned n ks (length ar₁.earchive) ar₁.insts v ∷ []);
            earchive = ar₁.earchive ++ (some (length ar₁.nodes) ∷ []);
            insts = ar₁.insts + length n.instructions;
          },
        ) =
      rw (here, expr, e₁, own) refl in
    (_, _, made, (clone_subtree-IsCopy (suc height) a ar _ _ made).0)

-- Cloning a tree of expressions succeeds on fuel for its height, if no node has its value twice
-- among its instructions.
pub clone_subtree-some :
    (height a : ℕ) (ar : Arena)
    → IsClonable height ar.nodes a
    → (r : ℕ × Arena) × (clone_subtree height a ar ≡ some r)
clone_subtree-some height a ar ok =
    let (a', ar', e, _) =
      clone_subtree-grown height a ar ar.nodes [] (sym (append-nil ar.nodes)) ok in
    ((a', ar'), e)

clone_kids_insts :
    (clone : ℕ → Arena → Option (ℕ × Arena)) (ks : List ℕ) (ar : Arena) {ks' : List ℕ} {ar' : Arena}
    → ((k : ℕ) (ar₁ : Arena) (k' : ℕ) (ar₂ : Arena)
        → clone k ar₁ ≡ some (k', ar₂)
        → ar₁.insts ≤ ar₂.insts)
    → clone_kids clone ks ar ≡ some (ks', ar')
    → ar.insts ≤ ar'.insts
unfolding clone_kids
clone_kids_insts clone [] ar each e =
    omega (arith, ap (λ (r : List ℕ × Arena). r.1.insts) (of_some e))
clone_kids_insts clone (k ∷ ks) ar each e =
    let ((k', ar₁), first, e₁) = >>=-eq-some (clone k ar) _ e in
    let ((ks₁, ar₂), rest, e₂) = >>=-eq-some (clone_kids clone ks ar₁) _ e₁ in
    omega (
      arith,
      each k ar k' ar₁ first,
      clone_kids_insts clone ks ar₁ each rest,
      ap (λ (r : List ℕ × Arena). r.1.insts) (of_some e₂),
    )

clone_node_insts :
    (n : Bnode) (ks : List ℕ) (ar : Arena) {a' : ℕ} {ar' : Arena}
    → clone_node n ks ar ≡ some (a', ar')
    → ar.insts ≤ ar'.insts
unfolding clone_node
clone_node_insts n ks ar e =
    let (v, own, done) = >>=-eq-some (own_value n.value n.instructions none) _ e in
    omega (arith, ap (λ (r : ℕ × Arena). r.1.insts) (of_some done))

clone_insts :
    (fuel a : ℕ) (ar : Arena) (a' : ℕ) (ar' : Arena)
    → clone_subtree fuel a ar ≡ some (a', ar')
    → ar.insts ≤ ar'.insts
unfolding clone_subtree
clone_insts zero a ar a' ar' e = absurd (ground arith)
clone_insts (suc fuel) a ar a' ar' e =
    let (n, at, e₁) = >>=-eq-some (node_at ar a) _ e in
    let (_, _, e₂) = >>=-eq-some (assert (if is_stmt n then false else true)) _ e₁ in
    let ((ks, ar₁), below, e₃) = >>=-eq-some (clone_kids (clone_subtree fuel) n.kids ar) _ e₂ in
    omega (
      arith,
      clone_kids_insts (clone_subtree fuel) n.kids ar
          (λ k ar₂ k' ar₃ h. clone_insts fuel k ar₂ k' ar₃ h) below,
      clone_node_insts n ks ar₁ e₃,
    )

found_at_end :
    (nodes' nodes : List Bnode) (n : Bnode) (a : ℕ)
    → nodes' ≡ nodes ++ (n ∷ [])
    → a ≡ length nodes
    → get_elem? nodes' a ≡ some n
found_at_end nodes' nodes n a grown at_end = rw (grown, at_end) (get_elem?-append_length nodes [] n)

clone_instructions_fresh :
    (next i : ℕ) (is : List ℕ) → i < next → All (λ (j : ℕ). j ≢ i) (clone_instructions next is)
unfolding clone_instructions
clone_instructions_fresh next i [] small = tt
clone_instructions_fresh next i (k ∷ is) small =
    ((λ e. omega arith), clone_instructions_fresh (next + 1) i is (omega arith))

-- The clone of an expression whose value is an instruction has that same instruction as its value,
-- and none of the clone's own instructions is it.
pub clone_value_not_own :
    (fuel a : ℕ) (ar : Arena) (a' : ℕ) (ar' : Arena) (n : Bnode) (i : ℕ)
    → clone_subtree fuel a ar ≡ some (a', ar')
    → node_at ar a ≡ some n
    → n.value ≡ some (instruction i)
    → i < ar.insts
    → (n' : Bnode) × (node_at ar' a' ≡ some n')
      × (n'.value ≡ some (instruction i))
      × All (λ (j : ℕ). j ≢ i) n'.instructions
unfolding clone_subtree
clone_value_not_own zero a ar a' ar' n i e at value old = absurd (ground arith)
clone_value_not_own (suc fuel) a ar a' ar' n i e at value old =
    let (n₀, at₀, e₁) = >>=-eq-some (node_at ar a) _ e in
    let (_, _, e₂) = >>=-eq-some (assert (if is_stmt n₀ then false else true)) _ e₁ in
    let ((ks, ar₁), below, e₃) = >>=-eq-some (clone_kids (clone_subtree fuel) n₀.kids ar) _ e₂ in
    let (n', grown, at_end, _, insts, same) = clone_node_lem n₀ ks ar₁ e₃ in
    let is_n : n₀ ≡ n = of_some (sym at₀ ∙ at) in
    let later =
      clone_kids_insts (clone_subtree fuel) n₀.kids ar
        (λ k ar₂ k' ar₃ h. clone_insts fuel k ar₂ k' ar₃ h) below in
    (
      n',
      found_at_end ar'.nodes ar₁.nodes n' a' grown at_end,
      same.value ∙ ap (λ (m : Bnode). m.value) is_n ∙ value,
      subst (All (λ (j : ℕ). j ≢ i)) (sym insts)
          (clone_instructions_fresh ar₁.insts i n₀.instructions (omega arith)),
    )
