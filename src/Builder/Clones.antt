-- ===== src/Builder/Clones.antt =====
-- `cloneSubtree` as a call of `BnodeBuilder`, llvm-gofrontend/go-llvm-bnode.cpp.
use dragongo.Common.{
  ℕ, zero, suc, ◌≡◌, refl, ap, ◌∙◌, subst, true, false, Option, none, some, List, [], ◌∷◌, arith,
  if◌then◌else◌, ◌>>=◌, >>=-eq-some, of_some, assert, length, get_elem?, All,
}
use dragongo.Bnode.{
  Bnode, is_stmt, Arena, node_at, own_value, cloned, clone_node, clone_kids, clone_subtree,
}
use dragongo.Builder.{BnodeBuilder, has_children}
use dragongo.Builder.Shape.{IsBuilt, IsShaped, appended-IsBuilt}

-- `cloneSubtree`, with the depth of the tree as fuel. The builder's integrity visitor learns nothing,
-- since a copy is archived before it gets its children.
unfoldable pub clone_expr : ℕ → ℕ → BnodeBuilder → Option (ℕ × BnodeBuilder)
clone_expr fuel expr b = do
  (copy, ar) ← clone_subtree fuel expr b.arena
  some (copy, record b { arena = ar })

found_one {ℓ κ} :
    {A : Type ℓ} (P : A → Type κ) (xs : List A) (i : ℕ) {x : A}
    → All P xs
    → get_elem? xs i ≡ some x
    → P x
found_one P [] i all e = absurd (ground arith)
found_one P (y ∷ xs) zero all e = subst P (of_some e) all.0
found_one P (y ∷ xs) (suc i) all e = found_one P xs i all.1 e

-- The builder with another arena.
abbrev at_arena : BnodeBuilder → Arena → BnodeBuilder
at_arena b ar = record b { arena = ar }

clone_node-IsBuilt :
    (n : Bnode) (kids : List ℕ) (b : BnodeBuilder) {a : ℕ} {ar : Arena}
    → IsBuilt b
    → IsShaped n
    → length kids ≡ length n.kids
    → clone_node n kids b.arena ≡ some (a, ar)
    → IsBuilt (at_arena b ar)
unfolding clone_node cloned
clone_node-IsBuilt n kids b {a} {ar} built shape many e =
    let (newv, _, done) = >>=-eq-some (own_value n.value n.instructions none) _ e in
    let fresh : Bnode = cloned n kids (length b.arena.earchive) b.arena.insts newv in
    let shaped : IsShaped fresh = ap (has_children n.flavor) many ∙ shape in
    subst (λ (r : ℕ × Arena). IsBuilt (at_arena b r.1)) (of_some done)
      (appended-IsBuilt fresh b _ built shaped refl)

-- The children one after the other, with what holds of the clone of one.
clone_kids-IsBuilt :
    (clone : ℕ → Arena → Option (ℕ × Arena)) (ks : List ℕ) (b : BnodeBuilder) {ks' : List ℕ}
    {ar : Arena}
    → ((k : ℕ) (b₁ : BnodeBuilder) (k' : ℕ) (ar₁ : Arena)
        → IsBuilt b₁
        → clone k b₁.arena ≡ some (k', ar₁)
        → IsBuilt (at_arena b₁ ar₁))
    → IsBuilt b
    → clone_kids clone ks b.arena ≡ some (ks', ar)
    → IsBuilt (at_arena b ar) × (length ks' ≡ length ks)
unfolding clone_kids
clone_kids-IsBuilt clone [] b each built e =
    subst (λ (r : List ℕ × Arena). IsBuilt (at_arena b r.1) × (length r.0 ≡ 0)) (of_some e)
      (built, refl)
clone_kids-IsBuilt clone (k ∷ ks) b each built e =
    let ((k', ar₁), first, e₁) = >>=-eq-some (clone k b.arena) _ e in
    let ((ks₁, ar₂), rest, e₂) = >>=-eq-some (clone_kids clone ks ar₁) _ e₁ in
    let (all, many) =
      clone_kids-IsBuilt clone ks (at_arena b ar₁) each (each k b k' ar₁ built first) rest in
    subst (λ (r : List ℕ × Arena). IsBuilt (at_arena b r.1) × (length r.0 ≡ suc (length ks)))
      (of_some e₂) (all, ap suc many)

clone_subtree-IsBuilt :
    (fuel expr : ℕ) (b : BnodeBuilder) {a : ℕ} {ar : Arena}
    → IsBuilt b
    → clone_subtree fuel expr b.arena ≡ some (a, ar)
    → IsBuilt (at_arena b ar)
unfolding clone_subtree
clone_subtree-IsBuilt zero expr b built e = absurd (ground arith)
clone_subtree-IsBuilt (suc fuel) expr b built e =
    let (n, at, e₁) = >>=-eq-some (node_at b.arena expr) _ e in
    let (_, _, e₂) = >>=-eq-some (assert (if is_stmt n then false else true)) _ e₁ in
    let ((ks, ar₁), below, e₃) =
      >>=-eq-some (clone_kids (clone_subtree fuel) n.kids b.arena) _ e₂ in
    let (all, many) =
      clone_kids-IsBuilt (clone_subtree fuel) n.kids b
        (λ k b₁ k' ar₂ h f. clone_subtree-IsBuilt fuel k b₁ h f) built below in
    clone_node-IsBuilt n ks (at_arena b ar₁) all
      (found_one IsShaped b.arena.nodes expr built.shaped at) many e₃

pub clone_expr-IsBuilt :
    (fuel expr : ℕ) (b : BnodeBuilder) (a : ℕ) (b' : BnodeBuilder)
    → IsBuilt b
    → clone_expr fuel expr b ≡ some (a, b')
    → IsBuilt b'
unfolding clone_expr
clone_expr-IsBuilt fuel expr b a b' built e =
    let ((c, ar), f, done) = >>=-eq-some (clone_subtree fuel expr b.arena) _ e in
    subst (λ (r : ℕ × BnodeBuilder). IsBuilt r.1) (of_some done)
      (clone_subtree-IsBuilt fuel expr b built f)
