-- ===== src/Builder/Orphans.antt =====
-- What `extractChildenAndDestroy` of llvm-gofrontend/go-llvm-bnode.cpp leaves behind.
use dragongo.Common.{
  ℕ, ◌+◌, ◌≡◌, ◌≢◌, ◌⊎◌, inl, inr, refl, sym, ap, ◌∙◌, subst, true, false, not, Option, none, some,
  List, [], ◌∷◌, arith, if◌then◌else◌, ◌==◌, >>=-eq-some, of_some, assert, assert-true, Bool-cases,
  get_elem?, All,
}
use dragongo.Bnode.{Bnode, Arena, node_at, is_stmt}
use dragongo.Integrity.{
  ValueExprmap, Parslot, IntegrityVisitor, find, erase, same_slot, should_be_tracked, unset_parent,
}
use dragongo.Builder.{BnodeBuilder, builder_ctl}
use dragongo.Builder.Shape.{IsBuilt}
use dragongo.Builder.Free.{
  free_expr, unset_children, extract_children_and_destroy, free_expr-IsBuilt, has_value, is_empty,
  no_value, no_instructions,
}
use dragongo.Builder.Forgets.{Forgets, forgotten}

find_erased :
    (m : List (ℕ × Parslot)) (k j : ℕ) → find (erase m k) j ≡ (if j == k then none else find m j)
unfolding find erase
find_erased [] k j = ground arith
find_erased ((i, ps) ∷ m) k j = let rest = find_erased m k j in ground (arith, rest)

-- Both are nodes without parents, or they have the same parent.
abbrev FreedOrSame : List (ℕ × Parslot) → List (ℕ × Parslot) → ℕ → Type 0
FreedOrSame m m' j = (find m' j ≡ none) ⊎ (find m' j ≡ find m j)

module _ (scope : ValueExprmap) where
  -- A child without a parent: it is an expression, and it is free if the visitor tracks it.
  abbrev pub IsOrphan : Arena → IntegrityVisitor → ℕ → Type 0
  IsOrphan ar vis k =
      (n : Bnode) × (node_at ar k ≡ some n)
      × (is_stmt n ≡ false)
      × (should_be_tracked scope builder_ctl ar n ≡ some true → find vis.nparent k ≡ none)

  unset_parent_lem :
      (ar : Arena) (child parent slot : ℕ) (vis vis' : IntegrityVisitor) (n : Bnode)
      → node_at ar child ≡ some n
      → unset_parent scope builder_ctl ar child parent slot vis ≡ some vis'
      → (should_be_tracked scope builder_ctl ar n ≡ some true → find vis'.nparent child ≡ none)
        × ((j : ℕ) → FreedOrSame vis.nparent vis'.nparent j)
        × ((j : ℕ) → j ≢ child → find vis'.nparent j ≡ find vis.nparent j)
  unfolding unset_parent
  unset_parent_lem ar child parent slot vis vis' n at e =
      let (tracked, f, e₁) =
        >>=-eq-some (should_be_tracked scope builder_ctl ar n) _ (rw at at e) in
      elim (Bool-cases tracked) [
        | inr b ↦
            let same : vis ≡ vis' = of_some (rw b at e₁) in
            (
              λ t. absurd (ground (arith, f, b, t)),
              λ j. inr (ap (λ (v : IntegrityVisitor). find v.nparent j) (sym same)),
              λ j h. ap (λ (v : IntegrityVisitor). find v.nparent j) (sym same),
            )
        | inl b ↦
            let (pps, _, e₂) = >>=-eq-some (find vis.nparent child) _ (rw b at e₁) in
            let (_, _, e₃) = >>=-eq-some (assert (same_slot pps (parent, slot))) _ e₂ in
            let erased : erase vis.nparent child ≡ vis'.nparent =
              ap (λ (v : IntegrityVisitor). v.nparent) (of_some e₃) in
            let found : (j : ℕ)
                → find vis'.nparent j ≡ (if j == child then none else find vis.nparent j) =
              λ j. ap (λ m. find m j) (sym erased) ∙ find_erased vis.nparent child j in
            (
              λ t. let k = found child in ground (arith, k),
              λ j. let k = found j in ground (arith, k),
              λ j h. let k = found j in ground (arith, k, h),
            )
      ]

  IsOrphan-later :
      (ar : Arena) (vis vis' : IntegrityVisitor) (k : ℕ)
      → FreedOrSame vis.nparent vis'.nparent k
      → IsOrphan ar vis k
      → IsOrphan ar vis' k
  IsOrphan-later ar vis vis' k (inl free) (n, at, expr, h) = (n, at, expr, λ t. free)
  IsOrphan-later ar vis vis' k (inr same) (n, at, expr, h) = (n, at, expr, λ t. same ∙ h t)

  unset_children_lem :
      (ar : Arena) (expr idx : ℕ) (ks : List ℕ) (vis vis' : IntegrityVisitor)
      → unset_children scope ar expr idx ks vis ≡ some vis'
      → All (IsOrphan ar vis') ks
        × ((j : ℕ) → FreedOrSame vis.nparent vis'.nparent j)
        × ((j : ℕ) → All (λ k. j ≢ k) ks → find vis'.nparent j ≡ find vis.nparent j)
  unfolding unset_children
  unset_children_lem ar expr idx [] vis vis' e =
      let same = ap (λ (v : IntegrityVisitor). v.nparent) (of_some e) in
      (tt, λ j. inr (ap (λ m. find m j) (sym same)), λ j h. ap (λ m. find m j) (sym same))
  unset_children_lem ar expr idx (k ∷ ks) vis vis' e =
      let (vis₁, first, e₁) = >>=-eq-some (unset_parent scope builder_ctl ar k expr idx vis) _ e in
      let (n, at, e₂) = >>=-eq-some (node_at ar k) _ e₁ in
      let (_, is_expr, rest) = >>=-eq-some (assert (not (is_stmt n))) _ e₂ in
      let plain : is_stmt n ≡ false =
        let t = assert-true (not (is_stmt n)) is_expr in ground arith in
      let (free, either, others) = unset_parent_lem ar k expr idx vis vis₁ n at first in
      let (orphans, either', others') = unset_children_lem ar expr (idx + 1) ks vis₁ vis' rest in
      (
        (IsOrphan-later ar vis₁ vis' k (either' k) (n, at, plain, free), orphans),
        λ j. FreedOrSame-trans (either j) (either' j),
        λ j h. others' j h.1 ∙ others j h.0,
      )
    where
      FreedOrSame-trans :
          {a b c : Option Parslot}
          → (b ≡ none) ⊎ (b ≡ a)
          → (c ≡ none) ⊎ (c ≡ b)
          → (c ≡ none) ⊎ (c ≡ a)
      FreedOrSame-trans first (inl z) = inl z
      FreedOrSame-trans (inl z) (inr same) = inl (same ∙ z)
      FreedOrSame-trans (inr z) (inr same) = inr (same ∙ z)

  -- What is left once the children of `expr` have been handed out.
  pub record IsFreed (expr : ℕ) (b : BnodeBuilder) (orphans : List ℕ) (b' : BnodeBuilder)
      : Type 0 where
    pub node : Bnode
    pub found : node_at b.arena expr ≡ some node
    pub handed_out : orphans ≡ node.kids
    pub valueless : (node.value ≡ none) × (node.instructions ≡ [])
    pub archive : Forgets node.id b.arena.earchive b'.arena.earchive
    pub orphaned : All (IsOrphan b.arena b'.integrity) node.kids
    pub others :
        (j : ℕ)
        → All (λ k. j ≢ k) node.kids
        → find b'.integrity.nparent j ≡ find b.integrity.nparent j
    pub nodes : b'.arena.nodes ≡ b.arena.nodes
    pub built : IsBuilt b'

  free_expr_lem :
      (expr : ℕ) (b b' : BnodeBuilder) (n : Bnode)
      → node_at b.arena expr ≡ some n
      → free_expr expr b ≡ some b'
      → Forgets n.id b.arena.earchive b'.arena.earchive
        × (b'.arena.nodes ≡ b.arena.nodes)
        × (b'.integrity ≡ b.integrity)
  unfolding free_expr
  free_expr_lem expr b b' n at e =
      let (old, _, done) = >>=-eq-some (get_elem? b.arena.earchive n.id) _ (rw at at e) in
      subst
        (λ (r : BnodeBuilder).
          Forgets n.id b.arena.earchive r.arena.earchive
          × (r.arena.nodes ≡ b.arena.nodes)
          × (r.integrity ≡ b.integrity))
        (of_some done) (forgotten b.arena.earchive n.id, refl, refl)

  -- Extracting the children of an expression succeeds only where it has neither value nor
  -- instructions. It hands out exactly its children, which are expressions, and takes away the parent
  -- of each that the integrity visitor tracks and of no other node, so that they can get a new one;
  -- the archive forgets the expression, and is shorter if that was its last entry, and no other
  -- entry changes; the archives stay in order.
  pub extract_children-IsFreed :
      (expr : ℕ) (b : BnodeBuilder) (orphans : List ℕ) (b' : BnodeBuilder)
      → IsBuilt b
      → extract_children_and_destroy scope expr b ≡ some (orphans, b')
      → IsFreed expr b orphans b'
  unfolding extract_children_and_destroy
  extract_children-IsFreed expr b orphans b' built e =
      let (n, at, e₁) = >>=-eq-some (node_at b.arena expr) _ e in
      let (_, bare, e₂) = >>=-eq-some (assert (not (has_value n.value))) _ e₁ in
      let (_, idle, e₃) = >>=-eq-some (assert (is_empty n.instructions)) _ e₂ in
      let (vis, unset, e₄) =
        >>=-eq-some (unset_children scope b.arena expr 0 n.kids b.integrity) _ e₃ in
      let b₁ : BnodeBuilder = record b { integrity = vis } in
      let (b₂, freed, e₅) = >>=-eq-some (free_expr expr b₁) _ e₄ in
      let (archive, nodes, seen) = free_expr_lem expr b₁ b₂ n at freed in
      let (orphaned, _, others) = unset_children_lem b.arena expr 0 n.kids b.integrity vis unset in
      subst (λ (r : List ℕ × BnodeBuilder). IsFreed expr b r.0 r.1) (of_some e₅)
        (record {
          node = n;
          found = at;
          handed_out = refl;
          valueless = (
            no_value n.value (assert-true _ bare),
            no_instructions n.instructions (assert-true _ idle),
          );
          archive = archive;
          orphaned = subst (λ v. All (IsOrphan b.arena v) n.kids) (sym seen) orphaned;
          others = λ j h. ap (λ (v : IntegrityVisitor). find v.nparent j) seen ∙ others j h;
          nodes = nodes;
          built =
              free_expr-IsBuilt scope expr b₁ b₂
                (record { shaped = built.shaped; exprs = built.exprs; stmts = built.stmts }) freed;
        })
