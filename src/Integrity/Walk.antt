-- ===== src/Integrity/Walk.antt =====
-- How deep the walk of llvm-gofrontend/go-llvm-tree-integrity.cpp goes.
use dragongo.Common.{
  ℕ, zero, suc, ◌+◌, ◌<◌, ◌≡◌, ◌≢◌, inl, inr, refl, ◌++◌, Bool, false, Option, none, some, List, [],
  ◌∷◌, arith, if◌then◌else◌, Option-cases, All, get_elem?,
}
use dragongo.Bnode.{Arena, Bnode, n_conversion, is_stmt, node_at}
use dragongo.Integrity.{
  IntegrityVisitor, TreeIntegCtl, ValueExprmap, should_be_tracked, var_expr_or_conv_var, visit,
}
use dragongo.Integrity.Uses.{Use, node_use, own_uses, kid_uses, uses, visit-replay, replay}

-- A node exists, and a conversion has an expression below it.
abbrev pub IsNode : Arena → ℕ → Type 0
IsNode ar a =
    (n : Bnode) × (node_at ar a ≡ some n)
    × (n.flavor ≡ n_conversion
        → (k : ℕ) × (c : Bnode) × (get_elem? n.kids 0 ≡ some k)
          × (node_at ar k ≡ some c)
          × (is_stmt c ≡ false))

-- The children of every node exist and have a smaller rank, so no node is below itself.
abbrev pub IsRanked : Arena → (ℕ → ℕ) → Type 0
IsRanked ar rank =
    (a : ℕ) (n : Bnode)
    → node_at ar a ≡ some n
    → All (λ (k : ℕ). (rank k < rank a) × IsNode ar k) n.kids

undefined_conversion :
    (ar : Arena) (n : Bnode) → var_expr_or_conv_var ar n ≡ none → n.flavor ≡ n_conversion
unfolding var_expr_or_conv_var
undefined_conversion ar n e = ground arith

var_expr-some : (ar : Arena) (a : ℕ) (node : IsNode ar a) → var_expr_or_conv_var ar node.0 ≢ none
unfolding var_expr_or_conv_var
var_expr-some ar a (n, at, conv) e =
    let flav = undefined_conversion ar n e in
    let (k, c, kid, at_kid, expr) = conv flav in ground (arith, flav, kid, at_kid, expr)

module _ (scope : ValueExprmap) (ctl : TreeIntegCtl) where
  tracked-some :
      (ar : Arena) (a : ℕ) (node : IsNode ar a)
      → (b : Bool) × (should_be_tracked scope ctl ar node.0 ≡ some b)
  unfolding should_be_tracked
  tracked-some ar a (n, at, conv) = elim (Option-cases (should_be_tracked scope ctl ar n)) [
    | inl e ↦ absurd (ground (arith, var_expr-some ar a (n, at, conv)))
    | inr found ↦ found
  ]

  kid_uses-some :
      (f : ℕ → Option (List Use)) (ar : Arena) (parent idx bound : ℕ) (rank : ℕ → ℕ) (ks : List ℕ)
      → All (λ (k : ℕ). (rank k < bound) × IsNode ar k) ks
      → ((k : ℕ) → rank k < bound → IsNode ar k → (us : List Use) × (f k ≡ some us))
      → (us : List Use) × (kid_uses scope ctl f ar parent idx ks ≡ some us)
  unfolding kid_uses
  kid_uses-some f ar parent idx bound rank [] ok each = ([], refl)
  kid_uses-some f ar parent idx bound rank (k ∷ ks) ((small, node), ok) each =
      let (below, e₁) = each k small node in
      let (tracked, e₂) = tracked-some ar k node in
      let (rest, e₃) = kid_uses-some f ar parent (idx + 1) bound rank ks ok each in
      (
        below ++ ((if tracked then node_use (is_stmt node.0) k (parent, idx) ∷ [] else []) ++ rest),
        rw (e₁, node.1, e₂, e₃) refl,
      )

  uses-some :
      (fuel : ℕ) (ar : Arena) (rank : ℕ → ℕ) (root : ℕ)
      → IsRanked ar rank
      → IsNode ar root
      → rank root < fuel
      → (us : List Use) × (uses scope ctl fuel ar root ≡ some us)
  unfolding uses
  uses-some zero ar rank root ranked node small = absurd (omega arith)
  uses-some (suc fuel) ar rank root ranked (n, at, conv) small =
      let (below, e) =
        kid_uses-some (uses scope ctl fuel ar) ar root 0 (rank root) rank n.kids (ranked root n at)
          (λ k lt node. uses-some fuel ar rank k ranked node (omega arith)) in
      (below ++ own_uses n root, rw (at, e) refl)

  -- The walk ends: on an arena whose children have smaller ranks, fuel above the rank of the root
  -- is enough, whatever the visitor knows.
  pub visit-some :
      (fuel : ℕ) (ar : Arena) (rank : ℕ → ℕ) (root : ℕ) (vis : IntegrityVisitor)
      → IsRanked ar rank
      → IsNode ar root
      → rank root < fuel
      → (vis' : IntegrityVisitor) × (visit scope ctl fuel ar root vis ≡ some vis')
  visit-some fuel ar rank root vis ranked node small =
      let (us, e) = uses-some fuel ar rank root ranked node small in
      (replay scope ctl us vis, visit-replay scope ctl fuel ar root vis us e)
