-- ===== src/Builder/Free.antt =====
-- How `BnodeBuilder` of llvm-gofrontend/go-llvm-bnode.cpp frees nodes.
use dragongo.Common.{
  ℕ, zero, suc, ◌+◌, ◌≡◌, refl, subst, Bool, true, false, not, Option, none, some, List, [], ◌∷◌,
  ◌>>=◌, ◌>>◌, >>=-eq-some, of_some, arith, assert, if◌then◌else◌, ◌==◌, length, get_elem?,
}
use dragongo.Bnode.{Value, Arena, node_at, is_stmt, set_elem}
use dragongo.Integrity.{ValueExprmap, IntegrityVisitor, unset_parent}
use dragongo.Builder.{BnodeBuilder, builder_ctl}
use dragongo.Builder.Shape.{IsBuilt}

-- `pop_back`
unfoldable pub drop_last {ℓ} : {A : Type ℓ} → List A → List A
drop_last [] = []
drop_last (x ∷ []) = []
drop_last (x ∷ y ∷ xs) = x ∷ drop_last (y ∷ xs)

-- `freeExpr`: the archive forgets the expression, and its last entry goes.
unfoldable pub free_expr : ℕ → BnodeBuilder → Option BnodeBuilder
free_expr expr b = do
  n ← node_at b.arena expr
  old ← get_elem? b.arena.earchive n.id
  let cleared = set_elem b.arena.earchive n.id none
  some (record b {
    arena = record b.arena {
      earchive = if n.id + 1 == length cleared then drop_last cleared else cleared;
    };
  })

-- `freeStmts`
unfoldable pub free_stmts : BnodeBuilder → BnodeBuilder
free_stmts b = record b { sarchive = []; swcases = [] }

abbrev pub has_value : Option Value → Bool
has_value none = false
has_value (some v) = true

abbrev pub is_empty : List ℕ → Bool
is_empty [] = true
is_empty (i ∷ is) = false

pub no_value : (v : Option Value) → not (has_value v) ≡ true → v ≡ none
no_value none h = refl
no_value (some v) h = absurd (ground arith)

pub no_instructions : (is : List ℕ) → is_empty is ≡ true → is ≡ []
no_instructions [] h = refl
no_instructions (i ∷ is) h = absurd (ground arith)

module _ (scope : ValueExprmap) where
  -- The loop over the children of `extractChildenAndDestroy`.
  unfoldable pub unset_children :
      Arena → (expr idx : ℕ) → List ℕ → IntegrityVisitor → Option IntegrityVisitor
  unset_children ar expr idx [] vis = some vis
  unset_children ar expr idx (k ∷ ks) vis = do
    vis₁ ← unset_parent scope builder_ctl ar k expr idx vis
    n ← node_at ar k
    assert (not (is_stmt n))
    unset_children ar expr (idx + 1) ks vis₁

  -- `extractChildenAndDestroy`
  unfoldable pub extract_children_and_destroy : ℕ → BnodeBuilder → Option (List ℕ × BnodeBuilder)
  extract_children_and_destroy expr b = do
    n ← node_at b.arena expr
    assert (not (has_value n.value))
    assert (is_empty n.instructions)
    vis ← unset_children b.arena expr 0 n.kids b.integrity
    b' ← free_expr expr (record b { integrity = vis })
    some (n.kids, b')

  drop_last_found :
      {A : Type 0} (xs : List A) (i : ℕ) {y : A}
      → get_elem? (drop_last xs) i ≡ some y
      → get_elem? xs i ≡ some y
  unfolding drop_last
  drop_last_found [] i e = absurd (ground arith)
  drop_last_found (x ∷ []) i e = absurd (ground arith)
  drop_last_found (x ∷ z ∷ xs) zero e = e
  drop_last_found (x ∷ z ∷ xs) (suc i) e = drop_last_found (z ∷ xs) i e

  cleared_found :
      (xs : List (Option ℕ)) (k i : ℕ) {addr : ℕ}
      → get_elem? (set_elem xs k none) i ≡ some (some addr)
      → get_elem? xs i ≡ some (some addr)
  unfolding set_elem
  cleared_found [] k i e = absurd (ground arith)
  cleared_found (x ∷ xs) zero zero e = absurd (ground arith)
  cleared_found (x ∷ xs) zero (suc i) e = e
  cleared_found (x ∷ xs) (suc k) zero e = e
  cleared_found (x ∷ xs) (suc k) (suc i) e = cleared_found xs k i e

  entry_before :
      (last : Bool) (xs : List (Option ℕ)) (k i : ℕ) {addr : ℕ}
      → get_elem? (if last then drop_last (set_elem xs k none) else set_elem xs k none) i
        ≡ some (some addr)
      → get_elem? xs i ≡ some (some addr)
  entry_before true xs k i e = cleared_found xs k i (drop_last_found (set_elem xs k none) i e)
  entry_before false xs k i e = cleared_found xs k i e

  pub free_expr-IsBuilt :
      (expr : ℕ) (b b' : BnodeBuilder) → IsBuilt b → free_expr expr b ≡ some b' → IsBuilt b'
  unfolding free_expr
  free_expr-IsBuilt expr b b' built e =
      let (n, _, e₁) = >>=-eq-some (node_at b.arena expr) _ e in
      let (old, _, e₂) = >>=-eq-some (get_elem? b.arena.earchive n.id) _ e₁ in
      subst IsBuilt (of_some e₂) (record {
        shaped = built.shaped;
        exprs = λ i addr h. built.exprs i addr (entry_before _ b.arena.earchive n.id i h);
        stmts = built.stmts;
      })

pub free_stmts-IsBuilt : (b : BnodeBuilder) → IsBuilt b → IsBuilt (free_stmts b)
unfolding free_stmts
free_stmts-IsBuilt b built = record {
  shaped = built.shaped;
  exprs = built.exprs;
  stmts = λ i addr h. absurd (ground arith);
}
