-- ===== src/Builder/Stmts.antt =====
-- The archives under the functions of `BnodeBuilder` in llvm-gofrontend/go-llvm-bnode.cpp that make
-- statements.
use dragongo.Common.{
  ℕ, suc, ◌≡◌, inl, inr, refl, sym, ap, ◌∙◌, subst, ◌++◌, Bool, true, Option, none, some, List, [],
  ◌∷◌, >>=-eq-some, assert, assert-true, zero, of_some, arith, Option-cases, All, All-append,
  length, get_elem?,
}
use dragongo.Bnode.{
  NodeFlavor, n_error, n_label_stmt, n_goto_stmt, n_expr_stmt, n_return_stmt, n_defer_stmt,
  n_if_stmt, n_excep_stmt, n_block_stmt, n_switch_stmt, Bnode, node_at, set_elem, num_children,
}
use dragongo.Integrity.{ValueExprmap}
use dragongo.Builder.{BnodeBuilder, has_children, new_expr, new_stmt}
use dragongo.Builder.Make.{
  is_block, switch_descriptor, switch_kids, new_block, add_statement_to_block, mk_expr_stmt,
  mk_return, mk_label_def_stmt, mk_goto_stmt, mk_defer_stmt, mk_excep_stmt, mk_switch_stmt,
  mk_block, mk_error_stmt, mk_if_stmt,
}
use dragongo.Builder.Shape.{IsShaped, IsBuilt, new_expr_lem, archive_stmt-IsBuilt, found_before}
use dragongo.Builder.Exprs.{Keeps}

-- A node that stands in no archive.
unarchived-IsBuilt :
    (n : Bnode) (b : BnodeBuilder) (error_statement : Option ℕ)
    → IsBuilt b
    → IsShaped n
    → IsBuilt (record b {
      arena = record b.arena { nodes = b.arena.nodes ++ (n ∷ []) };
      error_statement = error_statement;
    })
unarchived-IsBuilt n b error_statement built shape = record {
  shaped = All-append IsShaped b.arena.nodes (n ∷ []) built.shaped (shape, tt);
  exprs = λ i addr h. found_before b.arena.nodes n addr i (built.exprs i addr h);
  stmts = λ i addr h. found_before b.arena.nodes n addr i (built.stmts i addr h);
}

module _ (is_alloca : ℕ → Bool) (scope : ValueExprmap) where
  pub mk_expr_stmt-IsBuilt :
      (expr : ℕ) (loc : ℕ) (b : BnodeBuilder)
      → IsBuilt b
      → Keeps (mk_expr_stmt is_alloca scope expr loc b)
  unfolding mk_expr_stmt new_stmt
  mk_expr_stmt-IsBuilt expr loc b built a' b' e =
      let (n, e₀, r₀) = >>=-eq-some (new_expr n_expr_stmt (expr ∷ []) none 0 loc) _ e in
      let s₀ = (new_expr_lem n_expr_stmt (expr ∷ []) none 0 loc n e₀).0 in
      archive_stmt-IsBuilt scope _ b a' b' built s₀ r₀

  pub mk_return-IsBuilt :
      (return_val : ℕ) (loc : ℕ) (b : BnodeBuilder)
      → IsBuilt b
      → Keeps (mk_return is_alloca scope return_val loc b)
  unfolding mk_return new_stmt
  mk_return-IsBuilt return_val loc b built a' b' e =
      let (n, e₀, r₀) = >>=-eq-some (new_expr n_return_stmt (return_val ∷ []) none 0 loc) _ e in
      let s₀ = (new_expr_lem n_return_stmt (return_val ∷ []) none 0 loc n e₀).0 in
      archive_stmt-IsBuilt scope _ b a' b' built s₀ r₀

  pub mk_label_def_stmt-IsBuilt :
      (label : ℕ) (loc : ℕ) (b : BnodeBuilder)
      → IsBuilt b
      → Keeps (mk_label_def_stmt is_alloca scope label loc b)
  unfolding mk_label_def_stmt new_stmt
  mk_label_def_stmt-IsBuilt label loc b built a' b' e =
      let (n, e₀, r₀) = >>=-eq-some (new_expr n_label_stmt [] none 0 loc) _ e in
      let s₀ = (new_expr_lem n_label_stmt [] none 0 loc n e₀).0 in
      archive_stmt-IsBuilt scope _ b a' b' built s₀ r₀

  pub mk_goto_stmt-IsBuilt :
      (label : ℕ) (loc : ℕ) (b : BnodeBuilder)
      → IsBuilt b
      → Keeps (mk_goto_stmt is_alloca scope label loc b)
  unfolding mk_goto_stmt new_stmt
  mk_goto_stmt-IsBuilt label loc b built a' b' e =
      let (n, e₀, r₀) = >>=-eq-some (new_expr n_goto_stmt [] none 0 loc) _ e in
      let s₀ = (new_expr_lem n_goto_stmt [] none 0 loc n e₀).0 in
      archive_stmt-IsBuilt scope _ b a' b' built s₀ r₀

  pub mk_defer_stmt-IsBuilt :
      (undefer : ℕ) (defer : ℕ) (loc : ℕ) (b : BnodeBuilder)
      → IsBuilt b
      → Keeps (mk_defer_stmt is_alloca scope undefer defer loc b)
  unfolding mk_defer_stmt new_stmt
  mk_defer_stmt-IsBuilt undefer defer loc b built a' b' e =
      let (n, e₀, r₀) = >>=-eq-some (new_expr n_defer_stmt (undefer ∷ defer ∷ []) none 0 loc) _ e in
      let s₀ = (new_expr_lem n_defer_stmt (undefer ∷ defer ∷ []) none 0 loc n e₀).0 in
      archive_stmt-IsBuilt scope _ b a' b' built s₀ r₀

  pub mk_excep_stmt-IsBuilt :
      (body : ℕ) (onexception : ℕ) (finally : ℕ) (loc : ℕ) (b : BnodeBuilder)
      → IsBuilt b
      → Keeps (mk_excep_stmt is_alloca scope body onexception finally loc b)
  unfolding mk_excep_stmt new_stmt
  mk_excep_stmt-IsBuilt body onexception finally loc b built a' b' e =
      let (n, e₀, r₀) =
        >>=-eq-some (new_expr n_excep_stmt (body ∷ onexception ∷ finally ∷ []) none 0 loc) _ e in
      let s₀ = (new_expr_lem n_excep_stmt (body ∷ onexception ∷ finally ∷ []) none 0 loc n e₀).0 in
      archive_stmt-IsBuilt scope _ b a' b' built s₀ r₀

  pub mk_switch_stmt-IsBuilt :
      (swvalue : ℕ) (vals : List (List ℕ)) (stmts : List ℕ) (loc : ℕ) (b : BnodeBuilder)
      → IsBuilt b
      → Keeps (mk_switch_stmt is_alloca scope swvalue vals stmts loc b)
  unfolding mk_switch_stmt new_stmt
  mk_switch_stmt-IsBuilt swvalue vals stmts loc b built a' b' e =
      let (n, e₀, r₀) =
        >>=-eq-some (new_expr n_switch_stmt (switch_kids swvalue vals stmts) none 0 loc) _ e in
      let s₀ = (new_expr_lem n_switch_stmt (switch_kids swvalue vals stmts) none 0 loc n e₀).0 in
      archive_stmt-IsBuilt scope _
        (record b { swcases = b.swcases ++ (switch_descriptor vals ∷ []) }) a' b'
        (record { shaped = built.shaped; exprs = built.exprs; stmts = built.stmts }) s₀ r₀

  pub mk_block-IsBuilt :
      (loc : ℕ) (b : BnodeBuilder) → IsBuilt b → Keeps (mk_block is_alloca scope loc b)
  unfolding mk_block new_stmt
  mk_block-IsBuilt loc b built a' b' e =
      let (n, e₀, r₀) = >>=-eq-some (new_expr n_block_stmt [] none 0 loc) _ e in
      let s₀ = (new_expr_lem n_block_stmt [] none 0 loc n e₀).0 in
      archive_stmt-IsBuilt scope _ b a' b' built s₀ r₀

  pub mk_error_stmt-IsBuilt :
      (b : BnodeBuilder) → IsBuilt b → Keeps (mk_error_stmt is_alloca scope b)
  unfolding mk_error_stmt new_stmt
  mk_error_stmt-IsBuilt b built a' b' e = elim (Option-cases b.error_statement) [
    | inr (st, there) ↦ absurd (ground arith)
    | inl free ↦
        let (n, e₀, done) = >>=-eq-some (new_expr n_error [] none 0 0) _ (rw free at e) in
        subst (λ (r : ℕ × BnodeBuilder). IsBuilt r.1) (of_some done)
          (unarchived-IsBuilt n b (some (length b.arena.nodes)) built
            (new_expr_lem n_error [] none 0 0 n e₀).0)
  ]

  new_block-IsBuilt :
      (loc : ℕ) (b : BnodeBuilder) → IsBuilt b → Keeps (new_block is_alloca scope loc b)
  unfolding new_block new_stmt
  new_block-IsBuilt loc b built a' b' e =
      let (n, e₀, done) = >>=-eq-some (new_expr n_block_stmt [] none 0 loc) _ e in
      subst (λ (r : ℕ × BnodeBuilder). IsBuilt r.1) (of_some done)
        (unarchived-IsBuilt n b b.error_statement built
          (new_expr_lem n_block_stmt [] none 0 loc n e₀).0)

  pub mk_if_stmt-IsBuilt :
      (cond true_block : ℕ) (false_block : Option ℕ) (loc : ℕ) (b : BnodeBuilder)
      → IsBuilt b
      → Keeps (mk_if_stmt is_alloca scope cond true_block false_block loc b)
  unfolding mk_if_stmt new_stmt
  mk_if_stmt-IsBuilt cond true_block (some fb) loc b built a' b' e =
      let (n, e₀, r₀) =
        >>=-eq-some (new_expr n_if_stmt (cond ∷ true_block ∷ fb ∷ []) none 0 loc) _ e in
      let s₀ = (new_expr_lem n_if_stmt (cond ∷ true_block ∷ fb ∷ []) none 0 loc n e₀).0 in
      archive_stmt-IsBuilt scope n b a' b' built s₀ r₀
  mk_if_stmt-IsBuilt cond true_block none loc b built a' b' e =
      let ((fb, b₁), made, r) = >>=-eq-some (new_block is_alloca scope loc b) _ e in
      let (n, e₀, r₀) =
        >>=-eq-some (new_expr n_if_stmt (cond ∷ true_block ∷ fb ∷ []) none 0 loc) _ r in
      let s₀ = (new_expr_lem n_if_stmt (cond ∷ true_block ∷ fb ∷ []) none 0 loc n e₀).0 in
      archive_stmt-IsBuilt scope n b₁ a' b' (new_block-IsBuilt loc b built fb b₁ made) s₀ r₀

set_elem-All :
    {A : Type 0} (P : A → Type 0) (xs : List A) (i : ℕ) (y : A)
    → All P xs
    → P y
    → All P (set_elem xs i y)
unfolding set_elem
set_elem-All P [] i y h py = tt
set_elem-All P (x ∷ xs) zero y h py = (py, h.1)
set_elem-All P (x ∷ xs) (suc i) y h py = (h.0, set_elem-All P xs i y h.1 py)

-- Where a node is found, one with the same identifier is found after the block has changed.
found_set :
    (nodes : List Bnode) (block : ℕ) (n m : Bnode) (addr i : ℕ)
    → get_elem? nodes block ≡ some n
    → m.id ≡ n.id
    → (k : Bnode) × (get_elem? nodes addr ≡ some k) × (k.id ≡ i)
    → (k : Bnode) × (get_elem? (set_elem nodes block m) addr ≡ some k) × (k.id ≡ i)
unfolding set_elem
found_set [] block n m addr i at same (k, here, id) = absurd (ground arith)
found_set (x ∷ nodes) zero n m zero i at same (k, here, id) =
    (m, refl, same ∙ ap (λ (b : Bnode). b.id) (of_some (sym at ∙ here)) ∙ id)
found_set (x ∷ nodes) zero n m (suc addr) i at same found = found
found_set (x ∷ nodes) (suc block) n m zero i at same found = found
found_set (x ∷ nodes) (suc block) n m (suc addr) i at same found =
    found_set nodes block n m addr i at same found

block-IsShaped :
    (flavor : NodeFlavor) (len : ℕ) → is_block flavor ≡ true → has_children flavor len ≡ true
unfolding has_children num_children
block-IsShaped flavor len h = ground arith

pub add_statement_to_block-IsBuilt :
    (block st : ℕ) (b b' : BnodeBuilder)
    → IsBuilt b
    → add_statement_to_block block st b ≡ some b'
    → IsBuilt b'
unfolding add_statement_to_block
add_statement_to_block-IsBuilt block st b b' built e =
    let (n, at, e₁) = >>=-eq-some (node_at b.arena block) _ e in
    let (_, is, e₂) = >>=-eq-some (assert (is_block n.flavor)) _ e₁ in
    let m : Bnode = record n { kids = n.kids ++ (st ∷ []) } in
    subst IsBuilt (of_some e₂) (record {
      shaped =
          set_elem-All IsShaped b.arena.nodes block m built.shaped
            (block-IsShaped n.flavor _ (assert-true (is_block n.flavor) is));
      exprs = λ i addr h. found_set b.arena.nodes block n m addr i at refl (built.exprs i addr h);
      stmts = λ i addr h. found_set b.arena.nodes block n m addr i at refl (built.stmts i addr h);
    })
