-- ===== src/Builder/Switch.antt =====
-- The case descriptors of `mkSwitchStmt` in llvm-gofrontend/go-llvm-bnode.cpp.
use dragongo.Common.{
  ℕ, ◌+◌, ◌≡◌, refl, sym, ap, ◌∙◌, subst, ◌++◌, append-nil, append_assoc, Bool, none, some, List,
  [], ◌∷◌, arith, >>=-eq-some, length, length-append, get_elem?, get_elem?-append_length, take,
  drop, drop-append, take-append,
}
use dragongo.Bnode.{Bnode, n_switch_stmt, SwitchCaseDesc, of_swcases, node_at}
use dragongo.Integrity.{ValueExprmap}
use dragongo.Builder.{BnodeBuilder, new_expr, new_stmt}
use dragongo.Builder.Shape.{new_expr_lem, archive_stmt_lem}
use dragongo.Builder.Make.{
  case_descs, first_stmt, flatten, switch_descriptor, switch_kids, mk_switch_stmt,
}

-- Each descriptor finds the values and the statement of its case among the children.
abbrev pub FindsCases : List ℕ → List SwitchCaseDesc → List (List ℕ) → List ℕ → Type 0
FindsCases kids [] [] [] = Unit {0}
FindsCases kids (d ∷ ds) (vvec ∷ vals) (st ∷ stmts) =
    (take d.len (drop d.st kids) ≡ vvec)
    × (get_elem? kids d.stmt ≡ some st)
    × FindsCases kids ds vals stmts
FindsCases kids _ _ _ = ⊥

slice_of :
    (kids pre vvec rest : List ℕ) (idx : ℕ)
    → kids ≡ pre ++ (vvec ++ rest)
    → idx ≡ length pre
    → take (length vvec) (drop idx kids) ≡ vvec
slice_of kids pre vvec rest idx e at = rw (e, at, drop-append) (take-append vvec rest)

elem_of :
    (kids pre rest : List ℕ) (st idx : ℕ)
    → kids ≡ pre ++ (st ∷ rest)
    → idx ≡ length pre
    → get_elem? kids idx ≡ some st
elem_of kids pre rest st idx e at = rw (e, at) (get_elem?-append_length pre rest st)

regroup :
    (pre vs spre rest : List ℕ) → pre ++ (vs ++ (spre ++ rest)) ≡ (pre ++ (vs ++ spre)) ++ rest
regroup pre vs spre rest =
    ap (λ l. pre ++ l) (sym (append_assoc vs spre rest)) ∙ sym (append_assoc pre (vs ++ spre) rest)

-- `pre` stands before the values of the remaining cases, `spre` before their statements.
case_descs-FindsCases :
    (kids pre : List ℕ) (vals : List (List ℕ)) (spre stmts : List ℕ) (idx stidx : ℕ)
    → length vals ≡ length stmts
    → kids ≡ pre ++ (flatten vals ++ (spre ++ stmts))
    → idx ≡ length pre
    → stidx ≡ length (pre ++ (flatten vals ++ spre))
    → FindsCases kids (case_descs vals idx stidx) vals stmts
unfolding case_descs flatten
case_descs-FindsCases kids pre [] spre [] idx stidx same e at sat = tt
case_descs-FindsCases kids pre [] spre (st ∷ stmts) idx stidx same e at sat = absurd (omega arith)
case_descs-FindsCases kids pre (vvec ∷ vals) spre [] idx stidx same e at sat = absurd (omega arith)
case_descs-FindsCases kids pre (vvec ∷ vals) spre (st ∷ stmts) idx stidx same e at sat = (
  slice_of kids pre vvec (flatten vals ++ (spre ++ (st ∷ stmts))) idx
      (e ∙ ap (λ l. pre ++ l) (append_assoc vvec (flatten vals) (spre ++ (st ∷ stmts)))) at,
  elem_of kids (pre ++ ((vvec ++ flatten vals) ++ spre)) stmts st stidx
      (e ∙ regroup pre (vvec ++ flatten vals) spre (st ∷ stmts)) sat,
  case_descs-FindsCases kids (pre ++ vvec) vals (spre ++ (st ∷ [])) stmts (idx + length vvec)
      (stidx + 1) (omega arith)
      (e
        ∙ ap (λ l. pre ++ l) (append_assoc vvec (flatten vals) (spre ++ (st ∷ stmts)))
        ∙ sym (append_assoc pre vvec (flatten vals ++ (spre ++ (st ∷ stmts))))
        ∙ ap (λ l. (pre ++ vvec) ++ (flatten vals ++ l)) (sym (append_assoc spre (st ∷ []) stmts)))
      (omega (arith, length-append pre vvec))
      (omega (
        arith,
        length-append pre ((vvec ++ flatten vals) ++ spre),
        length-append (vvec ++ flatten vals) spre,
        length-append vvec (flatten vals),
        length-append (pre ++ vvec) (flatten vals ++ (spre ++ (st ∷ []))),
        length-append pre vvec,
        length-append (flatten vals) (spre ++ (st ∷ [])),
        length-append spre (st ∷ []),
      )),
)

first_stmt_lem : (vals : List (List ℕ)) (n : ℕ) → first_stmt vals n ≡ n + length (flatten vals)
unfolding first_stmt flatten
first_stmt_lem [] n = omega arith
first_stmt_lem (vvec ∷ vals) n =
    omega (arith, first_stmt_lem vals (n + length vvec), length-append vvec (flatten vals))

-- A switch that is made with one statement for each case has its value as the first child, and each
-- case descriptor finds the values of its case from `st` on and its statement at `stmt`.
pub mk_switch_stmt-FindsCases :
    (is_alloca : ℕ → Bool) (scope : ValueExprmap) (swvalue : ℕ) (vals : List (List ℕ))
    (stmts : List ℕ) (loc : ℕ) (b : BnodeBuilder) {a : ℕ} {b' : BnodeBuilder}
    → length vals ≡ length stmts
    → mk_switch_stmt is_alloca scope swvalue vals stmts loc b ≡ some (a, b')
    → (n : Bnode) × (cases : List SwitchCaseDesc) × (node_at b'.arena a ≡ some n)
      × (n.payload ≡ of_swcases cases)
      × (get_elem? n.kids 0 ≡ some swvalue)
      × FindsCases n.kids cases vals stmts
unfolding mk_switch_stmt new_stmt switch_kids switch_descriptor
mk_switch_stmt-FindsCases is_alloca scope swvalue vals stmts loc b {a} {b'} same e =
    let (n, e₀, r₀) =
      >>=-eq-some (new_expr n_switch_stmt (switch_kids swvalue vals stmts) none 0 loc) _ e in
    let kids = (new_expr_lem n_switch_stmt (switch_kids swvalue vals stmts) none 0 loc n e₀).1 in
    let whole : Bnode = record n {
      payload = of_swcases (switch_descriptor vals);
      id = length b.sarchive;
    } in
    (
      whole,
      switch_descriptor vals,
      archive_stmt_lem scope _ _ a b' r₀,
      refl,
      ap (λ ks. get_elem? ks 0) kids,
      subst (λ ks. FindsCases ks (switch_descriptor vals) vals stmts) (sym kids)
          (case_descs-FindsCases (switch_kids swvalue vals stmts) (swvalue ∷ []) vals [] stmts 1
            (first_stmt vals 1) same refl refl
            (omega (arith, first_stmt_lem vals 1, ap length (append-nil (flatten vals))))),
    )
