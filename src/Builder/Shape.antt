-- ===== src/Builder/Shape.antt =====
-- What holds of every node that `BnodeBuilder` of llvm-gofrontend/go-llvm-bnode.cpp has made.
use dragongo.Common.{
  ℕ, zero, suc, ◌≡◌, ◌⊎◌, inl, inr, refl, sym, ap, ◌∙◌, subst, ◌++◌, Bool, true, not, Option, some,
  List, [], ◌∷◌, arith, >>=-eq-some, of_some, assert, assert-true, length, get_elem?,
  get_elem?-append_left, get_elem?-append_length, get_elem?-lt, All, All-append, Option-cases,
  Bool-cases,
}
use dragongo.Bnode.{NodeFlavor, Value, instruction, constant, Bnode, Arena, node_at}
use dragongo.Integrity.{ValueExprmap}
use dragongo.Builder.{
  BnodeBuilder, has_children, new_expr, append_instruction, append_instructions,
  append_inst_if_needed, is_value_of_kid, check_tree_integ, archive_expr, archive_stmt,
}
use dragongo.Builder.Make.{with_context}

-- A node has as many children as its flavour says.
abbrev pub IsShaped : Bnode → Type 0
IsShaped n = has_children n.flavor (length n.kids) ≡ true

-- Every archived expression stands at its address, with its index as identifier, and every archived
-- statement too.
pub record IsBuilt (b : BnodeBuilder) : Type 0 where
  pub shaped : All IsShaped b.arena.nodes
  pub exprs :
      (i addr : ℕ)
      → get_elem? b.arena.earchive i ≡ some (some addr)
      → (n : Bnode) × (node_at b.arena addr ≡ some n) × (n.id ≡ i)
  pub stmts :
      (i addr : ℕ)
      → get_elem? b.sarchive i ≡ some addr
      → (n : Bnode) × (node_at b.arena addr ≡ some n) × (n.id ≡ i)

-- An element of a list with one more at the end.
snoc_cases {ℓ} :
    {A : Type ℓ} (xs : List A) (x y : A) (i : ℕ)
    → get_elem? (xs ++ (x ∷ [])) i ≡ some y
    → (get_elem? xs i ≡ some y) ⊎ ((i ≡ length xs) × (x ≡ y))
snoc_cases [] x y zero e = inr (refl, of_some e)
snoc_cases [] x y (suc i) e = absurd (ground arith)
snoc_cases (z ∷ xs) x y zero e = inl e
snoc_cases (z ∷ xs) x y (suc i) e = elim (snoc_cases xs x y i e) [
  | inl h ↦ inl h
  | inr (at, same) ↦ inr (ap suc at, same)
]

pub found_before :
    (nodes : List Bnode) (m : Bnode) (addr i : ℕ)
    → (n : Bnode) × (get_elem? nodes addr ≡ some n) × (n.id ≡ i)
    → (n : Bnode) × (get_elem? (nodes ++ (m ∷ [])) addr ≡ some n) × (n.id ≡ i)
found_before nodes m addr i (n, at, id) =
    (n, get_elem?-append_left nodes (m ∷ []) addr (get_elem?-lt nodes addr at) ∙ at, id)

found_at_end :
    (nodes : List Bnode) (m : Bnode) (addr i : ℕ)
    → addr ≡ length nodes
    → m.id ≡ i
    → (n : Bnode) × (get_elem? (nodes ++ (m ∷ [])) addr ≡ some n) × (n.id ≡ i)
found_at_end nodes m addr i at id =
    (m, ap (get_elem? (nodes ++ (m ∷ []))) at ∙ get_elem?-append_length nodes [] m, id)

-- An expression is added at the end of the arena and of the archive.
pub appended-IsBuilt :
    (n : Bnode) (b : BnodeBuilder) (insts : ℕ)
    → IsBuilt b
    → IsShaped n
    → n.id ≡ length b.arena.earchive
    → IsBuilt (record b {
      arena = record {
        nodes = b.arena.nodes ++ (n ∷ []);
        earchive = b.arena.earchive ++ (some (length b.arena.nodes) ∷ []);
        insts = insts;
      };
    })
appended-IsBuilt n b insts built shape named = record {
  shaped = All-append IsShaped b.arena.nodes _ built.shaped (shape, tt);
  exprs = λ i addr h. elim (snoc_cases b.arena.earchive _ _ i h) [
    | inl old ↦ found_before b.arena.nodes _ addr i (built.exprs i addr old)
    | inr (at, same) ↦ found_at_end b.arena.nodes _ addr i (sym (of_some same)) (named ∙ sym at)
  ];
  stmts = λ i addr h. found_before b.arena.nodes _ addr i (built.stmts i addr h);
}

module _ (scope : ValueExprmap) where
  pub archive_expr-IsBuilt :
      (n : Bnode) (b : BnodeBuilder) (a : ℕ) (b' : BnodeBuilder)
      → IsBuilt b
      → IsShaped n
      → archive_expr scope n b ≡ some (a, b')
      → IsBuilt b'
  unfolding archive_expr
  archive_expr-IsBuilt n b a b' built shape e =
      let (vis, _, done) =
        >>=-eq-some (check_tree_integ scope _ (length b.arena.nodes) 0 n.kids b.integrity) _ e in
      let named : Bnode = record n { id = length b.arena.earchive } in
      let all = appended-IsBuilt named b b.arena.insts built shape refl in
      subst (λ (r : ℕ × BnodeBuilder). IsBuilt r.1) (of_some done)
        (record { shaped = all.shaped; exprs = all.exprs; stmts = all.stmts })

  pub archive_stmt-IsBuilt :
      (n : Bnode) (b : BnodeBuilder) (a : ℕ) (b' : BnodeBuilder)
      → IsBuilt b
      → IsShaped n
      → archive_stmt scope n b ≡ some (a, b')
      → IsBuilt b'
  unfolding archive_stmt
  archive_stmt-IsBuilt n b a b' built shape e =
      let (vis, _, done) =
        >>=-eq-some (check_tree_integ scope _ (length b.arena.nodes) 0 n.kids b.integrity) _ e in
      subst (λ (r : ℕ × BnodeBuilder). IsBuilt r.1) (of_some done)
        (record {
          shaped = All-append IsShaped b.arena.nodes _ built.shaped (shape, tt);
          exprs = λ i addr h. found_before b.arena.nodes _ addr i (built.exprs i addr h);
          stmts = λ i addr h. elim (snoc_cases b.sarchive _ _ i h) [
            | inl old ↦ found_before b.arena.nodes _ addr i (built.stmts i addr old)
            | inr (at, same) ↦ found_at_end b.arena.nodes _ addr i (sym same) (sym at)
          ];
        })

  -- The new statement, as it is archived.
  pub archive_stmt_lem :
      (n : Bnode) (b : BnodeBuilder) (a : ℕ) (b' : BnodeBuilder)
      → archive_stmt scope n b ≡ some (a, b')
      → node_at b'.arena a ≡ some (record n { id = length b.sarchive })
  unfolding archive_stmt
  archive_stmt_lem n b a b' e =
      let (vis, _, done) =
        >>=-eq-some (check_tree_integ scope _ (length b.arena.nodes) 0 n.kids b.integrity) _ e in
      subst
        (λ (r : ℕ × BnodeBuilder).
          node_at r.1.arena r.0 ≡ some (record n { id = length b.sarchive }))
        (of_some done) (get_elem?-append_length b.arena.nodes [] _)

-- The same flavour and children.
abbrev pub SameShape : Bnode → Bnode → Type 0
SameShape n n' = (n'.flavor ≡ n.flavor) × (n'.kids ≡ n.kids)

pub SameShape-IsShaped : (n n' : Bnode) → SameShape n n' → IsShaped n → IsShaped n'
SameShape-IsShaped n n' (f, k) h =
    ap (λ fl. has_children fl (length n'.kids)) f
    ∙ ap (λ ks. has_children n.flavor (length ks)) k
    ∙ h

pub new_expr_lem :
    (flavor : NodeFlavor) (kids : List ℕ) (val : Option Value) (typ loc : ℕ) (n : Bnode)
    → new_expr flavor kids val typ loc ≡ some n
    → IsShaped n × (n.kids ≡ kids)
unfolding new_expr
new_expr_lem flavor kids val typ loc n e =
    let (_, ok, done) = >>=-eq-some (assert (has_children flavor (length kids))) _ e in
    subst (λ (k : Bnode). IsShaped k × (k.kids ≡ kids)) (of_some done) (assert-true _ ok, refl)

pub with_context-SameShape : (src n : Bnode) → SameShape n (with_context src n)
unfolding with_context
with_context-SameShape src n = elim (Option-cases src.var_context) [
  | inl e ↦ rw e (refl, refl)
  | inr (vc, e) ↦ rw e (refl, refl)
]

module _ (is_alloca : ℕ → Bool) where
  pub append_instruction-SameShape :
      (i : ℕ) (n n' : Bnode) → append_instruction is_alloca i n ≡ some n' → SameShape n n'
  unfolding append_instruction
  append_instruction-SameShape i n n' e =
      let (_, _, done) = >>=-eq-some (assert (not (is_alloca i))) _ e in
      subst (SameShape n) (of_some done) (refl, refl)

  pub append_instructions-SameShape :
      (is : List ℕ) (n n' : Bnode) → append_instructions is_alloca is n ≡ some n' → SameShape n n'
  unfolding append_instructions
  append_instructions-SameShape [] n n' e = subst (SameShape n) (of_some e) (refl, refl)
  append_instructions-SameShape (i ∷ is) n n' e =
      let (n₁, first, more) = >>=-eq-some (append_instruction is_alloca i n) _ e in
      let (f, k) = append_instruction-SameShape i n n₁ first in
      let (f', k') = append_instructions-SameShape is n₁ n' more in (f' ∙ f, k' ∙ k)

  pub append_inst_if_needed-SameShape :
      (ar : Arena) (v : Value) (n n' : Bnode)
      → append_inst_if_needed is_alloca ar v n ≡ some n'
      → SameShape n n'
  unfolding append_inst_if_needed
  append_inst_if_needed-SameShape ar (constant c) n n' e =
      subst (SameShape n) (of_some e) (refl, refl)
  append_inst_if_needed-SameShape ar (instruction i) n n' e =
      let (found, _, more) = >>=-eq-some (is_value_of_kid is_alloca ar i n.kids) _ e in
      elim (Bool-cases found) [
        | inl b ↦ subst (SameShape n) (of_some (rw b at more)) (refl, refl)
        | inr b ↦ append_instruction-SameShape i n n' (rw b at more)
      ]
