-- ===== src/Builder/Exprs.antt =====
-- The archives under the functions of `BnodeBuilder` in llvm-gofrontend/go-llvm-bnode.cpp that make
-- expressions.
use dragongo.Common.{
  ℕ, ◌≡◌, inl, inr, refl, subst, Bool, ◌||◌, Option, none, some, List, [], ◌∷◌, >>=-eq-some,
  of_some, arith, Bool-cases,
}
use dragongo.Bnode.{
  n_error, n_const, n_var, n_fcn_address, n_conversion, n_deref, n_address, n_unary_op,
  n_struct_field, n_binary_op, n_compound, n_array_index, n_composite, n_call, Value, instruction,
  constant, of_op, of_field_index, Bnode, Arena, node_at,
}
use dragongo.Integrity.{ValueExprmap}
use dragongo.Builder.{BnodeBuilder, new_expr, append_instructions, append_inst_if_needed}
use dragongo.Builder.Make.{
  Made, with_context, append_call, contains, mk_error, mk_const, mk_void_value, mk_var,
  mk_binary_op, mk_binary_op_with, mk_unary_op, mk_conversion, mk_address, mk_fcn_address, mk_deref,
  mk_composite, mk_struct_field, mk_array_index, mk_compound, mk_call,
}
use dragongo.Builder.Shape.{
  IsBuilt, SameShape, SameShape-IsShaped, new_expr_lem, with_context-SameShape,
  append_instruction-SameShape, append_instructions-SameShape, append_inst_if_needed-SameShape,
  archive_expr-IsBuilt,
}

-- What comes of a call that succeeds is built.
abbrev pub Keeps : Made → Type 0
Keeps made = (a : ℕ) (b' : BnodeBuilder) → made ≡ some (a, b') → IsBuilt b'

module _ (is_alloca : ℕ → Bool) (scope : ValueExprmap) where
  append_call-SameShape :
      (val : Value) (instructions : List ℕ) (n n' : Bnode)
      → append_call is_alloca scope val instructions n ≡ some n'
      → SameShape n n'
  unfolding append_call
  append_call-SameShape (constant c) instructions n n' e = absurd (ground arith)
  append_call-SameShape (instruction i) instructions n n' e =
      elim (Bool-cases (contains is_alloca scope i instructions || is_alloca i)) [
        | inl b ↦ subst (SameShape n) (of_some (rw b at e)) (refl, refl)
        | inr b ↦ append_instruction-SameShape is_alloca i n n' (rw b at e)
      ]

  optional-SameShape :
      (val : Option Value) (ar : Arena) (n n' : Bnode)
      → (elim val as (λ _. Option Bnode) [
        | none ↦ some n
        | some v ↦ append_inst_if_needed is_alloca ar v n
      ])
        ≡ some n'
      → SameShape n n'
  optional-SameShape none ar n n' e = subst (SameShape n) (of_some e) (refl, refl)
  optional-SameShape (some v) ar n n' e = append_inst_if_needed-SameShape is_alloca ar v n n' e

  pub mk_error-IsBuilt :
      (errortype : ℕ) (b : BnodeBuilder) → IsBuilt b → Keeps (mk_error is_alloca scope errortype b)
  unfolding mk_error
  mk_error-IsBuilt errortype b built a' b' e =
      let (n, e₀, r₀) = >>=-eq-some (new_expr n_error [] none errortype 0) _ e in
      let s₀ = (new_expr_lem n_error [] none errortype 0 n e₀).0 in
      archive_expr-IsBuilt scope _ b a' b' built s₀ r₀

  pub mk_const-IsBuilt :
      (btype : ℕ) (value : Value) (b : BnodeBuilder)
      → IsBuilt b
      → Keeps (mk_const is_alloca scope btype value b)
  unfolding mk_const
  mk_const-IsBuilt btype value b built a' b' e =
      let (n, e₀, r₀) = >>=-eq-some (new_expr n_const [] (some value) btype 0) _ e in
      let s₀ = (new_expr_lem n_const [] (some value) btype 0 n e₀).0 in
      archive_expr-IsBuilt scope _ b a' b' built s₀ r₀

  pub mk_void_value-IsBuilt :
      (btype : ℕ) (b : BnodeBuilder) → IsBuilt b → Keeps (mk_void_value is_alloca scope btype b)
  unfolding mk_void_value
  mk_void_value-IsBuilt btype b built a' b' e =
      let (n, e₀, r₀) = >>=-eq-some (new_expr n_const [] none btype 0) _ e in
      let s₀ = (new_expr_lem n_const [] none btype 0 n e₀).0 in
      archive_expr-IsBuilt scope _ b a' b' built s₀ r₀

  pub mk_var-IsBuilt :
      (var : ℕ) (value : Option Value) (vt : ℕ) (loc : ℕ) (b : BnodeBuilder)
      → IsBuilt b
      → Keeps (mk_var is_alloca scope var value vt loc b)
  unfolding mk_var
  mk_var-IsBuilt var value vt loc b built a' b' e =
      let (n, e₀, r₀) = >>=-eq-some (new_expr n_var [] value vt loc) _ e in
      let s₀ = (new_expr_lem n_var [] value vt loc n e₀).0 in
      archive_expr-IsBuilt scope _ b a' b' built s₀ r₀

  pub mk_binary_op-IsBuilt :
      (op : ℕ) (typ : ℕ) (val : Option Value) (left : ℕ) (right : ℕ) (loc : ℕ) (b : BnodeBuilder)
      → IsBuilt b
      → Keeps (mk_binary_op is_alloca scope op typ val left right loc b)
  unfolding mk_binary_op
  mk_binary_op-IsBuilt op typ val left right loc b built a' b' e =
      let (n, e₀, r₀) = >>=-eq-some (new_expr n_binary_op (left ∷ right ∷ []) val typ loc) _ e in
      let s₀ = (new_expr_lem n_binary_op (left ∷ right ∷ []) val typ loc n e₀).0 in
      let (n₁, e₁, r₁) =
        >>=-eq-some
          (elim val as (λ _. Option Bnode) [
            | none ↦ some n
            | some v ↦ append_inst_if_needed is_alloca b.arena v n
          ])
          _ r₀ in
      let s₁ = SameShape-IsShaped n n₁ (optional-SameShape val b.arena n n₁ e₁) s₀ in
      archive_expr-IsBuilt scope _ b a' b' built s₁ r₁

  pub mk_binary_op_with-IsBuilt :
      (op : ℕ) (typ : ℕ) (val : Option Value) (left : ℕ) (right : ℕ) (instructions : List ℕ)
      (loc : ℕ) (b : BnodeBuilder)
      → IsBuilt b
      → Keeps (mk_binary_op_with is_alloca scope op typ val left right instructions loc b)
  unfolding mk_binary_op_with
  mk_binary_op_with-IsBuilt op typ val left right instructions loc b built a' b' e =
      let (n, e₀, r₀) = >>=-eq-some (new_expr n_binary_op (left ∷ right ∷ []) val typ loc) _ e in
      let s₀ = (new_expr_lem n_binary_op (left ∷ right ∷ []) val typ loc n e₀).0 in
      let (n₁, e₁, r₁) = >>=-eq-some (append_instructions is_alloca instructions n) _ r₀ in
      let s₁ =
        SameShape-IsShaped n n₁ (append_instructions-SameShape is_alloca instructions n n₁ e₁) s₀ in
      archive_expr-IsBuilt scope _ b a' b' built s₁ r₁

  pub mk_unary_op-IsBuilt :
      (op : ℕ) (typ : ℕ) (val : Option Value) (src : ℕ) (loc : ℕ) (b : BnodeBuilder)
      → IsBuilt b
      → Keeps (mk_unary_op is_alloca scope op typ val src loc b)
  unfolding mk_unary_op
  mk_unary_op-IsBuilt op typ val src loc b built a' b' e =
      let (n, e₀, r₀) = >>=-eq-some (new_expr n_unary_op (src ∷ []) val typ loc) _ e in
      let s₀ = (new_expr_lem n_unary_op (src ∷ []) val typ loc n e₀).0 in
      let (v, _, r₁) = >>=-eq-some val _ r₀ in
      let (n₁, e₁, r₂) = >>=-eq-some (append_inst_if_needed is_alloca b.arena v n) _ r₁ in
      let s₁ =
        SameShape-IsShaped n n₁ (append_inst_if_needed-SameShape is_alloca b.arena v n n₁ e₁) s₀ in
      let (src_node, _, r₃) = >>=-eq-some (node_at b.arena src) _ r₂ in
      let s₂ =
        SameShape-IsShaped (record n₁ { payload = of_op op })
          (with_context src_node (record n₁ { payload = of_op op }))
          (with_context-SameShape src_node (record n₁ { payload = of_op op })) s₁ in
      archive_expr-IsBuilt scope _ b a' b' built s₂ r₃

  pub mk_conversion-IsBuilt :
      (typ : ℕ) (val : Option Value) (src : ℕ) (loc : ℕ) (b : BnodeBuilder)
      → IsBuilt b
      → Keeps (mk_conversion is_alloca scope typ val src loc b)
  unfolding mk_conversion
  mk_conversion-IsBuilt typ val src loc b built a' b' e =
      let (n, e₀, r₀) = >>=-eq-some (new_expr n_conversion (src ∷ []) val typ loc) _ e in
      let s₀ = (new_expr_lem n_conversion (src ∷ []) val typ loc n e₀).0 in
      let (v, _, r₁) = >>=-eq-some val _ r₀ in
      let (n₁, e₁, r₂) = >>=-eq-some (append_inst_if_needed is_alloca b.arena v n) _ r₁ in
      let s₁ =
        SameShape-IsShaped n n₁ (append_inst_if_needed-SameShape is_alloca b.arena v n n₁ e₁) s₀ in
      let (src_node, _, r₃) = >>=-eq-some (node_at b.arena src) _ r₂ in
      let s₂ =
        SameShape-IsShaped n₁ (with_context src_node n₁) (with_context-SameShape src_node n₁) s₁ in
      archive_expr-IsBuilt scope _ b a' b' built s₂ r₃

  pub mk_address-IsBuilt :
      (typ : ℕ) (val : Option Value) (src : ℕ) (loc : ℕ) (b : BnodeBuilder)
      → IsBuilt b
      → Keeps (mk_address is_alloca scope typ val src loc b)
  unfolding mk_address
  mk_address-IsBuilt typ val src loc b built a' b' e =
      let (n, e₀, r₀) = >>=-eq-some (new_expr n_address (src ∷ []) val typ loc) _ e in
      let s₀ = (new_expr_lem n_address (src ∷ []) val typ loc n e₀).0 in
      archive_expr-IsBuilt scope _ b a' b' built s₀ r₀

  pub mk_fcn_address-IsBuilt :
      (typ : ℕ) (val : Option Value) (func : ℕ) (loc : ℕ) (b : BnodeBuilder)
      → IsBuilt b
      → Keeps (mk_fcn_address is_alloca scope typ val func loc b)
  unfolding mk_fcn_address
  mk_fcn_address-IsBuilt typ val func loc b built a' b' e =
      let (n, e₀, r₀) = >>=-eq-some (new_expr n_fcn_address [] val typ loc) _ e in
      let s₀ = (new_expr_lem n_fcn_address [] val typ loc n e₀).0 in
      archive_expr-IsBuilt scope _ b a' b' built s₀ r₀

  pub mk_deref-IsBuilt :
      (typ : ℕ) (val : Option Value) (src : ℕ) (loc : ℕ) (b : BnodeBuilder)
      → IsBuilt b
      → Keeps (mk_deref is_alloca scope typ val src loc b)
  unfolding mk_deref
  mk_deref-IsBuilt typ val src loc b built a' b' e =
      let (n, e₀, r₀) = >>=-eq-some (new_expr n_deref (src ∷ []) val typ loc) _ e in
      let s₀ = (new_expr_lem n_deref (src ∷ []) val typ loc n e₀).0 in
      archive_expr-IsBuilt scope _ b a' b' built s₀ r₀

  pub mk_composite-IsBuilt :
      (btype : ℕ) (value : Option Value) (vals : List ℕ) (instructions : List ℕ) (loc : ℕ)
      (b : BnodeBuilder)
      → IsBuilt b
      → Keeps (mk_composite is_alloca scope btype value vals instructions loc b)
  unfolding mk_composite
  mk_composite-IsBuilt btype value vals instructions loc b built a' b' e =
      let (n, e₀, r₀) = >>=-eq-some (new_expr n_composite vals value btype loc) _ e in
      let s₀ = (new_expr_lem n_composite vals value btype loc n e₀).0 in
      let (n₁, e₁, r₁) = >>=-eq-some (append_instructions is_alloca instructions n) _ r₀ in
      let s₁ =
        SameShape-IsShaped n n₁ (append_instructions-SameShape is_alloca instructions n n₁ e₁) s₀ in
      archive_expr-IsBuilt scope _ b a' b' built s₁ r₁

  pub mk_struct_field-IsBuilt :
      (typ : ℕ) (val : Option Value) (structval : ℕ) (field_index : ℕ) (loc : ℕ) (b : BnodeBuilder)
      → IsBuilt b
      → Keeps (mk_struct_field is_alloca scope typ val structval field_index loc b)
  unfolding mk_struct_field
  mk_struct_field-IsBuilt typ val structval field_index loc b built a' b' e =
      let (n, e₀, r₀) = >>=-eq-some (new_expr n_struct_field (structval ∷ []) val typ loc) _ e in
      let s₀ = (new_expr_lem n_struct_field (structval ∷ []) val typ loc n e₀).0 in
      let (v, _, r₁) = >>=-eq-some val _ r₀ in
      let (n₁, e₁, r₂) = >>=-eq-some (append_inst_if_needed is_alloca b.arena v n) _ r₁ in
      let s₁ =
        SameShape-IsShaped n n₁ (append_inst_if_needed-SameShape is_alloca b.arena v n n₁ e₁) s₀ in
      let (src_node, _, r₃) = >>=-eq-some (node_at b.arena structval) _ r₂ in
      let s₂ =
        SameShape-IsShaped (record n₁ { payload = of_field_index field_index })
          (with_context src_node (record n₁ { payload = of_field_index field_index }))
          (with_context-SameShape src_node (record n₁ { payload = of_field_index field_index }))
          s₁ in
      archive_expr-IsBuilt scope _ b a' b' built s₂ r₃

  pub mk_array_index-IsBuilt :
      (typ : ℕ) (val : Option Value) (arval : ℕ) (index : ℕ) (loc : ℕ) (b : BnodeBuilder)
      → IsBuilt b
      → Keeps (mk_array_index is_alloca scope typ val arval index loc b)
  unfolding mk_array_index
  mk_array_index-IsBuilt typ val arval index loc b built a' b' e =
      let (n, e₀, r₀) = >>=-eq-some (new_expr n_array_index (arval ∷ index ∷ []) val typ loc) _ e in
      let s₀ = (new_expr_lem n_array_index (arval ∷ index ∷ []) val typ loc n e₀).0 in
      let (v, _, r₁) = >>=-eq-some val _ r₀ in
      let (n₁, e₁, r₂) = >>=-eq-some (append_inst_if_needed is_alloca b.arena v n) _ r₁ in
      let s₁ =
        SameShape-IsShaped n n₁ (append_inst_if_needed-SameShape is_alloca b.arena v n n₁ e₁) s₀ in
      let (src_node, _, r₃) = >>=-eq-some (node_at b.arena arval) _ r₂ in
      let s₂ =
        SameShape-IsShaped n₁ (with_context src_node n₁) (with_context-SameShape src_node n₁) s₁ in
      archive_expr-IsBuilt scope _ b a' b' built s₂ r₃

  pub mk_call-IsBuilt :
      (btype : ℕ) (val : Value) (args : List ℕ) (instructions : List ℕ) (loc : ℕ) (b : BnodeBuilder)
      → IsBuilt b
      → Keeps (mk_call is_alloca scope btype val args instructions loc b)
  unfolding mk_call
  mk_call-IsBuilt btype val args instructions loc b built a' b' e =
      let (n, e₀, r₀) = >>=-eq-some (new_expr n_call args (some val) btype loc) _ e in
      let s₀ = (new_expr_lem n_call args (some val) btype loc n e₀).0 in
      let (n₁, e₁, r₁) = >>=-eq-some (append_instructions is_alloca instructions n) _ r₀ in
      let s₁ =
        SameShape-IsShaped n n₁ (append_instructions-SameShape is_alloca instructions n n₁ e₁) s₀ in
      let (n₂, e₂, r₂) = >>=-eq-some (append_call is_alloca scope val instructions n₁) _ r₁ in
      let s₂ = SameShape-IsShaped n₁ n₂ (append_call-SameShape val instructions n₁ n₂ e₂) s₁ in
      archive_expr-IsBuilt scope _ b a' b' built s₂ r₂

  pub mk_compound-IsBuilt :
      (st expr loc : ℕ) (b : BnodeBuilder)
      → IsBuilt b
      → Keeps (mk_compound is_alloca scope st expr loc b)
  unfolding mk_compound
  mk_compound-IsBuilt st expr loc b built a' b' e =
      let (ex, _, r₀) = >>=-eq-some (node_at b.arena expr) _ e in
      let (n, e₁, r₁) =
        >>=-eq-some (new_expr n_compound (st ∷ expr ∷ []) ex.value ex.btype loc) _ r₀ in
      let s₁ = (new_expr_lem n_compound (st ∷ expr ∷ []) ex.value ex.btype loc n e₁).0 in
      let s₂ = SameShape-IsShaped n (with_context ex n) (with_context-SameShape ex n) s₁ in
      archive_expr-IsBuilt scope _ b a' b' built s₂ r₁
