-- ===== src/TypeManager/Canonical.antt =====
-- Asking go-llvm-typemanager.cpp for the same anonymous type again.
use dragongo.Common.{
  ℕ, Bool, true, none, some, [], ◌∷◌, ◌++◌, length, ◌≡◌, refl, sym, subst, ◌∙◌, arith, Bool-cases,
  Option-cases, inl, inr, ap,
}
use dragongo.Common.Run.{ok, ◌>>=◌, >>=-eq-ok}
use dragongo.TypeStore.{Btype, at, is_unresolved_placeholder, new_integer, new_float}
use dragongo.TypeStore.Equal.{Hashes}
use dragongo.TypeStore.Setters.{put, set_placeholder}
use dragongo.TypeStore.Clone.{is_set, at-append, at-new}
use dragongo.TypeStore.Updates.{put-at, set_placeholder-put}
use dragongo.TypeManager.{Llvm, TypeManager, new, add_ref}
use dragongo.TypeManager.Anon.{find_candidate}
use dragongo.TypeManager.Refs.{add_child_ref, add_placeholder_refs}
use dragongo.TypeManager.Make.{
  no_location, mark_placeholder, install, integer_type, float_type, make_llvm_float_type,
}
use dragongo.TypeManager.Cached.{depth, insert_anon-missed, find_candidate-installed}

pub add_child_ref-types :
    (m : TypeManager) (a c : ℕ) (b : Btype) (v : Bool) {m₁ : TypeManager}
    → at m.types c ≡ ok b
    → add_child_ref m a c ≡ ok (v, m₁)
    → (v ≡ is_unresolved_placeholder b)
      × (m₁.types ≡ m.types)
      × (m₁.anon_types ≡ m.anon_types)
      × (m₁.error_type ≡ m.error_type)
unfolding add_child_ref add_ref
add_child_ref-types m a c b v {m₁} h e = elim (Bool-cases (is_unresolved_placeholder b)) [
  | inl u ↦ let k = rw (h, u) at e in (ground arith, ground arith, ground arith, ground arith)
  | inr u ↦ let k = rw (h, u) at e in (ground arith, ground arith, ground arith, ground arith)
]

-- A new pointer or array type whose child is `c`: the flag is set to what it was.
marked :
    (m m₁ : TypeManager) (cand : Btype) (c : ℕ) (b : Btype)
    → at m.types c ≡ ok b
    → is_unresolved_placeholder b ≡ cand.is_placeholder
    → add_placeholder_refs (new m cand) (length m.types)
      ≡ add_child_ref (new m cand) (length m.types) c
    → mark_placeholder (new m cand) (length m.types) ≡ ok m₁
    → (m₁.types ≡ (new m cand).types)
      × (m₁.anon_types ≡ m.anon_types)
      × (m₁.error_type ≡ m.error_type)
unfolding mark_placeholder
marked m m₁ cand c b h flag refs e =
    let a = length m.types in
    let ((v, m₂), f, e₁) = >>=-eq-ok (add_placeholder_refs (new m cand) a) _ e in
    let (is, types, anon, error) =
      add_child_ref-types (new m cand) a c b v (at-append m.types (cand ∷ []) c h) (sym refs ∙ f) in
    let (u, g, e₂) = >>=-eq-ok (set_placeholder m₂.types a v) _ e₁ in
    let once = set_placeholder-put (m.types ++ (cand ∷ [])) a cand v (at-new m.types cand) in
    let plain : cand.is_placeholder ≡ v = sym (is ∙ flag) in
    let whole = put-at (m.types ++ (cand ∷ [])) a cand (at-new m.types cand) in
    let g₁ : set_placeholder (m.types ++ (cand ∷ [])) a v ≡ ok u =
      subst (λ k. set_placeholder k a v ≡ ok u) types g in
    let put₁ : u ≡ put (m.types ++ (cand ∷ [])) a (record cand { is_placeholder = v }) =
      ground arith in
    let put₂ : u ≡ put (m.types ++ (cand ∷ [])) a cand =
      subst (λ k. u ≡ put (m.types ++ (cand ∷ [])) a (record cand { is_placeholder = k }))
        (sym plain) put₁ in
    let same : record m₂ { types = u } ≡ m₁ = ground arith in
    (
      ap (λ (t : TypeManager). t.types) (sym same) ∙ put₂ ∙ whole,
      ap (λ (t : TypeManager). t.anon_types) (sym same) ∙ anon,
      ap (λ (t : TypeManager). t.error_type) (sym same) ∙ error,
    )

module _ (lv : Llvm) (hs : Hashes) (n : ℕ) where
  -- What an installation does after a miss.
  installed :
      (m m₁ m₂ : TypeManager) (cand : Btype) (p : ℕ)
      → find_candidate hs (depth n) m cand ≡ ok none
      → m₁.types ≡ (new m cand).types
      → m₁.anon_types ≡ m.anon_types
      → install lv hs (depth n) m₁ (length m.types) ≡ ok (p, m₂)
      → (p ≡ length m.types)
        × (m₂.types ≡ (new m cand).types)
        × (m₂.anon_types ≡ m.anon_types ++ (length m.types ∷ []))
        × (m₂.error_type ≡ m₁.error_type)
  unfolding install
  installed m m₁ m₂ cand p miss types anon e =
      let k = rw (insert_anon-missed hs (depth n) m m₁ cand miss types anon) at e in
      let same : m₂ ≡ record m₁ { anon_types = m₁.anon_types ++ (length m.types ∷ []) } =
        ground arith in
      (
        ground arith,
        ap (λ (t : TypeManager). t.types) same ∙ types,
        ap (λ (t : TypeManager). t.anon_types) same ∙ ap (λ k. k ++ (length m.types ∷ [])) anon,
        ap (λ (t : TypeManager). t.error_type) same,
      )

  -- The end of `integerType` and `floatType`.
  found_again :
      (m m₁ : TypeManager) (cand : Btype) (p : ℕ)
      → is_set cand.shape ≡ true
      → (find_candidate hs (depth n) m cand >>= λ hit. elim hit [
        | some e ↦ ok (e, m)
        | none ↦ install lv hs (depth n) (new m cand) (length m.types)
      ])
        ≡ ok (p, m₁)
      → find_candidate hs (depth n) m₁ cand ≡ ok (some p)
  found_again m m₁ cand p set e =
      let (hit, f, e₁) = >>=-eq-ok (find_candidate hs (depth n) m cand) _ e in
      elim (Option-cases hit) [
        | inl h ↦
            let miss : find_candidate hs (depth n) m cand ≡ ok none = rw h at f in
            let (at_p, types, anon, _) =
              installed m (new m cand) m₁ cand p miss refl refl (rw h at e₁) in
            rw at_p (find_candidate-installed hs n m m₁ cand set miss types anon)
        | inr (d, h) ↦
            let k = rw h at e₁ in
            let same : m ≡ m₁ = ground arith in
            let there : d ≡ p = ground arith in
            subst (λ (t : TypeManager). find_candidate hs (depth n) t cand ≡ ok (some p)) same
              (rw (f, h, there) refl)
      ]

  pub integer_type_again :
      (m m₁ : TypeManager) (u : Bool) (bits p : ℕ)
      → integer_type lv hs (depth n) m u bits ≡ ok (p, m₁)
      → integer_type lv hs (depth n) m₁ u bits ≡ ok (p, m₁)
  unfolding integer_type
  integer_type_again m m₁ u bits p e =
      let cand = new_integer u bits (some (lv.integer_type bits)) no_location in
      rw (found_again m m₁ cand p refl e) refl

  pub float_type_again :
      (m m₁ : TypeManager) (bits p : ℕ)
      → float_type lv hs (depth n) m bits ≡ ok (p, m₁)
      → float_type lv hs (depth n) m₁ bits ≡ ok (p, m₁)
  unfolding float_type
  float_type_again m m₁ bits p e =
      let (t, f, e₁) = >>=-eq-ok (make_llvm_float_type lv bits) _ e in
      let cand = new_float bits (some t) no_location in rw (f, found_again m m₁ cand p refl e₁) refl

  -- The end of `pointerType` and `arrayType`, with the state that is left.
  pub found_marked :
      (m m₁ : TypeManager) (cand : Btype) (p c : ℕ) (b : Btype)
      → is_set cand.shape ≡ true
      → at m.types c ≡ ok b
      → is_unresolved_placeholder b ≡ cand.is_placeholder
      → add_placeholder_refs (new m cand) (length m.types)
        ≡ add_child_ref (new m cand) (length m.types) c
      → (find_candidate hs (depth n) m cand >>= λ hit. elim hit [
        | some e ↦ ok (e, m)
        | none ↦ do
          m₂ ← mark_placeholder (new m cand) (length m.types)
          install lv hs (depth n) m₂ (length m.types)
      ])
        ≡ ok (p, m₁)
      → (find_candidate hs (depth n) m₁ cand ≡ ok (some p))
        × (at m₁.types c ≡ ok b)
        × (m₁.error_type ≡ m.error_type)
  found_marked m m₁ cand p c b set h flag refs e =
      let (hit, f, e₁) = >>=-eq-ok (find_candidate hs (depth n) m cand) _ e in
      elim (Option-cases hit) [
        | inl k ↦
            let miss : find_candidate hs (depth n) m cand ≡ ok none = rw k at f in
            let (m₂, g, e₂) =
              >>=-eq-ok (mark_placeholder (new m cand) (length m.types)) _ (rw k at e₁) in
            let (types₂, anon₂, error₂) = marked m m₂ cand c b h flag refs g in
            let (at_p, types, anon, error) = installed m m₂ m₁ cand p miss types₂ anon₂ e₂ in
            (
              rw at_p (find_candidate-installed hs n m m₁ cand set miss types anon),
              subst (λ s. at s c ≡ ok b) (sym types) (at-append m.types (cand ∷ []) c h),
              error ∙ error₂,
            )
        | inr (d, k) ↦
            let j = rw k at e₁ in
            let same : m ≡ m₁ = ground arith in
            let there : d ≡ p = ground arith in
            (
              subst (λ (t : TypeManager). find_candidate hs (depth n) t cand ≡ ok (some p)) same
                  (rw (f, k, there) refl),
              subst (λ (t : TypeManager). at t.types c ≡ ok b) same h,
              ap (λ (t : TypeManager). t.error_type) (sym same),
            )
      ]
