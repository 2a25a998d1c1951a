-- ===== src/TypeManager/Repeats.antt =====
-- Pointers to structures that are still placeholders (`pointerType` in go-llvm-typemanager.cpp).
use dragongo.Common.{
  ℕ, true, false, some, [], ◌∷◌, ◌++◌, length, ◌≡◌, ◌≢◌, refl, sym, subst, ◌∙◌, arith, ◌==◌,
  Bool-cases, Option-cases, inl, inr, ap,
}
use dragongo.Common.Run.{ok, >>=-eq-ok, deref}
use dragongo.TypeStore.{pointer_t, is_struct, Btype, Store, at, new_pointer, new_btype}
use dragongo.TypeStore.Equal.{equal, Hashes, hash}
use dragongo.TypeStore.Setters.{put, set_placeholder}
use dragongo.TypeStore.Clone.{at-append, at-new}
use dragongo.TypeStore.Transitive.{equal_at-Compared}
use dragongo.TypeStore.Updates.{at-put, at-put_other, set_placeholder-put}
use dragongo.TypeManager.{Llvm, TypeManager, new}
use dragongo.TypeManager.Anon.{matches, find_equal, find_candidate, insert_anon}
use dragongo.TypeManager.Refs.{add_placeholder_refs, add_child_ref}
use dragongo.TypeManager.Make.{no_location, mark_placeholder, install, pointer_type, pointee}
use dragongo.TypeManager.Cached.{depth, at-lt, find_some}
use dragongo.TypeManager.Canonical.{add_child_ref-types}

module _ (hs : Hashes) where
  insert_anon-types :
      (fuel : ℕ) (m : TypeManager) (a : ℕ) {m₁ : TypeManager}
      → insert_anon hs fuel m a ≡ ok m₁
      → (m₁.types ≡ m.types) × (m₁.error_type ≡ m.error_type)
  unfolding insert_anon
  insert_anon-types fuel m a {m₁} e =
      let (hit, f, e₁) = >>=-eq-ok (find_equal hs fuel m.types a m.anon_types) _ e in
      elim (Option-cases hit) [
        | inl k ↦ let j = rw k at e₁ in (ground arith, ground arith)
        | inr (d, k) ↦ let j = rw k at e₁ in (ground arith, ground arith)
      ]

  -- What matches has the same flag.
  matches-flag :
      (n : ℕ) (s : Store) (a e : ℕ) (x y : Btype)
      → at s a ≡ ok x
      → at s e ≡ ok y
      → matches hs (depth n) s a e ≡ ok true
      → x.is_placeholder ≡ y.is_placeholder
  unfolding matches equal
  matches-flag n s a e x y at_a at_e k =
      let k₁ = rw (at_a, at_e) at k in
      elim (Bool-cases (hash hs x == hash hs y)) [
        | inr h ↦ let j = rw h at k₁ in ground arith
        | inl h ↦ elim (equal_at-Compared s a e (rw h at k₁)) [
          | inl same ↦ let xy : x ≡ y = ground arith in rw xy refl
          | inr c ↦
              let u : c.left ≡ x = let j = c.left_at in ground arith in
              let v : c.right ≡ y = let j = c.right_at in ground arith in
              subst (λ (t : Btype). t.is_placeholder ≡ y.is_placeholder) u
                (subst (λ (t : Btype). c.left.is_placeholder ≡ t.is_placeholder) v
                  c.members.placeholders)
        ]
      ]

-- A new pointer to a structure gets no flag.
unmarked :
    (m m₁ : TypeManager) (cand : Btype) (c : ℕ) (b : Btype)
    → at m.types c ≡ ok b
    → is_struct b.shape ≡ true
    → add_placeholder_refs (new m cand) (length m.types)
      ≡ add_child_ref (new m cand) (length m.types) c
    → mark_placeholder (new m cand) (length m.types) ≡ ok m₁
    → (m₁.types
        ≡ put (m.types ++ (cand ∷ [])) (length m.types) (record cand { is_placeholder = false }))
      × (m₁.error_type ≡ m.error_type)
unfolding mark_placeholder
unmarked m m₁ cand c b h st refs e =
    let a = length m.types in
    let ((v, m₂), f, e₁) = >>=-eq-ok (add_placeholder_refs (new m cand) a) _ e in
    let (is, types, anon, error) =
      add_child_ref-types (new m cand) a c b v (at-append m.types (cand ∷ []) c h) (sym refs ∙ f) in
    let off : v ≡ false = rw st at is in
    let (u, g, e₂) = >>=-eq-ok (set_placeholder m₂.types a v) _ e₁ in
    let once = set_placeholder-put (m.types ++ (cand ∷ [])) a cand false (at-new m.types cand) in
    let g₁ : set_placeholder (m.types ++ (cand ∷ [])) a false ≡ ok u =
      subst (λ k. set_placeholder (m.types ++ (cand ∷ [])) a k ≡ ok u) off
        (subst (λ k. set_placeholder k a v ≡ ok u) types g) in
    let put₁ : u ≡ put (m.types ++ (cand ∷ [])) a (record cand { is_placeholder = false }) =
      ground arith in
    let same : record m₂ { types = u } ≡ m₁ = ground arith in
    (
      ap (λ (t : TypeManager). t.types) (sym same) ∙ put₁,
      ap (λ (t : TypeManager). t.error_type) (sym same) ∙ error,
    )

module _ (lv : Llvm) (hs : Hashes) (n : ℕ) where
  -- The candidate for a pointer to the type `b` at `to` with the LLVM type `t`.
  abbrev pointer_candidate : ℕ → Btype → ℕ → Btype
  pointer_candidate to b t =
      record (new_btype (pointer_t (some to)) (some (lv.pointer_to (pointee lv t))) no_location) {
        is_placeholder = b.is_placeholder;
      }

  install-address :
      (m : TypeManager) (a p : ℕ) {m₁ : TypeManager}
      → install lv hs (depth n) m a ≡ ok (p, m₁)
      → (p ≡ a) × (m₁.types ≡ m.types) × (m₁.error_type ≡ m.error_type)
  unfolding install
  install-address m a p {m₁} e =
      let (m₂, f, e₁) = >>=-eq-ok (insert_anon hs (depth n) m a) _ e in
      let (types, error) = insert_anon-types hs (depth n) m a f in
      let same : m₂ ≡ m₁ = ground arith in
      (
        ground arith,
        ap (λ (t : TypeManager). t.types) (sym same) ∙ types,
        ap (λ (t : TypeManager). t.error_type) (sym same) ∙ error,
      )

  -- The first request, which made a type.
  first_made :
      (m m₁ : TypeManager) (to p : ℕ) (b : Btype)
      → at m.types to ≡ ok b
      → is_struct b.shape ≡ true
      → m₁.types ≢ m.types
      → pointer_type lv hs (depth n) m to ≡ ok (p, m₁)
      → ((to == m₁.error_type) ≡ false)
        × (at m₁.types to ≡ ok b)
        × (y : Btype) × (at m₁.types p ≡ ok y)
        × (y.is_placeholder ≡ false)
  unfolding pointer_type new_pointer add_placeholder_refs
  first_made m m₁ to p b h st made e = elim (Bool-cases (to == m.error_type)) [
    | inl err ↦ let k = rw err at e in absurd (made (ground arith))
    | inr ne ↦
        let e₀ = rw (ne, h) at e in
        let (t, g, e₁) = >>=-eq-ok (deref b.type) _ e₀ in
        let cand = pointer_candidate to b t in
        let (hit, f, e₂) = >>=-eq-ok (find_candidate hs (depth n) m cand) _ e₁ in
        elim (Option-cases hit) [
          | inr (d, k) ↦ let j = rw k at e₂ in absurd (made (ground arith))
          | inl k ↦
              let a = length m.types in
              let (m₂, i, e₃) = >>=-eq-ok (mark_placeholder (new m cand) a) _ (rw k at e₂) in
              let (types₂, error₂) =
                unmarked m m₂ cand to b h st (rw (at-new m.types cand) refl) i in
              let (at_p, types, error) = install-address m₂ a p e₃ in
              let all = types ∙ types₂ in
              let low = at-lt m.types to h in
              let s = m.types ++ (cand ∷ []) in
              let y : Btype = record cand { is_placeholder = false } in
              (
                subst (λ d. (to == d) ≡ false) (sym (error ∙ error₂)) ne,
                subst (λ k. at k to ≡ ok b) (sym all)
                    (at-put_other s a to y (λ r. omega (arith, low, r))
                      ∙ at-append m.types (cand ∷ []) to h),
                y,
                subst (λ k. at k p ≡ ok y) (sym all)
                    (subst (λ d. at (put s a y) d ≡ ok y) (sym at_p)
                      (at-put s a cand y (at-new m.types cand))),
                refl,
              )
        ]
  ]

  -- Asking twice for the pointer to the same structure, while that is a placeholder, gives two
  -- different pointer types: the candidate takes over the flag of the structure and the type that
  -- is kept does not, so that the search for the second one passes the first by.
  pub pointer_type-repeats :
      (m m₁ m₂ : TypeManager) (to p q : ℕ) (b : Btype)
      → at m.types to ≡ ok b
      → is_struct b.shape ≡ true
      → b.is_placeholder ≡ true
      → m₁.types ≢ m.types
      → pointer_type lv hs (depth n) m to ≡ ok (p, m₁)
      → pointer_type lv hs (depth n) m₁ to ≡ ok (q, m₂)
      → p ≢ q
  unfolding pointer_type new_pointer find_candidate
  pointer_type-repeats m m₁ m₂ to p q b h st pl made e e₂ r =
      let (ne, h₁, y, at_p, off) = first_made m m₁ to p b h st made e in
      let (t, g, e₃) = >>=-eq-ok (deref b.type) _ (rw (ne, h₁) at e₂) in
      let cand = pointer_candidate to b t in
      let low = at-lt m₁.types p at_p in
      let (hit, f, e₄) = >>=-eq-ok (find_candidate hs (depth n) m₁ cand) _ e₃ in
      elim (Option-cases hit) [
        | inr (d, k) ↦
            let j = rw k at e₄ in
            let there : d ≡ p = ground arith in
            let s = m₁.types ++ (cand ∷ []) in
            let found = find_some hs (depth n) s (length m₁.types) m₁.anon_types d (rw k at f) in
            let same =
              matches-flag hs n s (length m₁.types) p cand y (at-new m₁.types cand)
                (at-append m₁.types (cand ∷ []) p at_p)
                (subst (λ k. matches hs (depth n) s (length m₁.types) k ≡ ok true) there found) in
            ground arith
        | inl k ↦
            let (m₃, i, e₅) =
              >>=-eq-ok (mark_placeholder (new m₁ cand) (length m₁.types)) _ (rw k at e₄) in
            let (at_q, _, _) = install-address m₃ (length m₁.types) q e₅ in
            omega (arith, low, at_q, r)
      ]
