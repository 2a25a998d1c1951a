-- ===== src/TypeManager/Later.antt =====
-- A placeholder pointer of go-llvm-typemanager.cpp that is redirected to another placeholder pointer,
-- which is redirected itself later.
use dragongo.Common.{
  ℕ, zero, suc, Bool, true, false, none, some, List, [], ◌∷◌, ◌≡◌, ◌≢◌, refl, sym, subst, ◌∙◌, ap,
  arith, ◌==◌, Bool-cases, inl, inr, ==_iff,
}
use dragongo.Common.Run.{ok, >>=-eq-ok}
use dragongo.TypeStore.{pointer_t, Btype, at, is_unresolved_placeholder}
use dragongo.TypeStore.Equal.{Hashes}
use dragongo.TypeStore.Setters.{put, set_placeholder}
use dragongo.TypeStore.Updates.{at-put, at-put_other, set_placeholder-put}
use dragongo.TypeManager.{Llvm, TypeManager, lookup, insert_at, insert_sorted, refs_to, add_ref}
use dragongo.TypeManager.Circular.{close_loop, follow_from, follow_loop}
use dragongo.TypeManager.Resolve.{resolve_one, resolve_each, resolve_refs, post_process}
use dragongo.TypeManager.Redirect.{await_or_resolve, redirect_pointer}
use dragongo.TypeManager.Settled.{completed, post_process-Settles}
use dragongo.TypeManager.Redirected.{
  redirected, follow_loop-types, redirect_pointer-Redirects, redirect_pointer-now,
  resolve_one-later,
}

lookup-insert_at {ℓ} :
    {A : Type ℓ} (k : ℕ) (v : A) (m : List (ℕ × A)) → lookup k (insert_at k v m) ≡ some v
unfolding lookup insert_at
lookup-insert_at k v [] = rw ((==_iff k k).1 refl) refl
lookup-insert_at k v ((j, w) ∷ m) = elim (Bool-cases (k == j)) [
  | inl e ↦ rw (e, (==_iff k k).1 refl) refl
  | inr e ↦ rw (e, e) (lookup-insert_at k v m)
]

-- A first type that waits.
add_ref-first :
    (m : TypeManager) (to from : ℕ)
    → lookup to m.placeholder_refs ≡ none
    → lookup to (add_ref m to from).placeholder_refs ≡ some (from ∷ [])
unfolding add_ref refs_to insert_sorted
add_ref-first m to from e = rw (refs_to, e) (lookup-insert_at to (from ∷ []) m.placeholder_refs)

follow_from-refs :
    (m : TypeManager) (a to : ℕ) (ps : List (ℕ × ℕ))
    → (follow_from m a to ps).placeholder_refs ≡ m.placeholder_refs
unfolding follow_from close_loop
follow_from-refs m a to [] = refl
follow_from-refs m a to (p ∷ ps) = elim (Bool-cases (to == p.1)) [
  | inl e ↦ rw e refl
  | inr e ↦ rw e refl
]

follow_loop-refs :
    (m : TypeManager) (a to : ℕ) → (follow_loop m a to).placeholder_refs ≡ m.placeholder_refs
unfolding follow_loop
follow_loop-refs m a to = follow_from-refs m a to m.circular_pointer_loop

module _ (lv : Llvm) (hs : Hashes) (fuel : ℕ) where
  -- The only type that waits for `a` is a pointer.
  post_process-one :
      (rounds : ℕ) (m m₁ : TypeManager) (r a t : ℕ) (x b : Btype) (to : ℕ)
      → lookup a m.placeholder_refs ≡ some (r ∷ [])
      → at m.types r ≡ ok x
      → x.shape ≡ pointer_t (some to)
      → x.is_placeholder ≡ true
      → at m.types a ≡ ok b
      → b.type ≡ some t
      → post_process lv hs fuel rounds m a ≡ ok m₁
      → at m₁.types r ≡ ok (completed x (lv.pointer_to t))
  unfolding post_process resolve_refs resolve_each
  post_process-one zero m m₁ r a t x b to waits h sh p k ty e = absurd (ground arith)
  post_process-one (suc rounds) m m₁ r a t x b to waits h sh p k ty e =
      let (m₂, f, e₁) =
        >>=-eq-ok (resolve_one lv hs fuel (post_process lv hs fuel rounds) m r a) _
          (rw (resolve_refs, waits) at e) in
      let same : m₂ ≡ m₁ = ground arith in
      resolve_one-later lv hs fuel (post_process lv hs fuel rounds)
        (λ n c n₁ g. post_process-Settles lv hs fuel rounds n c n₁ g) m m₁ r a t x b (some to) h sh
        p k ty (f ∙ ap ok same)

module _ (lv : Llvm) (hs : Hashes) (fuel rounds : ℕ) where
  -- Redirected to a placeholder that is unresolved itself, a pointer only waits.
  waits_for :
      (m : TypeManager) (placeholder to : ℕ) (x y : Btype) (u : ℕ) (v : Bool) (m₁ : TypeManager)
      → placeholder ≢ to
      → at m.types placeholder ≡ ok x
      → at m.types to ≡ ok y
      → y.type ≡ some u
      → is_unresolved_placeholder y ≡ true
      → lookup to m.placeholder_refs ≡ none
      → redirect_pointer lv hs fuel rounds m placeholder to ≡ ok (v, m₁)
      → (at m₁.types placeholder ≡ ok (redirected x to u))
        × ((j : ℕ) → placeholder ≢ j → at m₁.types j ≡ at m.types j)
        × (lookup to m₁.placeholder_refs ≡ some (placeholder ∷ []))
  unfolding await_or_resolve add_ref
  waits_for m placeholder to x y u v m₁ apart h k ty open_ none_yet e =
      let r = redirect_pointer-Redirects lv hs fuel rounds m placeholder to x y u v m₁ h k ty e in
      let there = r.same to apart ∙ k in
      let m₂ : TypeManager = add_ref (record m { types = r.types }) to placeholder in
      let next : ok m₂ ≡ ok r.after = rw (there, open_) at r.next in
      let after : m₂ ≡ r.after = ground arith in
      let types : r.types ≡ m₁.types =
        ap (λ (n : TypeManager). n.types) after
        ∙ sym (follow_loop-types r.after placeholder to)
        ∙ ap (λ (n : TypeManager). n.types) r.followed in
      let refs : m₂.placeholder_refs ≡ m₁.placeholder_refs =
        ap (λ (n : TypeManager). n.placeholder_refs) after
        ∙ sym (follow_loop-refs r.after placeholder to)
        ∙ ap (λ (n : TypeManager). n.placeholder_refs) r.followed in
      (
        subst (λ s. at s placeholder ≡ ok (redirected x to u)) types r.changed,
        λ j h'. subst (λ s. at s j ≡ at m.types j) types (r.same j h'),
        subst (λ l. lookup to l ≡ some (placeholder ∷ [])) refs
            (add_ref-first (record m { types = r.types }) to placeholder none_yet),
      )

  -- Two placeholder pointers are redirected one after the other: the first to the second, which is
  -- unresolved then and for which nothing else waits, and the second to a concrete type, which is none
  -- of them. Then both are concrete: the second has the LLVM type of its target, and the first the
  -- LLVM type of a pointer to that, although it is redirected in the same way.
  pub redirect_pointer-later :
      (m : TypeManager) (first second to : ℕ) (x y z : Btype) (u t : ℕ) (v w : Bool)
      (m₁ m₂ : TypeManager)
      → (first ≢ second) × (first ≢ to) × (second ≢ to)
      → (at m.types first ≡ ok x) × (x.is_placeholder ≡ true)
      → (at m.types second ≡ ok y) × (y.type ≡ some u) × (is_unresolved_placeholder y ≡ true)
      → (at m.types to ≡ ok z) × (z.type ≡ some t) × (is_unresolved_placeholder z ≡ false)
      → lookup second m.placeholder_refs ≡ none
      → redirect_pointer lv hs fuel rounds m first second ≡ ok (v, m₁)
      → redirect_pointer lv hs fuel rounds m₁ second to ≡ ok (w, m₂)
      → (at m₂.types second ≡ ok (completed (redirected y to t) t))
        × (at m₂.types first ≡ ok (completed (redirected x second u) (lv.pointer_to t)))
  unfolding await_or_resolve
  redirect_pointer-later m first second to x y z u t v w m₁ m₂ (a, b, c) (h, p) (k, ky, open_)
        (l, lz, con) none_yet e e' =
      let (at₁, same₁, refs₁) = waits_for m first second x y u v m₁ a h k ky open_ none_yet e in
      let k₁ = same₁ second a ∙ k in
      let l₁ = same₁ to b ∙ l in
      let r = redirect_pointer-Redirects lv hs fuel rounds m₁ second to y z t w m₂ k₁ l₁ lz e' in
      let next = rw (r.same to c ∙ l₁, con) at r.next in
      let (s₄, f, last) = >>=-eq-ok (set_placeholder r.types second false) _ next in
      let y' : Btype = completed (redirected y to t) t in
      let once = set_placeholder-put r.types second (redirected y to t) false r.changed in
      let made : s₄ ≡ put r.types second y' = ground arith in
      let y₄ : at s₄ second ≡ ok y' =
        subst (λ s. at s second ≡ ok y') (sym made)
          (at-put r.types second (redirected y to t) y' r.changed) in
      let x₄ : at s₄ first ≡ ok (redirected x second u) =
        subst (λ s. at s first ≡ ok (redirected x second u)) (sym made)
          (at-put_other r.types second first y' (λ q. a (sym q))
            ∙ r.same first (λ q. a (sym q))
            ∙ at₁) in
      let end =
        post_process-one lv hs fuel rounds (record m₁ { types = s₄ }) r.after first second t
          (redirected x second u) y' second refs₁ x₄ refl p y₄ refl last in
      let types =
        sym (follow_loop-types r.after second to) ∙ ap (λ (n : TypeManager). n.types) r.followed in
      (
        redirect_pointer-now lv hs fuel rounds m₁ second to y z t w m₂ c k₁ l₁ lz con e',
        subst (λ s. at s first ≡ ok (completed (redirected x second u) (lv.pointer_to t))) types
            end,
      )
