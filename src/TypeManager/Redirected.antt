-- ===== src/TypeManager/Redirected.antt =====
-- The LLVM type of a placeholder pointer that is redirected (`setPlaceholderPointerType` in
-- go-llvm-typemanager.cpp), at once or later.
use dragongo.Common.{
  ℕ, Bool, true, false, Option, some, List, [], ◌∷◌, ◌≡◌, ◌≢◌, refl, sym, subst, ◌∙◌, arith, ◌==◌,
  Bool-cases, inl, inr, ap,
}
use dragongo.Common.Run.{Run, ok, >>=-eq-ok, assert}
use dragongo.TypeStore.{
  Shape, array_t, float_t, function_t, integer_t, pointer_t, struct_t, aux_t, Btype, Store, at,
  is_unresolved_placeholder,
}
use dragongo.TypeStore.Equal.{Hashes}
use dragongo.TypeStore.Setters.{put, set_type, set_to_type, set_placeholder}
use dragongo.TypeStore.Updates.{at-put, at-put_other, set_type-put, set_placeholder-put}
use dragongo.TypeManager.{Llvm, TypeManager}
use dragongo.TypeManager.Circular.{close_loop, follow_from, follow_loop}
use dragongo.TypeManager.Resolve.{resolved_type, resolve_one}
use dragongo.TypeManager.Redirect.{assert_placeholder, await_or_resolve, redirect_pointer}
use dragongo.TypeManager.Settled.{completed, Settling, post_process-Settles}
use dragongo.TypeManager.Completed.{resolve_one-completed}

pointed :
    (s : Store) (a to : ℕ) (x : Btype) (sh : Shape) {u : Store}
    → x.shape ≡ sh
    → at s a ≡ ok x
    → set_to_type s a to ≡ ok u
    → u ≡ put s a (record x { shape = pointer_t (some to) })
unfolding set_to_type
pointed s a to x (pointer_t p) sh h e = let k = rw (h, sh) at e in ground arith
pointed s a to x aux_t sh h e = let k = rw (h, sh) at e in ground arith
pointed s a to x (integer_t b u) sh h e = let k = rw (h, sh) at e in ground arith
pointed s a to x (float_t b) sh h e = let k = rw (h, sh) at e in ground arith
pointed s a to x (function_t g) sh h e = let k = rw (h, sh) at e in ground arith
pointed s a to x (struct_t fs) sh h e = let k = rw (h, sh) at e in ground arith
pointed s a to x (array_t b n) sh h e = let k = rw (h, sh) at e in ground arith

follow_from-types :
    (m : TypeManager) (a to : ℕ) (ps : List (ℕ × ℕ)) → (follow_from m a to ps).types ≡ m.types
unfolding follow_from close_loop
follow_from-types m a to [] = refl
follow_from-types m a to (p ∷ ps) = elim (Bool-cases (to == p.1)) [
  | inl e ↦ rw e refl
  | inr e ↦ rw e refl
]

pub follow_loop-types : (m : TypeManager) (a to : ℕ) → (follow_loop m a to).types ≡ m.types
unfolding follow_loop
follow_loop-types m a to = follow_from-types m a to m.circular_pointer_loop

-- The redirected pointer itself.
abbrev pub redirected : Btype → ℕ → ℕ → Btype
redirected x to t = record x { shape = pointer_t (some to); type = some t }

module _ (lv : Llvm) (hs : Hashes) (fuel rounds : ℕ) where
  resolved_at_once :
      (m : TypeManager) (placeholder to : ℕ) (x b : Btype) {m₁ : TypeManager}
      → at m.types placeholder ≡ ok x
      → at m.types to ≡ ok b
      → is_unresolved_placeholder b ≡ false
      → await_or_resolve lv hs fuel rounds m placeholder to ≡ ok m₁
      → at m₁.types placeholder ≡ ok (record x { is_placeholder = false })
  unfolding await_or_resolve
  resolved_at_once m placeholder to x b {m₁} h k con e =
      let e₁ = rw (k, con) at e in
      let (u, f, e₂) = >>=-eq-ok (set_placeholder m.types placeholder false) _ e₁ in
      let once = set_placeholder-put m.types placeholder x false h in
      let y : Btype = record x { is_placeholder = false } in
      let made : u ≡ put m.types placeholder y = ground arith in
      let there : at u placeholder ≡ ok y =
        subst (λ s. at s placeholder ≡ ok y) (sym made) (at-put m.types placeholder x y h) in
      let (z, at_z, s) =
        (post_process-Settles lv hs fuel rounds (record m { types = u }) placeholder m₁ e₂).types
          placeholder y there in
      subst (λ k. at m₁.types placeholder ≡ ok k) (s.concrete refl) at_z

  -- What a redirection does before other types are completed, and what it does last.
  pub record Redirects (m : TypeManager) (placeholder to : ℕ) (y : Btype) (m₁ : TypeManager)
      : Type 0 where
    pub types : Store
    pub after : TypeManager
    pub changed : at types placeholder ≡ ok y
    pub same : (j : ℕ) → placeholder ≢ j → at types j ≡ at m.types j
    pub next :
        await_or_resolve lv hs fuel rounds (record m { types = types }) placeholder to ≡ ok after
    pub followed : follow_loop after placeholder to ≡ m₁

  pub redirect_pointer-Redirects :
      (m : TypeManager) (placeholder to : ℕ) (x b : Btype) (t : ℕ) (v : Bool) (m₁ : TypeManager)
      → at m.types placeholder ≡ ok x
      → at m.types to ≡ ok b
      → b.type ≡ some t
      → redirect_pointer lv hs fuel rounds m placeholder to ≡ ok (v, m₁)
      → Redirects m placeholder to (redirected x to t) m₁
  unfolding redirect_pointer
  redirect_pointer-Redirects m placeholder to x b t v m₁ h k ty e =
      let e₁ = rw (k, ty) at e in
      let (_, _, e₂) = >>=-eq-ok (assert (lv.is_pointer t)) _ e₁ in
      let (_, _, e₃) = >>=-eq-ok (assert_placeholder lv hs fuel rounds m placeholder) _ e₂ in
      let (s₁, f, e₄) = >>=-eq-ok (set_to_type m.types placeholder to) _ e₃ in
      let (s₂, g, e₅) = >>=-eq-ok (set_type s₁ placeholder (some t)) _ e₄ in
      let (m₂, i, e₆) =
        >>=-eq-ok (await_or_resolve lv hs fuel rounds (record m { types = s₂ }) placeholder to) _
          e₅ in
      let y : Btype = record x { shape = pointer_t (some to) } in
      let p₁ = pointed m.types placeholder to x x.shape refl h f in
      let at₁ : at s₁ placeholder ≡ ok y =
        subst (λ s. at s placeholder ≡ ok y) (sym p₁) (at-put m.types placeholder x y h) in
      let once = set_type-put s₁ placeholder y t at₁ in
      let p₂ : s₂ ≡ put s₁ placeholder (redirected x to t) = ground arith in
      record {
        types = s₂;
        after = m₂;
        changed =
            subst (λ s. at s placeholder ≡ ok (redirected x to t)) (sym p₂)
              (at-put s₁ placeholder y (redirected x to t) at₁);
        same = λ j apart.
            subst (λ s. at s j ≡ at s₁ j) (sym p₂)
              (at-put_other s₁ placeholder j (redirected x to t) apart)
            ∙ subst (λ s. at s j ≡ at m.types j) (sym p₁)
                (at-put_other m.types placeholder j y apart);
        next = i;
        followed = ground arith;
      }

  -- A placeholder pointer that is redirected to a concrete type gets that type's LLVM type and is
  -- concrete itself, also after all types that waited for it have been completed.
  pub redirect_pointer-now :
      (m : TypeManager) (placeholder to : ℕ) (x b : Btype) (t : ℕ) (v : Bool) (m₁ : TypeManager)
      → placeholder ≢ to
      → at m.types placeholder ≡ ok x
      → at m.types to ≡ ok b
      → b.type ≡ some t
      → is_unresolved_placeholder b ≡ false
      → redirect_pointer lv hs fuel rounds m placeholder to ≡ ok (v, m₁)
      → at m₁.types placeholder ≡ ok (completed (redirected x to t) t)
  redirect_pointer-now m placeholder to x b t v m₁ apart h k ty con e =
      let r = redirect_pointer-Redirects m placeholder to x b t v m₁ h k ty e in
      let end =
        resolved_at_once (record m { types = r.types }) placeholder to (redirected x to t) b
          r.changed (r.same to apart ∙ k) con r.next in
      let types =
        sym (follow_loop-types r.after placeholder to)
        ∙ ap (λ (n : TypeManager). n.types) r.followed in
      subst (λ s. at s placeholder ≡ ok (completed (redirected x to t) t)) types end

module _ (lv : Llvm) (hs : Hashes) (fuel : ℕ) where
  pub resolve_one-later :
      (post : TypeManager → ℕ → Run TypeManager)
      → Settling lv hs fuel post
      → (m m₁ : TypeManager) (r a t : ℕ) (x b : Btype) (to : Option ℕ) → at m.types r ≡ ok x
      → x.shape ≡ pointer_t to
      → x.is_placeholder ≡ true
      → at m.types a ≡ ok b
      → b.type ≡ some t
      → resolve_one lv hs fuel post m r a ≡ ok m₁
      → at m₁.types r ≡ ok (completed x (lv.pointer_to t))
  unfolding resolved_type
  resolve_one-later post settling m m₁ r a t x b to h sh p k ty e =
      let (u, f, end) = resolve_one-completed lv hs fuel post settling m r a x h (rw sh refl) p e in
      let g = rw (sh, k, ty) at f in
      let same : u ≡ lv.pointer_to t = ground arith in
      subst (λ d. at m₁.types r ≡ ok (completed x d)) same end
