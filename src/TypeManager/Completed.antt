-- ===== src/TypeManager/Completed.antt =====
-- Which types go-llvm-typemanager.cpp has completed when a placeholder is resolved.
use dragongo.Common.{
  ℕ, zero, suc, true, false, some, List, [], ◌∷◌, ◌≡◌, refl, arith, subst, sym, ◌∙◌, Bool-cases,
  inl, inr, All,
}
use dragongo.Common.Run.{Run, ok, >>=-eq-ok}
use dragongo.TypeStore.{Shape, struct_t, is_struct, Store, Btype, at}
use dragongo.TypeStore.Equal.{Hashes}
use dragongo.TypeStore.Updates.{at-put, Settles}
use dragongo.TypeManager.{Llvm, TypeManager, lookup}
use dragongo.TypeManager.Resolve.{
  replace_type, resolved_type, resolve_other, resolve_shape, resolve_one, resolve_each,
  resolve_refs, post_process,
}
use dragongo.TypeManager.Settled.{
  completed, replace_type-types, Settling, resolve_one-Settles, resolve_each-Settles,
  post_process-Settles,
}

-- At `r` stands a structure, or a type that is concrete.
abbrev pub IsComplete : Store → ℕ → Type 0
IsComplete s r = (y : Btype) → at s r ≡ ok y → is_struct y.shape ≡ false → y.is_placeholder ≡ false

-- What is complete stays so.
Settles-IsComplete :
    {s t : Store} (r : ℕ) {x : Btype}
    → Settles s t
    → at s r ≡ ok x
    → IsComplete s r
    → IsComplete t r
Settles-IsComplete r {x} h at_x c y at_y n =
    let (z, at_z, s) = h.types r x at_x in
    let same : z ≡ y = ground arith in
    let shape : y.shape ≡ x.shape = subst (λ (k : Btype). k.shape ≡ x.shape) same s.shape in
    let p = c x at_x (rw shape at n) in
    subst (λ (k : Btype). k.is_placeholder ≡ false) (sym (s.concrete p) ∙ same) p

module _ (lv : Llvm) (hs : Hashes) (fuel : ℕ) where
  module _ (post : TypeManager → ℕ → Run TypeManager) (settling : Settling lv hs fuel post) where
    resolve_other-completed :
        (m : TypeManager) (r a : ℕ) (sh : Shape) (x : Btype) (t : ℕ) {m₁ : TypeManager}
        → at m.types r ≡ ok x
        → resolved_type lv hs fuel m a sh ≡ ok t
        → resolve_other lv hs fuel post m r a sh ≡ ok m₁
        → at m₁.types r ≡ ok (completed x t)
    unfolding resolve_other
    resolve_other-completed m r a sh x t {m₁} h f e =
        let (m₂, g, e₂) = >>=-eq-ok (replace_type lv hs fuel m r t) _ (rw f at e) in
        let same = replace_type-types hs fuel lv m r t x h g in
        let there : at m₂.types r ≡ ok (completed x t) =
          subst (λ k. at k r ≡ ok (completed x t)) (sym same)
            (at-put m.types r x (completed x t) h) in
        let (y, at_y, s) = (settling m₂ r m₁ e₂).types r (completed x t) there in
        subst (λ k. at m₁.types r ≡ ok k) (s.concrete refl) at_y

    resolve_shape-completed :
        (m : TypeManager) (r a : ℕ) (sh : Shape) (x : Btype) {m₁ : TypeManager}
        → at m.types r ≡ ok x
        → is_struct sh ≡ false
        → resolve_shape lv hs fuel post m r a sh ≡ ok m₁
        → (t : ℕ) × (resolved_type lv hs fuel m a sh ≡ ok t) × (at m₁.types r ≡ ok (completed x t))
    unfolding resolve_shape resolve_other
    resolve_shape-completed m r a (struct_t fields) x h n e = ground arith
    resolve_shape-completed m r a sh x h n e =
        let (t, f, e₁) = >>=-eq-ok (resolved_type lv hs fuel m a sh) _ e in
        (t, f, resolve_other-completed m r a sh x t h f e)

    -- A pointer, array or function type that is a placeholder gets its LLVM type, and keeps it while
    -- the types that wait for it are completed.
    pub resolve_one-completed :
        (m : TypeManager) (r a : ℕ) (x : Btype) {m₁ : TypeManager}
        → at m.types r ≡ ok x
        → is_struct x.shape ≡ false
        → x.is_placeholder ≡ true
        → resolve_one lv hs fuel post m r a ≡ ok m₁
        → (t : ℕ) × (resolved_type lv hs fuel m a x.shape ≡ ok t)
          × (at m₁.types r ≡ ok (completed x t))
    unfolding resolve_one
    resolve_one-completed m r a x {m₁} h n p e =
        let e₁ : resolve_shape lv hs fuel post m r a x.shape ≡ ok m₁ = rw (h, p) at e in
        resolve_shape-completed m r a x.shape x h n e₁

    resolve_one-IsComplete :
        (m : TypeManager) (r a : ℕ) {m₁ : TypeManager}
        → resolve_one lv hs fuel post m r a ≡ ok m₁
        → IsComplete m₁.types r
    unfolding resolve_one
    resolve_one-IsComplete m r a {m₁} e y at_y n =
        let (x, h, e₁) = >>=-eq-ok (at m.types r) _ e in
        let (z, at_z, s) = (resolve_one-Settles lv hs fuel post settling m r a e).types r x h in
        let same : z ≡ y = ground arith in
        let shape : y.shape ≡ x.shape = subst (λ (k : Btype). k.shape ≡ x.shape) same s.shape in
        elim (Bool-cases x.is_placeholder) [
          | inl p ↦
              let (t, f, c) = resolve_one-completed m r a x h (rw shape at n) p e in
              let d : completed x t ≡ y = ground arith in
              subst (λ (k : Btype). k.is_placeholder ≡ false) d refl
          | inr p ↦ subst (λ (k : Btype). k.is_placeholder ≡ false) (sym (s.concrete p) ∙ same) p
        ]

    resolve_one-found :
        (m : TypeManager) (r a : ℕ) {m₁ : TypeManager}
        → resolve_one lv hs fuel post m r a ≡ ok m₁
        → (x : Btype) × (at m₁.types r ≡ ok x)
    unfolding resolve_one
    resolve_one-found m r a e =
        let (x, h, _) = >>=-eq-ok (at m.types r) _ e in
        let (z, at_z, s) = (resolve_one-Settles lv hs fuel post settling m r a e).types r x h in
        (z, at_z)

    resolve_each-IsComplete :
        (m : TypeManager) (a : ℕ) (rs : List ℕ) {m₁ : TypeManager}
        → resolve_each lv hs fuel post m a rs ≡ ok m₁
        → All (IsComplete m₁.types) rs
    unfolding resolve_each
    resolve_each-IsComplete m a [] e = tt
    resolve_each-IsComplete m a (r ∷ rs) {m₁} e =
        let (m₂, f, e₁) = >>=-eq-ok (resolve_one lv hs fuel post m r a) _ e in
        let (x, at_x) = resolve_one-found m r a f in
        let c = resolve_one-IsComplete m r a f in
        (
          Settles-IsComplete r (resolve_each-Settles lv hs fuel post settling m₂ a rs e₁) at_x c,
          resolve_each-IsComplete m₂ a rs e₁,
        )

  -- When completing the types that wait for `a` succeeds, every one of them that is no structure is
  -- concrete afterwards: none is forgotten, and none is left half done.
  pub post_process-IsComplete :
      (rounds : ℕ) (m : TypeManager) (a : ℕ) (rs : List ℕ) (m₁ : TypeManager)
      → lookup a m.placeholder_refs ≡ some rs
      → post_process lv hs fuel rounds m a ≡ ok m₁
      → All (IsComplete m₁.types) rs
  unfolding post_process resolve_refs
  post_process-IsComplete zero m a rs m₁ n e = ground arith
  post_process-IsComplete (suc rounds) m a rs m₁ n e =
      resolve_each-IsComplete (post_process lv hs fuel rounds)
        (post_process-Settles lv hs fuel rounds) m a rs (rw (n, resolve_refs) at e)
