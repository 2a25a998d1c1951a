-- ===== src/TypeManager/Settled.antt =====
-- What completing types in go-llvm-typemanager.cpp does to the types that exist.
use dragongo.Common.{
  ℕ, zero, suc, Bool, true, false, some, List, [], ◌∷◌, ◌≡◌, refl, sym, ◌∙◌, arith, subst,
  Bool-cases, Option-cases, inl, inr, if◌then◌else◌,
}
use dragongo.Common.Run.{Run, ok, ◌>>=◌, >>=-eq-ok, deref}
use dragongo.TypeStore.{BtypedIdentifier, Shape, struct_t, Store, Btype, at}
use dragongo.TypeStore.Equal.{Hashes}
use dragongo.TypeStore.Setters.{put, set_type, set_placeholder}
use dragongo.TypeStore.Updates.{
  at-put, set_type-put, set_placeholder-put, put-put, Settles, Settles-refl, Settles-trans,
  put-Settles,
}
use dragongo.TypeManager.{Llvm, TypeManager, lookup}
use dragongo.TypeManager.Anon.{find_equal, remove_anon_type, reinstall_anon_type}
use dragongo.TypeManager.Structs.{field_llvm_types}
use dragongo.TypeManager.Resolve.{
  waits_for_more, set_body, replace_type, resolved_type, resolve_struct, resolve_other,
  resolve_shape, resolve_one, resolve_each, resolve_refs, post_process,
}

-- A type that has got its LLVM type.
abbrev pub completed : Btype → ℕ → Btype
completed x t = record x { type = some t; is_placeholder = false }

module _ (hs : Hashes) (fuel : ℕ) where
  remove_anon_type-types :
      (m : TypeManager) (r : ℕ) (was : Bool) {m₁ : TypeManager}
      → remove_anon_type hs fuel m r ≡ ok (was, m₁)
      → m₁.types ≡ m.types
  unfolding remove_anon_type
  remove_anon_type-types m r was {m₁} e =
      let (hit, f, e₁) = >>=-eq-ok (find_equal hs fuel m.types r m.anon_types) _ e in
      elim (Option-cases hit) [
        | inl n ↦ let k = rw n at e₁ in ground arith
        | inr (a, n) ↦ let k = rw n at e₁ in ground arith
      ]

  reinstall_anon_type-types :
      (m : TypeManager) (r : ℕ) {m₁ : TypeManager}
      → reinstall_anon_type hs fuel m r ≡ ok m₁
      → m₁.types ≡ m.types
  unfolding reinstall_anon_type
  reinstall_anon_type-types m r {m₁} e =
      let (hit, f, e₁) = >>=-eq-ok (find_equal hs fuel m.types r m.anon_types) _ e in
      elim (Option-cases hit) [
        | inl n ↦ let k = rw n at e₁ in ground arith
        | inr (a, n) ↦ let k = rw n at e₁ in ground arith
      ]

  -- Replacing the LLVM type of a placeholder is one update.
  retyped :
      (s : Store) (r t : ℕ) (x : Btype)
      → at s r ≡ ok x
      → (set_type s r (some t) >>= λ u. set_placeholder u r false) ≡ ok (put s r (completed x t))
  retyped s r t x h =
      let y : Btype = record x { type = some t } in
      rw
        (
          set_type-put s r x t h,
          set_placeholder-put (put s r y) r y false (at-put s r x y h),
          put-put s r y (completed x t),
        )
        refl

  put_back :
      (m : TypeManager) (r : ℕ) (was : Bool) (u : Store) {m₁ : TypeManager}
      → (if was
          then reinstall_anon_type hs fuel (record m { types = u }) r
          else ok (record m { types = u }))
        ≡ ok m₁
      → m₁.types ≡ u
  put_back m r true u e = reinstall_anon_type-types (record m { types = u }) r e
  put_back m r false u e = ground arith

  module _ (lv : Llvm) where
    pub replace_type-types :
        (m : TypeManager) (r t : ℕ) (x : Btype) {m₁ : TypeManager}
        → at m.types r ≡ ok x
        → replace_type lv hs fuel m r t ≡ ok m₁
        → m₁.types ≡ put m.types r (completed x t)
    unfolding replace_type
    replace_type-types m r t x {m₁} h e =
        let ((was, m₂), removed, e₁) = >>=-eq-ok (remove_anon_type hs fuel m r) _ e in
        let same = remove_anon_type-types m r was removed in
        let (v, a, e₂) = >>=-eq-ok (set_type m₂.types r (some t)) _ e₁ in
        let (u, b, e₃) = >>=-eq-ok (set_placeholder v r false) _ e₂ in
        let once = retyped m.types r t x h in
        let a₁ = subst (λ k. set_type k r (some t) ≡ ok v) same a in
        let made : u ≡ put m.types r (completed x t) = let k = rw (a₁, b) at once in ground arith in
        put_back m₂ r was u e₃ ∙ made

pub set_body-types :
    (m : TypeManager) (r : ℕ) (elems : List ℕ) (x : Btype) {m₁ : TypeManager}
    → at m.types r ≡ ok x
    → set_body m r elems ≡ ok m₁
    → m₁.types ≡ put m.types r (record x { is_placeholder = false })
unfolding set_body
set_body-types m r elems x h e =
    let (b, f, e₁) = >>=-eq-ok (at m.types r) _ e in
    let (t, g, e₂) = >>=-eq-ok (deref b.type) _ e₁ in
    let (u, k, e₃) = >>=-eq-ok (set_placeholder m.types r false) _ e₂ in
    let once = set_placeholder-put m.types r x false h in ground arith

module _ (lv : Llvm) (hs : Hashes) (fuel : ℕ) where
  -- The step for the types that wait for the next one only settles types.
  abbrev pub Settling : (TypeManager → ℕ → Run TypeManager) → Type 0
  Settling post =
      (m : TypeManager) (a : ℕ) (m₁ : TypeManager) → post m a ≡ ok m₁ → Settles m.types m₁.types

  module _ (post : TypeManager → ℕ → Run TypeManager) (settling : Settling post) where
    resolve_other-Settles :
        (m : TypeManager) (r a : ℕ) (sh : Shape) (x : Btype) {m₁ : TypeManager}
        → at m.types r ≡ ok x
        → x.is_placeholder ≡ true
        → resolve_other lv hs fuel post m r a sh ≡ ok m₁
        → Settles m.types m₁.types
    unfolding resolve_other
    resolve_other-Settles m r a sh x {m₁} h p e =
        let (t, f, e₁) = >>=-eq-ok (resolved_type lv hs fuel m a sh) _ e in
        let (m₂, g, e₂) = >>=-eq-ok (replace_type lv hs fuel m r t) _ e₁ in
        let same = replace_type-types hs fuel lv m r t x h g in
        let first : Settles m.types m₂.types =
          subst (Settles m.types) (sym same)
            (put-Settles m.types r x (completed x t) h p refl refl refl) in
        Settles-trans first (settling m₂ r m₁ e₂)

    resolve_struct-Settles :
        (m : TypeManager) (r a : ℕ) (fields : List BtypedIdentifier) (x : Btype) {m₁ : TypeManager}
        → at m.types r ≡ ok x
        → x.is_placeholder ≡ true
        → resolve_struct lv hs fuel post m r a fields ≡ ok m₁
        → Settles m.types m₁.types
    unfolding resolve_struct
    resolve_struct-Settles m r a fields x {m₁} h p e =
        let (waits, f, e₁) = >>=-eq-ok (waits_for_more m.types a fields) _ e in
        elim (Bool-cases waits) [
          | inl w ↦
              let k : m ≡ m₁ = let j = rw w at e₁ in ground arith in
              subst (λ (n : TypeManager). Settles m.types n.types) k Settles-refl
          | inr w ↦
              let (elems, g, e₂) = >>=-eq-ok (field_llvm_types m.types fields) _ (rw w at e₁) in
              let (m₂, b, e₃) = >>=-eq-ok (set_body m r elems) _ e₂ in
              let same = set_body-types m r elems x h b in
              let first : Settles m.types m₂.types = subst (Settles m.types) (sym same) (
                put-Settles m.types r x (record x { is_placeholder = false }) h p refl refl refl) in
              Settles-trans first (settling m₂ r m₁ e₃)
        ]

    resolve_shape-Settles :
        (m : TypeManager) (r a : ℕ) (sh : Shape) (x : Btype) {m₁ : TypeManager}
        → at m.types r ≡ ok x
        → x.is_placeholder ≡ true
        → resolve_shape lv hs fuel post m r a sh ≡ ok m₁
        → Settles m.types m₁.types
    unfolding resolve_shape
    resolve_shape-Settles m r a (struct_t fields) x h p e =
        resolve_struct-Settles m r a fields x h p e
    resolve_shape-Settles m r a sh x h p e = resolve_other-Settles m r a sh x h p e

    pub resolve_one-Settles :
        (m : TypeManager) (r a : ℕ) {m₁ : TypeManager}
        → resolve_one lv hs fuel post m r a ≡ ok m₁
        → Settles m.types m₁.types
    unfolding resolve_one
    resolve_one-Settles m r a {m₁} e =
        let (x, h, e₁) = >>=-eq-ok (at m.types r) _ e in
        elim (Bool-cases x.is_placeholder) [
          | inl p ↦ resolve_shape-Settles m r a x.shape x h p (rw p at e₁)
          | inr p ↦
              let k : m ≡ m₁ = let j = rw p at e₁ in ground arith in
              subst (λ (n : TypeManager). Settles m.types n.types) k Settles-refl
        ]

    pub resolve_each-Settles :
        (m : TypeManager) (a : ℕ) (rs : List ℕ) {m₁ : TypeManager}
        → resolve_each lv hs fuel post m a rs ≡ ok m₁
        → Settles m.types m₁.types
    unfolding resolve_each
    resolve_each-Settles m a [] {m₁} e =
        let k : m ≡ m₁ = ground arith in
        subst (λ (n : TypeManager). Settles m.types n.types) k Settles-refl
    resolve_each-Settles m a (r ∷ rs) {m₁} e =
        let (m₂, f, e₁) = >>=-eq-ok (resolve_one lv hs fuel post m r a) _ e in
        Settles-trans (resolve_one-Settles m r a f) (resolve_each-Settles m₂ a rs e₁)

  resolve_refs-Settles :
      (post : TypeManager → ℕ → Run TypeManager)
      → Settling post
      → (m : TypeManager) (a : ℕ) (m₁ : TypeManager) → resolve_refs lv hs fuel post m a ≡ ok m₁
      → Settles m.types m₁.types
  unfolding resolve_refs
  resolve_refs-Settles post settling m a m₁ e = elim (Option-cases (lookup a m.placeholder_refs)) [
    | inl n ↦
        let k : m ≡ m₁ = let j = rw (n, resolve_refs) at e in ground arith in
        subst (λ (t : TypeManager). Settles m.types t.types) k Settles-refl
    | inr (rs, n) ↦ resolve_each-Settles post settling m a rs (rw (n, resolve_refs) at e)
  ]

  -- Completing the types that wait for a type leaves every concrete type exactly as it was; a
  -- placeholder keeps its name, its flavour and its children, and no type becomes a placeholder
  -- again, so that there are never more of them than before.
  pub post_process-Settles :
      (rounds : ℕ) (m : TypeManager) (a : ℕ) (m₁ : TypeManager)
      → post_process lv hs fuel rounds m a ≡ ok m₁
      → Settles m.types m₁.types
  unfolding post_process
  post_process-Settles zero m a m₁ e = ground arith
  post_process-Settles (suc rounds) m a m₁ e =
      resolve_refs-Settles (post_process lv hs fuel rounds) (post_process-Settles rounds) m a m₁ e
