-- ===== src/TypeManager/Rounds.antt =====
-- How many rounds completing types in go-llvm-typemanager.cpp takes.
use dragongo.Common.{
  ℕ, zero, suc, ◌<◌, true, false, List, [], ◌∷◌, ◌≡◌, ◌≢◌, refl, arith, subst, sym, Bool-cases,
  Option-cases, inl, inr,
}
use dragongo.Common.Run.{Run, ok, stop, out_of_rounds, >>=-rounds}
use dragongo.TypeStore.{BtypedIdentifier, Shape, struct_t, Btype, at}
use dragongo.TypeStore.Equal.{Hashes}
use dragongo.TypeStore.Updates.{unresolved, unresolved-put}
use dragongo.TypeManager.{Llvm, TypeManager, lookup}
use dragongo.TypeManager.Structs.{field_llvm_types}
use dragongo.TypeManager.Resolve.{
  waits_for_more, set_body, replace_type, resolved_type, resolve_struct, resolve_other,
  resolve_shape, resolve_one, resolve_each, resolve_refs, post_process,
}
use dragongo.TypeManager.Settled.{
  completed, replace_type-types, set_body-types, Settling, resolve_one-Settles,
  post_process-Settles,
}
use dragongo.TypeManager.Steps.{
  Ends, ok-Ends, if-Ends, at-Ends, replace_type-Ends, field_llvm_types-Ends, waits_for_more-Ends,
  set_body-Ends, resolved_type-Ends,
}

module _ (lv : Llvm) (hs : Hashes) (fuel : ℕ) where
  -- Completing the types that wait for one type ends where few placeholders are left.
  abbrev Ending : ℕ → (TypeManager → ℕ → Run TypeManager) → Type 0
  Ending rounds post = (m : TypeManager) (a : ℕ) → unresolved m.types < rounds → Ends (post m a)

  module _ (rounds : ℕ) (post : TypeManager → ℕ → Run TypeManager)
      (settling : Settling lv hs fuel post) (ending : Ending rounds post) where
    resolve_other-Ends :
        (m : TypeManager) (r a : ℕ) (sh : Shape) (x : Btype)
        → at m.types r ≡ ok x
        → x.is_placeholder ≡ true
        → unresolved m.types < suc rounds
        → Ends (resolve_other lv hs fuel post m r a sh)
    unfolding resolve_other
    resolve_other-Ends m r a sh x h p few =
        >>=-rounds (resolved_type lv hs fuel m a sh) _ (resolved_type-Ends lv hs fuel m a sh) λ t f.
          >>=-rounds (replace_type lv hs fuel m r t) _ (replace_type-Ends hs fuel lv m r t) λ m₁ g.
            let same = replace_type-types hs fuel lv m r t x h g in
            let less = unresolved-put m.types r x (completed x t) h p refl in
            ending m₁ r (subst (λ k. unresolved k < rounds) (sym same) (omega (arith, less, few)))

    resolve_struct-Ends :
        (m : TypeManager) (r a : ℕ) (fields : List BtypedIdentifier) (x : Btype)
        → at m.types r ≡ ok x
        → x.is_placeholder ≡ true
        → unresolved m.types < suc rounds
        → Ends (resolve_struct lv hs fuel post m r a fields)
    unfolding resolve_struct
    resolve_struct-Ends m r a fields x h p few =
        >>=-rounds (waits_for_more m.types a fields) _ (waits_for_more-Ends _ a fields) λ waits f.
          if-Ends waits (ok m) _ (ok-Ends m) (
            >>=-rounds (field_llvm_types m.types fields) _ (field_llvm_types-Ends _ fields)
              λ elems k. >>=-rounds (set_body m r elems) _ (set_body-Ends m r elems) λ m₁ g.
                let same = set_body-types m r elems x h g in
                let less =
                  unresolved-put m.types r x (record x { is_placeholder = false }) h p refl in
                ending m₁ r
                  (subst (λ k. unresolved k < rounds) (sym same) (omega (arith, less, few))))

    resolve_shape-Ends :
        (m : TypeManager) (r a : ℕ) (sh : Shape) (x : Btype)
        → at m.types r ≡ ok x
        → x.is_placeholder ≡ true
        → unresolved m.types < suc rounds
        → Ends (resolve_shape lv hs fuel post m r a sh)
    unfolding resolve_shape
    resolve_shape-Ends m r a (struct_t fields) x h p few =
        resolve_struct-Ends m r a fields x h p few
    resolve_shape-Ends m r a sh x h p few = resolve_other-Ends m r a sh x h p few

    resolve_one-Ends :
        (m : TypeManager) (r a : ℕ)
        → unresolved m.types < suc rounds
        → Ends (resolve_one lv hs fuel post m r a)
    unfolding resolve_one
    resolve_one-Ends m r a few = >>=-rounds (at m.types r) _ (at-Ends _ r) λ x h.
        elim (Bool-cases x.is_placeholder) [
          | inl p ↦ rw p (resolve_shape-Ends m r a x.shape x h p few)
          | inr p ↦ rw p (ok-Ends m)
        ]

    resolve_each-Ends :
        (m : TypeManager) (a : ℕ) (rs : List ℕ)
        → unresolved m.types < suc rounds
        → Ends (resolve_each lv hs fuel post m a rs)
    unfolding resolve_each
    resolve_each-Ends m a [] few = ok-Ends m
    resolve_each-Ends m a (r ∷ rs) few =
        >>=-rounds (resolve_one lv hs fuel post m r a) _ (resolve_one-Ends m r a few) λ m₁ f.
          let s = resolve_one-Settles lv hs fuel post settling m r a f in
          resolve_each-Ends m₁ a rs (omega (arith, s.no_more, few))

    resolve_refs-Ends :
        (m : TypeManager) (a : ℕ)
        → unresolved m.types < suc rounds
        → Ends (resolve_refs lv hs fuel post m a)
    unfolding resolve_refs
    resolve_refs-Ends m a few = elim (Option-cases (lookup a m.placeholder_refs)) [
      | inl n ↦ rw (n, resolve_refs) (ok-Ends m)
      | inr (rs, n) ↦ rw (n, resolve_refs) (resolve_each-Ends m a rs few)
    ]

  -- Completing types ends: more rounds than there are placeholders are enough, whichever types
  -- wait for each other, cycles included, because each round turns a placeholder into a concrete
  -- type before it goes on.
  pub post_process-Ends :
      (rounds : ℕ) (m : TypeManager) (a : ℕ)
      → unresolved m.types < rounds
      → post_process lv hs fuel rounds m a ≢ stop out_of_rounds
  unfolding post_process
  post_process-Ends zero m a few = absurd (omega arith)
  post_process-Ends (suc rounds) m a few =
      resolve_refs-Ends rounds (post_process lv hs fuel rounds)
        (post_process-Settles lv hs fuel rounds) (post_process-Ends rounds) m a few
