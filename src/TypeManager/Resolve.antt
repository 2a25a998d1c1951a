-- ===== src/TypeManager/Resolve.antt =====
-- `postProcessResolvedPlaceholder` of go-llvm-typemanager.cpp: a type has become concrete, and the
-- types that wait for it are completed, and those that wait for them.
use dragongo.Common.{
  ℕ, zero, suc, Bool, false, not, ◌&&◌, ◌||◌, none, some, List, [], ◌∷◌, ◌==◌, if◌then◌else◌,
}
use dragongo.Common.Run.{Run, ok, stop, assertion, out_of_rounds, ◌>>=◌, deref}
use dragongo.TypeStore.{
  BtypedIdentifier, Shape, array_t, pointer_t, struct_t, function_t, Store, at,
  is_unresolved_placeholder,
}
use dragongo.TypeStore.Equal.{Hashes, nel_size}
use dragongo.TypeStore.Setters.{set_type, set_placeholder}
use dragongo.TypeManager.{Llvm, TypeManager, lookup, insert_at}
use dragongo.TypeManager.Anon.{remove_anon_type, reinstall_anon_type}
use dragongo.TypeManager.Structs.{field_llvm_types}
use dragongo.TypeManager.Functions.{abi_function_type}

-- Whether a field other than those of type `a` is still unresolved.
unfoldable pub waits_for_more : Store → ℕ → List BtypedIdentifier → Run Bool
waits_for_more s a [] = ok false
waits_for_more s a (f ∷ fs) = do
  b ← at s f.btype
  rest ← waits_for_more s a fs
  ok ((not (a == f.btype) && is_unresolved_placeholder b) || rest)

-- `cast<StructType>(type())->setBody(elems)` and `setPlaceholder(false)`
unfoldable pub set_body : TypeManager → ℕ → List ℕ → Run TypeManager
set_body m r elems = do
  b ← at m.types r
  t ← deref b.type
  types ← set_placeholder m.types r false
  ok (record m { types = types; bodies = insert_at t elems m.bodies })

module _ (lv : Llvm) (hs : Hashes) (fuel : ℕ) where
  -- The LLVM type of `r` is replaced and its flag cleared. Its hash changes, so it is taken out of
  -- the set before and put back after.
  unfoldable pub replace_type : TypeManager → ℕ → ℕ → Run TypeManager
  replace_type m r t = do
    (was_hashed, m₁) ← remove_anon_type hs fuel m r
    retyped ← set_type m₁.types r (some t)
    types ← set_placeholder retyped r false
    if was_hashed
        then reinstall_anon_type hs fuel (record m₁ { types = types }) r
        else ok (record m₁ { types = types })

  -- The LLVM type that the pointer, array or function type `r` gets, now that `a` is concrete.
  unfoldable pub resolved_type : TypeManager → ℕ → Shape → Run ℕ
  resolved_type m a (pointer_t to) = do b ← at m.types a; t ← deref b.type; ok (lv.pointer_to t)
  resolved_type m a (array_t elem nelements) = do
    n ← nel_size nelements
    b ← at m.types a
    t ← deref b.type
    ok (lv.array_of t n)
  resolved_type m a (function_t g) =
      abi_function_type lv fuel m g.param_types g.rtype g.follows_cabi
  resolved_type m a _ = stop assertion

  module _ (post_process : TypeManager → ℕ → Run TypeManager) where
    -- `postProcessResolvedStructPlaceholder`
    unfoldable pub resolve_struct : TypeManager → ℕ → ℕ → List BtypedIdentifier → Run TypeManager
    resolve_struct m r a fields = do
      waits ← waits_for_more m.types a fields
      if waits then ok m else (do
        elems ← field_llvm_types m.types fields
        m₁ ← set_body m r elems
        post_process m₁ r)

    -- The methods for pointers, arrays and functions.
    unfoldable pub resolve_other : TypeManager → ℕ → ℕ → Shape → Run TypeManager
    resolve_other m r a sh = do t ← resolved_type m a sh; m₁ ← replace_type m r t; post_process m₁ r

    unfoldable pub resolve_shape : TypeManager → ℕ → ℕ → Shape → Run TypeManager
    resolve_shape m r a (struct_t fields) = resolve_struct m r a fields
    resolve_shape m r a sh = resolve_other m r a sh

    -- One type `r` that waits for `a`.
    unfoldable pub resolve_one : TypeManager → ℕ → ℕ → Run TypeManager
    resolve_one m r a = do
      b ← at m.types r
      if b.is_placeholder then resolve_shape m r a b.shape else ok m

    -- The loop over the types that wait for `a`.
    unfoldable pub resolve_each : TypeManager → ℕ → List ℕ → Run TypeManager
    resolve_each m a [] = ok m
    resolve_each m a (r ∷ rs) = do m₁ ← resolve_one m r a; resolve_each m₁ a rs

    unfoldable pub resolve_refs : TypeManager → ℕ → Run TypeManager
    resolve_refs m a = elim (lookup a m.placeholder_refs) [
      | none ↦ ok m
      | some refs ↦ resolve_each m a refs
    ]

  -- `postProcessResolvedPlaceholder`; `rounds` bounds the depth of the recursion.
  unfoldable pub post_process : (rounds : ℕ) → TypeManager → ℕ → Run TypeManager
  post_process zero m a = stop out_of_rounds
  post_process (suc rounds) m a = resolve_refs (post_process rounds) m a
