-- ===== src/TypeManager/Circular.antt =====
-- Circular pointer types of go-llvm-typemanager.cpp.
use dragongo.Common.{
  ℕ, Bool, true, false, Option, none, some, List, [], ◌∷◌, ◌++◌, ◌==◌, if◌then◌else◌,
}
use dragongo.Common.Run.{Run, ok, ◌>>◌, assert}
use dragongo.TypeManager.{Llvm, TypeManager, lookup, insert_at, mem, make_opaque_llvm_type}
use dragongo.TypeManager.Make.{make_aux_type}

abbrev pub is_empty : List (ℕ × ℕ) → Bool
is_empty [] = true
is_empty (p ∷ ps) = false

-- `circularPointerLoop_.back()` of a loop that starts with `p`, and its second pair, or its first
-- where there is only one.
unfoldable pub back : ℕ × ℕ → List (ℕ × ℕ) → ℕ × ℕ
back p [] = p
back p (q ∷ qs) = back q qs

abbrev pub second_or_first : ℕ × ℕ → List (ℕ × ℕ) → ℕ × ℕ
second_or_first p [] = p
second_or_first p (q ∷ qs) = q

-- The end of a loop of circular types.
unfoldable pub close_loop : TypeManager → ℕ → ℕ → ℕ × ℕ → List (ℕ × ℕ) → TypeManager
close_loop m placeholder to p ps =
    let load = (back p ps).1 in
    let ad = second_or_first p ps in
    record m {
      circular_load_map = insert_at placeholder load (insert_at to load m.circular_load_map);
      circular_addr_map = insert_at ad.1 to (insert_at ad.0 to m.circular_addr_map);
      circular_pointer_loop = [];
    }

-- The end of `setPlaceholderPointerType`, for the loop that is being followed.
unfoldable pub follow_from : TypeManager → ℕ → ℕ → List (ℕ × ℕ) → TypeManager
follow_from m placeholder to [] = m
follow_from m placeholder to (p ∷ ps) =
    if to == p.1
    then close_loop m placeholder to p ps
    else record m { circular_pointer_loop = (p ∷ ps) ++ ((placeholder, to) ∷ []) }

unfoldable pub follow_loop : TypeManager → ℕ → ℕ → TypeManager
follow_loop m placeholder to = follow_from m placeholder to m.circular_pointer_loop

-- `circularPointerType`, where there is no marker yet
unfoldable pub new_circular_pointer_type : Llvm → TypeManager → ℕ → Run (ℕ × TypeManager)
new_circular_pointer_type lv m placeholder = do
  let (opaque, m₁) = make_opaque_llvm_type lv m
  let t = lv.pointer_to opaque
  let (a, m₂) = make_aux_type m₁ t
  assert (is_empty m₂.circular_pointer_loop)
  ok (
    a,
    record m₂ {
      circular_pointer_types = t ∷ m₂.circular_pointer_types;
      circular_pointer_type_map = insert_at placeholder a m₂.circular_pointer_type_map;
      circular_pointer_loop = (placeholder, a) ∷ [];
    },
  )

-- `circularPointerType`
unfoldable pub circular_pointer_type : Llvm → TypeManager → ℕ → Run (ℕ × TypeManager)
circular_pointer_type lv m placeholder =
    if placeholder == m.error_type
    then ok (m.error_type, m)
    else elim (lookup placeholder m.circular_pointer_type_map) [
      | some a ↦ ok (a, m)
      | none ↦ new_circular_pointer_type lv m placeholder
    ]

-- `isCircularPointerType`
unfoldable pub is_circular_pointer_type : TypeManager → ℕ → Bool
is_circular_pointer_type m t = mem t m.circular_pointer_types

-- `circularTypeLoadConversion`
unfoldable pub circular_type_load_conversion : TypeManager → ℕ → Option ℕ
circular_type_load_conversion m a = lookup a m.circular_load_map

-- `circularTypeAddrConversion`
unfoldable pub circular_type_addr_conversion : TypeManager → ℕ → Option ℕ
circular_type_addr_conversion m a = lookup a m.circular_addr_map
