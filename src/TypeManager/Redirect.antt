-- ===== src/TypeManager/Redirect.antt =====
-- The methods of go-llvm-typemanager.cpp that resolve a placeholder.
use dragongo.Common.{ℕ, Bool, true, false, ◌||◌, Option, none, some, List, ◌==◌, if◌then◌else◌}
use dragongo.Common.Run.{Run, ok, stop, assertion, ◌>>=◌, ◌>>◌, assert, deref}
use dragongo.TypeStore.{BtypedIdentifier, at, is_unresolved_placeholder}
use dragongo.TypeStore.Equal.{Hashes}
use dragongo.TypeStore.Setters.{set_type, set_placeholder, set_to_type, set_fields, set_elem_type}
use dragongo.TypeManager.{Llvm, TypeManager, add_ref, mem}
use dragongo.TypeManager.Anon.{find_equal}
use dragongo.TypeManager.Refs.{add_placeholder_refs}
use dragongo.TypeManager.Make.{Length, error_expression, not_constant, constant, make_aux_type}
use dragongo.TypeManager.Structs.{has_error_field, sanitize_fields, field_llvm_types}
use dragongo.TypeManager.Resolve.{set_body, post_process}
use dragongo.TypeManager.Circular.{follow_loop}

abbrev is_none : Option ℕ → Bool
is_none none = true
is_none (some a) = false

-- The bounds on the depth of a comparison and on the rounds of completing types.
module _ (lv : Llvm) (hs : Hashes) (fuel rounds : ℕ) where
  -- The assertions on the two tables.
  unfoldable pub assert_placeholder : TypeManager → ℕ → Run (Unit {0})
  assert_placeholder m a = do
    hit ← find_equal hs fuel m.types a m.anon_types
    assert (is_none hit)
    assert (mem a m.placeholders)

  -- What `setPlaceholderPointerType` does next: wait for the target, or complete other types.
  unfoldable pub await_or_resolve : TypeManager → ℕ → ℕ → Run TypeManager
  await_or_resolve m placeholder to = do
    b ← at m.types to
    if is_unresolved_placeholder b then ok (add_ref m to placeholder) else (do
      types ← set_placeholder m.types placeholder false
      post_process lv hs fuel rounds (record m { types = types }) placeholder)

  -- `setPlaceholderPointerType` behind the checks for the error type
  unfoldable pub redirect_pointer : TypeManager → ℕ → ℕ → Run (Bool × TypeManager)
  redirect_pointer m placeholder to = do
    b ← at m.types to
    t ← deref b.type
    assert (lv.is_pointer t)
    assert_placeholder m placeholder
    pointed ← set_to_type m.types placeholder to
    typed ← set_type pointed placeholder (some t)
    m₁ ← await_or_resolve (record m { types = typed }) placeholder to
    ok (true, follow_loop m₁ placeholder to)

  -- `setPlaceholderPointerType`, and `setPlaceholderFunctionType`, which calls it
  unfoldable pub set_placeholder_pointer_type : TypeManager → ℕ → ℕ → Run (Bool × TypeManager)
  set_placeholder_pointer_type m placeholder to =
      if (placeholder == m.error_type) || (to == m.error_type)
      then ok (false, m)
      else redirect_pointer m placeholder to

  -- The end of `setPlaceholderStructType`.
  unfoldable pub fill_struct :
      TypeManager → ℕ → List BtypedIdentifier → Bool → Run (Bool × TypeManager)
  fill_struct m placeholder fields true = ok (true, m)
  fill_struct m placeholder fields false = do
    elems ← field_llvm_types m.types fields
    m₁ ← set_body m placeholder elems
    m₂ ← post_process lv hs fuel rounds m₁ placeholder
    ok (true, m₂)

  -- `setPlaceholderStructType`: with a field of the error type it returns `errorType_`, a pointer,
  -- which is `true`.
  unfoldable pub set_placeholder_struct_type :
      TypeManager → ℕ → List BtypedIdentifier → Run (Bool × TypeManager)
  set_placeholder_struct_type m placeholder rawfields =
      if placeholder == m.error_type
      then ok (false, m)
      else if has_error_field m.error_type rawfields
      then ok (true, m)
      else (do
        (fields, m₁) ← sanitize_fields lv hs fuel m rawfields
        assert_placeholder m₁ placeholder
        types ← set_fields m₁.types placeholder fields
        (is_place, m₂) ← add_placeholder_refs (record m₁ { types = types }) placeholder
        fill_struct m₂ placeholder fields is_place)

  -- `updatePlaceholderUnderlyingType`
  unfoldable pub update_placeholder_underlying_type : TypeManager → ℕ → ℕ → Run TypeManager
  update_placeholder_underlying_type m pht newtyp = do
    assert_placeholder m pht
    b ← at m.types pht
    assert b.is_placeholder
    n ← at m.types newtyp
    typed ← set_type m.types pht n.type
    if n.is_placeholder then ok (record m { types = typed }) else (do
      types ← set_placeholder typed pht false
      post_process lv hs fuel rounds (record m { types = types }) pht)

  -- `setPlaceholderArrayType` behind the checks for the error type
  unfoldable pub fill_array : TypeManager → ℕ → ℕ → ℕ → Run (Bool × TypeManager)
  fill_array m placeholder elem n = do
    assert_placeholder m placeholder
    types ← set_elem_type m.types placeholder elem (some n)
    (is_place, m₁) ← add_placeholder_refs (record m { types = types }) placeholder
    e ← at m₁.types elem
    t ← deref e.type
    let (atype, m₂) = make_aux_type m₁ (lv.array_of t n)
    flagged ← set_placeholder m₂.types atype is_place
    m₃ ← update_placeholder_underlying_type (record m₂ { types = flagged }) placeholder atype
    ok (true, m₃)

  -- `setPlaceholderArrayType`; the length is read only behind its assertion.
  unfoldable pub set_placeholder_array_type :
      TypeManager → ℕ → ℕ → Length → Run (Bool × TypeManager)
  set_placeholder_array_type m placeholder elem error_expression = ok (false, m)
  set_placeholder_array_type m placeholder elem not_constant =
      if (placeholder == m.error_type) || (elem == m.error_type)
      then ok (false, m)
      else stop assertion
  set_placeholder_array_type m placeholder elem (constant n) =
      if (placeholder == m.error_type) || (elem == m.error_type)
      then ok (false, m)
      else fill_array m placeholder elem n
