-- ===== src/TypeManager/Structs.antt =====
-- Structure types of go-llvm-typemanager.cpp.
use dragongo.Common.{ℕ, Bool, false, ◌||◌, none, some, List, [], ◌∷◌, length, ◌==◌, if◌then◌else◌}
use dragongo.Common.Run.{Run, ok, ◌>>=◌, deref}
use dragongo.TypeStore.{BtypedIdentifier, Store, at, is_unresolved_placeholder, new_struct}
use dragongo.TypeStore.Equal.{Hashes}
use dragongo.TypeManager.{Llvm, TypeManager, make_opaque_llvm_type, new}
use dragongo.TypeManager.Anon.{find_candidate}
use dragongo.TypeManager.Make.{no_location, mark_placeholder, pointer_type, install}

-- The LLVM types of the fields.
unfoldable pub field_llvm_types : Store → List BtypedIdentifier → Run (List ℕ)
field_llvm_types s [] = ok []
field_llvm_types s (f ∷ fs) = do
  b ← at s f.btype
  t ← deref b.type
  ts ← field_llvm_types s fs
  ok (t ∷ ts)

-- `makeLLVMStructType`
unfoldable pub make_llvm_struct_type : Llvm → Store → List BtypedIdentifier → Run ℕ
make_llvm_struct_type lv s fields = do ts ← field_llvm_types s fields; ok (lv.struct_of ts)

-- Whether a field has the error type.
unfoldable pub has_error_field : ℕ → List BtypedIdentifier → Bool
has_error_field error [] = false
has_error_field error (f ∷ fs) = (f.btype == error) || has_error_field error fs

unfoldable pub has_unresolved_field : Store → List BtypedIdentifier → Run Bool
has_unresolved_field s [] = ok false
has_unresolved_field s (f ∷ fs) = do
  b ← at s f.btype
  rest ← has_unresolved_field s fs
  ok (is_unresolved_placeholder b || rest)

module _ (lv : Llvm) (hs : Hashes) (fuel : ℕ) where
  -- `sanitizeFields`: a field of function type becomes a pointer to the function.
  unfoldable pub sanitize_fields :
      TypeManager → List BtypedIdentifier → Run (List BtypedIdentifier × TypeManager)
  sanitize_fields m [] = ok ([], m)
  sanitize_fields m (f ∷ fs) = do
    b ← at m.types f.btype
    t ← deref b.type
    (a, m₁) ← (if lv.is_function t then pointer_type lv hs fuel m f.btype else ok (f.btype, m))
    (rest, m₂) ← sanitize_fields m₁ fs
    ok (record f { btype = a } ∷ rest, m₂)

  -- The two ways of making the type, once the fields are sanitized.
  unfoldable pub placeholder_fields_struct :
      TypeManager → List BtypedIdentifier → Run (ℕ × TypeManager)
  placeholder_fields_struct m fields = do
    let (opaque, m₁) = make_opaque_llvm_type lv m
    m₂ ← mark_placeholder (new m₁ (new_struct fields (some opaque) no_location)) (length m.types)
    install lv hs fuel m₂ (length m.types)

  unfoldable pub concrete_fields_struct :
      TypeManager → List BtypedIdentifier → Run (ℕ × TypeManager)
  concrete_fields_struct m fields = do
    t ← make_llvm_struct_type lv m.types fields
    let cand = new_struct fields (some t) no_location
    hit ← find_candidate hs fuel m cand
    elim hit [ some e ↦ ok (e, m) | none ↦ install lv hs fuel (new m cand) (length m.types) ]

  -- `structType`
  unfoldable pub struct_type : TypeManager → List BtypedIdentifier → Run (ℕ × TypeManager)
  struct_type m rawfields =
      if has_error_field m.error_type rawfields then ok (m.error_type, m) else (do
        unresolved ← has_unresolved_field m.types rawfields
        (fields, m₁) ← sanitize_fields m rawfields
        if unresolved
            then placeholder_fields_struct m₁ fields
            else concrete_fields_struct m₁ fields)
