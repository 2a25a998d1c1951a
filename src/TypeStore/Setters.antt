-- ===== src/TypeStore/Setters.antt =====
-- The methods of llvm-gofrontend/go-llvm-btype.h that change a type, and `Btype::clone`.
use dragongo.Common.{
  ℕ, Bool, true, Option, none, some, List, [], ◌∷◌, ◌++◌, length, Text, if◌then◌else◌,
}
use dragongo.Common.Run.{Run, ok, stop, null_pointer, assertion, ◌>>=◌}
use dragongo.Bnode.{set_elem}
use dragongo.TypeStore.{
  BtypedIdentifier, Shape, array_t, float_t, function_t, integer_t, pointer_t, struct_t, aux_t,
  Btype, Store, at, new_btype, new_integer, new_struct, new_array, new_pointer, new_function,
}

-- A type is replaced at its address.
unfoldable pub put : Store → ℕ → Btype → Store
put s a b = set_elem s a b

-- `new`
abbrev pub alloc : Store → Btype → ℕ × Store
alloc s b = (length s, s ++ (b ∷ []))

-- `Btype::setType`; `none` is a null pointer.
unfoldable pub set_type : Store → ℕ → Option ℕ → Run Store
set_type s a none = stop assertion
set_type s a (some t) = do b ← at s a; ok (put s a (record b { type = some t }))

-- `Btype::setName`
unfoldable pub set_name : Store → ℕ → Text → Run Store
set_name s a name = do b ← at s a; ok (put s a (record b { name = name }))

-- `Btype::setLocation`
unfoldable pub set_location : Store → ℕ → ℕ → Run Store
set_location s a loc = do b ← at s a; ok (put s a (record b { location = loc }))

-- `Btype::setPlaceholder`
unfoldable pub set_placeholder : Store → ℕ → Bool → Run Store
set_placeholder s a v = do b ← at s a; ok (put s a (record b { is_placeholder = v }))

-- `castToBPointerType` and `setToType`; the cast gives null for another flavour.
unfoldable pub set_to_type : Store → ℕ → ℕ → Run Store
set_to_type s a to = do
  b ← at s a
  elim b.shape [
    | pointer_t old ↦ ok (put s a (record b { shape = pointer_t (some to) }))
    | _ ↦ stop null_pointer
  ]

-- `castToBStructType` with its assertion, and `setFields`
unfoldable pub set_fields : Store → ℕ → List BtypedIdentifier → Run Store
set_fields s a fields = do
  b ← at s a
  elim b.shape [
    | struct_t old ↦ ok (put s a (record b { shape = struct_t fields }))
    | _ ↦ stop assertion
  ]

-- `castToBArrayType` with its assertion, `setElemType` and `setNelements`
unfoldable pub set_elem_type : Store → ℕ → ℕ → Option ℕ → Run Store
set_elem_type s a elem nelements = do
  b ← at s a
  e ← at s elem
  elim b.shape [
    | array_t e₀ n₀ ↦ ok (
        put s a (record b {
          shape = array_t (some elem) nelements;
          is_placeholder = if e.is_placeholder then true else b.is_placeholder;
        }))
    | _ ↦ stop assertion
  ]

-- The `clone` methods of the derived classes: a constructor is called on the members.
unfoldable pub clone_shape : Store → Shape → Option ℕ → ℕ → Run Btype
clone_shape s aux_t t loc = ok (new_btype aux_t t loc)
clone_shape s (float_t bits) t loc = ok (new_btype (float_t none) t loc)
clone_shape s (integer_t bits is_unsigned) t loc = ok (new_integer is_unsigned bits t loc)
clone_shape s (pointer_t to) t loc = new_pointer s to t loc
clone_shape s (array_t elem n) t loc = new_array s elem n t loc
clone_shape s (struct_t fields) t loc = ok (new_struct fields t loc)
clone_shape s (function_t g) t loc = new_function g t loc

-- `Btype::clone`: `setType` only sets again what the constructors took over.
unfoldable pub clone : Store → ℕ → Run (ℕ × Store)
clone s a = do
  b ← at s a
  c ← clone_shape s b.shape b.type b.location
  ok (alloc s (record c { type = b.type; is_placeholder = b.is_placeholder; name = b.name }))
