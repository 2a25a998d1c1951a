-- ===== src/TypeManager/Make.antt =====
-- The methods of go-llvm-typemanager.cpp that make scalar, pointer and array types and placeholders.
use dragongo.Common.{
  ℕ, Bool, true, false, ◌&&◌, none, some, [], ◌∷◌, length, Text, ◌==◌, if◌then◌else◌,
}
use dragongo.Common.Run.{Run, ok, stop, assertion, ◌>>=◌, deref}
use dragongo.TypeStore.{
  aux_t, integer_t, Btype, at, new_btype, new_integer, new_float, new_array, new_pointer,
  new_placeholder_struct, new_placeholder_array, new_placeholder_pointer,
}
use dragongo.TypeStore.Equal.{type_eq, Hashes}
use dragongo.TypeStore.Setters.{set_type, set_placeholder, set_name, set_location, clone}
use dragongo.TypeManager.{Llvm, TypeManager, lookup, insert_at, make_opaque_llvm_type, new}
use dragongo.TypeManager.Anon.{find_candidate, insert_anon}
use dragongo.TypeManager.Refs.{add_placeholder_refs}

-- `Location loc;`
abbrev pub no_location : ℕ
no_location = 0

-- The expression for an array's length: the error expression, one that stands for a constant, or one
-- that does not.
pub data Length : Type 0 where
  error_expression not_constant : Length
  constant : ℕ → Length

-- `makeAuxType`
unfoldable pub make_aux_type : TypeManager → ℕ → ℕ × TypeManager
make_aux_type m lt = elim (lookup lt m.aux_type_map) [
  | some a ↦ (a, m)
  | none ↦
      let a = length m.types in
      (
        a,
        record (new m (new_btype aux_t (some lt) no_location)) {
          aux_type_map = insert_at lt a m.aux_type_map;
        },
      )
]

-- `voidType`
abbrev pub void_type : Llvm → TypeManager → ℕ × TypeManager
void_type lv m = make_aux_type m lv.void_type

-- `complexType`, where the type is not there yet
abbrev pub new_complex_type : Llvm → TypeManager → ℕ → ℕ × TypeManager
new_complex_type lv m elem = make_aux_type m (lv.struct_of (elem ∷ elem ∷ []))

-- `complexType`
unfoldable pub complex_type : Llvm → TypeManager → ℕ → Run (ℕ × TypeManager)
complex_type lv m bits =
    if bits == 64
    then elim m.complex_float_type [
      | some a ↦ ok (a, m)
      | none ↦
          let (a, m₁) = new_complex_type lv m lv.float_type in
          ok (a, record m₁ { complex_float_type = some a })
    ]
    else if bits == 128
    then elim m.complex_double_type [
      | some a ↦ ok (a, m)
      | none ↦
          let (a, m₁) = new_complex_type lv m lv.double_type in
          ok (a, record m₁ { complex_double_type = some a })
    ]
    else stop assertion

-- `setPlaceholder(addPlaceholderRefs(rval))`
unfoldable pub mark_placeholder : TypeManager → ℕ → Run TypeManager
mark_placeholder m a = do
  (v, m₁) ← add_placeholder_refs m a
  types ← set_placeholder m₁.types a v
  ok (record m₁ { types = types })

-- `isBooleanType`
unfoldable pub is_boolean_type : Llvm → Btype → Bool
is_boolean_type lv b = elim b.shape [
  | integer_t bits is_unsigned ↦ is_unsigned && type_eq b.type (some (lv.integer_type 8))
  | _ ↦ false
]

-- `makeLLVMFloatType`
unfoldable pub make_llvm_float_type : Llvm → ℕ → Run ℕ
make_llvm_float_type lv bits =
    if bits == 32
    then ok lv.float_type
    else if bits == 64
    then ok lv.double_type
    else if bits == 128
    then ok lv.fp128_type
    else stop assertion

module _ (lv : Llvm) where
  -- `placeholderStructType`
  unfoldable pub placeholder_struct_type : TypeManager → Text → ℕ → Run (ℕ × TypeManager)
  placeholder_struct_type m name loc = do
    let a = length m.types
    let (opaque, m₁) = make_opaque_llvm_type lv (new m (new_placeholder_struct name loc))
    types ← set_type m₁.types a (some opaque)
    ok (a, record m₁ { types = types; placeholders = a ∷ m.placeholders })

  -- `placeholderArrayType`
  unfoldable pub placeholder_array_type : TypeManager → Text → ℕ → Run (ℕ × TypeManager)
  placeholder_array_type m name loc = do
    let a = length m.types
    let (opaque, m₁) = make_opaque_llvm_type lv (new m (new_placeholder_array name loc))
    types ← set_type m₁.types a (some opaque)
    ok (a, record m₁ { types = types; placeholders = a ∷ m.placeholders })

  -- `placeholderPointerType`
  unfoldable pub placeholder_pointer_type : TypeManager → Text → ℕ → Run (ℕ × TypeManager)
  placeholder_pointer_type m name loc = do
    let a = length m.types
    let (opaque, m₁) = make_opaque_llvm_type lv (new m (new_placeholder_pointer name loc))
    types ← set_type m₁.types a (some (lv.pointer_to opaque))
    ok (a, record m₁ { types = types; placeholders = a ∷ m.placeholders })

  -- Pointers to void are made pointers to bytes.
  unfoldable pub pointee : ℕ → ℕ
  pointee t = if t == lv.void_type then lv.integer_type 8 else t

  module _ (hs : Hashes) (fuel : ℕ) where
    -- The end of a method that makes an anonymous type: the type in the cache, or the new one.
    unfoldable pub install : TypeManager → ℕ → Run (ℕ × TypeManager)
    install m a = do m₁ ← insert_anon hs fuel m a; ok (a, m₁)

    -- `integerType`
    unfoldable pub integer_type : TypeManager → Bool → ℕ → Run (ℕ × TypeManager)
    integer_type m is_unsigned bits = do
      let cand = new_integer is_unsigned bits (some (lv.integer_type bits)) no_location
      hit ← find_candidate hs fuel m cand
      elim hit [ some e ↦ ok (e, m) | none ↦ install (new m cand) (length m.types) ]

    -- `boolType`
    abbrev pub bool_type : TypeManager → Run (ℕ × TypeManager)
    bool_type m = integer_type m true 8

    -- `floatType`
    unfoldable pub float_type : TypeManager → ℕ → Run (ℕ × TypeManager)
    float_type m bits = do
      t ← make_llvm_float_type lv bits
      let cand = new_float bits (some t) no_location
      hit ← find_candidate hs fuel m cand
      elim hit [ some e ↦ ok (e, m) | none ↦ install (new m cand) (length m.types) ]

    -- `pointerType`
    unfoldable pub pointer_type : TypeManager → ℕ → Run (ℕ × TypeManager)
    pointer_type m to = if to == m.error_type then ok (m.error_type, m) else (do
      target ← at m.types to
      t ← deref target.type
      cand ← new_pointer m.types (some to) (some (lv.pointer_to (pointee t))) no_location
      hit ← find_candidate hs fuel m cand
      elim hit [
        | some e ↦ ok (e, m)
        | none ↦ do m₁ ← mark_placeholder (new m cand) (length m.types); install m₁ (length m.types)
      ])

    -- `arrayType`, once the length is known to be constant
    unfoldable pub constant_array_type : TypeManager → ℕ → ℕ → Run (ℕ × TypeManager)
    constant_array_type m elem n = do
      e ← at m.types elem
      t ← deref e.type
      cand ← new_array m.types (some elem) (some n) (some (lv.array_of t n)) no_location
      hit ← find_candidate hs fuel m cand
      elim hit [
        | some e ↦ ok (e, m)
        | none ↦ do m₁ ← mark_placeholder (new m cand) (length m.types); install m₁ (length m.types)
      ]

    -- `arrayType`
    unfoldable pub array_type : TypeManager → ℕ → Length → Run (ℕ × TypeManager)
    array_type m elem error_expression = ok (m.error_type, m)
    array_type m elem not_constant =
        if elem == m.error_type then ok (m.error_type, m) else stop assertion
    array_type m elem (constant n) =
        if elem == m.error_type then ok (m.error_type, m) else constant_array_type m elem n

-- `namedType`
unfoldable pub named_type : TypeManager → Text → ℕ → ℕ → Run (ℕ × TypeManager)
named_type m name a loc = do
  (b, types) ← clone m.types a
  located ← set_location types b loc
  (v, m₁) ← add_placeholder_refs (record m { types = located }) b
  renamed ← set_name m₁.types b name
  ok (
    b,
    record m₁ {
      types = renamed;
      named_types = b ∷ m₁.named_types;
      rev_names = insert_at a b m₁.rev_names;
    },
  )

abbrev no_types : TypeManager
no_types = record {
  types = [];
  anon_types = [];
  aux_type_map = [];
  named_types = [];
  rev_names = [];
  placeholders = [];
  duplicates = [];
  placeholder_refs = [];
  complex_float_type = none;
  complex_double_type = none;
  error_type = 0;
  circular_pointer_types = [];
  circular_pointer_type_map = [];
  circular_load_map = [];
  circular_addr_map = [];
  circular_pointer_loop = [];
  identified_count = 0;
  bodies = [];
}

-- `TypeManager::TypeManager`: the error type is an identified structure; the string type is the
-- pointer to bytes.
unfoldable pub init : Llvm → Hashes → ℕ → Run TypeManager
init lv hs fuel = do
  let (opaque, m) = make_opaque_llvm_type lv no_types
  let (error, m₁) = make_aux_type m opaque
  (byte, m₂) ← integer_type lv hs fuel (record m₁ { error_type = error }) true 8
  (string, m₃) ← pointer_type lv hs fuel m₂ byte
  ok m₃
