-- ===== src/TypeManager/Functions.antt =====
-- Function types of go-llvm-typemanager.cpp, whose LLVM types the oracle of calling conventions
-- gives, and the methods that read a type's parts.
use dragongo.Common.{
  ℕ, zero, suc, Bool, true, false, not, ◌||◌, Option, none, some, List, [], ◌∷◌, ◌++◌, map, length,
  get_elem?, ◌==◌, if◌then◌else◌,
}
use dragongo.Common.Run.{
  Run, ok, stop, assertion, null_pointer, too_deep, ◌>>=◌, ◌>>◌, assert, deref, asserted,
}
use dragongo.Cabi.Types.{
  LlvmType, aux_type, float_type, pointer_type, function_type, integer_type, array_type,
  struct_type, Fields, end, field, DataLayout,
}
use dragongo.Cabi.Types
use dragongo.Cabi.{analyze}
use dragongo.TypeStore.{
  BtypedIdentifier, Shape, array_t, float_t, function_t, integer_t, pointer_t, struct_t, aux_t,
  Store, at, is_unresolved_placeholder, new_function,
}
use dragongo.TypeStore.Equal.{Hashes}
use dragongo.TypeStore.Setters.{set_placeholder}
use dragongo.TypeManager.{Llvm, TypeManager, lookup, insert_at, add_ref, new}
use dragongo.TypeManager.Anon.{find_candidate}
use dragongo.TypeManager.Make.{no_location, make_aux_type, install}

-- A type as the oracle reads it: through arrays and structures, whose parts `part` reads.
module _ (part : ℕ → Run Types.Btype) where
  unfoldable pub oracle_fields : List BtypedIdentifier → Run Fields
  oracle_fields [] = ok end
  oracle_fields (f ∷ fs) = do b ← part f.btype; rest ← oracle_fields fs; ok (field b rest)

  unfoldable pub oracle_shape : Shape → LlvmType → Run Types.Btype
  oracle_shape aux_t t = ok (aux_type t)
  oracle_shape (float_t bits) t = ok (float_type t)
  oracle_shape (pointer_t to) t = ok (pointer_type t)
  oracle_shape (function_t g) t = ok (function_type t)
  oracle_shape (integer_t bits is_unsigned) t = ok (integer_type is_unsigned t)
  oracle_shape (array_t elem nelements) t = do
    c ← deref elem
    e ← part c
    n ← deref nelements
    ok (array_type e n t)
  oracle_shape (struct_t fields) t = do fs ← oracle_fields fields; ok (struct_type fs t)

module _ (lv : Llvm) where
  -- The fuel bounds the depth of the type.
  unfoldable pub oracle_type : ℕ → Store → ℕ → Run Types.Btype
  oracle_type zero s a = stop too_deep
  oracle_type (suc n) s a = do
    b ← at s a
    t ← deref b.type
    oracle_shape (oracle_type n s) b.shape (lv.structure t)

  unfoldable pub oracle_types : ℕ → Store → List ℕ → Run (List Types.Btype)
  oracle_types n s [] = ok []
  oracle_types n s (a ∷ rest) = do b ← oracle_type n s a; bs ← oracle_types n s rest; ok (b ∷ bs)

  -- `CABIOracle` with `getFunctionTypeForABI`
  unfoldable pub abi_function_type : ℕ → TypeManager → List ℕ → ℕ → Bool → Run ℕ
  abi_function_type n m params result follows_cabi = do
    ps ← oracle_types n m.types params
    r ← oracle_type n m.types result
    o ← asserted (analyze (lv.layout m.bodies) ps r follows_cabi)
    let ft = o.fcn_type_for_abi
    ok (lv.function_of (lv.address_of ft.result) (map lv.address_of ft.params))

  -- The assertion of `makeLLVMFunctionType`: a result without size makes the function void.
  unfoldable pub empty_is_void : TypeManager → ℕ → Bool → Bool
  empty_is_void m t returns_void =
      not (lv.is_sized m.bodies t)
      || (not ((lv.layout m.bodies).size_in_bits (lv.structure t) == 0) || returns_void)

  -- `makeLLVMFunctionType`
  unfoldable pub make_llvm_function_type : ℕ → TypeManager → List ℕ → ℕ → Bool → Run ℕ
  make_llvm_function_type n m params result follows_cabi = do
    ft ← abi_function_type n m params result follows_cabi
    b ← at m.types result
    t ← deref b.type
    assert (empty_is_void m t (lv.return_type ft == lv.void_type))
    ok ft

-- Whether one of the types is the error type.
unfoldable pub has_error : ℕ → List ℕ → Bool
has_error error [] = false
has_error error (t ∷ ts) = (t == error) || has_error error ts

abbrev pub receiver_types : Option ℕ → List ℕ
receiver_types none = []
receiver_types (some r) = r ∷ []

-- The type of the result: void, the only one, or the given structure.
unfoldable pub result_type : Llvm → TypeManager → List ℕ → Option ℕ → Run (ℕ × TypeManager)
result_type lv m [] result_struct = ok (make_aux_type m lv.void_type)
result_type lv m (r ∷ []) result_struct = ok (r, m)
result_type lv m (r ∷ _ ∷ _) none = stop assertion
result_type lv m (r ∷ _ ∷ _) (some st) = ok (st, m)

-- The types that the function type waits for, recorded; the flag says whether there are any.
unfoldable pub add_function_refs : TypeManager → ℕ → List ℕ → Run (Bool × TypeManager)
add_function_refs m a [] = ok (false, m)
add_function_refs m a (t ∷ ts) = do
  b ← at m.types t
  let waits = is_unresolved_placeholder b
  (rest, m₁) ← add_function_refs (if waits then add_ref m t a else m) a ts
  ok (waits || rest, m₁)

module _ (lv : Llvm) (hs : Hashes) (fuel : ℕ) where
  -- The book-keeping for a new function type at `a`; `waits_on` lists the structure of the results,
  -- the receiver, the parameters and the results.
  unfoldable pub finish_function : TypeManager → ℕ → List ℕ → Bool → Run (ℕ × TypeManager)
  finish_function m a waits_on follows_cabi = do
    (is_place, m₁) ← add_function_refs m a waits_on
    types ← (if is_place then set_placeholder m₁.types a true else ok m₁.types)
    assert (not is_place || not follows_cabi)
    install lv hs fuel (record m₁ { types = types }) a

  -- `functionType` behind the checks for the error type.
  unfoldable pub checked_function_type :
      TypeManager → Option ℕ → List ℕ → List ℕ → Option ℕ → Bool → ℕ → Run (ℕ × TypeManager)
  checked_function_type m receiver parameters results result_struct follows_cabi loc = do
    let params = receiver_types receiver ++ parameters
    (rbtype, m₁) ← result_type lv m results result_struct
    ft ← make_llvm_function_type lv fuel m₁ params rbtype follows_cabi
    cand ←
        new_function
          (record {
            receiver_type = receiver;
            param_types = params;
            result_types = results;
            rtype = rbtype;
            follows_cabi = follows_cabi;
          })
          (some ft) loc
    hit ← find_candidate hs fuel m₁ cand
    elim hit [
      | some e ↦ ok (e, m₁)
      | none ↦
          finish_function (new m₁ cand) (length m₁.types)
            (receiver_types result_struct ++ (receiver_types receiver ++ (params ++ results)))
            follows_cabi
    ]

  -- `functionType`
  unfoldable pub function_type_of :
      TypeManager → Option ℕ → List ℕ → List ℕ → Option ℕ → Bool → ℕ → Run (ℕ × TypeManager)
  function_type_of m receiver parameters results result_struct follows_cabi loc =
      if has_error m.error_type (receiver_types receiver ++ parameters)
      then ok (m.error_type, m)
      else if has_error m.error_type (results ++ receiver_types result_struct)
      then ok (m.error_type, m)
      else checked_function_type m receiver parameters results result_struct follows_cabi loc

-- The parameters of `makeAuxFcnType`.
unfoldable pub make_aux_types : TypeManager → List ℕ → List ℕ × TypeManager
make_aux_types m [] = ([], m)
make_aux_types m (t ∷ ts) =
    let (a, m₁) = make_aux_type m t in let (rest, m₂) = make_aux_types m₁ ts in (a ∷ rest, m₂)

-- `makeAuxFcnType`; an entry of the map that is no function type gives null there.
unfoldable pub make_aux_fcn_type : Llvm → TypeManager → ℕ → Run (ℕ × TypeManager)
make_aux_fcn_type lv m ft = elim (lookup ft m.aux_type_map) [
  | some a ↦ do b ← at m.types a; elim b.shape [ function_t g ↦ ok (a, m) | _ ↦ stop null_pointer ]
  | none ↦ do
    let (rbtype, m₁) = make_aux_type m (lv.return_type ft)
    let (params, m₂) = make_aux_types m₁ (lv.param_types ft)
    b ←
        new_function
          (record {
            receiver_type = none;
            param_types = params;
            result_types = if lv.return_type ft == lv.void_type then [] else rbtype ∷ [];
            rtype = rbtype;
            follows_cabi = false;
          })
          (some ft) no_location
    ok (
      length m₂.types,
      record (new m₂ b) { aux_type_map = insert_at ft (length m₂.types) m₂.aux_type_map },
    )
]

-- `functionReturnType`
unfoldable pub function_return_type : TypeManager → ℕ → Run ℕ
function_return_type m a = do
  assert (not (a == m.error_type))
  b ← at m.types a
  target ← (elim b.shape [ pointer_t to ↦ do c ← deref to; at m.types c | _ ↦ ok b ])
  elim target.shape [ function_t g ↦ ok g.rtype | _ ↦ stop assertion ]

-- `elementTypeByIndex`
unfoldable pub element_type_by_index : TypeManager → ℕ → ℕ → Run ℕ
element_type_by_index m a index = do
  assert (not (a == m.error_type))
  b ← at m.types a
  elim b.shape [
    | struct_t fields ↦ do f ← deref (get_elem? fields index); ok f.btype
    | array_t elem n ↦ deref elem
    | _ ↦ stop assertion
  ]
