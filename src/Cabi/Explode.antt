-- ===== src/Cabi/Explode.antt =====
-- `EightByteInfo` of go-llvm-cabi-oracle.cpp: from a type to its regions.
use dragongo.Common.{
  ℕ, zero, suc, ◌+◌, ◌-◌, ◌*◌, ◌^◌, ◌&&◌, ◌||◌, Option, none, some, List, [], ◌∷◌, ◌++◌, ltb, leb,
  ◌==◌, if◌then◌else◌, ◌>>=◌, ◌>>◌, assert, length,
}
use dragongo.Cabi.Types.{
  LlvmType, float, integer, vector, is_float_or_double, Btype, Fields, aux_type, float_type,
  pointer_type, function_type, integer_type, array_type, struct_type, end, field, DataLayout, type,
  type_size, u32,
}
use dragongo.Cabi.Disp.{is_sse}
use dragongo.Cabi.Regions.{EightByteRegion, attr_none, zext, sext, region_disp}

abbrev pub Leaf : Type 0
Leaf = LlvmType × ℕ

-- `for (idx = 0; idx < n; ++idx)`, from `idx` with `n` rounds left, collecting leaves.
unfoldable pub collect : ℕ → ℕ → (ℕ → Option (List Leaf)) → Option (List Leaf)
collect zero idx body = some []
collect (suc n) idx body = do here ← body idx; rest ← collect n (idx + 1) body; some (here ++ rest)

-- A region with one type in it.
abbrev pub one : LlvmType → ℕ → EightByteRegion
one t off = record { types = t ∷ []; offsets = off ∷ []; abi_direct_type = none; attr = attr_none }

-- `cur8->types.push_back(t); cur8->offsets.push_back(off)`
abbrev pub extend : EightByteRegion → LlvmType → ℕ → EightByteRegion
extend r t off = record r { types = r.types ++ (t ∷ []); offsets = r.offsets ++ (off ∷ []) }

unfoldable pub extend_last : List EightByteRegion → LlvmType → ℕ → List EightByteRegion
extend_last [] t off = []
extend_last (r ∷ []) t off = extend r t off ∷ []
extend_last (r ∷ r' ∷ rs) t off = r ∷ extend_last (r' ∷ rs) t off

-- One round of the loop of `explodeStruct`.
unfoldable pub place_leaf : List EightByteRegion → LlvmType → ℕ → List EightByteRegion
place_leaf ebrs t off =
    if length ebrs == 0 || (leb 8 off && length ebrs == 1)
    then ebrs ++ (one t off ∷ [])
    else extend_last ebrs t off

unfoldable pub place_leaves : List EightByteRegion → List Leaf → List EightByteRegion
place_leaves ebrs [] = ebrs
place_leaves ebrs ((t, off) ∷ ls) = place_leaves (place_leaf ebrs t off) ls

-- One round of the loop of `explodeArray`.
unfoldable pub place_element : ℕ → List EightByteRegion → LlvmType → ℕ → List EightByteRegion
place_element cur_offset ebrs t off =
    if length ebrs == 0 || (leb 8 off && ltb cur_offset 8)
    then ebrs ++ (one t off ∷ [])
    else extend_last ebrs t off

-- The loop, from `elidx` with `n` rounds left.
unfoldable pub place_elements :
    (n elidx el_size cur_offset : ℕ) → LlvmType → List EightByteRegion → List EightByteRegion
place_elements zero elidx el_size cur_offset t ebrs = ebrs
place_elements (suc n) elidx el_size cur_offset t ebrs =
    let off = u32 (elidx * el_size) in
    place_elements n (elidx + 1) el_size (u32 (cur_offset + off)) t
      (place_element cur_offset ebrs t off)

unfoldable pub last_of : {A : Type 0} → A → List A → A
last_of x [] = x
last_of x (y ∷ ys) = last_of y ys

module _ (dl : DataLayout) where
  open dl use {alloc_size, element_offset}

  -- `addLeafTypes`
  unfoldable mutual
    pub add_leaf_types : Btype → ℕ → Option (List Leaf)
    add_leaf_types (struct_type fields t) off = add_field_leaves fields t 0 off
    add_leaf_types (array_type elem n t) off =
        collect n 0 (λ idx. add_leaf_types elem (u32 (off + u32 (idx * alloc_size (type elem)))))
    add_leaf_types (aux_type t) off = none
    add_leaf_types (function_type t) off = none
    add_leaf_types (float_type t) off = some ((t, off) ∷ [])
    add_leaf_types (pointer_type t) off = some ((t, off) ∷ [])
    add_leaf_types (integer_type unsigned t) off = some ((t, off) ∷ [])

    pub add_field_leaves : Fields → LlvmType → ℕ → ℕ → Option (List Leaf)
    add_field_leaves end t idx off = some []
    add_field_leaves (field bt fs) t idx off = do
      here ← add_leaf_types bt (u32 (off + u32 (element_offset t idx)))
      rest ← add_field_leaves fs t (idx + 1) off
      some (here ++ rest)

  unfoldable pub explode_struct : Fields → LlvmType → Option (List EightByteRegion)
  explode_struct fields t = do
    assert (leb (alloc_size t) 16)
    leaves ← add_leaf_types (struct_type fields t) 0
    some (place_leaves [] leaves)

  unfoldable pub explode_array : Btype → ℕ → LlvmType → Option (List EightByteRegion)
  explode_array elem n t = do
    assert (leb (alloc_size t) 16)
    el_size ← type_size dl (type elem)
    some (place_elements n 0 (u32 el_size) 0 (type elem) [])

  unfoldable pub scalar_region : Btype → Option EightByteRegion
  scalar_region (integer_type unsigned t) = do
    size ← type_size dl t
    some (record {
      types = t ∷ [];
      offsets = 0 ∷ [];
      abi_direct_type = some t;
      attr = if ltb size 4 then (if unsigned then zext else sext) else attr_none;
    })
  scalar_region bt = some (record {
    types = type bt ∷ [];
    offsets = 0 ∷ [];
    abi_direct_type = some (type bt);
    attr = attr_none;
  })

  unfoldable pub incorporate_scalar : Btype → Option (List EightByteRegion)
  unfolding scalar_region
  incorporate_scalar bt = do
    assert (leb (alloc_size (type bt)) 8)
    r ← scalar_region bt
    some (r ∷ [])

  -- The types of a region of SSE class.
  unfoldable pub sse_type : List LlvmType → Option LlvmType
  sse_type [] = none
  sse_type (t ∷ []) = if is_float_or_double t then some t else none
  sse_type (t ∷ t' ∷ []) = some (vector 2 float)
  sse_type (t ∷ t' ∷ _ ∷ _) = none

  -- The integer that covers a region; its width is 1 to 8 bytes.
  unfoldable pub int_type : List LlvmType → List ℕ → Option LlvmType
  unfolding last_of
  int_type (t ∷ ts) (o ∷ os) = do
    size ← type_size dl (last_of t ts)
    let bytes = u32 (last_of o os + 2 ^ 32 - o + size)
    assert (ltb 0 bytes && leb bytes 8)
    some (integer (bytes * 8))
  int_type _ _ = none

  -- One round of `determineABITypes`.
  unfoldable pub determine_abi_type : EightByteRegion → Option EightByteRegion
  determine_abi_type r = elim r.abi_direct_type [
    | some t ↦ some r
    | none ↦ (do
      t ← if is_sse (region_disp r) then sse_type r.types else int_type r.types r.offsets
      some (record r { abi_direct_type = some t }))
  ]

  unfoldable pub determine_abi_types : List EightByteRegion → Option (List EightByteRegion)
  determine_abi_types [] = some []
  determine_abi_types (r ∷ rs) = do
    r' ← determine_abi_type r
    rs' ← determine_abi_types rs
    some (r' ∷ rs')

  unfoldable pub explode : Btype → Option (List EightByteRegion)
  explode (struct_type fields t) = explode_struct fields t
  explode (array_type elem n t) = explode_array elem n t
  explode bt = incorporate_scalar bt

  -- The constructor of `EightByteInfo`.
  unfoldable pub eight_byte_info : Btype → Option (List EightByteRegion)
  unfolding explode
  eight_byte_info bt = do ebrs ← explode bt; assert (leb (length ebrs) 2); determine_abi_types ebrs
