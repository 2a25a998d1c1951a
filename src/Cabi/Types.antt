-- ===== src/Cabi/Types.antt =====
-- Types as go-llvm-cabi-oracle.cpp sees them: LLVM's, with the layout that LLVM computes as a
-- parameter, and those of llvm-gofrontend/go-llvm-btype.h.
use dragongo.Common.{
  ℕ, ◌/◌, ◌%◌, ◌^◌, Bool, true, false, Option, some, ◌==◌, if◌then◌else◌, ◌>>◌, assert,
}

abbrev pub u32 : ℕ → ℕ
u32 n = n % 2 ^ 32

-- The types of LLVM that the oracle tells apart. `other` is any further type.
mutual
  pub data LlvmType : Type 0 where
    void float double : LlvmType
    integer : ℕ → LlvmType
    pointer : LlvmType → LlvmType
    vector : ℕ → LlvmType → LlvmType
    array : ℕ → LlvmType → LlvmType
    struct : LlvmTypes → LlvmType
    other : ℕ → LlvmType

  pub data LlvmTypes : Type 0 where
    nil : LlvmTypes
    cons : LlvmType → LlvmTypes → LlvmTypes

abbrev pub is_void : LlvmType → Bool
is_void void = true
is_void _ = false

abbrev pub is_float_or_double : LlvmType → Bool
is_float_or_double float = true
is_float_or_double double = true
is_float_or_double _ = false

-- `llvm::DataLayout`: sizes in bits, sizes in bytes with padding, and offsets of fields in bytes.
pub record DataLayout : Type 0 where
  pub size_in_bits : LlvmType → ℕ
  pub alloc_size : LlvmType → ℕ
  pub element_offset : LlvmType → ℕ → ℕ

-- `Btype` with its LLVM type; what a pointer or a function type refers to is not read here.
mutual
  pub data Btype : Type 0 where
    aux_type float_type pointer_type function_type : LlvmType → Btype
    integer_type : Bool → LlvmType → Btype
    array_type : Btype → ℕ → LlvmType → Btype
    struct_type : Fields → LlvmType → Btype

  pub data Fields : Type 0 where
    end : Fields
    field : Btype → Fields → Fields

-- `Btype::type`
abbrev pub type : Btype → LlvmType
type (aux_type t) = t
type (float_type t) = t
type (pointer_type t) = t
type (function_type t) = t
type (integer_type unsigned t) = t
type (array_type elem n t) = t
type (struct_type fields t) = t

-- `typeSize`: `none` where the size is no number of bytes.
unfoldable pub type_size : DataLayout → LlvmType → Option ℕ
type_size dl t =
    let bits = u32 (dl.size_in_bits t) in
    if bits == 1 then some 1 else (do assert (bits % 8 == 0); some (bits / 8))
