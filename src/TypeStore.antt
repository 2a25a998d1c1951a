-- ===== src/TypeStore.antt =====
-- llvm-gofrontend/go-llvm-btype.h and .cpp: the types of the back end. They refer to each other by
-- their addresses, and some are updated after others refer to them.
pub mod Equal
pub mod Setters
pub mod Symmetry
pub mod Members
pub mod Transitive
pub mod Depth
pub mod Clone
pub mod Updates
pub mod Extend
pub mod Runs
use dragongo.Common.{
  ℕ, zero, suc, ◌+◌, Bool, true, false, Option, none, some, List, [], ◌∷◌, ◌++◌, length, get_elem?,
  Text, ◌==◌, if◌then◌else◌, ◌≡◌, refl, arith, get_elem?-append_left, get_elem?-append_length,
  get_elem?-lt,
}
use dragongo.Common.Run.{Run, ok, stop, null_pointer, ◌>>=◌, ◌>>◌, assert, deref}

-- `Btyped_identifier`
pub record BtypedIdentifier : Type 0 where
  pub name : Text
  pub btype : ℕ
  pub location : ℕ

-- The members of `BFunctionType`; an absent receiver is null.
pub record Signature : Type 0 where
  pub receiver_type : Option ℕ
  pub param_types : List ℕ
  pub result_types : List ℕ
  pub rtype : ℕ
  pub follows_cabi : Bool

-- The flavour with the members of the class derived for it. A float type whose object is a plain
-- `Btype` has no member `bits_`. The length of an array is the constant that the expression
-- `nelements_` stands for.
pub data Shape : Type 0 where
  array_t : (elem_type : Option ℕ) (nelements : Option ℕ) → Shape
  float_t : (bits : Option ℕ) → Shape
  function_t : Signature → Shape
  integer_t : (bits : ℕ) (is_unsigned : Bool) → Shape
  pointer_t : (to_type : Option ℕ) → Shape
  struct_t : List BtypedIdentifier → Shape
  aux_t : Shape

-- `TyFlavor`
abbrev pub flavor : Shape → ℕ
flavor (array_t e n) = 0
flavor (float_t b) = 1
flavor (function_t g) = 2
flavor (integer_t b u) = 3
flavor (pointer_t p) = 4
flavor (struct_t fs) = 5
flavor aux_t = 6

-- `Btype`; LLVM types are numbers.
pub record Btype : Type 0 where
  pub name : Text
  pub type : Option ℕ
  pub location : ℕ
  pub shape : Shape
  pub is_placeholder : Bool

-- The types that exist; an address is the position at which its type was made.
abbrev pub Store : Type 0
Store = List Btype

-- `*typ`
unfoldable pub at : Store → ℕ → Run Btype
at s a = deref (get_elem? s a)

abbrev pub is_struct : Shape → Bool
is_struct (struct_t fields) = true
is_struct _ = false

-- `Btype::isUnresolvedPlaceholder`
abbrev pub is_unresolved_placeholder : Btype → Bool
is_unresolved_placeholder b = if is_struct b.shape then false else b.is_placeholder

-- `Btype::Btype`
abbrev pub new_btype : Shape → Option ℕ → ℕ → Btype
new_btype sh t loc = record {
  name = [];
  type = t;
  location = loc;
  shape = sh;
  is_placeholder = false;
}

-- `BIntegerType::BIntegerType`
abbrev pub new_integer : Bool → ℕ → Option ℕ → ℕ → Btype
new_integer is_unsigned bits t loc = new_btype (integer_t bits is_unsigned) t loc

-- `BFloatType::BFloatType`
abbrev pub new_float : ℕ → Option ℕ → ℕ → Btype
new_float bits t loc = new_btype (float_t (some bits)) t loc

-- The constructors of `BStructType`, for a concrete type and for a placeholder.
abbrev pub new_struct : List BtypedIdentifier → Option ℕ → ℕ → Btype
new_struct fields t loc = new_btype (struct_t fields) t loc

abbrev pub new_placeholder_struct : Text → ℕ → Btype
new_placeholder_struct name loc = record (new_btype (struct_t []) none loc) {
  name = name;
  is_placeholder = true;
}

-- The constructors of `BArrayType`; the first reads the flag of the element type.
unfoldable pub new_array : Store → Option ℕ → Option ℕ → Option ℕ → ℕ → Run Btype
new_array s elem nelements t loc = do
  addr ← deref elem
  e ← at s addr
  ok (record (new_btype (array_t elem nelements) t loc) { is_placeholder = e.is_placeholder })

abbrev pub new_placeholder_array : Text → ℕ → Btype
new_placeholder_array name loc = record (new_btype (array_t none none) none loc) {
  name = name;
  is_placeholder = true;
}

-- The constructors of `BPointerType`.
unfoldable pub new_pointer : Store → Option ℕ → Option ℕ → ℕ → Run Btype
new_pointer s to t loc = do
  addr ← deref to
  e ← at s addr
  ok (record (new_btype (pointer_t to) t loc) { is_placeholder = e.is_placeholder })

abbrev pub new_placeholder_pointer : Text → ℕ → Btype
new_placeholder_pointer name loc = record (new_btype (pointer_t none) none loc) {
  name = name;
  is_placeholder = true;
}

-- `assert(!receiver || paramTypes[0] == receiver)`; `paramTypes[0]` of no parameters is undefined.
abbrev pub receiver_first : Option ℕ → List ℕ → Run Bool
receiver_first none ps = ok true
receiver_first (some r) (p ∷ ps) = ok (p == r)
receiver_first (some r) [] = stop null_pointer

-- `BFunctionType::BFunctionType`
unfoldable pub new_function : Signature → Option ℕ → ℕ → Run Btype
new_function g t loc = do
  first ← receiver_first g.receiver_type g.param_types
  assert first
  ok (new_btype (function_t g) t loc)
