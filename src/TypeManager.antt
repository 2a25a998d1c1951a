-- ===== src/TypeManager.antt =====
-- llvm-gofrontend/go-llvm-typemanager.cpp: the types that the front end has asked for. Anonymous
-- types are made once and found again in a set; types that refer to an unresolved placeholder are
-- recorded beside it, to be completed when it is resolved.
pub mod Anon
pub mod Refs
pub mod Make
pub mod Functions
pub mod Structs
pub mod Resolve
pub mod Sizes
pub mod Redirect
pub mod Circular
pub mod Settled
pub mod Steps
pub mod Rounds
pub mod Completed
pub mod Cached
pub mod Canonical
pub mod Again
pub mod Repeats
pub mod Redirected
pub mod Later
pub mod Loops
pub mod Abi
pub mod Example
pub mod Runs
pub mod ResolveRuns
use dragongo.Common.{
  ℕ, zero, suc, ◌+◌, ◌*◌, Bool, true, false, not, Option, none, some, List, [], ◌∷◌, ◌++◌, map,
  length, Text, ltb, ◌==◌, if◌then◌else◌,
}
use dragongo.Common.Run.{Run, ok, stop, too_deep, null_pointer, ◌>>=◌, ◌>>◌, assert, deref}
use dragongo.Cabi.Types.{LlvmType, DataLayout}
use dragongo.TypeStore.{Btype, Store}
use dragongo.TypeStore.Equal.{Hashes}

-- The types of LLVM by their addresses, which are unique for a structure: the `get` functions, the
-- parts of a function type, the n-th identified structure that was created, the tests, what a type is for the oracle of calling
-- conventions, and the layout, given the bodies that identified structures have by then.
pub record Llvm : Type 0 where
  pub void_type : ℕ
  pub float_type : ℕ
  pub double_type : ℕ
  pub fp128_type : ℕ
  pub integer_type : ℕ → ℕ
  pub pointer_to : ℕ → ℕ
  pub array_of : ℕ → ℕ → ℕ
  pub struct_of : List ℕ → ℕ
  pub function_of : ℕ → List ℕ → ℕ
  pub return_type : ℕ → ℕ
  pub param_types : ℕ → List ℕ
  pub identified : ℕ → ℕ
  pub is_sized : List (ℕ × List ℕ) → ℕ → Bool
  pub is_function : ℕ → Bool
  pub is_pointer : ℕ → Bool
  pub structure : ℕ → LlvmType
  pub address_of : LlvmType → ℕ
  pub layout : List (ℕ × List ℕ) → DataLayout

-- `TypeManager`: the members that this model reads, the types that exist, the number of identified
-- structures that were created, and the bodies that were set.
pub record TypeManager : Type 0 where
  pub types : Store
  pub anon_types : List ℕ
  pub aux_type_map : List (ℕ × ℕ)
  pub named_types : List ℕ
  pub rev_names : List (ℕ × ℕ)
  pub placeholders : List ℕ
  pub duplicates : List ℕ
  pub placeholder_refs : List (ℕ × List ℕ)
  pub complex_float_type : Option ℕ
  pub complex_double_type : Option ℕ
  pub error_type : ℕ
  pub circular_pointer_types : List ℕ
  pub circular_pointer_type_map : List (ℕ × ℕ)
  pub circular_load_map : List (ℕ × ℕ)
  pub circular_addr_map : List (ℕ × ℕ)
  pub circular_pointer_loop : List (ℕ × ℕ)
  pub identified_count : ℕ
  pub bodies : List (ℕ × List ℕ)

-- `find` and `operator[]` of a map.
unfoldable pub lookup {ℓ} : {A : Type ℓ} → ℕ → List (ℕ × A) → Option A
lookup k [] = none
lookup k ((j, v) ∷ m) = if k == j then some v else lookup k m

unfoldable pub insert_at {ℓ} : {A : Type ℓ} → ℕ → A → List (ℕ × A) → List (ℕ × A)
insert_at k v [] = (k, v) ∷ []
insert_at k v ((j, w) ∷ m) =
    let rest = insert_at k v m in if k == j then (k, v) ∷ m else (j, w) ∷ rest

-- A set of addresses.
unfoldable pub mem : ℕ → List ℕ → Bool
mem a [] = false
mem a (b ∷ bs) = if a == b then true else mem a bs

-- `std::set<Btype *>::insert`: the elements stand in the order of their addresses.
unfoldable pub insert_sorted : ℕ → List ℕ → List ℕ
insert_sorted a [] = a ∷ []
insert_sorted a (b ∷ bs) =
    let rest = insert_sorted a bs in
    if a == b then b ∷ bs else if ltb a b then a ∷ b ∷ bs else b ∷ rest

-- `placeholderRefs_[to]`; a missing entry is an empty set.
unfoldable pub refs_to : TypeManager → ℕ → List ℕ
refs_to m to = elim (lookup to m.placeholder_refs) [ none ↦ [] | some refs ↦ refs ]

-- `placeholderRefs_[to].insert(from)`
unfoldable pub add_ref : TypeManager → (to from : ℕ) → TypeManager
add_ref m to from = record m {
  placeholder_refs = insert_at to (insert_sorted from (refs_to m to)) m.placeholder_refs;
}

-- `makeOpaqueLlvmType`: a fresh identified structure.
abbrev pub make_opaque_llvm_type : Llvm → TypeManager → ℕ × TypeManager
make_opaque_llvm_type lv m =
    (lv.identified m.identified_count, record m { identified_count = m.identified_count + 1 })

-- A new object.
abbrev pub new : TypeManager → Btype → TypeManager
new m b = record m { types = m.types ++ (b ∷ []) }
