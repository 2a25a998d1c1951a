-- ===== src/TypeManager/Example.antt =====
-- A concrete stand-in for LLVM's types and for the hashes, and some types made with them, for tests of
-- go-llvm-typemanager.cpp.
use dragongo.Common.{ℕ, ◌+◌, ◌*◌, true, none, some, [], length, ◌≡◌, refl, codes, ◌==◌, leb}
use dragongo.Common.Run.{ok, value_of}
use dragongo.Cabi.Types.{other, DataLayout}
use dragongo.Bnode.{set_elem}
use dragongo.TypeStore.{at, new_pointer, new_array}
use dragongo.TypeStore.Equal.{same_members, equal_shapes, equal_at, equal, Hashes, hash}
use dragongo.TypeStore.Setters.{put, set_type, set_placeholder}
use dragongo.TypeManager.{Llvm, TypeManager, lookup, insert_at, insert_sorted, refs_to, add_ref}
use dragongo.TypeManager.Anon.{matches, find_equal, find_candidate, insert_anon}
use dragongo.TypeManager.Refs.{add_child_ref, add_placeholder_refs}
use dragongo.TypeManager.Make.{
  make_aux_type, mark_placeholder, placeholder_pointer_type, pointee, install, integer_type,
  pointer_type, constant_array_type, array_type, constant, init,
}

abbrev all_large : DataLayout
all_large = record { size_in_bits = λ t. 256; alloc_size = λ t. 32; element_offset = λ t i. 8 * i }

abbrev pub llvm : Llvm
llvm = record {
  void_type = 0;
  float_type = 1;
  double_type = 2;
  fp128_type = 3;
  integer_type = λ n. n + 4;
  pointer_to = λ t. t + 1000;
  array_of = λ t n. t + (10000 * (n + 1));
  struct_of = λ ts. 500000;
  function_of = λ r ps. 600000;
  return_type = λ t. 0;
  param_types = λ t. [];
  identified = λ n. n + 300;
  is_sized = λ bodies t. true;
  is_function = λ t. t == 600000;
  is_pointer = λ t. leb 1000 t;
  structure = λ t. other t;
  address_of = λ t. 700;
  layout = λ bodies. all_large;
}

abbrev pub sums : Hashes
sums = record { of_name = λ n. length n; of_type = λ t. elim t [ none ↦ 0 | some a ↦ a ] }

unfoldable pub started : (m : TypeManager) × (init llvm sums 3 ≡ ok m)
unfolding init make_aux_type integer_type pointer_type pointee install find_candidate find_equal
    matches hash equal equal_at at same_members equal_shapes insert_anon new_pointer
    mark_placeholder add_placeholder_refs add_child_ref set_placeholder put set_elem lookup
    insert_at
started = value_of _ refl

-- A pointer that is announced, a pointer to it and an array of it.
unfoldable pub promised :
    (r : ℕ × TypeManager) × (placeholder_pointer_type llvm started.0 (codes "P") 7 ≡ ok r)
unfolding placeholder_pointer_type array_type constant_array_type new_array add_ref refs_to
    insert_sorted started value_of init make_aux_type integer_type pointer_type pointee install
    find_candidate find_equal matches hash equal equal_at at same_members equal_shapes insert_anon
    new_pointer mark_placeholder add_placeholder_refs add_child_ref set_placeholder put set_elem
    lookup insert_at set_type
promised = value_of _ refl

unfoldable pub pointing : (r : ℕ × TypeManager) × (pointer_type llvm sums 3 promised.0.1 3 ≡ ok r)
unfolding promised placeholder_pointer_type array_type constant_array_type new_array add_ref refs_to
    insert_sorted started value_of init make_aux_type integer_type pointer_type pointee install
    find_candidate find_equal matches hash equal equal_at at same_members equal_shapes insert_anon
    new_pointer mark_placeholder add_placeholder_refs add_child_ref set_placeholder put set_elem
    lookup insert_at set_type
pointing = value_of _ refl

unfoldable pub waiting :
    (r : ℕ × TypeManager) × (array_type llvm sums 3 pointing.0.1 3 (constant 4) ≡ ok r)
unfolding pointing promised placeholder_pointer_type array_type constant_array_type new_array
    add_ref refs_to insert_sorted started value_of init make_aux_type integer_type pointer_type
    pointee install find_candidate find_equal matches hash equal equal_at at same_members
    equal_shapes insert_anon new_pointer mark_placeholder add_placeholder_refs add_child_ref
    set_placeholder put set_elem lookup insert_at set_type
waiting = value_of _ refl
