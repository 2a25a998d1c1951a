-- ===== src/TypeManager/Runs.antt =====
-- Tests of go-llvm-typemanager.cpp: types that are asked for twice, function types and loops.
use dragongo.Common.{ℕ, List, inl, inr, true, some, [], ◌∷◌, ◌≡◌, ◌≢◌, refl, arith, codes}
use dragongo.Common.Run.{ok, value_of}
use dragongo.Cabi.Types.{other, DataLayout}
use dragongo.Bnode.{set_elem}
use dragongo.TypeStore.{Btype, at, new_pointer, new_array}
use dragongo.TypeStore.Equal.{same_members, equal_shapes, equal_at, equal, hash}
use dragongo.TypeStore.Setters.{put, set_type, set_placeholder}
use dragongo.TypeManager.{TypeManager, lookup, insert_at, insert_sorted, refs_to, add_ref}
use dragongo.TypeManager.Anon.{matches, find_equal, find_candidate, insert_anon}
use dragongo.TypeManager.Refs.{add_child_ref, add_placeholder_refs}
use dragongo.TypeManager.Make.{
  make_aux_type, mark_placeholder, placeholder_struct_type, placeholder_pointer_type, pointee,
  install, integer_type, pointer_type, constant_array_type, array_type, init,
}
use dragongo.TypeManager.Circular.{follow_loop, circular_pointer_type, new_circular_pointer_type}
use dragongo.TypeManager.Loops.{follow_all, IsClosed, follow_loop-IsClosed}
use dragongo.TypeManager.Repeats.{pointer_type-repeats}
use dragongo.TypeManager.Again.{make, make_again, array}
use dragongo.TypeManager.Example.{llvm, sums, started, promised, pointing, waiting}
use dragongo.Cabi.Types
use dragongo.Cabi.{CabiOracle, analyze, return_disp, classify_arg_type, aux_is_simple}
use dragongo.Cabi.Total.{analyze-some}
use dragongo.TypeManager.Functions.{oracle_type, oracle_types, oracle_shape, abi_function_type}
use dragongo.TypeManager.Abi.{IsAbiType, abi_function_type-IsAbiType}

-- A structure that is announced, and a pointer to it that is asked for twice.
announced : (r : ℕ × TypeManager) × (placeholder_struct_type llvm started.0 (codes "S") 7 ≡ ok r)
unfolding started value_of init make_aux_type integer_type pointer_type pointee install
    find_candidate find_equal matches hash equal equal_at at same_members equal_shapes insert_anon
    new_pointer mark_placeholder add_placeholder_refs add_child_ref set_placeholder put set_elem
    lookup insert_at placeholder_struct_type set_type
announced = value_of _ refl

once : (r : ℕ × TypeManager) × (pointer_type llvm sums 3 announced.0.1 3 ≡ ok r)
unfolding announced started value_of init make_aux_type integer_type pointer_type pointee install
    find_candidate find_equal matches hash equal equal_at at same_members equal_shapes insert_anon
    new_pointer mark_placeholder add_placeholder_refs add_child_ref set_placeholder put set_elem
    lookup insert_at placeholder_struct_type set_type
once = value_of _ refl

twice : (r : ℕ × TypeManager) × (pointer_type llvm sums 3 once.0.1 3 ≡ ok r)
unfolding once announced started value_of init make_aux_type integer_type pointer_type pointee
    install find_candidate find_equal matches hash equal equal_at at same_members equal_shapes
    insert_anon new_pointer mark_placeholder add_placeholder_refs add_child_ref set_placeholder put
    set_elem lookup insert_at placeholder_struct_type set_type
twice = value_of _ refl

announced_at : (b : Btype) × (at announced.0.1.types 3 ≡ ok b)
unfolding announced started value_of init make_aux_type integer_type pointer_type pointee install
    find_candidate find_equal matches hash equal equal_at at same_members equal_shapes insert_anon
    new_pointer mark_placeholder add_placeholder_refs add_child_ref set_placeholder put set_elem
    lookup insert_at placeholder_struct_type set_type
announced_at = value_of _ refl

-- The two pointers are different types, and the second of them is not in the set.
two_pointers : (once.0.0 ≡ 4) × (twice.0.0 ≡ 5)
unfolding twice once announced started value_of init make_aux_type integer_type pointer_type pointee
    install find_candidate find_equal matches hash equal equal_at at same_members equal_shapes
    insert_anon new_pointer mark_placeholder add_placeholder_refs add_child_ref set_placeholder put
    set_elem lookup insert_at placeholder_struct_type set_type
two_pointers = (refl, refl)

pointer_type-repeats_example : once.0.0 ≢ twice.0.0
unfolding twice once announced_at announced started value_of init make_aux_type integer_type
    pointer_type pointee install find_candidate find_equal matches hash equal equal_at at
    same_members equal_shapes insert_anon new_pointer mark_placeholder add_placeholder_refs
    add_child_ref set_placeholder put set_elem lookup insert_at placeholder_struct_type set_type
pointer_type-repeats_example =
    pointer_type-repeats llvm sums 1 announced.0.1 once.0.1 twice.0.1 3 once.0.0 twice.0.0
      announced_at.0 announced_at.1 refl refl (λ e. ground arith) once.1 twice.1

make_again_example : make llvm sums 3 waiting.0.1 (array 3 4) ≡ ok (waiting.0.0, waiting.0.1)
unfolding waiting pointing promised placeholder_pointer_type array_type constant_array_type
    new_array add_ref refs_to insert_sorted started value_of init make_aux_type integer_type
    pointer_type pointee install find_candidate find_equal matches hash equal equal_at at
    same_members equal_shapes insert_anon new_pointer mark_placeholder add_placeholder_refs
    add_child_ref set_placeholder put set_elem lookup insert_at set_type
make_again_example =
    make_again llvm sums 1 pointing.0.1 waiting.0.1 (array 3 4) waiting.0.0
      (λ b h. let same = h in ground arith) waiting.1

-- A loop of three types: the marker for the first, and two links before the one that closes it.
marked : (r : ℕ × TypeManager) × (circular_pointer_type llvm started.0 9 ≡ ok r)
unfolding circular_pointer_type new_circular_pointer_type started value_of init make_aux_type
    integer_type pointer_type pointee install find_candidate find_equal matches hash equal equal_at
    at same_members equal_shapes insert_anon new_pointer mark_placeholder add_placeholder_refs
    add_child_ref set_placeholder put set_elem lookup insert_at set_type
marked = value_of _ refl

follow_loop-IsClosed_example :
    IsClosed
      (follow_loop (follow_all marked.0.1 ((11, 12) ∷ (13, 14) ∷ [])) 15 3)
      3
      15
      (9, 3)
      ((11, 12) ∷ (13, 14) ∷ [])
unfolding marked circular_pointer_type new_circular_pointer_type started value_of init make_aux_type
    integer_type pointer_type pointee install find_candidate find_equal matches hash equal equal_at
    at same_members equal_shapes insert_anon new_pointer mark_placeholder add_placeholder_refs
    add_child_ref set_placeholder put set_elem lookup insert_at set_type
follow_loop-IsClosed_example =
    follow_loop-IsClosed marked.0.1 9 3 15 ((11, 12) ∷ (13, 14) ∷ []) refl (refl, (refl, tt))

-- A function of an array that is larger than two registers.
array_read : (bts : List Types.Btype) × (oracle_types llvm 3 waiting.0.1.types (5 ∷ []) ≡ ok bts)
unfolding oracle_types oracle_type oracle_shape waiting pointing promised placeholder_pointer_type
    array_type constant_array_type new_array add_ref refs_to insert_sorted started value_of init
    make_aux_type integer_type pointer_type pointee install find_candidate find_equal matches hash
    equal equal_at at same_members equal_shapes insert_anon new_pointer mark_placeholder
    add_placeholder_refs add_child_ref set_placeholder put set_elem lookup insert_at set_type
array_read = value_of _ refl

result_read : (bt : Types.Btype) × (oracle_type llvm 3 waiting.0.1.types 5 ≡ ok bt)
unfolding oracle_types oracle_type oracle_shape waiting pointing promised placeholder_pointer_type
    array_type constant_array_type new_array add_ref refs_to insert_sorted started value_of init
    make_aux_type integer_type pointer_type pointee install find_candidate find_equal matches hash
    equal equal_at at same_members equal_shapes insert_anon new_pointer mark_placeholder
    add_placeholder_refs add_child_ref set_placeholder put set_elem lookup insert_at set_type
result_read = value_of _ refl

analysed :
    (o : CabiOracle) × (analyze (llvm.layout waiting.0.1.bodies) array_read.0 result_read.0 true
      ≡ some o)
unfolding array_read result_read oracle_types oracle_type oracle_shape waiting pointing promised
    placeholder_pointer_type array_type constant_array_type new_array add_ref refs_to insert_sorted
    started value_of init make_aux_type integer_type pointer_type pointee install find_candidate
    find_equal matches hash equal equal_at at same_members equal_shapes insert_anon new_pointer
    mark_placeholder add_placeholder_refs add_child_ref set_placeholder put set_elem lookup
    insert_at set_type return_disp classify_arg_type aux_is_simple
analysed =
    analyze-some (llvm.layout waiting.0.1.bodies) array_read.0 result_read.0
      ((refl, inr (inl (omega arith))), tt) (inl (λ e. ground arith)) (omega arith)

function_made : (ft : ℕ) × (abi_function_type llvm 3 waiting.0.1 (5 ∷ []) 5 true ≡ ok ft)
unfolding abi_function_type
function_made = (600000, rw (array_read.1, result_read.1, analysed.1) refl)

abi_function_type-IsAbiType_example : IsAbiType llvm 3 waiting.0.1 (5 ∷ []) 5 function_made.0
abi_function_type-IsAbiType_example =
    abi_function_type-IsAbiType llvm 3 waiting.0.1 (5 ∷ []) 5 function_made.0 (omega arith)
      function_made.1
