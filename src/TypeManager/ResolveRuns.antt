-- ===== src/TypeManager/ResolveRuns.antt =====
-- Tests of go-llvm-typemanager.cpp: placeholders that are resolved.
use dragongo.Common.{ℕ, ◌<◌, Bool, Option, some, [], ◌∷◌, ◌≡◌, ◌≢◌, refl, arith, codes, All}
use dragongo.Common.Run.{Run, ok, stop, out_of_rounds, ◌>>=◌, value_of}
use dragongo.Bnode.{set_elem}
use dragongo.TypeStore.{Btype, at, new_pointer, new_array}
use dragongo.TypeStore.Equal.{same_members, equal_shapes, equal_at, equal, hash}
use dragongo.TypeStore.Setters.{put, set_type, set_placeholder, set_to_type}
use dragongo.TypeStore.Updates.{unresolved, Settles}
use dragongo.TypeManager.{TypeManager, lookup, insert_at, mem, insert_sorted, refs_to, add_ref}
use dragongo.TypeManager.Anon.{
  erase, matches, find_equal, find_candidate, insert_anon, remove_anon_type, reinstall_anon_type,
}
use dragongo.TypeManager.Refs.{add_child_ref, add_placeholder_refs}
use dragongo.TypeManager.Make.{
  make_aux_type, mark_placeholder, placeholder_pointer_type, pointee, install, integer_type,
  pointer_type, constant_array_type, array_type, init,
}
use dragongo.TypeManager.Resolve.{
  replace_type, resolved_type, resolve_other, resolve_shape, resolve_one, resolve_each,
  resolve_refs, post_process,
}
use dragongo.TypeManager.Redirect.{assert_placeholder, await_or_resolve, redirect_pointer}
use dragongo.TypeManager.Circular.{follow_from, follow_loop}
use dragongo.TypeManager.Settled.{completed, post_process-Settles}
use dragongo.TypeManager.Rounds.{post_process-Ends}
use dragongo.TypeManager.Completed.{IsComplete, post_process-IsComplete}
use dragongo.TypeManager.Redirected.{redirected, redirect_pointer-now}
use dragongo.TypeManager.Later.{redirect_pointer-later}
use dragongo.TypeManager.Example.{llvm, sums, started, promised, pointing, waiting}

completed_all : (m : TypeManager) × (post_process llvm sums 3 4 waiting.0.1 3 ≡ ok m)
unfolding waiting pointing promised placeholder_pointer_type array_type constant_array_type
    new_array add_ref refs_to insert_sorted post_process resolve_refs resolve_each resolve_one
    resolve_shape resolve_other resolved_type replace_type remove_anon_type erase
    reinstall_anon_type started value_of init make_aux_type integer_type pointer_type pointee
    install find_candidate find_equal matches hash equal equal_at at same_members equal_shapes
    insert_anon new_pointer mark_placeholder add_placeholder_refs add_child_ref set_placeholder put
    set_elem lookup insert_at set_type
completed_all = value_of _ refl

post_process-Settles_example : Settles waiting.0.1.types completed_all.0.types
post_process-Settles_example =
    post_process-Settles llvm sums 3 4 waiting.0.1 3 completed_all.0 completed_all.1

few : unresolved waiting.0.1.types < 4
unfolding unresolved waiting pointing promised placeholder_pointer_type array_type
    constant_array_type new_array add_ref refs_to insert_sorted started value_of init make_aux_type
    integer_type pointer_type pointee install find_candidate find_equal matches hash equal equal_at
    at same_members equal_shapes insert_anon new_pointer mark_placeholder add_placeholder_refs
    add_child_ref set_placeholder put set_elem lookup insert_at set_type
few = omega arith

post_process-Ends_example : post_process llvm sums 3 4 waiting.0.1 3 ≢ stop out_of_rounds
post_process-Ends_example = post_process-Ends llvm sums 3 4 waiting.0.1 3 few

recorded : lookup 3 waiting.0.1.placeholder_refs ≡ some (4 ∷ 5 ∷ [])
unfolding waiting pointing promised placeholder_pointer_type array_type constant_array_type
    new_array add_ref refs_to insert_sorted started value_of init make_aux_type integer_type
    pointer_type pointee install find_candidate find_equal matches hash equal equal_at at
    same_members equal_shapes insert_anon new_pointer mark_placeholder add_placeholder_refs
    add_child_ref set_placeholder put set_elem lookup insert_at set_type
recorded = refl

post_process-IsComplete_example : All (IsComplete completed_all.0.types) (4 ∷ 5 ∷ [])
post_process-IsComplete_example =
    post_process-IsComplete llvm sums 3 4 waiting.0.1 3 (4 ∷ 5 ∷ []) completed_all.0 recorded
      completed_all.1

-- The announced pointer becomes the string type, at once.
redirected_now : (r : Bool × TypeManager) × (redirect_pointer llvm sums 3 4 waiting.0.1 3 2 ≡ ok r)
unfolding waiting pointing promised placeholder_pointer_type array_type constant_array_type
    new_array add_ref refs_to insert_sorted post_process resolve_refs resolve_each resolve_one
    resolve_shape resolve_other resolved_type replace_type remove_anon_type erase
    reinstall_anon_type redirect_pointer assert_placeholder mem set_to_type await_or_resolve
    follow_loop follow_from started value_of init make_aux_type integer_type pointer_type pointee
    install find_candidate find_equal matches hash equal equal_at at same_members equal_shapes
    insert_anon new_pointer mark_placeholder add_placeholder_refs add_child_ref set_placeholder put
    set_elem lookup insert_at set_type
redirected_now = value_of _ refl

placeholder_at : (b : Btype) × (at waiting.0.1.types 3 ≡ ok b)
unfolding waiting pointing promised placeholder_pointer_type array_type constant_array_type
    new_array add_ref refs_to insert_sorted started value_of init make_aux_type integer_type
    pointer_type pointee install find_candidate find_equal matches hash equal equal_at at
    same_members equal_shapes insert_anon new_pointer mark_placeholder add_placeholder_refs
    add_child_ref set_placeholder put set_elem lookup insert_at set_type
placeholder_at = value_of _ refl

string_at : (b : Btype) × (at waiting.0.1.types 2 ≡ ok b)
unfolding waiting pointing promised placeholder_pointer_type array_type constant_array_type
    new_array add_ref refs_to insert_sorted started value_of init make_aux_type integer_type
    pointer_type pointee install find_candidate find_equal matches hash equal equal_at at
    same_members equal_shapes insert_anon new_pointer mark_placeholder add_placeholder_refs
    add_child_ref set_placeholder put set_elem lookup insert_at set_type
string_at = value_of _ refl

redirect_pointer-now_example :
    at redirected_now.0.1.types 3 ≡ ok (completed (redirected placeholder_at.0 2 1012) 1012)
unfolding redirected_now placeholder_at string_at waiting pointing promised placeholder_pointer_type
    array_type constant_array_type new_array add_ref refs_to insert_sorted post_process resolve_refs
    resolve_each resolve_one resolve_shape resolve_other resolved_type replace_type remove_anon_type
    erase reinstall_anon_type redirect_pointer assert_placeholder mem set_to_type await_or_resolve
    follow_loop follow_from started value_of init make_aux_type integer_type pointer_type pointee
    install find_candidate find_equal matches hash equal equal_at at same_members equal_shapes
    insert_anon new_pointer mark_placeholder add_placeholder_refs add_child_ref set_placeholder put
    set_elem lookup insert_at set_type
redirect_pointer-now_example =
    redirect_pointer-now llvm sums 3 4 waiting.0.1 3 2 placeholder_at.0 string_at.0 1012
      redirected_now.0.0 redirected_now.0.1 (λ e. omega arith) placeholder_at.1 string_at.1 refl
      refl redirected_now.1

-- Two announced pointers: the first is redirected to the second while that is unresolved, and then
-- the second to the string type.
second : (r : ℕ × TypeManager) × (placeholder_pointer_type llvm promised.0.1 (codes "Q") 7 ≡ ok r)
unfolding promised placeholder_pointer_type add_ref refs_to insert_sorted started value_of init
    make_aux_type integer_type pointer_type pointee install find_candidate find_equal matches hash
    equal equal_at at same_members equal_shapes insert_anon new_pointer mark_placeholder
    add_placeholder_refs add_child_ref set_placeholder put set_elem lookup insert_at set_type
second = value_of _ refl

chained : (r : Bool × TypeManager) × (redirect_pointer llvm sums 3 4 second.0.1 3 4 ≡ ok r)
unfolding second promised placeholder_pointer_type add_ref refs_to insert_sorted post_process
    resolve_refs resolve_each resolve_one resolve_shape resolve_other resolved_type replace_type
    remove_anon_type erase reinstall_anon_type redirect_pointer assert_placeholder mem set_to_type
    await_or_resolve follow_loop follow_from started value_of init make_aux_type integer_type
    pointer_type pointee install find_candidate find_equal matches hash equal equal_at at
    same_members equal_shapes insert_anon new_pointer mark_placeholder add_placeholder_refs
    add_child_ref set_placeholder put set_elem lookup insert_at set_type
chained = value_of _ refl

settled : (r : Bool × TypeManager) × (redirect_pointer llvm sums 3 4 chained.0.1 4 2 ≡ ok r)
unfolding chained second promised placeholder_pointer_type add_ref refs_to insert_sorted
    post_process resolve_refs resolve_each resolve_one resolve_shape resolve_other resolved_type
    replace_type remove_anon_type erase reinstall_anon_type redirect_pointer assert_placeholder mem
    set_to_type await_or_resolve follow_loop follow_from started value_of init make_aux_type
    integer_type pointer_type pointee install find_candidate find_equal matches hash equal equal_at
    at same_members equal_shapes insert_anon new_pointer mark_placeholder add_placeholder_refs
    add_child_ref set_placeholder put set_elem lookup insert_at set_type
settled = value_of _ refl

abbrev type_at : TypeManager → ℕ → Run (Option ℕ)
type_at m a = at m.types a >>= λ b. ok b.type

-- The second has the LLVM type of the string type, the first that of a pointer to it.
one_level_more : (type_at settled.0.1 4 ≡ ok (some 1012)) × (type_at settled.0.1 3 ≡ ok (some 2012))
unfolding settled chained second promised placeholder_pointer_type add_ref refs_to insert_sorted
    post_process resolve_refs resolve_each resolve_one resolve_shape resolve_other resolved_type
    replace_type remove_anon_type erase reinstall_anon_type redirect_pointer assert_placeholder mem
    set_to_type await_or_resolve follow_loop follow_from started value_of init make_aux_type
    integer_type pointer_type pointee install find_candidate find_equal matches hash equal equal_at
    at same_members equal_shapes insert_anon new_pointer mark_placeholder add_placeholder_refs
    add_child_ref set_placeholder put set_elem lookup insert_at set_type
one_level_more = (refl, refl)

first_at : (b : Btype) × (at second.0.1.types 3 ≡ ok b)
unfolding second promised placeholder_pointer_type started value_of init make_aux_type integer_type
    pointer_type pointee install find_candidate find_equal matches hash equal equal_at at
    same_members equal_shapes insert_anon new_pointer mark_placeholder add_placeholder_refs
    add_child_ref set_placeholder put set_elem lookup insert_at set_type
first_at = value_of _ refl

second_at : (b : Btype) × (at second.0.1.types 4 ≡ ok b)
unfolding second promised placeholder_pointer_type started value_of init make_aux_type integer_type
    pointer_type pointee install find_candidate find_equal matches hash equal equal_at at
    same_members equal_shapes insert_anon new_pointer mark_placeholder add_placeholder_refs
    add_child_ref set_placeholder put set_elem lookup insert_at set_type
second_at = value_of _ refl

target_at : (b : Btype) × (at second.0.1.types 2 ≡ ok b)
unfolding second promised placeholder_pointer_type started value_of init make_aux_type integer_type
    pointer_type pointee install find_candidate find_equal matches hash equal equal_at at
    same_members equal_shapes insert_anon new_pointer mark_placeholder add_placeholder_refs
    add_child_ref set_placeholder put set_elem lookup insert_at set_type
target_at = value_of _ refl

redirect_pointer-later_example :
    (at settled.0.1.types 4 ≡ ok (completed (redirected second_at.0 2 1012) 1012))
    × (at settled.0.1.types 3 ≡ ok (completed (redirected first_at.0 4 1302) 2012))
unfolding first_at second_at target_at second promised placeholder_pointer_type started value_of
    init make_aux_type integer_type pointer_type pointee install find_candidate find_equal matches
    hash equal equal_at at same_members equal_shapes insert_anon new_pointer mark_placeholder
    add_placeholder_refs add_child_ref set_placeholder put set_elem lookup insert_at set_type
redirect_pointer-later_example =
    redirect_pointer-later llvm sums 3 4 second.0.1 3 4 2 first_at.0 second_at.0 target_at.0 1302
      1012 chained.0.0 settled.0.0 chained.0.1 settled.0.1
      ((λ e. ground arith), (λ e. ground arith), (λ e. ground arith)) (first_at.1, refl)
      (second_at.1, refl, refl) (target_at.1, refl, refl) refl chained.1 settled.1
