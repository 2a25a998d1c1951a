-- ===== src/TypeStore/Runs.antt =====
-- Tests of llvm-gofrontend/go-llvm-btype.cpp on small stores.
use dragongo.Common.{
  ℕ, zero, suc, true, none, some, [], ◌∷◌, ◌++◌, ◌≡◌, ◌≢◌, refl, arith, codes, ◌==◌, if◌then◌else◌,
  ◌<◌, All, subst,
}
use dragongo.Common.Run.{ok, stop, null_pointer, too_deep, value_of}
use dragongo.TypeStore.{
  Btype, Store, at, float_t, new_integer, new_float, new_btype, pointer_t, new_placeholder_pointer,
  new_pointer,
}
use dragongo.TypeStore.Equal.{same_members, equal_shapes, equal_at, equal, Hashes, hash}
use dragongo.TypeStore.Setters.{clone_shape, clone}
use dragongo.TypeStore.Transitive.{equal_trans, hash-equal}
use dragongo.TypeStore.Symmetry.{equal_comm}
use dragongo.TypeStore.Depth.{children, IsRanked, equal-returns}
use dragongo.TypeStore.Clone.{clone-equal}

-- A byte, three pointers to it, and a float type.
abbrev pointer_to_byte : Btype
pointer_to_byte = new_btype (pointer_t (some 0)) (some 90) 0

abbrev four_types : Store
four_types =
    new_integer true 8 (some 9) 0
    ∷ pointer_to_byte
    ∷ pointer_to_byte
    ∷ pointer_to_byte
    ∷ new_float 32 (some 1) 0
    ∷ []

abbrev sums : Hashes
sums = record { of_name = λ n. 7; of_type = λ t. elim t [ none ↦ 0 | some a ↦ a ] }

pointers_equal : equal 2 four_types 1 2 ≡ ok true
unfolding equal equal_at at same_members equal_shapes
pointers_equal = refl

too_shallow : equal 0 four_types 1 2 ≡ stop too_deep
unfolding equal
too_shallow = refl

-- Two placeholder pointers with the same name and LLVM type, both without a target.
abbrev two_placeholders : Store
two_placeholders =
    new_placeholder_pointer (codes "T") 3 ∷ new_placeholder_pointer (codes "T") 4 ∷ []

both_null : equal 2 two_placeholders 0 1 ≡ stop null_pointer
unfolding equal equal_at at same_members equal_shapes
both_null = refl

-- The clone of a float type has no bits.
float_cloned : clone four_types 4 ≡ ok (5, four_types ++ (new_btype (float_t none) (some 1) 0 ∷ []))
unfolding clone clone_shape at
float_cloned = refl

abbrev ranks : ℕ → ℕ
ranks a = if a == 0 then 0 else 1

-- One entry of the ranking.
ranked_at :
    (a : ℕ) (x y : Btype)
    → ok x ≡ ok y
    → All (λ c. ranks c < ranks a) (children x.shape)
    → All (λ c. ranks c < ranks a) (children y.shape)
ranked_at a x y e h =
    let same : x ≡ y = ground arith in
    subst (λ (t : Btype). All (λ c. ranks c < ranks a) (children t.shape)) same h

four_types-IsRanked : IsRanked ranks four_types
unfolding at
four_types-IsRanked zero x h = ranked_at 0 _ x h tt
four_types-IsRanked (suc zero) x h = ranked_at 1 pointer_to_byte x h (omega arith, tt)
four_types-IsRanked (suc (suc zero)) x h = ranked_at 2 pointer_to_byte x h (omega arith, tt)
four_types-IsRanked (suc (suc (suc zero))) x h = ranked_at 3 pointer_to_byte x h (omega arith, tt)
four_types-IsRanked (suc (suc (suc (suc zero)))) x h = ranked_at 4 _ x h tt
four_types-IsRanked (suc (suc (suc (suc (suc a))))) x h = ground arith

equal-returns_example : equal 2 four_types 1 3 ≢ stop too_deep
equal-returns_example = equal-returns ranks four_types 2 1 3 four_types-IsRanked (omega arith)

pointers_equal₂ : equal 2 four_types 2 3 ≡ ok true
unfolding equal equal_at at same_members equal_shapes
pointers_equal₂ = refl

at_1 : at four_types 1 ≡ ok pointer_to_byte
unfolding at
at_1 = refl

at_2 : at four_types 2 ≡ ok pointer_to_byte
unfolding at
at_2 = refl

equal_trans_example : equal 2 four_types 1 3 ≡ ok true
equal_trans_example = equal_trans four_types 2 1 2 3 pointers_equal pointers_equal₂

equal_comm_example : equal 2 four_types 1 4 ≡ equal 2 four_types 4 1
equal_comm_example = equal_comm four_types 2 1 4

hash-equal_example : hash sums pointer_to_byte ≡ hash sums pointer_to_byte
hash-equal_example =
    hash-equal four_types sums 2 1 2 pointer_to_byte pointer_to_byte at_1 at_2 pointers_equal

pointer_cloned : (r : ℕ × Store) × (clone four_types 1 ≡ ok r)
unfolding clone clone_shape at new_pointer
pointer_cloned = value_of _ refl

clone-equal_example :
    (pointer_cloned.0.0 ≡ 5)
    × ((x : Btype) × (pointer_cloned.0.1 ≡ four_types ++ (x ∷ [])))
    × (equal 2 pointer_cloned.0.1 1 pointer_cloned.0.0 ≡ ok true)
clone-equal_example = clone-equal 0 four_types 1 pointer_to_byte at_1 refl pointer_cloned.1
