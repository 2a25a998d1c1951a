-- ===== src/Cabi/Composite.antt =====
-- Arrays with composite elements of SSE class, in go-llvm-cabi-oracle.cpp.
use dragongo.Common.{
  ℕ, zero, suc, ◌*◌, ◌≤◌, ◌<◌, ◌≡◌, false, none, some, List, [], ◌∷◌, arith, le→leb,
}
use dragongo.Cabi.Types.{
  LlvmType, is_float_or_double, Btype, array_type, DataLayout, type, type_size,
}
use dragongo.Cabi.Disp.{sse, disp_meet, typ_disp}
use dragongo.Cabi.Regions.{EightByteRegion, types_disp, region_disp}
use dragongo.Cabi.Explode.{
  one, place_element, place_elements, sse_type, determine_abi_type, determine_abi_types,
  explode_array, explode, eight_byte_info,
}

module _ (dl : DataLayout) where
  one_undetermined :
      (t : LlvmType) (off : ℕ)
      → typ_disp t ≡ sse
      → is_float_or_double t ≡ false
      → determine_abi_type dl (one t off) ≡ none
  unfolding determine_abi_type region_disp types_disp disp_meet sse_type
  one_undetermined t off class composite = rw (class, determine_abi_type) (rw composite)

  undetermined :
      (t : LlvmType) (off : ℕ) (rs : List EightByteRegion)
      → typ_disp t ≡ sse
      → is_float_or_double t ≡ false
      → determine_abi_types dl (one t off ∷ rs) ≡ none
  unfolding determine_abi_types
  undetermined t off rs class composite = rw (one_undetermined t off class composite)

  -- An array of at most 16 bytes whose elements are composite, of SSE class and 8 bytes or more, is
  -- never classified: an assertion on the type of its first region fails.
  pub composite_array_unclassified :
      (elem : Btype) (t : LlvmType) (n e : ℕ)
      → typ_disp (type elem) ≡ sse
      → is_float_or_double (type elem) ≡ false
      → type_size dl (type elem) ≡ some e
      → dl.alloc_size t ≤ 16
      → 0 < n
      → 8 ≤ e
      → n * e ≤ 16
      → eight_byte_info dl (array_type elem n t) ≡ none
  unfolding eight_byte_info explode explode_array place_elements place_element
  composite_array_unclassified elem t zero e class composite size fits pos wide small =
      absurd (omega arith)
  composite_array_unclassified elem t (suc zero) e class composite size fits pos wide small =
      rw (le→leb _ _ fits, size) (undetermined (type elem) _ [] class composite)
  composite_array_unclassified elem t (suc (suc zero)) e class composite size fits pos wide small =
      let eight : e ≡ 8 = omega arith in
      rw (le→leb _ _ fits, size, eight) (undetermined (type elem) _ _ class composite)
  composite_array_unclassified elem t (suc (suc (suc n))) e class composite size fits pos wide
        small =
      absurd (grind arith)
