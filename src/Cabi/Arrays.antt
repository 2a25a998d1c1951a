-- ===== src/Cabi/Arrays.antt =====
-- `explodeArray` and `determineABITypes` of go-llvm-cabi-oracle.cpp on arrays of integer class.
use dragongo.Common.{
  ℕ, zero, suc, ◌+◌, ◌-◌, ◌*◌, ◌^◌, ◌≤◌, ◌<◌, ◌≡◌, refl, sym, ap, ◌∙◌, inl, inr, ◌++◌, Bool, true,
  false, ◌&&◌, ◌||◌, Option, none, some, List, [], ◌∷◌, map, map-append, arith, ltb, leb, ◌==◌,
  le→leb, ltb→lt, subst, if◌then◌else◌, ◌>>=◌, ◌>>◌, assert, length, length-map, Bool-cases,
}
use dragongo.Cabi.Types.{LlvmType, Btype, array_type, DataLayout, type, type_size, u32}
use dragongo.Cabi.Disp.{int, is_sse, disp_meet, typ_disp}
use dragongo.Cabi.Regions.{EightByteRegion, attr_none, region_disp, types_disp}
use dragongo.Cabi.Explode.{
  extend_last, place_element, place_elements, last_of, int_type, determine_abi_type,
  determine_abi_types, explode_array, eight_byte_info,
}

-- The offsets of the regions that the loop makes, whatever the element type.
extend_offsets : List (List ℕ) → ℕ → List (List ℕ)
extend_offsets [] off = []
extend_offsets (o ∷ []) off = (o ++ (off ∷ [])) ∷ []
extend_offsets (o ∷ o' ∷ os) off = o ∷ extend_offsets (o' ∷ os) off

add_offset : ℕ → List (List ℕ) → ℕ → List (List ℕ)
add_offset cur_offset os off =
    if length os == 0 || (leb 8 off && ltb cur_offset 8)
    then os ++ ((off ∷ []) ∷ [])
    else extend_offsets os off

element_offsets : (n elidx el_size cur_offset : ℕ) → List (List ℕ) → List (List ℕ)
element_offsets zero elidx el_size cur_offset os = os
element_offsets (suc n) elidx el_size cur_offset os =
    let off = u32 (elidx * el_size) in
    element_offsets n (elidx + 1) el_size (u32 (cur_offset + off)) (add_offset cur_offset os off)

-- A region of elements of one type.
abbrev uniform : LlvmType → List ℕ → EightByteRegion
uniform t os = record {
  types = map (λ _. t) os;
  offsets = os;
  abi_direct_type = none;
  attr = attr_none;
}

extend_last-uniform :
    (t : LlvmType) (os : List (List ℕ)) (off : ℕ)
    → extend_last (map (uniform t) os) t off ≡ map (uniform t) (extend_offsets os off)
unfolding extend_last extend_offsets
extend_last-uniform t [] off = refl
extend_last-uniform t (o ∷ []) off = rw map-append
extend_last-uniform t (o ∷ o' ∷ os) off =
    ap (◌∷◌ (uniform t o)) (extend_last-uniform t (o' ∷ os) off)

place_element-uniform :
    (cur : ℕ) (t : LlvmType) (os : List (List ℕ)) (off : ℕ)
    → place_element cur (map (uniform t) os) t off ≡ map (uniform t) (add_offset cur os off)
unfolding place_element add_offset
place_element-uniform cur t os off =
    rw length-map (elim (Bool-cases (length os == 0 || (leb 8 off && ltb cur 8))) [
      | inl b ↦ rw (b, map-append)
      | inr b ↦ rw b (extend_last-uniform t os off)
    ])

place_elements-uniform :
    (n idx e cur : ℕ) (t : LlvmType) (os : List (List ℕ))
    → place_elements n idx e cur t (map (uniform t) os)
      ≡ map (uniform t) (element_offsets n idx e cur os)
unfolding place_elements element_offsets
place_elements-uniform zero idx e cur t os = refl
place_elements-uniform (suc n) idx e cur t os =
    let off = u32 (idx * e) in
    rw (place_element-uniform cur t os off)
      (place_elements-uniform n (idx + 1) e (u32 (cur + off)) t (add_offset cur os off))

-- Whether a value is there.
abbrev pub has : {A : Type 0} → Option A → Bool
has none = false
has (some a) = true

abbrev in_eight : ℕ → Bool
in_eight bytes = ltb 0 bytes && leb bytes 8

accepts_region : ℕ → List ℕ → Bool
unfolding last_of
accepts_region e [] = false
accepts_region e (o ∷ os) = in_eight (u32 (last_of o os + 2 ^ 32 - o + e))

accepts_regions : ℕ → List (List ℕ) → Bool
accepts_regions e [] = true
accepts_regions e (o ∷ os) = accepts_region e o && accepts_regions e os

-- Whether `n` elements of `e` bytes pass.
accepts : ℕ → ℕ → Bool
accepts n e = let os = element_offsets n 0 (u32 e) 0 [] in leb (length os) 2 && accepts_regions e os

types_disp-int :
    (t : LlvmType) (os : List ℕ) → typ_disp t ≡ int → types_disp (map (λ _. t) os) int ≡ int
unfolding types_disp disp_meet
types_disp-int t [] e = refl
types_disp-int t (o ∷ os) e = rw (e, types_disp) (types_disp-int t os e)

uniform-not-sse :
    (t : LlvmType) (os : List ℕ) → typ_disp t ≡ int → is_sse (region_disp (uniform t os)) ≡ false
unfolding region_disp types_disp disp_meet
uniform-not-sse t [] e = refl
uniform-not-sse t (o ∷ os) e = rw (e, region_disp, types_disp) (ap is_sse (types_disp-int t os e))

last_of-uniform : (t : LlvmType) (os : List ℕ) → last_of t (map (λ _. t) os) ≡ t
unfolding last_of
last_of-uniform t [] = refl
last_of-uniform t (o ∷ os) = last_of-uniform t os

has-assert :
    {A B : Type 0} (b : Bool) (a : A) (f : A → B)
    → has ((assert b >> some a) >>= λ x. some (f x)) ≡ b
has-assert true a f = refl
has-assert false a f = refl

module _ (dl : DataLayout) (t : LlvmType) (e : ℕ) (class : typ_disp t ≡ int)
    (size : type_size dl t ≡ some e) where
  has-determine : (os : List ℕ) → has (determine_abi_type dl (uniform t os)) ≡ accepts_region e os
  unfolding determine_abi_type int_type accepts_region
  has-determine [] = rw (uniform-not-sse t [] class, determine_abi_type)
  has-determine (o ∷ os) =
      rw (uniform-not-sse t (o ∷ os) class, determine_abi_type)
        (rw (last_of-uniform t os, int_type) (rw (size, int_type) (has-assert _ _ _)))

  has-determine-All :
      (oss : List (List ℕ))
      → has (determine_abi_types dl (map (uniform t) oss)) ≡ accepts_regions e oss
  unfolding determine_abi_types accepts_regions
  has-determine-All [] = refl
  has-determine-All (os ∷ oss) = ground (arith, has-determine os, has-determine-All oss)

-- Elements of integer class: whether the array is classified depends on sizes alone.
has-eight_byte_info :
    (dl : DataLayout) (elem : Btype) (t : LlvmType) (n e : ℕ)
    → typ_disp (type elem) ≡ int
    → type_size dl (type elem) ≡ some e
    → dl.alloc_size t ≤ 16
    → e < 2 ^ 32
    → has (eight_byte_info dl (array_type elem n t)) ≡ accepts n e
unfolding eight_byte_info explode_array accepts
has-eight_byte_info dl elem t n e class size fits small =
    let same : u32 e ≡ e = omega arith in
    rw (le→leb _ _ fits, size, same, place_elements-uniform n 0 e 0 (type elem) [], length-map)
      (elim (Bool-cases (leb (length (element_offsets n 0 e 0 [])) 2)) [
        | inl b ↦ rw b (has-determine-All dl (type elem) e class size (element_offsets n 0 e 0 []))
        | inr b ↦ rw b refl
      ])

tabulated : (ℕ → Bool) → ℕ → Bool
tabulated row zero = true
tabulated row (suc bound) = if tabulated row bound then row bound else false

in_table :
    (row : ℕ → Bool) (bound : ℕ) → tabulated row bound ≡ true → (k : ℕ) → k < bound → row k ≡ true
unfolding tabulated
in_table row zero whole k low = absurd (omega arith)
in_table row (suc bound) whole k low = elim (Bool-cases (tabulated row bound)) [
  | inr partial ↦ absurd (ground arith)
  | inl before ↦ elim (Bool-cases (ltb k bound)) [
    | inl lower ↦ in_table row bound before k (ltb→lt k bound lower)
    | inr last ↦
        let same : bound ≡ k = ground arith in
        let here : row bound ≡ true = ground arith in subst (λ i. row i ≡ true) same here
  ]
]

bool_eq : Bool → Bool → Bool
bool_eq true b = b
bool_eq false true = false
bool_eq false false = true

bool_eq_sound : (a b : Bool) → bool_eq a b ≡ true → a ≡ b
unfolding bool_eq
bool_eq_sound true b h = sym h
bool_eq_sound false true h = h
bool_eq_sound false false h = refl

-- What the loop classifies: up to eight bytes, or elements of four or eight bytes.
abbrev pub loop_accepts : ℕ → ℕ → Bool
loop_accepts n e = leb (n * e) 8 || (e == 4 || e == 8)

entry : ℕ → ℕ → Bool
unfolding bool_eq
entry n e = n == 0 || (e == 0 || (ltb 16 (n * e) || bool_eq (accepts n e) (loop_accepts n e)))

entries : tabulated (λ n. tabulated (entry n) 17) 17 ≡ true
unfolding tabulated entry accepts element_offsets add_offset extend_offsets accepts_regions
    accepts_region
entries = refl

entry-loop_accepts :
    (n e : ℕ) → 0 < n → 0 < e → n * e ≤ 16 → entry n e ≡ true → accepts n e ≡ loop_accepts n e
unfolding entry
entry-loop_accepts n e hn he fits h = bool_eq_sound (accepts n e) (loop_accepts n e) (ground arith)

factor_le : (n e : ℕ) → 0 < e → n * e ≤ 16 → n < 17
factor_le n e h fits = grind arith

-- An array of `n` elements of `e` bytes each, of integer class, with at most 16 bytes in all, is
-- classified exactly if it has at most 8 bytes or its elements have 4 or 8 bytes. For any other,
-- such as six elements of two bytes, an assertion fails: the loop adds up the offsets instead of
-- keeping the last one, and so misses the start of the second region.
pub array_classified :
    (dl : DataLayout) (elem : Btype) (t : LlvmType) (n e : ℕ)
    → typ_disp (type elem) ≡ int
    → type_size dl (type elem) ≡ some e
    → dl.alloc_size t ≤ 16
    → 0 < n
    → 0 < e
    → n * e ≤ 16
    → has (eight_byte_info dl (array_type elem n t)) ≡ (leb (n * e) 8 || (e == 4 || e == 8))
array_classified dl elem t n e class size padded hn he fits =
    let n_small = factor_le n e he fits in
    let e_small = factor_le e n hn (omega arith) in
    let row = in_table (λ k. tabulated (entry k) 17) 17 entries n n_small in
    let cell = in_table (entry n) 17 row e e_small in
    has-eight_byte_info dl elem t n e class size padded (omega arith)
    ∙ entry-loop_accepts n e hn he fits cell
