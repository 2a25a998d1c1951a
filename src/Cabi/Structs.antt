-- ===== src/Cabi/Structs.antt =====
-- `explodeStruct` and `determineABITypes` of go-llvm-cabi-oracle.cpp on a struct's leaves.
use dragongo.Common.{
  ℕ, ◌+◌, ◌-◌, ◌*◌, ◌^◌, ◌≤◌, ◌<◌, ◌≡◌, refl, ap, ◌∙◌, ◌≢◌, ◌⊎◌, inl, inr, ◌++◌, append-nil,
  append_assoc, true, false, ◌&&◌, none, some, List, [], ◌∷◌, map, map-append, arith, leb, ◌==◌,
  le→leb, lt→leb_false, lt→ltb, All, Bool-cases,
}
use dragongo.Cabi.Types.{
  LlvmType, float, vector, integer, is_float_or_double, Fields, struct_type, DataLayout, type_size,
  u32,
}
use dragongo.Cabi.Disp.{TypDisp, sse, int, empty, is_sse, disp_meet, typ_disp}
use dragongo.Cabi.Regions.{EightByteRegion, attr_none, region_disp, types_disp}
use dragongo.Cabi.Explode.{
  Leaf, extend, extend_last, place_leaf, place_leaves, last_of, sse_type, int_type,
  determine_abi_type, determine_abi_types, add_leaf_types, explode_struct, eight_byte_info,
}

-- The region of some leaves.
abbrev pub region_of : List Leaf → EightByteRegion
region_of ls = record {
  types = map (λ (l : Leaf). l.0) ls;
  offsets = map (λ (l : Leaf). l.1) ls;
  abi_direct_type = none;
  attr = attr_none;
}

abbrev pub InFirst : List Leaf → Type 0
InFirst ls = All (λ (l : Leaf). l.1 < 8) ls

abbrev pub InSecond : List Leaf → Type 0
InSecond ls = All (λ (l : Leaf). 8 ≤ l.1) ls

extend-region_of :
    (front : List Leaf) (l : Leaf)
    → extend (region_of front) l.0 l.1 ≡ region_of (front ++ (l ∷ []))
extend-region_of front l = simp map-append

place_one_first :
    (front : List Leaf) (l : Leaf)
    → l.1 < 8
    → place_leaf (region_of front ∷ []) l.0 l.1 ≡ region_of (front ++ (l ∷ [])) ∷ []
unfolding place_leaf extend_last
place_one_first front l h = rw (lt→leb_false 8 l.1 h) (ap (λ r. r ∷ []) (extend-region_of front l))

place_one_second :
    (front : List Leaf) (l : Leaf)
    → 8 ≤ l.1
    → place_leaf (region_of front ∷ []) l.0 l.1 ≡ region_of front ∷ region_of (l ∷ []) ∷ []
unfolding place_leaf
place_one_second front l h = rw (le→leb 8 l.1 h)

place_one_third :
    (front back : List Leaf) (l : Leaf)
    → place_leaf (region_of front ∷ region_of back ∷ []) l.0 l.1
      ≡ region_of front ∷ region_of (back ++ (l ∷ [])) ∷ []
unfolding place_leaf extend_last
place_one_third front back l =
    let never : (leb 8 l.1 && ◌==◌ 2 1) ≡ false = ground arith in
    rw never (ap (λ r. region_of front ∷ r ∷ []) (extend-region_of back l))

-- Leaves of the first eight bytes go to the one region.
place_first :
    (front ls rest : List Leaf)
    → InFirst ls
    → place_leaves (region_of front ∷ []) (ls ++ rest)
      ≡ place_leaves (region_of (front ++ ls) ∷ []) rest
unfolding place_leaves
place_first front [] rest h = rw append-nil
place_first front (l ∷ ls) rest h =
    ap (λ rs. place_leaves rs (ls ++ rest)) (place_one_first front l h.0)
    ∙ (place_first (front ++ (l ∷ [])) ls rest h.1
        ∙ ap (λ fs. place_leaves (region_of fs ∷ []) rest) (append_assoc front (l ∷ []) ls))

-- Once there are two regions every leaf goes to the second.
place_second :
    (front back ls : List Leaf)
    → place_leaves (region_of front ∷ region_of back ∷ []) ls
      ≡ region_of front ∷ region_of (back ++ ls) ∷ []
unfolding place_leaves
place_second front back [] = rw append-nil
place_second front back (l ∷ ls) =
    ap (λ rs. place_leaves rs ls) (place_one_third front back l)
    ∙ (place_second front (back ++ (l ∷ [])) ls
        ∙ ap (λ bs. region_of front ∷ region_of bs ∷ []) (append_assoc back (l ∷ []) ls))

-- The regions that leaves in order of their offsets should give.
abbrev pub two_regions : List Leaf → List Leaf → List EightByteRegion
two_regions lo [] = region_of lo ∷ []
two_regions lo (l ∷ ls) = region_of lo ∷ region_of (l ∷ ls) ∷ []

-- Leaves of which those below offset 8 come first, and at least one, are split at offset 8.
place_leaves_split :
    (l : Leaf) (lo hi : List Leaf)
    → InFirst (l ∷ lo)
    → InSecond hi
    → place_leaves [] ((l ∷ lo) ++ hi) ≡ two_regions (l ∷ lo) hi
unfolding place_leaves place_leaf
place_leaves_split l lo [] first second = place_first (l ∷ []) lo [] first.1
place_leaves_split l lo (k ∷ hi) first second =
    place_first (l ∷ []) lo (k ∷ hi) first.1
    ∙ ap (λ rs. place_leaves rs hi) (place_one_second (l ∷ lo) k second.0)
    ∙ place_second (l ∷ lo) (k ∷ []) hi

-- A scalar of the program: a float or double of at least four bytes, or of integer class.
abbrev pub IsScalar : LlvmType → ℕ → Type 0
IsScalar t size = ((is_float_or_double t ≡ true) × (4 ≤ size)) ⊎ (typ_disp t ≡ int)

disp_meet-int : (d : TypDisp) → disp_meet d int ≡ int
unfolding disp_meet
disp_meet-int sse = refl
disp_meet-int int = refl
disp_meet-int empty = refl

int_disp : (d : TypDisp) → disp_meet int d ≡ int
unfolding disp_meet
int_disp sse = refl
int_disp int = refl
int_disp empty = refl

-- One leaf of integer class settles the class of a region.
types_disp_int : (ts : List LlvmType) → types_disp ts int ≡ int
unfolding types_disp
types_disp_int [] = refl
types_disp_int (t ∷ ts) = ap (types_disp ts) (disp_meet-int (typ_disp t)) ∙ types_disp_int ts

-- A scalar of a region of SSE class is a float or double.
sse_leaf :
    (t : LlvmType) (ts : List LlvmType) (d : TypDisp) (size : ℕ)
    → is_sse (types_disp (t ∷ ts) d) ≡ true
    → IsScalar t size
    → (is_float_or_double t ≡ true) × (4 ≤ size)
unfolding types_disp
sse_leaf t ts d size h (inl wide) = wide
sse_leaf t ts d size h (inr class) =
    let settled : types_disp ts (disp_meet (typ_disp t) d) ≡ int =
      ap (λ c. types_disp ts (disp_meet c d)) class
      ∙ ap (types_disp ts) (int_disp d)
      ∙ types_disp_int ts in
    cc (settled, h)

module _ (dl : DataLayout) where
  -- Leaves one after the other between two offsets, none overlapping the next.
  abbrev pub IsLaid : ℕ → ℕ → List Leaf → Type 0
  IsLaid from to [] = Unit {0}
  IsLaid from to (l ∷ ls) =
      (size : ℕ) × (type_size dl l.0 ≡ some size)
      × (0 < size)
      × IsScalar l.0 size
      × (from ≤ l.1)
      × (l.1 + size ≤ to)
      × IsLaid (l.1 + size) to ls

  -- The last leaf of a row ends within it.
  last_ends :
      (l : Leaf) (ls : List Leaf) (from to : ℕ)
      → IsLaid from to (l ∷ ls)
      → (size : ℕ) × (type_size dl (last_of l.0 (map (λ (k : Leaf). k.0) ls)) ≡ some size)
        × (0 < size)
        × (l.1 ≤ last_of l.1 (map (λ (k : Leaf). k.1) ls))
        × (last_of l.1 (map (λ (k : Leaf). k.1) ls) + size ≤ to)
  unfolding last_of
  last_ends l [] from to (size, sized, pos, _, _, ends, _) = (size, sized, pos, omega arith, ends)
  last_ends l (k ∷ ls) from to (size, sized, pos, _, _, ends, rest) =
      let (size', sized', pos', le, ends') = last_ends k ls (l.1 + size) to rest in
      (size', sized', pos', omega (arith, rest), ends')

  -- A row of leaves within eight bytes has a type for its integer class.
  int_type-some :
      (l : Leaf) (ls : List Leaf) (from : ℕ)
      → from < 2 ^ 31
      → IsLaid from (from + 8) (l ∷ ls)
      → (t : LlvmType) × (int_type dl
            (map (λ (k : Leaf). k.0) (l ∷ ls))
            (map (λ (k : Leaf). k.1) (l ∷ ls))
          ≡ some t)
  unfolding int_type
  int_type-some l ls from small row =
      let (size, sized, pos, le, ends) = last_ends l ls from (from + 8) row in
      let end = last_of l.1 (map (λ (k : Leaf). k.1) ls) in
      let bytes : u32 (end + 2 ^ 32 - l.1 + size) ≡ end - l.1 + size = omega arith in
      (
        integer ((end - l.1 + size) * 8),
        rw (sized, int_type)
            (rw (
              bytes,
              lt→ltb 0 (end - l.1 + size) (omega arith),
              le→leb (end - l.1 + size) 8 (omega (arith, row)),
            )),
      )

  -- A row of leaves of SSE class within eight bytes has one or two leaves, and a type.
  sse_type-some :
      (ls : List Leaf) (l : Leaf) (from : ℕ)
      → IsLaid from (from + 8) (l ∷ ls)
      → is_sse (region_disp (region_of (l ∷ ls))) ≡ true
      → (t : LlvmType) × (sse_type dl (map (λ (k : Leaf). k.0) (l ∷ ls)) ≡ some t)
  unfolding sse_type region_disp types_disp
  sse_type-some [] l from (size, sized, pos, scalar, _, _, _) h =
      let (wide, _) = sse_leaf l.0 [] empty size h scalar in (l.0, rw wide)
  sse_type-some (k ∷ []) l from row h = (vector 2 float, refl)
  sse_type-some (k ∷ m ∷ ls) l from (size₁, _, _, scalar₁, le₁, _, row₂) h =
      let (size₂, _, _, scalar₂, le₂, _, row₃) = row₂ in
      let (size₃, _, _, scalar₃, le₃, ends, _) = row₃ in
      let d₁ = disp_meet (typ_disp l.0) empty in
      let d₂ = disp_meet (typ_disp k.0) d₁ in
      let ts = map (λ (j : Leaf). j.0) ls in
      let (_, wide₁) = sse_leaf l.0 (k.0 ∷ m.0 ∷ ts) empty size₁ h scalar₁ in
      let (_, wide₂) = sse_leaf k.0 (m.0 ∷ ts) d₁ size₂ h scalar₂ in
      let (_, wide₃) = sse_leaf m.0 ts d₂ size₃ h scalar₃ in absurd (omega arith)

  -- So every such row has a type.
  determine-region_of :
      (l : Leaf) (ls : List Leaf) (from : ℕ)
      → from < 2 ^ 31
      → IsLaid from (from + 8) (l ∷ ls)
      → (t : LlvmType) × (determine_abi_type dl (region_of (l ∷ ls))
          ≡ some (record (region_of (l ∷ ls)) { abi_direct_type = some t }))
  unfolding determine_abi_type
  determine-region_of l ls from small row =
      elim (Bool-cases (is_sse (region_disp (region_of (l ∷ ls))))) [
        | inl b ↦
            let (t, e) = sse_type-some ls l from row b in (t, rw (b, determine_abi_type) (rw e))
        | inr b ↦
            let (t, e) = int_type-some l ls from small row in (t, rw (b, determine_abi_type) (rw e))
      ]

  laid-InFirst : (from : ℕ) (ls : List Leaf) → IsLaid from 8 ls → InFirst ls
  laid-InFirst from [] row = tt
  laid-InFirst from (l ∷ ls) (size, _, pos, _, le, ends, rest) =
      (omega arith, laid-InFirst (l.1 + size) ls rest)

  laid-InSecond : (from to : ℕ) (ls : List Leaf) → 8 ≤ from → IsLaid from to ls → InSecond ls
  laid-InSecond from to [] above row = tt
  laid-InSecond from to (l ∷ ls) above (size, _, pos, _, le, ends, rest) =
      (omega arith, laid-InSecond (l.1 + size) to ls (omega arith) rest)

  -- A region as it is after its type was determined.
  abbrev pub Typed : List Leaf → EightByteRegion → Type 0
  Typed ls r =
      (r.types ≡ map (λ (l : Leaf). l.0) ls)
      × (r.offsets ≡ map (λ (l : Leaf). l.1) ls)
      × (r.abi_direct_type ≢ none)
      × (r.attr ≡ attr_none)

  abbrev pub TypedRegions : List Leaf → List Leaf → List EightByteRegion → Type 0
  TypedRegions lo hi [] = ⊥
  TypedRegions lo hi (r ∷ []) = (hi ≡ []) × Typed lo r
  TypedRegions lo hi (r ∷ r' ∷ []) = (hi ≢ []) × Typed lo r × Typed hi r'
  TypedRegions lo hi (r ∷ r' ∷ _ ∷ _) = ⊥

  -- A struct of at most 16 bytes whose leaves are scalars in order, without overlap, none across
  -- offset 8 and at least one before it, is classified: into one region of the leaves before offset
  -- 8 and, if there are leaves behind it, a second region of those, each with a register type.
  pub struct_classified :
      (fields : Fields) (t : LlvmType) (l : Leaf) (lo hi : List Leaf)
      → dl.alloc_size t ≤ 16
      → add_leaf_types dl (struct_type fields t) 0 ≡ some ((l ∷ lo) ++ hi)
      → IsLaid 0 8 (l ∷ lo)
      → IsLaid 8 16 hi
      → (rs : List EightByteRegion) × (eight_byte_info dl (struct_type fields t) ≡ some rs)
        × TypedRegions (l ∷ lo) hi rs
  unfolding eight_byte_info explode_struct determine_abi_types
  struct_classified fields t l lo [] fits leaves first second =
      let (t₁, e₁) = determine-region_of l lo 0 (omega arith) first in
      let split = place_leaves_split l lo [] (laid-InFirst 0 (l ∷ lo) first) tt in
      (
        record (region_of (l ∷ lo)) { abi_direct_type = some t₁ } ∷ [],
        rw (le→leb _ _ fits, leaves, split, e₁),
        (refl, (refl, refl, cc, refl)),
      )
  struct_classified fields t l lo (k ∷ hi) fits leaves first second =
      let (t₁, e₁) = determine-region_of l lo 0 (omega arith) first in
      let (t₂, e₂) = determine-region_of k hi 8 (omega arith) second in
      let split =
        place_leaves_split l lo (k ∷ hi) (laid-InFirst 0 (l ∷ lo) first)
          (laid-InSecond 8 16 (k ∷ hi) (omega arith) second) in
      (
        record (region_of (l ∷ lo)) { abi_direct_type = some t₁ }
            ∷ record (region_of (k ∷ hi)) { abi_direct_type = some t₂ }
            ∷ [],
        rw (le→leb _ _ fits, leaves, split, e₁, e₂),
        (cc, (refl, refl, cc, refl), (refl, refl, cc, refl)),
      )
