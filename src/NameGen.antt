-- ===== src/NameGen.antt =====
-- llvm-gofrontend/namegen.h: names for types, instructions and blocks, numbered for each tag.
pub mod Spelling
pub mod Fresh
mod Runs
use dragongo.Common.{
  ℕ, ◌+◌, ◌%◌, ◌^◌, ◌++◌, Bool, true, false, Option, none, some, List, [], ◌∷◌, Text, codes,
  text_eq, ◌==◌, if◌then◌else◌,
}
use dragongo.Common.Decimal.{decimal}

-- Lets the generator choose the version.
abbrev pub choose_ver : ℕ
choose_ver = 0xffffffff

pub record NameGen : Type 0 where
  pub nametags : List (Text × ℕ)

pub empty : NameGen
empty = record { nametags = [] }

-- `std::unordered_map::find`
pub find : Text → List (Text × ℕ) → Option ℕ
find k [] = none
find k ((j, v) ∷ m) = if text_eq j k then some v else find k m

-- `nametags_[tag] = count`
pub assign : Text → ℕ → List (Text × ℕ) → List (Text × ℕ)
assign k v [] = (k, v) ∷ []
assign k v ((j, w) ∷ m) = if text_eq j k then (j, v) ∷ m else (j, w) ∷ assign k v m

-- `ss << tag << "." << count`
pub spell : Text → ℕ → Text
spell tag count = tag ++ (codes "." ++ decimal count)

-- The version that the generator would choose; the counter is 32 bits wide.
pub next_count : NameGen → Text → ℕ
next_count g tag = elim (find tag g.nametags) [ none ↦ 0 | some v ↦ (v + 1) % 2 ^ 32 ]

pub namegen : NameGen → Text → ℕ → Text × NameGen
namegen g tag expl =
    if expl == choose_ver
    then (
      spell tag (next_count g tag),
      record { nametags = assign tag (next_count g tag) g.nametags },
    )
    else (spell tag expl, g)

-- Requests one after the other, each a tag and a version.
pub run : NameGen → List (Text × ℕ) → NameGen
run g [] = g
run g ((tag, expl) ∷ rs) = run (namegen g tag expl).1 rs
