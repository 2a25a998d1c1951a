-- ===== src/Linemap/Runs.antt =====
-- Runs of the line table of go-llvm-linemap.cpp, and its theorems at a concrete history.
use dragongo.Common.{
  ℕ, ◌≡◌, refl, ◌<◌, ◌++◌, false, some, none, List, [], ◌∷◌, arith, Text, codes, Option, get_elem?,
}
use dragongo.Common.Decimal.{decimal}
use dragongo.Linemap.Uleb.{uleb, encode_from, decode}
use dragongo.Linemap.{
  Linemap, Call, starts_file, starts_line, gets_location, stops, init, run, step, get_location,
  start_file, start_line, stop, decode_location, location_file, location_line, location_column,
  to_string, is_unknown, is_predeclared, find, get_initial_file, lower_bound,
}
use dragongo.Linemap.Calls.{IsOrdered, run-IsOrdered, init-IsOrdered}
use dragongo.Linemap.Files.{
  FilesValid, start_file_current, init-FilesValid, location_file-get_location,
}
use dragongo.Linemap.Recall.{decode_location-get_location}
use dragongo.Linemap.Special.{get_location_ordinary, to_string-get_location}

abbrev before : List Call
before =
    starts_file (codes "a.go") 1
    ∷ starts_line 10 80
    ∷ gets_location 3
    ∷ starts_file (codes "b.go") 1
    ∷ starts_line 300 80
    ∷ []

abbrev after : List Call
after = gets_location 9 ∷ starts_file (codes "a.go") 7 ∷ gets_location 1 ∷ stops ∷ []

-- The value of a run that is known to succeed.
abbrev or_init : Option Linemap → Linemap
or_init none = init uleb
or_init (some m) = m

abbrev then_init : Option (ℕ × Linemap) → ℕ × Linemap
then_init none = (0, init uleb)
then_init (some p) = p

abbrev met : Linemap
met = or_init (run uleb (init uleb) before)

abbrev got : ℕ × Linemap
got = then_init (get_location uleb met 5)

abbrev last : Linemap
last = or_init (run uleb got.1 after)

decode_location-get_location_example :
    decode_location uleb last 6 ≡ some (record { fidx = 3; line = 300; column = 5 })
unfolding run step init get_location start_file start_line stop encode_from find
decode_location-get_location_example =
    decode_location-get_location uleb before after 5 {m = met} {m₁ = got.1} {m₂ = last} refl
      (omega arith) (omega arith) refl refl (omega arith)

location_file-get_location_example : (location_file uleb last 6 ≡ some (codes "b.go")) × (3 < 4)
unfolding run step init get_location start_file start_line stop encode_from find
location_file-get_location_example =
    location_file-get_location uleb before after 5 {m = met} {m₁ = got.1} {m₂ = last} refl
      (omega arith) (omega arith) refl refl (omega arith) (omega arith)

get_location_ordinary_example : (is_unknown last 6 ≡ false) × (is_predeclared last 6 ≡ false)
unfolding run step init get_location start_file start_line stop encode_from find
get_location_ordinary_example =
    get_location_ordinary uleb before after 5 {m = met} {m₁ = got.1} {m₂ = last} refl refl refl
      (omega arith)

to_string-get_location_example : to_string uleb (λ t. t) last 6 ≡ some (codes "b.go:300")
unfolding run step init get_location start_file start_line stop encode_from find decimal
to_string-get_location_example =
    to_string-get_location uleb (λ t. t) before after 5 (codes "b.go") {m = met} {m₁ = got.1}
      {m₂ = last} refl (omega arith) (omega arith) refl refl refl (omega arith) (omega arith)

run-IsOrdered_example : IsOrdered met
unfolding run step init get_location start_file start_line stop encode_from find
run-IsOrdered_example =
    run-IsOrdered uleb (init uleb) before (init-IsOrdered uleb) (omega arith) refl (omega arith)

start_file_current_example :
    (get_elem?
        (start_file (init uleb) (codes "a.go") 1).files
        (start_file (init uleb) (codes "a.go") 1).current_fidx
      ≡ some (codes "a.go"))
    × FilesValid (start_file (init uleb) (codes "a.go") 1)
    × ((more : List Text) × ((start_file (init uleb) (codes "a.go") 1).files
          ≡ (init uleb).files ++ more))
unfolding init start_file find
start_file_current_example =
    start_file_current (init uleb) (codes "a.go") 1 (init-FilesValid uleb) (omega arith)

first_file : get_initial_file met ≡ codes "a.go"
unfolding run step init get_location start_file start_line stop encode_from find get_initial_file
first_file = refl

-- Outside a file no location is handed out.
outside_a_file : get_location uleb (init uleb) 1 ≡ none
unfolding get_location init
outside_a_file = refl

line_and_column : (location_line uleb met 4 ≡ some 10) × (location_column uleb met 4 ≡ some 3)
unfolding run step init get_location start_file start_line stop encode_from find location_line
    location_column decode_location decode lower_bound
line_and_column = (refl, refl)
