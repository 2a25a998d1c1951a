-- ===== src/Linemap/Files.antt =====
-- The file table of go-llvm-linemap.cpp: names, their indices, and the current file.
use dragongo.Common.{
  ℕ, ◌^◌, ◌≤◌, ◌<◌, ◌≡◌, refl, sym, subst, ap, ◌∙◌, ◌⊎◌, inl, inr, ◌++◌, append-nil, append_assoc,
  none, some, List, [], ◌∷◌, arith, Text, text_eq_sound, length, length-append, get_elem?,
  get_elem?-append_left, get_elem?-append_length, get_elem?-lt, All, of_some, Option-cases,
}
use dragongo.Linemap.Leb.{Leb128}
use dragongo.Linemap.{
  Linemap, u32, no_handle, find, get_location, location_file, start_file, start_line, stop, init,
  Call, starts_file, starts_line, gets_location, stops, step, run,
}
use dragongo.Linemap.Calls.{InRange, step_gets, run_cons, get_location-some}
use dragongo.Linemap.Recall.{decode_location-get_location}

abbrev Known : List Text → List (Text × ℕ) → Type 0
Known files fmap = All (λ (e : Text × ℕ). get_elem? files e.1 ≡ some e.0) fmap

-- The map from names to indices agrees with the table, and the current file is in it.
pub record FilesValid (m : Linemap) : Type 0 where
  pub known : Known m.files m.fmap
  pub current_in : m.current_fidx < length m.files

Known-append :
    (files more : List Text) (fmap : List (Text × ℕ))
    → Known files fmap
    → Known (files ++ more) fmap
Known-append files more [] k = tt
Known-append files more ((name, i) ∷ fmap) k = (
  get_elem?-append_left files more i (get_elem?-lt files i k.0) ∙ k.0,
  Known-append files more fmap k.1,
)

find-Known :
    (files : List Text) (fmap : List (Text × ℕ)) (name : Text) (i : ℕ)
    → Known files fmap
    → find name fmap ≡ some i
    → get_elem? files i ≡ some name
unfolding find
find-Known files [] name i k e = ground arith
find-Known files ((j, v) ∷ fmap) name i k e =
    ground (arith, text_eq_sound j name, find-Known files fmap name i k.1)

start_file_known :
    (m : Linemap) (name : Text) (line i : ℕ)
    → find name m.fmap ≡ some i
    → ((start_file m name line).files ≡ m.files)
      × ((start_file m name line).fmap ≡ m.fmap)
      × ((start_file m name line).current_fidx ≡ i)
unfolding start_file
start_file_known m name line i e = ground arith

start_file_new :
    (m : Linemap) (name : Text) (line : ℕ)
    → find name m.fmap ≡ none
    → ((start_file m name line).files ≡ m.files ++ (name ∷ []))
      × ((start_file m name line).fmap ≡ (name, u32 (length m.files)) ∷ m.fmap)
      × ((start_file m name line).current_fidx ≡ u32 (length m.files))
unfolding start_file
start_file_new m name line e = ground arith

-- After `start_file` the current file is the one named, whether it is new or was met before; the
-- table keeps its earlier entries, and the map still agrees with it, as long as the table has no
-- more than 2 ^ 32 entries.
pub start_file_current :
    (m : Linemap) (name : Text) (line : ℕ)
    → FilesValid m
    → length (start_file m name line).files ≤ 2 ^ 32
    → (get_elem? (start_file m name line).files (start_file m name line).current_fidx ≡ some name)
      × FilesValid (start_file m name line)
      × ((more : List Text) × ((start_file m name line).files ≡ m.files ++ more))
start_file_current m name line v small = elim (Option-cases (find name m.fmap)) [
  | inr (i, e) ↦
      let (files, fmap, current) = start_file_known m name line i e in
      let here = find-Known m.files m.fmap name i v.known e in
      (
        rw (files, current) here,
        record {
          known = rw (files, fmap) v.known;
          current_in = rw (files, current) (get_elem?-lt m.files i here);
        },
        ([], rw (files, append-nil)),
      )
  | inl e ↦
      let (files, fmap, current) = start_file_new m name line e in
      let fits : u32 (length m.files) ≡ length m.files =
        omega (arith, ap length files, length-append m.files (name ∷ [])) in
      let here = get_elem?-append_length m.files [] name in
      (
        rw (files, current, fits) here,
        record {
          known = rw (files, fmap, fits) (here, Known-append m.files (name ∷ []) m.fmap v.known);
          current_in = rw (files, current, fits) (get_elem?-lt _ _ here);
        },
        (name ∷ [], files),
      )
]

module _ (coder : Leb128) where
  abbrev SameFiles : Linemap → Linemap → Type 0
  SameFiles m m' = (m'.files ≡ m.files) × (m'.fmap ≡ m.fmap) × (m'.current_fidx ≡ m.current_fidx)

  -- Only `start_file` touches the file table.
  step-SameFiles :
      (m : Linemap) (call : Call) {m' : Linemap}
      → step coder m call ≡ some m'
      → SameFiles m m' ⊎ ((name : Text) × (line : ℕ) × (m' ≡ start_file m name line))
  unfolding step start_line stop
  step-SameFiles m (starts_file name line) e = inr (name, line, sym (of_some e))
  step-SameFiles m (starts_line line size) e =
      inl (subst (SameFiles m) (of_some e) (refl, refl, refl))
  step-SameFiles m (gets_location column) e =
      let (_, now) = step_gets coder m column e in
      inl (subst (SameFiles m) (sym now) (refl, refl, refl))
  step-SameFiles m stops e = inl (subst (SameFiles m) (of_some e) (refl, refl, refl))

  step_files_grow :
      (m : Linemap) (call : Call) {m' : Linemap}
      → step coder m call ≡ some m'
      → (more : List Text) × (m'.files ≡ m.files ++ more)
  step_files_grow m call e = elim (step-SameFiles m call e) [
    | inl (files, _, _) ↦ ([], files ∙ sym (append-nil m.files))
    | inr (name, line, now) ↦ elim (Option-cases (find name m.fmap)) [
      | inl f ↦ (name ∷ [], ap (λ (t : Linemap). t.files) now ∙ (start_file_new m name line f).0)
      | inr (i, f) ↦ (
        [],
        ap (λ (t : Linemap). t.files) now
            ∙ (start_file_known m name line i f).0
            ∙ sym (append-nil m.files),
      )
    ]
  ]

  run_files_grow :
      (m : Linemap) (cs : List Call) {m' : Linemap}
      → run coder m cs ≡ some m'
      → (more : List Text) × (m'.files ≡ m.files ++ more)
  unfolding run
  run_files_grow m [] e =
      ([], ap (λ (t : Linemap). t.files) (sym (of_some e)) ∙ sym (append-nil m.files))
  run_files_grow m (call ∷ cs) e =
      let (m₁, first, rest) = run_cons coder m call cs e in
      let (more, grown) = step_files_grow m call first in
      let (more', grown') = run_files_grow m₁ cs rest in
      (more ++ more', rw (grown', grown, append_assoc))

  length-run_files-le :
      (m : Linemap) (cs : List Call) {m' : Linemap}
      → run coder m cs ≡ some m'
      → length m.files ≤ length m'.files
  length-run_files-le m cs e =
      let (more, grown) = run_files_grow m cs e in
      omega (arith, ap length grown, length-append m.files more)

  step-FilesValid :
      (m : Linemap) (call : Call) {m' : Linemap}
      → step coder m call ≡ some m'
      → length m'.files ≤ 2 ^ 32
      → FilesValid m
      → FilesValid m'
  step-FilesValid m call e small v = elim (step-SameFiles m call e) [
    | inl (files, fmap, current) ↦ record {
      known = rw (files, fmap) v.known;
      current_in = rw (files, current) v.current_in;
    }
    | inr (name, line, now) ↦
        subst FilesValid (sym now)
          (start_file_current m name line v
            (subst (λ (t : Linemap). length t.files ≤ 2 ^ 32) now small)).1
  ]

  pub run-FilesValid :
      (m : Linemap) (cs : List Call) {m' : Linemap}
      → run coder m cs ≡ some m'
      → length m'.files ≤ 2 ^ 32
      → FilesValid m
      → FilesValid m'
  unfolding run
  run-FilesValid m [] e small v = subst FilesValid (of_some e) v
  run-FilesValid m (call ∷ cs) e small v =
      let (m₁, first, rest) = run_cons coder m call cs e in
      run-FilesValid m₁ cs rest small
        (step-FilesValid m call first (omega (arith, length-run_files-le m₁ cs rest)) v)

  pub init-FilesValid : FilesValid (init coder)
  unfolding init
  init-FilesValid = record { known = tt; current_in = omega arith }

  get_location_same_files :
      (m : Linemap) (column : ℕ) {h : ℕ} {m' : Linemap}
      → get_location coder m column ≡ some (h, m')
      → m'.files ≡ m.files
  get_location_same_files m column e =
      let (_, _, now) = get_location-some coder m column e in ap (λ (t : Linemap). t.files) now

  pub get_location_files :
      (before after : List Call) (column : ℕ) {m m₁ m₂ : Linemap} {h : ℕ}
      → run coder (init coder) before ≡ some m
      → get_location coder m column ≡ some (h, m₁)
      → run coder m₁ after ≡ some m₂
      → length m₂.files ≤ 2 ^ 32
      → (get_elem? m₂.files m.current_fidx ≡ get_elem? m.files m.current_fidx)
        × (m.current_fidx < length m.files)
  get_location_files before after column {m} {m₁} started got later few =
      let same = get_location_same_files m column got in
      let (more, grown) = run_files_grow m₁ after later in
      let v =
        run-FilesValid (init coder) before started
          (omega (arith, ap length same, ap length grown, length-append m₁.files more))
          init-FilesValid in
      (
        rw (grown, same) (get_elem?-append_left m.files more m.current_fidx v.current_in),
        v.current_in,
      )

  -- `location_file` of a location names, after any further calls, the file that was current when
  -- the location was handed out. The conditions are those of decoding a location, and that the
  -- final table has no more than 2 ^ 32 files.
  pub location_file-get_location :
      (before after : List Call) (column : ℕ) {m m₁ m₂ : Linemap} {h : ℕ}
      → run coder (init coder) before ≡ some m
      → All InRange before
      → column < 2 ^ 32
      → get_location coder m column ≡ some (h, m₁)
      → run coder m₁ after ≡ some m₂
      → length m₂.encoded_locations ≤ no_handle
      → length m₂.files ≤ 2 ^ 32
      → (location_file coder m₂ h ≡ get_elem? m.files m.current_fidx)
        × (m.current_fidx < length m.files)
  unfolding location_file
  location_file-get_location before after column started ranges hc got later small few =
      let (same, inside) = get_location_files before after column started got later few in
      (
        rw
            (decode_location-get_location coder before after column started ranges hc got later
              small)
            same,
        inside,
      )
