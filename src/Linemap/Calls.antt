-- ===== src/Linemap/Calls.antt =====
-- Calls of the line table of go-llvm-linemap.cpp: the order of handles and segments that each keeps.
use dragongo.Common.{
  ℕ, ◌+◌, ◌^◌, ◌≤◌, ◌<◌, ◌≡◌, refl, ◌≢◌, ◌⊎◌, inl, inr, ◌++◌, true, none, some, List, [], ◌∷◌,
  arith, Text, ◌==◌, ==_iff, ne→==_false, subst, sym, ap, append-nil, of_some, ◌∙◌, if◌then◌else◌,
  length, length-append, All, Bool-cases, >>=-eq-some,
}
use dragongo.Linemap.Leb.{Leb128}
use dragongo.Linemap.{
  Linemap, Segment, u32, no_handle, init, get_location, start_file, start_line, stop, Call,
  starts_file, starts_line, gets_location, stops, step, run,
}
use dragongo.Linemap.Segments.{Below, IsSorted, Below-weaken, Below-append, IsSorted-append}

-- The arguments of a call are 32-bit numbers.
abbrev pub InRange : Call → Type 0
InRange (starts_file name line) = line < 2 ^ 32
InRange (starts_line line size) = line < 2 ^ 32
InRange (gets_location column) = column < 2 ^ 32
InRange stops = Unit {0}

-- The segment that is being built: none yet, or one that starts above the closed segments.
abbrev pub OpenSegment : Linemap → Type 0
OpenSegment m =
    ((m.firsthandle ≡ no_handle) × Below (length m.encoded_locations) m.segments)
    ⊎ ((m.firsthandle ≢ no_handle)
        × (m.firsthandle ≤ m.lasthandle)
        × (m.lasthandle < length m.encoded_locations)
        × Below m.firsthandle m.segments)

pub record IsOrdered (m : Linemap) : Type 0 where
  pub sorted : IsSorted m.segments
  pub segment : OpenSegment m
  pub line_32 : m.current_line < 2 ^ 32

pub IsOrdered-Below : {m : Linemap} → IsOrdered m → Below (length m.encoded_locations) m.segments
IsOrdered-Below {m} v = elim v.segment [
  | inl h ↦ h.1
  | inr h ↦ Below-weaken m.segments (omega arith) h.3
]

module _ (coder : Leb128) where
  open coder use {encode, encode_nonempty, encode_short}

  -- The table behind a location, where the front end is inside a file.
  abbrev pub located : Linemap → ℕ → Linemap
  located m column = record m {
    encoded_locations = m.encoded_locations ++ (encode m.current_line ++ encode column);
    lookups = u32 (m.lookups + 1);
    firsthandle =
        if m.firsthandle == no_handle then u32 (length m.encoded_locations) else m.firsthandle;
    lasthandle = u32 (length m.encoded_locations);
  }

  pub get_location_lem :
      (m : Linemap) (column : ℕ)
      → get_location coder m column
        ≡ (if m.in_file then some (u32 (length m.encoded_locations), located m column) else none)
  unfolding get_location
  get_location_lem m column = elim (Bool-cases m.in_file) [ inl e ↦ rw e | inr e ↦ rw e ]

  pub get_location-some :
      (m : Linemap) (column : ℕ) {h : ℕ} {m' : Linemap}
      → get_location coder m column ≡ some (h, m')
      → (m.in_file ≡ true) × (h ≡ u32 (length m.encoded_locations)) × (m' ≡ located m column)
  get_location-some m column e = ground (arith, get_location_lem m column)

  pub length-located :
      (m : Linemap) (column : ℕ)
      → m.current_line < 2 ^ 32
      → column < 2 ^ 32
      → length m.encoded_locations < length (located m column).encoded_locations
  length-located m column hl hc = omega (
    arith,
    length-append m.encoded_locations (encode m.current_line ++ encode column),
    length-append (encode m.current_line) (encode column),
    encode_nonempty column hc,
    encode_nonempty m.current_line hl,
  )

  located-OpenSegment :
      (m : Linemap) (column : ℕ)
      → IsOrdered m
      → column < 2 ^ 32
      → length (located m column).encoded_locations ≤ no_handle
      → OpenSegment (located m column)
  located-OpenSegment m column v hc small =
      let grows = length-located m column v.line_32 hc in
      let fits : u32 (length m.encoded_locations) ≡ length m.encoded_locations = omega arith in
      elim v.segment [
        | inl h ↦
            rw ((==_iff m.firsthandle no_handle).1 h.0, fits)
              (inr (omega arith, omega arith, omega arith, h.1))
        | inr h ↦
            rw (ne→==_false m.firsthandle no_handle h.0, fits)
              (inr (h.0, omega arith, omega arith, h.3))
      ]

  pub located-IsOrdered :
      (m : Linemap) (column : ℕ)
      → IsOrdered m
      → column < 2 ^ 32
      → length (located m column).encoded_locations ≤ no_handle
      → IsOrdered (located m column)
  located-IsOrdered m column v hc small = record {
    sorted = v.sorted;
    segment = located-OpenSegment m column v hc small;
    line_32 = v.line_32;
  }

abbrev pub closed_segments : Linemap → List Segment
closed_segments m =
    if m.firsthandle == no_handle
    then m.segments
    else m.segments
      ++ (record { lo = m.firsthandle; hi = m.lasthandle; fidx = m.current_fidx } ∷ [])

-- What `start_file` does to the handles and the segments, whether or not the file is known.
pub start_file_handles :
    (m : Linemap) (name : Text) (line : ℕ)
    → ((start_file m name line).segments ≡ closed_segments m)
      × ((start_file m name line).encoded_locations ≡ m.encoded_locations)
      × ((start_file m name line).firsthandle ≡ no_handle)
      × ((start_file m name line).current_line ≡ line)
      × ((start_file m name line).in_file ≡ true)
unfolding start_file
start_file_handles m name line = ground arith

closed_segments-Below :
    (m : Linemap)
    → IsOrdered m
    → IsSorted (closed_segments m) × Below (length m.encoded_locations) (closed_segments m)
closed_segments-Below m v = elim v.segment [
  | inl h ↦ rw ((==_iff m.firsthandle no_handle).1 h.0) (v.sorted, h.1)
  | inr h ↦ rw (ne→==_false m.firsthandle no_handle h.0) (
    IsSorted-append m.segments _ v.sorted (Below-weaken m.segments h.1 h.3),
    Below-append m.segments _ (Below-weaken m.segments (omega arith) h.3) h.2,
  )
]

start_file-IsOrdered :
    (m : Linemap) (name : Text) (line : ℕ)
    → IsOrdered m
    → line < 2 ^ 32
    → IsOrdered (start_file m name line)
start_file-IsOrdered m name line v h =
    let (segs, bytes, first, l, _) = start_file_handles m name line in
    let (sorted, below) = closed_segments-Below m v in
    record {
      sorted = rw segs sorted;
      segment = inl (first, rw (segs, bytes) below);
      line_32 = rw l h;
    }

module _ (coder : Leb128) where
  pub step_gets :
      (m : Linemap) (column : ℕ) {m' : Linemap}
      → step coder m (gets_location column) ≡ some m'
      → (m.in_file ≡ true) × (m' ≡ located coder m column)
  unfolding step
  step_gets m column e = ground (arith, get_location_lem coder m column)

  -- Each call that stays within the handles keeps the order.
  pub step-IsOrdered :
      (m : Linemap) (c : Call) {m' : Linemap}
      → IsOrdered m
      → InRange c
      → step coder m c ≡ some m'
      → length m'.encoded_locations ≤ no_handle
      → IsOrdered m'
  unfolding step start_line stop
  step-IsOrdered m (starts_file name line) v h e small =
      subst IsOrdered (of_some e) (start_file-IsOrdered m name line v h)
  step-IsOrdered m (starts_line line size) v h e small =
      subst IsOrdered (of_some e) (record { sorted = v.sorted; segment = v.segment; line_32 = h })
  step-IsOrdered m (gets_location column) v h e small =
      let (_, now) = step_gets m column e in
      subst IsOrdered (sym now) (
        located-IsOrdered coder m column v h
          (subst (λ (t : Linemap). length t.encoded_locations ≤ no_handle) now small))
  step-IsOrdered m stops v h e small =
      subst IsOrdered (of_some e)
        (record { sorted = v.sorted; segment = v.segment; line_32 = v.line_32 })

  -- No call takes back a byte of the table.
  pub step_grows :
      (m : Linemap) (c : Call) {m' : Linemap}
      → step coder m c ≡ some m'
      → (more : List ℕ) × (m'.encoded_locations ≡ m.encoded_locations ++ more)
  unfolding step start_line stop
  step_grows m (starts_file name line) e =
      let (_, bytes, _, _, _) = start_file_handles m name line in
      ([], ap (λ (t : Linemap). t.encoded_locations) (sym (of_some e)) ∙ bytes ∙ sym (append-nil _))
  step_grows m (starts_line line size) e =
      ([], ap (λ (t : Linemap). t.encoded_locations) (sym (of_some e)) ∙ sym (append-nil _))
  step_grows m (gets_location column) e =
      let (_, now) = step_gets m column e in
      (
        coder.encode m.current_line ++ coder.encode column,
        ap (λ (t : Linemap). t.encoded_locations) now,
      )
  step_grows m stops e =
      ([], ap (λ (t : Linemap). t.encoded_locations) (sym (of_some e)) ∙ sym (append-nil _))

  pub length-get_location-le :
      (m : Linemap) (column : ℕ) {h : ℕ} {m' : Linemap}
      → get_location coder m column ≡ some (h, m')
      → length m.encoded_locations ≤ length m'.encoded_locations
  length-get_location-le m column e =
      let (_, _, now) = get_location-some coder m column e in
      omega (
        arith,
        ap (λ (t : Linemap). length t.encoded_locations) now,
        length-append m.encoded_locations (coder.encode m.current_line ++ coder.encode column),
      )

  pub run_cons :
      (m : Linemap) (c : Call) (cs : List Call) {m'' : Linemap}
      → run coder m (c ∷ cs) ≡ some m''
      → (m' : Linemap) × (step coder m c ≡ some m') × (run coder m' cs ≡ some m'')
  unfolding run
  run_cons m c cs e = >>=-eq-some (step coder m c) (λ m'. run coder m' cs) e

  pub length-step-le :
      (m : Linemap) (c : Call) {m' : Linemap}
      → step coder m c ≡ some m'
      → length m.encoded_locations ≤ length m'.encoded_locations
  length-step-le m c e =
      let (more, grown) = step_grows m c e in
      omega (arith, ap length grown, length-append m.encoded_locations more)

  pub length-run-le :
      (m : Linemap) (cs : List Call) {m' : Linemap}
      → run coder m cs ≡ some m'
      → length m.encoded_locations ≤ length m'.encoded_locations
  unfolding run
  length-run-le m [] e = omega (arith, ap (λ (t : Linemap). length t.encoded_locations) (of_some e))
  length-run-le m (c ∷ cs) e =
      let (m', first, rest) = run_cons m c cs e in
      omega (arith, length-step-le m c first, length-run-le m' cs rest)

  -- So does each history.
  pub run-IsOrdered :
      (m : Linemap) (cs : List Call) {m' : Linemap}
      → IsOrdered m
      → All InRange cs
      → run coder m cs ≡ some m'
      → length m'.encoded_locations ≤ no_handle
      → IsOrdered m'
  unfolding run
  run-IsOrdered m [] v h e small = subst IsOrdered (of_some e) v
  run-IsOrdered m (c ∷ cs) v h e small =
      let (m₁, first, rest) = run_cons m c cs e in
      run-IsOrdered m₁ cs (step-IsOrdered m c v h.0 first (omega (arith, length-run-le m₁ cs rest)))
        h.1 rest small

  -- The two special positions take 4 to 20 bytes, and the second stands behind the first.
  pub init_sizes :
      (u32 (length (coder.encode 0 ++ coder.encode 0)) ≡ length (coder.encode 0 ++ coder.encode 0))
      × (0 < length (coder.encode 0 ++ coder.encode 0))
      × (length (coder.encode 0 ++ coder.encode 0)
          < length (coder.encode 0 ++ coder.encode 0 ++ (coder.encode 1 ++ coder.encode 1)))
  init_sizes = omega (
    arith,
    length-append (coder.encode 0) (coder.encode 0),
    length-append (coder.encode 1) (coder.encode 1),
    length-append (coder.encode 0 ++ coder.encode 0) (coder.encode 1 ++ coder.encode 1),
    coder.encode_nonempty 0 (omega arith),
    coder.encode_short 0 (omega arith),
    coder.encode_nonempty 1 (omega arith),
  )

  pub init-IsOrdered : IsOrdered (init coder)
  unfolding init
  init-IsOrdered =
      let (same, first, second) = init_sizes in
      record {
        sorted = ((omega arith, tt), (tt, tt));
        segment = inl (refl, omega arith);
        line_32 = omega arith;
      }
