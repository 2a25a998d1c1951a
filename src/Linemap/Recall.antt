-- ===== src/Linemap/Recall.antt =====
-- Looking positions up in the line table of go-llvm-linemap.cpp after any further calls.
use dragongo.Common.{
  ℕ, ◌^◌, ◌≤◌, ◌<◌, ◌≡◌, refl, sym, subst, ◌∙◌, ◌≢◌, ◌⊎◌, inl, inr, none, some, List, [], ◌∷◌,
  arith, Text, le→ltb_false, ◌==◌, Bool-cases, ==_iff, ne→==_false, if◌then◌else◌, length, All,
  of_some,
}
use dragongo.Linemap.Leb.{Leb128}
use dragongo.Linemap.{
  Linemap, Segment, u32, no_handle, lower_bound, get_location, decode_location, start_file,
  start_line, stop, init, Call, starts_file, starts_line, gets_location, stops, step, run,
}
use dragongo.Linemap.Segments.{lower_bound-append_some, lower_bound-append_none, lower_bound-Below}
use dragongo.Linemap.Encoded.{Encoded, Encoded-append, encode-Encoded, Encoded-lt, Encoded-decode}
use dragongo.Linemap.Calls.{
  InRange, IsOrdered, IsOrdered-Below, located, get_location-some, start_file_handles,
  closed_segments, step_gets, step_grows, run_cons, length-run-le, length-get_location-le,
  run-IsOrdered, init-IsOrdered, length-located,
}

-- A handle belongs to a file: by a closed segment, or by the one that is being built.
abbrev pub Held : Linemap → ℕ → ℕ → Type 0
Held m h f =
    ((s : Segment) × (lower_bound m.segments h ≡ some s) × (s.fidx ≡ f))
    ⊎ ((lower_bound m.segments h ≡ none)
        × (m.current_fidx ≡ f)
        × (m.firsthandle ≢ no_handle)
        × (h ≤ m.lasthandle))

lower_bound_one : (s : Segment) (h : ℕ) → h ≤ s.hi → lower_bound (s ∷ []) h ≡ some s
unfolding lower_bound
lower_bound_one s h le = rw (le→ltb_false s.hi h le)

closed-lower_bound :
    (m : Linemap) (h : ℕ) (s : Segment)
    → lower_bound m.segments h ≡ some s
    → lower_bound (closed_segments m) h ≡ some s
closed-lower_bound m h s e = elim (Bool-cases (m.firsthandle == no_handle)) [
  | inl t ↦ rw t e
  | inr t ↦ rw t (lower_bound-append_some m.segments _ h s e)
]

first-ne : (a n : ℕ) → n < no_handle → (if a == no_handle then n else a) ≢ no_handle
first-ne a n h = elim (Bool-cases (a == no_handle)) [
  | inl e ↦ rw e (omega arith)
  | inr e ↦ rw e (λ same. cc (e, (==_iff a no_handle).1 same))
]

-- Starting a file leaves every handle with its own file.
start_file-Held :
    (m : Linemap) (name : Text) (line h f : ℕ) → Held m h f → Held (start_file m name line) h f
start_file-Held m name line h f held =
    let (segs, _, _, _, _) = start_file_handles m name line in
    elim held [
      | inl (s, e, same) ↦ inl (s, rw segs (closed-lower_bound m h s e), same)
      | inr (e, same, ne, le) ↦ inl (
        record { lo = m.firsthandle; hi = m.lasthandle; fidx = m.current_fidx },
        rw (segs, ne→==_false m.firsthandle no_handle ne)
            (lower_bound-append_none m.segments _ h e ∙ lower_bound_one _ h le),
        same,
      )
    ]

module _ (coder : Leb128) where
  located-Held :
      (m : Linemap) (column h f : ℕ)
      → h < length m.encoded_locations
      → length m.encoded_locations ≤ no_handle
      → Held m h f
      → Held (located coder m column) h f
  located-Held m column h f lt small held = elim held [
    | inl found ↦ inl found
    | inr (e, same, ne, le) ↦
        inr (e, same, rw (ne→==_false m.firsthandle no_handle ne) ne, omega arith)
  ]

  step-Held :
      (m : Linemap) (call : Call) {m' : Linemap} (h f : ℕ)
      → h < length m.encoded_locations
      → length m.encoded_locations ≤ no_handle
      → step coder m call ≡ some m'
      → Held m h f
      → Held m' h f
  unfolding step start_line stop
  step-Held m (starts_file name line) h f lt small e held =
      subst (λ t. Held t h f) (of_some e) (start_file-Held m name line h f held)
  step-Held m (starts_line line size) h f lt small e held = subst (λ t. Held t h f) (of_some e) held
  step-Held m (gets_location column) h f lt small e held =
      let (_, now) = step_gets coder m column e in
      subst (λ t. Held t h f) (sym now) (located-Held m column h f lt small held)
  step-Held m stops h f lt small e held = subst (λ t. Held t h f) (of_some e) held

  -- What a handle stands for.
  pub record Recalled (m : Linemap) (h l c f : ℕ) : Type 0 where
    pub bytes : Encoded coder m.encoded_locations h l c
    pub file : Held m h f

  step-Recalled :
      (m : Linemap) (call : Call) {m' : Linemap} (h l c f : ℕ)
      → length m.encoded_locations ≤ no_handle
      → step coder m call ≡ some m'
      → Recalled m h l c f
      → Recalled m' h l c f
  step-Recalled m call h l c f small e r =
      let (more, grown) = step_grows coder m call e in
      record {
        bytes =
            subst (λ (b : List ℕ). Encoded coder b h l c) (sym grown)
              (Encoded-append coder m.encoded_locations more r.bytes);
        file = step-Held m call h f (Encoded-lt coder r.bytes) small e r.file;
      }

  pub run-Recalled :
      (m : Linemap) (cs : List Call) {m' : Linemap} (h l c f : ℕ)
      → run coder m cs ≡ some m'
      → length m'.encoded_locations ≤ no_handle
      → Recalled m h l c f
      → Recalled m' h l c f
  unfolding run
  run-Recalled m [] h l c f e small r = subst (λ t. Recalled t h l c f) (of_some e) r
  run-Recalled m (call ∷ cs) h l c f e small r =
      let (m₁, first, rest) = run_cons coder m call cs e in
      run-Recalled m₁ cs h l c f rest small
        (step-Recalled m call h l c f (omega (arith, length-run-le coder m (call ∷ cs) e)) first r)

  -- A recalled handle decodes to its file, line and column.
  pub Recalled-decode :
      (m : Linemap) (h l c f : ℕ)
      → Recalled m h l c f
      → decode_location coder m h ≡ some (record { fidx = f; line = l; column = c })
  Recalled-decode m h l c f r =
      Encoded-decode coder m h l c r.bytes
      ∙ elim r.file [ inl (s, e, same) ↦ rw (e, same) | inr (e, same, _, _) ↦ rw (e, same) ]

  located-Recalled :
      (m : Linemap) (column : ℕ)
      → IsOrdered m
      → column < 2 ^ 32
      → length (located coder m column).encoded_locations ≤ no_handle
      → Recalled
          (located coder m column)
          (u32 (length m.encoded_locations))
          m.current_line
          column
          m.current_fidx
  located-Recalled m column v hc small =
      let grows = length-located coder m column v.line_32 hc in
      let fits : u32 (length m.encoded_locations) ≡ length m.encoded_locations = omega arith in
      rw fits (record {
        bytes = encode-Encoded coder m.encoded_locations m.current_line column v.line_32 hc;
        file = inr (
          lower_bound-Below m.segments _ (IsOrdered-Below v),
          refl,
          first-ne m.firsthandle (length m.encoded_locations) (omega arith),
          omega arith,
        );
      })

  get_location-Recalled :
      (before : List Call) (column : ℕ) {m m₁ : Linemap} {h : ℕ}
      → run coder (init coder) before ≡ some m
      → All InRange before
      → column < 2 ^ 32
      → get_location coder m column ≡ some (h, m₁)
      → length m₁.encoded_locations ≤ no_handle
      → Recalled m₁ h m.current_line column m.current_fidx
  get_location-Recalled before column {m} {m₁} started ranges hc got small =
      let (_, at, now) = get_location-some coder m column got in
      rw (at, now)
        (located-Recalled m column
          (run-IsOrdered coder (init coder) before (init-IsOrdered coder) ranges started
            (omega (arith, length-get_location-le coder m column got)))
          hc (subst (λ (t : Linemap). length t.encoded_locations ≤ no_handle) now small))

  -- A location handed out by `get_location` after any calls from a fresh line table decodes, after
  -- any further calls, to the file index, the line and the column that were current when it was
  -- handed out, provided that lines and columns are 32-bit numbers and the final table of bytes
  -- has no more than 2 ^ 32 - 1 bytes.
  pub decode_location-get_location :
      (before after : List Call) (column : ℕ) {m m₁ m₂ : Linemap} {h : ℕ}
      → run coder (init coder) before ≡ some m
      → All InRange before
      → column < 2 ^ 32
      → get_location coder m column ≡ some (h, m₁)
      → run coder m₁ after ≡ some m₂
      → length m₂.encoded_locations ≤ no_handle
      → decode_location coder m₂ h
        ≡ some (record { fidx = m.current_fidx; line = m.current_line; column = column })
  decode_location-get_location before after column {m} {m₁} {m₂} {h} started ranges hc got later
        small =
      Recalled-decode m₂ h m.current_line column m.current_fidx (
        run-Recalled m₁ after h m.current_line column m.current_fidx later small (
          get_location-Recalled before column started ranges hc got
            (omega (arith, length-run-le coder m₁ after later))))
