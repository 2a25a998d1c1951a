-- ===== src/Linemap/Special.antt =====
-- The two predefined locations of go-llvm-linemap.cpp, and how a location is printed.
use dragongo.Common.{
  ℕ, ◌^◌, ◌≤◌, ◌<◌, ◌≡◌, refl, sym, subst, ◌∙◌, inl, ◌++◌, append-nil, append_assoc, false, some,
  List, [], ◌∷◌, arith, Text, codes, ne→==_false, length, get_elem?, All, of_some, lt→ltb,
  le→ltb_false,
}
use dragongo.Common.Decimal.{decimal}
use dragongo.Linemap.Leb.{Leb128}
use dragongo.Linemap.{
  Linemap, no_handle, lower_bound, get_location, decode_location, to_string, start_file, start_line,
  stop, init, Call, starts_file, starts_line, gets_location, stops, step, run, get_unknown_location,
  get_predeclared_location, is_unknown, is_predeclared,
}
use dragongo.Linemap.Calls.{
  InRange, step_gets, run_cons, get_location-some, length-run-le, length-get_location-le,
  init_sizes,
}
use dragongo.Linemap.Recall.{Recalled, run-Recalled, Recalled-decode, decode_location-get_location}
use dragongo.Linemap.Files.{get_location_files}

start_file_special :
    (m : Linemap) (name : Text) (line : ℕ)
    → ((start_file m name line).unknown_handle ≡ m.unknown_handle)
      × ((start_file m name line).builtin_handle ≡ m.builtin_handle)
unfolding start_file
start_file_special m name line = ground arith

module _ (coder : Leb128) where
  open coder use {encode}

  abbrev pub builtin_place : ℕ
  builtin_place = length (encode 0 ++ encode 0)

  abbrev Special : Linemap → Type 0
  Special m = (m.unknown_handle ≡ 0) × (m.builtin_handle ≡ builtin_place)

  step-Special :
      (m : Linemap) (call : Call) {m' : Linemap}
      → step coder m call ≡ some m'
      → Special m
      → Special m'
  unfolding step start_line stop
  step-Special m (starts_file name line) e s =
      let (u, b) = start_file_special m name line in subst Special (of_some e) (u ∙ s.0, b ∙ s.1)
  step-Special m (starts_line line size) e s = subst Special (of_some e) s
  step-Special m (gets_location column) e s =
      let (_, now) = step_gets coder m column e in subst Special (sym now) s
  step-Special m stops e s = subst Special (of_some e) s

  run-Special :
      (m : Linemap) (cs : List Call) {m' : Linemap}
      → run coder m cs ≡ some m'
      → Special m
      → Special m'
  unfolding run
  run-Special m [] e s = subst Special (of_some e) s
  run-Special m (call ∷ cs) e s =
      let (m₁, first, rest) = run_cons coder m call cs e in
      run-Special m₁ cs rest (step-Special m call first s)

  length-init :
      length (init coder).encoded_locations
      ≡ length (encode 0 ++ encode 0 ++ (encode 1 ++ encode 1))
  unfolding init
  length-init = refl

  init-Special : Special (init coder)
  unfolding init
  init-Special = (refl, (init_sizes coder).0)

  init-Recalled_unknown : Recalled coder (init coder) 0 0 0 0
  unfolding init lower_bound
  init-Recalled_unknown = record {
    bytes = record {
      before = [];
      after = encode 1 ++ encode 1;
      split = append_assoc (encode 0) (encode 0) (encode 1 ++ encode 1);
      place = refl;
      line_32 = omega arith;
      column_32 = omega arith;
    };
    file = inl (record { lo = 0; hi = 0; fidx = 0 }, refl, refl);
  }

  init-Recalled_builtin : Recalled coder (init coder) builtin_place 1 1 1
  unfolding init lower_bound
  init-Recalled_builtin =
      let (same, first, second) = init_sizes coder in
      record {
        bytes = record {
          before = encode 0 ++ encode 0;
          after = [];
          split = rw append-nil;
          place = refl;
          line_32 = omega arith;
          column_32 = omega arith;
        };
        file = inl (
          record { lo = builtin_place; hi = builtin_place; fidx = 1 },
          rw (same, lt→ltb 0 _ first, le→ltb_false builtin_place builtin_place (omega arith)),
          refl,
        );
      }

  -- After any calls from a fresh table, while it has at most 2 ^ 32 - 1 bytes, the unknown location
  -- decodes to line 0 of file 0, and the predeclared location to line 1, column 1 of file 1.
  pub special_locations :
      (cs : List Call) {m : Linemap}
      → run coder (init coder) cs ≡ some m
      → length m.encoded_locations ≤ no_handle
      → (decode_location coder m (get_unknown_location m)
          ≡ some (record { fidx = 0; line = 0; column = 0 }))
        × (decode_location coder m (get_predeclared_location m)
            ≡ some (record { fidx = 1; line = 1; column = 1 }))
  unfolding get_unknown_location get_predeclared_location
  special_locations cs {m} started small =
      let (u, b) = run-Special (init coder) cs started init-Special in
      (
        simp u (
            Recalled-decode coder m 0 0 0 0
              (run-Recalled coder (init coder) cs 0 0 0 0 started small init-Recalled_unknown)),
        simp b (
            Recalled-decode coder m builtin_place 1 1 1 (
              run-Recalled coder (init coder) cs builtin_place 1 1 1 started small
                init-Recalled_builtin)),
      )

  -- A location from `get_location` is neither of the two, and lies above every byte that was there.
  pub get_location_ordinary :
      (before after : List Call) (column : ℕ) {m m₁ m₂ : Linemap} {h : ℕ}
      → run coder (init coder) before ≡ some m
      → get_location coder m column ≡ some (h, m₁)
      → run coder m₁ after ≡ some m₂
      → length m₂.encoded_locations ≤ no_handle
      → (is_unknown m₂ h ≡ false) × (is_predeclared m₂ h ≡ false)
  unfolding is_unknown is_predeclared
  get_location_ordinary before after column {m} {m₁} {m₂} {h} started got later small =
      let (_, at, now) = get_location-some coder m column got in
      let s₁ : Special m₁ =
        subst Special (sym now) (run-Special (init coder) before started init-Special) in
      let (u, b) = run-Special m₁ after later s₁ in
      let above : builtin_place < h = omega (
        arith,
        init_sizes coder,
        length-init,
        length-run-le coder (init coder) before started,
        length-get_location-le coder m column got,
        length-run-le coder m₁ after later,
      ) in
      (rw u (ne→==_false h 0 (omega arith)), rw b (ne→==_false h builtin_place (omega arith)))

  -- A location from `get_location` is printed, after any further calls, as the base name of the file
  -- that was current, a colon and the current line in decimal. The conditions are those of decoding
  -- a location, and that the final table has no more than 2 ^ 32 files.
  pub to_string-get_location :
      (lbasename : Text → Text) (before after : List Call) (column : ℕ) (name : Text)
      {m m₁ m₂ : Linemap} {h : ℕ}
      → run coder (init coder) before ≡ some m
      → All InRange before
      → column < 2 ^ 32
      → get_elem? m.files m.current_fidx ≡ some name
      → get_location coder m column ≡ some (h, m₁)
      → run coder m₁ after ≡ some m₂
      → length m₂.encoded_locations ≤ no_handle
      → length m₂.files ≤ 2 ^ 32
      → to_string coder lbasename m₂ h
        ≡ some (lbasename name ++ (codes ":" ++ decimal m.current_line))
  unfolding to_string is_unknown is_predeclared
  to_string-get_location lbasename before after column name {m} started ranges hc named got later
        small few =
      let (not_unknown, not_builtin) =
        get_location_ordinary before after column started got later small in
      let (path, _) = get_location_files coder before after column started got later few in
      rw (
        not_unknown,
        not_builtin,
        decode_location-get_location coder before after column started ranges hc got later small,
        path,
        named,
      )
