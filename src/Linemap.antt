-- ===== src/Linemap.antt =====
-- llvm-gofrontend/go-llvm-linemap.cpp and .h: the table that hands out a handle for each source
-- position. The LEB128 coder of LLVM is a parameter.
pub mod Leb
pub mod Uleb
pub mod Segments
pub mod Encoded
pub mod Calls
pub mod Recall
pub mod Files
pub mod Special
mod Runs
use dragongo.Common.{
  ℕ, zero, suc, ◌+◌, ◌-◌, ◌%◌, ◌^◌, ◌≡◌, ◌++◌, Bool, true, false, Option, none, some, List, [], ◌∷◌,
  Text, codes, text_eq, ltb, leb, ◌==◌, if◌then◌else◌, ◌>>=◌, ◌>>◌, assert, length, get_elem?, drop,
}
use dragongo.Common.Decimal.{decimal}
use Leb.{Leb128}

abbrev pub u32 : ℕ → ℕ
u32 n = n % 2 ^ 32

abbrev pub no_handle : ℕ
no_handle = 0xffffffff

-- `Llvm_linemap::FLC`
pub record Flc : Type 0 where
  pub fidx : ℕ
  pub line : ℕ
  pub column : ℕ

-- `Llvm_linemap::Segment`
pub record Segment : Type 0 where
  pub lo : ℕ
  pub hi : ℕ
  pub fidx : ℕ

pub record Linemap : Type 0 where
  pub files : List Text
  pub fmap : List (Text × ℕ)
  pub segments : List Segment
  pub encoded_locations : List ℕ
  pub unknown_fidx : ℕ
  pub builtin_fidx : ℕ
  pub current_fidx : ℕ
  pub current_line : ℕ
  pub builtin_handle : ℕ
  pub unknown_handle : ℕ
  pub firsthandle : ℕ
  pub lasthandle : ℕ
  pub lookups : ℕ
  pub in_file : Bool

-- `std::map<std::string, unsigned>::find`
pub find : Text → List (Text × ℕ) → Option ℕ
find k [] = none
find k ((j, v) ∷ m) = if text_eq j k then some v else find k m

-- `std::lower_bound` with `Segment::cmp`: the first segment whose `hi` is not below the handle.
pub lower_bound : List Segment → ℕ → Option Segment
lower_bound [] handle = none
lower_bound (s ∷ ss) handle = if ltb s.hi handle then lower_bound ss handle else some s

module _ (coder : Leb128) where
  open coder use {encode, decode}

  -- The handle and the table behind it.
  pub add_encoded_location : Linemap → Flc → ℕ × Linemap
  add_encoded_location m flc = (
    u32 (length m.encoded_locations),
    record m { encoded_locations = m.encoded_locations ++ (encode flc.line ++ encode flc.column) },
  )

  -- What `Llvm_linemap` starts with, before its constructor's body.
  abbrev bare : Linemap
  bare = record {
    files = codes "" ∷ codes "<built-in>" ∷ [];
    fmap = [];
    segments = [];
    encoded_locations = [];
    unknown_fidx = 0;
    builtin_fidx = 1;
    current_fidx = 0;
    current_line = 0xffffffff;
    builtin_handle = no_handle;
    unknown_handle = no_handle;
    firsthandle = no_handle;
    lasthandle = no_handle;
    lookups = 0;
    in_file = false;
  }

  -- `Llvm_linemap::Llvm_linemap`
  pub init : Linemap
  unfolding add_encoded_location
  init =
      let (unknown, m) = add_encoded_location bare (record { fidx = 0; line = 0; column = 0 }) in
      let (builtin, m') = add_encoded_location m (record { fidx = 1; line = 1; column = 1 }) in
      record m' {
        unknown_handle = unknown;
        builtin_handle = builtin;
        segments =
            record { lo = unknown; hi = unknown; fidx = 0 }
            ∷ record { lo = builtin; hi = builtin; fidx = 1 }
            ∷ [];
      }

  -- `none` is a failed assertion. A handle is a position in the table of bytes.
  pub decode_location : Linemap → ℕ → Option Flc
  decode_location m handle = do
    assert (ltb handle (length m.encoded_locations))
    (line, c1) ← decode (drop handle m.encoded_locations)
    (column, c2) ← decode (drop (handle + c1) m.encoded_locations)
    assert (leb (handle + c1 + c2) (length m.encoded_locations))
    some (record {
      fidx = elim (lower_bound m.segments handle) [ none ↦ m.current_fidx | some s ↦ s.fidx ];
      line = line;
      column = column;
    })

  pub get_location : Linemap → ℕ → Option (ℕ × Linemap)
  unfolding add_encoded_location
  get_location m column = do
    assert m.in_file
    let flc : Flc = record { fidx = m.current_fidx; line = m.current_line; column = column }
    let (handle, m') = add_encoded_location (record m { lookups = u32 (m.lookups + 1) }) flc
    some (
      handle,
      record m' {
        firsthandle = if m.firsthandle == no_handle then handle else m.firsthandle;
        lasthandle = handle;
      },
    )

  -- `Llvm_linemap::to_string`; `lbasename` is libiberty's.
  pub to_string : (Text → Text) → Linemap → ℕ → Option Text
  to_string lbasename m handle =
      if handle == m.unknown_handle
      then some (codes "")
      else if handle == m.builtin_handle
      then some (codes "<built-in>")
      else (do
        flc ← decode_location m handle
        path ← get_elem? m.files flc.fidx
        some (lbasename path ++ (codes ":" ++ decimal flc.line)))

  pub location_line : Linemap → ℕ → Option ℕ
  location_line m handle = do flc ← decode_location m handle; some flc.line

  pub location_file : Linemap → ℕ → Option Text
  location_file m handle = do flc ← decode_location m handle; get_elem? m.files flc.fidx

  pub location_column : Linemap → ℕ → Option ℕ
  location_column m handle = do flc ← decode_location m handle; some flc.column

-- The segment that is closed when another file starts.
pub close_segment : Linemap → Linemap
close_segment m = if m.firsthandle == no_handle then m else record m {
  segments =
      m.segments ++ (record { lo = m.firsthandle; hi = m.lasthandle; fidx = m.current_fidx } ∷ []);
}

-- The file's index, and the tables with the file entered.
pub enter_file : Linemap → Text → ℕ × Linemap
enter_file m file_name = elim (find file_name m.fmap) [
  | some fidx ↦ (fidx, m)
  | none ↦ (
    u32 (length m.files),
    record m {
      files = m.files ++ (file_name ∷ []);
      fmap = (file_name, u32 (length m.files)) ∷ m.fmap;
    },
  )
]

pub start_file : Linemap → Text → ℕ → Linemap
unfolding close_segment enter_file
start_file m file_name line_begin =
    let closed = record (close_segment m) { firsthandle = no_handle; lasthandle = no_handle } in
    let (fidx, m') = enter_file closed file_name in
    record m' { current_fidx = fidx; current_line = line_begin; in_file = true }

pub start_line : Linemap → ℕ → ℕ → Linemap
start_line m lineno linesize = record m { current_line = lineno }

pub stop : Linemap → Linemap
stop m = record m { in_file = false }

pub get_initial_file : Linemap → Text
get_initial_file m = elim (get_elem? m.files 2) [ none ↦ codes "" | some f ↦ f ]

pub get_unknown_location : Linemap → ℕ
get_unknown_location m = m.unknown_handle

pub get_predeclared_location : Linemap → ℕ
get_predeclared_location m = m.builtin_handle

pub is_predeclared : Linemap → ℕ → Bool
is_predeclared m handle = handle == m.builtin_handle

pub is_unknown : Linemap → ℕ → Bool
is_unknown m handle = handle == m.unknown_handle

-- The calls that the front end makes while it scans, in order.
pub data Call : Type 0 where
  starts_file : Text → ℕ → Call
  starts_line : ℕ → ℕ → Call
  gets_location : ℕ → Call
  stops : Call

pub step : Leb128 → Linemap → Call → Option Linemap
step coder m (starts_file name line) = some (start_file m name line)
step coder m (starts_line line size) = some (start_line m line size)
step coder m (gets_location column) = do (h, m') ← get_location coder m column; some m'
step coder m stops = some (stop m)

pub run : Leb128 → Linemap → List Call → Option Linemap
run coder m [] = some m
run coder m (c ∷ cs) = do m' ← step coder m c; run coder m' cs
