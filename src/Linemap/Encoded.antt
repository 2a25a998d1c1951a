-- ===== src/Linemap/Encoded.antt =====
-- The bytes of go-llvm-linemap.cpp: what a handle decodes to, and that it stays so.
use dragongo.Common.{
  ℕ, ◌+◌, ◌^◌, ◌≤◌, ◌<◌, ◌≡◌, refl, ap, ◌++◌, none, some, List, [], arith, lt→ltb, le→leb, length,
  length-append, drop, drop-append, drop-append_append, append_assoc, append-nil,
}
use dragongo.Linemap.Leb.{Leb128}
use dragongo.Linemap.{Linemap, lower_bound, decode_location}

module _ (coder : Leb128) where
  open coder use {encode, decode, encode_nonempty, decode-encode}

  -- The pair of numbers is encoded at a position of the bytes.
  pub record Encoded (bytes : List ℕ) (handle line column : ℕ) : Type 0 where
    pub before : List ℕ
    pub after : List ℕ
    pub split : bytes ≡ before ++ (encode line ++ (encode column ++ after))
    pub place : length before ≡ handle
    pub line_32 : line < 2 ^ 32
    pub column_32 : column < 2 ^ 32

  pub Encoded-append :
      (bytes more : List ℕ) {h l c : ℕ} → Encoded bytes h l c → Encoded (bytes ++ more) h l c
  Encoded-append bytes more {l = l} {c = c} e = record {
    before = e.before;
    after = e.after ++ more;
    split = rw (e.split, append_assoc, append_assoc, append_assoc);
    place = e.place;
    line_32 = e.line_32;
    column_32 = e.column_32;
  }

  pub encode-Encoded :
      (bytes : List ℕ) (l c : ℕ)
      → l < 2 ^ 32
      → c < 2 ^ 32
      → Encoded (bytes ++ (encode l ++ encode c)) (length bytes) l c
  encode-Encoded bytes l c hl hc = record {
    before = bytes;
    after = [];
    split = rw append-nil;
    place = refl;
    line_32 = hl;
    column_32 = hc;
  }

  pub Encoded-lt : {bytes : List ℕ} {h l c : ℕ} → Encoded bytes h l c → h < length bytes
  Encoded-lt {bytes} {h} {l} {c} e = omega (
    arith,
    ap length e.split,
    length-append e.before (encode l ++ (encode c ++ e.after)),
    length-append (encode l) (encode c ++ e.after),
    encode_nonempty l e.line_32,
    e.place,
  )

  -- Both reads of `decode_location` succeed, and end inside the table.
  pub Encoded-reads :
      {bytes : List ℕ} {h l c : ℕ}
      → Encoded bytes h l c
      → (decode (drop h bytes) ≡ some (l, length (encode l)))
        × (decode (drop (h + length (encode l)) bytes) ≡ some (c, length (encode c)))
        × (h + length (encode l) + length (encode c) ≤ length bytes)
  Encoded-reads {bytes} {h} {l} {c} e = (
    rw (e.split, ← e.place, drop-append) (decode-encode l _ e.line_32),
    rw (e.split, ← e.place, drop-append_append) (decode-encode c _ e.column_32),
    omega (
      arith,
      ap length e.split,
      length-append e.before (encode l ++ (encode c ++ e.after)),
      length-append (encode l) (encode c ++ e.after),
      length-append (encode c) e.after,
      e.place,
    ),
  )

  -- An encoded position decodes to its line and column, in the file of its segment.
  pub Encoded-decode :
      (m : Linemap) (h l c : ℕ)
      → Encoded m.encoded_locations h l c
      → decode_location coder m h
        ≡ some (record {
          fidx = elim (lower_bound m.segments h) [ none ↦ m.current_fidx | some s ↦ s.fidx ];
          line = l;
          column = c;
        })
  unfolding decode_location
  Encoded-decode m h l c e =
      let (first, second, inside) = Encoded-reads e in
      rw (lt→ltb _ _ (Encoded-lt e), first, second, le→leb _ _ inside)
