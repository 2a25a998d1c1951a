-- ===== src/Linemap/Uleb.antt =====
-- A LEB128 coder that meets what the line table asks of LLVM's.
use dragongo.Common.{
  ℕ, zero, suc, ◌+◌, ◌-◌, ◌*◌, ◌/◌, ◌%◌, ◌^◌, ◌≤◌, ◌<◌, ◌≡◌, ◌++◌, Option, none, some, List, [],
  ◌∷◌, arith, ltb, if◌then◌else◌, ◌>>=◌, length,
}
use dragongo.Linemap.Leb.{Leb128}

-- `fuel` bounds the bytes behind the first.
unfoldable pub encode_from : ℕ → ℕ → List ℕ
encode_from zero v = v ∷ []
encode_from (suc fuel) v =
    let rest = encode_from fuel (v / 128) in if ltb v 128 then v ∷ [] else (v % 128 + 128) ∷ rest

unfoldable pub decode : List ℕ → Option (ℕ × ℕ)
decode [] = none
decode (b ∷ bs) =
    let rest = decode bs in
    if ltb b 128 then some (b, 1) else (do (v, n) ← rest; some (b - 128 + 128 * v, suc n))

pub encode_from_sizes :
    (fuel v : ℕ) → (1 ≤ length (encode_from fuel v)) × (length (encode_from fuel v) ≤ suc fuel)
unfolding encode_from
encode_from_sizes zero v = omega arith
encode_from_sizes (suc fuel) v = ground (arith, encode_from_sizes fuel (v / 128))

pub decode-encode_from :
    (fuel v : ℕ) (rest : List ℕ)
    → v < 128 ^ suc fuel
    → decode (encode_from fuel v ++ rest) ≡ some (v, length (encode_from fuel v))
unfolding encode_from decode
decode-encode_from zero v rest h = ground arith
decode-encode_from (suc fuel) v rest h = ground (arith, decode-encode_from fuel (v / 128) rest)

abbrev pub uleb : Leb128
uleb = record {
  encode = encode_from 4;
  decode = decode;
  encode_nonempty = λ v h. (encode_from_sizes 4 v).0;
  encode_short = λ v h. (encode_from_sizes 4 v).1;
  decode-encode = λ v rest h. decode-encode_from 4 v rest (omega arith);
}
