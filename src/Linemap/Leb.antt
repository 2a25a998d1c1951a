-- ===== src/Linemap/Leb.antt =====
-- `llvm::encodeULEB128` and `llvm::decodeULEB128`, which belong to LLVM: what the table of
-- locations relies on. Decoding reads from a pointer into the bytes that follow.
use dragongo.Common.{ℕ, ◌^◌, ◌≤◌, ◌<◌, ◌≡◌, ◌++◌, Option, some, List, length}

-- A 32-bit number has 1 to 5 bytes, and reads back with their count.
pub record Leb128 : Type 0 where
  pub encode : ℕ → List ℕ
  pub decode : List ℕ → Option (ℕ × ℕ)
  pub encode_nonempty : (v : ℕ) → v < 2 ^ 32 → 1 ≤ length (encode v)
  pub encode_short : (v : ℕ) → v < 2 ^ 32 → length (encode v) ≤ 5
  pub decode-encode :
      (v : ℕ) (rest : List ℕ) → v < 2 ^ 32 → decode (encode v ++ rest) ≡ some (v, length (encode v))
