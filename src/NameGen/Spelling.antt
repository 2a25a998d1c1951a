-- ===== src/NameGen/Spelling.antt =====
-- How namegen.h spells a tag and a version.
use dragongo.Common.{ℕ, ◌^◌, ◌<◌, ◌≡◌, refl, ap₂, ◌++◌, [], ◌∷◌, arith, Text, All}
use dragongo.Common.Decimal.{decimal, decimal-injective, IsDigit, decimal-IsDigit}
use dragongo.NameGen.{spell}

-- A dot is no digit.
dot_not_in : (t d : Text) (e : Text) → All IsDigit e → e ≡ t ++ (46 ∷ d) → ⊥
dot_not_in [] d [] h e = ground arith
dot_not_in [] d (x ∷ xs) h e = ground arith
dot_not_in (y ∷ t) d [] h e = ground arith
dot_not_in (y ∷ t) d (x ∷ xs) h e = dot_not_in t d xs h.1 (ground arith)

last_dot :
    (t u d e : Text)
    → All IsDigit d
    → All IsDigit e
    → t ++ (46 ∷ d) ≡ u ++ (46 ∷ e)
    → (t ≡ u) × (d ≡ e)
last_dot [] [] d e hd he p = (refl, ground arith)
last_dot [] (y ∷ u) d e hd he p = absurd (dot_not_in u e d hd (ground arith))
last_dot (x ∷ t) [] d e hd he p = absurd (dot_not_in t d e he (ground arith))
last_dot (x ∷ t) (y ∷ u) d e hd he p =
    let rest : t ++ (46 ∷ d) ≡ u ++ (46 ∷ e) = ground arith in
    let (same, same') = last_dot t u d e hd he rest in (ap₂ ◌∷◌ (ground arith) same, same')

-- Two names are equal only if both the tags and the versions are, for tags of any text and 32-bit
-- versions.
pub spell-injective :
    (t u : Text) (m n : ℕ) → m < 2 ^ 32 → n < 2 ^ 32 → spell t m ≡ spell u n → (t ≡ u) × (m ≡ n)
unfolding spell
spell-injective t u m n hm hn e =
    let (same, digits) =
      last_dot t u (decimal m) (decimal n) (decimal-IsDigit m) (decimal-IsDigit n) e in
    (same, decimal-injective m n hm hn digits)
