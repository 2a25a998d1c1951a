-- ===== src/Common/Decimal.antt =====
-- `os << n` for an unsigned number: its decimal digits, without leading zeros.
use Prim.Native.Nat.{ℕ, zero, suc, ◌+◌, ◌-◌, ◌*◌, ◌/◌, ◌%◌, ◌^◌, ◌≤◌, ◌<◌}
use mathlib.Core.Path.{◌≡◌, refl, ap, sym, ◌∙◌}
use mathlib.Core.List.{[], ◌∷◌, ◌++◌}
use native.Mathlib.Omega.{arith}
use dragongo.Common.Tests.{ltb, if◌then◌else◌}
use dragongo.Common.Lists.{All, All-append}
use dragongo.Common.Texts.{Text}

-- `fuel` bounds the digits behind the first.
pub digits_of : ℕ → ℕ → Text
digits_of zero n = (48 + n % 10) ∷ []
digits_of (suc fuel) n =
    let front = digits_of fuel (n / 10) in
    if ltb n 10 then (48 + n) ∷ [] else front ++ ((48 + n % 10) ∷ [])

-- Nine further digits are enough for 32 bits.
unfoldable pub decimal : ℕ → Text
unfolding digits_of
decimal n = digits_of 9 n

abbrev value : ℕ → Text → ℕ
value acc [] = acc
value acc (d ∷ ds) = value (acc * 10 + (d - 48)) ds

value-append :
    (acc : ℕ) (xs : Text) (d : ℕ) → value acc (xs ++ (d ∷ [])) ≡ value acc xs * 10 + (d - 48)
value-append acc [] d = refl
value-append acc (x ∷ xs) d = value-append (acc * 10 + (x - 48)) xs d

value-digits_of : (fuel n : ℕ) → n < 10 ^ suc fuel → value 0 (digits_of fuel n) ≡ n
unfolding digits_of
value-digits_of zero n h = omega arith
value-digits_of (suc fuel) n h =
    ground
      (arith, value-digits_of fuel (n / 10), value-append 0 (digits_of fuel (n / 10)) (48 + n % 10))

-- Two 32-bit numbers with the same digits are the same number.
pub decimal-injective : (m n : ℕ) → m < 2 ^ 32 → n < 2 ^ 32 → decimal m ≡ decimal n → m ≡ n
unfolding decimal
decimal-injective m n hm hn e =
    sym (value-digits_of 9 m (omega arith)) ∙ ap (value 0) e ∙ value-digits_of 9 n (omega arith)

abbrev pub IsDigit : ℕ → Type 0
IsDigit d = (48 ≤ d) × (d ≤ 57)

digits_of-IsDigit : (fuel n : ℕ) → All IsDigit (digits_of fuel n)
unfolding digits_of
digits_of-IsDigit zero n = omega arith
digits_of-IsDigit (suc fuel) n = ground (
  arith,
  All-append IsDigit (digits_of fuel (n / 10)) ((48 + n % 10) ∷ [])
      (digits_of-IsDigit fuel (n / 10)) (omega arith),
)

pub decimal-IsDigit : (n : ℕ) → All IsDigit (decimal n)
unfolding decimal
decimal-IsDigit n = digits_of-IsDigit 9 n

decimal_run : decimal 4294967295 ≡ 52 ∷ 50 ∷ 57 ∷ 52 ∷ 57 ∷ 54 ∷ 55 ∷ 50 ∷ 57 ∷ 53 ∷ []
unfolding decimal
decimal_run = refl
