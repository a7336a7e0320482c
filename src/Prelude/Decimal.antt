-- ===== src/Prelude/Decimal.antt =====
-- fmt's %d.
use Prim.Native.Nat.{ℕ, zero, suc, ◌+◌, ◌/◌, ◌%◌, ◌≤◌, ◌<◌}
use mathlib.Core.Path.{◌≡◌, refl}
use mathlib.Core.List.{[], ◌∷◌, ◌++◌}
use native.Mathlib.Omega.{arith}
use backrest_operator.Prelude.Tests.{ltb, if◌then◌else◌}
use backrest_operator.Prelude.Text.{Bytes, bytes}
use backrest_operator.Prelude.Lists.{All, All-append, All-if}
use backrest_operator.Prelude.Int.{ℤ, pos, negsuc}

-- `suc n` rounds are enough: each divides the number by ten.
digits : ℕ → ℕ → Bytes
digits zero n = []
digits (suc f) n =
    let more = digits f (n / 10) in (if ltb n 10 then [] else more) ++ (48 + n % 10) ∷ []

unfoldable pub decimal : ℕ → Bytes
unfolding digits
decimal n = digits (suc n) n

unfoldable pub decimal_int : ℤ → Bytes
unfolding decimal
decimal_int (pos n) = decimal n
decimal_int (negsuc n) = b'-' ∷ decimal (suc n)

abbrev pub IsDigit : ℕ → Type 0
IsDigit c = (48 ≤ c) × (c < 58)

digits-IsDigit : (f n : ℕ) → All IsDigit (digits f n)
unfolding digits
digits-IsDigit zero n = tt
digits-IsDigit (suc f) n =
    All-append IsDigit (if ltb n 10 then [] else digits f (n / 10)) _
      (All-if IsDigit (ltb n 10) [] _ tt (digits-IsDigit f (n / 10)))
      ((omega arith, omega arith), tt)

-- every byte of a printed number is a digit
pub decimal-IsDigit : (n : ℕ) → All IsDigit (decimal n)
unfolding decimal
decimal-IsDigit n = digits-IsDigit (suc n) n

snoc-cons : (xs : Bytes) (d : ℕ) → (c : ℕ) × (s : Bytes) × (xs ++ d ∷ [] ≡ c ∷ s)
snoc-cons [] d = (d, [], refl)
snoc-cons (x ∷ xs) d = (x, xs ++ d ∷ [], refl)

-- a printed number is not empty
pub decimal-cons : (n : ℕ) → (c : ℕ) × (s : Bytes) × (decimal n ≡ c ∷ s)
unfolding decimal digits
decimal-cons n = snoc-cons _ (48 + n % 10)

decimal_sample : decimal 1209 ≡ bytes "1209"
unfolding decimal bytes
decimal_sample = refl
