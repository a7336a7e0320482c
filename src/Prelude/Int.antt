-- ===== src/Prelude/Int.antt =====
-- Signed integers over the native numbers. `negsuc n` is -(n + 1).
use Prim.Native.Nat.{ℕ, zero, suc, ◌-◌, ◌%◌, ◌^◌, ◌<◌}
use mathlib.Core.Path.{◌≡◌}
use mathlib.Core.Logic.{◌↔◌}
use mathlib.Core.Bool.{Bool, true, false}
use native.Mathlib.Omega.{arith}
use backrest_operator.Prelude.Tests.{ltb, leb, eq_num, if◌then◌else◌}

pub data ℤ : Type 0 where
  pos : ℕ → ℤ
  negsuc : ℕ → ℤ

-- 0 < a
abbrev pub is_positive : ℤ → Bool
is_positive (pos zero) = false
is_positive (pos (suc n)) = true
is_positive (negsuc n) = false

unfoldable pub eq_int : ℤ → ℤ → Bool
eq_int (pos a) (pos b) = eq_num a b
eq_int (negsuc a) (negsuc b) = eq_num a b
eq_int _ _ = false

pub eq_int_iff : (a b : ℤ) → (eq_int a b ≡ true) ↔ (a ≡ b)
unfolding eq_int
eq_int_iff (pos a) (pos b) = ground arith
eq_int_iff (pos a) (negsuc b) = ground arith
eq_int_iff (negsuc a) (pos b) = ground arith
eq_int_iff (negsuc a) (negsuc b) = ground arith

-- the int32 with the bit pattern `n`
abbrev pub of_word : ℕ → ℤ
of_word n = if ltb n (2 ^ 31) then pos n else negsuc (2 ^ 32 - 1 - n)

-- int32(a)
unfoldable pub to_int32 : ℤ → ℤ
to_int32 (pos n) = of_word (n % 2 ^ 32)
to_int32 (negsuc n) = of_word (2 ^ 32 - 1 - n % 2 ^ 32)

pub to_int32-pos : (n : ℕ) → n < 2 ^ 31 → to_int32 (pos n) ≡ pos n
unfolding to_int32
to_int32-pos n h = ground arith

-- a <= b
abbrev pub le_int : ℤ → ℤ → Bool
le_int (pos a) (pos b) = leb a b
le_int (pos a) (negsuc b) = false
le_int (negsuc a) (pos b) = true
le_int (negsuc a) (negsuc b) = leb b a
