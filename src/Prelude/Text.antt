-- ===== src/Prelude/Text.antt =====
-- A Go string is its bytes. Literals are ASCII, so that their code points are their bytes.
use Prim.Native.Nat.{ℕ}
use Prim.Native.Char.{code}
use Prim.Native.String.{String}
use mathlib.Core.Path.{◌≡◌, refl}
use mathlib.Core.Logic.{◌↔◌, ◌≢◌}
use mathlib.Core.Bool.{Bool, true, false, ◌&&◌}
use mathlib.Core.List.{List, [], ◌∷◌, ◌++◌}
use native.Mathlib.Omega.{arith}
use backrest_operator.Prelude.Tests.{eq_num, if◌then◌else◌}

abbrev pub Bytes : Type 0
Bytes = List ℕ

unfoldable pub bytes : String → Bytes
bytes String.[] = []
bytes (String.◌∷◌ c s) = code c ∷ bytes s

infix 50 ◌==◌
unfoldable pub ◌==◌ : Bytes → Bytes → Bool
[] == [] = true
[] == (y ∷ ys) = false
(x ∷ xs) == [] = false
(x ∷ xs) == (y ∷ ys) = eq_num x y && (xs == ys)

pub eq_iff : (a b : Bytes) → ((a == b) ≡ true) ↔ (a ≡ b)
unfolding ◌==◌
eq_iff [] [] = (λ _. refl, λ _. refl)
eq_iff [] (y ∷ ys) = ground arith
eq_iff (x ∷ xs) [] = ground arith
eq_iff (x ∷ xs) (y ∷ ys) = ground (arith, eq_iff xs ys)

pub eq_refl : (a : Bytes) → (a == a) ≡ true
eq_refl a = (eq_iff a a).1 refl

pub eq_false_of_ne : (a b : Bytes) → a ≢ b → (a == b) ≡ false
eq_false_of_ne a b h = ground (arith, eq_iff a b)

-- s == ""
abbrev pub is_empty {ℓ} : {A : Type ℓ} → List A → Bool
is_empty [] = true
is_empty (x ∷ xs) = false

-- strings.HasPrefix, with the library's argument order
abbrev pub starts_with : Bytes → Bytes → Bool
starts_with s [] = true
starts_with [] (y ∷ ys) = false
starts_with (x ∷ xs) (y ∷ ys) = eq_num x y && starts_with xs ys

-- strings.ReplaceAll of a text of one byte
abbrev pub replace_all : ℕ → Bytes → Bytes → Bytes
replace_all c by [] = []
replace_all c by (x ∷ xs) = (if eq_num x c then by else x ∷ []) ++ replace_all c by xs

-- if s == "" { s = def }
abbrev pub or_text : Bytes → Bytes → Bytes
or_text [] d = d
or_text (x ∷ xs) d = x ∷ xs
