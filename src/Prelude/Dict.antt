-- ===== src/Prelude/Dict.antt =====
-- Go maps with text keys, as association lists in insertion order.
use mathlib.Core.Path.{◌≡◌, refl}
use mathlib.Core.Option.{Option, none, some}
use mathlib.Core.Bool.{Bool, true, false}
use mathlib.Core.List.{List, [], ◌∷◌}
use native.Mathlib.Omega.{arith}
use backrest_operator.Prelude.Tests.{if◌then◌else◌}
use backrest_operator.Prelude.Text.{Bytes, ◌==◌, eq_iff}

module _ {ℓ} {V : Type ℓ} where
  -- v, ok := m[k]
  unfoldable pub lookup : Bytes → List (Bytes × V) → Option V
  lookup wanted [] = none
  lookup wanted ((name, value) ∷ rest) = if name == wanted then some value else lookup wanted rest

  abbrev pub put_first :
      Bool → Bytes × V → Bytes × V → List (Bytes × V) → List (Bytes × V) → List (Bytes × V)
  put_first true new old rest later = new ∷ rest
  put_first false new old rest later = old ∷ later

  -- m[k] = v: in the place of the old entry, or at the end
  unfoldable pub insert : Bytes → V → List (Bytes × V) → List (Bytes × V)
  insert name value [] = (name, value) ∷ []
  insert name value (entry ∷ rest) =
      put_first (entry.0 == name) (name, value) entry rest (insert name value rest)

  -- delete(m, k)
  unfoldable pub erase : Bytes → List (Bytes × V) → List (Bytes × V)
  erase name [] = []
  erase name (entry ∷ rest) =
      let others = erase name rest in if entry.0 == name then others else entry ∷ others

  pub lookup-erase :
      (gone wanted : Bytes) (entries : List (Bytes × V))
      → lookup wanted (erase gone entries)
        ≡ (if gone == wanted then none else lookup wanted entries)
  unfolding lookup erase
  lookup-erase gone wanted [] = ground arith
  lookup-erase gone wanted ((name, value) ∷ rest) = ground (
    arith,
    eq_iff name wanted,
    eq_iff gone wanted,
    eq_iff name gone,
    lookup-erase gone wanted rest,
  )

  pub lookup-insert :
      (new wanted : Bytes) (value : V) (entries : List (Bytes × V))
      → lookup wanted (insert new value entries)
        ≡ (if new == wanted then some value else lookup wanted entries)
  unfolding lookup insert
  lookup-insert new wanted value [] = refl
  lookup-insert new wanted value ((name, old) ∷ rest) = ground (
    arith,
    lookup-insert new wanted value rest,
    eq_iff name new,
    eq_iff name wanted,
    eq_iff new wanted,
  )

-- s := m[k], where a missing key reads as the empty text
unfoldable pub text_at : Bytes → List (Bytes × Bytes) → Bytes
text_at k m = elim (lookup k m) [ none ↦ [] | some v ↦ v ]
