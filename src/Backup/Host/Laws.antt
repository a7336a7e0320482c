-- ===== src/Backup/Host/Laws.antt =====
-- The ids of plans on the Backrest host: sanitizeID.
use backrest_operator.Prelude.{
  ℕ, suc, zero, ◌≤◌, ◌≡◌, refl, ◌⊎◌, Bytes, [], ◌∷◌, All, map, take, length, length-take, arith,
}
use backrest_operator.Backup.Host.{id_byte, sanitize_id}

-- a lower case letter, a digit, `-` or `_`
abbrev pub IsIdByte : ℕ → Type 0
IsIdByte c = ((97 ≤ c) × (c ≤ 122)) ⊎ (((48 ≤ c) × (c ≤ 57)) ⊎ ((c ≡ 45) ⊎ (c ≡ 95)))

id_byte-IsIdByte : (c : ℕ) → IsIdByte (id_byte c)
id_byte-IsIdByte c = ground arith

id_byte-fixed : (c : ℕ) → IsIdByte c → id_byte c ≡ c
id_byte-fixed c h = ground arith

take-map-All : (n : ℕ) (s : Bytes) → All IsIdByte (take n (map id_byte s))
take-map-All zero s = tt
take-map-All (suc n) [] = tt
take-map-All (suc n) (c ∷ s) = (id_byte-IsIdByte c, take-map-All n s)

sanitize-fixed : (n : ℕ) (s : Bytes) → All IsIdByte s → length s ≤ n → take n (map id_byte s) ≡ s
sanitize-fixed zero [] h le = refl
sanitize-fixed zero (c ∷ s) h le = absurd (omega (arith, le))
sanitize-fixed (suc n) [] h le = refl
sanitize-fixed (suc n) (c ∷ s) (p, h) le =
    rw (id_byte-fixed c p) (rw (sanitize-fixed n s h (omega (arith, le))) refl)

-- The id of a plan has at most 64 bytes, each a lower case letter, a digit, `-` or `_`, and an id
-- that is sanitized once more stays as it is.
sanitize_id_lem :
    (s : Bytes)
    → (length (sanitize_id s) ≤ 64)
      × All IsIdByte (sanitize_id s)
      × (sanitize_id (sanitize_id s) ≡ sanitize_id s)
unfolding sanitize_id
sanitize_id_lem s =
    let le : length (take 64 (map id_byte s)) ≤ 64 =
      omega (arith, length-take 64 (map id_byte s)) in
    (le, take-map-All 64 s, sanitize-fixed 64 (take 64 (map id_byte s)) (take-map-All 64 s) le)
