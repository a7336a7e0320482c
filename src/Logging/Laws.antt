-- ===== src/Logging/Laws.antt =====
-- What RedactURL leaves of a path.
use backrest_operator.Prelude.{
  ℕ, ◌≡◌, refl, sym, subst, ap, ◌∙◌, Bytes, bytes, false, List, [], ◌∷◌, map, All, eq_num, is_empty,
  Bool-cases, inl, inr,
}
use backrest_operator.Filters.{split, push}
use backrest_operator.Filters.Laws.{split-name, split-append}
use backrest_operator.Logging.{
  is_token, redact_part, join_path, redact_path, trim_left_byte, trim_right_byte,
}

-- no slash in a text
abbrev pub NoSlash : Bytes → Type 0
NoSlash s = All (λ c. eq_num c b'/' ≡ false) s

-- a segment without a token
abbrev pub IsPlain : Bytes → Type 0
IsPlain p = is_token p ≡ false

redact_part-IsPlain : (p : Bytes) → IsPlain (redact_part p)
unfolding redact_part bytes
redact_part-IsPlain p = elim (Bool-cases (is_token p)) [ inl e ↦ rw e refl | inr e ↦ rw e e ]

redact_parts-IsPlain : (ps : List Bytes) → All IsPlain (map redact_part ps)
redact_parts-IsPlain [] = tt
redact_parts-IsPlain (p ∷ ps) = (redact_part-IsPlain p, redact_parts-IsPlain ps)

-- "<token>" is one segment
redact_part-NoSlash : (p : Bytes) → NoSlash p → NoSlash (redact_part p)
unfolding redact_part bytes
redact_part-NoSlash p h = elim (Bool-cases (is_token p)) [
  | inl e ↦ rw e (refl, (refl, (refl, (refl, (refl, (refl, (refl, tt)))))))
  | inr e ↦ rw e h
]

redact_parts-NoSlash : (ps : List Bytes) → All NoSlash ps → All NoSlash (map redact_part ps)
redact_parts-NoSlash [] h = tt
redact_parts-NoSlash (p ∷ ps) (n, h) = (redact_part-NoSlash p n, redact_parts-NoSlash ps h)

-- The parts of a text have no slash, and there is one at least.
record AreParts (ps : List Bytes) : Type 0 where
  clean : All NoSlash ps
  some_part : is_empty ps ≡ false

pushed : (c : ℕ) (ps : List Bytes) → eq_num c b'/' ≡ false → AreParts ps → AreParts (push c ps)
pushed c [] e h = cc h.some_part
pushed c (p ∷ ps) e h =
    let (n, rest) = h.clean in record { clean = ((e, n), rest); some_part = refl }

split-AreParts : (s : Bytes) → AreParts (split b'/' s)
unfolding split
split-AreParts [] = record { clean = (tt, tt); some_part = refl }
split-AreParts (c ∷ s) = elim (Bool-cases (eq_num c b'/')) [
  | inl e ↦ rw e (record { clean = (tt, (split-AreParts s).clean); some_part = refl })
  | inr e ↦ rw e (pushed c (split b'/' s) e (split-AreParts s))
]

map-AreParts : (ps : List Bytes) → AreParts ps → AreParts (map redact_part ps)
map-AreParts [] h = cc h.some_part
map-AreParts (p ∷ ps) h = record { clean = redact_parts-NoSlash (p ∷ ps) h.clean; some_part = refl }

split-join_path : (ps : List Bytes) → AreParts ps → split b'/' (join_path ps) ≡ ps
split-join_path [] h = cc h.some_part
split-join_path (p ∷ []) h = split-name b'/' p h.clean.0
split-join_path (p ∷ q ∷ ps) h =
    let (n, rest) = h.clean in
    split-append b'/' p (join_path (q ∷ ps)) n
    ∙ ap (λ x. p ∷ x) (split-join_path (q ∷ ps) (record { clean = rest; some_part = refl }))

-- No segment between the slashes of a redacted path looks like a signed token, whatever the path.
pub redact_path-IsPlain : (path : Bytes) → All IsPlain (split b'/' (redact_path path))
unfolding redact_path split
redact_path-IsPlain path =
    let parts = split b'/' (trim_right_byte b'/' (trim_left_byte b'/' path)) in
    (
      refl,
      subst (λ x. All IsPlain x)
          (sym (
            split-join_path (map redact_part parts) (
              map-AreParts parts
                (split-AreParts (trim_right_byte b'/' (trim_left_byte b'/' path))))))
          (redact_parts-IsPlain parts),
    )
