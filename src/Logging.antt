-- ===== src/Logging.antt =====
-- internal/logging/logging.go: the texts that are shortened and redacted before they are logged.
pub mod Laws
use backrest_operator.Prelude.{
  ℕ, suc, ◌+◌, Bytes, bytes, Bool, true, false, ◌&&◌, ◌||◌, not, Option, none, some, List, [], ◌∷◌,
  ◌++◌, map, length, take, any, is_empty, or_text, starts_with, eq_num, ltb, leb, ◌==◌,
  if◌then◌else◌,
}
use backrest_operator.Prelude.Decimal.{decimal}
use backrest_operator.Filters.{trim_space, split}
use backrest_operator.Mcp.Server.{to_lower}

-- the bytes of the ellipsis in UTF-8
abbrev pub ellipsis : Bytes
ellipsis = 226 ∷ 128 ∷ 166 ∷ []

-- max, where 0 means 200
abbrev pub limit : ℕ → ℕ
limit max = if eq_num max 0 then 200 else max

unfoldable pub truncate : Bytes → ℕ → Bytes
unfolding trim_space decimal
truncate text max =
    let s = trim_space text in
    if leb (length s) (limit max)
    then s
    else take (limit max) s ++ ellipsis ++ bytes "(" ++ decimal (length s) ++ bytes "B)"

-- strings.Count of a byte
abbrev pub count : ℕ → Bytes → ℕ
count c [] = 0
count c (x ∷ s) = let rest = count c s in if eq_num x c then suc rest else rest

-- strings.Trim of a byte
abbrev pub trim_left_byte : ℕ → Bytes → Bytes
trim_left_byte c [] = []
trim_left_byte c (x ∷ s) = let rest = trim_left_byte c s in if eq_num x c then rest else x ∷ s

abbrev pub trim_right_byte : ℕ → Bytes → Bytes
trim_right_byte c [] = []
trim_right_byte c (x ∷ s) =
    let rest = trim_right_byte c s in if is_empty rest && eq_num x c then [] else x ∷ rest

-- strings.HasSuffix of a byte
abbrev pub ends_with : Bytes → ℕ → Bool
ends_with [] c = false
ends_with (x ∷ []) c = eq_num x c
ends_with (x ∷ y ∷ s) c = ends_with (y ∷ s) c

-- a segment that looks like a signed token
abbrev pub is_token : Bytes → Bool
is_token p = eq_num (count b'.' p) 2 && ltb 40 (length p)

unfoldable pub redact_part : Bytes → Bytes
redact_part p = if is_token p then bytes "<token>" else p

-- strings.Join with a slash
abbrev pub join_path : List Bytes → Bytes
join_path [] = []
join_path (p ∷ []) = p
join_path (p ∷ q ∷ ps) = p ++ b'/' ∷ join_path (q ∷ ps)

-- the parts of net/url's URL that are read
pub record Url : Type 0 where
  pub scheme : Bytes
  pub host : Bytes
  pub path : Bytes
  pub raw_query : Bytes

unfoldable pub redact_path : Bytes → Bytes
unfolding split redact_part
redact_path path =
    b'/'
    ∷ join_path (map redact_part (split b'/' (trim_right_byte b'/' (trim_left_byte b'/' path))))

-- a slash at the end of the whole is kept
abbrev pub with_slash : Bytes → Bytes → Bytes
with_slash raw path =
    if ends_with raw b'/' && not (ends_with path b'/') then path ++ bytes "/" else path

abbrev pub with_query : Bytes → Bytes
with_query [] = []
with_query (c ∷ q) = b'?' ∷ c ∷ q

-- `parse` is url.Parse.
unfoldable pub redact_url : (Bytes → Option Url) → Bytes → Bytes
unfolding trim_space truncate redact_path
redact_url parse text =
    let raw = trim_space text in
    if is_empty raw then [] else elim (parse raw) [
      | none ↦ truncate raw 80
      | some u ↦
          u.scheme
          ++ bytes "://"
          ++ u.host
          ++ with_slash raw (redact_path u.path)
          ++ with_query u.raw_query
    ]

-- envOr, by the value of the variable
abbrev pub env_or : Bytes → Bytes → Bytes
env_or value def = or_text value def

-- the truth of a text, as in envBool here and in the MCP server
abbrev pub is_one_of : Bytes → List Bytes → Bool
is_one_of v names = any (λ n. v == n) names

unfoldable pub env_bool : Bytes → Bool → Bool
unfolding to_lower
env_bool value def =
    if is_empty value
    then def
    else if is_one_of (to_lower value)
        (bytes "1" ∷ bytes "true" ∷ bytes "yes" ∷ bytes "y" ∷ bytes "on" ∷ [])
    then true
    else if is_one_of (to_lower value)
        (bytes "0" ∷ bytes "false" ∷ bytes "no" ∷ bytes "n" ∷ bytes "off" ∷ [])
    then false
    else def
