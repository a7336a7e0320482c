-- ===== src/Client/Links.antt =====
-- internal/backrest/client.go: AbsoluteDownloadURL and ExpiryFromDownloadRelativeURL.
pub mod Laws
use backrest_operator.Prelude.{
  ℕ, ◌*◌, Bytes, bytes, Bool, true, false, ◌&&◌, Option, none, some, List, [], ◌∷◌, ◌++◌, is_empty,
  starts_with, length, eq_num, ltb, if◌then◌else◌,
}
use backrest_operator.Prelude.Int.{ℤ, pos, negsuc, eq_int}
use backrest_operator.Effects.{Result, ok, err}
use backrest_operator.Filters.{trim_space, split}
use backrest_operator.Logging.{count, trim_left_byte, trim_right_byte}

-- strings.TrimPrefix of ./
unfoldable pub trim_dot : Bytes → Bytes
trim_dot (x ∷ y ∷ s) = if eq_num x b'.' && eq_num y b'/' then s else x ∷ y ∷ s
trim_dot s = s

abbrev pub rooted : Bytes → Bytes
rooted rel = if starts_with rel (bytes "/") then rel else b'/' ∷ rel

unfoldable pub absolute_download_url : Bytes → Bytes → Bytes
unfolding trim_space trim_dot
absolute_download_url base relative =
    trim_right_byte b'/' (trim_space base) ++ rooted (trim_dot (trim_space relative))

abbrev pub is_jwt : Bytes → Bool
is_jwt p = eq_num (count b'.' p) 2 && ltb 20 (length p)

-- the first part that looks like a token, or the empty text
unfoldable pub find_jwt : List Bytes → Bytes
find_jwt [] = []
find_jwt (p ∷ ps) = let rest = find_jwt ps in if is_jwt p then p else rest

-- the middle of three segments
abbrev pub payload_of : List Bytes → Option Bytes
payload_of (header ∷ payload ∷ signature ∷ []) = some payload
payload_of _ = none

-- `decode` is base64.RawURLEncoding.DecodeString, and `claim` reads `exp` of a JSON object, which is 0
-- where it is missing and nothing where the text is no such object. The answer is in seconds.
module _ (decode : Bytes → Option Bytes) (claim : Bytes → Option ℤ) where
  abbrev expiry_of : Option ℤ → Option ℤ
  expiry_of none = none
  expiry_of (some exp) = if eq_int exp (pos 0) then none else some exp

  abbrev pub claimed : Option Bytes → Option ℤ
  claimed none = none
  claimed (some json) = expiry_of (claim json)

  abbrev pub expiry_of_payload : Option Bytes → Option ℤ
  expiry_of_payload none = none
  expiry_of_payload (some payload) = claimed (decode payload)

  abbrev pub expiry_of_jwt : Bytes → Option ℤ
  expiry_of_jwt jwt = if is_empty jwt then none else expiry_of_payload (payload_of (split b'.' jwt))

  unfoldable pub expiry_from_download_relative_url : Bytes → Option ℤ
  unfolding eq_int trim_space trim_dot split find_jwt
  expiry_from_download_relative_url relative = expiry_of_jwt (
      find_jwt
        (split b'/' (trim_dot (trim_right_byte b'/' (trim_left_byte b'/' (trim_space relative))))))
