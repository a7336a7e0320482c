-- ===== src/Client/Links/Laws.antt =====
-- Relative links as a host signs them: ./download/<header>.<payload>.<signature>/
use backrest_operator.Prelude.{
  ℕ, ◌+◌, ◌≡◌, refl, ap, ◌∙◌, Bytes, bytes, true, false, Option, [], ◌∷◌, ◌++◌, All, All-append,
  length, is_empty, eq_num, eq_num_iff, ltb, arith,
}
use backrest_operator.Prelude.Int.{ℤ}
use backrest_operator.Filters.{split}
use backrest_operator.Filters.Laws.{
  NoSpace, NoSpace-append, trim_space-NoSpace, split-name, split-append,
}
use backrest_operator.Logging.{count, trim_left_byte, trim_right_byte}
use backrest_operator.Logging.Laws.{NoSlash}
use backrest_operator.Client.Links.{
  trim_dot, find_jwt, claimed, expiry_of_jwt, expiry_from_download_relative_url,
}

-- a text as base64 for URLs writes it: without white space, slashes and dots
pub record IsSegment (s : Bytes) : Type 0 where
  pub no_space : NoSpace s
  pub no_slash : NoSlash s
  pub no_dot : All (λ c. eq_num c b'.' ≡ false) s

abbrev pub jwt : Bytes → Bytes → Bytes → Bytes
jwt h p s = h ++ (b'.' ∷ (p ++ (b'.' ∷ s)))

abbrev pub signed_link : Bytes → Bytes
signed_link token = bytes "./download/" ++ (token ++ b'/' ∷ [])

count-append : (c : ℕ) (s r : Bytes) → count c (s ++ r) ≡ count c s + count c r
count-append c [] r = omega arith
count-append c (x ∷ s) r = ground (arith, count-append c s r)

count-none : (c : ℕ) (s : Bytes) → All (λ x. eq_num x c ≡ false) s → count c s ≡ 0
count-none c [] h = refl
count-none c (x ∷ s) (p, h) = rw p (count-none c s h)

append-full : (s r : Bytes) → is_empty r ≡ false → is_empty (s ++ r) ≡ false
append-full [] r h = h
append-full (x ∷ s) r h = refl

trim_right-append :
    (c : ℕ) (s r : Bytes)
    → is_empty (trim_right_byte c r) ≡ false
    → trim_right_byte c (s ++ r) ≡ s ++ trim_right_byte c r
trim_right-append c [] r h = refl
trim_right-append c (x ∷ s) r h =
    rw (trim_right-append c s r h) (rw (append-full s (trim_right_byte c r) h) refl)

trim_right-end :
    (c : ℕ) (s : Bytes) → All (λ x. eq_num x c ≡ false) s → trim_right_byte c (s ++ c ∷ []) ≡ s
trim_right-end c [] h = ground (arith, eq_num_iff c c)
trim_right-end c (x ∷ s) (p, h) = rw (trim_right-end c s h) (rw p (ground arith))

module _ (h p s : Bytes) (hh : IsSegment h) (hp : IsSegment p) (hs : IsSegment s) where
  jwt-NoSpace : NoSpace (jwt h p s)
  jwt-NoSpace =
      NoSpace-append h _ hh.no_space (refl, NoSpace-append p _ hp.no_space (refl, hs.no_space))

  jwt-NoSlash : NoSlash (jwt h p s)
  jwt-NoSlash =
      All-append _ h _ hh.no_slash (refl, All-append _ p _ hp.no_slash (refl, hs.no_slash))

  jwt-dots : count b'.' (jwt h p s) ≡ 2
  jwt-dots = omega (
    arith,
    count-append b'.' h (b'.' ∷ (p ++ (b'.' ∷ s))),
    count-append b'.' p (b'.' ∷ s),
    count-none b'.' h hh.no_dot,
    count-none b'.' p hp.no_dot,
    count-none b'.' s hs.no_dot,
  )

  split-jwt : split b'.' (jwt h p s) ≡ h ∷ p ∷ s ∷ []
  split-jwt =
      split-append b'.' h _ hh.no_dot
      ∙ ap (λ l. h ∷ l)
          (split-append b'.' p s hp.no_dot ∙ ap (λ l. p ∷ l) (split-name b'.' s hs.no_dot))

  text : is_empty (jwt h p s) ≡ false
  text = append-full h (b'.' ∷ (p ++ (b'.' ∷ s))) refl

  -- the link, trimmed
  trimmed : trim_right_byte b'/' (signed_link (jwt h p s)) ≡ bytes "./download/" ++ jwt h p s
  trimmed =
      let end = trim_right-end b'/' (jwt h p s) jwt-NoSlash in
      trim_right-append b'/' (bytes "./download/") (jwt h p s ++ b'/' ∷ []) (rw end text)
      ∙ ap (λ x. bytes "./download/" ++ x) end

  signed-NoSpace : NoSpace (signed_link (jwt h p s))
  unfolding bytes
  signed-NoSpace =
      All-append _ (bytes "./download/") _
        (refl, (refl, (refl, (refl, (refl, (refl, (refl, (refl, (refl, (refl, (refl, tt)))))))))))
        (NoSpace-append (jwt h p s) _ jwt-NoSpace (refl, tt))

  parts_lem :
      split b'/' (trim_dot (bytes "./download/" ++ jwt h p s)) ≡ bytes "download" ∷ jwt h p s ∷ []
  unfolding bytes trim_dot
  parts_lem =
      split-append b'/' (bytes "download") (jwt h p s)
        (refl, (refl, (refl, (refl, (refl, (refl, (refl, (refl, tt))))))))
      ∙ ap (λ l. bytes "download" ∷ l) (split-name b'/' (jwt h p s) jwt-NoSlash)

  found :
      ltb 20 (length (jwt h p s)) ≡ true → find_jwt (bytes "download" ∷ jwt h p s ∷ []) ≡ jwt h p s
  unfolding bytes find_jwt
  found long = rw (jwt-dots, long) refl

  -- The expiry of a link is the `exp` of the payload of its token, when the token has three segments
  -- of base64 for URLs and more than 20 bytes.
  pub expiry_from_download_relative_url-signed_link :
      (decode : Bytes → Option Bytes) (claim : Bytes → Option ℤ)
      → ltb 20 (length (jwt h p s)) ≡ true
      → expiry_from_download_relative_url decode claim (signed_link (jwt h p s))
        ≡ claimed decode claim (decode p)
  unfolding expiry_from_download_relative_url bytes
  expiry_from_download_relative_url-signed_link decode claim long =
      let read = expiry_of_jwt decode claim in
      ap
        (λ x.
          read (find_jwt (split b'/' (trim_dot (trim_right_byte b'/' (trim_left_byte b'/' x))))))
        (trim_space-NoSpace (signed_link (jwt h p s)) signed-NoSpace)
      ∙ ap (λ x. read (find_jwt (split b'/' (trim_dot x)))) trimmed
      ∙ ap (λ x. read (find_jwt x)) parts_lem
      ∙ ap read (found long)
      ∙ rw (text, split-jwt) refl
