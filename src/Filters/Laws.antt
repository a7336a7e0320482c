-- ===== src/Filters/Laws.antt =====
-- WATCH_NAMESPACES as it is written: names with commas between them.
use backrest_operator.Prelude.{
  ℕ, ◌≡◌, refl, ap, ◌∙◌, ◌↔◌, inl, inr, Bytes, bytes, true, false, not, List, [], ◌∷◌, ◌++◌, All,
  In, any, map, filter, is_empty, ◌==◌, eq_iff, eq_num, eq_num_iff, ||-cases, arith,
}
use backrest_operator.Filters.{
  is_space, trim_left, trim_right, trim_space, split, parts, watched_namespaces, namespace_allowed,
}

abbrev pub NoSpace : Bytes → Type 0
NoSpace = All (λ c. is_space c ≡ false)

-- A name with no white space and no comma, and not empty.
record IsName (name : Bytes) : Type 0 where
  pub no_space : All (λ c. is_space c ≡ false) name
  pub no_comma : All (λ c. eq_num c b',' ≡ false) name
  pub some_text : is_empty name ≡ false

-- the names with commas between them
abbrev comma_separated : List Bytes → Bytes
comma_separated [] = []
comma_separated (x ∷ []) = x
comma_separated (x ∷ y ∷ ys) = x ++ b',' ∷ comma_separated (y ∷ ys)

trim_left-NoSpace : (s : Bytes) → NoSpace s → trim_left s ≡ s
unfolding trim_left
trim_left-NoSpace [] h = refl
trim_left-NoSpace (c ∷ s) (p, h) = rw p refl

trim_right-NoSpace : (s : Bytes) → NoSpace s → trim_right s ≡ s
unfolding trim_right
trim_right-NoSpace [] h = refl
trim_right-NoSpace (c ∷ s) (p, h) = rw (trim_right-NoSpace s h) (ground (arith, p))

pub trim_space-NoSpace : (s : Bytes) → NoSpace s → trim_space s ≡ s
unfolding trim_space
trim_space-NoSpace s h = rw (trim_left-NoSpace s h) (trim_right-NoSpace s h)

pub split-name : (sep : ℕ) (s : Bytes) → All (λ c. eq_num c sep ≡ false) s → split sep s ≡ s ∷ []
unfolding split
split-name sep [] h = refl
split-name sep (c ∷ s) (p, h) = rw p (rw (split-name sep s h) refl)

pub split-append :
    (sep : ℕ) (s r : Bytes)
    → All (λ c. eq_num c sep ≡ false) s
    → split sep (s ++ sep ∷ r) ≡ s ∷ split sep r
unfolding split
split-append sep [] r h = rw ((eq_num_iff sep sep).1 refl) refl
split-append sep (c ∷ s) r (p, h) = rw p (rw (split-append sep s r h) refl)

split-comma_separated :
    (x : Bytes) (xs : List Bytes)
    → All IsName (x ∷ xs)
    → split b',' (comma_separated (x ∷ xs)) ≡ x ∷ xs
split-comma_separated x [] (h, hs) = split-name b',' x h.no_comma
split-comma_separated x (y ∷ ys) (h, hs) =
    split-append b',' x (comma_separated (y ∷ ys)) h.no_comma
    ∙ ap (λ l. x ∷ l) (split-comma_separated y ys hs)

kept : (xs : List Bytes) → All IsName xs → filter (λ p. not (is_empty p)) (map trim_space xs) ≡ xs
kept [] h = refl
kept (x ∷ xs) (h, hs) =
    rw (trim_space-NoSpace x h.no_space) (rw h.some_text (ap (λ l. x ∷ l) (kept xs hs)))

pub NoSpace-append : (s r : Bytes) → NoSpace s → NoSpace r → NoSpace (s ++ r)
NoSpace-append [] r hs hr = hr
NoSpace-append (c ∷ s) r (p, hs) hr = (p, NoSpace-append s r hs hr)

comma_separated-NoSpace : (xs : List Bytes) → All IsName xs → NoSpace (comma_separated xs)
comma_separated-NoSpace [] h = tt
comma_separated-NoSpace (x ∷ []) (h, hs) = h.no_space
comma_separated-NoSpace (x ∷ y ∷ ys) (h, hs) =
    NoSpace-append x _ h.no_space (refl, comma_separated-NoSpace (y ∷ ys) hs)

comma_separated-text :
    (x : Bytes) (xs : List Bytes) → IsName x → is_empty (comma_separated (x ∷ xs)) ≡ false
comma_separated-text x [] h = h.some_text
comma_separated-text [] (y ∷ ys) h = refl
comma_separated-text (c ∷ x) (y ∷ ys) h = refl

watched-names :
    (x : Bytes) (xs : List Bytes)
    → All IsName (x ∷ xs)
    → (comma_separated (x ∷ xs) == bytes "*") ≡ false
    → watched_namespaces (comma_separated (x ∷ xs)) ≡ x ∷ xs
unfolding watched_namespaces parts
watched-names x xs h star = rw (trim_space-NoSpace _ (comma_separated-NoSpace (x ∷ xs) h)) (
    rw (comma_separated-text x xs h.0)
      (rw star (rw (split-comma_separated x xs h) (kept (x ∷ xs) h))))

In-any : (xs : List Bytes) (n : Bytes) → any (λ a. a == n) xs ≡ true → In n xs
In-any [] n h = cc
In-any (x ∷ xs) n h = elim (||-cases (x == n) (any (λ a. a == n) xs) h) [
  | inl e ↦ let same : x ≡ n = (eq_iff x n).0 e in rw same In.head
  | inr r ↦ In.tail (In-any xs n r)
]

any-In : (xs : List Bytes) (n : Bytes) → In n xs → any (λ a. a == n) xs ≡ true
any-In [] n i = elim i [ ]
any-In (x ∷ xs) n In.head = ground (arith, eq_iff x x)
any-In (x ∷ xs) n (In.tail i) = ground (arith, any-In xs n i)

-- When WATCH_NAMESPACES holds names with commas between them, at least one, each without white space
-- and commas and not empty, and it is not just a star, then a namespace is watched exactly when it
-- is one of the names.
namespace_allowed_iff :
    (x : Bytes) (xs : List Bytes) (ns : Bytes)
    → All IsName (x ∷ xs)
    → (comma_separated (x ∷ xs) == bytes "*") ≡ false
    → (namespace_allowed (comma_separated (x ∷ xs)) ns ≡ true) ↔ In ns (x ∷ xs)
unfolding namespace_allowed
namespace_allowed_iff x xs ns h star =
    rw (watched-names x xs h star) (In-any (x ∷ xs) ns, any-In (x ∷ xs) ns)
