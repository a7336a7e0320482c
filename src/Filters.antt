-- ===== src/Filters.antt =====
-- internal/filters/filters.go. The arguments are the values of WATCH_NAMESPACES and
-- WATCH_LABEL_SELECTOR. The texts are ASCII, so white space is ASCII white space.
pub mod Laws
use backrest_operator.Prelude.{
  ℕ, Bytes, bytes, Bool, true, false, Option, none, some, List, [], ◌∷◌, ◌++◌, ◌&&◌, ◌||◌, not,
  is_empty, ◌==◌, any, filter, map, eq_num, leb, if◌then◌else◌,
}
use backrest_operator.Prelude.Dict.{insert, text_at}

abbrev pub is_space : ℕ → Bool
is_space c = eq_num c b' ' || (leb 9 c && leb c 13)

unfoldable pub trim_left : Bytes → Bytes
trim_left [] = []
trim_left (c ∷ s) = let rest = trim_left s in if is_space c then rest else c ∷ s

unfoldable pub trim_right : Bytes → Bytes
trim_right [] = []
trim_right (c ∷ s) = let rest = trim_right s in if is_empty rest && is_space c then [] else c ∷ rest

-- strings.TrimSpace
unfoldable pub trim_space : Bytes → Bytes
unfolding trim_left trim_right
trim_space s = trim_right (trim_left s)

abbrev pub push : ℕ → List Bytes → List Bytes
push c [] = (c ∷ []) ∷ []
push c (p ∷ ps) = (c ∷ p) ∷ ps

-- strings.Split by one byte
unfoldable pub split : ℕ → Bytes → List Bytes
split sep [] = [] ∷ []
split sep (c ∷ s) = let rest = split sep s in if eq_num c sep then [] ∷ rest else push c rest

-- the parts of a comma-separated list that are not blank
unfoldable pub parts : Bytes → List Bytes
unfolding split trim_space
parts raw = filter (λ p. not (is_empty p)) (map trim_space (split b',' raw))

-- The empty list is Go's nil: every namespace.
unfoldable pub watched_namespaces : Bytes → List Bytes
unfolding trim_space parts
watched_namespaces env =
    let raw = trim_space env in if is_empty raw || raw == bytes "*" then [] else parts raw

unfoldable pub namespace_allowed : Bytes → Bytes → Bool
unfolding watched_namespaces
namespace_allowed env ns =
    let allow = watched_namespaces env in is_empty allow || any (λ a. a == ns) allow

-- `k=v` at its first `=`; a part without one is passed over
unfoldable pub key_value : Bytes → Option (Bytes × Bytes)
key_value [] = none
key_value (c ∷ s) =
    let rest = key_value s in
    if eq_num c b'='
    then some ([], s)
    else elim rest [ none ↦ none | some (k, v) ↦ some (c ∷ k, v) ]

unfoldable pub selector_from : List (Bytes × Bytes) → List Bytes → List (Bytes × Bytes)
unfolding key_value trim_space
selector_from out [] = out
selector_from out (p ∷ ps) =
    selector_from
      (elim (key_value p) [ none ↦ out | some (k, v) ↦ insert (trim_space k) (trim_space v) out ])
      ps

unfoldable pub label_selector_map : Bytes → List (Bytes × Bytes)
unfolding selector_from parts trim_space
label_selector_map env = selector_from [] (parts (trim_space env))

abbrev pub satisfies : List (Bytes × Bytes) → List (Bytes × Bytes) → Bool
satisfies [] labels = true
satisfies ((k, v) ∷ sel) labels = (text_at k labels == v) && satisfies sel labels

-- Labels that are not there match no selector.
unfoldable pub labels_match : Bytes → List (Bytes × Bytes) → Bool
unfolding label_selector_map
labels_match env labels =
    let sel = label_selector_map env in
    is_empty sel || (not (is_empty labels) && satisfies sel labels)

unfoldable pub object_allowed : Bytes → Bytes → Bytes → List (Bytes × Bytes) → Bool
unfolding namespace_allowed labels_match
object_allowed namespaces selector ns labels =
    namespace_allowed namespaces ns && labels_match selector labels
