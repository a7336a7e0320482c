-- ===== src/Cluster/Laws/Annotations.antt =====
-- The annotations of the download Ingress.
use backrest_operator.Prelude.{
  ◌≡◌, refl, sym, ap, ◌∙◌, Bytes, bytes, Bool, true, false, Option, none, some, [], ◌∷◌, ◌==◌,
  eq_iff, Option-cases, inl, inr, if◌then◌else◌,
}
use backrest_operator.Prelude.Dict.{lookup, insert, lookup-insert}
use backrest_operator.Cluster.Objects.{Labels, BackrestCluster}
use backrest_operator.Cluster.Host.{copy_into, with_priority, priority_key, download_annotations}

-- the value of a key of a map, where the last entry counts
unfoldable pub last_value : Bytes → Labels → Option Bytes
last_value k [] = none
last_value k ((n, v) ∷ rest) = elim (last_value k rest) [
  | none ↦ if n == k then some v else none
  | some x ↦ some x
]

abbrev pub or_else : Option Bytes → Option Bytes → Option Bytes
or_else none d = d
or_else (some v) d = some v

or_else-none : (o : Option Bytes) → or_else o none ≡ o
or_else-none none = refl
or_else-none (some v) = refl

if-or_else :
    (b : Bool) (v : Bytes) (d : Option Bytes)
    → (if b then some v else d) ≡ or_else (if b then some v else none) d
if-or_else true v d = refl
if-or_else false v d = refl

-- a default that is put where there is nothing
fill :
    (b : Bool) (v : Bytes) (o : Option Bytes)
    → (b ≡ true → o ≡ none)
    → (if b then some v else o) ≡ or_else o (if b then some v else none)
fill true v o h = rw (h refl) refl
fill false v o h = sym (or_else-none o)

-- and one that is not needed
keep :
    (b : Bool) (v : Bytes) (o : Option Bytes)
    → (b ≡ true → (x : Bytes) × (o ≡ some x))
    → o ≡ or_else o (if b then some v else none)
keep true v o h = let (x, e) = h refl in rw e refl
keep false v o h = sym (or_else-none o)

lookup-copy_into :
    (k : Bytes) (to from : Labels)
    → lookup k (copy_into to from) ≡ or_else (last_value k from) (lookup k to)
unfolding copy_into last_value
lookup-copy_into k to [] = refl
lookup-copy_into k to ((n, v) ∷ from) =
    lookup-copy_into k (insert n v to) from ∙ elim (Option-cases (last_value k from)) [
      | inl e ↦ rw (e, lookup-insert n k v to) (if-or_else (n == k) v (lookup k to))
      | inr (x, e) ↦ rw e refl
    ]

-- The priority is set where it is missing.
lookup-with_priority :
    (k : Bytes) (ann : Labels)
    → lookup k (with_priority (lookup priority_key ann) ann)
      ≡ or_else (lookup k ann) (if priority_key == k then some (bytes "100") else none)
lookup-with_priority k ann = elim (Option-cases (lookup priority_key ann)) [
  | inl e ↦ rw e (
      lookup-insert priority_key k (bytes "100") ann
      ∙ fill (priority_key == k) (bytes "100") (lookup k ann)
          (λ q. ap (λ x. lookup x ann) (sym ((eq_iff priority_key k).0 q)) ∙ e))
  | inr (x, e) ↦ rw e (
      keep (priority_key == k) (bytes "100") (lookup k ann)
        (λ q. (x, ap (λ y. lookup y ann) (sym ((eq_iff priority_key k).0 q)) ∙ e)))
]

-- Each annotation of the download Ingress is the one given for it, or else the one of the host's
-- Ingress, and the router's priority is 100 where neither has it; there are no others.
pub download_annotations_lem :
    (c : BackrestCluster) (k : Bytes)
    → lookup k (download_annotations c)
      ≡ or_else (last_value k c.spec.host.ingress.download_bypass.annotations) (
          or_else
            (last_value k c.spec.host.ingress.annotations)
            (if priority_key == k then some (bytes "100") else none))
unfolding download_annotations lookup
download_annotations_lem c k =
    let ann = copy_into [] c.spec.host.ingress.annotations in
    lookup-copy_into k _ c.spec.host.ingress.download_bypass.annotations
    ∙ ap (λ x. or_else (last_value k c.spec.host.ingress.download_bypass.annotations) x)
        (lookup-with_priority k ann
          ∙ ap (λ x. or_else x (if priority_key == k then some (bytes "100") else none))
              (lookup-copy_into k [] c.spec.host.ingress.annotations ∙ or_else-none _))
