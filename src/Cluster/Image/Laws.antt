-- ===== src/Cluster/Image/Laws.antt =====
-- An image with a tag keeps it: the tag is looked for in the last part of the image's path.
use backrest_operator.Prelude.{
  ℕ, ◌≡◌, refl, ap, ◌∙◌, Bytes, bytes, Bool, true, false, ◌||◌, List, [], ◌∷◌, ◌++◌, any, or_text,
  eq_num, if◌then◌else◌, arith,
}
use backrest_operator.Filters.{split}
use backrest_operator.Cluster.Objects.{ClusterSpec}
use backrest_operator.Cluster.Image.{backwards, has_tag_from, image_for}

abbrev is_colon : ℕ → Bool
is_colon c = eq_num c b':'

abbrev is_slash : ℕ → Bool
is_slash c = eq_num c b'/'

-- where the loop stops
abbrev stops : ℕ → Bool
stops c = is_slash c || is_colon c

abbrev last_part : List Bytes → Bytes
last_part [] = []
last_part (p ∷ []) = p
last_part (p ∷ q ∷ ps) = last_part (q ∷ ps)

-- The last part of the path, after the last slash, has a colon.
abbrev pub is_tagged : Bytes → Bool
is_tagged img = any (λ c. eq_num c b':') (last_part (split b'/' img))

any-snoc : (p : ℕ → Bool) (s : Bytes) (c : ℕ) → any p (s ++ c ∷ []) ≡ (any p s || p c)
any-snoc p [] c = ground arith
any-snoc p (x ∷ s) c = ground (arith, any-snoc p s c)

any-backwards : (p : ℕ → Bool) (s : Bytes) → any p (backwards s) ≡ any p s
unfolding backwards
any-backwards p [] = refl
any-backwards p (c ∷ s) = ground (arith, any-snoc p (backwards s) c, any-backwards p s)

abbrev first_stop : ℕ → Bool
first_stop c = if is_slash c then false else is_colon c

has_tag_from-snoc :
    (s : Bytes) (c : ℕ)
    → has_tag_from (s ++ c ∷ []) ≡ (if any stops s then has_tag_from s else first_stop c)
unfolding has_tag_from
has_tag_from-snoc [] c = ground arith
has_tag_from-snoc (x ∷ s) c = ground (arith, has_tag_from-snoc s c)

-- A text without a slash is its only part, and one with a slash has two parts at least.
data Shape (s : Bytes) : Type 0 where
  whole : any is_slash s ≡ false → split b'/' s ≡ s ∷ [] → Shape s
  parts :
      any is_slash s ≡ true → (p q : Bytes) (ps : List Bytes) → split b'/' s ≡ p ∷ q ∷ ps → Shape s

shape-cons : (c : ℕ) (s : Bytes) (b : Bool) → is_slash c ≡ b → Shape s → Shape (c ∷ s)
unfolding split
shape-cons c s true e (whole h q) = Shape.parts (rw e refl) [] s [] (rw (e, q) refl)
shape-cons c s true e (parts h p q ps f) = Shape.parts (rw e refl) [] p (q ∷ ps) (rw (e, f) refl)
shape-cons c s false e (whole h q) = Shape.whole (rw e h) (rw (e, q) refl)
shape-cons c s false e (parts h p q ps f) = Shape.parts (rw e h) (c ∷ p) q ps (rw (e, f) refl)

shape : (s : Bytes) → Shape s
unfolding split
shape [] = Shape.whole refl refl
shape (c ∷ s) = shape-cons c s (is_slash c) refl (shape s)

cons_lem :
    (c : ℕ) (s : Bytes) (b : Bool)
    → is_slash c ≡ b
    → Shape s
    → is_tagged (c ∷ s)
      ≡ (if is_slash c || any is_slash s then is_tagged s else is_colon c || is_tagged s)
unfolding split
cons_lem c s true e (whole h q) = rw (e, q) refl
cons_lem c s true e (parts h p q ps f) = rw (e, f) refl
cons_lem c s false e (whole h q) = rw (e, q, h) refl
cons_lem c s false e (parts h p q ps f) = rw (e, f, h) refl

plain_lem : (s : Bytes) → Shape s → any is_slash s ≡ false → is_tagged s ≡ any is_colon s
plain_lem s (whole h q) n = rw q refl
plain_lem s (parts h p q ps f) n = absurd cc

any-stops : (s : Bytes) → any stops s ≡ (any is_slash s || any is_colon s)
any-stops [] = refl
any-stops (c ∷ s) = ground (arith, any-stops s)

has_tag_from-backwards : (s : Bytes) → has_tag_from (backwards s) ≡ is_tagged s
unfolding backwards has_tag_from split
has_tag_from-backwards [] = refl
has_tag_from-backwards (c ∷ s) =
    has_tag_from-snoc (backwards s) c
    ∙ ground (
      arith,
      has_tag_from-backwards s,
      any-backwards stops s,
      any-stops s,
      cons_lem c s (is_slash c) refl (shape s),
      plain_lem s (shape s),
    )

-- The image of a cluster is the one it names, or Backrest's, as it is if the last part of its path has
-- a colon, and with a colon and the version, or the default one, otherwise.
image_for_lem :
    (spec : ClusterSpec)
    → let img = or_text spec.image (bytes "ghcr.io/garethgeorge/backrest") in
      image_for spec
      ≡ (if is_tagged img then img else img ++ (b':' ∷ or_text spec.version (bytes "v1.14.1")))
unfolding image_for
image_for_lem spec =
    let img = or_text spec.image (bytes "ghcr.io/garethgeorge/backrest") in
    ap (λ b. if b then img else img ++ (b':' ∷ or_text spec.version (bytes "v1.14.1")))
      (has_tag_from-backwards img)
