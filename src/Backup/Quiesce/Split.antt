-- ===== src/Backup/Quiesce/Split.antt =====
-- split3: strings.SplitN(s, "/", 3).
use backrest_operator.Prelude.{
  ℕ, Bytes, Option, none, some, List, [], ◌∷◌, ◌++◌, eq_num, if◌then◌else◌, ◌≡◌, ◌≢◌, All, arith,
}

-- what stands before and after the first separator
unfoldable pub cut : ℕ → Bytes → Option (Bytes × Bytes)
cut sep [] = none
cut sep (c ∷ s) =
    let rest = cut sep s in
    if eq_num c sep then some ([], s) else elim rest [ none ↦ none | some (a, b) ↦ some (c ∷ a, b) ]

unfoldable pub split3 : Bytes → List Bytes
unfolding cut
split3 s = elim (cut b'/' s) [
  | none ↦ s ∷ []
  | some (a, r) ↦ elim (cut b'/' r) [ none ↦ a ∷ r ∷ [] | some (b, c) ↦ a ∷ b ∷ c ∷ [] ]
]

abbrev pub Lacks : ℕ → Bytes → Type 0
Lacks c = All (λ x. x ≢ c)

pub cut-append : (sep : ℕ) (a b : Bytes) → Lacks sep a → cut sep (a ++ sep ∷ b) ≡ some (a, b)
unfolding cut
cut-append sep [] b h = ground arith
cut-append sep (c ∷ a) b (d, h) = ground (arith, cut-append sep a b h)

-- A key built of a kind and a namespace without `/` is split into what it was built of.
pub split3-join :
    (a b c : Bytes)
    → Lacks b'/' a
    → Lacks b'/' b
    → split3 (a ++ b'/' ∷ (b ++ b'/' ∷ c)) ≡ a ∷ b ∷ c ∷ []
unfolding split3
split3-join a b c ha hb =
    ground (arith, cut-append b'/' a (b ++ b'/' ∷ c) ha, cut-append b'/' b c hb)
