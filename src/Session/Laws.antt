-- ===== src/Session/Laws.antt =====
-- What a session check that finds nobody says of the cluster: pvcSessionBusy.
use backrest_operator.Prelude.{
  ◌≡◌, ◌≢◌, refl, ◌↔◌, Bytes, Bool, true, false, ◌&&◌, not, is_empty, ◌==◌, eq_iff, none, List, [],
  ◌∷◌, ◌++◌, map, filter, any, In, arith, inl, inr, ||-cases, subst,
}
use backrest_operator.Api.{Key, PvcBackup, PvcRestore}
use backrest_operator.Effects.{Env, ok, Event, Trace, ask}
use backrest_operator.Effects.Rules.{Result-cases}
use backrest_operator.Session.{
  contains, pvc_keys_overlap, backup_pvc_keys, restore_pvc_keys, backup_phase_active,
  restore_phase_active, HolderKind, SessionHolder, holds_backup, holds_restore, session_holders,
  pvc_session_busy, busy_holder, backup_holder, restore_holder,
}

-- No text is in both lists, except the empty one, which stands for no claim.
abbrev pub Disjoint : List Bytes → List Bytes → Type 0
Disjoint xs ys = (k : Bytes) → k ≢ [] → In k xs → In k ys → ⊥

-- a text that is not empty and in the list
contains-In : (xs : List Bytes) (k : Bytes) → k ≢ [] → In k xs → contains xs k ≡ true
contains-In [] k ne i = elim i [ ]
contains-In (x ∷ xs) k ne In.head = ground (arith, eq_iff x x)
contains-In (x ∷ xs) k ne (In.tail i) = ground (arith, contains-In xs k ne i)

In-contains : (xs : List Bytes) (k : Bytes) → contains xs k ≡ true → (k ≢ []) × In k xs
In-contains [] k h = cc
In-contains (x ∷ xs) k h = elim (||-cases (not (is_empty x) && (x == k)) (contains xs k) h) [
  | inl e ↦
      let same : x ≡ k = (eq_iff x k).0 (ground arith) in
      (subst (λ z. z ≢ []) same (ground arith), subst (λ z. In z (x ∷ xs)) same In.head)
  | inr r ↦ let (ne, i) = In-contains xs k r in (ne, In.tail i)
]

any-In : (xs ys : List Bytes) (k : Bytes) → k ≢ [] → In k xs → In k ys → any (contains xs) ys ≡ true
any-In xs [] k ne i j = elim j [ ]
any-In xs (y ∷ ys) k ne i In.head = ground (arith, contains-In xs k ne i)
any-In xs (y ∷ ys) k ne i (In.tail j) = ground (arith, any-In xs ys k ne i j)

In-any :
    (xs ys : List Bytes) → any (contains xs) ys ≡ true → (k : Bytes) × (k ≢ []) × In k xs × In k ys
In-any xs [] h = cc
In-any xs (y ∷ ys) h = elim (||-cases (contains xs y) (any (contains xs) ys) h) [
  | inl e ↦ let (ne, i) = In-contains xs y e in (y, ne, i, In.head)
  | inr r ↦ let (k, ne, i, j) = In-any xs ys r in (k, ne, i, In.tail j)
]

-- Two lists of keys overlap exactly when a text that is not empty is in both.
pvc_keys_overlap_iff :
    (xs ys : List Bytes)
    → (pvc_keys_overlap xs ys ≡ true) ↔ ((k : Bytes) × (k ≢ []) × In k xs × In k ys)
unfolding pvc_keys_overlap
pvc_keys_overlap_iff [] ys = (λ h. cc, λ (k, ne, i, j). elim i [ ])
pvc_keys_overlap_iff (x ∷ xs) ys =
    (In-any (x ∷ xs) ys, λ (k, ne, i, j). any-In (x ∷ xs) ys k ne i j)

filter-nil {ℓ} :
    {A : Type ℓ} (p : A → Bool) (xs : List A) {a : A} → filter p xs ≡ [] → In a xs → p a ≡ false
filter-nil p [] h i = elim i [ ]
filter-nil p (x ∷ xs) h In.head = ground arith
filter-nil p (x ∷ xs) h (In.tail i) = filter-nil p xs (ground arith) i

map-nil {ℓ κ} : {A : Type ℓ} {B : Type κ} (f : A → B) (xs : List A) → map f xs ≡ [] → xs ≡ []
map-nil f [] h = refl
map-nil f (x ∷ xs) h = cc

append-eq_nil {ℓ} : {A : Type ℓ} (xs ys : List A) → xs ++ ys ≡ [] → (xs ≡ []) × (ys ≡ [])
append-eq_nil [] ys h = (refl, h)
append-eq_nil (x ∷ xs) ys h = cc

-- the object is the one that asks
abbrev pub IsSelf : Bytes → Bytes → Key → Type 0
IsSelf namespace name self = (namespace ≡ self.namespace) × (name ≡ self.name)

module _ (want : List Bytes) (self : Key) where
  -- The claims are free, for the backup `self`: every other active backup and every active restore
  -- among the objects has none of them.
  pub record AreFree (bs : List PvcBackup) (rs : List PvcRestore) : Type 0 where
    pub backups :
        (b : PvcBackup)
        → In b bs
        → ¬ IsSelf b.metadata.namespace b.metadata.name self
        → backup_phase_active b.status.phase ≡ true
        → Disjoint want (backup_pvc_keys b)
    pub restores :
        (r : PvcRestore)
        → In r rs
        → restore_phase_active r.status.phase ≡ true
        → Disjoint want (restore_pvc_keys r)

  Disjoint-overlap : (ys : List Bytes) → pvc_keys_overlap want ys ≡ false → Disjoint want ys
  Disjoint-overlap ys h k ne i j = cc ((pvc_keys_overlap_iff want ys).1 (k, ne, i, j))

  not_overlapping :
      (b : PvcBackup)
      → ¬ IsSelf b.metadata.namespace b.metadata.name self
      → backup_phase_active b.status.phase ≡ true
      → holds_backup want HolderKind.backup self b ≡ false
      → pvc_keys_overlap want (backup_pvc_keys b) ≡ false
  unfolding holds_backup
  not_overlapping b other active h =
      ground (arith, eq_iff b.metadata.namespace self.namespace, eq_iff b.metadata.name self.name)

  not_restoring :
      (r : PvcRestore)
      → restore_phase_active r.status.phase ≡ true
      → holds_restore want HolderKind.backup self r ≡ false
      → pvc_keys_overlap want (restore_pvc_keys r) ≡ false
  unfolding holds_restore
  not_restoring r active h = ground arith

  nobody :
      (hs : List SessionHolder)
      → busy_holder want HolderKind.backup self (ok hs) ≡ ok none
      → hs ≡ []
  nobody [] h = refl
  nobody (x ∷ hs) h = cc

  holders_AreFree :
      (bs : List PvcBackup) (rs : List PvcRestore)
      → session_holders want HolderKind.backup self bs rs ≡ []
      → AreFree bs rs
  unfolding session_holders
  holders_AreFree bs rs h =
      let none_left =
        append-eq_nil
          (map (backup_holder want HolderKind.backup self)
            (filter (holds_backup want HolderKind.backup self) bs))
          (map (restore_holder want HolderKind.backup self)
            (filter (holds_restore want HolderKind.backup self) rs))
          h in
      record {
        backups = λ b i other active. Disjoint-overlap (backup_pvc_keys b) (
            not_overlapping b other active (
              filter-nil (holds_backup want HolderKind.backup self) bs
                (map-nil (backup_holder want HolderKind.backup self) _ none_left.0) i));
        restores = λ r i active. Disjoint-overlap (restore_pvc_keys r) (
            not_restoring r active (
              filter-nil (holds_restore want HolderKind.backup self) rs
                (map-nil (restore_holder want HolderKind.backup self) _ none_left.1) i));
      }

  -- When a backup's check of its session finds nobody, then both lists were read, and in them no
  -- other active backup and no active restore mounts one of the claims.
  pub busy_none :
      (env : Env) (t : Trace)
      → want ≢ []
      → (pvc_session_busy want HolderKind.backup self env t).0 ≡ ok none
      → (bs : List PvcBackup) × (rs : List PvcRestore) × (env.backups (Event.list_backups ∷ t)
          ≡ ok bs)
        × (env.restores (Event.list_restores ∷ Event.list_backups ∷ t) ≡ ok rs)
        × AreFree bs rs
  unfolding pvc_session_busy ask
  busy_none env t ne h = elim (Result-cases (env.backups (Event.list_backups ∷ t))) [
    | inr (e, p) ↦ absurd (ground arith)
    | inl (bs, p) ↦
        elim (Result-cases (env.restores (Event.list_restores ∷ Event.list_backups ∷ t))) [
          | inr (e, q) ↦ absurd (ground arith)
          | inl (rs, q) ↦ (bs, rs, p, q, holders_AreFree bs rs (nobody _ (ground arith)))
        ]
  ]
