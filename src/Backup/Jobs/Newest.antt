-- ===== src/Backup/Jobs/Newest.antt =====
-- Which Job is adopted.
use backrest_operator.Prelude.{
  ℕ, ◌≤◌, ◌≡◌, ◌≢◌, refl, ◌⊎◌, inl, inr, Bytes, true, false, ◌&&◌, Option, none, some, List, [],
  ◌∷◌, In, All, arith, In-cases, ◌<◌, sym, subst, Bool-cases,
}
use backrest_operator.Prelude.{bytes, ◌++◌, eq_iff, starts_with, ◌↔◌, ◌∙◌, All-In}
use backrest_operator.Prelude.Int.{is_positive}
use backrest_operator.Api.{PvcBackup}
use backrest_operator.Effects.{Env, Event, Trace, ask, ok, Job}
use backrest_operator.Backup.Jobs.Adopt.{
  adoptable, not_older, or_zero, newest_from, named, is_controlled_by, find_owned_backup_job,
}

-- A Job that may be adopted: it passes the test, and it has a creation time.
pub record Fits (prefix uid : Bytes) (j : Job) (ts : ℕ) : Type 0 where
  pub adopts : adoptable prefix uid j ≡ true
  pub created : j.created ≡ some ts

module _ (prefix uid : Bytes) where
  -- the state of the loop: nothing yet, or a Job of the list with its time
  abbrev Found : List Job → Bytes → ℕ → Type 0
  Found js newest ts = (j : Job) × In j js × (j.key.name ≡ newest) × Fits prefix uid j ts

  -- What the loop returns, from the list and the state it starts in: the state itself, or a Job of
  -- the list that fits; and no Job of the list that fits is newer.
  pub record Newest (js : List Job) (start : Bytes) (start_ts : ℕ) (newest : Bytes) (ts : ℕ)
      : Type 0 where
    pub from : ((newest ≡ start) × (ts ≡ start_ts)) ⊎ Found js newest ts
    pub grows : start_ts ≤ ts
    pub newer : (j : Job) (t : ℕ) → In j js → Fits prefix uid j t → t ≤ ts
    pub seen :
        (j : Job) (t : ℕ) → In j js → Fits prefix uid j t → start_ts ≤ t → (Found js newest ts)

  Found-later :
      (j : Job) (js : List Job) (newest : Bytes) (ts : ℕ)
      → Found js newest ts
      → Found (j ∷ js) newest ts
  Found-later j js newest ts (k, i, e, f) = (k, In.tail i, e, f)

  -- the Job is taken over the state
  module _ (j : Job) (js : List Job) (start : Bytes) (start_ts t0 : ℕ)
      (fits : Fits prefix uid j t0) where
    Found-either :
        (newest : Bytes) (ts : ℕ)
        → ((newest ≡ j.key.name) × (ts ≡ t0)) ⊎ Found js newest ts
        → Found (j ∷ js) newest ts
    Found-either newest ts (inl (e, s)) =
        (j, In.head, sym e, subst (Fits prefix uid j) (sym s) fits)
    Found-either newest ts (inr f) = Found-later j js newest ts f

    newer_either :
        (newest : Bytes) (ts : ℕ)
        → Newest js j.key.name t0 newest ts
        → (k : Job) (t : ℕ) → In k (j ∷ js)
        → Fits prefix uid k t
        → t ≤ ts
    newer_either newest ts r k t i f = elim (In-cases i) [
      | inl e ↦ ground (arith, r.grows, fits.created, f.created)
      | inr l ↦ r.newer k t l f
    ]

    Newest-take :
        (newest : Bytes) (ts : ℕ)
        → start_ts ≤ t0
        → Newest js j.key.name t0 newest ts
        → Newest (j ∷ js) start start_ts newest ts
    Newest-take newest ts le r = record {
      from = inr (Found-either newest ts r.from);
      grows = omega (arith, r.grows);
      newer = newer_either newest ts r;
      seen = λ k t i f l. Found-either newest ts r.from;
    }

  -- the Job is passed over: it does not fit, or it is older than the state
  module _ (j : Job) (js : List Job) (start : Bytes) (start_ts : ℕ)
      (skipped : (t : ℕ) → Fits prefix uid j t → t < start_ts) where
    skip_from :
        (newest : Bytes) (ts : ℕ)
        → ((newest ≡ start) × (ts ≡ start_ts)) ⊎ Found js newest ts
        → ((newest ≡ start) × (ts ≡ start_ts)) ⊎ Found (j ∷ js) newest ts
    skip_from newest ts (inl e) = inl e
    skip_from newest ts (inr f) = inr (Found-later j js newest ts f)

    skip-Fits : (k : Job) (t : ℕ) → k ≡ j → Fits prefix uid k t → t < start_ts
    skip-Fits k t e f = skipped t (subst (λ x. Fits prefix uid x t) e f)

    Newest-skip :
        (newest : Bytes) (ts : ℕ)
        → Newest js start start_ts newest ts
        → Newest (j ∷ js) start start_ts newest ts
    Newest-skip newest ts r = record {
      from = skip_from newest ts r.from;
      grows = r.grows;
      newer = λ k t i f. elim (In-cases i) [
        | inl e ↦ omega (arith, skip-Fits k t e f, r.grows)
        | inr l ↦ r.newer k t l f
      ];
      seen = λ k t i f l. elim (In-cases i) [
        | inl e ↦ absurd (omega (arith, skip-Fits k t e f))
        | inr m ↦ Found-later j js newest ts (r.seen k t m f l)
      ];
    }

  taken :
      (j : Job) (start_ts : ℕ)
      → (adoptable prefix uid j && not_older j.created start_ts) ≡ true
      → Fits prefix uid j (or_zero j.created) × (start_ts ≤ or_zero j.created)
  taken j start_ts h = (record { adopts = ground arith; created = ground arith }, ground arith)

  passed :
      (j : Job) (start_ts t : ℕ)
      → (adoptable prefix uid j && not_older j.created start_ts) ≡ false
      → Fits prefix uid j t
      → t < start_ts
  passed j start_ts t h f = ground (arith, f.adopts, f.created)

  newest_from_lem :
      (js : List Job) (start : Bytes) (start_ts : ℕ)
      → (ts : ℕ) × Newest js start start_ts (newest_from prefix uid start start_ts js) ts
  unfolding newest_from
  newest_from_lem [] start start_ts = (
    start_ts,
    record {
      from = inl (refl, refl);
      grows = omega arith;
      newer = λ j t i. elim i [ ];
      seen = λ j t i. elim i [ ];
    },
  )
  newest_from_lem (j ∷ js) start start_ts =
      elim (Bool-cases (adoptable prefix uid j && not_older j.created start_ts)) [
        | inl h ↦
            let (ts, r) = newest_from_lem js j.key.name (or_zero j.created) in
            let (fits, le) = taken j start_ts h in
            rw h (ts, Newest-take j js start start_ts (or_zero j.created) fits _ ts le r)
        | inr h ↦
            let (ts, r) = newest_from_lem js start start_ts in
            rw h (ts, Newest-skip j js start start_ts (λ t f. passed j start_ts t h f) _ ts r)
      ]

-- An unfinished Job that the backup controls, of the given name prefix and creation time.
pub record InFlight (prefix uid : Bytes) (j : Job) (ts : ℕ) : Type 0 where
  pub prefixed : starts_with j.key.name prefix ≡ true
  pub controlled : j.controller ≡ some uid
  pub not_succeeded : is_positive j.succeeded ≡ false
  pub not_failed : is_positive j.failed ≡ false
  pub created : j.created ≡ some ts

controlled_iff : (c : Option Bytes) (uid : Bytes) → (is_controlled_by c uid ≡ true) ↔ (c ≡ some uid)
controlled_iff none uid = ground arith
controlled_iff (some owner) uid = ground (arith, eq_iff owner uid)

Fits-InFlight :
    (prefix uid : Bytes) (j : Job) (ts : ℕ) → Fits prefix uid j ts ↔ InFlight prefix uid j ts
unfolding adoptable
Fits-InFlight prefix uid j ts = (
  λ f. record {
    prefixed = ground (arith, f.adopts);
    controlled = (controlled_iff j.controller uid).0 (ground (arith, f.adopts));
    not_succeeded = ground (arith, f.adopts);
    not_failed = ground (arith, f.adopts);
    created = f.created;
  },
  λ f. record {
    adopts = ground (
      arith,
      f.prefixed,
      f.not_succeeded,
      f.not_failed,
      (controlled_iff j.controller uid).1 f.controlled,
    );
    created = f.created;
  },
)

abbrev pub job_prefix : PvcBackup → Bytes
job_prefix b = bytes "pvcbackup-" ++ (b.metadata.name ++ b'-' ∷ [])

named-some : (s n : Bytes) → named s ≡ some n → (s ≡ n) × (n ≢ [])
named-some [] n h = cc
named-some (c ∷ s) n h = (cc, λ e. cc)

named-none : (s : Bytes) → named s ≡ none → s ≡ []
named-none [] h = refl
named-none (c ∷ s) h = cc

module _ (env : Env) (b : PvcBackup) (t : Trace) (js : List Job)
    (listed : env.jobs (Event.list_jobs b.metadata.namespace ∷ t) ≡ ok js) where
  newest_listed :
      (find_owned_backup_job env b t).0 ≡ named (newest_from (job_prefix b) b.metadata.uid [] 0 js)
  unfolding find_owned_backup_job ask
  newest_listed = rw listed

  -- The adopted Job is a listed one that the backup controls, is of the backup's name and has
  -- neither succeeded nor failed, and no other such Job is newer.
  pub find_owned_backup_job-newest :
      (name : Bytes)
      → (find_owned_backup_job env b t).0 ≡ some name
      → (j : Job) × (ts : ℕ) × In j js
        × (j.key.name ≡ name)
        × InFlight (job_prefix b) b.metadata.uid j ts
        × ((k : Job) (u : ℕ) → In k js → InFlight (job_prefix b) b.metadata.uid k u → u ≤ ts)
  find_owned_backup_job-newest name h =
      let (ts, r) = newest_from_lem (job_prefix b) b.metadata.uid js [] 0 in
      let (same, ne) = named-some _ name (sym newest_listed ∙ h) in
      elim r.from [
        | inl (e, _) ↦ absurd (ne (sym same ∙ e))
        | inr (j, i, e, f) ↦ (
          j,
          ts,
          i,
          e ∙ same,
          (Fits-InFlight (job_prefix b) b.metadata.uid j ts).0 f,
          λ k u m g. r.newer k u m ((Fits-InFlight (job_prefix b) b.metadata.uid k u).1 g),
        )
      ]

  -- If no Job is adopted, and every listed Job has a name, then no listed Job that the backup
  -- controls and that is of its name is unfinished.
  find_owned_backup_job-none :
      All (λ j. j.key.name ≢ []) js
      → (find_owned_backup_job env b t).0 ≡ none
      → (j : Job) (u : ℕ) → In j js
      → ¬ InFlight (job_prefix b) b.metadata.uid j u
  find_owned_backup_job-none has_name h j u i f =
      let (ts, r) = newest_from_lem (job_prefix b) b.metadata.uid js [] 0 in
      let (k, m, e, _) =
        r.seen j u i ((Fits-InFlight (job_prefix b) b.metadata.uid j u).1 f) (omega arith) in
      All-In (λ (x : Job). x.key.name ≢ []) js has_name m (e ∙ named-none _ (sym newest_listed ∙ h))
