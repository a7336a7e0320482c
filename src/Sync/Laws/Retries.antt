-- ===== src/Sync/Laws/Retries.antt =====
-- The retries of a plan reach its backup once.
use backrest_operator.Prelude.{
  ◌≡◌, refl, ap, true, false, ◌⊎◌, inl, inr, Option, none, some, ◌∷◌, is_empty, Bool-cases,
}
use backrest_operator.Prelude.Int.{ℤ, eq_int, eq_int_iff}
use backrest_operator.Api.{PvcBackup}
use backrest_operator.Effects.{ok, Event, Trace, ask}
use backrest_operator.Sync.{Syncs}
use backrest_operator.Sync.Objects.{BackupPlan}
use backrest_operator.Sync.Plans.{
  has_retries, set_retries, backup_key, set_backup_retries, propagate_retries,
}

module _ (w : Syncs) where
  abbrev pub read_event : BackupPlan → Event
  read_event plan = Event.get_backup (backup_key plan)

  eq_int_refl : (n : ℤ) → eq_int n n ≡ true
  eq_int_refl n = (eq_int_iff n n).1 refl

  has_lem : (o : Option ℤ) (n : ℤ) → has_retries o n ≡ true → o ≡ some n
  has_lem none n h = absurd cc
  has_lem (some m) n h = ap some ((eq_int_iff m n).0 h)

  -- When a plan sets retries for a backup that can be read, then its retries are either there
  -- already, and the backup is only read, or the backup is written once with just these retries.
  propagate_retries-once :
      (plan : BackupPlan) (n : ℤ) (b : PvcBackup) (t : Trace)
      → is_empty plan.spec.pvc_backup_ref.name ≡ false
      → plan.spec.retries ≡ some n
      → w.env.backup (read_event plan ∷ t) ≡ ok b
      → let r = propagate_retries w plan t in
        ((b.spec.retries ≡ some n) × (r ≡ (none, read_event plan ∷ t)))
        ⊎ (r.1 ≡ Event.update_backup (set_retries n b) ∷ read_event plan ∷ t)
  unfolding propagate_retries set_backup_retries ask
  propagate_retries-once plan n b t named set read =
      elim (Bool-cases (has_retries b.spec.retries n)) [
        | inl e ↦ rw (named, set, read, e) (inl (has_lem b.spec.retries n e, refl))
        | inr e ↦ rw (named, set, read, e) (inr refl)
      ]

  -- nothing is written where the retries are there
  quiet :
      (plan : BackupPlan) (n : ℤ) (b : PvcBackup) (u : Trace)
      → is_empty plan.spec.pvc_backup_ref.name ≡ false
      → plan.spec.retries ≡ some n
      → w.env.backup (read_event plan ∷ u) ≡ ok b
      → has_retries b.spec.retries n ≡ true
      → propagate_retries w plan u ≡ (none, read_event plan ∷ u)
  unfolding propagate_retries set_backup_retries ask
  quiet plan n b u named set read e = rw (named, set, read, e) refl

  -- When the backup is then read with these retries, the next run of the plan only reads it.
  propagate_retries-settles :
      (plan : BackupPlan) (n : ℤ) (b : PvcBackup) (t : Trace)
      → is_empty plan.spec.pvc_backup_ref.name ≡ false
      → plan.spec.retries ≡ some n
      → w.env.backup (read_event plan ∷ (propagate_retries w plan t).1) ≡ ok (set_retries n b)
      → propagate_retries w plan (propagate_retries w plan t).1
        ≡ (none, read_event plan ∷ (propagate_retries w plan t).1)
  propagate_retries-settles plan n b t named set again =
      quiet plan n (set_retries n b) (propagate_retries w plan t).1 named set again (eq_int_refl n)
