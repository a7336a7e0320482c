-- ===== src/Backup/Schedule/Laws.antt =====
-- When a scheduled backup runs, and when it comes back: scheduleDue and requeueForSchedule.
use backrest_operator.Prelude.{
  ℕ, ◌*◌, ◌/◌, Bytes, [], ◌<◌, ◌+◌, ◌≡◌, refl, ◌⊎◌, inl, inr, Bool, true, false, none, some,
  is_empty, eq_refl, arith, ltb, Bool-cases, ◌∷◌, ◌-◌,
}
use backrest_operator.Api.{Timestamp, PvcBackup}
use backrest_operator.Effects.{Env, Result, ok, err, Error, Instant, Event, Trace, ask}
use backrest_operator.Backup.Spec.{force_run_pending, is_pending, force_run_key}
use backrest_operator.Prelude.Dict.{text_at}
use backrest_operator.Backup.Outcomes.{stamp, mark_failed}
use backrest_operator.Backup.Poll.{claim, mark_succeeded}
use backrest_operator.Backup.Schedule.{
  second, schedule_from, schedule_due, due_at, next_wait, requeue_for_schedule,
}

-- the slot is ahead, and the wait ends with it
abbrev pub IsAhead : ℕ → Instant → Result (Bool × ℕ) → Type 0
IsAhead now next r =
    (s : ℕ) × (w : ℕ) × (next ≡ some s) × (now < s) × (now + w ≡ s) × (r ≡ ok (false, w))

-- the slot is not ahead
abbrev pub IsDue : ℕ → Instant → Result (Bool × ℕ) → Type 0
IsDue now next r = ¬ ((s : ℕ) × (next ≡ some s) × (now < s)) × (r ≡ ok (true, 0))

due_at_lem :
    (now : ℕ) (next : Instant)
    → IsAhead now next (ok (due_at now next)) ⊎ IsDue now next (ok (due_at now next))
unfolding due_at
due_at_lem now none = inr (λ (s, e, lt). cc e, refl)
due_at_lem now (some s) = elim (Bool-cases (ltb now s)) [
  | inl h ↦ inl (s, s - now, refl, ground arith, ground arith, rw h refl)
  | inr h ↦ inr (λ (r, e, lt). absurd (ground arith), rw h refl)
]

next_wait-positive : (r : Result (Bool × ℕ)) → 0 < next_wait r
next_wait-positive (err e) = omega arith
next_wait-positive (ok (due, w)) = ground arith

-- Either the slot after `i` is later than now, and then the backup is not due and the wait ends
-- exactly at the slot; or it is not later, and then the backup is due.
abbrev pub CountsFrom : Env → PvcBackup → (Instant → Instant) → Instant → Trace → Type 0
CountsFrom env b next i t =
    let now = env.clock (Event.read_clock ∷ t) in
    IsAhead now (next i) (schedule_due env b t).0 ⊎ IsDue now (next i) (schedule_due env b t).0

-- a success takes note of the forced run it was
claimed : (force last : Bytes) → is_pending force (claim force last) ≡ false
claimed [] last = refl
claimed (c ∷ force) last = rw (eq_refl (c ∷ force)) refl

-- a backup that was created at the second `s` and has not run
abbrev pub created_at : PvcBackup → ℕ → PvcBackup
created_at b s = record b {
  metadata = record (b.metadata) { created = some s };
  status = record (b.status) { last_backup_time = Timestamp.unset };
}

module _ (env : Env) (t : Trace) where
  schedule_due_lem :
      (b : PvcBackup) (next : Instant → Instant)
      → force_run_pending b ≡ false
      → env.cron b.spec.schedule ≡ ok next
      → CountsFrom env b next (schedule_from b) t
  unfolding schedule_due ask
  schedule_due_lem b next f e =
      rw f (rw e (due_at_lem (env.clock (Event.read_clock ∷ t)) (next (schedule_from b))))

  -- The slots of a schedule that the parser takes are counted from the end of the last run, to the
  -- second, whether it succeeded or failed, and before the first run from the backup's creation: a
  -- backup with no forced run pending that has ended at `now`, or was created then and has not run, is
  -- due when the first slot after it is not ahead, and else waits exactly until that slot, so that it
  -- is not tried again before it.
  pub schedule_due-CountsFrom :
      (b : PvcBackup) (next : Instant → Instant) (now : ℕ) (e : Error)
      → env.cron b.spec.schedule ≡ ok next
      → force_run_pending b ≡ false
      → CountsFrom env (mark_succeeded b (stamp now)) next (some (now / second * second)) t
        × CountsFrom env (mark_failed b (stamp now) e) next (some (now / second * second)) t
        × CountsFrom env (created_at b (now / second)) next (some (now / second * second)) t
  unfolding schedule_from force_run_pending
  schedule_due-CountsFrom b next now e parsed calm = (
    schedule_due_lem (mark_succeeded b (stamp now)) next
        (claimed (text_at force_run_key b.metadata.annotations) b.status.last_force_run) parsed,
    schedule_due_lem (mark_failed b (stamp now) e) next calm parsed,
    schedule_due_lem (created_at b (now / second)) next calm parsed,
  )

  -- A backup with a schedule always comes back: the requeue after a run has a positive delay and no
  -- error, whatever the parser and the clock answer.
  requeue_for_schedule-positive :
      (b : PvcBackup)
      → is_empty b.spec.schedule ≡ false
      → (0 < (requeue_for_schedule env b t).0.after)
        × ((requeue_for_schedule env b t).0.error ≡ none)
  unfolding requeue_for_schedule
  requeue_for_schedule-positive b h = rw h (next_wait-positive (schedule_due env b t).0, refl)
