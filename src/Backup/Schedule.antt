-- ===== src/Backup/Schedule.antt =====
-- scheduleDue, and the requeue that follows a run.
pub mod Laws
use backrest_operator.Prelude.{
  ℕ, ◌*◌, ◌-◌, ◌^◌, Bytes, bytes, Bool, true, false, Option, none, some, ◌++◌, is_empty, ◌∷◌, ltb,
  if◌then◌else◌,
}
use backrest_operator.Api.{Timestamp, PvcBackup}
use backrest_operator.Effects.{
  on_result, on_option, is_not_found, Env, Result, ok, err, Error, Instant, Event, M, pure, ask,
  ◌>>=◌, Outcome,
}
use backrest_operator.Backup.Spec.{force_run_pending}

abbrev pub second : ℕ
second = 10 ^ 9

abbrev pub hour : ℕ
hour = 3600 * second

-- t.Before(u), where the zero time is before all others
abbrev pub before : Instant → Instant → Bool
before none none = false
before none (some b) = true
before (some a) none = false
before (some a) (some b) = ltb a b

-- the instant from which the next slot is counted
unfoldable pub schedule_from : PvcBackup → Instant
schedule_from b = elim b.status.last_backup_time [
  | Timestamp.at s ↦ some (s * second)
  | _ ↦ elim b.metadata.created [ none ↦ none | some s ↦ some (s * second) ]
]

-- next.Sub(now), which is read only after now.Before(next)
abbrev pub until : ℕ → Instant → ℕ
until now none = 0
until now (some t) = t - now

-- due, and the wait if not
unfoldable pub due_at : ℕ → Instant → Bool × ℕ
due_at now next = if before (some now) next then (false, until now next) else (true, 0)

-- `if err == nil && wait > 0 { wait } else { time.Hour }`
abbrev pub next_wait : Result (Bool × ℕ) → ℕ
next_wait (err e) = hour
next_wait (ok (due, wait)) = if ltb 0 wait then wait else hour

module _ (env : Env) where
  -- %q puts quotes around a schedule that has nothing to escape
  unfoldable pub schedule_due : PvcBackup → M (Result (Bool × ℕ))
  unfolding due_at schedule_from
  schedule_due b =
      if force_run_pending b
      then pure (ok (true, 0))
      else on_result (env.cron b.spec.schedule)
          (λ e. pure (
            err (record {
              reason = e.reason;
              message =
                  bytes "invalid schedule "
                  ++ b'"' ∷ (b.spec.schedule ++ b'"' ∷ (bytes ": " ++ e.message));
            })))
          (λ next. do
            now ← ask env.clock Event.read_clock
            pure (ok (due_at now (next (schedule_from b)))))

  -- a scheduled backup comes back at its next slot, or in an hour if that is not known
  unfoldable pub requeue_for_schedule : PvcBackup → M Outcome
  requeue_for_schedule b =
      if is_empty b.spec.schedule
      then pure (record { requeue = false; after = 0; error = none })
      else do
        due ← schedule_due b
        pure (record { requeue = false; after = next_wait due; error = none })
