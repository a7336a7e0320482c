-- ===== src/Backup/Outcomes.antt =====
-- How a run fails: fail and failPrune.
use backrest_operator.Prelude.{ℕ, ◌/◌, bytes, true, false, Option, none, some, List, [], ◌∷◌}
use backrest_operator.Api.{Phase, Timestamp, Condition, PvcBackup, key_of, is_failed}
use backrest_operator.Effects.{
  on_option, Env, Result, ok, err, Error, Event, Metric, M, pure, ask, tell, ◌>>=◌, ◌>>◌, Outcome,
}
use backrest_operator.Backup.Schedule.{second, requeue_for_schedule}
use backrest_operator.Backup.Quiesce.{release_quiesce}

-- time.Now().UTC().Format(time.RFC3339)
abbrev pub stamp : ℕ → Timestamp
stamp now = Timestamp.at (now / second)

abbrev pub failed_condition : Error → List Condition
failed_condition e =
    record { kind = bytes "Failed"; status = bytes "True"; message = e.message } ∷ []

-- an update answers with the object as it is stored; an error leaves the object as it was
abbrev pub stored : PvcBackup → Result PvcBackup → PvcBackup × Option Error
stored b (err e) = (b, some e)
stored b (ok c) = (c, none)

-- the object that was read, if it is there with phase Failed
abbrev pub failed_already : Result PvcBackup → Option PvcBackup
failed_already (err e) = none
failed_already (ok cur) = elim (is_failed cur.status.phase) [ true ↦ some cur | false ↦ none ]

abbrev pub mark_failed : PvcBackup → Timestamp → Error → PvcBackup
mark_failed b ts e = record b {
  status = record (b.status) {
    phase = Phase.failed;
    last_backup_time = ts;
    conditions = failed_condition e;
  };
}

abbrev pub mark_prune_failed : PvcBackup → Error → PvcBackup
mark_prune_failed b e = record b {
  status = record (b.status) { phase = Phase.failed; conditions = failed_condition e };
}

module _ (env : Env) where
  unfoldable pub update_status : PvcBackup → M (PvcBackup × Option Error)
  update_status b = do r ← ask env.backup (Event.update_backup_status b); pure (stored b r)

  -- the backup is Failed already: bring the workloads back, and leave the status alone
  unfoldable pub fail_again : PvcBackup → M (PvcBackup × Outcome)
  unfolding requeue_for_schedule
  fail_again cur = do
    r ← release_quiesce env cur
    out ← requeue_for_schedule env r.0
    pure (r.0, out)

  unfoldable pub fail_first : PvcBackup → Error → M (PvcBackup × Outcome)
  unfolding update_status requeue_for_schedule
  fail_first b e = do
    tell (Event.metric (Metric.reconcile_error (bytes "PVCBackup")))
    tell (Event.metric (Metric.backup_failure b.metadata.namespace b.metadata.name))
    r ← release_quiesce env b
    now ← ask env.clock Event.read_clock
    u ← update_status (mark_failed r.0 (stamp now) e)
    out ← requeue_for_schedule env u.0
    pure (u.0, out)

  -- The object comes back too: the caller reads it once more when it returns.
  unfoldable pub fail : PvcBackup → Error → M (PvcBackup × Outcome)
  fail b e = do
    r ← ask env.backup (Event.get_backup (key_of b.metadata))
    on_option (failed_already r) (λ cur. fail_again cur) (fail_first b e)

  unfoldable pub fail_prune : PvcBackup → Error → M Outcome
  fail_prune b e = do
    r ← ask env.backup (Event.get_backup (key_of b.metadata))
    on_option (failed_already r) (λ cur. requeue_for_schedule env cur)
        (do
          tell (Event.metric (Metric.reconcile_error (bytes "PVCBackup")))
          u ← update_status (mark_prune_failed b e)
          requeue_for_schedule env u.0)
