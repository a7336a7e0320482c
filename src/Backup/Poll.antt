-- ===== src/Backup/Poll.antt =====
-- pollBackupJob, pollPruneJob and handleForceCancel.
use backrest_operator.Prelude.{
  ℕ, ◌*◌, ◌/◌, Bytes, bytes, true, false, Option, none, some, [], ◌∷◌, ◌++◌, is_empty,
  if◌then◌else◌,
}
use backrest_operator.Prelude.Int.{is_positive}
use backrest_operator.Prelude.Dict.{text_at}
use backrest_operator.Api.{Phase, Timestamp, Key, PvcBackup, is_pruning}
use backrest_operator.Effects.{
  on_result, on_option, Env, Error, plain_error, wrap_error, Event, Metric, M, pure, ask, tell,
  ◌>>=◌, ◌>>◌, Outcome,
}
use backrest_operator.Backup.Spec.{
  force_run_key, force_cancel_key, cancel_phase_busy, idle_phase_after_prune,
}
use backrest_operator.Backup.Schedule.{second, requeue_for_schedule}
use backrest_operator.Backup.Quiesce.{release_quiesce}
use backrest_operator.Backup.Host.{sync_after_run}
use backrest_operator.Backup.Outcomes.{stamp, update_status, fail, fail_prune}

abbrev pub finished : Outcome
finished = record { requeue = false; after = 0; error = none }

abbrev pub come_back : ℕ → Outcome
come_back n = record { requeue = false; after = n; error = none }

abbrev pub stopped : Error → Outcome
stopped e = record { requeue = false; after = 0; error = some e }

-- return ctrl.Result{Requeue: true}, err
abbrev pub requeued : Option Error → Outcome
requeued e = record { requeue = true; after = 0; error = e }

abbrev pub poll_interval : ℕ
poll_interval = 15 * second

abbrev pub job_key : PvcBackup → Key
job_key b = record { namespace = b.metadata.namespace; name = b.status.last_job_name }

-- `if force := annotations[force-run]; force != "" { LastForceRun = force }`
abbrev pub claim : Bytes → Bytes → Bytes
claim [] last = last
claim (c ∷ force) last = c ∷ force

abbrev pub mark_succeeded : PvcBackup → Timestamp → PvcBackup
mark_succeeded b ts = record b {
  status = record (b.status) {
    phase = if is_empty b.spec.schedule then Phase.succeeded else Phase.scheduled;
    last_backup_time = ts;
    last_success_time = ts;
    last_force_run = claim (text_at force_run_key b.metadata.annotations) b.status.last_force_run;
  };
}

abbrev pub mark_pruned : PvcBackup → PvcBackup
mark_pruned b = record b { status = record (b.status) { phase = idle_phase_after_prune b } }

module _ (env : Env) where
  -- the status is written, and the backup comes back at its next slot
  unfoldable pub finish_run : PvcBackup → M Outcome
  unfolding update_status requeue_for_schedule
  finish_run b = do
    u ← update_status env b
    on_option u.1 (λ e. pure (stopped e)) (requeue_for_schedule env u.0)

  unfoldable pub backup_succeeded : PvcBackup → M Outcome
  unfolding finish_run sync_after_run
  backup_succeeded b = do
    r ← release_quiesce env b
    now ← ask env.clock Event.read_clock
    tell (Event.metric (Metric.backup_success b.metadata.namespace b.metadata.name (now / second)))
    sync_after_run env (mark_succeeded r.0 (stamp now))
    finish_run (mark_succeeded r.0 (stamp now))

  abbrev failing : PvcBackup → Error → M Outcome
  failing b e = do r ← fail env b e; pure r.1

  unfoldable pub poll_backup_job : PvcBackup → M Outcome
  poll_backup_job b = do
    r ← ask env.job (Event.get_job (job_key b))
    on_result r
        (λ e.
          failing b (wrap_error (bytes "restic job " ++ b.status.last_job_name ++ bytes ": ") e))
        (λ job.
          if is_positive job.succeeded
          then backup_succeeded b
          else if is_positive job.failed
          then failing b (plain_error (bytes "restic job failed"))
          else pure (come_back poll_interval))

  unfoldable pub prune_succeeded : PvcBackup → M Outcome
  unfolding finish_run sync_after_run
  prune_succeeded b = do sync_after_run env (mark_pruned b); finish_run (mark_pruned b)

  unfoldable pub poll_prune_job : PvcBackup → M Outcome
  poll_prune_job b = do
    r ← ask env.job (Event.get_job (job_key b))
    on_result r
        (λ e.
          fail_prune env b
            (wrap_error (bytes "restic prune job " ++ b.status.last_job_name ++ bytes ": ") e))
        (λ job.
          if is_positive job.succeeded
          then prune_succeeded b
          else if is_positive job.failed
          then fail_prune env b (plain_error (bytes "restic prune job failed"))
          else pure (come_back poll_interval))

  abbrev pub cancelled_by_user : Error
  cancelled_by_user = plain_error (bytes "cancelled by user")

  unfoldable pub delete_current_job : PvcBackup → M (Unit {0})
  delete_current_job b =
      if is_empty b.status.last_job_name then pure tt else tell (Event.delete_job (job_key b))

  abbrev pub claim_cancel : PvcBackup → PvcBackup
  claim_cancel b = record b {
    status = record (b.status) {
      last_force_cancel = text_at force_cancel_key b.metadata.annotations;
    };
  }

  -- once the Job is deleted
  unfoldable pub cancel_run : PvcBackup → M Outcome
  unfolding update_status
  cancel_run b =
      if cancel_phase_busy b.status.phase
      then (if is_pruning b.status.phase
          then fail_prune env b cancelled_by_user
          else failing b cancelled_by_user)
      else do u ← update_status env b; on_option u.1 (λ e. pure (requeued (some e))) (pure finished)

  unfoldable pub handle_force_cancel : PvcBackup → M Outcome
  unfolding delete_current_job
  handle_force_cancel b = do delete_current_job b; cancel_run (claim_cancel b)
