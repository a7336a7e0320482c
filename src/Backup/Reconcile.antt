-- ===== src/Backup/Reconcile.antt =====
-- PVCBackupReconciler.Reconcile, up to the start of a run.
pub mod Prune
use backrest_operator.Prelude.{
  ℕ, ◌*◌, Bytes, bytes, Bool, true, false, Option, none, some, List, [], ◌∷◌, ◌++◌, ◌&&◌, ◌||◌, not,
  is_empty, ◌==◌, any, filter, take, eq_num, if◌then◌else◌,
}
use backrest_operator.Prelude.Dict.{text_at}
use backrest_operator.Api.{
  Phase, Key, PvcBackup, ObjectMeta, key_of, is_failed, is_uploading, is_pruning, is_scheduled,
}
use backrest_operator.Filters.{object_allowed}
use backrest_operator.Metrics.{last_success_unix_from_status}
use backrest_operator.Effects.{
  on_result, on_option, is_not_found, Env, Result, ok, err, Error, Reason, plain_error, Event,
  Metric, Legacy, M, pure, ask, tell, ◌>>=◌, ◌>>◌, Outcome,
}
use backrest_operator.Backup.Spec.{
  force_run_key, host_plan_finalizer, pvc_list, force_run_pending, force_prune_pending,
  force_cancel_pending, repository_key, is_pending,
}
use backrest_operator.Backup.Schedule.{second, schedule_due}
use backrest_operator.Backup.Quiesce.Wait.{ignore_not_found}
use backrest_operator.Backup.Host.{sync_after_run, remove_pvc_backup_plan_from_host}
use backrest_operator.Backup.Jobs.Adopt.{find_owned_backup_job, find_owned_prune_job}
use backrest_operator.Backup.Outcomes.{stored, update_status, fail}
use backrest_operator.Backup.Poll.{
  finished, come_back, stopped, requeued, poll_interval, poll_backup_job, poll_prune_job,
  handle_force_cancel,
}
use backrest_operator.Backup.Run.{start_run}
use backrest_operator.Backup.Run.Snapshot.{set_phase}
use Prune.{start_prune, poll_named}

abbrev pub has_job : PvcBackup → Bool
has_job b = not (is_empty b.status.last_job_name)

abbrev pub has_schedule : PvcBackup → Bool
has_schedule b = not (is_empty b.spec.schedule)

-- controllerutil.ContainsFinalizer, AddFinalizer and RemoveFinalizer
abbrev pub has_finalizer : ObjectMeta → Bool
has_finalizer m = any (λ f. f == host_plan_finalizer) m.finalizers

abbrev pub add_finalizer : ObjectMeta → ObjectMeta
add_finalizer m = record m { finalizers = m.finalizers ++ host_plan_finalizer ∷ [] }

abbrev pub remove_finalizer : ObjectMeta → ObjectMeta
remove_finalizer m = record m {
  finalizers = filter (λ f. not (f == host_plan_finalizer)) m.finalizers;
}

-- the phases at which a backup with no schedule rests
abbrev pub at_rest : Phase → Bool
at_rest Phase.succeeded = true
at_rest Phase.failed = true
at_rest Phase.scheduled = true
at_rest _ = false

abbrev pub keeps_phase : Phase → Bool
keeps_phase Phase.scheduled = true
keeps_phase Phase.failed = true
keeps_phase _ = false

module _ (env : Env) where
  abbrev pub failing : PvcBackup → Error → M Outcome
  failing b e = do r ← fail env b e; pure r.1

  abbrev pub store : PvcBackup → M (PvcBackup × Option Error)
  store b = do r ← ask env.backup (Event.update_backup b); pure (stored b r)

  unfoldable pub cleanup_legacy_schedule_resources : PvcBackup → M (Unit {0})
  cleanup_legacy_schedule_resources b =
      let key : Key = record {
        namespace = b.metadata.namespace;
        name = take 63 (bytes "pvcbackup-" ++ b.metadata.name);
      } in
      do
        tell (Event.delete_legacy Legacy.cron_job key)
        tell (Event.delete_legacy Legacy.service_account key)
        tell (Event.delete_legacy Legacy.role key)
        tell (Event.delete_legacy Legacy.role_binding key)

  -- the token is taken before the run, so that a requeue does not start a second one
  unfoldable pub claim_and_run : PvcBackup → List Bytes → M Outcome
  unfolding update_status
  claim_and_run b pvcs =
      if force_run_pending b
      then (do
        u ← update_status env (record b {
          status = record (b.status) {
            last_force_run = text_at force_run_key b.metadata.annotations;
          };
        })
        on_option u.1 (λ e. pure (stopped e)) (start_run env u.0 pvcs))
      else start_run env b pvcs

  abbrev minute : ℕ
  minute = 60 * second

  -- not due: phase Scheduled, the plan on the host, and back at the next slot
  unfoldable pub wait_for_slot : PvcBackup → ℕ → M Outcome
  unfolding update_status sync_after_run
  wait_for_slot b wait = do
    u ←
        (if keeps_phase b.status.phase
          then pure (b, none)
          else update_status env (set_phase b Phase.scheduled))
    sync_after_run env u.0
    pure (come_back (if eq_num wait 0 then minute else wait))

  unfoldable pub scheduled_run : PvcBackup → List Bytes → M Outcome
  scheduled_run b pvcs = do
    due ← schedule_due env b
    on_result due (λ e. failing b e)
        (λ d. (if d.0 then claim_and_run b pvcs else wait_for_slot b d.1))

  unfoldable pub maybe_run : PvcBackup → List Bytes → M Outcome
  maybe_run b pvcs =
      if has_schedule b
      then scheduled_run b pvcs
      else if not (force_run_pending b) && at_rest b.status.phase
      then pure finished
      else claim_and_run b pvcs

  -- no backup starts while a prune is pending or running
  unfoldable pub unless_pruning : PvcBackup → List Bytes → M Outcome
  unless_pruning b pvcs =
      if is_pruning b.status.phase || force_prune_pending b
      then (if is_pruning b.status.phase && has_job b
          then poll_prune_job env b
          else pure (come_back poll_interval))
      else maybe_run b pvcs

  unfoldable pub adopt_backup_job : PvcBackup → List Bytes → M Outcome
  unfolding find_owned_backup_job
  adopt_backup_job b pvcs = do
    j ← find_owned_backup_job env b
    on_option j (λ name. poll_named env b Phase.uploading name (poll_backup_job env))
        (unless_pruning b pvcs)

  unfoldable pub unless_failed : PvcBackup → List Bytes → M Outcome
  unless_failed b pvcs =
      if is_failed b.status.phase
        && not (force_run_pending b)
        && not (force_prune_pending b)
        && not (force_cancel_pending b)
        && not (has_schedule b)
      then pure finished
      else adopt_backup_job b pvcs

  unfoldable pub adopt_prune_job : PvcBackup → List Bytes → M Outcome
  unfolding find_owned_prune_job
  adopt_prune_job b pvcs = do
    j ← find_owned_prune_job env b
    on_option j (λ name. poll_named env b Phase.pruning name (poll_prune_job env))
        (unless_failed b pvcs)

  -- cancel, then the Jobs in flight, then a prune, then the rest
  unfoldable pub dispatch : PvcBackup → List Bytes → M Outcome
  dispatch b pvcs =
      if force_cancel_pending b
      then handle_force_cancel env b
      else if is_uploading b.status.phase && has_job b
      then poll_backup_job env b
      else if is_pruning b.status.phase && has_job b
      then poll_prune_job env b
      else if force_prune_pending b
      then start_prune env b
      else adopt_prune_job b pvcs

  unfoldable pub reconcile_claims : PvcBackup → M Outcome
  unfolding cleanup_legacy_schedule_resources
  reconcile_claims b =
      if is_empty (pvc_list b)
      then failing b (plain_error (bytes "pvcName or pvcNames required"))
      else (do cleanup_legacy_schedule_resources b; dispatch b (pvc_list b))

  unfoldable pub reconcile_live : PvcBackup → M Outcome
  reconcile_live b = do
    tell (
        Event.metric (
          Metric.sync_last_success b.metadata.namespace b.metadata.name
            (last_success_unix_from_status b.status)))
    if has_finalizer b.metadata then reconcile_claims b else (do
      u ← store (record b { metadata = add_finalizer b.metadata })
      on_option u.1 (λ e. pure (requeued (some e))) (reconcile_claims u.0))

  unfoldable pub reconcile_deleted : PvcBackup → M Outcome
  unfolding remove_pvc_backup_plan_from_host
  reconcile_deleted b = do
    tell (Event.metric (Metric.forget_backup b.metadata.namespace b.metadata.name))
    if has_finalizer b.metadata
        then (do
          e ← remove_pvc_backup_plan_from_host env b
          on_option e (λ x. pure (requeued (some x)))
              (do
                u ← store (record b { metadata = remove_finalizer b.metadata })
                on_option u.1 (λ x. pure (requeued (some x))) (pure finished)))
        else pure finished

  abbrev pub forget_missing : Key → Error → M (Unit {0})
  forget_missing key e =
      (if is_not_found e
        then tell (Event.metric (Metric.forget_backup key.namespace key.name))
        else pure tt)

  unfoldable pub reconcile : Key → M Outcome
  reconcile key = do
    r ← ask env.backup (Event.get_backup key)
    on_result r
        (λ e. do
          forget_missing key e
          pure (record { requeue = false; after = 0; error = ignore_not_found (some e) }))
        (λ b.
          if object_allowed env.watch_namespaces env.watch_label_selector b.metadata.namespace
            b.metadata.labels
          then (if b.metadata.deleting then reconcile_deleted b else reconcile_live b)
          else (do
            tell (Event.metric (Metric.forget_backup b.metadata.namespace b.metadata.name))
            pure finished))
