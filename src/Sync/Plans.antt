-- ===== src/Sync/Plans.antt =====
-- internal/controller/repository_plan_controller.go: the BackupPlan controller.
use backrest_operator.Prelude.{
  bytes, Bool, false, ◌||◌, not, Option, none, some, is_empty, if◌then◌else◌,
}
use backrest_operator.Prelude.Int.{ℤ, eq_int}
use backrest_operator.Api.{Phase, Key, PvcBackup, BackupRepository, ref_key}
use backrest_operator.Filters.{object_allowed}
use backrest_operator.Effects.{
  Error, Event, Metric, M, pure, ask, tell, ◌>>=◌, ◌>>◌, on_result, on_option, Outcome,
}
use backrest_operator.Backup.Poll.{finished, stopped}
use backrest_operator.Backup.Quiesce.Wait.{ignore_not_found}
use backrest_operator.Sync.{Syncs, sync_plan_to_host}
use backrest_operator.Sync.Objects.{BackupPlan, SyncCall}
use backrest_operator.Sync.Repositories.{ended}

-- b.Spec.Retries != nil && *b.Spec.Retries == retries
abbrev pub has_retries : Option ℤ → ℤ → Bool
has_retries none n = false
has_retries (some m) n = eq_int m n

abbrev pub set_retries : ℤ → PvcBackup → PvcBackup
set_retries n b = record b { spec = record (b.spec) { retries = some n } }

abbrev pub mark_plan : Phase → BackupPlan → BackupPlan
mark_plan p plan = record plan { phase = p }

-- the backup that a plan names
abbrev pub backup_key : BackupPlan → Key
backup_key plan = ref_key plan.spec.pvc_backup_ref plan.metadata.namespace

module _ (w : Syncs) where
  unfoldable pub set_backup_retries : ℤ → PvcBackup → M (Option Error)
  unfolding eq_int
  set_backup_retries n b =
      if has_retries b.spec.retries n
      then pure none
      else ask w.env.done (Event.update_backup (set_retries n b))

  unfoldable pub propagate_retries : BackupPlan → M (Option Error)
  unfolding set_backup_retries
  propagate_retries plan =
      if is_empty plan.spec.pvc_backup_ref.name
      then pure none
      else on_option plan.spec.retries
          (λ n. do
            got ← ask w.env.backup (Event.get_backup (backup_key plan))
            on_result got (λ e. pure (ignore_not_found (some e))) (λ b. set_backup_retries n b))
          (pure none)

  abbrev pub save_plan : Phase → BackupPlan → M (Option Error)
  save_plan p plan = ask w.env.done (Event.sync (SyncCall.update_plan_status (mark_plan p plan)))

  unfoldable pub fail_plan : BackupPlan → Error → M Outcome
  fail_plan plan e = do _ ← save_plan Phase.failed plan; pure (stopped e)

  unfoldable pub plan_sync_failed : BackupPlan → Error → M Outcome
  unfolding fail_plan
  plan_sync_failed plan e = do
    tell (Event.metric (Metric.reconcile_error (bytes "BackupPlan")))
    fail_plan plan e

  unfoldable pub finish_plan : BackupPlan → M Outcome
  unfolding propagate_retries
  finish_plan plan = do
    e ← propagate_retries plan
    on_option e (λ x. pure (stopped x)) (do u ← save_plan Phase.ready plan; pure (ended u))

  unfoldable pub sync_and_finish : BackupPlan → BackupRepository → M Outcome
  unfolding sync_plan_to_host plan_sync_failed finish_plan
  sync_and_finish plan repo =
      if repo.spec.sync_to_host || not (is_empty plan.spec.cluster_ref.name)
      then (do
        e ← sync_plan_to_host w plan repo
        on_option e (λ x. plan_sync_failed plan x) (finish_plan plan))
      else finish_plan plan

  unfoldable pub reconcile_allowed_plan : BackupPlan → M Outcome
  unfolding sync_and_finish fail_plan
  reconcile_allowed_plan plan =
      if is_empty plan.spec.repository_ref.name
      then (do u ← save_plan Phase.failed plan; pure (ended u))
      else (do
        got ←
            ask w.env.repository
              (Event.get_repository (ref_key plan.spec.repository_ref plan.metadata.namespace))
        on_result got (λ e. fail_plan plan e) (λ repo. sync_and_finish plan repo))

  unfoldable pub reconcile_plan : Key → M Outcome
  unfolding reconcile_allowed_plan
  reconcile_plan key = do
    got ← ask w.plan (Event.sync (SyncCall.get_plan key))
    on_result got (λ e. pure (ended (ignore_not_found (some e))))
        (λ plan.
          if object_allowed w.env.watch_namespaces w.env.watch_label_selector
            plan.metadata.namespace plan.metadata.labels
          then reconcile_allowed_plan plan
          else pure finished)
