-- ===== src/Sync/Repositories.antt =====
-- internal/controller/repository_plan_controller.go: the BackupRepository controller.
use backrest_operator.Prelude.{
  Bytes, bytes, Bool, true, false, ◌||◌, Option, none, some, [], ◌∷◌, ◌++◌, is_empty, or_text,
  if◌then◌else◌,
}
use backrest_operator.Api.{Phase, Key, BackupRepository}
use backrest_operator.Filters.{object_allowed}
use backrest_operator.Shell.{restic_check_job_script}
use backrest_operator.Effects.{
  Error, Event, Metric, M, pure, ask, tell, ◌>>=◌, ◌>>◌, on_result, on_option, is_not_found,
  Outcome,
}
use backrest_operator.Backup.Jobs.{restic_password, env_from}
use backrest_operator.Backup.Poll.{finished, stopped}
use backrest_operator.Backup.Quiesce.Wait.{ignore_not_found}
use backrest_operator.Sync.{Syncs, sync_repository_to_host}
use backrest_operator.Sync.Objects.{RepositoryObject, CronSpec, CronJob, SyncCall}

abbrev pub ended : Option Error → Outcome
ended e = record { requeue = false; after = 0; error = e }

unfoldable pub cron_key : BackupRepository → Key
cron_key repo = record {
  namespace = repo.metadata.namespace;
  name = bytes "restic-check-" ++ repo.metadata.name;
}

unfoldable pub check_spec : BackupRepository → CronSpec
unfolding restic_password env_from restic_check_job_script
check_spec repo = record {
  schedule = or_text repo.spec.verify_schedule (bytes "0 3 * * 0");
  script = restic_check_job_script;
  url = repo.spec.url;
  password = restic_password repo;
  env_from = env_from repo;
}

unfoldable pub check_cron : BackupRepository → CronJob
unfolding cron_key check_spec
check_cron repo = record {
  key = cron_key repo;
  owner = some repo.metadata.uid;
  spec = check_spec repo;
  rest = [];
}

abbrev pub verifies : BackupRepository → Bool
verifies repo = elim repo.spec.verify_enabled [ none ↦ true | some b ↦ b ]

abbrev pub is_invalid : BackupRepository → Bool
is_invalid repo = is_empty repo.spec.url || is_empty repo.spec.password_secret_name

-- the phase, with the one condition that says why
abbrev pub mark_repository : Bytes → Bytes → RepositoryObject → RepositoryObject
mark_repository kind message r = record r {
  status = record (r.status) {
    phase = Phase.failed;
    conditions = record { kind = kind; status = bytes "True"; message = message } ∷ [];
  };
}

abbrev pub mark_ready : Bytes → RepositoryObject → RepositoryObject
mark_ready check r = record r {
  status = record (r.status) {
    phase = Phase.ready;
    restic_url = r.object.spec.url;
    last_check_result = check;
  };
}

module _ (w : Syncs) where
  unfoldable pub ensure_check_cron : BackupRepository → M (Option Error)
  unfolding check_cron
  ensure_check_cron repo = do
    got ← ask w.cron_job (Event.sync (SyncCall.get_cron_job (cron_key repo)))
    on_result got
        (λ e.
          if is_not_found e
          then ask w.env.done (Event.sync (SyncCall.create_cron_job (check_cron repo)))
          else pure (some e))
        (λ cur.
          ask w.env.done
            (Event.sync (SyncCall.update_cron_job (record cur { spec = check_spec repo }))))

  abbrev pub save_repository : RepositoryObject → M (Option Error)
  save_repository r = ask w.env.done (Event.sync (SyncCall.update_repository_status r))

  unfoldable pub repository_error : M (Unit {0})
  repository_error = tell (Event.metric (Metric.reconcile_error (bytes "BackupRepository")))

  unfoldable pub sync_failed : RepositoryObject → Error → M Outcome
  unfolding repository_error
  sync_failed r e = do
    repository_error
    _ ← save_repository (mark_repository (bytes "SyncFailed") e.message r)
    pure (stopped e)

  unfoldable pub sync_and_save : RepositoryObject → M Outcome
  unfolding sync_failed sync_repository_to_host
  sync_and_save r = do
    e ← sync_repository_to_host w r.object
    on_option e (λ x. sync_failed r x) (do u ← save_repository r; pure (ended u))

  unfoldable pub verify_failed : Error → M Outcome
  unfolding repository_error
  verify_failed e = do repository_error; pure (stopped e)

  unfoldable pub verify_and_sync : RepositoryObject → M Outcome
  unfolding ensure_check_cron verify_failed sync_and_save
  verify_and_sync r = do
    e ← ensure_check_cron r.object
    on_option e (λ x. verify_failed x) (sync_and_save (mark_ready (bytes "scheduled") r))

  -- an error of the deletion is dropped
  unfoldable pub skip_and_sync : RepositoryObject → M Outcome
  unfolding cron_key sync_and_save
  skip_and_sync r = do
    _ ← ask w.env.done (Event.sync (SyncCall.delete_cron_job (cron_key r.object)))
    sync_and_save (mark_ready (bytes "skipped") r)

  unfoldable pub reject_repository : RepositoryObject → M Outcome
  reject_repository r = do
    _ ←
        save_repository
          (mark_repository (bytes "Invalid") (bytes "url and passwordSecretRef required") r)
    pure finished

  unfoldable pub reconcile_valid : RepositoryObject → M Outcome
  unfolding reject_repository verify_and_sync skip_and_sync
  reconcile_valid r =
      if is_invalid r.object
      then reject_repository r
      else (if verifies r.object then verify_and_sync r else skip_and_sync r)

  unfoldable pub reconcile_repository : Key → M Outcome
  unfolding reconcile_valid
  reconcile_repository key = do
    got ← ask w.repository (Event.sync (SyncCall.get_repository_object key))
    on_result got (λ e. pure (ended (ignore_not_found (some e))))
        (λ r.
          if object_allowed w.env.watch_namespaces w.env.watch_label_selector
            r.object.metadata.namespace r.object.metadata.labels
          then reconcile_valid r
          else pure finished)
