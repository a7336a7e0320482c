-- ===== src/Restore/Run.antt =====
-- A restore with restic, from the session check to its Job: startResticRestore.
use backrest_operator.Prelude.{
  ◌/◌, ◌*◌, Bytes, bytes, Bool, true, false, Option, none, some, List, [], ◌∷◌, ◌++◌, is_empty,
  or_text, if◌then◌else◌,
}
use backrest_operator.Prelude.Int.{pos, is_positive}
use backrest_operator.Api.{
  Phase, RestoreMode, PvcBackup, PvcRestore, BackupRepository, key_of, ref_key,
}
use backrest_operator.Shell.{restic_restore_job_script}
use backrest_operator.Session.{
  HolderKind, SessionHolder, new_claim, restore_pvc_keys, backup_phase_active,
  list_pvc_session_holders, holders_of_kind,
}
use backrest_operator.Effects.{
  Env, Result, ok, err, Error, plain_error, wrap_error, Event, Metric, M, pure, ask, tell, ◌>>=◌,
  ◌>>◌, on_result, on_option, is_not_found, Outcome, JobSpec,
}
use backrest_operator.Backup.Schedule.{second}
use backrest_operator.Backup.Jobs.{job_name, restic_password, env_from, ignore_already_exists}
use backrest_operator.Backup.Jobs.Adopt.{find_owned_backup_job}
use backrest_operator.Backup.Quiesce.{quiesce_from}
use backrest_operator.Backup.Secrets.{ensure_repo_secrets}
use backrest_operator.Backup.Outcomes.{failed_condition, fail}
use backrest_operator.Backup.Poll.{finished, come_back, stopped, delete_current_job, poll_interval}
use backrest_operator.Restore.Quiesce.{persist_restore_quiesce, release_restore_quiesce}
use backrest_operator.Restore.Claim.{Made, make_claim}

abbrev pub set_restore_phase : PvcRestore → Phase → PvcRestore
set_restore_phase r p = record r { status = record (r.status) { phase = p } }

abbrev pub mark_restore_failed : PvcRestore → Error → PvcRestore
mark_restore_failed r e = record r {
  status = record (r.status) { phase = Phase.failed; conditions = failed_condition e };
}

-- an update answers with the object as it is stored; an error leaves the object as it was
abbrev pub stored_restore : PvcRestore → Result PvcRestore → PvcRestore × Option Error
stored_restore r (err e) = (r, some e)
stored_restore r (ok c) = (c, none)

-- controller-runtime turns a panic into an error of the reconcile.
abbrev pub panic : Outcome
panic = stopped (plain_error (bytes "panic: cannot parse quantity"))

unfoldable pub restore_job : PvcRestore → BackupRepository → Bytes → Bytes → JobSpec
restore_job r repo name claim = record {
  key = record { namespace = r.metadata.namespace; name = name };
  script =
      restic_restore_job_script (or_text r.spec.snapshot_id (bytes "latest")) r.spec.path_filters;
  url = repo.spec.url;
  password = restic_password repo;
  env_from = env_from repo;
  backoff_limit = pos 0;
  ttl = none;
  node_selector = [];
  mounts = (claim, bytes "/data") ∷ [];
  owner_uid = none;
}

module _ (env : Env) where
  unfoldable pub update_restore_status : PvcRestore → M (PvcRestore × Option Error)
  update_restore_status r = do
    u ← ask env.restore (Event.update_restore_status r)
    pure (stored_restore r u)

  unfoldable pub fail_restore : PvcRestore → Error → M Outcome
  unfolding update_restore_status
  fail_restore r e = do
    tell (Event.metric (Metric.reconcile_error (bytes "PVCRestore")))
    tell (Event.metric (Metric.restore_failure r.metadata.namespace r.metadata.name))
    update_restore_status (mark_restore_failed r e)
    pure finished

  abbrev pub delete_adopted : PvcBackup → Option Bytes → M (Unit {0})
  delete_adopted b none = pure tt
  delete_adopted b (some name) =
      tell (Event.delete_job (record { namespace = b.metadata.namespace; name = name }))

  -- interruptBackup: the Jobs are deleted, the workloads come back and the backup is Failed
  unfoldable pub interrupt_backup : PvcBackup → Bytes → M (Unit {0})
  unfolding delete_current_job
  interrupt_backup b reason = do
    delete_current_job env b
    j ← find_owned_backup_job env b
    delete_adopted b j
    fail env b (plain_error reason)
    pure tt

  abbrev pub interrupted_by : PvcRestore → Bytes
  interrupted_by r =
      bytes "interrupted by PVCRestore/"
      ++ r.metadata.namespace
      ++ b'/' ∷ (r.metadata.name ++ bytes " (same PVC mount)")

  -- the loop over the backups that hold a claim: each is read anew, and interrupted if still active
  unfoldable pub interrupt_holders : PvcRestore → List SessionHolder → M (Option Error)
  unfolding interrupt_backup
  interrupt_holders r [] = pure none
  interrupt_holders r (h ∷ hs) = do
    cur ← ask env.backup (Event.get_backup h.key)
    on_result cur (λ e. if is_not_found e then interrupt_holders r hs else pure (some e))
        (λ b.
          if backup_phase_active b.status.phase
          then (do interrupt_backup b (interrupted_by r); interrupt_holders r hs)
          else interrupt_holders r hs)

  unfoldable pub poll_restore_job : PvcRestore → M Outcome
  unfolding fail_restore release_restore_quiesce update_restore_status
  poll_restore_job r = do
    j ←
        ask env.job (
          Event.get_job
            (record { namespace = r.metadata.namespace; name = r.status.last_job_name }))
    on_result j
        (λ e.
          fail_restore r
            (wrap_error (bytes "restic restore job " ++ r.status.last_job_name ++ bytes ": ") e))
        (λ job.
          if is_positive job.succeeded
          then (do
            release_restore_quiesce env r
            u ← update_restore_status (set_restore_phase r Phase.succeeded)
            pure (record { requeue = false; after = 0; error = u.1 }))
          else if is_positive job.failed
          then fail_restore r (plain_error (bytes "restic restore job failed"))
          else pure (come_back poll_interval))

  -- The Job on the claim, and the status that points at it. A repository is read by its namespace, so
  -- that its own is the one that ensureRestoreRepoSecrets is given.
  unfoldable pub launch_restore : PvcRestore → BackupRepository → Bytes → M Outcome
  launch_restore r repo claim = do
    s ← ensure_repo_secrets env r.metadata.namespace repo
    on_option s (λ e. fail_restore r e)
        (do
          now ← ask env.clock Event.read_clock
          let name = job_name (bytes "pvcrestore-") r.metadata.name (now / second)
          e ← ask env.done (Event.create_job (restore_job r repo name claim))
          on_option (ignore_already_exists e) (λ x. fail_restore r x)
              (do
                u ← update_restore_status (record r {
                  status = record (r.status) { last_job_name = name; phase = Phase.restoring };
                })
                on_option u.1 (λ x. pure (stopped x)) (poll_restore_job u.0)))

  -- the workloads of an existing claim go down first
  unfoldable pub quiesce_and_launch : PvcRestore → BackupRepository → Bytes → M Outcome
  unfolding launch_restore
  quiesce_and_launch r repo claim =
      if r.spec.quiesce.enabled
      then (do
        u ← update_restore_status (set_restore_phase r Phase.quiescing)
        q ← quiesce_from env u.0.metadata.namespace [] u.0.spec.quiesce.targets
        on_option q.1 (λ e. fail_restore u.0 e)
            (do
              p ← persist_restore_quiesce env u.0 q.0
              on_option p.1 (λ e. fail_restore p.0 e) (launch_restore p.0 repo claim)))
      else launch_restore r repo claim

  abbrev pub after_claim : PvcRestore → BackupRepository → Made → M Outcome
  after_claim r repo Made.panicked = pure panic
  after_claim r repo (Made.done (some e)) = fail_restore r e
  after_claim r repo (Made.done none) = launch_restore r repo (new_claim r)

  abbrev pub makes_claim : RestoreMode → Bool
  makes_claim RestoreMode.restic_to_new = true
  makes_claim _ = false

  -- with the claims free of other restores, and their backups interrupted
  unfoldable pub prepare_restore : PvcRestore → BackupRepository → M Outcome
  unfolding quiesce_and_launch make_claim
  prepare_restore r repo =
      if makes_claim r.spec.mode
      then (do m ← make_claim env r []; after_claim r repo m)
      else if is_empty r.spec.target.existing_pvc_name
      then fail_restore r (plain_error (bytes "target.existingPVCName required"))
      else quiesce_and_launch r repo r.spec.target.existing_pvc_name

  -- another restore goes first; backups give way
  unfoldable pub unless_restoring : PvcRestore → BackupRepository → List SessionHolder → M Outcome
  unfolding prepare_restore interrupt_holders
  unless_restoring r repo holders =
      if is_empty (holders_of_kind false holders)
      then (do
        e ← interrupt_holders r (holders_of_kind true holders)
        on_option e (λ x. pure (stopped x)) (prepare_restore r repo))
      else pure (come_back (30 * second))

  unfoldable pub start_restic_restore : PvcRestore → M Outcome
  unfolding unless_restoring
  start_restic_restore r = do
    got ←
        ask env.repository
          (Event.get_repository (ref_key r.spec.repository_ref r.metadata.namespace))
    on_result got (λ e. fail_restore r e)
        (λ repo. do
          hs ←
              list_pvc_session_holders (restore_pvc_keys r) HolderKind.restore (key_of r.metadata)
                env
          on_result hs (λ e. pure (stopped e)) (λ holders. unless_restoring r repo holders))
