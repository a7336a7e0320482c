-- ===== src/Tests/Restores.antt =====
-- The theorems on traces, restores and waits, at a small cluster.
use backrest_operator.Prelude.{
  ◌≡◌, refl, Bytes, bytes, false, some, [], ◌∷◌, arith, In, is_empty, Option, subst,
}
use backrest_operator.Prelude.Int.{pos}
use backrest_operator.Api.{key_of, PvcBackup, PvcRestore}
use backrest_operator.Effects.{Event, Trace, Error, ask, ok}
use backrest_operator.Prelude.Dict.{lookup}
use backrest_operator.Examples.{env, backup}
use backrest_operator.Examples.Restores.{mine, env_versioned, version, env-IsVersioned}
use backrest_operator.Backup.Jobs.Adopt.{find_owned_backup_job}
use backrest_operator.Backup.Poll.{delete_current_job, job_key}
use backrest_operator.Backup.Reconcile.{reconcile}
use backrest_operator.Backup.Reconcile.Prune.{start_prune}
use backrest_operator.Backup.Traces.Runs.{Guarded}
use backrest_operator.Backup.Traces.Jobs.{reconcile-Guarded}
use backrest_operator.Backup.Traces.Prune.{Untouched, start_prune-Untouched}
use backrest_operator.Restore.Quiesce.{persist_restore_quiesce}
use backrest_operator.Restore.Run.{poll_restore_job, interrupt_backup, update_restore_status}
use backrest_operator.Restore.Laws.Down.{poll_restore_job-Untouched, interrupt_backup-deletes}
use backrest_operator.Restore.Laws.Conflict.{IsNews, Later, persist_restore_quiesce-conflicts}

reconcile-Guarded_example : Guarded env [] (reconcile env (key_of backup.metadata) []).1
reconcile-Guarded_example = reconcile-Guarded env [] (key_of backup.metadata)

start_prune-Untouched_example : Untouched [] (start_prune env backup []).1
start_prune-Untouched_example = start_prune-Untouched env [] backup

poll_restore_job-Untouched_example : Untouched [] (poll_restore_job env mine []).1
poll_restore_job-Untouched_example = poll_restore_job-Untouched env mine [] (λ job e. cc)

-- a backup whose status names a Job
abbrev busy : PvcBackup
busy = record backup {
  status = record (backup.status) { last_job_name = bytes "pvcbackup-home-20" };
}

interrupt_backup-deletes_example :
    (is_empty busy.status.last_job_name ≡ false
      → In (Event.delete_job (job_key busy)) (interrupt_backup env busy (bytes "restore") []).1)
    × ((name : Bytes)
        → (find_owned_backup_job env busy (delete_current_job env busy []).1).0 ≡ some name
        → In
            (Event.delete_job (record { namespace = busy.metadata.namespace; name = name }))
            (interrupt_backup env busy (bytes "restore") []).1)
interrupt_backup-deletes_example = interrupt_backup-deletes env busy (bytes "restore") []

-- the object that is read says nothing about replicas
news :
    (c : PvcRestore)
    → env_versioned.restore (Event.get_restore (key_of mine.metadata) ∷ []) ≡ ok c
    → IsNews env_versioned version env-IsVersioned ((bytes "web", pos 3) ∷ []) c
unfolding lookup
news c e =
    let same : mine ≡ c = cc in
    subst (IsNews env_versioned version env-IsVersioned ((bytes "web", pos 3) ∷ [])) same (λ h. cc)

abbrev persisted : (PvcRestore × Option Error) × Trace
persisted = persist_restore_quiesce env_versioned mine ((bytes "web", pos 3) ∷ []) []

persist_restore_quiesce-conflicts_example :
    (e : Error) × ((update_restore_status env_versioned mine persisted.1).0 ≡ (mine, some e))
unfolding persist_restore_quiesce version ask
persist_restore_quiesce-conflicts_example =
    persist_restore_quiesce-conflicts env_versioned version env-IsVersioned mine
      (bytes "web", pos 3) [] [] (omega arith) (λ c e. news c e) refl mine persisted.1 refl
      Later.now
