-- ===== src/Tests.antt =====
-- The theorems at concrete inputs.
pub mod Runs
pub mod Restores
pub mod Hosts
pub mod Links
pub mod Clusters
pub mod Syncs
pub mod Registry
pub mod Concurrent
pub mod Races
pub mod Mcp
use backrest_operator.Prelude.{
  ℕ, suc, ◌+◌, ◌≤◌, ◌<◌, ◌≡◌, ◌≢◌, refl, ◌↔◌, ◌⊎◌, inl, inr, Bytes, bytes, Bool, true, false,
  Option, none, some, List, [], ◌∷◌, ◌++◌, arith, In, All, length, starts_with, ◌==◌,
}
use backrest_operator.Prelude.Int.{ℤ, pos}
use backrest_operator.Api.{Phase, PipelineStep, Key, PvcBackup, PvcRestore, key_of}
use backrest_operator.Effects.{
  plain_error, ask, Event, Trace, Workload, stateful_set, deployment, ok,
}
use backrest_operator.Examples.{
  meta, web, db, backup, rival, repo, job_at, jobs, start, env, contested, env_with-IsCluster,
  start_small, time_after, at_100,
}
use backrest_operator.Shell.{
  plan_tag, instance_tag, restic_backup_job_script, restic_restore_job_script, prune_job_script,
}
use backrest_operator.Shell.Lexer.{tokens}
use backrest_operator.Shell.Laws.{words, flagged}
use backrest_operator.Prelude.Dict.{text_at, lookup}
use backrest_operator.Shell.Scripts.{
  unlock_tokens, init_tokens, backup_command, forget_command, or_true, retention_tokens,
  tokens-restic_backup_job_script, tokens-restic_restore_job_script,
}
use backrest_operator.Webhook.{
  validate_backup, validate_steps, validate_step, validate_leave_down, leave_down_annotation,
}
use backrest_operator.Webhook.Laws.{IsAdmissible, validate_backup_iff}
use backrest_operator.Filters.{namespace_allowed}
use backrest_operator.Session.{
  list_pvc_session_holders, session_holders, pvc_key, pvc_keys_overlap, pvc_session_busy,
  HolderKind, backup_pvc_keys,
}
use backrest_operator.Session.Laws.{AreFree, busy_none}
use backrest_operator.Backup.Spec.{pvc_list, force_run_pending}
use backrest_operator.Backup.Host.{sanitize_id}
use backrest_operator.Backup.Host.Laws.{IsIdByte}
use backrest_operator.Backup.Schedule.{schedule_due, requeue_for_schedule, schedule_from}
use backrest_operator.Backup.Schedule.Laws.{CountsFrom, created_at, schedule_due-CountsFrom}
use backrest_operator.Backup.Outcomes.{stamp, mark_failed}
use backrest_operator.Backup.Poll.{mark_succeeded}
use backrest_operator.Backup.Jobs.{job_name}
use backrest_operator.Backup.Jobs.Names.{job_name_lem}
use backrest_operator.Backup.Quiesce.{quiesce, unquiesce, release_quiesce}
use backrest_operator.Backup.Quiesce.Cluster.{current}
use backrest_operator.Backup.Quiesce.Split.{Lacks}
use backrest_operator.Backup.Quiesce.Restores.{
  IsScalable, AreDistinct, unquiesce-quiesce, workload_key,
}
use backrest_operator.Backup.Quiesce.Release.{release_quiesce-unrecorded}
use backrest_operator.Backup.Run.Snapshot.{wait_snapshot_ready, ready_rounds, snapshot_timeout}
use backrest_operator.Backup.Run.Fuel.{IsClock, now_at}

abbrev paths : List Bytes
paths = bytes "/data/it's" ∷ []

abbrev excludes : List Bytes
excludes = bytes "*.tmp; rm -rf /" ∷ []

tokens-restic_backup_job_script_example :
    tokens (restic_backup_job_script paths excludes (bytes "plan") (bytes "$(id)") (some (pos 3)))
    ≡ some (
        unlock_tokens
        ++ init_tokens
        ++ (words backup_command
            ++ (words paths
                ++ (flagged (bytes "--exclude") excludes
                    ++ (flagged
                          (bytes "--tag")
                          (plan_tag (bytes "plan") ∷ instance_tag (bytes "$(id)") ∷ [])
                        ++ retention_tokens (some (pos 3)))))))
tokens-restic_backup_job_script_example =
    tokens-restic_backup_job_script paths excludes (bytes "plan") (bytes "$(id)") (some (pos 3))

tokens-restic_restore_job_script_example :
    tokens (restic_restore_job_script (bytes "latest'") excludes)
    ≡ some (
        unlock_tokens
        ++ words (
            bytes "restic"
            ∷ bytes "restore"
            ∷ bytes "--json"
            ∷ bytes "--retry-lock"
            ∷ bytes "5m"
            ∷ bytes "latest'"
            ∷ bytes "--target"
            ∷ bytes "/data"
            ∷ [])
        ++ flagged (bytes "--include") excludes)
tokens-restic_restore_job_script_example =
    tokens-restic_restore_job_script (bytes "latest'") excludes

validate_backup_iff_example : (validate_backup backup ≡ none) ↔ IsAdmissible backup
validate_backup_iff_example = validate_backup_iff backup

busy_none_example :
    (bs : List PvcBackup) × (rs : List PvcRestore) × (env.backups (Event.list_backups ∷ []) ≡ ok bs)
    × (env.restores (Event.list_restores ∷ Event.list_backups ∷ []) ≡ ok rs)
    × AreFree (backup_pvc_keys backup) (key_of backup.metadata) bs rs
unfolding pvc_session_busy list_pvc_session_holders session_holders backup_pvc_keys pvc_key pvc_list
    bytes ask
busy_none_example =
    busy_none (backup_pvc_keys backup) (key_of backup.metadata) env [] (λ e. cc e) refl

job_name_lem_example :
    (length (job_name (bytes "pvcbackup-") (bytes "home") 20) ≤ 63)
    × ((starts_with
            (job_name (bytes "pvcbackup-") (bytes "home") 20)
            (bytes "pvcbackup-" ++ (bytes "home" ++ b'-' ∷ []))
          ≡ true)
        ↔ (length (bytes "pvcbackup-") + length (bytes "home") + 1 ≤ 63))
job_name_lem_example = job_name_lem (bytes "pvcbackup-") (bytes "home") 20

schedule_due-CountsFrom_example :
    CountsFrom env (mark_succeeded backup (stamp 7000000009)) at_100 (some 7000000000) []
    × CountsFrom env
        (mark_failed backup (stamp 7000000009) (plain_error []))
        at_100
        (some 7000000000)
        []
    × CountsFrom env (created_at backup 7) at_100 (some 7000000000) []
unfolding force_run_pending text_at lookup
schedule_due-CountsFrom_example =
    schedule_due-CountsFrom env [] backup at_100 7000000009 (plain_error []) refl refl
