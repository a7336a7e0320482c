-- ===== src/Backup/Traces/Plain.antt =====
-- Parts of the PVCBackup controller that neither make a Job nor touch a workload.
use backrest_operator.Prelude.{Bytes, List}
use backrest_operator.Prelude.Int.{ℤ}
use backrest_operator.Api.{PvcBackup, BackupRepository}
use backrest_operator.Effects.{Env, Error, Trace}
use backrest_operator.Effects.Keeps.{Keeps, Kind, Ignores, keeps_rules}
use backrest_operator.Backup.Schedule.{schedule_due, requeue_for_schedule}
use backrest_operator.Backup.Quiesce.{
  patch_annotation, clear_quiesce_annotation, persist_quiesce_state,
}
use backrest_operator.Backup.Host.{
  sync_pvc_backup_plan_to_host, sync_after_run, remove_pvc_backup_plan_from_host,
}
use backrest_operator.Backup.Jobs.{instance_of}
use backrest_operator.Backup.Jobs.Adopt.{find_owned_backup_job, find_owned_prune_job}
use backrest_operator.Backup.Secrets.{mirror_secret, ensure_repo_secrets}
use backrest_operator.Backup.Outcomes.{update_status, fail_prune}
use backrest_operator.Backup.Poll.{finish_run, prune_succeeded, poll_prune_job, delete_current_job}

module _ (env : Env) {I : Trace → Type 0} (plain : Ignores I Kind.plain) where
  pub schedule_due-Keeps : (b : PvcBackup) → Keeps I (schedule_due env b)
  unfolding schedule_due
  schedule_due-Keeps b = search keeps_rules

  pub requeue_for_schedule-Keeps : (b : PvcBackup) → Keeps I (requeue_for_schedule env b)
  unfolding requeue_for_schedule
  requeue_for_schedule-Keeps b = search (keeps_rules, schedule_due-Keeps)

  pub patch_annotation-Keeps : (b : PvcBackup) (k v : Bytes) → Keeps I (patch_annotation env b k v)
  unfolding patch_annotation
  patch_annotation-Keeps b k v = search keeps_rules

  pub clear_quiesce_annotation-Keeps : (b : PvcBackup) → Keeps I (clear_quiesce_annotation env b)
  unfolding clear_quiesce_annotation
  clear_quiesce_annotation-Keeps b = search (keeps_rules, patch_annotation-Keeps)

  pub persist_quiesce_state-Keeps :
      (b : PvcBackup) (s : List (Bytes × ℤ)) → Keeps I (persist_quiesce_state env b s)
  unfolding persist_quiesce_state
  persist_quiesce_state-Keeps b s = search (keeps_rules, patch_annotation-Keeps)

  pub sync_pvc_backup_plan_to_host-Keeps :
      (b : PvcBackup) (r : BackupRepository) → Keeps I (sync_pvc_backup_plan_to_host env b r)
  unfolding sync_pvc_backup_plan_to_host
  sync_pvc_backup_plan_to_host-Keeps b r = search keeps_rules depth 9

  pub sync_after_run-Keeps : (b : PvcBackup) → Keeps I (sync_after_run env b)
  unfolding sync_after_run
  sync_after_run-Keeps b = search (keeps_rules, sync_pvc_backup_plan_to_host-Keeps)

  pub remove_pvc_backup_plan_from_host-Keeps :
      (b : PvcBackup) → Keeps I (remove_pvc_backup_plan_from_host env b)
  unfolding remove_pvc_backup_plan_from_host
  remove_pvc_backup_plan_from_host-Keeps b = search keeps_rules

  pub mirror_secret-Keeps : (a b n : Bytes) → Keeps I (mirror_secret env a b n)
  unfolding mirror_secret
  mirror_secret-Keeps a b n = search keeps_rules depth 9

  pub ensure_repo_secrets-Keeps :
      (n : Bytes) (r : BackupRepository) → Keeps I (ensure_repo_secrets env n r)
  unfolding ensure_repo_secrets
  ensure_repo_secrets-Keeps n r = search (keeps_rules, mirror_secret-Keeps) depth 9

  pub update_status-Keeps : (b : PvcBackup) → Keeps I (update_status env b)
  unfolding update_status
  update_status-Keeps b = search keeps_rules

  pub fail_prune-Keeps : (b : PvcBackup) (e : Error) → Keeps I (fail_prune env b e)
  unfolding fail_prune
  fail_prune-Keeps b e =
      search (keeps_rules, requeue_for_schedule-Keeps, update_status-Keeps) depth 9

  pub finish_run-Keeps : (b : PvcBackup) → Keeps I (finish_run env b)
  unfolding finish_run
  finish_run-Keeps b = search (keeps_rules, requeue_for_schedule-Keeps, update_status-Keeps)

  pub prune_succeeded-Keeps : (b : PvcBackup) → Keeps I (prune_succeeded env b)
  unfolding prune_succeeded
  prune_succeeded-Keeps b = search (keeps_rules, sync_after_run-Keeps, finish_run-Keeps)

  pub poll_prune_job-Keeps : (b : PvcBackup) → Keeps I (poll_prune_job env b)
  unfolding poll_prune_job
  poll_prune_job-Keeps b = search (keeps_rules, prune_succeeded-Keeps, fail_prune-Keeps) depth 9

  pub delete_current_job-Keeps : (b : PvcBackup) → Keeps I (delete_current_job env b)
  unfolding delete_current_job
  delete_current_job-Keeps b = search keeps_rules

  pub find_owned_backup_job-Keeps : (b : PvcBackup) → Keeps I (find_owned_backup_job env b)
  unfolding find_owned_backup_job
  find_owned_backup_job-Keeps b = search keeps_rules

  pub find_owned_prune_job-Keeps : (b : PvcBackup) → Keeps I (find_owned_prune_job env b)
  unfolding find_owned_prune_job
  find_owned_prune_job-Keeps b = search keeps_rules

  pub instance_of-Keeps : (b : PvcBackup) → Keeps I (instance_of env b)
  unfolding instance_of
  instance_of-Keeps b = search keeps_rules depth 9
