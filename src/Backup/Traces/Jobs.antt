-- ===== src/Backup/Traces/Jobs.antt =====
-- Which Jobs a reconcile of a PVCBackup makes.
use backrest_operator.Prelude.{ℕ, Bytes, List}
use backrest_operator.Api.{Phase, Key, PvcBackup}
use backrest_operator.Effects.{Env, Trace, M, Outcome}
use backrest_operator.Effects.Keeps.{Keeps, keeps_rules}
use backrest_operator.Backup.Reconcile.Prune.{poll_named}
use backrest_operator.Backup.Reconcile.{
  cleanup_legacy_schedule_resources, claim_and_run, wait_for_slot, scheduled_run, maybe_run,
  unless_pruning, adopt_backup_job, unless_failed, adopt_prune_job, dispatch, reconcile_claims,
  reconcile_live, reconcile_deleted, reconcile,
}
use backrest_operator.Backup.Traces.Prune.{start_prune-Keeps}
use backrest_operator.Backup.Traces.Runs.{
  Guarded, guarded_rules, start_run-Keeps, create_restic_prune_job-Keeps,
}

module _ (env : Env) (t : Trace) where
  poll_named-Keeps :
      (b : PvcBackup) (p : Phase) (n : Bytes) (poll : PvcBackup → M Outcome)
      → ((c : PvcBackup) → Keeps (Guarded env t) (poll c))
      → Keeps (Guarded env t) (poll_named env b p n poll)
  unfolding poll_named
  poll_named-Keeps b p n poll k = search guarded_rules

  cleanup-Keeps : (b : PvcBackup) → Keeps (Guarded env t) (cleanup_legacy_schedule_resources env b)
  unfolding cleanup_legacy_schedule_resources
  cleanup-Keeps b = search guarded_rules depth 9

  claim_and_run-Keeps :
      (b : PvcBackup) (ps : List Bytes) → Keeps (Guarded env t) (claim_and_run env b ps)
  unfolding claim_and_run
  claim_and_run-Keeps b ps = search (guarded_rules, start_run-Keeps)

  wait_for_slot-Keeps : (b : PvcBackup) (n : ℕ) → Keeps (Guarded env t) (wait_for_slot env b n)
  unfolding wait_for_slot
  wait_for_slot-Keeps b n = search guarded_rules

  scheduled_run-Keeps :
      (b : PvcBackup) (ps : List Bytes) → Keeps (Guarded env t) (scheduled_run env b ps)
  unfolding scheduled_run
  scheduled_run-Keeps b ps =
      search (guarded_rules, claim_and_run-Keeps, wait_for_slot-Keeps) depth 9

  maybe_run-Keeps : (b : PvcBackup) (ps : List Bytes) → Keeps (Guarded env t) (maybe_run env b ps)
  unfolding maybe_run
  maybe_run-Keeps b ps = search (keeps_rules, scheduled_run-Keeps, claim_and_run-Keeps)

  unless_pruning-Keeps :
      (b : PvcBackup) (ps : List Bytes) → Keeps (Guarded env t) (unless_pruning env b ps)
  unfolding unless_pruning
  unless_pruning-Keeps b ps = search (guarded_rules, maybe_run-Keeps)

  adopt_backup_job-Keeps :
      (b : PvcBackup) (ps : List Bytes) → Keeps (Guarded env t) (adopt_backup_job env b ps)
  unfolding adopt_backup_job
  adopt_backup_job-Keeps b ps =
      search (guarded_rules, poll_named-Keeps, unless_pruning-Keeps) depth 9

  unless_failed-Keeps :
      (b : PvcBackup) (ps : List Bytes) → Keeps (Guarded env t) (unless_failed env b ps)
  unfolding unless_failed
  unless_failed-Keeps b ps = search (keeps_rules, adopt_backup_job-Keeps)

  adopt_prune_job-Keeps :
      (b : PvcBackup) (ps : List Bytes) → Keeps (Guarded env t) (adopt_prune_job env b ps)
  unfolding adopt_prune_job
  adopt_prune_job-Keeps b ps = search (guarded_rules, poll_named-Keeps, unless_failed-Keeps) depth 9

  dispatch-Keeps : (b : PvcBackup) (ps : List Bytes) → Keeps (Guarded env t) (dispatch env b ps)
  unfolding dispatch
  dispatch-Keeps b ps =
      search
        (
          guarded_rules,
          start_prune-Keeps,
          create_restic_prune_job-Keeps env t,
          adopt_prune_job-Keeps,
        )
        depth 9

  reconcile_claims-Keeps : (b : PvcBackup) → Keeps (Guarded env t) (reconcile_claims env b)
  unfolding reconcile_claims
  reconcile_claims-Keeps b = search (guarded_rules, cleanup-Keeps, dispatch-Keeps)

  reconcile_live-Keeps : (b : PvcBackup) → Keeps (Guarded env t) (reconcile_live env b)
  unfolding reconcile_live
  reconcile_live-Keeps b = search (guarded_rules, reconcile_claims-Keeps) depth 9

  reconcile_deleted-Keeps : (b : PvcBackup) → Keeps (Guarded env t) (reconcile_deleted env b)
  unfolding reconcile_deleted
  reconcile_deleted-Keeps b = search guarded_rules depth 12

  reconcile-Keeps : (k : Key) → Keeps (Guarded env t) (reconcile env k)
  unfolding reconcile
  reconcile-Keeps k = search (guarded_rules, reconcile_live-Keeps, reconcile_deleted-Keeps) depth 12

  -- Whatever the cluster answers, every Job that a reconcile of a PVCBackup makes is a prune Job,
  -- which mounts no claim, or a backup Job that was made right after a check of its backup's
  -- session which found nobody.
  pub reconcile-Guarded : (k : Key) → Guarded env t (reconcile env k t).1
  reconcile-Guarded k = (reconcile-Keeps k).at t Guarded.start
