-- ===== src/Backup/Traces/Scaling.antt =====
-- Parts of the PVCBackup controller that touch workloads, and make no Job.
use backrest_operator.Prelude.{
  ltb, or_text, Bytes, Bool, true, false, Option, some, List, zero, suc, [], ◌∷◌, ℕ,
}
use backrest_operator.Prelude.Int.{ℤ, pos}
use backrest_operator.Prelude.Dict.{insert}
use backrest_operator.Backup.Quiesce.Split.{split3}
use backrest_operator.Api.{Key, PvcBackup, QuiesceTarget}
use backrest_operator.Effects.{Env, Error, Event, Trace, M, ask, pure, on_option, Workload}
use backrest_operator.Effects.Keeps.{Keeps, Kind, Ignores, Keeps-bind, keeps_rules}
use backrest_operator.Backup.Quiesce.{
  scale_controller, scale_pod, scale_workload, quiesce_from, quiesce, unquiesce, unquiesce_parts,
  target_key, release_quiesce,
}
use backrest_operator.Backup.Quiesce.Wait.{
  delete_again, still_there, wait_round, wait_rounds, wait_pod_deleted,
}
use backrest_operator.Backup.Outcomes.{fail_again, fail_first, fail}
use backrest_operator.Backup.Poll.{
  backup_succeeded, poll_backup_job, cancel_run, handle_force_cancel,
}
use backrest_operator.Backup.Traces.Plain.{
  requeue_for_schedule-Keeps, clear_quiesce_annotation-Keeps, update_status-Keeps, fail_prune-Keeps,
  sync_after_run-Keeps, finish_run-Keeps, delete_current_job-Keeps,
}

module _ (env : Env) {I : Trace → Type 0} (plain : Ignores I Kind.plain)
    (touches : Ignores I Kind.touches_workload) where
  delete_again-Keeps : (k : Key) (b : Bool) → Keeps I (delete_again env k b)
  unfolding delete_again
  delete_again-Keeps k true = search keeps_rules
  delete_again-Keeps k false = search keeps_rules

  still_there-Keeps :
      (k : Key) (b : Bool) (m : M (Option Error)) → Keeps I m → Keeps I (still_there env k b m)
  unfolding still_there
  still_there-Keeps k b m h = search (keeps_rules, delete_again-Keeps) depth 9

  wait_round-Keeps :
      (k : Key) (b : Bool) (m : M (Option Error)) → Keeps I m → Keeps I (wait_round env k b m)
  unfolding wait_round
  wait_round-Keeps k b m h = search (keeps_rules, still_there-Keeps) depth 9

  wait_rounds-Keeps : (k : Key) (deadline fuel : ℕ) → Keeps I (wait_rounds env k deadline fuel)
  unfolding wait_rounds
  wait_rounds-Keeps k deadline zero = search keeps_rules
  wait_rounds-Keeps k deadline (suc fuel) =
      Keeps-bind (ask env.clock Event.read_clock)
        (λ now. wait_round env k (ltb now deadline) (wait_rounds env k deadline fuel))
        (search keeps_rules)
        (λ now. wait_round-Keeps k (ltb now deadline) _ (wait_rounds-Keeps k deadline fuel))

  wait_pod_deleted-Keeps : (k : Key) (n : ℕ) → Keeps I (wait_pod_deleted env k n)
  unfolding wait_pod_deleted
  wait_pod_deleted-Keeps k n = search (keeps_rules, wait_rounds-Keeps)

  scale_controller-Keeps : (w : Workload) (k : Key) (n : ℤ) → Keeps I (scale_controller env w k n)
  unfolding scale_controller
  scale_controller-Keeps w k n = search keeps_rules

  scale_pod-Keeps : (k : Key) (n : ℤ) → Keeps I (scale_pod env k n)
  unfolding scale_pod
  scale_pod-Keeps k n = search (keeps_rules, wait_pod_deleted-Keeps) depth 12

  pub scale_workload-Keeps : (k n m : Bytes) (r : ℤ) → Keeps I (scale_workload env k n m r)
  unfolding scale_workload
  scale_workload-Keeps k n m r =
      search (keeps_rules, scale_pod-Keeps, scale_controller-Keeps) depth 9

  pub quiesce_from-Keeps :
      (d : Bytes) (s : List (Bytes × ℤ)) (ts : List QuiesceTarget)
      → Keeps I (quiesce_from env d s ts)
  unfolding quiesce_from
  quiesce_from-Keeps d s [] = search keeps_rules
  quiesce_from-Keeps d s (t ∷ ts) =
      Keeps-bind (scale_workload env t.kind (or_text t.namespace d) t.name (pos 0))
        (λ r.
          on_option r.1 (λ e. pure (s, some e))
            (quiesce_from env d (insert (target_key t d) r.0 s) ts))
        (search scale_workload-Keeps)
        (λ r. search (keeps_rules, quiesce_from-Keeps d (insert (target_key t d) r.0 s) ts))

  pub quiesce-Keeps : (b : PvcBackup) → Keeps I (quiesce env b)
  unfolding quiesce
  quiesce-Keeps b = search quiesce_from-Keeps

  unquiesce_parts-Keeps : (ps : List Bytes) (n : ℤ) → Keeps I (unquiesce_parts env ps n)
  unquiesce_parts-Keeps (k ∷ n ∷ m ∷ []) r = search scale_workload-Keeps
  unquiesce_parts-Keeps [] r = search keeps_rules
  unquiesce_parts-Keeps (k ∷ []) r = search keeps_rules
  unquiesce_parts-Keeps (k ∷ n ∷ []) r = search keeps_rules
  unquiesce_parts-Keeps (k ∷ n ∷ m ∷ x ∷ xs) r = search keeps_rules

  pub unquiesce-Keeps : (s : List (Bytes × ℤ)) → Keeps I (unquiesce env s)
  unfolding unquiesce
  unquiesce-Keeps [] = search keeps_rules
  unquiesce-Keeps ((k, n) ∷ s) =
      Keeps-bind (unquiesce_parts env (split3 k) n) (λ _. unquiesce env s)
        (unquiesce_parts-Keeps (split3 k) n) (λ _. unquiesce-Keeps s)

  pub release_quiesce-Keeps : (b : PvcBackup) → Keeps I (release_quiesce env b)
  unfolding release_quiesce
  release_quiesce-Keeps b =
      search (keeps_rules, unquiesce-Keeps, clear_quiesce_annotation-Keeps env plain)

  fail_again-Keeps : (b : PvcBackup) → Keeps I (fail_again env b)
  unfolding fail_again
  fail_again-Keeps b =
      search (keeps_rules, release_quiesce-Keeps, requeue_for_schedule-Keeps env plain)

  fail_first-Keeps : (b : PvcBackup) (e : Error) → Keeps I (fail_first env b e)
  unfolding fail_first
  fail_first-Keeps b e =
      search
        (
          keeps_rules,
          release_quiesce-Keeps,
          requeue_for_schedule-Keeps env plain,
          update_status-Keeps env plain,
        )
        depth 12

  pub fail-Keeps : (b : PvcBackup) (e : Error) → Keeps I (fail env b e)
  unfolding fail
  fail-Keeps b e = search (keeps_rules, fail_again-Keeps, fail_first-Keeps)

  backup_succeeded-Keeps : (b : PvcBackup) → Keeps I (backup_succeeded env b)
  unfolding backup_succeeded
  backup_succeeded-Keeps b =
      search
        (
          keeps_rules,
          release_quiesce-Keeps,
          sync_after_run-Keeps env plain,
          finish_run-Keeps env plain,
        )
        depth 12

  pub poll_backup_job-Keeps : (b : PvcBackup) → Keeps I (poll_backup_job env b)
  unfolding poll_backup_job
  poll_backup_job-Keeps b = search (keeps_rules, backup_succeeded-Keeps, fail-Keeps) depth 9

  cancel_run-Keeps : (b : PvcBackup) → Keeps I (cancel_run env b)
  unfolding cancel_run
  cancel_run-Keeps b =
      search (keeps_rules, fail_prune-Keeps env plain, fail-Keeps, update_status-Keeps env plain)
        depth 9

  pub handle_force_cancel-Keeps : (b : PvcBackup) → Keeps I (handle_force_cancel env b)
  unfolding handle_force_cancel
  handle_force_cancel-Keeps b =
      search (keeps_rules, delete_current_job-Keeps env plain, cancel_run-Keeps)
