-- ===== src/Backup/Reconcile/Prune.antt =====
-- The force-prune path of Reconcile, and the adoption of a Job that is already there.
use backrest_operator.Prelude.{
  ◌*◌, ◌/◌, Bytes, bytes, true, false, Option, none, some, if◌then◌else◌,
}
use backrest_operator.Prelude.Int.{ℤ, is_positive}
use backrest_operator.Prelude.Dict.{text_at}
use backrest_operator.Api.{Phase, PvcBackup, BackupRepository}
use backrest_operator.Effects.{
  on_result, on_option, Env, Error, plain_error, Event, M, pure, ask, ◌>>=◌, Outcome,
}
use backrest_operator.Backup.Spec.{force_prune_key, backup_phase_in_flight, repository_key}
use backrest_operator.Backup.Schedule.{second}
use backrest_operator.Backup.Jobs.{job_name, create_restic_prune_job}
use backrest_operator.Backup.Secrets.{ensure_repo_secrets}
use backrest_operator.Backup.Outcomes.{update_status, fail_prune}
use backrest_operator.Backup.Poll.{come_back, stopped, requeued, claim, poll_prune_job}
use backrest_operator.Backup.Run.Snapshot.{set_phase}

abbrev pub with_job : PvcBackup → Bytes → PvcBackup
with_job b name = record b { status = record (b.status) { last_job_name = name } }

abbrev pub claim_prune : PvcBackup → PvcBackup
claim_prune b = record b {
  status = record (b.status) {
    last_force_prune =
        claim (text_at force_prune_key b.metadata.annotations) b.status.last_force_prune;
  };
}

abbrev pub keep_last_required : Error
keep_last_required = plain_error (bytes "spec.retention.keepLast required for prune (must be > 0)")

-- `KeepLast != nil && *KeepLast > 0`
abbrev pub usable_keep_last : Option ℤ → Option ℤ
usable_keep_last none = none
usable_keep_last (some k) = elim (is_positive k) [ true ↦ some k | false ↦ none ]

module _ (env : Env) where
  -- the status is pointed at the Job; a failed write is tried again by another reconcile
  unfoldable pub poll_named : PvcBackup → Phase → Bytes → (PvcBackup → M Outcome) → M Outcome
  unfolding update_status
  poll_named b phase name poll = do
    u ← update_status env (with_job (set_phase b phase) name)
    on_option u.1 (λ e. pure (requeued none)) (poll u.0)

  unfoldable pub launch_prune : PvcBackup → BackupRepository → ℤ → M Outcome
  launch_prune b repo keep_last = do
    started ← ask env.clock Event.read_clock
    let name = job_name (bytes "pvcbackup-prune-") b.metadata.name (started / second)
    e ← create_restic_prune_job env b repo name keep_last
    on_option e (λ x. fail_prune env b x)
        (do
          u ← update_status env (with_job b name)
          on_option u.1 (λ x. pure (requeued none)) (poll_prune_job env u.0))

  unfoldable pub prune_with : PvcBackup → ℤ → M Outcome
  prune_with b keep_last = do
    u ← update_status env (set_phase (claim_prune b) Phase.pruning)
    on_option u.1 (λ e. pure (stopped e))
        (do
          r ← ask env.repository (Event.get_repository (repository_key u.0))
          on_result r (λ e. fail_prune env u.0 e)
              (λ repo. do
                s ← ensure_repo_secrets env u.0.metadata.namespace repo
                on_option s (λ e. fail_prune env u.0 e) (launch_prune u.0 repo keep_last)))

  unfoldable pub start_prune : PvcBackup → M Outcome
  start_prune b =
      if backup_phase_in_flight b.status.phase
      then pure (come_back (30 * second))
      else on_option (usable_keep_last b.spec.keep_last) (λ k. prune_with b k)
          (do u ← update_status env (claim_prune b); fail_prune env u.0 keep_last_required)
