-- ===== src/Backup/Run.antt =====
-- A backup run, from the repository to the restic Job: the last part of Reconcile.
pub mod Snapshot
pub mod Fuel
pub mod Busy
use backrest_operator.Prelude.{
  ℕ, ◌/◌, ◌*◌, Bytes, bytes, Bool, true, false, ◌||◌, not, ◌&&◌, Option, none, some, List, [], ◌∷◌,
  ◌++◌, is_empty, any, if◌then◌else◌,
}
use backrest_operator.Prelude.Int.{ℤ}
use backrest_operator.Api.{Phase, PipelineStep, Key, PvcBackup, BackupRepository, key_of, is_failed}
use backrest_operator.Effects.{
  on_result, on_option, is_not_found, Env, Result, ok, err, Error, Event, M, pure, ask, ◌>>=◌, ◌>>◌,
  Outcome,
}
use backrest_operator.Session.{HolderKind, SessionHolder, backup_pvc_keys, pvc_session_busy}
use backrest_operator.Backup.Spec.{repository_key}
use backrest_operator.Backup.Schedule.{second}
use backrest_operator.Backup.Quiesce.{quiesce, unquiesce, persist_quiesce_state}
use backrest_operator.Backup.Jobs.{job_name, create_restic_backup_job}
use backrest_operator.Backup.Secrets.{ensure_repo_secrets}
use backrest_operator.Backup.Outcomes.{update_status, fail, failed_already}
use backrest_operator.Backup.Poll.{finished, come_back, stopped, requeued, poll_backup_job}
use Snapshot.{set_phase, pipeline_steps}

-- What the deferred function reads when the run returns: the object, the replicas that were taken
-- away, and whether the Job keeps the workloads down.
pub record RunEnd : Type 0 where
  pub outcome : Outcome
  pub backup : PvcBackup
  pub state : List (Bytes × ℤ)
  pub hold : Bool

-- `pipeline = []string{"quiescedLive"}` if none is given
unfoldable pub pipeline_of : PvcBackup → List PipelineStep
pipeline_of b = elim b.spec.pipeline [ [] ↦ PipelineStep.quiesced_live ∷ [] | s ∷ r ↦ s ∷ r ]

abbrev is_quiesced_live : PipelineStep → Bool
is_quiesced_live PipelineStep.quiesced_live = true
is_quiesced_live _ = false

unfoldable pub need_quiesce : PvcBackup → Bool
unfolding pipeline_of
need_quiesce b = b.spec.quiesce.enabled || any is_quiesced_live (pipeline_of b)

abbrev pub session_wait : ℕ
session_wait = 30 * second

module _ (env : Env) where
  abbrev pub leave : PvcBackup → List (Bytes × ℤ) → Outcome → M RunEnd
  leave b state out = pure (record { outcome = out; backup = b; state = state; hold = false })

  -- return r.fail(…)
  unfoldable pub abort : PvcBackup → List (Bytes × ℤ) → Error → M RunEnd
  abort b state e = do r ← fail env b e; leave r.0 state r.1

  abbrev pub self_busy : PvcBackup → M (Result (Option (List SessionHolder)))
  self_busy b = pvc_session_busy (backup_pvc_keys b) HolderKind.backup (key_of b.metadata) env

  -- after the check: an error, a wait for the holder, or the rest of the run
  abbrev pub unless_busy :
      PvcBackup → List (Bytes × ℤ) → M RunEnd → Result (Option (List SessionHolder)) → M RunEnd
  unless_busy b state next (err e) = leave b state (stopped e)
  unless_busy b state next (ok (some hs)) = leave b state (come_back session_wait)
  unless_busy b state next (ok none) = next

  -- a failed write of the status is tried again by another reconcile, which finds the Job
  abbrev pub after_status : PvcBackup × Option Error → M Outcome
  after_status (b, some e) = pure (requeued none)
  after_status (b, none) = poll_backup_job env b

  -- from here on the Job exists, and the workloads stay down
  unfoldable pub after_job_create : PvcBackup → List (Bytes × ℤ) → Bytes → M RunEnd
  unfolding update_status
  after_job_create b state name = do
    p ← persist_quiesce_state env b state
    let c = p.0
    u ← update_status env (record c { status = record (c.status) { last_job_name = name } })
    out ← after_status u
    pure (record { outcome = out; backup = u.0; state = state; hold = true })

  unfoldable pub launch_job :
      PvcBackup → BackupRepository → List (Bytes × ℤ) → List Bytes → ℕ → M RunEnd
  unfolding after_job_create
  launch_job b repo state upload unix =
      let name = job_name (bytes "pvcbackup-") b.metadata.name unix in
      let c = set_phase b Phase.uploading in
      do
        e ← create_restic_backup_job env c repo name upload
        on_option e (λ x. abort c state x) (after_job_create c state name)

  -- A restore may have interrupted the run, or taken the claim, while it quiesced.
  unfoldable pub recheck :
      PvcBackup → BackupRepository → List (Bytes × ℤ) → List Bytes → ℕ → M RunEnd
  recheck b repo state upload unix = do
    fresh ← ask env.backup (Event.get_backup (key_of b.metadata))
    on_option (failed_already fresh) (λ _. leave b state finished)
        (do busy ← self_busy b; unless_busy b state (launch_job b repo state upload unix) busy)

  unfoldable pub run_pipeline :
      PvcBackup → BackupRepository → List (Bytes × ℤ) → List Bytes → ℕ → M RunEnd
  run_pipeline b repo state pvcs unix = do
    r ← pipeline_steps env b pvcs pvcs unix (pipeline_of b)
    on_result r.1 (λ e. abort r.0 state e) (λ upload. recheck r.0 repo state upload unix)

  unfoldable pub run_quiesced : PvcBackup → BackupRepository → List Bytes → ℕ → M RunEnd
  run_quiesced b repo pvcs unix =
      if need_quiesce b
      then (do
        u ← update_status env (set_phase b Phase.quiescing)
        on_option u.1 (λ e. leave u.0 [] (requeued (some e)))
            (do
              q ← quiesce env u.0
              on_option q.1 (λ e. abort u.0 q.0 e) (run_pipeline u.0 repo q.0 pvcs unix)))
      else run_pipeline b repo [] pvcs unix

  -- with the claims free
  unfoldable pub run_free : PvcBackup → BackupRepository → List Bytes → ℕ → M RunEnd
  run_free b repo pvcs unix = do
    s ← ensure_repo_secrets env b.metadata.namespace repo
    on_option s (λ e. abort b [] e) (run_quiesced b repo pvcs unix)

  unfoldable pub run_session : PvcBackup → BackupRepository → List Bytes → ℕ → M RunEnd
  run_session b repo pvcs unix = do
    busy ← self_busy b
    unless_busy b [] (run_free b repo pvcs unix) busy

  unfoldable pub run_body : PvcBackup → List Bytes → M RunEnd
  run_body b pvcs = do
    started ← ask env.clock Event.read_clock
    r ← ask env.repository (Event.get_repository (repository_key b))
    on_result r (λ e. abort b [] e) (λ repo. run_session b repo pvcs (started / second))

  -- the deferred function
  unfoldable pub deferred : RunEnd → M (Unit {0})
  deferred r =
      if r.hold
      then pure tt
      else if not r.backup.spec.quiesce.leave_down && not (is_empty r.state)
      then unquiesce env r.state
      else pure tt

  unfoldable pub start_run : PvcBackup → List Bytes → M Outcome
  start_run b pvcs = do r ← run_body b pvcs; deferred r; pure r.outcome
