-- ===== src/Restore.antt =====
-- internal/controller/pvcrestore_controller.go and interruptBackup: the PVCRestore controller.
pub mod Quiesce
pub mod Claim
pub mod Run
pub mod Laws
pub mod Concurrent
use backrest_operator.Prelude.{
  Bytes, bytes, Bool, true, false, Option, none, some, ◌++◌, not, is_empty, ◌&&◌, if◌then◌else◌,
}
use backrest_operator.Api.{Phase, RestoreMode, Key, PvcRestore}
use backrest_operator.Filters.{object_allowed}
use backrest_operator.Effects.{
  Env, Error, plain_error, Event, M, pure, ask, ◌>>=◌, on_result, on_option, Outcome,
}
use backrest_operator.Backup.Quiesce.Wait.{ignore_not_found}
use backrest_operator.Backup.Poll.{finished}
use Claim.{Made, restore_from_snapshot}
use Run.{
  set_restore_phase, update_restore_status, fail_restore, poll_restore_job, start_restic_restore,
  panic,
}

abbrev pub is_over : Phase → Bool
is_over Phase.succeeded = true
is_over Phase.failed = true
is_over _ = false

abbrev pub is_restoring : Phase → Bool
is_restoring Phase.restoring = true
is_restoring _ = false

module _ (env : Env) where
  abbrev pub after_snapshot : PvcRestore → Made → M Outcome
  after_snapshot r Made.panicked = pure panic
  after_snapshot r (Made.done (some e)) = fail_restore env r e
  after_snapshot r (Made.done none) = do
    u ← update_restore_status env (set_restore_phase r Phase.succeeded)
    pure (record { requeue = false; after = 0; error = u.1 })

  unfoldable pub start_restore : PvcRestore → M Outcome
  unfolding restore_from_snapshot
  start_restore r = elim r.spec.mode [
    | RestoreMode.from_volume_snapshot ↦ do m ← restore_from_snapshot env r; after_snapshot r m
    | RestoreMode.restic_to_new ↦ start_restic_restore env r
    | RestoreMode.restic_to_existing ↦ start_restic_restore env r
    | RestoreMode.export ↦ fail_restore env r (
        plain_error (
          bytes
            "mode export is removed; use Backrest GetDownloadURL / MCP get_snapshot_download_url"))
    | RestoreMode.unknown m ↦ fail_restore env r (plain_error (bytes "unknown mode " ++ m))
  ]

  unfoldable pub reconcile_restore : Key → M Outcome
  unfolding start_restore
  reconcile_restore key = do
    got ← ask env.restore (Event.get_restore key)
    on_result got
        (λ e. pure (record { requeue = false; after = 0; error = ignore_not_found (some e) }))
        (λ r.
          if not (
            object_allowed env.watch_namespaces env.watch_label_selector r.metadata.namespace
              r.metadata.labels)
          then pure finished
          else if is_over r.status.phase
          then pure finished
          else if is_restoring r.status.phase && not (is_empty r.status.last_job_name)
          then poll_restore_job env r
          else start_restore r)
