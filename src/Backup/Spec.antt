-- ===== src/Backup/Spec.antt =====
-- What the PVCBackup controller reads from the object: claims, tokens, phases, retries.
use backrest_operator.Prelude.{
  Bytes, bytes, Bool, true, false, none, some, List, [], ◌∷◌, ◌&&◌, not, is_empty, ◌==◌,
  if◌then◌else◌,
}
use backrest_operator.Prelude.Int.{ℤ, pos}
use backrest_operator.Prelude.Dict.{text_at}
use backrest_operator.Api.{Phase, PvcBackup, Key, ref_key}

unfoldable pub force_run_key : Bytes
force_run_key = bytes "operator.backrest.io/force-run"

unfoldable pub force_prune_key : Bytes
force_prune_key = bytes "operator.backrest.io/force-prune"

unfoldable pub force_cancel_key : Bytes
force_cancel_key = bytes "operator.backrest.io/force-cancel"

unfoldable pub quiesce_state_key : Bytes
quiesce_state_key = bytes "operator.backrest.io/quiesce-state"

unfoldable pub host_plan_finalizer : Bytes
host_plan_finalizer = bytes "operator.backrest.io/host-plan"

unfoldable pub pvc_list : PvcBackup → List Bytes
pvc_list b =
    if not (is_empty b.spec.pvc_names)
    then b.spec.pvc_names
    else if not (is_empty b.spec.pvc_name)
    then b.spec.pvc_name ∷ []
    else []

-- a token is set, and it is not the one that was handled last
abbrev pub is_pending : Bytes → Bytes → Bool
is_pending force last = not (is_empty force) && not (force == last)

unfoldable pub force_run_pending : PvcBackup → Bool
force_run_pending b =
    is_pending (text_at force_run_key b.metadata.annotations) b.status.last_force_run

unfoldable pub force_prune_pending : PvcBackup → Bool
force_prune_pending b =
    is_pending (text_at force_prune_key b.metadata.annotations) b.status.last_force_prune

unfoldable pub force_cancel_pending : PvcBackup → Bool
force_cancel_pending b =
    is_pending (text_at force_cancel_key b.metadata.annotations) b.status.last_force_cancel

unfoldable pub cancel_phase_busy : Phase → Bool
cancel_phase_busy Phase.pending = true
cancel_phase_busy Phase.quiescing = true
cancel_phase_busy Phase.snapshotting = true
cancel_phase_busy Phase.uploading = true
cancel_phase_busy Phase.pruning = true
cancel_phase_busy _ = false

unfoldable pub backup_phase_in_flight : Phase → Bool
backup_phase_in_flight Phase.pending = true
backup_phase_in_flight Phase.quiescing = true
backup_phase_in_flight Phase.snapshotting = true
backup_phase_in_flight Phase.uploading = true
backup_phase_in_flight _ = false

unfoldable pub idle_phase_after_prune : PvcBackup → Phase
idle_phase_after_prune b = if is_empty b.spec.schedule then Phase.succeeded else Phase.scheduled

unfoldable pub job_retries : PvcBackup → ℤ
job_retries b = elim b.spec.retries [
  | some r ↦ r
  | none ↦ elim b.spec.backoff_limit [ some l ↦ l | none ↦ pos 0 ]
]

-- the repository of the backup; its namespace is the backup's by default
abbrev pub repository_key : PvcBackup → Key
repository_key b = ref_key b.spec.repository_ref b.metadata.namespace
