-- ===== src/Webhook.antt =====
-- internal/webhook/validation.go
pub mod Laws
use backrest_operator.Prelude.{
  Bytes, bytes, Bool, true, false, Option, none, some, List, [], ◌∷◌, ◌++◌, ◌&&◌, ◌||◌, not,
  is_empty, ◌==◌, any, starts_with, length, ltb, if◌then◌else◌, ℕ,
}
use backrest_operator.Prelude.Dict.{text_at}
use backrest_operator.Api.{
  PipelineStep, RestoreMode, BackupRepository, PvcBackup, PvcRestore, SnapshotDownloadSpec,
  BackupPlanSpec,
}
use backrest_operator.Effects.{Result, ok, err, Error}
use backrest_operator.Filters.{trim_space}

unfoldable pub leave_down_annotation : Bytes
leave_down_annotation = bytes "operator.backrest.io/leave-down-confirmed"

unfoldable pub allowed_url_prefixes : List Bytes
allowed_url_prefixes =
    bytes "s3:"
    ∷ bytes "b2:"
    ∷ bytes "azure:"
    ∷ bytes "gs:"
    ∷ bytes "sftp:"
    ∷ bytes "rclone:"
    ∷ bytes "rest:"
    ∷ bytes "/"
    ∷ bytes "local:"
    ∷ []

-- The result of a validation is the message of a refusal, or nothing.
unfoldable pub validate_repository : BackupRepository → Option Bytes
validate_repository r =
    if is_empty r.spec.url
    then some (bytes "spec.url is required")
    else if not (any (starts_with r.spec.url) allowed_url_prefixes)
    then some (bytes "unsupported repository URL scheme")
    else if is_empty r.spec.password_secret_name
    then some (bytes "spec.passwordSecretRef.name is required")
    else none

abbrev pub is_snapshot : PipelineStep → Bool
is_snapshot PipelineStep.csi_snapshot = true
is_snapshot PipelineStep.topolvm_snapshot = true
is_snapshot _ = false

abbrev pub is_live_flush : PipelineStep → Bool
is_live_flush PipelineStep.live_flush = true
is_live_flush _ = false

-- one round of the loop over the pipeline
unfoldable pub validate_step : PvcBackup → PipelineStep → Option Bytes
validate_step b s =
    if is_snapshot s && is_empty b.spec.volume_snapshot_class_name
    then some (bytes "volumeSnapshotClassName required for snapshot strategies")
    else if is_snapshot s && ltb 1 (length b.spec.pvc_names)
    then some
        (bytes "csiSnapshot/topolvmSnapshot support a single PVC; use quiescedLive for multi-PVC")
    else if is_live_flush s
    then some (bytes "liveFlush is not implemented yet")
    else none

unfoldable pub validate_steps : PvcBackup → List PipelineStep → Option Bytes
unfolding validate_step
validate_steps b [] = none
validate_steps b (s ∷ steps) =
    let rest = validate_steps b steps in elim (validate_step b s) [ some m ↦ some m | none ↦ rest ]

unfoldable pub validate_leave_down : PvcBackup → Option Bytes
validate_leave_down b =
    if b.spec.quiesce.leave_down
      && not (text_at leave_down_annotation b.metadata.annotations == bytes "true")
    then some (bytes "leaveDown requires annotation " ++ leave_down_annotation ++ bytes "=true")
    else none

unfoldable pub validate_backup : PvcBackup → Option Bytes
unfolding validate_steps validate_leave_down
validate_backup b =
    if is_empty b.spec.pvc_name && is_empty b.spec.pvc_names
    then some (bytes "spec.pvcName or spec.pvcNames is required")
    else if is_empty b.spec.repository_ref.name
    then some (bytes "spec.repositoryRef.name is required")
    else elim (validate_steps b b.spec.pipeline) [ some m ↦ some m | none ↦ validate_leave_down b ]

unfoldable pub validate_restore : PvcRestore → Option Bytes
validate_restore r = elim r.spec.mode [
  | RestoreMode.restic_to_new ↦ named
  | RestoreMode.restic_to_existing ↦ named
  | RestoreMode.from_volume_snapshot ↦
      if is_empty r.spec.volume_snapshot_ref.name
      then some (bytes "volumeSnapshotRef.name required")
      else none
  | RestoreMode.export ↦
      some (bytes "mode export is removed; use SnapshotDownload / MCP get_snapshot_download_url")
  | RestoreMode.unknown _ ↦ none
]
  where
    named : Option Bytes
    named =
        if is_empty r.spec.repository_ref.name
        then some (bytes "spec.repositoryRef.name is required")
        else none

unfoldable pub validate_download : SnapshotDownloadSpec → Option Bytes
validate_download d =
    if is_empty d.repository_ref.name
    then some (bytes "spec.repositoryRef.name is required")
    else if is_empty (trim_space d.snapshot_id)
    then some (bytes "spec.snapshotID is required")
    else none

unfoldable pub validate_plan : BackupPlanSpec → Option Bytes
validate_plan p =
    if is_empty p.repository_ref.name
    then some (bytes "spec.repositoryRef.name is required")
    else none

-- json.Unmarshal of the raw object, for each kind
pub record Decoder : Type 0 where
  pub repository : Bytes → Result BackupRepository
  pub backup : Bytes → Result PvcBackup
  pub restore : Bytes → Result PvcRestore
  pub download : Bytes → Result SnapshotDownloadSpec
  pub plan : Bytes → Result BackupPlanSpec

-- `if err := json.Unmarshal(raw, &obj); err != nil { return false, err.Error() }`
abbrev pub after_decode : {A : Type 0} → Result A → (A → Option Bytes) → Option Bytes
after_decode (err e) validate = some e.message
after_decode (ok a) validate = validate a

abbrev pub verdict : Option Bytes → Bool × Bytes
verdict none = (true, [])
verdict (some m) = (false, m)

module _ (decode : Decoder) where
  unfoldable pub validate_kind : Bytes → Bytes → Option Bytes
  validate_kind kind raw =
      if kind == bytes "BackupRepository"
      then after_decode (decode.repository raw) validate_repository
      else if kind == bytes "PVCBackup"
      then after_decode (decode.backup raw) validate_backup
      else if kind == bytes "PVCRestore"
      then after_decode (decode.restore raw) validate_restore
      else if kind == bytes "SnapshotDownload"
      then after_decode (decode.download raw) validate_download
      else if kind == bytes "BackupPlan"
      then after_decode (decode.plan raw) validate_plan
      else none

  unfoldable pub validate_object : Bytes → Bytes → Bool × Bytes
  unfolding validate_kind
  validate_object kind raw = verdict (validate_kind kind raw)

-- An AdmissionRequest; the raw objects are empty where they are not given.
pub record AdmissionRequest : Type 0 where
  pub uid : Bytes
  pub kind : Bytes
  pub object : Bytes
  pub old_object : Bytes

pub record AdmissionResponse : Type 0 where
  pub uid : Bytes
  pub allowed : Bool
  pub message : Bytes

abbrev or_raw : Bytes → Bytes → Bytes
or_raw [] old = old
or_raw (c ∷ raw) old = c ∷ raw

-- the review as it was decoded, with a request or without one
unfoldable pub handle_admission : Decoder → Result (Option AdmissionRequest) → AdmissionResponse
unfolding validate_object
handle_admission decode (err e) = record { uid = []; allowed = false; message = e.message }
handle_admission decode (ok none) = record {
  uid = [];
  allowed = false;
  message = bytes "missing request";
}
handle_admission decode (ok (some r)) =
    let v = validate_object decode r.kind (or_raw r.object r.old_object) in
    record { uid = r.uid; allowed = v.0; message = v.1 }
