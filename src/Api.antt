-- ===== src/Api.antt =====
-- The custom resources of api/v1alpha1, with the fields that the controllers and the webhook read.
-- A text that the code only compares with literals (a phase, a pipeline step, a restore mode) is a
-- data type with a constructor for each literal and one for any other text.
use backrest_operator.Prelude.{ℕ, Bytes, Bool, true, false, Option, List, or_text}
use backrest_operator.Prelude.Int.{ℤ}

pub data Phase : Type 0 where
  unset pending flushing quiescing snapshotting uploading unquiescing pruning restoring : Phase
  scheduled succeeded failed ready : Phase
  other : Bytes → Phase

pub data PipelineStep : Type 0 where
  quiesced_live csi_snapshot topolvm_snapshot live_flush : PipelineStep
  unknown : Bytes → PipelineStep

pub data RestoreMode : Type 0 where
  restic_to_new restic_to_existing from_volume_snapshot export : RestoreMode
  unknown : Bytes → RestoreMode

-- An RFC 3339 text with seconds, by what it parses to: nothing, a second since 1970, or an error.
pub data Timestamp : Type 0 where
  unset : Timestamp
  at : ℕ → Timestamp
  malformed : Bytes → Timestamp

-- Namespace and name.
pub record Key : Type 0 where
  pub namespace : Bytes
  pub name : Bytes

pub record Condition : Type 0 where
  pub kind : Bytes
  pub status : Bytes
  pub message : Bytes

-- metav1.ObjectMeta. `version` is the resource
-- version, by its place in the order of the store's versions; `deleting` says that a deletion timestamp is set; `created` is the creation
-- second, or nothing for the zero time.
pub record ObjectMeta : Type 0 where
  pub namespace : Bytes
  pub name : Bytes
  pub uid : Bytes
  pub version : ℕ
  pub labels : List (Bytes × Bytes)
  pub annotations : List (Bytes × Bytes)
  pub finalizers : List Bytes
  pub deleting : Bool
  pub created : Option ℕ

pub record ObjectReference : Type 0 where
  pub name : Bytes
  pub namespace : Bytes

pub record QuiesceTarget : Type 0 where
  pub kind : Bytes
  pub name : Bytes
  pub namespace : Bytes

pub record QuiesceSpec : Type 0 where
  pub enabled : Bool
  pub leave_down : Bool
  pub targets : List QuiesceTarget

pub record PvcBackupSpec : Type 0 where
  pub pvc_name : Bytes
  pub pvc_names : List Bytes
  pub repository_ref : ObjectReference
  pub pipeline : List PipelineStep
  pub volume_snapshot_class_name : Bytes
  pub quiesce : QuiesceSpec
  pub paths : List Bytes
  pub excludes : List Bytes
  pub schedule : Bytes
  pub keep_last : Option ℤ
  pub node_selector : List (Bytes × Bytes)
  pub retries : Option ℤ
  pub backoff_limit : Option ℤ
  pub ttl_seconds_after_finished : Option ℤ

pub record PvcBackupStatus : Type 0 where
  pub phase : Phase
  pub last_backup_time : Timestamp
  pub last_success_time : Timestamp
  pub last_job_name : Bytes
  pub last_force_run : Bytes
  pub last_force_prune : Bytes
  pub last_force_cancel : Bytes
  pub conditions : List Condition

pub record PvcBackup : Type 0 where
  pub metadata : ObjectMeta
  pub spec : PvcBackupSpec
  pub status : PvcBackupStatus

pub record RestoreTargetSpec : Type 0 where
  pub existing_pvc_name : Bytes
  pub new_name : Bytes
  pub new_size : Bytes
  pub new_storage_class_name : Bytes

pub record PvcRestoreSpec : Type 0 where
  pub mode : RestoreMode
  pub repository_ref : ObjectReference
  pub snapshot_id : Bytes
  pub path_filters : List Bytes
  pub volume_snapshot_ref : ObjectReference
  pub target : RestoreTargetSpec
  pub quiesce : QuiesceSpec

pub record PvcRestoreStatus : Type 0 where
  pub phase : Phase
  pub last_job_name : Bytes
  pub conditions : List Condition

pub record PvcRestore : Type 0 where
  pub metadata : ObjectMeta
  pub spec : PvcRestoreSpec
  pub status : PvcRestoreStatus

pub record BackupRepositorySpec : Type 0 where
  pub url : Bytes
  pub password_secret_name : Bytes
  pub password_secret_key : Bytes
  pub env_from_secret : Option Bytes
  pub shared : Bool
  pub verify_enabled : Option Bool
  pub verify_schedule : Bytes
  pub sync_to_host : Bool
  pub cluster_ref : ObjectReference

pub record BackupRepository : Type 0 where
  pub metadata : ObjectMeta
  pub spec : BackupRepositorySpec

pub record SnapshotDownloadSpec : Type 0 where
  pub repository_ref : ObjectReference
  pub snapshot_id : Bytes
  pub path : Bytes
  pub plan_id : Bytes
  pub public_base_url : Bytes
  pub mode : Bytes

pub record SnapshotDownloadStatus : Type 0 where
  pub phase : Phase
  pub download_url : Bytes
  pub relative_url : Bytes
  pub operation_id : ℤ
  pub snapshot_id : Bytes
  pub path : Bytes
  pub expires_at : Bytes
  pub last_refresh : Bytes
  pub message : Bytes
  pub conditions : List Condition

pub record SnapshotDownload : Type 0 where
  pub metadata : ObjectMeta
  pub spec : SnapshotDownloadSpec
  pub status : SnapshotDownloadStatus

pub record BackupPlanSpec : Type 0 where
  pub repository_ref : ObjectReference
  pub cluster_ref : ObjectReference
  pub pvc_backup_ref : ObjectReference
  pub schedule : Bytes
  pub paths : List Bytes
  pub excludes : List Bytes
  pub retries : Option ℤ

abbrev pub key_of : ObjectMeta → Key
key_of m = record { namespace = m.namespace; name = m.name }

-- the namespace of a reference, by default the one of the object that holds it
abbrev pub ref_key : ObjectReference → Bytes → Key
ref_key r default = record { namespace = or_text r.namespace default; name = r.name }

-- The constants of a phase switch.
abbrev pub is_uploading : Phase → Bool
is_uploading Phase.uploading = true
is_uploading _ = false

abbrev pub is_pruning : Phase → Bool
is_pruning Phase.pruning = true
is_pruning _ = false

abbrev pub is_failed : Phase → Bool
is_failed Phase.failed = true
is_failed _ = false

abbrev pub is_scheduled : Phase → Bool
is_scheduled Phase.scheduled = true
is_scheduled _ = false
