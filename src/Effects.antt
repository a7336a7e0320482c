-- ===== src/Effects.antt =====
-- What the controllers do to the world, and what it answers. A call appends its request to the
-- trace; the answer is whatever the environment says for the trace so far, so that a statement for
-- every environment holds for every state of the cluster, every failed call and every change that
-- somebody else makes between two calls.
pub mod Rules
pub mod Keeps
pub mod Clock
pub mod Yields
pub mod Ends
use backrest_operator.Prelude.{ℕ, Bytes, Bool, true, false, Option, none, some, List, [], ◌∷◌, ◌++◌}
use backrest_operator.Prelude.Int.{ℤ}
use backrest_operator.Api.{
  Phase, Timestamp, Key, ObjectMeta, PvcBackup, PvcRestore, BackupRepository, SnapshotDownload,
}
use backrest_operator.Mcp.Calls.{Call}
use backrest_operator.Client.Posts.{Post}
use backrest_operator.Cluster.Objects.{ClusterCall}
use backrest_operator.Sync.Objects.{SyncCall}

-- The kinds of API error that the code tells apart.
pub data Reason : Type 0 where
  not_found already_exists unspecified : Reason

pub record Error : Type 0 where
  pub reason : Reason
  pub message : Bytes

-- fmt.Errorf with no wrapped error
abbrev pub plain_error : Bytes → Error
plain_error message = record { reason = Reason.unspecified; message = message }

-- fmt.Errorf("<text>%w", err)
abbrev pub wrap_error : Bytes → Error → Error
wrap_error text e = record { reason = e.reason; message = text ++ e.message }

pub data Result {ℓ} (A : Type ℓ) : Type ℓ where
  ok : A → Result A
  err : Error → Result A

-- A restic Job as the operator creates it. `password` is the secret and the key of
-- RESTIC_PASSWORD, and a mount pairs a claim with its path.
pub record JobSpec : Type 0 where
  pub key : Key
  pub script : Bytes
  pub url : Bytes
  pub password : Bytes × Bytes
  pub env_from : Option Bytes
  pub backoff_limit : ℤ
  pub ttl : Option ℤ
  pub node_selector : List (Bytes × Bytes)
  pub mounts : List (Bytes × Bytes)
  pub owner_uid : Option Bytes

-- A Job as it is read. `controller` is the uid of the controlling owner.
pub record Job : Type 0 where
  pub key : Key
  pub controller : Option Bytes
  pub created : Option ℕ
  pub succeeded : ℤ
  pub failed : ℤ

-- A plan of the Backrest host.
pub record Plan : Type 0 where
  pub id : Bytes
  pub repo : Bytes
  pub paths : List Bytes
  pub excludes : List Bytes
  pub keep_last : Option ℤ

pub data Workload : Type 0 where
  stateful_set deployment : Workload

pub data Metric : Type 0 where
  forget_backup : Bytes → Bytes → Metric
  sync_last_success : Bytes → Bytes → ℕ → Metric
  backup_success : Bytes → Bytes → ℕ → Metric
  backup_failure : Bytes → Bytes → Metric
  restore_failure : Bytes → Bytes → Metric
  reconcile_error : Bytes → Metric

-- what older versions of the operator made for a schedule
pub data Legacy : Type 0 where
  cron_job service_account role role_binding : Legacy

pub data Event : Type 0 where
  -- reads
  get_backup get_restore get_repository get_job get_pod get_secret get_claim get_snapshot :
      Key → Event
  get_workload : Workload → Key → Event
  list_jobs : Bytes → Event
  list_backups list_restores read_clock : Event
  -- writes
  update_backup update_backup_status : PvcBackup → Event
  update_restore update_restore_status : PvcRestore → Event
  patch_annotation : Key → Bytes → Bytes → Event
  scale : Workload → Key → ℤ → Event
  delete_pod delete_job : Key → Event
  delete_legacy : Legacy → Key → Event
  create_job : JobSpec → Event
  create_snapshot : Key → Bytes → Bytes → Event
  create_clone : Key → Bytes → Event
  create_claim : Key → Bytes → Bytes → Bytes → Event
  create_secret update_secret : Key → Key → Event
  sleep : ℕ → Event
  -- calls of the Backrest host at a url
  ensure_instance index_snapshots delete_plan : Bytes → Bytes → Event
  upsert_plan : Bytes → Plan → Event
  metric : Metric → Event
  -- the SnapshotDownload controller's
  get_download : Key → Event
  update_download_status : SnapshotDownload → Event
  -- the MCP server's calls, and those of a host's client that it shares
  mcp : Call → Event
  -- what a host's client posts for them
  post : Post → Event
  -- the BackrestCluster controller's
  cluster : ClusterCall → Event
  -- those of the controllers of repositories and plans
  sync : SyncCall → Event

-- The most recent request first.
abbrev pub Trace : Type 0
Trace = List Event

-- An instant in nanoseconds since 1970, or Go's zero time, which is before all others.
abbrev pub Instant : Type 0
Instant = Option ℕ

-- The answers, by what they hold; the request that is answered is the first of the trace. `cron`
-- is the schedule parser of robfig/cron with its `Next`; `is_quantity` is what resource.ParseQuantity takes; `encode` and `decode` are encoding/json on
-- a map of replicas (`decode` gives what it has put into the map, also when it fails). The last two
-- are environment variables.
pub record Env : Type 0 where
  pub done : Trace → Option Error
  pub backup : Trace → Result PvcBackup
  pub restore : Trace → Result PvcRestore
  pub repository : Trace → Result BackupRepository
  pub job : Trace → Result Job
  pub jobs : Trace → Result (List Job)
  pub backups : Trace → Result (List PvcBackup)
  pub restores : Trace → Result (List PvcRestore)
  pub replicas : Trace → Result ℤ
  pub marked : Trace → Result Bool
  pub metadata : Trace → Result ObjectMeta
  pub clock : Trace → ℕ
  pub cron : Bytes → Result (Instant → Instant)
  pub is_quantity : Bytes → Bool
  pub encode : List (Bytes × ℤ) → Bytes
  pub decode : Bytes → List (Bytes × ℤ)
  pub watch_namespaces : Bytes
  pub watch_label_selector : Bytes

abbrev pub M : Type 0 → Type 0
M A = Trace → A × Trace

abbrev pub pure : {A : Type 0} → A → M A
pure a t = (a, t)

infixl 5 ◌>>=◌ ◌>>◌
abbrev pub ◌>>=◌ : {A B : Type 0} → M A → (A → M B) → M B
◌>>=◌ m f t = let r = m t in f r.0 r.1

abbrev pub ◌>>◌ : {A B : Type 0} → M A → M B → M B
◌>>◌ m k = m >>= λ _. k

-- a request, and the answer to it
unfoldable pub ask : {A : Type 0} → (Trace → A) → Event → M A
ask answer ev t = (answer (ev ∷ t), ev ∷ t)

-- a request whose answer the code drops
unfoldable pub tell : Event → M (Unit {0})
tell ev t = (tt, ev ∷ t)

-- `if err != nil { … }` after a call that answers with a value
abbrev pub on_result : {A B : Type 0} → Result A → (Error → M B) → (A → M B) → M B
on_result (err e) failed rest = failed e
on_result (ok a) failed rest = rest a

-- `if x != nil { … }`, mostly for an error
abbrev pub on_option : {A B : Type 0} → Option A → (A → M B) → M B → M B
on_option (some a) there missing = there a
on_option none there missing = missing

-- apierrors.IsNotFound
abbrev pub is_not_found : Error → Bool
is_not_found e = elim e.reason [ Reason.not_found ↦ true | _ ↦ false ]

-- ctrl.Result and the error beside it. `after` is in nanoseconds.
pub record Outcome : Type 0 where
  pub requeue : Bool
  pub after : ℕ
  pub error : Option Error
