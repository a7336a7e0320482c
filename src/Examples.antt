-- ===== src/Examples.antt =====
-- A small cluster: a backup of one claim with two workloads, its repository and its Jobs.
pub mod Restores
pub mod Mcp
use backrest_operator.Prelude.{
  ℕ, ◌+◌, ◌*◌, ◌^◌, ◌<◌, ◌≡◌, refl, Bytes, bytes, true, false, none, some, List, [], ◌∷◌, arith,
}
use backrest_operator.Prelude.Int.{ℤ, pos}
use backrest_operator.Api.{
  Phase, PipelineStep, Timestamp, Key, ObjectMeta, ObjectReference, QuiesceTarget, PvcBackup,
  BackupRepository,
}
use backrest_operator.Effects.{
  Env, Result, ok, err, Error, plain_error, Event, Trace, Workload, stateful_set, deployment, Job,
  Instant,
}
use backrest_operator.Backup.Quiesce.Cluster.{current, IsCluster}

abbrev pub meta : Bytes → ObjectMeta
meta name = record {
  namespace = bytes "apps";
  name = name;
  uid = name;
  version = 1;
  labels = [];
  annotations = [];
  finalizers = [];
  deleting = false;
  created = some 7;
}

abbrev pub here : Bytes → ObjectReference
here name = record { name = name; namespace = [] }

abbrev pub web : QuiesceTarget
web = record { kind = bytes "Deployment"; name = bytes "web"; namespace = [] }

abbrev pub db : QuiesceTarget
db = record { kind = bytes "StatefulSet"; name = bytes "db"; namespace = bytes "data" }

abbrev pub nightly : Bytes → Phase → PvcBackup
nightly name phase = record {
  metadata = meta name;
  spec = record {
    pvc_name = bytes "vol";
    pvc_names = [];
    repository_ref = here (bytes "repo");
    pipeline = PipelineStep.csi_snapshot ∷ [];
    volume_snapshot_class_name = bytes "csi";
    quiesce = record { enabled = true; leave_down = false; targets = web ∷ db ∷ [] };
    paths = [];
    excludes = [];
    schedule = bytes "0 3 * * *";
    keep_last = some (pos 3);
    node_selector = [];
    retries = none;
    backoff_limit = none;
    ttl_seconds_after_finished = none;
  };
  status = record {
    phase = phase;
    last_backup_time = Timestamp.at 50;
    last_success_time = Timestamp.unset;
    last_job_name = [];
    last_force_run = [];
    last_force_prune = [];
    last_force_cancel = [];
    conditions = [];
  };
}

abbrev pub backup : PvcBackup
backup = nightly (bytes "home") Phase.scheduled

-- another backup of the same claim
abbrev pub rival : PvcBackup
rival = nightly (bytes "rival") Phase.uploading

abbrev pub repo : BackupRepository
repo = record {
  metadata = meta (bytes "repo");
  spec = record {
    url = bytes "s3:bucket";
    password_secret_name = bytes "secret";
    password_secret_key = [];
    env_from_secret = none;
    shared = false;
    verify_enabled = none;
    verify_schedule = [];
    sync_to_host = false;
    cluster_ref = here [];
  };
}

abbrev pub job_at : Bytes → ℕ → Job
job_at name created = record {
  key = record { namespace = bytes "apps"; name = name };
  controller = some (bytes "home");
  created = some created;
  succeeded = pos 0;
  failed = pos 0;
}

abbrev pub jobs : List Job
jobs = job_at (bytes "pvcbackup-home-10") 10 ∷ job_at (bytes "pvcbackup-home-20") 20 ∷ []

abbrev pub start : Workload → Key → ℤ
start stateful_set k = pos 3
start deployment k = pos 5

abbrev missing : Error
missing = plain_error (bytes "missing")

abbrev replicas_of : Trace → Result ℤ
replicas_of (Event.get_workload w k ∷ t) = ok (current start t w k)
replicas_of _ = err missing

-- only sleeping takes time
unfoldable pub time_after : Trace → ℕ
time_after [] = 0
time_after (Event.sleep n ∷ t) = n + time_after t
time_after (_ ∷ t) = time_after t

-- the next slot is always at second 100
abbrev pub at_100 : Instant → Instant
at_100 from = some (100 * 10 ^ 9)

abbrev pub env_with : List PvcBackup → Env
env_with others = record {
  done = λ t. none;
  backup = λ t. ok backup;
  restore = λ t. err missing;
  repository = λ t. ok repo;
  job = λ t. err missing;
  jobs = λ t. ok jobs;
  backups = λ t. ok others;
  restores = λ t. ok [];
  replicas = replicas_of;
  marked = λ t. ok false;
  metadata = λ t. ok backup.metadata;
  clock = time_after;
  cron = λ s. ok at_100;
  is_quantity = λ s. true;
  encode = λ s. [];
  decode = λ s. [];
  watch_namespaces = [];
  watch_label_selector = [];
}

-- nobody else is there, or a rival is at work
abbrev pub env : Env
env = env_with []

abbrev pub contested : Env
contested = env_with (rival ∷ [])

pub env_with-IsCluster : (others : List PvcBackup) → IsCluster (env_with others) start
env_with-IsCluster others = record { reads = λ t w k. refl; writes = λ t w k n. refl }

pub start_small : (w : Workload) (k : Key) → (n : ℕ) × (start w k ≡ pos n) × (n < 2 ^ 31)
start_small stateful_set k = (3, refl, omega arith)
start_small deployment k = (5, refl, omega arith)
