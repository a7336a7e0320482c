-- ===== src/Sync.antt =====
-- internal/controller/host_sync.go and repository_plan_controller.go: repositories and plans, and
-- their copies on the Backrest host.
pub mod Objects
pub mod Repositories
pub mod Plans
pub mod Laws
use backrest_operator.Prelude.{
  Bytes, bytes, Bool, true, false, not, Option, none, some, List, [], ◌∷◌, ◌++◌, is_empty, map,
  or_text, if◌then◌else◌,
}
use backrest_operator.Prelude.Dict.{lookup, text_at}
use backrest_operator.Api.{Key, ObjectReference, BackupRepository, key_of}
use backrest_operator.Effects.{
  Env, Result, ok, err, Error, plain_error, wrap_error, Event, Trace, M, pure, ask, ◌>>=◌,
  on_result, on_option, Outcome,
}
use backrest_operator.Mcp.Calls.{Json, HostRepo}
use backrest_operator.Client.Posts.{HostPlan, Object}
use backrest_operator.Backup.Host.{resolve_cluster_ref, host_url, instance_for_cluster, sanitize_id}
use backrest_operator.Backup.Jobs.{key_or, env_from}
use backrest_operator.Sync.Objects.{RepositoryObject, BackupPlan, CronJob, SyncCall}

-- What answers the controllers. `encode` is encoding/json on a retention; a secret's data is a map.
pub record Syncs : Type 0 where
  pub env : Env
  pub repository : Trace → Result RepositoryObject
  pub plan : Trace → Result BackupPlan
  pub cron_job : Trace → Result CronJob
  pub secret : Trace → Result (List (Bytes × Bytes))
  pub encode : Object → Bytes

-- the cluster of a repository
abbrev pub cluster_of : BackupRepository → Key
cluster_of repo = resolve_cluster_ref repo.spec.cluster_ref repo.metadata.namespace

abbrev env_line : Bytes × Bytes → Bytes
env_line (k, v) = k ++ (b'=' ∷ v)

abbrev pub disabled : Option Bytes
disabled = some (bytes "{\"disabled\":true}")

module _ (w : Syncs) where
  abbrev pub secret_value : Key → Bytes → Option Bytes → Result Bytes
  secret_value k key none = err (
      plain_error
        (bytes "secret " ++ k.namespace ++ bytes "/" ++ k.name ++ bytes " missing key " ++ key))
  secret_value k key (some v) = ok v

  unfoldable pub read_secret_key : Key → Bytes → M (Result Bytes)
  unfolding lookup
  read_secret_key k name = do
    got ← ask w.secret (Event.sync (SyncCall.read_secret k))
    let key = or_text name (bytes "RESTIC_PASSWORD")
    on_result got (λ e. pure (err e)) (λ entries. pure (secret_value k key (lookup key entries)))

  -- in the order of the list; Go ranges over the map in any order
  unfoldable pub secret_env_lines : Key → M (Result (List Bytes))
  secret_env_lines k = do
    got ← ask w.secret (Event.sync (SyncCall.read_secret k))
    on_result got (λ e. pure (err e)) (λ entries. pure (ok (map env_line entries)))

  abbrev pub secret_key : BackupRepository → Bytes → Key
  secret_key repo name = record { namespace = repo.metadata.namespace; name = name }

  unfoldable pub env_lines : BackupRepository → M (Result (List Bytes))
  unfolding secret_env_lines env_from
  env_lines repo =
      on_option (env_from repo) (λ name. secret_env_lines (secret_key repo name)) (pure (ok []))

  abbrev pub host_repo : BackupRepository → Bytes → List Bytes → HostRepo
  host_repo repo password lines = record {
    id = repo.metadata.name;
    uri = repo.spec.url;
    password = password;
    env = lines;
    flags = [];
    auto_initialize = false;
    shared = repo.spec.shared;
    guid = [];
  }

  -- an error of the index is only logged
  unfoldable pub store_repo : Bytes → BackupRepository → HostRepo → M (Option Error)
  store_repo url repo r = do
    u ← ask w.env.done (Event.sync (SyncCall.upsert_repo url r))
    on_option u (λ e. pure (some (wrap_error (bytes "upsert repo on host: ") e)))
        (do _ ← ask w.env.done (Event.index_snapshots url repo.metadata.name); pure none)

  unfoldable pub send_repository : Bytes → BackupRepository → M (Option Error)
  unfolding read_secret_key env_lines store_repo key_or
  send_repository url repo = do
    password ←
        read_secret_key (secret_key repo repo.spec.password_secret_name)
          (key_or repo.spec.password_secret_key (bytes "RESTIC_PASSWORD"))
    on_result password (λ e. pure (some e))
        (λ p. do
          lines ← env_lines repo
          on_result lines (λ e. pure (some e)) (λ l. store_repo url repo (host_repo repo p l)))

  unfoldable pub sync_repository_to_host : BackupRepository → M (Option Error)
  unfolding send_repository host_url resolve_cluster_ref instance_for_cluster
  sync_repository_to_host repo =
      let url = host_url (cluster_of repo) in
      if repo.spec.sync_to_host
      then (do
        e ← ask w.env.done (Event.ensure_instance url (instance_for_cluster (cluster_of repo).name))
        on_option e (λ x. pure (some (wrap_error (bytes "ensure backrest instance: ") x)))
            (send_repository url repo))
      else pure none

  -- the repository's cluster, where it names one, or else the plan's
  unfoldable pub plan_cluster : BackupPlan → BackupRepository → Key
  unfolding resolve_cluster_ref
  plan_cluster plan repo =
      if is_empty repo.spec.cluster_ref.name
      then resolve_cluster_ref plan.spec.cluster_ref plan.metadata.namespace
      else cluster_of repo

  abbrev pub keep_last_of : Object → Option Json → Object
  keep_last_of retention none = retention
  keep_last_of retention (some v) = (bytes "policyKeepLastN", v) ∷ []

  unfoldable pub retention_of : BackupPlan → Object
  unfolding lookup
  retention_of plan = elim plan.retention [
    | none ↦ []
    | some retention ↦ keep_last_of retention (lookup (bytes "keepLast") retention)
  ]

  unfoldable pub host_plan : BackupPlan → HostPlan
  unfolding sanitize_id retention_of
  host_plan plan = record {
    id = sanitize_id (plan.metadata.namespace ++ (b'-' ∷ plan.metadata.name));
    repo = plan.spec.repository_ref.name;
    paths = plan.spec.paths;
    excludes = plan.spec.excludes;
    schedule = disabled;
    retention = some (w.encode (retention_of plan));
  }

  unfoldable pub sync_plan_to_host : BackupPlan → BackupRepository → M (Option Error)
  unfolding plan_cluster host_plan host_url instance_for_cluster
  sync_plan_to_host plan repo = do
    let cluster = plan_cluster plan repo
    let url = host_url cluster
    e ← ask w.env.done (Event.ensure_instance url (instance_for_cluster cluster.name))
    on_option e (λ x. pure (some x))
        (ask w.env.done (Event.sync (SyncCall.upsert_host_plan url (host_plan plan))))
