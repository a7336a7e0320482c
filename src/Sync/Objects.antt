-- ===== src/Sync/Objects.antt =====
-- api/v1alpha1: the status of a BackupRepository and the BackupPlan, and what their controllers ask
-- for.
use backrest_operator.Prelude.{Bytes, Option, List}
use backrest_operator.Api.{Phase, Key, ObjectMeta, Condition, BackupRepository, BackupPlanSpec}
use backrest_operator.Mcp.Calls.{Args, HostRepo}
use backrest_operator.Client.Posts.{HostPlan}

pub record RepositoryStatus : Type 0 where
  pub phase : Phase
  pub restic_url : Bytes
  pub last_check_result : Bytes
  pub conditions : List Condition

-- a BackupRepository with its status
pub record RepositoryObject : Type 0 where
  pub object : BackupRepository
  pub status : RepositoryStatus

-- A retention may be nil.
pub record BackupPlan : Type 0 where
  pub metadata : ObjectMeta
  pub spec : BackupPlanSpec
  pub retention : Args
  pub phase : Phase

-- A CronJob that forbids concurrent Jobs and restarts a container that fails. `password` is the secret
-- and the key of RESTIC_PASSWORD.
pub record CronSpec : Type 0 where
  pub schedule : Bytes
  pub script : Bytes
  pub url : Bytes
  pub password : Bytes × Bytes
  pub env_from : Option Bytes

-- `rest` is the text of what the operator does not write.
pub record CronJob : Type 0 where
  pub key : Key
  pub owner : Option Bytes
  pub spec : CronSpec
  pub rest : Bytes

pub data SyncCall : Type 0 where
  get_repository_object get_plan get_cron_job delete_cron_job read_secret : Key → SyncCall
  create_cron_job update_cron_job : CronJob → SyncCall
  update_repository_status : RepositoryObject → SyncCall
  update_plan_status : BackupPlan → SyncCall
  -- calls of the Backrest host at a url
  upsert_repo : Bytes → HostRepo → SyncCall
  upsert_host_plan : Bytes → HostPlan → SyncCall
