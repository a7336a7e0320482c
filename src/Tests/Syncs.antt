-- ===== src/Tests/Syncs.antt =====
-- The theorems on repositories and plans, at small ones.
use backrest_operator.Prelude.{bytes, true, none, some, [], ◌∷◌}
use backrest_operator.Prelude.Int.{pos}
use backrest_operator.Api.{Phase, Key}
use backrest_operator.Effects.{ok, err, Reason}
use backrest_operator.Examples.{meta, env, here, repo}
use backrest_operator.Sync.{Syncs}
use backrest_operator.Sync.Objects.{RepositoryObject, BackupPlan}
use backrest_operator.Sync.Repositories.{reconcile_repository}
use backrest_operator.Sync.Laws.Saved.{AllEarned}
use backrest_operator.Sync.Laws.Ready.{reconcile_repository-AllEarned}

abbrev stored : RepositoryObject
stored = record {
  object = record repo { spec = record (repo.spec) { sync_to_host = true } };
  status = record { phase = Phase.unset; restic_url = []; last_check_result = []; conditions = [] };
}

abbrev plan : BackupPlan
plan = record {
  metadata = meta (bytes "plan");
  spec = record {
    repository_ref = here (bytes "repo");
    cluster_ref = here [];
    pvc_backup_ref = here (bytes "home");
    schedule = [];
    paths = [];
    excludes = [];
    retries = some (pos 2);
  };
  retention = none;
  phase = Phase.unset;
}

abbrev syncs : Syncs
syncs = record {
  env = env;
  repository = λ t. ok stored;
  plan = λ t. ok plan;
  cron_job = λ t. err (record { reason = Reason.not_found; message = [] });
  secret = λ t. ok ((bytes "RESTIC_PASSWORD", bytes "x") ∷ []);
  encode = λ o. [];
}

abbrev key : Key
key = record { namespace = bytes "apps"; name = bytes "repo" }

reconcile_repository-AllEarned_example : AllEarned syncs (reconcile_repository syncs key []).1
reconcile_repository-AllEarned_example = reconcile_repository-AllEarned syncs key [] tt
