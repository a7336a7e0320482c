-- ===== src/Backup/Traces/Prune.antt =====
-- The prune path of the PVCBackup controller.
use backrest_operator.Prelude.{◌≢◌, Bytes, ◌∷◌}
use backrest_operator.Prelude.Int.{ℤ}
use backrest_operator.Api.{PvcBackup, BackupRepository}
use backrest_operator.Effects.{Env, Event, Trace, ask}
use backrest_operator.Effects.Keeps.{Keeps, Kind, kind, Ignores, keeps_rules}
use backrest_operator.Backup.Jobs.{create_restic_prune_job}
use backrest_operator.Backup.Reconcile.Prune.{launch_prune, prune_with, start_prune}
use backrest_operator.Backup.Traces.Plain.{
  ensure_repo_secrets-Keeps, update_status-Keeps, fail_prune-Keeps, poll_prune_job-Keeps,
}

ruleset prune_rules = (
  keeps_rules, ensure_repo_secrets-Keeps, update_status-Keeps, fail_prune-Keeps,
  poll_prune_job-Keeps,
)

module _ (env : Env) {I : Trace → Type 0} (plain : Ignores I Kind.plain)
    (prunes : (b : PvcBackup) (repo : BackupRepository) (n : Bytes) (k : ℤ)
      → Keeps I (create_restic_prune_job env b repo n k)) where
  launch_prune-Keeps :
      (b : PvcBackup) (repo : BackupRepository) (k : ℤ) → Keeps I (launch_prune env b repo k)
  unfolding launch_prune
  launch_prune-Keeps b repo k = search prune_rules depth 12

  prune_with-Keeps : (b : PvcBackup) (k : ℤ) → Keeps I (prune_with env b k)
  unfolding prune_with
  prune_with-Keeps b k = search (prune_rules, launch_prune-Keeps) depth 12

  pub start_prune-Keeps : (b : PvcBackup) → Keeps I (start_prune env b)
  unfolding start_prune
  start_prune-Keeps b = search (prune_rules, prune_with-Keeps) depth 9

-- The traces that follow `t` and in which no workload is scaled and no pod deleted after it.
pub data Untouched (t : Trace) : Trace → Type 0 where
  start : Untouched t t
  other :
      {e : Event} {u : Trace} → kind e ≢ Kind.touches_workload → Untouched t u → Untouched t (e ∷ u)

pub Untouched-plain : (t : Trace) → Ignores (Untouched t) Kind.plain
Untouched-plain t e u h g = Untouched.other (λ x. cc) g

create_restic_prune_job-Untouched :
    (env : Env) (t : Trace) (b : PvcBackup) (repo : BackupRepository) (n : Bytes) (k : ℤ)
    → Keeps (Untouched t) (create_restic_prune_job env b repo n k)
unfolding create_restic_prune_job ask
create_restic_prune_job-Untouched env t b repo n k = record {
  at = λ u g. Untouched.other (λ x. cc) g;
}

-- A forced prune never touches a workload, whatever the cluster answers: no replicas are set and no
-- pod is deleted from its start to the poll of its Job, on every failure too.
pub start_prune-Untouched :
    (env : Env) (t : Trace) (b : PvcBackup) → Untouched t (start_prune env b t).1
start_prune-Untouched env t b =
    (start_prune-Keeps env (Untouched-plain t) (create_restic_prune_job-Untouched env t) b).at t
      Untouched.start
