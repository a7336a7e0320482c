-- ===== src/Tests/Runs.antt =====
-- The theorems on runs of a backup, at a small cluster.
use backrest_operator.Prelude.{
  ℕ, ◌≤◌, ◌≡◌, refl, bytes, true, false, none, [], ◌∷◌, arith, In, ◌==◌, eq_iff,
}
use backrest_operator.Prelude.Int.{pos}
use backrest_operator.Prelude.Dict.{text_at, lookup}
use backrest_operator.Api.{Key}
use backrest_operator.Effects.{Workload, stateful_set, deployment, Job, ask}
use backrest_operator.Examples.{web, db, backup, jobs, start, env, env_with-IsCluster, start_small}
use backrest_operator.Backup.Jobs.Adopt.{adoptable, newest_from, find_owned_backup_job}
use backrest_operator.Backup.Jobs.Newest.{InFlight, job_prefix, find_owned_backup_job-newest}
use backrest_operator.Backup.Quiesce.{quiesce, unquiesce, release_quiesce, target_key}
use backrest_operator.Backup.Quiesce.Cluster.{current}
use backrest_operator.Backup.Quiesce.Split.{Lacks}
use backrest_operator.Backup.Quiesce.Restores.{
  IsScalable, AreDistinct, unquiesce-quiesce, workload_key,
}
use backrest_operator.Backup.Quiesce.Release.{release_quiesce-unrecorded}

find_owned_backup_job-newest_example :
    (j : Job) × (ts : ℕ) × In j jobs
    × (j.key.name ≡ bytes "pvcbackup-home-20")
    × InFlight (job_prefix backup) backup.metadata.uid j ts
    × ((k : Job) (u : ℕ)
        → In k jobs
        → InFlight (job_prefix backup) backup.metadata.uid k u
        → u ≤ ts)
unfolding find_owned_backup_job newest_from adoptable bytes ask ◌==◌
find_owned_backup_job-newest_example =
    find_owned_backup_job-newest env backup [] jobs refl (bytes "pvcbackup-home-20") refl

web_IsScalable : IsScalable (bytes "apps") web
unfolding bytes
web_IsScalable = record { workload = deployment; kind = refl; plain = omega arith }

db_IsScalable : IsScalable (bytes "apps") db
unfolding bytes
db_IsScalable = record { workload = stateful_set; kind = refl; plain = omega arith }

targets_AreDistinct : AreDistinct (bytes "apps") (web ∷ db ∷ [])
unfolding target_key bytes ◌==◌
targets_AreDistinct = (
  (
    (λ e.
        let h : false ≡ true =
          (eq_iff (target_key web (bytes "apps")) (target_key db (bytes "apps"))).1 e in
        cc h),
    tt,
  ),
  (tt, tt),
)

unquiesce-quiesce_example :
    ((quiesce env backup []).0.1 ≡ none)
    × ((w : Workload) (k : Key)
        → Lacks b'/' k.namespace
        → current start (unquiesce env (quiesce env backup []).0.0 (quiesce env backup []).1).1 w k
          ≡ start w k)
unfolding current
unquiesce-quiesce_example =
    unquiesce-quiesce env start (env_with-IsCluster []) start start_small backup []
      (web_IsScalable, (db_IsScalable, tt)) targets_AreDistinct (λ w k. refl)

release_quiesce-unrecorded_example :
    current start (release_quiesce env backup []).1 deployment (workload_key web (bytes "apps"))
    ≡ pos 1
unfolding text_at lookup web_IsScalable
release_quiesce-unrecorded_example =
    release_quiesce-unrecorded env start (env_with-IsCluster []) backup []
      (web_IsScalable, (db_IsScalable, tt)) targets_AreDistinct refl refl web In.head web_IsScalable
