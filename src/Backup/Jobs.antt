-- ===== src/Backup/Jobs.antt =====
-- The restic Jobs of a backup: their volumes, names and specs, and the search for one to adopt.
pub mod Adopt
pub mod Newest
pub mod Names
use backrest_operator.Prelude.{
  ℕ, zero, suc, Bytes, bytes, Bool, true, false, Option, none, some, List, [], ◌∷◌, ◌++◌, ◌&&◌,
  ◌||◌, not, is_empty, ◌==◌, map, take, or_text, if◌then◌else◌,
}
use backrest_operator.Prelude.Int.{ℤ, pos}
use backrest_operator.Prelude.Decimal.{decimal}
use backrest_operator.Api.{PvcBackup, BackupRepository, Key}
use backrest_operator.Shell.{restic_backup_job_script, prune_job_script}
use backrest_operator.Effects.{
  on_result, on_option, is_not_found, Env, Result, ok, err, Error, Reason, Event, M, pure, ask,
  ◌>>=◌, JobSpec,
}
use backrest_operator.Backup.Spec.{job_retries, repository_key}
use backrest_operator.Backup.Host.{
  own_paths, data_path, plan_id_for_pvc_backup, instance_for_cluster, resolve_cluster_ref,
}

-- the mount of each claim where paths are given: its own path, and the first one past the end
unfoldable pub mounts_at : Bytes → List Bytes → List Bytes → List (Bytes × Bytes)
mounts_at first paths [] = []
mounts_at first [] (pvc ∷ pvcs) = (pvc, first) ∷ mounts_at first [] pvcs
mounts_at first (p ∷ ps) (pvc ∷ pvcs) = (pvc, p) ∷ mounts_at first ps pvcs

abbrev build_from : List Bytes → List Bytes → List (Bytes × Bytes) × List Bytes
build_from [] pvcs = (map (λ pvc. (pvc, data_path pvc)) pvcs, map data_path pvcs)
build_from (p ∷ ps) pvcs = (mounts_at p (p ∷ ps) pvcs, p ∷ ps)

-- The claims with their mount paths, and the paths to back up. A volume is named by its position,
-- so the pairs say which claim stands behind which mount. All are mounted read-write.
unfoldable pub build_restic_backup_job_volumes :
    PvcBackup → List Bytes → List (Bytes × Bytes) × List Bytes
unfolding mounts_at
build_restic_backup_job_volumes b pvcs = build_from (own_paths b.spec.paths) pvcs

unfoldable pub key_or : Bytes → Bytes → Bytes
key_or k default = or_text k default

-- the secret and the key of RESTIC_PASSWORD
unfoldable pub restic_password : BackupRepository → Bytes × Bytes
unfolding key_or
restic_password repo =
    (repo.spec.password_secret_name, key_or repo.spec.password_secret_key (bytes "RESTIC_PASSWORD"))

-- an environment secret with an empty name counts as none
unfoldable pub env_from : BackupRepository → Option Bytes
env_from repo = elim repo.spec.env_from_secret [
  | none ↦ none
  | some name ↦ if is_empty name then none else some name
]

abbrev pub default_ttl : ℤ
default_ttl = pos 86400

abbrev pub or_int : Option ℤ → ℤ → ℤ
or_int none d = d
or_int (some k) d = k

-- fmt.Sprintf("<prefix>%s-%d", name, unix), cut to 63 bytes
unfoldable pub job_name : Bytes → Bytes → ℕ → Bytes
job_name prefix name unix = take 63 (prefix ++ (name ++ b'-' ∷ decimal unix))

-- client.Create, where an object that is there already is no error
abbrev pub ignore_already_exists : Option Error → Option Error
ignore_already_exists none = none
ignore_already_exists (some e) = elim e.reason [ Reason.already_exists ↦ none | _ ↦ some e ]

unfoldable pub job_spec :
    PvcBackup → BackupRepository → Bytes → Bytes → List (Bytes × Bytes) → JobSpec
unfolding job_retries restic_password env_from
job_spec b repo name script mounts = record {
  key = record { namespace = b.metadata.namespace; name = name };
  script = script;
  url = repo.spec.url;
  password = restic_password repo;
  env_from = env_from repo;
  backoff_limit = job_retries b;
  ttl = some (or_int b.spec.ttl_seconds_after_finished default_ttl);
  node_selector = b.spec.node_selector;
  mounts = mounts;
  owner_uid = some b.metadata.uid;
}

-- the retention of the prune Job, which is made only where one is set
unfoldable pub build_restic_prune_job : PvcBackup → BackupRepository → Bytes → ℤ → JobSpec
unfolding job_spec
build_restic_prune_job b repo name keep_last = job_spec b repo name (prune_job_script keep_last) []

module _ (env : Env) where
  -- the instance tag: the cluster of the repository as it is read now
  unfoldable pub instance_of : PvcBackup → M Bytes
  instance_of b =
      if not (is_empty b.spec.repository_ref.namespace) || not (is_empty b.spec.repository_ref.name)
      then (do
        r ← ask env.repository (Event.get_repository (repository_key b))
        on_result r (λ e. pure (bytes "main"))
            (λ repo. pure (
              instance_for_cluster
                (resolve_cluster_ref repo.spec.cluster_ref repo.metadata.namespace).name)))
      else pure (bytes "main")

  unfoldable pub backup_job : PvcBackup → BackupRepository → Bytes → List Bytes → Bytes → JobSpec
  unfolding job_spec build_restic_backup_job_volumes
  backup_job b repo name pvcs inst =
      let (mounts, paths) = build_restic_backup_job_volumes b pvcs in
      job_spec b repo name
        (restic_backup_job_script paths b.spec.excludes (plan_id_for_pvc_backup b) inst
          b.spec.keep_last)
        mounts

  unfoldable pub create_restic_backup_job :
      PvcBackup → BackupRepository → Bytes → List Bytes → M (Option Error)
  unfolding instance_of
  create_restic_backup_job b repo name pvcs = do
    inst ← instance_of b
    e ← ask env.done (Event.create_job (backup_job b repo name pvcs inst))
    pure (ignore_already_exists e)

  unfoldable pub create_restic_prune_job :
      PvcBackup → BackupRepository → Bytes → ℤ → M (Option Error)
  create_restic_prune_job b repo name keep_last = do
    e ← ask env.done (Event.create_job (build_restic_prune_job b repo name keep_last))
    pure (ignore_already_exists e)
