-- ===== src/Backup/Traces/Runs.antt =====
-- Which Jobs a run of a PVCBackup makes.
use backrest_operator.Prelude.{ℕ, ◌≡◌, ◌≢◌, refl, Bytes, bytes, Option, none, some, List, [], ◌∷◌}
use backrest_operator.Prelude.Int.{ℤ}
use backrest_operator.Api.{Phase, PvcBackup, BackupRepository, key_of}
use backrest_operator.Effects.{
  Env, Result, ok, err, Error, Event, Trace, M, tell, ask, ◌>>=◌, on_option,
}
use backrest_operator.Effects.Keeps.{
  Keeps, Kind, kind, Ignores, Keeps-ask, Keeps-tell, Keeps-bind, Keeps-on_option, keeps_rules,
}
use backrest_operator.Session.{SessionHolder}
use backrest_operator.Backup.Jobs.{
  build_restic_prune_job, create_restic_backup_job, create_restic_prune_job, job_name,
}
use backrest_operator.Backup.Outcomes.{failed_already}
use backrest_operator.Backup.Poll.{finished}
use backrest_operator.Backup.Run.{
  RunEnd, leave, abort, self_busy, unless_busy, after_status, after_job_create, launch_job, recheck,
  run_pipeline, run_quiesced, run_free, run_session, run_body, deferred, start_run,
}
use backrest_operator.Backup.Run.Snapshot.{set_phase}
use backrest_operator.Backup.Run.Busy.{check}
use backrest_operator.Backup.Traces.Plain.{
  schedule_due-Keeps, persist_quiesce_state-Keeps, sync_after_run-Keeps,
  remove_pvc_backup_plan_from_host-Keeps, ensure_repo_secrets-Keeps, update_status-Keeps,
  fail_prune-Keeps, poll_prune_job-Keeps, find_owned_backup_job-Keeps, find_owned_prune_job-Keeps,
}
use backrest_operator.Backup.Traces.Snapshots.{pvc_session_busy-Keeps, pipeline_steps-Keeps}
use backrest_operator.Backup.Traces.Scaling.{
  quiesce-Keeps, unquiesce-Keeps, fail-Keeps, poll_backup_job-Keeps, handle_force_cancel-Keeps,
}

-- The traces that follow `t` in which every Job is a prune Job, which mounts no claim, or a backup
-- Job that was made right after a session check of its backup that found nobody.
pub data Guarded (env : Env) (t : Trace) : Trace → Type 0 where
  start : Guarded env t t
  other :
      {e : Event} {u : Trace} → kind e ≢ Kind.makes_job → Guarded env t u → Guarded env t (e ∷ u)
  prune :
      {u : Trace} (b : PvcBackup) (repo : BackupRepository) (name : Bytes) (k : ℤ)
      → Guarded env t u
      → Guarded env t (Event.create_job (build_restic_prune_job b repo name k) ∷ u)
  backup :
      {u : Trace} (b : PvcBackup) (repo : BackupRepository) (name : Bytes) (upload : List Bytes)
      → (check env b u).0 ≡ ok none
      → Guarded env t u
      → Guarded env t
          (create_restic_backup_job env
            (set_phase b Phase.uploading)
            repo
            name
            upload
            (check env b u).1).1

pub Guarded-plain : (env : Env) (t : Trace) → Ignores (Guarded env t) Kind.plain
Guarded-plain env t e u h g = Guarded.other (λ x. cc) g

pub Guarded-touches : (env : Env) (t : Trace) → Ignores (Guarded env t) Kind.touches_workload
Guarded-touches env t e u h g = Guarded.other (λ x. cc) g

pub Guarded-ask :
    (env : Env) (t : Trace) {A : Type 0} (answer : Trace → A) (e : Event)
    → kind e ≡ Kind.plain
    → Keeps (Guarded env t) (ask answer e)
Guarded-ask env t answer e h = Keeps-ask answer e h (Guarded-plain env t)

pub Guarded-tell :
    (env : Env) (t : Trace) (e : Event) → kind e ≡ Kind.plain → Keeps (Guarded env t) (tell e)
Guarded-tell env t e h = Keeps-tell e h (Guarded-plain env t)

pub ruleset guarded_rules = (
  Guarded-ask, Guarded-tell, keeps_rules, Guarded-plain, Guarded-touches, schedule_due-Keeps,
  persist_quiesce_state-Keeps, sync_after_run-Keeps, remove_pvc_backup_plan_from_host-Keeps,
  ensure_repo_secrets-Keeps, update_status-Keeps, fail_prune-Keeps, poll_prune_job-Keeps,
  find_owned_backup_job-Keeps, find_owned_prune_job-Keeps, pvc_session_busy-Keeps,
  pipeline_steps-Keeps, quiesce-Keeps, unquiesce-Keeps, fail-Keeps, poll_backup_job-Keeps,
  handle_force_cancel-Keeps,
)

module _ (env : Env) (t : Trace) where
  abort-Keeps :
      (b : PvcBackup) (s : List (Bytes × ℤ)) (e : Error) → Keeps (Guarded env t) (abort env b s e)
  unfolding abort
  abort-Keeps b s e = search guarded_rules

  after_status-Keeps : (u : PvcBackup × Option Error) → Keeps (Guarded env t) (after_status env u)
  after_status-Keeps (b, some e) = search keeps_rules
  after_status-Keeps (b, none) = search guarded_rules

  after_job_create-Keeps :
      (b : PvcBackup) (s : List (Bytes × ℤ)) (n : Bytes)
      → Keeps (Guarded env t) (after_job_create env b s n)
  unfolding after_job_create
  after_job_create-Keeps b s n = search (guarded_rules, after_status-Keeps) depth 9

  -- after a check that found nobody the Job is made at once
  launch_job-Guarded :
      (b : PvcBackup) (repo : BackupRepository) (s : List (Bytes × ℤ)) (up : List Bytes) (n : ℕ)
      (u : Trace)
      → (check env b u).0 ≡ ok none
      → Guarded env t u
      → Guarded env t (launch_job env b repo s up n (check env b u).1).1
  unfolding launch_job
  launch_job-Guarded b repo s up n u h g =
      let name = job_name (bytes "pvcbackup-") b.metadata.name n in
      let c = set_phase b Phase.uploading in
      let made = create_restic_backup_job env c repo name up (check env b u).1 in
      (Keeps-on_option made.0 (abort env c s) (after_job_create env c s name) (abort-Keeps c s)
          (after_job_create-Keeps c s name)).at
        made.1 (Guarded.backup b repo name up h g)

  -- the check, and what follows each of its answers
  checked-Guarded :
      (b : PvcBackup) (s : List (Bytes × ℤ)) (next : M RunEnd) (u : Trace)
      (r : Result (Option (List SessionHolder)))
      → (check env b u).0 ≡ r
      → ((check env b u).0 ≡ ok none → Guarded env t (next (check env b u).1).1)
      → Guarded env t u
      → Guarded env t (unless_busy env b s next r (check env b u).1).1
  checked-Guarded b s next u (ok none) e free g = free e
  checked-Guarded b s next u (ok (some hs)) e free g =
      (pvc_session_busy-Keeps env (Guarded-plain env t) _ _ _).at u g
  checked-Guarded b s next u (err x) e free g =
      (pvc_session_busy-Keeps env (Guarded-plain env t) _ _ _).at u g

  launch_checked-Keeps :
      (b : PvcBackup) (repo : BackupRepository) (s : List (Bytes × ℤ)) (up : List Bytes) (n : ℕ)
      → Keeps
          (Guarded env t)
          (self_busy env b >>= λ busy. unless_busy env b s (launch_job env b repo s up n) busy)
  launch_checked-Keeps b repo s up n = record {
    at = λ u g.
        checked-Guarded b s (launch_job env b repo s up n) u (check env b u).0 refl
          (λ free. launch_job-Guarded b repo s up n u free g) g;
  }

  recheck-Keeps :
      (b : PvcBackup) (repo : BackupRepository) (s : List (Bytes × ℤ)) (up : List Bytes) (n : ℕ)
      → Keeps (Guarded env t) (recheck env b repo s up n)
  unfolding recheck
  recheck-Keeps b repo s up n =
      let launch : M RunEnd =
        self_busy env b >>= λ busy. unless_busy env b s (launch_job env b repo s up n) busy in
      Keeps-bind (ask env.backup (Event.get_backup (key_of b.metadata)))
        (λ f. on_option (failed_already f) (λ _. leave env b s finished) launch)
        (search guarded_rules)
        (λ f.
          Keeps-on_option (failed_already f) (λ _. leave env b s finished) launch
            (λ _. search keeps_rules) (launch_checked-Keeps b repo s up n))

  pub create_restic_prune_job-Keeps :
      (b : PvcBackup) (repo : BackupRepository) (n : Bytes) (k : ℤ)
      → Keeps (Guarded env t) (create_restic_prune_job env b repo n k)
  unfolding create_restic_prune_job ask
  create_restic_prune_job-Keeps b repo n k = record { at = λ u g. Guarded.prune b repo n k g }

  run_pipeline-Keeps :
      (b : PvcBackup) (repo : BackupRepository) (s : List (Bytes × ℤ)) (ps : List Bytes) (n : ℕ)
      → Keeps (Guarded env t) (run_pipeline env b repo s ps n)
  unfolding run_pipeline
  run_pipeline-Keeps b repo s ps n = search (guarded_rules, abort-Keeps, recheck-Keeps) depth 9

  run_quiesced-Keeps :
      (b : PvcBackup) (repo : BackupRepository) (ps : List Bytes) (n : ℕ)
      → Keeps (Guarded env t) (run_quiesced env b repo ps n)
  unfolding run_quiesced
  run_quiesced-Keeps b repo ps n = search (guarded_rules, abort-Keeps, run_pipeline-Keeps) depth 12

  run_free-Keeps :
      (b : PvcBackup) (repo : BackupRepository) (ps : List Bytes) (n : ℕ)
      → Keeps (Guarded env t) (run_free env b repo ps n)
  unfolding run_free
  run_free-Keeps b repo ps n = search (guarded_rules, abort-Keeps, run_quiesced-Keeps) depth 9

  run_session-Keeps :
      (b : PvcBackup) (repo : BackupRepository) (ps : List Bytes) (n : ℕ)
      → Keeps (Guarded env t) (run_session env b repo ps n)
  unfolding run_session
  run_session-Keeps b repo ps n = record {
    at = λ u g.
        checked-Guarded b [] (run_free env b repo ps n) u (check env b u).0 refl
          (λ free.
            (run_free-Keeps b repo ps n).at (check env b u).1
              ((pvc_session_busy-Keeps env (Guarded-plain env t) _ _ _).at u g))
          g;
  }

  run_body-Keeps : (b : PvcBackup) (ps : List Bytes) → Keeps (Guarded env t) (run_body env b ps)
  unfolding run_body
  run_body-Keeps b ps = search (guarded_rules, abort-Keeps, run_session-Keeps) depth 9

  deferred-Keeps : (r : RunEnd) → Keeps (Guarded env t) (deferred env r)
  unfolding deferred
  deferred-Keeps r = search guarded_rules

  pub start_run-Keeps :
      (b : PvcBackup) (ps : List Bytes) → Keeps (Guarded env t) (start_run env b ps)
  unfolding start_run
  start_run-Keeps b ps = search (guarded_rules, run_body-Keeps, deferred-Keeps) depth 9
