-- ===== src/Restore/Laws/Down.antt =====
-- What a failed restore leaves alone, and what is deleted of an interrupted backup.
use backrest_operator.Prelude.{
  ap, ◌∙◌, ◌≡◌, Bytes, bytes, true, false, is_empty, Option, none, some, List, ◌∷◌, ◌++◌, ◌*◌,
  if◌then◌else◌, In, inl, inr, Bool-cases,
}
use backrest_operator.Prelude.Int.{is_positive}
use backrest_operator.Api.{PvcBackup, PvcRestore, BackupRepository, key_of, ref_key}
use backrest_operator.Effects.{
  Env, Result, ok, Error, Event, Trace, Job, M, on_option, pure, ask, tell, ◌>>=◌, ◌>>◌,
  plain_error, wrap_error, on_result,
}
use backrest_operator.Effects.Rules.{Result-cases}
use backrest_operator.Effects.Keeps.{Keeps, Kind, Ignores, Keeps-bind, keeps_rules}
use backrest_operator.Session.{
  HolderKind, SessionHolder, restore_pvc_keys, list_pvc_session_holders, holders_of_kind,
}
use backrest_operator.Backup.Schedule.{second}
use backrest_operator.Backup.Jobs.Adopt.{find_owned_backup_job}
use backrest_operator.Backup.Outcomes.{fail}
use backrest_operator.Backup.Poll.{come_back, stopped, delete_current_job, job_key}
use backrest_operator.Backup.Traces.Prune.{Untouched, Untouched-plain}
use backrest_operator.Backup.Traces.Plain.{find_owned_backup_job-Keeps}
use backrest_operator.Backup.Traces.Scaling.{fail-Keeps}
use backrest_operator.Restore.Run.{
  update_restore_status, fail_restore, poll_restore_job, interrupt_backup, interrupt_holders,
  prepare_restore, delete_adopted, start_restic_restore, unless_restoring,
}

fail_restore-Keeps :
    (env : Env) {I : Trace → Type 0}
    → Ignores I Kind.plain
    → (r : PvcRestore) (e : Error) → Keeps I (fail_restore env r e)
unfolding fail_restore update_restore_status
fail_restore-Keeps env plain r e = search keeps_rules depth 9

module _ (env : Env) (r : PvcRestore) (t : Trace) where
  -- the request for the Job of the restore
  abbrev pub asked : Trace
  asked =
      Event.get_job (record { namespace = r.metadata.namespace; name = r.status.last_job_name }) ∷ t

  -- A restore whose Job has not succeeded, because it failed, runs still or cannot be read, touches
  -- no workload when it is polled: what the restore took down stays down.
  pub poll_restore_job-Untouched :
      ((job : Job) → env.job asked ≡ ok job → is_positive job.succeeded ≡ false)
      → Untouched t (poll_restore_job env r t).1
  unfolding poll_restore_job ask
  poll_restore_job-Untouched h = elim (Result-cases (env.job asked)) [
    | inr (e, p) ↦ rw p (
        (fail_restore-Keeps env (Untouched-plain t) r
            (wrap_error (bytes "restic restore job " ++ r.status.last_job_name ++ bytes ": ") e)).at
          _ (Untouched.other (λ x. cc) Untouched.start))
    | inl (job, p) ↦ elim (Bool-cases (is_positive job.failed)) [
      | inl f ↦
          rw (p, h job p, f)
            ((fail_restore-Keeps env (Untouched-plain t) r
                (plain_error (bytes "restic restore job failed"))).at
              _ (Untouched.other (λ x. cc) Untouched.start))
      | inr f ↦ rw (p, h job p, f) (Untouched.other (λ x. cc) Untouched.start)
    ]
  ]

  abbrev pub opened : Trace
  opened = Event.get_repository (ref_key r.spec.repository_ref r.metadata.namespace) ∷ t

  abbrev pub holders : Result (List SessionHolder) × Trace
  holders =
      list_pvc_session_holders (restore_pvc_keys r) HolderKind.restore (key_of r.metadata) env
        opened

  -- When the repository is there and another restore holds the claim, a restore only looks: its
  -- requests are the repository and the lists of the check, and it comes back in 30 seconds.
  start_restic_restore-busy :
      (repo : BackupRepository) (hs : List SessionHolder)
      → env.repository opened ≡ ok repo
      → holders.0 ≡ ok hs
      → is_empty (holders_of_kind false hs) ≡ false
      → start_restic_restore env r t ≡ (come_back (30 * second), holders.1)
  unfolding start_restic_restore ask unless_restoring
  start_restic_restore-busy repo hs e h b = rw e (
      ap (λ x. on_result x (λ f. pure (stopped f)) (unless_restoring env r repo) holders.1) h
      ∙ ap
          (λ x.
            (if x
                then (do
                  f ← interrupt_holders env r (holders_of_kind true hs)
                  on_option f (λ y. pure (stopped y)) (prepare_restore env r repo))
                else pure (come_back (30 * second)))
              holders.1)
          b)

In-Ignores : (ev : Event) (k : Kind) → Ignores (In ev) k
In-Ignores ev k e u h i = In.tail i

delete_adopted-Keeps :
    (env : Env) (ev : Event) (b : PvcBackup) (j : Option Bytes)
    → Keeps (In ev) (delete_adopted env b j)
unfolding tell
delete_adopted-Keeps env ev b none = record { at = λ u i. i }
delete_adopted-Keeps env ev b (some name) = record { at = λ u i. In.tail i }

-- what interruptBackup does once the Job of the status is gone
abbrev adopted_too : Env → PvcBackup → Bytes → Option Bytes → M (Unit {0})
adopted_too env b reason j = do delete_adopted env b j; fail env b (plain_error reason); pure tt

adopted_too-Keeps :
    (env : Env) (ev : Event) (b : PvcBackup) (reason : Bytes) (j : Option Bytes)
    → Keeps (In ev) (adopted_too env b reason j)
adopted_too-Keeps env ev b reason j =
    Keeps-bind (delete_adopted env b j) _ (delete_adopted-Keeps env ev b j) (λ x.
      Keeps-bind (fail env b (plain_error reason)) _
        (fail-Keeps env (In-Ignores ev Kind.plain) (In-Ignores ev Kind.touches_workload) b
          (plain_error reason))
        (λ y. record { at = λ u i. i }))

deleted-In :
    (env : Env) (b : PvcBackup) (t : Trace)
    → is_empty b.status.last_job_name ≡ false
    → In (Event.delete_job (job_key b)) (delete_current_job env b t).1
unfolding delete_current_job tell
deleted-In env b t h = rw h In.head

adopted-In :
    (env : Env) (b : PvcBackup) (reason name : Bytes) (j : Option Bytes) (t : Trace)
    → j ≡ some name
    → In
        (Event.delete_job (record { namespace = b.metadata.namespace; name = name }))
        (adopted_too env b reason j t).1
unfolding tell
adopted-In env b reason name j t e =
    let gone = Event.delete_job (record { namespace = b.metadata.namespace; name = name }) in
    rw e (
      (fail-Keeps env (In-Ignores gone Kind.plain) (In-Ignores gone Kind.touches_workload) b
          (plain_error reason)).at
        _ In.head)

-- Interrupting a backup asks for the deletion of its Jobs: after it the trace has a request to delete
-- the Job that the status names, if it names one, and one for the Job that would be adopted then, if
-- there is one. Whether the deletions succeed is not looked at.
pub interrupt_backup-deletes :
    (env : Env) (b : PvcBackup) (reason : Bytes) (t : Trace)
    → (is_empty b.status.last_job_name ≡ false
        → In (Event.delete_job (job_key b)) (interrupt_backup env b reason t).1)
      × ((name : Bytes)
          → (find_owned_backup_job env b (delete_current_job env b t).1).0 ≡ some name
          → In
              (Event.delete_job (record { namespace = b.metadata.namespace; name = name }))
              (interrupt_backup env b reason t).1)
unfolding interrupt_backup
interrupt_backup-deletes env b reason t =
    let deleted = delete_current_job env b t in
    let found = find_owned_backup_job env b deleted.1 in
    (
      λ h. (adopted_too-Keeps env (Event.delete_job (job_key b)) b reason found.0).at found.1 (
          (find_owned_backup_job-Keeps env (In-Ignores (Event.delete_job (job_key b)) Kind.plain)
              b).at
            deleted.1 (deleted-In env b t h)),
      λ name e. adopted-In env b reason name found.0 found.1 e,
    )
