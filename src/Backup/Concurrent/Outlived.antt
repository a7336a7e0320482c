-- ===== src/Backup/Concurrent/Outlived.antt =====
-- A Job that outlives its run lets another backup of the claim make one too.
use backrest_operator.Prelude.{
  ℕ, ◌<◌, ◌≡◌, ◌≢◌, refl, sym, inl, inr, Bool, true, eq_num, Bool-cases,
}
use backrest_operator.Api.{Phase}
use backrest_operator.Session.{backup_phase_active}
use backrest_operator.Backup.Concurrent.{
  Pc, System, put, move, leave, Free, Step, Steps, start, later, IsQuiet,
}
use backrest_operator.Backup.Concurrent.Paths.{eq_num-same, eq_num-other, put-pc, launched, launch}

module _ (n : ℕ) (quiesces : ℕ → Bool) (released : Bool) (s : System) (i j : ℕ) where
  -- the Job of `i` has a failed pod and runs on: the phase Failed is written
  abbrev failed_early : System
  failed_early = leave (put (launched n quiesces released s s i) i Phase.failed Pc.idle) i true

  -- From every state in which all backups are idle and without a Job, and for any two that quiesce, the
  -- steps can lead to a Job of each at once: one of them is written Failed while its Job runs, and
  -- then nothing keeps the other from making its own.
  pub two_jobs :
      IsQuiet s
      → i < n
      → j < n
      → i ≢ j
      → quiesces i ≡ true
      → quiesces j ≡ true
      → (t : System) × Steps n quiesces released s t × (t.left i ≡ true) × (t.pc j ≡ Pc.working)
  unfolding backup_phase_active
  two_jobs quiet li lj ne qi qj =
      let free : Free n s i = λ k lt other. (quiet k).1 in
      let cleared = move (put (move s i Pc.checked) i Phase.quiescing Pc.flagged) i Pc.cleared in
      let r = later (launch n quiesces released s s i li qi (quiet i).0 free start) (
        Step.outlived i Phase.failed li (rw (put-pc n cleared i Phase.uploading Pc.working) refl)
          refl) in
      (
        launched n quiesces released s failed_early j,
        launch n quiesces released s failed_early j lj qj
            (rw (eq_num-other j i (λ e. ne (sym e))) (quiet j).0)
            (λ k lt other. elim (Bool-cases (eq_num k i)) [
              | inl e ↦ rw e refl
              | inr e ↦ rw e (quiet k).1
            ])
            r,
        rw (eq_num-same i) refl,
        rw (eq_num-same j) refl,
      )
