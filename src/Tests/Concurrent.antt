-- ===== src/Tests/Concurrent.antt =====
-- Two backups of a claim, interleaved.
use backrest_operator.Prelude.{ℕ, zero, suc, ◌≡◌, refl, true, false, arith}
use backrest_operator.Api.{Phase}
use backrest_operator.Session.{backup_phase_active}
use backrest_operator.Backup.Concurrent.{
  Pc, System, Step, Steps, start, later, put, move, Free, IsQuiet,
}
use backrest_operator.Backup.Concurrent.Exclusion.{mutual_exclusion}
use backrest_operator.Backup.Concurrent.Outlived.{two_jobs}
use backrest_operator.Backup.Concurrent.Waiting.{Waits, deadlock}

abbrev quiet : System
quiet = record { phase = λ i. Phase.scheduled; pc = λ i. Pc.idle; left = λ i. false }

quiet-IsQuiet : IsQuiet quiet
unfolding backup_phase_active
quiet-IsQuiet i = (refl, refl, refl)

Free-first : Free 2 quiet 0
unfolding backup_phase_active
Free-first j lt ne = refl

deadlock_example :
    (t : System) × Steps 2 (λ i. true) false quiet t
    × ((u : System) → Steps 2 (λ i. true) false t u → Waits u 0 × Waits u 1)
deadlock_example =
    deadlock 2 (λ i. true) quiet 0 1 quiet-IsQuiet (omega arith) (omega arith)
      (λ e. absurd (omega (arith, e))) refl refl

two_jobs_example :
    (t : System) × Steps 2 (λ i. true) false quiet t × (t.left 0 ≡ true) × (t.pc 1 ≡ Pc.working)
two_jobs_example =
    two_jobs 2 (λ i. true) false quiet 0 1 quiet-IsQuiet (omega arith) (omega arith)
      (λ e. absurd (omega (arith, e))) refl refl

abbrev checked_0 : System
checked_0 = move quiet 0 Pc.checked

abbrev flagged_first : System
flagged_first = put checked_0 0 Phase.quiescing Pc.flagged

Free-flagged : Free 2 flagged_first 0
unfolding backup_phase_active
Free-flagged zero lt ne = absurd (ne refl)
Free-flagged (suc j) lt ne = ground arith

alone : Steps 2 (λ i. true) true quiet (move flagged_first 0 Pc.cleared)
alone =
    later
      (later (later start (Step.found_free 0 (omega arith) refl Free-first))
        (Step.flag 0 (omega arith) refl refl))
      (Step.recheck_free 0 (omega arith) refl Free-flagged)

mutual_exclusion_example : ◌≡◌ {A = ℕ} 0 0
mutual_exclusion_example =
    mutual_exclusion 2 (λ i. true) true (λ i. refl) quiet (move flagged_first 0 Pc.cleared)
      quiet-IsQuiet alone 0 0 (omega arith) (omega arith) refl refl

-- Without a quiesce no phase is written before the Jobs: both backups get theirs.
abbrev hasty : System
hasty = record { phase = λ i. Phase.scheduled; pc = λ i. Pc.flagged; left = λ i. false }

hasty-Free : (i : ℕ) → Free 2 hasty i
unfolding backup_phase_active
hasty-Free i j lt ne = refl

cleared-Free : Free 2 (move hasty 0 Pc.cleared) 1
unfolding backup_phase_active
cleared-Free zero lt ne = refl
cleared-Free (suc j) lt ne = ground arith

two_at_once : Steps 2 (λ i. false) true hasty (move (move hasty 0 Pc.cleared) 1 Pc.cleared)
two_at_once =
    later (later start (Step.recheck_free 0 (omega arith) refl (hasty-Free 0)))
      (Step.recheck_free 1 (omega arith) refl cleared-Free)
