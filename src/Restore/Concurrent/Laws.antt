-- ===== src/Restore/Concurrent/Laws.antt =====
-- What keeps a backup and a restore of one claim apart, and what does not.
use backrest_operator.Prelude.{◌≡◌, refl, true, false, arith}
use backrest_operator.Session.{restore_phase_active}
use backrest_operator.Backup.Concurrent.{Pc}
use backrest_operator.Restore.Concurrent.{
  Race, Step, found_free, found_busy, flag, unflagged, snapshot, recheck_free, recheck_busy, saved,
  unsaved, adopted, ended, outlived, lost, resume, expired, failed, aborted, settled, list_free,
  interrupt, interrupt_kept, restore_flag, restore_unflagged, restore_saved, restore_aborted,
  restore_over, interrupted, at_job, polls, Steps, start, later,
}

-- the backup has no Job, and is not about to make one
abbrev pub HasNoJob : Race → Type 0
HasNoJob s = (at_job s.run ≡ false) × (s.left ≡ false)

-- the restore is active, and the backup has no Job
abbrev pub IsExcluded : Race → Type 0
IsExcluded s = (restore_phase_active s.restore ≡ true) × HasNoJob s

at_job-interrupted : (p : Pc) → at_job p ≡ false → at_job (interrupted p) ≡ false
at_job-interrupted Pc.working h = refl
at_job-interrupted Pc.resumed h = refl
at_job-interrupted Pc.idle h = refl
at_job-interrupted Pc.checked h = refl
at_job-interrupted Pc.flagged h = refl
at_job-interrupted Pc.cleared h = h

at_job-polls : (p : Pc) → at_job p ≡ false → polls p ≡ true → ⊥
at_job-polls p h on = ground (arith, h, on)

step-IsExcluded : (s t : Race) → IsExcluded s → Step false s t → IsExcluded t
unfolding restore_phase_active
step-IsExcluded s t (on, (h, l)) (found_free at off) = (on, (refl, l))
step-IsExcluded s t h (found_busy at off) = h
step-IsExcluded s t (on, (h, l)) (flag at) = (on, (refl, l))
step-IsExcluded s t (on, (h, l)) (unflagged at) = (on, (refl, l))
step-IsExcluded s t h (snapshot at) = h
step-IsExcluded s t (on, (h, l)) (recheck_free at off) = absurd cc
step-IsExcluded s t (on, (h, l)) (recheck_busy at busy) = (on, (refl, l))
step-IsExcluded s t (on, (h, l)) (saved at) = absurd cc
step-IsExcluded s t (on, (h, l)) (unsaved at) = absurd cc
step-IsExcluded s t h (adopted at) = h
step-IsExcluded s t (on, (h, l)) (ended p at off) = (on, (refl, l))
step-IsExcluded s t (on, (h, l)) (outlived p at off) = absurd (at_job-polls s.run h at)
step-IsExcluded s t (on, (h, l)) (lost at off) = absurd cc
step-IsExcluded s t (on, (h, l)) (resume more at old) = absurd cc
step-IsExcluded s t (on, (h, l)) expired = (on, (h, refl))
step-IsExcluded s t (on, (h, l)) (failed at) = (on, (refl, l))
step-IsExcluded s t (on, (h, l)) (aborted at) = (on, (refl, l))
step-IsExcluded s t h (settled p at off) = h
step-IsExcluded s t h (list_free at off) = h
step-IsExcluded s t (on, (h, l)) (interrupt at active) = (on, (at_job-interrupted s.run h, l))
step-IsExcluded s t (on, (h, l)) (interrupt_kept at active busy) =
    absurd (at_job-polls s.run h busy)
step-IsExcluded s t (on, (h, l)) (restore_flag at) = (refl, (h, l))
step-IsExcluded s t h (restore_unflagged at) = h
step-IsExcluded s t (on, (h, l)) (restore_saved at) = (refl, (h, l))
step-IsExcluded s t h restore_aborted = h
step-IsExcluded s t h (restore_over p over off) = absurd cc

steps-IsExcluded : (s t : Race) → IsExcluded s → Steps false s t → IsExcluded t
steps-IsExcluded s t h start = h
steps-IsExcluded s t h (later {t = u} r st) = step-IsExcluded u t (steps-IsExcluded s u h r) st

-- However both are interleaved, if each list is read as it is: once a restore has an active phase
-- while the backup has not passed the check before its Job and has no Job of an earlier run left, the
-- backup has no Job, made or adopted, until the restore is over.
pub restore_excludes : (s t : Race) → IsExcluded s → Steps false s t → HasNoJob t
restore_excludes s t h r = (steps-IsExcluded s t h r).1
