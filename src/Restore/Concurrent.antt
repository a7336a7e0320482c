-- ===== src/Restore/Concurrent.antt =====
-- One backup and one restore of the same claim at once, in their two controllers: the steps of both
-- that read or write the phases (Reconcile, startResticRestore, pvcSessionBusy, interruptBackup),
-- interleaved in any order, with each list read as it is then. Each has one run at a time. A Job
-- of the backup may outlive its run. What an interrupt deletes is taken to be gone at once, unless the
-- deletion fails, whose error the code drops.
pub mod Laws
use backrest_operator.Prelude.{◌≡◌, ◌≢◌, Bool, true, false}
use backrest_operator.Api.{Phase}
use backrest_operator.Session.{backup_phase_active, restore_phase_active}
use backrest_operator.Backup.Concurrent.{Pc, polls}

-- Where the run of a restore stands: before it lists the holders, before the phase Quiescing, before
-- the Job, or with a Job.
pub data Place : Type 0 where
  outside listed flagged working : Place

-- `left` says whether the backup has a Job that runs still although its run is over.
pub record Race : Type 0 where
  pub backup : Phase
  pub run : Pc
  pub left : Bool
  pub restore : Phase
  pub place : Place

-- the run of a backup whose Job is deleted; what has no Job yet goes on
abbrev pub interrupted : Pc → Pc
interrupted Pc.working = Pc.idle
interrupted Pc.resumed = Pc.idle
interrupted p = p

-- with a Job, or about to make one
abbrev pub at_job : Pc → Bool
at_job Pc.cleared = true
at_job p = polls p

-- One step. `over` says whether the restore may end meanwhile.
pub data Step (over : Bool) (s : Race) : Race → Type 0 where
  found_free :
      s.run ≡ Pc.idle
      → restore_phase_active s.restore ≡ false
      → Step over s (record s { run = Pc.checked })
  found_busy : s.run ≡ Pc.idle → restore_phase_active s.restore ≡ true → Step over s s
  flag : s.run ≡ Pc.checked → Step over s (record s { run = Pc.flagged; backup = Phase.quiescing })
  -- a backup that does not quiesce
  unflagged : s.run ≡ Pc.checked → Step over s (record s { run = Pc.flagged })
  snapshot : s.run ≡ Pc.flagged → Step over s (record s { backup = Phase.snapshotting })
  recheck_free :
      s.run ≡ Pc.flagged
      → restore_phase_active s.restore ≡ false
      → Step over s (record s { run = Pc.cleared })
  recheck_busy :
      s.run ≡ Pc.flagged
      → restore_phase_active s.restore ≡ true
      → Step over s (record s { run = Pc.idle })
  -- the Job is made, and the status is written or refused
  saved : s.run ≡ Pc.cleared → Step over s (record s { run = Pc.working; backup = Phase.uploading })
  unsaved : s.run ≡ Pc.cleared → Step over s (record s { run = Pc.working })
  adopted : s.run ≡ Pc.working → Step over s (record s { backup = Phase.uploading })
  -- the Job is over
  ended :
      (p : Phase)
      → polls s.run ≡ true
      → backup_phase_active p ≡ false
      → Step over s (record s { run = Pc.idle; backup = p })
  -- The Job is not over, but cannot be read, or has a failed pod and retries left, or is to be
  -- cancelled and cannot be deleted.
  outlived :
      (p : Phase)
      → polls s.run ≡ true
      → backup_phase_active p ≡ false
      → Step over s (record s { run = Pc.idle; backup = p; left = true })
  -- the status was refused, and the Job is not found among those to adopt
  lost :
      s.run ≡ Pc.working
      → s.backup ≢ Phase.uploading
      → Step over s (record s { run = Pc.idle; left = true })
  -- a Job that was left is adopted, without a look at the session; there may be more of them
  resume :
      (more : Bool)
      → s.run ≡ Pc.idle
      → s.left ≡ true
      → Step over s (record s { run = Pc.resumed; backup = Phase.uploading; left = more })
  -- it ends by itself
  expired : Step over s (record s { left = false })
  -- fail, or an error, or its own phase read as Failed, before there is a Job
  failed : polls s.run ≡ false → Step over s (record s { run = Pc.idle; backup = Phase.failed })
  aborted : polls s.run ≡ false → Step over s (record s { run = Pc.idle })
  -- an idle backup that is not active, or is cancelled: it prunes, or waits for its slot
  settled :
      (p : Phase)
      → s.run ≡ Pc.idle
      → backup_phase_active p ≡ false
      → Step over s (record s { backup = p })
  -- the restore lists the holders, and interrupts the backup if it is active
  list_free :
      s.place ≡ Place.outside
      → backup_phase_active s.backup ≡ false
      → Step over s (record s { place = Place.listed })
  interrupt :
      s.place ≡ Place.outside
      → backup_phase_active s.backup ≡ true
      → Step over s
          (record s { place = Place.listed; backup = Phase.failed; run = interrupted s.run })
  interrupt_kept :
      s.place ≡ Place.outside
      → backup_phase_active s.backup ≡ true
      → polls s.run ≡ true
      → Step over s
          (record s { place = Place.listed; backup = Phase.failed; run = Pc.idle; left = true })
  -- the phase is written, or not: the code drops the error, or nothing is quiesced
  restore_flag :
      s.place ≡ Place.listed
      → Step over s (record s { place = Place.flagged; restore = Phase.quiescing })
  restore_unflagged : s.place ≡ Place.listed → Step over s (record s { place = Place.flagged })
  restore_saved :
      s.place ≡ Place.flagged
      → Step over s (record s { place = Place.working; restore = Phase.restoring })
  -- an error, or the operator's end
  restore_aborted : Step over s (record s { place = Place.outside })
  restore_over :
      (p : Phase)
      → over ≡ true
      → restore_phase_active p ≡ false
      → Step over s (record s { place = Place.outside; restore = p })

-- what can come of `s`
pub data Steps (over : Bool) (s : Race) : Race → Type 0 where
  start : Steps over s s
  later : {t u : Race} → Steps over s t → Step over t u → Steps over s u
