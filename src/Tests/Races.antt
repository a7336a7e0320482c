-- ===== src/Tests/Races.antt =====
-- The theorems on a backup and a restore of one claim.
use backrest_operator.Prelude.{refl, true, false}
use backrest_operator.Api.{Phase}
use backrest_operator.Session.{restore_phase_active}
use backrest_operator.Backup.Concurrent.{Pc}
use backrest_operator.Restore.Concurrent.{Place, Race, Step, start, later}
use backrest_operator.Restore.Concurrent.Laws.{HasNoJob, restore_excludes}

-- the restore has a Job while the backup quiesces
abbrev restoring : Race
restoring = record {
  backup = Phase.quiescing;
  run = Pc.flagged;
  left = false;
  restore = Phase.restoring;
  place = Place.working;
}

restore_excludes_example : HasNoJob (record restoring { run = Pc.idle })
unfolding restore_phase_active
restore_excludes_example =
    restore_excludes restoring (record restoring { run = Pc.idle }) (refl, (refl, refl))
      (later start (Step.recheck_busy refl refl))

abbrev idle : Race
idle = record {
  backup = Phase.scheduled;
  run = Pc.idle;
  left = false;
  restore = Phase.unset;
  place = Place.outside;
}

-- the backup has failed, and its Job runs on
abbrev outlived : Race
outlived = record idle { backup = Phase.failed; left = true }
