-- ===== src/Backup/Run/Busy.antt =====
-- A run whose claims somebody else holds after it has quiesced.
use backrest_operator.Prelude.{◌≢◌, false, Option, List, ◌∷◌}
use backrest_operator.Api.{PvcBackup, key_of}
use backrest_operator.Effects.{Env, Result, Event, Trace}
use backrest_operator.Effects.Keeps.{Kind, kind}
use backrest_operator.Session.{HolderKind, SessionHolder, backup_pvc_keys, pvc_session_busy}
use backrest_operator.Backup.Quiesce.Restores.{State}
use backrest_operator.Backup.Poll.{come_back}
use backrest_operator.Backup.Run.{RunEnd, session_wait}

-- the check of the backup's claims
abbrev pub check : Env → PvcBackup → Trace → Result (Option (List SessionHolder)) × Trace
check env b = pvc_session_busy (backup_pvc_keys b) HolderKind.backup (key_of b.metadata) env

abbrev left : PvcBackup → State → RunEnd
left b s = record { outcome = come_back session_wait; backup = b; state = s; hold = false }

-- the traces that follow `t` and in which no Job is made after it
pub data NoJob (t : Trace) : Trace → Type 0 where
  start : NoJob t t
  other : {e : Event} {u : Trace} → kind e ≢ Kind.makes_job → NoJob t u → NoJob t (e ∷ u)
