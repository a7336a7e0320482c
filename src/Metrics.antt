-- ===== src/Metrics.antt =====
-- internal/metrics/metrics.go: in this file the timestamp that the gauges are seeded with. What the
-- observers do is in Registry; that they are called is an event of the trace.
pub mod Registry
pub mod Laws
use backrest_operator.Prelude.{ℕ, Bool, true, false}
use backrest_operator.Api.{Phase, Timestamp, PvcBackupStatus}

abbrev success_phase : Phase → Bool
success_phase Phase.succeeded = true
success_phase Phase.scheduled = true
success_phase _ = false

abbrev seconds : Timestamp → ℕ
seconds (Timestamp.at s) = s
seconds _ = 0

abbrev from_backup_time : Bool → Timestamp → ℕ
from_backup_time true t = seconds t
from_backup_time false t = 0

unfoldable pub last_success_unix_from_status : PvcBackupStatus → ℕ
last_success_unix_from_status s = elim s.last_success_time [
  | Timestamp.at t ↦ t
  | _ ↦ from_backup_time (success_phase s.phase) s.last_backup_time
]
