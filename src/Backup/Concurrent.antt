-- ===== src/Backup/Concurrent.antt =====
-- Several backups of one claim at once, as when two replicas of the operator reconcile them: the
-- steps of their runs that read or write the phases (Reconcile, pvcSessionBusy), interleaved in any
-- order, with each list of the backups read as it is then. A backup has one run at a time, and only
-- this run writes its phase meanwhile. A Job may outlive its run. Restores, and what a run does to
-- workloads, are left out.
pub mod Exclusion
pub mod Outlived
pub mod Paths
pub mod Waiting
use backrest_operator.Prelude.{ℕ, ◌<◌, ◌≡◌, ◌≢◌, Bool, true, false, eq_num, if◌then◌else◌}
use backrest_operator.Api.{Phase}
use backrest_operator.Session.{backup_phase_active}

-- Where the run of a backup stands: before the first check of the session, before the phase
-- Quiescing, before the second check, before the Job, with a Job of its own, or with a Job that an
-- earlier run left.
pub data Pc : Type 0 where
  idle checked flagged cleared working resumed : Pc

-- `left` says which backups have a Job that runs still although its run is over.
pub record System : Type 0 where
  pub phase : ℕ → Phase
  pub pc : ℕ → Pc
  pub left : ℕ → Bool

abbrev pub update : {A : Type 0} → (ℕ → A) → ℕ → A → ℕ → A
update f i a j = if eq_num j i then a else f j

abbrev pub put : System → ℕ → Phase → Pc → System
put s i p c = record s { phase = update s.phase i p; pc = update s.pc i c }

abbrev pub leave : System → ℕ → Bool → System
leave s i b = record s { left = update s.left i b }

-- at work on a Job
abbrev pub polls : Pc → Bool
polls working = true
polls resumed = true
polls _ = false

-- a step of a backup that leaves its phase
abbrev pub move : System → ℕ → Pc → System
move s i c = put s i (s.phase i) c

-- no other backup of the claim is active, as pvcSessionBusy sees it
abbrev pub Free : ℕ → System → ℕ → Type 0
Free n s i = (j : ℕ) → j < n → j ≢ i → backup_phase_active (s.phase j) ≡ false

abbrev pub Busy : ℕ → System → ℕ → Type 0
Busy n s i = (j : ℕ) × (j < n) × (j ≢ i) × (backup_phase_active (s.phase j) ≡ true)

-- One step of the backup `i` of `n`. `quiesces` says which backups quiesce, and `released` whether the
-- phase of an idle backup may be taken back: by a user who cancels it, since its slot is over, or by a
-- failure before the first check, as of a repository that cannot be read.
pub data Step (n : ℕ) (quiesces : ℕ → Bool) (released : Bool) (s : System) : System → Type 0 where
  found_free :
      (i : ℕ) → i < n → s.pc i ≡ idle → Free n s i → Step n quiesces released s (move s i checked)
  found_busy : (i : ℕ) → i < n → s.pc i ≡ idle → Busy n s i → Step n quiesces released s s
  flag :
      (i : ℕ)
      → i < n
      → s.pc i ≡ checked
      → quiesces i ≡ true
      → Step n quiesces released s (put s i Phase.quiescing flagged)
  unflagged :
      (i : ℕ)
      → i < n
      → s.pc i ≡ checked
      → quiesces i ≡ false
      → Step n quiesces released s (move s i flagged)
  snapshot :
      (i : ℕ)
      → i < n
      → s.pc i ≡ flagged
      → Step n quiesces released s (put s i Phase.snapshotting flagged)
  recheck_free :
      (i : ℕ)
      → i < n
      → s.pc i ≡ flagged
      → Free n s i
      → Step n quiesces released s (move s i cleared)
  recheck_busy :
      (i : ℕ) → i < n → s.pc i ≡ flagged → Busy n s i → Step n quiesces released s (move s i idle)
  -- the Job is made, and the status is written or refused
  saved :
      (i : ℕ)
      → i < n
      → s.pc i ≡ cleared
      → Step n quiesces released s (put s i Phase.uploading working)
  unsaved : (i : ℕ) → i < n → s.pc i ≡ cleared → Step n quiesces released s (move s i working)
  adopted :
      (i : ℕ)
      → i < n
      → s.pc i ≡ working
      → Step n quiesces released s (put s i Phase.uploading working)
  -- the Job is over
  ended :
      (i : ℕ) (p : Phase)
      → i < n
      → polls (s.pc i) ≡ true
      → backup_phase_active p ≡ false
      → Step n quiesces released s (put s i p idle)
  -- The Job is not over, but cannot be read, or has a failed pod and retries left, or is to be
  -- cancelled and cannot be deleted.
  outlived :
      (i : ℕ) (p : Phase)
      → i < n
      → polls (s.pc i) ≡ true
      → backup_phase_active p ≡ false
      → Step n quiesces released s (leave (put s i p idle) i true)
  -- the status was refused, and the Job is not found among those to adopt
  lost :
      (i : ℕ)
      → i < n
      → s.pc i ≡ working
      → s.phase i ≢ Phase.uploading
      → Step n quiesces released s (leave (move s i idle) i true)
  -- a Job that was left is adopted, without a look at the session; there may be more of them
  resume :
      (i : ℕ) (more : Bool)
      → i < n
      → s.pc i ≡ idle
      → s.left i ≡ true
      → Step n quiesces released s (leave (put s i Phase.uploading resumed) i more)
  -- it ends by itself
  expired : (i : ℕ) → i < n → Step n quiesces released s (leave s i false)
  -- fail, with the phase written
  failed :
      (i : ℕ)
      → i < n
      → s.pc i ≢ idle
      → polls (s.pc i) ≡ false
      → Step n quiesces released s (put s i Phase.failed idle)
  -- an error, or the operator's end, before there is a Job
  aborted : (i : ℕ) → i < n → polls (s.pc i) ≡ false → Step n quiesces released s (move s i idle)
  -- an idle backup that is not active: it prunes, waits for its slot, or fails
  settled :
      (i : ℕ) (p : Phase)
      → i < n
      → s.pc i ≡ idle
      → backup_phase_active (s.phase i) ≡ false
      → backup_phase_active p ≡ false
      → Step n quiesces released s (put s i p idle)
  release :
      (i : ℕ) (p : Phase)
      → i < n
      → released ≡ true
      → s.pc i ≡ idle
      → backup_phase_active p ≡ false
      → Step n quiesces released s (put s i p idle)

-- what can come of `s`
pub data Steps (n : ℕ) (quiesces : ℕ → Bool) (released : Bool) (s : System) : System → Type 0 where
  start : Steps n quiesces released s s
  later :
      {t u : System}
      → Steps n quiesces released s t
      → Step n quiesces released t u
      → Steps n quiesces released s u

-- with a Job of the run, or about to make one
abbrev pub holds : Pc → Bool
holds cleared = true
holds working = true
holds _ = false

-- every backup idle, with a phase that is not active and no Job
abbrev pub IsQuiet : System → Type 0
IsQuiet s =
    (i : ℕ) → (s.pc i ≡ idle) × (backup_phase_active (s.phase i) ≡ false) × (s.left i ≡ false)
