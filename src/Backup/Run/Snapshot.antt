-- ===== src/Backup/Run/Snapshot.antt =====
-- createSnapshot, waitSnapshotReady and cloneFromSnapshot, and the pipeline loop that calls them.
use backrest_operator.Prelude.{
  ℕ, zero, suc, ◌+◌, ◌*◌, Bytes, bytes, Bool, true, false, Option, none, some, List, [], ◌∷◌, ◌++◌,
  is_empty, ltb, if◌then◌else◌,
}
use backrest_operator.Prelude.Decimal.{decimal}
use backrest_operator.Api.{Phase, PipelineStep, Key, PvcBackup}
use backrest_operator.Effects.{
  on_result, on_option, Env, Result, ok, err, Error, plain_error, Event, M, pure, ask, ◌>>=◌,
}
use backrest_operator.Backup.Schedule.{second}
use backrest_operator.Backup.Jobs.{ignore_already_exists}
use backrest_operator.Backup.Outcomes.{update_status}

abbrev pub snapshot_timeout : ℕ
snapshot_timeout = 600 * second

-- A round sleeps five seconds, so that 120 rounds reach the timeout; one more finds it passed.
abbrev pub snapshot_rounds : ℕ
snapshot_rounds = 121

abbrev pub set_phase : PvcBackup → Phase → PvcBackup
set_phase b p = record b { status = record (b.status) { phase = p } }

abbrev pub is_snapshot : PipelineStep → Bool
is_snapshot PipelineStep.csi_snapshot = true
is_snapshot PipelineStep.topolvm_snapshot = true
is_snapshot _ = false

module _ (env : Env) where
  abbrev not_ready : Bytes → Error
  not_ready name =
      plain_error (bytes "volume snapshot " ++ name ++ bytes " not ReadyToUse within 10m0s")

  abbrev pub after_sleep : Option Error → M (Option Error) → M (Option Error)
  after_sleep (some e) rest = pure (some e)
  after_sleep none rest = rest

  abbrev pub after_read : Result Bool → M (Option Error) → M (Option Error)
  after_read (err e) rest = pure (some e)
  after_read (ok true) rest = pure none
  after_read (ok false) rest = do
    cancelled ← ask env.done (Event.sleep (5 * second))
    after_sleep cancelled rest

  -- one round of the loop, before its deadline or not
  unfoldable pub ready_round : Key → Bool → M (Option Error) → M (Option Error)
  ready_round key false rest = pure (some (not_ready key.name))
  ready_round key true rest = do r ← ask env.marked (Event.get_snapshot key); after_read r rest

  unfoldable pub ready_rounds : Key → ℕ → ℕ → M (Option Error)
  unfolding ready_round
  ready_rounds key deadline zero = pure (some (not_ready key.name))
  ready_rounds key deadline (suc fuel) = do
    now ← ask env.clock Event.read_clock
    ready_round key (ltb now deadline) (ready_rounds key deadline fuel)

  unfoldable pub wait_snapshot_ready : Key → M (Option Error)
  unfolding ready_rounds
  wait_snapshot_ready key = do
    now ← ask env.clock Event.read_clock
    ready_rounds key (now + snapshot_timeout) snapshot_rounds

  unfoldable pub create_snapshot : Key → Bytes → Bytes → M (Option Error)
  create_snapshot key class pvc = do
    e ← ask env.done (Event.create_snapshot key class pvc)
    pure (ignore_already_exists e)

  unfoldable pub clone_from_snapshot : Bytes → Bytes → Bytes → Bytes → M (Option Error)
  clone_from_snapshot namespace snap clone pvc = do
    r ← ask env.done (Event.get_claim (record { namespace = namespace; name = pvc }))
    on_option r (λ e. pure (some e))
        (do
          e ←
              ask env.done
                (Event.create_clone (record { namespace = namespace; name = clone }) snap)
          pure (ignore_already_exists e))

  -- one snapshot of the claim, and a clone of it: the clone's name, or why there is none
  unfoldable pub snapshot_and_clone : PvcBackup → Bytes → ℕ → M (Result Bytes)
  unfolding create_snapshot wait_snapshot_ready clone_from_snapshot
  snapshot_and_clone b pvc unix =
      let ns = b.metadata.namespace in
      let snap = b.metadata.name ++ b'-' ∷ decimal unix in
      let clone = b.metadata.name ++ (bytes "-clone-" ++ decimal unix) in
      let key : Key = record { namespace = ns; name = snap } in
      do
        c ← create_snapshot key b.spec.volume_snapshot_class_name pvc
        on_option c (λ e. pure (err e))
            (do
              w ← wait_snapshot_ready key
              on_option w (λ e. pure (err e))
                  (do
                    d ← clone_from_snapshot ns snap clone pvc
                    on_option d (λ e. pure (err e)) (pure (ok clone))))

  abbrev single_only : Error
  single_only =
      plain_error
        (bytes "csiSnapshot/topolvmSnapshot support a single PVC; use quiescedLive for multi-PVC")

  abbrev class_required : Error
  class_required = plain_error (bytes "volumeSnapshotClassName required")

  -- a snapshot step: the object with its new status, and the claims to upload
  unfoldable pub snapshot_step : PvcBackup → List Bytes → ℕ → M (PvcBackup × Result (List Bytes))
  unfolding snapshot_and_clone update_status
  snapshot_step b (pvc ∷ []) unix =
      if is_empty b.spec.volume_snapshot_class_name then pure (b, err class_required) else do
        u ← update_status env (set_phase b Phase.snapshotting)
        r ← snapshot_and_clone u.0 pvc unix
        on_result r (λ e. pure (u.0, err e)) (λ clone. pure (u.0, ok (clone ∷ [])))
  snapshot_step b _ unix = pure (b, err single_only)

  -- the loop over the pipeline; the other steps do nothing here
  unfoldable pub pipeline_steps :
      PvcBackup
      → List Bytes
      → List Bytes
      → ℕ
      → List PipelineStep
      → M (PvcBackup × Result (List Bytes))
  unfolding snapshot_step
  pipeline_steps b pvcs upload unix [] = pure (b, ok upload)
  pipeline_steps b pvcs upload unix (s ∷ steps) =
      if is_snapshot s
      then (do
        r ← snapshot_step b pvcs unix
        on_result r.1 (λ e. pure (r.0, err e)) (λ up. pipeline_steps r.0 pvcs up unix steps))
      else pipeline_steps b pvcs upload unix steps
