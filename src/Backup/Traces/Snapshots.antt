-- ===== src/Backup/Traces/Snapshots.antt =====
-- The session check and the snapshot pipeline, which neither make a Job nor touch a workload.
use backrest_operator.Prelude.{
  ltb, Bytes, Bool, true, false, Option, none, some, List, zero, suc, [], ◌∷◌, ℕ,
}
use backrest_operator.Api.{Key, PvcBackup, PipelineStep}
use backrest_operator.Effects.{
  Env, Result, ok, err, Error, Event, Trace, M, ask, pure, on_result, ◌>>=◌,
}
use backrest_operator.Effects.Keeps.{
  Keeps, Kind, Ignores, Keeps-bind, Keeps-if, Keeps-pure, keeps_rules,
}
use backrest_operator.Session.{HolderKind, pvc_session_busy, list_pvc_session_holders}
use backrest_operator.Backup.Run.Snapshot.{
  ready_round, ready_rounds, wait_snapshot_ready, create_snapshot, clone_from_snapshot,
  snapshot_and_clone, snapshot_step, pipeline_steps, is_snapshot, after_read, after_sleep,
}
use backrest_operator.Backup.Traces.Plain.{update_status-Keeps}

module _ (env : Env) {I : Trace → Type 0} (plain : Ignores I Kind.plain) where
  pub pvc_session_busy-Keeps :
      (want : List Bytes) (k : HolderKind) (self : Key) → Keeps I (pvc_session_busy want k self env)
  unfolding pvc_session_busy list_pvc_session_holders
  pvc_session_busy-Keeps want k self = search keeps_rules depth 9

  after_sleep-Keeps :
      (e : Option Error) (m : M (Option Error)) → Keeps I m → Keeps I (after_sleep env e m)
  after_sleep-Keeps none m h = h
  after_sleep-Keeps (some e) m h = Keeps-pure (some e)

  after_read-Keeps :
      (r : Result Bool) (m : M (Option Error)) → Keeps I m → Keeps I (after_read env r m)
  after_read-Keeps (err e) m h = Keeps-pure (some e)
  after_read-Keeps (ok true) m h = Keeps-pure none
  after_read-Keeps (ok false) m h = search (keeps_rules, after_sleep-Keeps)

  ready_round-Keeps :
      (k : Key) (early : Bool) (m : M (Option Error))
      → Keeps I m
      → Keeps I (ready_round env k early m)
  unfolding ready_round
  ready_round-Keeps k false m h = search keeps_rules
  ready_round-Keeps k true m h = search (keeps_rules, after_read-Keeps)

  ready_rounds-Keeps : (k : Key) (deadline fuel : ℕ) → Keeps I (ready_rounds env k deadline fuel)
  unfolding ready_rounds
  ready_rounds-Keeps k deadline zero = search keeps_rules
  ready_rounds-Keeps k deadline (suc fuel) =
      Keeps-bind (ask env.clock Event.read_clock)
        (λ now. ready_round env k (ltb now deadline) (ready_rounds env k deadline fuel))
        (search keeps_rules)
        (λ now. ready_round-Keeps k (ltb now deadline) _ (ready_rounds-Keeps k deadline fuel))

  wait_snapshot_ready-Keeps : (k : Key) → Keeps I (wait_snapshot_ready env k)
  unfolding wait_snapshot_ready
  wait_snapshot_ready-Keeps k = search (keeps_rules, ready_rounds-Keeps)

  create_snapshot-Keeps : (k : Key) (c p : Bytes) → Keeps I (create_snapshot env k c p)
  unfolding create_snapshot
  create_snapshot-Keeps k c p = search keeps_rules

  clone_from_snapshot-Keeps : (n s c p : Bytes) → Keeps I (clone_from_snapshot env n s c p)
  unfolding clone_from_snapshot
  clone_from_snapshot-Keeps n s c p = search keeps_rules depth 9

  snapshot_and_clone-Keeps :
      (b : PvcBackup) (p : Bytes) (n : ℕ) → Keeps I (snapshot_and_clone env b p n)
  unfolding snapshot_and_clone
  snapshot_and_clone-Keeps b p n =
      search
        (keeps_rules, create_snapshot-Keeps, wait_snapshot_ready-Keeps, clone_from_snapshot-Keeps)
        depth 9

  snapshot_step-Keeps :
      (b : PvcBackup) (ps : List Bytes) (n : ℕ) → Keeps I (snapshot_step env b ps n)
  unfolding snapshot_step
  snapshot_step-Keeps b [] n = search keeps_rules
  snapshot_step-Keeps b (p ∷ []) n =
      search (keeps_rules, update_status-Keeps env plain, snapshot_and_clone-Keeps) depth 9
  snapshot_step-Keeps b (p ∷ q ∷ ps) n = search keeps_rules

  pub pipeline_steps-Keeps :
      (b : PvcBackup) (ps up : List Bytes) (n : ℕ) (steps : List PipelineStep)
      → Keeps I (pipeline_steps env b ps up n steps)
  unfolding pipeline_steps
  pipeline_steps-Keeps b ps up n [] = search keeps_rules
  pipeline_steps-Keeps b ps up n (s ∷ steps) =
      Keeps-if (is_snapshot s)
        (snapshot_step env b ps n >>= λ r.
          on_result r.1 (λ e. pure (r.0, err e)) (λ v. pipeline_steps env r.0 ps v n steps))
        (pipeline_steps env b ps up n steps)
        (search (
          keeps_rules,
          snapshot_step-Keeps,
          λ (c : PvcBackup) (v : List Bytes). pipeline_steps-Keeps c ps v n steps,
        ))
        (pipeline_steps-Keeps b ps up n steps)
