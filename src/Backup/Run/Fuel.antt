-- ===== src/Backup/Run/Fuel.antt =====
-- The fuel of the wait for a snapshot: waitSnapshotReady.
use backrest_operator.Prelude.{
  ℕ, zero, suc, ◌≤◌, ◌+◌, ◌*◌, ◌≡◌, refl, sym, Bool, true, false, Option, none, some, ◌∷◌, arith,
  ltb,
}
use backrest_operator.Api.{Key}
use backrest_operator.Effects.{Env, Result, ok, err, Event, Trace, M, Error, ask}
use backrest_operator.Backup.Schedule.{second}
use backrest_operator.Backup.Run.Snapshot.{
  ready_rounds, ready_round, after_read, after_sleep, wait_snapshot_ready, snapshot_timeout,
}

abbrev pub now_at : Env → Trace → ℕ
now_at env t = env.clock (Event.read_clock ∷ t)

module _ (env : Env) (key : Key) where
  -- The clock never goes back, and a sleep of five seconds moves it by five seconds at least.
  pub record IsClock : Type 0 where
    pub reads : (t : Trace) → now_at env t ≤ now_at env (Event.read_clock ∷ t)
    pub sleeps :
        (t : Trace)
        → now_at env t + 5 * second
          ≤ now_at env (Event.sleep (5 * second) ∷ Event.get_snapshot key ∷ Event.read_clock ∷ t)

  slept : Trace → Trace
  slept t = Event.sleep (5 * second) ∷ Event.get_snapshot key ∷ t

  module _ (rest more : M (Option Error)) where
    after_sleep-cong :
        (e : Option Error) (t : Trace)
        → rest t ≡ more t
        → after_sleep env e rest t ≡ after_sleep env e more t
    after_sleep-cong none t h = h
    after_sleep-cong (some e) t h = refl

    after_read-cong :
        (r : Result Bool) (t : Trace)
        → rest (Event.sleep (5 * second) ∷ t) ≡ more (Event.sleep (5 * second) ∷ t)
        → after_read env r rest t ≡ after_read env r more t
    unfolding ask
    after_read-cong (err e) t h = refl
    after_read-cong (ok true) t h = refl
    after_read-cong (ok false) t h = after_sleep-cong (env.done (Event.sleep (5 * second) ∷ t)) _ h

    ready_round-cong :
        (b : Bool) (t : Trace)
        → (b ≡ true → rest (slept t) ≡ more (slept t))
        → ready_round env key b rest t ≡ ready_round env key b more t
    unfolding ready_round ask slept
    ready_round-cong false t h = refl
    ready_round-cong true t h = after_read-cong (env.marked (Event.get_snapshot key ∷ t)) _ (h refl)

  -- rounds up to the deadline: with more fuel the end is the same
  ready_rounds-fuel :
      IsClock
      → (deadline fuel rounds : ℕ) (t : Trace) → fuel ≤ rounds
      → deadline ≤ now_at env t + fuel * (5 * second)
      → ready_rounds env key deadline (suc rounds) t ≡ ready_rounds env key deadline (suc fuel) t
  unfolding ready_rounds ask slept
  ready_rounds-fuel clock deadline zero rounds t le enough =
      ready_round-cong (ready_rounds env key deadline rounds) (ready_rounds env key deadline zero)
        (ltb (now_at env t) deadline) (Event.read_clock ∷ t)
        (λ early. absurd (ground (arith, enough, early)))
  ready_rounds-fuel clock deadline (suc fuel) zero t le enough = absurd (omega (arith, le))
  ready_rounds-fuel clock deadline (suc fuel) (suc rounds) t le enough =
      ready_round-cong (ready_rounds env key deadline (suc rounds))
        (ready_rounds env key deadline (suc fuel)) (ltb (now_at env t) deadline)
        (Event.read_clock ∷ t)
        (λ _.
          ready_rounds-fuel clock deadline fuel rounds (slept (Event.read_clock ∷ t))
            (omega (arith, le)) (omega (arith, enough, clock.sleeps t)))

  -- If the clock does not go back, and a sleep of five seconds moves it by five seconds at least,
  -- then the wait for a snapshot never ends for want of fuel: with any larger number of rounds it
  -- gives the same answer after the same requests.
  wait_snapshot_ready-fuel :
      IsClock
      → (rounds : ℕ) (t : Trace) → 120 ≤ rounds
      → wait_snapshot_ready env key t
        ≡ ready_rounds env key (now_at env t + snapshot_timeout) (suc rounds) (Event.read_clock ∷ t)
  unfolding wait_snapshot_ready ask
  wait_snapshot_ready-fuel clock rounds t le = sym (
      ready_rounds-fuel clock (now_at env t + snapshot_timeout) 120 rounds (Event.read_clock ∷ t) le
        (omega (arith, clock.reads t)))
