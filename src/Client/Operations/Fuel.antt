-- ===== src/Client/Operations/Fuel.antt =====
-- The fuel of WaitOperation.
use backrest_operator.Prelude.{ℕ, zero, suc, ◌≤◌, ◌<◌, ◌+◌, ◌*◌, ◌/◌, ◌≡◌, false, ◌∷◌, arith, ltb}
use backrest_operator.Prelude.Int.{ℤ}
use backrest_operator.Effects.{Result, Event, Trace, M, pure, err, ask}
use backrest_operator.Effects.Clock.{
  reading_after, IsClock, if-cong, on_option-cong, on_result-cong,
}
use backrest_operator.Effects.Keeps.{Kind, Keeps, Ignores, keeps_rules}
use backrest_operator.Backup.Schedule.{second}
use backrest_operator.Client.Posts.{Object}
use backrest_operator.Client.Operations.{
  Remote, get_operations, get_operation, scan_operations, has_succeeded, has_ended_badly, status_of,
  pause, still_running, wait_polled, wait_round, wait_rounds, wait_fuel,
}

module _ (w : Remote) (id : ℤ) where
  -- the requests of a look at the operation
  abbrev asked : Trace → Trace
  asked t = (get_operation w id t).1

  get_operation-Keeps : (I : Trace → Type 0) → Ignores I Kind.plain → Keeps I (get_operation w id)
  unfolding get_operation get_operations scan_operations
  get_operation-Keeps I plain = search keeps_rules depth 12

  abbrev rested : Trace → Trace
  rested t = Event.sleep (2 * second) ∷ Event.read_clock ∷ t

  pause-cong :
      (later more : M (Result Object)) (t : Trace)
      → later (Event.sleep (2 * second) ∷ t) ≡ more (Event.sleep (2 * second) ∷ t)
      → pause w later t ≡ pause w more t
  unfolding pause ask
  pause-cong later more t h =
      on_option-cong (w.cancelled (Event.sleep (2 * second) ∷ t)) _ later more _ h

  polled-cong :
      (timeout deadline : ℕ) (later more : M (Result Object)) (t : Trace) (op : Object)
      → (ltb deadline (reading_after w.clock t) ≡ false → later (rested t) ≡ more (rested t))
      → wait_polled w id timeout deadline later op t ≡ wait_polled w id timeout deadline more op t
  unfolding wait_polled ask
  polled-cong timeout deadline later more t op h =
      if-cong (has_succeeded (status_of op)) _ _ _ t (λ _.
        if-cong (has_ended_badly (status_of op)) _ _ _ t (λ _.
          if-cong (ltb deadline (reading_after w.clock t))
            (pure (err (still_running w id timeout op))) (pause w later) (pause w more)
            (Event.read_clock ∷ t)
            (λ early. pause-cong later more (Event.read_clock ∷ t) (h early))))

  round-cong :
      (timeout deadline : ℕ) (later more : M (Result Object)) (t : Trace)
      → (ltb deadline (reading_after w.clock (asked t)) ≡ false
          → later (rested (asked t)) ≡ more (rested (asked t)))
      → wait_round w id timeout deadline later t ≡ wait_round w id timeout deadline more t
  unfolding wait_round
  round-cong timeout deadline later more t h =
      on_result-cong (get_operation w id t).0 (λ e. pure (err e))
        (wait_polled w id timeout deadline later) (wait_polled w id timeout deadline more) (asked t)
        (λ op. polled-cong timeout deadline later more (asked t) op h)

  module _ (clock : IsClock w.clock) where
    passes :
        (t : Trace) (k : Kind) → Ignores (λ u. reading_after w.clock t ≤ reading_after w.clock u) k
    passes t k e u same le = omega (arith, le, clock.grows e u)

    asked-time : (t : Trace) → reading_after w.clock t ≤ reading_after w.clock (asked t)
    asked-time t =
        (get_operation-Keeps (λ u. reading_after w.clock t ≤ reading_after w.clock u)
            (passes t Kind.plain)).at
          t (omega arith)

    rested-time :
        (t : Trace) → reading_after w.clock t + 2 * second ≤ reading_after w.clock (rested t)
    rested-time t =
        omega
          (arith, clock.grows Event.read_clock t, clock.sleeps (2 * second) (Event.read_clock ∷ t))

    rounds-fuel :
        (timeout deadline fuel rounds : ℕ) (t : Trace)
        → fuel ≤ rounds
        → deadline < reading_after w.clock t + fuel * (2 * second)
        → wait_rounds w id timeout deadline (suc rounds) t
          ≡ wait_rounds w id timeout deadline (suc fuel) t
    unfolding wait_rounds
    rounds-fuel timeout deadline zero rounds t le enough =
        round-cong timeout deadline _ _ t
          (λ early. absurd (ground (arith, enough, early, asked-time t)))
    rounds-fuel timeout deadline (suc fuel) zero t le enough = absurd (omega (arith, le))
    rounds-fuel timeout deadline (suc fuel) (suc rounds) t le enough =
        round-cong timeout deadline _ _ t (λ _.
          rounds-fuel timeout deadline fuel rounds (rested (asked t)) (omega (arith, le))
            (omega (arith, enough, asked-time t, rested-time (asked t))))

    -- If the clock does not go back and a sleep moves it by its length at least, then the wait for an
    -- operation never ends for want of rounds: with any larger number of rounds than the code's it
    -- gives the same answer after the same requests.
    pub wait_rounds-fuel :
        (timeout rounds : ℕ) (t : Trace)
        → wait_fuel timeout ≤ rounds
        → wait_rounds w id timeout (reading_after w.clock t + timeout) rounds (Event.read_clock ∷ t)
          ≡ wait_rounds w id timeout
              (reading_after w.clock t + timeout)
              (wait_fuel timeout)
              (Event.read_clock ∷ t)
    wait_rounds-fuel timeout zero t le = absurd (omega (arith, le))
    wait_rounds-fuel timeout (suc rounds) t le =
        rounds-fuel timeout (reading_after w.clock t + timeout) (timeout / (2 * second) + 1) rounds
          (Event.read_clock ∷ t) (omega (arith, le)) (omega (arith, clock.grows Event.read_clock t))
