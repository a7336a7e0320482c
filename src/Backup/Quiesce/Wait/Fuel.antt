-- ===== src/Backup/Quiesce/Wait/Fuel.antt =====
-- The fuel of the wait for a pod to go: waitPodDeleted.
use backrest_operator.Prelude.{
  ℕ, zero, suc, ◌≤◌, ◌+◌, ◌*◌, ◌≡◌, refl, sym, Bool, true, false, Option, ◌∷◌, arith, ltb,
}
use backrest_operator.Api.{Key}
use backrest_operator.Effects.{Env, Event, Trace, M, Error, ask}
use backrest_operator.Effects.Clock.{reading_after, IsClock, on_option-cong, on_result-cong}
use backrest_operator.Backup.Schedule.{second}
use backrest_operator.Backup.Quiesce.Wait.{
  delete_again, still_there, wait_round, wait_rounds, wait_pod_deleted,
}

module _ (env : Env) (key : Key) where
  -- a round that goes on, by whether the pod was marked
  abbrev looked : Bool → Trace → Trace
  looked marked t = (delete_again env key marked (Event.get_pod key ∷ t)).1

  abbrev slept : Bool → Trace → Trace
  slept marked t = Event.sleep (2 * second) ∷ looked marked t

  module _ (rest more : M (Option Error)) where
    still_there-cong :
        (marked : Bool) (t : Trace)
        → rest (slept marked t) ≡ more (slept marked t)
        → still_there env key marked rest (Event.get_pod key ∷ t)
          ≡ still_there env key marked more (Event.get_pod key ∷ t)
    unfolding still_there ask
    still_there-cong marked t h =
        on_option-cong (delete_again env key marked (Event.get_pod key ∷ t)).0 _ _ _
          (looked marked t)
          (on_option-cong (env.done (slept marked t)) _ rest more (slept marked t) h)

    wait_round-cong :
        (early : Bool) (t : Trace)
        → (early ≡ true → (marked : Bool) → rest (slept marked t) ≡ more (slept marked t))
        → wait_round env key early rest t ≡ wait_round env key early more t
    unfolding wait_round ask
    wait_round-cong false t h = refl
    wait_round-cong true t h =
        on_result-cong (env.marked (Event.get_pod key ∷ t)) _ _ _ (Event.get_pod key ∷ t)
          (λ marked. still_there-cong marked t (h refl marked))

  module _ (clock : IsClock env.clock) where
    slept-time :
        (marked : Bool) (t : Trace)
        → reading_after env.clock t + 2 * second ≤ reading_after env.clock (slept marked t)
    unfolding delete_again ask
    slept-time true t = omega (
      arith,
      clock.grows (Event.get_pod key) t,
      clock.sleeps (2 * second) (Event.get_pod key ∷ t),
    )
    slept-time false t = omega (
      arith,
      clock.grows (Event.get_pod key) t,
      clock.grows (Event.delete_pod key) (Event.get_pod key ∷ t),
      clock.sleeps (2 * second) (Event.delete_pod key ∷ Event.get_pod key ∷ t),
    )

    wait_rounds-fuel :
        (deadline fuel rounds : ℕ) (t : Trace)
        → fuel ≤ rounds
        → deadline ≤ reading_after env.clock t + fuel * (2 * second)
        → wait_rounds env key deadline (suc rounds) t ≡ wait_rounds env key deadline (suc fuel) t
    unfolding wait_rounds ask
    wait_rounds-fuel deadline zero rounds t le enough =
        wait_round-cong (wait_rounds env key deadline rounds) (wait_rounds env key deadline zero)
          (ltb (reading_after env.clock t) deadline) (Event.read_clock ∷ t)
          (λ early. absurd (ground (arith, enough, early)))
    wait_rounds-fuel deadline (suc fuel) zero t le enough = absurd (omega (arith, le))
    wait_rounds-fuel deadline (suc fuel) (suc rounds) t le enough =
        wait_round-cong (wait_rounds env key deadline (suc rounds))
          (wait_rounds env key deadline (suc fuel)) (ltb (reading_after env.clock t) deadline)
          (Event.read_clock ∷ t)
          (λ _ marked.
            wait_rounds-fuel deadline fuel rounds (slept marked (Event.read_clock ∷ t))
              (omega (arith, le))
              (omega (
                arith,
                enough,
                clock.grows Event.read_clock t,
                slept-time marked (Event.read_clock ∷ t),
              )))

    -- If the clock does not go back and a sleep moves it by its length at least, then a wait of at most
    -- 300 seconds for a pod never ends for want of fuel: with any larger number of rounds it gives the
    -- same answer after the same requests.
    wait_pod_deleted-fuel :
        (timeout rounds : ℕ) (t : Trace)
        → timeout ≤ 300 * second
        → 150 ≤ rounds
        → wait_pod_deleted env key timeout t
          ≡ wait_rounds env key
              (reading_after env.clock t + timeout)
              (suc rounds)
              (Event.read_clock ∷ t)
    unfolding wait_pod_deleted ask
    wait_pod_deleted-fuel timeout rounds t short le = sym (
        wait_rounds-fuel (reading_after env.clock t + timeout) 150 rounds (Event.read_clock ∷ t) le
          (omega (arith, short, clock.grows Event.read_clock t)))
