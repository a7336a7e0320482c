-- ===== src/Mcp/Laws/Waiting.antt =====
-- The fuel of the wait for a download: createSnapshotDownload.
use backrest_operator.Prelude.{
  ℕ, zero, suc, ◌≤◌, ◌<◌, ◌+◌, ◌*◌, ◌/◌, ◌≡◌, Bytes, bytes, false, Option, [], ◌∷◌, ◌==◌, arith,
  ltb,
}
use backrest_operator.Effects.{Result, Event, Trace, pure, ask}
use backrest_operator.Effects.Clock.{
  reading_after, IsClock, if-cong, on_option-cong, on_result-cong,
}
use backrest_operator.Backup.Schedule.{second}
use backrest_operator.Mcp.Calls.{UserIdentity, Args}
use backrest_operator.Mcp.World.{World, Output, api}
use backrest_operator.Mcp.Tools.Hosts.{Handler, failed, request}
use backrest_operator.Mcp.Tools.Downloads.{
  is_ready, pause, download_polled, download_round, download_rounds, status_at, download_fuel,
}

module _ (w : World) (who : Option UserIdentity) (ns : Bytes) (args : Args) (name : Bytes)
    (finish : Bytes → Result Output) where
  -- the requests of a round, up to the sleep
  abbrev asked : Trace → Trace
  asked t = (request w who (bytes "get") (bytes "snapshotdownloads") ns name [] t).1

  abbrev rested : Trace → Trace
  rested t = Event.sleep (2 * second) ∷ Event.read_clock ∷ t

  pause-cong :
      (later more : Handler) (t : Trace)
      → later (Event.sleep (2 * second) ∷ t) ≡ more (Event.sleep (2 * second) ∷ t)
      → pause w who ns args later t ≡ pause w who ns args more t
  unfolding pause ask
  pause-cong later more t h =
      on_option-cong (w.cancelled (Event.sleep (2 * second) ∷ t)) _ later more _ h

  polled-cong :
      (deadline : ℕ) (later more : Handler) (t : Trace) (obj : Bytes)
      → (ltb deadline (reading_after w.clock t) ≡ false → later (rested t) ≡ more (rested t))
      → download_polled w who ns args name deadline finish later obj t
        ≡ download_polled w who ns args name deadline finish more obj t
  unfolding download_polled ask
  polled-cong deadline later more t obj h = if-cong (is_ready w who ns args obj) _ _ _ t (λ _.
      if-cong (status_at w who ns args obj (bytes "phase") == bytes "Failed") _ _ _ t (λ _.
        if-cong (ltb deadline (reading_after w.clock t)) (pure (finish obj))
          (pause w who ns args later) (pause w who ns args more) (Event.read_clock ∷ t)
          (λ early. pause-cong later more (Event.read_clock ∷ t) (h early))))

  round-cong :
      (deadline : ℕ) (later more : Handler) (t : Trace)
      → (ltb deadline (reading_after w.clock (asked t)) ≡ false
          → later (rested (asked t)) ≡ more (rested (asked t)))
      → download_round w who ns args name deadline finish later t
        ≡ download_round w who ns args name deadline finish more t
  unfolding download_round
  round-cong deadline later more t h =
      on_result-cong (request w who (bytes "get") (bytes "snapshotdownloads") ns name [] t).0 failed
        (download_polled w who ns args name deadline finish later)
        (download_polled w who ns args name deadline finish more) (asked t)
        (λ obj. polled-cong deadline later more (asked t) obj h)

  module _ (clock : IsClock w.clock) where
    asked-time : (t : Trace) → reading_after w.clock t ≤ reading_after w.clock (asked t)
    unfolding api ask
    asked-time t = clock.grows _ t

    rested-time :
        (t : Trace) → reading_after w.clock t + 2 * second ≤ reading_after w.clock (rested t)
    rested-time t =
        omega
          (arith, clock.grows Event.read_clock t, clock.sleeps (2 * second) (Event.read_clock ∷ t))

    rounds-fuel :
        (deadline fuel rounds : ℕ) (t : Trace)
        → fuel ≤ rounds
        → deadline < reading_after w.clock t + fuel * (2 * second)
        → download_rounds w who ns args name deadline finish (suc rounds) t
          ≡ download_rounds w who ns args name deadline finish (suc fuel) t
    unfolding download_rounds
    rounds-fuel deadline zero rounds t le enough =
        round-cong deadline _ _ t (λ early. absurd (ground (arith, enough, early, asked-time t)))
    rounds-fuel deadline (suc fuel) zero t le enough = absurd (omega (arith, le))
    rounds-fuel deadline (suc fuel) (suc rounds) t le enough = round-cong deadline _ _ t (λ _.
        rounds-fuel deadline fuel rounds (rested (asked t)) (omega (arith, le))
          (omega (arith, enough, asked-time t, rested-time (asked t))))

    -- If the clock does not go back and a sleep moves it by its length at least, then the wait for a
    -- download never ends for want of rounds: with any larger number of rounds than the code's it
    -- gives the same answer after the same requests.
    download_rounds-fuel :
        (seconds rounds : ℕ) (t : Trace)
        → download_fuel seconds ≤ rounds
        → download_rounds w who ns args name
            (reading_after w.clock t + seconds * second)
            finish
            rounds
            (Event.read_clock ∷ t)
          ≡ download_rounds w who ns args name
              (reading_after w.clock t + seconds * second)
              finish
              (download_fuel seconds)
              (Event.read_clock ∷ t)
    download_rounds-fuel seconds zero t le = absurd (omega (arith, le))
    download_rounds-fuel seconds (suc rounds) t le =
        rounds-fuel (reading_after w.clock t + seconds * second) (seconds / 2 + 1) rounds
          (Event.read_clock ∷ t) (omega (arith, le)) (omega (arith, clock.grows Event.read_clock t))
