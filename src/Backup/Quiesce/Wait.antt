-- ===== src/Backup/Quiesce/Wait.antt =====
-- waitPodDeleted.
pub mod Fuel
use backrest_operator.Prelude.{
  if◌then◌else◌, ℕ, zero, suc, ◌+◌, ◌*◌, bytes, Bool, true, false, Option, none, some, ◌++◌, ltb,
}
use backrest_operator.Api.{Key}
use backrest_operator.Effects.{
  on_result, on_option, is_not_found, Env, ok, err, Error, Reason, Event, M, pure, ask, ◌>>=◌,
  plain_error,
}
use backrest_operator.Backup.Schedule.{second}

-- client.IgnoreNotFound
abbrev pub ignore_not_found : Option Error → Option Error
ignore_not_found none = none
ignore_not_found (some e) = elim e.reason [ Reason.not_found ↦ none | _ ↦ some e ]

abbrev pub pod_delete_timeout : ℕ
pod_delete_timeout = 300 * second

-- A round sleeps two seconds, so that 150 rounds reach the timeout; one more finds it passed.
abbrev pub pod_rounds : ℕ
pod_rounds = 151

module _ (env : Env) (key : Key) where
  abbrev pub not_deleted : Error
  not_deleted =
      plain_error
        (bytes "pod " ++ key.namespace ++ bytes "/" ++ key.name ++ bytes " not deleted within 5m0s")

  -- the delete of a pod that is not being deleted
  unfoldable pub delete_again : Bool → M (Option Error)
  delete_again true = pure none
  delete_again false = do e ← ask env.done (Event.delete_pod key); pure (ignore_not_found e)

  -- the rest of a round once the pod was seen, and the next rounds
  unfoldable pub still_there : Bool → M (Option Error) → M (Option Error)
  unfolding delete_again
  still_there marked rest = do
    d ← delete_again marked
    on_option d (λ e. pure (some e))
        (do
          cancelled ← ask env.done (Event.sleep (2 * second))
          on_option cancelled (λ e. pure (some e)) rest)

  -- one round of the loop, before its deadline or not
  unfoldable pub wait_round : Bool → M (Option Error) → M (Option Error)
  unfolding still_there
  wait_round early rest =
      if early
      then (do
        r ← ask env.marked (Event.get_pod key)
        on_result r (λ e. if is_not_found e then pure none else pure (some e))
            (λ marked. still_there marked rest))
      else pure (some not_deleted)

  unfoldable pub wait_rounds : ℕ → ℕ → M (Option Error)
  unfolding wait_round
  wait_rounds deadline zero = pure (some not_deleted)
  wait_rounds deadline (suc fuel) = do
    now ← ask env.clock Event.read_clock
    wait_round (ltb now deadline) (wait_rounds deadline fuel)

unfoldable pub wait_pod_deleted : Env → Key → ℕ → M (Option Error)
unfolding wait_rounds
wait_pod_deleted env key timeout = do
  now ← ask env.clock Event.read_clock
  wait_rounds env key (now + timeout) pod_rounds
