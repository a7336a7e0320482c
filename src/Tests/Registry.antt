-- ===== src/Tests/Registry.antt =====
-- The theorems on the metrics, at a backup that has failed twice and succeeded once.
use backrest_operator.Prelude.{bytes, [], ◌∷◌, refl}
use backrest_operator.Api.{Key}
use backrest_operator.Effects.{Env, Reason, Event, Metric, Trace, err}
use backrest_operator.Examples.{env}
use backrest_operator.Metrics.Registry.{Registry, empty_registry, registry_after}
use backrest_operator.Metrics.Laws.{IsConsistent, registry_after-IsConsistent}
use backrest_operator.Backup.Reconcile.{reconcile}
use backrest_operator.Backup.Traces.Forgets.{Forgotten, reconcile-Forgotten}

abbrev failing : Event
failing = Event.metric (Metric.backup_failure (bytes "apps") (bytes "nightly"))

abbrev history : Trace
history =
    failing
    ∷ Event.metric (Metric.backup_success (bytes "apps") (bytes "nightly") 1700000000)
    ∷ Event.read_clock
    ∷ failing
    ∷ []

registry_after-IsConsistent_example : IsConsistent (registry_after empty_registry history)
registry_after-IsConsistent_example = registry_after-IsConsistent history

abbrev nightly : Key
nightly = record { namespace = bytes "apps"; name = bytes "nightly" }

-- a cluster in which the backup is not there any more
abbrev env_without : Env
env_without = record env { backup = λ t. err (record { reason = Reason.not_found; message = [] }) }

abbrev scraped : Registry
scraped = registry_after empty_registry history

reconcile-Forgotten_example :
    Forgotten
      (bytes "apps")
      (bytes "nightly")
      scraped
      (registry_after scraped (reconcile env_without nightly []).1)
reconcile-Forgotten_example = reconcile-Forgotten env_without nightly scraped [] refl
