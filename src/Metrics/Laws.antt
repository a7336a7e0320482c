-- ===== src/Metrics/Laws.antt =====
-- The series of a backup agree with one another.
use backrest_operator.Prelude.{Bytes, ◌≡◌, refl, none, [], ◌∷◌, arith}
use backrest_operator.Effects.{Metric, Event, Trace}
use backrest_operator.Metrics.Registry.{
  Attempt, Registry, empty_registry, observe, observed, registry_after,
}

-- The two gauges of the last success are the same, failures are counted alike in both counters, and a
-- backup that counts a success has the gauge that the alert reads.
pub record IsConsistent (r : Registry) : Type 0 where
  pub gauges : (ns n : Bytes) → r.backup_last_success ns n ≡ r.backup_last_success_seconds ns n
  pub failures : (ns n : Bytes) → r.backup_failed_total ns n ≡ r.backup_total Attempt.failure ns n
  pub dated :
      (ns n : Bytes)
      → r.backup_last_success_seconds ns n ≡ none
      → r.backup_total Attempt.success ns n ≡ none

observe-IsConsistent : (m : Metric) (r : Registry) → IsConsistent r → IsConsistent (observe m r)
unfolding observe
observe-IsConsistent (Metric.forget_backup ns n) r h = record {
  gauges = λ k l. ground (arith, h.gauges k l);
  failures = λ k l. ground (arith, h.failures k l);
  dated = λ k l z. ground (arith, h.dated k l, z);
}
observe-IsConsistent (Metric.sync_last_success ns n v) r h = record {
  gauges = λ k l. ground (arith, h.gauges k l);
  failures = h.failures;
  dated = λ k l z. ground (arith, h.dated k l, z);
}
observe-IsConsistent (Metric.backup_success ns n v) r h = record {
  gauges = λ k l. ground (arith, h.gauges k l);
  failures = h.failures;
  dated = λ k l z. ground (arith, h.dated k l, z);
}
observe-IsConsistent (Metric.backup_failure ns n) r h = record {
  gauges = h.gauges;
  failures = λ k l. ground (arith, h.failures k l, h.failures ns n);
  dated = h.dated;
}
observe-IsConsistent (Metric.restore_failure ns n) r h = record {
  gauges = h.gauges;
  failures = h.failures;
  dated = h.dated;
}
observe-IsConsistent (Metric.reconcile_error kind) r h = record {
  gauges = h.gauges;
  failures = h.failures;
  dated = h.dated;
}

observed-IsConsistent : (e : Event) (r : Registry) → IsConsistent r → IsConsistent (observed e r)
observed-IsConsistent (Event.metric m) r h = observe-IsConsistent m r h
observed-IsConsistent _ r h = h

-- Whatever was requested and observed since the process started, both gauges of the last success
-- are the same for every backup, its failures are as many in both counters, and a backup that has
-- counted a success has the gauge of its time.
pub registry_after-IsConsistent : (t : Trace) → IsConsistent (registry_after empty_registry t)
registry_after-IsConsistent [] = record {
  gauges = λ ns n. refl;
  failures = λ ns n. refl;
  dated = λ ns n z. refl;
}
registry_after-IsConsistent (e ∷ t) =
    observed-IsConsistent e (registry_after empty_registry t) (registry_after-IsConsistent t)
