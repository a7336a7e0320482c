-- ===== src/Metrics/Registry.antt =====
-- internal/metrics/metrics.go: the registry that the operator exposes, and how the observers change it.
-- A trace of requests has what was observed; the registry after it is computed from it.
use backrest_operator.Prelude.{
  ℕ, suc, Bytes, Bool, ◌&&◌, Option, none, some, [], ◌∷◌, ◌==◌, if◌then◌else◌,
}
use backrest_operator.Effects.{Metric, Event, Trace}

-- The series of a vector with the labels namespace and name. One that was never set is not exposed.
abbrev pub Series : Type 0
Series = Bytes → Bytes → Option ℕ

-- the label `result` of an attempt
pub data Attempt : Type 0 where
  success failure : Attempt

pub record Registry : Type 0 where
  pub backup_failed_total : Series
  pub backup_last_success_seconds : Series
  pub restore_failed_total : Series
  pub backup_total : Attempt → Series
  pub backup_duration : Series
  pub backup_last_success : Series
  pub reconcile_errors : Bytes → Option ℕ

-- as a process starts
abbrev pub empty_registry : Registry
empty_registry = record {
  backup_failed_total = λ ns n. none;
  backup_last_success_seconds = λ ns n. none;
  restore_failed_total = λ ns n. none;
  backup_total = λ a ns n. none;
  backup_duration = λ ns n. none;
  backup_last_success = λ ns n. none;
  reconcile_errors = λ k. none;
}

abbrev pub is_labelled : Bytes → Bytes → Bytes → Bytes → Bool
is_labelled ns n ns' n' = (ns == ns') && (n == n')

-- WithLabelValues(ns, n).Set(v)
abbrev set_series : Series → Bytes → Bytes → ℕ → Series
set_series s ns n v ns' n' = if is_labelled ns n ns' n' then some v else s ns' n'

abbrev one_more : Option ℕ → ℕ
one_more none = 1
one_more (some v) = suc v

-- WithLabelValues(ns, n).Inc()
abbrev inc_series : Series → Bytes → Bytes → Series
inc_series s ns n = set_series s ns n (one_more (s ns n))

-- DeletePartialMatch
abbrev drop_series : Series → Bytes → Bytes → Series
drop_series s ns n ns' n' = if is_labelled ns n ns' n' then none else s ns' n'

abbrev inc_attempt : (Attempt → Series) → Attempt → Bytes → Bytes → Attempt → Series
inc_attempt s Attempt.success ns n Attempt.success = inc_series (s Attempt.success) ns n
inc_attempt s Attempt.failure ns n Attempt.failure = inc_series (s Attempt.failure) ns n
inc_attempt s Attempt.success ns n Attempt.failure = s Attempt.failure
inc_attempt s Attempt.failure ns n Attempt.success = s Attempt.success

sync_backup_last_success : Bytes → Bytes → ℕ → Registry → Registry
sync_backup_last_success ns n v r = record r {
  backup_last_success = set_series r.backup_last_success ns n v;
  backup_last_success_seconds = set_series r.backup_last_success_seconds ns n v;
}

observe_backup_success : Bytes → Bytes → ℕ → Registry → Registry
unfolding sync_backup_last_success
observe_backup_success ns n v r =
    sync_backup_last_success ns n v
      (record r { backup_total = inc_attempt r.backup_total Attempt.success ns n })

unfoldable pub forget_backup : Bytes → Bytes → Registry → Registry
forget_backup ns n r = record r {
  backup_failed_total = drop_series r.backup_failed_total ns n;
  backup_last_success_seconds = drop_series r.backup_last_success_seconds ns n;
  backup_total = λ a. drop_series (r.backup_total a) ns n;
  backup_duration = drop_series r.backup_duration ns n;
  backup_last_success = drop_series r.backup_last_success ns n;
}

observe_backup_failure : Bytes → Bytes → Registry → Registry
observe_backup_failure ns n r = record r {
  backup_total = inc_attempt r.backup_total Attempt.failure ns n;
  backup_failed_total = inc_series r.backup_failed_total ns n;
}

observe_restore_failure : Bytes → Bytes → Registry → Registry
observe_restore_failure ns n r = record r {
  restore_failed_total = inc_series r.restore_failed_total ns n;
}

-- ReconcileErrors.WithLabelValues(kind).Inc(), as the controllers call it
count_error : Bytes → Registry → Registry
count_error kind r = record r {
  reconcile_errors =
      λ k. if kind == k then some (one_more (r.reconcile_errors kind)) else r.reconcile_errors k;
}

unfoldable pub observe : Metric → Registry → Registry
unfolding sync_backup_last_success observe_backup_success forget_backup observe_backup_failure
    observe_restore_failure count_error
observe (Metric.forget_backup ns n) = forget_backup ns n
observe (Metric.sync_last_success ns n v) = sync_backup_last_success ns n v
observe (Metric.backup_success ns n v) = observe_backup_success ns n v
observe (Metric.backup_failure ns n) = observe_backup_failure ns n
observe (Metric.restore_failure ns n) = observe_restore_failure ns n
observe (Metric.reconcile_error kind) = count_error kind

abbrev pub observed : Event → Registry → Registry
observed (Event.metric m) r = observe m r
observed _ r = r

-- the registry after a trace, which has its last request first
abbrev pub registry_after : Registry → Trace → Registry
registry_after r [] = r
registry_after r (e ∷ t) = observed e (registry_after r t)
