-- ===== src/Backup/Traces/Forgets.antt =====
-- A backup that is gone leaves no series in the registry.
use backrest_operator.Prelude.{
  Bytes, ◌≡◌, ◌⊎◌, refl, true, false, inl, inr, none, ◌∷◌, eq_refl, arith, if◌then◌else◌, some, ap,
  ◌∙◌,
}
use backrest_operator.Api.{Key, PvcBackup}
use backrest_operator.Filters.{object_allowed}
use backrest_operator.Effects.{
  Env, Result, ok, err, Error, Event, Metric, Trace, M, Outcome, pure, ask, tell, ◌>>=◌, ◌>>◌,
  is_not_found, on_option,
}
use backrest_operator.Effects.Keeps.{
  Keeps, Keeps-pure, Keeps-bind, Keeps-if, Keeps-on_option, Keeps-on_result,
}
use backrest_operator.Effects.Ends.{Ends, Ends-bind, Ends-if, Ends-on_answer}
use backrest_operator.Metrics.Registry.{
  Series, Registry, is_labelled, forget_backup, observe, observed, registry_after,
}
use backrest_operator.Backup.Host.{remove_pvc_backup_plan_from_host}
use backrest_operator.Backup.Quiesce.Wait.{ignore_not_found}
use backrest_operator.Backup.Poll.{finished, requeued}
use backrest_operator.Backup.Reconcile.{
  reconcile, reconcile_live, reconcile_deleted, has_finalizer, forget_missing, store,
  remove_finalizer,
}

module _ (ns n : Bytes) where
  -- `s'` is `s` without the series of the backup
  abbrev pub Loses : Series → Series → Type 0
  Loses s s' = (s' ns n ≡ none) × ((k l : Bytes) → is_labelled ns n k l ≡ false → s' k l ≡ s k l)

  -- no series of the backup is left, and all others are as they were
  pub record Forgotten (r r' : Registry) : Type 0 where
    pub failed_total : Loses r.backup_failed_total r'.backup_failed_total
    pub last_success_seconds : Loses r.backup_last_success_seconds r'.backup_last_success_seconds
    pub total : (a : _) → Loses (r.backup_total a) (r'.backup_total a)
    pub duration : Loses r.backup_duration r'.backup_duration
    pub last_success : Loses r.backup_last_success r'.backup_last_success
    pub restores : r'.restore_failed_total ≡ r.restore_failed_total
    pub errors : r'.reconcile_errors ≡ r.reconcile_errors

  forget_backup-Forgotten : (r : Registry) → Forgotten r (forget_backup ns n r)
  unfolding forget_backup
  forget_backup-Forgotten r =
      let same : is_labelled ns n ns n ≡ true = ground (arith, eq_refl ns, eq_refl n) in
      record {
        failed_total = (rw same, λ k l h. rw h);
        last_success_seconds = (rw same, λ k l h. rw h);
        total = λ a. (rw same, λ k l h. rw h);
        duration = (rw same, λ k l h. rw h);
        last_success = (rw same, λ k l h. rw h);
        restores = refl;
        errors = refl;
      }

module _ (env : Env) (key : Key) (start : Registry) where
  -- The answer to the first read: nothing is there, or a backup that is not watched or is deleted.
  abbrev pub IsGone : Result PvcBackup → Type 0
  IsGone (err e) = is_not_found e ≡ true
  IsGone (ok b) =
      (b.metadata.namespace ≡ key.namespace)
      × (b.metadata.name ≡ key.name)
      × ((object_allowed env.watch_namespaces env.watch_label_selector b.metadata.namespace
              b.metadata.labels
            ≡ false)
          ⊎ (b.metadata.deleting ≡ true))

  -- the registry after a trace is `r`
  abbrev After : Registry → Trace → Type 0
  After r t = registry_after start t ≡ r

  ask-Keeps :
      {A : Type 0} {r : Registry} (answer : Trace → A) (e : Event)
      → ((q : Registry) → observed e q ≡ q)
      → Keeps (After r) (ask answer e)
  unfolding ask
  ask-Keeps answer e quiet = record { at = λ t h. quiet (registry_after start t) ∙ h }

  unchanged : {q : Registry} → q ≡ q
  unchanged = refl

  ruleset unobserved_rules =
      (Keeps-pure, Keeps-bind, Keeps-if, Keeps-on_option, Keeps-on_result, ask-Keeps, unchanged)

  -- an action that observes nothing after one that does
  quiet-Ends :
      {A : Type 0} {r : Registry} {m : M A}
      → Keeps (After r) m
      → Ends (After r) m (λ a u. After r u)
  quiet-Ends k = record { at = k.at }

  forgets-Ends :
      {A : Type 0} (k l : Bytes) (r : Registry) (m : M A)
      → Keeps (After (forget_backup k l r)) m
      → Ends
          (After r)
          (tell (Event.metric (Metric.forget_backup k l)) >>= λ _. m)
          (λ a u. After (forget_backup k l r) u)
  unfolding tell observe
  forgets-Ends k l r m keeps =
      Ends-bind (tell _) _ (record { at = λ t h. ap (forget_backup k l) h }) (λ _. quiet-Ends keeps)

  removed-Keeps :
      (r : Registry) (b : PvcBackup) → Keeps (After r) (remove_pvc_backup_plan_from_host env b)
  unfolding remove_pvc_backup_plan_from_host
  removed-Keeps r b = search unobserved_rules depth 12

  -- the rest of reconcile_deleted with the finalizer
  abbrev release : PvcBackup → M Outcome
  release b = do
    e ← remove_pvc_backup_plan_from_host env b
    on_option e (λ x. pure (requeued (some x)))
        (do
          u ← store env (record b { metadata = remove_finalizer b.metadata })
          on_option u.1 (λ x. pure (requeued (some x))) (pure finished))

  release-Keeps : (r : Registry) (b : PvcBackup) → Keeps (After r) (release b)
  release-Keeps r b = search (unobserved_rules, removed-Keeps) depth 12

  deleted-Ends :
      (r : Registry) (b : PvcBackup)
      → Ends
          (After r)
          (reconcile_deleted env b)
          (λ o u. After (forget_backup b.metadata.namespace b.metadata.name r) u)
  unfolding reconcile_deleted
  deleted-Ends r b =
      forgets-Ends b.metadata.namespace b.metadata.name r
        (if has_finalizer b.metadata then release b else pure finished)
        (search (unobserved_rules, release-Keeps))

  -- what is known when the first read is answered
  abbrev Found : Registry → Result PvcBackup → Trace → Type 0
  Found r answer u = After r u × IsGone answer

  missing-Ends :
      (r : Registry) (e : Error)
      → Ends {A = Outcome}
          (Found r (err e))
          (do
            forget_missing env key e
            pure (record { requeue = false; after = 0; error = ignore_not_found (some e) }))
          (λ o u. After (forget_backup key.namespace key.name r) u)
  unfolding tell observe
  missing-Ends r e = record { at = λ u h. rw h.1 (ap (forget_backup key.namespace key.name) h.0) }

  Found-Ends :
      (r : Registry) (b : PvcBackup)
      → Ends
          (Found r (ok b))
          (if object_allowed env.watch_namespaces env.watch_label_selector b.metadata.namespace
              b.metadata.labels
            then (if b.metadata.deleting then reconcile_deleted env b else reconcile_live env b)
            else (do
              tell (Event.metric (Metric.forget_backup b.metadata.namespace b.metadata.name))
              pure finished))
          (λ o u. After (forget_backup key.namespace key.name r) u)
  unfolding tell observe
  Found-Ends r b =
      Ends-if
        (object_allowed env.watch_namespaces env.watch_label_selector b.metadata.namespace
          b.metadata.labels)
        _ _
        (λ on.
          Ends-if b.metadata.deleting _ _
            (λ d. record { at = λ u h. rw (← h.1.0, ← h.1.1) ((deleted-Ends r b).at u h.0) })
            (λ d. record { at = λ u h. elim h.1.2 [ inl z ↦ absurd cc | inr z ↦ absurd cc ] }))
        (λ off. record {
          at = λ u h.
              rw (← h.1.0, ← h.1.1) (ap (forget_backup b.metadata.namespace b.metadata.name) h.0);
        })

  reconcile-Ends :
      (r : Registry)
      → Ends
          (λ u. After r u × IsGone (env.backup (Event.get_backup key ∷ u)))
          (reconcile env key)
          (λ o u. After (forget_backup key.namespace key.name r) u)
  unfolding reconcile ask
  reconcile-Ends r =
      Ends-bind {P = Found r} (ask env.backup _) _ (record { at = λ t h. h })
        (λ answer.
          Ends-on_answer (Found r) answer _ _ (λ e. missing-Ends r e) (λ b. Found-Ends r b))

  -- Whatever the cluster answers afterwards: when the first read of a reconcile finds that the
  -- PVCBackup is not there, is not watched or is deleted, no series of it is left in the registry
  -- after the reconcile, and every other series is as it was before.
  pub reconcile-Forgotten :
      (t : Trace)
      → IsGone (env.backup (Event.get_backup key ∷ t))
      → Forgotten key.namespace key.name
          (registry_after start t)
          (registry_after start (reconcile env key t).1)
  reconcile-Forgotten t gone =
      rw ((reconcile-Ends (registry_after start t)).at t (refl, gone))
        (forget_backup-Forgotten key.namespace key.name (registry_after start t))
