-- ===== src/Sync/Laws/Ready.antt =====
-- A BackupRepository is called Ready when its check and its copy on the host are there.
use backrest_operator.Prelude.{◌≡◌, bytes, false, inl, inr, Option, none, some, ◌∷◌}
use backrest_operator.Api.{Key, BackupRepository}
use backrest_operator.Effects.{Error, Event, Trace, pure, ask, tell, is_not_found}
use backrest_operator.Effects.Keeps.{Keeps}
use backrest_operator.Effects.Yields.{Before}
use backrest_operator.Effects.Ends.{
  Ends, Ends-pure, Ends-bind, Ends-after, Ends-if, Ends-on_option, Ends-on_result, Ends-from,
  some-none,
}
use backrest_operator.Filters.{object_allowed}
use backrest_operator.Backup.Poll.{finished}
use backrest_operator.Backup.Quiesce.Wait.{ignore_not_found}
use backrest_operator.Sync.{Syncs}
use backrest_operator.Sync.Objects.{RepositoryObject, CronJob, SyncCall}
use backrest_operator.Sync.Repositories.{
  check_spec, check_cron, cron_key, verifies, is_invalid, mark_ready, ensure_check_cron, ended,
  repository_error, sync_and_save, verify_failed, verify_and_sync, skip_and_sync, reject_repository,
  reconcile_valid, reconcile_repository,
}
use backrest_operator.Sync.Laws.Saved.{IsChecked, AllEarned, sync_and_save-Ends}

module _ (w : Syncs) where
  -- a check of the repository, if there was no error
  abbrev Checked : BackupRepository → Option Error → Trace → Type 0
  Checked repo e u = AllEarned w u × (e ≡ none → IsChecked w repo u)

  created-Ends :
      (repo : BackupRepository)
      → Ends
          (AllEarned w)
          (ask w.env.done (Event.sync (SyncCall.create_cron_job (check_cron repo))))
          (Checked repo)
  unfolding ask
  created-Ends repo = record { at = λ t h. ((tt, h), λ q _. inl (t, Before.here, q)) }

  updated-Ends :
      (repo : BackupRepository) (cur : CronJob)
      → Ends
          (AllEarned w)
          (ask w.env.done
            (Event.sync (SyncCall.update_cron_job (record cur { spec = check_spec repo }))))
          (Checked repo)
  unfolding ask
  updated-Ends repo cur = record { at = λ t h. ((tt, h), λ q _. inr (cur, (t, Before.here, q))) }

  read-Keeps :
      {A : Type 0} (answer : Trace → A) (k : Key)
      → Keeps (AllEarned w) (ask answer (Event.sync (SyncCall.get_cron_job k)))
  unfolding ask
  read-Keeps answer k = record { at = λ t h. (tt, h) }

  ensure_check_cron-Ends :
      (repo : BackupRepository) → Ends (AllEarned w) (ensure_check_cron w repo) (Checked repo)
  unfolding ensure_check_cron
  ensure_check_cron-Ends repo =
      Ends-after (ask w.cron_job _) _ (read-Keeps w.cron_job (cron_key repo)) (λ got.
        Ends-on_result got _ _
          (λ e.
            Ends-if (is_not_found e) _ (pure (some e)) (λ _. created-Ends repo)
              (λ _. Ends-pure (some e) (λ t h. (h, λ z. some-none z))))
          (λ cur. updated-Ends repo cur))

  verify_failed-Ends :
      (repo : BackupRepository) (o : Option Error) (e : Error)
      → Ends (Checked repo o) (verify_failed w e) (λ o u. AllEarned w u)
  unfolding verify_failed repository_error tell
  verify_failed-Ends repo o e = record { at = λ t h. (tt, h.0) }

  saved-Ends :
      (r : RepositoryObject)
      → Ends
          (λ u. AllEarned w u × IsChecked w r.object u)
          (sync_and_save w r)
          (λ o u. AllEarned w u)
  saved-Ends r = record { at = λ t h. (sync_and_save-Ends w t r h.1).at t (h.0, Before.here) }

  verify_and_sync-Ends :
      (r : RepositoryObject) → Ends (AllEarned w) (verify_and_sync w r) (λ o u. AllEarned w u)
  unfolding verify_and_sync
  verify_and_sync-Ends r =
      Ends-bind (ensure_check_cron w r.object) _ (ensure_check_cron-Ends r.object) (λ e.
        Ends-on_option e _ _ (λ x q. verify_failed-Ends r.object e x)
          (λ q. Ends-from (λ t h. (h.0, h.1 q)) (saved-Ends (mark_ready (bytes "scheduled") r))))

  skip_and_sync-Ends :
      (r : RepositoryObject)
      → verifies r.object ≡ false
      → Ends (AllEarned w) (skip_and_sync w r) (λ o u. AllEarned w u)
  unfolding skip_and_sync ask
  skip_and_sync-Ends r off = record {
    at = λ t h.
        (saved-Ends (mark_ready (bytes "skipped") r)).at
          (Event.sync (SyncCall.delete_cron_job (cron_key r.object)) ∷ t)
          ((tt, h), λ on. absurd cc);
  }

  reject-Ends :
      (r : RepositoryObject) → Ends (AllEarned w) (reject_repository w r) (λ o u. AllEarned w u)
  unfolding reject_repository ask
  reject-Ends r = record { at = λ t h. (λ z. absurd cc, h) }

  valid-Ends :
      (r : RepositoryObject) → Ends (AllEarned w) (reconcile_valid w r) (λ o u. AllEarned w u)
  unfolding reconcile_valid
  valid-Ends r =
      Ends-if (is_invalid r.object) _ _ (λ _. reject-Ends r)
        (λ _.
          Ends-if (verifies r.object) _ _ (λ _. verify_and_sync-Ends r)
            (λ off. skip_and_sync-Ends r off))

  reconcile-Ends :
      (key : Key) → Ends (AllEarned w) (reconcile_repository w key) (λ o u. AllEarned w u)
  unfolding reconcile_repository ask
  reconcile-Ends key =
      Ends-bind {P = λ g u. AllEarned w u} (ask w.repository _) _ (record { at = λ t h. (tt, h) })
        (λ got.
          Ends-on_result got _ _ (λ e. Ends-pure (ended (ignore_not_found (some e))) (λ t h. h))
            (λ r.
              Ends-if
                (object_allowed w.env.watch_namespaces w.env.watch_label_selector
                  r.object.metadata.namespace r.object.metadata.labels)
                _ (pure finished) (λ _. valid-Ends r) (λ _. Ends-pure finished (λ t h. h))))

  -- Whatever the cluster and the host answer, a reconcile writes the phase Ready of a BackupRepository
  -- only after its CronJob with the check was written without an error, if it is to be verified, and
  -- after the host took it under its name and url, if the host is to have it.
  pub reconcile_repository-AllEarned :
      (key : Key) (t : Trace) → AllEarned w t → AllEarned w (reconcile_repository w key t).1
  reconcile_repository-AllEarned key t h = (reconcile-Ends key).at t h
