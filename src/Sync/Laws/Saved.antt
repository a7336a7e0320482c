-- ===== src/Sync/Laws/Saved.antt =====
-- What a reconcile of a BackupRepository has done before it writes a status: the sync with the host.
use backrest_operator.Prelude.{
  ◌≡◌, refl, Bytes, bytes, true, ◌⊎◌, inl, inr, Option, none, some, [], ◌∷◌,
}
use backrest_operator.Api.{Phase, Key, BackupRepository}
use backrest_operator.Effects.{Error, wrap_error, Event, Trace, pure, ask, tell, ◌>>=◌}
use backrest_operator.Effects.Keeps.{
  Keeps, Keeps-pure, Keeps-bind, Keeps-if, Keeps-on_option, Keeps-on_result,
}
use backrest_operator.Effects.Yields.{Before, Before-trans, Done}
use backrest_operator.Effects.Ends.{
  Ends, Ends-pure, Ends-bind, Ends-after, Ends-if, Ends-on_option, Ends-on_result, Ends-from,
  some-none,
}
use backrest_operator.Backup.Host.{host_url}
use backrest_operator.Mcp.Calls.{HostRepo}
use backrest_operator.Sync.{
  Syncs, cluster_of, host_repo, store_repo, send_repository, sync_repository_to_host,
  read_secret_key, env_lines, secret_env_lines, secret_key,
}
use backrest_operator.Sync.Objects.{RepositoryObject, CronJob, SyncCall}
use backrest_operator.Sync.Repositories.{
  check_spec, check_cron, verifies, save_repository, ended, repository_error, sync_failed,
  sync_and_save,
}

module _ (w : Syncs) where
  -- A CronJob with the check of the repository was written, if it is to be verified.
  abbrev pub IsChecked : BackupRepository → Trace → Type 0
  IsChecked repo u =
      verifies repo ≡ true
      → Done w.env (Event.sync (SyncCall.create_cron_job (check_cron repo))) u
        ⊎ ((cur : CronJob) × Done w.env
              (Event.sync (SyncCall.update_cron_job (record cur { spec = check_spec repo }))) u)

  -- The host has the repository under its name and url, if it is to have it.
  abbrev pub IsSynced : BackupRepository → Trace → Type 0
  IsSynced repo u =
      repo.spec.sync_to_host ≡ true
      → (r : HostRepo) × (r.id ≡ repo.metadata.name)
        × (r.uri ≡ repo.spec.url)
        × Done w.env (Event.sync (SyncCall.upsert_repo (host_url (cluster_of repo)) r)) u

  abbrev pub CallEarned : SyncCall → Trace → Type 0
  CallEarned (SyncCall.update_repository_status d) u =
      d.status.phase ≡ Phase.ready → IsChecked d.object u × IsSynced d.object u
  CallEarned _ u = Unit

  abbrev pub StatusEarned : Event → Trace → Type 0
  StatusEarned (Event.sync c) u = CallEarned c u
  StatusEarned _ u = Unit

  -- every status of a trace
  abbrev pub AllEarned : Trace → Type 0
  AllEarned [] = Unit
  AllEarned (e ∷ u) = StatusEarned e u × AllEarned u

  -- and the trace goes on from `s`
  abbrev pub From : Trace → Trace → Type 0
  From s u = AllEarned u × Before s u

  module _ (s : Trace) where
    ask-Keeps :
        {A : Type 0} (answer : Trace → A) (e : Event)
        → ((u : Trace) → StatusEarned e u)
        → Keeps (From s) (ask answer e)
    unfolding ask
    ask-Keeps answer e q = record { at = λ t h. ((q t, h.0), Before.later h.1) }

    no_premise : Unit {0}
    no_premise = tt

    ruleset quiet_rules =
        (Keeps-pure, Keeps-bind, Keeps-if, Keeps-on_option, Keeps-on_result, ask-Keeps, no_premise)

    read_secret_key-Keeps : (k : Key) (name : Bytes) → Keeps (From s) (read_secret_key w k name)
    unfolding read_secret_key
    read_secret_key-Keeps k name = search quiet_rules depth 12

    env_lines-Keeps : (repo : BackupRepository) → Keeps (From s) (env_lines w repo)
    unfolding env_lines secret_env_lines
    env_lines-Keeps repo = search quiet_rules depth 12

    -- an error, or the repository is on the host
    abbrev Sent : BackupRepository → Option Error → Trace → Type 0
    Sent repo e u = From s u × (e ≡ none → IsSynced repo u)

    refused :
        {K : Trace → Type 0} (repo : BackupRepository) (x : Error)
        → ((u : Trace) → K u → From s u)
        → Ends K (pure (some x)) (Sent repo)
    refused repo x h = Ends-pure (some x) (λ t k. (h t k, λ z. some-none z))

    indexed :
        (repo : BackupRepository) (r : HostRepo) (e : Event) (u : Trace)
        → StatusEarned e u
        → r.id ≡ repo.metadata.name
        → r.uri ≡ repo.spec.url
        → From s u × Done w.env (Event.sync (SyncCall.upsert_repo (host_url (cluster_of repo)) r)) u
        → Sent repo none (e ∷ u)
    indexed repo r e u st same_id same_uri ((all, b), (v, c, z)) =
        (((st, all), Before.later b), λ _ _. (r, same_id, same_uri, (v, Before.later c, z)))

    store_repo-Ends :
        (repo : BackupRepository) (r : HostRepo)
        → r.id ≡ repo.metadata.name
        → r.uri ≡ repo.spec.url
        → Ends (From s) (store_repo w (host_url (cluster_of repo)) repo r) (Sent repo)
    unfolding store_repo ask
    store_repo-Ends repo r same_id same_uri =
        Ends-bind
          {P = λ e u.
            From s u
            × (e ≡ none
                → Done w.env (Event.sync (SyncCall.upsert_repo (host_url (cluster_of repo)) r)) u)}
          (ask w.env.done _) _
          (record { at = λ t h. (((tt, h.0), Before.later h.1), λ q. (t, Before.here, q)) })
          (λ e.
            Ends-on_option e _ _
              (λ x q. refused repo (wrap_error (bytes "upsert repo on host: ") x) (λ u h. h.0))
              (λ q. record {
                at = λ t h.
                    indexed repo r
                      (Event.index_snapshots (host_url (cluster_of repo)) repo.metadata.name) t tt
                      same_id same_uri (h.0, h.1 q);
              }))

    send_repository-Ends :
        (repo : BackupRepository)
        → Ends (From s) (send_repository w (host_url (cluster_of repo)) repo) (Sent repo)
    unfolding send_repository
    send_repository-Ends repo =
        Ends-after (read_secret_key w (secret_key w repo _) _) _ (read_secret_key-Keeps _ _)
          (λ password.
            Ends-on_result password _ _ (λ e. refused repo e (λ u h. h))
              (λ p. Ends-after (env_lines w repo) _ (env_lines-Keeps repo) (λ lines.
                Ends-on_result lines _ _ (λ e. refused repo e (λ u h. h))
                  (λ l. store_repo-Ends repo (host_repo w repo p l) refl refl))))

    sync_repository_to_host-Ends :
        (repo : BackupRepository) → Ends (From s) (sync_repository_to_host w repo) (Sent repo)
    unfolding sync_repository_to_host
    sync_repository_to_host-Ends repo =
        Ends-if repo.spec.sync_to_host _ _
          (λ _. Ends-after (ask w.env.done _) _ (ask-Keeps w.env.done _ (λ u. tt)) (λ e.
            Ends-on_option e _ _
              (λ x q. refused repo (wrap_error (bytes "ensure backrest instance: ") x) (λ u h. h))
              (λ q. send_repository-Ends repo)))
          (λ off. Ends-pure none (λ t h. (h, λ _ on. absurd cc)))

    sync_failed-Ends :
        (r : RepositoryObject) (e : Error) → Ends (From s) (sync_failed w r e) (λ o u. AllEarned u)
    unfolding sync_failed repository_error ask tell
    sync_failed-Ends r e = record { at = λ t h. (λ z. absurd cc, (tt, h.0)) }

    lift : (repo : BackupRepository) (u : Trace) → Before s u → IsChecked repo s → IsChecked repo u
    lift repo u b checked on = elim (checked on) [
      | inl (v, c, z) ↦ inl (v, Before-trans c b, z)
      | inr (cur, (v, c, z)) ↦ inr (cur, (v, Before-trans c b, z))
    ]

    save-Ends :
        (r : RepositoryObject) (e : Option Error)
        → e ≡ none
        → IsChecked r.object s
        → Ends (Sent r.object e) (do u ← save_repository w r; pure (ended u)) (λ o u. AllEarned u)
    unfolding ask
    save-Ends r e q checked = record {
      at = λ t h. (λ ready. (lift r.object t h.0.1 checked, h.1 q), h.0.0);
    }

    pub sync_and_save-Ends :
        (r : RepositoryObject)
        → IsChecked r.object s
        → Ends (From s) (sync_and_save w r) (λ o u. AllEarned u)
    unfolding sync_and_save ask
    sync_and_save-Ends r checked =
        Ends-bind (sync_repository_to_host w r.object) _ (sync_repository_to_host-Ends r.object)
          (λ e.
            Ends-on_option e _ _ (λ x q. Ends-from (λ t h. h.0) (sync_failed-Ends r x))
              (λ q. save-Ends r e q checked))
