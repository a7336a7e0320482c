-- ===== src/Backup/Secrets.antt =====
-- ensureRepoSecrets and mirrorSecret: the secrets of a repository in another namespace.
use backrest_operator.Prelude.{Bytes, Option, none, some, ◌==◌, if◌then◌else◌}
use backrest_operator.Api.{Key, BackupRepository}
use backrest_operator.Effects.{on_option, is_not_found, Env, Error, Event, M, pure, ask, ◌>>=◌}
use backrest_operator.Backup.Jobs.{env_from}

module _ (env : Env) where
  -- A write names the secret and the one that its type and data are taken from.
  unfoldable pub mirror_secret : Bytes → Bytes → Bytes → M (Option Error)
  mirror_secret from to name =
      let src : Key = record { namespace = from; name = name } in
      let dst : Key = record { namespace = to; name = name } in
      do
        s ← ask env.done (Event.get_secret src)
        on_option s (λ e. pure (some e))
            (do
              cur ← ask env.done (Event.get_secret dst)
              on_option cur
                  (λ e.
                    (if is_not_found e
                      then ask env.done (Event.create_secret dst src)
                      else pure (some e)))
                  (ask env.done (Event.update_secret dst src)))

  unfoldable pub ensure_repo_secrets : Bytes → BackupRepository → M (Option Error)
  unfolding mirror_secret env_from
  ensure_repo_secrets namespace repo =
      if repo.metadata.namespace == namespace then pure none else do
        e ← mirror_secret repo.metadata.namespace namespace repo.spec.password_secret_name
        on_option e (λ x. pure (some x))
            (on_option (env_from repo)
              (λ name. mirror_secret repo.metadata.namespace namespace name) (pure none))
