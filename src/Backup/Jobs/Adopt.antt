-- ===== src/Backup/Jobs/Adopt.antt =====
-- findOwnedBackupJob and findOwnedPruneJob.
use backrest_operator.Prelude.{
  ℕ, Bytes, bytes, Bool, false, Option, none, some, List, [], ◌∷◌, ◌++◌, ◌&&◌, ◌||◌, not, ◌==◌,
  starts_with, leb, if◌then◌else◌,
}
use backrest_operator.Prelude.Int.{is_positive}
use backrest_operator.Api.{PvcBackup}
use backrest_operator.Effects.{Env, Result, ok, err, Event, M, pure, ask, ◌>>=◌, Job}

-- metav1.IsControlledBy
abbrev pub is_controlled_by : Option Bytes → Bytes → Bool
is_controlled_by none uid = false
is_controlled_by (some owner) uid = owner == uid

-- the Job passes the three `continue`s of the loop
unfoldable pub adoptable : Bytes → Bytes → Job → Bool
adoptable prefix uid j =
    starts_with j.key.name prefix
    && (is_controlled_by j.controller uid && not (is_positive j.succeeded || is_positive j.failed))

-- ts >= newestTS; the zero time has a negative Unix time
abbrev pub not_older : Option ℕ → ℕ → Bool
not_older none newest_ts = false
not_older (some ts) newest_ts = leb newest_ts ts

abbrev pub or_zero : Option ℕ → ℕ
or_zero none = 0
or_zero (some n) = n

-- the loop, over the newest name and time so far
unfoldable pub newest_from : Bytes → Bytes → Bytes → ℕ → List Job → Bytes
unfolding adoptable
newest_from prefix uid newest newest_ts [] = newest
newest_from prefix uid newest newest_ts (j ∷ js) =
    let take_it = adoptable prefix uid j && not_older j.created newest_ts in
    newest_from prefix uid (if take_it then j.key.name else newest)
      (if take_it then or_zero j.created else newest_ts) js

-- an empty name means that there is none
abbrev pub named : Bytes → Option Bytes
named [] = none
named (c ∷ s) = some (c ∷ s)

abbrev pub newest_of : Bytes → Bytes → Result (List Job) → Option Bytes
newest_of prefix uid (err e) = none
newest_of prefix uid (ok js) = named (newest_from prefix uid [] 0 js)

module _ (env : Env) where
  unfoldable pub find_owned_backup_job : PvcBackup → M (Option Bytes)
  unfolding newest_from
  find_owned_backup_job b = do
    js ← ask env.jobs (Event.list_jobs b.metadata.namespace)
    pure (newest_of (bytes "pvcbackup-" ++ (b.metadata.name ++ b'-' ∷ [])) b.metadata.uid js)

  unfoldable pub find_owned_prune_job : PvcBackup → M (Option Bytes)
  unfolding newest_from
  find_owned_prune_job b = do
    js ← ask env.jobs (Event.list_jobs b.metadata.namespace)
    pure (newest_of (bytes "pvcbackup-prune-" ++ (b.metadata.name ++ b'-' ∷ [])) b.metadata.uid js)
