-- ===== src/Examples/Restores.antt =====
-- Two restores of the claim of the small cluster, a clock and a store with resource versions.
use backrest_operator.Prelude.{
  ℕ, List, ◌+◌, ◌≡◌, ◌≢◌, refl, subst, Bytes, bytes, true, false, Bool, [], ◌∷◌, arith, eq_num,
  eq_num_iff,
}
use backrest_operator.Api.{Phase, RestoreMode, PvcRestore}
use backrest_operator.Effects.{Env, Result, ok, err, Error, Event, Trace, plain_error}
use backrest_operator.Effects.Clock.{IsClock}
use backrest_operator.Examples.{meta, here, web, db, env}
use backrest_operator.Prelude.Int.{ℤ, pos}
use backrest_operator.Restore.Laws.Recorded.{KeepsAnnotations, ReadsBack}
use backrest_operator.Restore.Laws.Conflict.{IsVersioned}

abbrev pub restoring : Bytes → Phase → PvcRestore
restoring name phase = record {
  metadata = meta name;
  spec = record {
    mode = RestoreMode.restic_to_existing;
    repository_ref = here (bytes "repo");
    snapshot_id = [];
    path_filters = [];
    volume_snapshot_ref = here [];
    target = record {
      existing_pvc_name = bytes "vol";
      new_name = [];
      new_size = [];
      new_storage_class_name = [];
    };
    quiesce = record { enabled = true; leave_down = false; targets = web ∷ db ∷ [] };
  };
  status = record { phase = phase; last_job_name = []; conditions = [] };
}

abbrev pub mine : PvcRestore
mine = restoring (bytes "mine") Phase.unset

-- a restore that is at work on the same claim
abbrev pub theirs : PvcRestore
theirs = restoring (bytes "theirs") Phase.restoring

-- a sleep takes its time, any other request a nanosecond
abbrev duration : Event → ℕ
duration (Event.sleep n) = n
duration _ = 1

unfoldable pub passed : Trace → ℕ
passed [] = 0
passed (e ∷ t) = duration e + passed t

pub passed-IsClock : IsClock passed
unfolding passed
passed-IsClock = record { grows = λ e t. omega arith; sleeps = λ n t. omega arith }

-- every update of a restore makes a version
abbrev step : Event → ℕ
step (Event.update_restore r) = 1
step _ = 0

unfoldable pub version : Trace → ℕ
version [] = 1
version (e ∷ t) = step e + version t

abbrev conflict : Error
conflict = plain_error (bytes "conflict")

abbrev at_version : Bool → PvcRestore → Result PvcRestore
at_version true r = ok r
at_version false r = err conflict

abbrev pub stored : Trace → Result PvcRestore
stored (Event.update_restore_status r ∷ t) = at_version (eq_num r.metadata.version (version t)) r
stored _ = ok mine

abbrev pub env_versioned : Env
env_versioned = record env { restore = stored }

refused : (b : Bool) (r : PvcRestore) → b ≡ false → (e : Error) × (at_version b r ≡ err e)
refused true r h = cc
refused false r h = (conflict, refl)

eq_num-false : (a b : ℕ) → a ≢ b → eq_num a b ≡ false
eq_num-false a b h = ground (arith, eq_num_iff a b)

pub env-IsVersioned : IsVersioned env_versioned version
unfolding version
env-IsVersioned = record {
  grows = λ e t. omega arith;
  updates = λ k got c name a t read changed h. omega arith;
  conflicts = λ r t h. refused _ r (eq_num-false r.metadata.version (version t) h);
}

-- what was sent comes back
abbrev pub echo : Trace → Result PvcRestore
echo (Event.update_restore r ∷ t) = ok r
echo _ = ok mine

abbrev pub recorded : List (Bytes × ℤ)
recorded = (bytes "web", pos 3) ∷ []

-- an API server that answers with what was sent, and a codec that knows one state
abbrev pub env_echoing : Env
env_echoing = record env { restore = echo; encode = λ s. bytes "{}"; decode = λ s. recorded }

stores_sent :
    (r c : PvcRestore)
    → ◌≡◌ {A = Result PvcRestore} (ok r) (ok c)
    → c.metadata.annotations ≡ r.metadata.annotations
stores_sent r c h =
    let same : r ≡ c = cc in subst (λ x. x.metadata.annotations ≡ r.metadata.annotations) same refl

pub echoing-KeepsAnnotations : KeepsAnnotations env_echoing
echoing-KeepsAnnotations = record { stores = λ r c t h. stores_sent r c h }

pub echoing-ReadsBack : ReadsBack env_echoing recorded
unfolding bytes
echoing-ReadsBack = record { reads = refl; full = refl }
