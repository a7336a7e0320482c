-- ===== src/Backup/Quiesce.antt =====
-- Taking workloads down and bringing them back: quiesce, unquiesce, scaleWorkload, releaseQuiesce.
pub mod Split
pub mod Wait
pub mod Cluster
pub mod Restores
pub mod Release
use backrest_operator.Prelude.{
  ℕ, Bytes, bytes, Bool, true, false, Option, none, some, List, [], ◌∷◌, ◌++◌, is_empty, ◌==◌, map,
  leb, ◌&&◌, ◌+◌, or_text, if◌then◌else◌,
}
use backrest_operator.Prelude.Int.{ℤ, pos, is_positive, to_int32}
use backrest_operator.Prelude.Dict.{insert, erase, text_at}
use backrest_operator.Api.{Key, ObjectMeta, PvcBackup, QuiesceTarget, QuiesceSpec, key_of}
use backrest_operator.Effects.{
  on_result, on_option, is_not_found, Env, Result, ok, err, Error, Reason, not_found, Event,
  Workload, stateful_set, deployment, M, pure, ask, ◌>>=◌, ◌>>◌, plain_error,
}
use backrest_operator.Backup.Spec.{quiesce_state_key}
use Split.{split3}
use Wait.{wait_pod_deleted, pod_delete_timeout, ignore_not_found}

-- strings.EqualFold, of a text with one whose letters have no fold outside ASCII
abbrev lower : ℕ → ℕ
lower c = if leb b'A' c && leb c b'Z' then c + 32 else c

unfoldable pub equal_fold : Bytes → Bytes → Bool
equal_fold a b = map lower a == map lower b

-- the text under which the replicas of a target are kept
unfoldable pub target_key : QuiesceTarget → Bytes → Bytes
target_key t default = t.kind ++ b'/' ∷ (or_text t.namespace default ++ b'/' ∷ t.name)

-- one replica for each target
unfoldable pub fallback_from : Bytes → List (Bytes × ℤ) → List QuiesceTarget → List (Bytes × ℤ)
fallback_from default state [] = state
fallback_from default state (t ∷ ts) =
    fallback_from default (insert (target_key t default) (pos 1) state) ts

unfoldable pub fallback_state : Bytes → List QuiesceTarget → List (Bytes × ℤ)
unfolding fallback_from
fallback_state default = fallback_from default []

abbrev pub or_fallback : List (Bytes × ℤ) → List (Bytes × ℤ) → List (Bytes × ℤ)
or_fallback [] fallback = fallback
or_fallback (entry ∷ state) fallback = entry ∷ state

module _ (env : Env) where
  -- the two cases of a workload with replicas
  unfoldable pub scale_controller : Workload → Key → ℤ → M (ℤ × Option Error)
  scale_controller w key replicas = do
    r ← ask env.replicas (Event.get_workload w key)
    on_result r (λ e. pure (pos 0, some e))
        (λ prev. do e ← ask env.done (Event.scale w key replicas); pure (to_int32 prev, e))

  abbrev after_wait : Option Error → M (ℤ × Option Error)
  after_wait e = pure (pos 1, e)

  -- the case of a pod: it is deleted, and its controller makes it again
  unfoldable pub scale_pod : Key → ℤ → M (ℤ × Option Error)
  unfolding wait_pod_deleted
  scale_pod key replicas = if is_positive replicas then pure (replicas, none) else do
    r ← ask env.marked (Event.get_pod key)
    on_result r (λ e. (if is_not_found e then pure (pos 0, none) else pure (pos 0, some e)))
        (λ marked. do
          e ← ask env.done (Event.delete_pod key)
          on_option (ignore_not_found e) (λ d. pure (pos 1, some d))
              (do w ← wait_pod_deleted env key pod_delete_timeout; after_wait w))

  unfoldable pub scale_workload : Bytes → Bytes → Bytes → ℤ → M (ℤ × Option Error)
  unfolding scale_controller scale_pod
  scale_workload kind namespace name replicas =
      let key : Key = record { namespace = namespace; name = name } in
      if equal_fold kind (bytes "Pod")
      then scale_pod key replicas
      else if kind == bytes "StatefulSet"
      then scale_controller stateful_set key replicas
      else if kind == bytes "Deployment"
      then scale_controller deployment key replicas
      else pure (
        pos 0,
        some (
            plain_error (
              bytes "unsupported quiesce kind "
              ++ kind
              ++ bytes " (supported: StatefulSet, Deployment, Pod)")),
      )

  unfoldable pub quiesce_from :
      Bytes → List (Bytes × ℤ) → List QuiesceTarget → M (List (Bytes × ℤ) × Option Error)
  quiesce_from default state [] = pure (state, none)
  quiesce_from default state (t ∷ ts) = do
    r ← scale_workload t.kind (or_text t.namespace default) t.name (pos 0)
    on_option r.1 (λ e. pure (state, some e))
        (quiesce_from default (insert (target_key t default) r.0 state) ts)

  -- the state that was reached comes back beside an error
  unfoldable pub quiesce : PvcBackup → M (List (Bytes × ℤ) × Option Error)
  unfolding quiesce_from
  quiesce b = quiesce_from b.metadata.namespace [] b.spec.quiesce.targets

  -- a key that does not have three parts is passed over; so are the errors
  abbrev pub unquiesce_parts : List Bytes → ℤ → M (ℤ × Option Error)
  unquiesce_parts (kind ∷ namespace ∷ name ∷ []) replicas =
      scale_workload kind namespace name replicas
  unquiesce_parts _ replicas = pure (pos 0, none)

  -- Go visits a map in any order; this is the order of the list.
  unfoldable pub unquiesce : List (Bytes × ℤ) → M (Unit {0})
  unquiesce [] = pure tt
  unquiesce ((key, replicas) ∷ state) = unquiesce_parts (split3 key) replicas >> unquiesce state

  -- an empty value removes the key; the metadata of the answer is carried back
  unfoldable pub patch_annotation : PvcBackup → Bytes → Bytes → M (PvcBackup × Option Error)
  patch_annotation b key value = do
    r ← ask env.metadata (Event.patch_annotation (key_of b.metadata) key value)
    on_result r (λ e. pure (b, some e)) (λ m. pure (record b { metadata = m }, none))

  unfoldable pub clear_quiesce_annotation : PvcBackup → M (PvcBackup × Option Error)
  unfolding patch_annotation
  clear_quiesce_annotation b =
      if is_empty (text_at quiesce_state_key b.metadata.annotations)
      then pure (b, none)
      else patch_annotation b quiesce_state_key []

  unfoldable pub persist_quiesce_state : PvcBackup → List (Bytes × ℤ) → M (PvcBackup × Option Error)
  unfolding patch_annotation
  persist_quiesce_state b state =
      if is_empty state
      then pure (b, none)
      else patch_annotation b quiesce_state_key (env.encode state)

  -- what the annotation holds
  abbrev pub recorded_state : Bytes → List (Bytes × ℤ)
  recorded_state [] = []
  recorded_state (c ∷ raw) = env.decode (c ∷ raw)

  -- what to bring back: the recorded replicas, or one for each target if nothing is recorded
  unfoldable pub release_state : PvcBackup → List (Bytes × ℤ)
  release_state b =
      or_fallback (recorded_state (text_at quiesce_state_key b.metadata.annotations))
        (fallback_state b.metadata.namespace b.spec.quiesce.targets)

  unfoldable pub release_quiesce : PvcBackup → M (PvcBackup × Option Error)
  unfolding unquiesce clear_quiesce_annotation release_state
  release_quiesce b =
      if b.spec.quiesce.leave_down
      then clear_quiesce_annotation b
      else unquiesce (release_state b) >> clear_quiesce_annotation b
