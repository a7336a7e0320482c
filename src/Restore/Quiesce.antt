-- ===== src/Restore/Quiesce.antt =====
-- persistRestoreQuiesce, releaseRestoreQuiesce and clearRestoreQuiesceAnnotation.
use backrest_operator.Prelude.{
  Bytes, bytes, Option, none, some, List, [], ◌∷◌, is_empty, if◌then◌else◌,
}
use backrest_operator.Prelude.Int.{ℤ}
use backrest_operator.Prelude.Dict.{insert, erase, text_at}
use backrest_operator.Api.{PvcRestore, key_of}
use backrest_operator.Effects.{
  Env, Result, ok, err, Error, Event, M, pure, ask, ◌>>=◌, ◌>>◌, on_result,
}
use backrest_operator.Backup.Quiesce.{unquiesce, fallback_state, recorded_state, or_fallback}

unfoldable pub restore_quiesce_state_key : Bytes
restore_quiesce_state_key = bytes "operator.backrest.io/restore-quiesce-state"

abbrev pub annotate : PvcRestore → List (Bytes × Bytes) → PvcRestore
annotate r a = record r { metadata = record (r.metadata) { annotations = a } }

-- the error of an update, or nothing
abbrev pub update_error : Result PvcRestore → Option Error
update_error (ok r) = none
update_error (err e) = some e

abbrev pub annotations_back : PvcRestore → Result PvcRestore → PvcRestore × Option Error
annotations_back r (err e) = (r, some e)
annotations_back r (ok w) = (annotate r w.metadata.annotations, none)

module _ (env : Env) where
  -- the object with the state among its annotations, written
  unfoldable pub write_state :
      PvcRestore → List (Bytes × ℤ) → PvcRestore → M (PvcRestore × Option Error)
  write_state r state c = do
    u ← ask env.restore (
        Event.update_restore
          (annotate c (insert restore_quiesce_state_key (env.encode state) c.metadata.annotations)))
    pure (annotations_back r u)

  -- The object is read anew, annotated and written; of the answer only the annotations come back.
  unfoldable pub persist_restore_quiesce :
      PvcRestore → List (Bytes × ℤ) → M (PvcRestore × Option Error)
  unfolding write_state
  persist_restore_quiesce r [] = pure (r, none)
  persist_restore_quiesce r (entry ∷ state) = do
    cur ← ask env.restore (Event.get_restore (key_of r.metadata))
    on_result cur (λ e. pure (r, some e)) (λ c. write_state r (entry ∷ state) c)

  unfoldable pub clear_restore_quiesce_annotation : PvcRestore → M (Option Error)
  clear_restore_quiesce_annotation r = do
    cur ← ask env.restore (Event.get_restore (key_of r.metadata))
    on_result cur (λ e. pure (some e))
        (λ c.
          if is_empty (text_at restore_quiesce_state_key c.metadata.annotations)
          then pure none
          else (do
            u ← ask env.restore (
                Event.update_restore
                  (annotate c (erase restore_quiesce_state_key c.metadata.annotations)))
            pure (update_error u)))

  -- what to bring back: the recorded replicas, or one for each target
  unfoldable pub restore_release_state : PvcRestore → List (Bytes × ℤ)
  restore_release_state r =
      or_fallback (recorded_state env (text_at restore_quiesce_state_key r.metadata.annotations))
        (fallback_state r.metadata.namespace r.spec.quiesce.targets)

  unfoldable pub release_restore_quiesce : PvcRestore → M (Option Error)
  unfolding clear_restore_quiesce_annotation restore_release_state
  release_restore_quiesce r =
      if r.spec.quiesce.leave_down
      then clear_restore_quiesce_annotation r
      else unquiesce env (restore_release_state r) >> clear_restore_quiesce_annotation r
