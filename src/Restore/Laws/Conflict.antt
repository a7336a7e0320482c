-- ===== src/Restore/Laws/Conflict.antt =====
-- What persistRestoreQuiesce does to the updates that come after it.
use backrest_operator.Prelude.{
  ap, sym, ◌∙◌, eq_refl, ℕ, ◌≤◌, ◌<◌, ◌≡◌, ◌≢◌, refl, Bytes, List, ◌∷◌, Option, none, some, arith,
}
use backrest_operator.Prelude.Int.{ℤ}
use backrest_operator.Prelude.Dict.{insert, lookup, lookup-insert}
use backrest_operator.Api.{Key, PvcRestore, key_of}
use backrest_operator.Effects.{Env, Result, ok, err, Error, Event, Trace, ask, pure, on_result}
use backrest_operator.Restore.Quiesce.{
  persist_restore_quiesce, annotate, annotations_back, write_state, restore_quiesce_state_key,
}
use backrest_operator.Restore.Run.{update_restore_status, stored_restore}

-- The resource versions of the restore: they never go back, an update that is taken makes a new one
-- if it gives an annotation another value than the object that was just read has, and a status update
-- of an object with another version is a conflict.
pub record IsVersioned (env : Env) (version : Trace → ℕ) : Type 0 where
  pub grows : (e : Event) (t : Trace) → version t ≤ version (e ∷ t)
  pub updates :
      (k : Key) (got c : PvcRestore) (name : Bytes) (a : List (Bytes × Bytes)) (t : Trace)
      → env.restore (Event.get_restore k ∷ t) ≡ ok got
      → lookup name a ≢ lookup name got.metadata.annotations
      → env.restore (Event.update_restore (annotate got a) ∷ Event.get_restore k ∷ t) ≡ ok c
      → version (Event.get_restore k ∷ t)
        < version (Event.update_restore (annotate got a) ∷ Event.get_restore k ∷ t)
  pub conflicts :
      (r : PvcRestore) (t : Trace)
      → r.metadata.version ≢ version t
      → (e : Error) × (env.restore (Event.update_restore_status r ∷ t) ≡ err e)

-- `u` is `t` with later requests
pub data Later (t : Trace) : Trace → Type 0 where
  now : Later t t
  after : {e : Event} {u : Trace} → Later t u → Later t (e ∷ u)

module _ (env : Env) (version : Trace → ℕ) (store : IsVersioned env version) where
  Later-version : {t u : Trace} → Later t u → version t ≤ version u
  Later-version Later.now = omega arith
  Later-version (Later.after {e = e} {u = u} l) = omega (arith, Later-version l, store.grows e u)

  -- an answer that leaves no error is an object
  answered :
      (r : PvcRestore) (got : Result PvcRestore)
      → (annotations_back r got).1 ≡ none
      → ((c : PvcRestore) × (got ≡ ok c))
        × ((annotations_back r got).0.metadata.version ≡ r.metadata.version)
  answered r (err e) h = cc
  answered r (ok c) h = ((c, refl), refl)

  -- The state was written: the object that came back has a version from before.
  abbrev IsStale : PvcRestore → (PvcRestore × Option Error) × Trace → Type 0
  IsStale r p = (p.0.0.metadata.version ≡ r.metadata.version) × (r.metadata.version < version p.1)

  -- the state is not what the object `c` says already
  abbrev pub IsNews : List (Bytes × ℤ) → PvcRestore → Type 0
  IsNews state c = lookup restore_quiesce_state_key c.metadata.annotations ≢ some (env.encode state)

  -- the annotation gets another value
  insert-IsNews :
      (state : List (Bytes × ℤ)) (c : PvcRestore)
      → IsNews state c
      → lookup restore_quiesce_state_key
          (insert restore_quiesce_state_key (env.encode state) c.metadata.annotations)
        ≢ lookup restore_quiesce_state_key c.metadata.annotations
  insert-IsNews state c news e = news (
      sym e
      ∙ lookup-insert restore_quiesce_state_key restore_quiesce_state_key (env.encode state)
          c.metadata.annotations
      ∙ rw (eq_refl restore_quiesce_state_key) refl)

  write_state-IsStale :
      (r c : PvcRestore) (state : List (Bytes × ℤ)) (k : Key) (t : Trace)
      → IsNews state c
      → env.restore (Event.get_restore k ∷ t) ≡ ok c
      → r.metadata.version ≤ version (Event.get_restore k ∷ t)
      → (write_state env r state c (Event.get_restore k ∷ t)).0.1 ≡ none
      → IsStale r (write_state env r state c (Event.get_restore k ∷ t))
  unfolding write_state ask
  write_state-IsStale r c state k t news read le h =
      let a = insert restore_quiesce_state_key (env.encode state) c.metadata.annotations in
      let sent = Event.update_restore (annotate c a) ∷ Event.get_restore k ∷ t in
      let ((w, e), same) = answered r (env.restore sent) h in
      (
        same,
        omega (
          arith,
          le,
          store.updates k c w restore_quiesce_state_key a t read (insert-IsNews state c news) e,
        ),
      )

  read-IsStale :
      (r : PvcRestore) (state : List (Bytes × ℤ)) (got : Result PvcRestore) (k : Key) (t : Trace)
      → env.restore (Event.get_restore k ∷ t) ≡ got
      → ((c : PvcRestore) → got ≡ ok c → IsNews state c)
      → r.metadata.version ≤ version (Event.get_restore k ∷ t)
      → let u = Event.get_restore k ∷ t in
        (on_result got (λ e. pure (r, some e)) (λ c. write_state env r state c) u).0.1 ≡ none
        → IsStale r (on_result got (λ e. pure (r, some e)) (λ c. write_state env r state c) u)
  read-IsStale r state (err e) k t read news le h = cc
  read-IsStale r state (ok c) k t read news le h =
      write_state-IsStale r c state k t (news c refl) read le h

  -- Once a restore's quiesce state, which is not empty and is not what the stored object says already,
  -- is written, no status update of the object that comes back is taken any more: the object keeps the
  -- version from before the write.
  pub persist_restore_quiesce-conflicts :
      (r : PvcRestore) (entry : Bytes × ℤ) (state : List (Bytes × ℤ)) (t : Trace)
      → r.metadata.version ≤ version t
      → ((c : PvcRestore)
          → env.restore (Event.get_restore (key_of r.metadata) ∷ t) ≡ ok c
          → IsNews (entry ∷ state) c)
      → let p = persist_restore_quiesce env r (entry ∷ state) t in
        p.0.1 ≡ none
        → (x : PvcRestore) (u : Trace) → x.metadata.version ≡ p.0.0.metadata.version
        → Later p.1 u
        → (e : Error) × ((update_restore_status env x u).0 ≡ (x, some e))
  unfolding persist_restore_quiesce update_restore_status ask
  persist_restore_quiesce-conflicts r entry state t le news h x u same later =
      let read = Event.get_restore (key_of r.metadata) ∷ t in
      let (kept, stale) =
        read-IsStale r (entry ∷ state) (env.restore read) (key_of r.metadata) t refl news
          (omega (arith, le, store.grows (Event.get_restore (key_of r.metadata)) t)) h in
      let (e, refused) =
        store.conflicts x u
          (λ v. absurd (omega (arith, v, same, kept, stale, Later-version later))) in
      (e, ap (stored_restore x) refused)
