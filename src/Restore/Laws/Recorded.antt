-- ===== src/Restore/Laws/Recorded.antt =====
-- What a restore's release reads of what its quiesce wrote.
use backrest_operator.Prelude.{◌≡◌, Bytes, false, List, ◌∷◌, is_empty}
use backrest_operator.Prelude.Int.{ℤ}
use backrest_operator.Api.{PvcRestore}
use backrest_operator.Effects.{Env, ok, Event, Trace}

-- The API server answers an update with the annotations that were sent.
pub record KeepsAnnotations (env : Env) : Type 0 where
  pub stores :
      (r c : PvcRestore) (t : Trace)
      → env.restore (Event.update_restore r ∷ t) ≡ ok c
      → c.metadata.annotations ≡ r.metadata.annotations

-- The JSON text of the replicas is not empty and reads back as them.
pub record ReadsBack (env : Env) (state : List (Bytes × ℤ)) : Type 0 where
  pub reads : env.decode (env.encode state) ≡ state
  pub full : is_empty (env.encode state) ≡ false
