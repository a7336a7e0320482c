-- ===== src/Backup/Quiesce/Release.antt =====
-- releaseQuiesce where no replicas are recorded: the fallback of one replica for each target.
use backrest_operator.Prelude.{
  ◌≡◌, refl, sym, ap, ◌∙◌, Bytes, false, some, List, [], ◌∷◌, All, In, eq_iff, arith,
}
use backrest_operator.Prelude.Int.{ℤ, pos}
use backrest_operator.Prelude.Dict.{lookup, insert, text_at, lookup-insert}
use backrest_operator.Api.{Key, QuiesceTarget, PvcBackup}
use backrest_operator.Effects.{Env, Trace, Workload}
use backrest_operator.Backup.Spec.{quiesce_state_key}
use backrest_operator.Backup.Quiesce.Cluster.{current, IsCluster}
use backrest_operator.Backup.Quiesce.Restores.{
  IsScalable, AreDistinct, AreFresh, IsRecorded, State, workload_key, AreFresh-insert,
  insert-IsRecorded, fresh_of, target_text, or_else, unquiesce_lem,
}
use backrest_operator.Backup.Quiesce.{
  target_key, fallback_from, fallback_state, release_state, release_quiesce, unquiesce,
  clear_quiesce_annotation,
}

fallback-IsRecorded :
    (default : Bytes) (s : State) (ts : List QuiesceTarget)
    → All (IsScalable default) ts
    → AreDistinct default ts
    → AreFresh default s ts
    → IsRecorded s
    → IsRecorded (fallback_from default s ts)
unfolding fallback_from
fallback-IsRecorded default s [] _ _ _ r = r
fallback-IsRecorded default s (t ∷ ts) (h, hs) (d, ds) (f, fs) r =
    fallback-IsRecorded default (insert (target_key t default) (pos 1) s) ts hs ds
      (AreFresh-insert default _ _ s ts d fs)
      (insert-IsRecorded _ _ s f
        (h.workload, workload_key t default, h.plain, target_text default t h) r)

-- a replica that is there stays
fallback-keeps :
    (default key : Bytes) (s : State) (ts : List QuiesceTarget)
    → lookup key s ≡ some (pos 1)
    → lookup key (fallback_from default s ts) ≡ some (pos 1)
unfolding fallback_from
fallback-keeps default key s [] h = h
fallback-keeps default key s (t ∷ ts) h =
    fallback-keeps default key (insert (target_key t default) (pos 1) s) ts
      (ground (arith, h, lookup-insert (target_key t default) key (pos 1) s))

lookup-fallback :
    (default : Bytes) (s : State) (ts : List QuiesceTarget) (u : QuiesceTarget)
    → In u ts
    → lookup (target_key u default) (fallback_from default s ts) ≡ some (pos 1)
unfolding fallback_from
lookup-fallback default s [] u i = elim i [ ]
lookup-fallback default s (t ∷ ts) u In.head =
    fallback-keeps default (target_key t default) (insert (target_key t default) (pos 1) s) ts (
      ground (
        arith,
        lookup-insert (target_key t default) (target_key t default) (pos 1) s,
        eq_iff (target_key t default) (target_key t default),
      ))
lookup-fallback default s (t ∷ ts) u (In.tail i) =
    lookup-fallback default (insert (target_key t default) (pos 1) s) ts u i

-- with no annotation, the state is the fallback and there is nothing to clear
release_unrecorded :
    (env : Env) (b : PvcBackup) (t : Trace)
    → b.spec.quiesce.leave_down ≡ false
    → text_at quiesce_state_key b.metadata.annotations ≡ []
    → (release_quiesce env b t).1
      ≡ (unquiesce env (fallback_state b.metadata.namespace b.spec.quiesce.targets) t).1
unfolding release_quiesce release_state clear_quiesce_annotation
release_unrecorded env b t stay e = rw stay (rw e refl)

-- In a backup that keeps no record of replicas and does not leave its workloads down, the release
-- sets every target to one replica, whatever it had and whether or not it was ever taken down. The
-- cluster answers reads with the replicas last written and refuses no write; the targets are
-- StatefulSets and Deployments, no two the same.
pub release_quiesce-unrecorded :
    (env : Env) (init : Workload → Key → ℤ) (cluster : IsCluster env init) (b : PvcBackup)
    (t : Trace)
    → All (IsScalable b.metadata.namespace) b.spec.quiesce.targets
    → AreDistinct b.metadata.namespace b.spec.quiesce.targets
    → b.spec.quiesce.leave_down ≡ false
    → text_at quiesce_state_key b.metadata.annotations ≡ []
    → (u : QuiesceTarget) → In u b.spec.quiesce.targets
    → (h : IsScalable b.metadata.namespace u)
    → current init (release_quiesce env b t).1 h.workload (workload_key u b.metadata.namespace)
      ≡ pos 1
unfolding fallback_state lookup
release_quiesce-unrecorded env init cluster b t hs ds stay e u i h =
    let ns = b.metadata.namespace in
    rw (release_unrecorded env b t stay e) (
      rw
        (unquiesce_lem env init cluster (fallback_state ns b.spec.quiesce.targets) t
          (fallback-IsRecorded ns [] b.spec.quiesce.targets hs ds
            (fresh_of ns b.spec.quiesce.targets) tt)
          h.workload (workload_key u ns) h.plain)
        (ap (λ o. or_else o (current init t h.workload (workload_key u ns)))
          (ap (λ k. lookup k (fallback_state ns b.spec.quiesce.targets)) (sym (target_text ns u h))
            ∙ lookup-fallback ns [] b.spec.quiesce.targets u i)))
