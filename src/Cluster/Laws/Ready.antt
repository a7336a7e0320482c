-- ===== src/Cluster/Laws/Ready.antt =====
-- A BackrestCluster is called Ready when its host is up.
use backrest_operator.Prelude.{◌≡◌, refl, true, false, Bool, none, some, ◌∷◌, arith}
use backrest_operator.Prelude.Int.{ℤ, is_positive, le_int}
use backrest_operator.Api.{Phase, Key}
use backrest_operator.Filters.{object_allowed}
use backrest_operator.Effects.{Result, ok, err, Trace, pure, ask, tell, on_result}
use backrest_operator.Effects.Yields.{Before}
use backrest_operator.Effects.Ends.{
  Ends, Ends-pure, Ends-bind, Ends-after, Ends-if, Ends-on_option, Ends-on_result, Ends-from,
}
use backrest_operator.Backup.Quiesce.Wait.{ignore_not_found}
use backrest_operator.Restore.Claim.{Made}
use backrest_operator.Restore.Run.{panic}
use backrest_operator.Cluster.{Clusters}
use backrest_operator.Cluster.Host.{ensure_host}
use backrest_operator.Cluster.Agents.{AgentCount, ensure_agents}
use backrest_operator.Cluster.Reconcile.{
  outcome, phase_for, status_for, patch_status, is_host_ready, give_up, settle, reconcile_agents,
  after_host, reconcile_allowed, reconcile_cluster,
}
use backrest_operator.Cluster.Objects.{BackrestCluster, Deployment}
use backrest_operator.Cluster.Laws.Hosted.{
  IsUp, AllTrue, Written, Hosted, get_host, ask-AllTrue, agents-Keeps, host-Ends,
}

-- Ready is said of a host that is up, with as many agents ready as are wanted.
phase_for-ready :
    (host : Bool) (ready desired : ℤ)
    → phase_for host ready desired ≡ Phase.ready
    → (host ≡ true) × (le_int desired ready ≡ true)
unfolding phase_for
phase_for-ready host ready desired h = ground arith

module _ (w : Clusters) where
  give_up-Ends :
      (c : BackrestCluster) (a : AgentCount) → Ends (AllTrue w) (give_up w c a) (λ o u. AllTrue w u)
  unfolding give_up patch_status ask tell
  give_up-Ends c a = record { at = λ t h. (λ z. absurd cc, (tt, h)) }

  -- whether the host is up
  abbrev Seen : BackrestCluster → Bool → Trace → Type 0
  Seen c ready u = AllTrue w u × (ready ≡ true → IsUp w c u)

  -- what is known after the host's Deployment is read
  seen :
      (c : BackrestCluster) (t : Trace) (got : Result Deployment)
      → Written w c t
      → w.deployment (get_host w c ∷ t) ≡ got
      → let r =
          on_result got
            (λ e. pure false)
            (λ d. pure (is_positive d.ready_replicas))
            (get_host w c ∷ t) in
        Seen c r.0 r.1
  seen c t (err e) h q = ((tt, h.0), λ z. absurd cc)
  seen c t (ok d) h q = ((tt, h.0), λ z. (t, d, h.1, Before.here, q, z))

  is_host_ready-Ends : (c : BackrestCluster) → Ends (Written w c) (is_host_ready w c) (Seen c)
  unfolding is_host_ready ask
  is_host_ready-Ends c = record { at = λ t h. seen c t (w.deployment (get_host w c ∷ t)) h refl }

  settle-Ends :
      (c : BackrestCluster) (a : AgentCount)
      → Ends (Written w c) (settle w c a) (λ o u. AllTrue w u)
  unfolding settle patch_status status_for ask
  settle-Ends c a =
      Ends-bind (is_host_ready w c) (λ ready. patch_status w c (status_for ready a))
        (is_host_ready-Ends c)
        (λ ready. record {
          at = λ t h. (
            λ z.
                let both = phase_for-ready ready a.ready a.desired z in
                (both.1, (c, refl, refl, h.1 both.0)),
            h.0,
          );
        })

  agents-Ends :
      (c : BackrestCluster) → Ends (Written w c) (reconcile_agents w c) (λ o u. AllTrue w u)
  unfolding reconcile_agents
  agents-Ends c = Ends-after (ensure_agents w c) _ (agents-Keeps w c) (λ a.
      Ends-on_option a.error _ _ (λ e q. Ends-from (λ t h. h.0) (give_up-Ends c a))
        (λ q. settle-Ends c a))

  after_host-Ends :
      (c : BackrestCluster) (m : Made) → Ends (Hosted w c m) (after_host w c m) (λ o u. AllTrue w u)
  after_host-Ends c Made.panicked = Ends-pure panic (λ t h. h)
  after_host-Ends c (Made.done (some e)) = give_up-Ends c _
  after_host-Ends c (Made.done none) = agents-Ends c

  allowed-Ends :
      (c : BackrestCluster) → Ends (AllTrue w) (reconcile_allowed w c) (λ o u. AllTrue w u)
  unfolding reconcile_allowed
  allowed-Ends c = Ends-bind (ensure_host w c) _ (host-Ends w c) (λ m. after_host-Ends c m)

  reconcile-Ends : (key : Key) → Ends (AllTrue w) (reconcile_cluster w key) (λ o u. AllTrue w u)
  unfolding reconcile_cluster
  reconcile-Ends key = Ends-after (ask w.cluster _) _ (ask-AllTrue w w.cluster _ (λ u. tt)) (λ got.
      Ends-on_result got _ _ (λ e. Ends-pure (outcome (ignore_not_found (some e))) (λ t h. h))
        (λ c.
          Ends-if
            (object_allowed w.env.watch_namespaces w.env.watch_label_selector c.metadata.namespace
              c.metadata.labels)
            _ (pure (outcome none)) (λ z. allowed-Ends c)
            (λ z. Ends-pure (outcome none) (λ t h. h))))

  -- Whatever the cluster answers, a reconcile writes the phase Ready of a BackrestCluster only after
  -- the host's Deployment was written without an error and was then read with a replica ready, and
  -- only with as many agents ready as are desired in the same status.
  pub reconcile_cluster-AllTrue :
      (key : Key) (t : Trace) → AllTrue w t → AllTrue w (reconcile_cluster w key t).1
  reconcile_cluster-AllTrue key t h = (reconcile-Ends key).at t h
