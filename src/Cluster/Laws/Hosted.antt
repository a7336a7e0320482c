-- ===== src/Cluster/Laws/Hosted.antt =====
-- What a reconcile of a BackrestCluster has done before it writes a status: the host's Deployment.
use backrest_operator.Prelude.{◌≡◌, refl, true, ◌⊎◌, inl, inr, Option, none, some, [], ◌∷◌}
use backrest_operator.Prelude.Int.{is_positive, le_int}
use backrest_operator.Api.{Phase}
use backrest_operator.Effects.{ok, Error, Event, Trace, pure, ask, is_not_found}
use backrest_operator.Effects.Keeps.{
  Keeps, Keeps-pure, Keeps-bind, Keeps-if, Keeps-on_option, Keeps-on_result,
}
use backrest_operator.Effects.Yields.{Before, Done}
use backrest_operator.Effects.Ends.{
  Ends, Ends-pure, Ends-bind, Ends-after, Ends-if, Ends-on_option, Ends-on_result, Ends-from,
  some-none,
}
use backrest_operator.Restore.Claim.{Made}
use backrest_operator.Cluster.{
  Clusters, host_name, key_in, create_or_ignore, create_or_update, create_or_update_dep,
  create_or_update_ds, create_or_update_ingress, merge_deployment,
}
use backrest_operator.Cluster.Host.{
  claim_size, host_claim, host_deployment, host_service, delete_ingress, ensure_download_ingress,
  ensure_ingress, ensure_host_workload, ensure_host, made,
}
use backrest_operator.Cluster.Agents.{
  count_deployment, count_daemon_set, ensure_agent_deployment, ensure_agent_daemon_set,
  ensure_agents,
}
use backrest_operator.Cluster.Objects.{BackrestCluster, Deployment, ClusterCall}

module _ (w : Clusters) where
  -- The host's Deployment was written, with no error.
  abbrev pub IsWritten : BackrestCluster → Trace → Type 0
  IsWritten c u =
      Done w.env (Event.cluster (ClusterCall.create_deployment (host_deployment c))) u
      ⊎ ((cur : Deployment) × Done w.env
            (Event.cluster
              (ClusterCall.update_deployment (merge_deployment cur (host_deployment c))))
            u)

  abbrev pub get_host : BackrestCluster → Event
  get_host c = Event.cluster (ClusterCall.get_deployment (key_in c (host_name c)))

  -- After it was written, the host's Deployment was read, and had a replica ready.
  abbrev pub IsUp : BackrestCluster → Trace → Type 0
  IsUp c u =
      (v : Trace) × (d : Deployment) × IsWritten c v
      × Before (get_host c ∷ v) u
      × (w.deployment (get_host c ∷ v) ≡ ok d)
      × (is_positive d.ready_replicas ≡ true)

  -- `d` is the cluster `c` with a status that says Ready truly
  abbrev pub CallTrue : ClusterCall → Trace → Type 0
  CallTrue (ClusterCall.update_cluster_status d) u =
      d.status.phase ≡ Phase.ready
      → (le_int d.status.agents_desired d.status.agents_ready ≡ true)
        × ((c : BackrestCluster) × (d.metadata ≡ c.metadata) × (d.spec ≡ c.spec) × IsUp c u)
  CallTrue _ u = Unit

  abbrev pub StatusTrue : Event → Trace → Type 0
  StatusTrue (Event.cluster c) u = CallTrue c u
  StatusTrue _ u = Unit

  -- every status of a trace
  abbrev pub AllTrue : Trace → Type 0
  AllTrue [] = Unit
  AllTrue (e ∷ u) = StatusTrue e u × AllTrue u

  abbrev pub Written : BackrestCluster → Trace → Type 0
  Written c u = AllTrue u × IsWritten c u

  IsWritten-later :
      (c : BackrestCluster) (e : Event) (u : Trace) → IsWritten c u → IsWritten c (e ∷ u)
  IsWritten-later c e u (inl (v, b, z)) = inl (v, Before.later b, z)
  IsWritten-later c e u (inr (cur, (v, b, z))) = inr (cur, (v, Before.later b, z))

  pub ask-AllTrue :
      {A : Type 0} (answer : Trace → A) (e : Event)
      → ((u : Trace) → StatusTrue e u)
      → Keeps AllTrue (ask answer e)
  unfolding ask
  ask-AllTrue answer e q = record { at = λ t h. (q t, h) }

  ask-Written :
      {A : Type 0} (c : BackrestCluster) (answer : Trace → A) (e : Event)
      → ((u : Trace) → StatusTrue e u)
      → Keeps (Written c) (ask answer e)
  unfolding ask
  ask-Written c answer e q = record { at = λ t h. ((q t, h.0), IsWritten-later c e t h.1) }

  no_premise : Unit {0}
  no_premise = tt

  ruleset quiet_rules = (
    Keeps-pure, Keeps-bind, Keeps-if, Keeps-on_option, Keeps-on_result, ask-AllTrue, ask-Written,
    no_premise,
  )

  -- an error, or the Deployment is written
  abbrev Wrote : BackrestCluster → Option Error → Trace → Type 0
  Wrote c e u = AllTrue u × (e ≡ none → IsWritten c u)

  Wrote-not : (c : BackrestCluster) (e : Error) → Ends AllTrue (pure (some e)) (Wrote c)
  Wrote-not c e = Ends-pure (some e) (λ t h. (h, λ z. some-none z))

  dep-Ends :
      (c : BackrestCluster) → Ends AllTrue (create_or_update_dep w (host_deployment c)) (Wrote c)
  unfolding create_or_update_dep create_or_update ask
  dep-Ends c = Ends-after (ask w.deployment _) _ (ask-AllTrue w.deployment _ (λ u. tt)) (λ got.
      Ends-on_result got _ _
        (λ e.
          Ends-if (is_not_found e) _ _
            (λ z. record { at = λ t h. ((tt, h), λ q. inl (t, Before.here, q)) })
            (λ z. Wrote-not c e))
        (λ cur. record { at = λ t h. ((tt, h), λ q. inr (cur, (t, Before.here, q))) }))

  ingress-Keeps : (c : BackrestCluster) → Keeps (Written c) (ensure_ingress w c)
  unfolding ensure_ingress ensure_download_ingress create_or_update_ingress create_or_update
      delete_ingress
  ingress-Keeps c = search quiet_rules depth 16

  service-Keeps :
      (c : BackrestCluster)
      → Keeps (Written c) (create_or_ignore w (ClusterCall.create_service (host_service c)))
  unfolding create_or_ignore
  service-Keeps c = search quiet_rules depth 16

  pub agents-Keeps : (c : BackrestCluster) → Keeps (Written c) (ensure_agents w c)
  unfolding ensure_agents ensure_agent_deployment ensure_agent_daemon_set count_deployment
      count_daemon_set create_or_update_dep create_or_update_ds create_or_update
  agents-Keeps c = search quiet_rules depth 20

  ingress-Ends : (c : BackrestCluster) → Ends (Written c) (ensure_ingress w c) (Wrote c)
  ingress-Ends c = record {
    at = λ t h.
        let k : Written c (ensure_ingress w c t).1 = (ingress-Keeps c).at t h in (k.0, λ y. k.1);
  }

  workload-Ends : (c : BackrestCluster) → Ends AllTrue (ensure_host_workload w c) (Wrote c)
  unfolding ensure_host_workload
  workload-Ends c = Ends-bind (create_or_update_dep w (host_deployment c)) _ (dep-Ends c) (λ e.
      Ends-on_option e _ _ (λ x q. Ends-pure (some x) (λ t h. (h.0, λ z. some-none z)))
        (λ q.
          Ends-from (λ t h. (h.0, h.1 q))
            (Ends-after (create_or_ignore w _) _ (service-Keeps c) (λ u.
              Ends-on_option u _ _ (λ x z. Ends-pure (some x) (λ t h. (h.0, λ y. some-none y)))
                (λ z. ingress-Ends c)))))

  -- the host is there, unless a status will say otherwise
  abbrev pub Hosted : BackrestCluster → Made → Trace → Type 0
  Hosted c (Made.done none) u = Written c u
  Hosted c _ u = AllTrue u

  made-Hosted :
      (c : BackrestCluster) (e : Option Error) (u : Trace) → Wrote c e u → Hosted c (Made.done e) u
  made-Hosted c none u h = (h.0, h.1 refl)
  made-Hosted c (some e) u h = h.0

  claim-Keeps :
      (c : BackrestCluster)
      → Keeps AllTrue (create_or_ignore w (ClusterCall.create_volume_claim (host_claim c)))
  unfolding create_or_ignore
  claim-Keeps c = search quiet_rules depth 8

  made-Ends : (c : BackrestCluster) → Ends AllTrue (made w (ensure_host_workload w c)) (Hosted c)
  made-Ends c = record {
    at = λ t h. made-Hosted c (ensure_host_workload w c t).0 _ ((workload-Ends c).at t h);
  }

  pub host-Ends : (c : BackrestCluster) → Ends AllTrue (ensure_host w c) (Hosted c)
  unfolding ensure_host
  host-Ends c =
      Ends-if (w.env.is_quantity (claim_size c)) _ _
        (λ z. Ends-after (create_or_ignore w _) _ (claim-Keeps c) (λ e.
          Ends-on_option e _ _ (λ x q. Ends-pure (Made.done (some x)) (λ t h. h))
            (λ q. made-Ends c)))
        (λ z. Ends-pure Made.panicked (λ t h. h))
