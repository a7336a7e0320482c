-- ===== src/Cluster/Reconcile.antt =====
-- internal/controller/cluster_controller.go: Reconcile and the status that it writes.
use backrest_operator.Prelude.{bytes, Bool, false, ◌&&◌, not, Option, none, some, if◌then◌else◌}
use backrest_operator.Prelude.Int.{ℤ, pos, is_positive, le_int}
use backrest_operator.Api.{Phase, Key}
use backrest_operator.Filters.{object_allowed}
use backrest_operator.Effects.{
  Error, Event, Metric, M, pure, ask, tell, ◌>>=◌, ◌>>◌, on_result, on_option, Outcome,
}
use backrest_operator.Backup.Quiesce.Wait.{ignore_not_found}
use backrest_operator.Restore.Claim.{Made}
use backrest_operator.Restore.Run.{panic}
use backrest_operator.Cluster.{Clusters, host_name, key_in}
use backrest_operator.Cluster.Host.{ensure_host}
use backrest_operator.Cluster.Agents.{AgentCount, ensure_agents}
use backrest_operator.Cluster.Objects.{BackrestCluster, ClusterStatus, ClusterCall}

abbrev pub outcome : Option Error → Outcome
outcome e = record { requeue = false; after = 0; error = e }

abbrev pub failed_status : AgentCount → ClusterStatus
failed_status a = record {
  phase = Phase.failed;
  host_ready = false;
  agents_ready = a.ready;
  agents_desired = a.desired;
  multihost_paired = pos 0;
}

unfoldable pub phase_for : Bool → ℤ → ℤ → Phase
phase_for host_ready ready desired =
    if host_ready && le_int desired ready
    then Phase.ready
    else if host_ready && is_positive desired && not (le_int desired ready)
    then Phase.other (bytes "Degraded")
    else Phase.pending

unfoldable pub status_for : Bool → AgentCount → ClusterStatus
unfolding phase_for
status_for host_ready a = record {
  phase = phase_for host_ready a.ready a.desired;
  host_ready = host_ready;
  agents_ready = a.ready;
  agents_desired = a.desired;
  multihost_paired = if host_ready then a.ready else pos 0;
}

module _ (w : Clusters) where
  unfoldable pub patch_status : BackrestCluster → ClusterStatus → M Outcome
  patch_status c s = do
    e ← ask w.env.done (Event.cluster (ClusterCall.update_cluster_status (record c { status = s })))
    pure (outcome e)

  unfoldable pub is_host_ready : BackrestCluster → M Bool
  unfolding host_name
  is_host_ready c = do
    got ← ask w.deployment (Event.cluster (ClusterCall.get_deployment (key_in c (host_name c))))
    on_result got (λ e. pure false) (λ d. pure (is_positive d.ready_replicas))

  unfoldable pub give_up : BackrestCluster → AgentCount → M Outcome
  unfolding patch_status
  give_up c a = do
    tell (Event.metric (Metric.reconcile_error (bytes "BackrestCluster")))
    patch_status c (failed_status a)

  unfoldable pub settle : BackrestCluster → AgentCount → M Outcome
  unfolding patch_status is_host_ready status_for
  settle c a = do ready ← is_host_ready c; patch_status c (status_for ready a)

  unfoldable pub reconcile_agents : BackrestCluster → M Outcome
  unfolding ensure_agents give_up settle
  reconcile_agents c = do a ← ensure_agents w c; on_option a.error (λ e. give_up c a) (settle c a)

  abbrev pub after_host : BackrestCluster → Made → M Outcome
  after_host c Made.panicked = pure panic
  after_host c (Made.done (some e)) =
      give_up c (record { ready = pos 0; desired = pos 0; error = some e })
  after_host c (Made.done none) = reconcile_agents c

  unfoldable pub reconcile_allowed : BackrestCluster → M Outcome
  unfolding ensure_host reconcile_agents give_up
  reconcile_allowed c = do m ← ensure_host w c; after_host c m

  unfoldable pub reconcile_cluster : Key → M Outcome
  unfolding reconcile_allowed
  reconcile_cluster key = do
    got ← ask w.cluster (Event.cluster (ClusterCall.get_cluster key))
    on_result got (λ e. pure (outcome (ignore_not_found (some e))))
        (λ c.
          if object_allowed w.env.watch_namespaces w.env.watch_label_selector c.metadata.namespace
            c.metadata.labels
          then reconcile_allowed c
          else pure (outcome none))
