-- ===== src/Cluster/Agents.antt =====
-- internal/controller/cluster_controller.go: the agents, as a DaemonSet or a Deployment.
use backrest_operator.Prelude.{
  Bytes, bytes, true, false, Option, none, some, [], ◌++◌, or_text, ◌==◌, if◌then◌else◌,
}
use backrest_operator.Prelude.Int.{ℤ, pos, is_positive}
use backrest_operator.Effects.{Error, Event, M, pure, ask, ◌>>=◌, on_result, on_option}
use backrest_operator.Cluster.{
  Clusters, labels_of, key_in, value_or, unless_none, create_or_update_dep, create_or_update_ds,
}
use backrest_operator.Cluster.Host.{pod_env}
use backrest_operator.Cluster.Image.{image_for}
use backrest_operator.Cluster.Objects.{
  Labels, BackrestCluster, Volume, Template, Selector, Deployment, DaemonSet, ClusterCall,
}

-- the named results of ensureAgents
pub record AgentCount : Type 0 where
  pub ready : ℤ
  pub desired : ℤ
  pub error : Option Error

abbrev pub no_agents : Option Error → AgentCount
no_agents e = record { ready = pos 0; desired = pos 0; error = e }

unfoldable pub agent_name : BackrestCluster → Bytes
agent_name c = bytes "backrest-agent-" ++ c.metadata.name

unfoldable pub agent_labels : BackrestCluster → Labels
unfolding labels_of
agent_labels c = labels_of c.metadata.name (bytes "agent")

abbrev pub agent_selector : BackrestCluster → Selector
agent_selector c = record { match_labels = some (agent_labels c); match_expressions = [] }

-- if n > 0 { ready = n }
abbrev pub positive_or_zero : ℤ → ℤ
positive_or_zero n = if is_positive n then n else pos 0

abbrev pub counted : Deployment → AgentCount
counted d = record {
  ready = positive_or_zero d.ready_replicas;
  desired = value_or (pos 0) d.replicas;
  error = none;
}

module _ (w : Clusters) where
  -- mapsToTolerations
  abbrev pub maps_to_tolerations : BackrestCluster → Option Bytes
  maps_to_tolerations c = unless_none c.spec.agents.tolerations w.pod_tolerations

  unfoldable pub agent_template : BackrestCluster → Template
  unfolding agent_labels pod_env image_for
  agent_template c = record {
    labels = some (agent_labels c);
    pod = record {
      service_links = false;
      image = image_for c.spec;
      ports = [];
      env = pod_env c;
      probe = none;
      volume = Volume.empty_dir;
      node_selector = c.spec.agents.node_selector;
      tolerations = maps_to_tolerations c;
    };
  }

  abbrev pub agent_replicas : BackrestCluster → ℤ
  agent_replicas c = value_or (pos 1) c.spec.agents.replicas

  unfoldable pub agent_deployment : BackrestCluster → Deployment
  unfolding agent_name agent_labels agent_template
  agent_deployment c = record {
    key = key_in c (agent_name c);
    labels = some (agent_labels c);
    owner = some c.metadata.uid;
    replicas = some (agent_replicas c);
    strategy = [];
    selector = some (agent_selector c);
    template = agent_template c;
    ready_replicas = pos 0;
    rest = [];
  }

  unfoldable pub agent_daemon_set : BackrestCluster → DaemonSet
  unfolding agent_name agent_labels agent_template
  agent_daemon_set c = record {
    key = key_in c (agent_name c);
    labels = some (agent_labels c);
    owner = some c.metadata.uid;
    selector = some (agent_selector c);
    template = agent_template c;
    number_ready = pos 0;
    desired_number = pos 0;
    rest = [];
  }

  -- what is read after the write; a read that fails counts no agents
  unfoldable pub count_deployment : BackrestCluster → M AgentCount
  unfolding agent_name
  count_deployment c = do
    got ← ask w.deployment (Event.cluster (ClusterCall.get_deployment (key_in c (agent_name c))))
    on_result got (λ e. pure (no_agents none)) (λ d. pure (counted d))

  unfoldable pub count_daemon_set : BackrestCluster → M AgentCount
  unfolding agent_name
  count_daemon_set c = do
    got ← ask w.daemon_set (Event.cluster (ClusterCall.get_daemon_set (key_in c (agent_name c))))
    on_result got (λ e. pure (no_agents none))
        (λ d. pure (record { ready = d.number_ready; desired = d.desired_number; error = none }))

  unfoldable pub ensure_agent_deployment : BackrestCluster → M AgentCount
  unfolding agent_deployment create_or_update_dep count_deployment
  ensure_agent_deployment c = do
    e ← create_or_update_dep w (agent_deployment c)
    on_option e (λ x. pure (record { ready = pos 0; desired = agent_replicas c; error = some x }))
        (count_deployment c)

  unfoldable pub ensure_agent_daemon_set : BackrestCluster → M AgentCount
  unfolding agent_daemon_set create_or_update_ds count_daemon_set
  ensure_agent_daemon_set c = do
    e ← create_or_update_ds w (agent_daemon_set c)
    on_option e (λ x. pure (no_agents (some x))) (count_daemon_set c)

  unfoldable pub ensure_agents : BackrestCluster → M AgentCount
  unfolding ensure_agent_deployment ensure_agent_daemon_set
  ensure_agents c =
      if value_or true c.spec.agents.enabled
      then (if or_text c.spec.agents.mode (bytes "DaemonSet") == bytes "Deployment"
          then ensure_agent_deployment c
          else ensure_agent_daemon_set c)
      else pure (no_agents none)
