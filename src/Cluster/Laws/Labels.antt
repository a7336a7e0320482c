-- ===== src/Cluster/Laws/Labels.antt =====
-- The pods of a workload that is written have the labels by which it selects them.
use backrest_operator.Prelude.{◌≡◌, refl, sym, ap, ◌∙◌, [], Option, none, some, All}
use backrest_operator.Api.{Key}
use backrest_operator.Effects.{Result, Event, Trace, ask, tell}
use backrest_operator.Effects.Keeps.{
  Keeps, Keeps-pure, Keeps-bind, Keeps-if, Keeps-on_option, Keeps-on_result,
}
use backrest_operator.Restore.Claim.{Made}
use backrest_operator.Restore.Run.{panic}
use backrest_operator.Cluster.{
  Clusters, with_labels, selected, merge_deployment, merge_daemon_set, create_or_ignore,
  create_or_update, create_or_update_dep, create_or_update_ds, create_or_update_ingress,
}
use backrest_operator.Cluster.Objects.{
  Labels, BackrestCluster, Template, Selector, Deployment, DaemonSet, Ingress, ClusterCall,
}
use backrest_operator.Cluster.Host.{
  host_deployment, ensure_host, ensure_host_workload, ensure_ingress, delete_ingress,
  ensure_download_ingress, host_labels,
}
use backrest_operator.Cluster.Agents.{
  AgentCount, agent_selector, agent_template, agent_deployment, agent_daemon_set, count_deployment,
  count_daemon_set, ensure_agent_deployment, ensure_agent_daemon_set, ensure_agents,
}
use backrest_operator.Cluster.Reconcile.{
  patch_status, is_host_ready, give_up, settle, reconcile_agents, after_host, reconcile_allowed,
  reconcile_cluster,
}

-- Where the selector has labels to match, the template has just these.
abbrev pub IsMatched : Option Selector → Template → Type 0
IsMatched sel tpl =
    (s : Selector) (l : Labels) → sel ≡ some s → s.match_labels ≡ some l → tpl.labels ≡ some l

abbrev pub CallMatched : ClusterCall → Type 0
CallMatched (ClusterCall.create_deployment d) = IsMatched d.selector d.template
CallMatched (ClusterCall.update_deployment d) = IsMatched d.selector d.template
CallMatched (ClusterCall.create_daemon_set d) = IsMatched d.selector d.template
CallMatched (ClusterCall.update_daemon_set d) = IsMatched d.selector d.template
CallMatched _ = Unit

abbrev pub EventMatched : Event → Type 0
EventMatched (Event.cluster c) = CallMatched c
EventMatched _ = Unit

abbrev pub AllMatched : Trace → Type 0
AllMatched = All EventMatched

selected-IsMatched : (tpl : Template) (sel : Option Selector) → IsMatched sel (selected tpl sel)
selected-IsMatched tpl none s l e f = absurd cc
selected-IsMatched tpl (some s) t l e f =
    let same : s ≡ t = cc in
    ap (λ x. (with_labels tpl x).labels) (ap (λ x. x.match_labels) same ∙ f)

-- a new workload, with one map for its selector and for its pods
new-IsMatched :
    (tpl : Template) (s : Selector) → s.match_labels ≡ tpl.labels → IsMatched (some s) tpl
new-IsMatched tpl s h t l e f = let same : s ≡ t = cc in sym h ∙ ap (λ x. x.match_labels) same ∙ f

module _ (w : Clusters) where
  ask-Keeps :
      {A : Type 0} (answer : Trace → A) (e : Event)
      → EventMatched e
      → Keeps AllMatched (ask answer e)
  unfolding ask
  ask-Keeps answer e m = record { at = λ t h. (m, h) }

  tell-Keeps : (e : Event) → EventMatched e → Keeps AllMatched (tell e)
  unfolding tell
  tell-Keeps e m = record { at = λ t h. (m, h) }

  ruleset matched_rules =
      (Keeps-pure, Keeps-bind, Keeps-if, Keeps-on_option, Keeps-on_result, ask-Keeps, tell-Keeps)

  no_premise : Unit {0}
  no_premise = tt

  create_or_update-Keeps :
      {A : Type 0} (answer : Trace → Result A) (get create : ClusterCall) (update : A → ClusterCall)
      → CallMatched get
      → CallMatched create
      → ((a : A) → CallMatched (update a))
      → Keeps AllMatched (create_or_update w answer get create update)
  unfolding create_or_update
  create_or_update-Keeps answer get create update g c u = search matched_rules depth 12

  dep-Keeps :
      (d : Deployment)
      → IsMatched d.selector d.template
      → Keeps AllMatched (create_or_update_dep w d)
  unfolding create_or_update_dep merge_deployment
  dep-Keeps d h =
      create_or_update-Keeps w.deployment _ _ _ tt h
        (λ cur. selected-IsMatched d.template cur.selector)

  ds-Keeps :
      (d : DaemonSet) → IsMatched d.selector d.template → Keeps AllMatched (create_or_update_ds w d)
  unfolding create_or_update_ds merge_daemon_set
  ds-Keeps d h =
      create_or_update-Keeps w.daemon_set _ _ _ tt h
        (λ cur. selected-IsMatched d.template cur.selector)

  ing-Keeps : (i : Ingress) → Keeps AllMatched (create_or_update_ingress w i)
  unfolding create_or_update_ingress
  ing-Keeps i = create_or_update-Keeps w.ingress _ _ _ tt tt (λ cur. tt)

  delete-Keeps : (k : Key) → Keeps AllMatched (delete_ingress w k)
  unfolding delete_ingress
  delete-Keeps k = search (matched_rules, no_premise) depth 12

  ignore-Keeps :
      (call : ClusterCall) → CallMatched call → Keeps AllMatched (create_or_ignore w call)
  unfolding create_or_ignore
  ignore-Keeps call m = search matched_rules depth 12

  ensure_download_ingress-Keeps :
      (c : BackrestCluster) → Keeps AllMatched (ensure_download_ingress w c)
  unfolding ensure_download_ingress
  ensure_download_ingress-Keeps c = search (matched_rules, ing-Keeps, delete-Keeps) depth 12

  ensure_ingress-Keeps : (c : BackrestCluster) → Keeps AllMatched (ensure_ingress w c)
  unfolding ensure_ingress
  ensure_ingress-Keeps c =
      search (matched_rules, ing-Keeps, delete-Keeps, ensure_download_ingress-Keeps) depth 12

  host_deployment-IsMatched :
      (c : BackrestCluster) → IsMatched (host_deployment c).selector (host_deployment c).template
  unfolding host_deployment
  host_deployment-IsMatched c =
      new-IsMatched (host_deployment c).template
        (record { match_labels = some (host_labels c); match_expressions = [] }) refl

  ensure_host_workload-Keeps : (c : BackrestCluster) → Keeps AllMatched (ensure_host_workload w c)
  unfolding ensure_host_workload
  ensure_host_workload-Keeps c =
      search
        (
          matched_rules, no_premise, dep-Keeps, host_deployment-IsMatched, ignore-Keeps,
          ensure_ingress-Keeps,
        )
        depth 12

  ensure_host-Keeps : (c : BackrestCluster) → Keeps AllMatched (ensure_host w c)
  unfolding ensure_host
  ensure_host-Keeps c =
      search (matched_rules, no_premise, ignore-Keeps, ensure_host_workload-Keeps) depth 12

  count_deployment-Keeps : (c : BackrestCluster) → Keeps AllMatched (count_deployment w c)
  unfolding count_deployment
  count_deployment-Keeps c = search (matched_rules, no_premise) depth 12

  count_daemon_set-Keeps : (c : BackrestCluster) → Keeps AllMatched (count_daemon_set w c)
  unfolding count_daemon_set
  count_daemon_set-Keeps c = search (matched_rules, no_premise) depth 12

  agent_deployment-IsMatched :
      (c : BackrestCluster)
      → IsMatched (agent_deployment w c).selector (agent_deployment w c).template
  unfolding agent_deployment agent_template
  agent_deployment-IsMatched c = new-IsMatched (agent_template w c) (agent_selector c) refl

  agent_daemon_set-IsMatched :
      (c : BackrestCluster)
      → IsMatched (agent_daemon_set w c).selector (agent_daemon_set w c).template
  unfolding agent_daemon_set agent_template
  agent_daemon_set-IsMatched c = new-IsMatched (agent_template w c) (agent_selector c) refl

  agent_deployment-Keeps : (c : BackrestCluster) → Keeps AllMatched (ensure_agent_deployment w c)
  unfolding ensure_agent_deployment
  agent_deployment-Keeps c =
      search (matched_rules, dep-Keeps, agent_deployment-IsMatched, count_deployment-Keeps) depth 12

  agent_daemon_set-Keeps : (c : BackrestCluster) → Keeps AllMatched (ensure_agent_daemon_set w c)
  unfolding ensure_agent_daemon_set
  agent_daemon_set-Keeps c =
      search (matched_rules, ds-Keeps, agent_daemon_set-IsMatched, count_daemon_set-Keeps) depth 12

  ensure_agents-Keeps : (c : BackrestCluster) → Keeps AllMatched (ensure_agents w c)
  unfolding ensure_agents
  ensure_agents-Keeps c =
      search (matched_rules, agent_deployment-Keeps, agent_daemon_set-Keeps) depth 12

  give_up-Keeps : (c : BackrestCluster) (a : AgentCount) → Keeps AllMatched (give_up w c a)
  unfolding give_up patch_status
  give_up-Keeps c a = search (matched_rules, no_premise) depth 12

  settle-Keeps : (c : BackrestCluster) (a : AgentCount) → Keeps AllMatched (settle w c a)
  unfolding settle is_host_ready patch_status
  settle-Keeps c a = search (matched_rules, no_premise) depth 12

  after_host-Keeps : (c : BackrestCluster) (m : Made) → Keeps AllMatched (after_host w c m)
  unfolding reconcile_agents
  after_host-Keeps c Made.panicked = Keeps-pure panic
  after_host-Keeps c (Made.done (some e)) = search give_up-Keeps
  after_host-Keeps c (Made.done none) =
      search (matched_rules, ensure_agents-Keeps, give_up-Keeps, settle-Keeps) depth 12

  reconcile-Keeps : (key : Key) → Keeps AllMatched (reconcile_cluster w key)
  unfolding reconcile_cluster reconcile_allowed
  reconcile-Keeps key =
      search (matched_rules, no_premise, ensure_host-Keeps, after_host-Keeps) depth 12

  -- Whatever the cluster answers, every Deployment and DaemonSet that a reconcile of a BackrestCluster
  -- creates or updates gives its pods just the labels that its selector matches, where the selector
  -- has such labels, if this is so of those before.
  pub reconcile_cluster-AllMatched :
      (key : Key) (t : Trace) → AllMatched t → AllMatched (reconcile_cluster w key t).1
  reconcile_cluster-AllMatched key t h = (reconcile-Keeps key).at t h
