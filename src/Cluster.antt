-- ===== src/Cluster.antt =====
-- internal/controller/cluster_controller.go: the BackrestCluster controller.
pub mod Objects
pub mod Image
pub mod Host
pub mod Agents
pub mod Reconcile
pub mod Laws
use backrest_operator.Prelude.{
  ℕ, Bytes, bytes, Bool, true, false, Option, none, some, List, [], ◌∷◌, ◌++◌, is_empty,
  if◌then◌else◌,
}
use backrest_operator.Prelude.Decimal.{decimal}
use backrest_operator.Api.{Key}
use backrest_operator.Effects.{
  Env, Result, ok, err, Error, Event, Trace, M, pure, ask, ◌>>=◌, on_result, is_not_found,
}
use backrest_operator.Backup.Jobs.{ignore_already_exists}
use backrest_operator.Cluster.Objects.{
  Labels, BackrestCluster, Template, Selector, Deployment, DaemonSet, Ingress, ClusterCall,
}

-- What answers the controller. `ingress_tls` and `pod_tolerations` are encoding/json to the API's
-- types and back, which are nil after an error.
pub record Clusters : Type 0 where
  pub env : Env
  pub cluster : Trace → Result BackrestCluster
  pub deployment : Trace → Result Deployment
  pub daemon_set : Trace → Result DaemonSet
  pub ingress : Trace → Result Ingress
  pub ingress_tls : List Bytes → Option Bytes
  pub pod_tolerations : List Bytes → Option Bytes

abbrev pub backrest_port : ℕ
backrest_port = 9898

-- the port in a text
abbrev pub port_text : Bytes
port_text = bytes "9898"

unfoldable pub labels_of : Bytes → Bytes → Labels
labels_of name role =
    (bytes "app.kubernetes.io/name", bytes "backrest")
    ∷ (bytes "app.kubernetes.io/instance", name)
    ∷ (bytes "app.kubernetes.io/component", role)
    ∷ (bytes "app.kubernetes.io/managed-by", bytes "backrest-operator")
    ∷ (bytes "operator.backrest.io/cluster", name)
    ∷ (bytes "operator.backrest.io/role", role)
    ∷ []

unfoldable pub host_name : BackrestCluster → Bytes
host_name c = bytes "backrest-host-" ++ c.metadata.name

abbrev pub key_in : BackrestCluster → Bytes → Key
key_in c name = record { namespace = c.metadata.namespace; name = name }

-- if x != nil { v = *x }
abbrev pub value_or {ℓ} : {A : Type ℓ} → A → Option A → A
value_or d none = d
value_or d (some a) = a

-- if x != nil { y = x }
abbrev pub some_or {ℓ} : {A : Type ℓ} → Option A → Option A → Option A
some_or d none = d
some_or d (some a) = some a

-- if len(in) > 0
abbrev pub unless_none : List Bytes → (List Bytes → Option Bytes) → Option Bytes
unless_none [] f = none
unless_none (x ∷ xs) f = f (x ∷ xs)

abbrev pub text_or_none : Bytes → Option Bytes
text_or_none [] = none
text_or_none (c ∷ s) = some (c ∷ s)

-- The selector of a workload is immutable: the template takes its labels, where it has any.
abbrev pub with_labels : Template → Option Labels → Template
with_labels t none = t
with_labels t (some l) = record t { labels = some l }

abbrev pub selected : Template → Option Selector → Template
selected t none = t
selected t (some s) = with_labels t s.match_labels

unfoldable pub merge_deployment : Deployment → Deployment → Deployment
merge_deployment cur desired = record cur {
  replicas = desired.replicas;
  strategy = desired.strategy;
  template = selected desired.template cur.selector;
  labels = some_or cur.labels desired.labels;
}

unfoldable pub merge_daemon_set : DaemonSet → DaemonSet → DaemonSet
merge_daemon_set cur desired = record cur {
  template = selected desired.template cur.selector;
  labels = some_or cur.labels desired.labels;
}

unfoldable pub merge_ingress : Ingress → Ingress → Ingress
merge_ingress cur desired = record cur {
  spec = desired.spec;
  annotations = desired.annotations;
  labels = some_or cur.labels desired.labels;
}

module _ (w : Clusters) where
  unfoldable pub create_or_ignore : ClusterCall → M (Option Error)
  create_or_ignore call = do e ← ask w.env.done (Event.cluster call); pure (ignore_already_exists e)

  -- a read, and then a creation or an update
  unfoldable pub create_or_update :
      {A : Type 0}
      → (Trace → Result A)
      → ClusterCall
      → ClusterCall
      → (A → ClusterCall)
      → M (Option Error)
  create_or_update answer get create update = do
    got ← ask answer (Event.cluster get)
    on_result got
        (λ e. if is_not_found e then ask w.env.done (Event.cluster create) else pure (some e))
        (λ cur. ask w.env.done (Event.cluster (update cur)))

  unfoldable pub create_or_update_dep : Deployment → M (Option Error)
  unfolding create_or_update merge_deployment
  create_or_update_dep d =
      create_or_update w.deployment (ClusterCall.get_deployment d.key)
        (ClusterCall.create_deployment d)
        (λ cur. ClusterCall.update_deployment (merge_deployment cur d))

  unfoldable pub create_or_update_ds : DaemonSet → M (Option Error)
  unfolding create_or_update merge_daemon_set
  create_or_update_ds d =
      create_or_update w.daemon_set (ClusterCall.get_daemon_set d.key)
        (ClusterCall.create_daemon_set d)
        (λ cur. ClusterCall.update_daemon_set (merge_daemon_set cur d))

  unfoldable pub create_or_update_ingress : Ingress → M (Option Error)
  unfolding create_or_update merge_ingress
  create_or_update_ingress i =
      create_or_update w.ingress (ClusterCall.get_ingress i.key) (ClusterCall.create_ingress i)
        (λ cur. ClusterCall.update_ingress (merge_ingress cur i))
