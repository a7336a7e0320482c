-- ===== src/Cluster/Host.antt =====
-- internal/controller/cluster_controller.go: the host's claim, Deployment, Service and Ingresses.
use backrest_operator.Prelude.{
  Bytes, bytes, Bool, true, false, ◌&&◌, Option, none, some, List, [], ◌∷◌, ◌++◌, or_text,
  if◌then◌else◌,
}
use backrest_operator.Prelude.Int.{ℤ, pos, eq_int}
use backrest_operator.Prelude.Dict.{lookup, insert}
use backrest_operator.Api.{Key}
use backrest_operator.Effects.{Error, Event, M, pure, ask, ◌>>=◌, ◌>>◌, on_option}
use backrest_operator.Restore.Claim.{Made}
use backrest_operator.Cluster.{
  Clusters, backrest_port, port_text, labels_of, host_name, key_in, value_or, unless_none,
  text_or_none, create_or_ignore, create_or_update_dep, create_or_update_ingress,
}
use backrest_operator.Cluster.Image.{image_for}
use backrest_operator.Cluster.Objects.{
  Labels, BackrestCluster, Volume, Deployment, Ingress, VolumeClaim, Service, ClusterCall,
}

unfoldable pub claim_name : BackrestCluster → Bytes
claim_name c = bytes "backrest-host-data-" ++ c.metadata.name

unfoldable pub host_labels : BackrestCluster → Labels
unfolding labels_of
host_labels c = labels_of c.metadata.name (bytes "host")

-- the url by which the pods reach the host
unfoldable pub server_url : BackrestCluster → Bytes
unfolding host_name
server_url c = or_text c.spec.agents.server_url (
    bytes "http://"
    ++ host_name c
    ++ bytes "."
    ++ c.metadata.namespace
    ++ bytes ".svc:"
    ++ port_text)

unfoldable pub pod_env : BackrestCluster → List (Bytes × Bytes)
unfolding server_url
pod_env c =
    (bytes "BACKREST_PORT", bytes ":" ++ port_text)
    ∷ (bytes "BACKREST_DATA", bytes "/data")
    ∷ (bytes "BACKREST_MULTIHOST_SERVER_URL", server_url c)
    ∷ []

abbrev pub claim_size : BackrestCluster → Bytes
claim_size c = or_text c.spec.host.size (bytes "20Gi")

unfoldable pub host_claim : BackrestCluster → VolumeClaim
unfolding claim_name host_labels
host_claim c = record {
  key = key_in c (claim_name c);
  labels = host_labels c;
  owner = c.metadata.uid;
  size = claim_size c;
  storage_class = text_or_none c.spec.host.storage_class_name;
}

unfoldable pub host_deployment : BackrestCluster → Deployment
unfolding claim_name host_labels host_name pod_env image_for
host_deployment c = record {
  key = key_in c (host_name c);
  labels = some (host_labels c);
  owner = some c.metadata.uid;
  replicas = some (value_or (pos 1) c.spec.host.replicas);
  strategy = bytes "Recreate";
  selector = some (record { match_labels = some (host_labels c); match_expressions = [] });
  template = record {
    labels = some (host_labels c);
    pod = record {
      service_links = value_or false c.spec.host.enable_service_links;
      image = image_for c.spec;
      ports = (bytes "http", backrest_port) ∷ [];
      env = pod_env c;
      probe = some backrest_port;
      volume = Volume.volume_claim (claim_name c);
      node_selector = c.spec.host.node_selector;
      tolerations = none;
    };
  };
  ready_replicas = pos 0;
  rest = [];
}

unfoldable pub host_service : BackrestCluster → Service
unfolding host_labels host_name
host_service c = record {
  key = key_in c (host_name c);
  labels = host_labels c;
  owner = c.metadata.uid;
  kind = or_text c.spec.host.service_type (bytes "ClusterIP");
  selector = host_labels c;
  port = backrest_port;
}

abbrev pub download_key : BackrestCluster → Key
download_key c = key_in c (host_name c ++ bytes "-download")

abbrev pub ingress_host : BackrestCluster → Bytes
ingress_host c = or_text c.spec.host.ingress.host (bytes "backrest.example.com")

unfoldable pub backend_port : BackrestCluster → ℤ
unfolding eq_int
backend_port c =
    if eq_int c.spec.host.ingress.backend_service_port (pos 0)
    then pos backrest_port
    else c.spec.host.ingress.backend_service_port

unfoldable pub priority_key : Bytes
priority_key = bytes "traefik.ingress.kubernetes.io/router.priority"

-- for k, v := range from { to[k] = v }
unfoldable pub copy_into : Labels → Labels → Labels
unfolding insert
copy_into to [] = to
copy_into to ((k, v) ∷ from) = copy_into (insert k v to) from

abbrev pub with_priority : Option Bytes → Labels → Labels
with_priority none ann = insert priority_key (bytes "100") ann
with_priority (some v) ann = ann

unfoldable pub download_annotations : BackrestCluster → Labels
unfolding copy_into lookup insert priority_key
download_annotations c =
    let ann = copy_into [] c.spec.host.ingress.annotations in
    copy_into (with_priority (lookup priority_key ann) ann)
      c.spec.host.ingress.download_bypass.annotations

unfoldable pub download_labels : BackrestCluster → Labels
unfolding host_labels copy_into insert
download_labels c =
    insert (bytes "app.kubernetes.io/component") (bytes "download") (copy_into [] (host_labels c))

unfoldable pub bypass_enabled : BackrestCluster → Bool
bypass_enabled c =
    value_or true c.spec.host.ingress.download_bypass.enabled && c.spec.host.ingress.enabled

module _ (w : Clusters) where
  unfoldable pub host_ingress : BackrestCluster → Ingress
  unfolding host_labels host_name backend_port
  host_ingress c =
      let options = c.spec.host.ingress in
      record {
        key = key_in c (host_name c);
        labels = some (host_labels c);
        annotations = options.annotations;
        owner = some c.metadata.uid;
        spec = record {
          host = ingress_host c;
          path = bytes "/";
          service = or_text options.backend_service_name (host_name c);
          port = backend_port c;
          class_name = text_or_none options.class_name;
          tls = unless_none options.tls w.ingress_tls;
        };
        rest = [];
      }

  -- around whatever stands before the host's UI
  unfoldable pub download_ingress : BackrestCluster → Ingress
  unfolding host_name download_labels download_annotations
  download_ingress c =
      let options = c.spec.host.ingress in
      record {
        key = download_key c;
        labels = some (download_labels c);
        annotations = download_annotations c;
        owner = some c.metadata.uid;
        spec = record {
          host = ingress_host c;
          path = or_text options.download_bypass.path (bytes "/download");
          service = host_name c;
          port = pos backrest_port;
          class_name = text_or_none options.class_name;
          tls = unless_none options.tls w.ingress_tls;
        };
        rest = [];
      }

  -- an error of a deletion is dropped
  unfoldable pub delete_ingress : Key → M (Unit {0})
  delete_ingress k = do _ ← ask w.env.done (Event.cluster (ClusterCall.delete_ingress k)); pure tt

  unfoldable pub ensure_download_ingress : BackrestCluster → M (Option Error)
  unfolding bypass_enabled delete_ingress download_ingress create_or_update_ingress host_name
  ensure_download_ingress c =
      if bypass_enabled c
      then create_or_update_ingress w (download_ingress c)
      else (do delete_ingress (download_key c); pure none)

  unfoldable pub ensure_ingress : BackrestCluster → M (Option Error)
  unfolding delete_ingress host_ingress create_or_update_ingress ensure_download_ingress host_name
  ensure_ingress c =
      if c.spec.host.ingress.enabled
      then (do
        e ← create_or_update_ingress w (host_ingress c)
        on_option e (λ x. pure (some x)) (ensure_download_ingress c))
      else (do delete_ingress (key_in c (host_name c)); delete_ingress (download_key c); pure none)

  unfoldable pub ensure_host_workload : BackrestCluster → M (Option Error)
  unfolding host_deployment host_service create_or_update_dep create_or_ignore ensure_ingress
  ensure_host_workload c = do
    e ← create_or_update_dep w (host_deployment c)
    on_option e (λ x. pure (some x))
        (do
          u ← create_or_ignore w (ClusterCall.create_service (host_service c))
          on_option u (λ x. pure (some x)) (ensure_ingress c))

  abbrev pub made : M (Option Error) → M Made
  made m = m >>= λ e. pure (Made.done e)

  -- resource.MustParse panics on a size that is no quantity
  unfoldable pub ensure_host : BackrestCluster → M Made
  unfolding host_claim create_or_ignore ensure_host_workload
  ensure_host c =
      if w.env.is_quantity (claim_size c)
      then (do
        e ← create_or_ignore w (ClusterCall.create_volume_claim (host_claim c))
        on_option e (λ x. pure (Made.done (some x))) (made (ensure_host_workload c)))
      else pure Made.panicked
