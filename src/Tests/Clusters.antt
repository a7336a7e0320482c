-- ===== src/Tests/Clusters.antt =====
-- The theorems on a BackrestCluster, at a small one.
use backrest_operator.Prelude.{◌≡◌, bytes, true, false, none, some, [], ◌∷◌, ◌==◌}
use backrest_operator.Prelude.Int.{pos}
use backrest_operator.Prelude.Dict.{lookup}
use backrest_operator.Api.{Phase}
use backrest_operator.Effects.{ok, err, Error, Reason}
use backrest_operator.Examples.{meta, env}
use backrest_operator.Cluster.{Clusters}
use backrest_operator.Cluster.Objects.{BackrestCluster, ClusterSpec, Deployment}
use backrest_operator.Cluster.Host.{download_annotations, host_deployment}
use backrest_operator.Cluster.Reconcile.{reconcile_cluster}
use backrest_operator.Cluster.Laws.Annotations.{last_value, download_annotations_lem}
use backrest_operator.Cluster.Laws.Hosted.{AllTrue}
use backrest_operator.Cluster.Laws.Ready.{reconcile_cluster-AllTrue}
use backrest_operator.Cluster.Laws.Labels.{AllMatched, reconcile_cluster-AllMatched}

abbrev spec : ClusterSpec
spec = record {
  version = [];
  image = bytes "registry:5000/backrest";
  host = record {
    replicas = none;
    service_type = [];
    enable_service_links = none;
    ingress = record {
      enabled = true;
      class_name = [];
      host = [];
      tls = [];
      annotations = (bytes "a", bytes "1") ∷ [];
      backend_service_name = [];
      backend_service_port = pos 0;
      download_bypass = record {
        enabled = none;
        path = [];
        annotations = (bytes "a", bytes "2") ∷ [];
      };
    };
    size = [];
    storage_class_name = [];
    node_selector = [];
  };
  agents = record {
    enabled = none;
    mode = [];
    replicas = none;
    node_selector = [];
    tolerations = [];
    server_url = [];
  };
}

abbrev main : BackrestCluster
main = record {
  metadata = meta (bytes "main");
  spec = spec;
  status = record {
    phase = Phase.unset;
    host_ready = false;
    agents_ready = pos 0;
    agents_desired = pos 0;
    multihost_paired = pos 0;
  };
}

abbrev absent : Error
absent = record { reason = Reason.not_found; message = [] }

-- an older host, whose selector has labels of its own
abbrev older : Deployment
older = record (host_deployment main) {
  selector = some (record {
    match_labels = some ((bytes "app", bytes "backrest") ∷ []);
    match_expressions = [];
  });
  ready_replicas = pos 1;
}

abbrev clusters : Clusters
clusters = record {
  env = env;
  cluster = λ t. ok main;
  deployment = λ t. ok older;
  daemon_set = λ t. err absent;
  ingress = λ t. err absent;
  ingress_tls = λ l. none;
  pod_tolerations = λ l. none;
}

download_annotations_lem_example : lookup (bytes "a") (download_annotations main) ≡ some (bytes "2")
unfolding bytes lookup ◌==◌ last_value
download_annotations_lem_example = download_annotations_lem main (bytes "a")

reconcile_cluster-AllMatched_example :
    AllMatched
      (reconcile_cluster clusters (record { namespace = bytes "apps"; name = bytes "main" }) []).1
reconcile_cluster-AllMatched_example =
    reconcile_cluster-AllMatched clusters (record { namespace = bytes "apps"; name = bytes "main" })
      [] tt

reconcile_cluster-AllTrue_example :
    AllTrue clusters
      (reconcile_cluster clusters (record { namespace = bytes "apps"; name = bytes "main" }) []).1
reconcile_cluster-AllTrue_example =
    reconcile_cluster-AllTrue clusters (record { namespace = bytes "apps"; name = bytes "main" }) []
      tt
