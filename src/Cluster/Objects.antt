-- ===== src/Cluster/Objects.antt =====
-- api/v1alpha1/backrestcluster_types.go, with the fields that the controller reads, and the
-- Kubernetes objects that it writes.
use backrest_operator.Prelude.{ℕ, Bytes, Bool, Option, List}
use backrest_operator.Prelude.Int.{ℤ}
use backrest_operator.Api.{Phase, Key, ObjectMeta}

abbrev pub Labels : Type 0
Labels = List (Bytes × Bytes)

pub record DownloadBypassSpec : Type 0 where
  pub enabled : Option Bool
  pub path : Bytes
  pub annotations : Labels

-- `tls` has the JSON text of each entry.
pub record IngressOptions : Type 0 where
  pub enabled : Bool
  pub class_name : Bytes
  pub host : Bytes
  pub tls : List Bytes
  pub annotations : Labels
  pub backend_service_name : Bytes
  pub backend_service_port : ℤ
  pub download_bypass : DownloadBypassSpec

pub record HostSpec : Type 0 where
  pub replicas : Option ℤ
  pub service_type : Bytes
  pub enable_service_links : Option Bool
  pub ingress : IngressOptions
  pub size : Bytes
  pub storage_class_name : Bytes
  pub node_selector : Labels

-- `tolerations` has the JSON text of each entry.
pub record AgentsSpec : Type 0 where
  pub enabled : Option Bool
  pub mode : Bytes
  pub replicas : Option ℤ
  pub node_selector : Labels
  pub tolerations : List Bytes
  pub server_url : Bytes

pub record ClusterSpec : Type 0 where
  pub version : Bytes
  pub image : Bytes
  pub host : HostSpec
  pub agents : AgentsSpec

pub record ClusterStatus : Type 0 where
  pub phase : Phase
  pub host_ready : Bool
  pub agents_ready : ℤ
  pub agents_desired : ℤ
  pub multihost_paired : ℤ

pub record BackrestCluster : Type 0 where
  pub metadata : ObjectMeta
  pub spec : ClusterSpec
  pub status : ClusterStatus

pub data Volume : Type 0 where
  volume_claim : Bytes → Volume
  empty_dir : Volume

-- A pod of one container. Tolerations that are nil are `none`, and others their JSON text.
pub record PodSpec : Type 0 where
  pub service_links : Bool
  pub image : Bytes
  pub ports : List (Bytes × ℕ)
  pub env : List (Bytes × Bytes)
  pub probe : Option ℕ
  pub volume : Volume
  pub node_selector : Labels
  pub tolerations : Option Bytes

-- A map of labels may be nil.
pub record Template : Type 0 where
  pub labels : Option Labels
  pub pod : PodSpec

pub record Selector : Type 0 where
  pub match_labels : Option Labels
  pub match_expressions : Bytes

-- `rest` is the text of what the operator does not write.
pub record Deployment : Type 0 where
  pub key : Key
  pub labels : Option Labels
  pub owner : Option Bytes
  pub replicas : Option ℤ
  pub strategy : Bytes
  pub selector : Option Selector
  pub template : Template
  pub ready_replicas : ℤ
  pub rest : Bytes

pub record DaemonSet : Type 0 where
  pub key : Key
  pub labels : Option Labels
  pub owner : Option Bytes
  pub selector : Option Selector
  pub template : Template
  pub number_ready : ℤ
  pub desired_number : ℤ
  pub rest : Bytes

-- one rule with one path of the type Prefix
pub record IngressSpec : Type 0 where
  pub host : Bytes
  pub path : Bytes
  pub service : Bytes
  pub port : ℤ
  pub class_name : Option Bytes
  pub tls : Option Bytes

pub record Ingress : Type 0 where
  pub key : Key
  pub labels : Option Labels
  pub annotations : Labels
  pub owner : Option Bytes
  pub spec : IngressSpec
  pub rest : Bytes

-- ReadWriteOnce; without a class the cluster's default is taken
pub record VolumeClaim : Type 0 where
  pub key : Key
  pub labels : Labels
  pub owner : Bytes
  pub size : Bytes
  pub storage_class : Option Bytes

pub record Service : Type 0 where
  pub key : Key
  pub labels : Labels
  pub owner : Bytes
  pub kind : Bytes
  pub selector : Labels
  pub port : ℕ

pub data ClusterCall : Type 0 where
  get_cluster get_deployment get_daemon_set get_ingress : Key → ClusterCall
  create_volume_claim : VolumeClaim → ClusterCall
  create_service : Service → ClusterCall
  create_deployment update_deployment : Deployment → ClusterCall
  create_daemon_set update_daemon_set : DaemonSet → ClusterCall
  create_ingress update_ingress : Ingress → ClusterCall
  delete_ingress : Key → ClusterCall
  update_cluster_status : BackrestCluster → ClusterCall
