-- ===== src/Api.antt =====
-- vmray-cluster-operator/api/v1alpha1/vmraycluster_types.go: the VMRayCluster resource. Of
-- `metav1.ObjectMeta` and `metav1.Condition` the model has the fields that the code touches, and a
-- pointer to a `VirtualMachineNetworkSpec`, which the code only copies, is its address.
pub mod Conditions
pub mod Regex
pub mod Webhook
use ray_on_vcf.Prelude.{ℕ, String, Bool, Option, List}
use ray_on_vcf.Prelude.Dict.{Dict}

-- `VMNodeStatus` is a string: the four constants, and any other text.
pub data VmNodeStatus : Type 0 where
  empty initialized running failure : VmNodeStatus
  unknown : String → VmNodeStatus

-- `RayProcessStatus` is a string: never set (""), the three constants, and any other text.
pub data RayProcessStatus : Type 0 where
  unset ray_initialized ray_running ray_fail : RayProcessStatus
  ray_other : String → RayProcessStatus

pub data ConditionStatus : Type 0 where
  condition_true condition_false condition_unknown : ConditionStatus

-- `metav1.Condition`; the time is in seconds.
pub record Condition : Type 0 where
  pub type : String
  pub state : ConditionStatus
  pub last_transition_time : ℕ
  pub reason : String
  pub message : String

pub record VmRayNodeStatus : Type 0 where
  pub ip : String
  pub conditions : List Condition
  pub vm_status : VmNodeStatus
  pub ray_status : RayProcessStatus

pub record VmServiceStatus : Type 0 where
  pub ip : String

-- `VMRayClusterState`; `state_unset` is the empty string of a resource that was never reconciled.
pub data VmRayClusterState : Type 0 where
  state_unset healthy unhealthy : VmRayClusterState

pub record VmRayClusterStatus : Type 0 where
  pub head_node_status : VmRayNodeStatus
  pub current_workers : Dict VmRayNodeStatus
  pub cluster_state : VmRayClusterState
  pub conditions : List Condition
  pub vm_service_status : VmServiceStatus

pub record ApiServerInfo : Type 0 where
  pub ca_cert : String
  pub location : String

-- `port` is a `*uint`.
pub record HeadNodeConfig : Type 0 where
  pub setup_commands : List String
  pub port : Option ℕ
  pub node_type : String

pub record WorkerNodeConfig : Type 0 where
  pub setup_commands : List String

pub record DockerRegistryConfig : Type 0 where
  pub auth_secret_name : String

-- `cpu` and `gpu` are `uint8`, `memory` is a `uint`.
pub record NodeResource : Type 0 where
  pub cpu : ℕ
  pub memory : ℕ
  pub gpu : ℕ

pub record NodeType : Type 0 where
  pub vm_class : String
  pub min_workers : ℕ
  pub max_workers : ℕ
  pub resources : NodeResource

pub record CommonNodeConfig : Type 0 where
  pub vm_image : String
  pub storage_class : String
  pub vm_user : String
  pub vm_password_salt_hash : String
  pub network : Option ℕ
  pub node_types : Dict NodeType
  pub max_workers : ℕ
  pub idle_timeout_minutes : ℕ
  pub setup_commands : List String
  pub initialization_commands : List String

pub record VmRayClusterSpec : Type 0 where
  pub image : String
  pub api_server : ApiServerInfo
  pub head_node : HeadNodeConfig
  pub worker_node : WorkerNodeConfig
  pub node_config : CommonNodeConfig
  pub autoscaler_desired_workers : Dict String
  pub enable_tls : Bool
  pub docker_config : DockerRegistryConfig

-- `deletion_timestamp` is `none` while `DeletionTimestamp.IsZero()` holds.
pub record ObjectMeta : Type 0 where
  pub name : String
  pub namespace : String
  pub labels : Dict String
  pub finalizers : List String
  pub deletion_timestamp : Option ℕ

pub record VmRayCluster : Type 0 where
  pub object_meta : ObjectMeta
  pub spec : VmRayClusterSpec
  pub status : VmRayClusterStatus
