-- ===== src/Provider.antt =====
-- vmray-cluster-operator/pkg/provider/vm.go: the interface between the reconciler and whatever
-- deploys virtual machines, over an unknown state `W` of the world outside the operator.
pub mod Names
pub mod Frame
use Prim.Native.String.{◌++◌}
use ray_on_vcf.Prelude.{String, Bool, true, false, Option, ◌==◌, if◌then◌else◌}
use ray_on_vcf.Go.{Exec}
use ray_on_vcf.Api.{
  ApiServerInfo, HeadNodeConfig, WorkerNodeConfig, CommonNodeConfig, DockerRegistryConfig,
  VmRayNodeStatus,
}

pub data RayClusterRequestor : Type 0 where
  ray_cli k8s : RayClusterRequestor

-- `IsRayCli`
unfoldable pub is_ray_cli : RayClusterRequestor → Bool
is_ray_cli ray_cli = true
is_ray_cli k8s = false

-- `RayClusterRequestorLabel` and `RayClusterRequestorRayCLI`
abbrev pub ray_cluster_requestor_label : String
ray_cluster_requestor_label = "vmray.io/created-by"

abbrev pub ray_cluster_requestor_ray_cli : String
ray_cluster_requestor_ray_cli = "ray-cli"

-- `head_node_status` is a pointer: nil for the head node, and the head's status for a worker.
pub record VmDeploymentRequest : Type 0 where
  pub cluster_name : String
  pub docker_image : String
  pub namespace : String
  pub nounce : String
  pub vm_name : String
  pub node_type : String
  pub api_server : ApiServerInfo
  pub enable_tls : Bool
  pub head_node_config : HeadNodeConfig
  pub worker_node_config : WorkerNodeConfig
  pub node_config : CommonNodeConfig
  pub docker_config : DockerRegistryConfig
  pub head_node_status : Option VmRayNodeStatus
  pub ray_cluster_requestor : RayClusterRequestor
  pub vm_service : String

-- `VmProvider`. The two texts of the last three are a namespace and a name.
pub record VmProvider (W : Type 0) : Type 0 where
  pub deploy : VmDeploymentRequest → Exec W Unit
  pub deploy_vm_service : VmDeploymentRequest → Exec W String
  pub delete : String → String → Exec W Unit
  pub fetch_vm_status : String → String → Exec W VmRayNodeStatus
  pub delete_auxiliary_resources : String → String → Exec W Unit

-- `GetHeadNodeName`
unfoldable pub get_head_node_name : String → String → String
get_head_node_name cluster_name nounce =
    let res = cluster_name ++ "-h" in if nounce == "" then res else res ++ "-" ++ nounce
