-- ===== src/Lcm.antt =====
-- vmray-cluster-operator/internal/controller/lcm/node_lcm.go: the life cycle of one node.
pub mod Invariant
pub mod Transitions
pub mod Progress
pub mod Frame
use Prim.Native.String.{◌++◌}
use ray_on_vcf.Prelude.{String, Bool, Option, none, some, ◌==◌}
use ray_on_vcf.Go.{
  Error, Result, ok, err, Exec, pure, fail, gets, modify, attempt, zoom, ◌>>=◌, ◌>>◌,
  when◌then◌else◌, ignore_not_found, ignore_already_exists,
}
use ray_on_vcf.Api.{
  VmNodeStatus, RayProcessStatus, VmRayNodeStatus, VmServiceStatus, ApiServerInfo, HeadNodeConfig,
  WorkerNodeConfig, CommonNodeConfig, DockerRegistryConfig,
}
use ray_on_vcf.Provider.{RayClusterRequestor, VmDeploymentRequest, VmProvider}

-- `ErrorInvalidNodestatus`
abbrev pub error_invalid_node_status : Error
error_invalid_node_status = Error.plain "lcm detected invalid node status"

-- The fields of `NodeLcmRequest` that the manager reads. The pointers `NodeStatus` and
-- `VMServiceStatus`, through which it writes, are in `Node`.
pub record NodeLcmRequest : Type 0 where
  pub namespace : String
  pub cluster_name : String
  pub nounce : String
  pub name : String
  pub node_type : String
  pub docker_image : String
  pub api_server : ApiServerInfo
  pub enable_tls : Bool
  pub head_node_config : HeadNodeConfig
  pub worker_node_config : WorkerNodeConfig
  pub node_config : CommonNodeConfig
  pub docker_config : DockerRegistryConfig
  pub head_node_status : Option VmRayNodeStatus
  pub ray_cluster_requestor : RayClusterRequestor

-- What the manager can change: `*req.NodeStatus`, `*req.VMServiceStatus` and the world. The service
-- status is written only for the head, whose request has that pointer.
pub record Node (W : Type 0) : Type 0 where
  pub node_status : VmRayNodeStatus
  pub vm_service_status : VmServiceStatus
  pub world : W

-- `deploymentRequest` as it is first filled in.
unfoldable pub deployment_request : NodeLcmRequest → VmDeploymentRequest
deployment_request req = record {
  cluster_name = req.cluster_name;
  docker_image = req.docker_image;
  namespace = req.namespace;
  nounce = req.nounce;
  vm_name = req.name;
  node_type = req.node_type;
  api_server = req.api_server;
  enable_tls = req.enable_tls;
  head_node_config = req.head_node_config;
  worker_node_config = req.worker_node_config;
  node_config = req.node_config;
  docker_config = req.docker_config;
  head_node_status = req.head_node_status;
  ray_cluster_requestor = req.ray_cluster_requestor;
  vm_service = "";
}

module _ {W : Type 0} where
  -- A call of the provider.
  abbrev pub in_world : {A : Type 0} → Exec W A → Exec (Node W) A
  in_world = zoom (λ n. n.world) (λ w n. record n { world = w })

  abbrev pub set_vm_status : VmNodeStatus → Exec (Node W) Unit
  set_vm_status v = modify (λ n. record n { node_status = record n.node_status { vm_status = v } })

  abbrev set_ray_status : RayProcessStatus → Exec (Node W) Unit
  set_ray_status v =
      modify (λ n. record n { node_status = record n.node_status { ray_status = v } })

  -- `req.NodeStatus.Ip` and `req.NodeStatus.Conditions` from what the provider found.
  abbrev set_observed : VmRayNodeStatus → Exec (Node W) Unit
  set_observed found = modify (λ n. record n {
    node_status = record n.node_status { ip = found.ip; conditions = found.conditions };
  })

module _ {W : Type 0} (pvdr : VmProvider W) where
  -- "Deploy VM", with the error of a machine that is already there ignored.
  unfoldable pub deploy_vm : VmDeploymentRequest → Exec (Node W) Unit
  deploy_vm request = do
    r ← attempt (in_world (pvdr.deploy request))
    elim r [
      | ok _ ↦ set_vm_status VmNodeStatus.initialized
      | err e ↦ elim (ignore_already_exists e) [
        | some _ ↦ set_vm_status VmNodeStatus.failure >> fail e
        | none ↦ set_vm_status VmNodeStatus.initialized
      ]
    ]

  -- `case vmrayv1alpha1.EMPTY`: the head node needs the address of the VM service first.
  unfoldable pub process_empty : NodeLcmRequest → Exec (Node W) Unit
  unfolding deploy_vm deployment_request
  process_empty req =
      let request = deployment_request req in
      elim req.head_node_status [
        | some _ ↦ deploy_vm request
        | none ↦ do
          ip ← in_world (pvdr.deploy_vm_service request)
          when ip == "" then pure tt else do
            modify (λ n. record n { vm_service_status = record { ip = ip } })
            deploy_vm (record request { vm_service = ip })
      ]

  -- `case vmrayv1alpha1.INITIALIZED`
  pub process_initialized : NodeLcmRequest → Exec (Node W) Unit
  process_initialized req = do
    r ← attempt (in_world (pvdr.fetch_vm_status req.namespace req.name))
    elim r [
      | err e ↦ set_vm_status VmNodeStatus.failure >> fail e
      | ok found ↦ do
        set_observed found
        when found.ip == "" then pure tt else do
          set_vm_status VmNodeStatus.running
          set_ray_status RayProcessStatus.ray_initialized
    ]

  abbrev fail_node : Error → Exec (Node W) Unit
  fail_node e = do
    set_vm_status VmNodeStatus.failure
    set_ray_status RayProcessStatus.ray_fail
    fail e

  -- `case vmrayv1alpha1.RUNNING`
  pub process_running : NodeLcmRequest → Exec (Node W) Unit
  process_running req = do
    r ← attempt (in_world (pvdr.fetch_vm_status req.namespace req.name))
    elim r [
      | err e ↦ fail_node e
      | ok found ↦
          when found.ip == ""
          then fail_node (Error.plain ("primary IPv4 not found for " ++ req.name ++ " Node"))
          else do set_ray_status RayProcessStatus.ray_running; set_observed found
    ]

  -- `case vmrayv1alpha1.FAIL`: the error of the fetch is not returned.
  pub process_failure : NodeLcmRequest → Exec (Node W) Unit
  process_failure req = do
    r ← attempt (in_world (pvdr.fetch_vm_status req.namespace req.name))
    elim r [
      | ok _ ↦ set_vm_status VmNodeStatus.initialized
      | err e ↦ elim (ignore_not_found e) [
        | none ↦ set_vm_status VmNodeStatus.empty
        | some _ ↦ pure tt
      ]
    ]

  -- The `switch`.
  unfoldable pub dispatch : VmNodeStatus → NodeLcmRequest → Exec (Node W) Unit
  unfolding process_empty process_initialized process_running process_failure
  dispatch VmNodeStatus.empty req = process_empty req
  dispatch VmNodeStatus.initialized req = process_initialized req
  dispatch VmNodeStatus.running req = process_running req
  dispatch VmNodeStatus.failure req = process_failure req
  dispatch (VmNodeStatus.unknown s) req = fail error_invalid_node_status

  -- `ProcessNodeVmState`
  unfoldable pub process_node_vm_state : NodeLcmRequest → Exec (Node W) Unit
  unfolding dispatch
  process_node_vm_state req n = dispatch n.node_status.vm_status req n
