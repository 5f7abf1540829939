-- ===== src/Vmop/CloudInit.antt =====
-- vmray-cluster-operator/pkg/provider/vmop/cloudinit/bootstrap_config.go and the helpers of
-- templator.go beside it: what the head node is told of the cluster.
pub mod Files
pub mod Template
pub mod Indentation
pub mod NodeTypes
pub mod Port
use Prim.Native.String.{◌++◌}
use ray_on_vcf.Prelude.{
  ℕ, String, Bool, true, false, Option, none, some, List, [], ◌∷◌, ◌==◌, ltb, if◌then◌else◌, map,
  append,
}
use ray_on_vcf.Prelude.Dict.{Dict}
use ray_on_vcf.Go.Format.{ℤ, int32, show_int32, concat, spaces, split_after}
use ray_on_vcf.Api.{NodeType, NodeResource}
use ray_on_vcf.Provider.{VmDeploymentRequest}

-- `CloudConfig`; its `EnableTLS` is set where it is read.
pub record CloudConfig : Type 0 where
  pub request : VmDeploymentRequest
  pub svc_acc_token : String
  pub secret_name : String
  pub ssh_pvt_key : String
  pub ca_crt : String
  pub ca_key : String
  pub docker_login_cmd : String

pub record VsphereConfig : Type 0 where
  pub ca_cert : String
  pub api_server : String
  pub namespace : String
  pub vm_image : String
  pub storage_class : String

-- `Docker`, with `pullBeforeRun`.
pub record Docker : Type 0 where
  pub image : String
  pub container_name : String
  pub pull_before_run : Bool
  pub run_options : List String
  pub worker_run_options : List String

-- `Node`, with its `NodeConfig` and `Resources` in line.
pub record Node : Type 0 where
  pub vm_class : String
  pub min_workers : ℕ
  pub max_workers : ℕ
  pub resources : NodeResource

-- `RayBootstrapConfig`, with its `Provider` and `Auth` in line, less its empty `FileMounts`.
pub record RayBootstrapConfig : Type 0 where
  pub cluster_name : String
  pub max_workers : ℕ
  pub upscaling_speed : ℕ
  pub docker : Docker
  pub idle_timeout_minutes : ℕ
  pub provider_type : String
  pub vsphere_config : VsphereConfig
  pub ssh_user : String
  pub ssh_pvt_key : String
  pub available_node_types : Dict Node
  pub head_node_type : String
  pub cluster_synced_files : List String
  pub file_mounts_sync_continuously : Bool
  pub rsync_exclude : List String
  pub rsync_filter : List String
  pub initialization_commands : List String
  pub setup_commands : List String
  pub head_setup_commands : List String
  pub worker_setup_commands : List String
  pub head_start_ray_commands : List String
  pub worker_start_ray_commands : List String
  pub no_restart : Bool

abbrev pub ray_container_name : String
ray_container_name = "ray_container"

abbrev pub run_script_to_gen_certs : String
run_script_to_gen_certs = "sh /home/ray/gencert.sh"

abbrev pub ray_head_default_port : ℤ
ray_head_default_port = ℤ.pos 6379

-- `RayHeadStartCmd` and `RayWorkerStartCmd` with their port.
abbrev pub ray_head_start_cmd : ℤ → String
ray_head_start_cmd port =
    "ray start --head --port="
    ++ show_int32 port
    ++ " --block --autoscaling-config=/home/ray/ray_bootstrap_config.yaml --dashboard-host=0.0.0.0"

abbrev pub ray_worker_start_cmd : ℤ → String
ray_worker_start_cmd port = "ray start --block --address=$RAY_HEAD_IP:" ++ show_int32 port

-- `addIndentation`
pub add_indentation : String → ℕ → String
add_indentation yaml indentation =
    if ltb 0 indentation
    then concat (map (λ piece. spaces indentation ++ piece) (split_after yaml))
    else yaml

-- The port of a request: `getRayPort`, and the same lines of `DeployVmService`.
unfoldable pub get_ray_port : VmDeploymentRequest → ℤ
get_ray_port r = elim r.head_node_config.port [ none ↦ ray_head_default_port | some p ↦ int32 p ]

-- One node type of `getAvailableNodeTypes`.
unfoldable pub node_of : NodeType → Node
node_of nt = record {
  vm_class = nt.vm_class;
  min_workers = nt.min_workers;
  max_workers = nt.max_workers;
  resources = nt.resources;
}

-- `getAvailableNodeTypes`: a map has each key once, so assigning to a fresh map keeps all.
unfoldable pub get_available_node_types : Dict NodeType → Dict Node
get_available_node_types [] = []
get_available_node_types ((key, nt) ∷ types) = (key, node_of nt) ∷ get_available_node_types types

-- `getRayBootstrapConfig`
unfoldable pub get_ray_bootstrap_config : CloudConfig → RayBootstrapConfig
get_ray_bootstrap_config c =
    let r = c.request in
    record {
      cluster_name = r.cluster_name;
      max_workers = r.node_config.max_workers;
      upscaling_speed = 1;
      docker = record {
        image = r.docker_image;
        container_name = ray_container_name;
        pull_before_run = true;
        run_options = [];
        worker_run_options = [];
      };
      idle_timeout_minutes = r.node_config.idle_timeout_minutes;
      provider_type = "vsphere";
      vsphere_config = record {
        ca_cert = r.api_server.ca_cert;
        api_server = r.api_server.location;
        namespace = r.namespace;
        vm_image = r.node_config.vm_image;
        storage_class = r.node_config.storage_class;
      };
      ssh_user = r.node_config.vm_user;
      ssh_pvt_key = "/home/ray/.ssh/id_rsa_ray";
      available_node_types = get_available_node_types r.node_config.node_types;
      head_node_type = r.node_type;
      cluster_synced_files = [];
      file_mounts_sync_continuously = false;
      rsync_exclude = "**/.git" ∷ "**/.git/**" ∷ [];
      rsync_filter = ".gitignore" ∷ [];
      initialization_commands = r.node_config.initialization_commands;
      setup_commands = r.node_config.setup_commands;
      head_setup_commands = r.head_node_config.setup_commands;
      worker_setup_commands = r.worker_node_config.setup_commands;
      head_start_ray_commands = [];
      worker_start_ray_commands = [];
      no_restart = false;
    }

-- `setDockerCommand`, on the fresh configuration, whose two lists are empty.
unfoldable pub set_docker_command : RayBootstrapConfig → CloudConfig → RayBootstrapConfig
set_docker_command rbc c =
    let port = get_ray_port c.request in
    record rbc {
      worker_start_ray_commands =
          append rbc.worker_start_ray_commands
            (run_script_to_gen_certs ∷ "ray stop" ∷ ray_worker_start_cmd port ∷ []);
      head_start_ray_commands =
          append rbc.head_start_ray_commands
            (run_script_to_gen_certs ∷ "ray stop" ∷ ray_head_start_cmd port ∷ []);
    }
