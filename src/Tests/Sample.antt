-- ===== src/Tests/Sample.antt =====
-- A cluster, a server and the other parameters of the model, as concrete functions.
use Prim.Native.String.{◌++◌}
use ray_on_vcf.Prelude.{
  ℕ, ◌+◌, ◌*◌, String, true, Option, none, some, List, [], ◌∷◌, contains, if◌then◌else◌, ◌==◌,
}
use ray_on_vcf.Prelude.Dict.{Dict}
use ray_on_vcf.Go.{Error, Reason, ok, err, Exec}
use ray_on_vcf.Api.{
  NodeType, VmRayCluster, VmRayClusterStatus, VmRayClusterState, VmRayNodeStatus, VmNodeStatus,
  RayProcessStatus,
}
use ray_on_vcf.Kube.{
  ObjectKey, Secret, Resource, Client, Host, ControllerUtil, VirtualMachine, VirtualMachineService,
}
use ray_on_vcf.Controller.Workers.{new_node_status}
use ray_on_vcf.Vmop.CloudInit.Files.{Encoders}

-- A server with one secret at most: it has an object of every kind exactly if it has the secret.
abbrev pub Toy : Type 0
Toy = Option Secret

abbrev pub absent : Error
absent = Error.status Reason.not_found "not found"

abbrev pub some_key : ObjectKey
some_key = record { namespace = "ns"; name = "ray" }

abbrev pub some_secret : Secret
some_secret = record { key = some_key; content = ("ssh-pvt-key", "key") ∷ []; string_data = [] }

abbrev pub get_secret : ObjectKey → Exec Toy Secret
get_secret k w = (elim w [ none ↦ err absent | some s ↦ ok s ], w)

abbrev pub toy_secrets : Resource Toy Secret
toy_secrets = record {
  get = get_secret;
  create = λ s w. (ok s, some s);
  delete = λ s w. (ok tt, none);
}

abbrev pub get_object : {O : Type 0} → O → ObjectKey → Exec Toy O
get_object o k w = (elim w [ none ↦ err absent | some s ↦ ok o ], w)

abbrev pub toy_objects : {O : Type 0} → O → Resource Toy O
toy_objects o = record {
  get = get_object o;
  create = λ a w. (ok a, some some_secret);
  delete = λ a w. (ok tt, none);
}

abbrev pub a_machine : VirtualMachine
a_machine = record {
  key = some_key;
  labels = [];
  image_name = "image";
  class_name = "class";
  power_state = "PoweredOn";
  storage_class = "storage";
  network = none;
  cloud_config_secret = "ray-hsecret";
  cloud_config_key = "user-data";
  primary_ip4 = some "10.0.0.2";
  conditions = [];
}

abbrev pub a_service : VirtualMachineService
a_service = record {
  key = some_key;
  selector = [];
  ports = [];
  type = "LoadBalancer";
  ingress = "10.0.0.1" ∷ [];
}

abbrev pub fresh_status : VmRayClusterStatus
fresh_status = record {
  head_node_status = new_node_status;
  current_workers = [];
  cluster_state = VmRayClusterState.state_unset;
  conditions = [];
  vm_service_status = record { ip = "" };
}

abbrev pub small : NodeType
small = record {
  vm_class = "best-effort-small";
  min_workers = 1;
  max_workers = 3;
  resources = record { cpu = 2; memory = 4096; gpu = 0 };
}

-- A cluster with some node types, limit and desired workers.
abbrev pub cluster_with : Dict NodeType → ℕ → Dict String → VmRayCluster
cluster_with types max desired = record {
  object_meta = record {
    name = "ray";
    namespace = "ns";
    labels = [];
    finalizers = [];
    deletion_timestamp = none;
  };
  spec = record {
    image = "rayproject/ray:2.9";
    api_server = record { ca_cert = "ca"; location = "10.0.0.9" };
    head_node = record { setup_commands = []; port = none; node_type = "small" };
    worker_node = record { setup_commands = [] };
    node_config = record {
      vm_image = "image";
      storage_class = "storage";
      vm_user = "ray-vm";
      vm_password_salt_hash = "hash";
      network = none;
      node_types = types;
      max_workers = max;
      idle_timeout_minutes = 5;
      setup_commands = [];
      initialization_commands = [];
    };
    autoscaler_desired_workers = desired;
    enable_tls = true;
    docker_config = record { auth_secret_name = "" };
  };
  status = fresh_status;
}

abbrev pub a_cluster : VmRayCluster
a_cluster = cluster_with (("small", small) ∷ []) 5 (("ray-w-one", "small") ∷ [])

-- A running worker that is not desired.
abbrev pub a_worker : VmRayNodeStatus
a_worker = record {
  ip = "10.0.0.3";
  conditions = [];
  vm_status = VmNodeStatus.running;
  ray_status = RayProcessStatus.ray_running;
}

abbrev pub busy_cluster : VmRayCluster
busy_cluster = record a_cluster {
  status = record fresh_status { current_workers = ("ray-w-old", a_worker) ∷ [] };
}

abbrev pub toy_client : Client Toy
toy_client = record {
  secrets = toy_secrets;
  service_accounts = toy_objects (record { key = some_key });
  roles = toy_objects (record { key = some_key; rules = [] });
  role_bindings = toy_objects (record {
    key = some_key;
    role_ref = record { api_group = ""; kind = "Role"; name = "ray" };
    subjects = [];
  });
  virtual_machines = toy_objects a_machine;
  vm_services = toy_objects a_service;
  get_vm_image = λ k w. (ok tt, w);
  get_storage_class = λ k w. (ok tt, w);
  get_vm_class = λ k w. (ok tt, w);
  create_token = λ a d w. (ok "token", w);
  get_cluster = λ k w. (ok a_cluster, w);
  update_cluster = λ i w. (ok (record i { status = fresh_status }), w);
  patch_status = λ i j w. (ok j, w);
}

-- No object is there, a creation is lost, and a deletion has nothing to do.
abbrev pub nothing : {W O : Type 0} → Resource W O
nothing = record {
  get = λ k w. (err absent, w);
  create = λ o w. (ok o, w);
  delete = λ o w. (ok tt, w);
}

abbrev pub idle_client : {W : Type 0} → Client W
idle_client = record {
  secrets = nothing;
  service_accounts = nothing;
  roles = nothing;
  role_bindings = nothing;
  virtual_machines = nothing;
  vm_services = nothing;
  get_vm_image = λ k w. (ok tt, w);
  get_storage_class = λ k w. (ok tt, w);
  get_vm_class = λ k w. (ok tt, w);
  create_token = λ a n w. (ok "token", w);
  get_cluster = λ k w. (err absent, w);
  update_cluster = λ i w. (ok i, w);
  patch_status = λ i j w. (ok j, w);
}

abbrev pub toy_host : {W : Type 0} → Host W
toy_host = record {
  now = λ w. 0;
  add_years = λ n t. t + n * 31536000;
  intn = λ n w. (0, w);
  generate_key = λ bits w. (ok "key", w);
  create_certificate = λ c k w. (ok "certificate", w);
  marshal_pkcs1 = λ k. k;
  pem_encode = λ type bytes. type ++ bytes;
}

abbrev pub remove_name : String → List String → List String
remove_name f [] = []
remove_name f (g ∷ gs) = if g == f then remove_name f gs else g ∷ remove_name f gs

abbrev pub with_finalizers : VmRayCluster → List String → VmRayCluster
with_finalizers i fs = record i { object_meta = record i.object_meta { finalizers = fs } }

abbrev pub toy_util : ControllerUtil
toy_util = record {
  contains_finalizer = λ i f. contains f i.object_meta.finalizers;
  add_finalizer = λ i f. with_finalizers i (f ∷ i.object_meta.finalizers);
  remove_finalizer = λ i f. with_finalizers i (remove_name f i.object_meta.finalizers);
}

abbrev pub toy_encoders : Encoders
toy_encoders = record { marshal = λ c. ok "cluster_name: ray\n"; base64 = λ s. s }
