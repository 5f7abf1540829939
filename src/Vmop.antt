-- ===== src/Vmop.antt =====
-- vmray-cluster-operator/pkg/provider/vmop/vmop_provider.go and translator/translator.go: the
-- provider that deploys virtual machines by vm-operator's resources.
pub mod CloudInit
pub mod DockerAuth
pub mod Rbac
pub mod Secrets
pub mod Server
pub mod Deletion
pub mod Teardown
pub mod Service
pub mod Setup
pub mod Machine
pub mod Keys
pub mod Frame
pub mod Untouched
use Prim.Native.String.{◌++◌}
use ray_on_vcf.Prelude.{String, Option, none, some, List, [], ◌∷◌, map, is_some}
use ray_on_vcf.Prelude.Dict.{Dict, lookup}
use ray_on_vcf.Go.{
  Error, Result, Exec, ok, err, pure, fail, attempt, on_error, ignore_not_found, ignoring_not_found,
  ◌>>=◌, ◌>>◌, when◌then◌else◌,
}
use ray_on_vcf.Go.Format.{ℤ}
use ray_on_vcf.Api.{VmNodeStatus, RayProcessStatus, VmRayNodeStatus, CommonNodeConfig, NodeType}
use ray_on_vcf.Kube.{
  ObjectKey, VirtualMachine, VirtualMachineService, VirtualMachineServicePort, Client, Host,
}
use ray_on_vcf.Provider.{VmDeploymentRequest, VmProvider, get_head_node_name}
use ray_on_vcf.Vmop.CloudInit.{get_ray_port}
use ray_on_vcf.Vmop.CloudInit.Files.{Encoders, cloud_init_config_user_data_key}
use ray_on_vcf.Vmop.Rbac.{
  delete_if_found, create_service_account_and_role, delete_service_account_and_role,
}
use ray_on_vcf.Vmop.Secrets.{create_cloud_init_secret, delete_all_cloud_init_secret}

abbrev pub head_vm_service_annotation : String
head_vm_service_annotation = "vmray.kubernetes.io/ray-cluster-head"

-- `getVmClass`
unfoldable pub get_vm_class : String → CommonNodeConfig → Result String
get_vm_class node_type node_config = elim (lookup node_type node_config.node_types) [
  | some nt ↦ ok nt.vm_class
  | none ↦ err (Error.plain ("Invalid node type `" ++ node_type ++ "` requested"))
]

-- `TranslateToVmCRD`, whose error is always nil.
unfoldable pub translate_to_vm_crd :
    String → String → String → Dict String → String → CommonNodeConfig → VirtualMachine
translate_to_vm_crd namespace vm_name cloud_config_secret_name labels vm_class node_config =
    record {
      key = record { namespace = namespace; name = vm_name };
      labels = labels;
      image_name = node_config.vm_image;
      class_name = vm_class;
      power_state = "PoweredOn";
      storage_class = node_config.storage_class;
      network = node_config.network;
      cloud_config_secret = cloud_config_secret_name;
      cloud_config_key = cloud_init_config_user_data_key;
      primary_ip4 = none;
      conditions = [];
    }

-- `ExtractVmStatus`
unfoldable pub extract_vm_status : VirtualMachine → VmRayNodeStatus
extract_vm_status vm = record {
  ip = elim vm.primary_ip4 [ none ↦ "" | some ip ↦ ip ];
  conditions = vm.conditions;
  vm_status = VmNodeStatus.empty;
  ray_status = RayProcessStatus.unset;
}

-- The ports of the head's service, in one of the orders in which the code can range over them.
unfoldable pub service_ports : ℤ → List (String × ℤ)
service_ports port =
    ("ray-port", port)
    ∷ ("ray-dashboard-port", ℤ.pos 8265)
    ∷ ("ray-client-port", ℤ.pos 10001)
    ∷ ("ssh-port", ℤ.pos 22)
    ∷ []

abbrev pub service_port : String × ℤ → VirtualMachineServicePort
service_port (n, p) = record { name = n; protocol = "TCP"; port = p; target_port = p }

module _ {W : Type 0} (client : Client W) where
  -- `createVMService`
  unfoldable pub create_vm_service :
      String → String → List (String × ℤ) → Dict String → Exec W VirtualMachineService
  create_vm_service namespace name ports selector = client.vm_services.create (record {
    key = record { namespace = namespace; name = name };
    selector = selector;
    ports = map service_port ports;
    type = "LoadBalancer";
    ingress = [];
  })

  -- `VmOperatorProvider.DeployVmService`. An error of `Get` other than NotFound gives "" and nil.
  unfoldable pub deploy_vm_service : VmDeploymentRequest → Exec W String
  deploy_vm_service r =
      let name = get_head_node_name r.cluster_name r.nounce in
      do
        found ← attempt (client.vm_services.get (record { namespace = r.namespace; name = name }))
        elim found [
          | err e ↦ elim (ignore_not_found e) [
            | some _ ↦ pure ""
            | none ↦ do
              create_vm_service r.namespace name (service_ports (get_ray_port r))
                  ((head_vm_service_annotation, name) ∷ [])
              pure ""
          ]
          | ok vm_service ↦ elim vm_service.ingress [
            | ip ∷ _ ↦ pure ip
            | [] ↦ fail (Error.plain "Head node VM service IP is not assigned")
          ]
        ]

  -- `deleteVMService`
  unfoldable pub delete_vm_service : String → String → Exec W Unit
  delete_vm_service namespace name =
      delete_if_found client.vm_services (record { namespace = namespace; name = name })

  -- `VmOperatorProvider.Delete`
  unfoldable pub delete : String → String → Exec W Unit
  delete namespace name = do
    ignoring_not_found (delete_vm_service namespace name)
    delete_if_found client.virtual_machines (record { namespace = namespace; name = name })

  -- `VmOperatorProvider.FetchVmStatus`
  unfoldable pub fetch_vm_status : String → String → Exec W VmRayNodeStatus
  fetch_vm_status namespace name = do
    vm ← client.virtual_machines.get (record { namespace = namespace; name = name })
    pure (extract_vm_status vm)

  -- `VmOperatorProvider.DeleteAuxiliaryResources`
  unfoldable pub delete_auxiliary_resources : String → String → Exec W Unit
  delete_auxiliary_resources namespace cluster_name = do
    delete_all_cloud_init_secret client namespace cluster_name
    delete_service_account_and_role client namespace cluster_name

  module _ (host : Host W) (encoders : Encoders) where
    -- `VmOperatorProvider.Deploy`
    unfoldable pub deploy : VmDeploymentRequest → Exec W Unit
    deploy r =
        let labels : Dict String = elim r.head_node_status [
          | none ↦ (head_vm_service_annotation, r.vm_name) ∷ []
          | some _ ↦ []
        ] in
        do
          when is_some r.head_node_status
              then pure tt
              else create_service_account_and_role client r.namespace r.cluster_name
          secret ← create_cloud_init_secret client host encoders r
          vm_class ← λ w. (get_vm_class r.node_type r.node_config, w)
          client.virtual_machines.create (
              translate_to_vm_crd r.namespace r.vm_name secret.key.name labels vm_class
                r.node_config)
          pure tt

    -- `NewVmOperatorProvider`
    unfoldable pub new_vm_operator_provider : VmProvider W
    new_vm_operator_provider = record {
      deploy = deploy;
      deploy_vm_service = deploy_vm_service;
      delete = delete;
      fetch_vm_status = fetch_vm_status;
      delete_auxiliary_resources = delete_auxiliary_resources;
    }
