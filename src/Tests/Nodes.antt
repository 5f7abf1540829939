-- ===== src/Tests/Nodes.antt =====
-- The life cycle's theorems at a provider whose world is one bit: is the machine there?
use ray_on_vcf.Prelude.{
  ◌≡◌, ◌↔◌, refl, Bool, String, true, false, none, [], ◌==◌, if◌then◌else◌, inr,
}
use ray_on_vcf.Go.{Error, Reason, ok, err, is_err}
use ray_on_vcf.Api.{VmNodeStatus, RayProcessStatus, VmRayNodeStatus}
use ray_on_vcf.Provider.{VmProvider, RayClusterRequestor}
use ray_on_vcf.Lcm.{
  deployment_request, dispatch, process_empty, NodeLcmRequest, Node, process_node_vm_state,
}
use ray_on_vcf.Lcm.Transitions.{error_iff_failure, head_needs_service}
use ray_on_vcf.Tests.Sample.{a_cluster}

abbrev pub found : VmRayNodeStatus
found = record {
  ip = "10.0.0.3";
  conditions = [];
  vm_status = VmNodeStatus.empty;
  ray_status = RayProcessStatus.unset;
}

abbrev bit_provider : VmProvider Bool
bit_provider = record {
  deploy = λ r w. ((if w then err (Error.status Reason.already_exists "machine") else ok tt), true);
  deploy_vm_service = λ r w. (ok "10.0.0.1", w);
  delete = λ namespace name w. (ok tt, false);
  fetch_vm_status = λ namespace name w.
      ((if w then ok found else err (Error.status Reason.not_found "machine")), w);
  delete_auxiliary_resources = λ namespace name w. (ok tt, w);
}

abbrev pub head_request : NodeLcmRequest
head_request = record {
  namespace = "ns";
  cluster_name = "ray";
  nounce = "abcde";
  name = "ray-h-abcde";
  node_type = "small";
  docker_image = a_cluster.spec.image;
  api_server = a_cluster.spec.api_server;
  enable_tls = true;
  head_node_config = a_cluster.spec.head_node;
  worker_node_config = a_cluster.spec.worker_node;
  node_config = a_cluster.spec.node_config;
  docker_config = a_cluster.spec.docker_config;
  head_node_status = none;
  ray_cluster_requestor = RayClusterRequestor.k8s;
}

abbrev node_at : VmNodeStatus → Bool → Node Bool
node_at s w = record {
  node_status = record found { vm_status = s };
  vm_service_status = record { ip = "" };
  world = w;
}

error_iff_failure_example :
    (is_err (process_node_vm_state bit_provider head_request (node_at VmNodeStatus.running false)).0
      ≡ true)
    ↔ ((process_node_vm_state bit_provider head_request
          (node_at VmNodeStatus.running false)).1.node_status.vm_status
        ≡ VmNodeStatus.failure)
error_iff_failure_example =
    error_iff_failure bit_provider head_request (node_at VmNodeStatus.running false) (inr refl)

head_needs_service_example :
    let asks = bit_provider.deploy_vm_service (deployment_request head_request) false in
    let out =
      (process_node_vm_state bit_provider head_request (node_at VmNodeStatus.empty false)).1 in
    (ip : String) × (asks.0 ≡ ok ip)
    × ((ip == "") ≡ false)
    × (out.vm_service_status.ip ≡ ip)
    × (out.world
        ≡ (bit_provider.deploy
            (record (deployment_request head_request) { vm_service = ip })
            asks.1).1)
unfolding process_node_vm_state dispatch process_empty deployment_request
head_needs_service_example =
    head_needs_service bit_provider head_request (node_at VmNodeStatus.empty false) refl refl
      (λ h. cc)
