-- ===== src/Tests/Heads.antt =====
-- The theorems on what the head node is told, at samples.
use ray_on_vcf.Prelude.{◌≡◌, refl, some}
use ray_on_vcf.Prelude.Dict.{lookup}
use ray_on_vcf.Vmop.{get_vm_class}
use ray_on_vcf.Vmop.CloudInit.{Node, CloudConfig, get_ray_bootstrap_config, set_docker_command}
use ray_on_vcf.Vmop.CloudInit.NodeTypes.{head_node_type_is_available}
use ray_on_vcf.Provider.Names.{get_head_node_name_injective}
use ray_on_vcf.Tests.Machines.{a_request}

abbrev a_config : CloudConfig
a_config = record {
  request = a_request;
  svc_acc_token = "token";
  secret_name = "ray-hsecret";
  ssh_pvt_key = "key";
  ca_crt = "certificate";
  ca_key = "ca key";
  docker_login_cmd = "";
}

head_node_type_is_available_example :
    (n : Node) × (lookup
        (set_docker_command (get_ray_bootstrap_config a_config) a_config).head_node_type
        (set_docker_command (get_ray_bootstrap_config a_config) a_config).available_node_types
      ≡ some n)
    × (n.vm_class ≡ "best-effort-small")
unfolding get_vm_class lookup
head_node_type_is_available_example = head_node_type_is_available a_config "best-effort-small" refl

-- The nonce of the sample request.
get_head_node_name_injective_example : a_request.nounce ≡ "abcde"
get_head_node_name_injective_example =
    get_head_node_name_injective "ray" a_request.nounce "abcde" refl
