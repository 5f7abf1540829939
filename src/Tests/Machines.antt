-- ===== src/Tests/Machines.antt =====
-- The provider's theorems, and those of the root certificate and of indentation, at samples.
use Prim.Native.String.{◌++◌}
use ray_on_vcf.Prelude.{◌≡◌, refl, String, true, none, some, List, ◌∷◌, All, map}
use ray_on_vcf.Go.{ok}
use ray_on_vcf.Go.Format.{concat, split_after}
use ray_on_vcf.Kube.{VirtualMachineService}
use ray_on_vcf.Provider.{VmDeploymentRequest, RayClusterRequestor}
use ray_on_vcf.Tls.{make_root_secret, create_root_secret, read_ca_crt_and_ca_key}
use ray_on_vcf.Tls.RootSecret.{create-read}
use ray_on_vcf.Vmop.{deploy_vm_service}
use ray_on_vcf.Vmop.CloudInit.{add_indentation}
use ray_on_vcf.Vmop.CloudInit.Indentation.{indent, split_after-add_indentation}
use ray_on_vcf.Vmop.Rbac.{create_if_missing, create_service_account_and_role}
use ray_on_vcf.Vmop.Server.{IsPresent}
use ray_on_vcf.Vmop.Service.{service_key, deploy_vm_service-ok}
use ray_on_vcf.Vmop.Setup.{account, set_up_once}
use ray_on_vcf.Tests.Sample.{toy_client, toy_host, absent, some_secret, a_cluster}
use ray_on_vcf.Tests.Laws.{toy_client-Accounts, toy_client-StoresSecrets}

set_up_once_example :
    All
      (λ t. IsPresent toy_client t (create_service_account_and_role toy_client "ns" "ray" none).1)
      (account "ns" "ray")
    × (create_service_account_and_role toy_client "ns" "ray"
          (create_service_account_and_role toy_client "ns" "ray" none).1
        ≡ (ok tt, (create_service_account_and_role toy_client "ns" "ray" none).1))
unfolding create_service_account_and_role create_if_missing
set_up_once_example = set_up_once toy_client "ns" "ray" toy_client-Accounts none refl

abbrev pub a_request : VmDeploymentRequest
a_request = record {
  cluster_name = "ray";
  docker_image = a_cluster.spec.image;
  namespace = "ns";
  nounce = "abcde";
  vm_name = "ray-h-abcde";
  node_type = "small";
  api_server = a_cluster.spec.api_server;
  enable_tls = true;
  head_node_config = a_cluster.spec.head_node;
  worker_node_config = a_cluster.spec.worker_node;
  node_config = a_cluster.spec.node_config;
  docker_config = a_cluster.spec.docker_config;
  head_node_status = none;
  ray_cluster_requestor = RayClusterRequestor.k8s;
  vm_service = "";
}

deploy_vm_service-ok_example :
    (s : VirtualMachineService) × (rest : List String) × ((toy_client.vm_services.get
        (service_key a_request)
        (some some_secret)).0
      ≡ ok s)
    × (s.ingress ≡ "10.0.0.1" ∷ rest)
unfolding deploy_vm_service
deploy_vm_service-ok_example =
    deploy_vm_service-ok toy_client a_request (some some_secret) "10.0.0.1" refl refl

create-read_example :
    (k cert : String) × ((read_ca_crt_and_ca_key toy_client "ns" "ray-root-cert"
        (create_root_secret toy_client toy_host "ns" "ray" none).1).0
      ≡ ok ("RSA PRIVATE KEY" ++ k, "CERTIFICATE" ++ cert))
unfolding create_root_secret make_root_secret
create-read_example =
    create-read toy_client toy_host "ns" "ray" none toy_client-StoresSecrets absent none refl refl
      refl

split_after-add_indentation_example :
    (split_after (add_indentation "a\nb" 5) ≡ map (indent 5) (split_after "a\nb"))
    × (concat (split_after "a\nb") ≡ "a\nb")
split_after-add_indentation_example = split_after-add_indentation "a\nb" 5
