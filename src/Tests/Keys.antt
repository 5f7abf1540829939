-- ===== src/Tests/Keys.antt =====
-- The theorems on ssh keys, head node names and deployed machines, at samples.
use ray_on_vcf.Prelude.{◌≡◌, refl, none, some, Option}
use ray_on_vcf.Prelude.Dict.{lookup}
use ray_on_vcf.Go.{ok}
use ray_on_vcf.Kube.{Secret, VirtualMachine, Client}
use ray_on_vcf.Vmop.{deploy, get_vm_class}
use ray_on_vcf.Vmop.Keys.{KeepsTexts, workers_read_the_key}
use ray_on_vcf.Vmop.Machine.{deploy_makes_machine, IsFor}
use ray_on_vcf.Vmop.Rbac.{create_service_account_and_role, create_if_missing}
use ray_on_vcf.Vmop.Secrets.{
  create_cloud_init_secret, get_or_create_private_key_secret, read_private_key_for_cluster,
  create_private_ssh_key,
}
use ray_on_vcf.Tests.Sample.{toy_client, toy_host, some_secret, toy_encoders}
use ray_on_vcf.Tests.Machines.{a_request}

-- A server on which the texts of a secret can be read as its content.
abbrev keeping_client : Client (Option Secret)
keeping_client = record toy_client {
  secrets = record toy_client.secrets {
    create = λ s w. (ok s, some (record s { content = s.string_data }));
  };
}

keeping_client-KeepsTexts : KeepsTexts keeping_client
keeping_client-KeepsTexts = record {
  reads = λ k w. refl;
  texts = λ s t w name value e h. (record s { content = s.string_data }, refl, h);
}

workers_read_the_key_example :
    (read_private_key_for_cluster keeping_client "ns" "ray"
      (get_or_create_private_key_secret keeping_client toy_host "ns" "ray" none).1).0
    ≡ (get_or_create_private_key_secret keeping_client toy_host "ns" "ray" none).0
unfolding get_or_create_private_key_secret read_private_key_for_cluster create_private_ssh_key
    lookup
workers_read_the_key_example =
    workers_read_the_key keeping_client toy_host keeping_client-KeepsTexts "ns" "ray" none _ refl

deploy_makes_machine_example :
    (secret : Secret) × (v : Option Secret) × (vm accepted : VirtualMachine) × IsFor toy_client
      toy_host toy_encoders a_request secret vm
    × ((create_cloud_init_secret toy_client toy_host toy_encoders a_request v).0 ≡ ok secret)
    × (toy_client.virtual_machines.create vm
          (create_cloud_init_secret toy_client toy_host toy_encoders a_request v).1
        ≡ (ok accepted, (deploy toy_client toy_host toy_encoders a_request (some some_secret)).1))
unfolding deploy create_service_account_and_role create_if_missing create_cloud_init_secret
    get_or_create_private_key_secret read_private_key_for_cluster get_vm_class lookup
deploy_makes_machine_example =
    deploy_makes_machine toy_client toy_host toy_encoders a_request (some some_secret) refl
