-- ===== src/Vmop/Untouched.antt =====
-- What the provider's operations leave alone: all that the calls for other objects than clusters do.
use ray_on_vcf.Prelude.{refl, arith, String, inl, inr, is_some, map, [], ◌∷◌}
use ray_on_vcf.Go.{Exec, pure, Result-cases}
use ray_on_vcf.Kube.{ObjectKey, VirtualMachineService, Client, Host}
use ray_on_vcf.Kube.Frame.{Leaves, LeavesOthers, bind-Leaves, pure-Leaves, when-Leaves}
use ray_on_vcf.Provider.{VmDeploymentRequest, get_head_node_name}
use ray_on_vcf.Vmop.{
  get_vm_class, head_vm_service_annotation, service_port, service_ports, deploy, deploy_vm_service,
  create_vm_service, delete, delete_vm_service, fetch_vm_status, delete_auxiliary_resources,
}
use ray_on_vcf.Vmop.CloudInit.{get_ray_port}
use ray_on_vcf.Vmop.CloudInit.Files.{Encoders}
use ray_on_vcf.Vmop.Rbac.{create_service_account_and_role, delete_service_account_and_role}
use ray_on_vcf.Vmop.Secrets.{delete_secret, delete_all_cloud_init_secret}
use ray_on_vcf.Vmop.Frame.{
  create_if_missing-Leaves, delete_if_found-Leaves, ignoring-Leaves, create_secret-Leaves,
}
use ray_on_vcf.Provider.Frame.{ProviderLeaves}
use ray_on_vcf.Vmop.{new_vm_operator_provider}

module _ {W X : Type 0} (see : W → X) (client : Client W) (host : Host W)
    (law : LeavesOthers see client host) where
  account-Leaves :
      (namespace name : String) → Leaves see (create_service_account_and_role client namespace name)
  unfolding create_service_account_and_role
  account-Leaves namespace name =
      bind-Leaves see _ _ (create_if_missing-Leaves see client.service_accounts law.accounts _ _)
        (λ _.
          bind-Leaves see _ _ (create_if_missing-Leaves see client.roles law.roles _ _)
            (λ _. create_if_missing-Leaves see client.role_bindings law.bindings _ _))

  pub deploy-Leaves :
      (encoders : Encoders) (r : VmDeploymentRequest) → Leaves see (deploy client host encoders r)
  unfolding deploy
  deploy-Leaves encoders r =
      let find : Exec W String = λ w. (get_vm_class r.node_type r.node_config, w) in
      bind-Leaves see _ _
        (when-Leaves see (is_some r.head_node_status) (pure tt) _ (pure-Leaves see tt)
          (account-Leaves r.namespace r.cluster_name))
        (λ _. bind-Leaves see _ _ (create_secret-Leaves see client host law encoders r) (λ secret.
          bind-Leaves see find _ (record { same = λ w. refl })
            (λ vm_class. bind-Leaves see _ _ (law.machines.create _) (λ vm. pure-Leaves see tt))))

  -- The service that `DeployVmService` makes.
  abbrev vm_service_of : VmDeploymentRequest → VirtualMachineService
  vm_service_of r =
      let name = get_head_node_name r.cluster_name r.nounce in
      record {
        key = record { namespace = r.namespace; name = name };
        selector = (head_vm_service_annotation, name) ∷ [];
        ports = map service_port (service_ports (get_ray_port r));
        type = "LoadBalancer";
        ingress = [];
      }

  pub service-Leaves : (r : VmDeploymentRequest) → Leaves see (deploy_vm_service client r)
  unfolding deploy_vm_service create_vm_service
  service-Leaves r =
      let k : ObjectKey = record {
        namespace = r.namespace;
        name = get_head_node_name r.cluster_name r.nounce;
      } in
      record {
        same = λ w. elim (Result-cases (client.vm_services.get k w).0) [
          | inl (s, e) ↦ ground (arith, (law.services.get k).same w)
          | inr (x, e) ↦ ground (
            arith,
            (law.services.get k).same w,
            (law.services.create (vm_service_of r)).same (client.vm_services.get k w).1,
          )
        ];
      }

  pub delete-Leaves : (namespace name : String) → Leaves see (delete client namespace name)
  unfolding delete delete_vm_service
  delete-Leaves namespace name =
      bind-Leaves see _ _
        (ignoring-Leaves see client.vm_services law.services _
          (delete_if_found-Leaves see client.vm_services law.services _))
        (λ _. delete_if_found-Leaves see client.virtual_machines law.machines _)

  pub fetch-Leaves : (namespace name : String) → Leaves see (fetch_vm_status client namespace name)
  unfolding fetch_vm_status
  fetch-Leaves namespace name = bind-Leaves see _ _ (law.machines.get _) (λ vm. pure-Leaves see _)

  secret-Leaves : (namespace name : String) → Leaves see (delete_secret client namespace name)
  unfolding delete_secret
  secret-Leaves namespace name = delete_if_found-Leaves see client.secrets law.secrets _

  pub auxiliary-Leaves :
      (namespace name : String) → Leaves see (delete_auxiliary_resources client namespace name)
  unfolding delete_auxiliary_resources delete_all_cloud_init_secret delete_service_account_and_role
  auxiliary-Leaves namespace name =
      bind-Leaves see _ _
        (bind-Leaves see _ _ (secret-Leaves _ _) (λ _. bind-Leaves see _ _ (secret-Leaves _ _) (λ _.
          bind-Leaves see _ _ (secret-Leaves _ _)
            (λ _. bind-Leaves see _ _ (secret-Leaves _ _) (λ _. secret-Leaves _ _)))))
        (λ _.
          bind-Leaves see _ _ (delete_if_found-Leaves see client.role_bindings law.bindings _) (λ _.
            bind-Leaves see _ _ (delete_if_found-Leaves see client.roles law.roles _)
              (λ _. delete_if_found-Leaves see client.service_accounts law.accounts _)))

  pub vmop-Leaves :
      (encoders : Encoders) → ProviderLeaves see (new_vm_operator_provider client host encoders)
  unfolding new_vm_operator_provider
  vmop-Leaves encoders = record {
    deploy = deploy-Leaves encoders;
    service = service-Leaves;
    delete = delete-Leaves;
    fetch = fetch-Leaves;
    auxiliary = auxiliary-Leaves;
  }
