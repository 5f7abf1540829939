-- ===== src/Vmop/Service.antt =====
-- `DeployVmService`: the address of the head node's load balancer.
use ray_on_vcf.Prelude.{
  ◌≡◌, inl, inr, false, String, List, [], ◌∷◌, arith, ◌==◌, List-cases, eq_refl, ◌∙◌, ap,
}
use ray_on_vcf.Go.{Error, ok, err, Result-cases}
use ray_on_vcf.Kube.{ObjectKey, VirtualMachineService, Client}
use ray_on_vcf.Provider.{VmDeploymentRequest, get_head_node_name}
use ray_on_vcf.Vmop.{
  deploy_vm_service, create_vm_service, service_ports, head_vm_service_annotation,
}
use ray_on_vcf.Vmop.CloudInit.{get_ray_port}

-- The key of the service of a request's head node.
abbrev pub service_key : VmDeploymentRequest → ObjectKey
service_key r = record {
  namespace = r.namespace;
  name = get_head_node_name r.cluster_name r.nounce;
}

module _ {W : Type 0} (client : Client W) (r : VmDeploymentRequest) (w : W) where
  found :
      (s : VirtualMachineService)
      → (client.vm_services.get (service_key r) w).0 ≡ ok s
      → (i : String) (rest : List String) → s.ingress ≡ i ∷ rest
      → (ip : String) → (deploy_vm_service client r w).0 ≡ ok ip
      → i ≡ ip
  unfolding deploy_vm_service
  found s e i rest q ip h = ground arith

  no_address :
      (s : VirtualMachineService)
      → (client.vm_services.get (service_key r) w).0 ≡ ok s
      → s.ingress ≡ []
      → (deploy_vm_service client r w).0
        ≡ err (Error.plain "Head node VM service IP is not assigned")
  unfolding deploy_vm_service
  no_address s e q = ground arith

  no_service :
      (x : Error)
      → (client.vm_services.get (service_key r) w).0 ≡ err x
      → (ip : String) → (deploy_vm_service client r w).0 ≡ ok ip
      → "" ≡ ip
  unfolding deploy_vm_service
  no_service x e ip h =
      let w' = (client.vm_services.get (service_key r) w).1 in
      let n = (service_key r).name in
      let made =
        (create_vm_service client r.namespace n (service_ports (get_ray_port r))
          ((head_vm_service_annotation, n) ∷ []) w').0 in
      elim (Result-cases made) [ inl (a, c) ↦ ground arith | inr (y, c) ↦ ground arith ]

  -- An address that `DeployVmService` returns, if it is not empty, is the first one of the
  -- service that the server has.
  pub deploy_vm_service-ok :
      (ip : String)
      → (deploy_vm_service client r w).0 ≡ ok ip
      → (ip == "") ≡ false
      → (s : VirtualMachineService) × (rest : List String) × ((client.vm_services.get
            (service_key r)
            w).0
          ≡ ok s)
        × (s.ingress ≡ ip ∷ rest)
  unfolding deploy_vm_service
  deploy_vm_service-ok ip h p = elim (Result-cases (client.vm_services.get (service_key r) w).0) [
    | inl (s, e) ↦ elim (List-cases s.ingress) [
      | inl q ↦ cc (no_address s e q, h)
      | inr (i, rest, q) ↦ (s, rest, e, q ∙ ap (λ a. a ∷ rest) (found s e i rest q ip h))
    ]
    | inr (x, e) ↦ cc (no_service x e ip h, eq_refl "", p)
  ]
