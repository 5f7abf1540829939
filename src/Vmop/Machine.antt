-- ===== src/Vmop/Machine.antt =====
-- `Deploy`: the machine that it makes.
use ray_on_vcf.Prelude.{
  Option-cases, refl, inl, inr, arith, ◌≡◌, sym, ◌∙◌, ap, String, some, none, [], ◌∷◌, is_some,
}
use ray_on_vcf.Prelude.Dict.{Dict, lookup}
use ray_on_vcf.Go.{ok, Exec, pure, bind_inv, ◌>>=◌, ◌>>◌, when◌then◌else◌}
use ray_on_vcf.Api.{NodeType}
use ray_on_vcf.Kube.{Secret, VirtualMachine, Client, Host}
use ray_on_vcf.Provider.{VmDeploymentRequest}
use ray_on_vcf.Vmop.{deploy, get_vm_class, translate_to_vm_crd, head_vm_service_annotation}
use ray_on_vcf.Vmop.CloudInit.Files.{Encoders}
use ray_on_vcf.Vmop.Rbac.{create_service_account_and_role}
use ray_on_vcf.Vmop.Secrets.{create_cloud_init_secret}

module _ {W : Type 0} (client : Client W) (host : Host W) (encoders : Encoders)
    (r : VmDeploymentRequest) where
  -- The labels of the machine: the head's are those that its service selects.
  abbrev labels : Dict String
  labels = elim r.head_node_status [
    | none ↦ (head_vm_service_annotation, r.vm_name) ∷ []
    | some _ ↦ []
  ]

  -- The machine that boots from a secret of that name.
  abbrev machine : String → String → VirtualMachine
  machine secret_name vm_class =
      translate_to_vm_crd r.namespace r.vm_name secret_name labels vm_class r.node_config

  abbrev set_up : Exec W Unit
  set_up =
      when is_some r.head_node_status
      then pure tt
      else create_service_account_and_role client r.namespace r.cluster_name

  abbrev find_class : Exec W String
  find_class w = (get_vm_class r.node_type r.node_config, w)

  abbrev submit : Secret → String → Exec W Unit
  submit secret vm_class =
      client.virtual_machines.create (machine secret.key.name vm_class) >> pure tt

  created :
      (w : W)
      → (deploy client host encoders r w).0 ≡ ok tt
      → (secret : Secret) × (vm_class : String) × (v : W) × (vm : VirtualMachine)
        × ((create_cloud_init_secret client host encoders r v).0 ≡ ok secret)
        × (get_vm_class r.node_type r.node_config ≡ ok vm_class)
        × ((deploy client host encoders r w).1
            ≡ (client.virtual_machines.create
                (machine secret.key.name vm_class)
                (create_cloud_init_secret client host encoders r v).1).1)
        × ((client.virtual_machines.create
              (machine secret.key.name vm_class)
              (create_cloud_init_secret client host encoders r v).1).0
            ≡ ok vm)
  unfolding deploy
  created w h =
      let with_secret = λ (secret : Secret). find_class >>= submit secret in
      let (a, e1, x1) =
        bind_inv set_up (λ _. create_cloud_init_secret client host encoders r >>= with_secret) w
          h in
      let w1 = (set_up w).1 in
      let (secret, e2, x2) =
        bind_inv (create_cloud_init_secret client host encoders r) with_secret w1
          (sym (ap (λ o. o.0) x1) ∙ h) in
      let w2 = (create_cloud_init_secret client host encoders r w1).1 in
      let (vm_class, e3, x3) =
        bind_inv find_class (submit secret) w2 (sym (ap (λ o. o.0) (x1 ∙ x2)) ∙ h) in
      let (vm, e4, x4) =
        bind_inv (client.virtual_machines.create (machine secret.key.name vm_class)) (λ _. pure tt)
          w2 (sym (ap (λ o. o.0) (x1 ∙ x2 ∙ x3)) ∙ h) in
      (secret, vm_class, w1, vm, e2, e3, ap (λ o. o.1) (x1 ∙ x2 ∙ x3 ∙ x4), e4)

  class_inv :
      (vm_class : String)
      → get_vm_class r.node_type r.node_config ≡ ok vm_class
      → (nt : NodeType) × (lookup r.node_type r.node_config.node_types ≡ some nt)
        × (nt.vm_class ≡ vm_class)
  unfolding get_vm_class
  class_inv vm_class h = elim (Option-cases (lookup r.node_type r.node_config.node_types)) [
    | inl e ↦ cc
    | inr (nt, e) ↦ (nt, e, ground arith)
  ]

  -- What a machine of the request is like: it has the request's name, image, storage class and
  -- network, is of the VM class that the cluster gives to the node type, is to be powered on, and
  -- boots from the user data of the secret; a head, and no worker, has the label by which the VM
  -- service of its name selects it.
  pub record IsFor (secret : Secret) (vm : VirtualMachine) : Type 0 where
    pub namespace : vm.key.namespace ≡ r.namespace
    pub name : vm.key.name ≡ r.vm_name
    pub image : vm.image_name ≡ r.node_config.vm_image
    pub storage : vm.storage_class ≡ r.node_config.storage_class
    pub network : vm.network ≡ r.node_config.network
    pub node_type : NodeType
    pub of_type : lookup r.node_type r.node_config.node_types ≡ some node_type
    pub class : vm.class_name ≡ node_type.vm_class
    pub power : vm.power_state ≡ "PoweredOn"
    pub boots_from : vm.cloud_config_secret ≡ secret.key.name
    pub boots_with : vm.cloud_config_key ≡ "user-data"
    pub selected :
        lookup "vmray.kubernetes.io/ray-cluster-head" vm.labels
        ≡ elim r.head_node_status [ none ↦ some r.vm_name | some _ ↦ none ]

  -- A deployment that succeeds has ended with the creation of one machine, which the server
  -- accepted: it is for the request, and boots from the secret that `CreateCloudInitSecret`, called
  -- just before, has returned.
  pub deploy_makes_machine :
      (w : W)
      → (deploy client host encoders r w).0 ≡ ok tt
      → (secret : Secret) × (v : W) × (vm accepted : VirtualMachine) × IsFor secret vm
        × ((create_cloud_init_secret client host encoders r v).0 ≡ ok secret)
        × (client.virtual_machines.create vm (create_cloud_init_secret client host encoders r v).1
            ≡ (ok accepted, (deploy client host encoders r w).1))
  unfolding translate_to_vm_crd lookup
  deploy_makes_machine w h =
      let (secret, vm_class, v, accepted, made, class, out, answer) = created w h in
      let (nt, found, is_class) = class_inv vm_class class in
      (
        secret,
        v,
        machine secret.key.name vm_class,
        accepted,
        record {
          namespace = refl;
          name = refl;
          image = refl;
          storage = refl;
          network = refl;
          node_type = nt;
          of_type = found;
          class = sym is_class;
          power = refl;
          boots_from = refl;
          boots_with = refl;
          selected = ground arith;
        },
        made,
        ground (arith, out, answer),
      )
