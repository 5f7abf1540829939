-- ===== src/Vmop/Rbac.antt =====
-- `CreateServiceAccountAndRole` and `DeleteServiceAccountAndRole` of
-- vmray-cluster-operator/pkg/provider/vmop/utils/utils.go: the account of the autoscaler that runs
-- on the head node. An object is looked up before it is made, and before it is deleted.
use ray_on_vcf.Prelude.{String, none, some, [], ◌∷◌}
use ray_on_vcf.Go.{Exec, ok, err, pure, fail, attempt, ignore_not_found, ◌>>=◌, ◌>>◌}
use ray_on_vcf.Kube.{ObjectKey, Role, RoleBinding, Resource, Client}

-- `getVmRayClusterMutationRole`
unfoldable pub get_vm_ray_cluster_mutation_role : String → String → Role
get_vm_ray_cluster_mutation_role namespace name = record {
  key = record { namespace = namespace; name = name };
  rules =
      record {
        api_groups = "vmray.broadcom.com" ∷ [];
        resources = "vmrayclusters" ∷ [];
        verbs = "get" ∷ "patch" ∷ [];
      }
      ∷ record {
        api_groups = "vmoperator.vmware.com" ∷ [];
        resources = "virtualmachineservices" ∷ [];
        verbs = "get" ∷ [];
      }
      ∷ record { api_groups = "" ∷ []; resources = "secrets" ∷ []; verbs = "create" ∷ [] }
      ∷ [];
}

-- `getVmRayClusterMutationRoleBinding`
unfoldable pub get_vm_ray_cluster_mutation_role_binding : String → String → RoleBinding
get_vm_ray_cluster_mutation_role_binding namespace name = record {
  key = record { namespace = namespace; name = name };
  role_ref = record { api_group = "rbac.authorization.k8s.io"; kind = "Role"; name = name };
  subjects = record { kind = "ServiceAccount"; name = name; namespace = namespace } ∷ [];
}

module _ {W O : Type 0} (resource : Resource W O) where
  -- `Get`, and `Create` if the object is not there: the three steps of the creation.
  unfoldable pub create_if_missing : ObjectKey → O → Exec W Unit
  create_if_missing key object = do
    r ← attempt (resource.get key)
    elim r [
      | ok _ ↦ pure tt
      | err e ↦ elim (ignore_not_found e) [
        | some e' ↦ fail e'
        | none ↦ do resource.create object; pure tt
      ]
    ]

  -- `Get`, and `Delete` if the object is there: the three steps of the deletion, `deleteSecret`,
  -- `deleteVMService` and the last step of the provider's `Delete`.
  unfoldable pub delete_if_found : ObjectKey → Exec W Unit
  delete_if_found key = do
    r ← attempt (resource.get key)
    elim r [
      | ok object ↦ resource.delete object
      | err e ↦ elim (ignore_not_found e) [ some e' ↦ fail e' | none ↦ pure tt ]
    ]

module _ {W : Type 0} (client : Client W) where
  -- `CreateServiceAccountAndRole`
  unfoldable pub create_service_account_and_role : String → String → Exec W Unit
  create_service_account_and_role namespace name =
      let key : ObjectKey = record { namespace = namespace; name = name } in
      do
        create_if_missing client.service_accounts key (record { key = key })
        create_if_missing client.roles key (get_vm_ray_cluster_mutation_role namespace name)
        create_if_missing client.role_bindings key
            (get_vm_ray_cluster_mutation_role_binding namespace name)

  -- `DeleteServiceAccountAndRole`, in the opposite order.
  unfoldable pub delete_service_account_and_role : String → String → Exec W Unit
  delete_service_account_and_role namespace name =
      let key : ObjectKey = record { namespace = namespace; name = name } in
      do
        delete_if_found client.role_bindings key
        delete_if_found client.roles key
        delete_if_found client.service_accounts key
