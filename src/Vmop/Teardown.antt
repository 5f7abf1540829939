-- ===== src/Vmop/Teardown.antt =====
-- The deletion of what the provider made for a cluster or a node.
use Prim.Native.String.{◌++◌}
use ray_on_vcf.Prelude.{◌≡◌, String, List, [], ◌∷◌, arith, All}
use ray_on_vcf.Go.{ok}
use ray_on_vcf.Kube.{ObjectKey, Client}
use ray_on_vcf.Vmop.{delete_auxiliary_resources, delete, delete_vm_service}
use ray_on_vcf.Vmop.Rbac.{delete_service_account_and_role}
use ray_on_vcf.Vmop.Secrets.{
  delete_secret, delete_all_cloud_init_secret, get_ssh_keys_secret_name, worker_node_secret_suffix,
  head_node_secret_suffix,
}
use ray_on_vcf.Tls.{root_ca_secret_suffix, tls_secret_suffix}
use ray_on_vcf.Vmop.Server.{Thing, Missing, IsMissing, IsGone, Deletes, Achieves, then-Achieves}
use ray_on_vcf.Vmop.Deletion.{delete_if_found-Achieves, ignoring-Achieves, missing_stays}

-- The server's deletions, for the kinds that the provider deletes.
pub record Server {W : Type 0} (client : Client W) (settle : W → W) : Type 0 where
  pub secrets : Deletes client settle client.secrets
  pub accounts : Deletes client settle client.service_accounts
  pub roles : Deletes client settle client.roles
  pub bindings : Deletes client settle client.role_bindings
  pub machines : Deletes client settle client.virtual_machines
  pub services : Deletes client settle client.vm_services

abbrev pub key : String → String → ObjectKey
key namespace name = record { namespace = namespace; name = name }

-- What a cluster leaves behind besides its virtual machines.
abbrev pub auxiliary : String → String → List Thing
auxiliary namespace name =
    Thing.secret (key namespace (get_ssh_keys_secret_name name))
    ∷ Thing.secret (key namespace (name ++ worker_node_secret_suffix))
    ∷ Thing.secret (key namespace (name ++ root_ca_secret_suffix))
    ∷ Thing.secret (key namespace (name ++ tls_secret_suffix))
    ∷ Thing.secret (key namespace (name ++ head_node_secret_suffix))
    ∷ Thing.role_binding (key namespace name)
    ∷ Thing.role (key namespace name)
    ∷ Thing.service_account (key namespace name)
    ∷ []

module _ {W : Type 0} (client : Client W) (settle : W → W) (server : Server client settle) where
  delete_secret-Achieves :
      (namespace name : String)
      → Achieves
          (IsGone client settle)
          (Thing.secret (key namespace name) ∷ [])
          (delete_secret client namespace name)
  unfolding delete_secret IsMissing
  delete_secret-Achieves namespace name =
      delete_if_found-Achieves client settle client.secrets server.secrets (key namespace name)
        (Thing.secret (key namespace name)) (λ w m. m)

  delete_all_cloud_init_secret-Achieves :
      (namespace name : String)
      → Achieves
          (IsGone client settle)
          (Thing.secret (key namespace (get_ssh_keys_secret_name name))
            ∷ Thing.secret (key namespace (name ++ worker_node_secret_suffix))
            ∷ Thing.secret (key namespace (name ++ root_ca_secret_suffix))
            ∷ Thing.secret (key namespace (name ++ tls_secret_suffix))
            ∷ Thing.secret (key namespace (name ++ head_node_secret_suffix))
            ∷ [])
          (delete_all_cloud_init_secret client namespace name)
  unfolding delete_all_cloud_init_secret
  delete_all_cloud_init_secret-Achieves namespace name =
      let P = IsGone client settle in
      let one = delete_secret-Achieves namespace in
      then-Achieves P _ _ _ _ (one (get_ssh_keys_secret_name name)) (
        then-Achieves P _ _ _ _ (one (name ++ worker_node_secret_suffix)) (
          then-Achieves P _ _ _ _ (one (name ++ root_ca_secret_suffix)) (
            then-Achieves P _ _ _ _ (one (name ++ tls_secret_suffix))
              (one (name ++ head_node_secret_suffix)))))

  delete_service_account_and_role-Achieves :
      (namespace name : String)
      → Achieves
          (IsGone client settle)
          (Thing.role_binding (key namespace name)
            ∷ Thing.role (key namespace name)
            ∷ Thing.service_account (key namespace name)
            ∷ [])
          (delete_service_account_and_role client namespace name)
  unfolding delete_service_account_and_role IsMissing
  delete_service_account_and_role-Achieves namespace name =
      let P = IsGone client settle in
      let k = key namespace name in
      then-Achieves P _ _ _ _
        (delete_if_found-Achieves client settle client.role_bindings server.bindings k
          (Thing.role_binding k) (λ w m. m))
        (then-Achieves P _ _ _ _
          (delete_if_found-Achieves client settle client.roles server.roles k (Thing.role k)
            (λ w m. m))
          (delete_if_found-Achieves client settle client.service_accounts server.accounts k
            (Thing.service_account k) (λ w m. m)))

  pub auxiliary-Achieves :
      (namespace name : String)
      → Achieves
          (IsGone client settle)
          (auxiliary namespace name)
          (delete_auxiliary_resources client namespace name)
  unfolding delete_auxiliary_resources
  auxiliary-Achieves namespace name =
      then-Achieves (IsGone client settle) _ _ _ _
        (delete_all_cloud_init_secret-Achieves namespace name)
        (delete_service_account_and_role-Achieves namespace name)

  -- After the auxiliary resources were deleted without an error, and once the server has completed
  -- the deletions, none of the cluster's five secrets is there, and neither are its role binding,
  -- role and service account.
  pub nothing_is_left :
      (namespace name : String) (w : W)
      → (delete_auxiliary_resources client namespace name w).0 ≡ ok tt
      → All
          (λ t. IsGone client settle t (delete_auxiliary_resources client namespace name w).1)
          (auxiliary namespace name)
  nothing_is_left namespace name w h = (auxiliary-Achieves namespace name).achieved w h

  pub delete-Achieves :
      (namespace name : String)
      → Achieves
          (IsGone client settle)
          (Thing.vm_service (key namespace name) ∷ Thing.virtual_machine (key namespace name) ∷ [])
          (delete client namespace name)
  unfolding delete delete_vm_service IsMissing
  delete-Achieves namespace name =
      let k = key namespace name in
      then-Achieves (IsGone client settle) _ _ _ _
        (ignoring-Achieves client settle client.vm_services server.services k (Thing.vm_service k)
          (λ w m. m))
        (delete_if_found-Achieves client settle client.virtual_machines server.machines k
          (Thing.virtual_machine k) (λ w m. m))

  -- After `Delete` of a node succeeded, and once the server has completed the deletions, neither a
  -- service of its name nor its virtual machine is there.
  pub delete-Missing :
      (namespace name : String) (w : W)
      → (delete client namespace name w).0 ≡ ok tt
      → Missing client.vm_services (key namespace name) (settle (delete client namespace name w).1)
        × Missing client.virtual_machines
            (key namespace name)
            (settle (delete client namespace name w).1)
  unfolding IsMissing
  delete-Missing namespace name w h =
      let (s, (m, _)) = (delete-Achieves namespace name).achieved w h in (s, m)

module _ {W : Type 0} (client : Client W) where
  -- When none of a cluster's eight auxiliary resources is there, deleting them does nothing and
  -- succeeds.
  pub nothing_to_delete :
      (namespace name : String) (w : W)
      → All (λ t. IsMissing client t w) (auxiliary namespace name)
      → delete_auxiliary_resources client namespace name w ≡ (ok tt, w)
  unfolding delete_auxiliary_resources delete_all_cloud_init_secret delete_service_account_and_role
      delete_secret IsMissing
  nothing_to_delete namespace name w (s1, (s2, (s3, (s4, (s5, (rb, (ro, (sa, _)))))))) = ground (
    arith,
    missing_stays client.secrets (key namespace (get_ssh_keys_secret_name name)) w s1,
    missing_stays client.secrets (key namespace (name ++ worker_node_secret_suffix)) w s2,
    missing_stays client.secrets (key namespace (name ++ root_ca_secret_suffix)) w s3,
    missing_stays client.secrets (key namespace (name ++ tls_secret_suffix)) w s4,
    missing_stays client.secrets (key namespace (name ++ head_node_secret_suffix)) w s5,
    missing_stays client.role_bindings (key namespace name) w rb,
    missing_stays client.roles (key namespace name) w ro,
    missing_stays client.service_accounts (key namespace name) w sa,
  )
