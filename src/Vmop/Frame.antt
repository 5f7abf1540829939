-- ===== src/Vmop/Frame.antt =====
-- What the helpers of the provider leave alone: all that the calls for other objects than clusters do.
use ray_on_vcf.Prelude.{arith, String, inl, inr, [], ◌∷◌}
use ray_on_vcf.Go.{Exec, Result, ok, err, pure, ignoring_not_found, ◌>>=◌, ◌>>◌, Result-cases}
use ray_on_vcf.Kube.{ObjectKey, Secret, Resource, Client, Host}
use ray_on_vcf.Kube.Frame.{
  Leaves, LeavesAll, LeavesOthers, bind-Leaves, pure-Leaves, attempt-Leaves,
}
use ray_on_vcf.Tls.{
  ca_template, root_secret, root_secret_key, create_root_secret, make_root_secret,
  read_ca_crt_and_ca_key,
}
use ray_on_vcf.Vmop.DockerAuth.{get_docker_login_cmd}
use ray_on_vcf.Provider.{VmDeploymentRequest}
use ray_on_vcf.Vmop.CloudInit.{CloudConfig}
use ray_on_vcf.Vmop.CloudInit.Files.{Encoders, create_cloud_init_config_secret}
use ray_on_vcf.Vmop.Rbac.{create_if_missing, delete_if_found}
use ray_on_vcf.Vmop.Secrets.{
  submit_secret, ssh_key_for, secret_answer, node_secret_name, fetch_service_account_token,
  get_ssh_keys_secret_name, ssh_private_key, create_private_ssh_key, read_private_key_for_cluster,
  get_or_create_private_key_secret, make_cloud_init_secret, create_cloud_init_secret,
}

module _ {W O X : Type 0} (see : W → X) (resource : Resource W O)
    (law : LeavesAll see resource) where
  pub create_if_missing-Leaves :
      (k : ObjectKey) (o : O) → Leaves see (create_if_missing resource k o)
  unfolding create_if_missing
  create_if_missing-Leaves k o = record {
    same = λ w. ground (arith, (law.get k).same w, (law.create o).same (resource.get k w).1);
  }

  pub delete_if_found-Leaves : (k : ObjectKey) → Leaves see (delete_if_found resource k)
  unfolding delete_if_found
  delete_if_found-Leaves k = record {
    same = λ w. elim (Result-cases (resource.get k w).0) [
      | inl (o, e) ↦ ground (arith, (law.get k).same w, (law.delete o).same (resource.get k w).1)
      | inr (x, e) ↦ ground (arith, (law.get k).same w)
    ];
  }

  pub ignoring-Leaves : (m : Exec W Unit) → Leaves see m → Leaves see (ignoring_not_found m)
  unfolding ignoring_not_found
  ignoring-Leaves m l = record { same = λ w. ground (arith, l.same w) }

module _ {W X : Type 0} (see : W → X) (client : Client W) (host : Host W)
    (law : LeavesOthers see client host) where
  read_key-Leaves :
      (namespace name : String) → Leaves see (read_private_key_for_cluster client namespace name)
  unfolding read_private_key_for_cluster
  read_key-Leaves namespace name = record {
    same = λ w. ground (
      arith,
      (law.secrets.get
            (record { namespace = namespace; name = get_ssh_keys_secret_name name })).same
          w,
    );
  }

  create_key-Leaves : Leaves see (create_private_ssh_key client host)
  unfolding create_private_ssh_key
  create_key-Leaves = record { same = λ w. ground (arith, (law.generated 2048).same w) }

  store_key-Leaves :
      (secret : String → Secret)
      → Leaves see (
          create_private_ssh_key client host >>= λ key.
          client.secrets.create (secret key) >> pure key)
  store_key-Leaves secret =
      bind-Leaves see (create_private_ssh_key client host)
        (λ key. client.secrets.create (secret key) >> pure key) create_key-Leaves
        (λ key.
          bind-Leaves see (client.secrets.create (secret key)) (λ _. pure key)
            (law.secrets.create (secret key)) (λ _. pure-Leaves see key))

  get_key-Leaves :
      (namespace name : String)
      → Leaves see (get_or_create_private_key_secret client host namespace name)
  unfolding get_or_create_private_key_secret
  get_key-Leaves namespace name =
      let secret = λ (pvt_key : String).
        let s : Secret = record {
          key = record { namespace = namespace; name = get_ssh_keys_secret_name name };
          content = [];
          string_data = (ssh_private_key, pvt_key) ∷ [];
        } in
        s in
      record {
        same = λ w. ground (
          arith,
          (read_key-Leaves namespace name).same w,
          (store_key-Leaves secret).same (read_private_key_for_cluster client namespace name w).1,
        );
      }

  read_ca-Leaves :
      (namespace name : String) → Leaves see (read_ca_crt_and_ca_key client namespace name)
  unfolding read_ca_crt_and_ca_key
  read_ca-Leaves namespace name = record {
    same = λ w.
        ground (arith, (law.secrets.get (record { namespace = namespace; name = name })).same w);
  }

  login-Leaves : (namespace name : String) → Leaves see (get_docker_login_cmd client namespace name)
  unfolding get_docker_login_cmd
  login-Leaves namespace name = record {
    same = λ w.
        ground (arith, (law.secrets.get (record { namespace = namespace; name = name })).same w);
  }

  make_root-Leaves : (k : ObjectKey) → Leaves see (make_root_secret client host k)
  unfolding make_root_secret
  make_root-Leaves k = record {
    same = λ w.
        let ca = ca_template host w in
        (bind-Leaves see (host.generate_key 4096)
            (λ key. host.create_certificate ca key >>= λ cert.
              client.secrets.create (root_secret host k key cert) >> pure tt)
            (law.generated 4096)
            (λ key.
              bind-Leaves see (host.create_certificate ca key)
                (λ cert. client.secrets.create (root_secret host k key cert) >> pure tt)
                (law.certified ca key)
                (λ cert.
                  bind-Leaves see (client.secrets.create (root_secret host k key cert))
                    (λ _. pure tt) (law.secrets.create _) (λ _. pure-Leaves see tt)))).same
          w;
  }

  pub create_root_secret-Leaves :
      (namespace name : String) → Leaves see (create_root_secret client host namespace name)
  unfolding create_root_secret
  create_root_secret-Leaves namespace name =
      let k = root_secret_key namespace name in
      record {
        same = λ w. ground (
          arith,
          (law.secrets.get k).same w,
          (make_root-Leaves k).same (client.secrets.get k w).1,
        );
      }

  submit-Leaves :
      (encoders : Encoders) (c : CloudConfig) → Leaves see (submit_secret client host encoders c)
  submit-Leaves encoders c = record {
    same = λ w. elim (Result-cases (create_cloud_init_config_secret encoders c)) [
      | inl (s, e) ↦ ground (arith, (law.secrets.create s).same w)
      | inr (x, e) ↦ ground arith
    ];
  }

  ssh_key-Leaves :
      (encoders : Encoders) (r : VmDeploymentRequest)
      → Leaves see (ssh_key_for client host encoders r)
  ssh_key-Leaves encoders r = record {
    same = λ w. ground (
      arith,
      (get_key-Leaves r.namespace r.cluster_name).same w,
      (read_key-Leaves r.namespace r.cluster_name).same w,
    );
  }

  make_secret-Leaves :
      (encoders : Encoders) (r : VmDeploymentRequest) (name key : String)
      → Leaves see (make_cloud_init_secret client host encoders r name key)
  unfolding make_cloud_init_secret fetch_service_account_token
  make_secret-Leaves encoders r name key =
      let submit = λ (c : CloudConfig). submit_secret client host encoders c in
      let config = λ (token : String) (ca : String × String) (login : String).
        let c : CloudConfig = record {
          request = r;
          svc_acc_token = token;
          secret_name = name;
          ssh_pvt_key = key;
          ca_crt = ca.1;
          ca_key = ca.0;
          docker_login_cmd = login;
        } in
        c in
      bind-Leaves see _ _ (law.token _ _) (λ token. bind-Leaves see _ _ (read_ca-Leaves _ _) (λ ca.
        bind-Leaves see _ _ (login-Leaves _ _)
          (λ login. submit-Leaves encoders (config token ca login))))

  secret_answer-Leaves :
      (encoders : Encoders) (r : VmDeploymentRequest) (key : String) (found : Result Secret)
      → Leaves see (secret_answer client host encoders r key found)
  secret_answer-Leaves encoders r key (ok secret) = pure-Leaves see secret
  secret_answer-Leaves encoders r key (err e) = record {
    same = λ w. ground (
      arith,
      (make_secret-Leaves encoders r (node_secret_name client host encoders r) key).same w,
    );
  }

  pub create_secret-Leaves :
      (encoders : Encoders) (r : VmDeploymentRequest)
      → Leaves see (create_cloud_init_secret client host encoders r)
  unfolding create_cloud_init_secret
  create_secret-Leaves encoders r = bind-Leaves see _ _ (ssh_key-Leaves encoders r) (λ key.
      bind-Leaves see _ _ (attempt-Leaves see _ (law.secrets.get _))
        (λ found. secret_answer-Leaves encoders r key found))
