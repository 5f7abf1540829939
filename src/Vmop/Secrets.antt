-- ===== src/Vmop/Secrets.antt =====
-- The secrets of vmray-cluster-operator/pkg/provider/vmop/utils/utils.go: the nodes' cloud-init
-- configuration, the ssh key of a cluster, and their deletion.
use Prim.Native.String.{◌++◌}
use ray_on_vcf.Prelude.{ℕ, ◌*◌, String, is_some, not, none, some, [], ◌∷◌, if◌then◌else◌}
use ray_on_vcf.Prelude.Dict.{lookup}
use ray_on_vcf.Go.{
  Error, Result, Exec, ok, err, pure, fail, attempt, ignore_not_found, ◌>>=◌, ◌>>◌, when◌then◌else◌,
}
use ray_on_vcf.Kube.{Secret, Client, Host}
use ray_on_vcf.Provider.{VmDeploymentRequest}
use ray_on_vcf.Tls.{read_ca_crt_and_ca_key, root_ca_secret_suffix, tls_secret_suffix}
use ray_on_vcf.Vmop.CloudInit.{CloudConfig}
use ray_on_vcf.Vmop.CloudInit.Files.{Encoders, create_cloud_init_config_secret}
use ray_on_vcf.Vmop.DockerAuth.{get_docker_login_cmd}
use ray_on_vcf.Vmop.Rbac.{delete_if_found}

abbrev pub head_node_secret_suffix : String
head_node_secret_suffix = "-hsecret"

abbrev pub worker_node_secret_suffix : String
worker_node_secret_suffix = "-wsecret"

abbrev pub ssh_private_key : String
ssh_private_key = "ssh-pvt-key"

-- `TokenExpirationRequest`, in seconds.
abbrev pub token_expiration_request : ℕ
token_expiration_request = 60 * 60 * 30 * 6

-- `GetSshKeysSecretName`
unfoldable pub get_ssh_keys_secret_name : String → String
get_ssh_keys_secret_name name = name ++ "-ssh-key"

-- `error_tmpl_pvt_key` with its three texts.
unfoldable pub error_pvt_key : String → String → Error
error_pvt_key namespace name = Error.plain (
    "Failure to read ssh key: secret " ++ namespace ++ ":" ++ name ++ " doesn't contain `"
    ++ ssh_private_key ++ "` key")

module _ {W : Type 0} (client : Client W) where
  -- `readPrivateKeyForCluster`
  unfoldable pub read_private_key_for_cluster : String → String → Exec W String
  read_private_key_for_cluster namespace name = do
    secret ←
        client.secrets.get (record { namespace = namespace; name = get_ssh_keys_secret_name name })
    elim (lookup ssh_private_key secret.content) [
      | none ↦ fail (error_pvt_key namespace name)
      | some pvt_key ↦ pure pvt_key
    ]

  -- `fetchServiceAccountToken`
  unfoldable pub fetch_service_account_token : String → String → Exec W String
  fetch_service_account_token namespace name =
      client.create_token (record { key = record { namespace = namespace; name = name } })
        token_expiration_request

  -- `deleteSecret`
  unfoldable pub delete_secret : String → String → Exec W Unit
  delete_secret namespace name =
      delete_if_found client.secrets (record { namespace = namespace; name = name })

  -- `DeleteAllCloudInitSecret`
  unfoldable pub delete_all_cloud_init_secret : String → String → Exec W Unit
  delete_all_cloud_init_secret namespace cluster_name = do
    delete_secret namespace (get_ssh_keys_secret_name cluster_name)
    delete_secret namespace (cluster_name ++ worker_node_secret_suffix)
    delete_secret namespace (cluster_name ++ root_ca_secret_suffix)
    delete_secret namespace (cluster_name ++ tls_secret_suffix)
    delete_secret namespace (cluster_name ++ head_node_secret_suffix)

  module _ (host : Host W) where
    -- `createPrivateSshKey`: "" if no key can be generated.
    unfoldable pub create_private_ssh_key : Exec W String
    create_private_ssh_key = do
      r ← attempt (host.generate_key 2048)
      elim r [
        | err _ ↦ pure ""
        | ok key ↦ pure (host.pem_encode "RSA PRIVATE KEY" (host.marshal_pkcs1 key))
      ]

    -- `getOrCreatePrivateKeySecret`
    unfoldable pub get_or_create_private_key_secret : String → String → Exec W String
    get_or_create_private_key_secret namespace name = do
      r ← attempt (read_private_key_for_cluster namespace name)
      elim r [
        | ok pvt_key ↦ pure pvt_key
        | err e ↦ elim (ignore_not_found e) [
          | some e' ↦ fail e'
          | none ↦ do
            pvt_key ← create_private_ssh_key
            client.secrets.create (record {
              key = record { namespace = namespace; name = get_ssh_keys_secret_name name };
              content = [];
              string_data = (ssh_private_key, pvt_key) ∷ [];
            })
            pure pvt_key
        ]
      ]

    module _ (encoders : Encoders) where
      -- The last part of `CreateCloudInitSecret`, once everything is read.
      abbrev pub submit_secret : CloudConfig → Exec W Secret
      submit_secret c = elim (create_cloud_init_config_secret encoders c) [
        | err e ↦ fail e
        | ok secret ↦ client.secrets.create secret
      ]

      -- The part of `CreateCloudInitSecret` after the check that the secret is not there.
      unfoldable pub make_cloud_init_secret : VmDeploymentRequest → String → String → Exec W Secret
      make_cloud_init_secret r node_secret_name ssh_pvt_key = do
        token ← fetch_service_account_token r.namespace r.cluster_name
        ca ← read_ca_crt_and_ca_key client r.namespace (r.cluster_name ++ root_ca_secret_suffix)
        login ← get_docker_login_cmd client r.namespace r.docker_config.auth_secret_name
        submit_secret (record {
          request = r;
          svc_acc_token = token;
          secret_name = node_secret_name;
          ssh_pvt_key = ssh_pvt_key;
          ca_crt = ca.1;
          ca_key = ca.0;
          docker_login_cmd = login;
        })

      -- The name of the secret that holds a node's configuration.
      unfoldable pub node_secret_name : VmDeploymentRequest → String
      node_secret_name r =
          if is_some r.head_node_status
          then r.cluster_name ++ worker_node_secret_suffix
          else r.cluster_name ++ head_node_secret_suffix

      -- The ssh key of a node's configuration.
      abbrev pub ssh_key_for : VmDeploymentRequest → Exec W String
      ssh_key_for r =
          when not (is_some r.head_node_status)
          then get_or_create_private_key_secret r.namespace r.cluster_name
          else read_private_key_for_cluster r.namespace r.cluster_name

      -- What follows the lookup of the secret.
      abbrev pub secret_answer : VmDeploymentRequest → String → Result Secret → Exec W Secret
      secret_answer r ssh_pvt_key (ok secret) = pure secret
      secret_answer r ssh_pvt_key (err e) = elim (ignore_not_found e) [
        | some e' ↦ fail e'
        | none ↦ make_cloud_init_secret r (node_secret_name r) ssh_pvt_key
      ]

      -- `CreateCloudInitSecret`, less the second result, which no caller reads.
      unfoldable pub create_cloud_init_secret : VmDeploymentRequest → Exec W Secret
      create_cloud_init_secret r = do
        ssh_pvt_key ← ssh_key_for r
        found ←
            attempt
              (client.secrets.get (record { namespace = r.namespace; name = node_secret_name r }))
        secret_answer r ssh_pvt_key found
