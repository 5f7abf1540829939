-- ===== src/Vmop/CloudInit/Files.antt =====
-- `produceCloudInitConfigYamlTemplate`, `getBootstrapYamlContent` and
-- `CreateCloudInitConfigSecret` of vmray-cluster-operator/pkg/provider/vmop/cloudinit/templator.go:
-- what a node writes to its disk and runs when it starts.
use Prim.Native.String.{◌++◌}
use ray_on_vcf.Prelude.{ℕ, String, not, none, some, List, [], ◌∷◌, append, if◌then◌else◌}
use ray_on_vcf.Go.{Result, ok, err}
use ray_on_vcf.Go.Format.{join}
use ray_on_vcf.Kube.{Secret}
use ray_on_vcf.Provider.{is_ray_cli}
use ray_on_vcf.Tls.Script.{get_ray_tls_config_string}
use ray_on_vcf.Vmop.CloudInit.{
  CloudConfig, RayBootstrapConfig, add_indentation, get_ray_bootstrap_config, set_docker_command,
  ray_container_name,
}
use ray_on_vcf.Vmop.CloudInit.Template.{File, TemplateData, render_head, render_worker}

-- `yaml.Marshal` of gopkg.in/yaml.v2, and `base64.StdEncoding.EncodeToString` on texts.
pub record Encoders : Type 0 where
  pub marshal : RayBootstrapConfig → Result String
  pub base64 : String → String

abbrev pub cloud_init_config_user_data_key : String
cloud_init_config_user_data_key = "user-data"

-- A path in the user's home.
abbrev pub home_path : CloudConfig → String → String
home_path c file = "/home/" ++ c.request.node_config.vm_user ++ "/" ++ file

-- The files that every node has.
unfoldable pub common_files : CloudConfig → List File
common_files c =
    record {
      path = home_path c ".ssh/id_rsa_ray";
      content = add_indentation c.ssh_pvt_key 5;
      permissions = "0600";
    }
    ∷ record {
      path = home_path c "ca.crt";
      content = add_indentation c.ca_crt 5;
      permissions = "0444";
    }
    ∷ record {
      path = home_path c "ca.key";
      content = add_indentation c.ca_key 5;
      permissions = "0444";
    }
    ∷ record {
      path = home_path c "gencert.sh";
      content = add_indentation get_ray_tls_config_string 5;
      permissions = "0777";
    }
    ∷ []

-- The first value of `docker_flags`.
unfoldable pub common_flags : CloudConfig → List String
common_flags c =
    ("-v " ++ home_path c "ca.crt" ++ ":/home/ray/ca.crt")
    ∷ ("-v " ++ home_path c "ca.key" ++ ":/home/ray/ca.key")
    ∷ ("-v " ++ home_path c "gencert.sh" ++ ":/home/ray/gencert.sh")
    ∷ ("--env \"RAY_USE_TLS=" ++ (if c.request.enable_tls then "1" else "0") ++ "\"")
    ∷ "--env \"RAY_TLS_CA_CERT=/home/ray/ca.crt\""
    ∷ "--env \"RAY_TLS_SERVER_KEY=/home/ray/tls.key\""
    ∷ "--env \"RAY_TLS_SERVER_CERT=/home/ray/tls.crt\""
    ∷ "--ulimit nofile=65536:65536"
    ∷ []

-- What the head node's container adds to them.
unfoldable pub head_flags : CloudConfig → List String
head_flags c =
    "--rm"
    ∷ ("--name " ++ ray_container_name)
    ∷ "-d"
    ∷ "--network host"
    ∷ ("--env-file " ++ home_path c "svc-account-token.env")
    ∷ ("-v " ++ home_path c "ray_bootstrap_config.yaml" ++ ":/home/ray/ray_bootstrap_config.yaml")
    ∷ ("-v " ++ home_path c ".ssh/id_rsa_ray" ++ ":/home/ray/.ssh/id_rsa_ray")
    ∷ []

unfoldable pub token_file : CloudConfig → File
token_file c = record {
  path = home_path c "svc-account-token.env";
  content =
      add_indentation
        ("SVC_ACCOUNT_TOKEN=" ++ c.svc_acc_token ++ "\nRAY_VMSERVICE_IP=" ++ c.request.vm_service)
        5;
  permissions = "0400";
}

-- The map that the template is executed on.
unfoldable pub template_data : CloudConfig → List File → List String → List String → TemplateData
template_data c files cmd flags = record {
  user = c.request.node_config.vm_user;
  pass_salt_hash = c.request.node_config.vm_password_salt_hash;
  files = files;
  docker_image = c.request.docker_image;
  initialization_commands = c.request.node_config.initialization_commands;
  docker_cmd = join ";" cmd;
  docker_flags = join " " flags;
  enable_docker_execution = not (is_ray_cli c.request.ray_cluster_requestor);
  ssh_rsa_key_path = home_path c ".ssh/id_rsa_ray";
  docker_login_cmd = c.docker_login_cmd;
}

module _ (encoders : Encoders) where
  -- `convertToYaml`
  abbrev pub convert_to_yaml : RayBootstrapConfig → ℕ → Result String
  convert_to_yaml config indentation = elim (encoders.marshal config) [
    | err e ↦ err e
    | ok b ↦ ok (add_indentation b indentation)
  ]

  -- `getBootstrapYamlContent`
  unfoldable pub get_bootstrap_yaml_content : RayBootstrapConfig → Result File
  get_bootstrap_yaml_content rbc = elim (convert_to_yaml rbc 5) [
    | err e ↦ err e
    | ok text ↦ ok (record {
      path = "/home/" ++ rbc.ssh_user ++ "/ray_bootstrap_config.yaml";
      content = text;
      permissions = "";
    })
  ]

  -- The bootstrap configuration with its docker options and commands.
  unfoldable pub bootstrap_config : CloudConfig → RayBootstrapConfig
  bootstrap_config c =
      let rbc = get_ray_bootstrap_config c in
      set_docker_command
        (record rbc { docker = record rbc.docker { run_options = common_flags c } }) c

  -- The data of the head node's template.
  unfoldable pub head_data : CloudConfig → Result TemplateData
  head_data c =
      if is_ray_cli c.request.ray_cluster_requestor
      then ok (template_data c (append (common_files c) (token_file c ∷ [])) [] (common_flags c))
      else elim (get_bootstrap_yaml_content (bootstrap_config c)) [
        | err e ↦ err e
        | ok f ↦ ok (
            template_data c (append (common_files c) (f ∷ token_file c ∷ []))
              (bootstrap_config c).head_start_ray_commands (append (common_flags c) (head_flags c)))
      ]

  -- `produceCloudInitConfigYamlTemplate`
  unfoldable pub produce_cloud_init_config_yaml_template : CloudConfig → Result String
  produce_cloud_init_config_yaml_template c = elim c.request.head_node_status [
    | none ↦ elim (head_data c) [ err e ↦ err e | ok d ↦ ok (render_head d) ]
    | some _ ↦ ok (render_worker (template_data c (common_files c) [] (common_flags c)))
  ]

  -- `CreateCloudInitConfigSecret`
  unfoldable pub create_cloud_init_config_secret : CloudConfig → Result Secret
  create_cloud_init_config_secret c = elim (produce_cloud_init_config_yaml_template c) [
    | err e ↦ err e
    | ok text ↦ ok (record {
      key = record { namespace = c.request.namespace; name = c.secret_name };
      content = [];
      string_data = (cloud_init_config_user_data_key, encoders.base64 text) ∷ [];
    })
  ]
