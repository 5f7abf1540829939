-- ===== src/Vmop/DockerAuth.antt =====
-- vmray-cluster-operator/pkg/provider/vmop/utils/docker_auth.go: the command that logs in to a
-- registry.
use Prim.Native.String.{◌++◌}
use ray_on_vcf.Prelude.{String, true, false, none, some, ◌==◌}
use ray_on_vcf.Prelude.Dict.{lookup}
use ray_on_vcf.Go.{Error, Exec, pure, fail, ◌>>=◌}
use ray_on_vcf.Kube.{Client}

abbrev pub docker_username_key : String
docker_username_key = "username"

abbrev pub docker_password_key : String
docker_password_key = "password"

abbrev pub docker_registry_key : String
docker_registry_key = "registry"

-- `dockerLoginCmd` with its three texts.
unfoldable pub docker_login_cmd : String → String → String → String
docker_login_cmd registry username password =
    "docker login " ++ registry ++ " --username " ++ username ++ " --password " ++ password

-- `GetDockerLoginCmd`
unfoldable pub get_docker_login_cmd : {W : Type 0} → Client W → String → String → Exec W String
get_docker_login_cmd client namespace secret_name = elim (secret_name == "") [
  | true ↦ pure ""
  | false ↦ do
    secret ← client.secrets.get (record { namespace = namespace; name = secret_name })
    elim (lookup docker_username_key secret.content) [
      | none ↦ fail (Error.missing_key secret_name docker_username_key)
      | some username ↦ elim (lookup docker_password_key secret.content) [
        | none ↦ fail (Error.missing_key secret_name docker_password_key)
        | some password ↦ elim (lookup docker_registry_key secret.content) [
          | none ↦ pure (docker_login_cmd "" username password)
          | some registry ↦ pure (docker_login_cmd registry username password)
        ]
      ]
    ]
]
