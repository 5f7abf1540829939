-- ===== src/Vmop/CloudInit/Template.antt =====
-- `cloudConfigHeadNodeTemplate` and `cloudConfigWorkerNodeTemplate` of
-- vmray-cluster-operator/pkg/provider/vmop/cloudinit/templator.go, as text/template executes them:
-- each action is replaced by the field that it names, and `{{-` takes the newline before it.
use Prim.Native.String.{◌++◌}
use ray_on_vcf.Prelude.{String, Bool, List, ◌==◌, if◌then◌else◌, map}
use ray_on_vcf.Go.Format.{concat}

-- An element of `write_files`; `permissions` is "" if the map has no such key.
pub record File : Type 0 where
  pub path : String
  pub content : String
  pub permissions : String

-- What the template is executed on; `users` always has one element.
pub record TemplateData : Type 0 where
  pub user : String
  pub pass_salt_hash : String
  pub files : List File
  pub docker_image : String
  pub initialization_commands : List String
  pub docker_cmd : String
  pub docker_flags : String
  pub enable_docker_execution : Bool
  pub ssh_rsa_key_path : String
  pub docker_login_cmd : String

unfoldable pub render_file : File → String
render_file f =
    "\n  - content: |\n"
    ++ f.content
    ++ "\n    path: "
    ++ f.path
    ++ (if f.permissions == "" then "" else "\n    permissions: '" ++ f.permissions ++ "'")

-- A line of `runcmd` for a command of the user.
unfoldable pub su_line : String → String → String
su_line user command = "\n  - su " ++ user ++ " -c '" ++ command ++ "'"

-- What both templates have, which is all of the worker's but its last newline.
unfoldable pub render_common : TemplateData → String
render_common d =
    "#cloud-config\nssh_pwauth: true\nusers:\n  - name: "
    ++ d.user
    ++ "\n    sudo: ALL=(ALL) NOPASSWD:ALL\n    lock_passwd: false\n    passwd: \""
    ++ d.pass_salt_hash
    ++ "\"\n    shell: /bin/bash\nwrite_files:"
    ++ concat (map render_file d.files)
    ++ "\nruncmd:\n  - chown -R "
    ++ d.user
    ++ ":"
    ++ d.user
    ++ " /home/"
    ++ d.user
    ++ "\n  - usermod -aG docker "
    ++ d.user
    ++ su_line d.user
        ("ssh-keygen -f " ++ d.ssh_rsa_key_path ++ " -t RSA -y > " ++ d.ssh_rsa_key_path ++ ".pub")
    ++ su_line d.user ("cat " ++ d.ssh_rsa_key_path ++ ".pub >> ~/.ssh/authorized_keys")
    ++ su_line d.user "echo \"\" >> ~/.bashrc"
    ++ (if d.docker_login_cmd == "" then "" else su_line d.user d.docker_login_cmd)

-- The docker commands of the head node.
unfoldable pub render_docker : TemplateData → String
render_docker d =
    if d.enable_docker_execution
    then concat (map (su_line d.user) d.initialization_commands)
      ++ su_line d.user ("docker pull " ++ d.docker_image)
      ++ su_line d.user (
          "docker run " ++ d.docker_flags ++ " " ++ d.docker_image
          ++ "  /bin/bash -c \"sudo -i -u root chmod 0777 /home/ray/.ssh/id_rsa_ray; "
          ++ d.docker_cmd ++ "\"")
    else ""

unfoldable pub render_head : TemplateData → String
render_head d = render_common d ++ render_docker d ++ "\n"

unfoldable pub render_worker : TemplateData → String
render_worker d = render_common d ++ "\n"
