-- ===== src/Main.antt =====
-- vmray-cluster-operator/cmd/main.go: the operator's start, with controller-runtime's manager as a
-- parameter.
pub mod Startup
use ray_on_vcf.Prelude.{ℕ, String, Bool, true, false, List, [], ◌∷◌}
use ray_on_vcf.Go.{Exec, Result, ok, err, ◌>>=◌, ◌>>◌}
use ray_on_vcf.Kube.{Client, Host, ControllerUtil}
use ray_on_vcf.Controller.State.{Reconciler, new_vm_ray_cluster_reconciler}
use ray_on_vcf.Vmop.{new_vm_operator_provider}
use ray_on_vcf.Vmop.CloudInit.Files.{Encoders}

-- The flags, as `flag.Parse` sets them.
pub record Flags : Type 0 where
  pub metrics_addr : String
  pub probe_addr : String
  pub enable_leader_election : Bool
  pub secure_metrics : Bool
  pub enable_http2 : Bool

-- The flags of a command line without any.
abbrev pub default_flags : Flags
default_flags = record {
  metrics_addr = ":8080";
  probe_addr = ":8081";
  enable_leader_election = false;
  secure_metrics = false;
  enable_http2 = false;
}

-- `tls.Config`, as far as it is written.
pub record TlsConfig : Type 0 where
  pub next_protos : List String

-- `disableHTTP2`
unfoldable pub disable_http2 : TlsConfig → TlsConfig
disable_http2 c = record { next_protos = "http/1.1" ∷ [] }

-- `tlsOpts`
unfoldable pub tls_opts : Flags → List (TlsConfig → TlsConfig)
tls_opts flags = elim flags.enable_http2 [ true ↦ [] | false ↦ disable_http2 ∷ [] ]

-- `ctrl.Options` with the options of the metrics server and of the webhook server.
pub record ManagerOptions : Type 0 where
  pub metrics_bind_address : String
  pub metrics_secure_serving : Bool
  pub metrics_tls_opts : List (TlsConfig → TlsConfig)
  pub webhook_tls_opts : List (TlsConfig → TlsConfig)
  pub health_probe_bind_address : String
  pub leader_election : Bool
  pub leader_election_id : String

unfoldable pub manager_options : Flags → ManagerOptions
unfolding tls_opts
manager_options flags = record {
  metrics_bind_address = flags.metrics_addr;
  metrics_secure_serving = flags.secure_metrics;
  metrics_tls_opts = tls_opts flags;
  webhook_tls_opts = tls_opts flags;
  health_probe_bind_address = flags.probe_addr;
  leader_election = flags.enable_leader_election;
  leader_election_id = "062cf22e.broadcom.com";
}

-- controller-runtime's manager: `NewManager`, the controller and the webhook for VMRayCluster that
-- `Complete` adds to it, the two checks, and `Start`, which returns when the operator is stopped.
pub record Manager (W : Type 0) : Type 0 where
  pub new_manager : ManagerOptions → Exec W Unit
  pub complete_controller : Reconciler W → Exec W Unit
  pub complete_webhook : Exec W Unit
  pub add_healthz_check : String → Exec W Unit
  pub add_readyz_check : String → Exec W Unit
  pub start : Exec W Unit

-- The exit status of `main`: `os.Exit(1)` after an error.
abbrev pub status_of : Result (Unit {0}) → ℕ
status_of (ok _) = 0
status_of (err e) = 1

module _ {W : Type 0} (manager : Manager W) (client : Client W) (host : Host W)
    (util : ControllerUtil) (encoders : Encoders) where
  -- `main` up to the manager's start, which sets up all that the operator serves.
  unfoldable pub set_up : Flags → Exec W Unit
  set_up flags = do
    manager.new_manager (manager_options flags)
    manager.complete_controller (
        new_vm_ray_cluster_reconciler client host util
          (new_vm_operator_provider client host encoders))
    manager.complete_webhook
    manager.add_healthz_check "healthz"
    manager.add_readyz_check "readyz"

  -- `main`
  unfoldable pub main : Flags → Exec W Unit
  main flags = set_up flags >> manager.start
