-- ===== src/Main/Startup.antt =====
-- What the operator serves once it is started.
use ray_on_vcf.Prelude.{◌≡◌, arith, String, false, List, [], ◌∷◌}
use ray_on_vcf.Go.{ok}
use ray_on_vcf.Kube.{Client, Host, ControllerUtil}
use ray_on_vcf.Go.Keeps.{Keeps}
use ray_on_vcf.Kube.Frame.{Leaves}
use ray_on_vcf.Controller.State.{Reconciler}
use ray_on_vcf.Vmop.CloudInit.Files.{Encoders}
use ray_on_vcf.Main.{Flags, TlsConfig, disable_http2, ManagerOptions, manager_options, Manager}

-- A server applies its options one after the other to its configuration.
pub apply_all : List (TlsConfig → TlsConfig) → TlsConfig → TlsConfig
apply_all [] c = c
apply_all (opt ∷ opts) c = apply_all opts (opt c)

-- Without the flag for HTTP/2, the metrics server and the webhook server offer HTTP/1.1 only,
-- whatever else they would offer.
pub http2_is_off :
    (flags : Flags) (c : TlsConfig)
    → flags.enable_http2 ≡ false
    → let options = manager_options flags in
      ((apply_all options.metrics_tls_opts c).next_protos ≡ "http/1.1" ∷ [])
      × ((apply_all options.webhook_tls_opts c).next_protos ≡ "http/1.1" ∷ [])
unfolding manager_options apply_all disable_http2
http2_is_off flags c h = ground arith

-- What the operator serves: the reconciler of clusters, their admission, and the two checks.
pub data Service : Type 0 where
  controller admission liveness readiness : Service

-- controller-runtime's manager: a call that adds a service and succeeds has added it, no call takes
-- one away, and none but `Start` starts the manager.
pub record SetsUp {W X : Type 0} (Serves : Service → W → Type 0) (started : W → X)
    (manager : Manager W) : Type 0 where
  pub new_manager : (o : ManagerOptions) → Leaves started (manager.new_manager o)
  pub controller : (r : Reconciler W) → Leaves started (manager.complete_controller r)
  pub webhook : Leaves started manager.complete_webhook
  pub healthz : (name : String) → Leaves started (manager.add_healthz_check name)
  pub readyz : (name : String) → Leaves started (manager.add_readyz_check name)
  pub adds_controller :
      (r : Reconciler W) (w : W)
      → (manager.complete_controller r w).0 ≡ ok tt
      → Serves Service.controller (manager.complete_controller r w).1
  pub adds_webhook :
      (w : W)
      → (manager.complete_webhook w).0 ≡ ok tt
      → Serves Service.admission (manager.complete_webhook w).1
  pub adds_healthz :
      (name : String) (w : W)
      → (manager.add_healthz_check name w).0 ≡ ok tt
      → Serves Service.liveness (manager.add_healthz_check name w).1
  pub adds_readyz :
      (name : String) (w : W)
      → (manager.add_readyz_check name w).0 ≡ ok tt
      → Serves Service.readiness (manager.add_readyz_check name w).1
  pub webhook_keeps : (s : Service) → Keeps (Serves s) manager.complete_webhook
  pub healthz_keeps :
      (s : Service) (name : String) → Keeps (Serves s) (manager.add_healthz_check name)
  pub readyz_keeps :
      (s : Service) (name : String) → Keeps (Serves s) (manager.add_readyz_check name)

module _ {W X : Type 0} (manager : Manager W) (client : Client W) (host : Host W)
    (util : ControllerUtil) (encoders : Encoders) (Serves : Service → W → Type 0) (started : W → X)
    (law : SetsUp Serves started manager) where
  abbrev pub AllServed : W → Type 0
  AllServed w = (s : Service) → Serves s w
