-- ===== src/Tests/Starts.antt =====
-- The theorems on the operator's start, with a manager whose world says what was added to it.
use ray_on_vcf.Prelude.{◌≡◌, refl, Bool, true, false, [], ◌∷◌}
use ray_on_vcf.Go.{ok, err}
use ray_on_vcf.Kube.{Client, Host, Resource}
use ray_on_vcf.Main.{default_flags, manager_options, Manager}
use ray_on_vcf.Main.Startup.{apply_all, http2_is_off, Service}
use ray_on_vcf.Tests.Sample.{absent}

http2_is_off_example :
    ((apply_all
        (manager_options default_flags).metrics_tls_opts
        (record { next_protos = "h2" ∷ [] })).next_protos
      ≡ "http/1.1" ∷ [])
    × ((apply_all
          (manager_options default_flags).webhook_tls_opts
          (record { next_protos = "h2" ∷ [] })).next_protos
        ≡ "http/1.1" ∷ [])
http2_is_off_example = http2_is_off default_flags (record { next_protos = "h2" ∷ [] }) refl

-- What a manager has, and whether it was started.
record World : Type 0 where
  has_controller : Bool
  has_webhook : Bool
  has_healthz : Bool
  has_readyz : Bool
  is_started : Bool

abbrev nothing : {O : Type 0} → Resource World O
nothing = record {
  get = λ k w. (err absent, w);
  create = λ o w. (ok o, w);
  delete = λ o w. (ok tt, w);
}

abbrev small_client : Client World
small_client = record {
  secrets = nothing;
  service_accounts = nothing;
  roles = nothing;
  role_bindings = nothing;
  virtual_machines = nothing;
  vm_services = nothing;
  get_vm_image = λ k w. (ok tt, w);
  get_storage_class = λ k w. (ok tt, w);
  get_vm_class = λ k w. (ok tt, w);
  create_token = λ a n w. (ok "token", w);
  get_cluster = λ k w. (err absent, w);
  update_cluster = λ i w. (ok i, w);
  patch_status = λ i j w. (ok j, w);
}

abbrev small_host : Host World
small_host = record {
  now = λ w. 7;
  add_years = λ n t. t;
  intn = λ n w. (0, w);
  generate_key = λ n w. (ok "key", w);
  create_certificate = λ c k w. (ok "certificate", w);
  marshal_pkcs1 = λ k. k;
  pem_encode = λ t b. b;
}

-- A manager that has what was added to it.
abbrev small_manager : Manager World
small_manager = record {
  new_manager = λ o w. (ok tt, w);
  complete_controller = λ r w. (ok tt, record w { has_controller = true });
  complete_webhook = λ w. (ok tt, record w { has_webhook = true });
  add_healthz_check = λ n w. (ok tt, record w { has_healthz = true });
  add_readyz_check = λ n w. (ok tt, record w { has_readyz = true });
  start = λ w. (ok tt, record w { is_started = true });
}

abbrev serves : Service → World → Bool
serves Service.controller w = w.has_controller
serves Service.admission w = w.has_webhook
serves Service.liveness w = w.has_healthz
serves Service.readiness w = w.has_readyz

abbrev Serves : Service → World → Type 0
Serves s w = serves s w ≡ true

abbrev started : World → Bool
started w = w.is_started

abbrev idle : World
idle = record {
  has_controller = false;
  has_webhook = false;
  has_healthz = false;
  has_readyz = false;
  is_started = false;
}
