-- ===== src/Tests/Booting.antt =====
-- A server whose machines boot, and a worker of vm-operator's provider on it.
use ray_on_vcf.Prelude.{ℕ, zero, suc, ◌≡◌, ◌==◌, ◌≤◌, refl, true, Option, none, some, arith}
use ray_on_vcf.Go.{Error, Reason, ok, err, Exec, is_already_exists}
use ray_on_vcf.Api.{VmNodeStatus, RayProcessStatus, VmRayNodeStatus}
use ray_on_vcf.Kube.{ObjectKey, VirtualMachine, Client}
use ray_on_vcf.Lcm.{NodeLcmRequest, Node, deployment_request}
use ray_on_vcf.Lcm.Progress.{Serves, rounds, worker_runs}
use ray_on_vcf.Provider.{VmProvider}
use ray_on_vcf.Prelude.Dict.{lookup}
use ray_on_vcf.Vmop.{
  deploy, get_vm_class, new_vm_operator_provider, fetch_vm_status, extract_vm_status,
}
use ray_on_vcf.Vmop.Secrets.{create_cloud_init_secret, read_private_key_for_cluster}
use ray_on_vcf.Tests.Nodes.{found, head_request}
use ray_on_vcf.Tests.Sample.{absent, idle_client, some_secret, a_machine, toy_host, toy_encoders}

-- The world is the worker's machine, if it is there: the fetches until it has an address.
abbrev Boot : Type 0
Boot = Option ℕ

abbrev get_machine : ObjectKey → Exec Boot VirtualMachine
get_machine k none = (err absent, none)
get_machine k (some zero) = (ok (record a_machine { key = k }), some zero)
get_machine k (some (suc b)) = (ok (record a_machine { key = k; primary_ip4 = none }), some b)

abbrev create_machine : VirtualMachine → Exec Boot VirtualMachine
create_machine vm none = (ok vm, some 3)
create_machine vm (some b) = (err (Error.status Reason.already_exists "machine"), some b)

-- The secrets are there.
abbrev boot_client : Client Boot
boot_client = record idle_client {
  secrets = record idle_client.secrets { get = λ k w. (ok (record some_secret { key = k }), w) };
  virtual_machines = record idle_client.virtual_machines {
    get = get_machine;
    create = create_machine;
  };
}

abbrev boot_provider : VmProvider Boot
boot_provider = new_vm_operator_provider boot_client toy_host toy_encoders

abbrev worker_request : NodeLcmRequest
worker_request = record head_request { name = "ray-w-one"; head_node_status = some found }

booting_lem :
    (w : Boot) (b : ℕ)
    → w ≡ some (suc b)
    → let out = boot_provider.fetch_vm_status "ns" "ray-w-one" w in
      (f : VmRayNodeStatus) × (out.0 ≡ ok f) × ((f.ip == "") ≡ true) × (out.1 ≡ some b)
unfolding new_vm_operator_provider fetch_vm_status extract_vm_status
booting_lem none b h = cc
booting_lem (some zero) b h = cc
booting_lem (some (suc c)) b h = (_, refl, refl, ground arith)

makes_lem :
    (w : Boot)
    → w ≡ none
    → let out = boot_provider.deploy (deployment_request worker_request) w in
      (b : ℕ) × (out.0 ≡ ok tt) × (b ≤ 3) × (out.1 ≡ some b)
unfolding new_vm_operator_provider deploy create_cloud_init_secret read_private_key_for_cluster
    get_vm_class lookup deployment_request
makes_lem none h = (3, refl, omega arith, refl)
makes_lem (some b) h = absurd (ground arith)

reports_lem :
    (w : Boot) (b : ℕ)
    → w ≡ some b
    → let out = boot_provider.deploy (deployment_request worker_request) w in
      (e : Error) × (out.0 ≡ err e) × (is_already_exists e ≡ true) × (out.1 ≡ some b)
unfolding new_vm_operator_provider deploy create_cloud_init_secret read_private_key_for_cluster
    get_vm_class lookup deployment_request
reports_lem none b h = absurd (ground arith)
reports_lem (some c) b h = (Error.status Reason.already_exists "machine", refl, refl, h)

boot_provider-Serves : Serves boot_provider worker_request 3
unfolding new_vm_operator_provider fetch_vm_status extract_vm_status
boot_provider-Serves = record {
  boot = λ w. w;
  missing = λ w h. rw h (absent, refl, refl, refl);
  booting = λ w b h. booting_lem w b h;
  up = λ w h. rw h (_, refl, refl, refl);
  makes = λ w h. makes_lem w h;
  reports = λ w b h. reports_lem w b h;
}

abbrev failed : Node Boot
failed = record {
  node_status = record found { vm_status = VmNodeStatus.failure };
  vm_service_status = record { ip = "" };
  world = none;
}

no_machine : (b : ℕ) → failed.world ≡ some b → b ≤ 3
no_machine b h = absurd (ground arith)

worker_runs_example :
    let m = rounds 8 boot_provider worker_request failed in
    (m.node_status.vm_status ≡ VmNodeStatus.running)
    × (m.node_status.ray_status ≡ RayProcessStatus.ray_running)
unfolding boot_provider-Serves
worker_runs_example =
    worker_runs boot_provider worker_request 3 boot_provider-Serves 8 failed refl (λ h. cc h)
      no_machine (omega arith)
