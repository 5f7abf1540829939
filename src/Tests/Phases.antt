-- ===== src/Tests/Phases.antt =====
-- A server that deletes in two phases: an accepted deletion marks an object, which is there until
-- the server has completed it.
pub mod Deletions
use ray_on_vcf.Prelude.{
  ◌≡◌, ◌⊎◌, refl, sym, ◌∙◌, ap, inl, inr, is_some, not, String, Bool, true, false, Option, none,
  some, [], ◌∷◌, arith, ◌==◌, ◌&&◌, if◌then◌else◌, eq_refl, Bool-cases,
}
use ray_on_vcf.Go.{Result, Error, ok, err, Exec}
use ray_on_vcf.Api.{VmRayCluster}
use ray_on_vcf.Kube.{
  ObjectKey, Resource, Client, Secret, ServiceAccount, Role, RoleBinding, VirtualMachine,
  VirtualMachineService,
}
use ray_on_vcf.Tests.Sample.{absent, idle_client, some_secret, a_machine, a_service, toy_util}
use ray_on_vcf.Controller.Finalizer.{finalizer_name}

pub data Phase : Type 0 where
  gone live deleting : Phase

-- One cluster, and the phase of the object of each kind under each key.
pub record World : Type 0 where
  pub cluster : Option VmRayCluster
  pub phase : String → ObjectKey → Phase

abbrev pub marked : Phase → Phase
marked Phase.gone = Phase.gone
marked Phase.live = Phase.deleting
marked Phase.deleting = Phase.deleting

abbrev pub completed : Phase → Phase
completed Phase.gone = Phase.gone
completed Phase.live = Phase.live
completed Phase.deleting = Phase.gone

abbrev pub complete : World → World
complete w = record w { phase = λ n k. completed (w.phase n k) }

abbrev pub is_at : String → ObjectKey → String → ObjectKey → Bool
is_at n k m l = m == n && (l.namespace == k.namespace && l.name == k.name)

abbrev pub change : (Phase → Phase) → String → ObjectKey → World → World
change f n k w = record w { phase = λ m l. if is_at n k m l then f (w.phase m l) else w.phase m l }

abbrev pub seen : {O : Type 0} → O → Phase → Exec World O
seen o Phase.gone w = (err absent, w)
seen o Phase.live w = (ok o, w)
seen o Phase.deleting w = (ok o, w)

-- The objects of one kind; what is there under a key is the sample with that key.
abbrev pub objects : {O : Type 0} → String → (ObjectKey → O) → (O → ObjectKey) → Resource World O
objects n make key_of = record {
  get = λ k w. seen (make k) (w.phase n k) w;
  create = λ o w. (ok o, change (λ p. Phase.live) n (key_of o) w);
  delete = λ o w. (ok tt, change marked n (key_of o) w);
}

abbrev pub secret_at : ObjectKey → Secret
secret_at k = record some_secret { key = k }

abbrev pub account_at : ObjectKey → ServiceAccount
account_at k = record { key = k }

abbrev pub role_at : ObjectKey → Role
role_at k = record { key = k; rules = [] }

abbrev pub binding_at : ObjectKey → RoleBinding
binding_at k = record {
  key = k;
  role_ref = record { api_group = ""; kind = "Role"; name = "ray" };
  subjects = [];
}

abbrev pub machine_at : ObjectKey → VirtualMachine
machine_at k = record a_machine { key = k }

abbrev pub service_at : ObjectKey → VirtualMachineService
service_at k = record a_service { key = k }

abbrev pub answer_of_get : Option VmRayCluster → Result VmRayCluster
answer_of_get none = err absent
answer_of_get (some i) = ok i

-- A cluster that is being deleted and has no finalizer left is removed.
abbrev pub updated : VmRayCluster → Option VmRayCluster
updated i =
    if is_some i.object_meta.deletion_timestamp
      && not (toy_util.contains_finalizer i finalizer_name)
    then none
    else some i

abbrev pub patched : VmRayCluster → Option VmRayCluster → Option VmRayCluster
patched j none = none
patched j (some k) = some (record k { status = j.status })

abbrev pub two_phase_client : Client World
two_phase_client = record idle_client {
  secrets = objects "secret" secret_at (λ o. o.key);
  service_accounts = objects "account" account_at (λ o. o.key);
  roles = objects "role" role_at (λ o. o.key);
  role_bindings = objects "binding" binding_at (λ o. o.key);
  virtual_machines = objects "machine" machine_at (λ o. o.key);
  vm_services = objects "service" service_at (λ o. o.key);
  get_cluster = λ k w. (answer_of_get w.cluster, w);
  update_cluster = λ i w. (ok i, record w { cluster = updated i });
  patch_status = λ i j w. (ok j, record w { cluster = patched j w.cluster });
}

-- No call for these objects touches the cluster.
abbrev pub cluster_of : World → Option VmRayCluster
cluster_of w = w.cluster
