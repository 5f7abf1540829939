-- ===== src/Tests/World.antt =====
-- The deletion of a cluster on the two-phase server, and a run on it.
use ray_on_vcf.Prelude.{
  ◌≡◌, refl, ◌⊎◌, Bool-cases, false, Option, none, some, [], ◌∷◌, inl, inr, ap, arith, is_some, All,
  contains,
}
use ray_on_vcf.Go.{ok, is_err, ignoring_not_found}
use ray_on_vcf.Api.{VmRayCluster}
use ray_on_vcf.Kube.{ObjectKey}
use ray_on_vcf.Controller.Finalizer.{finalizer_name, remove_finalizer, nounce_of}
use ray_on_vcf.Controller.State.{Reconciler}
use ray_on_vcf.Prelude.Dict.{lookup, keys}
use ray_on_vcf.Controller.Reconcile.{reconcile, reconcile_cluster, deletion, vm_ray_cluster_delete}
use ray_on_vcf.Controller.Workers.{delete_worker_nodes, delete_nodes, to_delete}
use ray_on_vcf.Vmop.{
  new_vm_operator_provider, delete_auxiliary_resources, delete, delete_vm_service,
}
use ray_on_vcf.Vmop.Rbac.{delete_if_found, delete_service_account_and_role}
use ray_on_vcf.Vmop.Secrets.{delete_all_cloud_init_secret, delete_secret, get_ssh_keys_secret_name}
use ray_on_vcf.Provider.{get_head_node_name}
use ray_on_vcf.Vmop.Server.{Thing, IsMissing}
use ray_on_vcf.System.Store.{Storage, identity, identity_of}
use ray_on_vcf.System.Run.{
  UpdatesClusters, here, step, reconciles, Run, Guarded, CleanedIn, operator, gone_is_clean,
}
use ray_on_vcf.Tests.Sample.{toy_host, toy_encoders, toy_util, busy_cluster}
use ray_on_vcf.Tests.Laws.{toy_util-IsFinalizers}
use ray_on_vcf.Vmop.Server.{IsGone}
use ray_on_vcf.Vmop.Teardown.{auxiliary, key}
use ray_on_vcf.Controller.State.{Ctl}
use ray_on_vcf.Controller.Workers.Deletion.{workers_of}
use ray_on_vcf.Controller.Reconcile.Cleanup.{machines, no_resource_is_left}
use ray_on_vcf.Controller.Reconcile.Deletion.{head_name}
use ray_on_vcf.Tests.Phases.{
  Phase, World, complete, answer_of_get, updated, patched, two_phase_client, cluster_of,
}
use ray_on_vcf.Tests.Phases.Deletions.{
  gone-IsMissing, IsMissing-gone, two_phase_client-LeavesOthers, two_phase_client-Server,
}

abbrev at : ObjectKey
at = record { namespace = "ns"; name = "ray" }

get_found : (i : VmRayCluster) (c : Option VmRayCluster) → answer_of_get c ≡ ok i → c ≡ some i
get_found i none h = cc
get_found i (some j) h = ap some (cc h)

patched_same :
    (j : VmRayCluster) (c : Option VmRayCluster) → identity_of (patched j c) ≡ identity_of c
patched_same j none = refl
patched_same j (some k) = refl

updates :
    (i : VmRayCluster) (c : Option VmRayCluster)
    → (updated i ≡ c)
      ⊎ (identity_of (updated i) ≡ some (identity i))
      ⊎ ((updated i ≡ none) × (toy_util.contains_finalizer i finalizer_name ≡ false))
updates i c = elim (Bool-cases (is_some i.object_meta.deletion_timestamp)) [
  | inr alive ↦ inr (inl (ground arith))
  | inl dying ↦ elim (Bool-cases (toy_util.contains_finalizer i finalizer_name)) [
    | inl there ↦ inr (inl (ground arith))
    | inr gone ↦ inr (inr (ground arith, gone))
  ]
]

abbrev store : Storage two_phase_client toy_host toy_util at
store = record {
  stored = cluster_of;
  others = two_phase_client-LeavesOthers;
  read = record { same = λ w. refl };
  found = λ i w h. get_found i w.cluster h;
  patched = λ i j w. patched_same j w.cluster;
  updated = λ i w. updates i w.cluster;
}

update_keeps :
    (t : Thing) (i : VmRayCluster) (w : World)
    → IsGone two_phase_client complete t w
    → IsGone two_phase_client complete t (record w { cluster = updated i })
update_keeps t i w h = gone-IsMissing t _ (IsMissing-gone t (complete w) h)

two_phase_client-UpdatesClusters : UpdatesClusters two_phase_client complete
two_phase_client-UpdatesClusters = record {
  keeps = λ t i. record { kept = λ w h. update_keeps t i w h };
}

-- A cluster with workers, which a user has deleted.
abbrev doomed : VmRayCluster
doomed = record busy_cluster {
  object_meta = record busy_cluster.object_meta {
    finalizers = finalizer_name ∷ [];
    deletion_timestamp = some 7;
  };
}

abbrev operator_here : Reconciler World
operator_here =
    operator two_phase_client toy_host toy_util toy_encoders complete two_phase_client-Server
      two_phase_client-UpdatesClusters toy_util-IsFinalizers at store

-- A server on which every object is there, and the cluster.
abbrev full : World
full = record { cluster = some doomed; phase = λ n k. Phase.live }

one_round : (reconcile operator_here at full).1.cluster ≡ none
unfolding reconcile reconcile_cluster deletion vm_ray_cluster_delete new_vm_operator_provider
    delete_auxiliary_resources delete_all_cloud_init_secret delete_secret
    delete_service_account_and_role delete_if_found delete delete_vm_service ignoring_not_found
    delete_worker_nodes delete_nodes to_delete keys lookup remove_finalizer contains
    get_ssh_keys_secret_name get_head_node_name nounce_of
one_round = refl

abbrev one_step :
    Run two_phase_client toy_host toy_util toy_encoders complete two_phase_client-Server
      two_phase_client-UpdatesClusters toy_util-IsFinalizers at store full
      (reconcile operator_here at full).1
one_step = step here (reconciles refl)

doomed_is_there :
    Guarded two_phase_client toy_host toy_util toy_encoders complete two_phase_client-Server
      two_phase_client-UpdatesClusters toy_util-IsFinalizers at store doomed full
doomed_is_there =
    (doomed, refl, record { namespace = refl; name = refl; nounce = refl }, unfold contains in refl)

gone_is_clean_example :
    CleanedIn two_phase_client toy_host toy_util toy_encoders complete two_phase_client-Server
      two_phase_client-UpdatesClusters toy_util-IsFinalizers at store doomed one_step
gone_is_clean_example =
    gone_is_clean two_phase_client toy_host toy_util toy_encoders complete two_phase_client-Server
      two_phase_client-UpdatesClusters toy_util-IsFinalizers at store doomed full
      (reconcile operator_here at full).1 one_step doomed_is_there one_round

abbrev start : Ctl World
start = record { cluster = doomed; world = full }

is_deleted : is_err (vm_ray_cluster_delete operator_here start).0 ≡ false
unfolding vm_ray_cluster_delete new_vm_operator_provider delete_auxiliary_resources
    delete_all_cloud_init_secret delete_secret delete_service_account_and_role delete_if_found
    delete delete_vm_service ignoring_not_found delete_worker_nodes delete_nodes to_delete keys
    lookup remove_finalizer contains get_ssh_keys_secret_name get_head_node_name nounce_of
is_deleted = refl

no_resource_is_left_example :
    let w = complete (vm_ray_cluster_delete operator_here start).1.world in
    All (λ t. IsMissing two_phase_client t w) (auxiliary "ns" "ray")
    × IsMissing two_phase_client (Thing.vm_service (key "ns" (head_name operator_here start))) w
    × IsMissing two_phase_client
        (Thing.virtual_machine (key "ns" (head_name operator_here start)))
        w
    × All (λ t. IsMissing two_phase_client t w) (machines "ns" (keys (workers_of start)))
no_resource_is_left_example =
    no_resource_is_left two_phase_client toy_host toy_util toy_encoders complete
      two_phase_client-Server start is_deleted

-- What was deleted is still there before the server has completed the deletions.
head_is_still_there :
    is_err
      (two_phase_client.virtual_machines.get
        (key "ns" (head_name operator_here start))
        (vm_ray_cluster_delete operator_here start).1.world).0
    ≡ false
unfolding vm_ray_cluster_delete new_vm_operator_provider delete_auxiliary_resources
    delete_all_cloud_init_secret delete_secret delete_service_account_and_role delete_if_found
    delete delete_vm_service ignoring_not_found delete_worker_nodes delete_nodes to_delete keys
    lookup remove_finalizer contains get_ssh_keys_secret_name get_head_node_name nounce_of
head_is_still_there = refl
