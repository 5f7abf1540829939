-- ===== src/Tests/Clusters.antt =====
-- The controller's theorems at sample clusters, with vm-operator's provider on the sample server.
use ray_on_vcf.Prelude.{◌≡◌, ◌≢◌, refl, false, none, some, [], ◌∷◌, is_some, contains, ap, arith}
use ray_on_vcf.Prelude.Dict.{lookup, keys}
use ray_on_vcf.Go.{ignoring_not_found, ok, is_err}
use ray_on_vcf.Lcm.{process_node_vm_state, dispatch, process_empty, deploy_vm, deployment_request}
use ray_on_vcf.Controller.State.{Reconciler, Ctl}
use ray_on_vcf.Controller.Finalizer.{remove_finalizer, finalizer_name, add_finalizer_and_nounce}
use ray_on_vcf.Controller.Finalizer.Guard.{IsGuarded, add_finalizer_and_nounce_lem}
use ray_on_vcf.Controller.Workers.{
  reconcile_worker, node_request, delete_nodes, to_delete, delete_worker_nodes,
  reconcile_worker_nodes, reconcile_desired_workers,
}
use ray_on_vcf.Controller.Workers.Deletion.{workers_of}
use ray_on_vcf.Controller.Workers.Desired.{reconcile_worker_nodes_lem}
use ray_on_vcf.Controller.Workers.Statuses.{AllWellFormed}
use ray_on_vcf.Controller.Reconcile.{vm_ray_cluster_delete, vm_ray_cluster_reconcile, deletion}
use ray_on_vcf.Controller.Reconcile.Cleanup.{reconciler}
use ray_on_vcf.Controller.Reconcile.Deletion.{finalizer_goes_last}
use ray_on_vcf.Controller.Reconcile.Statuses.{vm_ray_cluster_reconcile-AllWellFormed}
use ray_on_vcf.Vmop.{
  deploy, get_vm_class, new_vm_operator_provider, delete_auxiliary_resources, delete,
  delete_vm_service,
}
use ray_on_vcf.Vmop.Secrets.{
  create_cloud_init_secret, read_private_key_for_cluster, delete_all_cloud_init_secret,
  delete_secret,
}
use ray_on_vcf.Vmop.Rbac.{delete_service_account_and_role, delete_if_found}
use ray_on_vcf.Tests.Sample.{
  Toy, toy_client, toy_host, toy_util, toy_encoders, some_secret, a_cluster, busy_cluster,
}
use ray_on_vcf.Tests.Laws.{
  toy_client-Server, toy_client-Stores, toy_client-AnswersWellFormed, toy_util-IsFinalizers,
  with_fresh_status-HasWellFormed,
}

abbrev pub toy : Reconciler Toy
toy = reconciler toy_client toy_host toy_util toy_encoders (λ w. w) toy_client-Server

abbrev pub busy : Ctl Toy
busy = record { cluster = busy_cluster; world = some some_secret }

abbrev pub idle : Ctl Toy
idle = record { cluster = a_cluster; world = none }

pub busy_is_deleted : is_err (vm_ray_cluster_delete toy busy).0 ≡ false
unfolding vm_ray_cluster_delete new_vm_operator_provider delete_auxiliary_resources
    delete_all_cloud_init_secret delete_secret delete_service_account_and_role delete_if_found
    delete delete_vm_service ignoring_not_found delete_worker_nodes delete_nodes to_delete keys
    lookup
busy_is_deleted = refl

vm_ray_cluster_reconcile-AllWellFormed_example :
    AllWellFormed (vm_ray_cluster_reconcile toy a_cluster idle).1
vm_ray_cluster_reconcile-AllWellFormed_example =
    vm_ray_cluster_reconcile-AllWellFormed toy toy_util-IsFinalizers toy_client-AnswersWellFormed
      a_cluster idle (with_fresh_status-HasWellFormed a_cluster)

abbrev pub steady : Ctl Toy
steady = record { cluster = a_cluster; world = some some_secret }

steady_workers : is_err (reconcile_worker_nodes toy steady).0 ≡ false
unfolding reconcile_worker_nodes delete_worker_nodes delete_nodes to_delete keys lookup
    reconcile_desired_workers reconcile_worker node_request process_node_vm_state dispatch
    process_empty deploy_vm deployment_request new_vm_operator_provider deploy
    create_cloud_init_secret read_private_key_for_cluster get_vm_class
steady_workers = refl

reconcile_worker_nodes_lem_example :
    is_some (lookup "ray-w-one" (workers_of (reconcile_worker_nodes toy steady).1))
    ≡ is_some (lookup "ray-w-one" a_cluster.spec.autoscaler_desired_workers)
reconcile_worker_nodes_lem_example =
    reconcile_worker_nodes_lem toy steady "ray-w-one" steady_workers

idle_is_guarded : (add_finalizer_and_nounce toy idle).0 ≡ ok tt
unfolding add_finalizer_and_nounce contains lookup
idle_is_guarded = ground arith

add_finalizer_and_nounce_lem_example :
    IsGuarded toy toy_util-IsFinalizers toy_client-Stores
      (add_finalizer_and_nounce toy idle).1.cluster
unfolding contains
add_finalizer_and_nounce_lem_example =
    add_finalizer_and_nounce_lem toy toy_util-IsFinalizers toy_client-Stores idle refl refl
      idle_is_guarded

-- The busy cluster, which a user has deleted.
abbrev doomed : Ctl Toy
doomed = record {
  cluster = record busy_cluster {
    object_meta = record busy_cluster.object_meta {
      finalizers = finalizer_name ∷ [];
      deletion_timestamp = some 7;
    };
  };
  world = some some_secret;
}

doomed_loses_finalizer :
    (deletion toy doomed.cluster doomed).1.cluster.object_meta ≢ doomed.cluster.object_meta
unfolding deletion remove_finalizer contains vm_ray_cluster_delete new_vm_operator_provider
    delete_auxiliary_resources delete_all_cloud_init_secret delete_secret
    delete_service_account_and_role delete_if_found delete delete_vm_service ignoring_not_found
    delete_worker_nodes delete_nodes to_delete keys lookup
doomed_loses_finalizer h = cc (ap (λ m. m.finalizers) h)

finalizer_goes_last_example : is_err (vm_ray_cluster_delete toy doomed).0 ≡ false
finalizer_goes_last_example = finalizer_goes_last toy doomed doomed.cluster doomed_loses_finalizer
