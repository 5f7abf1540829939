-- ===== src/Tests/Steps.antt =====
-- The theorems on the steps of the reconciler, and on deletion, at sample clusters.
use Prim.Native.String.{count}
use ray_on_vcf.Prelude.{
  ◌≡◌, ◌≢◌, ◌↔◌, ◌⊎◌, refl, true, false, none, some, [], ◌∷◌, contains, if◌then◌else◌,
}
use ray_on_vcf.Prelude.Dict.{lookup, keys}
use ray_on_vcf.Go.{ignoring_not_found, ok, err, is_err}
use ray_on_vcf.Api.{VmRayCluster, VmRayClusterState, RayProcessStatus}
use ray_on_vcf.Api.Conditions.{
  failure_to_delete_auxiliary_resources, failure_to_delete_head_node, failure_to_delete_worker_node,
}
use ray_on_vcf.Lcm.{process_node_vm_state, dispatch, process_empty, deploy_vm, deployment_request}
use ray_on_vcf.Controller.State.{Reconciler, Ctl, add_error_condition}
use ray_on_vcf.Controller.Dependencies.{
  check, check_classes, compact, vm_classes, validate_auxiliary_dependencies,
}
use ray_on_vcf.Controller.Dependencies.Missing.{HasAll, validate_iff_HasAll}
use ray_on_vcf.Controller.Finalizer.{
  finalizer_name, head_node_nounce_label, create_random_nounce, add_finalizer_and_nounce,
}
use ray_on_vcf.Controller.Finalizer.Nonce.{is_alphanumeric, create_random_nounce_lem}
use ray_on_vcf.Controller.Workers.{
  node_request, delete_nodes, to_delete, delete_worker_nodes, reconcile_head_node,
}
use ray_on_vcf.Controller.Workers.Deletion.{workers_of, superfluous, delete_worker_nodes_lem}
use ray_on_vcf.Controller.Reconcile.{
  ReconcileResult, after_head, update_status, vm_ray_cluster_delete, dependencies_step, head_step,
  vm_ray_cluster_reconcile,
}
use ray_on_vcf.Controller.Reconcile.Deletion.{
  aux_answer, head_answer, without_head, Reports, failure_is_reported,
}
use ray_on_vcf.Controller.Reconcile.Gate.{workers_wait_for_head, requeue_duration}
use ray_on_vcf.Controller.Reconcile.Health.{
  reported_is_unhealthy, healthy_means, cleared, finalized, root_secret_made, secured,
}
use ray_on_vcf.Vmop.{
  deploy, deploy_vm_service, get_vm_class, new_vm_operator_provider, delete, delete_vm_service,
}
use ray_on_vcf.Tls.{create_root_secret}
use ray_on_vcf.Vmop.Secrets.{
  create_cloud_init_secret, read_private_key_for_cluster, get_or_create_private_key_secret,
}
use ray_on_vcf.Vmop.Rbac.{create_service_account_and_role, create_if_missing, delete_if_found}
use ray_on_vcf.Tests.Sample.{absent, Toy, toy_client, toy_host, some_secret, a_cluster}
use ray_on_vcf.Tests.Laws.{toy_client-ReadsOnly, toy_host-IsRandom}
use ray_on_vcf.Tests.Clusters.{toy, busy, idle, steady}

validate_iff_HasAll_example :
    ((validate_auxiliary_dependencies toy idle).0 ≡ ok false) ↔ HasAll toy a_cluster none
validate_iff_HasAll_example = validate_iff_HasAll toy toy_client-ReadsOnly idle

head_is_deploying :
    (reconcile_head_node toy steady).1.cluster.status.head_node_status.ray_status
    ≡ RayProcessStatus.unset
unfolding reconcile_head_node node_request process_node_vm_state dispatch process_empty deploy_vm
    deployment_request new_vm_operator_provider deploy_vm_service deploy create_cloud_init_secret
    read_private_key_for_cluster get_vm_class lookup create_service_account_and_role
    create_if_missing get_or_create_private_key_secret
head_is_deploying = refl

workers_wait_for_head_example : workers_of (head_step toy a_cluster steady).1 ≡ workers_of steady
workers_wait_for_head_example =
    workers_wait_for_head toy a_cluster steady (λ h. cc (h, head_is_deploying))

abbrev in_a_minute : ReconcileResult
in_a_minute = record { requeue_after = 60 }

requeue_duration_example :
    ((is_err (reconcile_head_node toy steady).0 ≡ true) × (in_a_minute.requeue_after ≡ 15))
    ⊎ ((is_err (reconcile_head_node toy steady).0 ≡ false) × (in_a_minute.requeue_after ≡ 60))
unfolding head_step after_head update_status reconcile_head_node node_request process_node_vm_state
    dispatch process_empty deploy_vm deployment_request new_vm_operator_provider deploy_vm_service
    deploy create_cloud_init_secret read_private_key_for_cluster get_vm_class lookup
    create_service_account_and_role create_if_missing get_or_create_private_key_secret
requeue_duration_example = requeue_duration toy a_cluster steady in_a_minute refl

-- A server without the image.
abbrev poor : Reconciler Toy
poor = record toy { client = record toy_client { get_vm_image = λ k w. (err absent, w) } }

image_is_missing : (dependencies_step poor a_cluster steady).1.cluster.status.conditions ≢ []
unfolding dependencies_step validate_auxiliary_dependencies check check_classes compact vm_classes
    update_status add_error_condition
image_is_missing h = cc h

reported_is_unhealthy_example :
    (dependencies_step poor a_cluster steady).1.cluster.status.cluster_state
    ≡ VmRayClusterState.unhealthy
reported_is_unhealthy_example = reported_is_unhealthy poor a_cluster steady refl image_is_missing

-- A cluster that has the finalizer and the nonce.
abbrev guarded_cluster : VmRayCluster
guarded_cluster = record a_cluster {
  object_meta = record a_cluster.object_meta {
    finalizers = finalizer_name ∷ [];
    labels = (head_node_nounce_label, "abcde") ∷ [];
  };
}

abbrev guarded : Ctl Toy
guarded = record { cluster = guarded_cluster; world = some some_secret }

guarded_ends : (vm_ray_cluster_reconcile toy guarded_cluster guarded).0 ≡ ok in_a_minute
unfolding vm_ray_cluster_reconcile add_finalizer_and_nounce contains create_root_secret
    dependencies_step validate_auxiliary_dependencies check check_classes compact vm_classes
    head_step after_head update_status reconcile_head_node node_request process_node_vm_state
    dispatch process_empty deploy_vm deployment_request new_vm_operator_provider deploy_vm_service
    deploy create_cloud_init_secret read_private_key_for_cluster get_vm_class lookup
    create_service_account_and_role create_if_missing get_or_create_private_key_secret
guarded_ends = refl

guarded_state :
    (vm_ray_cluster_reconcile toy guarded_cluster guarded).1.cluster.status.cluster_state
    ≡ VmRayClusterState.healthy
unfolding vm_ray_cluster_reconcile add_finalizer_and_nounce contains create_root_secret
    dependencies_step validate_auxiliary_dependencies check check_classes compact vm_classes
    head_step after_head update_status reconcile_head_node node_request process_node_vm_state
    dispatch process_empty deploy_vm deployment_request new_vm_operator_provider deploy_vm_service
    deploy create_cloud_init_secret read_private_key_for_cluster get_vm_class lookup
    create_service_account_and_role create_if_missing get_or_create_private_key_secret
guarded_state = refl

guarded_is_healthy :
    (vm_ray_cluster_reconcile toy guarded_cluster guarded).1.cluster.status.cluster_state
    ≢ VmRayClusterState.unhealthy
guarded_is_healthy h = cc (guarded_state, h)

healthy_means_example :
    ((add_finalizer_and_nounce toy (cleared guarded)).0 ≡ ok tt)
    × ((root_secret_made toy guarded (finalized toy guarded)).0 ≡ ok tt)
    × ((validate_auxiliary_dependencies toy (secured toy guarded)).0 ≡ ok false)
    × ((reconcile_head_node toy (validate_auxiliary_dependencies toy (secured toy guarded)).1).0
        ≡ ok tt)
healthy_means_example =
    healthy_means toy guarded_cluster guarded in_a_minute guarded_ends guarded_is_healthy

-- A provider that cannot delete the auxiliary resources.
abbrev stuck : Reconciler Toy
stuck = record toy {
  provider = record toy.provider { delete_auxiliary_resources = λ n m w. (err absent, w) };
}

failure_is_reported_example :
    ((aux_answer stuck busy ≡ err absent)
      × Reports stuck busy absent failure_to_delete_auxiliary_resources)
    ⊎ ((aux_answer stuck busy ≡ ok tt)
        × (head_answer stuck busy ≡ err absent)
        × Reports stuck busy absent failure_to_delete_head_node)
    ⊎ ((aux_answer stuck busy ≡ ok tt)
        × (head_answer stuck busy ≡ ok tt)
        × ((delete_worker_nodes stuck true (without_head stuck busy)).0 ≡ err absent)
        × Reports stuck busy absent failure_to_delete_worker_node)
unfolding vm_ray_cluster_delete
failure_is_reported_example = failure_is_reported stuck busy absent refl

busy_trims : is_err (delete_worker_nodes toy false busy).0 ≡ false
unfolding new_vm_operator_provider delete_if_found delete delete_vm_service ignoring_not_found
    delete_worker_nodes delete_nodes to_delete keys lookup
busy_trims = refl

delete_worker_nodes_lem_example :
    lookup "ray-w-old" (workers_of (delete_worker_nodes toy false busy).1) ≡ (
      if superfluous toy false "ray-w-old" busy then none else lookup "ray-w-old" (workers_of busy))
delete_worker_nodes_lem_example = delete_worker_nodes_lem toy false busy "ray-w-old" busy_trims

create_random_nounce_lem_example :
    (count (create_random_nounce (toy_host {W = Toy}) 5 none).0 ≡ 5)
    × (is_alphanumeric (create_random_nounce (toy_host {W = Toy}) 5 none).0 ≡ true)
create_random_nounce_lem_example = create_random_nounce_lem toy_host 5 none toy_host-IsRandom
