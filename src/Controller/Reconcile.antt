-- ===== src/Controller/Reconcile.antt =====
-- `Reconcile`, `VMRayClusterReconcile`, `VMRayClusterDelete`, `updateStatus` and
-- `fetchVMRayCluster` of vmray-cluster-operator/internal/controller. Times are in seconds.
pub mod Gate
pub mod Health
pub mod Deletion
pub mod Cleanup
pub mod Steps
pub mod Statuses
use ray_on_vcf.Prelude.{
  ℕ, Bool, true, false, Option, none, some, [], length, leb, if◌then◌else◌, is_some,
}
use ray_on_vcf.Go.{
  Error, Result, ok, err, Exec, pure, fail, attempt, on_error, ◌>>=◌, ◌>>◌, when◌then◌else◌,
  ignore_not_found,
}
use ray_on_vcf.Api.{RayProcessStatus, VmRayClusterState, VmRayCluster}
use ray_on_vcf.Api.Conditions.{
  head_node_ready, worker_node_ready, cluster_delete, failure_to_deploy_node,
  failure_to_delete_auxiliary_resources, failure_to_delete_head_node, failure_to_delete_worker_node,
}
use ray_on_vcf.Provider.{get_head_node_name}
use ray_on_vcf.Kube.{ObjectKey}
use ray_on_vcf.Tls.{create_root_secret}
use ray_on_vcf.Controller.State.{
  Reconciler, Ctl, in_world, the_cluster, on_status, add_error_condition,
}
use ray_on_vcf.Controller.Finalizer.{nounce_of, add_finalizer_and_nounce, remove_finalizer}
use ray_on_vcf.Controller.Dependencies.{validate_auxiliary_dependencies}
use ray_on_vcf.Controller.Workers.{
  reconcile_head_node, delete_worker_nodes, reconcile_worker_nodes, get_min_worker_nodes,
}

abbrev pub default_requeue_duration : ℕ
default_requeue_duration = 60

abbrev pub head_requeue_duration : ℕ
head_requeue_duration = 15

-- `ctrl.Result`
pub record ReconcileResult : Type 0 where
  pub requeue_after : ℕ

-- `ctrl.Result{}`
abbrev pub done : ReconcileResult
done = record { requeue_after = 0 }

module _ {W : Type 0} (r : Reconciler W) where
  abbrev pub set_state : VmRayClusterState → Exec (Ctl W) Unit
  set_state s = on_status (λ status. record status { cluster_state = s })

  -- `updateStatus`: a patch from the cluster that was read to the cluster in hand.
  unfoldable pub update_status : VmRayCluster → ℕ → Exec (Ctl W) ReconcileResult
  update_status original duration = do
    i ← the_cluster
    in_world (r.client.patch_status original i)
    pure (record { requeue_after = duration })

  -- `VMRayClusterDelete`
  unfoldable pub vm_ray_cluster_delete : Exec (Ctl W) Unit
  vm_ray_cluster_delete = do
    i ← the_cluster
    on_error
        (in_world
          (r.provider.delete_auxiliary_resources i.object_meta.namespace i.object_meta.name))
        (λ e. add_error_condition r.host e cluster_delete failure_to_delete_auxiliary_resources)
    on_error
        (in_world (
          r.provider.delete i.object_meta.namespace
            (get_head_node_name i.object_meta.name (nounce_of i))))
        (λ e. add_error_condition r.host e cluster_delete failure_to_delete_head_node)
    on_error (delete_worker_nodes r true)
        (λ e. add_error_condition r.host e cluster_delete failure_to_delete_worker_node)

  -- Step 4 of `VMRayClusterReconcile`: an error of the workers is a condition, and makes the
  -- cluster unhealthy, only if there are no more workers than the minimum.
  abbrev pub report_workers : Error → VmRayCluster → Exec (Ctl W) Unit
  report_workers e i =
      when leb (length i.status.current_workers) (get_min_worker_nodes i)
      then (set_state VmRayClusterState.unhealthy
          >> add_error_condition r.host e worker_node_ready failure_to_deploy_node)
      else pure tt

  abbrev pub workers_answer : Result (Unit {0}) → Exec (Ctl W) Unit
  workers_answer (ok _) = pure tt
  workers_answer (err e) = the_cluster >>= report_workers e

  pub workers_step : Exec (Ctl W) Unit
  workers_step = attempt (reconcile_worker_nodes r) >>= workers_answer

  -- Steps 4 and 5, once the head node is reconciled.
  abbrev pub workers_if_running : RayProcessStatus → Exec (Ctl W) Unit
  workers_if_running RayProcessStatus.ray_running = workers_step
  workers_if_running _ = pure tt

  unfoldable pub after_head : VmRayCluster → Exec (Ctl W) ReconcileResult
  after_head original = do
    i ← the_cluster
    workers_if_running i.status.head_node_status.ray_status
    update_status original default_requeue_duration

  -- Step 3.
  abbrev pub head_answer : VmRayCluster → Result (Unit {0}) → Exec (Ctl W) ReconcileResult
  head_answer original (ok _) = after_head original
  head_answer original (err e) = do
    set_state VmRayClusterState.unhealthy
    add_error_condition r.host e head_node_ready failure_to_deploy_node
    update_status original head_requeue_duration

  unfoldable pub head_step : VmRayCluster → Exec (Ctl W) ReconcileResult
  head_step original = attempt (reconcile_head_node r) >>= head_answer original

  -- Step 2.
  abbrev pub dependencies_answer : VmRayCluster → Result Bool → Exec (Ctl W) ReconcileResult
  dependencies_answer original (ok false) = head_step original
  dependencies_answer original (ok true) =
      set_state VmRayClusterState.unhealthy >> update_status original default_requeue_duration
  dependencies_answer original (err e) =
      set_state VmRayClusterState.unhealthy >> update_status original default_requeue_duration

  unfoldable pub dependencies_step : VmRayCluster → Exec (Ctl W) ReconcileResult
  dependencies_step original =
      attempt (validate_auxiliary_dependencies r) >>= dependencies_answer original

  -- `VMRayClusterReconcile`
  unfoldable pub vm_ray_cluster_reconcile : VmRayCluster → Exec (Ctl W) ReconcileResult
  vm_ray_cluster_reconcile original = do
    on_status (λ s. record s { conditions = []; cluster_state = VmRayClusterState.healthy })
    add_finalizer_and_nounce r
    i ← the_cluster
    in_world (create_root_secret r.client r.host i.object_meta.namespace i.object_meta.name)
    dependencies_step original

  -- What `Reconcile` does for a cluster that is being deleted.
  unfoldable pub deletion : VmRayCluster → Exec (Ctl W) ReconcileResult
  deletion original = do
    answer ← attempt vm_ray_cluster_delete
    elim answer [
      | err _ ↦ update_status original default_requeue_duration
      | ok _ ↦ remove_finalizer r >> pure done
    ]

  -- `Reconcile`, after the cluster was read: `original` is its deep copy.
  unfoldable pub reconcile_cluster : VmRayCluster → Exec W ReconcileResult
  reconcile_cluster original w =
      let start : Ctl W = record { cluster = original; world = w } in
      let (answer, c) =
        (when is_some original.object_meta.deletion_timestamp
            then deletion original
            else vm_ray_cluster_reconcile original)
          start in
      (answer, c.world)

  -- `fetchVMRayCluster`, which tells the errors apart for the log only.
  abbrev pub fetch_vm_ray_cluster : ObjectKey → Exec W VmRayCluster
  fetch_vm_ray_cluster key = r.client.get_cluster key

  -- `Reconcile`
  unfoldable pub reconcile : ObjectKey → Exec W ReconcileResult
  reconcile key = do
    answer ← attempt (fetch_vm_ray_cluster key)
    elim answer [
      | ok i ↦ reconcile_cluster i
      | err e ↦ elim (ignore_not_found e) [ none ↦ pure done | some e' ↦ fail e' ]
    ]
