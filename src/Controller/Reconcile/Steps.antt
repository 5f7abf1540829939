-- ===== src/Controller/Reconcile/Steps.antt =====
-- What a reconcile keeps, from the finalizer on, if each of its calls keeps it.
use ray_on_vcf.Prelude.{ℕ, List, ◌∷◌, Bool, ◌||◌, true, false, String, [], leb, length}
use ray_on_vcf.Go.{is_not_found, fail, Error, Exec, Result, ok, err, pure, attempt, ◌>>=◌, ◌>>◌}
use ray_on_vcf.Go.Keeps.{Keeps, fail-Keeps, pure-Keeps, when-Keeps, attempt-Keeps, bind-Keeps}
use ray_on_vcf.Api.{RayProcessStatus, VmRayCluster, VmRayClusterState}
use ray_on_vcf.Kube.{ObjectKey}
use ray_on_vcf.Controller.State.{Reconciler, Ctl, in_world, the_cluster, add_error_condition}
use ray_on_vcf.Controller.Dependencies.{
  check_answer, check, check_classes, compact, vm_classes, validate_auxiliary_dependencies,
}
use ray_on_vcf.Api.Conditions.{
  invalid_vmi, invalid_storage_class, invalid_vm_class, resource_not_found, head_node_ready,
  worker_node_ready, failure_to_deploy_node,
}
use ray_on_vcf.Controller.Workers.{
  reconcile_head_node, reconcile_worker_nodes, get_min_worker_nodes,
}
use ray_on_vcf.Controller.Reconcile.{
  report_workers, workers_answer, update_status, workers_step, set_state, default_requeue_duration,
  head_requeue_duration, workers_if_running, head_answer, dependencies_answer, after_head,
  head_step, dependencies_step,
}

-- The calls of a reconcile keep a property of its state.
pub record Stepwise {W : Type 0} (r : Reconciler W) (P : Ctl W → Type 0) : Type 0 where
  pub state : (s : VmRayClusterState) → Keeps P (set_state r s)
  pub condition :
      (e : Error) (type reason : String) → Keeps P (add_error_condition r.host e type reason)
  pub image : (k : ObjectKey) → Keeps P (in_world (r.client.get_vm_image k))
  pub storage : (k : ObjectKey) → Keeps P (in_world (r.client.get_storage_class k))
  pub class : (k : ObjectKey) → Keeps P (in_world (r.client.get_vm_class k))
  pub patch : (i : VmRayCluster) (d : ℕ) → Keeps P (update_status r i d)
  pub head : Keeps P (reconcile_head_node r)
  pub workers : Keeps P (reconcile_worker_nodes r)

module _ {W : Type 0} (r : Reconciler W) (P : Ctl W → Type 0) (law : Stepwise r P) where
  pub then-Keeps :
      {A B : Type 0} (m : Exec (Ctl W) A) (n : Exec (Ctl W) B)
      → Keeps P m
      → Keeps P n
      → Keeps P (m >> n)
  then-Keeps m n km kn = bind-Keeps P m (λ _. n) km (λ _. kn)

  check_answer-Keeps : (type : String) (a : Result (Unit {0})) → Keeps P (check_answer r type a)
  check_answer-Keeps type (ok x) = pure-Keeps P false
  check_answer-Keeps type (err e) =
      when-Keeps P (is_not_found e)
        (add_error_condition r.host e type resource_not_found >> pure true) (fail e)
        (then-Keeps (add_error_condition r.host e type resource_not_found) (pure true)
          (law.condition e type resource_not_found) (pure-Keeps P true))
        (fail-Keeps P e)

  check-Keeps :
      (get : Exec W Unit) (type : String) → Keeps P (in_world get) → Keeps P (check r get type)
  unfolding check
  check-Keeps get type k =
      bind-Keeps P (attempt (in_world get)) (check_answer r type) (attempt-Keeps P (in_world get) k)
        (check_answer-Keeps type)

  check_classes-Keeps :
      (namespace : String) (names : List String) (invalid : Bool)
      → Keeps P (check_classes r namespace names invalid)
  unfolding check_classes
  check_classes-Keeps namespace [] invalid = pure-Keeps P invalid
  check_classes-Keeps namespace (name ∷ names) invalid =
      let get = r.client.get_vm_class (record { namespace = namespace; name = name }) in
      bind-Keeps P (check r get invalid_vm_class)
        (λ missing. check_classes r namespace names (invalid || missing))
        (check-Keeps get invalid_vm_class (law.class _))
        (λ missing. check_classes-Keeps namespace names (invalid || missing))

  validate-Keeps : Keeps P (validate_auxiliary_dependencies r)
  unfolding validate_auxiliary_dependencies
  validate-Keeps = record {
    kept = λ c h.
        let n = c.cluster.object_meta.namespace in
        let config = c.cluster.spec.node_config in
        let classes = compact (vm_classes config.node_types) in
        let image =
          check r (r.client.get_vm_image (record { namespace = n; name = config.vm_image }))
            invalid_vmi in
        let storage =
          check r
            (r.client.get_storage_class (record { namespace = n; name = config.storage_class }))
            invalid_storage_class in
        (bind-Keeps P image
            (λ no_image.
              storage >>= λ no_storage. check_classes r n classes (no_image || no_storage))
            (check-Keeps _ invalid_vmi (law.image _))
            (λ no_image.
              bind-Keeps P storage
                (λ no_storage. check_classes r n classes (no_image || no_storage))
                (check-Keeps _ invalid_storage_class (law.storage _))
                (λ no_storage. check_classes-Keeps n classes (no_image || no_storage)))).kept
          c h;
  }

  report_workers-Keeps : (e : Error) (i : VmRayCluster) → Keeps P (report_workers r e i)
  report_workers-Keeps e i =
      let unwell =
        set_state r VmRayClusterState.unhealthy
        >> add_error_condition r.host e worker_node_ready failure_to_deploy_node in
      when-Keeps P (leb (length i.status.current_workers) (get_min_worker_nodes i)) unwell (pure tt)
        (then-Keeps (set_state r VmRayClusterState.unhealthy)
          (add_error_condition r.host e worker_node_ready failure_to_deploy_node)
          (law.state VmRayClusterState.unhealthy)
          (law.condition e worker_node_ready failure_to_deploy_node))
        (pure-Keeps P tt)

  workers_answer-Keeps : (a : Result (Unit {0})) → Keeps P (workers_answer r a)
  workers_answer-Keeps (ok x) = pure-Keeps P tt
  workers_answer-Keeps (err e) =
      bind-Keeps P (the_cluster {W = W}) (report_workers r e) (record { kept = λ c h. h })
        (report_workers-Keeps e)

  workers_step-Keeps : Keeps P (workers_step r)
  unfolding workers_step
  workers_step-Keeps =
      bind-Keeps P (attempt (reconcile_worker_nodes r)) (workers_answer r)
        (attempt-Keeps P (reconcile_worker_nodes r) law.workers) workers_answer-Keeps

  if_running-Keeps : (s : RayProcessStatus) → Keeps P (workers_if_running r s)
  if_running-Keeps RayProcessStatus.ray_running = workers_step-Keeps
  if_running-Keeps RayProcessStatus.unset = pure-Keeps P tt
  if_running-Keeps RayProcessStatus.ray_initialized = pure-Keeps P tt
  if_running-Keeps RayProcessStatus.ray_fail = pure-Keeps P tt
  if_running-Keeps (RayProcessStatus.ray_other other) = pure-Keeps P tt

  after_head-Keeps : (i : VmRayCluster) → Keeps P (after_head r i)
  unfolding after_head
  after_head-Keeps i = record {
    kept = λ c h.
        let s = c.cluster.status.head_node_status.ray_status in
        (then-Keeps (workers_if_running r s) (update_status r i default_requeue_duration)
            (if_running-Keeps s) (law.patch i default_requeue_duration)).kept
          c h;
  }

  unhealthy-Keeps :
      (i : VmRayCluster) (d : ℕ)
      → Keeps P (set_state r VmRayClusterState.unhealthy >> update_status r i d)
  unhealthy-Keeps i d =
      then-Keeps (set_state r VmRayClusterState.unhealthy) (update_status r i d)
        (law.state VmRayClusterState.unhealthy) (law.patch i d)

  head_answer-Keeps : (i : VmRayCluster) (a : Result (Unit {0})) → Keeps P (head_answer r i a)
  head_answer-Keeps i (ok x) = after_head-Keeps i
  head_answer-Keeps i (err e) =
      let report = add_error_condition r.host e head_node_ready failure_to_deploy_node in
      let patch = update_status r i head_requeue_duration in
      then-Keeps (set_state r VmRayClusterState.unhealthy) (report >> patch)
        (law.state VmRayClusterState.unhealthy)
        (then-Keeps report patch (law.condition e head_node_ready failure_to_deploy_node)
          (law.patch i head_requeue_duration))

  head_step-Keeps : (i : VmRayCluster) → Keeps P (head_step r i)
  unfolding head_step
  head_step-Keeps i =
      bind-Keeps P (attempt (reconcile_head_node r)) (head_answer r i)
        (attempt-Keeps P (reconcile_head_node r) law.head) (head_answer-Keeps i)

  dependencies_answer-Keeps :
      (i : VmRayCluster) (a : Result Bool) → Keeps P (dependencies_answer r i a)
  dependencies_answer-Keeps i (ok false) = head_step-Keeps i
  dependencies_answer-Keeps i (ok true) = unhealthy-Keeps i default_requeue_duration
  dependencies_answer-Keeps i (err e) = unhealthy-Keeps i default_requeue_duration

  pub dependencies_step-Keeps : (i : VmRayCluster) → Keeps P (dependencies_step r i)
  unfolding dependencies_step
  dependencies_step-Keeps i =
      bind-Keeps P (attempt (validate_auxiliary_dependencies r)) (dependencies_answer r i)
        (attempt-Keeps P (validate_auxiliary_dependencies r) validate-Keeps)
        (dependencies_answer-Keeps i)
