-- ===== src/Controller/Reconcile/Deletion.antt =====
-- The deletion of a cluster: its parts go in order, and the finalizer goes last.
use ray_on_vcf.Prelude.{◌≡◌, ◌≢◌, ◌⊎◌, inl, inr, ℕ, String, true, false, none, [], ◌∷◌, ◌++◌, arith}
use ray_on_vcf.Prelude.Dict.{lookup}
use ray_on_vcf.Go.{Error, Result, ok, err, is_err, message, Result-cases}
use ray_on_vcf.Api.{Condition, ConditionStatus, VmRayCluster}
use ray_on_vcf.Api.Conditions.{
  cluster_delete, failure_to_delete_auxiliary_resources, failure_to_delete_head_node,
  failure_to_delete_worker_node,
}
use ray_on_vcf.Provider.{get_head_node_name}
use ray_on_vcf.Controller.State.{Reconciler, Ctl, add_error_condition}
use ray_on_vcf.Controller.Finalizer.{nounce_of}
use ray_on_vcf.Controller.Workers.{delete_worker_nodes}
use ray_on_vcf.Controller.Workers.Deletion.{
  workers_of, delete_worker_nodes_lem, delete_worker_nodes_keeps, delete_nodes-Deleted,
}
use ray_on_vcf.Controller.Reconcile.{vm_ray_cluster_delete, update_status, deletion}

module _ {W : Type 0} (r : Reconciler W) (c : Ctl W) where
  -- The head node's name, and the states after the first two parts are deleted.
  abbrev pub head_name : String
  head_name = get_head_node_name c.cluster.object_meta.name (nounce_of c.cluster)

  abbrev pub without_auxiliary : Ctl W
  without_auxiliary = record c {
    world =
        (r.provider.delete_auxiliary_resources c.cluster.object_meta.namespace
          c.cluster.object_meta.name c.world).1;
  }

  abbrev pub without_head : Ctl W
  without_head = record c {
    world = (r.provider.delete c.cluster.object_meta.namespace head_name without_auxiliary.world).1;
  }

  -- When the deletion of a cluster succeeds, no worker has a status any more.
  pub deleted_has_no_workers :
      (k : String)
      → is_err (vm_ray_cluster_delete r c).0 ≡ false
      → lookup k (workers_of (vm_ray_cluster_delete r c).1) ≡ none
  unfolding vm_ray_cluster_delete
  deleted_has_no_workers k h = ground (arith, delete_worker_nodes_lem r true without_head k)

  -- When the deletion of a cluster succeeds, the provider has deleted the auxiliary resources and
  -- then the head's machine, both without an error, and the deletion of the workers came last.
  pub deleted_in_order :
      is_err (vm_ray_cluster_delete r c).0 ≡ false
      → (is_err
            (r.provider.delete_auxiliary_resources c.cluster.object_meta.namespace
              c.cluster.object_meta.name c.world).0
          ≡ false)
        × (is_err
              (r.provider.delete c.cluster.object_meta.namespace head_name
                without_auxiliary.world).0
            ≡ false)
        × (vm_ray_cluster_delete r c ≡ delete_worker_nodes r true without_head)
  unfolding vm_ray_cluster_delete
  deleted_in_order h = ground arith

  delete_keeps_meta : (vm_ray_cluster_delete r c).1.cluster.object_meta ≡ c.cluster.object_meta
  unfolding vm_ray_cluster_delete add_error_condition
  delete_keeps_meta = ground (arith, delete_worker_nodes_keeps r true without_head)

  -- If the metadata of a cluster changes in its deletion, as when it loses its finalizer, then all
  -- parts of the cluster were deleted before.
  pub finalizer_goes_last :
      (original : VmRayCluster)
      → (deletion r original c).1.cluster.object_meta ≢ c.cluster.object_meta
      → is_err (vm_ray_cluster_delete r c).0 ≡ false
  unfolding deletion update_status
  finalizer_goes_last original h = ground (arith, delete_keeps_meta)

  -- The condition that reports an error of the deletion.
  abbrev pub report : Error → String → ℕ → Condition
  report e reason time = record {
    type = cluster_delete;
    state = ConditionStatus.condition_false;
    last_transition_time = time;
    reason = reason;
    message = message e;
  }

  delete_workers_keeps_conditions :
      (delete_worker_nodes r true without_head).1.cluster.status.conditions
      ≡ c.cluster.status.conditions
  unfolding delete_worker_nodes
  delete_workers_keeps_conditions = (delete_nodes-Deleted r _ without_head).conditions

  abbrev pub aux_answer : Result (Unit {0})
  aux_answer =
      (r.provider.delete_auxiliary_resources c.cluster.object_meta.namespace
        c.cluster.object_meta.name c.world).0

  abbrev pub head_answer : Result (Unit {0})
  head_answer =
      (r.provider.delete c.cluster.object_meta.namespace head_name without_auxiliary.world).0

  abbrev pub Reports : Error → String → Type 0
  Reports e reason =
      (time : ℕ) × ((vm_ray_cluster_delete r c).1.cluster.status.conditions
        ≡ c.cluster.status.conditions ++ report e reason time ∷ [])

  -- A deletion fails for exactly one of three reasons, and adds one condition with that error's text
  -- and that reason: the auxiliary resources could not be deleted; or they could and the head's
  -- machine could not; or both could and a worker could not.
  pub failure_is_reported :
      (e : Error)
      → (vm_ray_cluster_delete r c).0 ≡ err e
      → ((aux_answer ≡ err e) × Reports e failure_to_delete_auxiliary_resources)
        ⊎ ((aux_answer ≡ ok tt) × (head_answer ≡ err e) × Reports e failure_to_delete_head_node)
        ⊎ ((aux_answer ≡ ok tt)
            × (head_answer ≡ ok tt)
            × ((delete_worker_nodes r true without_head).0 ≡ err e)
            × Reports e failure_to_delete_worker_node)
  unfolding vm_ray_cluster_delete add_error_condition
  failure_is_reported e h = elim (Result-cases aux_answer) [
    | inr (e1, p) ↦
        let reports : Reports e failure_to_delete_auxiliary_resources =
          (r.host.now without_auxiliary.world, ground arith) in
        inl (ground arith, reports)
    | inl (a, p) ↦ elim (Result-cases head_answer) [
      | inr (e2, q) ↦
          let reports : Reports e failure_to_delete_head_node =
            (r.host.now without_head.world, ground arith) in
          inr (inl (ground arith, ground arith, reports))
      | inl (b, q) ↦
          let time = r.host.now (delete_worker_nodes r true without_head).1.world in
          let reports : Reports e failure_to_delete_worker_node =
            (time, ground (arith, delete_workers_keeps_conditions)) in
          inr (inr (ground arith, ground arith, ground arith, reports))
    ]
  ]
