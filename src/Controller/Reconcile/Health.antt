-- ===== src/Controller/Reconcile/Health.antt =====
-- What the state and the conditions of a cluster say.
use ray_on_vcf.Prelude.{sym, ap, ◌≡◌, ◌≢◌, refl, ◌∙◌, String, false, List, [], ◌∷◌, arith}
use ray_on_vcf.Prelude.Dict.{Dict}
use ray_on_vcf.Go.{ok, Exec, bind_inv, ◌>>=◌, ◌>>◌}
use ray_on_vcf.Tls.{create_root_secret}
use ray_on_vcf.Controller.Finalizer.{add_finalizer_and_nounce}
use ray_on_vcf.Go.Keeps.{Keeps, bind-Keeps}
use ray_on_vcf.Api.{Condition, VmRayCluster, VmRayClusterState}
use ray_on_vcf.Controller.State.{Reconciler, Ctl, add_error_condition, in_world, the_cluster}
use ray_on_vcf.Controller.Workers.{
  reconcile_head_node, reconcile_worker, reconcile_desired_workers, reconcile_desired,
  delete_worker_nodes, reconcile_worker_nodes,
}
use ray_on_vcf.Controller.Workers.Deletion.{delete_nodes-Deleted}
use ray_on_vcf.Controller.Dependencies.{validate_auxiliary_dependencies}
use ray_on_vcf.Controller.Dependencies.Verdict.{validate_found}
use ray_on_vcf.Controller.Reconcile.{
  update_status, workers_step, after_head, head_step, dependencies_step, ReconcileResult,
  vm_ray_cluster_reconcile,
}

-- The conditions and the state of a cluster are those.
abbrev Reads : {W : Type 0} → List Condition → VmRayClusterState → Ctl W → Type 0
Reads conditions state c =
    (c.cluster.status.conditions ≡ conditions) × (c.cluster.status.cluster_state ≡ state)

-- The state in which a reconcile adds the finalizer: no conditions, and healthy.
abbrev pub cleared : {W : Type 0} → Ctl W → Ctl W
cleared c = record c {
  cluster = record c.cluster {
    status = record c.cluster.status { conditions = []; cluster_state = VmRayClusterState.healthy };
  };
}

module _ {W : Type 0} (r : Reconciler W) where
  module _ (conditions : List Condition) (state : VmRayClusterState) where
    reconcile_worker-Keeps :
        (name node_type : String)
        → Keeps (Reads conditions state) (reconcile_worker r name node_type)
    unfolding reconcile_worker
    reconcile_worker-Keeps name node_type = record { kept = λ c h. h }

    delete_worker_nodes-Keeps : Keeps (Reads conditions state) (delete_worker_nodes r false)
    unfolding delete_worker_nodes
    delete_worker_nodes-Keeps = record {
      kept = λ c h. let d = delete_nodes-Deleted r _ c in (d.conditions ∙ h.0, d.state ∙ h.1);
    }

    reconcile_desired_workers-Keeps :
        (desired : Dict String)
        → Keeps (Reads conditions state) (reconcile_desired_workers r desired)
    unfolding reconcile_desired_workers
    reconcile_desired_workers-Keeps [] = record { kept = λ c h. h }
    reconcile_desired_workers-Keeps ((name, node_type) ∷ desired) =
        bind-Keeps (Reads conditions state) (reconcile_worker r name node_type)
          (λ _. reconcile_desired_workers r desired) (reconcile_worker-Keeps name node_type)
          (λ _. reconcile_desired_workers-Keeps desired)

    reconcile_worker_nodes-Keeps : Keeps (Reads conditions state) (reconcile_worker_nodes r)
    unfolding reconcile_worker_nodes
    reconcile_worker_nodes-Keeps =
        bind-Keeps (Reads conditions state) (delete_worker_nodes r false) (λ _. reconcile_desired r)
          delete_worker_nodes-Keeps
          (λ _. record {
            kept = λ c.
                (reconcile_desired_workers-Keeps c.cluster.spec.autoscaler_desired_workers).kept c;
          })

  head_reads :
      (c : Ctl W)
      → ((reconcile_head_node r c).1.cluster.status.conditions ≡ c.cluster.status.conditions)
        × ((reconcile_head_node r c).1.cluster.status.cluster_state
            ≡ c.cluster.status.cluster_state)
  unfolding reconcile_head_node
  head_reads c = (refl, refl)

  abbrev IsReported : Ctl W → Type 0
  IsReported c =
      c.cluster.status.conditions ≢ []
      → c.cluster.status.cluster_state ≡ VmRayClusterState.unhealthy

  abbrev IsClean : Ctl W → Type 0
  IsClean c = c.cluster.status.conditions ≡ []

  workers_step-IsReported : (c : Ctl W) → IsClean c → IsReported (workers_step r c).1
  unfolding workers_step add_error_condition
  workers_step-IsReported c h =
      let kept =
        (reconcile_worker_nodes-Keeps c.cluster.status.conditions
            c.cluster.status.cluster_state).kept
          c (refl, refl) in
      λ reported. ground (arith, kept)

  after_head-IsReported :
      (original : VmRayCluster) (c : Ctl W) → IsClean c → IsReported (after_head r original c).1
  unfolding after_head update_status
  after_head-IsReported original c h = λ reported. ground (arith, workers_step-IsReported c h)

  head_step-IsReported :
      (original : VmRayCluster) (c : Ctl W) → IsClean c → IsReported (head_step r original c).1
  unfolding head_step update_status add_error_condition
  head_step-IsReported original c h = λ reported.
      ground (arith, head_reads c, after_head-IsReported original (reconcile_head_node r c).1)

  -- The steps after the root certificate, from a cluster whose conditions were just cleared: if
  -- any condition is reported in the end, the cluster is unhealthy.
  pub reported_is_unhealthy :
      (original : VmRayCluster) (c : Ctl W)
      → c.cluster.status.conditions ≡ []
      → (dependencies_step r original c).1.cluster.status.conditions ≢ []
      → (dependencies_step r original c).1.cluster.status.cluster_state
        ≡ VmRayClusterState.unhealthy
  unfolding dependencies_step update_status
  reported_is_unhealthy original c h reported = ground (
    arith,
    validate_found r c,
    head_step-IsReported original (validate_auxiliary_dependencies r c).1,
  )

  found_and_made :
      (original : VmRayCluster) (c : Ctl W)
      → (dependencies_step r original c).1.cluster.status.cluster_state
        ≢ VmRayClusterState.unhealthy
      → ((validate_auxiliary_dependencies r c).0 ≡ ok false)
        × ((reconcile_head_node r (validate_auxiliary_dependencies r c).1).0 ≡ ok tt)
  unfolding dependencies_step head_step update_status add_error_condition
  found_and_made original c h = ground arith

  -- The states in which a reconcile makes the root secret, and looks for what the cluster refers to.
  abbrev pub finalized : Ctl W → Ctl W
  finalized c = (add_finalizer_and_nounce r (cleared c)).1

  abbrev pub root_secret_made : Ctl W → Exec (Ctl W) Unit
  root_secret_made c =
      let m = (finalized c).cluster.object_meta in
      in_world (create_root_secret r.client r.host m.namespace m.name)

  abbrev pub secured : Ctl W → Ctl W
  secured c = (root_secret_made c (finalized c)).1

  -- If a reconcile of a cluster that is not being deleted ends without an error, and the cluster is
  -- not unhealthy then: it has the finalizer's step and its root secret behind it without an error,
  -- nothing that it refers to was found missing, and the head node was reconciled without an error.
  pub healthy_means :
      (original : VmRayCluster) (c : Ctl W) (res : ReconcileResult)
      → (vm_ray_cluster_reconcile r original c).0 ≡ ok res
      → (vm_ray_cluster_reconcile r original c).1.cluster.status.cluster_state
        ≢ VmRayClusterState.unhealthy
      → ((add_finalizer_and_nounce r (cleared c)).0 ≡ ok tt)
        × ((root_secret_made c (finalized c)).0 ≡ ok tt)
        × ((validate_auxiliary_dependencies r (secured c)).0 ≡ ok false)
        × ((reconcile_head_node r (validate_auxiliary_dependencies r (secured c)).1).0 ≡ ok tt)
  unfolding vm_ray_cluster_reconcile
  healthy_means original c res h healthy =
      let last : Exec (Ctl W) ReconcileResult = dependencies_step r original in
      let tail : Exec (Ctl W) ReconcileResult = the_cluster {W = W} >>= λ i.
      in_world (create_root_secret r.client r.host i.object_meta.namespace i.object_meta.name)
      >> last in
      let (a, e1, x1) = bind_inv (add_finalizer_and_nounce r) (λ _. tail) (cleared c) h in
      let (b, e2, x2) =
        bind_inv (root_secret_made c) (λ _. last) (finalized c) (sym (ap (λ o. o.0) x1) ∙ h) in
      let end =
        found_and_made original (secured c)
          (λ bad. healthy (ap (λ o. o.1.cluster.status.cluster_state) (x1 ∙ x2) ∙ bad)) in
      (e1, e2, end.0, end.1)
