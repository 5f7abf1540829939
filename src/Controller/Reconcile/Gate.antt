-- ===== src/Controller/Reconcile/Gate.antt =====
-- What decides whether the workers are touched, and when the cluster is looked at again.
use ray_on_vcf.Prelude.{◌≡◌, ◌≢◌, ◌⊎◌, refl, true, false, arith}
use ray_on_vcf.Go.{ok, is_err}
use ray_on_vcf.Api.{RayProcessStatus, VmRayCluster}
use ray_on_vcf.Controller.State.{Reconciler, Ctl, add_error_condition}
use ray_on_vcf.Controller.Workers.{reconcile_head_node}
use ray_on_vcf.Controller.Workers.Deletion.{workers_of}
use ray_on_vcf.Controller.Reconcile.{
  ReconcileResult, update_status, head_step, after_head, workers_step,
}

module _ {W : Type 0} (r : Reconciler W) (original : VmRayCluster) (c : Ctl W) where
  head_keeps_workers : workers_of (reconcile_head_node r c).1 ≡ workers_of c
  unfolding reconcile_head_node
  head_keeps_workers = refl

  -- Unless reconciling the head node leaves it with Ray running, the statuses of the workers are
  -- left as they are.
  pub workers_wait_for_head :
      (reconcile_head_node r c).1.cluster.status.head_node_status.ray_status
        ≢ RayProcessStatus.ray_running
      → workers_of (head_step r original c).1 ≡ workers_of c
  unfolding head_step after_head update_status workers_step add_error_condition
  workers_wait_for_head h = ground (arith, head_keeps_workers)

  -- Where the status is stored, the next reconcile follows after 15 seconds if the head node failed
  -- and after 60 seconds otherwise.
  pub requeue_duration :
      (answer : ReconcileResult)
      → (head_step r original c).0 ≡ ok answer
      → ((is_err (reconcile_head_node r c).0 ≡ true) × (answer.requeue_after ≡ 15))
        ⊎ ((is_err (reconcile_head_node r c).0 ≡ false) × (answer.requeue_after ≡ 60))
  unfolding head_step after_head update_status
  requeue_duration answer h = ground arith
