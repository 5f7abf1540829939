-- ===== src/Controller/Reconcile/Statuses.antt =====
-- A whole reconcile leaves every node of the cluster with a well-formed status.
use ray_on_vcf.Prelude.{ℕ, ◌≡◌, inl, inr, [], subst, sym, ap, arith}
use ray_on_vcf.Prelude.Dict.{lookup}
use ray_on_vcf.Lcm.Invariant.{IsWellFormed}
use ray_on_vcf.Prelude.{◌∙◌}
use ray_on_vcf.Go.{ok, ◌>>=◌, ◌>>◌}
use ray_on_vcf.Go.Keeps.{Keeps}
use ray_on_vcf.Api.{VmRayCluster, VmRayClusterState}
use ray_on_vcf.Kube.{Client}
use ray_on_vcf.Controller.State.{Reconciler, Ctl, in_world, the_cluster, add_error_condition}
use ray_on_vcf.Controller.Finalizer.{add_finalizer_and_nounce}
use ray_on_vcf.Controller.Finalizer.Guard.{IsFinalizers}
use ray_on_vcf.Controller.Finalizer.Answer.{add_finalizer_and_nounce-IsKept}
use ray_on_vcf.Tls.{create_root_secret}
use ray_on_vcf.Controller.Workers.Statuses.{
  HasWellFormed, AllWellFormed, reconcile_head_node-Keeps, reconcile_worker_nodes-Keeps,
}
use ray_on_vcf.Controller.Reconcile.{update_status, dependencies_step, vm_ray_cluster_reconcile}
use ray_on_vcf.Controller.Reconcile.Steps.{Stepwise, then-Keeps, dependencies_step-Keeps}

-- The server answers an update with well-formed statuses, as it was only ever sent such statuses.
pub record AnswersWellFormed {W : Type 0} (client : Client W) : Type 0 where
  pub answer : (i j : VmRayCluster) (w : W) → (client.update_cluster i w).0 ≡ ok j → HasWellFormed j

of_status : {i j : VmRayCluster} → j.status ≡ i.status → HasWellFormed i → HasWellFormed j
of_status e h = record {
  head = subst (λ s. IsWellFormed s.head_node_status) (sym e) h.head;
  workers = λ k s f. h.workers k s (ap (λ t. lookup k t.current_workers) (sym e) ∙ f);
}

update_status_keeps :
    {W : Type 0} (r : Reconciler W) (i : VmRayCluster) (d : ℕ) (c : Ctl W)
    → (update_status r i d c).1.cluster ≡ c.cluster
unfolding update_status
update_status_keeps r i d c = ground arith

-- Each call of a reconcile keeps the statuses well-formed.
statuses-Stepwise : {W : Type 0} (r : Reconciler W) → Stepwise r AllWellFormed
unfolding add_error_condition update_status
statuses-Stepwise r = record {
  state = λ s. record { kept = λ c h. record { head = h.head; workers = h.workers } };
  condition = λ e t reason. record { kept = λ c h. record { head = h.head; workers = h.workers } };
  image = λ k. record { kept = λ c h. record { head = h.head; workers = h.workers } };
  storage = λ k. record { kept = λ c h. record { head = h.head; workers = h.workers } };
  class = λ k. record { kept = λ c h. record { head = h.head; workers = h.workers } };
  patch = λ i d. record { kept = λ c h. subst HasWellFormed (sym (update_status_keeps r i d c)) h };
  head = reconcile_head_node-Keeps r;
  workers = reconcile_worker_nodes-Keeps r;
}

module _ {W : Type 0} (r : Reconciler W) where
  -- After the finalizer step the cluster may be one that the server answered.
  finalizer-Keeps :
      IsFinalizers r.util
      → AnswersWellFormed r.client
      → Keeps AllWellFormed (add_finalizer_and_nounce r)
  finalizer-Keeps fin law = record {
    kept = λ c h. elim (add_finalizer_and_nounce-IsKept r fin c) [
      | inl e ↦ of_status e h
      | inr (k, w, e) ↦ law.answer k _ w e
    ];
  }

  after_finalizer-Keeps :
      (original : VmRayCluster)
      → Keeps AllWellFormed (
          the_cluster {W = W} >>= λ i.
          in_world (create_root_secret r.client r.host i.object_meta.namespace i.object_meta.name)
          >> dependencies_step r original)
  after_finalizer-Keeps original = record {
    kept = λ c h.
        let m = c.cluster.object_meta in
        let secret = create_root_secret r.client r.host m.namespace m.name in
        (then-Keeps r AllWellFormed (statuses-Stepwise r) (in_world secret)
            (dependencies_step r original)
            (record { kept = λ c' h'. record { head = h'.head; workers = h'.workers } })
            (dependencies_step-Keeps r AllWellFormed (statuses-Stepwise r) original)).kept
          c h;
  }

  -- Whatever the provider answers, a reconcile of a cluster whose nodes have well-formed statuses
  -- leaves them with well-formed statuses, if controllerutil leaves the status alone and the
  -- cluster that the server answers to an update has well-formed statuses too.
  pub vm_ray_cluster_reconcile-AllWellFormed :
      IsFinalizers r.util
      → AnswersWellFormed r.client
      → (original : VmRayCluster) (c : Ctl W) → AllWellFormed c
      → AllWellFormed (vm_ray_cluster_reconcile r original c).1
  unfolding vm_ray_cluster_reconcile
  vm_ray_cluster_reconcile-AllWellFormed fin law original c h =
      let fresh : Ctl W = record c {
        cluster = record c.cluster {
          status = record c.cluster.status {
            conditions = [];
            cluster_state = VmRayClusterState.healthy;
          };
        };
      } in
      (then-Keeps r AllWellFormed (statuses-Stepwise r) (add_finalizer_and_nounce r)
          (the_cluster {W = W} >>= λ i.
            in_world (create_root_secret r.client r.host i.object_meta.namespace i.object_meta.name)
            >> dependencies_step r original)
          (finalizer-Keeps fin law) (after_finalizer-Keeps original)).kept
        fresh (record { head = h.head; workers = h.workers })
