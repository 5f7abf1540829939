-- ===== src/Controller/Workers/Frame.antt =====
-- What the head node and the workers leave alone in the world: all that the provider does.
use ray_on_vcf.Prelude.{◌≡◌, refl, ◌∙◌, ap, inl, inr, String, Bool, false, List, [], ◌∷◌}
use ray_on_vcf.Prelude.Dict.{Dict, keys}
use ray_on_vcf.Go.{Result-cases}
use ray_on_vcf.Kube.Frame.{Leaves, bind-Leaves}
use ray_on_vcf.Provider.Frame.{ProviderLeaves}
use ray_on_vcf.Lcm.Frame.{process_node_vm_state-Leaves}
use ray_on_vcf.Controller.State.{Reconciler, Ctl}
use ray_on_vcf.Controller.Workers.{
  to_delete, delete_nodes, delete_worker_nodes, reconcile_head_node, reconcile_worker,
  reconcile_desired_workers, reconcile_desired, reconcile_worker_nodes,
}
use ray_on_vcf.Controller.Workers.Deletion.{
  workers_of, desired_of, without, answer_of, delete_nodes-cons_ok, delete_nodes-cons_err,
}

module _ {W X : Type 0} (see : W → X) (r : Reconciler W) (law : ProviderLeaves see r.provider) where
  abbrev pub seen : Ctl W → X
  seen c = see c.world

  pub reconcile_head_node-Leaves : Leaves seen (reconcile_head_node r)
  unfolding reconcile_head_node
  reconcile_head_node-Leaves = record {
    same = λ c. process_node_vm_state-Leaves see r.provider law _ _;
  }

  reconcile_worker-Leaves :
      (name node_type : String) → Leaves seen (reconcile_worker r name node_type)
  unfolding reconcile_worker
  reconcile_worker-Leaves name node_type = record {
    same = λ c. process_node_vm_state-Leaves see r.provider law _ _;
  }

  desired_workers-Leaves :
      (desired : Dict String) → Leaves seen (reconcile_desired_workers r desired)
  unfolding reconcile_desired_workers
  desired_workers-Leaves [] = record { same = λ c. refl }
  desired_workers-Leaves ((name, node_type) ∷ desired) =
      bind-Leaves seen (reconcile_worker r name node_type)
        (λ _. reconcile_desired_workers r desired) (reconcile_worker-Leaves name node_type)
        (λ _. desired_workers-Leaves desired)

  delete_nodes-Leaves : (names : List String) (c : Ctl W) → seen (delete_nodes r names c).1 ≡ seen c
  unfolding delete_nodes
  delete_nodes-Leaves [] c = refl
  delete_nodes-Leaves (name ∷ names) c =
      let deletion = (law.delete c.cluster.object_meta.namespace name).same c.world in
      elim (Result-cases (answer_of r name c)) [
        | inl (a, h) ↦
            ap (λ out. seen out.1) (delete_nodes-cons_ok r name names c a h)
            ∙ delete_nodes-Leaves names (without r name c)
            ∙ deletion
        | inr (e, h) ↦ ap (λ out. seen out.1) (delete_nodes-cons_err r name names c e h) ∙ deletion
      ]

  pub delete_worker_nodes-Leaves : (all : Bool) → Leaves seen (delete_worker_nodes r all)
  unfolding delete_worker_nodes
  delete_worker_nodes-Leaves all = record {
    same = λ c. delete_nodes-Leaves (to_delete all (desired_of c) (keys (workers_of c))) c;
  }

  pub reconcile_worker_nodes-Leaves : Leaves seen (reconcile_worker_nodes r)
  unfolding reconcile_worker_nodes
  reconcile_worker_nodes-Leaves =
      bind-Leaves seen (delete_worker_nodes r false) (λ _. reconcile_desired r)
        (delete_worker_nodes-Leaves false)
        (λ _. record { same = λ c. (desired_workers-Leaves (desired_of c)).same c })
