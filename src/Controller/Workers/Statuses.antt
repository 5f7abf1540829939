-- ===== src/Controller/Workers/Statuses.antt =====
-- The statuses of all nodes of a cluster stay well-formed.
use mathlib.Core.Option.{some-injective}
use ray_on_vcf.Prelude.{
  ◌≡◌, ◌∙◌, sym, subst, inl, inr, String, Bool, false, some, [], ◌∷◌, arith, ◌==◌, Bool-cases,
  Option-cases,
}
use ray_on_vcf.Prelude.Dict.{Dict, lookup, keys, insert, lookup-insert}
use ray_on_vcf.Go.Keeps.{Keeps, bind-Keeps}
use ray_on_vcf.Api.{VmRayNodeStatus, VmRayCluster}
use ray_on_vcf.Lcm.Invariant.{IsWellFormed, process_node_vm_state-IsWellFormed}
use ray_on_vcf.Controller.State.{Reconciler, Ctl}
use ray_on_vcf.Controller.Workers.{
  new_node_status, worker_status, reconcile_worker, reconcile_desired_workers,
  reconcile_worker_nodes, reconcile_desired, delete_worker_nodes, reconcile_head_node, to_delete,
}
use ray_on_vcf.Controller.Workers.Deletion.{delete_nodes-Deleted, workers_of, desired_of}

pub record HasWellFormed (i : VmRayCluster) : Type 0 where
  pub head : IsWellFormed i.status.head_node_status
  pub workers :
      (k : String) (s : VmRayNodeStatus)
      → lookup k i.status.current_workers ≡ some s
      → IsWellFormed s

-- A cluster all of whose node statuses are well-formed.
abbrev pub AllWellFormed : {W : Type 0} → Ctl W → Type 0
AllWellFormed c = HasWellFormed c.cluster

pub new_node_status-IsWellFormed : IsWellFormed new_node_status
new_node_status-IsWellFormed = record {
  addressed = λ h. cc;
  started = λ h. cc;
  on_running = λ h. cc;
}

-- The status that a worker's round starts from.
start-IsWellFormed :
    (i : VmRayCluster) (name : String)
    → HasWellFormed i
    → IsWellFormed (worker_status name i.status.current_workers)
start-IsWellFormed i name h = elim (Option-cases (lookup name i.status.current_workers)) [
  | inl e ↦ rw (e, worker_status) new_node_status-IsWellFormed
  | inr (s, e) ↦ rw (e, worker_status) (h.workers name s e)
]

-- What holds of every value and of a new one holds of every value after an assignment.
insert-all :
    {V : Type 0} (P : V → Type 0) (name : String) (v : V) (d : Dict V)
    → P v
    → ((k : String) (s : V) → lookup k d ≡ some s → P s)
    → (k : String) (s : V) → lookup k (insert name v d) ≡ some s
    → P s
insert-all P name v d pv all k s e = elim (Bool-cases (name == k)) [
  | inl same ↦ subst P (some-injective v s (sym (lookup-insert name k v d ∙ rw same) ∙ e)) pv
  | inr other ↦ all k s (sym (lookup-insert name k v d ∙ rw other) ∙ e)
]

module _ {W : Type 0} (r : Reconciler W) where
  pub reconcile_head_node-Keeps : Keeps AllWellFormed (reconcile_head_node r)
  unfolding reconcile_head_node
  reconcile_head_node-Keeps = record {
    kept = λ c h. record {
      head = process_node_vm_state-IsWellFormed r.provider _ _ h.head;
      workers = h.workers;
    };
  }

  reconcile_worker-Keeps :
      (name node_type : String) → Keeps AllWellFormed (reconcile_worker r name node_type)
  unfolding reconcile_worker
  reconcile_worker-Keeps name node_type = record {
    kept = λ c h. record {
      head = h.head;
      workers = λ k s e.
          insert-all IsWellFormed name _ c.cluster.status.current_workers
            (process_node_vm_state-IsWellFormed r.provider _ _
              (start-IsWellFormed c.cluster name h))
            h.workers k s e;
    };
  }

  delete_worker_nodes-Keeps : (all : Bool) → Keeps AllWellFormed (delete_worker_nodes r all)
  unfolding delete_worker_nodes
  delete_worker_nodes-Keeps all = record {
    kept = λ c h.
        let d = delete_nodes-Deleted r (to_delete all (desired_of c) (keys (workers_of c))) c in
        record {
          head = rw d.head h.head;
          workers = λ k s e. h.workers k s (ground (arith, d.workers k));
        };
  }

  reconcile_desired_workers-Keeps :
      (desired : Dict String) → Keeps AllWellFormed (reconcile_desired_workers r desired)
  unfolding reconcile_desired_workers
  reconcile_desired_workers-Keeps [] = record { kept = λ c h. h }
  reconcile_desired_workers-Keeps ((name, node_type) ∷ desired) =
      bind-Keeps AllWellFormed (reconcile_worker r name node_type)
        (λ _. reconcile_desired_workers r desired) (reconcile_worker-Keeps name node_type)
        (λ _. reconcile_desired_workers-Keeps desired)

  -- Whatever the provider answers, a round of the workers leaves every node of a cluster with a
  -- well-formed status, if every node had one.
  pub reconcile_worker_nodes-Keeps : Keeps AllWellFormed (reconcile_worker_nodes r)
  unfolding reconcile_worker_nodes
  reconcile_worker_nodes-Keeps =
      bind-Keeps AllWellFormed (delete_worker_nodes r false) (λ _. reconcile_desired r)
        (delete_worker_nodes-Keeps false)
        (λ _. record { kept = λ c. (reconcile_desired_workers-Keeps (desired_of c)).kept c })
