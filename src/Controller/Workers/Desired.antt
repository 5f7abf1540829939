-- ===== src/Controller/Workers/Desired.antt =====
-- `reconcileDesiredWorkers` and `reconcileWorkerNodes`: the workers become those that are desired.
use ray_on_vcf.Prelude.{
  ◌≡◌, refl, ap, ◌∙◌, inl, inr, String, false, ◌||◌, none, [], ◌∷◌, arith, ◌==◌, is_some,
}
use ray_on_vcf.Prelude.Dict.{Dict, lookup, lookup-insert}
use ray_on_vcf.Go.{Error, err, ok, is_err, Result-cases, bind-ok, bind-err}
use ray_on_vcf.Controller.State.{Reconciler, Ctl}
use ray_on_vcf.Controller.Workers.{
  reconcile_worker, reconcile_desired_workers, reconcile_worker_nodes, reconcile_desired,
  delete_worker_nodes,
}
use ray_on_vcf.Controller.Workers.Deletion.{
  workers_of, desired_of, delete_worker_nodes_lem, delete_worker_nodes_keeps,
}

module _ {W : Type 0} (r : Reconciler W) where
  -- One round stores a status for its worker, and leaves the others and the rest alone.
  reconcile_worker-workers :
      (name node_type : String) (c : Ctl W) (k : String)
      → is_some (lookup k (workers_of (reconcile_worker r name node_type c).1))
        ≡ (name == k || is_some (lookup k (workers_of c)))
  unfolding reconcile_worker
  reconcile_worker-workers name node_type c k = rw lookup-insert (ground arith)

  reconcile_worker-others :
      (name node_type : String) (c : Ctl W) (k : String)
      → (name == k) ≡ false
      → lookup k (workers_of (reconcile_worker r name node_type c).1) ≡ lookup k (workers_of c)
  unfolding reconcile_worker
  reconcile_worker-others name node_type c k h = rw (lookup-insert, h)

  reconcile_worker_keeps :
      (name node_type : String) (c : Ctl W)
      → let i = (reconcile_worker r name node_type c).1.cluster in
        (i.spec ≡ c.cluster.spec)
        × (i.object_meta ≡ c.cluster.object_meta)
        × (i.status.head_node_status ≡ c.cluster.status.head_node_status)
  unfolding reconcile_worker
  reconcile_worker_keeps name node_type c = (refl, refl, refl)

  pub reconcile_desired-cons_ok :
      (name node_type : String) (desired : Dict String) (c : Ctl W) (a : Unit {0})
      → (reconcile_worker r name node_type c).0 ≡ ok a
      → reconcile_desired_workers r ((name, node_type) ∷ desired) c
        ≡ reconcile_desired_workers r desired (reconcile_worker r name node_type c).1
  unfolding reconcile_desired_workers
  reconcile_desired-cons_ok name node_type desired c a h = rw (h, reconcile_desired_workers)

  pub reconcile_desired-cons_err :
      (name node_type : String) (desired : Dict String) (c : Ctl W) (e : Error)
      → (reconcile_worker r name node_type c).0 ≡ err e
      → reconcile_desired_workers r ((name, node_type) ∷ desired) c
        ≡ (err e, (reconcile_worker r name node_type c).1)
  unfolding reconcile_desired_workers
  reconcile_desired-cons_err name node_type desired c e h = rw (h, reconcile_desired_workers)

  -- With an error or without, a worker that is not desired keeps the status that it had.
  pub reconcile_desired_workers-others :
      (desired : Dict String) (c : Ctl W) (k : String)
      → lookup k desired ≡ none
      → lookup k (workers_of (reconcile_desired_workers r desired c).1) ≡ lookup k (workers_of c)
  unfolding reconcile_desired_workers lookup
  reconcile_desired_workers-others [] c k h = refl
  reconcile_desired_workers-others ((name, node_type) ∷ desired) c k h =
      elim (Result-cases (reconcile_worker r name node_type c).0) [
        | inl (a, p) ↦ rw (reconcile_desired-cons_ok name node_type desired c a p) (
            reconcile_desired_workers-others desired (reconcile_worker r name node_type c).1 k
              (ground arith)
            ∙ reconcile_worker-others name node_type c k (ground arith))
        | inr (e, p) ↦
            rw (reconcile_desired-cons_err name node_type desired c e p)
              (reconcile_worker-others name node_type c k (ground arith))
      ]

  -- Without an error every desired worker has a status.
  pub reconcile_desired_workers-all :
      (desired : Dict String) (c : Ctl W) (k : String)
      → is_err (reconcile_desired_workers r desired c).0 ≡ false
      → is_some (lookup k (workers_of (reconcile_desired_workers r desired c).1))
        ≡ (is_some (lookup k desired) || is_some (lookup k (workers_of c)))
  unfolding reconcile_desired_workers lookup
  reconcile_desired_workers-all [] c k h = refl
  reconcile_desired_workers-all ((name, node_type) ∷ desired) c k h =
      elim (Result-cases (reconcile_worker r name node_type c).0) [
        | inl (a, p) ↦
            let step = reconcile_desired-cons_ok name node_type desired c a p in
            rw step (
              reconcile_desired_workers-all desired (reconcile_worker r name node_type c).1 k
                (rw step at h)
              ∙ rw (reconcile_worker-workers name node_type c k) (ground arith))
        | inr (e, p) ↦ cc (reconcile_desired-cons_err name node_type desired c e p)
      ]

  -- The state after the workers that are not desired were deleted.
  abbrev trimmed : Ctl W → Ctl W
  trimmed c = (delete_worker_nodes r false c).1

  pub reconcile_worker_nodes-ok :
      (c : Ctl W) (a : Unit {0})
      → (delete_worker_nodes r false c).0 ≡ ok a
      → reconcile_worker_nodes r c
        ≡ reconcile_desired_workers r (desired_of (trimmed c)) (trimmed c)
  unfolding reconcile_worker_nodes
  reconcile_worker_nodes-ok c a h =
      bind-ok (delete_worker_nodes r false) (λ _. reconcile_desired r) c a h

  pub reconcile_worker_nodes-err :
      (c : Ctl W) (e : Error)
      → (delete_worker_nodes r false c).0 ≡ err e
      → reconcile_worker_nodes r c ≡ (err e, trimmed c)
  unfolding reconcile_worker_nodes
  reconcile_worker_nodes-err c e h =
      bind-err (delete_worker_nodes r false) (λ _. reconcile_desired r) c e h

  -- When `reconcileWorkerNodes` succeeds, the workers that have a status are exactly those that the
  -- autoscaler desires.
  pub reconcile_worker_nodes_lem :
      (c : Ctl W) (k : String)
      → is_err (reconcile_worker_nodes r c).0 ≡ false
      → is_some (lookup k (workers_of (reconcile_worker_nodes r c).1))
        ≡ is_some (lookup k (desired_of c))
  reconcile_worker_nodes_lem c k h = elim (Result-cases (delete_worker_nodes r false c).0) [
    | inl (a, p) ↦
        let step = reconcile_worker_nodes-ok c a p in
        let same =
          ap (λ s. is_some (lookup k s.autoscaler_desired_workers))
            (delete_worker_nodes_keeps r false c).0 in
        let all =
          reconcile_desired_workers-all (desired_of (trimmed c)) (trimmed c) k (rw step at h) in
        rw step (ground (arith, all, same, delete_worker_nodes_lem r false c k))
    | inr (e, p) ↦ cc (reconcile_worker_nodes-err c e p)
  ]
