-- ===== src/Controller/Reconcile/Cleanup.antt =====
-- The deletion of a cluster whose provider is vm-operator's: what is left on the server.
use ray_on_vcf.Prelude.{
  ◌≡◌, refl, sym, ◌∙◌, ap, subst, inl, inr, String, true, false, List, [], ◌∷◌, All,
}
use ray_on_vcf.Prelude.Dict.{Dict, keys}
use ray_on_vcf.Go.{Result, ok, err, is_err, Result-cases}
use ray_on_vcf.Kube.{Client, Host, ControllerUtil}
use ray_on_vcf.Controller.State.{Reconciler, Ctl, new_vm_ray_cluster_reconciler}
use ray_on_vcf.Controller.Workers.{to_delete, delete_nodes, delete_worker_nodes}
use ray_on_vcf.Controller.Workers.Deletion.{
  workers_of, desired_of, without, answer_of, delete_nodes-cons_ok, delete_nodes-cons_err,
}
use ray_on_vcf.Controller.Reconcile.{vm_ray_cluster_delete}
use ray_on_vcf.Controller.Reconcile.Deletion.{
  head_name, without_auxiliary, without_head, deleted_in_order,
}
use ray_on_vcf.Vmop.{new_vm_operator_provider, delete, delete_auxiliary_resources}
use ray_on_vcf.Vmop.CloudInit.Files.{Encoders}
use ray_on_vcf.Vmop.Server.{Thing, IsGone, Keeps-All}
use ray_on_vcf.Vmop.Teardown.{Server, key, auxiliary, auxiliary-Achieves, delete-Achieves}

-- Every machine of some names.
abbrev pub machines : String → List String → List Thing
machines namespace [] = []
machines namespace (n ∷ ns) = Thing.virtual_machine (key namespace n) ∷ machines namespace ns

to_delete-all : (desired : Dict String) (names : List String) → to_delete true desired names ≡ names
unfolding to_delete
to_delete-all desired [] = refl
to_delete-all desired (n ∷ names) = rw (to_delete-all desired names) refl

module _ {W : Type 0} (client : Client W) (host : Host W) (util : ControllerUtil)
    (encoders : Encoders) (settle : W → W) (server : Server client settle) where
  -- The reconciler as the program's `main` builds it.
  abbrev pub reconciler : Reconciler W
  reconciler =
      new_vm_ray_cluster_reconciler client host util (new_vm_operator_provider client host encoders)

  delete_nodes_keeps :
      (t : Thing) (names : List String) (c : Ctl W)
      → IsGone client settle t c.world
      → IsGone client settle t (delete_nodes reconciler names c).1.world
  unfolding delete_nodes new_vm_operator_provider
  delete_nodes_keeps t [] c m = m
  delete_nodes_keeps t (name ∷ names) c m =
      let n = c.cluster.object_meta.namespace in
      let m' = ((delete-Achieves client settle server n name).kept t).kept c.world m in
      elim (Result-cases (answer_of reconciler name c)) [
        | inl (a, h) ↦
            rw (delete_nodes-cons_ok reconciler name names c a h)
              (delete_nodes_keeps t names (without reconciler name c) m')
        | inr (e, h) ↦ rw (delete_nodes-cons_err reconciler name names c e h) m'
      ]

  delete_nodes-All :
      (names : List String) (c : Ctl W)
      → is_err (delete_nodes reconciler names c).0 ≡ false
      → All
          (λ t. IsGone client settle t (delete_nodes reconciler names c).1.world)
          (machines c.cluster.object_meta.namespace names)
  unfolding delete_nodes new_vm_operator_provider
  delete_nodes-All [] c h = tt
  delete_nodes-All (name ∷ names) c h =
      let n = c.cluster.object_meta.namespace in
      elim (Result-cases (answer_of reconciler name c)) [
        | inl (a, g) ↦
            let step = delete_nodes-cons_ok reconciler name names c a g in
            let (_, (m, _)) = (delete-Achieves client settle server n name).achieved c.world g in
            subst (λ out. All (λ t. IsGone client settle t out.1.world) (machines n (name ∷ names)))
              (sym step)
              (
                delete_nodes_keeps (Thing.virtual_machine (key n name)) names
                    (without reconciler name c) m,
                delete_nodes-All names (without reconciler name c) (rw step at h),
              )
        | inr (e, g) ↦ cc (delete_nodes-cons_err reconciler name names c e g, h)
      ]

  ok_of : (a : Result (Unit {0})) → is_err a ≡ false → a ≡ ok tt
  ok_of (ok tt) h = refl
  ok_of (err e) h = cc h

  delete_worker_nodes-All :
      (c : Ctl W)
      → is_err (delete_worker_nodes reconciler true c).0 ≡ false
      → All
          (λ t. IsGone client settle t (delete_worker_nodes reconciler true c).1.world)
          (machines c.cluster.object_meta.namespace (keys (workers_of c)))
  unfolding delete_worker_nodes
  delete_worker_nodes-All c h =
      let names = keys (workers_of c) in
      subst
        (λ t.
          All (λ u. IsGone client settle u (delete_worker_nodes reconciler true c).1.world)
            (machines c.cluster.object_meta.namespace t))
        (to_delete-all (desired_of c) names)
        (delete_nodes-All (to_delete true (desired_of c) names) c h)

  keeps_things :
      (ts : List Thing) (c : Ctl W)
      → All (λ t. IsGone client settle t c.world) ts
      → All (λ t. IsGone client settle t (delete_worker_nodes reconciler true c).1.world) ts
  unfolding delete_worker_nodes
  keeps_things [] c h = tt
  keeps_things (t ∷ ts) c (p, q) = (
    delete_nodes_keeps t (to_delete true (desired_of c) (keys (workers_of c))) c p,
    keeps_things ts c q,
  )

  -- With vm-operator's provider: when the deletion of a cluster succeeds, then once the server has
  -- completed the deletions that it has accepted, it has none of the cluster's auxiliary resources
  -- any more, nor the head node's service and machine, nor the machine of any worker that had a
  -- status.
  pub no_resource_is_left :
      (c : Ctl W)
      → is_err (vm_ray_cluster_delete reconciler c).0 ≡ false
      → let n = c.cluster.object_meta.namespace in
        let w = (vm_ray_cluster_delete reconciler c).1.world in
        All (λ t. IsGone client settle t w) (auxiliary n c.cluster.object_meta.name)
        × IsGone client settle (Thing.vm_service (key n (head_name reconciler c))) w
        × IsGone client settle (Thing.virtual_machine (key n (head_name reconciler c))) w
        × All (λ t. IsGone client settle t w) (machines n (keys (workers_of c)))
  unfolding new_vm_operator_provider
  no_resource_is_left c h =
      let (a, b, step) = deleted_in_order reconciler c h in
      let n = c.cluster.object_meta.namespace in
      let name = c.cluster.object_meta.name in
      let head = head_name reconciler c in
      let w1 = (without_auxiliary reconciler c).world in
      let head_gone = delete-Achieves client settle server n head in
      let aux : All (λ t. IsGone client settle t w1) (auxiliary n name) =
        (auxiliary-Achieves client settle server n name).achieved c.world
          (ok_of (delete_auxiliary_resources client n name c.world).0 a) in
      let aux' =
        Keeps-All (IsGone client settle) (auxiliary n name) (delete client n head) w1 head_gone.kept
          aux in
      let (s, (m, _)) = head_gone.achieved w1 (ok_of (delete client n head w1).0 b) in
      let c2 = without_head reconciler c in
      let (s', (m', _)) =
        keeps_things (Thing.vm_service (key n head) ∷ Thing.virtual_machine (key n head) ∷ []) c2
          (s, (m, tt)) in
      let End : Result (Unit {0}) × Ctl W → Type 0 = λ out.
        All (λ t. IsGone client settle t out.1.world) (auxiliary n name)
        × IsGone client settle (Thing.vm_service (key n head)) out.1.world
        × IsGone client settle (Thing.virtual_machine (key n head)) out.1.world
        × All (λ t. IsGone client settle t out.1.world) (machines n (keys (workers_of c))) in
      subst End (sym step) (
        keeps_things (auxiliary n name) c2 aux',
        s',
        m',
        delete_worker_nodes-All c2 (sym (ap (λ o. is_err o.0) step) ∙ h),
      )
