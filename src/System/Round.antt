-- ===== src/System/Round.antt =====
-- One `Reconcile` of a cluster that has the operator's finalizer, on the server's storage.
use mathlib.Core.Option.{some-injective}
use ray_on_vcf.Prelude.{
  ◌≡◌, refl, sym, ◌∙◌, ap, subst, inl, inr, arith, true, false, Option, some, ℕ, is_some,
  Bool-cases, [],
}
use ray_on_vcf.Go.{Exec, ok, is_err, Result-cases, ◌>>=◌, ◌>>◌, bind-ok}
use ray_on_vcf.Go.Keeps.{Keeps}
use ray_on_vcf.Api.{VmRayCluster, VmRayClusterState}
use ray_on_vcf.Kube.{ObjectKey}
use ray_on_vcf.Kube.Frame.{Leaves}
use ray_on_vcf.Provider.Frame.{ProviderLeaves}
use ray_on_vcf.Vmop.Frame.{create_root_secret-Leaves}
use ray_on_vcf.Tls.{create_root_secret}
use ray_on_vcf.Controller.State.{Reconciler, Ctl, in_world, the_cluster, add_error_condition}
use ray_on_vcf.Controller.Finalizer.{finalizer_name, add_finalizer_and_nounce, remove_finalizer}
use ray_on_vcf.Controller.Finalizer.Guard.{IsFinalizers, add_finalizer_unchanged}
use ray_on_vcf.Controller.Workers.Frame.{
  reconcile_head_node-Leaves, reconcile_worker_nodes-Leaves, delete_worker_nodes-Leaves,
}
use ray_on_vcf.Controller.Reconcile.{
  ReconcileResult, update_status, vm_ray_cluster_delete, vm_ray_cluster_reconcile,
  dependencies_step, deletion, reconcile_cluster, reconcile,
}
use ray_on_vcf.Controller.Reconcile.Deletion.{without_auxiliary, without_head, head_name}
use ray_on_vcf.Controller.Reconcile.Steps.{Stepwise, then-Keeps, dependencies_step-Keeps}
use ray_on_vcf.System.Store.{Identity, identity_of, Storage}

module _ {W : Type 0} (r : Reconciler W) (key : ObjectKey)
    (store : Storage r.client r.host r.util key) (pvdr : ProviderLeaves store.stored r.provider)
    (fin : IsFinalizers r.util) where
  -- All but the status of the cluster that is stored.
  abbrev pub now : W → Option Identity
  now w = identity_of (store.stored w)

  -- Something is stored, or not, whatever its status is.
  abbrev IsStored : Option Identity → Ctl W → Type 0
  IsStored x c = now c.world ≡ x

  leaves :
      {A : Type 0} (x : Option Identity) (m : Exec W A)
      → Leaves store.stored m
      → Keeps (IsStored x) (in_world m)
  leaves x m l = record { kept = λ c h. ap identity_of (l.same c.world) ∙ h }

  patch_keeps :
      (x : Option Identity) (i : VmRayCluster) (d : ℕ) (c : Ctl W)
      → now c.world ≡ x
      → now (update_status r i d c).1.world ≡ x
  unfolding update_status
  patch_keeps x i d c h = ground (arith, store.patched i c.cluster c.world)

  storage-Stepwise : (x : Option Identity) → Stepwise r (IsStored x)
  unfolding add_error_condition update_status
  storage-Stepwise x = record {
    state = λ s. record { kept = λ c h. h };
    condition = λ e t reason. record { kept = λ c h. h };
    image = λ k. leaves x _ (store.others.image k);
    storage = λ k. leaves x _ (store.others.storage k);
    class = λ k. leaves x _ (store.others.class k);
    patch = λ i d. record { kept = λ c h. patch_keeps x i d c h };
    head = record {
      kept = λ c h. ap identity_of ((reconcile_head_node-Leaves store.stored r pvdr).same c) ∙ h;
    };
    workers = record {
      kept = λ c h. ap identity_of ((reconcile_worker_nodes-Leaves store.stored r pvdr).same c) ∙ h;
    };
  }

  -- A cluster that is not being deleted.
  reconcile_keeps :
      (i : VmRayCluster) (w : W)
      → r.util.contains_finalizer i finalizer_name ≡ true
      → now (vm_ray_cluster_reconcile r i (record { cluster = i; world = w })).1.world ≡ now w
  unfolding vm_ray_cluster_reconcile
  reconcile_keeps i w g =
      let fresh : Ctl W = record {
        cluster = record i {
          status = record i.status { conditions = []; cluster_state = VmRayClusterState.healthy };
        };
        world = w;
      } in
      let x = now w in
      let unchanged =
        add_finalizer_unchanged r fresh (fin.by_meta fresh.cluster i finalizer_name refl ∙ g) in
      let secret = create_root_secret r.client r.host i.object_meta.namespace i.object_meta.name in
      let rest =
        (then-Keeps r (IsStored x) (storage-Stepwise x) (in_world secret) (dependencies_step r i)
            (leaves x secret
              (create_root_secret-Leaves store.stored r.client r.host store.others _ _))
            (dependencies_step-Keeps r (IsStored x) (storage-Stepwise x) i)).kept
          fresh refl in
      let tail : Exec (Ctl W) ReconcileResult = the_cluster {W = W} >>= λ j.
      in_world (create_root_secret r.client r.host j.object_meta.namespace j.object_meta.name)
      >> dependencies_step r i in
      ap (λ out. now out.1.world)
        (bind-ok (add_finalizer_and_nounce r) (λ _. tail) fresh tt (ap (λ o. o.0) unchanged))
      ∙ ap (λ o. now (tail o.1).1.world) unchanged
      ∙ rest

  delete_leaves :
      (c : Ctl W) → store.stored (vm_ray_cluster_delete r c).1.world ≡ store.stored c.world
  unfolding vm_ray_cluster_delete add_error_condition
  delete_leaves c = ground (
    arith,
    (pvdr.auxiliary c.cluster.object_meta.namespace c.cluster.object_meta.name).same c.world,
    (pvdr.delete c.cluster.object_meta.namespace (head_name r c)).same
        (without_auxiliary r c).world,
    (delete_worker_nodes-Leaves store.stored r pvdr true).same (without_head r c),
  )

  -- What a reconcile of a cluster leaves: the same cluster but for its status, or its deletion
  -- has succeeded and its finalizer was given up.
  pub data Round (i : VmRayCluster) (w w' : W) : Type 0 where
    stays : now w' ≡ now w → Round i w w'
    goes :
        (w1 : W)
        → is_some i.object_meta.deletion_timestamp ≡ true
        → is_err (vm_ray_cluster_delete r (record { cluster = i; world = w1 })).0 ≡ false
        → w'
          ≡ (remove_finalizer r
              (vm_ray_cluster_delete r (record { cluster = i; world = w1 })).1).1.world
        → Round i w w'

  cluster-Round :
      (i : VmRayCluster) (w w1 : W)
      → now w1 ≡ now w
      → r.util.contains_finalizer i finalizer_name ≡ true
      → Round i w (reconcile_cluster r i w1).1
  unfolding reconcile_cluster deletion
  cluster-Round i w w1 same g =
      let start : Ctl W = record { cluster = i; world = w1 } in
      elim (Bool-cases (is_some i.object_meta.deletion_timestamp)) [
        | inr alive ↦ stays (ground (arith, reconcile_keeps i w1 g))
        | inl dying ↦ elim (Result-cases (vm_ray_cluster_delete r start).0) [
          | inl (a, e) ↦ goes w1 dying (ground arith) (ground arith)
          | inr (x, e) ↦ stays (
              ground (
                arith,
                patch_keeps (now w1) i 60 (vm_ray_cluster_delete r start).1
                    (ap identity_of (delete_leaves start)),
              ))
        ]
      ]

  pub reconcile-Round :
      (i : VmRayCluster) (w : W)
      → store.stored w ≡ some i
      → r.util.contains_finalizer i finalizer_name ≡ true
      → Round i w (reconcile r key w).1
  unfolding reconcile
  reconcile-Round i w there g = elim (Result-cases (r.client.get_cluster key w).0) [
    | inl (j, e) ↦
        let same : j ≡ i = some-injective j i (sym (store.found j w e) ∙ there) in
        let e' = e ∙ ap ok same in
        let w1 = (r.client.get_cluster key w).1 in
        subst (Round i w) (ground arith)
          (cluster-Round i w w1 (ap identity_of (store.read.same w)) g)
    | inr (x, e) ↦ stays (ground (arith, store.read.same w))
  ]
