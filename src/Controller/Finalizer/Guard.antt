-- ===== src/Controller/Finalizer/Guard.antt =====
-- The finalizer guards a cluster from its first reconcile to the end of its deletion.
use ray_on_vcf.Prelude.{
  subst, ◌≡◌, refl, sym, ◌∙◌, ap, inl, inr, String, true, false, none, some, arith, is_some,
  Option-cases,
}
use ray_on_vcf.Prelude.Dict.{Dict, lookup, insert, lookup-insert}
use ray_on_vcf.Go.{ok, bind_inv}
use ray_on_vcf.Api.{VmRayCluster}
use ray_on_vcf.Kube.{Client, ControllerUtil}
use ray_on_vcf.Controller.State.{Reconciler, Ctl, in_world, set_cluster}
use ray_on_vcf.Controller.Finalizer.{
  finalizer_name, head_node_nounce_label, nouce_length, create_random_nounce, ensure_nounce,
  set_nounce, add_both, update, add_finalizer_and_nounce, remove_finalizer,
}

-- controllerutil's functions: a finalizer is there once added, and gone once removed; labels are
-- left alone, and so is the status; and whether it is there depends on the metadata only.
pub record IsFinalizers (u : ControllerUtil) : Type 0 where
  pub added : (i : VmRayCluster) (f : String) → u.contains_finalizer (u.add_finalizer i f) f ≡ true
  pub removed :
      (i : VmRayCluster) (f : String) → u.contains_finalizer (u.remove_finalizer i f) f ≡ false
  pub labels :
      (i : VmRayCluster) (f : String)
      → (u.add_finalizer i f).object_meta.labels ≡ i.object_meta.labels
  pub statuses : (i : VmRayCluster) (f : String) → (u.add_finalizer i f).status ≡ i.status
  pub not_labels :
      (i : VmRayCluster) (labels : Dict String) (f : String)
      → u.contains_finalizer (record i { object_meta = record i.object_meta { labels = labels } }) f
        ≡ u.contains_finalizer i f
  pub by_meta :
      (i j : VmRayCluster) (f : String)
      → i.object_meta ≡ j.object_meta
      → u.contains_finalizer i f ≡ u.contains_finalizer j f

-- A server that accepts an update answers with the metadata that it was sent.
pub record Stores {W : Type 0} (client : Client W) : Type 0 where
  pub meta :
      (i j : VmRayCluster) (w : W)
      → (client.update_cluster i w).0 ≡ ok j
      → j.object_meta ≡ i.object_meta

module _ {W : Type 0} (r : Reconciler W) where
  -- A cluster that has the finalizer is left alone.
  pub add_finalizer_unchanged :
      (c : Ctl W)
      → r.util.contains_finalizer c.cluster finalizer_name ≡ true
      → add_finalizer_and_nounce r c ≡ (ok tt, c)
  unfolding add_finalizer_and_nounce
  add_finalizer_unchanged c h = ground arith

  -- A cluster that is not being deleted keeps its finalizer while it is reconciled.
  pub remove_finalizer_unchanged :
      (c : Ctl W)
      → is_some c.cluster.object_meta.deletion_timestamp ≡ false
      → remove_finalizer r c ≡ (ok tt, c)
  unfolding remove_finalizer
  remove_finalizer_unchanged c h = ground arith

  ensure_nounce-none :
      (i : VmRayCluster) (w : W)
      → lookup head_node_nounce_label i.object_meta.labels ≡ none
      → (ensure_nounce r i w).0 ≡ ok (set_nounce i (create_random_nounce r.host nouce_length w).0)
  unfolding ensure_nounce
  ensure_nounce-none i w h = rw (h, ensure_nounce)

  ensure_nounce-some :
      (i : VmRayCluster) (w : W) {v : String}
      → lookup head_node_nounce_label i.object_meta.labels ≡ some v
      → ensure_nounce r i w ≡ (ok i, w)
  unfolding ensure_nounce
  ensure_nounce-some i w h = rw (h, ensure_nounce)

  adds :
      (c : Ctl W)
      → is_some c.cluster.object_meta.deletion_timestamp ≡ false
      → r.util.contains_finalizer c.cluster finalizer_name ≡ false
      → add_finalizer_and_nounce r c ≡ add_both r c.cluster c
  unfolding add_finalizer_and_nounce
  adds c alive absent = ground arith

  module _ (fin : IsFinalizers r.util) (st : Stores r.client) where
    -- With a nonce, and with the finalizers that it had.
    abbrev IsNamed : VmRayCluster → VmRayCluster → Type 0
    IsNamed i j =
        (r.util.contains_finalizer j finalizer_name ≡ r.util.contains_finalizer i finalizer_name)
        × (is_some (lookup head_node_nounce_label j.object_meta.labels) ≡ true)

    set_nounce-IsNamed : (i : VmRayCluster) (nounce : String) → IsNamed i (set_nounce i nounce)
    unfolding set_nounce
    set_nounce-IsNamed i nounce = (
      fin.not_labels i (insert head_node_nounce_label nounce i.object_meta.labels) finalizer_name,
      ap is_some
          (lookup-insert head_node_nounce_label head_node_nounce_label nounce i.object_meta.labels),
    )

    ensure_nounce-IsNamed :
        (i j : VmRayCluster) (w : W) → (ensure_nounce r i w).0 ≡ ok j → IsNamed i j
    ensure_nounce-IsNamed i j w h =
        elim (Option-cases (lookup head_node_nounce_label i.object_meta.labels)) [
          | inl e ↦
              subst (IsNamed i) (cc (h, ensure_nounce-none i w e))
                (set_nounce-IsNamed i (create_random_nounce r.host nouce_length w).0)
          | inr (v, e) ↦ subst (IsNamed i) (cc (h, ensure_nounce-some i w e)) (refl, ap is_some e)
        ]

    update-IsNamed :
        (i j : VmRayCluster) (c : Ctl W)
        → (update r j c).0 ≡ ok tt
        → IsNamed i j
        → IsNamed i (update r j c).1.cluster
    update-IsNamed i j c h (p, q) =
        let (k, e, x) =
          bind_inv (in_world (r.client.update_cluster j)) set_cluster (record c { cluster = j })
            h in
        let m = st.meta j k c.world e in
        rw x (
          fin.by_meta k j finalizer_name m ∙ p,
          ap (λ o. is_some (lookup head_node_nounce_label o.labels)) m ∙ q,
        )

    -- With the finalizer and a nonce.
    abbrev pub IsGuarded : VmRayCluster → Type 0
    IsGuarded i =
        (r.util.contains_finalizer i finalizer_name ≡ true)
        × (is_some (lookup head_node_nounce_label i.object_meta.labels) ≡ true)

    add_both-IsGuarded :
        (i : VmRayCluster) (c : Ctl W)
        → (add_both r i c).0 ≡ ok tt
        → IsGuarded (add_both r i c).1.cluster
    unfolding add_both
    add_both-IsGuarded i c h =
        let a = r.util.add_finalizer i finalizer_name in
        let (j, e, x) = bind_inv (in_world (ensure_nounce r a)) (update r) c h in
        let c' = (in_world (ensure_nounce r a) c).1 in
        let (p, q) =
          update-IsNamed a j c' (sym (ap (λ o. o.0) x) ∙ h) (ensure_nounce-IsNamed a j c.world e) in
        rw x (p ∙ fin.added i finalizer_name, q)

    -- With a controllerutil that adds what it is to add and a server that answers with the
    -- metadata that it was sent: reconciling a cluster that is not being deleted and does not
    -- have the finalizer yet, if it succeeds, leaves it with the finalizer and with a nonce.
    pub add_finalizer_and_nounce_lem :
        (c : Ctl W)
        → is_some c.cluster.object_meta.deletion_timestamp ≡ false
        → r.util.contains_finalizer c.cluster finalizer_name ≡ false
        → (add_finalizer_and_nounce r c).0 ≡ ok tt
        → IsGuarded (add_finalizer_and_nounce r c).1.cluster
    add_finalizer_and_nounce_lem c alive absent h =
        let e = adds c alive absent in
        rw e (add_both-IsGuarded c.cluster c (sym (ap (λ o. o.0) e) ∙ h))
