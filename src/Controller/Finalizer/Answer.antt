-- ===== src/Controller/Finalizer/Answer.antt =====
-- Where the cluster in hand comes from after `addFinalizerAndNounce`.
use ray_on_vcf.Prelude.{
  ◌≡◌, refl, ◌∙◌, ap, ◌⊎◌, inl, inr, Option-cases, Bool-cases, arith, is_some, not, ◌&&◌,
}
use ray_on_vcf.Prelude.Dict.{lookup}
use ray_on_vcf.Go.{ok, Result-cases, bind-ok}
use ray_on_vcf.Api.{VmRayCluster}
use ray_on_vcf.Controller.State.{Reconciler, Ctl, in_world}
use ray_on_vcf.Controller.Finalizer.{
  finalizer_name, head_node_nounce_label, ensure_nounce, set_nounce, create_random_nounce,
  nouce_length, add_both, update, add_finalizer_and_nounce,
}
use ray_on_vcf.Controller.Finalizer.Guard.{IsFinalizers}

module _ {W : Type 0} (r : Reconciler W) (fin : IsFinalizers r.util) where
  -- The status is the one before, or the cluster is an answer of the server.
  abbrev pub IsKept : VmRayCluster → VmRayCluster → Type 0
  IsKept i j =
      (j.status ≡ i.status)
      ⊎ ((k : VmRayCluster) × (w : W) × ((r.client.update_cluster k w).0 ≡ ok j))

  named :
      (i : VmRayCluster) (w : W)
      → (n : VmRayCluster) × (w' : W) × (ensure_nounce r i w ≡ (ok n, w')) × (n.status ≡ i.status)
  unfolding ensure_nounce set_nounce
  named i w = elim (Option-cases (lookup head_node_nounce_label i.object_meta.labels)) [
    | inl e ↦
        let (nounce, w') = create_random_nounce r.host nouce_length w in
        (set_nounce i nounce, w', rw (e, ensure_nounce) refl, refl)
    | inr (v, e) ↦ (i, w, rw (e, ensure_nounce) refl, refl)
  ]

  update-IsKept :
      (i n : VmRayCluster) (c : Ctl W) → n.status ≡ i.status → IsKept i (update r n c).1.cluster
  update-IsKept i n c h = elim (Result-cases (r.client.update_cluster n c.world).0) [
    | inl (j, e) ↦ inr (n, c.world, e ∙ ap ok (ground arith))
    | inr (x, e) ↦ inl (ground arith)
  ]

  add_both-IsKept : (i : VmRayCluster) (c : Ctl W) → IsKept i (add_both r i c).1.cluster
  unfolding add_both
  add_both-IsKept i c =
      let a = r.util.add_finalizer i finalizer_name in
      let (n, w', e, s) = named a c.world in
      rw (bind-ok (in_world (ensure_nounce r a)) (update r) c n (ap (λ o. o.0) e))
        (update-IsKept i n (in_world (ensure_nounce r a) c).1 (s ∙ fin.statuses i finalizer_name))

  -- Whether it succeeds or not, the cluster in hand keeps its status or is one that the server
  -- answered.
  pub add_finalizer_and_nounce-IsKept :
      (c : Ctl W) → IsKept c.cluster (add_finalizer_and_nounce r c).1.cluster
  unfolding add_finalizer_and_nounce
  add_finalizer_and_nounce-IsKept c =
      elim (Bool-cases (
        not (is_some c.cluster.object_meta.deletion_timestamp)
        && not (r.util.contains_finalizer c.cluster finalizer_name))) [
          | inl h ↦ rw h (add_both-IsKept c.cluster c)
          | inr h ↦ inl (rw h refl)
        ]
