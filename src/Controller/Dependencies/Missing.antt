-- ===== src/Controller/Dependencies/Missing.antt =====
-- `ValidateAuxiliaryDependencies` finds nothing missing exactly if nothing is missing.
use ray_on_vcf.Prelude.{
  ◌≡◌, ◌↔◌, refl, sym, ap, ◌∙◌, subst, inl, inr, String, Bool, false, ◌||◌, List, [], ◌∷◌, arith,
  ◌==◌, eq_iff, All, Bool-cases,
}
use ray_on_vcf.Go.{ok, is_err, Exec, Result-cases, ◌>>=◌, bind-ok, bind_inv}
use ray_on_vcf.Api.{VmRayCluster}
use ray_on_vcf.Api.Conditions.{invalid_vmi, invalid_storage_class, invalid_vm_class}
use ray_on_vcf.Kube.{ObjectKey, Client}
use ray_on_vcf.Controller.State.{Reconciler, Ctl}
use ray_on_vcf.Controller.Dependencies.{
  compact, vm_classes, check, check_classes, validate_auxiliary_dependencies,
}
use ray_on_vcf.Controller.Dependencies.Verdict.{
  image_step, storage_step, classes_step, check_class, check_classes-cons_ok,
  check_classes-cons_err, check_classes_found,
}

-- A `Get` reads: it leaves the world as it is.
pub record ReadsOnly {W : Type 0} (client : Client W) : Type 0 where
  pub image : (k : ObjectKey) (w : W) → (client.get_vm_image k w).1 ≡ w
  pub storage : (k : ObjectKey) (w : W) → (client.get_storage_class k w).1 ≡ w
  pub class : (k : ObjectKey) (w : W) → (client.get_vm_class k w).1 ≡ w

All-compact_to {ℓ} : (P : String → Type ℓ) (xs : List String) → All P (compact xs) → All P xs
unfolding compact
All-compact_to P [] h = h
All-compact_to P (x ∷ []) h = h
All-compact_to P (x ∷ y ∷ rest) h = elim (Bool-cases (x == y)) [
  | inl same ↦
      let tail = All-compact_to P (y ∷ rest) (rw same at h) in
      (subst P (sym ((eq_iff x y).0 same)) tail.0, tail)
  | inr apart ↦ let h' = rw apart at h in (h'.0, All-compact_to P (y ∷ rest) h'.1)
]

All-compact_from {ℓ} : (P : String → Type ℓ) (xs : List String) → All P xs → All P (compact xs)
unfolding compact
All-compact_from P [] h = h
All-compact_from P (x ∷ []) h = h
All-compact_from P (x ∷ y ∷ rest) h = elim (Bool-cases (x == y)) [
  | inl same ↦ rw same (All-compact_from P (y ∷ rest) h.1)
  | inr apart ↦ rw apart (h.0, All-compact_from P (y ∷ rest) h.1)
]

module _ {W : Type 0} (r : Reconciler W) where
  check_clean :
      (get : Exec W Unit) (type : String) (c : Ctl W)
      → (get c.world).1 ≡ c.world
      → is_err (get c.world).0 ≡ false
      → check r get type c ≡ (ok false, c)
  unfolding check
  check_clean get type c same h = ground arith

  check_found_inv :
      (get : Exec W Unit) (type : String) (c : Ctl W)
      → (check r get type c).0 ≡ ok false
      → is_err (get c.world).0 ≡ false
  unfolding check
  check_found_inv get type c h = ground arith

  -- Does the namespace have the VM class, in a world?
  abbrev pub HasClass : String → W → String → Type 0
  HasClass namespace w name =
      is_err (r.client.get_vm_class (record { namespace = namespace; name = name }) w).0 ≡ false

  classes_clean :
      ReadsOnly r.client
      → (namespace : String) (names : List String) (c : Ctl W)
      → All (HasClass namespace c.world) names
      → check_classes r namespace names false c ≡ (ok false, c)
  unfolding check_classes
  classes_clean ro namespace [] c h = refl
  classes_clean ro namespace (name ∷ names) c h =
      let first = check_clean _ invalid_vm_class c (ro.class _ c.world) h.0 in
      check_classes-cons_ok r namespace name names false false c (ap (λ o. o.0) first)
      ∙ ap (λ o. check_classes r namespace names false o.1) first
      ∙ classes_clean ro namespace names c h.1

  classes_inv :
      ReadsOnly r.client
      → (namespace : String) (names : List String) (invalid : Bool) (c : Ctl W)
      → (check_classes r namespace names invalid c).0 ≡ ok false
      → All (HasClass namespace c.world) names
  unfolding check_classes
  classes_inv ro namespace [] invalid c h = tt
  classes_inv ro namespace (name ∷ names) invalid c h =
      elim (Result-cases (check_class r namespace name c).0) [
        | inl (missing, p) ↦
            let step = check_classes-cons_ok r namespace name names invalid missing c p in
            let c' = (check_class r namespace name c).1 in
            let h' = rw step at h in
            let clean = (check_classes_found r namespace names (invalid || missing) c' h').0 in
            let get = r.client.get_vm_class (record { namespace = namespace; name = name }) in
            let found = check_found_inv get invalid_vm_class c (ground arith) in
            let still = check_clean get invalid_vm_class c (ro.class _ c.world) found in
            (
              found,
              subst (λ w. All (HasClass namespace w) names) (ap (λ o. o.1.world) still)
                  (classes_inv ro namespace names (invalid || missing) c' h'),
            )
        | inr (e, p) ↦ cc (check_classes-cons_err r namespace name names invalid c e p)
      ]

  -- Everything that the cluster refers to is there, in a world.
  pub record HasAll (i : VmRayCluster) (w : W) : Type 0 where
    pub image :
        is_err
          (r.client.get_vm_image
            (record { namespace = i.object_meta.namespace; name = i.spec.node_config.vm_image })
            w).0
        ≡ false
    pub storage :
        is_err
          (r.client.get_storage_class
            (record {
              namespace = i.object_meta.namespace;
              name = i.spec.node_config.storage_class;
            })
            w).0
        ≡ false
    pub classes :
        All (HasClass i.object_meta.namespace w) (vm_classes i.spec.node_config.node_types)

  module _ (ro : ReadsOnly r.client) (c : Ctl W) where
    abbrev i : VmRayCluster
    i = c.cluster

    pub HasAll-validate :
        HasAll c.cluster c.world → validate_auxiliary_dependencies r c ≡ (ok false, c)
    unfolding validate_auxiliary_dependencies
    HasAll-validate h =
        let image = check_clean _ invalid_vmi c (ro.image _ c.world) h.image in
        let storage = check_clean _ invalid_storage_class c (ro.storage _ c.world) h.storage in
        bind-ok (image_step r i) (λ no_image. storage_step r i >>= classes_step r i no_image) c
          false (ap (λ o. o.0) image)
        ∙ ap (λ o. (storage_step r i >>= classes_step r i false) o.1) image
        ∙ bind-ok (storage_step r i) (classes_step r i false) c false (ap (λ o. o.0) storage)
        ∙ ap (λ o. classes_step r i false false o.1) storage
        ∙ classes_clean ro i.object_meta.namespace _ c (All-compact_from _ _ h.classes)

    validate-HasAll : (validate_auxiliary_dependencies r c).0 ≡ ok false → HasAll c.cluster c.world
    unfolding validate_auxiliary_dependencies
    validate-HasAll h =
        let get_image =
          r.client.get_vm_image
            (record { namespace = i.object_meta.namespace; name = i.spec.node_config.vm_image }) in
        let get_storage = r.client.get_storage_class (record {
          namespace = i.object_meta.namespace;
          name = i.spec.node_config.storage_class;
        }) in
        let (no_image, p, first) =
          bind_inv (image_step r i) (λ no_image. storage_step r i >>= classes_step r i no_image) c
            h in
        let c1 = (image_step r i c).1 in
        let (no_storage, q, second) =
          bind_inv (storage_step r i) (classes_step r i no_image) c1 (rw first at h) in
        let c2 = (storage_step r i c1).1 in
        let h' = rw (first ∙ second) at h in
        let names = compact (vm_classes i.spec.node_config.node_types) in
        let clean =
          (check_classes_found r i.object_meta.namespace names (no_image || no_storage) c2 h').0 in
        let image_found = check_found_inv get_image invalid_vmi c (ground arith) in
        let same1 : c1 ≡ c =
          ap (λ o. o.1) (check_clean get_image invalid_vmi c (ro.image _ c.world) image_found) in
        let storage_found = check_found_inv get_storage invalid_storage_class c1 (ground arith) in
        let same2 : c2 ≡ c1 =
          ap (λ o. o.1)
            (check_clean get_storage invalid_storage_class c1 (ro.storage _ c1.world)
              storage_found) in
        let classes_found =
          classes_inv ro i.object_meta.namespace names (no_image || no_storage) c2 h' in
        record {
          image = image_found;
          storage = subst (λ d. is_err (get_storage d.world).0 ≡ false) same1 storage_found;
          classes = All-compact_to _ _ (
              subst (λ d. All (HasClass i.object_meta.namespace d.world) names) (same2 ∙ same1)
                classes_found);
        }

    -- Where lookups only read, the validation finds nothing missing exactly if the VM image, the
    -- storage class and the VM class of every node type are there.
    pub validate_iff_HasAll :
        ((validate_auxiliary_dependencies r c).0 ≡ ok false) ↔ HasAll c.cluster c.world
    validate_iff_HasAll = (validate-HasAll, λ h. ap (λ o. o.0) (HasAll-validate h))
