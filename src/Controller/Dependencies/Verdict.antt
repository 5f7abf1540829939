-- ===== src/Controller/Dependencies/Verdict.antt =====
-- What `ValidateAuxiliaryDependencies` finds, and what it leaves of the cluster.
use ray_on_vcf.Prelude.{
  ◌≡◌, refl, ◌∙◌, inl, inr, String, Bool, false, ◌||◌, List, [], ◌∷◌, arith, ◌==◌, eq_iff, contains,
}
use ray_on_vcf.Go.{Error, Result, ok, err, Exec, Result-cases, ◌>>=◌, bind_inv}
use ray_on_vcf.Api.{VmRayCluster}
use ray_on_vcf.Api.Conditions.{invalid_vmi, invalid_storage_class, invalid_vm_class}
use ray_on_vcf.Controller.State.{Reconciler, Ctl}
use ray_on_vcf.Controller.Dependencies.{
  compact, vm_classes, check, check_classes, validate_auxiliary_dependencies,
}

-- Compacting keeps the elements: a VM class is checked if some node type has it.
pub contains-compact : (k : String) (xs : List String) → contains k (compact xs) ≡ contains k xs
unfolding contains compact
contains-compact k [] = refl
contains-compact k (x ∷ []) = refl
contains-compact k (x ∷ y ∷ rest) = ground (arith, eq_iff x y, contains-compact k (y ∷ rest))

-- Of classes with distinct neighbours nothing is dropped, so a class that stands twice, with
-- another between, is checked twice.
pub compact_keeps_apart :
    (x y : String) → (x == y) ≡ false → compact (x ∷ y ∷ x ∷ []) ≡ x ∷ y ∷ x ∷ []
unfolding compact
compact_keeps_apart x y h = ground (arith, eq_iff x y, eq_iff y x)

module _ {W : Type 0} (r : Reconciler W) where
  -- A check that finds its object leaves the cluster alone.
  check_found :
      (get : Exec W Unit) (type : String) (c : Ctl W)
      → (check r get type c).0 ≡ ok false
      → (check r get type c).1.cluster ≡ c.cluster
  unfolding check
  check_found get type c h = ground arith

  -- A check of a class that finds it, in the state `c`.
  abbrev pub check_class : String → String → Ctl W → Result Bool × Ctl W
  check_class namespace name =
      check r (r.client.get_vm_class (record { namespace = namespace; name = name }))
        invalid_vm_class

  pub check_classes-cons_ok :
      (namespace name : String) (names : List String) (invalid missing : Bool) (c : Ctl W)
      → (check_class namespace name c).0 ≡ ok missing
      → check_classes r namespace (name ∷ names) invalid c
        ≡ check_classes r namespace names (invalid || missing) (check_class namespace name c).1
  unfolding check_classes
  check_classes-cons_ok namespace name names invalid missing c h = rw (h, check_classes)

  pub check_classes-cons_err :
      (namespace name : String) (names : List String) (invalid : Bool) (c : Ctl W) (e : Error)
      → (check_class namespace name c).0 ≡ err e
      → check_classes r namespace (name ∷ names) invalid c
        ≡ (err e, (check_class namespace name c).1)
  unfolding check_classes
  check_classes-cons_err namespace name names invalid c e h = rw (h, check_classes)

  -- The loop says that nothing is missing only if nothing was missing before it, and then it
  -- leaves the cluster alone.
  pub check_classes_found :
      (namespace : String) (names : List String) (invalid : Bool) (c : Ctl W)
      → (check_classes r namespace names invalid c).0 ≡ ok false
      → (invalid ≡ false) × ((check_classes r namespace names invalid c).1.cluster ≡ c.cluster)
  unfolding check_classes
  check_classes_found namespace [] invalid c h = (cc, refl)
  check_classes_found namespace (name ∷ names) invalid c h =
      elim (Result-cases (check_class namespace name c).0) [
        | inl (missing, p) ↦
            let step = check_classes-cons_ok namespace name names invalid missing c p in
            let (clean, same) =
              check_classes_found namespace names (invalid || missing)
                (check_class namespace name c).1 (rw step at h) in
            rw step (ground arith, same ∙ check_found _ invalid_vm_class c (ground arith))
        | inr (e, p) ↦ cc (check_classes-cons_err namespace name names invalid c e p)
      ]

  -- The second and the third step of the validation of `i`.
  abbrev pub storage_step : VmRayCluster → Exec (Ctl W) Bool
  storage_step i =
      check r
        (r.client.get_storage_class
          (record { namespace = i.object_meta.namespace; name = i.spec.node_config.storage_class }))
        invalid_storage_class

  abbrev pub classes_step : VmRayCluster → Bool → Bool → Exec (Ctl W) Bool
  classes_step i no_image no_storage =
      check_classes r i.object_meta.namespace (compact (vm_classes i.spec.node_config.node_types))
        (no_image || no_storage)

  abbrev pub image_step : VmRayCluster → Exec (Ctl W) Bool
  image_step i =
      check r
        (r.client.get_vm_image
          (record { namespace = i.object_meta.namespace; name = i.spec.node_config.vm_image }))
        invalid_vmi

  -- A validation that finds nothing missing leaves the cluster alone.
  pub validate_found :
      (c : Ctl W)
      → (validate_auxiliary_dependencies r c).0 ≡ ok false
      → (validate_auxiliary_dependencies r c).1.cluster ≡ c.cluster
  unfolding validate_auxiliary_dependencies
  validate_found c h =
      let i = c.cluster in
      let (no_image, p, first) =
        bind_inv (image_step i) (λ no_image. storage_step i >>= classes_step i no_image) c h in
      let c1 = (image_step i c).1 in
      let (no_storage, q, second) =
        bind_inv (storage_step i) (classes_step i no_image) c1 (rw first at h) in
      let c2 = (storage_step i c1).1 in
      let whole = first ∙ second in
      let (clean, same) =
        check_classes_found i.object_meta.namespace
          (compact (vm_classes i.spec.node_config.node_types)) (no_image || no_storage) c2
          (rw whole at h) in
      rw whole (
        same
        ∙ check_found _ invalid_storage_class c1 (ground arith)
        ∙ check_found _ invalid_vmi c (ground arith))
