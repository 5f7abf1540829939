-- ===== src/Controller/Dependencies.antt =====
-- `ValidateAuxiliaryDependencies` of
-- vmray-cluster-operator/internal/controller/vmraycluster_controller_utils.go.
pub mod Verdict
pub mod Missing
use ray_on_vcf.Prelude.{String, Bool, true, false, ◌||◌, List, [], ◌∷◌, ◌==◌, if◌then◌else◌}
use ray_on_vcf.Prelude.Dict.{Dict}
use ray_on_vcf.Go.{
  Error, Result, ok, err, Exec, pure, fail, attempt, ◌>>=◌, ◌>>◌, when◌then◌else◌, is_not_found,
}
use ray_on_vcf.Api.{NodeType, VmRayCluster}
use ray_on_vcf.Api.Conditions.{
  invalid_vmi, invalid_storage_class, invalid_vm_class, resource_not_found,
}
use ray_on_vcf.Kube.{ObjectKey}
use ray_on_vcf.Controller.State.{Reconciler, Ctl, in_world, the_cluster, add_error_condition}

-- `slices.Compact`: of equal neighbours the first stays.
unfoldable pub compact : List String → List String
compact [] = []
compact (x ∷ []) = x ∷ []
compact (x ∷ y ∷ rest) = let tail = compact (y ∷ rest) in if x == y then tail else x ∷ tail

-- The VM classes, as the range over the node types meets them.
unfoldable pub vm_classes : Dict NodeType → List String
vm_classes [] = []
vm_classes ((name, nt) ∷ types) = nt.vm_class ∷ vm_classes types

module _ {W : Type 0} (r : Reconciler W) where
  -- What follows `if err := r.Client.Get(...); err != nil`: true if the object was not found, which
  -- adds a condition; any other error is returned.
  abbrev pub check_answer : String → Result (Unit {0}) → Exec (Ctl W) Bool
  check_answer type (ok _) = pure false
  check_answer type (err e) =
      when is_not_found e
      then add_error_condition r.host e type resource_not_found >> pure true
      else fail e

  unfoldable pub check : Exec W Unit → String → Exec (Ctl W) Bool
  unfolding add_error_condition
  check get type = attempt (in_world get) >>= check_answer type

  -- The loop over the VM classes.
  unfoldable pub check_classes : String → List String → Bool → Exec (Ctl W) Bool
  check_classes namespace [] invalid c = (ok invalid, c)
  check_classes namespace (name ∷ names) invalid c =
      let (answer, c') =
        check (r.client.get_vm_class (record { namespace = namespace; name = name }))
          invalid_vm_class c in
      elim answer [
        | err e ↦ (err e, c')
        | ok missing ↦ check_classes namespace names (invalid || missing) c'
      ]

  -- `ValidateAuxiliaryDependencies`: true if something is missing.
  unfoldable pub validate_auxiliary_dependencies : Exec (Ctl W) Bool
  validate_auxiliary_dependencies = do
    i ← the_cluster
    let namespace = i.object_meta.namespace
    let config = i.spec.node_config
    no_image ←
        check (r.client.get_vm_image (record { namespace = namespace; name = config.vm_image }))
          invalid_vmi
    no_storage ←
        check
          (r.client.get_storage_class
            (record { namespace = namespace; name = config.storage_class }))
          invalid_storage_class
    check_classes namespace (compact (vm_classes config.node_types)) (no_image || no_storage)
