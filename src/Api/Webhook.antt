-- ===== src/Api/Webhook.antt =====
-- vmray-cluster-operator/api/v1alpha1/vmraycluster_webhook.go: what the admission webhook checks
-- when a VMRayCluster is created or updated.
pub mod NodeTypes
pub mod Admission
use ray_on_vcf.Prelude.{
  ℕ, ◌+◌, ◌%◌, String, Bool, true, false, ◌||◌, Option, none, some, List, [], ◌∷◌, ◌++◌, ltb, ◌==◌,
  if◌then◌else◌, uint_mod,
}
use ray_on_vcf.Prelude.Dict.{Dict, keys}
use ray_on_vcf.Api.{NodeType, CommonNodeConfig, VmRayCluster}
use ray_on_vcf.Api.Regex.{Regex, match_string, name_regex, dns_compliant_regex}

-- The message of a `field.Error`, by what it is formatted from.
pub data Detail : Type 0 where
  bad_name no_node_config bad_image : Detail
  min_over_max : ℕ → ℕ → Detail
  max_over_cluster : String → ℕ → Detail
  head_type_missing : String → Detail
  total_over_max : ℕ → ℕ → Detail
  bad_worker_name : String → Detail

-- `field.Invalid(path, value, detail)`
pub record FieldError : Type 0 where
  pub path : List String
  pub value : String
  pub detail : Detail

abbrev node_types_path : List String
node_types_path = "spec" ∷ "common_node_config" ∷ "node_types" ∷ []

abbrev invalid : List String → String → Detail → FieldError
invalid path value detail = record { path = path; value = value; detail = detail }

-- `validateName`
pub validate_name : VmRayCluster → Option FieldError
validate_name r =
    if match_string name_regex r.object_meta.name
    then none
    else some (invalid ("metadata" ∷ "name" ∷ []) r.object_meta.name bad_name)

-- What the loop of `validateNodeTypes` ends with: an error that it returns, or
-- `total_min_worker` and `head_node_type_exists`.
pub data Scan : Type 0 where
  stop : FieldError → Scan
  end : ℕ → Bool → Scan

-- The loop. `max` is the cluster's `max_workers` and `head` the head's node type; the total is a
-- `uint`.
pub scan_types : ℕ → String → Dict NodeType → ℕ → Bool → Scan
scan_types max head [] total exists = end total exists
scan_types max head ((name, nt) ∷ types) total exists =
    let rest =
      scan_types max head types ((total + nt.min_workers) % uint_mod) (exists || (head == name)) in
    if ltb nt.max_workers nt.min_workers
    then stop (
        invalid (node_types_path ++ name ∷ []) "min_workers/max_workers"
          (min_over_max nt.min_workers nt.max_workers))
    else if ltb max nt.max_workers
    then stop (invalid (node_types_path ++ name ∷ []) "max_workers" (max_over_cluster name max))
    else rest

-- The tests behind the loop.
pub after_scan : ℕ → String → Scan → Option FieldError
after_scan max head (stop e) = some e
after_scan max head (end total false) =
    some (invalid ("spec" ∷ "head_node" ∷ []) "node_type" (head_type_missing head))
after_scan max head (end total true) =
    if ltb max total
    then some
        (invalid ("spec" ∷ "common_node_config" ∷ []) "min_workers" (total_over_max max total))
    else none

-- `validateNodeTypes`
unfoldable pub validate_node_types : VmRayCluster → Option FieldError
unfolding scan_types after_scan
validate_node_types r =
    let max = r.spec.node_config.max_workers in
    let head = r.spec.head_node.node_type in
    after_scan max head (scan_types max head r.spec.node_config.node_types 0 false)

-- `validateMinNodeTypes`
pub validate_min_node_types : VmRayCluster → Option FieldError
validate_min_node_types r = elim r.spec.node_config.node_types [
  | [] ↦ some (invalid ("spec" ∷ "common_node_config" ∷ []) "node_types" no_node_config)
  | _ ∷ _ ↦ none
]

-- `validateDesiredWorkers`: the loop, over the names.
pub scan_workers : List String → Option FieldError
scan_workers [] = none
scan_workers (k ∷ ks) =
    if match_string dns_compliant_regex k
    then scan_workers ks
    else some (invalid ("spec" ∷ "autoscaler_desired_workers" ∷ []) "name" (bad_worker_name k))

pub validate_desired_workers : VmRayCluster → Option FieldError
unfolding scan_workers
validate_desired_workers r = scan_workers (keys r.spec.autoscaler_desired_workers)

-- `if err != nil { allErrs = append(allErrs, err) }`
abbrev append_error : List FieldError → Option FieldError → List FieldError
append_error errors none = errors
append_error errors (some e) = errors ++ e ∷ []

-- `reference.ReferenceRegexp.MatchString`, of github.com/distribution/reference.
module _ (is_reference : String → Bool) where
  -- `validateDockerImage`
  pub validate_docker_image : VmRayCluster → Option FieldError
  validate_docker_image r =
      if is_reference r.spec.image
      then none
      else some (invalid ("spec" ∷ "image" ∷ []) r.spec.image bad_image)

  -- `validateVMRayCluster`: `allErrs`; the result is nil exactly if there are none.
  pub validate_vm_ray_cluster : VmRayCluster → List FieldError
  validate_vm_ray_cluster r =
      let errors = append_error [] (validate_name r) in
      let errors = append_error errors (validate_node_types r) in
      let errors = append_error errors (validate_min_node_types r) in
      let errors = append_error errors (validate_docker_image r) in
      append_error errors (validate_desired_workers r)

  -- `ValidateCreate`, `ValidateUpdate` and `ValidateDelete`: is the request admitted?
  pub validate_create : VmRayCluster → Bool
  unfolding validate_vm_ray_cluster
  validate_create r = elim (validate_vm_ray_cluster r) [ [] ↦ true | _ ∷ _ ↦ false ]

  pub validate_update : VmRayCluster → VmRayCluster → Bool
  unfolding validate_vm_ray_cluster
  validate_update r old = elim (validate_vm_ray_cluster r) [ [] ↦ true | _ ∷ _ ↦ false ]

  unfoldable pub validate_delete : VmRayCluster → Bool
  validate_delete r = true
