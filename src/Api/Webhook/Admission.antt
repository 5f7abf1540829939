-- ===== src/Api/Webhook/Admission.antt =====
-- Which clusters the webhook admits.
use ray_on_vcf.Prelude.{◌≡◌, ◌↔◌, refl, String, Bool, true, none, List, [], ◌∷◌, arith, All}
use ray_on_vcf.Prelude.Dict.{keys}
use ray_on_vcf.Api.{VmRayCluster}
use ray_on_vcf.Api.Regex.{codes, match_string, dns_compliant_regex}
use ray_on_vcf.Api.Regex.Names.{is_name, name_regex_iff}
use ray_on_vcf.Api.Webhook.{
  validate_name, validate_node_types, validate_min_node_types, validate_docker_image,
  validate_desired_workers, scan_workers, validate_create, validate_update,
}
use ray_on_vcf.Api.Webhook.NodeTypes.{IsAdmissible, max_of, types_of, validate_node_types_iff}

-- The worker names pass exactly if each of them is DNS compliant.
scan_workers_iff :
    (ks : List String)
    → (scan_workers ks ≡ none) ↔ All (λ k. match_string dns_compliant_regex k ≡ true) ks
unfolding scan_workers
scan_workers_iff [] = (λ h. tt, λ h. refl)
scan_workers_iff (k ∷ ks) =
    let (a, b) = scan_workers_iff ks in (λ h. ground arith, λ h. ground arith)

-- What an admitted cluster satisfies.
pub record IsAdmitted (is_reference : String → Bool) (r : VmRayCluster) : Type 0 where
  pub named : is_name (codes r.object_meta.name) ≡ true
  pub node_types : IsAdmissible (max_of r) r.spec.head_node.node_type (types_of r)
  pub image : is_reference r.spec.image ≡ true
  pub workers :
      All (λ k. match_string dns_compliant_regex k ≡ true) (keys r.spec.autoscaler_desired_workers)

validate_name_iff :
    (r : VmRayCluster) → (validate_name r ≡ none) ↔ (is_name (codes r.object_meta.name) ≡ true)
unfolding validate_name match_string
validate_name_iff r =
    let (a, b) = name_regex_iff (codes r.object_meta.name) in (λ h. a (ground arith), λ h. rw (b h))

-- The head's type is among the node types, so there is one.
IsAdmissible-min :
    (r : VmRayCluster)
    → IsAdmissible (max_of r) r.spec.head_node.node_type (types_of r)
    → validate_min_node_types r ≡ none
unfolding validate_min_node_types
IsAdmissible-min r h = ground (arith, h.has_head)

module _ (is_reference : String → Bool) (r : VmRayCluster) where
  parts_of_create :
      validate_create is_reference r ≡ true
      → (validate_name r ≡ none)
        × (validate_node_types r ≡ none)
        × (is_reference r.spec.image ≡ true)
        × (validate_desired_workers r ≡ none)
  unfolding validate_create validate_docker_image
  parts_of_create h = ground arith

  create_of_parts :
      validate_name r ≡ none
      → validate_node_types r ≡ none
      → validate_min_node_types r ≡ none
      → is_reference r.spec.image ≡ true
      → validate_desired_workers r ≡ none
      → validate_create is_reference r ≡ true
  unfolding validate_create validate_docker_image
  create_of_parts a b c d e = ground arith

  -- A cluster can be created exactly if its name is a lower-case DNS label that begins with a
  -- letter, its node types are admissible, its image is a reference, and each desired worker has a
  -- DNS compliant name.
  pub validate_create_iff : (validate_create is_reference r ≡ true) ↔ IsAdmitted is_reference r
  unfolding validate_desired_workers
  validate_create_iff = (
    λ h.
        let (a, b, c, d) = parts_of_create h in
        record {
          named = (validate_name_iff r).0 a;
          node_types = (validate_node_types_iff r).0 b;
          image = c;
          workers = (scan_workers_iff _).0 d;
        },
    λ h.
        create_of_parts ((validate_name_iff r).1 h.named)
          ((validate_node_types_iff r).1 h.node_types) (IsAdmissible-min r h.node_types) h.image
          ((scan_workers_iff _).1 h.workers),
  )

  -- An update is held to the tests of a creation, whatever the cluster was before.
  pub validate_update-eq-create :
      (old : VmRayCluster) → validate_update is_reference r old ≡ validate_create is_reference r
  unfolding validate_update validate_create
  validate_update-eq-create old = refl
