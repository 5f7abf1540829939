-- ===== src/Tests/Admission.antt =====
-- The webhook's theorems at sample clusters.
use mathlib.Core.List.{Permᴰ}
use ray_on_vcf.Prelude.{
  ◌≡◌, ◌↔◌, refl, ◌≤◌, ◌<◌, String, true, none, [], ◌∷◌, arith, ◌==◌, Bool, ◌^◌,
}
use ray_on_vcf.Prelude.Dict.{Dict}
use ray_on_vcf.Api.{NodeType, VmRayCluster}
use ray_on_vcf.Api.Regex.{accepts, name_regex, codes}
use ray_on_vcf.Api.Regex.Names.{is_name, name_regex_iff}
use ray_on_vcf.Api.Webhook.{validate_create, validate_node_types}
use ray_on_vcf.Api.Webhook.Admission.{IsAdmitted, validate_create_iff}
use ray_on_vcf.Api.Webhook.NodeTypes.{
  IsAdmissible, total_min, max_of, types_of, with_types, validate_node_types_iff, min_workers_fit,
  overflow_is_admitted, order_does_not_matter,
}
use ray_on_vcf.Tests.Sample.{cluster_with, a_cluster, small}

abbrev is_reference : String → Bool
is_reference s = s == "rayproject/ray:2.9"

validate_create_iff_example :
    (validate_create is_reference a_cluster ≡ true) ↔ IsAdmitted is_reference a_cluster
validate_create_iff_example = validate_create_iff is_reference a_cluster

validate_node_types_iff_example :
    (validate_node_types a_cluster ≡ none) ↔ IsAdmissible 5 "small" (("small", small) ∷ [])
validate_node_types_iff_example = validate_node_types_iff a_cluster

min_workers_fit_example : total_min (types_of a_cluster) ≤ 5
unfolding validate_node_types
min_workers_fit_example = min_workers_fit a_cluster refl (omega arith)

-- Two node types whose minima are 2^63 each.
abbrev huge : NodeType
huge = record small { min_workers = 2 ^ 63; max_workers = 2 ^ 63 }

abbrev huge_cluster : VmRayCluster
huge_cluster = cluster_with (("small", huge) ∷ ("large", huge) ∷ []) (2 ^ 63) []

overflow_is_admitted_example :
    (validate_node_types huge_cluster ≡ none)
    × (max_of huge_cluster < total_min (types_of huge_cluster))
overflow_is_admitted_example =
    overflow_is_admitted huge_cluster (omega arith, omega arith, (omega arith, omega arith, tt))
      refl (omega arith) (omega arith) (omega arith)

abbrev two_types : Dict NodeType
two_types = ("small", small) ∷ ("large", small) ∷ []

order_does_not_matter_example :
    validate_node_types
      (with_types (cluster_with two_types 5 []) (("large", small) ∷ ("small", small) ∷ []))
    ≡ none
unfolding validate_node_types
order_does_not_matter_example =
    order_does_not_matter (cluster_with two_types 5 []) (("large", small) ∷ ("small", small) ∷ [])
      (Permᴰ.swap refl refl) refl

name_regex_iff_example :
    (accepts name_regex (codes "ray-1") ≡ true) ↔ (is_name (codes "ray-1") ≡ true)
name_regex_iff_example = name_regex_iff (codes "ray-1")
