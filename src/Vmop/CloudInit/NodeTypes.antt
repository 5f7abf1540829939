-- ===== src/Vmop/CloudInit/NodeTypes.antt =====
-- `getRayBootstrapConfig`: the node types that the head node is told of.
use ray_on_vcf.Prelude.{
  ◌≡◌, refl, ap, String, Option, none, some, [], ◌∷◌, arith, ◌∙◌, inl, inr, Option-cases,
}
use ray_on_vcf.Prelude.Dict.{Dict, lookup}
use ray_on_vcf.Go.{ok}
use ray_on_vcf.Api.{NodeType}
use ray_on_vcf.Vmop.{get_vm_class}
use ray_on_vcf.Vmop.CloudInit.{
  Node, CloudConfig, node_of, get_available_node_types, get_ray_bootstrap_config,
  set_docker_command,
}

-- What the head is told of a node type of the resource.
abbrev told : Option NodeType → Option Node
told t = elim t [ none ↦ none | some n ↦ some (node_of n) ]

lookup-get_available_node_types :
    (name : String) (types : Dict NodeType)
    → lookup name (get_available_node_types types) ≡ told (lookup name types)
unfolding lookup get_available_node_types
lookup-get_available_node_types name [] = refl
lookup-get_available_node_types name ((k, t) ∷ types) =
    ground (arith, lookup-get_available_node_types name types)

-- If the machine of a deployment has a VM class, then the configuration of the node has its head
-- node type among the available node types, and with that VM class.
pub head_node_type_is_available :
    (c : CloudConfig) (vm_class : String)
    → get_vm_class c.request.node_type c.request.node_config ≡ ok vm_class
    → (n : Node) × (lookup
          (set_docker_command (get_ray_bootstrap_config c) c).head_node_type
          (set_docker_command (get_ray_bootstrap_config c) c).available_node_types
        ≡ some n)
      × (n.vm_class ≡ vm_class)
unfolding get_vm_class get_ray_bootstrap_config set_docker_command node_of
head_node_type_is_available c vm_class h =
    let r = c.request in
    let same = lookup-get_available_node_types r.node_type r.node_config.node_types in
    elim (Option-cases (lookup r.node_type r.node_config.node_types)) [
      | inl e ↦ ground arith
      | inr (t, e) ↦ (node_of t, same ∙ ap told e, ground arith)
    ]
