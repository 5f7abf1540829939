-- ===== src/Lcm/Frame.antt =====
-- `ProcessNodeVmState` leaves alone what the provider leaves alone.
use ray_on_vcf.Prelude.{◌≡◌, refl, arith, inl, inr, Option-cases}
use ray_on_vcf.Go.{Result-cases}
use ray_on_vcf.Api.{VmNodeStatus}
use ray_on_vcf.Kube.Frame.{Leaves}
use ray_on_vcf.Provider.{VmProvider, VmDeploymentRequest}
use ray_on_vcf.Provider.Frame.{ProviderLeaves, NodeLeaves, every-NodeLeaves}
use ray_on_vcf.Lcm.{
  NodeLcmRequest, Node, deployment_request, deploy_vm, process_empty, dispatch,
  process_node_vm_state,
}

module _ {W X : Type 0} (see : W → X) (pvdr : VmProvider W) (req : NodeLcmRequest)
    (law : NodeLeaves see pvdr req.namespace req.name) where
  abbrev seen : Node W → X
  seen n = see n.world

  deploy_vm-Leaves :
      (request : VmDeploymentRequest)
      → request.namespace ≡ req.namespace
      → request.vm_name ≡ req.name
      → Leaves seen (deploy_vm pvdr request)
  unfolding deploy_vm
  deploy_vm-Leaves request namespace name = record {
    same = λ n. ground (arith, (law.deploy request namespace name).same n.world);
  }

  process_empty-Leaves : Leaves seen (process_empty pvdr req)
  unfolding process_empty deployment_request
  process_empty-Leaves = record {
    same = λ n.
        let request = deployment_request req in
        elim (Option-cases req.head_node_status) [
          | inr (head, e) ↦ ground (arith, (deploy_vm-Leaves request refl refl).same n)
          | inl e ↦ elim (Result-cases (pvdr.deploy_vm_service request n.world).0) [
            | inr (x, f) ↦ ground (arith, (law.service request refl refl).same n.world)
            | inl (ip, f) ↦ ground (
              arith,
              (law.service request refl refl).same n.world,
              (deploy_vm-Leaves (record request { vm_service = ip }) refl refl).same (record n {
                vm_service_status = record { ip = ip };
                world = (pvdr.deploy_vm_service request n.world).1;
              }),
            )
          ]
        ];
  }

  dispatch-Leaves : (s : VmNodeStatus) → Leaves seen (dispatch pvdr s req)
  unfolding dispatch
  dispatch-Leaves VmNodeStatus.empty = process_empty-Leaves
  dispatch-Leaves VmNodeStatus.initialized = record {
    same = λ n. ground (arith, law.fetch.same n.world);
  }
  dispatch-Leaves VmNodeStatus.running = record {
    same = λ n. ground (arith, law.fetch.same n.world);
  }
  dispatch-Leaves VmNodeStatus.failure = record {
    same = λ n. ground (arith, law.fetch.same n.world);
  }
  dispatch-Leaves (VmNodeStatus.unknown s) = record { same = λ n. refl }

  -- The calls for a node leave alone what the provider's calls for it leave alone.
  pub process_node_vm_state-seen :
      (n : Node W) → see (process_node_vm_state pvdr req n).1.world ≡ see n.world
  unfolding process_node_vm_state
  process_node_vm_state-seen n = (dispatch-Leaves n.node_status.vm_status).same n

module _ {W X : Type 0} (see : W → X) (pvdr : VmProvider W) (law : ProviderLeaves see pvdr) where
  pub process_node_vm_state-Leaves :
      (req : NodeLcmRequest) (n : Node W)
      → see (process_node_vm_state pvdr req n).1.world ≡ see n.world
  process_node_vm_state-Leaves req =
      process_node_vm_state-seen see pvdr req (every-NodeLeaves see pvdr law req.namespace req.name)
