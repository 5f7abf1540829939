-- ===== src/Lcm/Invariant.antt =====
-- What holds of a node's status between two calls of `ProcessNodeVmState`.
use ray_on_vcf.Prelude.{◌≡◌, ◌⊎◌, false, arith, ◌==◌}
use ray_on_vcf.Api.{VmNodeStatus, RayProcessStatus, VmRayNodeStatus}
use ray_on_vcf.Provider.{VmProvider}
use ray_on_vcf.Lcm.{NodeLcmRequest, Node, process_node_vm_state}

-- A running machine has an address and a Ray process that was started, and Ray runs only on a
-- running machine.
pub record IsWellFormed (s : VmRayNodeStatus) : Type 0 where
  pub addressed : s.vm_status ≡ VmNodeStatus.running → (s.ip == "") ≡ false
  pub started :
      s.vm_status ≡ VmNodeStatus.running
      → (s.ray_status ≡ RayProcessStatus.ray_initialized)
        ⊎ (s.ray_status ≡ RayProcessStatus.ray_running)
  pub on_running : s.ray_status ≡ RayProcessStatus.ray_running → s.vm_status ≡ VmNodeStatus.running

module _ {W : Type 0} (pvdr : VmProvider W) (req : NodeLcmRequest) (n : Node W) where
  -- Whatever the provider answers, a call keeps a well-formed status well-formed.
  pub process_node_vm_state-IsWellFormed :
      IsWellFormed n.node_status → IsWellFormed (process_node_vm_state pvdr req n).1.node_status
  unfolding process_node_vm_state
  process_node_vm_state-IsWellFormed h = ground arith
