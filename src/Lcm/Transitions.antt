-- ===== src/Lcm/Transitions.antt =====
-- The process flow of a node, of which vmraycluster_types.go describes a part, as a relation, and
-- what each call of `ProcessNodeVmState` reports.
use ray_on_vcf.Prelude.{
  ◌≡◌, ◌≢◌, ◌⊎◌, ◌↔◌, Bool, true, false, none, some, inl, inr, String, is_some, if◌then◌else◌,
  arith, ◌==◌,
}
use ray_on_vcf.Go.{Result, ok, err, is_err, is_not_found, ignore_already_exists, Result-cases}
use ray_on_vcf.Api.{VmNodeStatus, RayProcessStatus, VmRayNodeStatus}
use ray_on_vcf.Provider.{VmProvider}
use ray_on_vcf.Lcm.{
  deployment_request, NodeLcmRequest, Node, process_node_vm_state, error_invalid_node_status,
}

-- What a `FetchVmStatus` shows of a machine.
pub data Sight : Type 0 where
  addressed addressless missing unreachable : Sight

-- What came of a deployment: the VM service could not be asked, or has no address yet, or the
-- machine is there, or it was refused.
pub data Deployment : Type 0 where
  no_service waiting placed refused : Deployment

pub data Event : Type 0 where
  saw : Sight → Event
  asked : Deployment → Event
  nothing : Event

-- A machine's status and that of its Ray process.
abbrev pub Stage : Type 0
Stage = VmNodeStatus × RayProcessStatus

-- The process flow: what happens brings a node from one stage to the next.
pub data Flow : Event → Stage → Stage → Type 0 where
  service_fails :
      {p : RayProcessStatus}
      → Flow (asked no_service) (VmNodeStatus.empty, p) (VmNodeStatus.empty, p)
  await_service :
      {p : RayProcessStatus} → Flow (asked waiting) (VmNodeStatus.empty, p) (VmNodeStatus.empty, p)
  deployed :
      {p : RayProcessStatus}
      → Flow (asked placed) (VmNodeStatus.empty, p) (VmNodeStatus.initialized, p)
  not_deployed :
      {p : RayProcessStatus}
      → Flow (asked refused) (VmNodeStatus.empty, p) (VmNodeStatus.failure, p)
  await_ip :
      {p : RayProcessStatus}
      → Flow (saw addressless) (VmNodeStatus.initialized, p) (VmNodeStatus.initialized, p)
  boots :
      {p : RayProcessStatus}
      → Flow
          (saw addressed)
          (VmNodeStatus.initialized, p)
          (VmNodeStatus.running, RayProcessStatus.ray_initialized)
  never_came :
      {p : RayProcessStatus}
      → Flow (saw missing) (VmNodeStatus.initialized, p) (VmNodeStatus.failure, p)
  not_fetched :
      {p : RayProcessStatus}
      → Flow (saw unreachable) (VmNodeStatus.initialized, p) (VmNodeStatus.failure, p)
  stays_up :
      {p : RayProcessStatus}
      → Flow
          (saw addressed)
          (VmNodeStatus.running, p)
          (VmNodeStatus.running, RayProcessStatus.ray_running)
  loses_ip :
      {p : RayProcessStatus}
      → Flow
          (saw addressless)
          (VmNodeStatus.running, p)
          (VmNodeStatus.failure, RayProcessStatus.ray_fail)
  vanishes :
      {p : RayProcessStatus}
      → Flow
          (saw missing)
          (VmNodeStatus.running, p)
          (VmNodeStatus.failure, RayProcessStatus.ray_fail)
  lost :
      {p : RayProcessStatus}
      → Flow
          (saw unreachable)
          (VmNodeStatus.running, p)
          (VmNodeStatus.failure, RayProcessStatus.ray_fail)
  found_again :
      {p : RayProcessStatus}
      → Flow (saw addressed) (VmNodeStatus.failure, p) (VmNodeStatus.initialized, p)
  found_booting :
      {p : RayProcessStatus}
      → Flow (saw addressless) (VmNodeStatus.failure, p) (VmNodeStatus.initialized, p)
  gone :
      {p : RayProcessStatus} → Flow (saw missing) (VmNodeStatus.failure, p) (VmNodeStatus.empty, p)
  still_lost :
      {p : RayProcessStatus}
      → Flow (saw unreachable) (VmNodeStatus.failure, p) (VmNodeStatus.failure, p)
  invalid :
      {t : String} {p : RayProcessStatus}
      → Flow nothing (VmNodeStatus.unknown t, p) (VmNodeStatus.unknown t, p)

ruleset edges = (
  service_fails, await_service, deployed, not_deployed, await_ip, boots, never_came, not_fetched,
  stays_up, loses_ip, vanishes, lost, found_again, found_booting, gone, still_lost, invalid,
)

abbrev sight : Result VmRayNodeStatus → Sight
sight (ok found) = if found.ip == "" then addressless else addressed
sight (err e) = if is_not_found e then missing else unreachable

abbrev placement : Result (Unit {0}) → Deployment
placement (ok _) = placed
placement (err e) = if is_some (ignore_already_exists e) then refused else placed

-- Is the status one of the four constants?
abbrev pub is_known : VmNodeStatus → Bool
is_known (VmNodeStatus.unknown s) = false
is_known _ = true

abbrev pub stage : {W : Type 0} → Node W → Stage
stage m = (m.node_status.vm_status, m.node_status.ray_status)

module _ {W : Type 0} (pvdr : VmProvider W) (req : NodeLcmRequest) (n : Node W) where
  -- What a deployment of the node comes to, in this world.
  abbrev deployment : Deployment
  deployment =
      let request = deployment_request req in
      elim req.head_node_status [
        | some _ ↦ placement (pvdr.deploy request n.world).0
        | none ↦
            let (answer, w) = pvdr.deploy_vm_service request n.world in
            elim answer [
              | err _ ↦ no_service
              | ok ip ↦
                  if ip == ""
                  then waiting
                  else placement (pvdr.deploy (record request { vm_service = ip }) w).0
            ]
      ]

  -- What happens to a node in a call, by what the provider answers.
  abbrev pub event : VmNodeStatus → Event
  event VmNodeStatus.empty = asked deployment
  event (VmNodeStatus.unknown s) = nothing
  event _ = saw (sight (pvdr.fetch_vm_status req.namespace req.name n.world).0)

  -- While a machine is initialized or running, a call returns an error exactly when it moves the
  -- machine to failure.
  pub error_iff_failure :
      (n.node_status.vm_status ≡ VmNodeStatus.initialized)
        ⊎ (n.node_status.vm_status ≡ VmNodeStatus.running)
      → (is_err (process_node_vm_state pvdr req n).0 ≡ true)
        ↔ ((process_node_vm_state pvdr req n).1.node_status.vm_status ≡ VmNodeStatus.failure)
  unfolding process_node_vm_state
  error_iff_failure h = (λ e. ground arith, λ f. ground arith)

  -- A call for a worker leaves the status of the VM service alone, and so does one for a head
  -- whose machine was deployed before.
  pub vm_service_status_unchanged :
      (req.head_node_status ≢ none) ⊎ (n.node_status.vm_status ≢ VmNodeStatus.empty)
      → (process_node_vm_state pvdr req n).1.vm_service_status ≡ n.vm_service_status
  unfolding process_node_vm_state
  vm_service_status_unchanged h = ground arith

  -- A head whose machine has the empty status leaves it only with an address, not the empty one,
  -- that the provider has just returned for the VM service: it is recorded in the cluster's status,
  -- and the last call is the deployment of a machine that is told it.
  pub head_needs_service :
      req.head_node_status ≡ none
      → n.node_status.vm_status ≡ VmNodeStatus.empty
      → (process_node_vm_state pvdr req n).1.node_status.vm_status ≢ VmNodeStatus.empty
      → let asks = pvdr.deploy_vm_service (deployment_request req) n.world in
        let out = (process_node_vm_state pvdr req n).1 in
        (ip : String) × (asks.0 ≡ ok ip)
        × ((ip == "") ≡ false)
        × (out.vm_service_status.ip ≡ ip)
        × (out.world ≡ (pvdr.deploy (record (deployment_request req) { vm_service = ip }) asks.1).1)
  unfolding process_node_vm_state deployment_request
  head_needs_service h e d =
      elim (Result-cases (pvdr.deploy_vm_service (deployment_request req) n.world).0) [
        | inl (ip, x) ↦ (ip, x, ground arith, ground arith, ground arith)
        | inr (x, y) ↦ absurd (d (ground arith))
      ]

  -- A status that is none of the four constants is an error that changes nothing.
  pub unknown_is_error :
      is_known n.node_status.vm_status ≡ false
      → process_node_vm_state pvdr req n ≡ (err error_invalid_node_status, n)
  unfolding process_node_vm_state
  unknown_is_error h = ground arith
