-- ===== src/Lcm/Progress.antt =====
-- Self-healing: a worker of any status, on a provider whose machines take some time to get an
-- address, runs after enough calls of `ProcessNodeVmState`, and keeps running.
use ray_on_vcf.Prelude.{
  ℕ, zero, suc, ◌+◌, ◌≤◌, ◌≡◌, ◌≢◌, ◌⊎◌, inl, inr, true, false, Option, none, some, arith, ◌==◌,
  Option-cases,
}
use ray_on_vcf.Go.{Error, ok, err, is_not_found, is_already_exists}
use ray_on_vcf.Api.{VmNodeStatus, RayProcessStatus, VmRayNodeStatus}
use ray_on_vcf.Provider.{VmProvider}
use ray_on_vcf.Lcm.{NodeLcmRequest, Node, process_node_vm_state, deployment_request}
use ray_on_vcf.Lcm.Transitions.{is_known}

-- The reconciler calls once in each round.
unfoldable pub rounds : {W : Type 0} → ℕ → VmProvider W → NodeLcmRequest → Node W → Node W
rounds zero pvdr req n = n
rounds (suc k) pvdr req n = rounds k pvdr req (process_node_vm_state pvdr req n).1

-- A provider that serves the requests for one node. In a world `boot` says whether the node's
-- machine is there, and for how many fetches it has no address yet, which is at most `bound` for a
-- new machine. A fetch does not find a machine that is not there; the request's deployment makes
-- one, and reports one that is there.
pub record Serves {W : Type 0} (pvdr : VmProvider W) (req : NodeLcmRequest) (bound : ℕ)
    : Type 0 where
  pub boot : W → Option ℕ
  pub missing :
      (w : W)
      → boot w ≡ none
      → let out = pvdr.fetch_vm_status req.namespace req.name w in
        (e : Error) × (out.0 ≡ err e) × (is_not_found e ≡ true) × (boot out.1 ≡ none)
  pub booting :
      (w : W) (b : ℕ)
      → boot w ≡ some (suc b)
      → let out = pvdr.fetch_vm_status req.namespace req.name w in
        (found : VmRayNodeStatus) × (out.0 ≡ ok found)
        × ((found.ip == "") ≡ true)
        × (boot out.1 ≡ some b)
  pub up :
      (w : W)
      → boot w ≡ some 0
      → let out = pvdr.fetch_vm_status req.namespace req.name w in
        (found : VmRayNodeStatus) × (out.0 ≡ ok found)
        × ((found.ip == "") ≡ false)
        × (boot out.1 ≡ some 0)
  pub makes :
      (w : W)
      → boot w ≡ none
      → let out = pvdr.deploy (deployment_request req) w in
        (b : ℕ) × (out.0 ≡ ok tt) × (b ≤ bound) × (boot out.1 ≡ some b)
  pub reports :
      (w : W) (b : ℕ)
      → boot w ≡ some b
      → let out = pvdr.deploy (deployment_request req) w in
        (e : Error) × (out.0 ≡ err e) × (is_already_exists e ≡ true) × (boot out.1 ≡ some b)

-- At most so many calls until a node runs.
abbrev pub distance : ℕ → VmNodeStatus → RayProcessStatus → Option ℕ → ℕ
distance bound VmNodeStatus.running RayProcessStatus.ray_running (some zero) = 0
distance bound VmNodeStatus.running _ (some zero) = 1
distance bound VmNodeStatus.running _ (some (suc b)) = b + 5
distance bound VmNodeStatus.initialized _ (some b) = b + 2
distance bound VmNodeStatus.empty _ (some b) = b + 3
distance bound VmNodeStatus.failure _ (some b) = b + 3
distance bound VmNodeStatus.empty _ none = bound + 3
distance bound VmNodeStatus.failure _ none = bound + 4
distance bound _ _ _ = bound + 5

module _ {W : Type 0} (pvdr : VmProvider W) (req : NodeLcmRequest) (bound : ℕ)
    (s : Serves pvdr req bound) where
  abbrev to_go : Node W → ℕ
  to_go n = distance bound n.node_status.vm_status n.node_status.ray_status (s.boot n.world)

  abbrev pub Nearer : Node W → Node W → Type 0
  Nearer n m = (to_go m + 1 ≤ to_go n) ⊎ (to_go m ≤ 0)

  -- A call for a worker of a known status brings it nearer.
  none_falls :
      (n : Node W)
      → is_known n.node_status.vm_status ≡ true
      → req.head_node_status ≢ none
      → s.boot n.world ≡ none
      → Nearer n (process_node_vm_state pvdr req n).1
        × (is_known (process_node_vm_state pvdr req n).1.node_status.vm_status ≡ true)
  unfolding process_node_vm_state
  none_falls n known worker h =
      let (e, f1, f2, f3) = s.missing n.world h in
      let (b, d1, d2, d3) = s.makes n.world h in ground arith

  up_falls :
      (n : Node W)
      → is_known n.node_status.vm_status ≡ true
      → req.head_node_status ≢ none
      → s.boot n.world ≡ some 0
      → Nearer n (process_node_vm_state pvdr req n).1
        × (is_known (process_node_vm_state pvdr req n).1.node_status.vm_status ≡ true)
  unfolding process_node_vm_state
  up_falls n known worker h =
      let (found, f1, f2, f3) = s.up n.world h in
      let (e, d1, d2, d3) = s.reports n.world 0 h in ground arith

  booting_falls :
      (n : Node W) (b : ℕ)
      → is_known n.node_status.vm_status ≡ true
      → req.head_node_status ≢ none
      → s.boot n.world ≡ some (suc b)
      → Nearer n (process_node_vm_state pvdr req n).1
        × (is_known (process_node_vm_state pvdr req n).1.node_status.vm_status ≡ true)
  unfolding process_node_vm_state
  booting_falls n b known worker h =
      let (found, f1, f2, f3) = s.booting n.world b h in
      let (e, d1, d2, d3) = s.reports n.world (suc b) h in ground arith

  falls :
      (n : Node W)
      → is_known n.node_status.vm_status ≡ true
      → req.head_node_status ≢ none
      → Nearer n (process_node_vm_state pvdr req n).1
        × (is_known (process_node_vm_state pvdr req n).1.node_status.vm_status ≡ true)
  falls n known worker = elim (Option-cases (s.boot n.world)) [
    | inl h ↦ none_falls n known worker h
    | inr (zero, h) ↦ up_falls n known worker h
    | inr (suc b, h) ↦ booting_falls n b known worker h
  ]

  -- A node with nothing to go runs.
  runs :
      (n : Node W)
      → to_go n ≤ 0
      → (n.node_status.vm_status ≡ VmNodeStatus.running)
        × (n.node_status.ray_status ≡ RayProcessStatus.ray_running)
  runs n h = ground arith

  rounds_run :
      (k : ℕ) (n : Node W)
      → is_known n.node_status.vm_status ≡ true
      → req.head_node_status ≢ none
      → to_go n ≤ k
      → let m = rounds k pvdr req n in
        (m.node_status.vm_status ≡ VmNodeStatus.running)
        × (m.node_status.ray_status ≡ RayProcessStatus.ray_running)
  unfolding rounds
  rounds_run zero n known worker near = runs n near
  rounds_run (suc k) n known worker near =
      let (nearer, known') = falls n known worker in
      rounds_run k (process_node_vm_state pvdr req n).1 known' worker
        (elim nearer [ inl a ↦ omega arith | inr a ↦ omega arith ])

  within_bound :
      (n : Node W) → ((b : ℕ) → s.boot n.world ≡ some b → b ≤ bound) → to_go n ≤ bound + 5
  within_bound n up_soon = elim (Option-cases (s.boot n.world)) [
    | inl h ↦ ground arith
    | inr (b, h) ↦ let le = up_soon b h in ground arith
  ]

  -- On a provider that serves the requests for a worker, whose machine, if it is there, has an
  -- address after at most `bound` fetches, and so has a new one: whatever known status the worker
  -- has, and whether its machine is there or not, after `bound + 5` calls or more its machine is
  -- running and Ray runs on it.
  pub worker_runs :
      (k : ℕ) (n : Node W)
      → is_known n.node_status.vm_status ≡ true
      → req.head_node_status ≢ none
      → ((b : ℕ) → s.boot n.world ≡ some b → b ≤ bound)
      → bound + 5 ≤ k
      → let m = rounds k pvdr req n in
        (m.node_status.vm_status ≡ VmNodeStatus.running)
        × (m.node_status.ray_status ≡ RayProcessStatus.ray_running)
  worker_runs k n known worker up_soon enough =
      rounds_run k n known worker (omega (arith, within_bound n up_soon))
