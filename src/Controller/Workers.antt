-- ===== src/Controller/Workers.antt =====
-- The head node and the workers: `reconcileHeadNode`, `reconcileWorkerNodes`, `deleteWorkerNodes`,
-- `deleteNodes`, `reconcileDesiredWorkers` and `getMinWorkerNodes` of
-- vmray-cluster-operator/internal/controller.
pub mod Deletion
pub mod Desired
pub mod Statuses
pub mod Frame
use ray_on_vcf.Prelude.{
  ℕ, zero, ◌+◌, ◌%◌, String, Bool, true, false, ◌||◌, not, Option, none, some, List, [], ◌∷◌,
  is_some, if◌then◌else◌, uint_mod,
}
use ray_on_vcf.Prelude.Dict.{Dict, lookup, insert, erase, keys}
use ray_on_vcf.Go.{Result, ok, err, Exec, pure, ◌>>=◌, ◌>>◌}
use ray_on_vcf.Api.{NodeType, VmNodeStatus, RayProcessStatus, VmRayNodeStatus, VmRayCluster}
use ray_on_vcf.Provider.{get_head_node_name}
use ray_on_vcf.Lcm.{NodeLcmRequest, Node, process_node_vm_state}
use ray_on_vcf.Controller.State.{Reconciler, Ctl, in_world, the_cluster, on_status}
use ray_on_vcf.Controller.Finalizer.{nounce_of, fetch_ray_cluster_requestor}

-- `vmrayv1alpha1.VMRayNodeStatus{}`
abbrev pub new_node_status : VmRayNodeStatus
new_node_status = record {
  ip = "";
  conditions = [];
  vm_status = VmNodeStatus.empty;
  ray_status = RayProcessStatus.unset;
}

-- A request for a node of the cluster, as `reconcileHeadNode` and `reconcileDesiredWorkers` fill
-- it in: name, node type, and the head's status for a worker.
unfoldable pub node_request :
    VmRayCluster → String → String → Option VmRayNodeStatus → NodeLcmRequest
node_request i name node_type head = record {
  namespace = i.object_meta.namespace;
  cluster_name = i.object_meta.name;
  nounce = nounce_of i;
  name = name;
  node_type = node_type;
  docker_image = i.spec.image;
  api_server = i.spec.api_server;
  enable_tls = i.spec.enable_tls;
  head_node_config = i.spec.head_node;
  worker_node_config = i.spec.worker_node;
  node_config = i.spec.node_config;
  docker_config = i.spec.docker_config;
  head_node_status = head;
  ray_cluster_requestor = fetch_ray_cluster_requestor i;
}

-- The names of `Status.CurrentWorkers` that are to go: all, or those that are not desired.
unfoldable pub to_delete : Bool → Dict String → List String → List String
to_delete all desired [] = []
to_delete all desired (name ∷ names) =
    let rest = to_delete all desired names in
    if all || not (is_some (lookup name desired)) then name ∷ rest else rest

-- `getMinWorkerNodes`: a sum of `uint`s.
pub min_workers_from : ℕ → Dict NodeType → ℕ
min_workers_from count [] = count
min_workers_from count ((name, nt) ∷ types) =
    min_workers_from ((count + nt.min_workers) % uint_mod) types

unfoldable pub get_min_worker_nodes : VmRayCluster → ℕ
unfolding min_workers_from
get_min_worker_nodes i = min_workers_from 0 i.spec.node_config.node_types

-- The status that a worker's round starts from.
abbrev pub worker_status : String → Dict VmRayNodeStatus → VmRayNodeStatus
worker_status name current = elim (lookup name current) [ none ↦ new_node_status | some s ↦ s ]

module _ {W : Type 0} (r : Reconciler W) where
  -- `reconcileHeadNode`
  unfoldable pub reconcile_head_node : Exec (Ctl W) Unit
  reconcile_head_node c =
      let i = c.cluster in
      let name = get_head_node_name i.object_meta.name (nounce_of i) in
      let request = node_request i name i.spec.head_node.node_type none in
      let (answer, n) = process_node_vm_state r.provider request (record {
        node_status = i.status.head_node_status;
        vm_service_status = i.status.vm_service_status;
        world = c.world;
      }) in
      (
        answer,
        record {
          cluster = record i {
            status = record i.status {
              head_node_status = n.node_status;
              vm_service_status = n.vm_service_status;
            };
          };
          world = n.world;
        },
      )

  -- `deleteNodes`
  unfoldable pub delete_nodes : List String → Exec (Ctl W) Unit
  delete_nodes [] c = (ok tt, c)
  delete_nodes (name ∷ names) c =
      let (answer, w) = r.provider.delete c.cluster.object_meta.namespace name c.world in
      elim answer [
        | err e ↦ (err e, record c { world = w })
        | ok _ ↦
            let i = c.cluster in
            let status = record i.status {
              current_workers = erase name i.status.current_workers;
            } in
            delete_nodes names (record { cluster = record i { status = status }; world = w })
      ]

  -- `deleteWorkerNodes`
  unfoldable pub delete_worker_nodes : Bool → Exec (Ctl W) Unit
  delete_worker_nodes all c =
      let i = c.cluster in
      delete_nodes (to_delete all i.spec.autoscaler_desired_workers (keys i.status.current_workers))
        c

  -- One round of `reconcileDesiredWorkers`: the status is stored before the error is looked at.
  unfoldable pub reconcile_worker : String → String → Exec (Ctl W) Unit
  reconcile_worker name node_type c =
      let i = c.cluster in
      let (answer, n) =
        process_node_vm_state r.provider
          (node_request i name node_type (some i.status.head_node_status))
          (record {
            node_status = worker_status name i.status.current_workers;
            vm_service_status = i.status.vm_service_status;
            world = c.world;
          }) in
      (
        answer,
        record {
          cluster = record i {
            status = record i.status {
              current_workers = insert name n.node_status i.status.current_workers;
            };
          };
          world = n.world;
        },
      )

  -- `reconcileDesiredWorkers`
  unfoldable pub reconcile_desired_workers : Dict String → Exec (Ctl W) Unit
  reconcile_desired_workers [] c = (ok tt, c)
  reconcile_desired_workers ((name, node_type) ∷ desired) c =
      let (answer, c') = reconcile_worker name node_type c in
      elim answer [ err e ↦ (err e, c') | ok _ ↦ reconcile_desired_workers desired c' ]

  -- Step 2 of `reconcileWorkerNodes`.
  abbrev pub reconcile_desired : Exec (Ctl W) Unit
  reconcile_desired c = reconcile_desired_workers c.cluster.spec.autoscaler_desired_workers c

  -- `reconcileWorkerNodes`
  unfoldable pub reconcile_worker_nodes : Exec (Ctl W) Unit
  reconcile_worker_nodes = delete_worker_nodes false >> reconcile_desired
