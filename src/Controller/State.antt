-- ===== src/Controller/State.antt =====
-- The state of one reconcile: the cluster in hand (`CurrentClusterState`) and the world.
use ray_on_vcf.Prelude.{String, [], ◌∷◌, ◌++◌}
use ray_on_vcf.Go.{Error, Exec, gets, modify, zoom, message}
use ray_on_vcf.Api.{Condition, ConditionStatus, VmRayCluster, VmRayClusterStatus}
use ray_on_vcf.Kube.{Client, Host, ControllerUtil}
use ray_on_vcf.Provider.{VmProvider}

-- `VMRayClusterReconciler`, with what it calls of other libraries.
pub record Reconciler (W : Type 0) : Type 0 where
  pub client : Client W
  pub host : Host W
  pub util : ControllerUtil
  pub provider : VmProvider W

-- `NewVMRayClusterReconciler`; the lifecycle manager is made of the provider alone.
abbrev pub new_vm_ray_cluster_reconciler :
    {W : Type 0} → Client W → Host W → ControllerUtil → VmProvider W → Reconciler W
new_vm_ray_cluster_reconciler client host util provider = record {
  client = client;
  host = host;
  util = util;
  provider = provider;
}

pub record Ctl (W : Type 0) : Type 0 where
  pub cluster : VmRayCluster
  pub world : W

module _ {W : Type 0} where
  abbrev pub in_world : {A : Type 0} → Exec W A → Exec (Ctl W) A
  in_world = zoom (λ c. c.world) (λ w c. record c { world = w })

  abbrev pub the_cluster : Exec (Ctl W) VmRayCluster
  the_cluster = gets (λ c. c.cluster)

  abbrev pub set_cluster : VmRayCluster → Exec (Ctl W) Unit
  set_cluster i = modify (λ c. record c { cluster = i })

  -- An assignment to a field of `instance.Status`.
  abbrev pub on_status : (VmRayClusterStatus → VmRayClusterStatus) → Exec (Ctl W) Unit
  on_status f =
      modify (λ c. record c { cluster = record c.cluster { status = f c.cluster.status } })

  -- `addErrorCondition`
  unfoldable pub add_error_condition : Host W → Error → String → String → Exec (Ctl W) Unit
  add_error_condition host e type reason = modify (λ c.
      let i = c.cluster in
      let condition : Condition = record {
        type = type;
        state = ConditionStatus.condition_false;
        last_transition_time = host.now c.world;
        reason = reason;
        message = message e;
      } in
      record c {
        cluster = record i {
          status = record i.status { conditions = i.status.conditions ++ condition ∷ [] };
        };
      })
