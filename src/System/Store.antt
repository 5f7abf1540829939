-- ===== src/System/Store.antt =====
-- The cluster that the API server stores under a key, and what a reconcile does to it.
use ray_on_vcf.Prelude.{◌≡◌, ◌⊎◌, false, Option, none, some}
use ray_on_vcf.Go.{ok}
use ray_on_vcf.Api.{ObjectMeta, VmRayClusterSpec, VmRayCluster}
use ray_on_vcf.Kube.{ObjectKey, Client, Host, ControllerUtil}
use ray_on_vcf.Kube.Frame.{Leaves, LeavesOthers}
use ray_on_vcf.Controller.Finalizer.{finalizer_name}

-- All of a cluster but its status.
abbrev pub Identity : Type 0
Identity = ObjectMeta × VmRayClusterSpec

abbrev pub identity : VmRayCluster → Identity
identity i = (i.object_meta, i.spec)

abbrev pub identity_of : Option VmRayCluster → Option Identity
identity_of none = none
identity_of (some i) = some (identity i)

-- The API server's storage of one cluster. A `Get` answers what is stored. A patch of the status
-- leaves the rest. After an update, whether its answer arrives or not, either the server has what
-- it had, or it has the cluster that was sent, or it has removed the cluster, which it does only
-- when what was sent lacks the operator's finalizer. No other call touches the cluster.
pub record Storage {W : Type 0} (client : Client W) (host : Host W) (util : ControllerUtil)
    (key : ObjectKey) : Type 0 where
  pub stored : W → Option VmRayCluster
  pub others : LeavesOthers stored client host
  pub read : Leaves stored (client.get_cluster key)
  pub found : (i : VmRayCluster) (w : W) → (client.get_cluster key w).0 ≡ ok i → stored w ≡ some i
  pub patched :
      (i j : VmRayCluster) (w : W)
      → identity_of (stored (client.patch_status i j w).1) ≡ identity_of (stored w)
  pub updated :
      (i : VmRayCluster) (w : W)
      → (stored (client.update_cluster i w).1 ≡ stored w)
        ⊎ (identity_of (stored (client.update_cluster i w).1) ≡ some (identity i))
        ⊎ ((stored (client.update_cluster i w).1 ≡ none)
            × (util.contains_finalizer i finalizer_name ≡ false))
