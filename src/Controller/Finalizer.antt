-- ===== src/Controller/Finalizer.antt =====
-- `addFinalizerAndNounce`, `removeFinalizer`, `createRandomNounce` and `fetchRayClusterRequestor`
-- of vmray-cluster-operator/internal/controller.
pub mod Nonce
pub mod Guard
pub mod Answer
use Prim.Native.String.{◌++◌}
use ray_on_vcf.Prelude.{
  ℕ, zero, suc, String, not, ◌&&◌, Option, none, some, ◌==◌, if◌then◌else◌, is_some,
}
use ray_on_vcf.Prelude.Dict.{lookup, insert}
use ray_on_vcf.Go.{Exec, pure, ◌>>=◌, ◌>>◌, when◌then◌else◌}
use ray_on_vcf.Go.Format.{letter_at}
use ray_on_vcf.Api.{VmRayCluster}
use ray_on_vcf.Provider.{
  RayClusterRequestor, ray_cluster_requestor_label, ray_cluster_requestor_ray_cli,
}
use ray_on_vcf.Kube.{Host}
use ray_on_vcf.Controller.State.{Reconciler, Ctl, in_world, the_cluster, set_cluster}

abbrev pub finalizer_name : String
finalizer_name = "vmraycluster.vmray.broadcom.com"

abbrev pub head_node_nounce_label : String
head_node_nounce_label = "vmray.kubernetes.io/head-nounce"

abbrev pub nouce_length : ℕ
nouce_length = 5

abbrev pub alphanumeric : String
alphanumeric = "abcdefghijlkmnopqrstuvwxyz0123456789"

-- `createRandomNounce`: `len(alphanumeric)` is 36.
pub create_random_nounce : {W : Type 0} → Host W → ℕ → W → String × W
create_random_nounce host zero w = ("", w)
create_random_nounce host (suc n) w =
    let (i, w') = host.intn 36 w in
    let (rest, w'') = create_random_nounce host n w' in (letter_at alphanumeric i ++ rest, w'')

-- `instance.ObjectMeta.Labels[HeadNodeNounceLabel]`, which is "" if there is none.
unfoldable pub nounce_of : VmRayCluster → String
nounce_of i = elim (lookup head_node_nounce_label i.object_meta.labels) [ none ↦ "" | some v ↦ v ]

set_nounce : VmRayCluster → String → VmRayCluster
set_nounce i nounce = record i {
  object_meta = record i.object_meta {
    labels = insert head_node_nounce_label nounce i.object_meta.labels;
  };
}

-- `fetchRayClusterRequestor`
unfoldable pub fetch_ray_cluster_requestor : VmRayCluster → RayClusterRequestor
fetch_ray_cluster_requestor i = elim (lookup ray_cluster_requestor_label i.object_meta.labels) [
  | none ↦ RayClusterRequestor.k8s
  | some v ↦
      if v == ray_cluster_requestor_ray_cli
      then RayClusterRequestor.ray_cli
      else RayClusterRequestor.k8s
]

module _ {W : Type 0} (r : Reconciler W) where
  -- A nonce is made if the cluster has none.
  ensure_nounce : VmRayCluster → Exec W VmRayCluster
  unfolding set_nounce
  ensure_nounce i w = elim (lookup head_node_nounce_label i.object_meta.labels) [
    | some _ ↦ pure i w
    | none ↦
        let (nounce, w') = create_random_nounce r.host nouce_length w in
        pure (set_nounce i nounce) w'
  ]

  -- `r.Update(ctx, instance)`, which writes the server's answer to the instance.
  abbrev update : VmRayCluster → Exec (Ctl W) Unit
  update i = do set_cluster i; answer ← in_world (r.client.update_cluster i); set_cluster answer

  -- The branch that changes the cluster.
  add_both : VmRayCluster → Exec (Ctl W) Unit
  unfolding ensure_nounce
  add_both i = do
    named ← in_world (ensure_nounce (r.util.add_finalizer i finalizer_name))
    update named

  -- `addFinalizerAndNounce`
  unfoldable pub add_finalizer_and_nounce : Exec (Ctl W) Unit
  unfolding add_both
  add_finalizer_and_nounce = do
    i ← the_cluster
    let alive = not (is_some i.object_meta.deletion_timestamp)
    when alive && not (r.util.contains_finalizer i finalizer_name) then add_both i else pure tt

  -- `removeFinalizer`
  unfoldable pub remove_finalizer : Exec (Ctl W) Unit
  remove_finalizer = do
    i ← the_cluster
    let deleting = is_some i.object_meta.deletion_timestamp
    when deleting && r.util.contains_finalizer i finalizer_name
        then update (r.util.remove_finalizer i finalizer_name)
        else pure tt
