-- ===== src/System/Run.antt =====
-- Runs of the operator, with vm-operator's provider, beside everybody else who writes to the server.
use mathlib.Core.Option.{some-injective}
use ray_on_vcf.Prelude.{
  Option-cases, ◌≡◌, sym, ◌∙◌, ap, subst, ◌⊎◌, inl, inr, arith, String, true, false, none, some,
  is_some, List, [], ◌∷◌, All, Bool-cases, ◌&&◌,
}
use ray_on_vcf.Prelude.Dict.{keys}
use ray_on_vcf.Go.{is_err}
use ray_on_vcf.Go.Keeps.{Keeps}
use ray_on_vcf.Api.{VmRayCluster}
use ray_on_vcf.Kube.{ObjectKey, Client, Host, ControllerUtil}
use ray_on_vcf.Provider.{get_head_node_name}
use ray_on_vcf.Controller.State.{Reconciler, Ctl}
use ray_on_vcf.Controller.Finalizer.{finalizer_name, nounce_of, remove_finalizer}
use ray_on_vcf.Controller.Finalizer.Guard.{IsFinalizers}
use ray_on_vcf.Controller.Reconcile.{reconcile, vm_ray_cluster_delete}
use ray_on_vcf.Controller.Reconcile.Cleanup.{reconciler, machines, no_resource_is_left}
use ray_on_vcf.Vmop.CloudInit.Files.{Encoders}
use ray_on_vcf.Vmop.Server.{Thing, IsGone}
use ray_on_vcf.Vmop.Teardown.{Server, key, auxiliary}
use ray_on_vcf.Vmop.Untouched.{vmop-Leaves}
use ray_on_vcf.System.Store.{identity, identity_of, Storage}
use ray_on_vcf.System.Round.{stays, goes, reconcile-Round}

-- Writing the cluster brings back no object of another kind.
pub record UpdatesClusters {W : Type 0} (client : Client W) (settle : W → W) : Type 0 where
  pub keeps :
      (t : Thing) (i : VmRayCluster) → Keeps (IsGone client settle t) (client.update_cluster i)

module _ {W : Type 0} (client : Client W) (host : Host W) (util : ControllerUtil)
    (encoders : Encoders) (settle : W → W) (server : Server client settle)
    (updates : UpdatesClusters client settle) (fin : IsFinalizers util) (at : ObjectKey)
    (store : Storage client host util at) where
  -- The operator.
  abbrev pub operator : Reconciler W
  operator = reconciler client host util encoders settle server

  -- Two versions of one cluster: its names and its nonce are the same.
  pub record Same (i j : VmRayCluster) : Type 0 where
    pub namespace : j.object_meta.namespace ≡ i.object_meta.namespace
    pub name : j.object_meta.name ≡ i.object_meta.name
    pub nounce : nounce_of j ≡ nounce_of i

  -- The server has a version of the cluster, with the operator's finalizer.
  abbrev pub Guarded : VmRayCluster → W → Type 0
  Guarded i w =
      (j : VmRayCluster) × (store.stored w ≡ some j)
      × Same i j
      × (util.contains_finalizer j finalizer_name ≡ true)

  -- A step of a run: the operator reconciles the cluster, or something else happens, such as a
  -- user's change or a machine's start, in which nobody takes the operator's finalizer off the
  -- cluster or changes its names or its nonce.
  pub data Step (w w' : W) : Type 0 where
    reconciles : w' ≡ (reconcile operator at w).1 → Step w w'
    elsewhere : ((i : VmRayCluster) → Guarded i w → Guarded i w') → Step w w'

  pub data Run (w : W) : W → Type 0 where
    here : Run w w
    step : {u v : W} → Run w u → Step u v → Run w v

  -- Nothing is left of a cluster, once the server has completed the deletions that it has accepted:
  -- its secrets, its account, its head node, and the workers of the version that was deleted.
  abbrev pub NothingLeft : String → String → String → VmRayCluster → W → Type 0
  NothingLeft n name nounce last w =
      let head = key n (get_head_node_name name nounce) in
      All (λ t. IsGone client settle t w) (auxiliary n name)
      × IsGone client settle (Thing.vm_service head) w
      × IsGone client settle (Thing.virtual_machine head) w
      × All (λ t. IsGone client settle t w) (machines n (keys last.status.current_workers))

  -- The reconcile after which the server is w' has cleaned up: it found a version of the cluster
  -- whose deletion a user had asked for, and left nothing of it.
  abbrev pub Cleans : VmRayCluster → W → W → Type 0
  Cleans i w w' =
      (last : VmRayCluster) × (store.stored w ≡ some last)
      × Same i last
      × (is_some last.object_meta.deletion_timestamp ≡ true)
      × NothingLeft i.object_meta.namespace i.object_meta.name (nounce_of i) last w'

  -- One of the operator's reconciles in the run has cleaned up.
  unfoldable pub CleanedIn : (i : VmRayCluster) {w w' : W} → Run w w' → Type 0
  CleanedIn i here = ⊥
  CleanedIn i (step {u} {v} run (reconciles e)) = CleanedIn i run ⊎ Cleans i u v
  CleanedIn i (step run (elsewhere keeps)) = CleanedIn i run

  remove_finalizer_world :
      (c : Ctl W)
      → ((remove_finalizer operator c).1.world ≡ c.world)
        ⊎ ((remove_finalizer operator c).1.world
            ≡ (client.update_cluster (util.remove_finalizer c.cluster finalizer_name) c.world).1)
  unfolding remove_finalizer
  remove_finalizer_world c =
      elim (Bool-cases (
        is_some c.cluster.object_meta.deletion_timestamp
        && util.contains_finalizer c.cluster finalizer_name)) [
          | inl h ↦ inr (ground arith)
          | inr h ↦ inl (ground arith)
        ]

  remove_finalizer_keeps :
      (t : Thing) (c : Ctl W)
      → IsGone client settle t c.world
      → IsGone client settle t (remove_finalizer operator c).1.world
  remove_finalizer_keeps t c m = elim (remove_finalizer_world c) [
    | inl e ↦ subst (IsGone client settle t) (sym e) m
    | inr e ↦
        subst (IsGone client settle t) (sym e)
          ((updates.keeps t (util.remove_finalizer c.cluster finalizer_name)).kept c.world m)
  ]

  remove_finalizer-All :
      (ts : List Thing) (c : Ctl W)
      → All (λ t. IsGone client settle t c.world) ts
      → All (λ t. IsGone client settle t (remove_finalizer operator c).1.world) ts
  remove_finalizer-All [] c h = tt
  remove_finalizer-All (t ∷ ts) c (m, h) =
      (remove_finalizer_keeps t c m, remove_finalizer-All ts c h)

  -- The operator's rounds.
  deleted_round :
      (i : VmRayCluster) (w1 : W)
      → is_err (vm_ray_cluster_delete operator (record { cluster = i; world = w1 })).0 ≡ false
      → NothingLeft i.object_meta.namespace i.object_meta.name
          (nounce_of i)
          i
          (remove_finalizer operator
            (vm_ray_cluster_delete operator (record { cluster = i; world = w1 })).1).1.world
  deleted_round i w1 h =
      let start : Ctl W = record { cluster = i; world = w1 } in
      let (a, s, m, ws) = no_resource_is_left client host util encoders settle server start h in
      let c = (vm_ray_cluster_delete operator start).1 in
      (
        remove_finalizer-All (auxiliary i.object_meta.namespace i.object_meta.name) c a,
        remove_finalizer_keeps _ c s,
        remove_finalizer_keeps _ c m,
        remove_finalizer-All (machines i.object_meta.namespace (keys i.status.current_workers)) c
            ws,
      )

  -- One version of the cluster is as good as another.
  of_version :
      (i j : VmRayCluster) (u : W)
      → Same i j
      → NothingLeft j.object_meta.namespace j.object_meta.name (nounce_of j) j u
      → NothingLeft i.object_meta.namespace i.object_meta.name (nounce_of i) j u
  of_version i j u s h =
      subst (λ n. NothingLeft n i.object_meta.name (nounce_of i) j u) s.namespace
        (subst (λ n. NothingLeft j.object_meta.namespace n (nounce_of i) j u) s.name
          (subst (λ n. NothingLeft j.object_meta.namespace j.object_meta.name n j u) s.nounce h))

  nounce_by_meta : (j k : VmRayCluster) → k.object_meta ≡ j.object_meta → nounce_of k ≡ nounce_of j
  unfolding nounce_of
  nounce_by_meta j k e = ap (λ m. nounce_of (record j { object_meta = m })) e

  -- What is stored with the identity of a version is a version.
  stays-Guarded :
      (i : VmRayCluster) (w w' : W)
      → identity_of (store.stored w') ≡ identity_of (store.stored w)
      → Guarded i w
      → Guarded i w'
  stays-Guarded i w w' e (j, there, same, g) =
      let e' = e ∙ ap identity_of there in
      elim (Option-cases (store.stored w')) [
        | inl f ↦ cc
        | inr (k, f) ↦
            let m : k.object_meta ≡ j.object_meta =
              ap (λ o. o.0)
                (some-injective (identity k) (identity j) (sym (ap identity_of f) ∙ e')) in
            (
              k,
              f,
              record {
                namespace = ap (λ o. o.namespace) m ∙ same.namespace;
                name = ap (λ o. o.name) m ∙ same.name;
                nounce = nounce_by_meta j k m ∙ same.nounce;
              },
              fin.by_meta k j finalizer_name m ∙ g,
            )
      ]

  round :
      (i : VmRayCluster) (w : W)
      → Guarded i w
      → let w' = (reconcile operator at w).1 in Guarded i w' ⊎ Cleans i w w'
  round i w (j, there, same, g) =
      elim (reconcile-Round operator at store
        (vmop-Leaves store.stored client host store.others encoders) fin j w there g) [
          | stays e ↦ inl (stays-Guarded i w _ e (j, there, same, g))
          | goes w1 dying done e ↦ inr (
            j,
            there,
            same,
            dying,
            subst (NothingLeft i.object_meta.namespace i.object_meta.name (nounce_of i) j) (sym e)
                (of_version i j _ same (deleted_round j w1 done)),
          )
        ]

  -- Along any run from a server that has the cluster with the operator's finalizer, the server has
  -- the cluster with the finalizer, or a reconcile of the run has cleaned up.
  run_outcome :
      (i : VmRayCluster) {w w' : W} (run : Run w w') → Guarded i w → Guarded i w' ⊎ CleanedIn i run
  unfolding CleanedIn
  run_outcome i here g = inl g
  run_outcome i (step run (elsewhere keeps)) g = elim (run_outcome i run g) [
    | inr clean ↦ inr clean
    | inl g' ↦ inl (keeps i g')
  ]
  run_outcome i (step {u} {v} run (reconciles e)) g = elim (run_outcome i run g) [
    | inr clean ↦ inr (inl clean)
    | inl g' ↦ elim (round i u g') [
      | inl g'' ↦ inl (subst (Guarded i) (sym e) g'')
      | inr clean ↦ inr (inr (subst (Cleans i u) (sym e) clean))
    ]
  ]

  -- With vm-operator's provider, along any run of reconciles between which others may do what they
  -- like, but for taking the operator's finalizer off or changing the cluster's names or nonce: if
  -- a cluster that had the finalizer is not on the server any more, then one of the reconciles of
  -- that run found it stored with a deletion timestamp and left nothing of it. That is, once the
  -- server has completed the deletions that it has accepted by the end of that reconcile, it has
  -- none of the cluster's five secrets, its role binding, role and service account, nor its head
  -- node's VM service and machine, nor the machine of any worker with a status.
  pub gone_is_clean :
      (i : VmRayCluster) (w w' : W) (run : Run w w')
      → Guarded i w
      → store.stored w' ≡ none
      → CleanedIn i run
  gone_is_clean i w w' run g gone = elim (run_outcome i run g) [
    | inr clean ↦ clean
    | inl (j, there, same, g') ↦ cc
  ]
