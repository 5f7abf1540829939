-- ===== src/Controller/Workers/Deletion.antt =====
-- What `deleteNodes` and `deleteWorkerNodes` leave of the workers' statuses.
use mathlib.Core.List.{append-nil}
use ray_on_vcf.Prelude.{
  ◌≡◌, refl, ap, ◌∙◌, inl, inr, String, Bool, false, ◌||◌, not, none, List, [], ◌∷◌, ◌++◌, arith,
  eq_iff, is_some, if◌then◌else◌, contains,
}
use ray_on_vcf.Prelude.Dict.{Dict, lookup, keys, erase, lookup-erase}
use ray_on_vcf.Go.{Error, Result, err, ok, is_err, Result-cases}
use ray_on_vcf.Api.{VmRayNodeStatus}
use ray_on_vcf.Controller.State.{Reconciler, Ctl}
use ray_on_vcf.Controller.Workers.{to_delete, delete_nodes, delete_worker_nodes}

-- A key is among the keys exactly if it is found.
pub contains-keys {ℓ} :
    {V : Type ℓ} (k : String) (d : Dict V) → contains k (keys d) ≡ is_some (lookup k d)
unfolding contains keys lookup
contains-keys k [] = refl
contains-keys k ((j, v) ∷ d) = ground (arith, contains-keys k d)

pub contains-to_delete :
    (all : Bool) (desired : Dict String) (k : String) (names : List String)
    → contains k (to_delete all desired names)
      ≡ (if all || not (is_some (lookup k desired)) then contains k names else false)
unfolding contains to_delete
contains-to_delete all desired k [] = ground arith
contains-to_delete all desired k (j ∷ names) =
    ground (arith, eq_iff j k, contains-to_delete all desired k names)

abbrev pub workers_of : {W : Type 0} → Ctl W → Dict VmRayNodeStatus
workers_of c = c.cluster.status.current_workers

abbrev pub desired_of : {W : Type 0} → Ctl W → Dict String
desired_of c = c.cluster.spec.autoscaler_desired_workers

-- How `deleteNodes` has ended: the machines of `gone`, the first of the names, were deleted and
-- have lost their statuses, those of `left` were not, and nothing else of the cluster changed.
pub record Deleted {W : Type 0} (names : List String) (c : Ctl W) (out : Result (Unit {0}) × Ctl W)
    : Type 0 where
  pub gone : List String
  pub left : List String
  pub split : names ≡ gone ++ left
  pub finished : is_err out.0 ≡ false → left ≡ []
  pub workers :
      (k : String)
      → lookup k (workers_of out.1) ≡ (if contains k gone then none else lookup k (workers_of c))
  pub meta : out.1.cluster.object_meta ≡ c.cluster.object_meta
  pub spec : out.1.cluster.spec ≡ c.cluster.spec
  pub head : out.1.cluster.status.head_node_status ≡ c.cluster.status.head_node_status
  pub conditions : out.1.cluster.status.conditions ≡ c.cluster.status.conditions
  pub state : out.1.cluster.status.cluster_state ≡ c.cluster.status.cluster_state

module _ {W : Type 0} (r : Reconciler W) where
  -- The state after one machine was deleted.
  abbrev pub without : String → Ctl W → Ctl W
  without name c =
      let i = c.cluster in
      record {
        cluster = record i {
          status = record i.status { current_workers = erase name i.status.current_workers };
        };
        world = (r.provider.delete i.object_meta.namespace name c.world).1;
      }

  abbrev pub answer_of : String → Ctl W → Result (Unit {0})
  answer_of name c = (r.provider.delete c.cluster.object_meta.namespace name c.world).0

  pub delete_nodes-cons_ok :
      (name : String) (names : List String) (c : Ctl W) (a : Unit {0})
      → answer_of name c ≡ ok a
      → delete_nodes r (name ∷ names) c ≡ delete_nodes r names (without name c)
  unfolding delete_nodes
  delete_nodes-cons_ok name names c a h = rw (h, delete_nodes)

  pub delete_nodes-cons_err :
      (name : String) (names : List String) (c : Ctl W) (e : Error)
      → answer_of name c ≡ err e
      → delete_nodes r (name ∷ names) c ≡ (
        err e,
        record c { world = (r.provider.delete c.cluster.object_meta.namespace name c.world).1 },
      )
  unfolding delete_nodes
  delete_nodes-cons_err name names c e h = rw (h, delete_nodes)

  Deleted-cons :
      (name : String) (names : List String) (c : Ctl W) {out : Result (Unit {0}) × Ctl W}
      → Deleted names (without name c) out
      → Deleted (name ∷ names) c out
  unfolding contains
  Deleted-cons name names c d = record {
    gone = name ∷ d.gone;
    left = d.left;
    split = ap (λ t. name ∷ t) d.split;
    finished = d.finished;
    workers = λ k. ground (arith, d.workers k, lookup-erase name k (workers_of c), eq_iff name k);
    meta = d.meta;
    spec = d.spec;
    head = d.head;
    conditions = d.conditions;
    state = d.state;
  }

  -- With an error or without, what was deleted is a first part of the names, each of which has
  -- lost its status; without an error it is all of them; and all else is as it was.
  pub delete_nodes-Deleted :
      (names : List String) (c : Ctl W) → Deleted names c (delete_nodes r names c)
  unfolding delete_nodes contains
  delete_nodes-Deleted [] c = record {
    gone = [];
    left = [];
    split = refl;
    finished = λ h. refl;
    workers = λ k. refl;
    meta = refl;
    spec = refl;
    head = refl;
    conditions = refl;
    state = refl;
  }
  delete_nodes-Deleted (name ∷ names) c = elim (Result-cases (answer_of name c)) [
    | inl (a, h) ↦
        rw (delete_nodes-cons_ok name names c a h)
          (Deleted-cons name names c (delete_nodes-Deleted names (without name c)))
    | inr (e, h) ↦ rw (delete_nodes-cons_err name names c e h) (record {
      gone = [];
      left = name ∷ names;
      split = refl;
      finished = λ f. cc;
      workers = λ k. refl;
      meta = refl;
      spec = refl;
      head = refl;
      conditions = refl;
      state = refl;
    })
  ]

  -- Is the worker one that `deleteWorkerNodes` is to delete?
  abbrev pub superfluous : Bool → String → Ctl W → Bool
  superfluous all k c = all || not (is_some (lookup k (desired_of c)))

  -- When `deleteWorkerNodes` succeeds, the workers that are not desired (all workers, at a deletion
  -- of the cluster) have no status any more, and the others have the status that they had.
  pub delete_worker_nodes_lem :
      (all : Bool) (c : Ctl W) (k : String)
      → is_err (delete_worker_nodes r all c).0 ≡ false
      → lookup k (workers_of (delete_worker_nodes r all c).1)
        ≡ (if superfluous all k c then none else lookup k (workers_of c))
  unfolding delete_worker_nodes
  delete_worker_nodes_lem all c k h =
      let names = to_delete all (desired_of c) (keys (workers_of c)) in
      let d = delete_nodes-Deleted names c in
      let whole : names ≡ d.gone =
        d.split ∙ ap (λ t. d.gone ++ t) (d.finished h) ∙ append-nil d.gone in
      rw
        (
          d.workers k,
          ← whole,
          contains-to_delete all (desired_of c) k (keys (workers_of c)),
          contains-keys k (workers_of c),
        )
        (ground arith)

  pub delete_worker_nodes_keeps :
      (all : Bool) (c : Ctl W)
      → let i = (delete_worker_nodes r all c).1.cluster in
        (i.spec ≡ c.cluster.spec)
        × (i.object_meta ≡ c.cluster.object_meta)
        × (i.status.head_node_status ≡ c.cluster.status.head_node_status)
  unfolding delete_worker_nodes
  delete_worker_nodes_keeps all c =
      let d = delete_nodes-Deleted (to_delete all (desired_of c) (keys (workers_of c))) c in
      (d.spec, d.meta, d.head)
