-- ===== src/Tests/Phases/Deletions.antt =====
-- The two-phase server has the laws of its deletions.
use ray_on_vcf.Prelude.{◌≡◌, refl, ◌∙◌, ap, String, Bool, true, false, if◌then◌else◌, eq_refl}
use ray_on_vcf.Go.{Error, ok, err}
use ray_on_vcf.Kube.{ObjectKey}
use ray_on_vcf.Kube.Frame.{LeavesAll, LeavesOthers}
use ray_on_vcf.Vmop.Server.{Thing, Missing, IsMissing, Deletes}
use ray_on_vcf.Vmop.Teardown.{Server}
use ray_on_vcf.Tests.Sample.{absent, toy_host}
use ray_on_vcf.Tests.Phases.{
  Phase, World, marked, completed, complete, is_at, change, seen, objects, secret_at, account_at,
  role_at, binding_at, machine_at, service_at, two_phase_client, cluster_of,
}

module _ {O : Type 0} (o : O) where
  seen_same : (p : Phase) (w : World) → (seen o p w).1 ≡ w
  seen_same Phase.gone w = refl
  seen_same Phase.live w = refl
  seen_same Phase.deleting w = refl

  seen_is : (p : Phase) (w : World) (a : O) → (seen o p w).0 ≡ ok a → a ≡ o
  seen_is Phase.gone w a h = cc
  seen_is Phase.live w a h = cc h
  seen_is Phase.deleting w a h = cc h

  not_seen : (p : Phase) (w : World) (e : Error) → (seen o p w).0 ≡ err e → p ≡ Phase.gone
  not_seen Phase.gone w e h = refl
  not_seen Phase.live w e h = cc h
  not_seen Phase.deleting w e h = cc h

module _ {O : Type 0} (n : String) (make : ObjectKey → O) (key_in : O → ObjectKey) where
  gone-Missing :
      (k : ObjectKey) (w : World) → w.phase n k ≡ Phase.gone → Missing (objects n make key_in) k w
  gone-Missing k w h = (absent, ap (λ p. seen (make k) p w) h, refl)

  Missing-gone :
      (k : ObjectKey) (w : World) → Missing (objects n make key_in) k w → w.phase n k ≡ Phase.gone
  Missing-gone k w (e, g, p) = not_seen (make k) (w.phase n k) w e (ap (λ o. o.0) g)

-- The kind and the key of a thing.
pub kind_of : Thing → String
kind_of (Thing.secret k) = "secret"
kind_of (Thing.service_account k) = "account"
kind_of (Thing.role k) = "role"
kind_of (Thing.role_binding k) = "binding"
kind_of (Thing.virtual_machine k) = "machine"
kind_of (Thing.vm_service k) = "service"

pub key_of : Thing → ObjectKey
key_of (Thing.secret k) = k
key_of (Thing.service_account k) = k
key_of (Thing.role k) = k
key_of (Thing.role_binding k) = k
key_of (Thing.virtual_machine k) = k
key_of (Thing.vm_service k) = k

abbrev phase_of : Thing → World → Phase
phase_of t w = w.phase (kind_of t) (key_of t)

pub gone-IsMissing :
    (t : Thing) (w : World) → phase_of t w ≡ Phase.gone → IsMissing two_phase_client t w
unfolding IsMissing kind_of key_of
gone-IsMissing (Thing.secret k) w h = gone-Missing "secret" secret_at (λ o. o.key) k w h
gone-IsMissing (Thing.service_account k) w h = gone-Missing "account" account_at (λ o. o.key) k w h
gone-IsMissing (Thing.role k) w h = gone-Missing "role" role_at (λ o. o.key) k w h
gone-IsMissing (Thing.role_binding k) w h = gone-Missing "binding" binding_at (λ o. o.key) k w h
gone-IsMissing (Thing.virtual_machine k) w h = gone-Missing "machine" machine_at (λ o. o.key) k w h
gone-IsMissing (Thing.vm_service k) w h = gone-Missing "service" service_at (λ o. o.key) k w h

pub IsMissing-gone :
    (t : Thing) (w : World) → IsMissing two_phase_client t w → phase_of t w ≡ Phase.gone
unfolding IsMissing kind_of key_of
IsMissing-gone (Thing.secret k) w h = Missing-gone "secret" secret_at (λ o. o.key) k w h
IsMissing-gone (Thing.service_account k) w h = Missing-gone "account" account_at (λ o. o.key) k w h
IsMissing-gone (Thing.role k) w h = Missing-gone "role" role_at (λ o. o.key) k w h
IsMissing-gone (Thing.role_binding k) w h = Missing-gone "binding" binding_at (λ o. o.key) k w h
IsMissing-gone (Thing.virtual_machine k) w h = Missing-gone "machine" machine_at (λ o. o.key) k w h
IsMissing-gone (Thing.vm_service k) w h = Missing-gone "service" service_at (λ o. o.key) k w h

completed_gone : (p : Phase) → p ≡ Phase.gone → completed p ≡ Phase.gone
completed_gone p h = ap completed h

marked_gone : (p : Phase) → completed (marked p) ≡ Phase.gone
marked_gone Phase.gone = refl
marked_gone Phase.live = refl
marked_gone Phase.deleting = refl

still_gone :
    (b : Bool) (p : Phase)
    → completed p ≡ Phase.gone
    → completed (if b then marked p else p) ≡ Phase.gone
still_gone true p h = marked_gone p
still_gone false p h = h

is_at_itself : (n : String) (k : ObjectKey) → is_at n k n k ≡ true
is_at_itself n k = rw (eq_refl k.namespace, eq_refl k.name, eq_refl n) refl

-- No call for these objects touches the cluster.
objects-LeavesAll :
    {O : Type 0} (n : String) (make : ObjectKey → O) (key_in : O → ObjectKey)
    → LeavesAll cluster_of (objects n make key_in)
objects-LeavesAll n make key_in = record {
  get = λ k. record { same = λ w. ap cluster_of (seen_same (make k) (w.phase n k) w) };
  create = λ o. record { same = λ w. refl };
  delete = λ o. record { same = λ w. refl };
}

pub two_phase_client-LeavesOthers : LeavesOthers cluster_of two_phase_client toy_host
two_phase_client-LeavesOthers = record {
  secrets = objects-LeavesAll "secret" secret_at (λ o. o.key);
  accounts = objects-LeavesAll "account" account_at (λ o. o.key);
  roles = objects-LeavesAll "role" role_at (λ o. o.key);
  bindings = objects-LeavesAll "binding" binding_at (λ o. o.key);
  machines = objects-LeavesAll "machine" machine_at (λ o. o.key);
  services = objects-LeavesAll "service" service_at (λ o. o.key);
  image = λ k. record { same = λ w. refl };
  storage = λ k. record { same = λ w. refl };
  class = λ k. record { same = λ w. refl };
  token = λ a n. record { same = λ w. refl };
  random = λ n w. refl;
  generated = λ n. record { same = λ w. refl };
  certified = λ c k. record { same = λ w. refl };
}

module _ {O : Type 0} (n : String) (make : ObjectKey → O) (key_in : O → ObjectKey)
    (same : (k : ObjectKey) → key_in (make k) ≡ k) where
  deleted_gone :
      (k : ObjectKey) (o : O) (w : World)
      → ((objects n make key_in).get k w).0 ≡ ok o
      → completed ((change marked n (key_in o) w).phase n k) ≡ Phase.gone
  deleted_gone k o w h =
      let is : key_in o ≡ k = ap key_in (seen_is (make k) (w.phase n k) w o h) ∙ same k in
      ap (λ l. completed (if is_at n l n k then marked (w.phase n k) else w.phase n k)) is
      ∙ ap (λ b. completed (if b then marked (w.phase n k) else w.phase n k)) (is_at_itself n k)
      ∙ marked_gone (w.phase n k)

  objects-Deletes : Deletes two_phase_client complete (objects n make key_in)
  objects-Deletes = record {
    reads = λ k w. seen_same (make k) (w.phase n k) w;
    missing = λ k w m.
        gone-Missing n make key_in k (complete w)
          (completed_gone (w.phase n k) (Missing-gone n make key_in k w m));
    deleted = λ k o w g d.
        gone-Missing n make key_in k (complete (change marked n (key_in o) w))
          (deleted_gone k o w g);
    not_found = λ k o w e g d p. cc d;
    keeps = λ t o. record {
      kept = λ w h. gone-IsMissing t (complete (change marked n (key_in o) w)) (
          still_gone (is_at n (key_in o) (kind_of t) (key_of t)) (phase_of t w)
            (IsMissing-gone t (complete w) h));
    };
  }

pub two_phase_client-Server : Server two_phase_client complete
two_phase_client-Server = record {
  secrets = objects-Deletes "secret" secret_at (λ o. o.key) (λ k. refl);
  accounts = objects-Deletes "account" account_at (λ o. o.key) (λ k. refl);
  roles = objects-Deletes "role" role_at (λ o. o.key) (λ k. refl);
  bindings = objects-Deletes "binding" binding_at (λ o. o.key) (λ k. refl);
  machines = objects-Deletes "machine" machine_at (λ o. o.key) (λ k. refl);
  services = objects-Deletes "service" service_at (λ o. o.key) (λ k. refl);
}
