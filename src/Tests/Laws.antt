-- ===== src/Tests/Laws.antt =====
-- The sample server and the other samples satisfy what the theorems rely on.
use ray_on_vcf.Prelude.{
  ◌≡◌, refl, String, false, none, some, List, [], ◌∷◌, contains, eq_refl, arith, subst, ap,
}
use ray_on_vcf.Prelude.Dict.{lookup}
use ray_on_vcf.Api.{VmRayCluster}
use ray_on_vcf.Kube.{Secret}
use ray_on_vcf.Controller.Dependencies.Missing.{ReadsOnly}
use ray_on_vcf.Controller.Finalizer.Guard.{IsFinalizers, Stores}
use ray_on_vcf.Controller.Finalizer.Nonce.{IsRandom}
use ray_on_vcf.Controller.Reconcile.Statuses.{AnswersWellFormed}
use ray_on_vcf.Controller.Workers.Statuses.{HasWellFormed, new_node_status-IsWellFormed}
use ray_on_vcf.Tls.RootSecret.{StoresSecrets}
use ray_on_vcf.Vmop.Server.{Thing, IsMissing, IsPresent, Deletes}
use ray_on_vcf.Vmop.Teardown.{Server}
use ray_on_vcf.Vmop.Setup.{Accounts}
use ray_on_vcf.Tests.Sample.{
  Toy, absent, toy_client, toy_host, toy_util, toy_objects, toy_secrets, remove_name, fresh_status,
  some_secret,
}

nothing_there : (t : Thing) → IsMissing toy_client t none
unfolding IsMissing
nothing_there (Thing.secret k) = (absent, refl, refl)
nothing_there (Thing.service_account k) = (absent, refl, refl)
nothing_there (Thing.role k) = (absent, refl, refl)
nothing_there (Thing.role_binding k) = (absent, refl, refl)
nothing_there (Thing.virtual_machine k) = (absent, refl, refl)
nothing_there (Thing.vm_service k) = (absent, refl, refl)

pub all_there : (t : Thing) (s : Secret) → IsPresent toy_client t (some s)
unfolding IsPresent
all_there (Thing.secret k) s = (s, refl)
all_there (Thing.service_account k) s = (_, refl)
all_there (Thing.role k) s = (_, refl)
all_there (Thing.role_binding k) s = (_, refl)
all_there (Thing.virtual_machine k) s = (_, refl)
all_there (Thing.vm_service k) s = (_, refl)

objects-Deletes : {O : Type 0} (o : O) → Deletes toy_client (λ w. w) (toy_objects o)
objects-Deletes o = record {
  reads = λ k w. refl;
  missing = λ k w h. h;
  deleted = λ k a w g d. (absent, refl, refl);
  not_found = λ k a w e g d p. (absent, refl, refl);
  keeps = λ t a. record { kept = λ w h. nothing_there t };
}

secrets-Deletes : Deletes toy_client (λ w. w) toy_secrets
secrets-Deletes = record {
  reads = λ k w. refl;
  missing = λ k w h. h;
  deleted = λ k a w g d. (absent, refl, refl);
  not_found = λ k a w e g d p. (absent, refl, refl);
  keeps = λ t a. record { kept = λ w h. nothing_there t };
}

pub toy_client-Server : Server toy_client (λ w. w)
toy_client-Server = record {
  secrets = secrets-Deletes;
  accounts = objects-Deletes _;
  roles = objects-Deletes _;
  bindings = objects-Deletes _;
  machines = objects-Deletes _;
  services = objects-Deletes _;
}

pub toy_client-Accounts : Accounts toy_client
toy_client-Accounts = record {
  accounts = record {
    reads = λ k w. refl;
    created = λ o a w h. (_, refl);
    keeps = λ t o. record { kept = λ w h. all_there t some_secret };
  };
  roles = record {
    reads = λ k w. refl;
    created = λ o a w h. (_, refl);
    keeps = λ t o. record { kept = λ w h. all_there t some_secret };
  };
  bindings = record {
    reads = λ k w. refl;
    created = λ o a w h. (_, refl);
    keeps = λ t o. record { kept = λ w h. all_there t some_secret };
  };
}

pub toy_client-ReadsOnly : ReadsOnly toy_client
toy_client-ReadsOnly = record { image = λ k w. refl; storage = λ k w. refl; class = λ k w. refl }

pub toy_client-Stores : Stores toy_client
toy_client-Stores = record { meta = λ i j w h. ground arith }

pub toy_client-StoresSecrets : StoresSecrets toy_client
toy_client-StoresSecrets = record { read = λ s t w h. (s, refl, refl) }

pub with_fresh_status-HasWellFormed :
    (i : VmRayCluster) → HasWellFormed (record i { status = fresh_status })
unfolding lookup
with_fresh_status-HasWellFormed i = record {
  head = new_node_status-IsWellFormed;
  workers = λ k s h. cc;
}

pub toy_client-AnswersWellFormed : AnswersWellFormed toy_client
toy_client-AnswersWellFormed = record {
  answer = λ i j w h. subst HasWellFormed (cc h) (with_fresh_status-HasWellFormed i);
}

pub toy_host-IsRandom : IsRandom (toy_host {W = Toy})
toy_host-IsRandom = record { below = λ n w h. h }

contains-remove_name : (f : String) (gs : List String) → contains f (remove_name f gs) ≡ false
unfolding contains
contains-remove_name f [] = refl
contains-remove_name f (g ∷ gs) = ground (arith, contains-remove_name f gs)

pub toy_util-IsFinalizers : IsFinalizers toy_util
unfolding contains
toy_util-IsFinalizers = record {
  added = λ i f. rw (eq_refl f) refl;
  removed = λ i f. contains-remove_name f i.object_meta.finalizers;
  labels = λ i f. refl;
  statuses = λ i f. refl;
  not_labels = λ i labels f. refl;
  by_meta = λ i j f h. ap (λ m. contains f m.finalizers) h;
}
