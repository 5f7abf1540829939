-- ===== src/Kube/Frame.antt =====
-- What the calls for other objects than clusters leave alone.
use ray_on_vcf.Prelude.{ℕ, String, ◌≡◌, refl, ap, ◌∙◌, inl, inr, Bool, true, false}
use ray_on_vcf.Go.{Exec, pure, attempt, when◌then◌else◌, ◌>>=◌, Result-cases, bind-ok, bind-err}
use ray_on_vcf.Kube.{ObjectKey, ServiceAccount, Resource, Client, Host, Certificate}

-- A call leaves what is seen of the state as it is.
pub record Leaves {ℓ} {S X A : Type ℓ} (see : S → X) (m : Exec S A) : Type ℓ where
  pub same : (s : S) → see (m s).1 ≡ see s

pub record LeavesAll {W O X : Type 0} (see : W → X) (resource : Resource W O) : Type 0 where
  pub get : (k : ObjectKey) → Leaves see (resource.get k)
  pub create : (o : O) → Leaves see (resource.create o)
  pub delete : (o : O) → Leaves see (resource.delete o)

-- Every call of the client and of the host but those for clusters.
pub record LeavesOthers {W X : Type 0} (see : W → X) (client : Client W) (host : Host W)
    : Type 0 where
  pub secrets : LeavesAll see client.secrets
  pub accounts : LeavesAll see client.service_accounts
  pub roles : LeavesAll see client.roles
  pub bindings : LeavesAll see client.role_bindings
  pub machines : LeavesAll see client.virtual_machines
  pub services : LeavesAll see client.vm_services
  pub image : (k : ObjectKey) → Leaves see (client.get_vm_image k)
  pub storage : (k : ObjectKey) → Leaves see (client.get_storage_class k)
  pub class : (k : ObjectKey) → Leaves see (client.get_vm_class k)
  pub token : (a : ServiceAccount) (seconds : ℕ) → Leaves see (client.create_token a seconds)
  pub random : (n : ℕ) (w : W) → see (host.intn n w).1 ≡ see w
  pub generated : (bits : ℕ) → Leaves see (host.generate_key bits)
  pub certified : (c : Certificate) (key : String) → Leaves see (host.create_certificate c key)

pub pure-Leaves {ℓ} : {S X A : Type ℓ} (see : S → X) (a : A) → Leaves see (pure a)
pure-Leaves see a = record { same = λ s. refl }

module _ {ℓ} {S X A B : Type ℓ} (see : S → X) where
  pub bind-Leaves :
      (m : Exec S A) (f : A → Exec S B)
      → Leaves see m
      → ((a : A) → Leaves see (f a))
      → Leaves see (m >>= f)
  bind-Leaves m f lm lf = record {
    same = λ s. elim (Result-cases (m s).0) [
      | inl (a, h) ↦ ap (λ out. see out.1) (bind-ok m f s a h) ∙ (lf a).same (m s).1 ∙ lm.same s
      | inr (e, h) ↦ ap (λ out. see out.1) (bind-err m f s e h) ∙ lm.same s
    ];
  }

module _ {ℓ} {S X A : Type ℓ} (see : S → X) where
  pub when-Leaves :
      (b : Bool) (m n : Exec S A) → Leaves see m → Leaves see n → Leaves see (when b then m else n)
  when-Leaves true m n lm ln = record { same = lm.same }
  when-Leaves false m n lm ln = record { same = ln.same }

  pub attempt-Leaves : (m : Exec S A) → Leaves see m → Leaves see (attempt m)
  attempt-Leaves m l = record { same = l.same }
