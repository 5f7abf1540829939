-- ===== src/Vmop/Setup.antt =====
-- `CreateServiceAccountAndRole`: what is there afterwards, and what a second run does.
use ray_on_vcf.Prelude.{◌≡◌, inl, inr, true, false, String, List, [], ◌∷◌, arith, All, Bool-cases}
use ray_on_vcf.Go.{Error, ok, err, Result-cases, is_not_found}
use ray_on_vcf.Kube.{ObjectKey, Resource, Client, ServiceAccount, Role, RoleBinding}
use ray_on_vcf.Vmop.Rbac.{
  create_if_missing, create_service_account_and_role, get_vm_ray_cluster_mutation_role,
  get_vm_ray_cluster_mutation_role_binding,
}
use ray_on_vcf.Vmop.Server.{Thing, Present, IsPresent, Creates, Achieves, then-Achieves}

module _ {W O : Type 0} (client : Client W) (resource : Resource W O) (key_of : O → ObjectKey)
    (law : Creates client resource key_of) where
  -- The outcomes of a creation.
  creates_nothing :
      (k : ObjectKey) (w : W) (o a : O)
      → (resource.get k w).0 ≡ ok a
      → create_if_missing resource k o w ≡ (ok tt, w)
  unfolding create_if_missing
  creates_nothing k w o a e = ground (arith, law.reads k w)

  creates_fails :
      (k : ObjectKey) (w : W) (o : O) (x : Error)
      → (resource.get k w).0 ≡ err x
      → is_not_found x ≡ false
      → create_if_missing resource k o w ≡ (err x, w)
  unfolding create_if_missing
  creates_fails k w o x e p = ground (arith, law.reads k w)

  creates_ok :
      (k : ObjectKey) (w : W) (o a : O) (x : Error)
      → (resource.get k w).0 ≡ err x
      → is_not_found x ≡ true
      → (resource.create o w).0 ≡ ok a
      → create_if_missing resource k o w ≡ (ok tt, (resource.create o w).1)
  unfolding create_if_missing
  creates_ok k w o a x e p q = ground (arith, law.reads k w)

  creates_err :
      (k : ObjectKey) (w : W) (o : O) (x y : Error)
      → (resource.get k w).0 ≡ err x
      → is_not_found x ≡ true
      → (resource.create o w).0 ≡ err y
      → create_if_missing resource k o w ≡ (err y, (resource.create o w).1)
  unfolding create_if_missing
  creates_err k w o x y e p q = ground (arith, law.reads k w)

  create_if_missing-Present :
      (w : W) (o : O)
      → (create_if_missing resource (key_of o) o w).0 ≡ ok tt
      → Present resource (key_of o) (create_if_missing resource (key_of o) o w).1
  create_if_missing-Present w o h = elim (Result-cases (resource.get (key_of o) w).0) [
    | inl (a, e) ↦ rw (creates_nothing (key_of o) w o a e) (a, cc (e, law.reads (key_of o) w))
    | inr (x, e) ↦ elim (Bool-cases (is_not_found x)) [
      | inr p ↦ cc (creates_fails (key_of o) w o x e p, h)
      | inl p ↦ elim (Result-cases (resource.create o w).0) [
        | inl (a, q) ↦ rw (creates_ok (key_of o) w o a x e p q) (law.created o a w q)
        | inr (y, q) ↦ cc (creates_err (key_of o) w o x y e p q, h)
      ]
    ]
  ]

  create_if_missing-kept :
      (k : ObjectKey) (o : O) (t : Thing) (w : W)
      → IsPresent client t w
      → IsPresent client t (create_if_missing resource k o w).1
  create_if_missing-kept k o t w m = elim (Result-cases (resource.get k w).0) [
    | inl (a, e) ↦ rw (creates_nothing k w o a e) m
    | inr (x, e) ↦ elim (Bool-cases (is_not_found x)) [
      | inr p ↦ rw (creates_fails k w o x e p) m
      | inl p ↦ elim (Result-cases (resource.create o w).0) [
        | inl (a, q) ↦ rw (creates_ok k w o a x e p q) ((law.keeps t o).kept w m)
        | inr (y, q) ↦ rw (creates_err k w o x y e p q) ((law.keeps t o).kept w m)
      ]
    ]
  ]

  create_if_missing-Achieves :
      (o : O) (t : Thing)
      → ((w : W) → Present resource (key_of o) w → IsPresent client t w)
      → Achieves (IsPresent client) (t ∷ []) (create_if_missing resource (key_of o) o)
  create_if_missing-Achieves o t f = record {
    achieved = λ w h. (f _ (create_if_missing-Present w o h), tt);
    kept = λ u. record { kept = create_if_missing-kept (key_of o) o u };
  }

-- The server's creations, for the kinds of a cluster's account.
pub record Accounts {W : Type 0} (client : Client W) : Type 0 where
  pub accounts : Creates client client.service_accounts (λ (o : ServiceAccount). o.key)
  pub roles : Creates client client.roles (λ (o : Role). o.key)
  pub bindings : Creates client client.role_bindings (λ (o : RoleBinding). o.key)

-- The account of a cluster.
abbrev pub account : String → String → List Thing
account namespace name =
    let k : ObjectKey = record { namespace = namespace; name = name } in
    Thing.service_account k ∷ Thing.role k ∷ Thing.role_binding k ∷ []

-- Nothing is made that is there.
present_stays :
    {W O : Type 0} (resource : Resource W O) (k : ObjectKey) (o : O) (w : W)
    → Present resource k w
    → create_if_missing resource k o w ≡ (ok tt, w)
unfolding create_if_missing
present_stays resource k o w (a, g) = ground arith

module _ {W : Type 0} (client : Client W) (namespace name : String) where
  -- If a cluster's account, role and role binding are all there, the set-up does nothing and
  -- succeeds.
  pub set_up_again :
      (w : W)
      → All (λ t. IsPresent client t w) (account namespace name)
      → create_service_account_and_role client namespace name w ≡ (ok tt, w)
  unfolding create_service_account_and_role IsPresent
  set_up_again w (sa, (ro, (rb, _))) =
      let k : ObjectKey = record { namespace = namespace; name = name } in
      ground (
        arith,
        present_stays client.service_accounts k (record { key = k }) w sa,
        present_stays client.roles k (get_vm_ray_cluster_mutation_role namespace name) w ro,
        present_stays client.role_bindings k
            (get_vm_ray_cluster_mutation_role_binding namespace name) w rb,
      )

  account-Achieves :
      Accounts client
      → Achieves
          (IsPresent client)
          (account namespace name)
          (create_service_account_and_role client namespace name)
  unfolding create_service_account_and_role IsPresent get_vm_ray_cluster_mutation_role
      get_vm_ray_cluster_mutation_role_binding
  account-Achieves server =
      let k : ObjectKey = record { namespace = namespace; name = name } in
      then-Achieves (IsPresent client) _ _ _ _
        (create_if_missing-Achieves client client.service_accounts (λ o. o.key) server.accounts
          (record { key = k }) (Thing.service_account k) (λ w m. m))
        (then-Achieves (IsPresent client) _ _ _ _
          (create_if_missing-Achieves client client.roles (λ o. o.key) server.roles
            (get_vm_ray_cluster_mutation_role namespace name) (Thing.role k) (λ w m. m))
          (create_if_missing-Achieves client client.role_bindings (λ o. o.key) server.bindings
            (get_vm_ray_cluster_mutation_role_binding namespace name) (Thing.role_binding k)
            (λ w m. m)))

  -- On a server that has what it accepted and removes nothing at a creation: a set-up that
  -- succeeds leaves the cluster's account, role and role binding, and running it again does
  -- nothing.
  pub set_up_once :
      Accounts client
      → (w : W) → (create_service_account_and_role client namespace name w).0 ≡ ok tt
      → All
          (λ t. IsPresent client t (create_service_account_and_role client namespace name w).1)
          (account namespace name)
        × (create_service_account_and_role client namespace name
              (create_service_account_and_role client namespace name w).1
            ≡ (ok tt, (create_service_account_and_role client namespace name w).1))
  set_up_once server w h =
      let there = (account-Achieves server).achieved w h in (there, set_up_again _ there)
