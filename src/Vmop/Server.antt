-- ===== src/Vmop/Server.antt =====
-- What the provider relies on of the API server when it makes and deletes objects.
use ray_on_vcf.Prelude.{◌≡◌, true, List, [], ◌∷◌, ◌++◌, All, sym, ◌∙◌, ap}
use ray_on_vcf.Go.{Error, Exec, ok, err, is_not_found, ◌>>◌, bind_inv}
use ray_on_vcf.Go.Keeps.{Keeps, bind-Keeps}
use ray_on_vcf.Kube.{ObjectKey, Resource, Client}

-- An object of one of the kinds that the provider makes.
pub data Thing : Type 0 where
  secret service_account role role_binding virtual_machine vm_service : ObjectKey → Thing

module _ {W O : Type 0} (resource : Resource W O) (key : ObjectKey) (w : W) where
  -- `Get` answers NotFound.
  abbrev pub Missing : Type 0
  Missing = (e : Error) × (resource.get key w ≡ (err e, w)) × (is_not_found e ≡ true)

  -- `Get` answers an object.
  abbrev pub Present : Type 0
  Present = (o : O) × (resource.get key w ≡ (ok o, w))

module _ {W : Type 0} (client : Client W) where
  unfoldable pub IsMissing : Thing → W → Type 0
  IsMissing (Thing.secret k) = Missing client.secrets k
  IsMissing (Thing.service_account k) = Missing client.service_accounts k
  IsMissing (Thing.role k) = Missing client.roles k
  IsMissing (Thing.role_binding k) = Missing client.role_bindings k
  IsMissing (Thing.virtual_machine k) = Missing client.virtual_machines k
  IsMissing (Thing.vm_service k) = Missing client.vm_services k

  unfoldable pub IsPresent : Thing → W → Type 0
  IsPresent (Thing.secret k) = Present client.secrets k
  IsPresent (Thing.service_account k) = Present client.service_accounts k
  IsPresent (Thing.role k) = Present client.roles k
  IsPresent (Thing.role_binding k) = Present client.role_bindings k
  IsPresent (Thing.virtual_machine k) = Present client.virtual_machines k
  IsPresent (Thing.vm_service k) = Present client.vm_services k

  -- `Get` answers NotFound once the server has completed the deletions that it has accepted: an
  -- accepted deletion only marks an object, which stays until its finalizers are gone. What the
  -- server is like then, if nothing else happens, is `settle`.
  abbrev pub IsGone : (W → W) → Thing → W → Type 0
  IsGone settle t w = IsMissing t (settle w)

-- The objects of one kind: looking one up changes nothing; a missing object is not brought back by
-- the completion of deletions; one whose deletion was accepted, or that a deletion did not find, is
-- gone by then; a deletion brings no object back.
pub record Deletes {W O : Type 0} (client : Client W) (settle : W → W) (resource : Resource W O)
    : Type 0 where
  pub reads : (k : ObjectKey) (w : W) → (resource.get k w).1 ≡ w
  pub missing : (k : ObjectKey) (w : W) → Missing resource k w → Missing resource k (settle w)
  pub deleted :
      (k : ObjectKey) (o : O) (w : W)
      → (resource.get k w).0 ≡ ok o
      → (resource.delete o w).0 ≡ ok tt
      → Missing resource k (settle (resource.delete o w).1)
  pub not_found :
      (k : ObjectKey) (o : O) (w : W) (e : Error)
      → (resource.get k w).0 ≡ ok o
      → (resource.delete o w).0 ≡ err e
      → is_not_found e ≡ true
      → Missing resource k (settle (resource.delete o w).1)
  pub keeps : (t : Thing) (o : O) → Keeps (IsGone client settle t) (resource.delete o)

-- An accepted object is there under its key, and a creation removes no object.
pub record Creates {W O : Type 0} (client : Client W) (resource : Resource W O)
    (key_of : O → ObjectKey) : Type 0 where
  pub reads : (k : ObjectKey) (w : W) → (resource.get k w).1 ≡ w
  pub created :
      (o a : O) (w : W)
      → (resource.create o w).0 ≡ ok a
      → Present resource (key_of o) (resource.create o w).1
  pub keeps : (t : Thing) (o : O) → Keeps (IsPresent client t) (resource.create o)

-- A call that brings things about, if it succeeds, and that undoes them for no thing.
pub record Achieves {W : Type 0} (P : Thing → W → Type 0) (ts : List Thing) (m : Exec W Unit)
    : Type 0 where
  pub achieved : (w : W) → (m w).0 ≡ ok tt → All (λ t. P t (m w).1) ts
  pub kept : (t : Thing) → Keeps (P t) m

module _ {W : Type 0} (P : Thing → W → Type 0) where
  -- What a call keeps of each thing, it keeps of all of some things.
  pub Keeps-All :
      (ts : List Thing) (m : Exec W Unit) (w : W)
      → ((t : Thing) → Keeps (P t) m)
      → All (λ t. P t w) ts
      → All (λ t. P t (m w).1) ts
  Keeps-All [] m w k ps = tt
  Keeps-All (t ∷ ts) m w k (p, ps) = ((k t).kept w p, Keeps-All ts m w k ps)

  All-append :
      (ts us : List Thing) (w : W)
      → All (λ t. P t w) ts
      → All (λ t. P t w) us
      → All (λ t. P t w) (ts ++ us)
  All-append [] us w ps qs = qs
  All-append (t ∷ ts) us w (p, ps) qs = (p, All-append ts us w ps qs)

  -- Calls in sequence bring about what each of them does.
  pub then-Achieves :
      (ts us : List Thing) (m n : Exec W Unit)
      → Achieves P ts m
      → Achieves P us n
      → Achieves P (ts ++ us) (m >> n)
  then-Achieves ts us m n am an = record {
    achieved = λ w h.
        let (a, e, x) = bind_inv m (λ _. n) w h in
        let w' = (m w).1 in
        rw x (
          All-append ts us (n w').1 (Keeps-All ts n w' an.kept (am.achieved w e))
            (an.achieved w' (sym (ap (λ o. o.0) x) ∙ h)));
    kept = λ t. bind-Keeps (P t) m (λ _. n) (am.kept t) (λ _. an.kept t);
  }
