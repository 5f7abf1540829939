-- ===== src/Vmop/Keys.antt =====
-- The ssh key of a cluster: what the head node's deployment makes, the workers' deployments read.
use ray_on_vcf.Prelude.{
  ◌≡◌, refl, sym, ◌∙◌, ap, inl, inr, String, true, false, some, arith, [], ◌∷◌, Bool-cases,
}
use ray_on_vcf.Prelude.Dict.{lookup}
use ray_on_vcf.Go.{Error, ok, err, Exec, pure, Result-cases, is_not_found, bind_inv, ◌>>=◌, ◌>>◌}
use ray_on_vcf.Kube.{ObjectKey, Secret, Client, Host}
use ray_on_vcf.Vmop.Secrets.{
  read_private_key_for_cluster, get_or_create_private_key_secret, create_private_ssh_key,
  get_ssh_keys_secret_name, ssh_private_key,
}

-- The server's secrets: reading one changes nothing, and the texts of an accepted secret can be
-- read under its key.
pub record KeepsTexts {W : Type 0} (client : Client W) : Type 0 where
  pub reads : (k : ObjectKey) (w : W) → (client.secrets.get k w).1 ≡ w
  pub texts :
      (s t : Secret) (w : W) (name value : String)
      → (client.secrets.create s w).0 ≡ ok t
      → lookup name s.string_data ≡ some value
      → (u : Secret) × ((client.secrets.get s.key (client.secrets.create s w).1).0 ≡ ok u)
        × (lookup name u.content ≡ some value)

module _ {W : Type 0} (client : Client W) (host : Host W) (law : KeepsTexts client)
    (namespace name : String) where
  abbrev ssh_secret : String → Secret
  ssh_secret pvt_key = record {
    key = record { namespace = namespace; name = get_ssh_keys_secret_name name };
    content = [];
    string_data = (ssh_private_key, pvt_key) ∷ [];
  }

  read_keeps : (w : W) → (read_private_key_for_cluster client namespace name w).1 ≡ w
  unfolding read_private_key_for_cluster
  read_keeps w = ground (arith, law.reads (ssh_secret "").key w)

  reads_secret :
      (w : W) (u : Secret) (pvt_key : String)
      → (client.secrets.get (ssh_secret pvt_key).key w).0 ≡ ok u
      → lookup ssh_private_key u.content ≡ some pvt_key
      → (read_private_key_for_cluster client namespace name w).0 ≡ ok pvt_key
  unfolding read_private_key_for_cluster
  reads_secret w u pvt_key g c = ground arith

  -- The part after a secret was not found.
  abbrev make_key : Exec W String
  make_key = create_private_ssh_key client host >>= λ pvt_key.
      client.secrets.create (ssh_secret pvt_key) >> pure pvt_key

  missing_key :
      (w : W) (e : Error)
      → (read_private_key_for_cluster client namespace name w).0 ≡ err e
      → is_not_found e ≡ true
      → get_or_create_private_key_secret client host namespace name w ≡ make_key w
  unfolding get_or_create_private_key_secret
  missing_key w e h p = ground (arith, read_keeps w)

  other_error :
      (w : W) (e : Error)
      → (read_private_key_for_cluster client namespace name w).0 ≡ err e
      → is_not_found e ≡ false
      → get_or_create_private_key_secret client host namespace name w ≡ (err e, w)
  unfolding get_or_create_private_key_secret
  other_error w e h p = ground (arith, read_keeps w)

  found_key :
      (w : W) (k : String)
      → (read_private_key_for_cluster client namespace name w).0 ≡ ok k
      → get_or_create_private_key_secret client host namespace name w ≡ (ok k, w)
  unfolding get_or_create_private_key_secret
  found_key w k h = ground (arith, read_keeps w)

  made :
      (w : W) (k : String)
      → (make_key w).0 ≡ ok k
      → (read_private_key_for_cluster client namespace name (make_key w).1).0 ≡ ok k
  unfolding lookup
  made w k h =
      let (key, g, y) =
        bind_inv (create_private_ssh_key client host)
          (λ pvt_key. client.secrets.create (ssh_secret pvt_key) >> pure pvt_key) w h in
      let w1 = (create_private_ssh_key client host w).1 in
      let (t, f, z) =
        bind_inv (client.secrets.create (ssh_secret key)) (λ _. pure key) w1
          (sym (ap (λ o. o.0) y) ∙ h) in
      let (u, there, text) = law.texts (ssh_secret key) t w1 ssh_private_key key f refl in
      rw (y ∙ z) (
        reads_secret (client.secrets.create (ssh_secret key) w1).1 u key there text
        ∙ sym (ap (λ o. o.0) (y ∙ z))
        ∙ h)

  -- On a server that keeps the texts of secrets: the private key that the head node's deployment
  -- got, which it may have made, is the one that a worker's deployment reads then.
  pub workers_read_the_key :
      (w : W) (k : String)
      → (get_or_create_private_key_secret client host namespace name w).0 ≡ ok k
      → (read_private_key_for_cluster client namespace name
          (get_or_create_private_key_secret client host namespace name w).1).0
        ≡ ok k
  workers_read_the_key w k h =
      elim (Result-cases (read_private_key_for_cluster client namespace name w).0) [
        | inl (k', e) ↦ let q = found_key w k' e in rw q (e ∙ sym (ap (λ o. o.0) q) ∙ h)
        | inr (x, e) ↦ elim (Bool-cases (is_not_found x)) [
          | inr p ↦ cc (other_error w x e p, h)
          | inl p ↦ let q = missing_key w x e p in rw q (made w k (sym (ap (λ o. o.0) q) ∙ h))
        ]
      ]
