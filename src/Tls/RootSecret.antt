-- ===== src/Tls/RootSecret.antt =====
-- Making the root secret and reading it back.
use Prim.Native.String.{◌++◌}
use ray_on_vcf.Prelude.{◌≡◌, sym, ◌∙◌, ap, String, true, arith}
use ray_on_vcf.Go.{Error, Exec, ok, err, pure, ◌>>=◌, ◌>>◌, is_not_found, bind_inv}
use ray_on_vcf.Prelude.Dict.{lookup}
use ray_on_vcf.Kube.{ObjectKey, Secret, Client, Host}
use ray_on_vcf.Tls.{
  root_secret_key, root_ca_secret_suffix, create_root_secret, make_root_secret,
  read_ca_crt_and_ca_key, ca_template, root_secret,
}

-- A secret that the server accepted can be read, with the same key and content.
pub record StoresSecrets {W : Type 0} (client : Client W) : Type 0 where
  pub read :
      (s t : Secret) (w : W)
      → (client.secrets.create s w).0 ≡ ok t
      → (u : Secret) × ((client.secrets.get s.key (client.secrets.create s w).1).0 ≡ ok u)
        × (u.content ≡ s.content)

module _ {W : Type 0} (client : Client W) (host : Host W) (namespace name : String) (w : W) where
  make-stores :
      (w' : W) (key : ObjectKey)
      → (make_root_secret client host key w').0 ≡ ok tt
      → (ca_key ca_cert : String) × (v : W) × (t : Secret) × ((client.secrets.create
            (root_secret host key ca_key ca_cert)
            v).0
          ≡ ok t)
        × ((make_root_secret client host key w').1
            ≡ (client.secrets.create (root_secret host key ca_key ca_cert) v).1)
  unfolding make_root_secret
  make-stores w' key h =
      let store : String → String → Exec W Unit =
        λ ca_key ca_cert. client.secrets.create (root_secret host key ca_key ca_cert) >> pure tt in
      let (ca_key, e, x) =
        bind_inv (host.generate_key 4096)
          (λ ca_key. host.create_certificate (ca_template host w') ca_key >>= store ca_key) w' h in
      let w1 = (host.generate_key 4096 w').1 in
      let (ca_cert, e', x') =
        bind_inv (host.create_certificate (ca_template host w') ca_key) (store ca_key) w1
          (sym (ap (λ o. o.0) x) ∙ h) in
      let w2 = (host.create_certificate (ca_template host w') ca_key w1).1 in
      let (t, f, y) =
        bind_inv (client.secrets.create (root_secret host key ca_key ca_cert)) (λ _. pure tt) w2
          (sym (ap (λ o. o.0) (x ∙ x')) ∙ h) in
      (ca_key, ca_cert, w2, t, f, ap (λ o. o.1) (x ∙ x' ∙ y))

  -- A root secret that is there is left as it is.
  pub create_root_secret_found :
      (s : Secret)
      → client.secrets.get (root_secret_key namespace name) w ≡ (ok s, w)
      → create_root_secret client host namespace name w ≡ (ok tt, w)
  unfolding create_root_secret
  create_root_secret_found s h = ground arith

  creates :
      (e : Error) (w' : W)
      → client.secrets.get (root_secret_key namespace name) w ≡ (err e, w')
      → is_not_found e ≡ true
      → create_root_secret client host namespace name w
        ≡ make_root_secret client host (root_secret_key namespace name) w'
  unfolding create_root_secret
  creates e w' h p = ground arith

  -- What is read from a secret with the content that was made.
  reads :
      (v : W) (u : Secret) (ca_key ca_cert : String)
      → (client.secrets.get (root_secret_key namespace name) v).0 ≡ ok u
      → u.content ≡ (root_secret host (root_secret_key namespace name) ca_key ca_cert).content
      → (read_ca_crt_and_ca_key client namespace (name ++ root_ca_secret_suffix) v).0
        ≡ ok (
          host.pem_encode "RSA PRIVATE KEY" (host.marshal_pkcs1 ca_key),
          host.pem_encode "CERTIFICATE" ca_cert,
        )
  unfolding read_ca_crt_and_ca_key root_secret lookup
  reads v u ca_key ca_cert h p = ground arith

  -- On a server that keeps the secrets that it accepted: if there is no root secret and making
  -- one succeeds, reading it afterwards succeeds, with the PEM blocks of a private key and of a
  -- certificate.
  pub create-read :
      StoresSecrets client
      → (e : Error) (w' : W) → client.secrets.get (root_secret_key namespace name) w ≡ (err e, w')
      → is_not_found e ≡ true
      → (create_root_secret client host namespace name w).0 ≡ ok tt
      → (key cert : String) × ((read_ca_crt_and_ca_key client namespace
            (name ++ root_ca_secret_suffix)
            (create_root_secret client host namespace name w).1).0
          ≡ ok (
            host.pem_encode "RSA PRIVATE KEY" (host.marshal_pkcs1 key),
            host.pem_encode "CERTIFICATE" cert,
          ))
  unfolding root_secret
  create-read stores e w' h p q =
      let (ca_key, ca_cert, v, t, f, x) =
        make-stores w' (root_secret_key namespace name)
          (sym (ap (λ o. o.0) (creates e w' h p)) ∙ q) in
      let (u, g, c) =
        stores.read (root_secret host (root_secret_key namespace name) ca_key ca_cert) t v f in
      (ca_key, ca_cert, rw (creates e w' h p, x) (reads _ u ca_key ca_cert g c))
