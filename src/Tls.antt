-- ===== src/Tls.antt =====
-- vmray-cluster-operator/pkg/provider/vmop/tls/tls_utils.go: the cluster's root certificate.
pub mod RootSecret
pub mod Script
use Prim.Native.String.{◌++◌}
use ray_on_vcf.Prelude.{ℕ, String, true, Option, none, some, List, [], ◌∷◌, map}
use ray_on_vcf.Prelude.Dict.{lookup}
use ray_on_vcf.Go.{
  Error, Result, ok, err, Exec, pure, fail, gets, attempt, ◌>>=◌, ◌>>◌, ignore_not_found,
}
use ray_on_vcf.Kube.{ObjectKey, Secret, Client, Host, Certificate}

abbrev pub tls_secret_suffix : String
tls_secret_suffix = "-tls"

abbrev pub root_ca_secret_suffix : String
root_ca_secret_suffix = "-root-cert"

abbrev pub root_ca_cert_key : String
root_ca_cert_key = "ca.cert"

abbrev pub root_ca_key_key : String
root_ca_key_key = "ca.key"

-- `error_tmpl_ca_cert` with its three texts.
pub error_ca_cert : String → String → String → Error
error_ca_cert namespace name key = Error.plain (
    "failure to read ca certificate: secret " ++ namespace ++ ":" ++ name ++ " doesn't contain `"
    ++ key ++ "` key")

abbrev pub root_secret_key : String → String → ObjectKey
root_secret_key namespace cluster_name = record {
  namespace = namespace;
  name = cluster_name ++ root_ca_secret_suffix;
}

-- The template of the certificate authority, valid for ten years from now.
unfoldable pub ca_template : {W : Type 0} → Host W → W → Certificate
ca_template host w = record {
  serial_number = 2019;
  organization = "Broadcom, INC." ∷ [];
  country = "US" ∷ [];
  province = "" ∷ [];
  locality = "San Jose" ∷ [];
  street_address = "Hillview Avenue" ∷ [];
  postal_code = "94304" ∷ [];
  not_before = host.now w;
  not_after = host.add_years 10 (host.now w);
  is_ca = true;
  ext_key_usage = "ClientAuth" ∷ "ServerAuth" ∷ [];
  key_usage = "DigitalSignature" ∷ "CertSign" ∷ [];
  basic_constraints_valid = true;
}

-- The secret with the certificate and its key, as PEM blocks.
pub root_secret : {W : Type 0} → Host W → ObjectKey → String → String → Secret
root_secret host key ca_key ca_cert =
    let pem_cert = host.pem_encode "CERTIFICATE" ca_cert in
    let pem_key = host.pem_encode "RSA PRIVATE KEY" (host.marshal_pkcs1 ca_key) in
    record {
      key = key;
      content = (root_ca_cert_key, pem_cert) ∷ (root_ca_key_key, pem_key) ∷ [];
      string_data = [];
    }

module _ {W : Type 0} (client : Client W) (host : Host W) where
  -- The part of `CreateVMRayClusterRootSecret` after the check that no secret exists.
  unfoldable pub make_root_secret : ObjectKey → Exec W Unit
  make_root_secret key = do
    ca ← gets (ca_template host)
    ca_key ← host.generate_key 4096
    ca_cert ← host.create_certificate ca ca_key
    client.secrets.create (root_secret host key ca_key ca_cert)
    pure tt

  -- `CreateVMRayClusterRootSecret`
  unfoldable pub create_root_secret : String → String → Exec W Unit
  unfolding make_root_secret
  create_root_secret namespace cluster_name =
      let key = root_secret_key namespace cluster_name in
      do
        r ← attempt (client.secrets.get key)
        elim r [
          | ok _ ↦ pure tt
          | err e ↦ elim (ignore_not_found e) [ some e' ↦ fail e' | none ↦ make_root_secret key ]
        ]

module _ {W : Type 0} (client : Client W) where
  -- `ReadCaCrtAndCaKeyFromSecret`: the key comes first.
  unfoldable pub read_ca_crt_and_ca_key : String → String → Exec W (String × String)
  unfolding error_ca_cert
  read_ca_crt_and_ca_key namespace name = do
    secret ← client.secrets.get (record { namespace = namespace; name = name })
    elim (lookup root_ca_cert_key secret.content) [
      | none ↦ fail (error_ca_cert namespace name root_ca_cert_key)
      | some ca_crt ↦ elim (lookup root_ca_key_key secret.content) [
        | none ↦ fail (error_ca_cert namespace name root_ca_key_key)
        | some ca_key ↦ pure (ca_key, ca_crt)
      ]
    ]
