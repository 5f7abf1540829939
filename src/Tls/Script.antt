-- ===== src/Tls/Script.antt =====
-- `GetRayTLSConfigString` of vmray-cluster-operator/pkg/provider/vmop/tls/tls_utils.go: the script
-- that makes a node's key and certificate.
use ray_on_vcf.Prelude.{String, List, [], ◌∷◌}
use ray_on_vcf.Go.Format.{concat}

-- The lines of the script.
abbrev pub ray_tls_config_lines : List String
ray_tls_config_lines =
    "#!/bin/sh\n" ∷ "\n" ∷ "## Create tls.key\n" ∷ "openssl genrsa -out /home/ray/tls.key 2048\n"
    ∷ "\n" ∷ "IP_3=\"\"\n" ∷ "if [ \"${RAY_VMSERVICE_IP}\" ]; then\n"
    ∷ "IP_3=\"IP.3 = $RAY_VMSERVICE_IP\"\n" ∷ "fi\n" ∷ "\n" ∷ "## Write CSR Config\n"
    ∷ "cat > /home/ray/csr.conf <<EOF\n" ∷ "\t[ req ]\n" ∷ "\tdefault_bits = 2048\n"
    ∷ "\tprompt = no\n" ∷ "\tdefault_md = sha256\n" ∷ "\treq_extensions = req_ext\n"
    ∷ "\tdistinguished_name = dn\n" ∷ "\n" ∷ "\t[ dn ]\n" ∷ "\tC = US\n" ∷ "\tST = California\n"
    ∷ "\tL = San Fransisco\n" ∷ "\tO = ray\n" ∷ "\tOU = ray\n" ∷ "\tCN = *.ray.io\n" ∷ "\n"
    ∷ "\t[ req_ext ]\n" ∷ "\tsubjectAltName = @alt_names\n" ∷ "\n" ∷ "\t[ alt_names ]\n"
    ∷ "\tDNS.1 = localhost\n" ∷ "\tIP.1 = 127.0.0.1\n"
    ∷ "\tIP.2 = $(hostname -I | awk '{print $1}')\n" ∷ "\t$IP_3\n" ∷ "EOF\n" ∷ "\n"
    ∷ "## Create CSR using tls.key\n"
    ∷ "openssl req -new -key /home/ray/tls.key -out /home/ray/ca.csr -config /home/ray/csr.conf\n"
    ∷ "\n" ∷ "## Write cert config\n" ∷ "cat > /home/ray/cert.conf <<EOF\n"
    ∷ "\tauthorityKeyIdentifier=keyid,issuer\n" ∷ "\tbasicConstraints=CA:FALSE\n"
    ∷ "\tkeyUsage = digitalSignature, nonRepudiation, keyEncipherment, dataEncipherment\n"
    ∷ "\tsubjectAltName = @alt_names\n" ∷ "\n" ∷ "\t[alt_names]\n" ∷ "\tDNS.1 = localhost\n"
    ∷ "\tIP.1 = 127.0.0.1\n" ∷ "\tIP.2 = $(hostname -I | awk '{print $1}')\n" ∷ "\t$IP_3\n"
    ∷ "EOF\n" ∷ "\n" ∷ "## Generate tls.cert\n" ∷ "openssl x509 -req \\\n"
    ∷ "\t-in /home/ray/ca.csr \\\n" ∷ "\t-CA /home/ray/ca.crt -CAkey /home/ray/ca.key \\\n"
    ∷ "\t-CAcreateserial -out /home/ray/tls.crt \\\n" ∷ "\t-days 365 \\\n"
    ∷ "\t-sha256 -extfile /home/ray/cert.conf" ∷ []

-- `GetRayTLSConfigString`
unfoldable pub get_ray_tls_config_string : String
get_ray_tls_config_string = concat ray_tls_config_lines
