-- ===== src/Controller/Certificate.antt =====
-- `generateCACertificate` of pkg/controllers/raycluster_controller.go.
use codeflare_operator.Base.{ℕ, true, List, [], ◌∷◌}
use codeflare_operator.Controller.Api.{Api, Result, ok, err, Template}
use codeflare_operator.Controller.Effect.{Act, ◌>>=◌, pure, outside}

module _ (api : Api) where
  abbrev ca_template : ℕ → api.Time → api.Time → Template api.Time
  ca_template serial_number not_before later = record {
    serial_number = serial_number;
    subject_common_name = "root-ca";
    issuer_common_name = "root-ca";
    not_before = not_before;
    not_after = api.add_date later 1 0 0;
    is_ca = true;
    ext_key_usage = "ClientAuth" ∷ "ServerAuth" ∷ [];
    key_usage = "DigitalSignature" ∷ "CertSign" ∷ [];
    basic_constraints_valid = true;
  }

  encode_pair : api.PrivateKey → Result api.Failure (List ℕ) → Result api.Failure (List ℕ × List ℕ)
  encode_pair key (err e) = err e
  encode_pair key (ok cert_bytes) = ok (
    api.pem_encode "RSA PRIVATE KEY" (api.marshal_pkcs1_private_key key),
    api.pem_encode "CERTIFICATE" cert_bytes,
  )

  unfoldable pub sign_with :
      Template api.Time
      → Result api.Failure api.PrivateKey
      → Act api (Result api.Failure (List ℕ × List ℕ))
  unfolding encode_pair
  sign_with cert (err e) = pure (err e)
  sign_with cert (ok key) = do
    signed ← outside (api.create_certificate cert cert (api.public_key key) key)
    pure (encode_pair key signed)

  -- `generateCACertificate`: a private key and a certificate that it signs itself, or an error.
  unfoldable pub generate_ca_certificate : Act api (Result api.Failure (List ℕ × List ℕ))
  unfolding sign_with
  generate_ca_certificate = do
    serial_number ← outside api.random_int63
    not_before ← outside api.now
    later ← outside api.now
    key ← outside (api.generate_key 2048)
    sign_with (ca_template serial_number not_before later) key
