-- ===== src/Verifier/Nvidia/CertChain.antt =====
-- The certificate chain of a report: deps/verifier/src/nvidia/cert_chain.rs. OpenSSL, the X.509
-- parser and `hex` are fields of `Certificates`, with the certificate of the trusted root.
use trustmee_artifact.Prelude.{
  Bytes, String, Bool, Option, none, some, List, [], ◌∷◌, str_eq, leb, ltb, ◌-◌, drop,
  if◌then◌else◌, ok, err, or_panic, accepted, length, Result, ◌>>=◌, ◌>>◌, ok_or, guard,
}
use trustmee_artifact.Verifier.Nvidia.{
  SpdmError, chain_malformed, chain_too_short, leaf_missing, root_missing, root_untrusted,
  chain_failed, fwid_size_unexpected, fwid_missing, fwid_mismatch,
}

-- `fwid_extension` is the value of the extension 2.23.133.5.4.1, `none` if it is missing or the
-- certificate is not read; `verify_cert` takes the trusted root, the leaf and the chain without its
-- root; `verify_ecdsa` the signed bytes and the two halves of the signature
pub record Certificates (Cert : Type 0) : Type 0 where
  pub stack_from_pem : Bytes → Option (List Cert)
  pub root_ca : Cert
  pub sha1_digest : Cert → Option Bytes
  pub hex : Bytes → String
  pub fwid_extension : Cert → Option Bytes
  pub verify_cert : Cert → Cert → List Cert → Bool
  pub verify_ecdsa : Cert → Bytes → Bytes → Bytes → Option Bool

module _ {Cert : Type 0} where
  abbrev pub first : List Cert → Option Cert
  first [] = none
  first (cert ∷ certs) = some cert

  abbrev pub last : List Cert → Option Cert
  last [] = none
  last (cert ∷ []) = some cert
  last (cert ∷ next ∷ certs) = last (next ∷ certs)

  -- the first component of `split_last`
  abbrev pub without_last : List Cert → List Cert
  without_last [] = []
  without_last (cert ∷ []) = []
  without_last (cert ∷ next ∷ certs) = cert ∷ without_last (next ∷ certs)

  abbrev pub get_leaf_certificate : List Cert → Result SpdmError Cert
  get_leaf_certificate certs = ok_or (first certs) leaf_missing

  abbrev pub get_root_certificate : List Cert → Result SpdmError Cert
  get_root_certificate certs = ok_or (last certs) root_missing

module _ {Cert : Type 0} (tools : Certificates Cert) where
  unfoldable pub certificate_fingerprint : Cert → Result SpdmError String
  certificate_fingerprint cert =
      ok_or (tools.sha1_digest cert) chain_malformed >>= λ digest. ok (tools.hex digest)

  -- the last 48 bytes of the extension; in a release build the subtraction wraps when there are fewer,
  -- and `get` finds nothing there
  unfoldable pub get_fwid_from_cert : Cert → Result SpdmError String
  get_fwid_from_cert cert = ok_or (tools.fwid_extension cert) fwid_missing >>= λ value.
      if ltb (length value) 48
      then err fwid_size_unexpected
      else ok (tools.hex (drop (length value - 48) value))

  -- the digest of the root is computed where it is first used, with `unwrap`
  unfoldable pub check_root_ca_is_trusted : List Cert → Result SpdmError (Unit {0})
  check_root_ca_is_trusted certs = get_root_certificate certs >>= λ root_ca.
      certificate_fingerprint root_ca >>= λ digest.
      or_panic (accepted (certificate_fingerprint tools.root_ca)) >>= λ trusted.
      guard (str_eq digest trusted) root_untrusted

  -- `NvidiaCertificateChain::verify`
  unfoldable pub verify_chain : List Cert → String → Result SpdmError (Unit {0})
  verify_chain certs expected_fwid =
      guard (leb 2 (length certs)) chain_too_short
      >> (check_root_ca_is_trusted certs
          >> (get_leaf_certificate certs >>= λ leaf_cert.
              get_fwid_from_cert leaf_cert >>= λ cert_fwid.
              guard (str_eq cert_fwid expected_fwid) fwid_mismatch
              >> guard (tools.verify_cert tools.root_ca leaf_cert (without_last certs))
                  chain_failed))
