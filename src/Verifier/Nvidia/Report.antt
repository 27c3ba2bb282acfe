-- ===== src/Verifier/Nvidia/Report.antt =====
-- The attestation report of a device: deps/verifier/src/nvidia/report.rs, and the local evaluation of
-- a list of devices in deps/verifier/src/nvidia/mod.rs.
pub mod Verified
use trustmee_artifact.Prelude.{
  Bytes, ℕ, ◌+◌, ◌-◌, String, ◌≡◌, Bool, true, false, Option, none, some, List, [], ◌∷◌, ltb, leb,
  ◌==◌, if◌then◌else◌, length, take, drop, Result, ok, err, panic, ◌>>=◌, ◌>>◌, ok_or, guard, slice,
  or_panic, same_bytes,
}
use trustmee_artifact.Prelude.Dict.{get}
use trustmee_artifact.Verifier
use trustmee_artifact.Verifier.{ReportData, regularize_data}
use trustmee_artifact.Verifier.Nvidia.{
  SpdmError, report_too_small, size_too_small, signed_overflow, nonce_mismatch, fwid_missing,
  fwid_mismatch, signature_length_invalid, signature_malformed, signature_failed, chain_malformed,
  architecture_unsupported, not_base64, report_data_missing, spdm_get_measurement_request_size,
  spdm_nonce_size, hopper_signature_length,
}
use trustmee_artifact.Verifier.Nvidia.Request.{SpdmGetMeasurementRequest, decode_request}
use trustmee_artifact.Verifier.Nvidia.DataType.{fwid, name}
use trustmee_artifact.Verifier.Nvidia.OpaqueData.{Value, Format, string, array, object}
use trustmee_artifact.Verifier.Nvidia.Response.{SpdmGetMeasurementsResponse, decode_response}
use trustmee_artifact.Verifier.Nvidia.CertChain.{Certificates, get_leaf_certificate, verify_chain}

pub record NvidiaAttestationReport : Type 0 where
  pub request : SpdmGetMeasurementRequest
  pub response : SpdmGetMeasurementsResponse

abbrev pub fwid_text : Value → Result SpdmError String
fwid_text (string text) = ok text
fwid_text (array values) = err fwid_mismatch
fwid_text (object values) = err fwid_mismatch

unfoldable pub get_fwid : NvidiaAttestationReport → Result SpdmError String
get_fwid report = ok_or (get (name fwid) report.response.opaque_data) fwid_missing >>= fwid_text

unfoldable pub validate_nonce : NvidiaAttestationReport → Bytes → Result SpdmError (Unit {0})
validate_nonce report expected_nonce =
    guard (same_bytes expected_nonce report.request.nonce) nonce_mismatch

-- `split_at_checked`, `checked_sub` and `get(..n)`
abbrev pub split_at_checked : Bytes → ℕ → Option (Bytes × Bytes)
split_at_checked bytes n = if leb n (length bytes) then some (take n bytes, drop n bytes) else none

abbrev pub checked_sub : ℕ → ℕ → Option ℕ
checked_sub a b = if ltb a b then none else some (a - b)

module _ (format : Format) where
  -- `NvidiaAttestationReport::decode`
  unfoldable pub decode_report : Bytes → ℕ → Result SpdmError (NvidiaAttestationReport × ℕ)
  decode_report report_bytes signature_length =
      ok_or (split_at_checked report_bytes spdm_get_measurement_request_size) report_too_small
      >>= λ parts. decode_request parts.0 >>= λ request.
          decode_response format parts.1 signature_length >>= λ response.
          ok (record { request = request.0; response = response.0 }, request.1 + response.1)

module _ {Cert : Type 0} (tools : Certificates Cert) where
  unfoldable pub verify_signature : Bytes → Bytes → Cert → Result SpdmError (Unit {0})
  verify_signature signed_bytes signature_bytes signing_cert =
      guard (length signature_bytes == 96) signature_length_invalid
      >> (or_panic (slice signature_bytes 0 48) >>= λ r.
          or_panic (slice signature_bytes 48 (length signature_bytes)) >>= λ s.
          ok_or (tools.verify_ecdsa signing_cert signed_bytes r s) signature_malformed >>= λ result.
          guard result signature_failed)

module _ {Cert : Type 0} (format : Format) (tools : Certificates Cert) where
  unfoldable pub try_new : Bytes → ℕ → Bytes → Bytes → Result SpdmError NvidiaAttestationReport
  try_new report_bytes report_signature_length cert_chain_bytes expected_nonce =
      decode_report format report_bytes report_signature_length >>= λ (report, report_size).
      ok_or (tools.stack_from_pem cert_chain_bytes) chain_malformed >>= λ cert_chain.
      get_leaf_certificate cert_chain >>= λ leaf_cert.
      ok_or (checked_sub report_size report_signature_length) size_too_small >>= λ signed_data_size.
      ok_or (slice report_bytes 0 signed_data_size) signed_overflow >>= λ signed_data.
      verify_signature tools signed_data report.response.signature leaf_cert
      >> (get_fwid report >>= λ report_fwid.
          verify_chain tools cert_chain report_fwid
          >> (validate_nonce report expected_nonce >> ok report))
