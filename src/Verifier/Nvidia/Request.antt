-- ===== src/Verifier/Nvidia/Request.antt =====
-- The request in a report: deps/verifier/src/nvidia/spdm_request.rs.
pub mod Layout
use trustmee_artifact.Prelude.{
  Bytes, ℕ, ◌≡◌, ◌≤◌, Bool, true, false, Option, none, some, ltb, ◌==◌, if◌then◌else◌, length,
  get_elem?, Result, ok, err, panic, ◌>>=◌, ◌>>◌, guard, slice, or_panic,
}
use trustmee_artifact.Verifier.Nvidia.{
  SpdmError, request_too_small, version_unsupported, spdm_version_supported,
  spdm_get_measurement_request_size,
}

pub record SpdmGetMeasurementRequest : Type 0 where
  pub spdm_version : ℕ
  pub request_response_code : ℕ
  pub param1 : ℕ
  pub param2 : ℕ
  pub nonce : Bytes
  pub slot_id_param : ℕ

-- the fields, once the size is checked; an index out of range panics
unfoldable pub request_fields : Bytes → Result SpdmError (SpdmGetMeasurementRequest × ℕ)
request_fields bytes = or_panic (get_elem? bytes 0) >>= λ version.
    guard (version == spdm_version_supported) version_unsupported
    >> (or_panic (get_elem? bytes 1) >>= λ code. or_panic (get_elem? bytes 2) >>= λ param1.
        or_panic (get_elem? bytes 3) >>= λ param2. or_panic (slice bytes 4 36) >>= λ nonce.
        or_panic (get_elem? bytes 36) >>= λ slot_id_param. ok (
          record {
            spdm_version = version;
            request_response_code = code;
            param1 = param1;
            param2 = param2;
            nonce = nonce;
            slot_id_param = slot_id_param;
          },
          spdm_get_measurement_request_size,
        ))

-- `SpdmGetMeasurementRequest::decode`
unfoldable pub decode_request : Bytes → Result SpdmError (SpdmGetMeasurementRequest × ℕ)
decode_request bytes =
    if ltb (length bytes) spdm_get_measurement_request_size
    then err request_too_small
    else request_fields bytes
