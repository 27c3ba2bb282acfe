-- ===== src/Verifier/Nvidia/Response.antt =====
-- The response in a report: `SpdmGetMeasurementsResponse` of deps/verifier/src/nvidia/spdm_response.rs.
pub mod Layout
use trustmee_artifact.Prelude.{
  Bytes, ℕ, ◌+◌, ◌≡◌, Bool, true, false, Option, none, some, List, [], ltb, leb, ◌==◌,
  if◌then◌else◌, length, get_elem?, Result, ok, err, panic, ◌>>=◌, ◌>>◌, ok_or, guard, slice,
  or_panic, from_le_bytes,
}
use trustmee_artifact.Prelude.Dict.{Dict}
use trustmee_artifact.Verifier.Nvidia.{
  SpdmError, version_unsupported, response_too_small, record_overflow, nonce_overflow,
  opaque_length_overflow, opaque_overflow, signature_overflow, spdm_version_supported,
}
use trustmee_artifact.Verifier.Nvidia.Measurements.{MeasurementBlock, decode_record}
use trustmee_artifact.Verifier.Nvidia.OpaqueData.{Value, Format, decode_opaque}

pub record SpdmGetMeasurementsResponse : Type 0 where
  pub spdm_version : ℕ
  pub request_response_code : ℕ
  pub param1 : ℕ
  pub param2 : ℕ
  pub number_of_blocks : ℕ
  pub measurement_record_length : ℕ
  pub measurement_record : List MeasurementBlock
  pub nonce : Bytes
  pub opaque_data_length : ℕ
  pub opaque_data : Dict Value
  pub signature : Bytes

-- the blocks, when the record has bytes
unfoldable pub read_record : Bytes → ℕ → ℕ → Result SpdmError (List MeasurementBlock)
read_record bytes number_of_blocks record_length =
    if ltb 0 record_length
    then (ok_or (slice bytes 8 (8 + record_length)) record_overflow >>= λ measurements_bytes.
        decode_record number_of_blocks measurements_bytes)
    else ok []

module _ (format : Format) where
  -- the opaque data, when it has bytes
  unfoldable pub read_opaque : Bytes → ℕ → ℕ → Result SpdmError (Dict Value)
  read_opaque bytes offset opaque_data_length =
      if ltb 0 opaque_data_length
      then (ok_or (slice bytes offset (offset + opaque_data_length)) opaque_overflow
          >>= λ opaque_data_bytes. decode_opaque format opaque_data_bytes)
      else ok []

  -- `decode` behind the eight bytes at the start; its offsets are 8, 8 + L1, 40 + L1, 42 + L1 and
  -- 42 + L1 + L2 of the documented layout
  unfoldable pub response_fields :
      Bytes → ℕ → ℕ → ℕ → ℕ → ℕ → ℕ → ℕ → Result SpdmError (SpdmGetMeasurementsResponse × ℕ)
  response_fields bytes signature_length version code param1 param2 number_of_blocks record_length =
      read_record bytes number_of_blocks record_length >>= λ measurement_record.
      ok_or (slice bytes (8 + record_length) (40 + record_length)) nonce_overflow >>= λ nonce.
      ok_or (slice bytes (40 + record_length) (42 + record_length)) opaque_length_overflow
      >>= λ array. read_opaque bytes (42 + record_length) (from_le_bytes array) >>= λ opaque_data.
          ok_or
            (slice bytes (42 + record_length + from_le_bytes array)
              (42 + record_length + from_le_bytes array + signature_length))
            signature_overflow
          >>= λ signature. ok (
            record {
              spdm_version = version;
              request_response_code = code;
              param1 = param1;
              param2 = param2;
              number_of_blocks = number_of_blocks;
              measurement_record_length = record_length;
              measurement_record = measurement_record;
              nonce = nonce;
              opaque_data_length = from_le_bytes array;
              opaque_data = opaque_data;
              signature = signature;
            },
            42 + record_length + from_le_bytes array + signature_length,
          )

  -- `SpdmGetMeasurementsResponse::decode`; `u24::from_le_bytes` joins three bytes
  unfoldable pub decode_response : Bytes → ℕ → Result SpdmError (SpdmGetMeasurementsResponse × ℕ)
  decode_response bytes signature_length =
      guard (leb 8 (length bytes)) response_too_small
      >> (or_panic (get_elem? bytes 0) >>= λ version.
          guard (version == spdm_version_supported) version_unsupported
          >> (or_panic (get_elem? bytes 1) >>= λ code. or_panic (get_elem? bytes 2) >>= λ param1.
              or_panic (get_elem? bytes 3) >>= λ param2.
              or_panic (get_elem? bytes 4) >>= λ number_of_blocks.
              or_panic (slice bytes 5 8) >>= λ array.
              response_fields bytes signature_length version code param1 param2 number_of_blocks
                (from_le_bytes array)))
