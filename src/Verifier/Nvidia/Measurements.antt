-- ===== src/Verifier/Nvidia/Measurements.antt =====
-- The measurement record of a response: deps/verifier/src/nvidia/spdm_response.rs.
pub mod RoundTrip
pub mod Total
use trustmee_artifact.Prelude.{
  Bytes, ℕ, zero, suc, ◌+◌, ◌≡◌, Bool, true, false, Option, none, some, List, [], ◌∷◌, ltb, leb,
  ◌==◌, if◌then◌else◌, length, get_elem?, Result, ok, err, panic, ◌>>=◌, ◌>>◌, ok_or, guard, slice,
  or_panic, from_le_bytes,
}
use trustmee_artifact.Verifier.Nvidia.{
  SpdmError, dmtf_too_small, dmtf_overflow, block_overflow, not_dmtf, measurement_overflow,
  dmtf_measurement_specification_value,
}

-- the source's `r#type` is `value_type` here
pub record DmtfMeasurement : Type 0 where
  pub value_type : ℕ
  pub size : ℕ
  pub value : Bytes

pub record MeasurementBlock : Type 0 where
  pub index : ℕ
  pub measurement_specification : ℕ
  pub measurement_size : ℕ
  pub measurement : DmtfMeasurement

-- the fields, once the size is checked
unfoldable pub dmtf_fields : Bytes → Result SpdmError DmtfMeasurement
dmtf_fields bytes = or_panic (get_elem? bytes 0) >>= λ value_type.
    or_panic (slice bytes 1 3) >>= λ array.
    ok_or (slice bytes 3 (3 + from_le_bytes array)) dmtf_overflow >>= λ value.
    ok record { value_type = value_type; size = from_le_bytes array; value = value }

-- `DmtfMeasurement::decode`
unfoldable pub decode_dmtf : Bytes → Result SpdmError DmtfMeasurement
decode_dmtf bytes = if ltb (length bytes) 3 then err dmtf_too_small else dmtf_fields bytes

-- the loop of `MeasurementRecord::decode`
unfoldable pub blocks_from : ℕ → Bytes → ℕ → Result SpdmError (List MeasurementBlock)
blocks_from zero bytes offset = ok []
blocks_from (suc number_of_blocks) bytes offset =
    guard (leb (offset + 4) (length bytes)) block_overflow
    >> (or_panic (get_elem? bytes (offset + 0)) >>= λ index.
        or_panic (get_elem? bytes (offset + 1)) >>= λ specification.
        guard (specification == dmtf_measurement_specification_value) not_dmtf
        >> (or_panic (slice bytes (offset + 2) (offset + 4)) >>= λ array.
            ok_or (slice bytes (offset + 4) (offset + (4 + from_le_bytes array)))
              measurement_overflow
            >>= λ measurement_data. decode_dmtf measurement_data >>= λ measurement.
                blocks_from number_of_blocks bytes (offset + (4 + from_le_bytes array)) >>= λ rest.
                ok (
                  record {
                    index = index;
                    measurement_specification = specification;
                    measurement_size = from_le_bytes array;
                    measurement = measurement;
                  }
                  ∷ rest)))

-- `MeasurementRecord::decode`
unfoldable pub decode_record : ℕ → Bytes → Result SpdmError (List MeasurementBlock)
decode_record number_of_blocks bytes =
    if number_of_blocks == 0 then ok [] else blocks_from number_of_blocks bytes 0
