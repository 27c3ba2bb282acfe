-- ===== src/Verifier/Nvidia.antt =====
-- The local verifier of NVIDIA devices: deps/verifier/src/nvidia. Its constants, and the errors that
-- `bail!` and `anyhow!` make.
pub mod Request
pub mod Measurements
pub mod DataType
pub mod OpaqueData
pub mod Response
pub mod CertChain
pub mod Report
pub mod Devices
mod Tests
use trustmee_artifact.Prelude.{ℕ}

abbrev pub spdm_version_supported : ℕ
spdm_version_supported = 17

abbrev pub spdm_nonce_size : ℕ
spdm_nonce_size = 32

abbrev pub dmtf_measurement_specification_value : ℕ
dmtf_measurement_specification_value = 1

abbrev pub hopper_signature_length : ℕ
hopper_signature_length = 96

-- `size_of::<SpdmGetMeasurementRequest>()`
abbrev pub spdm_get_measurement_request_size : ℕ
spdm_get_measurement_request_size = 37

pub data SpdmError : Type 0 where
  request_too_small version_unsupported response_too_small record_overflow nonce_overflow :
      SpdmError
  opaque_length_overflow opaque_overflow signature_overflow : SpdmError
  dmtf_too_small dmtf_overflow block_overflow not_dmtf measurement_overflow : SpdmError
  type_undefined item_overflow vbios_invalid not_multiple type_invalid duplicated : SpdmError
  versions_missing : SpdmError
  report_too_small size_too_small signed_overflow nonce_mismatch : SpdmError
  fwid_missing fwid_size_unexpected fwid_mismatch signature_length_invalid signature_malformed
        signature_failed :
      SpdmError
  chain_malformed chain_too_short leaf_missing root_missing root_untrusted chain_failed : SpdmError
  architecture_unsupported not_base64 report_data_missing : SpdmError
