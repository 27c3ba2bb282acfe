-- ===== src/Verifier/Nvidia/Devices.antt =====
-- The evaluation of a list of devices by the local verifier: deps/verifier/src/nvidia/mod.rs.
use trustmee_artifact.Prelude.{
  Bytes, ℕ, String, ◌≡◌, Bool, true, Option, none, some, List, [], ◌∷◌, ◌==◌, if◌then◌else◌, All,
  Result, ok, err, ◌>>=◌, ◌>>◌, ok_or, ok_or-ok, guard, guard-ok, >>=-eq-ok,
}
use trustmee_artifact.Prelude.Dict.{Dict}
use trustmee_artifact.Verifier.{ReportData, regularize_data}
use trustmee_artifact.Verifier.Nvidia.{
  SpdmError, architecture_unsupported, not_base64, report_data_missing, spdm_nonce_size,
  hopper_signature_length,
}
use trustmee_artifact.Verifier.Nvidia.Measurements.{MeasurementBlock}
use trustmee_artifact.Verifier.Nvidia.OpaqueData.{Value, Format}
use trustmee_artifact.Verifier.Nvidia.CertChain.{Certificates}
use trustmee_artifact.Verifier.Nvidia.Report.{NvidiaAttestationReport, try_new}
use trustmee_artifact.Verifier.Nvidia.Report.Verified.{IsVerified, try_new-IsVerified}

-- `DeviceArchitecture` is NVML's
pub record NvDeviceReportAndCert (Arch : Type 0) : Type 0 where
  pub arch : Arch
  pub uuid : String
  pub evidence : String
  pub certificate : String

-- `HashMap<u8, String>` as a function
pub record NvDeviceReportAndCertClaim (Arch : Type 0) : Type 0 where
  pub arch : Arch
  pub uuid : String
  pub measurements : ℕ → Option String
  pub config : Dict Value

pub record DeviceTools (Arch Cert : Type 0) : Type 0 where
  pub is_hopper : Arch → Bool
  pub format : Format
  pub certificates : Certificates Cert
  pub hex_decode : String → Option Bytes
  pub base64_decode : String → Option Bytes

-- the loop of `NvDeviceReportAndCertClaim::new`
unfoldable pub insert_measurements :
    Format → List MeasurementBlock → (ℕ → Option String) → ℕ → Option String
insert_measurements format [] measurements = measurements
insert_measurements format (block ∷ blocks) measurements =
    insert_measurements format blocks
      λ i. if i == block.index then some (format.hex block.measurement.value) else measurements i

-- hexadecimal text, or else base64
abbrev pub evidence_bytes : Option Bytes → Option Bytes → Option Bytes
evidence_bytes none decoded = decoded
evidence_bytes (some bytes) decoded = some bytes

module _ {Arch Cert : Type 0} (tools : DeviceTools Arch Cert) where
  abbrev pub report_vec : NvDeviceReportAndCert Arch → Option Bytes
  report_vec device =
      evidence_bytes (tools.hex_decode device.evidence) (tools.base64_decode device.evidence)

  abbrev pub claim_of :
      NvDeviceReportAndCert Arch → NvidiaAttestationReport → NvDeviceReportAndCertClaim Arch
  claim_of device report = record {
    arch = device.arch;
    uuid = device.uuid;
    measurements = insert_measurements tools.format report.response.measurement_record (λ i. none);
    config = report.response.opaque_data;
  }

  unfoldable pub evaluate_device_locally :
      NvDeviceReportAndCert Arch → Bytes → Result SpdmError (NvDeviceReportAndCertClaim Arch)
  evaluate_device_locally device expected_nonce =
      guard (tools.is_hopper device.arch) architecture_unsupported
      >> (ok_or (tools.base64_decode device.certificate) not_base64 >>= λ cert_chain.
          ok_or (report_vec device) not_base64 >>= λ report_bytes.
          try_new tools.format tools.certificates report_bytes hopper_signature_length cert_chain
            expected_nonce
          >>= λ report. ok (claim_of device report))

  -- the loop of `evaluate`
  unfoldable pub evaluate_all :
      List (NvDeviceReportAndCert Arch)
      → Bytes
      → Result SpdmError (List (NvDeviceReportAndCertClaim Arch))
  evaluate_all [] expected_nonce = ok []
  evaluate_all (device ∷ devices) expected_nonce =
      evaluate_device_locally device expected_nonce >>= λ claims.
      evaluate_all devices expected_nonce >>= λ rest. ok (claims ∷ rest)

  -- `Nvidia::evaluate` of a verifier of type `Local`
  unfoldable pub evaluate :
      List (NvDeviceReportAndCert Arch)
      → ReportData
      → Result SpdmError (List (NvDeviceReportAndCertClaim Arch))
  evaluate devices (ReportData.value expected_nonce) =
      evaluate_all devices (regularize_data expected_nonce spdm_nonce_size)
  evaluate devices ReportData.not_provided = err report_data_missing

  -- the device's report is verified against its certificates and the nonce
  abbrev pub IsAccepted : Bytes → NvDeviceReportAndCert Arch → Type 0
  IsAccepted expected_nonce device =
      (cert_chain : Bytes) × (report_bytes : Bytes) × (report : NvidiaAttestationReport)
      × (tools.is_hopper device.arch ≡ true)
      × (tools.base64_decode device.certificate ≡ some cert_chain)
      × (report_vec device ≡ some report_bytes)
      × IsVerified tools.format tools.certificates report_bytes hopper_signature_length cert_chain
          expected_nonce report

  evaluate_device_locally-IsAccepted :
      (device : NvDeviceReportAndCert Arch) (expected_nonce : Bytes)
      {claim : NvDeviceReportAndCertClaim Arch}
      → evaluate_device_locally device expected_nonce ≡ ok claim
      → IsAccepted expected_nonce device
  unfolding evaluate_device_locally
  evaluate_device_locally-IsAccepted device nonce h =
      let hopper = >>=-eq-ok (guard (tools.is_hopper device.arch) architecture_unsupported) _ h in
      let chain =
        >>=-eq-ok (ok_or (tools.base64_decode device.certificate) not_base64) _ hopper.2 in
      let bytes = >>=-eq-ok (ok_or (report_vec device) not_base64) _ chain.2 in
      let report =
        >>=-eq-ok
          (try_new tools.format tools.certificates bytes.0 hopper_signature_length chain.0 nonce) _
          bytes.2 in
      (
        chain.0,
        bytes.0,
        report.0,
        guard-ok _ _ hopper.1,
        ok_or-ok _ _ chain.1,
        ok_or-ok _ _ bytes.1,
        try_new-IsVerified tools.format tools.certificates bytes.0 hopper_signature_length chain.0
            nonce report.0 report.1,
      )

  evaluate_all-IsAccepted :
      (devices : List (NvDeviceReportAndCert Arch)) (expected_nonce : Bytes)
      {claims : List (NvDeviceReportAndCertClaim Arch)}
      → evaluate_all devices expected_nonce ≡ ok claims
      → All (IsAccepted expected_nonce) devices
  unfolding evaluate_all
  evaluate_all-IsAccepted [] nonce h = tt
  evaluate_all-IsAccepted (device ∷ devices) nonce h =
      let one = >>=-eq-ok (evaluate_device_locally device nonce) _ h in
      let rest = >>=-eq-ok (evaluate_all devices nonce) _ one.2 in
      (
        evaluate_device_locally-IsAccepted device nonce one.1,
        evaluate_all-IsAccepted devices nonce rest.1,
      )

  -- Claims are made only when the report of every device in the list, none left out, is verified
  -- against the expected nonce, regularized to 32 bytes.
  pub evaluate-IsAccepted :
      (devices : List (NvDeviceReportAndCert Arch)) (expected_nonce : Bytes)
      (claims : List (NvDeviceReportAndCertClaim Arch))
      → evaluate devices (ReportData.value expected_nonce) ≡ ok claims
      → All (IsAccepted (regularize_data expected_nonce spdm_nonce_size)) devices
  unfolding evaluate
  evaluate-IsAccepted devices nonce claims h =
      evaluate_all-IsAccepted devices (regularize_data nonce spdm_nonce_size) h
