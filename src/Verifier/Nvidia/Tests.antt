-- ===== src/Verifier/Nvidia/Tests.antt =====
-- Tests of the NVIDIA verifier on a small report, and the theorems at inputs that meet their hypotheses.
use trustmee_artifact.Prelude.{
  if◌then◌else◌, leb, length, Bytes, String, ◌≡◌, ◌≢◌, refl, Bool, true, some, [], ◌∷◌, ◌++◌,
  str_eq, All, replicate, ok, panic, slice, same_bytes,
}
use trustmee_artifact.Prelude.Dict.{Dict, get, insert}
use trustmee_artifact.Verifier.{ReportData, regularize_data}
use trustmee_artifact.Verifier.Nvidia.Request.{request_fields, decode_request}
use trustmee_artifact.Verifier.Nvidia.DataType.{from_u16, name}
use trustmee_artifact.Verifier.Nvidia.Measurements.{MeasurementBlock, decode_record}
use trustmee_artifact.Verifier.Nvidia.Measurements.RoundTrip.{encode_blocks, decode_record-encode}
use trustmee_artifact.Verifier.Nvidia.OpaqueData.{
  Value, string, Format, counts_from, format_vbios_version, item_data, read_item, items_from,
  decode_opaque,
}
use trustmee_artifact.Verifier.Nvidia.OpaqueData.Keys.{items_from-keeps}
use trustmee_artifact.Verifier.Nvidia.OpaqueData.Counts.{first_count_replaced}
use trustmee_artifact.Verifier.Nvidia.Response.{
  SpdmGetMeasurementsResponse, read_record, read_opaque, response_fields, decode_response,
}
use trustmee_artifact.Verifier.Nvidia.Response.Layout.{
  HasLayout, decode_response-ne-panic, decode_response-HasLayout,
}
use trustmee_artifact.Verifier.Nvidia.CertChain.{
  certificate_fingerprint, get_fwid_from_cert, Certificates, check_root_ca_is_trusted, verify_chain,
}
use trustmee_artifact.Verifier.Nvidia.Report.{
  NvidiaAttestationReport, get_fwid, validate_nonce, decode_report, verify_signature, try_new,
}
use trustmee_artifact.Verifier.Nvidia.Report.Verified.{IsVerified, try_new-IsVerified}
use trustmee_artifact.Verifier.Nvidia.Devices.{
  NvDeviceReportAndCert, DeviceTools, claim_of, evaluate_device_locally, evaluate_all, evaluate,
  IsAccepted, evaluate-IsAccepted,
}

abbrev format : Format
format = record {
  hex = λ bytes. "h";
  hex_byte = λ byte. "b";
  from_utf8_lossy = λ bytes. "t";
  trim_end_nul = λ text. text;
  decimal = λ n. "n";
}

-- a measurement block with two bytes
abbrev block : MeasurementBlock
block = record {
  index = 1;
  measurement_specification = 1;
  measurement_size = 5;
  measurement = record { value_type = 2; size = 2; value = 8 ∷ 9 ∷ [] };
}

decode_record-encode_example :
    decode_record 2 (encode_blocks (block ∷ block ∷ []) (7 ∷ [])) ≡ ok (block ∷ block ∷ [])
decode_record-encode_example =
    decode_record-encode (block ∷ block ∷ []) (7 ∷ [])
      ((refl, refl, refl), ((refl, refl, refl), tt))

-- a VBIOS version of two bytes, a driver version of one and an FWID of one
abbrev opaque_bytes : Bytes
opaque_bytes = 6 ∷ 0 ∷ 2 ∷ 0 ∷ 5 ∷ 4 ∷ 3 ∷ 0 ∷ 1 ∷ 0 ∷ 65 ∷ 20 ∷ 0 ∷ 1 ∷ 0 ∷ 66 ∷ []

abbrev opaque_items : Dict Value
opaque_items =
    ("vbios_version", string "b.b") ∷ ("driver_version", string "t") ∷ ("fwid", string "h") ∷ []

items_decoded : items_from format 16 opaque_bytes 0 [] ≡ ok opaque_items
unfolding items_from read_item from_u16 item_data format_vbios_version name get insert slice
items_decoded = refl

-- what the first turn of the loop has read
last_items_decoded :
    items_from format 15 opaque_bytes 6 (("vbios_version", string "b.b") ∷ []) ≡ ok opaque_items
unfolding items_from read_item from_u16 item_data format_vbios_version name get insert slice
last_items_decoded = refl

found : get "vbios_version" (("vbios_version", string "b.b") ∷ []) ≡ some (string "b.b")
unfolding get
found = refl

items_from-keeps_example : get "vbios_version" opaque_items ≡ some (string "b.b")
items_from-keeps_example =
    items_from-keeps format 15 opaque_bytes 6 (("vbios_version", string "b.b") ∷ []) opaque_items
      "vbios_version" (string "b.b") last_items_decoded found

opaque_decoded : decode_opaque format opaque_bytes ≡ ok opaque_items
unfolding decode_opaque items_from read_item from_u16 item_data format_vbios_version name get insert
    slice
opaque_decoded = refl

-- a response without measurements
abbrev response_bytes : Bytes
response_bytes =
    17
    ∷ 96
    ∷ 0
    ∷ 0
    ∷ 0
    ∷ 0
    ∷ 0
    ∷ 0
    ∷ (replicate 32 1 ++ (16 ∷ 0 ∷ (opaque_bytes ++ replicate 96 2)))

abbrev response : SpdmGetMeasurementsResponse
response = record {
  spdm_version = 17;
  request_response_code = 96;
  param1 = 0;
  param2 = 0;
  number_of_blocks = 0;
  measurement_record_length = 0;
  measurement_record = [];
  nonce = replicate 32 1;
  opaque_data_length = 16;
  opaque_data = opaque_items;
  signature = replicate 96 2;
}

response_decoded : decode_response format response_bytes 96 ≡ ok (response, 154)
unfolding decode_response response_fields read_record read_opaque decode_opaque items_from read_item
    from_u16 item_data format_vbios_version name get insert slice
response_decoded = refl

decode_response-HasLayout_example : HasLayout format response_bytes 96 (response, 154)
decode_response-HasLayout_example =
    decode_response-HasLayout format response_bytes 96 (response, 154) response_decoded

decode_response-ne-panic_example : decode_response format response_bytes 96 ≢ panic
decode_response-ne-panic_example = decode_response-ne-panic format response_bytes 96

-- certificates are texts, and the leaf signs everything
abbrev certificates : Certificates String
certificates = record {
  stack_from_pem = λ bytes. some ("leaf" ∷ "root" ∷ []);
  root_ca = "root";
  sha1_digest = λ cert. some (if str_eq cert "root" then [] else 1 ∷ []);
  hex = λ bytes. if leb 48 (length bytes) then "h" else "root";
  fwid_extension = λ cert. some (replicate 50 7);
  verify_cert = λ root leaf others. str_eq leaf "leaf";
  verify_ecdsa = λ cert signed r s. some (str_eq cert "leaf");
}

abbrev report_bytes : Bytes
report_bytes = 17 ∷ 224 ∷ 0 ∷ 0 ∷ ((5 ∷ replicate 31 0) ++ (0 ∷ response_bytes))

abbrev report : NvidiaAttestationReport
report = record {
  request = record {
    spdm_version = 17;
    request_response_code = 224;
    param1 = 0;
    param2 = 0;
    nonce = 5 ∷ replicate 31 0;
    slot_id_param = 0;
  };
  response = response;
}

accepted : try_new format certificates report_bytes 96 [] (5 ∷ replicate 31 0) ≡ ok report
unfolding try_new decode_report decode_request request_fields verify_signature get_fwid verify_chain
    certificate_fingerprint get_fwid_from_cert check_root_ca_is_trusted validate_nonce same_bytes
    decode_response response_fields read_record read_opaque decode_opaque items_from read_item
    from_u16 item_data format_vbios_version name get insert slice
accepted = refl

try_new-IsVerified_example :
    IsVerified format certificates report_bytes 96 [] (5 ∷ replicate 31 0) report
try_new-IsVerified_example =
    try_new-IsVerified format certificates report_bytes 96 [] (5 ∷ replicate 31 0) report accepted

abbrev device : NvDeviceReportAndCert Bool
device = record { arch = true; uuid = "id"; evidence = "hex"; certificate = "pem" }

abbrev tools : DeviceTools Bool String
tools = record {
  is_hopper = λ arch. arch;
  format = format;
  certificates = certificates;
  hex_decode = λ text. some report_bytes;
  base64_decode = λ text. some [];
}

evaluated :
    evaluate tools (device ∷ []) (ReportData.value (5 ∷ []))
    ≡ ok (claim_of tools device report ∷ [])
unfolding evaluate evaluate_all evaluate_device_locally regularize_data try_new decode_report
    decode_request request_fields verify_signature get_fwid verify_chain certificate_fingerprint
    get_fwid_from_cert check_root_ca_is_trusted validate_nonce same_bytes decode_response
    response_fields read_record read_opaque decode_opaque items_from read_item from_u16 item_data
    format_vbios_version name get insert slice
evaluated = refl

evaluate-IsAccepted_example : All (IsAccepted tools (regularize_data (5 ∷ []) 32)) (device ∷ [])
evaluate-IsAccepted_example =
    evaluate-IsAccepted tools (device ∷ []) (5 ∷ []) (claim_of tools device report ∷ []) evaluated

first_count_replaced_example :
    get "n" (counts_from format ((1 ∷ []) ∷ (replicate 255 (2 ∷ []) ++ ((3 ∷ []) ∷ []))) 1 [])
    ≡ some 3
first_count_replaced_example =
    first_count_replaced format (1 ∷ []) (3 ∷ []) (replicate 255 (2 ∷ [])) refl
