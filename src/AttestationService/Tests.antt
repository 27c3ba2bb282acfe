-- ===== src/AttestationService/Tests.antt =====
-- Tests of the attestation service with the TDX verifier on a small quote, and the theorems at inputs
-- that meet their hypotheses.
use trustmee_artifact.Prelude.{
  accepted, Bytes, ◌≡◌, ◌≢◌, refl, Option, none, some, List, [], ◌∷◌, ok, slice, same_bytes,
}
use trustmee_artifact.Eventlog.TcgEnum.{event_type_try_from, event_type_code, get_digest_size}
use trustmee_artifact.Eventlog.Replay.{
  replay_and_match, match_all, replay, collect_digests_by_index, collect_from, accumulate_digests,
}
use trustmee_artifact.Eventlog.Parse.{
  try_from, after_initial, parse_initial_entry, initial_sizes, entries_from,
}
use trustmee_artifact.Verifier.{ReportData, regularize_data}
use trustmee_artifact.Verifier.Tdx.{
  TdxEvidence, verify_evidence, verify_quote, check_report_data, check_init_data, check_eventlog,
  check_filled, evaluate as tdx_evaluate,
}
use trustmee_artifact.Verifier.Tdx.Binding.{IsBound}
use trustmee_artifact.Verifier.Tdx.TdQuote.{
  parse_tdx_quote, pread_header, pread_body, parse_version,
}
use trustmee_artifact.Verifier.Tests.{tools, evidence}
use trustmee_artifact.AttestationService.{
  structured, InitDataInput, TeeClaims, Services, parse_runtime_data, parse_init_data, Request,
  init_data_of, verify_by, verify_request, verify_all, evaluate,
}
use trustmee_artifact.AttestationService.Binding.{AreVerified, evaluate-AreVerified}
use trustmee_artifact.AttestationService.Tdx.{token-IsBound}

-- JSON is bytes, and a digest the bytes themselves
abbrev services : Services Bytes (Unit {0}) (Unit {0})
services = record {
  null = [];
  string = λ text. 1 ∷ [];
  object = λ claims. 2 ∷ [];
  as_string = λ value. none;
  serialize_canon_json = some;
  digest = λ algorithm bytes. bytes;
  into_bytes = λ text. [];
  parse_initdata = λ text. none;
  toml_to_json = λ text. none;
  parse_json = λ text. none;
  verify = λ tee value r i. accepted (tdx_evaluate tools (λ v. some evidence) value r i);
  wasm_verifier = none;
  default_component_id = none;
  issue = λ claims ids. some "token";
}

abbrev request : Request services
request = record {
  evidence = [];
  tee = tt;
  runtime_data = some (structured (9 ∷ []));
  runtime_data_hash_algorithm = tt;
  init_data = some (InitDataInput.digest (7 ∷ []));
  verifier_component = none;
  verifier_component_id = none;
}

issued : evaluate services (request ∷ []) ("default" ∷ []) ≡ ok "token"
unfolding evaluate verify_all verify_request verify_by parse_runtime_data parse_init_data
    tdx_evaluate verify_evidence verify_quote check_report_data check_init_data check_eventlog
    check_filled regularize_data parse_tdx_quote pread_header pread_body parse_version same_bytes
    slice try_from after_initial parse_initial_entry initial_sizes event_type_try_from
    event_type_code get_digest_size entries_from replay_and_match match_all replay
    collect_digests_by_index collect_from accumulate_digests
issued = refl

evaluate-AreVerified_example :
    (◌≢◌ {A = List (Request services)} (request ∷ []) [])
    × (tee_claims : List (TeeClaims Bytes (Unit {0}))) × (services.issue tee_claims ("default" ∷ [])
        ≡ some "token")
    × AreVerified services (request ∷ []) tee_claims
evaluate-AreVerified_example =
    evaluate-AreVerified services (request ∷ []) ("default" ∷ []) "token" issued

token-IsBound_example :
    (hash_materials : Bytes) × (init : Option Bytes × Bytes) × (tdx_evidence : TdxEvidence) × (◌≡◌
      {A = Option Bytes}
      (some (9 ∷ []))
      (some hash_materials))
    × (parse_init_data services (some (InitDataInput.digest (7 ∷ []))) ≡ ok init)
    × (◌≡◌ {A = Option TdxEvidence} (some evidence) (some tdx_evidence))
    × IsBound tools (ReportData.value hash_materials) (init_data_of init.0) tdx_evidence
token-IsBound_example =
    token-IsBound services tools (λ v. some evidence) (request ∷ []) ("default" ∷ []) "token" 0
      request (9 ∷ []) refl (λ e r i. refl) issued refl refl
