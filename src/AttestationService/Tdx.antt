-- ===== src/AttestationService/Tdx.antt =====
-- The attestation service with the TDX verifier.
use mathlib.Core.Path.{subst}
use trustmee_artifact.Prelude.{
  Bytes, ℕ, String, ◌≡◌, sym, ap, ◌∙◌, Option, none, some, List, ok, ok_or, ok_or-ok, accepted,
  accepted-ok, >>=-eq-ok, get_elem?,
}
use trustmee_artifact.Verifier.{ReportData, InitDataHash}
use trustmee_artifact.Verifier.Tdx.{
  TdxTools, TdxEvidence, not_deserialized, verify_evidence, evaluate as tdx_evaluate,
}
use trustmee_artifact.Verifier.Tdx.Binding.{IsBound, verify_evidence-IsBound}
use trustmee_artifact.AttestationService.{
  structured, verifier_failed, Services, parse_init_data, Request, verify_by, report_data_of,
  init_data_of, evaluate,
}
use trustmee_artifact.AttestationService.Binding.{
  HasRuntimeData, AreVerified-get, evaluate-AreVerified,
}

module _ {Json Tee Algorithm Details Custom : Type 0} (services : Services Json Tee Algorithm)
    (tools : TdxTools Details Custom Json) (parse : Json → Option TdxEvidence) where
  evaluate-IsBound :
      (evidence : Json) (report_data : ReportData) (init_data : InitDataHash)
      {claims : List (Json × String)}
      → tdx_evaluate tools parse evidence report_data init_data ≡ ok claims
      → (tdx_evidence : TdxEvidence) × (parse evidence ≡ some tdx_evidence)
        × IsBound tools report_data init_data tdx_evidence
  unfolding tdx_evaluate
  evaluate-IsBound evidence report_data init_data h =
      let parsed = >>=-eq-ok (ok_or (parse evidence) not_deserialized) _ h in
      let claims = >>=-eq-ok (verify_evidence tools report_data init_data parsed.0) _ parsed.2 in
      (
        parsed.0,
        ok_or-ok _ _ parsed.1,
        verify_evidence-IsBound tools report_data init_data parsed.0 claims.0 claims.1,
      )

  verify_by-IsBound :
      (request : Request services) (report_data init_data : Option Bytes)
      {claims : List (Json × String)}
      → services.wasm_verifier ≡ none
      → ((evidence : Json) (r : ReportData) (i : InitDataHash)
          → services.verify request.tee evidence r i
            ≡ accepted (tdx_evaluate tools parse evidence r i))
      → verify_by services services.wasm_verifier request report_data init_data ≡ ok claims
      → (tdx_evidence : TdxEvidence) × (parse request.evidence ≡ some tdx_evidence)
        × IsBound tools (report_data_of report_data) (init_data_of init_data) tdx_evidence
  unfolding verify_by
  verify_by-IsBound request report_data init_data {claims} native dispatches h =
      evaluate-IsBound request.evidence (report_data_of report_data) (init_data_of init_data) (
        accepted-ok _ (
          sym (dispatches request.evidence (report_data_of report_data) (init_data_of init_data))
          ∙ ok_or-ok _ verifier_failed
              (ap (λ w. verify_by services w request report_data init_data) (sym native) ∙ h)))

  -- With the TDX verifier run in the service, a token for requests among which one has structured
  -- runtime data stands on a quote that passed the DCAP verification and whose report data is the digest
  -- of the canonical form of these data, regularized; its MRCONFIGID is that of the request's init data.
  pub token-IsBound :
      (requests : List (Request services)) (policy_ids : List String) (token : String) (i : ℕ)
      (request : Request services) (value : Json)
      → services.wasm_verifier ≡ none
      → ((evidence : Json) (r : ReportData) (i : InitDataHash)
          → services.verify request.tee evidence r i
            ≡ accepted (tdx_evaluate tools parse evidence r i))
      → evaluate services requests policy_ids ≡ ok token
      → get_elem? requests i ≡ some request
      → request.runtime_data ≡ some (structured value)
      → (hash_materials : Bytes) × (init : Option Bytes × Json) × (tdx_evidence : TdxEvidence)
        × (services.serialize_canon_json value ≡ some hash_materials)
        × (parse_init_data services request.init_data ≡ ok init)
        × (parse request.evidence ≡ some tdx_evidence)
        × IsBound tools
            (ReportData.value (services.digest request.runtime_data_hash_algorithm hash_materials))
            (init_data_of init.0)
            tdx_evidence
  token-IsBound requests policy_ids token i request value native dispatches h there given =
      let (some_there, tee_claims, issued, all) =
        evaluate-AreVerified services requests policy_ids token h in
      let (own, (runtime, init, claims, has_data, init_parsed, verified, same)) =
        AreVerified-get services requests tee_claims i all there in
      let (hash_materials, canonical, expected, as_claims) =
        subst (λ d. HasRuntimeData services d request.runtime_data_hash_algorithm runtime) given
          has_data in
      let (tdx_evidence, read, bound) =
        verify_by-IsBound request runtime.0 init.0 native dispatches verified in
      (
        hash_materials,
        init,
        tdx_evidence,
        canonical,
        init_parsed,
        read,
        subst (λ r. IsBound tools (report_data_of r) (init_data_of init.0) tdx_evidence) expected
            bound,
      )
