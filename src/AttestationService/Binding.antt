-- ===== src/AttestationService/Binding.antt =====
-- What an attestation token stands on.
use mathlib.Core.Path.{subst}
use trustmee_artifact.Prelude.{
  Bytes, ℕ, zero, suc, String, ◌≡◌, ◌≢◌, refl, sym, Option, none, some, List, [], ◌∷◌, ◌++◌, map,
  ok, ok_or, ok_inj, ok_or-ok, >>=-eq-ok, get_elem?,
}
use trustmee_artifact.AttestationService.{
  RuntimeData, raw, structured, parse_runtime_data_failed, TeeClaims, Services, parse_runtime_data,
  parse_init_data, Request, verify_by, tee_claims_of, verify_request, verify_all, evaluate,
}

module _ {Json Tee Algorithm : Type 0} (services : Services Json Tee Algorithm) where
  -- Raw runtime data is expected as it is; of structured data the digest of its canonical form is, and
  -- the data become claims.
  abbrev pub HasRuntimeData : Option (RuntimeData Json) → Algorithm → Option Bytes × Json → Type 0
  HasRuntimeData none algorithm (report_data, claims) =
      (report_data ≡ none) × (claims ≡ services.null)
  HasRuntimeData (some (raw bytes)) algorithm (report_data, claims) =
      (report_data ≡ some bytes) × (claims ≡ services.null)
  HasRuntimeData (some (structured value)) algorithm (report_data, claims) =
      (hash_materials : Bytes) × (services.serialize_canon_json value ≡ some hash_materials)
      × (report_data ≡ some (services.digest algorithm hash_materials))
      × (claims ≡ value)

  parse_runtime_data-HasRuntimeData :
      (runtime_data : Option (RuntimeData Json)) (algorithm : Algorithm)
      (parsed : Option Bytes × Json)
      → parse_runtime_data services runtime_data algorithm ≡ ok parsed
      → HasRuntimeData runtime_data algorithm parsed
  unfolding parse_runtime_data
  parse_runtime_data-HasRuntimeData none algorithm parsed h =
      subst (HasRuntimeData none algorithm) (ok_inj h) (refl, refl)
  parse_runtime_data-HasRuntimeData (some (raw bytes)) algorithm parsed h =
      subst (HasRuntimeData (some (raw bytes)) algorithm) (ok_inj h) (refl, refl)
  parse_runtime_data-HasRuntimeData (some (structured value)) algorithm parsed h =
      let materials =
        >>=-eq-ok (ok_or (services.serialize_canon_json value) parse_runtime_data_failed) _ h in
      subst (HasRuntimeData (some (structured value)) algorithm) (ok_inj materials.2)
        (materials.0, ok_or-ok _ _ materials.1, refl, refl)

  -- A request's claims are those that its verifier returned for its evidence against its runtime and
  -- init data, each joined with these data's claims.
  abbrev pub IsVerified : Request services → List (TeeClaims Json Tee) → Type 0
  IsVerified request tee_claims =
      (runtime init : Option Bytes × Json) × (claims : List (Json × String)) × HasRuntimeData
        request.runtime_data request.runtime_data_hash_algorithm runtime
      × (parse_init_data services request.init_data ≡ ok init)
      × (verify_by services services.wasm_verifier request runtime.0 init.0 ≡ ok claims)
      × (tee_claims ≡ map (tee_claims_of services request runtime.1 init.1) claims)

  -- the claims of the requests, one after the other
  abbrev pub AreVerified : List (Request services) → List (TeeClaims Json Tee) → Type 0
  AreVerified [] tee_claims = tee_claims ≡ []
  AreVerified (request ∷ requests) tee_claims =
      (own rest : List (TeeClaims Json Tee)) × (tee_claims ≡ own ++ rest)
      × IsVerified request own
      × AreVerified requests rest

  verify_request-IsVerified :
      (request : Request services) (tee_claims : List (TeeClaims Json Tee))
      → verify_request services request ≡ ok tee_claims
      → IsVerified request tee_claims
  unfolding verify_request
  verify_request-IsVerified request tee_claims h =
      let runtime =
        >>=-eq-ok
          (parse_runtime_data services request.runtime_data request.runtime_data_hash_algorithm) _
          h in
      let init = >>=-eq-ok (parse_init_data services request.init_data) _ runtime.2 in
      let claims =
        >>=-eq-ok (verify_by services services.wasm_verifier request runtime.0.0 init.0.0) _
          init.2 in
      (
        runtime.0,
        init.0,
        claims.0,
        parse_runtime_data-HasRuntimeData request.runtime_data request.runtime_data_hash_algorithm
            runtime.0 runtime.1,
        init.1,
        claims.1,
        sym (ok_inj claims.2),
      )

  verify_all-AreVerified :
      (requests : List (Request services)) (tee_claims : List (TeeClaims Json Tee))
      → verify_all services requests ≡ ok tee_claims
      → AreVerified requests tee_claims
  unfolding verify_all
  verify_all-AreVerified [] tee_claims h = sym (ok_inj h)
  verify_all-AreVerified (request ∷ requests) tee_claims h =
      let own = >>=-eq-ok (verify_request services request) _ h in
      let rest = >>=-eq-ok (verify_all services requests) _ own.2 in
      (
        own.0,
        rest.0,
        sym (ok_inj rest.2),
        verify_request-IsVerified request own.0 own.1,
        verify_all-AreVerified requests rest.0 rest.1,
      )

  -- A token is what the broker issues, under the policies asked for, for the claims of every request
  -- and no others: each is the answer of the request's verifier to its evidence, against its runtime and
  -- init data. There is at least one request.
  pub evaluate-AreVerified :
      (requests : List (Request services)) (policy_ids : List String) (token : String)
      → evaluate services requests policy_ids ≡ ok token
      → (requests ≢ [])
        × (tee_claims : List (TeeClaims Json Tee)) × (services.issue tee_claims policy_ids
            ≡ some token)
        × AreVerified requests tee_claims
  unfolding evaluate
  evaluate-AreVerified [] policy_ids token h = cc
  evaluate-AreVerified (request ∷ requests) policy_ids token h =
      let claims = >>=-eq-ok (verify_all services (request ∷ requests)) _ h in
      (
        λ e. cc,
        claims.0,
        ok_or-ok _ _ claims.2,
        verify_all-AreVerified (request ∷ requests) claims.0 claims.1,
      )

  pub AreVerified-get :
      (requests : List (Request services)) (tee_claims : List (TeeClaims Json Tee)) (i : ℕ)
      {request : Request services}
      → AreVerified requests tee_claims
      → get_elem? requests i ≡ some request
      → (own : List (TeeClaims Json Tee)) × IsVerified request own
  AreVerified-get [] tee_claims i all h = cc
  AreVerified-get (r ∷ requests) tee_claims zero (own, rest, joined, verified, others) h =
      (own, subst (λ q. IsVerified q own) (only h) verified)
    where
      only :
          {a b : Request services} → ◌≡◌ {A = Option (Request services)} (some a) (some b) → a ≡ b
      only e = cc
  AreVerified-get (r ∷ requests) tee_claims (suc i) (own, rest, joined, verified, others) h =
      AreVerified-get requests rest i others h
