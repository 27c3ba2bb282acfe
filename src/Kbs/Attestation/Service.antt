-- ===== src/Kbs/Attestation/Service.antt =====
-- The handlers of `AttestationService` in kbs/src/attestation/backend.rs.
use Prim.Native.Char.{code}
use trustmee_artifact.Prelude.{
  Bytes, ℕ, ◌+◌, String, ◌&&◌, not, Option, none, some, List, [], ◌∷◌, str_eq, ◌==◌, if◌then◌else◌,
  Result, ok, err, panic, ok_or,
}
use trustmee_artifact.Kbs.Prometheus.{inc}
use trustmee_artifact.Kbs.Session
use trustmee_artifact.Kbs.Session.{
  Request, Challenge, SessionStatus, authed, attested, Cookie, ConcurrentMap, is_expired, cookie,
}
use trustmee_artifact.Kbs.Attestation.{
  Version, kbs_version, Attestation, additional, primary, IndependentEvidence, Libraries, Attest,
  AttestationError, deserialize_request, parse_version_failed, version_mismatch,
  generate_challenge_failed, cookie_not_found, deserialize_attestation, no_session, session_expired,
  serialize_token_failed, serialize_attestation_failed, nonce_mismatch, deserialize_additional,
  serialize_tee_failed, verify_failed, not_authorized, deserialize_set_policy, set_policy_failed,
  register_failed, query_failed, no_reference_value, serialize_value_failed, Metrics, Response,
  challenge_body, token_body, is_empty,
}

-- `trim_start_matches('"')` and `trim_end_matches('"')`
unfoldable pub trim_start : String → String
trim_start String.[] = String.[]
trim_start (String.◌∷◌ c s) =
    let rest = trim_start s in if code c == b'"' then rest else String.◌∷◌ c s

unfoldable pub trim_end : String → String
trim_end String.[] = String.[]
trim_end (String.◌∷◌ c s) =
    let rest = trim_end s in
    if (code c == b'"') && is_empty rest then String.[] else String.◌∷◌ c rest

pub record AttestationService (B : Type 0) (Map : Type 0) : Type 0 where
  pub inner : B
  pub session_map : Map
  pub timeout : ℕ
  pub metrics : Metrics

-- What the first step of `attest` ends with: a result, or the session and the evidence to verify.
pub data Begun (Tee : Type 0) (Json : Type 0) : Type 0 where
  finished : Result AttestationError (Response Json) → Begun Tee Json
  prepared : String → List (IndependentEvidence Tee Json) → Begun Tee Json

-- the metrics that a handler moves
abbrev pub count_auth_request : Metrics → Metrics
count_auth_request m = record m { auth_requests = m.auth_requests + 1 }

abbrev pub count_auth_error : Metrics → Metrics
count_auth_error m = record m { auth_errors = m.auth_errors + 1 }

abbrev pub count_auth_success : Metrics → Metrics
count_auth_success m = record m { auth_successes = m.auth_successes + 1 }

abbrev pub count_request : Metrics → Metrics
count_request m = record m { attestation_requests = m.attestation_requests + 1 }

abbrev pub count_error : Metrics → Metrics
count_error m = record m { attestation_errors = m.attestation_errors + 1 }

abbrev pub count_success : String → Metrics → Metrics
count_success label m = record m { attestation_successes = inc label m.attestation_successes }

abbrev pub count_failure : String → Metrics → Metrics
count_failure label m = record m { attestation_failures = inc label m.attestation_failures }

module _ {B : Type 0} (libs : Libraries) (maps : ConcurrentMap (SessionStatus libs.Tee libs.Json))
    (inner : Attest libs.Tee libs.Json B) where
  open libs use {Tee, Json}

  abbrev pub Service : Type 0
  Service = AttestationService B maps.Map

  abbrev pub with_metrics : (Metrics → Metrics) → Service → Service
  with_metrics f s = record s { metrics = f s.metrics }

  -- the tail of `__auth`, behind the generated challenge
  unfoldable pub finish_auth :
      Request Tee Json
      → Option (Challenge Json)
      → String
      → ℕ
      → Service
      → Result AttestationError (Response Json) × Service
  finish_auth request none i now s =
      (err generate_challenge_failed, with_metrics count_auth_error s)
  finish_auth request (some challenge) i now s =
      let session = Session.auth request s.timeout challenge i now in
      (
        ok (record { cookie = cookie session; body = challenge_body challenge }),
        record s {
          session_map = maps.insert i session s.session_map;
          metrics = count_auth_success s.metrics;
        },
      )

  unfoldable pub check_version :
      Request Tee Json
      → Option Version
      → String
      → ℕ
      → Service
      → Result AttestationError (Response Json) × Service
  unfolding finish_auth
  check_version request none i now s = (err parse_version_failed, with_metrics count_auth_error s)
  check_version request (some version) i now s =
      if not (libs.version_matches kbs_version version)
      then (err version_mismatch, with_metrics count_auth_error s)
      else finish_auth request (inner.generate_challenge request.tee request.extra_params s.inner) i
          now s

  unfoldable pub auth_request :
      Option (Request Tee Json)
      → String
      → ℕ
      → Service
      → Result AttestationError (Response Json) × Service
  unfolding check_version
  auth_request none i now s = (err deserialize_request, with_metrics count_auth_error s)
  auth_request (some request) i now s =
      check_version request (libs.parse_version request.version) i now s

  -- `__auth`, with the id that the new session is given and the time
  unfoldable pub auth :
      Bytes → String → ℕ → Service → Result AttestationError (Response Json) × Service
  unfolding auth_request
  auth body i now s =
      auth_request (libs.parse_request body) i now (with_metrics count_auth_request s)

  -- `additional_evidence`, an entry each
  unfoldable pub additional_list :
      Json → String → List (Tee × Json) → List (IndependentEvidence Tee Json)
  additional_list tee_pubkey nonce [] = []
  additional_list tee_pubkey nonce ((tee, evidence) ∷ rest) =
      record {
        tee = tee;
        tee_evidence = evidence;
        runtime_data = additional tee_pubkey nonce;
        init_data = none;
      }
      ∷ additional_list tee_pubkey nonce rest

  unfoldable pub primary_evidence : Tee → String → Attestation Json → IndependentEvidence Tee Json
  primary_evidence tee nonce attestation = record {
    tee = tee;
    tee_evidence = attestation.primary_evidence;
    runtime_data = primary attestation.tee_pubkey nonce attestation.additional_evidence;
    init_data = attestation.init_data;
  }

  -- `evidence_to_verify`
  unfoldable pub collect_evidence :
      Tee → String → Attestation Json → Option (List (IndependentEvidence Tee Json))
  unfolding additional_list primary_evidence
  collect_evidence tee nonce attestation =
      if is_empty attestation.additional_evidence
      then some (primary_evidence tee nonce attestation ∷ [])
      else elim (libs.parse_additional attestation.additional_evidence) [
        | none ↦ none
        | some entries ↦ some (
            primary_evidence tee nonce attestation
            ∷ additional_list attestation.tee_pubkey nonce entries)
      ]

  -- The state machine's two cases, for a session that has not expired
  unfoldable pub begin_with :
      Attestation Json → String → SessionStatus Tee Json → Service → Begun Tee Json × Service
  unfolding collect_evidence
  begin_with attestation session_id (attested token i t) s = elim (libs.token_to_string token) [
    | none ↦ (finished (err serialize_token_failed), with_metrics count_error s)
    | some body ↦ (
      finished (ok (record { cookie = record { value = i; expires = t }; body = token_body body })),
      s,
    )
  ]
  begin_with attestation session_id (authed request challenge i t) s =
      elim (libs.attestation_to_string attestation) [
        | none ↦ (finished (err serialize_attestation_failed), with_metrics count_error s)
        | some shown ↦
            if not (str_eq challenge.nonce attestation.nonce)
            then (finished (err nonce_mismatch), s)
            else elim (collect_evidence request.tee challenge.nonce attestation) [
              | none ↦ (finished (err deserialize_additional), with_metrics count_error s)
              | some evidence ↦ (prepared session_id evidence, s)
            ]
      ]

  unfoldable pub begin_session :
      Attestation Json
      → String
      → Option (SessionStatus Tee Json)
      → ℕ
      → Service
      → Begun Tee Json × Service
  unfolding begin_with
  begin_session attestation session_id none now s =
      (finished (err no_session), with_metrics count_error s)
  begin_session attestation session_id (some session) now s =
      if is_expired session now
      then (finished (err session_expired), s)
      else begin_with attestation session_id session s

  unfoldable pub begin_parsed :
      Option (Attestation Json) → String → ℕ → Service → Begun Tee Json × Service
  unfolding begin_session
  begin_parsed none session_id now s =
      (finished (err deserialize_attestation), with_metrics count_error s)
  begin_parsed (some attestation) session_id now s =
      begin_session attestation session_id (maps.get session_id s.session_map) now s

  unfoldable pub begin_cookie : Bytes → Option String → ℕ → Service → Begun Tee Json × Service
  unfolding begin_parsed
  begin_cookie body none now s = (finished (err cookie_not_found), with_metrics count_error s)
  begin_cookie body (some session_id) now s =
      begin_parsed (libs.parse_attestation body) session_id now s

  -- `__attest` up to where it gives the session up, with the cookie of the request and the time
  unfoldable pub begin_attest : Bytes → Option String → ℕ → Service → Begun Tee Json × Service
  unfolding begin_cookie
  begin_attest body cookie now s = begin_cookie body cookie now (with_metrics count_request s)

  -- behind `verify`
  unfoldable pub conclude :
      String
      → SessionStatus Tee Json
      → String
      → Result (Unit {0}) String
      → Service
      → Result AttestationError (Response Json) × Service
  conclude session_id session label panic s = (panic, s)
  conclude session_id session label (err e) s =
      (err verify_failed, with_metrics (count_failure label) s)
  conclude session_id session label (ok token) s = elim (libs.token_to_string token) [
    | none ↦ (err serialize_token_failed, with_metrics (λ m. count_error (count_success label m)) s)
    | some body ↦ (
      ok (record { cookie = cookie (Session.attest session token); body = token_body body }),
      record s {
        session_map = maps.write session_id (Session.attest session token) s.session_map;
        metrics = count_success label s.metrics;
      },
    )
  ]

  -- `session.request()` panics unless the session is `Authed`
  unfoldable pub finish_session :
      String
      → List (IndependentEvidence Tee Json)
      → Option (SessionStatus Tee Json)
      → Service
      → Result AttestationError (Response Json) × Service
  unfolding conclude trim_start trim_end
  finish_session session_id evidence none s = (err no_session, with_metrics count_error s)
  finish_session session_id evidence (some (attested token i t)) s = (panic, s)
  finish_session session_id evidence (some (authed request challenge i t)) s =
      elim (libs.tee_to_string request.tee) [
        | none ↦ (err serialize_tee_failed, s)
        | some name ↦
            conclude session_id (authed request challenge i t) (trim_end (trim_start name))
              (inner.verify evidence s.inner) s
      ]

  -- `__attest` from where it takes the session again; the session is held until the end
  unfoldable pub finish_attest :
      String
      → List (IndependentEvidence Tee Json)
      → Service
      → Result AttestationError (Response Json) × Service
  unfolding finish_session
  finish_attest session_id evidence s =
      finish_session session_id evidence (maps.get session_id s.session_map) s

  unfoldable pub continue_attest :
      Begun Tee Json × Service → Result AttestationError (Response Json) × Service
  unfolding finish_attest
  continue_attest (finished r, s) = (r, s)
  continue_attest (prepared session_id evidence, s) = finish_attest session_id evidence s

  -- `__attest` with no other task between its two steps
  unfoldable pub attest :
      Bytes → Option String → ℕ → Service → Result AttestationError (Response Json) × Service
  unfolding continue_attest begin_attest
  attest body cookie now s = continue_attest (begin_attest body cookie now s)

  unfoldable pub token_of : Option (SessionStatus Tee Json) → ℕ → Result AttestationError String
  token_of none now = err no_session
  token_of (some session) now =
      if is_expired session now then err session_expired else elim session [
        | authed request challenge i t ↦ err not_authorized
        | attested token i t ↦ ok token
      ]

  unfoldable pub get_attest_token_from_session :
      Option String → ℕ → Service → Result AttestationError String
  unfolding token_of
  get_attest_token_from_session none now s = err cookie_not_found
  get_attest_token_from_session (some session_id) now s =
      token_of (maps.get session_id s.session_map) now

  -- the task that `new` starts, which wakes once a minute
  unfoldable pub sweep : ℕ → Service → Service
  sweep now s = record s { session_map = maps.retain (λ v. not (is_expired v now)) s.session_map }

  unfoldable pub set_policy : Bytes → Service → Result AttestationError (Unit {0}) × Service
  set_policy body s = elim (libs.parse_set_policy body) [
    | none ↦ (err deserialize_set_policy, s)
    | some (policy_id, policy) ↦ elim (inner.set_policy policy_id policy s.inner) [
      | none ↦ (err set_policy_failed, s)
      | some b ↦ (ok tt, record s { inner = b })
    ]
  ]

  unfoldable pub register_reference_value :
      String → Service → Result AttestationError (Unit {0}) × Service
  register_reference_value message s = elim (inner.register_reference_value message s.inner) [
    | none ↦ (err register_failed, s)
    | some b ↦ (ok tt, record s { inner = b })
  ]

  unfoldable pub query_reference_value : String → Service → Result AttestationError String
  query_reference_value reference_value_id s =
      elim (inner.query_reference_value reference_value_id s.inner) [
        | none ↦ err query_failed
        | some none ↦ err no_reference_value
        | some (some value) ↦ ok_or (libs.value_to_string value) serialize_value_failed
      ]
