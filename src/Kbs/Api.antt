-- ===== src/Kbs/Api.antt =====
-- kbs/src/api_server.rs: the handler `api`, which every request below /kbs/v0 reaches. The token
-- verifier, the policy engine, `jwe` and serde_json are in `Parts`; plugins share the state `W`.
pub mod Handler
pub mod Access
pub mod Secrets
pub mod Trusted
use trustmee_artifact.Prelude.{
  Bytes, ℕ, zero, suc, ◌+◌, ◌-◌, ◌*◌, ◌/◌, ◌%◌, ◌^◌, ◌≤◌, ◌<◌, String, ◌≡◌, refl, sym, ap, ◌∙◌, ◌≢◌,
  ◌↔◌, ◌⊎◌, inl, inr, Bool, true, false, ◌&&◌, ◌||◌, not, Option, none, some, List, [], ◌∷◌, ◌++◌,
  map, arith, str_eq, eq_iff, ltb, leb, ◌==◌, if◌then◌else◌, Bool-cases, Option-cases, length,
  get_elem?, take, drop, replicate, All, length-append, length-take, length-drop, Result, ok, err,
  panic, ◌>>=◌, ◌>>◌, ok_or, guard, map_err, >>=-eq-ok, ==_iff,
}
use trustmee_artifact.Prelude.Dict
use trustmee_artifact.Prelude.Dict.{Dict}
use trustmee_artifact.Kbs.UrlPath.{split, join}
use trustmee_artifact.Kbs.Session.{SessionStatus, ConcurrentMap}
use trustmee_artifact.Kbs.Attestation.{Libraries, Attest, AttestationError, Response}
use trustmee_artifact.Kbs.Attestation.Service as As
use trustmee_artifact.Kbs.Attestation.Service.{Service}
use trustmee_artifact.Kbs.Admin.{AdminBackend, AdminError, validate_admin_token}
use trustmee_artifact.Kbs.PluginManager.{ClientPlugin, Query}

-- kbs/src/error.rs, the errors that a request can end with
pub data Error : Type 0 where
  admin_auth : AdminError → Error
  attestation_error : AttestationError → Error
  invalid_request_path jwe_error plugin_internal_error policy_deny policy_engine_error : Error
  plugin_not_found : String → Error
  rvps_error serde_error token_not_found token_verifier_error : Error

-- `ResponseError::error_response`: the status of an error
abbrev pub status : Error → ℕ
status invalid_request_path = 404
status (plugin_not_found name) = 404
status _ = 401

-- the body of a response, by its content type and where it comes from
pub data Reply (Json : Type 0) : Type 0 where
  session : Response Json → Reply Json
  empty : Reply Json
  json : String → Reply Json
  policy_text : String → Reply Json
  plain : Bytes → Reply Json
  encrypted : String → Reply Json

pub record HttpRequest : Type 0 where
  pub method : String
  pub session_cookie : Option String
  pub bearer : Option String

-- `policy_data`
pub record PolicyData : Type 0 where
  pub plugin : String
  pub resource_path : List String
  pub query : Query

-- Parts of the server that `api` only calls; `none` is an error. `P` is the policy engine's state.
pub record Parts (Claims : Type 0) (Key : Type 0) (P : Type 0) : Type 0 where
  pub admin : Option String → Result AdminError (Unit {0})
  pub verify : String → Option Claims
  pub claims_to_string : Claims → Option String
  pub evaluate : PolicyData → String → P → Option Bool
  pub set_policy : Bytes → P → Option P
  pub get_policy : P → Option String
  pub extract_tee_public_key : Claims → Option Key
  pub jwe : Key → Bytes → Option String
  pub from_utf8 : Bytes → Option String

module _ {B Claims Key P E W : Type 0} (libs : Libraries)
    (maps : ConcurrentMap (SessionStatus libs.Tee libs.Json)) (inner : Attest libs.Tee libs.Json B)
    (parts : Parts Claims Key P) (plugins : Dict (ClientPlugin E W)) where
  open libs use {Json}

  pub record ApiServer : Type 0 where
    pub attestation_service : Service libs maps inner
    pub policy_engine : P
    pub world : W
    pub policy_evals : ℕ
    pub policy_errors : ℕ
    pub policy_violations : ℕ
    pub policy_approvals : ℕ

  abbrev pub Outcome : Type 0
  Outcome = Result Error (Reply Json) × ApiServer

  -- the attestation service's result as the server's
  unfoldable pub from_service :
      {A : Type 0}
      → (AttestationError → Error)
      → (A → Reply Json)
      → ApiServer
      → Result AttestationError A × Service libs maps inner
      → Outcome
  from_service of_error reply core (ok a, s) =
      (ok (reply a), record core { attestation_service = s })
  from_service of_error reply core (err e, s) =
      (err (of_error e), record core { attestation_service = s })
  from_service of_error reply core (panic, s) = (panic, record core { attestation_service = s })

  -- `core.admin.validate_admin_token(&request)?` in front of the rest
  unfoldable pub as_admin : HttpRequest → ApiServer → Outcome → Outcome
  as_admin request core rest = elim (parts.admin request.bearer) [
    | ok _ ↦ rest
    | err e ↦ (err (admin_auth e), core)
    | panic ↦ (panic, core)
  ]

  -- "resource-policy"
  unfoldable pub set_resource_policy : Bytes → ApiServer → Outcome
  set_resource_policy body core = elim (parts.set_policy body core.policy_engine) [
    | none ↦ (err policy_engine_error, core)
    | some p ↦ (ok empty, record core { policy_engine = p })
  ]

  unfoldable pub get_resource_policy : ApiServer → Outcome
  get_resource_policy core = elim (parts.get_policy core.policy_engine) [
    | none ↦ (err policy_engine_error, core)
    | some policy ↦ (ok (policy_text policy), core)
  ]

  -- "reference-value"
  unfoldable pub query_reference_value : List String → ApiServer → Outcome
  query_reference_value path core =
      from_service (λ e. rvps_error) json core
        (
          As.query_reference_value libs maps inner (join path) core.attestation_service,
          core.attestation_service,
        )

  unfoldable pub register_reference_value : Bytes → ApiServer → Outcome
  unfolding from_service
  register_reference_value body core = elim (parts.from_utf8 body) [
    | none ↦ (err rvps_error, core)
    | some message ↦
        from_service (λ e. rvps_error) (λ u. empty) core
          (As.register_reference_value libs maps inner message core.attestation_service)
  ]

  -- `get_attestation_token`
  unfoldable pub get_attestation_token : HttpRequest → ℕ → ApiServer → Option String
  get_attestation_token request now core =
      elim (As.get_attest_token_from_session libs maps inner request.session_cookie now
        core.attestation_service) [ ok token ↦ some token | _ ↦ request.bearer ]
