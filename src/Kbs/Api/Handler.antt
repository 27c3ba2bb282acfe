-- ===== src/Kbs/Api/Handler.antt =====
-- The routes of `api` in kbs/src/api_server.rs, and the calls of a plugin.
use trustmee_artifact.Prelude.{
  Bytes, ℕ, ◌+◌, String, Bool, true, false, ◌&&◌, Option, none, some, List, [], ◌∷◌, str_eq,
  if◌then◌else◌, Result, ok, err, panic, ◌>>=◌, ok_or, map_err,
}
use trustmee_artifact.Prelude.Dict
use trustmee_artifact.Prelude.Dict.{Dict}
use trustmee_artifact.Kbs.UrlPath.{split}
use trustmee_artifact.Kbs.Session.{SessionStatus, ConcurrentMap}
use trustmee_artifact.Kbs.Attestation.{Libraries, Attest}
use trustmee_artifact.Kbs.Attestation.Service as As
use trustmee_artifact.Kbs.Attestation.Service.{Service}
use trustmee_artifact.Kbs.PluginManager.{ClientPlugin, Query}
use trustmee_artifact.Kbs.Api.{
  Error, attestation_error, invalid_request_path, jwe_error, plugin_internal_error, policy_deny,
  policy_engine_error, plugin_not_found, serde_error, token_not_found, token_verifier_error, Reply,
  session, empty, plain, encrypted, HttpRequest, Parts, ApiServer, Outcome, from_service, as_admin,
  set_resource_policy, get_resource_policy, query_reference_value, register_reference_value,
  get_attestation_token,
}

module _ {B Claims Key P E W : Type 0} (libs : Libraries)
    (maps : ConcurrentMap (SessionStatus libs.Tee libs.Json)) (inner : Attest libs.Tee libs.Json B)
    (parts : Parts Claims Key P) (plugins : Dict (ClientPlugin E W)) where
  open libs use {Json}

  abbrev Core : Type 0
  Core = ApiServer libs maps inner parts plugins

  abbrev Out : Type 0
  Out = Outcome libs maps inner parts plugins

  -- a plugin's `handle`, with its error as the server's and its state written back
  unfoldable pub call_plugin :
      ClientPlugin E W → Bytes → Query → List String → String → Core → Result Error Bytes × Core
  call_plugin plugin body query path method core =
      let (r, w) = plugin.handle body query path method core.world in
      (map_err (λ e. plugin_internal_error) r, record core { world = w })

  -- the answer to an administrator
  unfoldable pub plain_reply : Result Error Bytes × Core → Out
  plain_reply (ok response, core) = (ok (plain response), core)
  plain_reply (err e, core) = (err e, core)
  plain_reply (panic, core) = (panic, core)

  unfoldable pub encrypt : Claims → Bytes → Result Error (Reply Json)
  encrypt claims response = do
    key ← ok_or (parts.extract_tee_public_key claims) token_verifier_error
    text ← ok_or (parts.jwe key response) jwe_error
    ok (encrypted text)

  -- the answer to an attested client
  unfoldable pub client_reply :
      ClientPlugin E W
      → Bytes
      → Query
      → List String
      → String
      → Claims
      → Result Error Bytes × Core
      → Out
  unfolding encrypt
  client_reply plugin body query path method claims (err e, core) = (err e, core)
  client_reply plugin body query path method claims (panic, core) = (panic, core)
  client_reply plugin body query path method claims (ok response, core) =
      elim (plugin.encrypted body query path method core.world) [
        | err e ↦ (err plugin_internal_error, core)
        | panic ↦ (panic, core)
        | ok true ↦ (encrypt claims response, core)
        | ok false ↦ (ok (plain response), core)
      ]

  abbrev pub count_eval : Core → Core
  count_eval core = record core { policy_evals = core.policy_evals + 1 }

  -- behind the verified token: the policy decides
  unfoldable pub by_policy :
      ClientPlugin E W
      → String
      → Bytes
      → Query
      → List String
      → String
      → Claims
      → Option Bool
      → Core
      → Out
  unfolding client_reply call_plugin
  by_policy plugin name body query path method claims none core =
      (err policy_engine_error, record core { policy_errors = core.policy_errors + 1 })
  by_policy plugin name body query path method claims (some false) core =
      (err policy_deny, record core { policy_violations = core.policy_violations + 1 })
  by_policy plugin name body query path method claims (some true) core =
      client_reply plugin body query path method claims (
        call_plugin plugin body query path method
          (record core { policy_approvals = core.policy_approvals + 1 }))

  with_claims :
      ClientPlugin E W
      → String
      → Bytes
      → Query
      → List String
      → String
      → Claims
      → Option String
      → Core
      → Out
  unfolding by_policy
  with_claims plugin name body query path method claims none core = (err serde_error, core)
  with_claims plugin name body query path method claims (some text) core =
      by_policy plugin name body query path method claims
        (parts.evaluate (record { plugin = name; resource_path = path; query = query }) text
          core.policy_engine)
        (count_eval core)

  with_verified :
      ClientPlugin E W → String → Bytes → Query → List String → String → Option Claims → Core → Out
  unfolding with_claims
  with_verified plugin name body query path method none core = (err token_verifier_error, core)
  with_verified plugin name body query path method (some claims) core =
      with_claims plugin name body query path method claims (parts.claims_to_string claims) core

  with_token :
      ClientPlugin E W → String → Bytes → Query → List String → String → Option String → Core → Out
  unfolding with_verified
  with_token plugin name body query path method none core = (err token_not_found, core)
  with_token plugin name body query path method (some token) core =
      with_verified plugin name body query path method (parts.verify token) core

  -- the calls that the token and the policy authorise
  unfoldable pub client_call :
      ClientPlugin E W → String → HttpRequest → Bytes → Query → List String → ℕ → Core → Out
  unfolding with_token
  client_call plugin name request body query path now core =
      with_token plugin name body query path request.method
        (get_attestation_token libs maps inner parts plugins request now core) core

  -- the calls that the administrator authorises
  unfoldable pub admin_call :
      ClientPlugin E W → HttpRequest → Bytes → Query → List String → Core → Out
  unfolding plain_reply call_plugin
  admin_call plugin request body query path core =
      as_admin libs maps inner parts plugins request core
        (plain_reply (call_plugin plugin body query path request.method core))

  unfoldable pub plugin_call :
      Option (ClientPlugin E W)
      → String
      → HttpRequest
      → Bytes
      → Query
      → List String
      → ℕ
      → Core
      → Out
  unfolding client_call admin_call
  plugin_call none name request body query path now core = (err (plugin_not_found name), core)
  plugin_call (some plugin) name request body query path now core =
      elim (plugin.validate_auth body query path request.method core.world) [
        | err e ↦ (err plugin_internal_error, core)
        | panic ↦ (panic, core)
        | ok true ↦ admin_call plugin request body query path core
        | ok false ↦ client_call plugin name request body query path now core
      ]

  abbrev is_route : String → String → String → String → Bool
  is_route name method plugin wanted = str_eq plugin name && str_eq wanted method

  -- the `match` of `api`; `i` is the id that a new session is given
  unfoldable pub route :
      String → HttpRequest → Bytes → Query → List String → String → ℕ → Core → Out
  unfolding plugin_call
  route plugin request body query path i now core =
      if is_route "auth" "POST" plugin request.method
      then from_service libs maps inner parts plugins attestation_error session core
          (As.auth libs maps inner body i now core.attestation_service)
      else if is_route "attest" "POST" plugin request.method
      then from_service libs maps inner parts plugins attestation_error session core
          (As.attest libs maps inner body request.session_cookie now core.attestation_service)
      else if is_route "attestation-policy" "POST" plugin request.method
      then as_admin libs maps inner parts plugins request core (
          from_service libs maps inner parts plugins attestation_error (λ u. empty) core
            (As.set_policy libs maps inner body core.attestation_service))
      else if is_route "reference-value" "GET" plugin request.method
      then as_admin libs maps inner parts plugins request core
          (query_reference_value libs maps inner parts plugins path core)
      else if is_route "reference-value" "POST" plugin request.method
      then as_admin libs maps inner parts plugins request core
          (register_reference_value libs maps inner parts plugins body core)
      else if is_route "resource-policy" "POST" plugin request.method
      then as_admin libs maps inner parts plugins request core
          (set_resource_policy libs maps inner parts plugins body core)
      else if is_route "resource-policy" "GET" plugin request.method
      then as_admin libs maps inner parts plugins request core
          (get_resource_policy libs maps inner parts plugins core)
      else plugin_call (Dict.get plugin plugins) plugin request body query path now core

  of_path_parts : List String → HttpRequest → Bytes → Query → String → ℕ → Core → Out
  unfolding route
  of_path_parts [] request body query i now core = (err invalid_request_path, core)
  of_path_parts (plugin ∷ path) request body query i now core =
      route plugin request body query path i now core

  unfoldable pub api : HttpRequest → Bytes → String → Query → String → ℕ → Core → Out
  unfolding of_path_parts
  api request body path query i now core = of_path_parts (split path) request body query i now core
