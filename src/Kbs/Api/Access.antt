-- ===== src/Kbs/Api/Access.antt =====
-- Which requests reach a plugin, and what they can bring back.
use trustmee_artifact.Prelude.{
  Bytes, ℕ, String, ◌≡◌, refl, ◌⊎◌, inl, inr, Bool, true, false, ◌&&◌, some, List, [], ◌∷◌, str_eq,
  if◌then◌else◌, Option-cases, All, Result, ok, err, panic, Result-cases,
}
use trustmee_artifact.Prelude.Dict
use trustmee_artifact.Prelude.Dict.{Dict}
use trustmee_artifact.Kbs.UrlPath.{split}
use trustmee_artifact.Kbs.Session.{SessionStatus, ConcurrentMap}
use trustmee_artifact.Kbs.Attestation.{Libraries, Attest, AttestationError}
use trustmee_artifact.Kbs.Attestation.Service as As
use trustmee_artifact.Kbs.Attestation.Service.{Service}
use trustmee_artifact.Kbs.PluginManager.{ClientPlugin, Query}
use trustmee_artifact.Kbs.Api.{
  Error, attestation_error, Reply, session, empty, json, plain, encrypted, HttpRequest, Parts,
  ApiServer, Outcome, from_service, as_admin, set_resource_policy, get_resource_policy,
  query_reference_value, register_reference_value, get_attestation_token,
}
use trustmee_artifact.Kbs.Api.Handler.{
  call_plugin, plain_reply, client_call, plugin_call, route, api,
}

module _ {B Claims Key P E W : Type 0} (libs : Libraries)
    (maps : ConcurrentMap (SessionStatus libs.Tee libs.Json)) (inner : Attest libs.Tee libs.Json B)
    (parts : Parts Claims Key P) (plugins : Dict (ClientPlugin E W)) where
  open libs use {Json}

  abbrev Core : Type 0
  Core = ApiServer libs maps inner parts plugins

  abbrev Out : Type 0
  Out = Outcome libs maps inner parts plugins

  -- A result that carries nothing a plugin returned
  abbrev pub IsOwn : Result Error (Reply Json) → Type 0
  IsOwn (ok (plain response)) = ⊥
  IsOwn (ok (encrypted text)) = ⊥
  IsOwn _ = Unit

  -- The plugins' state is as it was, and the result carries nothing that a plugin returned.
  abbrev pub IsQuiet : Core → Out → Type 0
  IsQuiet core o = (o.1.world ≡ core.world) × IsOwn o.0

  -- The request holds a token, of its session or its header, that verifies, and the policy allows
  -- the token's claims the plugin, the path and the query.
  pub record IsAllowed (name : String) (request : HttpRequest) (query : Query) (path : List String)
      (now : ℕ) (core : Core) : Type 0 where
    pub token : String
    pub claims : Claims
    pub text : String
    pub presented :
        get_attestation_token libs maps inner parts plugins request now core ≡ some token
    pub verified : parts.verify token ≡ some claims
    pub printed : parts.claims_to_string claims ≡ some text
    pub allowed :
        parts.evaluate
          (record { plugin = name; resource_path = path; query = query })
          text
          core.policy_engine
        ≡ some true

  -- The request names a plugin that is there. The plugin wants an administrator and the request
  -- comes from one, or the plugin wants none and the request is allowed by token and policy.
  pub record IsAuthorised (name : String) (request : HttpRequest) (body : Bytes) (query : Query)
      (path : List String) (now : ℕ) (core : Core) : Type 0 where
    pub plugin : ClientPlugin E W
    pub present : Dict.get name plugins ≡ some plugin
    pub authority :
        ((plugin.validate_auth body query path request.method core.world ≡ ok true)
          × (parts.admin request.bearer ≡ ok tt))
        ⊎ ((plugin.validate_auth body query path request.method core.world ≡ ok false)
            × IsAllowed name request query path now core)

  client_call-IsQuiet :
      (plugin : ClientPlugin E W) (name : String) (request : HttpRequest) (body : Bytes)
      (query : Query) (path : List String) (now : ℕ) (core : Core)
      → IsQuiet core
          (client_call libs maps inner parts plugins plugin name request body query path now core)
        ⊎ IsAllowed name request query path now core
  client_call-IsQuiet plugin name request body query path now core =
      elim (Option-cases (get_attestation_token libs maps inner parts plugins request now core)) [
        | inl missing ↦ inl (unfold client_call in rw missing (refl, tt))
        | inr (token, presented) ↦ elim (Option-cases (parts.verify token)) [
          | inl bad ↦ inl (unfold client_call in rw (presented, bad) (refl, tt))
          | inr (claims, verified) ↦ elim (Option-cases (parts.claims_to_string claims)) [
            | inl bad ↦ inl (unfold client_call in rw (presented, verified, bad) (refl, tt))
            | inr (text, printed) ↦
                elim (Option-cases (
                  parts.evaluate (record { plugin = name; resource_path = path; query = query })
                    text core.policy_engine)) [
                      | inl bad ↦
                          inl (
                            unfold client_call in rw (presented, verified, printed, bad) (refl, tt))
                      | inr (false, denied) ↦ inl (
                          unfold client_call in
                          rw (presented, verified, printed, denied) (refl, tt))
                      | inr (true, allowed) ↦ inr (record {
                        token = token;
                        claims = claims;
                        text = text;
                        presented = presented;
                        verified = verified;
                        printed = printed;
                        allowed = allowed;
                      })
                    ]
          ]
        ]
      ]

  as_admin-IsQuiet :
      (request : HttpRequest) (core : Core) (rest : Out)
      → IsQuiet core (as_admin libs maps inner parts plugins request core rest)
        ⊎ (parts.admin request.bearer ≡ ok tt)
  unfolding as_admin
  as_admin-IsQuiet request core rest = elim (Result-cases (parts.admin request.bearer)) [
    | inl (u, let_in) ↦ inr let_in
    | inr (inl (e, refused)) ↦ inl (rw (refused, as_admin) (refl, tt))
    | inr (inr panics) ↦ inl (rw (panics, as_admin) (refl, tt))
  ]

  plugin_call-IsQuiet :
      (name : String) (request : HttpRequest) (body : Bytes) (query : Query) (path : List String)
      (now : ℕ) (core : Core)
      → IsQuiet core (
          plugin_call libs maps inner parts plugins
            (Dict.get name plugins)
            name
            request
            body
            query
            path
            now
            core)
        ⊎ IsAuthorised name request body query path now core
  plugin_call-IsQuiet name request body query path now core =
      elim (Option-cases (Dict.get name plugins)) [
        | inl missing ↦ inl (unfold plugin_call in rw missing (refl, tt))
        | inr (plugin, present) ↦
            elim (Result-cases (plugin.validate_auth body query path request.method core.world)) [
              | inl (true, wants) ↦
                  elim (as_admin-IsQuiet request core (
                    plain_reply libs maps inner parts plugins (
                      call_plugin libs maps inner parts plugins plugin body query path
                        request.method core))) [
                          | inl quiet ↦
                              inl (unfold plugin_call in rw (present, wants, plugin_call) quiet)
                          | inr let_in ↦ inr (record {
                            plugin = plugin;
                            present = present;
                            authority = inl (wants, let_in);
                          })
                        ]
              | inl (false, wants) ↦
                  elim (client_call-IsQuiet plugin name request body query path now core) [
                    | inl quiet ↦ inl (unfold plugin_call in rw (present, wants, plugin_call) quiet)
                    | inr allowed ↦ inr (record {
                      plugin = plugin;
                      present = present;
                      authority = inr (wants, allowed);
                    })
                  ]
              | inr (inl (e, fails)) ↦
                  inl (unfold plugin_call in rw (present, fails, plugin_call) (refl, tt))
              | inr (inr panics) ↦
                  inl (unfold plugin_call in rw (present, panics, plugin_call) (refl, tt))
            ]
      ]

  -- The routes that the server serves itself leave the plugins alone.
  from_service-IsQuiet :
      {A : Type 0} (of_error : AttestationError → Error) (reply : A → Reply Json) (core : Core)
      (r : Result AttestationError A × Service libs maps inner)
      → ((a : A) → IsOwn (ok (reply a)))
      → IsQuiet core (from_service libs maps inner parts plugins of_error reply core r)
  unfolding from_service
  from_service-IsQuiet of_error reply core (ok a, s) own = (refl, own a)
  from_service-IsQuiet of_error reply core (err e, s) own = (refl, tt)
  from_service-IsQuiet of_error reply core (panic, s) own = (refl, tt)

  guarded :
      (request : HttpRequest) (core : Core) (rest : Out)
      → IsQuiet core rest
      → IsQuiet core (as_admin libs maps inner parts plugins request core rest)
  unfolding as_admin
  guarded request core rest h = elim (Result-cases (parts.admin request.bearer)) [
    | inl (u, let_in) ↦ rw (let_in, as_admin) h
    | inr (inl (e, refused)) ↦ rw (refused, as_admin) (refl, tt)
    | inr (inr panics) ↦ rw (panics, as_admin) (refl, tt)
  ]

  set_resource_policy-IsQuiet :
      (body : Bytes) (core : Core)
      → IsQuiet core (set_resource_policy libs maps inner parts plugins body core)
  unfolding set_resource_policy
  set_resource_policy-IsQuiet body core =
      elim (Option-cases (parts.set_policy body core.policy_engine)) [
        | inl bad ↦ rw (bad, set_resource_policy) (refl, tt)
        | inr (p, set) ↦ rw (set, set_resource_policy) (refl, tt)
      ]

  get_resource_policy-IsQuiet :
      (core : Core) → IsQuiet core (get_resource_policy libs maps inner parts plugins core)
  unfolding get_resource_policy
  get_resource_policy-IsQuiet core = elim (Option-cases (parts.get_policy core.policy_engine)) [
    | inl bad ↦ rw (bad, get_resource_policy) (refl, tt)
    | inr (p, found) ↦ rw (found, get_resource_policy) (refl, tt)
  ]

  register-IsQuiet :
      (body : Bytes) (core : Core)
      → IsQuiet core (register_reference_value libs maps inner parts plugins body core)
  unfolding register_reference_value
  register-IsQuiet body core = elim (Option-cases (parts.from_utf8 body)) [
    | inl bad ↦ rw (bad, register_reference_value) (refl, tt)
    | inr (message, read) ↦
        rw (read, register_reference_value)
          (from_service-IsQuiet (λ e. Error.rvps_error) (λ u. empty) core
            (As.register_reference_value libs maps inner message core.attestation_service)
            (λ u. tt))
  ]

  query-IsQuiet :
      (path : List String) (core : Core)
      → IsQuiet core (query_reference_value libs maps inner parts plugins path core)
  unfolding query_reference_value
  query-IsQuiet path core = from_service-IsQuiet (λ e. Error.rvps_error) json core _ (λ u. tt)

  abbrev choose : List (Bool × Out) → Out → Out
  choose [] last = last
  choose ((b, o) ∷ routes) last = if b then o else choose routes last

  -- A chain of routes: the first that fits decides.
  first_route :
      {A : Type 0} (core : Core) (routes : List (Bool × Out)) (last : Out)
      → All (λ r. IsQuiet core r.1) routes
      → IsQuiet core last ⊎ A
      → IsQuiet core (choose routes last) ⊎ A
  first_route core [] last h k = k
  first_route core ((true, o) ∷ routes) last (h, hs) k = inl h
  first_route core ((false, o) ∷ routes) last (h, hs) k = first_route core routes last hs k

  route-IsQuiet :
      (name : String) (request : HttpRequest) (body : Bytes) (query : Query) (path : List String)
      (i : String) (now : ℕ) (core : Core)
      → IsQuiet core (route libs maps inner parts plugins name request body query path i now core)
        ⊎ IsAuthorised name request body query path now core
  unfolding route
  route-IsQuiet name request body query path i now core =
      first_route core
        ((
          str_eq name "auth" && str_eq request.method "POST",
          (from_service libs maps inner parts plugins attestation_error session core
              (As.auth libs maps inner body i now core.attestation_service)),
        )
          ∷ (
            str_eq name "attest" && str_eq request.method "POST",
            (from_service libs maps inner parts plugins attestation_error session core (
                As.attest libs maps inner body request.session_cookie now
                  core.attestation_service)),
          )
          ∷ (
            str_eq name "attestation-policy" && str_eq request.method "POST",
            (as_admin libs maps inner parts plugins request core (
                from_service libs maps inner parts plugins attestation_error (λ u. empty) core
                  (As.set_policy libs maps inner body core.attestation_service))),
          )
          ∷ (
            str_eq name "reference-value" && str_eq request.method "GET",
            (as_admin libs maps inner parts plugins request core
                (query_reference_value libs maps inner parts plugins path core)),
          )
          ∷ (
            str_eq name "reference-value" && str_eq request.method "POST",
            (as_admin libs maps inner parts plugins request core
                (register_reference_value libs maps inner parts plugins body core)),
          )
          ∷ (
            str_eq name "resource-policy" && str_eq request.method "POST",
            (as_admin libs maps inner parts plugins request core
                (set_resource_policy libs maps inner parts plugins body core)),
          )
          ∷ (
            str_eq name "resource-policy" && str_eq request.method "GET",
            (as_admin libs maps inner parts plugins request core
                (get_resource_policy libs maps inner parts plugins core)),
          )
          ∷ [])
        (plugin_call libs maps inner parts plugins (Dict.get name plugins) name request body query
          path now core)
        (
          (from_service-IsQuiet attestation_error session core
              (As.auth libs maps inner body i now core.attestation_service) (λ r. tt)),
          (
            (from_service-IsQuiet attestation_error session core
                (As.attest libs maps inner body request.session_cookie now core.attestation_service)
                (λ r. tt)),
            (
              (guarded request core _ (
                  from_service-IsQuiet attestation_error (λ u. empty) core
                    (As.set_policy libs maps inner body core.attestation_service) (λ u. tt))),
              (
                (guarded request core _ (query-IsQuiet path core)),
                (
                  (guarded request core _ (register-IsQuiet body core)),
                  (
                    (guarded request core _ (set_resource_policy-IsQuiet body core)),
                    ((guarded request core _ (get_resource_policy-IsQuiet core)), tt),
                  ),
                ),
              ),
            ),
          ),
        )
        (plugin_call-IsQuiet name request body query path now core)

  -- Whatever the request: the plugins' state stays as it was and the response carries nothing that a
  -- plugin returned, or the first part of the path names a plugin and the request is authorised for
  -- it, by the administrator if the plugin asks for that, and else by a verified token whose claims
  -- the policy allows this plugin, path and query.
  pub plugins_are_guarded :
      (request : HttpRequest) (body : Bytes) (path name : String) (rest : List String)
      (query : Query) (i : String) (now : ℕ) (core : Core)
      → split path ≡ name ∷ rest
      → IsQuiet core (api libs maps inner parts plugins request body path query i now core)
        ⊎ IsAuthorised name request body query rest now core
  unfolding api
  plugins_are_guarded request body path name rest query i now core e =
      rw e (route-IsQuiet name request body query rest i now core)
