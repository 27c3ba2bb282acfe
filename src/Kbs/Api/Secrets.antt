-- ===== src/Kbs/Api/Secrets.antt =====
-- A secret resource leaves the server only encrypted to the key of the attested client.
use trustmee_artifact.Prelude.{
  Bytes, ℕ, String, ◌≡◌, refl, inl, inr, true, false, Option, some, List, ◌∷◌, arith, Option-cases,
  ok, Result-cases,
}
use trustmee_artifact.Prelude.Dict
use trustmee_artifact.Prelude.Dict.{Dict}
use trustmee_artifact.Kbs.UrlPath.{split}
use trustmee_artifact.Kbs.Session.{SessionStatus, ConcurrentMap}
use trustmee_artifact.Kbs.Attestation.{Libraries, Attest}
use trustmee_artifact.Kbs.PluginManager.{ClientPlugin, Query}
use trustmee_artifact.Kbs.Api.{
  Reply, encrypted, HttpRequest, Parts, ApiServer, get_attestation_token,
}
use trustmee_artifact.Kbs.Api.Handler.{encrypt, client_call, api}
use trustmee_artifact.Kbs.ResourceDesc.{ResourceError}
use trustmee_artifact.Kbs.Resource
use trustmee_artifact.Kbs.Resource.{StorageBackend, ResourceStorage, resource_plugin}

module _ {B Claims Key P E W : Type 0} (libs : Libraries)
    (maps : ConcurrentMap (SessionStatus libs.Tee libs.Json)) (inner : Attest libs.Tee libs.Json B)
    (parts : Parts Claims Key P) (plugins : Dict (ClientPlugin E W)) where
  open libs use {Json}

  abbrev Core : Type 0
  Core = ApiServer libs maps inner parts plugins

  -- `r` is `secret`, encrypted to the key in the claims of a token that verifies and that the policy
  -- allows the request.
  pub record IsSealed (name : String) (request : HttpRequest) (query : Query) (path : List String)
      (now : ℕ) (core : Core) (secret : Bytes) (r : Reply Json) : Type 0 where
    pub token : String
    pub claims : Claims
    pub text : String
    pub key : Key
    pub cipher : String
    pub presented :
        get_attestation_token libs maps inner parts plugins request now core ≡ some token
    pub verified : parts.verify token ≡ some claims
    pub printed : parts.claims_to_string claims ≡ some text
    pub allowed :
        parts.evaluate
          (record { plugin = name; resource_path = path; query = query })
          text
          core.policy_engine
        ≡ some true
    pub of_claims : parts.extract_tee_public_key claims ≡ some key
    pub sealed : parts.jwe key secret ≡ some cipher
    pub reply : r ≡ encrypted cipher

  encrypt-ok :
      (claims : Claims) (secret : Bytes) (r : Reply Json)
      → encrypt libs maps inner parts plugins claims secret ≡ ok r
      → (key : Key) × (cipher : String) × (parts.extract_tee_public_key claims ≡ some key)
        × (parts.jwe key secret ≡ some cipher)
        × (r ≡ encrypted cipher)
  unfolding encrypt
  encrypt-ok claims secret r h = elim (Option-cases (parts.extract_tee_public_key claims)) [
    | inl bad ↦ absurd (ground arith)
    | inr (key, found) ↦ elim (Option-cases (parts.jwe key secret)) [
      | inl bad ↦ absurd (ground arith)
      | inr (cipher, made) ↦ (key, cipher, found, made, ground arith)
    ]
  ]

  client_call-IsSealed :
      (plugin : ClientPlugin E W) (name : String) (request : HttpRequest) (body : Bytes)
      (query : Query) (path : List String) (now : ℕ) (core : Core) (r : Reply Json)
      → ((w : W) → plugin.encrypted body query path request.method w ≡ ok true)
      → (client_call libs maps inner parts plugins plugin name request body query path now core).0
        ≡ ok r
      → (secret : Bytes) × ((plugin.handle body query path request.method core.world).0 ≡ ok secret)
        × IsSealed name request query path now core secret r
  unfolding client_call
  client_call-IsSealed plugin name request body query path now core r seals h =
      elim (Option-cases (get_attestation_token libs maps inner parts plugins request now core)) [
        | inl missing ↦ absurd (ground arith)
        | inr (token, presented) ↦ elim (Option-cases (parts.verify token)) [
          | inl bad ↦ absurd (ground arith)
          | inr (claims, verified) ↦ elim (Option-cases (parts.claims_to_string claims)) [
            | inl bad ↦ absurd (ground arith)
            | inr (text, printed) ↦
                elim (Option-cases (
                  parts.evaluate (record { plugin = name; resource_path = path; query = query })
                    text core.policy_engine)) [
                      | inl bad ↦ absurd (ground arith)
                      | inr (false, denied) ↦ absurd (ground arith)
                      | inr (true, allowed) ↦
                          elim (Result-cases
                            (plugin.handle body query path request.method core.world).0) [
                              | inr (inl (e, fails)) ↦ absurd (ground arith)
                              | inr (inr panics) ↦ absurd (ground arith)
                              | inl (secret, handled) ↦
                                  let (key, cipher, found, made, same) =
                                    encrypt-ok claims secret r (
                                      ground (
                                        arith,
                                        seals
                                            (plugin.handle body query path request.method
                                              core.world).1,
                                      )) in
                                  (
                                    secret,
                                    handled,
                                    record {
                                      token = token;
                                      claims = claims;
                                      text = text;
                                      key = key;
                                      cipher = cipher;
                                      presented = presented;
                                      verified = verified;
                                      printed = printed;
                                      allowed = allowed;
                                      of_claims = found;
                                      sealed = made;
                                      reply = same;
                                    },
                                  )
                            ]
                    ]
          ]
        ]
      ]

module _ {B Claims Key P W : Type 0} (libs : Libraries)
    (maps : ConcurrentMap (SessionStatus libs.Tee libs.Json)) (inner : Attest libs.Tee libs.Json B)
    (parts : Parts Claims Key P) (backend : StorageBackend W)
    (plugins : Dict (ClientPlugin ResourceError (ResourceStorage W))) where
  open libs use {Json}

  -- If the resource plugin is registered, a GET below `resource/` that is answered without an error
  -- has the secret that the plugin read, encrypted to the key in the claims of a token of the
  -- request that verifies, and for which the policy allows this path and query.
  pub secrets_leave_as_jwe :
      (k bearer : Option String) (body : Bytes) (path : String) (rest : List String) (query : Query)
      (i : String) (now : ℕ) (core : ApiServer libs maps inner parts plugins) (r : Reply Json)
      → split path ≡ "resource" ∷ rest
      → Dict.get "resource" plugins ≡ some (resource_plugin backend)
      → (api libs maps inner parts plugins
          (record { method = "GET"; session_cookie = k; bearer = bearer })
          body
          path
          query
          i
          now
          core).0
        ≡ ok r
      → (secret : Bytes) × ((Resource.handle backend body query rest "GET" core.world).0
          ≡ ok secret)
        × IsSealed libs maps inner parts plugins "resource"
            (record { method = "GET"; session_cookie = k; bearer = bearer })
            query
            rest
            now
            core
            secret
            r
  secrets_leave_as_jwe k bearer body path rest query i now core r e present h =
      client_call-IsSealed libs maps inner parts plugins (resource_plugin backend) "resource"
        (record { method = "GET"; session_cookie = k; bearer = bearer }) body query rest now core r
        (λ w. unfold Resource.encrypted in refl)
        (called k bearer body path rest query i now core r e present h)
    where
      called :
          (k bearer : Option String) (body : Bytes) (path : String) (rest : List String)
          (query : Query) (i : String) (now : ℕ) (core : ApiServer libs maps inner parts plugins)
          (r : Reply Json)
          → split path ≡ "resource" ∷ rest
          → Dict.get "resource" plugins ≡ some (resource_plugin backend)
          → (api libs maps inner parts plugins
              (record { method = "GET"; session_cookie = k; bearer = bearer })
              body
              path
              query
              i
              now
              core).0
            ≡ ok r
          → (client_call libs maps inner parts plugins
              (resource_plugin backend)
              "resource"
              (record { method = "GET"; session_cookie = k; bearer = bearer })
              body
              query
              rest
              now
              core).0
            ≡ ok r
      called k bearer body path rest query i now core r e present h =
          unfold api Resource.validate_auth in rw (e, present) at h
