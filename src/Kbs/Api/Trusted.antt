-- ===== src/Kbs/Api/Trusted.antt =====
-- The API with the token verifier of kbs/src/token: to whom a secret resource goes.
use trustmee_artifact.Prelude.{
  Bytes, ℕ, String, ◌≡◌, true, Option, some, List, ◌∷◌, ok, accepted, accepted-ok, map_err-ok,
}
use trustmee_artifact.Prelude.Dict
use trustmee_artifact.Prelude.Dict.{Dict}
use trustmee_artifact.Kbs.UrlPath.{split}
use trustmee_artifact.Kbs.Session.{SessionStatus, ConcurrentMap}
use trustmee_artifact.Kbs.Attestation.{Libraries, Attest}
use trustmee_artifact.Kbs.PluginManager.{ClientPlugin, Query}
use trustmee_artifact.Kbs.Api.{
  Reply, encrypted, HttpRequest, Parts, ApiServer, get_attestation_token,
}
use trustmee_artifact.Kbs.Api.Handler.{api}
use trustmee_artifact.Kbs.Api.Secrets.{secrets_leave_as_jwe}
use trustmee_artifact.Kbs.ResourceDesc.{ResourceError}
use trustmee_artifact.Kbs.Resource
use trustmee_artifact.Kbs.Resource.{StorageBackend, ResourceStorage, resource_plugin}
use trustmee_artifact.Kbs.Token.{
  TokenVerifier, verify, extract_tee_public_key, token_verification_failed,
}
use trustmee_artifact.Kbs.Token.Keys.{IsAtFirst, extract_from_iff}
use trustmee_artifact.Kbs.Token.Jwk.{Tools}
use trustmee_artifact.Kbs.Token.Jwk.Trust.{FindsById, IsAccepted, verify-IsAccepted}

-- the server's parts with `v` as its token verifier
abbrev pub with_verifier :
    {Key P : Type 0} (tools : Tools)
    → (tools.Value → String → Option tools.Value)
    → (tools.Value → Option Key)
    → TokenVerifier tools
    → Parts tools.Value Key P
    → Parts tools.Value Key P
with_verifier tools pointer deserialize v parts = record parts {
  verify = λ token. accepted (verify tools v token);
  extract_tee_public_key =
      λ claims. accepted (extract_tee_public_key tools pointer deserialize v claims);
}

module _ {B Key P W : Type 0} (libs : Libraries)
    (maps : ConcurrentMap (SessionStatus libs.Tee libs.Json)) (inner : Attest libs.Tee libs.Json B)
    (tools : Tools) (pointer : tools.Value → String → Option tools.Value)
    (deserialize : tools.Value → Option Key) (v : TokenVerifier tools)
    (parts : Parts tools.Value Key P) (backend : StorageBackend W)
    (plugins : Dict (ClientPlugin ResourceError (ResourceStorage W))) where
  open libs use {Json}

  abbrev pub verified_parts : Parts tools.Value Key P
  verified_parts = with_verifier tools pointer deserialize v parts

  -- `r` is `secret`, encrypted to the key at the first key path of the claims of a token that is
  -- signed with a trusted key and for whose claims the policy allows the request
  pub record IsReleased (request : HttpRequest) (query : Query) (path : List String) (now : ℕ)
      (core : ApiServer libs maps inner verified_parts plugins) (secret : Bytes) (r : Reply Json)
      : Type 0 where
    pub token : String
    pub claims : tools.Value
    pub key : Key
    pub cipher : String
    pub presented :
        get_attestation_token libs maps inner verified_parts plugins request now core ≡ some token
    pub text : String
    pub accepts : IsAccepted tools v.verifier token claims
    pub printed : parts.claims_to_string claims ≡ some text
    pub allowed :
        parts.evaluate
          (record { plugin = "resource"; resource_path = path; query = query })
          text
          core.policy_engine
        ≡ some true
    pub of_claims : IsAtFirst pointer deserialize v.extra_teekey_paths claims key
    pub sealed : parts.jwe key secret ≡ some cipher
    pub reply : r ≡ encrypted cipher

  -- With the token verifier in the server and the resource plugin registered, and if `find` gives keys
  -- by their id, a GET below `resource/` that is answered without an error has the secret that the
  -- plugin read, encrypted to the key at the first of the key paths that the claims of a token of the
  -- request have. The token is signed with a key that the verifier trusts, and for its claims the
  -- policy allows this path and query.
  pub secrets_go_to_trusted :
      (k bearer : Option String) (body : Bytes) (path : String) (rest : List String) (query : Query)
      (i : String) (now : ℕ) (core : ApiServer libs maps inner verified_parts plugins)
      (r : Reply Json)
      → FindsById tools
      → split path ≡ "resource" ∷ rest
      → Dict.get "resource" plugins ≡ some (resource_plugin backend)
      → (api libs maps inner verified_parts plugins
          (record { method = "GET"; session_cookie = k; bearer = bearer })
          body
          path
          query
          i
          now
          core).0
        ≡ ok r
      → (secret : Bytes) × ((Resource.handle backend body query rest "GET" core.world).0
          ≡ ok secret)
        × IsReleased
            (record { method = "GET"; session_cookie = k; bearer = bearer })
            query
            rest
            now
            core
            secret
            r
  unfolding verify extract_tee_public_key
  secrets_go_to_trusted k bearer body path rest query i now core r finds e present h =
      let (secret, handled, sealed) =
        secrets_leave_as_jwe libs maps inner verified_parts backend plugins k bearer body path rest
          query i now core r e present h in
      (
        secret,
        handled,
        record {
          token = sealed.token;
          claims = sealed.claims;
          key = sealed.key;
          cipher = sealed.cipher;
          text = sealed.text;
          printed = sealed.printed;
          allowed = sealed.allowed;
          presented = sealed.presented;
          accepts =
              verify-IsAccepted tools v.verifier sealed.token sealed.claims finds
                (map_err-ok token_verification_failed _ (accepted-ok _ sealed.verified));
          of_claims =
              (extract_from_iff pointer deserialize v.extra_teekey_paths sealed.claims sealed.key).0
                (accepted-ok _ sealed.of_claims);
          sealed = sealed.sealed;
          reply = sealed.reply;
        },
      )
