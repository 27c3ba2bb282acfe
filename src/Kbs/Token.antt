-- ===== src/Kbs/Token.antt =====
-- kbs/src/token/mod.rs: the verifier of attestation tokens and the search for the TEE's public key in
-- their claims.
pub mod Jwk
pub mod Keys
pub mod Tests
use trustmee_artifact.Prelude.{
  String, Option, none, some, List, [], ◌∷◌, ◌++◌, Result, ok, err, ok_or, map_err, ◌>>=◌,
}
use trustmee_artifact.Kbs.Token.Jwk
use trustmee_artifact.Kbs.Token.Jwk.{
  AttestationTokenVerifierConfig, JwkError, Tools, JwkAttestationTokenVerifier,
}

-- kbs/src/token/error.rs, the errors of the code here
pub data TokenError : Type 0 where
  token_verification_failed token_verifier_initialization : JwkError → TokenError
  tee_pub_key_parse_failed no_tee_pub_key_claim_found : TokenError

-- the paths that `from_config` pushes
abbrev pub builtin_paths : List String
builtin_paths =
    "/tdx/attester_runtime_data/tee-pubkey" ∷ "/tdx/attester_user_data/tee-pubkey"
    ∷ "/customized_claims/runtime_data/tee-pubkey"
    ∷ "/submods/cpu0/ear.veraison.annotated-evidence/runtime_data_claims/tee-pubkey" ∷ "/tee-pubkey"
    ∷ []

-- the loop of `extract_tee_public_key`; `pointer` and `deserialize` are serde_json's
unfoldable pub extract_from :
    {Value Key : Type 0}
    → (Value → String → Option Value)
    → (Value → Option Key)
    → List String
    → Value
    → Result TokenError Key
extract_from pointer deserialize [] claim = err no_tee_pub_key_claim_found
extract_from pointer deserialize (path ∷ paths) claim = elim (pointer claim path) [
  | some pkey_value ↦ ok_or (deserialize pkey_value) tee_pub_key_parse_failed
  | none ↦ extract_from pointer deserialize paths claim
]

module _ (tools : Tools) where
  pub record TokenVerifier : Type 0 where
    pub verifier : JwkAttestationTokenVerifier tools
    pub extra_teekey_paths : List String

  unfoldable pub verify : TokenVerifier → String → Result TokenError tools.Value
  verify v token = map_err token_verification_failed (Jwk.verify tools v.verifier token)

  unfoldable pub from_config : AttestationTokenVerifierConfig → Result TokenError TokenVerifier
  from_config config = do
    verifier ← map_err token_verifier_initialization (Jwk.new tools config)
    ok (record {
      verifier = verifier;
      extra_teekey_paths = config.extra_teekey_paths ++ builtin_paths;
    })

  unfoldable pub extract_tee_public_key :
      {Key : Type 0}
      → (tools.Value → String → Option tools.Value)
      → (tools.Value → Option Key)
      → TokenVerifier
      → tools.Value
      → Result TokenError Key
  extract_tee_public_key pointer deserialize v claim =
      extract_from pointer deserialize v.extra_teekey_paths claim
