-- ===== src/Kbs/Attestation.antt =====
-- kbs/src/attestation/backend.rs: `AttestationService`, which runs the RCAR handshake. What serde_json
-- and semver do is in `Libraries`, and the attestation backend (`trait Attest`) is in `Attest`.
-- `attest` is two steps, since it gives the session up between looking at it and verifying.
pub mod Service
pub mod Effects
pub mod World
pub mod Sound
pub mod Tokens
pub mod Handshake
pub mod Completion
pub mod Tests
use trustmee_artifact.Prelude.{
  Bytes, ℕ, zero, suc, ◌+◌, ◌-◌, ◌*◌, ◌/◌, ◌%◌, ◌^◌, ◌≤◌, ◌<◌, String, ◌≡◌, refl, sym, ap, ◌∙◌, ◌≢◌,
  ◌↔◌, ◌⊎◌, inl, inr, Bool, true, false, ◌&&◌, ◌||◌, not, Option, none, some, List, [], ◌∷◌, ◌++◌,
  map, arith, str_eq, eq_iff, ltb, leb, ◌==◌, if◌then◌else◌, Bool-cases, Option-cases, length,
  get_elem?, take, drop, replicate, All, length-append, length-take, length-drop, Result, ok, err,
  panic, ◌>>=◌, ◌>>◌, ok_or, guard, map_err, >>=-eq-ok, ==_iff,
}
use trustmee_artifact.Prelude.Dict
use trustmee_artifact.Prelude.Dict.{Dict}
use trustmee_artifact.Kbs.Session
use trustmee_artifact.Kbs.Session.{
  Request, Challenge, SessionStatus, authed, attested, Cookie, ConcurrentMap, is_expired, cookie,
}

pub record Version : Type 0 where
  pub major : ℕ
  pub minor : ℕ
  pub patch : ℕ
  pub pre : String
  pub build : String

-- `VERSION_REQ`: the version that `=` requires
abbrev pub kbs_version : Version
kbs_version = record { major = 0; minor = 4; patch = 0; pre = ""; build = "" }

-- `Attestation` of kbs_types, as far as the service reads it
pub record Attestation (Json : Type 0) : Type 0 where
  pub nonce : String
  pub tee_pubkey : Json
  pub primary_evidence : Json
  pub additional_evidence : String
  pub init_data : Option Json

-- the objects that `json!` builds: `kbs_evidence_runtime_data` and `primary_runtime_data`
pub data RuntimeData (Json : Type 0) : Type 0 where
  additional : Json → String → RuntimeData Json
  primary : Json → String → String → RuntimeData Json

pub record IndependentEvidence (Tee : Type 0) (Json : Type 0) : Type 0 where
  pub tee : Tee
  pub tee_evidence : Json
  pub runtime_data : RuntimeData Json
  pub init_data : Option Json

-- serde_json and semver: `none` is an error
pub record Libraries : Type 1 where
  pub Tee : Type 0
  pub Json : Type 0
  pub parse_request : Bytes → Option (Request Tee Json)
  pub parse_attestation : Bytes → Option (Attestation Json)
  pub parse_additional : String → Option (List (Tee × Json))
  pub parse_set_policy : Bytes → Option (String × String)
  pub attestation_to_string : Attestation Json → Option String
  pub token_to_string : String → Option String
  pub tee_to_string : Tee → Option String
  pub value_to_string : Json → Option String
  pub parse_version : String → Option Version
  pub version_matches : Version → Version → Bool

-- `trait Attest`; its implementation keeps the state `B`. `verify` runs a verifier on the client's
-- evidence, and may panic; of the others `none` is an error.
pub record Attest (Tee : Type 0) (Json : Type 0) (B : Type 0) : Type 0 where
  pub set_policy : String → String → B → Option B
  pub verify : List (IndependentEvidence Tee Json) → B → Result (Unit {0}) String
  pub generate_challenge : Tee → Json → B → Option (Challenge Json)
  pub register_reference_value : String → B → Option B
  pub query_reference_value : String → B → Option (Option Json)

-- the errors, by where the code raises them
pub data AttestationError : Type 0 where
  deserialize_request parse_version_failed version_mismatch generate_challenge_failed :
      AttestationError
  cookie_not_found deserialize_attestation no_session session_expired serialize_token_failed :
      AttestationError
  serialize_attestation_failed nonce_mismatch deserialize_additional serialize_tee_failed :
      AttestationError
  verify_failed not_authorized deserialize_set_policy set_policy_failed : AttestationError
  register_failed query_failed no_reference_value serialize_value_failed : AttestationError

-- the counters of kbs/src/prometheus/mod.rs that the service moves
pub record Metrics : Type 0 where
  pub auth_requests : ℕ
  pub auth_errors : ℕ
  pub auth_successes : ℕ
  pub attestation_requests : ℕ
  pub attestation_errors : ℕ
  pub attestation_successes : Dict ℕ
  pub attestation_failures : Dict ℕ

-- `HttpResponse::Ok()` with a session cookie and a JSON body
pub data Body (Json : Type 0) : Type 0 where
  challenge_body : Challenge Json → Body Json
  token_body : String → Body Json

pub record Response (Json : Type 0) : Type 0 where
  pub cookie : Cookie
  pub body : Body Json

abbrev pub is_empty : String → Bool
is_empty String.[] = true
is_empty (String.◌∷◌ c s) = false
