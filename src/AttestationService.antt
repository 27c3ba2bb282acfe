-- ===== src/AttestationService.antt =====
-- The attestation service: attestation-service/src/lib.rs. JSON, TOML, the hash functions, the
-- verifiers, the host of Wasm verifiers and the token broker are fields of `Services`.
pub mod Binding
pub mod InitData
pub mod Tdx
mod Tests
use Prim.Native.Char.{Char, code}
use Prim.Native.String as Text
use trustmee_artifact.Prelude.{
  Bytes, ℕ, zero, suc, String, ◌≡◌, Bool, true, false, ◌&&◌, not, Option, none, some, List, [], ◌∷◌,
  ◌++◌, map, str_eq, ◌==◌, if◌then◌else◌, Result, ok, err, ◌>>=◌, ◌>>◌, ok_or, guard,
}
use trustmee_artifact.Prelude.Dict.{Dict, is_some, get, insert, remove}
use trustmee_artifact.Verifier
use trustmee_artifact.Verifier.{ReportData, InitDataHash}

pub data RuntimeData (Json : Type 0) : Type 0 where
  raw : Bytes → RuntimeData Json
  structured : Json → RuntimeData Json

pub data InitDataInput : Type 0 where
  digest : Bytes → InitDataInput
  toml : String → InitDataInput

pub data ServiceError : Type 0 where
  no_requests parse_runtime_data_failed parse_init_data_failed no_component : ServiceError
  verifier_failed issue_failed : ServiceError

-- `Initdata`, whose `version` nothing reads
pub record Initdata (Algorithm : Type 0) : Type 0 where
  pub algorithm : Algorithm
  pub initdata : Dict String

pub record VerificationRequest (Json Tee Algorithm : Type 0) : Type 0 where
  pub evidence : Json
  pub tee : Tee
  pub runtime_data : Option (RuntimeData Json)
  pub runtime_data_hash_algorithm : Algorithm
  pub init_data : Option InitDataInput
  pub verifier_component : Option Bytes
  pub verifier_component_id : Option String

pub record TeeClaims (Json Tee : Type 0) : Type 0 where
  pub tee : Tee
  pub tee_class : String
  pub claims : Json
  pub init_data_claims : Json
  pub runtime_data_claims : Json

-- `WasmVerifierHost::evaluate`
abbrev pub Host : Type 0 → Type 0
Host Json = Option String → Option Bytes → Json → Option Bytes → Option Bytes → Option Json

-- `none` is an error. `toml_to_json` reads TOML and turns it into JSON; `verify` is `to_verifier` and
-- then `evaluate`; `issue` asks the token broker, with the reference values.
pub record Services (Json Tee Algorithm : Type 0) : Type 0 where
  pub null : Json
  pub string : String → Json
  pub object : Dict Json → Json
  pub as_string : Json → Option String
  pub serialize_canon_json : Json → Option Bytes
  pub digest : Algorithm → Bytes → Bytes
  pub into_bytes : String → Bytes
  pub parse_initdata : String → Option (Initdata Algorithm)
  pub toml_to_json : String → Option Json
  pub parse_json : String → Option Json
  pub verify : Tee → Json → ReportData → InitDataHash → Option (List (Json × String))
  pub wasm_verifier : Option (Host Json)
  pub default_component_id : Option String
  pub issue : List (TeeClaims Json Tee) → List String → Option String

-- `&text[n..]`, and whether a text starts with another
abbrev pub drop_text : ℕ → String → String
drop_text zero s = s
drop_text (suc n) String.[] = String.[]
drop_text (suc n) (String.◌∷◌ c s) = drop_text n s

abbrev pub starts_with : String → String → Bool
starts_with String.[] s = true
starts_with (String.◌∷◌ c p) String.[] = false
starts_with (String.◌∷◌ c p) (String.◌∷◌ d s) = (code c == code d) && starts_with p s

-- the text from the brace of the first `policy_data := {`
unfoldable pub policy_json : String → Option String
policy_json String.[] = none
policy_json (String.◌∷◌ c s) =
    let rest = policy_json s in
    if starts_with "policy_data := {" (String.◌∷◌ c s)
    then some (drop_text 15 (String.◌∷◌ c s))
    else rest

abbrev pub or : {A : Type 0} → Option A → Option A → Option A
or none b = b
or (some a) b = some a

abbrev pub report_data_of : Option Bytes → ReportData
report_data_of none = ReportData.not_provided
report_data_of (some bytes) = ReportData.value bytes

abbrev pub init_data_of : Option Bytes → InitDataHash
init_data_of none = InitDataHash.not_provided
init_data_of (some bytes) = InitDataHash.value bytes

module _ {Json Tee Algorithm : Type 0} (services : Services Json Tee Algorithm) where
  open services use {null, string, object, as_string}

  unfoldable pub parse_runtime_data :
      Option (RuntimeData Json) → Algorithm → Result ServiceError (Option Bytes × Json)
  parse_runtime_data none algorithm = ok (none, null)
  parse_runtime_data (some (raw bytes)) algorithm = ok (some bytes, null)
  parse_runtime_data (some (structured value)) algorithm =
      ok_or (services.serialize_canon_json value) parse_runtime_data_failed >>= λ hash_materials.
      ok (some (services.digest algorithm hash_materials), value)

  -- `serde_json::to_value` of the map of texts
  unfoldable pub texts_to_json : Dict String → Dict Json
  texts_to_json [] = []
  texts_to_json ((k, text) ∷ rest) = (k, string text) ∷ texts_to_json rest

  -- the text under a key, if there is one
  abbrev pub text_at : String → Dict Json → Option String
  text_at key claims = elim (get key claims) [ none ↦ none | some value ↦ as_string value ]

  -- the JSON that a text in TOML under a key stands for
  abbrev pub toml_at : String → Dict Json → Option Json
  toml_at key claims = elim (text_at key claims) [
    | none ↦ none
    | some toml_str ↦ services.toml_to_json toml_str
  ]

  -- `extract_policy_data` of the text under `policy.rego`
  abbrev pub policy_at : Dict Json → Option Json
  policy_at claims = elim (text_at "policy.rego" claims) [
    | none ↦ none
    | some rego_str ↦ elim (policy_json rego_str) [
      | none ↦ none
      | some json_str ↦ services.parse_json json_str
    ]
  ]

  unfoldable pub replace_toml : String → Option Json → Dict Json → Dict Json
  replace_toml key none claims = claims
  replace_toml key (some value) claims = insert key value claims

  -- one turn of the loop over `cdh.toml` and `aa.toml`
  abbrev pub convert_toml : String → Dict Json → Dict Json
  convert_toml key claims = replace_toml key (toml_at key claims) claims

  unfoldable pub replace_policy : Option Json → Dict Json → Dict Json
  replace_policy none claims = claims
  replace_policy (some policy_data) claims =
      insert "agent_policy_claims" policy_data (remove "policy.rego" claims)

  abbrev pub convert_policy : Dict Json → Dict Json
  convert_policy claims = replace_policy (policy_at claims) claims

  unfoldable pub init_data_claims : Dict String → Dict Json
  init_data_claims texts =
      convert_policy (convert_toml "aa.toml" (convert_toml "cdh.toml" (texts_to_json texts)))

  unfoldable pub parse_init_data : Option InitDataInput → Result ServiceError (Option Bytes × Json)
  parse_init_data none = ok (none, null)
  parse_init_data (some (InitDataInput.digest bytes)) = ok (some bytes, null)
  parse_init_data (some (toml text)) =
      ok_or (services.parse_initdata text) parse_init_data_failed >>= λ parsed. ok (
        some (services.digest parsed.algorithm (services.into_bytes text)),
        object (init_data_claims parsed.initdata),
      )

  abbrev pub Request : Type 0
  Request = VerificationRequest Json Tee Algorithm

  -- the branch of a Wasm host; a request names a component, brings one, or the default is used
  unfoldable pub verify_in_host :
      Host Json → Request → Option Bytes → Option Bytes → Result ServiceError (List (Json × String))
  verify_in_host host request report_data init_data =
      let component_id = or request.verifier_component_id services.default_component_id in
      guard (not (not (is_some component_id) && not (is_some request.verifier_component)))
        no_component
      >> (ok_or
            (host component_id request.verifier_component request.evidence report_data init_data)
            verifier_failed
          >>= λ parsed. ok ((parsed, "cpu") ∷ []))

  unfoldable pub verify_by :
      Option (Host Json)
      → Request
      → Option Bytes
      → Option Bytes
      → Result ServiceError (List (Json × String))
  verify_by none request report_data init_data =
      ok_or
        (services.verify request.tee request.evidence (report_data_of report_data)
          (init_data_of init_data))
        verifier_failed
  verify_by (some host) request report_data init_data =
      verify_in_host host request report_data init_data

  abbrev pub tee_claims_of : Request → Json → Json → Json × String → TeeClaims Json Tee
  tee_claims_of request runtime_claims init_claims (claims, tee_class) = record {
    tee = request.tee;
    tee_class = tee_class;
    claims = claims;
    init_data_claims = init_claims;
    runtime_data_claims = runtime_claims;
  }

  -- one turn of the loop of `evaluate`: the claims that it pushes
  unfoldable pub verify_request : Request → Result ServiceError (List (TeeClaims Json Tee))
  verify_request request =
      parse_runtime_data request.runtime_data request.runtime_data_hash_algorithm
      >>= λ (report_data, runtime_claims).
          parse_init_data request.init_data >>= λ (init_data, init_claims).
          verify_by services.wasm_verifier request report_data init_data >>= λ claims.
          ok (map (tee_claims_of request runtime_claims init_claims) claims)

  unfoldable pub verify_all : List Request → Result ServiceError (List (TeeClaims Json Tee))
  verify_all [] = ok []
  verify_all (request ∷ requests) =
      verify_request request >>= λ claims. verify_all requests >>= λ rest. ok (claims ++ rest)

  unfoldable pub evaluate : List Request → List String → Result ServiceError String
  evaluate [] policy_ids = err no_requests
  evaluate (request ∷ requests) policy_ids = verify_all (request ∷ requests) >>= λ tee_claims.
      ok_or (services.issue tee_claims policy_ids) issue_failed
