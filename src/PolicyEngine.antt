-- ===== src/PolicyEngine.antt =====
-- deps/policy-engine: policies kept in a key-value storage, and their evaluation by Rego (lib.rs,
-- policy/rego.rs). regorus, serde_json, sha2 and hex are in `RegoTools`, with the two conversions
-- between strings and UTF-8; `none` is an error.
pub mod Storage
mod Tests
use trustmee_artifact.Prelude.{
  Bytes, String, Bool, Option, none, some, List, Result, ok, err, ◌>>=◌, ok_or, map_err,
}
use trustmee_artifact.Kvs.{KeyValueStorage, KeyValueStorageError, SetParameters}

-- error.rs, the errors of the code here
pub data PolicyError : Type 0 where
  serde_json_error : PolicyError
  policy_storage_error : KeyValueStorageError → PolicyError
  policy_not_found policy_is_not_utf8_string : String → PolicyError
  load_policy_failed load_reference_data_failed set_input_data_failed : PolicyError
  json_serialization_failed eval_policy_failed : PolicyError

pub record EvaluationResult (Value : Type 0) : Type 0 where
  pub rules_result : Value
  pub policy_hash : String

pub record RegoTools : Type 1 where
  pub Engine : Type 0
  pub RegoValue : Type 0
  pub Value : Type 0
  pub new : Engine
  pub add_policy : String → String → Engine → Option Engine
  pub from_json_str : String → Option RegoValue
  pub add_data : RegoValue → Engine → Option Engine
  pub set_input_json : String → Engine → Option Engine
  pub eval_rule : String → Engine → Option RegoValue
  pub to_json_str : RegoValue → Option String
  pub from_str : String → Option Value
  pub sha384 : Bytes → Bytes
  pub hex : Bytes → String
  pub as_bytes : String → Bytes
  pub from_utf8 : Bytes → Option String

abbrev pub eval_rule_name : String
eval_rule_name = "data.policy.result"

module _ (tools : RegoTools) where
  open tools use {Value}

  -- `evaluate` of `Regorus`
  unfoldable pub rego : String → String → String → Result PolicyError (EvaluationResult Value)
  rego data_text input policy = do
    loaded ← ok_or (tools.add_policy "" policy tools.new) load_policy_failed
    data_value ← ok_or (tools.from_json_str data_text) json_serialization_failed
    with_data ← ok_or (tools.add_data data_value loaded) load_reference_data_failed
    with_input ← ok_or (tools.set_input_json input with_data) set_input_data_failed
    claim_value ← ok_or (tools.eval_rule eval_rule_name with_input) eval_policy_failed
    claim_text ← ok_or (tools.to_json_str claim_value) json_serialization_failed
    rules_result ← ok_or (tools.from_str claim_text) serde_json_error
    ok (record {
      rules_result = rules_result;
      policy_hash = tools.hex (tools.sha384 (tools.as_bytes policy));
    })

  -- the `match` of `get_policy`
  unfoldable pub policy_of : String → Option Bytes → Result PolicyError String
  policy_of id none = err (policy_not_found id)
  policy_of id (some bytes) = ok_or (tools.from_utf8 bytes) (policy_is_not_utf8_string id)

  module _ {S : Type 0} (storage : KeyValueStorage S) where
    unfoldable pub get_policy : String → S → Result PolicyError String × S
    get_policy id s =
        let (found, after) = storage.get id s in
        (map_err policy_storage_error found >>= policy_of id, after)

    unfoldable pub set_policy : String → String → Bool → S → Result PolicyError (Unit {0}) × S
    set_policy id policy overwrite s =
        let (done, after) =
          storage.set id (tools.as_bytes policy) (record { overwrite = overwrite }) s in
        (map_err policy_storage_error done, after)

    unfoldable pub list_policies : S → Result PolicyError (List String) × S
    list_policies s =
        let (keys, after) = storage.list s in (map_err policy_storage_error keys, after)

    unfoldable pub evaluate :
        String → String → String → S → Result PolicyError (EvaluationResult Value) × S
    evaluate data_text input id s =
        let (policy, after) = get_policy id s in (policy >>= rego data_text input, after)
