-- ===== src/PolicyEngine/Tests.antt =====
-- The policy engine on the memory backend.
use Prim.Native.Char.{code}
use mathlib.Core.Option
use trustmee_artifact.Prelude.{
  Bytes, String, ◌≡◌, refl, true, ◌&&◌, ◌==◌, Option, none, some, [], ◌∷◌, str_eq, if◌then◌else◌,
  ok, err,
}
use trustmee_artifact.Prelude.Dict
use trustmee_artifact.Kvs.Contract.{may_write}
use trustmee_artifact.Kvs.Memory.{Items, memory, has_key, write, set, get}
use trustmee_artifact.Kvs.Memory.Laws.{view, memory-IsMap}
use trustmee_artifact.PolicyEngine.{
  policy_not_found, policy_is_not_utf8_string, RegoTools, rego, policy_of, get_policy, set_policy,
  evaluate,
}
use trustmee_artifact.PolicyEngine.Storage.{evaluate-set_policy}

-- texts of the letters p and q
abbrev as_bytes : String → Bytes
as_bytes String.[] = []
as_bytes (String.◌∷◌ c s) = code c ∷ as_bytes s

abbrev from_utf8 : Bytes → Option String
from_utf8 [] = some String.[]
from_utf8 (b ∷ bytes) =
    let rest = from_utf8 bytes in
    if b == b'p'
    then Option.map (String.◌∷◌ "p") rest
    else (if b == b'q' then Option.map (String.◌∷◌ "q") rest else none)

-- a policy is its own result
abbrev tools : RegoTools
tools = record {
  Engine = String;
  RegoValue = String;
  Value = String;
  new = "";
  add_policy = λ path policy engine. some policy;
  from_json_str = λ text. some text;
  add_data = λ value engine. some engine;
  set_input_json = λ input engine. some engine;
  eval_rule = λ rule engine. some engine;
  to_json_str = λ value. some value;
  from_str = λ text. some text;
  sha384 = λ bytes. bytes;
  hex = λ bytes. "hash";
  as_bytes = as_bytes;
  from_utf8 = from_utf8;
}

policies : Unit {0}
unfolding rego policy_of get_policy set_policy evaluate has_key write set get Dict.get Dict.insert
policies = tt

abbrev shelf : Items
shelf = ("default", as_bytes "p") ∷ []

before :
    (evaluate tools memory "{}" "{}" "default" shelf).0
    ≡ ok (record { rules_result = "p"; policy_hash = "hash" })
unfolding policies
before = refl

missing : (evaluate tools memory "{}" "{}" "other" shelf).0 ≡ err (policy_not_found "other")
unfolding policies
missing = refl

not_text :
    (evaluate tools memory "{}" "{}" "bad" (("bad", 0 ∷ []) ∷ [])).0
    ≡ err (policy_is_not_utf8_string "bad")
unfolding policies
not_text = refl

evaluate-set_policy_example :
    (evaluate tools memory "{}" "{}" "default"
      (set_policy tools memory "default" "q" true shelf).1).0
    ≡ (if may_write (record { overwrite = true }) (view shelf "default")
          && str_eq "default" "default"
        then rego tools "{}" "{}" "q"
        else (evaluate tools memory "{}" "{}" "default" shelf).0)
evaluate-set_policy_example =
    evaluate-set_policy tools memory view "{}" "{}" "default" "default" "q" true shelf memory-IsMap
      refl
