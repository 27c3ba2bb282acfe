-- ===== src/PolicyEngine/Storage.antt =====
-- The policy engine on a storage that keeps the contract of key-value storages.
use trustmee_artifact.Prelude.{
  Bytes, String, ◌≡◌, sym, ap, ◌∙◌, Bool, true, false, ◌&&◌, Option, some, Result, ◌>>=◌, str_eq,
  if◌then◌else◌,
}
use trustmee_artifact.Kvs.{KeyValueStorage}
use trustmee_artifact.Kvs.Contract.{may_write, IsMap}
use trustmee_artifact.PolicyEngine.{
  PolicyError, EvaluationResult, RegoTools, rego, policy_of, get_policy, set_policy, evaluate,
}

module _ (tools : RegoTools) {S : Type 0} (storage : KeyValueStorage S)
    (view : S → String → Option Bytes) where
  -- what the evaluation gives for what the storage has
  abbrev verdict :
      String → String → String → Option Bytes → Result PolicyError (EvaluationResult tools.Value)
  verdict data_text input id found = policy_of tools id found >>= rego tools data_text input

  evaluate_view :
      (data_text input id : String) (s : S)
      → IsMap storage view
      → (evaluate tools storage data_text input id s).0 ≡ verdict data_text input id (view s id)
  unfolding evaluate get_policy
  evaluate_view data_text input id s kept = rw (kept.get_view s id)

  verdict_if :
      (data_text input other policy : String) (s : S) (b : Bool)
      → IsMap storage view
      → tools.from_utf8 (tools.as_bytes policy) ≡ some policy
      → verdict data_text input other (if b then some (tools.as_bytes policy) else view s other) ≡ (
          if b
          then rego tools data_text input policy
          else (evaluate tools storage data_text input other s).0)
  unfolding policy_of
  verdict_if data_text input other policy s true kept utf8 = rw utf8
  verdict_if data_text input other policy s false kept utf8 =
      sym (evaluate_view data_text input other s kept)

  -- The policy that `set_policy` stores is the one that is evaluated under its id, and whatever
  -- `set_policy` answers no other id is affected, if the storage is a map and the policy is read
  -- back from its bytes: an evaluation afterwards is that of the new policy when the id is its own and
  -- `overwrite` was asked for or there was none, and is otherwise what it was before.
  pub evaluate-set_policy :
      (data_text input id other policy : String) (overwrite : Bool) (s : S)
      → IsMap storage view
      → tools.from_utf8 (tools.as_bytes policy) ≡ some policy
      → (evaluate tools storage data_text input other
          (set_policy tools storage id policy overwrite s).1).0
        ≡ (if may_write (record { overwrite = overwrite }) (view s id) && str_eq id other
            then rego tools data_text input policy
            else (evaluate tools storage data_text input other s).0)
  unfolding set_policy
  evaluate-set_policy data_text input id other policy overwrite s kept utf8 =
      evaluate_view data_text input other _ kept
      ∙ (ap (verdict data_text input other)
            (kept.set_view s id (tools.as_bytes policy) (record { overwrite = overwrite }) other)
          ∙ verdict_if data_text input other policy s
              (may_write (record { overwrite = overwrite }) (view s id) && str_eq id other) kept
              utf8)
