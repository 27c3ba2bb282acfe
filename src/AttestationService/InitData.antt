-- ===== src/AttestationService/InitData.antt =====
-- The claims of init data in TOML.
use mathlib.Core.Option
use trustmee_artifact.Prelude.{
  String, ◌≡◌, refl, ◌∙◌, inl, inr, false, Bool-cases, Option, none, some, [], ◌∷◌, str_eq,
}
use trustmee_artifact.Prelude.Dict.{Dict, get, remove, get-insert, get-remove}
use trustmee_artifact.AttestationService.{
  Services, texts_to_json, convert_toml, replace_toml, replace_policy, init_data_claims,
}

module _ {Json Tee Algorithm : Type 0} (services : Services Json Tee Algorithm) where
  get-texts_to_json :
      (k : String) (texts : Dict String)
      → get k (texts_to_json services texts) ≡ Option.map services.string (get k texts)
  unfolding get texts_to_json
  get-texts_to_json k [] = refl
  get-texts_to_json k ((j, text) ∷ texts) = elim (Bool-cases (str_eq j k)) [
    | inl same ↦ cc same
    | inr other ↦ cc (other, get-texts_to_json k texts)
  ]

  -- replacing one key leaves the others
  get-replace_toml :
      (key k : String) (value : Option Json) (claims : Dict Json)
      → str_eq key k ≡ false
      → get k (replace_toml services key value claims) ≡ get k claims
  unfolding replace_toml
  get-replace_toml key k none claims other = refl
  get-replace_toml key k (some value) claims other = cc (other, get-insert key k value claims)

  get-replace_policy :
      (k : String) (value : Option Json) (claims : Dict Json)
      → str_eq "policy.rego" k ≡ false
      → str_eq "agent_policy_claims" k ≡ false
      → get k (replace_policy services value claims) ≡ get k claims
  unfolding replace_policy
  get-replace_policy k none claims not_rego not_agent = refl
  get-replace_policy k (some value) claims not_rego not_agent = cc (
    not_rego,
    not_agent,
    get-insert "agent_policy_claims" k value (remove "policy.rego" claims),
    get-remove "policy.rego" k claims,
  )

  -- Under every key but `cdh.toml`, `aa.toml`, `policy.rego` and `agent_policy_claims`, the claims of
  -- init data are the data's own texts.
  pub get-init_data_claims :
      (k : String) (texts : Dict String)
      → str_eq "cdh.toml" k ≡ false
      → str_eq "aa.toml" k ≡ false
      → str_eq "policy.rego" k ≡ false
      → str_eq "agent_policy_claims" k ≡ false
      → get k (init_data_claims services texts) ≡ Option.map services.string (get k texts)
  unfolding init_data_claims
  get-init_data_claims k texts not_cdh not_aa not_rego not_agent =
      let claims = texts_to_json services texts in
      let cdh = convert_toml services "cdh.toml" claims in
      get-replace_policy k _ (convert_toml services "aa.toml" cdh) not_rego not_agent
      ∙ get-replace_toml "aa.toml" k _ cdh not_aa
      ∙ get-replace_toml "cdh.toml" k _ claims not_cdh
      ∙ get-texts_to_json k texts
