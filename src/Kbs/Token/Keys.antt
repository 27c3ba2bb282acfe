-- ===== src/Kbs/Token/Keys.antt =====
-- Where the TEE's public key is found in the claims.
use trustmee_artifact.Prelude.{
  String, ◌≡◌, refl, ap, ◌∙◌, ◌↔◌, inl, inr, Option, none, some, List, [], ◌∷◌, ◌++◌, Option-cases,
  All, ok, ok_or-ok,
}
use trustmee_artifact.Kbs.Token.{extract_from}

module _ {Value Key : Type 0} (pointer : Value → String → Option Value)
    (deserialize : Value → Option Key) where
  -- the key is what stands at the first of the paths that the claims have
  pub record IsAtFirst (paths : List String) (claim : Value) (key : Key) : Type 0 where
    pub before : List String
    pub path : String
    pub after : List String
    pub value : Value
    pub in_order : paths ≡ before ++ (path ∷ after)
    pub missing : All (λ p. pointer claim p ≡ none) before
    pub there : pointer claim path ≡ some value
    pub parsed : deserialize value ≡ some key

  later :
      (path : String) (paths : List String) (claim : Value) (key : Key)
      → pointer claim path ≡ none
      → IsAtFirst paths claim key
      → IsAtFirst (path ∷ paths) claim key
  later path paths claim key none_here found = record {
    before = path ∷ found.before;
    path = found.path;
    after = found.after;
    value = found.value;
    in_order = ap (λ ps. path ∷ ps) found.in_order;
    missing = (none_here, found.missing);
    there = found.there;
    parsed = found.parsed;
  }

  extract_from-IsAtFirst :
      (paths : List String) (claim : Value) (key : Key)
      → extract_from pointer deserialize paths claim ≡ ok key
      → IsAtFirst paths claim key
  unfolding extract_from
  extract_from-IsAtFirst [] claim key h = cc
  extract_from-IsAtFirst (path ∷ paths) claim key h = elim (Option-cases (pointer claim path)) [
    | inl missing ↦
        later path paths claim key missing
          (extract_from-IsAtFirst paths claim key (rw (extract_from, missing) at h))
    | inr (value, there) ↦ record {
      before = [];
      path = path;
      after = paths;
      value = value;
      in_order = refl;
      missing = tt;
      there = there;
      parsed = ok_or-ok _ _ (rw (extract_from, there) at h);
    }
  ]

  skip_missing :
      (before paths : List String) (claim : Value)
      → All (λ p. pointer claim p ≡ none) before
      → extract_from pointer deserialize (before ++ paths) claim
        ≡ extract_from pointer deserialize paths claim
  unfolding extract_from
  skip_missing [] paths claim h = refl
  skip_missing (p ∷ before) paths claim (h, hs) = rw (h, skip_missing before paths claim hs)

  at_first :
      (path : String) (after : List String) (claim value : Value) (key : Key)
      → pointer claim path ≡ some value
      → deserialize value ≡ some key
      → extract_from pointer deserialize (path ∷ after) claim ≡ ok key
  unfolding extract_from
  at_first path after claim value key there parsed = rw (extract_from, there, parsed)

  -- The key is extracted exactly if it stands, readable, at the first of the paths that the claims
  -- have: a value at an earlier path is never passed over.
  pub extract_from_iff :
      (paths : List String) (claim : Value) (key : Key)
      → (extract_from pointer deserialize paths claim ≡ ok key) ↔ IsAtFirst paths claim key
  extract_from_iff paths claim key = (
    extract_from-IsAtFirst paths claim key,
    λ found.
        ap (λ ps. extract_from pointer deserialize ps claim) found.in_order
        ∙ (skip_missing found.before (found.path ∷ found.after) claim found.missing
            ∙ at_first found.path found.after claim found.value key found.there found.parsed),
  )
