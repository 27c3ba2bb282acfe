-- ===== src/Kbs/Admin/Laws.antt =====
-- Who is let in as an administrator.
use mathlib.Core.Path.{subst}
use mathlib.Core.Option.{some-injective}
use trustmee_artifact.Prelude.{
  String, ◌≡◌, refl, sym, ◌↔◌, ◌⊎◌, inl, inr, Bool, true, Option, none, some, List, [], ◌∷◌, arith,
  Bool-cases, ok,
}
use trustmee_artifact.Kbs.Admin.{SimplePersona, simple, any_persona, validate_admin_token}

-- Some persona of the list has a key that verifies the token.
abbrev pub SomeKey :
    {Key : Type 0} → (Key → String → Bool) → List (SimplePersona Key) → String → Type 0
SomeKey verify_token [] token = ⊥
SomeKey verify_token (p ∷ ps) token =
    (verify_token p.public_key token ≡ true) ⊎ SomeKey verify_token ps token

module _ {Key : Type 0} (verify_token : Key → String → Bool) where
  any_persona_iff :
      (ps : List (SimplePersona Key)) (token : String)
      → (any_persona verify_token ps token ≡ true) ↔ SomeKey verify_token ps token
  unfolding any_persona
  any_persona_iff [] token = (λ h. cc, λ h. absurd h)
  any_persona_iff (p ∷ ps) token = elim (Bool-cases (verify_token p.public_key token)) [
    | inl fits ↦ (λ h. inl fits, λ h. rw fits)
    | inr not_fits ↦
        let (to, from) = any_persona_iff ps token in
        (
          λ h. inr (to (rw not_fits at h)),
          λ h. elim h [ inl fits ↦ cc | inr later ↦ rw not_fits (from later) ],
        )
  ]

  -- The simple backend lets a request in exactly if it carries a bearer token which the key of some
  -- configured persona verifies.
  pub simple_admin_iff :
      (ps : List (SimplePersona Key)) (bearer : Option String)
      → (validate_admin_token verify_token (simple ps) bearer ≡ ok tt)
        ↔ ((token : String) × (bearer ≡ some token) × SomeKey verify_token ps token)
  unfolding validate_admin_token
  simple_admin_iff ps none = (λ h. cc, λ h. cc (h.1))
  simple_admin_iff ps (some token) = (
    λ h. (token, refl, (any_persona_iff ps token).0 (ground arith)),
    λ h. let (t, same, key) = h in rw ((any_persona_iff ps token).1 (moved t same key)),
  )
    where
      moved :
          (t : String)
          → some token ≡ some t
          → SomeKey verify_token ps t
          → SomeKey verify_token ps token
      moved t same key = subst (SomeKey verify_token ps) (sym (some-injective token t same)) key
