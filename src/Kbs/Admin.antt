-- ===== src/Kbs/Admin.antt =====
-- kbs/src/admin: the backends that decide whether a request is an administrator's. The bearer header
-- of a request is parsed by actix, and a key verifies a token by jwt-simple: parameters.
pub mod Laws
use trustmee_artifact.Prelude.{
  Bytes, ℕ, zero, suc, ◌+◌, ◌-◌, ◌*◌, ◌/◌, ◌%◌, ◌^◌, ◌≤◌, ◌<◌, String, ◌≡◌, refl, sym, ap, ◌∙◌, ◌≢◌,
  ◌↔◌, ◌⊎◌, inl, inr, Bool, true, false, ◌&&◌, ◌||◌, not, Option, none, some, List, [], ◌∷◌, ◌++◌,
  map, arith, str_eq, eq_iff, ltb, leb, ◌==◌, if◌then◌else◌, Bool-cases, Option-cases, length,
  get_elem?, take, drop, replicate, All, length-append, length-take, length-drop, Result, ok, err,
  panic, ◌>>=◌, ◌>>◌, ok_or, guard, map_err, >>=-eq-ok, ==_iff,
}

pub data AdminError : Type 0 where
  admin_access_denied admin_endpoints_disabled parse_auth_header_failed : AdminError
  no_public_key_given read_public_key parse_public_key : AdminError

pub record SimplePersona (Key : Type 0) : Type 0 where
  pub id : String
  pub public_key : Key

pub data AdminBackend (Key : Type 0) : Type 0 where
  simple : List (SimplePersona Key) → AdminBackend Key
  insecure_allow_all : AdminBackend Key
  deny_all : AdminBackend Key

module _ {Key : Type 0} where
  -- `SimpleAdminBackend::new`, with the file system and the parser of keys
  unfoldable pub new_personas :
      (String → Option String)
      → (String → Option Key)
      → List (String × String)
      → Result AdminError (List (SimplePersona Key))
  new_personas read_to_string from_pem [] = ok []
  new_personas read_to_string from_pem ((i, path) ∷ configs) = do
    pem ← ok_or (read_to_string path) read_public_key
    key ← ok_or (from_pem pem) parse_public_key
    personas ← new_personas read_to_string from_pem configs
    ok (record { id = i; public_key = key } ∷ personas)

  -- the loop of `SimpleAdminBackend::validate_admin_token`, which stops at the first key that fits
  unfoldable pub any_persona : (Key → String → Bool) → List (SimplePersona Key) → String → Bool
  any_persona verify_token [] token = false
  any_persona verify_token (p ∷ ps) token =
      if verify_token p.public_key token then true else any_persona verify_token ps token

  -- `validate_admin_token`, with the bearer token of the request: `none` if the header is unreadable
  unfoldable pub validate_admin_token :
      (Key → String → Bool) → AdminBackend Key → Option String → Result AdminError (Unit {0})
  unfolding any_persona
  validate_admin_token verify_token insecure_allow_all bearer = ok tt
  validate_admin_token verify_token deny_all bearer = err admin_endpoints_disabled
  validate_admin_token verify_token (simple personas) none = err parse_auth_header_failed
  validate_admin_token verify_token (simple personas) (some token) =
      if any_persona verify_token personas token then ok tt else err admin_access_denied
