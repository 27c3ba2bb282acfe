-- ===== src/Kbs/Session.antt =====
-- kbs/src/attestation/session.rs: the state machine of the RCAR handshake, and the map of sessions.
-- `Tee` and `Json` stand for the enumeration of kbs_types and for JSON values. Times are counted in
-- minutes from a common origin, and the configured timeout is not negative.
use trustmee_artifact.Prelude.{
  ℕ, ◌+◌, String, ◌≡◌, Bool, Option, none, some, str_eq, ltb, if◌then◌else◌,
}

pub record Request (Tee : Type 0) (Json : Type 0) : Type 0 where
  pub version : String
  pub tee : Tee
  pub extra_params : Json

pub record Challenge (Json : Type 0) : Type 0 where
  pub nonce : String
  pub extra_params : Json

pub data SessionStatus (Tee : Type 0) (Json : Type 0) : Type 0 where
  authed : Request Tee Json → Challenge Json → String → ℕ → SessionStatus Tee Json
  attested : String → String → ℕ → SessionStatus Tee Json

pub record Cookie : Type 0 where
  pub value : String
  pub expires : ℕ

module _ {Tee Json : Type 0} where
  abbrev pub id : SessionStatus Tee Json → String
  id (authed request challenge i timeout) = i
  id (attested token i timeout) = i

  abbrev pub timeout : SessionStatus Tee Json → ℕ
  timeout (authed request challenge i t) = t
  timeout (attested token i t) = t

  -- `SessionStatus::auth`, at the time `now` and with the new id `i`
  unfoldable pub auth : Request Tee Json → ℕ → Challenge Json → String → ℕ → SessionStatus Tee Json
  auth request minutes challenge i now = authed request challenge i (now + minutes)

  unfoldable pub cookie : SessionStatus Tee Json → Cookie
  cookie (authed request challenge i t) = record { value = i; expires = t }
  cookie (attested token i t) = record { value = i; expires = t }

  unfoldable pub is_expired : SessionStatus Tee Json → ℕ → Bool
  is_expired session now = ltb (timeout session) now

  unfoldable pub attest : SessionStatus Tee Json → String → SessionStatus Tee Json
  attest (authed request challenge i t) token = attested token i t
  attest (attested old i t) token = attested old i t

-- `scc::HashMap` with text keys, as its documentation describes it: `insert` leaves an entry that is
-- there, and an entry that was looked up can be written through.
pub record ConcurrentMap (V : Type 0) : Type 1 where
  pub Map : Type 0
  pub new : Map
  pub get : String → Map → Option V
  pub insert : String → V → Map → Map
  pub write : String → V → Map → Map
  pub retain : (V → Bool) → Map → Map

abbrev pub keep_if : {V : Type 0} → (V → Bool) → Option V → Option V
keep_if p none = none
keep_if p (some v) = if p v then some v else none

abbrev pub or_else : {V : Type 0} → Option V → V → Option V
or_else none v = some v
or_else (some w) v = some w

abbrev pub replaced : {V : Type 0} → Option V → V → Option V
replaced none v = none
replaced (some w) v = some v

pub record ConcurrentMapLaws {V : Type 0} (m : ConcurrentMap V) : Type 0 where
  pub get-new : (k : String) → m.get k m.new ≡ none
  pub get-insert :
      (k j : String) (v : V) (s : m.Map)
      → m.get j (m.insert k v s) ≡ (if str_eq k j then or_else (m.get j s) v else m.get j s)
  pub get-write :
      (k j : String) (v : V) (s : m.Map)
      → m.get j (m.write k v s) ≡ (if str_eq k j then replaced (m.get j s) v else m.get j s)
  pub get-retain :
      (p : V → Bool) (k : String) (s : m.Map) → m.get k (m.retain p s) ≡ keep_if p (m.get k s)
