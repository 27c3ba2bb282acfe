-- ===== src/Kbs/Attestation/Tokens.antt =====
-- Which tokens a client can get from its session.
use trustmee_artifact.Prelude.{ℕ, ◌≤◌, String, ◌≡◌, refl, Option, none, some, arith, ok}
use trustmee_artifact.Kbs.Session.{
  SessionStatus, authed, attested, ConcurrentMap, ConcurrentMapLaws, is_expired,
}
use trustmee_artifact.Kbs.Attestation.{Libraries, Attest, Metrics}
use trustmee_artifact.Kbs.Attestation.Service.{get_attest_token_from_session, token_of}
use trustmee_artifact.Kbs.Attestation.World.{World, start, Reach, Earned}
use trustmee_artifact.Kbs.Attestation.Sound.{Sound, IsGood?, start-IsSound, Step-IsSound}

module _ {B : Type 0} (libs : Libraries) (maps : ConcurrentMap (SessionStatus libs.Tee libs.Json))
    (laws : ConcurrentMapLaws maps) (inner : Attest libs.Tee libs.Json B) where
  open libs use {Tee, Json}

  Reach-IsSound :
      {w v : World libs maps inner}
      → Sound libs maps laws inner w
      → Reach libs maps inner w v
      → Sound libs maps laws inner v
  Reach-IsSound h Reach.done = h
  Reach-IsSound h (Reach.next r s) = Step-IsSound libs maps laws inner (Reach-IsSound h r) s

  -- What a session that gives a token looks like
  token_of-attested :
      (v : Option (SessionStatus Tee Json)) (now : ℕ) (token : String)
      → token_of libs maps inner v now ≡ ok token
      → (i : String) × (t : ℕ) × (v ≡ some (attested token i t)) × (now ≤ t)
  unfolding token_of is_expired
  token_of-attested none now token h = cc
  token_of-attested (some (authed request c i t)) now token h = absurd (ground arith)
  token_of-attested (some (attested old i t)) now token h = (i, t, ground arith, ground arith)

  -- However requests, tasks and sweeps interleave, a token that a client gets from its session was
  -- given by the backend for evidence whose primary piece is of the TEE, and all of whose pieces are
  -- bound to the nonce, of a challenge that `auth` answered for that very session; and the session
  -- has not expired.
  pub tokens_follow_challenges :
      (b : B) (timeout : ℕ) (metrics : Metrics) (w : World libs maps inner) (k : Option String)
      (now : ℕ) (token : String)
      → Reach libs maps inner (start libs maps inner b timeout metrics) w
      → get_attest_token_from_session libs maps inner k now w.service ≡ ok token
      → (id i : String) × (t : ℕ) × (k ≡ some id)
        × Earned libs maps inner w.issued id token
        × (maps.get id w.service.session_map ≡ some (attested token i t))
        × (now ≤ t)
  unfolding get_attest_token_from_session
  tokens_follow_challenges b timeout metrics w none now token r h = cc
  tokens_follow_challenges b timeout metrics w (some id) now token r h =
      let (i, t, found, alive) =
        token_of-attested (maps.get id w.service.session_map) now token h in
      let sound = Reach-IsSound (start-IsSound libs maps laws inner b timeout metrics) r in
      (id, i, t, refl, earned id i t found (sound.sessions id), found, alive)
    where
      earned :
          (id i : String) (t : ℕ)
          → maps.get id w.service.session_map ≡ some (attested token i t)
          → IsGood? libs maps inner w.issued id (maps.get id w.service.session_map)
          → Earned libs maps inner w.issued id token
      earned id i t found good = rw found at good
