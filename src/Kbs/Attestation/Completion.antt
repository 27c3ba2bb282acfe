-- ===== src/Kbs/Attestation/Completion.antt =====
-- That the handshake of an honest client completes.
use trustmee_artifact.Prelude.{
  Bytes, ℕ, ◌+◌, ◌≤◌, String, ◌≡◌, refl, ap, ◌∙◌, true, false, not, none, some, List, arith, str_eq,
  eq_iff, if◌then◌else◌, Result, ok, err,
}
use trustmee_artifact.Kbs.Session
use trustmee_artifact.Kbs.Session.{
  Request, Challenge, SessionStatus, authed, attested, Cookie, ConcurrentMap, ConcurrentMapLaws,
  is_expired, cookie, keep_if, or_else, replaced,
}
use trustmee_artifact.Kbs.Attestation.{
  Version, kbs_version, Attestation, IndependentEvidence, Libraries, Attest, AttestationError,
  session_expired, Response, challenge_body, token_body,
}
use trustmee_artifact.Kbs.Attestation.Service.{
  prepared, finished, Service, with_metrics, count_auth_request, count_auth_success, count_request,
  count_success, finish_auth, check_version, auth_request, auth, collect_evidence, begin_with,
  begin_session, begin_parsed, begin_cookie, begin_attest, conclude, finish_session, finish_attest,
  continue_attest, attest, token_of, get_attest_token_from_session, sweep, trim_start, trim_end,
}

module _ {B : Type 0} (libs : Libraries) (maps : ConcurrentMap (SessionStatus libs.Tee libs.Json))
    (inner : Attest libs.Tee libs.Json B) where
  open libs use {Tee, Json}

  -- An honest client's two messages, and a backend that makes a challenge and accepts the evidence
  pub record Exchange (s : Service libs maps inner) : Type 0 where
    pub request_body : Bytes
    pub attest_body : Bytes
    pub request : Request Tee Json
    pub version : Version
    pub challenge : Challenge Json
    pub attestation : Attestation Json
    pub evidence : List (IndependentEvidence Tee Json)
    pub token : String
    pub body : String
    pub shown : String
    pub name : String
    pub parses_request : libs.parse_request request_body ≡ some request
    pub parses_version : libs.parse_version request.version ≡ some version
    pub matches : libs.version_matches kbs_version version ≡ true
    pub challenges :
        inner.generate_challenge request.tee request.extra_params s.inner ≡ some challenge
    pub parses_attestation : libs.parse_attestation attest_body ≡ some attestation
    pub answers : str_eq challenge.nonce attestation.nonce ≡ true
    pub shows : libs.attestation_to_string attestation ≡ some shown
    pub collects :
        collect_evidence libs maps inner request.tee challenge.nonce attestation ≡ some evidence
    pub names : libs.tee_to_string request.tee ≡ some name
    pub verifies : inner.verify evidence s.inner ≡ ok token
    pub prints : libs.token_to_string token ≡ some body

  auth-done :
      (s : Service libs maps inner) (x : Exchange s) (i : String) (now : ℕ)
      → auth libs maps inner x.request_body i now s ≡ (
        ok (record {
          cookie = record { value = i; expires = now + s.timeout };
          body = challenge_body x.challenge;
        }),
        record s {
          session_map =
              maps.insert i (authed x.request x.challenge i (now + s.timeout)) s.session_map;
          metrics = count_auth_success (count_auth_request s.metrics);
        },
      )
  unfolding auth auth_request check_version finish_auth Session.auth cookie
  auth-done s x i now = rw (x.parses_request, x.parses_version, x.matches, x.challenges) refl

  -- `attest` on a session that waits for the evidence, up to the verification
  begin-done :
      (s s' : Service libs maps inner) (x : Exchange s) (i : String) (t now : ℕ)
      → maps.get i s'.session_map ≡ some (authed x.request x.challenge i t)
      → is_expired (authed x.request x.challenge i t) now ≡ false
      → begin_attest libs maps inner x.attest_body (some i) now s'
        ≡ (prepared i x.evidence, with_metrics libs maps inner count_request s')
  unfolding begin_attest begin_cookie begin_parsed begin_session
  begin-done s s' x i t now found on_time = rw x.parses_attestation (
      ap (λ o. begin_session libs maps inner x.attestation i o now counted) found
      ∙ ap
          (λ b.
            if b
            then (finished (err session_expired), counted)
            else begin_with libs maps inner x.attestation i (authed x.request x.challenge i t)
                counted)
          on_time
      ∙ waiting)
    where
      counted : Service libs maps inner
      counted = with_metrics libs maps inner count_request s'

      waiting :
          begin_with libs maps inner x.attestation i (authed x.request x.challenge i t) counted
          ≡ (prepared i x.evidence, counted)
      waiting =
          unfold begin_with in
          rw (x.shows, begin_with) (rw (x.answers, begin_with) (rw (x.collects, begin_with) refl))

  -- and from there
  finish-done :
      (s s' : Service libs maps inner) (x : Exchange s) (i : String) (t : ℕ)
      → s'.inner ≡ s.inner
      → maps.get i s'.session_map ≡ some (authed x.request x.challenge i t)
      → finish_attest libs maps inner i x.evidence s' ≡ (
        ok (record { cookie = record { value = i; expires = t }; body = token_body x.body }),
        record s' {
          session_map = maps.write i (attested x.token i t) s'.session_map;
          metrics = count_success (trim_end (trim_start x.name)) s'.metrics;
        },
      )
  unfolding finish_attest finish_session conclude Session.attest Session.cookie
  finish-done s s' x i t same found = rw found (
      rw (x.names, finish_session)
        (rw (same, conclude) (rw (x.verifies, conclude) (rw (x.prints, conclude) refl))))

  attest-done :
      (s s' : Service libs maps inner) (x : Exchange s) (i : String) (t now : ℕ)
      → s'.inner ≡ s.inner
      → maps.get i s'.session_map ≡ some (authed x.request x.challenge i t)
      → is_expired (authed x.request x.challenge i t) now ≡ false
      → attest libs maps inner x.attest_body (some i) now s' ≡ (
        ok (record { cookie = record { value = i; expires = t }; body = token_body x.body }),
        record s' {
          session_map = maps.write i (attested x.token i t) s'.session_map;
          metrics = count_success (trim_end (trim_start x.name)) (count_request s'.metrics);
        },
      )
  unfolding attest continue_attest
  attest-done s s' x i t now same found on_time =
      ap (continue_attest libs maps inner) (begin-done s s' x i t now found on_time)
      ∙ finish-done s (with_metrics libs maps inner count_request s') x i t same found

module _ {B : Type 0} (libs : Libraries) (maps : ConcurrentMap (SessionStatus libs.Tee libs.Json))
    (laws : ConcurrentMapLaws maps) (inner : Attest libs.Tee libs.Json B) where
  open libs use {Tee, Json}

  authed_in_time :
      (request : Request Tee Json) (challenge : Challenge Json) (i : String) (t now : ℕ)
      → now ≤ t
      → is_expired (authed request challenge i t) now ≡ false
  unfolding is_expired
  authed_in_time request challenge i t now h = ground (arith, h)

  attested_in_time :
      (token i : String) (t now : ℕ)
      → now ≤ t
      → is_expired {Tee = Tee} {Json = Json} (attested token i t) now ≡ false
  unfolding is_expired
  attested_in_time token i t now h = ground (arith, h)

  -- a sweep keeps a session that has not expired
  sweep-get :
      (s : Service libs maps inner) (i : String) (now : ℕ) (v : SessionStatus Tee Json)
      → is_expired v now ≡ false
      → maps.get i s.session_map ≡ some v
      → maps.get i (sweep libs maps inner now s).session_map ≡ some v
  unfolding sweep
  sweep-get s i now v alive found =
      laws.get-retain (λ w. not (is_expired w now)) i s.session_map
      ∙ ap (keep_if (λ w. not (is_expired w now))) found
      ∙ ap (λ b. if not b then some v else none) alive

  insert-get :
      (i : String) (v : SessionStatus Tee Json) (m : maps.Map)
      → maps.get i m ≡ none
      → maps.get i (maps.insert i v m) ≡ some v
  insert-get i v m fresh = cc (laws.get-insert i i v m, fresh, (eq_iff i i).1 refl)

  write-get :
      (i : String) (v w : SessionStatus Tee Json) (m : maps.Map)
      → maps.get i m ≡ some w
      → maps.get i (maps.write i v m) ≡ some v
  write-get i v w m there = cc (laws.get-write i i v m, there, (eq_iff i i).1 refl)

  -- An honest client whose session id is new gets the token that the backend issues for its evidence:
  -- `auth` answers the challenge, `attest` the token, and the token can then be read from the session,
  -- with a sweep in between each time, when no step is later than the session's timeout.
  pub handshake_completes :
      (s : Service libs maps inner) (x : Exchange libs maps inner s) (i : String)
      (start swept attests swept_again reads : ℕ)
      → maps.get i s.session_map ≡ none
      → swept ≤ start + s.timeout
      → attests ≤ start + s.timeout
      → swept_again ≤ start + s.timeout
      → reads ≤ start + s.timeout
      → let (challenged, s₁) = auth libs maps inner x.request_body i start s in
        let (answered, s₂) =
          attest libs maps inner x.attest_body (some i) attests (sweep libs maps inner swept s₁) in
        let c : Cookie = record { value = i; expires = start + s.timeout } in
        (challenged ≡ ok (record { cookie = c; body = challenge_body x.challenge }))
        × (answered ≡ ok (record { cookie = c; body = token_body x.body }))
        × (get_attest_token_from_session libs maps inner
              (some i)
              reads
              (sweep libs maps inner swept_again s₂)
            ≡ ok x.token)
  unfolding get_attest_token_from_session token_of sweep
  handshake_completes s x i start swept attests swept_again reads fresh h1 h2 h3 h4 = (
    ap (λ r. r.0) challenged,
    ap (λ r. (verify r.1).0) challenged ∙ ap (λ r. r.0) answered,
    ap (λ r. token_after (verify r.1).1) challenged ∙ ap (λ r. token_after r.1) answered ∙ given,
  )
    where
      t : ℕ
      t = start + s.timeout

      waiting : SessionStatus Tee Json
      waiting = authed x.request x.challenge i t

      done : SessionStatus Tee Json
      done = attested x.token i t

      s₁ : Service libs maps inner
      s₁ = record s {
        session_map = maps.insert i waiting s.session_map;
        metrics = count_auth_success (count_auth_request s.metrics);
      }

      s₂ : Service libs maps inner
      s₂ = sweep libs maps inner swept s₁

      s₃ : Service libs maps inner
      s₃ = record s₂ {
        session_map = maps.write i done s₂.session_map;
        metrics = count_success (trim_end (trim_start x.name)) (count_request s₂.metrics);
      }

      verify :
          Service libs maps inner
          → Result AttestationError (Response Json) × Service libs maps inner
      verify r =
          attest libs maps inner x.attest_body (some i) attests (sweep libs maps inner swept r)

      token_after : Service libs maps inner → Result AttestationError String
      token_after r =
          get_attest_token_from_session libs maps inner (some i) reads
            (sweep libs maps inner swept_again r)

      challenged : auth libs maps inner x.request_body i start s ≡ (
        ok (record {
          cookie = record { value = i; expires = t };
          body = challenge_body x.challenge;
        }),
        s₁,
      )
      challenged = auth-done libs maps inner s x i start

      there : maps.get i s₂.session_map ≡ some waiting
      there =
          sweep-get s₁ i swept waiting (authed_in_time x.request x.challenge i t swept h1)
            (insert-get i waiting s.session_map fresh)

      answered : verify s₁ ≡ (
        ok (record { cookie = record { value = i; expires = t }; body = token_body x.body }),
        s₃,
      )
      answered =
          attest-done libs maps inner s s₂ x i t attests refl there
            (authed_in_time x.request x.challenge i t attests h2)

      found : maps.get i (sweep libs maps inner swept_again s₃).session_map ≡ some done
      found =
          sweep-get s₃ i swept_again done (attested_in_time x.token i t swept_again h3)
            (write-get i done waiting s₂.session_map there)

      given : token_after s₃ ≡ ok x.token
      given =
          ap (λ o. token_of libs maps inner o reads) found
          ∙ ap (λ b. if b then err session_expired else ok x.token)
              (attested_in_time x.token i t reads h4)
