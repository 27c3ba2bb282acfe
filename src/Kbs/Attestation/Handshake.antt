-- ===== src/Kbs/Attestation/Handshake.antt =====
-- The handshake on one session: what `attest` does twice, in sequence and overlapping, and what the
-- counters of `auth` count.
use trustmee_artifact.Prelude.{
  Bytes, ℕ, ◌+◌, ◌≤◌, String, ◌≡◌, refl, sym, ap, ◌∙◌, ◌≢◌, inl, inr, Option, none, some, List,
  arith, eq_iff, Option-cases, Result-cases, ok, panic,
}
use trustmee_artifact.Kbs.Session
use trustmee_artifact.Kbs.Session.{
  Request, Challenge, SessionStatus, authed, attested, Cookie, ConcurrentMap, ConcurrentMapLaws,
  is_expired, cookie, keep_if, or_else, replaced,
}
use trustmee_artifact.Kbs.Attestation.{
  Attestation, IndependentEvidence, Libraries, Attest, Response, token_body,
}
use trustmee_artifact.Kbs.Attestation.Service.{
  Begun, finished, prepared, Service, auth, begin_attest, finish_attest, finish_session, attest,
  continue_attest,
}
use trustmee_artifact.Kbs.Attestation.Effects.{
  IsPrepared, begin_attest-sessions, begin_attest-prepared,
}

module _ {B : Type 0} (libs : Libraries) (maps : ConcurrentMap (SessionStatus libs.Tee libs.Json))
    (inner : Attest libs.Tee libs.Json B) where
  open libs use {Tee, Json}

  -- Each call of `auth` is counted once as a request, and once as a success if it answers and once
  -- as an error if it does not.
  pub auth_counted :
      (body : Bytes) (i : String) (now : ℕ) (s : Service libs maps inner)
      → let (r, s') = auth libs maps inner body i now s in
        (s'.metrics.auth_requests ≡ s.metrics.auth_requests + 1)
        × (s'.metrics.auth_successes ≡ s.metrics.auth_successes + elim r [ ok _ ↦ 1 | _ ↦ 0 ])
        × (s'.metrics.auth_errors ≡ s.metrics.auth_errors + elim r [ ok _ ↦ 0 | _ ↦ 1 ])
  unfolding auth
  auth_counted body i now s = (ground arith, ground arith, ground arith)

  finish_session-panics :
      (id : String) (ev : List (IndependentEvidence Tee Json)) (v : Option (SessionStatus Tee Json))
      (s : Service libs maps inner)
      → IsPrepared libs maps inner v ev
      → (finish_session libs maps inner id ev v s).0 ≡ panic
      → inner.verify ev s.inner ≡ panic
  unfolding finish_session
  finish_session-panics id ev none s p h = absurd p
  finish_session-panics id ev (some (attested token i t)) s p h = absurd p
  finish_session-panics id ev (some (authed request c i t)) s p h =
      elim (Option-cases (libs.tee_to_string request.tee)) [
        | inl bad ↦ absurd (ground arith)
        | inr (name, shown) ↦ elim (Result-cases (inner.verify ev s.inner)) [
          | inr (inl (e, refused)) ↦ absurd (ground arith)
          | inr (inr panics) ↦ panics
          | inl (token, verified) ↦ absurd (ground arith)
        ]
      ]

  begin_attest-ne-panic :
      (body : Bytes) (k : Option String) (now : ℕ) (s : Service libs maps inner)
      → (begin_attest libs maps inner body k now s).0 ≢ finished panic
  unfolding begin_attest
  begin_attest-ne-panic body k now s h = ground arith

  begin_attest-inner :
      (body : Bytes) (k : Option String) (now : ℕ) (s : Service libs maps inner)
      → (begin_attest libs maps inner body k now s).1.inner ≡ s.inner
  unfolding begin_attest
  begin_attest-inner body k now s = ground arith

  continue_attest-panics :
      (b : Begun Tee Json) (s s' : Service libs maps inner)
      → b ≢ finished panic
      → ((id : String) (ev : List (IndependentEvidence Tee Json))
          → b ≡ prepared id ev
          → IsPrepared libs maps inner (maps.get id s.session_map) ev)
      → s'.session_map ≡ s.session_map
      → s'.inner ≡ s.inner
      → (continue_attest libs maps inner (b, s')).0 ≡ panic
      → (id : String) × (ev : List (IndependentEvidence Tee Json)) × (b ≡ prepared id ev)
        × (inner.verify ev s.inner ≡ panic)
  continue_attest-panics (finished r) s s' n p e same h =
      absurd (n (ap finished (unfold continue_attest in h)))
  continue_attest-panics (prepared id ev) s s' n p e same h = (
    id,
    ev,
    refl,
    rw same at (
        finish_session-panics id ev (maps.get id s'.session_map) s' (rw e (p id ev refl))
          (unfold continue_attest finish_attest in h)),
  )

  -- With no other task between its two steps, `attest` panics only when the backend panics in
  -- `verify` on the evidence that the first step has prepared.
  pub attest_panics :
      (body : Bytes) (k : Option String) (now : ℕ) (s : Service libs maps inner)
      → (attest libs maps inner body k now s).0 ≡ panic
      → (id : String) × (ev : List (IndependentEvidence Tee Json)) × ((begin_attest libs maps inner
            body k now s).0
          ≡ prepared id ev)
        × (inner.verify ev s.inner ≡ panic)
  unfolding attest
  attest_panics body k now s =
      continue_attest-panics _ s _ (begin_attest-ne-panic body k now s)
        (λ id ev e. (begin_attest-prepared libs maps inner body k now id s ev e).1)
        (begin_attest-sessions libs maps inner body k now s) (begin_attest-inner body k now s)

  -- What success of the second step says of the session, before and after
  pub finish_attest-ok :
      (id : String) (ev : List (IndependentEvidence Tee Json)) (r : Response Json)
      (s : Service libs maps inner)
      → (finish_attest libs maps inner id ev s).0 ≡ ok r
      → (token i body : String) × (t : ℕ) × (request : Request Tee Json) × (c : Challenge Json)
        × (maps.get id s.session_map ≡ some (authed request c i t))
        × (libs.token_to_string token ≡ some body)
        × (r ≡ record { cookie = record { value = i; expires = t }; body = token_body body })
        × ((finish_attest libs maps inner id ev s).1.session_map
            ≡ maps.write id (attested token i t) s.session_map)
  unfolding finish_attest Session.attest Session.cookie
  finish_attest-ok id ev r s h = elim (Option-cases (maps.get id s.session_map)) [
    | inl missing ↦ absurd (ground arith)
    | inr (attested old i t, found) ↦ absurd (ground arith)
    | inr (authed request c i t, found) ↦ elim (Option-cases (libs.tee_to_string request.tee)) [
      | inl bad ↦ absurd (ground arith)
      | inr (name, shown) ↦ elim (Result-cases (inner.verify ev s.inner)) [
        | inr (inl (e, refused)) ↦ absurd (ground arith)
        | inr (inr panics) ↦ absurd (ground arith)
        | inl (token, verified) ↦ elim (Option-cases (libs.token_to_string token)) [
          | inl unprintable ↦ absurd (ground arith)
          | inr (body, printed) ↦
              (token, i, body, t, request, c, found, printed, ground arith, ground arith)
        ]
      ]
    ]
  ]

module _ {B : Type 0} (libs : Libraries) (maps : ConcurrentMap (SessionStatus libs.Tee libs.Json))
    (laws : ConcurrentMapLaws maps) (inner : Attest libs.Tee libs.Json B) where
  open libs use {Tee, Json}

  -- Success leaves the session attested.
  finish_attest-attested :
      (id : String) (ev : List (IndependentEvidence Tee Json)) (r : Response Json)
      (s : Service libs maps inner)
      → (finish_attest libs maps inner id ev s).0 ≡ ok r
      → (token i body : String) × (t : ℕ) × (libs.token_to_string token ≡ some body)
        × (r ≡ record { cookie = record { value = i; expires = t }; body = token_body body })
        × (maps.get id (finish_attest libs maps inner id ev s).1.session_map
            ≡ some (attested token i t))
  finish_attest-attested id ev r s h =
      let (token, i, body, t, request, c, found, printed, same, written) =
        finish_attest-ok libs maps inner id ev r s h in
      (
        token,
        i,
        body,
        t,
        printed,
        same,
        rw (
          written,
          laws.get-write id id (attested token i t) s.session_map,
          (eq_iff id id).1 refl,
          found,
        ),
      )

  -- Two tasks have prepared evidence for one session. When the first has finished with success, the
  -- second panics.
  pub overlapping_attest_panics :
      (id : String) (ev ev' : List (IndependentEvidence Tee Json)) (r : Response Json)
      (s : Service libs maps inner)
      → (finish_attest libs maps inner id ev s).0 ≡ ok r
      → (finish_attest libs maps inner id ev' (finish_attest libs maps inner id ev s).1).0 ≡ panic
  overlapping_attest_panics id ev ev' r s h =
      let (token, i, body, t, printed, same, found) = finish_attest-attested id ev r s h in
      panics id ev' token i t (finish_attest libs maps inner id ev s).1 found
    where
      panics :
          (id : String) (ev : List (IndependentEvidence Tee Json)) (token i : String) (t : ℕ)
          (s : Service libs maps inner)
          → maps.get id s.session_map ≡ some (attested token i t)
          → (finish_attest libs maps inner id ev s).0 ≡ panic
      panics id ev token i t s found = unfold finish_attest in rw found

  attest_attested :
      (id : String) (body : Bytes) (a : Attestation Json) (token i text : String) (t now : ℕ)
      (s : Service libs maps inner)
      → maps.get id s.session_map ≡ some (attested token i t)
      → libs.token_to_string token ≡ some text
      → libs.parse_attestation body ≡ some a
      → now ≤ t
      → ((attest libs maps inner body (some id) now s).0
          ≡ ok (record { cookie = record { value = i; expires = t }; body = token_body text }))
        × ((attest libs maps inner body (some id) now s).1.session_map ≡ s.session_map)
  unfolding attest is_expired
  attest_attested id body a token i text t now s found printed parsed alive =
      (ground arith, ground arith)

  -- After an `attest` that succeeded, another one with the same cookie, on any readable attestation
  -- and before the session expires, returns the same response and leaves the sessions alone.
  pub attest_again :
      (id : String) (ev : List (IndependentEvidence Tee Json)) (body : Bytes) (a : Attestation Json)
      (now : ℕ) (r : Response Json) (s : Service libs maps inner)
      → (finish_attest libs maps inner id ev s).0 ≡ ok r
      → libs.parse_attestation body ≡ some a
      → now ≤ r.cookie.expires
      → ((attest libs maps inner body (some id) now (finish_attest libs maps inner id ev s).1).0
          ≡ ok r)
        × ((attest libs maps inner body
              (some id)
              now
              (finish_attest libs maps inner id ev s).1).1.session_map
            ≡ (finish_attest libs maps inner id ev s).1.session_map)
  attest_again id ev body a now r s h parsed alive =
      let (token, i, text, t, printed, same, found) = finish_attest-attested id ev r s h in
      let (first, second) =
        attest_attested id body a token i text t now (finish_attest libs maps inner id ev s).1 found
          printed parsed (rw same at alive) in
      (first ∙ ap ok (sym same), second)
