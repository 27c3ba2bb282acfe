-- ===== src/Kbs/Attestation/Effects.antt =====
-- What each handler of the attestation service does to the sessions.
use trustmee_artifact.Prelude.{
  Bytes, ℕ, ◌+◌, String, ◌≡◌, refl, ap, ◌⊎◌, inl, inr, Option, none, some, List, [], ◌∷◌, arith,
  Bool-cases, Option-cases, Result-cases, All, ok, err,
}
use mathlib.Core.Path.{subst}
use trustmee_artifact.Kbs.Session
use trustmee_artifact.Kbs.Session.{
  Request, Challenge, SessionStatus, authed, attested, Cookie, ConcurrentMap, ConcurrentMapLaws,
  auth as new_session, is_expired, cookie, keep_if, or_else, replaced,
}
use trustmee_artifact.Kbs.Attestation.{
  Attestation, RuntimeData, additional, primary, IndependentEvidence, Libraries, Attest, is_empty,
  AttestationError, Response, challenge_body,
}
use trustmee_artifact.Kbs.Attestation.Service.{
  prepared, Service, with_metrics, count_request, auth, begin_attest, begin_with, collect_evidence,
  primary_evidence, additional_list, finish_attest,
}

-- the nonce inside the runtime data of a piece of evidence
abbrev pub nonce_of : {Json : Type 0} → RuntimeData Json → String
nonce_of (additional tee_pubkey nonce) = nonce
nonce_of (primary tee_pubkey nonce evidence) = nonce

-- Evidence collected for a challenge: the primary piece is of the TEE that asked for the challenge,
-- and every piece is bound to the nonce of the challenge.
abbrev pub IsFor : {Tee Json : Type 0} → Tee → String → List (IndependentEvidence Tee Json) → Type 0
IsFor tee nonce [] = ⊥
IsFor tee nonce (e ∷ es) = (e.tee ≡ tee) × All (λ x. nonce_of x.runtime_data ≡ nonce) (e ∷ es)

module _ {B : Type 0} (libs : Libraries) (maps : ConcurrentMap (SessionStatus libs.Tee libs.Json))
    (inner : Attest libs.Tee libs.Json B) where
  open libs use {Tee, Json}

  additional_list-nonce :
      (pubkey : Json) (nonce : String) (entries : List (Tee × Json))
      → All
          (λ x. nonce_of x.runtime_data ≡ nonce)
          (additional_list libs maps inner pubkey nonce entries)
  unfolding additional_list
  additional_list-nonce pubkey nonce [] = tt
  additional_list-nonce pubkey nonce ((tee, e) ∷ entries) =
      (refl, additional_list-nonce pubkey nonce entries)

  collect_evidence-IsFor :
      (tee : Tee) (nonce : String) (a : Attestation Json) (ev : List (IndependentEvidence Tee Json))
      → collect_evidence libs maps inner tee nonce a ≡ some ev
      → IsFor tee nonce ev
  unfolding collect_evidence primary_evidence
  collect_evidence-IsFor tee nonce a ev h = elim (Bool-cases (is_empty a.additional_evidence)) [
    | inl none_given ↦
        let e : (primary_evidence libs maps inner tee nonce a ∷ []) ≡ ev = ground arith in
        subst (IsFor tee nonce) e (refl, (refl, tt))
    | inr given ↦ elim (Option-cases (libs.parse_additional a.additional_evidence)) [
      | inl bad ↦ absurd (ground arith)
      | inr (entries, parsed) ↦
          let e : (primary_evidence libs maps inner tee nonce a
                ∷ additional_list libs maps inner a.tee_pubkey nonce entries)
              ≡ ev =
            ground arith in
          subst (IsFor tee nonce) e (refl, (refl, additional_list-nonce a.tee_pubkey nonce entries))
    ]
  ]

  pub begin_attest-sessions :
      (body : Bytes) (k : Option String) (now : ℕ) (s : Service libs maps inner)
      → (begin_attest libs maps inner body k now s).1.session_map ≡ s.session_map
  unfolding begin_attest
  begin_attest-sessions body k now s = ground arith

  pub begin_attest-inner :
      (body : Bytes) (k : Option String) (now : ℕ) (s : Service libs maps inner)
      → (begin_attest libs maps inner body k now s).1.inner ≡ s.inner
  unfolding begin_attest
  begin_attest-inner body k now s = ground arith

  -- A prepared task has evidence for the challenge of a session that is waiting for it.
  abbrev pub IsPrepared :
      (Option (SessionStatus Tee Json)) → List (IndependentEvidence Tee Json) → Type 0
  IsPrepared none ev = ⊥
  IsPrepared (some (authed request challenge i t)) ev = IsFor request.tee challenge.nonce ev
  IsPrepared (some (attested token i t)) ev = ⊥

  begin_with-prepared :
      (a : Attestation Json) (k id : String) (v : SessionStatus Tee Json)
      (s : Service libs maps inner) (ev : List (IndependentEvidence Tee Json))
      → (begin_with libs maps inner a k v s).0 ≡ prepared id ev
      → (k ≡ id) × IsPrepared (some v) ev
  unfolding begin_with
  begin_with-prepared a k id (attested token i t) s ev h = absurd (ground arith)
  begin_with-prepared a k id (authed request challenge i t) s ev h =
      (ground arith, collect_evidence-IsFor request.tee challenge.nonce a ev (ground arith))

  pub begin_attest-prepared :
      (body : Bytes) (k : Option String) (now : ℕ) (id : String) (s : Service libs maps inner)
      (ev : List (IndependentEvidence Tee Json))
      → (begin_attest libs maps inner body k now s).0 ≡ prepared id ev
      → (k ≡ some id) × IsPrepared (maps.get id s.session_map) ev
  unfolding begin_attest
  begin_attest-prepared body none now id s ev h = absurd (ground arith)
  begin_attest-prepared body (some k) now id s ev h =
      elim (Option-cases (libs.parse_attestation body)) [
        | inl bad ↦ absurd (ground arith)
        | inr (a, parsed) ↦ elim (Option-cases (maps.get k s.session_map)) [
          | inl missing ↦ absurd (ground arith)
          | inr (v, found) ↦ elim (Bool-cases (is_expired v now)) [
            | inl late ↦ absurd (ground arith)
            | inr early ↦
                let started : (begin_with libs maps inner a k v
                      (with_metrics libs maps inner count_request s)).0
                    ≡ prepared id ev =
                  ground arith in
                let (same, p) = begin_with-prepared a k id v _ ev started in
                (ap some same, rw (← same, found) p)
          ]
        ]
      ]

  -- The second step either leaves the sessions alone or marks the session as attested, with the
  -- token that the backend gave for the evidence.
  pub finish_attest-sessions :
      (id : String) (ev : List (IndependentEvidence Tee Json)) (s : Service libs maps inner)
      → ((finish_attest libs maps inner id ev s).1.session_map ≡ s.session_map)
        ⊎ ((token i : String) × (t : ℕ) × (inner.verify ev s.inner ≡ ok token)
            × ((finish_attest libs maps inner id ev s).1.session_map
                ≡ maps.write id (attested token i t) s.session_map))
  unfolding finish_attest Session.attest Session.cookie
  finish_attest-sessions id ev s = elim (Option-cases (maps.get id s.session_map)) [
    | inl missing ↦ inl (ground arith)
    | inr (attested old i t, found) ↦ inl (ground arith)
    | inr (authed request challenge i t, found) ↦
        elim (Option-cases (libs.tee_to_string request.tee)) [
          | inl bad ↦ inl (ground arith)
          | inr (name, shown) ↦ elim (Result-cases (inner.verify ev s.inner)) [
            | inr (inl (e, refused)) ↦ inl (ground arith)
            | inr (inr panics) ↦ inl (ground arith)
            | inl (token, verified) ↦ elim (Option-cases (libs.token_to_string token)) [
              | inl unprintable ↦ inl (ground arith)
              | inr (body, printed) ↦ inr (token, i, t, verified, ground arith)
            ]
          ]
        ]
  ]

  pub finish_attest-inner :
      (id : String) (ev : List (IndependentEvidence Tee Json)) (s : Service libs maps inner)
      → (finish_attest libs maps inner id ev s).1.inner ≡ s.inner
  unfolding finish_attest
  finish_attest-inner id ev s = ground arith

  -- `auth` without an answer leaves the sessions alone.
  pub auth_err-sessions :
      (body : Bytes) (i : String) (now : ℕ) (e : AttestationError) (s : Service libs maps inner)
      → (auth libs maps inner body i now s).0 ≡ err e
      → (auth libs maps inner body i now s).1.session_map ≡ s.session_map
  unfolding auth
  auth_err-sessions body i now e s h = ground arith

  -- `auth` with an answer adds a session that waits for the answered challenge.
  pub auth_ok-sessions :
      (body : Bytes) (i : String) (now : ℕ) (r : Response Json) (s : Service libs maps inner)
      → (auth libs maps inner body i now s).0 ≡ ok r
      → (request : Request Tee Json) × (c : Challenge Json) × (libs.parse_request body
          ≡ some request)
        × (r.body ≡ challenge_body c)
        × ((auth libs maps inner body i now s).1.session_map
            ≡ maps.insert i (authed request c i (now + s.timeout)) s.session_map)
  unfolding auth new_session
  auth_ok-sessions body i now r s h = elim (Option-cases (libs.parse_request body)) [
    | inl bad ↦ absurd (ground arith)
    | inr (request, parsed) ↦ elim (Option-cases (libs.parse_version request.version)) [
      | inl bad ↦ absurd (ground arith)
      | inr (version, known) ↦
          elim (Option-cases (inner.generate_challenge request.tee request.extra_params s.inner)) [
            | inl refused ↦ absurd (ground arith)
            | inr (c, given) ↦ (request, c, parsed, ground arith, ground arith)
          ]
    ]
  ]
