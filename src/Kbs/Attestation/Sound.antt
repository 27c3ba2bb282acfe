-- ===== src/Kbs/Attestation/Sound.antt =====
-- A session carries a token only if the backend gave it for evidence that answers a challenge issued
-- for that session: the invariant, and that every step keeps it.
use trustmee_artifact.Prelude.{
  Bytes, ℕ, ◌+◌, String, ◌≡◌, refl, inl, inr, Bool, Option, none, some, List, [], ◌∷◌, ◌++◌, arith,
  str_eq, eq_iff, if◌then◌else◌, Bool-cases, All, ok,
}
use mathlib.Core.Path.{subst}
use trustmee_artifact.Kbs.Session.{
  Request, Challenge, SessionStatus, authed, attested, Cookie, ConcurrentMap, ConcurrentMapLaws,
  keep_if, or_else, replaced,
}
use trustmee_artifact.Kbs.Attestation.{
  IndependentEvidence, Libraries, Attest, Metrics, challenge_body,
}
use trustmee_artifact.Kbs.Attestation.Service.{
  Begun, finished, prepared, Service, auth, begin_attest, finish_attest, sweep, set_policy,
  register_reference_value,
}
use trustmee_artifact.Kbs.Attestation.Effects.{
  IsFor, IsPrepared, begin_attest-sessions, begin_attest-prepared, finish_attest-sessions,
  auth_err-sessions, auth_ok-sessions,
}
use trustmee_artifact.Kbs.Attestation.World.{
  In, here, there, Issued, Task, World, start, queue, Step, Earned,
}

module _ {B : Type 0} (libs : Libraries) (maps : ConcurrentMap (SessionStatus libs.Tee libs.Json))
    (inner : Attest libs.Tee libs.Json B) where
  open libs use {Tee, Json}

  abbrev pub IsGood : List (Issued Tee) → String → SessionStatus Tee Json → Type 0
  IsGood issued id (authed request c i t) =
      In (record { id = id; tee = request.tee; nonce = c.nonce }) issued
  IsGood issued id (attested token i t) = Earned libs maps inner issued id token

  abbrev pub IsGood? : List (Issued Tee) → String → Option (SessionStatus Tee Json) → Type 0
  IsGood? issued id none = Unit
  IsGood? issued id (some v) = IsGood issued id v

  -- A task's evidence answers a challenge issued for its session.
  pub record IsAnswer (issued : List (Issued Tee)) (task : Task libs maps inner) : Type 0 where
    pub tee : Tee
    pub nonce : String
    pub challenged : In (record { id = task.0; tee = tee; nonce = nonce }) issued
    pub answers : IsFor tee nonce task.1

  pub record IsSound (w : World libs maps inner) : Type 0 where
    pub sessions : (id : String) → IsGood? w.issued id (maps.get id w.service.session_map)
    pub tasks : All (IsAnswer w.issued) w.tasks

  IsGood?-more :
      (x : Issued Tee) (issued : List (Issued Tee)) (id : String)
      (v : Option (SessionStatus Tee Json))
      → IsGood? issued id v
      → IsGood? (x ∷ issued) id v
  IsGood?-more x issued id none h = tt
  IsGood?-more x issued id (some (authed request c i t)) h = there h
  IsGood?-more x issued id (some (attested token i t)) h = record {
    tee = h.tee;
    nonce = h.nonce;
    evidence = h.evidence;
    backend = h.backend;
    challenged = there h.challenged;
    answers = h.answers;
    verified = h.verified;
  }

  IsAnswer-more :
      (x : Issued Tee) (issued : List (Issued Tee)) (ts : List (Task libs maps inner))
      → All (IsAnswer issued) ts
      → All (IsAnswer (x ∷ issued)) ts
  IsAnswer-more x issued [] h = tt
  IsAnswer-more x issued (t ∷ ts) (h, hs) = (
    record { tee = h.tee; nonce = h.nonce; challenged = there h.challenged; answers = h.answers },
    IsAnswer-more x issued ts hs,
  )

  -- A prepared task of a good session is an answer.
  IsAnswer-of_prepared :
      (issued : List (Issued Tee)) (id : String) (v : Option (SessionStatus Tee Json))
      (ev : List (IndependentEvidence Tee Json))
      → IsGood? issued id v
      → IsPrepared libs maps inner v ev
      → IsAnswer issued (id, ev)
  IsAnswer-of_prepared issued id none ev h p = absurd p
  IsAnswer-of_prepared issued id (some (attested token i t)) ev h p = absurd p
  IsAnswer-of_prepared issued id (some (authed request c i t)) ev h p = record {
    tee = request.tee;
    nonce = c.nonce;
    challenged = h;
    answers = p;
  }

  written-IsGood :
      (issued : List (Issued Tee)) (id k token i : String) (t : ℕ)
      (v : Option (SessionStatus Tee Json))
      → IsGood? issued k v
      → Earned libs maps inner issued id token
      → IsGood? issued k (if str_eq id k then replaced v (attested token i t) else v)
  written-IsGood issued id k token i t none h e = elim (Bool-cases (str_eq id k)) [
    | inl same ↦ rw same tt
    | inr other ↦ rw other tt
  ]
  written-IsGood issued id k token i t (some v) h e = elim (Bool-cases (str_eq id k)) [
    | inl same ↦
        rw same
          (subst (λ (j : String). Earned libs maps inner issued j token) ((eq_iff id k).0 same) e)
    | inr other ↦ rw other h
  ]

  inserted-IsGood :
      (issued : List (Issued Tee)) (id k : String) (request : Request Tee Json) (c : Challenge Json)
      (t : ℕ) (v : Option (SessionStatus Tee Json))
      → In (record { id = id; tee = request.tee; nonce = c.nonce }) issued
      → IsGood? issued k v
      → IsGood? issued k (if str_eq id k then or_else v (authed request c id t) else v)
  inserted-IsGood issued id k request c t none new h = elim (Bool-cases (str_eq id k)) [
    | inl same ↦ rw same (
        subst (λ (j : String). In (record { id = j; tee = request.tee; nonce = c.nonce }) issued)
          ((eq_iff id k).0 same) new)
    | inr other ↦ rw other tt
  ]
  inserted-IsGood issued id k request c t (some v) new h = elim (Bool-cases (str_eq id k)) [
    | inl same ↦ rw same h
    | inr other ↦ rw other h
  ]

  kept-IsGood :
      (issued : List (Issued Tee)) (k : String) (p : SessionStatus Tee Json → Bool)
      (v : Option (SessionStatus Tee Json))
      → IsGood? issued k v
      → IsGood? issued k (keep_if p v)
  kept-IsGood issued k p none h = tt
  kept-IsGood issued k p (some v) h = elim (Bool-cases (p v)) [
    | inl kept ↦ rw kept h
    | inr dropped ↦ rw dropped tt
  ]

  All-remove :
      (P : Task libs maps inner → Type 0) (before after : List (Task libs maps inner))
      (t : Task libs maps inner)
      → All P (before ++ t ∷ after)
      → P t × All P (before ++ after)
  All-remove P [] after t (h, hs) = (h, hs)
  All-remove P (b ∷ before) after t (h, hs) =
      let (p, ps) = All-remove P before after t hs in (p, (h, ps))

module _ {B : Type 0} (libs : Libraries) (maps : ConcurrentMap (SessionStatus libs.Tee libs.Json))
    (laws : ConcurrentMapLaws maps) (inner : Attest libs.Tee libs.Json B) where
  open libs use {Tee, Json}

  abbrev pub Sound : World libs maps inner → Type 0
  Sound = IsSound libs maps inner

  pub start-IsSound :
      (b : B) (timeout : ℕ) (metrics : Metrics) → Sound (start libs maps inner b timeout metrics)
  start-IsSound b timeout metrics = record { sessions = λ id. rw (laws.get-new id) tt; tasks = tt }

  -- A step that leaves sessions, tasks and log alone keeps the invariant.
  same-IsSound :
      (w : World libs maps inner) (s : Service libs maps inner)
      → s.session_map ≡ w.service.session_map
      → Sound w
      → Sound (record w { service = s })
  same-IsSound w s e h = record { sessions = λ id. rw e (h.sessions id); tasks = h.tasks }

  finish-IsSound :
      (w : World libs maps inner) (id : String) (ev : List (IndependentEvidence Tee Json))
      (ts : List (Task libs maps inner))
      → Sound w
      → IsAnswer libs maps inner w.issued (id, ev)
      → All (IsAnswer libs maps inner w.issued) ts
      → Sound (record w { service = (finish_attest libs maps inner id ev w.service).1; tasks = ts })
  finish-IsSound w id ev ts h answer rest =
      elim (finish_attest-sessions libs maps inner id ev w.service) [
        | inl same ↦ record { sessions = λ k. rw same (h.sessions k); tasks = rest }
        | inr (token, i, t, verified, written) ↦ record {
          sessions = λ k.
              rw (written, laws.get-write id k (attested token i t) w.service.session_map)
                (written-IsGood libs maps inner w.issued id k token i t _ (h.sessions k) (record {
                  tee = answer.tee;
                  nonce = answer.nonce;
                  evidence = ev;
                  backend = w.service.inner;
                  challenged = answer.challenged;
                  answers = answer.answers;
                  verified = verified;
                }));
          tasks = rest;
        }
      ]

  answered-IsSound :
      (w : World libs maps inner) (body : Bytes) (i : String) (now : ℕ) (request : Request Tee Json)
      (c : Challenge Json) (k : Cookie)
      → Sound w
      → libs.parse_request body ≡ some request
      → (auth libs maps inner body i now w.service).0
        ≡ ok (record { cookie = k; body = challenge_body c })
      → Sound (record w {
        service = (auth libs maps inner body i now w.service).1;
        issued = record { id = i; tee = request.tee; nonce = c.nonce } ∷ w.issued;
      })
  answered-IsSound w body i now request c k h parsed answered =
      let (request', c', parsed', body', inserted) =
        auth_ok-sessions libs maps inner body i now _ w.service answered in
      let same_request : request' ≡ request = cc (parsed, parsed') in
      let same_challenge : c' ≡ c = cc body' in
      let log = record { id = i; tee = request.tee; nonce = c.nonce } ∷ w.issued in
      record {
        sessions = λ j.
            rw
              (
                inserted,
                laws.get-insert i j (authed request' c' i (now + w.service.timeout))
                    w.service.session_map,
                same_request,
                same_challenge,
              )
              (inserted-IsGood libs maps inner log i j request c (now + w.service.timeout) _ here
                (IsGood?-more libs maps inner _ w.issued j _ (h.sessions j)));
        tasks = IsAnswer-more libs maps inner _ w.issued w.tasks h.tasks;
      }

  begun-IsSound :
      (w : World libs maps inner) (body : Bytes) (k : Option String) (now : ℕ) (b : Begun Tee Json)
      → Sound w
      → (begin_attest libs maps inner body k now w.service).0 ≡ b
      → Sound (record w {
        service = (begin_attest libs maps inner body k now w.service).1;
        tasks = queue libs maps inner b w.tasks;
      })
  begun-IsSound w body k now (finished r) h e = record {
    sessions = λ j. rw (begin_attest-sessions libs maps inner body k now w.service) (h.sessions j);
    tasks = h.tasks;
  }
  begun-IsSound w body k now (prepared id ev) h e = record {
    sessions = λ j. rw (begin_attest-sessions libs maps inner body k now w.service) (h.sessions j);
    tasks = (
      IsAnswer-of_prepared libs maps inner w.issued id _ ev (h.sessions id)
          (begin_attest-prepared libs maps inner body k now id w.service ev e).1,
      h.tasks,
    );
  }

  pub Step-IsSound : {w v : World libs maps inner} → Sound w → Step libs maps inner w v → Sound v
  Step-IsSound {w} h (Step.auth_refused body i now e refused) =
      same-IsSound w _ (auth_err-sessions libs maps inner body i now e w.service refused) h
  Step-IsSound {w} h (Step.auth_answered body i now request c k parsed answered) =
      answered-IsSound w body i now request c k h parsed answered
  Step-IsSound {w} h (Step.attest_begun body k now) = begun-IsSound w body k now _ h refl
  Step-IsSound {w} h (Step.attest_finished before after id ev split) =
      let (p, ps) = All-remove libs maps inner _ before after (id, ev) (rw split at h.tasks) in
      finish-IsSound w id ev (before ++ after) h p ps
  Step-IsSound {w} h (Step.swept now) = record {
    sessions = λ k.
        unfold sweep in
        rw (laws.get-retain _ k w.service.session_map)
          (kept-IsGood libs maps inner w.issued k _ _ (h.sessions k));
    tasks = h.tasks;
  }
  Step-IsSound {w} h (Step.policy_set body) = same-IsSound w _ (unfold set_policy in ground arith) h
  Step-IsSound {w} h (Step.reference_value_registered message) =
      same-IsSound w _ (unfold register_reference_value in ground arith) h
