-- ===== src/Kbs/Attestation/World.antt =====
-- The attestation service among concurrent requests: tasks of `attest` that stand between their two
-- steps, the sweeping of sessions, and a log of the challenges that were answered.
use trustmee_artifact.Prelude.{Bytes, ℕ, String, ◌≡◌, Option, some, List, [], ◌∷◌, ◌++◌, ok, err}
use trustmee_artifact.Kbs.Session.{Request, Challenge, SessionStatus, Cookie, ConcurrentMap}
use trustmee_artifact.Kbs.Attestation.{
  IndependentEvidence, Libraries, Attest, AttestationError, Metrics, challenge_body,
}
use trustmee_artifact.Kbs.Attestation.Service.{
  Begun, finished, prepared, Service, auth, begin_attest, finish_attest, sweep, set_policy,
  register_reference_value,
}
use trustmee_artifact.Kbs.Attestation.Effects.{IsFor}

-- `a` is an entry of a list.
pub data In {A : Type 0} (a : A) : List A → Type 0 where
  here : {xs : List A} → In a (a ∷ xs)
  there : {b : A} {xs : List A} → In a xs → In a (b ∷ xs)

-- A challenge that `auth` answered: for a session, a TEE and with a nonce
pub record Issued (Tee : Type 0) : Type 0 where
  pub id : String
  pub tee : Tee
  pub nonce : String

module _ {B : Type 0} (libs : Libraries) (maps : ConcurrentMap (SessionStatus libs.Tee libs.Json))
    (inner : Attest libs.Tee libs.Json B) where
  open libs use {Tee, Json}

  -- a task of `attest` that has prepared its evidence for a session
  abbrev pub Task : Type 0
  Task = String × List (IndependentEvidence Tee Json)

  pub record World : Type 0 where
    pub service : Service libs maps inner
    pub tasks : List Task
    pub issued : List (Issued Tee)

  abbrev pub start : B → ℕ → Metrics → World
  start b timeout metrics = record {
    service = record { inner = b; session_map = maps.new; timeout = timeout; metrics = metrics };
    tasks = [];
    issued = [];
  }

  abbrev pub queue : Begun Tee Json → List Task → List Task
  queue (finished r) tasks = tasks
  queue (prepared id ev) tasks = (id, ev) ∷ tasks

  -- What may happen next. Times and ids are arbitrary.
  pub data Step (w : World) : World → Type 0 where
    auth_refused :
        (body : Bytes) (i : String) (now : ℕ) (e : AttestationError)
        → (auth libs maps inner body i now w.service).0 ≡ err e
        → Step w (record w { service = (auth libs maps inner body i now w.service).1 })
    auth_answered :
        (body : Bytes) (i : String) (now : ℕ) (request : Request Tee Json) (c : Challenge Json)
        (k : Cookie)
        → libs.parse_request body ≡ some request
        → (auth libs maps inner body i now w.service).0
          ≡ ok (record { cookie = k; body = challenge_body c })
        → Step w (record w {
          service = (auth libs maps inner body i now w.service).1;
          issued = record { id = i; tee = request.tee; nonce = c.nonce } ∷ w.issued;
        })
    attest_begun :
        (body : Bytes) (k : Option String) (now : ℕ)
        → Step w (record w {
          service = (begin_attest libs maps inner body k now w.service).1;
          tasks = queue (begin_attest libs maps inner body k now w.service).0 w.tasks;
        })
    attest_finished :
        (before after : List Task) (id : String) (ev : List (IndependentEvidence Tee Json))
        → w.tasks ≡ before ++ (id, ev) ∷ after
        → Step w (record w {
          service = (finish_attest libs maps inner id ev w.service).1;
          tasks = before ++ after;
        })
    swept : (now : ℕ) → Step w (record w { service = sweep libs maps inner now w.service })
    policy_set :
        (body : Bytes)
        → Step w (record w { service = (set_policy libs maps inner body w.service).1 })
    reference_value_registered :
        (message : String)
        → Step w
            (record w { service = (register_reference_value libs maps inner message w.service).1 })

  pub data Reach (w : World) : World → Type 0 where
    done : Reach w w
    next : {u v : World} → Reach w u → Step u v → Reach w v

  -- The backend gave `token` for evidence that answers a challenge issued for the session.
  pub record Earned (issued : List (Issued Tee)) (id token : String) : Type 0 where
    pub tee : Tee
    pub nonce : String
    pub evidence : List (IndependentEvidence Tee Json)
    pub backend : B
    pub challenged : In (record { id = id; tee = tee; nonce = nonce }) issued
    pub answers : IsFor tee nonce evidence
    pub verified : inner.verify evidence backend ≡ ok token
