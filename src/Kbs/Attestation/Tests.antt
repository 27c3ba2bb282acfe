-- ===== src/Kbs/Attestation/Tests.antt =====
-- A run of the handshake, with a map of sessions and libraries that meet what is asked of them, and
-- the theorems on that run.
use trustmee_artifact.Prelude.{
  ℕ, ◌≤◌, String, ◌≡◌, refl, Option, none, some, List, [], ◌∷◌, arith, str_eq, ◌==◌, if◌then◌else◌,
  ok, err, panic,
}
use trustmee_artifact.Kbs.Session
use trustmee_artifact.Kbs.Session.{
  Request, Challenge, SessionStatus, authed, attested, Cookie, ConcurrentMap, ConcurrentMapLaws,
  auth as new_session, is_expired, cookie, keep_if, or_else, replaced,
}
use trustmee_artifact.Kbs.Attestation.{
  Attestation, primary, IndependentEvidence, Libraries, Attest, session_expired, no_session,
  Metrics, Response, challenge_body, token_body,
}
use trustmee_artifact.Kbs.Attestation.Service.{
  prepared, primary_evidence, collect_evidence, auth, begin_attest, finish_attest, attest,
  get_attest_token_from_session, sweep,
}
use trustmee_artifact.Kbs.Attestation.World.{World, start, Step, Reach, Earned}
use trustmee_artifact.Kbs.Attestation.Tokens.{tokens_follow_challenges}
use trustmee_artifact.Kbs.Attestation.Completion.{Exchange, handshake_completes}
use trustmee_artifact.Kbs.Attestation.Handshake.{attest_panics, overlapping_attest_panics}

-- The sessions by a function from ids, which meets the laws of a concurrent map.
abbrev pub Status : Type 0
Status = SessionStatus ℕ ℕ

abbrev pub table : ConcurrentMap Status
table = record {
  Map = String → Option Status;
  new = λ k. none;
  get = λ k s. s k;
  insert = λ k v s j. if str_eq k j then or_else (s j) v else s j;
  write = λ k v s j. if str_eq k j then replaced (s j) v else s j;
  retain = λ p s j. keep_if p (s j);
}

pub table-laws : ConcurrentMapLaws table
table-laws = record {
  get-new = λ k. refl;
  get-insert = λ k j v s. refl;
  get-write = λ k j v s. refl;
  get-retain = λ p k s. refl;
}

abbrev pub demand : Request ℕ ℕ
demand = record { version = "0.4.0"; tee = 1; extra_params = 0 }

abbrev pub offer : Attestation ℕ
offer = record {
  nonce = "n";
  tee_pubkey = 5;
  primary_evidence = 6;
  additional_evidence = "";
  init_data = none;
}

abbrev pub libraries : Libraries
libraries = record {
  Tee = ℕ;
  Json = ℕ;
  parse_request = λ b. some demand;
  parse_attestation = λ b. some offer;
  parse_additional = λ s. none;
  parse_set_policy = λ b. none;
  attestation_to_string = λ a. some "";
  token_to_string = some;
  tee_to_string = λ t. some "\"tdx\"";
  value_to_string = λ v. none;
  parse_version = λ s. some (record { major = 0; minor = 4; patch = 0; pre = ""; build = "" });
  version_matches = λ v w. v.minor == w.minor;
}

abbrev pub backend : Attest ℕ ℕ (Unit {0})
backend = record {
  set_policy = λ i p b. some b;
  verify = λ ev b. ok "token";
  generate_challenge = λ t j b. some (record { nonce = "n"; extra_params = 0 });
  register_reference_value = λ m b. some b;
  query_reference_value = λ i b. none;
}

abbrev pub no_metrics : Metrics
no_metrics = record {
  auth_requests = 0;
  auth_errors = 0;
  auth_successes = 0;
  attestation_requests = 0;
  attestation_errors = 0;
  attestation_successes = [];
  attestation_failures = [];
}

abbrev w0 : World libraries table backend
w0 = start libraries table backend tt 5 no_metrics

abbrev piece : IndependentEvidence ℕ ℕ
piece = record { tee = 1; tee_evidence = 6; runtime_data = primary 5 "n" ""; init_data = none }

abbrev w1 : World libraries table backend
w1 = record w0 {
  service = (auth libraries table backend [] "s" 10 w0.service).1;
  issued = record { id = "s"; tee = 1; nonce = "n" } ∷ w0.issued;
}

abbrev w2 : World libraries table backend
w2 = record w1 {
  service = (begin_attest libraries table backend [] (some "s") 11 w1.service).1;
  tasks = ("s", piece ∷ []) ∷ [];
}

abbrev w3 : World libraries table backend
w3 = record w2 {
  service = (finish_attest libraries table backend "s" (piece ∷ []) w2.service).1;
  tasks = [];
}

opened : Unit {0}
unfolding auth begin_attest finish_attest attest get_attest_token_from_session sweep new_session
    is_expired Session.attest Session.cookie
opened = tt

run : Reach libraries table backend w0 w3
unfolding opened
run =
    Reach.next
      (Reach.next
        (Reach.next Reach.done (
          Step.auth_answered [] "s" 10 demand (record { nonce = "n"; extra_params = 0 })
            (record { value = "s"; expires = 15 }) refl refl))
        (Step.attest_begun [] (some "s") 11))
      (Step.attest_finished [] [] "s" (piece ∷ []) refl)

got_token :
    get_attest_token_from_session libraries table backend (some "s") 12 w3.service ≡ ok "token"
unfolding opened
got_token = refl

expired_token :
    get_attest_token_from_session libraries table backend (some "s") 16 w3.service
    ≡ err session_expired
unfolding opened
expired_token = refl

swept_token :
    get_attest_token_from_session libraries table backend
      (some "s")
      12
      (sweep libraries table backend 16 w3.service)
    ≡ err no_session
unfolding opened
swept_token = refl

tokens_follow_challenges_example :
    (id i : String) × (t : ℕ) × (◌≡◌ {A = Option String} (some "s") (some id))
    × Earned libraries table backend w3.issued id "token"
    × (w3.service.session_map id ≡ some (attested "token" i t))
    × (12 ≤ t)
tokens_follow_challenges_example =
    tokens_follow_challenges libraries table table-laws backend tt 5 no_metrics w3 (some "s") 12
      "token" run got_token

abbrev answer : Response ℕ
answer = record { cookie = record { value = "s"; expires = 15 }; body = token_body "token" }

attested_ok : (finish_attest libraries table backend "s" (piece ∷ []) w2.service).0 ≡ ok answer
unfolding opened
attested_ok = refl

-- a backend whose verifier panics
abbrev failing : Attest ℕ ℕ (Unit {0})
failing = record backend { verify = λ ev b. panic }

panicked : (attest libraries table failing [] (some "s") 11 w1.service).0 ≡ panic
unfolding opened
panicked = refl

attest_panics_example :
    (id : String) × (ev : List (IndependentEvidence ℕ ℕ)) × ((begin_attest libraries table failing
        []
        (some "s")
        11
        w1.service).0
      ≡ prepared id ev)
    × (failing.verify ev w1.service.inner ≡ panic)
attest_panics_example = attest_panics libraries table failing [] (some "s") 11 w1.service panicked

overlapping_attest_panics_example :
    (finish_attest libraries table backend "s"
      (piece ∷ [])
      (finish_attest libraries table backend "s" (piece ∷ []) w2.service).1).0
    ≡ panic
overlapping_attest_panics_example =
    overlapping_attest_panics libraries table table-laws backend "s" (piece ∷ []) (piece ∷ [])
      answer w2.service attested_ok

collected : collect_evidence libraries table backend 1 "n" offer ≡ some (piece ∷ [])
unfolding collect_evidence primary_evidence
collected = refl

-- the two messages of an honest client
abbrev exchange : Exchange libraries table backend w0.service
exchange = record {
  request_body = [];
  attest_body = [];
  request = demand;
  version = record { major = 0; minor = 4; patch = 0; pre = ""; build = "" };
  challenge = record { nonce = "n"; extra_params = 0 };
  attestation = offer;
  evidence = piece ∷ [];
  token = "token";
  body = "token";
  shown = "";
  name = "\"tdx\"";
  parses_request = refl;
  parses_version = refl;
  matches = refl;
  challenges = refl;
  parses_attestation = refl;
  answers = refl;
  shows = refl;
  collects = collected;
  names = refl;
  verifies = refl;
  prints = refl;
}

handshake_completes_example :
    let s =
      sweep libraries table backend 11 (auth libraries table backend [] "s" 10 w0.service).1 in
    let (answered, s₂) = attest libraries table backend [] (some "s") 12 s in
    let c : Cookie = record { value = "s"; expires = 15 } in
    ((auth libraries table backend [] "s" 10 w0.service).0
      ≡ ok
          (record { cookie = c; body = challenge_body (record { nonce = "n"; extra_params = 0 }) }))
    × (answered ≡ ok (record { cookie = c; body = token_body "token" }))
    × (get_attest_token_from_session libraries table backend
          (some "s")
          14
          (sweep libraries table backend 13 s₂)
        ≡ ok "token")
handshake_completes_example =
    handshake_completes libraries table table-laws backend w0.service exchange "s" 10 11 12 13 14
      refl (omega arith) (omega arith) (omega arith) (omega arith)
