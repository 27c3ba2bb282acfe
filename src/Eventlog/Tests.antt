-- ===== src/Eventlog/Tests.antt =====
-- Tests of the event log on a small reader, and the theorems at inputs that meet their hypotheses.
use trustmee_artifact.Prelude.{
  slice, replicate, Bytes, ℕ, ◌+◌, ◌*◌, ◌≤◌, ◌≡◌, ◌≢◌, refl, ◌↔◌, inl, inr, Bool, true, false,
  Option, none, some, List, [], ◌∷◌, ◌++◌, arith, leb, leb→le, if◌then◌else◌, Bool-cases, length,
  take, drop, All, ok, panic,
}
use trustmee_artifact.Eventlog.TcgEnum
use trustmee_artifact.Eventlog.TcgEnum.{
  TcgEventType, algorithm_try_from, algorithm_code, event_type_try_from, event_type_code, ev_action,
}
use trustmee_artifact.Eventlog.Log.{
  ElDigest, EventlogEntry, ReferenceMeasurement, Digest, Reader, ReaderLaws, Tools,
}
use trustmee_artifact.Eventlog.Replay.{replay_and_match, compare_digests}
use trustmee_artifact.Eventlog.Replay.Registers.{IsMeasured, replay_and_match_iff}
use trustmee_artifact.Eventlog.Parse.{
  DigestSizes, parse_eventlog_entry, parse_initial_entry, initial_sizes, parse_entry,
  parse_event_data, parse_digests, digest_sizes_from, digests_from, try_from,
}
use trustmee_artifact.Eventlog.Parse.Bounds.{try_from-ne-none}
use trustmee_artifact.Eventlog.Parse.Truncated.{Reaches, IsCutOff, truncated_log_panics}

abbrev little_endian : Bytes → ℕ
little_endian [] = 0
little_endian (b ∷ bytes) = b + 256 * little_endian bytes

abbrev read : ℕ → Bytes → ℕ → Option (ℕ × ℕ)
read width bytes i =
    if leb (i + width) (length bytes)
    then some (little_endian (take width (drop i bytes)), i + width)
    else none

abbrev reader : Reader
reader = record { u16 = read 2; u32 = read 4; u64 = read 8 }

read-end :
    (width : ℕ) (bytes : Bytes) (i v j : ℕ)
    → read width bytes i ≡ some (v, j)
    → (j ≡ i + width) × (j ≤ length bytes)
read-end width bytes i v j h = elim (Bool-cases (leb (i + width) (length bytes))) [
  | inl fits ↦
      let e =
        the_end (leb (i + width) (length bytes)) (little_endian (take width (drop i bytes))) h in
      (e, omega (arith, e, leb→le (i + width) (length bytes) fits))
  | inr over ↦ cc (h, over)
]
  where
    the_end :
        (fits : Bool) (n : ℕ) {k v j : ℕ}
        → if◌then◌else◌ {A = Option (ℕ × ℕ)} fits (some (n, k)) none ≡ some (v, j)
        → j ≡ k
    the_end true n h = cc
    the_end false n h = cc

reader_laws : ReaderLaws reader
reader_laws = record { u16_end = read-end 2; u32_end = read-end 4; u64_end = read-end 8 }

-- a hash that only joins what it is given
abbrev joining : Digest
joining = record { State = Bytes; default = []; update = λ s b. s ++ b; finalize = λ s. s }

abbrev tools : Tools Bytes
tools = record {
  reader = reader;
  sha256 = joining;
  sha384 = joining;
  sha512 = joining;
  sm3 = joining;
  base64 = λ bytes. "base64";
  parse = λ parser bytes. ok bytes;
}

abbrev entry_bytes : Bytes
entry_bytes = 1 ∷ 0 ∷ 0 ∷ 0 ∷ 5 ∷ 0 ∷ 0 ∷ 0 ∷ 0 ∷ 0 ∷ 0 ∷ 0 ∷ 1 ∷ 0 ∷ 0 ∷ 0 ∷ 65 ∷ []

abbrev entry : ℕ → List ElDigest → EventlogEntry Bytes
entry index digests = record {
  details = 65 ∷ [];
  digest_matches_event = true;
  digests = digests;
  event = "base64";
  index = index;
  event_type = ev_action;
}

parsed : parse_entry tools entry_bytes 0 (λ a. none) ≡ ok (entry 1 [], 17)
unfolding parse_entry event_type_try_from parse_digests digests_from parse_event_data slice
    compare_digests
parsed = refl

try_from-ne-none_example : try_from tools entry_bytes ≢ none
try_from-ne-none_example = try_from-ne-none tools reader_laws entry_bytes

-- a first entry, a whole entry and one of whose five bytes of data only the first is there
abbrev cut_log : Bytes
cut_log =
    (1 ∷ 0 ∷ 0 ∷ 0 ∷ 5 ∷ replicate 27 0)
    ++ (entry_bytes ++ (1 ∷ 0 ∷ 0 ∷ 0 ∷ 5 ∷ 0 ∷ 0 ∷ 0 ∷ 0 ∷ 0 ∷ 0 ∷ 0 ∷ 5 ∷ 0 ∷ 0 ∷ 0 ∷ 7 ∷ []))

abbrev no_sizes : DigestSizes
no_sizes a = none

reached : Reaches tools cut_log no_sizes 32 49
unfolding parse_eventlog_entry parse_entry event_type_try_from parse_digests digests_from
    parse_event_data slice compare_digests
reached = Reaches.entry (entry 1 []) refl Reaches.here

cut_off : IsCutOff tools cut_log no_sizes 49
unfolding event_type_try_from parse_digests digests_from
cut_off = record {
  flag = 21474836481;
  flag_end = 57;
  registry = 1;
  registry_end = 53;
  type_num = 5;
  type_end = 57;
  event_type = ev_action;
  digests = [];
  digests_end = 61;
  size = 5;
  start = 65;
  reads_flag = refl;
  goes_on = refl;
  reads_registry = refl;
  reads_type = refl;
  known = refl;
  reads_digests = refl;
  reads_size = refl;
  short = omega arith;
  cut = omega arith;
}

first_parsed : parse_initial_entry tools cut_log 0 no_sizes ≡ ok (32, no_sizes)
unfolding parse_initial_entry initial_sizes event_type_try_from event_type_code
first_parsed = refl

truncated_log_panics_example : try_from tools cut_log ≡ some panic
truncated_log_panics_example =
    truncated_log_panics tools reader_laws cut_log no_sizes 32 49 first_parsed reached cut_off

is_sha256 : algorithm_try_from 11 ≡ some TcgEnum.sha256
unfolding algorithm_try_from
is_sha256 = refl

-- an event of no algorithm that ends behind their number
abbrev no_vendor_size : Bytes
no_vendor_size = replicate 28 0

no_algorithms : digest_sizes_from tools 0 no_vendor_size 28 (λ a. none) ≡ ok (28, λ a. none)
unfolding digest_sizes_from
no_algorithms = refl

abbrev log : List (EventlogEntry Bytes)
log =
    entry 1 (record { alg = TcgEnum.sha256; digest = 7 ∷ [] } ∷ [])
    ∷ entry 2 (record { alg = TcgEnum.sha256; digest = 8 ∷ [] } ∷ [])
    ∷ entry 1 (record { alg = TcgEnum.sha384; digest = 9 ∷ [] } ∷ [])
    ∷ []

abbrev references : List ReferenceMeasurement
references = record { index = 1; algorithm = TcgEnum.sha256; reference = 7 ∷ [] } ∷ []

replay_and_match_iff_example :
    (replay_and_match tools log references ≡ ok tt) ↔ All (IsMeasured tools log) references
replay_and_match_iff_example = replay_and_match_iff tools log references
