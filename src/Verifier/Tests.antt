-- ===== src/Verifier/Tests.antt =====
-- Tests of the TDX verifier on a small quote and log, and the theorems at inputs that meet their
-- hypotheses.
use trustmee_artifact.Prelude.{
  Bytes, arith, ℕ, ◌+◌, ◌≡◌, ◌≢◌, refl, true, Option, none, some, [], ◌∷◌, ◌++◌, str_eq, leb,
  if◌then◌else◌, length, take, drop, replicate, ok, panic, slice, same_bytes, from_le_bytes,
}
use trustmee_artifact.Eventlog.Log.{Digest, Tools}
use trustmee_artifact.Verifier.{ReportData, InitDataHash, regularize_data}
use trustmee_artifact.Eventlog.TcgEnum.{event_type_try_from, event_type_code, get_digest_size}
use trustmee_artifact.Eventlog.Replay.{
  replay_and_match, match_all, replay, collect_digests_by_index, collect_from, accumulate_digests,
}
use trustmee_artifact.Eventlog.Parse.{
  try_from, after_initial, parse_initial_entry, initial_sizes, entries_from,
}
use trustmee_artifact.Verifier.Tdx.{
  TdxTools, TdxEvidence, verify_evidence, verify_quote, check_report_data, check_init_data,
  check_eventlog, check_filled,
}
use trustmee_artifact.Verifier.Tdx.TdQuote.{
  Quote, v4, parse_tdx_quote, pread_header, pread_body, parse_version,
}
use trustmee_artifact.Verifier.Tdx.TdQuote.Reading.{ReadsArrays, body_at}
use trustmee_artifact.Verifier.Tdx.TdQuote.Layout.{
  header_of, IsLaidOut, parse_v4, parse_tdx_quote-IsLaidOut,
}
use trustmee_artifact.Verifier.Tdx.TdQuote.Panics.{short_quote_panics, parse_tdx_quote-ne-panic}
use trustmee_artifact.Verifier.Tdx.Binding.{IsBound, verify_evidence-IsBound}

abbrev pread : Bytes → ℕ → ℕ → Option Bytes
pread bytes i width = slice bytes i (i + width)

reads : ReadsArrays pread
reads bytes i width some_byte = refl

-- a quote of version 4 that is zero but for a byte of its report data and one of its MRCONFIGID
abbrev quote_bytes : Bytes
quote_bytes = 4 ∷ 0 ∷ (replicate 230 0 ++ (7 ∷ replicate 335 0)) ++ (9 ∷ replicate 63 0)

abbrev small_quote : Quote
small_quote = v4 (header_of pread reads quote_bytes) (body_at quote_bytes 48)

size : length quote_bytes ≡ 632
size = refl

parsed : parse_tdx_quote pread quote_bytes ≡ ok small_quote
parsed = parse_v4 pread reads quote_bytes (omega (arith, size)) refl

parse_tdx_quote-IsLaidOut_example : IsLaidOut pread reads quote_bytes small_quote
parse_tdx_quote-IsLaidOut_example =
    parse_tdx_quote-IsLaidOut pread reads quote_bytes small_quote parsed

short_quote_panics_example : parse_tdx_quote pread (replicate 47 0) ≡ panic
short_quote_panics_example = short_quote_panics pread (replicate 47 0) (omega arith)

parse_tdx_quote-ne-panic_example : parse_tdx_quote pread quote_bytes ≢ panic
parse_tdx_quote-ne-panic_example = parse_tdx_quote-ne-panic pread quote_bytes (omega (arith, size))

-- a log of the initial entry only
abbrev log_bytes : Bytes
log_bytes = 1 ∷ 0 ∷ 0 ∷ 0 ∷ 5 ∷ replicate 27 0

abbrev read : ℕ → Bytes → ℕ → Option (ℕ × ℕ)
read width bytes i =
    if leb (i + width) (length bytes)
    then some (from_le_bytes (take width (drop i bytes)), i + width)
    else none

abbrev hash : Digest
hash = record { State = Bytes; default = []; update = λ s b. s ++ b; finalize = λ s. s }

abbrev log_tools : Tools Bytes
log_tools = record {
  reader = record { u16 = read 2; u32 = read 4; u64 = read 8 };
  sha256 = hash;
  sha384 = hash;
  sha512 = hash;
  sm3 = hash;
  base64 = λ bytes. "";
  parse = λ parser bytes. ok bytes;
}

-- the claim is the list of what was verified
abbrev pub tools : TdxTools Bytes Bytes Bytes
tools = record {
  log_tools = log_tools;
  pread = pread;
  decode = λ text. if str_eq text "quote" then some quote_bytes else some log_bytes;
  use_dcap_qvl = true;
  dcap_qvl = λ bytes. some (1 ∷ []);
  intel_dcap = λ bytes. none;
  generate_parsed_claim = λ quote log. some (2 ∷ []);
  extend_using_custom_claims = λ claim custom. some (claim ++ custom);
}

abbrev pub evidence : TdxEvidence
evidence = record { cc_eventlog = some "log"; quote = "quote" }

verified :
    verify_evidence tools (ReportData.value (9 ∷ [])) (InitDataHash.value (7 ∷ [])) evidence
    ≡ ok (2 ∷ 1 ∷ [])
unfolding verify_evidence verify_quote check_report_data check_init_data check_eventlog check_filled
    regularize_data parse_tdx_quote pread_header pread_body parse_version same_bytes slice try_from
    after_initial parse_initial_entry initial_sizes event_type_try_from event_type_code
    get_digest_size entries_from replay_and_match match_all replay collect_digests_by_index
    collect_from accumulate_digests
verified = refl

verify_evidence-IsBound_example :
    IsBound tools (ReportData.value (9 ∷ [])) (InitDataHash.value (7 ∷ [])) evidence
verify_evidence-IsBound_example =
    verify_evidence-IsBound tools (ReportData.value (9 ∷ [])) (InitDataHash.value (7 ∷ [])) evidence
      (2 ∷ 1 ∷ []) verified
