-- ===== src/Verifier/Tdx.antt =====
-- The TDX verifier: `verify_evidence` of deps/verifier/src/tdx/mod.rs. The quote's signature check
-- (the two DCAP libraries), base64 and the claims are fields of `TdxTools`; the event log is the
-- module Eventlog.
pub mod TdQuote
pub mod Binding
use trustmee_artifact.Prelude.{
  Bytes, ℕ, String, ◌≡◌, Bool, true, false, not, Option, none, some, List, [], ◌∷◌, str_eq,
  if◌then◌else◌, Result, ok, err, panic, ◌>>=◌, ◌>>◌, ok_or, guard, map_err, same_bytes,
}
use trustmee_artifact.Eventlog.TcgEnum
use trustmee_artifact.Eventlog.Log.{EventlogEntry, EventlogError, ReferenceMeasurement, Tools}
use trustmee_artifact.Eventlog.Replay.{replay_and_match}
use trustmee_artifact.Eventlog.Parse.{try_from}
use trustmee_artifact.Verifier
use trustmee_artifact.Verifier.{ReportData, InitDataHash, regularize_data}
use trustmee_artifact.Verifier.Tdx.TdQuote.{
  QuoteError, Quote, parse_tdx_quote, report_data, mr_config_id, rtmr_0, rtmr_1, rtmr_2, rtmr_3,
}

pub record TdxEvidence : Type 0 where
  pub cc_eventlog : Option String
  pub quote : String

pub data TdxError : Type 0 where
  quote_empty not_base64 dcap_failed report_data_differs mr_config_id_differs : TdxError
  quote_failed : QuoteError → TdxError
  eventlog_failed : EventlogError → TdxError
  claim_failed not_deserialized : TdxError

-- `use_dcap_qvl` is the variable TDX_NATIVE_USE_DCAP_QVL of the environment
pub record TdxTools (Details Custom Claim : Type 0) : Type 1 where
  pub log_tools : Tools Details
  pub pread : Bytes → ℕ → ℕ → Option Bytes
  pub decode : String → Option Bytes
  pub use_dcap_qvl : Bool
  pub dcap_qvl : Bytes → Option Custom
  pub intel_dcap : Bytes → Option Custom
  pub generate_parsed_claim : Quote → Option (List (EventlogEntry Details)) → Option Claim
  pub extend_using_custom_claims : Claim → Custom → Option Claim

-- the vector `compare_obj`
abbrev pub compare_obj : Quote → List ReferenceMeasurement
compare_obj quote =
    record { index = 1; algorithm = TcgEnum.sha384; reference = rtmr_0 quote }
    ∷ record { index = 2; algorithm = TcgEnum.sha384; reference = rtmr_1 quote }
    ∷ record { index = 3; algorithm = TcgEnum.sha384; reference = rtmr_2 quote }
    ∷ record { index = 4; algorithm = TcgEnum.sha384; reference = rtmr_3 quote }
    ∷ []

unfoldable pub check_report_data : ReportData → Quote → Result TdxError (Unit {0})
check_report_data (ReportData.value expected) quote =
    guard (same_bytes (regularize_data expected 64) (report_data quote)) report_data_differs
check_report_data ReportData.not_provided quote = ok tt

unfoldable pub check_init_data : InitDataHash → Quote → Result TdxError (Unit {0})
check_init_data (InitDataHash.value expected) quote =
    guard (same_bytes (regularize_data expected 48) (mr_config_id quote)) mr_config_id_differs
check_init_data InitDataHash.not_provided quote = ok tt

-- the result of a parse on fuel; `Eventlog.Parse.Bounds.try_from-ne-none` excludes `none`
abbrev pub settle {ℓ} : {A : Type ℓ} → Option (Result EventlogError A) → Result TdxError A
settle none = panic
settle (some r) = map_err eventlog_failed r

module _ {Details Custom Claim : Type 0} (tools : TdxTools Details Custom Claim) where
  -- a log that is not empty
  unfoldable pub check_filled :
      Quote → String → Result TdxError (Option (List (EventlogEntry Details)))
  check_filled quote el = ok_or (tools.decode el) not_base64 >>= λ ccel_data.
      settle (try_from tools.log_tools ccel_data) >>= λ ccel.
      map_err eventlog_failed (replay_and_match tools.log_tools ccel (compare_obj quote))
      >> ok (some ccel)

  unfoldable pub check_eventlog :
      Quote → Option String → Result TdxError (Option (List (EventlogEntry Details)))
  check_eventlog quote none = ok none
  check_eventlog quote (some el) = if str_eq el "" then ok none else check_filled quote el

  abbrev pub dcap_verification : Bytes → Option Custom
  dcap_verification quote_bin =
      if tools.use_dcap_qvl then tools.dcap_qvl quote_bin else tools.intel_dcap quote_bin

  -- `verify_evidence` past the parsing of the quote
  unfoldable pub verify_quote :
      ReportData → InitDataHash → Option String → Custom → Quote → Result TdxError Claim
  verify_quote expected_report_data expected_init_data_hash cc_eventlog custom_claims quote =
      check_report_data expected_report_data quote
      >> (check_init_data expected_init_data_hash quote
          >> (check_eventlog quote cc_eventlog >>= λ ccel_option.
              ok_or (tools.generate_parsed_claim quote ccel_option) claim_failed >>= λ claim.
              ok_or (tools.extend_using_custom_claims claim custom_claims) claim_failed))

  unfoldable pub verify_evidence : ReportData → InitDataHash → TdxEvidence → Result TdxError Claim
  verify_evidence expected_report_data expected_init_data_hash evidence =
      guard (not (str_eq evidence.quote "")) quote_empty
      >> (ok_or (tools.decode evidence.quote) not_base64 >>= λ quote_bin.
          ok_or (dcap_verification quote_bin) dcap_failed >>= λ custom_claims.
          map_err quote_failed (parse_tdx_quote tools.pread quote_bin) >>= λ quote.
          verify_quote expected_report_data expected_init_data_hash evidence.cc_eventlog
            custom_claims quote)

  -- `Verifier::evaluate` of `Tdx`; `parse` is what serde reads of the evidence
  unfoldable pub evaluate :
      {Evidence : Type 0}
      → (Evidence → Option TdxEvidence)
      → Evidence
      → ReportData
      → InitDataHash
      → Result TdxError (List (Claim × String))
  evaluate parse evidence expected_report_data expected_init_data_hash =
      ok_or (parse evidence) not_deserialized >>= λ tdx_evidence.
      verify_evidence expected_report_data expected_init_data_hash tdx_evidence >>= λ claims.
      ok ((claims, "cpu") ∷ [])
