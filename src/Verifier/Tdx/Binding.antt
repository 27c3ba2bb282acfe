-- ===== src/Verifier/Tdx/Binding.antt =====
-- What evidence that the TDX verifier accepts is bound to.
use trustmee_artifact.Prelude.{
  Bytes, String, ◌≡◌, ◌⊎◌, sym, ap, inl, inr, not, Option, none, some, List, str_eq, eq_iff,
  Bool-cases, All, Result, ok, ok_or, guard, guard-ok, map_err, same_bytes_iff, >>=-eq-ok, ok_or-ok,
  map_err-ok,
}
use trustmee_artifact.Eventlog.Log.{EventlogEntry, EventlogError}
use trustmee_artifact.Eventlog.Replay.{replay_and_match}
use trustmee_artifact.Eventlog.Replay.Registers.{IsMeasured, replay_and_match_iff}
use trustmee_artifact.Eventlog.Parse.{try_from}
use trustmee_artifact.Verifier.{ReportData, InitDataHash, regularize_data}
use trustmee_artifact.Verifier.Tdx.TdQuote.{Quote, parse_tdx_quote, report_data, mr_config_id}
use trustmee_artifact.Verifier.Tdx.{
  TdxEvidence, TdxTools, compare_obj, check_report_data, check_init_data, settle, check_filled,
  check_eventlog, dcap_verification, verify_quote, verify_evidence, quote_failed, eventlog_failed,
}

-- the report data of a quote is what was expected, padded or cut to 64 bytes
abbrev pub HasReportData : ReportData → Quote → Type 0
HasReportData (ReportData.value expected) quote = report_data quote ≡ regularize_data expected 64
HasReportData ReportData.not_provided quote = Unit

-- its MRCONFIGID is what was expected, padded or cut to 48 bytes
abbrev pub HasInitData : InitDataHash → Quote → Type 0
HasInitData (InitDataHash.value expected) quote = mr_config_id quote ≡ regularize_data expected 48
HasInitData InitDataHash.not_provided quote = Unit

check_report_data-HasReportData :
    (expected : ReportData) (quote : Quote) {u : Unit {0}}
    → check_report_data expected quote ≡ ok u
    → HasReportData expected quote
unfolding check_report_data
check_report_data-HasReportData (ReportData.value expected) quote h =
    sym ((same_bytes_iff (regularize_data expected 64) (report_data quote)).0 (guard-ok _ _ h))
check_report_data-HasReportData ReportData.not_provided quote h = tt

check_init_data-HasInitData :
    (expected : InitDataHash) (quote : Quote) {u : Unit {0}}
    → check_init_data expected quote ≡ ok u
    → HasInitData expected quote
unfolding check_init_data
check_init_data-HasInitData (InitDataHash.value expected) quote h =
    sym ((same_bytes_iff (regularize_data expected 48) (mr_config_id quote)).0 (guard-ok _ _ h))
check_init_data-HasInitData InitDataHash.not_provided quote h = tt

settle-ok :
    {A : Type 0} (o : Option (Result EventlogError A)) {a : A} → settle o ≡ ok a → o ≡ some (ok a)
settle-ok none h = cc
settle-ok (some r) h = ap some (map_err-ok eventlog_failed r h)

module _ {Details Custom Claim : Type 0} (tools : TdxTools Details Custom Claim) where
  -- the log parses, and its replay gives the four registers of the quote
  abbrev pub IsReplayed : Quote → String → Type 0
  IsReplayed quote el =
      (ccel_data : Bytes) × (ccel : List (EventlogEntry Details)) × (tools.decode el
        ≡ some ccel_data)
      × (try_from tools.log_tools ccel_data ≡ some (ok ccel))
      × All (IsMeasured tools.log_tools ccel) (compare_obj quote)

  -- a log that is given and is not empty is the one that the quote measures
  abbrev pub HasLog : Quote → Option String → Type 0
  HasLog quote none = Unit
  HasLog quote (some el) = (el ≡ "") ⊎ IsReplayed quote el

  check_filled-IsReplayed :
      (quote : Quote) (el : String) {o : Option (List (EventlogEntry Details))}
      → check_filled tools quote el ≡ ok o
      → IsReplayed quote el
  unfolding check_filled
  check_filled-IsReplayed quote el h =
      let data_step = >>=-eq-ok (ok_or (tools.decode el) _) _ h in
      let parse = >>=-eq-ok (settle (try_from tools.log_tools data_step.0)) _ data_step.2 in
      let match_step =
        >>=-eq-ok
          (map_err eventlog_failed (replay_and_match tools.log_tools parse.0 (compare_obj quote))) _
          parse.2 in
      (
        data_step.0,
        parse.0,
        ok_or-ok _ _ data_step.1,
        settle-ok _ parse.1,
        (replay_and_match_iff tools.log_tools parse.0 (compare_obj quote)).0
            (map_err-ok eventlog_failed _ match_step.1),
      )

  check_eventlog-HasLog :
      (quote : Quote) (cc_eventlog : Option String) {o : Option (List (EventlogEntry Details))}
      → check_eventlog tools quote cc_eventlog ≡ ok o
      → HasLog quote cc_eventlog
  unfolding check_eventlog
  check_eventlog-HasLog quote none {o} h = tt
  check_eventlog-HasLog quote (some el) {o} h = elim (Bool-cases (str_eq el "")) [
    | inl empty ↦ inl ((eq_iff el "").0 empty)
    | inr filled ↦ inr (check_filled-IsReplayed quote el {o = o} cc)
  ]

  -- the evidence's quote passed the DCAP verification and carries what was expected
  abbrev pub IsBound : ReportData → InitDataHash → TdxEvidence → Type 0
  IsBound expected_report_data expected_init_data_hash evidence =
      (quote_bin : Bytes) × (quote : Quote) × (custom : Custom) × (tools.decode evidence.quote
        ≡ some quote_bin)
      × (dcap_verification tools quote_bin ≡ some custom)
      × (parse_tdx_quote tools.pread quote_bin ≡ ok quote)
      × HasReportData expected_report_data quote
      × HasInitData expected_init_data_hash quote
      × HasLog quote evidence.cc_eventlog

  -- Evidence that is accepted is bound: its quote passed the DCAP verification, its report data and
  -- MRCONFIGID are the expected ones regularized, and a log that is not empty replays to its registers.
  pub verify_evidence-IsBound :
      (expected_report_data : ReportData) (expected_init_data_hash : InitDataHash)
      (evidence : TdxEvidence) (claim : Claim)
      → verify_evidence tools expected_report_data expected_init_data_hash evidence ≡ ok claim
      → IsBound expected_report_data expected_init_data_hash evidence
  unfolding verify_evidence verify_quote
  verify_evidence-IsBound report init evidence claim h =
      let filled = >>=-eq-ok (guard (not (str_eq evidence.quote "")) _) _ h in
      let bin = >>=-eq-ok (ok_or (tools.decode evidence.quote) _) _ filled.2 in
      let dcap = >>=-eq-ok (ok_or (dcap_verification tools bin.0) _) _ bin.2 in
      let quote = >>=-eq-ok (map_err quote_failed (parse_tdx_quote tools.pread bin.0)) _ dcap.2 in
      let reported = >>=-eq-ok (check_report_data report quote.0) _ quote.2 in
      let configured = >>=-eq-ok (check_init_data init quote.0) _ reported.2 in
      let logged = >>=-eq-ok (check_eventlog tools quote.0 evidence.cc_eventlog) _ configured.2 in
      (
        bin.0,
        quote.0,
        dcap.0,
        ok_or-ok _ _ bin.1,
        ok_or-ok _ _ dcap.1,
        map_err-ok quote_failed _ quote.1,
        check_report_data-HasReportData report quote.0 reported.1,
        check_init_data-HasInitData init quote.0 configured.1,
        check_eventlog-HasLog quote.0 evidence.cc_eventlog logged.1,
      )
