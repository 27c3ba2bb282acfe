-- ===== src/Verifier/Tdx/TdQuote.antt =====
-- The TD quote and its parser: deps/verifier/src/tdx/quote.rs. The `Pread` of an array of bytes is
-- `scroll`'s, so it is a parameter; a struct is read field by field in the order of its declaration.
pub mod Reading
pub mod Layout
pub mod Panics
use trustmee_artifact.Prelude.{
  Bytes, ℕ, ◌+◌, ◌^◌, ◌*◌, ◌≤◌, ◌≡◌, Bool, true, false, Option, none, some, List, [], ◌∷◌, ltb,
  ◌==◌, if◌then◌else◌, length, Result, ok, err, panic, ◌>>=◌, ◌>>◌, ok_or, guard, map_err, slice,
  or_panic, from_le_bytes, same_bytes,
}

pub data QuoteError : Type 0 where
  header_failed body_failed type_too_short type_undefined version_undefined : QuoteError

pub record QuoteHeader : Type 0 where
  pub version : Bytes
  pub att_key_type : Bytes
  pub tee_type : Bytes
  pub reserved : Bytes
  pub vendor_id : Bytes
  pub user_data : Bytes

pub record ReportBody2 : Type 0 where
  pub tcb_svn : Bytes
  pub mr_seam : Bytes
  pub mrsigner_seam : Bytes
  pub seam_attributes : Bytes
  pub td_attributes : Bytes
  pub xfam : Bytes
  pub mr_td : Bytes
  pub mr_config_id : Bytes
  pub mr_owner : Bytes
  pub mr_owner_config : Bytes
  pub rtmr_0 : Bytes
  pub rtmr_1 : Bytes
  pub rtmr_2 : Bytes
  pub rtmr_3 : Bytes
  pub report_data : Bytes

-- the fields of `ReportBody2` and two more
pub record ReportBody2v15 : Type 0 where
  pub base : ReportBody2
  pub tee_tcb_svn2 : Bytes
  pub mr_servicetd : Bytes

pub data QuoteV5Type : Type 0 where
  tdx10 tdx15 : QuoteV5Type

pub data QuoteV5Body : Type 0 where
  tdx10_body : ReportBody2 → QuoteV5Body
  tdx15_body : ReportBody2v15 → QuoteV5Body

pub data Quote : Type 0 where
  v4 : QuoteHeader → ReportBody2 → Quote
  v5 : QuoteHeader → QuoteV5Type → Bytes → QuoteV5Body → Quote

-- the body that the accessors of `body_field!` take their field of
abbrev pub body_of : Quote → ReportBody2
body_of (v4 header body) = body
body_of (v5 header type size (tdx10_body body)) = body
body_of (v5 header type size (tdx15_body body)) = body.base

abbrev pub report_data : Quote → Bytes
report_data quote = (body_of quote).report_data

abbrev pub mr_config_id : Quote → Bytes
mr_config_id quote = (body_of quote).mr_config_id

abbrev pub rtmr_0 : Quote → Bytes
rtmr_0 quote = (body_of quote).rtmr_0

abbrev pub rtmr_1 : Quote → Bytes
rtmr_1 quote = (body_of quote).rtmr_1

abbrev pub rtmr_2 : Quote → Bytes
rtmr_2 quote = (body_of quote).rtmr_2

abbrev pub rtmr_3 : Quote → Bytes
rtmr_3 quote = (body_of quote).rtmr_3

abbrev pub type_of_code : ℕ → Result QuoteError QuoteV5Type
type_of_code code =
    if code == 2 then ok tdx10 else (if code == 3 then ok tdx15 else err type_undefined)

-- `QuoteV5Type::from_bytes`
unfoldable pub from_bytes : Bytes → Result QuoteError QuoteV5Type
from_bytes bytes =
    if ltb (length bytes) 2
    then err type_too_short
    else (or_panic (slice bytes 0 2) >>= λ type. type_of_code (from_le_bytes type))

module _ (pread : Bytes → ℕ → ℕ → Option Bytes) where
  unfoldable pub pread_header : Bytes → ℕ → Result QuoteError QuoteHeader
  pread_header bytes i = ok_or (pread bytes i 2) header_failed >>= λ version.
      ok_or (pread bytes (i + 2) 2) header_failed >>= λ att_key_type.
      ok_or (pread bytes (i + 4) 4) header_failed >>= λ tee_type.
      ok_or (pread bytes (i + 8) 4) header_failed >>= λ reserved.
      ok_or (pread bytes (i + 12) 16) header_failed >>= λ vendor_id.
      ok_or (pread bytes (i + 28) 20) header_failed >>= λ user_data. ok record {
        version = version;
        att_key_type = att_key_type;
        tee_type = tee_type;
        reserved = reserved;
        vendor_id = vendor_id;
        user_data = user_data;
      }

  unfoldable pub pread_body : Bytes → ℕ → Result QuoteError ReportBody2
  pread_body bytes i = ok_or (pread bytes i 16) body_failed >>= λ tcb_svn.
      ok_or (pread bytes (i + 16) 48) body_failed >>= λ mr_seam.
      ok_or (pread bytes (i + 64) 48) body_failed >>= λ mrsigner_seam.
      ok_or (pread bytes (i + 112) 8) body_failed >>= λ seam_attributes.
      ok_or (pread bytes (i + 120) 8) body_failed >>= λ td_attributes.
      ok_or (pread bytes (i + 128) 8) body_failed >>= λ xfam.
      ok_or (pread bytes (i + 136) 48) body_failed >>= λ mr_td.
      ok_or (pread bytes (i + 184) 48) body_failed >>= λ mr_config_id.
      ok_or (pread bytes (i + 232) 48) body_failed >>= λ mr_owner.
      ok_or (pread bytes (i + 280) 48) body_failed >>= λ mr_owner_config.
      ok_or (pread bytes (i + 328) 48) body_failed >>= λ rtmr_0.
      ok_or (pread bytes (i + 376) 48) body_failed >>= λ rtmr_1.
      ok_or (pread bytes (i + 424) 48) body_failed >>= λ rtmr_2.
      ok_or (pread bytes (i + 472) 48) body_failed >>= λ rtmr_3.
      ok_or (pread bytes (i + 520) 64) body_failed >>= λ report_data. ok record {
        tcb_svn = tcb_svn;
        mr_seam = mr_seam;
        mrsigner_seam = mrsigner_seam;
        seam_attributes = seam_attributes;
        td_attributes = td_attributes;
        xfam = xfam;
        mr_td = mr_td;
        mr_config_id = mr_config_id;
        mr_owner = mr_owner;
        mr_owner_config = mr_owner_config;
        rtmr_0 = rtmr_0;
        rtmr_1 = rtmr_1;
        rtmr_2 = rtmr_2;
        rtmr_3 = rtmr_3;
        report_data = report_data;
      }

  unfoldable pub pread_body_v15 : Bytes → ℕ → Result QuoteError ReportBody2v15
  pread_body_v15 bytes i = pread_body bytes i >>= λ base.
      ok_or (pread bytes (i + 584) 16) body_failed >>= λ tee_tcb_svn2.
      ok_or (pread bytes (i + 600) 48) body_failed >>= λ mr_servicetd.
      ok record { base = base; tee_tcb_svn2 = tee_tcb_svn2; mr_servicetd = mr_servicetd }

  -- the arm of version 5 past its type and size
  unfoldable pub pread_v5_body : Bytes → QuoteV5Type → Result QuoteError QuoteV5Body
  pread_v5_body quote_bin tdx10 = pread_body quote_bin 54 >>= λ body. ok (tdx10_body body)
  pread_v5_body quote_bin tdx15 = pread_body_v15 quote_bin 54 >>= λ body. ok (tdx15_body body)

  unfoldable pub parse_v5 : Bytes → QuoteHeader → Result QuoteError Quote
  parse_v5 quote_bin header = or_panic (slice quote_bin 48 50) >>= λ type_bytes.
      from_bytes type_bytes >>= λ type. or_panic (slice quote_bin 50 54) >>= λ size.
      pread_v5_body quote_bin type >>= λ body. ok (v5 header type size body)

  unfoldable pub parse_version : Bytes → QuoteHeader → Result QuoteError Quote
  parse_version quote_bin header =
      if same_bytes header.version (4 ∷ 0 ∷ [])
      then (pread_body quote_bin 48 >>= λ body. ok (v4 header body))
      else (if same_bytes header.version (5 ∷ 0 ∷ [])
          then parse_v5 quote_bin header
          else err version_undefined)

  unfoldable pub parse_tdx_quote : Bytes → Result QuoteError Quote
  parse_tdx_quote quote_bin = or_panic (slice quote_bin 0 48) >>= λ quote_header.
      pread_header quote_header 0 >>= λ header. parse_version quote_bin header
