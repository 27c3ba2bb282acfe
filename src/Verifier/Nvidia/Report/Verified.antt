-- ===== src/Verifier/Nvidia/Report/Verified.antt =====
-- What a report that is accepted has been checked for.
use mathlib.Core.Path.{subst}
use trustmee_artifact.Prelude.{
  false, ◌≤◌, accepted, accepted-ok, Bytes, arith, ℕ, ◌+◌, ◌-◌, String, ◌≡◌, sym, ap, ◌∙◌, inl, inr,
  true, some, List, ◌++◌, str_eq, eq_iff, ltb, leb, leb→le, ◌==◌, ==_iff, Bool-cases, length, take,
  drop, length-take, ok, ok_or, guard, guard-ok, slice, or_panic, same_bytes_iff, ok_inj, ok_or-ok,
  or_panic-ok, >>=-eq-ok, slice-prefix, slice-shift, take-drop,
}
use trustmee_artifact.Prelude.Dict.{get}
use trustmee_artifact.Verifier.Nvidia.{
  report_too_small, size_too_small, signed_overflow, fwid_missing, fwid_mismatch,
  signature_length_invalid, signature_malformed, chain_malformed, chain_too_short,
}
use trustmee_artifact.Verifier.Nvidia.Request.{SpdmGetMeasurementRequest, decode_request}
use trustmee_artifact.Verifier.Nvidia.Request.Layout.{HasNonce, decode_request-HasNonce}
use trustmee_artifact.Verifier.Nvidia.DataType.{fwid, name}
use trustmee_artifact.Verifier.Nvidia.OpaqueData.{Value, Format, string, array, object}
use trustmee_artifact.Verifier.Nvidia.Response.{SpdmGetMeasurementsResponse, decode_response}
use trustmee_artifact.Verifier.Nvidia.Response.Layout.{
  EndsInSignature, HasLayout-EndsInSignature, decode_response-HasLayout,
}
use trustmee_artifact.Verifier.Nvidia.CertChain.{
  certificate_fingerprint, get_fwid_from_cert, Certificates, first, last, without_last,
  get_leaf_certificate, get_root_certificate, check_root_ca_is_trusted, verify_chain,
}
use trustmee_artifact.Verifier.Nvidia.Report.{
  NvidiaAttestationReport, fwid_text, get_fwid, validate_nonce, split_at_checked, checked_sub,
  decode_report, verify_signature, try_new,
}

ltb-ge : (a b : ℕ) → ltb a b ≡ false → b ≤ a
ltb-ge a b h = ground arith

checked_sub-eq : (a b : ℕ) {c : ℕ} → checked_sub a b ≡ some c → c ≡ a - b
checked_sub-eq a b h = elim (Bool-cases (ltb a b)) [
  | inl less ↦ cc (h, less)
  | inr enough ↦ cc (h, enough)
]

split-parts :
    (bytes : Bytes) (n : ℕ) {parts : Bytes × Bytes}
    → split_at_checked bytes n ≡ some parts
    → (bytes ≡ parts.0 ++ parts.1) × (length parts.0 ≡ n)
split-parts bytes n {parts} h = elim (Bool-cases (leb n (length bytes))) [
  | inl fits ↦
      subst (λ p. (bytes ≡ p.0 ++ p.1) × (length p.0 ≡ n)) (inside fits h)
        (sym (take-drop n bytes), omega (arith, length-take n bytes, leb→le n (length bytes) fits))
  | inr over ↦ cc (h, over)
]
  where
    inside :
        leb n (length bytes) ≡ true
        → split_at_checked bytes n ≡ some parts
        → ◌≡◌ {A = Bytes × Bytes} (take n bytes, drop n bytes) parts
    inside fits g = cc (fits, g)

-- the nonce that was asked for stands at byte 4 of the report, and the signature ends what is read
abbrev pub IsPlaced : Bytes → ℕ → NvidiaAttestationReport × ℕ → Type 0
IsPlaced report_bytes signature_length (report, size) =
    (slice report_bytes 4 36 ≡ some report.request.nonce)
    × (slice report_bytes (size - signature_length) size ≡ some report.response.signature)

report-IsPlaced :
    (front back : Bytes) (signature_length : ℕ) (request : SpdmGetMeasurementRequest × ℕ)
    (response : SpdmGetMeasurementsResponse × ℕ)
    → length front ≡ 37
    → HasNonce front request
    → EndsInSignature back signature_length response
    → IsPlaced
        (front ++ back)
        signature_length
        (record { request = request.0; response = response.0 }, request.1 + response.1)
report-IsPlaced front back s request response size (nonce, used) (sum, signature) = (
  slice-prefix front back 4 36 (omega arith) (omega (arith, size)) ∙ nonce,
  ap (λ n. slice (front ++ back) n (request.1 + response.1)) start
      ∙ ap (slice (front ++ back) (length front + opaque_end)) finish
      ∙ slice-shift front back opaque_end (opaque_end + s)
      ∙ signature,
)
  where
    opaque_end : ℕ
    opaque_end = 42 + response.0.measurement_record_length + response.0.opaque_data_length

    start : request.1 + response.1 - s ≡ length front + opaque_end
    start = omega (arith, used, sum, size)

    finish : request.1 + response.1 ≡ length front + (opaque_end + s)
    finish = omega (arith, used, sum, size)

module _ (format : Format) where
  decode_report-IsPlaced :
      (report_bytes : Bytes) (signature_length : ℕ) (decoded : NvidiaAttestationReport × ℕ)
      → decode_report format report_bytes signature_length ≡ ok decoded
      → IsPlaced report_bytes signature_length decoded
  unfolding decode_report
  decode_report-IsPlaced report_bytes s decoded h =
      let parts = >>=-eq-ok (ok_or (split_at_checked report_bytes 37) report_too_small) _ h in
      let request = >>=-eq-ok (decode_request parts.0.0) _ parts.2 in
      let response = >>=-eq-ok (decode_response format parts.0.1 s) _ request.2 in
      let halves = split-parts report_bytes 37 (ok_or-ok _ _ parts.1) in
      subst (IsPlaced report_bytes s) (ok_inj response.2) (
        subst
          (λ b.
            IsPlaced b s (
              record { request = request.0.0; response = response.0.0 },
              request.0.1 + response.0.1,
            ))
          (sym halves.0)
          (report-IsPlaced parts.0.0 parts.0.1 s request.0 response.0 halves.1
            (decode_request-HasNonce parts.0.0 request.0 request.1)
            (HasLayout-EndsInSignature format parts.0.1 s response.0
              (decode_response-HasLayout format parts.0.1 s response.0 response.1))))

module _ {Cert : Type 0} (tools : Certificates Cert) where
  -- the certificate's key verified the signature, a half in each argument, over the signed bytes
  abbrev pub IsSigned : Cert → Bytes → Bytes → Type 0
  IsSigned cert signed signature =
      (r : Bytes) × (s : Bytes) × (length signature ≡ 96)
      × (slice signature 0 48 ≡ some r)
      × (slice signature 48 96 ≡ some s)
      × (tools.verify_ecdsa cert signed r s ≡ some true)

  verify_signature-IsSigned :
      (signed signature : Bytes) (cert : Cert) {u : Unit {0}}
      → verify_signature tools signed signature cert ≡ ok u
      → IsSigned cert signed signature
  unfolding verify_signature
  verify_signature-IsSigned signed signature cert h =
      let long = >>=-eq-ok (guard (length signature == 96) signature_length_invalid) _ h in
      let r = >>=-eq-ok (or_panic (slice signature 0 48)) _ long.2 in
      let s = >>=-eq-ok (or_panic (slice signature 48 (length signature))) _ r.2 in
      let result =
        >>=-eq-ok (ok_or (tools.verify_ecdsa cert signed r.0 s.0) signature_malformed) _ s.2 in
      let size = (==_iff (length signature) 96).0 (guard-ok _ _ long.1) in
      (
        r.0,
        s.0,
        size,
        or_panic-ok _ r.1,
        ap (slice signature 48) (sym size) ∙ or_panic-ok _ s.1,
        ok_or-ok _ _ result.1 ∙ ap some (guard-ok _ _ result.2),
      )

  -- the certificate has the digest of the trusted root
  abbrev pub IsRoot : Cert → Type 0
  IsRoot root =
      (digest trusted : Bytes) × (tools.sha1_digest root ≡ some digest)
      × (tools.sha1_digest tools.root_ca ≡ some trusted)
      × (tools.hex digest ≡ tools.hex trusted)

  -- the last 48 bytes of its extension spell the FWID
  abbrev pub CarriesFwid : Cert → String → Type 0
  CarriesFwid cert fwid_in_report =
      (value : Bytes) × (tools.fwid_extension cert ≡ some value)
      × (48 ≤ length value)
      × (tools.hex (drop (length value - 48) value) ≡ fwid_in_report)

  fingerprint-ok :
      (cert : Cert) {text : String}
      → certificate_fingerprint tools cert ≡ ok text
      → (digest : Bytes) × (tools.sha1_digest cert ≡ some digest) × (tools.hex digest ≡ text)
  unfolding certificate_fingerprint
  fingerprint-ok cert h =
      let step = >>=-eq-ok (ok_or (tools.sha1_digest cert) chain_malformed) _ h in
      (step.0, ok_or-ok _ _ step.1, ok_inj step.2)

  check_root_ca_is_trusted-IsRoot :
      (certs : List Cert) {u : Unit {0}}
      → check_root_ca_is_trusted tools certs ≡ ok u
      → (root : Cert) × (last certs ≡ some root) × IsRoot root
  unfolding check_root_ca_is_trusted
  check_root_ca_is_trusted-IsRoot certs h =
      let root = >>=-eq-ok (get_root_certificate certs) _ h in
      let digest = >>=-eq-ok (certificate_fingerprint tools root.0) _ root.2 in
      let trusted =
        >>=-eq-ok (or_panic (accepted (certificate_fingerprint tools tools.root_ca))) _ digest.2 in
      let (own, own_eq, own_text) = fingerprint-ok root.0 digest.1 in
      let (other, other_eq, other_text) =
        fingerprint-ok tools.root_ca (accepted-ok _ (or_panic-ok _ trusted.1)) in
      let same = (eq_iff digest.0 trusted.0).0 (guard-ok _ _ trusted.2) in
      (
        root.0,
        ok_or-ok _ _ root.1,
        (own, other, own_eq, other_eq, own_text ∙ same ∙ sym other_text),
      )

  get_fwid_from_cert-CarriesFwid :
      (cert : Cert) {text : String}
      → get_fwid_from_cert tools cert ≡ ok text
      → CarriesFwid cert text
  unfolding get_fwid_from_cert
  get_fwid_from_cert-CarriesFwid cert h =
      let step = >>=-eq-ok (ok_or (tools.fwid_extension cert) fwid_missing) _ h in
      elim (Bool-cases (ltb (length step.0) 48)) [
        | inl short ↦ let bad = rw short at step.2 in absurd cc
        | inr enough ↦ (
          step.0,
          ok_or-ok _ _ step.1,
          ltb-ge (length step.0) 48 enough,
          ok_inj (rw enough at step.2),
        )
      ]

  -- the chain ends in the trusted root, starts with the leaf whose FWID is the given one, and OpenSSL
  -- verified it
  abbrev pub IsTrusted : List Cert → Cert → String → Type 0
  IsTrusted certs leaf fwid_in_report =
      (root : Cert) × (first certs ≡ some leaf)
      × (last certs ≡ some root)
      × IsRoot root
      × CarriesFwid leaf fwid_in_report
      × (tools.verify_cert tools.root_ca leaf (without_last certs) ≡ true)

  verify_chain-IsTrusted :
      (certs : List Cert) (leaf : Cert) (expected_fwid : String) {u : Unit {0}}
      → first certs ≡ some leaf
      → verify_chain tools certs expected_fwid ≡ ok u
      → IsTrusted certs leaf expected_fwid
  unfolding verify_chain
  verify_chain-IsTrusted certs leaf expected there h =
      let long = >>=-eq-ok (guard (leb 2 (length certs)) chain_too_short) _ h in
      let checked = >>=-eq-ok (check_root_ca_is_trusted tools certs) _ long.2 in
      let (root, is_last, is_root) = check_root_ca_is_trusted-IsRoot certs checked.1 in
      let leaf_step = >>=-eq-ok (get_leaf_certificate certs) _ checked.2 in
      let fwid_step = >>=-eq-ok (get_fwid_from_cert tools leaf_step.0) _ leaf_step.2 in
      let matched = >>=-eq-ok (guard (str_eq fwid_step.0 expected) fwid_mismatch) _ fwid_step.2 in
      let same_leaf = same leaf_step.0 (ok_or-ok _ _ leaf_step.1) there in
      (
        root,
        there,
        is_last,
        is_root,
        get_fwid_from_cert-CarriesFwid leaf (
            ap (get_fwid_from_cert tools) (sym same_leaf)
            ∙ fwid_step.1
            ∙ ap ok ((eq_iff fwid_step.0 expected).0 (guard-ok _ _ matched.1))),
        ap (λ c. tools.verify_cert tools.root_ca c (without_last certs)) (sym same_leaf)
            ∙ guard-ok _ _ matched.2,
      )
    where
      same : (cert : Cert) → first certs ≡ some cert → first certs ≡ some leaf → cert ≡ leaf
      same cert e g = cc (e, g)

module _ {Cert : Type 0} (format : Format) (tools : Certificates Cert) where
  -- a certificate of the given chain signed the report up to its signature, its FWID is the reported
  -- one, and the expected nonce stands in what it signed
  abbrev pub IsVerified : Bytes → ℕ → Bytes → Bytes → NvidiaAttestationReport → Type 0
  IsVerified report_bytes signature_length cert_chain_bytes expected_nonce report =
      (certs : List Cert) × (leaf : Cert) × (fwid_in_report : String) × (signed : Bytes)
      × (size : ℕ) × (tools.stack_from_pem cert_chain_bytes ≡ some certs)
      × (slice report_bytes 0 (size - signature_length) ≡ some signed)
      × (slice report_bytes (size - signature_length) size ≡ some report.response.signature)
      × IsSigned tools leaf signed report.response.signature
      × (get (name fwid) report.response.opaque_data ≡ some (string fwid_in_report))
      × IsTrusted tools certs leaf fwid_in_report
      × (slice report_bytes 4 36 ≡ some expected_nonce)

  get_fwid-eq :
      (report : NvidiaAttestationReport) {text : String}
      → get_fwid report ≡ ok text
      → get (name fwid) report.response.opaque_data ≡ some (string text)
  unfolding get_fwid
  get_fwid-eq report {text} h =
      let value =
        >>=-eq-ok (ok_or (get (name fwid) report.response.opaque_data) fwid_missing) fwid_text h in
      ok_or-ok _ _ value.1 ∙ ap some (text_of value.0 value.2)
    where
      text_of : (v : Value) → fwid_text v ≡ ok text → v ≡ string text
      text_of (string t) e = ap string (ok_inj e)
      text_of (array values) e = cc
      text_of (object values) e = cc

  -- A report that `try_new` accepts is verified: the leaf of the given chain, which ends in the trusted
  -- root and carries the reported FWID, signed all bytes before the signature, and those bytes carry
  -- the expected nonce at their offset 4.
  pub try_new-IsVerified :
      (report_bytes : Bytes) (signature_length : ℕ) (cert_chain_bytes expected_nonce : Bytes)
      (report : NvidiaAttestationReport)
      → try_new format tools report_bytes signature_length cert_chain_bytes expected_nonce
        ≡ ok report
      → IsVerified report_bytes signature_length cert_chain_bytes expected_nonce report
  unfolding try_new validate_nonce
  try_new-IsVerified report_bytes s cert_chain_bytes expected_nonce report h =
      let decoded = >>=-eq-ok (decode_report format report_bytes s) _ h in
      let certs =
        >>=-eq-ok (ok_or (tools.stack_from_pem cert_chain_bytes) chain_malformed) _ decoded.2 in
      let leaf = >>=-eq-ok (get_leaf_certificate certs.0) _ certs.2 in
      let size = >>=-eq-ok (ok_or (checked_sub decoded.0.1 s) size_too_small) _ leaf.2 in
      let signed = >>=-eq-ok (ok_or (slice report_bytes 0 size.0) signed_overflow) _ size.2 in
      let verified =
        >>=-eq-ok (verify_signature tools signed.0 decoded.0.0.response.signature leaf.0) _
          signed.2 in
      let reported = >>=-eq-ok (get_fwid decoded.0.0) _ verified.2 in
      let trusted = >>=-eq-ok (verify_chain tools certs.0 reported.0) _ reported.2 in
      let fresh = >>=-eq-ok (validate_nonce decoded.0.0 expected_nonce) _ trusted.2 in
      let places = decode_report-IsPlaced format report_bytes s decoded.0 decoded.1 in
      subst (IsVerified report_bytes s cert_chain_bytes expected_nonce) (ok_inj fresh.2) (
        certs.0,
        leaf.0,
        reported.0,
        signed.0,
        decoded.0.1,
        ok_or-ok _ _ certs.1,
        ap (slice report_bytes 0) (sym (checked_sub-eq decoded.0.1 s (ok_or-ok _ _ size.1)))
            ∙ ok_or-ok _ _ signed.1,
        places.1,
        verify_signature-IsSigned tools signed.0 decoded.0.0.response.signature leaf.0 verified.1,
        get_fwid-eq decoded.0.0 reported.1,
        verify_chain-IsTrusted tools certs.0 leaf.0 reported.0 (ok_or-ok _ _ leaf.1) trusted.1,
        places.0
            ∙ ap some (
                sym (
                  (same_bytes_iff expected_nonce decoded.0.0.request.nonce).0
                    (guard-ok _ _ fresh.1))),
      )
