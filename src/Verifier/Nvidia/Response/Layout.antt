-- ===== src/Verifier/Nvidia/Response/Layout.antt =====
-- Where the fields of a decoded response stand, and that decoding ends without a panic.
use mathlib.Core.Path.{subst}
use trustmee_artifact.Prelude.{
  take, drop, List, [], ◌≤◌, ◌⊎◌, sym, ap, ◌∙◌, false, slice-part, slice-eq, slice-end, or_panic-ok,
  ==_iff, Bytes, arith, ℕ, ◌+◌, ◌≡◌, ◌≢◌, refl, inl, inr, some, ltb, leb, leb→le, ◌==◌, Bool-cases,
  length, get_elem?, ok, panic, ok_or, guard, slice, or_panic, ok_inj, ok_or-ok, >>=-eq-ok,
  >>=-ne-panic, or_panic-ne-panic, ok_or-ne-panic, guard-ne-panic, guard-ok, slice-ne-none,
  get_elem?-ne-none, from_le_bytes,
}
use trustmee_artifact.Prelude.Dict.{Dict}
use trustmee_artifact.Verifier.Nvidia.{
  version_unsupported, response_too_small, record_overflow, nonce_overflow, opaque_length_overflow,
  opaque_overflow, signature_overflow,
}
use trustmee_artifact.Verifier.Nvidia.Measurements.{MeasurementBlock, decode_record}
use trustmee_artifact.Verifier.Nvidia.Measurements.Total.{decode_record-ne-panic}
use trustmee_artifact.Verifier.Nvidia.OpaqueData.{Value, Format, decode_opaque}
use trustmee_artifact.Verifier.Nvidia.OpaqueData.Total.{decode_opaque-ne-panic}
use trustmee_artifact.Verifier.Nvidia.Response.{
  SpdmGetMeasurementsResponse, read_record, read_opaque, response_fields, decode_response,
}

-- the signature is the last of the bytes that the response takes, counted with its own lengths
abbrev pub EndsInSignature : Bytes → ℕ → SpdmGetMeasurementsResponse × ℕ → Type 0
EndsInSignature bytes signature_length (response, used) =
    let start = 42 + response.measurement_record_length + response.opaque_data_length in
    (used ≡ start + signature_length)
    × (slice bytes start (start + signature_length) ≡ some response.signature)

-- L1 and L2 of the documented layout: the length of the record is in bytes 5 to 7, and that of the
-- opaque data in the two bytes behind the nonce
abbrev pub record_length : Bytes → ℕ
record_length bytes = from_le_bytes (take 3 (drop 5 bytes))

abbrev pub opaque_length : Bytes → ℕ
opaque_length bytes = from_le_bytes (take 2 (drop (40 + record_length bytes) bytes))

-- the blocks are those of the L1 bytes from offset 8 on, if there are any
abbrev pub HasRecord : Bytes → ℕ → List MeasurementBlock → Type 0
HasRecord bytes number_of_blocks blocks =
    ((record_length bytes ≡ 0) × (blocks ≡ []))
    ⊎ (decode_record number_of_blocks (take (record_length bytes) (drop 8 bytes)) ≡ ok blocks)

ltb-zero : (n : ℕ) → ltb 0 n ≡ false → n ≡ 0
ltb-zero n h = ground arith

read_record-HasRecord :
    (bytes : Bytes) (n : ℕ) {blocks : List MeasurementBlock}
    → read_record bytes n (record_length bytes) ≡ ok blocks
    → HasRecord bytes n blocks
unfolding read_record
read_record-HasRecord bytes n h = elim (Bool-cases (ltb 0 (record_length bytes))) [
  | inl filled ↦
      let part =
        >>=-eq-ok (ok_or (slice bytes 8 (8 + record_length bytes)) record_overflow)
          (decode_record n) (rw filled at h) in
      let same =
        slice-eq bytes 8 (8 + record_length bytes) (record_length bytes) refl
          (ok_or-ok _ _ part.1) in
      inr (ap (decode_record n) (sym same) ∙ part.2)
  | inr empty ↦ inl (ltb-zero (record_length bytes) empty, ok_inj (sym (rw empty at h)))
]

read_record-ne-panic :
    (bytes : Bytes) (number_of_blocks record_length : ℕ)
    → read_record bytes number_of_blocks record_length ≢ panic
unfolding read_record
read_record-ne-panic bytes n l h = elim (Bool-cases (ltb 0 l)) [
  | inl filled ↦
      >>=-ne-panic (ok_or (slice bytes 8 (8 + l)) record_overflow) (decode_record n)
        (ok_or-ne-panic _ _) (λ part e. decode_record-ne-panic n part) cc
  | inr empty ↦ cc
]

module _ (format : Format) where
  -- the opaque data is that of the L2 bytes behind its length, if there are any
  abbrev pub HasOpaque : Bytes → Dict Value → Type 0
  HasOpaque bytes opaque_data =
      ((opaque_length bytes ≡ 0) × (opaque_data ≡ []))
      ⊎ (decode_opaque format (take (opaque_length bytes) (drop (42 + record_length bytes) bytes))
          ≡ ok opaque_data)

  -- the fields at the offsets of the documented layout, as the bytes themselves give them
  pub record HasLayout (bytes : Bytes) (signature_length : ℕ)
      (decoded : SpdmGetMeasurementsResponse × ℕ) : Type 0 where
    pub ends : decoded.1 ≡ 42 + record_length bytes + opaque_length bytes + signature_length
    pub inside : decoded.1 ≤ length bytes
    pub version : get_elem? bytes 0 ≡ some 17
    pub version_field : decoded.0.spdm_version ≡ 17
    pub code : get_elem? bytes 1 ≡ some decoded.0.request_response_code
    pub first : get_elem? bytes 2 ≡ some decoded.0.param1
    pub second : get_elem? bytes 3 ≡ some decoded.0.param2
    pub blocks : get_elem? bytes 4 ≡ some decoded.0.number_of_blocks
    pub record_size : decoded.0.measurement_record_length ≡ record_length bytes
    pub measurements : HasRecord bytes decoded.0.number_of_blocks decoded.0.measurement_record
    pub nonce : decoded.0.nonce ≡ take 32 (drop (8 + record_length bytes) bytes)
    pub opaque_size : decoded.0.opaque_data_length ≡ opaque_length bytes
    pub opaque : HasOpaque bytes decoded.0.opaque_data
    pub signature :
        decoded.0.signature
        ≡ take signature_length (drop (42 + record_length bytes + opaque_length bytes) bytes)

  read_opaque-HasOpaque :
      (bytes : Bytes) {opaque_data : Dict Value}
      → read_opaque format bytes (42 + record_length bytes) (opaque_length bytes) ≡ ok opaque_data
      → HasOpaque bytes opaque_data
  unfolding read_opaque
  read_opaque-HasOpaque bytes h = elim (Bool-cases (ltb 0 (opaque_length bytes))) [
    | inl filled ↦
        let start = 42 + record_length bytes in
        let part =
          >>=-eq-ok (ok_or (slice bytes start (start + opaque_length bytes)) opaque_overflow)
            (decode_opaque format) (rw filled at h) in
        let same =
          slice-eq bytes start (start + opaque_length bytes) (opaque_length bytes) refl
            (ok_or-ok _ _ part.1) in
        inr (ap (decode_opaque format) (sym same) ∙ part.2)
    | inr empty ↦ inl (ltb-zero (opaque_length bytes) empty, ok_inj (sym (rw empty at h)))
  ]

  read_opaque-ne-panic :
      (bytes : Bytes) (offset opaque_data_length : ℕ)
      → read_opaque format bytes offset opaque_data_length ≢ panic
  unfolding read_opaque
  read_opaque-ne-panic bytes offset l h = elim (Bool-cases (ltb 0 l)) [
    | inl filled ↦
        >>=-ne-panic (ok_or (slice bytes offset (offset + l)) opaque_overflow)
          (decode_opaque format) (ok_or-ne-panic _ _) (λ part e. decode_opaque-ne-panic format part)
          cc
    | inr empty ↦ cc
  ]

  response_fields-ne-panic :
      (bytes : Bytes)
      (signature_length version code param1 param2 number_of_blocks record_length : ℕ)
      → response_fields format bytes signature_length version code param1 param2 number_of_blocks
          record_length
        ≢ panic
  unfolding response_fields
  response_fields-ne-panic bytes s version code param1 param2 n l =
      >>=-ne-panic (read_record bytes n l) _ (read_record-ne-panic bytes n l) λ blocks e1.
        >>=-ne-panic (ok_or (slice bytes (8 + l) (40 + l)) nonce_overflow) _ (ok_or-ne-panic _ _)
          λ nonce e2.
            >>=-ne-panic (ok_or (slice bytes (40 + l) (42 + l)) opaque_length_overflow) _
              (ok_or-ne-panic _ _)
              λ array e3.
                >>=-ne-panic (read_opaque format bytes (42 + l) (from_le_bytes array)) _
                  (read_opaque-ne-panic bytes (42 + l) (from_le_bytes array))
                  λ opaque e4.
                    >>=-ne-panic
                      (ok_or
                        (slice bytes (42 + l + from_le_bytes array)
                          (42 + l + from_le_bytes array + s))
                        signature_overflow)
                      _ (ok_or-ne-panic _ _) λ signature e5 h. cc

  -- Decoding a response returns for every input: no index or slice is out of range, and the loops end.
  pub decode_response-ne-panic :
      (bytes : Bytes) (signature_length : ℕ) → decode_response format bytes signature_length ≢ panic
  unfolding decode_response
  decode_response-ne-panic bytes s =
      >>=-ne-panic (guard (leb 8 (length bytes)) response_too_small) _ (guard-ne-panic _ _) λ u e.
        let inside = leb→le 8 (length bytes) (guard-ok _ _ e) in
        >>=-ne-panic (or_panic (get_elem? bytes 0)) _
          (or_panic-ne-panic _ (get_elem?-ne-none bytes 0 (omega (arith, inside))))
          λ version e0.
            >>=-ne-panic (guard (version == 17) version_unsupported) _ (guard-ne-panic _ _) λ v e1.
              >>=-ne-panic (or_panic (get_elem? bytes 1)) _
                (or_panic-ne-panic _ (get_elem?-ne-none bytes 1 (omega (arith, inside))))
                λ code e2.
                  >>=-ne-panic (or_panic (get_elem? bytes 2)) _
                    (or_panic-ne-panic _ (get_elem?-ne-none bytes 2 (omega (arith, inside))))
                    λ param1 e3.
                      >>=-ne-panic (or_panic (get_elem? bytes 3)) _
                        (or_panic-ne-panic _ (get_elem?-ne-none bytes 3 (omega (arith, inside))))
                        λ param2 e4.
                          >>=-ne-panic (or_panic (get_elem? bytes 4)) _
                            (or_panic-ne-panic _
                              (get_elem?-ne-none bytes 4 (omega (arith, inside))))
                            λ n e5.
                              >>=-ne-panic (or_panic (slice bytes 5 8)) _
                                (or_panic-ne-panic _ (slice-ne-none bytes 5 8 (omega arith) inside))
                                λ array e6.
                                  response_fields-ne-panic bytes s version code param1 param2 n
                                    (from_le_bytes array)

  response_fields-HasLayout :
      (bytes : Bytes) (signature_length version code param1 param2 number_of_blocks : ℕ)
      (decoded : SpdmGetMeasurementsResponse × ℕ)
      → get_elem? bytes 0 ≡ some 17
      → version ≡ 17
      → get_elem? bytes 1 ≡ some code
      → get_elem? bytes 2 ≡ some param1
      → get_elem? bytes 3 ≡ some param2
      → get_elem? bytes 4 ≡ some number_of_blocks
      → response_fields format bytes signature_length version code param1 param2 number_of_blocks
          (record_length bytes)
        ≡ ok decoded
      → HasLayout bytes signature_length decoded
  unfolding response_fields
  response_fields-HasLayout bytes s version code param1 param2 n decoded e0 ev e1 e2 e3 e4 h =
      let l = record_length bytes in
      let blocks = >>=-eq-ok (read_record bytes n l) _ h in
      let nonce = >>=-eq-ok (ok_or (slice bytes (8 + l) (40 + l)) nonce_overflow) _ blocks.2 in
      let array =
        >>=-eq-ok (ok_or (slice bytes (40 + l) (42 + l)) opaque_length_overflow) _ nonce.2 in
      let same : array.0 ≡ take 2 (drop (40 + l) bytes) =
        slice-eq bytes (40 + l) (42 + l) 2 (omega arith) (ok_or-ok _ _ array.1) in
      let opaque =
        >>=-eq-ok (read_opaque format bytes (42 + l) (from_le_bytes array.0)) _ array.2 in
      let start = 42 + l + from_le_bytes array.0 in
      let signature =
        >>=-eq-ok (ok_or (slice bytes start (start + s)) signature_overflow) _ opaque.2 in
      subst (HasLayout bytes s) (ok_inj signature.2) (record {
        ends = ap (λ a. 42 + l + from_le_bytes a + s) same;
        inside = slice-end bytes start (start + s) (ok_or-ok _ _ signature.1);
        version = e0;
        version_field = ev;
        code = e1;
        first = e2;
        second = e3;
        blocks = e4;
        record_size = refl;
        measurements = read_record-HasRecord bytes n blocks.1;
        nonce = slice-eq bytes (8 + l) (40 + l) 32 (omega arith) (ok_or-ok _ _ nonce.1);
        opaque_size = ap from_le_bytes same;
        opaque =
            read_opaque-HasOpaque bytes
              (ap (λ a. read_opaque format bytes (42 + l) (from_le_bytes a)) (sym same) ∙ opaque.1);
        signature =
            slice-eq bytes start (start + s) s refl (ok_or-ok _ _ signature.1)
            ∙ ap (λ a. take s (drop (42 + l + from_le_bytes a) bytes)) same;
      })

  -- A decoded response has its fields at the documented offsets: these are counted with the length
  -- of the record that bytes 5 to 7 give and that of the opaque data that the two bytes behind the
  -- nonce give. Its blocks and opaque data are decoded from the bytes there, and the size that is
  -- returned with it is where the signature ends, inside of the data.
  pub decode_response-HasLayout :
      (bytes : Bytes) (signature_length : ℕ) (decoded : SpdmGetMeasurementsResponse × ℕ)
      → decode_response format bytes signature_length ≡ ok decoded
      → HasLayout bytes signature_length decoded
  unfolding decode_response
  decode_response-HasLayout bytes s decoded h =
      let long_enough = >>=-eq-ok (guard (leb 8 (length bytes)) response_too_small) _ h in
      let version = >>=-eq-ok (or_panic (get_elem? bytes 0)) _ long_enough.2 in
      let supported = >>=-eq-ok (guard (version.0 == 17) version_unsupported) _ version.2 in
      let code = >>=-eq-ok (or_panic (get_elem? bytes 1)) _ supported.2 in
      let param1 = >>=-eq-ok (or_panic (get_elem? bytes 2)) _ code.2 in
      let param2 = >>=-eq-ok (or_panic (get_elem? bytes 3)) _ param1.2 in
      let n = >>=-eq-ok (or_panic (get_elem? bytes 4)) _ param2.2 in
      let array = >>=-eq-ok (or_panic (slice bytes 5 8)) _ n.2 in
      let same = slice-eq bytes 5 8 3 refl (or_panic-ok _ array.1) in
      let seventeen = (==_iff version.0 17).0 (guard-ok _ _ supported.1) in
      response_fields-HasLayout bytes s version.0 code.0 param1.0 param2.0 n.0 decoded
        (or_panic-ok _ version.1 ∙ ap some seventeen) seventeen (or_panic-ok _ code.1)
        (or_panic-ok _ param1.1) (or_panic-ok _ param2.1) (or_panic-ok _ n.1)
        (ap
            (λ a.
              response_fields format bytes s version.0 code.0 param1.0 param2.0 n.0
                (from_le_bytes a))
            (sym same)
          ∙ array.2)

  pub HasLayout-EndsInSignature :
      (bytes : Bytes) (s : ℕ) (decoded : SpdmGetMeasurementsResponse × ℕ)
      → HasLayout bytes s decoded
      → EndsInSignature bytes s decoded
  HasLayout-EndsInSignature bytes s decoded layout =
      let found = 42 + record_length bytes + opaque_length bytes in
      let start = 42 + decoded.0.measurement_record_length + decoded.0.opaque_data_length in
      let same : start ≡ found = cc (layout.record_size, layout.opaque_size) in
      (
        cc (layout.ends, same),
        ap (λ n. slice bytes n (n + s)) same
            ∙ slice-part bytes found (found + s) s refl (omega (arith, layout.ends, layout.inside))
            ∙ ap some (sym layout.signature),
      )
