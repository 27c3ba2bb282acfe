-- ===== src/Verifier/Nvidia/Request/Layout.antt =====
-- Which requests are decoded, and where their nonce stands.
use mathlib.Core.Path.{subst}
use trustmee_artifact.Prelude.{
  Bytes, refl, arith, ℕ, ◌≤◌, ◌≡◌, ◌≢◌, inl, inr, false, some, ltb, ◌==◌, Bool-cases, length,
  get_elem?, ok, panic, guard, slice, or_panic, ok_inj, or_panic-ok, >>=-eq-ok, >>=-ne-panic,
  or_panic-ne-panic, guard-ne-panic, slice-ne-none, get_elem?-ne-none,
}
use trustmee_artifact.Verifier.Nvidia.{version_unsupported, spdm_get_measurement_request_size}
use trustmee_artifact.Verifier.Nvidia.Request.{
  SpdmGetMeasurementRequest, request_fields, decode_request,
}

enough_bytes : (n : ℕ) → ltb n 37 ≡ false → 37 ≤ n
enough_bytes n h = ground (arith, h)

request_fields-ne-panic : (bytes : Bytes) → 37 ≤ length bytes → request_fields bytes ≢ panic
unfolding request_fields
request_fields-ne-panic bytes inside =
    >>=-ne-panic (or_panic (get_elem? bytes 0)) _
      (or_panic-ne-panic _ (get_elem?-ne-none bytes 0 (omega (arith, inside))))
      λ version e0.
        >>=-ne-panic (guard (version == 17) version_unsupported) _ (guard-ne-panic _ _) λ u e1.
          >>=-ne-panic (or_panic (get_elem? bytes 1)) _
            (or_panic-ne-panic _ (get_elem?-ne-none bytes 1 (omega (arith, inside))))
            λ code e2.
              >>=-ne-panic (or_panic (get_elem? bytes 2)) _
                (or_panic-ne-panic _ (get_elem?-ne-none bytes 2 (omega (arith, inside))))
                λ param1 e3.
                  >>=-ne-panic (or_panic (get_elem? bytes 3)) _
                    (or_panic-ne-panic _ (get_elem?-ne-none bytes 3 (omega (arith, inside))))
                    λ param2 e4.
                      >>=-ne-panic (or_panic (slice bytes 4 36)) _
                        (or_panic-ne-panic _
                          (slice-ne-none bytes 4 36 (omega arith) (omega (arith, inside))))
                        λ nonce e5.
                          >>=-ne-panic (or_panic (get_elem? bytes 36)) _
                            (or_panic-ne-panic _
                              (get_elem?-ne-none bytes 36 (omega (arith, inside))))
                            λ slot e6 h. cc

pub decode_request-ne-panic : (bytes : Bytes) → decode_request bytes ≢ panic
unfolding decode_request
decode_request-ne-panic bytes h = elim (Bool-cases (ltb (length bytes) 37)) [
  | inl short ↦ cc
  | inr enough ↦ request_fields-ne-panic bytes (enough_bytes (length bytes) enough) cc
]

-- the nonce is the bytes from 4 to 36, and 37 bytes are used
abbrev pub HasNonce : Bytes → SpdmGetMeasurementRequest × ℕ → Type 0
HasNonce bytes (request, used) =
    (slice bytes 4 36 ≡ some request.nonce) × (used ≡ spdm_get_measurement_request_size)

request_fields-HasNonce :
    (bytes : Bytes) (decoded : SpdmGetMeasurementRequest × ℕ)
    → request_fields bytes ≡ ok decoded
    → HasNonce bytes decoded
unfolding request_fields
request_fields-HasNonce bytes decoded h =
    let version = >>=-eq-ok (or_panic (get_elem? bytes 0)) _ h in
    let supported = >>=-eq-ok (guard (version.0 == 17) version_unsupported) _ version.2 in
    let code = >>=-eq-ok (or_panic (get_elem? bytes 1)) _ supported.2 in
    let param1 = >>=-eq-ok (or_panic (get_elem? bytes 2)) _ code.2 in
    let param2 = >>=-eq-ok (or_panic (get_elem? bytes 3)) _ param1.2 in
    let nonce = >>=-eq-ok (or_panic (slice bytes 4 36)) _ param2.2 in
    let slot = >>=-eq-ok (or_panic (get_elem? bytes 36)) _ nonce.2 in
    subst (HasNonce bytes) (ok_inj slot.2) (or_panic-ok _ nonce.1, refl)

pub decode_request-HasNonce :
    (bytes : Bytes) (decoded : SpdmGetMeasurementRequest × ℕ)
    → decode_request bytes ≡ ok decoded
    → HasNonce bytes decoded
unfolding decode_request
decode_request-HasNonce bytes decoded h = elim (Bool-cases (ltb (length bytes) 37)) [
  | inl short ↦ cc
  | inr enough ↦ request_fields-HasNonce bytes decoded cc
]
