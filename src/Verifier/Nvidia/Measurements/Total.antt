-- ===== src/Verifier/Nvidia/Measurements/Total.antt =====
-- Decoding a measurement record ends without a panic.
use trustmee_artifact.Prelude.{
  Bytes, arith, ℕ, zero, suc, ◌+◌, ◌≤◌, ◌≡◌, ◌≢◌, inl, inr, false, ltb, leb, leb→le, ◌==◌,
  Bool-cases, length, get_elem?, panic, ok_or, guard, slice, or_panic, >>=-ne-panic,
  or_panic-ne-panic, ok_or-ne-panic, guard-ne-panic, guard-ok, slice-ne-none, get_elem?-ne-none,
  from_le_bytes,
}
use trustmee_artifact.Verifier.Nvidia.{
  dmtf_overflow, block_overflow, not_dmtf, measurement_overflow,
}
use trustmee_artifact.Verifier.Nvidia.Measurements.{
  dmtf_fields, decode_dmtf, blocks_from, decode_record,
}

enough_bytes : (n : ℕ) → ltb n 3 ≡ false → 3 ≤ n
enough_bytes n h = ground (arith, h)

dmtf_fields-ne-panic : (bytes : Bytes) → 3 ≤ length bytes → dmtf_fields bytes ≢ panic
unfolding dmtf_fields
dmtf_fields-ne-panic bytes inside =
    >>=-ne-panic (or_panic (get_elem? bytes 0)) _
      (or_panic-ne-panic _ (get_elem?-ne-none bytes 0 (omega (arith, inside))))
      λ value_type e1.
        >>=-ne-panic (or_panic (slice bytes 1 3)) _
          (or_panic-ne-panic _ (slice-ne-none bytes 1 3 (omega arith) inside))
          λ array e2.
            >>=-ne-panic (ok_or (slice bytes 3 (3 + from_le_bytes array)) dmtf_overflow) _
              (ok_or-ne-panic _ _) λ value e3 h. cc

pub decode_dmtf-ne-panic : (bytes : Bytes) → decode_dmtf bytes ≢ panic
unfolding decode_dmtf
decode_dmtf-ne-panic bytes h = elim (Bool-cases (ltb (length bytes) 3)) [
  | inl short ↦ cc
  | inr enough ↦ dmtf_fields-ne-panic bytes (enough_bytes (length bytes) enough) cc
]

blocks_from-ne-panic :
    (number_of_blocks : ℕ) (bytes : Bytes) (offset : ℕ)
    → blocks_from number_of_blocks bytes offset ≢ panic
unfolding blocks_from
blocks_from-ne-panic zero bytes offset = λ h. cc
blocks_from-ne-panic (suc n) bytes offset =
    >>=-ne-panic (guard (leb (offset + 4) (length bytes)) block_overflow) _ (guard-ne-panic _ _)
      λ u e.
        let inside = leb→le (offset + 4) (length bytes) (guard-ok _ _ e) in
        >>=-ne-panic (or_panic (get_elem? bytes (offset + 0))) _
          (or_panic-ne-panic _ (get_elem?-ne-none bytes (offset + 0) (omega (arith, inside))))
          λ index e1.
            >>=-ne-panic (or_panic (get_elem? bytes (offset + 1))) _
              (or_panic-ne-panic _ (get_elem?-ne-none bytes (offset + 1) (omega (arith, inside))))
              λ specification e2.
                >>=-ne-panic (guard (specification == 1) not_dmtf) _ (guard-ne-panic _ _) λ v e3.
                  >>=-ne-panic (or_panic (slice bytes (offset + 2) (offset + 4))) _
                    (or_panic-ne-panic _
                      (slice-ne-none bytes (offset + 2) (offset + 4) (omega arith) inside))
                    λ array e4.
                      >>=-ne-panic
                        (ok_or (slice bytes (offset + 4) (offset + (4 + from_le_bytes array)))
                          measurement_overflow)
                        _ (ok_or-ne-panic _ _)
                        λ measurement_data e5.
                          >>=-ne-panic (decode_dmtf measurement_data) _
                            (decode_dmtf-ne-panic measurement_data)
                            λ measurement e6.
                              >>=-ne-panic
                                (blocks_from n bytes (offset + (4 + from_le_bytes array))) _
                                (blocks_from-ne-panic n bytes (offset + (4 + from_le_bytes array)))
                                λ rest e7 h. cc

pub decode_record-ne-panic :
    (number_of_blocks : ℕ) (bytes : Bytes) → decode_record number_of_blocks bytes ≢ panic
unfolding decode_record
decode_record-ne-panic n bytes h = elim (Bool-cases (n == 0)) [
  | inl none_there ↦ cc
  | inr some_there ↦ blocks_from-ne-panic n bytes 0 cc
]
