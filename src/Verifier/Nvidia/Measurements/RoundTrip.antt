-- ===== src/Verifier/Nvidia/Measurements/RoundTrip.antt =====
-- Decoding what the layout of a measurement record says to write.
use trustmee_artifact.Prelude.{
  Bytes, ℕ, zero, suc, ◌+◌, ◌/◌, ◌%◌, ◌≡◌, refl, ap, ◌∙◌, true, false, some, List, [], ◌∷◌, ◌++◌,
  arith, ltb, leb, ◌==◌, if◌then◌else◌, length, get_elem?, length-append, All, ok, err, ok_or,
  guard, >>=-cong, >>=-ext, >>=-step, slice-append, slice-rest, slice, or_panic, from_le_bytes,
  get_elem?-shift, slice-shift, leb-shift,
}
use trustmee_artifact.Verifier.Nvidia.{
  dmtf_too_small, dmtf_overflow, block_overflow, not_dmtf, measurement_overflow,
  dmtf_measurement_specification_value,
}
use trustmee_artifact.Verifier.Nvidia.Measurements.{
  DmtfMeasurement, MeasurementBlock, dmtf_fields, decode_dmtf, blocks_from, decode_record,
}

-- decoding from an offset behind a prefix does not see the prefix
blocks_from-shift :
    (number_of_blocks : ℕ) (front rest : Bytes) (k : ℕ)
    → blocks_from number_of_blocks (front ++ rest) (length front + k)
      ≡ blocks_from number_of_blocks rest k
unfolding blocks_from
blocks_from-shift zero front rest k = refl
blocks_from-shift (suc n) front rest k = >>=-cong (ap (λ b. guard b block_overflow) fits) λ u.
    >>=-cong (ap or_panic (at 0)) λ index. >>=-cong (ap or_panic (at 1)) λ specification.
      >>=-cong refl λ v. >>=-cong (ap or_panic (part 2 4)) λ array.
        >>=-cong (ap (λ o. ok_or o measurement_overflow) (part 4 (4 + from_le_bytes array)))
          λ measurement_data. >>=-ext (decode_dmtf measurement_data) _ _ λ measurement.
            >>=-cong
              (ap (blocks_from n (front ++ rest)) (assoc (4 + from_le_bytes array))
                ∙ blocks_from-shift n front rest (k + (4 + from_le_bytes array)))
              λ blocks. refl
  where
    assoc : (i : ℕ) → length front + k + i ≡ length front + (k + i)
    assoc i = omega arith

    at : (i : ℕ) → get_elem? (front ++ rest) (length front + k + i) ≡ get_elem? rest (k + i)
    at i = ap (get_elem? (front ++ rest)) (assoc i) ∙ get_elem?-shift front rest (k + i)

    part :
        (i j : ℕ)
        → slice (front ++ rest) (length front + k + i) (length front + k + j)
          ≡ slice rest (k + i) (k + j)
    part i j =
        ap (λ n. slice (front ++ rest) n (length front + k + j)) (assoc i)
        ∙ ap (slice (front ++ rest) (length front + (k + i))) (assoc j)
        ∙ slice-shift front rest (k + i) (k + j)

    fits : leb (length front + k + 4) (length (front ++ rest)) ≡ leb (k + 4) (length rest)
    fits =
        ap (λ n. leb n (length (front ++ rest))) (assoc 4)
        ∙ ap (leb (length front + (k + 4))) (length-append front rest)
        ∙ leb-shift (length front) (k + 4) (length rest)

-- `u16::to_le_bytes`, and the layouts that the decoders document
abbrev pub encode_dmtf : DmtfMeasurement → Bytes
encode_dmtf m = m.value_type ∷ m.size % 256 ∷ m.size / 256 ∷ m.value

abbrev pub encode_block : MeasurementBlock → Bytes
encode_block b =
    b.index
    ∷ b.measurement_specification
    ∷ b.measurement_size % 256
    ∷ b.measurement_size / 256
    ∷ encode_dmtf b.measurement

-- the blocks one after the other, and `rest` behind them
abbrev pub encode_blocks : List MeasurementBlock → Bytes → Bytes
encode_blocks [] rest = rest
encode_blocks (b ∷ blocks) rest = encode_block b ++ encode_blocks blocks rest

-- a block in the DMTF layout whose sizes are those of its value
abbrev pub IsBlock : MeasurementBlock → Type 0
IsBlock b =
    (b.measurement_specification ≡ dmtf_measurement_specification_value)
    × (b.measurement_size ≡ 3 + length b.measurement.value)
    × (b.measurement.size ≡ length b.measurement.value)

from_le_bytes-to : (n : ℕ) → from_le_bytes (n % 256 ∷ n / 256 ∷ []) ≡ n
from_le_bytes-to n = omega arith

decode_dmtf-encode :
    (m : DmtfMeasurement) → m.size ≡ length m.value → decode_dmtf (encode_dmtf m) ≡ ok m
unfolding decode_dmtf dmtf_fields
decode_dmtf-encode m e =
    ap (λ t. if t then err dmtf_too_small else dmtf_fields (encode_dmtf m)) long_enough
    ∙ >>=-step _
        (ap or_panic (slice-append (m.value_type ∷ []) (m.size % 256 ∷ m.size / 256 ∷ []) m.value))
        (>>=-step _ (ap (λ o. ok_or o dmtf_overflow) value_part) refl)
    ∙ ap (λ n. ok record { value_type = m.value_type; size = n; value = m.value })
        (from_le_bytes-to m.size)
  where
    long_enough : ltb (length (encode_dmtf m)) 3 ≡ false
    long_enough = ground arith

    value_part :
        slice (encode_dmtf m) 3 (3 + from_le_bytes (m.size % 256 ∷ m.size / 256 ∷ []))
        ≡ some m.value
    value_part =
        ap (λ n. slice (encode_dmtf m) 3 (3 + n)) (from_le_bytes-to m.size ∙ e)
        ∙ slice-rest (m.value_type ∷ m.size % 256 ∷ m.size / 256 ∷ []) m.value

long_enough : (b : MeasurementBlock) (tail : Bytes) → leb 4 (length (encode_block b ++ tail)) ≡ true
long_enough b tail = ground arith

-- the size as it is read
abbrev read_size : MeasurementBlock → ℕ
read_size b = from_le_bytes (b.measurement_size % 256 ∷ b.measurement_size / 256 ∷ [])

abbrev header : MeasurementBlock → Bytes
header b =
    b.index ∷ b.measurement_specification ∷ b.measurement_size % 256 ∷ b.measurement_size / 256 ∷ []

read_size-length :
    (b : MeasurementBlock)
    → b.measurement_size ≡ 3 + length b.measurement.value
    → 0 + (4 + read_size b) ≡ 4 + length (encode_dmtf b.measurement)
read_size-length b size = omega (arith, from_le_bytes-to b.measurement_size, size)

measurement_part :
    (b : MeasurementBlock) (tail : Bytes)
    → b.measurement_size ≡ 3 + length b.measurement.value
    → slice (encode_block b ++ tail) (0 + 4) (0 + (4 + read_size b))
      ≡ some (encode_dmtf b.measurement)
measurement_part b tail size =
    ap (slice (encode_block b ++ tail) 4) (read_size-length b size)
    ∙ slice-append (header b) (encode_dmtf b.measurement) tail

others_part :
    (b : MeasurementBlock) (blocks : List MeasurementBlock) (rest : Bytes)
    → b.measurement_size ≡ 3 + length b.measurement.value
    → blocks_from (length blocks) (encode_blocks (b ∷ blocks) rest) (0 + (4 + read_size b))
      ≡ blocks_from (length blocks) (encode_blocks blocks rest) 0
others_part b blocks rest size =
    ap (blocks_from (length blocks) (encode_blocks (b ∷ blocks) rest)) offset
    ∙ blocks_from-shift (length blocks) (encode_block b) (encode_blocks blocks rest) 0
  where
    offset : 0 + (4 + read_size b) ≡ length (encode_block b) + 0
    offset = omega (arith, read_size-length b size)

blocks_from-encode :
    (blocks : List MeasurementBlock) (rest : Bytes)
    → All IsBlock blocks
    → blocks_from (length blocks) (encode_blocks blocks rest) 0 ≡ ok blocks
unfolding blocks_from
blocks_from-encode [] rest h = refl
blocks_from-encode (b ∷ blocks) rest ((spec, size, value_size), others) =
    >>=-step _ (ap (λ t. guard t block_overflow) (long_enough b (encode_blocks blocks rest))) (
      >>=-step _ (ap (λ n. guard (n == 1) not_dmtf) spec) (
        >>=-step _
          (ap or_panic (
            slice-append (b.index ∷ b.measurement_specification ∷ [])
              (b.measurement_size % 256 ∷ b.measurement_size / 256 ∷ [])
              (encode_dmtf b.measurement ++ encode_blocks blocks rest)))
          (>>=-step _
            (ap (λ o. ok_or o measurement_overflow)
              (measurement_part b (encode_blocks blocks rest) size))
            (>>=-step _ (decode_dmtf-encode b.measurement value_size) (
              >>=-step _ (others_part b blocks rest size ∙ blocks_from-encode blocks rest others) (
                ap (λ n. ok (record b { measurement_size = n } ∷ blocks))
                  (from_le_bytes-to b.measurement_size)))))))

-- The blocks written one after the other in the documented layout are decoded back, whatever follows
-- them, when each is in the DMTF layout with the sizes of its value.
pub decode_record-encode :
    (blocks : List MeasurementBlock) (rest : Bytes)
    → All IsBlock blocks
    → decode_record (length blocks) (encode_blocks blocks rest) ≡ ok blocks
unfolding decode_record
decode_record-encode [] rest h = refl
decode_record-encode (b ∷ blocks) rest h =
    ap
      (λ t.
        if t then ok [] else blocks_from (suc (length blocks)) (encode_blocks (b ∷ blocks) rest) 0)
      (not_zero (length blocks))
    ∙ blocks_from-encode (b ∷ blocks) rest h
  where
    not_zero : (n : ℕ) → (suc n == 0) ≡ false
    not_zero n = ground arith
