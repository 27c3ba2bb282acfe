-- ===== src/Verifier/Nvidia/OpaqueData.antt =====
-- The opaque data of a response: `OpaqueData` of deps/verifier/src/nvidia/spdm_response.rs. The
-- formatting of bytes as text is the libraries', so it is a parameter.
pub mod Keys
pub mod Total
pub mod Counts
use Prim.Native.String as Text
use trustmee_artifact.Prelude.{
  Bytes, ℕ, zero, suc, ◌+◌, ◌/◌, ◌%◌, String, ◌≡◌, Bool, true, false, ◌&&◌, not, Option, none, some,
  List, [], ◌∷◌, map, ltb, ◌==◌, if◌then◌else◌, length, take, drop, get_elem?, Result, ok, err,
  panic, ◌>>=◌, ◌>>◌, ok_or, guard, slice, or_panic, from_le_bytes,
}
use trustmee_artifact.Prelude.Dict.{Dict, is_some, get, insert}
use trustmee_artifact.Verifier.Nvidia.{
  SpdmError, type_undefined, item_overflow, vbios_invalid, not_multiple, type_invalid, duplicated,
  versions_missing,
}
use trustmee_artifact.Verifier.Nvidia.DataType.{
  OpaqueDataType, driver_version, chip_sku, chip_sku_mod, nvdec0_status, project, project_sku,
  protected_pcie_status, vbios_version, msrs_cnt, switch_pdi, invalid, from_u16, name,
}

-- the three shapes of `serde_json::Value` that the decoder makes
pub data Value : Type 0 where
  string : String → Value
  array : List String → Value
  object : Dict ℕ → Value

-- `hex::encode`, `{:02x}`, `from_utf8_lossy`, `trim_end_matches('\0')` and `u8::to_string`
pub record Format : Type 0 where
  pub hex : Bytes → String
  pub hex_byte : ℕ → String
  pub from_utf8_lossy : Bytes → String
  pub trim_end_nul : String → String
  pub decimal : ℕ → String

-- `rev`, in front of what is already reversed
abbrev pub reverse_onto : Bytes → Bytes → Bytes
reverse_onto [] done = done
reverse_onto (b ∷ bytes) done = reverse_onto bytes (b ∷ done)

-- `join(".")`
abbrev pub join_dots : List String → String
join_dots [] = ""
join_dots (s ∷ []) = s
join_dots (s ∷ t ∷ rest) = Text.◌++◌ s (Text.◌++◌ "." (join_dots (t ∷ rest)))

-- `chunks`; a turn for every byte is enough, since a chunk is not empty
unfoldable pub chunks_from : ℕ → ℕ → Bytes → List Bytes
chunks_from zero size bytes = []
chunks_from (suc fuel) size [] = []
chunks_from (suc fuel) size (b ∷ bytes) =
    take size (b ∷ bytes) ∷ chunks_from fuel size (drop size (b ∷ bytes))

abbrev pub chunks : ℕ → Bytes → List Bytes
chunks size bytes = chunks_from (length bytes) size bytes

module _ (format : Format) where
  abbrev pub vbios_text : Option Bytes → Option ℕ → Option String
  vbios_text none byte = none
  vbios_text (some half) none = none
  vbios_text (some half) (some byte) = some (
      Text.◌++◌ (join_dots (map format.hex_byte (reverse_onto half [])))
        (Text.◌++◌ "." (format.hex_byte byte)))

  unfoldable pub format_vbios_version : Bytes → Option String
  format_vbios_version bytes =
      vbios_text (slice bytes 0 (length bytes / 2)) (get_elem? bytes (length bytes / 2))

  unfoldable pub decode_switch_pdi : Bytes → Result SpdmError Value
  decode_switch_pdi bytes =
      if length bytes % 8 == 0
      then ok (array (map format.hex (chunks 8 bytes)))
      else err not_multiple

  -- the loop of `decode_measurement_count`; its index is a `u8`, which wraps in a release build
  unfoldable pub counts_from : List Bytes → ℕ → Dict ℕ → Dict ℕ
  counts_from [] index values = values
  counts_from (chunk ∷ rest) index values =
      counts_from rest ((index + 1) % 256)
        (insert (format.decimal index) (from_le_bytes chunk) values)

  unfoldable pub decode_measurement_count : Bytes → Result SpdmError Value
  decode_measurement_count bytes =
      if length bytes % 4 == 0
      then ok (object (counts_from (chunks 4 bytes) 1 []))
      else err not_multiple

  abbrev pub lossy_text : Bytes → Value
  lossy_text bytes = string (format.trim_end_nul (format.from_utf8_lossy bytes))

  -- the `match` on the type of an item
  unfoldable pub item_data : OpaqueDataType → Bytes → Result SpdmError Value
  item_data driver_version bytes = ok (lossy_text bytes)
  item_data chip_sku bytes = ok (lossy_text bytes)
  item_data chip_sku_mod bytes = ok (lossy_text bytes)
  item_data nvdec0_status bytes = ok (lossy_text bytes)
  item_data project bytes = ok (lossy_text bytes)
  item_data project_sku bytes = ok (lossy_text bytes)
  item_data protected_pcie_status bytes = ok (lossy_text bytes)
  item_data vbios_version bytes =
      ok_or (format_vbios_version bytes) vbios_invalid >>= λ text. ok (string text)
  item_data msrs_cnt bytes = decode_measurement_count bytes
  item_data switch_pdi bytes = decode_switch_pdi bytes
  item_data invalid bytes = err type_invalid
  item_data other bytes = ok (string (format.hex bytes))

  -- an item's type and value, and the offset behind it
  unfoldable pub read_item : Bytes → ℕ → Result SpdmError (OpaqueDataType × Value × ℕ)
  read_item bytes offset = or_panic (slice bytes offset (offset + 2)) >>= λ type_bytes.
      ok_or (from_u16 (from_le_bytes type_bytes)) type_undefined >>= λ type.
      or_panic (slice bytes (offset + 2) (offset + 4)) >>= λ size_bytes.
      ok_or (slice bytes (offset + 4) (offset + 4 + from_le_bytes size_bytes)) item_overflow
      >>= λ data_bytes. item_data type data_bytes >>= λ value.
          ok (type, value, offset + 4 + from_le_bytes size_bytes)

  -- the loop of `OpaqueData::decode`; it takes at least four bytes a turn, and fuel that ran out
  -- before the end would be `panic`
  unfoldable pub items_from : ℕ → Bytes → ℕ → Dict Value → Result SpdmError (Dict Value)
  items_from zero bytes offset items = if ltb (offset + 4) (length bytes) then panic else ok items
  items_from (suc fuel) bytes offset items =
      if ltb (offset + 4) (length bytes)
      then (read_item bytes offset >>= λ (type, value, next).
          guard (not (is_some (get (name type) items))) duplicated
          >> items_from fuel bytes next (insert (name type) value items))
      else ok items

  abbrev pub has_versions : Dict Value → Bool
  has_versions items =
      is_some (get (name vbios_version) items) && is_some (get (name driver_version) items)

  -- `OpaqueData::decode`
  unfoldable pub decode_opaque : Bytes → Result SpdmError (Dict Value)
  decode_opaque bytes =
      if length bytes == 0
      then ok []
      else (items_from (length bytes) bytes 0 [] >>= λ items.
          guard (has_versions items) versions_missing >> ok items)
