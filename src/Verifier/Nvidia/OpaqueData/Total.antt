-- ===== src/Verifier/Nvidia/OpaqueData/Total.antt =====
-- Decoding opaque data ends without a panic.
use trustmee_artifact.Prelude.{
  Bytes, arith, ℕ, zero, suc, ◌+◌, ◌≤◌, ◌<◌, ◌%◌, ◌≡◌, ◌≢◌, inl, inr, not, [], ltb, ltb→lt, ◌==◌,
  Bool-cases, length, ok, panic, ◌>>◌, ok_or, guard, slice, or_panic, ok_inj, >>=-eq-ok,
  >>=-ne-panic, or_panic-ne-panic, ok_or-ne-panic, guard-ne-panic, slice-ne-none, from_le_bytes,
}
use trustmee_artifact.Prelude.Dict.{Dict, is_some, get, insert}
use trustmee_artifact.Verifier.Nvidia.{
  type_undefined, item_overflow, duplicated, versions_missing, vbios_invalid,
}
use trustmee_artifact.Verifier.Nvidia.DataType.{
  OpaqueDataType, driver_version, chip_sku, chip_sku_mod, nvdec0_status, project, project_sku,
  protected_pcie_status, vbios_version, msrs_cnt, switch_pdi, invalid, from_u16, name,
  cert_issuer_name, cert_authority_key_identifier, gpu_info, id_sku, manufacturer_id,
  tamper_detection, smc, vpr, cpr_info, board_id, project_sku_mod, fwid, floorswept_ports,
  position_id, lock_switch_status, gpu_link_conn,
}
use trustmee_artifact.Verifier.Nvidia.OpaqueData.{
  Value, Format, format_vbios_version, decode_switch_pdi, decode_measurement_count, item_data,
  read_item, items_from, has_versions, decode_opaque,
}

no_less : (n k : ℕ) → n ≤ n + k
no_less n k = omega arith

module _ (format : Format) where
  decode_switch_pdi-ne-panic : (bytes : Bytes) → decode_switch_pdi format bytes ≢ panic
  unfolding decode_switch_pdi
  decode_switch_pdi-ne-panic bytes h = elim (Bool-cases (length bytes % 8 == 0)) [
    | inl e ↦ cc
    | inr e ↦ cc
  ]

  decode_measurement_count-ne-panic :
      (bytes : Bytes) → decode_measurement_count format bytes ≢ panic
  unfolding decode_measurement_count
  decode_measurement_count-ne-panic bytes h = elim (Bool-cases (length bytes % 4 == 0)) [
    | inl e ↦ cc
    | inr e ↦ cc
  ]

  item_data-ne-panic : (type : OpaqueDataType) (bytes : Bytes) → item_data format type bytes ≢ panic
  unfolding item_data
  item_data-ne-panic vbios_version bytes h =
      >>=-ne-panic (ok_or (format_vbios_version format bytes) vbios_invalid) _ (ok_or-ne-panic _ _)
        (λ text e g. cc) h
  item_data-ne-panic msrs_cnt bytes h = decode_measurement_count-ne-panic bytes h
  item_data-ne-panic switch_pdi bytes h = decode_switch_pdi-ne-panic bytes h
  item_data-ne-panic driver_version bytes h = cc
  item_data-ne-panic chip_sku bytes h = cc
  item_data-ne-panic chip_sku_mod bytes h = cc
  item_data-ne-panic nvdec0_status bytes h = cc
  item_data-ne-panic project bytes h = cc
  item_data-ne-panic project_sku bytes h = cc
  item_data-ne-panic protected_pcie_status bytes h = cc
  item_data-ne-panic invalid bytes h = cc
  item_data-ne-panic cert_issuer_name bytes h = cc
  item_data-ne-panic cert_authority_key_identifier bytes h = cc
  item_data-ne-panic gpu_info bytes h = cc
  item_data-ne-panic id_sku bytes h = cc
  item_data-ne-panic manufacturer_id bytes h = cc
  item_data-ne-panic tamper_detection bytes h = cc
  item_data-ne-panic smc bytes h = cc
  item_data-ne-panic vpr bytes h = cc
  item_data-ne-panic cpr_info bytes h = cc
  item_data-ne-panic board_id bytes h = cc
  item_data-ne-panic project_sku_mod bytes h = cc
  item_data-ne-panic fwid bytes h = cc
  item_data-ne-panic floorswept_ports bytes h = cc
  item_data-ne-panic position_id bytes h = cc
  item_data-ne-panic lock_switch_status bytes h = cc
  item_data-ne-panic gpu_link_conn bytes h = cc

  -- an item is read from an offset with four bytes behind it, and takes at least those
  read_item-ne-panic :
      (bytes : Bytes) (offset : ℕ)
      → offset + 4 < length bytes
      → read_item format bytes offset ≢ panic
  unfolding read_item
  read_item-ne-panic bytes offset inside =
      >>=-ne-panic (or_panic (slice bytes offset (offset + 2))) _
        (or_panic-ne-panic _
          (slice-ne-none bytes offset (offset + 2) (omega arith) (omega (arith, inside))))
        λ type_bytes e1.
          >>=-ne-panic (ok_or (from_u16 (from_le_bytes type_bytes)) type_undefined) _
            (ok_or-ne-panic _ _)
            λ type e2.
              >>=-ne-panic (or_panic (slice bytes (offset + 2) (offset + 4))) _
                (or_panic-ne-panic _ (
                  slice-ne-none bytes (offset + 2) (offset + 4) (omega arith)
                    (omega (arith, inside))))
                λ size_bytes e3.
                  >>=-ne-panic
                    (ok_or (slice bytes (offset + 4) (offset + 4 + from_le_bytes size_bytes))
                      item_overflow)
                    _ (ok_or-ne-panic _ _)
                    λ data_bytes e4.
                      >>=-ne-panic (item_data format type data_bytes) _
                        (item_data-ne-panic type data_bytes) λ value e5 h. cc

  read_item-advances :
      (bytes : Bytes) (offset : ℕ) (item : OpaqueDataType × Value × ℕ)
      → read_item format bytes offset ≡ ok item
      → offset + 4 ≤ item.2
  unfolding read_item
  read_item-advances bytes offset item h =
      let type_bytes = >>=-eq-ok (or_panic (slice bytes offset (offset + 2))) _ h in
      let type =
        >>=-eq-ok (ok_or (from_u16 (from_le_bytes type_bytes.0)) type_undefined) _ type_bytes.2 in
      let size_bytes = >>=-eq-ok (or_panic (slice bytes (offset + 2) (offset + 4))) _ type.2 in
      let data_bytes =
        >>=-eq-ok
          (ok_or (slice bytes (offset + 4) (offset + 4 + from_le_bytes size_bytes.0)) item_overflow)
          _ size_bytes.2 in
      let value = >>=-eq-ok (item_data format type.0 data_bytes.0) _ data_bytes.2 in
      rw (← ok_inj value.2) (no_less (offset + 4) (from_le_bytes size_bytes.0))

  -- as many turns as bytes that are left are enough
  items_from-ne-panic :
      (fuel : ℕ) (bytes : Bytes) (offset : ℕ) (items : Dict Value)
      → length bytes ≤ offset + fuel
      → items_from format fuel bytes offset items ≢ panic
  unfolding items_from
  items_from-ne-panic zero bytes offset items enough h =
      elim (Bool-cases (ltb (offset + 4) (length bytes))) [
        | inl more ↦ omega (arith, enough, ltb→lt (offset + 4) (length bytes) more)
        | inr done ↦ cc
      ]
  items_from-ne-panic (suc fuel) bytes offset items enough h =
      elim (Bool-cases (ltb (offset + 4) (length bytes))) [
        | inl more ↦
            >>=-ne-panic (read_item format bytes offset)
              (λ (type, value, next).
                guard (not (is_some (get (name type) items))) duplicated
                >> items_from format fuel bytes next (insert (name type) value items))
              (read_item-ne-panic bytes offset (ltb→lt (offset + 4) (length bytes) more))
              (λ item e.
                >>=-ne-panic (guard (not (is_some (get (name item.0) items))) duplicated) _
                  (guard-ne-panic _ _)
                  (λ u g.
                    items_from-ne-panic fuel bytes item.2 (insert (name item.0) item.1 items)
                      (omega (arith, enough, read_item-advances bytes offset item e))))
              cc
        | inr done ↦ cc
      ]

  -- Decoding opaque data returns for every input: the loop ends within a turn for each byte, and no slice
  -- is out of range.
  pub decode_opaque-ne-panic : (bytes : Bytes) → decode_opaque format bytes ≢ panic
  unfolding decode_opaque
  decode_opaque-ne-panic bytes h = elim (Bool-cases (length bytes == 0)) [
    | inl empty ↦ cc
    | inr filled ↦
        >>=-ne-panic (items_from format (length bytes) bytes 0 [])
          (λ items. guard (has_versions format items) versions_missing >> ok items)
          (items_from-ne-panic (length bytes) bytes 0 [] (omega arith))
          (λ items e.
            >>=-ne-panic (guard (has_versions format items) versions_missing) _ (guard-ne-panic _ _)
              (λ u g k. cc))
          cc
  ]
