-- ===== src/Verifier/Nvidia/OpaqueData/Keys.antt =====
-- Which keys decoded opaque data has, and that no item replaces another.
use mathlib.Core.Path.{subst}
use trustmee_artifact.Prelude.{
  Bytes, arith, ℕ, zero, suc, ◌+◌, String, ◌≡◌, ◌⊎◌, refl, sym, ◌∙◌, inl, inr, Bool, true, false,
  ◌&&◌, not, some, [], ◌∷◌, str_eq, eq_iff, ltb, ◌==◌, ==_iff, Bool-cases, length, Result, ok, ◌>>◌,
  guard, guard-ok, ok_inj, >>=-eq-ok,
}
use trustmee_artifact.Prelude.Dict.{Dict, is_some, get, insert, get-insert}
use trustmee_artifact.Verifier.Nvidia.{SpdmError, duplicated}
use trustmee_artifact.Verifier.Nvidia.DataType.{OpaqueDataType, driver_version, vbios_version, name}
use trustmee_artifact.Verifier.Nvidia.OpaqueData.{
  Value, Format, read_item, items_from, has_versions, decode_opaque,
}

both : (a b : Bool) → (a && b) ≡ true → (a ≡ true) × (b ≡ true)
both true true h = (refl, refl)
both true false h = cc
both false b h = cc

no_bytes : (bytes : Bytes) → length bytes ≡ 0 → bytes ≡ []
no_bytes [] h = refl
no_bytes (b ∷ bytes) h = absurd (ground (arith, h))

-- a key that the map does not have yet can be inserted without a loss
get-insert-new :
    (k j : String) (v w : Value) (items : Dict Value)
    → not (is_some (get k items)) ≡ true
    → get j items ≡ some w
    → get j (insert k v items) ≡ some w
get-insert-new k j v w items new there = elim (Bool-cases (str_eq k j)) [
  | inl same ↦ clash same (subst (λ t. get t items ≡ some w) (sym ((eq_iff k j).0 same)) there)
  | inr other ↦ get-insert k j v items ∙ cc (other, there)
]
  where
    clash : str_eq k j ≡ true → get k items ≡ some w → get j (insert k v items) ≡ some w
    clash same h = cc (h, new)

module _ (format : Format) where
  abbrev next_turn :
      ℕ → Bytes → Dict Value → (OpaqueDataType × Value × ℕ) → Result SpdmError (Dict Value)
  next_turn fuel bytes items (type, value, next) =
      guard (not (is_some (get (name type) items))) duplicated
      >> items_from format fuel bytes next (insert (name type) value items)

  -- Decoding keeps what an earlier item gave: the entries of the map at any turn of the loop are those
  -- of the result, so no item of the report replaces another.
  pub items_from-keeps :
      (fuel : ℕ) (bytes : Bytes) (offset : ℕ) (items decoded : Dict Value) (k : String) (v : Value)
      → items_from format fuel bytes offset items ≡ ok decoded
      → get k items ≡ some v
      → get k decoded ≡ some v
  unfolding items_from
  items_from-keeps zero bytes offset items decoded k v h there =
      elim (Bool-cases (ltb (offset + 4) (length bytes))) [
        | inl more ↦ cc (h, more)
        | inr done ↦ rw (← at_end done h) there
      ]
    where
      at_end :
          ltb (offset + 4) (length bytes) ≡ false
          → items_from format zero bytes offset items ≡ ok decoded
          → items ≡ decoded
      at_end done g = cc (done, g)
  items_from-keeps (suc fuel) bytes offset items decoded k v h there =
      elim (Bool-cases (ltb (offset + 4) (length bytes))) [
        | inl more ↦
            let item =
              >>=-eq-ok (read_item format bytes offset) (next_turn fuel bytes items)
                {last = decoded} cc in
            let fresh =
              >>=-eq-ok (guard (not (is_some (get (name item.0.0) items))) duplicated) _ item.2 in
            items_from-keeps fuel bytes item.0.2 (insert (name item.0.0) item.0.1 items) decoded k v
              fresh.2
              (get-insert-new (name item.0.0) k item.0.1 v items (guard-ok _ _ fresh.1) there)
        | inr done ↦ rw (← at_end done h) there
      ]
    where
      at_end :
          ltb (offset + 4) (length bytes) ≡ false
          → items_from format (suc fuel) bytes offset items ≡ ok decoded
          → items ≡ decoded
      at_end done g = cc (done, g)

  -- Opaque data that is not empty is accepted only with a VBIOS version and a driver version.
  pub decode_opaque-has_versions :
      (bytes : Bytes) (items : Dict Value)
      → decode_opaque format bytes ≡ ok items
      → (bytes ≡ [])
        ⊎ ((is_some (get (name vbios_version) items) ≡ true)
            × (is_some (get (name driver_version) items) ≡ true))
  unfolding decode_opaque
  decode_opaque-has_versions bytes items h = elim (Bool-cases (length bytes == 0)) [
    | inl empty ↦ inl (no_bytes bytes ((==_iff (length bytes) 0).0 empty))
    | inr filled ↦
        let read = >>=-eq-ok (items_from format (length bytes) bytes 0 []) _ (rw filled at h) in
        let present = >>=-eq-ok (guard (has_versions format read.0) _) _ read.2 in
        inr (
          subst
            (λ m.
              (is_some (get (name vbios_version) m) ≡ true)
              × (is_some (get (name driver_version) m) ≡ true))
            (ok_inj present.2) (both _ _ (guard-ok _ _ present.1)))
  ]
