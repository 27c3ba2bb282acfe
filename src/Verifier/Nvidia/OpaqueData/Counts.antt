-- ===== src/Verifier/Nvidia/OpaqueData/Counts.antt =====
-- The index of the measurement counts, which is one byte wide.
use trustmee_artifact.Prelude.{
  Bytes, arith, ℕ, suc, ◌+◌, ◌%◌, ◌<◌, ◌≡◌, refl, ap, ◌∙◌, some, List, [], ◌∷◌, ◌++◌, eq_iff,
  length, from_le_bytes,
}
use trustmee_artifact.Prelude.Dict.{Dict, get, insert, get-insert}
use trustmee_artifact.Verifier.Nvidia.OpaqueData.{Format, counts_from}

module _ (format : Format) where
  -- the last chunk is counted under the index that wraps after 255
  last-count :
      (before : List Bytes) (last : Bytes) (index : ℕ) (values : Dict ℕ)
      → index < 256
      → get
          (format.decimal ((index + length before) % 256))
          (counts_from format (before ++ (last ∷ [])) index values)
        ≡ some (from_le_bytes last)
  unfolding counts_from
  last-count [] last index values small =
      ap (λ n. get (format.decimal n) (insert (format.decimal index) (from_le_bytes last) values))
        same
      ∙ cc (
        get-insert (format.decimal index) (format.decimal index) (from_le_bytes last) values,
        (eq_iff (format.decimal index) (format.decimal index)).1 refl,
      )
    where
      same : (index + 0) % 256 ≡ index
      same = omega (arith, small)
  last-count (chunk ∷ before) last index values small =
      ap
        (λ n. get (format.decimal n) (
          counts_from format (before ++ (last ∷ [])) ((index + 1) % 256)
            (insert (format.decimal index) (from_le_bytes chunk) values)))
        (step (length before))
      ∙ last-count before last ((index + 1) % 256)
          (insert (format.decimal index) (from_le_bytes chunk) values) (omega arith)
    where
      step : (n : ℕ) → (index + suc n) % 256 ≡ ((index + 1) % 256 + n) % 256
      step n = omega arith

  -- The count of the first measurement is lost: in a list of 257 counts the last one has replaced it
  -- under the key of the index 1.
  pub first_count_replaced :
      (first last : Bytes) (between : List Bytes)
      → length between ≡ 255
      → get (format.decimal 1) (counts_from format (first ∷ (between ++ (last ∷ []))) 1 [])
        ≡ some (from_le_bytes last)
  first_count_replaced first last between size =
      ap (λ n. get (format.decimal n) (counts_from format (first ∷ (between ++ (last ∷ []))) 1 []))
        wrapped
      ∙ last-count (first ∷ between) last 1 [] (omega arith)
    where
      wrapped : 1 ≡ (1 + length (first ∷ between)) % 256
      wrapped = omega (arith, size)
