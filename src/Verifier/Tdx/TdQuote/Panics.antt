-- ===== src/Verifier/Tdx/TdQuote/Panics.antt =====
-- Which quotes make the parser panic.
use trustmee_artifact.Prelude.{
  Bytes, ℕ, ◌+◌, ◌≤◌, ◌<◌, ◌≡◌, ◌≢◌, ap, inl, inr, Bool-cases, Option, [], ◌∷◌, arith, length,
  Result, ok, panic, ◌>>=◌, ok_or, slice, or_panic, same_bytes, from_le_bytes, ltb, slice-ne-none,
  or_panic-ne-panic, ok_or-ne-panic, >>=-ne-panic,
}
use trustmee_artifact.Verifier.Tdx.TdQuote.{
  QuoteError, QuoteHeader, QuoteV5Type, tdx10, tdx15, body_failed, header_failed, from_bytes,
  type_of_code, pread_header, pread_body, pread_body_v15, pread_v5_body, parse_v5, parse_version,
  parse_tdx_quote, v4,
}
use trustmee_artifact.Verifier.Tdx.TdQuote.Reading.{slice-over}

module _ (pread : Bytes → ℕ → ℕ → Option Bytes) where
  -- A quote with fewer than the 48 bytes of its header makes the parser panic, whatever its bytes are.
  pub short_quote_panics :
      (quote_bin : Bytes) → length quote_bin < 48 → parse_tdx_quote pread quote_bin ≡ panic
  unfolding parse_tdx_quote
  short_quote_panics quote_bin short =
      ap
        (λ o. or_panic o >>= λ b.
          pread_header pread b 0 >>= λ header. parse_version pread quote_bin header)
        (slice-over quote_bin 0 48 short)

  step :
      {B : Type 0} (bytes : Bytes) (i width : ℕ) (e : QuoteError) (f : Bytes → Result QuoteError B)
      → ((b : Bytes) → f b ≢ panic)
      → (ok_or (pread bytes i width) e >>= f) ≢ panic
  step bytes i width e f next =
      >>=-ne-panic (ok_or (pread bytes i width) e) f (ok_or-ne-panic (pread bytes i width) e)
        (λ b h. next b)

  pread_header-ne-panic : (bytes : Bytes) (i : ℕ) → pread_header pread bytes i ≢ panic
  unfolding pread_header
  pread_header-ne-panic bytes i = step bytes i 2 header_failed _ λ a.
      step bytes (i + 2) 2 header_failed _ λ b. step bytes (i + 4) 4 header_failed _ λ c.
        step bytes (i + 8) 4 header_failed _ λ d.
          step bytes (i + 12) 16 header_failed _
            λ e. step bytes (i + 28) 20 header_failed _ λ f h. cc

  pread_body-ne-panic : (bytes : Bytes) (i : ℕ) → pread_body pread bytes i ≢ panic
  unfolding pread_body
  pread_body-ne-panic bytes i = step bytes i 16 body_failed _ λ f0.
      step bytes (i + 16) 48 body_failed _ λ f16. step bytes (i + 64) 48 body_failed _ λ f64.
        step bytes (i + 112) 8 body_failed _ λ f112. step bytes (i + 120) 8 body_failed _ λ f120.
          step bytes (i + 128) 8 body_failed _ λ f128. step bytes (i + 136) 48 body_failed _ λ f136.
            step bytes (i + 184) 48 body_failed _ λ f184.
              step bytes (i + 232) 48 body_failed _ λ f232.
                step bytes (i + 280) 48 body_failed _ λ f280.
                  step bytes (i + 328) 48 body_failed _ λ f328.
                    step bytes (i + 376) 48 body_failed _ λ f376.
                      step bytes (i + 424) 48 body_failed _ λ f424.
                        step bytes (i + 472) 48 body_failed _
                          λ f472. step bytes (i + 520) 64 body_failed _ λ f520 h. cc

  pread_body_v15-ne-panic : (bytes : Bytes) (i : ℕ) → pread_body_v15 pread bytes i ≢ panic
  unfolding pread_body_v15
  pread_body_v15-ne-panic bytes i =
      >>=-ne-panic (pread_body pread bytes i) _ (pread_body-ne-panic bytes i) λ base h.
        step bytes (i + 584) 16 body_failed _
          λ svn. step bytes (i + 600) 48 body_failed _ λ hash g. cc

  pread_v5_body-ne-panic :
      (bytes : Bytes) (type : QuoteV5Type) → pread_v5_body pread bytes type ≢ panic
  unfolding pread_v5_body
  pread_v5_body-ne-panic bytes tdx10 =
      >>=-ne-panic (pread_body pread bytes 54) _ (pread_body-ne-panic bytes 54) λ body h g. cc
  pread_v5_body-ne-panic bytes tdx15 =
      >>=-ne-panic (pread_body_v15 pread bytes 54) _ (pread_body_v15-ne-panic bytes 54)
        λ body h g. cc

  type_of_code-ne-panic : (code : ℕ) → type_of_code code ≢ panic
  type_of_code-ne-panic code h = ground arith

  -- `from_bytes` tests the length before it slices
  from_bytes-ne-panic : (bytes : Bytes) → from_bytes bytes ≢ panic
  unfolding from_bytes
  from_bytes-ne-panic bytes h = elim (Bool-cases (ltb (length bytes) 2)) [
    | inl short ↦ cc
    | inr enough ↦
        >>=-ne-panic (or_panic (slice bytes 0 2)) _
          (or_panic-ne-panic _ (slice-ne-none bytes 0 2 (omega arith) (ground (arith, enough))))
          (λ type e. type_of_code-ne-panic (from_le_bytes type)) cc
  ]

  parse_v5-ne-panic :
      (quote_bin : Bytes) (header : QuoteHeader)
      → 54 ≤ length quote_bin
      → parse_v5 pread quote_bin header ≢ panic
  unfolding parse_v5
  parse_v5-ne-panic quote_bin header enough =
      >>=-ne-panic (or_panic (slice quote_bin 48 50)) _
        (or_panic-ne-panic _ (slice-ne-none quote_bin 48 50 (omega arith) (omega (arith, enough))))
        λ type_bytes h1.
          >>=-ne-panic (from_bytes type_bytes) _ (from_bytes-ne-panic type_bytes) λ type h2.
            >>=-ne-panic (or_panic (slice quote_bin 50 54)) _
              (or_panic-ne-panic _ (slice-ne-none quote_bin 50 54 (omega arith) enough))
              λ size h3.
                >>=-ne-panic (pread_v5_body pread quote_bin type) _
                  (pread_v5_body-ne-panic quote_bin type) λ body h4 g. cc

  parse_version-ne-panic :
      (quote_bin : Bytes) (header : QuoteHeader)
      → 54 ≤ length quote_bin
      → parse_version pread quote_bin header ≢ panic
  unfolding parse_version
  parse_version-ne-panic quote_bin header enough h =
      elim (Bool-cases (same_bytes header.version (4 ∷ 0 ∷ []))) [
        | inl four ↦
            >>=-ne-panic (pread_body pread quote_bin 48) (λ body. ok (v4 header body))
              (pread_body-ne-panic quote_bin 48) (λ body e g. cc) cc
        | inr other ↦ elim (Bool-cases (same_bytes header.version (5 ∷ 0 ∷ []))) [
          | inl five ↦ parse_v5-ne-panic quote_bin header enough cc
          | inr none_of_both ↦ cc
        ]
      ]

  -- From 54 bytes on, which hold the header, the type and the size, no quote makes the parser panic.
  pub parse_tdx_quote-ne-panic :
      (quote_bin : Bytes) → 54 ≤ length quote_bin → parse_tdx_quote pread quote_bin ≢ panic
  unfolding parse_tdx_quote
  parse_tdx_quote-ne-panic quote_bin enough =
      >>=-ne-panic (or_panic (slice quote_bin 0 48)) _
        (or_panic-ne-panic _ (slice-ne-none quote_bin 0 48 (omega arith) (omega (arith, enough))))
        λ head h1.
          >>=-ne-panic (pread_header pread head 0) _ (pread_header-ne-panic head 0)
            λ header h2. parse_version-ne-panic quote_bin header enough
