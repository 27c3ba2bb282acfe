-- ===== src/Verifier/Tdx/TdQuote/Reading.antt =====
-- Reading the structs of a quote: whether it succeeds, and the bytes it gives.
use trustmee_artifact.Prelude.{
  slice-part, Bytes, ℕ, zero, suc, ◌+◌, ◌≤◌, ◌<◌, ◌≡◌, refl, sym, ap, ◌∙◌, inl, inr, false, Option,
  none, some, [], ◌∷◌, arith, leb, leb→le, Bool-cases, length, take, drop, Result, ok, err, ◌>>=◌,
  ok_or, slice, ok_inj,
}
use trustmee_artifact.Verifier.Tdx.TdQuote.{
  QuoteError, body_failed, QuoteHeader, ReportBody2, pread_header, pread_body,
}

-- the bytes of a field
abbrev pub part : Bytes → ℕ → ℕ → Bytes
part bytes i width = take width (drop i bytes)

-- what `scroll` documents of reading an array: the bytes there, and an error outside of the data
abbrev pub ReadsArrays : (Bytes → ℕ → ℕ → Option Bytes) → Type 0
ReadsArrays pread =
    (bytes : Bytes) (i width : ℕ) → 1 ≤ width → pread bytes i width ≡ slice bytes i (i + width)

-- a step that succeeds, and one that is followed by an error if it succeeds
module _ {A B : Type 0} where
  step-ok :
      {o : Option A} {a : A} (e : QuoteError) (f : A → Result QuoteError B)
      {r : Result QuoteError B}
      → o ≡ some a
      → f a ≡ r
      → (ok_or o e >>= f) ≡ r
  step-ok e f h g = ap (λ t. ok_or t e >>= f) h ∙ g

  step-err :
      (o : Option A) (e : QuoteError) (f : A → Result QuoteError B)
      → ((a : A) → f a ≡ err e)
      → (ok_or o e >>= f) ≡ err e
  step-err none e f h = refl
  step-err (some a) e f h = h a

pub slice-over : (bytes : Bytes) (i j : ℕ) → length bytes < j → slice bytes i j ≡ none
unfolding slice
slice-over bytes i j over = ground (arith, over)

pub take-take : (n m : ℕ) (xs : Bytes) → n ≤ m → take n (take m xs) ≡ take n xs
take-take zero m xs h = refl
take-take (suc n) zero xs h = absurd (omega (arith, h))
take-take (suc n) (suc m) [] h = refl
take-take (suc n) (suc m) (x ∷ xs) h = ap (λ t. x ∷ t) (take-take n m xs (omega (arith, h)))

-- the header whose fields are the bytes from `i` on
abbrev pub header_at : Bytes → ℕ → QuoteHeader
header_at bytes i = record {
  version = part bytes i 2;
  att_key_type = part bytes (i + 2) 2;
  tee_type = part bytes (i + 4) 4;
  reserved = part bytes (i + 8) 4;
  vendor_id = part bytes (i + 12) 16;
  user_data = part bytes (i + 28) 20;
}

-- the body whose fields are the bytes from `i` on
abbrev pub body_at : Bytes → ℕ → ReportBody2
body_at bytes i = record {
  tcb_svn = part bytes i 16;
  mr_seam = part bytes (i + 16) 48;
  mrsigner_seam = part bytes (i + 64) 48;
  seam_attributes = part bytes (i + 112) 8;
  td_attributes = part bytes (i + 120) 8;
  xfam = part bytes (i + 128) 8;
  mr_td = part bytes (i + 136) 48;
  mr_config_id = part bytes (i + 184) 48;
  mr_owner = part bytes (i + 232) 48;
  mr_owner_config = part bytes (i + 280) 48;
  rtmr_0 = part bytes (i + 328) 48;
  rtmr_1 = part bytes (i + 376) 48;
  rtmr_2 = part bytes (i + 424) 48;
  rtmr_3 = part bytes (i + 472) 48;
  report_data = part bytes (i + 520) 64;
}

pub leb-lt : (a b : ℕ) → leb a b ≡ false → b < a
leb-lt a b h = ground (arith, h)

module _ (pread : Bytes → ℕ → ℕ → Option Bytes) (reads : ReadsArrays pread) where
  read :
      (bytes : Bytes) (i width : ℕ)
      → 1 ≤ width
      → i + width ≤ length bytes
      → pread bytes i width ≡ some (part bytes i width)
  read bytes i width some_byte inside =
      reads bytes i width some_byte ∙ slice-part bytes i (i + width) width refl inside

  pub pread_body-ok :
      (bytes : Bytes) (i : ℕ)
      → i + 584 ≤ length bytes
      → pread_body pread bytes i ≡ ok (body_at bytes i)
  unfolding pread_body
  pread_body-ok bytes i inside =
      step-ok _ _ (read bytes i 16 (omega arith) (omega (arith, inside))) (
        step-ok _ _ (at 16 48 (omega arith) (omega arith)) (
          step-ok _ _ (at 64 48 (omega arith) (omega arith)) (
            step-ok _ _ (at 112 8 (omega arith) (omega arith)) (
              step-ok _ _ (at 120 8 (omega arith) (omega arith)) (
                step-ok _ _ (at 128 8 (omega arith) (omega arith)) (
                  step-ok _ _ (at 136 48 (omega arith) (omega arith)) (
                    step-ok _ _ (at 184 48 (omega arith) (omega arith)) (
                      step-ok _ _ (at 232 48 (omega arith) (omega arith)) (
                        step-ok _ _ (at 280 48 (omega arith) (omega arith)) (
                          step-ok _ _ (at 328 48 (omega arith) (omega arith)) (
                            step-ok _ _ (at 376 48 (omega arith) (omega arith)) (
                              step-ok _ _ (at 424 48 (omega arith) (omega arith)) (
                                step-ok _ _ (at 472 48 (omega arith) (omega arith)) (
                                  step-ok _ _ (at 520 64 (omega arith) (omega arith))
                                    refl))))))))))))))
    where
      at :
          (k width : ℕ)
          → 1 ≤ width
          → k + width ≤ 584
          → pread bytes (i + k) width ≡ some (part bytes (i + k) width)
      at k width w e = read bytes (i + k) width w (omega (arith, inside, e))

  missing :
      {B : Type 0} (bytes : Bytes) (i width : ℕ) (e : QuoteError) (f : Bytes → Result QuoteError B)
      → 1 ≤ width
      → length bytes < i + width
      → (ok_or (pread bytes i width) e >>= f) ≡ err e
  missing bytes i width e f w over =
      ap (λ o. ok_or o e >>= f) (reads bytes i width w ∙ slice-over bytes i (i + width) over)

  pub pread_body-err :
      (bytes : Bytes) (i : ℕ) → length bytes < i + 584 → pread_body pread bytes i ≡ err body_failed
  unfolding pread_body
  pread_body-err bytes i over = step-err (pread bytes i 16) _ _ λ a0.
      (step-err (pread bytes (i + 16) 48) _ _ λ a16.
        (step-err (pread bytes (i + 64) 48) _ _ λ a64.
          (step-err (pread bytes (i + 112) 8) _ _ λ a112.
            (step-err (pread bytes (i + 120) 8) _ _ λ a120.
              (step-err (pread bytes (i + 128) 8) _ _ λ a128.
                (step-err (pread bytes (i + 136) 48) _ _ λ a136.
                  (step-err (pread bytes (i + 184) 48) _ _ λ a184.
                    (step-err (pread bytes (i + 232) 48) _ _ λ a232.
                      (step-err (pread bytes (i + 280) 48) _ _ λ a280.
                        (step-err (pread bytes (i + 328) 48) _ _ λ a328.
                          (step-err (pread bytes (i + 376) 48) _ _ λ a376.
                            (step-err (pread bytes (i + 424) 48) _ _ λ a424.
                              (step-err (pread bytes (i + 472) 48) _ _ λ a472.
                                missing bytes (i + 520) 64 _ _ (omega arith)
                                  (omega (arith, over)))))))))))))))

  pub pread_header-ok :
      (bytes : Bytes) → 48 ≤ length bytes → pread_header pread bytes 0 ≡ ok (header_at bytes 0)
  unfolding pread_header
  pread_header-ok bytes inside = step-ok _ _ (at 0 2 (omega arith) (omega arith)) (
      step-ok _ _ (at 2 2 (omega arith) (omega arith)) (
        step-ok _ _ (at 4 4 (omega arith) (omega arith)) (
          step-ok _ _ (at 8 4 (omega arith) (omega arith)) (
            step-ok _ _ (at 12 16 (omega arith) (omega arith))
              (step-ok _ _ (at 28 20 (omega arith) (omega arith)) refl)))))
    where
      at :
          (k width : ℕ)
          → 1 ≤ width
          → k + width ≤ 48
          → pread bytes k width ≡ some (part bytes k width)
      at k width w e = read bytes k width w (omega (arith, inside, e))

  -- a body is read exactly when it fits, and then its fields are the bytes at their offsets
  pub pread_body-eq :
      (bytes : Bytes) (i : ℕ) {body : ReportBody2}
      → pread_body pread bytes i ≡ ok body
      → (i + 584 ≤ length bytes) × (body ≡ body_at bytes i)
  pread_body-eq bytes i h = elim (Bool-cases (leb (i + 584) (length bytes))) [
    | inl fits ↦
        let inside = leb→le (i + 584) (length bytes) fits in
        (inside, ok_inj (sym h ∙ pread_body-ok bytes i inside))
    | inr over ↦ cc (h, pread_body-err bytes i (leb-lt (i + 584) (length bytes) over))
  ]
