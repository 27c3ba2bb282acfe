-- ===== src/Verifier/Regularize.antt =====
-- What `regularize_data` returns.
use trustmee_artifact.Prelude.{
  Bytes, ℕ, zero, suc, ◌+◌, ◌-◌, ◌≤◌, ◌≡◌, refl, ap, ◌∙◌, inl, inr, false, [], ◌∷◌, ◌++◌, arith,
  ltb, ltb→lt, Bool-cases, length, take, take-inside, replicate, length-take, length-append,
}
use trustmee_artifact.Verifier.{regularize_data}

take-zeros : (n m : ℕ) → n ≤ m → take {A = ℕ} n (replicate m 0) ≡ replicate n 0
take-zeros zero m h = refl
take-zeros (suc n) zero h = absurd (omega (arith, h))
take-zeros (suc n) (suc m) h = ap (λ t. 0 ∷ t) (take-zeros n m (omega (arith, h)))

minus_zero : (n : ℕ) → n ≡ n - 0
minus_zero n = omega arith

minus_suc : (n m : ℕ) → n - m ≡ suc n - suc m
minus_suc n m = omega arith

-- the first `len` of the data and enough zeros
take-padded :
    (bytes : Bytes) (len m : ℕ)
    → length bytes ≤ len
    → len ≤ length bytes + m
    → take len (bytes ++ replicate m 0) ≡ bytes ++ replicate (len - length bytes) 0
take-padded [] len m h g =
    take-zeros len m (omega (arith, g)) ∙ ap (λ n. replicate {A = ℕ} n 0) (minus_zero len)
take-padded (b ∷ bytes) zero m h g = absurd (omega (arith, h))
take-padded (b ∷ bytes) (suc len) m h g =
    ap (λ t. b ∷ t) (take-padded bytes len m (omega (arith, h)) (omega (arith, g)))
    ∙ ap (λ n. b ∷ (bytes ++ replicate {A = ℕ} n 0)) (minus_suc len (length bytes))

take-all : (bytes : Bytes) → take (length bytes) bytes ≡ bytes
take-all [] = refl
take-all (b ∷ bytes) = ap (λ t. b ∷ t) (take-all bytes)

equal : (a b : ℕ) → ltb a b ≡ false → ltb b a ≡ false → b ≡ a
equal a b h g = ground (arith, h, g)

-- Whatever the length of the data, `regularize_data` gives the first `len` bytes of the data followed
-- by zeros.
pub regularize_data-take :
    (bytes : Bytes) (len : ℕ) → regularize_data bytes len ≡ take len (bytes ++ replicate len 0)
unfolding regularize_data
regularize_data-take bytes len = elim (Bool-cases (ltb (length bytes) len)) [
  | inl shorter ↦
      let order = ltb→lt (length bytes) len shorter in
      cc (shorter, take-padded bytes len len (omega (arith, order)) (omega arith))
  | inr other ↦ elim (Bool-cases (ltb len (length bytes))) [
    | inl longer ↦
        let order = ltb→lt len (length bytes) longer in
        cc (other, longer, take-inside len bytes (replicate len 0) (omega (arith, order)))
    | inr neither ↦
        let same = equal (length bytes) len other neither in
        cc (
          other,
          neither,
          same,
          take-inside len bytes (replicate len 0) (omega (arith, same)),
          take-all bytes,
        )
  ]
]

-- so the result has `len` bytes
pub length-regularize_data : (bytes : Bytes) (len : ℕ) → length (regularize_data bytes len) ≡ len
length-regularize_data bytes len =
    ap length (regularize_data-take bytes len)
    ∙ omega (
      arith,
      length-take len (bytes ++ replicate len 0),
      length-append bytes (replicate {A = ℕ} len 0),
      length-replicate len,
    )
  where
    length-replicate : (n : ℕ) → length (replicate {A = ℕ} n 0) ≡ n
    length-replicate zero = refl
    length-replicate (suc n) = ap suc (length-replicate n)
