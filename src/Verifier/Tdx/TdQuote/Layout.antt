-- ===== src/Verifier/Tdx/TdQuote/Layout.antt =====
-- Where the fields of a parsed quote stand in its bytes.
use mathlib.Core.Path.{subst}
use trustmee_artifact.Prelude.{
  Bytes, ℕ, same_bytes_iff, ◌+◌, ◌≤◌, ◌≡◌, refl, sym, ap, ◌∙◌, inl, inr, Option, [], ◌∷◌, arith,
  leb, leb→le, Bool-cases, if◌then◌else◌, length, length-take, ok, err, ◌>>=◌, ok_or, >>=-eq-ok,
  slice, or_panic, same_bytes, ok_inj, slice-part, slice-eq, slice-end, or_panic-ok, ok_or-ok,
  from_le_bytes, ltb, take, drop, ◌==◌, ==_iff,
}
use trustmee_artifact.Verifier.Tdx.TdQuote.{
  QuoteError, type_of_code, body_failed, version_undefined, QuoteV5Body, QuoteHeader, QuoteV5Type,
  tdx10, tdx15, tdx10_body, tdx15_body, Quote, v4, v5, from_bytes, pread_header, pread_body,
  pread_body_v15, pread_v5_body, parse_v5, parse_version, parse_tdx_quote,
}
use trustmee_artifact.Verifier.Tdx.TdQuote.Reading.{
  part, ReadsArrays, take-take, leb-lt, header_at, body_at, pread_body-ok, pread_body-err,
  pread_body-eq, pread_header-ok,
}

abbrev code_of : QuoteV5Type → ℕ
code_of tdx10 = 2
code_of tdx15 = 3

type_of_code-eq :
    (code : ℕ) (type : QuoteV5Type) → type_of_code code ≡ ok type → code ≡ code_of type
type_of_code-eq code type h = elim (Bool-cases (code == 2)) [
  | inl two ↦ let found = rw two at h in (==_iff code 2).0 two ∙ ap code_of (ok_inj found)
  | inr other ↦ elim (Bool-cases (code == 3)) [
    | inl three ↦
        let found = rw (other, three) at h in (==_iff code 3).0 three ∙ ap code_of (ok_inj found)
    | inr neither ↦ let found = rw (other, neither) at h in absurd cc
  ]
]

-- the code of the type that two bytes stand for
from_bytes-eq :
    (bytes : Bytes) (type : QuoteV5Type)
    → from_bytes bytes ≡ ok type
    → from_le_bytes (take 2 bytes) ≡ code_of type
unfolding from_bytes
from_bytes-eq bytes type h = elim (Bool-cases (ltb (length bytes) 2)) [
  | inl short ↦ let bad = rw short at h in absurd cc
  | inr enough ↦
      let two = >>=-eq-ok (or_panic (slice bytes 0 2)) _ (rw enough at h) in
      ap from_le_bytes (sym (slice-eq bytes 0 2 2 refl (or_panic-ok _ two.1)))
      ∙ type_of_code-eq (from_le_bytes two.0) type two.2
]

module _ (pread : Bytes → ℕ → ℕ → Option Bytes) (reads : ReadsArrays pread) where
  abbrev pub header_of : (quote_bin : Bytes) → QuoteHeader
  header_of quote_bin = header_at (part quote_bin 0 48) 0

  parse_header :
      (quote_bin : Bytes)
      → 48 ≤ length quote_bin
      → parse_tdx_quote pread quote_bin ≡ parse_version pread quote_bin (header_of quote_bin)
  unfolding parse_tdx_quote parse_version
  parse_header quote_bin enough =
      ap (λ o. or_panic o >>= λ b. pread_header pread b 0 >>= parse_version pread quote_bin)
        (slice-part quote_bin 0 48 48 refl enough)
      ∙ ap (λ r. r >>= parse_version pread quote_bin)
          (pread_header-ok pread reads (part quote_bin 0 48)
            (omega (arith, length-take 48 quote_bin, enough)))

  -- A quote of version 4 is parsed exactly when it has the 632 bytes of header and body; the fields
  -- are then the bytes at the offsets that the structs document.
  pub parse_v4 :
      (quote_bin : Bytes)
      → 48 ≤ length quote_bin
      → part quote_bin 0 2 ≡ 4 ∷ 0 ∷ []
      → parse_tdx_quote pread quote_bin ≡ (
          if leb 632 (length quote_bin)
          then ok (v4 (header_of quote_bin) (body_at quote_bin 48))
          else err body_failed)
  unfolding parse_version
  parse_v4 quote_bin enough version =
      parse_header quote_bin enough
      ∙ ap
          (λ t.
            if t
            then (pread_body pread quote_bin 48 >>= λ body. ok (v4 (header_of quote_bin) body))
            else (if same_bytes (header_of quote_bin).version (5 ∷ 0 ∷ [])
                then parse_v5 pread quote_bin (header_of quote_bin)
                else err version_undefined))
          ((same_bytes_iff (header_of quote_bin).version (4 ∷ 0 ∷ [])).1
            (take-take 2 48 quote_bin (omega arith) ∙ version))
      ∙ elim (Bool-cases (leb 632 (length quote_bin))) [
        | inl fits ↦
            ap (λ r. r >>= λ body. ok (v4 (header_of quote_bin) body))
              (pread_body-ok pread reads quote_bin 48 (leb→le 632 (length quote_bin) fits))
            ∙ sym (
                ap
                  (λ t.
                    if t
                    then ok (v4 (header_of quote_bin) (body_at quote_bin 48))
                    else err body_failed)
                  fits)
        | inr over ↦
            ap (λ r. r >>= λ body. ok (v4 (header_of quote_bin) body))
              (pread_body-err pread reads quote_bin 48 (leb-lt 632 (length quote_bin) over))
            ∙ sym (
                ap
                  (λ t.
                    if t
                    then ok (v4 (header_of quote_bin) (body_at quote_bin 48))
                    else err body_failed)
                  over)
      ]

  -- the body of a quote of version 5 is whole from byte 54 on, and its fields are the bytes at their
  -- offsets; that of TDX 1.5 has 648 bytes and that of TDX 1.0 has 584
  abbrev pub HasV5Body : Bytes → QuoteV5Type → QuoteV5Body → Type 0
  HasV5Body quote_bin type (tdx10_body body) =
      (type ≡ tdx10)
      × (from_le_bytes (part quote_bin 48 2) ≡ 2)
      × (54 + 584 ≤ length quote_bin)
      × (body ≡ body_at quote_bin 54)
  HasV5Body quote_bin type (tdx15_body body) =
      (type ≡ tdx15)
      × (from_le_bytes (part quote_bin 48 2) ≡ 3)
      × (54 + 648 ≤ length quote_bin)
      × (body.base ≡ body_at quote_bin 54)
      × (body.tee_tcb_svn2 ≡ part quote_bin (54 + 584) 16)
      × (body.mr_servicetd ≡ part quote_bin (54 + 600) 48)

  -- the version is that of the first two bytes, and the header and the body are those of its layout
  abbrev pub IsLaidOut : Bytes → Quote → Type 0
  IsLaidOut quote_bin (v4 header body) =
      (header ≡ header_of quote_bin)
      × (part quote_bin 0 2 ≡ 4 ∷ 0 ∷ [])
      × (48 + 584 ≤ length quote_bin)
      × (body ≡ body_at quote_bin 48)
  IsLaidOut quote_bin (v5 header type size body) =
      (header ≡ header_of quote_bin)
      × (part quote_bin 0 2 ≡ 5 ∷ 0 ∷ [])
      × (size ≡ part quote_bin 50 4)
      × HasV5Body quote_bin type body

  read_array :
      (bytes : Bytes) (i width : ℕ) (e : QuoteError) {a : Bytes}
      → 1 ≤ width
      → ok_or (pread bytes i width) e ≡ ok a
      → (a ≡ part bytes i width) × (i + width ≤ length bytes)
  read_array bytes i width e some_byte h =
      let there = sym (reads bytes i width some_byte) ∙ ok_or-ok _ _ h in
      (slice-eq bytes i (i + width) width refl there, slice-end bytes i (i + width) there)

  v4-IsLaidOut :
      (quote_bin : Bytes) (quote : Quote)
      → part quote_bin 0 2 ≡ 4 ∷ 0 ∷ []
      → (pread_body pread quote_bin 48 >>= λ body. ok (v4 (header_of quote_bin) body)) ≡ ok quote
      → IsLaidOut quote_bin quote
  v4-IsLaidOut quote_bin quote version h =
      let step =
        >>=-eq-ok (pread_body pread quote_bin 48) (λ body. ok (v4 (header_of quote_bin) body)) h in
      let (whole, fields) = pread_body-eq pread reads quote_bin 48 step.1 in
      subst (IsLaidOut quote_bin) (ok_inj step.2) (refl, version, whole, fields)

  v5_body-HasV5Body :
      (quote_bin : Bytes) (type : QuoteV5Type) {body : QuoteV5Body}
      → from_le_bytes (part quote_bin 48 2) ≡ code_of type
      → pread_v5_body pread quote_bin type ≡ ok body
      → HasV5Body quote_bin type body
  unfolding pread_v5_body pread_body_v15
  v5_body-HasV5Body quote_bin tdx10 code h =
      let step = >>=-eq-ok (pread_body pread quote_bin 54) (λ body. ok (tdx10_body body)) h in
      let (whole, fields) = pread_body-eq pread reads quote_bin 54 step.1 in
      subst (HasV5Body quote_bin tdx10) (ok_inj step.2) (refl, code, whole, fields)
  v5_body-HasV5Body quote_bin tdx15 code h =
      let all = >>=-eq-ok (pread_body_v15 pread quote_bin 54) (λ body. ok (tdx15_body body)) h in
      let base = >>=-eq-ok (pread_body pread quote_bin 54) _ all.1 in
      let svn = >>=-eq-ok (ok_or (pread quote_bin 638 16) body_failed) _ base.2 in
      let hash = >>=-eq-ok (ok_or (pread quote_bin 654 48) body_failed) _ svn.2 in
      let (whole, fields) = pread_body-eq pread reads quote_bin 54 base.1 in
      let (svn_bytes, svn_inside) = read_array quote_bin 638 16 body_failed (omega arith) svn.1 in
      let (hash_bytes, hash_inside) =
        read_array quote_bin 654 48 body_failed (omega arith) hash.1 in
      subst (HasV5Body quote_bin tdx15) (ap tdx15_body (ok_inj hash.2) ∙ ok_inj all.2)
        (refl, code, hash_inside, fields, svn_bytes, hash_bytes)

  parse_v5-IsLaidOut :
      (quote_bin : Bytes) (quote : Quote)
      → part quote_bin 0 2 ≡ 5 ∷ 0 ∷ []
      → parse_v5 pread quote_bin (header_of quote_bin) ≡ ok quote
      → IsLaidOut quote_bin quote
  unfolding parse_v5
  parse_v5-IsLaidOut quote_bin quote version h =
      let type_bytes = >>=-eq-ok (or_panic (slice quote_bin 48 50)) _ h in
      let type = >>=-eq-ok (from_bytes type_bytes.0) _ type_bytes.2 in
      let size = >>=-eq-ok (or_panic (slice quote_bin 50 54)) _ type.2 in
      let body = >>=-eq-ok (pread_v5_body pread quote_bin type.0) _ size.2 in
      let there = slice-eq quote_bin 48 50 2 refl (or_panic-ok _ type_bytes.1) in
      subst (IsLaidOut quote_bin) (ok_inj body.2) (
        refl,
        version,
        slice-eq quote_bin 50 54 4 refl (or_panic-ok _ size.1),
        v5_body-HasV5Body quote_bin type.0
            (coded quote_bin type.0 (ap from_bytes (sym there) ∙ type.1)) body.1,
      )
    where
      coded :
          (quote_bin : Bytes) (type : QuoteV5Type)
          → from_bytes (part quote_bin 48 2) ≡ ok type
          → from_le_bytes (part quote_bin 48 2) ≡ code_of type
      coded quote_bin type h =
          ap from_le_bytes (sym (take-take 2 2 (drop 48 quote_bin) (omega arith)))
          ∙ from_bytes-eq (part quote_bin 48 2) type h

  parse_version-IsLaidOut :
      (quote_bin : Bytes) (quote : Quote)
      → 48 ≤ length quote_bin
      → parse_version pread quote_bin (header_of quote_bin) ≡ ok quote
      → IsLaidOut quote_bin quote
  unfolding parse_version
  parse_version-IsLaidOut quote_bin quote enough h =
      let first = sym (take-take 2 48 quote_bin (omega arith)) in
      elim (Bool-cases (same_bytes (header_of quote_bin).version (4 ∷ 0 ∷ []))) [
        | inl four ↦
            v4-IsLaidOut quote_bin quote (first ∙ (same_bytes_iff _ (4 ∷ 0 ∷ [])).0 four) cc
        | inr other ↦ elim (Bool-cases (same_bytes (header_of quote_bin).version (5 ∷ 0 ∷ []))) [
          | inl five ↦
              parse_v5-IsLaidOut quote_bin quote (first ∙ (same_bytes_iff _ (5 ∷ 0 ∷ [])).0 five) cc
          | inr none_of_both ↦ cc
        ]
      ]

  -- A quote that is parsed is laid out as the structs document, if `pread` reads arrays as
  -- `scroll` documents: its version is that of its first two bytes and its header the first 48; in
  -- version 4 the body of 584 bytes follows, in version 5 the type, the size and from byte 54 on
  -- the body, which has 584 bytes for TDX 1.0 and 648 for TDX 1.5. All of it is inside of the
  -- data, and each field of the header and the body has the bytes at its offset.
  pub parse_tdx_quote-IsLaidOut :
      (quote_bin : Bytes) (quote : Quote)
      → parse_tdx_quote pread quote_bin ≡ ok quote
      → IsLaidOut quote_bin quote
  unfolding parse_tdx_quote
  parse_tdx_quote-IsLaidOut quote_bin quote h =
      let head = >>=-eq-ok (or_panic (slice quote_bin 0 48)) _ h in
      let enough = slice-end quote_bin 0 48 (or_panic-ok _ head.1) in
      parse_version-IsLaidOut quote_bin quote enough (sym (parse_header quote_bin enough) ∙ h)
