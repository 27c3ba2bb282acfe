-- ===== src/Kbs/Token/Jwk/Trust.antt =====
-- Which key a token that the verifier accepts is signed with.
use mathlib.Core.Path.{subst}
use mathlib.Core.List.{Memᴰ}
use trustmee_artifact.Prelude.{
  String, ◌≡◌, ◌≢◌, ◌⊎◌, inl, inr, true, false, none, some, List, [], ◌∷◌, Bool-cases, Option-cases,
  ok, ok_or, guard, guard-ok, ok_or-ok, ok_inj, >>=-eq-ok,
}
use trustmee_artifact.Kbs.Token.Jwk.{
  Jwk, Header, Tools, JwkAttestationTokenVerifier, is_empty, public_key_of, x5c_cert, x5c_chain,
  add_certs, verify_chain, verify_jwk_endorsement, header_key, key_of_kid, get_verification_jwk,
  verify, openssl, not_leaf_key, not_validated, no_kid, bad_header, no_key_algorithm, bad_algorithm,
  bad_key,
}

is_empty-false : {A : Type 0} (xs : List A) → is_empty xs ≡ false → xs ≢ []
unfolding is_empty
is_empty-false [] h = cc
is_empty-false (x ∷ xs) h = cc

module _ (tools : Tools) where
  open tools use {PKey, X509, Store, KeyAlgorithm, Algorithm, DecodingKey, Value}

  -- `find` gives a key of the set that has the id
  abbrev pub FindsById : Type 0
  FindsById =
      (keys : List (Jwk KeyAlgorithm)) (kid : String) (key : Jwk KeyAlgorithm)
      → tools.find keys kid ≡ some key
      → Memᴰ key keys × (key.key_id ≡ some kid)

  -- the key is that of the first certificate of its x5c extension, which openssl verifies with the
  -- trusted certificates as anchors and the rest of the extension as chain
  pub record IsEndorsed (trusted_certs : List X509) (key : Jwk KeyAlgorithm) : Type 0 where
    pub public : PKey
    pub leaf : String
    pub certs : List String
    pub leaf_cert : X509
    pub leaf_key : PKey
    pub chain : List X509
    pub builder : Store
    pub store : Store
    pub of_key : public_key_of tools key.algorithm ≡ ok public
    pub has_x5c : key.x509_chain ≡ some (leaf ∷ certs)
    pub is_leaf : x5c_cert tools leaf ≡ ok leaf_cert
    pub key_of_leaf : tools.public_key leaf_cert ≡ some leaf_key
    pub same_key : tools.public_eq public leaf_key ≡ true
    pub is_chain : x5c_chain tools certs ≡ ok chain
    pub starts : tools.store_builder ≡ some builder
    pub anchors : add_certs tools trusted_certs builder ≡ ok store
    pub verifies : tools.verify_cert store leaf_cert chain ≡ some true

  -- the key in the header, unverified only if the configuration says so, or else the trusted one of
  -- the header's id
  abbrev pub IsTrusted :
      JwkAttestationTokenVerifier tools → Header KeyAlgorithm → Jwk KeyAlgorithm → Type 0
  IsTrusted v header key =
      ((header.jwk ≡ some key)
        × ((v.insecure_key ≡ true) ⊎ ((v.trusted_certs ≢ []) × IsEndorsed v.trusted_certs key)))
      ⊎ ((header.jwk ≡ none) × Memᴰ key v.trusted_jwk_sets × (header.kid ≡ key.key_id))

  verify_chain-IsEndorsed :
      (trusted_certs : List X509) (key : Jwk KeyAlgorithm) (public : PKey) (leaf : String)
      (certs : List String) {u : Unit {0}}
      → public_key_of tools key.algorithm ≡ ok public
      → key.x509_chain ≡ some (leaf ∷ certs)
      → verify_chain tools trusted_certs public leaf certs ≡ ok u
      → IsEndorsed trusted_certs key
  unfolding verify_chain
  verify_chain-IsEndorsed trusted_certs key public leaf certs of_key has_x5c h =
      let leafed = >>=-eq-ok (x5c_cert tools leaf) _ h in
      let keyed = >>=-eq-ok (ok_or (tools.public_key leafed.0) openssl) _ leafed.2 in
      let same = >>=-eq-ok (guard (tools.public_eq public keyed.0) not_leaf_key) _ keyed.2 in
      let chained = >>=-eq-ok (x5c_chain tools certs) _ same.2 in
      let built = >>=-eq-ok (ok_or tools.store_builder openssl) _ chained.2 in
      let anchored = >>=-eq-ok (add_certs tools trusted_certs built.0) _ built.2 in
      let checked =
        >>=-eq-ok (ok_or (tools.verify_cert anchored.0 leafed.0 chained.0) openssl) _ anchored.2 in
      record {
        public = public;
        leaf = leaf;
        certs = certs;
        leaf_cert = leafed.0;
        leaf_key = keyed.0;
        chain = chained.0;
        builder = built.0;
        store = anchored.0;
        of_key = of_key;
        has_x5c = has_x5c;
        is_leaf = leafed.1;
        key_of_leaf = ok_or-ok _ _ keyed.1;
        same_key = guard-ok _ _ same.1;
        is_chain = chained.1;
        starts = ok_or-ok _ _ built.1;
        anchors = anchored.1;
        verifies = rw (ok_or-ok _ _ checked.1, guard-ok checked.0 not_validated checked.2);
      }

  verify_jwk_endorsement-IsEndorsed :
      (trusted_certs : List X509) (key : Jwk KeyAlgorithm) {u : Unit {0}}
      → verify_jwk_endorsement tools trusted_certs key ≡ ok u
      → IsEndorsed trusted_certs key
  unfolding verify_jwk_endorsement
  verify_jwk_endorsement-IsEndorsed trusted_certs key {u} h =
      let keyed = >>=-eq-ok (public_key_of tools key.algorithm) _ h in
      elim (Option-cases key.x509_chain) [
        | inl missing ↦ let bad = rw missing at keyed.2 in absurd cc
        | inr ([], empty) ↦ let bad = rw empty at keyed.2 in absurd cc
        | inr (leaf ∷ certs, has_x5c) ↦
            verify_chain-IsEndorsed trusted_certs key keyed.0 leaf certs {u = u} keyed.1 has_x5c
              (rw has_x5c at keyed.2)
      ]

  header_key-IsTrusted :
      (v : JwkAttestationTokenVerifier tools) (header : Header KeyAlgorithm)
      (given key : Jwk KeyAlgorithm)
      → header.jwk ≡ some given
      → header_key tools v given ≡ ok key
      → IsTrusted v header key
  unfolding header_key
  header_key-IsTrusted v header given key has_key h = elim (Bool-cases v.insecure_key) [
    | inl insecure ↦ inl (cc, inl insecure)
    | inr secure ↦ elim (Bool-cases (is_empty v.trusted_certs)) [
      | inl empty ↦ let bad = rw (secure, empty) at h in absurd cc
      | inr filled ↦
          let checked =
            >>=-eq-ok (verify_jwk_endorsement tools v.trusted_certs given) _
              (rw (secure, filled) at h) in
          let same = ok_inj checked.2 in
          inl (
            cc,
            inr (
              is_empty-false v.trusted_certs filled,
              subst (IsEndorsed v.trusted_certs) same (
                  verify_jwk_endorsement-IsEndorsed v.trusted_certs given {u = checked.0}
                    checked.1),
            ),
          )
    ]
  ]

  key_of_kid-IsTrusted :
      (v : JwkAttestationTokenVerifier tools) (header : Header KeyAlgorithm)
      (key : Jwk KeyAlgorithm)
      → FindsById
      → header.jwk ≡ none
      → key_of_kid tools v header.kid ≡ ok key
      → IsTrusted v header key
  unfolding key_of_kid
  key_of_kid-IsTrusted v header key finds no_key h =
      elim (Bool-cases (is_empty v.trusted_jwk_sets)) [
        | inl empty ↦ let bad = rw empty at h in absurd cc
        | inr filled ↦
            let named = >>=-eq-ok (ok_or header.kid no_kid) _ (rw filled at h) in
            let (member, has_id) = finds v.trusted_jwk_sets named.0 key (ok_or-ok _ _ named.2) in
            let has_kid = ok_or-ok _ _ named.1 in inr (no_key, member, cc)
      ]

  get_verification_jwk-IsTrusted :
      (v : JwkAttestationTokenVerifier tools) (header : Header KeyAlgorithm)
      (key : Jwk KeyAlgorithm)
      → FindsById
      → get_verification_jwk tools v header ≡ ok key
      → IsTrusted v header key
  unfolding get_verification_jwk
  get_verification_jwk-IsTrusted v header key finds h = elim (Option-cases header.jwk) [
    | inl missing ↦ key_of_kid-IsTrusted v header key finds missing (rw missing at h)
    | inr (given, has_key) ↦ header_key-IsTrusted v header given key has_key (rw has_key at h)
  ]

  -- what an accepted token stands on
  pub record IsAccepted (v : JwkAttestationTokenVerifier tools) (token : String) (claims : Value)
      : Type 0 where
    pub header : Header KeyAlgorithm
    pub key : Jwk KeyAlgorithm
    pub key_alg : KeyAlgorithm
    pub alg : Algorithm
    pub dkey : DecodingKey
    pub headed : tools.decode_header token ≡ some header
    pub trusted : IsTrusted v header key
    pub has_alg : key.key_algorithm ≡ some key_alg
    pub known : tools.algorithm_from_str key_alg ≡ some alg
    pub of_key : tools.decoding_key key ≡ some dkey
    pub decoded : tools.decode token dkey alg ≡ some claims

  -- A token is accepted only as what decodes under a trusted key with the algorithm that the key
  -- names. The key is that of the header, either by the insecure setting or because its first
  -- certificate carries it and the trusted certificates endorse that certificate; or, when the header
  -- has none, a key of the trusted sets with the header's id, if `find` gives keys by their id.
  pub verify-IsAccepted :
      (v : JwkAttestationTokenVerifier tools) (token : String) (claims : Value)
      → FindsById
      → verify tools v token ≡ ok claims
      → IsAccepted v token claims
  unfolding verify
  verify-IsAccepted v token claims finds h =
      let headed = >>=-eq-ok (ok_or (tools.decode_header token) bad_header) _ h in
      let chosen = >>=-eq-ok (get_verification_jwk tools v headed.0) _ headed.2 in
      let has_alg = >>=-eq-ok (ok_or chosen.0.key_algorithm no_key_algorithm) _ chosen.2 in
      let known =
        >>=-eq-ok (ok_or (tools.algorithm_from_str has_alg.0) bad_algorithm) _ has_alg.2 in
      let keyed = >>=-eq-ok (ok_or (tools.decoding_key chosen.0) bad_key) _ known.2 in
      record {
        header = headed.0;
        key = chosen.0;
        key_alg = has_alg.0;
        alg = known.0;
        dkey = keyed.0;
        headed = ok_or-ok _ _ headed.1;
        trusted = get_verification_jwk-IsTrusted v headed.0 chosen.0 finds chosen.1;
        has_alg = ok_or-ok _ _ has_alg.1;
        known = ok_or-ok _ _ known.1;
        of_key = ok_or-ok _ _ keyed.1;
        decoded = ok_or-ok _ _ keyed.2;
      }
