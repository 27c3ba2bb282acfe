-- ===== src/Kbs/Token/Jwk/Sources.antt =====
-- Where the keys and certificates that the verifier trusts come from.
use trustmee_artifact.Prelude.{
  Bytes, String, ◌≡◌, refl, List, [], ◌∷◌, ◌++◌, some, All, ok, ok_or, ok_or-ok, ok_inj, >>=-eq-ok,
}
use mathlib.Core.Path.{subst}
use mathlib.Core.List.{Memᴰ}
use trustmee_artifact.Kbs.Token.Jwk.{
  AttestationTokenVerifierConfig, Jwk, Tools, JwkAttestationTokenVerifier, openssl, access_failed,
  get_jwks_from_file_or_url, get_trusted_jwk_sets, get_trusted_certs, new,
}

All-append : {A : Type 0} (P : A → Type 0) (xs ys : List A) → All P xs → All P ys → All P (xs ++ ys)
All-append P [] ys h hs = hs
All-append P (x ∷ xs) ys (h, rest) hs = (h, All-append P xs ys rest hs)

All-weaken :
    {A : Type 0} {P Q : A → Type 0} (xs : List A) → ((a : A) → P a → Q a) → All P xs → All Q xs
All-weaken [] f h = tt
All-weaken (x ∷ xs) f (h, hs) = (f x h, All-weaken xs f hs)

All-members : {A : Type 0} {P : A → Type 0} (xs : List A) → ((a : A) → Memᴰ a xs → P a) → All P xs
All-members [] f = tt
All-members (x ∷ xs) f = (f x (Memᴰ.head refl), All-members xs (λ a m. f a (Memᴰ.tail m)))

module _ (tools : Tools) where
  open tools use {X509, KeyAlgorithm}

  -- the key is in the set that one of the sources holds
  abbrev pub IsFrom : List String → Jwk KeyAlgorithm → Type 0
  IsFrom sources key =
      (source : String) × Memᴰ source sources
      × (keys : List (Jwk KeyAlgorithm)) × (get_jwks_from_file_or_url tools source ≡ ok keys)
      × Memᴰ key keys

  -- the certificate is that of one of the files
  abbrev pub IsFromFile : List String → X509 → Type 0
  IsFromFile paths cert =
      (path : String) × Memᴰ path paths
      × (content : Bytes) × (tools.read_file path ≡ some content)
      × (tools.from_pem content ≡ some cert)

  pub record IsConfigured (config : AttestationTokenVerifierConfig)
      (v : JwkAttestationTokenVerifier tools) : Type 0 where
    pub keys : All (IsFrom config.trusted_jwk_sets) v.trusted_jwk_sets
    pub certs : All (IsFromFile config.trusted_certs_paths) v.trusted_certs
    pub insecure : v.insecure_key ≡ config.insecure_key

  keys-IsFrom :
      (sources : List String) (keys : List (Jwk KeyAlgorithm))
      → get_trusted_jwk_sets tools sources ≡ ok keys
      → All (IsFrom sources) keys
  unfolding get_trusted_jwk_sets
  keys-IsFrom [] keys h = subst (All (IsFrom [])) (ok_inj h) tt
  keys-IsFrom (source ∷ sources) keys h =
      let read = >>=-eq-ok (get_jwks_from_file_or_url tools source) _ h in
      let rest = >>=-eq-ok (get_trusted_jwk_sets tools sources) _ read.2 in
      subst (All (IsFrom (source ∷ sources))) (ok_inj rest.2) (
        All-append (IsFrom (source ∷ sources)) read.0 rest.0
          (All-members read.0 (λ key m. (source, Memᴰ.head refl, read.0, read.1, m)))
          (All-weaken {P = IsFrom sources} rest.0
            (λ key from. (from.0, Memᴰ.tail from.1, from.2, from.3, from.4))
            (keys-IsFrom sources rest.0 rest.1)))

  certs-IsFromFile :
      (paths : List String) (certs : List X509)
      → get_trusted_certs tools paths ≡ ok certs
      → All (IsFromFile paths) certs
  unfolding get_trusted_certs
  certs-IsFromFile [] certs h = subst (All (IsFromFile [])) (ok_inj h) tt
  certs-IsFromFile (path ∷ paths) certs h =
      let read = >>=-eq-ok (ok_or (tools.read_file path) access_failed) _ h in
      let cert = >>=-eq-ok (ok_or (tools.from_pem read.0) openssl) _ read.2 in
      let rest = >>=-eq-ok (get_trusted_certs tools paths) _ cert.2 in
      subst (All (IsFromFile (path ∷ paths))) (ok_inj rest.2) (
        (path, Memᴰ.head refl, read.0, ok_or-ok _ _ read.1, ok_or-ok _ _ cert.1),
        All-weaken {P = IsFromFile paths} rest.0
            (λ cert from. (from.0, Memᴰ.tail from.1, from.2, from.3, from.4))
            (certs-IsFromFile paths rest.0 rest.1),
      )

  -- A verifier that starts trusts only what the configuration names: each of its keys is in the set
  -- of a configured source, each of its certificates is that of a configured file, and it skips the
  -- check of the key only if configured to.
  pub new-IsConfigured :
      (config : AttestationTokenVerifierConfig) (v : JwkAttestationTokenVerifier tools)
      → new tools config ≡ ok v
      → IsConfigured config v
  unfolding new
  new-IsConfigured config v h =
      let keys = >>=-eq-ok (get_trusted_jwk_sets tools config.trusted_jwk_sets) _ h in
      let certs = >>=-eq-ok (get_trusted_certs tools config.trusted_certs_paths) _ keys.2 in
      subst (IsConfigured config) (ok_inj certs.2) (record {
        keys = keys-IsFrom config.trusted_jwk_sets keys.0 keys.1;
        certs = certs-IsFromFile config.trusted_certs_paths certs.0 certs.1;
        insecure = refl;
      })
