-- ===== src/Kbs/Token/Jwk.antt =====
-- kbs/src/token/jwk.rs: the verifier of attestation tokens, which chooses the key that a token must be
-- signed with. jsonwebtoken, openssl, base64, reqwest and the file system are in `Tools`; `none` is an
-- error of theirs.
pub mod Trust
pub mod Sources
use Prim.Native.Char.{Char, code}
use trustmee_artifact.Prelude.{
  Bytes, ℕ, String, Bool, true, false, Option, none, some, List, [], ◌∷◌, ◌++◌, ◌==◌, str_eq,
  if◌then◌else◌, Result, ok, err, ◌>>=◌, ◌>>◌, ok_or, guard,
}

pub record AttestationTokenVerifierConfig : Type 0 where
  pub extra_teekey_paths : List String
  pub trusted_certs_paths : List String
  pub trusted_jwk_sets : List String
  pub insecure_key : Bool

-- of jsonwebtoken's curves and key parameters, those that the source names
pub data EllipticCurve : Type 0 where
  p256 other_curve : EllipticCurve

pub data AlgorithmParameters : Type 0 where
  rsa : String → String → AlgorithmParameters
  elliptic_curve : EllipticCurve → String → String → AlgorithmParameters
  other_parameters : AlgorithmParameters

-- a key, with the fields of its `common` that are read here or by `find`
pub record Jwk (KeyAlgorithm : Type 0) : Type 0 where
  pub algorithm : AlgorithmParameters
  pub x509_chain : Option (List String)
  pub key_algorithm : Option KeyAlgorithm
  pub key_id : Option String

pub record Header (KeyAlgorithm : Type 0) : Type 0 where
  pub jwk : Option (Jwk KeyAlgorithm)
  pub kid : Option String

-- where the code stops: the errors with a text of their own, and the others by the library's name
pub data JwkError : Type 0 where
  invalid_source_path access_failed deserialize_source : JwkError
  decode_n decode_e openssl base64 unsupported_curve unsupported_key : JwkError
  no_x5c empty_x5c illegal_x5c invalid_x509 not_leaf_key not_validated : JwkError
  no_trusted_cert no_jwk_set no_kid no_such_kid : JwkError
  bad_header no_key_algorithm bad_algorithm bad_key bad_token : JwkError

-- `ec_key` is the key of a point on P256. Stacks of certificates are lists: to push on one fails only
-- without memory.
pub record Tools : Type 1 where
  pub BigNum : Type 0
  pub PKey : Type 0
  pub X509 : Type 0
  pub Store : Type 0
  pub KeyAlgorithm : Type 0
  pub Algorithm : Type 0
  pub DecodingKey : Type 0
  pub Value : Type 0
  pub Url : Type 0
  pub Reading : Type 0
  pub parse_url : String → Option Url
  pub scheme : Url → String
  pub url_path : Url → String
  pub set_path : Url → String → Url
  pub as_str : Url → String
  pub http_get : String → Option Reading
  pub json_jwks_uri : Reading → Option String
  pub json_jwks : Reading → Option (List (Jwk KeyAlgorithm))
  pub open_file : String → Option Reading
  pub read_file : String → Option Bytes
  pub from_pem : Bytes → Option X509
  pub url_safe_no_pad : String → Option Bytes
  pub big_num : Bytes → Option BigNum
  pub rsa_key : BigNum → BigNum → Option PKey
  pub ec_key : BigNum → BigNum → Option PKey
  pub from_der : Bytes → Option X509
  pub public_key : X509 → Option PKey
  pub public_eq : PKey → PKey → Bool
  pub store_builder : Option Store
  pub add_cert : Store → X509 → Option Store
  pub verify_cert : Store → X509 → List X509 → Option Bool
  pub find : List (Jwk KeyAlgorithm) → String → Option (Jwk KeyAlgorithm)
  pub decode_header : String → Option (Header KeyAlgorithm)
  pub algorithm_from_str : KeyAlgorithm → Option Algorithm
  pub decoding_key : Jwk KeyAlgorithm → Option DecodingKey
  pub decode : String → DecodingKey → Algorithm → Option Value

-- `split('\n').collect()`
unfoldable pub join_lines : String → String
join_lines String.[] = String.[]
join_lines (String.◌∷◌ c s) =
    let rest = join_lines s in if code c == b'\n' then rest else String.◌∷◌ c rest

unfoldable pub is_empty {ℓ} : {A : Type ℓ} → List A → Bool
is_empty [] = true
is_empty (x ∷ xs) = false

module _ (tools : Tools) where
  open tools use {PKey, X509, Store, KeyAlgorithm, Value, Url}

  pub record JwkAttestationTokenVerifier : Type 0 where
    pub trusted_jwk_sets : List (Jwk KeyAlgorithm)
    pub trusted_certs : List X509
    pub insecure_key : Bool

  -- the arm "https" of `get_jwks_from_file_or_url`
  unfoldable pub get_jwks_from_url : Url → Result JwkError (List (Jwk KeyAlgorithm))
  get_jwks_from_url url = do
    oidc ←
        ok_or
          (tools.http_get (tools.as_str (tools.set_path url ".well-known/openid-configuration")))
          access_failed
    jwks_uri ← ok_or (tools.json_jwks_uri oidc) deserialize_source
    answer ← ok_or (tools.http_get jwks_uri) access_failed
    ok_or (tools.json_jwks answer) deserialize_source

  -- the arm "file"
  unfoldable pub get_jwks_from_file : Url → Result JwkError (List (Jwk KeyAlgorithm))
  get_jwks_from_file url = do
    file ← ok_or (tools.open_file (tools.url_path url)) access_failed
    ok_or (tools.json_jwks file) deserialize_source

  unfoldable pub get_jwks_from_file_or_url : String → Result JwkError (List (Jwk KeyAlgorithm))
  get_jwks_from_file_or_url p = ok_or (tools.parse_url p) invalid_source_path >>= λ url.
      if str_eq (tools.scheme url) "https"
      then get_jwks_from_url url
      else (if str_eq (tools.scheme url) "file"
          then get_jwks_from_file url
          else err invalid_source_path)

  -- the two loops of `new`
  unfoldable pub get_trusted_jwk_sets : List String → Result JwkError (List (Jwk KeyAlgorithm))
  get_trusted_jwk_sets [] = ok []
  get_trusted_jwk_sets (path ∷ paths) = do
    jwkset ← get_jwks_from_file_or_url path
    keys ← get_trusted_jwk_sets paths
    ok (jwkset ++ keys)

  unfoldable pub get_trusted_certs : List String → Result JwkError (List X509)
  get_trusted_certs [] = ok []
  get_trusted_certs (path ∷ paths) = do
    cert_content ← ok_or (tools.read_file path) access_failed
    cert ← ok_or (tools.from_pem cert_content) openssl
    certs ← get_trusted_certs paths
    ok (cert ∷ certs)

  unfoldable pub new : AttestationTokenVerifierConfig → Result JwkError JwkAttestationTokenVerifier
  new config = do
    trusted_jwk_sets ← get_trusted_jwk_sets config.trusted_jwk_sets
    trusted_certs ← get_trusted_certs config.trusted_certs_paths
    ok (record {
      trusted_jwk_sets = trusted_jwk_sets;
      trusted_certs = trusted_certs;
      insecure_key = config.insecure_key;
    })

  -- the `match` on the key's parameters in `verify_jwk_endorsement`
  unfoldable pub public_key_of : AlgorithmParameters → Result JwkError PKey
  public_key_of (rsa n e) = do
    n_bytes ← ok_or (tools.url_safe_no_pad n) decode_n
    n_num ← ok_or (tools.big_num n_bytes) openssl
    e_bytes ← ok_or (tools.url_safe_no_pad e) decode_e
    e_num ← ok_or (tools.big_num e_bytes) openssl
    ok_or (tools.rsa_key n_num e_num) openssl
  public_key_of (elliptic_curve curve x y) = do
    x_bytes ← ok_or (tools.url_safe_no_pad x) base64
    x_num ← ok_or (tools.big_num x_bytes) openssl
    y_bytes ← ok_or (tools.url_safe_no_pad y) base64
    y_num ← ok_or (tools.big_num y_bytes) openssl
    elim curve [
      | p256 ↦ ok_or (tools.ec_key x_num y_num) openssl
      | other_curve ↦ err unsupported_curve
    ]
  public_key_of other_parameters = err unsupported_key

  -- a certificate of the x5c extension
  unfoldable pub x5c_cert : String → Result JwkError X509
  x5c_cert cert = do
    der ← ok_or (tools.url_safe_no_pad (join_lines cert)) illegal_x5c
    ok_or (tools.from_der der) invalid_x509

  unfoldable pub x5c_chain : List String → Result JwkError (List X509)
  x5c_chain [] = ok []
  x5c_chain (cert ∷ certs) = do first ← x5c_cert cert; chain ← x5c_chain certs; ok (first ∷ chain)

  -- the loop that fills the trust store
  unfoldable pub add_certs : List X509 → Store → Result JwkError Store
  add_certs [] store = ok store
  add_certs (cert ∷ certs) store = ok_or (tools.add_cert store cert) openssl >>= add_certs certs

  -- `verify_jwk_endorsement` once the x5c extension is seen to have a first certificate
  unfoldable pub verify_chain : List X509 → PKey → String → List String → Result JwkError (Unit {0})
  verify_chain trusted_certs public_key leaf certs = do
    leaf_cert ← x5c_cert leaf
    leaf_key ← ok_or (tools.public_key leaf_cert) openssl
    _ ← guard (tools.public_eq public_key leaf_key) not_leaf_key
    cert_chain ← x5c_chain certs
    builder ← ok_or tools.store_builder openssl
    trust_store ← add_certs trusted_certs builder
    verified ← ok_or (tools.verify_cert trust_store leaf_cert cert_chain) openssl
    guard verified not_validated

  unfoldable pub verify_jwk_endorsement : List X509 → Jwk KeyAlgorithm → Result JwkError (Unit {0})
  verify_jwk_endorsement trusted_certs key = public_key_of key.algorithm >>= λ public_key.
      elim key.x509_chain [
        | none ↦ err no_x5c
        | some [] ↦ err empty_x5c
        | some (leaf ∷ certs) ↦ verify_chain trusted_certs public_key leaf certs
      ]

  -- `get_verification_jwk` with a key in the header
  unfoldable pub header_key :
      JwkAttestationTokenVerifier → Jwk KeyAlgorithm → Result JwkError (Jwk KeyAlgorithm)
  header_key v key =
      if v.insecure_key
      then ok key
      else (if is_empty v.trusted_certs
          then err no_trusted_cert
          else verify_jwk_endorsement v.trusted_certs key >> ok key)

  -- and without one
  unfoldable pub key_of_kid :
      JwkAttestationTokenVerifier → Option String → Result JwkError (Jwk KeyAlgorithm)
  key_of_kid v header_kid =
      if is_empty v.trusted_jwk_sets
      then err no_jwk_set
      else (ok_or header_kid no_kid >>= λ kid.
          ok_or (tools.find v.trusted_jwk_sets kid) no_such_kid)

  unfoldable pub get_verification_jwk :
      JwkAttestationTokenVerifier → Header KeyAlgorithm → Result JwkError (Jwk KeyAlgorithm)
  get_verification_jwk v header = elim header.jwk [
    | some key ↦ header_key v key
    | none ↦ key_of_kid v header.kid
  ]

  unfoldable pub verify : JwkAttestationTokenVerifier → String → Result JwkError Value
  verify v token = do
    header ← ok_or (tools.decode_header token) bad_header
    key ← get_verification_jwk v header
    key_alg ← ok_or key.key_algorithm no_key_algorithm
    alg ← ok_or (tools.algorithm_from_str key_alg) bad_algorithm
    dkey ← ok_or (tools.decoding_key key) bad_key
    ok_or (tools.decode token dkey alg) bad_token
