-- ===== src/Kbs/Token/Tests.antt =====
-- Tests of the token verifier on a set with one key and an x5c extension of two certificates, and the
-- theorems at inputs that meet their hypotheses.
use mathlib.Core.List.{Memᴰ}
use trustmee_artifact.Prelude.{
  Bytes, ℕ, String, ◌≡◌, refl, ap, ◌↔◌, inl, inr, Bool, true, false, Option, none, some, List, [],
  ◌∷◌, ◌++◌, str_eq, eq_iff, if◌then◌else◌, Bool-cases, ok, err,
}
use trustmee_artifact.Kbs.Token.{
  TokenVerifier, from_config, extract_from, verify as token_verify, extract_tee_public_key,
  builtin_paths,
}
use trustmee_artifact.Kbs.Token.Keys.{IsAtFirst, extract_from_iff}
use trustmee_artifact.Kbs.Token.Jwk.{
  AttestationTokenVerifierConfig, p256, rsa, elliptic_curve, Jwk as JwkKey, Header, Tools,
  JwkAttestationTokenVerifier, join_lines, is_empty, not_leaf_key, no_such_kid, no_trusted_cert,
  new, verify, get_verification_jwk, header_key, key_of_kid, verify_jwk_endorsement, verify_chain,
  public_key_of, x5c_cert, x5c_chain, add_certs, get_trusted_jwk_sets, get_trusted_certs,
  get_jwks_from_file_or_url, get_jwks_from_file, get_jwks_from_url,
}
use trustmee_artifact.Kbs.Token.Jwk.Trust.{FindsById, IsAccepted, verify-IsAccepted}
use trustmee_artifact.Kbs.Token.Jwk.Sources.{IsConfigured, new-IsConfigured}

abbrev Key : Type 0
Key = JwkKey ℕ

abbrev set_key : Key
set_key = record {
  algorithm = rsa "n" "e";
  x509_chain = none;
  key_algorithm = some 1;
  key_id = some "one";
}

abbrev own_key : Key
own_key = record {
  algorithm = elliptic_curve p256 "x" "y";
  x509_chain = some ("leaf" ∷ "root" ∷ []);
  key_algorithm = some 1;
  key_id = none;
}

abbrev has_id : Option String → String → Bool
has_id none kid = false
has_id (some i) kid = str_eq i kid

abbrev find : List Key → String → Option Key
find [] kid = none
find (key ∷ keys) kid = let rest = find keys kid in if has_id key.key_id kid then some key else rest

has_id-eq : (i : Option String) (kid : String) → has_id i kid ≡ true → i ≡ some kid
has_id-eq none kid h = cc
has_id-eq (some i) kid h = ap some ((eq_iff i kid).0 h)

-- tokens are named for where their key is
abbrev decode_header : String → Option (Header ℕ)
decode_header token =
    if str_eq token "own"
    then some (record { jwk = some own_key; kid = none })
    else some (record { jwk = none; kid = some token })

abbrev pub tools : Tools
tools = record {
  BigNum = Bytes;
  PKey = Bytes;
  X509 = String;
  Store = List String;
  KeyAlgorithm = ℕ;
  Algorithm = ℕ;
  DecodingKey = Key;
  Value = ℕ;
  Url = String;
  Reading = String;
  parse_url = λ p. some p;
  scheme = λ u. "file";
  url_path = λ u. u;
  set_path = λ u p. p;
  as_str = λ u. u;
  http_get = λ u. some u;
  json_jwks_uri = λ r. some r;
  json_jwks = λ r. some (set_key ∷ []);
  open_file = λ p. some p;
  read_file = λ p. some [];
  from_pem = λ b. some "root";
  url_safe_no_pad = λ s. some (7 ∷ []);
  big_num = λ b. some b;
  rsa_key = λ n e. some (n ++ e);
  ec_key = λ x y. some (x ++ y);
  from_der = λ b. some "leaf";
  public_key = λ cert. some (7 ∷ 7 ∷ []);
  public_eq = λ k l. true;
  store_builder = some [];
  add_cert = λ store cert. some (cert ∷ store);
  verify_cert = λ store leaf chain. some true;
  find = find;
  decode_header = decode_header;
  algorithm_from_str = λ a. some a;
  decoding_key = λ k. some k;
  decode = λ token k a. some 5;
}

pub finds : FindsById tools
finds [] kid key h = cc
finds (k ∷ keys) kid key h = elim (Bool-cases (has_id k.key_id kid)) [
  | inl same ↦
      let here = rw same at h in let has = has_id-eq k.key_id kid same in (Memᴰ.head cc, cc)
  | inr differs ↦
      let (member, has) = finds keys kid key (rw differs at h) in (Memᴰ.tail member, has)
]

abbrev config : AttestationTokenVerifierConfig
config = record {
  extra_teekey_paths = "/extra" ∷ [];
  trusted_certs_paths = "/cert" ∷ [];
  trusted_jwk_sets = "file:///keys" ∷ [];
  insecure_key = false;
}

abbrev verifier : JwkAttestationTokenVerifier tools
verifier = record {
  trusted_jwk_sets = set_key ∷ [];
  trusted_certs = "root" ∷ [];
  insecure_key = false;
}

abbrev pub token_verifier : TokenVerifier tools
token_verifier = record { verifier = verifier; extra_teekey_paths = "/extra" ∷ builtin_paths }

-- the claims have a key at one of the built-in paths
abbrev pub pointer : ℕ → String → Option ℕ
pointer claim path =
    if str_eq path "/customized_claims/runtime_data/tee-pubkey" then some 2 else none

abbrev pub deserialize : ℕ → Option ℕ
deserialize value = some value

unfoldable pub token_tools : Unit {0}
unfolding token_verify extract_tee_public_key new verify get_verification_jwk header_key key_of_kid
    verify_jwk_endorsement verify_chain public_key_of x5c_cert x5c_chain add_certs
    get_trusted_jwk_sets get_trusted_certs get_jwks_from_file_or_url get_jwks_from_file
    get_jwks_from_url is_empty join_lines from_config extract_from
token_tools = tt

lines : join_lines "a\nb" ≡ "ab"
unfolding token_tools
lines = refl

started : new tools config ≡ ok verifier
unfolding token_tools
started = refl

built : from_config tools config ≡ ok token_verifier
unfolding token_tools
built = refl

own_accepted : verify tools verifier "own" ≡ ok 5
unfolding token_tools
own_accepted = refl

unknown_kid : verify tools verifier "two" ≡ err no_such_kid
unfolding token_tools
unknown_kid = refl

-- without trusted certificates the key in a header is refused
no_anchor : verify tools (record verifier { trusted_certs = [] }) "own" ≡ err no_trusted_cert
unfolding token_tools
no_anchor = refl

other_leaf :
    verify_jwk_endorsement (record tools { public_eq = λ k l. false }) ("root" ∷ []) own_key
    ≡ err not_leaf_key
unfolding token_tools
other_leaf = refl

verify-IsAccepted_example : IsAccepted tools verifier "own" 5
verify-IsAccepted_example = verify-IsAccepted tools verifier "own" 5 finds own_accepted

new-IsConfigured_example : IsConfigured tools config verifier
new-IsConfigured_example = new-IsConfigured tools config verifier started

extract_from_iff_example :
    (extract_from pointer deserialize ("/extra" ∷ builtin_paths) 5 ≡ ok 2)
    ↔ IsAtFirst pointer deserialize ("/extra" ∷ builtin_paths) 5 2
extract_from_iff_example = extract_from_iff pointer deserialize ("/extra" ∷ builtin_paths) 5 2
