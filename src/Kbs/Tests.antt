-- ===== src/Kbs/Tests.antt =====
-- Tests of paths, resource descriptions, the resource plugin, the administrators and the API, and the
-- theorems at inputs that meet their hypotheses.
use trustmee_artifact.Prelude.{
  Bytes, ℕ, String, ◌≡◌, refl, ◌↔◌, ◌⊎◌, true, none, some, List, [], ◌∷◌, arith, str_eq, ◌==◌,
  if◌then◌else◌, ok, err,
}
use trustmee_artifact.Prelude.Dict
use trustmee_artifact.Prelude.Dict.{Dict}
use trustmee_artifact.Kbs.UrlPath.{split, join}
use trustmee_artifact.Kbs.Attestation.Service as As
use trustmee_artifact.Kbs.Attestation.Service.{Service}
use trustmee_artifact.Kbs.PluginManager.{ClientPlugin}
use trustmee_artifact.Kbs.Api.{encrypted, HttpRequest, Parts, ApiServer, get_attestation_token}
use trustmee_artifact.Kbs.ResourceDesc.{
  ResourceDesc, ResourceError, try_from, display, is_name, is_name_char, all_name_chars,
}
use trustmee_artifact.Kbs.ResourceDesc.Laws.{
  HasNames, IsName, IsPlain, try_from_iff, try_from-IsPlain,
}
use trustmee_artifact.Kbs.LocalFs.{
  FileSystem, read_path, write_path, read_secret_resource, write_secret_resource,
}
use trustmee_artifact.Kbs.LocalFs.Laws.{read-write}
use trustmee_artifact.Kbs.Resource
use trustmee_artifact.Kbs.Resource.{ResourceStorage, local_fs, resource_plugin}
use trustmee_artifact.Kbs.Resource.Laws.{handled_is_authorised, get_after_post}
use trustmee_artifact.Kbs.Admin.{SimplePersona, simple, validate_admin_token}
use trustmee_artifact.Kbs.Admin.Laws.{SomeKey, simple_admin_iff}
use trustmee_artifact.Kbs.Api.Handler.{api}
use trustmee_artifact.Kbs.Api.Access.{IsQuiet, IsAuthorised, plugins_are_guarded}
use trustmee_artifact.Kbs.Api.Trusted.{with_verifier, IsReleased, secrets_go_to_trusted}
use trustmee_artifact.Kbs.Token.Tests.{
  tools, finds, token_verifier, pointer, deserialize, token_tools,
}
use trustmee_artifact.Kbs.Attestation.Tests.{table, libraries, backend, no_metrics}

desc_tools : Unit {0}
unfolding split join try_from display is_name is_name_char all_name_chars
desc_tools = tt

abbrev desc : ResourceDesc
desc = record { repository_name = "default"; resource_type = "key"; resource_tag = "3..." }

parse_tests :
    (try_from "default/key/3..." ≡ ok desc)
    × (try_from "/repo/type/tag" ≡ err ResourceError.illegal_resource_desc)
    × (try_from "1/2" ≡ err ResourceError.illegal_resource_desc)
    × (try_from "1.ok/.2ok./3..." ≡ err ResourceError.illegal_resource_desc)
unfolding desc_tools
parse_tests = (refl, refl, refl, refl)

desc-HasNames : HasNames desc
unfolding desc_tools
desc-HasNames = record { repository_name = refl; resource_type = refl; resource_tag = refl }

try_from_iff_example : (try_from "default/key/3..." ≡ ok desc) ↔ (
    ("default/key/3..." ≡ display desc)
    × IsName desc.repository_name
    × IsName desc.resource_type
    × IsName desc.resource_tag)
try_from_iff_example = try_from_iff "default/key/3..." desc

try_from-IsPlain_example :
    IsPlain desc.repository_name × IsPlain desc.resource_type × IsPlain desc.resource_tag
try_from-IsPlain_example = try_from-IsPlain "default/key/3..." desc parse_tests.0

abbrev fs : FileSystem
fs = record {
  files = ("/r/default/key/3...", 7 ∷ []) ∷ [];
  dirs = [];
  read_ok = λ p. true;
  create_ok = λ p. true;
  write_ok = λ p. true;
}

write_done : (write_secret_resource "/r" desc (9 ∷ []) fs).0 ≡ ok tt
unfolding write_secret_resource
write_done = ground arith

read-write_example :
    read_secret_resource "/r" desc (write_secret_resource "/r" desc (9 ∷ []) fs).1 ≡ (
      if str_eq "default/key/3..." "default/key/3..."
      then (if fs.read_ok (read_path "/r" desc) then ok (9 ∷ []) else err ResourceError.read_failed)
      else read_secret_resource "/r" desc fs)
read-write_example =
    read-write "/r" "default/key/3..." "default/key/3..." desc desc (9 ∷ []) fs parse_tests.0
      parse_tests.0 write_done

abbrev storage : ResourceStorage FileSystem
storage = record { repository = fs; resource_reads_total = []; resource_writes_total = [] }

abbrev path_parts : List String
path_parts = "default" ∷ "key" ∷ "3..." ∷ []

all_tools : Unit {0}
unfolding desc_tools Resource.handle Resource.validate_auth Resource.encrypted read_secret_resource
    write_secret_resource read_path write_path api Dict.get Dict.insert get_attestation_token
    As.get_attest_token_from_session validate_admin_token
all_tools = tt

read_back : (Resource.handle (local_fs "/r") [] [] path_parts "GET" storage).0 ≡ ok (7 ∷ [])
unfolding all_tools
read_back = refl

handled_is_authorised_example :
    ((◌≡◌ {A = String} "GET" "POST")
      × (Resource.validate_auth (local_fs "/r") [] [] path_parts "GET" storage ≡ ok true))
    ⊎ ((◌≡◌ {A = String} "GET" "GET")
        × (Resource.encrypted (local_fs "/r") [] [] path_parts "GET" storage ≡ ok true)
        × ((Resource.handle (local_fs "/r") [] [] path_parts "GET" storage).1.repository ≡ fs))
handled_is_authorised_example =
    handled_is_authorised (local_fs "/r") [] (7 ∷ []) [] path_parts "GET" storage read_back

joined : try_from (join path_parts) ≡ ok desc
unfolding desc_tools
joined = refl

posted : (Resource.handle (local_fs "/r") (9 ∷ []) [] path_parts "POST" storage).0 ≡ ok []
unfolding all_tools
posted = refl

get_after_post_example :
    (Resource.handle
      (local_fs "/r")
      []
      []
      path_parts
      "GET"
      (Resource.handle (local_fs "/r") (9 ∷ []) [] path_parts "POST" storage).1).0
    ≡ ok (9 ∷ [])
get_after_post_example =
    get_after_post "/r" (9 ∷ []) [] [] [] path_parts path_parts desc storage joined refl posted refl

abbrev personas : List (SimplePersona ℕ)
personas = record { id = "alice"; public_key = 4 } ∷ []

simple_admin_iff_example :
    (validate_admin_token (λ k t. k == 4) (simple personas) (some "jwt") ≡ ok tt)
    ↔ ((token : String) × (some "jwt" ≡ some token) × SomeKey (λ k t. k == 4) personas token)
simple_admin_iff_example = simple_admin_iff (λ k t. k == 4) personas (some "jwt")

abbrev parts : Parts ℕ ℕ (Unit {0})
parts = record {
  admin = validate_admin_token (λ k t. k == 4) (simple personas);
  verify = λ t. some 1;
  claims_to_string = λ c. some "{}";
  evaluate = λ d c p. some (str_eq d.plugin "resource");
  set_policy = λ b p. some p;
  get_policy = λ p. some "";
  extract_tee_public_key = λ c. some 2;
  jwe = λ k b. some "cipher";
  from_utf8 = λ b. none;
}

abbrev plugins : Dict (ClientPlugin ResourceError (ResourceStorage FileSystem))
plugins = ("resource", resource_plugin (local_fs "/r")) ∷ []

abbrev core : ApiServer libraries table backend parts plugins
core = record {
  attestation_service = record {
    inner = tt;
    session_map = λ k. none;
    timeout = 5;
    metrics = no_metrics;
  };
  policy_engine = tt;
  world = storage;
  policy_evals = 0;
  policy_errors = 0;
  policy_violations = 0;
  policy_approvals = 0;
}

abbrev get_secret : HttpRequest
get_secret = record { method = "GET"; session_cookie = none; bearer = some "jwt" }

sealed :
    (api libraries table backend parts plugins get_secret [] "resource/default/key/3..." [] "s" 0
      core).0
    ≡ ok (encrypted "cipher")
unfolding all_tools
sealed = refl

split_path : split "resource/default/key/3..." ≡ "resource" ∷ path_parts
unfolding desc_tools
split_path = refl

found : Dict.get "resource" plugins ≡ some (resource_plugin (local_fs "/r"))
unfolding all_tools
found = refl

plugins_are_guarded_example :
    IsQuiet libraries table backend parts plugins core (
      api libraries table backend parts plugins get_secret [] "resource/default/key/3..." [] "s" 0
        core)
    ⊎ IsAuthorised libraries table backend parts plugins "resource" get_secret [] [] path_parts 0
        core
plugins_are_guarded_example =
    plugins_are_guarded libraries table backend parts plugins get_secret []
      "resource/default/key/3..." "resource" path_parts [] "s" 0 core split_path

-- the same server with the token verifier
abbrev trusting : Parts ℕ ℕ (Unit {0})
trusting = with_verifier tools pointer deserialize token_verifier parts

abbrev trusting_core : ApiServer libraries table backend trusting plugins
trusting_core = record {
  attestation_service = core.attestation_service;
  policy_engine = tt;
  world = storage;
  policy_evals = 0;
  policy_errors = 0;
  policy_violations = 0;
  policy_approvals = 0;
}

abbrev get_own : HttpRequest
get_own = record { method = "GET"; session_cookie = none; bearer = some "own" }

sealed_to_trusted :
    (api libraries table backend trusting plugins get_own [] "resource/default/key/3..." [] "s" 0
      trusting_core).0
    ≡ ok (encrypted "cipher")
unfolding all_tools token_tools
sealed_to_trusted = refl

secrets_go_to_trusted_example :
    (secret : Bytes) × ((Resource.handle (local_fs "/r") [] [] path_parts "GET" storage).0
      ≡ ok secret)
    × IsReleased libraries table backend tools pointer deserialize token_verifier parts
        (local_fs "/r")
        plugins
        get_own
        []
        path_parts
        0
        trusting_core
        secret
        (encrypted "cipher")
secrets_go_to_trusted_example =
    secrets_go_to_trusted libraries table backend tools pointer deserialize token_verifier parts
      (local_fs "/r") plugins none (some "own") [] "resource/default/key/3..." path_parts [] "s" 0
      trusting_core (encrypted "cipher") finds split_path found sealed_to_trusted
