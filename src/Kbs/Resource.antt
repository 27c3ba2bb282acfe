-- ===== src/Kbs/Resource.antt =====
-- kbs/src/plugins/implementations/resource/mod.rs, and `ResourceStorage` of backend.rs: the plugin
-- that stores secret resources. Its state is the backend's, with the counters of
-- kbs/src/prometheus/mod.rs that it moves.
pub mod Laws
use trustmee_artifact.Prelude.{
  Bytes, ℕ, zero, suc, ◌+◌, ◌-◌, ◌*◌, ◌/◌, ◌%◌, ◌^◌, ◌≤◌, ◌<◌, String, ◌≡◌, refl, sym, ap, ◌∙◌, ◌≢◌,
  ◌↔◌, ◌⊎◌, inl, inr, Bool, true, false, ◌&&◌, ◌||◌, not, Option, none, some, List, [], ◌∷◌, ◌++◌,
  map, arith, str_eq, eq_iff, ltb, leb, ◌==◌, if◌then◌else◌, Bool-cases, Option-cases, length,
  get_elem?, take, drop, replicate, All, length-append, length-take, length-drop, Result, ok, err,
  panic, ◌>>=◌, ◌>>◌, ok_or, guard, map_err, >>=-eq-ok, ==_iff,
}
use trustmee_artifact.Prelude.Dict
use trustmee_artifact.Prelude.Dict.{Dict}
use trustmee_artifact.Kbs.Prometheus.{inc}
use trustmee_artifact.Kbs.UrlPath.{join}
use trustmee_artifact.Kbs.ResourceDesc.{
  ResourceDesc, ResourceError, illegal_method, try_from, display,
}
use trustmee_artifact.Kbs.LocalFs
use trustmee_artifact.Kbs.LocalFs.{FileSystem}
use trustmee_artifact.Kbs.PluginManager.{ClientPlugin, Query}

pub record StorageBackend (W : Type 0) : Type 0 where
  pub read_secret_resource : ResourceDesc → W → Result ResourceError Bytes
  pub write_secret_resource : ResourceDesc → Bytes → W → Result ResourceError (Unit {0}) × W

abbrev pub local_fs : String → StorageBackend FileSystem
local_fs repo_dir_path = record {
  read_secret_resource = LocalFs.read_secret_resource repo_dir_path;
  write_secret_resource = LocalFs.write_secret_resource repo_dir_path;
}

pub record ResourceStorage (W : Type 0) : Type 0 where
  pub repository : W
  pub resource_reads_total : Dict ℕ
  pub resource_writes_total : Dict ℕ

module _ {W : Type 0} (backend : StorageBackend W) where
  unfoldable pub set_secret_resource :
      ResourceDesc → Bytes → ResourceStorage W → Result ResourceError (Unit {0}) × ResourceStorage W
  set_secret_resource d value s =
      let (r, w) = backend.write_secret_resource d value s.repository in
      (
        r,
        record {
          repository = w;
          resource_reads_total = s.resource_reads_total;
          resource_writes_total = inc (display d) s.resource_writes_total;
        },
      )

  unfoldable pub get_secret_resource :
      ResourceDesc → ResourceStorage W → Result ResourceError Bytes × ResourceStorage W
  get_secret_resource d s = (
    backend.read_secret_resource d s.repository,
    record s { resource_reads_total = inc (display d) s.resource_reads_total },
  )

  handle_post :
      Bytes
      → Result ResourceError ResourceDesc
      → ResourceStorage W
      → Result ResourceError Bytes × ResourceStorage W
  unfolding set_secret_resource
  handle_post body (ok d) s = let (r, s') = set_secret_resource d body s in (r >> ok [], s')
  handle_post body (err e) s = (err e, s)
  handle_post body panic s = (panic, s)

  handle_get :
      Result ResourceError ResourceDesc
      → ResourceStorage W
      → Result ResourceError Bytes × ResourceStorage W
  unfolding get_secret_resource
  handle_get (ok d) s = get_secret_resource d s
  handle_get (err e) s = (err e, s)
  handle_get panic s = (panic, s)

  unfoldable pub handle :
      Bytes
      → Query
      → List String
      → String
      → ResourceStorage W
      → Result ResourceError Bytes × ResourceStorage W
  unfolding handle_post handle_get
  handle body query path method s =
      if str_eq method "POST"
      then handle_post body (try_from (join path)) s
      else if str_eq method "GET"
      then handle_get (try_from (join path)) s
      else (err illegal_method, s)

  unfoldable pub validate_auth :
      Bytes → Query → List String → String → ResourceStorage W → Result ResourceError Bool
  validate_auth body query path method s = if str_eq method "POST" then ok true else ok false

  unfoldable pub encrypted :
      Bytes → Query → List String → String → ResourceStorage W → Result ResourceError Bool
  encrypted body query path method s = if str_eq method "GET" then ok true else ok false

  abbrev pub resource_plugin : ClientPlugin ResourceError (ResourceStorage W)
  resource_plugin = record { handle = handle; validate_auth = validate_auth; encrypted = encrypted }
