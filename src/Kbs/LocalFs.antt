-- ===== src/Kbs/LocalFs.antt =====
-- kbs/src/plugins/implementations/resource/local_fs.rs: secret resources as files under one
-- directory. The state is the file system, with the operations of the system that will succeed.
pub mod Laws
use Prim.Native.Char.{code}
use trustmee_artifact.Prelude.{
  Bytes, ℕ, zero, suc, ◌+◌, ◌-◌, ◌*◌, ◌/◌, ◌%◌, ◌^◌, ◌≤◌, ◌<◌, String, ◌≡◌, refl, sym, ap, ◌∙◌, ◌≢◌,
  ◌↔◌, ◌⊎◌, inl, inr, Bool, true, false, ◌&&◌, ◌||◌, not, Option, none, some, List, [], ◌∷◌, ◌++◌,
  map, arith, str_eq, eq_iff, ltb, leb, ◌==◌, if◌then◌else◌, Bool-cases, Option-cases, length,
  get_elem?, take, drop, replicate, All, length-append, length-take, length-drop, Result, ok, err,
  panic, ◌>>=◌, ◌>>◌, ok_or, guard, map_err, >>=-eq-ok, ==_iff,
}
use trustmee_artifact.Prelude.Dict
use trustmee_artifact.Prelude.Dict.{Dict, is_some}
use trustmee_artifact.Kbs.UrlPath.{◌⧺◌}
use trustmee_artifact.Kbs.ResourceDesc.{
  ResourceDesc, ResourceError, display, read_failed, create_dir_failed, write_failed,
}

unfoldable pub starts_with_slash : String → Bool
starts_with_slash String.[] = false
starts_with_slash (String.◌∷◌ c s) = code c == b'/'

-- whether a slash has to be put between a path and what is pushed onto it
unfoldable pub needs_slash : String → Bool
needs_slash String.[] = false
needs_slash (String.◌∷◌ c String.[]) = not (code c == b'/')
needs_slash (String.◌∷◌ c s) = needs_slash s

-- `PathBuf::push` on Unix: an absolute path replaces what is there
unfoldable pub push : String → String → String
unfolding starts_with_slash needs_slash
push path p =
    if starts_with_slash p
    then p
    else if needs_slash path
    then path ⧺ String.◌∷◌ "/" p
    else path ⧺ p

pub record FileSystem : Type 0 where
  pub files : Dict Bytes
  pub dirs : Dict (Unit {0})
  pub read_ok : String → Bool
  pub create_ok : String → Bool
  pub write_ok : String → Bool

unfoldable pub read_path : String → ResourceDesc → String
unfolding push display
read_path repo_dir_path d = push repo_dir_path (display d)

unfoldable pub write_dir : String → ResourceDesc → String
unfolding push
write_dir repo_dir_path d = push (push repo_dir_path d.repository_name) d.resource_type

unfoldable pub write_path : String → ResourceDesc → String
unfolding write_dir push
write_path repo_dir_path d = push (write_dir repo_dir_path d) d.resource_tag

-- `Path::exists`
unfoldable pub exists : String → FileSystem → Bool
exists path fs = is_some (Dict.get path fs.dirs) || is_some (Dict.get path fs.files)

unfoldable pub read_secret_resource :
    String → ResourceDesc → FileSystem → Result ResourceError Bytes
read_secret_resource repo_dir_path d fs =
    if fs.read_ok (read_path repo_dir_path d)
    then ok_or (Dict.get (read_path repo_dir_path d) fs.files) read_failed
    else err read_failed

-- `if !exists { create_dir_all(..)? }`
unfoldable pub ensure_dir : String → FileSystem → Option FileSystem
unfolding exists
ensure_dir path fs =
    if exists path fs
    then some fs
    else if fs.create_ok path
    then some (record fs { dirs = Dict.insert path tt fs.dirs })
    else none

unfoldable pub write_file :
    String → Bytes → FileSystem → Result ResourceError (Unit {0}) × FileSystem
write_file path value fs =
    if fs.write_ok path
    then (ok tt, record fs { files = Dict.insert path value fs.files })
    else (err write_failed, fs)

unfoldable pub write_secret_resource :
    String → ResourceDesc → Bytes → FileSystem → Result ResourceError (Unit {0}) × FileSystem
unfolding ensure_dir write_file
write_secret_resource repo_dir_path d value fs = elim (ensure_dir (write_dir repo_dir_path d) fs) [
  | none ↦ (err create_dir_failed, fs)
  | some fs' ↦ write_file (write_path repo_dir_path d) value fs'
]
