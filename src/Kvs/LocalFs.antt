-- ===== src/Kvs/LocalFs.antt =====
-- deps/key-value-storage/src/local_fs/mod.rs: one file for each key, in one directory. A file's name
-- is its key with each slash replaced by `\x2F`. A call is modelled as one step, with no other
-- call in between: the code drops the guard of its lock where it takes it (`let _ =`).
pub mod Names
pub mod Laws
pub mod Listing
use Prim.Native.Char.{Char, code}
use Prim.Native.String as Text
use trustmee_artifact.Prelude.{
  Bytes, ℕ, zero, suc, ◌+◌, ◌-◌, ◌*◌, ◌/◌, ◌%◌, ◌^◌, ◌≤◌, ◌<◌, String, ◌≡◌, refl, sym, ap, ◌∙◌, ◌≢◌,
  ◌↔◌, ◌⊎◌, inl, inr, Bool, true, false, ◌&&◌, ◌||◌, not, Option, none, some, List, [], ◌∷◌, ◌++◌,
  map, arith, str_eq, eq_iff, ltb, leb, ◌==◌, if◌then◌else◌, Bool-cases, Option-cases, length,
  get_elem?, take, drop, replicate, All, length-append, length-take, length-drop, Result, ok, err,
  panic, ◌>>=◌, ◌>>◌, ok_or, guard, map_err, >>=-eq-ok,
}
use trustmee_artifact.Prelude.Dict
use trustmee_artifact.Prelude.Dict.{Dict, is_some}
use trustmee_artifact.Kvs.{
  Method, KeyValueStorage, SetParameters, set_key_failed, get_key_failed, list_keys_failed,
  delete_key_failed, is_valid_key,
}

-- `key.replace('/', "\\x2F")`
unfoldable pub escape : String → String
escape String.[] = String.[]
escape (String.◌∷◌ c s) =
    let rest = escape s in
    if code c == b'/'
    then String.◌∷◌ "\\" (String.◌∷◌ "x" (String.◌∷◌ "2" (String.◌∷◌ "F" rest)))
    else String.◌∷◌ c rest

unfoldable pub starts_escape : String → Bool
starts_escape (String.◌∷◌ a (String.◌∷◌ b (String.◌∷◌ c (String.◌∷◌ d s)))) =
    code a == b'\\' && code b == b'x' && code c == b'2' && code d == b'F'
starts_escape _ = false

-- `file_name.replace("\\x2F", "/")`, with the number of characters of a match still to pass over
unfoldable pub unescape_from : ℕ → String → String
unescape_from skip String.[] = String.[]
unescape_from (suc skip) (String.◌∷◌ c s) = unescape_from skip s
unescape_from zero (String.◌∷◌ c s) = elim (starts_escape (String.◌∷◌ c s)) [
  | true ↦ String.◌∷◌ "/" (unescape_from 3 s)
  | false ↦ String.◌∷◌ c (unescape_from zero s)
]

unfoldable pub unescape : String → String
unfolding unescape_from starts_escape
unescape = unescape_from zero

-- The directory: its files, and which of the next operations of the system succeed.
pub record Directory : Type 0 where
  pub files : Dict Bytes
  pub read_ok : String → Bool
  pub write_ok : String → Bool
  pub remove_ok : String → Bool
  pub list_ok : Bool

-- Joined to the directory, these names are the directory itself or its parent.
unfoldable pub is_directory : String → Bool
is_directory name = str_eq name "" || str_eq name "." || str_eq name ".."

unfoldable pub exists : String → Directory → Bool
unfolding is_directory
exists name dir = is_directory name || is_some (Dict.get name dir.files)

-- `tokio::fs::write`, which fails at a directory
unfoldable pub write : String → Bytes → Directory → Option Directory
unfolding is_directory
write name value dir =
    if not (is_directory name) && dir.write_ok name
    then some (record dir { files = Dict.insert name value dir.files })
    else none

-- `tokio::fs::read`, which fails at a directory
unfoldable pub read : String → Directory → Option Bytes
unfolding is_directory
read name dir =
    if not (is_directory name) && dir.read_ok name then Dict.get name dir.files else none

-- the two tests of `set`, in their order
finish_set : String → String → SetParameters → Method Directory (Unit {0})
finish_set key name parameters dir =
    if not parameters.overwrite && exists name dir
    then (err (set_key_failed key), dir)
    else (ok tt, dir)

unfoldable pub set : String → Bytes → SetParameters → Method Directory (Unit {0})
unfolding finish_set exists write
set key value parameters dir =
    if not (is_valid_key key)
    then (err (set_key_failed key), dir)
    else if parameters.overwrite || not (exists (escape key) dir)
    then elim (write (escape key) value dir) [
      | none ↦ (err (set_key_failed key), dir)
      | some dir' ↦ finish_set key (escape key) parameters dir'
    ]
    else finish_set key (escape key) parameters dir

unfoldable pub get : String → Method Directory (Option Bytes)
unfolding exists read
get key dir =
    if not (exists (escape key) dir) then (ok none, dir) else elim (read (escape key) dir) [
      | none ↦ (err (get_key_failed key), dir)
      | some file ↦ (ok (some file), dir)
    ]

unfoldable pub list : Method Directory (List String)
unfolding unescape
list dir =
    if dir.list_ok
    then (ok (map unescape (Dict.keys dir.files)), dir)
    else (err list_keys_failed, dir)

unfoldable pub delete : String → Method Directory (Option Bytes)
unfolding exists read
delete key dir =
    if not (exists (escape key) dir) then (ok none, dir) else elim (read (escape key) dir) [
      | none ↦ (err (get_key_failed key), dir)
      | some file ↦
          if dir.remove_ok (escape key)
          then (ok (some file), record dir { files = Dict.remove (escape key) dir.files })
          else (err (delete_key_failed key), dir)
    ]

abbrev pub local_fs : KeyValueStorage Directory
local_fs = record { set = set; list = list; get = get; delete = delete }
