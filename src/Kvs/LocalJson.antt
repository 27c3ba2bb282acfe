-- ===== src/Kvs/LocalJson.antt =====
-- deps/key-value-storage/src/local_json/mod.rs: all pairs in one JSON file, the values in base64.
-- serde_json and base64 are parameters. A call is modelled as one step, with no other
-- call in between: the code drops the guard of its lock where it takes it (`let _ =`).
pub mod Laws
use trustmee_artifact.Prelude.{
  Bytes, String, Bool, false, true, ◌≡◌, Result, ok, err, ok_or, guard, not, ◌&&◌, ◌>>=◌, ◌>>◌,
  if◌then◌else◌, Option, none, some, List,
}
use trustmee_artifact.Prelude.Dict
use trustmee_artifact.Prelude.Dict.{Dict, is_some}
use trustmee_artifact.Kvs.{
  Method, KeyValueStorage, KeyValueStorageError, SetParameters, set_key_failed, get_key_failed,
  list_keys_failed, delete_key_failed, malformed_value,
}

-- serde_json on a map of texts, and the URL-safe base64 engine
pub record Codec : Type 1 where
  pub Contents : Type 0
  pub Text : Type 0
  pub to_string : Dict Text → Option Contents
  pub from_slice : Contents → Option (Dict Text)
  pub encode : Bytes → Text
  pub decode : Text → Option Bytes

-- What is written is read back: a map with the same entries, and the same bytes.
pub record CodecLaws (codec : Codec) : Type 0 where
  pub to_string_total : (m : Dict codec.Text) → (c : codec.Contents) × (codec.to_string m ≡ some c)
  pub from-to :
      (m : Dict codec.Text) (c : codec.Contents)
      → codec.to_string m ≡ some c
      → (m' : Dict codec.Text) × (codec.from_slice c ≡ some m')
        × ((k : String) → Dict.get k m' ≡ Dict.get k m)
  pub decode-encode : (b : Bytes) → codec.decode (codec.encode b) ≡ some b

-- The file: `none` if it cannot be read, and whether the next write succeeds.
pub record JsonFile (codec : Codec) : Type 0 where
  pub contents : Option codec.Contents
  pub write_ok : Bool

module _ (codec : Codec) where
  open codec use {Contents, Text, to_string, from_slice, encode, decode}

  -- `tokio::fs::read` and `serde_json::from_slice`, with the errors that the caller maps to
  pub load :
      KeyValueStorageError
      → KeyValueStorageError
      → JsonFile codec
      → Result KeyValueStorageError (Dict Text)
  load unreadable malformed file = do
    contents ← ok_or file.contents unreadable
    ok_or (from_slice contents) malformed

  -- `serde_json::to_string` and `tokio::fs::write`
  pub store : {A : Type 0} → KeyValueStorageError → Dict Text → A → Method (JsonFile codec) A
  store failed items a file = elim (to_string items) [
    | none ↦ (err failed, file)
    | some c ↦
        if file.write_ok then (ok a, record file { contents = some c }) else (err failed, file)
  ]

  -- `Option::map(decode).transpose()`
  pub decoded : KeyValueStorageError → Option Text → Result KeyValueStorageError (Option Bytes)
  decoded failed none = ok none
  decoded failed (some text) = do bytes ← ok_or (decode text) failed; ok (some bytes)

  set_in :
      String
      → Bytes
      → SetParameters
      → Result KeyValueStorageError (Dict Text)
      → Method (JsonFile codec) (Unit {0})
  set_in key value parameters (ok items) file =
      if parameters.overwrite && is_some (Dict.get key items)
      then (err (set_key_failed key), file)
      else store (set_key_failed key) (Dict.insert key (encode value) items) tt file
  set_in key value parameters (err e) file = (err e, file)
  set_in key value parameters Result.panic file = (Result.panic, file)

  unfoldable pub set : String → Bytes → SetParameters → Method (JsonFile codec) (Unit {0})
  unfolding set_in load store
  set key value parameters file =
      set_in key value parameters (load (get_key_failed key) malformed_value file) file

  unfoldable pub get : String → Method (JsonFile codec) (Option Bytes)
  unfolding load decoded
  get key file = (
    do
      items ← load (get_key_failed key) malformed_value file
      decoded (get_key_failed key) (Dict.get key items),
    file,
  )

  unfoldable pub list : Method (JsonFile codec) (List String)
  unfolding load
  list file = (do items ← load list_keys_failed list_keys_failed file; ok (Dict.keys items), file)

  delete_in :
      String
      → Dict Text
      → Result KeyValueStorageError (Option Bytes)
      → Method (JsonFile codec) (Option Bytes)
  delete_in key items (ok value) file =
      store (delete_key_failed key) (Dict.remove key items) value file
  delete_in key items (err e) file = (err e, file)
  delete_in key items Result.panic file = (Result.panic, file)

  delete_from :
      String → Result KeyValueStorageError (Dict Text) → Method (JsonFile codec) (Option Bytes)
  unfolding delete_in
  delete_from key (ok items) file =
      delete_in key items (decoded (delete_key_failed key) (Dict.get key items)) file
  delete_from key (err e) file = (err e, file)
  delete_from key Result.panic file = (Result.panic, file)

  unfoldable pub delete : String → Method (JsonFile codec) (Option Bytes)
  unfolding delete_from load store decoded
  delete key file = delete_from key (load (get_key_failed key) (delete_key_failed key) file) file

  abbrev pub local_json : KeyValueStorage (JsonFile codec)
  local_json = record { set = set; list = list; get = get; delete = delete }
