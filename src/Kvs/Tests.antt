-- ===== src/Kvs/Tests.antt =====
-- Tests of the storage backends, and the theorems at inputs that meet their hypotheses.
use trustmee_artifact.Prelude.{
  Bytes, String, List, ◌||◌, ◌≡◌, refl, true, false, none, some, [], ◌∷◌, str_eq, if◌then◌else◌, ok,
  err,
}
use trustmee_artifact.Prelude.Dict
use trustmee_artifact.Prelude.Dict.{Dict}
use trustmee_artifact.Kvs.{SetParameters, set_key_failed, is_valid_key, is_valid_char}
use trustmee_artifact.Kvs.Memory
use trustmee_artifact.Kvs.Memory.{Items}
use trustmee_artifact.Kvs.Memory.Laws.{view, set_race}
use trustmee_artifact.Kvs.LocalJson
use trustmee_artifact.Kvs.LocalJson.{Codec, CodecLaws, JsonFile}
use trustmee_artifact.Kvs.LocalJson.Laws as JsonLaws
use trustmee_artifact.Kvs.LocalJson.Laws.{IsGood}
use trustmee_artifact.Kvs.LocalFs
use trustmee_artifact.Kvs.LocalFs.{Directory, escape, exists, unescape}
use trustmee_artifact.Kvs.LocalFs.Laws as FsLaws
use trustmee_artifact.Kvs.LocalFs.Laws.{IsUsable}
use trustmee_artifact.Kvs.LocalFs.Listing.{list-set_fs}
use trustmee_artifact.Kvs.Contract.{contains}

abbrev keep : SetParameters
keep = record { overwrite = false }

abbrev shelf : Items
shelf = ("a", 1 ∷ []) ∷ []

set_race_example :
    (Memory.set "b" (2 ∷ []) keep shelf ≡ Memory.write "b" (2 ∷ []) shelf)
    × (Memory.set "b" (3 ∷ []) keep shelf ≡ Memory.write "b" (3 ∷ []) shelf)
    × ((Memory.write "b" (2 ∷ []) shelf).0 ≡ ok tt)
    × ((Memory.write "b" (3 ∷ []) (Memory.write "b" (2 ∷ []) shelf).1).0 ≡ ok tt)
    × (view (Memory.write "b" (3 ∷ []) (Memory.write "b" (2 ∷ []) shelf).1).1 "b" ≡ some (3 ∷ []))
    × ((Memory.set "b" (3 ∷ []) keep (Memory.set "b" (2 ∷ []) keep shelf).1).0
        ≡ err (set_key_failed "b"))
    × (view (Memory.set "b" (3 ∷ []) keep (Memory.set "b" (2 ∷ []) keep shelf).1).1 "b"
        ≡ some (2 ∷ []))
unfolding Dict.get Memory.has_key
set_race_example = set_race "b" (2 ∷ []) (3 ∷ []) keep shelf refl refl

-- A codec that meets the laws: the map is its own text.
abbrev plain : Codec
plain = record {
  Contents = Dict Bytes;
  Text = Bytes;
  to_string = some;
  from_slice = some;
  encode = λ b. b;
  decode = some;
}

plain-CodecLaws : CodecLaws plain
plain-CodecLaws = record {
  to_string_total = λ m. (m, refl);
  from-to = λ m c e. (m, cc, λ k. refl);
  decode-encode = λ b. refl;
}

abbrev json_file : JsonFile plain
json_file = record { contents = some shelf; write_ok = true }

json_file-IsGood : IsGood plain shelf json_file
json_file-IsGood = record { contents = shelf; readable = refl; parsed = refl; writable = refl }

json_get-set_example :
    ((LocalJson.set plain "b" (2 ∷ []) keep json_file).0 ≡ ok tt)
    × ((LocalJson.get plain "a" (LocalJson.set plain "b" (2 ∷ []) keep json_file).1).0
        ≡ (if str_eq "b" "a" then ok (some (2 ∷ [])) else (LocalJson.get plain "a" json_file).0))
json_get-set_example =
    JsonLaws.get-set_json plain plain-CodecLaws shelf "b" "a" (2 ∷ []) keep json_file
      json_file-IsGood refl

json_set_inverted_example :
    (LocalJson.set plain "a" (2 ∷ []) (record { overwrite = true }) json_file
      ≡ (err (set_key_failed "a"), json_file))
    × ((LocalJson.set plain "a" (2 ∷ []) (record { overwrite = false }) json_file).0 ≡ ok tt)
    × ((LocalJson.get plain "a"
          (LocalJson.set plain "a" (2 ∷ []) (record { overwrite = false }) json_file).1).0
        ≡ ok (some (2 ∷ [])))
unfolding Dict.get
json_set_inverted_example =
    JsonLaws.set_inverted plain plain-CodecLaws shelf "a" (2 ∷ []) json_file json_file-IsGood refl

abbrev directory : Directory
directory = record {
  files = ("a", 1 ∷ []) ∷ [];
  read_ok = λ _. true;
  write_ok = λ _. true;
  remove_ok = λ _. true;
  list_ok = true;
}

escape_test : escape "default/1" ≡ "default\\x2F1"
unfolding escape
escape_test = refl

unescape_test : unescape "a\\x2Fb\\x2" ≡ "a/b\\x2"
unfolding unescape
unescape_test = refl

a-IsUsable : IsUsable directory "a"
unfolding is_valid_key is_valid_char escape LocalFs.is_directory
a-IsUsable = record { valid = refl; own_file = refl; readable = refl; writable = refl }

slashed-IsUsable : IsUsable directory "x/y"
unfolding is_valid_key is_valid_char escape LocalFs.is_directory
slashed-IsUsable = record { valid = refl; own_file = refl; readable = refl; writable = refl }

list-set_fs_example :
    (before after : List String) × ((LocalFs.list directory).0 ≡ ok before)
    × ((LocalFs.list (LocalFs.set "x/y" (2 ∷ []) (record { overwrite = true }) directory).1).0
        ≡ ok after)
    × (contains after "x/y" ≡ (str_eq "x/y" "x/y" || contains before "x/y"))
list-set_fs_example = list-set_fs "x/y" "x/y" (2 ∷ []) directory slashed-IsUsable refl

fs_get-set_example :
    ((LocalFs.set "x/y" (2 ∷ []) (record { overwrite = true }) directory).0 ≡ ok tt)
    × ((LocalFs.get "a" (LocalFs.set "x/y" (2 ∷ []) (record { overwrite = true }) directory).1).0
        ≡ (if str_eq "x/y" "a" then ok (some (2 ∷ [])) else (LocalFs.get "a" directory).0))
fs_get-set_example = FsLaws.get-set_fs "x/y" "a" (2 ∷ []) directory slashed-IsUsable a-IsUsable

set_failed_writes_example :
    ((LocalFs.set "x/y" (2 ∷ []) keep directory).0 ≡ err (set_key_failed "x/y"))
    × ((LocalFs.get "x/y" directory).0 ≡ ok none)
    × ((LocalFs.get "x/y" (LocalFs.set "x/y" (2 ∷ []) keep directory).1).0 ≡ ok (some (2 ∷ [])))
unfolding exists escape Dict.get
set_failed_writes_example = FsLaws.set_failed_writes "x/y" (2 ∷ []) directory slashed-IsUsable refl
