-- ===== src/Rvps/Tests.antt =====
-- The provider over its JSON storage, with one extractor.
use mathlib.Core.Option
use trustmee_artifact.Prelude.{
  ℕ, ◌+◌, String, ◌≡◌, refl, true, Option, some, List, [], ◌∷◌, ok, err,
}
use trustmee_artifact.Prelude.Dict
use trustmee_artifact.Prelude.Dict.{Dict}
use trustmee_artifact.Rvps.{
  Message, version_unmatched, no_extractor, ReferenceValue, ReferenceValueStorage, new, expired,
  process, set_all, extract, verify_and_extract, query_reference_value,
}
use trustmee_artifact.Rvps.LocalJson.{
  Codec, CodecLaws, JsonFile, find, put, load, store, set, get, local_json, IsGood, view,
}
use trustmee_artifact.Rvps.LocalJson.Laws.{local_json-IsStore}
use trustmee_artifact.Rvps.Laws.{last_named, query_after_message}

-- the file holds the list itself
abbrev codec : Codec ℕ
codec = record { Contents = List (ReferenceValue ℕ); to_vec = some; from_slice = some }

codec-CodecLaws : CodecLaws codec
codec-CodecLaws = record { to_vec_total = λ rvs. (rvs, refl); from-to = λ rvs b e. cc }

abbrev storage : ReferenceValueStorage ℕ (JsonFile (List (ReferenceValue ℕ)))
storage = local_json codec

abbrev file : List (ReferenceValue ℕ) → JsonFile (List (ReferenceValue ℕ))
file rvs = record { contents = rvs; read_ok = true; write_ok = true }

file-IsGood : (rvs : List (ReferenceValue ℕ)) → IsGood codec (file rvs)
file-IsGood rvs = record { values = rvs; readable = refl; writable = refl; reads = refl }

-- a value that expires at once
abbrev old_value : ReferenceValue ℕ
old_value = record { version = "0.1.0"; name = "kernel"; expiration = 0; value = 1 }

abbrev new_value : ReferenceValue ℕ
new_value = record { version = "0.1.0"; name = "kernel"; expiration = 0; value = 2 }

abbrev from_str : String → Option Message
from_str text = some (record { version = text; payload = ""; provenance = "sample" })

abbrev extractors : Dict (String → Option (List (ReferenceValue ℕ)))
extractors = ("sample", λ payload. some (old_value ∷ new_value ∷ [])) ∷ []

steps : Unit {0}
unfolding new expired process set_all extract verify_and_extract query_reference_value Dict.get load
    store set get find put
steps = tt

extracted : extract from_str extractors "0.1.0" ≡ ok (old_value ∷ new_value ∷ [])
unfolding steps
extracted = refl

refused :
    verify_and_extract storage from_str extractors "0.2.0" (file [])
    ≡ (err version_unmatched, file [])
unfolding steps
refused = refl

unknown :
    verify_and_extract storage from_str [] "0.1.0" (file [])
    ≡ (err (no_extractor "sample"), file [])
unfolding steps
unknown = refl

-- an expired value is answered like any other
answered :
    (expired new_value 5 ≡ true)
    × ((query_reference_value storage "kernel" (file (new_value ∷ []))).0 ≡ ok (some 2))
unfolding steps
answered = (refl, refl)

made :
    new {Value = ℕ} (λ t months. some (t + months)) 0 2000000003
    ≡ ok (record { version = "0.1.0"; name = ""; expiration = 14; value = 0 })
unfolding steps
made = refl

query_after_message_example :
    ((verify_and_extract storage from_str extractors "0.1.0" (file [])).0 ≡ ok tt)
    × ((query_reference_value storage "kernel"
          (verify_and_extract storage from_str extractors "0.1.0" (file [])).1).0
        ≡ ok (
            Option.map
              (λ v. v.value)
              (last_named storage
                (view codec)
                (IsGood codec)
                (old_value ∷ new_value ∷ [])
                "kernel"
                (view codec (file []) "kernel"))))
query_after_message_example =
    query_after_message storage (view codec) (IsGood codec) from_str extractors "0.1.0"
      (old_value ∷ new_value ∷ []) "kernel" (file []) (local_json-IsStore codec codec-CodecLaws)
      (file-IsGood []) extracted
