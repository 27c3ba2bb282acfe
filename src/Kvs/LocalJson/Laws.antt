-- ===== src/Kvs/LocalJson/Laws.antt =====
-- What the JSON backend writes is read back, and its `set` reads `overwrite` the other way round
-- from the contract.
use trustmee_artifact.Prelude.{
  Bytes, String, false, true, ◌≡◌, refl, ok, err, Result, some, arith, str_eq, eq_iff, inl, inr,
  Bool-cases, if◌then◌else◌, ◌&&◌,
}
use mathlib.Core.Path.{subst⁻¹}
use trustmee_artifact.Prelude.Dict
use trustmee_artifact.Prelude.Dict.{Dict, is_some, get-insert, get-remove}
use trustmee_artifact.Kvs.{KeyValueStorageError, SetParameters, set_key_failed, get_key_failed}
use trustmee_artifact.Kvs.LocalJson.{Codec, CodecLaws, JsonFile, load, store, decoded, set, get}

-- A file that reads as `items` and can be written
pub record IsGood (codec : Codec) (items : Dict codec.Text) (file : JsonFile codec) : Type 0 where
  pub contents : codec.Contents
  pub readable : file.contents ≡ some contents
  pub parsed : codec.from_slice contents ≡ some items
  pub writable : file.write_ok ≡ true

module _ (codec : Codec) where
  open codec use {Contents, Text, to_string}

  store_lem :
      {A : Type 0} (e : KeyValueStorageError) (m : Dict Text) (a : A) (file : JsonFile codec)
      (c : Contents)
      → to_string m ≡ some c
      → file.write_ok ≡ true
      → store codec e m a file ≡ (ok a, record { contents = some c; write_ok = true })
  unfolding store
  store_lem e m a file c written writable = ground arith

  load_lem :
      (e f : KeyValueStorageError) (items : Dict Text) (file : JsonFile codec)
      → IsGood codec items file
      → load codec e f file ≡ ok items
  unfolding load
  load_lem e f items file good = rw (good.readable, good.parsed)

module _ (codec : Codec) (laws : CodecLaws codec) where
  open codec use {Contents, Text, to_string, encode}

  -- After a store the file is good for a map with the entries stored.
  abbrev Stored :
      {A : Type 0} → A → Dict Text → Result KeyValueStorageError A × JsonFile codec → Type 0
  Stored a m r =
      (r.0 ≡ ok a)
      × ((m' : Dict Text) × IsGood codec m' r.1 × ((k : String) → Dict.get k m' ≡ Dict.get k m))

  store-Stored :
      {A : Type 0} (e : KeyValueStorageError) (m : Dict Text) (a : A) (file : JsonFile codec)
      → file.write_ok ≡ true
      → Stored a m (store codec e m a file)
  store-Stored e m a file writable =
      let (c, written) = laws.to_string_total m in
      let (m', parsed, same) = laws.from-to m c written in
      subst⁻¹ (Stored a m) (store_lem codec e m a file c written writable) (
        refl,
        (m', record { contents = c; readable = refl; parsed = parsed; writable = refl }, same),
      )

  -- `set` on a good file: it fails exactly if `overwrite` is asked for and the key is there.
  set-writes :
      (items : Dict Text) (key : String) (value : Bytes) (p : SetParameters) (file : JsonFile codec)
      → IsGood codec items file
      → (p.overwrite && is_some (Dict.get key items)) ≡ false
      → Stored tt (Dict.insert key (encode value) items) (set codec key value p file)
  unfolding set
  set-writes items key value p file good allowed =
      rw (load_lem codec _ _ items file good, allowed)
        (store-Stored _ (Dict.insert key (encode value) items) tt file good.writable)

  get-good :
      (items : Dict Text) (key : String) (file : JsonFile codec)
      → IsGood codec items file
      → (get codec key file).0 ≡ decoded codec (get_key_failed key) (Dict.get key items)
  unfolding get
  get-good items key file good = rw (load_lem codec _ _ items file good)

  decoded_encode :
      (e : KeyValueStorageError) (value : Bytes)
      → decoded codec e (some (encode value)) ≡ ok (some value)
  unfolding decoded
  decoded_encode e value = rw (laws.decode-encode value)

  -- On a file that reads and can be written, `set` succeeds unless `overwrite` is asked for and the
  -- key is present. Afterwards `get` returns the value for the key, and for another key what it
  -- returned before.
  pub get-set_json :
      (items : Dict Text) (key j : String) (value : Bytes) (p : SetParameters)
      (file : JsonFile codec)
      → IsGood codec items file
      → (p.overwrite && is_some (Dict.get key items)) ≡ false
      → ((set codec key value p file).0 ≡ ok tt)
        × ((get codec j (set codec key value p file).1).0
            ≡ (if str_eq key j then ok (some value) else (get codec j file).0))
  get-set_json items key j value p file good allowed =
      let (done, (m', good', same)) = set-writes items key value p file good allowed in
      (
        done,
        rw
            (
              get-good m' j _ good',
              get-good items j file good,
              same j,
              get-insert key j (encode value) items,
            )
            pick,
      )
    where
      pick :
          decoded codec
            (get_key_failed j)
            (if str_eq key j then some (encode value) else Dict.get j items)
          ≡ (if str_eq key j
              then ok (some value)
              else decoded codec (get_key_failed j) (Dict.get j items))
      pick = elim (Bool-cases (str_eq key j)) [
        | inl same ↦ rw same (decoded_encode (get_key_failed j) value)
        | inr other ↦ rw other
      ]

  -- The flag is read the other way round. For a key that is present, `set` with `overwrite` fails
  -- and leaves the file, and `set` without it succeeds and replaces the value.
  pub set_inverted :
      (items : Dict Text) (key : String) (value : Bytes) (file : JsonFile codec)
      → IsGood codec items file
      → is_some (Dict.get key items) ≡ true
      → (set codec key value (record { overwrite = true }) file ≡ (err (set_key_failed key), file))
        × ((set codec key value (record { overwrite = false }) file).0 ≡ ok tt)
        × ((get codec key (set codec key value (record { overwrite = false }) file).1).0
            ≡ ok (some value))
  unfolding set
  set_inverted items key value file good present =
      let (done, reads) =
        get-set_json items key key value (record { overwrite = false }) file good refl in
      (
        rw (load_lem codec _ _ items file good, present),
        done,
        unfold set in rw ((eq_iff key key).1 refl) at reads,
      )
