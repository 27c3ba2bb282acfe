-- ===== src/Kvs/Contract.antt =====
-- What a key-value storage promises, as deps/key-value-storage/src/lib.rs documents the trait: a
-- partial map from keys to values, in which `overwrite` decides whether `set` replaces a value.
use trustmee_artifact.Prelude.{
  Bytes, String, ◌≡◌, Bool, false, ◌&&◌, ◌||◌, not, List, [], ◌∷◌, Option, none, some, ok, err,
  str_eq, if◌then◌else◌,
}
use trustmee_artifact.Prelude.Dict.{is_some}
use trustmee_artifact.Kvs.{KeyValueStorage, SetParameters, set_key_failed}

abbrev pub contains : List String → String → Bool
contains [] k = false
contains (j ∷ ks) k = str_eq j k || contains ks k

-- `set` writes if it may replace a value or there is none.
abbrev pub may_write : SetParameters → Option Bytes → Bool
may_write p old = p.overwrite || not (is_some old)

module _ {S : Type 0} (storage : KeyValueStorage S) (view : S → String → Option Bytes) where
  pub record IsMap : Type 0 where
    pub get_view : (s : S) (k : String) → storage.get k s ≡ (ok (view s k), s)
    pub set_result :
        (s : S) (k : String) (v : Bytes) (p : SetParameters)
        → (storage.set k v p s).0
          ≡ (if may_write p (view s k) then ok tt else err (set_key_failed k))
    pub set_view :
        (s : S) (k : String) (v : Bytes) (p : SetParameters) (j : String)
        → view (storage.set k v p s).1 j
          ≡ (if may_write p (view s k) && str_eq k j then some v else view s j)
    pub delete_result : (s : S) (k : String) → (storage.delete k s).0 ≡ ok (view s k)
    pub delete_view :
        (s : S) (k j : String)
        → view (storage.delete k s).1 j ≡ (if str_eq k j then none else view s j)
    pub list_view :
        (s : S)
        → (ks : List String) × (storage.list s ≡ (ok ks, s))
          × ((k : String) → contains ks k ≡ is_some (view s k))
