-- ===== src/Kvs/Memory/Laws.antt =====
-- The memory backend keeps the contract of the trait when its calls do not overlap, and breaks it
-- when two calls of `set` do.
use trustmee_artifact.Prelude.{
  Bytes, String, ◌≡◌, refl, false, Option, some, [], ◌∷◌, ok, err, arith, eq_iff,
}
use trustmee_artifact.Prelude.Dict
use trustmee_artifact.Prelude.Dict.{Dict, is_some, get-insert, get-remove}
use trustmee_artifact.Kvs.{SetParameters, set_key_failed}
use trustmee_artifact.Kvs.Contract.{contains, IsMap}
use trustmee_artifact.Kvs.Memory.{Items, has_key, write, set, list, get, delete, memory}

abbrev pub view : Items → String → Option Bytes
view items key = Dict.get key items

contains-keys : (items : Items) (k : String) → contains (Dict.keys items) k ≡ is_some (view items k)
unfolding Dict.keys Dict.get
contains-keys [] k = refl
contains-keys ((j, v) ∷ items) k = ground (arith, contains-keys items k)

-- The memory backend is the map of the contract: each of its operations returns and leaves what
-- the contract says, on every branch.
pub memory-IsMap : IsMap memory view
unfolding set has_key write list get delete
memory-IsMap = record {
  get_view = λ s k. refl;
  set_result = λ s k v p. ground arith;
  set_view = λ s k v p j. ground (arith, get-insert k j v s);
  delete_result = λ s k. refl;
  delete_view = λ s k j. get-remove k j s;
  list_view = λ s. (Dict.keys s, refl, contains-keys s);
}

-- Two tasks set the same key without `overwrite`, and both look for it, and do not find it, before
-- either writes. From there `set` is its write for both, both writes succeed, and the second value
-- replaces the first; if the second task looks only after the first has written, it fails and the
-- first value stays.
pub set_race :
    (key : String) (v w : Bytes) (p : SetParameters) (items : Items)
    → p.overwrite ≡ false
    → has_key key items ≡ false
    → (set key v p items ≡ write key v items)
      × (set key w p items ≡ write key w items)
      × ((write key v items).0 ≡ ok tt)
      × ((write key w (write key v items).1).0 ≡ ok tt)
      × (view (write key w (write key v items).1).1 key ≡ some w)
      × ((set key w p (set key v p items).1).0 ≡ err (set_key_failed key))
      × (view (set key w p (set key v p items).1).1 key ≡ some v)
unfolding set has_key write
set_race key v w p items no_overwrite new = (
  ground arith,
  ground arith,
  refl,
  refl,
  ground (arith, eq_iff key key, get-insert key key w (Dict.insert key v items)),
  ground (arith, eq_iff key key, get-insert key key v items),
  ground (arith, eq_iff key key, get-insert key key v items),
)
