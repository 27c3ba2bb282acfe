-- ===== src/Kvs/Memory.antt =====
-- deps/key-value-storage/src/memory.rs: `MemoryKeyValueStorage`, whose state is its map. Each
-- access takes the lock for itself; `set` without `overwrite` takes it twice.
pub mod Laws
use trustmee_artifact.Prelude.{
  Bytes, String, Bool, true, false, Result, ok, err, if◌then◌else◌, Option, List,
}
use trustmee_artifact.Prelude.Dict
use trustmee_artifact.Prelude.Dict.{Dict, is_some}
use trustmee_artifact.Kvs.{Method, KeyValueStorage, SetParameters, set_key_failed}

abbrev pub Items : Type 0
Items = Dict Bytes

-- `contains_key` under the read lock
unfoldable pub has_key : String → Items → Bool
has_key key items = is_some (Dict.get key items)

-- `insert` under the write lock
unfoldable pub write : String → Bytes → Method Items (Unit {0})
write key value items = (ok tt, Dict.insert key value items)

unfoldable pub set : String → Bytes → SetParameters → Method Items (Unit {0})
unfolding has_key write
set key value parameters items =
    if parameters.overwrite
    then write key value items
    else if has_key key items
    then (err (set_key_failed key), items)
    else write key value items

unfoldable pub list : Method Items (List String)
list items = (ok (Dict.keys items), items)

unfoldable pub get : String → Method Items (Option Bytes)
get key items = (ok (Dict.get key items), items)

unfoldable pub delete : String → Method Items (Option Bytes)
delete key items = (ok (Dict.get key items), Dict.remove key items)

abbrev pub memory : KeyValueStorage Items
memory = record { set = set; list = list; get = get; delete = delete }
