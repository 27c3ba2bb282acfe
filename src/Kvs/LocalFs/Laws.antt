-- ===== src/Kvs/LocalFs/Laws.antt =====
-- What the file backend writes is read back, and its `set` without `overwrite` never succeeds.
use trustmee_artifact.Prelude.{
  Bytes, String, ◌≡◌, true, false, none, some, arith, str_eq, eq_iff, if◌then◌else◌, ok, err,
}
use trustmee_artifact.Prelude.Dict.{get-insert, get-remove}
use trustmee_artifact.Kvs.{set_key_failed, is_valid_key}
use trustmee_artifact.Kvs.LocalFs.{
  Directory, is_directory, exists, read, write, escape, set, get, delete,
}
use trustmee_artifact.Kvs.LocalFs.Names.{escape_eq}

-- A key that has a file of its own, which can be read and written
pub record IsUsable (dir : Directory) (key : String) : Type 0 where
  pub valid : is_valid_key key ≡ true
  pub own_file : is_directory (escape key) ≡ false
  pub readable : dir.read_ok (escape key) ≡ true
  pub writable : dir.write_ok (escape key) ≡ true

-- For a usable key `set` with `overwrite` succeeds. Afterwards `get` returns the value for the key,
-- and for another usable key what it returned before.
pub get-set_fs :
    (key j : String) (value : Bytes) (dir : Directory)
    → IsUsable dir key
    → IsUsable dir j
    → ((set key value (record { overwrite = true }) dir).0 ≡ ok tt)
      × ((get j (set key value (record { overwrite = true }) dir).1).0
          ≡ (if str_eq key j then ok (some value) else (get j dir).0))
unfolding set get exists read write
get-set_fs key j value dir u uj = (
  ground arith,
  ground (
    arith,
    get-insert (escape key) (escape j) value dir.files,
    escape_eq key j u.valid uj.valid,
    eq_iff key j,
  ),
)

-- Without `overwrite` `set` reports failure, whatever the key and the directory.
pub set_always_fails :
    (key : String) (value : Bytes) (dir : Directory)
    → (set key value (record { overwrite = false }) dir).0 ≡ err (set_key_failed key)
unfolding set exists write
set_always_fails key value dir =
    ground (
      arith,
      get-insert (escape key) (escape key) value dir.files,
      eq_iff (escape key) (escape key),
    )

-- For a usable key that has no file, the `set` without `overwrite` that reports failure has written
-- the value all the same: `get` finds nothing before it and the value after it.
pub set_failed_writes :
    (key : String) (value : Bytes) (dir : Directory)
    → IsUsable dir key
    → exists (escape key) dir ≡ false
    → ((set key value (record { overwrite = false }) dir).0 ≡ err (set_key_failed key))
      × ((get key dir).0 ≡ ok none)
      × ((get key (set key value (record { overwrite = false }) dir).1).0 ≡ ok (some value))
unfolding set get exists read write
set_failed_writes key value dir u new = (
  set_always_fails key value dir,
  ground arith,
  ground (
    arith,
    get-insert (escape key) (escape key) value dir.files,
    eq_iff (escape key) (escape key),
  ),
)

-- A deleted key is gone: `delete` of a usable key returns what `get` returned, and a later `get`
-- finds nothing, if the file can be removed.
pub get-delete_fs :
    (key : String) (dir : Directory)
    → IsUsable dir key
    → dir.remove_ok (escape key) ≡ true
    → ((delete key dir).0 ≡ (get key dir).0) × ((get key (delete key dir).1).0 ≡ ok none)
unfolding delete get exists read
get-delete_fs key dir u removable = (
  ground arith,
  ground (arith, get-remove (escape key) (escape key) dir.files, eq_iff (escape key) (escape key)),
)
