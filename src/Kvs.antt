-- ===== src/Kvs.antt =====
-- deps/key-value-storage/src/lib.rs and error.rs: the storage trait, its errors and its parameters.
-- The `source` of an error is a message, which no code reads, and is left out.
pub mod Contract
mod Tests
pub mod Memory
pub mod LocalFs
pub mod LocalJson
use Prim.Native.Char.{code}
use Prim.Native.String.{[], ◌∷◌}
use trustmee_artifact.Prelude.{
  Bytes, ℕ, String, Bool, true, ◌&&◌, ◌||◌, List, Option, Result, leb, ◌==◌,
}

pub data KeyValueStorageError : Type 0 where
  set_key_failed : String → KeyValueStorageError
  get_key_failed : String → KeyValueStorageError
  list_keys_failed : KeyValueStorageError
  delete_key_failed : String → KeyValueStorageError
  initialize_backend_failed : KeyValueStorageError
  malformed_value : KeyValueStorageError

pub record SetParameters : Type 0 where
  pub overwrite : Bool

-- A method of a backend, whose state is `S`: what it returns and the state that it leaves.
abbrev pub Method : Type 0 → Type 0 → Type 0
Method S A = S → Result KeyValueStorageError A × S

pub record KeyValueStorage (S : Type 0) : Type 0 where
  pub set : String → Bytes → SetParameters → Method S (Unit {0})
  pub list : Method S (List String)
  pub get : String → Method S (Option Bytes)
  pub delete : String → Method S (Option Bytes)

is_ascii_alphanumeric : ℕ → Bool
is_ascii_alphanumeric c =
    (leb b'0' c && leb c b'9') || (leb b'A' c && leb c b'Z') || (leb b'a' c && leb c b'z')

unfoldable pub is_valid_char : ℕ → Bool
unfolding is_ascii_alphanumeric
is_valid_char c = is_ascii_alphanumeric c || c == b'-' || c == b'_' || c == b'.' || c == b'/'

unfoldable pub is_valid_key : String → Bool
is_valid_key [] = true
is_valid_key (c ∷ key) = is_valid_char (code c) && is_valid_key key
