-- ===== src/Rvps/LocalJson.antt =====
-- rvps/src/storage/local_json/mod.rs: the reference values in one JSON file, as a list. serde_json is
-- in `Codec`. A call is modelled as one step, with no other call in between: the code drops the guard
-- of its lock where it takes it (`let _ =`).
pub mod Laws
use mathlib.Core.Option
use trustmee_artifact.Prelude.{
  String, ◌≡◌, Bool, true, Option, none, some, List, [], ◌∷◌, str_eq, if◌then◌else◌, Result, ok,
  err, panic, ◌>>=◌, ok_or,
}
use trustmee_artifact.Rvps.{RvpsError, storage_failed, ReferenceValue, ReferenceValueStorage}

-- `Contents` is what the file may hold
pub record Codec (Value : Type 0) : Type 1 where
  pub Contents : Type 0
  pub to_vec : List (ReferenceValue Value) → Option Contents
  pub from_slice : Contents → Option (List (ReferenceValue Value))

-- a list is written, and read back as it was
pub record CodecLaws {Value : Type 0} (codec : Codec Value) : Type 0 where
  pub to_vec_total :
      (rvs : List (ReferenceValue Value)) → (b : codec.Contents) × (codec.to_vec rvs ≡ some b)
  pub from-to :
      (rvs : List (ReferenceValue Value)) (b : codec.Contents)
      → codec.to_vec rvs ≡ some b
      → codec.from_slice b ≡ some rvs

-- the file, and whether the next operations of the system succeed
pub record JsonFile (Contents : Type 0) : Type 0 where
  pub contents : Contents
  pub read_ok : Bool
  pub write_ok : Bool

module _ {Value : Type 0} where
  -- `iter().find(|it| it.name == name)`
  unfoldable pub find : String → List (ReferenceValue Value) → Option (ReferenceValue Value)
  find name [] = none
  find name (it ∷ rvs) = let rest = find name rvs in if str_eq it.name name then some it else rest

  -- the value takes the place of the first of that name, or else is pushed
  unfoldable pub put :
      String → ReferenceValue Value → List (ReferenceValue Value) → List (ReferenceValue Value)
  put name rv [] = rv ∷ []
  put name rv (it ∷ rvs) =
      let rest = put name rv rvs in if str_eq it.name name then rv ∷ rvs else it ∷ rest

module _ {Value : Type 0} (codec : Codec Value) where
  abbrev pub File : Type 0
  File = JsonFile codec.Contents

  unfoldable pub load : File → Result RvpsError (List (ReferenceValue Value))
  load file =
      if file.read_ok
      then ok_or (codec.from_slice file.contents) storage_failed
      else err storage_failed

  unfoldable pub store : List (ReferenceValue Value) → File → Result RvpsError (Unit {0}) × File
  store rvs file = elim (codec.to_vec rvs) [
    | none ↦ (err storage_failed, file)
    | some contents ↦
        if file.write_ok
        then (ok tt, record file { contents = contents })
        else (err storage_failed, file)
  ]

  unfoldable pub set :
      String → ReferenceValue Value → File → Result RvpsError (Option (ReferenceValue Value)) × File
  set name rv file = elim (load file) [
    | err e ↦ (err e, file)
    | panic ↦ (panic, file)
    | ok rvs ↦
        let (done, after) = store (put name rv rvs) file in
        (done >>= λ _. ok (find name rvs), after)
  ]

  unfoldable pub get : String → File → Result RvpsError (Option (ReferenceValue Value)) × File
  get name file = (load file >>= λ rvs. ok (find name rvs), file)

  abbrev pub local_json : ReferenceValueStorage Value File
  local_json = record { set = set; get = get }

  -- a file that reads as a list, and can be written
  pub record IsGood (file : File) : Type 0 where
    pub values : List (ReferenceValue Value)
    pub readable : file.read_ok ≡ true
    pub writable : file.write_ok ≡ true
    pub reads : codec.from_slice file.contents ≡ some values

  -- the value of each name
  abbrev pub view : File → String → Option (ReferenceValue Value)
  view file name = Option.bind (codec.from_slice file.contents) (find name)
