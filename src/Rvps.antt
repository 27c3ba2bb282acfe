-- ===== src/Rvps.antt =====
-- rvps/src: the reference value provider (lib.rs, reference_value.rs, extractors/mod.rs and the trait
-- of storage/mod.rs). What serde_json reads of a message and what an extractor returns are parameters;
-- the clock is in nanoseconds and an expiration in whole seconds.
pub mod Laws
pub mod LocalJson
mod Tests
use trustmee_artifact.Prelude.{
  ℕ, ◌*◌, ◌/◌, String, Bool, Option, none, some, List, [], ◌∷◌, Result, ok, err, panic, ◌>>=◌,
  ok_or, guard, ltb, str_eq,
}
use trustmee_artifact.Prelude.Dict
use trustmee_artifact.Prelude.Dict.{Dict}
use mathlib.Core.Option

-- `Message`, with the default version filled in
pub record Message : Type 0 where
  pub version : String
  pub payload : String
  pub provenance : String

abbrev pub message_version : String
message_version = "0.1.0"

pub data RvpsError : Type 0 where
  parse_failed version_unmatched extraction_failed storage_failed time_failed : RvpsError
  no_extractor : String → RvpsError

-- the expiration is in whole seconds, to which `new`, `set_expiration` and the reader of the file hold
-- it; the time of the clock is in nanoseconds
pub record ReferenceValue (Value : Type 0) : Type 0 where
  pub version : String
  pub name : String
  pub expiration : ℕ
  pub value : Value

-- the trait `ReferenceValueStorage`, on a state `S`
pub record ReferenceValueStorage (Value S : Type 0) : Type 0 where
  pub set : String → ReferenceValue Value → S → Result RvpsError (Option (ReferenceValue Value)) × S
  pub get : String → S → Result RvpsError (Option (ReferenceValue Value)) × S

module _ {Value : Type 0} where
  -- `ReferenceValue::new` at the time `now`, with the addition of months
  unfoldable pub new : (ℕ → ℕ → Option ℕ) → Value → ℕ → Result RvpsError (ReferenceValue Value)
  new checked_add_months null now = do
    expiration ← ok_or (checked_add_months (now / 1000000000) 12) time_failed
    ok (record { version = "0.1.0"; name = ""; expiration = expiration; value = null })

  -- `ReferenceValue::expired` at the time `now`
  unfoldable pub expired : ReferenceValue Value → ℕ → Bool
  expired rv now = ltb (rv.expiration * 1000000000) now

  -- `Extractors::process`
  unfoldable pub process :
      Dict (String → Option (List (ReferenceValue Value)))
      → Message
      → Result RvpsError (List (ReferenceValue Value))
  process extractor_map message = elim (Dict.get message.provenance extractor_map) [
    | some extractor ↦ ok_or (extractor message.payload) extraction_failed
    | none ↦ err (no_extractor message.provenance)
  ]

  -- the values of a message, before they are stored
  unfoldable pub extract :
      (String → Option Message)
      → Dict (String → Option (List (ReferenceValue Value)))
      → String
      → Result RvpsError (List (ReferenceValue Value))
  extract from_str extractor_map text = do
    message ← ok_or (from_str text) parse_failed
    _ ← guard (str_eq message.version message_version) version_unmatched
    process extractor_map message

  module _ {S : Type 0} (storage : ReferenceValueStorage Value S) where
    -- the loop of `verify_and_extract`, which stops at the first error
    unfoldable pub set_all : List (ReferenceValue Value) → S → Result RvpsError (Unit {0}) × S
    set_all [] s = (ok tt, s)
    set_all (v ∷ rv) s =
        let (old, after) = storage.set v.name v s in
        let rest = set_all rv after in
        elim old [ ok _ ↦ rest | err e ↦ (err e, after) | panic ↦ (panic, after) ]

    unfoldable pub verify_and_extract :
        (String → Option Message)
        → Dict (String → Option (List (ReferenceValue Value)))
        → String
        → S
        → Result RvpsError (Unit {0}) × S
    verify_and_extract from_str extractor_map text s = elim (extract from_str extractor_map text) [
      | ok rv ↦ set_all rv s
      | err e ↦ (err e, s)
      | panic ↦ (panic, s)
    ]

    unfoldable pub query_reference_value : String → S → Result RvpsError (Option Value) × S
    query_reference_value reference_value_id s =
        let (found, after) = storage.get reference_value_id s in
        (found >>= λ rv. ok (Option.map (λ v. v.value) rv), after)
