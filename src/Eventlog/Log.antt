-- ===== src/Eventlog/Log.antt =====
-- The event log's data and errors: deps/eventlog/src/lib.rs. `scroll` (little-endian reads), the hash
-- functions and base64 are libraries, so they are fields of `Reader`, `Digest` and `Tools`.
use trustmee_artifact.Prelude.{
  Bytes, ℕ, ◌+◌, ◌≤◌, String, ◌≡◌, Bool, Option, some, List, length, Result,
}
use trustmee_artifact.Eventlog.TcgEnum.{TcgAlgorithm, TcgEventType, EventDataParser}

pub record ElDigest : Type 0 where
  pub alg : TcgAlgorithm
  pub digest : Bytes

-- `Details` is the source's `EventDetails`
pub record EventlogEntry (Details : Type 0) : Type 0 where
  pub details : Details
  pub digest_matches_event : Bool
  pub digests : List ElDigest
  pub event : String
  pub index : ℕ
  pub event_type : TcgEventType

pub record ReferenceMeasurement : Type 0 where
  pub index : ℕ
  pub algorithm : TcgAlgorithm
  pub reference : Bytes

-- the messages of `anyhow!` and `bail!`
pub data EventlogError : Type 0 where
  unsupported_digest_size unsupported_hash no_replay_match : EventlogError
  no_pcr_index no_event_type unknown_event_type no_event_size : EventlogError
  digest_range_overflow digest_data_out_of_bounds unexpected_size : EventlogError
  no_stop_flag no_registry data_too_short : EventlogError
  no_algorithm_count no_algorithm_id no_algorithm_size unknown_algorithm : EventlogError
  no_digest_count missing_digest_size comparison_unsupported bad_event : EventlogError

-- a streaming hash of the `digest` crate
pub record Digest : Type 1 where
  pub State : Type 0
  pub default : State
  pub update : State → Bytes → State
  pub finalize : State → Bytes

-- `gread_with`: the value read at an index, and the index behind it
pub record Reader : Type 0 where
  pub u16 : Bytes → ℕ → Option (ℕ × ℕ)
  pub u32 : Bytes → ℕ → Option (ℕ × ℕ)
  pub u64 : Bytes → ℕ → Option (ℕ × ℕ)

-- `parse` is the `EventDataParser::parse` of each parser
pub record Tools (Details : Type 0) : Type 1 where
  pub reader : Reader
  pub sha256 : Digest
  pub sha384 : Digest
  pub sha512 : Digest
  pub sm3 : Digest
  pub base64 : Bytes → String
  pub parse : EventDataParser → Bytes → Result EventlogError Details

-- what `scroll` documents of a read: it fails outside the data, and moves the index by the width
pub record ReaderLaws (reader : Reader) : Type 0 where
  pub u32_end :
      (bytes : Bytes) (i v j : ℕ)
      → reader.u32 bytes i ≡ some (v, j)
      → (j ≡ i + 4) × (j ≤ length bytes)
  pub u64_end :
      (bytes : Bytes) (i v j : ℕ)
      → reader.u64 bytes i ≡ some (v, j)
      → (j ≡ i + 8) × (j ≤ length bytes)
  pub u16_end :
      (bytes : Bytes) (i v j : ℕ)
      → reader.u16 bytes i ≡ some (v, j)
      → (j ≡ i + 2) × (j ≤ length bytes)
