-- ===== src/Eventlog/Replay.antt =====
-- Replaying the log into the measurement registers: `replay_and_match` and what it calls, in
-- deps/eventlog/src/lib.rs, and `compare_digests` of ccel/mod.rs. A `HashMap` is a function to Option.
pub mod Registers
use trustmee_artifact.Prelude.{
  same_bytes, Bytes, ℕ, ◌≡◌, Bool, true, false, Option, none, some, List, [], ◌∷◌, ◌++◌, ◌==◌,
  if◌then◌else◌, replicate, Result, ok, err, ◌>>=◌, ◌>>◌, ok_or,
}
use trustmee_artifact.Eventlog.TcgEnum
use trustmee_artifact.Eventlog.TcgEnum.{TcgAlgorithm, same, get_digest_size}
use trustmee_artifact.Eventlog.Log.{
  ElDigest, EventlogEntry, ReferenceMeasurement, EventlogError, unsupported_digest_size,
  unsupported_hash, no_replay_match, comparison_unsupported, Digest, Tools,
}

abbrev pub DigestMap : Type 0
DigestMap = ℕ → Option (List ElDigest)

-- `or_default`
abbrev pub or_default : Option (List ElDigest) → List ElDigest
or_default none = []
or_default (some digests) = digests

unfoldable pub hash_with : (d : Digest) → Bytes → Bytes → Bytes
hash_with d materials digest = d.finalize (d.update (d.update d.default materials) digest)

unfoldable pub filter_alg : TcgAlgorithm → List ElDigest → List ElDigest
filter_alg alg [] = []
filter_alg alg (d ∷ ds) = if same d.alg alg then d ∷ filter_alg alg ds else filter_alg alg ds

module _ {Details : Type 0} where
  -- one turn of the loop of `collect_digests_by_index`
  unfoldable pub push_entry : DigestMap → EventlogEntry Details → DigestMap
  push_entry result entry i =
      if i == entry.index then some (or_default (result i) ++ entry.digests) else result i

  unfoldable pub collect_from : DigestMap → List (EventlogEntry Details) → DigestMap
  collect_from result [] = result
  collect_from result (entry ∷ ccel) = collect_from (push_entry result entry) ccel

  unfoldable pub collect_digests_by_index : List (EventlogEntry Details) → DigestMap
  collect_digests_by_index ccel = collect_from (λ i. none) ccel

module _ {Details : Type 0} (tools : Tools Details) where
  unfoldable pub accumulate_hash : TcgAlgorithm → Bytes → Bytes → Result EventlogError Bytes
  accumulate_hash TcgEnum.sha256 materials digest = ok (hash_with tools.sha256 materials digest)
  accumulate_hash TcgEnum.sha384 materials digest = ok (hash_with tools.sha384 materials digest)
  accumulate_hash TcgEnum.sha512 materials digest = ok (hash_with tools.sha512 materials digest)
  accumulate_hash TcgEnum.sm3 materials digest = ok (hash_with tools.sm3 materials digest)
  accumulate_hash TcgEnum.sha1 materials digest = err unsupported_hash
  accumulate_hash TcgEnum.rsa materials digest = err unsupported_hash
  accumulate_hash TcgEnum.tdes materials digest = err unsupported_hash

  -- the loop of `replay`
  unfoldable pub accumulate_all : TcgAlgorithm → Bytes → List ElDigest → Result EventlogError Bytes
  accumulate_all alg materials [] = ok materials
  accumulate_all alg materials (d ∷ ds) =
      accumulate_hash alg materials d.digest >>= λ next. accumulate_all alg next ds

  -- the `if let` of `replay`
  unfoldable pub accumulate_digests :
      TcgAlgorithm → Bytes → Option (List ElDigest) → Result EventlogError Bytes
  accumulate_digests alg materials none = ok materials
  accumulate_digests alg materials (some digests) =
      accumulate_all alg materials (filter_alg alg digests)

  unfoldable pub replay : DigestMap → ℕ → TcgAlgorithm → Result EventlogError Bytes
  replay digest_map index alg =
      ok_or (get_digest_size alg) unsupported_digest_size >>= λ digest_size.
      accumulate_digests alg (replicate digest_size 0) (digest_map index)

  -- the loop of `replay_and_match`
  unfoldable pub match_all : DigestMap → List ReferenceMeasurement → Result EventlogError (Unit {0})
  match_all digest_map [] = ok tt
  match_all digest_map (item ∷ data') =
      replay digest_map item.index item.algorithm >>= λ calculated.
      if same_bytes calculated item.reference
      then match_all digest_map data'
      else err no_replay_match

  unfoldable pub replay_and_match :
      List (EventlogEntry Details) → List ReferenceMeasurement → Result EventlogError (Unit {0})
  replay_and_match log references = match_all (collect_digests_by_index log) references

  -- `D::digest`
  unfoldable pub digest_of : TcgAlgorithm → Bytes → Option Bytes
  digest_of TcgEnum.sha256 bytes =
      some (tools.sha256.finalize (tools.sha256.update tools.sha256.default bytes))
  digest_of TcgEnum.sha384 bytes =
      some (tools.sha384.finalize (tools.sha384.update tools.sha384.default bytes))
  digest_of TcgEnum.sha512 bytes =
      some (tools.sha512.finalize (tools.sha512.update tools.sha512.default bytes))
  digest_of TcgEnum.sm3 bytes = some (tools.sm3.finalize (tools.sm3.update tools.sm3.default bytes))
  digest_of TcgEnum.sha1 bytes = none
  digest_of TcgEnum.rsa bytes = none
  digest_of TcgEnum.tdes bytes = none

  unfoldable pub compare_digests : Bytes → List ElDigest → Result EventlogError Bool
  compare_digests bytes [] = ok true
  compare_digests bytes (d ∷ ds) =
      ok_or (digest_of d.alg bytes) comparison_unsupported >>= λ computed.
      if same_bytes computed d.digest then compare_digests bytes ds else ok false
