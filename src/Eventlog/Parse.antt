-- ===== src/Eventlog/Parse.antt =====
-- Parsing the log: `CcEventLog::try_from`, `parse_initial_entry`, `parse_eventlog_entry`,
-- `parse_digest_sizes` and `parse_digests` of deps/eventlog/src/lib.rs. A read `data[a..b]` outside the
-- data is `panic`.
pub mod Bounds
pub mod Truncated
use trustmee_artifact.Prelude.{
  or_panic, slice, Bytes, ℕ, zero, suc, ◌+◌, ◌-◌, ◌^◌, ◌≡◌, Bool, true, false, ◌||◌, Option, none,
  some, List, [], ◌∷◌, ltb, ◌==◌, if◌then◌else◌, length, get_elem?, Result, ok, err, panic, ◌>>=◌,
  ◌>>◌, ok_or, guard,
}
use mathlib.Core.Option
use trustmee_artifact.Eventlog.TcgEnum.{
  TcgAlgorithm, TcgEventType, ev_no_action, same, event_type_code, event_type_try_from,
  algorithm_try_from, get_parser,
}
use trustmee_artifact.Eventlog.Log.{
  ElDigest, EventlogEntry, EventlogError, no_pcr_index, no_event_type, unknown_event_type,
  no_event_size, digest_range_overflow, digest_data_out_of_bounds, unexpected_size, no_stop_flag,
  no_registry, data_too_short, no_algorithm_count, no_algorithm_id, no_algorithm_size,
  unknown_algorithm, no_digest_count, missing_digest_size, Tools,
}
use trustmee_artifact.Eventlog.Replay.{compare_digests}

-- the `HashMap<TcgAlgorithm, u16>`
abbrev pub DigestSizes : Type 0
DigestSizes = TcgAlgorithm → Option ℕ

abbrev pub insert_size : TcgAlgorithm → ℕ → DigestSizes → DigestSizes
insert_size algorithm size sizes a = if same a algorithm then some size else sizes a

module _ {Details : Type 0} (tools : Tools Details) where
  -- the loop of `parse_digest_sizes`
  unfoldable pub digest_sizes_from :
      ℕ → Bytes → ℕ → DigestSizes → Result EventlogError (ℕ × DigestSizes)
  digest_sizes_from zero bytes i sizes = ok (i, sizes)
  digest_sizes_from (suc algo_size) bytes i sizes =
      ok_or (tools.reader.u16 bytes i) no_algorithm_id >>= λ algo_id.
      ok_or (tools.reader.u16 bytes algo_id.1) no_algorithm_size >>= λ size.
      ok_or (algorithm_try_from algo_id.0) unknown_algorithm >>= λ algorithm.
      digest_sizes_from algo_size bytes size.1 (insert_size algorithm size.0 sizes)

  unfoldable pub parse_digest_sizes : Bytes → DigestSizes → Result EventlogError (ℕ × DigestSizes)
  parse_digest_sizes bytes sizes =
      ok_or (tools.reader.u32 bytes 24) no_algorithm_count >>= λ algo_size.
      digest_sizes_from algo_size.0 bytes algo_size.1 sizes >>= λ done.
      or_panic (get_elem? bytes done.0) >>= λ vendor_size. ok (done.0 + (vendor_size + 1), done.1)

  -- `parse_initial_entry` from the test for EV_NO_ACTION, for a 64-bit `usize`
  unfoldable pub initial_sizes :
      TcgEventType → Bytes → ℕ → ℕ → DigestSizes → Result EventlogError (ℕ × DigestSizes)
  initial_sizes event_type bytes start size sizes =
      if event_type_code event_type == event_type_code ev_no_action
      then (guard (ltb (start + size) (2 ^ 64)) digest_range_overflow
          >> (ok_or (slice bytes start (start + size)) digest_data_out_of_bounds >>= λ digest_data.
              parse_digest_sizes digest_data sizes >>= λ done.
              guard (done.0 == size) unexpected_size >> ok (start + size, done.1)))
      else ok (start, sizes)

  unfoldable pub parse_initial_entry :
      Bytes → ℕ → DigestSizes → Result EventlogError (ℕ × DigestSizes)
  parse_initial_entry bytes i sizes = ok_or (tools.reader.u32 bytes i) no_pcr_index >>= λ pcr_index.
      ok_or (tools.reader.u32 bytes pcr_index.1) no_event_type >>= λ event_type_num.
      ok_or (event_type_try_from event_type_num.0) unknown_event_type >>= λ event_type.
      ok_or (tools.reader.u32 bytes (event_type_num.1 + 20)) no_event_size >>= λ event_data_size.
      initial_sizes event_type bytes event_data_size.1 event_data_size.0 sizes

  -- the loop of `parse_digests`
  unfoldable pub digests_from :
      ℕ → Bytes → ℕ → DigestSizes → Result EventlogError (List ElDigest × ℕ)
  digests_from zero bytes i sizes = ok ([], i)
  digests_from (suc digest_count) bytes i sizes =
      ok_or (tools.reader.u16 bytes i) no_algorithm_id >>= λ algo_id.
      ok_or (algorithm_try_from algo_id.0) unknown_algorithm >>= λ algorithm.
      ok_or (sizes algorithm) missing_digest_size >>= λ size.
      or_panic (slice bytes algo_id.1 (algo_id.1 + size)) >>= λ digest.
      digests_from digest_count bytes (algo_id.1 + size) sizes >>= λ rest.
      ok (record { alg = algorithm; digest = digest } ∷ rest.0, rest.1)

  unfoldable pub parse_digests : Bytes → ℕ → DigestSizes → Result EventlogError (List ElDigest × ℕ)
  parse_digests bytes i sizes = ok_or (tools.reader.u32 bytes i) no_digest_count >>= λ digest_count.
      digests_from digest_count.0 bytes digest_count.1 sizes

  -- `parse_eventlog_entry` from the size of the event's data
  unfoldable pub parse_event_data :
      ℕ
      → TcgEventType
      → List ElDigest
      → Bytes
      → ℕ
      → Result EventlogError (EventlogEntry Details × ℕ)
  parse_event_data registry event_type digests bytes i =
      ok_or (tools.reader.u32 bytes i) no_event_size >>= λ size.
      (if ltb (length bytes) size.0 then err data_too_short else ok tt)
      >> (or_panic (slice bytes size.1 (size.1 + size.0)) >>= λ raw.
          compare_digests tools raw digests >>= λ digest_matches_event.
          tools.parse (get_parser event_type) raw >>= λ details. ok (
            record {
              details = details;
              digest_matches_event = digest_matches_event;
              digests = digests;
              event = tools.base64 raw;
              index = registry;
              event_type = event_type;
            },
            size.1 + size.0,
          ))

  -- `parse_eventlog_entry` past the stop flag
  unfoldable pub parse_entry :
      Bytes → ℕ → DigestSizes → Result EventlogError (EventlogEntry Details × ℕ)
  parse_entry bytes i sizes = ok_or (tools.reader.u32 bytes i) no_registry >>= λ registry.
      ok_or (tools.reader.u32 bytes registry.1) no_event_type >>= λ event_type_num.
      ok_or (event_type_try_from event_type_num.0) unknown_event_type >>= λ event_type.
      parse_digests bytes event_type_num.1 sizes >>= λ digests.
      parse_event_data registry.0 event_type digests.0 bytes digests.1

  -- the entry and the index behind it, or `(None, 0)` at the stop flag
  unfoldable pub parse_eventlog_entry :
      Bytes → ℕ → DigestSizes → Result EventlogError (Option (EventlogEntry Details) × ℕ)
  parse_eventlog_entry bytes i sizes =
      ok_or (tools.reader.u64 bytes i) no_stop_flag >>= λ stop_flag.
      if (stop_flag.0 == 2 ^ 64 - 1) || (stop_flag.0 == 0)
      then ok (none, 0)
      else parse_entry bytes i sizes >>= λ entry. ok (some entry.0, entry.1)

  -- what the loop of `try_from` does with a parsed entry
  unfoldable pub after_entry :
      (ℕ → Option (Result EventlogError (List (EventlogEntry Details))))
      → Result EventlogError (Option (EventlogEntry Details) × ℕ)
      → Option (Result EventlogError (List (EventlogEntry Details)))
  after_entry continue (ok (some entry, j)) =
      Option.map (λ r. r >>= λ rest. ok (entry ∷ rest)) (continue j)
  after_entry continue (ok (none, j)) = if j == 0 then some (ok []) else continue j
  after_entry continue (err e) = some (err e)
  after_entry continue panic = some panic

  -- the loop of `try_from`; `none` when the fuel is spent before the end of the data
  unfoldable pub entries_from :
      ℕ → Bytes → ℕ → DigestSizes → Option (Result EventlogError (List (EventlogEntry Details)))
  entries_from zero bytes i sizes = if ltb i (length bytes) then none else some (ok [])
  entries_from (suc fuel) bytes i sizes =
      if ltb i (length bytes)
      then after_entry (λ j. entries_from fuel bytes j sizes) (parse_eventlog_entry bytes i sizes)
      else some (ok [])

  unfoldable pub after_initial :
      Bytes
      → Result EventlogError (ℕ × DigestSizes)
      → Option (Result EventlogError (List (EventlogEntry Details)))
  after_initial bytes (ok (i, sizes)) = entries_from (length bytes) bytes i sizes
  after_initial bytes (err e) = some (err e)
  after_initial bytes panic = some panic

  -- every entry has at least 16 bytes, so as many turns as the data has bytes are enough
  unfoldable pub try_from : Bytes → Option (Result EventlogError (List (EventlogEntry Details)))
  try_from bytes = after_initial bytes (parse_initial_entry bytes 0 (λ a. none))
