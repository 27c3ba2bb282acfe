-- ===== src/Eventlog/Parse/Bounds.antt =====
-- Where parsing ends, and that it does.
use trustmee_artifact.Prelude.{
  or_panic, slice, ok_or-ok, or_panic-ok, slice-end, ok_inj, Bytes, ℕ, zero, suc, ◌+◌, ◌-◌, ◌≤◌,
  ◌<◌, ◌^◌, ◌≡◌, ◌≢◌, refl, sym, ap, ◌∙◌, inl, inr, Bool, true, false, ◌||◌, Option, none, some,
  List, [], arith, ltb, ltb→lt, ◌==◌, if◌then◌else◌, Bool-cases, length, Result, ok, err, panic,
  ◌>>=◌, ok_or, >>=-eq-ok, ==_iff,
}
use mathlib.Core.Option
use trustmee_artifact.Eventlog.TcgEnum.{
  TcgEventType, event_type_try_from, algorithm_try_from, get_parser,
}
use trustmee_artifact.Eventlog.Log.{
  ElDigest, EventlogEntry, EventlogError, no_stop_flag, no_registry, no_event_type,
  unknown_event_type, no_event_size, data_too_short, no_digest_count, no_algorithm_id,
  unknown_algorithm, missing_digest_size, ReaderLaws, Tools,
}
use trustmee_artifact.Eventlog.Replay.{compare_digests}
use trustmee_artifact.Eventlog.Parse.{
  DigestSizes, digests_from, parse_digests, parse_event_data, parse_entry, parse_eventlog_entry,
  after_entry, entries_from, after_initial, parse_initial_entry, try_from,
}

abbrev unless :
    {Entry : Type 0}
    → Bool
    → Result EventlogError (Entry × ℕ)
    → Result EventlogError (Option Entry × ℕ)
unless {Entry} stop r =
    if◌then◌else◌ {A = Result EventlogError (Option Entry × ℕ)} stop (ok (none, 0))
      (r >>= λ e. ok (some e.0, e.1))

-- an entry comes from behind the stop flag
unless_stop :
    {Entry : Type 0} (stop : Bool) (r : Result EventlogError (Entry × ℕ)) {entry : Entry} {j : ℕ}
    → unless stop r ≡ ok (some entry, j)
    → r ≡ ok (entry, j)
unless_stop true r h = cc
unless_stop false (ok (e, k)) h = cc
unless_stop false (err e) h = cc
unless_stop false panic h = cc

only_stop :
    {Entry : Type 0} (stop : Bool) (r : Result EventlogError (Entry × ℕ)) {j : ℕ}
    → unless stop r ≡ ok (none, j)
    → j ≡ 0
only_stop true r h = cc
only_stop false (ok (e, k)) h = cc
only_stop false (err e) h = cc
only_stop false panic h = cc

map-ne-none : {A B : Type 0} (f : A → B) (o : Option A) → o ≢ none → Option.map f o ≢ none
map-ne-none f none some_ h = some_ refl
map-ne-none f (some a) some_ h = cc

module _ {Details : Type 0} (tools : Tools Details) (laws : ReaderLaws tools.reader) where
  u32-ok :
      (bytes : Bytes) (i : ℕ) (e : EventlogError) {read : ℕ × ℕ}
      → ok_or (tools.reader.u32 bytes i) e ≡ ok read
      → (read.1 ≡ i + 4) × (read.1 ≤ length bytes)
  u32-ok bytes i e {read} h =
      laws.u32_end bytes i read.0 read.1 (ok_or-ok (tools.reader.u32 bytes i) e h)

  u16-ok :
      (bytes : Bytes) (i : ℕ) (e : EventlogError) {read : ℕ × ℕ}
      → ok_or (tools.reader.u16 bytes i) e ≡ ok read
      → (read.1 ≡ i + 2) × (read.1 ≤ length bytes)
  u16-ok bytes i e {read} h =
      laws.u16_end bytes i read.0 read.1 (ok_or-ok (tools.reader.u16 bytes i) e h)

  -- digests end behind their start, and inside the data when their start does
  digests_from-end :
      (count : ℕ) (bytes : Bytes) (i : ℕ) (sizes : DigestSizes) {done : List ElDigest × ℕ}
      → i ≤ length bytes
      → digests_from tools count bytes i sizes ≡ ok done
      → (i ≤ done.1) × (done.1 ≤ length bytes)
  unfolding digests_from
  digests_from-end zero bytes i sizes inside h =
      let e = ap (λ d. d.1) (ok_inj h) in omega (arith, e, inside)
  digests_from-end (suc count) bytes i sizes inside h =
      let id = >>=-eq-ok (ok_or (tools.reader.u16 bytes i) no_algorithm_id) _ h in
      let algorithm = >>=-eq-ok (ok_or (algorithm_try_from id.0.0) unknown_algorithm) _ id.2 in
      let size = >>=-eq-ok (ok_or (sizes algorithm.0) missing_digest_size) _ algorithm.2 in
      let digest = >>=-eq-ok (or_panic (slice bytes id.0.1 (id.0.1 + size.0))) _ size.2 in
      let rest = >>=-eq-ok (digests_from tools count bytes (id.0.1 + size.0) sizes) _ digest.2 in
      let e = ap (λ d. d.1) (ok_inj rest.2) in
      let start = u16-ok bytes i no_algorithm_id id.1 in
      let fits =
        slice-end bytes id.0.1 (id.0.1 + size.0)
          (or_panic-ok (slice bytes id.0.1 (id.0.1 + size.0)) digest.1) in
      let back = digests_from-end count bytes (id.0.1 + size.0) sizes fits rest.1 in
      (omega (arith, e, start.0, back.0), omega (arith, e, back.1))

  parse_digests-end :
      (bytes : Bytes) (i : ℕ) (sizes : DigestSizes) {done : List ElDigest × ℕ}
      → parse_digests tools bytes i sizes ≡ ok done
      → (i + 4 ≤ done.1) × (done.1 ≤ length bytes)
  unfolding parse_digests
  parse_digests-end bytes i sizes h =
      let count = >>=-eq-ok (ok_or (tools.reader.u32 bytes i) no_digest_count) _ h in
      let start = u32-ok bytes i no_digest_count count.1 in
      let back = digests_from-end count.0.0 bytes count.0.1 sizes start.1 count.2 in
      (omega (arith, start.0, back.0), back.1)

  parse_event_data-end :
      (registry : ℕ) (event_type : TcgEventType) (digests : List ElDigest) (bytes : Bytes) (i : ℕ)
      {done : EventlogEntry Details × ℕ}
      → parse_event_data tools registry event_type digests bytes i ≡ ok done
      → (i + 4 ≤ done.1) × (done.1 ≤ length bytes)
  unfolding parse_event_data
  parse_event_data-end registry event_type digests bytes i h =
      let size = >>=-eq-ok (ok_or (tools.reader.u32 bytes i) no_event_size) _ h in
      let enough =
        >>=-eq-ok (if ltb (length bytes) size.0.0 then err data_too_short else ok tt) _ size.2 in
      let raw = >>=-eq-ok (or_panic (slice bytes size.0.1 (size.0.1 + size.0.0))) _ enough.2 in
      let same = >>=-eq-ok (compare_digests tools raw.0 digests) _ raw.2 in
      let details = >>=-eq-ok (tools.parse (get_parser event_type) raw.0) _ same.2 in
      let e = ap (λ d. d.1) (ok_inj details.2) in
      let start = u32-ok bytes i no_event_size size.1 in
      let fits =
        slice-end bytes size.0.1 (size.0.1 + size.0.0)
          (or_panic-ok (slice bytes size.0.1 (size.0.1 + size.0.0)) raw.1) in
      (omega (arith, e, start.0), omega (arith, e, fits))

  -- A parsed entry takes at least sixteen bytes of the log and ends inside it.
  pub parse_entry-end :
      (bytes : Bytes) (i : ℕ) (sizes : DigestSizes) (entry : EventlogEntry Details) (j : ℕ)
      → parse_entry tools bytes i sizes ≡ ok (entry, j)
      → (i + 16 ≤ j) × (j ≤ length bytes)
  unfolding parse_entry
  parse_entry-end bytes i sizes entry j h =
      let registry = >>=-eq-ok (ok_or (tools.reader.u32 bytes i) no_registry) _ h in
      let num =
        >>=-eq-ok (ok_or (tools.reader.u32 bytes registry.0.1) no_event_type) _ registry.2 in
      let event_type = >>=-eq-ok (ok_or (event_type_try_from num.0.0) unknown_event_type) _ num.2 in
      let digests = >>=-eq-ok (parse_digests tools bytes num.0.1 sizes) _ event_type.2 in
      let a = u32-ok bytes i no_registry registry.1 in
      let b = u32-ok bytes registry.0.1 no_event_type num.1 in
      let c = parse_digests-end bytes num.0.1 sizes digests.1 in
      let d =
        parse_event_data-end registry.0.0 event_type.0 digests.0.0 bytes digests.0.1 digests.2 in
      (omega (arith, a.0, b.0, c.0, d.0), d.1)

  pub parse_eventlog_entry-end :
      (bytes : Bytes) (i : ℕ) (sizes : DigestSizes) (entry : EventlogEntry Details) (j : ℕ)
      → parse_eventlog_entry tools bytes i sizes ≡ ok (some entry, j)
      → (i + 16 ≤ j) × (j ≤ length bytes)
  unfolding parse_eventlog_entry
  parse_eventlog_entry-end bytes i sizes entry j h =
      let flag = >>=-eq-ok (ok_or (tools.reader.u64 bytes i) no_stop_flag) _ h in
      parse_entry-end bytes i sizes entry j (
        unless_stop ((flag.0.0 == 2 ^ 64 - 1) || (flag.0.0 == 0)) (parse_entry tools bytes i sizes)
          flag.2)

  parse_eventlog_entry-none :
      (bytes : Bytes) (i : ℕ) (sizes : DigestSizes) (j : ℕ)
      → parse_eventlog_entry tools bytes i sizes ≡ ok (none, j)
      → j ≡ 0
  unfolding parse_eventlog_entry
  parse_eventlog_entry-none bytes i sizes j h =
      let flag = >>=-eq-ok (ok_or (tools.reader.u64 bytes i) no_stop_flag) _ h in
      only_stop ((flag.0.0 == 2 ^ 64 - 1) || (flag.0.0 == 0)) (parse_entry tools bytes i sizes)
        flag.2

  after_entry-ne-none :
      (bytes : Bytes) (i : ℕ) (sizes : DigestSizes)
      (continue : ℕ → Option (Result EventlogError (List (EventlogEntry Details))))
      → ((j : ℕ) → i < j → continue j ≢ none)
      → (r : Result EventlogError (Option (EventlogEntry Details) × ℕ))
      → parse_eventlog_entry tools bytes i sizes ≡ r
      → after_entry tools continue r ≢ none
  unfolding after_entry
  after_entry-ne-none bytes i sizes continue further (ok (some entry, j)) e h =
      let moved = parse_eventlog_entry-end bytes i sizes entry j e in
      map-ne-none _ (continue j) (further j (omega (arith, moved.0))) h
  after_entry-ne-none bytes i sizes continue further (ok (none, j)) e h =
      let stopped = (==_iff j 0).1 (parse_eventlog_entry-none bytes i sizes j e) in cc (h, stopped)
  after_entry-ne-none bytes i sizes continue further (err e') e h = cc
  after_entry-ne-none bytes i sizes continue further panic e h = cc

  -- A parse of the whole log is never cut short by the fuel.
  entries_from-ne-none :
      (fuel : ℕ) (bytes : Bytes) (i : ℕ) (sizes : DigestSizes)
      → length bytes ≤ fuel + i
      → entries_from tools fuel bytes i sizes ≢ none
  unfolding entries_from
  entries_from-ne-none zero bytes i sizes enough h = elim (Bool-cases (ltb i (length bytes))) [
    | inl inside ↦ omega (arith, ltb→lt i (length bytes) inside, enough)
    | inr outside ↦ cc (h, outside)
  ]
  entries_from-ne-none (suc fuel) bytes i sizes enough h =
      elim (Bool-cases (ltb i (length bytes))) [
        | inl inside ↦
            after_entry-ne-none bytes i sizes (λ j. entries_from tools fuel bytes j sizes)
              (λ j further. entries_from-ne-none fuel bytes j sizes (omega arith))
              (parse_eventlog_entry tools bytes i sizes) refl
              (sym (
                  ap
                    (λ t.
                      if t
                      then after_entry tools (λ j. entries_from tools fuel bytes j sizes)
                          (parse_eventlog_entry tools bytes i sizes)
                      else some (ok []))
                    inside)
                ∙ h)
        | inr outside ↦ cc (h, outside)
      ]

  after_initial-ne-none :
      (bytes : Bytes) (r : Result EventlogError (ℕ × DigestSizes))
      → after_initial tools bytes r ≢ none
  unfolding after_initial
  after_initial-ne-none bytes (ok (i, sizes)) h =
      entries_from-ne-none (length bytes) bytes i sizes (omega arith) h
  after_initial-ne-none bytes (err e) h = cc
  after_initial-ne-none bytes panic h = cc

  -- Parsing a log of any bytes ends, with the entries, an error or a panic, if the reader returns
  -- the position behind what it reads: the fuel, one turn for each byte of the log, is never spent
  -- before the loop is done.
  pub try_from-ne-none : (bytes : Bytes) → try_from tools bytes ≢ none
  unfolding try_from
  try_from-ne-none bytes =
      after_initial-ne-none bytes (parse_initial_entry tools bytes 0 (λ a. none))
