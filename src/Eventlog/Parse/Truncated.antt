-- ===== src/Eventlog/Parse/Truncated.antt =====
-- Logs that end too early for the parser.
use trustmee_artifact.Prelude.{
  ap, ◌∙◌, true, ◌||◌, ◌-◌, ◌^◌, ◌==◌, slice, Bytes, ℕ, zero, suc, ◌+◌, ◌≤◌, ◌<◌, ◌≡◌, refl, false,
  none, some, List, [], ◌∷◌, arith, leb, ltb, length, get_elem?, panic, ok,
}
use trustmee_artifact.Eventlog.TcgEnum.{
  TcgAlgorithm, TcgEventType, event_type_try_from, algorithm_try_from,
}
use trustmee_artifact.Eventlog.Parse.Bounds.{parse_eventlog_entry-end}
use trustmee_artifact.Eventlog.Log.{ElDigest, EventlogEntry, ReaderLaws, Tools}
use trustmee_artifact.Eventlog.Parse.{
  parse_digests, parse_entry, parse_eventlog_entry, after_entry, entries_from, after_initial,
  parse_initial_entry, try_from, DigestSizes, digest_sizes_from, parse_digest_sizes, digests_from,
  parse_event_data,
}

ltb-lt : (a b : ℕ) → a < b → ltb a b ≡ true
ltb-lt a b h = ground arith

ltb-ge : (a b : ℕ) → b ≤ a → ltb a b ≡ false
ltb-ge a b h = ground arith

leb-gt : (a b : ℕ) → b < a → leb a b ≡ false
leb-gt a b h = ground arith

get_elem?-none : {A : Type 0} (xs : List A) (i : ℕ) → length xs ≤ i → get_elem? xs i ≡ none
get_elem?-none [] i h = refl
get_elem?-none (x ∷ xs) zero h = ground arith
get_elem?-none (x ∷ xs) (suc i) h = get_elem?-none xs i (omega (arith, h))

module _ {Details : Type 0} (tools : Tools Details) where
  -- the step of the parser at which a log that is cut off panics
  pub event_overrun_panics :
      (registry : ℕ) (event_type : TcgEventType) (digests : List ElDigest) (bytes : Bytes)
      (i size start : ℕ)
      → tools.reader.u32 bytes i ≡ some (size, start)
      → size ≤ length bytes
      → length bytes < start + size
      → parse_event_data tools registry event_type digests bytes i ≡ panic
  unfolding parse_event_data slice
  event_overrun_panics registry event_type digests bytes i size start read short long =
      simp (read, ltb-ge (length bytes) size short, leb-gt (start + size) (length bytes) long)

  -- When a digest of a known algorithm ends behind the end of the log, the parser of the digests panics.
  pub digest_overrun_panics :
      (count : ℕ) (bytes : Bytes) (i : ℕ) (sizes : DigestSizes) (algo_id start : ℕ)
      (algorithm : TcgAlgorithm) (size : ℕ)
      → tools.reader.u16 bytes i ≡ some (algo_id, start)
      → algorithm_try_from algo_id ≡ some algorithm
      → sizes algorithm ≡ some size
      → length bytes < start + size
      → digests_from tools (suc count) bytes i sizes ≡ panic
  unfolding digests_from slice
  digest_overrun_panics count bytes i sizes algo_id start algorithm size read known listed long =
      simp (read, known, listed, leb-gt (start + size) (length bytes) long)

  -- When the list of algorithms fills the data of the first event, so that no byte is left for the size of
  -- the vendor's data, the parser of the digest sizes panics.
  pub vendor_size_missing_panics :
      (bytes : Bytes) (sizes : DigestSizes) (algo_size start : ℕ) (i : ℕ) (found : DigestSizes)
      → tools.reader.u32 bytes 24 ≡ some (algo_size, start)
      → digest_sizes_from tools algo_size bytes start sizes ≡ ok (i, found)
      → length bytes ≤ i
      → parse_digest_sizes tools bytes sizes ≡ panic
  unfolding parse_digest_sizes
  vendor_size_missing_panics bytes sizes algo_size start i found read done short =
      simp (read, done, get_elem?-none bytes i short)

-- Where the loop of the parser gets to: over entries that parse, each from where the one before ended.
module _ {Details : Type 0} (tools : Tools Details) (bytes : Bytes) (sizes : DigestSizes) where
  pub data Reaches : ℕ → ℕ → Type 0 where
    here : {i : ℕ} → Reaches i i
    entry :
        {i j k : ℕ} (e : EventlogEntry Details)
        → parse_eventlog_entry tools bytes i sizes ≡ ok (some e, j)
        → Reaches j k
        → Reaches i k

  -- an entry at `i` whose head and digests are whole, and whose data is cut off by the end of the log,
  -- although its size is within the length of the log
  pub record IsCutOff (i : ℕ) : Type 0 where
    pub flag : ℕ
    pub flag_end : ℕ
    pub registry : ℕ
    pub registry_end : ℕ
    pub type_num : ℕ
    pub type_end : ℕ
    pub event_type : TcgEventType
    pub digests : List ElDigest
    pub digests_end : ℕ
    pub size : ℕ
    pub start : ℕ
    pub reads_flag : tools.reader.u64 bytes i ≡ some (flag, flag_end)
    pub goes_on : ((flag == 2 ^ 64 - 1) || (flag == 0)) ≡ false
    pub reads_registry : tools.reader.u32 bytes i ≡ some (registry, registry_end)
    pub reads_type : tools.reader.u32 bytes registry_end ≡ some (type_num, type_end)
    pub known : event_type_try_from type_num ≡ some event_type
    pub reads_digests : parse_digests tools bytes type_end sizes ≡ ok (digests, digests_end)
    pub reads_size : tools.reader.u32 bytes digests_end ≡ some (size, start)
    pub short : size ≤ length bytes
    pub cut : length bytes < start + size

module _ {Details : Type 0} (tools : Tools Details) (laws : ReaderLaws tools.reader) (bytes : Bytes)
    (sizes : DigestSizes) where
  cut_off-inside : (i : ℕ) → IsCutOff tools bytes sizes i → i < length bytes
  cut_off-inside i c =
      let ends = laws.u32_end bytes i c.registry c.registry_end c.reads_registry in
      omega (arith, ends.0, ends.1)

  cut_off-panics :
      (i : ℕ) → IsCutOff tools bytes sizes i → parse_eventlog_entry tools bytes i sizes ≡ panic
  unfolding parse_eventlog_entry parse_entry
  cut_off-panics i c = rw (
    c.reads_flag,
    c.goes_on,
    c.reads_registry,
    c.reads_type,
    c.known,
    c.reads_digests,
    event_overrun_panics tools c.registry c.event_type c.digests bytes c.digests_end c.size c.start
        c.reads_size c.short c.cut,
  )

  entries_from-panics :
      (fuel i k : ℕ)
      → Reaches tools bytes sizes i k
      → IsCutOff tools bytes sizes k
      → length bytes ≤ fuel + i
      → entries_from tools fuel bytes i sizes ≡ some panic
  unfolding entries_from after_entry
  entries_from-panics zero i k Reaches.here c enough =
      absurd (omega (arith, enough, cut_off-inside i c))
  entries_from-panics (suc fuel) i k Reaches.here c enough =
      rw (ltb-lt i (length bytes) (cut_off-inside i c), cut_off-panics i c)
  entries_from-panics zero i k (Reaches.entry {j} e parsed rest) c enough =
      let ends = parse_eventlog_entry-end tools laws bytes i sizes e j parsed in
      absurd (omega (arith, enough, ends.0, ends.1))
  entries_from-panics (suc fuel) i k (Reaches.entry {j} e parsed rest) c enough =
      let ends = parse_eventlog_entry-end tools laws bytes i sizes e j parsed in
      rw (
        ltb-lt i (length bytes) (omega (arith, ends.0, ends.1)),
        parsed,
        entries_from-panics fuel j k rest c (omega (arith, enough, ends.0)),
      )

  -- A log is truncated inside of the data of an event: its first entry parses, so do the entries
  -- before that event, and the size of the event's data is within the length of the log but its
  -- data ends behind the end of the log. Then the parser panics, if the reader returns the
  -- position behind what it reads: the check of the size does not count the bytes before the data.
  pub truncated_log_panics :
      (start i : ℕ)
      → parse_initial_entry tools bytes 0 (λ a. none) ≡ ok (start, sizes)
      → Reaches tools bytes sizes start i
      → IsCutOff tools bytes sizes i
      → try_from tools bytes ≡ some panic
  unfolding try_from after_initial
  truncated_log_panics start i initial reached c =
      ap (after_initial tools bytes) initial
      ∙ entries_from-panics (length bytes) start i reached c (omega arith)
