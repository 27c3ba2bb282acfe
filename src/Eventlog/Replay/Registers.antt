-- ===== src/Eventlog/Replay/Registers.antt =====
-- Replaying collected digests against registers that the entries extend one by one.
use trustmee_artifact.Prelude.{
  same_bytes, same_bytes_iff, Bytes, ℕ, ◌≡◌, refl, sym, ap, ◌∙◌, ◌↔◌, inl, inr, Option, none, some,
  List, [], ◌∷◌, ◌++◌, ◌==◌, if◌then◌else◌, Bool-cases, replicate, All, Result, ok, err, ◌>>=◌,
  ok_or, >>=-eq-ok, >>=-ok, >>=-ext, >>=-assoc,
}
use trustmee_artifact.Eventlog.TcgEnum.{TcgAlgorithm, same, get_digest_size}
use trustmee_artifact.Eventlog.Log.{
  ElDigest, EventlogEntry, ReferenceMeasurement, EventlogError, unsupported_digest_size,
  no_replay_match, Tools,
}
use trustmee_artifact.Eventlog.Replay.{
  DigestMap, or_default, filter_alg, push_entry, collect_from, collect_digests_by_index,
  accumulate_hash, accumulate_all, accumulate_digests, replay, match_all, replay_and_match,
}

filter_alg-append :
    (alg : TcgAlgorithm) (xs ys : List ElDigest)
    → filter_alg alg (xs ++ ys) ≡ filter_alg alg xs ++ filter_alg alg ys
unfolding filter_alg
filter_alg-append alg [] ys = refl
filter_alg-append alg (d ∷ xs) ys = elim (Bool-cases (same d.alg alg)) [
  | inl hit ↦ simp (hit, filter_alg-append alg xs ys)
  | inr miss ↦ simp (miss, filter_alg-append alg xs ys)
]

module _ {Details : Type 0} (tools : Tools Details) where
  -- the register of an index after one entry: an entry of that index extends it by its digests
  unfoldable pub extend_by :
      TcgAlgorithm → ℕ → EventlogEntry Details → Bytes → Result EventlogError Bytes
  extend_by alg index entry value =
      if index == entry.index
      then accumulate_all tools alg value (filter_alg alg entry.digests)
      else ok value

  -- and after all entries of the log, in their order
  unfoldable pub extend :
      TcgAlgorithm → ℕ → List (EventlogEntry Details) → Bytes → Result EventlogError Bytes
  extend alg index [] value = ok value
  extend alg index (entry ∷ log) value = extend_by alg index entry value >>= extend alg index log

  -- a register starts with as many zeros as its hash has bytes
  unfoldable pub register :
      TcgAlgorithm → ℕ → List (EventlogEntry Details) → Result EventlogError Bytes
  register alg index log = ok_or (get_digest_size alg) unsupported_digest_size >>= λ size.
      extend alg index log (replicate size 0)

  accumulate_all-append :
      (alg : TcgAlgorithm) (m : Bytes) (xs ys : List ElDigest)
      → accumulate_all tools alg m (xs ++ ys)
        ≡ (accumulate_all tools alg m xs >>= λ next. accumulate_all tools alg next ys)
  unfolding accumulate_all
  accumulate_all-append alg m [] ys = refl
  accumulate_all-append alg m (d ∷ xs) ys =
      >>=-ext (accumulate_hash tools alg m d.digest)
        (λ next. accumulate_all tools alg next (xs ++ ys))
        (λ next. accumulate_all tools alg next xs >>= λ last. accumulate_all tools alg last ys)
        (λ next. accumulate_all-append alg next xs ys)
      ∙ sym (
          >>=-assoc (accumulate_hash tools alg m d.digest)
            (λ next. accumulate_all tools alg next xs) (λ last. accumulate_all tools alg last ys))

  -- the digests that a map holds for an index, folded
  abbrev folded : TcgAlgorithm → ℕ → Bytes → DigestMap → Result EventlogError Bytes
  folded alg index value m = accumulate_all tools alg value (filter_alg alg (or_default (m index)))

  folded-push :
      (alg : TcgAlgorithm) (index : ℕ) (value : Bytes) (m : DigestMap)
      (entry : EventlogEntry Details)
      → folded alg index value (push_entry m entry)
        ≡ (folded alg index value m >>= extend_by alg index entry)
  unfolding push_entry extend_by
  folded-push alg index value m entry = elim (Bool-cases (index == entry.index)) [
    | inl hit ↦
        ap
          (λ t. accumulate_all tools alg value (
            filter_alg alg
              (or_default (if t then some (or_default (m index) ++ entry.digests) else m index))))
          hit
        ∙ ap (accumulate_all tools alg value)
            (filter_alg-append alg (or_default (m index)) entry.digests)
        ∙ accumulate_all-append alg value (filter_alg alg (or_default (m index)))
            (filter_alg alg entry.digests)
        ∙ >>=-ext (folded alg index value m)
            (λ next. accumulate_all tools alg next (filter_alg alg entry.digests))
            (extend_by alg index entry)
            (λ next.
              ap
                (λ t.
                  if t
                  then accumulate_all tools alg next (filter_alg alg entry.digests)
                  else ok next)
                (sym hit))
    | inr miss ↦
        ap
          (λ t. accumulate_all tools alg value (
            filter_alg alg
              (or_default (if t then some (or_default (m index) ++ entry.digests) else m index))))
          miss
        ∙ sym (>>=-ok (folded alg index value m))
        ∙ >>=-ext (folded alg index value m) (λ next. ok next) (extend_by alg index entry)
            (λ next.
              ap
                (λ t.
                  if t
                  then accumulate_all tools alg next (filter_alg alg entry.digests)
                  else ok next)
                (sym miss))
  ]

  collect-extend :
      (alg : TcgAlgorithm) (index : ℕ) (value : Bytes) (m : DigestMap)
      (log : List (EventlogEntry Details))
      → folded alg index value (collect_from m log)
        ≡ (folded alg index value m >>= extend alg index log)
  unfolding collect_from extend
  collect-extend alg index value m [] = sym (>>=-ok (folded alg index value m))
  collect-extend alg index value m (entry ∷ log) =
      collect-extend alg index value (push_entry m entry) log
      ∙ ap (λ r. r >>= extend alg index log) (folded-push alg index value m entry)
      ∙ >>=-assoc (folded alg index value m) (extend_by alg index entry) (extend alg index log)

  accumulate_digests-folded :
      (alg : TcgAlgorithm) (value : Bytes) (digests : Option (List ElDigest))
      → accumulate_digests tools alg value digests
        ≡ accumulate_all tools alg value (filter_alg alg (or_default digests))
  unfolding accumulate_digests accumulate_all filter_alg
  accumulate_digests-folded alg value none = refl
  accumulate_digests-folded alg value (some digests) = refl

  -- Replaying the digests collected by index gives what the register of that index holds after every
  -- entry of the log has extended it in order, errors included.
  pub replay_eq_register :
      (alg : TcgAlgorithm) (index : ℕ) (log : List (EventlogEntry Details))
      → replay tools (collect_digests_by_index log) index alg ≡ register alg index log
  unfolding replay register collect_digests_by_index accumulate_all filter_alg
  replay_eq_register alg index log =
      >>=-ext (ok_or (get_digest_size alg) unsupported_digest_size)
        (λ size.
          accumulate_digests tools alg (replicate size 0) (collect_from (λ i. none) log index))
        (λ size. extend alg index log (replicate size 0))
        (λ size.
          accumulate_digests-folded alg (replicate size 0) (collect_from (λ i. none) log index)
          ∙ collect-extend alg index (replicate size 0) (λ i. none) log)

  -- a reference is what the register of its index holds
  abbrev pub IsMeasured : List (EventlogEntry Details) → ReferenceMeasurement → Type 0
  IsMeasured log item = register item.algorithm item.index log ≡ ok item.reference

  -- what follows a replay in the loop
  abbrev checked :
      List (EventlogEntry Details)
      → ReferenceMeasurement
      → List ReferenceMeasurement
      → Bytes
      → Result EventlogError (Unit {0})
  checked log item items calculated =
      if same_bytes calculated item.reference
      then match_all tools (collect_digests_by_index log) items
      else err no_replay_match

  checked_iff :
      (log : List (EventlogEntry Details)) (item : ReferenceMeasurement)
      (items : List ReferenceMeasurement) (value : Bytes)
      → (checked log item items value ≡ ok tt) ↔ (
          (value ≡ item.reference) × (match_all tools (collect_digests_by_index log) items ≡ ok tt))
  checked_iff log item items value = elim (Bool-cases (same_bytes value item.reference)) [
    | inl hit ↦
        ((λ h. ((same_bytes_iff value item.reference).0 hit, cc (h, hit))), λ g. cc (g.1, hit))
    | inr miss ↦ ((λ h. cc (h, miss)), λ g. cc ((same_bytes_iff value item.reference).1 g.0, miss))
  ]

  match_all_iff :
      (log : List (EventlogEntry Details)) (items : List ReferenceMeasurement)
      → (match_all tools (collect_digests_by_index log) items ≡ ok tt) ↔ All (IsMeasured log) items
  unfolding match_all
  match_all_iff log [] = (λ h. tt, λ g. refl)
  match_all_iff log (item ∷ items) = (
    (λ h.
        let step =
          >>=-eq-ok (replay tools (collect_digests_by_index log) item.index item.algorithm)
            (checked log item items) h in
        let both = (checked_iff log item items step.0).0 step.2 in
        (
          sym (replay_eq_register item.algorithm item.index log) ∙ step.1 ∙ ap ok both.0,
          (match_all_iff log items).0 both.1,
        )),
    λ g.
        ap (λ r. r >>= checked log item items)
          (replay_eq_register item.algorithm item.index log ∙ g.0)
        ∙ (checked_iff log item items item.reference).1 (refl, (match_all_iff log items).1 g.1),
  )

  -- `replay_and_match` accepts exactly when every reference is what the register of its index and
  -- algorithm holds after the log.
  pub replay_and_match_iff :
      (log : List (EventlogEntry Details)) (items : List ReferenceMeasurement)
      → (replay_and_match tools log items ≡ ok tt) ↔ All (IsMeasured log) items
  unfolding replay_and_match
  replay_and_match_iff log items = match_all_iff log items
