-- ===== src/Rvps/Laws.antt =====
-- What the provider answers after a message.
use mathlib.Core.Option
use mathlib.Core.Path.{subst}
use trustmee_artifact.Prelude.{
  String, ◌≡◌, refl, sym, ap, ◌∙◌, Option, some, List, [], ◌∷◌, ok, str_eq, if◌then◌else◌,
}
use trustmee_artifact.Prelude.Dict.{Dict}
use trustmee_artifact.Rvps.{
  Message, ReferenceValue, ReferenceValueStorage, set_all, extract, verify_and_extract,
  query_reference_value,
}

module _ {Value S : Type 0} (storage : ReferenceValueStorage Value S)
    (view : S → String → Option (ReferenceValue Value)) (Good : S → Type 0) where
  -- what the trait documents of the calls that the provider makes, in the states in which none fails:
  -- `set` under the value's own name replaces the value of that name, and returns it
  pub record IsStore : Type 0 where
    pub get_view : (s : S) (k : String) → Good s → (storage.get k s).0 ≡ ok (view s k)
    pub set_result :
        (s : S) (rv : ReferenceValue Value)
        → Good s
        → (storage.set rv.name rv s).0 ≡ ok (view s rv.name)
    pub set_good : (s : S) (rv : ReferenceValue Value) → Good s → Good (storage.set rv.name rv s).1
    pub set_view :
        (s : S) (rv : ReferenceValue Value) (j : String)
        → Good s
        → view (storage.set rv.name rv s).1 j ≡ (if str_eq rv.name j then some rv else view s j)

  -- the last of the values that has the name, or else the old one
  abbrev pub last_named :
      List (ReferenceValue Value)
      → String
      → Option (ReferenceValue Value)
      → Option (ReferenceValue Value)
  last_named [] name old = old
  last_named (v ∷ rv) name old = last_named rv name (if str_eq v.name name then some v else old)

  set_all-cons :
      (v : ReferenceValue Value) (rv : List (ReferenceValue Value)) (s : S)
      → IsStore
      → Good s
      → set_all storage (v ∷ rv) s ≡ set_all storage rv (storage.set v.name v s).1
  unfolding set_all
  set_all-cons v rv s kept good = rw (set_all, kept.set_result s v good)

  set_all-view :
      (rv : List (ReferenceValue Value)) (s : S) (name : String)
      → IsStore
      → Good s
      → ((set_all storage rv s).0 ≡ ok tt)
        × Good (set_all storage rv s).1
        × (view (set_all storage rv s).1 name ≡ last_named rv name (view s name))
  unfolding set_all
  set_all-view [] s name kept good = (refl, good, refl)
  set_all-view (v ∷ rv) s name kept good =
      let first = set_all-cons v rv s kept good in
      let (done, still_good, stored) =
        set_all-view rv (storage.set v.name v s).1 name kept (kept.set_good s v good) in
      (
        ap (λ r. r.0) first ∙ done,
        subst Good (sym (ap (λ r. r.1) first)) still_good,
        ap (λ r. view r.1 name) first
            ∙ (stored ∙ ap (last_named rv name) (kept.set_view s v name good)),
      )

  query_view :
      (name : String) (s : S)
      → IsStore
      → Good s
      → (query_reference_value storage name s).0 ≡ ok (Option.map (λ v. v.value) (view s name))
  unfolding query_reference_value
  query_view name s kept good = rw (kept.get_view s name good)

  verify_and_extract-set_all :
      (from_str : String → Option Message)
      (extractor_map : Dict (String → Option (List (ReferenceValue Value)))) (text : String)
      (rv : List (ReferenceValue Value)) (s : S)
      → extract from_str extractor_map text ≡ ok rv
      → verify_and_extract storage from_str extractor_map text s ≡ set_all storage rv s
  unfolding verify_and_extract
  verify_and_extract-set_all from_str extractor_map text rv s extracted =
      rw (verify_and_extract, extracted)

  -- A message that is accepted and whose values are extracted is stored whole, in a state in which
  -- the calls of the storage do not fail and if it is the map that its trait documents: a query
  -- for any name then gives the last value of the message with that name, or else what was stored
  -- before, whatever their expiration.
  pub query_after_message :
      (from_str : String → Option Message)
      (extractor_map : Dict (String → Option (List (ReferenceValue Value)))) (text : String)
      (rv : List (ReferenceValue Value)) (name : String) (s : S)
      → IsStore
      → Good s
      → extract from_str extractor_map text ≡ ok rv
      → ((verify_and_extract storage from_str extractor_map text s).0 ≡ ok tt)
        × ((query_reference_value storage name
              (verify_and_extract storage from_str extractor_map text s).1).0
            ≡ ok (Option.map (λ v. v.value) (last_named rv name (view s name))))
  query_after_message from_str extractor_map text rv name s kept good extracted =
      let (done, still_good, stored) = set_all-view rv s name kept good in
      let same = verify_and_extract-set_all from_str extractor_map text rv s extracted in
      (
        ap (λ r. r.0) same ∙ done,
        query_view name (verify_and_extract storage from_str extractor_map text s).1 kept
              (subst Good (sym (ap (λ r. r.1) same)) still_good)
            ∙ ap (λ found. ok (Option.map (λ v. v.value) found))
                (ap (λ r. view r.1 name) same ∙ stored),
      )
