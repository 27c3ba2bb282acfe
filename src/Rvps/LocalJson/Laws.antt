-- ===== src/Rvps/LocalJson/Laws.antt =====
-- The JSON file is the map that the provider asks of a storage, as long as it can be read and written.
use mathlib.Core.Option
use trustmee_artifact.Prelude.{
  String, ◌≡◌, refl, sym, ap, ◌∙◌, some, [], ◌∷◌, List, if◌then◌else◌, str_eq, eq_iff, arith, ok,
  ◌>>=◌,
}
use trustmee_artifact.Rvps.{ReferenceValue}
use trustmee_artifact.Rvps.Laws.{IsStore}
use trustmee_artifact.Rvps.LocalJson.{
  Codec, CodecLaws, JsonFile, find, put, load, store, set, get, local_json, IsGood, view,
}

find-put :
    {Value : Type 0} (rv : ReferenceValue Value) (rvs : List (ReferenceValue Value)) (j : String)
    → find j (put rv.name rv rvs) ≡ (if str_eq rv.name j then some rv else find j rvs)
unfolding find put
find-put rv [] j = refl
find-put rv (it ∷ rvs) j =
    ground (arith, eq_iff rv.name j, eq_iff it.name rv.name, eq_iff it.name j, find-put rv rvs j)

module _ {Value : Type 0} (codec : Codec Value) (laws : CodecLaws codec) where
  load-good :
      (file : JsonFile codec.Contents) (g : IsGood codec file) → load codec file ≡ ok g.values
  unfolding load
  load-good file g = rw (g.readable, g.reads)

  store-good :
      (rvs : List (ReferenceValue Value)) (file : JsonFile codec.Contents)
      → IsGood codec file
      → store codec rvs file ≡ (ok tt, record file { contents = (laws.to_vec_total rvs).0 })
  unfolding store
  store-good rvs file g = rw (store, (laws.to_vec_total rvs).1, g.writable)

  -- what `set` does to a file that is good
  set-good :
      (rv : ReferenceValue Value) (file : JsonFile codec.Contents) (g : IsGood codec file)
      → set codec rv.name rv file ≡ (
        ok (find rv.name g.values),
        record file { contents = (laws.to_vec_total (put rv.name rv g.values)).0 },
      )
  unfolding set
  set-good rv file g = rw (set, load-good file g, store-good (put rv.name rv g.values) file g)

  written :
      (rv : ReferenceValue Value) (file : JsonFile codec.Contents) (g : IsGood codec file)
      → codec.from_slice (set codec rv.name rv file).1.contents ≡ some (put rv.name rv g.values)
  written rv file g =
      let (b, e) = laws.to_vec_total (put rv.name rv g.values) in
      ap (λ r. codec.from_slice r.1.contents) (set-good rv file g)
      ∙ laws.from-to (put rv.name rv g.values) b e

  view-good :
      (file : JsonFile codec.Contents) (g : IsGood codec file) (k : String)
      → view codec file k ≡ find k g.values
  unfolding Option.bind
  view-good file g k = ap (λ o. Option.bind o (find k)) g.reads

  -- The JSON file is the map that the provider asks of its storage, while it reads as a list of values
  -- and can be written, which it stays.
  pub local_json-IsStore : IsStore (local_json codec) (view codec) (IsGood codec)
  unfolding get Option.bind
  local_json-IsStore = record {
    get_view = λ s k g.
        ap (λ r. r >>= λ rvs. ok (find k rvs)) (load-good s g) ∙ ap ok (sym (view-good s g k));
    set_result = λ s rv g. ap (λ r. r.0) (set-good rv s g) ∙ ap ok (sym (view-good s g rv.name));
    set_good = λ s rv g. record {
      values = put rv.name rv g.values;
      readable = ap (λ r. r.1.read_ok) (set-good rv s g) ∙ g.readable;
      writable = ap (λ r. r.1.write_ok) (set-good rv s g) ∙ g.writable;
      reads = written rv s g;
    };
    set_view = λ s rv j g.
        ap (λ o. Option.bind o (find j)) (written rv s g)
        ∙ find-put rv g.values j
        ∙ ap (λ o. if str_eq rv.name j then some rv else o) (sym (view-good s g j));
  }
