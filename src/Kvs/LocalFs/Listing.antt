-- ===== src/Kvs/LocalFs/Listing.antt =====
-- What the file backend lists.
use trustmee_artifact.Prelude.{
  Bytes, String, ◌≡◌, refl, ap, ◌∙◌, Bool, true, ◌||◌, List, [], ◌∷◌, map, arith, inl, inr,
  Bool-cases, str_eq, eq_iff, ok,
}
use trustmee_artifact.Prelude.Dict
use trustmee_artifact.Prelude.Dict.{Dict}
use trustmee_artifact.Kvs.Contract.{contains}
use trustmee_artifact.Kvs.LocalFs.{Directory, exists, write, escape, unescape, set, list}
use trustmee_artifact.Kvs.LocalFs.Names.{unescape-escape}
use trustmee_artifact.Kvs.LocalFs.Laws.{IsUsable}

-- the keys that the names of the files stand for
abbrev pub listed : Dict Bytes → List String
listed files = map unescape (Dict.keys files)

or_absorb : (a b r : Bool) → b ≡ a → (a || r) ≡ (a || (b || r))
or_absorb a b r same = ground arith

or_swap : (a b r : Bool) → (a || (b || r)) ≡ (b || (a || r))
or_swap a b r = ground arith

listed-insert :
    (name : String) (value : Bytes) (files : Dict Bytes) (j : String)
    → contains (listed (Dict.insert name value files)) j
      ≡ (str_eq (unescape name) j || contains (listed files) j)
unfolding Dict.insert Dict.keys
listed-insert name value [] j = refl
listed-insert name value ((n, v) ∷ files) j = elim (Bool-cases (str_eq n name)) [
  | inl same ↦
      let equal = ap (λ k. str_eq (unescape k) j) ((eq_iff n name).0 same) in
      rw same (
        or_absorb (str_eq (unescape name) j) (str_eq (unescape n) j) (contains (listed files) j)
          equal)
  | inr other ↦ rw other (
      ap (λ b. str_eq (unescape n) j || b) (listed-insert name value files j)
      ∙ or_swap (str_eq (unescape n) j) (str_eq (unescape name) j) (contains (listed files) j))
]

-- For a usable key, and if the directory can be listed, `set` with `overwrite` makes `list` name
-- that key and changes nothing else of what `list` names: a key is listed afterwards exactly if it
-- is the one that was set or was listed before.
pub list-set_fs :
    (key j : String) (value : Bytes) (dir : Directory)
    → IsUsable dir key
    → dir.list_ok ≡ true
    → (before after : List String) × ((list dir).0 ≡ ok before)
      × ((list (set key value (record { overwrite = true }) dir).1).0 ≡ ok after)
      × (contains after j ≡ (str_eq key j || contains before j))
unfolding set list exists write
list-set_fs key j value dir u lists = (
  listed dir.files,
  listed (Dict.insert (escape key) value dir.files),
  ground arith,
  ground arith,
  listed-insert (escape key) value dir.files j
      ∙ ap (λ k. str_eq k j || contains (listed dir.files) j) (unescape-escape key u.valid),
)
