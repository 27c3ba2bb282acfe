-- ===== src/Kvs/LocalFs/Names.antt =====
-- File names of the local file system backend: a valid key is recovered from its file's name.
use Prim.Native.Char.{Char, code}
use text.Mathlib.TextEquality.{Char-path}
use trustmee_artifact.Prelude.{
  ℕ, zero, String, ◌≡◌, refl, sym, ap, ◌∙◌, inl, inr, Bool, true, false, ◌&&◌, arith, str_eq,
  eq_iff, ◌==◌, Bool-cases, ==_iff,
}
use trustmee_artifact.Kvs.{is_valid_char, is_valid_key}
use trustmee_artifact.Kvs.LocalFs.{escape, starts_escape, unescape_from, unescape}

valid_char-ne-backslash : (c : ℕ) → is_valid_char c ≡ true → (c == b'\\') ≡ false
unfolding is_valid_char
valid_char-ne-backslash c h = ground arith

starts_escape_of_other :
    (c : Char) (s : String) → (code c == b'\\') ≡ false → starts_escape (String.◌∷◌ c s) ≡ false
unfolding starts_escape
starts_escape_of_other a String.[] h = refl
starts_escape_of_other a (String.◌∷◌ b String.[]) h = refl
starts_escape_of_other a (String.◌∷◌ b (String.◌∷◌ c String.[])) h = refl
starts_escape_of_other a (String.◌∷◌ b (String.◌∷◌ c (String.◌∷◌ d s))) h = rw h

unescape_from_other :
    (c : Char) (s : String)
    → (code c == b'\\') ≡ false
    → unescape_from zero (String.◌∷◌ c s) ≡ String.◌∷◌ c (unescape_from zero s)
unfolding unescape_from
unescape_from_other c s h = rw (starts_escape_of_other c s h, unescape_from)

slash_of_code : (c : Char) → (code c == b'/') ≡ true → "/" ≡ c
slash_of_code c h = Char-path "/" c (sym ((==_iff (code c) b'/').0 h))

and-left : (a b : Bool) → (a && b) ≡ true → a ≡ true
and-left a b h = ground arith

and-right : (a b : Bool) → (a && b) ≡ true → b ≡ true
and-right a b h = ground arith

-- A valid key is recovered from its file's name.
pub unescape-escape : (key : String) → is_valid_key key ≡ true → unescape (escape key) ≡ key
unfolding unescape escape is_valid_key
unescape-escape String.[] h = refl
unescape-escape (String.◌∷◌ c key) h =
    let ih = unescape-escape key (and-right (is_valid_char (code c)) (is_valid_key key) h) in
    elim (Bool-cases (code c == b'/')) [
      | inl slash ↦ rw slash (cc (ih, slash_of_code c slash))
      | inr other ↦ rw other (
          unescape_from_other c (escape key) (
            valid_char-ne-backslash (code c)
              (and-left (is_valid_char (code c)) (is_valid_key key) h))
          ∙ ap (String.◌∷◌ c) ih)
    ]

escape_injective :
    (k j : String) → is_valid_key k ≡ true → is_valid_key j ≡ true → escape k ≡ escape j → k ≡ j
escape_injective k j hk hj e = cc (unescape-escape k hk, unescape-escape j hj)

-- Two valid keys share a file only if they are equal.
pub escape_eq :
    (k j : String)
    → is_valid_key k ≡ true
    → is_valid_key j ≡ true
    → str_eq (escape k) (escape j) ≡ str_eq k j
escape_eq k j hk hj =
    ground (arith, eq_iff k j, eq_iff (escape k) (escape j), escape_injective k j hk hj)
