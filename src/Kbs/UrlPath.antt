-- ===== src/Kbs/UrlPath.antt =====
-- `path.split('/')` and `join("/")`, as kbs/src/api_server.rs and the resource plugin use them.
use Prim.Native.Char.{Char, code}
use Prim.Native.String as Text
use text.Mathlib.TextEquality.{Char-path}
use text.Mathlib.TextLemmas.{nil-append, cons-append}
use trustmee_artifact.Prelude.{
  String, ◌≡◌, refl, sym, ap, ◌∙◌, inl, inr, true, false, List, [], ◌∷◌, ◌==◌, if◌then◌else◌,
  Bool-cases, All, ==_iff,
}

infixr 65 ◌⧺◌
abbrev pub ◌⧺◌ : String → String → String
s ⧺ t = Text.◌++◌ s t

-- one more character in front of the first part
abbrev push_front : Char → List String → List String
push_front c [] = (String.◌∷◌ c String.[]) ∷ []
push_front c (p ∷ ps) = (String.◌∷◌ c p) ∷ ps

unfoldable pub split : String → List String
split String.[] = String.[] ∷ []
split (String.◌∷◌ c s) =
    let rest = split s in if code c == b'/' then String.[] ∷ rest else push_front c rest

unfoldable pub join : List String → String
join [] = String.[]
join (p ∷ []) = p
join (p ∷ q ∷ ps) = p ⧺ String.◌∷◌ "/" (join (q ∷ ps))

abbrev pub NoSlash : String → Type 0
NoSlash String.[] = Unit
NoSlash (String.◌∷◌ c s) = ((code c == b'/') ≡ false) × NoSlash s

split-cons : (s : String) → (p : String) × (ps : List String) × (split s ≡ p ∷ ps)
unfolding split
split-cons String.[] = (String.[], [], refl)
split-cons (String.◌∷◌ c s) =
    let (p, ps, e) = split-cons s in
    elim (Bool-cases (code c == b'/')) [
      | inl slash ↦ (String.[], split s, rw slash)
      | inr other ↦ (String.◌∷◌ c p, ps, rw (other, e))
    ]

join-push_front :
    (c : Char) (p : String) (ps : List String)
    → join (push_front c (p ∷ ps)) ≡ String.◌∷◌ c (join (p ∷ ps))
unfolding join
join-push_front c p [] = refl
join-push_front c p (q ∷ ps) = cons-append c p _

slash_of_code : (c : Char) → (code c == b'/') ≡ true → "/" ≡ c
slash_of_code c h = Char-path "/" c (sym ((==_iff (code c) b'/').0 h))

join-nil_cons :
    (p : String) (ps : List String) → join (String.[] ∷ p ∷ ps) ≡ String.◌∷◌ "/" (join (p ∷ ps))
unfolding join
join-nil_cons p ps = nil-append _

split_at_slash :
    (c : Char) (s : String) → (code c == b'/') ≡ true → split (String.◌∷◌ c s) ≡ String.[] ∷ split s
unfolding split
split_at_slash c s h = rw h

split_at_other :
    (c : Char) (s : String)
    → (code c == b'/') ≡ false
    → split (String.◌∷◌ c s) ≡ push_front c (split s)
unfolding split
split_at_other c s h = rw h

join-split_nil : join (split String.[]) ≡ String.[]
unfolding join split
join-split_nil = refl

-- Splitting a path and joining its parts gives the path back.
pub join-split : (s : String) → join (split s) ≡ s
join-split String.[] = join-split_nil
join-split (String.◌∷◌ c s) =
    let (p, ps, e) = split-cons s in
    let ih : join (p ∷ ps) ≡ s = rw (← e) (join-split s) in
    elim (Bool-cases (code c == b'/')) [
      | inl slash ↦
          rw (split_at_slash c s slash, e) (join-nil_cons p ps ∙ cc (ih, slash_of_code c slash))
      | inr other ↦ rw (split_at_other c s other, e) (join-push_front c p ps ∙ ap (String.◌∷◌ c) ih)
    ]

-- A part with no slash is the first part of what it is put in front of.
pub split-part : (p s : String) → NoSlash p → split (p ⧺ String.◌∷◌ "/" s) ≡ p ∷ split s
unfolding split
split-part String.[] s h = rw nil-append
split-part (String.◌∷◌ c p) s (other, h) = rw (cons-append, other, split-part p s h)

pub split-last : (p : String) → NoSlash p → split p ≡ p ∷ []
unfolding split
split-last String.[] h = refl
split-last (String.◌∷◌ c p) (other, h) = rw (other, split-last p h)

-- Joining parts with no slash and splitting the path gives the parts back.
pub split-join :
    (p : String) (ps : List String) → All NoSlash (p ∷ ps) → split (join (p ∷ ps)) ≡ p ∷ ps
unfolding join
split-join p [] (h, _) = split-last p h
split-join p (q ∷ ps) (h, hs) = rw (split-part p (join (q ∷ ps)) h, split-join q ps hs)
