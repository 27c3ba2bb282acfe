-- ===== src/Kbs/ResourceDesc/Laws.antt =====
-- The parser of resource descriptions accepts exactly the printed form of three names.
use Prim.Native.Char.{Char, code}
use text.Mathlib.TextLemmas.{nil-append, cons-append}
use trustmee_artifact.Prelude.{
  ℕ, String, ◌≡◌, refl, sym, ap, ◌∙◌, ◌≢◌, ◌↔◌, true, false, List, [], ◌∷◌, arith, ◌==◌, All, ok,
}
use trustmee_artifact.Kbs.UrlPath.{split, join, ◌⧺◌, NoSlash, join-split, split-join}
use trustmee_artifact.Kbs.ResourceDesc.{
  ResourceDesc, is_name_start, is_name_char, all_name_chars, is_name, of_parts, try_from, display,
}

-- The regular expression `[a-zA-Z0-9_\-]+[a-zA-Z0-9_\-\.]*` read as a language: a non-empty run of
-- starting characters, and after it a run of name characters.
abbrev AllStart : String → Type 0
AllStart String.[] = Unit
AllStart (String.◌∷◌ c s) = (is_name_start (code c) ≡ true) × AllStart s

abbrev AllChar : String → Type 0
AllChar String.[] = Unit
AllChar (String.◌∷◌ c s) = (is_name_char (code c) ≡ true) × AllChar s

abbrev pub IsName : String → Type 0
IsName s =
    (c : Char) × (a : String) × (b : String) × (s ≡ String.◌∷◌ c (a ⧺ b))
    × (is_name_start (code c) ≡ true)
    × AllStart a
    × AllChar b

AllChar-of : (s : String) → all_name_chars s ≡ true → AllChar s
unfolding all_name_chars
AllChar-of String.[] h = tt
AllChar-of (String.◌∷◌ c s) h = (ground arith, AllChar-of s (ground arith))

all_name_chars_of : (s : String) → AllChar s → all_name_chars s ≡ true
unfolding all_name_chars
all_name_chars_of String.[] h = refl
all_name_chars_of (String.◌∷◌ c s) (h, hs) = rw (h, all_name_chars_of s hs)

start-char : (c : ℕ) → is_name_start c ≡ true → is_name_char c ≡ true
unfolding is_name_char
start-char c h = ground arith

AllChar-append : (a b : String) → AllStart a → AllChar b → AllChar (a ⧺ b)
AllChar-append String.[] b ha hb = rw nil-append hb
AllChar-append (String.◌∷◌ c a) b (h, ha) hb =
    rw cons-append (start-char (code c) h, AllChar-append a b ha hb)

IsName-of : (s : String) → is_name s ≡ true → IsName s
unfolding is_name
IsName-of String.[] h = cc
IsName-of (String.◌∷◌ c s) h = (
  c,
  String.[],
  s,
  ap (String.◌∷◌ c) (sym (nil-append s)),
  ground arith,
  tt,
  AllChar-of s (ground arith),
)

is_name_of : (s : String) → IsName s → is_name s ≡ true
unfolding is_name
is_name_of s (c, a, b, e, h, ha, hb) =
    rw (e, h, all_name_chars_of (a ⧺ b) (AllChar-append a b ha hb))

-- A name has no slash.
char-ne-slash : (c : ℕ) → is_name_char c ≡ true → (c == b'/') ≡ false
unfolding is_name_char is_name_start
char-ne-slash c h = ground arith

NoSlash-of_chars : (s : String) → AllChar s → NoSlash s
NoSlash-of_chars String.[] h = tt
NoSlash-of_chars (String.◌∷◌ c s) (h, hs) = (char-ne-slash (code c) h, NoSlash-of_chars s hs)

pub NoSlash-of_name : (s : String) → is_name s ≡ true → NoSlash s
unfolding is_name
NoSlash-of_name String.[] h = tt
NoSlash-of_name (String.◌∷◌ c s) h = (
  char-ne-slash (code c) (start-char (code c) (ground arith)),
  NoSlash-of_chars s (AllChar-of s (ground arith)),
)

-- Each of the three fields is a name.
pub record HasNames (d : ResourceDesc) : Type 0 where
  pub repository_name : is_name d.repository_name ≡ true
  pub resource_type : is_name d.resource_type ≡ true
  pub resource_tag : is_name d.resource_tag ≡ true

abbrev parts : ResourceDesc → List String
parts d = d.repository_name ∷ d.resource_type ∷ d.resource_tag ∷ []

of_parts-ok :
    (ps : List String) (d : ResourceDesc) → of_parts ps ≡ ok d → (ps ≡ parts d) × HasNames d
unfolding of_parts
of_parts-ok (r ∷ t ∷ g ∷ []) d h = (ground arith, ground arith)
of_parts-ok [] d h = cc
of_parts-ok (r ∷ []) d h = cc
of_parts-ok (r ∷ t ∷ []) d h = cc
of_parts-ok (r ∷ t ∷ g ∷ x ∷ ps) d h = cc

join-parts : (d : ResourceDesc) → join (parts d) ≡ display d
unfolding join display
join-parts d = refl

pub try_from-HasNames :
    (s : String) (d : ResourceDesc) → try_from s ≡ ok d → HasNames d × (display d ≡ s)
unfolding try_from
try_from-HasNames s d h =
    let (e, names) = of_parts-ok (split s) d h in
    (names, sym (join-parts d) ∙ ap join (sym e) ∙ join-split s)

of_parts_of_names : (d : ResourceDesc) → HasNames d → of_parts (parts d) ≡ ok d
unfolding of_parts
of_parts_of_names d h = rw (h.repository_name, h.resource_type, h.resource_tag)

-- Printing a description of three names and parsing it gives it back.
pub try_from-display : (d : ResourceDesc) → HasNames d → try_from (display d) ≡ ok d
unfolding try_from
try_from-display d h =
    let plain : All NoSlash (parts d) = (
      NoSlash-of_name _ h.repository_name,
      (NoSlash-of_name _ h.resource_type, (NoSlash-of_name _ h.resource_tag, tt)),
    ) in
    rw (← join-parts d, split-join d.repository_name (d.resource_type ∷ d.resource_tag ∷ []) plain)
      (of_parts_of_names d h)

-- The parser returns a description exactly for the text `repo/type/tag` of that description in
-- which each of the three parts is in the language of the regular expression.
pub try_from_iff :
    (s : String) (d : ResourceDesc)
    → (try_from s ≡ ok d) ↔ (
        (s ≡ display d) × IsName d.repository_name × IsName d.resource_type × IsName d.resource_tag)
try_from_iff s d = (
  λ h.
      let (names, e) = try_from-HasNames s d h in
      (
        sym e,
        IsName-of _ names.repository_name,
        IsName-of _ names.resource_type,
        IsName-of _ names.resource_tag,
      ),
  λ h.
      let (e, r, t, g) = h in
      rw e (
        try_from-display d (record {
          repository_name = is_name_of _ r;
          resource_type = is_name_of _ t;
          resource_tag = is_name_of _ g;
        })),
)

-- A part that names an entry of its own directory, and nothing outside it.
abbrev pub IsPlain : String → Type 0
IsPlain s = (s ≢ "") × (s ≢ ".") × (s ≢ "..") × NoSlash s

is_name-IsPlain : (s : String) → is_name s ≡ true → IsPlain s
is_name-IsPlain s h = (
  λ e. unfold is_name in cc (ap is_name e),
  λ e. unfold is_name is_name_start in cc (sym (ap is_name e) ∙ h),
  λ e. unfold is_name is_name_start in cc (sym (ap is_name e) ∙ h),
  NoSlash-of_name s h,
)

-- No accepted description leaves its directory: none of its parts is empty, "." or "..", or has a
-- slash.
pub try_from-IsPlain :
    (s : String) (d : ResourceDesc)
    → try_from s ≡ ok d
    → IsPlain d.repository_name × IsPlain d.resource_type × IsPlain d.resource_tag
try_from-IsPlain s d h =
    let (names, e) = try_from-HasNames s d h in
    (
      is_name-IsPlain _ names.repository_name,
      is_name-IsPlain _ names.resource_type,
      is_name-IsPlain _ names.resource_tag,
    )
