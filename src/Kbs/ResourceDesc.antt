-- ===== src/Kbs/ResourceDesc.antt =====
-- kbs/src/plugins/implementations/resource/backend.rs: the description of a secret resource, its
-- parser and its printer. The regular expression of the source has three names between slashes, and
-- no name contains a slash, so matching it is splitting at slashes and testing the parts.
pub mod Laws
use Prim.Native.Char.{code}
use trustmee_artifact.Prelude.{
  ℕ, zero, suc, ◌+◌, ◌-◌, ◌*◌, ◌/◌, ◌%◌, ◌^◌, ◌≤◌, ◌<◌, String, ◌≡◌, refl, sym, ap, ◌∙◌, ◌≢◌, ◌↔◌,
  ◌⊎◌, inl, inr, Bool, true, false, ◌&&◌, ◌||◌, not, Option, none, some, List, [], ◌∷◌, ◌++◌, map,
  arith, str_eq, eq_iff, ltb, leb, ◌==◌, if◌then◌else◌, Bool-cases, Option-cases, length, get_elem?,
  take, drop, replicate, All, length-append, length-take, length-drop, Result, ok, err, panic,
  ◌>>=◌, ◌>>◌, ok_or, guard, map_err, >>=-eq-ok, ==_iff,
}
use trustmee_artifact.Kbs.UrlPath.{split, ◌⧺◌}

pub record ResourceDesc : Type 0 where
  pub repository_name : String
  pub resource_type : String
  pub resource_tag : String

-- `anyhow::Error`, told apart by where the code raises it
pub data ResourceError : Type 0 where
  illegal_resource_desc illegal_method read_failed create_dir_failed write_failed : ResourceError

is_alphanumeric : ℕ → Bool
is_alphanumeric c =
    (leb b'0' c && leb c b'9') || (leb b'A' c && leb c b'Z') || (leb b'a' c && leb c b'z')

-- `[a-zA-Z0-9_\-]`
unfoldable pub is_name_start : ℕ → Bool
unfolding is_alphanumeric
is_name_start c = is_alphanumeric c || c == b'_' || c == b'-'

-- `[a-zA-Z0-9_\-\.]`
unfoldable pub is_name_char : ℕ → Bool
unfolding is_name_start
is_name_char c = is_name_start c || c == b'.'

unfoldable pub all_name_chars : String → Bool
all_name_chars String.[] = true
all_name_chars (String.◌∷◌ c s) = is_name_char (code c) && all_name_chars s

-- `[a-zA-Z0-9_\-]+[a-zA-Z0-9_\-\.]*`, of the whole text
unfoldable pub is_name : String → Bool
is_name String.[] = false
is_name (String.◌∷◌ c s) = is_name_start (code c) && all_name_chars s

unfoldable pub of_parts : List String → Result ResourceError ResourceDesc
of_parts (repo ∷ type ∷ tag ∷ []) =
    if is_name repo && is_name type && is_name tag
    then ok (record { repository_name = repo; resource_type = type; resource_tag = tag })
    else err illegal_resource_desc
of_parts _ = err illegal_resource_desc

unfoldable pub try_from : String → Result ResourceError ResourceDesc
unfolding of_parts
try_from value = of_parts (split value)

-- `write!(f, "{}/{}/{}", …)`
unfoldable pub display : ResourceDesc → String
display d = d.repository_name ⧺ String.◌∷◌ "/" (d.resource_type ⧺ String.◌∷◌ "/" d.resource_tag)
