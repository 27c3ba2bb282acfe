-- ===== src/Kbs/LocalFs/Laws.antt =====
-- The local repository reads a resource from the file that it wrote it to.
use Prim.Native.Char.{Char}
use text.Mathlib.TextLemmas.{nil-append, cons-append, append_assoc, append_cancel_left}
use trustmee_artifact.Prelude.{
  Bytes, String, ◌≡◌, refl, sym, ap, ◌∙◌, inl, inr, true, false, arith, str_eq, eq_iff,
  if◌then◌else◌, Bool-cases, ok, err,
}
use trustmee_artifact.Prelude.Dict.{get-insert}
use trustmee_artifact.Kbs.UrlPath.{◌⧺◌, NoSlash}
use trustmee_artifact.Kbs.ResourceDesc.{ResourceDesc, read_failed, display, is_name, try_from}
use trustmee_artifact.Kbs.ResourceDesc.Laws.{HasNames, NoSlash-of_name, try_from-HasNames}
use trustmee_artifact.Kbs.LocalFs.{
  FileSystem, starts_with_slash, needs_slash, push, read_path, write_dir, write_path, ensure_dir,
  write_file, read_secret_resource, write_secret_resource,
}

-- A name is not empty, and neither starts nor ends with a slash.
name-starts : (s : String) → is_name s ≡ true → starts_with_slash s ≡ false
unfolding starts_with_slash
name-starts String.[] h = refl
name-starts (String.◌∷◌ c s) h = (NoSlash-of_name (String.◌∷◌ c s) h).0

starts-append : (s t : String) → is_name s ≡ true → starts_with_slash (s ⧺ t) ≡ false
starts-append String.[] t h = unfold is_name in cc h
starts-append (String.◌∷◌ c s) t h =
    rw cons-append (unfold starts_with_slash in (NoSlash-of_name (String.◌∷◌ c s) h).0)

needs_slash_of_NoSlash :
    (c : Char) (s : String) → NoSlash (String.◌∷◌ c s) → needs_slash (String.◌∷◌ c s) ≡ true
unfolding needs_slash
needs_slash_of_NoSlash c String.[] (h, _) = rw h
needs_slash_of_NoSlash c (String.◌∷◌ d s) (h, hs) = needs_slash_of_NoSlash d s hs

needs_slash_of_name : (s : String) → is_name s ≡ true → needs_slash s ≡ true
needs_slash_of_name String.[] h = unfold is_name in cc h
needs_slash_of_name (String.◌∷◌ c s) h = needs_slash_of_NoSlash c s (NoSlash-of_name _ h)

-- What a path ends with decides.
needs_slash-cons :
    (c d : Char) (s : String)
    → needs_slash (String.◌∷◌ c (String.◌∷◌ d s)) ≡ needs_slash (String.◌∷◌ d s)
unfolding needs_slash
needs_slash-cons c d s = refl

needs_slash-append :
    (p : String) (c : Char) (s : String)
    → needs_slash (p ⧺ String.◌∷◌ c s) ≡ needs_slash (String.◌∷◌ c s)
needs_slash-append String.[] c s = rw nil-append
needs_slash-append (String.◌∷◌ b String.[]) c s =
    rw (cons-append, nil-append) (needs_slash-cons b c s)
needs_slash-append (String.◌∷◌ b (String.◌∷◌ d p)) c s = rw cons-append (
    ap (λ (t : String). needs_slash (String.◌∷◌ b t)) (cons-append d p (String.◌∷◌ c s))
    ∙ needs_slash-cons b d (p ⧺ String.◌∷◌ c s)
    ∙ ap needs_slash (sym (cons-append d p (String.◌∷◌ c s)))
    ∙ needs_slash-append (String.◌∷◌ d p) c s)

needs_slash-append_name : (p s : String) → is_name s ≡ true → needs_slash (p ⧺ s) ≡ true
needs_slash-append_name p String.[] h = unfold is_name in cc h
needs_slash-append_name p (String.◌∷◌ c s) h =
    needs_slash-append p c s ∙ needs_slash_of_name (String.◌∷◌ c s) h

-- the path with the separator that `push` puts behind it
abbrev separated : String → String
separated path = if needs_slash path then path ⧺ String.◌∷◌ "/" String.[] else path

cut : (x y : String) → x ⧺ String.◌∷◌ "/" y ≡ (x ⧺ String.◌∷◌ "/" String.[]) ⧺ y
cut x y =
    ap (λ (t : String). x ⧺ t)
      (sym (cons-append "/" String.[] y ∙ ap (String.◌∷◌ "/") (nil-append y)))
    ∙ sym (append_assoc x (String.◌∷◌ "/" String.[]) y)

push_relative : (path p : String) → starts_with_slash p ≡ false → push path p ≡ separated path ⧺ p
unfolding push
push_relative path p h = elim (Bool-cases (needs_slash path)) [
  | inl yes_slash ↦ rw (h, yes_slash) (cut path p)
  | inr no_slash ↦ rw (h, no_slash)
]

push_onto_name :
    (q s p : String)
    → is_name s ≡ true
    → starts_with_slash p ≡ false
    → push (q ⧺ s) p ≡ q ⧺ (s ⧺ String.◌∷◌ "/" p)
unfolding push
push_onto_name q s p h hp =
    rw (hp, needs_slash-append_name q s h) (append_assoc q s (String.◌∷◌ "/" p))

push_onto_dir :
    (q : String) (d : ResourceDesc)
    → is_name d.resource_type ≡ true
    → is_name d.resource_tag ≡ true
    → push ((q ⧺ d.repository_name) ⧺ String.◌∷◌ "/" d.resource_type) d.resource_tag
      ≡ q ⧺ (d.repository_name ⧺ String.◌∷◌ "/" (d.resource_type ⧺ String.◌∷◌ "/" d.resource_tag))
push_onto_dir q d t g =
    let dir = q ⧺ d.repository_name in
    ap (λ (p : String). push p d.resource_tag) (cut dir d.resource_type)
    ∙ push_onto_name (dir ⧺ String.◌∷◌ "/" String.[]) d.resource_type d.resource_tag t
        (name-starts _ g)
    ∙ sym (cut dir (d.resource_type ⧺ String.◌∷◌ "/" d.resource_tag))
    ∙ append_assoc q d.repository_name _

-- The file that a resource is read from is the file that it is written to, although the code
-- builds the two paths in different ways.
pub read_path-eq-write_path :
    (repo_dir_path value : String) (d : ResourceDesc)
    → try_from value ≡ ok d
    → read_path repo_dir_path d ≡ write_path repo_dir_path d
read_path-eq-write_path base value d h =
    let names = (try_from-HasNames value d h).0 in
    let r = names.repository_name in
    let t = names.resource_type in
    let g = names.resource_tag in
    unfold read_path write_path write_dir display in
    push_relative base _ (starts-append d.repository_name _ r)
    ∙ sym (
        ap (λ (p : String). push (push p d.resource_type) d.resource_tag)
          (push_relative base d.repository_name (name-starts d.repository_name r))
        ∙ ap (λ (p : String). push p d.resource_tag)
            (push_onto_name (separated base) d.repository_name d.resource_type r (name-starts _ t)
              ∙ sym (
                  append_assoc (separated base) d.repository_name (String.◌∷◌ "/" d.resource_type)))
        ∙ push_onto_dir (separated base) d t g)

read_path-separated :
    (base : String) (d : ResourceDesc) → HasNames d → read_path base d ≡ separated base ⧺ display d
unfolding read_path
read_path-separated base d names =
    push_relative base (display d)
      (unfold display in starts-append d.repository_name _ names.repository_name)

-- Two accepted descriptions are read from the same file exactly if their texts are the same.
path_eq :
    (base v w : String) (d e : ResourceDesc)
    → try_from v ≡ ok d
    → try_from w ≡ ok e
    → str_eq (read_path base d) (read_path base e) ≡ str_eq v w
path_eq base v w d e hd he =
    let (nd, ed) = try_from-HasNames v d hd in
    let (ne, ee) = try_from-HasNames w e he in
    rw (read_path-separated base d nd, read_path-separated base e ne, ed, ee)
      (ground (
        arith,
        eq_iff v w,
        eq_iff (separated base ⧺ v) (separated base ⧺ w),
        append_cancel_left (separated base) v w,
      ))

-- A resource that was written without an error is read back, and a resource of another name reads
-- as before. (Reading back fails if the system refuses to read the file.)
pub read-write :
    (base v w : String) (d e : ResourceDesc) (value : Bytes) (fs : FileSystem)
    → try_from v ≡ ok d
    → try_from w ≡ ok e
    → (write_secret_resource base d value fs).0 ≡ ok tt
    → read_secret_resource base e (write_secret_resource base d value fs).1 ≡ (
        if str_eq v w
        then (if fs.read_ok (read_path base e) then ok value else err read_failed)
        else read_secret_resource base e fs)
unfolding write_secret_resource read_secret_resource ensure_dir write_file
read-write base v w d e value fs hd he done = ground (
  arith,
  read_path-eq-write_path base v d hd,
  path_eq base v w d e hd he,
  get-insert (write_path base d) (read_path base e) value fs.files,
)
