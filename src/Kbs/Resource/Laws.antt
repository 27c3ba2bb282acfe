-- ===== src/Kbs/Resource/Laws.antt =====
-- What the resource plugin does with a repository, and which requests it has authorised.
use trustmee_artifact.Prelude.{
  Bytes, String, ◌≡◌, refl, ◌∙◌, ◌⊎◌, inl, inr, true, false, List, [], arith, str_eq, eq_iff,
  Bool-cases, Result, ok, err, panic, ◌>>◌, >>=-eq-ok,
}
use trustmee_artifact.Kbs.UrlPath.{join}
use trustmee_artifact.Kbs.ResourceDesc.{ResourceDesc, ResourceError, try_from}
use trustmee_artifact.Kbs.LocalFs.{FileSystem, read_path, write_secret_resource}
use trustmee_artifact.Kbs.LocalFs.Laws.{read-write}
use trustmee_artifact.Kbs.PluginManager.{Query}
use trustmee_artifact.Kbs.Resource.{
  StorageBackend, ResourceStorage, local_fs, handle_post, handle_get, handle, validate_auth,
  encrypted,
}

module _ {W : Type 0} (backend : StorageBackend W) where
  -- Every request that the plugin answers without an error is a POST, which the plugin wants
  -- validated as an administrator's, or a GET, whose response it wants encrypted and which leaves
  -- the repository as it was.
  pub handled_is_authorised :
      (body response : Bytes) (query : Query) (path : List String) (method : String)
      (s : ResourceStorage W)
      → (handle backend body query path method s).0 ≡ ok response
      → ((method ≡ "POST") × (validate_auth backend body query path method s ≡ ok true))
        ⊎ ((method ≡ "GET")
            × (encrypted backend body query path method s ≡ ok true)
            × ((handle backend body query path method s).1.repository ≡ s.repository))
  unfolding handle validate_auth encrypted
  handled_is_authorised body response query path method s h =
      elim (Bool-cases (str_eq method "POST")) [
        | inl post ↦ inl ((eq_iff method "POST").0 post, rw post)
        | inr not_post ↦ elim (Bool-cases (str_eq method "GET")) [
          | inl get ↦ inr ((eq_iff method "GET").0 get, rw get, rw (not_post, get) (kept _))
          | inr not_get ↦ absurd (refused not_post not_get)
        ]
      ]
    where
      kept :
          (d : Result ResourceError ResourceDesc)
          → (handle_get backend d s).1.repository ≡ s.repository
      kept (ok d) = refl
      kept (err e) = refl
      kept panic = refl

      refused : str_eq method "POST" ≡ false → str_eq method "GET" ≡ false → ⊥
      refused p g = ground arith

-- A resource posted without an error is what a later GET of any path returns whose parts spell the
-- same description, if the system lets the file be read.
pub get_after_post :
    (base : String) (body other : Bytes) (query query' : Query) (path path' : List String)
    (d : ResourceDesc) (s : ResourceStorage FileSystem)
    → try_from (join path) ≡ ok d
    → join path' ≡ join path
    → (handle (local_fs base) body query path "POST" s).0 ≡ ok []
    → s.repository.read_ok (read_path base d) ≡ true
    → (handle
        (local_fs base)
        other
        query'
        path'
        "GET"
        (handle (local_fs base) body query path "POST" s).1).0
      ≡ ok body
unfolding handle
get_after_post base body other query query' path path' d s parsed same posted readable =
    let posted' : ((write_secret_resource base d body s.repository).0 >> ok []) ≡ ok [] =
      rw (parsed, handle_post) at posted in
    let (unit, written, _) = >>=-eq-ok _ _ posted' in
    rw (same, parsed)
      (read-write base (join path) (join path) d d body s.repository parsed parsed written
        ∙ rw ((eq_iff (join path) (join path)).1 refl, readable))
