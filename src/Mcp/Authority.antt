-- ===== src/Mcp/Authority.antt =====
-- What an allowed operation stays within (internal/mcp/credentials.go).
use videocutlist.Prelude.{
  ◌≡◌, refl, Bool, true, false, not, ◌&&◌, ◌||◌, List, [], ◌∷◌, if◌then◌else◌, length, ◌==◌, arith,
  ◌∙◌, sym,
}
use videocutlist.Prelude.Text.{text_eq, is_empty}
use videocutlist.Mcp.Ids.{contains}
use videocutlist.Mcp.Scopes.{
  Permission, media_read, projects_read, projects_write, previews_create, detection_run,
  exports_prepare, exports_run, exports_download, jobs_read, jobs_cancel, Credential, Resource,
  MediaResource, has_permission, allows_media, allows_each, allows_project_summary, allows_project,
  allows_project_resource, allows_export_resource, allows_named_media, allows,
}

-- Everything that a resource with a project names is in the scopes of the credential.
pub record InScope (c : Credential) (r : Resource) : Type 0 where
  pub project : allows_project_summary c r.project_id ≡ true
  pub each_media : allows_each c r.project_media ≡ true
  pub named_media : allows_named_media c r ≡ true

abbrev no_media : List MediaResource → Bool
no_media xs = length xs == 0

no_media-each :
    (c : Credential) (ms : List MediaResource) → no_media ms ≡ true → allows_each c ms ≡ true
no_media-each c [] h = refl
no_media-each c (m ∷ ms) h = absurd (ground (arith, h))

project_branches :
    (s n p e m : Bool)
    → (n ≡ true → e ≡ true)
    → (if s && n
        then if not p then false else m
        else if not (if not p || n then false else e)
        then false
        else m)
      ≡ true
    → (p ≡ true) × (e ≡ true) × (m ≡ true)
project_branches s n p e m f h = ground arith

project_resource-InScope :
    (c : Credential) (r : Resource) → allows_project_resource c r ≡ true → InScope c r
unfolding allows_project_resource allows_project
project_resource-InScope c r h =
    let (p, e, m) =
      project_branches r.project_summary (no_media r.project_media)
        (allows_project_summary c r.project_id) (allows_each c r.project_media)
        (allows_named_media c r) (no_media-each c r.project_media) h in
    record { project = p; each_media = e; named_media = m }

-- The permissions that concern a single media item.
abbrev pub is_media_permission : Permission → Bool
is_media_permission p = text_eq p media_read || text_eq p previews_create

export-project :
    (c : Credential) (r : Resource)
    → is_empty r.project_id ≡ false
    → allows_export_resource c r ≡ allows_project_resource c r
unfolding allows_export_resource
export-project c r h = rw h refl

abbrev choose : (h b1 b2 b3 b4 b5 b6 b7 m1 m2 m3 ep pr : Bool) → Bool
choose h b1 b2 b3 b4 b5 b6 b7 m1 m2 m3 ep pr =
    if not h
    then false
    else if b1
    then m1
    else if b2
    then m2
    else if b3
    then if not m3 then false else pr
    else if b4
    then pr
    else if b5
    then pr
    else if b6
    then ep
    else if b7
    then pr
    else false

choose-project :
    (h b1 b2 b3 b4 b5 b6 b7 m1 m2 m3 ep pr : Bool)
    → (b1 || b2) ≡ false
    → ep ≡ pr
    → choose h b1 b2 b3 b4 b5 b6 b7 m1 m2 m3 ep pr ≡ true
    → pr ≡ true
choose-project h b1 b2 b3 b4 b5 b6 b7 m1 m2 m3 ep pr n q a = ground arith

-- The permissions of the last two groups.
abbrev is_export_permission : Permission → Bool
is_export_permission p = contains p (exports_prepare ∷ exports_run ∷ exports_download ∷ [])

abbrev is_job_permission : Permission → Bool
is_job_permission p = contains p (jobs_read ∷ jobs_cancel ∷ [])

allows-choose :
    (c : Credential) (p : Permission) (r : Resource)
    → is_empty r.project_id ≡ false
    → allows c p r
      ≡ choose
          (has_permission c p)
          (text_eq p media_read)
          (text_eq p previews_create)
          (text_eq p detection_run)
          (text_eq p projects_read)
          (text_eq p projects_write)
          (is_export_permission p)
          (is_job_permission p)
          (allows_named_media c r)
          (allows_media c r.media_id r.root_id)
          (allows_media c r.media_id r.root_id)
          (allows_export_resource c r)
          (allows_project_resource c r)
unfolding allows
allows-choose c p r h = rw h refl

allows-project_resource :
    (c : Credential) (p : Permission) (r : Resource)
    → is_empty r.project_id ≡ false
    → is_media_permission p ≡ false
    → allows c p r ≡ true
    → allows_project_resource c r ≡ true
allows-project_resource c p r h n a =
    choose-project (has_permission c p) (text_eq p media_read) (text_eq p previews_create)
      (text_eq p detection_run) (text_eq p projects_read) (text_eq p projects_write)
      (is_export_permission p) (is_job_permission p) (allows_named_media c r)
      (allows_media c r.media_id r.root_id) (allows_media c r.media_id r.root_id)
      (allows_export_resource c r) (allows_project_resource c r) n (export-project c r h)
      (sym (allows-choose c p r h) ∙ a)

allows-permission :
    (c : Credential) (p : Permission) (r : Resource)
    → allows c p r ≡ true
    → has_permission c p ≡ true
unfolding allows
allows-permission c p r a = granted (has_permission c p) _ a
  where
    granted : (h x : Bool) → (if not h then false else x) ≡ true → h ≡ true
    granted h x a = ground arith

allows-media :
    (c : Credential) (p : Permission) (r : Resource)
    → (is_media_permission p || text_eq p detection_run) ≡ true
    → allows c p r ≡ true
    → allows_named_media c r ≡ true
unfolding allows
allows-media c p r m a =
    media_branches (has_permission c p) (text_eq p media_read) (text_eq p previews_create)
      (text_eq p detection_run) (is_empty r.media_id) (allows_media c r.media_id r.root_id) _ _ m a
  where
    media_branches :
        (h b1 b2 b3 e m pr x : Bool)
        → (b1 || b2 || b3) ≡ true
        → (if not h
            then false
            else if b1
            then e || m
            else if b2
            then m
            else if b3
            then if not m then false else pr
            else x)
          ≡ true
        → (e || m) ≡ true
    media_branches h b1 b2 b3 e m pr x n a = ground arith

-- An operation is allowed only with its permission. If the resource names a project and the permission
-- is not one for a single media item, the project, each of its media listed and the media item named are
-- in the scopes of the credential; for reading media, previews and detection the media item named is.
pub allows-InScope :
    (c : Credential) (p : Permission) (r : Resource)
    → allows c p r ≡ true
    → (has_permission c p ≡ true)
      × (is_empty r.project_id ≡ false → is_media_permission p ≡ false → InScope c r)
      × ((is_media_permission p || text_eq p detection_run) ≡ true → allows_named_media c r ≡ true)
allows-InScope c p r a = (
  allows-permission c p r a,
  λ named kind. project_resource-InScope c r (allows-project_resource c p r named kind a),
  λ kind. allows-media c p r kind a,
)
