-- ===== src/Mcp/Scopes.antt =====
-- internal/mcp/credentials.go: what a credential grants. A permission and the kind of a scope are
-- their texts.
use videocutlist.Prelude.{
  ℕ, Bool, true, false, not, ◌&&◌, ◌||◌, Option, none, some, List, [], ◌∷◌, if◌then◌else◌, all,
  length, ◌==◌, leb,
}
use videocutlist.Prelude.Text.{Text, codes, text_eq, is_empty}
use videocutlist.Mcp.Ids.{valid_safe_identifier, contains}

abbrev pub Permission : Type 0
Permission = Text

abbrev pub media_read : Permission
media_read = codes "media:read"

abbrev pub projects_read : Permission
projects_read = codes "projects:read"

abbrev pub projects_write : Permission
projects_write = codes "projects:write"

abbrev pub previews_create : Permission
previews_create = codes "previews:create"

abbrev pub detection_run : Permission
detection_run = codes "detection:run"

abbrev pub exports_prepare : Permission
exports_prepare = codes "exports:prepare"

abbrev pub exports_run : Permission
exports_run = codes "exports:run"

abbrev pub jobs_read : Permission
jobs_read = codes "jobs:read"

abbrev pub jobs_cancel : Permission
jobs_cancel = codes "jobs:cancel"

abbrev pub exports_download : Permission
exports_download = codes "exports:download"

abbrev pub known_permissions : List Permission
known_permissions =
    media_read ∷ projects_read ∷ projects_write ∷ previews_create ∷ detection_run ∷ exports_prepare
    ∷ exports_run ∷ jobs_read ∷ jobs_cancel ∷ exports_download ∷ []

pub record MediaScope : Type 0 where
  pub media_kind : Text
  pub root_ids : List Text
  pub media_ids : List Text

pub record ProjectScope : Type 0 where
  pub project_kind : Text
  pub project_ids : List Text

-- Instants are nanoseconds since 1970.
pub record Credential : Type 0 where
  pub id : Text
  pub token_identifier : Text
  pub name : Text
  pub permissions : List Permission
  pub media_scope : MediaScope
  pub project_scope : ProjectScope
  pub expires_at : Option ℕ
  pub revoked_at : Option ℕ
  pub unattended_exports : Bool
  pub created_at : ℕ
  pub last_used_at : Option ℕ

pub record MediaResource : Type 0 where
  pub id : Text
  pub root_id : Text

pub record Resource : Type 0 where
  pub media_id : Text
  pub root_id : Text
  pub project_id : Text
  pub project_media : List MediaResource
  pub project_summary : Bool

abbrev none_of {ℓ} : {A : Type ℓ} → List A → Bool
none_of xs = length xs == 0

unfoldable pub media_scope_allows : MediaScope → Text → Text → Bool
media_scope_allows scope media root =
    if not (valid_safe_identifier media)
    then false
    else if text_eq scope.media_kind (codes "all")
    then none_of scope.root_ids && none_of scope.media_ids
    else if text_eq scope.media_kind (codes "roots")
    then valid_safe_identifier root && contains root scope.root_ids
    else if text_eq scope.media_kind (codes "media")
    then contains media scope.media_ids
    else false

unfoldable pub project_scope_allows : ProjectScope → Text → Bool
project_scope_allows scope project =
    if text_eq scope.project_kind (codes "all")
    then none_of scope.project_ids
    else if text_eq scope.project_kind (codes "projects")
    then contains project scope.project_ids
    else false

unfoldable pub has_permission : Credential → Permission → Bool
has_permission c p = contains p c.permissions

unfoldable pub allows_media : Credential → Text → Text → Bool
unfolding media_scope_allows
allows_media c media root = media_scope_allows c.media_scope media root

abbrev pub allows_each : Credential → List MediaResource → Bool
allows_each c = all (λ m. allows_media c m.id m.root_id)

unfoldable pub allows_project_summary : Credential → Text → Bool
unfolding project_scope_allows
allows_project_summary c project =
    valid_safe_identifier project && project_scope_allows c.project_scope project

unfoldable pub allows_project : Credential → Text → List MediaResource → Bool
unfolding allows_project_summary allows_media
allows_project c project media =
    if not (allows_project_summary c project) || none_of media then false else allows_each c media

unfoldable pub in_media_scope : Credential → List MediaResource → Bool
unfolding allows_media
in_media_scope c media = if none_of media then false else allows_each c media

unfoldable pub allows_all_media : Credential → List MediaResource → Bool
unfolding allows_media has_permission
allows_all_media c media =
    if none_of media || not (has_permission c media_read) then false else allows_each c media

unfoldable pub allows_create_project : Credential → List MediaResource → Bool
unfolding allows_all_media has_permission
allows_create_project c media =
    has_permission c projects_read && has_permission c projects_write && allows_all_media c media

unfoldable pub allows_unattended_export : Credential → Bool
unfolding has_permission
allows_unattended_export c = c.unattended_exports && has_permission c exports_run

-- `resource.MediaID == "" || c.AllowsMedia(resource.MediaID, resource.RootID)`
abbrev pub allows_named_media : Credential → Resource → Bool
allows_named_media c r = is_empty r.media_id || allows_media c r.media_id r.root_id

unfoldable pub allows_project_resource : Credential → Resource → Bool
unfolding allows_project allows_project_summary allows_media
allows_project_resource c r =
    if r.project_summary && none_of r.project_media
    then if not (allows_project_summary c r.project_id) then false else allows_named_media c r
    else if not (allows_project c r.project_id r.project_media)
    then false
    else allows_named_media c r

unfoldable pub allows_export_resource : Credential → Resource → Bool
unfolding allows_project_resource in_media_scope allows_media
allows_export_resource c r =
    if not (is_empty r.project_id)
    then allows_project_resource c r
    else if not (none_of r.project_media)
    then in_media_scope c r.project_media
    else not (is_empty r.media_id) && allows_media c r.media_id r.root_id

abbrev is_any : Permission → List Permission → Bool
is_any p ps = contains p ps

unfoldable pub allows : Credential → Permission → Resource → Bool
unfolding has_permission allows_media allows_project_resource allows_create_project
    allows_export_resource allows_all_media
allows c p r =
    if not (has_permission c p)
    then false
    else if text_eq p media_read
    then is_empty r.media_id || allows_media c r.media_id r.root_id
    else if text_eq p previews_create
    then allows_media c r.media_id r.root_id
    else if text_eq p detection_run
    then if not (allows_media c r.media_id r.root_id)
      then false
      else if is_empty r.project_id
      then true
      else allows_project_resource c r
    else if text_eq p projects_read
    then is_empty r.project_id && r.project_summary || allows_project_resource c r
    else if text_eq p projects_write
    then if is_empty r.project_id
      then allows_create_project c r.project_media
      else allows_project_resource c r
    else if is_any p (exports_prepare ∷ exports_run ∷ exports_download ∷ [])
    then allows_export_resource c r
    else if is_any p (jobs_read ∷ jobs_cancel ∷ [])
    then if not (is_empty r.project_id)
      then allows_project_resource c r
      else if not (none_of r.project_media)
      then allows_all_media c r.project_media
      else if not (is_empty r.media_id)
      then allows_media c r.media_id r.root_id
      else true
    else false

-- The errors of the package, and that of an INSERT which the table refuses.
pub data CredentialError : Type 0 where
  credential_not_found credential_unauthorized credential_expired credential_revoked :
      CredentialError
  credential_invalid needs_acknowledgement permission_denied resource_denied : CredentialError
  audit_invalid audit_data credential_data invalid_input : CredentialError
  create_failed : CredentialError

-- Expiry and revocation: `none` where the credential is active.
abbrev pub expired_at : ℕ → Option ℕ → Bool
expired_at now none = false
expired_at now (some t) = leb t now

unfoldable pub active_at : ℕ → Credential → Option CredentialError
active_at now c = elim c.revoked_at [
  | some _ ↦ some credential_revoked
  | none ↦ if expired_at now c.expires_at then some credential_expired else none
]
