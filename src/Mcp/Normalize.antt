-- ===== src/Mcp/Normalize.antt =====
-- internal/mcp/credentials.go: what a new credential and an audit entry may hold, and the form in
-- which they are stored.
use videocutlist.Prelude.{
  ℕ, zero, suc, Bool, false, not, ◌&&◌, ◌||◌, Option, none, some, List, [], ◌∷◌, ◌++◌,
  if◌then◌else◌, length, ◌==◌, ltb, leb,
}
use videocutlist.Prelude.Text.{Text, codes, text_eq, is_empty}
use videocutlist.Prelude.Utf8.{rune_count, extra_bytes}
use videocutlist.Prelude.Outcome.{Outcome, ok, err}
use videocutlist.Projects.Timestamps.{trim_space}
use videocutlist.Mcp.Ids.{
  contains, valid_id_list, sort_texts, valid_audit_atom, valid_safe_identifier,
}
use videocutlist.Mcp.Scopes.{
  Permission, known_permissions, projects_read, projects_write, MediaScope, ProjectScope,
  CredentialError, credential_invalid, credential_expired, needs_acknowledgement, audit_invalid,
}

-- The loop of `normalizePermissions`, with `result`.
unfoldable pub collect_permissions : List Permission → List Permission → Option (List Permission)
collect_permissions result [] = some result
collect_permissions result (p ∷ ps) =
    let rest = collect_permissions (result ++ p ∷ []) ps in
    if not (contains p known_permissions) || contains p result then none else rest

unfoldable pub normalize_permissions : List Permission → Outcome CredentialError (List Permission)
unfolding collect_permissions
normalize_permissions ps = elim (collect_permissions [] ps) [
  | none ↦ err credential_invalid
  | some result ↦
      let sorted = sort_texts result in
      if contains projects_write sorted && not (contains projects_read sorted)
      then err credential_invalid
      else ok sorted
]

abbrev pub scope_id_limit : ℕ
scope_id_limit = 1000

-- A list of ids that is neither empty nor too long, and valid.
abbrev pub good_ids : List Text → Bool
good_ids ids = not (length ids == 0 || ltb scope_id_limit (length ids) || not (valid_id_list ids))

unfoldable pub normalize_media_scope : MediaScope → Outcome CredentialError MediaScope
normalize_media_scope scope =
    if text_eq scope.media_kind (codes "all")
    then if not (length scope.root_ids == 0) || not (length scope.media_ids == 0)
      then err credential_invalid
      else ok scope
    else if text_eq scope.media_kind (codes "roots")
    then if good_ids scope.root_ids && length scope.media_ids == 0
      then ok (record scope { root_ids = sort_texts scope.root_ids })
      else err credential_invalid
    else if text_eq scope.media_kind (codes "media")
    then if good_ids scope.media_ids && length scope.root_ids == 0
      then ok (record scope { media_ids = sort_texts scope.media_ids })
      else err credential_invalid
    else err credential_invalid

unfoldable pub normalize_project_scope : ProjectScope → Outcome CredentialError ProjectScope
normalize_project_scope scope =
    if text_eq scope.project_kind (codes "all")
    then if not (length scope.project_ids == 0) then err credential_invalid else ok scope
    else if text_eq scope.project_kind (codes "projects")
    then if good_ids scope.project_ids
      then ok (record scope { project_ids = sort_texts scope.project_ids })
      else err credential_invalid
    else err credential_invalid

-- `utf8.ValidString`; the number is what is left of the character before.
unfoldable pub valid_utf8 : ℕ → Text → Bool
unfolding extra_bytes
valid_utf8 k [] = k == 0
valid_utf8 (suc k) (c ∷ s) = valid_utf8 k s
valid_utf8 zero (c ∷ s) =
    let extra = extra_bytes (c ∷ s) in
    let rest = valid_utf8 extra s in if ltb c 128 || ltb 0 extra then rest else false

-- `strings.IndexFunc(value, unicode.IsControl) >= 0`, of valid UTF-8.
unfoldable pub has_control : Text → Bool
has_control [] = false
has_control (c ∷ []) = ltb c 32 || c == 127
has_control (c ∷ d ∷ s) =
    ltb c 32 || c == 127 || c == 0xC2 && (leb 0x80 d && leb d 0x9F) || has_control (d ∷ s)

unfoldable pub valid_credential_name : Text → Bool
unfolding valid_utf8 has_control
valid_credential_name s =
    valid_utf8 0 s
    && not (is_empty (trim_space s))
    && not (ltb 120 (rune_count s))
    && not (has_control s)

pub record CredentialInput : Type 0 where
  pub name : Text
  pub permissions : List Permission
  pub media_scope : MediaScope
  pub project_scope : ProjectScope
  pub expires_at : Option ℕ
  pub allow_non_expiring : Bool
  pub unattended_exports : Bool

-- The test of `ExpiresAt`.
unfoldable pub expiry_error : ℕ → CredentialInput → Option CredentialError
expiry_error now input = elim input.expires_at [
  | none ↦ if input.allow_non_expiring then none else some needs_acknowledgement
  | some t ↦ if leb t now then some credential_expired else none
]

unfoldable pub normalize_credential_input :
    CredentialInput → ℕ → Outcome CredentialError CredentialInput
unfolding normalize_permissions normalize_media_scope normalize_project_scope expiry_error
    valid_credential_name
normalize_credential_input input now =
    if not (valid_credential_name input.name)
    then err credential_invalid
    else elim (normalize_permissions input.permissions) [
      | err e ↦ err e
      | ok permissions ↦ elim (normalize_media_scope input.media_scope) [
        | err e ↦ err e
        | ok media ↦ elim (normalize_project_scope input.project_scope) [
          | err e ↦ err e
          | ok project ↦ elim (expiry_error now input) [
            | some e ↦ err e
            | none ↦ ok (record input {
              name = trim_space input.name;
              permissions = permissions;
              media_scope = media;
              project_scope = project;
            })
          ]
        ]
      ]
    ]

pub record AuditInput : Type 0 where
  pub operation : Text
  pub outcome : Text
  pub resource_ids : List Text
  pub job_id : Text

unfoldable pub normalize_audit_input : AuditInput → Outcome CredentialError AuditInput
normalize_audit_input input =
    if not (valid_audit_atom input.operation)
      || not (valid_audit_atom input.outcome)
      || ltb 32 (length input.resource_ids)
      || not (is_empty input.job_id) && not (valid_safe_identifier input.job_id)
    then err audit_invalid
    else if not (valid_id_list input.resource_ids)
    then err audit_invalid
    else ok (record input { resource_ids = sort_texts input.resource_ids })
