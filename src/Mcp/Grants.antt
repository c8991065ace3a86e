-- ===== src/Mcp/Grants.antt =====
-- internal/mcp/credentials.go: a project that is added to a credential's scope. `now` and `later` are
-- what the clock shows before and after the row is read.
use videocutlist.Prelude.{
  ℕ, Bool, true, not, ◌&&◌, ◌||◌, none, some, [], ◌∷◌, ◌++◌, if◌then◌else◌, ◌==◌, leb, length,
  count,
}
use videocutlist.Prelude.Text.{Text, codes, text_eq, text_ltb}
use videocutlist.Prelude.Outcome.{ok, err}
use videocutlist.Mcp.Ids.{contains, valid_credential_id, valid_safe_identifier, sort_texts}
use videocutlist.Mcp.Scopes.{
  ProjectScope, active_at, credential_not_found, credential_unauthorized, credential_invalid,
}
use videocutlist.Mcp.Normalize.{scope_id_limit}
use videocutlist.Mcp.Table.{
  Platform, CredentialRecord, Credentials, is_live, update_rows, get_record,
}
use videocutlist.Mcp.Store.{Result}

-- WHERE id = ? AND revoked_at IS NULL AND (expires_at IS NULL OR expires_at > ?): the times are
-- compared as texts.
abbrev pub is_grantable : Platform → Text → ℕ → CredentialRecord → Bool
is_grantable sys id now r = is_live id r && elim r.credential.expires_at [
  | none ↦ true
  | some t ↦ text_ltb (sys.format_time now) (sys.format_time t)
]

abbrev pub scoped : ProjectScope → ℕ → CredentialRecord → CredentialRecord
scoped scope now r = record r {
  credential = record r.credential { project_scope = scope };
  updated_at = now;
}

abbrev pub with_project : Text → ProjectScope → ProjectScope
with_project project scope = record scope {
  project_ids = sort_texts (scope.project_ids ++ project ∷ []);
}

-- The grant to a credential that is active, as it was read.
unfoldable pub granted : Platform → Text → Text → ℕ → CredentialRecord → Credentials → Result
granted sys id project later r rows =
    let scope = r.credential.project_scope in
    if text_eq scope.project_kind (codes "all") || contains project scope.project_ids
    then (ok r.credential, rows)
    else if leb scope_id_limit (length scope.project_ids)
    then (err credential_invalid, rows)
    else if count (is_grantable sys id later) rows == 1
    then (
      ok (record r.credential { project_scope = with_project project scope }),
      update_rows (is_grantable sys id later) (scoped (with_project project scope) later) rows,
    )
    else (err credential_unauthorized, rows)

unfoldable pub grant_project_tx : Platform → Text → Text → ℕ → ℕ → Credentials → Result
unfolding granted
grant_project_tx sys id project now later rows =
    if not (valid_credential_id id) || not (valid_safe_identifier project)
    then (err credential_not_found, rows)
    else elim (get_record id rows) [
      | err e ↦ (err e, rows)
      | ok r ↦ elim (active_at now r.credential) [
        | some e ↦ (err e, rows)
        | none ↦ granted sys id project later r rows
      ]
    ]

unfoldable pub grant_project : Platform → Text → Text → ℕ → ℕ → Credentials → Result
unfolding grant_project_tx
grant_project sys id project now later rows =
    if not (valid_credential_id id) || not (valid_safe_identifier project)
    then (err credential_not_found, rows)
    else grant_project_tx sys id project now later rows
