-- ===== src/Mcp/Granted.antt =====
-- What a grant of a project changes (internal/mcp/credentials.go).
use videocutlist.Prelude.{
  ◌≡◌, ℕ, true, not, ◌&&◌, ◌||◌, if◌then◌else◌, ◌==◌, leb, length, count, Bool-cases, Option-cases,
  inl, inr,
}
use videocutlist.Prelude.Text.{Text, codes, text_eq}
use videocutlist.Prelude.Outcome.{Outcome-cases}
use videocutlist.Mcp.Ids.{contains, valid_credential_id, valid_safe_identifier}
use videocutlist.Mcp.Scopes.{ProjectScope, Credential, active_at, project_scope_allows}
use videocutlist.Mcp.Normalize.{scope_id_limit}
use videocutlist.Mcp.Table.{Platform, CredentialRecord, Credentials, update_rows, get_record}
use videocutlist.Mcp.Grants.{
  is_grantable, scoped, with_project, granted, grant_project_tx, grant_project,
}

-- The kind of the scope is one of the two, and names ids only where it selects them,
-- at most 1000.
abbrev ProperScope : ProjectScope → Type 0
ProperScope s =
    (if text_eq s.project_kind (codes "all")
      then length s.project_ids == 0
      else text_eq s.project_kind (codes "projects") && leb (length s.project_ids) scope_id_limit)
    ≡ true

-- The scope allows the project `q` where the other one does, or `q` is the added project.
abbrev pub AddsOnly : Text → ProjectScope → ProjectScope → Type 0
AddsOnly project old new =
    (q : Text) → project_scope_allows new q ≡ (project_scope_allows old q || text_eq q project)

-- What a grant that has been answered with `c` has done to the credential that was read.
abbrev pub Added : Text → Credential → Credential → Type 0
Added project old c =
    AddsOnly project old.project_scope c.project_scope
    × ProperScope c.project_scope
    × (c ≡ record old { project_scope = c.project_scope })

-- A property of the rows that a grant's UPDATE keeps, or the absence of one.
pub grant-rows :
    (P : Credentials → Type 0) (sys : Platform) (id project : Text) (now later : ℕ)
    (rows : Credentials)
    → P rows
    → ((scope : ProjectScope)
        → P (update_rows (is_grantable sys id later) (scoped scope later) rows))
    → P (grant_project sys id project now later rows).1
unfolding grant_project grant_project_tx granted
grant-rows P sys id project now later rows h k =
    elim (Bool-cases (not (valid_credential_id id) || not (valid_safe_identifier project))) [
      | inl bad ↦ rw (grant_project, bad) h
      | inr good ↦ elim (Outcome-cases (get_record id rows)) [
        | inr (e, missing) ↦ rw (grant_project, grant_project_tx, good, missing) h
        | inl (r, there) ↦ elim (Option-cases (active_at now r.credential)) [
          | inr (e, inactive) ↦ rw (grant_project, grant_project_tx, good, there, inactive) h
          | inl active ↦ rw (grant_project, grant_project_tx, good, there, active) (branches r)
        ]
      ]
    ]
  where
    branches : (r : CredentialRecord) → P (granted sys id project later r rows).1
    branches r =
        elim (Bool-cases (
          text_eq r.credential.project_scope.project_kind (codes "all")
          || contains project r.credential.project_scope.project_ids)) [
            | inl known ↦ rw (granted, known) h
            | inr new ↦
                elim (Bool-cases
                  (leb scope_id_limit (length r.credential.project_scope.project_ids))) [
                    | inl full ↦ rw (granted, new, full) h
                    | inr room ↦ elim (Bool-cases (count (is_grantable sys id later) rows == 1)) [
                      | inl one ↦
                          rw (granted, new, room, one)
                            (k (with_project project r.credential.project_scope))
                      | inr other ↦ rw (granted, new, room, other) h
                    ]
                  ]
          ]
