-- ===== src/Mcp/Audit.antt =====
-- internal/mcp/credentials.go: the audit entries of a credential, newest ones first when listed. The
-- rows of `mcp_audit_entries` stand in the order of their ids, which are never used twice.
use videocutlist.Prelude.{
  ℕ, ◌+◌, Bool, not, ◌&&◌, ◌||◌, List, [], ◌∷◌, ◌++◌, if◌then◌else◌, ltb, leb, length, any, count,
  select,
}
use videocutlist.Prelude.Int.{ℤ, pos, ltb_ℤ, eqb_ℤ}
use videocutlist.Prelude.Text.{Text, text_eq, is_empty}
use videocutlist.Prelude.Outcome.{Outcome, ok, err}
use videocutlist.Mcp.Ids.{
  valid_credential_id, valid_audit_atom, valid_safe_identifier, valid_id_list,
}
use videocutlist.Mcp.Scopes.{CredentialError, credential_not_found, audit_data}
use videocutlist.Mcp.Normalize.{AuditInput, normalize_audit_input}
use videocutlist.Mcp.Table.{Credentials, is_row}
use videocutlist.Mcp.Store.{get}
use videocutlist.Mcp.Listing.{bounded_limit, take}

pub record AuditEntry : Type 0 where
  pub id : ℕ
  pub credential_id : Text
  pub operation : Text
  pub outcome : Text
  pub resource_ids : List Text
  pub job_id : Text
  pub occurred_at : ℕ

abbrev pub max_audit_entries : ℕ
max_audit_entries = 1000

-- `last_entry` is the last id that AUTOINCREMENT has given.
pub record AuditTable : Type 0 where
  pub entries : List AuditEntry
  pub last_entry : ℕ

abbrev pub is_of : Text → AuditEntry → Bool
is_of id e = text_eq e.credential_id id

-- DELETE … WHERE credential_id = ? AND id IN (SELECT … ORDER BY id DESC LIMIT -1 OFFSET ?): an entry
-- goes when at least `keep` entries of the credential come after it.
unfoldable pub retain : ℕ → Text → List AuditEntry → List AuditEntry
retain keep id [] = []
retain keep id (e ∷ es) =
    let rest = retain keep id es in
    if is_of id e && leb keep (count (is_of id) es) then rest else e ∷ rest

abbrev pub new_entry : Text → AuditInput → ℕ → AuditTable → AuditEntry
new_entry id input now table = record {
  id = table.last_entry + 1;
  credential_id = id;
  operation = input.operation;
  outcome = input.outcome;
  resource_ids = input.resource_ids;
  job_id = input.job_id;
  occurred_at = now;
}

abbrev pub Recorded : Type 0
Recorded = Outcome CredentialError AuditEntry × AuditTable

unfoldable pub record_audit : Text → AuditInput → ℕ → Credentials → AuditTable → Recorded
unfolding retain
record_audit id input now rows table =
    if not (valid_credential_id id)
    then (err credential_not_found, table)
    else elim (normalize_audit_input input) [
      | err e ↦ (err e, table)
      | ok normalized ↦
          if not (any (is_row id) rows)
          then (err credential_not_found, table)
          else let entry = new_entry id normalized now table in
            (
              ok entry,
              record {
                entries = retain max_audit_entries id (table.entries ++ entry ∷ []);
                last_entry = table.last_entry + 1;
              },
            )
    ]

unfoldable pub scan_audit_entry : AuditEntry → Outcome CredentialError AuditEntry
scan_audit_entry e =
    if ltb e.id 1
      || not (valid_credential_id e.credential_id)
      || not (valid_audit_atom e.operation)
      || not (valid_audit_atom e.outcome)
      || not (is_empty e.job_id) && not (valid_safe_identifier e.job_id)
      || not (valid_id_list e.resource_ids)
      || ltb 32 (length e.resource_ids)
    then err audit_data
    else ok e

unfoldable pub scan_audit_entries : List AuditEntry → Outcome CredentialError (List AuditEntry)
unfolding scan_audit_entry
scan_audit_entries [] = ok []
scan_audit_entries (e ∷ es) = elim (scan_audit_entry e) [
  | err f ↦ err f
  | ok entry ↦ elim (scan_audit_entries es) [ err f ↦ err f | ok entries ↦ ok (entry ∷ entries) ]
]

-- ORDER BY id DESC
abbrev pub newest_first {ℓ} : {A : Type ℓ} → List A → List A
newest_first [] = []
newest_first (e ∷ es) = newest_first es ++ e ∷ []

unfoldable pub list_audit_before :
    Text → ℤ → ℤ → Credentials → AuditTable → Outcome CredentialError (List AuditEntry)
unfolding scan_audit_entries
list_audit_before id before limit rows table =
    if not (valid_credential_id id) || ltb_ℤ before (pos 0)
    then err credential_not_found
    else elim (get id rows) [
      | err e ↦ err e
      | ok _ ↦ scan_audit_entries (
          take (bounded_limit limit 50 100) (
            newest_first (
              select (λ e. is_of id e && (eqb_ℤ before (pos 0) || ltb_ℤ (pos e.id) before))
                table.entries)))
    ]

unfoldable pub list_audit :
    Text → ℤ → Credentials → AuditTable → Outcome CredentialError (List AuditEntry)
unfolding list_audit_before
list_audit id = list_audit_before id (pos 0)
