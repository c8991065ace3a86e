-- ===== src/Mcp/Table.antt =====
-- internal/mcp/credentials.go: the rows of `mcp_credentials` (internal/db/migrations/007_mcp_credentials.sql),
-- in the order of insertion, and how one is read. The columns of JSON and of times are taken decoded.
use videocutlist.Prelude.{
  ℕ, Bool, true, false, not, ◌&&◌, ◌||◌, Option, none, some, List, [], ◌∷◌, ◌++◌, if◌then◌else◌,
  ◌==◌, leb, length, any, all,
}
use videocutlist.Prelude.Text.{Text, codes, text_eq}
use videocutlist.Prelude.Outcome.{Outcome, ok, err}
use videocutlist.Mcp.Ids.{has_prefix, valid_credential_id, valid_safe_identifier}
use videocutlist.Mcp.Scopes.{
  Credential, CredentialError, credential_not_found, credential_data, create_failed,
}
use videocutlist.Mcp.Normalize.{
  normalize_permissions, normalize_media_scope, normalize_project_scope, valid_credential_name,
}

-- What the store takes from Go's library: `hex` of `sha256.Sum256`, `base64.RawURLEncoding`, and the
-- format `RFC3339Nano` of an instant.
pub record Platform : Type 0 where
  pub digest : Text → Text
  pub encode : Text → Text
  pub decode : Text → Option Text
  pub format_time : ℕ → Text

pub record CredentialRecord : Type 0 where
  pub credential : Credential
  pub verifier : Text
  pub updated_at : ℕ

abbrev pub Credentials : Type 0
Credentials = List CredentialRecord

abbrev pub is_row : Text → CredentialRecord → Bool
is_row id r = text_eq r.credential.id id

abbrev pub has_token : Text → CredentialRecord → Bool
has_token t r = text_eq r.credential.token_identifier t

abbrev pub is_none {ℓ} : {A : Type ℓ} → Option A → Bool
is_none none = true
is_none (some _) = false

-- WHERE id = ? AND revoked_at IS NULL
abbrev pub is_live : Text → CredentialRecord → Bool
is_live id r = is_row id r && is_none r.credential.revoked_at

-- The first row of a SELECT.
unfoldable pub find_row : (CredentialRecord → Bool) → Credentials → Option CredentialRecord
find_row p [] = none
find_row p (r ∷ rows) = if p r then some r else find_row p rows

-- UPDATE … SET … WHERE …: `count` of the test is the number of affected rows.
unfoldable pub update_rows :
    (CredentialRecord → Bool) → (CredentialRecord → CredentialRecord) → Credentials → Credentials
update_rows p f [] = []
update_rows p f (r ∷ rows) = (if p r then f r else r) ∷ update_rows p f rows

-- INSERT: the primary key and the token identifier are unique.
unfoldable pub insert_row : CredentialRecord → Credentials → Outcome CredentialError Credentials
insert_row r rows =
    if any (is_row r.credential.id) rows || any (has_token r.credential.token_identifier) rows
    then err create_failed
    else ok (rows ++ r ∷ [])

abbrev pub is_hex : ℕ → Bool
is_hex c = leb b'0' c && leb c b'9' || leb b'a' c && leb c b'f' || leb b'A' c && leb c b'F'

unfoldable pub scan_credential : CredentialRecord → Outcome CredentialError CredentialRecord
scan_credential r =
    let c = r.credential in
    if not (valid_credential_id c.id)
      || not (has_prefix c.token_identifier (codes "t_"))
      || not (valid_safe_identifier c.token_identifier)
      || not (length r.verifier == 64)
      || not (all is_hex r.verifier)
    then err credential_data
    else elim (normalize_permissions c.permissions) [
      | err e ↦ err credential_data
      | ok permissions ↦ elim (normalize_media_scope c.media_scope) [
        | err e ↦ err credential_data
        | ok media ↦ elim (normalize_project_scope c.project_scope) [
          | err e ↦ err credential_data
          | ok project ↦
              if not (valid_credential_name c.name)
              then err credential_data
              else ok (record r {
                credential = record c {
                  permissions = permissions;
                  media_scope = media;
                  project_scope = project;
                };
              })
        ]
      ]
    ]

-- `getRecord` and `getByTokenIdentifier`.
unfoldable pub read_row :
    (CredentialRecord → Bool) → Credentials → Outcome CredentialError CredentialRecord
unfolding scan_credential find_row
read_row p rows = elim (find_row p rows) [
  | none ↦ err credential_not_found
  | some r ↦ scan_credential r
]

unfoldable pub get_record : Text → Credentials → Outcome CredentialError CredentialRecord
unfolding read_row
get_record id = read_row (is_row id)

unfoldable pub get_by_token_identifier :
    Text → Credentials → Outcome CredentialError CredentialRecord
unfolding read_row
get_by_token_identifier t = read_row (has_token t)
