-- ===== src/Mcp/Store.antt =====
-- internal/mcp/credentials.go: the operations of `CredentialStore` on credentials. `now` is what the
-- clock shows. A transaction is one step; between the read and the write of `TouchLastUsed`, which is
-- none, other calls can come, and `between` is what they make of the rows. Random bytes are arguments.
use videocutlist.Prelude.{ℕ, not, none, some, ◌++◌, if◌then◌else◌, ◌==◌, count}
use videocutlist.Prelude.Text.{Text, codes}
use videocutlist.Prelude.Outcome.{Outcome, ok, err}
use videocutlist.Mcp.Ids.{valid_credential_id}
use videocutlist.Mcp.Scopes.{Credential, active_at, CredentialError, credential_not_found}
use videocutlist.Mcp.Normalize.{CredentialInput, normalize_credential_input}
use videocutlist.Mcp.Table.{
  Platform, CredentialRecord, Credentials, is_row, is_live, update_rows, insert_row, get_record,
}

abbrev pub Result : Type 0
Result = Outcome CredentialError Credential × Credentials

unfoldable pub random_identifier : Platform → Text → Text → Text
random_identifier sys prefix bytes = prefix ++ sys.encode bytes

unfoldable pub token_verifier : Platform → Text → Text
token_verifier sys token = sys.digest token

-- The random bytes of a new credential: its id, its token identifier and its secret.
pub record Randoms : Type 0 where
  pub id_bytes : Text
  pub token_bytes : Text
  pub secret_bytes : Text

abbrev pub token_prefix : Text
token_prefix = codes "vcl_"

abbrev pub new_id : Platform → Randoms → Text
new_id sys rnd = random_identifier sys (codes "c_") rnd.id_bytes

abbrev pub new_token : Platform → Randoms → Text
new_token sys rnd = random_identifier sys (codes "t_") rnd.token_bytes

-- The bearer token, which only the answer holds.
abbrev pub new_secret : Platform → Randoms → Text
new_secret sys rnd = token_prefix ++ new_token sys rnd ++ codes "." ++ sys.encode rnd.secret_bytes

abbrev pub new_credential : Platform → Randoms → CredentialInput → ℕ → Credential
new_credential sys rnd input created = record {
  id = new_id sys rnd;
  token_identifier = new_token sys rnd;
  name = input.name;
  permissions = input.permissions;
  media_scope = input.media_scope;
  project_scope = input.project_scope;
  expires_at = input.expires_at;
  revoked_at = none;
  unattended_exports = input.unattended_exports;
  created_at = created;
  last_used_at = none;
}

abbrev pub new_row : Platform → Randoms → CredentialInput → ℕ → CredentialRecord
new_row sys rnd input created = record {
  credential = new_credential sys rnd input created;
  verifier = token_verifier sys (new_secret sys rnd);
  updated_at = created;
}

unfoldable pub create :
    Platform
    → CredentialInput
    → Randoms
    → ℕ
    → ℕ
    → Credentials
    → Outcome CredentialError (Credential × Text) × Credentials
unfolding random_identifier token_verifier
create sys input rnd now created rows = elim (normalize_credential_input input now) [
  | err e ↦ (err e, rows)
  | ok normalized ↦ elim (insert_row (new_row sys rnd normalized created) rows) [
    | err e ↦ (err e, rows)
    | ok rows' ↦ (ok (new_credential sys rnd normalized created, new_secret sys rnd), rows')
  ]
]

unfoldable pub get : Text → Credentials → Outcome CredentialError Credential
get id rows =
    if not (valid_credential_id id)
    then err credential_not_found
    else elim (get_record id rows) [ err e ↦ err e | ok r ↦ ok r.credential ]

unfoldable pub get_active : Text → ℕ → Credentials → Outcome CredentialError Credential
unfolding get
get_active id now rows = elim (get id rows) [
  | err e ↦ err e
  | ok c ↦ elim (active_at now c) [ some e ↦ err e | none ↦ ok c ]
]

-- UPDATE … SET revoked_at = COALESCE(revoked_at, ?), updated_at = ?
abbrev pub revoked : ℕ → CredentialRecord → CredentialRecord
revoked now r = record r {
  credential = record r.credential {
    revoked_at = elim r.credential.revoked_at [ none ↦ some now | some t ↦ some t ];
  };
  updated_at = now;
}

unfoldable pub revoke : Text → ℕ → Credentials → Result
unfolding get
revoke id now rows =
    let rows' = update_rows (is_row id) (revoked now) rows in
    if not (valid_credential_id id)
    then (err credential_not_found, rows)
    else if count (is_row id) rows == 0
    then (err credential_not_found, rows')
    else (get id rows', rows')

abbrev pub used : ℕ → Credential → Credential
used now c = record c { last_used_at = some now }

abbrev pub used_row : ℕ → CredentialRecord → CredentialRecord
used_row now r = record r { credential = used now r.credential; updated_at = now }

-- The answer of a call that has found its write to reach no row.
unfoldable pub recheck : Text → ℕ → ℕ → Credentials → Outcome CredentialError Credential
recheck id now later rows = elim (get_record id rows) [
  | err e ↦ err e
  | ok r ↦ elim (active_at later r.credential) [
    | some e ↦ err e
    | none ↦ ok (used now r.credential)
  ]
]

unfoldable pub touch_last_used : Text → ℕ → ℕ → (Credentials → Credentials) → Credentials → Result
unfolding recheck
touch_last_used id now later between rows =
    if not (valid_credential_id id)
    then (err credential_not_found, rows)
    else elim (get_record id rows) [
      | err e ↦ (err e, rows)
      | ok r ↦ elim (active_at now r.credential) [
        | some e ↦ (err e, rows)
        | none ↦
            let met = between rows in
            let rows' = update_rows (is_live id) (used_row now) met in
            if count (is_live id) met == 1
            then (ok (used now r.credential), rows')
            else (recheck id now later rows', rows')
      ]
    ]
