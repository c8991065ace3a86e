-- ===== src/Mcp/Issue.antt =====
-- The token that `Create` answers with authenticates as the credential that it has made
-- (internal/mcp/credentials.go).
use videocutlist.Prelude.{
  ◌≡◌, refl, sym, ap, ◌∙◌, subst, ℕ, Bool, true, false, some, [], ◌∷◌, ◌++◌, any, count, arith, inl,
  inr,
}
use videocutlist.Prelude.Text.{Text, text_eq_refl}
use videocutlist.Prelude.Outcome.{Outcome, ok, Outcome-cases}
use videocutlist.Projects.Timestamps.{trim_space}
use videocutlist.Mcp.Ids.{valid_credential_id}
use videocutlist.Mcp.Scopes.{Credential, CredentialError, active_at, expired_at}
use videocutlist.Mcp.Normalize.{CredentialInput, normalize_credential_input, valid_credential_name}
use videocutlist.Mcp.Stored.{normalize_credential_input_stored}
use videocutlist.Mcp.Table.{
  Platform, CredentialRecord, Credentials, is_row, has_token, is_live, insert_row, scan_credential,
  read_row, get_record, get_by_token_identifier,
}
use videocutlist.Mcp.Store.{
  Randoms, new_id, new_token, new_secret, new_credential, new_row, token_verifier, create, used,
  touch_last_used,
}
use videocutlist.Mcp.Tokens.{parse_token_identifier, authenticate}
use videocutlist.Mcp.Issued.{
  Encoded, valid_new_id, parse-new_secret, find_row-append_one, scan-new_row,
}

-- The INSERT has found neither the id nor the token identifier in a row.
insert_row-ok :
    (r : CredentialRecord) (rows rows' : Credentials)
    → insert_row r rows ≡ ok rows'
    → (any (is_row r.credential.id) rows ≡ false)
      × (any (has_token r.credential.token_identifier) rows ≡ false)
      × (rows ++ r ∷ [] ≡ rows')
unfolding insert_row
insert_row-ok r rows rows' h = (ground (arith, h), ground (arith, h), ground (arith, h))

-- The use of a new credential.
touch-new_row :
    (sys : Platform) (rnd : Randoms) (n : CredentialInput) (created now later : ℕ)
    (between : Credentials → Credentials) (rows : Credentials)
    → valid_credential_id (new_id sys rnd) ≡ true
    → get_record (new_id sys rnd) rows ≡ ok (new_row sys rnd n created)
    → expired_at now n.expires_at ≡ false
    → count (is_live (new_id sys rnd)) (between rows) ≡ 1
    → (touch_last_used (new_id sys rnd) now later between rows).0
      ≡ ok (used now (new_credential sys rnd n created))
unfolding touch_last_used active_at
touch-new_row sys rnd n created now later between rows good there fresh live =
    rw (touch_last_used, good, there, fresh, live) refl

authenticate-new_row :
    (sys : Platform) (rnd : Randoms) (n : CredentialInput) (created now later : ℕ)
    (between : Credentials → Credentials) (rows : Credentials)
    → parse_token_identifier sys (new_secret sys rnd) ≡ some (new_token sys rnd)
    → get_by_token_identifier (new_token sys rnd) rows ≡ ok (new_row sys rnd n created)
    → (touch_last_used (new_id sys rnd) now later between rows).0
      ≡ ok (used now (new_credential sys rnd n created))
    → (authenticate sys (new_secret sys rnd) now later between rows).0
      ≡ ok (used now (new_credential sys rnd n created))
unfolding authenticate
authenticate-new_row sys rnd n created now later between rows parsed there touched =
    rw
      (authenticate, parsed, there, text_eq_refl (token_verifier sys (new_secret sys rnd)), touched)
      refl

new_row-authenticates :
    (sys : Platform) (rnd : Randoms) (input n : CredentialInput) (at created now later : ℕ)
    (between : Credentials → Credentials) (rows rows' : Credentials)
    → Encoded sys rnd
    → trim_space input.name ≡ input.name
    → normalize_credential_input input at ≡ ok n
    → insert_row (new_row sys rnd n created) rows ≡ ok rows'
    → expired_at now n.expires_at ≡ false
    → count (is_live (new_id sys rnd)) (between rows') ≡ 1
    → (authenticate sys (new_secret sys rnd) now later between rows').0
      ≡ ok (used now (new_credential sys rnd n created))
unfolding get_record get_by_token_identifier read_row
new_row-authenticates sys rnd input n at created now later between rows rows' e trimmed good there
      fresh live =
    let r = new_row sys rnd n created in
    let (no_id, no_token, same) = insert_row-ok r rows rows' there in
    let (valid, name, fresh_input, ps, ms, sc) =
      normalize_credential_input_stored input at n good in
    let reads =
      scan-new_row sys rnd input n at created e good
        (ap valid_credential_name (name ∙ trimmed) ∙ valid) in
    authenticate-new_row sys rnd n created now later between rows' (parse-new_secret sys rnd e)
      (found (has_token r.credential.token_identifier) r no_token
        (text_eq_refl r.credential.token_identifier) same reads)
      (touch-new_row sys rnd n created now later between rows' (valid_new_id sys rnd e)
        (found (is_row r.credential.id) r no_id (text_eq_refl r.credential.id) same reads) fresh
        live)
  where
    found :
        (p : CredentialRecord → Bool) (r : CredentialRecord)
        → any p rows ≡ false
        → p r ≡ true
        → rows ++ r ∷ [] ≡ rows'
        → scan_credential r ≡ ok r
        → read_row p rows' ≡ ok r
    found p r absent own same reads =
        rw (sym same, read_row, find_row-append_one p rows r absent own) reads

abbrev Created : Type 0
Created = Outcome CredentialError (Credential × Text) × Credentials

-- The token that a creation answers with is authenticated as the credential that it answers with, from
-- the rows that it leaves on, at any time at which the credential has not expired and its row is still
-- there and not revoked. The random bytes are encoded as Go's library documents, and the name of the
-- credential has no space around it.
pub create_then_authenticate :
    (sys : Platform) (rnd : Randoms) (input : CredentialInput) (at created now later : ℕ)
    (between : Credentials → Credentials) (rows : Credentials) (c : Credential) (secret : Text)
    → Encoded sys rnd
    → trim_space input.name ≡ input.name
    → let result = create sys input rnd at created rows in
      result.0 ≡ ok (c, secret)
      → expired_at now c.expires_at ≡ false
      → count (is_live c.id) (between result.1) ≡ 1
      → (authenticate sys secret now later between result.1).0 ≡ ok (used now c)
unfolding create
create_then_authenticate sys rnd input at created now later between rows c secret e trimmed h fresh
      live =
    elim (Outcome-cases (normalize_credential_input input at)) [
      | inr (f, bad) ↦ absurd (ground (arith, h, bad))
      | inl (n, good) ↦ elim (Outcome-cases (insert_row (new_row sys rnd n created) rows)) [
        | inr (f, full) ↦ absurd (ground (arith, h, good, full))
        | inl (rows', there) ↦
            let whole : create sys input rnd at created rows
                ≡ (ok (new_credential sys rnd n created, new_secret sys rnd), rows') =
              rw (create, good, there) refl in
            let answer : (new_credential sys rnd n created, new_secret sys rnd) ≡ (c, secret) =
              cc (ap (λ (x : Created). x.0) (sym whole) ∙ h) in
            let own : new_credential sys rnd n created ≡ c =
              ap (λ (x : Credential × Text). x.0) answer in
            let token : new_secret sys rnd ≡ secret = ap (λ (x : Credential × Text). x.1) answer in
            let stored = ap (λ (x : Created). x.1) whole in
            subst
              (λ x.
                (authenticate sys x now later between (create sys input rnd at created rows).1).0
                ≡ ok (used now c))
              token
              (subst
                (λ x.
                  (authenticate sys (new_secret sys rnd) now later between x).0 ≡ ok (used now c))
                (sym stored)
                (new_row-authenticates sys rnd input n at created now later between rows rows' e
                    trimmed good there
                    (ap (λ (x : Credential). expired_at now x.expires_at) own ∙ fresh)
                    (ap (λ (x : Credential). count (is_live x.id) (between rows')) own
                      ∙ ap (λ x. count (is_live c.id) (between x)) (sym stored)
                      ∙ live)
                  ∙ ap (λ x. ok (used now x)) own))
      ]
    ]
