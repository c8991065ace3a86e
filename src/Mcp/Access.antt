-- ===== src/Mcp/Access.antt =====
-- Who is let in (internal/mcp/credentials.go): the holder of the token of an active credential.
use videocutlist.Prelude.{
  ◌≡◌, refl, sym, ap, subst, ◌∙◌, ℕ, true, false, none, some, ◌==◌, count, arith, Bool-cases,
  Option-cases, inl, inr,
}
use videocutlist.Prelude.Text.{Text, text_eq, text_eq_iff}
use videocutlist.Prelude.Outcome.{Outcome, ok, err, Outcome-cases}
use videocutlist.Mcp.Ids.{valid_credential_id}
use videocutlist.Mcp.Scopes.{Credential, CredentialError, credential_revoked, active_at, expired_at}
use videocutlist.Mcp.Table.{
  Platform, CredentialRecord, Credentials, is_row, has_token, is_none, is_live, find_row,
  update_rows, get_record, get_by_token_identifier,
}
use videocutlist.Mcp.Store.{used, used_row, recheck, touch_last_used, token_verifier}
use videocutlist.Mcp.Tokens.{parse_token_identifier, authenticate, refused}
use videocutlist.Mcp.Rows.{read_row-SameRow, find_row-passes}

pub active_at-revoked :
    (now : ℕ) (c : Credential)
    → is_none c.revoked_at ≡ false
    → active_at now c ≡ some credential_revoked
unfolding active_at
active_at-revoked now c h = elim (Option-cases c.revoked_at) [
  | inl none_yet ↦ absurd (cc (h, ap is_none none_yet))
  | inr (t, at) ↦ rw (active_at, at) refl
]

-- The credential is neither revoked nor expired.
abbrev pub Active : ℕ → Credential → Type 0
Active now c = (c.revoked_at ≡ none) × (expired_at now c.expires_at ≡ false)

pub active_at-Active : (now : ℕ) (c : Credential) → active_at now c ≡ none → Active now c
unfolding active_at
active_at-Active now c h = elim (Option-cases c.revoked_at) [
  | inr (t, at) ↦ absurd (ground (arith, h, at))
  | inl live ↦ (live, ground (arith, h, live))
]

get_record-id :
    (id : Text) (rows : Credentials) (r : CredentialRecord)
    → get_record id rows ≡ ok r
    → r.credential.id ≡ id
unfolding get_record
get_record-id id rows r h =
    let (s, found, same) = read_row-SameRow (is_row id) rows r h in
    same.same_id ∙ (text_eq_iff s.credential.id id).0 (find_row-passes (is_row id) rows s found)

recheck-id :
    (id : Text) (now later : ℕ) (rows : Credentials) (c : Credential)
    → recheck id now later rows ≡ ok c
    → c.id ≡ id
unfolding recheck
recheck-id id now later rows c h = elim (Outcome-cases (get_record id rows)) [
  | inr (e, missing) ↦ absurd (ground (arith, h, missing))
  | inl (r, there) ↦ elim (Option-cases (active_at later r.credential)) [
    | inr (e, inactive) ↦ absurd (ground (arith, h, there, inactive))
    | inl active ↦
        let same : used now r.credential ≡ c = ground (arith, h, there, active) in
        ap (λ (x : Credential). x.id) (sym same) ∙ get_record-id id rows r there
  ]
]

-- A use that is granted is one of the credential of this id, whose row is active.
pub touch_last_used-Active :
    (id : Text) (now later : ℕ) (between : Credentials → Credentials) (rows : Credentials)
    (c : Credential)
    → (touch_last_used id now later between rows).0 ≡ ok c
    → (c.id ≡ id)
      × ((s : CredentialRecord) × (find_row (is_row id) rows ≡ some s) × Active now s.credential)
unfolding touch_last_used get_record
touch_last_used-Active id now later between rows c h = elim (Bool-cases (valid_credential_id id)) [
  | inr bad ↦ absurd (ground (arith, h, bad))
  | inl good ↦ elim (Outcome-cases (get_record id rows)) [
    | inr (e, missing) ↦ absurd (ground (arith, h, good, missing))
    | inl (r, there) ↦ elim (Option-cases (active_at now r.credential)) [
      | inr (e, inactive) ↦ absurd (ground (arith, h, good, there, inactive))
      | inl active ↦
          let (s, found, same) = read_row-SameRow (is_row id) rows r there in
          let (live, fresh) = active_at-Active now r.credential active in
          (
            answered r good there active,
            (
              s,
              found,
              (sym same.same_revocation ∙ live, ap (expired_at now) (sym same.same_expiry) ∙ fresh),
            ),
          )
    ]
  ]
]
  where
    answered :
        (r : CredentialRecord)
        → valid_credential_id id ≡ true
        → get_record id rows ≡ ok r
        → active_at now r.credential ≡ none
        → c.id ≡ id
    answered r good there active = elim (Bool-cases (count (is_live id) (between rows) == 1)) [
      | inl one ↦
          let same : used now r.credential ≡ c = ground (arith, h, good, there, active, one) in
          ap (λ (x : Credential). x.id) (sym same) ∙ get_record-id id rows r there
      | inr other ↦
          recheck-id id now later (update_rows (is_live id) (used_row now) (between rows)) c
            (ground (arith, h, good, there, active, other))
    ]

refused-ok : (r : Outcome CredentialError Credential) (c : Credential) → refused r ≡ ok c → r ≡ ok c
refused-ok (ok a) c h = h
refused-ok (err e) c h = absurd (cc h)

-- What `authenticate` has checked, and the use that it has then made of the credential.
authenticate-touched :
    (sys : Platform) (token : Text) (now later : ℕ) (between : Credentials → Credentials)
    (rows : Credentials) (c : Credential)
    → (authenticate sys token now later between rows).0 ≡ ok c
    → (t : Text) × (r : CredentialRecord) × (parse_token_identifier sys token ≡ some t)
      × (get_by_token_identifier t rows ≡ ok r)
      × (r.verifier ≡ sys.digest token)
      × ((touch_last_used r.credential.id now later between rows).0 ≡ ok c)
unfolding authenticate token_verifier
authenticate-touched sys token now later between rows c h =
    elim (Option-cases (parse_token_identifier sys token)) [
      | inl bad ↦ absurd (ground (arith, h, bad))
      | inr (t, good) ↦ elim (Outcome-cases (get_by_token_identifier t rows)) [
        | inr (e, missing) ↦ absurd (ground (arith, h, good, missing))
        | inl (r, there) ↦ elim (Bool-cases (text_eq r.verifier (token_verifier sys token))) [
          | inr wrong ↦ absurd (ground (arith, h, good, there, wrong))
          | inl right ↦ (
            t,
            r,
            good,
            there,
            (text_eq_iff r.verifier (token_verifier sys token)).0 right,
            refused-ok _ c (ground (arith, h, good, there, right)),
          )
        ]
      ]
    ]

pub authenticate-own :
    (sys : Platform) (token : Text) (now later : ℕ) (between : Credentials → Credentials)
    (rows : Credentials) (c : Credential)
    → (authenticate sys token now later between rows).0 ≡ ok c
    → (touch_last_used c.id now later between rows).0 ≡ ok c
authenticate-own sys token now later between rows c h =
    let (t, r, good, there, right, granted) =
      authenticate-touched sys token now later between rows c h in
    let same = (touch_last_used-Active r.credential.id now later between rows c granted).0 in
    subst (λ i. (touch_last_used i now later between rows).0 ≡ ok c) (sym same) granted

-- Whoever is authenticated has presented a token with the identifier of a stored credential, and whose
-- digest is that credential's verifier; the answer is the credential of that row's id, and the row
-- stored under this id is neither revoked nor expired.
pub authenticate_sound :
    (sys : Platform) (token : Text) (now later : ℕ) (between : Credentials → Credentials)
    (rows : Credentials) (c : Credential)
    → (authenticate sys token now later between rows).0 ≡ ok c
    → (t : Text) × (s : CredentialRecord) × (own : CredentialRecord) × (parse_token_identifier sys
          token
        ≡ some t)
      × (find_row (has_token t) rows ≡ some s)
      × (s.verifier ≡ sys.digest token)
      × (c.id ≡ s.credential.id)
      × (find_row (is_row c.id) rows ≡ some own)
      × Active now own.credential
unfolding get_by_token_identifier
authenticate_sound sys token now later between rows c h =
    let (t, r, good, there, right, granted) =
      authenticate-touched sys token now later between rows c h in
    let (s, found, same) = read_row-SameRow (has_token t) rows r there in
    let (own_id, (own, stored, active)) =
      touch_last_used-Active r.credential.id now later between rows c granted in
    (
      t,
      s,
      own,
      good,
      found,
      sym same.same_verifier ∙ right,
      own_id ∙ same.same_id,
      ap (λ i. find_row (is_row i) rows) own_id ∙ stored,
      active,
    )
