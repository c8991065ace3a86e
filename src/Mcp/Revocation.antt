-- ===== src/Mcp/Revocation.antt =====
-- A credential that has been revoked grants nothing any more, whatever is called before and after
-- (internal/mcp/credentials.go).
use videocutlist.Prelude.{
  ◌≡◌, ◌≢◌, refl, ap, subst, ◌∙◌, ℕ, Bool, true, false, Option, none, some, List, [], ◌∷◌, ◌==◌,
  any, count, arith, Bool-cases, Option-cases, inl, inr,
}
use videocutlist.Prelude.Text.{Text}
use videocutlist.Prelude.Outcome.{ok, err, Outcome-cases}
use videocutlist.Mcp.Ids.{valid_credential_id}
use videocutlist.Mcp.Scopes.{Permission, Resource, Credential, active_at, credential_unauthorized}
use videocutlist.Mcp.Normalize.{CredentialInput, normalize_credential_input}
use videocutlist.Mcp.Table.{
  Platform, Credentials, is_row, is_none, is_live, update_rows, insert_row, get_record,
}
use videocutlist.Mcp.Store.{
  Randoms, create, new_row, revoke, revoked, used_row, recheck, touch_last_used,
}
use videocutlist.Mcp.Tokens.{authenticate, authorize_credential}
use videocutlist.Mcp.Grants.{grant_project, granted}
use videocutlist.Mcp.Granted.{grant-rows}
use videocutlist.Mcp.Access.{active_at-revoked, authenticate-own}
use videocutlist.Mcp.Rows.{
  update_rows-any, Revoked, Keeps, update_rows-Revoked, insert_row-Revoked, find_row-Revoked,
  read_row-SameRow,
}

-- What a call does to the rows. A call that records a use does so where the credential still is not
-- revoked.
pub data Call : Type 0 where
  creates : CredentialInput → Randoms → ℕ → ℕ → Call
  revokes : Text → ℕ → Call
  grants : Text → Text → ℕ → ℕ → Call
  uses : Text → ℕ → Call

unfoldable pub after_call : Platform → Call → Credentials → Credentials
after_call sys (creates input rnd now created) rows = (create sys input rnd now created rows).1
after_call sys (revokes id now) rows = (revoke id now rows).1
after_call sys (grants id project now later) rows = (grant_project sys id project now later rows).1
after_call sys (uses id now) rows = update_rows (is_live id) (used_row now) rows

unfoldable pub after_calls : Platform → List Call → Credentials → Credentials
unfolding after_call
after_calls sys [] rows = rows
after_calls sys (s ∷ ss) rows = after_calls sys ss (after_call sys s rows)

revoked-Keeps : (now : ℕ) → Keeps (revoked now)
revoked-Keeps now r = (refl, kept r.credential.revoked_at)
  where
    kept :
        (o : Option ℕ)
        → is_none o ≡ false
        → is_none (elim o as (λ x. Option ℕ) [ none ↦ some now | some t ↦ some t ]) ≡ false
    kept none h = refl
    kept (some t) h = refl

create-Revoked :
    (sys : Platform) (id : Text) (input : CredentialInput) (rnd : Randoms) (now created : ℕ)
    (rows : Credentials)
    → Revoked id rows
    → Revoked id (create sys input rnd now created rows).1
unfolding create
create-Revoked sys id input rnd now created rows d =
    elim (Outcome-cases (normalize_credential_input input now)) [
      | inr (e, bad) ↦ rw (create, bad) d
      | inl (n, good) ↦ elim (Outcome-cases (insert_row (new_row sys rnd n created) rows)) [
        | inr (e, full) ↦ rw (create, good, full) d
        | inl (rows', there) ↦ rw (create, good, there) (insert_row-Revoked id _ rows rows' there d)
      ]
    ]

revoke-rows :
    (P : Credentials → Type 0) (id : Text) (now : ℕ) (rows : Credentials)
    → P rows
    → P (update_rows (is_row id) (revoked now) rows)
    → P (revoke id now rows).1
unfolding revoke
revoke-rows P id now rows h k = elim (Bool-cases (valid_credential_id id)) [
  | inr bad ↦ rw (revoke, bad) h
  | inl good ↦ elim (Bool-cases (count (is_row id) rows == 0)) [
    | inl missing ↦ rw (revoke, good, missing) k
    | inr there ↦ rw (revoke, good, there) k
  ]
]

after_call-Revoked :
    (sys : Platform) (id : Text) (s : Call) (rows : Credentials)
    → Revoked id rows
    → Revoked id (after_call sys s rows)
unfolding after_call
after_call-Revoked sys id (creates input rnd now created) rows d =
    create-Revoked sys id input rnd now created rows d
after_call-Revoked sys id (revokes i now) rows d =
    revoke-rows (Revoked id) i now rows d (update_rows-Revoked _ _ id rows (revoked-Keeps now) d)
after_call-Revoked sys id (grants i project now later) rows d =
    grant-rows (Revoked id) sys i project now later rows d
      (λ scope. update_rows-Revoked _ _ id rows (λ r. (refl, λ h. h)) d)
after_call-Revoked sys id (uses i now) rows d =
    update_rows-Revoked (is_live i) (used_row now) id rows (λ r. (refl, λ h. h)) d

after_calls-Revoked :
    (sys : Platform) (id : Text) (ss : List Call) (rows : Credentials)
    → Revoked id rows
    → Revoked id (after_calls sys ss rows)
unfolding after_calls
after_calls-Revoked sys id [] rows d = d
after_calls-Revoked sys id (s ∷ ss) rows d =
    after_calls-Revoked sys id ss (after_call sys s rows) (after_call-Revoked sys id s rows d)

any-count : {A : Type 0} (p : A → Bool) (xs : List A) → any p xs ≡ true → (count p xs == 0) ≡ false
any-count p [] h = absurd (cc h)
any-count p (x ∷ xs) h = elim (Bool-cases (p x)) [
  | inl hit ↦ rw hit (ground arith)
  | inr miss ↦ rw miss (any-count p xs (ground (arith, h, miss)))
]

revoke_all-live :
    (id : Text) (now : ℕ) (rows : Credentials)
    → count (is_live id) (update_rows (is_row id) (revoked now) rows) ≡ 0
unfolding update_rows
revoke_all-live id now [] = refl
revoke_all-live id now (x ∷ xs) = elim (Bool-cases (is_row id x)) [
  | inl hit ↦ rw hit (rw (hit, none_live x.credential.revoked_at) (revoke_all-live id now xs))
  | inr miss ↦ rw miss (rw miss (revoke_all-live id now xs))
]
  where
    none_live :
        (o : Option ℕ)
        → is_none (elim o as (λ x. Option ℕ) [ none ↦ some now | some t ↦ some t ]) ≡ false
    none_live none = refl
    none_live (some t) = refl

-- A revocation that reaches a row leaves no row of the id without a time.
revoke-Revoked :
    (id : Text) (now : ℕ) (rows : Credentials)
    → valid_credential_id id ≡ true
    → any (is_row id) rows ≡ true
    → Revoked id (revoke id now rows).1
unfolding revoke
revoke-Revoked id now rows good there =
    rw (revoke, good, any-count (is_row id) rows there)
      (update_rows-any _ _ id rows (revoked-Keeps now) ∙ there, revoke_all-live id now rows)

recheck-Revoked :
    (id : Text) (now later : ℕ) (rows : Credentials) (c : Credential)
    → Revoked id rows
    → recheck id now later rows ≢ ok c
unfolding recheck get_record
recheck-Revoked id now later rows c d h = elim (Outcome-cases (get_record id rows)) [
  | inr (e, missing) ↦ absurd (ground (arith, h, missing))
  | inl (r, there) ↦
      let (s, found, same) = read_row-SameRow (is_row id) rows r there in
      let gone = find_row-Revoked id rows s found d.1 in
      absurd (
        ground (
          arith,
          h,
          there,
          active_at-revoked later r.credential (ap is_none same.same_revocation ∙ gone),
        ))
]

touch_last_used-Revoked :
    (id : Text) (now later : ℕ) (between : Credentials → Credentials) (rows : Credentials)
    (c : Credential)
    → Revoked id (between rows)
    → (touch_last_used id now later between rows).0 ≢ ok c
unfolding touch_last_used
touch_last_used-Revoked id now later between rows c d h =
    elim (Bool-cases (valid_credential_id id)) [
      | inr bad ↦ absurd (ground (arith, h, bad))
      | inl good ↦ elim (Outcome-cases (get_record id rows)) [
        | inr (e, missing) ↦ absurd (ground (arith, h, good, missing))
        | inl (r, there) ↦ elim (Option-cases (active_at now r.credential)) [
          | inr (e, inactive) ↦ absurd (ground (arith, h, good, there, inactive))
          | inl active ↦
              recheck-Revoked id now later (update_rows (is_live id) (used_row now) (between rows))
                c (update_rows-Revoked _ _ id (between rows) (λ r. (refl, λ x. x)) d)
                (ground (arith, h, good, there, active, d.1))
        ]
      ]
    ]

-- Once a credential is revoked, no later call is let in by it: whatever is called after the revocation,
-- a call that makes its conditional write then, with whatever rows it began, is refused if it names the
-- credential, and authenticates no one as it.
pub revoked_stays_refused :
    (sys : Platform) (id : Text) (at : ℕ) (rows : Credentials) (later_calls : List Call)
    (p : Permission) (resource : Resource) (token : Text) (now later : ℕ)
    (between : Credentials → Credentials) (start : Credentials) (c : Credential)
    → valid_credential_id id ≡ true
    → any (is_row id) rows ≡ true
    → between start ≡ after_calls sys later_calls (revoke id at rows).1
    → ((authorize_credential id p resource now later between start).0 ≡ err credential_unauthorized)
      × ((authenticate sys token now later between start).0 ≡ ok c → c.id ≢ id)
unfolding authorize_credential
revoked_stays_refused sys id at rows calls p resource token now later between start c good there
      met =
    (
      elim (Outcome-cases (touch_last_used id now later between start).0) [
        | inl (a, granted) ↦
            absurd (touch_last_used-Revoked id now later between start a gone granted)
        | inr (e, denied) ↦ rw (authorize_credential, denied) refl
      ],
      λ h own. touch_last_used-Revoked id now later between start c gone (named h own),
    )
  where
    gone : Revoked id (between start)
    gone = rw met (
        after_calls-Revoked sys id calls (revoke id at rows).1
          (revoke-Revoked id at rows good there))

    named :
        (authenticate sys token now later between start).0 ≡ ok c
        → c.id ≡ id
        → (touch_last_used id now later between start).0 ≡ ok c
    named h own =
        subst (λ i. (touch_last_used i now later between start).0 ≡ ok c) own
          (authenticate-own sys token now later between start c h)
