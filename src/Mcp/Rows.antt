-- ===== src/Mcp/Rows.antt =====
-- The rows of `mcp_credentials` under the statements of the store: what a row that is read has in
-- common with the stored one, and that a credential once revoked stays revoked.
use videocutlist.Prelude.{
  ◌≡◌, refl, sym, ap, ◌∙◌, ℕ, suc, ◌+◌, Bool, true, false, ◌&&◌, ◌||◌, some, List, [], ◌∷◌, ◌++◌,
  if◌then◌else◌, any, count, arith, Bool-cases, Option-cases, inl, inr,
}
use videocutlist.Prelude.Text.{Text, text_eq, text_eq_iff}
use videocutlist.Prelude.Outcome.{ok}
use videocutlist.Mcp.Table.{
  CredentialRecord, Credentials, is_row, is_none, is_live, find_row, update_rows, insert_row,
  scan_credential, read_row,
}

-- The row is read as it stands but for the form of its permissions and scopes.
pub record SameRow (r s : CredentialRecord) : Type 0 where
  pub same_id : r.credential.id ≡ s.credential.id
  pub same_token : r.credential.token_identifier ≡ s.credential.token_identifier
  pub same_expiry : r.credential.expires_at ≡ s.credential.expires_at
  pub same_revocation : r.credential.revoked_at ≡ s.credential.revoked_at
  pub same_verifier : r.verifier ≡ s.verifier

pub scan_credential-SameRow : (s r : CredentialRecord) → scan_credential s ≡ ok r → SameRow r s
unfolding scan_credential
scan_credential-SameRow s r h = record {
  same_id = ground (arith, h);
  same_token = ground (arith, h);
  same_expiry = ground (arith, h);
  same_revocation = ground (arith, h);
  same_verifier = ground (arith, h);
}

-- There is a row of this id, and none is without a time of revocation.
abbrev pub Revoked : Text → Credentials → Type 0
Revoked id rows = (any (is_row id) rows ≡ true) × (count (is_live id) rows ≡ 0)

-- A statement that keeps ids and times of revocation.
abbrev pub Keeps : (CredentialRecord → CredentialRecord) → Type 0
Keeps f =
    (r : CredentialRecord)
    → ((f r).credential.id ≡ r.credential.id)
      × (is_none r.credential.revoked_at ≡ false → is_none (f r).credential.revoked_at ≡ false)

pub update_rows-any :
    (q : CredentialRecord → Bool) (f : CredentialRecord → CredentialRecord) (id : Text)
    (rows : Credentials)
    → Keeps f
    → any (is_row id) (update_rows q f rows) ≡ any (is_row id) rows
unfolding update_rows
update_rows-any q f id [] k = refl
update_rows-any q f id (r ∷ rows) k =
    let ih = update_rows-any q f id rows k in
    let e = (k r).0 in
    elim (Bool-cases (q r)) [ inl hit ↦ rw (hit, ih, e) refl | inr miss ↦ rw (miss, ih) refl ]

pub update_rows-live :
    (q : CredentialRecord → Bool) (f : CredentialRecord → CredentialRecord) (id : Text)
    (rows : Credentials)
    → Keeps f
    → count (is_live id) rows ≡ 0
    → count (is_live id) (update_rows q f rows) ≡ 0
unfolding update_rows
update_rows-live q f id [] k h = refl
update_rows-live q f id (r ∷ rows) k h = elim (Bool-cases (q r)) [
  | inl hit ↦
      rw (hit, (k r).0)
        (kept (text_eq r.credential.id id) (is_none r.credential.revoked_at)
          (is_none (f r).credential.revoked_at) _ _ (k r).1 h (update_rows-live q f id rows k))
  | inr miss ↦ rw miss (
      kept (text_eq r.credential.id id) (is_none r.credential.revoked_at)
        (is_none r.credential.revoked_at) _ _ (λ x. x) h (update_rows-live q f id rows k))
]
  where
    kept :
        (a b c : Bool) (m n : ℕ)
        → (b ≡ false → c ≡ false)
        → (if a && b then suc m else m) ≡ 0
        → (m ≡ 0 → n ≡ 0)
        → (if a && c then suc n else n) ≡ 0
    kept false b c m n x y z = z y
    kept true true c m n x y z = absurd (omega (arith, y))
    kept true false c m n x y z = rw (x refl) (z y)

pub update_rows-Revoked :
    (q : CredentialRecord → Bool) (f : CredentialRecord → CredentialRecord) (id : Text)
    (rows : Credentials)
    → Keeps f
    → Revoked id rows
    → Revoked id (update_rows q f rows)
update_rows-Revoked q f id rows k (there, dead) =
    (update_rows-any q f id rows k ∙ there, update_rows-live q f id rows k dead)

any-append_one :
    {A : Type 0} (p : A → Bool) (xs : List A) (x : A) → any p (xs ++ x ∷ []) ≡ (any p xs || p x)
any-append_one p [] x = ground arith
any-append_one p (y ∷ ys) x = ground (arith, any-append_one p ys x)

count-append_one :
    {A : Type 0} (p : A → Bool) (xs : List A) (x : A)
    → count p (xs ++ x ∷ []) ≡ count p xs + (if p x then 1 else 0)
count-append_one p [] x = ground arith
count-append_one p (y ∷ ys) x = ground (arith, count-append_one p ys x)

pub insert_row-Revoked :
    (id : Text) (r : CredentialRecord) (rows rows' : Credentials)
    → insert_row r rows ≡ ok rows'
    → Revoked id rows
    → Revoked id rows'
unfolding insert_row
insert_row-Revoked id r rows rows' h (there, dead) =
    elim (Bool-cases (any (is_row r.credential.id) rows)) [
      | inl taken ↦ absurd (ground (arith, h, taken))
      | inr free ↦
          let e : rows ++ r ∷ [] ≡ rows' = ground (arith, h, free) in
          rw
            (
              sym e,
              any-append_one (is_row id) rows r,
              count-append_one (is_live id) rows r,
              there,
              dead,
              other free,
            )
            (refl, refl)
    ]
  where
    other : any (is_row r.credential.id) rows ≡ false → is_row id r ≡ false
    other free = elim (Bool-cases (is_row id r)) [
      | inr miss ↦ miss
      | inl hit ↦ absurd (
          cc (
            sym there
            ∙ ap (λ i. any (is_row i) rows) (sym ((text_eq_iff r.credential.id id).0 hit))
            ∙ free))
    ]

pub find_row-Revoked :
    (id : Text) (rows : Credentials) (r : CredentialRecord)
    → find_row (is_row id) rows ≡ some r
    → count (is_live id) rows ≡ 0
    → is_none r.credential.revoked_at ≡ false
unfolding find_row
find_row-Revoked id [] r h d = absurd (cc h)
find_row-Revoked id (x ∷ rows) r h d = elim (Bool-cases (is_row id x)) [
  | inl hit ↦ let e : x ≡ r = ground (arith, h, hit) in rw (sym e) (ground (arith, d, hit))
  | inr miss ↦ find_row-Revoked id rows r (ground (arith, h, miss)) (ground (arith, d, miss))
]

pub read_row-SameRow :
    (p : CredentialRecord → Bool) (rows : Credentials) (r : CredentialRecord)
    → read_row p rows ≡ ok r
    → (s : CredentialRecord) × (find_row p rows ≡ some s) × SameRow r s
unfolding read_row
read_row-SameRow p rows r h = elim (Option-cases (find_row p rows)) [
  | inl missing ↦ absurd (ground (arith, h, missing))
  | inr (s, found) ↦ (s, found, scan_credential-SameRow s r (ground (arith, h, found)))
]

pub find_row-passes :
    (p : CredentialRecord → Bool) (rows : Credentials) (s : CredentialRecord)
    → find_row p rows ≡ some s
    → p s ≡ true
unfolding find_row
find_row-passes p [] s h = absurd (cc h)
find_row-passes p (x ∷ rows) s h = elim (Bool-cases (p x)) [
  | inl hit ↦ let e : x ≡ s = ground (arith, h, hit) in rw (sym e) hit
  | inr miss ↦ find_row-passes p rows s (ground (arith, h, miss))
]
