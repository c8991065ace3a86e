-- ===== src/Mcp/Retention.antt =====
-- How many audit entries are kept, and which (internal/mcp/credentials.go, `RecordAudit`).
use videocutlist.Prelude.{
  ◌≡◌, refl, sym, ap, ◌∙◌, ℕ, ◌+◌, ◌≤◌, Bool, false, ◌&&◌, List, [], ◌∷◌, ◌++◌, if◌then◌else◌, leb,
  length, any, count, select, arith, Bool-cases, inl, inr,
}
use videocutlist.Prelude.Text.{Text, text_eq, text_eq_iff, text_eq_refl, text_eq_comm}
use videocutlist.Prelude.Outcome.{Outcome, ok, err, Outcome-cases}
use videocutlist.Mcp.Ids.{valid_credential_id}
use videocutlist.Mcp.Scopes.{CredentialError, credential_not_found}
use videocutlist.Mcp.Normalize.{AuditInput, normalize_audit_input}
use videocutlist.Mcp.Table.{Credentials, is_row}
use videocutlist.Mcp.Audit.{
  Recorded, AuditEntry, AuditTable, is_of, max_audit_entries, new_entry, retain, record_audit,
}

-- The last `keep` members of a list, or all of them.
abbrev pub keep_last {ℓ} : {A : Type ℓ} → ℕ → List A → List A
keep_last keep [] = []
keep_last keep (x ∷ xs) = if leb keep (length xs) then keep_last keep xs else x ∷ xs

length-keep_last : (keep : ℕ) (es : List AuditEntry) → length (keep_last keep es) ≤ keep
length-keep_last keep [] = omega arith
length-keep_last keep (e ∷ es) = ground (arith, length-keep_last keep es)

length-select : (p : AuditEntry → Bool) (es : List AuditEntry) → length (select p es) ≡ count p es
length-select p [] = refl
length-select p (e ∷ es) = ground (arith, length-select p es)

select-append :
    (p : AuditEntry → Bool) (es more : List AuditEntry)
    → select p (es ++ more) ≡ select p es ++ select p more
select-append p [] more = refl
select-append p (e ∷ es) more = elim (Bool-cases (p e)) [
  | inl hit ↦ rw (hit, select-append p es more) refl
  | inr miss ↦ rw (miss, select-append p es more) refl
]

keep_last-all : (keep : ℕ) (es : List AuditEntry) → length es ≤ keep → keep_last keep es ≡ es
keep_last-all keep [] h = refl
keep_last-all keep (e ∷ es) h = ground (arith, h)

append_nil : (es : List AuditEntry) → es ++ [] ≡ es
append_nil [] = refl
append_nil (e ∷ es) = ap (◌∷◌ e) (append_nil es)

retain-own :
    (keep : ℕ) (id : Text) (es : List AuditEntry)
    → select (is_of id) (retain keep id es) ≡ keep_last keep (select (is_of id) es)
unfolding retain
retain-own keep id [] = refl
retain-own keep id (e ∷ es) =
    let ih = retain-own keep id es in
    let n = length-select (is_of id) es in
    elim (Bool-cases (is_of id e)) [
      | inr foreign ↦ rw (foreign, foreign) ih
      | inl own ↦ elim (Bool-cases (leb keep (count (is_of id) es))) [
        | inl old ↦ rw (own, old, n, old) ih
        | inr new ↦
            rw (own, new, own, n, new)
              (ap (◌∷◌ e) (ih ∙ keep_last-all keep (select (is_of id) es) (ground (arith, n, new))))
      ]
    ]

retain-other :
    (keep : ℕ) (id other : Text) (es : List AuditEntry)
    → text_eq other id ≡ false
    → select (is_of other) (retain keep id es) ≡ select (is_of other) es
unfolding retain
retain-other keep id other [] h = refl
retain-other keep id other (e ∷ es) h =
    let ih = retain-other keep id other es h in
    elim (Bool-cases (is_of other e)) [
      | inr foreign ↦ elim (Bool-cases (is_of id e && leb keep (count (is_of id) es))) [
        | inl old ↦ rw (old, foreign) ih
        | inr new ↦ rw (new, foreign) ih
      ]
      | inl own ↦
          let n : is_of id e ≡ false =
            ap (λ x. text_eq x id) ((text_eq_iff e.credential_id other).0 own) ∙ h in
          rw (n, own) (ap (◌∷◌ e) ih)
    ]

abbrev grown : Text → AuditInput → ℕ → AuditTable → Recorded
grown id normalized now table = (
  ok (new_entry id normalized now table),
  record {
    entries = retain max_audit_entries id (table.entries ++ new_entry id normalized now table ∷ []);
    last_entry = table.last_entry + 1;
  },
)

-- What a call has done to the table, by its answer: an entry, or an error.
abbrev pub Kept : Text → Text → AuditTable → Recorded → AuditEntry → CredentialError → Type 0
Kept id other table result entry e =
    (result.0 ≡ ok entry
      → (entry.id ≡ table.last_entry + 1)
        × (result.1.last_entry ≡ entry.id)
        × (select (is_of id) result.1.entries
            ≡ keep_last max_audit_entries (select (is_of id) table.entries ++ entry ∷ []))
        × (length (select (is_of id) result.1.entries) ≤ max_audit_entries)
        × (select (is_of other) result.1.entries ≡ select (is_of other) table.entries))
    × (result.0 ≡ err e → result.1 ≡ table)

grown-Kept :
    (id other : Text) (input : AuditInput) (now : ℕ) (table : AuditTable) (entry : AuditEntry)
    (e : CredentialError)
    → text_eq other id ≡ false
    → Kept id other table (grown id input now table) entry e
grown-Kept id other input now table entry e foreign = (kept, λ x. absurd (cc x))
  where
    new : AuditEntry
    new = new_entry id input now table

    own :
        select (is_of id) (table.entries ++ new ∷ []) ≡ select (is_of id) table.entries ++ new ∷ []
    own = select-append (is_of id) table.entries (new ∷ []) ∙ rw (text_eq_refl id) refl

    others : select (is_of other) (table.entries ++ new ∷ []) ≡ select (is_of other) table.entries
    others =
        select-append (is_of other) table.entries (new ∷ [])
        ∙ rw (text_eq_comm id other, foreign) (append_nil (select (is_of other) table.entries))

    kept :
        ◌≡◌ {A = Outcome CredentialError AuditEntry} (ok new) (ok entry)
        → (entry.id ≡ table.last_entry + 1)
          × (table.last_entry + 1 ≡ entry.id)
          × (select (is_of id) (retain max_audit_entries id (table.entries ++ new ∷ []))
              ≡ keep_last max_audit_entries (select (is_of id) table.entries ++ entry ∷ []))
          × (length (select (is_of id) (retain max_audit_entries id (table.entries ++ new ∷ [])))
              ≤ max_audit_entries)
          × (select (is_of other) (retain max_audit_entries id (table.entries ++ new ∷ []))
              ≡ select (is_of other) table.entries)
    kept h =
        let same : new ≡ entry = cc h in
        rw (sym same, retain-own max_audit_entries id (table.entries ++ new ∷ []), own)
          (
            refl,
            refl,
            refl,
            length-keep_last max_audit_entries (select (is_of id) table.entries ++ new ∷ []),
            retain-other max_audit_entries id other (table.entries ++ new ∷ []) foreign ∙ others,
          )

-- An entry that is recorded gets an id that was not given before; of the entries of its credential the
-- last 1000 are kept, with the new one as the last, those of any other credential all stay; and a call
-- that is refused leaves the table as it is.
pub record_audit_keeps_newest :
    (id other : Text) (input : AuditInput) (now : ℕ) (rows : Credentials) (table : AuditTable)
    (entry : AuditEntry) (e : CredentialError)
    → text_eq other id ≡ false
    → Kept id other table (record_audit id input now rows table) entry e
record_audit_keeps_newest id other input now rows table entry e foreign =
    elim (Bool-cases (valid_credential_id id)) [
      | inr bad ↦ refused credential_not_found (unfold record_audit in rw (record_audit, bad) refl)
      | inl good ↦ elim (Outcome-cases (normalize_audit_input input)) [
        | inr (f, wrong) ↦ refused f (unfold record_audit in rw (record_audit, good, wrong) refl)
        | inl (normalized, right) ↦ elim (Bool-cases (any (is_row id) rows)) [
          | inr missing ↦
              refused credential_not_found
                (unfold record_audit in rw (record_audit, good, right, missing) refl)
          | inl there ↦
              appended normalized
                (unfold record_audit in rw (record_audit, good, right, there) refl)
        ]
      ]
    ]
  where
    refused :
        (f : CredentialError)
        → record_audit id input now rows table ≡ (err f, table)
        → Kept id other table (record_audit id input now rows table) entry e
    refused f h = rw h ((λ x. absurd (cc x)), (λ x. refl))

    appended :
        (normalized : AuditInput)
        → record_audit id input now rows table ≡ grown id normalized now table
        → Kept id other table (record_audit id input now rows table) entry e
    appended normalized h = rw h (grown-Kept id other normalized now table entry e foreign)
