-- ===== src/Mcp/Rescoped.antt =====
-- The row of the credential after a grant (internal/mcp/credentials.go).
use videocutlist.Prelude.{
  ◌≡◌, ◌⊎◌, refl, sym, ap, ◌∙◌, ℕ, Bool, true, false, ◌||◌, [], ◌∷◌, ◌==◌, leb, length, any, count,
  some, arith, Bool-cases, inl, inr,
}
use videocutlist.Prelude.Text.{Text, codes, text_eq, text_eq_iff}
use videocutlist.Prelude.Outcome.{ok}
use videocutlist.Mcp.Ids.{contains}
use videocutlist.Mcp.Scopes.{ProjectScope, Credential}
use videocutlist.Mcp.Normalize.{scope_id_limit}
use videocutlist.Mcp.Table.{Platform, CredentialRecord, Credentials, is_row, find_row, update_rows}
use videocutlist.Mcp.Grants.{is_grantable, scoped, with_project, granted}
use videocutlist.Mcp.Ordered.{UniqueRows}

no_row-count :
    (q : CredentialRecord → Bool) (id : Text) (rows : Credentials)
    → ((r : CredentialRecord) → is_row id r ≡ false → q r ≡ false)
    → any (is_row id) rows ≡ false
    → count q rows ≡ 0
no_row-count q id [] own h = refl
no_row-count q id (r ∷ rows) own h = elim (Bool-cases (is_row id r)) [
  | inl hit ↦ absurd (ground (arith, h, hit))
  | inr other ↦
      let rest = no_row-count q id rows own (ground (arith, h, other)) in
      ground (arith, own r other, rest)
]

-- The UPDATE has set the scope of the row that the id finds, and when the row was written.
abbrev pub Rescoped : Text → ProjectScope → ℕ → Credentials → Credentials → Type 0
Rescoped id scope later rows after =
    (s : CredentialRecord) × (find_row (is_row id) rows ≡ some s)
    × (find_row (is_row id) after
        ≡ some (record s {
          credential = record s.credential { project_scope = scope };
          updated_at = later;
        }))

update-Rescoped :
    (q : CredentialRecord → Bool) (id : Text) (scope : ProjectScope) (later : ℕ)
    (rows : Credentials)
    → ((r : CredentialRecord) → is_row id r ≡ false → q r ≡ false)
    → UniqueRows rows
    → count q rows ≡ 1
    → Rescoped id scope later rows (update_rows q (scoped scope later) rows)
unfolding find_row update_rows
update-Rescoped q id scope later [] own u one = absurd (omega arith)
update-Rescoped q id scope later (r ∷ rows) own u one = elim (Bool-cases (is_row id r)) [
  | inl hit ↦
      let alone : any (is_row id) rows ≡ false =
        ap (λ x. any (is_row x) rows) (sym ((text_eq_iff r.credential.id id).0 hit)) ∙ u.0 in
      let met : q r ≡ true = ground (arith, one, no_row-count q id rows own alone) in
      (r, rw hit refl, rw (met, hit) refl)
  | inr other ↦
      let missed = own r other in
      let (s, found, changed) =
        update-Rescoped q id scope later rows own u.1 (ground (arith, one, missed)) in
      (s, rw other found, rw (missed, other) changed)
]

-- What a grant that has been answered with `c` has written: nothing if `c` is what was read, or else
-- the scope of `c` to the row of the credential.
abbrev pub Written : Text → Credential → Credential → ℕ → Credentials → Credentials → Type 0
Written id old c later rows after =
    ((after ≡ rows) × (c ≡ old)) ⊎ Rescoped id c.project_scope later rows after

pub granted-Written :
    (sys : Platform) (id project : Text) (later : ℕ) (r : CredentialRecord) (rows : Credentials)
    (c : Credential)
    → UniqueRows rows
    → (granted sys id project later r rows).0 ≡ ok c
    → Written id r.credential c later rows (granted sys id project later r rows).1
unfolding granted
granted-Written sys id project later r rows c u h =
    elim (Bool-cases (
      text_eq r.credential.project_scope.project_kind (codes "all")
      || contains project r.credential.project_scope.project_ids)) [
        | inl known ↦ inl (rw (granted, known) refl, ground (arith, h, known))
        | inr new ↦
            let room : leb scope_id_limit (length r.credential.project_scope.project_ids) ≡ false =
              ground (arith, h, new) in
            let one : (count (is_grantable sys id later) rows == 1) ≡ true =
              ground (arith, h, new, room) in
            let e : record r.credential {
              project_scope = with_project project r.credential.project_scope;
            }
                ≡ c =
              ground (arith, h, new, room, one) in
            let done =
              update-Rescoped (is_grantable sys id later) id
                (with_project project r.credential.project_scope) later rows
                (λ s foreign. rw foreign refl) u (ground (arith, one)) in
            inr (rw (sym e) (rw (granted, new, room, one) done))
      ]
