-- ===== src/Proposals/Saving.antt =====
-- What is stored of a checked proposal (internal/mcp/proposals.go): the steps that both ways of preparing share.
use videocutlist.Prelude.{
  ◌≡◌, refl, sym, ap, ◌∙◌, ◌+◌, ◌&&◌, none, List, [], ◌∷◌, ◌++◌, arith, Bool-cases, inl, inr,
}
use videocutlist.Prelude.Text.{Text}
use videocutlist.Prelude.Outcome.{ok, Outcome-cases}
use videocutlist.Mcp.Scopes.{Permission, Resource}
use videocutlist.Mcp.Table.{Platform}
use videocutlist.Mcp.Tokens.{authorize_credential}
use videocutlist.Proposals.Snapshots.{
  ProjectItem, Project, Media, ExportInput, valid_proposal_snapshots,
}
use videocutlist.Proposals.Store.{ExportProposal, Proposals, insert_proposal}
use videocutlist.Proposals.Prepare.{
  Services, Moment, Prepared, snapshot, add_items, completed, proposal_ttl, save_prepared,
  save_checked,
}
use videocutlist.Proposals.Requests.{Tables, Result, with_credentials, with_authority}
use videocutlist.Proposals.Limits.{WithinLimits, valid_proposal_snapshots-WithinLimits}

-- The proposal is within the limits, lasts for the time to live from its creation, is not approved, is
-- the credential's, and is the one row more.
abbrev pub Saved : Text → Proposals → ExportProposal → Proposals → Type 0
Saved credential rows p rows' =
    WithinLimits p.snapshots
    × (p.expires_at ≡ p.created_at + proposal_ttl)
    × (p.approved_at ≡ none)
    × (p.credential_id ≡ credential)
    × (rows' ≡ rows ++ p ∷ [])

insert_proposal-append :
    (p : ExportProposal) (rows rows' : Proposals)
    → insert_proposal p rows ≡ ok rows'
    → rows' ≡ rows ++ p ∷ []
unfolding insert_proposal
insert_proposal-append p rows rows' h = ground (arith, h)

save_prepared-Saved :
    (sys : Platform) (strategy : Text) (at : Moment) (q : ExportProposal) (rows : Proposals)
    (p : ExportProposal)
    → WithinLimits q.snapshots
    → q.approved_at ≡ none
    → (save_prepared sys strategy at q rows).0 ≡ ok p
    → Saved q.credential_id rows p (save_prepared sys strategy at q rows).1
unfolding save_prepared
save_prepared-Saved sys strategy at q rows p l a h =
    elim (Outcome-cases (insert_proposal (completed sys strategy at q) rows)) [
      | inr (e, bad) ↦ absurd (ground (arith, h, bad))
      | inl (rows', done) ↦
          let whole : save_prepared sys strategy at q rows
              ≡ (ok (completed sys strategy at q), rows') =
            rw (save_prepared, done) refl in
          let same : completed sys strategy at q ≡ p =
            cc (ap (λ (x : Prepared). x.0) (sym whole) ∙ h) in
          rw (whole, sym same)
            (l, refl, a, refl, insert_proposal-append (completed sys strategy at q) rows rows' done)
    ]

pub save_checked-Saved :
    (sys : Platform) (strategy : Text) (at : Moment) (q : ExportProposal) (rows : Proposals)
    (p : ExportProposal)
    → q.approved_at ≡ none
    → (save_checked sys strategy at q rows).0 ≡ ok p
    → Saved q.credential_id rows p (save_checked sys strategy at q rows).1
unfolding save_checked
save_checked-Saved sys strategy at q rows p a h =
    elim (Bool-cases (valid_proposal_snapshots q.snapshots)) [
      | inr bad ↦ absurd (ground (arith, h, bad))
      | inl good ↦
          let whole : save_checked sys strategy at q rows ≡ save_prepared sys strategy at q rows =
            rw (save_checked, good) refl in
          rw whole (
            save_prepared-Saved sys strategy at q rows p
              (valid_proposal_snapshots-WithinLimits q.snapshots good) a
              (ap (λ (x : Prepared). x.0) (sym whole) ∙ h))
    ]

pub add_items-keeps :
    (env : Services) (project : Project) (input : ExportInput) (items : List (ProjectItem × Media))
    (p q : ExportProposal)
    → add_items env project input p items ≡ ok q
    → (q.approved_at ≡ p.approved_at) × (q.credential_id ≡ p.credential_id)
unfolding add_items
add_items-keeps env project input [] p q h =
    let same : p ≡ q = ground (arith, h) in rw (sym same) (refl, refl)
add_items-keeps env project input ((item, media) ∷ items) p q h =
    elim (Outcome-cases (
      snapshot env project.id project.revision project.document.schema_version project.document.name
        item media input)) [
          | inr (e, bad) ↦ absurd (ground (arith, h, bad))
          | inl ((checked, frozen), good) ↦
              add_items-keeps env project input items
                (record p {
                  allowed = p.allowed && checked.allowed;
                  findings = p.findings ++ checked.findings;
                  snapshots = p.snapshots ++ frozen ∷ [];
                })
                q (ground (arith, h, good))
        ]

-- What is answered where the credential is allowed to prepare is what the rest of the call makes.
pub with_authority-ok :
    (credential : Text) (permission : Permission) (resource : Resource) (at : Moment) (t : Tables)
    (k : Proposals → Prepared) (p : ExportProposal)
    → (with_authority credential permission resource at t k).0 ≡ ok p
    → ((k t.proposals).0 ≡ ok p)
      × ((with_authority credential permission resource at t k).1.proposals ≡ (k t.proposals).1)
unfolding with_authority
with_authority-ok credential permission resource at t k p h =
    elim (Outcome-cases
      (authorize_credential credential permission resource at.now at.later at.between
        t.credentials).0) [
          | inr (e, denied) ↦ absurd (ground (arith, h, denied))
          | inl (c, granted) ↦
              let whole : with_authority credential permission resource at t k
                  ≡ with_credentials (k t.proposals)
                      (authorize_credential credential permission resource at.now at.later
                        at.between t.credentials).1 =
                rw (with_authority, granted) refl in
              (ap (λ (x : Result). x.0) (sym whole) ∙ h, ap (λ (x : Result). x.1.proposals) whole)
        ]
