-- ===== src/Proposals/Preparation.antt =====
-- What a prepared proposal is (internal/mcp/proposals.go).
use videocutlist.Prelude.{
  ◌≡◌, refl, sym, ap, ◌∙◌, not, ◌&&◌, ◌||◌, List, [], ◌∷◌, ◌==◌, ltb, length, any, arith,
  Bool-cases, Option-cases, inl, inr,
}
use videocutlist.Prelude.Int.{pos, ltb_ℤ, eqb_ℤ}
use videocutlist.Prelude.Text.{Text, codes, text_eq, is_empty}
use videocutlist.Prelude.Outcome.{ok, Outcome-cases}
use videocutlist.Mcp.Scopes.{Permission, Resource, exports_prepare}
use videocutlist.Mcp.Table.{Platform}
use videocutlist.Proposals.Snapshots.{
  ProjectItem, Project, Media, valid_ranges, proposal_item_limit,
}
use videocutlist.Proposals.Store.{ExportProposal, Proposals}
use videocutlist.Proposals.Prepare.{
  Services, ProposalRequest, Moment, Prepared, resolve_project, snapshot, blank_proposal, add_items,
  save_checked,
}
use videocutlist.Proposals.Requests.{
  Tables, Result, with_authority, prepare_items, prepare_ranges, prepare_project, with_selection,
  range_item, media_resource, prepare_media, prepare,
}
use videocutlist.Proposals.Saving.{Saved, save_checked-Saved, add_items-keeps, with_authority-ok}

prepare_items-Saved :
    (sys : Platform) (env : Services) (request : ProposalRequest) (at : Moment) (project : Project)
    (items : List (ProjectItem × Media)) (rows : Proposals) (p : ExportProposal)
    → (prepare_items sys env request at project items rows).0 ≡ ok p
    → Saved request.credential_id rows p (prepare_items sys env request at project items rows).1
unfolding prepare_items
prepare_items-Saved sys env request at project items rows p h =
    let blank : ExportProposal = record (blank_proposal request) {
      project_id = project.id;
      project_revision = project.revision;
    } in
    elim (Outcome-cases (add_items env project request.export blank items)) [
      | inr (e, bad) ↦ absurd (ground (arith, h, bad))
      | inl (q, good) ↦
          let (open_still, own) = add_items-keeps env project request.export items blank q good in
          let whole : prepare_items sys env request at project items rows
              ≡ save_checked sys request.export.cut_strategy at q rows =
            rw (prepare_items, good) refl in
          rw (whole, sym own)
            (save_checked-Saved sys request.export.cut_strategy at q rows p open_still
              (ap (λ (x : Prepared). x.0) (sym whole) ∙ h))
    ]

prepare_ranges-Saved :
    (sys : Platform) (env : Services) (request : ProposalRequest) (at : Moment) (media : Media)
    (rows : Proposals) (p : ExportProposal)
    → (prepare_ranges sys env request at media rows).0 ≡ ok p
    → Saved request.credential_id rows p (prepare_ranges sys env request at media rows).1
unfolding prepare_ranges
prepare_ranges-Saved sys env request at media rows p h =
    elim (Outcome-cases (
      snapshot env [] (pos 0) 2 (codes "MCP export") (range_item sys at media request.ranges) media
        (with_selection request.export))) [
          | inr (e, bad) ↦ absurd (ground (arith, h, bad))
          | inl ((checked, frozen), good) ↦
              let made : ExportProposal = record (blank_proposal request) {
                media_id = media.id;
                allowed = checked.allowed;
                findings = checked.findings;
                snapshots = frozen ∷ [];
              } in
              let whole : prepare_ranges sys env request at media rows
                  ≡ save_checked sys request.export.cut_strategy at made rows =
                rw (prepare_ranges, good) refl in
              rw whole (
                save_checked-Saved sys request.export.cut_strategy at made rows p refl
                  (ap (λ (x : Prepared). x.0) (sym whole) ∙ h))
        ]

-- From what the rest of an allowed call has stored to what the call has.
authority-Saved :
    (credential : Text) (permission : Permission) (resource : Resource) (at : Moment) (t : Tables)
    (k : Proposals → Prepared) (p : ExportProposal) (r : Result)
    → ((k t.proposals).0 ≡ ok p → Saved credential t.proposals p (k t.proposals).1)
    → r ≡ with_authority credential permission resource at t k
    → r.0 ≡ ok p
    → Saved credential t.proposals p r.1.proposals
authority-Saved credential permission resource at t k p r saved whole h =
    let (made, stored) =
      with_authority-ok credential permission resource at t k p
        (ap (λ (x : Result). x.0) (sym whole) ∙ h) in
    rw (whole, stored) (saved made)

prepare_project-Saved :
    (sys : Platform) (env : Services) (request : ProposalRequest) (at : Moment) (t : Tables)
    (p : ExportProposal)
    → (prepare_project sys env request at t).0 ≡ ok p
    → Saved request.credential_id t.proposals p (prepare_project sys env request at t).1.proposals
unfolding prepare_project
prepare_project-Saved sys env request at t p h =
    elim (Bool-cases (
      ltb_ℤ request.project_revision (pos 1)
      || not (is_empty request.media_id)
      || not (length request.ranges == 0))) [
        | inl bad ↦ absurd (ground (arith, h, bad))
        | inr good ↦ elim (Option-cases (env.projects_get request.project_id)) [
          | inl missing ↦ absurd (ground (arith, h, good, missing))
          | inr (project, there) ↦
              elim (Bool-cases (eqb_ℤ project.revision request.project_revision)) [
                | inr other ↦ absurd (ground (arith, h, good, there, other))
                | inl same ↦
                    elim (Outcome-cases (resolve_project env project request.export.item_ids)) [
                      | inr (e, bad) ↦ absurd (ground (arith, h, good, there, same, bad))
                      | inl ((items, resource), resolved) ↦
                          elim (Bool-cases (ltb proposal_item_limit (length items))) [
                            | inl many ↦
                                absurd (ground (arith, h, good, there, same, resolved, many))
                            | inr few ↦
                                authority-Saved request.credential_id exports_prepare resource at t
                                  (prepare_items sys env request at project items) p
                                  (prepare_project sys env request at t)
                                  (prepare_items-Saved sys env request at project items t.proposals
                                    p)
                                  (rw (prepare_project, good, there, same, resolved, few) refl) h
                          ]
                    ]
              ]
        ]
      ]

prepare_media-Saved :
    (sys : Platform) (env : Services) (request : ProposalRequest) (at : Moment) (t : Tables)
    (p : ExportProposal)
    → (prepare_media sys env request at t).0 ≡ ok p
    → Saved request.credential_id t.proposals p (prepare_media sys env request at t).1.proposals
unfolding prepare_media
prepare_media-Saved sys env request at t p h =
    elim (Bool-cases (
      is_empty request.media_id
      || not (eqb_ℤ request.project_revision (pos 0))
      || not (length request.export.item_ids == 0)
      || text_eq request.export.selection (codes "gaps")
      || not (valid_ranges request.ranges))) [
        | inl bad ↦ absurd (ground (arith, h, bad))
        | inr good ↦ elim (Option-cases (env.media_get request.media_id)) [
          | inl missing ↦ absurd (ground (arith, h, good, missing))
          | inr (media, there) ↦ elim (Bool-cases (is_empty media.root_id)) [
            | inl rootless ↦ absurd (ground (arith, h, good, there, rootless))
            | inr rooted ↦
                elim (Bool-cases (any (λ s. ltb_ℤ media.duration_ms s.end_ms) request.ranges)) [
                  | inl outside ↦ absurd (ground (arith, h, good, there, rooted, outside))
                  | inr inside ↦
                      authority-Saved request.credential_id exports_prepare (media_resource media)
                        at t (prepare_ranges sys env request at media) p
                        (prepare_media sys env request at t)
                        (prepare_ranges-Saved sys env request at media t.proposals p)
                        (rw (prepare_media, good, there, rooted, inside) refl) h
                ]
          ]
        ]
      ]

-- A preparation that is answered has stored one proposal more, which is the credential's that asked, is
-- not approved, expires when its time to live has passed, and is within the limits: from one to twenty
-- items, each with one to a hundred ranges inside its source and no longer than ten minutes, and half
-- an hour long together.
pub prepare-Saved :
    (sys : Platform) (env : Services) (request : ProposalRequest) (at : Moment) (t : Tables)
    (p : ExportProposal)
    → (prepare sys env request at t).0 ≡ ok p
    → Saved request.credential_id t.proposals p (prepare sys env request at t).1.proposals
unfolding prepare
prepare-Saved sys env request at t p h =
    elim (Bool-cases (
      is_empty request.credential_id
      || not (is_empty request.export.destination_id)
        && not (text_eq request.export.destination_id (codes "download")))) [
          | inl bad ↦ absurd (ground (arith, h, bad))
          | inr good ↦ elim (Bool-cases (is_empty request.project_id)) [
            | inr project ↦
                let whole : prepare sys env request at t ≡ prepare_project sys env request at t =
                  rw (prepare, good, project) refl in
                rw whole (
                  prepare_project-Saved sys env request at t p
                    (ap (λ (x : Result). x.0) (sym whole) ∙ h))
            | inl media ↦
                let whole : prepare sys env request at t ≡ prepare_media sys env request at t =
                  rw (prepare, good, media) refl in
                rw whole (
                  prepare_media-Saved sys env request at t p
                    (ap (λ (x : Result). x.0) (sym whole) ∙ h))
          ]
        ]
