-- ===== src/Proposals/Requests.antt =====
-- internal/mcp/proposals.go: `Prepare`, for the items of a project and for ranges of one media file.
use videocutlist.Prelude.{
  false, not, ◌&&◌, ◌||◌, none, some, List, [], ◌∷◌, if◌then◌else◌, ◌==◌, ltb, length, any,
}
use videocutlist.Prelude.Int.{pos, ltb_ℤ, eqb_ℤ}
use videocutlist.Prelude.Text.{Text, codes, text_eq, is_empty}
use videocutlist.Prelude.Outcome.{Outcome, ok, err}
use videocutlist.Projects.Segments.{Segment}
use videocutlist.Mcp.Scopes.{Resource, Permission, exports_prepare}
use videocutlist.Mcp.Table.{Platform, Credentials}
use videocutlist.Mcp.Store.{random_identifier}
use videocutlist.Mcp.Tokens.{authorize_credential}
use videocutlist.Proposals.Snapshots.{
  ProjectItem, Project, Media, ExportInput, proposal_item_limit, valid_ranges,
}
use videocutlist.Proposals.Store.{
  ProposalError, proposal_stale, invalid_input, of_credential, ExportProposal, Proposals,
}
use videocutlist.Proposals.Prepare.{
  Services, ProposalRequest, Moment, Prepared, resolve_project, snapshot, blank_proposal, add_items,
  save_checked,
}

pub record Tables : Type 0 where
  pub proposals : Proposals
  pub credentials : Credentials

abbrev pub Result : Type 0
Result = Outcome ProposalError ExportProposal × Tables

-- What a preparation has answered, with the credentials after it.
abbrev pub with_credentials : Prepared → Credentials → Result
with_credentials (answer, proposals) credentials =
    (answer, record { proposals = proposals; credentials = credentials })

-- The credential is checked for the resource, and its use recorded; then `k` goes on.
unfoldable pub with_authority :
    Text → Permission → Resource → Moment → Tables → (Proposals → Prepared) → Result
with_authority credential p resource at t k =
    let (granted, credentials) =
      authorize_credential credential p resource at.now at.later at.between t.credentials in
    elim granted [
      | err e ↦ (err (of_credential e), record t { credentials = credentials })
      | ok _ ↦ with_credentials (k t.proposals) credentials
    ]

-- The items of a project, for a credential that may prepare their export.
unfoldable pub prepare_items :
    Platform
    → Services
    → ProposalRequest
    → Moment
    → Project
    → List (ProjectItem × Media)
    → Proposals
    → Prepared
unfolding add_items save_checked
prepare_items sys env request at project items rows =
    let blank = record (blank_proposal request) {
      project_id = project.id;
      project_revision = project.revision;
    } in
    elim (add_items env project request.export blank items) [
      | err e ↦ (err e, rows)
      | ok p ↦ save_checked sys request.export.cut_strategy at p rows
    ]

unfoldable pub prepare_project : Platform → Services → ProposalRequest → Moment → Tables → Result
unfolding with_authority prepare_items resolve_project
prepare_project sys env request at t =
    if ltb_ℤ request.project_revision (pos 1)
      || not (is_empty request.media_id)
      || not (length request.ranges == 0)
    then (err invalid_input, t)
    else elim (env.projects_get request.project_id) [
      | none ↦ (err proposal_stale, t)
      | some project ↦
          if not (eqb_ℤ project.revision request.project_revision)
          then (err proposal_stale, t)
          else elim (resolve_project env project request.export.item_ids) [
            | err e ↦ (err e, t)
            | ok (items, resource) ↦
                if ltb proposal_item_limit (length items)
                then (err invalid_input, t)
                else with_authority request.credential_id exports_prepare resource at t
                    (prepare_items sys env request at project items)
          ]
    ]

-- `request.Export.Selection` of a request that has none.
abbrev pub with_selection : ExportInput → ExportInput
with_selection input =
    if is_empty input.selection then record input { selection = codes "segments" } else input

abbrev pub range_item : Platform → Moment → Media → List Segment → ProjectItem
range_item sys at media ranges = record {
  id = random_identifier sys (codes "i_") at.item_bytes;
  media_id = media.id;
  segments = ranges;
  export_options = record {
    mode = [];
    selection = [];
    stream_indexes = [];
    cut_strategy = [];
    container = [];
    destination_id = [];
    filename_template = [];
  };
}

abbrev pub media_resource : Media → Resource
media_resource media = record {
  media_id = [];
  root_id = [];
  project_id = [];
  project_media = record { id = media.id; root_id = media.root_id } ∷ [];
  project_summary = false;
}

-- The ranges of a media file, for a credential that may prepare their export.
unfoldable pub prepare_ranges :
    Platform → Services → ProposalRequest → Moment → Media → Proposals → Prepared
unfolding snapshot save_checked
prepare_ranges sys env request at media rows =
    elim (snapshot env [] (pos 0) 2 (codes "MCP export") (range_item sys at media request.ranges)
      media (with_selection request.export)) [
        | err e ↦ (err e, rows)
        | ok (checked, frozen) ↦
            save_checked sys request.export.cut_strategy at
              (record (blank_proposal request) {
                media_id = media.id;
                allowed = checked.allowed;
                findings = checked.findings;
                snapshots = frozen ∷ [];
              })
              rows
      ]

unfoldable pub prepare_media : Platform → Services → ProposalRequest → Moment → Tables → Result
unfolding with_authority prepare_ranges
prepare_media sys env request at t =
    if is_empty request.media_id
      || not (eqb_ℤ request.project_revision (pos 0))
      || not (length request.export.item_ids == 0)
      || text_eq request.export.selection (codes "gaps")
      || not (valid_ranges request.ranges)
    then (err invalid_input, t)
    else elim (env.media_get request.media_id) [
      | none ↦ (err proposal_stale, t)
      | some media ↦
          if is_empty media.root_id
          then (err proposal_stale, t)
          else if any (λ s. ltb_ℤ media.duration_ms s.end_ms) request.ranges
          then (err invalid_input, t)
          else with_authority request.credential_id exports_prepare (media_resource media) at t
              (prepare_ranges sys env request at media)
    ]

unfoldable pub prepare : Platform → Services → ProposalRequest → Moment → Tables → Result
unfolding prepare_project prepare_media
prepare sys env request at t =
    if is_empty request.credential_id
      || not (is_empty request.export.destination_id)
        && not (text_eq request.export.destination_id (codes "download"))
    then (err invalid_input, t)
    else if not (is_empty request.project_id)
    then prepare_project sys env request at t
    else prepare_media sys env request at t
