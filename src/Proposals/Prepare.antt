-- ===== src/Proposals/Prepare.antt =====
-- internal/mcp/proposals.go: how a proposal is prepared. The project service, the media catalog and the
-- preflight are what the code sees of them, interfaces. Random bytes are arguments.
use videocutlist.Prelude.{
  ℕ, ◌+◌, ◌*◌, Bool, true, false, not, ◌&&◌, ◌||◌, Option, none, some, List, [], ◌∷◌, ◌++◌,
  if◌then◌else◌, ◌==◌, length,
}
use videocutlist.Prelude.Int.{ℤ, pos}
use videocutlist.Prelude.Text.{Text, codes, text_eq, is_empty}
use videocutlist.Prelude.Outcome.{Outcome, ok, err}
use videocutlist.Projects.Segments.{Segment}
use videocutlist.Export.Ranges.{resolve_ranges}
use videocutlist.Mcp.Ids.{contains}
use videocutlist.Mcp.Scopes.{MediaResource, Resource}
use videocutlist.Mcp.Table.{Platform, Credentials}
use videocutlist.Mcp.Store.{random_identifier}
use videocutlist.Proposals.Snapshots.{
  ExportOptions, ProjectItem, Project, Media, ExportInput, ExportPreflight, SourceSnapshot,
  ExportSnapshot, valid_proposal_snapshots, proposal_accuracy,
}
use videocutlist.Proposals.Store.{
  ProposalError, proposal_stale, invalid_input, service_failed, ExportProposal, Proposals,
  insert_proposal,
}

-- `projects.ProjectService`, `projects.MediaCatalog` and `projects.ExportPreflightService`; `none` is an
-- error. `short_digest` is the base64 of the first 18 bytes of SHA-256, and `marshal` is `json.Marshal`.
pub record Services : Type 0 where
  pub projects_get : Text → Option Project
  pub media_get : Text → Option Media
  pub preflight : Text → Project → ExportInput → Option ExportPreflight
  pub short_digest : Text → Text
  pub marshal : ExportSnapshot → Text

pub record ProposalRequest : Type 0 where
  pub credential_id : Text
  pub project_id : Text
  pub project_revision : ℤ
  pub media_id : Text
  pub ranges : List Segment
  pub export : ExportInput

-- What a call depends on beyond its request: the clock as it checks the credential and as it saves, what
-- others make of the credentials meanwhile, and random bytes.
pub record Moment : Type 0 where
  pub now : ℕ
  pub later : ℕ
  pub saved : ℕ
  pub between : Credentials → Credentials
  pub item_bytes : Text
  pub proposal_bytes : Text

-- The two loops over the selected ids: neither empty nor named twice.
unfoldable pub distinct_ids : List Text → List Text → Bool
distinct_ids selected [] = true
distinct_ids selected (id ∷ ids) =
    let rest = distinct_ids (id ∷ selected) ids in
    if is_empty id || contains id selected then false else rest

-- `delete(selected, id)`
unfoldable pub without_id : Text → List Text → List Text
without_id id [] = []
without_id id (s ∷ ss) = if text_eq id s then without_id id ss else s ∷ without_id id ss

pub record Resolved : Type 0 where
  pub items : List (ProjectItem × Media)
  pub all_media : List MediaResource
  pub left : List Text

abbrev with_item : Bool → Text → ProjectItem → Media → Resolved → Resolved
with_item taken root item media r = record r {
  items = if taken then (item, media) ∷ r.items else r.items;
  all_media = record { id = media.id; root_id = root } ∷ r.all_media;
}

-- The loop over the items of the project.
unfoldable pub resolve_items : Services → Bool → List Text → List ProjectItem → Option Resolved
unfolding without_id
resolve_items env select_all selected [] =
    some (record { items = []; all_media = []; left = selected })
resolve_items env select_all selected (item ∷ items) =
    let taken = select_all || contains item.id selected in
    let rest =
      resolve_items env select_all (if select_all then selected else without_id item.id selected)
        items in
    elim (env.media_get item.media_id) [
      | none ↦ none
      | some media ↦ if is_empty media.root_id then none else elim rest [
        | none ↦ none
        | some r ↦ some (with_item taken media.root_id item media r)
      ]
    ]

unfoldable pub resolve_project :
    Services → Project → List Text → Outcome ProposalError (List (ProjectItem × Media) × Resource)
unfolding distinct_ids resolve_items
resolve_project env project selected =
    if not (distinct_ids [] selected)
    then err proposal_stale
    else elim (resolve_items env (length selected == 0) selected project.document.items) [
      | none ↦ err proposal_stale
      | some r ↦
          if length r.items == 0 || not (length r.left == 0)
          then err proposal_stale
          else ok (
            r.items,
            record {
              media_id = [];
              root_id = [];
              project_id = project.id;
              project_media = r.all_media;
              project_summary = false;
            },
          )
    ]

-- The export settings of the request, as they are put into an item.
abbrev options_of : ExportInput → ExportOptions
options_of input = record {
  mode = input.mode;
  selection = input.selection;
  stream_indexes = input.stream_indexes;
  cut_strategy = input.cut_strategy;
  container = input.container;
  destination_id = codes "download";
  filename_template = input.filename_template;
}

abbrev pub input_of : Text → ExportOptions → ExportInput
input_of destination o = record {
  mode = o.mode;
  selection = o.selection;
  stream_indexes = o.stream_indexes;
  cut_strategy = o.cut_strategy;
  container = o.container;
  destination_id = destination;
  filename_template = o.filename_template;
  item_ids = [];
}

abbrev pub one_item : Text → ℤ → ℕ → Text → ProjectItem → Project
one_item id revision schema name item = record {
  id = id;
  revision = revision;
  document = record { schema_version = schema; name = name; items = item ∷ [] };
}

abbrev pub source_of : Media → SourceSnapshot
source_of media = record {
  media_id = media.id;
  root_id = media.root_id;
  etag = media.etag;
  size_bytes = media.size_bytes;
  duration_ms = media.duration_ms;
}

-- The item that is frozen: the streams that the preflight has chosen, and the ranges to export.
abbrev pub frozen_item : ExportPreflight → ProjectItem → Media → ExportInput → ProjectItem
frozen_item checked item media input = record item {
  segments = resolve_ranges item.segments input.selection media.duration_ms;
  export_options = record (options_of input) {
    stream_indexes = checked.checked_selection;
    selection = codes "segments";
  };
}

unfoldable pub snapshot :
    Services
    → Text
    → ℤ
    → ℕ
    → Text
    → ProjectItem
    → Media
    → ExportInput
    → Outcome ProposalError (ExportPreflight × ExportSnapshot)
snapshot env project revision schema name item media input =
    let own = record item { export_options = options_of input } in
    elim (env.preflight project (one_item project revision schema name own)
      (input_of (codes "download") own.export_options)) [
        | none ↦ err service_failed
        | some checked ↦ ok (
          checked,
          record {
            project_revision = revision;
            media_label = media.name;
            item = frozen_item checked own media input;
            source = source_of media;
          },
        )
      ]

abbrev pub blank_proposal : ProposalRequest → ExportProposal
blank_proposal request = record {
  id = [];
  credential_id = request.credential_id;
  project_id = [];
  project_revision = pos 0;
  media_id = [];
  snapshots = [];
  findings = [];
  allowed = true;
  requires_reencoding = false;
  accuracy = [];
  destination_id = codes "download";
  expires_at = 0;
  approved_at = none;
  created_at = 0;
}

-- The loop over the selected items.
unfoldable pub add_items :
    Services
    → Project
    → ExportInput
    → ExportProposal
    → List (ProjectItem × Media)
    → Outcome ProposalError ExportProposal
unfolding snapshot
add_items env project input p [] = ok p
add_items env project input p ((item, media) ∷ items) =
    elim (snapshot env project.id project.revision project.document.schema_version
      project.document.name item media input) [
        | err e ↦ err e
        | ok (checked, frozen) ↦
            add_items env project input
              (record p {
                allowed = p.allowed && checked.allowed;
                findings = p.findings ++ checked.findings;
                snapshots = p.snapshots ++ frozen ∷ [];
              })
              items
      ]

-- `ProposalTTL`, in nanoseconds.
abbrev pub proposal_ttl : ℕ
proposal_ttl = 15 * 60 * 1000 * 1000 * 1000

abbrev pub Prepared : Type 0
Prepared = Outcome ProposalError ExportProposal × Proposals

-- The proposal as it is stored and answered.
abbrev pub completed : Platform → Text → Moment → ExportProposal → ExportProposal
completed sys strategy at p = record p {
  requires_reencoding =
      text_eq strategy (codes "precise_reencode") || text_eq strategy (codes "hybrid_smart_cut");
  accuracy = proposal_accuracy strategy;
  id = random_identifier sys (codes "ep_") at.proposal_bytes;
  created_at = at.saved;
  expires_at = at.saved + proposal_ttl;
}

unfoldable pub save_prepared : Platform → Text → Moment → ExportProposal → Proposals → Prepared
unfolding proposal_accuracy random_identifier insert_proposal
save_prepared sys strategy at p rows = elim (insert_proposal (completed sys strategy at p) rows) [
  | err e ↦ (err e, rows)
  | ok rows' ↦ (ok (completed sys strategy at p), rows')
]

-- What the two ways of preparing do with the snapshots.
unfoldable pub save_checked : Platform → Text → Moment → ExportProposal → Proposals → Prepared
unfolding save_prepared
save_checked sys strategy at p rows =
    if not (valid_proposal_snapshots p.snapshots)
    then (err invalid_input, rows)
    else save_prepared sys strategy at p rows
