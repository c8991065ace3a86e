-- ===== src/Proposals/Snapshots.antt =====
-- internal/mcp/proposals.go, internal/projects/batch_export.go and internal/projects/api.go: the frozen
-- items of a proposal, and the checks of them. What is only carried along (the editor state of an item,
-- the container and the streams of a media file) is left out.
use videocutlist.Prelude.{
  ℕ, ◌*◌, Bool, true, false, not, ◌&&◌, ◌||◌, Option, none, some, List, [], ◌∷◌, if◌then◌else◌,
  ◌==◌, ltb, length,
}
use videocutlist.Prelude.Int.{ℤ, pos, ltb_ℤ, leb_ℤ, eqb_ℤ, ◌+ℤ◌, ◌-ℤ◌}
use videocutlist.Prelude.Text.{Text, codes, text_eq, is_empty}
use videocutlist.Projects.Segments.{Segment, is_included}

pub record ExportOptions : Type 0 where
  pub mode : Text
  pub selection : Text
  pub stream_indexes : List ℤ
  pub cut_strategy : Text
  pub container : Text
  pub destination_id : Text
  pub filename_template : Text

pub record ProjectItem : Type 0 where
  pub id : Text
  pub media_id : Text
  pub segments : List Segment
  pub export_options : ExportOptions

pub record Document : Type 0 where
  pub schema_version : ℕ
  pub name : Text
  pub items : List ProjectItem

pub record Project : Type 0 where
  pub id : Text
  pub revision : ℤ
  pub document : Document

pub record Media : Type 0 where
  pub id : Text
  pub root_id : Text
  pub name : Text
  pub duration_ms : ℤ
  pub size_bytes : ℤ
  pub etag : Text

pub record ExportInput : Type 0 where
  pub mode : Text
  pub selection : Text
  pub stream_indexes : List ℤ
  pub cut_strategy : Text
  pub container : Text
  pub destination_id : Text
  pub filename_template : Text
  pub item_ids : List Text

pub record ExportFinding : Type 0 where
  pub severity : Text
  pub finding_code : Text
  pub message : Text
  pub stream_index : Option ℤ

pub record ExportPreflight : Type 0 where
  pub allowed : Bool
  pub checked_selection : List ℤ
  pub findings : List ExportFinding

pub record SourceSnapshot : Type 0 where
  pub media_id : Text
  pub root_id : Text
  pub etag : Text
  pub size_bytes : ℤ
  pub duration_ms : ℤ

pub record ExportSnapshot : Type 0 where
  pub project_revision : ℤ
  pub media_label : Text
  pub item : ProjectItem
  pub source : SourceSnapshot

-- `ValidateSnapshot(…) == nil`
unfoldable pub validate_snapshot : ExportSnapshot → Media → Bool
validate_snapshot s media = not (
    not (text_eq media.id s.source.media_id)
    || not (is_empty s.source.root_id) && not (text_eq media.root_id s.source.root_id)
    || not (text_eq media.etag s.source.etag)
    || not (eqb_ℤ media.size_bytes s.source.size_bytes)
    || not (eqb_ℤ media.duration_ms s.source.duration_ms))

abbrev pub proposal_item_limit : ℕ
proposal_item_limit = 20

abbrev pub proposal_range_limit : ℕ
proposal_range_limit = 100

abbrev pub clip_limit_ms : ℤ
clip_limit_ms = pos (10 * 60 * 1000)

abbrev pub total_limit_ms : ℤ
total_limit_ms = pos (30 * 60 * 1000)

-- The loop over the segments of one snapshot, with `total`; `none` where it returns false.
unfoldable pub add_segments : ℤ → ℤ → List Segment → Option ℤ
add_segments duration_ms total [] = some total
add_segments duration_ms total (s ∷ ss) =
    let duration = s.end_ms -ℤ s.start_ms in
    let rest = add_segments duration_ms (total +ℤ duration) ss in
    if ltb_ℤ s.start_ms (pos 0) || leb_ℤ s.end_ms s.start_ms || ltb_ℤ duration_ms s.end_ms
    then none
    else if ltb_ℤ clip_limit_ms duration || ltb_ℤ (total_limit_ms -ℤ total) duration
    then none
    else rest

unfoldable pub add_snapshots : ℤ → List ExportSnapshot → Option ℤ
unfolding add_segments
add_snapshots total [] = some total
add_snapshots total (s ∷ ss) =
    if length s.item.segments == 0 || ltb proposal_range_limit (length s.item.segments)
    then none
    else elim (add_segments s.source.duration_ms total s.item.segments) [
      | none ↦ none
      | some total' ↦ add_snapshots total' ss
    ]

unfoldable pub valid_proposal_snapshots : List ExportSnapshot → Bool
unfolding add_snapshots
valid_proposal_snapshots snapshots =
    if length snapshots == 0 || ltb proposal_item_limit (length snapshots)
    then false
    else elim (add_snapshots (pos 0) snapshots) [ none ↦ false | some _ ↦ true ]

-- The loop of `validRanges`, with `included`.
unfoldable pub check_ranges_from : Bool → List Segment → Bool
unfolding is_included
check_ranges_from included [] = included
check_ranges_from included (s ∷ ss) =
    let rest = check_ranges_from (included || is_included s) ss in
    if ltb_ℤ s.start_ms (pos 0)
      || leb_ℤ s.end_ms s.start_ms
      || ltb 64 (length s.id)
      || ltb 120 (length s.label)
    then false
    else rest

unfoldable pub valid_ranges : List Segment → Bool
unfolding check_ranges_from
valid_ranges ranges =
    if length ranges == 0 || ltb proposal_range_limit (length ranges)
    then false
    else check_ranges_from false ranges

unfoldable pub proposal_accuracy : Text → Text
proposal_accuracy strategy =
    if text_eq strategy (codes "precise_reencode")
    then codes "frame_exact"
    else if text_eq strategy (codes "hybrid_smart_cut")
    then codes "mixed"
    else codes "keyframe_limited"
