-- ===== src/Proposals/Samples.antt =====
-- The theorems on export proposals at a concrete proposal of one range of a media file.
use videocutlist.Prelude.{
  ◌≡◌, ◌⊎◌, refl, ℕ, zero, suc, ◌+◌, Bool, true, false, Option, none, some, List, [], ◌∷◌, ◌++◌,
  map, All, leb, if◌then◌else◌,
}
use videocutlist.Prelude.Int.{ℤ, pos}
use videocutlist.Prelude.Text.{
  Text, codes, text_eq, text_ltb, is_empty, is_id_byte, matches_prefixed, matches_id,
}
use videocutlist.Prelude.Utf8.{rune_count, runes, extra_bytes}
use videocutlist.Prelude.Outcome.{ok}
use videocutlist.Projects.Timestamps.{trim_space, trim_left, trim_right, space_bytes}
use videocutlist.Projects.Segments.{Segment, is_included}
use videocutlist.Export.Ranges.{resolve_ranges}
use videocutlist.Mcp.Ids.{
  has_prefix, valid_credential_id, valid_safe_identifier, is_identifier_byte, valid_ids_from,
  valid_id_list, insert_text, sort_texts,
}
use videocutlist.Mcp.Scopes.{
  exports_prepare, exports_run, has_permission, allows, allows_export_resource, in_media_scope,
  allows_media, media_scope_allows, allows_unattended_export, active_at,
}
use videocutlist.Mcp.Normalize.{
  normalize_permissions, collect_permissions, normalize_media_scope, normalize_project_scope,
  valid_credential_name, valid_utf8, has_control,
}
use videocutlist.Mcp.Table.{
  Platform, CredentialRecord, find_row, update_rows, scan_credential, read_row, get_record,
}
use videocutlist.Mcp.Store.{random_identifier, touch_last_used, recheck}
use videocutlist.Mcp.Tokens.{authorize_credential, permit}
use videocutlist.Jobs.Defs.{
  Job, queued, running, job_export, valid_job_kind, validate_new_job, queued_job,
}
use videocutlist.Jobs.Table.{
  find, update, insert, order_by, insert_by, row_before, same_proposal_item, passes_checks,
}
use videocutlist.Jobs.Store.{is_at, list_by_proposal}
use videocutlist.Jobs.System.{System, Event, initial, on_poll, poll, step, run}
use videocutlist.Jobs.Stays.{StillIn}
use videocutlist.Jobs.Proposals.{of_proposal}
use videocutlist.Jobs.Scheduler.{
  claim, next_queued, started_at, admit, admit_proposal, submit_proposal,
}
use videocutlist.Proposals.Snapshots.{
  ExportOptions, Media, ExportSnapshot, validate_snapshot, add_segments, add_snapshots,
  valid_proposal_snapshots, check_ranges_from, valid_ranges, proposal_accuracy,
}
use videocutlist.Proposals.Store.{
  ExportProposal, Proposals, find_proposal, insert_proposal, valid_proposal_id, get_proposal,
  approve,
}
use videocutlist.Proposals.Prepare.{
  Services, ProposalRequest, Moment, snapshot, save_prepared, save_checked,
}
use videocutlist.Proposals.Requests.{Tables, with_authority, prepare_ranges, prepare_media, prepare}
use videocutlist.Proposals.Execute.{
  ReportedJob, reported, World, deterministic_identifier, resource_for_proposal, current_project,
  check_snapshot, snapshot_jobs, submit_snapshots, execute_allowed, execute_resolved, execute,
}
use videocutlist.Proposals.Passed.{Justified}
use videocutlist.Proposals.Execution.{execute-Justified}
use videocutlist.Proposals.Once.{execute_once}
use videocutlist.Proposals.Approval.{Approves, approve-Approves}
use videocutlist.Proposals.Saving.{Saved}
use videocutlist.Proposals.Preparation.{prepare-Saved}

abbrev copies : ℕ → ℕ → Text
copies zero c = []
copies (suc n) c = c ∷ copies n c

abbrev agent_id : Text
agent_id = codes "c_agent"

abbrev agent : CredentialRecord
agent = record {
  credential = record {
    id = agent_id;
    token_identifier = codes "t_1";
    name = codes "agent";
    permissions = exports_prepare ∷ exports_run ∷ [];
    media_scope = record { media_kind = codes "all"; root_ids = []; media_ids = [] };
    project_scope = record { project_kind = codes "all"; project_ids = [] };
    expires_at = none;
    revoked_at = none;
    unattended_exports = true;
    created_at = 0;
    last_used_at = none;
  };
  verifier = copies 64 b'0';
  updated_at = 0;
}

abbrev sample_system : Platform
sample_system = record {
  digest = λ t. copies 64 b'0';
  encode = λ b. b;
  decode = λ t. some t;
  format_time = λ t. copies t b'1';
}

abbrev film : Media
film = record {
  id = codes "m_1";
  root_id = codes "r_1";
  name = codes "film";
  duration_ms = pos 60000;
  size_bytes = pos 9;
  etag = codes "e1";
}

-- A catalog of one file, and a preflight that allows the first two streams.
abbrev sample_services : Services
sample_services = record {
  projects_get = λ id. none;
  media_get = λ id. some film;
  preflight = λ id project input.
      some (record { allowed = true; checked_selection = pos 0 ∷ pos 1 ∷ []; findings = [] });
  short_digest = λ t. codes "123456789012345678901234";
  marshal = λ s. codes "{}";
}

abbrev scene : Segment
scene = record {
  id = [];
  start_ms = pos 1000;
  end_ms = pos 3000;
  label = [];
  included = true;
  included_set = true;
}

abbrev sample_request : ProposalRequest
sample_request = record {
  credential_id = agent_id;
  project_id = [];
  project_revision = pos 0;
  media_id = codes "m_1";
  ranges = scene ∷ [];
  export = record {
    mode = codes "separate";
    selection = [];
    stream_indexes = [];
    cut_strategy = [];
    container = codes "mkv";
    destination_id = [];
    filename_template = [];
    item_ids = [];
  };
}

abbrev noon : Moment
noon = record {
  now = 1;
  later = 1;
  saved = 2;
  between = λ rows. rows;
  item_bytes = codes "1";
  proposal_bytes = codes "p1";
}

abbrev first_tables : Tables
first_tables = record { proposals = []; credentials = agent ∷ [] }

abbrev frozen_options : ExportOptions
frozen_options = record {
  mode = codes "separate";
  selection = codes "segments";
  stream_indexes = pos 0 ∷ pos 1 ∷ [];
  cut_strategy = [];
  container = codes "mkv";
  destination_id = codes "download";
  filename_template = [];
}

abbrev frozen : ExportSnapshot
frozen = record {
  project_revision = pos 0;
  media_label = codes "film";
  item = record {
    id = codes "i_1";
    media_id = codes "m_1";
    segments = scene ∷ [];
    export_options = frozen_options;
  };
  source = record {
    media_id = codes "m_1";
    root_id = codes "r_1";
    etag = codes "e1";
    size_bytes = pos 9;
    duration_ms = pos 60000;
  };
}

abbrev sample_proposal : ExportProposal
sample_proposal = record {
  id = codes "ep_p1";
  credential_id = agent_id;
  project_id = [];
  project_revision = pos 0;
  media_id = codes "m_1";
  snapshots = frozen ∷ [];
  findings = [];
  allowed = true;
  requires_reencoding = false;
  accuracy = codes "keyframe_limited";
  destination_id = codes "download";
  expires_at = 900000000002;
  approved_at = none;
  created_at = 2;
}

prepared_sample :
    (prepare sample_system sample_services sample_request noon first_tables).0 ≡ ok sample_proposal
unfolding prepare prepare_media with_authority prepare_ranges snapshot save_checked save_prepared
    insert_proposal proposal_accuracy random_identifier valid_ranges check_ranges_from is_included
    resolve_ranges valid_proposal_snapshots add_snapshots add_segments videocutlist.Prelude.Int.◌+ℤ◌
    videocutlist.Prelude.Int.◌-ℤ◌ authorize_credential permit touch_last_used recheck active_at
    allows has_permission allows_export_resource allows_media media_scope_allows in_media_scope
    get_record read_row find_row scan_credential normalize_permissions collect_permissions
    normalize_media_scope normalize_project_scope valid_credential_name valid_utf8 has_control
    extra_bytes rune_count runes trim_space trim_left trim_right space_bytes is_empty text_eq
    text_ltb sort_texts insert_text valid_id_list valid_ids_from valid_safe_identifier
    valid_credential_id has_prefix is_identifier_byte is_id_byte
prepared_sample = refl

prepare-Saved_example :
    Saved agent_id [] sample_proposal
      (prepare sample_system sample_services sample_request noon first_tables).1.proposals
prepare-Saved_example =
    prepare-Saved sample_system sample_services sample_request noon first_tables sample_proposal
      prepared_sample

abbrev sample_rows : Proposals
sample_rows = sample_proposal ∷ []

abbrev sample_world : World
sample_world = record {
  credentials = agent ∷ [];
  scheduler = record {
    rows = [];
    limits = record { queue_capacity = 8; worker_limit = 2 };
    registered = [];
    started = true;
    stopped = false;
    workers = 2;
  };
}

abbrev export_report : ReportedJob
export_report = record {
  id = codes "j_123456789012345678901234";
  batch_id = codes "b_123456789012345678901234";
  project_item_id = codes "i_1";
  kind = job_export;
  state = queued;
  created_at = codes "12:00";
  updated_at = codes "12:00";
}

abbrev export_answer : Text × List ReportedJob
export_answer = (codes "b_123456789012345678901234", export_report ∷ [])

executed_sample :
    (execute sample_services sample_services
      (codes "ep_p1")
      agent_id
      noon
      (codes "12:00")
      sample_rows
      sample_world).0
    ≡ ok export_answer
unfolding execute get_proposal find_proposal valid_proposal_id valid_proposal_snapshots
    add_snapshots add_segments resource_for_proposal current_project execute_resolved
    execute_allowed submit_snapshots snapshot_jobs check_snapshot validate_snapshot
    deterministic_identifier allows_unattended_export videocutlist.Prelude.Int.◌+ℤ◌
    videocutlist.Prelude.Int.◌-ℤ◌ submit_proposal admit admit_proposal validate_new_job
    valid_job_kind insert same_proposal_item passes_checks list_by_proposal order_by insert_by
    row_before matches_prefixed matches_id queued_job update_rows authorize_credential permit
    touch_last_used recheck active_at allows has_permission allows_export_resource allows_media
    media_scope_allows in_media_scope get_record read_row find_row scan_credential
    normalize_permissions collect_permissions normalize_media_scope normalize_project_scope
    valid_credential_name valid_utf8 has_control extra_bytes rune_count runes trim_space trim_left
    trim_right space_bytes is_empty text_eq text_ltb sort_texts insert_text valid_id_list
    valid_ids_from valid_safe_identifier valid_credential_id has_prefix is_identifier_byte
    is_id_byte
executed_sample = refl

execute-Justified_example :
    Justified sample_services sample_services
      (codes "ep_p1")
      agent_id
      noon
      (codes "12:00")
      sample_rows
      sample_world
      export_answer
      (execute sample_services sample_services
        (codes "ep_p1")
        agent_id
        noon
        (codes "12:00")
        sample_rows
        sample_world).1
execute-Justified_example =
    execute-Justified sample_services sample_services (codes "ep_p1") agent_id noon (codes "12:00")
      sample_rows sample_world export_answer executed_sample

abbrev next_world : World
next_world =
    (execute sample_services sample_services (codes "ep_p1") agent_id noon (codes "12:00")
      sample_rows sample_world).1

-- A worker claims the job of the first execution.
abbrev export_system : System
export_system = record (initial next_world.scheduler) { idle = 2 }

abbrev claimed_meanwhile : List Event
claimed_meanwhile = on_poll (codes "12:30") ∷ []

abbrev last_world : World
last_world = record next_world { scheduler = (run claimed_meanwhile export_system).s }

abbrev later_answer : Text × List ReportedJob
later_answer = (
  codes "b_123456789012345678901234",
  record export_report { state = running; updated_at = codes "12:30" } ∷ [],
)

executed_again :
    (execute sample_services sample_services
      (codes "ep_p1")
      agent_id
      noon
      (codes "13:00")
      sample_rows
      last_world).0
    ≡ ok later_answer
unfolding find run step poll claim next_queued update is_at started_at execute get_proposal
    find_proposal valid_proposal_id valid_proposal_snapshots add_snapshots add_segments
    resource_for_proposal current_project execute_resolved execute_allowed submit_snapshots
    snapshot_jobs check_snapshot validate_snapshot deterministic_identifier allows_unattended_export
    videocutlist.Prelude.Int.◌+ℤ◌ videocutlist.Prelude.Int.◌-ℤ◌ submit_proposal admit admit_proposal
    validate_new_job valid_job_kind insert same_proposal_item passes_checks list_by_proposal
    order_by insert_by row_before matches_prefixed matches_id queued_job update_rows
    authorize_credential permit touch_last_used recheck active_at allows has_permission
    allows_export_resource allows_media media_scope_allows in_media_scope get_record read_row
    find_row scan_credential normalize_permissions collect_permissions normalize_media_scope
    normalize_project_scope valid_credential_name valid_utf8 has_control extra_bytes rune_count
    runes trim_space trim_left trim_right space_bytes is_empty text_eq text_ltb sort_texts
    insert_text valid_id_list valid_ids_from valid_safe_identifier valid_credential_id has_prefix
    is_identifier_byte is_id_byte
executed_again = refl

execute_once_example :
    ((execute sample_services sample_services
        (codes "ep_p1")
        agent_id
        noon
        (codes "13:00")
        sample_rows
        last_world).1.scheduler
      ≡ last_world.scheduler)
    × ((jobs : List Job) × (jobs' : List Job) × (export_answer.1 ≡ map reported jobs)
        × (later_answer.1 ≡ map reported jobs')
        × (jobs' ≡ order_by row_before (of_proposal (codes "ep_p1") last_world.scheduler.rows))
        × All (StillIn jobs') jobs)
execute_once_example =
    execute_once sample_services sample_services sample_services sample_services (codes "ep_p1")
      agent_id agent_id noon noon (codes "12:00") (codes "13:00") sample_rows sample_rows
      sample_world last_world export_answer later_answer export_system claimed_meanwhile tt refl
      executed_sample refl refl executed_again

abbrev short_lived : ExportProposal
short_lived = record sample_proposal { expires_at = 5 }

found_sample : find_proposal (codes "ep_p1") (short_lived ∷ []) ≡ some short_lived
unfolding find_proposal text_eq
found_sample = refl

approve-Approves_example :
    Approves sample_system
      (codes "ep_p1")
      (codes "ep_p1")
      4
      (approve sample_system (codes "ep_p1") 3 4 (short_lived ∷ [])).1
      short_lived
    × ((approve sample_system (codes "ep_p1") 3 4 (short_lived ∷ [])).0
          ≡ ok (record short_lived { approved_at = some 4 })
        → (r : ExportProposal) × (get_proposal (codes "ep_p1") (short_lived ∷ []) ≡ ok r)
          × (leb r.expires_at 3 ≡ false))
approve-Approves_example =
    approve-Approves sample_system (codes "ep_p1") (codes "ep_p1") 3 4 (short_lived ∷ [])
      short_lived (record short_lived { approved_at = some 4 }) found_sample
