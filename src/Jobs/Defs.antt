-- ===== src/Jobs/Defs.antt =====
-- internal/jobs/jobs.go: the job record, its kinds and states, and what a new job must satisfy.
-- A NULL text column is the empty text, as the `COALESCE(…,'')` of every read makes it. The nullable
-- `result_json` and `error_code` are options, `sql.NullString`. Time stamps are the texts stored.
use videocutlist.Prelude.{Bool, true, false, not, ◌&&◌, ◌||◌, Option, none, some, if◌then◌else◌}
use videocutlist.Prelude.Text.{Text, matches_prefixed, is_empty}

pub data JobState : Type 0 where
  queued running succeeded failed cancelled : JobState

pub data JobKind : Type 0 where
  job_export job_detect job_scan : JobKind
  other_kind : Text → JobKind

pub record Job : Type 0 where
  pub id : Text
  pub batch_id : Text
  pub project_id : Text
  pub project_item_id : Text
  pub proposal_id : Text
  pub credential_id : Text
  pub kind : JobKind
  pub state : JobState
  pub request_json : Text
  pub result_json : Option Text
  pub error_code : Option Text
  pub created_at : Text
  pub updated_at : Text

pub data JobError : Type 0 where
  job_not_found job_state queue_full scheduler_stopped empty_batch : JobError
  invalid_job project_required scan_with_project create_failed : JobError
  proposal_jobs_required invalid_proposal_job bad_limits : JobError

-- `state = ?`
abbrev pub state_eq : JobState → JobState → Bool
state_eq queued queued = true
state_eq running running = true
state_eq succeeded succeeded = true
state_eq failed failed = true
state_eq cancelled cancelled = true
state_eq _ _ = false

-- `state IN ('succeeded','failed','cancelled')`
abbrev pub is_terminal : JobState → Bool
is_terminal queued = false
is_terminal running = false
is_terminal _ = true

-- `state IN ('queued','running')`
abbrev pub is_active : JobState → Bool
is_active queued = true
is_active running = true
is_active _ = false

abbrev pub is_scan : JobKind → Bool
is_scan job_scan = true
is_scan _ = false

abbrev pub is_export : JobKind → Bool
is_export job_export = true
is_export _ = false

unfoldable pub valid_job_kind : JobKind → Bool
valid_job_kind job_export = true
valid_job_kind job_detect = true
valid_job_kind job_scan = true
valid_job_kind (other_kind _) = false

-- `^j_[A-Za-z0-9_-]{12,64}$` and `^b_[A-Za-z0-9_-]{12,64}$`
abbrev pub is_job_id : Text → Bool
is_job_id = matches_prefixed b'j' 12 64

abbrev pub is_batch_id : Text → Bool
is_batch_id = matches_prefixed b'b' 12 64

unfoldable pub validate_new_job : Job → Option JobError
unfolding valid_job_kind
validate_new_job job =
    if not (is_job_id job.id)
      || not (is_batch_id job.batch_id)
      || is_empty job.request_json
      || not (valid_job_kind job.kind)
    then some invalid_job
    else if not (is_scan job.kind) && (is_empty job.project_id || is_empty job.project_item_id)
    then some project_required
    else if is_scan job.kind
        && (not (is_empty job.project_id) || not (is_empty job.project_item_id))
    then some scan_with_project
    else none

-- `queuedJob`, and the row that the INSERT statements write.
unfoldable pub queued_job : Job → Text → Job
queued_job job now = record job {
  state = queued;
  result_json = none;
  error_code = none;
  created_at = now;
  updated_at = now;
}
