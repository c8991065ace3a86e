-- ===== src/Jobs/Scheduler.antt =====
-- internal/jobs/scheduler.go: admission, claiming and the lifecycle of the scheduler. The state is
-- what the mutex guards, with the durable rows. A handler is one step: it holds the mutex throughout.
-- Limits are counts; Go's int rejects a negative one as it rejects 0. Errors of the database itself
-- stand in `Finalize` only, where the code retries them.
use videocutlist.Prelude.{
  ℕ, ◌+◌, Bool, true, false, not, ◌&&◌, ◌||◌, Option, none, some, List, [], ◌∷◌, ◌==◌, ltb, count,
  length, select, if◌then◌else◌,
}
use videocutlist.Prelude.Text.{Text, text_eq, is_empty}
use videocutlist.Prelude.Outcome.{Outcome, ok, err}
use videocutlist.Jobs.Defs.{
  Job, queued, running, JobError, queue_full, scheduler_stopped, empty_batch, create_failed,
  proposal_jobs_required, invalid_proposal_job, bad_limits, job_state, state_eq, is_active,
  is_export, validate_new_job, queued_job,
}
use videocutlist.Jobs.Table.{Rows, find, update, insert, active_count, order_by, row_before, first}
use videocutlist.Jobs.Store.{list_by_proposal, batch, cancel, is_at}

abbrev pub max_worker_limit : ℕ
max_worker_limit = 64

pub record Limits : Type 0 where
  pub queue_capacity : ℕ
  pub worker_limit : ℕ

-- `SchedulerConfig.validate`
unfoldable pub valid_limits : Limits → Bool
valid_limits c =
    not (ltb c.queue_capacity 1 || ltb c.worker_limit 1 || ltb max_worker_limit c.worker_limit)

-- Why the context of a running job is done: `nil` (an explicit cancellation) or the shutdown.
pub data Cause : Type 0 where
  by_request by_shutdown : Cause

-- A registered runner, with the cause of its context once that is cancelled: the first cause stays.
pub record Running : Type 0 where
  pub job : Text
  pub cause : Option Cause

pub record Scheduler : Type 0 where
  pub rows : Rows
  pub limits : Limits
  pub registered : List Running
  pub started : Bool
  pub stopped : Bool
  pub workers : ℕ

unfoldable pub new_scheduler : Rows → Limits → Outcome JobError Scheduler
unfolding valid_limits
new_scheduler rows limits =
    if valid_limits limits
    then ok (record {
      rows = rows;
      limits = limits;
      registered = [];
      started = false;
      stopped = false;
      workers = 0;
    })
    else err bad_limits

-- The loop of `Submit`: the rows and the jobs returned, or the first error, which rolls back.
unfoldable pub admit : List Job → Text → Rows → Outcome JobError (List Job × Rows)
admit [] now rows = ok ([], rows)
admit (job ∷ jobs) now rows = elim (validate_new_job job) [
  | some e ↦ err e
  | none ↦ elim (insert (queued_job job now) rows) [
    | none ↦ err create_failed
    | some rows' ↦ elim (admit jobs now rows') [
      | err e ↦ err e
      | ok (out, rows'') ↦ ok (queued_job job now ∷ out, rows'')
    ]
  ]
]

abbrev pub Admitted : Type 0
Admitted = Outcome JobError (List Job) × Scheduler

-- Commit or roll back.
abbrev pub commit : Outcome JobError (List Job × Rows) → Scheduler → Admitted
commit (err e) s = (err e, s)
commit (ok (out, rows)) s = (ok out, record s { rows = rows })

unfoldable pub submit : List Job → Text → Scheduler → Admitted
submit jobs now s =
    if s.stopped
    then (err scheduler_stopped, s)
    else if length jobs == 0
    then (err empty_batch, s)
    else if ltb s.limits.queue_capacity (length jobs)
    then (err queue_full, s)
    else if ltb s.limits.queue_capacity (active_count s.rows + length jobs)
    then (err queue_full, s)
    else commit (admit jobs now s.rows) s

-- The loop of `SubmitProposal`.
unfoldable pub belongs_to : Text → Text → Job → Bool
belongs_to proposal credential job =
    is_export job.kind && text_eq job.proposal_id proposal && text_eq job.credential_id credential

unfoldable pub admit_proposal :
    Text → Text → List Job → Text → Rows → Outcome JobError (List Job × Rows)
unfolding belongs_to
admit_proposal proposal credential [] now rows = ok ([], rows)
admit_proposal proposal credential (job ∷ jobs) now rows = elim (validate_new_job job) [
  | some e ↦ err invalid_proposal_job
  | none ↦ elim (belongs_to proposal credential job) [
    | false ↦ err invalid_proposal_job
    | true ↦ elim (insert (queued_job job now) rows) [
      | none ↦ err create_failed
      | some rows' ↦ elim (admit_proposal proposal credential jobs now rows') [
        | err e ↦ err e
        | ok (out, rows'') ↦ ok (queued_job job now ∷ out, rows'')
      ]
    ]
  ]
]

-- SELECT COUNT(*) FROM jobs WHERE proposal_id = ?
abbrev pub proposal_count : Text → Rows → ℕ
proposal_count proposal = count (λ j. text_eq j.proposal_id proposal)

unfoldable pub submit_proposal : Text → Text → List Job → Text → Scheduler → Admitted
submit_proposal proposal credential jobs now s =
    if s.stopped
    then (err scheduler_stopped, s)
    else if is_empty proposal || is_empty credential || length jobs == 0
    then (err proposal_jobs_required, s)
    else if ltb 0 (proposal_count proposal s.rows)
    then (list_by_proposal proposal s.rows, s)
    else if ltb s.limits.queue_capacity (active_count s.rows + length jobs)
    then (err queue_full, s)
    else commit (admit_proposal proposal credential jobs now s.rows) s

-- `claim`: SELECT … WHERE state='queued' ORDER BY created_at,id LIMIT 1, then the conditional UPDATE.
-- `none` is `sql.ErrNoRows`.
unfoldable pub next_queued : Rows → Option Job
next_queued rows = first (order_by row_before (select (λ j. state_eq j.state queued) rows))

unfoldable pub started_at : Text → Job → Job
started_at now j = record j { state = running; updated_at = now }

unfoldable pub claim : Text → Rows → Option Job × Rows
claim now rows = elim (next_queued rows) [
  | none ↦ (none, rows)
  | some j ↦
      let rows' = update (is_at j.id queued) (started_at now) rows in
      if count (is_at j.id queued) rows == 1 then (find j.id rows', rows') else (none, rows)
]

-- `startWorkers`: `for s.workers < s.config.WorkerLimit { s.workers++; … }`
unfoldable pub start_workers : Scheduler → Scheduler
start_workers s = record s {
  workers = if ltb s.workers s.limits.worker_limit then s.limits.worker_limit else s.workers;
}

unfoldable pub start_scheduler : Scheduler → Scheduler
unfolding start_workers
start_scheduler s =
    if s.started || s.stopped then s else start_workers (record s { started = true })

unfoldable pub set_limits : Limits → Scheduler → Option JobError × Scheduler
unfolding start_workers valid_limits
set_limits limits s =
    if not (valid_limits limits)
    then (some bad_limits, s)
    else if s.stopped
    then (some scheduler_stopped, s)
    else let s' = record s { limits = limits } in (none, if s.started then start_workers s' else s')

-- Cancelling a context keeps its first cause.
unfoldable pub cancel_running : Cause → Running → Running
cancel_running c r = elim r.cause [ none ↦ record r { cause = some c } | some _ ↦ r ]

abbrev pub map_running : (Running → Running) → List Running → List Running
map_running f [] = []
map_running f (r ∷ rs) = f r ∷ map_running f rs

-- `Shutdown`, up to the wait for the workers.
unfoldable pub shutdown : Scheduler → Scheduler
unfolding cancel_running
shutdown s = if s.stopped then s else record s {
  stopped = true;
  registered = map_running (cancel_running by_shutdown) s.registered;
}

unfoldable pub cancel_job : Text → Text → Scheduler → Outcome JobError Job × Scheduler
unfolding cancel_running
cancel_job id now s =
    let (r, rows) = cancel id now s.rows in
    elim r [
      | err e ↦ (err e, record s { rows = rows })
      | ok job ↦ (
        ok job,
        record s {
          rows = rows;
          registered =
              map_running (λ x. if text_eq x.job id then cancel_running by_request x else x)
                s.registered;
        },
      )
    ]

-- The loop of `CancelBatch` over the ids that the query found; `ErrJobState` is passed over.
unfoldable pub cancel_ids : List Text → Text → Scheduler → Option JobError × Scheduler
cancel_ids [] now s = (none, s)
cancel_ids (id ∷ ids) now s =
    let (r, s') = cancel_job id now s in
    let rest = cancel_ids ids now s' in
    elim r [ ok _ ↦ rest | err job_state ↦ rest | err e ↦ (some e, s') ]

abbrev pub ids_of : Rows → List Text
ids_of [] = []
ids_of (j ∷ rows) = j.id ∷ ids_of rows

abbrev pub error_of {ℓ} : {A : Type ℓ} → Outcome JobError A → Option JobError
error_of (ok _) = none
error_of (err e) = some e

unfoldable pub cancel_batch : Text → Text → Scheduler → Option JobError × Scheduler
unfolding cancel_ids
cancel_batch id now s =
    let ids = ids_of (select (λ j. text_eq j.batch_id id && is_active j.state) s.rows) in
    if length ids == 0 then (error_of (batch id s.rows), s) else cancel_ids ids now s
