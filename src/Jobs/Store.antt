-- ===== src/Jobs/Store.antt =====
-- internal/jobs/jobs.go: the operations of `JobsStore`. Each returns its result and the rows after
-- it; `now` is the formatted time of the call. Errors of the database itself are not modelled here.
use videocutlist.Prelude.{
  ℕ, Bool, ◌&&◌, Option, none, some, [], ◌∷◌, ◌==◌, ltb, count, length, if◌then◌else◌, select,
}
use videocutlist.Prelude.Text.{Text, codes, text_eq, is_empty}
use videocutlist.Prelude.Outcome.{Outcome, ok, err}
use videocutlist.Jobs.Defs.{
  Job, JobState, queued, running, succeeded, failed, cancelled, JobError, job_not_found, job_state,
  create_failed, state_eq, is_terminal, is_active, validate_new_job, queued_job,
}
use videocutlist.Jobs.Table.{Rows, find, update, insert, order_by, row_before}

abbrev pub Result : Type 0
Result = Outcome JobError Job × Rows

unfoldable pub get : Text → Rows → Outcome JobError Job
get id rows = elim (find id rows) [ none ↦ err job_not_found | some j ↦ ok j ]

unfoldable pub create : Job → Text → Rows → Result
unfolding get
create job now rows = elim (validate_new_job job) [
  | some e ↦ (err e, rows)
  | none ↦ elim (insert (queued_job job now) rows) [
    | none ↦ (err create_failed, rows)
    | some rows' ↦ (get job.id rows', rows')
  ]
]

-- What the UPDATE of `transition` writes into a row.
unfoldable pub moved : JobState → Option Text → Option Text → Text → Job → Job
moved to result code now j = record j {
  state = to;
  result_json = result;
  error_code = code;
  updated_at = now;
}

-- The row of a job that is still in the state that the caller expects.
unfoldable pub is_at : Text → JobState → Job → Bool
is_at id from j = text_eq j.id id && state_eq j.state from

unfoldable pub transition :
    Text → JobState → JobState → Option Text → Option Text → Text → Rows → Result
transition id from to result code now rows =
    let rows' = update (is_at id from) (moved to result code now) rows in
    if count (is_at id from) rows == 1
    then (get id rows', rows')
    else (elim (find id rows') [ none ↦ err job_not_found | some _ ↦ err job_state ], rows')

unfoldable pub cancel : Text → Text → Rows → Result
cancel id now rows = elim (find id rows) [
  | none ↦ (err job_not_found, rows)
  | some j ↦
      if is_active j.state
      then transition id j.state cancelled none none now rows
      else (err job_state, rows)
]

-- `sql.NullString{String: s, Valid: s != ""}`
unfoldable pub non_empty : Text → Option Text
non_empty s = if is_empty s then none else some s

unfoldable pub start : Text → Text → Rows → Result
start id now = transition id queued running none none now

unfoldable pub succeed : Text → Text → Text → Rows → Result
succeed id result now = transition id running succeeded (some result) none now

unfoldable pub fail : Text → Text → Text → Rows → Result
unfolding non_empty
fail id code now = transition id running failed none (non_empty code) now

unfoldable pub fail_with_result : Text → Text → Text → Text → Rows → Result
unfolding non_empty
fail_with_result id result code now =
    transition id running failed (non_empty result) (non_empty code) now

abbrev pub interrupted : Text
interrupted = codes "interrupted_by_restart"

-- `Recover`: the rows after it and how many it changed.
unfoldable pub recover : Text → Rows → ℕ × Rows
recover now rows = (
  count (λ j. state_eq j.state running) rows,
  update (λ j. state_eq j.state running)
      (λ j. record j { state = failed; error_code = some interrupted; updated_at = now }) rows,
)

-- `Batch`: the derived state, and the progress as its numerator and denominator.
unfoldable pub batch_state : Rows → JobState
batch_state jobs =
    let total = length jobs in
    let terminal = count (λ j. is_terminal j.state) jobs in
    let running_jobs = count (λ j. state_eq j.state running) jobs in
    let failed_jobs = count (λ j. state_eq j.state failed) jobs in
    let cancelled_jobs = count (λ j. state_eq j.state cancelled) jobs in
    if terminal == total
    then if ltb 0 failed_jobs then failed else if ltb 0 cancelled_jobs then cancelled else succeeded
    else if ltb 0 running_jobs
    then running
    else queued

-- WHERE batch_id=?
abbrev pub in_batch : Text → Rows → Rows
in_batch id = select (λ j. text_eq j.batch_id id)

unfoldable pub batch : Text → Rows → Outcome JobError (JobState × (ℕ × ℕ))
unfolding batch_state
batch id rows =
    let jobs = in_batch id rows in
    if length jobs == 0
    then err job_not_found
    else ok (batch_state jobs, (count (λ j. is_terminal j.state) jobs, length jobs))

-- internal/jobs/batch_jobs.go: a SELECT that found no row is `ErrJobNotFound`.
abbrev pub found_jobs : Rows → Outcome JobError Rows
found_jobs [] = err job_not_found
found_jobs (j ∷ jobs) = ok (j ∷ jobs)

unfoldable pub list_by_batch : Text → Rows → Outcome JobError Rows
list_by_batch id rows = found_jobs (order_by row_before (in_batch id rows))

unfoldable pub list_by_proposal : Text → Rows → Outcome JobError Rows
list_by_proposal id rows =
    found_jobs (order_by row_before (select (λ j. text_eq j.proposal_id id) rows))
