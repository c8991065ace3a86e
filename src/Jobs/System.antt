-- ===== src/Jobs/System.antt =====
-- internal/jobs/scheduler.go: the worker loop and the whole scheduler as a machine that takes one
-- event after another. Each critical section of the code is one event, and so is each attempt of
-- `finalize` to read or to write, and each write by a runner, which are outside of them: a list of
-- events is an interleaving of the workers with the callers.
--
-- `Cancel` reads the job before its conditional UPDATE, and a worker may write in between: the event is
-- the UPDATE, since one that finds another state than was read changes nothing. `CancelBatch` is a query,
-- which changes nothing, and then a `Cancel` for each job, so it has no event of its own
-- (Jobs.History.cancel_batch-run).
use videocutlist.Prelude.{
  ℕ, ◌+◌, ◌-◌, Bool, not, ◌||◌, Option, none, some, List, [], ◌∷◌, ltb, leb, ◌==◌, any, select,
  if◌then◌else◌,
}
use videocutlist.Prelude.Text.{Text, text_eq}
use videocutlist.Jobs.Defs.{Job, running, JobError, state_eq}
use videocutlist.Jobs.Scheduler.{
  Limits, Cause, by_shutdown, Running, Scheduler, submit, submit_proposal, claim, start_scheduler,
  set_limits, shutdown, cancel_job,
}
use videocutlist.Jobs.Finalize.{
  RunnerResult, Fault, works, fails_before, fails_after, terminal_target, apply_terminal, ends_loop,
  terminal_transition_attempts,
}
use videocutlist.Jobs.Store.{get, succeed, fail_with_result}
use videocutlist.Jobs.Table.{Rows}
use videocutlist.Prelude.Outcome.{Outcome, ok, err}

-- Where a worker stands in `finalize`: before a read, a write or the last read, with the attempts that
-- are left.
pub data Stage : Type 0 where
  reading writing confirming : ℕ → Stage

-- A worker that has left `running` and is about to make its result durable.
pub record Finishing : Type 0 where
  pub job : Text
  pub result : RunnerResult
  pub cause : Option Cause
  pub stage : Stage

-- The scheduler with its goroutines: `idle` workers stand at the top of the loop, `claimed` jobs have
-- a worker that has not registered them yet, `s.registered` jobs have one that runs them, and
-- `finishing` ones have one that is on its way to `finalize`.
pub record System : Type 0 where
  pub s : Scheduler
  pub idle : ℕ
  pub claimed : List Text
  pub finishing : List Finishing

pub data Event : Type 0 where
  on_submit : List Job → Text → Event
  on_submit_proposal : Text → Text → List Job → Text → Event
  on_cancel : Text → Text → Event
  on_set_limits : Limits → Event
  on_start on_shutdown : Event
  -- a worker at the top of its loop, and one that claims
  on_poll : Text → Event
  -- a worker registers the job that it claimed
  on_register : Text → Event
  -- a runner is done with its job: the worker takes it off `running`
  on_deregister : Text → RunnerResult → Event
  -- a worker makes the next attempt of `finalize` for its job
  on_attempt : Text → Text → Fault → Event
  -- a runner writes the result of a job
  on_succeed : Text → Text → Text → Event
  on_fail_with_result : Text → Text → Text → Text → Event

abbrev pub has_text : Text → List Text → Bool
has_text id = any (λ x. text_eq x id)

abbrev pub without_text : Text → List Text → List Text
without_text id = select (λ x. not (text_eq x id))

abbrev pub running_of : Text → List Running → Option Running
running_of id [] = none
running_of id (r ∷ rs) = if text_eq r.job id then some r else running_of id rs

abbrev pub without_running : Text → List Running → List Running
without_running id = select (λ r. not (text_eq r.job id))

abbrev pub finishing_of : Text → List Finishing → Option Finishing
finishing_of id [] = none
finishing_of id (f ∷ fs) = if text_eq f.job id then some f else finishing_of id fs

abbrev pub without_finishing : Text → List Finishing → List Finishing
without_finishing id = select (λ f. not (text_eq f.job id))

-- New goroutines of `startWorkers`.
abbrev pub with_workers : Scheduler → System → System
with_workers s' sys = record sys { s = s'; idle = sys.idle + (s'.workers - sys.s.workers) }

-- The top of `worker`: retire, or claim under the mutex. Where there is no job the worker waits, and
-- after a shutdown that wait ends its goroutine (which a later poll does here too).
unfoldable pub poll : Text → System → System
poll now sys =
    if sys.idle == 0
    then sys
    else if sys.s.stopped || ltb sys.s.limits.worker_limit sys.s.workers
    then record sys { s = record sys.s { workers = sys.s.workers - 1 }; idle = sys.idle - 1 }
    else let (answer, rows) = claim now sys.s.rows in
      elim answer [
        | none ↦ record sys { s = record sys.s { rows = rows } }
        | some j ↦ record sys {
          s = record sys.s { rows = rows };
          idle = sys.idle - 1;
          claimed = j.id ∷ sys.claimed;
        }
      ]

-- Registration: after a shutdown the new context is cancelled at once.
unfoldable pub register : Text → System → System
register id sys =
    if has_text id sys.claimed
    then record sys {
      s = record sys.s {
        registered =
            record { job = id; cause = if sys.s.stopped then some by_shutdown else none }
            ∷ sys.s.registered;
      };
      claimed = without_text id sys.claimed;
    }
    else sys

-- The end of a run takes the job off `running`. Its result is the environment's choice, which covers
-- the check that keeps the runner from being called: that check gives one of the errors.
unfoldable pub deregister : Text → RunnerResult → System → System
deregister id result sys = elim (running_of id sys.s.registered) [
  | none ↦ sys
  | some r ↦ record sys {
    s = record sys.s { registered = without_running id sys.s.registered };
    finishing =
        record {
          job = id;
          result = result;
          cause = r.cause;
          stage = reading terminal_transition_attempts;
        }
        ∷ sys.finishing;
  }
]

-- An attempt has failed: the next one, or `last` if there is none.
abbrev pub retry : (ℕ → Stage) → Option Stage → ℕ → Option Stage
retry stage last n = if leb n 1 then last else some (stage (n - 1))

-- The stage after a write that works.
abbrev pub after_write : ℕ → Outcome JobError Job → Option Stage
after_write n r = elim r [
  | ok _ ↦ none
  | err e ↦
      if ends_loop (err e)
      then some (confirming terminal_transition_attempts)
      else retry writing (some (confirming terminal_transition_attempts)) n
]

-- One attempt of `finalize`: its next stage, which is none when it returns, and the rows.
unfoldable pub attempt : Text → Text → Fault → Finishing → Rows → Option Stage × Rows
attempt id now fault f rows = elim f.stage [
  | reading n ↦ (
    elim fault [
      | works ↦ elim (get id rows) [
        | err _ ↦ none
        | ok j ↦
            if state_eq j.state running then some (writing terminal_transition_attempts) else none
      ]
      | _ ↦ retry reading none n
    ],
    rows,
  )
  | writing n ↦
      let (r, rows') = apply_terminal id (terminal_target f.result f.cause) now rows in
      elim fault [
        | works ↦ (after_write n r, rows')
        | fails_before ↦ (retry writing (some (confirming terminal_transition_attempts)) n, rows)
        | fails_after ↦ (retry writing (some (confirming terminal_transition_attempts)) n, rows')
      ]
  | confirming n ↦ (elim fault [ works ↦ none | _ ↦ retry confirming none n ], rows)
]

abbrev pub staged : Text → Stage → List Finishing → List Finishing
staged id stage [] = []
staged id stage (f ∷ fs) =
    (if text_eq f.job id then record f { stage = stage } else f) ∷ staged id stage fs

-- The next attempt of the worker on its way through `finalize`, which is idle again at its end.
unfoldable pub finish : Text → Text → Fault → System → System
unfolding attempt
finish id now fault sys = elim (finishing_of id sys.finishing) [
  | none ↦ sys
  | some f ↦
      let (next, rows) = attempt id now fault f sys.s.rows in
      elim next [
        | none ↦ record sys {
          s = record sys.s { rows = rows };
          idle = sys.idle + 1;
          finishing = without_finishing id sys.finishing;
        }
        | some stage ↦ record sys {
          s = record sys.s { rows = rows };
          finishing = staged id stage sys.finishing;
        }
      ]
]

unfoldable pub step : Event → System → System
unfolding poll register deregister finish
step (on_submit jobs now) sys = record sys { s = (submit jobs now sys.s).1 }
step (on_submit_proposal p c jobs now) sys = record sys {
  s = (submit_proposal p c jobs now sys.s).1;
}
step (on_cancel id now) sys = record sys { s = (cancel_job id now sys.s).1 }
step (on_set_limits limits) sys = with_workers (set_limits limits sys.s).1 sys
step on_start sys = with_workers (start_scheduler sys.s) sys
step on_shutdown sys = record sys { s = shutdown sys.s }
step (on_poll now) sys = poll now sys
step (on_register id) sys = register id sys
step (on_deregister id result) sys = deregister id result sys
step (on_attempt id now fault) sys = finish id now fault sys
step (on_succeed id result now) sys = record sys {
  s = record sys.s { rows = (succeed id result now sys.s.rows).1 };
}
step (on_fail_with_result id result code now) sys = record sys {
  s = record sys.s { rows = (fail_with_result id result code now sys.s.rows).1 };
}

unfoldable pub run : List Event → System → System
unfolding step
run [] sys = sys
run (e ∷ events) sys = run events (step e sys)

-- A scheduler that was just made over rows that may come from an earlier process.
abbrev pub initial : Scheduler → System
initial s = record { s = s; idle = 0; claimed = []; finishing = [] }
