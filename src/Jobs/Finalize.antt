-- ===== src/Jobs/Finalize.antt =====
-- internal/jobs/scheduler.go: how the end of a run becomes durable (`finalize` and what it calls).
-- The database may fail at any attempt: each attempt takes the next entry of a list of faults.
-- `finalize` here runs with nothing of others between its attempts; Jobs.System takes each attempt as an
-- event.
use videocutlist.Prelude.{
  ℕ, zero, suc, Bool, true, false, Option, none, some, List, [], ◌∷◌, if◌then◌else◌,
}
use videocutlist.Prelude.Text.{Text, codes}
use videocutlist.Prelude.Outcome.{Outcome, ok, err}
use videocutlist.Jobs.Defs.{
  Job, JobState, running, succeeded, failed, cancelled, JobError, job_not_found, job_state,
  state_eq,
}
use videocutlist.Jobs.Table.{Rows}
use videocutlist.Jobs.Store.{Result, get, cancel, succeed, fail, interrupted}
use videocutlist.Jobs.Scheduler.{Cause, by_request, by_shutdown}

-- What a runner returns: no error, a `ResultPersistenceError` with its result, an error that is
-- `ErrSourceChanged`, or any other error.
pub data RunnerResult : Type 0 where
  finished : RunnerResult
  published : Text → RunnerResult
  source_changed : RunnerResult
  other_error : RunnerResult

pub record Target : Type 0 where
  pub state : JobState
  pub result : Text
  pub code : Text

-- A cancelled context: what is left of the cause when there is no published result.
abbrev interrupted_target : Cause → Target
interrupted_target by_shutdown = record { state = failed; result = []; code = interrupted }
interrupted_target by_request = record { state = cancelled; result = []; code = [] }

abbrev plain_target : RunnerResult → Target
plain_target finished = record { state = succeeded; result = codes "{}"; code = [] }
plain_target source_changed = record { state = failed; result = []; code = codes "source_changed" }
plain_target _ = record { state = failed; result = []; code = codes "job_failed" }

unfoldable pub terminal_target : RunnerResult → Option Cause → Target
terminal_target (published r) _ = record { state = succeeded; result = r; code = [] }
terminal_target e (some c) = interrupted_target c
terminal_target e none = plain_target e

-- One attempt of a database call: it works, fails before it has changed anything, or fails after its
-- change was made (so in `transition`, between the UPDATE and the SELECT).
pub data Fault : Type 0 where
  works fails_before fails_after : Fault

-- The next fault; a list that has run out means that the database works.
abbrev pub fault_of : List Fault → Fault
fault_of [] = works
fault_of (f ∷ _) = f

abbrev pub later : List Fault → List Fault
later [] = []
later (_ ∷ fs) = fs

-- `none` is an error of the database.
abbrev pub Attempt : Type 0 → Type 0
Attempt A = Option (Outcome JobError A)

abbrev pub terminal_transition_attempts : ℕ
terminal_transition_attempts = 3

-- `readTerminalState`: up to three reads. The faults that are left come back too.
unfoldable pub read_loop : ℕ → Text → List Fault → Rows → Attempt Job × List Fault
read_loop zero id faults rows = (none, faults)
read_loop (suc n) id faults rows = elim (fault_of faults) [
  | works ↦ (some (get id rows), later faults)
  | fails_before ↦ read_loop n id (later faults) rows
  | fails_after ↦ read_loop n id (later faults) rows
]

unfoldable pub read_terminal_state : Text → List Fault → Rows → Attempt Job × List Fault
read_terminal_state = read_loop terminal_transition_attempts

-- `applyTerminal`; no target has another state.
unfoldable pub apply_terminal : Text → Target → Text → Rows → Result
apply_terminal id t now rows = elim t.state [
  | succeeded ↦ succeed id t.result now rows
  | failed ↦ fail id t.code now rows
  | cancelled ↦ cancel id now rows
  | _ ↦ (err job_state, rows)
]

-- An answer that ends the loop of `persistTerminal`: success, `ErrJobState` and `ErrJobNotFound`.
abbrev pub ends_loop : Outcome JobError Job → Bool
ends_loop (ok _) = true
ends_loop (err job_state) = true
ends_loop (err job_not_found) = true
ends_loop (err _) = false

-- `persistTerminal`: up to three writes, with the rows after them.
unfoldable pub persist_loop :
    ℕ → Text → Target → Text → List Fault → Rows → Attempt Job × (List Fault × Rows)
persist_loop zero id t now faults rows = (none, (faults, rows))
persist_loop (suc n) id t now faults rows =
    let (r, rows') = apply_terminal id t now rows in
    elim (fault_of faults) [
      | works ↦ elim (ends_loop r) [
        | true ↦ (some r, (later faults, rows'))
        | false ↦ persist_loop n id t now (later faults) rows'
      ]
      | fails_before ↦ persist_loop n id t now (later faults) rows
      | fails_after ↦ persist_loop n id t now (later faults) rows'
    ]

unfoldable pub persist_terminal :
    Text → Target → Text → List Fault → Rows → Attempt Job × (List Fault × Rows)
persist_terminal = persist_loop terminal_transition_attempts

-- The category of the message that `finalize` logs, if it logs one.
pub data Logged : Type 0 where
  terminal_state_read terminal_transition : Logged

-- Whether a read found the job in another state than running.
abbrev pub settled : Attempt Job → Bool
settled (some (ok j)) = if state_eq j.state running then false else true
settled _ = false

abbrev pub is_written : Attempt Job → Bool
is_written (some (ok _)) = true
is_written _ = false

abbrev pub confirm : Text → Attempt Job × (List Fault × Rows) → Option Logged × Rows
confirm id (written, (faults, rows)) =
    if is_written written
    then (none, rows)
    else if settled (read_terminal_state id faults rows).0
    then (none, rows)
    else (some terminal_transition, rows)

-- `finalize`: what it logs, and the rows after it.
unfoldable pub finalize :
    Text → RunnerResult → Option Cause → Text → List Fault → Rows → Option Logged × Rows
unfolding read_terminal_state persist_terminal
finalize id e cause now faults rows =
    let (current, faults') = read_terminal_state id faults rows in
    elim current [
      | none ↦ (some terminal_state_read, rows)
      | some (err _) ↦ (some terminal_state_read, rows)
      | some (ok j) ↦
          if state_eq j.state running
          then confirm id (persist_terminal id (terminal_target e cause) now faults' rows)
          else (none, rows)
    ]
