-- ===== src/Jobs/Samples.antt =====
-- The job queue at concrete rows and events.
use videocutlist.Prelude.{
  ◌≡◌, ◌≤◌, refl, false, none, some, List, [], ◌∷◌, arith, if◌then◌else◌, ◌==◌, length, count, All,
}
use videocutlist.Prelude.Text.{Text, codes, text_eq, is_empty, matches_prefixed}
use videocutlist.Prelude.Outcome.{ok, err}
use videocutlist.Jobs.Defs.{
  Job, queued, running, succeeded, cancelled, job_export, JobError, queued_job, validate_new_job,
  state_eq, job_not_found, is_terminal,
}
use videocutlist.Jobs.Table.{Rows, find, insert, UniqueIds, order_by, row_before, insert_by, update}
use videocutlist.Jobs.Store.{is_at, transition, moved, batch, recover, in_batch}
use videocutlist.Jobs.Transitions.{cas, cas_row, transition-cas}
use videocutlist.Jobs.Scheduler.{
  Limits, Scheduler, new_scheduler, submit, submit_proposal, claim, admit_proposal, start_scheduler,
  next_queued, started_at,
}
use videocutlist.Jobs.Finalize.{
  finished, Fault, works, fails_before, fails_after, finalize, terminal_target,
}
use videocutlist.Jobs.Lifecycle.{Follows}
use videocutlist.Jobs.Admission.{AdmitsAll, submit_all_or_nothing}
use videocutlist.Jobs.Stays.{StillIn}
use videocutlist.Jobs.Proposals.{of_proposal, submit_proposal_once}
use videocutlist.Jobs.Claim.{Claimed, claim_oldest}
use videocutlist.Jobs.Durable.{written, finalize_durable}
use videocutlist.Jobs.System.{
  Event, initial, on_submit, on_start, on_poll, on_register, on_cancel, on_deregister, on_attempt,
  on_succeed, System, step, poll, run,
}
use videocutlist.Jobs.History.{run-Follows}
use videocutlist.Jobs.Workers.{busy, busy-le-ceiling}
use videocutlist.Jobs.Exclusive.{Exclusive, run-Exclusive}
use videocutlist.Jobs.Batches.{batch_lem, recover_lem, recovered, batch_meaning}

abbrev export_job : Text → Text → Job
export_job id item = record {
  id = id;
  batch_id = codes "b_batch0000000";
  project_id = codes "p1";
  project_item_id = item;
  proposal_id = codes "ep_1";
  credential_id = codes "cr_1";
  kind = job_export;
  state = queued;
  request_json = codes "{}";
  result_json = none;
  error_code = none;
  created_at = codes "2026-01-01T00:00:01Z";
  updated_at = codes "2026-01-01T00:00:01Z";
}

abbrev job_a : Job
job_a = export_job (codes "j_aaaaaaaaaaaa") (codes "i1")

abbrev job_b : Job
job_b = export_job (codes "j_bbbbbbbbbbbb") (codes "i2")

abbrev noon : Text
noon = codes "2026-01-01T12:00:00Z"

abbrev rows_ab : Rows
rows_ab = job_a ∷ record job_b { state = running } ∷ []

rows_ab-UniqueIds : UniqueIds rows_ab
unfolding text_eq
rows_ab-UniqueIds = (refl, (refl, tt))

transition-cas_example :
    let after = transition job_b.id running succeeded (some (codes "{}")) none noon rows_ab in
    (after.0 ≡ cas running (moved succeeded (some (codes "{}")) none noon) (find job_b.id rows_ab))
    × ((k : Text)
        → find k after.1 ≡ (
            if text_eq k job_b.id
            then cas_row running (moved succeeded (some (codes "{}")) none noon) (find k rows_ab)
            else find k rows_ab))
    × ((e : JobError) → after.0 ≡ err e → after.1 ≡ rows_ab)
transition-cas_example =
    transition-cas job_b.id running succeeded (some (codes "{}")) none noon rows_ab
      rows_ab-UniqueIds

claim_oldest_example :
    ((j : Job) → (claim noon rows_ab).0 ≡ some j → Claimed noon rows_ab j (claim noon rows_ab).1)
    × ((claim noon rows_ab).0 ≡ none
        → (count (λ j. state_eq j.state queued) rows_ab ≡ 0) × ((claim noon rows_ab).1 ≡ rows_ab))
claim_oldest_example = claim_oldest noon rows_ab rows_ab-UniqueIds

batch_lem_example : batch (codes "b_batch0000000") rows_ab ≡ (
    if length (in_batch (codes "b_batch0000000") rows_ab) == 0
    then err job_not_found
    else ok (
      batch_meaning (in_batch (codes "b_batch0000000") rows_ab),
      (
        count (λ j. is_terminal j.state) (in_batch (codes "b_batch0000000") rows_ab),
        length (in_batch (codes "b_batch0000000") rows_ab),
      ),
    ))
batch_lem_example = batch_lem (codes "b_batch0000000") rows_ab

recover_lem_example :
    let (n, after) = recover noon rows_ab in
    (count (λ j. state_eq j.state running) after ≡ 0)
    × (n ≡ count (λ j. state_eq j.state running) rows_ab)
    × ((id : Text) → find id after ≡ recovered noon (find id rows_ab))
recover_lem_example = recover_lem noon rows_ab

find_b : find job_b.id rows_ab ≡ some (record job_b { state = running })
unfolding find text_eq
find_b = refl

find_a : find job_a.id rows_ab ≡ some job_a
unfolding find text_eq
find_a = refl

-- The first read fails; the first write fails before, the second after its change.
abbrev bad_day : List Fault
bad_day = fails_before ∷ works ∷ fails_before ∷ fails_after ∷ []

finalize_durable_example :
    find job_b.id (finalize job_b.id finished none noon bad_day rows_ab).1
    ≡ some (written (terminal_target finished none) noon (record job_b { state = running }))
unfolding text_eq
finalize_durable_example =
    finalize_durable job_b.id finished none noon bad_day (fails_before ∷ fails_after ∷ []) rows_ab
      (record job_b { state = running }) rows_ab-UniqueIds find_b refl refl refl job_b.id

abbrev rows_cancelled : Rows
rows_cancelled = record job_a { state = cancelled } ∷ []

find_cancelled : find job_a.id rows_cancelled ≡ some (record job_a { state = cancelled })
unfolding find text_eq
find_cancelled = refl

abbrev limits : Limits
limits = record { queue_capacity = 2; worker_limit = 2 }

abbrev fresh_scheduler : Scheduler
fresh_scheduler = record {
  rows = [];
  limits = limits;
  registered = [];
  started = false;
  stopped = false;
  workers = 0;
}

made : new_scheduler [] limits ≡ ok fresh_scheduler
unfolding new_scheduler
made = refl

-- The job is cancelled while its worker stands between the read and the write of `finalize`.
abbrev story : List Event
story =
    on_submit (job_a ∷ job_b ∷ []) noon
    ∷ on_start
    ∷ on_poll noon
    ∷ on_poll noon
    ∷ on_register job_a.id
    ∷ on_deregister job_a.id finished
    ∷ on_attempt job_a.id noon fails_before
    ∷ on_attempt job_a.id noon works
    ∷ on_cancel job_a.id noon
    ∷ on_attempt job_a.id noon fails_after
    ∷ on_attempt job_a.id noon works
    ∷ on_succeed job_a.id (codes "{}") noon
    ∷ []

busy-le-ceiling_example :
    ((run story (initial fresh_scheduler)).s.workers ≤ 64)
    × (busy (run story (initial fresh_scheduler)) ≤ 64)
busy-le-ceiling_example = busy-le-ceiling [] limits fresh_scheduler story made

run-Follows_example :
    Follows rows_ab (run story (initial (record fresh_scheduler { rows = rows_ab }))).s.rows
run-Follows_example = run-Follows story (initial (record fresh_scheduler { rows = rows_ab }))

nobody_holds : Exclusive (initial (record fresh_scheduler { rows = rows_ab }))
nobody_holds = record {
  unique = rows_ab-UniqueIds;
  once = λ id. omega arith;
  begun = λ id h. absurd (omega arith);
}

run-Exclusive_example : Exclusive (run story (initial (record fresh_scheduler { rows = rows_ab })))
run-Exclusive_example =
    run-Exclusive story (initial (record fresh_scheduler { rows = rows_ab })) nobody_holds

submit_all_or_nothing_example :
    ((out : List Job)
      → (submit (job_a ∷ job_b ∷ []) noon fresh_scheduler).0 ≡ ok out
      → AdmitsAll
          (job_a ∷ job_b ∷ [])
          noon
          fresh_scheduler
          out
          (submit (job_a ∷ job_b ∷ []) noon fresh_scheduler).1)
    × ((e : JobError)
        → (submit (job_a ∷ job_b ∷ []) noon fresh_scheduler).0 ≡ err e
        → (submit (job_a ∷ job_b ∷ []) noon fresh_scheduler).1 ≡ fresh_scheduler)
submit_all_or_nothing_example = submit_all_or_nothing (job_a ∷ job_b ∷ []) noon fresh_scheduler

abbrev submitted : System
submitted =
    initial
      (submit_proposal (codes "ep_1") (codes "cr_1") (job_a ∷ job_b ∷ []) noon fresh_scheduler).1

admitted_all :
    submit_proposal (codes "ep_1") (codes "cr_1") (job_a ∷ job_b ∷ []) noon fresh_scheduler
    ≡ (ok (queued_job job_a noon ∷ queued_job job_b noon ∷ []), submitted.s)
unfolding submit_proposal admit_proposal validate_new_job insert text_eq queued_job is_empty
    matches_prefixed
admitted_all = refl

-- A worker claims a job between the two submissions.
abbrev claimed_between : List Event
claimed_between = on_start ∷ on_poll noon ∷ []

claimed_live : (run claimed_between submitted).s.stopped ≡ false
unfolding run step poll start_scheduler submit_proposal admit_proposal validate_new_job insert
    text_eq queued_job is_empty matches_prefixed claim next_queued order_by insert_by row_before
    started_at update is_at find videocutlist.Prelude.Text.text_ltb
claimed_live = refl

submit_proposal_once_example :
    let later = (run claimed_between submitted).s in
    let answer = order_by row_before (of_proposal (codes "ep_1") later.rows) in
    AdmitsAll
      (job_a ∷ job_b ∷ [])
      noon
      fresh_scheduler
      (queued_job job_a noon ∷ queued_job job_b noon ∷ [])
      submitted.s
    × (submit_proposal (codes "ep_1") (codes "cr_2") (job_b ∷ []) noon later ≡ (ok answer, later))
    × All (StillIn answer) (queued_job job_a noon ∷ queued_job job_b noon ∷ [])
    × (of_proposal (codes "ep_1") submitted.s.rows
        ≡ queued_job job_a noon ∷ queued_job job_b noon ∷ [])
unfolding is_empty
submit_proposal_once_example =
    submit_proposal_once (codes "ep_1") (codes "cr_1") (codes "cr_2") (job_a ∷ job_b ∷ [])
      (job_b ∷ []) noon noon fresh_scheduler (queued_job job_a noon ∷ queued_job job_b noon ∷ [])
      submitted claimed_between tt refl admitted_all refl (omega arith) claimed_live
