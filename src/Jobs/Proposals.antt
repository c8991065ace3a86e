-- ===== src/Jobs/Proposals.antt =====
-- A proposal's jobs are admitted once: a repeated `SubmitProposal` returns the jobs that are there.
use videocutlist.Prelude.{
  ◌<◌, suc, Bool, true, false, List, [], ◌∷◌, ◌++◌, ◌≡◌, refl, sym, ◌∙◌, ap, arith, length, select,
  All, subst, inl,
}
use videocutlist.Prelude.Text.{Text, text_eq, is_empty}
use videocutlist.Prelude.Outcome.{Outcome, ok}
use videocutlist.Jobs.Defs.{Job, JobError, queued_job}
use videocutlist.Jobs.Table.{Rows, UniqueIds, order_by, insert_by, row_before}
use videocutlist.Jobs.Store.{list_by_proposal, found_jobs}
use videocutlist.Jobs.Claim.{In, In-select}
use videocutlist.Jobs.Stays.{StillIn, later-StillIn, listed-StillIn, StillIn-All}
use videocutlist.Jobs.Evolution.{Evolution}
use videocutlist.Jobs.System.{System, Event, run}
use videocutlist.Jobs.History.{submit_proposal-Evolution, run-Evolution}
use videocutlist.Jobs.Scheduler.{Admitted, Scheduler, submit_proposal, belongs_to, proposal_count}
use videocutlist.Jobs.Admission.{queued_rows, AdmitsAll, submit_proposal-inv, Committed-AdmitsAll}

abbrev pub of_proposal : Text → Rows → Rows
of_proposal p = select (λ j. text_eq j.proposal_id p)

of_proposal-append :
    (p : Text) (a b : Rows) → of_proposal p (a ++ b) ≡ of_proposal p a ++ of_proposal p b
of_proposal-append p [] b = refl
of_proposal-append p (j ∷ a) b = ground (arith, of_proposal-append p a b)

of_proposal-none : (p : Text) (rows : Rows) → proposal_count p rows ≡ 0 → of_proposal p rows ≡ []
of_proposal-none p [] h = refl
of_proposal-none p (j ∷ rows) h = ground (arith, of_proposal-none p rows)

of_proposal-batch :
    (p c now : Text) (jobs : List Job)
    → All (λ j. belongs_to p c j ≡ true) jobs
    → of_proposal p (queued_rows now jobs) ≡ queued_rows now jobs
unfolding belongs_to queued_job
of_proposal-batch p c now [] h = refl
of_proposal-batch p c now (j ∷ jobs) h = ground (arith, h.0, of_proposal-batch p c now jobs h.1)

proposal_count-length :
    (p : Text) (rows : Rows) → proposal_count p rows ≡ length (of_proposal p rows)
proposal_count-length p [] = refl
proposal_count-length p (j ∷ rows) = ground (arith, proposal_count-length p rows)

submit_again :
    (p c : Text) (jobs : List Job) (now : Text) (s : Scheduler)
    → s.stopped ≡ false
    → is_empty p ≡ false
    → is_empty c ≡ false
    → 0 < length jobs
    → 0 < proposal_count p s.rows
    → submit_proposal p c jobs now s ≡ (list_by_proposal p s.rows, s)
unfolding submit_proposal
submit_again p c jobs now s st hp hc hj hn = ground arith

pub submit_needs :
    (p c : Text) (jobs : List Job) (now : Text) (s : Scheduler) (out : List Job)
    → (submit_proposal p c jobs now s).0 ≡ ok out
    → (s.stopped ≡ false) × (is_empty p ≡ false) × (0 < length jobs)
unfolding submit_proposal
submit_needs p c jobs now s out h = ground arith

found-insert_by :
    (before : Job → Job → Bool) (j : Job) (rows : Rows)
    → found_jobs (insert_by before j rows) ≡ ok (insert_by before j rows)
unfolding insert_by
found-insert_by before j [] = refl
found-insert_by before j (k ∷ rows) = ground arith

found-order_by :
    (rows : Rows)
    → 0 < length rows
    → found_jobs (order_by row_before rows) ≡ ok (order_by row_before rows)
unfolding order_by
found-order_by [] h = absurd (omega arith)
found-order_by (j ∷ rows) h = found-insert_by row_before j (order_by row_before rows)

length-queued_rows : (now : Text) (jobs : List Job) → length (queued_rows now jobs) ≡ length jobs
length-queued_rows now [] = refl
length-queued_rows now (j ∷ jobs) = ap suc (length-queued_rows now jobs)

-- The jobs of the proposal after its first submission are the admitted batch.
proposal_rows :
    (p c now : Text) (jobs : List Job) (rows : Rows)
    → proposal_count p rows ≡ 0
    → All (λ j. belongs_to p c j ≡ true) jobs
    → of_proposal p (rows ++ queued_rows now jobs) ≡ queued_rows now jobs
proposal_rows p c now jobs rows fresh ours =
    of_proposal-append p rows (queued_rows now jobs)
    ∙ ap (λ (r : Rows). r ++ of_proposal p (queued_rows now jobs)) (of_proposal-none p rows fresh)
    ∙ of_proposal-batch p c now jobs ours

own-proposal :
    (p : Text) (rows : Rows) (j : Job)
    → In j (of_proposal p rows)
    → In j rows × (text_eq j.proposal_id p ≡ true)
own-proposal p rows j m = In-select (λ k. text_eq k.proposal_id p) j rows m

count-StillIn :
    (p : Text) (rows : Rows) (j : Job)
    → StillIn (order_by row_before (of_proposal p rows)) j
    → 0 < proposal_count p rows
unfolding order_by
count-StillIn p rows j still = some_row (of_proposal p rows) refl still
  where
    some_row :
        (r : Rows)
        → of_proposal p rows ≡ r
        → StillIn (order_by row_before r) j
        → 0 < proposal_count p rows
    some_row [] e (k, m, moves) = absurd m
    some_row (i ∷ r) e m = omega (arith, proposal_count-length p rows, ap length e)

-- `jobs` of the proposal `p` have been submitted at once, and `rows` come later: the query by the
-- proposal finds each of them among its rows.
abbrev pub Listed : Text → List Job → Rows → Type 0
Listed p jobs rows =
    (0 < proposal_count p rows)
    × (list_by_proposal p rows ≡ ok (order_by row_before (of_proposal p rows)))
    × All (StillIn (order_by row_before (of_proposal p rows))) jobs

own_rows-Listed :
    (p : Text) (out first later : Rows)
    → UniqueIds first
    → of_proposal p first ≡ out
    → 0 < length out
    → Evolution first later
    → Listed p out later
unfolding list_by_proposal
own_rows-Listed p [] first later u e n evolution = absurd (omega (arith, n))
own_rows-Listed p (i ∷ out) first later u e n evolution =
    let still : (j : Job) → In j (i ∷ out) → StillIn (order_by row_before (of_proposal p later)) j =
      λ j m.
        let (there, own) = own-proposal p first j (subst (λ (r : Rows). In j r) (sym e) m) in
        listed-StillIn row_before p later j own (later-StillIn first later j u evolution there) in
    let counted = count-StillIn p later i (still i (inl refl)) in
    (
      counted,
      found-order_by (of_proposal p later) (omega (arith, counted, proposal_count-length p later)),
      StillIn-All (order_by row_before (of_proposal p later)) (i ∷ out) still,
    )

-- What the first submission of a proposal makes.
pub submitted_first :
    (p c : Text) (jobs : List Job) (now : Text) (s : Scheduler) (out : List Job)
    → proposal_count p s.rows ≡ 0
    → (submit_proposal p c jobs now s).0 ≡ ok out
    → let after = (submit_proposal p c jobs now s).1 in
      AdmitsAll jobs now s out after
      × (of_proposal p after.rows ≡ out)
      × (0 < length out)
      × Evolution s.rows after.rows
submitted_first p c jobs now s out fresh h =
    let after = (submit_proposal p c jobs now s).1 in
    let (done, ours) = submit_proposal-inv p c jobs now s out fresh h in
    let all_in = Committed-AdmitsAll jobs now s out after done in
    let (st, hp, some_jobs) = submit_needs p c jobs now s out h in
    (
      all_in,
      ap (λ (x : Scheduler). of_proposal p x.rows) all_in.1
          ∙ proposal_rows p c now jobs s.rows fresh ours
          ∙ sym all_in.0,
      omega (arith, ap length all_in.0 ∙ length-queued_rows now jobs, some_jobs),
      submit_proposal-Evolution p c jobs now s,
    )

-- The first submission of a proposal, and the rows of its jobs after any events.
pub run-Listed :
    (p c : Text) (jobs : List Job) (now : Text) (s : Scheduler) (out : List Job) (sys : System)
    (events : List Event)
    → UniqueIds s.rows
    → proposal_count p s.rows ≡ 0
    → submit_proposal p c jobs now s ≡ (ok out, sys.s)
    → Listed p out (run events sys).s.rows
run-Listed p c jobs now s out sys events u fresh h =
    let (all_in, own, long, grown) =
      submitted_first p c jobs now s out fresh (ap (λ (x : Admitted). x.0) h) in
    let after : (submit_proposal p c jobs now s).1 ≡ sys.s = ap (λ (x : Admitted). x.1) h in
    own_rows-Listed p out sys.s.rows (run events sys).s.rows
      (subst (λ (x : Scheduler). UniqueIds x.rows) after (grown.unique u))
      (ap (λ (x : Scheduler). of_proposal p x.rows) (sym after) ∙ own) long
      (run-Evolution events sys)

-- For a proposal that has no jobs yet, a successful `SubmitProposal` admits its batch as `Submit`
-- would. After it and any events that follow, a further `SubmitProposal` of that proposal by some
-- credential and with at least one job, to a scheduler that is not stopped, changes nothing, even if
-- the queue is full, and answers with the jobs of the proposal as they are then, ordered by the texts
-- of their times of creation and by id: each job of the first batch is among them, moved at most
-- forward. If no event came between, they are just the first batch.
pub submit_proposal_once :
    (p c c' : Text) (jobs jobs' : List Job) (now now' : Text) (s : Scheduler) (out : List Job)
    (sys : System) (events : List Event)
    → UniqueIds s.rows
    → proposal_count p s.rows ≡ 0
    → submit_proposal p c jobs now s ≡ (ok out, sys.s)
    → is_empty c' ≡ false
    → 0 < length jobs'
    → (run events sys).s.stopped ≡ false
    → let later = (run events sys).s in
      let answer = order_by row_before (of_proposal p later.rows) in
      AdmitsAll jobs now s out sys.s
      × (submit_proposal p c' jobs' now' later ≡ (ok answer, later))
      × All (StillIn answer) out
      × (of_proposal p sys.s.rows ≡ out)
submit_proposal_once p c c' jobs jobs' now now' s out sys events u fresh h hc hj live =
    let first : (submit_proposal p c jobs now s).0 ≡ ok out = ap (λ (x : Admitted). x.0) h in
    let after : (submit_proposal p c jobs now s).1 ≡ sys.s = ap (λ (x : Admitted). x.1) h in
    let (all_in, own, long, grown) = submitted_first p c jobs now s out fresh first in
    let (counted, listed, still) = run-Listed p c jobs now s out sys events u fresh h in
    let (st, hp, some_jobs) = submit_needs p c jobs now s out first in
    let later = (run events sys).s in
    (
      subst (AdmitsAll jobs now s out) after all_in,
      submit_again p c' jobs' now' later live hp hc hj counted
          ∙ ap (λ (r : Outcome JobError (List Job)). (r, later)) listed,
      still,
      ap (λ (x : Scheduler). of_proposal p x.rows) (sym after) ∙ own,
    )
