-- ===== src/Proposals/Once.antt =====
-- A proposal that is executed again finds the jobs of its first execution (internal/mcp/proposals.go,
-- internal/jobs/scheduler.go).
use videocutlist.Prelude.{
  ◌≡◌, sym, ap, subst, ◌∙◌, ◌<◌, false, ◌||◌, some, List, [], ◌∷◌, ◌==◌, map, All, length, arith,
  Bool-cases, Option-cases, inl, inr,
}
use videocutlist.Prelude.Text.{Text, text_eq, text_eq_iff, is_empty}
use videocutlist.Prelude.Outcome.{Outcome, ok}
use videocutlist.Jobs.Defs.{Job, JobError}
use videocutlist.Jobs.Table.{UniqueIds, order_by, row_before}
use videocutlist.Jobs.Scheduler.{Scheduler, Admitted, proposal_count, submit_proposal}
use videocutlist.Jobs.Proposals.{of_proposal, submit_needs, submit_proposal_once}
use videocutlist.Jobs.Stays.{StillIn}
use videocutlist.Jobs.System.{System, Event, run}
use videocutlist.Proposals.Store.{ExportProposal, Proposals, find_proposal, get_proposal}
use videocutlist.Proposals.Prepare.{Services, Moment}
use videocutlist.Proposals.Execute.{ReportedJob, reported, World, execute, snapshot_job}
use videocutlist.Proposals.Execution.{execute-Justified}

find_proposal-id :
    (id : Text) (rows : Proposals) (p : ExportProposal) → find_proposal id rows ≡ some p → p.id ≡ id
unfolding find_proposal
find_proposal-id id [] p h = absurd (cc h)
find_proposal-id id (q ∷ rows) p h = elim (Bool-cases (text_eq q.id id)) [
  | inl hit ↦
      let e : q ≡ p = ground (arith, h, hit) in
      ap (λ (x : ExportProposal). x.id) (sym e) ∙ (text_eq_iff q.id id).0 hit
  | inr miss ↦ find_proposal-id id rows p (ground (arith, h, miss))
]

get_proposal-id :
    (id : Text) (rows : Proposals) (p : ExportProposal) → get_proposal id rows ≡ ok p → p.id ≡ id
unfolding get_proposal
get_proposal-id id rows p h = elim (Option-cases (find_proposal id rows)) [
  | inl missing ↦ absurd (ground (arith, h, missing))
  | inr (q, found) ↦
      let e : q.id ≡ p.id = ground (arith, h, found) in sym e ∙ find_proposal-id id rows q found
]

submit_proposal-needs :
    (p c : Text) (jobs : List Job) (now : Text) (s : Scheduler) (out : List Job)
    → (submit_proposal p c jobs now s).0 ≡ ok out
    → (is_empty c ≡ false) × (0 < length jobs)
unfolding submit_proposal
submit_proposal-needs p c jobs now s out h = elim (Bool-cases s.stopped) [
  | inl stopped ↦ absurd (ground (arith, h, stopped))
  | inr live ↦ elim (Bool-cases (is_empty p || is_empty c || length jobs == 0)) [
    | inl lacking ↦ absurd (ground (arith, h, live, lacking))
    | inr enough ↦ (ground (arith, enough), ground (arith, enough))
  ]
]

resubmit :
    (p c c' : Text) (jobs jobs' out out' : List Job) (now now' : Text) (s s' : Scheduler)
    (sys : System) (events : List Event)
    → UniqueIds s.rows
    → proposal_count p s.rows ≡ 0
    → submit_proposal p c jobs now s ≡ (ok out, sys.s)
    → submit_proposal p c' jobs' now' (run events sys).s ≡ (ok out', s')
    → let later = (run events sys).s in
      (s' ≡ later)
      × (out' ≡ order_by row_before (of_proposal p later.rows))
      × All (StillIn out') out
resubmit p c c' jobs jobs' out out' now now' s s' sys events u fresh first second =
    let later = (run events sys).s in
    let (named, enough) =
      submit_proposal-needs p c' jobs' now' later out' (ap (λ (x : Admitted). x.0) second) in
    let live = (submit_needs p c' jobs' now' later out' (ap (λ (x : Admitted). x.0) second)).0 in
    let (all_in, again, still, own) =
      submit_proposal_once p c c' jobs jobs' now now' s out sys events u fresh first named enough
        live in
    let answer = order_by row_before (of_proposal p later.rows) in
    let same : (ok out', s') ≡ (ok answer, later) = sym second ∙ again in
    let told : out' ≡ answer = answered answer (ap (λ (x : Admitted). x.0) same) in
    (
      ap (λ (x : Admitted). x.1) same,
      told,
      subst (λ (r : List Job). All (StillIn r) out) (sym told) still,
    )
  where
    answered :
        (answer : List Job)
        → ◌≡◌ {A = Outcome JobError (List Job)} (ok out') (ok answer)
        → out' ≡ answer
    answered answer h = cc h

-- Once a proposal that had no jobs has been executed, and after any events of the scheduler that
-- follow, each execution of it that succeeds, by whichever credential and at whatever time, leaves the
-- scheduler as it finds it and reports the jobs that the scheduler has for the proposal then, ordered
-- by the texts of their times of creation and by id; each job of the first execution is among them,
-- moved at most forward.
pub execute_once :
    (seen env seen' env' : Services) (id credential credential' : Text) (at at' : Moment)
    (stamp stamp' : Text) (rows rows' : Proposals) (w w' : World)
    (out out' : Text × List ReportedJob) (sys : System) (events : List Event)
    → UniqueIds w.scheduler.rows
    → proposal_count id w.scheduler.rows ≡ 0
    → (execute seen env id credential at stamp rows w).0 ≡ ok out
    → sys.s ≡ (execute seen env id credential at stamp rows w).1.scheduler
    → w'.scheduler ≡ (run events sys).s
    → (execute seen' env' id credential' at' stamp' rows' w').0 ≡ ok out'
    → ((execute seen' env' id credential' at' stamp' rows' w').1.scheduler ≡ w'.scheduler)
      × ((jobs : List Job) × (jobs' : List Job) × (out.1 ≡ map reported jobs)
          × (out'.1 ≡ map reported jobs')
          × (jobs' ≡ order_by row_before (of_proposal id w'.scheduler.rows))
          × All (StillIn jobs') jobs)
execute_once seen env seen' env' id credential credential' at at' stamp stamp' rows rows' w w' out
      out' sys events u fresh h start kept h' =
    let j = execute-Justified seen env id credential at stamp rows w out h in
    let j' = execute-Justified seen' env' id credential' at' stamp' rows' w' out' h' in
    let (jobs, first, told) = j.submitted in
    let (jobs', second, told') = j'.submitted in
    let name = get_proposal-id id rows j.proposal j.stored in
    let name' = get_proposal-id id rows' j'.proposal j'.stored in
    let again =
      subst
        (λ x.
          submit_proposal x credential'
            (map (snapshot_job env' j'.proposal credential') j'.proposal.snapshots) stamp'
            (run events sys).s
          ≡ (ok jobs', (execute seen' env' id credential' at' stamp' rows' w').1.scheduler))
        name'
        (ap
            (submit_proposal j'.proposal.id credential'
              (map (snapshot_job env' j'.proposal credential') j'.proposal.snapshots) stamp')
            (sym kept)
          ∙ second) in
    let once =
      subst
        (λ x.
          submit_proposal x credential
            (map (snapshot_job env j.proposal credential) j.proposal.snapshots) stamp w.scheduler
          ≡ (ok jobs, sys.s))
        name (first ∙ ap (λ x. (ok jobs, x)) (sym start)) in
    let (same, listed, still) =
      resubmit id credential credential'
        (map (snapshot_job env j.proposal credential) j.proposal.snapshots)
        (map (snapshot_job env' j'.proposal credential') j'.proposal.snapshots) jobs jobs' stamp
        stamp' w.scheduler (execute seen' env' id credential' at' stamp' rows' w').1.scheduler sys
        events u fresh once again in
    (
      same ∙ sym kept,
      (
        jobs,
        jobs',
        ap (λ (x : Text × List ReportedJob). x.1) told,
        ap (λ (x : Text × List ReportedJob). x.1) told',
        listed ∙ ap (λ (x : Scheduler). order_by row_before (of_proposal id x.rows)) (sym kept),
        still,
      ),
    )
