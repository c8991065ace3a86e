-- ===== src/Jobs/History.antt =====
-- What holds of every interleaving of the scheduler's events: rows evolve, the workers stay within
-- the limit, and no job is in the hands of two workers.
use videocutlist.Prelude.{
  ◌&&◌, List, [], ◌∷◌, ◌≡◌, refl, sym, ◌∙◌, ap, none, some, subst, arith, select, inl, inr, ◌⊎◌,
  Option-cases,
}
use videocutlist.Prelude.Text.{Text, text_eq}
use videocutlist.Prelude.Outcome.{Outcome-cases}
use videocutlist.Jobs.Defs.{Job, is_active}
use videocutlist.Jobs.Table.{Rows}
use videocutlist.Jobs.Store.{cancel}
use videocutlist.Jobs.Lifecycle.{Follows}
use videocutlist.Jobs.Evolution.{
  Evolution, Evolution-refl, Evolution-trans, cancel-Evolution, succeed-Evolution,
  fail_with_result-Evolution,
}
use videocutlist.Jobs.Admission.{admit-Admission, admit_proposal-admit}
use videocutlist.Jobs.Claim.{claim-Evolution}
use videocutlist.Jobs.Durable.{apply-Evolution}
use videocutlist.Jobs.Scheduler.{
  Limits, Scheduler, admit, admit_proposal, commit, submit, submit_proposal, claim, start_scheduler,
  set_limits, shutdown, cancel_job, cancel_ids, cancel_batch, ids_of,
}
use videocutlist.Jobs.Finalize.{RunnerResult, Fault, apply_terminal, terminal_target}
use videocutlist.Jobs.System.{
  System, Event, on_submit, on_submit_proposal, on_cancel, on_set_limits, on_start, on_shutdown,
  on_poll, on_register, on_deregister, on_attempt, on_succeed, on_fail_with_result, Finishing,
  attempt, poll, register, deregister, finish, finishing_of, step, run,
}

commit-Evolution :
    (jobs : List Job) (now : Text) (s : Scheduler)
    → Evolution s.rows (commit (admit jobs now s.rows) s).1.rows
commit-Evolution jobs now s = elim (Outcome-cases (admit jobs now s.rows)) [
  | inr (e, p) ↦ rw p (Evolution-refl s.rows)
  | inl ((out, rows), p) ↦ rw p (admit-Admission jobs now s.rows out rows p).evolution
]

commit_proposal-Evolution :
    (p c : Text) (jobs : List Job) (now : Text) (s : Scheduler)
    → Evolution s.rows (commit (admit_proposal p c jobs now s.rows) s).1.rows
commit_proposal-Evolution p c jobs now s =
    elim (Outcome-cases (admit_proposal p c jobs now s.rows)) [
      | inr (e, q) ↦ rw q (Evolution-refl s.rows)
      | inl ((out, rows), q) ↦
          rw q
            (admit-Admission jobs now s.rows out rows
              (admit_proposal-admit p c jobs now s.rows q).0).evolution
    ]

-- After a step that is one of two, what holds of both.
either {ℓ} : {A : Type ℓ} (P : A → Type 0) {a b c : A} → (c ≡ a) ⊎ (c ≡ b) → P a → P b → P c
either P (inl e) p q = subst P (sym e) p
either P (inr e) p q = subst P (sym e) q

submit-cases :
    (jobs : List Job) (now : Text) (s : Scheduler)
    → ((submit jobs now s).1 ≡ s) ⊎ ((submit jobs now s).1 ≡ (commit (admit jobs now s.rows) s).1)
unfolding submit
submit-cases jobs now s = ground arith

submit-Evolution :
    (jobs : List Job) (now : Text) (s : Scheduler) → Evolution s.rows (submit jobs now s).1.rows
submit-Evolution jobs now s =
    either (λ (x : Scheduler). Evolution s.rows x.rows) (submit-cases jobs now s)
      (Evolution-refl s.rows) (commit-Evolution jobs now s)

submit_proposal-cases :
    (p c : Text) (jobs : List Job) (now : Text) (s : Scheduler)
    → ((submit_proposal p c jobs now s).1 ≡ s)
      ⊎ ((submit_proposal p c jobs now s).1 ≡ (commit (admit_proposal p c jobs now s.rows) s).1)
unfolding submit_proposal
submit_proposal-cases p c jobs now s = ground arith

pub submit_proposal-Evolution :
    (p c : Text) (jobs : List Job) (now : Text) (s : Scheduler)
    → Evolution s.rows (submit_proposal p c jobs now s).1.rows
submit_proposal-Evolution p c jobs now s =
    either (λ (x : Scheduler). Evolution s.rows x.rows) (submit_proposal-cases p c jobs now s)
      (Evolution-refl s.rows) (commit_proposal-Evolution p c jobs now s)

cancel_job-rows :
    (id now : Text) (s : Scheduler) → (cancel_job id now s).1.rows ≡ (cancel id now s.rows).1
unfolding cancel_job
cancel_job-rows id now s = ground arith

cancel_job-Evolution :
    (id now : Text) (s : Scheduler) → Evolution s.rows (cancel_job id now s).1.rows
cancel_job-Evolution id now s = rw (cancel_job-rows id now s) (cancel-Evolution id now s.rows)

cancel_ids-cases :
    (id : Text) (ids : List Text) (now : Text) (s : Scheduler)
    → let s' = (cancel_job id now s).1 in
      ((cancel_ids (id ∷ ids) now s).1 ≡ (cancel_ids ids now s').1)
      ⊎ ((cancel_ids (id ∷ ids) now s).1 ≡ s')
unfolding cancel_ids
cancel_ids-cases id ids now s = ground arith

cancel_batch-cases :
    (id now : Text) (s : Scheduler)
    → ((cancel_batch id now s).1 ≡ s)
      ⊎ ((cancel_batch id now s).1
          ≡ (cancel_ids
              (ids_of (select (λ j. text_eq j.batch_id id && is_active j.state) s.rows))
              now
              s).1)
unfolding cancel_batch
cancel_batch-cases id now s = ground arith

limits-rows : (limits : Limits) (s : Scheduler) → (set_limits limits s).1.rows ≡ s.rows
unfolding set_limits
limits-rows limits s = ground arith

start-rows : (s : Scheduler) → (start_scheduler s).rows ≡ s.rows
unfolding start_scheduler
start-rows s = ground arith

shutdown-rows : (s : Scheduler) → (shutdown s).rows ≡ s.rows
unfolding shutdown
shutdown-rows s = ground arith

poll-cases :
    (now : Text) (sys : System)
    → ((poll now sys).s.rows ≡ sys.s.rows) ⊎ ((poll now sys).s.rows ≡ (claim now sys.s.rows).1)
unfolding poll
poll-cases now sys = ground arith

register-rows : (id : Text) (sys : System) → (register id sys).s.rows ≡ sys.s.rows
unfolding register
register-rows id sys = ground arith

deregister-rows :
    (id : Text) (r : RunnerResult) (sys : System) → (deregister id r sys).s.rows ≡ sys.s.rows
unfolding deregister
deregister-rows id r sys = ground arith

attempt-cases :
    (id now : Text) (fault : Fault) (f : Finishing) (rows : Rows)
    → ((attempt id now fault f rows).1 ≡ rows)
      ⊎ ((attempt id now fault f rows).1
          ≡ (apply_terminal id (terminal_target f.result f.cause) now rows).1)
unfolding attempt
attempt-cases id now fault f rows = ground arith

finish-rows :
    (id now : Text) (fault : Fault) (f : Finishing) (sys : System)
    → finishing_of id sys.finishing ≡ some f
    → (finish id now fault sys).s.rows ≡ (attempt id now fault f sys.s.rows).1
unfolding finish
finish-rows id now fault f sys e = elim (Option-cases (attempt id now fault f sys.s.rows).0) [
  | inl done ↦ rw (finish, e, done) refl
  | inr (stage, on) ↦ rw (finish, e, on) refl
]

finish-none :
    (id now : Text) (fault : Fault) (sys : System)
    → finishing_of id sys.finishing ≡ none
    → finish id now fault sys ≡ sys
unfolding finish
finish-none id now fault sys e = rw (e, finish) refl

finish-Evolution :
    (id now : Text) (fault : Fault) (sys : System)
    → Evolution sys.s.rows (finish id now fault sys).s.rows
finish-Evolution id now fault sys = elim (Option-cases (finishing_of id sys.finishing)) [
  | inl e ↦ rw (finish-none id now fault sys e) (Evolution-refl sys.s.rows)
  | inr (f, e) ↦ rw (finish-rows id now fault f sys e) (
      either (λ (x : Rows). Evolution sys.s.rows x) (attempt-cases id now fault f sys.s.rows)
        (Evolution-refl sys.s.rows)
        (apply-Evolution id (terminal_target f.result f.cause) now sys.s.rows))
]

-- The rows are those of another state.
same_rows : (a b : Rows) → b ≡ a → Evolution a b
same_rows a b e = rw e (Evolution-refl a)

pub step-Evolution : (e : Event) (sys : System) → Evolution sys.s.rows (step e sys).s.rows
unfolding step
step-Evolution (on_submit jobs now) sys = submit-Evolution jobs now sys.s
step-Evolution (on_submit_proposal p c jobs now) sys = submit_proposal-Evolution p c jobs now sys.s
step-Evolution (on_cancel id now) sys = cancel_job-Evolution id now sys.s
step-Evolution (on_set_limits limits) sys = same_rows _ _ (limits-rows limits sys.s)
step-Evolution on_start sys = same_rows _ _ (start-rows sys.s)
step-Evolution on_shutdown sys = same_rows _ _ (shutdown-rows sys.s)
step-Evolution (on_poll now) sys =
    either (λ (x : Rows). Evolution sys.s.rows x) (poll-cases now sys) (Evolution-refl sys.s.rows)
      (claim-Evolution now sys.s.rows)
step-Evolution (on_register id) sys = same_rows _ _ (register-rows id sys)
step-Evolution (on_deregister id r) sys = same_rows _ _ (deregister-rows id r sys)
step-Evolution (on_attempt id now fault) sys = finish-Evolution id now fault sys
step-Evolution (on_succeed id result now) sys = succeed-Evolution id sys.s.rows result now
step-Evolution (on_fail_with_result id result code now) sys =
    fail_with_result-Evolution id sys.s.rows result code now

pub run-Evolution :
    (events : List Event) (sys : System) → Evolution sys.s.rows (run events sys).s.rows
unfolding run
run-Evolution [] sys = Evolution-refl sys.s.rows
run-Evolution (e ∷ events) sys =
    Evolution-trans sys.s.rows (step e sys).s.rows _ (step-Evolution e sys)
      (run-Evolution events (step e sys))

cancel_ids-run :
    (ids : List Text) (now : Text) (sys : System)
    → (events : List Event) × (run events sys ≡ record sys { s = (cancel_ids ids now sys.s).1 })
unfolding run step cancel_ids
cancel_ids-run [] now sys = ([], refl)
cancel_ids-run (id ∷ ids) now sys =
    let rest = cancel_ids-run ids now (step (on_cancel id now) sys) in
    elim (cancel_ids-cases id ids now sys.s) [
      | inl e ↦
          (on_cancel id now ∷ rest.0, rest.1 ∙ ap (λ (x : Scheduler). record sys { s = x }) (sym e))
      | inr e ↦ (on_cancel id now ∷ [], ap (λ (x : Scheduler). record sys { s = x }) (sym e))
    ]

-- A `CancelBatch` with nothing between its steps is a run of the events of its `Cancel`s.
cancel_batch-run :
    (id now : Text) (sys : System)
    → (events : List Event) × (run events sys ≡ record sys { s = (cancel_batch id now sys.s).1 })
unfolding run
cancel_batch-run id now sys = elim (cancel_batch-cases id now sys.s) [
  | inl e ↦ ([], ap (λ (x : Scheduler). record sys { s = x }) (sym e))
  | inr e ↦
      let (events, ran) =
        cancel_ids-run
          (ids_of (select (λ j. text_eq j.batch_id id && is_active j.state) sys.s.rows)) now sys in
      (events, ran ∙ ap (λ (x : Scheduler). record sys { s = x }) (sym e))
]

-- Whatever the interleaving of the callers' critical sections, the workers' claims, the attempts of
-- `finalize` to read and write, which may each fail before or after the change, and the writes of
-- runners: a job that was there is still there, has moved only forward in the state diagram, is still
-- the work that was asked for, and if it was succeeded, failed or cancelled it is exactly as it was.
pub run-Follows : (events : List Event) (sys : System) → Follows sys.s.rows (run events sys).s.rows
run-Follows events sys = (run-Evolution events sys).follows
