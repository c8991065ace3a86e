-- ===== src/Jobs/Exclusive.antt =====
-- No job is in the hands of two workers: only a queued job can be claimed, and no job is queued again.
use videocutlist.Prelude.{
  ℕ, ◌+◌, ◌≤◌, ◌<◌, Bool, true, false, not, ◌||◌, Option, none, some, List, [], ◌∷◌, ◌≡◌, refl, ◌∙◌,
  ap, arith, ◌==◌, ltb, count, select, if◌then◌else◌, Bool-cases, inl, inr, ◌⊎◌, Option-cases,
}
use videocutlist.Prelude.Text.{Text, text_eq, text_eq_iff}
use videocutlist.Jobs.Defs.{Job, queued, running, state_eq}
use videocutlist.Jobs.Table.{find, UniqueIds}
use videocutlist.Jobs.Lifecycle.{Evolves}
use videocutlist.Jobs.Evolution.{Evolution}
use videocutlist.Jobs.Claim.{Claimed, claim_oldest}
use videocutlist.Jobs.History.{step-Evolution}
use videocutlist.Jobs.Scheduler.{
  Limits, Running, Scheduler, by_request, by_shutdown, map_running, cancel_running, claim,
  started_at, submit, submit_proposal, cancel_job, shutdown, set_limits, start_scheduler,
}
use videocutlist.Jobs.Finalize.{RunnerResult, Fault}
use videocutlist.Jobs.System.{
  Finishing, System, Event, on_submit, on_submit_proposal, on_cancel, on_set_limits, on_start,
  on_shutdown, on_poll, on_register, on_deregister, on_attempt, on_succeed, on_fail_with_result,
  Stage, attempt, staged, finishing_of, poll, register, deregister, finish, running_of, has_text,
  without_text, without_running, without_finishing, step, run,
}

-- How many workers hold a job.
abbrev pub in_claimed : Text → List Text → ℕ
in_claimed id = count (λ x. text_eq x id)

abbrev pub in_running : Text → List Running → ℕ
in_running id = count (λ r. text_eq r.job id)

abbrev pub in_finishing : Text → List Finishing → ℕ
in_finishing id = count (λ f. text_eq f.job id)

abbrev pub holders : Text → System → ℕ
holders id sys =
    in_claimed id sys.claimed + in_running id sys.s.registered + in_finishing id sys.finishing

abbrev pub is_started : Option Job → Bool
is_started none = false
is_started (some j) = not (state_eq j.state queued)

-- Each job has at most one holder, and one that has a holder is no longer queued.
pub record Exclusive (sys : System) : Type 0 where
  pub unique : UniqueIds sys.s.rows
  pub once : (id : Text) → holders id sys ≤ 1
  pub begun : (id : Text) → 0 < holders id sys → is_started (find id sys.s.rows) ≡ true

started_stays : (a b : Option Job) → Evolves a b → is_started a ≡ true → is_started b ≡ true
started_stays none b h s = cc
started_stays (some j) none h s = absurd h
started_stays (some j) (some k) h s = ground (arith, h.forward)

-- A step that gives no job a holder more keeps all this.
fewer_holders :
    (e : Event) (sys : System)
    → ((id : Text) → holders id (step e sys) ≤ holders id sys)
    → Exclusive sys
    → Exclusive (step e sys)
fewer_holders e sys less x =
    let v = step-Evolution e sys in
    record {
      unique = v.unique x.unique;
      once = λ id. omega (arith, less id, x.once id);
      begun = λ id h.
          started_stays (find id sys.s.rows) (find id (step e sys).s.rows) (v.follows.at id)
            (x.begun id (omega (arith, less id, h)));
    }

in_running-map :
    (f : Running → Running)
    → ((r : Running) → (f r).job ≡ r.job)
    → (id : Text) (rs : List Running) → in_running id (map_running f rs) ≡ in_running id rs
in_running-map f k id [] = refl
in_running-map f k id (r ∷ rs) = ground (arith, k r, in_running-map f k id rs)

count-select {ℓ} : {A : Type ℓ} (p q : A → Bool) (xs : List A) → count p (select q xs) ≤ count p xs
count-select p q [] = omega arith
count-select p q (x ∷ xs) = ground (arith, count-select p q xs)

registered-cancel_job :
    (id k now : Text) (s : Scheduler)
    → in_running k (cancel_job id now s).1.registered ≡ in_running k s.registered
unfolding cancel_job
registered-cancel_job id k now s = ground (
  arith,
  in_running-map (λ x. if text_eq x.job id then cancel_running by_request x else x)
      (λ r. unfold cancel_running in ground arith) k s.registered,
)

registered-shutdown :
    (k : Text) (s : Scheduler) → in_running k (shutdown s).registered ≡ in_running k s.registered
unfolding shutdown
registered-shutdown k s = ground (
  arith,
  in_running-map (cancel_running by_shutdown) (λ r. unfold cancel_running in ground arith) k
      s.registered,
)

-- The removals take exactly the job's own entries away.
claimed-without :
    (k id : Text) (xs : List Text)
    → in_claimed k (without_text id xs) ≡ (if text_eq k id then 0 else in_claimed k xs)
claimed-without k id [] = ground arith
claimed-without k id (x ∷ xs) =
    ground (arith, text_eq_iff x id, text_eq_iff x k, text_eq_iff k id, claimed-without k id xs)

running-without :
    (k id : Text) (rs : List Running)
    → in_running k (without_running id rs) ≡ (if text_eq k id then 0 else in_running k rs)
running-without k id [] = ground arith
running-without k id (x ∷ rs) =
    ground
      (arith, text_eq_iff x.job id, text_eq_iff x.job k, text_eq_iff k id, running-without k id rs)

finishing-without :
    (k id : Text) (fs : List Finishing)
    → in_finishing k (without_finishing id fs) ≡ (if text_eq k id then 0 else in_finishing k fs)
finishing-without k id [] = ground arith
finishing-without k id (x ∷ fs) =
    ground (
      arith,
      text_eq_iff x.job id,
      text_eq_iff x.job k,
      text_eq_iff k id,
      finishing-without k id fs,
    )

claimed-has : (id : Text) (xs : List Text) → has_text id xs ≡ true → 0 < in_claimed id xs
claimed-has id [] h = cc
claimed-has id (x ∷ xs) h = ground (arith, claimed-has id xs)

running-has :
    (id : Text) (rs : List Running) (r : Running) → running_of id rs ≡ some r → 0 < in_running id rs
running-has id [] r h = cc
running-has id (x ∷ rs) r h = ground (arith, running-has id rs r)

register-fewer : (id : Text) (sys : System) (k : Text) → holders k (register id sys) ≤ holders k sys
unfolding register
register-fewer id sys k = ground (
  arith,
  claimed-without k id sys.claimed,
  claimed-has id sys.claimed,
  text_eq_iff k id,
  text_eq_iff id k,
)

deregister-fewer :
    (id : Text) (r : RunnerResult) (sys : System) (k : Text)
    → holders k (deregister id r sys) ≤ holders k sys
unfolding deregister
deregister-fewer id r sys k = elim (Option-cases (running_of id sys.s.registered)) [
  | inl e ↦ ground (arith, e)
  | inr (x, e) ↦ ground (
    arith,
    e,
    running-without k id sys.s.registered,
    running-has id sys.s.registered x,
    text_eq_iff k id,
    text_eq_iff id k,
  )
]

finishing-staged :
    (k id : Text) (t : Stage) (fs : List Finishing)
    → in_finishing k (staged id t fs) ≡ in_finishing k fs
finishing-staged k id t [] = refl
finishing-staged k id t (f ∷ fs) = ground (arith, finishing-staged k id t fs)

finish-fewer :
    (id now : Text) (fault : Fault) (sys : System) (k : Text)
    → holders k (finish id now fault sys) ≤ holders k sys
unfolding finish
finish-fewer id now fault sys k = elim (Option-cases (finishing_of id sys.finishing)) [
  | inl e ↦ rw (finish, e) (omega arith)
  | inr (f, e) ↦ elim (Option-cases (attempt id now fault f sys.s.rows).0) [
    | inl done ↦ rw (finish, e, done) (ground (arith, finishing-without k id sys.finishing))
    | inr (t, on) ↦ rw (finish, e, on) (ground (arith, finishing-staged k id t sys.finishing))
  ]
]

poll-same :
    (now : Text) (sys : System)
    → ((poll now sys).s.registered ≡ sys.s.registered) × ((poll now sys).finishing ≡ sys.finishing)
unfolding poll
poll-same now sys = ground arith

poll-cases :
    (now : Text) (sys : System)
    → ((poll now sys).claimed ≡ sys.claimed)
      ⊎ ((j : Job) × ((claim now sys.s.rows).0 ≡ some j)
          × ((poll now sys).claimed ≡ j.id ∷ sys.claimed)
          × ((poll now sys).s.rows ≡ (claim now sys.s.rows).1))
unfolding poll
poll-cases now sys = elim (Option-cases (claim now sys.s.rows).0) [
  | inl e ↦ inl (ground (arith, e))
  | inr (j, e) ↦ elim (Bool-cases (sys.idle == 0)) [
    | inl none_idle ↦ inl (ground (arith, none_idle))
    | inr some_idle ↦
        elim (Bool-cases (sys.s.stopped || ltb sys.s.limits.worker_limit sys.s.workers)) [
          | inl retires ↦ inl (ground (arith, some_idle, retires))
          | inr works ↦
              inr (j, e, ground (arith, some_idle, works, e), ground (arith, some_idle, works, e))
        ]
  ]
]

holders-poll :
    (now : Text) (sys : System) (cs : List Text) (k : Text)
    → (poll now sys).claimed ≡ cs
    → holders k (poll now sys)
      ≡ in_claimed k cs + in_running k sys.s.registered + in_finishing k sys.finishing
holders-poll now sys cs k e = ground (arith, e, poll-same now sys)

started_at-fields :
    (now : Text) (j : Job) → ((started_at now j).id ≡ j.id) × ((started_at now j).state ≡ running)
unfolding started_at
started_at-fields now j = (refl, refl)

queued_not_held :
    (sys : System) (t : Job)
    → Exclusive sys
    → find t.id sys.s.rows ≡ some t
    → t.state ≡ queued
    → holders t.id sys ≡ 0
queued_not_held sys t x f q = elim (Bool-cases (holders t.id sys == 0)) [
  | inl e ↦ ground (arith, e)
  | inr e ↦ absurd (ground (arith, x.begun t.id (ground (arith, e)), f, q))
]

poll-holds :
    (now : Text) (sys : System) (j : Job)
    → Exclusive sys
    → Claimed now sys.s.rows j (claim now sys.s.rows).1
    → (poll now sys).claimed ≡ j.id ∷ sys.claimed
    → (poll now sys).s.rows ≡ (claim now sys.s.rows).1
    → ((k : Text) → holders k (poll now sys) ≤ 1)
      × ((k : Text)
          → 0 < holders k (poll now sys)
          → holders k sys ≡ 0
          → is_started (find k (poll now sys).s.rows) ≡ true)
poll-holds now sys j x c added rows =
    let t = c.taken in
    let same_id : j.id ≡ t.id = ap (λ (y : Job). y.id) c.runs ∙ (started_at-fields now t).0 in
    let runs : j.state ≡ running = ap (λ (y : Job). y.state) c.runs ∙ (started_at-fields now t).1 in
    let free = queued_not_held sys t x c.was_queued.0 c.was_queued.1 in
    (
      λ k. ground (
        arith,
        holders-poll now sys (j.id ∷ sys.claimed) k added,
        x.once k,
        text_eq_iff j.id k,
        same_id,
        free,
      ),
      λ k held before. ground (
        arith,
        holders-poll now sys (j.id ∷ sys.claimed) k added,
        held,
        before,
        text_eq_iff j.id k,
        text_eq_iff k t.id,
        same_id,
        rows,
        c.changes k,
        runs,
      ),
    )

-- A claim gives a first holder to a job that was queued, and so had none.
poll-Exclusive : (now : Text) (sys : System) → Exclusive sys → Exclusive (poll now sys)
poll-Exclusive now sys x = elim (poll-cases now sys) [
  | inl same ↦
      unfold step in
      fewer_holders (on_poll now) sys (λ k. omega (arith, holders-poll now sys sys.claimed k same))
        x
  | inr (j, e, added, rows) ↦
      let v = poll-Evolution now sys in
      let h = poll-holds now sys j x ((claim_oldest now sys.s.rows x.unique).0 j e) added rows in
      record {
        unique = v.unique x.unique;
        once = h.0;
        begun = λ k held. elim (Bool-cases (holders k sys == 0)) [
          | inl unheld ↦ h.1 k held (ground (arith, unheld))
          | inr by_one ↦
              started_stays (find k sys.s.rows) (find k (poll now sys).s.rows) (v.follows.at k)
                (x.begun k (ground (arith, by_one)))
        ];
      }
]
  where
    poll-Evolution : (now : Text) (sys : System) → Evolution sys.s.rows (poll now sys).s.rows
    poll-Evolution now sys = unfold step in step-Evolution (on_poll now) sys

submit-fewer :
    (jobs : List Job) (now : Text) (sys : System) (k : Text)
    → holders k (step (on_submit jobs now) sys) ≤ holders k sys
unfolding step submit
submit-fewer jobs now sys k = ground arith

submit_proposal-fewer :
    (p c : Text) (jobs : List Job) (now : Text) (sys : System) (k : Text)
    → holders k (step (on_submit_proposal p c jobs now) sys) ≤ holders k sys
unfolding step submit_proposal
submit_proposal-fewer p c jobs now sys k = ground arith

set_limits-fewer :
    (limits : Limits) (sys : System) (k : Text)
    → holders k (step (on_set_limits limits) sys) ≤ holders k sys
unfolding step set_limits
set_limits-fewer limits sys k = ground arith

start-fewer : (sys : System) (k : Text) → holders k (step on_start sys) ≤ holders k sys
unfolding step start_scheduler
start-fewer sys k = ground arith

step-Exclusive : (e : Event) (sys : System) → Exclusive sys → Exclusive (step e sys)
unfolding step
step-Exclusive (on_poll now) sys x = poll-Exclusive now sys x
step-Exclusive (on_submit jobs now) sys x =
    fewer_holders (on_submit jobs now) sys (submit-fewer jobs now sys) x
step-Exclusive (on_submit_proposal p c jobs now) sys x =
    fewer_holders (on_submit_proposal p c jobs now) sys (submit_proposal-fewer p c jobs now sys) x
step-Exclusive (on_cancel id now) sys x =
    fewer_holders (on_cancel id now) sys (λ k. omega (arith, registered-cancel_job id k now sys.s))
      x
step-Exclusive (on_set_limits limits) sys x =
    fewer_holders (on_set_limits limits) sys (set_limits-fewer limits sys) x
step-Exclusive on_start sys x = fewer_holders on_start sys (start-fewer sys) x
step-Exclusive on_shutdown sys x =
    fewer_holders on_shutdown sys (λ k. omega (arith, registered-shutdown k sys.s)) x
step-Exclusive (on_register id) sys x = fewer_holders (on_register id) sys (register-fewer id sys) x
step-Exclusive (on_deregister id r) sys x =
    fewer_holders (on_deregister id r) sys (deregister-fewer id r sys) x
step-Exclusive (on_attempt id now fault) sys x =
    fewer_holders (on_attempt id now fault) sys (finish-fewer id now fault sys) x
step-Exclusive (on_succeed id result now) sys x =
    fewer_holders (on_succeed id result now) sys (λ k. omega arith) x
step-Exclusive (on_fail_with_result id result code now) sys x =
    fewer_holders (on_fail_with_result id result code now) sys (λ k. omega arith) x

-- From a state in which ids are unique, each job is held by at most one worker (that has claimed,
-- runs or finalizes it), and none that is held is queued, every interleaving of events leads to such
-- a state.
pub run-Exclusive :
    (events : List Event) (sys : System) → Exclusive sys → Exclusive (run events sys)
unfolding run
run-Exclusive [] sys x = x
run-Exclusive (e ∷ events) sys x = run-Exclusive events (step e sys) (step-Exclusive e sys x)
