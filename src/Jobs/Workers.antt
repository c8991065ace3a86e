-- ===== src/Jobs/Workers.antt =====
-- The workers of the scheduler: there are never more than the ceiling, and no job is in the hands of
-- two of them.
use videocutlist.Prelude.{
  ℕ, suc, ◌+◌, ◌≤◌, ◌<◌, Bool, true, not, some, List, [], ◌∷◌, ◌≡◌, refl, ◌∙◌, ap, arith, length,
  select, if◌then◌else◌, Bool-cases, inl, inr, Option-cases,
}
use videocutlist.Prelude.Text.{Text, text_eq}
use videocutlist.Prelude.Outcome.{ok}
use videocutlist.Jobs.Defs.{Job}
use videocutlist.Jobs.Table.{Rows}
use videocutlist.Jobs.Scheduler.{
  by_request, by_shutdown, new_scheduler, Limits, Running, Scheduler, submit, submit_proposal,
  start_scheduler, set_limits, shutdown, cancel_job, max_worker_limit, map_running, cancel_running,
}
use videocutlist.Jobs.Finalize.{RunnerResult, Fault}
use videocutlist.Jobs.System.{
  Finishing, System, Event, on_submit, on_submit_proposal, on_cancel, on_set_limits, on_start,
  on_shutdown, on_poll, on_register, on_deregister, on_attempt, on_succeed, on_fail_with_result,
  Stage, attempt, staged, poll, register, deregister, finish, running_of, finishing_of, has_text,
  initial, without_text, without_running, without_finishing, step, run,
}

abbrev pub busy : System → ℕ
busy sys = length sys.claimed + length sys.s.registered + length sys.finishing

-- Every goroutine is idle or holds a job, and the limits in force passed their check.
pub record WithinLimits (sys : System) : Type 0 where
  pub accounted : sys.idle + busy sys ≤ sys.s.workers
  pub ceiling : sys.s.workers ≤ max_worker_limit
  pub limit : sys.s.limits.worker_limit ≤ max_worker_limit

length-map_running :
    (f : Running → Running) (rs : List Running) → length (map_running f rs) ≡ length rs
length-map_running f [] = refl
length-map_running f (r ∷ rs) = ap suc (length-map_running f rs)

length-select {ℓ} : {A : Type ℓ} (p : A → Bool) (xs : List A) → length (select p xs) ≤ length xs
length-select p [] = omega arith
length-select p (x ∷ xs) = ground (arith, length-select p xs)

length-without_text :
    (id : Text) (xs : List Text) → has_text id xs ≡ true → length (without_text id xs) < length xs
length-without_text id [] h = cc
length-without_text id (x ∷ xs) h =
    ground (arith, length-select (λ y. not (text_eq y id)) xs, length-without_text id xs)

length-without_running :
    (id : Text) (rs : List Running) {r : Running}
    → running_of id rs ≡ some r
    → length (without_running id rs) < length rs
length-without_running id [] h = cc
length-without_running id (x ∷ rs) {r} h = elim (Bool-cases (text_eq x.job id)) [
  | inl hit ↦ ground (arith, hit, length-select (λ (y : Running). not (text_eq y.job id)) rs)
  | inr miss ↦
      let n = length-without_running id rs {r = r} (ground arith) in ground (arith, miss, n)
]

length-without_finishing :
    (id : Text) (fs : List Finishing) {f : Finishing}
    → finishing_of id fs ≡ some f
    → length (without_finishing id fs) < length fs
length-without_finishing id [] h = cc
length-without_finishing id (x ∷ fs) {f} h = elim (Bool-cases (text_eq x.job id)) [
  | inl hit ↦ ground (arith, hit, length-select (λ (y : Finishing). not (text_eq y.job id)) fs)
  | inr miss ↦
      let n = length-without_finishing id fs {f = f} (ground arith) in ground (arith, miss, n)
]

-- The part of the scheduler that the callers' operations on jobs leave alone.
pub record SameWorkers (a b : Scheduler) : Type 0 where
  pub workers : b.workers ≡ a.workers
  pub limits : b.limits ≡ a.limits
  pub registered : length b.registered ≡ length a.registered

SameWorkers-refl : (a : Scheduler) → SameWorkers a a
SameWorkers-refl a = record { workers = refl; limits = refl; registered = refl }

SameWorkers-trans : (a b c : Scheduler) → SameWorkers a b → SameWorkers b c → SameWorkers a c
SameWorkers-trans a b c h k = record {
  workers = k.workers ∙ h.workers;
  limits = k.limits ∙ h.limits;
  registered = k.registered ∙ h.registered;
}

submit-SameWorkers :
    (jobs : List Job) (now : Text) (s : Scheduler) → SameWorkers s (submit jobs now s).1
unfolding submit
submit-SameWorkers jobs now s = ground arith

submit_proposal-SameWorkers :
    (p c : Text) (jobs : List Job) (now : Text) (s : Scheduler)
    → SameWorkers s (submit_proposal p c jobs now s).1
unfolding submit_proposal
submit_proposal-SameWorkers p c jobs now s = ground arith

cancel_job-SameWorkers : (id now : Text) (s : Scheduler) → SameWorkers s (cancel_job id now s).1
unfolding cancel_job
cancel_job-SameWorkers id now s = ground (
  arith,
  length-map_running (λ x. if text_eq x.job id then cancel_running by_request x else x)
      s.registered,
)

shutdown-SameWorkers : (s : Scheduler) → SameWorkers s (shutdown s)
unfolding shutdown
shutdown-SameWorkers s =
    ground (arith, length-map_running (cancel_running by_shutdown) s.registered)

-- A change of the scheduler that leaves its workers alone keeps the accounts.
kept :
    (sys : System) (s : Scheduler)
    → SameWorkers sys.s s
    → WithinLimits sys
    → WithinLimits (record sys { s = s })
kept sys s same w = record {
  accounted = omega (arith, same.workers, same.registered, w.accounted);
  ceiling = omega (arith, same.workers, w.ceiling);
  limit = omega (arith, ap (λ (l : Limits). l.worker_limit) same.limits, w.limit);
}

set_limits-WithinLimits :
    (limits : Limits) (sys : System)
    → WithinLimits sys
    → WithinLimits (step (on_set_limits limits) sys)
unfolding step set_limits
set_limits-WithinLimits limits sys w = ground (arith, w)

start-WithinLimits : (sys : System) → WithinLimits sys → WithinLimits (step on_start sys)
unfolding step start_scheduler
start-WithinLimits sys w = ground (arith, w)

poll-WithinLimits : (now : Text) (sys : System) → WithinLimits sys → WithinLimits (poll now sys)
unfolding poll
poll-WithinLimits now sys w = ground (arith, w)

register-WithinLimits :
    (id : Text) (sys : System) → WithinLimits sys → WithinLimits (register id sys)
unfolding register
register-WithinLimits id sys w = ground (arith, w, length-without_text id sys.claimed)

deregister-WithinLimits :
    (id : Text) (r : RunnerResult) (sys : System)
    → WithinLimits sys
    → WithinLimits (deregister id r sys)
unfolding deregister
deregister-WithinLimits id r sys w = elim (Option-cases (running_of id sys.s.registered)) [
  | inl e ↦ rw (e, deregister) w
  | inr (x, e) ↦
      let n = length-without_running id sys.s.registered e in
      rw (e, deregister)
        (record { accounted = omega (arith, n, w.accounted); ceiling = w.ceiling; limit = w.limit })
]

length-staged : (id : Text) (t : Stage) (fs : List Finishing) → length (staged id t fs) ≡ length fs
length-staged id t [] = refl
length-staged id t (f ∷ fs) = ap suc (length-staged id t fs)

finish-WithinLimits :
    (id now : Text) (fault : Fault) (sys : System)
    → WithinLimits sys
    → WithinLimits (finish id now fault sys)
unfolding finish
finish-WithinLimits id now fault sys w = elim (Option-cases (finishing_of id sys.finishing)) [
  | inl e ↦ rw (e, finish) w
  | inr (f, e) ↦ elim (Option-cases (attempt id now fault f sys.s.rows).0) [
    | inl done ↦
        let n = length-without_finishing id sys.finishing e in
        rw (finish, e, done)
          (record {
            accounted = omega (arith, n, w.accounted);
            ceiling = w.ceiling;
            limit = w.limit;
          })
    | inr (t, on) ↦
        let n = length-staged id t sys.finishing in
        rw (finish, e, on)
          (record {
            accounted = omega (arith, n, w.accounted);
            ceiling = w.ceiling;
            limit = w.limit;
          })
  ]
]

same_workers : (s : Scheduler) (rows : Rows) → SameWorkers s (record s { rows = rows })
same_workers s rows = record { workers = refl; limits = refl; registered = refl }

pub step-WithinLimits : (e : Event) (sys : System) → WithinLimits sys → WithinLimits (step e sys)
unfolding step
step-WithinLimits (on_submit jobs now) sys w = kept sys _ (submit-SameWorkers jobs now sys.s) w
step-WithinLimits (on_submit_proposal p c jobs now) sys w =
    kept sys _ (submit_proposal-SameWorkers p c jobs now sys.s) w
step-WithinLimits (on_cancel id now) sys w = kept sys _ (cancel_job-SameWorkers id now sys.s) w
step-WithinLimits (on_set_limits limits) sys w = set_limits-WithinLimits limits sys w
step-WithinLimits on_start sys w = start-WithinLimits sys w
step-WithinLimits on_shutdown sys w = kept sys _ (shutdown-SameWorkers sys.s) w
step-WithinLimits (on_poll now) sys w = poll-WithinLimits now sys w
step-WithinLimits (on_register id) sys w = register-WithinLimits id sys w
step-WithinLimits (on_deregister id r) sys w = deregister-WithinLimits id r sys w
step-WithinLimits (on_attempt id now fault) sys w = finish-WithinLimits id now fault sys w
step-WithinLimits (on_succeed id result now) sys w = kept sys _ (same_workers sys.s _) w
step-WithinLimits (on_fail_with_result id result code now) sys w =
    kept sys _ (same_workers sys.s _) w

run-WithinLimits :
    (events : List Event) (sys : System) → WithinLimits sys → WithinLimits (run events sys)
unfolding run
run-WithinLimits [] sys w = w
run-WithinLimits (e ∷ events) sys w =
    run-WithinLimits events (step e sys) (step-WithinLimits e sys w)

-- From a new scheduler, whatever the limits are set to on the way, at most 64 workers exist and at
-- most 64 jobs are claimed, running or being made durable at one time.
pub busy-le-ceiling :
    (rows : Rows) (limits : Limits) (s : Scheduler) (events : List Event)
    → new_scheduler rows limits ≡ ok s
    → ((run events (initial s)).s.workers ≤ 64) × (busy (run events (initial s)) ≤ 64)
busy-le-ceiling rows limits s events made =
    let w = run-WithinLimits events (initial s) (new-WithinLimits rows limits s made) in
    (omega (arith, w.ceiling), omega (arith, w.accounted, w.ceiling))
  where
    new-WithinLimits :
        (rows : Rows) (limits : Limits) (s : Scheduler)
        → new_scheduler rows limits ≡ ok s
        → WithinLimits (initial s)
    new-WithinLimits rows limits s made = unfold new_scheduler in ground arith
