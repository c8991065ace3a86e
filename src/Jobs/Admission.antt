-- ===== src/Jobs/Admission.antt =====
-- What `Submit` and `SubmitProposal` admit: whole batches, within the capacity, as queued jobs.
use videocutlist.Prelude.{
  ℕ, suc, ◌+◌, ◌≤◌, true, none, some, List, [], ◌∷◌, ◌++◌, ◌≡◌, refl, ◌∙◌, ap, arith, length, subst,
  All, Bool-cases, inl, inr, Option-cases,
}
use mathlib.Core.List.{append_assoc, append-nil}
use videocutlist.Prelude.Text.{Text}
use videocutlist.Prelude.Outcome.{ok, err, Outcome-cases}
use videocutlist.Jobs.Defs.{Job, JobError, validate_new_job, queued_job}
use videocutlist.Jobs.Table.{Rows, insert, active_count}
use videocutlist.Jobs.Lifecycle.{insert-rows}
use videocutlist.Jobs.Evolution.{Evolution, Evolution-refl, Evolution-trans, insert-Evolution}
use videocutlist.Jobs.Scheduler.{
  Scheduler, admit, admit_proposal, belongs_to, submit, submit_proposal, proposal_count,
}

-- The rows of a batch as the INSERT statements write them.
abbrev pub queued_rows : Text → List Job → Rows
queued_rows now [] = []
queued_rows now (j ∷ jobs) = queued_job j now ∷ queued_rows now jobs

-- One round of the loop of `Submit`, read backwards from its success.
record Admits (job : Job) (jobs : List Job) (now : Text) (rows : Rows) (out : List Job)
    (after : Rows) : Type 0 where
  middle : Rows
  rest : List Job
  valid : validate_new_job job ≡ none
  inserted : insert (queued_job job now) rows ≡ some middle
  continues : admit jobs now middle ≡ ok (rest, after)
  returns : out ≡ queued_job job now ∷ rest

admit-inv :
    (job : Job) (jobs : List Job) (now : Text) (rows : Rows) (out : List Job) (after : Rows)
    → admit (job ∷ jobs) now rows ≡ ok (out, after)
    → Admits job jobs now rows out after
unfolding admit
admit-inv job jobs now rows out after h = elim (Option-cases (validate_new_job job)) [
  | inr (e, p) ↦ absurd (ground (arith, p))
  | inl p ↦ elim (Option-cases (insert (queued_job job now) rows)) [
    | inl q ↦ absurd (ground (arith, p, q))
    | inr (middle, q) ↦ elim (Outcome-cases (admit jobs now middle)) [
      | inr (e, r) ↦ absurd (ground (arith, p, q, r))
      | inl ((rest, end), r) ↦ record {
        middle = middle;
        rest = rest;
        valid = p;
        inserted = q;
        continues = ground (arith, p, q, r);
        returns = ground (arith, p, q, r);
      }
    ]
  ]
]

-- What a batch of new jobs does to the rows.
pub record Admission (now : Text) (jobs : List Job) (rows : Rows) (out : List Job) (after : Rows)
    : Type 0 where
  pub appended : after ≡ rows ++ queued_rows now jobs
  pub returned : out ≡ queued_rows now jobs
  pub evolution : Evolution rows after

pub admit-Admission :
    (jobs : List Job) (now : Text) (rows : Rows) (out : List Job) (after : Rows)
    → admit jobs now rows ≡ ok (out, after)
    → Admission now jobs rows out after
unfolding admit
admit-Admission [] now rows out after h = record {
  appended = rw append-nil (ground arith);
  returned = ground arith;
  evolution = subst (λ (r : Rows). Evolution rows r) (ground arith) (Evolution-refl rows);
}
admit-Admission (job ∷ jobs) now rows out after h =
    let a = admit-inv job jobs now rows out after h in
    let b = admit-Admission jobs now a.middle a.rest after a.continues in
    record {
      appended =
          b.appended
          ∙ ap (λ (r : Rows). r ++ queued_rows now jobs)
              (insert-rows (queued_job job now) rows a.middle a.inserted)
          ∙ append_assoc rows (queued_job job now ∷ []) (queued_rows now jobs);
      returned = a.returns ∙ ap (◌∷◌ (queued_job job now)) b.returned;
      evolution =
          Evolution-trans rows a.middle after
            (insert-Evolution (queued_job job now) rows a.middle a.inserted) b.evolution;
    }

-- The stricter loop of `SubmitProposal` succeeds only where that of `Submit` does, with its result.
pub admit_proposal-admit :
    (proposal credential : Text) (jobs : List Job) (now : Text) (rows : Rows) {r : List Job × Rows}
    → admit_proposal proposal credential jobs now rows ≡ ok r
    → (admit jobs now rows ≡ ok r) × All (λ j. belongs_to proposal credential j ≡ true) jobs
unfolding admit admit_proposal
admit_proposal-admit proposal credential [] now rows h = (h, tt)
admit_proposal-admit proposal credential (job ∷ jobs) now rows {r} h =
    elim (Option-cases (validate_new_job job)) [
      | inr (e, p) ↦ absurd (ground (arith, p))
      | inl p ↦ elim (Bool-cases (belongs_to proposal credential job)) [
        | inr q ↦ absurd (ground (arith, p, q))
        | inl q ↦ elim (Option-cases (insert (queued_job job now) rows)) [
          | inl m ↦ absurd (ground (arith, p, q, m))
          | inr (middle, m) ↦
              elim (Outcome-cases (admit_proposal proposal credential jobs now middle)) [
                | inr (e, c) ↦ absurd (ground (arith, p, q, m, c))
                | inl (rest, c) ↦
                    let ih =
                      admit_proposal-admit proposal credential jobs now middle {r = rest} c in
                    (ground (arith, p, q, m, c, ih.0), (q, ih.1))
              ]
        ]
      ]
    ]

active-append :
    (rows more : Rows) → active_count (rows ++ more) ≡ active_count rows + active_count more
active-append [] more = omega arith
active-append (j ∷ rows) more = ground (arith, active-append rows more)

active-queued_rows :
    (now : Text) (jobs : List Job) → active_count (queued_rows now jobs) ≡ length jobs
unfolding queued_job
active-queued_rows now [] = refl
active-queued_rows now (j ∷ jobs) = ap suc (active-queued_rows now jobs)

-- What the two submissions do once the guards are passed.
pub record Committed (jobs : List Job) (now : Text) (s : Scheduler) (out : List Job)
    (after : Scheduler) : Type 0 where
  pub rows : Rows
  pub admitted : admit jobs now s.rows ≡ ok (out, rows)
  pub state : after ≡ record s { rows = rows }
  pub room : active_count s.rows + length jobs ≤ s.limits.queue_capacity

submit-inv :
    (jobs : List Job) (now : Text) (s : Scheduler) (out : List Job)
    → (submit jobs now s).0 ≡ ok out
    → Committed jobs now s out (submit jobs now s).1
unfolding submit
submit-inv jobs now s out h = elim (Outcome-cases (admit jobs now s.rows)) [
  | inr (e, p) ↦ absurd (ground (arith, p))
  | inl ((o, rows), p) ↦ record {
    rows = rows;
    admitted = ground (arith, p);
    state = ground (arith, p);
    room = ground (arith, p);
  }
]

submit_err :
    (jobs : List Job) (now : Text) (s : Scheduler) (e : JobError)
    → (submit jobs now s).0 ≡ err e
    → (submit jobs now s).1 ≡ s
unfolding submit
submit_err jobs now s e h = ground arith

-- The jobs returned are the batch as queued rows, which were appended within the capacity.
abbrev pub AdmitsAll : List Job → Text → Scheduler → List Job → Scheduler → Type 0
AdmitsAll jobs now s out after =
    (out ≡ queued_rows now jobs)
    × (after ≡ record s { rows = s.rows ++ queued_rows now jobs })
    × (active_count after.rows ≡ active_count s.rows + length jobs)
    × (active_count after.rows ≤ s.limits.queue_capacity)

pub Committed-AdmitsAll :
    (jobs : List Job) (now : Text) (s : Scheduler) (out : List Job) (after : Scheduler)
    → Committed jobs now s out after
    → AdmitsAll jobs now s out after
Committed-AdmitsAll jobs now s out after c =
    let a = admit-Admission jobs now s.rows out c.rows c.admitted in
    let e : after ≡ record s { rows = s.rows ++ queued_rows now jobs } =
      c.state ∙ ap (λ (r : Rows). record s { rows = r }) a.appended in
    let n : active_count after.rows ≡ active_count s.rows + length jobs =
      ap (λ (x : Scheduler). active_count x.rows) e
      ∙ active-append s.rows (queued_rows now jobs)
      ∙ ap (λ (k : ℕ). active_count s.rows + k) (active-queued_rows now jobs) in
    (a.returned, e, n, omega (arith, c.room))

-- `Submit` is all or nothing. Where it returns jobs, these are exactly the batch, each queued with no
-- result, appended to the rows, and the active jobs are then within the capacity and as many more as
-- the batch is long; where it returns an error, the scheduler is as it was.
pub submit_all_or_nothing :
    (jobs : List Job) (now : Text) (s : Scheduler)
    → ((out : List Job)
        → (submit jobs now s).0 ≡ ok out
        → AdmitsAll jobs now s out (submit jobs now s).1)
      × ((e : JobError) → (submit jobs now s).0 ≡ err e → (submit jobs now s).1 ≡ s)
submit_all_or_nothing jobs now s = (
  λ out h. Committed-AdmitsAll jobs now s out _ (submit-inv jobs now s out h),
  submit_err jobs now s,
)

pub submit_proposal-inv :
    (proposal credential : Text) (jobs : List Job) (now : Text) (s : Scheduler) (out : List Job)
    → proposal_count proposal s.rows ≡ 0
    → (submit_proposal proposal credential jobs now s).0 ≡ ok out
    → Committed jobs now s out (submit_proposal proposal credential jobs now s).1
      × All (λ j. belongs_to proposal credential j ≡ true) jobs
unfolding submit_proposal
submit_proposal-inv proposal credential jobs now s out fresh h =
    elim (Outcome-cases (admit_proposal proposal credential jobs now s.rows)) [
      | inr (e, p) ↦ absurd (ground (arith, p))
      | inl ((o, rows), p) ↦
          let q = admit_proposal-admit proposal credential jobs now s.rows p in
          (
            record {
              rows = rows;
              admitted = ground (arith, p, q.0);
              state = ground (arith, p);
              room = ground (arith, p);
            },
            q.1,
          )
    ]
