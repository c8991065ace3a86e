-- ===== src/Jobs/Batches.antt =====
-- The derived state of a batch, by counting, against its description by quantifiers; and restart.
use videocutlist.Prelude.{
  ◌≤◌, Bool, Option, none, some, List, [], ◌∷◌, ◌≡◌, refl, arith, ◌==◌, ltb, count, length, any,
  all, if◌then◌else◌,
}
use videocutlist.Prelude.Text.{Text}
use videocutlist.Prelude.Outcome.{ok, err}
use videocutlist.Jobs.Defs.{
  Job, JobState, queued, running, succeeded, failed, cancelled, job_not_found, state_eq,
  is_terminal,
}
use videocutlist.Jobs.Table.{Rows, update, find}
use videocutlist.Jobs.Store.{batch, in_batch, recover, interrupted}
use videocutlist.Jobs.Transitions.{find-update}

module _ {ℓ} {A : Type ℓ} (p : A → Bool) where
  count-le-length : (xs : List A) → count p xs ≤ length xs
  count-le-length [] = omega arith
  count-le-length (x ∷ xs) = ground (arith, count-le-length xs)

  count-all : (xs : List A) → (count p xs == length xs) ≡ all p xs
  count-all [] = refl
  count-all (x ∷ xs) = ground (arith, count-all xs, count-le-length xs)

  count-any : (xs : List A) → ltb 0 (count p xs) ≡ any p xs
  count-any [] = refl
  count-any (x ∷ xs) = ground (arith, count-any xs)

-- What the state of a batch means.
abbrev pub batch_meaning : Rows → JobState
batch_meaning jobs =
    if all (λ j. is_terminal j.state) jobs
    then if any (λ j. state_eq j.state failed) jobs
      then failed
      else if any (λ j. state_eq j.state cancelled) jobs
      then cancelled
      else succeeded
    else if any (λ j. state_eq j.state running) jobs
    then running
    else queued

-- A batch that has a job is failed, cancelled or succeeded only when every job of it is over: failed
-- if any failed, else cancelled if any was cancelled, else succeeded. Before that it is running if any
-- of its jobs runs, else queued. Its progress is the number of jobs that are over, out of all.
-- A batch with no job is not found.
pub batch_lem :
    (id : Text) (rows : Rows)
    → batch id rows ≡ (
        if length (in_batch id rows) == 0
        then err job_not_found
        else ok (
          batch_meaning (in_batch id rows),
          (count (λ j. is_terminal j.state) (in_batch id rows), length (in_batch id rows)),
        ))
unfolding batch
batch_lem id rows = ground (
  arith,
  count-all (λ (j : Job). is_terminal j.state) (in_batch id rows),
  count-any (λ (j : Job). state_eq j.state failed) (in_batch id rows),
  count-any (λ (j : Job). state_eq j.state cancelled) (in_batch id rows),
  count-any (λ (j : Job). state_eq j.state running) (in_batch id rows),
)

abbrev pub recovered : Text → Option Job → Option Job
recovered now none = none
recovered now (some j) = some (
    if state_eq j.state running
    then record j { state = failed; error_code = some interrupted; updated_at = now }
    else j)

no_running :
    (now : Text) (rows : Rows) → count (λ j. state_eq j.state running) (recover now rows).1 ≡ 0
unfolding recover update
no_running now [] = refl
no_running now (j ∷ rows) = ground (arith, no_running now rows)

-- After a restart no job is running: exactly those that were have failed as interrupted, each other
-- job is as it was, and the answer is how many there were.
pub recover_lem :
    (now : Text) (rows : Rows)
    → let (n, after) = recover now rows in
      (count (λ j. state_eq j.state running) after ≡ 0)
      × (n ≡ count (λ j. state_eq j.state running) rows)
      × ((id : Text) → find id after ≡ recovered now (find id rows))
recover_lem now rows =
    (no_running now rows, unfold recover in refl, λ id. recovered-find now rows id)
  where
    recovered-find :
        (now : Text) (rows : Rows) (id : Text)
        → find id (recover now rows).1 ≡ recovered now (find id rows)
    recovered-find now rows id =
        unfold recover in
        ground (
          arith,
          find-update (λ j. state_eq j.state running)
              (λ j. record j { state = failed; error_code = some interrupted; updated_at = now })
              (λ _. refl) id rows,
        )
