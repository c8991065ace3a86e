-- ===== src/Jobs/Evolution.antt =====
-- Every operation of the store and the scheduler evolves the rows and keeps the primary key.
use videocutlist.Prelude.{
  Bool, true, false, ◌&&◌, Option, none, some, ◌≡◌, refl, arith, if◌then◌else◌, inl, inr,
  Option-cases,
}
use videocutlist.Prelude.Text.{Text}
use videocutlist.Prelude.Outcome.{Outcome, err}
use videocutlist.Jobs.Defs.{
  Job, JobState, queued, running, succeeded, failed, cancelled, JobError, job_state, create_failed,
  state_eq, is_terminal, is_active, validate_new_job, queued_job,
}
use videocutlist.Jobs.Table.{Rows, find, update, insert, UniqueIds}
use videocutlist.Jobs.Store.{
  get, create, moved, is_at, transition, cancel, start, succeed, fail, fail_with_result, recover,
  interrupted, non_empty,
}
use videocutlist.Jobs.Transitions.{KeepsId, update-UniqueIds, moved-KeepsId, transition-rows}
use videocutlist.Jobs.Lifecycle.{
  can_reach, Moves, Follows, Follows-refl, Follows-trans, update-Follows, insert-Follows,
  insert-UniqueIds,
}

-- From unique ids: the ids stay unique, and the rows have only evolved.
pub record Evolution (before after : Rows) : Type 0 where
  pub unique : UniqueIds before → UniqueIds after
  pub follows : Follows before after

pub Evolution-refl : (rows : Rows) → Evolution rows rows
Evolution-refl rows = record { unique = λ u. u; follows = Follows-refl rows }

pub Evolution-trans : (a b c : Rows) → Evolution a b → Evolution b c → Evolution a c
Evolution-trans a b c h k = record {
  unique = λ u. k.unique (h.unique u);
  follows = Follows-trans a b c h.follows k.follows;
}

pub update-Evolution :
    (p : Job → Bool) (f : Job → Job) (rows : Rows)
    → KeepsId f
    → ((j : Job) → p j ≡ true → Moves j (f j))
    → Evolution rows (update p f rows)
update-Evolution p f rows k h = record {
  unique = update-UniqueIds p f k rows;
  follows = update-Follows p f rows k h;
}

pub insert-Evolution :
    (j : Job) (rows after : Rows) → insert j rows ≡ some after → Evolution rows after
insert-Evolution j rows after h = record {
  unique = insert-UniqueIds j rows after h;
  follows = insert-Follows j rows after h;
}

-- An edge of the state diagram that a transition may take.
abbrev pub is_edge : JobState → JobState → Bool
is_edge from to = can_reach from to && (if is_terminal from then false else true)

moved-Moves :
    (id : Text) (from to : JobState) (r c : Option Text) (now : Text)
    → is_edge from to ≡ true
    → (j : Job) → is_at id from j ≡ true
    → Moves j (moved to r c now j)
unfolding is_at moved
moved-Moves id from to r c now edge j at = record {
  forward = ground arith;
  same_work = record {
    id = refl;
    batch_id = refl;
    project_id = refl;
    project_item_id = refl;
    proposal_id = refl;
    credential_id = refl;
    kind = refl;
    request_json = refl;
    created_at = refl;
  };
  terminal_stays = λ t. absurd (ground arith);
}

pub transition-Evolution :
    (id : Text) (from to : JobState) (r c : Option Text) (now : Text) (rows : Rows)
    → is_edge from to ≡ true
    → Evolution rows (transition id from to r c now rows).1
transition-Evolution id from to r c now rows edge = rw (transition-rows id from to r c now rows) (
    update-Evolution (is_at id from) (moved to r c now) rows (moved-KeepsId to r c now)
      (moved-Moves id from to r c now edge))

pub create-Evolution :
    (job : Job) (now : Text) (rows : Rows) → Evolution rows (create job now rows).1
unfolding create
create-Evolution job now rows = elim (Option-cases (validate_new_job job)) [
  | inr (e, p) ↦ rw (p, create) (Evolution-refl rows)
  | inl p ↦ rw (p, create) (inserted (insert (queued_job job now) rows) refl)
]
  where
    inserted :
        (o : Option Rows)
        → insert (queued_job job now) rows ≡ o
        → Evolution rows
            (elim o as (λ _. Outcome JobError Job × Rows) [
              | none ↦ (err create_failed, rows)
              | some rows' ↦ (get job.id rows', rows')
            ]).1
    inserted none p = Evolution-refl rows
    inserted (some after) p = insert-Evolution (queued_job job now) rows after p

pub cancel-Evolution : (id now : Text) (rows : Rows) → Evolution rows (cancel id now rows).1
unfolding cancel
cancel-Evolution id now rows = elim (Option-cases (find id rows)) [
  | inl p ↦ rw (p, cancel) (Evolution-refl rows)
  | inr (j, p) ↦ rw (p, cancel) (from_state j.state)
]
  where
    from_state :
        (s : JobState)
        → Evolution rows
            (if is_active s
              then transition id s cancelled none none now rows
              else (err job_state, rows)).1
    from_state queued = transition-Evolution id queued cancelled none none now rows refl
    from_state running = transition-Evolution id running cancelled none none now rows refl
    from_state _ = Evolution-refl rows

module _ (id : Text) (rows : Rows) where
  pub start-Evolution : (now : Text) → Evolution rows (start id now rows).1
  unfolding start
  start-Evolution now = transition-Evolution id queued running none none now rows refl

  pub succeed-Evolution : (result now : Text) → Evolution rows (succeed id result now rows).1
  unfolding succeed
  succeed-Evolution result now =
      transition-Evolution id running succeeded (some result) none now rows refl

  pub fail-Evolution : (code now : Text) → Evolution rows (fail id code now rows).1
  unfolding fail
  fail-Evolution code now =
      transition-Evolution id running failed none (non_empty code) now rows refl

  pub fail_with_result-Evolution :
      (result code now : Text) → Evolution rows (fail_with_result id result code now rows).1
  unfolding fail_with_result
  fail_with_result-Evolution result code now =
      transition-Evolution id running failed (non_empty result) (non_empty code) now rows refl

recovered-Moves :
    (now : Text) (j : Job)
    → state_eq j.state running ≡ true
    → Moves j (record j { state = failed; error_code = some interrupted; updated_at = now })
recovered-Moves now j h = record {
  forward = ground arith;
  same_work = record {
    id = refl;
    batch_id = refl;
    project_id = refl;
    project_item_id = refl;
    proposal_id = refl;
    credential_id = refl;
    kind = refl;
    request_json = refl;
    created_at = refl;
  };
  terminal_stays = λ t. absurd (ground arith);
}

pub recover-Evolution : (now : Text) (rows : Rows) → Evolution rows (recover now rows).1
unfolding recover
recover-Evolution now rows = update-Evolution _ _ rows (λ _. refl) (recovered-Moves now)
