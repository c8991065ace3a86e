-- ===== src/Jobs/Transitions.antt =====
-- A transition is a compare-and-set on one row: what it changes, and that it keeps the primary key.
use videocutlist.Prelude.{
  ℕ, Bool, true, Option, none, some, [], ◌∷◌, ◌≡◌, refl, ◌∙◌, arith, count, any, if◌then◌else◌, inl,
  inr, Option-cases,
}
use videocutlist.Prelude.Text.{Text, text_eq, text_eq_iff}
use videocutlist.Prelude.Outcome.{Outcome, ok, err}
use videocutlist.Jobs.Defs.{Job, JobState, JobError, job_not_found, job_state, state_eq}
use videocutlist.Jobs.Table.{Rows, find, update, FreshId, UniqueIds}
use videocutlist.Jobs.Store.{get, moved, is_at, transition}

state_eq→eq : (a b : JobState) → state_eq a b ≡ true → a ≡ b
state_eq→eq a b h = ground arith

state_eq_refl : (a : JobState) → state_eq a a ≡ true
state_eq_refl a = ground arith

-- A row that an update leaves with the same id.
abbrev pub KeepsId : (Job → Job) → Type 0
KeepsId f = (j : Job) → (f j).id ≡ j.id

abbrev pub changed : (Job → Bool) → (Job → Job) → Option Job → Option Job
changed p f none = none
changed p f (some j) = some (if p j then f j else j)

pub find-update :
    (p : Job → Bool) (f : Job → Job)
    → KeepsId f
    → (id : Text) (rows : Rows) → find id (update p f rows) ≡ changed p f (find id rows)
unfolding find update
find-update p f k id [] = refl
find-update p f k id (j ∷ rows) = ground (arith, k j, find-update p f k id rows)

fresh-update :
    (p : Job → Bool) (f : Job → Job)
    → KeepsId f
    → (id : Text) (rows : Rows)
    → any (λ j. text_eq j.id id) (update p f rows) ≡ any (λ j. text_eq j.id id) rows
unfolding update
fresh-update p f k id [] = refl
fresh-update p f k id (j ∷ rows) = ground (arith, k j, fresh-update p f k id rows)

pub update-UniqueIds :
    (p : Job → Bool) (f : Job → Job)
    → KeepsId f
    → (rows : Rows) → UniqueIds rows
    → UniqueIds (update p f rows)
unfolding update
update-UniqueIds p f k [] u = tt
update-UniqueIds p f k (j ∷ rows) u =
    let same : (if p j then f j else j).id ≡ j.id = ground (arith, k j) in
    (rw same (fresh-update p f k j.id rows ∙ u.0), update-UniqueIds p f k rows u.1)

pub update_nothing :
    (p : Job → Bool) (f : Job → Job) (rows : Rows) → count p rows ≡ 0 → update p f rows ≡ rows
unfolding update
update_nothing p f [] h = refl
update_nothing p f (j ∷ rows) h = ground (arith, update_nothing p f rows)

is_at-fresh :
    (id : Text) (from : JobState) (rows : Rows) → FreshId id rows → count (is_at id from) rows ≡ 0
unfolding is_at
is_at-fresh id from [] h = refl
is_at-fresh id from (j ∷ rows) h = ground (arith, is_at-fresh id from rows)

find-fresh : (id : Text) (rows : Rows) → FreshId id rows → find id rows ≡ none
unfolding find
find-fresh id [] h = refl
find-fresh id (j ∷ rows) h = ground (arith, find-fresh id rows)

-- Exactly the row with that id can be affected.
abbrev pub hits : JobState → Option Job → ℕ
hits from none = 0
hits from (some j) = if state_eq j.state from then 1 else 0

pub count-is_at :
    (id : Text) (from : JobState) (rows : Rows)
    → UniqueIds rows
    → count (is_at id from) rows ≡ hits from (find id rows)
unfolding is_at find
count-is_at id from [] u = refl
count-is_at id from (j ∷ rows) u =
    ground
      (arith, text_eq_iff j.id id, count-is_at id from rows u.1, is_at-fresh j.id from rows u.0)

-- What a compare-and-set from one state answers, for the row that the id finds.
abbrev pub cas : JobState → (Job → Job) → Option Job → Outcome JobError Job
cas from f none = err job_not_found
cas from f (some j) = if state_eq j.state from then ok (f j) else err job_state

-- The row that is found under an id after the set.
abbrev pub cas_row : JobState → (Job → Job) → Option Job → Option Job
cas_row from f none = none
cas_row from f (some j) = some (if state_eq j.state from then f j else j)

pub moved-KeepsId : (to : JobState) (r c : Option Text) (now : Text) → KeepsId (moved to r c now)
unfolding moved
moved-KeepsId to r c now j = refl

pub find-id : (id : Text) (rows : Rows) (j : Job) → find id rows ≡ some j → j.id ≡ id
unfolding find
find-id id [] j h = cc
find-id id (k ∷ rows) j h = ground (arith, text_eq_iff k.id id, find-id id rows j)

pub is_at-find :
    (id k : Text) (from : JobState) (f : Job → Job) (rows : Rows)
    → changed (is_at id from) f (find k rows)
      ≡ (if text_eq k id then cas_row from f (find k rows) else find k rows)
unfolding is_at
is_at-find id k from f rows = elim (Option-cases (find k rows)) [
  | inl e ↦ rw e (ground arith)
  | inr (j, e) ↦ rw e (ground (arith, find-id k rows j e))
]

pub transition-rows :
    (id : Text) (from to : JobState) (r c : Option Text) (now : Text) (rows : Rows)
    → (transition id from to r c now rows).1 ≡ update (is_at id from) (moved to r c now) rows
unfolding transition
transition-rows id from to r c now rows = ground arith

module _ (id : Text) (from to : JobState) (r c : Option Text) (now : Text) (rows : Rows)
    (u : UniqueIds rows) where
  found_after :
      find id (update (is_at id from) (moved to r c now) rows)
      ≡ cas_row from (moved to r c now) (find id rows)
  found_after =
      let m = find-update (is_at id from) (moved to r c now) (moved-KeepsId to r c now) id rows in
      let w = is_at-find id id from (moved to r c now) rows in
      ground (arith, m, w, text_eq_iff id id)

  transition-answer :
      (transition id from to r c now rows).0 ≡ cas from (moved to r c now) (find id rows)
  unfolding transition get
  transition-answer = ground (arith, found_after, count-is_at id from rows u)

  transition-find :
      (k : Text)
      → find k (transition id from to r c now rows).1
        ≡ (if text_eq k id then cas_row from (moved to r c now) (find k rows) else find k rows)
  transition-find k = rw (transition-rows id from to r c now rows) (
      find-update (is_at id from) (moved to r c now) (moved-KeepsId to r c now) k rows
      ∙ is_at-find id k from (moved to r c now) rows)

  transition_err-rows :
      (e : JobError)
      → (transition id from to r c now rows).0 ≡ err e
      → (transition id from to r c now rows).1 ≡ rows
  transition_err-rows e h =
      transition-rows id from to r c now rows
      ∙ update_nothing (is_at id from) (moved to r c now) rows
          (ground (arith, transition-answer, h, count-is_at id from rows u))

  -- A transition is a compare-and-set of one job: it answers with the moved job if the job is in the
  -- expected state, with the invalid-transition error if it is in another, and with not-found if
  -- there is no such job; it changes that row alone, and no row at all where it answers an error.
  pub transition-cas :
      let after = transition id from to r c now rows in
      (after.0 ≡ cas from (moved to r c now) (find id rows))
      × ((k : Text)
          → find k after.1
            ≡ (if text_eq k id then cas_row from (moved to r c now) (find k rows) else find k rows))
      × ((e : JobError) → after.0 ≡ err e → after.1 ≡ rows)
  transition-cas = (transition-answer, transition-find, transition_err-rows)

  pub transition-UniqueIds : UniqueIds (transition id from to r c now rows).1
  transition-UniqueIds =
      rw (transition-rows id from to r c now rows)
        (update-UniqueIds (is_at id from) (moved to r c now) (moved-KeepsId to r c now) rows u)
