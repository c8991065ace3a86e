-- ===== src/Jobs/Claim.antt =====
-- Claiming takes the first queued job: what `claim` of internal/jobs/scheduler.go picks and changes.
use videocutlist.Prelude.{
  Bool, true, false, Option, none, some, List, [], ◌∷◌, ◌≡◌, refl, sym, ◌∙◌, subst, ap, arith, ◌==◌,
  count, select, All, if◌then◌else◌, Bool-cases, inl, inr, ◌⊎◌, Option-cases,
}
use videocutlist.Prelude.Text.{Text, text_eq, text_eq_iff, text_ltb_irrefl, text_ltb_trans}
use videocutlist.Jobs.Defs.{Job, queued, state_eq}
use videocutlist.Jobs.Table.{
  Rows, find, update, order_by, insert_by, row_before, first, FreshId, UniqueIds,
}
use videocutlist.Jobs.Store.{is_at}
use videocutlist.Jobs.Lifecycle.{Moves}
use videocutlist.Jobs.Transitions.{find-update, count-is_at, is_at-find}
use videocutlist.Jobs.Evolution.{Evolution, Evolution-refl, update-Evolution}
use videocutlist.Jobs.Scheduler.{next_queued, started_at, claim}

row_before_irrefl : (a : Job) → row_before a a ≡ false
unfolding row_before
row_before_irrefl a = ground (arith, text_ltb_irrefl a.created_at, text_ltb_irrefl a.id)

row_before_trans :
    (a b c : Job) → row_before a b ≡ true → row_before b c ≡ true → row_before a c ≡ true
unfolding row_before
row_before_trans a b c h k = ground (
  arith,
  text_eq_iff a.created_at b.created_at,
  text_eq_iff b.created_at c.created_at,
  text_eq_iff a.created_at c.created_at,
  text_ltb_trans a.created_at b.created_at c.created_at,
  text_ltb_trans a.id b.id c.id,
)

-- `k` is one of the rows.
abbrev pub In : Job → Rows → Type 0
In k [] = ⊥
In k (j ∷ rows) = (j ≡ k) ⊎ In k rows

abbrev head_choice : Job → Option Job → Job
head_choice j none = j
head_choice j (some k) = if row_before j k then j else k

first-insert_by :
    (j : Job) (rows : Rows)
    → first (insert_by row_before j rows) ≡ some (head_choice j (first rows))
unfolding insert_by
first-insert_by j [] = refl
first-insert_by j (k ∷ rows) = ground arith

All-map {ℓ κ} :
    {A : Type ℓ} {P Q : A → Type κ} → ((a : A) → P a → Q a) → (xs : List A) → All P xs → All Q xs
All-map f [] h = tt
All-map f (x ∷ xs) h = (f x h.0, All-map f xs h.1)

first-cons :
    (j : Job) (rows : Rows)
    → first (order_by row_before (j ∷ rows))
      ≡ some (head_choice j (first (order_by row_before rows)))
unfolding order_by
first-cons j rows = first-insert_by j (order_by row_before rows)

first-empty : (rows : Rows) → first (order_by row_before rows) ≡ none → rows ≡ []
first-empty [] h = refl
first-empty (j ∷ rows) h = cc (h, first-cons j rows)

first-least :
    (rows : Rows) (k : Job)
    → first (order_by row_before rows) ≡ some k
    → All (λ m. row_before m k ≡ false) rows
first-least [] k h = tt
first-least (j ∷ rows) k h = elim (Option-cases (first (order_by row_before rows))) [
  | inl e ↦
      let nothing = first-empty rows e in
      (
        ground (arith, h, first-cons j rows, e, row_before_irrefl j),
        subst (λ (r : Rows). All (λ m. row_before m k ≡ false) r) (sym nothing) tt,
      )
  | inr (m, e) ↦ elim (Bool-cases (row_before j m)) [
    | inl new ↦
        let is_j : k ≡ j = ground (arith, h, first-cons j rows, e) in
        (
          rw is_j (row_before_irrefl j),
          All-map (λ x p. rw is_j (ground (arith, p, new, row_before_trans x j m))) rows
              (first-least rows m e),
        )
    | inr old ↦
        let is_m : k ≡ m = ground (arith, h, first-cons j rows, e) in
        (
          rw is_m old,
          subst (λ (x : Job). All (λ y. row_before y x ≡ false) rows) (sym is_m)
              (first-least rows m e),
        )
  ]
]

order_by-nil : first (order_by row_before []) ≡ none
unfolding order_by
order_by-nil = refl

first-In : (rows : Rows) (k : Job) → first (order_by row_before rows) ≡ some k → In k rows
first-In [] k h = cc (h, order_by-nil)
first-In (j ∷ rows) k h = elim (Option-cases (first (order_by row_before rows))) [
  | inl e ↦ inl (ground (arith, h, first-cons j rows, e))
  | inr (m, e) ↦ elim (Bool-cases (row_before j m)) [
    | inl new ↦ inl (ground (arith, h, first-cons j rows, e))
    | inr old ↦
        let is_m : k ≡ m = ground (arith, h, first-cons j rows, e) in
        inr (first-In rows k (e ∙ ap some (sym is_m)))
  ]
]

pub In-select :
    (p : Job → Bool) (k : Job) (rows : Rows) → In k (select p rows) → In k rows × (p k ≡ true)
In-select p k [] h = absurd h
In-select p k (j ∷ rows) h = elim (Bool-cases (p j)) [
  | inl hit ↦
      elim (subst (λ (b : Bool). In k (if b then j ∷ select p rows else select p rows)) hit h) [
        | inl e ↦ (inl e, rw (← e) hit)
        | inr m ↦ let (n, q) = In-select p k rows m in (inr n, q)
      ]
  | inr miss ↦
      let (n, q) =
        In-select p k rows
          (subst (λ (b : Bool). In k (if b then j ∷ select p rows else select p rows)) miss h) in
      (inr n, q)
]

All-select {ℓ} :
    (P : Job → Type ℓ) (p : Job → Bool) (rows : Rows)
    → All P (select p rows)
    → All (λ j. p j ≡ true → P j) rows
All-select P p [] h = tt
All-select P p (j ∷ rows) h = elim (Bool-cases (p j)) [
  | inl hit ↦
      let g = subst (λ (b : Bool). All P (if b then j ∷ select p rows else select p rows)) hit h in
      (λ _. g.0, All-select P p rows g.1)
  | inr miss ↦
      let g = subst (λ (b : Bool). All P (if b then j ∷ select p rows else select p rows)) miss h in
      (λ e. absurd (cc (e, miss)), All-select P p rows g)
]

In-fresh :
    (k : Job) (id : Text) (rows : Rows) → In k rows → FreshId id rows → text_eq k.id id ≡ false
In-fresh k id [] h f = absurd h
In-fresh k id (j ∷ rows) (inl e) f = rw (← e) (ground arith)
In-fresh k id (j ∷ rows) (inr m) f = In-fresh k id rows m (ground arith)

pub In-find : (k : Job) (rows : Rows) → In k rows → UniqueIds rows → find k.id rows ≡ some k
unfolding find
In-find k [] h u = absurd h
In-find k (j ∷ rows) (inl e) u = ground (arith, e, text_eq_iff j.id k.id)
In-find k (j ∷ rows) (inr m) u = ground (
  arith,
  In-fresh k j.id rows m u.0,
  text_eq_iff j.id k.id,
  text_eq_iff k.id j.id,
  In-find k rows m u.1,
)

pub started-Moves :
    (id now : Text) (j : Job) → is_at id queued j ≡ true → Moves j (started_at now j)
unfolding is_at started_at
started-Moves id now j at = record {
  forward = ground arith;
  same_work = record {
    id = refl;
    batch_id = refl;
    project_id = refl;
    project_item_id = refl;
    proposal_id = refl;
    credential_id = refl;
    kind = refl;
    request_json = refl;
    created_at = refl;
  };
  terminal_stays = λ t. absurd (ground arith);
}

started-KeepsId : (now : Text) (j : Job) → (started_at now j).id ≡ j.id
unfolding started_at
started-KeepsId now j = refl

next_queued-queued :
    (rows : Rows) (k : Job)
    → UniqueIds rows
    → next_queued rows ≡ some k
    → (find k.id rows ≡ some k) × (k.state ≡ queued)
unfolding next_queued
next_queued-queued rows k u h =
    let (m, q) =
      In-select (λ j. state_eq j.state queued) k rows
        (first-In (select (λ j. state_eq j.state queued) rows) k h) in
    (In-find k rows m u, ground (arith, q))

count-next :
    (rows : Rows) (k : Job)
    → UniqueIds rows
    → next_queued rows ≡ some k
    → count (is_at k.id queued) rows ≡ 1
count-next rows k u h =
    let (f, q) = next_queued-queued rows k u h in
    ground (arith, count-is_at k.id queued rows u, f, q)

-- What a claim took: the queued job that is first by the texts of creation time and id, which is
-- running now.
pub record Claimed (now : Text) (rows : Rows) (j : Job) (after : Rows) : Type 0 where
  pub taken : Job
  pub was_queued : (find taken.id rows ≡ some taken) × (taken.state ≡ queued)
  pub runs : j ≡ started_at now taken
  pub comes_first : All (λ m. state_eq m.state queued ≡ true → row_before m taken ≡ false) rows
  pub changes : (k : Text) → find k after ≡ (if text_eq k taken.id then some j else find k rows)

claim-some :
    (now : Text) (rows : Rows) (k : Job)
    → UniqueIds rows
    → next_queued rows ≡ some k
    → claim now rows ≡ (some (started_at now k), update (is_at k.id queued) (started_at now) rows)
unfolding claim
claim-some now rows k u h =
    let (f, q) = next_queued-queued rows k u h in
    let fu = find-update (is_at k.id queued) (started_at now) (started-KeepsId now) k.id rows in
    let w = is_at-find k.id k.id queued (started_at now) rows in
    rw (h, claim) (ground (arith, count-next rows k u h, f, q, fu, w, text_eq_iff k.id k.id))

claim-none : (now : Text) (rows : Rows) → next_queued rows ≡ none → claim now rows ≡ (none, rows)
unfolding claim
claim-none now rows h = rw (h, claim)

none-queued :
    (rows : Rows) → next_queued rows ≡ none → count (λ j. state_eq j.state queued) rows ≡ 0
unfolding next_queued
none-queued rows h = empty rows (first-empty (select (λ j. state_eq j.state queued) rows) h)
  where
    empty :
        (r : Rows)
        → select (λ j. state_eq j.state queued) r ≡ []
        → count (λ j. state_eq j.state queued) r ≡ 0
    empty [] e = refl
    empty (j ∷ r) e = ground (arith, empty r)

claimed_changes :
    (now : Text) (rows : Rows) (t : Job)
    → (find t.id rows ≡ some t) × (t.state ≡ queued)
    → (k : Text)
    → find k (update (is_at t.id queued) (started_at now) rows)
      ≡ (if text_eq k t.id then some (started_at now t) else find k rows)
claimed_changes now rows t (f, q) k =
    find-update (is_at t.id queued) (started_at now) (started-KeepsId now) k rows
    ∙ is_at-find t.id k queued (started_at now) rows
    ∙ elim (Bool-cases (text_eq k t.id)) [
      | inl same ↦ rw same (rw ((text_eq_iff k t.id).0 same) (ground (arith, f, q)))
      | inr other ↦ rw other
    ]

-- A claim takes the queued job that is first in the order of the stored texts of the creation times, and
-- then of the ids, and sets it, and no other job, running; it finds none exactly if no job is queued, and then it changes nothing.
pub claim_oldest :
    (now : Text) (rows : Rows)
    → UniqueIds rows
    → ((j : Job) → (claim now rows).0 ≡ some j → Claimed now rows j (claim now rows).1)
      × ((claim now rows).0 ≡ none
          → (count (λ j. state_eq j.state queued) rows ≡ 0) × ((claim now rows).1 ≡ rows))
claim_oldest now rows u = elim (Option-cases (next_queued rows)) [
  | inl e ↦ (
    λ j h. absurd (cc (h, claim-none now rows e)),
    λ _. (none-queued rows e, ap (λ (r : Option Job × Rows). r.1) (claim-none now rows e)),
  )
  | inr (t, e) ↦
      let c = claim-some now rows t u e in
      let q = next_queued-queued rows t u e in
      (
        λ j h.
            let is_started : j ≡ started_at now t = cc (h, c) in
            record {
              taken = t;
              was_queued = q;
              runs = is_started;
              comes_first = oldest rows t e;
              changes = λ k. rw c (rw is_started (claimed_changes now rows t q k));
            },
        λ h. absurd (cc (h, c)),
      )
]
  where
    oldest :
        (r : Rows) (t : Job)
        → next_queued r ≡ some t
        → All (λ m. state_eq m.state queued ≡ true → row_before m t ≡ false) r
    oldest r t e =
        All-select (λ m. row_before m t ≡ false) (λ j. state_eq j.state queued) r
          (first-least (select (λ j. state_eq j.state queued) r) t (unfold next_queued in e))

pub claim-Evolution : (now : Text) (rows : Rows) → Evolution rows (claim now rows).1
unfolding claim
claim-Evolution now rows = elim (Option-cases (next_queued rows)) [
  | inl e ↦ rw (e, claim) (Evolution-refl rows)
  | inr (t, e) ↦ elim (Bool-cases (count (is_at t.id queued) rows == 1)) [
    | inl one ↦
        rw (e, claim)
          (rw one (
            update-Evolution (is_at t.id queued) (started_at now) rows (started-KeepsId now)
              (started-Moves t.id now)))
    | inr other ↦ rw (e, claim) (rw other (Evolution-refl rows))
  ]
]
