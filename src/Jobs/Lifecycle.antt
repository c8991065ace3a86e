-- ===== src/Jobs/Lifecycle.antt =====
-- How rows evolve: every statement that changes rows moves a job forward only, keeps what was asked
-- of it, and leaves a job in a terminal state as it is.
use videocutlist.Prelude.{
  Bool, true, false, Option, none, some, [], ◌∷◌, ◌++◌, ◌≡◌, refl, sym, ◌∙◌, subst, arith, any,
  Bool-cases, inl, inr, ◌||◌,
}
use videocutlist.Prelude.Text.{Text, text_eq, text_eq_comm}
use videocutlist.Jobs.Defs.{Job, JobState, queued, running, state_eq, is_terminal}
use videocutlist.Jobs.Table.{Rows, find, update, insert, FreshId, UniqueIds, same_proposal_item}
use videocutlist.Jobs.Transitions.{KeepsId, find-update, changed}

-- The state diagram, closed under composition.
abbrev pub can_reach : JobState → JobState → Bool
can_reach queued _ = true
can_reach running queued = false
can_reach running _ = true
can_reach a b = state_eq a b

-- What identifies a job and what was asked of it.
pub record SameWork (j k : Job) : Type 0 where
  pub id : k.id ≡ j.id
  pub batch_id : k.batch_id ≡ j.batch_id
  pub project_id : k.project_id ≡ j.project_id
  pub project_item_id : k.project_item_id ≡ j.project_item_id
  pub proposal_id : k.proposal_id ≡ j.proposal_id
  pub credential_id : k.credential_id ≡ j.credential_id
  pub kind : k.kind ≡ j.kind
  pub request_json : k.request_json ≡ j.request_json
  pub created_at : k.created_at ≡ j.created_at

pub record Moves (j k : Job) : Type 0 where
  pub forward : can_reach j.state k.state ≡ true
  pub same_work : SameWork j k
  pub terminal_stays : is_terminal j.state ≡ true → k ≡ j

abbrev pub Evolves : Option Job → Option Job → Type 0
Evolves none _ = Unit
Evolves (some j) none = ⊥
Evolves (some j) (some k) = Moves j k

-- Every job of the first rows is still there, and has moved at most forward.
pub record Follows (before after : Rows) : Type 0 where
  pub at : (id : Text) → Evolves (find id before) (find id after)

SameWork-refl : (j : Job) → SameWork j j
SameWork-refl j = ground arith

SameWork-trans : (i j k : Job) → SameWork i j → SameWork j k → SameWork i k
SameWork-trans i j k a b = record {
  id = b.id ∙ a.id;
  batch_id = b.batch_id ∙ a.batch_id;
  project_id = b.project_id ∙ a.project_id;
  project_item_id = b.project_item_id ∙ a.project_item_id;
  proposal_id = b.proposal_id ∙ a.proposal_id;
  credential_id = b.credential_id ∙ a.credential_id;
  kind = b.kind ∙ a.kind;
  request_json = b.request_json ∙ a.request_json;
  created_at = b.created_at ∙ a.created_at;
}

can_reach_refl : (a : JobState) → can_reach a a ≡ true
can_reach_refl a = ground arith

can_reach_trans :
    (a b c : JobState) → can_reach a b ≡ true → can_reach b c ≡ true → can_reach a c ≡ true
can_reach_trans a b c h k = ground arith

pub Moves-refl : (j : Job) → Moves j j
Moves-refl j = record {
  forward = can_reach_refl j.state;
  same_work = SameWork-refl j;
  terminal_stays = λ _. refl;
}

Moves-trans : (i j k : Job) → Moves i j → Moves j k → Moves i k
Moves-trans i j k a b = record {
  forward = can_reach_trans i.state j.state k.state a.forward b.forward;
  same_work = SameWork-trans i j k a.same_work b.same_work;
  terminal_stays = λ t.
      let e = a.terminal_stays t in
      b.terminal_stays (subst (λ (x : Job). is_terminal x.state ≡ true) (sym e) t) ∙ e;
}

Evolves-trans : (a b c : Option Job) → Evolves a b → Evolves b c → Evolves a c
Evolves-trans none b c h k = tt
Evolves-trans (some i) none c h k = absurd h
Evolves-trans (some i) (some j) none h k = k
Evolves-trans (some i) (some j) (some m) h k = Moves-trans i j m h k

Evolves-refl : (a : Option Job) → Evolves a a
Evolves-refl none = tt
Evolves-refl (some j) = Moves-refl j

pub Follows-refl : (rows : Rows) → Follows rows rows
Follows-refl rows = record { at = λ id. Evolves-refl (find id rows) }

pub Follows-trans : (a b c : Rows) → Follows a b → Follows b c → Follows a c
Follows-trans a b c h k = record {
  at = λ id. Evolves-trans (find id a) (find id b) (find id c) (h.at id) (k.at id);
}

Evolves-changed :
    (p : Job → Bool) (f : Job → Job) (o : Option Job)
    → ((j : Job) → p j ≡ true → Moves j (f j))
    → Evolves o (changed p f o)
Evolves-changed p f none h = tt
Evolves-changed p f (some j) h = elim (Bool-cases (p j)) [
  | inl hit ↦ rw hit (h j hit)
  | inr miss ↦ rw miss (Moves-refl j)
]

module _ (p : Job → Bool) (f : Job → Job) (rows : Rows) (k : KeepsId f) where
  -- An update evolves the rows if what it writes is a move of each row that it hits.
  pub update-Follows : ((j : Job) → p j ≡ true → Moves j (f j)) → Follows rows (update p f rows)
  update-Follows h = record {
    at = λ id. rw (find-update p f k id rows) (Evolves-changed p f (find id rows) h);
  }

find-append : (id : Text) (rows more : Rows) → Evolves (find id rows) (find id (rows ++ more))
unfolding find
find-append id [] more = tt
find-append id (j ∷ rows) more = elim (Bool-cases (text_eq j.id id)) [
  | inl hit ↦ rw hit (Moves-refl j)
  | inr miss ↦ rw miss (find-append id rows more)
]

pub insert-rows :
    (j : Job) (rows after : Rows) → insert j rows ≡ some after → after ≡ rows ++ j ∷ []
unfolding insert
insert-rows j rows after h = ground arith

pub insert-Follows : (j : Job) (rows after : Rows) → insert j rows ≡ some after → Follows rows after
insert-Follows j rows after h = record {
  at = λ id. rw (insert-rows j rows after h) (find-append id rows (j ∷ []));
}

any-append : (q : Job → Bool) (rows more : Rows) → any q (rows ++ more) ≡ (any q rows || any q more)
any-append q [] more = refl
any-append q (j ∷ rows) more = ground (arith, any-append q rows more)

fresh-of-insert : (j : Job) (rows after : Rows) → insert j rows ≡ some after → FreshId j.id rows
unfolding insert
fresh-of-insert j rows after h = any_weaker rows (ground arith)
  where
    any_weaker :
        (r : Rows)
        → any (λ k. text_eq k.id j.id || same_proposal_item j k) r ≡ false
        → FreshId j.id r
    any_weaker [] e = refl
    any_weaker (k ∷ r) e = ground (arith, any_weaker r)

append-UniqueIds :
    (j : Job) (rows : Rows) → FreshId j.id rows → UniqueIds rows → UniqueIds (rows ++ j ∷ [])
append-UniqueIds j [] f u = (refl, tt)
append-UniqueIds j (k ∷ rows) f u = (
  any-append (λ x. text_eq x.id k.id) rows (j ∷ []) ∙ ground (arith, u.0, text_eq_comm k.id j.id),
  append-UniqueIds j rows (ground arith) u.1,
)

pub insert-UniqueIds :
    (j : Job) (rows after : Rows) → insert j rows ≡ some after → UniqueIds rows → UniqueIds after
insert-UniqueIds j rows after h u =
    rw (insert-rows j rows after h) (append-UniqueIds j rows (fresh-of-insert j rows after h) u)
