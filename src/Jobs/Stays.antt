-- ===== src/Jobs/Stays.antt =====
-- A job that was there is among the rows later on, and among those that a query selects by its proposal.
use videocutlist.Prelude.{
  Bool, true, Option, some, List, [], ◌∷◌, ◌++◌, ◌≡◌, refl, ◌∙◌, subst, ap, arith, select, All,
  Bool-cases, inl, inr, ◌⊎◌, Option-cases,
}
use videocutlist.Prelude.Text.{Text, text_eq}
use videocutlist.Jobs.Defs.{Job}
use videocutlist.Jobs.Table.{Rows, find, order_by, insert_by, UniqueIds}
use videocutlist.Jobs.Lifecycle.{Moves, Evolves}
use videocutlist.Jobs.Evolution.{Evolution}
use videocutlist.Jobs.Claim.{In, In-find}

find-In : (id : Text) (rows : Rows) (k : Job) → find id rows ≡ some k → In k rows
unfolding find
find-In id [] k h = absurd (cc h)
find-In id (j ∷ rows) k h = elim (Bool-cases (text_eq j.id id)) [
  | inl hit ↦ inl (ground (arith, h, hit))
  | inr miss ↦ inr (find-In id rows k (ground (arith, h, miss)))
]

In-selected :
    (p : Job → Bool) (k : Job) (rows : Rows) → In k rows → p k ≡ true → In k (select p rows)
In-selected p k [] m h = absurd m
In-selected p k (j ∷ rows) m h = elim (Bool-cases (p j)) [
  | inl hit ↦ rw hit (elim m [ inl e ↦ inl e | inr n ↦ inr (In-selected p k rows n h) ])
  | inr miss ↦
      rw miss (elim m [ inl e ↦ absurd (cc (ap p e, miss, h)) | inr n ↦ In-selected p k rows n h ])
]

In-insert_by :
    (before : Job → Job → Bool) (j k : Job) (rows : Rows)
    → (j ≡ k) ⊎ In k rows
    → In k (insert_by before j rows)
unfolding insert_by
In-insert_by before j k [] m = m
In-insert_by before j k (i ∷ rows) m = elim (Bool-cases (before j i)) [
  | inl first ↦ rw first m
  | inr later ↦ rw later (elim m [
    | inl e ↦ inr (In-insert_by before j k rows (inl e))
    | inr n ↦ elim n [ inl e ↦ inl e | inr o ↦ inr (In-insert_by before j k rows (inr o)) ]
  ])
]

In-order_by :
    (before : Job → Job → Bool) (k : Job) (rows : Rows) → In k rows → In k (order_by before rows)
unfolding order_by
In-order_by before k [] m = absurd m
In-order_by before k (j ∷ rows) m =
    In-insert_by before j k (order_by before rows)
      (elim m [ inl e ↦ inl e | inr n ↦ inr (In-order_by before k rows n) ])

pub In-append : (k : Job) (a b : Rows) → In k b → In k (a ++ b)
In-append k [] b m = m
In-append k (j ∷ a) b m = inr (In-append k a b m)

-- One of the rows is the job, which has moved at most forward.
abbrev pub StillIn : Rows → Job → Type 0
StillIn rows j = (k : Job) × In k rows × Moves j k

pub later-StillIn :
    (before after : Rows) (j : Job)
    → UniqueIds before
    → Evolution before after
    → In j before
    → StillIn after j
later-StillIn before after j u evolution m =
    let was : Evolves (some j) (find j.id after) =
      subst (λ (o : Option Job). Evolves o (find j.id after)) (In-find j before m u)
        (evolution.follows.at j.id) in
    elim (Option-cases (find j.id after)) [
      | inl gone ↦ absurd (subst (λ (o : Option Job). Evolves (some j) o) gone was)
      | inr (k, there) ↦
          (k, find-In j.id after k there, subst (λ (o : Option Job). Evolves (some j) o) there was)
    ]

-- The job is also among the rows of its proposal, in any order.
pub listed-StillIn :
    (before : Job → Job → Bool) (p : Text) (rows : Rows) (j : Job)
    → text_eq j.proposal_id p ≡ true
    → StillIn rows j
    → StillIn (order_by before (select (λ k. text_eq k.proposal_id p) rows)) j
listed-StillIn before p rows j own (k, m, moves) =
    let same : text_eq k.proposal_id p ≡ true =
      ap (λ x. text_eq x p) moves.same_work.proposal_id ∙ own in
    (k, In-order_by before k _ (In-selected (λ k. text_eq k.proposal_id p) k rows m same), moves)

pub StillIn-All :
    (rows : Rows) (jobs : List Job)
    → ((j : Job) → In j jobs → StillIn rows j)
    → All (StillIn rows) jobs
StillIn-All rows [] h = tt
StillIn-All rows (j ∷ jobs) h = (h j (inl refl), StillIn-All rows jobs (λ k m. h k (inr m)))
