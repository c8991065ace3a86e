-- ===== src/Proposals/Approval.antt =====
-- What an approval changes (internal/mcp/proposals.go).
use videocutlist.Prelude.{
  ◌≡◌, ◌⊎◌, refl, sym, ap, ◌∙◌, ℕ, true, false, Option, none, some, [], ◌∷◌, ◌==◌, leb, count,
  arith, Bool-cases, Option-cases, inl, inr,
}
use videocutlist.Prelude.Text.{Text, text_eq_iff, text_ltb}
use videocutlist.Prelude.Outcome.{ok, Outcome-cases}
use videocutlist.Mcp.Table.{Platform}
use videocutlist.Proposals.Store.{
  ExportProposal, Proposals, find_proposal, update_proposals, has_proposal_id, get_proposal,
  is_open, approved, approve,
}

-- The row that `k` finds is as it was, or it is the row of `id`, which had not expired, and now has the
-- time of an approval that it did not have.
abbrev pub Approves : Platform → Text → Text → ℕ → Proposals → ExportProposal → Type 0
Approves sys k id now rows' p =
    (find_proposal k rows' ≡ some p)
    ⊎ ((k ≡ id)
        × (p.approved_at ≡ none)
        × (text_ltb (sys.format_time now) (sys.format_time p.expires_at) ≡ true)
        × (find_proposal k rows' ≡ some (record p { approved_at = some now })))

approved-some : (now t : ℕ) (p : ExportProposal) → p.approved_at ≡ some t → approved now p ≡ p
approved-some now t p h = ap (λ x. record p { approved_at = x }) (again p.approved_at h)
  where
    again :
        (o : Option ℕ)
        → o ≡ some t
        → (elim o as (λ x. Option ℕ) [ none ↦ some now | some u ↦ some u ]) ≡ o
    again none h = absurd (cc h)
    again (some u) h = refl

approved-none :
    (now : ℕ) (p : ExportProposal)
    → p.approved_at ≡ none
    → approved now p ≡ record p { approved_at = some now }
approved-none now p h = rw h refl

update_proposals-Approves :
    (sys : Platform) (k id : Text) (now : ℕ) (rows : Proposals) (p : ExportProposal)
    → find_proposal k rows ≡ some p
    → Approves sys k id now (update_proposals (is_open sys id now) (approved now) rows) p
unfolding find_proposal update_proposals
update_proposals-Approves sys k id now [] p h = absurd (cc h)
update_proposals-Approves sys k id now (q ∷ rows) p h = elim (Bool-cases (has_proposal_id k q)) [
  | inr miss ↦
      let ih = update_proposals-Approves sys k id now rows p (ground (arith, h, miss)) in
      elim (Bool-cases (is_open sys id now q)) [
        | inl open_row ↦ rw (open_row, miss) ih
        | inr shut ↦ rw (shut, miss) ih
      ]
  | inl hit ↦
      let own : q ≡ p = ground (arith, h, hit) in
      elim (Bool-cases (is_open sys id now q)) [
        | inr shut ↦ inl (rw (shut, hit) (ap some own))
        | inl open_row ↦ elim (Option-cases q.approved_at) [
          | inr (t, at) ↦ inl (rw (open_row, hit) (ap some (approved-some now t q at ∙ own)))
          | inl at ↦ inr (
            sym ((text_eq_iff q.id k).0 hit) ∙ (text_eq_iff q.id id).0 (ground (arith, open_row)),
            ap (λ (x : ExportProposal). x.approved_at) (sym own) ∙ at,
            ap
                  (λ (x : ExportProposal).
                    text_ltb (sys.format_time now) (sys.format_time x.expires_at))
                  (sym own)
                ∙ ground (arith, open_row),
            rw (open_row, hit)
                (ap some (
                  approved-none now q at
                  ∙ ap (λ (x : ExportProposal). record x { approved_at = some now }) own)),
          )
        ]
      ]
]

-- An approval changes no row but by giving the row of its id, unless that has expired, the time of its
-- first approval; no row that is approved changes at all, so no approval is withdrawn or moved, and
-- what was prepared stays. Only a proposal that is stored and has not expired is answered.
pub approve-Approves :
    (sys : Platform) (k id : Text) (checked now : ℕ) (rows : Proposals) (p q : ExportProposal)
    → find_proposal k rows ≡ some p
    → Approves sys k id now (approve sys id checked now rows).1 p
      × ((approve sys id checked now rows).0 ≡ ok q
          → (r : ExportProposal) × (get_proposal id rows ≡ ok r)
            × (leb r.expires_at checked ≡ false))
unfolding approve
approve-Approves sys k id checked now rows p q h = (changed, answered)
  where
    changed : Approves sys k id now (approve sys id checked now rows).1 p
    changed = elim (Outcome-cases (get_proposal id rows)) [
      | inr (e, bad) ↦ rw (approve, bad) (inl h)
      | inl (r, stored) ↦ elim (Bool-cases (leb r.expires_at checked)) [
        | inl late ↦ rw (approve, stored, late) (inl h)
        | inr fresh ↦ elim (Bool-cases (count (is_open sys id now) rows == 1)) [
          | inl one ↦
              rw (approve, stored, fresh, one) (update_proposals-Approves sys k id now rows p h)
          | inr other ↦
              rw (approve, stored, fresh, other) (update_proposals-Approves sys k id now rows p h)
        ]
      ]
    ]

    answered :
        (approve sys id checked now rows).0 ≡ ok q
        → (r : ExportProposal) × (get_proposal id rows ≡ ok r) × (leb r.expires_at checked ≡ false)
    answered a = elim (Outcome-cases (get_proposal id rows)) [
      | inr (e, bad) ↦ absurd (ground (arith, a, bad))
      | inl (r, stored) ↦ elim (Bool-cases (leb r.expires_at checked)) [
        | inl late ↦ absurd (ground (arith, a, stored, late))
        | inr fresh ↦ (r, stored, fresh)
      ]
    ]
