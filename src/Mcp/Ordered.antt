-- ===== src/Mcp/Ordered.antt =====
-- The rows of `mcp_credentials` in the order of their ids (internal/mcp/credentials.go, `List`).
use videocutlist.Prelude.{
  ◌≡◌, refl, ap, ◌∙◌, ℕ, zero, suc, true, false, [], ◌∷◌, if◌then◌else◌, any, All, select, arith,
  Bool-cases, inl, inr,
}
use videocutlist.Prelude.Text.{
  Text, text_eq, text_eq_refl, text_ltb, text_ltb_trans, text_ltb-total,
}
use videocutlist.Mcp.Sorting.{not_before}
use videocutlist.Mcp.Table.{CredentialRecord, Credentials, is_row}
use videocutlist.Mcp.Listing.{insert_by_id, order_by_id}

-- The primary key.
abbrev pub UniqueRows : Credentials → Type 0
UniqueRows [] = Unit
UniqueRows (r ∷ rows) = (any (is_row r.credential.id) rows ≡ false) × UniqueRows rows

abbrev pub After : Text → CredentialRecord → Type 0
After c r = text_ltb c r.credential.id ≡ true

abbrev pub Ascending : Credentials → Type 0
Ascending [] = Unit
Ascending (r ∷ rows) = All (After r.credential.id) rows × Ascending rows

-- WHERE id > ?
abbrev pub beyond : Text → Credentials → Credentials
beyond c = select (λ r. text_ltb c r.credential.id)

abbrev pub drop : ℕ → Credentials → Credentials
drop zero rows = rows
drop (suc n) [] = []
drop (suc n) (r ∷ rows) = drop n rows

pub All-insert {κ} :
    (P : CredentialRecord → Type κ) (r : CredentialRecord) (rows : Credentials)
    → P r
    → All P rows
    → All P (insert_by_id r rows)
unfolding insert_by_id
All-insert P r [] p h = (p, h)
All-insert P r (k ∷ rows) p (q, h) = elim (Bool-cases (text_ltb k.credential.id r.credential.id)) [
  | inl before ↦ rw before (q, All-insert P r rows p h)
  | inr after ↦ rw after (p, (q, h))
]

pub All-order {κ} :
    (P : CredentialRecord → Type κ) (rows : Credentials) → All P rows → All P (order_by_id rows)
unfolding order_by_id
All-order P [] h = h
All-order P (r ∷ rows) (p, h) = All-insert P r (order_by_id rows) p (All-order P rows h)

pub All-beyond {κ} :
    (P : CredentialRecord → Type κ) (c : Text) (rows : Credentials)
    → All P rows
    → All P (beyond c rows)
All-beyond P c [] h = h
All-beyond P c (r ∷ rows) (p, h) = elim (Bool-cases (text_ltb c r.credential.id)) [
  | inl hit ↦ rw hit (p, All-beyond P c rows h)
  | inr miss ↦ rw miss (All-beyond P c rows h)
]

pub All-drop {κ} :
    (P : CredentialRecord → Type κ) (n : ℕ) (rows : Credentials) → All P rows → All P (drop n rows)
All-drop P zero rows h = h
All-drop P (suc n) [] h = h
All-drop P (suc n) (r ∷ rows) (p, h) = All-drop P n rows h

later-After :
    (a b : Text) (rows : Credentials)
    → text_ltb a b ≡ true
    → All (After b) rows
    → All (After a) rows
later-After a b [] h k = k
later-After a b (r ∷ rows) h (p, k) =
    (text_ltb_trans a b r.credential.id h p, later-After a b rows h k)

-- No row has this id.
abbrev Unlike : Text → CredentialRecord → Type 0
Unlike id k = text_eq k.credential.id id ≡ false

insert-Ascending :
    (r : CredentialRecord) (rows : Credentials)
    → All (Unlike r.credential.id) rows
    → Ascending rows
    → Ascending (insert_by_id r rows)
unfolding insert_by_id
insert-Ascending r [] u h = (h, h)
insert-Ascending r (k ∷ rows) (n, u) (a, h) =
    elim (Bool-cases (text_ltb k.credential.id r.credential.id)) [
      | inl before ↦
          rw before
            (All-insert (After k.credential.id) r rows before a, insert-Ascending r rows u h)
      | inr after ↦ rw after ((first after, later-After _ _ rows (first after) a), (a, h))
    ]
  where
    first :
        text_ltb k.credential.id r.credential.id ≡ false
        → text_ltb r.credential.id k.credential.id ≡ true
    first after = elim (Bool-cases (text_ltb r.credential.id k.credential.id)) [
      | inl good ↦ good
      | inr bad ↦ absurd (
          cc (
            ap (λ x. text_eq x r.credential.id)
                (text_ltb-total k.credential.id r.credential.id after bad),
            n,
            text_eq_refl r.credential.id,
          ))
    ]

any-Unlike : (id : Text) (rows : Credentials) → any (is_row id) rows ≡ false → All (Unlike id) rows
any-Unlike id [] h = tt
any-Unlike id (r ∷ rows) h = (ground (arith, h), any-Unlike id rows (ground (arith, h)))

pub order-Ascending : (rows : Credentials) → UniqueRows rows → Ascending (order_by_id rows)
unfolding order_by_id
order-Ascending [] u = u
order-Ascending (r ∷ rows) (n, u) =
    insert-Ascending r (order_by_id rows)
      (All-order (Unlike r.credential.id) rows (any-Unlike r.credential.id rows n))
      (order-Ascending rows u)

beyond-insert :
    (c : Text) (r : CredentialRecord) (rows : Credentials)
    → beyond c (insert_by_id r rows)
      ≡ (if text_ltb c r.credential.id then insert_by_id r (beyond c rows) else beyond c rows)
unfolding insert_by_id
beyond-insert c r [] = ground arith
beyond-insert c r (k ∷ rows) = elim (Bool-cases (text_ltb k.credential.id r.credential.id)) [
  | inl before ↦ elim (Bool-cases (text_ltb c k.credential.id)) [
    | inr skipped ↦ rw (before, skipped) (beyond-insert c r rows)
    | inl kept ↦
        let last = text_ltb_trans c k.credential.id r.credential.id kept before in
        rw (before, kept, last, before) (ap (◌∷◌ k) (beyond-insert c r rows ∙ rw last refl))
  ]
  | inr after ↦ elim (Bool-cases (text_ltb c r.credential.id)) [
    | inr skipped ↦ rw (after, skipped) refl
    | inl kept ↦ elim (Bool-cases (text_ltb c k.credential.id)) [
      | inl next ↦ rw (after, kept, next, after) refl
      | inr gone ↦ absurd (cc (kept, not_before r.credential.id k.credential.id c after gone))
    ]
  ]
]

pub order-beyond :
    (c : Text) (rows : Credentials) → order_by_id (beyond c rows) ≡ beyond c (order_by_id rows)
unfolding order_by_id
order-beyond c [] = refl
order-beyond c (r ∷ rows) = elim (Bool-cases (text_ltb c r.credential.id)) [
  | inl hit ↦ rw (hit, order-beyond c rows, beyond-insert c r (order_by_id rows), hit) refl
  | inr miss ↦ rw (miss, order-beyond c rows, beyond-insert c r (order_by_id rows), miss) refl
]

pub beyond-All : (c : Text) (rows : Credentials) → All (After c) rows → beyond c rows ≡ rows
beyond-All c [] h = refl
beyond-All c (r ∷ rows) (p, h) = rw (p, beyond-All c rows h) refl

pub beyond-beyond :
    (c d : Text) (rows : Credentials)
    → text_ltb c d ≡ true
    → beyond d (beyond c rows) ≡ beyond d rows
beyond-beyond c d [] h = refl
beyond-beyond c d (r ∷ rows) h = elim (Bool-cases (text_ltb c r.credential.id)) [
  | inl hit ↦ elim (Bool-cases (text_ltb d r.credential.id)) [
    | inl both ↦ rw (hit, both) (ap (◌∷◌ r) (beyond-beyond c d rows h))
    | inr one ↦ rw (hit, one) (beyond-beyond c d rows h)
  ]
  | inr miss ↦ elim (Bool-cases (text_ltb d r.credential.id)) [
    | inl later ↦ absurd (cc (text_ltb_trans c d r.credential.id h later, miss))
    | inr one ↦ rw (miss, one) (beyond-beyond c d rows h)
  ]
]
