-- ===== src/Mcp/Walks.antt =====
-- A client that follows the cursors of `List` to the end sees every credential once
-- (internal/mcp/credentials.go).
use videocutlist.Prelude.{
  ◌≡◌, refl, sym, ap, subst, ◌∙◌, ℕ, zero, suc, ◌<◌, ◌≤◌, true, false, not, ◌&&◌, Option, none,
  some, List, [], ◌∷◌, ◌++◌, leb, All, length, arith, Bool-cases, inl, inr,
}
use videocutlist.Prelude.Int.{ℤ}
use videocutlist.Prelude.Text.{Text, text_ltb, is_empty}
use videocutlist.Prelude.Outcome.{ok, err}
use videocutlist.Mcp.Ids.{valid_credential_id, has_prefix}
use videocutlist.Mcp.Scopes.{Credential}
use videocutlist.Mcp.Table.{CredentialRecord, Credentials}
use videocutlist.Mcp.Listing.{take, insert_by_id, order_by_id, list}
use videocutlist.Mcp.Ordered.{
  UniqueRows, After, Ascending, beyond, drop, All-order, All-drop, order-Ascending, beyond-All,
  beyond-beyond,
}
use videocutlist.Mcp.Paging.{
  credentials_of, Reads, page_of, last_id-beyond, beyond-After, take-drop, length-drop,
  drop-Ascending, bounded_limit-positive, list-page_of,
}

-- A client's walk: it asks for a page after another as long as it is given a cursor, at most `fuel`
-- times, and puts the pages one after another.
unfoldable pub walk : ℕ → Text → ℤ → Credentials → Option (List Credential)
walk zero cursor limit rows = none
walk (suc fuel) cursor limit rows = elim (list cursor limit rows) [
  | err e ↦ none
  | ok (page, next) ↦ elim next [
    | none ↦ some page
    | some c ↦ elim (walk fuel c limit rows) [ none ↦ none | some more ↦ some (page ++ more) ]
  ]
]

-- A place in the walk: what is beyond the cursor is still to be seen.
record Place (cursor : Text) (rows rest : Credentials) : Type 0 where
  cursor_good : (not (is_empty cursor) && not (valid_credential_id cursor)) ≡ false
  to_see : beyond cursor (order_by_id rows) ≡ rest
  in_order : Ascending rest
  readable : All Reads rest

length-insert :
    (r : CredentialRecord) (rows : Credentials) → length (insert_by_id r rows) ≡ suc (length rows)
unfolding insert_by_id
length-insert r [] = refl
length-insert r (k ∷ rows) = ground (arith, length-insert r rows)

All-valid :
    (rows : Credentials)
    → All Reads rows
    → All (λ r. valid_credential_id r.credential.id ≡ true) rows
All-valid [] a = tt
All-valid (r ∷ rows) (p, a) = (p.1, All-valid rows a)

valid_after : (id : Text) → valid_credential_id id ≡ true → text_ltb [] id ≡ true
unfolding valid_credential_id has_prefix text_ltb
valid_after [] h = absurd (cc h)
valid_after (c ∷ id) h = refl

All-After : (rows : Credentials) → All Reads rows → All (After []) rows
All-After [] a = tt
All-After (r ∷ rows) (p, a) = (valid_after r.credential.id p.1, All-After rows a)

length-order : (rows : Credentials) → length (order_by_id rows) ≡ length rows
unfolding order_by_id
length-order [] = refl
length-order (r ∷ rows) = length-insert r (order_by_id rows) ∙ ap suc (length-order rows)

walk-rest :
    (fuel : ℕ) (cursor : Text) (limit : ℤ) (rows rest : Credentials)
    → All Reads rows
    → Place cursor rows rest
    → length rest < fuel
    → walk fuel cursor limit rows ≡ some (credentials_of rest)
unfolding walk
walk-rest zero cursor limit rows rest a p h = absurd (omega (arith, h))
walk-rest (suc fuel) cursor limit rows rest a p h =
    let (m, n) = bounded_limit-positive limit in
    let page =
      list-page_of cursor limit m rows p.cursor_good n a
      ∙ ap (λ x. ok (page_of (suc m) [] x)) p.to_see in
    elim (Bool-cases (leb (length rest) (suc m))) [
      | inl last ↦
          let whole : list cursor limit rows ≡ ok (credentials_of rest, none) =
            page ∙ rw last refl in
          rw (walk, whole) refl
      | inr more ↦
          let (c, e, f, g) = last_id-beyond m rest p.in_order (beyond_one m more) in
          let part : list cursor limit rows ≡ ok (credentials_of (take (suc m) rest), some c) =
            page ∙ rw (more, e) refl in
          rw (walk, part)
            (rw
              (walk-rest fuel c limit rows (drop (suc m) rest) a (next m c f g)
                (shorter m (beyond_one m more)))
              (ap some (take-drop (suc m) rest)))
    ]
  where
    beyond_one : (m : ℕ) → leb (length rest) (suc m) ≡ false → suc m ≤ length rest
    beyond_one m more = ground (arith, more)

    shorter : (m : ℕ) → suc m ≤ length rest → length (drop (suc m) rest) < fuel
    shorter m more = omega (arith, h, more, length-drop (suc m) rest)

    next :
        (m : ℕ) (c : Text)
        → beyond c rest ≡ drop (suc m) rest
        → ((P : Text → Type 0) → All (λ r. P r.credential.id) rest → P c)
        → Place c rows (drop (suc m) rest)
    next m c f g = record {
      cursor_good =
          rw (g (λ t. valid_credential_id t ≡ true) (All-valid rest p.readable)) (ground arith);
      to_see =
          sym (
            beyond-beyond cursor c (order_by_id rows) (
              g (λ t. text_ltb cursor t ≡ true)
                (subst (All (After cursor)) p.to_see (beyond-After cursor (order_by_id rows)))))
          ∙ ap (beyond c) p.to_see
          ∙ f;
      in_order = drop-Ascending (suc m) rest p.in_order;
      readable = All-drop Reads (suc m) rest p.readable;
    }

-- A walk from the empty cursor that is allowed more steps than there are rows ends, whatever the size
-- of a page, and has seen every credential once, in the order of the ids; the ids are unlike each
-- other, and every row is one that is read as it stands.
pub walk_complete :
    (rows : Credentials) (limit : ℤ) (fuel : ℕ)
    → UniqueRows rows
    → All Reads rows
    → length rows < fuel
    → walk fuel [] limit rows ≡ some (credentials_of (order_by_id rows))
unfolding is_empty
walk_complete rows limit fuel u a h =
    walk-rest fuel [] limit rows (order_by_id rows) a
      (record {
        cursor_good = refl;
        to_see =
            beyond-All [] (order_by_id rows)
              (All-After (order_by_id rows) (All-order Reads rows a));
        in_order = order-Ascending rows u;
        readable = All-order Reads rows a;
      })
      (omega (arith, h, length-order rows))
