-- ===== src/Mcp/Paging.antt =====
-- What a page of credentials holds, and what its cursor leads to (internal/mcp/credentials.go, `List`).
use videocutlist.Prelude.{
  ◌≡◌, refl, ap, ◌∙◌, ℕ, zero, suc, ◌+◌, ◌-◌, ◌≤◌, true, false, not, ◌&&◌, none, some, List, [],
  ◌∷◌, ◌++◌, if◌then◌else◌, ◌==◌, leb, All, length, map, arith, Bool-cases, inl, inr,
}
use videocutlist.Prelude.Int.{ℤ, pos, negsuc}
use videocutlist.Prelude.Text.{Text, text_ltb, text_ltb_irrefl, is_empty}
use videocutlist.Prelude.Outcome.{ok}
use videocutlist.Mcp.Ids.{valid_credential_id}
use videocutlist.Mcp.Sorting.{ltb_asym}
use videocutlist.Mcp.Scopes.{Credential}
use videocutlist.Mcp.Table.{CredentialRecord, Credentials, scan_credential}
use videocutlist.Mcp.Listing.{Page, bounded_limit, take, order_by_id, last_id, collect_page, list}
use videocutlist.Mcp.Ordered.{
  After, Ascending, beyond, drop, All-order, All-beyond, order-beyond, beyond-All,
}

abbrev pub credentials_of : Credentials → List Credential
credentials_of = map (λ r. r.credential)

-- The row is read as it stands.
abbrev pub Reads : CredentialRecord → Type 0
Reads r = (scan_credential r ≡ ok r) × (valid_credential_id r.credential.id ≡ true)

append_assoc : (xs ys zs : List Credential) → (xs ++ ys) ++ zs ≡ xs ++ (ys ++ zs)
append_assoc [] ys zs = refl
append_assoc (x ∷ xs) ys zs = ap (◌∷◌ x) (append_assoc xs ys zs)

append_nil : (xs : List Credential) → xs ++ [] ≡ xs
append_nil [] = refl
append_nil (x ∷ xs) = ap (◌∷◌ x) (append_nil xs)

length-snoc : (xs : List Credential) (x : Credential) → length (xs ++ x ∷ []) ≡ suc (length xs)
length-snoc [] x = refl
length-snoc (y ∷ xs) x = ap suc (length-snoc xs x)

-- A page has all the rows, or the first `m` of them and a cursor.
abbrev pub page_of : ℕ → List Credential → Credentials → Page
page_of m got rows =
    if leb (length rows) m
    then (got ++ credentials_of rows, none)
    else (got ++ credentials_of (take m rows), last_id (got ++ credentials_of (take m rows)))

page_of-cons :
    (m : ℕ) (got : List Credential) (r : CredentialRecord) (rows : Credentials)
    → page_of m (got ++ r.credential ∷ []) rows ≡ page_of (suc m) got (r ∷ rows)
page_of-cons m got r rows =
    rw
      (
        append_assoc got (r.credential ∷ []) (credentials_of rows),
        append_assoc got (r.credential ∷ []) (credentials_of (take m rows)),
        same,
      )
      refl
  where
    same : leb (suc (length rows)) (suc m) ≡ leb (length rows) m
    same = ground arith

collect_page-page_of :
    (n m : ℕ) (got : List Credential) (rows : Credentials)
    → length got + m ≡ n
    → All Reads rows
    → collect_page n got (take (suc m) rows) ≡ ok (page_of m got rows)
unfolding collect_page
collect_page-page_of n m got [] h a = rw (append_nil got) (ground arith)
collect_page-page_of n zero got (r ∷ rows) h ((read, good), a) =
    let full : (length got == n) ≡ true = ground (arith, h) in
    let more : leb (suc (length rows)) 0 ≡ false = ground arith in
    rw (collect_page, read, full, more, append_nil got) refl
collect_page-page_of n (suc m) got (r ∷ rows) h ((read, good), a) =
    let room : (length got == n) ≡ false = ground (arith, h) in
    rw (collect_page, read, room)
      (collect_page-page_of n m (got ++ r.credential ∷ []) rows
          (omega (arith, h, length-snoc got r.credential)) a
        ∙ ap ok (page_of-cons m got r rows))

-- What the cursor of a full page leads to.
pub last_id-beyond :
    (m : ℕ) (rows : Credentials)
    → Ascending rows
    → suc m ≤ length rows
    → (c : Text) × (last_id (credentials_of (take (suc m) rows)) ≡ some c)
      × (beyond c rows ≡ drop (suc m) rows)
      × ((P : Text → Type 0) → All (λ r. P r.credential.id) rows → P c)
last_id-beyond m [] a h = absurd (omega (arith, h))
last_id-beyond zero (r ∷ rows) (a, b) h = (
  r.credential.id,
  refl,
  rw (text_ltb_irrefl r.credential.id) (beyond-All r.credential.id rows a),
  λ P p. p.0,
)
last_id-beyond (suc m) (r ∷ []) (a, b) h = absurd (omega (arith, h))
last_id-beyond (suc m) (r ∷ k ∷ rows) (a, b) h =
    let (c, e, f, g) = last_id-beyond m (k ∷ rows) b (omega (arith, h)) in
    let behind = ltb_asym r.credential.id c (g (λ t. text_ltb r.credential.id t ≡ true) a) in
    (c, e, rw behind f, λ P p. g P p.1)

pub beyond-After : (c : Text) (rows : Credentials) → All (After c) (beyond c rows)
beyond-After c [] = tt
beyond-After c (r ∷ rows) = elim (Bool-cases (text_ltb c r.credential.id)) [
  | inl hit ↦ rw hit (hit, beyond-After c rows)
  | inr miss ↦ rw miss (beyond-After c rows)
]

pub take-drop :
    (n : ℕ) (rows : Credentials)
    → credentials_of (take n rows) ++ credentials_of (drop n rows) ≡ credentials_of rows
take-drop zero rows = refl
take-drop (suc n) [] = refl
take-drop (suc n) (r ∷ rows) = ap (◌∷◌ r.credential) (take-drop n rows)

pub length-drop : (n : ℕ) (rows : Credentials) → length (drop n rows) ≡ length rows - n
length-drop zero rows = omega arith
length-drop (suc n) [] = omega arith
length-drop (suc n) (r ∷ rows) = omega (arith, length-drop n rows)

pub drop-Ascending : (n : ℕ) (rows : Credentials) → Ascending rows → Ascending (drop n rows)
drop-Ascending zero rows a = a
drop-Ascending (suc n) [] a = a
drop-Ascending (suc n) (r ∷ rows) (h, a) = drop-Ascending n rows a

pub bounded_limit-positive : (limit : ℤ) → (m : ℕ) × (bounded_limit limit 50 100 ≡ suc m)
unfolding bounded_limit
bounded_limit-positive (negsuc n) = (49, refl)
bounded_limit-positive (pos zero) = (49, refl)
bounded_limit-positive (pos (suc n)) = elim (Bool-cases (leb (suc n) 100)) [
  | inl within ↦ (n, ground (arith, within))
  | inr above ↦ (99, ground (arith, above))
]

pub list-page_of :
    (cursor : Text) (limit : ℤ) (m : ℕ) (rows : Credentials)
    → (not (is_empty cursor) && not (valid_credential_id cursor)) ≡ false
    → bounded_limit limit 50 100 ≡ suc m
    → All Reads rows
    → list cursor limit rows ≡ ok (page_of (suc m) [] (beyond cursor (order_by_id rows)))
unfolding list
list-page_of cursor limit m rows good n a =
    rw (list, good, n, order-beyond cursor rows, add_one)
      (collect_page-page_of (suc m) (suc m) [] (beyond cursor (order_by_id rows)) (omega arith)
        (All-beyond Reads cursor (order_by_id rows) (All-order Reads rows a)))
  where
    add_one : suc m + 1 ≡ suc (suc m)
    add_one = omega arith
