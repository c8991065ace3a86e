-- ===== src/Mcp/Listing.antt =====
-- internal/mcp/credentials.go: the pages of credentials.
use videocutlist.Prelude.{
  ℕ, zero, suc, ◌+◌, true, false, not, ◌&&◌, Option, none, some, List, [], ◌∷◌, ◌++◌, if◌then◌else◌,
  ◌==◌, leb, length, select,
}
use videocutlist.Prelude.Int.{ℤ, pos, negsuc}
use videocutlist.Prelude.Text.{Text, text_ltb, is_empty}
use videocutlist.Prelude.Outcome.{Outcome, ok, err}
use videocutlist.Mcp.Ids.{valid_credential_id}
use videocutlist.Mcp.Scopes.{Credential, CredentialError, credential_not_found}
use videocutlist.Mcp.Table.{CredentialRecord, Credentials, scan_credential}

unfoldable pub bounded_limit : ℤ → ℕ → ℕ → ℕ
bounded_limit (negsuc n) fallback maximum = fallback
bounded_limit (pos n) fallback maximum =
    if n == 0 then fallback else if leb n maximum then n else maximum

abbrev pub take {ℓ} : {A : Type ℓ} → ℕ → List A → List A
take zero xs = []
take (suc n) [] = []
take (suc n) (x ∷ xs) = x ∷ take n xs

-- ORDER BY id
unfoldable pub insert_by_id : CredentialRecord → Credentials → Credentials
insert_by_id r [] = r ∷ []
insert_by_id r (k ∷ rows) =
    if text_ltb k.credential.id r.credential.id then k ∷ insert_by_id r rows else r ∷ k ∷ rows

unfoldable pub order_by_id : Credentials → Credentials
unfolding insert_by_id
order_by_id [] = []
order_by_id (r ∷ rows) = insert_by_id r (order_by_id rows)

abbrev pub Page : Type 0
Page = List Credential × Option Text

-- The id of the last credential of a page.
abbrev pub last_id : List Credential → Option Text
last_id [] = none
last_id (c ∷ []) = some c.id
last_id (c ∷ d ∷ cs) = last_id (d ∷ cs)

-- The loop over `rows`, with `credentials`.
unfoldable pub collect_page : ℕ → List Credential → Credentials → Outcome CredentialError Page
collect_page limit credentials [] = ok (credentials, none)
collect_page limit credentials (r ∷ rows) = elim (scan_credential r) [
  | err e ↦ err e
  | ok record' ↦ elim (length credentials == limit) [
    | true ↦ ok (credentials, last_id credentials)
    | false ↦ collect_page limit (credentials ++ record'.credential ∷ []) rows
  ]
]

unfoldable pub list : Text → ℤ → Credentials → Outcome CredentialError Page
unfolding bounded_limit order_by_id collect_page
list cursor limit rows =
    if not (is_empty cursor) && not (valid_credential_id cursor)
    then err credential_not_found
    else let n = bounded_limit limit 50 100 in
      collect_page n []
        (take (n + 1) (order_by_id (select (λ r. text_ltb cursor r.credential.id) rows)))
