-- ===== src/Proposals/Pending.antt =====
-- internal/mcp/proposals.go: the pages of proposals that wait for an approval, newest first.
use videocutlist.Prelude.{
  ℕ, ◌+◌, Bool, true, not, ◌&&◌, ◌||◌, Option, none, some, List, [], ◌∷◌, ◌++◌, if◌then◌else◌, ltb,
  length, select,
}
use videocutlist.Prelude.Int.{ℤ, pos, negsuc}
use videocutlist.Prelude.Text.{Text, text_eq, text_ltb, is_empty}
use videocutlist.Prelude.Outcome.{Outcome, ok, err}
use videocutlist.Mcp.Table.{Platform, is_none}
use videocutlist.Mcp.Tokens.{cut_at}
use videocutlist.Mcp.Listing.{take}
use videocutlist.Proposals.Store.{
  ProposalError, invalid_cursor, ExportProposal, Proposals, valid_proposal_id, get_proposal,
}

pub record ProposalCursor : Type 0 where
  pub created_at : Text
  pub id : Text

unfoldable pub encode_proposal_cursor : Platform → Text → Text → Text
encode_proposal_cursor sys created id = sys.encode ((created ++ 0 ∷ []) ++ id)

-- `none` is the cursor of the first page. `parses` is whether `time.Parse` takes a text.
unfoldable pub decode_proposal_cursor :
    Platform → (Text → Bool) → Text → Outcome ProposalError (Option ProposalCursor)
decode_proposal_cursor sys parses value =
    if is_empty value
    then ok none
    else if ltb 256 (length value)
    then err invalid_cursor
    else elim (sys.decode value) [
      | none ↦ err invalid_cursor
      | some raw ↦ elim (cut_at 0 raw) [
        | none ↦ err invalid_cursor
        | some (created, id) ↦
            if not (valid_proposal_id id) || not (parses created)
            then err invalid_cursor
            else ok (some (record { created_at = created; id = id }))
      ]
    ]

-- AND (created_at < ? OR (created_at = ? AND id < ?))
abbrev pub is_older : Platform → Option ProposalCursor → ExportProposal → Bool
is_older sys none p = true
is_older sys (some c) p =
    text_ltb (sys.format_time p.created_at) c.created_at
    || text_eq (sys.format_time p.created_at) c.created_at && text_ltb p.id c.id

-- WHERE approved_at IS NULL AND expires_at > ?
abbrev pub is_pending : Platform → ℕ → ExportProposal → Bool
is_pending sys now p =
    is_none p.approved_at && text_ltb (sys.format_time now) (sys.format_time p.expires_at)

-- ORDER BY created_at DESC, id DESC
abbrev pub is_newer : Platform → ExportProposal → ExportProposal → Bool
is_newer sys p q =
    text_ltb (sys.format_time q.created_at) (sys.format_time p.created_at)
    || text_eq (sys.format_time q.created_at) (sys.format_time p.created_at) && text_ltb q.id p.id

unfoldable pub insert_newest : Platform → ExportProposal → Proposals → Proposals
insert_newest sys p [] = p ∷ []
insert_newest sys p (q ∷ rows) =
    if is_newer sys q p then q ∷ insert_newest sys p rows else p ∷ q ∷ rows

unfoldable pub order_newest : Platform → Proposals → Proposals
unfolding insert_newest
order_newest sys [] = []
order_newest sys (p ∷ rows) = insert_newest sys p (order_newest sys rows)

unfoldable pub get_all : Proposals → Proposals → Outcome ProposalError (List ExportProposal)
get_all rows [] = ok []
get_all rows (p ∷ ps) = elim (get_proposal p.id rows) [
  | err e ↦ err e
  | ok q ↦ elim (get_all rows ps) [ err e ↦ err e | ok qs ↦ ok (q ∷ qs) ]
]

abbrev last_cursor : Platform → Proposals → Option Text
last_cursor sys [] = none
last_cursor sys (p ∷ []) = some (encode_proposal_cursor sys (sys.format_time p.created_at) p.id)
last_cursor sys (p ∷ q ∷ rows) = last_cursor sys (q ∷ rows)

unfoldable pub page_limit : ℤ → ℕ
page_limit (negsuc n) = 25
page_limit (pos n) = if ltb n 1 || ltb 100 n then 25 else n

unfoldable pub list_pending :
    Platform
    → (Text → Bool)
    → Text
    → ℤ
    → ℕ
    → Proposals
    → Outcome ProposalError (List ExportProposal × Option Text)
unfolding decode_proposal_cursor encode_proposal_cursor page_limit order_newest get_all
list_pending sys parses cursor limit now rows = elim (decode_proposal_cursor sys parses cursor) [
  | err e ↦ err e
  | ok position ↦
      let n = page_limit limit in
      let found =
        take (n + 1)
          (order_newest sys (select (λ p. is_pending sys now p && is_older sys position p) rows)) in
      let next = if ltb n (length found) then last_cursor sys (take n found) else none in
      elim (get_all rows (take n found)) [ err e ↦ err e | ok proposals ↦ ok (proposals, next) ]
]
