-- ===== src/Proposals/Store.antt =====
-- internal/mcp/proposals.go: the rows of `export_proposals`, reading, listing and approving them. The
-- columns of JSON and of times are taken decoded; the text of a time is what SQL compares.
use videocutlist.Prelude.{
  ℕ, Bool, not, ◌&&◌, ◌||◌, Option, none, some, List, [], ◌∷◌, ◌++◌, if◌then◌else◌, ◌==◌, ltb, leb,
  length, any, count,
}
use videocutlist.Prelude.Int.{ℤ, pos, ltb_ℤ, eqb_ℤ}
use videocutlist.Prelude.Text.{Text, codes, text_eq, text_ltb, is_empty}
use videocutlist.Prelude.Outcome.{Outcome, ok, err}
use videocutlist.Mcp.Ids.{has_prefix, valid_safe_identifier}
use videocutlist.Mcp.Scopes.{CredentialError}
use videocutlist.Mcp.Table.{Platform}
use videocutlist.Jobs.Defs.{JobError}
use videocutlist.Proposals.Snapshots.{ExportSnapshot, ExportFinding}

pub data ProposalError : Type 0 where
  proposal_not_found proposal_expired approval_needed proposal_stale proposal_blocked :
      ProposalError
  proposal_data invalid_cursor invalid_input resource_denied insert_failed service_failed :
      ProposalError
  of_credential : CredentialError → ProposalError
  of_jobs : JobError → ProposalError

pub record ExportProposal : Type 0 where
  pub id : Text
  pub credential_id : Text
  pub project_id : Text
  pub project_revision : ℤ
  pub media_id : Text
  pub snapshots : List ExportSnapshot
  pub findings : List ExportFinding
  pub allowed : Bool
  pub requires_reencoding : Bool
  pub accuracy : Text
  pub destination_id : Text
  pub expires_at : ℕ
  pub approved_at : Option ℕ
  pub created_at : ℕ

-- A row, as the proposal that it was written from; the table has no column for the media and for
-- `allowed`, which `Get` finds again.
abbrev pub Proposals : Type 0
Proposals = List ExportProposal

abbrev pub has_proposal_id : Text → ExportProposal → Bool
has_proposal_id id p = text_eq p.id id

unfoldable pub find_proposal : Text → Proposals → Option ExportProposal
find_proposal id [] = none
find_proposal id (p ∷ rows) = if has_proposal_id id p then some p else find_proposal id rows

unfoldable pub update_proposals :
    (ExportProposal → Bool) → (ExportProposal → ExportProposal) → Proposals → Proposals
update_proposals q f [] = []
update_proposals q f (p ∷ rows) = (if q p then f p else p) ∷ update_proposals q f rows

abbrev accuracies : List Text
accuracies = codes "frame_exact" ∷ codes "keyframe_limited" ∷ codes "mixed" ∷ []

-- INSERT, with the primary key and the CHECK constraints of the table.
unfoldable pub insert_proposal : ExportProposal → Proposals → Outcome ProposalError Proposals
insert_proposal p rows =
    if any (has_proposal_id p.id) rows
      || ltb_ℤ p.project_revision (pos 0)
      || not (any (text_eq p.accuracy) accuracies)
      || not (text_eq p.destination_id (codes "download"))
    then err insert_failed
    else ok (rows ++ p ∷ [])

unfoldable pub valid_proposal_id : Text → Bool
unfolding has_prefix valid_safe_identifier
valid_proposal_id id = ltb 3 (length id) && has_prefix id (codes "ep_") && valid_safe_identifier id

abbrev pub is_blocked : ExportFinding → Bool
is_blocked f = text_eq f.severity (codes "blocked")

abbrev pub first_media : List ExportSnapshot → Text
first_media [] = []
first_media (s ∷ _) = s.source.media_id

unfoldable pub get_proposal : Text → Proposals → Outcome ProposalError ExportProposal
unfolding find_proposal valid_proposal_id
get_proposal id rows =
    if not (valid_proposal_id id) then err proposal_not_found else elim (find_proposal id rows) [
      | none ↦ err proposal_not_found
      | some p ↦
          if length p.snapshots == 0
            || not (text_eq p.destination_id (codes "download"))
            || is_empty p.project_id && not (eqb_ℤ p.project_revision (pos 0))
            || not (is_empty p.project_id) && ltb_ℤ p.project_revision (pos 1)
          then err proposal_data
          else ok (record p {
            media_id = if is_empty p.project_id then first_media p.snapshots else [];
            allowed = not (any is_blocked p.findings);
          })
    ]

-- WHERE id=? AND expires_at > ?
abbrev pub is_open : Platform → Text → ℕ → ExportProposal → Bool
is_open sys id now p =
    has_proposal_id id p && text_ltb (sys.format_time now) (sys.format_time p.expires_at)

-- SET approved_at=COALESCE(approved_at,?)
abbrev pub approved : ℕ → ExportProposal → ExportProposal
approved now p = record p { approved_at = elim p.approved_at [ none ↦ some now | some t ↦ some t ] }

-- `checked` and `now` are what the clock shows before and after the expiry is tested.
unfoldable pub approve :
    Platform → Text → ℕ → ℕ → Proposals → Outcome ProposalError ExportProposal × Proposals
unfolding get_proposal update_proposals
approve sys id checked now rows = elim (get_proposal id rows) [
  | err e ↦ (err e, rows)
  | ok p ↦
      let rows' = update_proposals (is_open sys id now) (approved now) rows in
      if leb p.expires_at checked
      then (err proposal_expired, rows)
      else if count (is_open sys id now) rows == 1
      then (get_proposal id rows', rows')
      else (err proposal_expired, rows')
]
