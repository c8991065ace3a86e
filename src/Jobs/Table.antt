-- ===== src/Jobs/Table.antt =====
-- The `jobs` table of internal/jobs/migrations/001_jobs.sql: its rows in the order of insertion, and
-- what the SQL statements of the package do to them.
use videocutlist.Prelude.{
  ℕ, Bool, false, not, ◌&&◌, ◌||◌, Option, none, some, List, [], ◌∷◌, ◌++◌, ◌≡◌, count, any,
  if◌then◌else◌,
}
use videocutlist.Prelude.Text.{Text, text_eq, text_ltb, is_empty}
use videocutlist.Jobs.Defs.{Job, is_active, is_scan, valid_job_kind}

abbrev pub Rows : Type 0
Rows = List Job

-- SELECT … WHERE id=?
unfoldable pub find : Text → Rows → Option Job
find id [] = none
find id (j ∷ rows) = if text_eq j.id id then some j else find id rows

-- UPDATE … SET … WHERE …: the rows after it. `count` of the test is the number of affected rows.
unfoldable pub update : (Job → Bool) → (Job → Job) → Rows → Rows
update p f [] = []
update p f (j ∷ rows) = (if p j then f j else j) ∷ update p f rows

-- The two columns of the partial unique index `jobs_proposal_item`; NULLs never collide.
unfoldable pub same_proposal_item : Job → Job → Bool
same_proposal_item a b =
    not (is_empty a.proposal_id)
    && text_eq a.proposal_id b.proposal_id
    && not (is_empty a.project_item_id)
    && text_eq a.project_item_id b.project_item_id

-- The CHECK constraints on `kind` and on the project columns.
unfoldable pub passes_checks : Job → Bool
unfolding valid_job_kind
passes_checks j =
    valid_job_kind j.kind
    && (is_scan j.kind && is_empty j.project_id && is_empty j.project_item_id
        || not (is_scan j.kind) && not (is_empty j.project_id) && not (is_empty j.project_item_id))

-- INSERT: `none` if the primary key, the unique index or a CHECK refuses the row.
unfoldable pub insert : Job → Rows → Option Rows
unfolding same_proposal_item passes_checks
insert j rows =
    if any (λ k. text_eq k.id j.id || same_proposal_item j k) rows || not (passes_checks j)
    then none
    else some (rows ++ j ∷ [])

-- SELECT COUNT(*) … WHERE state IN ('queued','running')
abbrev pub active_count : Rows → ℕ
active_count = count (λ j. is_active j.state)

-- ORDER BY created_at,id
unfoldable pub row_before : Job → Job → Bool
row_before a b =
    text_ltb a.created_at b.created_at || text_eq a.created_at b.created_at && text_ltb a.id b.id

unfoldable pub insert_by : (Job → Job → Bool) → Job → Rows → Rows
insert_by before j [] = j ∷ []
insert_by before j (k ∷ rows) = if before j k then j ∷ k ∷ rows else k ∷ insert_by before j rows

unfoldable pub order_by : (Job → Job → Bool) → Rows → Rows
unfolding insert_by
order_by before [] = []
order_by before (j ∷ rows) = insert_by before j (order_by before rows)

-- The first row of a SELECT … ORDER BY … LIMIT 1.
abbrev pub first : Rows → Option Job
first [] = none
first (j ∷ _) = some j

-- The primary key: ids are unlike each other.
abbrev pub FreshId : Text → Rows → Type 0
FreshId id rows = any (λ k. text_eq k.id id) rows ≡ false

abbrev pub UniqueIds : Rows → Type 0
UniqueIds [] = Unit
UniqueIds (j ∷ rows) = FreshId j.id rows × UniqueIds rows
