-- ===== src/Db/Projects.antt =====
-- internal/db/project.go: the saved projects with their revisions. The table is the list of its rows;
-- a save runs in one transaction, so it is one step. Errors of the database itself are not modelled:
-- an INSERT fails only where the primary key is taken.
use videocutlist.Prelude.{
  ◌≡◌, Bool, ◌&&◌, ◌||◌, Option, none, some, List, [], ◌∷◌, ◌++◌, if◌then◌else◌, ◌==◌, count,
}
use videocutlist.Prelude.Int.{ℤ, pos, ltb_ℤ, eqb_ℤ, ◌+ℤ◌}
use videocutlist.Prelude.Text.{Text, text_eq, is_empty}
use videocutlist.Prelude.Outcome.{Outcome, ok, err}

pub record ProjectRecord : Type 0 where
  pub id : Text
  pub revision : ℤ
  pub document_json : Text
  pub created_at : Text
  pub updated_at : Text

pub data ProjectError : Type 0 where
  project_not_found revision_conflict bad_save : ProjectError

abbrev pub Projects : Type 0
Projects = List ProjectRecord

-- SELECT … WHERE id = ?
unfoldable pub find_project : Text → Projects → Option ProjectRecord
find_project id [] = none
find_project id (p ∷ ps) = if text_eq p.id id then some p else find_project id ps

abbrev pub or_not_found : Option ProjectRecord → Outcome ProjectError ProjectRecord
or_not_found none = err project_not_found
or_not_found (some p) = ok p

-- `Get`, and `getTx` in a transaction.
unfoldable pub get_project : Text → Projects → Outcome ProjectError ProjectRecord
get_project id ps = or_not_found (find_project id ps)

-- INSERT … VALUES (?, 1, …)
unfoldable pub new_project : Text → Text → Text → ProjectRecord
new_project id document now = record {
  id = id;
  revision = pos 1;
  document_json = document;
  created_at = now;
  updated_at = now;
}

-- WHERE id = ? AND revision = ?
unfoldable pub is_current : Text → ℤ → ProjectRecord → Bool
is_current id expected p = text_eq p.id id && eqb_ℤ p.revision expected

-- SET revision = revision + 1, document_json = ?, updated_at = ?
unfoldable pub revised : Text → Text → ProjectRecord → ProjectRecord
revised document now p = record p {
  revision = p.revision +ℤ pos 1;
  document_json = document;
  updated_at = now;
}

unfoldable pub update_current : Text → ℤ → Text → Text → Projects → Projects
unfolding is_current revised
update_current id expected document now [] = []
update_current id expected document now (p ∷ ps) =
    (if is_current id expected p then revised document now p else p)
    ∷ update_current id expected document now ps

abbrev pub Saved : Type 0
Saved = Outcome ProjectError ProjectRecord × Projects

-- Why nothing was written: the project is there in another revision, or is not there.
abbrev pub refusal : Option ProjectRecord → ProjectError
refusal none = project_not_found
refusal (some _) = revision_conflict

unfoldable pub save_tx : Text → ℤ → Text → Text → Projects → Saved
unfolding get_project new_project update_current
save_tx id expected document now ps =
    if is_empty id || ltb_ℤ expected (pos 0)
    then (err bad_save, ps)
    else if eqb_ℤ expected (pos 0)
    then elim (find_project id ps) [
      | some p ↦ (err revision_conflict, ps)
      | none ↦ let ps' = ps ++ new_project id document now ∷ [] in (get_project id ps', ps')
    ]
    else let ps' = update_current id expected document now ps in
      if count (is_current id expected) ps == 1
      then (get_project id ps', ps')
      else (err (refusal (find_project id ps')), ps')

-- `Save` commits exactly if `SaveTx` succeeds.
abbrev pub committed : Projects → Saved → Saved
committed before (ok p, after) = (ok p, after)
committed before (err e, _) = (err e, before)

unfoldable pub save : Text → ℤ → Text → Text → Projects → Saved
unfolding save_tx
save id expected document now ps = committed ps (save_tx id expected document now ps)

-- A save that a client asks for.
pub record SaveRequest : Type 0 where
  pub target : Text
  pub expected : ℤ
  pub document : Text
  pub at : Text

unfoldable pub run_saves : List SaveRequest → Projects → Projects
unfolding save
run_saves [] ps = ps
run_saves (q ∷ qs) ps = run_saves qs (save q.target q.expected q.document q.at ps).1

abbrev pub UniqueProjects : Projects → Type 0
UniqueProjects [] = Unit
UniqueProjects (p ∷ ps) = (find_project p.id ps ≡ none) × UniqueProjects ps
