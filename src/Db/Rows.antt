-- ===== src/Db/Rows.antt =====
-- The rows of the projects table (internal/db/project.go) after an insert and an update.
use videocutlist.Prelude.{
  ◌≡◌, refl, sym, ◌∙◌, true, not, ◌&&◌, Option, none, some, [], ◌∷◌, ◌++◌, if◌then◌else◌, count, ℕ,
  arith, Bool-cases, inl, inr,
}
use videocutlist.Prelude.Int.{ℤ, pos, eqb_ℤ}
use videocutlist.Prelude.Text.{Text, text_eq, text_eq_iff, text_eq_comm}
use videocutlist.Prelude.Outcome.{Outcome, ok, err}
use videocutlist.Db.Projects.{
  ProjectRecord, ProjectError, project_not_found, revision_conflict, Projects, find_project,
  new_project, is_current, revised, update_current, UniqueProjects,
}

-- What a save answers, by the row that is there.
abbrev pub answer :
    ℤ → Text → Text → Text → Option ProjectRecord → Outcome ProjectError ProjectRecord
answer expected id document now none =
    if eqb_ℤ expected (pos 0) then ok (new_project id document now) else err project_not_found
answer expected id document now (some p) =
    if not (eqb_ℤ expected (pos 0)) && eqb_ℤ p.revision expected
    then ok (revised document now p)
    else err revision_conflict

abbrev pub saved_row :
    Outcome ProjectError ProjectRecord → Option ProjectRecord → Option ProjectRecord
saved_row (ok p) _ = some p
saved_row (err _) old = old

pub find-append :
    (k : Text) (ps : Projects) (p : ProjectRecord)
    → find_project k (ps ++ p ∷ []) ≡ elim (find_project k ps) [
      | none ↦ if text_eq p.id k then some p else none
      | some q ↦ some q
    ]
unfolding find_project
find-append k [] p = refl
find-append k (q ∷ qs) p = ground (arith, find-append k qs p)

pub find-id :
    (id : Text) (ps : Projects) (p : ProjectRecord)
    → find_project id ps ≡ some p
    → text_eq p.id id ≡ true
unfolding find_project
find-id id [] p h = cc
find-id id (q ∷ qs) p h = ground (arith, find-id id qs p)

abbrev pub revise_if : Text → ℤ → Text → Text → Option ProjectRecord → Option ProjectRecord
revise_if id e document now none = none
revise_if id e document now (some p) =
    if is_current id e p then some (revised document now p) else some p

pub find-update_current :
    (id k : Text) (e : ℤ) (document now : Text) (ps : Projects)
    → find_project k (update_current id e document now ps)
      ≡ revise_if id e document now (find_project k ps)
unfolding find_project update_current revised
find-update_current id k e document now [] = refl
find-update_current id k e document now (p ∷ ps) =
    ground (arith, find-update_current id k e document now ps)

unfoldable pub hits : ℤ → Option ProjectRecord → ℕ
hits e none = 0
hits e (some p) = if eqb_ℤ p.revision e then 1 else 0

no_hits :
    (id : Text) (e : ℤ) (ps : Projects) → find_project id ps ≡ none → count (is_current id e) ps ≡ 0
unfolding find_project is_current
no_hits id e [] h = refl
no_hits id e (p ∷ ps) h = ground (arith, no_hits id e ps)

pub count-is_current :
    (id : Text) (e : ℤ) (ps : Projects)
    → UniqueProjects ps
    → count (is_current id e) ps ≡ hits e (find_project id ps)
unfolding find_project is_current hits
count-is_current id e [] u = refl
count-is_current id e (p ∷ ps) (fresh, u) = elim (Bool-cases (text_eq p.id id)) [
  | inl same ↦
      let none_left = no_hits id e ps (rw (sym ((text_eq_iff p.id id).0 same)) fresh) in
      rw same (ground (arith, none_left))
  | inr other ↦ rw other (count-is_current id e ps u)
]

pub append-UniqueProjects :
    (ps : Projects) (p : ProjectRecord)
    → UniqueProjects ps
    → find_project p.id ps ≡ none
    → UniqueProjects (ps ++ p ∷ [])
unfolding find_project
append-UniqueProjects [] p u h = (refl, tt)
append-UniqueProjects (q ∷ qs) p (fresh, u) h = (
  find-append q.id qs p ∙ ground (arith, fresh, h, text_eq_comm p.id q.id),
  append-UniqueProjects qs p u (ground (arith, h)),
)

pub update-UniqueProjects :
    (id : Text) (e : ℤ) (document now : Text) (ps : Projects)
    → UniqueProjects ps
    → UniqueProjects (update_current id e document now ps)
unfolding update_current revised
update-UniqueProjects id e document now [] u = tt
update-UniqueProjects id e document now (p ∷ ps) (fresh, u) = (
  find-update_current id _ e document now ps ∙ ground (arith, fresh),
  update-UniqueProjects id e document now ps u,
)
