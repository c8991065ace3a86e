-- ===== src/Db/Conflicts.antt =====
-- No saved document is lost to another client (internal/db/project.go): once a save has succeeded, a
-- save that has not seen it is refused.
use videocutlist.Prelude.{
  ◌≡◌, refl, sym, ap, ◌∙◌, Bool, true, false, not, ◌&&◌, ◌||◌, Option, none, some, List, [], ◌∷◌,
  arith, Bool-cases, inl, inr,
}
use videocutlist.Prelude.Int.{ℤ, pos, ltb_ℤ, eqb_ℤ, leb_ℤ, +ℤ_parts}
use videocutlist.Prelude.Text.{Text, text_eq, text_eq_refl, is_empty}
use videocutlist.Prelude.Outcome.{ok, err}
use videocutlist.Db.Projects.{
  ProjectRecord, revision_conflict, Projects, find_project, new_project, revised, Saved, save,
  SaveRequest, run_saves, UniqueProjects,
}
use videocutlist.Db.Revisions.{rows_after, save-answer, save-bad, save_cas}
use videocutlist.Db.Rows.{answer, saved_row, append-UniqueProjects, update-UniqueProjects}

save-UniqueProjects :
    (id : Text) (e : ℤ) (document now : Text) (ps : Projects)
    → UniqueProjects ps
    → UniqueProjects (save id e document now ps).1
unfolding new_project
save-UniqueProjects id e document now ps u = elim (Bool-cases (is_empty id || ltb_ℤ e (pos 0))) [
  | inl bad ↦ rw (save-bad id e document now ps bad) u
  | inr good ↦ rw (save-answer id e document now ps u good) (kept (find_project id ps) refl)
]
  where
    kept :
        (r : Option ProjectRecord)
        → find_project id ps ≡ r
        → UniqueProjects (rows_after e id document now ps r)
    kept none f =
        unfold new_project in
        elim (Bool-cases (eqb_ℤ e (pos 0))) [
          | inl zero_e ↦ rw zero_e (append-UniqueProjects ps (new_project id document now) u f)
          | inr later ↦ rw later u
        ]
    kept (some p) f = elim (Bool-cases (not (eqb_ℤ e (pos 0)) && eqb_ℤ p.revision e)) [
      | inl same ↦ rw same (update-UniqueProjects id e document now ps u)
      | inr other ↦ rw other u
    ]

-- The project is there in a revision after `e`.
abbrev passed : ℤ → Option ProjectRecord → Bool
passed e none = false
passed e (some p) = ltb_ℤ e p.revision

answer-passed :
    (e d : ℤ) (id document now : Text) (r : Option ProjectRecord)
    → passed e r ≡ true
    → passed e (saved_row (answer d id document now r) r) ≡ true
unfolding revised
answer-passed e d id document now none h = cc
answer-passed e d id document now (some p) h = ground (arith, +ℤ_parts p.revision (pos 1))

save-passed :
    (k : Text) (e : ℤ) (q : SaveRequest) (ps : Projects)
    → UniqueProjects ps
    → passed e (find_project k ps) ≡ true
    → passed e (find_project k (save q.target q.expected q.document q.at ps).1) ≡ true
save-passed k e q ps u h = elim (Bool-cases (is_empty q.target || ltb_ℤ q.expected (pos 0))) [
  | inl bad ↦ rw (save-bad q.target q.expected q.document q.at ps bad) h
  | inr good ↦
      let c = (save_cas q.target q.expected q.document q.at ps u good).1 k in
      rw c (elim (Bool-cases (text_eq k q.target)) [
        | inl same ↦
            rw same (answer-passed e q.expected q.target q.document q.at (find_project k ps) h)
        | inr other ↦ rw other h
      ])
]

run_saves-passed :
    (k : Text) (e : ℤ) (qs : List SaveRequest) (ps : Projects)
    → UniqueProjects ps
    → passed e (find_project k ps) ≡ true
    → UniqueProjects (run_saves qs ps) × (passed e (find_project k (run_saves qs ps)) ≡ true)
unfolding run_saves
run_saves-passed k e [] ps u h = (u, h)
run_saves-passed k e (q ∷ qs) ps u h =
    run_saves-passed k e qs _ (save-UniqueProjects q.target q.expected q.document q.at ps u)
      (save-passed k e q ps u h)

success-passed :
    (e : ℤ) (id document now : Text) (r : Option ProjectRecord) (p : ProjectRecord)
    → answer e id document now r ≡ ok p
    → passed e (some p) ≡ true
unfolding new_project revised
success-passed e id document now none p h = ground (arith, h)
success-passed e id document now (some q) p h = ground (arith, h, +ℤ_parts q.revision (pos 1))

answer-conflict :
    (e d : ℤ) (id document now : Text) (r : Option ProjectRecord)
    → passed e r ≡ true
    → leb_ℤ d e ≡ true
    → answer d id document now r ≡ err revision_conflict
answer-conflict e d id document now none h k = cc
answer-conflict e d id document now (some p) h k = ground arith

conflict-rows :
    (d : ℤ) (id document now : Text) (ps : Projects) (r : Option ProjectRecord)
    → answer d id document now r ≡ err revision_conflict
    → rows_after d id document now ps r ≡ ps
conflict-rows d id document now ps none h = ground (arith, h)
conflict-rows d id document now ps (some p) h = ground (arith, h)

save-success :
    (id : Text) (e : ℤ) (document now : Text) (ps : Projects) (p : ProjectRecord)
    → UniqueProjects ps
    → (save id e document now ps).0 ≡ ok p
    → passed e (find_project id (save id e document now ps).1) ≡ true
save-success id e document now ps p u h = elim (Bool-cases (is_empty id || ltb_ℤ e (pos 0))) [
  | inl bad ↦ absurd (cc (h, ap (λ (x : Saved). x.0) (save-bad id e document now ps bad)))
  | inr good ↦
      let (a, row) = save_cas id e document now ps u good in
      let there : find_project id (save id e document now ps).1
          ≡ saved_row (answer e id document now (find_project id ps)) (find_project id ps) =
        row id ∙ rw (text_eq_refl id) refl in
      let stored : find_project id (save id e document now ps).1 ≡ some p =
        there ∙ ap (λ x. saved_row x (find_project id ps)) (sym a ∙ h) in
      rw stored (success-passed e id document now (find_project id ps) p (sym a ∙ h))
]

-- Once a save of a project has succeeded, then, whatever is saved after it, a save of that project
-- that expects the same revision or an earlier one is refused with a conflict and changes nothing.
pub no_lost_update :
    (id : Text) (e d : ℤ) (document now document' now' : Text) (ps : Projects) (p : ProjectRecord)
    (between : List SaveRequest)
    → UniqueProjects ps
    → (save id e document now ps).0 ≡ ok p
    → (is_empty id || ltb_ℤ d (pos 0)) ≡ false
    → leb_ℤ d e ≡ true
    → let later = run_saves between (save id e document now ps).1 in
      save id d document' now' later ≡ (err revision_conflict, later)
no_lost_update id e d document now document' now' ps p between u h good older =
    let (u', known) =
      run_saves-passed id e between _ (save-UniqueProjects id e document now ps u)
        (save-success id e document now ps p u h) in
    let later = run_saves between (save id e document now ps).1 in
    let a = answer-conflict e d id document' now' (find_project id later) known older in
    save-answer id d document' now' later u' good
    ∙ rw (a, conflict-rows d id document' now' later (find_project id later) a) refl
