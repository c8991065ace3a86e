-- ===== src/Db/Revisions.antt =====
-- The revisions of saved projects (internal/db/project.go): a save is a compare-and-set, and no save
-- overwrites another that it has not seen.
use videocutlist.Prelude.{
  ◌≡◌, refl, ap, ◌∙◌, true, false, not, ◌&&◌, ◌||◌, Option, none, some, [], ◌∷◌, ◌++◌,
  if◌then◌else◌, arith, Bool-cases, Option-cases, inl, inr,
}
use videocutlist.Prelude.Int.{ℤ, pos, ltb_ℤ, eqb_ℤ}
use videocutlist.Prelude.Text.{Text, text_eq, text_eq_iff, text_eq_refl, text_eq_comm, is_empty}
use videocutlist.Prelude.Outcome.{ok, err}
use videocutlist.Db.Projects.{
  ProjectRecord, bad_save, Projects, find_project, get_project, new_project, is_current, revised,
  update_current, Saved, save_tx, save, UniqueProjects,
}
use videocutlist.Db.Rows.{
  answer, saved_row, find-append, find-id, revise_if, find-update_current, hits, count-is_current,
}

abbrev pub rows_after : ℤ → Text → Text → Text → Projects → Option ProjectRecord → Projects
rows_after e id document now ps none =
    if eqb_ℤ e (pos 0) then ps ++ new_project id document now ∷ [] else ps
rows_after e id document now ps (some p) =
    if not (eqb_ℤ e (pos 0)) && eqb_ℤ p.revision e then update_current id e document now ps else ps

get_new :
    (id document now : Text) (ps : Projects)
    → find_project id ps ≡ none
    → get_project id (ps ++ new_project id document now ∷ []) ≡ ok (new_project id document now)
unfolding get_project new_project
get_new id document now ps h =
    rw (find-append id ps (new_project id document now), h, text_eq_refl id) refl

get_revised :
    (id : Text) (e : ℤ) (document now : Text) (ps : Projects) (p : ProjectRecord)
    → find_project id ps ≡ some p
    → eqb_ℤ p.revision e ≡ true
    → get_project id (update_current id e document now ps) ≡ ok (revised document now p)
unfolding get_project is_current
get_revised id e document now ps p h r =
    rw (find-update_current id id e document now ps, h, find-id id ps p h, r) refl

find_unrevised :
    (id : Text) (e : ℤ) (document now : Text) (ps : Projects) (p : ProjectRecord)
    → find_project id ps ≡ some p
    → eqb_ℤ p.revision e ≡ false
    → find_project id (update_current id e document now ps) ≡ some p
unfolding is_current
find_unrevised id e document now ps p h r =
    rw (find-update_current id id e document now ps, h, find-id id ps p h, r) refl

pub save-answer :
    (id : Text) (e : ℤ) (document now : Text) (ps : Projects)
    → UniqueProjects ps
    → (is_empty id || ltb_ℤ e (pos 0)) ≡ false
    → save id e document now ps ≡ (
      answer e id document now (find_project id ps),
      rows_after e id document now ps (find_project id ps),
    )
unfolding save save_tx hits
save-answer id e document now ps u good =
    let c = count-is_current id e ps u in
    elim (Option-cases (find_project id ps)) [
      | inl f ↦ elim (Bool-cases (eqb_ℤ e (pos 0))) [
        | inl zero_e ↦ rw (good, zero_e, f, get_new id document now ps f, zero_e) refl
        | inr later ↦
            rw (good, later, c, f, find-update_current id id e document now ps, f, later) refl
      ]
      | inr (p, f) ↦ elim (Bool-cases (eqb_ℤ e (pos 0))) [
        | inl zero_e ↦ rw (good, zero_e, f, zero_e) refl
        | inr later ↦ elim (Bool-cases (eqb_ℤ p.revision e)) [
          | inl same ↦
              rw (good, later, c, f, same, get_revised id e document now ps p f same, later) refl
          | inr other ↦
              rw (good, later, c, f, other, find_unrevised id e document now ps p f other, later)
                refl
        ]
      ]
    ]

pub save-bad :
    (id : Text) (e : ℤ) (document now : Text) (ps : Projects)
    → (is_empty id || ltb_ℤ e (pos 0)) ≡ true
    → save id e document now ps ≡ (err bad_save, ps)
unfolding save save_tx
save-bad id e document now ps bad = rw bad refl

saved-here :
    (id : Text) (e : ℤ) (document now : Text) (ps : Projects)
    → find_project id (rows_after e id document now ps (find_project id ps))
      ≡ saved_row (answer e id document now (find_project id ps)) (find_project id ps)
unfolding is_current
saved-here id e document now ps = elim (Option-cases (find_project id ps)) [
  | inl f ↦ elim (Bool-cases (eqb_ℤ e (pos 0))) [
    | inl zero_e ↦
        rw (f, zero_e, find-append id ps (new_project id document now), f)
          (new-here id document now)
    | inr later ↦ rw (f, later, f) refl
  ]
  | inr (p, f) ↦ elim (Bool-cases (not (eqb_ℤ e (pos 0)) && eqb_ℤ p.revision e)) [
    | inl same ↦
        rw (f, same, find-update_current id id e document now ps, f, find-id id ps p f)
          (current-row e document now p same)
    | inr other ↦ rw (f, other, f) refl
  ]
]
  where
    new-here :
        (id document now : Text)
        → (if text_eq (new_project id document now).id id
            then some (new_project id document now)
            else none)
          ≡ some (new_project id document now)
    new-here id document now = unfold new_project in rw (text_eq_refl id) refl

    current-row :
        (e : ℤ) (document now : Text) (p : ProjectRecord)
        → (not (eqb_ℤ e (pos 0)) && eqb_ℤ p.revision e) ≡ true
        → (if true && eqb_ℤ p.revision e then some (revised document now p) else some p)
          ≡ some (revised document now p)
    current-row e document now p h = ground (arith, h)

saved-there :
    (id k : Text) (e : ℤ) (document now : Text) (ps : Projects)
    → text_eq k id ≡ false
    → find_project k (rows_after e id document now ps (find_project id ps)) ≡ find_project k ps
unfolding is_current
saved-there id k e document now ps other = elim (Option-cases (find_project id ps)) [
  | inl f ↦ elim (Bool-cases (eqb_ℤ e (pos 0))) [
    | inl zero_e ↦
        rw (f, zero_e, find-append k ps (new_project id document now))
          (not-new k id document now (find_project k ps) other)
    | inr later ↦ rw (f, later) refl
  ]
  | inr (p, f) ↦ elim (Bool-cases (not (eqb_ℤ e (pos 0)) && eqb_ℤ p.revision e)) [
    | inl same ↦
        rw (f, same, find-update_current id k e document now ps)
          (other-row (find_project k ps) (find-id k ps))
    | inr differs ↦ rw (f, differs) refl
  ]
]
  where
    not-new :
        (k id document now : Text) (r : Option ProjectRecord)
        → text_eq k id ≡ false
        → elim r [
          | none ↦
              if text_eq (new_project id document now).id k
              then some (new_project id document now)
              else none
          | some q ↦ some q
        ]
          ≡ r
    not-new k id document now none h = unfold new_project in rw (text_eq_comm id k, h) refl
    not-new k id document now (some q) h = refl

    other-row :
        (r : Option ProjectRecord)
        → ((p : ProjectRecord) → r ≡ some p → text_eq p.id k ≡ true)
        → revise_if id e document now r ≡ r
    other-row none h = refl
    other-row (some p) h = unfold is_current in rw ((text_eq_iff p.id k).0 (h p refl), other) refl

-- A save of a project with an id and a revision that is not negative is a compare-and-set: it creates
-- the project in revision 1 if 0 is expected and there is none; it replaces the document and counts
-- the revision up by one if the expected revision, not 0, is the present one; else it answers that
-- there is a conflict, or no such project, and changes nothing. No other project ever changes.
pub save_cas :
    (id : Text) (e : ℤ) (document now : Text) (ps : Projects)
    → UniqueProjects ps
    → (is_empty id || ltb_ℤ e (pos 0)) ≡ false
    → ((save id e document now ps).0 ≡ answer e id document now (find_project id ps))
      × ((k : Text)
          → find_project k (save id e document now ps).1 ≡ (
              if text_eq k id
              then saved_row (answer e id document now (find_project k ps)) (find_project k ps)
              else find_project k ps))
save_cas id e document now ps u good =
    let a = save-answer id e document now ps u good in
    (ap (λ (x : Saved). x.0) a, λ k. ap (λ (x : Saved). find_project k x.1) a ∙ row k)
  where
    row :
        (k : Text)
        → find_project k (rows_after e id document now ps (find_project id ps)) ≡ (
            if text_eq k id
            then saved_row (answer e id document now (find_project k ps)) (find_project k ps)
            else find_project k ps)
    row k = elim (Bool-cases (text_eq k id)) [
      | inl same ↦ rw (same, (text_eq_iff k id).0 same) (saved-here id e document now ps)
      | inr other ↦ rw other (saved-there id k e document now ps other)
    ]
