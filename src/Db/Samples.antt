-- ===== src/Db/Samples.antt =====
-- Saved projects at concrete requests.
use videocutlist.Prelude.{◌≡◌, refl, List, [], ◌∷◌, true, false, if◌then◌else◌}
use videocutlist.Prelude.Int.{pos}
use videocutlist.Prelude.Text.{Text, codes, text_eq, is_empty}
use videocutlist.Prelude.Outcome.{ok, err}
use videocutlist.Db.Projects.{
  ProjectRecord, Projects, SaveRequest, save, save_tx, run_saves, revision_conflict, find_project,
  get_project, is_current, revised, update_current,
}
use videocutlist.Db.Revisions.{save_cas}
use videocutlist.Db.Rows.{answer, saved_row}
use videocutlist.Db.Conflicts.{no_lost_update}

abbrev first_draft : ProjectRecord
first_draft = record {
  id = codes "p1";
  revision = pos 1;
  document_json = codes "{}";
  created_at = codes "t0";
  updated_at = codes "t0";
}

abbrev saved_projects : Projects
saved_projects = first_draft ∷ []

abbrev second_draft : ProjectRecord
second_draft = record first_draft {
  revision = pos 2;
  document_json = codes "[1]";
  updated_at = codes "t1";
}

second_save :
    (save (codes "p1") (pos 1) (codes "[1]") (codes "t1") saved_projects).0 ≡ ok second_draft
unfolding save save_tx find_project get_project is_current revised update_current text_eq is_empty
    videocutlist.Prelude.Int.◌+ℤ◌
second_save = refl

abbrev third_save : SaveRequest
third_save = record {
  target = codes "p1";
  expected = pos 2;
  document = codes "[2]";
  at = codes "t2";
}

save_cas_example :
    ((save (codes "p1") (pos 1) (codes "[1]") (codes "t1") saved_projects).0
      ≡ answer
          (pos 1)
          (codes "p1")
          (codes "[1]")
          (codes "t1")
          (find_project (codes "p1") saved_projects))
    × ((k : Text)
        → find_project k (save (codes "p1") (pos 1) (codes "[1]") (codes "t1") saved_projects).1 ≡ (
            if text_eq k (codes "p1")
            then saved_row
                (answer
                  (pos 1)
                  (codes "p1")
                  (codes "[1]")
                  (codes "t1")
                  (find_project k saved_projects))
                (find_project k saved_projects)
            else find_project k saved_projects))
unfolding find_project is_empty
save_cas_example =
    save_cas (codes "p1") (pos 1) (codes "[1]") (codes "t1") saved_projects (refl, tt) refl

no_lost_update_example :
    let later =
      run_saves
        (third_save ∷ [])
        (save (codes "p1") (pos 1) (codes "[1]") (codes "t1") saved_projects).1 in
    save (codes "p1") (pos 1) (codes "[3]") (codes "t3") later ≡ (err revision_conflict, later)
unfolding find_project is_empty
no_lost_update_example =
    no_lost_update (codes "p1") (pos 1) (pos 1) (codes "[1]") (codes "t1") (codes "[3]")
      (codes "t3") saved_projects second_draft (third_save ∷ []) (refl, tt) second_save refl refl
