-- ===== src/Proposals/Checks.antt =====
-- What `Execute` has checked of a snapshot before it makes a job (internal/mcp/proposals.go).
use videocutlist.Prelude.{
  ◌≡◌, ap, ◌∙◌, true, ◌&&◌, Option, none, some, List, [], ◌∷◌, All, map, arith, Bool-cases,
  Option-cases, inl, inr,
}
use videocutlist.Prelude.Int.{ℤ, eqb_ℤ, eq_of_parts}
use videocutlist.Prelude.Text.{Text, text_eq, text_eq_iff}
use videocutlist.Prelude.Outcome.{ok, Outcome-cases}
use videocutlist.Jobs.Defs.{Job}
use videocutlist.Proposals.Snapshots.{
  Project, Media, ExportSnapshot, ExportPreflight, validate_snapshot,
}
use videocutlist.Proposals.Store.{ExportProposal}
use videocutlist.Proposals.Prepare.{Services, input_of}
use videocutlist.Proposals.Execute.{checked_project, check_snapshot, snapshot_job, snapshot_jobs}

-- The media file is the one that was frozen.
abbrev pub Unchanged : ExportSnapshot → Media → Type 0
Unchanged s media =
    (media.id ≡ s.source.media_id)
    × (media.root_id ≡ s.source.root_id)
    × (media.etag ≡ s.source.etag)
    × (media.size_bytes ≡ s.source.size_bytes)
    × (media.duration_ms ≡ s.source.duration_ms)

-- The media file of the snapshot is there unchanged, and the preflight allows its export.
abbrev pub Exportable : Services → ExportProposal → Option Project → ExportSnapshot → Type 0
Exportable env p project s =
    ((media : Media) × (env.media_get s.source.media_id ≡ some media) × Unchanged s media)
    × ((checked : ExportPreflight) × (env.preflight p.project_id (checked_project p project s.item)
            (input_of p.destination_id s.item.export_options)
          ≡ some checked)
        × (checked.allowed ≡ true))

pub eqb_ℤ→eq : (a b : ℤ) → eqb_ℤ a b ≡ true → a ≡ b
eqb_ℤ→eq a b h = eq_of_parts a b (ground (arith, h))

validate_snapshot-Unchanged :
    (s : ExportSnapshot) (media : Media)
    → validate_snapshot s media ≡ true
    → text_eq media.root_id s.source.root_id ≡ true
    → Unchanged s media
unfolding validate_snapshot
validate_snapshot-Unchanged s media h k = (
  (text_eq_iff media.id s.source.media_id).0 (ground (arith, h)),
  (text_eq_iff media.root_id s.source.root_id).0 k,
  (text_eq_iff media.etag s.source.etag).0 (ground (arith, h)),
  eqb_ℤ→eq media.size_bytes s.source.size_bytes (ground (arith, h)),
  eqb_ℤ→eq media.duration_ms s.source.duration_ms (ground (arith, h)),
)

check_snapshot-Exportable :
    (env : Services) (p : ExportProposal) (project : Option Project) (s : ExportSnapshot)
    → check_snapshot env p project s ≡ none
    → Exportable env p project s
unfolding check_snapshot
check_snapshot-Exportable env p project s h =
    elim (Option-cases (env.media_get s.source.media_id)) [
      | inl missing ↦ absurd (ground (arith, h, missing))
      | inr (media, there) ↦
          elim (Bool-cases (validate_snapshot s media && text_eq media.root_id s.source.root_id)) [
            | inr changed ↦ absurd (ground (arith, h, there, changed))
            | inl same ↦
                elim (Option-cases (
                  env.preflight p.project_id (checked_project p project s.item)
                    (input_of p.destination_id s.item.export_options))) [
                      | inl failed ↦ absurd (ground (arith, h, there, same, failed))
                      | inr (checked, answered) ↦ (
                        (
                          media,
                          there,
                          validate_snapshot-Unchanged s media (ground (arith, same))
                              (ground (arith, same)),
                        ),
                        (checked, answered, ground (arith, h, there, same, answered)),
                      )
                    ]
          ]
    ]

-- The jobs are those of the snapshots, one for each in order.
pub snapshot_jobs-Exportable :
    (env : Services) (p : ExportProposal) (credential : Text) (project : Option Project)
    (ss : List ExportSnapshot) (jobs : List Job)
    → snapshot_jobs env p credential project ss ≡ ok jobs
    → All (Exportable env p project) ss × (map (snapshot_job env p credential) ss ≡ jobs)
unfolding snapshot_jobs
snapshot_jobs-Exportable env p credential project [] jobs h = (tt, ground (arith, h))
snapshot_jobs-Exportable env p credential project (s ∷ ss) jobs h =
    elim (Option-cases (check_snapshot env p project s)) [
      | inr (e, bad) ↦ absurd (ground (arith, h, bad))
      | inl good ↦ elim (Outcome-cases (snapshot_jobs env p credential project ss)) [
        | inr (e, bad) ↦ absurd (ground (arith, h, good, bad))
        | inl (rest, more) ↦
            let (all_good, same) = snapshot_jobs-Exportable env p credential project ss rest more in
            let whole : snapshot_job env p credential s ∷ rest ≡ jobs =
              ground (arith, h, good, more) in
            (
              (check_snapshot-Exportable env p project s good, all_good),
              ap (◌∷◌ (snapshot_job env p credential s)) same ∙ whole,
            )
      ]
    ]
