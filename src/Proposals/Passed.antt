-- ===== src/Proposals/Passed.antt =====
-- What stands behind the jobs of a proposal (internal/mcp/proposals.go), and what the parts of Execute have checked.
use videocutlist.Prelude.{
  ◌≡◌, ◌⊎◌, refl, sym, ap, subst, ◌∙◌, true, false, Option, some, List, All, map, leb, arith,
  Bool-cases, Option-cases, inl, inr,
}
use videocutlist.Prelude.Text.{Text, codes, is_empty}
use videocutlist.Prelude.Outcome.{ok, Outcome-cases}
use videocutlist.Mcp.Scopes.{
  Credential, Permission, Resource, exports_run, allows, allows_unattended_export,
}
use videocutlist.Mcp.Table.{Credentials, is_none}
use videocutlist.Mcp.Tokens.{authorize_credential, permit}
use videocutlist.Mcp.Store.{touch_last_used}
use videocutlist.Jobs.Defs.{Job}
use videocutlist.Jobs.Scheduler.{submit_proposal}
use videocutlist.Proposals.Snapshots.{Project, valid_proposal_snapshots}
use videocutlist.Proposals.Store.{ExportProposal, Proposals, get_proposal}
use videocutlist.Proposals.Prepare.{Services, Moment}
use videocutlist.Proposals.Execute.{
  ReportedJob, reported, World, resource_for_proposal, current_project, snapshot_job, snapshot_jobs,
  submit_snapshots, deterministic_identifier,
}
use videocutlist.Proposals.Checks.{Exportable, snapshot_jobs-Exportable, eqb_ℤ→eq}

-- The jobs of the batch were submitted as the proposal's, and are what the answer reports.
abbrev pub Submitted :
    Services → ExportProposal → Text → Text → World → Text × List ReportedJob → World → Type 0
Submitted env p credential stamp w out after =
    (jobs : List Job) × ((submit_proposal p.id credential
        (map (snapshot_job env p credential) p.snapshots) stamp w.scheduler)
      ≡ (ok jobs, after.scheduler))
    × (out ≡ (deterministic_identifier env (codes "b_") p.id, map reported jobs))

pub submit_snapshots-Submitted :
    (env : Services) (p : ExportProposal) (credential : Text) (project : Option Project)
    (stamp : Text) (w : World) (out : Text × List ReportedJob)
    → (submit_snapshots env p credential project stamp w).0 ≡ ok out
    → All (Exportable env p project) p.snapshots
      × Submitted env p credential stamp w out (submit_snapshots env p credential project stamp w).1
unfolding submit_snapshots
submit_snapshots-Submitted env p credential project stamp w out h =
    elim (Outcome-cases (snapshot_jobs env p credential project p.snapshots)) [
      | inr (e, bad) ↦ absurd (ground (arith, h, bad))
      | inl (jobs, good) ↦
          let (all_good, same) =
            snapshot_jobs-Exportable env p credential project p.snapshots jobs good in
          elim (Outcome-cases (submit_proposal p.id credential jobs stamp w.scheduler).0) [
            | inr (e, bad) ↦ absurd (ground (arith, h, good, bad))
            | inl (rows, done) ↦
                let submitted : submit_proposal p.id credential jobs stamp w.scheduler
                    ≡ (ok rows, (submit_proposal p.id credential jobs stamp w.scheduler).1) =
                  ap (λ x. (x, (submit_proposal p.id credential jobs stamp w.scheduler).1)) done in
                (
                  all_good,
                  (
                    rows,
                    ap (λ js. submit_proposal p.id credential js stamp w.scheduler) same
                        ∙ submitted
                        ∙ rw (submit_snapshots, good) refl,
                    sym (ground (arith, h, good, done)),
                  ),
                )
          ]
    ]

-- The project of the proposal is in the revision that was prepared.
abbrev pub InRevision : Services → ExportProposal → Type 0
InRevision env p =
    (project : Project) × (env.projects_get p.project_id ≡ some project)
    × (project.revision ≡ p.project_revision)

pub current_project-InRevision :
    (env : Services) (p : ExportProposal) (project : Option Project)
    → current_project env p ≡ ok project
    → is_empty p.project_id ≡ false
    → InRevision env p
unfolding current_project
current_project-InRevision env p project h named =
    elim (Option-cases (env.projects_get p.project_id)) [
      | inl missing ↦ absurd (ground (arith, h, named, missing))
      | inr (found, there) ↦ (
        found,
        there,
        eqb_ℤ→eq found.revision p.project_revision (ground (arith, h, named, there)),
      )
    ]

pub authorize-allows :
    (id : Text) (q : Permission) (resource : Resource) (at : Moment) (rows : Credentials)
    (c : Credential)
    → (authorize_credential id q resource at.now at.later at.between rows).0 ≡ ok c
    → allows c q resource ≡ true
unfolding authorize_credential permit
authorize-allows id q resource at rows c h =
    elim (Outcome-cases (touch_last_used id at.now at.later at.between rows).0) [
      | inr (e, bad) ↦ absurd (ground (arith, h, bad))
      | inl (d, used_by) ↦ elim (Bool-cases (allows d q resource)) [
        | inr denied ↦ absurd (ground (arith, h, used_by, denied))
        | inl allowed ↦
            let same : d ≡ c = ground (arith, h, used_by, allowed) in
            subst (λ x. allows x q resource ≡ true) same allowed
      ]
    ]

-- What is behind a proposal that has been executed.
pub record Justified (seen env : Services) (id credential : Text) (at : Moment) (stamp : Text)
    (rows : Proposals) (w : World) (out : Text × List ReportedJob) (after : World) : Type 0 where
  pub proposal : ExportProposal
  pub project : Option Project
  pub resource : Resource
  pub holder : Credential
  pub stored : get_proposal id rows ≡ ok proposal
  pub within_limits : valid_proposal_snapshots proposal.snapshots ≡ true
  pub same_credential : credential ≡ proposal.credential_id
  pub unexpired : leb proposal.expires_at at.saved ≡ false
  pub covered : resource_for_proposal seen proposal ≡ ok resource
  pub current : current_project env proposal ≡ ok project
  pub same_revision : is_empty proposal.project_id ≡ false → InRevision env proposal
  pub authorized :
      (authorize_credential credential exports_run resource at.now at.later at.between
        w.credentials).0
      ≡ ok holder
  pub permitted : allows holder exports_run resource ≡ true
  pub agreed : (is_none proposal.approved_at ≡ false) ⊎ (allows_unattended_export holder ≡ true)
  pub exportable : All (Exportable env proposal project) proposal.snapshots
  pub submitted : Submitted env proposal credential stamp w out after
