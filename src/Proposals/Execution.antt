-- ===== src/Proposals/Execution.antt =====
-- What an executed proposal has passed, and that it runs once (internal/mcp/proposals.go).
use videocutlist.Prelude.{
  ◌≡◌, ◌⊎◌, refl, sym, ap, ◌∙◌, Bool, true, false, not, ◌&&◌, Option, List, leb, arith, Bool-cases,
  inl, inr,
}
use videocutlist.Prelude.Text.{Text, text_eq, text_eq_iff}
use videocutlist.Prelude.Outcome.{ok, err, Outcome-cases}
use videocutlist.Mcp.Scopes.{Resource, exports_run, allows_unattended_export}
use videocutlist.Mcp.Table.{is_none}
use videocutlist.Mcp.Tokens.{authorize_credential}
use videocutlist.Proposals.Snapshots.{Project, valid_proposal_snapshots}
use videocutlist.Proposals.Store.{
  proposal_data, resource_denied, proposal_expired, ProposalError, ExportProposal, Proposals,
  get_proposal,
}
use videocutlist.Proposals.Prepare.{Services, Moment}
use videocutlist.Proposals.Execute.{
  ReportedJob, World, Executed, resource_for_proposal, current_project, submit_snapshots,
  execute_allowed, execute_resolved, execute,
}
use videocutlist.Proposals.Passed.{
  Justified, submit_snapshots-Submitted, current_project-InRevision, authorize-allows,
}

-- A call is refused before it checks the credential, or has found all that it needs.
execute-resolved :
    (seen env : Services) (id credential : Text) (at : Moment) (stamp : Text) (rows : Proposals)
    (w : World) (p : ExportProposal)
    → get_proposal id rows ≡ ok p
    → ((e : ProposalError) × (execute seen env id credential at stamp rows w ≡ (err e, w)))
      ⊎ ((resource : Resource) × (project : Option Project) × (resource_for_proposal seen p
            ≡ ok resource)
          × (current_project env p ≡ ok project)
          × (valid_proposal_snapshots p.snapshots ≡ true)
          × (text_eq credential p.credential_id ≡ true)
          × (leb p.expires_at at.saved ≡ false)
          × (execute seen env id credential at stamp rows w
              ≡ execute_resolved env p credential at stamp resource project w))
unfolding execute
execute-resolved seen env id credential at stamp rows w p stored =
    elim (Bool-cases (valid_proposal_snapshots p.snapshots)) [
      | inr bad ↦ inl (proposal_data, rw (execute, stored, bad) refl)
      | inl valid ↦ elim (Bool-cases (text_eq credential p.credential_id)) [
        | inr bad ↦ inl (resource_denied, rw (execute, stored, valid, bad) refl)
        | inl own ↦ elim (Bool-cases (leb p.expires_at at.saved)) [
          | inl bad ↦ inl (proposal_expired, rw (execute, stored, valid, own, bad) refl)
          | inr fresh ↦ elim (Outcome-cases (resource_for_proposal seen p)) [
            | inr (e, bad) ↦ inl (e, rw (execute, stored, valid, own, fresh, bad) refl)
            | inl (resource, covered) ↦ elim (Outcome-cases (current_project env p)) [
              | inr (e, bad) ↦ inl (e, rw (execute, stored, valid, own, fresh, covered, bad) refl)
              | inl (project, current) ↦ inr (
                resource,
                project,
                covered,
                current,
                valid,
                own,
                fresh,
                rw (execute, stored, valid, own, fresh, covered, current) refl,
              )
            ]
          ]
        ]
      ]
    ]

resolved-Justified :
    (seen env : Services) (id credential : Text) (at : Moment) (stamp : Text) (rows : Proposals)
    (w : World) (out : Text × List ReportedJob) (p : ExportProposal) (resource : Resource)
    (project : Option Project)
    → get_proposal id rows ≡ ok p
    → resource_for_proposal seen p ≡ ok resource
    → current_project env p ≡ ok project
    → valid_proposal_snapshots p.snapshots ≡ true
    → text_eq credential p.credential_id ≡ true
    → leb p.expires_at at.saved ≡ false
    → (execute_resolved env p credential at stamp resource project w).0 ≡ ok out
    → Justified seen env id credential at stamp rows w out
        (execute_resolved env p credential at stamp resource project w).1
unfolding execute_resolved execute_allowed
resolved-Justified seen env id credential at stamp rows w out p resource project stored covered
      current valid own fresh h =
    let call =
      authorize_credential credential exports_run resource at.now at.later at.between
        w.credentials in
    let met : World = record w { credentials = call.1 } in
    elim (Outcome-cases call.0) [
      | inr (e, bad) ↦ absurd (ground (arith, h, bad))
      | inl (c, granted) ↦
          elim (Bool-cases (is_none p.approved_at && not (allows_unattended_export c))) [
            | inl bad ↦ absurd (ground (arith, h, granted, bad))
            | inr agreed ↦
                let whole : execute_resolved env p credential at stamp resource project w
                    ≡ submit_snapshots env p credential project stamp met =
                  rw (execute_resolved, execute_allowed, granted, agreed) refl in
                let (all_good, made) =
                  submit_snapshots-Submitted env p credential project stamp met out
                    (ap (λ (x : Executed). x.0) (sym whole) ∙ h) in
                rw whole (record {
                  proposal = p;
                  project = project;
                  resource = resource;
                  holder = c;
                  stored = stored;
                  within_limits = valid;
                  same_credential = (text_eq_iff credential p.credential_id).0 own;
                  unexpired = fresh;
                  covered = covered;
                  current = current;
                  same_revision = current_project-InRevision env p project current;
                  authorized = granted;
                  permitted =
                      authorize-allows credential exports_run resource at w.credentials c granted;
                  agreed = either (is_none p.approved_at) (allows_unattended_export c) agreed;
                  exportable = all_good;
                  submitted = made;
                })
          ]
    ]
  where
    either : (a b : Bool) → (a && not b) ≡ false → (a ≡ false) ⊎ (b ≡ true)
    either false b h = inl refl
    either true true h = inr refl
    either true false h = absurd (cc h)

-- Whatever is executed is a stored proposal within its limits and not expired, executed by the
-- credential that prepared it; at its second read its project is in the revision of the proposal, the credential is
-- authorized to run exports of its resource as it was first read, and it is approved, or the credential may export
-- unattended. Each of its media files is unchanged and passes the preflight, and the jobs that are
-- submitted are those of its snapshots.
pub execute-Justified :
    (seen env : Services) (id credential : Text) (at : Moment) (stamp : Text) (rows : Proposals)
    (w : World) (out : Text × List ReportedJob)
    → (execute seen env id credential at stamp rows w).0 ≡ ok out
    → Justified seen env id credential at stamp rows w out
        (execute seen env id credential at stamp rows w).1
execute-Justified seen env id credential at stamp rows w out h =
    elim (Outcome-cases (get_proposal id rows)) [
      | inr (e, bad) ↦ absurd (unfold execute in ground (arith, h, bad))
      | inl (p, stored) ↦ elim (execute-resolved seen env id credential at stamp rows w p stored) [
        | inl (e, bad) ↦ absurd (cc (ap (λ (x : Executed). x.0) bad, h))
        | inr (resource, project, covered, current, valid, own, fresh, same) ↦ rw same (
            resolved-Justified seen env id credential at stamp rows w out p resource project stored
              covered current valid own fresh (ap (λ (x : Executed). x.0) (sym same) ∙ h))
      ]
    ]
