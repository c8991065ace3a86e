-- ===== src/Proposals/Execute.antt =====
-- internal/mcp/proposals.go: `Execute`, from a proposal to the jobs of its batch.
use videocutlist.Prelude.{
  Bool, true, false, not, ◌&&◌, ◌||◌, Option, none, some, List, [], ◌∷◌, ◌++◌, if◌then◌else◌, leb,
  map,
}
use videocutlist.Prelude.Int.{ℤ, eqb_ℤ}
use videocutlist.Prelude.Text.{Text, codes, text_eq, is_empty}
use videocutlist.Prelude.Outcome.{Outcome, ok, err}
use videocutlist.Mcp.Scopes.{
  Credential, MediaResource, Resource, exports_run, allows_unattended_export,
}
use videocutlist.Mcp.Table.{Credentials, is_none}
use videocutlist.Mcp.Tokens.{authorize_credential}
use videocutlist.Jobs.Defs.{Job, JobState, JobKind, job_export, queued}
use videocutlist.Jobs.Scheduler.{Scheduler, submit_proposal}
use videocutlist.Proposals.Snapshots.{
  Project, ProjectItem, ExportSnapshot, validate_snapshot, valid_proposal_snapshots,
}
use videocutlist.Proposals.Store.{
  ProposalError, proposal_expired, approval_needed, proposal_stale, proposal_blocked, proposal_data,
  resource_denied, service_failed, of_credential, of_jobs, ExportProposal, Proposals, get_proposal,
}
use videocutlist.Proposals.Prepare.{Services, Moment, resolve_project, input_of, one_item}

abbrev equal_indexes : List ℤ → List ℤ → Bool
equal_indexes [] [] = true
equal_indexes [] (y ∷ ys) = false
equal_indexes (x ∷ xs) [] = false
equal_indexes (x ∷ xs) (y ∷ ys) = eqb_ℤ x y && equal_indexes xs ys

unfoldable pub deterministic_identifier : Services → Text → Text → Text
deterministic_identifier env prefix value = prefix ++ env.short_digest value

-- `ResourceForProject` and `resourceForProposal`.
unfoldable pub resource_for_project : Services → Text → Outcome ProposalError Resource
unfolding resolve_project
resource_for_project env id = elim (env.projects_get id) [
  | none ↦ err service_failed
  | some project ↦ elim (resolve_project env project []) [
    | err e ↦ err e
    | ok (items, resource) ↦ ok resource
  ]
]

abbrev pub snapshot_media : List ExportSnapshot → List MediaResource
snapshot_media = map (λ s. record { id = s.source.media_id; root_id = s.source.root_id })

unfoldable pub resource_for_proposal : Services → ExportProposal → Outcome ProposalError Resource
unfolding resource_for_project
resource_for_proposal env p =
    if not (is_empty p.project_id)
    then resource_for_project env p.project_id
    else ok (record {
      media_id = [];
      root_id = [];
      project_id = [];
      project_media = snapshot_media p.snapshots;
      project_summary = false;
    })

-- The project of a proposal in its revision; `none` where the proposal has no project.
unfoldable pub current_project : Services → ExportProposal → Outcome ProposalError (Option Project)
current_project env p =
    if is_empty p.project_id then ok none else elim (env.projects_get p.project_id) [
      | none ↦ err proposal_stale
      | some project ↦
          if eqb_ℤ project.revision p.project_revision
          then ok (some project)
          else err proposal_stale
    ]

-- The project that the preflight is asked about.
abbrev pub checked_project : ExportProposal → Option Project → ProjectItem → Project
checked_project p none item = one_item p.project_id p.project_revision 2 (codes "MCP export") item
checked_project p (some project) item =
    one_item p.project_id p.project_revision project.document.schema_version project.document.name
      item

-- Whether a snapshot can still be exported as it was frozen.
unfoldable pub check_snapshot :
    Services → ExportProposal → Option Project → ExportSnapshot → Option ProposalError
unfolding validate_snapshot
check_snapshot env p project s = elim (env.media_get s.source.media_id) [
  | none ↦ some proposal_stale
  | some media ↦
      if not (validate_snapshot s media) || not (text_eq media.root_id s.source.root_id)
      then some proposal_stale
      else elim (env.preflight p.project_id (checked_project p project s.item)
          (input_of p.destination_id s.item.export_options)) [
            | none ↦ some service_failed
            | some checked ↦
                if not checked.allowed
                then some proposal_blocked
                else if equal_indexes checked.checked_selection s.item.export_options.stream_indexes
                then none
                else some proposal_stale
          ]
]

abbrev pub job_project : Services → ExportProposal → Text
job_project env p =
    if is_empty p.project_id then deterministic_identifier env (codes "p_") p.id else p.project_id

-- A job of the batch; the queue sets its state and its times.
abbrev pub snapshot_job : Services → ExportProposal → Text → ExportSnapshot → Job
snapshot_job env p credential s = record {
  id = deterministic_identifier env (codes "j_") ((p.id ++ 0 ∷ []) ++ s.item.id);
  batch_id = deterministic_identifier env (codes "b_") p.id;
  project_id = job_project env p;
  project_item_id = s.item.id;
  proposal_id = p.id;
  credential_id = credential;
  kind = job_export;
  state = queued;
  request_json = env.marshal s;
  result_json = none;
  error_code = none;
  created_at = [];
  updated_at = [];
}

-- The loop over the snapshots.
unfoldable pub snapshot_jobs :
    Services
    → ExportProposal
    → Text
    → Option Project
    → List ExportSnapshot
    → Outcome ProposalError (List Job)
unfolding check_snapshot deterministic_identifier
snapshot_jobs env p credential project [] = ok []
snapshot_jobs env p credential project (s ∷ ss) = elim (check_snapshot env p project s) [
  | some e ↦ err e
  | none ↦ elim (snapshot_jobs env p credential project ss) [
    | err e ↦ err e
    | ok jobs ↦ ok (snapshot_job env p credential s ∷ jobs)
  ]
]

-- What the answer tells of a job.
pub record ReportedJob : Type 0 where
  pub id : Text
  pub batch_id : Text
  pub project_item_id : Text
  pub kind : JobKind
  pub state : JobState
  pub created_at : Text
  pub updated_at : Text

abbrev pub reported : Job → ReportedJob
reported j = record {
  id = j.id;
  batch_id = j.batch_id;
  project_item_id = j.project_item_id;
  kind = j.kind;
  state = j.state;
  created_at = j.created_at;
  updated_at = j.updated_at;
}

pub record World : Type 0 where
  pub credentials : Credentials
  pub scheduler : Scheduler

abbrev pub Executed : Type 0
Executed = Outcome ProposalError (Text × List ReportedJob) × World

-- The end of `Execute`: the jobs are made and submitted. `stamp` is the formatted time of the call.
unfoldable pub submit_snapshots :
    Services → ExportProposal → Text → Option Project → Text → World → Executed
unfolding snapshot_jobs deterministic_identifier
submit_snapshots env p credential project stamp w =
    elim (snapshot_jobs env p credential project p.snapshots) [
      | err e ↦ (err e, w)
      | ok jobs ↦
          let (created, scheduler) = submit_proposal p.id credential jobs stamp w.scheduler in
          (
            elim created [
              | err e ↦ err (of_jobs e)
              | ok rows ↦ ok (deterministic_identifier env (codes "b_") p.id, map reported rows)
            ],
            record w { scheduler = scheduler },
          )
    ]

-- What is left after the credential is found to allow the export.
unfoldable pub execute_allowed :
    Services → ExportProposal → Text → Option Project → Text → Credential → World → Executed
unfolding submit_snapshots
execute_allowed env p credential project stamp c w =
    if is_none p.approved_at && not (allows_unattended_export c)
    then (err approval_needed, w)
    else submit_snapshots env p credential project stamp w

-- What is left after the resource and the project are found.
unfoldable pub execute_resolved :
    Services → ExportProposal → Text → Moment → Text → Resource → Option Project → World → Executed
unfolding execute_allowed
execute_resolved env p credential at stamp resource project w =
    let (granted, credentials) =
      authorize_credential credential exports_run resource at.now at.later at.between
        w.credentials in
    elim granted [
      | err e ↦ (err (of_credential e), record w { credentials = credentials })
      | ok c ↦
          execute_allowed env p credential project stamp c (record w { credentials = credentials })
    ]

-- `at.saved` is the clock at the test of the expiry. The project is read twice, and its media files too:
-- what the services answer may differ between the reads for the resource, which are of `seen`, and the
-- later ones, which are of `env`.
unfoldable pub execute :
    Services → Services → Text → Text → Moment → Text → Proposals → World → Executed
unfolding resource_for_proposal current_project execute_resolved
execute seen env id credential at stamp rows w = elim (get_proposal id rows) [
  | err e ↦ (err e, w)
  | ok p ↦
      if not (valid_proposal_snapshots p.snapshots)
      then (err proposal_data, w)
      else if not (text_eq credential p.credential_id)
      then (err resource_denied, w)
      else if leb p.expires_at at.saved
      then (err proposal_expired, w)
      else elim (resource_for_proposal seen p) [
        | err e ↦ (err e, w)
        | ok resource ↦ elim (current_project env p) [
          | err e ↦ (err e, w)
          | ok project ↦ execute_resolved env p credential at stamp resource project w
        ]
      ]
]
