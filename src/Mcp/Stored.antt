-- ===== src/Mcp/Stored.antt =====
-- What is stored of a credential reads back as it was stored (internal/mcp/credentials.go): the checks
-- that `scanCredential` repeats accept their own results and leave them as they are.
use videocutlist.Prelude.{
  ◌≡◌, ℕ, refl, Bool, true, false, not, ◌&&◌, none, List, [], if◌then◌else◌, arith, Bool-cases,
  Option-cases, inl, inr, ◌∙◌, sym,
}
use videocutlist.Prelude.Text.{text_eq}
use videocutlist.Prelude.Outcome.{ok, err, Outcome-cases}
use videocutlist.Projects.Timestamps.{trim_space}
use videocutlist.Mcp.Ids.{contains, sort_texts}
use videocutlist.Mcp.Scopes.{
  Permission, known_permissions, projects_read, projects_write, MediaScope, ProjectScope,
  credential_invalid,
}
use videocutlist.Mcp.Normalize.{
  normalize_permissions, normalize_media_scope, normalize_project_scope, normalize_credential_input,
  CredentialInput, expiry_error, valid_credential_name,
}
use videocutlist.Mcp.Sorting.{
  sort_texts-sort_texts, any-sort_texts, all-sort_texts, good_ids-sort_texts, collected,
  collect-collected, unseen_first, sort-distinct,
}

collected-sort_texts : (ps : List Permission) → collected [] (sort_texts ps) ≡ collected [] ps
unfolding collected
collected-sort_texts ps =
    rw
      (
        all-sort_texts (λ p. contains p known_permissions) ps,
        sort-distinct ps,
        unseen_first ps,
        unseen_first (sort_texts ps),
      )
      refl

abbrev pub needs_read : List Permission → Bool
needs_read ps = contains projects_write ps && not (contains projects_read ps)

if-not : {A : Type 0} (b : Bool) (x y : A) → (if b then x else y) ≡ (if true && not b then y else x)
if-not true x y = refl
if-not false x y = refl

pub normalize_permissions-collected :
    (ps : List Permission)
    → normalize_permissions ps ≡ (
        if collected [] ps && not (needs_read ps)
        then ok (sort_texts ps)
        else err credential_invalid)
unfolding normalize_permissions
normalize_permissions-collected ps =
    rw (normalize_permissions, collect-collected [] ps)
      (elim (Bool-cases (collected [] ps)) [
        | inl good ↦
            rw
              (
                good,
                any-sort_texts (text_eq projects_write) ps,
                any-sort_texts (text_eq projects_read) ps,
              )
              (if-not (needs_read ps) _ _)
        | inr bad ↦ rw bad refl
      ])

normalize_permissions_stored :
    (ps qs : List Permission) → normalize_permissions ps ≡ ok qs → normalize_permissions qs ≡ ok qs
normalize_permissions_stored ps qs h =
    let (good, e) =
      accepted (collected [] ps && not (needs_read ps)) (sort_texts ps) qs
        (sym (normalize_permissions-collected ps) ∙ h) in
    rw (sym e) (
      normalize_permissions-collected (sort_texts ps)
      ∙ rw
          (
            collected-sort_texts ps,
            any-sort_texts (text_eq projects_write) ps,
            any-sort_texts (text_eq projects_read) ps,
            good,
            sort_texts-sort_texts ps,
          )
          refl)
  where
    accepted :
        (b : Bool) (x y : List Permission)
        → (if b then ok x else err credential_invalid) ≡ ok y
        → (b ≡ true) × (x ≡ y)
    accepted b x y h = ground (arith, h)

normalize_media_scope_stored :
    (s t : MediaScope) → normalize_media_scope s ≡ ok t → normalize_media_scope t ≡ ok t
unfolding normalize_media_scope
normalize_media_scope_stored s t h = ground (
  arith,
  h,
  good_ids-sort_texts s.root_ids,
  good_ids-sort_texts s.media_ids,
  sort_texts-sort_texts s.root_ids,
  sort_texts-sort_texts s.media_ids,
)

normalize_project_scope_stored :
    (s t : ProjectScope) → normalize_project_scope s ≡ ok t → normalize_project_scope t ≡ ok t
unfolding normalize_project_scope
normalize_project_scope_stored s t h =
    ground (arith, h, good_ids-sort_texts s.project_ids, sort_texts-sort_texts s.project_ids)

-- The input passes the check of the expiry.
abbrev pub ExpiresLater : ℕ → CredentialInput → Type 0
ExpiresLater now input = expiry_error now input ≡ none

-- What is accepted has passed the checks of the name and of the expiry, and its permissions and scopes
-- are accepted again, and unchanged.
pub normalize_credential_input_stored :
    (input : CredentialInput) (now : ℕ) (out : CredentialInput)
    → normalize_credential_input input now ≡ ok out
    → (valid_credential_name input.name ≡ true)
      × (out.name ≡ trim_space input.name)
      × ExpiresLater now out
      × (normalize_permissions out.permissions ≡ ok out.permissions)
      × (normalize_media_scope out.media_scope ≡ ok out.media_scope)
      × (normalize_project_scope out.project_scope ≡ ok out.project_scope)
unfolding normalize_credential_input
normalize_credential_input_stored input now out h =
    elim (Bool-cases (valid_credential_name input.name)) [
      | inr bad ↦ absurd (ground (arith, h, bad))
      | inl good ↦ elim (Outcome-cases (normalize_permissions input.permissions)) [
        | inr (e, q) ↦ absurd (ground (arith, h, good, q))
        | inl (ps, q) ↦ elim (Outcome-cases (normalize_media_scope input.media_scope)) [
          | inr (e, m) ↦ absurd (ground (arith, h, good, q, m))
          | inl (ms, m) ↦ elim (Outcome-cases (normalize_project_scope input.project_scope)) [
            | inr (e, p) ↦ absurd (ground (arith, h, good, q, m, p))
            | inl (sc, p) ↦ elim (Option-cases (expiry_error now input)) [
              | inr (e, x) ↦ absurd (ground (arith, h, good, q, m, p, x))
              | inl x ↦ stored ps ms sc good q m p x
            ]
          ]
        ]
      ]
    ]
  where
    stored :
        (ps : List Permission) (ms : MediaScope) (sc : ProjectScope)
        → valid_credential_name input.name ≡ true
        → normalize_permissions input.permissions ≡ ok ps
        → normalize_media_scope input.media_scope ≡ ok ms
        → normalize_project_scope input.project_scope ≡ ok sc
        → expiry_error now input ≡ none
        → (valid_credential_name input.name ≡ true)
          × (out.name ≡ trim_space input.name)
          × ExpiresLater now out
          × (normalize_permissions out.permissions ≡ ok out.permissions)
          × (normalize_media_scope out.media_scope ≡ ok out.media_scope)
          × (normalize_project_scope out.project_scope ≡ ok out.project_scope)
    stored ps ms sc good q m p x =
        let e : record input {
          name = trim_space input.name;
          permissions = ps;
          media_scope = ms;
          project_scope = sc;
        }
            ≡ out =
          ground (arith, h, good, q, m, p, x) in
        rw (sym e) (
          good,
          refl,
          x,
          normalize_permissions_stored input.permissions ps q,
          normalize_media_scope_stored input.media_scope ms m,
          normalize_project_scope_stored input.project_scope sc p,
        )
