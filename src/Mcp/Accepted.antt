-- ===== src/Mcp/Accepted.antt =====
-- What a new credential may hold (internal/mcp/credentials.go): the input that `normalizeCredentialInput`
-- has accepted, and what it makes of it.
use videocutlist.Prelude.{
  ◌≡◌, ◌⊎◌, ◌≤◌, ◌<◌, ℕ, refl, sym, ap, ◌∙◌, Bool, true, false, not, ◌&&◌, none, some, List, [],
  length, any, all, arith, Bool-cases, Option-cases, inl, inr,
}
use videocutlist.Prelude.Text.{Text, codes, text_eq, is_empty}
use videocutlist.Prelude.Utf8.{rune_count}
use videocutlist.Prelude.Outcome.{ok, Outcome-cases}
use videocutlist.Projects.Timestamps.{trim_space}
use videocutlist.Mcp.Ids.{contains, sort_texts, valid_safe_identifier, valid_id_list}
use videocutlist.Mcp.Scopes.{
  Permission, known_permissions, projects_read, projects_write, MediaScope, ProjectScope,
}
use videocutlist.Mcp.Normalize.{
  normalize_permissions, normalize_media_scope, normalize_project_scope, normalize_credential_input,
  CredentialInput, expiry_error, valid_credential_name, has_control, valid_utf8, good_ids,
}
use videocutlist.Mcp.Sorting.{
  any-sort_texts, collected, distinct, sort-distinct, all-sort_texts, valid_ids_from-distinct,
  good_ids-sort_texts,
}
use videocutlist.Mcp.Stored.{normalize_permissions-collected, needs_read}

-- The checks that an accepted input has passed.
passed :
    (input : CredentialInput) (now : ℕ) (out : CredentialInput)
    → normalize_credential_input input now ≡ ok out
    → (valid_credential_name input.name ≡ true)
      × (expiry_error now input ≡ none)
      × (normalize_permissions input.permissions ≡ ok out.permissions)
      × (normalize_media_scope input.media_scope ≡ ok out.media_scope)
      × (normalize_project_scope input.project_scope ≡ ok out.project_scope)
      × (out ≡ record input {
        name = trim_space input.name;
        permissions = out.permissions;
        media_scope = out.media_scope;
        project_scope = out.project_scope;
      })
unfolding normalize_credential_input
passed input now out h = elim (Bool-cases (valid_credential_name input.name)) [
  | inr bad ↦ absurd (ground (arith, h, bad))
  | inl good ↦ elim (Outcome-cases (normalize_permissions input.permissions)) [
    | inr (e, q) ↦ absurd (ground (arith, h, good, q))
    | inl (ps, q) ↦ elim (Outcome-cases (normalize_media_scope input.media_scope)) [
      | inr (e, m) ↦ absurd (ground (arith, h, good, q, m))
      | inl (ms, m) ↦ elim (Outcome-cases (normalize_project_scope input.project_scope)) [
        | inr (e, p) ↦ absurd (ground (arith, h, good, q, m, p))
        | inl (sc, p) ↦ elim (Option-cases (expiry_error now input)) [
          | inr (e, x) ↦ absurd (ground (arith, h, good, q, m, p, x))
          | inl x ↦
              let e : record input {
                name = trim_space input.name;
                permissions = ps;
                media_scope = ms;
                project_scope = sc;
              }
                  ≡ out =
                ground (arith, h, good, q, m, p, x) in
              rw (sym e) (good, x, q, m, p, refl)
        ]
      ]
    ]
  ]
]

-- Ids that a scope may name.
abbrev pub NamedIds : List Text → Type 0
NamedIds ids =
    (0 < length ids)
    × (length ids ≤ 1000)
    × (all valid_safe_identifier ids ≡ true)
    × (distinct ids ≡ true)

good_ids-NamedIds : (ids : List Text) → good_ids ids ≡ true → NamedIds ids
unfolding valid_id_list
good_ids-NamedIds ids h = (
  ground (arith, h),
  ground (arith, h),
  ground (arith, h, valid_ids_from-distinct [] ids),
  ground (arith, h, valid_ids_from-distinct [] ids),
)

-- The same ids, in some order.
abbrev pub SameIds : List Text → List Text → Type 0
SameIds a b = (p : Text → Bool) → any p a ≡ any p b

-- All media, or those of some roots, or some media.
abbrev pub MediaAccepted : MediaScope → MediaScope → Type 0
MediaAccepted s t =
    (t.media_kind ≡ s.media_kind)
    × SameIds t.root_ids s.root_ids
    × SameIds t.media_ids s.media_ids
    × ((text_eq t.media_kind (codes "all") ≡ true)
          × (length t.root_ids ≡ 0)
          × (length t.media_ids ≡ 0)
        ⊎ (text_eq t.media_kind (codes "roots") ≡ true)
          × NamedIds t.root_ids
          × (length t.media_ids ≡ 0)
        ⊎ (text_eq t.media_kind (codes "media") ≡ true)
          × NamedIds t.media_ids
          × (length t.root_ids ≡ 0))

abbrev pub ProjectAccepted : ProjectScope → ProjectScope → Type 0
ProjectAccepted s t =
    (t.project_kind ≡ s.project_kind)
    × SameIds t.project_ids s.project_ids
    × ((text_eq t.project_kind (codes "all") ≡ true) × (length t.project_ids ≡ 0)
        ⊎ (text_eq t.project_kind (codes "projects") ≡ true) × NamedIds t.project_ids)

project-Accepted : (s t : ProjectScope) → normalize_project_scope s ≡ ok t → ProjectAccepted s t
unfolding normalize_project_scope
project-Accepted s t h = elim (Bool-cases (text_eq s.project_kind (codes "all"))) [
  | inl every ↦
      let none_named : length s.project_ids ≡ 0 = ground (arith, h, every) in
      let e : s ≡ t = ground (arith, h, every) in
      rw (sym e) (refl, λ p. refl, inl (every, none_named))
  | inr other ↦
      let named : text_eq s.project_kind (codes "projects") ≡ true = ground (arith, h, other) in
      let good : good_ids s.project_ids ≡ true = ground (arith, h, other, named) in
      let e : record s { project_ids = sort_texts s.project_ids } ≡ t =
        ground (arith, h, other, named, good) in
      rw (sym e) (
        refl,
        λ p. any-sort_texts p s.project_ids,
        inr (
          named,
          good_ids-NamedIds (sort_texts s.project_ids) (good_ids-sort_texts s.project_ids ∙ good),
        ),
      )
]

media-Accepted : (s t : MediaScope) → normalize_media_scope s ≡ ok t → MediaAccepted s t
unfolding normalize_media_scope
media-Accepted s t h = elim (Bool-cases (text_eq s.media_kind (codes "all"))) [
  | inl every ↦
      let no_roots : length s.root_ids ≡ 0 = ground (arith, h, every) in
      let no_media : length s.media_ids ≡ 0 = ground (arith, h, every) in
      let e : s ≡ t = ground (arith, h, every) in
      rw (sym e) (refl, λ p. refl, λ p. refl, inl (every, no_roots, no_media))
  | inr other ↦ elim (Bool-cases (text_eq s.media_kind (codes "roots"))) [
    | inl roots ↦
        let good : good_ids s.root_ids ≡ true = ground (arith, h, other, roots) in
        let no_media : length s.media_ids ≡ 0 = ground (arith, h, other, roots) in
        let e : record s { root_ids = sort_texts s.root_ids } ≡ t =
          ground (arith, h, other, roots, good) in
        rw (sym e) (
          refl,
          λ p. any-sort_texts p s.root_ids,
          λ p. refl,
          inr (
              inl (
                roots,
                good_ids-NamedIds (sort_texts s.root_ids) (good_ids-sort_texts s.root_ids ∙ good),
                no_media,
              )),
        )
    | inr no_roots ↦
        let named : text_eq s.media_kind (codes "media") ≡ true =
          ground (arith, h, other, no_roots) in
        let good : good_ids s.media_ids ≡ true = ground (arith, h, other, no_roots, named) in
        let empty : length s.root_ids ≡ 0 = ground (arith, h, other, no_roots, named) in
        let e : record s { media_ids = sort_texts s.media_ids } ≡ t =
          ground (arith, h, other, no_roots, named, good) in
        rw (sym e) (
          refl,
          λ p. refl,
          λ p. any-sort_texts p s.media_ids,
          inr (
              inr (
                named,
                good_ids-NamedIds (sort_texts s.media_ids) (good_ids-sort_texts s.media_ids ∙ good),
                empty,
              )),
        )
  ]
]

-- Known permissions, each once, and no writing without reading.
abbrev pub PermissionsAccepted : List Permission → List Permission → Type 0
PermissionsAccepted ps qs =
    SameIds qs ps
    × (all (λ p. contains p known_permissions) qs ≡ true)
    × (distinct qs ≡ true)
    × (contains projects_write qs ≡ true → contains projects_read qs ≡ true)

permissions-Accepted :
    (ps qs : List Permission) → normalize_permissions ps ≡ ok qs → PermissionsAccepted ps qs
unfolding collected
permissions-Accepted ps qs h =
    let c = sym (normalize_permissions-collected ps) ∙ h in
    let good : (collected [] ps && not (needs_read ps)) ≡ true = ground (arith, c) in
    let e : sort_texts ps ≡ qs = ground (arith, c, good) in
    rw (sym e) (
      λ p. any-sort_texts p ps,
      all-sort_texts (λ p. contains p known_permissions) ps ∙ ground (arith, good),
      sort-distinct ps ∙ ground (arith, good),
      λ w.
          any-sort_texts (text_eq projects_read) ps
          ∙ ground (arith, good, w, any-sort_texts (text_eq projects_write) ps),
    )

-- What has been accepted of an input, at the time `now`, and what is made of it.
pub record Accepted (input : CredentialInput) (now : ℕ) (out : CredentialInput) : Type 0 where
  pub name : out.name ≡ trim_space input.name
  pub named : is_empty out.name ≡ false
  pub short_name : rune_count input.name ≤ 120
  pub printable : (valid_utf8 0 input.name ≡ true) × (has_control input.name ≡ false)
  pub expires_later : (t : ℕ) → out.expires_at ≡ some t → now < t
  pub never_expires : out.expires_at ≡ none → out.allow_non_expiring ≡ true
  pub permissions : PermissionsAccepted input.permissions out.permissions
  pub media : MediaAccepted input.media_scope out.media_scope
  pub project : ProjectAccepted input.project_scope out.project_scope
  pub unattended : out.unattended_exports ≡ input.unattended_exports

-- What is accepted for a new credential is named, in at most 120 characters of UTF-8 without control
-- characters, kept without the space around the name; it expires later than now, or waives an expiry.
-- Its permissions are known, each once, and include reading projects where they include writing them.
-- Its scopes are of all media or projects and name no ids, or name 1 to 1000 valid and distinct ids of
-- their kind only. The permissions and ids are those of the input, in some order.
pub normalize_credential_input-Accepted :
    (input : CredentialInput) (now : ℕ) (out : CredentialInput)
    → normalize_credential_input input now ≡ ok out
    → Accepted input now out
unfolding valid_credential_name expiry_error
normalize_credential_input-Accepted input now out h =
    let (valid, x, q, m, p, e) = passed input now out h in
    let same : out.expires_at ≡ input.expires_at = ap (λ (i : CredentialInput). i.expires_at) e in
    let name : out.name ≡ trim_space input.name = ap (λ (i : CredentialInput). i.name) e in
    let waives : out.allow_non_expiring ≡ input.allow_non_expiring =
      ap (λ (i : CredentialInput). i.allow_non_expiring) e in
    record {
      name = name;
      named = ap is_empty name ∙ ground (arith, valid);
      short_name = ground (arith, valid);
      printable = (ground (arith, valid), ground (arith, valid));
      expires_later =
          λ t k. let set : input.expires_at ≡ some t = sym same ∙ k in ground (arith, x, set);
      never_expires = λ k.
          let unset : input.expires_at ≡ none = sym same ∙ k in waives ∙ ground (arith, x, unset);
      permissions = permissions-Accepted input.permissions out.permissions q;
      media = media-Accepted input.media_scope out.media_scope m;
      project = project-Accepted input.project_scope out.project_scope p;
      unattended = ap (λ (i : CredentialInput). i.unattended_exports) e;
    }
