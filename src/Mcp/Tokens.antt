-- ===== src/Mcp/Tokens.antt =====
-- internal/mcp/credentials.go: bearer tokens, and the calls that authenticate and authorize by one.
use videocutlist.Prelude.{
  ℕ, Bool, true, false, not, ◌||◌, Option, none, some, [], ◌∷◌, if◌then◌else◌, ◌==◌, ltb, length,
}
use videocutlist.Prelude.Text.{Text, codes, text_eq, is_empty}
use videocutlist.Prelude.Outcome.{Outcome, ok, err}
use videocutlist.Mcp.Ids.{has_prefix, valid_safe_identifier}
use videocutlist.Mcp.Scopes.{
  Permission, Credential, Resource, allows, has_permission, CredentialError, credential_not_found,
  credential_unauthorized, credential_expired, credential_revoked, credential_invalid,
  permission_denied, resource_denied, needs_acknowledgement, audit_invalid, audit_data,
  credential_data, invalid_input, create_failed,
}
use videocutlist.Mcp.Table.{Platform, Credentials, get_by_token_identifier}
use videocutlist.Mcp.Store.{Result, token_prefix, token_verifier, touch_last_used}

-- `strings.CutPrefix`
unfoldable pub cut_prefix : Text → Text → Option Text
cut_prefix [] s = some s
cut_prefix (p ∷ ps) [] = none
cut_prefix (p ∷ ps) (c ∷ s) = if p == c then cut_prefix ps s else none

-- `strings.Cut` at a character: what is before it and after it.
unfoldable pub cut_at : ℕ → Text → Option (Text × Text)
cut_at d [] = none
cut_at d (c ∷ s) = elim (c == d) [
  | true ↦ some ([], s)
  | false ↦ elim (cut_at d s) [ none ↦ none | some parts ↦ some (c ∷ parts.0, parts.1) ]
]

-- Whether what follows the dot is the encoding of a secret of 32 bytes.
unfoldable pub is_secret : Platform → Text → Bool
is_secret sys encoded = elim (sys.decode encoded) [
  | none ↦ false
  | some secret ↦ length secret == 32
]

unfoldable pub parse_token_identifier : Platform → Text → Option Text
unfolding cut_prefix cut_at is_secret
parse_token_identifier sys token =
    if ltb 256 (length token) then none else elim (cut_prefix token_prefix token) [
      | none ↦ none
      | some body ↦ elim (cut_at b'.' body) [
        | none ↦ none
        | some (identifier, encoded) ↦
            if not (has_prefix identifier (codes "t_"))
              || not (valid_safe_identifier identifier)
              || is_empty encoded
            then none
            else if is_secret sys encoded
            then some identifier
            else none
      ]
    ]

-- The error of a credential that has expired or is revoked is wrapped into `ErrCredentialUnauthorized`.
abbrev pub wrapped : CredentialError → CredentialError
wrapped credential_expired = credential_unauthorized
wrapped credential_revoked = credential_unauthorized
wrapped credential_not_found = credential_unauthorized
wrapped credential_unauthorized = credential_unauthorized
wrapped credential_invalid = credential_invalid
wrapped needs_acknowledgement = needs_acknowledgement
wrapped permission_denied = permission_denied
wrapped resource_denied = resource_denied
wrapped audit_invalid = audit_invalid
wrapped audit_data = audit_data
wrapped credential_data = credential_data
wrapped invalid_input = invalid_input
wrapped create_failed = create_failed

abbrev pub refused : Outcome CredentialError Credential → Outcome CredentialError Credential
refused (ok c) = ok c
refused (err e) = err (wrapped e)

abbrev pub lookup_error : CredentialError → CredentialError
lookup_error credential_not_found = credential_unauthorized
lookup_error credential_unauthorized = credential_unauthorized
lookup_error credential_expired = credential_expired
lookup_error credential_revoked = credential_revoked
lookup_error credential_invalid = credential_invalid
lookup_error needs_acknowledgement = needs_acknowledgement
lookup_error permission_denied = permission_denied
lookup_error resource_denied = resource_denied
lookup_error audit_invalid = audit_invalid
lookup_error audit_data = audit_data
lookup_error credential_data = credential_data
lookup_error invalid_input = invalid_input
lookup_error create_failed = create_failed

unfoldable pub authenticate :
    Platform → Text → ℕ → ℕ → (Credentials → Credentials) → Credentials → Result
unfolding token_verifier
authenticate sys token now later between rows = elim (parse_token_identifier sys token) [
  | none ↦ (err credential_unauthorized, rows)
  | some t ↦ elim (get_by_token_identifier t rows) [
    | err e ↦ (err (lookup_error e), rows)
    | ok r ↦
        if not (text_eq r.verifier (token_verifier sys token))
        then (err credential_unauthorized, rows)
        else let touched = touch_last_used r.credential.id now later between rows in
          (refused touched.0, touched.1)
  ]
]

-- What both `Authorize` and `AuthorizeCredential` do with a credential that is active.
unfoldable pub permit : Permission → Resource → Credential → Outcome CredentialError Credential
permit p resource c =
    if not (allows c p resource)
    then if has_permission c p then err resource_denied else err permission_denied
    else ok c

unfoldable pub authorize :
    Platform
    → Text
    → Permission
    → Resource
    → ℕ
    → ℕ
    → (Credentials → Credentials)
    → Credentials
    → Result
unfolding permit
authorize sys token p resource now later between rows =
    let (result, rows') = authenticate sys token now later between rows in
    (elim result [ err e ↦ err e | ok c ↦ permit p resource c ], rows')

unfoldable pub authorize_credential :
    Text → Permission → Resource → ℕ → ℕ → (Credentials → Credentials) → Credentials → Result
unfolding permit
authorize_credential id p resource now later between rows =
    let (result, rows') = touch_last_used id now later between rows in
    (elim result [ err e ↦ err credential_unauthorized | ok c ↦ permit p resource c ], rows')
