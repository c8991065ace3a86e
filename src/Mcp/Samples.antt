-- ===== src/Mcp/Samples.antt =====
-- The theorems on credentials at concrete credentials, rows and calls.
use videocutlist.Prelude.{
  ◌≡◌, ◌≢◌, refl, ℕ, zero, suc, true, false, some, List, [], ◌∷◌, any, count, length, if◌then◌else◌,
  ◌==◌, ◌&&◌, ◌||◌, arith,
}
use videocutlist.Prelude.Int.{pos}
use videocutlist.Prelude.Text.{Text, codes, text_eq, text_ltb, is_empty, is_id_byte}
use videocutlist.Prelude.Utf8.{rune_count, runes, extra_bytes}
use videocutlist.Prelude.Outcome.{ok, err}
use videocutlist.Projects.Timestamps.{trim_space, trim_left, trim_right, space_bytes}
use videocutlist.Mcp.Ids.{
  valid_credential_id, valid_safe_identifier, has_prefix, is_identifier_byte, valid_ids_from,
  valid_id_list, insert_text, sort_texts,
}
use videocutlist.Mcp.Scopes.{
  Credential, Resource, media_read, projects_read, credential_not_found, credential_unauthorized,
  active_at, allows,
}
use videocutlist.Mcp.Normalize.{
  CredentialInput, AuditInput, normalize_credential_input, normalize_permissions,
  collect_permissions, normalize_media_scope, normalize_project_scope, valid_credential_name,
  valid_utf8, has_control, expiry_error,
}
use videocutlist.Mcp.Table.{
  Platform, CredentialRecord, Credentials, is_row, has_token, is_live, find_row, insert_row,
  scan_credential, read_row, get_record, get_by_token_identifier,
}
use videocutlist.Mcp.Store.{
  Randoms, random_identifier, token_verifier, new_secret, new_row, new_credential, create, revoke,
  used, touch_last_used, recheck,
}
use videocutlist.Mcp.Tokens.{
  authenticate, parse_token_identifier, cut_prefix, cut_at, is_secret, authorize_credential,
}
use videocutlist.Mcp.Accepted.{Accepted, normalize_credential_input-Accepted}
use videocutlist.Mcp.Scopes.{
  has_permission, allows_media, media_scope_allows, allows_named_media, detection_run,
}
use videocutlist.Mcp.Authority.{InScope, is_media_permission, allows-InScope}
use videocutlist.Mcp.Access.{Active, authenticate_sound}
use videocutlist.Mcp.Revocation.{Call, grants, uses, revokes, after_calls, revoked_stays_refused}
use videocutlist.Mcp.Audit.{AuditTable, new_entry, record_audit}
use videocutlist.Mcp.Retention.{Kept, record_audit_keeps_newest}
use videocutlist.Mcp.Listing.{order_by_id}
use videocutlist.Mcp.Paging.{credentials_of}
use videocutlist.Mcp.Walks.{walk, walk_complete}
use videocutlist.Mcp.Issued.{Encoded}
use videocutlist.Mcp.Issue.{create_then_authenticate}

abbrev copies : ℕ → ℕ → Text
copies zero c = []
copies (suc n) c = c ∷ copies n c

-- A stand-in for Go's encodings, right at the values that are used here.
abbrev sample_system : Platform
sample_system = record {
  digest = λ t. copies 64 b'0';
  encode = λ b.
      if length b == 32
      then copies 43 b'A'
      else if length b == 18
      then copies 24 b'B'
      else copies 16 b'C';
  decode = λ t. some (copies 32 0);
  format_time = λ t. copies t b'1';
}

abbrev sample_bytes : Randoms
sample_bytes = record {
  id_bytes = copies 18 0;
  token_bytes = copies 12 0;
  secret_bytes = copies 32 0;
}

abbrev sample_input : CredentialInput
sample_input = record {
  name = codes "agent";
  permissions = projects_read ∷ media_read ∷ [];
  media_scope = record { media_kind = codes "all"; root_ids = []; media_ids = [] };
  project_scope = record { project_kind = codes "projects"; project_ids = codes "p1" ∷ [] };
  expires_at = some 100;
  allow_non_expiring = false;
  unattended_exports = false;
}

-- What is stored of it: the permissions are sorted.
abbrev sample_stored : CredentialInput
sample_stored = record sample_input { permissions = media_read ∷ projects_read ∷ [] }

abbrev sample_credential : Credential
sample_credential = new_credential sample_system sample_bytes sample_stored 6

abbrev sample_row : CredentialRecord
sample_row = new_row sample_system sample_bytes sample_stored 6

abbrev sample_id : Text
sample_id = codes "c_BBBBBBBBBBBBBBBBBBBBBBBB"

sample-Encoded : Encoded sample_system sample_bytes
unfolding is_id_byte
sample-Encoded = record {
  id_alphabet = refl;
  id_length = refl;
  token_alphabet = refl;
  token_length = refl;
  secret_length = refl;
  secret_decodes = refl;
  secret_size = refl;
  digest_length = refl;
  digest_hex = refl;
}

created_sample :
    (create sample_system sample_input sample_bytes 5 6 []).0
    ≡ ok (sample_credential, new_secret sample_system sample_bytes)
unfolding create normalize_credential_input expiry_error insert_row get_record
    get_by_token_identifier read_row find_row scan_credential normalize_permissions
    collect_permissions normalize_media_scope normalize_project_scope valid_credential_name
    valid_utf8 has_control extra_bytes rune_count runes trim_space trim_left trim_right space_bytes
    is_empty text_eq text_ltb sort_texts insert_text valid_id_list valid_ids_from
    valid_safe_identifier valid_credential_id has_prefix is_identifier_byte is_id_byte
    random_identifier token_verifier
created_sample = refl

sample_rows : (create sample_system sample_input sample_bytes 5 6 []).1 ≡ sample_row ∷ []
unfolding create normalize_credential_input expiry_error insert_row get_record
    get_by_token_identifier read_row find_row scan_credential normalize_permissions
    collect_permissions normalize_media_scope normalize_project_scope valid_credential_name
    valid_utf8 has_control extra_bytes rune_count runes trim_space trim_left trim_right space_bytes
    is_empty text_eq text_ltb sort_texts insert_text valid_id_list valid_ids_from
    valid_safe_identifier valid_credential_id has_prefix is_identifier_byte is_id_byte
    random_identifier token_verifier
sample_rows = refl

sample_live :
    count (is_live sample_id) (create sample_system sample_input sample_bytes 5 6 []).1 ≡ 1
unfolding create normalize_credential_input expiry_error insert_row get_record
    get_by_token_identifier read_row find_row scan_credential normalize_permissions
    collect_permissions normalize_media_scope normalize_project_scope valid_credential_name
    valid_utf8 has_control extra_bytes rune_count runes trim_space trim_left trim_right space_bytes
    is_empty text_eq text_ltb sort_texts insert_text valid_id_list valid_ids_from
    valid_safe_identifier valid_credential_id has_prefix is_identifier_byte is_id_byte
    random_identifier token_verifier
sample_live = refl

sample_trimmed : trim_space sample_input.name ≡ sample_input.name
unfolding trim_space trim_left trim_right space_bytes is_empty
sample_trimmed = refl

create_then_authenticate_example :
    (authenticate sample_system
      (new_secret sample_system sample_bytes)
      50
      51
      (λ x. x)
      (create sample_system sample_input sample_bytes 5 6 []).1).0
    ≡ ok (used 50 sample_credential)
unfolding random_identifier
create_then_authenticate_example =
    create_then_authenticate sample_system sample_bytes sample_input 5 6 50 51 (λ x. x) []
      sample_credential (new_secret sample_system sample_bytes) sample-Encoded sample_trimmed
      created_sample refl sample_live

normalized_sample : normalize_credential_input sample_input 5 ≡ ok sample_stored
unfolding normalize_credential_input expiry_error get_record get_by_token_identifier read_row
    find_row scan_credential normalize_permissions collect_permissions normalize_media_scope
    normalize_project_scope valid_credential_name valid_utf8 has_control extra_bytes rune_count
    runes trim_space trim_left trim_right space_bytes is_empty text_eq text_ltb sort_texts
    insert_text valid_id_list valid_ids_from valid_safe_identifier valid_credential_id has_prefix
    is_identifier_byte is_id_byte random_identifier token_verifier
normalized_sample = refl

normalize_credential_input-Accepted_example : Accepted sample_input 5 sample_stored
normalize_credential_input-Accepted_example =
    normalize_credential_input-Accepted sample_input 5 sample_stored normalized_sample

abbrev sample_resource : Resource
sample_resource = record {
  media_id = codes "m1";
  root_id = codes "r1";
  project_id = [];
  project_media = [];
  project_summary = false;
}

sample_allowed : allows sample_credential media_read sample_resource ≡ true
unfolding allows has_permission allows_media media_scope_allows get_record get_by_token_identifier
    read_row find_row scan_credential normalize_permissions collect_permissions
    normalize_media_scope normalize_project_scope valid_credential_name valid_utf8 has_control
    extra_bytes rune_count runes trim_space trim_left trim_right space_bytes is_empty text_eq
    text_ltb sort_texts insert_text valid_id_list valid_ids_from valid_safe_identifier
    valid_credential_id has_prefix is_identifier_byte is_id_byte random_identifier token_verifier
sample_allowed = refl

allows-InScope_example :
    (has_permission sample_credential media_read ≡ true)
    × (is_empty sample_resource.project_id ≡ false
        → is_media_permission media_read ≡ false
        → InScope sample_credential sample_resource)
    × ((is_media_permission media_read || text_eq media_read detection_run) ≡ true
        → allows_named_media sample_credential sample_resource ≡ true)
allows-InScope_example = allows-InScope sample_credential media_read sample_resource sample_allowed

abbrev stored_rows : Credentials
stored_rows = sample_row ∷ []

abbrev sample_token : Text
sample_token = new_secret sample_system sample_bytes

sample_authenticated :
    (authenticate sample_system sample_token 50 51 (λ x. x) stored_rows).0
    ≡ ok (used 50 sample_credential)
unfolding authenticate parse_token_identifier cut_prefix cut_at is_secret touch_last_used active_at
    recheck get_record get_by_token_identifier read_row find_row scan_credential
    normalize_permissions collect_permissions normalize_media_scope normalize_project_scope
    valid_credential_name valid_utf8 has_control extra_bytes rune_count runes trim_space trim_left
    trim_right space_bytes is_empty text_eq text_ltb sort_texts insert_text valid_id_list
    valid_ids_from valid_safe_identifier valid_credential_id has_prefix is_identifier_byte
    is_id_byte random_identifier token_verifier
sample_authenticated = refl

authenticate_sound_example :
    (t : Text) × (s : CredentialRecord) × (own : CredentialRecord) × (parse_token_identifier
        sample_system sample_token
      ≡ some t)
    × (find_row (has_token t) stored_rows ≡ some s)
    × (s.verifier ≡ copies 64 b'0')
    × (sample_credential.id ≡ s.credential.id)
    × (find_row (is_row sample_credential.id) stored_rows ≡ some own)
    × Active 50 own.credential
authenticate_sound_example =
    authenticate_sound sample_system sample_token 50 51 (λ x. x) stored_rows
      (used 50 sample_credential) sample_authenticated

abbrev later_calls : List Call
later_calls = grants sample_id (codes "p2") 61 62 ∷ uses sample_id 63 ∷ revokes sample_id 64 ∷ []

sample_known : (valid_credential_id sample_id && any (is_row sample_id) stored_rows) ≡ true
unfolding get_record get_by_token_identifier read_row find_row scan_credential normalize_permissions
    collect_permissions normalize_media_scope normalize_project_scope valid_credential_name
    valid_utf8 has_control extra_bytes rune_count runes trim_space trim_left trim_right space_bytes
    is_empty text_eq text_ltb sort_texts insert_text valid_id_list valid_ids_from
    valid_safe_identifier valid_credential_id has_prefix is_identifier_byte is_id_byte
    random_identifier token_verifier
sample_known = refl

sample_valid : valid_credential_id sample_id ≡ true
unfolding get_record get_by_token_identifier read_row find_row scan_credential normalize_permissions
    collect_permissions normalize_media_scope normalize_project_scope valid_credential_name
    valid_utf8 has_control extra_bytes rune_count runes trim_space trim_left trim_right space_bytes
    is_empty text_eq text_ltb sort_texts insert_text valid_id_list valid_ids_from
    valid_safe_identifier valid_credential_id has_prefix is_identifier_byte is_id_byte
    random_identifier token_verifier
sample_valid = refl

sample_there : any (is_row sample_id) stored_rows ≡ true
unfolding text_eq random_identifier
sample_there = refl

revoked_stays_refused_example :
    ((authorize_credential sample_id media_read sample_resource 70 71
        (after_calls sample_system later_calls)
        (revoke sample_id 60 stored_rows).1).0
      ≡ err credential_unauthorized)
    × ((authenticate sample_system sample_token 70 71
            (after_calls sample_system later_calls)
            (revoke sample_id 60 stored_rows).1).0
          ≡ ok sample_credential
        → sample_credential.id ≢ sample_id)
revoked_stays_refused_example =
    revoked_stays_refused sample_system sample_id 60 stored_rows later_calls media_read
      sample_resource sample_token 70 71 (after_calls sample_system later_calls)
      (revoke sample_id 60 stored_rows).1 sample_credential sample_valid sample_there refl

sample_other : text_eq (codes "c_other") sample_id ≡ false
unfolding text_eq
sample_other = refl

abbrev granted_credential : Credential
granted_credential = record sample_credential {
  project_scope = record {
    project_kind = codes "projects";
    project_ids = codes "p1" ∷ codes "p2" ∷ [];
  };
}

abbrev sample_audit : AuditInput
sample_audit = record {
  operation = codes "media_list";
  outcome = codes "ok";
  resource_ids = codes "m1" ∷ [];
  job_id = [];
}

abbrev empty_audit : AuditTable
empty_audit = record { entries = []; last_entry = 0 }

record_audit_keeps_newest_example :
    Kept sample_id
      (codes "c_other")
      empty_audit
      (record_audit sample_id sample_audit 9 stored_rows empty_audit)
      (new_entry sample_id sample_audit 9 empty_audit)
      credential_not_found
record_audit_keeps_newest_example =
    record_audit_keeps_newest sample_id (codes "c_other") sample_audit 9 stored_rows empty_audit
      (new_entry sample_id sample_audit 9 empty_audit) credential_not_found sample_other

sample_reads : scan_credential sample_row ≡ ok sample_row
unfolding get_record get_by_token_identifier read_row find_row scan_credential normalize_permissions
    collect_permissions normalize_media_scope normalize_project_scope valid_credential_name
    valid_utf8 has_control extra_bytes rune_count runes trim_space trim_left trim_right space_bytes
    is_empty text_eq text_ltb sort_texts insert_text valid_id_list valid_ids_from
    valid_safe_identifier valid_credential_id has_prefix is_identifier_byte is_id_byte
    random_identifier token_verifier
sample_reads = refl

abbrev next_row : CredentialRecord
next_row = record sample_row {
  credential = record sample_credential { id = codes "c_2"; token_identifier = codes "t_2" };
}

next_reads : scan_credential next_row ≡ ok next_row
unfolding get_record get_by_token_identifier read_row find_row scan_credential normalize_permissions
    collect_permissions normalize_media_scope normalize_project_scope valid_credential_name
    valid_utf8 has_control extra_bytes rune_count runes trim_space trim_left trim_right space_bytes
    is_empty text_eq text_ltb sort_texts insert_text valid_id_list valid_ids_from
    valid_safe_identifier valid_credential_id has_prefix is_identifier_byte is_id_byte
    random_identifier token_verifier
next_reads = refl

next_valid : valid_credential_id (codes "c_2") ≡ true
unfolding get_record get_by_token_identifier read_row find_row scan_credential normalize_permissions
    collect_permissions normalize_media_scope normalize_project_scope valid_credential_name
    valid_utf8 has_control extra_bytes rune_count runes trim_space trim_left trim_right space_bytes
    is_empty text_eq text_ltb sort_texts insert_text valid_id_list valid_ids_from
    valid_safe_identifier valid_credential_id has_prefix is_identifier_byte is_id_byte
    random_identifier token_verifier
next_valid = refl

sample_unlike : any (is_row sample_id) (next_row ∷ []) ≡ false
unfolding text_eq
sample_unlike = refl

walk_complete_example :
    walk 3 [] (pos 1) (sample_row ∷ next_row ∷ [])
    ≡ some (credentials_of (order_by_id (sample_row ∷ next_row ∷ [])))
unfolding random_identifier
walk_complete_example =
    walk_complete (sample_row ∷ next_row ∷ []) (pos 1) 3 (sample_unlike, (refl, tt))
      ((sample_reads, sample_valid), ((next_reads, next_valid), tt)) (omega arith)
