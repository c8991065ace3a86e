-- ===== src/Mcp/Ids.antt =====
-- internal/mcp/credentials.go: identifiers, lists of them and their order.
use videocutlist.Prelude.{
  ℕ, Bool, true, false, not, ◌&&◌, ◌||◌, List, [], ◌∷◌, if◌then◌else◌, ltb, ◌==◌, length, any, all,
}
use videocutlist.Prelude.Text.{Text, codes, text_eq, text_ltb, is_empty, is_id_byte}

-- A non-ASCII character has a byte outside the set, so the test by bytes is the one by characters.
unfoldable pub is_identifier_byte : Bool → ℕ → Bool
is_identifier_byte colon c = is_id_byte c || colon && c == b':'

unfoldable pub valid_audit_atom : Text → Bool
unfolding is_identifier_byte
valid_audit_atom s = not (is_empty s || ltb 64 (length s)) && all (is_identifier_byte true) s

unfoldable pub valid_safe_identifier : Text → Bool
unfolding is_identifier_byte
valid_safe_identifier s = not (is_empty s || ltb 128 (length s)) && all (is_identifier_byte false) s

-- `strings.HasPrefix`
unfoldable pub has_prefix : Text → Text → Bool
has_prefix s [] = true
has_prefix [] (p ∷ ps) = false
has_prefix (c ∷ s) (p ∷ ps) = c == p && has_prefix s ps

unfoldable pub valid_credential_id : Text → Bool
unfolding valid_safe_identifier has_prefix
valid_credential_id s = has_prefix s (codes "c_") && valid_safe_identifier s

abbrev pub contains : Text → List Text → Bool
contains s = any (text_eq s)

-- The loop of `validIDList`, with `seen`.
unfoldable pub valid_ids_from : List Text → List Text → Bool
unfolding valid_safe_identifier
valid_ids_from seen [] = true
valid_ids_from seen (v ∷ vs) =
    let rest = valid_ids_from (v ∷ seen) vs in
    if not (valid_safe_identifier v) then false else if contains v seen then false else rest

unfoldable pub valid_id_list : List Text → Bool
unfolding valid_ids_from
valid_id_list = valid_ids_from []

-- `slices.Sort` of strings.
unfoldable pub insert_text : Text → List Text → List Text
insert_text s [] = s ∷ []
insert_text s (t ∷ ts) = if text_ltb t s then t ∷ insert_text s ts else s ∷ t ∷ ts

unfoldable pub sort_texts : List Text → List Text
unfolding insert_text
sort_texts [] = []
sort_texts (s ∷ ss) = insert_text s (sort_texts ss)
