-- ===== src/Mcp/Issued.antt =====
-- The token that `Create` answers with, and the row that it stores (internal/mcp/credentials.go).
use videocutlist.Prelude.{
  ◌≡◌, refl, ap, ℕ, suc, ◌≤◌, Bool, true, false, some, [], ◌∷◌, ◌++◌, ◌==◌, ltb, any, all, length,
  length-append, arith,
}
use videocutlist.Prelude.Text.{Text, codes, is_empty, is_id_byte}
use videocutlist.Prelude.Outcome.{ok}
use videocutlist.Mcp.Ids.{
  valid_credential_id, valid_safe_identifier, has_prefix, is_identifier_byte,
}
use videocutlist.Mcp.Normalize.{CredentialInput, normalize_credential_input, valid_credential_name}
use videocutlist.Mcp.Stored.{normalize_credential_input_stored}
use videocutlist.Mcp.Table.{
  Platform, CredentialRecord, Credentials, is_hex, find_row, scan_credential,
}
use videocutlist.Mcp.Store.{
  Randoms, new_id, new_token, new_secret, new_row, random_identifier, token_verifier, token_prefix,
}
use videocutlist.Mcp.Tokens.{cut_prefix, cut_at, is_secret, parse_token_identifier}

-- What Go's library documents of the values that it returns for a new credential: `RawURLEncoding`
-- gives 24, 16 and 43 characters of its alphabet for 18, 12 and 32 bytes, and decodes its own output;
-- the digest is 64 hexadecimal digits.
pub record Encoded (sys : Platform) (rnd : Randoms) : Type 0 where
  pub id_alphabet : all is_id_byte (sys.encode rnd.id_bytes) ≡ true
  pub id_length : length (sys.encode rnd.id_bytes) ≡ 24
  pub token_alphabet : all is_id_byte (sys.encode rnd.token_bytes) ≡ true
  pub token_length : length (sys.encode rnd.token_bytes) ≡ 16
  pub secret_length : length (sys.encode rnd.secret_bytes) ≡ 43
  pub secret_decodes : sys.decode (sys.encode rnd.secret_bytes) ≡ some rnd.secret_bytes
  pub secret_size : length rnd.secret_bytes ≡ 32
  pub digest_length : length (sys.digest (new_secret sys rnd)) ≡ 64
  pub digest_hex : all is_hex (sys.digest (new_secret sys rnd)) ≡ true

cut_at-append :
    (t encoded : Text)
    → all is_id_byte t ≡ true
    → cut_at b'.' ((t ++ codes ".") ++ encoded) ≡ some (t, encoded)
unfolding cut_at is_id_byte
cut_at-append [] encoded h = refl
cut_at-append (c ∷ t) encoded h =
    let other : (c == b'.') ≡ false = ground (arith, h) in
    rw (cut_at, other, cut_at-append t encoded (ground (arith, h))) refl

all-plain : (s : Text) → all is_id_byte s ≡ true → all (is_identifier_byte false) s ≡ true
unfolding is_identifier_byte
all-plain [] h = refl
all-plain (c ∷ s) h = ground (arith, h, all-plain s)

prefixed_safe :
    (a b : ℕ) (s : Text)
    → is_id_byte a ≡ true
    → is_id_byte b ≡ true
    → all is_id_byte s ≡ true
    → length s ≤ 24
    → valid_safe_identifier (a ∷ b ∷ s) ≡ true
unfolding valid_safe_identifier is_empty is_identifier_byte
prefixed_safe a b s h k l n = rw (h, k, all-plain s l) (ground (arith, n))

pub valid_new_id :
    (sys : Platform) (rnd : Randoms) → Encoded sys rnd → valid_credential_id (new_id sys rnd) ≡ true
unfolding valid_credential_id has_prefix random_identifier is_id_byte
valid_new_id sys rnd e =
    prefixed_safe b'c' b'_' (sys.encode rnd.id_bytes) refl refl e.id_alphabet
      (omega (arith, e.id_length))

valid_new_token :
    (sys : Platform) (rnd : Randoms)
    → Encoded sys rnd
    → valid_safe_identifier (new_token sys rnd) ≡ true
unfolding random_identifier is_id_byte
valid_new_token sys rnd e =
    prefixed_safe b't' b'_' (sys.encode rnd.token_bytes) refl refl e.token_alphabet
      (omega (arith, e.token_length))

new_token_prefixed :
    (sys : Platform) (rnd : Randoms) → has_prefix (new_token sys rnd) (codes "t_") ≡ true
unfolding has_prefix random_identifier
new_token_prefixed sys rnd = refl

new_token_alphabet :
    (sys : Platform) (rnd : Randoms) → Encoded sys rnd → all is_id_byte (new_token sys rnd) ≡ true
unfolding random_identifier is_id_byte
new_token_alphabet sys rnd e = e.token_alphabet

length-new_secret :
    (sys : Platform) (rnd : Randoms) → Encoded sys rnd → length (new_secret sys rnd) ≡ 66
unfolding random_identifier
length-new_secret sys rnd e = omega (
  arith,
  length-append (sys.encode rnd.token_bytes ++ codes ".") (sys.encode rnd.secret_bytes),
  length-append (sys.encode rnd.token_bytes) (codes "."),
  e.token_length,
  e.secret_length,
)

is_empty-length : (s : Text) (n : ℕ) → length s ≡ suc n → is_empty s ≡ false
unfolding is_empty
is_empty-length [] n h = absurd (omega (arith, h))
is_empty-length (c ∷ s) n h = refl

is_secret-encode :
    (sys : Platform) (rnd : Randoms)
    → Encoded sys rnd
    → is_secret sys (sys.encode rnd.secret_bytes) ≡ true
unfolding is_secret
is_secret-encode sys rnd e = rw (is_secret, e.secret_decodes, e.secret_size) refl

cut_prefix-new_secret :
    (sys : Platform) (rnd : Randoms)
    → cut_prefix token_prefix (new_secret sys rnd)
      ≡ some ((new_token sys rnd ++ codes ".") ++ sys.encode rnd.secret_bytes)
unfolding cut_prefix
cut_prefix-new_secret sys rnd = refl

parsed_token :
    (sys : Platform) (token body t encoded : Text)
    → ltb 256 (length token) ≡ false
    → cut_prefix token_prefix token ≡ some body
    → cut_at b'.' body ≡ some (t, encoded)
    → has_prefix t (codes "t_") ≡ true
    → valid_safe_identifier t ≡ true
    → is_empty encoded ≡ false
    → is_secret sys encoded ≡ true
    → parse_token_identifier sys token ≡ some t
unfolding parse_token_identifier
parsed_token sys token body t encoded short prefix dot tag safe full secret =
    rw (parse_token_identifier, short, prefix, dot, tag, safe, full, secret) refl

pub parse-new_secret :
    (sys : Platform) (rnd : Randoms)
    → Encoded sys rnd
    → parse_token_identifier sys (new_secret sys rnd) ≡ some (new_token sys rnd)
parse-new_secret sys rnd e =
    parsed_token sys (new_secret sys rnd)
      ((new_token sys rnd ++ codes ".") ++ sys.encode rnd.secret_bytes) (new_token sys rnd)
      (sys.encode rnd.secret_bytes) (ap (ltb 256) (length-new_secret sys rnd e))
      (cut_prefix-new_secret sys rnd)
      (cut_at-append (new_token sys rnd) (sys.encode rnd.secret_bytes)
        (new_token_alphabet sys rnd e))
      (new_token_prefixed sys rnd) (valid_new_token sys rnd e)
      (is_empty-length (sys.encode rnd.secret_bytes) 42 e.secret_length)
      (is_secret-encode sys rnd e)

pub find_row-append_one :
    (p : CredentialRecord → Bool) (rows : Credentials) (r : CredentialRecord)
    → any p rows ≡ false
    → p r ≡ true
    → find_row p (rows ++ r ∷ []) ≡ some r
unfolding find_row
find_row-append_one p [] r h k = rw k refl
find_row-append_one p (x ∷ rows) r h k =
    let miss : p x ≡ false = ground (arith, h) in
    rw miss (find_row-append_one p rows r (ground (arith, h)) k)

-- The row of a new credential is read as it stands.
pub scan-new_row :
    (sys : Platform) (rnd : Randoms) (input n : CredentialInput) (now created : ℕ)
    → Encoded sys rnd
    → normalize_credential_input input now ≡ ok n
    → valid_credential_name n.name ≡ true
    → scan_credential (new_row sys rnd n created) ≡ ok (new_row sys rnd n created)
unfolding scan_credential
scan-new_row sys rnd input n now created e h named =
    let (good, trimmed, fresh, ps, ms, sc) = normalize_credential_input_stored input now n h in
    rw
      (
        scan_credential,
        valid_new_id sys rnd e,
        new_token_prefixed sys rnd,
        valid_new_token sys rnd e,
        verifier_length,
        verifier_hex,
        ps,
        ms,
        sc,
        named,
      )
      refl
  where
    verifier_length : (length (token_verifier sys (new_secret sys rnd)) == 64) ≡ true
    verifier_length = unfold token_verifier in rw e.digest_length refl

    verifier_hex : all is_hex (token_verifier sys (new_secret sys rnd)) ≡ true
    verifier_hex = unfold token_verifier in e.digest_hex
