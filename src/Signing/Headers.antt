-- ===== src/Signing/Headers.antt =====
-- The signed headers: `parse_external_auth_headers` of backend/app/security/dependencies.py. A header
-- is a pair of byte lists.
use zangpu.Base.{
  ℕ, ◌+◌, Bool, true, false, not, ◌||◌, List, [], ◌∷◌, ◌==◌, Option, none, some, all_of, length,
  codes, Result, ok, err, ◌>>=◌, ◌>>◌, raise_if, of_option, if◌then◌else◌, between, ltb, is_some,
}
use zangpu.Signing.Canonical.{same_text, validate_signing_fields, signature_version, is_sha256}

-- `ExternalAuthFailure` with its category, and `ExternalClientDisabled`.
pub data AuthError : Type 0 where
  header_count header_length duplicate_header header_encoding header_value missing_header
        header_format version_mismatch signature_format credential_state timestamp_window
        signature_mismatch credential_protection client_disabled :
      AuthError

pub data Field : Type 0 where
  key_field timestamp_field nonce_field request_id_field version_field signature_field : Field

-- REQUIRED_AUTH_HEADERS.get(header_name)
unfoldable pub field_name : List ℕ → Option Field
field_name name =
    if same_text (codes "x-zangpu-key") name
    then some Field.key_field
    else if same_text (codes "x-zangpu-timestamp") name
    then some Field.timestamp_field
    else if same_text (codes "x-zangpu-nonce") name
    then some Field.nonce_field
    else if same_text (codes "x-zangpu-request-id") name
    then some Field.request_id_field
    else if same_text (codes "x-zangpu-signature-version") name
    then some Field.version_field
    else if same_text (codes "x-zangpu-signature") name
    then some Field.signature_field
    else none

pub record ExternalAuthHeaders : Type 0 where
  pub key_id : List ℕ
  pub timestamp : List ℕ
  pub nonce : List ℕ
  pub request_id : List ℕ
  pub version : List ℕ
  pub signature : List ℕ

-- The dictionary `values`: its value for each field.
abbrev pub Values : Type 0
Values = Field → Option (List ℕ)

abbrev pub no_values : Values
no_values f = none

abbrev pub same_field : Field → Field → Bool
same_field Field.key_field Field.key_field = true
same_field Field.timestamp_field Field.timestamp_field = true
same_field Field.nonce_field Field.nonce_field = true
same_field Field.request_id_field Field.request_id_field = true
same_field Field.version_field Field.version_field = true
same_field Field.signature_field Field.signature_field = true
same_field f g = false

abbrev pub store : Field → List ℕ → Values → Values
store f value values g = if same_field f g then some value else values g

abbrev lower_byte : ℕ → ℕ
lower_byte c = if between b'A' b'Z' c then c + 32 else c

-- `raw_name.lower()`
unfoldable pub lower : List ℕ → List ℕ
lower [] = []
lower (c ∷ text) = lower_byte c ∷ lower text

-- The white space of ASCII.
abbrev pub is_space : ℕ → Bool
is_space c = between 9 13 c || between 28 32 c

-- `value.strip()`
unfoldable pub strip_start : List ℕ → List ℕ
strip_start [] = []
strip_start (c ∷ text) = let rest = strip_start text in if is_space c then rest else c ∷ text

abbrev pub keep_unless_space : ℕ → List ℕ → List ℕ
keep_unless_space c [] = if is_space c then [] else c ∷ []
keep_unless_space c (d ∷ text) = c ∷ d ∷ text

unfoldable pub strip_end : List ℕ → List ℕ
strip_end [] = []
strip_end (c ∷ text) = keep_unless_space c (strip_end text)

abbrev pub strip : List ℕ → List ℕ
strip text = strip_end (strip_start text)

abbrev pub is_ascii : ℕ → Bool
is_ascii c = ltb c 128

-- One signed header: the body of the loop below `field_name is None`.
unfoldable pub read_value : Field → List ℕ → Values → Result AuthError Values
read_value f value values = do
  raise_if (is_some (values f)) AuthError.duplicate_header
  raise_if (not (all_of is_ascii value)) AuthError.header_encoding
  raise_if (length value == 0 || not (same_text value (strip value)) || ltb 256 (length value))
      AuthError.header_value
  ok (store f value values)

abbrev pub read_field : Option Field → List ℕ → Values → Result AuthError Values
read_field none value values = ok values
read_field (some f) value values = read_value f value values

-- The loop over the headers.
unfoldable pub read_headers : List (List ℕ × List ℕ) → Values → Result AuthError Values
read_headers [] values = ok values
read_headers ((name, value) ∷ headers) values = do
  raise_if (ltb 64 (length name) || ltb 8192 (length value)) AuthError.header_length
  next ← read_field (field_name (lower name)) value values
  read_headers headers next

abbrev pub required : Values → Field → Result AuthError (List ℕ)
required values f = of_option (values f) AuthError.missing_header

-- `set(values) != set(REQUIRED_AUTH_HEADERS.values())`
unfoldable pub complete : Values → Result AuthError ExternalAuthHeaders
complete values = do
  key ← required values Field.key_field
  time ← required values Field.timestamp_field
  fresh ← required values Field.nonce_field
  id ← required values Field.request_id_field
  form ← required values Field.version_field
  mac ← required values Field.signature_field
  ok (record {
    key_id = key;
    timestamp = time;
    nonce = fresh;
    request_id = id;
    version = form;
    signature = mac;
  })

-- `except CanonicalizationError: raise failure`
abbrev pub guarded {ℓ κ} : {E : Type ℓ} {A : Type κ} → AuthError → Result E A → Result AuthError A
guarded failure (ok a) = ok a
guarded failure (err e) = err failure

-- `parse_external_auth_headers`
unfoldable pub parse_external_auth_headers :
    List (List ℕ × List ℕ) → Result AuthError ExternalAuthHeaders
parse_external_auth_headers raw_headers = do
  raise_if (ltb 64 (length raw_headers)) AuthError.header_count
  values ← read_headers raw_headers no_values
  headers ← complete values
  guarded AuthError.header_format
      (validate_signing_fields headers.key_id headers.timestamp headers.nonce headers.request_id)
  raise_if (not (same_text headers.version signature_version)) AuthError.version_mismatch
  raise_if (not (is_sha256 headers.signature)) AuthError.signature_format
  ok headers
