-- ===== src/Signing/Canonical.antt =====
-- backend/app/security/canonical.py: the canonical text of a request and its signature.
-- sdk/python/src/zangpu_sdk/signing.py has the same functions. HMAC-SHA256's hexdigest of a key and
-- a message is a parameter.
use zangpu.Base.{
  ℕ, Bool, true, false, not, ◌&&◌, ◌||◌, List, [], ◌∷◌, ◌++◌, ◌==◌, ltb, between, if◌then◌else◌,
  is_digit, is_word, is_lower_hex, any_of, all_of, length, codes, Result, ok, ◌>>=◌, ◌>>◌, raise_if,
  ◌-◌,
}
use zangpu.Signing.Percent.{
  has_bad_escape, has_escape, unquote_to_bytes, quote, is_utf8, has_control,
}
use zangpu.Signing.Split.{split, join, partition}

-- The errors with their messages.
pub data CanonicalizationError : Type 0 where
  malformed_percent not_utf8 control_character double_encoding path_form ambiguous_segment
        invalid_key_id invalid_timestamp invalid_nonce invalid_request_id invalid_method
        invalid_body_hash empty_secret :
      CanonicalizationError

abbrev pub Canonical : Type 0
Canonical = Result CanonicalizationError (List ℕ)

-- Equality of texts.
abbrev pub same_text : List ℕ → List ℕ → Bool
same_text [] [] = true
same_text [] (d ∷ ds) = false
same_text (c ∷ cs) [] = false
same_text (c ∷ cs) (d ∷ ds) = c == d && same_text cs ds

-- `fullmatch` of a character class with bounds on the count.
abbrev pub matches : (ℕ → Bool) → ℕ → ℕ → List ℕ → Bool
matches p lo hi text = between lo hi (length text) && all_of p text

abbrev pub is_letter : ℕ → Bool
is_letter c = between b'A' b'Z' c || between b'a' b'z' c

-- KEY_ID_RE
unfoldable pub is_key_id : List ℕ → Bool
is_key_id (c ∷ d ∷ e ∷ f ∷ text) =
    c == b'z' && d == b'p' && e == b'k' && f == b'_' && matches is_word 4 76 text
is_key_id text = false

-- TIMESTAMP_RE
unfoldable pub is_timestamp : List ℕ → Bool
is_timestamp [] = false
is_timestamp (c ∷ text) =
    (c == b'0' && length text == 0) || (between b'1' b'9' c && matches is_digit 0 19 text)

-- NONCE_RE
abbrev pub is_nonce : List ℕ → Bool
is_nonce text = matches is_word 16 128 text

-- REQUEST_ID_RE
abbrev pub is_request_id : List ℕ → Bool
is_request_id text = matches is_word 16 64 text

-- METHOD_RE
abbrev pub is_method : List ℕ → Bool
is_method text = not (length text == 0) && all_of is_letter text

-- LOWER_HEX_SHA256_RE
abbrev pub is_sha256 : List ℕ → Bool
is_sha256 text = matches is_lower_hex 64 64 text

abbrev upper_letter : ℕ → ℕ
upper_letter c = if between b'a' b'z' c then c - 32 else c

-- `method.upper()`; a method has letters only.
unfoldable pub upper : List ℕ → List ℕ
upper [] = []
upper (c ∷ text) = upper_letter c ∷ upper text

-- `_decode_component`
unfoldable pub decode_component : List ℕ → Bool → Canonical
decode_component value reject_double_encoding = do
  raise_if (has_bad_escape value) malformed_percent
  raise_if (not (is_utf8 (unquote_to_bytes value))) not_utf8
  raise_if (has_control (unquote_to_bytes value)) control_character
  raise_if (reject_double_encoding && has_escape (unquote_to_bytes value)) double_encoding
  ok (unquote_to_bytes value)

abbrev pub is_dots : List ℕ → Bool
is_dots segment = same_text segment (b'.' ∷ []) || same_text segment (b'.' ∷ b'.' ∷ [])

abbrev pub has : ℕ → List ℕ → Bool
has c text = any_of (λ d. d == c) text

-- One turn of the loop of `canonicalize_path`.
unfoldable pub canonical_segment : List ℕ → Canonical
canonical_segment raw_segment = do
  segment ← decode_component raw_segment true
  raise_if (is_dots segment || has 0x5C segment) ambiguous_segment
  ok (quote segment)

unfoldable pub canonical_segments : List (List ℕ) → Result CanonicalizationError (List (List ℕ))
canonical_segments [] = ok []
canonical_segments (raw_segment ∷ raw_segments) = do
  segment ← canonical_segment raw_segment
  segments ← canonical_segments raw_segments
  ok (segment ∷ segments)

abbrev pub is_absolute : List ℕ → Bool
is_absolute [] = false
is_absolute (c ∷ text) = c == b'/'

-- `canonicalize_path`
unfoldable pub canonicalize_path : List ℕ → Canonical
canonicalize_path raw_path = do
  raise_if (not (is_absolute raw_path) || has b'?' raw_path || has b'#' raw_path) path_form
  segments ← canonical_segments (split b'/' raw_path)
  ok (join b'/' segments)

abbrev pub Pair : Type 0
Pair = List ℕ × List ℕ

-- The order of two texts, and of two pairs as Python compares tuples.
unfoldable pub text_le : List ℕ → List ℕ → Bool
text_le [] text = true
text_le (c ∷ cs) [] = false
text_le (c ∷ cs) (d ∷ ds) = let rest = text_le cs ds in ltb c d || (c == d && rest)

unfoldable pub pair_le : Pair → Pair → Bool
pair_le (key, value) (key', value') =
    if same_text key key' then text_le value value' else text_le key key'

unfoldable pub insert : Pair → List Pair → List Pair
insert pair [] = pair ∷ []
insert pair (next ∷ pairs) =
    let later = insert pair pairs in if pair_le pair next then pair ∷ next ∷ pairs else next ∷ later

-- `pairs.sort()`
unfoldable pub sort : List Pair → List Pair
sort [] = []
sort (pair ∷ pairs) = insert pair (sort pairs)

-- One turn of the loop of `canonicalize_query`.
unfoldable pub canonical_pair : List ℕ → Result CanonicalizationError Pair
canonical_pair raw_pair = do
  key ← decode_component ((partition b'=' raw_pair).0) false
  value ← decode_component ((partition b'=' raw_pair).1) false
  ok (quote key, quote value)

unfoldable pub canonical_pairs : List (List ℕ) → Result CanonicalizationError (List Pair)
canonical_pairs [] = ok []
canonical_pairs (raw_pair ∷ raw_pairs) = do
  pair ← canonical_pair raw_pair
  pairs ← canonical_pairs raw_pairs
  ok (pair ∷ pairs)

unfoldable pub shown_pairs : List Pair → List (List ℕ)
shown_pairs [] = []
shown_pairs ((key, value) ∷ pairs) = (key ++ b'=' ∷ value) ∷ shown_pairs pairs

-- `canonicalize_query`
unfoldable pub canonicalize_query : List ℕ → Canonical
canonicalize_query [] = ok []
canonicalize_query (c ∷ raw_query) = do
  pairs ← canonical_pairs (split b'&' (c ∷ raw_query))
  ok (join b'&' (shown_pairs (sort pairs)))

-- The keyword arguments of `create_canonical_request`.
pub record Request : Type 0 where
  pub method : List ℕ
  pub raw_path : List ℕ
  pub raw_query : List ℕ
  pub body_hash : List ℕ
  pub key_id : List ℕ
  pub timestamp : List ℕ
  pub nonce : List ℕ
  pub request_id : List ℕ

-- `validate_signing_fields`
unfoldable pub validate_signing_fields :
    List ℕ → List ℕ → List ℕ → List ℕ → Result CanonicalizationError (Unit {0})
validate_signing_fields key_id timestamp nonce request_id = do
  raise_if (not (is_key_id key_id)) invalid_key_id
  raise_if (not (is_timestamp timestamp)) invalid_timestamp
  raise_if (not (is_nonce nonce)) invalid_nonce
  raise_if (not (is_request_id request_id)) invalid_request_id

-- HMAC_ALGORITHM and SIGNATURE_VERSION
abbrev pub hmac_algorithm : List ℕ
hmac_algorithm = codes "ZANGPU-HMAC-SHA256"

abbrev pub signature_version : List ℕ
signature_version = b'1' ∷ []

-- The texts that the canonical request joins.
abbrev pub canonical_fields : Request → List ℕ → List ℕ → List (List ℕ)
canonical_fields r path query =
    hmac_algorithm
    ∷ signature_version
    ∷ upper r.method
    ∷ path
    ∷ query
    ∷ r.body_hash
    ∷ r.key_id
    ∷ r.timestamp
    ∷ r.nonce
    ∷ r.request_id
    ∷ []

-- `create_canonical_request`
unfoldable pub create_canonical_request : Request → Canonical
create_canonical_request r = do
  raise_if (not (is_method r.method)) invalid_method
  raise_if (not (is_sha256 r.body_hash)) invalid_body_hash
  validate_signing_fields r.key_id r.timestamp r.nonce r.request_id
  path ← canonicalize_path r.raw_path
  query ← canonicalize_query r.raw_query
  ok (join 10 (canonical_fields r path query))

module _ (hmac_sha256 : List ℕ → List ℕ → List ℕ) where
  -- `sign_canonical_request`
  unfoldable pub sign_canonical_request : List ℕ → List ℕ → Canonical
  sign_canonical_request secret canonical_request = do
    raise_if (length secret == 0) empty_secret
    ok (hmac_sha256 secret canonical_request)

  abbrev pub compare_with : List ℕ → List ℕ → Result CanonicalizationError Bool
  compare_with presented expected = ok (same_text expected presented)

  -- `verify_signature`
  unfoldable pub verify_signature : List ℕ → List ℕ → List ℕ → Result CanonicalizationError Bool
  verify_signature secret canonical_request presented =
      if is_sha256 presented
      then sign_canonical_request secret canonical_request >>= compare_with presented
      else ok false
