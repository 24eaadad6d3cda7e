-- ===== src/Signing/Examples.antt =====
-- Concrete requests, signed and authenticated with stand-ins for the primitives.
use zangpu.Base.{ℕ, ◌≡◌, refl, arith, all_of, true, List, [], ◌∷◌, ◌++◌, Option, some, codes, ok}
use zangpu.Signing.Percent.{
  has_bad_escape, has_escape, unquote_to_bytes, quoted_byte, quote, is_utf8_after,
}
use zangpu.Signing.Split.{split, join, partition}
use zangpu.Signing.Canonical.{
  Request, create_canonical_request, canonicalize_path, canonicalize_query, canonical_segment,
  canonical_segments, canonical_pair, canonical_pairs, decode_component, validate_signing_fields,
  is_key_id, is_timestamp, upper, text_le, pair_le, insert, sort, shown_pairs,
}
use zangpu.Signing.Binding.{SameRequest, canonical_request_binds}
use zangpu.Signing.Paths.{canonicalize_path_idempotent}
use zangpu.Signing.Trial.{digest, plain_crypto, plain_crypto-Documented}
use zangpu.Signing.Keyring.{
  EncryptedSecret, CredentialKeyring, credential_aad, get_key, encrypt, decrypt,
}
use zangpu.Signing.Secrets.{decrypt-encrypt, SameOwner, credential_aad_binds}
use zangpu.Signing.Headers.{field_name, lower}
use zangpu.Signing.Authentication.{
  ResolvedCallerCredential, AuthenticatedCaller, Call, reveal, authenticate, active,
}
use zangpu.Signing.Credentials.{
  ProtectedCredential, create_protected_credential, decrypt_credential_secret, secret_of, resolve,
  created_secret_is_revealed,
}
use zangpu.Signing.Genuine.{Genuine, authenticate_checks}
use zangpu.Signing.Client.{ZangpuSigner, new_signer, SignedHeaders, as_headers, show_digits, sign}
use zangpu.Signing.Sent.{is_ignored}
use zangpu.Signing.RoundTrip.{Registered, sign-authenticate}

abbrev key : List ℕ
key = codes "zpk_abcd"

abbrev fresh : List ℕ
fresh = codes "nonce_0123456789"

abbrev id : List ℕ
id = codes "req_0123456789ab"

abbrev first_request : Request
first_request = record {
  method = codes "post";
  raw_path = codes "/v1/a%2db";
  raw_query = codes "b=2&a=%31";
  body_hash = digest;
  key_id = key;
  timestamp = codes "90";
  nonce = fresh;
  request_id = id;
}

-- The same request in its canonical form.
abbrev second_request : Request
second_request = record first_request {
  method = codes "POST";
  raw_path = codes "/v1/a-b";
  raw_query = codes "a=1&b=2";
}

abbrev shared_text : List ℕ
shared_text =
    codes "ZANGPU-HMAC-SHA256\n1\nPOST\n/v1/a-b\na=1&b=2\n"
    ++ digest
    ++ codes "\nzpk_abcd\n90\n"
    ++ fresh
    ++ codes "\n"
    ++ id

first_text : create_canonical_request first_request ≡ ok shared_text
unfolding has_bad_escape has_escape unquote_to_bytes quoted_byte quote is_utf8_after split join
    partition create_canonical_request canonicalize_path canonicalize_query canonical_segment
    canonical_segments canonical_pair canonical_pairs decode_component validate_signing_fields
    is_key_id is_timestamp upper text_le pair_le insert sort shown_pairs
first_text = refl

second_text : create_canonical_request second_request ≡ ok shared_text
unfolding has_bad_escape has_escape unquote_to_bytes quoted_byte quote is_utf8_after split join
    partition create_canonical_request canonicalize_path canonicalize_query canonical_segment
    canonical_segments canonical_pair canonical_pairs decode_component validate_signing_fields
    is_key_id is_timestamp upper text_le pair_le insert sort shown_pairs
second_text = refl

canonical_request_binds_example : SameRequest first_request second_request
canonical_request_binds_example =
    canonical_request_binds first_request second_request shared_text first_text second_text

path_text : canonicalize_path (codes "/v1/a%2db c") ≡ ok (codes "/v1/a-b%20c")
unfolding has_bad_escape has_escape unquote_to_bytes quoted_byte quote is_utf8_after split join
    canonicalize_path canonical_segment canonical_segments decode_component
path_text = refl

canonicalize_path_idempotent_example :
    canonicalize_path (codes "/v1/a-b%20c") ≡ ok (codes "/v1/a-b%20c")
canonicalize_path_idempotent_example =
    canonicalize_path_idempotent (codes "/v1/a%2db c") (codes "/v1/a-b%20c") path_text

abbrev old_ring : CredentialKeyring
old_ring = record { keys = (codes "k1", codes "key one") ∷ []; active_key_id = codes "k1" }

abbrev new_ring : CredentialKeyring
new_ring = record {
  keys = (codes "k2", codes "key two") ∷ (codes "k1", codes "key one") ∷ [];
  active_key_id = codes "k2";
}

abbrev sealed_secret : EncryptedSecret
sealed_secret = record {
  ciphertext = codes "secret";
  nonce = codes "twelve bytes";
  key_id = codes "k1";
}

abbrev owner_data : List ℕ
owner_data = codes "c1\nclient\nzpk_abcd\nk1"

encrypted :
    encrypt plain_crypto old_ring (codes "twelve bytes") (codes "secret") owner_data
    ≡ ok sealed_secret
unfolding encrypt get_key
encrypted = refl

same_key : get_key (codes "k1") new_ring.keys ≡ get_key (codes "k1") old_ring.keys
unfolding get_key
same_key = refl

decrypt-encrypt_example :
    decrypt plain_crypto new_ring sealed_secret owner_data ≡ ok (codes "secret")
decrypt-encrypt_example =
    decrypt-encrypt plain_crypto plain_crypto-Documented old_ring new_ring (codes "twelve bytes")
      (codes "secret") owner_data sealed_secret refl same_key encrypted

owner_text : credential_aad (codes "c1") (codes "client") key (codes "k1") ≡ ok owner_data
unfolding credential_aad join
owner_text = refl

credential_aad_binds_example :
    SameOwner
      (codes "c1")
      (codes "client")
      key
      (codes "k1")
      (codes "c1")
      (codes "client")
      key
      (codes "k1")
credential_aad_binds_example =
    credential_aad_binds (codes "c1") (codes "client") key (codes "k1") (codes "c1")
      (codes "client") key (codes "k1") owner_data owner_text owner_text

abbrev credential : ResolvedCallerCredential
credential = record {
  credential_id = codes "c1";
  api_client_id = codes "client";
  key_id = key;
  secret_ciphertext = codes "secret";
  secret_nonce = codes "twelve bytes";
  master_key_id = codes "k1";
  credential_status = active;
  credential_expires_at = some 200;
  client_status = active;
}

abbrev directory : List ℕ → Option ResolvedCallerCredential
directory key_id = some credential

abbrev chat_call : Call
chat_call = record {
  method = codes "POST";
  raw_path = codes "/v1/a-b";
  raw_query = codes "a=1&b=2";
  body = codes "{}";
}

abbrev client_signer : ZangpuSigner
client_signer = record { key_id = key; secret = codes "secret" }

abbrev client_headers : SignedHeaders
client_headers = record {
  key_id = key;
  timestamp = codes "90";
  nonce = fresh;
  request_id = id;
  signature = digest;
}

abbrev known_caller : AuthenticatedCaller
known_caller = record {
  api_client_id = codes "client";
  credential_id = codes "c1";
  key_id = key;
  request_id = id;
  nonce = fresh;
  timestamp = 90;
}

signer_made : new_signer key (codes "secret") ≡ ok client_signer
unfolding new_signer is_key_id
signer_made = refl

headers_signed : sign plain_crypto client_signer chat_call 90 fresh id ≡ ok client_headers
unfolding sign show_digits has_bad_escape has_escape unquote_to_bytes quoted_byte quote
    is_utf8_after split join partition create_canonical_request canonicalize_path canonicalize_query
    canonical_segment canonical_segments canonical_pair canonical_pairs decode_component
    validate_signing_fields is_key_id is_timestamp upper text_le pair_le insert sort shown_pairs
headers_signed = refl

signer_known :
    Registered plain_crypto plain_crypto-Documented new_ring directory 300 client_signer credential
      90 100
unfolding reveal credential_aad join decrypt get_key is_utf8_after
signer_known = record {
  found = refl;
  is_valid = refl;
  enabled = refl;
  revealed = refl;
  recent = omega arith;
}

abbrev host_header : List (List ℕ × List ℕ)
host_header = (codes "Host", codes "api.example") ∷ []

host_ignored : all_of is_ignored host_header ≡ true
unfolding field_name lower
host_ignored = refl

sign-authenticate_example :
    authenticate plain_crypto new_ring directory 300 chat_call
      (as_headers client_headers ++ host_header)
      100
    ≡ ok known_caller
sign-authenticate_example =
    sign-authenticate plain_crypto plain_crypto-Documented new_ring directory 300 key
      (codes "secret") client_signer credential chat_call 90 100 fresh id client_headers host_header
      signer_made signer_known headers_signed (omega arith) host_ignored

authenticated :
    authenticate plain_crypto new_ring directory 300 chat_call
      (as_headers client_headers ++ host_header)
      100
    ≡ ok known_caller
authenticated =
    sign-authenticate plain_crypto plain_crypto-Documented new_ring directory 300 key
      (codes "secret") client_signer credential chat_call 90 100 fresh id client_headers host_header
      signer_made signer_known headers_signed (omega arith) host_ignored

authenticate_checks_example :
    Genuine plain_crypto new_ring directory 300 chat_call
      (as_headers client_headers ++ host_header)
      100
      known_caller
authenticate_checks_example =
    authenticate_checks plain_crypto new_ring directory 300 chat_call
      (as_headers client_headers ++ host_header) 100 known_caller authenticated

abbrev created_credential : ProtectedCredential
created_credential = record {
  id = codes "c1";
  api_client_id = codes "client";
  key_id = key;
  secret_ciphertext = codes "zps_token";
  secret_nonce = codes "twelve bytes";
  master_key_id = codes "k1";
  secret_fingerprint = digest;
  status = active;
  expires_at = some 200;
}

credential_made :
    create_protected_credential plain_crypto old_ring
      (codes "c1")
      (codes "client")
      key
      (codes "token")
      (codes "twelve bytes")
      (some 200)
    ≡ ok created_credential
unfolding create_protected_credential credential_aad join encrypt get_key
credential_made = refl

token_is_text : is_utf8_after 0 0x80 0xBF (secret_of (codes "token")) ≡ true
unfolding is_utf8_after
token_is_text = refl

created_secret_is_revealed_example :
    (reveal plain_crypto new_ring (resolve created_credential active) ≡ ok (codes "zps_token"))
    × (decrypt_credential_secret plain_crypto new_ring created_credential ≡ ok (codes "zps_token"))
created_secret_is_revealed_example =
    created_secret_is_revealed plain_crypto plain_crypto-Documented old_ring new_ring (codes "c1")
      (codes "client") key (codes "token") (codes "twelve bytes") active (some 200)
      created_credential refl token_is_text same_key credential_made
