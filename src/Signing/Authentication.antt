-- ===== src/Signing/Authentication.antt =====
-- `ExternalAuthenticator.authenticate` of backend/app/security/dependencies.py. The resolver of
-- credentials is a function of the key id.
use zangpu.Base.{
  ℕ, ◌+◌, ◌-◌, ◌*◌, Bool, false, not, ◌&&◌, List, [], ◌∷◌, Option, none, some, codes, leb, ltb,
  Result, ok, err, ◌>>=◌, ◌>>◌, raise_if,
}
use zangpu.Signing.Percent.{is_utf8}
use zangpu.Signing.Canonical.{same_text, Request, create_canonical_request, verify_signature}
use zangpu.Signing.Crypto.{Crypto}
use zangpu.Signing.Keyring.{EncryptedSecret, CredentialKeyring, credential_aad, decrypt}
use zangpu.Signing.Headers.{AuthError, ExternalAuthHeaders, parse_external_auth_headers, guarded}

pub record ResolvedCallerCredential : Type 0 where
  pub credential_id : List ℕ
  pub api_client_id : List ℕ
  pub key_id : List ℕ
  pub secret_ciphertext : List ℕ
  pub secret_nonce : List ℕ
  pub master_key_id : List ℕ
  pub credential_status : List ℕ
  pub credential_expires_at : Option ℕ
  pub client_status : List ℕ

pub record AuthenticatedCaller : Type 0 where
  pub api_client_id : List ℕ
  pub credential_id : List ℕ
  pub key_id : List ℕ
  pub request_id : List ℕ
  pub nonce : List ℕ
  pub timestamp : ℕ

-- The keyword arguments of `authenticate` but the headers and the time.
pub record Call : Type 0 where
  pub method : List ℕ
  pub raw_path : List ℕ
  pub raw_query : List ℕ
  pub body : List ℕ

-- `int(text)` of a text of digits.
abbrev pub read_digits : ℕ → List ℕ → ℕ
read_digits n [] = n
read_digits n (c ∷ text) = read_digits (10 * n + (c - b'0')) text

abbrev pub read_int : List ℕ → ℕ
read_int text = read_digits 0 text

-- `abs(a - b)`
abbrev pub distance : ℕ → ℕ → ℕ
distance a b = (a - b) + (b - a)

abbrev pub active : List ℕ
active = codes "active"

abbrev pub is_expired : Option ℕ → ℕ → Bool
is_expired none now = false
is_expired (some expires_at) now = leb expires_at now

-- The state of the credential.
abbrev pub is_usable : ResolvedCallerCredential → List ℕ → ℕ → Bool
is_usable resolved key_id now =
    same_text resolved.key_id key_id
    && same_text resolved.credential_status active
    && not (is_expired resolved.credential_expires_at now)

abbrev pub usable :
    Option ResolvedCallerCredential → List ℕ → ℕ → Result AuthError ResolvedCallerCredential
usable none key_id now = err AuthError.credential_state
usable (some resolved) key_id now =
    raise_if (not (is_usable resolved key_id now)) AuthError.credential_state >> ok resolved

module _ (crypto : Crypto) where
  abbrev pub signed_request : Call → ExternalAuthHeaders → Request
  signed_request call headers = record {
    method = call.method;
    raw_path = call.raw_path;
    raw_query = call.raw_query;
    body_hash = crypto.sha256_hex call.body;
    key_id = headers.key_id;
    timestamp = headers.timestamp;
    nonce = headers.nonce;
    request_id = headers.request_id;
  }

  abbrev pub protected_secret : ResolvedCallerCredential → EncryptedSecret
  protected_secret resolved = record {
    ciphertext = resolved.secret_ciphertext;
    nonce = resolved.secret_nonce;
    key_id = resolved.master_key_id;
  }

  -- The decrypted secret.
  unfoldable pub reveal : CredentialKeyring → ResolvedCallerCredential → Result AuthError (List ℕ)
  reveal keyring resolved = do
    aad ← guarded AuthError.credential_protection (
        credential_aad resolved.credential_id resolved.api_client_id resolved.key_id
          resolved.master_key_id)
    secret ←
        guarded AuthError.credential_protection
          (decrypt crypto keyring (protected_secret resolved) aad)
    raise_if (not (is_utf8 secret)) AuthError.credential_protection
    ok secret

  -- The `try` of `authenticate`.
  unfoldable pub check_signature :
      CredentialKeyring
      → Call
      → ExternalAuthHeaders
      → ResolvedCallerCredential
      → Result AuthError (Unit {0})
  check_signature keyring call headers resolved = do
    canonical ←
        guarded AuthError.credential_protection
          (create_canonical_request (signed_request call headers))
    secret ← reveal keyring resolved
    verified ←
        guarded AuthError.credential_protection
          (verify_signature crypto.hmac_sha256 secret canonical headers.signature)
    raise_if (not verified) AuthError.signature_mismatch

  abbrev pub caller : ResolvedCallerCredential → ExternalAuthHeaders → AuthenticatedCaller
  caller resolved headers = record {
    api_client_id = resolved.api_client_id;
    credential_id = resolved.credential_id;
    key_id = resolved.key_id;
    request_id = headers.request_id;
    nonce = headers.nonce;
    timestamp = read_int headers.timestamp;
  }

  module _ (keyring : CredentialKeyring) (resolver : List ℕ → Option ResolvedCallerCredential)
      (tolerance : ℕ) where
    -- `authenticate` below the parsing of the headers.
    unfoldable pub authenticate_headers :
        Call → ℕ → ExternalAuthHeaders → Result AuthError AuthenticatedCaller
    authenticate_headers call now headers = do
      resolved ← usable (resolver headers.key_id) headers.key_id now
      raise_if (ltb tolerance (distance now (read_int headers.timestamp)))
          AuthError.timestamp_window
      check_signature keyring call headers resolved
      raise_if (not (same_text resolved.client_status active)) AuthError.client_disabled
      ok (caller resolved headers)

    -- `authenticate`
    unfoldable pub authenticate :
        Call → List (List ℕ × List ℕ) → ℕ → Result AuthError AuthenticatedCaller
    authenticate call raw_headers now =
        parse_external_auth_headers raw_headers >>= authenticate_headers call now
