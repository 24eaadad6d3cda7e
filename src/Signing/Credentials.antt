-- ===== src/Signing/Credentials.antt =====
-- The creation of a credential and the reading of its secret: backend/app/security/credentials.py,
-- and the row that `DatabaseCredentialResolver` of backend/app/services/callers.py makes of it.
use zangpu.Base.{
  ℕ, ◌≡◌, refl, ap, ◌∙◌, true, not, List, ◌++◌, Option, codes, length, Result, ok, bind-eq-ok,
  ◌>>=◌, ◌>>◌, raise_if,
}
use zangpu.Signing.Percent.{is_utf8}
use zangpu.Signing.Canonical.{same_text}
use zangpu.Signing.Crypto.{Crypto, Documented}
use zangpu.Signing.Keyring.{
  EncryptedSecret, CredentialKeyring, KeyringError, get_key, credential_aad, encrypt, decrypt,
}
use zangpu.Signing.Genuine.{same_text_refl}
use zangpu.Signing.Authentication.{ResolvedCallerCredential, active, reveal}
use zangpu.Signing.Secrets.{decrypt-encrypt, encrypt-key_id}

-- The columns of a credential that its protection uses.
pub record ProtectedCredential : Type 0 where
  pub id : List ℕ
  pub api_client_id : List ℕ
  pub key_id : List ℕ
  pub secret_ciphertext : List ℕ
  pub secret_nonce : List ℕ
  pub master_key_id : List ℕ
  pub secret_fingerprint : List ℕ
  pub status : List ℕ
  pub expires_at : Option ℕ

-- `f"zps_{token_urlsafe(32)}"` of the token.
abbrev pub secret_of : List ℕ → List ℕ
secret_of token = codes "zps_" ++ token

-- `DatabaseCredentialResolver._resolve` of the rows that its query found.
abbrev pub resolve : ProtectedCredential → List ℕ → ResolvedCallerCredential
resolve credential client_status = record {
  credential_id = credential.id;
  api_client_id = credential.api_client_id;
  key_id = credential.key_id;
  secret_ciphertext = credential.secret_ciphertext;
  secret_nonce = credential.secret_nonce;
  master_key_id = credential.master_key_id;
  credential_status = credential.status;
  credential_expires_at = credential.expires_at;
  client_status = client_status;
}

module _ (crypto : Crypto) (keyring : CredentialKeyring) where
  abbrev pub sealed_parts : ProtectedCredential → EncryptedSecret
  sealed_parts credential = record {
    ciphertext = credential.secret_ciphertext;
    nonce = credential.secret_nonce;
    key_id = credential.master_key_id;
  }

  abbrev pub credential_of :
      List ℕ → List ℕ → List ℕ → List ℕ → Option ℕ → EncryptedSecret → ProtectedCredential
  credential_of id api_client_id key_id token expires_at encrypted = record {
    id = id;
    api_client_id = api_client_id;
    key_id = key_id;
    secret_ciphertext = encrypted.ciphertext;
    secret_nonce = encrypted.nonce;
    master_key_id = encrypted.key_id;
    secret_fingerprint = crypto.sha256_hex (secret_of token);
    status = active;
    expires_at = expires_at;
  }

  -- `create_protected_credential` with the ids, the nonce and the token that were drawn; the secret is
  -- that of the token.
  unfoldable pub create_protected_credential :
      List ℕ
      → List ℕ
      → List ℕ
      → List ℕ
      → List ℕ
      → Option ℕ
      → Result KeyringError ProtectedCredential
  create_protected_credential id api_client_id key_id token fresh expires_at = do
    aad ← credential_aad id api_client_id key_id keyring.active_key_id
    encrypted ← encrypt crypto keyring fresh (secret_of token) aad
    ok (credential_of id api_client_id key_id token expires_at encrypted)

  -- `decrypt_credential_secret`
  unfoldable pub decrypt_credential_secret : ProtectedCredential → Result KeyringError (List ℕ)
  decrypt_credential_secret credential = do
    aad ←
        credential_aad credential.id credential.api_client_id credential.key_id
          credential.master_key_id
    plaintext ← decrypt crypto keyring (sealed_parts credential) aad
    raise_if (not (is_utf8 plaintext)) KeyringError.decryption_failed
    raise_if (not (same_text (crypto.sha256_hex plaintext) credential.secret_fingerprint))
        KeyringError.decryption_failed
    ok plaintext

-- Where base64 and AES-GCM do what they document: the secret of a credential that was created with a
-- 12-byte nonce and a token of UTF-8 text is what the authenticator reveals of the credential, and
-- what `decrypt_credential_secret` returns, under every key ring that still has the key that
-- encrypted it.
pub created_secret_is_revealed :
    (crypto : Crypto) (doc : Documented crypto) (ring ring' : CredentialKeyring)
    (id api_client_id key_id token fresh client_status : List ℕ) (expires_at : Option ℕ)
    (credential : ProtectedCredential)
    → length fresh ≡ 12
    → is_utf8 (secret_of token) ≡ true
    → get_key ring.active_key_id ring'.keys ≡ get_key ring.active_key_id ring.keys
    → create_protected_credential crypto ring id api_client_id key_id token fresh expires_at
      ≡ ok credential
    → (reveal crypto ring' (resolve credential client_status) ≡ ok (secret_of token))
      × (decrypt_credential_secret crypto ring' credential ≡ ok (secret_of token))
unfolding create_protected_credential decrypt_credential_secret reveal
created_secret_is_revealed crypto doc ring ring' id api_client_id key_id token fresh client_status
      expires_at credential hn hu hk h =
    let (aad, made, h1) =
      bind-eq-ok (credential_aad id api_client_id key_id ring.active_key_id) _ h in
    let (sealed, sealing, h2) = bind-eq-ok (encrypt crypto ring fresh (secret_of token) aad) _ h1 in
    let version = encrypt-key_id crypto ring fresh (secret_of token) aad sealed sealing in
    let made' = ap (credential_aad id api_client_id key_id) version ∙ made in
    let opened =
      decrypt-encrypt crypto doc ring ring' fresh (secret_of token) aad sealed hn hk sealing in
    let written : credential_of crypto ring id api_client_id key_id token expires_at sealed
        ≡ credential =
      cc in
    let same = same_text_refl (crypto.sha256_hex (secret_of token)) in
    rw (← written, made', opened, hu, same) (refl, refl)
