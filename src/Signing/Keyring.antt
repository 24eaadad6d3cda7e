-- ===== src/Signing/Keyring.antt =====
-- backend/app/security/keyring.py: the versioned keys that protect the secrets of credentials. A
-- key ring is an association list of versions and keys, and the version that encrypts.
use zangpu.Base.{
  ℕ, ◌≡◌, Bool, not, ◌||◌, List, [], ◌∷◌, ◌==◌, Option, none, some, any_of, length, Result, ok,
  ◌>>=◌, ◌>>◌, raise_if, of_option, if◌then◌else◌, is_digit, between,
}
use zangpu.Signing.Split.{join}
use zangpu.Signing.Canonical.{same_text, has, matches}
use zangpu.Signing.Crypto.{Crypto}

pub record EncryptedSecret : Type 0 where
  pub ciphertext : List ℕ
  pub nonce : List ℕ
  pub key_id : List ℕ

pub data KeyringError : Type 0 where
  aad_value invalid_active_version version_count invalid_version invalid_base64 key_length
        active_version_unavailable empty_plaintext key_version_unavailable decryption_failed :
      KeyringError

-- `not value or "\n" in value or "\r" in value`
abbrev pub bad_value : List ℕ → Bool
bad_value value = length value == 0 || has 10 value || has 13 value

abbrev pub aad_values : List ℕ → List ℕ → List ℕ → List ℕ → List (List ℕ)
aad_values credential_id api_client_id key_id master_key_id =
    credential_id ∷ api_client_id ∷ key_id ∷ master_key_id ∷ []

-- `credential_aad`
unfoldable pub credential_aad : List ℕ → List ℕ → List ℕ → List ℕ → Result KeyringError (List ℕ)
credential_aad credential_id api_client_id key_id master_key_id = do
  raise_if (any_of bad_value (aad_values credential_id api_client_id key_id master_key_id))
      KeyringError.aad_value
  ok (join 10 (aad_values credential_id api_client_id key_id master_key_id))

pub record CredentialKeyring : Type 0 where
  pub keys : List (List ℕ × List ℕ)
  pub active_key_id : List ℕ

-- `self._keys.get(version)`
unfoldable pub get_key : List ℕ → List (List ℕ × List ℕ) → Option (List ℕ)
get_key version [] = none
get_key version ((name, key) ∷ keys) =
    let later = get_key version keys in if same_text name version then some key else later

abbrev is_version_character : ℕ → Bool
is_version_character c =
    between b'A' b'Z' c || between b'a' b'z' c || is_digit c || c == b'.' || c == b'_' || c == b'-'

-- KEY_VERSION_RE
abbrev pub is_version : List ℕ → Bool
is_version text = matches is_version_character 1 64 text

-- The key ring has a key under its active version.
abbrev pub HoldsActive : CredentialKeyring → Type 0
HoldsActive ring = (key : List ℕ) × (get_key ring.active_key_id ring.keys ≡ some key)

module _ (crypto : Crypto) where
  -- `_decode_key`
  unfoldable pub decode_key : List ℕ → Result KeyringError (List ℕ)
  decode_key encoded_key = do
    key ← of_option (crypto.b64decode encoded_key) KeyringError.invalid_base64
    raise_if (not (length key == 32)) KeyringError.key_length
    ok key

  -- The loop of `from_json` over the items of the JSON object.
  unfoldable pub decode_keys : List (List ℕ × List ℕ) → Result KeyringError (List (List ℕ × List ℕ))
  decode_keys [] = ok []
  decode_keys ((version, encoded_key) ∷ items) = do
    raise_if (not (is_version version)) KeyringError.invalid_version
    key ← decode_key encoded_key
    keys ← decode_keys items
    ok ((version, key) ∷ keys)

  -- `from_json` after `json.loads` has read an object of texts with distinct keys.
  unfoldable pub from_items :
      List (List ℕ × List ℕ) → List ℕ → Result KeyringError CredentialKeyring
  from_items items active = do
    raise_if (not (is_version active)) KeyringError.invalid_active_version
    raise_if (not (between 1 16 (length items))) KeyringError.version_count
    keys ← decode_keys items
    key ← of_option (get_key active keys) KeyringError.active_version_unavailable
    ok (record { keys = keys; active_key_id = active })

  -- `encrypt` with the nonce that `token_bytes` returned; a missing active key is Python's `KeyError`.
  unfoldable pub encrypt :
      CredentialKeyring → List ℕ → List ℕ → List ℕ → Result KeyringError EncryptedSecret
  encrypt keyring fresh plaintext aad = do
    raise_if (length plaintext == 0) KeyringError.empty_plaintext
    key ←
        of_option (get_key keyring.active_key_id keyring.keys) KeyringError.key_version_unavailable
    ok (record {
      ciphertext = crypto.b64encode (crypto.aes_encrypt key fresh plaintext aad);
      nonce = crypto.b64encode fresh;
      key_id = keyring.active_key_id;
    })

  -- `decrypt`
  unfoldable pub decrypt :
      CredentialKeyring → EncryptedSecret → List ℕ → Result KeyringError (List ℕ)
  decrypt keyring encrypted aad = do
    key ← of_option (get_key encrypted.key_id keyring.keys) KeyringError.key_version_unavailable
    fresh ← of_option (crypto.b64decode encrypted.nonce) KeyringError.decryption_failed
    sealed ← of_option (crypto.b64decode encrypted.ciphertext) KeyringError.decryption_failed
    raise_if (not (length fresh == 12)) KeyringError.decryption_failed
    of_option (crypto.aes_decrypt key fresh sealed aad) KeyringError.decryption_failed
