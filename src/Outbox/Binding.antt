-- ===== src/Outbox/Binding.antt =====
-- backend/app/integrations/bifrost/binding_service.py: a binding's protected key. The envelope of the
-- ciphertext is JSON, whose writer and reader are parameters.
use zangpu.Base.{
  ℕ, Bool, false, not, ◌&&◌, Option, none, some, any_of, length, ◌==◌, Result, ok, ◌>>=◌, ◌>>◌,
  raise_if, of_option, if◌then◌else◌,
}
use zangpu.Signing.Percent.{is_utf8}
use zangpu.Signing.Split.{join}
use zangpu.Signing.Crypto.{Crypto}
use zangpu.Signing.Keyring.{
  EncryptedSecret, CredentialKeyring, KeyringError, bad_value, aad_values, encrypt, decrypt,
}
use zangpu.Outbox.{Text, SyncStatus, VirtualKeyCreationResult, ApiClientBinding}

-- `json.dumps({"ciphertext": ..., "nonce": ...})`, and `json.loads` with both keys read.
pub record Envelope : Type 0 where
  pub dump : Text → Text → Text
  pub load : Text → Option (Text × Text)

-- The truth of an optional text.
abbrev pub is_given : Option Text → Bool
is_given none = false
is_given (some text) = not (length text == 0)

-- `binding_remote_fields_complete`
abbrev pub binding_remote_fields_complete : ApiClientBinding → Bool
binding_remote_fields_complete binding =
    is_given binding.zangpu_service_user_id
    && is_given binding.bifrost_virtual_key_id
    && is_given binding.bifrost_value_ciphertext
    && is_given binding.bifrost_value_key_version

-- `binding_aad`
unfoldable pub binding_aad : Text → Text → Text → Text → Result KeyringError Text
binding_aad binding_id api_client_id virtual_key_id master_key_id = do
  raise_if (any_of bad_value (aad_values binding_id api_client_id virtual_key_id master_key_id))
      KeyringError.aad_value
  ok (join 10 (aad_values binding_id api_client_id virtual_key_id master_key_id))

-- The status that a complete binding takes, or pending.
abbrev pub synced : ApiClientBinding → SyncStatus → SyncStatus
synced binding status =
    if binding_remote_fields_complete binding then status else SyncStatus.pending

module _ (crypto : Crypto) (envelope : Envelope) (keyring : CredentialKeyring) where
  -- The binding with the remote key's fields.
  abbrev pub with_key : ApiClientBinding → Text → EncryptedSecret → ApiClientBinding
  with_key binding key_id encrypted = record binding {
    bifrost_virtual_key_id = some key_id;
    bifrost_value_ciphertext = some (envelope.dump encrypted.ciphertext encrypted.nonce);
    bifrost_value_key_version = some encrypted.key_id;
  }

  -- The binding with its status after the remote change.
  abbrev pub settle_binding : ApiClientBinding → SyncStatus → ℕ → ApiClientBinding
  settle_binding binding status now = record binding {
    sync_status = synced binding status;
    last_sync_error_code = none;
    updated_at = now;
  }

  -- `persist_created_binding` with the nonce that the key ring drew.
  unfoldable pub persist_created_binding :
      ApiClientBinding → VirtualKeyCreationResult → Text → ℕ → Result KeyringError ApiClientBinding
  persist_created_binding binding result fresh now = do
    aad ← binding_aad binding.id binding.api_client_id result.state.id keyring.active_key_id
    encrypted ← encrypt crypto keyring fresh result.value aad
    ok (
        settle_binding (with_key binding result.state.id encrypted)
          (if result.state.is_active then SyncStatus.active else SyncStatus.disabled) now)

  -- The fields that `decrypt_binding_value` wants.
  unfoldable pub given : Option Text → Result KeyringError Text
  given field = do
    text ← of_option field KeyringError.decryption_failed
    raise_if (length text == 0) KeyringError.decryption_failed
    ok text

  -- `decrypt_binding_value`; its errors of another type are `decryption_failed` here.
  unfoldable pub decrypt_binding_value : ApiClientBinding → Result KeyringError Text
  decrypt_binding_value binding = do
    key_id ← given binding.bifrost_virtual_key_id
    stored ← given binding.bifrost_value_ciphertext
    version ← given binding.bifrost_value_key_version
    parts ← of_option (envelope.load stored) KeyringError.decryption_failed
    aad ← binding_aad binding.id binding.api_client_id key_id version
    plaintext ←
        decrypt crypto keyring (record { ciphertext = parts.0; nonce = parts.1; key_id = version })
          aad
    raise_if (not (is_utf8 plaintext)) KeyringError.decryption_failed
    ok plaintext
