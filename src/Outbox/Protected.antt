-- ===== src/Outbox/Protected.antt =====
-- A binding's protected key: `persist_created_binding` and `decrypt_binding_value` of
-- backend/app/integrations/bifrost/binding_service.py.
use zangpu.Base.{
  ℕ, ◌≡◌, refl, ap, ◌∙◌, true, false, some, any_of, length, ◌==◌, ok, bind-eq-ok, raise_if,
  if◌then◌else◌, arith,
}
use zangpu.Signing.Percent.{is_utf8}
use zangpu.Signing.Crypto.{Crypto, Documented}
use zangpu.Signing.Keyring.{CredentialKeyring, get_key, bad_value, aad_values, encrypt}
use zangpu.Signing.Secrets.{decrypt-encrypt, encrypt-key_id}
use zangpu.Signing.Paths.{raise_if-passed}
use zangpu.Outbox.{Text, SyncStatus, VirtualKeyCreationResult, ApiClientBinding}
use zangpu.Outbox.Binding.{
  Envelope, binding_aad, with_key, settle_binding, persist_created_binding, given,
  decrypt_binding_value,
}

-- `json.loads` reads back what `json.dumps` wrote, and JSON is never the empty text.
pub record Faithful (envelope : Envelope) : Type 0 where
  pub back :
      (ciphertext nonce : Text)
      → envelope.load (envelope.dump ciphertext nonce) ≡ some (ciphertext, nonce)
  pub filled : (ciphertext nonce : Text) → (length (envelope.dump ciphertext nonce) == 0) ≡ false

binding_aad-filled :
    (a b c d aad : Text)
    → binding_aad a b c d ≡ ok aad
    → ((length c == 0) ≡ false) × ((length d == 0) ≡ false)
unfolding binding_aad
binding_aad-filled a b c d aad h =
    let (u, good, h1) = bind-eq-ok (raise_if (any_of bad_value (aad_values a b c d)) _) _ h in
    let plain = raise_if-passed _ _ _ good in (ground arith, ground arith)

module _ (crypto : Crypto) (doc : Documented crypto) (envelope : Envelope)
    (faithful : Faithful envelope) where
  -- Where base64, AES-GCM and JSON do what they document: the value of a virtual key, a UTF-8 text,
  -- that was persisted in a binding with a 12-byte nonce is read back from the binding by every key
  -- ring that still has the key that encrypted it, whichever key is active then.
  pub decrypt-persist :
      (ring ring' : CredentialKeyring) (binding after : ApiClientBinding)
      (result : VirtualKeyCreationResult) (fresh : Text) (now : ℕ)
      → length fresh ≡ 12
      → is_utf8 result.value ≡ true
      → get_key ring.active_key_id ring'.keys ≡ get_key ring.active_key_id ring.keys
      → persist_created_binding crypto envelope ring binding result fresh now ≡ ok after
      → decrypt_binding_value crypto envelope ring' after ≡ ok result.value
  unfolding persist_created_binding decrypt_binding_value given
  decrypt-persist ring ring' binding after result fresh now hn hu hk h =
      let (aad, made, h1) =
        bind-eq-ok (binding_aad binding.id binding.api_client_id result.state.id ring.active_key_id)
          _ h in
      let (sealed, sealing, h2) = bind-eq-ok (encrypt crypto ring fresh result.value aad) _ h1 in
      let version = encrypt-key_id crypto ring fresh result.value aad sealed sealing in
      let (named, keyed) =
        binding_aad-filled binding.id binding.api_client_id result.state.id ring.active_key_id aad
          made in
      let keyed' = ap (λ v. length v == 0) version ∙ keyed in
      let made' =
        ap (binding_aad binding.id binding.api_client_id result.state.id) version ∙ made in
      let opened =
        decrypt-encrypt crypto doc ring ring' fresh result.value aad sealed hn hk sealing in
      let status = if result.state.is_active then SyncStatus.active else SyncStatus.disabled in
      let written : settle_binding crypto envelope ring
            (with_key crypto envelope ring binding result.state.id sealed) status now
          ≡ after =
        cc in
      let full = faithful.filled sealed.ciphertext sealed.nonce in
      let read = faithful.back sealed.ciphertext sealed.nonce in
      rw (← written, named, full, keyed', read, made', opened, hu) refl
