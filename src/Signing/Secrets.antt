-- ===== src/Signing/Secrets.antt =====
-- The protection of a credential's secret: `encrypt`, `decrypt` and `credential_aad` of
-- backend/app/security/keyring.py.
use zangpu.Base.{
  ℕ, not, ◌≡◌, refl, sym, ap, ◌∙◌, true, false, List, [], ◌∷◌, ◌==◌, Option, none, some, any_of,
  all_of, between, length, ok, bind-eq-ok, raise_if, of_option, arith,
}
use zangpu.Signing.Split.{split, join, split-join}
use zangpu.Signing.Canonical.{has}
use zangpu.Signing.Quoted.{is_other}
use zangpu.Signing.Paths.{raise_if-passed}
use zangpu.Signing.Crypto.{Crypto, Documented}
use zangpu.Signing.Keyring.{
  EncryptedSecret, KeyringError, CredentialKeyring, get_key, from_items, decode_keys, is_version,
  HoldsActive, encrypt, decrypt, credential_aad, aad_values, bad_value,
}

pub of_option-ok {ℓ κ} :
    {E : Type ℓ} {A : Type κ} (o : Option A) (e : E) (a : A) → of_option o e ≡ ok a → o ≡ some a
of_option-ok (some b) e a h = let same : b ≡ a = cc in ap some same
of_option-ok none e a h = cc

module _ (crypto : Crypto) (doc : Documented crypto) where
  -- Where base64 and AES-GCM do what they document: a secret that one key ring encrypted with a
  -- 12-byte nonce is decrypted, with the same additional data, by every key ring that still holds
  -- the encrypting key under its version, whichever version is active there.
  pub decrypt-encrypt :
      (ring ring' : CredentialKeyring) (fresh plaintext aad : List ℕ) (sealed : EncryptedSecret)
      → length fresh ≡ 12
      → get_key ring.active_key_id ring'.keys ≡ get_key ring.active_key_id ring.keys
      → encrypt crypto ring fresh plaintext aad ≡ ok sealed
      → decrypt crypto ring' sealed aad ≡ ok plaintext
  unfolding encrypt decrypt
  decrypt-encrypt ring ring' fresh plaintext aad sealed hn hk h =
      let (u, filled, h1) = bind-eq-ok (raise_if (length plaintext == 0) _) _ h in
      let (key, holds, h2) =
        bind-eq-ok
          (of_option (get_key ring.active_key_id ring.keys) KeyringError.key_version_unavailable) _
          h1 in
      let held = hk ∙ of_option-ok (get_key ring.active_key_id ring.keys) _ key holds in
      let text = crypto.aes_encrypt key fresh plaintext aad in
      let made : record {
        ciphertext = crypto.b64encode text;
        nonce = crypto.b64encode fresh;
        key_id = ring.active_key_id;
      }
          ≡ sealed =
        cc in
      let size : (length fresh == 12) ≡ true = ground arith in
      rw
        (
          ← made,
          held,
          doc.b64_back fresh,
          doc.b64_back text,
          size,
          doc.aes_back key fresh plaintext aad,
        )
        refl

-- The version under which a secret is encrypted.
pub encrypt-key_id :
    (crypto : Crypto) (ring : CredentialKeyring) (fresh plaintext aad : List ℕ)
    (sealed : EncryptedSecret)
    → encrypt crypto ring fresh plaintext aad ≡ ok sealed
    → sealed.key_id ≡ ring.active_key_id
unfolding encrypt
encrypt-key_id crypto ring fresh plaintext aad sealed h =
    let (u, filled, h1) = bind-eq-ok (raise_if (length plaintext == 0) _) _ h in
    let (key, holds, h2) =
      bind-eq-ok
        (of_option (get_key ring.active_key_id ring.keys) KeyringError.key_version_unavailable) _
        h1 in
    let text = crypto.aes_encrypt key fresh plaintext aad in
    let made : record {
      ciphertext = crypto.b64encode text;
      nonce = crypto.b64encode fresh;
      key_id = ring.active_key_id;
    }
        ≡ sealed =
      cc in
    ap (λ x. x.key_id) (sym made)

has_not-other : (value : List ℕ) → has 10 value ≡ false → all_of (is_other 10) value ≡ true
has_not-other [] h = refl
has_not-other (c ∷ value) h = let later = has_not-other value in ground arith

good-newline : (value : List ℕ) → bad_value value ≡ false → all_of (is_other 10) value ≡ true
good-newline value h = has_not-other value (ground arith)

values-newline :
    (values : List (List ℕ))
    → any_of bad_value values ≡ false
    → all_of (all_of (is_other 10)) values ≡ true
values-newline [] h = refl
values-newline (value ∷ values) h =
    let now = good-newline value (ground arith) in
    let later = values-newline values (ground arith) in rw (now, later) refl

-- The identifiers of one additional data.
pub record SameOwner (a b c d a' b' c' d' : List ℕ) : Type 0 where
  pub credential_id : a ≡ a'
  pub api_client_id : b ≡ b'
  pub key_id : c ≡ c'
  pub master_key_id : d ≡ d'

-- Two credentials that have the same additional data agree on the credential, the client, the key
-- and the version of the master key.
pub credential_aad_binds :
    (a b c d a' b' c' d' aad : List ℕ)
    → credential_aad a b c d ≡ ok aad
    → credential_aad a' b' c' d' ≡ ok aad
    → SameOwner a b c d a' b' c' d'
unfolding credential_aad
credential_aad_binds a b c d a' b' c' d' aad h h' =
    let values = aad_values a b c d in
    let values' = aad_values a' b' c' d' in
    let (u, good, k) = bind-eq-ok (raise_if (any_of bad_value values) _) _ h in
    let (u', good', k') = bind-eq-ok (raise_if (any_of bad_value values') _) _ h' in
    let texts : join 10 values ≡ join 10 values' = cc in
    let one = split-join 10 _ _ (values-newline values (raise_if-passed _ _ _ good)) in
    let two = split-join 10 _ _ (values-newline values' (raise_if-passed _ _ _ good')) in
    let same : values ≡ values' = sym one ∙ ap (split 10) texts ∙ two in
    record { credential_id = cc; api_client_id = cc; key_id = cc; master_key_id = cc }

-- A key ring that `from_json` accepts holds a key under its active version, so `encrypt` never lacks
-- its key.
pub from_items-HoldsActive :
    (crypto : Crypto) (items : List (List ℕ × List ℕ)) (active : List ℕ) (ring : CredentialKeyring)
    → from_items crypto items active ≡ ok ring
    → HoldsActive ring
unfolding from_items
from_items-HoldsActive crypto items active ring h =
    let (u, form, h1) = bind-eq-ok (raise_if (not (is_version active)) _) _ h in
    let (v, count, h2) = bind-eq-ok (raise_if (not (between 1 16 (length items))) _) _ h1 in
    let (keys, reads, h3) = bind-eq-ok (decode_keys crypto items) _ h2 in
    let (key, holds, h4) =
      bind-eq-ok (of_option (get_key active keys) KeyringError.active_version_unavailable) _ h3 in
    let made : CredentialKeyring = record { keys = keys; active_key_id = active } in
    let same : made ≡ ring = cc in rw (← same) (key, of_option-ok (get_key active keys) _ key holds)
