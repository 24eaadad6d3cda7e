-- ===== src/Signing/Crypto.antt =====
-- The primitives that the code takes from libraries, and what it relies on of them.
use zangpu.Base.{ℕ, ◌≡◌, true, List, Option, some}
use zangpu.Signing.Canonical.{is_sha256}

pub record Crypto : Type 0 where
  -- `sha256(body).hexdigest()`
  pub sha256_hex : List ℕ → List ℕ
  -- `hmac.new(key, message, "sha256").hexdigest()`
  pub hmac_sha256 : List ℕ → List ℕ → List ℕ
  -- `base64.b64encode` and `base64.b64decode(text, validate=True)`; none is `binascii.Error`.
  pub b64encode : List ℕ → List ℕ
  pub b64decode : List ℕ → Option (List ℕ)
  -- `AESGCM(key).encrypt(nonce, plaintext, aad)`, and `decrypt`; none is `InvalidTag`.
  pub aes_encrypt : List ℕ → List ℕ → List ℕ → List ℕ → List ℕ
  pub aes_decrypt : List ℕ → List ℕ → List ℕ → List ℕ → Option (List ℕ)

-- What the primitives document: a digest is 64 lower-case hexadecimal digits, base64 reads back
-- what it wrote, and AES-GCM decrypts what it encrypted under the same key, nonce and data.
pub record Documented (crypto : Crypto) : Type 0 where
  pub sha256_form : (body : List ℕ) → is_sha256 (crypto.sha256_hex body) ≡ true
  pub hmac_form : (key message : List ℕ) → is_sha256 (crypto.hmac_sha256 key message) ≡ true
  pub b64_back : (bytes : List ℕ) → crypto.b64decode (crypto.b64encode bytes) ≡ some bytes
  pub aes_back :
      (key nonce plaintext aad : List ℕ)
      → crypto.aes_decrypt key nonce (crypto.aes_encrypt key nonce plaintext aad) aad
        ≡ some plaintext
