-- ===== src/Signing/Trial.antt =====
-- Stand-ins for the primitives, for running the definitions.
use zangpu.Base.{ℕ, refl, List, some, codes}
use zangpu.Signing.Crypto.{Crypto, Documented}

abbrev pub digest : List ℕ
digest = codes "0123456789abcdef0123456789abcdef0123456789abcdef0123456789abcdef"

-- Stand-ins: constant digests, and no transformation of bytes.
abbrev pub plain_crypto : Crypto
plain_crypto = record {
  sha256_hex = λ body. digest;
  hmac_sha256 = λ key message. digest;
  b64encode = λ bytes. bytes;
  b64decode = λ text. some text;
  aes_encrypt = λ key fresh plaintext aad. plaintext;
  aes_decrypt = λ key fresh ciphertext aad. some ciphertext;
}

pub plain_crypto-Documented : Documented plain_crypto
plain_crypto-Documented = record {
  sha256_form = λ body. refl;
  hmac_form = λ key message. refl;
  b64_back = λ bytes. refl;
  aes_back = λ key fresh plaintext aad. refl;
}
