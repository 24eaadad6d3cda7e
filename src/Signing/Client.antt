-- ===== src/Signing/Client.antt =====
-- The client's side: `ZangpuSigner` and `SignedHeaders` of sdk/python/src/zangpu_sdk/signing.py. The
-- client's functions for canonical requests have the server's text, so Signing/Canonical has both.
use zangpu.Base.{
  ℕ, zero, suc, ◌+◌, ◌/◌, ◌%◌, not, ◌||◌, List, [], ◌∷◌, ◌++◌, ◌==◌, codes, length, ltb, keep,
  between, Result, ok, ◌>>=◌, ◌>>◌, raise_if, if◌then◌else◌,
}
use zangpu.Signing.Canonical.{
  CanonicalizationError, Request, create_canonical_request, is_key_id, signature_version,
}
use zangpu.Signing.Crypto.{Crypto}
use zangpu.Signing.Authentication.{Call}

pub data ZangpuSigningError : Type 0 where
  bad_key_id bad_material bad_request : ZangpuSigningError

pub record ZangpuSigner : Type 0 where
  pub key_id : List ℕ
  pub secret : List ℕ

-- `len(text)` of a text that is given by its UTF-8 bytes: the bytes that begin a character.
abbrev pub character_count : List ℕ → ℕ
character_count text = length (keep (λ c. not (between 0x80 0xBF c)) text)

-- `ZangpuSigner.__init__`
unfoldable pub new_signer : List ℕ → List ℕ → Result ZangpuSigningError ZangpuSigner
new_signer key_id secret = do
  raise_if (not (is_key_id key_id)) ZangpuSigningError.bad_key_id
  raise_if (length secret == 0 || ltb 4096 (character_count secret)) ZangpuSigningError.bad_material
  ok (record { key_id = key_id; secret = secret })

pub record SignedHeaders : Type 0 where
  pub key_id : List ℕ
  pub timestamp : List ℕ
  pub nonce : List ℕ
  pub request_id : List ℕ
  pub signature : List ℕ

-- `SignedHeaders.as_headers`
unfoldable pub as_headers : SignedHeaders → List (List ℕ × List ℕ)
as_headers s =
    (codes "x-zangpu-key", s.key_id)
    ∷ (codes "x-zangpu-timestamp", s.timestamp)
    ∷ (codes "x-zangpu-nonce", s.nonce)
    ∷ (codes "x-zangpu-request-id", s.request_id)
    ∷ (codes "x-zangpu-signature-version", signature_version)
    ∷ (codes "x-zangpu-signature", s.signature)
    ∷ []

-- `str(n)`: at most `fuel` more digits, and `n` has at most `n` digits before its last one.
unfoldable pub show_digits : ℕ → ℕ → List ℕ
show_digits zero n = (n % 10 + b'0') ∷ []
show_digits (suc fuel) n =
    let shorter = show_digits fuel (n / 10) in
    if ltb n 10 then (n + b'0') ∷ [] else shorter ++ ((n % 10 + b'0') ∷ [])

abbrev pub show_int : ℕ → List ℕ
show_int n = show_digits n n

module _ (crypto : Crypto) (signer : ZangpuSigner) where
  abbrev pub client_request : Call → ℕ → List ℕ → List ℕ → Request
  client_request call time fresh id = record {
    method = call.method;
    raw_path = call.raw_path;
    raw_query = call.raw_query;
    body_hash = crypto.sha256_hex call.body;
    key_id = signer.key_id;
    timestamp = show_int time;
    nonce = fresh;
    request_id = id;
  }

  -- `sign`, with the time, the nonce and the request id resolved from the arguments or the factories.
  unfoldable pub sign : Call → ℕ → List ℕ → List ℕ → Result CanonicalizationError SignedHeaders
  sign call time fresh id = do
    canonical ← create_canonical_request (client_request call time fresh id)
    ok (record {
      key_id = signer.key_id;
      timestamp = show_int time;
      nonce = fresh;
      request_id = id;
      signature = crypto.hmac_sha256 signer.secret canonical;
    })
