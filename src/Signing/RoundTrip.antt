-- ===== src/Signing/RoundTrip.antt =====
-- A request that the SDK signed, authenticated by the server: `ZangpuSigner.sign` with
-- `ExternalAuthenticator.authenticate`.
use zangpu.Base.{
  ℕ, ◌≡◌, refl, ◌∙◌, ◌≤◌, true, false, not, ◌||◌, List, ◌++◌, ◌==◌, Option, some, all_of, length,
  ok, bind-eq-ok, raise_if, arith, ltb,
}
use zangpu.Signing.Canonical.{
  create_canonical_request, verify_signature, sign_canonical_request, signature_version,
  validate_signing_fields, is_sha256, is_key_id,
}
use zangpu.Signing.Binding.{Accepted, create_canonical_request-Accepted}
use zangpu.Signing.Paths.{raise_if-passed}
use zangpu.Signing.Crypto.{Crypto, Documented}
use zangpu.Signing.Keyring.{CredentialKeyring}
use zangpu.Signing.Genuine.{same_text_refl}
use zangpu.Signing.Headers.{
  Field, field_name, lower, ExternalAuthHeaders, parse_external_auth_headers, complete,
  read_headers, no_values, store,
}
use zangpu.Signing.Authentication.{
  ResolvedCallerCredential, Call, distance, active, is_usable, reveal, check_signature,
  authenticate_headers, authenticate,
}
use zangpu.Signing.Client.{
  ZangpuSigner, new_signer, SignedHeaders, as_headers, show_int, client_request, sign,
  character_count,
}
use zangpu.Signing.Decimal.{read_int-show_int}
use zangpu.Signing.Sent.{
  Plain, is_ignored, read_headers-Plain, read_headers-ignored, key_id-Plain, timestamp-Plain,
  nonce-Plain, request_id-Plain, sha256-Plain,
}

-- The headers that the server reads.
abbrev pub sent : SignedHeaders → ExternalAuthHeaders
sent s = record {
  key_id = s.key_id;
  timestamp = s.timestamp;
  nonce = s.nonce;
  request_id = s.request_id;
  version = signature_version;
  signature = s.signature;
}

parse-as_headers :
    (s : SignedHeaders) (others : List (List ℕ × List ℕ))
    → validate_signing_fields s.key_id s.timestamp s.nonce s.request_id ≡ ok tt
    → Plain s.key_id
    → Plain s.timestamp
    → Plain s.nonce
    → Plain s.request_id
    → is_sha256 s.signature ≡ true
    → length others ≤ 58
    → all_of is_ignored others ≡ true
    → parse_external_auth_headers (as_headers s ++ others) ≡ ok (sent s)
unfolding parse_external_auth_headers complete as_headers field_name lower
parse-as_headers s others valid k t n i m few ignored =
    let v0 = no_values in
    let v1 = store Field.key_field s.key_id v0 in
    let v2 = store Field.timestamp_field s.timestamp v1 in
    let v3 = store Field.nonce_field s.nonce v2 in
    let v4 = store Field.request_id_field s.request_id v3 in
    let v5 = store Field.version_field signature_version v4 in
    let v6 = store Field.signature_field s.signature v5 in
    let one : Plain signature_version = record { visible = refl; size = refl } in
    let count : ltb 64 (length (as_headers s ++ others)) ≡ false = ground arith in
    let reads : read_headers (as_headers s ++ others) v0 ≡ ok v6 =
      read_headers-Plain _ _ _ Field.key_field v0 refl refl refl k
      ∙ read_headers-Plain _ _ _ Field.timestamp_field v1 refl refl refl t
      ∙ read_headers-Plain _ _ _ Field.nonce_field v2 refl refl refl n
      ∙ read_headers-Plain _ _ _ Field.request_id_field v3 refl refl refl i
      ∙ read_headers-Plain _ _ _ Field.version_field v4 refl refl refl one
      ∙ read_headers-Plain _ _ _ Field.signature_field v5 refl refl refl (sha256-Plain _ m)
      ∙ read_headers-ignored others v6 ignored in
    rw (count, reads, valid, m) refl

Accepted-fields :
    (crypto : Crypto) (signer : ZangpuSigner) (call : Call) (time : ℕ) (fresh id text : List ℕ)
    → Accepted (client_request crypto signer call time fresh id) text
    → validate_signing_fields signer.key_id (show_int time) fresh id ≡ ok tt
unfolding validate_signing_fields
Accepted-fields crypto signer call time fresh id text a =
    let k = a.key_good in
    let t = a.timestamp_good in let n = a.nonce_good in let i = a.id_good in rw (k, t, n, i) refl

verify-sign :
    (hmac_sha256 : List ℕ → List ℕ → List ℕ) (secret text : List ℕ)
    → is_sha256 (hmac_sha256 secret text) ≡ true
    → (length secret == 0) ≡ false
    → verify_signature hmac_sha256 secret text (hmac_sha256 secret text) ≡ ok true
unfolding verify_signature sign_canonical_request
verify-sign hmac_sha256 secret text form filled =
    rw (form, filled, same_text_refl (hmac_sha256 secret text)) refl

new_signer-secret :
    (key_id secret : List ℕ) (signer : ZangpuSigner)
    → new_signer key_id secret ≡ ok signer
    → (length signer.secret == 0) ≡ false
unfolding new_signer
new_signer-secret key_id secret signer h =
    let (u, k, h1) = bind-eq-ok (raise_if (not (is_key_id key_id)) _) _ h in
    let (u', filled, h2) =
      bind-eq-ok (raise_if (length secret == 0 || ltb 4096 (character_count secret)) _) _ h1 in
    let same : secret ≡ signer.secret = cc in
    rw (← same) (ground (arith, raise_if-passed _ _ _ filled))

module _ (crypto : Crypto) (doc : Documented crypto) (keyring : CredentialKeyring) where
  -- What the server must know of the signer at the time of the call.
  pub record Registered (resolver : List ℕ → Option ResolvedCallerCredential) (tolerance : ℕ)
      (signer : ZangpuSigner) (resolved : ResolvedCallerCredential) (time now : ℕ) : Type 0 where
    pub found : resolver signer.key_id ≡ some resolved
    pub is_valid : is_usable resolved signer.key_id now ≡ true
    pub enabled : resolved.client_status ≡ active
    pub revealed : reveal crypto keyring resolved ≡ ok signer.secret
    pub recent : distance now time ≤ tolerance

  check-sent :
      (signer : ZangpuSigner) (call : Call) (time : ℕ) (fresh id text : List ℕ)
      (resolved : ResolvedCallerCredential)
      → (length signer.secret == 0) ≡ false
      → reveal crypto keyring resolved ≡ ok signer.secret
      → create_canonical_request (client_request crypto signer call time fresh id) ≡ ok text
      → check_signature crypto keyring call
          (record {
            key_id = signer.key_id;
            timestamp = show_int time;
            nonce = fresh;
            request_id = id;
            version = signature_version;
            signature = crypto.hmac_sha256 signer.secret text;
          })
          resolved
        ≡ ok tt
  unfolding check_signature
  check-sent signer call time fresh id text resolved filled revealed made =
      rw
        (
          made,
          revealed,
          verify-sign crypto.hmac_sha256 signer.secret text (doc.hmac_form _ _) filled,
        )
        refl

  -- Where digests have their documented form: a request that the SDK's signer signed is
  -- authenticated by the server, with at most 58 further headers that are within the limits and are
  -- not signing headers, when the resolver has for the signer's key an active, unexpired credential
  -- of an active client, which reveals the signer's secret, and the signed time is within the
  -- tolerance; the caller that the server sees has the credential's ids and the nonce, the request
  -- id and the time that the client signed.
  pub sign-authenticate :
      (resolver : List ℕ → Option ResolvedCallerCredential) (tolerance : ℕ) (key_id secret : List ℕ)
      (signer : ZangpuSigner) (resolved : ResolvedCallerCredential) (call : Call) (time now : ℕ)
      (fresh id : List ℕ) (signed : SignedHeaders) (others : List (List ℕ × List ℕ))
      → new_signer key_id secret ≡ ok signer
      → Registered resolver tolerance signer resolved time now
      → sign crypto signer call time fresh id ≡ ok signed
      → length others ≤ 58
      → all_of is_ignored others ≡ true
      → authenticate crypto keyring resolver tolerance call (as_headers signed ++ others) now
        ≡ ok (record {
          api_client_id = resolved.api_client_id;
          credential_id = resolved.credential_id;
          key_id = resolved.key_id;
          request_id = id;
          nonce = fresh;
          timestamp = time;
        })
  unfolding sign authenticate authenticate_headers
  sign-authenticate resolver tolerance key_id secret signer resolved call time now fresh id signed
        others hs known h few ignored =
      let (text, made, h1) =
        bind-eq-ok (create_canonical_request (client_request crypto signer call time fresh id)) _
          h in
      let a = create_canonical_request-Accepted _ text made in
      let mac = crypto.hmac_sha256 signer.secret text in
      let headers : SignedHeaders = record {
        key_id = signer.key_id;
        timestamp = show_int time;
        nonce = fresh;
        request_id = id;
        signature = mac;
      } in
      let same : headers ≡ signed = cc in
      let parsed =
        parse-as_headers headers others (Accepted-fields crypto signer call time fresh id text a)
          (key_id-Plain _ a.key_good) (timestamp-Plain _ a.timestamp_good)
          (nonce-Plain _ a.nonce_good) (request_id-Plain _ a.id_good) (doc.hmac_form _ _) few
          ignored in
      let checked =
        check-sent signer call time fresh id text resolved
          (new_signer-secret key_id secret signer hs) known.revealed made in
      let limit = known.recent in
      let recent : ltb tolerance (distance now time) ≡ false = ground arith in
      rw
        (
          ← same,
          parsed,
          known.found,
          known.is_valid,
          read_int-show_int time,
          recent,
          checked,
          known.enabled,
        )
        refl
