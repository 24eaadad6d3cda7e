-- ===== src/Signing/Genuine.antt =====
-- What `authenticate` of backend/app/security/dependencies.py has checked when it returns a caller.
use zangpu.Base.{
  ℕ, ◌≡◌, refl, ap, ◌∙◌, ◌≤◌, ◌<◌, Bool, true, false, not, List, [], ◌∷◌, ◌==◌, Option, none, some,
  length, ltb, Result, ok, err, bind-eq-ok, ◌>>=◌, raise_if, arith, if◌then◌else◌,
}
use zangpu.Signing.Canonical.{
  same_text, create_canonical_request, verify_signature, sign_canonical_request, compare_with,
  is_sha256, CanonicalizationError,
}
use zangpu.Signing.Binding.{raise_if-ok}
use zangpu.Signing.Paths.{raise_if-passed}
use zangpu.Signing.Crypto.{Crypto}
use zangpu.Signing.Keyring.{CredentialKeyring}
use zangpu.Signing.Headers.{AuthError, ExternalAuthHeaders, parse_external_auth_headers, guarded}
use zangpu.Signing.Authentication.{
  ResolvedCallerCredential, AuthenticatedCaller, Call, read_int, distance, active, is_expired,
  is_usable, usable, signed_request, reveal, check_signature, caller, authenticate_headers,
  authenticate,
}

pub same_text-eq : (a b : List ℕ) → same_text a b ≡ true → a ≡ b
same_text-eq [] [] h = refl
same_text-eq [] (d ∷ ds) h = cc
same_text-eq (c ∷ cs) [] h = cc
same_text-eq (c ∷ cs) (d ∷ ds) h =
    let first : c ≡ d = ground arith in
    let later = same_text-eq cs ds (ground arith) in rw (first, later) refl

pub same_text_refl : (a : List ℕ) → same_text a a ≡ true
same_text_refl [] = refl
same_text_refl (c ∷ cs) = let later = same_text_refl cs in ground arith

guarded-ok {ℓ κ} :
    {E : Type ℓ} {A : Type κ} (failure : AuthError) (m : Result E A) (a : A)
    → guarded failure m ≡ ok a
    → m ≡ ok a
guarded-ok failure (ok b) a h = let e : b ≡ a = cc in ap ok e
guarded-ok failure (err x) a h = cc

is_expired-lt :
    (expires_at : Option ℕ) (now t : ℕ)
    → is_expired expires_at now ≡ false
    → expires_at ≡ some t
    → now < t
is_expired-lt none now t h e = cc
is_expired-lt (some s) now t h e = let same : s ≡ t = cc in rw (← same) (ground arith)

usable-ok :
    (found : Option ResolvedCallerCredential) (key_id : List ℕ) (now : ℕ)
    (resolved : ResolvedCallerCredential)
    → usable found key_id now ≡ ok resolved
    → (found ≡ some resolved) × (is_usable resolved key_id now ≡ true)
usable-ok none key_id now resolved h = cc
usable-ok (some one) key_id now resolved h =
    let (u, good, h1) = bind-eq-ok (raise_if (not (is_usable one key_id now)) _) _ h in
    let same : one ≡ resolved = cc in rw (← same) (refl, raise_if-ok _ _ _ good)

verified-if :
    (b : Bool) (m : Result CanonicalizationError Bool) (v : Bool)
    → (if b then m else ok false) ≡ ok v
    → v ≡ true
    → m ≡ ok v
verified-if true m v h t = h
verified-if false m v h t = cc

verified-signature :
    (hmac_sha256 : List ℕ → List ℕ → List ℕ) (secret text presented : List ℕ) (verified : Bool)
    → verify_signature hmac_sha256 secret text presented ≡ ok verified
    → verified ≡ true
    → hmac_sha256 secret text ≡ presented
unfolding verify_signature sign_canonical_request
verified-signature hmac_sha256 secret text presented verified h t =
    let signing = sign_canonical_request hmac_sha256 secret text in
    let compared =
      verified-if (is_sha256 presented) (signing >>= compare_with hmac_sha256 presented) verified h
        t in
    let (mac, signs, h1) = bind-eq-ok signing _ compared in
    let (u, filled, h2) = bind-eq-ok (raise_if (length secret == 0) _) _ signs in
    let same : same_text mac presented ≡ true = cc in
    let made : hmac_sha256 secret text ≡ mac = cc in made ∙ same_text-eq mac presented same

module _ (crypto : Crypto) (keyring : CredentialKeyring) where
  -- The checks behind an accepted call.
  pub record Genuine (resolver : List ℕ → Option ResolvedCallerCredential) (tolerance : ℕ)
      (call : Call) (raw_headers : List (List ℕ × List ℕ)) (now : ℕ) (who : AuthenticatedCaller)
      : Type 0 where
    pub headers : ExternalAuthHeaders
    pub resolved : ResolvedCallerCredential
    pub canonical : List ℕ
    pub secret : List ℕ
    pub parsed : parse_external_auth_headers raw_headers ≡ ok headers
    pub found : resolver headers.key_id ≡ some resolved
    pub own_key : resolved.key_id ≡ headers.key_id
    pub credential_active : resolved.credential_status ≡ active
    pub unexpired : (t : ℕ) → resolved.credential_expires_at ≡ some t → now < t
    pub recent : distance now (read_int headers.timestamp) ≤ tolerance
    pub enabled : resolved.client_status ≡ active
    pub covered : create_canonical_request (signed_request crypto call headers) ≡ ok canonical
    pub revealed : reveal crypto keyring resolved ≡ ok secret
    pub signed : crypto.hmac_sha256 secret canonical ≡ headers.signature
    pub identity : caller crypto resolved headers ≡ who

  -- When `authenticate` returns a caller, the headers are well formed, the credential that the
  -- resolver has for their key is active and not expired, the timestamp lies within the tolerance
  -- of the clock, the client is active, the presented signature is the HMAC of the call's canonical
  -- text under the credential's decrypted secret, and the caller is that credential's.
  pub authenticate_checks :
      (resolver : List ℕ → Option ResolvedCallerCredential) (tolerance : ℕ) (call : Call)
      (raw_headers : List (List ℕ × List ℕ)) (now : ℕ) (who : AuthenticatedCaller)
      → authenticate crypto keyring resolver tolerance call raw_headers now ≡ ok who
      → Genuine resolver tolerance call raw_headers now who
  unfolding authenticate authenticate_headers check_signature
  authenticate_checks resolver tolerance call raw_headers now who h =
      let (headers, parsed, h1) = bind-eq-ok (parse_external_auth_headers raw_headers) _ h in
      let (resolved, usage, h2) =
        bind-eq-ok (usable (resolver headers.key_id) headers.key_id now) _ h1 in
      let (u1, recent, h3) =
        bind-eq-ok (raise_if (ltb tolerance (distance now (read_int headers.timestamp))) _) _ h2 in
      let (u2, checked, h4) =
        bind-eq-ok (check_signature crypto keyring call headers resolved) _ h3 in
      let (u3, enabled, h5) =
        bind-eq-ok (raise_if (not (same_text resolved.client_status active)) _) _ h4 in
      let (found, is_valid) = usable-ok _ headers.key_id now resolved usage in
      let (canonical, c1, k1) =
        bind-eq-ok
          (guarded AuthError.credential_protection
            (create_canonical_request (signed_request crypto call headers)))
          _ checked in
      let (secret, c2, k2) = bind-eq-ok (reveal crypto keyring resolved) _ k1 in
      let (verified, c3, k3) =
        bind-eq-ok
          (guarded AuthError.credential_protection
            (verify_signature crypto.hmac_sha256 secret canonical headers.signature))
          _ k2 in
      let within = raise_if-passed _ _ _ recent in
      record {
        headers = headers;
        resolved = resolved;
        canonical = canonical;
        secret = secret;
        parsed = parsed;
        found = found;
        own_key = same_text-eq _ _ (ground arith);
        credential_active = same_text-eq _ _ (ground arith);
        unexpired = λ t e. is_expired-lt resolved.credential_expires_at now t (ground arith) e;
        recent = ground arith;
        enabled = same_text-eq _ _ (raise_if-ok _ _ _ enabled);
        covered = guarded-ok _ _ _ c1;
        revealed = c2;
        signed =
            verified-signature _ secret canonical headers.signature verified (guarded-ok _ _ _ c3)
              (raise_if-ok _ _ _ k3);
        identity = cc;
      }
