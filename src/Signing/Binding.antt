-- ===== src/Signing/Binding.antt =====
-- What a canonical request says of the request: `create_canonical_request` of
-- backend/app/security/canonical.py.
use zangpu.Base.{
  ℕ, ◌≡◌, refl, sym, ap, ◌∙◌, Bool, true, false, not, List, [], ◌∷◌, ok, bind-eq-ok, raise_if,
  all_of, arith, is_word, is_digit, is_lower_hex,
}
use zangpu.Signing.Split.{split, join, split-join}
use zangpu.Signing.Canonical.{
  Request, create_canonical_request, canonical_fields, canonicalize_path, canonicalize_query,
  validate_signing_fields, is_key_id, is_timestamp, is_nonce, is_request_id, is_method, is_sha256,
  upper, is_letter,
}
use zangpu.Signing.Quoted.{
  is_other, newline-HasQuoted, all_of_mono, canonicalize_path-quoted, canonicalize_query-quoted,
}

-- What an accepted request satisfies.
pub record Accepted (r : Request) (text : List ℕ) : Type 0 where
  pub path : List ℕ
  pub query : List ℕ
  pub method_good : is_method r.method ≡ true
  pub hash_good : is_sha256 r.body_hash ≡ true
  pub key_good : is_key_id r.key_id ≡ true
  pub timestamp_good : is_timestamp r.timestamp ≡ true
  pub nonce_good : is_nonce r.nonce ≡ true
  pub id_good : is_request_id r.request_id ≡ true
  pub path_read : canonicalize_path r.raw_path ≡ ok path
  pub query_read : canonicalize_query r.raw_query ≡ ok query
  pub shown : join 10 (canonical_fields r path query) ≡ text

pub raise_if-ok {ℓ} :
    {E : Type ℓ} (b : Bool) (e : E) (u : Unit {0}) → raise_if (not b) e ≡ ok u → b ≡ true
raise_if-ok true e u h = refl
raise_if-ok false e u h = cc

pub create_canonical_request-Accepted :
    (r : Request) (text : List ℕ) → create_canonical_request r ≡ ok text → Accepted r text
unfolding create_canonical_request validate_signing_fields
create_canonical_request-Accepted r text h =
    let (u1, m, h1) = bind-eq-ok (raise_if (not (is_method r.method)) _) _ h in
    let (u2, b, h2) = bind-eq-ok (raise_if (not (is_sha256 r.body_hash)) _) _ h1 in
    let (u3, fields, h3) =
      bind-eq-ok (validate_signing_fields r.key_id r.timestamp r.nonce r.request_id) _ h2 in
    let (path, p, h4) = bind-eq-ok (canonicalize_path r.raw_path) _ h3 in
    let (query, q, h5) = bind-eq-ok (canonicalize_query r.raw_query) _ h4 in
    let (u4, k, f1) = bind-eq-ok (raise_if (not (is_key_id r.key_id)) _) _ fields in
    let (u5, t, f2) = bind-eq-ok (raise_if (not (is_timestamp r.timestamp)) _) _ f1 in
    let (u6, n, f3) = bind-eq-ok (raise_if (not (is_nonce r.nonce)) _) _ f2 in
    record {
      path = path;
      query = query;
      method_good = raise_if-ok _ _ _ m;
      hash_good = raise_if-ok _ _ _ b;
      key_good = raise_if-ok _ _ _ k;
      timestamp_good = raise_if-ok _ _ _ t;
      nonce_good = raise_if-ok _ _ _ n;
      id_good = raise_if-ok _ _ _ f3;
      path_read = p;
      query_read = q;
      shown = cc;
    }

upper-newline :
    (text : List ℕ) → all_of is_letter text ≡ true → all_of (is_other 10) (upper text) ≡ true
unfolding upper
upper-newline [] h = refl
upper-newline (c ∷ text) h = let later = upper-newline text in ground arith

key-newline : (text : List ℕ) → is_key_id text ≡ true → all_of (is_other 10) text ≡ true
unfolding is_key_id
key-newline [] h = cc
key-newline (c ∷ []) h = cc
key-newline (c ∷ d ∷ []) h = cc
key-newline (c ∷ d ∷ e ∷ []) h = cc
key-newline (c ∷ d ∷ e ∷ f ∷ text) h =
    let tail = all_of_mono is_word (is_other 10) text (λ x k. ground arith) in ground arith

timestamp-newline : (text : List ℕ) → is_timestamp text ≡ true → all_of (is_other 10) text ≡ true
unfolding is_timestamp
timestamp-newline [] h = cc
timestamp-newline (c ∷ []) h = ground arith
timestamp-newline (c ∷ d ∷ text) h =
    let tail = all_of_mono is_digit (is_other 10) (d ∷ text) (λ x k. ground arith) in ground arith

-- The texts of a canonical request are lines.
canonical_fields-newline :
    (r : Request) (text : List ℕ) (a : Accepted r text)
    → all_of (all_of (is_other 10)) (canonical_fields r a.path a.query) ≡ true
canonical_fields-newline r text a =
    let m = upper-newline r.method (ground (arith, a.method_good)) in
    let p = canonicalize_path-quoted _ newline-HasQuoted r.raw_path a.path refl a.path_read in
    let q =
      canonicalize_query-quoted _ newline-HasQuoted r.raw_query a.query refl refl a.query_read in
    let b =
      all_of_mono is_lower_hex (is_other 10) r.body_hash (λ x k. ground arith)
        (ground (arith, a.hash_good)) in
    let k = key-newline r.key_id a.key_good in
    let t = timestamp-newline r.timestamp a.timestamp_good in
    let n =
      all_of_mono is_word (is_other 10) r.nonce (λ x k. ground arith)
        (ground (arith, a.nonce_good)) in
    let i =
      all_of_mono is_word (is_other 10) r.request_id (λ x k. ground arith)
        (ground (arith, a.id_good)) in
    rw (m, p, q, b, k, t, n, i) refl

-- What two requests share when their signatures are over the same text.
pub record SameRequest (r r' : Request) : Type 0 where
  pub method : upper r.method ≡ upper r'.method
  pub path : canonicalize_path r.raw_path ≡ canonicalize_path r'.raw_path
  pub query : canonicalize_query r.raw_query ≡ canonicalize_query r'.raw_query
  pub body_hash : r.body_hash ≡ r'.body_hash
  pub key_id : r.key_id ≡ r'.key_id
  pub timestamp : r.timestamp ≡ r'.timestamp
  pub nonce : r.nonce ≡ r'.nonce
  pub request_id : r.request_id ≡ r'.request_id

-- Two requests that have the same canonical text have the same method but for its case, the same
-- canonical path and query, body hash, key, timestamp, nonce and request id.
pub canonical_request_binds :
    (r r' : Request) (text : List ℕ)
    → create_canonical_request r ≡ ok text
    → create_canonical_request r' ≡ ok text
    → SameRequest r r'
canonical_request_binds r r' text h h' =
    let a = create_canonical_request-Accepted r text h in
    let a' = create_canonical_request-Accepted r' text h' in
    let one = split-join 10 _ _ (canonical_fields-newline r text a) in
    let two = split-join 10 _ _ (canonical_fields-newline r' text a') in
    let same : canonical_fields r a.path a.query ≡ canonical_fields r' a'.path a'.query =
      sym one ∙ ap (split 10) (a.shown ∙ sym a'.shown) ∙ two in
    let read = a.path_read in
    let read' = a'.path_read in
    let asked = a.query_read in
    let asked' = a'.query_read in
    record {
      method = cc;
      path = cc;
      query = cc;
      body_hash = cc;
      key_id = cc;
      timestamp = cc;
      nonce = cc;
      request_id = cc;
    }
