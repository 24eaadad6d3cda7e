-- ===== src/Signing/Sent.antt =====
-- Headers as a client sends them, read by `parse_external_auth_headers`.
use zangpu.Base.{
  ℕ, ◌≡◌, refl, ap, ◌∙◌, Bool, true, false, not, ◌&&◌, List, [], ◌∷◌, ◌==◌, Option, none, some,
  all_of, length, ok, arith, ltb, between, is_some, is_word, is_digit, is_lower_hex,
}
use zangpu.Signing.Canonical.{is_key_id, is_timestamp, is_nonce, is_request_id, is_sha256}
use zangpu.Signing.Quoted.{all_of_mono}
use zangpu.Signing.Genuine.{same_text_refl}
use zangpu.Signing.Headers.{
  Field, field_name, lower, Values, store, strip_start, strip_end, strip, is_ascii, read_value,
  read_headers, read_field, keep_unless_space, is_space,
}

-- Visible characters of ASCII.
abbrev pub is_visible : ℕ → Bool
is_visible c = between 33 126 c

-- A value that needs no trimming.
pub record Plain (value : List ℕ) : Type 0 where
  pub visible : all_of is_visible value ≡ true
  pub size : between 1 256 (length value) ≡ true

strip_start-visible : (value : List ℕ) → all_of is_visible value ≡ true → strip_start value ≡ value
unfolding strip_start
strip_start-visible [] h = refl
strip_start-visible (c ∷ value) h = let plain : is_space c ≡ false = ground arith in rw plain refl

strip_end-visible : (value : List ℕ) → all_of is_visible value ≡ true → strip_end value ≡ value
unfolding strip_end
strip_end-visible [] h = refl
strip_end-visible (c ∷ []) h = let plain : is_space c ≡ false = ground arith in rw plain refl
strip_end-visible (c ∷ d ∷ value) h =
    let later = strip_end-visible (d ∷ value) (ground arith) in ap (keep_unless_space c) later

strip-Plain : (value : List ℕ) → Plain value → strip value ≡ value
strip-Plain value p =
    ap strip_end (strip_start-visible value p.visible) ∙ strip_end-visible value p.visible

read_value-Plain :
    (f : Field) (value : List ℕ) (values : Values)
    → Plain value
    → values f ≡ none
    → read_value f value values ≡ ok (store f value values)
unfolding read_value
read_value-Plain f value values p hv =
    let ascii = all_of_mono is_visible is_ascii value (λ c k. ground arith) p.visible in
    let trimmed = same_text_refl value in
    let size = p.size in
    let filled : (length value == 0) ≡ false = ground arith in
    let short : ltb 256 (length value) ≡ false = ground arith in
    rw (hv, ascii, strip-Plain value p, trimmed, filled, short) refl

-- One plain header of the six.
pub read_headers-Plain :
    (name value : List ℕ) (headers : List (List ℕ × List ℕ)) (f : Field) (values : Values)
    → ltb 64 (length name) ≡ false
    → field_name (lower name) ≡ some f
    → values f ≡ none
    → Plain value
    → read_headers ((name, value) ∷ headers) values ≡ read_headers headers (store f value values)
unfolding read_headers
read_headers-Plain name value headers f values hn hf hv p =
    let size = p.size in
    let short : ltb 8192 (length value) ≡ false = ground arith in
    rw (hn, short, hf, read_value-Plain f value values p hv) refl

-- A header that is not one of the six and is within the limits.
abbrev pub is_ignored : List ℕ × List ℕ → Bool
is_ignored (name, value) =
    not (ltb 64 (length name))
    && not (ltb 8192 (length value))
    && not (is_some (field_name (lower name)))

read_field-none :
    (o : Option Field) (value : List ℕ) (values : Values)
    → is_some o ≡ false
    → read_field o value values ≡ ok values
read_field-none none value values h = refl
read_field-none (some f) value values h = cc

pub read_headers-ignored :
    (headers : List (List ℕ × List ℕ)) (values : Values)
    → all_of is_ignored headers ≡ true
    → read_headers headers values ≡ ok values
unfolding read_headers
read_headers-ignored [] values h = refl
read_headers-ignored ((name, value) ∷ headers) values h =
    let later = read_headers-ignored headers values (ground arith) in
    let short : ltb 64 (length name) ≡ false = ground arith in
    let short' : ltb 8192 (length value) ≡ false = ground arith in
    let other = read_field-none (field_name (lower name)) value values (ground arith) in
    rw (short, short', other, later) refl

-- The forms of the signed fields.
pub key_id-Plain : (text : List ℕ) → is_key_id text ≡ true → Plain text
unfolding is_key_id
key_id-Plain [] h = cc
key_id-Plain (c ∷ []) h = cc
key_id-Plain (c ∷ d ∷ []) h = cc
key_id-Plain (c ∷ d ∷ e ∷ []) h = cc
key_id-Plain (c ∷ d ∷ e ∷ f ∷ text) h =
    let tail = all_of_mono is_word is_visible text (λ x k. ground arith) in
    record { visible = ground arith; size = ground arith }

pub timestamp-Plain : (text : List ℕ) → is_timestamp text ≡ true → Plain text
unfolding is_timestamp
timestamp-Plain [] h = cc
timestamp-Plain (c ∷ []) h = record { visible = ground arith; size = ground arith }
timestamp-Plain (c ∷ d ∷ text) h =
    let tail = all_of_mono is_digit is_visible (d ∷ text) (λ x k. ground arith) in
    record { visible = ground arith; size = ground arith }

pub nonce-Plain : (text : List ℕ) → is_nonce text ≡ true → Plain text
nonce-Plain text h =
    let tail = all_of_mono is_word is_visible text (λ x k. ground arith) in
    record { visible = ground arith; size = ground arith }

pub request_id-Plain : (text : List ℕ) → is_request_id text ≡ true → Plain text
request_id-Plain text h =
    let tail = all_of_mono is_word is_visible text (λ x k. ground arith) in
    record { visible = ground arith; size = ground arith }

pub sha256-Plain : (text : List ℕ) → is_sha256 text ≡ true → Plain text
sha256-Plain text h =
    let tail = all_of_mono is_lower_hex is_visible text (λ x k. ground arith) in
    record { visible = ground arith; size = ground arith }
