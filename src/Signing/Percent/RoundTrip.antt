-- ===== src/Signing/Percent/RoundTrip.antt =====
-- `unquote_to_bytes` after `quote`.
use zangpu.Base.{
  ℕ, zero, suc, ◌≡◌, refl, ap, ◌∙◌, ◌<◌, ◌/◌, ◌%◌, Bool, true, false, List, [], ◌∷◌, ◌==◌, all_of,
  Bool-cases, inl, inr, arith, ltb,
}
use zangpu.Signing.Percent.{
  is_hex, hex_value, has_bad_escape, unquote_to_bytes, is_unreserved, hex_digit, quoted_byte, quote,
  is_utf8, is_utf8_after, following, next_low, next_high,
}

abbrev pub is_byte : ℕ → Bool
is_byte c = ltb c 256

-- Bytes that decode as UTF-8 are bytes.
is_utf8_after-is_byte :
    (n low high : ℕ) (text : List ℕ)
    → high < 256
    → is_utf8_after n low high text ≡ true
    → all_of is_byte text ≡ true
unfolding is_utf8_after
is_utf8_after-is_byte n low high [] k h = refl
is_utf8_after-is_byte zero low high (c ∷ text) k h =
    let bound : next_high c < 256 = ground arith in
    let later =
      is_utf8_after-is_byte (following c) (next_low c) (next_high c) text bound (ground arith) in
    let now : is_byte c ≡ true = ground arith in rw (now, later) refl
is_utf8_after-is_byte (suc n) low high (c ∷ text) k h =
    let later = is_utf8_after-is_byte n 0x80 0xBF text (omega arith) (ground arith) in
    let now : is_byte c ≡ true = ground arith in rw (now, later) refl

pub is_utf8-is_byte : (text : List ℕ) → is_utf8 text ≡ true → all_of is_byte text ≡ true
is_utf8-is_byte text h = is_utf8_after-is_byte 0 0x80 0xBF text (omega arith) h

hex_digit-is_hex : (n : ℕ) → n < 16 → is_hex (hex_digit n) ≡ true
hex_digit-is_hex n h = ground arith

hex_value-hex_digit : (n : ℕ) → n < 16 → hex_value (hex_digit n) ≡ n
hex_value-hex_digit n h = ground arith

unquote-plain :
    (c : ℕ) (text : List ℕ)
    → (c == b'%') ≡ false
    → unquote_to_bytes (c ∷ text) ≡ c ∷ unquote_to_bytes text
unfolding unquote_to_bytes
unquote-plain c [] h = refl
unquote-plain c (d ∷ []) h = refl
unquote-plain c (d ∷ e ∷ text) h = rw h refl

bad_escape-plain :
    (c : ℕ) (text : List ℕ) → (c == b'%') ≡ false → has_bad_escape (c ∷ text) ≡ has_bad_escape text
unfolding has_bad_escape
bad_escape-plain c [] h = rw h refl
bad_escape-plain c (d ∷ []) h = rw h refl
bad_escape-plain c (d ∷ e ∷ text) h = rw h refl

unreserved-percent : (c : ℕ) → is_unreserved c ≡ true → (c == b'%') ≡ false
unreserved-percent c h = ground arith

hex-percent : (c : ℕ) → is_hex c ≡ true → (c == b'%') ≡ false
hex-percent c h = ground arith

bad_escape-digit :
    (c : ℕ) (text : List ℕ) → is_hex c ≡ true → has_bad_escape (c ∷ text) ≡ has_bad_escape text
bad_escape-digit c text h = bad_escape-plain c text (hex-percent c h)

pub unquote-quote :
    (text : List ℕ) → all_of is_byte text ≡ true → unquote_to_bytes (quote text) ≡ text
unfolding unquote_to_bytes quote quoted_byte
unquote-quote [] h = refl
unquote-quote (c ∷ text) h =
    let later = unquote-quote text (ground arith) in
    elim (Bool-cases (is_unreserved c)) [
      | inl plain ↦
          rw plain
            (unquote-plain c (quote text) (unreserved-percent c plain) ∙ ap (λ t. c ∷ t) later)
      | inr escaped ↦
          let high : c / 16 < 16 = ground arith in
          let low : c % 16 < 16 = ground arith in
          rw
            (
              escaped,
              hex_digit-is_hex _ high,
              hex_digit-is_hex _ low,
              hex_value-hex_digit _ high,
              hex_value-hex_digit _ low,
              later,
            )
            (ap (λ b. b ∷ text) (omega arith))
    ]

pub bad_escape-quote :
    (text : List ℕ) → all_of is_byte text ≡ true → has_bad_escape (quote text) ≡ false
unfolding has_bad_escape quote quoted_byte
bad_escape-quote [] h = refl
bad_escape-quote (c ∷ text) h =
    let later = bad_escape-quote text (ground arith) in
    elim (Bool-cases (is_unreserved c)) [
      | inl plain ↦ rw plain (bad_escape-plain c (quote text) (unreserved-percent c plain) ∙ later)
      | inr escaped ↦
          let high : c / 16 < 16 = ground arith in
          let low : c % 16 < 16 = ground arith in
          rw (escaped, hex_digit-is_hex _ high, hex_digit-is_hex _ low)
            (bad_escape-digit (hex_digit (c / 16)) (hex_digit (c % 16) ∷ quote text)
                (hex_digit-is_hex _ high)
              ∙ bad_escape-digit (hex_digit (c % 16)) (quote text) (hex_digit-is_hex _ low)
              ∙ later)
    ]
