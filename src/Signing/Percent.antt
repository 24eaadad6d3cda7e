-- ===== src/Signing/Percent.antt =====
-- Percent encoding as backend/app/security/canonical.py uses it: the two regular expressions that
-- search a text for escapes, `urllib.parse.unquote_to_bytes` and `quote` with the safe characters
-- "-._~", and the strict UTF-8 decoding of bytes.
pub mod RoundTrip
use zangpu.Base.{
  ℕ, zero, suc, ◌+◌, ◌-◌, ◌*◌, ◌/◌, ◌%◌, Bool, true, false, not, ◌&&◌, ◌||◌, List, [], ◌∷◌, ◌++◌,
  ◌==◌, ltb, between, if◌then◌else◌, is_digit, any_of,
}

-- [0-9A-Fa-f]
abbrev pub is_hex : ℕ → Bool
is_hex c = is_digit c || between b'A' b'F' c || between b'a' b'f' c

abbrev pub hex_value : ℕ → ℕ
hex_value c = if is_digit c then c - b'0' else if between b'A' b'F' c then c - 55 else c - 87

-- `re.compile(r"%(?![0-9A-Fa-f]{2})").search(text)`
unfoldable pub has_bad_escape : List ℕ → Bool
has_bad_escape [] = false
has_bad_escape (c ∷ []) = c == b'%'
has_bad_escape (c ∷ d ∷ []) = c == b'%' || has_bad_escape (d ∷ [])
has_bad_escape (c ∷ d ∷ e ∷ text) =
    (c == b'%' && not (is_hex d && is_hex e)) || has_bad_escape (d ∷ e ∷ text)

-- `re.compile(r"%[0-9A-Fa-f]{2}").search(text)`
unfoldable pub has_escape : List ℕ → Bool
has_escape [] = false
has_escape (c ∷ []) = false
has_escape (c ∷ d ∷ []) = false
has_escape (c ∷ d ∷ e ∷ text) = (c == b'%' && is_hex d && is_hex e) || has_escape (d ∷ e ∷ text)

-- `unquote_to_bytes`
unfoldable pub unquote_to_bytes : List ℕ → List ℕ
unquote_to_bytes [] = []
unquote_to_bytes (c ∷ []) = c ∷ []
unquote_to_bytes (c ∷ d ∷ []) = c ∷ d ∷ []
unquote_to_bytes (c ∷ d ∷ e ∷ text) =
    let escaped = (16 * hex_value d + hex_value e) ∷ unquote_to_bytes text in
    let plain = c ∷ unquote_to_bytes (d ∷ e ∷ text) in
    if c == b'%' && is_hex d && is_hex e then escaped else plain

-- [A-Za-z0-9] and the safe characters.
abbrev pub is_unreserved : ℕ → Bool
is_unreserved c =
    between b'A' b'Z' c
    || between b'a' b'z' c
    || is_digit c
    || c == b'-'
    || c == b'.'
    || c == b'_'
    || c == b'~'

abbrev pub hex_digit : ℕ → ℕ
hex_digit n = if ltb n 10 then n + b'0' else n + 55

-- What `quote` writes for one byte.
unfoldable pub quoted_byte : ℕ → List ℕ
quoted_byte c =
    if is_unreserved c then c ∷ [] else b'%' ∷ hex_digit (c / 16) ∷ hex_digit (c % 16) ∷ []

-- `quote`
unfoldable pub quote : List ℕ → List ℕ
quote [] = []
quote (c ∷ text) = quoted_byte c ++ quote text

-- Strict UTF-8 by the table of well-formed sequences: the bytes that begin a character, how many
-- bytes follow, and between which bounds the next one lies (no overlong form, no surrogate, nothing
-- above U+10FFFF).
abbrev pub is_lead : ℕ → Bool
is_lead c = ltb c 0x80 || between 0xC2 0xF4 c

abbrev pub following : ℕ → ℕ
following c = if ltb c 0x80 then 0 else if ltb c 0xE0 then 1 else if ltb c 0xF0 then 2 else 3

abbrev pub next_low : ℕ → ℕ
next_low c = if c == 0xE0 then 0xA0 else if c == 0xF0 then 0x90 else 0x80

abbrev pub next_high : ℕ → ℕ
next_high c = if c == 0xED then 0x9F else if c == 0xF4 then 0x8F else 0xBF

-- With `n` bytes of a character still to come, the first of them between the bounds.
unfoldable pub is_utf8_after : ℕ → ℕ → ℕ → List ℕ → Bool
is_utf8_after n low high [] = n == 0
is_utf8_after zero low high (c ∷ text) =
    is_lead c && is_utf8_after (following c) (next_low c) (next_high c) text
is_utf8_after (suc n) low high (c ∷ text) = between low high c && is_utf8_after n 0x80 0xBF text

-- Whether `bytes.decode("utf-8", errors="strict")` reads the bytes.
abbrev pub is_utf8 : List ℕ → Bool
is_utf8 text = is_utf8_after 0 0x80 0xBF text

-- `ord(character) < 32 or ord(character) == 127`: in UTF-8 these characters are single bytes, and
-- no other character has such a byte.
abbrev pub is_control : ℕ → Bool
is_control c = ltb c 32 || c == 127

abbrev pub has_control : List ℕ → Bool
has_control text = any_of is_control text
