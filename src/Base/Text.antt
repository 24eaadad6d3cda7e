-- ===== src/Base/Text.antt =====
-- Texts as Python's `str`: the code points, the length, and `re.fullmatch` of a character class
-- with bounds on the count, which is the only form of pattern that the modelled code matches.
use Prim.Native.Nat.{ℕ}
use Prim.Native.Char.{code}
use Prim.Native.String.{String}
use mathlib.Core.Bool.{Bool, ◌&&◌, ◌||◌}
use mathlib.Core.List.{List, [], ◌∷◌}
use text.Mathlib.Text.{◌==◌ as str_eq}
use zangpu.Base.Tests.{◌==◌, between}
use zangpu.Base.Lists.{length, all_of, any_of}

abbrev pub codes : String → List ℕ
codes String.[] = []
codes (String.◌∷◌ c s) = code c ∷ codes s

-- `len(s)`
abbrev pub text_length : String → ℕ
text_length s = length (codes s)

-- `not s` for a text
abbrev pub is_blank : String → Bool
is_blank s = text_length s == 0

abbrev pub full_match : (ℕ → Bool) → ℕ → ℕ → String → Bool
full_match p lo hi s = between lo hi (text_length s) && all_of p (codes s)

abbrev pub is_digit : ℕ → Bool
is_digit c = between b'0' b'9' c

abbrev pub is_word : ℕ → Bool
is_word c = between b'A' b'Z' c || between b'a' b'z' c || is_digit c || c == b'_' || c == b'-'

abbrev pub is_lower_hex : ℕ → Bool
is_lower_hex c = is_digit c || between b'a' b'f' c

-- `s in values`
abbrev pub contains : String → List String → Bool
contains s values = any_of (str_eq s) values
