-- ===== src/Signing/Paths.antt =====
-- The canonical path of a canonical path: `_decode_component` and `canonicalize_path` of
-- backend/app/security/canonical.py.
use zangpu.Base.{
  ℕ, ◌≡◌, refl, sym, ap, ◌∙◌, Bool, true, false, not, List, [], ◌∷◌, ◌==◌, ok, bind-eq-ok, raise_if,
  all_of, arith, ◌&&◌, ◌||◌, inl, inr, Bool-cases,
}
use zangpu.Signing.Percent.{
  has_bad_escape, has_escape, unquote_to_bytes, is_utf8_after, quote, is_utf8, has_control,
}
use zangpu.Signing.Percent.RoundTrip.{is_utf8-is_byte, unquote-quote, bad_escape-quote}
use zangpu.Signing.Split.{split, join, split-join, split-separator}
use zangpu.Signing.Canonical.{
  decode_component, canonical_segment, canonical_segments, canonicalize_path, is_absolute, is_dots,
  has,
}
use zangpu.Signing.Binding.{raise_if-ok}
use zangpu.Signing.Quoted.{
  HasQuoted, is_other, slash-HasQuoted, canonical_segments-quoted, canonicalize_path-quoted,
}

pub raise_if-passed {ℓ} :
    {E : Type ℓ} (b : Bool) (e : E) (u : Unit {0}) → raise_if b e ≡ ok u → b ≡ false
raise_if-passed true e u h = cc
raise_if-passed false e u h = refl

-- A text that was read from a component is read again from its encoding.
pub decode_component-quote :
    (raw text : List ℕ) (twice : Bool)
    → decode_component raw twice ≡ ok text
    → decode_component (quote text) twice ≡ ok text
unfolding decode_component
decode_component-quote raw text twice h =
    let read = unquote_to_bytes raw in
    let (u1, p1, h1) = bind-eq-ok (raise_if (has_bad_escape raw) _) _ h in
    let (u2, p2, h2) = bind-eq-ok (raise_if (not (is_utf8 read)) _) _ h1 in
    let (u3, p3, h3) = bind-eq-ok (raise_if (has_control read) _) _ h2 in
    let (u4, p4, h4) = bind-eq-ok (raise_if (twice && has_escape read) _) _ h3 in
    let same : read ≡ text = cc in
    let bytes = is_utf8-is_byte read (raise_if-ok _ _ _ p2) in
    rw (← same, bad_escape-quote read bytes, unquote-quote read bytes) (h1 ∙ ap ok (sym same))

canonical_segment-again :
    (raw segment : List ℕ)
    → canonical_segment raw ≡ ok segment
    → canonical_segment segment ≡ ok segment
unfolding canonical_segment
canonical_segment-again raw segment h =
    let (text, reads, h1) = bind-eq-ok (decode_component raw true) _ h in
    let (u, plain, h2) = bind-eq-ok (raise_if (is_dots text || has 0x5C text) _) _ h1 in
    let shown : quote text ≡ segment = cc in
    let again = decode_component-quote raw text true reads in
    rw (← shown, again) (h1 ∙ ap ok (sym shown))

canonical_segments-again :
    (raws segments : List (List ℕ))
    → canonical_segments raws ≡ ok segments
    → canonical_segments segments ≡ ok segments
unfolding canonical_segments
canonical_segments-again [] segments h = let e : [] ≡ segments = cc in rw (← e) refl
canonical_segments-again (raw ∷ raws) segments h =
    let (first, e1, h1) = bind-eq-ok (canonical_segment raw) _ h in
    let (later, e2, h2) = bind-eq-ok (canonical_segments raws) _ h1 in
    let e : first ∷ later ≡ segments = cc in
    rw (← e, canonical_segment-again raw first e1, canonical_segments-again raws later e2) refl

-- No byte of the text is the other one.
pub has-other : (c : ℕ) (text : List ℕ) → all_of (is_other c) text ≡ true → has c text ≡ false
has-other c [] h = refl
has-other c (d ∷ text) h = let later = has-other c text in ground arith

question-HasQuoted : HasQuoted (is_other b'?')
question-HasQuoted = record {
  unreserved = λ c h. ground arith;
  digit = λ n. ground arith;
  percent = refl;
}

hash-HasQuoted : HasQuoted (is_other b'#')
hash-HasQuoted = record {
  unreserved = λ c h. ground arith;
  digit = λ n. ground arith;
  percent = refl;
}

canonical_segment-empty : canonical_segment [] ≡ ok []
unfolding canonical_segment decode_component quote has_bad_escape has_escape unquote_to_bytes
    is_utf8_after
canonical_segment-empty = refl

split-words :
    (s : ℕ) (text : List ℕ)
    → (word : List ℕ) × (words : List (List ℕ)) × (split s text ≡ word ∷ words)
unfolding split
split-words s [] = ([], [], refl)
split-words s (c ∷ text) =
    let (word, words, e) = split-words s text in
    elim (Bool-cases (c == s)) [
      | inl h ↦ ([], split s text, rw h refl)
      | inr h ↦ (c ∷ word, words, rw (h, e) refl)
    ]

-- The path that is joined begins with a slash.
join-absolute :
    (word : List ℕ) (words segments : List (List ℕ))
    → canonical_segments ([] ∷ word ∷ words) ≡ ok segments
    → (is_absolute (join b'/' segments) ≡ true) × (split b'/' (join b'/' segments) ≡ segments)
unfolding canonical_segments join
join-absolute word words segments h =
    let (first, e1, h1) = bind-eq-ok (canonical_segment []) _ h in
    let (later, e2, h2) = bind-eq-ok (canonical_segments (word ∷ words)) _ h1 in
    let (next, e3, h3) = bind-eq-ok (canonical_segment word) _ e2 in
    let (rest, e4, h4) = bind-eq-ok (canonical_segments words) _ h3 in
    let none_first : [] ≡ first = let start = canonical_segment-empty in cc in
    let e : [] ∷ next ∷ rest ≡ segments = cc in
    let good = canonical_segments-quoted _ slash-HasQuoted ([] ∷ word ∷ words) segments h in
    let good' : all_of (all_of (is_other b'/')) ([] ∷ next ∷ rest) ≡ true =
      ap (all_of (all_of (is_other b'/'))) e ∙ good in
    rw (← e) (refl, split-join b'/' [] (next ∷ rest) good')

segments-absolute :
    (text : List ℕ) (segments : List (List ℕ))
    → is_absolute text ≡ true
    → canonical_segments (split b'/' text) ≡ ok segments
    → (is_absolute (join b'/' segments) ≡ true) × (split b'/' (join b'/' segments) ≡ segments)
segments-absolute [] segments ha h = cc
segments-absolute (c ∷ text) segments ha h =
    let slash : c ≡ b'/' = ground arith in
    let (word, words, e) = split-words b'/' text in
    let words_of : split b'/' (c ∷ text) ≡ [] ∷ word ∷ words =
      rw slash (split-separator b'/' [] text refl ∙ ap (λ ws. [] ∷ ws) e) in
    join-absolute word words segments (sym (ap canonical_segments words_of) ∙ h)

-- The canonical path of a path is its own canonical path.
pub canonicalize_path_idempotent :
    (raw path : List ℕ) → canonicalize_path raw ≡ ok path → canonicalize_path path ≡ ok path
unfolding canonicalize_path
canonicalize_path_idempotent raw path h =
    let (u, plain, h1) =
      bind-eq-ok (raise_if (not (is_absolute raw) || has b'?' raw || has b'#' raw) _) _ h in
    let (segments, reads, h2) = bind-eq-ok (canonical_segments (split b'/' raw)) _ h1 in
    let e : join b'/' segments ≡ path = cc in
    let starts : is_absolute raw ≡ true = ground (arith, raise_if-passed _ _ _ plain) in
    let (absolute, splits) = segments-absolute raw segments starts reads in
    let question =
      has-other b'?' path (canonicalize_path-quoted _ question-HasQuoted raw path refl h) in
    let hash = has-other b'#' path (canonicalize_path-quoted _ hash-HasQuoted raw path refl h) in
    let again = canonical_segments-again _ segments reads in
    rw (question, hash, ← e, absolute, splits, again) refl
