-- ===== src/Signing/Quoted.antt =====
-- Which bytes stand in percent-encoded texts, and in the canonical path and query.
use zangpu.Base.{
  ℕ, ◌≡◌, refl, ◌/◌, ◌%◌, Bool, true, false, not, List, [], ◌∷◌, ◌++◌, ◌==◌, all_of, ◌&&◌, ◌||◌,
  Bool-cases, inl, inr, arith, ok, bind-eq-ok, raise_if,
}
use zangpu.Signing.Percent.{is_unreserved, hex_digit, quoted_byte, quote}
use zangpu.Signing.Split.{split, join, partition}
use zangpu.Signing.Canonical.{
  canonical_segment, canonical_segments, canonicalize_path, Pair, insert, sort, canonical_pair,
  canonical_pairs, shown_pairs, canonicalize_query, decode_component, is_dots, has, is_absolute,
}

-- A class of bytes that has every byte that percent encoding writes.
pub record HasQuoted (p : ℕ → Bool) : Type 0 where
  pub unreserved : (c : ℕ) → is_unreserved c ≡ true → p c ≡ true
  pub digit : (n : ℕ) → p (hex_digit n) ≡ true
  pub percent : p b'%' ≡ true

-- Every byte but one that percent encoding does not write.
abbrev pub is_other : ℕ → ℕ → Bool
is_other s c = not (c == s)

pub newline-HasQuoted : HasQuoted (is_other 10)
newline-HasQuoted = record {
  unreserved = λ c h. ground arith;
  digit = λ n. ground arith;
  percent = refl;
}

pub slash-HasQuoted : HasQuoted (is_other b'/')
slash-HasQuoted = record {
  unreserved = λ c h. ground arith;
  digit = λ n. ground arith;
  percent = refl;
}

pub all_of-append :
    (p : ℕ → Bool) (xs ys : List ℕ)
    → all_of p xs ≡ true
    → all_of p ys ≡ true
    → all_of p (xs ++ ys) ≡ true
all_of-append p [] ys hx hy = hy
all_of-append p (x ∷ xs) ys hx hy = ground (arith, all_of-append p xs ys)

pub all_of-join :
    (p : ℕ → Bool) (s : ℕ) (words : List (List ℕ))
    → p s ≡ true
    → all_of (all_of p) words ≡ true
    → all_of p (join s words) ≡ true
unfolding join
all_of-join p s [] hs h = refl
all_of-join p s (word ∷ []) hs h = ground arith
all_of-join p s (word ∷ next ∷ words) hs h =
    let later = all_of-join p s (next ∷ words) hs (ground arith) in
    all_of-append p word (s ∷ join s (next ∷ words)) (ground arith) (ground arith)

pub all_of_mono :
    (p q : ℕ → Bool) (text : List ℕ)
    → ((c : ℕ) → p c ≡ true → q c ≡ true)
    → all_of p text ≡ true
    → all_of q text ≡ true
all_of_mono p q [] step h = refl
all_of_mono p q (c ∷ text) step h =
    let later = all_of_mono p q text step in let now = step c in ground arith

module _ (p : ℕ → Bool) (hp : HasQuoted p) where
  all_of-quoted_byte : (c : ℕ) → all_of p (quoted_byte c) ≡ true
  unfolding quoted_byte
  all_of-quoted_byte c =
      let plain = hp.unreserved c in
      let high = hp.digit (c / 16) in
      let low = hp.digit (c % 16) in
      let mark = hp.percent in
      elim (Bool-cases (is_unreserved c)) [
        | inl h ↦ rw h (ground arith)
        | inr h ↦ rw h (ground arith)
      ]

  pub all_of-quote : (text : List ℕ) → all_of p (quote text) ≡ true
  unfolding quote
  all_of-quote [] = refl
  all_of-quote (c ∷ text) =
      all_of-append p (quoted_byte c) (quote text) (all_of-quoted_byte c) (all_of-quote text)

  -- What the loop of `canonicalize_path` produces.
  pub canonical_segment-quoted :
      (raw segment : List ℕ) → canonical_segment raw ≡ ok segment → all_of p segment ≡ true
  unfolding canonical_segment
  canonical_segment-quoted raw segment h =
      let (decoded, reads, h1) = bind-eq-ok (decode_component raw true) _ h in
      let (u, plain, h2) = bind-eq-ok (raise_if (is_dots decoded || has 0x5C decoded) _) _ h1 in
      let shown : quote decoded ≡ segment = cc in rw (← shown) (all_of-quote decoded)

  pub canonical_segments-quoted :
      (raws segments : List (List ℕ))
      → canonical_segments raws ≡ ok segments
      → all_of (all_of p) segments ≡ true
  unfolding canonical_segments
  canonical_segments-quoted [] segments h = let e : [] ≡ segments = cc in rw (← e) refl
  canonical_segments-quoted (raw ∷ raws) segments h =
      let (first, e1, h1) = bind-eq-ok (canonical_segment raw) _ h in
      let (later, e2, h2) = bind-eq-ok (canonical_segments raws) _ h1 in
      let e : first ∷ later ≡ segments = cc in
      let good = canonical_segment-quoted raw first e1 in
      let goods = canonical_segments-quoted raws later e2 in rw (← e) (ground arith)

  pub canonicalize_path-quoted :
      (raw path : List ℕ) → p b'/' ≡ true → canonicalize_path raw ≡ ok path → all_of p path ≡ true
  unfolding canonicalize_path
  canonicalize_path-quoted raw path hs h =
      let (u, plain, h1) =
        bind-eq-ok (raise_if (not (is_absolute raw) || has b'?' raw || has b'#' raw) _) _ h in
      let (segments, reads, h2) = bind-eq-ok (canonical_segments (split b'/' raw)) _ h1 in
      let e : join b'/' segments ≡ path = cc in
      rw (← e) (all_of-join p b'/' segments hs (canonical_segments-quoted _ segments reads))

  -- Both texts of a pair in the class.
  abbrev both_quoted : Pair → Bool
  both_quoted (key, value) = all_of p key && all_of p value

  insert-quoted :
      (pair : Pair) (pairs : List Pair)
      → both_quoted pair ≡ true
      → all_of both_quoted pairs ≡ true
      → all_of both_quoted (insert pair pairs) ≡ true
  unfolding insert
  insert-quoted pair [] h hs = ground arith
  insert-quoted pair (next ∷ pairs) h hs = let later = insert-quoted pair pairs h in ground arith

  sort-quoted :
      (pairs : List Pair) → all_of both_quoted pairs ≡ true → all_of both_quoted (sort pairs) ≡ true
  unfolding sort
  sort-quoted [] hs = refl
  sort-quoted (pair ∷ pairs) hs =
      insert-quoted pair (sort pairs) (ground arith) (sort-quoted pairs (ground arith))

  canonical_pair-quoted :
      (raw : List ℕ) (pair : Pair) → canonical_pair raw ≡ ok pair → both_quoted pair ≡ true
  unfolding canonical_pair
  canonical_pair-quoted raw pair h =
      let (key, e1, h1) = bind-eq-ok (decode_component (partition b'=' raw).0 false) _ h in
      let (value, e2, h2) = bind-eq-ok (decode_component (partition b'=' raw).1 false) _ h1 in
      let e : (quote key, quote value) ≡ pair = cc in
      let good = all_of-quote key in let good' = all_of-quote value in rw (← e) (ground arith)

  canonical_pairs-quoted :
      (raws : List (List ℕ)) (pairs : List Pair)
      → canonical_pairs raws ≡ ok pairs
      → all_of both_quoted pairs ≡ true
  unfolding canonical_pairs
  canonical_pairs-quoted [] pairs h = let e : [] ≡ pairs = cc in rw (← e) refl
  canonical_pairs-quoted (raw ∷ raws) pairs h =
      let (first, e1, h1) = bind-eq-ok (canonical_pair raw) _ h in
      let (later, e2, h2) = bind-eq-ok (canonical_pairs raws) _ h1 in
      let e : first ∷ later ≡ pairs = cc in
      let good = canonical_pair-quoted raw first e1 in
      let goods = canonical_pairs-quoted raws later e2 in rw (← e) (ground arith)

  shown_pairs-quoted :
      (pairs : List Pair)
      → p b'=' ≡ true
      → all_of both_quoted pairs ≡ true
      → all_of (all_of p) (shown_pairs pairs) ≡ true
  unfolding shown_pairs
  shown_pairs-quoted [] he h = refl
  shown_pairs-quoted ((key, value) ∷ pairs) he h =
      let later = shown_pairs-quoted pairs he in
      let now = all_of-append p key (b'=' ∷ value) in ground arith

  pub canonicalize_query-quoted :
      (raw query : List ℕ)
      → p b'&' ≡ true
      → p b'=' ≡ true
      → canonicalize_query raw ≡ ok query
      → all_of p query ≡ true
  unfolding canonicalize_query
  canonicalize_query-quoted [] query ha he h = let e : [] ≡ query = cc in rw (← e) refl
  canonicalize_query-quoted (c ∷ raw) query ha he h =
      let (pairs, reads, h1) = bind-eq-ok (canonical_pairs (split b'&' (c ∷ raw))) _ h in
      let e : join b'&' (shown_pairs (sort pairs)) ≡ query = cc in
      let good = sort-quoted pairs (canonical_pairs-quoted _ pairs reads) in
      rw (← e) (all_of-join p b'&' _ ha (shown_pairs-quoted (sort pairs) he good))
