-- ===== src/Streaming/Chunks.antt =====
-- How the stream of backend/app/services/streaming.py may be cut into chunks.
use zangpu.Base.{
  ℕ, ◌≡◌, refl, sym, ap, ◌∙◌, Bool, true, false, ◌||◌, List, [], ◌∷◌, ◌++◌, ◌==◌, Option, none,
  some, length, any_of, ok, bind-eq-ok, raise_if, arith, Bool-cases, inl, inr, if-false,
  length-append,
}
use zangpu.Signing.Paths.{raise_if-passed}
use zangpu.Streaming.{
  Payload, Events, OpenAiStreamDecoder, take_lines, before_line, new_line, read_line, read_lines,
  add_frame, feed_buffer, feed, is_overlong, feed_all,
}

pub append_assoc {ℓ} : {A : Type ℓ} (xs ys zs : List A) → (xs ++ ys) ++ zs ≡ xs ++ (ys ++ zs)
append_assoc [] ys zs = refl
append_assoc (x ∷ xs) ys zs = ap (λ l. x ∷ l) (append_assoc xs ys zs)

pub append-nil {ℓ} : {A : Type ℓ} (xs : List A) → xs ++ [] ≡ xs
append-nil [] = refl
append-nil (x ∷ xs) = ap (λ l. x ∷ l) (append-nil xs)

-- Lines that were taken, and those that the remainder gives with more bytes.
abbrev glue : List (List ℕ) × List ℕ → List ℕ → List (List ℕ) × List ℕ
glue (lines, rest) more = (lines ++ (take_lines (rest ++ more)).0, (take_lines (rest ++ more)).1)

before_line-glue :
    (c : ℕ) (p : List (List ℕ) × List ℕ) (more : List ℕ)
    → (c == 10) ≡ false
    → before_line c (glue p more) ≡ glue (before_line c p) more
unfolding take_lines
before_line-glue c ([], rest) more h =
    let plain =
      if-false _ (new_line (take_lines (rest ++ more))) (before_line c (take_lines (rest ++ more)))
        h in
    sym plain
before_line-glue c (line ∷ lines, rest) more h = refl

-- The lines of a text are those of its first part and those of what that leaves with the second.
take_lines-append : (xs ys : List ℕ) → take_lines (xs ++ ys) ≡ glue (take_lines xs) ys
unfolding take_lines
take_lines-append [] ys = refl
take_lines-append (c ∷ xs) ys =
    let later = take_lines-append xs ys in
    elim (Bool-cases (c == 10)) [
      | inl h ↦ rw (h, later) refl
      | inr h ↦ rw (h, later) (before_line-glue c (take_lines xs) ys h)
    ]

module _ (loads : List ℕ → Option Payload) where
  add_frame-append :
      (frame : Option (List ℕ)) (frames frames' : List (List ℕ))
      → add_frame loads frame (frames ++ frames') ≡ add_frame loads frame frames ++ frames'
  add_frame-append none frames frames' = refl
  add_frame-append (some frame) frames frames' = refl

  read_lines-append :
      (s s1 s2 : Events) (lines lines' frames frames' : List (List ℕ))
      → read_lines loads s lines ≡ ok (s1, frames)
      → read_lines loads s1 lines' ≡ ok (s2, frames')
      → read_lines loads s (lines ++ lines') ≡ ok (s2, frames ++ frames')
  unfolding read_lines
  read_lines-append s s1 s2 [] lines' frames frames' h h' =
      let same : s ≡ s1 = cc in let empty : [] ≡ frames = cc in rw (same, ← empty) h'
  read_lines-append s s1 s2 (line ∷ lines) lines' frames frames' h h' =
      let (turn, e1, h1) = bind-eq-ok (read_line loads s line) _ h in
      let (rest, e2, h2) = bind-eq-ok (read_lines loads (turn.0) lines) _ h1 in
      let states : rest.0 ≡ s1 = cc in
      let shown : add_frame loads (turn.1) (rest.1) ≡ frames = cc in
      let first = e2 ∙ ap (λ e. ok (e, rest.1)) states in
      let later = read_lines-append (turn.0) s1 s2 lines lines' (rest.1) frames' first h' in
      rw (e1, later)
        (ap (λ f. ok (s2, f))
          (add_frame-append (turn.1) (rest.1) frames' ∙ ap (λ f. f ++ frames') shown))

  any_of-append : (p : ℕ → Bool) (xs ys : List ℕ) → any_of p xs ≡ true → any_of p (xs ++ ys) ≡ true
  any_of-append p [] ys h = cc
  any_of-append p (x ∷ xs) ys h = let later = any_of-append p xs ys in ground arith

  -- Without a line feed, all stays in the buffer.
  take_lines-none :
      (bytes : List ℕ) → any_of (λ c. c == 10) bytes ≡ false → take_lines bytes ≡ ([], bytes)
  unfolding take_lines
  take_lines-none [] h = refl
  take_lines-none (c ∷ bytes) h =
      let later = take_lines-none bytes (ground arith) in
      let other : (c == 10) ≡ false = ground arith in rw (other, later) refl

  is_overlong-append :
      (xs ys : List ℕ)
      → is_overlong loads ((take_lines xs).1 ++ ys) ≡ false
      → is_overlong loads (xs ++ ys) ≡ false
  is_overlong-append xs ys h = elim (Bool-cases (any_of (λ c. c == 10) xs)) [
    | inl found ↦ let more = any_of-append (λ c. c == 10) xs ys found in ground arith
    | inr none_found ↦
        ap (λ p. is_overlong loads (p.1 ++ ys)) (sym (take_lines-none xs none_found)) ∙ h
  ]

  feed_buffer-append :
      (s : Events) (xs ys : List ℕ) (one two : OpenAiStreamDecoder) (frames frames' : List (List ℕ))
      → feed_buffer loads s xs ≡ ok (one, frames)
      → feed_buffer loads one.events (one.buffer ++ ys) ≡ ok (two, frames')
      → feed_buffer loads s (xs ++ ys) ≡ ok (two, frames ++ frames')
  unfolding feed_buffer
  feed_buffer-append s xs ys one two frames frames' h h' =
      let (u, short, h1) = bind-eq-ok (raise_if (is_overlong loads xs) _) _ h in
      let (read, e1, h2) = bind-eq-ok (read_lines loads s ((take_lines xs).0)) _ h1 in
      let buffers : (take_lines xs).1 ≡ one.buffer = cc in
      let states : read.0 ≡ one.events = cc in
      let shown : read.1 ≡ frames = cc in
      let more = one.buffer ++ ys in
      let (u', short', h1') = bind-eq-ok (raise_if (is_overlong loads more) _) _ h' in
      let (read', e1', h2') =
        bind-eq-ok (read_lines loads one.events ((take_lines more).0)) _ h1' in
      let shown' : read'.1 ≡ frames' = cc in
      let ended : record { buffer = (take_lines more).1; events = read'.0 } ≡ two = cc in
      let split_lines : take_lines (xs ++ ys)
          ≡ ((take_lines xs).0 ++ (take_lines more).0, (take_lines more).1) =
        take_lines-append xs ys
        ∙ ap (λ b. ((take_lines xs).0 ++ (take_lines (b ++ ys)).0, (take_lines (b ++ ys)).1))
            buffers in
      let lines =
        read_lines-append s one.events (read'.0) ((take_lines xs).0) ((take_lines more).0) frames
          frames' (e1 ∙ ap (λ e. ok (e, read.1)) states ∙ ap (λ f. ok (one.events, f)) shown)
          (e1' ∙ ap (λ f. ok (read'.0, f)) shown') in
      let within =
        is_overlong-append xs ys
          (ap (λ b. is_overlong loads (b ++ ys)) buffers ∙ raise_if-passed _ _ _ short') in
      rw (within, split_lines, lines) (ap (λ d. ok (d, frames ++ frames')) ended)

  feed-append :
      (s one two : OpenAiStreamDecoder) (xs ys : List ℕ) (frames frames' : List (List ℕ))
      → feed loads s xs ≡ ok (one, frames)
      → feed loads one ys ≡ ok (two, frames')
      → feed loads s (xs ++ ys) ≡ ok (two, frames ++ frames')
  unfolding feed
  feed-append s one two xs ys frames frames' h h' =
      let (u, open_first, h1) = bind-eq-ok (raise_if (length xs == 0 || s.events.done) _) _ h in
      let (u', open_second, h1') =
        bind-eq-ok (raise_if (length ys == 0 || one.events.done) _) _ h' in
      let plain = raise_if-passed _ _ _ open_first in
      let size = length-append xs ys in
      let accepts : (length (xs ++ ys) == 0 || s.events.done) ≡ false = ground arith in
      rw (accepts, ← append_assoc s.buffer xs ys)
        (feed_buffer-append s.events (s.buffer ++ xs) ys one two frames frames' h1 h1')

  abbrev pub concat : List (List ℕ) → List ℕ
  concat [] = []
  concat (chunk ∷ chunks) = chunk ++ concat chunks

  -- A stream of at least one chunk that is accepted chunk by chunk is accepted in one piece, with
  -- the same frames and the same decoder at its end.
  pub feed_all-concat :
      (s s' : OpenAiStreamDecoder) (chunk : List ℕ) (chunks : List (List ℕ))
      (frames : List (List ℕ))
      → feed_all loads s (chunk ∷ chunks) ≡ ok (s', frames)
      → feed loads s (concat (chunk ∷ chunks)) ≡ ok (s', frames)
  unfolding feed_all
  feed_all-concat s s' chunk [] frames h =
      let (one, e1, h1) = bind-eq-ok (feed loads s chunk) _ h in
      let states : one.0 ≡ s' = cc in
      let shown : one.1 ++ [] ≡ frames = cc in
      rw (append-nil chunk) (
        e1
        ∙ ap (λ d. ok (d, one.1)) states
        ∙ ap (λ f. ok (s', f)) (sym (append-nil (one.1)) ∙ shown))
  feed_all-concat s s' chunk (next ∷ chunks) frames h =
      let (one, e1, h1) = bind-eq-ok (feed loads s chunk) _ h in
      let (rest, e2, h2) = bind-eq-ok (feed_all loads (one.0) (next ∷ chunks)) _ h1 in
      let states : rest.0 ≡ s' = cc in
      let shown : one.1 ++ rest.1 ≡ frames = cc in
      let later =
        feed_all-concat (one.0) s' next chunks (rest.1) (e2 ∙ ap (λ d. ok (d, rest.1)) states) in
      feed-append s (one.0) s' chunk (concat (next ∷ chunks)) (one.1) (rest.1) e1 later
      ∙ ap (λ f. ok (s', f)) shown
