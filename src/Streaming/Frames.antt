-- ===== src/Streaming/Frames.antt =====
-- The frames of an accepted stream: `_finish_event` and `finish` of
-- backend/app/services/streaming.py.
use mathlib.Core.Path.{subst}
use zangpu.Base.{
  ℕ, ◌≡◌, refl, sym, ap, ◌∙◌, Bool, true, false, not, ◌&&◌, ◌||◌, List, [], ◌∷◌, ◌++◌, ◌==◌, Option,
  none, some, length, all_of, ltb, ok, err, bind-eq-ok, raise_if, of_option, arith, Bool-cases, inl,
  inr, if-true, if-false, is_some,
}
use zangpu.Signing.Split.{join}
use zangpu.Signing.Canonical.{same_text}
use zangpu.Signing.Paths.{raise_if-passed}
use zangpu.Streaming.{
  Payload, ChatUsage, Events, OpenAiStreamDecoder, protocol_error, done_data, done_frame, frame_of,
  add_usage, is_event, is_empty_list, has_usage, finish_payload, finish_done, finish_lines,
  add_data, data_value, strip_return, read_text, read_line, read_lines, add_frame, take_lines,
  feed_buffer, feed, is_overlong, feed_all, finish, max_line, new_decoder,
}
use zangpu.Streaming.Chunks.{append_assoc, append-nil}
use zangpu.Streaming.EndFrame.{is_plain, frame_of-is_plain}

-- What has been sent, by whether the decoder is done.
abbrev Sent : Bool → Option ChatUsage → List (List ℕ) → Type 0
Sent false usage frames = all_of is_plain frames ≡ true
Sent true usage frames =
    (earlier : List (List ℕ)) × (frames ≡ earlier ++ (done_frame ∷ []))
    × (all_of is_plain earlier ≡ true)
    × (is_some usage ≡ true)

abbrev frames_of : Option (List ℕ) → List (List ℕ)
frames_of none = []
frames_of (some frame) = frame ∷ []

all_of-append :
    (xs ys : List (List ℕ))
    → all_of is_plain xs ≡ true
    → all_of is_plain ys ≡ true
    → all_of is_plain (xs ++ ys) ≡ true
all_of-append [] ys h k = k
all_of-append (x ∷ xs) ys h k = let later = all_of-append xs ys in ground arith

module _ (loads : List ℕ → Option Payload) where
  -- The frames so far with those of one line.
  abbrev After : Events × Option (List ℕ) → List (List ℕ) → Type 0
  After (s, frame) sent = Sent s.done s.usage (sent ++ frames_of frame)

  finish_done-After :
      (s : Events) (sent : List (List ℕ)) (turn : Events × Option (List ℕ))
      → Sent s.done s.usage sent
      → finish_done loads s ≡ ok turn
      → After turn sent
  unfolding finish_done
  finish_done-After s sent turn hs h =
      let (u, first, h1) = bind-eq-ok (raise_if (s.done || not (is_some s.usage)) _) _ h in
      let passed = raise_if-passed _ _ _ first in
      let open_still : s.done ≡ false = ground arith in
      let known : is_some s.usage ≡ true = ground arith in
      let plain = subst (λ d. Sent d s.usage sent) open_still hs in
      let ended : (record { data_lines = []; done = true; usage = s.usage }, some done_frame)
          ≡ turn =
        cc in
      subst (λ t. After t sent) ended (sent, refl, plain, known)

  finish_payload-After :
      (s : Events) (data_text : List ℕ) (sent : List (List ℕ)) (turn : Events × Option (List ℕ))
      → same_text data_text done_data ≡ false
      → Sent s.done s.usage sent
      → finish_payload loads s data_text ≡ ok turn
      → After turn sent
  unfolding finish_payload
  finish_payload-After s data_text sent turn hd hs h =
      let (u, first, h1) = bind-eq-ok (raise_if s.done _) _ h in
      let (payload, e1, h2) = bind-eq-ok (of_option (loads data_text) protocol_error) _ h1 in
      let (v, e2, h3) = bind-eq-ok (raise_if (not (is_event payload)) _) _ h2 in
      let (usage, e3, h4) = bind-eq-ok (add_usage payload.usage s.usage) _ h3 in
      let (x, e4, h5) =
        bind-eq-ok (raise_if (is_empty_list payload.choices && not (has_usage payload.usage)) _) _
          h4 in
      let open_still = raise_if-passed s.done _ _ first in
      let plain = subst (λ d. Sent d s.usage sent) open_still hs in
      let frame = frame_of-is_plain data_text hd in
      let all_plain = all_of-append sent (frame_of data_text ∷ []) plain (rw frame refl) in
      let ended : (
        record { data_lines = []; done = s.done; usage = usage },
        some (frame_of data_text),
      )
          ≡ turn =
        cc in
      subst (λ t. After t sent) ended
        (subst (λ d. Sent d usage (sent ++ (frame_of data_text ∷ []))) (sym open_still) all_plain)

  unchanged-After :
      (s : Events) (sent : List (List ℕ)) (turn : Events × Option (List ℕ))
      → Sent s.done s.usage sent
      → finish_lines loads s [] ≡ ok turn
      → After turn sent
  unchanged-After s sent turn hs h =
      let same : (s, none) ≡ turn = cc in subst (λ t. After t sent) same (rw (append-nil sent) hs)

  finish_lines-After :
      (s : Events) (lines sent : List (List ℕ)) (turn : Events × Option (List ℕ))
      → Sent s.done s.usage sent
      → finish_lines loads s lines ≡ ok turn
      → After turn sent
  finish_lines-After s [] sent turn hs h = unchanged-After s sent turn hs h
  finish_lines-After s (line ∷ lines) sent turn hs h =
      let data_text = join 10 (line ∷ lines) in
      elim (Bool-cases (same_text data_text done_data)) [
        | inl last ↦ finish_done-After s sent turn hs (sym (if-true _ _ _ last) ∙ h)
        | inr other ↦
            finish_payload-After s data_text sent turn other hs (sym (if-false _ _ _ other) ∙ h)
      ]

  add_data-After :
      (s : Events) (value : Option (List ℕ)) (sent : List (List ℕ))
      (turn : Events × Option (List ℕ))
      → Sent s.done s.usage sent
      → add_data loads s value ≡ ok turn
      → After turn sent
  add_data-After s none sent turn hs h = cc
  add_data-After s (some value) sent turn hs h =
      let same : (record s { data_lines = s.data_lines ++ (value ∷ []) }, none) ≡ turn = cc in
      subst (λ t. After t sent) same (rw (append-nil sent) hs)

  read_text-After :
      (s : Events) (line : List ℕ) (sent : List (List ℕ)) (turn : Events × Option (List ℕ))
      → Sent s.done s.usage sent
      → read_text loads s line ≡ ok turn
      → After turn sent
  read_text-After s [] sent turn hs h = finish_lines-After s s.data_lines sent turn hs h
  read_text-After s (c ∷ line) sent turn hs h = elim (Bool-cases s.done) [
    | inl over ↦ let refused : err protocol_error ≡ ok turn = sym (if-true _ _ _ over) ∙ h in cc
    | inr open_still ↦
        let rest = sym (if-false _ _ _ open_still) ∙ h in
        elim (Bool-cases (c == b':')) [
          | inl comment ↦ unchanged-After s sent turn hs (sym (if-true _ _ _ comment) ∙ rest)
          | inr other ↦
              add_data-After s (data_value (c ∷ line)) sent turn hs
                (sym (if-false _ _ _ other) ∙ rest)
        ]
  ]

  add_frame-append :
      (sent : List (List ℕ)) (frame : Option (List ℕ)) (frames : List (List ℕ))
      → (sent ++ frames_of frame) ++ frames ≡ sent ++ add_frame loads frame frames
  add_frame-append sent none frames = append_assoc sent [] frames
  add_frame-append sent (some frame) frames = append_assoc sent (frame ∷ []) frames

  read_lines-Sent :
      (s s' : Events) (lines sent frames : List (List ℕ))
      → Sent s.done s.usage sent
      → read_lines loads s lines ≡ ok (s', frames)
      → Sent s'.done s'.usage (sent ++ frames)
  unfolding read_lines read_line
  read_lines-Sent s s' [] sent frames hs h =
      let same : s ≡ s' = cc in
      let empty : [] ≡ frames = cc in
      rw (← empty, append-nil sent) (subst (λ e. Sent e.done e.usage sent) same hs)
  read_lines-Sent s s' (line ∷ lines) sent frames hs h =
      let (turn, e1, h1) = bind-eq-ok (read_line loads s line) _ h in
      let (rest, e2, h2) = bind-eq-ok (read_lines loads (turn.0) lines) _ h1 in
      let (u, short, h3) =
        bind-eq-ok (raise_if (ltb max_line (length (strip_return line))) _) _ e1 in
      let step = read_text-After s (strip_return line) sent turn hs h3 in
      let states : rest.0 ≡ s' = cc in
      let shown : add_frame loads (turn.1) (rest.1) ≡ frames = cc in
      let later =
        read_lines-Sent (turn.0) (rest.0) lines (sent ++ frames_of (turn.1)) (rest.1) step e2 in
      let joined = add_frame-append sent (turn.1) (rest.1) ∙ ap (λ f. sent ++ f) shown in
      subst (λ f. Sent s'.done s'.usage f) joined
        (subst (λ e. Sent e.done e.usage ((sent ++ frames_of (turn.1)) ++ rest.1)) states later)

  feed-Sent :
      (d d' : OpenAiStreamDecoder) (chunk : List ℕ) (sent frames : List (List ℕ))
      → Sent d.events.done d.events.usage sent
      → feed loads d chunk ≡ ok (d', frames)
      → Sent d'.events.done d'.events.usage (sent ++ frames)
  unfolding feed feed_buffer
  feed-Sent d d' chunk sent frames hs h =
      let buffer = d.buffer ++ chunk in
      let (u, good, h1) = bind-eq-ok (raise_if (length chunk == 0 || d.events.done) _) _ h in
      let (v, short, h2) = bind-eq-ok (raise_if (is_overlong loads buffer) _) _ h1 in
      let (read, e1, h3) = bind-eq-ok (read_lines loads d.events ((take_lines buffer).0)) _ h2 in
      let states : read.0 ≡ d'.events = cc in
      let shown : read.1 ≡ frames = cc in
      let later = read_lines-Sent d.events (read.0) ((take_lines buffer).0) sent (read.1) hs e1 in
      subst (λ f. Sent d'.events.done d'.events.usage (sent ++ f)) shown
        (subst (λ e. Sent e.done e.usage (sent ++ read.1)) states later)

  feed_all-Sent :
      (d d' : OpenAiStreamDecoder) (chunks sent frames : List (List ℕ))
      → Sent d.events.done d.events.usage sent
      → feed_all loads d chunks ≡ ok (d', frames)
      → Sent d'.events.done d'.events.usage (sent ++ frames)
  unfolding feed_all
  feed_all-Sent d d' [] sent frames hs h =
      let same : d ≡ d' = cc in
      let empty : [] ≡ frames = cc in
      rw (← empty, append-nil sent) (subst (λ e. Sent e.events.done e.events.usage sent) same hs)
  feed_all-Sent d d' (chunk ∷ chunks) sent frames hs h =
      let (one, e1, h1) = bind-eq-ok (feed loads d chunk) _ h in
      let (rest, e2, h2) = bind-eq-ok (feed_all loads (one.0) chunks) _ h1 in
      let step = feed-Sent d (one.0) chunk sent (one.1) hs e1 in
      let states : rest.0 ≡ d' = cc in
      let shown : one.1 ++ rest.1 ≡ frames = cc in
      let later = feed_all-Sent (one.0) (rest.0) chunks (sent ++ one.1) (rest.1) step e2 in
      let joined = append_assoc sent (one.1) (rest.1) ∙ ap (λ f. sent ++ f) shown in
      subst (λ f. Sent d'.events.done d'.events.usage f) joined
        (subst (λ e. Sent e.events.done e.events.usage ((sent ++ one.1) ++ rest.1)) states later)

  -- A stream whose chunks a new decoder accepts, and whose end it accepts, was sent on as frames of
  -- which the last is the end frame and no other one is, and it has reported its usage.
  pub finished_stream_is_complete :
      (chunks frames : List (List ℕ)) (d : OpenAiStreamDecoder)
      → feed_all loads new_decoder chunks ≡ ok (d, frames)
      → finish loads d ≡ ok tt
      → (earlier : List (List ℕ)) × (frames ≡ earlier ++ (done_frame ∷ []))
        × (all_of is_plain earlier ≡ true)
        × (is_some d.events.usage ≡ true)
  unfolding finish
  finished_stream_is_complete chunks frames d h hf =
      let sent = feed_all-Sent new_decoder d chunks [] frames refl h in
      let passed = raise_if-passed _ _ _ hf in
      let over : d.events.done ≡ true = ground arith in
      subst (λ e. Sent e d.events.usage frames) over sent
