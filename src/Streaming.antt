-- ===== src/Streaming.antt =====
-- The decoder of a provider's event stream: backend/app/services/streaming.py. Bytes are numbers.
-- `json.loads` with the reading of the fields that the decoder inspects is a parameter. A call that
-- raises gives an error without a state, since its caller drops the decoder then.
pub mod Chunks
pub mod EndFrame
pub mod Frames
mod Examples
use zangpu.Base.{
  ℕ, Bool, true, false, not, ◌&&◌, ◌||◌, List, [], ◌∷◌, ◌++◌, ◌==◌, Option, none, some, codes,
  length, any_of, ltb, between, Result, ok, err, ◌>>=◌, ◌>>◌, raise_if, of_option, is_some,
  if◌then◌else◌,
}
use zangpu.Signing.Split.{join}
use zangpu.Signing.Canonical.{same_text}

pub record ChatUsage : Type 0 where
  pub prompt_tokens : ℕ
  pub completion_tokens : ℕ
  pub total_tokens : ℕ

-- The `usage` of an event: absent or null, validated, or refused.
pub data UsageField : Type 0 where
  no_usage bad_usage : UsageField
  good_usage : ChatUsage → UsageField

-- What the decoder reads of an event that is a JSON object. An id or a model that is a text is given
-- by its length, and choices that are a list by theirs.
pub record Payload : Type 0 where
  pub is_chunk : Bool
  pub id : Option ℕ
  pub model : Option ℕ
  pub choices : Option ℕ
  pub has_error : Bool
  pub usage : UsageField

-- The fields that the reading of a line uses: `_data_lines`, `_done` and `_usage`.
pub record Events : Type 0 where
  pub data_lines : List (List ℕ)
  pub done : Bool
  pub usage : Option ChatUsage

pub record OpenAiStreamDecoder : Type 0 where
  pub buffer : List ℕ
  pub events : Events

-- `__init__`
abbrev pub new_events : Events
new_events = record { data_lines = []; done = false; usage = none }

abbrev pub new_decoder : OpenAiStreamDecoder
new_decoder = record { buffer = []; events = new_events }

pub data StreamError : Type 0 where
  protocol_error : StreamError

-- MAX_SSE_LINE_BYTES
abbrev pub max_line : ℕ
max_line = 1048576

abbrev pub is_within : ℕ → ℕ → Option ℕ → Bool
is_within lo hi none = false
is_within lo hi (some n) = between lo hi n

-- The test of an event's payload, without its usage.
abbrev pub is_event : Payload → Bool
is_event payload =
    payload.is_chunk
    && is_within 1 128 payload.id
    && is_within 1 255 payload.model
    && is_within 0 128 payload.choices
    && not payload.has_error

-- The usage that an event adds.
abbrev pub add_usage : UsageField → Option ChatUsage → Result StreamError (Option ChatUsage)
add_usage no_usage known = ok known
add_usage bad_usage known = err protocol_error
add_usage (good_usage usage) none = ok (some usage)
add_usage (good_usage usage) (some known) = err protocol_error

abbrev pub has_usage : UsageField → Bool
has_usage no_usage = false
has_usage bad_usage = true
has_usage (good_usage usage) = true

abbrev pub is_empty_list : Option ℕ → Bool
is_empty_list none = false
is_empty_list (some n) = n == 0

abbrev pub done_data : List ℕ
done_data = codes "[DONE]"

-- `b"data: " + data + b"\n\n"`
abbrev pub frame_of : List ℕ → List ℕ
frame_of data_text = codes "data: " ++ data_text ++ (10 ∷ 10 ∷ [])

abbrev pub done_frame : List ℕ
done_frame = frame_of done_data

-- The fields and the frame that one line ends, if any.
abbrev pub Turn : Type 0
Turn = Result StreamError (Events × Option (List ℕ))

-- `line.endswith(b"\r")` and `line[:-1]`
unfoldable pub strip_return : List ℕ → List ℕ
strip_return [] = []
strip_return (c ∷ []) = if c == 13 then [] else c ∷ []
strip_return (c ∷ d ∷ line) = c ∷ strip_return (d ∷ line)

abbrev pub drop_space : List ℕ → List ℕ
drop_space [] = []
drop_space (c ∷ value) = if c == b' ' then value else c ∷ value

-- `line[5:]` of a line that starts with "data:", without one leading space.
abbrev pub data_value : List ℕ → Option (List ℕ)
data_value (a ∷ b ∷ c ∷ d ∷ e ∷ value) =
    if a == b'd' && b == b'a' && c == b't' && d == b'a' && e == b':'
    then some (drop_space value)
    else none
data_value line = none

-- The complete lines of the buffer, and what remains in it.
abbrev pub before_line : ℕ → List (List ℕ) × List ℕ → List (List ℕ) × List ℕ
before_line c ([], rest) = ([], c ∷ rest)
before_line c (line ∷ lines, rest) = ((c ∷ line) ∷ lines, rest)

abbrev pub new_line : List (List ℕ) × List ℕ → List (List ℕ) × List ℕ
new_line (lines, rest) = ([] ∷ lines, rest)

unfoldable pub take_lines : List ℕ → List (List ℕ) × List ℕ
take_lines [] = ([], [])
take_lines (c ∷ bytes) =
    let rest = take_lines bytes in if c == 10 then new_line rest else before_line c rest

module _ (loads : List ℕ → Option Payload) where
  -- `_finish_event` below the test for the end marker.
  unfoldable pub finish_payload : Events → List ℕ → Turn
  finish_payload s data_text = do
    raise_if s.done protocol_error
    payload ← of_option (loads data_text) protocol_error
    raise_if (not (is_event payload)) protocol_error
    usage ← add_usage payload.usage s.usage
    raise_if (is_empty_list payload.choices && not (has_usage payload.usage)) protocol_error
    ok (record s { data_lines = []; usage = usage }, some (frame_of data_text))

  unfoldable pub finish_done : Events → Turn
  finish_done s = do
    raise_if (s.done || not (is_some s.usage)) protocol_error
    ok (record s { data_lines = []; done = true }, some done_frame)

  abbrev pub finish_data : Events → List ℕ → Turn
  finish_data s data_text =
      if same_text data_text done_data then finish_done s else finish_payload s data_text

  -- `_finish_event`
  abbrev pub finish_lines : Events → List (List ℕ) → Turn
  finish_lines s [] = ok (s, none)
  finish_lines s (line ∷ lines) = finish_data s (join 10 (line ∷ lines))

  abbrev pub add_data : Events → Option (List ℕ) → Turn
  add_data s none = err protocol_error
  add_data s (some value) = ok (record s { data_lines = s.data_lines ++ (value ∷ []) }, none)

  abbrev pub read_text : Events → List ℕ → Turn
  read_text s [] = finish_lines s s.data_lines
  read_text s (c ∷ line) =
      if s.done
      then err protocol_error
      else if c == b':'
      then ok (s, none)
      else add_data s (data_value (c ∷ line))

  -- The body of the loop of `feed`, for one line.
  unfoldable pub read_line : Events → List ℕ → Turn
  read_line s line =
      raise_if (ltb max_line (length (strip_return line))) protocol_error
      >> read_text s (strip_return line)

  abbrev pub add_frame : Option (List ℕ) → List (List ℕ) → List (List ℕ)
  add_frame none frames = frames
  add_frame (some frame) frames = frame ∷ frames

  -- The loop of `feed`.
  unfoldable pub read_lines : Events → List (List ℕ) → Result StreamError (Events × List (List ℕ))
  read_lines s [] = ok (s, [])
  read_lines s (line ∷ lines) = do
    turn ← read_line s line
    rest ← read_lines (turn.0) lines
    ok (rest.0, add_frame (turn.1) (rest.1))

  abbrev pub Fed : Type 0
  Fed = Result StreamError (OpenAiStreamDecoder × List (List ℕ))

  abbrev pub is_overlong : List ℕ → Bool
  is_overlong buffer = ltb max_line (length buffer) && not (any_of (λ c. c == 10) buffer)

  -- `feed` below its first test.
  unfoldable pub feed_buffer : Events → List ℕ → Fed
  feed_buffer s buffer = do
    raise_if (is_overlong buffer) protocol_error
    read ← read_lines s ((take_lines buffer).0)
    ok (record { buffer = (take_lines buffer).1; events = read.0 }, read.1)

  -- `feed`
  unfoldable pub feed : OpenAiStreamDecoder → List ℕ → Fed
  feed s chunk = do
    raise_if (length chunk == 0 || s.events.done) protocol_error
    feed_buffer s.events (s.buffer ++ chunk)

  -- `finish`
  unfoldable pub finish : OpenAiStreamDecoder → Result StreamError (Unit {0})
  finish s =
      raise_if
        (not (length s.buffer == 0)
          || not (length s.events.data_lines == 0)
          || not s.events.done
          || not (is_some s.events.usage))
        protocol_error

  -- The chunks of a stream, fed one after the other.
  unfoldable pub feed_all : OpenAiStreamDecoder → List (List ℕ) → Fed
  feed_all s [] = ok (s, [])
  feed_all s (chunk ∷ chunks) = do
    one ← feed s chunk
    rest ← feed_all (one.0) chunks
    ok (rest.0, one.1 ++ rest.1)
