-- ===== src/Streaming/Examples.antt =====
-- A concrete stream, cut in the middle of an event.
use zangpu.Base.{
  ℕ, ◌≡◌, refl, true, false, List, [], ◌∷◌, ◌++◌, Option, some, codes, ok, all_of, is_some,
}
use zangpu.Signing.Split.{join}
use zangpu.Streaming.{
  ChatUsage, good_usage, Payload, OpenAiStreamDecoder, new_decoder, take_lines, strip_return,
  finish_payload, finish_done, read_line, read_lines, feed_buffer, feed, feed_all, finish,
  done_frame,
}
use zangpu.Streaming.Chunks.{concat, feed_all-concat}
use zangpu.Streaming.EndFrame.{is_plain}
use zangpu.Streaming.Frames.{finished_stream_is_complete}

abbrev one_usage : ChatUsage
one_usage = record { prompt_tokens = 3; completion_tokens = 4; total_tokens = 7 }

-- Every text is an event with a usage.
abbrev event_of : List ℕ → Option Payload
event_of text = some (record {
  is_chunk = true;
  id = some 5;
  model = some 6;
  choices = some 0;
  has_error = false;
  usage = good_usage one_usage;
})

abbrev first_chunk : List ℕ
first_chunk = codes ": hello\r\ndata: {}\n\nda"

abbrev second_chunk : List ℕ
second_chunk = codes "ta: [DONE]\n\n"

abbrev chunks : List (List ℕ)
chunks = first_chunk ∷ second_chunk ∷ []

abbrev sent_frames : List (List ℕ)
sent_frames = codes "data: {}\n\n" ∷ codes "data: [DONE]\n\n" ∷ []

abbrev ended : OpenAiStreamDecoder
ended = record {
  buffer = [];
  events = record { data_lines = []; done = true; usage = some one_usage };
}

fed : feed_all event_of new_decoder chunks ≡ ok (ended, sent_frames)
unfolding feed_all feed feed_buffer read_lines read_line strip_return take_lines finish_payload
    finish_done join
fed = refl

finished : finish event_of ended ≡ ok tt
unfolding finish
finished = refl

feed_all-concat_example :
    feed event_of new_decoder (concat event_of chunks) ≡ ok (ended, sent_frames)
feed_all-concat_example =
    feed_all-concat event_of new_decoder ended first_chunk (second_chunk ∷ []) sent_frames fed

finished_stream_is_complete_example :
    (earlier : List (List ℕ)) × (sent_frames ≡ earlier ++ (done_frame ∷ []))
    × (all_of is_plain earlier ≡ true)
    × (is_some ended.events.usage ≡ true)
finished_stream_is_complete_example =
    finished_stream_is_complete event_of chunks sent_frames ended fed finished
