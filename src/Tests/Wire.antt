-- ===== src/Tests/Wire.antt =====
-- Messages written by the server and read by the chunk parser.
use open_rtmp_claude_kiro.Common.{
  List, [], arith, if◌then◌else◌, inl, length, refl, some, true, ℕ, ◌%◌, ◌++◌, ◌+◌, ◌<◌, ◌==◌, ◌^◌,
  ◌∷◌, ◌≡◌, ◌≢◌, ◌≤◌,
}
use open_rtmp_claude_kiro.Common.Maps.{find, nat_eq}
use open_rtmp_claude_kiro.Api.ChunkWriter.{
  basic_header, build_protocol_control_message, extended_timestamp, message_header, serialize_chunk,
  write_payload,
}
use open_rtmp_claude_kiro.Api.ChunkWriter.Control.{parse-abort, parse-set_chunk_size}
use open_rtmp_claude_kiro.Api.ChunkWriter.Headers.{IsCsid, parse-basic_header}
use open_rtmp_claude_kiro.Api.ChunkWriter.Loop.{IsReady}
use open_rtmp_claude_kiro.Api.ChunkWriter.RoundTrip.{IsIdle, IsMessage, whole_state}
use open_rtmp_claude_kiro.Api.ChunkWriter.Sequence.{
  IsBetween, IsPlain, Message, delivered, parse-serialize_all, serialize_all,
}
use open_rtmp_claude_kiro.Api.ChunkWriter.Streams.{parse-serialize_chunk}
use open_rtmp_claude_kiro.Api.ChunkWriter.Total.{write_payload-total}
use open_rtmp_claude_kiro.Protocol.ChunkParser.Bounds.{IsSized, parse-IsSized}
use open_rtmp_claude_kiro.Protocol.ChunkParser.Header.{parse_basic_header}
use open_rtmp_claude_kiro.Protocol.ChunkParser.Rounds.{complete_chunk, parse}
use open_rtmp_claude_kiro.Protocol.ChunkParser.State.{
  ChunkParser, ParseResult, clamp_chunk_size, parse_ok, reset_partial, stream_state,
}
use open_rtmp_claude_kiro.Protocol.ChunkParser.Total.{Ends, parse-Ends}

abbrev audio : Message
audio = record { csid = 4; timestamp = 20; type_id = 8; stream_id = 1; payload = 175 ∷ 1 ∷ [] }

abbrev video : Message
video = record {
  csid = 6;
  timestamp = 0x1000000;
  type_id = 9;
  stream_id = 1;
  payload = 23 ∷ 1 ∷ 0 ∷ [];
}

-- The two messages with a chunk size of 2.
abbrev wire : List ℕ
wire =
    4 ∷ 0 ∷ 0 ∷ 20 ∷ 0 ∷ 0 ∷ 2 ∷ 8 ∷ 1 ∷ 0 ∷ 0 ∷ 0 ∷ 175 ∷ 1 ∷ 6 ∷ 255 ∷ 255 ∷ 255 ∷ 0 ∷ 0 ∷ 3 ∷ 9
    ∷ 1 ∷ 0 ∷ 0 ∷ 0 ∷ 1 ∷ 0 ∷ 0 ∷ 0 ∷ 23 ∷ 1 ∷ 198 ∷ 1 ∷ 0 ∷ 0 ∷ 0 ∷ 0 ∷ []

abbrev parser : ℕ → ChunkParser
parser size = record {
  chunk_size = size;
  pending_chunk_bytes = 0;
  pending_chunk_csid = 0;
  chunk_streams = [];
  completed_chunks = [];
}

parser-IsReady : (size : ℕ) → IsReady size (parser size)
parser-IsReady size = record { nothing_pending = refl; agreed = refl }

parser-IsIdle : (size csid : ℕ) → IsIdle (stream_state csid (parser size))
unfolding stream_state find
parser-IsIdle size csid = record { empty = refl; complete = refl }

short_message :
    (m : Message)
    → IsCsid m.csid
    → m.timestamp < 2 ^ 32
    → m.stream_id < 2 ^ 32
    → length m.payload < 2 ^ 24
    → IsMessage m.csid m.timestamp m.stream_id m.payload
short_message m c t s l = record { stream = c; clock = t; stream_id = s; short = l }

audio-IsPlain : IsPlain audio
audio-IsPlain =
    (short_message audio (omega arith) (omega arith) (omega arith) (omega arith), inl (omega arith))

video-IsPlain : IsPlain video
video-IsPlain =
    (short_message video (omega arith) (omega arith) (omega arith) (omega arith), inl (omega arith))

serialize_wire : serialize_all 2 (audio ∷ video ∷ []) ≡ some wire
unfolding serialize_chunk write_payload basic_header message_header extended_timestamp
serialize_wire = refl

parse-serialize_all_example :
    (q : ChunkParser) × (parse (parser 2) wire ≡ some (parse_ok (length wire) 2, q))
    × (q.completed_chunks ≡ delivered audio ∷ delivered video ∷ [])
    × IsBetween 2 q
parse-serialize_all_example =
    parse-serialize_all 2 (audio ∷ video ∷ []) wire (parser 2) (audio-IsPlain, (video-IsPlain, tt))
      (omega arith) (record { ready = parser-IsReady 2; idle = parser-IsIdle 2 }) serialize_wire
      (omega arith)

parse-serialize_chunk_example :
    (out : List ℕ) × (serialize_chunk 6 0x1000000 3 9 1 (23 ∷ 1 ∷ 0 ∷ []) 2 ≡ some out)
    × (parse (parser 2) out
        ≡ some (
          parse_ok (length out) 1,
          complete_chunk 6
              (whole_state 0x1000000 9 1 (23 ∷ 1 ∷ 0 ∷ []) (stream_state 6 (parser 2)))
              (parser 2),
        ))
parse-serialize_chunk_example =
    parse-serialize_chunk 6 0x1000000 9 1 2 (23 ∷ 1 ∷ 0 ∷ []) (parser 2)
      (short_message video (omega arith) (omega arith) (omega arith) (omega arith)) (omega arith)
      (parser-IsReady 2) (parser-IsIdle 2 6)

parse-set_chunk_size_example :
    (out : List ℕ) × (q : ChunkParser) × (build_protocol_control_message 1 4096 ≡ some out)
    × (parse (parser 128) out ≡ some (parse_ok (length out) 1, q))
    × (q.chunk_size ≡ clamp_chunk_size (4096 % 2 ^ 31))
parse-set_chunk_size_example =
    parse-set_chunk_size 4096 (parser 128) (omega arith) (parser-IsReady 128) (parser-IsIdle 128 2)

parse-abort_example :
    (out : List ℕ) × (q : ChunkParser) × (build_protocol_control_message 2 4 ≡ some out)
    × (parse (parser 128) out ≡ some (parse_ok (length out) 1, q))
    × ((j : ℕ)
        → j ≢ 2
        → stream_state j q ≡ (
            if 4 == j
            then reset_partial (stream_state j (parser 128))
            else stream_state j (parser 128)))
parse-abort_example =
    parse-abort 4 (parser 128) (omega arith) (parser-IsReady 128) (parser-IsIdle 128 2)

parse-Ends_example : Ends 3 (parse (parser 128) (195 ∷ 7 ∷ 9 ∷ []))
parse-Ends_example = parse-Ends (parser 128) (195 ∷ 7 ∷ 9 ∷ []) (omega arith)

parse-IsSized_example :
    (r : ParseResult) × (q : ChunkParser) × (parse (parser 128) wire ≡ some (r, q))
    × IsSized q
    × (length q.completed_chunks ≡ length (parser 128).completed_chunks + r.chunks_completed)
parse-IsSized_example = parse-IsSized (parser 128) wire (omega arith) (omega arith, omega arith)

parse-basic_header_example :
    parse_basic_header (basic_header 1 400 ++ (9 ∷ []))
    ≡ some (record { fmt = 1; csid = 400; header_size = length (basic_header 1 400) })
parse-basic_header_example =
    parse-basic_header 1 400 (9 ∷ []) (omega arith) (omega arith, omega arith)

write_payload-total_example :
    (out : List ℕ) × (write_payload 3 true 6 0 2 (23 ∷ 1 ∷ 0 ∷ []) ≡ some out) × (length out ≤ 24)
write_payload-total_example =
    write_payload-total 3 true 6 0 2 (23 ∷ 1 ∷ 0 ∷ []) (omega arith) (omega arith)
