-- ===== src/Tests/Split.antt =====
-- A message whose header arrives before its payload.
use open_rtmp_claude_kiro.Common.{List, [], add32, arith, length, refl, some, ℕ, ◌++◌, ◌∷◌, ◌≡◌}
use open_rtmp_claude_kiro.Common.Maps.{find, nat_eq}
use open_rtmp_claude_kiro.Api.ChunkWriter.{basic_header}
use open_rtmp_claude_kiro.Api.ChunkWriter.Body.{holding}
use open_rtmp_claude_kiro.Api.ChunkWriter.RoundTrip.{IsIdle}
use open_rtmp_claude_kiro.Api.ChunkWriter.Split.{
  delta_bytes, delta_state, split_header_adds_delta_twice,
}
use open_rtmp_claude_kiro.Protocol.ChunkParser.Rounds.{complete_chunk, parse}
use open_rtmp_claude_kiro.Protocol.ChunkParser.State.{
  ChunkParser, ChunkStreamState, parse_ok, stream_state,
}

abbrev parser : ChunkParser
parser = record {
  chunk_size = 128;
  pending_chunk_bytes = 0;
  pending_chunk_csid = 0;
  chunk_streams = [];
  completed_chunks = [];
}

parser-IsIdle : IsIdle (stream_state 6 parser)
unfolding stream_state find
parser-IsIdle = record { empty = refl; complete = refl }

abbrev header : List ℕ
header = basic_header 1 6 ++ delta_bytes 40 2 9

abbrev held : ChunkStreamState
held = holding (23 ∷ 1 ∷ []) 0 (delta_state 40 2 9 (stream_state 6 parser))

split_header_adds_delta_twice_example :
    (q : ChunkParser) × (parse parser header ≡ some (parse_ok 0 0, q))
    × (parse q (header ++ (23 ∷ 1 ∷ []))
        ≡ some (
          parse_ok (length (header ++ (23 ∷ 1 ∷ []))) 1,
          complete_chunk 6
              (record held { timestamp = add32 (add32 (stream_state 6 parser).timestamp 40) 40 })
              parser,
        ))
    × (parse parser (header ++ (23 ∷ 1 ∷ []))
        ≡ some (parse_ok (length (header ++ (23 ∷ 1 ∷ []))) 1, complete_chunk 6 held parser))
split_header_adds_delta_twice_example =
    split_header_adds_delta_twice 6 40 9 128 (23 ∷ 1 ∷ []) parser (omega arith, omega arith)
      (omega arith) (omega arith) (omega arith) (omega arith)
      (record { nothing_pending = refl; agreed = refl }) parser-IsIdle
