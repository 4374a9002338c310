-- ===== src/Api/ChunkWriter/Headers.antt =====
-- The parser's view of the headers that the serializer writes.
use open_rtmp_claude_kiro.Common.{
  List, arith, if◌then◌else◌, leb, length, refl, some, ℕ, ◌++◌, ◌<◌, ◌^◌, ◌≡◌, ◌≤◌,
}
use open_rtmp_claude_kiro.Api.ChunkWriter.{basic_header, extended_timestamp, message_header}
use open_rtmp_claude_kiro.Protocol.ChunkParser.Header.{
  parse_basic_header, parse_extended, parse_message_header,
}
use open_rtmp_claude_kiro.Protocol.ChunkParser.State.{ChunkStreamState}

-- A chunk stream id that a basic header can hold: 0 and 1 are markers of the longer forms.
abbrev pub IsCsid : ℕ → Type 0
IsCsid csid = (2 ≤ csid) × (csid ≤ 65599)

pub length-basic_header :
    (fmt csid : ℕ) → (1 ≤ length (basic_header fmt csid)) × (length (basic_header fmt csid) ≤ 3)
unfolding basic_header
length-basic_header fmt csid = ground arith

pub length-extended_timestamp : (ts : ℕ) → length (extended_timestamp ts) ≤ 4
unfolding extended_timestamp
length-extended_timestamp ts = ground arith

pub length-message_header :
    (ts len type_id sid : ℕ) → length (message_header ts len type_id sid) ≡ 11
unfolding message_header
length-message_header ts len type_id sid = refl

-- The basic header of a format below 4 and a chunk stream from 2 to 65599 is read back by the
-- parser, with its size, whatever bytes follow it.
pub parse-basic_header :
    (fmt csid : ℕ) (rest : List ℕ)
    → fmt < 4
    → IsCsid csid
    → parse_basic_header (basic_header fmt csid ++ rest)
      ≡ some (record { fmt = fmt; csid = csid; header_size = length (basic_header fmt csid) })
unfolding basic_header parse_basic_header
parse-basic_header fmt csid rest hf hc = ground arith

-- The state of a chunk stream behind a Type 0 header and its extended timestamp.
abbrev pub header_state : ℕ → ℕ → ℕ → ℕ → ChunkStreamState → ChunkStreamState
header_state timestamp message_length type_id stream_id s = record s {
  timestamp = timestamp;
  timestamp_delta = 0;
  message_length = message_length;
  message_type_id = type_id;
  message_stream_id = stream_id;
  has_extended_timestamp = leb 0xFFFFFF timestamp;
}

-- The state before the extended timestamp is read.
abbrev pub short_state : ℕ → ℕ → ℕ → ℕ → ChunkStreamState → ChunkStreamState
short_state timestamp message_length type_id stream_id s =
    record (header_state timestamp message_length type_id stream_id s) {
      timestamp = if leb 0xFFFFFF timestamp then s.timestamp else timestamp;
    }

pub parse-message_header :
    (ts len type_id sid : ℕ) (rest : List ℕ) (s : ChunkStreamState)
    → len < 2 ^ 24
    → sid < 2 ^ 32
    → parse_message_header 0 (message_header ts len type_id sid ++ rest) s
      ≡ some (short_state ts len type_id sid s, 11)
unfolding parse_message_header message_header
parse-message_header ts len type_id sid rest s hl hs = ground arith

pub parse-extended_timestamp :
    (ts len type_id sid : ℕ) (rest : List ℕ) (s : ChunkStreamState)
    → ts < 2 ^ 32
    → parse_extended 0 (extended_timestamp ts ++ rest) (short_state ts len type_id sid s)
      ≡ some (header_state ts len type_id sid s, length (extended_timestamp ts))
unfolding parse_extended extended_timestamp
parse-extended_timestamp ts len type_id sid rest s ht = ground arith

-- A continuation chunk repeats the extended timestamp, and the parser skips it.
pub parse-extended_continuation :
    (ts : ℕ) (rest : List ℕ) (s : ChunkStreamState)
    → s.has_extended_timestamp ≡ leb 0xFFFFFF ts
    → 0 < s.remaining_bytes
    → parse_extended 3 (extended_timestamp ts ++ rest) s ≡ some (s, length (extended_timestamp ts))
unfolding parse_extended extended_timestamp
parse-extended_continuation ts rest s he hr = ground arith
