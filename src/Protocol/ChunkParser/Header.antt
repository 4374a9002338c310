-- ===== src/Protocol/ChunkParser/Header.antt =====
-- The headers of a chunk: parseBasicHeader, parseMessageHeader and the extended timestamp of
-- src/protocol/chunk_parser.cpp. Bytes are below 256 and `|` joins disjoint bits, so it is
-- written as a sum.
use open_rtmp_claude_kiro.Common.{
  ℕ, ◌+◌, ◌*◌, ◌/◌, ◌%◌, not, ◌&&◌, ◌||◌, Option, none, some, List, ltb, ◌==◌, length, get_or,
  add32, join24, join32, if◌then◌else◌,
}
use open_rtmp_claude_kiro.Protocol.ChunkParser.State.{extended_timestamp_marker, ChunkStreamState}

pub record BasicHeader : Type 0 where
  pub fmt : ℕ
  pub csid : ℕ
  pub header_size : ℕ

-- `none` where more bytes are needed.
unfoldable pub parse_basic_header : List ℕ → Option BasicHeader
parse_basic_header bytes =
    let first = get_or bytes 0 0 in
    let fmt = first / 64 % 4 in
    let field = first % 64 in
    if ltb (length bytes) 1
    then none
    else if field == 0
    then if ltb (length bytes) 2
      then none
      else some (record { fmt = fmt; csid = get_or bytes 1 0 + 64; header_size = 2 })
    else if field == 1
    then if ltb (length bytes) 3
      then none
      else some (record {
        fmt = fmt;
        csid = get_or bytes 2 0 * 256 + get_or bytes 1 0 + 64;
        header_size = 3;
      })
    else some (record { fmt = fmt; csid = field; header_size = 1 })

-- The case of a Type 0 header, once its eleven bytes are there.
unfoldable pub full_header : List ℕ → ChunkStreamState → ChunkStreamState
full_header bytes s =
    let timestamp = join24 (get_or bytes 0 0) (get_or bytes 1 0) (get_or bytes 2 0) in
    let extended = timestamp == extended_timestamp_marker in
    record s {
      has_extended_timestamp = extended;
      timestamp = if extended then s.timestamp else timestamp;
      timestamp_delta = 0;
      message_length = join24 (get_or bytes 3 0) (get_or bytes 4 0) (get_or bytes 5 0);
      message_type_id = get_or bytes 6 0;
      message_stream_id =
          join32 (get_or bytes 10 0) (get_or bytes 9 0) (get_or bytes 8 0) (get_or bytes 7 0);
    }

-- What Type 1 and Type 2 headers do with their first three bytes.
unfoldable pub delta_header : List ℕ → ChunkStreamState → ChunkStreamState
delta_header bytes s =
    let delta = join24 (get_or bytes 0 0) (get_or bytes 1 0) (get_or bytes 2 0) in
    let extended = delta == extended_timestamp_marker in
    record s {
      has_extended_timestamp = extended;
      timestamp_delta = if extended then s.timestamp_delta else delta;
      timestamp = if extended then s.timestamp else add32 s.timestamp delta;
    }

-- The rest of a Type 1 header.
unfoldable pub length_and_type : List ℕ → ChunkStreamState → ChunkStreamState
length_and_type bytes s = record s {
  message_length = join24 (get_or bytes 3 0) (get_or bytes 4 0) (get_or bytes 5 0);
  message_type_id = get_or bytes 6 0;
}

-- The header's size with the new stream state; `none`, where more bytes are needed, leaves the
-- state as it was.
unfoldable pub parse_message_header : ℕ → List ℕ → ChunkStreamState → Option (ChunkStreamState × ℕ)
unfolding full_header delta_header length_and_type
parse_message_header fmt bytes s =
    if fmt == 0
    then if ltb (length bytes) 11 then none else some (full_header bytes s, 11)
    else if fmt == 1
    then if ltb (length bytes) 7
      then none
      else some (length_and_type bytes (delta_header bytes s), 7)
    else if fmt == 2
    then if ltb (length bytes) 3 then none else some (delta_header bytes s, 3)
    else if fmt == 3
    then some (s, 0)
    else none

-- The extended timestamp, by format.
unfoldable pub apply_extended : ℕ → ℕ → ChunkStreamState → ChunkStreamState
apply_extended fmt ext s =
    let in_message = not (length s.partial_payload == 0) || ltb 0 s.remaining_bytes in
    if fmt == 0
    then record s { timestamp = ext }
    else if fmt == 3
    then if in_message
      then s
      else record s { timestamp_delta = ext; timestamp = add32 s.timestamp ext }
    else record s { timestamp_delta = ext; timestamp = add32 s.timestamp ext }

-- The state and the size of the extended timestamp; `none` where more bytes are needed.
unfoldable pub parse_extended : ℕ → List ℕ → ChunkStreamState → Option (ChunkStreamState × ℕ)
unfolding apply_extended
parse_extended fmt bytes s =
    if s.has_extended_timestamp
    then if ltb (length bytes) 4
      then none
      else some (
        apply_extended fmt
            (join32 (get_or bytes 0 0) (get_or bytes 1 0) (get_or bytes 2 0) (get_or bytes 3 0)) s,
        4,
      )
    else some (s, 0)

-- The first chunk of a message sets the number of bytes to come.
unfoldable pub start_message : ChunkStreamState → ChunkStreamState
start_message s =
    if length s.partial_payload == 0 && s.remaining_bytes == 0
    then record s { remaining_bytes = s.message_length }
    else s
