-- ===== src/Protocol/ChunkParser/State.antt =====
-- The types and the state of include/openrtmp/protocol/chunk_parser.hpp, and the operations of
-- src/protocol/chunk_parser.cpp that do not parse. A reference into `chunkStreams_` is a read, and
-- a write of the map wherever the code leaves the reference modified.
use open_rtmp_claude_kiro.Common.{
  ℕ, String, Bool, false, Option, none, some, List, [], ltb, if◌then◌else◌,
}
use open_rtmp_claude_kiro.Common.Maps.{find, insert, contains, nat_eq}

abbrev pub default_chunk_size : ℕ
default_chunk_size = 128

abbrev pub min_chunk_size : ℕ
min_chunk_size = 128

abbrev pub max_chunk_size : ℕ
max_chunk_size = 65536

abbrev pub extended_timestamp_marker : ℕ
extended_timestamp_marker = 0xFFFFFF

abbrev pub msg_type_set_chunk_size : ℕ
msg_type_set_chunk_size = 1

abbrev pub msg_type_abort : ℕ
msg_type_abort = 2

pub data ParseErrorCode : Type 0 where
  invalid_basic_header invalid_message_header invalid_chunk_size invalid_timestamp : ParseErrorCode
  malformed_protocol_msg buffer_overflow unknown_chunk_stream : ParseErrorCode

pub record ParseError : Type 0 where
  pub code : ParseErrorCode
  pub message : String

pub record ParseResult : Type 0 where
  pub bytes_consumed : ℕ
  pub chunks_completed : ℕ
  pub error : Option ParseError

abbrev pub parse_ok : ℕ → ℕ → ParseResult
parse_ok consumed completed = record {
  bytes_consumed = consumed;
  chunks_completed = completed;
  error = none;
}

abbrev pub parse_fail : ParseError → ParseResult
parse_fail e = record { bytes_consumed = 0; chunks_completed = 0; error = some e }

pub record ChunkData : Type 0 where
  pub chunk_stream_id : ℕ
  pub timestamp : ℕ
  pub message_length : ℕ
  pub message_type_id : ℕ
  pub message_stream_id : ℕ
  pub payload : List ℕ
  pub is_complete : Bool

pub record ChunkStreamState : Type 0 where
  pub timestamp : ℕ
  pub timestamp_delta : ℕ
  pub message_length : ℕ
  pub message_type_id : ℕ
  pub message_stream_id : ℕ
  pub has_extended_timestamp : Bool
  pub partial_payload : List ℕ
  pub remaining_bytes : ℕ
  pub remaining_chunk_bytes : ℕ

abbrev pub new_stream_state : ChunkStreamState
new_stream_state = record {
  timestamp = 0;
  timestamp_delta = 0;
  message_length = 0;
  message_type_id = 0;
  message_stream_id = 0;
  has_extended_timestamp = false;
  partial_payload = [];
  remaining_bytes = 0;
  remaining_chunk_bytes = 0;
}

unfoldable pub reset_partial : ChunkStreamState → ChunkStreamState
reset_partial s = record s { partial_payload = []; remaining_bytes = 0; remaining_chunk_bytes = 0 }

pub record ChunkParser : Type 0 where
  pub chunk_size : ℕ
  pub chunk_streams : List (ℕ × ChunkStreamState)
  pub completed_chunks : List ChunkData
  pub pending_chunk_csid : ℕ
  pub pending_chunk_bytes : ℕ

unfoldable pub new_parser : ChunkParser
new_parser = record {
  chunk_size = default_chunk_size;
  chunk_streams = [];
  completed_chunks = [];
  pending_chunk_csid = 0;
  pending_chunk_bytes = 0;
}

-- The clamp of `setChunkSize`.
unfoldable pub clamp_chunk_size : ℕ → ℕ
clamp_chunk_size size =
    if ltb size min_chunk_size
    then min_chunk_size
    else if ltb max_chunk_size size
    then max_chunk_size
    else size

unfoldable pub set_chunk_size : ℕ → ChunkParser → ChunkParser
set_chunk_size size p = record p { chunk_size = clamp_chunk_size size }

unfoldable pub abort_chunk_stream : ℕ → ChunkParser → ChunkParser
abort_chunk_stream csid p = elim (find csid p.chunk_streams) [
  | none ↦ p
  | some s ↦ record p { chunk_streams = insert csid (reset_partial s) p.chunk_streams }
]

unfoldable pub get_completed_chunks : ChunkParser → List ChunkData × ChunkParser
get_completed_chunks p = (p.completed_chunks, record p { completed_chunks = [] })

-- `chunkStreams_[csid]`, the value: a missing entry is created with default values.
unfoldable pub stream_state : ℕ → ChunkParser → ChunkStreamState
stream_state csid p = elim (find csid p.chunk_streams) [ none ↦ new_stream_state | some s ↦ s ]

-- `chunkStreams_[csid] = s`.
abbrev pub put_stream_state : ℕ → ChunkStreamState → ChunkParser → ChunkParser
put_stream_state csid s p = record p { chunk_streams = insert csid s p.chunk_streams }

unfoldable pub has_chunk_stream_state : ℕ → ChunkParser → Bool
has_chunk_stream_state csid p = contains csid p.chunk_streams
