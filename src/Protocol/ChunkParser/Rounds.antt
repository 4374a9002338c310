-- ===== src/Protocol/ChunkParser/Rounds.antt =====
-- The loop of ChunkParser::parse, src/protocol/chunk_parser.cpp. A buffer (pointer and length) is
-- a list of bytes; a null pointer is the empty list, which `parse` treats alike.
use open_rtmp_claude_kiro.Common.{
  ℕ, zero, suc, ◌+◌, ◌-◌, ◌%◌, min, true, not, ◌&&◌, Option, none, some, List, [], ◌∷◌, ◌++◌, ltb,
  ◌==◌, length, get_or, take, drop, u32, sub32, join32, if◌then◌else◌,
}
use open_rtmp_claude_kiro.Protocol.ChunkParser.State.{
  msg_type_set_chunk_size, msg_type_abort, ParseError, ParseResult, parse_ok, parse_fail, ChunkData,
  ChunkStreamState, ChunkParser, set_chunk_size, abort_chunk_stream, stream_state, put_stream_state,
  has_chunk_stream_state, unknown_chunk_stream,
}
use open_rtmp_claude_kiro.Protocol.ChunkParser.Header.{
  BasicHeader, parse_basic_header, parse_message_header, parse_extended, start_message,
}

-- Set Chunk Size and Abort, on message stream 0.
unfoldable pub process_protocol_control : ChunkData → ChunkParser → ChunkParser
process_protocol_control c p =
    let b0 = get_or c.payload 0 0 in
    let b1 = get_or c.payload 1 0 in
    let b2 = get_or c.payload 2 0 in
    let b3 = get_or c.payload 3 0 in
    if not (c.message_stream_id == 0)
    then p
    else if c.message_type_id == msg_type_set_chunk_size
    then if ltb (length c.payload) 4 then p else set_chunk_size (join32 (b0 % 128) b1 b2 b3) p
    else if c.message_type_id == msg_type_abort
    then if ltb (length c.payload) 4 then p else abort_chunk_stream (join32 b0 b1 b2 b3) p
    else p

unfoldable pub completed_chunk : ℕ → ChunkStreamState → ChunkData
completed_chunk csid s = record {
  chunk_stream_id = csid;
  timestamp = s.timestamp;
  message_length = s.message_length;
  message_type_id = s.message_type_id;
  message_stream_id = s.message_stream_id;
  payload = s.partial_payload;
  is_complete = true;
}

-- A message is complete: its chunk is built, the partial payload cleared, the control message
-- processed, and the chunk pushed.
unfoldable pub complete_chunk : ℕ → ChunkStreamState → ChunkParser → ChunkParser
complete_chunk csid s p =
    let c = completed_chunk csid s in
    let q =
      process_protocol_control c (put_stream_state csid (record s { partial_payload = [] }) p) in
    record q { completed_chunks = q.completed_chunks ++ (c ∷ []) }

-- One round of the loop of `parse`. `again` goes on behind the bytes consumed and counts the
-- chunks completed; `stop` is a `break`, behind the bytes consumed; `fail` returns the error.
pub data Round : Type 0 where
  again : ChunkParser → ℕ → ℕ → Round
  stop : ChunkParser → ℕ → Round
  fail : ChunkParser → ParseError → Round

-- The bytes that the current chunk still lacks from an earlier call.
unfoldable pub read_pending : ChunkParser → List ℕ → Round
read_pending p bytes =
    let csid = p.pending_chunk_csid in
    let n = min p.pending_chunk_bytes (u32 (length bytes)) in
    let s = stream_state csid p in
    let s' = record s {
      partial_payload = s.partial_payload ++ take n bytes;
      remaining_bytes = sub32 s.remaining_bytes n;
    } in
    let left = sub32 p.pending_chunk_bytes n in
    let q = record (put_stream_state csid s' p) { pending_chunk_bytes = left } in
    let r = record q { pending_chunk_csid = 0 } in
    if left == 0
    then if s'.remaining_bytes == 0 then again (complete_chunk csid s' r) n 1 else again r n 0
    else again q n 0

-- The payload of one chunk. `s` is the stream's state behind the headers, `size` their size.
unfoldable pub read_payload : ℕ → ChunkStreamState → ℕ → ChunkParser → List ℕ → Round
read_payload csid s₀ size p bytes =
    let s = start_message s₀ in
    let wanted = min p.chunk_size s.remaining_bytes in
    let available = length bytes - size in
    let payload = drop size bytes in
    let part = record s {
      partial_payload = s.partial_payload ++ take available payload;
      remaining_bytes = sub32 s.remaining_bytes (u32 available);
    } in
    let full = record s {
      partial_payload = s.partial_payload ++ take wanted payload;
      remaining_bytes = sub32 s.remaining_bytes wanted;
    } in
    if ltb (length bytes) size
    then stop (put_stream_state csid s p) 0
    else if ltb available wanted
    then if ltb 0 available
      then stop
          (record (put_stream_state csid part p) {
            pending_chunk_csid = csid;
            pending_chunk_bytes = sub32 wanted (u32 available);
          })
          (size + available)
      else stop (put_stream_state csid s p) 0
    else if full.remaining_bytes == 0
    then again (complete_chunk csid full p) (size + wanted) 1
    else again (put_stream_state csid full p) (size + wanted) 0

-- A chunk behind its basic header. `state` is a reference: an early `break` keeps its changes.
unfoldable pub read_message_header : BasicHeader → ChunkParser → List ℕ → Round
read_message_header h p bytes =
    elim (parse_message_header h.fmt (drop h.header_size bytes) (stream_state h.csid p)) [
      | none ↦ stop p 0
      | some (s, n) ↦ elim (parse_extended h.fmt (drop (h.header_size + n) bytes) s) [
        | none ↦ stop (put_stream_state h.csid s p) 0
        | some (s', m) ↦ read_payload h.csid s' (h.header_size + n + m) p bytes
      ]
    ]

unfoldable pub read_chunk : ChunkParser → List ℕ → Round
read_chunk p bytes = elim (parse_basic_header bytes) [
  | none ↦ stop p 0
  | some h ↦
      let q = put_stream_state h.csid (stream_state h.csid p) p in
      if h.fmt == 3 && not (has_chunk_stream_state h.csid q)
      then fail q
          (record { code = unknown_chunk_stream; message = "Type 3 chunk on uninitialized stream" })
      else read_message_header h q bytes
]

unfoldable pub parse_round : ChunkParser → List ℕ → Round
parse_round p bytes =
    if ltb 0 p.pending_chunk_bytes && not (p.pending_chunk_csid == 0)
    then read_pending p bytes
    else read_chunk p bytes

-- The loop; `none` is no result of the code: the fuel ran out.
unfoldable pub parse_loop : ℕ → ChunkParser → List ℕ → ℕ → ℕ → Option (ParseResult × ChunkParser)
parse_loop fuel p [] consumed completed = some (parse_ok consumed completed, p)
parse_loop zero p (b ∷ bytes) consumed completed = none
parse_loop (suc fuel) p (b ∷ bytes) consumed completed = elim (parse_round p (b ∷ bytes)) [
  | again q n k ↦ parse_loop fuel q (drop n (b ∷ bytes)) (consumed + n) (completed + k)
  | stop q n ↦ some (parse_ok (consumed + n) completed, q)
  | fail q e ↦ some (parse_fail e, q)
]

-- Each round that goes on consumes a byte, so one unit of fuel for each byte is enough.
unfoldable pub parse : ChunkParser → List ℕ → Option (ParseResult × ChunkParser)
parse p bytes = parse_loop (length bytes) p bytes 0 0
