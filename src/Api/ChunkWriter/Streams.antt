-- ===== src/Api/ChunkWriter/Streams.antt =====
-- The round trip of one message.
use open_rtmp_claude_kiro.Common.{
  List, [], ap, append-nil, append_assoc, arith, length, length-append, refl, some, sym, true, ℕ,
  ◌++◌, ◌+◌, ◌<◌, ◌^◌, ◌∙◌, ◌≡◌, ◌≤◌,
}
use open_rtmp_claude_kiro.Common.Maps.{nat_eq}
use open_rtmp_claude_kiro.Api.ChunkWriter.{
  basic_header, extended_timestamp, message_header, serialize_chunk, write_payload,
}
use open_rtmp_claude_kiro.Api.ChunkWriter.Headers.{
  length-basic_header, length-extended_timestamp, length-message_header,
}
use open_rtmp_claude_kiro.Api.ChunkWriter.Loop.{IsReady}
use open_rtmp_claude_kiro.Api.ChunkWriter.RoundTrip.{
  IsIdle, IsMessage, message_head, run-body, whole_state,
}
use open_rtmp_claude_kiro.Api.ChunkWriter.Total.{write_payload-total}
use open_rtmp_claude_kiro.Protocol.ChunkParser.Rounds.{complete_chunk, parse}
use open_rtmp_claude_kiro.Protocol.ChunkParser.State.{ChunkParser, parse_ok, stream_state}
use open_rtmp_claude_kiro.Protocol.ChunkParser.Total.{run-nil}

pub serialize_chunk-eq :
    (csid ts type_id sid cs : ℕ) (payload : List ℕ) {body : List ℕ}
    → write_payload (length payload) true csid ts cs payload ≡ some body
    → serialize_chunk csid ts (length payload) type_id sid payload cs
      ≡ some (message_head csid ts type_id sid payload ++ body)
unfolding serialize_chunk
serialize_chunk-eq csid ts type_id sid cs payload {body} w = rw w (
    ap some (
      sym (
        append_assoc (basic_header 0 csid)
          (message_header ts (length payload) type_id sid ++ extended_timestamp ts) body
        ∙ ap (λ t. basic_header 0 csid ++ t)
            (append_assoc (message_header ts (length payload) type_id sid) (extended_timestamp ts)
              body))))

length-message_head :
    (csid ts type_id sid : ℕ) (payload : List ℕ)
    → length (message_head csid ts type_id sid payload) ≤ 18
length-message_head csid ts type_id sid payload =
    let m = message_header ts (length payload) type_id sid in
    omega (
      arith,
      length-append (basic_header 0 csid) (m ++ extended_timestamp ts),
      length-append m (extended_timestamp ts),
      length-basic_header 0 csid,
      length-message_header ts (length payload) type_id sid,
      length-extended_timestamp ts,
    )

-- For every message whose fields fit the header, and every parser that has nothing pending, uses
-- the writer's chunk size (at least 1) and is between messages of that chunk stream: the serializer
-- returns bytes, and `parse` consumes all of them, completes exactly one chunk, and processes that
-- chunk, which has the message's timestamp, length, type, stream and payload.
pub parse-serialize_chunk :
    (csid ts type_id sid cs : ℕ) (payload : List ℕ) (p : ChunkParser)
    → IsMessage csid ts sid payload
    → 1 ≤ cs
    → IsReady cs p
    → IsIdle (stream_state csid p)
    → (out : List ℕ) × (serialize_chunk csid ts (length payload) type_id sid payload cs ≡ some out)
      × (parse p out
          ≡ some (
            parse_ok (length out) 1,
            complete_chunk csid (whole_state ts type_id sid payload (stream_state csid p)) p,
          ))
unfolding parse
parse-serialize_chunk csid ts type_id sid cs payload p v hs r i =
    let (body, w, l) =
      write_payload-total (length payload) true csid ts cs payload hs (omega arith) in
    let head : List ℕ = message_head csid ts type_id sid payload in
    let bound : length (head ++ (body ++ [])) < 2 ^ 32 = omega (
      arith,
      l,
      v.short,
      length-message_head csid ts type_id sid payload,
      length-append head (body ++ []),
      length-append body [],
    ) in
    let q = complete_chunk csid (whole_state ts type_id sid payload (stream_state csid p)) p in
    (
      head ++ body,
      serialize_chunk-eq csid ts type_id sid cs payload w,
      rw (append-nil body) at (
            run-body csid ts type_id sid cs payload body [] p (stream_state csid p) 0 0 v hs r refl
              i w bound)
          ∙ run-nil q (0 + (length head + length body)) (0 + 1)
          ∙ ap (λ n. some (parse_ok n 1, q)) (omega (arith, length-append head body)),
    )
