-- ===== src/Api/ChunkWriter/Control.antt =====
-- The protocol control messages that the server builds, as a parser takes them.
use open_rtmp_claude_kiro.Common.{
  List, Option-cases, [], ap, arith, if◌then◌else◌, inl, inr, join32, length, refl, some, ℕ, ◌%◌,
  ◌/◌, ◌<◌, ◌==◌, ◌^◌, ◌∙◌, ◌≡◌, ◌≢◌,
}
use open_rtmp_claude_kiro.Common.Maps.{find, find-insert, nat_eq}
use open_rtmp_claude_kiro.Api.ChunkWriter.{build_protocol_control_message, word_bytes}
use open_rtmp_claude_kiro.Api.ChunkWriter.Loop.{IsReady}
use open_rtmp_claude_kiro.Api.ChunkWriter.RoundTrip.{IsIdle, IsMessage, whole_state}
use open_rtmp_claude_kiro.Api.ChunkWriter.Streams.{parse-serialize_chunk}
use open_rtmp_claude_kiro.Protocol.ChunkParser.Rounds.{
  complete_chunk, completed_chunk, parse, process_protocol_control,
}
use open_rtmp_claude_kiro.Protocol.ChunkParser.State.{
  ChunkParser, ChunkStreamState, abort_chunk_stream, clamp_chunk_size, parse_ok, put_stream_state,
  reset_partial, set_chunk_size, stream_state,
}

word_bytes-IsMessage : (v : ℕ) → IsMessage 2 0 0 (word_bytes v)
unfolding word_bytes
word_bytes-IsMessage v = record {
  stream = (omega arith, omega arith);
  clock = omega arith;
  stream_id = omega arith;
  short = omega arith;
}

-- A parser with the default chunk size that has nothing pending and is between messages of chunk
-- stream 2 takes the Set Chunk Size message for `v`, any uint32_t: it consumes all of it, and then
-- its chunk size is `v` without the top bit, clamped to the range from 128 to 65536.
pub parse-set_chunk_size :
    (v : ℕ) (p : ChunkParser)
    → v < 2 ^ 32
    → IsReady 128 p
    → IsIdle (stream_state 2 p)
    → (out : List ℕ) × (q : ChunkParser) × (build_protocol_control_message 1 v ≡ some out)
      × (parse p out ≡ some (parse_ok (length out) 1, q))
      × (q.chunk_size ≡ clamp_chunk_size (v % 2 ^ 31))
unfolding build_protocol_control_message
parse-set_chunk_size v p hv r i =
    let (out, e, f) =
      parse-serialize_chunk 2 0 1 0 128 (word_bytes v) p (word_bytes-IsMessage v) (omega arith) r
        i in
    let s : ChunkStreamState = whole_state 0 1 0 (word_bytes v) (stream_state 2 p) in
    (out, complete_chunk 2 s p, unfold word_bytes in e, f, adopted)
  where
    adopted :
        (complete_chunk 2 (whole_state 0 1 0 (word_bytes v) (stream_state 2 p)) p).chunk_size
        ≡ clamp_chunk_size (v % 2 ^ 31)
    adopted =
        unfold complete_chunk process_protocol_control completed_chunk set_chunk_size word_bytes in
        ap clamp_chunk_size (omega arith)

stream_state-abort :
    (c j : ℕ) (p : ChunkParser)
    → stream_state j (abort_chunk_stream c p)
      ≡ (if c == j then reset_partial (stream_state j p) else stream_state j p)
unfolding abort_chunk_stream stream_state reset_partial
stream_state-abort c j p = elim (Option-cases (find c p.chunk_streams)) [
  | inl e ↦ ground (arith, e)
  | inr (s, e) ↦ ground (arith, e, find-insert c j (reset_partial s) p.chunk_streams)
]

stream_state-insert :
    (csid j : ℕ) (s : ChunkStreamState) (p : ChunkParser)
    → stream_state j (put_stream_state csid s p) ≡ (if csid == j then s else stream_state j p)
unfolding stream_state
stream_state-insert csid j s p = ground (arith, find-insert csid j s p.chunk_streams)

stream_state-ap :
    (p q : ChunkParser) (j : ℕ)
    → p.chunk_streams ≡ q.chunk_streams
    → stream_state j p ≡ stream_state j q
unfolding stream_state
stream_state-ap p q j e = rw e

chunk_streams-abort :
    (c : ℕ) (s : ChunkStreamState) (p : ChunkParser)
    → c < 2 ^ 32
    → (complete_chunk 2 (whole_state 0 2 0 (word_bytes c) s) p).chunk_streams
      ≡ (abort_chunk_stream c (
          put_stream_state 2
            (record (whole_state 0 2 0 (word_bytes c) s) { partial_payload = [] })
            p)).chunk_streams
unfolding complete_chunk process_protocol_control completed_chunk word_bytes
chunk_streams-abort c s p hc =
    let q =
      put_stream_state 2 (record (whole_state 0 2 0 (word_bytes c) s) { partial_payload = [] }) p in
    let target : join32 (c / 16777216 % 256) (c / 65536 % 256) (c / 256 % 256) (c % 256) ≡ c =
      omega arith in
    ap (λ k. (abort_chunk_stream k q).chunk_streams) target

-- A parser with the default chunk size that has nothing pending and is between messages of chunk
-- stream 2 takes the Abort message for chunk stream `c`, any uint32_t: it consumes all of it, and
-- every stream but 2 keeps its state, except that `c` loses its partial message.
pub parse-abort :
    (c : ℕ) (p : ChunkParser)
    → c < 2 ^ 32
    → IsReady 128 p
    → IsIdle (stream_state 2 p)
    → (out : List ℕ) × (q : ChunkParser) × (build_protocol_control_message 2 c ≡ some out)
      × (parse p out ≡ some (parse_ok (length out) 1, q))
      × ((j : ℕ)
          → j ≢ 2
          → stream_state j q
            ≡ (if c == j then reset_partial (stream_state j p) else stream_state j p))
unfolding build_protocol_control_message
parse-abort c p hc r i =
    let (out, e, f) =
      parse-serialize_chunk 2 0 2 0 128 (word_bytes c) p (word_bytes-IsMessage c) (omega arith) r
        i in
    let s : ChunkStreamState = whole_state 0 2 0 (word_bytes c) (stream_state 2 p) in
    (out, complete_chunk 2 s p, unfold word_bytes in e, f, kept)
  where
    kept :
        (j : ℕ)
        → j ≢ 2
        → stream_state j (complete_chunk 2 (whole_state 0 2 0 (word_bytes c) (stream_state 2 p)) p)
          ≡ (if c == j then reset_partial (stream_state j p) else stream_state j p)
    kept j hj =
        let s = whole_state 0 2 0 (word_bytes c) (stream_state 2 p) in
        let s₀ = record s { partial_payload = [] } in
        stream_state-ap (complete_chunk 2 s p) (abort_chunk_stream c (put_stream_state 2 s₀ p)) j
          (chunk_streams-abort c (stream_state 2 p) p hc)
        ∙ stream_state-abort c j (put_stream_state 2 s₀ p)
        ∙ rw (other j s₀ hj) refl
      where
        other :
            (j : ℕ) (s₀ : ChunkStreamState)
            → j ≢ 2
            → stream_state j (put_stream_state 2 s₀ p) ≡ stream_state j p
        other j s₀ hj = ground (arith, stream_state-insert 2 j s₀ p)
