-- ===== src/Api/ChunkWriter/Loop.antt =====
-- The parser's loop on the chunks that the serializer writes for one message.
use open_rtmp_claude_kiro.Common.{
  List, [], ap, append_assoc, arith, drop, leb, length, length-append, refl, some, ℕ, ◌++◌, ◌+◌,
  ◌-◌, ◌<◌, ◌^◌, ◌∙◌, ◌≡◌, ◌≤◌,
}
use open_rtmp_claude_kiro.Common.Maps.{find-insert_self, insert-insert}
use open_rtmp_claude_kiro.Api.ChunkWriter.{basic_header, extended_timestamp}
use open_rtmp_claude_kiro.Api.ChunkWriter.Body.{
  drop-append, holding, read_payload-last, read_payload-more,
}
use open_rtmp_claude_kiro.Api.ChunkWriter.Headers.{
  IsCsid, parse-basic_header, parse-extended_continuation,
}
use open_rtmp_claude_kiro.Protocol.ChunkParser.Header.{
  BasicHeader, parse_basic_header, parse_extended, parse_message_header, start_message,
}
use open_rtmp_claude_kiro.Protocol.ChunkParser.Rounds.{
  complete_chunk, parse_round, read_chunk, read_payload,
}
use open_rtmp_claude_kiro.Protocol.ChunkParser.State.{
  ChunkParser, ChunkStreamState, put_stream_state, stream_state,
}
use open_rtmp_claude_kiro.Protocol.ChunkParser.Total.{
  read_chunk-some, read_message_header-some, run, run-again,
}

-- What the parser must hold for chunks of stream `csid` to be read one after the other: nothing
-- pending, and the chunk size of the writer.
pub record IsReady (chunk_size : ℕ) (p : ChunkParser) : Type 0 where
  pub nothing_pending : p.pending_chunk_bytes ≡ 0
  pub agreed : p.chunk_size ≡ chunk_size

pub parse_round-ready :
    {cs : ℕ} {p : ChunkParser} (bytes : List ℕ)
    → IsReady cs p
    → parse_round p bytes ≡ read_chunk p bytes
unfolding parse_round
parse_round-ready bytes r = ground arith

pub stream_state-put :
    (csid : ℕ) (s : ChunkStreamState) (p : ChunkParser)
    → stream_state csid (put_stream_state csid s p) ≡ s
unfolding stream_state
stream_state-put csid s p = rw (find-insert_self csid s p.chunk_streams, stream_state) refl

pub put-put :
    (csid : ℕ) (s t : ChunkStreamState) (p : ChunkParser)
    → put_stream_state csid s (put_stream_state csid t p) ≡ put_stream_state csid s p
put-put csid s t p = rw (insert-insert csid s t p.chunk_streams)

-- A chunk of a stream is read into its state, whatever the state was stored as before.
pub complete_chunk-put :
    (csid : ℕ) (s t : ChunkStreamState) (p : ChunkParser)
    → complete_chunk csid s (put_stream_state csid t p) ≡ complete_chunk csid s p
unfolding complete_chunk
complete_chunk-put csid s t p =
    rw (insert-insert csid (record s { partial_payload = [] }) t p.chunk_streams)

-- A chunk whose headers are all there, from what the parts of the parser make of them.
pub read_chunk-headers :
    (h : BasicHeader) (p : ChunkParser) (bytes : List ℕ) {s s' : ChunkStreamState} {n m size : ℕ}
    → parse_basic_header bytes ≡ some h
    → parse_message_header h.fmt (drop h.header_size bytes) (stream_state h.csid p) ≡ some (s, n)
    → parse_extended h.fmt (drop (h.header_size + n) bytes) s ≡ some (s', m)
    → h.header_size + n + m ≡ size
    → read_chunk p bytes
      ≡ read_payload h.csid s' size (put_stream_state h.csid (stream_state h.csid p) p) bytes
read_chunk-headers h p bytes {s' = s'} {size = size} e₁ e₂ e₃ e₄ =
    let q = put_stream_state h.csid (stream_state h.csid p) p in
    read_chunk-some p bytes e₁
    ∙ read_message_header-some h q bytes (rw (stream_state-put h.csid (stream_state h.csid p) p) e₂)
        e₃
    ∙ ap (λ k. read_payload h.csid s' k q bytes) e₄

-- The headers of a continuation chunk.
pub read_chunk-continuation :
    (csid ts : ℕ) (p : ChunkParser) (body : List ℕ)
    → IsCsid csid
    → (stream_state csid p).has_extended_timestamp ≡ leb 0xFFFFFF ts
    → 0 < (stream_state csid p).remaining_bytes
    → read_chunk p ((basic_header 3 csid ++ extended_timestamp ts) ++ body)
      ≡ read_payload csid
          (stream_state csid p)
          (length (basic_header 3 csid ++ extended_timestamp ts))
          (put_stream_state csid (stream_state csid p) p)
          ((basic_header 3 csid ++ extended_timestamp ts) ++ body)
unfolding parse_message_header
read_chunk-continuation csid ts p body hc he hr =
    let b = basic_header 3 csid in
    let x = extended_timestamp ts in
    rw (append_assoc b x body) (
      read_chunk-headers (record { fmt = 3; csid = csid; header_size = length b }) p
        (b ++ (x ++ body)) {n = 0} {m = length x}
        (parse-basic_header 3 csid (x ++ body) (omega arith) hc) refl
        (rw (drop-append b (x ++ body) (length b + 0) (omega arith))
          (parse-extended_continuation ts body (stream_state csid p) he hr))
        (omega (arith, length-append b x)))

-- The rounds over one message, for a parser `p` that reads the headers `head` to the state `s`.
module _ (csid cs : ℕ) (s : ChunkStreamState) (p q : ChunkParser) (head : List ℕ)
    (agreed : q.chunk_size ≡ cs) (some_head : 1 ≤ length head)
    (round : (body : List ℕ)
      → parse_round p (head ++ body) ≡ read_payload csid s (length head) q (head ++ body)) where
  behind :
      (chunk more : List ℕ) → drop (length head + length chunk) (head ++ (chunk ++ more)) ≡ more
  behind chunk more = rw (← append_assoc head chunk more) (
      drop-append (head ++ chunk) more (length head + length chunk)
        (omega (arith, length-append head chunk)))

  pub run-last :
      (chunk more : List ℕ) (c k : ℕ)
      → (start_message s).remaining_bytes ≡ length chunk
      → length chunk ≤ cs
      → length (head ++ (chunk ++ more)) < 2 ^ 32
      → run p (head ++ (chunk ++ more)) c k
        ≡ run
            (complete_chunk csid
              (holding ((start_message s).partial_payload ++ chunk) 0 (start_message s))
              q)
            more
            (c + (length head + length chunk))
            (k + 1)
  run-last chunk more c k e h l =
      let final = holding ((start_message s).partial_payload ++ chunk) 0 (start_message s) in
      run-again p (complete_chunk csid final q) (head ++ (chunk ++ more)) c k
        (length head + length chunk) 1 (omega (arith, length-append head (chunk ++ more))) l
        (round (chunk ++ more)
          ∙ read_payload-last csid s q head chunk more (length head) refl e (rw agreed h)
              (omega (arith, length-append head (chunk ++ more), length-append chunk more)))
      ∙ ap
          (λ bytes.
            run (complete_chunk csid final q) bytes (c + (length head + length chunk)) (k + 1))
          (behind chunk more)

  pub run-more :
      (chunk more : List ℕ) (c k n : ℕ)
      → (start_message s).remaining_bytes ≡ n
      → cs < n
      → n < 2 ^ 32
      → length chunk ≡ cs
      → length (head ++ (chunk ++ more)) < 2 ^ 32
      → run p (head ++ (chunk ++ more)) c k
        ≡ run
            (put_stream_state csid
              (holding
                ((start_message s).partial_payload ++ chunk)
                (n - length chunk)
                (start_message s))
              q)
            more
            (c + (length head + length chunk))
            (k + 0)
  run-more chunk more c k n e h hn hc l =
      let next =
        put_stream_state csid
          (holding ((start_message s).partial_payload ++ chunk) (n - length chunk)
            (start_message s))
          q in
      run-again p next (head ++ (chunk ++ more)) c k (length head + length chunk) 0
        (omega (arith, length-append head (chunk ++ more))) l
        (round (chunk ++ more)
          ∙ read_payload-more csid s q head chunk more (length head) refl n e (rw agreed h)
              (rw agreed hc) hn)
      ∙ ap (λ bytes. run next bytes (c + (length head + length chunk)) (k + 0)) (behind chunk more)
