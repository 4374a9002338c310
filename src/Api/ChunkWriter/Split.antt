-- ===== src/Api/ChunkWriter/Split.antt =====
-- A chunk with a timestamp delta whose header arrives before its payload: `parse` asks for more data
-- and consumes nothing, but keeps what the header did to the stream's state.
use open_rtmp_claude_kiro.Common.{
  List, [], add32, ap, append-nil, append_assoc, arith, false, inl, inr, length, length-append,
  refl, some, sym, ℕ, ◌%◌, ◌++◌, ◌+◌, ◌/◌, ◌<◌, ◌^◌, ◌∙◌, ◌∷◌, ◌≡◌, ◌≤◌, ◌⊎◌,
}
use open_rtmp_claude_kiro.Api.ChunkWriter.{basic_header}
use open_rtmp_claude_kiro.Api.ChunkWriter.Body.{drop-append, holding}
use open_rtmp_claude_kiro.Api.ChunkWriter.Headers.{IsCsid, length-basic_header, parse-basic_header}
use open_rtmp_claude_kiro.Api.ChunkWriter.Loop.{
  IsReady, complete_chunk-put, parse_round-ready, put-put, read_chunk-headers, run-last,
  stream_state-put,
}
use open_rtmp_claude_kiro.Api.ChunkWriter.RoundTrip.{IsIdle}
use open_rtmp_claude_kiro.Protocol.ChunkParser.Header.{
  parse_extended, parse_message_header, start_message,
}
use open_rtmp_claude_kiro.Protocol.ChunkParser.Rounds.{
  complete_chunk, parse, parse_round, read_payload, stop,
}
use open_rtmp_claude_kiro.Protocol.ChunkParser.State.{
  ChunkParser, ChunkStreamState, parse_ok, put_stream_state, stream_state,
}
use open_rtmp_claude_kiro.Protocol.ChunkParser.Total.{run-nil, run-stop}

-- A Type 1 message header: delta, length, type.
abbrev pub delta_bytes : ℕ → ℕ → ℕ → List ℕ
delta_bytes delta len type_id =
    (delta / 65536 % 256)
    ∷ (delta / 256 % 256)
    ∷ (delta % 256)
    ∷ (len / 65536 % 256)
    ∷ (len / 256 % 256)
    ∷ (len % 256)
    ∷ type_id
    ∷ []

abbrev pub delta_state : ℕ → ℕ → ℕ → ChunkStreamState → ChunkStreamState
delta_state delta len type_id s = record s {
  timestamp = add32 s.timestamp delta;
  timestamp_delta = delta;
  message_length = len;
  message_type_id = type_id;
  has_extended_timestamp = false;
}

parse-delta_bytes :
    (delta len type_id : ℕ) (rest : List ℕ) (s : ChunkStreamState)
    → delta < 0xFFFFFF
    → len < 2 ^ 24
    → parse_message_header 1 (delta_bytes delta len type_id ++ rest) s
      ≡ some (delta_state delta len type_id s, 7)
unfolding parse_message_header
parse-delta_bytes delta len type_id rest s hd hl = ground arith

start_message-new :
    (s : ChunkStreamState)
    → s.partial_payload ≡ []
    → (s.remaining_bytes ≡ 0) ⊎ (s.remaining_bytes ≡ s.message_length)
    → start_message s ≡ holding [] s.message_length s
unfolding start_message
start_message-new s e h = ground arith

-- No byte of the payload is there.
read_payload-none :
    (csid : ℕ) (s : ChunkStreamState) (p : ChunkParser) (bytes : List ℕ)
    → 1 ≤ p.chunk_size
    → 1 ≤ (start_message s).remaining_bytes
    → read_payload csid s (length bytes) p bytes
      ≡ stop (put_stream_state csid (start_message s) p) 0
unfolding read_payload
read_payload-none csid s p bytes h₁ h₂ = ground arith

module _ (csid delta len type_id cs : ℕ) (hc : IsCsid csid) (hd : delta < 0xFFFFFF) (h1 : 1 ≤ len)
    (hl : len ≤ cs) (h24 : len < 2 ^ 24) where
  abbrev pub header : List ℕ
  header = basic_header 1 csid ++ delta_bytes delta len type_id

  some_header : 1 ≤ length header
  some_header = omega (
    arith,
    length-basic_header 1 csid,
    length-append (basic_header 1 csid) (delta_bytes delta len type_id),
  )

  header_round :
      (p : ChunkParser) (body : List ℕ)
      → IsReady cs p
      → parse_round p (header ++ body)
        ≡ read_payload csid
            (delta_state delta len type_id (stream_state csid p))
            (length header)
            (put_stream_state csid (stream_state csid p) p)
            (header ++ body)
  header_round p body r =
      let b = basic_header 1 csid in
      let d = delta_bytes delta len type_id in
      let s = stream_state csid p in
      parse_round-ready (header ++ body) r
      ∙ rw (append_assoc b d body) (
          read_chunk-headers (record { fmt = 1; csid = csid; header_size = length b }) p
            (b ++ (d ++ body)) {s = delta_state delta len type_id s}
            {s' = delta_state delta len type_id s} {n = 7} {m = 0} {size = length header}
            (parse-basic_header 1 csid (d ++ body) (omega arith) hc)
            (rw (drop-append b (d ++ body) (length b) refl)
              (parse-delta_bytes delta len type_id body s hd h24))
            (unfold parse_extended in refl) (omega (arith, length-append b d)))

  bound : length header ≤ 10
  bound = omega (
    arith,
    length-basic_header 1 csid,
    length-append (basic_header 1 csid) (delta_bytes delta len type_id),
  )

  -- The whole chunk at once.
  run-header :
      (p : ChunkParser) (payload : List ℕ)
      → IsReady cs p
      → length payload ≡ len
      → ((stream_state csid p).partial_payload ≡ [])
      → ((stream_state csid p).remaining_bytes ≡ 0) ⊎ ((stream_state csid p).remaining_bytes ≡ len)
      → parse p (header ++ payload)
        ≡ some (
          parse_ok (length (header ++ payload)) 1,
          complete_chunk csid
              (holding payload 0 (delta_state delta len type_id (stream_state csid p)))
              p,
        )
  unfolding parse
  run-header p payload r e h₁ h₂ =
      let s = stream_state csid p in
      let d = delta_state delta len type_id s in
      let a = start_message-new d h₁ h₂ in
      let bytes : List ℕ = header ++ payload in
      let same : header ++ (payload ++ []) ≡ bytes = rw append-nil refl in
      rw (← same) (
        run-last csid cs d p (put_stream_state csid s p) header r.agreed some_header
          (λ body. header_round p body r) payload [] 0 0 (rw a (sym e)) (omega arith)
          (omega (arith, bound, length-append header (payload ++ []), length-append payload []))
        ∙ rw a (
            rw (complete_chunk-put csid (holding payload 0 d) s p) (
              run-nil (complete_chunk csid (holding payload 0 d) p)
                (0 + (length header + length payload)) (0 + 1)
              ∙ ap (λ n. some (parse_ok n 1, complete_chunk csid (holding payload 0 d) p))
                  (omega (arith, length-append header (payload ++ []), length-append payload [])))))

  -- Its header alone.
  run-alone :
      (p : ChunkParser)
      → IsReady cs p
      → IsIdle (stream_state csid p)
      → parse p header
        ≡ some (
          parse_ok 0 0,
          put_stream_state csid
              (holding [] len (delta_state delta len type_id (stream_state csid p)))
              p,
        )
  unfolding parse
  run-alone p r i =
      let s = stream_state csid p in
      let d = delta_state delta len type_id s in
      let a = start_message-new d i.empty (inl i.complete) in
      run-stop p (put_stream_state csid (holding [] len d) p) header 0 0 0 some_header (
        rw (append-nil header) at (header_round p [] r)
        ∙ read_payload-none csid d (put_stream_state csid s p) header (omega arith) (rw a h1)
        ∙ rw a (rw (put-put csid (holding [] len d) s p) refl))

-- On an idle chunk stream, a Type 1 chunk with a whole message of 1 to `cs` bytes moves the stream's
-- clock by `delta` if it comes in one piece. If its header comes first, alone, `parse` consumes
-- nothing; when the header is given again with the payload, the message is stamped `2 * delta` later,
-- not `delta` (timestamps wrap at 2 ^ 32).
pub split_header_adds_delta_twice :
    (csid delta type_id cs : ℕ) (payload : List ℕ) (p : ChunkParser)
    → IsCsid csid
    → delta < 0xFFFFFF
    → 1 ≤ length payload
    → length payload ≤ cs
    → length payload < 2 ^ 24
    → IsReady cs p
    → IsIdle (stream_state csid p)
    → (q : ChunkParser) × (parse p
          (basic_header 1 csid ++ delta_bytes delta (length payload) type_id)
        ≡ some (parse_ok 0 0, q))
      × (parse q ((basic_header 1 csid ++ delta_bytes delta (length payload) type_id) ++ payload)
          ≡ some (
            parse_ok
                (length
                  ((basic_header 1 csid ++ delta_bytes delta (length payload) type_id) ++ payload))
                1,
            complete_chunk csid
                (record (holding payload 0
                  (delta_state delta (length payload) type_id (stream_state csid p))) {
                    timestamp = add32 (add32 (stream_state csid p).timestamp delta) delta;
                  })
                p,
          ))
      × (parse p ((basic_header 1 csid ++ delta_bytes delta (length payload) type_id) ++ payload)
          ≡ some (
            parse_ok
                (length
                  ((basic_header 1 csid ++ delta_bytes delta (length payload) type_id) ++ payload))
                1,
            complete_chunk csid
                (holding payload 0
                  (delta_state delta (length payload) type_id (stream_state csid p)))
                p,
          ))
split_header_adds_delta_twice csid delta type_id cs payload p hc hd h1 hl h24 r i =
    let len = length payload in
    let d = delta_state delta len type_id (stream_state csid p) in
    let s = holding [] len d in
    let q = put_stream_state csid s p in
    let e = stream_state-put csid s p in
    (
      q,
      run-alone csid delta len type_id cs hc hd h1 hl h24 p r i,
      run-header csid delta len type_id cs hc hd h1 hl h24 q payload
            (record { nothing_pending = r.nothing_pending; agreed = r.agreed }) refl
            (ap (λ t. t.partial_payload) e) (inr (ap (λ t. t.remaining_bytes) e))
          ∙ rw e (
              rw (complete_chunk-put csid (holding payload 0 (delta_state delta len type_id s)) s p)
                refl),
      run-header csid delta len type_id cs hc hd h1 hl h24 p payload r refl i.empty
          (inl i.complete),
    )
