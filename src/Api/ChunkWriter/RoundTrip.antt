-- ===== src/Api/ChunkWriter/RoundTrip.antt =====
-- What the parser makes of a serialized message.
use open_rtmp_claude_kiro.Common.{
  List, [], ap, append-nil, append_assoc, arith, drop, drop-all, false, inl, inr, le_or_lt, length,
  length-append, length-drop, length-take, min, refl, some, take, take-all, take-append-drop, true,
  ℕ, ◌++◌, ◌+◌, ◌-◌, ◌<◌, ◌^◌, ◌∙◌, ◌∷◌, ◌≡◌, ◌≤◌,
}
use open_rtmp_claude_kiro.Api.ChunkWriter.{
  basic_header, extended_timestamp, message_header, write_payload,
}
use open_rtmp_claude_kiro.Api.ChunkWriter.Body.{drop-append, holding}
use open_rtmp_claude_kiro.Api.ChunkWriter.Headers.{
  IsCsid, header_state, length-basic_header, length-message_header, parse-basic_header,
  parse-extended_timestamp, parse-message_header, short_state,
}
use open_rtmp_claude_kiro.Api.ChunkWriter.Loop.{
  IsReady, complete_chunk-put, parse_round-ready, put-put, read_chunk-headers, run-last, run-more,
  stream_state-put,
}
use open_rtmp_claude_kiro.Api.ChunkWriter.Message.{
  run-continuation, write_payload-nil, write_payload-suc,
}
use open_rtmp_claude_kiro.Protocol.ChunkParser.Header.{start_message}
use open_rtmp_claude_kiro.Protocol.ChunkParser.Rounds.{complete_chunk, parse_round, read_payload}
use open_rtmp_claude_kiro.Protocol.ChunkParser.State.{
  ChunkParser, ChunkStreamState, put_stream_state, stream_state,
}
use open_rtmp_claude_kiro.Protocol.ChunkParser.Total.{run}
use native.Mathlib.Nat.{add-zero, add_assoc}

-- What the fields of a header can hold.
pub record IsMessage (csid ts sid : ℕ) (payload : List ℕ) : Type 0 where
  pub stream : IsCsid csid
  pub clock : ts < 2 ^ 32
  pub stream_id : sid < 2 ^ 32
  pub short : length payload < 2 ^ 24

-- No message of the chunk stream is under way.
pub record IsIdle (s : ChunkStreamState) : Type 0 where
  pub empty : s.partial_payload ≡ []
  pub complete : s.remaining_bytes ≡ 0

start_message-idle :
    (s : ChunkStreamState) → IsIdle s → start_message s ≡ holding [] s.message_length s
unfolding start_message
start_message-idle s i = ground arith

-- The stream's state when the whole of a message has been read.
abbrev pub whole_state : ℕ → ℕ → ℕ → List ℕ → ChunkStreamState → ChunkStreamState
whole_state ts type_id sid payload s =
    holding payload 0 (header_state ts (length payload) type_id sid s)

length-headers : {k : ℕ} (b m : List ℕ) → length m ≡ 11 → length b ≡ k → k + 11 ≡ length (b ++ m)
length-headers b m e k = omega (arith, e, k, length-append b m)

-- All the headers of the first chunk.
abbrev pub message_head : ℕ → ℕ → ℕ → ℕ → List ℕ → List ℕ
message_head csid ts type_id sid payload =
    basic_header 0 csid ++ (message_header ts (length payload) type_id sid ++ extended_timestamp ts)

module _ (csid ts type_id sid cs : ℕ) (payload : List ℕ) (p : ChunkParser) (s : ChunkStreamState)
    (v : IsMessage csid ts sid payload) (r : IsReady cs p) (e : stream_state csid p ≡ s)
    (i : IsIdle s) where
  abbrev first_head : List ℕ
  first_head = message_head csid ts type_id sid payload

  length-first_head :
      length first_head ≡ length (basic_header 0 csid) + (11 + length (extended_timestamp ts))
  length-first_head = omega (
    arith,
    length-message_header ts (length payload) type_id sid,
    length-append (basic_header 0 csid)
        (message_header ts (length payload) type_id sid ++ extended_timestamp ts),
    length-append (message_header ts (length payload) type_id sid) (extended_timestamp ts),
  )

  abbrev started : ChunkStreamState
  started = header_state ts (length payload) type_id sid s

  first_round :
      (body : List ℕ)
      → parse_round p (first_head ++ body)
        ≡ read_payload csid started
            (length first_head)
            (put_stream_state csid s p)
            (first_head ++ body)
  first_round body =
      let b = basic_header 0 csid in
      let m = message_header ts (length payload) type_id sid in
      let x = extended_timestamp ts in
      parse_round-ready (first_head ++ body) r
      ∙ rw (append_assoc b (m ++ x) body, append_assoc m x body)
          (rw (← e) (
            read_chunk-headers (record { fmt = 0; csid = csid; header_size = length b }) p
              (b ++ (m ++ (x ++ body)))
              {s = short_state ts (length payload) type_id sid (stream_state csid p)} {n = 11}
              {m = length x} {size = length first_head}
              (parse-basic_header 0 csid (m ++ (x ++ body)) (omega arith) v.stream)
              (rw (drop-append b (m ++ (x ++ body)) (length b) refl) (
                parse-message_header ts (length payload) type_id sid (x ++ body)
                  (stream_state csid p) v.short v.stream_id))
              (rw (← append_assoc b m (x ++ body)) (
                rw
                  (drop-append (b ++ m) (x ++ body) (length b + 11) (
                    length-headers b m (length-message_header ts (length payload) type_id sid)
                      refl))
                  (parse-extended_timestamp ts (length payload) type_id sid body
                    (stream_state csid p) v.clock)))
              (omega (arith, length-first_head))))

  some_first_head : 1 ≤ length first_head
  some_first_head = omega (arith, length-first_head, length-basic_header 0 csid)

  -- The only chunk of a message.
  run-single :
      (more : List ℕ) (c k : ℕ)
      → length payload ≤ cs
      → length (first_head ++ (payload ++ more)) < 2 ^ 32
      → run p (first_head ++ (payload ++ more)) c k
        ≡ run
            (complete_chunk csid (whole_state ts type_id sid payload s) p)
            more
            (c + (length first_head + length payload))
            (k + 1)
  run-single more c k h l =
      let a = start_message-idle started (record { empty = i.empty; complete = i.complete }) in
      run-last csid cs started p (put_stream_state csid s p) first_head r.agreed some_first_head
        first_round payload more c k (ap (λ t. t.remaining_bytes) a) h l
      ∙ rw a (rw (complete_chunk-put csid (whole_state ts type_id sid payload s) s p) refl)

  -- The first of several.
  run-first :
      (chunk more : List ℕ) (c k : ℕ)
      → cs < length payload
      → length chunk ≡ cs
      → length (first_head ++ (chunk ++ more)) < 2 ^ 32
      → run p (first_head ++ (chunk ++ more)) c k
        ≡ run
            (put_stream_state csid (holding chunk (length payload - length chunk) started) p)
            more
            (c + (length first_head + length chunk))
            k
  run-first chunk more c k h hc l =
      let a = start_message-idle started (record { empty = i.empty; complete = i.complete }) in
      run-more csid cs started p (put_stream_state csid s p) first_head r.agreed some_first_head
        first_round chunk more c k (length payload) (ap (λ t. t.remaining_bytes) a) h
        (omega (arith, v.short)) hc l
      ∙ rw a (
          rw (put-put csid (holding chunk (length payload - length chunk) started) s p, add-zero)
            refl)

-- All the chunks of one message, with whatever follows them.
pub run-body :
    (csid ts type_id sid cs : ℕ) (payload body more : List ℕ) (p : ChunkParser)
    (s : ChunkStreamState) (c k : ℕ)
    → IsMessage csid ts sid payload
    → 1 ≤ cs
    → IsReady cs p
    → stream_state csid p ≡ s
    → IsIdle s
    → write_payload (length payload) true csid ts cs payload ≡ some body
    → length (message_head csid ts type_id sid payload ++ (body ++ more)) < 2 ^ 32
    → run p (message_head csid ts type_id sid payload ++ (body ++ more)) c k
      ≡ run
          (complete_chunk csid (whole_state ts type_id sid payload s) p)
          more
          (c + (length (message_head csid ts type_id sid payload) + length body))
          (k + 1)
run-body csid ts type_id sid cs [] body more p s c k v hs r e i w l =
    let nothing : body ≡ [] = write_payload-nil 0 true csid ts cs [] refl w in
    rw nothing
      (run-single csid ts type_id sid cs [] p s v r e i more c k (omega arith) (rw nothing at l))
run-body csid ts type_id sid cs (b ∷ rest) body more p s c k v hs r e i w l =
    let (tail, w₁, e₁) = write_payload-suc (length rest) true csid ts cs b rest w in
    let n : ℕ = min cs (length (b ∷ rest)) in
    let chunk : List ℕ = take n (b ∷ rest) in
    let head : List ℕ = message_head csid ts type_id sid (b ∷ rest) in
    let len : length chunk ≡ n = omega (arith, length-take n (b ∷ rest)) in
    let size : length body ≡ length chunk + length tail = rw e₁ (length-append chunk tail) in
    elim (le_or_lt (length (b ∷ rest)) cs) [
      | inl fits ↦
          let none_left : tail ≡ [] =
            write_payload-nil (length rest) false csid ts cs (drop n (b ∷ rest))
              (drop-all n (b ∷ rest) (omega arith)) w₁ in
          let whole : body ≡ b ∷ rest =
            e₁ ∙ rw (none_left, append-nil) (take-all n (b ∷ rest) (omega arith)) in
          rw whole
            (run-single csid ts type_id sid cs (b ∷ rest) p s v r e i more c k fits (rw whole at l))
      | inr over ↦
          let split : body ++ more ≡ chunk ++ (tail ++ more) =
            rw e₁ (append_assoc chunk tail more) in
          let bound : length (head ++ (chunk ++ (tail ++ more))) < 2 ^ 32 = rw split at l in
          let started = header_state ts (length (b ∷ rest)) type_id sid s in
          let held = holding chunk (length (b ∷ rest) - length chunk) started in
          let left : List ℕ = drop n (b ∷ rest) in
          let lacks : length left ≡ length (b ∷ rest) - n = length-drop n (b ∷ rest) in
          rw split (
            run-first csid ts type_id sid cs (b ∷ rest) p s v r e i chunk (tail ++ more) c k over
              (omega (arith, len)) bound
            ∙ run-continuation (length rest) left csid ts cs (put_stream_state csid held p) held
                tail more (c + (length head + length chunk)) k v.stream hs
                (record { nothing_pending = r.nothing_pending; agreed = r.agreed })
                (stream_state-put csid held p) refl (omega (arith, len, lacks))
                (omega (arith, lacks)) (omega (arith, lacks, v.short))
                (omega (
                  arith,
                  bound,
                  length-append head (chunk ++ (tail ++ more)),
                  length-append chunk (tail ++ more),
                ))
                w₁
            ∙ rw
                (
                  complete_chunk-put csid (holding (chunk ++ left) 0 held) held p,
                  take-append-drop n (b ∷ rest),
                  size,
                )
                (ap
                  (λ m.
                    run (complete_chunk csid (whole_state ts type_id sid (b ∷ rest) s) p) more m
                      (k + 1))
                  (add_assoc c (length head + length chunk) (length tail)
                    ∙ ap (λ m. c + m) (add_assoc (length head) (length chunk) (length tail)))))
    ]
