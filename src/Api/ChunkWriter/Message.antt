-- ===== src/Api/ChunkWriter/Message.antt =====
-- The parser's loop on all the chunks of one message.
use open_rtmp_claude_kiro.Common.{
  Bool, List, [], ap, append_assoc, arith, drop, drop-all, false, if◌then◌else◌, inl, inr, le_or_lt,
  leb, length, length-append, length-drop, length-take, map-eq-some, min, refl, some, suc, take,
  take-all, take-append-drop, zero, ℕ, ◌++◌, ◌+◌, ◌-◌, ◌<◌, ◌^◌, ◌∙◌, ◌∷◌, ◌≡◌, ◌≤◌,
}
use open_rtmp_claude_kiro.Api.ChunkWriter.{basic_header, extended_timestamp, write_payload}
use open_rtmp_claude_kiro.Api.ChunkWriter.Body.{holding}
use open_rtmp_claude_kiro.Api.ChunkWriter.Headers.{IsCsid, length-basic_header}
use open_rtmp_claude_kiro.Api.ChunkWriter.Loop.{
  IsReady, complete_chunk-put, parse_round-ready, put-put, read_chunk-continuation, run-last,
  run-more, stream_state-put,
}
use open_rtmp_claude_kiro.Protocol.ChunkParser.Header.{start_message}
use open_rtmp_claude_kiro.Protocol.ChunkParser.Rounds.{complete_chunk, parse_round, read_payload}
use open_rtmp_claude_kiro.Protocol.ChunkParser.State.{
  ChunkParser, ChunkStreamState, put_stream_state, stream_state,
}
use open_rtmp_claude_kiro.Protocol.ChunkParser.Total.{run}
use native.Mathlib.Nat.{add-zero, add_assoc}

start_message-active : (s : ChunkStreamState) → 0 < s.remaining_bytes → start_message s ≡ s
unfolding start_message
start_message-active s h = ground arith

-- What one round of the writer's loop adds.
pub write_payload-suc :
    (f : ℕ) (first : Bool) (csid ts cs b : ℕ) (rest : List ℕ) {out : List ℕ}
    → write_payload (suc f) first csid ts cs (b ∷ rest) ≡ some out
    → (tail : List ℕ) × (write_payload f false csid ts cs
          (drop (min cs (length (b ∷ rest))) (b ∷ rest))
        ≡ some tail)
      × (out
          ≡ (if first then [] else basic_header 3 csid ++ extended_timestamp ts)
            ++ (take (min cs (length (b ∷ rest))) (b ∷ rest) ++ tail))
unfolding write_payload
write_payload-suc f first csid ts cs b rest e =
    map-eq-some _ (write_payload f false csid ts cs (drop (min cs (length (b ∷ rest))) (b ∷ rest)))
      e

pub write_payload-nil :
    (f : ℕ) (first : Bool) (csid ts cs : ℕ) (rest : List ℕ) {tail : List ℕ}
    → rest ≡ []
    → write_payload f first csid ts cs rest ≡ some tail
    → tail ≡ []
unfolding write_payload
write_payload-nil f first csid ts cs [] e w = cc
write_payload-nil f first csid ts cs (b ∷ rest) e w = cc

-- The headers of a continuation chunk, and the round that reads them.
module _ (csid ts cs : ℕ) (p : ChunkParser) (s : ChunkStreamState) (hc : IsCsid csid)
    (r : IsReady cs p) (e : stream_state csid p ≡ s)
    (he : s.has_extended_timestamp ≡ leb 0xFFFFFF ts) (h0 : 0 < s.remaining_bytes) where
  abbrev head : List ℕ
  head = basic_header 3 csid ++ extended_timestamp ts

  some_head : 1 ≤ length head
  some_head = omega (
    arith,
    length-basic_header 3 csid,
    length-append (basic_header 3 csid) (extended_timestamp ts),
  )

  round :
      (body : List ℕ)
      → parse_round p (head ++ body)
        ≡ read_payload csid s (length head) (put_stream_state csid s p) (head ++ body)
  round body =
      parse_round-ready (head ++ body) r
      ∙ rw (← e) (read_chunk-continuation csid ts p body hc (rw e he) (rw e h0))

  -- The last chunk of a message.
  run_last-continuation :
      (chunk more : List ℕ) (c k : ℕ)
      → s.remaining_bytes ≡ length chunk
      → length chunk ≤ cs
      → length (head ++ (chunk ++ more)) < 2 ^ 32
      → run p (head ++ (chunk ++ more)) c k
        ≡ run
            (complete_chunk csid (holding (s.partial_payload ++ chunk) 0 s) p)
            more
            (c + (length head + length chunk))
            (k + 1)
  run_last-continuation chunk more c k hr h l =
      let a = start_message-active s h0 in
      run-last csid cs s p (put_stream_state csid s p) head r.agreed some_head round chunk more c k
        (rw a hr) h l
      ∙ rw a (rw (complete_chunk-put csid (holding (s.partial_payload ++ chunk) 0 s) s p) refl)

  -- Any other.
  run_more-continuation :
      (chunk more : List ℕ) (c k n : ℕ)
      → s.remaining_bytes ≡ n
      → cs < n
      → n < 2 ^ 32
      → length chunk ≡ cs
      → length (head ++ (chunk ++ more)) < 2 ^ 32
      → run p (head ++ (chunk ++ more)) c k
        ≡ run
            (put_stream_state csid (holding (s.partial_payload ++ chunk) (n - length chunk) s) p)
            more
            (c + (length head + length chunk))
            k
  run_more-continuation chunk more c k n hr h hn hl l =
      let a = start_message-active s h0 in
      run-more csid cs s p (put_stream_state csid s p) head r.agreed some_head round chunk more c k
        n (rw a hr) h hn hl l
      ∙ rw a (
          rw
            (put-put csid (holding (s.partial_payload ++ chunk) (n - length chunk) s) s p, add-zero)
            refl)

-- All the chunks after the first.
pub run-continuation :
    (f : ℕ) (rest : List ℕ) (csid ts cs : ℕ) (p : ChunkParser) (s : ChunkStreamState)
    (out more : List ℕ) (c k : ℕ)
    → IsCsid csid
    → 1 ≤ cs
    → IsReady cs p
    → stream_state csid p ≡ s
    → s.has_extended_timestamp ≡ leb 0xFFFFFF ts
    → s.remaining_bytes ≡ length rest
    → 0 < length rest
    → length rest < 2 ^ 32
    → length (out ++ more) < 2 ^ 32
    → write_payload f false csid ts cs rest ≡ some out
    → run p (out ++ more) c k
      ≡ run
          (complete_chunk csid (holding (s.partial_payload ++ rest) 0 s) p)
          more
          (c + length out)
          (k + 1)
run-continuation f [] csid ts cs p s out more c k hc hs r e he hr h0 hl ho w = absurd (omega arith)
run-continuation zero (b ∷ rest) csid ts cs p s out more c k hc hs r e he hr h0 hl ho w =
    unfold write_payload in cc w
run-continuation (suc f) (b ∷ rest) csid ts cs p s out more c k hc hs r e he hr h0 hl ho w =
    let (tail, w₁, e₁) = write_payload-suc f false csid ts cs b rest w in
    let n : ℕ = min cs (length (b ∷ rest)) in
    let chunk : List ℕ = take n (b ∷ rest) in
    let h : List ℕ = basic_header 3 csid ++ extended_timestamp ts in
    let split : out ++ more ≡ h ++ (chunk ++ (tail ++ more)) =
      rw (e₁, append_assoc h (chunk ++ tail) more, append_assoc chunk tail more) refl in
    let bound : length (h ++ (chunk ++ (tail ++ more))) < 2 ^ 32 = rw (← split) ho in
    let size : length out ≡ length h + (length chunk + length tail) =
      rw (e₁, length-append h (chunk ++ tail), length-append chunk tail) refl in
    let len : length chunk ≡ n = omega (arith, length-take n (b ∷ rest)) in
    rw split (elim (le_or_lt (length (b ∷ rest)) cs) [
      | inl fits ↦
          let whole : chunk ≡ b ∷ rest = take-all n (b ∷ rest) (omega arith) in
          let none_left : tail ≡ [] =
            write_payload-nil f false csid ts cs (drop n (b ∷ rest))
              (drop-all n (b ∷ rest) (omega arith)) w₁ in
          run_last-continuation csid ts cs p s hc r e he (rw hr h0) chunk (tail ++ more) c k
            (omega (arith, hr, len)) (omega (arith, len)) bound
          ∙ rw (whole, none_left, size)
              (ap
                (λ m.
                  run (complete_chunk csid (holding (s.partial_payload ++ (b ∷ rest)) 0 s) p) more m
                    (k + 1))
                (omega (arith, ap length whole, ap length none_left)))
      | inr t ↦
          let held = holding (s.partial_payload ++ chunk) (length (b ∷ rest) - length chunk) s in
          let next = put_stream_state csid held p in
          let left : List ℕ = drop n (b ∷ rest) in
          let over : length left ≡ length (b ∷ rest) - n = length-drop n (b ∷ rest) in
          let whole : chunk ++ left ≡ b ∷ rest = take-append-drop n (b ∷ rest) in
          run_more-continuation csid ts cs p s hc r e he (rw hr h0) chunk (tail ++ more) c k
            (length (b ∷ rest)) hr t hl (omega (arith, len)) bound
          ∙ run-continuation f left csid ts cs next held tail more (c + (length h + length chunk)) k
              hc hs (record { nothing_pending = r.nothing_pending; agreed = r.agreed })
              (stream_state-put csid held p) he (omega (arith, len, over)) (omega (arith, over))
              (omega (arith, over))
              (omega (
                arith,
                bound,
                length-append h (chunk ++ (tail ++ more)),
                length-append chunk (tail ++ more),
              ))
              w₁
          ∙ rw
              (
                complete_chunk-put csid (holding ((s.partial_payload ++ chunk) ++ left) 0 held) held
                    p,
                append_assoc s.partial_payload chunk left,
                whole,
                size,
              )
              (ap
                (λ m.
                  run (complete_chunk csid (holding (s.partial_payload ++ (b ∷ rest)) 0 s) p) more m
                    (k + 1))
                (add_assoc c (length h + length chunk) (length tail)
                  ∙ ap (λ m. c + m) (add_assoc (length h) (length chunk) (length tail))))
    ])
