-- ===== src/Protocol/ChunkParser/Total.antt =====
-- The loop of `parse` ends, consumes no more than it is given, and reports no error.
use open_rtmp_claude_kiro.Common.{
  Bool-cases, List, Option, Option-cases, [], arith, drop, inl, inr, length, length-drop, none,
  refl, some, suc, true, zero, ℕ, ◌+◌, ◌<◌, ◌==◌, ◌^◌, ◌∷◌, ◌≡◌, ◌≤◌,
}
use open_rtmp_claude_kiro.Common.Maps.{contains-insert_self, nat_eq}
use open_rtmp_claude_kiro.Protocol.ChunkParser.Header.{
  BasicHeader, parse_basic_header, parse_extended, parse_message_header,
}
use open_rtmp_claude_kiro.Protocol.ChunkParser.Rounds.{
  Round, again, fail, parse, parse_loop, parse_round, read_chunk, read_message_header, read_payload,
  read_pending, stop,
}
use open_rtmp_claude_kiro.Protocol.ChunkParser.State.{
  ChunkParser, ChunkStreamState, ParseResult, has_chunk_stream_state, parse_ok, put_stream_state,
  stream_state,
}

-- What a round may consume.
abbrev pub Progress : List ℕ → Round → Type 0
Progress bytes (again q n k) = (1 ≤ n) × (n ≤ length bytes)
Progress bytes (stop q n) = n ≤ length bytes
Progress bytes (fail q e) = ⊥

read_pending-Progress :
    (p : ChunkParser) (bytes : List ℕ)
    → 0 < p.pending_chunk_bytes
    → 0 < length bytes
    → length bytes < 2 ^ 32
    → Progress bytes (read_pending p bytes)
unfolding read_pending
read_pending-Progress p bytes h b l = ground arith

read_payload-Progress :
    (csid : ℕ) (s : ChunkStreamState) (size : ℕ) (p : ChunkParser) (bytes : List ℕ)
    → 1 ≤ size
    → Progress bytes (read_payload csid s size p bytes)
unfolding read_payload
read_payload-Progress csid s size p bytes h = ground arith

parse_basic_header-size :
    (bytes : List ℕ) {h : BasicHeader} → parse_basic_header bytes ≡ some h → 1 ≤ h.header_size
unfolding parse_basic_header
parse_basic_header-size bytes e = ground arith

read_message_header-Progress :
    (h : BasicHeader) (p : ChunkParser) (bytes : List ℕ)
    → 1 ≤ h.header_size
    → Progress bytes (read_message_header h p bytes)
unfolding read_message_header
read_message_header-Progress h p bytes e =
    elim (Option-cases
      (parse_message_header h.fmt (drop h.header_size bytes) (stream_state h.csid p))) [
        | inl e₁ ↦ rw (e₁, read_message_header) (omega arith)
        | inr ((s, n), e₁) ↦
            elim (Option-cases (parse_extended h.fmt (drop (h.header_size + n) bytes) s)) [
              | inl e₂ ↦ rw (e₁, read_message_header) (rw e₂ (omega arith))
              | inr ((s', m), e₂) ↦
                  rw (e₁, read_message_header)
                    (rw e₂ (
                      read_payload-Progress h.csid s' (h.header_size + n + m) p bytes
                        (omega arith)))
            ]
      ]

-- The rounds whose headers are all there.
pub read_message_header-some :
    (h : BasicHeader) (p : ChunkParser) (bytes : List ℕ) {s s' : ChunkStreamState} {n m : ℕ}
    → parse_message_header h.fmt (drop h.header_size bytes) (stream_state h.csid p) ≡ some (s, n)
    → parse_extended h.fmt (drop (h.header_size + n) bytes) s ≡ some (s', m)
    → read_message_header h p bytes ≡ read_payload h.csid s' (h.header_size + n + m) p bytes
unfolding read_message_header
read_message_header-some h p bytes e₁ e₂ = rw (e₁, read_message_header) (rw e₂ refl)

-- The entry was created just before the test, so the error cannot be reported.
has_chunk_stream_state-put :
    (csid : ℕ) (s : ChunkStreamState) (p : ChunkParser)
    → has_chunk_stream_state csid (put_stream_state csid s p) ≡ true
unfolding has_chunk_stream_state
has_chunk_stream_state-put csid s p = contains-insert_self csid s p.chunk_streams

pub read_chunk-some :
    (p : ChunkParser) (bytes : List ℕ) {h : BasicHeader}
    → parse_basic_header bytes ≡ some h
    → read_chunk p bytes
      ≡ read_message_header h (put_stream_state h.csid (stream_state h.csid p) p) bytes
unfolding read_chunk
read_chunk-some p bytes {h} e =
    rw (e, read_chunk)
      (rw (has_chunk_stream_state-put h.csid (stream_state h.csid p) p)
        (elim (Bool-cases (h.fmt == 3)) [ inl t ↦ rw t refl | inr f ↦ rw f refl ]))

read_chunk-Progress : (p : ChunkParser) (bytes : List ℕ) → Progress bytes (read_chunk p bytes)
read_chunk-Progress p bytes = elim (Option-cases (parse_basic_header bytes)) [
  | inl e ↦ unfold read_chunk in rw (e, read_chunk) (omega arith)
  | inr (h, e) ↦
      rw (read_chunk-some p bytes e)
        (read_message_header-Progress h _ bytes (parse_basic_header-size bytes e))
]

pub parse_round-Progress :
    (p : ChunkParser) (bytes : List ℕ)
    → 0 < length bytes
    → length bytes < 2 ^ 32
    → Progress bytes (parse_round p bytes)
unfolding parse_round
parse_round-Progress p bytes b l =
    ground (arith, read_chunk-Progress p bytes, read_pending-Progress p bytes)

-- What `parse` gives back: no error, and no more consumed than there was.
abbrev pub Ends : ℕ → Option (ParseResult × ChunkParser) → Type 0
Ends total none = ⊥
Ends total (some (r, q)) = (r.error ≡ none) × (r.bytes_consumed ≤ total)

parse_loop-Ends :
    (fuel : ℕ) (p : ChunkParser) (bytes : List ℕ) (consumed completed total : ℕ)
    → length bytes ≤ fuel
    → length bytes < 2 ^ 32
    → consumed + length bytes ≤ total
    → Ends total (parse_loop fuel p bytes consumed completed)
unfolding parse_loop
parse_loop-Ends fuel p [] c k total hf l h = ground arith
parse_loop-Ends zero p (b ∷ bytes) c k total hf l h = absurd (omega arith)
parse_loop-Ends (suc fuel) p (b ∷ bytes) c k total hf l h =
    by_round (parse_round p (b ∷ bytes)) refl (parse_round-Progress p (b ∷ bytes) (omega arith) l)
      (λ q n k' p₁ p₂.
        parse_loop-Ends fuel q (drop n (b ∷ bytes)) (c + n) (k + k') total
          (omega (arith, length-drop n (b ∷ bytes))) (omega (arith, length-drop n (b ∷ bytes)))
          (omega (arith, length-drop n (b ∷ bytes))))
  where
    by_round :
        (r : Round)
        → parse_round p (b ∷ bytes) ≡ r
        → Progress (b ∷ bytes) r
        → ((q : ChunkParser) (n k' : ℕ)
            → 1 ≤ n
            → n ≤ length (b ∷ bytes)
            → Ends total (parse_loop fuel q (drop n (b ∷ bytes)) (c + n) (k + k')))
        → Ends total (parse_loop (suc fuel) p (b ∷ bytes) c k)
    by_round (again q n k') e g rec = rw (e, parse_loop) (rec q n k' g.0 g.1)
    by_round (stop q n) e g rec = rw (e, parse_loop) (refl, omega arith)
    by_round (fail q x) e g rec = absurd g

-- On every input shorter than 2 ^ 32 bytes and in every state, `parse` returns: it reports no
-- error, the Type 3 one included, and it consumes at most the bytes that it is given.
pub parse-Ends :
    (p : ChunkParser) (bytes : List ℕ) → length bytes < 2 ^ 32 → Ends (length bytes) (parse p bytes)
unfolding parse
parse-Ends p bytes h =
    parse_loop-Ends (length bytes) p bytes 0 0 (length bytes) (omega arith) h (omega arith)

-- Fuel for each byte is enough: more of it changes nothing.
parse_loop-fuel :
    (f g : ℕ) (p : ChunkParser) (bytes : List ℕ) (c k : ℕ)
    → length bytes ≤ f
    → length bytes ≤ g
    → length bytes < 2 ^ 32
    → parse_loop f p bytes c k ≡ parse_loop g p bytes c k
unfolding parse_loop
parse_loop-fuel f g p [] c k hf hg l = refl
parse_loop-fuel zero g p (b ∷ bytes) c k hf hg l = absurd (omega arith)
parse_loop-fuel (suc f) zero p (b ∷ bytes) c k hf hg l = absurd (omega arith)
parse_loop-fuel (suc f) (suc g) p (b ∷ bytes) c k hf hg l =
    by_round (parse_round p (b ∷ bytes)) refl (parse_round-Progress p (b ∷ bytes) (omega arith) l)
      (λ q n k' p₁ p₂.
        parse_loop-fuel f g q (drop n (b ∷ bytes)) (c + n) (k + k')
          (omega (arith, length-drop n (b ∷ bytes))) (omega (arith, length-drop n (b ∷ bytes)))
          (omega (arith, length-drop n (b ∷ bytes))))
  where
    by_round :
        (r : Round)
        → parse_round p (b ∷ bytes) ≡ r
        → Progress (b ∷ bytes) r
        → ((q : ChunkParser) (n k' : ℕ)
            → 1 ≤ n
            → n ≤ length (b ∷ bytes)
            → parse_loop f q (drop n (b ∷ bytes)) (c + n) (k + k')
              ≡ parse_loop g q (drop n (b ∷ bytes)) (c + n) (k + k'))
        → parse_loop (suc f) p (b ∷ bytes) c k ≡ parse_loop (suc g) p (b ∷ bytes) c k
    by_round (again q n k') e h rec = rw (e, parse_loop) (rec q n k' h.0 h.1)
    by_round (stop q n) e h rec = rw (e, parse_loop) refl
    by_round (fail q x) e h rec = absurd h

-- The loop with the fuel that `parse` gives it.
abbrev pub run : ChunkParser → List ℕ → ℕ → ℕ → Option (ParseResult × ChunkParser)
run p bytes consumed completed = parse_loop (length bytes) p bytes consumed completed

-- One round.
pub run-again :
    (p q : ChunkParser) (bytes : List ℕ) (c k n k' : ℕ)
    → 0 < length bytes
    → length bytes < 2 ^ 32
    → parse_round p bytes ≡ again q n k'
    → run p bytes c k ≡ run q (drop n bytes) (c + n) (k + k')
unfolding parse_loop
run-again p q [] c k n k' h l e = absurd (omega arith)
run-again p q (b ∷ bytes) c k n k' h l e =
    rw (e, parse_loop)
      (parse_loop-fuel (length bytes) (length (drop n (b ∷ bytes))) q (drop n (b ∷ bytes)) (c + n)
        (k + k') (omega (arith, length-drop n (b ∷ bytes), progress)) (omega arith)
        (omega (arith, length-drop n (b ∷ bytes))))
  where
    positive : (r : Round) → Progress (b ∷ bytes) r → r ≡ again q n k' → 1 ≤ n
    positive (again q n k') h e = ground arith
    positive (stop q n) h e = cc
    positive (fail q x) h e = absurd h

    progress : 1 ≤ n
    progress = positive (parse_round p (b ∷ bytes)) (parse_round-Progress p (b ∷ bytes) h l) e

pub run-nil : (p : ChunkParser) (c k : ℕ) → run p [] c k ≡ some (parse_ok c k, p)
unfolding parse_loop
run-nil p c k = refl

pub run-stop :
    (p q : ChunkParser) (bytes : List ℕ) (c k n : ℕ)
    → 0 < length bytes
    → parse_round p bytes ≡ stop q n
    → run p bytes c k ≡ some (parse_ok (c + n) k, q)
unfolding parse_loop
run-stop p q [] c k n h e = absurd (omega arith)
run-stop p q (b ∷ bytes) c k n h e = rw (e, parse_loop) refl
