-- ===== src/Api/ChunkWriter/Sequence.antt =====
-- The round trip of a sequence of messages.
use mathlib.Core.Path.{ap₂}
use open_rtmp_claude_kiro.Common.{
  All, Bool-cases, List, Option, [], ap, append-nil, append_assoc, arith, eq_of_some, if◌then◌else◌,
  inl, inr, length, length-append, map, none, refl, some, sym, true, ℕ, ◌++◌, ◌+◌, ◌<◌, ◌==◌, ◌^◌,
  ◌∙◌, ◌∷◌, ◌≡◌, ◌≢◌, ◌≤◌, ◌⊎◌,
}
use open_rtmp_claude_kiro.Common.Maps.{find-insert, insert, nat_eq}
use open_rtmp_claude_kiro.Api.ChunkWriter.{serialize_chunk}
use open_rtmp_claude_kiro.Api.ChunkWriter.Body.{holding}
use open_rtmp_claude_kiro.Api.ChunkWriter.Headers.{header_state}
use open_rtmp_claude_kiro.Api.ChunkWriter.Loop.{IsReady}
use open_rtmp_claude_kiro.Api.ChunkWriter.RoundTrip.{
  IsIdle, IsMessage, message_head, run-body, whole_state,
}
use open_rtmp_claude_kiro.Api.ChunkWriter.Streams.{serialize_chunk-eq}
use open_rtmp_claude_kiro.Api.ChunkWriter.Total.{write_payload-total}
use open_rtmp_claude_kiro.Protocol.ChunkParser.Rounds.{
  complete_chunk, completed_chunk, parse, process_protocol_control,
}
use open_rtmp_claude_kiro.Protocol.ChunkParser.State.{
  ChunkData, ChunkParser, ChunkStreamState, parse_ok, put_stream_state, stream_state,
}
use open_rtmp_claude_kiro.Protocol.ChunkParser.Total.{run, run-nil}

-- One message to be sent.
pub record Message : Type 0 where
  pub csid : ℕ
  pub timestamp : ℕ
  pub type_id : ℕ
  pub stream_id : ℕ
  pub payload : List ℕ

-- Media and command messages: all but the protocol control messages that the parser acts on.
abbrev pub IsPlain : Message → Type 0
IsPlain m =
    IsMessage m.csid m.timestamp m.stream_id m.payload
    × ((m.stream_id ≢ 0) ⊎ ((m.type_id ≢ 1) × (m.type_id ≢ 2)))

abbrev pub serialize_message : ℕ → Message → Option (List ℕ)
serialize_message cs m =
    serialize_chunk m.csid m.timestamp (length m.payload) m.type_id m.stream_id m.payload cs

-- The bytes of several messages, one after the other.
abbrev pub serialize_all : ℕ → List Message → Option (List ℕ)
serialize_all cs [] = some []
serialize_all cs (m ∷ ms) = elim (serialize_message cs m) [
  | none ↦ none
  | some a ↦ elim (serialize_all cs ms) [ none ↦ none | some b ↦ some (a ++ b) ]
]

-- The chunk that stands for the message on the other side.
abbrev pub delivered : Message → ChunkData
delivered m = record {
  chunk_stream_id = m.csid;
  timestamp = m.timestamp;
  message_length = length m.payload;
  message_type_id = m.type_id;
  message_stream_id = m.stream_id;
  payload = m.payload;
  is_complete = true;
}

-- A parser between messages, on every chunk stream.
pub record IsBetween (cs : ℕ) (p : ChunkParser) : Type 0 where
  pub ready : IsReady cs p
  pub idle : (csid : ℕ) → IsIdle (stream_state csid p)

stream_state-put_other :
    (csid j : ℕ) (s : ChunkStreamState) (p : ChunkParser)
    → stream_state j (put_stream_state csid s p) ≡ (if csid == j then s else stream_state j p)
unfolding stream_state
stream_state-put_other csid j s p =
    rw (find-insert csid j s p.chunk_streams, stream_state)
      (elim (Bool-cases (csid == j)) [ inl t ↦ rw t refl | inr f ↦ rw f refl ])

-- What the parser does with the whole of a plain message.
after_message : Message → ChunkParser → ChunkParser
after_message m p =
    complete_chunk m.csid
      (whole_state m.timestamp m.type_id m.stream_id m.payload (stream_state m.csid p)) p

after_message-plain :
    (m : Message) (p : ChunkParser)
    → IsPlain m
    → (s : ChunkStreamState) × IsIdle s
      × (after_message m p ≡ record p {
        chunk_streams = insert m.csid s p.chunk_streams;
        completed_chunks = p.completed_chunks ++ (delivered m ∷ []);
      })
unfolding after_message complete_chunk process_protocol_control completed_chunk
after_message-plain m p v = (
  holding [] 0
      (header_state m.timestamp (length m.payload) m.type_id m.stream_id (stream_state m.csid p)),
  record { empty = refl; complete = refl },
  ground arith,
)

after_message-IsBetween :
    {cs : ℕ} (m : Message) (p : ChunkParser)
    → IsPlain m
    → IsBetween cs p
    → IsBetween cs (after_message m p)
      × ((after_message m p).completed_chunks ≡ p.completed_chunks ++ (delivered m ∷ []))
after_message-IsBetween m p v b =
    let (s, i, e) = after_message-plain m p v in
    rw e (
      record {
        ready = record { nothing_pending = b.ready.nothing_pending; agreed = b.ready.agreed };
        idle = λ j.
            rw
              (stream_state-put_other m.csid j s
                (record p { completed_chunks = p.completed_chunks ++ (delivered m ∷ []) }))
              (elim (Bool-cases (m.csid == j)) [
                | inl t ↦ rw t i
                | inr f ↦ rw f (unfold stream_state in b.idle j)
              ]);
      },
      refl,
    )

-- One message at the front of the input.
run-message :
    {cs : ℕ} (m : Message) (out more : List ℕ) (p : ChunkParser) (c k : ℕ)
    → IsPlain m
    → 1 ≤ cs
    → IsBetween cs p
    → serialize_message cs m ≡ some out
    → length (out ++ more) < 2 ^ 32
    → run p (out ++ more) c k ≡ run (after_message m p) more (c + length out) (k + 1)
unfolding after_message
run-message {cs} m out more p c k v hs b e l =
    let (body, w, _) =
      write_payload-total (length m.payload) true m.csid m.timestamp cs m.payload hs
        (omega arith) in
    let head : List ℕ = message_head m.csid m.timestamp m.type_id m.stream_id m.payload in
    let whole : out ≡ head ++ body =
      eq_of_some
        (sym e ∙ serialize_chunk-eq m.csid m.timestamp m.type_id m.stream_id cs m.payload w) in
    let split : out ++ more ≡ head ++ (body ++ more) = rw whole (append_assoc head body more) in
    rw split (
      run-body m.csid m.timestamp m.type_id m.stream_id cs m.payload body more p
        (stream_state m.csid p) c k v.0 hs b.ready refl (b.idle m.csid) w (rw split at l)
      ∙ ap (λ n. run (after_message m p) more (c + n) (k + 1))
          (rw whole (sym (length-append head body))))

abbrev after_messages : List Message → ChunkParser → ChunkParser
after_messages [] p = p
after_messages (m ∷ ms) p = after_messages ms (after_message m p)

serialize_all-cons :
    (cs : ℕ) (m : Message) (ms : List Message) {out : List ℕ}
    → serialize_all cs (m ∷ ms) ≡ some out
    → (a b : List ℕ) × (serialize_message cs m ≡ some a)
      × (serialize_all cs ms ≡ some b)
      × (out ≡ a ++ b)
serialize_all-cons cs m ms e = joined (serialize_message cs m) (serialize_all cs ms) e
  where
    joined :
        (x y : Option (List ℕ)) {out : List ℕ}
        → (elim x [ none ↦ none | some a ↦ elim y [ none ↦ none | some b ↦ some (a ++ b) ] ])
          ≡ some out
        → (a b : List ℕ) × (x ≡ some a) × (y ≡ some b) × (out ≡ a ++ b)
    joined none y e = cc
    joined (some a) none e = cc
    joined (some a) (some b) e = (a, b, refl, refl, cc)

run-messages :
    {cs : ℕ} (ms : List Message) (out : List ℕ) (p : ChunkParser) (c k : ℕ)
    → All IsPlain ms
    → 1 ≤ cs
    → IsBetween cs p
    → serialize_all cs ms ≡ some out
    → length out < 2 ^ 32
    → run p out c k ≡ some (parse_ok (c + length out) (k + length ms), after_messages ms p)
run-messages [] out p c k vs hs b e l =
    let none_left : out ≡ [] = sym (eq_of_some e) in
    rw none_left (run-nil p c k ∙ ap₂ (λ n j. some (parse_ok n j, p)) (omega arith) (omega arith))
run-messages {cs} (m ∷ ms) out p c k (v, vs) hs b e l =
    let (x, y, ex, ey, whole) = serialize_all-cons cs m ms e in
    let bound : length (x ++ y) < 2 ^ 32 = rw whole at l in
    rw whole (
      run-message m x y p c k v hs b ex bound
      ∙ run-messages ms y (after_message m p) (c + length x) (k + 1) vs hs
          (after_message-IsBetween m p v b).0 ey (omega (arith, bound, length-append x y))
      ∙ ap₂ (λ n j. some (parse_ok n j, after_messages ms (after_message m p)))
          (omega (arith, length-append x y)) (omega arith))

after_messages-IsBetween :
    {cs : ℕ} (ms : List Message) (p : ChunkParser)
    → All IsPlain ms
    → IsBetween cs p
    → IsBetween cs (after_messages ms p)
      × ((after_messages ms p).completed_chunks ≡ p.completed_chunks ++ map delivered ms)
after_messages-IsBetween [] p vs b = (b, sym (append-nil p.completed_chunks))
after_messages-IsBetween (m ∷ ms) p (v, vs) b =
    let (b₁, e₁) = after_message-IsBetween m p v b in
    let (b₂, e₂) = after_messages-IsBetween ms (after_message m p) vs b₁ in
    (b₂, e₂ ∙ rw e₁ (append_assoc p.completed_chunks (delivered m ∷ []) (map delivered ms)))

-- Messages that are not Set Chunk Size or Abort, on any chunk streams, serialized one after the
-- other with a chunk size of at least 1, all in less than 2 ^ 32 bytes, and fed in one call to a
-- parser between messages that uses that chunk size: `parse` consumes every byte, appends exactly
-- one completed chunk for each message, in order and equal to it, and is between messages again.
pub parse-serialize_all :
    (cs : ℕ) (ms : List Message) (out : List ℕ) (p : ChunkParser)
    → All IsPlain ms
    → 1 ≤ cs
    → IsBetween cs p
    → serialize_all cs ms ≡ some out
    → length out < 2 ^ 32
    → (q : ChunkParser) × (parse p out ≡ some (parse_ok (length out) (length ms), q))
      × (q.completed_chunks ≡ p.completed_chunks ++ map delivered ms)
      × IsBetween cs q
unfolding parse
parse-serialize_all cs ms out p vs hs b e l =
    let (between, delivered_all) = after_messages-IsBetween ms p vs b in
    (
      after_messages ms p,
      run-messages ms out p 0 0 vs hs b e l
          ∙ ap₂ (λ n j. some (parse_ok n j, after_messages ms p)) (omega arith) (omega arith),
      delivered_all,
      between,
    )
