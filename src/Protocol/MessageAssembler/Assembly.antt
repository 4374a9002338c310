-- ===== src/Protocol/MessageAssembler/Assembly.antt =====
-- What the assembler makes of the chunks of one message, and of the messages of a stream.
use open_rtmp_claude_kiro.Common.{
  All, Bool, List, [], arith, false, if◌then◌else◌, length, not, refl, true, ℕ, ◌&&◌, ◌++◌, ◌<◌,
  ◌==◌, ◌∷◌, ◌≡◌, ◌≢◌, ◌≤◌, ◌⊎◌,
}
use open_rtmp_claude_kiro.Common.Maps.{find-insert, nat_eq}
use open_rtmp_claude_kiro.Protocol.ChunkParser.State.{ChunkData}
use open_rtmp_claude_kiro.Protocol.MessageAssembler.{
  Assembler, AssemblyState, Event, RtmpMessage, append_chunk, assembly_state,
  categorize_message_type, complete_message, is_complete, is_known_message_type, message_ready,
  new_assembly, process_chunk, put_assembly, unknown, unknown_type,
}

-- The two switches over the type id name the same types: a type is known exactly when its category
-- is not `unknown`.
pub is_known-categorize :
    (t : ℕ)
    → ((is_known_message_type t ≡ true) → (categorize_message_type t ≢ unknown))
      × ((is_known_message_type t ≡ false) → (categorize_message_type t ≡ unknown))
unfolding is_known_message_type categorize_message_type
is_known-categorize t = (λ h e. ground arith, λ h. ground arith)

-- Between messages of a chunk stream.
abbrev pub IsFresh : ℕ → Assembler → Type 0
IsFresh csid a = assembly_state csid a ≡ new_assembly

pub assembly_state-put :
    (csid j : ℕ) (s : AssemblyState) (a : Assembler)
    → assembly_state j (put_assembly csid s a) ≡ (if csid == j then s else assembly_state j a)
unfolding assembly_state
assembly_state-put csid j s a = ground (arith, find-insert csid j s a.states)

-- The message that a chunk stands for.
abbrev pub message_of : ChunkData → RtmpMessage
message_of c = record {
  message_type = categorize_message_type c.message_type_id;
  message_type_id = c.message_type_id;
  timestamp = c.timestamp;
  message_stream_id = c.message_stream_id;
  chunk_stream_id = c.chunk_stream_id;
  payload = c.payload;
}

-- What one complete chunk makes the assembler report, by the callbacks that are set: for messages,
-- and for unknown types.
abbrev pub reports : Bool → Bool → ChunkData → List Event
reports for_message for_unknown c =
    (if not (is_known_message_type c.message_type_id) && for_unknown
      then unknown_type c.message_type_id ∷ []
      else [])
    ++ (if for_message then message_ready (message_of c) ∷ [] else [])

-- A complete chunk between messages is reported at once, and its stream is between messages again.
process_chunk_complete :
    (c : ChunkData) (a : Assembler)
    → c.is_complete ≡ true
    → IsFresh c.chunk_stream_id a
    → ((process_chunk c a).0 ≡ reports a.has_message_callback a.has_unknown_type_callback c)
      × ((process_chunk c a).1 ≡ put_assembly c.chunk_stream_id new_assembly a)
unfolding process_chunk append_chunk complete_message
process_chunk_complete c a h f = rw (f, h) (refl, refl)

-- The calls of `processChunk` for several chunks, with all that they report.
unfoldable pub process_chunks : List ChunkData → Assembler → List Event × Assembler
process_chunks [] a = ([], a)
process_chunks (c ∷ cs) a =
    let (es, b) = process_chunk c a in let (fs, d) = process_chunks cs b in (es ++ fs, d)

pub all_reports : Bool → Bool → List ChunkData → List Event
all_reports m u [] = []
all_reports m u (c ∷ cs) = reports m u c ++ all_reports m u cs

IsFresh-after :
    (csid : ℕ) (a : Assembler)
    → ((j : ℕ) → IsFresh j a)
    → (j : ℕ) → IsFresh j (put_assembly csid new_assembly a)
IsFresh-after csid a f j = ground (arith, assembly_state-put csid j new_assembly a, f j)

-- An assembler between messages on every chunk stream, given chunks marked complete of any streams,
-- calls back for each chunk in order: the unknown-type callback, if it is set and the type is
-- unknown, and then the message callback, if it is set, with the chunk's fields and its category. It
-- is then between messages again. The length of a chunk's payload is not compared with the length it
-- announces: a chunk with too little or too much is reported like any other.
pub process_chunks_complete :
    (cs : List ChunkData) (a : Assembler)
    → All (λ c. c.is_complete ≡ true) cs
    → ((j : ℕ) → IsFresh j a)
    → ((process_chunks cs a).0 ≡ all_reports a.has_message_callback a.has_unknown_type_callback cs)
      × ((j : ℕ) → IsFresh j (process_chunks cs a).1)
unfolding process_chunks all_reports
process_chunks_complete [] a v f = (refl, f)
process_chunks_complete (c ∷ cs) a (v, vs) f =
    let (p, q) = process_chunk_complete c a v (f c.chunk_stream_id) in
    let (r, g) =
      process_chunks_complete cs (put_assembly c.chunk_stream_id new_assembly a) vs
        (IsFresh-after c.chunk_stream_id a f) in
    rw (p, q) (rw r refl, g)

-- A chunk that does not complete its message is only kept.
pub process_chunk-part :
    (c : ChunkData) (a : Assembler) {s : AssemblyState}
    → c.is_complete ≡ false
    → append_chunk c (assembly_state c.chunk_stream_id a) ≡ s
    → s.has_started ≡ true
    → length s.buffer < s.expected_length
    → process_chunk c a ≡ ([], put_assembly c.chunk_stream_id s a)
unfolding process_chunk is_complete
process_chunk-part c a h e st l = ground (arith, e)

-- One that does is reported, with the header of the message's first chunk.
pub process_chunk-last :
    (c : ChunkData) (a : Assembler) {s : AssemblyState}
    → append_chunk c (assembly_state c.chunk_stream_id a) ≡ s
    → s.has_started ≡ true
    → (c.is_complete ≡ true) ⊎ (s.expected_length ≤ length s.buffer)
    → process_chunk c a ≡ (
      reports a.has_message_callback a.has_unknown_type_callback (record {
        chunk_stream_id = c.chunk_stream_id;
        timestamp = s.timestamp;
        message_length = s.expected_length;
        message_type_id = s.message_type_id;
        message_stream_id = s.message_stream_id;
        payload = s.buffer;
        is_complete = true;
      }),
      put_assembly c.chunk_stream_id new_assembly a,
    )
unfolding process_chunk is_complete complete_message
process_chunk-last c a e st l = ground (arith, e)
