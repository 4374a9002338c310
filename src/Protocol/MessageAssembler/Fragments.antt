-- ===== src/Protocol/MessageAssembler/Fragments.antt =====
-- A message that arrives in several chunks.
use open_rtmp_claude_kiro.Common.{
  All, List, [], ap, append-nil, append_assoc, arith, false, length, length-append, refl, true, ℕ,
  ◌++◌, ◌<◌, ◌∙◌, ◌∷◌, ◌≡◌, ◌≤◌, ◌⊎◌,
}
use open_rtmp_claude_kiro.Protocol.ChunkParser.State.{ChunkData}
use open_rtmp_claude_kiro.Protocol.MessageAssembler.{
  Assembler, AssemblyState, append_chunk, assembly_state, new_assembly, process_chunk, put_assembly,
}
use open_rtmp_claude_kiro.Protocol.MessageAssembler.Assembly.{
  IsFresh, assembly_state-put, process_chunk-last, process_chunk-part, process_chunks, reports,
}

-- The payloads, joined.
abbrev pub payloads : List ChunkData → List ℕ
payloads [] = []
payloads (c ∷ cs) = c.payload ++ payloads cs

-- A chunk of stream `csid` that does not end its message.
abbrev pub IsPart : ℕ → ChunkData → Type 0
IsPart csid c = (c.chunk_stream_id ≡ csid) × (c.is_complete ≡ false)

-- The chunk as the continuation of a message under way.
append_chunk-started :
    (c : ChunkData) (s : AssemblyState)
    → s.has_started ≡ true
    → append_chunk c s ≡ record s { buffer = s.buffer ++ c.payload }
unfolding append_chunk
append_chunk-started c s h = ground arith

-- Parts that do not reach the announced length report nothing; their payloads are kept.
parts :
    (csid : ℕ) (cs : List ChunkData) (a : Assembler) (s : AssemblyState)
    → All (IsPart csid) cs
    → assembly_state csid a ≡ s
    → s.has_started ≡ true
    → length (s.buffer ++ payloads cs) < s.expected_length
    → (b : Assembler) × (process_chunks cs a ≡ ([], b))
      × (assembly_state csid b ≡ record s { buffer = s.buffer ++ payloads cs })
      × (b.has_message_callback ≡ a.has_message_callback)
      × (b.has_unknown_type_callback ≡ a.has_unknown_type_callback)
unfolding process_chunks
parts csid [] a s v e h l = (a, refl, e ∙ rw (append-nil s.buffer) refl, refl, refl)
parts csid (c ∷ cs) a s (v, vs) e h l =
    let t = record s { buffer = s.buffer ++ c.payload } in
    let a' = put_assembly c.chunk_stream_id t a in
    let step : process_chunk c a ≡ ([], a') =
      process_chunk-part c a v.1
        (ap (append_chunk c) (ap (λ k. assembly_state k a) v.0 ∙ e) ∙ append_chunk-started c s h) h
        (omega (
          arith,
          l,
          length-append s.buffer c.payload,
          length-append s.buffer (c.payload ++ payloads cs),
          length-append c.payload (payloads cs),
        )) in
    let (b, p, q, m, u) =
      parts csid cs a' t vs (ground (arith, assembly_state-put c.chunk_stream_id csid t a)) h
        (rw (append_assoc s.buffer c.payload (payloads cs)) l) in
    (b, rw (step, p) refl, q ∙ rw (append_assoc s.buffer c.payload (payloads cs)) refl, m, u)

-- A message whose header comes with the first of several chunks of one chunk stream, none marked
-- complete but perhaps the last, and whose announced length is not reached before the last: nothing
-- is reported until the last chunk, and then one message, with the joined payload and the header
-- fields of the first chunk. The last chunk is marked complete, or reaches the announced length; where
-- it is marked complete, the message is reported even if it is shorter than announced, since the
-- assembler does not compare the two lengths.
pub assemble_fragments :
    (first : ChunkData) (middle : List ChunkData) (last : ChunkData) (a : Assembler)
    → IsPart first.chunk_stream_id first
    → All (IsPart first.chunk_stream_id) middle
    → last.chunk_stream_id ≡ first.chunk_stream_id
    → IsFresh first.chunk_stream_id a
    → length (first.payload ++ payloads middle) < first.message_length
    → (last.is_complete ≡ true)
      ⊎ (first.message_length ≤ length ((first.payload ++ payloads middle) ++ last.payload))
    → (b : Assembler) × (process_chunks (first ∷ middle) a ≡ ([], b))
      × (process_chunk last b ≡ (
        reports a.has_message_callback a.has_unknown_type_callback (record first {
          payload = (first.payload ++ payloads middle) ++ last.payload;
          is_complete = true;
        }),
        put_assembly first.chunk_stream_id new_assembly b,
      ))
unfolding process_chunks append_chunk
assemble_fragments first middle last a v vs same fresh short enough =
    let s : AssemblyState = append_chunk first new_assembly in
    let a' = put_assembly first.chunk_stream_id s a in
    let step : process_chunk first a ≡ ([], a') =
      process_chunk-part first a v.1 (ap (append_chunk first) fresh) refl
        (omega (arith, short, length-append first.payload (payloads middle))) in
    let (b, p, q, m, u) =
      parts first.chunk_stream_id middle a' s vs
        (ground (arith, assembly_state-put first.chunk_stream_id first.chunk_stream_id s a)) refl
        short in
    let full = record s { buffer = (first.payload ++ payloads middle) ++ last.payload } in
    let joined : append_chunk last (assembly_state last.chunk_stream_id b) ≡ full =
      ap (append_chunk last) (ap (λ k. assembly_state k b) same ∙ q)
      ∙ append_chunk-started last (record s { buffer = first.payload ++ payloads middle }) refl in
    (b, rw (step, p) refl, process_chunk-last last b joined refl enough ∙ rw (m, u, same) refl)
