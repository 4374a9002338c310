-- ===== src/Tests/Messages.antt =====
-- Chunks put together by the message assembler.
use open_rtmp_claude_kiro.Common.{Bool, List, [], arith, false, inl, refl, true, ℕ, ◌∷◌, ◌≡◌, ◌≢◌}
use open_rtmp_claude_kiro.Common.Maps.{find, nat_eq}
use open_rtmp_claude_kiro.Protocol.ChunkParser.State.{ChunkData}
use open_rtmp_claude_kiro.Protocol.MessageAssembler.{
  Assembler, assembly_state, categorize_message_type, is_known_message_type, new_assembly,
  process_chunk, put_assembly, unknown,
}
use open_rtmp_claude_kiro.Protocol.MessageAssembler.Assembly.{
  IsFresh, all_reports, is_known-categorize, process_chunks, process_chunks_complete, reports,
}
use open_rtmp_claude_kiro.Protocol.MessageAssembler.Fragments.{assemble_fragments}

abbrev part : List ℕ → Bool → ChunkData
part payload is_complete = record {
  chunk_stream_id = 4;
  timestamp = 20;
  message_length = 5;
  message_type_id = 9;
  message_stream_id = 1;
  payload = payload;
  is_complete = is_complete;
}

abbrev assembler : Assembler
assembler = record { states = []; has_message_callback = true; has_unknown_type_callback = false }

assembler-IsFresh : (csid : ℕ) → IsFresh csid assembler
unfolding assembly_state find
assembler-IsFresh csid = refl

assemble_fragments_example :
    (b : Assembler) × (process_chunks
        (part (1 ∷ 2 ∷ []) false ∷ part (3 ∷ 4 ∷ []) false ∷ [])
        assembler
      ≡ ([], b))
    × (process_chunk (part (5 ∷ []) true) b
        ≡ (reports true false (part (1 ∷ 2 ∷ 3 ∷ 4 ∷ 5 ∷ []) true), put_assembly 4 new_assembly b))
assemble_fragments_example =
    assemble_fragments (part (1 ∷ 2 ∷ []) false) (part (3 ∷ 4 ∷ []) false ∷ []) (part (5 ∷ []) true)
      assembler (refl, refl) ((refl, refl), tt) refl (assembler-IsFresh 4) (omega arith) (inl refl)

process_chunks_complete_example :
    ((process_chunks (part (1 ∷ []) true ∷ []) assembler).0
      ≡ all_reports true false (part (1 ∷ []) true ∷ []))
    × ((j : ℕ) → IsFresh j (process_chunks (part (1 ∷ []) true ∷ []) assembler).1)
process_chunks_complete_example =
    process_chunks_complete (part (1 ∷ []) true ∷ []) assembler (refl, tt) assembler-IsFresh

is_known-categorize_example :
    ((is_known_message_type 7 ≡ true) → (categorize_message_type 7 ≢ unknown))
    × ((is_known_message_type 7 ≡ false) → (categorize_message_type 7 ≡ unknown))
is_known-categorize_example = is_known-categorize 7
