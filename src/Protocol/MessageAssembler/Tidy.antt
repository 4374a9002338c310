-- ===== src/Protocol/MessageAssembler/Tidy.antt =====
-- What every operation of the assembler keeps, and what the pending count means.
use open_rtmp_claude_kiro.Common.{
  Bool-cases, Option-cases, arith, false, inl, inr, length, refl, true, ℕ, ◌<◌, ◌==◌, ◌||◌, ◌≡◌,
  ◌⊎◌,
}
use open_rtmp_claude_kiro.Common.Maps.{find, nat_eq}
use open_rtmp_claude_kiro.Protocol.ChunkParser.State.{ChunkData}
use open_rtmp_claude_kiro.Protocol.MessageAssembler.{
  Assembler, AssemblyState, abort_message, append_chunk, assembly_state, clear, is_complete,
  new_assembler, new_assembly, process_chunk, put_assembly,
}
use open_rtmp_claude_kiro.Protocol.MessageAssembler.Assembly.{assembly_state-put}

-- A state is new, or of a message that is not complete.
abbrev pub IsTidyState : AssemblyState → Type 0
IsTidyState s =
    (s ≡ new_assembly) ⊎ ((s.has_started ≡ true) × (length s.buffer < s.expected_length))

abbrev pub IsTidy : Assembler → Type 0
IsTidy a = (csid : ℕ) → IsTidyState (assembly_state csid a)

new_assembler-IsTidy : IsTidy new_assembler
unfolding new_assembler assembly_state find
new_assembler-IsTidy csid = inl refl

put-IsTidy :
    (csid : ℕ) (s : AssemblyState) (a : Assembler)
    → IsTidyState s
    → IsTidy a
    → IsTidy (put_assembly csid s a)
put-IsTidy csid s a h v j = elim (Bool-cases (csid == j)) [
  | inl t ↦ rw (assembly_state-put csid j s a, t) h
  | inr f ↦ rw (assembly_state-put csid j s a, f) (v j)
]

append_chunk-IsTidy :
    (c : ChunkData) (s : AssemblyState)
    → is_complete (append_chunk c s) ≡ false
    → IsTidyState (append_chunk c s)
unfolding append_chunk is_complete
append_chunk-IsTidy c s h = inr (ground arith, ground arith)

process_chunk-IsTidy : (c : ChunkData) (a : Assembler) → IsTidy a → IsTidy (process_chunk c a).1
unfolding process_chunk
process_chunk-IsTidy c a v =
    let s = append_chunk c (assembly_state c.chunk_stream_id a) in
    elim (Bool-cases (c.is_complete || is_complete s)) [
      | inl t ↦ rw t (put-IsTidy c.chunk_stream_id new_assembly a (inl refl) v)
      | inr f ↦ rw f (
          put-IsTidy c.chunk_stream_id s a
            (append_chunk-IsTidy c (assembly_state c.chunk_stream_id a) (ground arith)) v)
    ]

abort_message-IsTidy : (csid : ℕ) (a : Assembler) → IsTidy a → IsTidy (abort_message csid a)
abort_message-IsTidy csid a v = elim (Option-cases (find csid a.states)) [
  | inl e ↦ unfold abort_message in rw (e, abort_message) v
  | inr (s, e) ↦
      unfold abort_message in rw (e, abort_message) (put-IsTidy csid new_assembly a (inl refl) v)
]

-- Each stream's state is new, or is of a message with fewer bytes than it announced, so that no
-- complete message waits unreported: this holds of a new assembler, and `processChunk`,
-- `abortMessage` and `clear` keep it.
pub operations-IsTidy :
    IsTidy new_assembler
    × ((c : ChunkData) (a : Assembler) → IsTidy a → IsTidy (process_chunk c a).1)
    × ((csid : ℕ) (a : Assembler) → IsTidy a → IsTidy (abort_message csid a))
    × ((a : Assembler) → IsTidy (clear a))
unfolding clear assembly_state find
operations-IsTidy =
    (new_assembler-IsTidy, process_chunk-IsTidy, abort_message-IsTidy, λ a csid. inl refl)
