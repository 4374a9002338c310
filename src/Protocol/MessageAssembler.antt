-- ===== src/Protocol/MessageAssembler.antt =====
-- include/openrtmp/protocol/message_assembler.hpp and src/protocol/message_assembler.cpp.
-- A callback is a flag that says whether one is set; a call of it is an event that the operation
-- returns, in the order of the calls. `processChunk` has success for its only result.
pub mod Assembly
pub mod Fragments
pub mod Tidy
use open_rtmp_claude_kiro.Common.{
  Bool, List, [], false, if◌then◌else◌, leb, length, ltb, none, not, some, true, ℕ, ◌&&◌, ◌++◌, ◌+◌,
  ◌-◌, ◌==◌, ◌||◌, ◌∷◌,
}
use open_rtmp_claude_kiro.Common.Maps.{find, insert, nat_eq}
use open_rtmp_claude_kiro.Protocol.ChunkParser.State.{ChunkData}

pub data MessageType : Type 0 where
  protocol_control audio video media_data command shared_object aggregate unknown : MessageType

pub record RtmpMessage : Type 0 where
  pub message_type : MessageType
  pub message_type_id : ℕ
  pub timestamp : ℕ
  pub message_stream_id : ℕ
  pub chunk_stream_id : ℕ
  pub payload : List ℕ

pub record AssemblyState : Type 0 where
  pub expected_length : ℕ
  pub timestamp : ℕ
  pub message_type_id : ℕ
  pub message_stream_id : ℕ
  pub buffer : List ℕ
  pub has_started : Bool

-- `MessageAssemblyState()`, and what `reset` leaves.
abbrev pub new_assembly : AssemblyState
new_assembly = record {
  expected_length = 0;
  timestamp = 0;
  message_type_id = 0;
  message_stream_id = 0;
  buffer = [];
  has_started = false;
}

pub remaining_bytes : AssemblyState → ℕ
remaining_bytes s =
    if ltb (length s.buffer) s.expected_length then s.expected_length - length s.buffer else 0

pub is_complete : AssemblyState → Bool
is_complete s = s.has_started && leb s.expected_length (length s.buffer)

pub record Assembler : Type 0 where
  pub states : List (ℕ × AssemblyState)
  pub has_message_callback : Bool
  pub has_unknown_type_callback : Bool

pub data Event : Type 0 where
  message_ready : RtmpMessage → Event
  unknown_type : ℕ → Event

pub new_assembler : Assembler
new_assembler = record {
  states = [];
  has_message_callback = false;
  has_unknown_type_callback = false;
}

pub categorize_message_type : ℕ → MessageType
categorize_message_type t =
    if t == 1 || (t == 2 || (t == 3 || (t == 4 || (t == 5 || t == 6))))
    then protocol_control
    else if t == 8
    then audio
    else if t == 9
    then video
    else if t == 15 || t == 18
    then media_data
    else if t == 17 || t == 20
    then command
    else if t == 16 || t == 19
    then shared_object
    else if t == 22
    then aggregate
    else unknown

pub is_known_message_type : ℕ → Bool
is_known_message_type t =
    t == 1
    || (t == 2
        || (t == 3
            || (t == 4
                || (t == 5
                    || (t == 6
                        || (t == 8
                            || (t == 9
                                || (t == 15
                                    || (t == 18
                                        || (t == 17
                                            || (t == 20
                                                || (t == 16 || (t == 19 || t == 22)))))))))))))

-- `getState(csid)`, the value: a missing entry is created with default values.
unfoldable pub assembly_state : ℕ → Assembler → AssemblyState
assembly_state csid a = elim (find csid a.states) [ none ↦ new_assembly | some s ↦ s ]

abbrev pub put_assembly : ℕ → AssemblyState → Assembler → Assembler
put_assembly csid s a = record a { states = insert csid s a.states }

abbrev pub rtmp_message : ℕ → AssemblyState → RtmpMessage
rtmp_message csid s = record {
  message_type = categorize_message_type s.message_type_id;
  message_type_id = s.message_type_id;
  timestamp = s.timestamp;
  message_stream_id = s.message_stream_id;
  chunk_stream_id = csid;
  payload = s.buffer;
}

pub complete_message : ℕ → AssemblyState → Assembler → List Event
complete_message csid s a =
    if a.has_message_callback then message_ready (rtmp_message csid s) ∷ [] else []

-- The first chunk of a message sets its header fields.
pub start_assembly : ChunkData → AssemblyState → AssemblyState
start_assembly c s = if s.has_started then s else record s {
  expected_length = c.message_length;
  timestamp = c.timestamp;
  message_type_id = c.message_type_id;
  message_stream_id = c.message_stream_id;
  has_started = true;
}

-- The state with the chunk's payload.
pub append_chunk : ChunkData → AssemblyState → AssemblyState
unfolding start_assembly
append_chunk c s = let t = start_assembly c s in record t { buffer = t.buffer ++ c.payload }

pub process_chunk : ChunkData → Assembler → List Event × Assembler
process_chunk c a =
    let s = append_chunk c (assembly_state c.chunk_stream_id a) in
    let warning =
      if not (is_known_message_type s.message_type_id) && a.has_unknown_type_callback
      then unknown_type s.message_type_id ∷ []
      else [] in
    if c.is_complete || is_complete s
    then (
      warning ++ complete_message c.chunk_stream_id s a,
      put_assembly c.chunk_stream_id new_assembly a,
    )
    else ([], put_assembly c.chunk_stream_id s a)

pub abort_message : ℕ → Assembler → Assembler
abort_message csid a = elim (find csid a.states) [
  | none ↦ a
  | some s ↦ put_assembly csid new_assembly a
]

pub clear : Assembler → Assembler
clear a = record a { states = [] }

pending_count : List (ℕ × AssemblyState) → ℕ
pending_count [] = 0
pending_count ((csid, s) ∷ m) =
    (if s.has_started && not (is_complete s) then 1 else 0) + pending_count m

pub get_pending_message_count : Assembler → ℕ
unfolding pending_count
get_pending_message_count a = pending_count a.states
