-- ===== src/Streaming/GopBuffer.antt =====
-- GOPBuffer of include/openrtmp/streaming/gop_buffer.hpp. Durations are milliseconds that are not
-- negative, and twice the minimum fits their type.
pub mod Keyframes
pub mod Eviction
pub mod Runs
use open_rtmp_claude_kiro.Common.{
  Bool, List, Option, [], add64, drop, false, if◌then◌else◌, leb, length, ltb, none, not, some,
  sub64, suc, true, zero, ℕ, ◌%◌, ◌&&◌, ◌*◌, ◌++◌, ◌-◌, ◌==◌, ◌^◌, ◌||◌, ◌∷◌,
}
use open_rtmp_claude_kiro.Protocol.AmfCodec.Values.{Value}
use open_rtmp_claude_kiro.Streaming.Frames.{
  BufferedFrame, buffer_duration, is_video_keyframe, max_timestamp, min_timestamp, size,
  total_bytes,
}

pub record GopBufferConfig : Type 0 where
  pub min_buffer_duration : ℕ
  pub max_buffer_size : ℕ

pub record SequenceHeaders : Type 0 where
  pub video_header : List ℕ
  pub audio_header : List ℕ

pub record GopBuffer : Type 0 where
  pub frames : List BufferedFrame
  pub last_keyframe_index : ℕ
  pub has_keyframe : Bool
  pub metadata : Option Value
  pub sequence_headers : SequenceHeaders
  pub buffered_bytes : ℕ
  pub config : GopBufferConfig

abbrev pub default_gop_config : GopBufferConfig
default_gop_config = record { min_buffer_duration = 2000; max_buffer_size = 10485760 }

abbrev pub no_headers : SequenceHeaders
no_headers = record { video_header = []; audio_header = [] }

-- The constructor.
unfoldable pub new_gop_buffer : GopBufferConfig → GopBuffer
new_gop_buffer config = record {
  frames = [];
  last_keyframe_index = 0;
  has_keyframe = false;
  metadata = none;
  sequence_headers = no_headers;
  buffered_bytes = 0;
  config = config;
}

-- Whether `frames_[i]` is a video keyframe.
unfoldable pub keyframe_at : ℕ → List BufferedFrame → Bool
keyframe_at i [] = false
keyframe_at zero (f ∷ fs) = is_video_keyframe f
keyframe_at (suc i) (f ∷ fs) = keyframe_at i fs

-- The loop of `updateKeyframeIndex`, which goes down from the end.
unfoldable pub find_keyframe : ℕ → List BufferedFrame → Option ℕ
find_keyframe zero fs = none
find_keyframe (suc i) fs = elim (keyframe_at i fs) [ true ↦ some i | false ↦ find_keyframe i fs ]

unfoldable pub set_keyframe_index : Option ℕ → GopBuffer → GopBuffer
set_keyframe_index none b = record b { has_keyframe = false; last_keyframe_index = 0 }
set_keyframe_index (some i) b = record b { has_keyframe = true; last_keyframe_index = i }

unfoldable pub update_keyframe_index : GopBuffer → GopBuffer
update_keyframe_index b = set_keyframe_index (find_keyframe (length b.frames) b.frames) b

-- `keyframeIndices`, from the index of the first frame on.
unfoldable pub keyframe_indices : ℕ → List BufferedFrame → List ℕ
keyframe_indices i [] = []
keyframe_indices i (f ∷ fs) =
    let later = keyframe_indices (suc i) fs in if is_video_keyframe f then i ∷ later else later

-- `bufferedBytes_ > config_.maxBufferSize`, or more than twice the minimum duration.
unfoldable pub needs_eviction : GopBuffer → Bool
needs_eviction b =
    ltb b.config.max_buffer_size b.buffered_bytes
    || ltb (b.config.min_buffer_duration * 2) (buffer_duration b.frames)

-- The loop that only enforces the size, with the bytes.
unfoldable pub evict_front : ℕ → ℕ → List BufferedFrame → List BufferedFrame × ℕ
evict_front limit bytes [] = ([], bytes)
evict_front limit bytes (f ∷ fs) =
    let later = evict_front limit (sub64 bytes (size f)) fs in
    if ltb limit bytes then later else (f ∷ fs, bytes)

-- Whether the frames from a proposed boundary on meet the constraints, and whether their size does.
unfoldable pub proposed_duration : ℕ → List BufferedFrame → ℕ
proposed_duration high fs =
    let low = min_timestamp 0xFFFFFFFF fs in if leb low high then high - low else 0

unfoldable pub size_fits : GopBufferConfig → List BufferedFrame → Bool
size_fits config fs = leb (total_bytes fs % 2 ^ 64) config.max_buffer_size

unfoldable pub meets : GopBufferConfig → ℕ → Bool → List BufferedFrame → Bool
meets config high last fs =
    leb config.min_buffer_duration (proposed_duration high fs) || (size_fits config fs && last)

unfoldable pub is_last : List ℕ → Bool
is_last [] = true
is_last (p ∷ ps) = false

-- The loop over the boundaries that follow the first keyframe's, with the boundary so far.
unfoldable pub find_boundary : GopBufferConfig → ℕ → List BufferedFrame → ℕ → List ℕ → ℕ
find_boundary config high fs boundary [] = boundary
find_boundary config high fs boundary (p ∷ ps) =
    let accepted = meets config high (is_last ps) (drop p fs) in
    elim (accepted && size_fits config (drop p fs)) [
      | true ↦ p
      | false ↦ find_boundary config high fs (if accepted then p else boundary) ps
    ]

-- Frames taken off the front, with the bytes.
unfoldable pub pop_frames : ℕ → ℕ → List BufferedFrame → List BufferedFrame × ℕ
pop_frames zero bytes fs = (fs, bytes)
pop_frames (suc n) bytes [] = ([], bytes)
pop_frames (suc n) bytes (f ∷ fs) = pop_frames n (sub64 bytes (size f)) fs

unfoldable pub with_frames : List BufferedFrame × ℕ → GopBuffer → GopBuffer
with_frames (fs, bytes) b = record b { frames = fs; buffered_bytes = bytes }

-- By the indices of the keyframes: with fewer than two, the size alone.
unfoldable pub evict_by : List ℕ → GopBuffer → GopBuffer
evict_by [] b =
    update_keyframe_index
      (with_frames (evict_front b.config.max_buffer_size b.buffered_bytes b.frames) b)
evict_by (k ∷ []) b =
    update_keyframe_index
      (with_frames (evict_front b.config.max_buffer_size b.buffered_bytes b.frames) b)
evict_by (k ∷ p ∷ ps) b =
    let boundary = find_boundary b.config (max_timestamp 0 b.frames) b.frames 0 (p ∷ ps) in
    update_keyframe_index (with_frames (pop_frames boundary b.buffered_bytes b.frames) b)

-- Without frames there is nothing to evict.
unfoldable pub evict_old_frames : GopBuffer → GopBuffer
evict_old_frames b =
    if length b.frames == 0 || not (needs_eviction b)
    then b
    else evict_by (keyframe_indices 0 b.frames) b

-- The frame at the end, and the keyframe that it may be.
unfoldable pub append_frame : BufferedFrame → GopBuffer → GopBuffer
append_frame f b =
    let added = record b {
      frames = b.frames ++ (f ∷ []);
      buffered_bytes = add64 b.buffered_bytes (size f);
    } in
    if is_video_keyframe f
    then record added { last_keyframe_index = length b.frames; has_keyframe = true }
    else added

unfoldable pub push_frame : BufferedFrame → GopBuffer → GopBuffer
push_frame f b = evict_old_frames (append_frame f b)

unfoldable pub set_metadata : Value → GopBuffer → GopBuffer
set_metadata v b = record b { metadata = some v }

unfoldable pub set_sequence_headers : List ℕ → List ℕ → GopBuffer → GopBuffer
set_sequence_headers video_header audio_header b = record b {
  sequence_headers = record { video_header = video_header; audio_header = audio_header };
}

unfoldable pub get_from_last_keyframe : GopBuffer → List BufferedFrame
get_from_last_keyframe b =
    if not b.has_keyframe || (length b.frames == 0) then [] else drop b.last_keyframe_index b.frames

unfoldable pub set_gop_config : GopBufferConfig → GopBuffer → GopBuffer
set_gop_config config b = evict_old_frames (record b { config = config })

unfoldable pub clear_gops : GopBuffer → GopBuffer
clear_gops b = record b {
  frames = [];
  buffered_bytes = 0;
  last_keyframe_index = 0;
  has_keyframe = false;
}

unfoldable pub reset_gops : GopBuffer → GopBuffer
reset_gops b = record b {
  frames = [];
  buffered_bytes = 0;
  last_keyframe_index = 0;
  has_keyframe = false;
  metadata = none;
  sequence_headers = no_headers;
}
