-- ===== src/Streaming/Frames.antt =====
-- BufferedFrame of include/openrtmp/streaming/gop_buffer.hpp, with what both buffers compute from
-- their frames. A deque is a list, its front first.
use open_rtmp_claude_kiro.Common.{
  Bool, List, [], arith, false, if◌then◌else◌, leb, length, ltb, true, ℕ, ◌%◌, ◌&&◌, ◌++◌, ◌+◌, ◌-◌,
  ◌^◌, ◌∷◌, ◌≡◌, ◌≤◌,
}

pub data MediaType : Type 0 where
  audio video data_frame : MediaType

pub record BufferedFrame : Type 0 where
  pub media_type : MediaType
  pub timestamp : ℕ
  pub payload : List ℕ
  pub is_keyframe : Bool

unfoldable pub is_video : MediaType → Bool
is_video audio = false
is_video video = true
is_video data_frame = false

unfoldable pub is_audio : MediaType → Bool
is_audio audio = true
is_audio video = false
is_audio data_frame = false

unfoldable pub is_data : MediaType → Bool
is_data audio = false
is_data video = false
is_data data_frame = true

-- `frame.isKeyframe && frame.type == MediaType::Video`.
unfoldable pub is_video_keyframe : BufferedFrame → Bool
is_video_keyframe f = f.is_keyframe && is_video f.media_type

-- `frame.data.size()`, a size_t.
unfoldable pub size : BufferedFrame → ℕ
size f = length f.payload % 2 ^ 64

unfoldable pub total_bytes : List BufferedFrame → ℕ
total_bytes [] = 0
total_bytes (f ∷ fs) = size f + total_bytes fs

-- The loop over the timestamps, with the minimum and the maximum so far.
unfoldable pub min_timestamp : ℕ → List BufferedFrame → ℕ
min_timestamp low [] = low
min_timestamp low (f ∷ fs) = min_timestamp (if ltb f.timestamp low then f.timestamp else low) fs

unfoldable pub max_timestamp : ℕ → List BufferedFrame → ℕ
max_timestamp high [] = high
max_timestamp high (f ∷ fs) = max_timestamp (if ltb high f.timestamp then f.timestamp else high) fs

-- In milliseconds: 0 for no frames, since then the maximum is below the minimum.
unfoldable pub buffer_duration : List BufferedFrame → ℕ
buffer_duration fs =
    let low = min_timestamp 0xFFFFFFFF fs in
    let high = max_timestamp 0 fs in if leb low high then high - low else 0

pub total_bytes-append :
    (fs gs : List BufferedFrame) → total_bytes (fs ++ gs) ≡ total_bytes fs + total_bytes gs
unfolding total_bytes
total_bytes-append [] gs = omega arith
total_bytes-append (f ∷ fs) gs = omega (arith, total_bytes-append fs gs)

min_timestamp_mono :
    (a b : ℕ) (fs : List BufferedFrame) → a ≤ b → min_timestamp a fs ≤ min_timestamp b fs
unfolding min_timestamp
min_timestamp_mono a b [] h = h
min_timestamp_mono a b (f ∷ fs) h =
    min_timestamp_mono (if ltb f.timestamp a then f.timestamp else a)
      (if ltb f.timestamp b then f.timestamp else b) fs (ground arith)

max_timestamp_mono :
    (a b : ℕ) (fs : List BufferedFrame) → a ≤ b → max_timestamp a fs ≤ max_timestamp b fs
unfolding max_timestamp
max_timestamp_mono a b [] h = h
max_timestamp_mono a b (f ∷ fs) h =
    max_timestamp_mono (if ltb a f.timestamp then f.timestamp else a)
      (if ltb b f.timestamp then f.timestamp else b) fs (ground arith)

-- Without its first frame a buffer is not longer.
pub buffer_duration-tail :
    (f : BufferedFrame) (fs : List BufferedFrame) → buffer_duration fs ≤ buffer_duration (f ∷ fs)
unfolding buffer_duration min_timestamp max_timestamp
buffer_duration-tail f fs = ground (
  arith,
  min_timestamp_mono (if ltb f.timestamp 0xFFFFFFFF then f.timestamp else 0xFFFFFFFF) 0xFFFFFFFF fs
      (ground arith),
  max_timestamp_mono 0 (if ltb 0 f.timestamp then f.timestamp else 0) fs (ground arith),
)
