-- ===== src/Streaming/SubscriberBuffer.antt =====
-- SubscriberBuffer of include/openrtmp/streaming/subscriber_buffer.hpp. Durations are milliseconds
-- that are not negative. The clock is read once in an operation, as `now`. The frames that are
-- passed to the callback for dropped frames, when there is one, are the list that an operation
-- returns with the buffer.
pub mod Accounts
pub mod Drops
pub mod Limits
pub mod Runs
use open_rtmp_claude_kiro.Common.{
  Bool, List, Option, [], add64, false, if◌then◌else◌, leb, length, ltb, none, not, some, sub64,
  suc, true, zero, ℕ, ◌&&◌, ◌++◌, ◌||◌, ◌∷◌,
}
use open_rtmp_claude_kiro.Streaming.Frames.{
  BufferedFrame, buffer_duration, is_audio, is_data, is_video, size,
}

pub record SubscriberBufferConfig : Type 0 where
  pub max_buffer_duration : ℕ
  pub max_buffer_size : ℕ
  pub preserve_audio : Bool
  pub preserve_keyframes : Bool

pub record SubscriberBufferStatistics : Type 0 where
  pub dropped_inter_frames : ℕ
  pub dropped_keyframes : ℕ
  pub dropped_audio_frames : ℕ
  pub total_dropped_bytes : ℕ
  pub last_drop_time : Option ℕ
  pub total_frames_processed : ℕ
  pub total_bytes_processed : ℕ

pub record SubscriberBuffer : Type 0 where
  pub frames : List BufferedFrame
  pub buffered_bytes : ℕ
  pub statistics : SubscriberBufferStatistics
  pub config : SubscriberBufferConfig
  pub has_callback : Bool

abbrev pub default_config : SubscriberBufferConfig
default_config = record {
  max_buffer_duration = 5000;
  max_buffer_size = 0;
  preserve_audio = true;
  preserve_keyframes = true;
}

abbrev pub no_statistics : SubscriberBufferStatistics
no_statistics = record {
  dropped_inter_frames = 0;
  dropped_keyframes = 0;
  dropped_audio_frames = 0;
  total_dropped_bytes = 0;
  last_drop_time = none;
  total_frames_processed = 0;
  total_bytes_processed = 0;
}

-- The constructor.
unfoldable pub new_buffer : SubscriberBufferConfig → SubscriberBuffer
new_buffer config = record {
  frames = [];
  buffered_bytes = 0;
  statistics = no_statistics;
  config = config;
  has_callback = false;
}

unfoldable pub record_dropped_frame :
    ℕ → BufferedFrame → SubscriberBufferStatistics → SubscriberBufferStatistics
record_dropped_frame now f s =
    let counted = record s {
      total_dropped_bytes = add64 s.total_dropped_bytes (size f);
      last_drop_time = some now;
    } in
    if is_video f.media_type
    then if f.is_keyframe
      then record counted { dropped_keyframes = add64 s.dropped_keyframes 1 }
      else record counted { dropped_inter_frames = add64 s.dropped_inter_frames 1 }
    else if is_audio f.media_type
    then record counted { dropped_audio_frames = add64 s.dropped_audio_frames 1 }
    else counted

unfoldable pub should_drop_frame : SubscriberBuffer → BufferedFrame → Bool
should_drop_frame b f =
    let inter = is_video f.media_type && not f.is_keyframe in
    if is_video f.media_type && f.is_keyframe
    then false
    else if b.config.preserve_audio && is_audio f.media_type
    then false
    else if ltb b.config.max_buffer_duration (buffer_duration b.frames) && inter
    then true
    else (ltb 0 b.config.max_buffer_size && ltb b.config.max_buffer_size b.buffered_bytes) && inter

-- The frames that `enforceBufferLimit` skips.
unfoldable pub is_preserved : SubscriberBufferConfig → BufferedFrame → Bool
is_preserved config f =
    (is_video f.media_type && f.is_keyframe)
    || ((config.preserve_audio && is_audio f.media_type) || is_data f.media_type)

-- `!droppableFrames.empty()`.
unfoldable pub has_droppable : SubscriberBufferConfig → List BufferedFrame → Bool
has_droppable config [] = false
has_droppable config (f ∷ fs) = not (is_preserved config f) || has_droppable config fs

-- The callback's call, after those so far.
unfoldable pub report : SubscriberBuffer → BufferedFrame → List BufferedFrame → List BufferedFrame
report b f reports = if b.has_callback then reports ++ (f ∷ []) else reports

-- The record and the count of the bytes of a frame that is erased.
unfoldable pub drop_frame : ℕ → BufferedFrame → SubscriberBuffer → SubscriberBuffer
drop_frame now f b = record b {
  buffered_bytes = sub64 b.buffered_bytes (size f);
  statistics = record_dropped_frame now f b.statistics;
}

pub record Pass : Type 0 where
  pub buffer : SubscriberBuffer
  pub dropped_any : Bool
  pub reports : List BufferedFrame

-- The inner loop: the frames before the iterator, and those from it on.
unfoldable pub drop_pass :
    ℕ
    → SubscriberBuffer
    → Bool
    → List BufferedFrame
    → List BufferedFrame
    → List BufferedFrame
    → Pass
drop_pass now b any reports kept [] = record {
  buffer = record b { frames = kept };
  dropped_any = any;
  reports = reports;
}
drop_pass now b any reports kept (f ∷ rest) =
    elim (leb (buffer_duration (kept ++ (f ∷ rest))) b.config.max_buffer_duration) [
      | true ↦ record {
        buffer = record b { frames = kept ++ (f ∷ rest) };
        dropped_any = any;
        reports = reports;
      }
      | false ↦ elim (is_preserved b.config f) [
        | true ↦ drop_pass now b any reports (kept ++ (f ∷ [])) rest
        | false ↦ drop_pass now (drop_frame now f b) true (report b f reports) kept rest
      ]
    ]

-- The condition of the outer loop, and that there are droppable frames.
unfoldable pub must_drop : SubscriberBuffer → Bool
must_drop b =
    (ltb b.config.max_buffer_duration (buffer_duration b.frames) && ltb 1 (length b.frames))
    && has_droppable b.config b.frames

-- The outer loop, on fuel.
unfoldable pub enforce_loop :
    ℕ → ℕ → SubscriberBuffer → List BufferedFrame → SubscriberBuffer × List BufferedFrame
enforce_loop now zero b reports = (b, reports)
enforce_loop now (suc fuel) b reports =
    let p = drop_pass now b false reports [] b.frames in
    elim (must_drop b) [
      | true ↦ elim p.dropped_any [
        | true ↦ enforce_loop now fuel p.buffer p.reports
        | false ↦ (p.buffer, p.reports)
      ]
      | false ↦ (b, reports)
    ]

-- Without frames the loop does not run.
unfoldable pub enforce_buffer_limit : ℕ → SubscriberBuffer → SubscriberBuffer × List BufferedFrame
enforce_buffer_limit now b = enforce_loop now (suc (length b.frames)) b []

-- The statistics of a frame that is pushed.
abbrev pub count_frame : BufferedFrame → SubscriberBuffer → SubscriberBuffer
count_frame f b = record b {
  statistics = record b.statistics {
    total_frames_processed = add64 b.statistics.total_frames_processed 1;
    total_bytes_processed = add64 b.statistics.total_bytes_processed (size f);
  };
}

unfoldable pub push : ℕ → BufferedFrame → SubscriberBuffer → SubscriberBuffer × List BufferedFrame
push now f b₀ =
    let b = count_frame f b₀ in
    if should_drop_frame b f
    then (record b { statistics = record_dropped_frame now f b.statistics }, report b f [])
    else enforce_buffer_limit now (record b {
      frames = b.frames ++ (f ∷ []);
      buffered_bytes = add64 b.buffered_bytes (size f);
    })

-- The frame at the front of the deque.
unfoldable pub pop_front :
    List BufferedFrame → SubscriberBuffer → Option BufferedFrame × SubscriberBuffer
pop_front [] b = (none, b)
pop_front (f ∷ fs) b =
    (some f, record b { frames = fs; buffered_bytes = sub64 b.buffered_bytes (size f) })

unfoldable pub pop : SubscriberBuffer → Option BufferedFrame × SubscriberBuffer
pop b = pop_front b.frames b

unfoldable pub peek : SubscriberBuffer → Option BufferedFrame
peek b = elim b.frames [ [] ↦ none | f ∷ fs ↦ some f ]

unfoldable pub get_dropped_frame_count : SubscriberBuffer → ℕ
get_dropped_frame_count b =
    add64 (add64 b.statistics.dropped_inter_frames b.statistics.dropped_keyframes)
      b.statistics.dropped_audio_frames

unfoldable pub reset_statistics : SubscriberBuffer → SubscriberBuffer
reset_statistics b = record b { statistics = no_statistics }

unfoldable pub set_config :
    ℕ → SubscriberBufferConfig → SubscriberBuffer → SubscriberBuffer × List BufferedFrame
set_config now config b = enforce_buffer_limit now (record b { config = config })

unfoldable pub set_on_frame_dropped_callback : Bool → SubscriberBuffer → SubscriberBuffer
set_on_frame_dropped_callback callback b = record b { has_callback = callback }

unfoldable pub clear : SubscriberBuffer → SubscriberBuffer
clear b = record b { frames = []; buffered_bytes = 0 }

unfoldable pub reset : SubscriberBuffer → SubscriberBuffer
reset b = record b { frames = []; buffered_bytes = 0; statistics = no_statistics }
