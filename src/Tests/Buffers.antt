-- ===== src/Tests/Buffers.antt =====
-- Frames through the buffers.
use open_rtmp_claude_kiro.Common.{
  Bool, [], arith, drop, false, length, none, refl, some, true, ℕ, ◌++◌, ◌∷◌, ◌≡◌, ◌≤◌,
}
use open_rtmp_claude_kiro.Common.Maps.{find, insert, nat_eq}
use open_rtmp_claude_kiro.Streaming.Frames.{
  BufferedFrame, audio, is_video, is_video_keyframe, size, total_bytes, video,
}
use open_rtmp_claude_kiro.Streaming.GopBuffer.{
  GopBuffer, GopBufferConfig, append_frame, get_from_last_keyframe, keyframe_indices,
  new_gop_buffer, no_headers, push_frame,
}
use open_rtmp_claude_kiro.Streaming.GopBuffer.Eviction.{IsWeighed}
use open_rtmp_claude_kiro.Streaming.GopBuffer.Keyframes.{from_last_keyframe}
use open_rtmp_claude_kiro.Streaming.GopBuffer.Runs.{
  do_push_frame, get_from_last_keyframe-run, push_frame-last_group, run_gops,
}
use open_rtmp_claude_kiro.Streaming.SubscriberBuffer.{
  SubscriberBuffer, default_config, new_buffer, set_on_frame_dropped_callback,
}
use open_rtmp_claude_kiro.Streaming.SubscriberBuffer.Drops.{preserved, preserved-push}
use open_rtmp_claude_kiro.Streaming.SubscriberBuffer.Runs.{
  IsSound, do_pop, do_push, run, run-IsSound,
}
use open_rtmp_claude_kiro.Streaming.SubscriberBufferManager.{add_subscriber, add_subscriber_with}
use open_rtmp_claude_kiro.Streaming.SubscriberBufferManager.Runs.{
  apply_to_manager, do_add_subscriber, new_manager, run_manager, run_manager-IsSound,
}
use open_rtmp_claude_kiro.Streaming.SubscriberBuffer

abbrev frame : Bool → ℕ → BufferedFrame
frame key time = record {
  media_type = video;
  timestamp = time;
  payload = 1 ∷ 2 ∷ [];
  is_keyframe = key;
}

abbrev sound : ℕ → BufferedFrame
sound time = record { media_type = audio; timestamp = time; payload = 3 ∷ []; is_keyframe = false }

abbrev filled : SubscriberBuffer
filled =
    run (do_push 1 (frame true 0) ∷ do_push 2 (frame false 40) ∷ do_push 3 (sound 45) ∷ [])
      (new_buffer default_config)

-- The buffer holds six seconds after this frame, so the inter frame is dropped.
preserved-push_example :
    preserved filled.config (SubscriberBuffer.push 4 (sound 6000) filled).0.frames
    ≡ preserved filled.config (filled.frames ++ (sound 6000 ∷ []))
preserved-push_example = preserved-push 4 (sound 6000) filled

run-IsSound_example :
    IsSound (run (do_push 1 (frame true 0) ∷ do_pop ∷ []) (new_buffer default_config))
run-IsSound_example = run-IsSound default_config (do_push 1 (frame true 0) ∷ do_pop ∷ [])

run_manager-IsSound_example :
    IsSound (set_on_frame_dropped_callback false (new_buffer default_config))
run_manager-IsSound_example =
    run_manager-IsSound (do_add_subscriber 1 ∷ []) 1
      (set_on_frame_dropped_callback false (new_buffer default_config)) there
  where
    there :
        find 1 (run_manager (do_add_subscriber 1 ∷ []) new_manager).buffers
        ≡ some (set_on_frame_dropped_callback false (new_buffer default_config))
    there =
        unfold run_manager apply_to_manager add_subscriber add_subscriber_with new_manager find
          insert in
        refl

abbrev tight : GopBufferConfig
tight = record { min_buffer_duration = 10; max_buffer_size = 5 }

abbrev pictures : GopBuffer
pictures = record {
  frames = frame true 0 ∷ frame false 40 ∷ [];
  last_keyframe_index = 0;
  has_keyframe = true;
  metadata = none;
  sequence_headers = no_headers;
  buffered_bytes = 4;
  config = tight;
}

get_from_last_keyframe-run_example :
    let b =
      run_gops
        (do_push_frame (frame true 0) ∷ do_push_frame (frame false 40) ∷ [])
        (new_gop_buffer tight) in
    IsWeighed b × (get_from_last_keyframe b ≡ from_last_keyframe b.frames)
get_from_last_keyframe-run_example =
    get_from_last_keyframe-run tight
      (do_push_frame (frame true 0) ∷ do_push_frame (frame false 40) ∷ [])

weighed : IsWeighed pictures
weighed = unfold total_bytes size in omega arith

push_frame-last_group_example :
    ((n : ℕ) × ((push_frame (frame true 80) pictures).frames
        ≡ drop n (append_frame (frame true 80) pictures).frames))
    × (from_last_keyframe (push_frame (frame true 80) pictures).frames
        ≡ from_last_keyframe (append_frame (frame true 80) pictures).frames)
push_frame-last_group_example = push_frame-last_group (frame true 80) pictures weighed many
  where
    many : 2 ≤ length (keyframe_indices 0 (append_frame (frame true 80) pictures).frames)
    many = unfold append_frame keyframe_indices is_video_keyframe is_video in omega arith
