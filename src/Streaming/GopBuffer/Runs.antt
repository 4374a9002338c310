-- ===== src/Streaming/GopBuffer/Runs.antt =====
-- The operations of the interface in any order, from a new buffer.
use open_rtmp_claude_kiro.Common.{
  Bool-cases, List, [], arith, drop, inl, inr, length, refl, ℕ, ◌<◌, ◌∷◌, ◌≡◌, ◌≤◌,
}
use open_rtmp_claude_kiro.Protocol.AmfCodec.Values.{Value}
use open_rtmp_claude_kiro.Streaming.Frames.{
  BufferedFrame, is_video_keyframe, total_bytes, total_bytes-append,
}
use open_rtmp_claude_kiro.Streaming.GopBuffer.{
  GopBuffer, GopBufferConfig, append_frame, clear_gops, evict_old_frames, get_from_last_keyframe,
  keyframe_indices, new_gop_buffer, push_frame, reset_gops, set_gop_config, set_metadata,
  set_sequence_headers,
}
use open_rtmp_claude_kiro.Streaming.GopBuffer.Eviction.{
  IsWeighed, evict-IsEviction, evict-IsIndexed,
}
use open_rtmp_claude_kiro.Streaming.GopBuffer.Keyframes.{
  IsIndexed, any_keyframe, append_frame-IsIndexed, from_last_keyframe,
  get_from_last_keyframe-IsIndexed,
}

pub data GopOperation : Type 0 where
  do_push_frame : BufferedFrame → GopOperation
  do_set_metadata : Value → GopOperation
  do_set_sequence_headers : List ℕ → List ℕ → GopOperation
  do_set_gop_config : GopBufferConfig → GopOperation
  do_clear_gops do_reset_gops : GopOperation

unfoldable pub apply_to_gops : GopOperation → GopBuffer → GopBuffer
apply_to_gops (do_push_frame f) b = push_frame f b
apply_to_gops (do_set_metadata v) b = set_metadata v b
apply_to_gops (do_set_sequence_headers video_header audio_header) b =
    set_sequence_headers video_header audio_header b
apply_to_gops (do_set_gop_config config) b = set_gop_config config b
apply_to_gops do_clear_gops b = clear_gops b
apply_to_gops do_reset_gops b = reset_gops b

unfoldable pub run_gops : List GopOperation → GopBuffer → GopBuffer
run_gops [] b = b
run_gops (o ∷ os) b = run_gops os (apply_to_gops o b)

append_frame-config : (f : BufferedFrame) (b : GopBuffer) → (append_frame f b).config ≡ b.config
unfolding append_frame
append_frame-config f b = elim (Bool-cases (is_video_keyframe f)) [
  | inl e ↦ rw (e) refl
  | inr e ↦ rw (e) refl
]

append_frame-IsWeighed :
    (f : BufferedFrame) (b : GopBuffer) → IsWeighed b → IsWeighed (append_frame f b)
unfolding append_frame total_bytes
append_frame-IsWeighed f b h = elim (Bool-cases (is_video_keyframe f)) [
  | inl e ↦ rw (e) (omega (arith, h, total_bytes-append b.frames (f ∷ [])))
  | inr e ↦ rw (e) (omega (arith, h, total_bytes-append b.frames (f ∷ [])))
]

abbrev pub IsGopBuffer : GopBuffer → Type 0
IsGopBuffer b = IsWeighed b × IsIndexed b

pub evict-IsGopBuffer : (b : GopBuffer) → IsGopBuffer b → IsGopBuffer (evict_old_frames b)
evict-IsGopBuffer b h = ((evict-IsEviction b h.0).1, evict-IsIndexed b h.1)

apply-IsGopBuffer :
    (o : GopOperation) (b : GopBuffer) → IsGopBuffer b → IsGopBuffer (apply_to_gops o b)
unfolding apply_to_gops push_frame set_metadata set_sequence_headers set_gop_config clear_gops
    reset_gops total_bytes any_keyframe
apply-IsGopBuffer (do_push_frame f) b h =
    evict-IsGopBuffer (append_frame f b)
      (append_frame-IsWeighed f b h.0, append_frame-IsIndexed f b h.1)
apply-IsGopBuffer (do_set_metadata v) b h = h
apply-IsGopBuffer (do_set_sequence_headers video_header audio_header) b h = h
apply-IsGopBuffer (do_set_gop_config config) b h =
    evict-IsGopBuffer (record b { config = config }) h
apply-IsGopBuffer do_clear_gops b h = (refl, (refl, λ e. absurd cc))
apply-IsGopBuffer do_reset_gops b h = (refl, (refl, λ e. absurd cc))

run_gops-keeps :
    (os : List GopOperation) (b : GopBuffer) → IsGopBuffer b → IsGopBuffer (run_gops os b)
unfolding run_gops
run_gops-keeps [] b h = h
run_gops-keeps (o ∷ os) b h = run_gops-keeps os (apply_to_gops o b) (apply-IsGopBuffer o b h)

pub run_gops-IsGopBuffer :
    (config : GopBufferConfig) (os : List GopOperation)
    → IsGopBuffer (run_gops os (new_gop_buffer config))
unfolding new_gop_buffer total_bytes any_keyframe
run_gops-IsGopBuffer config os =
    run_gops-keeps os (new_gop_buffer config) (refl, (refl, λ e. absurd cc))

-- After any operations on a new buffer the byte count is, in 64 bits, that of the frames it holds,
-- and the frames that a new subscriber gets are those from the last video keyframe in the buffer on:
-- none when it holds no keyframe.
pub get_from_last_keyframe-run :
    (config : GopBufferConfig) (os : List GopOperation)
    → let b = run_gops os (new_gop_buffer config) in
      IsWeighed b × (get_from_last_keyframe b ≡ from_last_keyframe b.frames)
get_from_last_keyframe-run config os =
    let b = run_gops os (new_gop_buffer config) in
    let h = run_gops-IsGopBuffer config os in (h.0, get_from_last_keyframe-IsIndexed b h.1)

-- When the byte count is right and there are two video keyframes or more among the frames and the
-- new one behind them, pushing it leaves a suffix of these frames, with all the frames from the last
-- keyframe on.
pub push_frame-last_group :
    (f : BufferedFrame) (b : GopBuffer)
    → IsWeighed b
    → 2 ≤ length (keyframe_indices 0 (append_frame f b).frames)
    → ((n : ℕ) × ((push_frame f b).frames ≡ drop n (append_frame f b).frames))
      × (from_last_keyframe (push_frame f b).frames ≡ from_last_keyframe (append_frame f b).frames)
unfolding push_frame
push_frame-last_group f b h many =
    let e = evict-IsEviction (append_frame f b) (append_frame-IsWeighed f b h) in (e.0, e.2 many)

-- When the byte count is right and there are fewer than two video keyframes among the frames and the
-- new one behind them, pushing it leaves a suffix of these frames, within the size limit.
pub push_frame-size :
    (f : BufferedFrame) (b : GopBuffer)
    → IsWeighed b
    → length (keyframe_indices 0 (append_frame f b).frames) < 2
    → ((n : ℕ) × ((push_frame f b).frames ≡ drop n (append_frame f b).frames))
      × ((push_frame f b).buffered_bytes ≤ b.config.max_buffer_size)
unfolding push_frame
push_frame-size f b h few =
    let e = evict-IsEviction (append_frame f b) (append_frame-IsWeighed f b h) in
    (e.0, simp (append_frame-config f b) at (e.3 few))
