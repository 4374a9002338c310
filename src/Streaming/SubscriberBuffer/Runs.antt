-- ===== src/Streaming/SubscriberBuffer/Runs.antt =====
-- The operations of the interface in any order, from a new buffer.
use open_rtmp_claude_kiro.Common.{Bool, List, [], arith, false, refl, ℕ, ◌∷◌, ◌≡◌}
use open_rtmp_claude_kiro.Streaming.Frames.{BufferedFrame, total_bytes}
use open_rtmp_claude_kiro.Streaming.SubscriberBuffer.{
  SubscriberBuffer, SubscriberBufferConfig, clear, has_droppable, must_drop, new_buffer, pop, push,
  reset, reset_statistics, set_config, set_on_frame_dropped_callback,
}
use open_rtmp_claude_kiro.Streaming.SubscriberBuffer.Accounts.{
  IsAccounted, enforce-IsAccounted, pop-IsAccounted, push-IsAccounted,
}
use open_rtmp_claude_kiro.Streaming.SubscriberBuffer.Limits.{
  enforce-settled, pop-settled, push-settled,
}

pub data Operation : Type 0 where
  do_push : ℕ → BufferedFrame → Operation
  do_pop do_reset_statistics do_clear do_reset : Operation
  do_set_config : ℕ → SubscriberBufferConfig → Operation
  do_set_callback : Bool → Operation

unfoldable pub apply : Operation → SubscriberBuffer → SubscriberBuffer
apply (do_push now f) b = (push now f b).0
apply do_pop b = (pop b).1
apply do_reset_statistics b = reset_statistics b
apply do_clear b = clear b
apply do_reset b = reset b
apply (do_set_config now config) b = (set_config now config b).0
apply (do_set_callback callback) b = set_on_frame_dropped_callback callback b

unfoldable pub run : List Operation → SubscriberBuffer → SubscriberBuffer
run [] b = b
run (o ∷ os) b = run os (apply o b)

-- What holds between two operations.
abbrev pub IsSound : SubscriberBuffer → Type 0
IsSound b = IsAccounted b × (must_drop b ≡ false)

emptied : (b : SubscriberBuffer) → must_drop (record b { frames = [] }) ≡ false
unfolding must_drop has_droppable
emptied b = ground arith

pub apply-IsSound : (o : Operation) (b : SubscriberBuffer) → IsSound b → IsSound (apply o b)
unfolding apply reset_statistics clear reset set_config set_on_frame_dropped_callback must_drop
    total_bytes
apply-IsSound (do_push now f) b h = (push-IsAccounted now f b h.0, push-settled now f b h.1)
apply-IsSound do_pop b h = (pop-IsAccounted b h.0, pop-settled b h.1)
apply-IsSound do_reset_statistics b h = ((h.0.0, refl), h.1)
apply-IsSound do_clear b h = ((refl, h.0.1), emptied b)
apply-IsSound do_reset b h = ((refl, refl), emptied b)
apply-IsSound (do_set_config now config) b h = (
  enforce-IsAccounted now (record b { config = config }) h.0,
  enforce-settled now (record b { config = config }),
)
apply-IsSound (do_set_callback callback) b h = h

run-keeps : (os : List Operation) (b : SubscriberBuffer) → IsSound b → IsSound (run os b)
unfolding run
run-keeps [] b h = h
run-keeps (o ∷ os) b h = run-keeps os (apply o b) (apply-IsSound o b h)

-- After any operations on a new buffer the byte count is, in 64 bits, that of the frames it holds,
-- no keyframe is counted as dropped, and the loops have come to their end: the buffer is within its
-- duration, or holds at most one frame, or none that may be dropped.
pub run-IsSound :
    (config : SubscriberBufferConfig) (os : List Operation) → IsSound (run os (new_buffer config))
unfolding new_buffer must_drop total_bytes
run-IsSound config os = run-keeps os (new_buffer config) ((refl, refl), emptied (new_buffer config))
