-- ===== src/Streaming/SubscriberBuffer/Accounts.antt =====
-- The bytes that are counted, and the counts of the frames that are dropped.
use open_rtmp_claude_kiro.Common.{
  Bool-cases, List, [], add64, arith, false, inl, inr, length, length-append, refl, true, ℕ, ◌%◌,
  ◌++◌, ◌<◌, ◌^◌, ◌||◌, ◌∙◌, ◌∷◌, ◌≡◌,
}
use open_rtmp_claude_kiro.Streaming.Frames.{
  BufferedFrame, MediaType, audio, data_frame, is_audio, is_data, is_video, size, total_bytes,
  total_bytes-append, video,
}
use open_rtmp_claude_kiro.Streaming.SubscriberBuffer.{
  SubscriberBuffer, SubscriberBufferConfig, SubscriberBufferStatistics, count_frame, drop_frame,
  enforce_buffer_limit, get_dropped_frame_count, is_preserved, pop, pop_front, push,
  record_dropped_frame, should_drop_frame,
}
use open_rtmp_claude_kiro.Streaming.SubscriberBuffer.Drops.{enforce-keeps, should_drop-droppable}

abbrev pub IsAccounted : SubscriberBuffer → Type 0
IsAccounted b =
    (b.buffered_bytes ≡ total_bytes b.frames % 2 ^ 64) × (b.statistics.dropped_keyframes ≡ 0)

size-lt : (f : BufferedFrame) → size f < 2 ^ 64
unfolding size
size-lt f = omega arith

dropped-keyframes :
    (now : ℕ) (config : SubscriberBufferConfig) (f : BufferedFrame) (s : SubscriberBufferStatistics)
    → is_preserved config f ≡ false
    → (record_dropped_frame now f s).dropped_keyframes ≡ s.dropped_keyframes
unfolding record_dropped_frame is_preserved
dropped-keyframes now config f s h = elim (Bool-cases (is_video f.media_type)) [
  | inl e ↦ elim (Bool-cases f.is_keyframe) [
    | inl d ↦ absurd (ground arith)
    | inr d ↦ rw (e, d) refl
  ]
  | inr e ↦ elim (Bool-cases (is_audio f.media_type)) [
    | inl d ↦ rw (e, d) refl
    | inr d ↦ rw (e, d) refl
  ]
]

IsAccounted-drop_frame :
    (now : ℕ) (b : SubscriberBuffer) (f : BufferedFrame) (kept rest : List BufferedFrame)
    → is_preserved b.config f ≡ false
    → IsAccounted (record b { frames = kept ++ (f ∷ rest) })
    → IsAccounted (record (drop_frame now f b) { frames = kept ++ rest })
unfolding drop_frame total_bytes
IsAccounted-drop_frame now b f kept rest e h = (
  omega (arith, h.0, size-lt f, total_bytes-append kept (f ∷ rest), total_bytes-append kept rest),
  dropped-keyframes now b.config f b.statistics e ∙ h.1,
)

pub enforce-IsAccounted :
    (now : ℕ) (b : SubscriberBuffer) → IsAccounted b → IsAccounted (enforce_buffer_limit now b).0
enforce-IsAccounted now b h = enforce-keeps now IsAccounted (IsAccounted-drop_frame now) b h

pub push-IsAccounted :
    (now : ℕ) (f : BufferedFrame) (b : SubscriberBuffer)
    → IsAccounted b
    → IsAccounted (push now f b).0
unfolding push total_bytes
push-IsAccounted now f b h = elim (Bool-cases (should_drop_frame (count_frame f b) f)) [
  | inl e ↦ rw (e) (
    h.0,
    dropped-keyframes now b.config f (count_frame f b).statistics
          (should_drop-droppable (count_frame f b) f e)
        ∙ h.1,
  )
  | inr e ↦
      rw (e) (enforce-IsAccounted now _ (omega (arith, total_bytes-append b.frames (f ∷ [])), h.1))
]

pop_front-IsAccounted :
    (fs : List BufferedFrame) (b : SubscriberBuffer)
    → IsAccounted (record b { frames = fs })
    → IsAccounted b
    → IsAccounted (pop_front fs b).1
unfolding pop_front total_bytes
pop_front-IsAccounted [] b h k = k
pop_front-IsAccounted (f ∷ fs) b h k = (omega (arith, size-lt f, h.0), h.1)

pub pop-IsAccounted : (b : SubscriberBuffer) → IsAccounted b → IsAccounted (pop b).1
unfolding pop
pop-IsAccounted b h = pop_front-IsAccounted b.frames b h h

media_type-cases : (m : MediaType) → (is_video m || (is_audio m || is_data m)) ≡ true
unfolding is_video is_audio is_data
media_type-cases audio = refl
media_type-cases video = refl
media_type-cases data_frame = refl

unfoldable pub dropped_sum : SubscriberBufferStatistics → ℕ
dropped_sum s = add64 (add64 s.dropped_inter_frames s.dropped_keyframes) s.dropped_audio_frames

dropped_sum-record :
    (now : ℕ) (config : SubscriberBufferConfig) (f : BufferedFrame) (s : SubscriberBufferStatistics)
    → is_preserved config f ≡ false
    → dropped_sum (record_dropped_frame now f s) ≡ add64 (dropped_sum s) 1
unfolding record_dropped_frame is_preserved dropped_sum
dropped_sum-record now config f s h = elim (Bool-cases (is_video f.media_type)) [
  | inl e ↦ elim (Bool-cases f.is_keyframe) [
    | inl d ↦ absurd (ground arith)
    | inr d ↦ rw (e, d) (omega arith)
  ]
  | inr e ↦ elim (Bool-cases (is_audio f.media_type)) [
    | inl d ↦ rw (e, d) (omega arith)
    | inr d ↦ absurd (ground (arith, media_type-cases f.media_type))
  ]
]

-- The frames in the buffer and those that were dropped, as 64 bits.
abbrev pub handled : SubscriberBuffer → ℕ
handled b = add64 (length b.frames) (get_dropped_frame_count b)

handled-drop_frame :
    (now k : ℕ) (b : SubscriberBuffer) (f : BufferedFrame) (kept rest : List BufferedFrame)
    → is_preserved b.config f ≡ false
    → handled (record b { frames = kept ++ (f ∷ rest) }) ≡ k
    → handled (record (drop_frame now f b) { frames = kept ++ rest }) ≡ k
unfolding drop_frame get_dropped_frame_count dropped_sum
handled-drop_frame now k b f kept rest e h = omega (
  arith,
  h,
  dropped_sum-record now b.config f b.statistics e,
  length-append kept (f ∷ rest),
  length-append kept rest,
)

-- A push adds one, in 64 bits, to the frames in the buffer and those that were dropped together:
-- each frame is either still there or counted as dropped, and none is counted twice.
pub handled-push :
    (now : ℕ) (f : BufferedFrame) (b : SubscriberBuffer)
    → handled (push now f b).0 ≡ add64 (handled b) 1
unfolding push get_dropped_frame_count dropped_sum
handled-push now f b = elim (Bool-cases (should_drop_frame (count_frame f b) f)) [
  | inl e ↦ rw (e) (
      omega (
        arith,
        dropped_sum-record now b.config f (count_frame f b).statistics
            (should_drop-droppable (count_frame f b) f e),
      ))
  | inr e ↦ rw (e) (
      enforce-keeps now (λ c. handled c ≡ add64 (handled b) 1)
        (handled-drop_frame now (add64 (handled b) 1)) _
        (omega (arith, length-append b.frames (f ∷ []))))
]
